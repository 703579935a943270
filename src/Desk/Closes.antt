-- ===== src/Desk/Closes.antt =====
-- The closes of packages/backend/signing-layer/src/orderBuilder.ts, as autoSettlement.ts starts them, and
-- the outcomes of the bets.
use polyshield.Common.{
  ℕ, ◌≡◌, Bool, true, false, Option, none, some, ◌||◌, ◌==◌, Bool-cases, inl, inr, refl, is_some,
  if_both, ltb, ap,
}
use polyshield.Attest.Store.{Signer, Store, sold, get_attestation}
use polyshield.Attest.SingleWrite.{sold_keeps_outcome}
use polyshield.Attest.Terminal.{store_report, terminal_report, attest_terminal, sell_report}
use polyshield.Signing.TokenBinding.{CloseDecision, close, thrown}
use polyshield.Tracker.{Tracker, TrackedOrder, track_order, is_order_tracked, mem, already_attested}
use polyshield.Desk.{Desk, OrderType, gtc, gtd, fak, is_halted, with_store}
use polyshield.Desk.Outcomes.{check_response-store}
use polyshield.Desk.Submit.{PostReply, no_client, threw, answered}
use polyshield.Desk.Sell.{
  CloseRequest, SellAnswers, attest_sale, after_market_sell, market_sell_on, rest_sell,
  resting_sell, after_limit_sell, limit_sell_on, resolve_close_token, submit_market_sell_order,
  submit_limit_sell_order,
}
use polyshield.Desk.Routes.{close_request, submit_close, or_fak}

-- A property of the desk that no close changes: the outcome of a bet stays what it was.
abbrev SameOutcome : ℕ → Desk → Desk → Type 0
SameOutcome m d d' =
    get_attestation m none d'.tracker.store ≡ get_attestation m none d.tracker.store

store_report-sold :
    (ds : Bool) (sign : Signer) (n m a b : ℕ) (store : Store)
    → get_attestation m none (
        store_report ds sign n
          (some (record { report_type = sold; amount_a = a; amount_b = b }))
          store)
      ≡ get_attestation m none store
store_report-sold false sign n m a b store = refl
store_report-sold true sign n m a b store = sold_keeps_outcome sign n m a b store

sale-keeps :
    (ds : Bool) (sign : Signer) (req : CloseRequest) (price fee shares m : ℕ) (d : Desk)
    → SameOutcome m d (attest_sale ds sign req price fee shares d)
unfolding attest_sale with_store attest_terminal terminal_report sell_report
sale-keeps ds sign req price fee shares m d = elim (Bool-cases (shares == 0)) [
  | inl nothing ↦ rw nothing refl
  | inr sale ↦ rw sale (store_report-sold ds sign req.nullifier_of_bet m _ _ d.tracker.store)
]

track_order-store : (o : TrackedOrder) (t : Tracker) → (track_order o t).store ≡ t.store
unfolding track_order
track_order-store o t =
    if_both {A = Tracker} (λ u. u.store ≡ t.store)
      (mem o.nullifier t.finalized || already_attested o.side o.nullifier t.store) refl refl

market_sell-keeps :
    (ds : Bool) (sign : Signer) (mock : Bool) (req : CloseRequest) (a : SellAnswers)
    (reply : PostReply) (m : ℕ) (d : Desk)
    → SameOutcome m d (after_market_sell ds sign mock req a reply d)
market_sell-keeps ds sign mock req a no_client m d = refl
market_sell-keeps ds sign mock req a (threw status) m d =
    ap (get_attestation m none) (check_response-store status d)
market_sell-keeps ds sign true req a (answered size r) m d = sale-keeps ds sign req _ _ _ m d
market_sell-keeps ds sign false req a (answered size r) m d = sale-keeps ds sign req _ _ _ m d

market_sell_on-keeps :
    (ds : Bool) (sign : Signer) (mock : Bool) (c : CloseDecision) (req : CloseRequest)
    (a : SellAnswers) (m : ℕ) (d : Desk)
    → SameOutcome m d (market_sell_on ds sign mock c req a d)
market_sell_on-keeps ds sign true c req a m d = market_sell-keeps ds sign true req a a.reply m d
market_sell_on-keeps ds sign false (thrown reason) req a m d = refl
market_sell_on-keeps ds sign false (close token condition) req a m d =
    market_sell-keeps ds sign false req a a.reply m d

rest_sell-keeps :
    (ds : Bool) (sign : Signer) (req : CloseRequest) (token condition : ℕ) (id : Option ℕ)
    (fee m : ℕ) (d : Desk)
    → SameOutcome m d (rest_sell ds sign req token condition id fee d)
rest_sell-keeps ds sign req token condition none fee m d = refl
rest_sell-keeps ds sign req token condition (some id) fee m d =
    ap (get_attestation m none)
      (track_order-store (resting_sell ds sign req token condition id fee) d.tracker)

limit_sell-keeps :
    (ds : Bool) (sign : Signer) (mock : Bool) (token condition : ℕ) (req : CloseRequest) (fee : ℕ)
    (reply : PostReply) (m : ℕ) (d : Desk)
    → SameOutcome m d (after_limit_sell ds sign mock token condition req fee reply d)
limit_sell-keeps ds sign mock token condition req fee no_client m d = refl
limit_sell-keeps ds sign mock token condition req fee (threw status) m d =
    ap (get_attestation m none) (check_response-store status d)
limit_sell-keeps ds sign mock token condition req fee (answered size r) m d =
    rest_sell-keeps ds sign req token condition r.order_id _ m d

limit_sell_on-keeps :
    (ds : Bool) (sign : Signer) (mock : Bool) (c : CloseDecision) (req : CloseRequest)
    (a : SellAnswers) (m : ℕ) (d : Desk)
    → SameOutcome m d (limit_sell_on ds sign mock c req a d)
limit_sell_on-keeps ds sign true c req a m d =
    limit_sell-keeps ds sign true req.position_id req.position_id req a.fee a.reply m d
limit_sell_on-keeps ds sign false (thrown reason) req a m d = refl
limit_sell_on-keeps ds sign false (close token condition) req a m d =
    limit_sell-keeps ds sign false token condition req a.fee a.reply m d

abbrev has_sold : CloseRequest → Desk → Bool
has_sold req d = is_some (get_attestation req.nullifier_of_bet (some sold) d.tracker.store)

module _ (ds : Bool) (sign : Signer) (mock : Bool) (req : CloseRequest) (a : SellAnswers) (m : ℕ)
    (d : Desk) where
  market_order-keeps : SameOutcome m d (submit_market_sell_order ds sign mock req a d)
  unfolding submit_market_sell_order
  market_order-keeps = if_both {A = Desk} (SameOutcome m d) (is_halted d) refl (
      if_both {A = Desk} (SameOutcome m d) (has_sold req d) refl
        (market_sell_on-keeps ds sign mock (resolve_close_token mock req a.bet) req a m d))

  limit_order-keeps : SameOutcome m d (submit_limit_sell_order ds sign mock req a d)
  unfolding submit_limit_sell_order
  limit_order-keeps = if_both {A = Desk} (SameOutcome m d) (is_halted d) refl (
      if_both {A = Desk} (SameOutcome m d) (has_sold req d) refl (
        if_both {A = Desk} (SameOutcome m d) (is_order_tracked req.nullifier_of_bet d.tracker) refl
          (limit_sell_on-keeps ds sign mock (resolve_close_token mock req a.bet) req a m d)))

  submit_close-keeps : (type : OrderType) → SameOutcome m d (submit_close ds sign mock type req a d)
  submit_close-keeps fak = market_order-keeps
  submit_close-keeps gtc = limit_order-keeps
  submit_close-keeps gtd = limit_order-keeps

-- A close request, market or limit, whatever the CLOB and the chain answer, leaves the outcome of every
-- bet as it was: a failed close never makes a stake reclaimable.
pub close_request_keeps_outcomes :
    (ds : Bool) (sign : Signer) (mock : Bool) (type : Option OrderType) (req : CloseRequest)
    (a : SellAnswers) (m : ℕ) (d : Desk)
    → get_attestation m none (close_request ds sign mock type req a d).1.tracker.store
      ≡ get_attestation m none d.tracker.store
unfolding close_request
close_request_keeps_outcomes ds sign mock type req a m d =
    elim (Bool-cases
      (req.sold_shares == 0 || req.limit_price == 0 || ltb 1_000_000 req.limit_price)) [
        | inl refused ↦ rw refused refl
        | inr taken ↦
            rw taken (submit_close-keeps ds sign mock req a m d (or_fak ds sign mock type))
      ]
