-- ===== src/Desk/Once/Marked.antt =====
-- The listener and the routes (packages/backend/signing-layer/src/eventListener.ts, autoSettlement.ts)
-- keep what Desk/Once says of the orders that are posted; what follows for cancel-bet.
use polyshield.Desk.Once.Reconciled.{IsReconciled, cancel-added}
use polyshield.Common.{
  ℕ, ◌≡◌, ◌||◌, ◌==◌, ltb, Bool, false, Option, none, some, List, [], ◌∷◌, arith, Bool-cases, inl,
  inr, is_some, if_both, ◌⊎◌,
}
use polyshield.Attest.Store.{
  Signer, MarketSubmission, get_market_submission, get_attestation, Attestation,
}
use polyshield.Tracker.{mem, is_order_tracked}
use polyshield.Signing.TokenBinding.{BuyDecision, trade, reject}
use polyshield.Desk.{
  Desk, Intent, OrderType, gtc, gtd, fak, is_halted, started_at, restart, upsert_tracked_market,
  record_limit_order, is_actively_submitting,
}
use polyshield.Desk.Listener.{
  BetRecord, Answers, order_event, route, after_decision, process_bet_event, set_in_flight,
  on_record, is_handled, handle_bet_record, route_typed,
}
use polyshield.Desk.Sell.{CloseRequest, SellAnswers}
use polyshield.Desk.Routes.{
  CancelAnswers, cancel_bet, close_request, submit_close, or_fak, limit_order, cancel_submission,
  Outcome,
}
use polyshield.Desk.Runs.{
  Event, Move, bet, cancel, close, intent, tracker, handle, start_again, handle_event, step, run,
}
use polyshield.Desk.Once.Closes.{market_sell-IsSound, limit_sell-IsSound}
use polyshield.Desk.Once.{
  IsSound, IsReady, fail-IsSound, submit_fak_order-IsSound, submit_limit_order-IsSound,
}

module _ (domain_set : Bool) (sign : Signer) (mock : Bool) where
  route_typed-IsSound :
      (type : OrderType) (r : BetRecord) (token condition : ℕ) (a : Answers) (d : Desk)
      → IsReady r.nullifier d
      → IsSound (route_typed domain_set sign mock type (order_event r token condition) a d)
  route_typed-IsSound fak r token condition a d h =
      submit_fak_order-IsSound domain_set sign mock a.now (order_event r token condition) a.funded
        a.reply d h
  route_typed-IsSound gtc r token condition a d h =
      submit_limit_order-IsSound domain_set sign mock (order_event r token condition) a.funded
        a.reply a.fee d h
  route_typed-IsSound gtd r token condition a d h =
      submit_limit_order-IsSound domain_set sign mock (order_event r token condition) a.funded
        a.reply a.fee d h

  route-IsSound :
      (i : Option Intent) (r : BetRecord) (token condition : ℕ) (a : Answers) (d : Desk)
      → IsReady r.nullifier d
      → IsSound (route domain_set sign mock i (order_event r token condition) a d)
  route-IsSound none r token condition a d h =
      submit_fak_order-IsSound domain_set sign mock a.now (order_event r token condition) a.funded
        a.reply d h
  route-IsSound (some i) r token condition a d h =
      route_typed-IsSound i.order_type r token condition a d h

  after_decision-IsSound :
      (dec : BuyDecision) (r : BetRecord) (a : Answers) (d : Desk)
      → IsReady r.nullifier d
      → IsSound (after_decision domain_set sign mock dec r a d)
  unfolding upsert_tracked_market
  after_decision-IsSound (reject reason) r a d h =
      fail-IsSound domain_set sign mock r.nullifier d h.0
  after_decision-IsSound (trade token condition source) r a d h =
      route-IsSound _ r token condition a (upsert_tracked_market r.market_id condition a.end_date d)
        h

  set_in_flight-IsReady :
      (n now : ℕ) (d : Desk)
      → IsSound d
      → is_some (started_at n d.in_flight) ≡ false
      → IsReady n (set_in_flight domain_set sign mock n now d)
  unfolding set_in_flight started_at
  set_in_flight-IsReady n now d (flying, once, marked) fresh = (
    (λ m h. ground (arith, flying m h), once, marked),
    elim (Bool-cases (mem n d.posted)) [
      | inl was ↦ absurd (cc (flying n was))
      | inr not_yet ↦ not_yet
    ],
    ground arith,
  )

  on_record-IsSound :
      (market : Option ℕ) (r : BetRecord) (a : Answers) (d : Desk)
      → IsSound d
      → is_some (started_at r.nullifier d.in_flight) ≡ false
      → IsSound (on_record domain_set sign mock market r a d)
  unfolding process_bet_event
  on_record-IsSound none r a d h fresh = h
  on_record-IsSound (some market) r a d h fresh = if_both {A = Desk} IsSound _ h (
      after_decision-IsSound _ r a (set_in_flight domain_set sign mock r.nullifier a.now d)
        (set_in_flight-IsReady r.nullifier a.now d h fresh))

  unhandled :
      (n : ℕ) (d : Desk)
      → is_handled domain_set sign mock n d ≡ false
      → is_some (started_at n d.in_flight) ≡ false
  unfolding is_handled
  unhandled n d h = ground arith

  handle_bet_record-IsSound :
      (r : BetRecord) (a : Answers) (d : Desk)
      → IsSound d
      → IsSound (handle_bet_record domain_set sign mock r a d)
  unfolding handle_bet_record
  handle_bet_record-IsSound r a d h =
      elim (Bool-cases (is_handled domain_set sign mock r.nullifier d)) [
        | inl done ↦ rw done h
        | inr open_bet ↦
            rw open_bet (on_record-IsSound a.on_chain r a d h (unhandled r.nullifier d open_bet))
      ]

  submit_close-IsSound :
      (type : OrderType) (req : CloseRequest) (a : SellAnswers) (d : Desk)
      → IsSound d
      → IsSound (submit_close domain_set sign mock type req a d)
  submit_close-IsSound fak req a d h = market_sell-IsSound domain_set sign mock req a d h
  submit_close-IsSound gtc req a d h = limit_sell-IsSound domain_set sign mock req a d h
  submit_close-IsSound gtd req a d h = limit_sell-IsSound domain_set sign mock req a d h

  close_request-IsSound :
      (type : Option OrderType) (req : CloseRequest) (a : SellAnswers) (d : Desk)
      → IsSound d
      → IsSound (close_request domain_set sign mock type req a d).1
  unfolding close_request
  close_request-IsSound type req a d h =
      elim (Bool-cases
        (req.sold_shares == 0 || req.limit_price == 0 || ltb 1_000_000 req.limit_price)) [
          | inl refused ↦ rw refused h
          | inr taken ↦ rw taken (submit_close-IsSound (or_fak domain_set sign mock type) req a d h)
        ]

  cancel_submission-IsSound :
      (now n : ℕ) (a : CancelAnswers) (sub : Option MarketSubmission) (d : Desk)
      → IsSound d
      → IsSound (cancel_submission domain_set sign mock now n a sub d).1
  cancel_submission-IsSound now n a none d h = fail-IsSound domain_set sign mock n d h
  cancel_submission-IsSound now n a (some sub) d h = h

  cancel_bet-IsSound :
      (now now_sec n : ℕ) (a : CancelAnswers) (d : Desk)
      → IsSound d
      → IsSound (cancel_bet domain_set sign mock now now_sec n a d).1
  unfolding cancel_bet
  cancel_bet-IsSound now now_sec n a d h =
      if_both {A = Outcome × Desk} (λ r. IsSound r.1)
        (is_some (get_attestation n none d.tracker.store)) h
        (if_both {A = Outcome × Desk} (λ r. IsSound r.1) (is_order_tracked n d.tracker) h
          (if_both {A = Outcome × Desk} (λ r. IsSound r.1) (is_actively_submitting now n d) h
            (cancel_submission-IsSound now_sec n a (get_market_submission n d.submissions) d h)))

  handle_event-IsSound :
      (e : Event) (d : Desk) → IsSound d → IsSound (handle_event domain_set sign mock e d)
  unfolding handle_event limit_order record_limit_order
  handle_event-IsSound (bet r a) d h = handle_bet_record-IsSound r a d h
  handle_event-IsSound (cancel now now_sec n a) d h = cancel_bet-IsSound now now_sec n a d h
  handle_event-IsSound (close type req a) d h = close_request-IsSound type req a d h
  handle_event-IsSound (intent i) d h = h
  handle_event-IsSound (tracker act) d h = h

  step-IsSound : (m : Move) (d : Desk) → IsSound d → IsSound (step domain_set sign mock m d)
  unfolding step restart
  step-IsSound start_again d (flying, once, marked) = ((λ n e. absurd (cc e)), tt, marked)
  step-IsSound (handle e) d h =
      if_both {A = Desk} IsSound (is_halted d) h (handle_event-IsSound e d h)

  -- Where no bet's BUY was posted twice by this process, those posted are in flight, and each that was
  -- ever posted as a FAK has its durable marker, the same holds after any run of the signing layer,
  -- restarts included.
  pub run-IsSound :
      (ms : List Move) (d : Desk) → IsSound d → IsSound (run domain_set sign mock ms d)
  unfolding run
  run-IsSound [] d h = h
  run-IsSound (m ∷ ms) d h = run-IsSound ms (step domain_set sign mock m d) (step-IsSound m d h)

  -- In any run that starts where nothing was ever posted, restarts included, a cancel-bet that adds an
  -- outcome for a bet without one and without a tracked order goes by one of three: no process has posted
  -- the bet's order as a FAK; or its marker has no order id and is older than 300 seconds; or the marker
  -- has an order id and the CLOB answers that the order is off its book.
  pub cancel_bet_spares_posted :
      (ms : List Move) (d : Desk) (now now_sec n : ℕ) (a : CancelAnswers) (w : Attestation)
      → d.posted ≡ []
      → d.fak_posted ≡ []
      → let d' = run domain_set sign mock ms d in
        is_order_tracked n d'.tracker ≡ false
        → get_attestation n none d'.tracker.store ≡ none
        → get_attestation n none
            (cancel_bet domain_set sign mock now now_sec n a d').1.tracker.store
          ≡ some w
        → (mem n d'.fak_posted ≡ false)
          ⊎ ((sub : MarketSubmission) × (get_market_submission n d'.submissions ≡ some sub)
              × IsReconciled now_sec a.order sub)
  cancel_bet_spares_posted ms d now now_sec n a w none_posted none_fak untracked free added =
      let d' = run domain_set sign mock ms d in
      let (_, _, marked) = run-IsSound ms d (
        (λ m h. absurd (cc (rw none_posted at h))),
        rw none_posted tt,
        λ m h. absurd (cc (rw none_fak at h)),
      ) in
      elim (cancel-added domain_set sign mock now now_sec n a d' w untracked free added) [
        | inr gone_by ↦ inr gone_by
        | inl unmarked ↦ elim (Bool-cases (mem n d'.fak_posted)) [
          | inl was ↦ absurd (cc (rw unmarked at (marked n was)))
          | inr never ↦ inl never
        ]
      ]
