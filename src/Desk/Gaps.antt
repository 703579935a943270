-- ===== src/Desk/Gaps.antt =====
-- Two sequences of packages/backend/signing-layer/src that end otherwise than its comments say: a limit
-- order without an order id, and a restart between the post of a FAK order and its attestation.
use text.Mathlib.Text.{◌==◌ as str_eq}
use polyshield.Common.{
  ℕ, ◌≡◌, Bool, true, false, none, some, ◌∷◌, ◌==◌, if_both, ◌&&◌, not, refl, ap, ◌∙◌,
}
use polyshield.Attest.Store.{Signer, failed, get_attestation, get_market_submission, mark_resting}
use polyshield.Attest.SingleWrite.{failed_recorded}
use polyshield.Signing.MarketOrders.{attest_failed_for}
use polyshield.Signing.TokenBinding.{decide_buy_token, trade, Source}
use polyshield.Tracker.{is_order_tracked}
use polyshield.Desk.{
  Desk, is_halted, with_store, restart, get_limit_order, started_at, is_actively_submitting,
  upsert_tracked_market,
}
use polyshield.Desk.Submit.{
  BetEvent, answered, OrderResponse, submit_limit_order, submit_fak_order, post_buy, post_fak,
  note_resting, is_accepted, fail, mark_submitting, keep_order_id, settle_fak, response_fill,
  is_explicit_miss,
}
use polyshield.Desk.Listener.{
  BetRecord, Answers, handle_bet_record, is_handled, process_bet_event, set_in_flight,
  after_decision, order_event, on_record,
}
use polyshield.Desk.Routes.{cancel_bet, CancelAnswers, attested_failed}

cancel_bet_last :
    (ds : Bool) (sign : Signer) (mock : Bool) (now now_sec n : ℕ) (a : CancelAnswers) (d : Desk)
    → get_attestation n none d.tracker.store ≡ none
    → is_order_tracked n d.tracker ≡ false
    → get_market_submission n d.submissions ≡ none
    → is_actively_submitting now n d ≡ false
    → cancel_bet ds sign mock now now_sec n a d ≡ (attested_failed, fail ds sign mock n d)
unfolding cancel_bet
cancel_bet_last ds sign mock now now_sec n a d free untracked none_sent late =
    rw (free, untracked, late, none_sent) refl

live_limit_left :
    (sign : Signer) (mock : Bool) (e : BetEvent) (size : ℕ) (r : OrderResponse) (fee : ℕ) (d : Desk)
    → str_eq r.status "live" ≡ true
    → r.order_id ≡ none
    → is_halted d ≡ false
    → submit_limit_order true sign mock e true (answered size r) fee d
      ≡ note_resting e r (post_buy e d)
unfolding submit_limit_order is_accepted
live_limit_left sign mock e size r fee d live no_id on = rw (on, no_id, live) refl

-- A limit order that the CLOB has answered as live, in an answer without an order id, is left without
-- an attestation; if the bet has no other trace, a cancel-bet that comes when its submission is no
-- longer recent attests FAILED without asking the CLOB, while the order may still fill.
pub live_limit_attested_failed :
    (sign : Signer) (mock : Bool) (e : BetEvent) (size : ℕ) (r : OrderResponse) (fee : ℕ)
    (now now_sec : ℕ) (a : CancelAnswers) (d : Desk) (w : ℕ)
    → str_eq r.status "live" ≡ true
    → r.order_id ≡ none
    → is_halted d ≡ false
    → get_attestation e.nullifier none d.tracker.store ≡ none
    → is_order_tracked e.nullifier d.tracker ≡ false
    → get_market_submission e.nullifier d.submissions ≡ none
    → is_actively_submitting now e.nullifier d ≡ false
    → sign e.nullifier failed 0 0 ≡ some w
    → let d' = submit_limit_order true sign mock e true (answered size r) fee d in
      let (outcome, d'') = cancel_bet true sign mock now now_sec e.nullifier a d' in
      (get_attestation e.nullifier none d'.tracker.store ≡ none)
      × (outcome ≡ attested_failed)
      × (get_attestation e.nullifier none d''.tracker.store
          ≡ some (record {
            nullifier = e.nullifier;
            report_type = failed;
            amount_a = 0;
            amount_b = 0;
            signature = w;
          }))
unfolding note_resting post_buy is_actively_submitting fail with_store attest_failed_for
live_limit_attested_failed sign mock e size r fee now now_sec a d w live no_id on free untracked
      none_sent late ok =
    let d' : Desk = record d {
      posted = e.nullifier ∷ d.posted;
      resting = mark_resting e.nullifier d.resting;
    } in
    let left : submit_limit_order true sign mock e true (answered size r) fee d ≡ d' =
      live_limit_left sign mock e size r fee d live no_id on ∙ (rw live refl) in
    let last =
      cancel_bet_last true sign mock now now_sec e.nullifier a d' free untracked none_sent late in
    rw left (
      free,
      ap (λ p. p.0) last,
      rw last (failed_recorded sign e.nullifier d.tracker.store w free ok),
    )

fak-posts :
    (ds : Bool) (sign : Signer) (mock : Bool) (now : ℕ) (e : BetEvent) (size : ℕ)
    (r : OrderResponse) (d : Desk)
    → is_halted d ≡ false
    → (submit_fak_order ds sign mock now e true (answered size r) d).fak_posted
      ≡ e.nullifier ∷ d.fak_posted
unfolding submit_fak_order settle_fak with_store keep_order_id post_fak post_buy mark_submitting
fak-posts ds sign mock now e size r d on = rw on (
    if_both {A = Desk} (λ u. u.fak_posted ≡ e.nullifier ∷ d.fak_posted)
      ((response_fill e.price r).0 == 0 && not (is_explicit_miss r) && not mock) refl refl)

default_is_fak :
    (ds : Bool) (sign : Signer) (mock : Bool) (token condition : ℕ) (source : Source)
    (r : BetRecord) (a : Answers) (d : Desk)
    → get_limit_order r.nullifier d ≡ none
    → after_decision ds sign mock (trade token condition source) r a d
      ≡ submit_fak_order ds sign mock a.now
          (order_event r token condition)
          a.funded
          a.reply
          (upsert_tracked_market r.market_id condition a.end_date d)
unfolding get_limit_order upsert_tracked_market
default_is_fak ds sign mock token condition source r a d h = rw h refl

-- After a restart, a record of a bet without an attestation and without a resumed order has its FAK
-- order posted, whether or not an earlier process posted one and left its durable marker.
pub restart_posts_again :
    (ds : Bool) (sign : Signer) (mock : Bool) (r : BetRecord) (a : Answers) (d : Desk)
    (token condition market size : ℕ) (source : Source) (resp : OrderResponse)
    → get_attestation r.nullifier none (restart d).tracker.store ≡ none
    → is_order_tracked r.nullifier (restart d).tracker ≡ false
    → get_limit_order r.nullifier d ≡ none
    → a.on_chain ≡ some market
    → (market == 0) ≡ false
    → decide_buy_token r.market_id r.position_id r.outcome_side a.resolved mock
      ≡ trade token condition source
    → a.funded ≡ true
    → a.reply ≡ answered size resp
    → (handle_bet_record ds sign mock r a (restart d)).fak_posted ≡ r.nullifier ∷ d.fak_posted
unfolding handle_bet_record is_handled process_bet_event set_in_flight get_limit_order is_halted
restart_posts_again ds sign mock r a d token condition market size source resp free untracked
      no_intent read there trades funds sent =
    let d1 = restart d in
    let d2 = set_in_flight ds sign mock r.nullifier a.now d1 in
    let open_bet : is_handled ds sign mock r.nullifier d1 ≡ false =
      rw (free, untracked) (unfold restart started_at in refl) in
    let idle : is_halted (upsert_tracked_market r.market_id condition a.end_date d2) ≡ false =
      unfold restart upsert_tracked_market in refl in
    let no_intent' : get_limit_order r.nullifier d2 ≡ none = unfold restart in no_intent in
    let fak : after_decision ds sign mock (trade token condition source) r a d2
        ≡ submit_fak_order ds sign mock a.now (order_event r token condition) true
            (answered size resp) (upsert_tracked_market r.market_id condition a.end_date d2) =
      default_is_fak ds sign mock token condition source r a d2 no_intent' ∙ (λ i.
        submit_fak_order ds sign mock a.now (order_event r token condition) (funds i) (sent i)
          (upsert_tracked_market r.market_id condition a.end_date d2)) in
    let handled : handle_bet_record ds sign mock r a d1
        ≡ after_decision ds sign mock (trade token condition source) r a d2 =
      rw open_bet (
        ap (λ o. on_record ds sign mock o r a d1) read
        ∙ rw there (ap (λ c. after_decision ds sign mock c r a d2) trades)) in
    ap (λ u. u.fak_posted) (handled ∙ fak)
    ∙ (fak-posts ds sign mock a.now (order_event r token condition) size resp _ idle
        ∙ (unfold restart upsert_tracked_market in refl))
