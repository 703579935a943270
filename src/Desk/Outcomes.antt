-- ===== src/Desk/Outcomes.antt =====
-- Which outcomes the order paths of packages/backend/signing-layer/src/orderBuilder.ts attest.
use polyshield.Desk.Submit.{
  no_client, threw, post_fak, settle_fak, submit_fak_order, mark_submitting, post_buy, BetEvent,
  keep_order_id, OrderResponse, PostReply, terminal_bet, after_fak, answered, response_fill,
  is_explicit_miss, threw, fill_cost,
}
use polyshield.Desk.{Desk, check_response, with_store, is_halted}
use polyshield.Attest.Terminal.{
  attest_terminal, buy_report, Report, TerminalBet, store_report, terminal_report,
}
use polyshield.Common.{
  ℕ, ◌≡◌, true, none, some, Option-cases, inl, inr, refl, Bool, Option, if_both, ◌≢◌, ◌==◌,
  Bool-cases, false, sym, ◌⊎◌, arith, ◌∙◌, ◌&&◌, not,
}
use polyshield.Attest.Store.{
  Signer, Store, Attestation, ReportType, is_bet_outcome, read_slot, sign_and_store,
  get_attestation, failed,
}
use polyshield.Attest.SingleWrite.{commit-new, stored_in_slot}

-- The outcome that a call leaves for a bet that had none is the one that it asked for.
type_recorded :
    (sign : Signer) (n : ℕ) (rt : ReportType) (a b : ℕ) (store : Store) (att : Attestation)
    → is_bet_outcome rt ≡ true
    → get_attestation n none store ≡ none
    → get_attestation n none (sign_and_store sign n rt a b store).1 ≡ some att
    → att.report_type ≡ rt
unfolding get_attestation sign_and_store read_slot
type_recorded sign n rt a b store att p free e = elim (Option-cases (sign n rt a b)) [
  | inl refused ↦
      let untouched : (sign_and_store sign n rt a b store).1 ≡ store = rw (p, free, refused) refl in
      absurd (cc (untouched, e, free))
  | inr (s, ok) ↦
      let new : Attestation = record {
        nullifier = n;
        report_type = rt;
        amount_a = a;
        amount_b = b;
        signature = s;
      } in
      let slot_free : read_slot n rt store ≡ none = rw (p, free) refl in
      let ran : sign_and_store sign n rt a b store
          ≡ (some new, (sign_and_store sign n rt a b store).1) =
        rw (p, free, ok, commit-new new store slot_free) refl in
      let there = rw p at (stored_in_slot sign n rt a b store _ new ran) in
      let same : new ≡ att = cc in rw (← same) refl
]

store_report-type :
    (ds : Bool) (sign : Signer) (n : ℕ) (r : Report) (store : Store) (att : Attestation)
    → is_bet_outcome r.report_type ≡ true
    → get_attestation n none store ≡ none
    → get_attestation n none (store_report ds sign n (some r) store) ≡ some att
    → att.report_type ≡ r.report_type
store_report-type false sign n r store att p free e = absurd (cc (free, e))
store_report-type true sign n r store att p free e =
    type_recorded sign n r.report_type r.amount_a r.amount_b store att p free e

-- The report of a BUY says FAILED exactly where nothing was filled.
buy_report-failed :
    (bet : TerminalBet) (shares spent : ℕ)
    → (is_bet_outcome (buy_report bet shares spent).report_type ≡ true)
      × (((buy_report bet shares spent).report_type ≢ failed) ⊎ (shares ≡ 0))
unfolding buy_report
buy_report-failed bet shares spent = ground arith

buy-failed :
    (ds : Bool) (sign : Signer) (e : BetEvent) (shares spent : ℕ) (store : Store)
    (att : Attestation)
    → get_attestation e.nullifier none store ≡ none
    → get_attestation e.nullifier none (attest_terminal ds sign (terminal_bet e) shares spent store)
      ≡ some att
    → att.report_type ≡ failed
    → shares ≡ 0
unfolding attest_terminal terminal_report
buy-failed ds sign e shares spent store att free there lost =
    let (p, cases) = buy_report-failed (terminal_bet e) shares spent in
    let same =
      store_report-type ds sign e.nullifier (buy_report (terminal_bet e) shares spent) store att p
        free there in
    elim cases [
      | inl not_lost ↦ absurd (not_lost (sym same ∙ lost))
      | inr none_filled ↦ none_filled
    ]

pub check_response-store :
    (status : Option ℕ) (d : Desk) → (check_response status d).tracker.store ≡ d.tracker.store
unfolding check_response
check_response-store none d = refl
check_response-store (some status) d =
    if_both {A = Desk} (λ u. u.tracker.store ≡ d.tracker.store) (status == 403) refl refl

settle_fak-failed :
    (ds : Bool) (sign : Signer) (e : BetEvent) (size : ℕ) (r : OrderResponse) (d : Desk)
    (att : Attestation)
    → get_attestation e.nullifier none d.tracker.store ≡ none
    → get_attestation e.nullifier none (settle_fak ds sign false e size r d).tracker.store
      ≡ some att
    → att.report_type ≡ failed
    → ((response_fill e.price r).0 ≡ 0) × (is_explicit_miss r ≡ true)
unfolding settle_fak with_store
settle_fak-failed ds sign e size r d att free there lost =
    elim (Bool-cases ((response_fill e.price r).0 == 0 && not (is_explicit_miss r) && not false)) [
      | inl unread ↦ absurd (cc (free, rw unread at there))
      | inr attested ↦
          let none_filled =
            buy-failed ds sign e (response_fill e.price r).0
              (fill_cost e.bet_amount size (response_fill e.price r)) d.tracker.store att free
              (rw attested at there) lost in
          (none_filled, ground arith)
    ]

after_fak-failed :
    (ds : Bool) (sign : Signer) (e : BetEvent) (reply : PostReply) (d : Desk) (att : Attestation)
    → get_attestation e.nullifier none d.tracker.store ≡ none
    → get_attestation e.nullifier none (after_fak ds sign false e reply d).tracker.store ≡ some att
    → att.report_type ≡ failed
    → (size : ℕ) × (r : OrderResponse) × (reply ≡ answered size r)
      × ((response_fill e.price r).0 ≡ 0)
      × (is_explicit_miss r ≡ true)
unfolding post_fak post_buy keep_order_id
after_fak-failed ds sign e no_client d att free there lost = absurd (cc (free, there))
after_fak-failed ds sign e (threw status) d att free there lost =
    absurd (cc (free, rw (check_response-store status (post_fak e d)) at there))
after_fak-failed ds sign e (answered size r) d att free there lost =
    let (none_filled, miss) =
      settle_fak-failed ds sign e size r (keep_order_id e r (post_fak e d)) att free there lost in
    (size, r, refl, none_filled, miss)

-- In production, a FAK order that was funded and not stopped by the breaker leaves a bet that had no
-- outcome with a FAILED one only if the CLOB answered, its answer reads as nothing filled, and it is an
-- explicit miss or rejection: not after a throw, nor after an answer that could not be read.
pub fak_fails_only_on_miss :
    (ds : Bool) (sign : Signer) (now : ℕ) (e : BetEvent) (reply : PostReply) (d : Desk)
    (att : Attestation)
    → is_halted d ≡ false
    → get_attestation e.nullifier none d.tracker.store ≡ none
    → get_attestation e.nullifier none
        (submit_fak_order ds sign false now e true reply d).tracker.store
      ≡ some att
    → att.report_type ≡ failed
    → (size : ℕ) × (r : OrderResponse) × (reply ≡ answered size r)
      × ((response_fill e.price r).0 ≡ 0)
      × (is_explicit_miss r ≡ true)
unfolding submit_fak_order mark_submitting
fak_fails_only_on_miss ds sign now e reply d att on free there lost =
    after_fak-failed ds sign e reply (mark_submitting now e d) att free (rw on at there) lost
