-- ===== src/Frontend/Ledger/Refunds.antt =====
-- packages/frontend/src/lib/finalizePartial.ts and cancelAndReclaim.ts: the refund of what was not filled, and
-- the reclaim of an order, as they change what the browser keeps.
use polyshield.Common.{
  ℕ, zero, suc, ◌+◌, ◌-◌, ◌*◌, ◌/◌, Bool, Option, none, some, List, [], ◌∷◌, ◌&&◌, ◌||◌,
  if◌then◌else◌, ◌==◌, ltb,
}
use polyshield.Frontend.Ledger.{
  Ledger, Note, cancel_credit, refund, mark_note_spent, mark_bet_receipt_spent, add_note,
  replace_note, record_wallet_activity, get_free_note_for_deposit,
}
use polyshield.Frontend.Ledger.Flows.{
  ChainBet, Att, Replies, Reply, done, left_open, thrown, no_free_note, still_resting,
  partial_normalized, not_partial, bet_nullifier, settled, next_note, active, credited,
  cancelled_credited, closed_credited, report_failed, report_partial,
}

-- The unfilled stake with its share of the protocol fee.
unfoldable pub partial_refund : ℕ → ℕ → ℕ → ℕ
partial_refund bet_amount spent fee =
    let unexec = if ltb spent bet_amount then bet_amount - spent else 0 in
    if ltb 0 unexec && ltb 0 bet_amount then unexec + fee * unexec / bet_amount else 0

abbrev pub normalized : Note → Att → Note
normalized receipt att = record receipt {
  bet_amount = some att.amount_b;
  expected_shares = some att.amount_a;
}

-- A refund of nothing is not recorded.
abbrev pub record_refund : ℕ → ℕ → Note → Ledger → Ledger
record_refund wallet amount receipt l =
    if ltb 0 amount then record_wallet_activity (settled wallet refund amount receipt) l else l

module _ (commit : ℕ → ℕ → ℕ → ℕ → ℕ) (nullify : ℕ → ℕ → ℕ → ℕ) where
  abbrev pub partial_relayed : ℕ → Note → Att → ℕ → Note → Ledger → Ledger
  partial_relayed wallet receipt att amount free l = record_refund wallet amount receipt (
      replace_note receipt.id (normalized receipt att) (
        add_note (next_note commit nullify wallet cancel_credit (free.balance + amount) free)
          (mark_note_spent free.id l)))

  abbrev pub partial_fee :
      ℕ → Note → ChainBet → Att → Bool → Note → Ledger → Option ℕ → Reply × Ledger
  partial_fee wallet receipt rec att relayed free l none = (thrown, l)
  partial_fee wallet receipt rec att relayed free l (some fee) =
      let amount = partial_refund rec.bet_amount att.amount_b fee in
      if relayed
      then (done amount, partial_relayed wallet receipt att amount free l)
      else (thrown, l)

  abbrev pub partial_free :
      ℕ → Note → ChainBet → Att → Replies → Ledger → Option Note → Reply × Ledger
  partial_free wallet receipt rec att a l none = (left_open not_partial, l)
  partial_free wallet receipt rec att a l (some free) =
      partial_fee wallet receipt rec att a.relayed free l a.protocol_fee

  abbrev pub partial_record : ℕ → Note → Att → Replies → Ledger → Option ChainBet → Reply × Ledger
  partial_record wallet receipt att a l none = (thrown, l)
  partial_record wallet receipt att a l (some rec) =
      if rec.status == active
      then partial_free wallet receipt rec att a l
          (get_free_note_for_deposit wallet receipt.deposit_index l)
      else (left_open not_partial, l)

  abbrev pub partial_attested : ℕ → Note → Replies → Ledger → Option (Option Att) → Reply × Ledger
  partial_attested wallet receipt a l none = (thrown, l)
  partial_attested wallet receipt a l (some none) = (left_open not_partial, l)
  partial_attested wallet receipt a l (some (some att)) =
      if att.report_type == report_partial
      then partial_record wallet receipt att a l a.bet_record
      else (left_open not_partial, l)

  -- finalizePartialFill, where `left_open` is its false.
  unfoldable pub finalize_partial_fill : ℕ → Note → Replies → Ledger → Reply × Ledger
  finalize_partial_fill wallet receipt a l = partial_attested wallet receipt a l a.attestation

  -- creditFailedReclaim
  abbrev pub failed_relayed : ℕ → Note → ℕ → Note → Ledger → Ledger
  failed_relayed wallet receipt amount free l =
      record_wallet_activity (settled wallet refund amount receipt) (
        add_note (next_note commit nullify wallet cancel_credit (free.balance + amount) free)
          (mark_bet_receipt_spent (bet_nullifier receipt) (mark_note_spent free.id l)))

  abbrev pub failed_fee : ℕ → Note → ℕ → Bool → Note → Ledger → Option ℕ → Reply × Ledger
  failed_fee wallet receipt stake relayed free l none = (thrown, l)
  failed_fee wallet receipt stake relayed free l (some fee) =
      if relayed
      then (done (stake + fee), failed_relayed wallet receipt (stake + fee) free l)
      else (thrown, l)

  abbrev pub failed_record : ℕ → Note → Replies → Note → Ledger → Option ChainBet → Reply × Ledger
  failed_record wallet receipt a free l none = (thrown, l)
  failed_record wallet receipt a free l (some rec) =
      if rec.bet_amount == 0
      then (done 0, mark_bet_receipt_spent (bet_nullifier receipt) l)
      else failed_fee wallet receipt rec.bet_amount a.relayed free l a.protocol_fee

  abbrev pub failed_free : ℕ → Note → Replies → Ledger → Option Note → Reply × Ledger
  failed_free wallet receipt a l none = (left_open no_free_note, l)
  failed_free wallet receipt a l (some free) = failed_record wallet receipt a free l a.bet_record

  unfoldable pub credit_failed_reclaim : ℕ → Note → Replies → Ledger → Reply × Ledger
  credit_failed_reclaim wallet receipt a l =
      failed_free wallet receipt a l (get_free_note_for_deposit wallet receipt.deposit_index l)

  abbrev pub after_partial : Reply × Ledger → Option Reply × Ledger
  after_partial (thrown, l) = (some thrown, l)
  after_partial (_, l) = (some (left_open partial_normalized), l)

  -- tryCreditFromAttestation: none where there is nothing to credit yet. `att` is the answer to its own
  -- fetch, and `a` has those to what it calls.
  abbrev pub try_credit : ℕ → Note → Replies → Ledger → Option (Option Att) → Option Reply × Ledger
  try_credit wallet receipt a l none = (some thrown, l)
  try_credit wallet receipt a l (some none) = (none, l)
  try_credit wallet receipt a l (some (some att)) =
      let credit = credit_failed_reclaim wallet receipt a l in
      if att.report_type == report_failed
      then (some credit.0, credit.1)
      else if att.report_type == report_partial
      then after_partial (finalize_partial_fill wallet receipt a l)
      else (none, l)

  abbrev pub go_on : (Ledger → Reply × Ledger) → Option Reply × Ledger → Reply × Ledger
  go_on next (some reply, l) = (reply, l)
  go_on next (none, l) = next l

  -- The first try and the six of the loop, over the answers to each.
  unfoldable pub poll :
      ℕ → ℕ → Note → List (Option (Option Att) × Replies) → Ledger → Reply × Ledger
  poll zero wallet receipt tries l = (left_open still_resting, l)
  poll (suc left) wallet receipt [] l = (left_open still_resting, l)
  poll (suc left) wallet receipt ((att, a) ∷ tries) l =
      go_on (λ l'. poll left wallet receipt tries l') (try_credit wallet receipt a l att)

  abbrev pub reclaim_record :
      ℕ → Note → List (Option (Option Att) × Replies) → Ledger → Option ChainBet → Reply × Ledger
  reclaim_record wallet receipt tries l none = (thrown, l)
  reclaim_record wallet receipt tries l (some rec) =
      if rec.status == cancelled_credited
        || (rec.status == credited || rec.status == closed_credited)
      then (done 0, mark_bet_receipt_spent (bet_nullifier receipt) l)
      else poll 7 wallet receipt tries l

  -- reclaimBet; the request to cancel between the first try and the others changes nothing here.
  unfoldable pub reclaim_bet :
      ℕ → Note → Option ChainBet → List (Option (Option Att) × Replies) → Ledger → Reply × Ledger
  reclaim_bet wallet receipt rec tries l = reclaim_record wallet receipt tries l rec
