-- ===== src/Frontend/Ledger/Lineage/Refunds.antt =====
-- The open positions of a wallet under finalizePartial.ts and cancelAndReclaim.ts of packages/frontend/src/lib.
use polyshield.Common.{
  ℕ, ◌≡◌, Bool, true, false, Option, none, some, List, [], ◌∷◌, ◌++◌, ◌+◌, ◌==◌, refl, Bool-cases,
  inl, inr, arith, ltb,
}
use polyshield.Frontend.Ledger.{
  Ledger, Note, cancel_credit, is_in_deposit, mark_note_spent, mark_bet_receipt_spent, add_note,
  replace_note, record_wallet_activity, get_free_note_for_deposit,
}
use polyshield.Frontend.Ledger.Flows.{
  ChainBet, Att, Replies, next_note, bet_nullifier, report_partial, active,
}
use polyshield.Frontend.Ledger.Refunds.{
  partial_refund, normalized, record_refund, partial_relayed, partial_fee, partial_free,
  partial_record, partial_attested, finalize_partial_fill, failed_fee, failed_record, failed_free,
  credit_failed_reclaim, reclaim_bet,
}
use polyshield.Frontend.Ledger.Effects.{IsGood, IsFree, AreTyped-add, IsGood-after, spend}
use polyshield.Frontend.Ledger.Replace.{IsReceipt}
use polyshield.Frontend.Ledger.Latest.{latest-holds}
use polyshield.Frontend.Ledger.Balance.{latest-IsFree}
use polyshield.Frontend.Ledger.Kept.{IsCovered, kept_retire, IsCovered-put, has-last}
use polyshield.Frontend.Ledger.Lineage.{HasCover, next_free, spent, continued, retire_covers}
use polyshield.Frontend.Ledger.Reclaims.{reclaim_bet_holds}

same_deposit :
    (wallet d : ℕ) (n : Note) → is_in_deposit wallet d n ≡ true → (n.deposit_index == d) ≡ true
same_deposit wallet d n h = ground arith

refund_covers :
    (wallet amount : ℕ) (receipt : Note) (l : Ledger)
    → IsCovered wallet l.notes
    → IsCovered wallet (record_refund wallet amount receipt l).notes
unfolding record_wallet_activity
refund_covers wallet amount receipt l cov = elim (Bool-cases (ltb 0 amount)) [
  | inl more ↦ rw more cov
  | inr nil ↦ rw nil cov
]

module _ (commit : ℕ → ℕ → ℕ → ℕ → ℕ) (nullify : ℕ → ℕ → ℕ → ℕ) (wallet : ℕ) where
  abbrev pub Covers : Ledger → Type 0
  Covers l = HasCover commit nullify wallet l

  partial-Covers :
      (receipt free : Note) (att : Att) (amount : ℕ) (l : Ledger)
      → IsGood l
      → Covers l
      → IsReceipt receipt
      → get_free_note_for_deposit wallet receipt.deposit_index l ≡ some free
      → Covers (partial_relayed commit nullify wallet receipt att amount free l)
  unfolding add_note replace_note get_free_note_for_deposit
  partial-Covers receipt free att amount l good cov r e =
      let next = next_note commit nullify wallet cancel_credit (free.balance + amount) free in
      let l1 = mark_note_spent free.id l in
      let is_free = latest-IsFree wallet receipt.deposit_index free l good e in
      let here =
        same_deposit wallet receipt.deposit_index free
          (latest-holds (is_in_deposit wallet receipt.deposit_index) l.notes free e) in
      refund_covers wallet amount receipt
        (replace_note receipt.id (normalized receipt att) (add_note next l1))
        (IsCovered-put wallet (normalized receipt att) (l1.notes ++ next ∷ [])
          (continued commit nullify wallet cancel_credit (free.balance + amount) free l l1.notes
            refl cov (spent commit nullify wallet free l is_free))
          (AreTyped-add l1.notes next (IsGood-after (spend wallet free l good is_free)).1 refl) r
          (has-last (is_in_deposit wallet receipt.deposit_index) l1.notes next (
            next_free commit nullify wallet cancel_credit (free.balance + amount)
              receipt.deposit_index free refl here)))

  fee-Covers :
      (receipt : Note) (rec : ChainBet) (att : Att) (relayed : Bool) (free : Note) (l : Ledger)
      (o : Option ℕ)
      → IsGood l
      → Covers l
      → IsReceipt receipt
      → get_free_note_for_deposit wallet receipt.deposit_index l ≡ some free
      → Covers (partial_fee commit nullify wallet receipt rec att relayed free l o).1
  fee-Covers receipt rec att relayed free l none good cov r e = cov
  fee-Covers receipt rec att false free l (some fee) good cov r e = cov
  fee-Covers receipt rec att true free l (some fee) good cov r e =
      partial-Covers receipt free att (partial_refund rec.bet_amount att.amount_b fee) l good cov r
        e

  free-Covers :
      (receipt : Note) (rec : ChainBet) (att : Att) (a : Replies) (l : Ledger) (o : Option Note)
      → IsGood l
      → Covers l
      → IsReceipt receipt
      → get_free_note_for_deposit wallet receipt.deposit_index l ≡ o
      → Covers (partial_free commit nullify wallet receipt rec att a l o).1
  free-Covers receipt rec att a l none good cov r e = cov
  free-Covers receipt rec att a l (some free) good cov r e =
      fee-Covers receipt rec att a.relayed free l a.protocol_fee good cov r e

  record-Covers :
      (receipt : Note) (att : Att) (a : Replies) (l : Ledger) (o : Option ChainBet)
      → IsGood l
      → Covers l
      → IsReceipt receipt
      → Covers (partial_record commit nullify wallet receipt att a l o).1
  record-Covers receipt att a l none good cov r = cov
  record-Covers receipt att a l (some rec) good cov r = elim (Bool-cases (rec.status == active)) [
    | inl is_active ↦ rw is_active (free-Covers receipt rec att a l _ good cov r refl)
    | inr over ↦ rw over cov
  ]

  attested-Covers :
      (receipt : Note) (a : Replies) (l : Ledger) (o : Option (Option Att))
      → IsGood l
      → Covers l
      → IsReceipt receipt
      → Covers (partial_attested commit nullify wallet receipt a l o).1
  attested-Covers receipt a l none good cov r = cov
  attested-Covers receipt a l (some none) good cov r = cov
  attested-Covers receipt a l (some (some att)) good cov r =
      elim (Bool-cases (att.report_type == report_partial)) [
        | inl is_partial ↦ rw is_partial (record-Covers receipt att a l a.bet_record good cov r)
        | inr other ↦ rw other cov
      ]

  pub finalize_partial-Covers :
      (receipt : Note) (a : Replies) (l : Ledger)
      → IsGood l
      → Covers l
      → IsReceipt receipt
      → Covers (finalize_partial_fill commit nullify wallet receipt a l).1
  unfolding finalize_partial_fill
  finalize_partial-Covers receipt a l = attested-Covers receipt a l a.attestation

  stake-Covers :
      (receipt : Note) (stake : ℕ) (relayed : Bool) (free : Note) (l : Ledger) (o : Option ℕ)
      → Covers l
      → IsFree wallet free l
      → Covers (failed_fee commit nullify wallet receipt stake relayed free l o).1
  unfolding add_note record_wallet_activity mark_bet_receipt_spent
  stake-Covers receipt stake relayed free l none cov is_free = cov
  stake-Covers receipt stake false free l (some fee) cov is_free = cov
  stake-Covers receipt stake true free l (some fee) cov is_free =
      continued commit nullify wallet _ _ free l _ refl cov (
        kept_retire wallet (λ d. free.deposit_index == d) (bet_nullifier receipt) l.notes
          (mark_note_spent free.id l).notes (spent commit nullify wallet free l is_free))

  failed_record-Covers :
      (receipt : Note) (a : Replies) (free : Note) (l : Ledger) (o : Option ChainBet)
      → Covers l
      → IsFree wallet free l
      → Covers (failed_record commit nullify wallet receipt a free l o).1
  failed_record-Covers receipt a free l none cov is_free = cov
  failed_record-Covers receipt a free l (some rec) cov is_free =
      elim (Bool-cases (rec.bet_amount == 0)) [
        | inl nil ↦ rw nil (retire_covers commit nullify wallet (bet_nullifier receipt) l cov)
        | inr stake ↦
            rw stake
              (stake-Covers receipt rec.bet_amount a.relayed free l a.protocol_fee cov is_free)
      ]

  failed_free-Covers :
      (receipt : Note) (a : Replies) (l : Ledger) (o : Option Note)
      → IsGood l
      → Covers l
      → get_free_note_for_deposit wallet receipt.deposit_index l ≡ o
      → Covers (failed_free commit nullify wallet receipt a l o).1
  failed_free-Covers receipt a l none good cov e = cov
  failed_free-Covers receipt a l (some free) good cov e =
      failed_record-Covers receipt a free l a.bet_record cov
        (latest-IsFree wallet receipt.deposit_index free l good e)

  credit_failed-Covers :
      (receipt : Note) (a : Replies) (l : Ledger)
      → IsGood l
      → Covers l
      → Covers (credit_failed_reclaim commit nullify wallet receipt a l).1
  unfolding credit_failed_reclaim
  credit_failed-Covers receipt a l good cov = failed_free-Covers receipt a l _ good cov refl

  pub reclaim_bet-Covers :
      (receipt : Note) (rec : Option ChainBet) (tries : List (Option (Option Att) × Replies))
      (l : Ledger)
      → IsGood l
      → Covers l
      → IsReceipt receipt
      → Covers (reclaim_bet commit nullify wallet receipt rec tries l).1
  reclaim_bet-Covers receipt rec tries l good cov r =
      reclaim_bet_holds commit nullify wallet Covers receipt rec tries l cov
        (retire_covers commit nullify wallet (bet_nullifier receipt) l cov)
        (λ a. credit_failed-Covers receipt a l good cov)
        (λ a. finalize_partial-Covers receipt a l good cov r)
