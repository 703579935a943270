-- ===== src/Frontend/Ledger/RefundBooks.antt =====
-- The books of a wallet and its cash agree after packages/frontend/src/lib/finalizePartial.ts.
use polyshield.Common.{
  ℕ, ◌+◌, ◌≡◌, Bool, true, false, Option, none, some, ◌==◌, ltb, arith, refl, Bool-cases, inl, inr,
}
use polyshield.Frontend.Ledger.{
  Ledger, Note, refund, cancel_credit, mark_note_spent, add_note, replace_note,
  get_free_note_for_deposit,
}
use polyshield.Frontend.Ledger.Effects.{
  IsGood, IsFree, Effect, IsGood-after, and_then, spend, add, book,
}
use polyshield.Frontend.Ledger.Replace.{replace, IsReceipt, ids-spend}
use polyshield.Frontend.Ledger.Flows.{
  ChainBet, Att, Replies, settled, next_note, active, report_partial,
}
use polyshield.Frontend.Ledger.Refunds.{
  normalized, record_refund, partial_refund, partial_relayed, partial_fee, partial_free,
  partial_record, partial_attested, finalize_partial_fill,
}
use polyshield.Frontend.Ledger.Balance.{
  Keeps, balanced, unchanged, latest-IsFree, received_in-settled, paid_in-settled, cash_of-next,
  NextIsFresh, CreditIsFresh,
}

record_refund_effect :
    (wallet amount : ℕ) (receipt : Note) (l : Ledger)
    → IsGood l
    → Effect wallet l (record_refund wallet amount receipt l) 0 0 0 amount
record_refund_effect wallet amount receipt l good = elim (Bool-cases (ltb 0 amount)) [
  | inl some_back ↦
      let (good', cash, pd, rc) =
        (book wallet (settled wallet refund amount receipt) l good).change in
      rw some_back (record {
        change = (
          good',
          cash,
          omega (arith, pd, paid_in-settled wallet amount refund receipt),
          omega (arith, rc, received_in-settled wallet amount refund receipt),
        );
      })
  | inr none_back ↦
      let nil : amount ≡ 0 = ground arith in
      rw none_back (record { change = (good, omega arith, omega arith, omega arith) })
]

module _ (commit : ℕ → ℕ → ℕ → ℕ → ℕ) (nullify : ℕ → ℕ → ℕ → ℕ) (wallet : ℕ) where
  partial-Keeps :
      (receipt free : Note) (att : Att) (amount : ℕ) (l : Ledger)
      → IsGood l
      → IsReceipt receipt
      → IsFree wallet free l
      → NextIsFresh commit nullify wallet free l
      → Keeps wallet l (partial_relayed commit nullify wallet receipt att amount free l) 0
  partial-Keeps receipt free att amount l good is_receipt is_free fresh =
      let e1 = spend wallet free l good is_free in
      let l1 = mark_note_spent free.id l in
      let next = next_note commit nullify wallet cancel_credit (free.balance + amount) free in
      let e2 =
        add wallet next l1 (IsGood-after e1)
          (rw (ids-spend free.id l) (fresh (free.balance + amount))) refl in
      let l2 = add_note next l1 in
      let e3 = replace wallet (normalized receipt att) l2 (IsGood-after e2) is_receipt in
      let l3 = replace_note receipt.id (normalized receipt att) l2 in
      let e4 = record_refund_effect wallet amount receipt l3 (IsGood-after e3) in
      balanced 0 (and_then e1 (and_then e2 (and_then e3 e4))) (
        omega (
          arith,
          cash_of-next commit nullify wallet cancel_credit (free.balance + amount) free refl,
        ))

  fee_known :
      (receipt : Note) (rec : ChainBet) (att : Att) (relayed : Bool) (free : Note) (l : Ledger)
      (o : Option ℕ)
      → IsGood l
      → IsReceipt receipt
      → IsFree wallet free l
      → NextIsFresh commit nullify wallet free l
      → Keeps wallet l (partial_fee commit nullify wallet receipt rec att relayed free l o).1 0
  fee_known receipt rec att relayed free l none good r is_free fresh = unchanged wallet l good
  fee_known receipt rec att false free l (some fee) good r is_free fresh = unchanged wallet l good
  fee_known receipt rec att true free l (some fee) good r is_free fresh =
      partial-Keeps receipt free att (partial_refund rec.bet_amount att.amount_b fee) l good r
        is_free fresh

  free_known :
      (receipt : Note) (rec : ChainBet) (att : Att) (a : Replies) (l : Ledger) (o : Option Note)
      → IsGood l
      → IsReceipt receipt
      → CreditIsFresh commit nullify wallet receipt.deposit_index l
      → get_free_note_for_deposit wallet receipt.deposit_index l ≡ o
      → Keeps wallet l (partial_free commit nullify wallet receipt rec att a l o).1 0
  free_known receipt rec att a l none good r fresh e = unchanged wallet l good
  free_known receipt rec att a l (some free) good r fresh e =
      fee_known receipt rec att a.relayed free l a.protocol_fee good r
        (latest-IsFree wallet receipt.deposit_index free l good e) (fresh free e)

  record_known :
      (receipt : Note) (att : Att) (a : Replies) (l : Ledger) (o : Option ChainBet)
      → IsGood l
      → IsReceipt receipt
      → CreditIsFresh commit nullify wallet receipt.deposit_index l
      → Keeps wallet l (partial_record commit nullify wallet receipt att a l o).1 0
  record_known receipt att a l none good r fresh = unchanged wallet l good
  record_known receipt att a l (some rec) good r fresh = elim (Bool-cases (rec.status == active)) [
    | inl is_active ↦ rw is_active (free_known receipt rec att a l _ good r fresh refl)
    | inr over ↦ rw over (unchanged wallet l good)
  ]

  attested :
      (receipt : Note) (a : Replies) (l : Ledger) (o : Option (Option Att))
      → IsGood l
      → IsReceipt receipt
      → CreditIsFresh commit nullify wallet receipt.deposit_index l
      → Keeps wallet l (partial_attested commit nullify wallet receipt a l o).1 0
  attested receipt a l none good r fresh = unchanged wallet l good
  attested receipt a l (some none) good r fresh = unchanged wallet l good
  attested receipt a l (some (some att)) good r fresh =
      elim (Bool-cases (att.report_type == report_partial)) [
        | inl is_partial ↦ rw is_partial (record_known receipt att a l a.bet_record good r fresh)
        | inr other ↦ rw other (unchanged wallet l good)
      ]

  pub finalize_partial-Keeps :
      (receipt : Note) (a : Replies) (l : Ledger)
      → IsGood l
      → IsReceipt receipt
      → CreditIsFresh commit nullify wallet receipt.deposit_index l
      → Keeps wallet l (finalize_partial_fill commit nullify wallet receipt a l).1 0
  unfolding finalize_partial_fill
  finalize_partial-Keeps receipt a l = attested receipt a l a.attestation
