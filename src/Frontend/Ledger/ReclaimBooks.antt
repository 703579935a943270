-- ===== src/Frontend/Ledger/ReclaimBooks.antt =====
-- The books of a wallet and its cash agree after cancelAndReclaim.ts of packages/frontend/src/lib.
use polyshield.Common.{
  ℕ, ◌+◌, ◌≡◌, Bool, true, false, Option, none, some, List, ◌==◌, arith, refl, ◌∙◌, Bool-cases, inl,
  inr,
}
use polyshield.Frontend.Ledger.{
  Ledger, Note, refund, cancel_credit, mark_note_spent, mark_bet_receipt_spent, add_note,
  get_free_note_for_deposit,
}
use polyshield.Frontend.Ledger.Sums.{ids}
use polyshield.Frontend.Ledger.Effects.{
  IsGood, IsFree, IsGood-after, and_then, spend, retire, add, book,
}
use polyshield.Frontend.Ledger.Replace.{IsReceipt, ids-spend, ids-retire}
use polyshield.Frontend.Ledger.Flows.{ChainBet, Att, Replies, settled, next_note, bet_nullifier}
use polyshield.Frontend.Ledger.Refunds.{
  failed_relayed, failed_fee, failed_record, failed_free, credit_failed_reclaim, reclaim_bet,
}
use polyshield.Frontend.Ledger.Balance.{
  Keeps, balanced, unchanged, retired, latest-IsFree, received_in-settled, paid_in-settled,
  cash_of-next, NextIsFresh, CreditIsFresh,
}
use polyshield.Frontend.Ledger.RefundBooks.{finalize_partial-Keeps}
use polyshield.Frontend.Ledger.Reclaims.{reclaim_bet_holds}

module _ (commit : ℕ → ℕ → ℕ → ℕ → ℕ) (nullify : ℕ → ℕ → ℕ → ℕ) (wallet : ℕ) where
  failed-Keeps :
      (receipt free : Note) (amount : ℕ) (l : Ledger)
      → IsGood l
      → IsFree wallet free l
      → NextIsFresh commit nullify wallet free l
      → Keeps wallet l (failed_relayed commit nullify wallet receipt amount free l) 0
  failed-Keeps receipt free amount l good is_free fresh =
      let ev = settled wallet refund amount receipt in
      let e1 = spend wallet free l good is_free in
      let l1 = mark_note_spent free.id l in
      let e2 = retire wallet (bet_nullifier receipt) l1 (IsGood-after e1) in
      let l2 = mark_bet_receipt_spent (bet_nullifier receipt) l1 in
      let next = next_note commit nullify wallet cancel_credit (free.balance + amount) free in
      let same : ids l2.notes ≡ ids l.notes =
        ids-retire (bet_nullifier receipt) l1 ∙ ids-spend free.id l in
      let e3 =
        add wallet next l2 (IsGood-after e2) (rw same (fresh (free.balance + amount))) refl in
      let e4 = book wallet ev (add_note next l2) (IsGood-after e3) in
      balanced 0 (and_then e1 (and_then e2 (and_then e3 e4))) (
        omega (
          arith,
          cash_of-next commit nullify wallet cancel_credit (free.balance + amount) free refl,
          received_in-settled wallet amount refund receipt,
          paid_in-settled wallet amount refund receipt,
        ))

  stake_known :
      (receipt : Note) (stake : ℕ) (relayed : Bool) (free : Note) (l : Ledger) (o : Option ℕ)
      → IsGood l
      → IsFree wallet free l
      → NextIsFresh commit nullify wallet free l
      → Keeps wallet l (failed_fee commit nullify wallet receipt stake relayed free l o).1 0
  stake_known receipt stake relayed free l none good is_free fresh = unchanged wallet l good
  stake_known receipt stake false free l (some fee) good is_free fresh = unchanged wallet l good
  stake_known receipt stake true free l (some fee) good is_free fresh =
      failed-Keeps receipt free (stake + fee) l good is_free fresh

  failed_recorded :
      (receipt : Note) (a : Replies) (free : Note) (l : Ledger) (o : Option ChainBet)
      → IsGood l
      → IsFree wallet free l
      → NextIsFresh commit nullify wallet free l
      → Keeps wallet l (failed_record commit nullify wallet receipt a free l o).1 0
  failed_recorded receipt a free l none good is_free fresh = unchanged wallet l good
  failed_recorded receipt a free l (some rec) good is_free fresh =
      elim (Bool-cases (rec.bet_amount == 0)) [
        | inl nil ↦ rw nil (retired commit nullify wallet (bet_nullifier receipt) l good)
        | inr stake ↦
            rw stake (
              stake_known receipt rec.bet_amount a.relayed free l a.protocol_fee good is_free fresh)
      ]

  failed_found :
      (receipt : Note) (a : Replies) (l : Ledger) (o : Option Note)
      → IsGood l
      → CreditIsFresh commit nullify wallet receipt.deposit_index l
      → get_free_note_for_deposit wallet receipt.deposit_index l ≡ o
      → Keeps wallet l (failed_free commit nullify wallet receipt a l o).1 0
  failed_found receipt a l none good fresh e = unchanged wallet l good
  failed_found receipt a l (some free) good fresh e =
      failed_recorded receipt a free l a.bet_record good
        (latest-IsFree wallet receipt.deposit_index free l good e) (fresh free e)

  credit_failed-Keeps :
      (receipt : Note) (a : Replies) (l : Ledger)
      → IsGood l
      → CreditIsFresh commit nullify wallet receipt.deposit_index l
      → Keeps wallet l (credit_failed_reclaim commit nullify wallet receipt a l).1 0
  unfolding credit_failed_reclaim
  credit_failed-Keeps receipt a l good fresh = failed_found receipt a l _ good fresh refl

  pub reclaim_bet-Keeps :
      (receipt : Note) (rec : Option ChainBet) (tries : List (Option (Option Att) × Replies))
      (l : Ledger)
      → IsGood l
      → IsReceipt receipt
      → CreditIsFresh commit nullify wallet receipt.deposit_index l
      → Keeps wallet l (reclaim_bet commit nullify wallet receipt rec tries l).1 0
  reclaim_bet-Keeps receipt rec tries l good r fresh =
      reclaim_bet_holds commit nullify wallet (λ l'. Keeps wallet l l' 0) receipt rec tries l
        (unchanged wallet l good) (retired commit nullify wallet (bet_nullifier receipt) l good)
        (λ a. credit_failed-Keeps receipt a l good fresh)
        (λ a. finalize_partial-Keeps commit nullify wallet receipt a l good r fresh)
