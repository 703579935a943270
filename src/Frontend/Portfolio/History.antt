-- ===== src/Frontend/Portfolio/History.antt =====
-- The history of closed bets of packages/frontend/src/lib/accountState.ts with one more settlement.
use polyshield.Common.{
  ℕ, ◌+◌, ◌≡◌, Bool, Option, List, [], ◌∷◌, ◌++◌, ◌==◌, ◌&&◌, if◌then◌else◌, ap, refl, arith,
  Bool-cases, inl, inr, ==_refl,
}
use polyshield.Frontend.Ledger.{Note, NoteId, Activity, ActivityKind, settlement}
use polyshield.Frontend.Portfolio.{
  ClosedBet, same_receipt, is_settlement, is_refund, is_bet, committed, refunded, cost_basis,
  settlement_row, refund_row, rows_of, closed_bet_history, sum_rows, total_pnl, of_wallet,
}

-- A settlement at the end changes neither the stake nor the refunds of a receipt.
pub committed-settled :
    (id : Option NoteId) (es : List Activity) (e : Activity)
    → e.kind ≡ settlement
    → committed id (es ++ e ∷ []) ≡ committed id es
unfolding committed
committed-settled id [] e k = rw k refl
committed-settled id (x ∷ es) e k =
    elim (Bool-cases (is_bet x.kind && same_receipt id x.receipt_id)) [
      | inl here ↦ rw here refl
      | inr other ↦ rw other (committed-settled id es e k)
    ]

pub refunded-settled :
    (id : Option NoteId) (es : List Activity) (e : Activity)
    → e.kind ≡ settlement
    → refunded id (es ++ e ∷ []) ≡ refunded id es
unfolding refunded
refunded-settled id [] e k = rw k refl
refunded-settled id (x ∷ es) e k =
    elim (Bool-cases (is_refund x.kind && same_receipt id x.receipt_id)) [
      | inl here ↦ rw here (ap (λ n. x.amount + n) (refunded-settled id es e k))
      | inr other ↦ rw other (refunded-settled id es e k)
    ]

pub cost_basis-settled :
    (id : Option NoteId) (es : List Activity) (e : Activity)
    → e.kind ≡ settlement
    → cost_basis id (es ++ e ∷ []) ≡ cost_basis id es
unfolding cost_basis
cost_basis-settled id es e k = rw (committed-settled id es e k, refunded-settled id es e k) refl

rows_of-append :
    (p : ActivityKind → Bool) (row : Activity → ClosedBet) (es : List Activity) (e : Activity)
    → rows_of p row (es ++ e ∷ []) ≡ rows_of p row es ++ (if p e.kind then row e ∷ [] else [])
unfolding rows_of
rows_of-append p row [] e = refl
rows_of-append p row (x ∷ es) e = elim (Bool-cases (p x.kind)) [
  | inl holds ↦ rw holds (ap (λ r. row x ∷ r) (rows_of-append p row es e))
  | inr fails ↦ rw fails (rows_of-append p row es e)
]

rows_of-same :
    (p : ActivityKind → Bool) (f g : Activity → ClosedBet) (es : List Activity)
    → ((e : Activity) → f e ≡ g e)
    → rows_of p f es ≡ rows_of p g es
unfolding rows_of
rows_of-same p f g [] h = refl
rows_of-same p f g (x ∷ es) h = rw (h x, rows_of-same p f g es h) refl

gain-append :
    (xs ys : List ClosedBet) → (sum_rows (xs ++ ys)).gain ≡ (sum_rows xs).gain + (sum_rows ys).gain
unfolding sum_rows
gain-append [] ys = omega arith
gain-append (x ∷ xs) ys = omega (arith, gain-append xs ys)

cost-append :
    (xs ys : List ClosedBet) → (sum_rows (xs ++ ys)).cost ≡ (sum_rows xs).cost + (sum_rows ys).cost
unfolding sum_rows
cost-append [] ys = omega arith
cost-append (x ∷ xs) ys = omega (arith, cost-append xs ys)

-- The rows of an activity with a settlement at its end are those without, and one for it.
settled_rows :
    (es : List Activity) (e : Activity)
    → e.kind ≡ settlement
    → closed_bet_history (es ++ e ∷ [])
      ≡ (rows_of is_settlement (settlement_row es) es ++ settlement_row es e ∷ [])
        ++ (rows_of is_refund (refund_row es) es ++ [])
unfolding closed_bet_history
settled_rows es e k =
    let row : (x : Activity) → settlement_row (es ++ e ∷ []) x ≡ settlement_row es x =
      λ x. rw (cost_basis-settled x.receipt_id es e k) refl in
    let back : (x : Activity) → refund_row (es ++ e ∷ []) x ≡ refund_row es x =
      λ x. rw (committed-settled x.receipt_id es e k) refl in
    rw
      (
        rows_of-same is_settlement _ _ (es ++ e ∷ []) row,
        rows_of-same is_refund _ _ (es ++ e ∷ []) back,
        rows_of-append is_settlement (settlement_row es) es e,
        rows_of-append is_refund (refund_row es) es e,
        k,
      )
      refl

pub total_pnl-settled :
    (es : List Activity) (e : Activity) (lost : List Note)
    → e.kind ≡ settlement
    → ((total_pnl (es ++ e ∷ []) lost).gain ≡ (total_pnl es lost).gain + e.amount)
      × ((total_pnl (es ++ e ∷ []) lost).cost
          ≡ (total_pnl es lost).cost + cost_basis e.receipt_id es)
unfolding total_pnl closed_bet_history sum_rows
total_pnl-settled es e lost k =
    let ss = rows_of is_settlement (settlement_row es) es in
    let rs = rows_of is_refund (refund_row es) es in
    let new = settlement_row es e ∷ [] in
    (
      omega (
        arith,
        ap (λ r. (sum_rows r).gain) (settled_rows es e k),
        gain-append (ss ++ new) (rs ++ []),
        gain-append ss new,
        gain-append rs [],
        gain-append ss rs,
      ),
      omega (
        arith,
        ap (λ r. (sum_rows r).cost) (settled_rows es e k),
        cost-append (ss ++ new) (rs ++ []),
        cost-append ss new,
        cost-append rs [],
        cost-append ss rs,
      ),
    )

pub of_wallet-append :
    (wallet : ℕ) (es : List Activity) (e : Activity)
    → e.wallet ≡ wallet
    → of_wallet wallet (es ++ e ∷ []) ≡ of_wallet wallet es ++ e ∷ []
unfolding of_wallet
of_wallet-append wallet [] e h = rw (h, ==_refl wallet) refl
of_wallet-append wallet (x ∷ es) e h = elim (Bool-cases (x.wallet == wallet)) [
  | inl mine ↦ rw mine (ap (λ r. x ∷ r) (of_wallet-append wallet es e h))
  | inr other ↦ rw other (of_wallet-append wallet es e h)
]
