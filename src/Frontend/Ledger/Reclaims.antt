-- ===== src/Frontend/Ledger/Reclaims.antt =====
-- What reclaimBet of packages/frontend/src/lib/cancelAndReclaim.ts can end in: the ledger of one of its calls.
use polyshield.Common.{
  ℕ, zero, suc, ◌≡◌, Option, none, some, List, [], ◌∷◌, ◌==◌, refl, Bool-cases, inl, inr, sym, ◌||◌,
}
use mathlib.Core.Path.{subst}
use polyshield.Frontend.Ledger.{Ledger, Note, mark_bet_receipt_spent}
use polyshield.Frontend.Ledger.Flows.{
  ChainBet, Att, Replies, Reply, bet_nullifier, report_failed, report_partial, done, left_open,
  thrown, cancelled_credited, credited, closed_credited,
}
use polyshield.Frontend.Ledger.Refunds.{
  finalize_partial_fill, credit_failed_reclaim, after_partial, try_credit, go_on, poll,
  reclaim_record, reclaim_bet,
}

module _ (commit : ℕ → ℕ → ℕ → ℕ → ℕ) (nullify : ℕ → ℕ → ℕ → ℕ) (wallet : ℕ)
    (P : Ledger → Type 0) where
  -- A try keeps the property, and changes nothing where the polls go on.
  abbrev TryHolds : Ledger → Option Reply × Ledger → Type 0
  TryHolds l x = P x.1 × (x.0 ≡ none → x.1 ≡ l)

  after_partial_holds :
      (l : Ledger) (x : Reply × Ledger) → P x.1 → TryHolds l (after_partial commit nullify x)
  after_partial_holds l (thrown, l') k = (k, λ e. absurd (cc (e)))
  after_partial_holds l (done a, l') k = (k, λ e. absurd (cc (e)))
  after_partial_holds l (left_open r, l') k = (k, λ e. absurd (cc (e)))

  try_holds :
      (receipt : Note) (a : Replies) (l : Ledger) (o : Option (Option Att))
      → P l
      → P (credit_failed_reclaim commit nullify wallet receipt a l).1
      → P (finalize_partial_fill commit nullify wallet receipt a l).1
      → TryHolds l (try_credit commit nullify wallet receipt a l o)
  try_holds receipt a l none now failed part = (now, λ e. absurd (cc (e)))
  try_holds receipt a l (some none) now failed part = (now, λ e. refl)
  try_holds receipt a l (some (some att)) now failed part =
      elim (Bool-cases (att.report_type == report_failed)) [
        | inl is_failed ↦ rw is_failed (failed, λ e. absurd (cc (e)))
        | inr not_failed ↦ elim (Bool-cases (att.report_type == report_partial)) [
          | inl is_partial ↦ rw (not_failed, is_partial) (after_partial_holds l _ part)
          | inr other ↦ rw (not_failed, other) (now, λ e. refl)
        ]
      ]

  go_on_holds :
      (l : Ledger) (next : Ledger → Reply × Ledger) (x : Option Reply × Ledger)
      → TryHolds l x
      → P (next l).1
      → P (go_on commit nullify next x).1
  go_on_holds l next (some reply, l') (k, same) rest = k
  go_on_holds l next (none, l') (k, same) rest = subst (λ y. P (next y).1) (sym (same refl)) rest

  poll_holds :
      (left : ℕ) (receipt : Note) (tries : List (Option (Option Att) × Replies)) (l : Ledger)
      → P l
      → ((a : Replies) → P (credit_failed_reclaim commit nullify wallet receipt a l).1)
      → ((a : Replies) → P (finalize_partial_fill commit nullify wallet receipt a l).1)
      → P (poll commit nullify left wallet receipt tries l).1
  unfolding poll
  poll_holds zero receipt tries l now failed part = now
  poll_holds (suc left) receipt [] l now failed part = now
  poll_holds (suc left) receipt ((att, a) ∷ tries) l now failed part =
      go_on_holds l (λ y. poll commit nullify left wallet receipt tries y) _
        (try_holds receipt a l att now (failed a) (part a))
        (poll_holds left receipt tries l now failed part)

  record_holds :
      (receipt : Note) (tries : List (Option (Option Att) × Replies)) (l : Ledger)
      (o : Option ChainBet)
      → P l
      → P (mark_bet_receipt_spent (bet_nullifier receipt) l)
      → ((a : Replies) → P (credit_failed_reclaim commit nullify wallet receipt a l).1)
      → ((a : Replies) → P (finalize_partial_fill commit nullify wallet receipt a l).1)
      → P (reclaim_record commit nullify wallet receipt tries l o).1
  record_holds receipt tries l none now retired failed part = now
  record_holds receipt tries l (some rec) now retired failed part =
      elim (Bool-cases (
        rec.status == cancelled_credited
        || (rec.status == credited || rec.status == closed_credited))) [
          | inl over ↦ rw over retired
          | inr unpaid ↦ rw unpaid (poll_holds 7 receipt tries l now failed part)
        ]

  -- A property of the ledger that holds after each call holds after a reclaim.
  pub reclaim_bet_holds :
      (receipt : Note) (rec : Option ChainBet) (tries : List (Option (Option Att) × Replies))
      (l : Ledger)
      → P l
      → P (mark_bet_receipt_spent (bet_nullifier receipt) l)
      → ((a : Replies) → P (credit_failed_reclaim commit nullify wallet receipt a l).1)
      → ((a : Replies) → P (finalize_partial_fill commit nullify wallet receipt a l).1)
      → P (reclaim_bet commit nullify wallet receipt rec tries l).1
  unfolding reclaim_bet
  reclaim_bet_holds receipt rec tries l = record_holds receipt tries l rec
