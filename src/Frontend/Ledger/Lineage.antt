-- ===== src/Frontend/Ledger/Lineage.antt =====
-- The open positions of a wallet under the flows of packages/frontend/src that credit and bet: a credit can
-- land only on a note of the deposit that the bet was placed from.
pub mod Refunds
pub mod Spends
pub mod Runs
use polyshield.Common.{
  ℕ, ◌≡◌, Bool, true, false, Option, none, some, List, [], ◌∷◌, ◌++◌, ◌+◌, ◌-◌, ◌==◌, refl,
  Bool-cases, inl, inr, ==_refl, arith, ltb, leb,
}
use polyshield.Frontend.Ledger.{
  Ledger, Note, Kind, is_receipt, is_in_deposit, mark_note_spent, mark_bet_receipt_spent, add_note,
  replace_note, record_wallet_activity, get_free_note_for_deposit,
}
use polyshield.Frontend.Ledger.Flows.{
  ChainBet, Att, Replies, Reply, next_note, bet_nullifier, close_full, settle_with, settle_record,
  settle_position, close_with, close_sold, close_record, finalize_close, credited, closed_credited,
  report_sold, report_failed, report_partial, active, done, left_open, thrown,
}
use polyshield.Frontend.Ledger.Effects.{IsGood, IsFree}
use polyshield.Frontend.Ledger.Balance.{latest-IsFree}
use polyshield.Frontend.Ledger.Kept.{
  IsCovered, IsKept, has_free, kept_same, kept_spend, kept_retire, kept_add, covered, has-last,
}

module _ (commit : ℕ → ℕ → ℕ → ℕ → ℕ) (nullify : ℕ → ℕ → ℕ → ℕ) (wallet : ℕ) where
  abbrev pub HasCover : Ledger → Type 0
  HasCover l = IsCovered wallet l.notes

  pub next_free :
      (kind : Kind) (b d : ℕ) (n : Note)
      → is_receipt kind ≡ false
      → (n.deposit_index == d) ≡ true
      → is_in_deposit wallet d (next_note commit nullify wallet kind b n) ≡ true
  next_free kind b d n h e = rw (h, ==_refl wallet, e) refl

  pub spent :
      (n : Note) (l : Ledger)
      → IsFree wallet n l
      → IsKept wallet (λ d. n.deposit_index == d) l.notes (mark_note_spent n.id l).notes
  unfolding mark_note_spent
  spent n l (found, free) =
      kept_spend wallet (λ d. n.deposit_index == d) l.notes l.notes n
        (kept_same wallet (λ d. n.deposit_index == d) l.notes) found (λ d h. h)

  -- The next note of a lineage covers what the note before it did.
  pub continued :
      (kind : Kind) (b : ℕ) (n : Note) (l : Ledger) (ns : List Note)
      → is_receipt kind ≡ false
      → HasCover l
      → IsKept wallet (λ d. n.deposit_index == d) l.notes ns
      → IsCovered wallet (ns ++ next_note commit nullify wallet kind b n ∷ [])
  continued kind b n l ns plain cov kept =
      let next = next_note commit nullify wallet kind b n in
      covered wallet (λ d. n.deposit_index == d) l.notes (ns ++ next ∷ []) cov
        (kept_add wallet (λ d. n.deposit_index == d) next l.notes ns plain kept)
        (λ d gone.
          inr (has-last (is_in_deposit wallet d) ns next (next_free kind b d n plain gone)))

  pub retire_covers : (nb : ℕ) (l : Ledger) → HasCover l → HasCover (mark_bet_receipt_spent nb l)
  unfolding mark_bet_receipt_spent
  retire_covers nb l cov =
      covered wallet (λ d. false) l.notes (mark_bet_receipt_spent nb l).notes cov
        (kept_retire wallet (λ d. false) nb l.notes l.notes (kept_same wallet (λ d. false) l.notes))
        (λ d h. ground arith)

  settle_found :
      (receipt : Note) (claim : ℕ) (relayed : Bool) (l : Ledger) (o : Option Note)
      → IsGood l
      → HasCover l
      → get_free_note_for_deposit wallet receipt.deposit_index l ≡ o
      → HasCover (settle_with commit nullify wallet receipt claim relayed l o).1
  unfolding add_note record_wallet_activity mark_bet_receipt_spent
  settle_found receipt claim relayed l none good cov e = cov
  settle_found receipt claim false l (some free) good cov e = cov
  settle_found receipt claim true l (some free) good cov e = continued _ _ free l _ refl cov (
      kept_retire wallet (λ d. free.deposit_index == d) (bet_nullifier receipt) l.notes
        (mark_note_spent free.id l).notes
        (spent free l (latest-IsFree wallet receipt.deposit_index free l good e)))

  settle_recorded :
      (receipt : Note) (claim : ℕ) (relayed : Bool) (l : Ledger) (o : Option ChainBet)
      → IsGood l
      → HasCover l
      → HasCover (settle_record commit nullify wallet receipt claim relayed l o).1
  settle_recorded receipt claim relayed l none good cov = cov
  settle_recorded receipt claim relayed l (some rec) good cov =
      elim (Bool-cases (rec.status == credited)) [
        | inl over ↦ rw over (retire_covers (bet_nullifier receipt) l cov)
        | inr unsettled ↦ rw unsettled (settle_found receipt claim relayed l _ good cov refl)
      ]

  pub settle_position_covers :
      (receipt : Note) (claim : ℕ) (a : Replies) (l : Ledger)
      → IsGood l
      → HasCover l
      → HasCover (settle_position commit nullify wallet receipt claim a l).1
  unfolding settle_position
  settle_position_covers receipt claim a l = settle_recorded receipt claim a.relayed l a.bet_record

  kept_close :
      (full : Bool) (receipt free : Note) (l : Ledger)
      → IsFree wallet free l
      → IsKept wallet
          (λ d. free.deposit_index == d)
          l.notes
          (close_full full receipt (mark_note_spent free.id l)).notes
  unfolding mark_bet_receipt_spent
  kept_close true receipt free l h =
      kept_retire wallet (λ d. free.deposit_index == d) (bet_nullifier receipt) l.notes
        (mark_note_spent free.id l).notes (spent free l h)
  kept_close false receipt free l h = spent free l h

  close_found :
      (receipt : Note) (rec : ChainBet) (att : Att) (relayed : Bool) (l : Ledger) (o : Option Note)
      → IsGood l
      → HasCover l
      → get_free_note_for_deposit wallet receipt.deposit_index l ≡ o
      → HasCover (close_with commit nullify wallet receipt rec att relayed l o).1
  unfolding add_note record_wallet_activity
  close_found receipt rec att relayed l none good cov e = cov
  close_found receipt rec att false l (some free) good cov e = cov
  close_found receipt rec att true l (some free) good cov e = continued _ _ free l _ refl cov (
      kept_close (leb rec.expected_shares att.amount_a) receipt free l
        (latest-IsFree wallet receipt.deposit_index free l good e))

  sold_covers :
      (receipt : Note) (rec : ChainBet) (relayed : Bool) (l : Ledger) (o : Option (Option Att))
      → IsGood l
      → HasCover l
      → HasCover (close_sold commit nullify wallet receipt rec relayed l o).1
  sold_covers receipt rec relayed l none good cov = cov
  sold_covers receipt rec relayed l (some none) good cov = cov
  sold_covers receipt rec relayed l (some (some att)) good cov =
      elim (Bool-cases (att.report_type == report_sold)) [
        | inl sold ↦ rw sold (close_found receipt rec att relayed l _ good cov refl)
        | inr other ↦ rw other cov
      ]

  close_recorded :
      (receipt : Note) (relayed : Bool) (att : Option (Option Att)) (l : Ledger)
      (o : Option ChainBet)
      → IsGood l
      → HasCover l
      → HasCover (close_record commit nullify wallet receipt relayed att l o).1
  close_recorded receipt relayed att l none good cov = cov
  close_recorded receipt relayed att l (some rec) good cov =
      elim (Bool-cases (rec.status == closed_credited)) [
        | inl over ↦ rw over (retire_covers (bet_nullifier receipt) l cov)
        | inr unclosed ↦ rw unclosed (sold_covers receipt rec relayed l att good cov)
      ]

  pub finalize_close_covers :
      (receipt : Note) (a : Replies) (l : Ledger)
      → IsGood l
      → HasCover l
      → HasCover (finalize_close commit nullify wallet receipt a l).1
  unfolding finalize_close
  finalize_close_covers receipt a l = close_recorded receipt a.relayed a.attestation l a.bet_record
