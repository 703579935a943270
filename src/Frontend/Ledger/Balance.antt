-- ===== src/Frontend/Ledger/Balance.antt =====
-- The books of a wallet and its cash agree after every flow of packages/frontend/src.
use polyshield.Common.{
  ℕ, ◌+◌, ◌≡◌, true, false, none, some, Option, Bool-cases, inl, inr, leb, ◌==◌, arith, refl, ◌∙◌,
  ==_refl, Bool, Option, Bool-cases, leb, ◌==◌, inl, inr,
}
use polyshield.Frontend.Ledger.{
  Ledger, Note, Kind, hashed, is_receipt, ActivityKind, cash_of, get_cash_balance, mark_note_spent,
  mark_bet_receipt_spent, record_wallet_activity, get_free_note_for_deposit, is_in_deposit,
  settlement, settle_credit,
}
use polyshield.Frontend.Ledger.Sums.{ids, IsFresh}
use polyshield.Frontend.Ledger.Latest.{latest-holds, latest-found}
use polyshield.Frontend.Ledger.Effects.{
  IsGood, IsFree, Effect, nothing, IsGood-after, and_then, spend, retire, add, book, nothing,
}
use polyshield.Frontend.Ledger.Replace.{ids-spend, ids-retire, ids-book}
use polyshield.Frontend.Ledger.Runs.{received, paid, received_in, paid_in, received_by, paid_by}
use polyshield.Frontend.Ledger.Flows.{
  close_full, close_with, close_sold, close_record, finalize_close, closed_credited, report_sold,
  settled, next_note, settle_with, bet_nullifier, ChainBet, Replies, settle_position, Att,
  settle_record, credited,
}

-- The ledger stays good, and what came in beyond `fee` is in the cash or was paid out.
abbrev pub Keeps : ℕ → Ledger → Ledger → ℕ → Type 0
Keeps wallet l l' fee =
    IsGood l'
    × (get_cash_balance wallet l' + paid wallet l' + fee + received wallet l
        ≡ received wallet l' + get_cash_balance wallet l + paid wallet l)

pub balanced :
    {wallet : ℕ} {l l' : Ledger} {g c p r : ℕ} (fee : ℕ)
    → Effect wallet l l' g c p r
    → g + p + fee ≡ c + r
    → Keeps wallet l l' fee
balanced fee e h = let (good, cash, pd, rc) = e.change in (good, omega arith)

pub unchanged : (wallet : ℕ) (l : Ledger) → IsGood l → Keeps wallet l l 0
unchanged wallet l good = (good, omega arith)

pub received_in-settled :
    (wallet a : ℕ) (kind : ActivityKind) (r : Note)
    → received_in wallet (settled wallet kind a r) ≡ received_by kind a
received_in-settled wallet a kind r = rw (==_refl wallet) refl

pub paid_in-settled :
    (wallet a : ℕ) (kind : ActivityKind) (r : Note)
    → paid_in wallet (settled wallet kind a r) ≡ paid_by kind a
paid_in-settled wallet a kind r = rw (==_refl wallet) refl

pub latest-IsFree :
    (wallet d : ℕ) (free : Note) (l : Ledger)
    → IsGood l
    → get_free_note_for_deposit wallet d l ≡ some free
    → IsFree wallet free l
unfolding get_free_note_for_deposit
latest-IsFree wallet d free l (distinct, typed) e = (
  latest-found (is_in_deposit wallet d) l.notes free distinct e,
  ground (arith, latest-holds (is_in_deposit wallet d) l.notes free e),
)

module _ (commit : ℕ → ℕ → ℕ → ℕ → ℕ) (nullify : ℕ → ℕ → ℕ → ℕ) (wallet : ℕ) where
  -- No commitment at the next nonce of the note's lineage is one of the ledger.
  abbrev pub NextIsFresh : Note → Ledger → Type 0
  NextIsFresh n l =
      (balance : ℕ)
      → IsFresh (hashed (commit wallet n.deposit_index balance (n.nonce + 1))) (ids l.notes)

  pub cash_of-next :
      (kind : Kind) (balance : ℕ) (n : Note)
      → is_receipt kind ≡ false
      → cash_of wallet (next_note commit nullify wallet kind balance n) ≡ balance
  cash_of-next kind balance n h = rw (h, ==_refl wallet) refl

  settle-Keeps :
      (receipt free : Note) (claim : ℕ) (l : Ledger)
      → IsGood l
      → IsFree wallet free l
      → NextIsFresh free l
      → Keeps wallet l (settle_with commit nullify wallet receipt claim true l (some free)).1 0
  settle-Keeps receipt free claim l good is_free fresh =
      let e1 = spend wallet free l good is_free in
      let l1 = mark_note_spent free.id l in
      let e2 = retire wallet (bet_nullifier receipt) l1 (IsGood-after e1) in
      let l2 = mark_bet_receipt_spent (bet_nullifier receipt) l1 in
      let e3 = book wallet (settled wallet settlement claim receipt) l2 (IsGood-after e2) in
      let l3 = record_wallet_activity (settled wallet settlement claim receipt) l2 in
      let next = next_note commit nullify wallet settle_credit (free.balance + claim) free in
      let same : ids l3.notes ≡ ids l.notes =
        ids-book (settled wallet settlement claim receipt) l2
        ∙ ids-retire (bet_nullifier receipt) l1
        ∙ ids-spend free.id l in
      let e4 = add wallet next l3 (IsGood-after e3) (rw same (fresh (free.balance + claim))) refl in
      balanced 0 (and_then e1 (and_then e2 (and_then e3 e4))) (
        omega (
          arith,
          cash_of-next settle_credit (free.balance + claim) free refl,
          received_in-settled wallet claim settlement receipt,
          paid_in-settled wallet claim settlement receipt,
        ))

  pub retired : (nb : ℕ) (l : Ledger) → IsGood l → Keeps wallet l (mark_bet_receipt_spent nb l) 0
  retired nb l good = balanced 0 (retire wallet nb l good) (omega arith)

  -- The next commitment of the lineage that a credit lands on is new.
  abbrev pub CreditIsFresh : ℕ → Ledger → Type 0
  CreditIsFresh d l =
      (free : Note) → get_free_note_for_deposit wallet d l ≡ some free → NextIsFresh free l

  settle_found :
      (receipt : Note) (claim : ℕ) (relayed : Bool) (l : Ledger) (o : Option Note)
      → IsGood l
      → CreditIsFresh receipt.deposit_index l
      → get_free_note_for_deposit wallet receipt.deposit_index l ≡ o
      → Keeps wallet l (settle_with commit nullify wallet receipt claim relayed l o).1 0
  settle_found receipt claim relayed l none good fresh e = unchanged wallet l good
  settle_found receipt claim false l (some free) good fresh e = unchanged wallet l good
  settle_found receipt claim true l (some free) good fresh e =
      settle-Keeps receipt free claim l good
        (latest-IsFree wallet receipt.deposit_index free l good e) (fresh free e)

  settle_recorded :
      (receipt : Note) (claim : ℕ) (relayed : Bool) (l : Ledger) (o : Option ChainBet)
      → IsGood l
      → CreditIsFresh receipt.deposit_index l
      → Keeps wallet l (settle_record commit nullify wallet receipt claim relayed l o).1 0
  settle_recorded receipt claim relayed l none good fresh = unchanged wallet l good
  settle_recorded receipt claim relayed l (some rec) good fresh =
      elim (Bool-cases (rec.status == credited)) [
        | inl over ↦ rw over (retired (bet_nullifier receipt) l good)
        | inr open_bet ↦ rw open_bet (settle_found receipt claim relayed l _ good fresh refl)
      ]

  pub settle_position-Keeps :
      (receipt : Note) (claim : ℕ) (a : Replies) (l : Ledger)
      → IsGood l
      → CreditIsFresh receipt.deposit_index l
      → Keeps wallet l (settle_position commit nullify wallet receipt claim a l).1 0
  unfolding settle_position
  settle_position-Keeps receipt claim a l = settle_recorded receipt claim a.relayed l a.bet_record

  -- The close retires the receipt or leaves it.
  close_full_effect :
      (full : Bool) (receipt : Note) (l : Ledger)
      → IsGood l
      → Effect wallet l (close_full full receipt l) 0 0 0 0
        × (ids (close_full full receipt l).notes ≡ ids l.notes)
  close_full_effect true receipt l good =
      (retire wallet (bet_nullifier receipt) l good, ids-retire (bet_nullifier receipt) l)
  close_full_effect false receipt l good = (nothing wallet l good, refl)

  close-Keeps :
      (receipt free : Note) (rec : ChainBet) (att : Att) (l : Ledger)
      → IsGood l
      → IsFree wallet free l
      → NextIsFresh free l
      → Keeps wallet l (close_with commit nullify wallet receipt rec att true l (some free)).1 0
  close-Keeps receipt free rec att l good is_free fresh =
      let full = leb rec.expected_shares att.amount_a in
      let ev = settled wallet settlement att.amount_b receipt in
      let e1 = spend wallet free l good is_free in
      let l1 = mark_note_spent free.id l in
      let (e2, ids2) = close_full_effect full receipt l1 (IsGood-after e1) in
      let l2 = close_full full receipt l1 in
      let e3 = book wallet ev l2 (IsGood-after e2) in
      let l3 = record_wallet_activity ev l2 in
      let next = next_note commit nullify wallet settle_credit (free.balance + att.amount_b) free in
      let same : ids l3.notes ≡ ids l.notes = ids-book ev l2 ∙ ids2 ∙ ids-spend free.id l in
      let e4 =
        add wallet next l3 (IsGood-after e3) (rw same (fresh (free.balance + att.amount_b))) refl in
      balanced 0 (and_then e1 (and_then e2 (and_then e3 e4))) (
        omega (
          arith,
          cash_of-next settle_credit (free.balance + att.amount_b) free refl,
          received_in-settled wallet att.amount_b settlement receipt,
          paid_in-settled wallet att.amount_b settlement receipt,
        ))

  close_found :
      (receipt : Note) (rec : ChainBet) (att : Att) (relayed : Bool) (l : Ledger) (o : Option Note)
      → IsGood l
      → CreditIsFresh receipt.deposit_index l
      → get_free_note_for_deposit wallet receipt.deposit_index l ≡ o
      → Keeps wallet l (close_with commit nullify wallet receipt rec att relayed l o).1 0
  close_found receipt rec att relayed l none good fresh e = unchanged wallet l good
  close_found receipt rec att false l (some free) good fresh e = unchanged wallet l good
  close_found receipt rec att true l (some free) good fresh e =
      close-Keeps receipt free rec att l good
        (latest-IsFree wallet receipt.deposit_index free l good e) (fresh free e)

  close_attested :
      (receipt : Note) (rec : ChainBet) (relayed : Bool) (l : Ledger) (o : Option (Option Att))
      → IsGood l
      → CreditIsFresh receipt.deposit_index l
      → Keeps wallet l (close_sold commit nullify wallet receipt rec relayed l o).1 0
  close_attested receipt rec relayed l none good fresh = unchanged wallet l good
  close_attested receipt rec relayed l (some none) good fresh = unchanged wallet l good
  close_attested receipt rec relayed l (some (some att)) good fresh =
      elim (Bool-cases (att.report_type == report_sold)) [
        | inl sold ↦ rw sold (close_found receipt rec att relayed l _ good fresh refl)
        | inr other ↦ rw other (unchanged wallet l good)
      ]

  close_recorded :
      (receipt : Note) (relayed : Bool) (att : Option (Option Att)) (l : Ledger)
      (o : Option ChainBet)
      → IsGood l
      → CreditIsFresh receipt.deposit_index l
      → Keeps wallet l (close_record commit nullify wallet receipt relayed att l o).1 0
  close_recorded receipt relayed att l none good fresh = unchanged wallet l good
  close_recorded receipt relayed att l (some rec) good fresh =
      elim (Bool-cases (rec.status == closed_credited)) [
        | inl over ↦ rw over (retired (bet_nullifier receipt) l good)
        | inr open_bet ↦ rw open_bet (close_attested receipt rec relayed l att good fresh)
      ]

  pub finalize_close-Keeps :
      (receipt : Note) (a : Replies) (l : Ledger)
      → IsGood l
      → CreditIsFresh receipt.deposit_index l
      → Keeps wallet l (finalize_close commit nullify wallet receipt a l).1 0
  unfolding finalize_close
  finalize_close-Keeps receipt a l = close_recorded receipt a.relayed a.attestation l a.bet_record
