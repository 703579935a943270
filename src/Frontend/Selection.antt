-- ===== src/Frontend/Selection.antt =====
-- packages/frontend/src/lib/notes.ts: the wallet's notes, and selectNotesForAmount, which picks the notes
-- that one consolidate proof merges. Addresses and nullifiers are opaque numbers, equal where the code's
-- comparison in lower case says so. The text of an error is left out.
pub mod Safety
pub mod Totals
use Prim.Native.Nat.{zero, suc}
use polyshield.Common.{
  ◌≡◌, ℕ, ◌+◌, ◌≤◌, ◌<◌, Bool, true, false, Option, none, some, arith, ◌&&◌, ◌||◌, not, ◌==◌, leb,
  ltb, if◌then◌else◌, List, [], ◌∷◌, ◌++◌, length, suc, map,
}

pub data Kind : Type 0 where
  free_balance bet_receipt : Kind

pub record Note : Type 0 where
  pub owner : ℕ
  pub nullifier : ℕ
  pub nullifier_of_bet : Option ℕ
  pub deposit_index : ℕ
  pub nonce : ℕ
  pub balance : ℕ
  pub spent : Bool
  pub kind : Kind

abbrev pub is_receipt : Kind → Bool
is_receipt bet_receipt = true
is_receipt free_balance = false

abbrev pub member : ℕ → List ℕ → Bool
member n [] = false
member n (m ∷ ms) = m == n || member n ms

unfoldable pub filter_notes : (Note → Bool) → List Note → List Note
filter_notes p [] = []
filter_notes p (n ∷ ns) = if p n then n ∷ filter_notes p ns else filter_notes p ns

-- getFreeNotes: getSpendableNotes of a wallet
abbrev pub is_free : ℕ → Note → Bool
is_free wallet n = not n.spent && not (is_receipt n.kind) && (n.owner == wallet)

unfoldable pub get_free_notes : ℕ → List Note → List Note
get_free_notes wallet notes = filter_notes (is_free wallet) notes

abbrev pub sum_balance : List Note → ℕ
sum_balance [] = 0
sum_balance (n ∷ ns) = n.balance + sum_balance ns

unfoldable pub get_cash_balance : ℕ → List Note → ℕ
get_cash_balance wallet notes = sum_balance (get_free_notes wallet notes)

abbrev pub bet_nullifier : Note → ℕ
bet_nullifier n = elim n.nullifier_of_bet [ none ↦ n.nullifier | some m ↦ m ]

-- getOpenBetReceipts, and hideReceipt and unhideReceipt on the stored set
unfoldable pub get_open_bet_receipts : ℕ → List ℕ → List Note → List Note
get_open_bet_receipts wallet hidden notes =
    filter_notes
      (λ n.
        not n.spent
        && is_receipt n.kind
        && (n.owner == wallet)
        && not (member (bet_nullifier n) hidden))
      notes

unfoldable pub hide_receipt : ℕ → List ℕ → List ℕ
hide_receipt n hidden = if member n hidden then hidden else hidden ++ n ∷ []

unfoldable pub unhide_receipt : ℕ → List ℕ → List ℕ
unhide_receipt n [] = []
unhide_receipt n (m ∷ ms) = if m == n then unhide_receipt n ms else m ∷ unhide_receipt n ms

-- sort by `(a, b) => (a.balance > b.balance ? -1 : 1)`: largest first, equal ones in their order
unfoldable pub insert_note : Note → List Note → List Note
insert_note n [] = n ∷ []
insert_note n (m ∷ ms) = if leb m.balance n.balance then n ∷ m ∷ ms else m ∷ insert_note n ms

unfoldable pub sort_notes : List Note → List Note
sort_notes [] = []
sort_notes (n ∷ ns) = insert_note n (sort_notes ns)

unfoldable pub take_notes : ℕ → List Note → List Note
take_notes zero ns = []
take_notes (suc k) [] = []
take_notes (suc k) (n ∷ ns) = n ∷ take_notes k ns

-- MAX_CONSOLIDATE_INPUTS
abbrev pub max_consolidate_inputs : ℕ
max_consolidate_inputs = 4

pub record NoteSelection : Type 0 where
  pub notes : List Note
  pub total : ℕ

-- tryAdd, over a list
unfoldable pub add_all : ℕ → List Note → NoteSelection → NoteSelection
add_all amount [] s = s
add_all amount (n ∷ ns) s = add_all amount ns (
    if leb amount s.total || leb max_consolidate_inputs (length s.notes)
    then s
    else record { notes = s.notes ++ n ∷ []; total = s.total + n.balance })

-- The first note with a deposit index, and the others; moved to the front by move_front.
abbrev pub behind : Note → Option (Note × List Note) → Option (Note × List Note)
behind n none = none
behind n (some (m, ms)) = some (m, n ∷ ms)

unfoldable pub take_out : ℕ → List Note → Option (Note × List Note)
take_out deposit [] = none
take_out deposit (n ∷ ns) =
    let rest = take_out deposit ns in
    if n.deposit_index == deposit then some (n, ns) else behind n rest

abbrev pub front : List Note → Option (Note × List Note) → List Note
front ns none = ns
front ns (some (m, ms)) = m ∷ ms

unfoldable pub move_front : Option ℕ → List Note → List Note
move_front none ns = ns
move_front (some deposit) ns = front ns (take_out deposit ns)

abbrev pub is_open : List ℕ → Note → Bool
is_open deposits n = member n.deposit_index deposits

unfoldable pub first_open : List ℕ → List Note → Option ℕ
first_open deposits [] = none
first_open deposits (n ∷ ns) =
    if is_open deposits n then some n.deposit_index else first_open deposits ns

abbrev pub or_preferred : Option ℕ → Option ℕ → Option ℕ
or_preferred none preferred = preferred
or_preferred (some d) preferred = some d

abbrev pub with_first : List Note → List Note → List Note
with_first clear [] = clear
with_first clear (o ∷ os) = sort_notes (clear ++ o ∷ [])

-- The notes to try, largest first; without an open deposit, all of them are clear.
unfoldable pub pool_of : ℕ → List ℕ → List Note → List Note
pool_of amount deposits sorted =
    let clear = filter_notes (λ n. not (is_open deposits n)) sorted in
    if leb amount (sum_balance (take_notes max_consolidate_inputs clear))
    then clear
    else with_first clear (filter_notes (is_open deposits) sorted)

abbrev pub if_enough : ℕ → NoteSelection → Option ℕ → Option NoteSelection
if_enough amount picked slot =
    if ltb picked.total amount
    then none
    else some (record { notes = move_front slot picked.notes; total = picked.total })

abbrev pub select_from : ℕ → List ℕ → Option ℕ → List Note → Option NoteSelection
select_from amount deposits preferred [] = none
select_from amount deposits preferred (n ∷ ns) =
    let picked =
      add_all amount (pool_of amount deposits (n ∷ ns)) (record { notes = []; total = 0 }) in
    if_enough amount picked (or_preferred (first_open deposits picked.notes) preferred)

-- The body of selectNotesForAmount, on the deposits with an open position
unfoldable pub select_notes_for_amount :
    ℕ → ℕ → List ℕ → Option ℕ → List Note → Option NoteSelection
select_notes_for_amount wallet amount deposits preferred notes =
    select_from amount deposits preferred (sort_notes (get_free_notes wallet notes))

-- opts.openPositionDeposits, and the wallet's own open deposits without it
unfoldable pub open_deposits : Option (List ℕ) → ℕ → List ℕ → List Note → List ℕ
open_deposits (some deposits) wallet hidden notes = deposits
open_deposits none wallet hidden notes =
    map (λ n. n.deposit_index) (get_open_bet_receipts wallet hidden notes)

-- selectNotesForAmount, with its options
unfoldable pub select_with_defaults :
    ℕ → ℕ → Option (List ℕ) → Option ℕ → List ℕ → List Note → Option NoteSelection
select_with_defaults wallet amount deposits preferred hidden notes =
    select_notes_for_amount wallet amount (open_deposits deposits wallet hidden notes) preferred
      notes
