-- ===== src/Frontend/Selection/Totals.antt =====
-- The amounts of a selection of notes (notes.ts, selectNotesForAmount).
use polyshield.Common.{
  ◌≡◌, ℕ, ◌+◌, ◌≤◌, Option, none, some, arith, ◌||◌, ◌==◌, leb, ltb, List, [], ◌∷◌, ◌++◌, length,
  length-append, Bool-cases, inl, inr, refl,
}
use polyshield.Frontend.Selection.{
  Note, NoteSelection, add_all, take_out, behind, front, move_front, pool_of, first_open,
  or_preferred, if_enough, select_from, select_notes_for_amount, get_free_notes, sort_notes,
  sum_balance, max_consolidate_inputs,
}

-- The total is the sum of the notes, which are at most four.
abbrev pub IsTotalled : NoteSelection → Type 0
IsTotalled s = (s.total ≡ sum_balance s.notes) × (length s.notes ≤ max_consolidate_inputs)

sum-append : (xs ys : List Note) → sum_balance (xs ++ ys) ≡ sum_balance xs + sum_balance ys
sum-append [] ys = ground arith
sum-append (x ∷ xs) ys = omega (arith, sum-append xs ys)

add_all-IsTotalled :
    (amount : ℕ) (ns : List Note) (s : NoteSelection)
    → IsTotalled s
    → IsTotalled (add_all amount ns s)
unfolding add_all
add_all-IsTotalled amount [] s h = h
add_all-IsTotalled amount (n ∷ ns) s (total, short) =
    elim (Bool-cases (leb amount s.total || leb max_consolidate_inputs (length s.notes))) [
      | inl full ↦ rw (full, add_all) (add_all-IsTotalled amount ns s (total, short))
      | inr more ↦
          let s' : NoteSelection = record {
            notes = s.notes ++ n ∷ [];
            total = s.total + n.balance;
          } in
          rw (more, add_all)
            (add_all-IsTotalled amount ns s' (
              omega (arith, total, sum-append s.notes (n ∷ [])),
              ground (arith, length-append s.notes (n ∷ [])),
            ))
    ]

-- What move_front keeps of a list.
abbrev pub IsSameTotal : List Note → List Note → Type 0
IsSameTotal xs ys = (sum_balance xs ≡ sum_balance ys) × (length xs ≡ length ys)

front-behind :
    (n : Note) (ns : List Note) (r : Option (Note × List Note))
    → IsSameTotal (front ns r) ns
    → IsSameTotal (front (n ∷ ns) (behind n r)) (n ∷ ns)
front-behind n ns none h = (refl, refl)
front-behind n ns (some (m, ms)) (total, size) = (omega (arith, total), omega (arith, size))

take_out-IsSameTotal : (d : ℕ) (ns : List Note) → IsSameTotal (front ns (take_out d ns)) ns
unfolding take_out
take_out-IsSameTotal d [] = (refl, refl)
take_out-IsSameTotal d (n ∷ ns) = elim (Bool-cases (n.deposit_index == d)) [
  | inl here ↦ rw here (refl, refl)
  | inr other ↦ rw other (front-behind n ns (take_out d ns) (take_out-IsSameTotal d ns))
]

move_front-IsSameTotal : (slot : Option ℕ) (ns : List Note) → IsSameTotal (move_front slot ns) ns
unfolding move_front
move_front-IsSameTotal none ns = (refl, refl)
move_front-IsSameTotal (some d) ns = take_out-IsSameTotal d ns

if_enough-IsTotalled :
    (amount : ℕ) (picked sel : NoteSelection) (slot : Option ℕ)
    → IsTotalled picked
    → if_enough amount picked slot ≡ some sel
    → IsTotalled sel × (amount ≤ sel.total)
if_enough-IsTotalled amount picked sel slot (total, short) h =
    elim (Bool-cases (ltb picked.total amount)) [
      | inl e ↦ absurd (cc (rw e at h))
      | inr e ↦
          let moved : NoteSelection = record {
            notes = move_front slot picked.notes;
            total = picked.total;
          } in
          let h' : ◌≡◌ {A = Option NoteSelection} (some moved) (some sel) = rw e at h in
          let same : moved ≡ sel = cc in
          let (sum, size) = move_front-IsSameTotal slot picked.notes in
          rw (← same) ((omega (arith, total, sum), omega (arith, short, size)), ground arith)
    ]

select_from-IsTotalled :
    (amount : ℕ) (ds : List ℕ) (preferred : Option ℕ) (ns : List Note) (sel : NoteSelection)
    → select_from amount ds preferred ns ≡ some sel
    → IsTotalled sel × (amount ≤ sel.total)
select_from-IsTotalled amount ds preferred [] sel h = ground arith
select_from-IsTotalled amount ds preferred (n ∷ ns) sel h =
    let start : NoteSelection = record { notes = []; total = 0 } in
    let picked = add_all amount (pool_of amount ds (n ∷ ns)) start in
    if_enough-IsTotalled amount picked sel (or_preferred (first_open ds picked.notes) preferred)
      (add_all-IsTotalled amount (pool_of amount ds (n ∷ ns)) start (refl, omega arith)) h

-- A selection that is returned fits one proof and covers the amount: it has at most four notes, and its
-- total, the sum of their balances, is at least the amount.
pub selection_covers :
    (wallet amount : ℕ) (ds : List ℕ) (preferred : Option ℕ) (notes : List Note)
    (sel : NoteSelection)
    → select_notes_for_amount wallet amount ds preferred notes ≡ some sel
    → (sel.total ≡ sum_balance sel.notes)
      × (length sel.notes ≤ max_consolidate_inputs)
      × (amount ≤ sel.total)
unfolding select_notes_for_amount
selection_covers wallet amount ds preferred notes sel h =
    let ((total, short), enough) =
      select_from-IsTotalled amount ds preferred (sort_notes (get_free_notes wallet notes)) sel h in
    (total, short, enough)
