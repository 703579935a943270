-- ===== src/Frontend/Selection/Safety.antt =====
-- What a selection of notes (notes.ts, selectNotesForAmount) guarantees.
use polyshield.Common.{
  ◌≡◌, ℕ, ◌+◌, ◌≤◌, true, Option, none, some, arith, ◌||◌, not, ◌==◌, leb, ltb, if◌then◌else◌, List,
  [], ◌∷◌, ◌++◌, length, Bool-cases, Option-cases, inl, inr, refl, if_both, suc, ==→eq, is_some,
}
use polyshield.Frontend.Selection.{
  Note, NoteSelection, is_open, insert_note, sort_notes, filter_notes, pool_of, add_all, take_out,
  behind, move_front, first_open, or_preferred, with_first, if_enough, select_from,
  select_notes_for_amount, get_free_notes, sum_balance, max_consolidate_inputs, take_notes, member,
}

-- How many notes have a deposit with an open position.
abbrev pub count_open : List ℕ → List Note → ℕ
count_open ds [] = 0
count_open ds (n ∷ ns) = let c = count_open ds ns in if is_open ds n then suc c else c

-- All notes but the first.
abbrev pub merged_away : List Note → List Note
merged_away [] = []
merged_away (n ∷ ns) = ns

count-append :
    (ds : List ℕ) (xs ys : List Note)
    → count_open ds (xs ++ ys) ≡ count_open ds xs + count_open ds ys
count-append ds [] ys = ground arith
count-append ds (x ∷ xs) ys = ground (arith, count-append ds xs ys)

count-insert :
    (ds : List ℕ) (n : Note) (ns : List Note)
    → count_open ds (insert_note n ns) ≡ count_open ds (n ∷ ns)
unfolding insert_note
count-insert ds n [] = refl
count-insert ds n (m ∷ ms) = ground (arith, count-insert ds n ms)

count-sort : (ds : List ℕ) (ns : List Note) → count_open ds (sort_notes ns) ≡ count_open ds ns
unfolding sort_notes
count-sort ds [] = refl
count-sort ds (n ∷ ns) = ground (arith, count-insert ds n (sort_notes ns), count-sort ds ns)

count-clear :
    (ds : List ℕ) (ns : List Note) → count_open ds (filter_notes (λ n. not (is_open ds n)) ns) ≡ 0
unfolding filter_notes
count-clear ds [] = refl
count-clear ds (n ∷ ns) = elim (Bool-cases (is_open ds n)) [
  | inl e ↦ rw e (count-clear ds ns)
  | inr e ↦ rw (e, e) (count-clear ds ns)
]

count-with_first :
    (ds : List ℕ) (clear os : List Note)
    → count_open ds clear ≡ 0
    → count_open ds (with_first clear os) ≤ 1
count-with_first ds clear [] h = ground arith
count-with_first ds clear (o ∷ os) h =
    ground (arith, count-sort ds (clear ++ o ∷ []), count-append ds clear (o ∷ []))

count-pool : (amount : ℕ) (ds : List ℕ) (ns : List Note) → count_open ds (pool_of amount ds ns) ≤ 1
unfolding pool_of
count-pool amount ds ns =
    let clear = filter_notes (λ n. not (is_open ds n)) ns in
    let none_open : count_open ds clear ≡ 0 = count-clear ds ns in
    if_both (λ ms. count_open ds ms ≤ 1)
      (leb amount (sum_balance (take_notes max_consolidate_inputs clear))) (ground arith)
      (count-with_first ds clear (filter_notes (is_open ds) ns) none_open)

count-add_all :
    (amount : ℕ) (ds : List ℕ) (ns : List Note) (s : NoteSelection)
    → count_open ds (add_all amount ns s).notes ≤ count_open ds s.notes + count_open ds ns
unfolding add_all
count-add_all amount ds [] s = ground arith
count-add_all amount ds (n ∷ ns) s =
    elim (Bool-cases (leb amount s.total || leb max_consolidate_inputs (length s.notes))) [
      | inl e ↦ rw (e, add_all) (ground (arith, count-add_all amount ds ns s))
      | inr e ↦
          let s' : NoteSelection = record {
            notes = s.notes ++ n ∷ [];
            total = s.total + n.balance;
          } in
          rw (e, add_all)
            (ground (arith, count-add_all amount ds ns s', count-append ds s.notes (n ∷ [])))
    ]

first_open-none : (ds : List ℕ) (ns : List Note) → first_open ds ns ≡ none → count_open ds ns ≡ 0
unfolding first_open
first_open-none ds [] h = refl
first_open-none ds (n ∷ ns) h = ground (arith, first_open-none ds ns)

first_open-member :
    (ds : List ℕ) (d : ℕ) (ns : List Note) → first_open ds ns ≡ some d → member d ds ≡ true
unfolding first_open
first_open-member ds d [] h = ground arith
first_open-member ds d (n ∷ ns) h = elim (Bool-cases (is_open ds n)) [
  | inl e ↦
      let same : ◌≡◌ {A = Option ℕ} (some n.deposit_index) (some d) = rw e at h in
      let index : n.deposit_index ≡ d = cc in rw (← index) e
  | inr e ↦ first_open-member ds d ns (rw e at h)
]

is_some-behind : (n : Note) (r : Option (Note × List Note)) → is_some (behind n r) ≡ is_some r
is_some-behind n none = refl
is_some-behind n (some (m, ms)) = refl

first_open-take_out :
    (ds : List ℕ) (d : ℕ) (ns : List Note)
    → first_open ds ns ≡ some d
    → is_some (take_out d ns) ≡ true
unfolding first_open take_out
first_open-take_out ds d [] h = ground arith
first_open-take_out ds d (n ∷ ns) h =
    ground (arith, first_open-take_out ds d ns, is_some-behind n (take_out d ns))

behind_lem :
    (ds : List ℕ) (d : ℕ) (n m : Note) (ns rest : List Note) (r : Option (Note × List Note))
    → ((m' : Note) (rest' : List Note)
        → r ≡ some (m', rest')
        → (m'.deposit_index ≡ d) × (count_open ds ns ≡ count_open ds (m' ∷ rest')))
    → behind n r ≡ some (m, rest)
    → (m.deposit_index ≡ d) × (count_open ds (n ∷ ns) ≡ count_open ds (m ∷ rest))
behind_lem ds d n m ns rest none k h = ground arith
behind_lem ds d n m ns rest (some (m', rest')) k h =
    let (index, same) = k m' rest' refl in
    let head : m' ≡ m = cc in
    let tail : n ∷ rest' ≡ rest = cc in rw (← head, ← tail) (index, ground arith)

take_out_lem :
    (ds : List ℕ) (d : ℕ) (ns : List Note) (m : Note) (rest : List Note)
    → take_out d ns ≡ some (m, rest)
    → (m.deposit_index ≡ d) × (count_open ds ns ≡ count_open ds (m ∷ rest))
unfolding take_out
take_out_lem ds d [] m rest h = ground arith
take_out_lem ds d (n ∷ ns) m rest h = elim (Bool-cases (n.deposit_index == d)) [
  | inl e ↦
      let found : ◌≡◌ {A = Option (Note × List Note)} (some (n, ns)) (some (m, rest)) = rw e at h in
      let head : n ≡ m = cc in
      let tail : ns ≡ rest = cc in rw (← head, ← tail) (==→eq n.deposit_index d e, refl)
  | inr e ↦ behind_lem ds d n m ns rest (take_out d ns) (take_out_lem ds d ns) (rw e at h)
]

merged_away-count :
    (ds : List ℕ) (ns : List Note) → count_open ds ns ≡ 0 → count_open ds (merged_away ns) ≡ 0
merged_away-count ds [] h = refl
merged_away-count ds (n ∷ ns) h = ground arith

move_front-count :
    (ds : List ℕ) (slot : Option ℕ) (ns : List Note)
    → count_open ds ns ≡ 0
    → count_open ds (merged_away (move_front slot ns)) ≡ 0
unfolding move_front
move_front-count ds none ns h = merged_away-count ds ns h
move_front-count ds (some d) ns h = elim (Option-cases (take_out d ns)) [
  | inl e ↦ rw e (merged_away-count ds ns h)
  | inr ((m, rest), e) ↦ let (index, same) = take_out_lem ds d ns m rest e in rw e (ground arith)
]

move_front-open :
    (ds : List ℕ) (d : ℕ) (ns : List Note)
    → first_open ds ns ≡ some d
    → count_open ds ns ≤ 1
    → count_open ds (merged_away (move_front (some d) ns)) ≡ 0
unfolding move_front
move_front-open ds d ns h k = elim (Option-cases (take_out d ns)) [
  | inl e ↦ absurd (cc (first_open-take_out ds d ns h, e))
  | inr ((m, rest), e) ↦
      let (index, same) = take_out_lem ds d ns m rest e in
      let opened : is_open ds m ≡ true = rw index (first_open-member ds d ns h) in
      rw e (ground arith)
]

if_enough-notes :
    (ds : List ℕ) (amount : ℕ) (slot : Option ℕ) (picked sel : NoteSelection)
    → count_open ds (merged_away (move_front slot picked.notes)) ≡ 0
    → if_enough amount picked slot ≡ some sel
    → count_open ds (merged_away sel.notes) ≡ 0
if_enough-notes ds amount slot picked sel k h = elim (Bool-cases (ltb picked.total amount)) [
  | inl e ↦ absurd (cc (rw e at h))
  | inr e ↦
      let moved : NoteSelection = record {
        notes = move_front slot picked.notes;
        total = picked.total;
      } in
      let h' : ◌≡◌ {A = Option NoteSelection} (some moved) (some sel) = rw e at h in
      let same : moved ≡ sel = cc in rw (← same) k
]

if_enough-clear :
    (ds : List ℕ) (amount : ℕ) (preferred : Option ℕ) (picked sel : NoteSelection)
    → count_open ds picked.notes ≤ 1
    → if_enough amount picked (or_preferred (first_open ds picked.notes) preferred) ≡ some sel
    → count_open ds (merged_away sel.notes) ≡ 0
if_enough-clear ds amount preferred picked sel k h =
    elim (Option-cases (first_open ds picked.notes)) [
      | inl e ↦
          if_enough-notes ds amount preferred picked sel
            (move_front-count ds preferred picked.notes (first_open-none ds picked.notes e))
            (rw e at h)
      | inr (d, e) ↦
          if_enough-notes ds amount (some d) picked sel (move_front-open ds d picked.notes e k)
            (rw e at h)
    ]

select_from-clear :
    (amount : ℕ) (ds : List ℕ) (preferred : Option ℕ) (ns : List Note) (sel : NoteSelection)
    → select_from amount ds preferred ns ≡ some sel
    → count_open ds (merged_away sel.notes) ≡ 0
select_from-clear amount ds preferred [] sel h = ground arith
select_from-clear amount ds preferred (n ∷ ns) sel h =
    let start : NoteSelection = record { notes = []; total = 0 } in
    let pool = pool_of amount ds (n ∷ ns) in
    if_enough-clear ds amount preferred (add_all amount pool start) sel
      (ground (arith, count-add_all amount ds pool start, count-pool amount ds (n ∷ ns))) h

-- No selection merges away a deposit with an open position: such a note is only ever the first of the
-- selected notes, whose lineage the merge continues, and every other note is of a clear deposit. This
-- holds for any set of such deposits and any preferred first deposit.
pub selection_keeps_positions :
    (wallet amount : ℕ) (ds : List ℕ) (preferred : Option ℕ) (notes : List Note)
    (sel : NoteSelection)
    → select_notes_for_amount wallet amount ds preferred notes ≡ some sel
    → count_open ds (merged_away sel.notes) ≡ 0
unfolding select_notes_for_amount
selection_keeps_positions wallet amount ds preferred notes sel h =
    select_from-clear amount ds preferred (sort_notes (get_free_notes wallet notes)) sel h
