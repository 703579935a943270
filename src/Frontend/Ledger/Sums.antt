-- ===== src/Frontend/Ledger/Sums.antt =====
-- What marking, replacing and adding notes does to their ids, their sums and what is among them
-- (packages/frontend/src/lib/notes.ts).
use polyshield.Common.{
  ℕ, ◌+◌, ◌≡◌, Bool, true, false, Option, none, some, List, [], ◌∷◌, ◌++◌, ◌||◌, arith, refl, ap,
  sym, ◌∙◌, Bool-cases, inl, inr, ==_refl,
}
use mathlib.Core.Path.{subst}
use polyshield.Frontend.Ledger.{
  Note, NoteId, hashed, receipt_of, same_id, find_first, mark_first, sum_notes,
}

abbrev pub ids : List Note → List NoteId
ids [] = []
ids (n ∷ ns) = n.id ∷ ids ns

abbrev pub IsFresh : NoteId → List NoteId → Type 0
IsFresh id [] = Unit
IsFresh id (x ∷ xs) = (same_id x id ≡ false) × IsFresh id xs

abbrev pub IsDistinct : List NoteId → Type 0
IsDistinct [] = Unit
IsDistinct (x ∷ xs) = IsFresh x xs × IsDistinct xs

pub same_id_comm : (a b : NoteId) → same_id a b ≡ same_id b a
same_id_comm (hashed a) (hashed b) = ground arith
same_id_comm (receipt_of a) (receipt_of b) = ground arith
same_id_comm (hashed a) (receipt_of b) = refl
same_id_comm (receipt_of a) (hashed b) = refl

pub same_id_refl : (a : NoteId) → same_id a a ≡ true
same_id_refl (hashed a) = ==_refl a
same_id_refl (receipt_of a) = ==_refl a

pub ids-append : (xs ys : List Note) → ids (xs ++ ys) ≡ ids xs ++ ids ys
ids-append [] ys = refl
ids-append (x ∷ xs) ys = ap (λ l. x.id ∷ l) (ids-append xs ys)

pub ids-mark : (p : Note → Bool) (ns : List Note) → ids (mark_first p ns) ≡ ids ns
unfolding mark_first
ids-mark p [] = refl
ids-mark p (n ∷ ns) = elim (Bool-cases (p n)) [
  | inl holds ↦ rw holds refl
  | inr fails ↦ rw fails (ap (λ l. n.id ∷ l) (ids-mark p ns))
]

pub IsFresh-add :
    (id : NoteId) (xs : List NoteId) (y : NoteId)
    → IsFresh id xs
    → same_id y id ≡ false
    → IsFresh id (xs ++ y ∷ [])
IsFresh-add id [] y h k = (k, tt)
IsFresh-add id (x ∷ xs) y (h, hs) k = (h, IsFresh-add id xs y hs k)

IsDistinct-snoc :
    (xs : List NoteId) (y : NoteId) → IsDistinct xs → IsFresh y xs → IsDistinct (xs ++ y ∷ [])
IsDistinct-snoc [] y h k = (tt, tt)
IsDistinct-snoc (x ∷ xs) y (h, hs) (k, ks) =
    (IsFresh-add x xs y h (same_id_comm y x ∙ k), IsDistinct-snoc xs y hs ks)

-- A note with a new id can be added.
pub IsDistinct-add :
    (ns : List Note) (n : Note)
    → IsDistinct (ids ns)
    → IsFresh n.id (ids ns)
    → IsDistinct (ids (ns ++ n ∷ []))
IsDistinct-add ns n h k = rw (ids-append ns (n ∷ [])) (IsDistinct-snoc (ids ns) n.id h k)

-- Whether one of the notes is as asked.
unfoldable pub has_note : (Note → Bool) → List Note → Bool
has_note q [] = false
has_note q (n ∷ ns) = q n || has_note q ns

or_right : (a b : Bool) → b ≡ true → (a || b) ≡ true
or_right a b h = ground arith

or_drop : (a b : Bool) → a ≡ false → (a || b) ≡ true → b ≡ true
or_drop a b h k = ground arith

or_map : (a b c : Bool) → (b ≡ true → c ≡ true) → (a || b) ≡ true → (a || c) ≡ true
or_map true b c f h = refl
or_map false b c f h = f h

or_false : (a : Bool) → (a || false) ≡ a
or_false a = ground arith

or_assoc : (a b c : Bool) → ((a || b) || c) ≡ (a || (b || c))
or_assoc a b c = ground arith

abbrev or_note : Note → Option Note → Note
or_note d none = d
or_note d (some n) = n

pub some-same : (x n : Note) → ◌≡◌ {A = Option Note} (some x) (some n) → x ≡ n
some-same x n h = ap (or_note x) h

pub sum-append :
    (f : Note → ℕ) (xs ys : List Note) → sum_notes f (xs ++ ys) ≡ sum_notes f xs + sum_notes f ys
unfolding sum_notes
sum-append f [] ys = omega arith
sum-append f (x ∷ xs) ys = omega (arith, sum-append f xs ys)

pub sum-mark :
    (f : Note → ℕ) (p : Note → Bool) (ns : List Note) (n : Note)
    → find_first p ns ≡ some n
    → sum_notes f (mark_first p ns) + f n ≡ sum_notes f ns + f (record n { spent = true })
unfolding sum_notes mark_first find_first
sum-mark f p [] n h = absurd (cc (h))
sum-mark f p (x ∷ xs) n h = elim (Bool-cases (p x)) [
  | inl holds ↦ rw holds (
      subst
        (λ z.
          f (record x { spent = true }) + sum_notes f xs + f z
          ≡ f x + sum_notes f xs + f (record z { spent = true }))
        (some-same x n (rw holds at h)) (omega arith))
  | inr fails ↦ rw fails (omega (arith, sum-mark f p xs n (rw fails at h)))
]

pub mark-none : (p : Note → Bool) (ns : List Note) → find_first p ns ≡ none → mark_first p ns ≡ ns
unfolding mark_first find_first
mark-none p [] h = refl
mark-none p (x ∷ xs) h = elim (Bool-cases (p x)) [
  | inl holds ↦ absurd (cc (h, holds))
  | inr fails ↦ rw fails (ap (λ l. x ∷ l) (mark-none p xs (rw fails at h)))
]

-- What the first match has.
pub find-holds :
    (p : Note → Bool) (ns : List Note) (n : Note) → find_first p ns ≡ some n → p n ≡ true
unfolding find_first
find-holds p [] n h = absurd (cc (h))
find-holds p (x ∷ xs) n h = elim (Bool-cases (p x)) [
  | inl holds ↦ subst (λ z. p z ≡ true) (some-same x n (rw holds at h)) holds
  | inr fails ↦ find-holds p xs n (rw fails at h)
]

pub has-mark :
    (p q : Note → Bool) (ns : List Note)
    → ((n : Note) → q (record n { spent = true }) ≡ false)
    → has_note q (mark_first p ns) ≡ true
    → has_note q ns ≡ true
unfolding has_note mark_first
has-mark p q [] dead h = h
has-mark p q (x ∷ xs) dead h = elim (Bool-cases (p x)) [
  | inl holds ↦
      or_right (q x) (has_note q xs)
        (or_drop (q (record x { spent = true })) _ (dead x) (rw holds at h))
  | inr fails ↦
      or_map (q x) (has_note q (mark_first p xs)) (has_note q xs) (has-mark p q xs dead)
        (rw fails at h)
]

-- A note other than the first match stays.
pub has-mark_other :
    (p q : Note → Bool) (ns : List Note) (n : Note)
    → find_first p ns ≡ some n
    → q n ≡ false
    → has_note q ns ≡ true
    → has_note q (mark_first p ns) ≡ true
unfolding has_note mark_first find_first
has-mark_other p q [] n found out h = absurd (cc (found))
has-mark_other p q (x ∷ xs) n found out h = elim (Bool-cases (p x)) [
  | inl holds ↦
      let out' : q x ≡ false =
        subst (λ z. q z ≡ false) (sym (some-same x n (rw holds at found))) out in
      rw holds (or_right (q (record x { spent = true })) (has_note q xs) (or_drop (q x) _ out' h))
  | inr fails ↦ rw fails (
      or_map (q x) (has_note q xs) (has_note q (mark_first p xs))
        (has-mark_other p q xs n (rw fails at found) out) h)
]

pub has-append :
    (q : Note → Bool) (xs : List Note) (n : Note)
    → has_note q (xs ++ n ∷ []) ≡ (has_note q xs || q n)
unfolding has_note
has-append q [] n = or_false (q n)
has-append q (x ∷ xs) n =
    ap (λ b. q x || b) (has-append q xs n) ∙ sym (or_assoc (q x) (has_note q xs) (q n))
