-- ===== src/Desk/Source/Ordered.antt =====
-- The rows of the event index in the order of packages/backend/proof-relay/src/eventIndex.ts, and the bets
-- among them.
use polyshield.Common.{
  ℕ, ◌≤◌, ◌≡◌, Bool, true, Option, none, some, List, [], ◌∷◌, ◌++◌, if◌then◌else◌, leb, ◌==◌, ◌&&◌,
  Bool-cases, inl, inr, refl, ap,
}
use polyshield.EventIndex.{Row, type_of}
use polyshield.EventIndex.Reads.{precedes, insert_ordered, select}
use polyshield.Desk.Listener.{BetRecord}
use polyshield.Desk.Source.{record_of, keep_record}

-- The bets of some rows.
unfoldable pub bets_of : List Row → List BetRecord
bets_of [] = []
bets_of (r ∷ rs) = keep_record (record_of r.args) (bets_of rs)

unfoldable pub kept : (Row → Bool) → List Row → List Row
kept p [] = []
kept p (r ∷ rs) = if p r then r ∷ kept p rs else kept p rs

-- Every row has the block; every row has the block or a later one; `r` comes before every row.
abbrev pub AreAt : ℕ → List Row → Type 0
AreAt b [] = Unit
AreAt b (r ∷ rs) = (r.block ≡ b) × AreAt b rs

abbrev pub AreFrom : ℕ → List Row → Type 0
AreFrom b [] = Unit
AreFrom b (r ∷ rs) = (b ≤ r.block) × AreFrom b rs

abbrev pub IsBefore : Row → List Row → Type 0
IsBefore r [] = Unit
IsBefore r (x ∷ xs) = (precedes r x ≡ true) × IsBefore r xs

abbrev pub IsOrdered : List Row → Type 0
IsOrdered [] = Unit
IsOrdered (r ∷ rs) = IsBefore r rs × IsOrdered rs

insert_ordered-IsBefore : (r : Row) (rs : List Row) → IsBefore r rs → insert_ordered r rs ≡ r ∷ rs
unfolding insert_ordered
insert_ordered-IsBefore r [] h = refl
insert_ordered-IsBefore r (x ∷ xs) (h, hs) = rw h refl

kept-IsBefore : (p : Row → Bool) (r : Row) (rs : List Row) → IsBefore r rs → IsBefore r (kept p rs)
unfolding kept
kept-IsBefore p r [] h = tt
kept-IsBefore p r (x ∷ xs) (h, hs) = elim (Bool-cases (p x)) [
  | inl holds ↦ rw holds (h, kept-IsBefore p r xs hs)
  | inr fails ↦ rw fails (kept-IsBefore p r xs hs)
]

pub select-IsOrdered : (p : Row → Bool) (rs : List Row) → IsOrdered rs → select p rs ≡ kept p rs
unfolding select kept
select-IsOrdered p [] h = refl
select-IsOrdered p (r ∷ rs) (h, hs) = elim (Bool-cases (p r)) [
  | inl holds ↦
      rw (holds, select-IsOrdered p rs hs)
        (insert_ordered-IsBefore r (kept p rs) (kept-IsBefore p r rs h))
  | inr fails ↦ rw fails (select-IsOrdered p rs hs)
]

pub kept-append : (p : Row → Bool) (xs ys : List Row) → kept p (xs ++ ys) ≡ kept p xs ++ kept p ys
unfolding kept
kept-append p [] ys = refl
kept-append p (x ∷ xs) ys = elim (Bool-cases (p x)) [
  | inl holds ↦ rw holds (ap (λ l. x ∷ l) (kept-append p xs ys))
  | inr fails ↦ rw fails (kept-append p xs ys)
]

keep_record-append :
    (o : Option BetRecord) (xs ys : List BetRecord)
    → keep_record o (xs ++ ys) ≡ keep_record o xs ++ ys
keep_record-append none xs ys = refl
keep_record-append (some r) xs ys = refl

pub bets_of-append : (xs ys : List Row) → bets_of (xs ++ ys) ≡ bets_of xs ++ bets_of ys
unfolding bets_of
bets_of-append [] ys = refl
bets_of-append (x ∷ xs) ys =
    rw (bets_of-append xs ys) (keep_record-append (record_of x.args) (bets_of xs) (bets_of ys))

-- The condition of betAuthorizedEvents.
abbrev pub in_range : ℕ → ℕ → Row → Bool
in_range from to r = type_of r.args == 1 && (leb from r.block && leb r.block to)
