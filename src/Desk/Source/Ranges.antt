-- ===== src/Desk/Source/Ranges.antt =====
-- The rows of a range of blocks, as /bet-authorized of packages/backend/proof-relay/src/api.ts answers them.
use polyshield.Common.{
  ℕ, zero, suc, ◌+◌, ◌-◌, ◌≤◌, ◌<◌, ◌≡◌, Bool, true, false, Option, none, some, List, [], ◌∷◌, ◌++◌,
  leb, ◌==◌, ◌&&◌, arith, Bool-cases, inl, inr, refl, ◌∙◌, ap, blocks, ◌⊎◌,
}
use polyshield.EventIndex.{
  deposited, settlement_credited, bet_cancellation_credited, na_cancellation_credited,
  partial_fill_credited, withdrawn, bet_sold, position_closed, consolidated, market_resolved, Args,
  Row, type_of, bet_authorized,
}
use polyshield.Desk.Listener.{BetRecord}
use polyshield.Desk.Source.{record_of, cons_record, records_from_index}
use polyshield.Desk.Source.Ordered.{
  bets_of, kept, AreAt, AreFrom, IsBefore, IsOrdered, kept-append, in_range,
}

-- Whether a row is a bet is what its type says.
record_of-cases :
    (a : Args)
    → ((r : BetRecord) × (record_of a ≡ some r) × ((type_of a == 1) ≡ true))
      ⊎ ((record_of a ≡ none) × ((type_of a == 1) ≡ false))
record_of-cases (bet_authorized a b c d e f g h i j) = inl (_, refl, refl)
record_of-cases (deposited _ _ _) = inr (refl, refl)
record_of-cases (settlement_credited _ _ _) = inr (refl, refl)
record_of-cases (bet_cancellation_credited _ _ _) = inr (refl, refl)
record_of-cases (na_cancellation_credited _ _ _) = inr (refl, refl)
record_of-cases (partial_fill_credited _ _ _) = inr (refl, refl)
record_of-cases (withdrawn _ _ _ _) = inr (refl, refl)
record_of-cases (bet_sold _ _ _) = inr (refl, refl)
record_of-cases (position_closed _ _ _ _) = inr (refl, refl)
record_of-cases (consolidated _ _) = inr (refl, refl)
record_of-cases (market_resolved _ _) = inr (refl, refl)

outside : (a b c : Bool) → (b && c) ≡ false → (a && (b && c)) ≡ false
outside true b c h = h
outside false b c h = refl

-- The rows of one block, where the range has it or not.
bets_inside :
    (from to b : ℕ) (rs : List Row)
    → AreAt b rs
    → from ≤ b
    → b ≤ to
    → records_from_index (kept (in_range from to) rs) ≡ some (bets_of rs)
unfolding kept bets_of records_from_index
bets_inside from to b [] h lo hi = refl
bets_inside from to b (r ∷ rs) (h, hs) lo hi =
    let above : leb from r.block ≡ true = ground arith in
    let below : leb r.block to ≡ true = ground arith in
    let rest = bets_inside from to b rs hs lo hi in
    elim (record_of-cases r.args) [
      | inl (x, found, bet) ↦ rw (bet, above, below, found, rest) refl
      | inr (other, not_bet) ↦ rw (not_bet, other) rest
    ]

none_above :
    (from to b : ℕ) (rs : List Row) → AreFrom b rs → to < b → kept (in_range from to) rs ≡ []
unfolding kept
none_above from to b [] h hi = refl
none_above from to b (r ∷ rs) (h, hs) hi =
    let past : leb r.block to ≡ false = ground arith in
    let out : (leb from r.block && leb r.block to) ≡ false = ground arith in
    rw (outside (type_of r.args == 1) _ _ out) (none_above from to b rs hs hi)

none_below :
    (from to b : ℕ) (rs : List Row) → AreAt b rs → b < from → kept (in_range from to) rs ≡ []
unfolding kept
none_below from to b [] h lo = refl
none_below from to b (r ∷ rs) (h, hs) lo =
    let out : (leb from r.block && leb r.block to) ≡ false = ground arith in
    rw (outside (type_of r.args == 1) _ _ out) (none_below from to b rs hs lo)

abbrev join : Option (List BetRecord) → Option (List BetRecord) → Option (List BetRecord)
join none o = none
join (some xs) none = none
join (some xs) (some ys) = some (xs ++ ys)

join-nil : (o : Option (List BetRecord)) → o ≡ join (some []) o
join-nil none = refl
join-nil (some ys) = refl

cons_record-join :
    (o : Option BetRecord) (p q : Option (List BetRecord))
    → cons_record o (join p q) ≡ join (cons_record o p) q
cons_record-join none p q = refl
cons_record-join (some r) none q = refl
cons_record-join (some r) (some xs) none = refl
cons_record-join (some r) (some xs) (some ys) = refl

records_from_index-append :
    (xs ys : List Row)
    → records_from_index (xs ++ ys) ≡ join (records_from_index xs) (records_from_index ys)
unfolding records_from_index
records_from_index-append [] ys = join-nil (records_from_index ys)
records_from_index-append (x ∷ xs) ys =
    rw (records_from_index-append xs ys)
      (cons_record-join (record_of x.args) (records_from_index xs) (records_from_index ys))

AreAt-AreFrom : (b : ℕ) (rs : List Row) → AreAt b rs → AreFrom b rs
AreAt-AreFrom b [] h = tt
AreAt-AreFrom b (r ∷ rs) (h, hs) = (omega arith, AreAt-AreFrom b rs hs)

AreFrom-later : (b c : ℕ) (rs : List Row) → b ≤ c → AreFrom c rs → AreFrom b rs
AreFrom-later b c [] le h = tt
AreFrom-later b c (r ∷ rs) le (h, hs) = (omega arith, AreFrom-later b c rs le hs)

AreFrom-append : (b : ℕ) (xs ys : List Row) → AreFrom b xs → AreFrom b ys → AreFrom b (xs ++ ys)
AreFrom-append b [] ys h k = k
AreFrom-append b (x ∷ xs) ys (h, hs) k = (h, AreFrom-append b xs ys hs k)

IsBefore-later : (b : ℕ) (r : Row) (ys : List Row) → r.block < b → AreFrom b ys → IsBefore r ys
IsBefore-later b r [] lt h = tt
IsBefore-later b r (y ∷ ys) lt (h, hs) = (ground arith, IsBefore-later b r ys lt hs)

IsBefore-append :
    (r : Row) (xs ys : List Row) → IsBefore r xs → IsBefore r ys → IsBefore r (xs ++ ys)
IsBefore-append r [] ys h k = k
IsBefore-append r (x ∷ xs) ys (h, hs) k = (h, IsBefore-append r xs ys hs k)

IsOrdered-append :
    (b : ℕ) (xs ys : List Row)
    → AreAt b xs
    → AreFrom (suc b) ys
    → IsOrdered xs
    → IsOrdered ys
    → IsOrdered (xs ++ ys)
IsOrdered-append b [] ys at_b later ox oy = oy
IsOrdered-append b (x ∷ xs) ys (h, hs) later (before, ox) oy = (
  IsBefore-append x xs ys before (IsBefore-later (suc b) x ys (omega arith) later),
  IsOrdered-append b xs ys hs later ox oy,
)

module _ (at : ℕ → List Row) where
  -- The rows of each block have its number, in the order of their logs.
  abbrev pub AreBlocks : Type 0
  AreBlocks = (b : ℕ) → AreAt b (at b) × IsOrdered (at b)

  blocks-AreFrom : (n s : ℕ) → AreBlocks → AreFrom s (blocks at s n)
  blocks-AreFrom zero s h = tt
  blocks-AreFrom (suc n) s h =
      AreFrom-append s (at s) (blocks at (suc s) n) (AreAt-AreFrom s (at s) (h s).0)
        (AreFrom-later s (suc s) (blocks at (suc s) n) (omega arith) (blocks-AreFrom n (suc s) h))

  pub blocks-IsOrdered : (n s : ℕ) → AreBlocks → IsOrdered (blocks at s n)
  blocks-IsOrdered zero s h = tt
  blocks-IsOrdered (suc n) s h =
      IsOrdered-append s (at s) (blocks at (suc s) n) (h s).0 (blocks-AreFrom n (suc s) h) (h s).1
        (blocks-IsOrdered n (suc s) h)

  -- A block before the rest.
  range_step :
      (n from to s : ℕ)
      → records_from_index (kept (in_range from to) (blocks at s (suc n)))
        ≡ join
            (records_from_index (kept (in_range from to) (at s)))
            (records_from_index (kept (in_range from to) (blocks at (suc s) n)))
  range_step n from to s =
      ap records_from_index (kept-append (in_range from to) (at s) (blocks at (suc s) n))
      ∙ records_from_index-append (kept (in_range from to) (at s))
          (kept (in_range from to) (blocks at (suc s) n))

  range_from :
      (n from to s : ℕ)
      → AreBlocks
      → from ≤ s
      → to < s + n
      → records_from_index (kept (in_range from to) (blocks at s n))
        ≡ some (blocks (λ b. bets_of (at b)) s (suc to - s))
  unfolding records_from_index kept
  range_from zero from to s h lo hi = let past : suc to - s ≡ 0 = omega arith in rw past refl
  range_from (suc n) from to s h lo hi =
      let rest = range_from n from to (suc s) h (omega arith) (omega arith) in
      elim (Bool-cases (leb s to)) [
        | inl more ↦
            let left : suc to - s ≡ suc (suc to - suc s) = ground arith in
            rw
              (
                range_step n from to s,
                rest,
                left,
                bets_inside from to s (at s) (h s).0 lo (ground arith),
              )
              refl
        | inr over ↦
            let left : suc to - s ≡ 0 = ground arith in
            let left' : suc to - suc s ≡ 0 = ground arith in
            rw
              (
                range_step n from to s,
                rest,
                left,
                left',
                none_above from to s (at s) (AreAt-AreFrom s (at s) (h s).0) (ground arith),
              )
              refl
      ]

  pub range_all :
      (n from to s : ℕ)
      → AreBlocks
      → s ≤ from
      → to < s + n
      → records_from_index (kept (in_range from to) (blocks at s n))
        ≡ some (blocks (λ b. bets_of (at b)) from (suc to - from))
  unfolding records_from_index kept
  range_all zero from to s h lo hi = let past : suc to - from ≡ 0 = omega arith in rw past refl
  range_all (suc n) from to s h lo hi = elim (Bool-cases (s == from)) [
    | inl same ↦
        let e : s ≡ from = ground arith in
        rw (range_from (suc n) from to s h (omega arith) hi, e) refl
    | inr before ↦
        rw
          (
            range_step n from to s,
            none_below from to s (at s) (h s).0 (ground arith),
            range_all n from to (suc s) h (ground arith) (omega arith),
          )
          refl
  ]
