-- ===== src/Registry/Binding.antt =====
-- From the market API to the token of a bet: marketRegistry.ts and tokenBinding.ts of
-- packages/backend/signing-layer/src together.
use polyshield.Desk.{coalesce}
use polyshield.Common.{
  ℕ, ◌≤◌, ◌≡◌, false, Option, none, some, List, [], ◌∷◌, ◌||◌, not, if◌then◌else◌, ◌==◌, length,
  get_or, arith, refl, ◌∙◌, ap, Bool-cases, inl, inr, ==_refl, sym,
}
use polyshield.Signing.TokenBinding.{decide_buy_token, trade, registry}
use polyshield.Registry.{
  GammaMarket, Row, to_row, row_of, row_with, put_row, put_rows, find_row, resolve_token,
  side_indices, to_field_safe, hit_of, side_token, coalesce,
}

-- No later row has the key.
abbrev pub HasNot : ℕ → List Row → Type 0
HasNot key [] = Unit
HasNot key (r ∷ rs) = ((r.key == key) ≡ false) × HasNot key rs

abbrev IsFound : Row → Option Row → Type 0
IsFound r o =
    (x : Row) × (o ≡ some x)
    × (x.condition_id ≡ r.condition_id)
    × (x.yes_token ≡ r.yes_token)
    × (x.no_token ≡ r.no_token)

put_row-IsFound : (r : Row) (reg : List Row) → IsFound r (find_row r.key (put_row r reg))
unfolding put_row find_row
put_row-IsFound r [] = (r, rw (==_refl r.key) refl, refl, refl, refl)
put_row-IsFound r (x ∷ xs) = elim (Bool-cases (x.key == r.key)) [
  | inl same ↦ rw same (
    record r { end_date = coalesce r.end_date x.end_date },
    rw (==_refl r.key) refl,
    refl,
    refl,
    refl,
  )
  | inr other ↦ rw (other, other) (put_row-IsFound r xs)
]

put_row-other :
    (key : ℕ) (r : Row) (reg : List Row)
    → (r.key == key) ≡ false
    → find_row key (put_row r reg) ≡ find_row key reg
unfolding put_row find_row
put_row-other key r [] h = ground arith
put_row-other key r (x ∷ xs) h = ground (arith, put_row-other key r xs h)

put_rows-other :
    (key : ℕ) (rs reg : List Row)
    → HasNot key rs
    → find_row key (put_rows rs reg) ≡ find_row key reg
unfolding put_rows
put_rows-other key [] reg h = refl
put_rows-other key (r ∷ rs) reg (h, hs) =
    put_rows-other key rs (put_row r reg) hs ∙ put_row-other key r reg h

abbrev IsRowOf : GammaMarket → Option ℕ → Row → Type 0
IsRowOf m cid r =
    ((r.yes_token == 0) ≡ false)
    × ((r.no_token == 0) ≡ false)
    × (r.yes_token ≡ get_or m.tokens (side_indices m.outcomes).0 0)
    × (r.no_token ≡ get_or m.tokens (side_indices m.outcomes).1 0)
    × (cid ≡ some r.condition_id)
    × (r.key ≡ to_field_safe r.condition_id)

row_with-tokens :
    (m : GammaMarket) (cid first second : ℕ) (r : Row)
    → row_with m cid first second ≡ some r
    → ((r.yes_token == 0) ≡ false)
      × ((r.no_token == 0) ≡ false)
      × (r.yes_token ≡ first)
      × (r.no_token ≡ second)
      × (r.condition_id ≡ cid)
      × (r.key ≡ to_field_safe cid)
row_with-tokens m cid first second r e = elim (Bool-cases (first == 0 || second == 0)) [
  | inl bad ↦ absurd (cc (e, bad))
  | inr good ↦ (ground arith, ground arith, ground arith, ground arith, ground arith, ground arith)
]

row_of-tokens :
    (m : GammaMarket) (cid : Option ℕ) (r : Row) → row_of m cid ≡ some r → IsRowOf m cid r
row_of-tokens m none r e = absurd (cc (e))
row_of-tokens m (some cid) r e =
    elim (Bool-cases (not m.enable_order_book || not (length m.outcomes == 2))) [
      | inl bad ↦ absurd (cc (e, bad))
      | inr good ↦
          let (y, n, first, second, c, k) =
            row_with-tokens m cid (get_or m.tokens (side_indices m.outcomes).0 0)
              (get_or m.tokens (side_indices m.outcomes).1 0) r (cc (e, good)) in
          (y, n, first, second, ap some (sym c), cc (k, c))
    ]

abbrev IsUsable : Row → Type 0
IsUsable r = ((r.yes_token == 0) ≡ false) × ((r.no_token == 0) ≡ false)

side_token-cases :
    (r : Row) (s a b : ℕ)
    → IsUsable r
    → r.yes_token ≡ a
    → r.no_token ≡ b
    → ((side_token (some s) r == 0) ≡ false) × (side_token (some s) r ≡ (if s == 0 then a else b))
side_token-cases r s a b (hy, hn) y n = elim (Bool-cases (s == 0)) [
  | inl is0 ↦ rw is0 (hy, y)
  | inr no0 ↦ rw no0 (hn, n)
]

hit_of-found :
    (r : Row) (s : ℕ) (o : Option Row)
    → IsUsable r
    → IsFound r o
    → hit_of (some s) o
      ≡ some (record { token_id = side_token (some s) r; condition_id = r.condition_id })
hit_of-found r s o u (x, found, c, y, n) = elim (Bool-cases (s == 0)) [
  | inl is0 ↦ rw (found, is0, y, c, u.0) refl
  | inr no0 ↦ rw (found, no0, n, c, u.1) refl
]

traded :
    (market position s token condition : ℕ)
    → s ≤ 1
    → (token == 0) ≡ false
    → decide_buy_token market position
        (some s)
        (some (record { token_id = token; condition_id = condition }))
        false
      ≡ trade token condition registry
unfolding decide_buy_token
traded market position s token condition bound h = ground arith

-- A market that the API lists is traded on its own tokens: after a page whose row for it no later row
-- of the page replaces, whatever the table was, a buy on the side 0 or 1 of its key is traded on the
-- token that stands at that side's index in the answer, under its condition, and the key is the
-- condition reduced to the field.
pub registered_market_is_traded :
    (m : GammaMarket) (row : Row) (rs reg : List Row) (position s : ℕ)
    → to_row m ≡ some row
    → HasNot row.key rs
    → s ≤ 1
    → (row.key ≡ to_field_safe row.condition_id)
      × (m.condition_id ≡ some row.condition_id)
      × (decide_buy_token row.key position
            (some s)
            (resolve_token row.key (some s) (put_rows (row ∷ rs) reg))
            false
          ≡ trade
              (if s == 0
                then get_or m.tokens (side_indices m.outcomes).0 0
                else get_or m.tokens (side_indices m.outcomes).1 0)
              row.condition_id
              registry)
unfolding to_row resolve_token put_rows
registered_market_is_traded m row rs reg position s e h bound =
    let (hy, hn, first, second, c, k) = row_of-tokens m m.condition_id row e in
    let (x, found, x_cond, x_first, x_second) = put_row-IsFound row reg in
    let hit =
      hit_of-found row s (find_row row.key (put_rows rs (put_row row reg))) (hy, hn)
        (x, put_rows-other row.key rs (put_row row reg) h ∙ found, x_cond, x_first, x_second) in
    let (usable, side) = side_token-cases row s _ _ (hy, hn) first second in
    (
      k,
      c,
      rw hit (
          traded row.key position s _ row.condition_id bound usable
          ∙ ap (λ t. trade t row.condition_id registry) side),
    )
