-- ===== src/Common/Lists.antt =====
-- Lists measured and indexed by the native numbers, under the library's names.
use Prim.Native.Nat.{ℕ, zero, suc, ◌+◌, ◌-◌, ◌≤◌}
use mathlib.Core.Path.{◌≡◌, ap}
use mathlib.Core.Option.{Option, none, some}
use native.Mathlib.Nat.{add-zero}
use mathlib.Core.List.{List, [], ◌∷◌, ◌++◌, append_assoc}
use native.Mathlib.Omega.{arith}

module _ {ℓ} {A : Type ℓ} where
  abbrev pub length : List A → ℕ
  length [] = 0
  length (x ∷ xs) = suc (length xs)

  abbrev pub get_elem? : List A → ℕ → Option A
  get_elem? [] i = none
  get_elem? (x ∷ xs) zero = some x
  get_elem? (x ∷ xs) (suc i) = get_elem? xs i

  abbrev pub get_or : List A → ℕ → A → A
  get_or [] i d = d
  get_or (x ∷ xs) zero d = x
  get_or (x ∷ xs) (suc i) d = get_or xs i d

  pub length-append : (xs ys : List A) → length (xs ++ ys) ≡ length xs + length ys
  length-append [] ys = omega arith
  length-append (x ∷ xs) ys = omega (arith, length-append xs ys)

module _ {ℓ} {A : Type ℓ} (at : ℕ → List A) where
  -- What the blocks hold, `n` of them from `a` on.
  abbrev pub blocks : ℕ → ℕ → List A
  blocks a zero = []
  blocks a (suc n) = at a ++ blocks (suc a) n

  blocks-append : (m a n l : ℕ) → l ≡ m + n → blocks a m ++ blocks (a + m) n ≡ blocks a l
  blocks-append zero a n l e = rw (e, add-zero a) (ap (blocks a) (omega arith))
  blocks-append (suc m) a n zero e = absurd (omega arith)
  blocks-append (suc m) a n (suc l) e =
      let shift : a + suc m ≡ suc a + m = omega arith in
      rw (append_assoc, shift, blocks-append m (suc a) n l (omega arith))

  -- A window and what is left after it are the whole range.
  pub blocks_glue :
      (from to to_block : ℕ)
      → from ≤ to
      → to ≤ to_block
      → blocks from (suc to - from) ++ blocks (to + 1) (suc to_block - (to + 1))
        ≡ blocks from (suc to_block - from)
  blocks_glue from to to_block low high =
      let next : from + (suc to - from) ≡ to + 1 = omega arith in
      rw (← next) (
        blocks-append (suc to - from) from (suc to_block - (from + (suc to - from)))
          (suc to_block - from) (omega arith))
