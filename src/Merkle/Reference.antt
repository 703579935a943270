-- ===== src/Merkle/Reference.antt =====
-- The zero hashes of merkleTree.ts and merkle.ts, and an independent description of the tree: the
-- hash of each subtree over a list of leaves, and the check that a verifier makes of a path.
use polyshield.Common.{
  ℕ, zero, suc, ◌+◌, ◌*◌, ◌/◌, ◌≡◌, ◌≢◌, refl, List, [], ◌∷◌, ◌++◌, arith, get_or, length,
  if◌then◌else◌, ◌==◌,
}

-- TREE_DEPTH
abbrev pub tree_depth : ℕ
tree_depth = 32

module _ (hash : ℕ → ℕ → ℕ) where
  -- ZEROS[level] of buildZeros: z[0] = 0 and z[i + 1] = hash(z[i], z[i]).
  unfoldable pub zero_hash : ℕ → ℕ
  zero_hash zero = 0
  zero_hash (suc level) = let z = zero_hash level in hash z z

  -- The hash of the subtree at (level, index) over the leaves, padded by zeros.
  unfoldable pub subtree : List ℕ → ℕ → ℕ → ℕ
  subtree leaves zero index = get_or leaves index 0
  subtree leaves (suc level) index =
      hash (subtree leaves level (index * 2)) (subtree leaves level (index * 2 + 1))

  -- A verifier's climb: at each level the sibling stands right of a left child, left of a right one.
  unfoldable pub climb : ℕ → List ℕ → List ℕ → ℕ
  climb node (sibling ∷ path) (bit ∷ bits) =
      climb (if bit == 0 then hash node sibling else hash sibling node) path bits
  climb node _ _ = node

  pub subtree-leaf : (leaves : List ℕ) (i : ℕ) → subtree leaves 0 i ≡ get_or leaves i 0
  unfolding subtree
  subtree-leaf leaves i = refl

  pub subtree-nil : (level index : ℕ) → subtree [] level index ≡ zero_hash level
  unfolding subtree zero_hash
  subtree-nil zero index = refl
  subtree-nil (suc level) index =
      cc (subtree-nil level (index * 2), subtree-nil level (index * 2 + 1))

-- The index of the ancestor of a leaf at a level.
unfoldable pub ancestor : ℕ → ℕ → ℕ
ancestor index zero = index
ancestor index (suc level) = ancestor index level / 2

pub get_or-append_ne :
    (xs : List ℕ) (x i : ℕ) → i ≢ length xs → get_or (xs ++ x ∷ []) i 0 ≡ get_or xs i 0
get_or-append_ne [] x zero h = absurd (h refl)
get_or-append_ne [] x (suc i) h = refl
get_or-append_ne (y ∷ xs) x zero h = refl
get_or-append_ne (y ∷ xs) x (suc i) h = get_or-append_ne xs x i (omega arith)

pub get_or-append_self : (xs : List ℕ) (x : ℕ) → get_or (xs ++ x ∷ []) (length xs) 0 ≡ x
get_or-append_self [] x = refl
get_or-append_self (y ∷ xs) x = get_or-append_self xs x

module _ (hash : ℕ → ℕ → ℕ) where
  -- An appended leaf leaves alone every subtree that is not above it.
  pub subtree-append_ne :
      (leaves : List ℕ) (x level index : ℕ)
      → index ≢ ancestor (length leaves) level
      → subtree hash (leaves ++ x ∷ []) level index ≡ subtree hash leaves level index
  unfolding subtree ancestor
  subtree-append_ne leaves x zero index h = get_or-append_ne leaves x index h
  subtree-append_ne leaves x (suc level) index h = cc (
    subtree-append_ne leaves x level (index * 2) (omega arith),
    subtree-append_ne leaves x level (index * 2 + 1) (omega arith),
  )
