-- ===== src/Merkle/Layers.antt =====
-- The layers of computeMerkleProof (merkle.ts) hold the hashes of the subtrees, so the path computed
-- on the fly is the path that the mirror of merkleTree.ts serves.
use polyshield.Common.{
  ℕ, zero, suc, ◌+◌, ◌*◌, ◌/◌, ◌≤◌, ◌≡◌, refl, sym, ◌∙◌, List, [], ◌∷◌, arith, get_or,
}
use native.Mathlib.Nat.{add-zero, le_refl}
use polyshield.Merkle.Reference.{tree_depth, zero_hash, subtree, subtree-leaf}
use polyshield.Merkle.Cache.{Tree, path_from, indices_from, proof_for_index, sibling}
use polyshield.Merkle.Mirror.{Mirrors, root-subtree}
use polyshield.Merkle.OnTheFly.{pair_up, next_layer, walk, walk_bits, proof_of_leaves}

double : (i : ℕ) → suc i * 2 ≡ suc (suc (i * 2))
double i = omega arith

double_odd : (i : ℕ) → suc i * 2 + 1 ≡ suc (suc (i * 2 + 1))
double_odd i = omega arith

add_suc : (a b : ℕ) → a + suc b ≡ suc a + b
add_suc a b = omega arith

walk_bits-indices_from : (left idx : ℕ) → walk_bits left idx ≡ indices_from left idx
unfolding walk_bits indices_from
walk_bits-indices_from zero idx = refl
walk_bits-indices_from (suc left) idx = rw (walk_bits-indices_from left (idx / 2))

module _ (hash : ℕ → ℕ → ℕ) where
  get_or-pair_up :
      (z i : ℕ) (layer : List ℕ)
      → get_or (pair_up hash z layer) i (hash z z)
        ≡ hash (get_or layer (i * 2) z) (get_or layer (i * 2 + 1) z)
  unfolding pair_up
  get_or-pair_up z zero [] = refl
  get_or-pair_up z (suc i) [] = refl
  get_or-pair_up z zero (l ∷ []) = refl
  get_or-pair_up z (suc i) (l ∷ []) = rw (double_odd i, double i)
  get_or-pair_up z zero (l ∷ r ∷ rest) = refl
  get_or-pair_up z (suc i) (l ∷ r ∷ rest) = rw (double_odd i, double i) (get_or-pair_up z i rest)

  get_or-next_layer :
      (z i : ℕ) (layer : List ℕ)
      → get_or (next_layer hash z layer) i (hash z z)
        ≡ hash (get_or layer (i * 2) z) (get_or layer (i * 2 + 1) z)
  unfolding next_layer
  get_or-next_layer z zero [] = refl
  get_or-next_layer z (suc i) [] = refl
  get_or-next_layer z i (l ∷ rest) = get_or-pair_up z i (l ∷ rest)

  module _ (leaves : List ℕ) where
    -- A layer stands for a level: each element, or the zero hash past its end, is that subtree's.
    abbrev IsLayer : ℕ → List ℕ → Type 0
    IsLayer level layer =
        (j : ℕ) → get_or layer j (zero_hash hash level) ≡ subtree hash leaves level j

    leaves-IsLayer : IsLayer 0 leaves
    unfolding zero_hash
    leaves-IsLayer j = sym (subtree-leaf hash leaves j)

    next_layer-IsLayer :
        (level : ℕ) (layer : List ℕ)
        → IsLayer level layer
        → IsLayer (suc level) (next_layer hash (zero_hash hash level) layer)
    unfolding zero_hash subtree
    next_layer-IsLayer level layer h j =
        get_or-next_layer (zero_hash hash level) j layer ∙ cc (h (j * 2), h (j * 2 + 1))

    module _ (t : Tree) (m : Mirrors hash leaves t) where
      walk-path_from :
          (left level idx : ℕ) (layer : List ℕ)
          → level + left ≤ tree_depth
          → IsLayer level layer
          → ((walk hash left level layer idx).0 ≡ path_from hash t.nodes left level idx)
            × IsLayer (level + left) (walk hash left level layer idx).1
      unfolding walk path_from
      walk-path_from zero level idx layer h at = (refl, rw (add-zero level) at)
      walk-path_from (suc left) level idx layer h at =
          let (same, last) =
            walk-path_from left (suc level) (idx / 2) (next_layer hash (zero_hash hash level) layer)
              (omega arith) (next_layer-IsLayer level layer at) in
          (
            cc (same, at (sibling idx), m.node level (sibling idx) (omega arith)),
            rw (add_suc level left) last,
          )

      -- The proof computed from the leaves is, field by field, the proof that the cache serves.
      pub proof_of_leaves-cached :
          (idx : ℕ) → proof_of_leaves hash leaves idx ≡ proof_for_index hash idx t
      unfolding proof_of_leaves proof_for_index
      proof_of_leaves-cached idx =
          let (same, last) =
            walk-path_from tree_depth 0 idx leaves (le_refl tree_depth) leaves-IsLayer in
          let top = last 0 ∙ sym (root-subtree hash leaves t m) in
          λ i. record {
            path = same i;
            path_indices = walk_bits-indices_from tree_depth idx i;
            root = top i;
            leaf_index = idx;
          }
