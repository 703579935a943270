-- ===== src/Merkle/Paths.antt =====
-- The paths that the mirror of merkleTree.ts serves: proofForIndex and proofFor.
use polyshield.Common.{
  ℕ, zero, suc, ◌+◌, ◌-◌, ◌*◌, ◌/◌, ◌%◌, ◌≤◌, ◌<◌, ◌≡◌, inl, inr, refl, sym, ap, ◌∙◌, some, List,
  [], ◌∷◌, arith, if◌then◌else◌, ◌==◌, length, get_elem?, get_or, Bool-cases, Option-cases, ◌^◌,
}
use native.Mathlib.Nat.{pow-suc, le_refl}
use polyshield.Merkle.Reference.{tree_depth, subtree, climb, ancestor, subtree-leaf}
use polyshield.Merkle.Cache.{
  Tree, MerkleProof, get_node, path_from, indices_from, proof_for_index, proof_for, sibling, root,
}
use polyshield.Merkle.Mirror.{Mirrors, root-subtree, lt-length}

pub ancestor-half : (i k : ℕ) → ancestor (i / 2) k ≡ ancestor i (suc k)
unfolding ancestor
ancestor-half i zero = refl
ancestor-half i (suc k) = ap (λ (n : ℕ). n / 2) (ancestor-half i k)

pub ancestor-top : (k i : ℕ) → i < 2 ^ k → ancestor i k ≡ 0
unfolding ancestor
ancestor-top zero i h = omega arith
ancestor-top (suc k) i h =
    sym (ancestor-half i k) ∙ ancestor-top k (i / 2) (omega (arith, pow-suc 2 k))

pub ancestor-root : (i n : ℕ) → i < n → n < 2 ^ 31 → ancestor i tree_depth ≡ 0
ancestor-root i n h small = ancestor-top tree_depth i (omega arith)

get_or_of_get_elem? : (xs : List ℕ) (i : ℕ) {x : ℕ} → get_elem? xs i ≡ some x → get_or xs i 0 ≡ x
get_or_of_get_elem? [] i h = cc
get_or_of_get_elem? (y ∷ xs) zero h = cc
get_or_of_get_elem? (y ∷ xs) (suc i) h = get_or_of_get_elem? xs i h

module _ (hash : ℕ → ℕ → ℕ) (leaves : List ℕ) (t : Tree) (m : Mirrors hash leaves t) where
  -- One step of the climb: a node and its sibling hash to the parent.
  climb_step :
      (level i : ℕ)
      → suc level ≤ tree_depth
      → (if i % 2 == 0
          then hash (subtree hash leaves level i) (get_node hash t.nodes level (sibling i))
          else hash (get_node hash t.nodes level (sibling i)) (subtree hash leaves level i))
        ≡ subtree hash leaves (suc level) (i / 2)
  unfolding subtree
  climb_step level i h = elim (Bool-cases (i % 2 == 0)) [
    | inl even ↦
        rw (even, m.node level (i + 1) (omega arith))
          (let l : i / 2 * 2 ≡ i = ground arith in
            let r : i / 2 * 2 + 1 ≡ i + 1 = ground arith in rw (r, l))
    | inr odd ↦
        rw (odd, m.node level (i - 1) (omega arith))
          (let l : i / 2 * 2 ≡ i - 1 = ground arith in
            let r : i / 2 * 2 + 1 ≡ i = ground arith in rw (r, l))
  ]

  climb-path_from :
      (left level i : ℕ)
      → level + left ≤ tree_depth
      → climb hash
          (subtree hash leaves level i)
          (path_from hash t.nodes left level i)
          (indices_from left i)
        ≡ subtree hash leaves (level + left) (ancestor i left)
  unfolding climb path_from indices_from ancestor
  climb-path_from zero level i h = ap (λ (n : ℕ). subtree hash leaves n i) (omega arith)
  climb-path_from (suc left) level i h =
      rw
        (
          climb_step level i (omega arith),
          climb-path_from left (suc level) (i / 2) (omega arith),
          ancestor-half i left,
        )
        (ap (λ (n : ℕ). subtree hash leaves n (ancestor i (suc left))) (omega arith))

  pub proof_for_index_valid :
      (c i : ℕ)
      → length leaves < 2 ^ 31
      → get_elem? leaves i ≡ some c
      → let p = proof_for_index hash i t in
        (climb hash c p.path p.path_indices ≡ p.root)
        × (p.root ≡ subtree hash leaves tree_depth 0)
        × (get_elem? leaves p.leaf_index ≡ some c)
  unfolding proof_for_index
  proof_for_index_valid c i small at =
      let top : root hash t ≡ subtree hash leaves tree_depth 0 = root-subtree hash leaves t m in
      let leaf : subtree hash leaves 0 i ≡ c =
        subtree-leaf hash leaves i ∙ get_or_of_get_elem? leaves i at in
      let zero_top : ancestor i tree_depth ≡ 0 = ancestor-root i _ (lt-length leaves i at) small in
      (
        rw (top, ← leaf)
            (climb-path_from tree_depth 0 i (le_refl tree_depth)
              ∙ ap (λ (j : ℕ). subtree hash leaves tree_depth j) zero_top),
        top,
        at,
      )

  -- From a cache that is the tree over a list of fewer than 2 ^ 31 leaves, a path that is served leads
  -- from the commitment to the root of the whole tree, and the commitment is the leaf at its index.
  pub proof_for_valid :
      (c : ℕ) (p : MerkleProof)
      → length leaves < 2 ^ 31
      → proof_for hash c t ≡ some p
      → (climb hash c p.path p.path_indices ≡ p.root)
        × (p.root ≡ subtree hash leaves tree_depth 0)
        × (get_elem? leaves p.leaf_index ≡ some c)
  unfolding proof_for
  proof_for_valid c p small served = elim (Option-cases (t.index_by_leaf c)) [
    | inl missing ↦ absurd (ground arith)
    | inr (i, found) ↦
        let e : proof_for_index hash i t ≡ p = ground arith in
        rw (← e) (proof_for_index_valid c i small (m.filed c i found))
  ]
