-- ===== src/Merkle/Agreement.antt =====
-- computeMerkleProof (merkle.ts) and proofFor (merkleTree.ts) answer alike.
use polyshield.Common.{
  ℕ, zero, suc, ◌+◌, ◌≡◌, inl, inr, refl, ap, ◌∙◌, false, some, List, [], ◌∷◌, ◌++◌, map, arith,
  ◌==◌, length, length-append, get_elem?, Bool-cases, Option-cases, ==→eq, ◌<◌, ◌^◌,
}
use mathlib.Core.List.{append-nil, append_assoc}
use polyshield.Merkle.Cache.{Tree, MerkleProof, proof_for_index, proof_for}
use polyshield.Merkle.Mirror.{Mirrors}
use polyshield.Merkle.OnTheFly.{
  LeafInserted, assign, collect, find_index, without_holes, compute_merkle_proof, found,
}
use polyshield.Merkle.Layers.{proof_of_leaves-cached}

abbrev pub leaf_of : LeafInserted → ℕ
leaf_of ev = ev.leaf

-- The logs come in the order of their indices, from `k` on and with no gap.
abbrev pub Numbered : ℕ → List LeafInserted → Type 0
Numbered k [] = Unit
Numbered k (ev ∷ evs) = (ev.leaf_index ≡ k) × Numbered (suc k) evs

-- No leaf stands at two indices.
abbrev pub IsDistinct : List ℕ → Type 0
IsDistinct ls = (i j x : ℕ) → get_elem? ls i ≡ some x → get_elem? ls j ≡ some x → i ≡ j

assign_end : (xs : List ℕ) (x : ℕ) → assign (map some xs) (length xs) x ≡ map some (xs ++ x ∷ [])
unfolding assign
assign_end [] x = refl
assign_end (y ∷ xs) x = rw (assign_end xs x)

length-end : (xs : List ℕ) (x : ℕ) → length (xs ++ x ∷ []) ≡ suc (length xs)
length-end xs x = omega (arith, length-append xs (x ∷ []))

later :
    (l : ℕ) (ls : List ℕ) (c j : ℕ)
    → get_elem? (l ∷ ls) j ≡ some c
    → (l == c) ≡ false
    → (i : ℕ) × (get_elem? ls i ≡ some c)
later l ls c zero h other = absurd (ground arith)
later l ls c (suc j) h other = (j, h)

collect-map :
    (xs : List ℕ) (evs : List LeafInserted)
    → Numbered (length xs) evs
    → collect (map some xs) evs ≡ map some (xs ++ map leaf_of evs)
unfolding collect
collect-map xs [] h = rw append-nil
collect-map xs (ev ∷ evs) (at, rest) =
    rw (at, assign_end xs ev.leaf)
      (collect-map (xs ++ ev.leaf ∷ []) evs (rw (length-end xs ev.leaf) rest)
        ∙ ap (map some) (append_assoc xs (ev.leaf ∷ []) (map leaf_of evs)))

find_index-map :
    (ls : List ℕ) (c j k : ℕ)
    → get_elem? ls j ≡ some c
    → (i : ℕ) × (find_index (map some ls) c k ≡ some (i + k)) × (get_elem? ls i ≡ some c)
unfolding find_index
find_index-map [] c j k h = cc
find_index-map (l ∷ ls) c j k h = elim (Bool-cases (l == c)) [
  | inl same ↦ (0, rw same (ap some (omega arith)), ap some (==→eq l c same))
  | inr other ↦
      let (j', h') = later l ls c j h other in
      let (i, at, here) = find_index-map ls c j' (k + 1) h' in
      (suc i, rw other (at ∙ ap some (omega arith)), here)
]

without_holes-map : (ls : List ℕ) → without_holes (map some ls) ≡ some ls
unfolding without_holes
without_holes-map [] = refl
without_holes-map (l ∷ ls) = rw (without_holes-map ls)

module _ (hash : ℕ → ℕ → ℕ) (evs : List LeafInserted) (t : Tree) where
  -- Where the logs are fewer than 2 ^ 31 and in the order of their indices, without a gap, no two leaves
  -- are alike, the cache is the tree over the leaves of the logs and serves a path, the computation from
  -- the logs gives the same proof.
  pub compute-eq-proof_for :
      (c : ℕ) (p : MerkleProof)
      → length evs < 2 ^ 31
      → Numbered 0 evs
      → IsDistinct (map leaf_of evs)
      → Mirrors hash (map leaf_of evs) t
      → proof_for hash c t ≡ some p
      → compute_merkle_proof hash evs c ≡ found p
  unfolding compute_merkle_proof proof_for
  compute-eq-proof_for c p small numbered distinct m served =
      elim (Option-cases (t.index_by_leaf c)) [
        | inl missing ↦ absurd (ground arith)
        | inr (j, filed) ↦
            let leaves = map leaf_of evs in
            let at = m.filed c j filed in
            let (i, first, here) = find_index-map leaves c j 0 at in
            let same : proof_for_index hash j t ≡ p = ground arith in
            let i_is_j : i + 0 ≡ j = omega (arith, distinct i j c here at) in
            rw (
              collect-map [] evs numbered,
              first,
              without_holes-map leaves,
              i_is_j,
              proof_of_leaves-cached hash leaves t m j,
              same,
            )
      ]
