-- ===== src/Merkle/OnTheFly.antt =====
-- packages/backend/proof-relay/src/merkle.ts: computeMerkleProof, from the parsed LeafInserted logs
-- on. The scan of the logs is in LogScan.
use polyshield.Common.{
  ℕ, zero, suc, ◌+◌, ◌/◌, ◌%◌, Bool, false, Option, none, some, List, [], ◌∷◌, if◌then◌else◌, ◌==◌,
  get_or,
}
use polyshield.Merkle.Reference.{tree_depth, zero_hash}
use polyshield.Merkle.Cache.{MerkleProof, sibling}

-- A parsed log: LeafInserted(leafIndex, leaf, newRoot).
pub record LeafInserted : Type 0 where
  pub leaf_index : ℕ
  pub leaf : ℕ
  pub new_root : ℕ

-- `leaves[i] = leaf` on an array, which grows by holes.
unfoldable pub assign : List (Option ℕ) → ℕ → ℕ → List (Option ℕ)
assign [] zero leaf = some leaf ∷ []
assign [] (suc i) leaf = none ∷ assign [] i leaf
assign (x ∷ xs) zero leaf = some leaf ∷ xs
assign (x ∷ xs) (suc i) leaf = x ∷ assign xs i leaf

unfoldable pub collect : List (Option ℕ) → List LeafInserted → List (Option ℕ)
unfolding assign
collect leaves [] = leaves
collect leaves (ev ∷ evs) = collect (assign leaves ev.leaf_index ev.leaf) evs

abbrev pub is_leaf : Option ℕ → ℕ → Bool
is_leaf none target = false
is_leaf (some l) target = l == target

-- leaves.findIndex((l) => l === target), counting from `i`
unfoldable pub find_index : List (Option ℕ) → ℕ → ℕ → Option ℕ
find_index [] target i = none
find_index (l ∷ ls) target i = if is_leaf l target then some i else find_index ls target (i + 1)

-- poseidon2 throws on a hole: all the leaves, if there is none.
unfoldable pub without_holes : List (Option ℕ) → Option (List ℕ)
without_holes [] = some []
without_holes (none ∷ ls) = none
without_holes (some l ∷ ls) = elim (without_holes ls) [ none ↦ none | some xs ↦ some (l ∷ xs) ]

-- The outcome: null, a thrown TypeError at a hole, or a proof.
pub data Outcome : Type 0 where
  not_found : Outcome
  thrown : Outcome
  found : MerkleProof → Outcome

-- The bits `idx % 2` of the loop over the levels.
unfoldable pub walk_bits : ℕ → ℕ → List ℕ
walk_bits zero idx = []
walk_bits (suc left) idx = (idx % 2) ∷ walk_bits left (idx / 2)

module _ (hash : ℕ → ℕ → ℕ) where
  -- The inner loop, over pairs; a missing right child is the zero hash of the level.
  unfoldable pub pair_up : ℕ → List ℕ → List ℕ
  pair_up z [] = []
  pair_up z (l ∷ []) = hash l z ∷ []
  pair_up z (l ∷ r ∷ rest) = hash l r ∷ pair_up z rest

  unfoldable pub next_layer : ℕ → List ℕ → List ℕ
  unfolding pair_up
  next_layer z [] = hash z z ∷ []
  next_layer z (l ∷ rest) = pair_up z (l ∷ rest)

  -- The loop over the levels: the siblings, and the layer that is left at the end.
  unfoldable pub walk : ℕ → ℕ → List ℕ → ℕ → List ℕ × List ℕ
  unfolding next_layer zero_hash
  walk zero level layer idx = ([], layer)
  walk (suc left) level layer idx =
      let z = zero_hash hash level in
      let (path, last) = walk left (suc level) (next_layer z layer) (idx / 2) in
      (get_or layer (sibling idx) z ∷ path, last)

  unfoldable pub proof_of_leaves : List ℕ → ℕ → MerkleProof
  proof_of_leaves leaves idx =
      let (path, last) = walk tree_depth 0 leaves idx in
      record {
        path = path;
        path_indices = walk_bits tree_depth idx;
        root = get_or last 0 (zero_hash hash tree_depth);
        leaf_index = idx;
      }

  unfoldable pub hash_leaves : Option (List ℕ) → ℕ → Outcome
  hash_leaves none idx = thrown
  hash_leaves (some leaves) idx = found (proof_of_leaves leaves idx)

  unfoldable pub proof_at_index : List (Option ℕ) → Option ℕ → Outcome
  unfolding hash_leaves
  proof_at_index leaves none = not_found
  proof_at_index leaves (some idx) = hash_leaves (without_holes leaves) idx

  unfoldable pub compute_merkle_proof : List LeafInserted → ℕ → Outcome
  unfolding proof_at_index
  compute_merkle_proof logs target =
      let leaves = collect [] logs in proof_at_index leaves (find_index leaves target 0)
