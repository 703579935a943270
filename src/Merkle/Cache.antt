-- ===== src/Merkle/Cache.antt =====
-- The in-memory mirror of packages/backend/proof-relay/src/merkleTree.ts: class CachedMerkleTree,
-- its tables `merkle_leaves` and `merkle_meta`, append, paths, and the reload of a persisted tree.
-- Leaf indices are natural numbers: `>> 1`, `^ 1` and `& 1` of the source agree with the operations
-- here below 2 ^ 31, where JavaScript's 32-bit operators are exact.
use polyshield.Common.{
  ℕ, zero, suc, ◌+◌, ◌-◌, ◌*◌, ◌/◌, ◌%◌, Bool, true, false, Option, none, some, List, [], ◌∷◌, ◌&&◌,
  if◌then◌else◌, ◌==◌, ltb,
}
use polyshield.Merkle.Reference.{tree_depth, zero_hash}

-- The two tables of the database: the leaves by index, and `last_block`.
pub record Db : Type 0 where
  pub leaves : List (ℕ × ℕ)
  pub last_block : Option ℕ

-- The fields of CachedMerkleTree. `db` is none where the tree runs in memory only.
pub record Tree : Type 0 where
  pub nodes : ℕ → ℕ → Option ℕ
  pub index_by_leaf : ℕ → Option ℕ
  pub next_index : ℕ
  pub deploy_block : ℕ
  pub last_block : ℕ
  pub ready : Bool
  pub consistent : Bool
  pub db : Option Db

-- interface MerkleProof; hashes are numbers rather than their 0x-prefixed hex.
pub record MerkleProof : Type 0 where
  pub path : List ℕ
  pub path_indices : List ℕ
  pub root : ℕ
  pub leaf_index : ℕ

-- `Map.set` on the nodes, whose key is the pair of a level and an index.
abbrev pub set_node : (ℕ → ℕ → Option ℕ) → ℕ → ℕ → ℕ → ℕ → ℕ → Option ℕ
set_node nodes level index v l i = if l == level && i == index then some v else nodes l i

abbrev pub set_leaf : (ℕ → Option ℕ) → ℕ → ℕ → ℕ → Option ℕ
set_leaf table leaf index x = if x == leaf then some index else table x

abbrev pub value_or : Option ℕ → ℕ → ℕ
value_or none d = d
value_or (some v) d = v

-- The constructor; `opened` is the database, if there is a path and it opens.
unfoldable pub new_tree : ℕ → Option Db → Tree
new_tree deploy_block opened = record {
  nodes = λ _ _. none;
  index_by_leaf = λ _. none;
  next_index = 0;
  deploy_block = deploy_block;
  last_block = deploy_block - 1;
  ready = false;
  consistent = true;
  db = opened;
}

unfoldable pub is_ready : Tree → Bool
is_ready t = t.ready && t.consistent

-- INSERT OR REPLACE into merkle_leaves, kept in the order of the index.
unfoldable pub put_row : ℕ → ℕ → List (ℕ × ℕ) → List (ℕ × ℕ)
put_row idx leaf [] = (idx, leaf) ∷ []
put_row idx leaf ((i, l) ∷ rows) =
    if i == idx
    then (idx, leaf) ∷ rows
    else if ltb idx i
    then (idx, leaf) ∷ (i, l) ∷ rows
    else (i, l) ∷ put_row idx leaf rows

abbrev pub map_db : (Db → Db) → Option Db → Option Db
map_db f none = none
map_db f (some d) = some (f d)

unfoldable pub persist_leaf : ℕ → ℕ → Tree → Tree
unfolding put_row
persist_leaf idx leaf t = record t {
  db = map_db (λ d. record d { leaves = put_row idx leaf d.leaves }) t.db;
}

unfoldable pub persist_last_block : Tree → Tree
persist_last_block t = record t {
  db = map_db (λ d. record d { last_block = some t.last_block }) t.db;
}

unfoldable pub reset_in_memory : Tree → Tree
reset_in_memory t = record t {
  nodes = λ _ _. none;
  index_by_leaf = λ _. none;
  next_index = 0;
  last_block = t.deploy_block - 1;
  db = map_db (λ _. record { leaves = []; last_block = none }) t.db;
}

-- i ^ 1
abbrev pub sibling : ℕ → ℕ
sibling i = if i % 2 == 0 then i + 1 else i - 1

-- The bits `i & 1` of the loop of proofForIndex.
unfoldable pub indices_from : ℕ → ℕ → List ℕ
indices_from zero i = []
indices_from (suc left) i = (i % 2) ∷ indices_from left (i / 2)

module _ (hash : ℕ → ℕ → ℕ) where
  unfoldable pub get_node : (ℕ → ℕ → Option ℕ) → ℕ → ℕ → ℕ
  unfolding zero_hash
  get_node nodes level index = value_or (nodes level index) (zero_hash hash level)

  -- The loop of append: `left` rounds from `level`, where the path stands at index `i`.
  unfoldable pub update_path : ℕ → ℕ → ℕ → (ℕ → ℕ → Option ℕ) → ℕ → ℕ → Option ℕ
  unfolding get_node
  update_path zero level i nodes = nodes
  update_path (suc left) level i nodes =
      let parent = i / 2 in
      let l = get_node nodes level (parent * 2) in
      let r = get_node nodes level (parent * 2 + 1) in
      update_path left (suc level) parent (set_node nodes (suc level) parent (hash l r))

  -- append, without its result
  unfoldable pub append : ℕ → Tree → Tree
  unfolding update_path
  append leaf t =
      let idx = t.next_index in
      record t {
        nodes = update_path tree_depth 0 idx (set_node t.nodes 0 idx leaf);
        index_by_leaf = set_leaf t.index_by_leaf leaf idx;
        next_index = idx + 1;
      }

  -- The result of append, and root().
  unfoldable pub root : Tree → ℕ
  unfolding get_node
  root t = get_node t.nodes tree_depth 0

  -- The loop of proofForIndex.
  unfoldable pub path_from : (ℕ → ℕ → Option ℕ) → ℕ → ℕ → ℕ → List ℕ
  unfolding get_node
  path_from nodes zero level i = []
  path_from nodes (suc left) level i =
      get_node nodes level (sibling i) ∷ path_from nodes left (suc level) (i / 2)

  unfoldable pub proof_for_index : ℕ → Tree → MerkleProof
  proof_for_index idx t = record {
    path = path_from t.nodes tree_depth 0 idx;
    path_indices = indices_from tree_depth idx;
    root = root t;
    leaf_index = idx;
  }

  abbrev pub proof_at : Tree → Option ℕ → Option MerkleProof
  proof_at t none = none
  proof_at t (some idx) = some (proof_for_index idx t)

  unfoldable pub proof_for : ℕ → Tree → Option MerkleProof
  unfolding is_ready
  proof_for commitment t = if is_ready t then proof_at t (t.index_by_leaf commitment) else none

  -- The rows of loadFromDb, in the order of the index; none where an index is not the next one.
  unfoldable pub load_rows : List (ℕ × ℕ) → Tree → Option Tree
  unfolding append
  load_rows [] t = some t
  load_rows ((idx, leaf) ∷ rows) t =
      if idx == t.next_index then load_rows rows (append leaf t) else none

  abbrev pub resume : Option ℕ → Tree → Tree
  resume none t = t
  resume (some block) t = if ltb 0 t.next_index then record t { last_block = block } else t

  -- loadFromDb
  unfoldable pub load_from_db : Tree → Tree
  unfolding load_rows reset_in_memory
  load_from_db t = elim t.db [
    | none ↦ t
    | some d ↦ elim (load_rows d.leaves t) [
      | none ↦ reset_in_memory t
      | some loaded ↦ resume d.last_block loaded
    ]
  ]
