-- ===== src/Examples/MerkleRuns.antt =====
-- The commitment tree (packages/backend/proof-relay/src) at concrete inputs.
use polyshield.Merkle.Honest.{ingest_honest, load_from_db_restores}
use polyshield.Common.{
  ◌≡◌, ◌≢◌, ℕ, ◌+◌, ◌*◌, ◌%◌, true, none, some, List, [], ◌∷◌, refl, arith, get_elem?, Option, ◌<◌,
  ◌^◌, ap,
}
use Prim.Native.Nat.{zero, suc}
use polyshield.Merkle.Reference.{climb, subtree, tree_depth}
use polyshield.Merkle.Cache.{
  Tree, Db, MerkleProof, new_tree, append, proof_for, proof_for_index, is_ready, load_from_db,
}
use polyshield.Merkle.Mirror.{Mirrors, blank-Mirrors, append-Mirrors}
use polyshield.Merkle.Paths.{proof_for_valid}
use polyshield.Merkle.OnTheFly.{LeafInserted, compute_merkle_proof, found}
use polyshield.Merkle.Agreement.{compute-eq-proof_for, IsDistinct}
use polyshield.Merkle.Sync.{Rpc, SyncConfig, Combined, sync, out_of_fuel, ingest, Log}
use polyshield.Merkle.Ingest.{IsSynced, sync-IsSynced, rows}
use polyshield.Merkle.SyncEnds.{sync_ends}

abbrev hash : ℕ → ℕ → ℕ
hash a b = (a * 31 + b + 7) % 1_000_003

abbrev opened_db : Db
opened_db = record { leaves = []; last_block = none }

abbrev blank : Tree
blank = record (new_tree 100 (some opened_db)) { ready = true }

abbrev two_leaves : List ℕ
two_leaves = 11 ∷ 12 ∷ []

abbrev two : Tree
two = append hash 12 (append hash 11 blank)

empty-Mirrors : Mirrors hash [] blank
unfolding new_tree
empty-Mirrors = blank-Mirrors hash blank refl refl refl

two-Mirrors : Mirrors hash two_leaves two
two-Mirrors = append-Mirrors hash 12 (11 ∷ []) _ (append-Mirrors hash 11 [] blank empty-Mirrors)

abbrev second : MerkleProof
second = proof_for_index hash 1 two

second_served : proof_for hash 12 two ≡ some second
unfolding proof_for append is_ready new_tree
second_served = refl

proof_for_valid_example :
    (climb hash 12 second.path second.path_indices ≡ second.root)
    × (second.root ≡ subtree hash two_leaves tree_depth 0)
    × (get_elem? two_leaves second.leaf_index ≡ some 12)
proof_for_valid_example =
    proof_for_valid hash two_leaves two two-Mirrors 12 second (omega arith) second_served

abbrev two_logs : List LeafInserted
two_logs =
    record { leaf_index = 0; leaf = 11; new_root = 1 }
    ∷ record { leaf_index = 1; leaf = 12; new_root = 2 }
    ∷ []

leaf_at : (i x : ℕ) → get_elem? two_leaves i ≡ some x → x ≡ 11 + i
leaf_at zero x h = cc
leaf_at (suc zero) x h = cc
leaf_at (suc (suc i)) x h = absurd (cc)

two-IsDistinct : IsDistinct two_leaves
two-IsDistinct i j x h k = omega (arith, leaf_at i x h, leaf_at j x k)

compute-eq-proof_for_example : compute_merkle_proof hash two_logs 12 ≡ found second
compute-eq-proof_for_example =
    compute-eq-proof_for hash two_logs two 12 second (omega arith) (refl, (refl, tt)) two-IsDistinct
      two-Mirrors second_served

-- A node at block 120 with one log of the tree and one of another contract.
abbrev node : Rpc
node = record {
  head = some 120;
  combined = λ _ _. Combined.failed;
  scan = λ _ _. some (
      record { address = 5; topic = 6; body = 0 }
      ∷ record { address = 9; topic = 6; body = 1 }
      ∷ []);
  parse_log = λ l. some (record { leaf_index = l.body % 2; leaf = 11; new_root = 1 });
}

abbrev settings : SyncConfig
settings = record { confirmations = 2; scan_window = 10; tree_address = 5; topic = 6 }

blank-IsSynced : IsSynced hash [] blank
unfolding new_tree
blank-IsSynced = record { mirrors = empty-Mirrors; persisted = λ _. refl }

abbrev index_of : Option LeafInserted → ℕ
index_of none = 0
index_of (some ev) = ev.leaf_index

low_indices : (l : Log) (ev : LeafInserted) → node.parse_log l ≡ some ev → ev.leaf_index < 2 ^ 31
low_indices l ev e = omega (arith, ap index_of e)

sync-IsSynced_example : (later : List ℕ) × IsSynced hash later (sync hash settings node blank).0
sync-IsSynced_example =
    sync-IsSynced hash settings node [] blank (omega arith) low_indices blank-IsSynced

sync_ends_example : (sync hash settings node blank).1 ≢ out_of_fuel
sync_ends_example = sync_ends hash settings node (omega arith) blank

-- Two logs of an honest chain, taken in by an empty cache.
abbrev honest_logs : List LeafInserted
honest_logs =
    record { leaf_index = 0; leaf = 11; new_root = subtree hash (11 ∷ []) tree_depth 0 }
    ∷ record { leaf_index = 1; leaf = 12; new_root = subtree hash two_leaves tree_depth 0 }
    ∷ []

ingest_honest_example :
    let (t, goes_on) = ingest hash honest_logs blank in
    (goes_on ≡ true) × (t.consistent ≡ true) × IsSynced hash two_leaves t
unfolding new_tree
ingest_honest_example =
    ingest_honest hash honest_logs [] blank (omega arith) refl blank-IsSynced
      (refl, refl, (refl, refl, tt))

load_from_db_restores_example :
    let d : Db = record { leaves = rows 0 two_leaves; last_block = some 118 } in
    IsSynced hash two_leaves (load_from_db hash (new_tree 100 (some d)))
load_from_db_restores_example = load_from_db_restores hash 100 two_leaves (some 118) (omega arith)
