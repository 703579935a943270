-- ===== src/Merkle/Sync.antt =====
-- packages/backend/proof-relay/src/merkleTree.ts: sync, catchUp and start, which pull LeafInserted
-- logs window by window. What the RPC answers during one run is the record `Rpc`; the ABI decoder of
-- ethers is its field `parse_log`. runSync makes the runs follow one another, so a run is atomic here.
use polyshield.Common.{
  ℕ, zero, suc, ◌+◌, ◌-◌, Bool, true, false, Option, none, some, List, [], ◌∷◌, min, ◌&&◌, ◌||◌,
  not, if◌then◌else◌, ◌==◌, ltb, leb,
}
use polyshield.Merkle.Cache.{
  Tree, append, root, reset_in_memory, persist_leaf, persist_last_block, load_from_db,
}
use polyshield.Merkle.OnTheFly.{LeafInserted}

-- A log: its address in lower case, its first topic, and its identity for the decoder.
pub record Log : Type 0 where
  pub address : ℕ
  pub topic : ℕ
  pub body : ℕ

-- getVaultTreeLogs: null where the combined scan is not configured, or it throws, or it answers.
pub data Combined : Type 0 where
  unconfigured : Combined
  failed : Combined
  logs : List Log → Combined

-- `none` stands for a rejected promise.
pub record Rpc : Type 0 where
  pub head : Option ℕ
  pub combined : ℕ → ℕ → Combined
  pub scan : ℕ → ℕ → Option (List Log)
  pub parse_log : Log → Option LeafInserted

-- CONFIRMATIONS, SCAN_WINDOW, the address of the tree and LEAF_INSERTED_TOPIC.
pub record SyncConfig : Type 0 where
  pub confirmations : ℕ
  pub scan_window : ℕ
  pub tree_address : ℕ
  pub topic : ℕ

pub data Ended : Type 0 where
  done : Ended
  thrown : Ended
  out_of_fuel : Ended

abbrev pub is_done : Ended → Bool
is_done done = true
is_done _ = false

unfoldable pub own_logs : SyncConfig → List Log → List Log
own_logs cfg [] = []
own_logs cfg (l ∷ ls) =
    if l.address == cfg.tree_address && l.topic == cfg.topic
    then l ∷ own_logs cfg ls
    else own_logs cfg ls

-- The logs of one window.
unfoldable pub window_logs : SyncConfig → Rpc → ℕ → ℕ → Option (List Log)
window_logs cfg rpc from to = elim (rpc.combined from to) [
  | unconfigured ↦ rpc.scan from to
  | failed ↦ none
  | logs ls ↦ some (own_logs cfg ls)
]

unfoldable pub insert_event : LeafInserted → List LeafInserted → List LeafInserted
insert_event ev [] = ev ∷ []
insert_event ev (e ∷ es) =
    if leb ev.leaf_index e.leaf_index then ev ∷ e ∷ es else e ∷ insert_event ev es

-- map, filter and the stable sort by leafIndex
unfoldable pub sorted_events : Rpc → List Log → List LeafInserted
sorted_events rpc [] = []
sorted_events rpc (l ∷ ls) = elim (rpc.parse_log l) [
  | none ↦ sorted_events rpc ls
  | some ev ↦ insert_event ev (sorted_events rpc ls)
]

module _ (hash : ℕ → ℕ → ℕ) where
  -- One round of the loop over the events; false where the function returns there.
  unfoldable pub ingest_one : LeafInserted → Tree → Tree × Bool
  ingest_one ev t =
      if ltb ev.leaf_index t.next_index
      then (t, true)
      else if not (ev.leaf_index == t.next_index)
      then (reset_in_memory t, false)
      else let t' = append hash ev.leaf t in
        if root hash t' == ev.new_root
        then (persist_leaf ev.leaf_index ev.leaf t', true)
        else (record t' { consistent = false }, false)

  unfoldable pub ingest : List LeafInserted → Tree → Tree × Bool
  ingest [] t = (t, true)
  ingest (ev ∷ evs) t =
      let (t', go_on) = ingest_one ev t in elim go_on [ true ↦ ingest evs t' | false ↦ (t', false) ]

  abbrev pub ingest_logs : Rpc → Option (List Log) → Tree → Option (Tree × Bool)
  ingest_logs rpc none t = none
  ingest_logs rpc (some ls) t = some (ingest (sorted_events rpc ls) t)

  -- The end of a round of the loop over the windows, and how the loop goes on.
  abbrev pub after_window : (Tree → Tree × Ended) → Tree → ℕ → Option (Tree × Bool) → Tree × Ended
  after_window go_on t window_end none = (t, thrown)
  after_window go_on t window_end (some (t', false)) = (t', done)
  after_window go_on t window_end (some (t', true)) =
      go_on (persist_last_block (record t' { last_block = window_end }))

  -- The loop over the windows.
  unfoldable pub scan_windows : ℕ → SyncConfig → Rpc → ℕ → ℕ → Tree → Tree × Ended
  scan_windows zero cfg rpc target cursor t = (t, out_of_fuel)
  scan_windows (suc fuel) cfg rpc target cursor t =
      let window_end = min (cursor + cfg.scan_window - 1) target in
      let rest =
        after_window (scan_windows fuel cfg rpc target (window_end + 1)) t window_end
          (ingest_logs rpc (window_logs cfg rpc cursor window_end) t) in
      if leb cursor target && t.consistent then rest else (t, done)

  unfoldable pub sync_to : SyncConfig → Rpc → ℕ → Tree → Tree × Ended
  sync_to cfg rpc target t =
      if leb target t.last_block
      then (t, done)
      else scan_windows (target + 1) cfg rpc target (t.last_block + 1) t

  unfoldable pub sync_head : SyncConfig → Rpc → Option ℕ → Tree → Tree × Ended
  sync_head cfg rpc none t = (t, thrown)
  sync_head cfg rpc (some head) t = sync_to cfg rpc (head - cfg.confirmations) t

  unfoldable pub sync : SyncConfig → Rpc → Tree → Tree × Ended
  sync cfg rpc t = if t.consistent then sync_head cfg rpc rpc.head t else (t, done)

  -- catchUp, and start up to its timers: ready only if the run did not throw.
  unfoldable pub catch_up : SyncConfig → Rpc → Tree → Tree × Ended
  catch_up cfg rpc t =
      let r = sync cfg rpc (load_from_db hash t) in
      (record (r.0) { ready = is_done r.1 || r.0.ready }, r.1)
