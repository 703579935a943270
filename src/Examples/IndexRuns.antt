-- ===== src/Examples/IndexRuns.antt =====
-- The event index (packages/backend/proof-relay/src/eventIndex.ts) at concrete inputs.
use polyshield.Common.{
  ℕ, zero, suc, ◌+◌, ◌-◌, true, none, some, List, [], ◌∷◌, ◌≡◌, ◌==◌, refl, blocks, ap, arith,
}
use polyshield.Merkle.Sync.{done}
use polyshield.EventIndex.{
  deposited, market_resolved, Row, Rpc, IndexConfig, Index, VaultLog, insert_row, decode,
  window_logs, new_index, sync, catch_up, is_ready, store_window, scan_windows,
}
use polyshield.EventIndex.Reads.{
  all_events, newest, insert_newest, first_rows, block_timestamps, timestamps_from, timestamp_of,
  recovery_data, resolved_market_ids, select, insert_ordered, add_id, resolved_from,
}
use polyshield.EventIndex.Records.{sync_stores, stored}

abbrev cfg : IndexConfig
cfg = record { confirmations = 3; scan_window = 1; vault_address = 7; has_name = λ t. t == 1 }

-- Each block has a deposit of the wallet 5.
abbrev log_at : ℕ → VaultLog
log_at b = record { address = 7; topic = 1; block = b; log_index = 0; tx_hash = b; body = b }

abbrev row_at : ℕ → Row
row_at b = record {
  block = b;
  log_index = 0;
  tx_hash = b;
  block_ts = some (1_000 + b);
  args = deposited 5 b 60;
}

abbrev logs_at : ℕ → List VaultLog
logs_at b = log_at b ∷ []

abbrev rows_at : ℕ → List Row
rows_at b = row_at b ∷ []

abbrev rpc : Rpc
rpc = record {
  head = some 14;
  combined = λ a b. some none;
  scan = λ a b. some (blocks logs_at a (suc b - a));
  timestamp = λ b. some (1_000 + b);
  parse_log = λ l. some (deposited 5 l.body 60);
}

decode-blocks : (a n : ℕ) → decode cfg rpc (blocks logs_at a n) ≡ blocks rows_at a n
unfolding decode
decode-blocks a zero = refl
decode-blocks a (suc n) = ap (λ l. row_at a ∷ l) (decode-blocks (suc a) n)

honest :
    (a b : ℕ)
    → (ls : List VaultLog) × (window_logs cfg rpc a b ≡ some ls)
      × (decode cfg rpc ls ≡ blocks rows_at a (suc b - a))
unfolding window_logs
honest a b = (blocks logs_at a (suc b - a), refl, decode-blocks a (suc b - a))

abbrev index : Index
index = new_index 10 true (row_at 9 ∷ []) (some 9)

sync_stores_example :
    (sync cfg rpc index ≡ (stored cfg rpc rows_at 10 11 index, done))
    × (sync cfg rpc (sync cfg rpc index).0 ≡ sync cfg rpc index)
unfolding new_index
sync_stores_example =
    sync_stores cfg rpc rows_at 14 index refl refl honest (omega arith) (omega arith)
      ((refl, tt), ((refl, (refl, tt)), tt))

-- A row with the key of another is ignored.
ignored : insert_row (record (row_at 9) { tx_hash = 4 }) (row_at 9 ∷ []) ≡ row_at 9 ∷ []
unfolding insert_row
ignored = refl

caught_up : is_ready (catch_up cfg rpc index).0 ≡ true
unfolding is_ready catch_up sync scan_windows window_logs new_index store_window
caught_up = refl

abbrev resolved_row : Row
resolved_row = record {
  block = 8;
  log_index = 1;
  tx_hash = 3;
  block_ts = none;
  args = market_resolved 66 500;
}

abbrev two_rows : Index
two_rows = new_index 10 true (row_at 9 ∷ resolved_row ∷ []) (some 9)

recovered : recovery_data 5 two_rows ≡ (row_at 9 ∷ [], resolved_row ∷ [])
unfolding recovery_data select insert_ordered new_index
recovered = refl

resolved : resolved_market_ids two_rows ≡ 66 ∷ []
unfolding resolved_market_ids resolved_from add_id new_index
resolved = refl

newest_first : all_events 1 two_rows ≡ row_at 9 ∷ []
unfolding all_events newest insert_newest first_rows new_index
newest_first = refl

-- The row of block 8 has no time.
times : block_timestamps (8 ∷ 9 ∷ []) two_rows ≡ (9, 1_009) ∷ []
unfolding block_timestamps timestamps_from timestamp_of new_index
times = refl
