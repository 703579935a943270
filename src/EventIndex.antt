-- ===== src/EventIndex.antt =====
-- VaultEventIndex of packages/backend/proof-relay/src/eventIndex.ts: the table of the Vault's events and
-- its sync. What the RPC answers during one run is the record `Rpc`, with the ABI decoder of ethers as
-- its field `parse_log`; runSync makes the runs follow one another, so a run is atomic here. Addresses
-- are in lower case, and a write to the database does not fail.
pub mod Records
pub mod Reads
use polyshield.Common.{
  ℕ, zero, suc, ◌+◌, ◌-◌, Bool, true, false, Option, none, some, List, [], ◌∷◌, min, ◌&&◌, not,
  if◌then◌else◌, ◌==◌, leb, ◌||◌,
}
use polyshield.Merkle.Sync.{Ended, done, thrown, out_of_fuel, is_done}

-- The decoded events, with the fields that serializeArgs keeps, in its order.
pub data Args : Type 0 where
  deposited : ℕ → ℕ → ℕ → Args
  bet_authorized : ℕ → ℕ → ℕ → ℕ → ℕ → ℕ → ℕ → ℕ → ℕ → ℕ → Args
  settlement_credited bet_cancellation_credited na_cancellation_credited partial_fill_credited :
      ℕ → ℕ → ℕ → Args
  withdrawn : ℕ → ℕ → ℕ → ℕ → Args
  bet_sold : ℕ → ℕ → ℕ → Args
  position_closed : ℕ → ℕ → ℕ → Bool → Args
  consolidated : List ℕ → ℕ → Args
  market_resolved : ℕ → ℕ → Args

-- The column `type`.
abbrev pub type_of : Args → ℕ
type_of (deposited _ _ _) = 0
type_of (bet_authorized _ _ _ _ _ _ _ _ _ _) = 1
type_of (settlement_credited _ _ _) = 2
type_of (bet_cancellation_credited _ _ _) = 3
type_of (na_cancellation_credited _ _ _) = 4
type_of (partial_fill_credited _ _ _) = 5
type_of (withdrawn _ _ _ _) = 6
type_of (bet_sold _ _ _) = 7
type_of (position_closed _ _ _ _) = 8
type_of (consolidated _ _) = 9
type_of (market_resolved _ _) = 10

-- The column `depositor`.
abbrev pub depositor_of : Args → Option ℕ
depositor_of (deposited depositor _ _) = some depositor
depositor_of _ = none

pub record VaultLog : Type 0 where
  pub address : ℕ
  pub topic : ℕ
  pub block : ℕ
  pub log_index : ℕ
  pub tx_hash : ℕ
  pub body : ℕ

-- A row of vault_events.
pub record Row : Type 0 where
  pub block : ℕ
  pub log_index : ℕ
  pub tx_hash : ℕ
  pub block_ts : Option ℕ
  pub args : Args

-- `none` stands for a rejected promise, and `some none` of `combined` for null; `timestamp` is none
-- where the block has no answer.
pub record Rpc : Type 0 where
  pub head : Option ℕ
  pub combined : ℕ → ℕ → Option (Option (List VaultLog))
  pub scan : ℕ → ℕ → Option (List VaultLog)
  pub timestamp : ℕ → Option ℕ
  pub parse_log : VaultLog → Option Args

-- CONFIRMATIONS, SCAN_WINDOW, the Vault's address, and whether NAME_BY_TOPIC has a topic.
pub record IndexConfig : Type 0 where
  pub confirmations : ℕ
  pub scan_window : ℕ
  pub vault_address : ℕ
  pub has_name : ℕ → Bool

-- The fields of the class, with the rows and the saved cursor of its database; has_db is db !== null.
pub record Index : Type 0 where
  pub has_db : Bool
  pub rows : List Row
  pub saved : Option ℕ
  pub last_block : ℕ
  pub ready : Bool

-- The constructor, over the rows and the cursor that the database holds.
abbrev pub start_block : ℕ → Bool → Option ℕ → ℕ
start_block deploy true (some last) = last
start_block deploy _ _ = deploy - 1

unfoldable pub new_index : ℕ → Bool → List Row → Option ℕ → Index
new_index deploy has_db rows saved = record {
  has_db = has_db;
  rows = rows;
  saved = saved;
  last_block = start_block deploy has_db saved;
  ready = false;
}

unfoldable pub own_logs : IndexConfig → List VaultLog → List VaultLog
own_logs cfg [] = []
own_logs cfg (l ∷ ls) =
    if l.address == cfg.vault_address && cfg.has_name l.topic
    then l ∷ own_logs cfg ls
    else own_logs cfg ls

abbrev pub logs_or_scan :
    IndexConfig → Option (List VaultLog) → Option (Option (List VaultLog)) → Option (List VaultLog)
logs_or_scan cfg scanned none = none
logs_or_scan cfg scanned (some none) = scanned
logs_or_scan cfg scanned (some (some ls)) = some (own_logs cfg ls)

-- The logs of one window.
unfoldable pub window_logs : IndexConfig → Rpc → ℕ → ℕ → Option (List VaultLog)
window_logs cfg rpc from to = logs_or_scan cfg (rpc.scan from to) (rpc.combined from to)

abbrev pub add_row : Rpc → VaultLog → Option Args → List Row → List Row
add_row rpc l none rows = rows
add_row rpc l (some args) rows =
    record {
      block = l.block;
      log_index = l.log_index;
      tx_hash = l.tx_hash;
      block_ts = rpc.timestamp l.block;
      args = args;
    }
    ∷ rows

-- The loop that decodes the logs.
unfoldable pub decode : IndexConfig → Rpc → List VaultLog → List Row
decode cfg rpc [] = []
decode cfg rpc (l ∷ ls) =
    let rest = decode cfg rpc ls in
    if cfg.has_name l.topic then add_row rpc l (rpc.parse_log l) rest else rest

-- PRIMARY KEY (type, block, log_index)
abbrev pub same_key : Row → Row → Bool
same_key x r =
    type_of x.args == type_of r.args && (x.block == r.block && x.log_index == r.log_index)

-- INSERT OR IGNORE
unfoldable pub insert_row : Row → List Row → List Row
insert_row r [] = r ∷ []
insert_row r (x ∷ xs) = if same_key x r then x ∷ xs else x ∷ insert_row r xs

unfoldable pub insert_all : List Row → List Row → List Row
insert_all [] rows = rows
insert_all (r ∷ rs) rows = insert_all rs (insert_row r rows)

-- One window's logs, and the cursor after them.
unfoldable pub store_window : IndexConfig → Rpc → ℕ → List VaultLog → Index → Index
store_window cfg rpc window_end ls x = record x {
  rows = insert_all (decode cfg rpc ls) x.rows;
  last_block = window_end;
  saved = some window_end;
}

abbrev pub after_logs :
    IndexConfig → Rpc → (Index → Index × Ended) → ℕ → Index → Option (List VaultLog) → Index × Ended
after_logs cfg rpc next window_end x none = (x, thrown)
after_logs cfg rpc next window_end x (some ls) = next (store_window cfg rpc window_end ls x)

unfoldable pub scan_windows : ℕ → IndexConfig → Rpc → ℕ → ℕ → Index → Index × Ended
scan_windows zero cfg rpc target cursor x = (x, out_of_fuel)
scan_windows (suc fuel) cfg rpc target cursor x =
    let window_end = min (cursor + cfg.scan_window - 1) target in
    let rest =
      after_logs cfg rpc (scan_windows fuel cfg rpc target (window_end + 1)) window_end x
        (window_logs cfg rpc cursor window_end) in
    if leb cursor target then rest else (x, done)

-- One more round than the blocks above the cursor.
abbrev pub sync_to : IndexConfig → Rpc → ℕ → Index → Index × Ended
sync_to cfg rpc target x =
    if leb target x.last_block
    then (x, done)
    else scan_windows (target + 1 - x.last_block) cfg rpc target (x.last_block + 1) x

abbrev pub sync_head : IndexConfig → Rpc → Option ℕ → Index → Index × Ended
sync_head cfg rpc none x = (x, thrown)
sync_head cfg rpc (some head) x = sync_to cfg rpc (head - cfg.confirmations) x

unfoldable pub sync : IndexConfig → Rpc → Index → Index × Ended
sync cfg rpc x = if x.has_db then sync_head cfg rpc rpc.head x else (x, done)

-- syncNow, which drops an error.
unfoldable pub sync_now : IndexConfig → Rpc → Index → Index
sync_now cfg rpc x =
    let synced = (sync cfg rpc x).0 in if not x.ready then x else if not x.has_db then x else synced

-- catchUp, and start up to its timer.
unfoldable pub catch_up : IndexConfig → Rpc → Index → Index × Ended
catch_up cfg rpc x =
    let (x', ended) = sync cfg rpc x in (record x' { ready = is_done ended || x'.ready }, ended)

unfoldable pub is_ready : Index → Bool
is_ready x = x.ready && x.has_db
