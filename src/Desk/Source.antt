-- ===== src/Desk/Source.antt =====
-- packages/backend/signing-layer/src/vaultEventSource.ts: where the signing layer reads the bets, from the
-- index of the proof relay or from the chain; and the routes of packages/backend/proof-relay/src/api.ts
-- that serve the index. `Relay` is what the relay answers to each request, none where the request
-- fails, and `ChainReads` what the chain does; the URL of the relay is set or not.
pub mod Ordered
pub mod Ranges
pub mod Served
use polyshield.Common.{ℕ, Bool, true, false, Option, none, some, List, [], ◌∷◌, if◌then◌else◌, map}
use polyshield.EventIndex.{Args, Row, VaultLog, Index, bet_authorized, is_ready}
use polyshield.EventIndex.Reads.{bet_authorized_events, resolved_market_ids}
use polyshield.Attest.Store.{Signer}
use polyshield.Desk.{Desk}
use polyshield.Desk.Listener.{BetRecord, Answers}
use polyshield.Desk.Scan.{Scanned, catch_up_missed_bets}

-- /index-head with its fields ready and head, /bet-authorized with its events, none where the field is
-- missing, and /resolved-markets with its ids, none where they are no array.
pub record Relay : Type 0 where
  pub head : Option (Bool × Option ℕ)
  pub bets : ℕ → ℕ → Option (Option (List Row))
  pub resolved : Option (Option (List ℕ))

-- getBlockNumber, queryFilterChunked with the filter of BetAuthorized, and parseLog.
pub record ChainReads : Type 0 where
  pub block_number : Option ℕ
  pub query : ℕ → ℕ → Option (List VaultLog)
  pub parse : VaultLog → Option Args

-- The fields of both kinds of record; none for the arguments of another event.
abbrev pub record_of : Args → Option BetRecord
record_of (bet_authorized n market position shares amount price side c pf rf) = some (record {
  nullifier = n;
  market_id = market;
  position_id = position;
  outcome_side = some side;
  expected_shares = shares;
  bet_amount = amount;
  price = price;
})
record_of _ = none

abbrev pub cons_record : Option BetRecord → Option (List BetRecord) → Option (List BetRecord)
cons_record (some r) (some rs) = some (r ∷ rs)
cons_record _ _ = none

-- recordFromIndex over the events; BigInt throws where a field is missing.
unfoldable pub records_from_index : List Row → Option (List BetRecord)
records_from_index [] = some []
records_from_index (r ∷ rs) = cons_record (record_of r.args) (records_from_index rs)

abbrev pub parsed_record : Option Args → Option BetRecord
parsed_record none = none
parsed_record (some args) = record_of args

abbrev pub keep_record : Option BetRecord → List BetRecord → List BetRecord
keep_record none rs = rs
keep_record (some r) rs = r ∷ rs

-- recordsFromChainLogs
unfoldable pub records_from_chain_logs : ChainReads → List VaultLog → List BetRecord
records_from_chain_logs chain [] = []
records_from_chain_logs chain (l ∷ ls) =
    keep_record (parsed_record (chain.parse l)) (records_from_chain_logs chain ls)

abbrev pub ready_head : Option (Bool × Option ℕ) → Option ℕ
ready_head (some (true, head)) = head
ready_head _ = none

-- indexHead
unfoldable pub index_head : Bool → Relay → Option ℕ
index_head url_set relay = if url_set then ready_head relay.head else none

abbrev pub answered_ids : Option (Option (List ℕ)) → Option (List ℕ)
answered_ids (some ids) = ids
answered_ids none = none

-- fetchResolvedMarkets
unfoldable pub fetch_resolved_markets : Bool → Relay → Option (List ℕ)
fetch_resolved_markets url_set relay = if url_set then answered_ids relay.resolved else none

pub data Source : Type 0 where
  from_index from_chain : Source

abbrev pub prefers_index : Source → Bool
prefers_index from_index = true
prefers_index from_chain = false

abbrev pub chain_head : Option ℕ → Option (ℕ × Source)
chain_head none = none
chain_head (some head) = some (head, from_chain)

abbrev pub head_or_chain : ChainReads → Option ℕ → Option (ℕ × Source)
head_or_chain chain (some head) = some (head, from_index)
head_or_chain chain none = chain_head chain.block_number

-- scanHead
unfoldable pub scan_head : Bool → Relay → ChainReads → Option (ℕ × Source)
scan_head url_set relay chain = head_or_chain chain (index_head url_set relay)

abbrev pub chain_records : ChainReads → Option (List VaultLog) → Option (List BetRecord × Source)
chain_records chain none = none
chain_records chain (some ls) = some (records_from_chain_logs chain ls, from_chain)

abbrev pub served_records : Option (Option (List Row)) → Option (List BetRecord)
served_records none = none
served_records (some none) = some []
served_records (some (some rows)) = records_from_index rows

abbrev pub or_chain :
    Option (List BetRecord) → Option (List BetRecord × Source) → Option (List BetRecord × Source)
or_chain (some rs) scanned = some (rs, from_index)
or_chain none scanned = scanned

-- fetchBetAuthorized: the index if it is preferred and answers, and the chain else.
unfoldable pub fetch_bet_authorized :
    Bool → Relay → ChainReads → Bool → ℕ → ℕ → Option (List BetRecord × Source)
fetch_bet_authorized url_set relay chain prefer from to =
    let scanned = chain_records chain (chain.query from to) in
    if prefer
    then if url_set then or_chain (served_records (relay.bets from to)) scanned else scanned
    else scanned

abbrev pub records_only : Option (List BetRecord × Source) → Option (List BetRecord)
records_only none = none
records_only (some (rs, source)) = some rs

abbrev pub scan_to : ChainReads → ℕ → Option ℕ → Option (List BetRecord)
scan_to chain from none = none
scan_to chain from (some latest) = records_only (chain_records chain (chain.query from latest))

abbrev pub all_from : Relay → ChainReads → ℕ → Option ℕ → Option (List BetRecord)
all_from relay chain from none = scan_to chain from chain.block_number
all_from relay chain from (some head) = records_only (
    or_chain (served_records (relay.bets from head)) (elim (scan_to chain from chain.block_number) [
      | none ↦ none
      | some rs ↦ some (rs, from_chain)
    ]))

-- fetchAllBetAuthorized
unfoldable pub fetch_all_bet_authorized : Bool → Relay → ChainReads → ℕ → Option (List BetRecord)
fetch_all_bet_authorized url_set relay chain from =
    all_from relay chain from (index_head url_set relay)

-- The routes /index-head, /bet-authorized and /resolved-markets; a status of 503 fails the request.
unfoldable pub serve : Index → Relay
serve x = record {
  head = if is_ready x then some (true, some x.last_block) else none;
  bets = λ from to. if is_ready x then some (some (bet_authorized_events from to x)) else none;
  resolved = if is_ready x then some (some (resolved_market_ids x)) else none;
}

-- catchUpMissedBets over the source: `answer` is what the chain, the registry, the funding and the CLOB
-- answer for a record.
module _ (domain_set : Bool) (sign : Signer) (mock : Bool) (window : ℕ)
    (answer : BetRecord → Answers) where
  abbrev pub with_answers : Option (List BetRecord × Source) → Option (List (BetRecord × Answers))
  with_answers none = none
  with_answers (some (rs, source)) = some (map (λ r. (r, answer r)) rs)

  abbrev pub listen_to :
      Bool → Relay → ChainReads → ℕ → Option ℕ → ℕ → Desk → Option (ℕ × Source) → Scanned
  listen_to url_set relay chain deploy override last d none =
      catch_up_missed_bets domain_set sign mock window (λ a b. none) deploy override none last d
  listen_to url_set relay chain deploy override last d (some (head, source)) =
      catch_up_missed_bets domain_set sign mock window
        (λ a b. with_answers (fetch_bet_authorized url_set relay chain (prefers_index source) a b))
        deploy override (some head) last d

  unfoldable pub listen : Bool → Relay → ChainReads → ℕ → Option ℕ → ℕ → Desk → Scanned
  listen url_set relay chain deploy override last d =
      listen_to url_set relay chain deploy override last d (scan_head url_set relay chain)
