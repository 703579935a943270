-- ===== src/Examples/SourceRuns.antt =====
-- The listener over the event index at concrete inputs: packages/backend/signing-layer/src/vaultEventSource.ts
-- and packages/backend/proof-relay/src/eventIndex.ts.
use polyshield.Attest.Terminal.{attest_terminal, terminal_report, buy_report}
use polyshield.Desk.Submit.{
  submit_fak_order, mark_submitting, post_fak, post_buy, settle_fak, keep_order_id, response_fill,
}
use polyshield.Signing.TokenBinding.{decide_buy_token}
use polyshield.Tracker.{is_order_tracked, get_tracked_order, first_of_bet}
use polyshield.Attest.Store.{
  get_attestation, read_outcome_row, sign_and_store, read_slot, commit, insert_row, read_typed_row,
}
use polyshield.Common.{
  ℕ, zero, suc, ◌-◌, true, false, none, some, List, [], ◌∷◌, ◌≡◌, ◌==◌, refl, blocks, ap, arith,
}
use polyshield.Desk.{
  started_at, is_halted, upsert_tracked_market, get_limit_order, find_intent, with_store,
}
use polyshield.Desk.Listener.{
  handle_bet_record, is_handled, BetRecord, Answers, handle_all, process_bet_event, set_in_flight,
}
use polyshield.Desk.Scan.{done, forward_from}
use polyshield.Desk.Source.{
  Relay, ChainReads, serve, listen, fetch_bet_authorized, fetch_all_bet_authorized, from_chain,
  fetch_resolved_markets, records_from_chain_logs, index_head, scan_head,
}
use polyshield.Desk.Source.Served.{index_feeds_listener, bets_at}
use polyshield.Desk.Source.Ordered.{bets_of}
use polyshield.EventIndex.{
  Args, bet_authorized, Row, Rpc, IndexConfig, VaultLog, decode, window_logs, new_index, catch_up,
}
use polyshield.Examples.DeskRuns.{signer, empty_desk, answers, matched, bet_of}

abbrev cfg : IndexConfig
cfg = record { confirmations = 3; scan_window = 1; vault_address = 7; has_name = λ t. t == 1 }

-- Each block has one bet.
abbrev log_at : ℕ → VaultLog
log_at b = record { address = 7; topic = 1; block = b; log_index = 0; tx_hash = b; body = b }

abbrev args_at : ℕ → Args
args_at b = bet_authorized b 6 5 5_000_000 2_000_000 40_000_000 1 0 0 0

abbrev row_at : ℕ → Row
row_at b = record { block = b; log_index = 0; tx_hash = b; block_ts = none; args = args_at b }

abbrev logs_at : ℕ → List VaultLog
logs_at b = log_at b ∷ []

abbrev rows_at : ℕ → List Row
rows_at b = row_at b ∷ []

abbrev rpc : Rpc
rpc = record {
  head = some 14;
  combined = λ a b. some none;
  scan = λ a b. some (blocks logs_at a (suc b - a));
  timestamp = λ b. none;
  parse_log = λ l. some (args_at l.body);
}

decode-blocks : (a n : ℕ) → decode cfg rpc (blocks logs_at a n) ≡ blocks rows_at a n
unfolding decode
decode-blocks a zero = refl
decode-blocks a (suc n) = ap (λ l. row_at a ∷ l) (decode-blocks (suc a) n)

honest :
    (a b : ℕ)
    → (ls : List VaultLog) × (window_logs cfg rpc a b ≡ some ls)
      × (decode cfg rpc ls ≡ blocks rows_at a (suc b - a))
unfolding window_logs
honest a b = (blocks logs_at a (suc b - a), refl, decode-blocks a (suc b - a))

abbrev chain : ChainReads
chain = record {
  block_number = some 14;
  query = λ a b. some (blocks logs_at a (suc b - a));
  parse = λ l. some (args_at l.body);
}

abbrev heard : ℕ → List (BetRecord × Answers)
heard = bets_at true signer false 2 (λ r. answers matched) chain rows_at

not_halted :
    is_halted (
      handle_all true signer false
        (blocks heard (forward_from 10 11 0) (suc 11 - forward_from 10 11 0))
        empty_desk)
    ≡ false
unfolding is_halted handle_bet_record is_handled get_attestation read_outcome_row started_at
    is_order_tracked get_tracked_order first_of_bet process_bet_event decide_buy_token
    upsert_tracked_market get_limit_order find_intent set_in_flight submit_fak_order mark_submitting
    post_fak post_buy settle_fak keep_order_id response_fill with_store handle_all forward_from
    bets_of attest_terminal terminal_report sign_and_store read_slot buy_report commit insert_row
    read_typed_row
not_halted = refl

index_feeds_listener_example :
    listen true signer false 2
      (λ r. answers matched)
      true
      (serve (catch_up cfg rpc (new_index 10 true [] none)).0)
      chain
      10
      none
      0
      empty_desk
    ≡ record {
      desk =
          handle_all true signer false
            (blocks heard (forward_from 10 11 0) (suc 11 - forward_from 10 11 0))
            empty_desk;
      last_block = 11;
      ended = done;
    }
index_feeds_listener_example =
    index_feeds_listener true signer false 2 (λ r. answers matched) chain rows_at cfg rpc 10 14 11 0
      empty_desk refl refl honest (λ b. ((refl, tt), (tt, tt))) (tt, ((refl, tt), tt)) (omega arith)
      (omega arith) (omega arith) (omega arith) not_halted

-- A relay that fails leaves the listener with the chain.
abbrev down : Relay
down = record { head = none; bets = λ a b. none; resolved = none }

falls_back : fetch_bet_authorized true down chain true 12 12 ≡ some (bet_of 12 ∷ [], from_chain)
unfolding fetch_bet_authorized records_from_chain_logs
falls_back = refl

all_from_chain : fetch_all_bet_authorized true down chain 13 ≡ some (bet_of 13 ∷ bet_of 14 ∷ [])
unfolding fetch_all_bet_authorized index_head records_from_chain_logs
all_from_chain = refl

no_head : scan_head true down chain ≡ some (14, from_chain)
unfolding scan_head index_head
no_head = refl

no_ids : fetch_resolved_markets true down ≡ none
unfolding fetch_resolved_markets
no_ids = refl
