-- ===== src/Examples/DeskRuns.antt =====
-- The signing layer's desk (packages/backend/signing-layer/src) at concrete inputs.
use polyshield.Desk.Once.Reconciled.{IsReconciled}
use polyshield.Signing.MarketOrders.{reconcile_market_submission, attest_failed_for}
use polyshield.Attest.Terminal.{terminal_report, attest_terminal, buy_report}
use polyshield.Common.{
  ℕ, ◌+◌, ◌-◌, ◌≡◌, true, false, none, some, List, [], ◌∷◌, refl, ◌==◌, blocks, arith, max, suc,
  if◌then◌else◌, ◌≤◌, ◌⊎◌,
}
use polyshield.Attest.Store.{
  sign_and_store, get_market_submission, mark_market_submitting, insert_row, set_market_order_id,
  commit, read_typed_row, read_slot, Signer, Attestation, sold, filled, failed, get_attestation,
  read_outcome_row, MarketSubmission,
}
use polyshield.Attest.Refines.{Request, call_all, replay, view, call_all-refines-replay}
use polyshield.Signing.TokenBinding.{registry, decide_buy_token}
use polyshield.Tracker.{
  resume, start_fill_tracker, mem, is_order_tracked, get_tracked_order, first_of_bet,
}
use polyshield.Desk.{
  get_limit_order, with_store, check_response, find_intent, is_actively_submitting, Desk, is_halted,
  restart, started_at, upsert_tracked_market,
}
use polyshield.Desk.Submit.{
  mark_submitting, keep_order_id, post_fak, settle_fak, post_buy, BetEvent, OrderResponse,
  PostReply, no_client, threw, answered, submit_fak_order, submit_limit_order, response_fill,
  is_explicit_miss,
}
use polyshield.Desk.Listener.{
  set_in_flight, BetRecord, Answers, handle_bet_record, handle_all, is_handled, process_bet_event,
}
use polyshield.Desk.Scan.{forward_from, catch_up_missed_bets, done, Fetch}
use polyshield.Desk.Scan.Coverage.{catch_up_covers}
use polyshield.Desk.Sell.{CloseRequest, SellAnswers}
use polyshield.Desk.Routes.{CancelAnswers, cancel_bet, attested_failed, close_request}
use polyshield.Desk.Runs.{Move, handle, start_again, bet, run, step, handle_event}
use polyshield.Desk.Once.{IsSound}
use polyshield.Desk.Once.Marked.{run-IsSound, cancel_bet_spares_posted}
use polyshield.Desk.Outcomes.{fak_fails_only_on_miss}
use polyshield.Desk.Closes.{close_request_keeps_outcomes}
use polyshield.Desk.Gaps.{live_limit_attested_failed, restart_posts_again}

abbrev pub signer : Signer
signer n rt a b = some (n + a + b)

-- Three requests for one bet, the second of which loses, and a sale.
abbrev requests : List Request
requests =
    record { nullifier = 3; report_type = filled; amount_a = 0; amount_b = 0 }
    ∷ record { nullifier = 3; report_type = failed; amount_a = 0; amount_b = 0 }
    ∷ record { nullifier = 3; report_type = sold; amount_a = 40; amount_b = 20 }
    ∷ []

call_all-refines-replay_example :
    ((call_all signer requests []).0 ≡ (replay signer requests (view [])).0)
    × (view (call_all signer requests []).1 ≡ (replay signer requests (view [])).1)
call_all-refines-replay_example = call_all-refines-replay signer requests []

abbrev pub empty_desk : Desk
empty_desk = record {
  tracker = record { by_order_id = []; finalized = []; has_wallet = true; table = []; store = [] };
  submissions = [];
  resting = [];
  intents = [];
  markets = [];
  in_flight = [];
  halted = false;
  posted = [];
  fak_posted = [];
}

abbrev pub bet_of : ℕ → BetRecord
bet_of n = record {
  nullifier = n;
  market_id = 6;
  position_id = 5;
  outcome_side = some 1;
  expected_shares = 5_000_000;
  bet_amount = 2_000_000;
  price = 40_000_000;
}

abbrev response : OrderResponse
response = record {
  status = "";
  is_http_error = false;
  order_id = none;
  filled_shares = none;
  spent_amount = none;
  taking_amount = none;
  making_amount = none;
  size_matched = none;
  error_miss = false;
  error_not_filled = false;
  error_rejects = false;
}

abbrev pub answers : PostReply → Answers
answers reply = record {
  on_chain = some 6;
  now = 1_000_000;
  resolved = some (record { token_id = 77; condition_id = 8 });
  end_date = none;
  funded = true;
  reply = reply;
  fee = 0;
}

abbrev no_answers : CancelAnswers
no_answers = record { client = none; later = none; order = none; committed = none }

abbrev pub matched : PostReply
matched = answered 5_000_000 (record response {
  status = "matched";
  taking_amount = some 5_000_000;
  making_amount = some 2_000_000;
})

-- A bet is traded and filled, one whose POST throws is seen again, and the process starts again.
abbrev moves : List Move
moves =
    handle (bet (bet_of 3) (answers matched))
    ∷ handle (bet (bet_of 4) (answers (threw none)))
    ∷ handle (bet (bet_of 4) (answers (threw none)))
    ∷ start_again
    ∷ handle (bet (bet_of 5) (answers no_client))
    ∷ []

run-IsSound_example : IsSound (run true signer false moves empty_desk)
run-IsSound_example =
    run-IsSound true signer false moves empty_desk
      ((λ n h. absurd (cc (h))), tt, λ n h. absurd (cc (h)))

-- The POST of bet 4 threw, and its marker is 1,000 seconds old.
abbrev stale_row : Attestation
stale_row = record {
  nullifier = 4;
  report_type = failed;
  amount_a = 0;
  amount_b = 0;
  signature = 4;
}

cancel_bet_spares_posted_example :
    let d = run true signer false moves empty_desk in
    (mem 4 d.fak_posted ≡ false)
    ⊎ ((sub : MarketSubmission) × (get_market_submission 4 d.submissions ≡ some sub)
        × IsReconciled 2_000 none sub)
unfolding run step is_halted handle_event handle_bet_record is_handled get_attestation
    read_outcome_row started_at is_order_tracked get_tracked_order first_of_bet process_bet_event
    decide_buy_token upsert_tracked_market get_limit_order find_intent set_in_flight
    submit_fak_order mark_submitting mark_market_submitting check_response post_fak post_buy
    settle_fak keep_order_id set_market_order_id response_fill with_store attest_terminal
    terminal_report buy_report sign_and_store read_slot commit insert_row read_typed_row restart
    start_fill_tracker resume cancel_bet is_actively_submitting get_market_submission
    reconcile_market_submission attest_failed_for
cancel_bet_spares_posted_example =
    cancel_bet_spares_posted true signer false moves empty_desk 2_000_000 2_000 4 no_answers
      stale_row refl refl refl refl refl

abbrev event : BetEvent
event = record {
  nullifier = 3;
  market_id = 8;
  position_id = 77;
  expected_shares = 5_000_000;
  bet_amount = 2_000_000;
  price = 40_000_000;
}

abbrev missed : OrderResponse
missed = record response { status = "unmatched" }

abbrev failed_row : Attestation
failed_row = record {
  nullifier = 3;
  report_type = failed;
  amount_a = 0;
  amount_b = 0;
  signature = 3;
}

fak_fails_only_on_miss_example :
    (size : ℕ) × (r : OrderResponse) × (◌≡◌ {A = PostReply}
      (answered 5_000_000 missed)
      (answered size r))
    × ((response_fill 40_000_000 r).0 ≡ 0)
    × (is_explicit_miss r ≡ true)
unfolding is_halted get_attestation read_outcome_row submit_fak_order mark_submitting post_fak
    post_buy settle_fak keep_order_id response_fill is_explicit_miss with_store attest_terminal
    terminal_report buy_report sign_and_store read_slot commit insert_row read_typed_row
fak_fails_only_on_miss_example =
    fak_fails_only_on_miss true signer 1_000_000 event (answered 5_000_000 missed) empty_desk
      failed_row refl refl refl refl

abbrev close_all : CloseRequest
close_all = record {
  nullifier_of_bet = 3;
  position_id = 5;
  sold_shares = 5_000_000;
  limit_price = 300_000;
}

abbrev sell_answers : SellAnswers
sell_answers = record {
  bet = some (record {
    outcome_side = some 1;
    resolved = some (record { token_id = 77; condition_id = 8 });
  });
  best_bid = some 350_000;
  reply = answered 0 (record response { status = "matched"; making_amount = some 2_000_000 });
  confirmed = false;
  fee = 10_000;
}

close_request_keeps_outcomes_example :
    get_attestation 3 none
      (close_request true signer false none close_all sell_answers empty_desk).1.tracker.store
    ≡ get_attestation 3 none empty_desk.tracker.store
close_request_keeps_outcomes_example =
    close_request_keeps_outcomes true signer false none close_all sell_answers 3 empty_desk

abbrev live : OrderResponse
live = record response { status = "live" }

live_limit_attested_failed_example :
    let d' = submit_limit_order true signer false event true (answered 0 live) 0 empty_desk in
    let (outcome, d'') = cancel_bet true signer false 2_000_000 2_000 3 no_answers d' in
    (get_attestation 3 none d'.tracker.store ≡ none)
    × (outcome ≡ attested_failed)
    × (get_attestation 3 none d''.tracker.store ≡ some failed_row)
unfolding is_halted get_attestation read_outcome_row started_at is_order_tracked get_tracked_order
    first_of_bet is_actively_submitting get_market_submission
live_limit_attested_failed_example =
    live_limit_attested_failed signer false event 0 live 0 2_000_000 2_000 no_answers empty_desk 3
      refl refl refl refl refl refl refl refl

-- The bet 4 was posted, and the process is down before an answer came.
abbrev interrupted : Desk
interrupted = run true signer false (handle (bet (bet_of 4) (answers (threw none))) ∷ []) empty_desk

restart_posts_again_example :
    (handle_bet_record true signer false
      (bet_of 4)
      (answers matched)
      (restart interrupted)).fak_posted
    ≡ 4 ∷ 4 ∷ []
unfolding run step is_halted handle_event handle_bet_record is_handled get_attestation
    read_outcome_row started_at is_order_tracked get_tracked_order first_of_bet process_bet_event
    decide_buy_token upsert_tracked_market get_limit_order find_intent set_in_flight
    submit_fak_order mark_submitting check_response post_fak post_buy restart start_fill_tracker
    resume
restart_posts_again_example =
    restart_posts_again true signer false (bet_of 4) (answers matched) interrupted 77 8 6 5_000_000
      registry
      (record response {
        status = "matched";
        taking_amount = some 5_000_000;
        making_amount = some 2_000_000;
      })
      refl refl refl refl refl refl refl refl

-- One bet in block 12, and none in the others.
abbrev records_of : ℕ → List (BetRecord × Answers)
records_of block = if block == 12 then (bet_of 3, answers matched) ∷ [] else []

abbrev fetch : Fetch
fetch from to = some (blocks records_of from (suc to - from))

catch_up_covers_example :
    (forward_from 10 14 0 ≤ max 10 0)
    × (catch_up_missed_bets true signer false 2 fetch 10 none (some 14) 0 empty_desk ≡ record {
      desk =
          handle_all true signer false
            (blocks records_of (forward_from 10 14 0) (suc 14 - forward_from 10 14 0))
            empty_desk;
      last_block = 14;
      ended = done;
    })
unfolding is_halted handle_bet_record is_handled get_attestation read_outcome_row started_at
    is_order_tracked get_tracked_order first_of_bet process_bet_event decide_buy_token
    upsert_tracked_market get_limit_order find_intent set_in_flight submit_fak_order mark_submitting
    post_fak post_buy settle_fak keep_order_id response_fill with_store handle_all forward_from
catch_up_covers_example =
    catch_up_covers true signer false 2 fetch records_of 10 14 0 empty_desk (λ a b lo hi. refl)
      (omega arith) (omega arith) refl
