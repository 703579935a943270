-- ===== src/Examples/TrackerRuns.antt =====
-- The fill tracker (packages/backend/signing-layer/src/wsFillTracker.ts) at concrete inputs.
use polyshield.Tracker.Resume.{start_resumes}
use polyshield.Common.{◌≡◌, ℕ, ◌+◌, true, none, some, List, [], ◌∷◌, refl, false}
use polyshield.Attest.Store.{Attestation, Signer, filled, failed, get_attestation, read_outcome_row}
use polyshield.Attest.Terminal.{buy, sell, Side}
use polyshield.Attest.SingleWrite.{IsSingle}
use polyshield.Signing.MarketOrders.{live}
use polyshield.Tracker.{
  Tracker, TrackedOrder, Message, track_order, finalize, get_tracked_order, first_of_bet,
  already_attested, find_order, start_fill_tracker,
}
use polyshield.Tracker.Cancel.{Client, finalized, cancel_tracked_order}
use polyshield.Tracker.Steps.{Action, track, message, resolve, cancel, run}
use polyshield.Tracker.SingleWrite.{run-IsSingle}
use polyshield.Tracker.Finalize.{finalized_bet_drops_close, live_cancel_attests_failed}

abbrev signer : Signer
signer n rt a b = some (n + a + b)

abbrev order : ℕ → ℕ → Side → TrackedOrder
order n id side = record {
  nullifier = n;
  order_id = id;
  condition_id = 8;
  token_id = 77;
  expected_shares = 5_000_000;
  bet_amount = 2_000_000;
  price = 40_000_000;
  side = side;
  sell_limit_price = 600_000;
  taker_fee_usd = 0;
}

abbrev filled_row : Attestation
filled_row = record {
  nullifier = 4;
  report_type = filled;
  amount_a = 0;
  amount_b = 0;
  signature = 4;
}

-- One bet rests on the book, and another one is filled.
abbrev resting : Tracker
resting = record {
  by_order_id = order 3 90 buy ∷ [];
  finalized = [];
  has_wallet = true;
  table = order 3 90 buy ∷ [];
  store = filled_row ∷ [];
}

abbrev full_fill : Message
full_fill = record {
  event_type = "order";
  kind = "";
  status = "matched";
  order_id = some 90;
  asset_id = none;
  size_matched = some 5_000_000;
  filled_shares = none;
  spent_amount = none;
}

abbrev actions : List Action
actions =
    message full_fill
    ∷ track (order 4 91 sell)
    ∷ message full_fill
    ∷ cancel 3 none none
    ∷ resolve 8
    ∷ []

run-IsSingle_example : IsSingle (run true signer actions resting).store
run-IsSingle_example = run-IsSingle true signer actions resting (refl, tt)

finalized_bet_drops_close_example :
    track_order
      (order 3 92 sell)
      (finalize true signer (order 3 90 buy) 5_000_000 2_000_000 resting)
    ≡ finalize true signer (order 3 90 buy) 5_000_000 2_000_000 resting
finalized_bet_drops_close_example =
    finalized_bet_drops_close true signer (order 3 90 buy) (order 3 92 sell) 5_000_000 2_000_000
      resting refl refl

abbrev still_live : Client
still_live = record { order = live; trades = some (0, 0) }

live_cancel_attests_failed_example :
    let (reply, t) = cancel_tracked_order true signer 3 (some still_live) none resting in
    (reply ≡ finalized)
    × (get_attestation 3 none t.store
        ≡ some (record {
          nullifier = 3;
          report_type = failed;
          amount_a = 0;
          amount_b = 0;
          signature = 3;
        }))
unfolding get_tracked_order first_of_bet get_attestation read_outcome_row
live_cancel_attests_failed_example =
    live_cancel_attests_failed signer (order 3 90 buy) none resting 3 refl refl refl refl refl

-- A restart with a resting order and one that was attested before the stop.
abbrev stopped : Tracker
stopped = record resting {
  by_order_id = [];
  has_wallet = false;
  table = order 4 91 buy ∷ order 3 90 buy ∷ [];
}

start_resumes_example :
    find_order 90 (start_fill_tracker stopped).by_order_id ≡ some (order 3 90 buy)
unfolding already_attested get_attestation read_outcome_row
start_resumes_example = start_resumes (order 4 91 buy ∷ []) [] (order 3 90 buy) stopped refl tt refl
