-- ===== src/Desk.antt =====
-- The signing layer's desk, packages/backend/signing-layer/src: its tables and memory, with
-- circuitBreaker.ts, limitOrderStore.ts and trackedMarkets.ts. Hexadecimal ids are opaque numbers,
-- so the lower case that trackedMarkets.ts writes them in is left out, and so are the created_at
-- columns, which nothing reads. Times are milliseconds where Date.now() is not divided.
pub mod Submit
pub mod Listener
pub mod Sell
pub mod Routes
pub mod Scan
pub mod Source
pub mod Runs
pub mod Once
pub mod Outcomes
pub mod Closes
pub mod Gaps
use polyshield.Common.{
  ℕ, ◌-◌, ◌/◌, Bool, true, false, Option, none, some, List, [], ◌∷◌, if◌then◌else◌, ◌==◌, ltb, map,
}
use polyshield.Attest.Store.{Store, Signer, MarketSubmission}
use polyshield.Tracker.{Tracker, start_fill_tracker}

pub data OrderType : Type 0 where
  gtc gtd fak : OrderType

-- interface LimitOrderIntent
pub record Intent : Type 0 where
  pub nullifier : ℕ
  pub order_type : OrderType
  pub expiration : ℕ

pub record TrackedMarket : Type 0 where
  pub reduced_key : ℕ
  pub raw_condition_id : ℕ
  pub end_date : Option ℕ

-- The fill tracker with the attestations, the tables market_submissions, resting_orders, limit_orders
-- and tracked_markets, the listener's map inFlight, and the breaker. The last two
-- fields are the trace of what was handed to the CLOB: `posted` has the bets whose BUY order this
-- process posted or may have posted, and `fak_posted` those that any process posted as a FAK.
pub record Desk : Type 0 where
  pub tracker : Tracker
  pub submissions : List MarketSubmission
  pub resting : List ℕ
  pub intents : List Intent
  pub markets : List TrackedMarket
  pub in_flight : List (ℕ × ℕ)
  pub halted : Bool
  pub posted : List ℕ
  pub fak_posted : List ℕ

-- isHalted
unfoldable pub is_halted : Desk → Bool
is_halted d = d.halted

unfoldable pub with_store : (Store → Store) → Desk → Desk
with_store f d = record d { tracker = record d.tracker { store = f d.tracker.store } }

-- checkResponse with the HTTP status alone, as the order paths call it; halt exits the process.
unfoldable pub check_response : Option ℕ → Desk → Desk
check_response none d = d
check_response (some status) d = if status == 403 then record d { halted = true } else d

-- The start of the process, bootstrap in index.ts: the tables are kept and the memory is empty, and the
-- fill tracker resumes its orders before the listener has a record.
unfoldable pub restart : Desk → Desk
restart d = record d {
  tracker =
      start_fill_tracker
        (record d.tracker { by_order_id = []; finalized = []; has_wallet = false });
  in_flight = [];
  halted = false;
  posted = [];
}

-- recordLimitOrder
unfoldable pub put_intent : Intent → List Intent → List Intent
put_intent i [] = i ∷ []
put_intent i (j ∷ js) = if j.nullifier == i.nullifier then i ∷ js else j ∷ put_intent i js

unfoldable pub record_limit_order : Intent → Desk → Desk
record_limit_order i d = record d { intents = put_intent i d.intents }

unfoldable pub find_intent : ℕ → List Intent → Option Intent
find_intent n [] = none
find_intent n (i ∷ is) = if i.nullifier == n then some i else find_intent n is

unfoldable pub get_limit_order : ℕ → Desk → Option Intent
get_limit_order n d = find_intent n d.intents

-- COALESCE(excluded.end_date, tracked_markets.end_date)
abbrev pub coalesce : Option ℕ → Option ℕ → Option ℕ
coalesce none old = old
coalesce (some new) old = some new

unfoldable pub put_market : ℕ → ℕ → Option ℕ → List TrackedMarket → List TrackedMarket
put_market key raw end_date [] =
    record { reduced_key = key; raw_condition_id = raw; end_date = end_date } ∷ []
put_market key raw end_date (m ∷ ms) =
    if m.reduced_key == key
    then record {
      reduced_key = m.reduced_key;
      raw_condition_id = raw;
      end_date = coalesce end_date m.end_date;
    }
      ∷ ms
    else m ∷ put_market key raw end_date ms

unfoldable pub upsert_tracked_market : ℕ → ℕ → Option ℕ → Desk → Desk
upsert_tracked_market key raw end_date d = record d {
  markets = put_market key raw end_date d.markets;
}

-- inFlight.get, and isBetInFlight
unfoldable pub started_at : ℕ → List (ℕ × ℕ) → Option ℕ
started_at n [] = none
started_at n ((m, at) ∷ es) = if m == n then some at else started_at n es

-- ACTIVE_SUBMIT_WINDOW_MS
abbrev pub active_submit_window_ms : ℕ
active_submit_window_ms = 120_000

abbrev pub is_recent : ℕ → Option ℕ → Bool
is_recent now none = false
is_recent now (some at) = ltb (now - at) active_submit_window_ms

unfoldable pub is_actively_submitting : ℕ → ℕ → Desk → Bool
is_actively_submitting now n d = is_recent now (started_at n d.in_flight)
