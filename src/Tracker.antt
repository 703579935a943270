-- ===== src/Tracker.antt =====
-- packages/backend/signing-layer/src/wsFillTracker.ts: the orders that rest on the book, and how each
-- comes to its one attestation. Ids are opaque numbers. The texts of a message are in lower case, "" if
-- missing; its numbers, and those of the CLOB, are given as the integers scaled by 1e6 that the code
-- rounds them to. A call of finalize, up to its attestation, is one step. The socket, its timers and
-- its reconnects are left out: they decide when a step is made, and a run is any list of steps.
pub mod Cancel
pub mod Steps
pub mod Finalize
pub mod Resume
pub mod SingleWrite
use text.Mathlib.Text.{◌==◌ as str_eq}
use Prim.Native.String.{String}
use polyshield.Common.{
  ℕ, ◌+◌, ◌-◌, ◌*◌, ◌/◌, ◌%◌, Bool, true, false, Option, none, some, List, [], ◌∷◌, ◌&&◌, ◌||◌, not,
  if◌then◌else◌, ◌==◌, ltb, is_some,
}
use polyshield.Attest.Store.{sold, Store, Signer, get_attestation}
use polyshield.Attest.Terminal.{Side, buy, sell, attest_terminal}

-- interface TrackedOrder, less orderType and expiration, which nothing here reads.
pub record TrackedOrder : Type 0 where
  pub nullifier : ℕ
  pub order_id : ℕ
  pub condition_id : ℕ
  pub token_id : ℕ
  pub expected_shares : ℕ
  pub bet_amount : ℕ
  pub price : ℕ
  pub side : Side
  pub sell_limit_price : ℕ
  pub taker_fee_usd : ℕ

-- The module's variables, the table tracked_orders, and the attestations.
pub record Tracker : Type 0 where
  pub by_order_id : List TrackedOrder
  pub finalized : List ℕ
  pub has_wallet : Bool
  pub table : List TrackedOrder
  pub store : Store

abbrev pub mem : ℕ → List ℕ → Bool
mem n [] = false
mem n (m ∷ ms) = m == n || mem n ms

-- Map.set and Map.delete on byOrderId, and Map.get
unfoldable pub set_order : TrackedOrder → List TrackedOrder → List TrackedOrder
set_order o [] = o ∷ []
set_order o (p ∷ ps) = if p.order_id == o.order_id then o ∷ ps else p ∷ set_order o ps

unfoldable pub delete_order : ℕ → List TrackedOrder → List TrackedOrder
delete_order id [] = []
delete_order id (p ∷ ps) = if p.order_id == id then delete_order id ps else p ∷ delete_order id ps

unfoldable pub find_order : ℕ → List TrackedOrder → Option TrackedOrder
find_order id [] = none
find_order id (p ∷ ps) = if p.order_id == id then some p else find_order id ps

-- persist and unpersist
unfoldable pub persist : TrackedOrder → List TrackedOrder → List TrackedOrder
persist o [] = o ∷ []
persist o (p ∷ ps) = if p.nullifier == o.nullifier then o ∷ ps else p ∷ persist o ps

unfoldable pub unpersist : ℕ → List TrackedOrder → List TrackedOrder
unpersist n [] = []
unpersist n (p ∷ ps) = if p.nullifier == n then unpersist n ps else p ∷ unpersist n ps

unfoldable pub already_attested : Side → ℕ → Store → Bool
already_attested sell n store = is_some (get_attestation n (some sold) store)
already_attested buy n store = is_some (get_attestation n none store)

-- BN254_P and sameMarket
abbrev pub bn254_p : ℕ
bn254_p = 0x30644e72e131a029b85045b68181585d2833e84879b9709143e1f593f0000001

unfoldable pub same_market : ℕ → ℕ → Bool
same_market a b = a % bn254_p == b % bn254_p

-- The loop of startFillTracker over the persisted rows.
unfoldable pub resume : List TrackedOrder → Tracker → Tracker
resume [] t = t
resume (o ∷ os) t = resume os (
    if already_attested o.side o.nullifier t.store
    then record t { table = unpersist o.nullifier t.table; finalized = o.nullifier ∷ t.finalized }
    else record t { by_order_id = set_order o t.by_order_id })

unfoldable pub start_fill_tracker : Tracker → Tracker
start_fill_tracker t = resume t.table (record t { has_wallet = true })

-- trackOrder, up to its subscription and its first reconcile
unfoldable pub track_order : TrackedOrder → Tracker → Tracker
track_order o t =
    if mem o.nullifier t.finalized || already_attested o.side o.nullifier t.store
    then t
    else record t { table = persist o t.table; by_order_id = set_order o t.by_order_id }

unfoldable pub first_of_bet : ℕ → List TrackedOrder → Option TrackedOrder
first_of_bet n [] = none
first_of_bet n (p ∷ ps) = if p.nullifier == n then some p else first_of_bet n ps

-- getTrackedOrder, and isOrderTracked
unfoldable pub get_tracked_order : ℕ → Tracker → Option TrackedOrder
get_tracked_order n t = if mem n t.finalized then none else first_of_bet n t.by_order_id

unfoldable pub is_order_tracked : ℕ → Tracker → Bool
is_order_tracked n t = is_some (get_tracked_order n t)

-- The status that classifyTerminal gives.
pub data Terminal : Type 0 where
  matched partial cancelled : Terminal

unfoldable pub classify_terminal : String → ℕ → Option Terminal
classify_terminal s filled =
    if str_eq s "matched" || str_eq s "filled"
    then some matched
    else if str_eq s "partial"
    then some partial
    else if str_eq s "cancelled" || str_eq s "canceled" || str_eq s "expired"
    then some (if ltb 0 filled then partial else cancelled)
    else none

-- interface UserChannelMsg: `order_id` is orderID ?? order_id ?? id.
pub record Message : Type 0 where
  pub event_type : String
  pub kind : String
  pub status : String
  pub order_id : Option ℕ
  pub asset_id : Option ℕ
  pub size_matched : Option ℕ
  pub filled_shares : Option ℕ
  pub spent_amount : Option ℕ

unfoldable pub is_order_message : Message → Bool
is_order_message m =
    str_eq m.event_type "order"
    || str_eq m.kind "order"
    || str_eq m.kind "placement"
    || str_eq m.kind "update"
    || str_eq m.kind "cancellation"
    || is_some m.filled_shares
    || is_some m.spent_amount

abbrev pub by_id : Option ℕ → List TrackedOrder → Option TrackedOrder
by_id none ps = none
by_id (some id) ps = find_order id ps

unfoldable pub by_token : Option ℕ → List TrackedOrder → Option TrackedOrder
by_token none ps = none
by_token (some token) [] = none
by_token (some token) (p ∷ ps) = if p.token_id == token then some p else by_token (some token) ps

abbrev pub or_else : Option TrackedOrder → Option TrackedOrder → Option TrackedOrder
or_else none b = b
or_else (some p) b = some p

unfoldable pub find_tracked : Message → List TrackedOrder → Option TrackedOrder
find_tracked m ps = or_else (by_id m.order_id ps) (by_token m.asset_id ps)

abbrev pub cost_at_limit : TrackedOrder → Side → ℕ → ℕ
cost_at_limit o sell filled = filled * o.sell_limit_price / 1_000_000
cost_at_limit o buy filled = filled * o.price / 100_000_000

abbrev pub fill_of : Option ℕ → Option ℕ → Option ℕ → TrackedOrder → ℕ × ℕ
fill_of (some filled) (some spent) size o = (filled, spent)
fill_of _ _ (some filled) o = (filled, cost_at_limit o o.side filled)
fill_of _ _ none o = (0, 0)

unfoldable pub extract_fill : Message → TrackedOrder → ℕ × ℕ
extract_fill m o = fill_of m.filled_shares m.spent_amount m.size_matched o

abbrev pub with_fee : Side → ℕ → ℕ → ℕ
with_fee sell fee spent = spent - fee
with_fee buy fee spent = spent + fee

module _ (domain_set : Bool) (sign : Signer) where
  -- finalize; the status is only logged.
  unfoldable pub finalize : TrackedOrder → ℕ → ℕ → Tracker → Tracker
  finalize o filled spent t =
      if mem o.nullifier t.finalized || not t.has_wallet then t else record t {
        finalized = o.nullifier ∷ t.finalized;
        store =
            attest_terminal domain_set sign
              (record {
                nullifier = o.nullifier;
                expected_shares = o.expected_shares;
                bet_amount = o.bet_amount;
                side = o.side;
              })
              filled (with_fee o.side o.taker_fee_usd spent) t.store;
        by_order_id = delete_order o.order_id t.by_order_id;
        table = unpersist o.nullifier t.table;
      }

  abbrev pub finalize_if : Option Terminal → TrackedOrder → ℕ × ℕ → Tracker → Tracker
  finalize_if none o fill t = t
  finalize_if (some _) o (filled, spent) t = finalize o filled spent t

  abbrev pub handle_tracked : Message → Option TrackedOrder → Tracker → Tracker
  handle_tracked m none t = t
  handle_tracked m (some o) t =
      let fill = extract_fill m o in finalize_if (classify_terminal m.status fill.0) o fill t

  -- handleOne
  unfoldable pub handle_one : Message → Tracker → Tracker
  handle_one m t =
      if is_order_message m then handle_tracked m (find_tracked m t.by_order_id) t else t

  -- The loop of cancelOrdersForMarket, over the orders that were tracked at its start.
  unfoldable pub cancel_each : ℕ → List TrackedOrder → Tracker → Tracker
  cancel_each condition [] t = t
  cancel_each condition (o ∷ os) t =
      cancel_each condition os
        (if same_market o.condition_id condition then finalize o 0 0 t else t)

  unfoldable pub cancel_orders_for_market : ℕ → Tracker → Tracker
  cancel_orders_for_market condition t = cancel_each condition t.by_order_id t
