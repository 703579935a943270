-- ===== src/Settlement.antt =====
-- The settlement poll of packages/backend/signing-layer/src: the tick of settlementResolver.ts with
-- handleResolution. Times are given in milliseconds; a market's end is in seconds. What the chain and
-- the registry answer is a function of the market, as batchUint answers by the index of its argument.
-- Ids are opaque numbers, and 0 is the empty text.
pub mod Redemption
pub mod Lost
pub mod Progress
use polyshield.Common.{
  ℕ, zero, suc, ◌+◌, ◌-◌, ◌*◌, ◌/◌, ◌^◌, Bool, true, false, Option, none, some, List, [], ◌∷◌, ◌&&◌,
  ◌||◌, not, if◌then◌else◌, ◌==◌, ltb, min,
}
use polyshield.Attest.Store.{Signer}
use polyshield.Tracker.{Tracker, mem, cancel_orders_for_market}
use polyshield.Desk.{TrackedMarket, put_market}
use polyshield.Settlement.Redemption.{
  PipelineAnswers, PipelineEnd, returned, threw, run_redemption_pipeline, read_numerators, all_zero,
}

pub record Backoff : Type 0 where
  pub misses : ℕ
  pub next_at : ℕ

-- The tracked markets, resolvedMarkets, _settleBackoff and _resolvedSeededAt of the module, the fill
-- tracker, and the trace of the transactions that were confirmed: the conditions of resolveMarket and
-- of registerCondition.
pub record Resolver : Type 0 where
  pub markets : List TrackedMarket
  pub resolved : List ℕ
  pub backoff : List (ℕ × Backoff)
  pub seeded_at : ℕ
  pub tracker : Tracker
  pub confirmed : List ℕ
  pub registered : List ℕ

-- The bases and caps in milliseconds, from the environment.
pub record PollConfig : Type 0 where
  pub base_ms : ℕ
  pub max_ms : ℕ
  pub seed_fresh_ms : ℕ

pub record Reads : Type 0 where
  pub resolved_at : ℕ → Option ℕ
  pub condition_of : ℕ → Option ℕ
  pub denominator : ℕ → Option ℕ
  pub block_ok : ℕ → Bool
  pub numerators : ℕ → Option (List (Option ℕ))
  pub register_ok : ℕ → Bool
  pub pipeline : ℕ → PipelineAnswers

-- _settleBackoff.get, set and delete
unfoldable pub get_backoff : ℕ → List (ℕ × Backoff) → Option Backoff
get_backoff key [] = none
get_backoff key ((k, b) ∷ bs) = if k == key then some b else get_backoff key bs

unfoldable pub set_backoff : ℕ → Backoff → List (ℕ × Backoff) → List (ℕ × Backoff)
set_backoff key b [] = (key, b) ∷ []
set_backoff key b ((k, c) ∷ bs) = if k == key then (k, b) ∷ bs else (k, c) ∷ set_backoff key b bs

unfoldable pub delete_backoff : ℕ → List (ℕ × Backoff) → List (ℕ × Backoff)
delete_backoff key [] = []
delete_backoff key ((k, b) ∷ bs) =
    if k == key then delete_backoff key bs else (k, b) ∷ delete_backoff key bs

abbrev pub misses_of : Option Backoff → ℕ
misses_of none = 0
misses_of (some b) = b.misses

unfoldable pub delay_of : PollConfig → ℕ → ℕ
delay_of cfg misses = min cfg.max_ms (cfg.base_ms * 2 ^ (misses - 1))

-- backoffMarket
unfoldable pub backoff_market : PollConfig → ℕ → ℕ → Resolver → Resolver
backoff_market cfg key now r =
    let misses = misses_of (get_backoff key r.backoff) + 1 in
    record r {
      backoff =
          set_backoff key (record { misses = misses; next_at = now + delay_of cfg misses })
            r.backoff;
    }

unfoldable pub mark_resolved : ℕ → Resolver → Resolver
mark_resolved key r = record r {
  resolved = key ∷ r.resolved;
  backoff = delete_backoff key r.backoff;
}

-- refreshResolvedFromIndex with the keys that the index has; none where it cannot be read.
unfoldable pub refresh_resolved : Option (List ℕ) → ℕ → Resolver → Resolver
refresh_resolved none now r = r
refresh_resolved (some []) now r = record r { seeded_at = now }
refresh_resolved (some (k ∷ ks)) now r =
    refresh_resolved (some ks) now (record r { resolved = k ∷ r.resolved })

abbrev pub seed_one : ℕ → Option (ℕ × Option ℕ) → List TrackedMarket → List TrackedMarket
seed_one key none ms = ms
seed_one key (some (condition, end_date)) ms = put_market key condition end_date ms

-- seedTrackedMarkets with the seeds' keys: `meta` is marketMetaForKey, the condition and the end.
unfoldable pub seed_tracked_markets :
    (ℕ → Option (ℕ × Option ℕ)) → List ℕ → List TrackedMarket → List TrackedMarket
seed_tracked_markets meta [] ms = ms
seed_tracked_markets meta (key ∷ keys) ms =
    seed_tracked_markets meta keys (seed_one key (meta key) ms)

abbrev pub before_end : ℕ → Option ℕ → Bool
before_end now none = false
before_end now (some end_date) = not (end_date == 0) && ltb (now / 1000) end_date

abbrev pub is_backed_off : ℕ → Option Backoff → Bool
is_backed_off now none = false
is_backed_off now (some b) = ltb now b.next_at

unfoldable pub is_eligible : ℕ → Resolver → TrackedMarket → Bool
is_eligible now r m =
    not (mem m.reduced_key r.resolved)
    && not (before_end now m.end_date)
    && not (is_backed_off now (get_backoff m.reduced_key r.backoff))

unfoldable pub seed_fresh : PollConfig → ℕ → Resolver → Bool
seed_fresh cfg now r = ltb 0 r.seeded_at && ltb (now - r.seeded_at) cfg.seed_fresh_ms

abbrev pub is_positive : Option ℕ → Bool
is_positive none = false
is_positive (some a) = ltb 0 a

abbrev pub or_empty : Option ℕ → ℕ → ℕ
or_empty none d = d
or_empty (some a) d = a

-- The condition that the CTF is asked for; the market's own key where there is none.
unfoldable pub raw_of : Reads → TrackedMarket → ℕ
raw_of reads m =
    if not (m.raw_condition_id == 0) && not (m.raw_condition_id == m.reduced_key)
    then m.raw_condition_id
    else or_empty (reads.condition_of m.reduced_key) m.raw_condition_id

module _ (domain_set : Bool) (sign : Signer) where
  -- The N/A branch: a failure of registerCondition is logged.
  abbrev pub register_na : Bool → ℕ → Resolver → Bool × Resolver
  register_na false raw r = (true, r)
  register_na true raw r = (true, record r { registered = raw ∷ r.registered })

  abbrev pub after_pipeline : ℕ → PipelineEnd → Resolver → Bool × Resolver
  after_pipeline raw (returned true) r = (true, record r { confirmed = raw ∷ r.confirmed })
  after_pipeline raw (returned false) r = (true, r)
  after_pipeline raw (threw true) r = (false, record r { confirmed = raw ∷ r.confirmed })
  after_pipeline raw (threw false) r = (false, r)

  abbrev pub resolve_on : ℕ → Reads → Option (List ℕ) → Resolver → Bool × Resolver
  resolve_on raw reads none r = (false, r)
  resolve_on raw reads (some []) r =
      after_pipeline raw (run_redemption_pipeline (reads.pipeline raw)) r
  resolve_on raw reads (some (n ∷ ns)) r =
      if all_zero (n ∷ ns)
      then register_na (reads.register_ok raw) raw r
      else after_pipeline raw (run_redemption_pipeline (reads.pipeline raw)) r

  -- handleResolution: false where it throws.
  unfoldable pub handle_resolution : ℕ → Reads → Resolver → Bool × Resolver
  handle_resolution raw reads r =
      resolve_on raw reads (read_numerators (reads.numerators raw))
        (record r { tracker = cancel_orders_for_market domain_set sign raw r.tracker })

  abbrev pub after_resolution : PollConfig → ℕ → ℕ → Bool × Resolver → Resolver
  after_resolution cfg key now (true, r) = mark_resolved key r
  after_resolution cfg key now (false, r) = backoff_market cfg key now r

  -- The body of the last loop.
  unfoldable pub settle_one : PollConfig → Reads → ℕ → ℕ → ℕ → Resolver → Resolver
  settle_one cfg reads now key raw r =
      if not (is_positive (reads.denominator raw))
      then backoff_market cfg key now r
      else after_resolution cfg key now
          (if reads.block_ok raw then handle_resolution raw reads r else (false, r))

  unfoldable pub settle_all : PollConfig → Reads → ℕ → List (ℕ × ℕ) → Resolver → Resolver
  settle_all cfg reads now [] r = r
  settle_all cfg reads now ((key, raw) ∷ cs) r =
      settle_all cfg reads now cs (settle_one cfg reads now key raw r)

unfoldable pub filter_eligible : ℕ → Resolver → List TrackedMarket → List TrackedMarket
filter_eligible now r [] = []
filter_eligible now r (m ∷ ms) =
    if is_eligible now r m then m ∷ filter_eligible now r ms else filter_eligible now r ms

-- The second pass: those that the Vault has resolved are marked, and dropped.
unfoldable pub drop_resolved : Reads → List TrackedMarket → Resolver → List TrackedMarket × Resolver
drop_resolved reads [] r = ([], r)
drop_resolved reads (m ∷ ms) r =
    let done = drop_resolved reads ms (mark_resolved m.reduced_key r) in
    let (rest, r') = drop_resolved reads ms r in
    if is_positive (reads.resolved_at m.reduced_key) then done else (m ∷ rest, r')

-- Those with a condition to ask for; the others are backed off.
unfoldable pub checkable :
    PollConfig → Reads → ℕ → List TrackedMarket → Resolver → List (ℕ × ℕ) × Resolver
checkable cfg reads now [] r = ([], r)
checkable cfg reads now (m ∷ ms) r =
    let raw = raw_of reads m in
    let skipped = checkable cfg reads now ms (backoff_market cfg m.reduced_key now r) in
    let (rest, r') = checkable cfg reads now ms r in
    if raw == 0 || raw == m.reduced_key then skipped else ((m.reduced_key, raw) ∷ rest, r')

-- tick
unfoldable pub tick : Bool → Signer → PollConfig → Reads → ℕ → Resolver → Resolver
tick domain_set sign cfg reads now r =
    let eligible = filter_eligible now r r.markets in
    let (open_markets, r1) =
      if seed_fresh cfg now r then (eligible, r) else drop_resolved reads eligible r in
    let (cs, r2) = checkable cfg reads now open_markets r1 in
    settle_all domain_set sign cfg reads now cs r2

-- resolveMarketManually: `key` is the reduced id and `market` the id that was given; the result is
-- false where it throws.
abbrev pub manual_on : Bool → Signer → ℕ → ℕ → Reads → Option ℕ → Resolver → Bool × Resolver
manual_on domain_set sign key market reads none r = (false, r)
manual_on domain_set sign key market reads (some at) r =
    let raw = or_empty (reads.condition_of key) market in
    if ltb 0 at
    then (true, r)
    else if reads.block_ok raw
    then handle_resolution domain_set sign raw reads r
    else (false, r)

unfoldable pub resolve_market_manually : Bool → Signer → ℕ → ℕ → Reads → Resolver → Bool × Resolver
resolve_market_manually domain_set sign key market reads r =
    manual_on domain_set sign key market reads (reads.resolved_at key) r
