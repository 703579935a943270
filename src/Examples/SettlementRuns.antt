-- ===== src/Examples/SettlementRuns.antt =====
-- The settlement poll and the redemption (packages/backend/signing-layer/src) at concrete inputs.
use polyshield.Common.{ℕ, ◌+◌, ◌≤◌, ◌≡◌, true, false, Option, none, some, [], ◌∷◌, refl, arith, inl}
use polyshield.Attest.Store.{Signer}
use polyshield.Desk.{TrackedMarket}
use polyshield.Settlement.{get_backoff, Resolver, Reads, PollConfig, tick, is_eligible, settle_one}
use polyshield.Settlement.Redemption.{
  read_numerators, all_zero, RedeemAnswers, PipelineAnswers, redeem,
}
use polyshield.Settlement.Redemption.Bounds.{redeem_bounds}
use polyshield.Settlement.Lost.{failed_resolve_is_dropped}
use polyshield.Settlement.Progress.{IsParked}
use polyshield.Settlement.Progress.Tick.{tick_settles_or_waits}

abbrev signer : Signer
signer n rt a b = some (n + a + b)

abbrev market : TrackedMarket
market = record { reduced_key = 6; raw_condition_id = 8; end_date = some 1_000 }

abbrev resolver : Resolver
resolver = record {
  markets = market ∷ [];
  resolved = [];
  backoff = [];
  seeded_at = 1_900_000;
  tracker = record { by_order_id = []; finalized = []; has_wallet = true; table = []; store = [] };
  confirmed = [];
  registered = [];
}

abbrev config : PollConfig
config = record { base_ms = 60_000; max_ms = 1_800_000; seed_fresh_ms = 900_000 }

-- A redemption of 5 pUSD, of which the Vault has 4 deployed.
abbrev redemption : RedeemAnswers
redemption = record {
  usdc_before = some 10;
  has_shares = some true;
  pusd_before = some 0;
  pusd_after = some 5;
  is_offramp_set = true;
  offramp_ok = true;
  usdc_after = some 15;
  deployed = some 4;
  ack_ok = true;
}

abbrev pipeline : PipelineAnswers
pipeline = record {
  resolved_at = some 0;
  numerators = some (some 1 ∷ some 0 ∷ []);
  denominator = some 1;
  resolve_ok = false;
  redeem = redemption;
}

abbrev reads : Reads
reads = record {
  resolved_at = λ key. some 0;
  condition_of = λ key. none;
  denominator = λ raw. some 1;
  block_ok = λ raw. true;
  numerators = λ raw. some (some 1 ∷ some 0 ∷ []);
  register_ok = λ raw. true;
  pipeline = λ raw. pipeline;
}

redeem_bounds_example :
    (b : ℕ) × (u : ℕ) × (d : ℕ) × (◌≡◌ {A = Option ℕ} (some 10) (some b))
    × (◌≡◌ {A = Option ℕ} (some 15) (some u))
    × (◌≡◌ {A = Option ℕ} (some 4) (some d))
    × ((redeem redemption).1 ≤ d)
    × ((redeem redemption).1 + b ≤ u)
unfolding redeem
redeem_bounds_example = redeem_bounds redemption (omega arith)

failed_resolve_is_dropped_example :
    let r = settle_one true signer config reads 2_000_000 6 8 resolver in
    (r.confirmed ≡ []) × (is_eligible 9_000_000 r market ≡ false)
unfolding read_numerators all_zero redeem
failed_resolve_is_dropped_example =
    failed_resolve_is_dropped true signer config reads 2_000_000 9_000_000 market 8 1 1 1 (0 ∷ [])
      resolver refl refl refl refl refl refl refl refl refl refl refl

abbrev reads_open : Reads
reads_open = record reads { denominator = λ raw. some 0 }

tick_settles_or_waits_example :
    IsParked config 2_000_000 6 (tick true signer config reads_open 2_000_000 resolver)
    × (is_eligible 2_050_000 (tick true signer config reads_open 2_000_000 resolver) market ≡ false)
unfolding is_eligible get_backoff
tick_settles_or_waits_example =
    tick_settles_or_waits true signer config reads_open 2_000_000 market resolver 2_050_000
      (inl refl) refl (omega arith)
