-- ===== src/Signing/TokenBinding.antt =====
-- packages/backend/signing-layer/src/tokenBinding.ts. Ids are opaque numbers, and the empty text is 0;
-- `side` is outcomeSide where it is an integer of 0 or more, and none for any other number.
use polyshield.Common.{
  ℕ, Bool, true, false, Option, none, some, ◌≡◌, ◌≢◌, ◌⊎◌, if◌then◌else◌, leb, ◌==◌, not, arith,
  refl, ◌↔◌,
}

pub record RegistryHit : Type 0 where
  pub token_id : ℕ
  pub condition_id : ℕ

pub data Source : Type 0 where
  registry mock_onchain : Source

pub data Reason : Type 0 where
  outcome_side_out_of_range market_not_in_registry : Reason

pub data BuyDecision : Type 0 where
  trade : ℕ → ℕ → Source → BuyDecision
  reject : Reason → BuyDecision

abbrev pub in_range : Option ℕ → Bool
in_range none = false
in_range (some side) = leb side 1

abbrev pub usable : Option RegistryHit → Option RegistryHit
usable none = none
usable (some hit) = if not (hit.token_id == 0) then some hit else none

abbrev pub buy_token : ℕ → ℕ → Bool → Option RegistryHit → BuyDecision
buy_token market position mock (some hit) = trade hit.token_id hit.condition_id registry
buy_token market position true none = trade position market mock_onchain
buy_token market position false none = reject market_not_in_registry

unfoldable pub decide_buy_token : ℕ → ℕ → Option ℕ → Option RegistryHit → Bool → BuyDecision
decide_buy_token market position side resolved mock =
    if not (in_range side)
    then reject outcome_side_out_of_range
    else buy_token market position mock (usable resolved)

-- The close path throws UnboundTokenError; `side` is none where the argument is null.
pub data CloseDecision : Type 0 where
  close : ℕ → ℕ → CloseDecision
  thrown : Reason → CloseDecision

abbrev pub null_or_in_range : Option (Option ℕ) → Bool
null_or_in_range none = true
null_or_in_range (some side) = in_range side

abbrev pub close_token : ℕ → Bool → Option RegistryHit → CloseDecision
close_token position mock (some hit) = close hit.token_id hit.condition_id
close_token position true none = close position 0
close_token position false none = thrown market_not_in_registry

unfoldable pub decide_close_token :
    ℕ → Option (Option ℕ) → Option RegistryHit → Bool → CloseDecision
decide_close_token position side resolved mock =
    if not (null_or_in_range side)
    then thrown outcome_side_out_of_range
    else close_token position mock (usable resolved)

-- Outside mock mode a buy is traded only on the token of the registry, for side 0 or 1, and the
-- position that the user has chosen changes nothing.
buy_is_bound :
    (market position token condition : ℕ) (source : Source) (side : Option ℕ)
    (resolved : Option RegistryHit)
    → decide_buy_token market position side resolved false ≡ trade token condition source
    → (hit : RegistryHit) × (resolved ≡ some hit)
      × (hit.token_id ≡ token)
      × (hit.condition_id ≡ condition)
      × (token ≢ 0)
      × ((side ≡ some 0) ⊎ (side ≡ some 1))
unfolding decide_buy_token
buy_is_bound market position token condition source (some side) (some hit) e =
    (hit, refl, ground arith, ground arith, ground arith, ground arith)
buy_is_bound market position token condition source (some side) none e = ground arith
buy_is_bound market position token condition source none resolved e = ground arith

-- The two paths agree: with the same side and registry, outside mock mode, a close is made on a token
-- exactly when a buy is, and on the same one.
close_agrees_with_buy :
    (market position token condition : ℕ) (side : Option ℕ) (resolved : Option RegistryHit)
    → (decide_close_token position (some side) resolved false ≡ close token condition)
      ↔ (decide_buy_token market position side resolved false ≡ trade token condition registry)
unfolding decide_buy_token decide_close_token
close_agrees_with_buy market position token condition side resolved = ground arith
