-- ===== src/Examples/RegistryRuns.antt =====
-- The registry of markets (packages/backend/signing-layer/src/marketRegistry.ts) at concrete inputs.
use polyshield.Common.{ℕ, true, false, Option, none, some, [], ◌∷◌, ◌≡◌, refl, arith}
use polyshield.Registry.{
  GammaMarket, Row, to_row, put_row, put_rows, find_row, resolve_token, side_indices, to_field_safe,
  sync_markets, sync_pages, to_rows, index_of, market_meta_for_key, sync_one_market,
}
use polyshield.Signing.TokenBinding.{decide_buy_token, trade, registry}
use polyshield.Registry.Binding.{registered_market_is_traded}

-- A market whose outcomes come as No, Yes.
abbrev market : GammaMarket
market = record {
  condition_id = some 5;
  enable_order_book = true;
  outcomes = "no" ∷ "yes" ∷ [];
  tokens = 11 ∷ 22 ∷ [];
  end_date = none;
}

abbrev row : Row
row = record { key = 5; condition_id = 5; yes_token = 22; no_token = 11; end_date = none }

abbrev old_row : Row
old_row = record { key = 5; condition_id = 5; yes_token = 7; no_token = 8; end_date = some 900 }

abbrev other_row : Row
other_row = record { key = 6; condition_id = 6; yes_token = 1; no_token = 2; end_date = none }

listed : to_row market ≡ some row
unfolding to_row side_indices index_of
listed = refl

-- A match of two teams keeps the order of the answer.
teams_keep_order : side_indices ("lions" ∷ "bears" ∷ []) ≡ (0, 1)
unfolding side_indices index_of
teams_keep_order = refl

-- The new tokens replace the old ones, and the old end date stays.
synced :
    sync_markets (some (market ∷ []) ∷ []) (none ∷ []) (other_row ∷ old_row ∷ [])
    ≡ other_row
      ∷ record { key = 5; condition_id = 5; yes_token = 22; no_token = 11; end_date = some 900 }
      ∷ []
unfolding sync_markets sync_pages to_rows to_row put_rows put_row side_indices index_of
synced = refl

on_demand : sync_one_market (some (market ∷ [])) [] ≡ (true, row ∷ [])
unfolding sync_one_market to_rows to_row put_row side_indices index_of
on_demand = refl

meta : market_meta_for_key 5 (other_row ∷ old_row ∷ []) ≡ some (5, some 900)
unfolding market_meta_for_key find_row
meta = refl

registered_market_is_traded_example :
    (5 ≡ to_field_safe 5)
    × (◌≡◌ {A = Option ℕ} (some 5) (some 5))
    × (decide_buy_token 5 99
          (some 0)
          (resolve_token 5 (some 0) (put_rows (row ∷ other_row ∷ []) (old_row ∷ [])))
          false
        ≡ trade 22 5 registry)
unfolding to_row side_indices index_of
registered_market_is_traded_example =
    registered_market_is_traded market row (other_row ∷ []) (old_row ∷ []) 99 0 refl (refl, tt)
      (omega arith)
