-- ===== src/Frontend/Preview.antt =====
-- packages/frontend/src/lib/pricing.ts: computeOrderPreview. The price is given as the integer scaled by
-- 1e8 that the code rounds it to; where it is positive and rounds to 0 the code throws, and the
-- definition has no result.
pub mod Laws
use polyshield.Common.{ℕ, ◌+◌, ◌-◌, ◌*◌, ◌/◌, Bool, Option, none, some, ◌&&◌, ltb, if◌then◌else◌}

-- POLY_MIN_ORDER_BET: the post-fee order clears $1 at a fee of 20%.
abbrev pub poly_min_order_bet : ℕ
poly_min_order_bet = 1_000_000 * 10_000 / (10_000 - 2_000)

-- MIN_SHARES
abbrev pub min_shares : ℕ
min_shares = 5_000_000

pub record OrderPreviewInput : Type 0 where
  pub amount_micro : ℕ
  pub is_priced : Bool
  pub price_e8 : ℕ
  pub protocol_fee_bps : ℕ
  pub relay_gas_micro : ℕ
  pub taker_fee_bps : ℕ
  pub min_bet_micro : ℕ

pub record OrderPreview : Type 0 where
  pub shares : ℕ
  pub shares_after_taker_fee : ℕ
  pub protocol_fee_micro : ℕ
  pub relay_fee_micro : ℕ
  pub total_fee_micro : ℕ
  pub total_deducted_micro : ℕ
  pub below_min : Bool
  pub effective_min_bet_micro : ℕ
  pub below_min_shares : Bool

abbrev pub preview_of : OrderPreviewInput → ℕ → OrderPreview
preview_of i shares =
    let positive = ltb 0 i.amount_micro in
    let effective =
      if ltb poly_min_order_bet i.min_bet_micro then i.min_bet_micro else poly_min_order_bet in
    let protocol_fee = if positive then i.amount_micro * i.protocol_fee_bps / 10_000 else 0 in
    let relay_fee = if positive then i.relay_gas_micro else 0 in
    record {
      shares = shares;
      shares_after_taker_fee = shares * (10_000 - i.taker_fee_bps) / 10_000;
      protocol_fee_micro = protocol_fee;
      relay_fee_micro = relay_fee;
      total_fee_micro = protocol_fee + relay_fee;
      total_deducted_micro = i.amount_micro + (protocol_fee + relay_fee);
      below_min = positive && ltb i.amount_micro effective;
      effective_min_bet_micro = effective;
      below_min_shares = ltb 0 shares && ltb shares min_shares;
    }

-- A taker fee above 10,000 bps, where the code's share count goes below 0, is out of the model.
unfoldable pub compute_order_preview : OrderPreviewInput → Option OrderPreview
compute_order_preview i =
    if ltb 0 i.amount_micro && i.is_priced
    then (if ltb 0 i.price_e8
        then some (preview_of i (i.amount_micro * 100_000_000 / i.price_e8))
        else none)
    else some (preview_of i 0)
