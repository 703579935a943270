-- ===== src/Desk/Sell.antt =====
-- The closes of packages/backend/signing-layer/src/orderBuilder.ts: submitMarketSellOrder and
-- submitLimitSellOrder, with resolveCloseToken. `best_bid` is what fetchBestBidMicro returns,
-- `confirmed` what confirmSellFilled does, and `fee` what clobTakerFeeUsd does.
use text.Mathlib.Text.{◌==◌ as str_eq}
use polyshield.Common.{
  ℕ, ◌-◌, ◌*◌, ◌/◌, Bool, true, false, Option, none, some, ◌&&◌, ◌||◌, not, if◌then◌else◌, ◌==◌,
  leb, is_some,
}
use polyshield.Attest.Store.{Signer, sold, get_attestation}
use polyshield.Attest.Terminal.{attest_terminal, TerminalBet, sell}
use polyshield.Signing.TokenBinding.{RegistryHit, CloseDecision, close, thrown, decide_close_token}
use polyshield.Tracker.{TrackedOrder, track_order, is_order_tracked}
use polyshield.Desk.{Desk, with_store, check_response, is_halted}
use polyshield.Desk.Submit.{
  OrderResponse, PostReply, no_client, threw, answered, or_zero, crossed_fee,
}

-- interface CloseRequest
pub record CloseRequest : Type 0 where
  pub nullifier_of_bet : ℕ
  pub position_id : ℕ
  pub sold_shares : ℕ
  pub limit_price : ℕ

-- betRecords of the bet, its side and what the registry has for it: none where the read throws.
pub record OnChainBet : Type 0 where
  pub outcome_side : Option ℕ
  pub resolved : Option RegistryHit

pub record SellAnswers : Type 0 where
  pub bet : Option OnChainBet
  pub best_bid : Option ℕ
  pub reply : PostReply
  pub confirmed : Bool
  pub fee : ℕ

unfoldable pub resolve_close_token : Bool → CloseRequest → Option OnChainBet → CloseDecision
resolve_close_token mock req none = decide_close_token req.position_id none none mock
resolve_close_token mock req (some bet) =
    decide_close_token req.position_id (some bet.outcome_side) bet.resolved mock

abbrev pub sell_price : ℕ → Option ℕ → ℕ
sell_price floor none = floor
sell_price floor (some bid) = if leb floor bid then bid else floor

unfoldable pub is_killed : OrderResponse → Bool
is_killed r =
    str_eq r.status "unmatched"
    || str_eq r.status "killed"
    || str_eq r.status "cancelled"
    || r.error_not_filled

abbrev pub size_or : Option ℕ → ℕ × Bool → ℕ × Bool
size_or none rest = rest
size_or (some size) rest = (size, false)

-- The shares of a market SELL and whether its answer is ambiguous.
unfoldable pub sell_fill : OrderResponse → ℕ × Bool
sell_fill r =
    if is_some r.making_amount || is_some r.taking_amount
    then (or_zero r.making_amount, false)
    else size_or r.size_matched (0, not (is_killed r))

abbrev pub confirm_fill : Bool → Option ℕ → ℕ → ℕ × Bool → ℕ
confirm_fill confirmed order_id all (filled, ambiguous) =
    if filled == 0 && ambiguous && is_some order_id && confirmed then all else filled

module _ (domain_set : Bool) (sign : Signer) where
  unfoldable pub attest_sale : CloseRequest → ℕ → ℕ → ℕ → Desk → Desk
  attest_sale req price fee filled d =
      let bet : TerminalBet = record {
        nullifier = req.nullifier_of_bet;
        expected_shares = req.sold_shares;
        bet_amount = 0;
        side = sell;
      } in
      with_store (attest_terminal domain_set sign bet filled (filled * price / 1_000_000 - fee)) d

  -- In mock mode the fill is filledShares at the limit price, and there is no client to ask for a fee.
  abbrev pub after_market_sell : Bool → CloseRequest → SellAnswers → PostReply → Desk → Desk
  after_market_sell mock req a no_client d = d
  after_market_sell mock req a (threw status) d = check_response status d
  after_market_sell true req a (answered size r) d =
      attest_sale req req.limit_price 0 (or_zero r.filled_shares) d
  after_market_sell false req a (answered size r) d =
      attest_sale req (sell_price req.limit_price a.best_bid) a.fee
        (confirm_fill a.confirmed r.order_id req.sold_shares (sell_fill r)) d

  abbrev pub market_sell_on : Bool → CloseDecision → CloseRequest → SellAnswers → Desk → Desk
  market_sell_on true _ req a d = after_market_sell true req a a.reply d
  market_sell_on false (thrown reason) req a d = d
  market_sell_on false (close token condition) req a d = after_market_sell false req a a.reply d

  -- submitMarketSellOrder
  unfoldable pub submit_market_sell_order : Bool → CloseRequest → SellAnswers → Desk → Desk
  submit_market_sell_order mock req a d =
      if is_halted d
      then d
      else if is_some (get_attestation req.nullifier_of_bet (some sold) d.tracker.store)
      then d
      else market_sell_on mock (resolve_close_token mock req a.bet) req a d

  abbrev pub resting_sell : CloseRequest → ℕ → ℕ → ℕ → ℕ → TrackedOrder
  resting_sell req token condition id fee = record {
    nullifier = req.nullifier_of_bet;
    order_id = id;
    condition_id = condition;
    token_id = token;
    expected_shares = req.sold_shares;
    bet_amount = 0;
    price = 0;
    side = sell;
    sell_limit_price = req.limit_price;
    taker_fee_usd = fee;
  }

  abbrev pub rest_sell : CloseRequest → ℕ → ℕ → Option ℕ → ℕ → Desk → Desk
  rest_sell req token condition none fee d = d
  rest_sell req token condition (some id) fee d = record d {
    tracker = track_order (resting_sell req token condition id fee) d.tracker;
  }

  abbrev pub after_limit_sell : Bool → ℕ → ℕ → CloseRequest → ℕ → PostReply → Desk → Desk
  after_limit_sell mock token condition req fee no_client d = d
  after_limit_sell mock token condition req fee (threw status) d = check_response status d
  after_limit_sell mock token condition req fee (answered size r) d =
      rest_sell req token condition r.order_id
        (crossed_fee domain_set sign mock r.making_amount fee) d

  abbrev pub limit_sell_on : Bool → CloseDecision → CloseRequest → SellAnswers → Desk → Desk
  limit_sell_on true _ req a d =
      after_limit_sell true req.position_id req.position_id req a.fee a.reply d
  limit_sell_on false (thrown reason) req a d = d
  limit_sell_on false (close token condition) req a d =
      after_limit_sell false token condition req a.fee a.reply d

  -- submitLimitSellOrder
  unfoldable pub submit_limit_sell_order : Bool → CloseRequest → SellAnswers → Desk → Desk
  submit_limit_sell_order mock req a d =
      if is_halted d
      then d
      else if is_some (get_attestation req.nullifier_of_bet (some sold) d.tracker.store)
      then d
      else if is_order_tracked req.nullifier_of_bet d.tracker
      then d
      else limit_sell_on mock (resolve_close_token mock req a.bet) req a d
