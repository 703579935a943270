-- ===== src/Desk/Once/Closes.antt =====
-- The closes of packages/backend/signing-layer/src/orderBuilder.ts keep what Desk/Once says of posted BUYs.
use polyshield.Common.{ℕ, Bool, true, false, Option, none, some, is_some, if_both}
use polyshield.Attest.Store.{Signer, sold, get_attestation}
use polyshield.Tracker.{is_order_tracked}
use polyshield.Desk.{Desk, is_halted, with_store}
use polyshield.Desk.Submit.{PostReply, no_client, threw, answered}
use polyshield.Desk.Sell.{
  CloseRequest, SellAnswers, submit_market_sell_order, submit_limit_sell_order, market_sell_on,
  limit_sell_on, after_market_sell, after_limit_sell, rest_sell, resolve_close_token, attest_sale,
}
use polyshield.Signing.TokenBinding.{CloseDecision, close as close_on, thrown}
use polyshield.Desk.Once.{IsSound, check_response-IsSound}

abbrev has_sold : CloseRequest → Desk → Bool
has_sold req d = is_some (get_attestation req.nullifier_of_bet (some sold) d.tracker.store)

module _ (domain_set : Bool) (sign : Signer) (mock : Bool) where
  after_market_sell-IsSound :
      (m : Bool) (req : CloseRequest) (a : SellAnswers) (reply : PostReply) (d : Desk)
      → IsSound d
      → IsSound (after_market_sell domain_set sign m req a reply d)
  unfolding attest_sale with_store
  after_market_sell-IsSound m req a no_client d h = h
  after_market_sell-IsSound m req a (threw status) d h = check_response-IsSound status d h
  after_market_sell-IsSound true req a (answered size r) d h = h
  after_market_sell-IsSound false req a (answered size r) d h = h

  market_sell_on-IsSound :
      (m : Bool) (c : CloseDecision) (req : CloseRequest) (a : SellAnswers) (d : Desk)
      → IsSound d
      → IsSound (market_sell_on domain_set sign m c req a d)
  market_sell_on-IsSound true c req a d h = after_market_sell-IsSound true req a a.reply d h
  market_sell_on-IsSound false (thrown reason) req a d h = h
  market_sell_on-IsSound false (close_on token condition) req a d h =
      after_market_sell-IsSound false req a a.reply d h

  rest_sell-IsSound :
      (req : CloseRequest) (token condition : ℕ) (id : Option ℕ) (fee : ℕ) (d : Desk)
      → IsSound d
      → IsSound (rest_sell domain_set sign req token condition id fee d)
  rest_sell-IsSound req token condition none fee d h = h
  rest_sell-IsSound req token condition (some id) fee d h = h

  after_limit_sell-IsSound :
      (m : Bool) (token condition : ℕ) (req : CloseRequest) (fee : ℕ) (reply : PostReply) (d : Desk)
      → IsSound d
      → IsSound (after_limit_sell domain_set sign m token condition req fee reply d)
  after_limit_sell-IsSound m token condition req fee no_client d h = h
  after_limit_sell-IsSound m token condition req fee (threw status) d h =
      check_response-IsSound status d h
  after_limit_sell-IsSound m token condition req fee (answered size r) d h =
      rest_sell-IsSound req token condition r.order_id _ d h

  limit_sell_on-IsSound :
      (m : Bool) (c : CloseDecision) (req : CloseRequest) (a : SellAnswers) (d : Desk)
      → IsSound d
      → IsSound (limit_sell_on domain_set sign m c req a d)
  limit_sell_on-IsSound true c req a d h =
      after_limit_sell-IsSound true req.position_id req.position_id req a.fee a.reply d h
  limit_sell_on-IsSound false (thrown reason) req a d h = h
  limit_sell_on-IsSound false (close_on token condition) req a d h =
      after_limit_sell-IsSound false token condition req a.fee a.reply d h

  pub market_sell-IsSound :
      (req : CloseRequest) (a : SellAnswers) (d : Desk)
      → IsSound d
      → IsSound (submit_market_sell_order domain_set sign mock req a d)
  unfolding submit_market_sell_order
  market_sell-IsSound req a d h = if_both {A = Desk} IsSound (is_halted d) h (
      if_both {A = Desk} IsSound (has_sold req d) h
        (market_sell_on-IsSound mock (resolve_close_token mock req a.bet) req a d h))

  pub limit_sell-IsSound :
      (req : CloseRequest) (a : SellAnswers) (d : Desk)
      → IsSound d
      → IsSound (submit_limit_sell_order domain_set sign mock req a d)
  unfolding submit_limit_sell_order
  limit_sell-IsSound req a d h = if_both {A = Desk} IsSound (is_halted d) h (
      if_both {A = Desk} IsSound (has_sold req d) h (
        if_both {A = Desk} IsSound (is_order_tracked req.nullifier_of_bet d.tracker) h
          (limit_sell_on-IsSound mock (resolve_close_token mock req a.bet) req a d h)))
