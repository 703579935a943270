-- ===== src/Desk/Submit.antt =====
-- submitFAKOrder and submitLimitOrder of packages/backend/signing-layer/src/orderBuilder.ts. `funded` is
-- what ensureDepositWalletFunded returns, `fee` what clobTakerFeeUsd does, and a reply comes from the
-- CLOB. The limiter runs the posts one after another, and only delays them.
use text.Mathlib.Text.{◌==◌ as str_eq}
use Prim.Native.String.{String}
use polyshield.Common.{
  ℕ, ◌*◌, ◌/◌, Bool, Option, none, some, ◌∷◌, ◌&&◌, ◌||◌, not, if◌then◌else◌, ◌==◌, ltb, is_some,
}
use polyshield.Attest.Store.{Signer, mark_resting, mark_market_submitting, set_market_order_id}
use polyshield.Attest.Terminal.{attest_terminal, TerminalBet, buy}
use polyshield.Signing.MarketOrders.{market_spent_with_fee, attest_failed_for}
use polyshield.Tracker.{TrackedOrder, track_order}
use polyshield.Desk.{Desk, with_store, check_response, is_halted}

-- interface BetAuthorizedEvent; the price is in 1e8.
pub record BetEvent : Type 0 where
  pub nullifier : ℕ
  pub market_id : ℕ
  pub position_id : ℕ
  pub expected_shares : ℕ
  pub bet_amount : ℕ
  pub price : ℕ

-- The answer to a POST. `status` is in lower case, "" if missing, and `is_http_error` says that it is
-- the text of a number of 400 or more. `order_id` is none where the function that reads it finds none.
-- Amounts are given as the integers in 1e6 that the code rounds them to. The last three say that the
-- error text matches /not[_ ]?filled/i, /NOT_FILLED/i, and the pattern of a rejection.
pub record OrderResponse : Type 0 where
  pub status : String
  pub is_http_error : Bool
  pub order_id : Option ℕ
  pub filled_shares : Option ℕ
  pub spent_amount : Option ℕ
  pub taking_amount : Option ℕ
  pub making_amount : Option ℕ
  pub size_matched : Option ℕ
  pub error_miss : Bool
  pub error_not_filled : Bool
  pub error_rejects : Bool

-- What the try block ends in: no client to post with, a throw with its HTTP status (the mock's reply
-- of 403, which is checked and dropped, is such a one), or an answer, with the size that was sent.
pub data PostReply : Type 0 where
  no_client : PostReply
  threw : Option ℕ → PostReply
  answered : ℕ → OrderResponse → PostReply

abbrev pub or_zero : Option ℕ → ℕ
or_zero none = 0
or_zero (some a) = a

abbrev pub fill_at_price : ℕ → Option ℕ → ℕ × ℕ
fill_at_price price none = (0, 0)
fill_at_price price (some shares) = (shares, shares * price / 100_000_000)

abbrev pub explicit_fill : Option ℕ → Option ℕ → ℕ × ℕ → ℕ × ℕ
explicit_fill (some filled) (some spent) rest = (filled, spent)
explicit_fill _ _ rest = rest

-- What the answer to a market BUY says it filled, and at which cost.
unfoldable pub response_fill : ℕ → OrderResponse → ℕ × ℕ
response_fill price r = explicit_fill r.filled_shares r.spent_amount (
    if is_some r.taking_amount || is_some r.making_amount
    then (or_zero r.taking_amount, or_zero r.making_amount)
    else fill_at_price price r.size_matched)

unfoldable pub is_explicit_miss : OrderResponse → Bool
is_explicit_miss r =
    str_eq r.status "unmatched"
    || str_eq r.status "killed"
    || str_eq r.status "cancelled"
    || r.error_miss
    || r.is_http_error
    || r.error_rejects

unfoldable pub fill_cost : ℕ → ℕ → ℕ × ℕ → ℕ
fill_cost bet submitted (filled, spent) =
    if ltb 0 submitted && ltb 0 filled then market_spent_with_fee bet filled submitted else spent

abbrev pub terminal_bet : BetEvent → TerminalBet
terminal_bet e = record {
  nullifier = e.nullifier;
  expected_shares = e.expected_shares;
  bet_amount = e.bet_amount;
  side = buy;
}

unfoldable pub is_accepted : OrderResponse → Bool
is_accepted r = str_eq r.status "live" || str_eq r.status "matched" || str_eq r.status "delayed"

unfoldable pub post_buy : BetEvent → Desk → Desk
post_buy e d = record d { posted = e.nullifier ∷ d.posted }

unfoldable pub post_fak : BetEvent → Desk → Desk
post_fak e d = post_buy e (record d { fak_posted = e.nullifier ∷ d.fak_posted })

unfoldable pub mark_submitting : ℕ → BetEvent → Desk → Desk
mark_submitting now e d = record d {
  submissions = mark_market_submitting e.nullifier e.market_id (now / 1000) d.submissions;
}

unfoldable pub keep_order_id : BetEvent → OrderResponse → Desk → Desk
keep_order_id e r d = record d {
  submissions = set_market_order_id e.nullifier r.order_id d.submissions;
}

unfoldable pub note_resting : BetEvent → OrderResponse → Desk → Desk
note_resting e r d =
    if str_eq r.status "live" then record d { resting = mark_resting e.nullifier d.resting } else d

module _ (domain_set : Bool) (sign : Signer) (mock : Bool) where
  unfoldable pub fail : ℕ → Desk → Desk
  fail n d = with_store (attest_failed_for domain_set sign n) d

  unfoldable pub settle_fak : BetEvent → ℕ → OrderResponse → Desk → Desk
  settle_fak e submitted r d =
      let fill = response_fill e.price r in
      if fill.0 == 0 && not (is_explicit_miss r) && not mock
      then d
      else with_store
          (attest_terminal domain_set sign (terminal_bet e) fill.0
            (fill_cost e.bet_amount submitted fill))
          d

  abbrev pub after_fak : BetEvent → PostReply → Desk → Desk
  after_fak e no_client d = d
  after_fak e (threw status) d = check_response status (post_fak e d)
  after_fak e (answered size r) d =
      settle_fak e (if mock then 0 else size) r (keep_order_id e r (post_fak e d))

  -- submitFAKOrder at the time `now`
  unfoldable pub submit_fak_order : ℕ → BetEvent → Bool → PostReply → Desk → Desk
  submit_fak_order now e funded reply d =
      if is_halted d
      then d
      else if not funded
      then fail e.nullifier d
      else after_fak e reply (mark_submitting now e d)

  -- The fee of the part that crossed; it is asked for where shares crossed, outside mock mode.
  abbrev pub crossed_fee : Option ℕ → ℕ → ℕ
  crossed_fee crossed fee = if not mock && ltb 0 (or_zero crossed) then fee else 0

  abbrev pub resting_buy : BetEvent → ℕ → ℕ → TrackedOrder
  resting_buy e id fee = record {
    nullifier = e.nullifier;
    order_id = id;
    condition_id = e.market_id;
    token_id = e.position_id;
    expected_shares = e.expected_shares;
    bet_amount = e.bet_amount;
    price = e.price;
    side = buy;
    sell_limit_price = 0;
    taker_fee_usd = fee;
  }

  abbrev pub settle_limit : BetEvent → OrderResponse → ℕ → Option ℕ → Desk → Desk
  settle_limit e r fee none d = if is_accepted r then d else fail e.nullifier d
  settle_limit e r fee (some id) d = record d {
    tracker = track_order (resting_buy e id (crossed_fee r.taking_amount fee)) d.tracker;
  }

  abbrev pub after_limit : BetEvent → PostReply → ℕ → Desk → Desk
  after_limit e no_client fee d = d
  after_limit e (threw status) fee d = check_response status (post_buy e d)
  after_limit e (answered size r) fee d =
      settle_limit e r fee r.order_id (note_resting e r (post_buy e d))

  -- submitLimitOrder; its order type and expiration only reach the CLOB.
  unfoldable pub submit_limit_order : BetEvent → Bool → PostReply → ℕ → Desk → Desk
  submit_limit_order e funded reply fee d =
      if is_halted d
      then d
      else if not funded
      then fail e.nullifier d
      else after_limit e reply fee d
