-- ===== src/Signing/MarketOrders.antt =====
-- Market orders of packages/backend/signing-layer/src/orderBuilder.ts: attestFailedFor,
-- marketSpentWithFee and reconcileMarketSubmission. The CLOB's and the chain's answers are arguments.
-- Amounts read from the CLOB are given as the integers, scaled by 1e6, that the code rounds them to.
pub mod Laws
use polyshield.Common.{
  ℕ, ◌-◌, ◌*◌, ◌/◌, Bool, true, false, Option, none, some, if◌then◌else◌, ltb, leb, is_some,
}
use polyshield.Attest.Store.{
  failed, Store, Signer, MarketSubmission, get_attestation, sign_and_store,
}
use polyshield.Attest.Terminal.{attest_terminal, TerminalBet, buy, dust}

unfoldable pub market_spent_with_fee : ℕ → ℕ → ℕ → ℕ
market_spent_with_fee bet filled submitted =
    if leb (submitted - dust) filled
    then bet
    else let spent = bet * filled / submitted in if ltb bet spent then bet else spent

-- STALE_SUBMISSION_SEC
abbrev pub stale_submission_sec : ℕ
stale_submission_sec = 300

-- attest and attestFailedFor: an error is logged and swallowed.
unfoldable pub attest_failed_for : Bool → Signer → ℕ → Store → Store
attest_failed_for true sign n store = (sign_and_store sign n failed 0 0 store).1
attest_failed_for false sign n store = store

-- getOrder: the order is off the book (with what it filled and cost), or on it, or not found, or the
-- call throws.
pub data OrderReply : Type 0 where
  terminal : ℕ → ℕ → OrderReply
  live : OrderReply
  unknown : OrderReply
  threw : OrderReply

pub data Reconciled : Type 0 where
  finalized processing : Reconciled

module _ (domain_set : Bool) (sign : Signer) (n : ℕ) where
  abbrev pub from_order : ℕ × ℕ → OrderReply → Store → Reconciled × Store
  from_order (expected, bet) (terminal filled spent) store =
      let bet_record : TerminalBet = record {
        nullifier = n;
        expected_shares = expected;
        bet_amount = bet;
        side = buy;
      } in
      let store' = attest_terminal domain_set sign bet_record filled spent store in
      (if is_some (get_attestation n none store') then finalized else processing, store')
  from_order committed _ store = (processing, store)

  -- The part with an order id: `client` is the reply of a client, if there is one, and `committed` the
  -- shares and stake of betRecords, if the read succeeds.
  abbrev pub with_order : Option OrderReply → Option (ℕ × ℕ) → Store → Reconciled × Store
  with_order none committed store = (processing, store)
  with_order (some reply) none store = (processing, store)
  with_order (some reply) (some committed) store = from_order committed reply store

  abbrev pub by_order_id :
      ℕ
      → MarketSubmission
      → Option ℕ
      → Option OrderReply
      → Option (ℕ × ℕ)
      → Store
      → Reconciled × Store
  by_order_id now sub none client committed store =
      if ltb stale_submission_sec (now - sub.submitted_at)
      then (finalized, attest_failed_for domain_set sign n store)
      else (processing, store)
  by_order_id now sub (some id) client committed store = with_order client committed store

  unfoldable pub reconcile_market_submission :
      ℕ → MarketSubmission → Option OrderReply → Option (ℕ × ℕ) → Store → Reconciled × Store
  reconcile_market_submission now sub client committed store =
      if is_some (get_attestation n none store)
      then (finalized, store)
      else by_order_id now sub sub.order_id client committed store
