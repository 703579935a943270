-- ===== src/Signing/MarketOrders/Laws.antt =====
use native.Mathlib.Nat.{div-le_of_le-mul, mul-le-mul_left, mul_comm}
-- What the recovery of a market order (orderBuilder.ts) attests, and the cost it reports for a fill.
use polyshield.Common.{
  ◌≡◌, ℕ, ◌+◌, ◌-◌, ◌*◌, ◌/◌, ◌≤◌, ◌<◌, true, Option, none, some, arith, refl, ltb, ◌⊎◌,
}
use polyshield.Attest.Store.{Store, Signer, MarketSubmission, get_attestation, failed}
use polyshield.Attest.Terminal.{dust}
use polyshield.Attest.SingleWrite.{failed_recorded}
use polyshield.Signing.MarketOrders.{
  market_spent_with_fee, reconcile_market_submission, attest_failed_for, OrderReply, finalized,
  stale_submission_sec,
}

-- The cost reported for a fill of a market order is at most the stake, all of it once the fill lacks no
-- more than dust of the shares ordered; a smaller fill costs a share of the stake in proportion to the
-- shares, rounded down.
market_spent_bounds :
    (bet shares submitted : ℕ)
    → let spent = market_spent_with_fee bet shares submitted in
      (spent ≤ bet)
      × (((submitted ≤ shares + dust) × (spent ≡ bet))
          ⊎ ((shares + dust < submitted) × (spent ≡ bet * shares / submitted)))
unfolding market_spent_with_fee
market_spent_bounds bet shares submitted =
    let part : shares ≤ submitted → bet * shares / submitted ≤ bet =
      λ h. div-le_of_le-mul submitted (rw (mul_comm submitted bet) (mul-le-mul_left bet h)) in
    ground (arith, part)

-- A submission without an order id that is older than the limit is attested as FAILED, whatever the CLOB
-- and the chain say of it: no reply is looked at.
stale_attests_failed :
    (sign : Signer) (n now : ℕ) (sub : MarketSubmission) (client : Option OrderReply)
    (committed : Option (ℕ × ℕ)) (store : Store) (w : ℕ)
    → get_attestation n none store ≡ none
    → sub.order_id ≡ none
    → stale_submission_sec < now - sub.submitted_at
    → sign n failed 0 0 ≡ some w
    → let (reply, store') =
        reconcile_market_submission true sign n now sub client committed store in
      (reply ≡ finalized)
      × (get_attestation n none store'
          ≡ some (record {
            nullifier = n;
            report_type = failed;
            amount_a = 0;
            amount_b = 0;
            signature = w;
          }))
unfolding reconcile_market_submission attest_failed_for
stale_attests_failed sign n now sub client committed store w free missing old ok =
    let late : ltb stale_submission_sec (now - sub.submitted_at) ≡ true = ground arith in
    simp (free, missing, late) (refl, failed_recorded sign n store w free ok)
