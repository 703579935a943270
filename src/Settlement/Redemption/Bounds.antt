-- ===== src/Settlement/Redemption/Bounds.antt =====
-- What runRedemptionPipeline of packages/backend/signing-layer/src/redemptionPipeline.ts acknowledges.
use polyshield.Common.{
  ℕ, ◌+◌, ◌-◌, ◌≤◌, ◌≡◌, ◌≢◌, Bool, true, Option, none, some, ◌&&◌, ltb, leb, arith, refl,
  Bool-cases, inl, inr,
}
use polyshield.Settlement.Redemption.{
  RedeemAnswers, redeem, redeem_from, acknowledge, ack_up_to, or_nothing, after_redeem,
  redeemed_pusd,
}

ack_up_to-bound :
    (ok : Bool) (back : ℕ) (deployed : Option ℕ)
    → or_nothing (ack_up_to ok back deployed) ≢ 0
    → (d : ℕ) × (deployed ≡ some d)
      × (or_nothing (ack_up_to ok back deployed) ≤ d)
      × (or_nothing (ack_up_to ok back deployed) ≤ back)
ack_up_to-bound ok back none h = absurd (h refl)
ack_up_to-bound ok back (some d) h = (d, refl, ground arith, ground arith)

below-sub :
    (back before u x : ℕ) → back ≡ u - before → ltb 0 back ≡ true → x ≤ back → x + before ≤ u
below-sub back before u x e grew h = ground arith

acknowledge-bound :
    (a : RedeemAnswers) (before minted : ℕ) (after : Option ℕ)
    → or_nothing (acknowledge a before minted after) ≢ 0
    → (u : ℕ) × (d : ℕ) × (after ≡ some u)
      × (a.deployed ≡ some d)
      × (or_nothing (acknowledge a before minted after) ≤ d)
      × (or_nothing (acknowledge a before minted after) + before ≤ u)
acknowledge-bound a before minted none h = absurd (h refl)
acknowledge-bound a before minted (some u) h = elim (Bool-cases (ltb 0 minted && leb u before)) [
  | inl lost ↦ absurd ((rw lost at h) refl)
  | inr fine ↦ elim (Bool-cases (ltb 0 (u - before))) [
    | inl grew ↦
        let (d, dep, low, high) =
          ack_up_to-bound a.ack_ok (u - before) a.deployed (rw (fine, grew) at h) in
        (
          u,
          d,
          refl,
          dep,
          rw (fine, grew) low,
          rw (fine, grew) (below-sub (u - before) before u _ refl grew high),
        )
    | inr same ↦ absurd ((rw (fine, same) at h) refl)
  ]
]

after_redeem-bound :
    (a : RedeemAnswers) (before : ℕ) (minted : Option ℕ)
    → or_nothing (after_redeem a before minted) ≢ 0
    → (u : ℕ) × (d : ℕ) × (a.usdc_after ≡ some u)
      × (a.deployed ≡ some d)
      × (or_nothing (after_redeem a before minted) ≤ d)
      × (or_nothing (after_redeem a before minted) + before ≤ u)
after_redeem-bound a before none h = absurd (h refl)
after_redeem-bound a before (some minted) h = acknowledge-bound a before minted a.usdc_after h

redeem_from-bound :
    (a : RedeemAnswers) (before : Option ℕ) (has : Option Bool)
    → (redeem_from a before has).1 ≢ 0
    → (b : ℕ) × (u : ℕ) × (d : ℕ) × (before ≡ some b)
      × (a.usdc_after ≡ some u)
      × (a.deployed ≡ some d)
      × ((redeem_from a before has).1 ≤ d)
      × ((redeem_from a before has).1 + b ≤ u)
redeem_from-bound a none has h = absurd (h refl)
redeem_from-bound a (some b) none h = absurd (h refl)
redeem_from-bound a (some b) (some has) h =
    let (u, d, after, dep, low, high) = after_redeem-bound a b (redeemed_pusd a has) h in
    (b, u, d, refl, after, dep, low, high)

-- An amount that a run acknowledges to the Vault as returned is at most what the Vault has deployed, and
-- the Vault's USDC has grown by at least as much between the first and the last read, whatever the
-- redemption and the offramp did.
pub redeem_bounds :
    (a : RedeemAnswers)
    → (redeem a).1 ≢ 0
    → (b : ℕ) × (u : ℕ) × (d : ℕ) × (a.usdc_before ≡ some b)
      × (a.usdc_after ≡ some u)
      × (a.deployed ≡ some d)
      × ((redeem a).1 ≤ d)
      × ((redeem a).1 + b ≤ u)
unfolding redeem
redeem_bounds a h = redeem_from-bound a a.usdc_before a.has_shares h
