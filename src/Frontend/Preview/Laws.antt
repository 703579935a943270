-- ===== src/Frontend/Preview/Laws.antt =====
-- The numbers of an order preview (pricing.ts, computeOrderPreview).
use native.Mathlib.Nat.{div-le_of_le-mul, mul-le-mul_left, mul-div-le, mul_comm}
use polyshield.Common.{
  ◌≡◌, ℕ, ◌+◌, ◌*◌, ◌/◌, ◌≤◌, ◌<◌, true, Option, some, arith, ◌&&◌, ltb, max, Bool-cases, inl, inr,
  ◌↔◌,
}
use polyshield.Frontend.Preview.{
  OrderPreviewInput, OrderPreview, compute_order_preview, preview_of, poly_min_order_bet,
}

preview_of-bounds :
    (i : OrderPreviewInput) (shares : ℕ)
    → shares * i.price_e8 ≤ i.amount_micro * 100_000_000
    → let p = preview_of i shares in
      (p.shares * i.price_e8 ≤ i.amount_micro * 100_000_000)
      × (p.shares_after_taker_fee ≤ p.shares)
      × (p.total_deducted_micro ≡ i.amount_micro + p.protocol_fee_micro + p.relay_fee_micro)
      × ((p.below_min ≡ true)
          ↔ ((0 < i.amount_micro) × (i.amount_micro < max poly_min_order_bet i.min_bet_micro)))
preview_of-bounds i shares h = (
  h,
  div-le_of_le-mul 10_000 (rw (mul_comm 10_000 shares) (mul-le-mul_left shares (omega arith))),
  ground arith,
  ground arith,
)

-- A preview, where there is one: its shares at its price cost at most the stake, the taker fee only takes
-- shares away, what leaves the note is the stake and both fees, and the stake is below the minimum exactly
-- when it is positive and less than both the contract's minimum bet and the floor of an order on the book
-- allow.
order_preview_bounds :
    (i : OrderPreviewInput) (p : OrderPreview)
    → compute_order_preview i ≡ some p
    → (p.shares * i.price_e8 ≤ i.amount_micro * 100_000_000)
      × (p.shares_after_taker_fee ≤ p.shares)
      × (p.total_deducted_micro ≡ i.amount_micro + p.protocol_fee_micro + p.relay_fee_micro)
      × ((p.below_min ≡ true)
          ↔ ((0 < i.amount_micro) × (i.amount_micro < max poly_min_order_bet i.min_bet_micro)))
unfolding compute_order_preview
order_preview_bounds i p h = elim (Bool-cases (ltb 0 i.amount_micro && i.is_priced)) [
  | inl e ↦ elim (Bool-cases (ltb 0 i.price_e8)) [
    | inl f ↦
        let n = i.amount_micro * 100_000_000 / i.price_e8 in
        let h' : ◌≡◌ {A = Option OrderPreview} (some (preview_of i n)) (some p) = rw (e, f) at h in
        let same : preview_of i n ≡ p = cc in
        rw (← same) (
          preview_of-bounds i n
            (rw (mul_comm n i.price_e8) (mul-div-le (i.amount_micro * 100_000_000) i.price_e8)))
    | inr f ↦ absurd (cc (rw (e, f) at h))
  ]
  | inr e ↦
      let h' : ◌≡◌ {A = Option OrderPreview} (some (preview_of i 0)) (some p) = rw e at h in
      let same : preview_of i 0 ≡ p = cc in rw (← same) (preview_of-bounds i 0 (ground arith))
]
