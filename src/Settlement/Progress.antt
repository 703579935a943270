-- ===== src/Settlement/Progress.antt =====
-- What a tick of the settlement poll, settlementResolver.ts of packages/backend/signing-layer/src, leaves
-- of each market that it may check.
pub mod Settle
pub mod Tick
use mathlib.Core.Path.{subst, sym}
use native.Mathlib.Nat.{mul-le-mul_left, one-le-pow}
use polyshield.Common.{
  ℕ, zero, suc, ◌+◌, ◌-◌, ◌*◌, ◌^◌, ◌≤◌, ◌≡◌, ◌⊎◌, true, false, some, List, [], ◌∷◌, ◌==◌, arith,
  refl, ==_refl, ==→eq, ◌∙◌, Bool-cases, inl, inr, min,
}
use polyshield.Tracker.{mem}
use polyshield.Settlement.{
  Resolver, PollConfig, Backoff, mark_resolved, get_backoff, set_backoff, delete_backoff,
  backoff_market, delay_of, misses_of,
}

delay_bounds :
    (cfg : PollConfig) (k : ℕ)
    → (min cfg.max_ms cfg.base_ms ≤ delay_of cfg (k + 1)) × (delay_of cfg (k + 1) ≤ cfg.max_ms)
unfolding delay_of
delay_bounds cfg k =
    let e : k + 1 - 1 ≡ k = omega arith in
    let grows : cfg.base_ms * 1 ≤ cfg.base_ms * 2 ^ k =
      mul-le-mul_left cfg.base_ms (one-le-pow k 2 (omega arith)) in
    rw e (omega arith, omega arith)

-- The market is known to be resolved, or its next check is put off, by at most the cap.
abbrev pub IsParked : PollConfig → ℕ → ℕ → Resolver → Type 0
IsParked cfg now key r =
    (mem key r.resolved ≡ true)
    ⊎ ((b : Backoff) × (get_backoff key r.backoff ≡ some b)
        × (now + min cfg.max_ms cfg.base_ms ≤ b.next_at)
        × (b.next_at ≤ now + cfg.max_ms))

get-set :
    (key : ℕ) (b : Backoff) (bs : List (ℕ × Backoff))
    → get_backoff key (set_backoff key b bs) ≡ some b
unfolding get_backoff set_backoff
get-set key b [] = ground arith
get-set key b ((k, c) ∷ bs) = ground (arith, get-set key b bs)

get-set_ne :
    (key other : ℕ) (b : Backoff) (bs : List (ℕ × Backoff))
    → (other == key) ≡ false
    → get_backoff key (set_backoff other b bs) ≡ get_backoff key bs
unfolding get_backoff set_backoff
get-set_ne key other b [] h = ground arith
get-set_ne key other b ((k, c) ∷ bs) h = ground (arith, get-set_ne key other b bs h)

get-delete_ne :
    (key other : ℕ) (bs : List (ℕ × Backoff))
    → (other == key) ≡ false
    → get_backoff key (delete_backoff other bs) ≡ get_backoff key bs
unfolding get_backoff delete_backoff
get-delete_ne key other [] h = refl
get-delete_ne key other ((k, c) ∷ bs) h = ground (arith, get-delete_ne key other bs h)

module _ (cfg : PollConfig) (now : ℕ) where
  backoff-parks : (key : ℕ) (r : Resolver) → IsParked cfg now key (backoff_market cfg key now r)
  unfolding backoff_market
  backoff-parks key r =
      let k = misses_of (get_backoff key r.backoff) in
      let (low, high) = delay_bounds cfg k in
      inr (_, get-set key _ r.backoff, omega arith, omega arith)

  mark-parks : (key : ℕ) (r : Resolver) → IsParked cfg now key (mark_resolved key r)
  unfolding mark_resolved
  mark-parks key r = inl (rw (==_refl key) refl)

  backoff-keeps :
      (key other : ℕ) (r : Resolver)
      → IsParked cfg now key r
      → IsParked cfg now key (backoff_market cfg other now r)
  unfolding backoff_market
  backoff-keeps key other r (inl done) = inl done
  backoff-keeps key other r (inr (b, at, low, high)) = elim (Bool-cases (other == key)) [
    | inl same ↦
        subst (λ k. IsParked cfg now key (backoff_market cfg k now r)) (sym (==→eq _ _ same))
          (backoff-parks key r)
    | inr differ ↦ inr (b, get-set_ne key other _ r.backoff differ ∙ at, low, high)
  ]

  mark-keeps :
      (key other : ℕ) (r : Resolver)
      → IsParked cfg now key r
      → IsParked cfg now key (mark_resolved other r)
  unfolding mark_resolved
  mark-keeps key other r (inl done) = inl (ground arith)
  mark-keeps key other r (inr (b, at, low, high)) = elim (Bool-cases (other == key)) [
    | inl same ↦ inl (rw same refl)
    | inr differ ↦ inr (b, get-delete_ne key other r.backoff differ ∙ at, low, high)
  ]
