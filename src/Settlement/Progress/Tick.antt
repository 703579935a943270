-- ===== src/Settlement/Progress/Tick.antt =====
-- A whole tick of the settlement poll, settlementResolver.ts of packages/backend/signing-layer/src.
use polyshield.Common.{
  ℕ, ◌+◌, ◌<◌, ◌≡◌, ◌⊎◌, Bool, true, false, List, [], ◌∷◌, ◌||◌, ◌==◌, arith, refl, ap, Bool-cases,
  inl, inr, min, if_both,
}
use mathlib.Core.Path.{subst, sym}
use polyshield.Attest.Store.{Signer}
use polyshield.Desk.{TrackedMarket}
use polyshield.Settlement.{
  Resolver, Reads, PollConfig, settle_all, is_eligible, mark_resolved, is_positive, backoff_market,
  tick, filter_eligible, drop_resolved, checkable, raw_of, seed_fresh,
}
use polyshield.Settlement.Progress.{IsParked, backoff-parks, mark-parks, backoff-keeps, mark-keeps}
use polyshield.Settlement.Progress.Settle.{HasKey, settle_all-keeps, settle_all-parks}

abbrev pub IsListed : TrackedMarket → List TrackedMarket → Type 0
IsListed m [] = ⊥
IsListed m (x ∷ xs) = (x ≡ m) ⊎ IsListed m xs

module _ (ds : Bool) (sign : Signer) (cfg : PollConfig) (reads : Reads) (now : ℕ) where
  checkable-keeps :
      (key : ℕ) (ms : List TrackedMarket) (r : Resolver)
      → IsParked cfg now key r
      → IsParked cfg now key (checkable cfg reads now ms r).1
  unfolding checkable
  checkable-keeps key [] r h = h
  checkable-keeps key (m ∷ ms) r h =
      if_both {A = List (ℕ × ℕ) × Resolver} (λ p. IsParked cfg now key p.1)
        (raw_of reads m == 0 || raw_of reads m == m.reduced_key)
        (checkable-keeps key ms (backoff_market cfg m.reduced_key now r)
          (backoff-keeps cfg now key m.reduced_key r h))
        (checkable-keeps key ms r h)

  drop_resolved-keeps :
      (key : ℕ) (ms : List TrackedMarket) (r : Resolver)
      → IsParked cfg now key r
      → IsParked cfg now key (drop_resolved reads ms r).1
  unfolding drop_resolved
  drop_resolved-keeps key [] r h = h
  drop_resolved-keeps key (m ∷ ms) r h =
      if_both {A = List TrackedMarket × Resolver} (λ p. IsParked cfg now key p.1)
        (is_positive (reads.resolved_at m.reduced_key))
        (drop_resolved-keeps key ms (mark_resolved m.reduced_key r)
          (mark-keeps cfg now key m.reduced_key r h))
        (drop_resolved-keeps key ms r h)

  -- Each of the markets is left to be asked for, or is parked.
  checkable-covers :
      (m : TrackedMarket) (ms : List TrackedMarket) (r : Resolver)
      → IsListed m ms
      → HasKey m.reduced_key (checkable cfg reads now ms r).0
        ⊎ IsParked cfg now m.reduced_key (checkable cfg reads now ms r).1
  unfolding checkable
  checkable-covers m [] r h = absurd h
  checkable-covers m (x ∷ ms) r h =
      let P : List (ℕ × ℕ) × Resolver → Type 0 =
        λ p. HasKey m.reduced_key p.0 ⊎ IsParked cfg now m.reduced_key p.1 in
      if_both {A = List (ℕ × ℕ) × Resolver} P
        (raw_of reads x == 0 || raw_of reads x == x.reduced_key)
        (elim h [
          | inl same ↦ inr (
              checkable-keeps m.reduced_key ms (backoff_market cfg x.reduced_key now r) (
                subst (λ y. IsParked cfg now y.reduced_key (backoff_market cfg x.reduced_key now r))
                  same (backoff-parks cfg now x.reduced_key r)))
          | inr rest ↦ checkable-covers m ms (backoff_market cfg x.reduced_key now r) rest
        ])
        (elim h [
          | inl same ↦ inl (inl (ap (λ y. y.reduced_key) same))
          | inr rest ↦ elim (checkable-covers m ms r rest) [
            | inl there ↦ inl (inr there)
            | inr parked ↦ inr parked
          ]
        ])

  drop_resolved-covers :
      (m : TrackedMarket) (ms : List TrackedMarket) (r : Resolver)
      → IsListed m ms
      → IsListed m (drop_resolved reads ms r).0
        ⊎ IsParked cfg now m.reduced_key (drop_resolved reads ms r).1
  unfolding drop_resolved
  drop_resolved-covers m [] r h = absurd h
  drop_resolved-covers m (x ∷ ms) r h =
      let P : List TrackedMarket × Resolver → Type 0 =
        λ p. IsListed m p.0 ⊎ IsParked cfg now m.reduced_key p.1 in
      if_both {A = List TrackedMarket × Resolver} P (is_positive (reads.resolved_at x.reduced_key))
        (elim h [
          | inl same ↦ inr (
              drop_resolved-keeps m.reduced_key ms (mark_resolved x.reduced_key r) (
                subst (λ y. IsParked cfg now y.reduced_key (mark_resolved x.reduced_key r)) same
                  (mark-parks cfg now x.reduced_key r)))
          | inr rest ↦ drop_resolved-covers m ms (mark_resolved x.reduced_key r) rest
        ])
        (elim h [
          | inl same ↦ inl (inl same)
          | inr rest ↦ elim (drop_resolved-covers m ms r rest) [
            | inl there ↦ inl (inr there)
            | inr parked ↦ inr parked
          ]
        ])

  filter-covers :
      (m : TrackedMarket) (ms : List TrackedMarket) (r : Resolver)
      → IsListed m ms
      → is_eligible now r m ≡ true
      → IsListed m (filter_eligible now r ms)
  unfolding filter_eligible
  filter-covers m [] r h e = absurd h
  filter-covers m (x ∷ ms) r (inl same) e =
      let here : is_eligible now r x ≡ true =
        subst (λ y. is_eligible now r y ≡ true) (sym same) e in
      rw here (inl same)
  filter-covers m (x ∷ ms) r (inr rest) e =
      if_both {A = List TrackedMarket} (IsListed m) (is_eligible now r x)
        (inr (filter-covers m ms r rest e)) (filter-covers m ms r rest e)

  settle_checkable :
      (m : TrackedMarket) (ms : List TrackedMarket) (r : Resolver)
      → IsListed m ms ⊎ IsParked cfg now m.reduced_key r
      → IsParked cfg now m.reduced_key (
          settle_all ds sign cfg reads now
            (checkable cfg reads now ms r).0
            (checkable cfg reads now ms r).1)
  settle_checkable m ms r (inr parked) =
      settle_all-keeps ds sign cfg reads now m.reduced_key _ _
        (checkable-keeps m.reduced_key ms r parked)
  settle_checkable m ms r (inl listed) = elim (checkable-covers m ms r listed) [
    | inl there ↦ settle_all-parks ds sign cfg reads now m.reduced_key _ _ there
    | inr parked ↦ settle_all-keeps ds sign cfg reads now m.reduced_key _ _ parked
  ]

  tick-parks :
      (m : TrackedMarket) (r : Resolver)
      → IsListed m r.markets
      → is_eligible now r m ≡ true
      → IsParked cfg now m.reduced_key (tick ds sign cfg reads now r)
  unfolding tick
  tick-parks m r listed e =
      let eligible = filter_eligible now r r.markets in
      let here = filter-covers m r.markets r listed e in
      elim (Bool-cases (seed_fresh cfg now r)) [
        | inl fresh ↦ rw fresh (settle_checkable m eligible r (inl here))
        | inr stale ↦ rw stale (
            settle_checkable m (drop_resolved reads eligible r).0 (drop_resolved reads eligible r).1
              (drop_resolved-covers m eligible r here))
      ]

  parked_waits :
      (m : TrackedMarket) (r : Resolver) (t : ℕ)
      → IsParked cfg now m.reduced_key r
      → t < now + min cfg.max_ms cfg.base_ms
      → is_eligible t r m ≡ false
  unfolding is_eligible
  parked_waits m r t (inl done) early = rw done refl
  parked_waits m r t (inr (b, at, low, high)) early = rw at (ground arith)

  -- A tracked market that a tick may check is, after that tick, known to be resolved, or its next check
  -- is put off by at least the smaller of the base delay and the cap, and at most the cap: it is not
  -- eligible before that smaller delay is over, whatever the chain and the Vault answer.
  pub tick_settles_or_waits :
      (m : TrackedMarket) (r : Resolver) (t : ℕ)
      → IsListed m r.markets
      → is_eligible now r m ≡ true
      → t < now + min cfg.max_ms cfg.base_ms
      → IsParked cfg now m.reduced_key (tick ds sign cfg reads now r)
        × (is_eligible t (tick ds sign cfg reads now r) m ≡ false)
  tick_settles_or_waits m r t listed e early =
      let parked = tick-parks m r listed e in
      (parked, parked_waits m (tick ds sign cfg reads now r) t parked early)
