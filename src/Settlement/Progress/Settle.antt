-- ===== src/Settlement/Progress/Settle.antt =====
-- The body of the settlement poll's last loop, settlementResolver.ts of packages/backend/signing-layer/src.
use polyshield.Common.{
  ℕ, ◌≡◌, ◌⊎◌, Bool, true, false, Option, none, some, List, [], ◌∷◌, not, if◌then◌else◌, inl, inr,
  if_both,
}
use mathlib.Core.Path.{subst}
use polyshield.Attest.Store.{Signer}
use polyshield.Tracker.{cancel_orders_for_market}
use polyshield.Settlement.{
  Resolver, Reads, PollConfig, settle_one, settle_all, handle_resolution, is_positive, resolve_on,
  after_pipeline, after_resolution, register_na,
}
use polyshield.Settlement.Redemption.{
  PipelineEnd, returned, threw, all_zero, run_redemption_pipeline, read_numerators,
}
use polyshield.Settlement.Progress.{IsParked, backoff-parks, mark-parks, backoff-keeps, mark-keeps}

abbrev pub HasKey : ℕ → List (ℕ × ℕ) → Type 0
HasKey key [] = ⊥
HasKey key ((k, raw) ∷ cs) = (k ≡ key) ⊎ HasKey key cs

module _ (ds : Bool) (sign : Signer) (cfg : PollConfig) (reads : Reads) (now : ℕ) where
  after_pipeline-keeps :
      (key raw : ℕ) (e : PipelineEnd) (r : Resolver)
      → IsParked cfg now key r
      → IsParked cfg now key (after_pipeline ds sign raw e r).1
  after_pipeline-keeps key raw (returned true) r h = h
  after_pipeline-keeps key raw (returned false) r h = h
  after_pipeline-keeps key raw (threw true) r h = h
  after_pipeline-keeps key raw (threw false) r h = h

  register_na-keeps :
      (key raw : ℕ) (done : Bool) (r : Resolver)
      → IsParked cfg now key r
      → IsParked cfg now key (register_na ds sign done raw r).1
  register_na-keeps key raw true r h = h
  register_na-keeps key raw false r h = h

  resolve_on-keeps :
      (key raw : ℕ) (ns : Option (List ℕ)) (r : Resolver)
      → IsParked cfg now key r
      → IsParked cfg now key (resolve_on ds sign raw reads ns r).1
  resolve_on-keeps key raw none r h = h
  resolve_on-keeps key raw (some []) r h = after_pipeline-keeps key raw _ r h
  resolve_on-keeps key raw (some (n ∷ ns)) r h =
      if_both {A = Bool × Resolver} (λ p. IsParked cfg now key p.1) (all_zero (n ∷ ns))
        (register_na-keeps key raw (reads.register_ok raw) r h)
        (after_pipeline-keeps key raw (run_redemption_pipeline (reads.pipeline raw)) r h)

  handle_resolution-keeps :
      (key raw : ℕ) (r : Resolver)
      → IsParked cfg now key r
      → IsParked cfg now key (handle_resolution ds sign raw reads r).1
  unfolding handle_resolution
  handle_resolution-keeps key raw r h =
      resolve_on-keeps key raw (read_numerators (reads.numerators raw))
        (record r { tracker = cancel_orders_for_market ds sign raw r.tracker }) h

  after_resolution-parks :
      (key : ℕ) (ended : Bool × Resolver)
      → IsParked cfg now key (after_resolution ds sign cfg key now ended)
  after_resolution-parks key (true, r) = mark-parks cfg now key r
  after_resolution-parks key (false, r) = backoff-parks cfg now key r

  after_resolution-keeps :
      (key other : ℕ) (ended : Bool × Resolver)
      → IsParked cfg now key ended.1
      → IsParked cfg now key (after_resolution ds sign cfg other now ended)
  after_resolution-keeps key other (true, r) h = mark-keeps cfg now key other r h
  after_resolution-keeps key other (false, r) h = backoff-keeps cfg now key other r h

  settle_one-parks :
      (key raw : ℕ) (r : Resolver)
      → IsParked cfg now key (settle_one ds sign cfg reads now key raw r)
  unfolding settle_one
  settle_one-parks key raw r =
      if_both {A = Resolver} (IsParked cfg now key) (not (is_positive (reads.denominator raw)))
        (backoff-parks cfg now key r) (after_resolution-parks key _)

  settle_one-keeps :
      (key other raw : ℕ) (r : Resolver)
      → IsParked cfg now key r
      → IsParked cfg now key (settle_one ds sign cfg reads now other raw r)
  unfolding settle_one
  settle_one-keeps key other raw r h =
      if_both {A = Resolver} (IsParked cfg now key) (not (is_positive (reads.denominator raw)))
        (backoff-keeps cfg now key other r h)
        (after_resolution-keeps key other
          (if reads.block_ok raw then handle_resolution ds sign raw reads r else (false, r))
          (if_both {A = Bool × Resolver} (λ p. IsParked cfg now key p.1) (reads.block_ok raw)
            (handle_resolution-keeps key raw r h) h))

  pub settle_all-keeps :
      (key : ℕ) (cs : List (ℕ × ℕ)) (r : Resolver)
      → IsParked cfg now key r
      → IsParked cfg now key (settle_all ds sign cfg reads now cs r)
  unfolding settle_all
  settle_all-keeps key [] r h = h
  settle_all-keeps key ((k, raw) ∷ cs) r h =
      settle_all-keeps key cs (settle_one ds sign cfg reads now k raw r)
        (settle_one-keeps key k raw r h)

  pub settle_all-parks :
      (key : ℕ) (cs : List (ℕ × ℕ)) (r : Resolver)
      → HasKey key cs
      → IsParked cfg now key (settle_all ds sign cfg reads now cs r)
  unfolding settle_all
  settle_all-parks key [] r h = absurd h
  settle_all-parks key ((k, raw) ∷ cs) r (inl same) =
      settle_all-keeps key cs (settle_one ds sign cfg reads now k raw r) (
        subst (λ x. IsParked cfg now x (settle_one ds sign cfg reads now k raw r)) same
          (settle_one-parks k raw r))
  settle_all-parks key ((k, raw) ∷ cs) r (inr later) =
      settle_all-parks key cs (settle_one ds sign cfg reads now k raw r) later
