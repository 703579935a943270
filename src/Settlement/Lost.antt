-- ===== src/Settlement/Lost.antt =====
-- A failure that settlementResolver.ts of packages/backend/signing-layer/src does not take up again.
use polyshield.Common.{
  ℕ, ◌≡◌, Bool, true, false, some, List, ◌∷◌, ◌==◌, ltb, refl, ==_refl, ap, ◌∙◌,
}
use polyshield.Attest.Store.{Signer}
use polyshield.Tracker.{cancel_orders_for_market}
use polyshield.Desk.{TrackedMarket}
use polyshield.Settlement.{
  Resolver, Reads, PollConfig, settle_one, handle_resolution, is_eligible, mark_resolved,
  after_resolution,
}
use polyshield.Settlement.Redemption.{
  PipelineAnswers, run_redemption_pipeline, read_numerators, all_zero, redeem, returned,
}

failed_pipeline :
    (a : PipelineAnswers) (n d : ℕ) (ns : List ℕ)
    → read_numerators a.numerators ≡ some (n ∷ ns)
    → all_zero (n ∷ ns) ≡ false
    → a.resolved_at ≡ some 0
    → a.denominator ≡ some d
    → (d == 0) ≡ false
    → a.resolve_ok ≡ false
    → (redeem a.redeem).0 ≡ true
    → run_redemption_pipeline a ≡ returned false
unfolding run_redemption_pipeline
failed_pipeline a n d ns read paid unresolved denominator final fails ends =
    rw (unresolved, read, denominator, final, paid, fails, ends) refl

-- Where a market is final on the CTF and pays out, and the Vault does not have it as resolved, a
-- resolveMarket that fails is not confirmed, yet the market is marked as resolved by the poll, unless
-- a first read of the redemption throws: it is not eligible at any later time in this process.
pub failed_resolve_is_dropped :
    (ds : Bool) (sign : Signer) (cfg : PollConfig) (reads : Reads) (now later : ℕ)
    (m : TrackedMarket) (raw n d d' : ℕ) (ns : List ℕ) (r : Resolver)
    → reads.denominator raw ≡ some d
    → ltb 0 d ≡ true
    → reads.block_ok raw ≡ true
    → read_numerators (reads.numerators raw) ≡ some (n ∷ ns)
    → read_numerators (reads.pipeline raw).numerators ≡ some (n ∷ ns)
    → all_zero (n ∷ ns) ≡ false
    → (reads.pipeline raw).resolved_at ≡ some 0
    → (reads.pipeline raw).denominator ≡ some d'
    → (d' == 0) ≡ false
    → (reads.pipeline raw).resolve_ok ≡ false
    → (redeem (reads.pipeline raw).redeem).0 ≡ true
    → let r' = settle_one ds sign cfg reads now m.reduced_key raw r in
      (r'.confirmed ≡ r.confirmed) × (is_eligible later r' m ≡ false)
unfolding settle_one handle_resolution
failed_resolve_is_dropped ds sign cfg reads now later m raw n d d' ns r final pos block read again
      paid unresolved denominator final' fails ends =
    let pipe =
      failed_pipeline (reads.pipeline raw) n d' ns again paid unresolved denominator final' fails
        ends in
    let t = cancel_orders_for_market ds sign raw r.tracker in
    let handled : handle_resolution ds sign raw reads r ≡ (true, record r { tracker = t }) =
      rw (read, paid, pipe) refl in
    let settled : settle_one ds sign cfg reads now m.reduced_key raw r
        ≡ mark_resolved m.reduced_key (record r { tracker = t }) =
      rw (final, pos, block) (ap (λ p. after_resolution ds sign cfg m.reduced_key now p) handled) in
    (
      ap (λ u. u.confirmed) settled ∙ (unfold mark_resolved in refl),
      ap (λ u. is_eligible later u m) settled
          ∙ (unfold is_eligible mark_resolved in rw (==_refl m.reduced_key) refl),
    )
