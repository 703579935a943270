-- ===== src/Settlement/Redemption.antt =====
-- packages/backend/signing-layer/src/redemptionPipeline.ts: runRedemptionPipeline and readNumerators.
-- What the chain and the deposit wallet answer is `PipelineAnswers`; none is a read that throws.
pub mod Bounds
use polyshield.Common.{
  ℕ, ◌+◌, ◌-◌, ◌≤◌, ◌≡◌, ◌≢◌, Bool, true, false, Option, none, some, List, [], ◌∷◌, ◌&&◌, not,
  if◌then◌else◌, ◌==◌, ltb, leb, arith,
}

-- `has_shares` is hasVaultShares over collectPositionIds. The offramp is skipped without its
-- addresses; `offramp_ok` and `ack_ok` say that its batch and the acknowledgement went through.
pub record RedeemAnswers : Type 0 where
  pub usdc_before : Option ℕ
  pub has_shares : Option Bool
  pub pusd_before : Option ℕ
  pub pusd_after : Option ℕ
  pub is_offramp_set : Bool
  pub offramp_ok : Bool
  pub usdc_after : Option ℕ
  pub deployed : Option ℕ
  pub ack_ok : Bool

pub record PipelineAnswers : Type 0 where
  pub resolved_at : Option ℕ
  pub numerators : Option (List (Option ℕ))
  pub denominator : Option ℕ
  pub resolve_ok : Bool
  pub redeem : RedeemAnswers

-- `v ?? 0n` for each of the reads of the batch
abbrev pub or_zeros : List (Option ℕ) → List ℕ
or_zeros [] = []
or_zeros (none ∷ vs) = 0 ∷ or_zeros vs
or_zeros (some v ∷ vs) = v ∷ or_zeros vs

unfoldable pub read_numerators : Option (List (Option ℕ)) → Option (List ℕ)
read_numerators none = none
read_numerators (some vs) = some (or_zeros vs)

unfoldable pub all_zero : List ℕ → Bool
all_zero [] = true
all_zero (n ∷ ns) = n == 0 && all_zero ns

-- In the try block of the second step, none is a throw.
abbrev pub offramp : RedeemAnswers → ℕ → Option ℕ
offramp a minted =
    if ltb 0 minted && a.is_offramp_set && not a.offramp_ok then none else some minted

abbrev pub minted_by : RedeemAnswers → Option ℕ → Option ℕ → Option ℕ
minted_by a (some before) (some after) = offramp a (after - before)
minted_by a _ _ = none

-- The pUSD that the redemption gave, after it went to the offramp.
abbrev pub redeemed_pusd : RedeemAnswers → Bool → Option ℕ
redeemed_pusd a true = minted_by a a.pusd_before a.pusd_after
redeemed_pusd a false = some 0

abbrev pub ack_up_to : Bool → ℕ → Option ℕ → Option ℕ
ack_up_to ok back none = none
ack_up_to ok back (some deployed) =
    let ack = if ltb back deployed then back else deployed in
    if ltb 0 ack then if ok then some ack else none else some 0

abbrev pub acknowledge : RedeemAnswers → ℕ → ℕ → Option ℕ → Option ℕ
acknowledge a before minted none = none
acknowledge a before minted (some after) =
    if ltb 0 minted && leb after before
    then none
    else if ltb 0 (after - before)
    then ack_up_to a.ack_ok (after - before) a.deployed
    else some 0

abbrev pub after_redeem : RedeemAnswers → ℕ → Option ℕ → Option ℕ
after_redeem a before none = none
after_redeem a before (some minted) = acknowledge a before minted a.usdc_after

abbrev pub or_nothing : Option ℕ → ℕ
or_nothing none = 0
or_nothing (some a) = a

-- The second step, from its first reads on: false where one of them throws, outside the try block, and
-- the amount of the acknowledgement that was confirmed, 0 without one.
abbrev pub redeem_from : RedeemAnswers → Option ℕ → Option Bool → Bool × ℕ
redeem_from a (some before) (some has) =
    (true, or_nothing (after_redeem a before (redeemed_pusd a has)))
redeem_from a _ _ = (false, 0)

unfoldable pub redeem : RedeemAnswers → Bool × ℕ
redeem a = redeem_from a a.usdc_before a.has_shares

-- How a run ends, and whether its resolveMarket was confirmed.
pub data PipelineEnd : Type 0 where
  returned threw : Bool → PipelineEnd

abbrev pub end_of : Bool → Bool → PipelineEnd
end_of confirmed true = returned confirmed
end_of confirmed false = threw confirmed

abbrev pub pipeline_from : PipelineAnswers → Option ℕ → Option (List ℕ) → Option ℕ → PipelineEnd
pipeline_from a (some resolved_at) (some ns) (some denominator) =
    if denominator == 0
    then returned false
    else if all_zero ns
    then returned false
    else end_of (not (ltb 0 resolved_at) && a.resolve_ok) (redeem a.redeem).0
pipeline_from a _ _ _ = threw false

-- runRedemptionPipeline
unfoldable pub run_redemption_pipeline : PipelineAnswers → PipelineEnd
run_redemption_pipeline a =
    pipeline_from a a.resolved_at (read_numerators a.numerators) a.denominator
