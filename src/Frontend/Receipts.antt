-- ===== src/Frontend/Receipts.antt =====
-- packages/frontend/src/lib/betClassify.ts: what a BET_RECEIPT is shown as. A status and an outcome are
-- the numbers of the contract's BetStatus and of the attestation's reportType; those of BET_STATUS in
-- lib/api.ts that are read here are arguments.
use polyshield.Common.{
  ◌≡◌, ℕ, Bool, true, false, Option, none, some, arith, ◌&&◌, ◌||◌, not, ◌==◌, leb, ltb, ◌↔◌,
}

abbrev pub report_filled : ℕ
report_filled = 1

abbrev pub report_failed : ℕ
report_failed = 2

abbrev pub report_partial : ℕ
report_partial = 3

pub record ReceiptClassInputs : Type 0 where
  pub ready : Bool
  pub status : ℕ
  pub outcome : ℕ
  pub bet_amount : ℕ
  -- the spent amount of `fill`, if there is a PARTIAL attestation
  pub fill_spent : Option ℕ

pub record ReceiptClass : Type 0 where
  pub ready : Bool
  pub is_partial : Bool
  pub is_failed : Bool
  pub is_filled : Bool
  pub is_resting : Bool
  pub is_pending : Bool
  pub is_position : Bool

abbrev pub covers : ℕ → Option ℕ → Bool
covers bet none = false
covers bet (some spent) = leb bet spent

module _ (status_filled status_resting : ℕ) where
  unfoldable pub classify_receipt : ReceiptClassInputs → ReceiptClass
  classify_receipt i =
      let onchain_filled = i.status == status_filled in
      let is_partial_attest = (i.outcome == report_partial) && not onchain_filled in
      let fee_only_fill =
        is_partial_attest && ltb 0 i.bet_amount && covers i.bet_amount i.fill_spent in
      let is_partial = is_partial_attest && not fee_only_fill in
      let is_failed = i.outcome == report_failed in
      let is_filled = (i.outcome == report_filled) || onchain_filled || fee_only_fill in
      let is_resting = i.status == status_resting in
      let is_position = i.ready || is_filled || is_partial in
      record {
        ready = i.ready;
        is_partial = is_partial;
        is_failed = is_failed;
        is_filled = is_filled;
        is_resting = is_resting;
        is_pending = not is_position && not is_failed && not is_resting;
        is_position = is_position;
      }

  -- A receipt is pending exactly when it is neither a position nor failed nor resting; it is never both
  -- filled and partial; it is shown as both failed and filled exactly when the operator attested FAILED
  -- and the chain says FILLED.
  pub classify_receipt_cases :
      (i : ReceiptClassInputs)
      → let c = classify_receipt i in
        ((c.is_pending ≡ true)
          ↔ ((c.is_position ≡ false) × (c.is_failed ≡ false) × (c.is_resting ≡ false)))
        × ((c.is_filled && c.is_partial) ≡ false)
        × (((c.is_filled && c.is_failed) ≡ true)
            ↔ ((i.outcome ≡ report_failed) × (i.status ≡ status_filled)))
  unfolding classify_receipt
  classify_receipt_cases i = ground arith
