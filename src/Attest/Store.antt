-- ===== src/Attest/Store.antt =====
-- packages/backend/signing-layer/src/attestationStore.ts. The tables of the database are lists of
-- rows; nullifiers, signatures and order ids are opaque numbers, compared for equality alone. The
-- signer of ethers is the parameter `sign`, where `none` stands for a rejected promise. The column
-- created_at, which nothing reads, is left out.
use polyshield.Common.{
  ℕ, Bool, true, false, Option, none, some, List, [], ◌∷◌, ◌++◌, ◌&&◌, if◌then◌else◌, ◌==◌, is_some,
}

-- enum ReportType
pub data ReportType : Type 0 where
  filled failed partial sold : ReportType

abbrev pub code : ReportType → ℕ
code filled = 1
code failed = 2
code partial = 3
code sold = 4

-- A row of the table `attestations`, and the Attestation made of it.
pub record Attestation : Type 0 where
  pub nullifier : ℕ
  pub report_type : ReportType
  pub amount_a : ℕ
  pub amount_b : ℕ
  pub signature : ℕ

abbrev pub Store : Type 0
Store = List Attestation

abbrev pub Signer : Type 0
Signer = ℕ → ReportType → ℕ → ℕ → Option ℕ

abbrev pub is_bet_outcome : ReportType → Bool
is_bet_outcome sold = false
is_bet_outcome _ = true

-- WHERE nullifier_of_bet = ? AND report_type IN (FILLED, FAILED, PARTIAL)
unfoldable pub read_outcome_row : ℕ → Store → Option Attestation
read_outcome_row n [] = none
read_outcome_row n (r ∷ rs) =
    if r.nullifier == n && is_bet_outcome r.report_type then some r else read_outcome_row n rs

-- WHERE nullifier_of_bet = ? AND report_type = ?
unfoldable pub read_typed_row : ℕ → ReportType → Store → Option Attestation
read_typed_row n rt [] = none
read_typed_row n rt (r ∷ rs) =
    if r.nullifier == n && code r.report_type == code rt then some r else read_typed_row n rt rs

-- The slot that a report is written to once: the outcome of the bet, or its own type.
unfoldable pub read_slot : ℕ → ReportType → Store → Option Attestation
read_slot n rt store =
    if is_bet_outcome rt then read_outcome_row n store else read_typed_row n rt store

-- INSERT … ON CONFLICT(nullifier_of_bet, report_type) DO NOTHING
unfoldable pub insert_row : Attestation → Store → Store
insert_row att store =
    if is_some (read_typed_row att.nullifier att.report_type store)
    then store
    else store ++ att ∷ []

abbrev pub or_else : Option Attestation → Attestation → Attestation
or_else none d = d
or_else (some a) d = a

-- What follows the wait for the signature: the insert, and the row read back.
unfoldable pub commit : Attestation → Store → Attestation × Store
commit att store =
    let store' = insert_row att store in
    (or_else (read_typed_row att.nullifier att.report_type store') att, store')

abbrev pub signed : Option ℕ → ℕ → ReportType → ℕ → ℕ → Store → Option Attestation × Store
signed none n rt a b store = (none, store)
signed (some s) n rt a b store =
    let (att, store') =
      commit (record { nullifier = n; report_type = rt; amount_a = a; amount_b = b; signature = s })
        store in
    (some att, store')

abbrev pub reuse_or_sign :
    Option Attestation → Signer → ℕ → ReportType → ℕ → ℕ → Store → Option Attestation × Store
reuse_or_sign (some row) sign n rt a b store = (some row, store)
reuse_or_sign none sign n rt a b store = signed (sign n rt a b) n rt a b store

-- signAndStoreAttestation, with nothing between the read and the insert.
unfoldable pub sign_and_store : Signer → ℕ → ReportType → ℕ → ℕ → Store → Option Attestation × Store
sign_and_store sign n rt a b store = reuse_or_sign (read_slot n rt store) sign n rt a b store

-- getAttestation; `none` is an omitted reportType.
unfoldable pub get_attestation : ℕ → Option ReportType → Store → Option Attestation
get_attestation n none store = read_outcome_row n store
get_attestation n (some rt) store = read_typed_row n rt store

-- The table resting_orders.
unfoldable pub mark_resting : ℕ → List ℕ → List ℕ
mark_resting n [] = n ∷ []
mark_resting n (m ∷ ms) = if m == n then m ∷ ms else m ∷ mark_resting n ms

-- A row of market_submissions.
pub record MarketSubmission : Type 0 where
  pub nullifier : ℕ
  pub condition_id : ℕ
  pub order_id : Option ℕ
  pub submitted_at : ℕ

-- markMarketSubmitting at the time `now`
unfoldable pub mark_market_submitting : ℕ → ℕ → ℕ → List MarketSubmission → List MarketSubmission
mark_market_submitting n condition now [] =
    record { nullifier = n; condition_id = condition; order_id = none; submitted_at = now } ∷ []
mark_market_submitting n condition now (r ∷ rs) =
    if r.nullifier == n then r ∷ rs else r ∷ mark_market_submitting n condition now rs

-- setMarketOrderId; `none` is the empty id.
unfoldable pub set_market_order_id : ℕ → Option ℕ → List MarketSubmission → List MarketSubmission
set_market_order_id n none rs = rs
set_market_order_id n (some id) [] = []
set_market_order_id n (some id) (r ∷ rs) =
    (if r.nullifier == n then record r { order_id = some id } else r)
    ∷ set_market_order_id n (some id) rs

unfoldable pub get_market_submission : ℕ → List MarketSubmission → Option MarketSubmission
get_market_submission n [] = none
get_market_submission n (r ∷ rs) = if r.nullifier == n then some r else get_market_submission n rs
