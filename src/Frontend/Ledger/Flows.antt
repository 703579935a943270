-- ===== src/Frontend/Ledger/Flows.antt =====
-- The flows of packages/frontend/src that spend and credit notes, as they change what the browser keeps:
-- lib/settlePosition.ts, lib/finalizeClose.ts, lib/finalizePartial.ts, lib/cancelAndReclaim.ts,
-- lib/consolidate.ts, and the confirmed ends of components/app/BetModal.tsx, app/app/withdraw/page.tsx
-- and app/app/deposit/page.tsx. Deriving the key, the path, the proof, the relay and the confirmation
-- come before any change; `relayed` says whether they all succeed.
use polyshield.Common.{ℕ, ◌+◌, Bool, false, Option, none, some, if◌then◌else◌, ◌==◌, leb}
use polyshield.Frontend.Ledger.{
  Ledger, Note, Kind, settle_credit, hashed, Activity, ActivityKind, settlement, mark_note_spent,
  mark_bet_receipt_spent, add_note, record_wallet_activity, get_free_note_for_deposit,
}

-- BET_STATUS of lib/api.ts
abbrev pub active : ℕ
active = 0

abbrev pub filled : ℕ
filled = 1

abbrev pub failed : ℕ
failed = 2

abbrev pub credited : ℕ
credited = 3

abbrev pub cancelled_credited : ℕ
cancelled_credited = 4

abbrev pub closed_credited : ℕ
closed_credited = 6

abbrev pub partial_filled : ℕ
partial_filled = 7

abbrev pub resting : ℕ
resting = 8

-- REPORT_FILLED, REPORT_FAILED, REPORT_PARTIAL and REPORT_SOLD
abbrev pub report_filled : ℕ
report_filled = 1

abbrev pub report_failed : ℕ
report_failed = 2

abbrev pub report_partial : ℕ
report_partial = 3

abbrev pub report_sold : ℕ
report_sold = 4

pub record ChainBet : Type 0 where
  pub status : ℕ
  pub bet_amount : ℕ
  pub expected_shares : ℕ
  pub sold_shares : ℕ
  pub sell_proceeds : ℕ

pub record Att : Type 0 where
  pub report_type : ℕ
  pub amount_a : ℕ
  pub amount_b : ℕ

-- fetchBetRecord, fetchAttestation, fetchBetProtocolFee, and the rest up to the confirmation; none where
-- the call throws. An attestation may be missing.
pub record Replies : Type 0 where
  pub bet_record : Option ChainBet
  pub attestation : Option (Option Att)
  pub protocol_fee : Option ℕ
  pub relayed : Bool

pub data Reason : Type 0 where
  no_free_note no_sold still_resting partial_normalized not_partial : Reason

-- The end of a flow: done with what it credited, or left for a reason, or with an exception.
pub data Reply : Type 0 where
  done : ℕ → Reply
  left_open : Reason → Reply
  thrown : Reply

abbrev pub or_nullifier : ℕ → Option ℕ → ℕ
or_nullifier n none = n
or_nullifier n (some m) = m

abbrev pub bet_nullifier : Note → ℕ
bet_nullifier n = or_nullifier n.nullifier n.nullifier_of_bet

abbrev pub settled : ℕ → ActivityKind → ℕ → Note → Activity
settled wallet kind amount receipt = record {
  wallet = wallet;
  kind = kind;
  amount = amount;
  receipt_id = some receipt.id;
}

-- A full close retires the receipt.
abbrev pub close_full : Bool → Note → Ledger → Ledger
close_full full receipt l = if full then mark_bet_receipt_spent (bet_nullifier receipt) l else l

-- computeCommitment and computeNullifier under the secret of a wallet's deposit
module _ (commit : ℕ → ℕ → ℕ → ℕ → ℕ) (nullify : ℕ → ℕ → ℕ → ℕ) where
  -- The note that continues a lineage.
  abbrev pub next_note : ℕ → Kind → ℕ → Note → Note
  next_note wallet kind balance n = record {
    id = hashed (commit wallet n.deposit_index balance (n.nonce + 1));
    kind = kind;
    owner = wallet;
    deposit_index = n.deposit_index;
    balance = balance;
    nonce = n.nonce + 1;
    nullifier = nullify wallet n.deposit_index (n.nonce + 1);
    spent = false;
    nullifier_of_bet = none;
    bet_amount = none;
    expected_shares = none;
    circuit_key = none;
    is_no = false;
  }

  -- settlePosition
  abbrev pub settle_with : ℕ → Note → ℕ → Bool → Ledger → Option Note → Reply × Ledger
  settle_with wallet receipt claim relayed l none = (left_open no_free_note, l)
  settle_with wallet receipt claim relayed l (some free) =
      if relayed
      then (
        done claim,
        add_note (next_note wallet settle_credit (free.balance + claim) free) (
            record_wallet_activity (settled wallet settlement claim receipt)
              (mark_bet_receipt_spent (bet_nullifier receipt) (mark_note_spent free.id l))),
      )
      else (thrown, l)

  abbrev pub settle_record : ℕ → Note → ℕ → Bool → Ledger → Option ChainBet → Reply × Ledger
  settle_record wallet receipt claim relayed l none = (thrown, l)
  settle_record wallet receipt claim relayed l (some rec) =
      if rec.status == credited
      then (done 0, mark_bet_receipt_spent (bet_nullifier receipt) l)
      else settle_with wallet receipt claim relayed l
          (get_free_note_for_deposit wallet receipt.deposit_index l)

  unfoldable pub settle_position : ℕ → Note → ℕ → Replies → Ledger → Reply × Ledger
  settle_position wallet receipt claim a l =
      settle_record wallet receipt claim a.relayed l a.bet_record

  -- finalizeClose; `attestation` is that of the sale.
  abbrev pub close_with : ℕ → Note → ChainBet → Att → Bool → Ledger → Option Note → Reply × Ledger
  close_with wallet receipt rec att relayed l none = (left_open no_free_note, l)
  close_with wallet receipt rec att relayed l (some free) =
      if relayed
      then (
        done att.amount_b,
        add_note (next_note wallet settle_credit (free.balance + att.amount_b) free) (
            record_wallet_activity (settled wallet settlement att.amount_b receipt) (
              close_full (leb rec.expected_shares att.amount_a) receipt
                (mark_note_spent free.id l))),
      )
      else (thrown, l)

  abbrev pub close_sold : ℕ → Note → ChainBet → Bool → Ledger → Option (Option Att) → Reply × Ledger
  close_sold wallet receipt rec relayed l none = (thrown, l)
  close_sold wallet receipt rec relayed l (some none) = (left_open no_sold, l)
  close_sold wallet receipt rec relayed l (some (some att)) =
      if att.report_type == report_sold
      then close_with wallet receipt rec att relayed l
          (get_free_note_for_deposit wallet receipt.deposit_index l)
      else (left_open no_sold, l)

  abbrev pub close_record :
      ℕ → Note → Bool → Option (Option Att) → Ledger → Option ChainBet → Reply × Ledger
  close_record wallet receipt relayed att l none = (thrown, l)
  close_record wallet receipt relayed att l (some rec) =
      if rec.status == closed_credited
      then (done rec.sell_proceeds, mark_bet_receipt_spent (bet_nullifier receipt) l)
      else close_sold wallet receipt rec relayed l att

  unfoldable pub finalize_close : ℕ → Note → Replies → Ledger → Reply × Ledger
  finalize_close wallet receipt a l =
      close_record wallet receipt a.relayed a.attestation l a.bet_record
