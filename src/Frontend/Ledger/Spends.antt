-- ===== src/Frontend/Ledger/Spends.antt =====
-- packages/frontend/src: lib/consolidate.ts, and what components/app/BetModal.tsx, app/app/withdraw/page.tsx
-- and app/app/deposit/page.tsx do to the notes of the browser. What selectNotesForAmount picks is an
-- argument.
use polyshield.Common.{
  ℕ, ◌+◌, ◌-◌, Bool, true, false, Option, none, some, List, [], ◌∷◌, ◌&&◌, ◌||◌, if◌then◌else◌,
  ◌==◌, ltb, leb, length,
}
use polyshield.Frontend.Ledger.{
  Ledger, Note, bet_output, bet_receipt, deposit_note, hashed, receipt_of, Activity, deposit,
  withdrawal, bet, mark_note_spent, add_note, record_wallet_activity,
}
use polyshield.Frontend.Ledger.Flows.{next_note}

abbrev pub total : List Note → ℕ
total [] = 0
total (n ∷ ns) = n.balance + total ns

unfoldable pub mark_all : List Note → Ledger → Ledger
mark_all [] l = l
mark_all (n ∷ ns) l = mark_all ns (mark_note_spent n.id l)

abbrev pub member : ℕ → List ℕ → Bool
member d [] = false
member d (x ∷ xs) = x == d || member d xs

-- The bet that the form holds: its fee is the one of the fee schedule.
pub record BetForm : Type 0 where
  pub stake : ℕ
  pub fee : ℕ
  pub shares : ℕ
  pub circuit_key : ℕ
  pub is_no : Bool

-- What a withdrawal takes: all but 1 of a note whose lineage has an open position.
unfoldable pub effective_withdrawal : List ℕ → ℕ → Note → ℕ
effective_withdrawal open_deposits requested n =
    if member n.deposit_index open_deposits && (leb n.balance requested && ltb 1 n.balance)
    then n.balance - 1
    else requested

module _ (commit : ℕ → ℕ → ℕ → ℕ → ℕ) (nullify : ℕ → ℕ → ℕ → ℕ) where
  -- consolidateNotes; none where it throws.
  abbrev pub merge_into : ℕ → Note → List Note → Ledger → Option Note × Ledger
  merge_into wallet first notes l =
      let merged = next_note commit nullify wallet bet_output (total notes) first in
      (some merged, add_note merged (mark_all notes l))

  unfoldable pub consolidate_notes : ℕ → List Note → Bool → Ledger → Option Note × Ledger
  consolidate_notes wallet [] relayed l = (none, l)
  consolidate_notes wallet (n ∷ []) relayed l = (none, l)
  consolidate_notes wallet (n ∷ m ∷ ns) relayed l =
      if leb (length (n ∷ m ∷ ns)) 4 && relayed
      then merge_into wallet n (n ∷ m ∷ ns) l
      else (none, l)

  -- The receipt of a bet on a note, and the submission of BetModal from the note that it spends on.
  abbrev pub receipt_note : ℕ → Note → BetForm → Note
  receipt_note wallet cash f = record {
    id = receipt_of (nullify wallet cash.deposit_index cash.nonce);
    kind = bet_receipt;
    owner = wallet;
    deposit_index = cash.deposit_index;
    balance = f.stake;
    nonce = cash.nonce;
    nullifier = nullify wallet cash.deposit_index cash.nonce;
    spent = false;
    nullifier_of_bet = some (nullify wallet cash.deposit_index cash.nonce);
    bet_amount = some f.stake;
    expected_shares = some f.shares;
    circuit_key = some f.circuit_key;
    is_no = f.is_no;
  }

  abbrev pub bet_event : ℕ → Note → BetForm → Activity
  bet_event wallet cash f = record {
    wallet = wallet;
    kind = bet;
    amount = f.stake;
    receipt_id = some (receipt_of (nullify wallet cash.deposit_index cash.nonce));
  }

  unfoldable pub bet_on : ℕ → BetForm → Bool → Note → Ledger → Bool × Ledger
  bet_on wallet f relayed cash l =
      if ltb cash.balance (f.stake + f.fee)
      then (false, l)
      else if relayed
      then (
        true,
        record_wallet_activity (bet_event wallet cash f) (
            add_note (receipt_note wallet cash f) (
              add_note
                (next_note commit nullify wallet bet_output (cash.balance - f.stake - f.fee) cash)
                (mark_note_spent cash.id l))),
      )
      else (false, l)

  abbrev pub bet_after_merge : ℕ → BetForm → Bool → Option Note × Ledger → Bool × Ledger
  bet_after_merge wallet f relayed (none, l) = (false, l)
  bet_after_merge wallet f relayed (some merged, l) = bet_on wallet f relayed merged l

  -- Notes are merged where the cash note does not cover the cost; `picked` is none where they cannot.
  abbrev pub bet_by_merge : ℕ → BetForm → Option (List Note) → Bool → Bool → Ledger → Bool × Ledger
  bet_by_merge wallet f none merge_relayed relayed l = (false, l)
  bet_by_merge wallet f (some notes) merge_relayed relayed l =
      bet_after_merge wallet f relayed (consolidate_notes wallet notes merge_relayed l)

  unfoldable pub submit_bet :
      ℕ → BetForm → Option (List Note) → Bool → Bool → Note → Ledger → Bool × Ledger
  submit_bet wallet f picked merge_relayed relayed cash l =
      if ltb cash.balance (f.stake + f.fee)
      then bet_by_merge wallet f picked merge_relayed relayed l
      else bet_on wallet f relayed cash l

  abbrev pub keep_rest : ℕ → ℕ → Note → Ledger → Ledger
  keep_rest wallet rest n l =
      if ltb 0 rest then add_note (next_note commit nullify wallet bet_output rest n) l else l

  unfoldable pub withdraw_from : ℕ → List ℕ → ℕ → Bool → Note → Ledger → Bool × Ledger
  withdraw_from wallet open_deposits requested relayed n l =
      let taken = effective_withdrawal open_deposits requested n in
      if relayed
      then (
        true,
        keep_rest wallet (n.balance - taken) n (
            record_wallet_activity
              (record { wallet = wallet; kind = withdrawal; amount = taken; receipt_id = none })
              (mark_note_spent n.id l)),
      )
      else (false, l)

  abbrev pub withdraw_after_merge : ℕ → List ℕ → ℕ → Bool → Option Note × Ledger → Bool × Ledger
  withdraw_after_merge wallet open_deposits requested relayed (none, l) = (false, l)
  withdraw_after_merge wallet open_deposits requested relayed (some merged, l) =
      withdraw_from wallet open_deposits requested relayed merged l

  abbrev pub withdraw_by_merge :
      ℕ → List ℕ → ℕ → Option (List Note) → Bool → Bool → Ledger → Bool × Ledger
  withdraw_by_merge wallet open_deposits requested none merge_relayed relayed l = (false, l)
  withdraw_by_merge wallet open_deposits requested (some notes) merge_relayed relayed l =
      withdraw_after_merge wallet open_deposits requested relayed
        (consolidate_notes wallet notes merge_relayed l)

  -- The submission of the page from its reconciliation with the chain on, with the open positions' deposits
  -- that it holds.
  unfoldable pub submit_withdrawal :
      ℕ → List ℕ → ℕ → Option (List Note) → Bool → Bool → Note → Ledger → Bool × Ledger
  submit_withdrawal wallet open_deposits requested picked merge_relayed relayed cash l =
      if ltb cash.balance requested
      then withdraw_by_merge wallet open_deposits requested picked merge_relayed relayed l
      else withdraw_from wallet open_deposits requested relayed cash l

  -- A confirmed deposit
  abbrev pub deposited_note : ℕ → ℕ → ℕ → Note
  deposited_note wallet index amount = record {
    id = hashed (commit wallet index amount 0);
    kind = deposit_note;
    owner = wallet;
    deposit_index = index;
    balance = amount;
    nonce = 0;
    nullifier = nullify wallet index 0;
    spent = false;
    nullifier_of_bet = none;
    bet_amount = none;
    expected_shares = none;
    circuit_key = none;
    is_no = false;
  }

  abbrev pub deposit_event : ℕ → ℕ → Activity
  deposit_event wallet amount = record {
    wallet = wallet;
    kind = deposit;
    amount = amount;
    receipt_id = none;
  }

  unfoldable pub deposit_confirmed : ℕ → ℕ → ℕ → Ledger → Ledger
  deposit_confirmed wallet index amount l =
      record_wallet_activity (deposit_event wallet amount)
        (add_note (deposited_note wallet index amount) l)
