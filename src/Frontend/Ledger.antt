-- ===== src/Frontend/Ledger.antt =====
-- packages/frontend/src/lib/notes.ts: the notes and the activity that a browser keeps, with the operations
-- that change them. Addresses, nullifiers and commitments are opaque numbers, equal where the code's
-- comparison says so. Every writer gives a note its commitment as its id, so the model has the id
-- alone. Fields that are only shown are left out, and a record of the activity stands in the order
-- of its time. The answers of the chain to the browser are `Replies` of Ledger/Flows.
pub mod Flows
pub mod Refunds
pub mod Spends
pub mod Sums
pub mod Latest
pub mod Runs
pub mod Effects
pub mod Replace
pub mod Balance
pub mod RefundBooks
pub mod Reclaims
pub mod ReclaimBooks
pub mod SpendBooks
pub mod WithdrawBooks
pub mod Books
pub mod Kept
pub mod Lineage
use polyshield.Common.{
  ℕ, ◌+◌, Bool, true, false, Option, none, some, List, [], ◌∷◌, ◌++◌, ◌&&◌, ◌||◌, not,
  if◌then◌else◌, ◌==◌, ltb,
}

pub data Kind : Type 0 where
  deposit_note bet_output settle_credit cancel_credit bet_receipt : Kind

abbrev pub is_receipt : Kind → Bool
is_receipt bet_receipt = true
is_receipt _ = false

-- A commitment, or the text `receipt-` with a nullifier.
pub data NoteId : Type 0 where
  hashed : ℕ → NoteId
  receipt_of : ℕ → NoteId

abbrev pub same_id : NoteId → NoteId → Bool
same_id (hashed a) (hashed b) = a == b
same_id (receipt_of a) (receipt_of b) = a == b
same_id (hashed a) (receipt_of b) = false
same_id (receipt_of a) (hashed b) = false

-- `circuit_key` is what receiptCircuitKey answers, and `is_no` that the side is NO.
pub record Note : Type 0 where
  pub id : NoteId
  pub kind : Kind
  pub owner : ℕ
  pub deposit_index : ℕ
  pub balance : ℕ
  pub nonce : ℕ
  pub nullifier : ℕ
  pub spent : Bool
  pub nullifier_of_bet : Option ℕ
  pub bet_amount : Option ℕ
  pub expected_shares : Option ℕ
  pub circuit_key : Option ℕ
  pub is_no : Bool

pub data ActivityKind : Type 0 where
  deposit withdrawal bet settlement refund : ActivityKind

pub record Activity : Type 0 where
  pub wallet : ℕ
  pub kind : ActivityKind
  pub amount : ℕ
  pub receipt_id : Option NoteId

pub record Ledger : Type 0 where
  pub notes : List Note
  pub activity : List Activity

unfoldable pub find_first : (Note → Bool) → List Note → Option Note
find_first p [] = none
find_first p (n ∷ ns) = if p n then some n else find_first p ns

-- notes[findIndex(p)].spent = true, where there is one
unfoldable pub mark_first : (Note → Bool) → List Note → List Note
mark_first p [] = []
mark_first p (n ∷ ns) = if p n then record n { spent = true } ∷ ns else n ∷ mark_first p ns

-- notes[findIndex(p)] = next, or push
unfoldable pub put_first : (Note → Bool) → Note → List Note → List Note
put_first p next [] = next ∷ []
put_first p next (n ∷ ns) = if p n then next ∷ ns else n ∷ put_first p next ns

abbrev pub has_id : NoteId → Note → Bool
has_id id n = same_id n.id id

abbrev pub is_some_of : ℕ → Option ℕ → Bool
is_some_of n none = false
is_some_of n (some m) = m == n

abbrev pub is_receipt_of : ℕ → Note → Bool
is_receipt_of nb n = is_receipt n.kind && (is_some_of nb n.nullifier_of_bet || n.nullifier == nb)

-- markNoteSpent, markBetReceiptSpent, addNote, replaceNote and recordWalletActivity
unfoldable pub mark_note_spent : NoteId → Ledger → Ledger
mark_note_spent id l = record l { notes = mark_first (has_id id) l.notes }

unfoldable pub mark_bet_receipt_spent : ℕ → Ledger → Ledger
mark_bet_receipt_spent nb l = record l { notes = mark_first (is_receipt_of nb) l.notes }

unfoldable pub add_note : Note → Ledger → Ledger
add_note n l = record l { notes = l.notes ++ n ∷ [] }

unfoldable pub replace_note : NoteId → Note → Ledger → Ledger
replace_note id next l = record l { notes = put_first (has_id id) next l.notes }

unfoldable pub record_wallet_activity : Activity → Ledger → Ledger
record_wallet_activity e l = record l { activity = l.activity ++ e ∷ [] }

-- getSpendableNotes and getOpenBetReceipts of a wallet, as conditions; no receipt is hidden.
abbrev pub is_spendable : ℕ → Note → Bool
is_spendable wallet n = not n.spent && (not (is_receipt n.kind) && n.owner == wallet)

abbrev pub is_open_receipt : ℕ → Note → Bool
is_open_receipt wallet n = not n.spent && (is_receipt n.kind && n.owner == wallet)

-- getCashBalance
abbrev pub cash_of : ℕ → Note → ℕ
cash_of wallet n = if is_spendable wallet n then n.balance else 0

unfoldable pub sum_notes : (Note → ℕ) → List Note → ℕ
sum_notes f [] = 0
sum_notes f (n ∷ ns) = f n + sum_notes f ns

unfoldable pub get_cash_balance : ℕ → Ledger → ℕ
get_cash_balance wallet l = sum_notes (cash_of wallet) l.notes

-- getFreeNoteForDeposit: the first of the spendable notes of the deposit with the largest nonce
abbrev pub is_in_deposit : ℕ → ℕ → Note → Bool
is_in_deposit wallet d n = is_spendable wallet n && n.deposit_index == d

abbrev pub later_note : Note → Option Note → Option Note
later_note n none = some n
later_note n (some m) = if ltb n.nonce m.nonce then some m else some n

unfoldable pub latest_note : (Note → Bool) → List Note → Option Note
latest_note p [] = none
latest_note p (n ∷ ns) = let rest = latest_note p ns in if p n then later_note n rest else rest

unfoldable pub get_free_note_for_deposit : ℕ → ℕ → Ledger → Option Note
get_free_note_for_deposit wallet d l = latest_note (is_in_deposit wallet d) l.notes
