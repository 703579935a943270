-- ===== src/Frontend/Portfolio.antt =====
-- packages/frontend/src/lib/accountState.ts: whether an open bet can be settled, what the user can reclaim,
-- and the history of closed bets with its profit and loss. A call that throws is answered by none.
pub mod Laws
pub mod History
pub mod Basis
pub mod Ready
use polyshield.Common.{
  ℕ, zero, ◌+◌, ◌-◌, ◌*◌, Bool, true, false, Option, none, some, List, [], ◌∷◌, ◌++◌, ◌&&◌, ◌||◌,
  not, if◌then◌else◌, ◌==◌, ltb,
}
use polyshield.Frontend.Receipts.{classify_receipt, ReceiptClass}
use polyshield.Frontend.Ledger.{
  Ledger, Note, NoteId, same_id, Activity, ActivityKind, deposit, withdrawal, bet, settlement,
  refund,
}
use polyshield.Frontend.Ledger.Flows.{
  ChainBet, Att, active, filled, failed, credited, cancelled_credited, closed_credited,
  partial_filled, resting, report_filled, report_partial,
}

-- fetchBetStatus, fetchAttestation, fetchMarketResolvedAt, fetchBetRecord and fetchPendingCredit
pub record Reads : Type 0 where
  pub status : Option ℕ
  pub attestation : Option (Option Att)
  pub resolved_at : Option ℕ
  pub bet_record : Option ChainBet
  pub pending_credit : Option ℕ

pub data Settlement : Type 0 where
  ready : ℕ → ℕ → Settlement
  lost pending unfilled_resolved : Settlement

abbrev pub is_filled_report : Option (Option Att) → Bool
is_filled_report (some (some att)) = att.report_type == report_filled
is_filled_report _ = false

abbrev pub filled_status : Option (Option Att) → Option ℕ → Bool
filled_status att none = false
filled_status att (some status) = status == filled || is_filled_report att

-- betDidFill
unfoldable pub bet_did_fill : Reads → Bool
bet_did_fill a = filled_status a.attestation a.status

abbrev pub if_resolved : Settlement → Option ℕ → Settlement
if_resolved s none = pending
if_resolved s (some at) = if ltb 0 at then s else pending

abbrev pub payout_of : ℕ → Option ℕ → Option ℕ → Settlement
payout_of remaining resolved none = pending
payout_of remaining resolved (some payout) =
    if ltb 0 payout then ready payout (remaining * payout) else if_resolved lost resolved

abbrev pub is_settleable : ChainBet → Bool
is_settleable rec = rec.status == filled || (rec.status == partial_filled || rec.status == active)

abbrev pub remaining_shares : ChainBet → ℕ
remaining_shares rec = rec.expected_shares - rec.sold_shares

abbrev pub settle_record : Reads → Option ChainBet → Settlement
settle_record a none = pending
settle_record a (some rec) =
    if is_settleable rec && ltb 0 (remaining_shares rec)
    then payout_of (remaining_shares rec) a.resolved_at a.pending_credit
    else pending

abbrev pub has_shares : Option ℕ → Bool
has_shares none = false
has_shares (some s) = ltb 0 s

abbrev pub has_key : Option ℕ → Bool
has_key none = false
has_key (some k) = true

-- checkSettlementStatus
unfoldable pub check_settlement_status : Note → Reads → Settlement
check_settlement_status receipt a =
    if has_shares receipt.expected_shares && has_key receipt.circuit_key
    then if bet_did_fill a
      then settle_record a a.bet_record
      else if_resolved unfilled_resolved a.resolved_at
    else pending

-- buildActionNeeded for one receipt: `sold` is the attestation of a sale, and `unfilled` that the receipt
-- is among the unfilled ones of resolved markets. A status that cannot be read is none.
abbrev pub is_terminal : Option ℕ → Bool
is_terminal none = false
is_terminal (some s) =
    s == credited || (s == cancelled_credited || (s == closed_credited || s == failed))

abbrev pub is_waiting : Option ℕ → Bool
is_waiting none = false
is_waiting (some s) = s == active || s == resting

abbrev pub outcome_of : Option Att → ℕ
outcome_of none = 0
outcome_of (some att) = att.report_type

abbrev pub spent_of : Option Att → Option ℕ
spent_of none = none
spent_of (some att) = if att.report_type == report_partial then some att.amount_b else none

abbrev pub stake_of_receipt : Note → Option ℕ → ℕ
stake_of_receipt receipt none = receipt.balance
stake_of_receipt receipt (some stake) = stake

-- The status is one of the contract's, or none, for which the classification gets a number of no status.
abbrev pub status_or : Option ℕ → ℕ
status_or none = 99
status_or (some s) = s

abbrev pub classified : Note → Option ℕ → Option Att → ReceiptClass
classified receipt status att = classify_receipt filled resting (record {
  ready = false;
  status = status_or status;
  outcome = outcome_of att;
  bet_amount = stake_of_receipt receipt receipt.bet_amount;
  fill_spent = spent_of att;
})

abbrev pub partial_due : ℕ → Bool → Option ℕ → ℕ
partial_due stake is_partial none = 0
partial_due stake is_partial (some spent) = if is_partial then stake - spent else 0

abbrev pub due_of : Note → Bool → Option ℕ → Option Att → ℕ
due_of receipt unfilled status att =
    let stake = stake_of_receipt receipt receipt.bet_amount in
    let cls = classified receipt status att in
    if cls.is_failed || unfilled then stake else partial_due stake cls.is_partial (spent_of att)

abbrev pub due_waiting : Note → Bool → Option ℕ → Option (Option Att) → ℕ
due_waiting receipt unfilled status none = 0
due_waiting receipt unfilled status (some att) = due_of receipt unfilled status att

abbrev pub due_unsold : Note → Bool → Option ℕ → Option (Option Att) → ℕ
due_unsold receipt unfilled status att =
    if is_waiting status
    then due_waiting receipt unfilled status att
    else due_of receipt unfilled status none

abbrev pub due_open : Note → Bool → Option ℕ → Option (Option Att) → Option (Option Att) → ℕ
due_open receipt unfilled status att none = 0
due_open receipt unfilled status att (some none) = due_unsold receipt unfilled status att
due_open receipt unfilled status att (some (some sold)) = sold.amount_b

unfoldable pub action_needed :
    Note → Bool → Option ℕ → Option (Option Att) → Option (Option Att) → ℕ
action_needed receipt unfilled status att sold =
    if is_terminal status then 0 else due_open receipt unfilled status att sold

-- The history of closed bets. A receipt's id may be missing.
abbrev pub same_receipt : Option NoteId → Option NoteId → Bool
same_receipt (some a) (some b) = same_id b a
same_receipt _ _ = false

abbrev pub is_bet : ActivityKind → Bool
is_bet bet = true
is_bet _ = false

abbrev pub is_refund : ActivityKind → Bool
is_refund refund = true
is_refund _ = false

abbrev pub is_settlement : ActivityKind → Bool
is_settlement settlement = true
is_settlement _ = false

-- betFor: the amount of the first bet of the receipt
unfoldable pub committed : Option NoteId → List Activity → ℕ
committed id [] = 0
committed id (e ∷ es) =
    if is_bet e.kind && same_receipt id e.receipt_id then e.amount else committed id es

unfoldable pub refunded : Option NoteId → List Activity → ℕ
refunded id [] = 0
refunded id (e ∷ es) =
    if is_refund e.kind && same_receipt id e.receipt_id
    then e.amount + refunded id es
    else refunded id es

-- The cost basis of a settlement.
unfoldable pub cost_basis : Option NoteId → List Activity → ℕ
cost_basis id activity =
    if ltb (refunded id activity) (committed id activity)
    then committed id activity - refunded id activity
    else committed id activity

-- The `gain` less the `cost`.
pub record Pnl : Type 0 where
  pub gain : ℕ
  pub cost : ℕ

pub record ClosedBet : Type 0 where
  pub receipt_id : Option NoteId
  pub amount : ℕ
  pub bet_amount : ℕ
  pub pnl : Pnl

abbrev pub settlement_row : List Activity → Activity → ClosedBet
settlement_row activity e =
    let bet_amount = cost_basis e.receipt_id activity in
    record {
      receipt_id = e.receipt_id;
      amount = e.amount;
      bet_amount = bet_amount;
      pnl = record { gain = e.amount; cost = bet_amount };
    }

abbrev pub refund_row : List Activity → Activity → ClosedBet
refund_row activity e = record {
  receipt_id = e.receipt_id;
  amount = e.amount;
  bet_amount = committed e.receipt_id activity;
  pnl = record { gain = 0; cost = 0 };
}

unfoldable pub rows_of :
    (ActivityKind → Bool) → (Activity → ClosedBet) → List Activity → List ClosedBet
rows_of p row [] = []
rows_of p row (e ∷ es) = if p e.kind then row e ∷ rows_of p row es else rows_of p row es

-- closedBetHistory of a wallet's activity
unfoldable pub closed_bet_history : List Activity → List ClosedBet
closed_bet_history activity =
    rows_of is_settlement (settlement_row activity) activity
    ++ rows_of is_refund (refund_row activity) activity

-- The stakes of the lost bets count as a cost.
unfoldable pub sum_rows : List ClosedBet → Pnl
sum_rows [] = record { gain = 0; cost = 0 }
sum_rows (c ∷ cs) = record {
  gain = c.pnl.gain + (sum_rows cs).gain;
  cost = c.pnl.cost + (sum_rows cs).cost;
}

unfoldable pub lost_stakes : List Note → ℕ
lost_stakes [] = 0
lost_stakes (n ∷ ns) = stake_of_receipt n n.bet_amount + lost_stakes ns

unfoldable pub total_pnl : List Activity → List Note → Pnl
total_pnl activity lost_bets =
    let rows = sum_rows (closed_bet_history activity) in
    record { gain = rows.gain; cost = rows.cost + lost_stakes lost_bets }

-- getWalletActivity of notes.ts; the activity stands in the order of its time.
unfoldable pub of_wallet : ℕ → List Activity → List Activity
of_wallet wallet [] = []
of_wallet wallet (e ∷ es) =
    if e.wallet == wallet then e ∷ of_wallet wallet es else of_wallet wallet es

abbrev pub get_wallet_activity : ℕ → Ledger → List Activity
get_wallet_activity wallet l = of_wallet wallet l.activity
