-- ===== src/Frontend/Ledger/Runs.antt =====
-- Runs of the flows of packages/frontend/src over one wallet, in any order, and the books of a wallet.
use polyshield.Common.{ℕ, ◌+◌, Bool, Option, List, [], ◌∷◌, if◌then◌else◌, ◌==◌}
use polyshield.Frontend.Ledger.{
  Ledger, Note, Activity, ActivityKind, deposit, withdrawal, bet, settlement, refund,
}
use polyshield.Frontend.Ledger.Flows.{ChainBet, Att, Replies, settle_position, finalize_close}
use polyshield.Frontend.Ledger.Refunds.{finalize_partial_fill, reclaim_bet}
use polyshield.Frontend.Ledger.Spends.{
  BetForm, consolidate_notes, submit_bet, submit_withdrawal, deposit_confirmed,
}

-- A call of a flow with what is answered to it. `bet_move` is submit_bet and `withdraw_move` is
-- submit_withdrawal; the relay's answers to the merge and to the rest stand in this order.
pub data Move : Type 0 where
  deposit_move : ℕ → ℕ → Move
  merge_move : List Note → Bool → Move
  bet_move : BetForm → Option (List Note) → Bool → Bool → Note → Move
  withdraw_move : List ℕ → ℕ → Option (List Note) → Bool → Bool → Note → Move
  settle_move : Note → ℕ → Replies → Move
  close_move : Note → Replies → Move
  partial_move : Note → Replies → Move
  reclaim_move : Note → Option ChainBet → List (Option (Option Att) × Replies) → Move

-- What a record of the activity adds to the balance, and what it takes.
abbrev pub received_by : ActivityKind → ℕ → ℕ
received_by deposit a = a
received_by settlement a = a
received_by refund a = a
received_by withdrawal a = 0
received_by bet a = 0

abbrev pub paid_by : ActivityKind → ℕ → ℕ
paid_by withdrawal a = a
paid_by bet a = a
paid_by deposit a = 0
paid_by settlement a = 0
paid_by refund a = 0

abbrev pub total_over : (Activity → ℕ) → List Activity → ℕ
total_over f [] = 0
total_over f (e ∷ es) = f e + total_over f es

abbrev pub received_in : ℕ → Activity → ℕ
received_in wallet e = if e.wallet == wallet then received_by e.kind e.amount else 0

abbrev pub paid_in : ℕ → Activity → ℕ
paid_in wallet e = if e.wallet == wallet then paid_by e.kind e.amount else 0

-- The deposits, settlements and refunds of a wallet, and its withdrawals and stakes.
unfoldable pub received : ℕ → Ledger → ℕ
received wallet l = total_over (received_in wallet) l.activity

unfoldable pub paid : ℕ → Ledger → ℕ
paid wallet l = total_over (paid_in wallet) l.activity

module _ (commit : ℕ → ℕ → ℕ → ℕ → ℕ) (nullify : ℕ → ℕ → ℕ → ℕ) (wallet : ℕ) where
  unfoldable pub move : Move → Ledger → Ledger
  move (deposit_move index amount) l = deposit_confirmed commit nullify wallet index amount l
  move (merge_move notes relayed) l = (consolidate_notes commit nullify wallet notes relayed l).1
  move (bet_move f picked merged relayed cash) l =
      (submit_bet commit nullify wallet f picked merged relayed cash l).1
  move (withdraw_move open_deposits requested picked merged relayed cash) l =
      (submit_withdrawal commit nullify wallet open_deposits requested picked merged relayed cash
        l).1
  move (settle_move receipt claim a) l = (settle_position commit nullify wallet receipt claim a l).1
  move (close_move receipt a) l = (finalize_close commit nullify wallet receipt a l).1
  move (partial_move receipt a) l = (finalize_partial_fill commit nullify wallet receipt a l).1
  move (reclaim_move receipt rec tries) l =
      (reclaim_bet commit nullify wallet receipt rec tries l).1

  unfoldable pub run : List Move → Ledger → Ledger
  run [] l = l
  run (m ∷ ms) l = run ms (move m l)

  -- The fees of the bets that were placed.
  abbrev pub fee_of : Move → Ledger → ℕ
  fee_of (bet_move f picked merged relayed cash) l =
      if (submit_bet commit nullify wallet f picked merged relayed cash l).0 then f.fee else 0
  fee_of _ l = 0

  unfoldable pub fees : List Move → Ledger → ℕ
  fees [] l = 0
  fees (m ∷ ms) l = fee_of m l + fees ms (move m l)
