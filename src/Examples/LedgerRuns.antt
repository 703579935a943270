-- ===== src/Examples/LedgerRuns.antt =====
-- The flows of packages/frontend/src over the notes of a wallet, at concrete inputs.
use polyshield.Frontend.Ledger.Lineage.Runs.{AreCareful, run_strands_no_position}
use polyshield.Frontend.Ledger.Kept.{IsCovered}
use polyshield.Frontend.Portfolio.Ready.{ready_is_settled}
use polyshield.Frontend.Ledger.Flows.{done}
use polyshield.Frontend.Portfolio.Basis.{close_and_settle_cost_twice}
use polyshield.Frontend.Portfolio.{
  Reads, check_settlement_status, total_pnl, bet_did_fill, closed_bet_history, sum_rows,
  lost_stakes, cost_basis, ready, committed, refunded, of_wallet, rows_of, get_wallet_activity,
}
use polyshield.Common.{
  ℕ, ◌+◌, ◌≡◌, ◌∙◌, true, false, none, some, List, [], ◌∷◌, refl, sym, arith, ◌*◌, ◌-◌,
}
use mathlib.Core.Path.{subst}
use polyshield.Frontend.Ledger.{
  Ledger, Note, get_cash_balance, find_first, mark_first, get_free_note_for_deposit, latest_note,
  mark_note_spent, add_note, record_wallet_activity, mark_bet_receipt_spent, bet_output,
  settle_credit, sum_notes,
}
use polyshield.Frontend.Ledger.Flows.{Replies, settle_position, finalize_close, next_note, ChainBet}
use polyshield.Frontend.Ledger.Spends.{
  BetForm, submit_bet, submit_withdrawal, withdraw_from, effective_withdrawal, bet_on,
  deposit_confirmed, deposited_note, receipt_note,
}
use polyshield.Frontend.Ledger.Runs.{
  Move, deposit_move, bet_move, close_move, settle_move, withdraw_move, run, fees, paid, received,
  move,
}
use polyshield.Frontend.Ledger.Effects.{IsGood}
use polyshield.Frontend.Ledger.Sums.{some-same, has_note}
use polyshield.Frontend.Ledger.Balance.{NextIsFresh, CreditIsFresh}
use polyshield.Frontend.Ledger.Books.{AreAllowed, run_keeps_books}

abbrev commit_to : ℕ → ℕ → ℕ → ℕ → ℕ
commit_to w d b n = 10 * d + n

abbrev nullify_at : ℕ → ℕ → ℕ → ℕ
nullify_at w d n = 100 * d + n

abbrev empty : Ledger
empty = record { notes = []; activity = [] }

abbrev form : BetForm
form = record { stake = 20; fee = 1; shares = 40; circuit_key = 3; is_no = false }

abbrev first : Note
first = deposited_note commit_to nullify_at 7 1 50

abbrev receipt : Note
receipt = receipt_note commit_to nullify_at 7 first form

abbrev position : ChainBet
position = record {
  status = 1;
  bet_amount = 20;
  expected_shares = 40;
  sold_shares = 0;
  sell_proceeds = 0;
}

abbrev half_sold : Replies
half_sold = record {
  bet_record = some position;
  attestation = some (some (record { report_type = 4; amount_a = 20; amount_b = 12 }));
  protocol_fee = none;
  relayed = true;
}

-- A deposit of 50, a bet of 20 with a fee of 1, half of it sold for 12, the rest settled for 15, and a
-- withdrawal of 30 from the last note.
abbrev after_bet : Note
after_bet = next_note commit_to nullify_at 7 bet_output 29 first

abbrev after_close : Note
after_close = next_note commit_to nullify_at 7 settle_credit 41 after_bet

abbrev after_settle : Note
after_settle = next_note commit_to nullify_at 7 settle_credit 56 after_close

abbrev moves : List Move
moves =
    deposit_move 1 50
    ∷ bet_move form none true true first
    ∷ close_move receipt half_sold
    ∷ settle_move receipt 15 half_sold
    ∷ withdraw_move [] 30 none true true after_settle
    ∷ []

abbrev betted : Ledger
betted =
    run commit_to nullify_at 7 (deposit_move 1 50 ∷ bet_move form none true true first ∷ []) empty

abbrev closed : Ledger
closed = move commit_to nullify_at 7 (close_move receipt half_sold) betted

credit_is_fresh :
    (n : Note) (l : Ledger)
    → get_free_note_for_deposit 7 1 l ≡ some n
    → NextIsFresh commit_to nullify_at 7 n l
    → CreditIsFresh commit_to nullify_at 7 1 l
credit_is_fresh n l found fresh free e =
    subst (λ z. NextIsFresh commit_to nullify_at 7 z l) (some-same n free (sym found ∙ e)) fresh

moves_allowed : AreAllowed commit_to nullify_at 7 moves empty
unfolding run move deposit_confirmed submit_bet bet_on finalize_close settle_position
    submit_withdrawal get_free_note_for_deposit latest_note mark_note_spent mark_bet_receipt_spent
    add_note record_wallet_activity mark_first find_first
moves_allowed = (
  tt,
  (
    ((λ h. ((refl, refl), (λ b. (refl, tt)), (refl, tt))), (λ h. tt)),
    (
      credit_is_fresh after_bet betted refl (λ b. (refl, (refl, (refl, tt)))),
      (
        credit_is_fresh after_close closed refl (λ b. (refl, (refl, (refl, (refl, tt))))),
        (
          (
            (λ h. ((refl, refl), (λ b. (refl, (refl, (refl, (refl, (refl, tt)))))), omega arith)),
            (λ h. tt),
          ),
          tt,
        ),
      ),
    ),
  ),
)

empty_books : get_cash_balance 7 empty + paid 7 empty + 0 ≡ received 7 empty
unfolding get_cash_balance paid received sum_notes
empty_books = refl

run_keeps_books_example :
    let l = run commit_to nullify_at 7 moves empty in
    IsGood l
    × (get_cash_balance 7 l + paid 7 l + (0 + fees commit_to nullify_at 7 moves empty)
        ≡ received 7 l)
run_keeps_books_example =
    run_keeps_books commit_to nullify_at 7 moves empty 0 (tt, tt) moves_allowed empty_books

-- The cash at the end, and the P&L that the portfolio shows of a bet that gained 7.
cash_left : get_cash_balance 7 (run commit_to nullify_at 7 moves empty) ≡ 26
unfolding run get_cash_balance sum_notes move deposit_confirmed submit_bet bet_on finalize_close
    settle_position submit_withdrawal withdraw_from effective_withdrawal get_free_note_for_deposit
    latest_note mark_note_spent mark_bet_receipt_spent add_note record_wallet_activity mark_first
    find_first
cash_left = refl

history_of_moves :
    total_pnl (get_wallet_activity 7 (run commit_to nullify_at 7 moves empty)) []
    ≡ record { gain = 27; cost = 40 }
unfolding run total_pnl sum_rows lost_stakes closed_bet_history rows_of of_wallet cost_basis
    committed refunded move deposit_confirmed submit_bet bet_on finalize_close settle_position
    submit_withdrawal withdraw_from effective_withdrawal get_free_note_for_deposit latest_note
    mark_note_spent mark_bet_receipt_spent add_note record_wallet_activity mark_first find_first
history_of_moves = refl

close_and_settle_cost_twice_example :
    let l1 = (finalize_close commit_to nullify_at 7 receipt half_sold betted).1 in
    let l2 = (settle_position commit_to nullify_at 7 receipt 15 half_sold l1).1 in
    let before = total_pnl (get_wallet_activity 7 betted) [] in
    let after = total_pnl (get_wallet_activity 7 l2) [] in
    (after.gain ≡ before.gain + 12 + 15) × (after.cost ≡ before.cost + 2 * (20 - 0))
unfolding run move deposit_confirmed submit_bet bet_on finalize_close settle_position committed
    refunded of_wallet get_free_note_for_deposit latest_note mark_note_spent mark_bet_receipt_spent
    add_note record_wallet_activity mark_first find_first
close_and_settle_cost_twice_example =
    close_and_settle_cost_twice commit_to nullify_at 7 receipt 15 12 15 20 0 [] position position
      half_sold half_sold betted refl refl (omega arith) refl refl refl refl refl refl

-- Half of the position is left, at a payout of 1 a share.
abbrev won : Reads
won = record {
  status = some 1;
  attestation = none;
  resolved_at = none;
  bet_record = some (record {
    status = 1;
    bet_amount = 20;
    expected_shares = 40;
    sold_shares = 20;
    sell_proceeds = 12;
  });
  pending_credit = some 1;
}

abbrev rest_settles : Replies
rest_settles = record half_sold { bet_record = won.bet_record }

won_ready : check_settlement_status receipt won ≡ ready 1 20
unfolding check_settlement_status bet_did_fill
won_ready = refl

closed-IsGood : IsGood closed
unfolding run move deposit_confirmed submit_bet bet_on finalize_close get_free_note_for_deposit
    latest_note mark_note_spent mark_bet_receipt_spent add_note record_wallet_activity mark_first
    find_first
closed-IsGood = (
  ((refl, (refl, (refl, tt))), ((refl, (refl, tt)), ((refl, tt), (tt, tt)))),
  (refl, (refl, (refl, (refl, tt)))),
)

closed_free : get_free_note_for_deposit 7 1 closed ≡ some after_close
unfolding run move deposit_confirmed submit_bet bet_on finalize_close get_free_note_for_deposit
    latest_note mark_note_spent mark_bet_receipt_spent add_note record_wallet_activity mark_first
    find_first
closed_free = refl

closed_fresh : CreditIsFresh commit_to nullify_at 7 1 closed
unfolding run move deposit_confirmed submit_bet bet_on finalize_close get_free_note_for_deposit
    latest_note mark_note_spent mark_bet_receipt_spent add_note record_wallet_activity mark_first
    find_first
closed_fresh = credit_is_fresh after_close closed refl (λ b. (refl, (refl, (refl, (refl, tt)))))

ready_is_settled_example :
    let (reply, l) = settle_position commit_to nullify_at 7 receipt 20 rest_settles closed in
    (reply ≡ done 20)
    × (get_cash_balance 7 l ≡ get_cash_balance 7 closed + 20)
    × ((rec : ChainBet) × (won.bet_record ≡ some rec)
        × (20 ≡ (rec.expected_shares - rec.sold_shares) * 1))
ready_is_settled_example =
    ready_is_settled commit_to nullify_at 7 receipt after_close 1 20 won rest_settles closed
      won_ready refl refl closed_free closed-IsGood closed_fresh

-- A withdrawal of all of the cash while a bet is open leaves 1.
abbrev drain : List Move
drain =
    deposit_move 1 50
    ∷ bet_move form none true true first
    ∷ withdraw_move (1 ∷ []) 29 none true true after_bet
    ∷ []

drain_allowed : AreAllowed commit_to nullify_at 7 drain empty
unfolding run move deposit_confirmed submit_bet bet_on get_free_note_for_deposit latest_note
    mark_note_spent mark_bet_receipt_spent add_note record_wallet_activity mark_first find_first
drain_allowed = (
  tt,
  (
    ((λ h. ((refl, refl), (λ b. (refl, tt)), (refl, tt))), (λ h. tt)),
    (((λ h. ((refl, refl), (λ b. (refl, (refl, (refl, tt)))), omega arith)), (λ h. tt)), tt),
  ),
)

drain_careful : AreCareful commit_to nullify_at 7 drain empty
drain_careful = (tt, ((λ h. tt), (((λ h o. (refl, omega arith)), (λ h. tt)), tt)))

nothing_open : IsCovered 7 []
unfolding has_note
nothing_open d h = absurd (cc (h))

run_strands_no_position_example : IsCovered 7 (run commit_to nullify_at 7 drain empty).notes
run_strands_no_position_example =
    run_strands_no_position commit_to nullify_at 7 drain empty (tt, tt) drain_allowed drain_careful
      nothing_open

dust_left : get_cash_balance 7 (run commit_to nullify_at 7 drain empty) ≡ 1
unfolding run get_cash_balance sum_notes move deposit_confirmed submit_bet bet_on submit_withdrawal
    withdraw_from effective_withdrawal mark_note_spent add_note record_wallet_activity mark_first
    find_first
dust_left = refl
