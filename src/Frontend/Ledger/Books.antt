-- ===== src/Frontend/Ledger/Books.antt =====
-- The books of a wallet over any run of the flows of packages/frontend/src.
use polyshield.Common.{ℕ, ◌+◌, ◌≡◌, true, false, List, [], ◌∷◌, ltb, arith}
use polyshield.Frontend.Ledger.{Ledger, hashed, get_cash_balance}
use polyshield.Frontend.Ledger.Sums.{ids, IsFresh}
use polyshield.Frontend.Ledger.Effects.{IsGood}
use polyshield.Frontend.Ledger.Replace.{IsReceipt}
use polyshield.Frontend.Ledger.Runs.{
  Move, deposit_move, merge_move, bet_move, withdraw_move, settle_move, close_move, partial_move,
  reclaim_move, move, run, fee_of, fees, received, paid,
}
use polyshield.Frontend.Ledger.Balance.{
  Keeps, CreditIsFresh, settle_position-Keeps, finalize_close-Keeps,
}
use polyshield.Frontend.Ledger.RefundBooks.{finalize_partial-Keeps}
use polyshield.Frontend.Ledger.ReclaimBooks.{reclaim_bet-Keeps}
use polyshield.Frontend.Ledger.SpendBooks.{
  IsMergeable, AfterMerge, CanBet, consolidate-Keeps, submit_bet-keeps,
}
use polyshield.Frontend.Ledger.WithdrawBooks.{CanTake, submit_withdrawal-Keeps, deposit-Keeps}

module _ (commit : ℕ → ℕ → ℕ → ℕ → ℕ) (nullify : ℕ → ℕ → ℕ → ℕ) (wallet : ℕ) where
  -- What a move asks for: the notes that it spends are free ones of the wallet, the notes that it adds have
  -- new ids, a withdrawal is covered, and a receipt is one.
  abbrev pub IsAllowed : Move → Ledger → Type 0
  IsAllowed (deposit_move index amount) l =
      IsFresh (hashed (commit wallet index amount 0)) (ids l.notes)
  IsAllowed (merge_move notes relayed) l = IsMergeable commit nullify wallet notes l
  IsAllowed (bet_move f picked merged relayed cash) l =
      (ltb cash.balance (f.stake + f.fee) ≡ false → CanBet commit nullify wallet cash l)
      × (ltb cash.balance (f.stake + f.fee) ≡ true
          → AfterMerge commit nullify wallet (CanBet commit nullify wallet) picked merged l)
  IsAllowed (withdraw_move open_deposits requested picked merged relayed cash) l =
      (ltb cash.balance requested ≡ false → CanTake commit nullify wallet requested cash l)
      × (ltb cash.balance requested ≡ true
          → AfterMerge commit nullify wallet (CanTake commit nullify wallet requested) picked merged
              l)
  IsAllowed (settle_move receipt claim a) l =
      CreditIsFresh commit nullify wallet receipt.deposit_index l
  IsAllowed (close_move receipt a) l = CreditIsFresh commit nullify wallet receipt.deposit_index l
  IsAllowed (partial_move receipt a) l =
      IsReceipt receipt × CreditIsFresh commit nullify wallet receipt.deposit_index l
  IsAllowed (reclaim_move receipt rec tries) l =
      IsReceipt receipt × CreditIsFresh commit nullify wallet receipt.deposit_index l

  abbrev pub AreAllowed : List Move → Ledger → Type 0
  AreAllowed [] l = Unit
  AreAllowed (m ∷ ms) l = IsAllowed m l × AreAllowed ms (move commit nullify wallet m l)

  pub move-Keeps :
      (m : Move) (l : Ledger)
      → IsGood l
      → IsAllowed m l
      → Keeps wallet l (move commit nullify wallet m l) (fee_of commit nullify wallet m l)
  unfolding move
  move-Keeps (deposit_move index amount) l good h =
      deposit-Keeps commit nullify wallet index amount l good h
  move-Keeps (merge_move notes relayed) l good h =
      consolidate-Keeps commit nullify wallet notes relayed l good h
  move-Keeps (bet_move f picked merged relayed cash) l good (can, after) =
      submit_bet-keeps commit nullify wallet f picked merged relayed cash l good can after
  move-Keeps (withdraw_move open_deposits requested picked merged relayed cash) l good
        (can, after) =
      submit_withdrawal-Keeps commit nullify wallet open_deposits requested picked merged relayed
        cash l good can after
  move-Keeps (settle_move receipt claim a) l good h =
      settle_position-Keeps commit nullify wallet receipt claim a l good h
  move-Keeps (close_move receipt a) l good h =
      finalize_close-Keeps commit nullify wallet receipt a l good h
  move-Keeps (partial_move receipt a) l good (r, h) =
      finalize_partial-Keeps commit nullify wallet receipt a l good r h
  move-Keeps (reclaim_move receipt rec tries) l good (r, h) =
      reclaim_bet-Keeps commit nullify wallet receipt rec tries l good r h

  -- The cash of a wallet is what its activity says, less the fees: over any run of deposits, merges, bets,
  -- withdrawals, settlements, closes, refunds and reclaims, each ended by whatever the chain, the
  -- operator and the relay answer, from a good ledger whose books agree, where the moves are allowed, the
  -- ledger stays good, and the cash with what was paid out and staked and the fees of the bets placed
  -- is what was deposited, settled and refunded.
  pub run_keeps_books :
      (ms : List Move) (l : Ledger) (fee : ℕ)
      → IsGood l
      → AreAllowed ms l
      → get_cash_balance wallet l + paid wallet l + fee ≡ received wallet l
      → let l' = run commit nullify wallet ms l in
        IsGood l'
        × (get_cash_balance wallet l' + paid wallet l' + (fee + fees commit nullify wallet ms l)
            ≡ received wallet l')
  unfolding run fees
  run_keeps_books [] l fee good h books = (good, omega arith)
  run_keeps_books (m ∷ ms) l fee good (h, hs) books =
      let (good', kept) = move-Keeps m l good h in
      let (good'', books') =
        run_keeps_books ms (move commit nullify wallet m l) (fee + fee_of commit nullify wallet m l)
          good' hs (omega arith) in
      (good'', omega arith)
