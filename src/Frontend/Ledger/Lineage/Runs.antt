-- ===== src/Frontend/Ledger/Lineage/Runs.antt =====
-- The open positions of a wallet over any run of the flows of packages/frontend/src.
use polyshield.Common.{ℕ, ◌≡◌, ◌+◌, true, false, List, [], ◌∷◌, ltb}
use polyshield.Frontend.Ledger.{Ledger}
use polyshield.Frontend.Ledger.Effects.{IsGood}
use polyshield.Frontend.Ledger.Runs.{
  Move, deposit_move, merge_move, bet_move, withdraw_move, settle_move, close_move, partial_move,
  reclaim_move, move, run,
}
use polyshield.Frontend.Ledger.Books.{IsAllowed, AreAllowed, move-Keeps}
use polyshield.Frontend.Ledger.Kept.{IsCovered}
use polyshield.Frontend.Ledger.Lineage.{settle_position_covers, finalize_close_covers}
use polyshield.Frontend.Ledger.Lineage.Refunds.{finalize_partial-Covers, reclaim_bet-Covers}
use polyshield.Frontend.Ledger.Lineage.Spends.{
  IsAnchored, KeepsDust, PickIsAnchored, MergeKeepsDust, consolidate-Covers, submit_bet-Covers,
  submit_withdrawal-Covers, deposit-Covers,
}

module _ (commit : ℕ → ℕ → ℕ → ℕ → ℕ) (nullify : ℕ → ℕ → ℕ → ℕ) (wallet : ℕ) where
  -- A merge has at most one deposit with open positions, that of its first note; and where a withdrawal is
  -- from a note whose deposit has one, the page knows of it and the note holds more than 1.
  abbrev pub IsCareful : Move → Ledger → Type 0
  IsCareful (merge_move notes relayed) l = IsAnchored wallet notes l
  IsCareful (bet_move f picked merged relayed cash) l =
      ltb cash.balance (f.stake + f.fee) ≡ true → PickIsAnchored commit nullify wallet picked l
  IsCareful (withdraw_move open_deposits requested picked merged relayed cash) l =
      (ltb cash.balance requested ≡ false → KeepsDust wallet open_deposits cash l)
      × (ltb cash.balance requested ≡ true
          → MergeKeepsDust commit nullify wallet open_deposits picked merged l)
  IsCareful _ l = Unit

  abbrev pub AreCareful : List Move → Ledger → Type 0
  AreCareful [] l = Unit
  AreCareful (m ∷ ms) l = IsCareful m l × AreCareful ms (move commit nullify wallet m l)

  move_covers :
      (m : Move) (l : Ledger)
      → IsGood l
      → IsAllowed commit nullify wallet m l
      → IsCareful m l
      → IsCovered wallet l.notes
      → IsCovered wallet (move commit nullify wallet m l).notes
  unfolding move
  move_covers (deposit_move index amount) l good h c cov =
      deposit-Covers commit nullify wallet index amount l cov
  move_covers (merge_move notes relayed) l good h c cov =
      consolidate-Covers commit nullify wallet notes relayed l cov h c
  move_covers (bet_move f picked merged relayed cash) l good (can, after) c cov =
      submit_bet-Covers commit nullify wallet f picked merged relayed cash l cov can after c
  move_covers (withdraw_move open_deposits requested picked merged relayed cash) l good (can, after)
        (dust, merged_dust) cov =
      submit_withdrawal-Covers commit nullify wallet open_deposits requested picked merged relayed
        cash l cov can after dust merged_dust
  move_covers (settle_move receipt claim a) l good h c cov =
      settle_position_covers commit nullify wallet receipt claim a l good cov
  move_covers (close_move receipt a) l good h c cov =
      finalize_close_covers commit nullify wallet receipt a l good cov
  move_covers (partial_move receipt a) l good (r, h) c cov =
      finalize_partial-Covers commit nullify wallet receipt a l good cov r
  move_covers (reclaim_move receipt rec tries) l good (r, h) c cov =
      reclaim_bet-Covers commit nullify wallet receipt rec tries l good cov r

  -- No position is stranded: over any run of deposits, merges, bets, withdrawals, settlements, closes,
  -- refunds and reclaims, each ended by whatever the chain, the operator and the relay answer, from a good
  -- ledger where the moves are allowed, if each merge has at most one deposit with open positions, that of
  -- its first note, and each withdrawal from a note whose deposit has an open position knows of it and has
  -- a note with more than 1, then each deposit with an open bet keeps a note that a credit can land on.
  pub run_strands_no_position :
      (ms : List Move) (l : Ledger)
      → IsGood l
      → AreAllowed commit nullify wallet ms l
      → AreCareful ms l
      → IsCovered wallet l.notes
      → IsCovered wallet (run commit nullify wallet ms l).notes
  unfolding run
  run_strands_no_position [] l good h c cov = cov
  run_strands_no_position (m ∷ ms) l good (h, hs) (c, cs) cov =
      run_strands_no_position ms (move commit nullify wallet m l)
        (move-Keeps commit nullify wallet m l good h).0 hs cs (move_covers m l good h c cov)
