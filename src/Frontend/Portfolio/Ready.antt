-- ===== src/Frontend/Portfolio/Ready.antt =====
-- The bets that packages/frontend/src/lib/accountState.ts shows as ready, settled by settlePosition.ts.
use polyshield.Common.{
  ℕ, ◌+◌, ◌-◌, ◌*◌, ◌≡◌, ◌∙◌, true, false, some, ◌∷◌, [], ◌++◌, ◌==◌, ap, refl, arith,
}
use mathlib.Core.Path.{subst}
use polyshield.Frontend.Ledger.{
  Ledger, Note, settlement, get_cash_balance, get_free_note_for_deposit,
}
use polyshield.Frontend.Ledger.Flows.{ChainBet, Replies, done, settled, settle_position, credited}
use polyshield.Frontend.Ledger.Runs.{received, paid, received_in, paid_in, total_over}
use polyshield.Frontend.Ledger.Effects.{IsGood, total_over-append}
use polyshield.Frontend.Ledger.Balance.{
  CreditIsFresh, settle_position-Keeps, received_in-settled, paid_in-settled,
}
use polyshield.Frontend.Portfolio.{Reads, ready, is_settleable, check_settlement_status}
use polyshield.Frontend.Portfolio.Laws.{IsJustified, check_settlement_status_lem}
use polyshield.Frontend.Portfolio.Basis.{settle_position-Booked}

unsettled_lem : (rec : ChainBet) → is_settleable rec ≡ true → (rec.status == credited) ≡ false
unsettled_lem rec h = ground arith

module _ (commit : ℕ → ℕ → ℕ → ℕ → ℕ) (nullify : ℕ → ℕ → ℕ → ℕ) (wallet : ℕ) where
  settles :
      (receipt free : Note) (claim : ℕ) (rec : ChainBet) (r : Replies) (l : Ledger)
      → r.bet_record ≡ some rec
      → (rec.status == credited) ≡ false
      → r.relayed ≡ true
      → get_free_note_for_deposit wallet receipt.deposit_index l ≡ some free
      → (settle_position commit nullify wallet receipt claim r l).0 ≡ done claim
  unfolding settle_position
  settles receipt free claim rec r l known unsettled sent found =
      rw (known, unsettled, found, sent) refl

  -- Settling books the claim and adds it to the cash.
  settled_cash :
      (receipt : Note) (claim : ℕ) (rec : ChainBet) (r : Replies) (l : Ledger)
      → r.bet_record ≡ some rec
      → (rec.status == credited) ≡ false
      → IsGood l
      → CreditIsFresh commit nullify wallet receipt.deposit_index l
      → (settle_position commit nullify wallet receipt claim r l).0 ≡ done claim
      → get_cash_balance wallet (settle_position commit nullify wallet receipt claim r l).1
        ≡ get_cash_balance wallet l + claim
  unfolding received paid
  settled_cash receipt claim rec r l known unsettled good fresh ended =
      let l' = (settle_position commit nullify wallet receipt claim r l).1 in
      let e = settled wallet settlement claim receipt in
      let (_, kept) = settle_position-Keeps commit nullify wallet receipt claim r l good fresh in
      let booked : l'.activity ≡ l.activity ++ e ∷ [] =
        settle_position-Booked commit nullify wallet receipt claim claim rec r l known unsettled
          ended in
      let got : received wallet l' ≡ received wallet l + claim =
        ap (total_over (received_in wallet)) booked
        ∙ total_over-append (received_in wallet) l.activity e
        ∙ ap (λ n. received wallet l + n) (received_in-settled wallet claim settlement receipt) in
      let gave : paid wallet l' ≡ paid wallet l + 0 =
        ap (total_over (paid_in wallet)) booked
        ∙ total_over-append (paid_in wallet) l.activity e
        ∙ ap (λ n. paid wallet l + n) (paid_in-settled wallet claim settlement receipt) in
      omega (arith, kept, got, gave)

  -- A bet that the portfolio shows as ready is one that settling credits: from a good ledger with a note of
  -- the bet's deposit that can be spent, whose next commitment is new, if the settlement reads the same
  -- record of the bet and is relayed, it ends with the claim that was shown, the cash of the wallet is
  -- more by that claim, and the claim is the payout for each share that the record has left.
  pub ready_is_settled :
      (receipt free : Note) (payout claim : ℕ) (a : Reads) (r : Replies) (l : Ledger)
      → check_settlement_status receipt a ≡ ready payout claim
      → r.bet_record ≡ a.bet_record
      → r.relayed ≡ true
      → get_free_note_for_deposit wallet receipt.deposit_index l ≡ some free
      → IsGood l
      → CreditIsFresh commit nullify wallet receipt.deposit_index l
      → let (reply, l') = settle_position commit nullify wallet receipt claim r l in
        (reply ≡ done claim)
        × (get_cash_balance wallet l' ≡ get_cash_balance wallet l + claim)
        × ((rec : ChainBet) × (a.bet_record ≡ some rec)
            × (claim ≡ (rec.expected_shares - rec.sold_shares) * payout))
  ready_is_settled receipt free payout claim a r l shown same sent found good fresh =
      let (_, _, _, rec, known, settleable, _, worth) =
        subst (λ s. IsJustified a s) shown (check_settlement_status_lem receipt a) in
      let unsettled = unsettled_lem rec settleable in
      let ended = settles receipt free claim rec r l (same ∙ known) unsettled sent found in
      (
        ended,
        settled_cash receipt claim rec r l (same ∙ known) unsettled good fresh ended,
        (rec, known, worth),
      )
