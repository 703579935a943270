-- ===== src/Frontend/Portfolio/Basis.antt =====
-- The cost that packages/frontend/src/lib/accountState.ts counts for a bet that finalizeClose.ts credits a
-- sale of and settlePosition.ts a settlement.
use polyshield.Common.{
  ℕ, ◌+◌, ◌-◌, ◌*◌, ◌<◌, ◌≡◌, ◌∙◌, Bool, true, false, Option, none, some, List, [], ◌∷◌, ◌++◌, ◌==◌,
  ap, refl, arith, Bool-cases, inl, inr, leb, ltb,
}
use polyshield.Frontend.Ledger.{
  Ledger, Note, settlement, record_wallet_activity, add_note, mark_note_spent,
  mark_bet_receipt_spent,
}
use polyshield.Frontend.Ledger.Flows.{
  ChainBet, Att, Replies, Reply, done, settled, close_full, close_with, close_sold, finalize_close,
  settle_with, settle_position, credited, closed_credited, report_sold, left_open,
}
use polyshield.Frontend.Portfolio.{
  committed, refunded, cost_basis, total_pnl, of_wallet, get_wallet_activity,
}
use polyshield.Frontend.Ledger.Flows.{left_open, thrown}
use polyshield.Frontend.Portfolio.History.{
  total_pnl-settled, of_wallet-append, committed-settled, refunded-settled,
}

module _ (commit : ℕ → ℕ → ℕ → ℕ → ℕ) (nullify : ℕ → ℕ → ℕ → ℕ) (wallet : ℕ) where
  -- The activity has one record more, the settlement of the receipt.
  abbrev pub Booked : Note → ℕ → Ledger → Ledger → Type 0
  Booked receipt amount l l' =
      l'.activity ≡ l.activity ++ settled wallet settlement amount receipt ∷ []

  abbrev amount_of : Reply → ℕ
  amount_of (done n) = n
  amount_of (left_open r) = 0
  amount_of thrown = 0

  settle_with-Booked :
      (receipt : Note) (claim credit : ℕ) (relayed : Bool) (l : Ledger) (free : Option Note)
      → (settle_with commit nullify wallet receipt claim relayed l free).0 ≡ done credit
      → Booked receipt credit l (settle_with commit nullify wallet receipt claim relayed l free).1
  unfolding add_note record_wallet_activity mark_note_spent mark_bet_receipt_spent
  settle_with-Booked receipt claim credit relayed l none e = absurd (cc (e))
  settle_with-Booked receipt claim credit false l (some free) e = absurd (cc (e))
  settle_with-Booked receipt claim credit true l (some free) e =
      ap (λ r. l.activity ++ settled wallet settlement (amount_of r) receipt ∷ []) e

  pub settle_position-Booked :
      (receipt : Note) (claim credit : ℕ) (rec : ChainBet) (a : Replies) (l : Ledger)
      → a.bet_record ≡ some rec
      → (rec.status == credited) ≡ false
      → (settle_position commit nullify wallet receipt claim a l).0 ≡ done credit
      → Booked receipt credit l (settle_position commit nullify wallet receipt claim a l).1
  unfolding settle_position
  settle_position-Booked receipt claim credit rec a l r unsettled e =
      rw (r, unsettled)
        (settle_with-Booked receipt claim credit a.relayed l _ (rw (r, unsettled) at e))

  close_full-activity :
      (full : Bool) (receipt : Note) (l : Ledger)
      → (close_full full receipt l).activity ≡ l.activity
  unfolding mark_bet_receipt_spent
  close_full-activity true receipt l = refl
  close_full-activity false receipt l = refl

  close_with-Booked :
      (receipt : Note) (credit : ℕ) (rec : ChainBet) (att : Att) (relayed : Bool) (l : Ledger)
      (free : Option Note)
      → (close_with commit nullify wallet receipt rec att relayed l free).0 ≡ done credit
      → Booked receipt credit l (close_with commit nullify wallet receipt rec att relayed l free).1
  unfolding add_note record_wallet_activity mark_note_spent
  close_with-Booked receipt credit rec att relayed l none e = absurd (cc (e))
  close_with-Booked receipt credit rec att false l (some free) e = absurd (cc (e))
  close_with-Booked receipt credit rec att true l (some free) e =
      ap (λ es. es ++ settled wallet settlement att.amount_b receipt ∷ [])
        (close_full-activity (leb rec.expected_shares att.amount_a) receipt
          (mark_note_spent free.id l))
      ∙ ap (λ r. l.activity ++ settled wallet settlement (amount_of r) receipt ∷ []) e

  close_sold-Booked :
      (receipt : Note) (credit : ℕ) (rec : ChainBet) (relayed : Bool) (l : Ledger)
      (att : Option (Option Att))
      → (close_sold commit nullify wallet receipt rec relayed l att).0 ≡ done credit
      → Booked receipt credit l (close_sold commit nullify wallet receipt rec relayed l att).1
  close_sold-Booked receipt credit rec relayed l none e = absurd (cc (e))
  close_sold-Booked receipt credit rec relayed l (some none) e = absurd (cc (e))
  close_sold-Booked receipt credit rec relayed l (some (some att)) e =
      elim (Bool-cases (att.report_type == report_sold)) [
        | inl sale ↦ rw sale (close_with-Booked receipt credit rec att relayed l _ (rw sale at e))
        | inr other ↦ absurd (cc (rw other at e))
      ]

  finalize_close-Booked :
      (receipt : Note) (credit : ℕ) (rec : ChainBet) (a : Replies) (l : Ledger)
      → a.bet_record ≡ some rec
      → (rec.status == closed_credited) ≡ false
      → (finalize_close commit nullify wallet receipt a l).0 ≡ done credit
      → Booked receipt credit l (finalize_close commit nullify wallet receipt a l).1
  unfolding finalize_close
  finalize_close-Booked receipt credit rec a l r unclosed e =
      rw (r, unclosed)
        (close_sold-Booked receipt credit rec a.relayed l a.attestation (rw (r, unclosed) at e))

  -- A settlement of a receipt gains its amount and costs the whole basis of the bet.
  one_settlement :
      (receipt : Note) (amount stake back : ℕ) (lost : List Note) (l l' : Ledger)
      → Booked receipt amount l l'
      → committed (some receipt.id) (get_wallet_activity wallet l) ≡ stake
      → refunded (some receipt.id) (get_wallet_activity wallet l) ≡ back
      → back < stake
      → let before = total_pnl (get_wallet_activity wallet l) lost in
        let after = total_pnl (get_wallet_activity wallet l') lost in
        (after.gain ≡ before.gain + amount)
        × (after.cost ≡ before.cost + (stake - back))
        × (committed (some receipt.id) (get_wallet_activity wallet l') ≡ stake)
        × (refunded (some receipt.id) (get_wallet_activity wallet l') ≡ back)
  unfolding cost_basis
  one_settlement receipt amount stake back lost l l' booked staked returned less =
      let e = settled wallet settlement amount receipt in
      let es = get_wallet_activity wallet l in
      let same : get_wallet_activity wallet l' ≡ es ++ e ∷ [] =
        ap (of_wallet wallet) booked ∙ of_wallet-append wallet l.activity e refl in
      let (gain, cost) = total_pnl-settled es e lost refl in
      let part : ltb back stake ≡ true = ground arith in
      let basis : cost_basis (some receipt.id) es ≡ stake - back =
        rw (staked, returned, part) refl in
      rw same (
        gain,
        omega (arith, cost, basis),
        committed-settled (some receipt.id) es e refl ∙ staked,
        refunded-settled (some receipt.id) es e refl ∙ returned,
      )

  -- A bet whose sale is credited and whose rest settles later is charged its cost twice: where the stake of
  -- a receipt and the refunds of it, fewer than the stake, are those of the wallet's activity, a close
  -- and then a settlement of the receipt, which both end with a credit that the chain did not have yet,
  -- add the two credits to the gain of the portfolio, and twice what the bet cost, the stake less
  -- the refunds, to the cost.
  pub close_and_settle_cost_twice :
      (receipt : Note) (claim proceeds credit stake back : ℕ) (lost : List Note)
      (sold_rec later_rec : ChainBet) (a later : Replies) (l : Ledger)
      → committed (some receipt.id) (get_wallet_activity wallet l) ≡ stake
      → refunded (some receipt.id) (get_wallet_activity wallet l) ≡ back
      → back < stake
      → a.bet_record ≡ some sold_rec
      → (sold_rec.status == closed_credited) ≡ false
      → later.bet_record ≡ some later_rec
      → (later_rec.status == credited) ≡ false
      → let (closed, l1) = finalize_close commit nullify wallet receipt a l in
        let (ended, l2) = settle_position commit nullify wallet receipt claim later l1 in
        closed ≡ done proceeds
        → ended ≡ done credit
        → let before = total_pnl (get_wallet_activity wallet l) lost in
          let after = total_pnl (get_wallet_activity wallet l2) lost in
          (after.gain ≡ before.gain + proceeds + credit)
          × (after.cost ≡ before.cost + 2 * (stake - back))
  close_and_settle_cost_twice receipt claim proceeds credit stake back lost sold_rec later_rec a
        later l staked returned less r unclosed r' unsettled e e' =
      let l1 = (finalize_close commit nullify wallet receipt a l).1 in
      let l2 = (settle_position commit nullify wallet receipt claim later l1).1 in
      let (gain, cost, staked1, returned1) =
        one_settlement receipt proceeds stake back lost l l1
          (finalize_close-Booked receipt proceeds sold_rec a l r unclosed e) staked returned less in
      let (gain', cost', _, _) =
        one_settlement receipt credit stake back lost l1 l2
          (settle_position-Booked receipt claim credit later_rec later l1 r' unsettled e') staked1
          returned1 less in
      (omega (arith, gain, gain'), omega (arith, cost, cost'))
