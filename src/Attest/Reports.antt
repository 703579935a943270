-- ===== src/Attest/Reports.antt =====
-- What a PARTIAL report of attestTerminal (packages/backend/signing-layer/src/terminalAttestation.ts) leaves to
-- the refund of packages/frontend/src/lib/finalizePartial.ts.
use polyshield.Common.{
  ℕ, ◌≡◌, true, ◌≤◌, ◌+◌, ◌-◌, ◌*◌, ◌/◌, inl, inr, arith, Bool-cases, ◌==◌, leb, ltb,
}
use native.Mathlib.Nat.{div-le_of_le-mul, mul-le-mul_left, mul_comm}
use polyshield.Attest.Store.{partial}
use polyshield.Attest.Terminal.{buy_report, TerminalBet, dust}
use polyshield.Frontend.Ledger.Refunds.{partial_refund}

-- The refund is what was not spent, and at most the fee more.
refund_lem :
    (bet spent fee : ℕ)
    → spent ≤ bet
    → (bet ≤ spent + partial_refund bet spent fee)
      × (spent + partial_refund bet spent fee ≤ bet + fee)
unfolding partial_refund
refund_lem bet spent fee h = elim (Bool-cases (ltb spent bet)) [
  | inl less ↦
      let some_left : ltb 0 (bet - spent) ≡ true = ground arith in
      let staked : ltb 0 bet ≡ true = ground arith in
      let part : fee * (bet - spent) / bet ≤ fee =
        div-le_of_le-mul bet (rw (mul_comm bet fee) (mul-le-mul_left fee (omega arith))) in
      rw (less, some_left, staked) (omega arith, omega (arith, part))
  | inr all ↦ rw all (ground arith, ground arith)
]

-- A BUY that is reported as PARTIAL costs the user its stake and no more than that and the fee: whatever
-- fill and cost the CLOB gives, the cost that is reported and the refund that the frontend reckons from it
-- are together the stake at least, and the stake with the protocol fee at most.
pub partial_report_splits_stake :
    (bet : TerminalBet) (shares spent fee : ℕ)
    → (buy_report bet shares spent).report_type ≡ partial
    → let cost = (buy_report bet shares spent).amount_b in
      (bet.bet_amount ≤ cost + partial_refund bet.bet_amount cost fee)
      × (cost + partial_refund bet.bet_amount cost fee ≤ bet.bet_amount + fee)
unfolding buy_report
partial_report_splits_stake bet shares spent fee reported = elim (Bool-cases (shares == 0)) [
  | inl nothing ↦ absurd (cc (rw nothing at reported))
  | inr bought ↦ elim (Bool-cases (leb bet.expected_shares (shares + dust))) [
    | inl whole ↦ absurd (cc (rw (bought, whole) at reported))
    | inr part ↦ elim (Bool-cases (leb spent bet.bet_amount)) [
      | inl within ↦ rw (bought, part, within) (refund_lem bet.bet_amount spent fee (ground arith))
      | inr over ↦
          rw (bought, part, over) (refund_lem bet.bet_amount bet.bet_amount fee (omega arith))
    ]
  ]
]
