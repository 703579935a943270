-- ===== src/Frontend/Portfolio/Laws.antt =====
-- What the portfolio of packages/frontend/src/lib/accountState.ts shows of a bet.
use polyshield.Frontend.Ledger.{Note}
use mathlib.Core.Path.{subst}
use polyshield.Common.{
  ℕ, ◌-◌, ◌*◌, ◌<◌, ◌≡◌, true, false, Option, none, some, ltb, arith, refl, Bool-cases, inl, inr,
  ◌⊎◌, ◌&&◌, ◌∙◌, ap, sym,
}
use polyshield.Frontend.Ledger.Flows.{ChainBet}
use polyshield.Frontend.Portfolio.{
  Reads, Settlement, ready, lost, pending, unfilled_resolved, bet_did_fill, is_settleable,
  if_resolved, check_settlement_status, payout_of, settle_record, remaining_shares, has_shares,
  has_key,
}

-- What each status says of the answers.
abbrev pub IsJustified : Reads → Settlement → Type 0
IsJustified a pending = Unit
IsJustified a unfilled_resolved =
    (bet_did_fill a ≡ false) × (t : ℕ) × (a.resolved_at ≡ some t) × (0 < t)
IsJustified a lost =
    (bet_did_fill a ≡ true)
    × (a.pending_credit ≡ some 0)
    × (t : ℕ) × (a.resolved_at ≡ some t)
    × (0 < t)
IsJustified a (ready payout claim) =
    (bet_did_fill a ≡ true)
    × (a.pending_credit ≡ some payout)
    × (0 < payout)
    × (rec : ChainBet) × (a.bet_record ≡ some rec)
    × (is_settleable rec ≡ true)
    × (rec.sold_shares < rec.expected_shares)
    × (claim ≡ (rec.expected_shares - rec.sold_shares) * payout)

resolved_lem :
    (o : Option ℕ) (s : Settlement)
    → ((if_resolved s o ≡ s) × (t : ℕ) × (o ≡ some t) × (0 < t)) ⊎ (if_resolved s o ≡ pending)
resolved_lem none s = inr refl
resolved_lem (some t) s = elim (Bool-cases (ltb 0 t)) [
  | inl yes_at ↦ inl (rw yes_at refl, t, refl, ground arith)
  | inr not_yet ↦ inr (rw not_yet refl)
]

unresolved_lem :
    (a : Reads)
    → bet_did_fill a ≡ false
    → IsJustified a (if_resolved unfilled_resolved a.resolved_at)
unresolved_lem a h = elim (resolved_lem a.resolved_at unfilled_resolved) [
  | inl (e, t, et, p) ↦ subst (λ s. IsJustified a s) (sym e) (h, t, et, p)
  | inr e ↦ subst (λ s. IsJustified a s) (sym e) tt
]

lost_lem :
    (a : Reads)
    → bet_did_fill a ≡ true
    → a.pending_credit ≡ some 0
    → IsJustified a (if_resolved lost a.resolved_at)
lost_lem a h c = elim (resolved_lem a.resolved_at lost) [
  | inl (e, t, et, p) ↦ subst (λ s. IsJustified a s) (sym e) (h, c, t, et, p)
  | inr e ↦ subst (λ s. IsJustified a s) (sym e) tt
]

payout_lem :
    (a : Reads) (rec : ChainBet) (o : Option ℕ)
    → bet_did_fill a ≡ true
    → a.bet_record ≡ some rec
    → is_settleable rec ≡ true
    → rec.sold_shares < rec.expected_shares
    → a.pending_credit ≡ o
    → IsJustified a (payout_of (remaining_shares rec) a.resolved_at o)
payout_lem a rec none h r s lt e = tt
payout_lem a rec (some payout) h r s lt e = elim (Bool-cases (ltb 0 payout)) [
  | inl paid ↦ rw paid (h, e, (ground arith), rec, r, s, lt, refl)
  | inr unpaid ↦ rw unpaid (lost_lem a h (e ∙ ap some (ground arith)))
]

record_lem :
    (a : Reads) (o : Option ChainBet)
    → bet_did_fill a ≡ true
    → a.bet_record ≡ o
    → IsJustified a (settle_record a o)
record_lem a none h r = tt
record_lem a (some rec) h r =
    elim (Bool-cases (is_settleable rec && ltb 0 (remaining_shares rec))) [
      | inl unsold ↦
          rw unsold (payout_lem a rec a.pending_credit h r (ground arith) (ground arith) refl)
      | inr closed ↦ rw closed tt
    ]

-- What the portfolio says of a bet is justified by what was read: a position is ready only where it filled,
-- its record has one of the statuses that can be settled with shares left and the contract's pending credit
-- per share is positive, and the claim is then that credit for each share left; it is lost only where it
-- filled, the pending credit is 0 and the market is resolved; and it is unfilled in a resolved market
-- only where betDidFill says no.
pub check_settlement_status_lem :
    (receipt : Note) (a : Reads) → IsJustified a (check_settlement_status receipt a)
unfolding check_settlement_status
check_settlement_status_lem receipt a =
    elim (Bool-cases (has_shares receipt.expected_shares && has_key receipt.circuit_key)) [
      | inl known ↦ rw known (elim (Bool-cases (bet_did_fill a)) [
        | inl fill ↦ rw fill (record_lem a a.bet_record fill refl)
        | inr unfilled ↦ rw unfilled (unresolved_lem a unfilled)
      ])
      | inr unknown ↦ rw unknown tt
    ]
