-- ===== src/Signing/Funding/Serial.antt =====
-- Tasks on the funding chain never fund twice: jitFunding.ts and bufferManager.ts.
use polyshield.Signing.Funding.{
  Chain, IsLawful, FundingConfig, Task, bet, buffer, run_task, run_chain, top_up, fund_once,
  top_up_once, target_of, wrap_if,
}
use polyshield.Common.{
  ℕ, ◌≡◌, ◌-◌, ◌+◌, max, true, false, some, List, [], ◌∷◌, arith, Bool-cases, inl, inr, leb,
  if◌then◌else◌, refl, Bool, ◌∙◌, ap,
}

module _ (c : Chain) (lawful : IsLawful c) where
  open c use {World, balance, fund, wrap}

  top_up_lem :
      (a have : ℕ) (w : World)
      → balance w ≡ some have
      → (top_up c a w).1 ≡ true
      → balance (top_up c a w).0 ≡ some (have + a)
  unfolding top_up
  top_up_lem a have w h ok = go (fund a w) (lawful.fund_keeps a w) ok
    where
      go :
          (r : World × Bool)
          → (r.1 ≡ true → balance r.0 ≡ balance w)
          → (wrap_if c a r).1 ≡ true
          → balance (wrap_if c a r).0 ≡ some (have + a)
      go (w', true) keeps ok' = lawful.wrap_mints a w' have (keeps refl ∙ h) ok'
      go (w', false) keeps ok' = cc

  -- The balance that a task leaves behind where it succeeds.
  abbrev pub wanted : FundingConfig → Task c → ℕ → ℕ
  wanted cfg (bet amount) have = max have amount
  wanted cfg buffer have = if leb cfg.low_water have then have else target_of c cfg

  fund_once_lem :
      (cfg : FundingConfig) (amount have : ℕ) (w : World)
      → balance w ≡ some have
      → (fund_once c cfg amount w).1 ≡ true
      → balance (fund_once c cfg amount w).0 ≡ some (max have amount)
  unfolding fund_once
  fund_once_lem cfg amount have w h ok = elim (Bool-cases cfg.addresses_set) [
    | inr unset ↦ cc (rw unset at ok)
    | inl ready ↦ elim (Bool-cases (leb amount have)) [
      | inl covered ↦ rw (ready, h, covered) (h ∙ ap some (ground arith))
      | inr short ↦
          rw (ready, h, short)
            (top_up_lem (amount - have) have w h (rw (ready, h, short) at ok)
              ∙ ap some (ground arith))
    ]
  ]

  top_up_once_lem :
      (cfg : FundingConfig) (have : ℕ) (w : World)
      → balance w ≡ some have
      → (top_up_once c cfg w).1 ≡ true
      → balance (top_up_once c cfg w).0
        ≡ some (if leb cfg.low_water have then have else target_of c cfg)
  unfolding top_up_once
  top_up_once_lem cfg have w h ok = elim (Bool-cases (leb cfg.low_water have)) [
    | inl full ↦ rw (h, full) h
    | inr low ↦
        rw (h, low)
          (top_up_lem (target_of c cfg - have) have w h (rw (h, low) at ok)
            ∙ ap some (ground arith))
  ]

  run_task_lem :
      (cfg : FundingConfig) (t : Task c) (have : ℕ) (w : World)
      → balance w ≡ some have
      → (run_task c cfg t w).1 ≡ true
      → balance (run_task c cfg t w).0 ≡ some (wanted cfg t have)
  unfolding run_task
  run_task_lem cfg (bet amount) have w h ok = fund_once_lem cfg amount have w h ok
  run_task_lem cfg buffer have w h ok = top_up_once_lem cfg have w h ok

  abbrev pub wanted_all : FundingConfig → List (Task c) → ℕ → ℕ
  wanted_all cfg [] have = have
  wanted_all cfg (t ∷ ts) have = wanted_all cfg ts (wanted cfg t have)

  abbrev pub AllOk : List Bool → Type 0
  AllOk [] = Unit
  AllOk (ok ∷ oks) = (ok ≡ true) × AllOk oks

  -- Where all tasks succeed, the balance is brought up to what each asks for, and no further: a bet
  -- to its amount, the buffer to its target if the balance is below low water. Nothing is funded twice.
  pub run_chain_lem :
      (cfg : FundingConfig) (ts : List (Task c)) (have : ℕ) (w : World)
      → balance w ≡ some have
      → AllOk (run_chain c cfg ts w).1
      → balance (run_chain c cfg ts w).0 ≡ some (wanted_all cfg ts have)
  unfolding run_chain
  run_chain_lem cfg [] have w h ok = h
  run_chain_lem cfg (t ∷ ts) have w h (ok, oks) =
      run_chain_lem cfg ts (wanted cfg t have) (run_task c cfg t w).0
        (run_task_lem cfg t have w h ok) oks
