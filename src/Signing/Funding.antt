-- ===== src/Signing/Funding.antt =====
-- Just-in-time funding and the base buffer of the deposit wallet:
-- packages/backend/signing-layer/src/jitFunding.ts and bufferManager.ts. The token contract, the Vault
-- and the deposit wallet's executor are the record `Chain`. runOnFundingChain makes the tasks follow
-- one another, each whole, and goes on after one that throws.
pub mod Serial
use polyshield.Common.{
  ℕ, ◌+◌, ◌-◌, ◌≤◌, ◌≡◌, Bool, true, false, Option, none, some, List, [], ◌∷◌, if◌then◌else◌, ltb,
  leb, ◌==◌, ◌||◌, ◌&&◌, not,
}

-- What the code calls on the chain. The Bool is false where the call reverts or the RPC throws, and
-- the state is the one that is left either way.
pub record Chain : Type 1 where
  pub World : Type 0
  -- pusd.balanceOf(depositWallet); none where the read throws
  pub balance : World → Option ℕ
  -- Vault.fundPolymarketWallet and its receipt
  pub fund : ℕ → World → World × Bool
  -- wrapUsdcToPusd
  pub wrap : ℕ → World → World × Bool

-- The documented effects: funding in USDC leaves the pUSD alone, and wrapping mints the amount.
pub record IsLawful (c : Chain) : Type 0 where
  pub fund_keeps :
      (a : ℕ) (w : c.World) → (c.fund a w).1 ≡ true → c.balance (c.fund a w).0 ≡ c.balance w
  pub wrap_mints :
      (a : ℕ) (w : c.World) (b : ℕ)
      → c.balance w ≡ some b
      → (c.wrap a w).1 ≡ true
      → c.balance (c.wrap a w).0 ≡ some (b + a)

pub record FundingConfig : Type 0 where
  pub addresses_set : Bool
  pub low_water : ℕ
  pub target : ℕ

module _ (c : Chain) where
  open c use {World, balance, fund, wrap}

  abbrev pub wrap_if : ℕ → World × Bool → World × Bool
  wrap_if a (w, true) = wrap a w
  wrap_if a (w, false) = (w, false)

  -- Move an amount of USDC to the deposit wallet, and wrap it; a failure stops there.
  unfoldable pub top_up : ℕ → World → World × Bool
  top_up a w = wrap_if a (fund a w)

  abbrev pub fund_to : ℕ → Option ℕ → World → World × Bool
  fund_to bet none w = (w, false)
  fund_to bet (some have) w = if leb bet have then (w, true) else top_up (bet - have) w

  -- fundOnce: true where the wallet is funded, false at any failure.
  unfoldable pub fund_once : FundingConfig → ℕ → World → World × Bool
  fund_once cfg bet w = if cfg.addresses_set then fund_to bet (balance w) w else (w, false)

  abbrev pub target_of : FundingConfig → ℕ
  target_of cfg = if ltb cfg.target cfg.low_water then cfg.low_water else cfg.target

  abbrev pub refill : FundingConfig → Option ℕ → World → World × Bool
  refill cfg none w = (w, false)
  refill cfg (some have) w =
      if leb cfg.low_water have then (w, true) else top_up (target_of cfg - have) w

  -- topUpOnce; false where it throws, which runTick catches.
  unfoldable pub top_up_once : FundingConfig → World → World × Bool
  top_up_once cfg w = refill cfg (balance w) w

  -- The tasks of the funding chain.
  pub data Task : Type 0 where
    bet : ℕ → Task
    buffer : Task

  unfoldable pub run_task : FundingConfig → Task → World → World × Bool
  run_task cfg (bet amount) w = fund_once cfg amount w
  run_task cfg buffer w = top_up_once cfg w

  -- runOnFundingChain for tasks that are queued, with the result of each.
  unfoldable pub run_chain : FundingConfig → List Task → World → World × List Bool
  run_chain cfg [] w = (w, [])
  run_chain cfg (t ∷ ts) w =
      let (w', ok) = run_task cfg t w in let (w'', oks) = run_chain cfg ts w' in (w'', ok ∷ oks)

-- startBufferManager: whether the buffer manager runs.
unfoldable pub buffer_enabled : FundingConfig → Bool
buffer_enabled cfg = not (cfg.low_water == 0 || cfg.target == 0) && cfg.addresses_set
