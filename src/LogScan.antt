-- ===== src/LogScan.antt =====
-- Paging through eth_getLogs, and the retries of the provider:
-- packages/backend/proof-relay/src/merkle.ts (getLogsChunked, RetryingJsonRpcProvider) and
-- packages/backend/signing-layer/src/logScan.ts (queryFilterChunked, RetryingJsonRpcProvider), which
-- are the same loops. What the RPC answers to the k-th request is a parameter; isRateLimit, which
-- reads the text of an error, has sorted the failures into two kinds.
pub mod Coverage
pub mod Retry
use polyshield.Common.{
  ℕ, zero, suc, ◌+◌, ◌-◌, ◌/◌, min, max, Bool, true, false, List, [], ◌∷◌, ◌++◌, if◌then◌else◌,
  ◌==◌, leb,
}

-- The answer to one eth_getLogs.
pub data Answer {ℓ} (L : Type ℓ) : Type ℓ where
  logs : List L → Answer L
  rate_limited : Answer L
  failed : Answer L

-- The end of a scan: the logs, or the error that is thrown.
pub data Scan {ℓ} (L : Type ℓ) : Type ℓ where
  done : List L → Scan L
  rate_limited : Scan L
  failed : Scan L
  out_of_fuel : Scan L

-- The catch block and the end of a round: `advance` and `shrink` are the next rounds.
abbrev pub after_answer {ℓ} :
    {L : Type ℓ} → (List L → Scan L) → (Unit {0} → Scan L) → Bool → Answer L → Scan L
after_answer advance shrink single (logs ls) = advance ls
after_answer advance shrink single rate_limited = rate_limited
after_answer advance shrink true failed = failed
after_answer advance shrink false failed = shrink tt

module _ {ℓ} {L : Type ℓ} (ask : ℕ → ℕ → ℕ → Answer L) where
  -- The loop, from the `k`-th request on.
  unfoldable pub page : ℕ → ℕ → ℕ → ℕ → ℕ → List L → Scan L
  page zero k from to_block chunk out = out_of_fuel
  page (suc fuel) k from to_block chunk out =
      let to = min (from + chunk - 1) to_block in
      let rest =
        after_answer (λ ls. page fuel (k + 1) (to + 1) to_block chunk (out ++ ls))
          (λ _. page fuel (k + 1) from to_block (max 1 (chunk / 2)) out) (to == from)
          (ask k from to) in
      if leb from to_block then rest else done out

  -- Each round takes a block or halves the span, so the rounds are below the fuel.
  unfoldable pub get_logs_chunked : ℕ → ℕ → ℕ → Scan L
  get_logs_chunked from_block to_block start_chunk =
      let chunk = max 1 start_chunk in
      page (to_block + 1 - from_block + chunk + 1) 0 from_block to_block chunk []
