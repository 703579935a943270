-- ===== src/Examples/SigningRuns.antt =====
-- The signing layer (packages/backend/signing-layer/src) and the log scans at concrete inputs.
use polyshield.Signing.Funding.Serial.{wanted_all, run_chain_lem}
use polyshield.Signing.Nonce.Sends.{Consecutive, next_nonce, send_all, send_all-Consecutive}
use polyshield.Signing.Nonce.{Manager, get_and_increment, other_error, decrement}
use polyshield.Signing.Funding.{
  Chain, FundingConfig, IsLawful, run_chain, Task, run_task, bet, fund_once, buffer, top_up_once,
  top_up,
}
use polyshield.Common.{
  blocks, ◌≡◌, ◌≢◌, ℕ, ◌+◌, ◌-◌, ◌≤◌, none, some, [], ◌∷◌, refl, List, ap, Option, sym, true, arith,
  ◌∙◌,
}
use Prim.Native.Nat.{zero, suc}
use polyshield.LogScan.{Answer, Scan, get_logs_chunked, page}
use polyshield.LogScan.Coverage.{get_logs_chunked_ends, IsHonest, get_logs_chunked_covers}
use polyshield.Signing.Nonce
use polyshield.Attest.Store.{
  Attestation, Signer, filled, failed, sign_and_store, read_slot, read_typed_row, read_outcome_row,
  insert_row, commit,
}
use polyshield.Attest.Terminal.{TerminalBet, buy, buy_report}
use polyshield.Attest.SingleWrite.{IsSingle, first_write_wins}
use polyshield.Attest.Race.{commit_both, race_breaks-IsSingle}
use polyshield.Attest.Reports.{partial_report_splits_stake}
use polyshield.Frontend.Ledger.Refunds.{partial_refund}

abbrev signer : Signer
signer n rt a b = some (n + a + b)

abbrev filled_row : Attestation
filled_row = record {
  nullifier = 3;
  report_type = filled;
  amount_a = 0;
  amount_b = 0;
  signature = 3;
}

abbrev failed_row : Attestation
failed_row = record {
  nullifier = 3;
  report_type = failed;
  amount_a = 0;
  amount_b = 0;
  signature = 3;
}

stored : sign_and_store signer 3 filled 0 0 [] ≡ (some filled_row, filled_row ∷ [])
unfolding sign_and_store read_slot read_typed_row read_outcome_row insert_row commit
stored = refl

first_write_wins_example :
    sign_and_store signer 3 failed 0 0 (filled_row ∷ []) ≡ (some filled_row, filled_row ∷ [])
first_write_wins_example =
    first_write_wins signer signer 3 filled failed 0 0 0 0 [] (filled_row ∷ []) filled_row stored
      refl

race_breaks-IsSingle_example : ¬ IsSingle (commit_both filled_row failed_row [])
unfolding read_outcome_row
race_breaks-IsSingle_example =
    race_breaks-IsSingle filled_row failed_row [] refl refl refl (λ e. cc) refl

abbrev bought : TerminalBet
bought = record { nullifier = 3; expected_shares = 5_000_000; bet_amount = 2_000_000; side = buy }

-- A fill of 2 of 5 shares whose cost, with the taker fee, is above the stake.
partial_report_splits_stake_example :
    let cost = (buy_report bought 2_000_000 2_100_000).amount_b in
    (2_000_000 ≤ cost + partial_refund 2_000_000 cost 9)
    × (cost + partial_refund 2_000_000 cost 9 ≤ 2_000_000 + 9)
unfolding buy_report
partial_report_splits_stake_example = partial_report_splits_stake bought 2_000_000 2_100_000 9 refl

-- One log for each block, its number; the first request is refused as too wide.
abbrev numbers : ℕ → ℕ → List ℕ
numbers a zero = []
numbers a (suc n) = a ∷ numbers (suc a) n

abbrev first_refused : ℕ → ℕ → ℕ → Answer ℕ
first_refused zero a b = Answer.failed
first_refused (suc k) a b = Answer.logs (numbers a (suc b - a))

abbrev number_of : ℕ → List ℕ
number_of n = n ∷ []

numbers-blocks : (a n : ℕ) → numbers a n ≡ blocks number_of a n
numbers-blocks a zero = refl
numbers-blocks a (suc n) = ap (λ ns. a ∷ ns) (numbers-blocks (suc a) n)

first_refused-IsHonest : IsHonest first_refused number_of
first_refused-IsHonest zero a b ls e = absurd (cc)
first_refused-IsHonest (suc k) a b ls e =
    let same : numbers a (suc b - a) ≡ ls = cc in sym same ∙ numbers-blocks a (suc b - a)

get_logs_chunked_ends_example : get_logs_chunked first_refused 3 6 3 ≢ Scan.out_of_fuel
get_logs_chunked_ends_example = get_logs_chunked_ends first_refused 3 6 3

scanned : get_logs_chunked first_refused 3 6 3 ≡ Scan.done (3 ∷ 4 ∷ 5 ∷ 6 ∷ [])
unfolding get_logs_chunked page
scanned = refl

get_logs_chunked_covers_example : ◌≡◌ {A = List ℕ} (3 ∷ 4 ∷ 5 ∷ 6 ∷ []) (blocks number_of 3 4)
get_logs_chunked_covers_example =
    get_logs_chunked_covers first_refused number_of 3 6 3 (3 ∷ 4 ∷ 5 ∷ 6 ∷ [])
      first_refused-IsHonest (omega arith) scanned

-- The second of three transactions fails before it is broadcast.
abbrev three_sends : List (ℕ → Nonce.Reply)
three_sends = (λ n. Nonce.Reply.sent) ∷ (λ n. other_error) ∷ (λ n. Nonce.Reply.sent) ∷ []

abbrev fresh : Manager
fresh = record { nonce = none; last_seen_block = 0 }

send_all-Consecutive_example : Consecutive (next_nonce 40 fresh) (send_all 40 three_sends fresh).0
send_all-Consecutive_example =
    send_all-Consecutive 40 three_sends fresh ((λ n e. cc), ((λ n e. cc), ((λ n e. cc), tt)))

-- A chain whose world is the pUSD balance: every call succeeds.
abbrev simple : Chain
simple = record {
  World = ℕ;
  balance = λ w. some w;
  fund = λ a w. (w, true);
  wrap = λ a w. (w + a, true);
}

simple-IsLawful : IsLawful simple
simple-IsLawful = record { fund_keeps = λ a w ok. refl; wrap_mints = λ a w b h ok. cc }

abbrev low_buffer : FundingConfig
low_buffer = record { addresses_set = true; low_water = 20; target = 50 }

abbrev tasks : List (Task simple)
tasks = bet 30 ∷ buffer ∷ bet 10 ∷ []

run_chain_lem_example :
    ◌≡◌ {A = Option ℕ}
      (some (run_chain simple low_buffer tasks 5).0)
      (some (wanted_all simple simple-IsLawful low_buffer tasks 5))
unfolding run_chain run_task fund_once top_up_once top_up
run_chain_lem_example =
    run_chain_lem simple simple-IsLawful low_buffer tasks 5 5 refl (refl, (refl, (refl, tt)))
