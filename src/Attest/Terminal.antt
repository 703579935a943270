-- ===== src/Attest/Terminal.antt =====
-- packages/backend/signing-layer/src/terminalAttestation.ts: attestTerminal. The status of the order
-- is only logged there, and is left out. Amounts are uint64 values scaled by 1e6, never negative.
use polyshield.Common.{ℕ, ◌+◌, Bool, true, false, Option, none, some, ◌==◌, leb, if◌then◌else◌}
use polyshield.Attest.Store.{
  ReportType, filled, failed, partial, sold, Store, Signer, sign_and_store,
}

-- DUST
abbrev pub dust : ℕ
dust = 10_000

pub data Side : Type 0 where
  buy sell : Side

pub record TerminalBet : Type 0 where
  pub nullifier : ℕ
  pub expected_shares : ℕ
  pub bet_amount : ℕ
  pub side : Side

-- A report to sign: its type and the two amounts.
pub record Report : Type 0 where
  pub report_type : ReportType
  pub amount_a : ℕ
  pub amount_b : ℕ

-- The branch for a SELL; none where nothing is attested.
unfoldable pub sell_report : TerminalBet → ℕ → ℕ → Option Report
sell_report bet filled_shares proceeds =
    if filled_shares == 0
    then none
    else some (record {
      report_type = sold;
      amount_a =
          if leb bet.expected_shares (filled_shares + dust)
          then bet.expected_shares
          else filled_shares;
      amount_b = proceeds;
    })

-- The branch for a BUY.
unfoldable pub buy_report : TerminalBet → ℕ → ℕ → Report
buy_report bet filled_shares spent =
    if filled_shares == 0
    then record { report_type = failed; amount_a = 0; amount_b = 0 }
    else if leb bet.expected_shares (filled_shares + dust)
    then record { report_type = filled; amount_a = 0; amount_b = 0 }
    else record {
      report_type = partial;
      amount_a = filled_shares;
      amount_b = if leb spent bet.bet_amount then spent else bet.bet_amount;
    }

abbrev pub report_of : Side → TerminalBet → ℕ → ℕ → Option Report
report_of buy bet shares spent = some (buy_report bet shares spent)
report_of sell bet shares spent = sell_report bet shares spent

unfoldable pub terminal_report : TerminalBet → ℕ → ℕ → Option Report
terminal_report bet shares spent = report_of bet.side bet shares spent

-- The domain parameters are read first: a throw there and a failed signature are both swallowed.
abbrev pub store_report : Bool → Signer → ℕ → Option Report → Store → Store
store_report domain_set sign n none store = store
store_report false sign n (some r) store = store
store_report true sign n (some r) store =
    (sign_and_store sign n r.report_type r.amount_a r.amount_b store).1

unfoldable pub attest_terminal : Bool → Signer → TerminalBet → ℕ → ℕ → Store → Store
attest_terminal domain_set sign bet shares spent store =
    store_report domain_set sign bet.nullifier (terminal_report bet shares spent) store
