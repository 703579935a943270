-- ===== src/Tracker/SingleWrite.antt =====
-- No run of wsFillTracker.ts attests a bet twice or changes an attestation.
use polyshield.Common.{ℕ, Bool, true, false, Option, none, some, List}
use polyshield.Attest.Store.{Store, Signer}
use polyshield.Attest.Terminal.{attest_terminal, store_report, terminal_report, Report}
use polyshield.Attest.SingleWrite.{IsSingle, sign_and_store-IsSingle}
use polyshield.Tracker.{Tracker}
use polyshield.Tracker.Steps.{Action, IsKept, run, run-keeps}

store_report-IsSingle :
    (d : Bool) (sign : Signer) (n : ℕ) (r : Option Report) (s : Store)
    → IsSingle s
    → IsSingle (store_report d sign n r s)
store_report-IsSingle d sign n none s h = h
store_report-IsSingle false sign n (some r) s h = h
store_report-IsSingle true sign n (some r) s h =
    sign_and_store-IsSingle sign n r.report_type r.amount_a r.amount_b s h

attest_terminal-IsSingle : (d : Bool) (sign : Signer) → IsKept d sign IsSingle
unfolding attest_terminal
attest_terminal-IsSingle d sign bet a b s h =
    store_report-IsSingle d sign bet.nullifier (terminal_report bet a b) s h

-- Where no two attestations of a bet fill one slot, none do after any run of the tracker, whatever it is
-- told and in whatever order: an outcome (FILLED, FAILED or PARTIAL) is attested once, and a sale once.
pub run-IsSingle :
    (d : Bool) (sign : Signer) (acts : List Action) (t : Tracker)
    → IsSingle t.store
    → IsSingle (run d sign acts t).store
run-IsSingle d sign acts t h = run-keeps d sign IsSingle (attest_terminal-IsSingle d sign) acts t h
