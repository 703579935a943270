-- ===== src/Desk/Scan.antt =====
-- catchUpMissedBets of packages/backend/signing-layer/src/eventListener.ts: the range of a scan and its
-- windows. `fetch` is fetchBetAuthorized, none where it throws, with what is answered for each record.
-- The cursor in the state file, lastBlock, is read and written by the scan alone.
pub mod Coverage
use polyshield.Common.{
  ℕ, zero, suc, ◌+◌, ◌-◌, Bool, true, false, Option, none, some, List, if◌then◌else◌, leb, min, max,
}
use polyshield.Attest.Store.{Signer}
use polyshield.Desk.{Desk, is_halted}
use polyshield.Desk.Listener.{BetRecord, Answers, handle_all}

-- SAFETY_BUFFER
abbrev pub safety_buffer : ℕ
safety_buffer = 100

abbrev pub Fetch : Type 0
Fetch = ℕ → ℕ → Option (List (BetRecord × Answers))

-- The end of a scan: through the head, at a fetch that throws, or with the exit of the breaker.
pub data Ended : Type 0 where
  done thrown exited out_of_fuel : Ended

pub record Scanned : Type 0 where
  pub desk : Desk
  pub last_block : ℕ
  pub ended : Ended

-- The first block of the forward scan, from the persisted cursor.
unfoldable pub forward_from : ℕ → ℕ → ℕ → ℕ
forward_from deploy head last_block = max deploy (min last_block head - safety_buffer)

-- The first block of a deep sweep.
unfoldable pub deep_from : ℕ → ℕ → ℕ → ℕ
deep_from deploy head override = max deploy (min override head)

module _ (domain_set : Bool) (sign : Signer) (mock : Bool) (window : ℕ) (fetch : Fetch) where
  abbrev pub after_fetch :
      (Desk → Scanned) → ℕ → Desk → Option (List (BetRecord × Answers)) → Scanned
  after_fetch next last d none = record { desk = d; last_block = last; ended = thrown }
  after_fetch next last d (some rs) =
      let d' = handle_all domain_set sign mock rs d in
      if is_halted d' then record { desk = d'; last_block = last; ended = exited } else next d'

  -- The while loop; a window that was handled moves the cursor if it persists.
  unfoldable pub scan_windows : ℕ → Bool → ℕ → ℕ → ℕ → Desk → Scanned
  scan_windows zero persist cursor head last d = record {
    desk = d;
    last_block = last;
    ended = out_of_fuel;
  }
  scan_windows (suc fuel) persist cursor head last d =
      let window_end = min (cursor + window - 1) head in
      let rest =
        after_fetch
          (λ d'.
            scan_windows fuel persist (window_end + 1) head (if persist then window_end else last)
              d')
          last d (fetch cursor window_end) in
      if leb cursor head then rest else record { desk = d; last_block = last; ended = done }

  abbrev pub scan_from : ℕ → Bool → ℕ → ℕ → Desk → Scanned
  scan_from from persist head last d = scan_windows (head + 2 - from) persist from head last d

  -- catchUpMissedBets: `override` is set for the deep sweep, which does not persist, and `head` is what
  -- scanHead answers, none where it throws.
  abbrev pub scan_range : ℕ → Option ℕ → ℕ → ℕ → Desk → Scanned
  scan_range deploy none head last d = scan_from (forward_from deploy head last) true head last d
  scan_range deploy (some override) head last d =
      scan_from (deep_from deploy head override) false head last d

  unfoldable pub catch_up_missed_bets : ℕ → Option ℕ → Option ℕ → ℕ → Desk → Scanned
  catch_up_missed_bets deploy override none last d = record {
    desk = d;
    last_block = last;
    ended = thrown;
  }
  catch_up_missed_bets deploy override (some head) last d = scan_range deploy override head last d
