-- ===== src/Merkle/SyncEnds.antt =====
-- The loop over the windows in the sync of merkleTree.ts comes to its end.
use polyshield.Common.{
  ℕ, zero, suc, ◌+◌, ◌-◌, ◌≤◌, ◌<◌, ◌≡◌, ◌≢◌, inl, inr, Bool, true, false, min, Option, none, some,
  arith, Bool-cases, leb, ◌&&◌, if_both, leb→le, refl,
}
use polyshield.Merkle.Cache.{Tree}
use polyshield.Merkle.Sync.{
  Rpc, SyncConfig, Ended, done, out_of_fuel, after_window, ingest_logs, window_logs, sync_head,
  scan_windows, sync_to, sync,
}

and_left : (a b : Bool) → a && b ≡ true → a ≡ true
and_left true b h = refl
and_left false b h = absurd (cc)

module _ (hash : ℕ → ℕ → ℕ) (cfg : SyncConfig) (rpc : Rpc) (wide : 1 ≤ cfg.scan_window) where
  after_window_ends :
      (go_on : Tree → Tree × Ended) (t : Tree) (window_end : ℕ) (r : Option (Tree × Bool))
      → ((t' : Tree) → (go_on t').1 ≢ out_of_fuel)
      → (after_window hash go_on t window_end r).1 ≢ out_of_fuel
  after_window_ends go_on t window_end none h = λ e. cc
  after_window_ends go_on t window_end (some (t', false)) h = λ e. cc
  after_window_ends go_on t window_end (some (t', true)) h = h _

  scan_windows_ends :
      (fuel target cursor : ℕ) (t : Tree)
      → target + 1 - cursor < fuel
      → (scan_windows hash fuel cfg rpc target cursor t).1 ≢ out_of_fuel
  unfolding scan_windows
  scan_windows_ends zero target cursor t h = absurd (omega arith)
  scan_windows_ends (suc fuel) target cursor t h =
      let window_end = min (cursor + cfg.scan_window - 1) target in
      elim (Bool-cases (leb cursor target && t.consistent)) [
        | inl more ↦
            let low : cursor ≤ target = leb→le cursor target (and_left _ _ more) in
            rw more (
              after_window_ends (scan_windows hash fuel cfg rpc target (window_end + 1)) t
                window_end (ingest_logs hash rpc (window_logs cfg rpc cursor window_end) t)
                (λ t'.
                  scan_windows_ends fuel target (window_end + 1) t' (omega (arith, low, wide, h))))
        | inr over ↦ rw over (λ e. cc)
      ]

  sync_head_ends : (head : Option ℕ) (t : Tree) → (sync_head hash cfg rpc head t).1 ≢ out_of_fuel
  unfolding sync_head sync_to
  sync_head_ends none t = λ e. cc
  sync_head_ends (some head) t =
      let target = head - cfg.confirmations in
      if_both (λ (r : Tree × Ended). r.1 ≢ out_of_fuel) (leb target t.last_block) {x = (t, done)}
        {y = scan_windows hash (target + 1) cfg rpc target (t.last_block + 1) t} (λ e. cc)
        (scan_windows_ends (target + 1) target (t.last_block + 1) t (omega arith))

  -- A sync returns or throws, whatever the RPC answers, if a window has at least one block: the fuel
  -- given to its loop, one more than the target block, is enough.
  pub sync_ends : (t : Tree) → (sync hash cfg rpc t).1 ≢ out_of_fuel
  unfolding sync
  sync_ends t =
      if_both (λ (r : Tree × Ended). r.1 ≢ out_of_fuel) t.consistent
        {x = sync_head hash cfg rpc rpc.head t} {y = (t, done)} (sync_head_ends rpc.head t)
        (λ e. cc)
