-- ===== src/EventIndex/Records.antt =====
-- A sync of the event index (packages/backend/proof-relay/src/eventIndex.ts) stores the events of its
-- blocks.
use polyshield.Common.{
  ℕ, zero, suc, ◌+◌, ◌-◌, ◌≤◌, ◌<◌, ◌≡◌, true, false, some, List, [], ◌∷◌, ◌++◌, if◌then◌else◌, leb,
  min, arith, Bool-cases, inl, inr, refl, blocks, blocks_glue, ◌∙◌, ap, sym,
}
use mathlib.Core.Path.{subst}
use mathlib.Core.List.{append_assoc}
use polyshield.Merkle.Sync.{done}
use polyshield.EventIndex.{
  Row, Rpc, IndexConfig, Index, VaultLog, same_key, insert_row, insert_all, decode, window_logs,
  store_window, scan_windows, sync, sync_to, sync_head,
}

-- No row has the key of `r`.
abbrev pub IsFresh : Row → List Row → Type 0
IsFresh r [] = Unit
IsFresh r (x ∷ xs) = (same_key x r ≡ false) × IsFresh r xs

-- Every row of `new`, in order, has a key that the rows before it do not have.
abbrev pub IsNew : List Row → List Row → Type 0
IsNew rows [] = Unit
IsNew rows (r ∷ new) = IsFresh r rows × IsNew (rows ++ r ∷ []) new

insert_row-IsFresh :
    (r : Row) (rows : List Row) → IsFresh r rows → insert_row r rows ≡ rows ++ r ∷ []
unfolding insert_row
insert_row-IsFresh r [] h = refl
insert_row-IsFresh r (x ∷ xs) (h, hs) = rw h (ap (λ l. x ∷ l) (insert_row-IsFresh r xs hs))

append_nil : (rows : List Row) → rows ++ [] ≡ rows
append_nil [] = refl
append_nil (x ∷ xs) = ap (λ l. x ∷ l) (append_nil xs)

append_one : (rows new : List Row) (r : Row) → (rows ++ r ∷ []) ++ new ≡ rows ++ r ∷ new
append_one [] new r = refl
append_one (x ∷ xs) new r = ap (λ l. x ∷ l) (append_one xs new r)

insert_all-IsNew : (new rows : List Row) → IsNew rows new → insert_all new rows ≡ rows ++ new
unfolding insert_all
insert_all-IsNew [] rows h = sym (append_nil rows)
insert_all-IsNew (r ∷ new) rows (fresh, h) =
    rw (insert_row-IsFresh r rows fresh)
      (insert_all-IsNew new (rows ++ r ∷ []) h ∙ append_one rows new r)

IsNew-split :
    (rows xs ys : List Row) → IsNew rows (xs ++ ys) → IsNew rows xs × IsNew (rows ++ xs) ys
IsNew-split rows [] ys h = (tt, rw (append_nil rows) h)
IsNew-split rows (x ∷ xs) ys (fresh, h) =
    let (l, r) = IsNew-split (rows ++ x ∷ []) xs ys h in
    ((fresh, l), subst (λ z. IsNew z ys) (append_one rows xs x) r)

module _ (cfg : IndexConfig) (rpc : Rpc) (at : ℕ → List Row) where
  -- The RPC answers every window, with the events `at` of each of its blocks.
  abbrev pub IsHonest : Type 0
  IsHonest =
      (a b : ℕ)
      → (ls : List VaultLog) × (window_logs cfg rpc a b ≡ some ls)
        × (decode cfg rpc ls ≡ blocks at a (suc b - a))

  -- The index with the events of a range of blocks added.
  abbrev pub stored : ℕ → ℕ → Index → Index
  stored from target x = record x {
    rows = x.rows ++ blocks at from (suc target - from);
    last_block = target;
    saved = some target;
  }

  store_window-stored :
      (from to : ℕ) (ls : List VaultLog) (x : Index)
      → decode cfg rpc ls ≡ blocks at from (suc to - from)
      → IsNew x.rows (blocks at from (suc to - from))
      → store_window cfg rpc to ls x ≡ stored from to x
  unfolding store_window
  store_window-stored from to ls x decoded new = rw decoded (
      ap (λ rows. record x { rows = rows; last_block = to; saved = some to })
        (insert_all-IsNew (blocks at from (suc to - from)) x.rows new))

  stored_twice :
      (from to target : ℕ) (x : Index)
      → blocks at from (suc to - from) ++ blocks at (to + 1) (suc target - (to + 1))
        ≡ blocks at from (suc target - from)
      → stored (to + 1) target (stored from to x) ≡ stored from target x
  stored_twice from to target x glued =
      ap (λ rows. record x { rows = rows; last_block = target; saved = some target })
        (append_assoc x.rows _ _ ∙ ap (λ l. x.rows ++ l) glued)

  past_target :
      (fuel target : ℕ) (x : Index)
      → scan_windows (suc fuel) cfg rpc target (target + 1) x ≡ (x, done)
  unfolding scan_windows
  past_target fuel target x =
      let over : leb (target + 1) target ≡ false = ground arith in rw over refl

  scan_windows_stores :
      (fuel cursor target : ℕ) (x : Index)
      → IsHonest
      → 1 ≤ cfg.scan_window
      → cursor ≤ target
      → target + 1 - cursor ≤ fuel
      → IsNew x.rows (blocks at cursor (suc target - cursor))
      → scan_windows (suc fuel) cfg rpc target cursor x ≡ (stored cursor target x, done)
  unfolding scan_windows
  scan_windows_stores zero cursor target x honest w le enough new = absurd (omega arith)
  scan_windows_stores (suc fuel) cursor target x honest w le enough new =
      let to = min (cursor + cfg.scan_window - 1) target in
      let more : leb cursor target ≡ true = ground arith in
      let (ls, logs, decoded) = honest cursor to in
      let glued = blocks_glue at cursor to target (omega arith) (omega arith) in
      let (new_now, new_later) = IsNew-split x.rows _ _ (subst (IsNew x.rows) (sym glued) new) in
      let now = store_window-stored cursor to ls x decoded new_now in
      elim (Bool-cases (leb target to)) [
        | inl last ↦
            let same : to ≡ target = ground arith in
            rw (more, logs, now)
              (subst
                (λ t.
                  scan_windows (suc fuel) cfg rpc target (t + 1) (stored cursor t x)
                  ≡ (stored cursor target x, done))
                (sym same) (past_target fuel target (stored cursor target x)))
        | inr further ↦
            rw (more, logs, now)
              (scan_windows_stores fuel (to + 1) target (stored cursor to x) honest w (ground arith)
                  (omega arith) new_later
                ∙ ap (λ y. (y, done)) (stored_twice cursor to target x glued))
      ]

  sync_reads :
      (head : ℕ) (x : Index)
      → x.has_db ≡ true
      → rpc.head ≡ some head
      → sync cfg rpc x ≡ sync_to cfg rpc (head - cfg.confirmations) x
  unfolding sync
  sync_reads head x db answers =
      ap (λ b. if b then sync_head cfg rpc rpc.head x else (x, done)) db
      ∙ ap (λ h. sync_head cfg rpc h x) answers

  -- The index of an honest RPC is complete and has no event twice: with a database, where windows have a
  -- block at least, the RPC answers every window with the events of its blocks, and those of the new
  -- blocks have keys that neither the rows nor each other have, a sync to a target above the cursor
  -- ends, adds exactly the events of the blocks after the cursor up to the target, in the order of the
  -- chain, to the rows, and leaves the cursor at the target, in memory and saved; and a second sync at
  -- the same head changes nothing.
  pub sync_stores :
      (head : ℕ) (x : Index)
      → x.has_db ≡ true
      → rpc.head ≡ some head
      → IsHonest
      → 1 ≤ cfg.scan_window
      → x.last_block < head - cfg.confirmations
      → IsNew x.rows
          (blocks at (x.last_block + 1) (suc (head - cfg.confirmations) - (x.last_block + 1)))
      → (sync cfg rpc x ≡ (stored (x.last_block + 1) (head - cfg.confirmations) x, done))
        × (sync cfg rpc (sync cfg rpc x).0 ≡ sync cfg rpc x)
  sync_stores head x db answers honest w above new =
      let target = head - cfg.confirmations in
      let y = stored (x.last_block + 1) target x in
      let behind : leb target x.last_block ≡ false = ground arith in
      let fuel : target + 1 - x.last_block ≡ suc (target - x.last_block) = omega arith in
      let first : sync cfg rpc x ≡ (y, done) =
        sync_reads head x db answers
        ∙ rw (behind, fuel)
            (scan_windows_stores (target - x.last_block) (x.last_block + 1) target x honest w
              (omega arith) (omega arith) new) in
      let reached : leb target target ≡ true = ground arith in
      let again : sync cfg rpc y ≡ (y, done) = sync_reads head y db answers ∙ rw reached refl in
      (first, ap (λ z. sync cfg rpc z.0) first ∙ again ∙ sym first)
