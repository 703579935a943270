-- ===== src/Merkle/Ingest.antt =====
-- What the sync of merkleTree.ts does to the mirror: the tree stays the tree over a list of leaves,
-- the persisted rows stay that list, and honest logs are never taken for a divergence.
use polyshield.Common.{
  ℕ, zero, suc, ◌+◌, ◌-◌, ◌≡◌, inl, inr, refl, sym, ap, ◌∙◌, Bool, true, false, min, Option, none,
  some, List, [], ◌∷◌, ◌++◌, arith, ◌==◌, length, Bool-cases, ltb, leb, not, ◌&&◌, if_both, ◌<◌,
  ◌^◌,
}
use native.Mathlib.Nat.{add-zero}
use polyshield.Merkle.Cache.{
  Tree, Db, append, root, reset_in_memory, persist_leaf, persist_last_block, put_row, map_db,
}
use polyshield.Merkle.Mirror.{Mirrors, append-Mirrors, blank-Mirrors}
use polyshield.Merkle.OnTheFly.{LeafInserted}
use polyshield.Merkle.Sync.{
  Log, Rpc, SyncConfig, Ended, done, sorted_events, window_logs, ingest_one, ingest, after_window,
  ingest_logs, sync_head, scan_windows, sync_to, sync,
}

-- The rows of merkle_leaves that hold a list of leaves, from index `k` on.
abbrev pub rows : ℕ → List ℕ → List (ℕ × ℕ)
rows k [] = []
rows k (x ∷ xs) = (k, x) ∷ rows (suc k) xs

put_row-end :
    (k idx : ℕ) (xs : List ℕ) (x : ℕ)
    → idx ≡ k + length xs
    → put_row idx x (rows k xs) ≡ rows k (xs ++ x ∷ [])
unfolding put_row
put_row-end k idx [] x e = rw (e, add-zero k)
put_row-end k idx (y ∷ xs) x e =
    let past : (k == idx) ≡ false = ground arith in
    let above : ltb idx k ≡ false = ground arith in
    rw (past, above) (ap (λ l. (k, y) ∷ l) (put_row-end (suc k) idx xs x (omega arith)))

not_ne : (a b : ℕ) → not (a == b) ≡ false → a ≡ b
not_ne a b h = ground arith

and_right : (a b : Bool) → a && b ≡ true → b ≡ true
and_right true b h = h
and_right false b h = absurd (cc)

abbrev pub DbHolds : List ℕ → Option Db → Type 0
DbHolds leaves none = Unit
DbHolds leaves (some d) = d.leaves ≡ rows 0 leaves

DbHolds-map_last :
    (leaves : List ℕ) (block : Option ℕ) (db : Option Db)
    → DbHolds leaves db
    → DbHolds leaves (map_db (λ d. record d { last_block = block }) db)
DbHolds-map_last leaves block none h = tt
DbHolds-map_last leaves block (some d) h = h

module _ (hash : ℕ → ℕ → ℕ) where
  -- The memory stands for the leaves, and so do the rows unless the cache has diverged.
  pub record IsSynced (leaves : List ℕ) (t : Tree) : Type 0 where
    pub mirrors : Mirrors hash leaves t
    pub persisted : t.consistent ≡ true → DbHolds leaves t.db

  -- Only the nodes, the filed leaves and the next index matter.
  pub remirror :
      {leaves : List ℕ} (t u : Tree)
      → Mirrors hash leaves t
      → t.nodes ≡ u.nodes
      → t.index_by_leaf ≡ u.index_by_leaf
      → t.next_index ≡ u.next_index
      → Mirrors hash leaves u
  remirror t u m e f g = record {
    node = λ l j h. rw (← e) (m.node l j h);
    count = sym g ∙ m.count;
    filed = λ y i h. m.filed y i (ap (λ (table : ℕ → Option ℕ). table y) f ∙ h);
  }

  DbHolds-put_row :
      (leaves : List ℕ) (idx x : ℕ) (db : Option Db)
      → idx ≡ length leaves
      → DbHolds leaves db
      → DbHolds (leaves ++ x ∷ []) (map_db (λ d. record d { leaves = put_row idx x d.leaves }) db)
  DbHolds-put_row leaves idx x none e h = tt
  DbHolds-put_row leaves idx x (some d) e h = rw h (put_row-end 0 idx leaves x (omega arith))

  DbHolds-cleared :
      (db : Option Db) → DbHolds [] (map_db (λ _. record { leaves = []; last_block = none }) db)
  DbHolds-cleared none = tt
  DbHolds-cleared (some d) = refl

  reset-IsSynced : (t : Tree) → IsSynced [] (reset_in_memory t)
  unfolding reset_in_memory
  reset-IsSynced t = record {
    mirrors = blank-Mirrors hash _ refl refl refl;
    persisted = λ _. DbHolds-cleared t.db;
  }

  pub persist-IsSynced :
      (idx x : ℕ) (leaves : List ℕ) (t : Tree)
      → idx ≡ t.next_index
      → t.consistent ≡ true
      → IsSynced leaves t
      → IsSynced (leaves ++ x ∷ []) (persist_leaf idx x (append hash x t))
  unfolding persist_leaf append
  persist-IsSynced idx x leaves t e ok s = record {
    mirrors = remirror _ _ (append-Mirrors hash x leaves t s.mirrors) refl refl refl;
    persisted = λ _. DbHolds-put_row leaves idx x t.db (e ∙ s.mirrors.count) (s.persisted ok);
  }

  ingest_one-goes_on :
      (ev : LeafInserted) (t : Tree)
      → t.consistent ≡ true
      → (ingest_one hash ev t).1 ≡ true
      → (ingest_one hash ev t).0.consistent ≡ true
  unfolding ingest_one persist_leaf append
  ingest_one-goes_on ev t ok e = ground arith

  pub ingest_one-IsSynced :
      (ev : LeafInserted) (leaves : List ℕ) (t : Tree)
      → t.consistent ≡ true
      → IsSynced leaves t
      → (leaves' : List ℕ) × IsSynced leaves' (ingest_one hash ev t).0
  unfolding ingest_one
  ingest_one-IsSynced ev leaves t ok s = elim (Bool-cases (ltb ev.leaf_index t.next_index)) [
    | inl old ↦ rw old (leaves, s)
    | inr new ↦ elim (Bool-cases (not (ev.leaf_index == t.next_index))) [
      | inl gap ↦ rw (new, gap) ([], reset-IsSynced t)
      | inr next ↦
          rw (new, next)
            (elim (Bool-cases (root hash (append hash ev.leaf t) == ev.new_root)) [
              | inl same ↦ rw same (
                leaves ++ ev.leaf ∷ [],
                persist-IsSynced ev.leaf_index ev.leaf leaves t (not_ne _ _ next) ok s,
              )
              | inr differs ↦ rw differs (
                leaves ++ ev.leaf ∷ [],
                record {
                  mirrors =
                      remirror _ _ (append-Mirrors hash ev.leaf leaves t s.mirrors) refl refl refl;
                  persisted = λ e. cc;
                },
              )
            ])
    ]
  ]

  pub ingest-IsSynced :
      (evs : List LeafInserted) (leaves : List ℕ) (t : Tree)
      → t.consistent ≡ true
      → IsSynced leaves t
      → (leaves' : List ℕ) × IsSynced leaves' (ingest hash evs t).0
  unfolding ingest
  ingest-IsSynced [] leaves t ok s = (leaves, s)
  ingest-IsSynced (ev ∷ evs) leaves t ok s =
      let (leaves', s') = ingest_one-IsSynced ev leaves t ok s in
      elim (Bool-cases (ingest_one hash ev t).1) [
        | inl on ↦
            rw (on, ingest) (ingest-IsSynced evs leaves' _ (ingest_one-goes_on ev t ok on) s')
        | inr stop ↦ rw (stop, ingest) (leaves', s')
      ]

  ingest-goes_on :
      (evs : List LeafInserted) (t : Tree)
      → t.consistent ≡ true
      → (ingest hash evs t).1 ≡ true
      → (ingest hash evs t).0.consistent ≡ true
  unfolding ingest
  ingest-goes_on [] t ok e = ok
  ingest-goes_on (ev ∷ evs) t ok e = elim (Bool-cases (ingest_one hash ev t).1) [
    | inl on ↦
        rw (on, ingest)
          (ingest-goes_on evs _ (ingest_one-goes_on ev t ok on) (rw (on, ingest) at e))
    | inr stop ↦ cc (rw (stop, ingest) at e)
  ]

  module _ (cfg : SyncConfig) (rpc : Rpc) where
    after_window-IsSynced :
        (window_end : ℕ) (go_on : Tree → Tree × Ended) (leaves : List ℕ) (t : Tree)
        (ls : Option (List Log))
        → t.consistent ≡ true
        → IsSynced leaves t
        → ((t' : Tree) (leaves' : List ℕ)
            → t'.consistent ≡ true
            → IsSynced leaves' t'
            → (later : List ℕ) × IsSynced later (go_on t').0)
        → (later : List ℕ) × IsSynced later
            (after_window hash go_on t window_end (ingest_logs hash rpc ls t)).0
    unfolding persist_last_block
    after_window-IsSynced window_end go_on leaves t none ok s rest = (leaves, s)
    after_window-IsSynced window_end go_on leaves t (some ls) ok s rest =
        let evs = sorted_events rpc ls in
        let (leaves', s') = ingest-IsSynced evs leaves t ok s in
        elim (Bool-cases (ingest hash evs t).1) [
          | inl on ↦ rw on (
              rest _ leaves' (ingest-goes_on evs t ok on) (record {
                mirrors = remirror _ _ s'.mirrors refl refl refl;
                persisted = λ ok'. DbHolds-map_last leaves' _ _ (s'.persisted ok');
              }))
          | inr stop ↦ rw stop (leaves', s')
        ]

    pub scan_windows-IsSynced :
        (fuel target cursor : ℕ) (leaves : List ℕ) (t : Tree)
        → IsSynced leaves t
        → (later : List ℕ) × IsSynced later (scan_windows hash fuel cfg rpc target cursor t).0
    unfolding scan_windows
    scan_windows-IsSynced zero target cursor leaves t s = (leaves, s)
    scan_windows-IsSynced (suc fuel) target cursor leaves t s =
        let window_end = min (cursor + cfg.scan_window - 1) target in
        elim (Bool-cases (leb cursor target && t.consistent)) [
          | inl more ↦ rw more (
              after_window-IsSynced window_end
                (scan_windows hash fuel cfg rpc target (window_end + 1)) leaves t
                (window_logs cfg rpc cursor window_end) (and_right _ t.consistent more) s
                (λ t' leaves' ok. scan_windows-IsSynced fuel target (window_end + 1) leaves' t'))
          | inr over ↦ rw over (leaves, s)
        ]

    sync_head-IsSynced :
        (head : Option ℕ) (leaves : List ℕ) (t : Tree)
        → IsSynced leaves t
        → (later : List ℕ) × IsSynced later (sync_head hash cfg rpc head t).0
    unfolding sync_head sync_to
    sync_head-IsSynced none leaves t s = (leaves, s)
    sync_head-IsSynced (some head) leaves t s =
        elim (Bool-cases (leb (head - cfg.confirmations) t.last_block)) [
          | inl caught_up ↦ rw caught_up (leaves, s)
          | inr behind ↦ rw behind (scan_windows-IsSynced _ _ _ leaves t s)
        ]

    sync_keeps :
        (leaves : List ℕ) (t : Tree)
        → IsSynced leaves t
        → (later : List ℕ) × IsSynced later (sync hash cfg rpc t).0
    unfolding sync
    sync_keeps leaves t s =
        if_both (λ (r : Tree × Ended). (later : List ℕ) × IsSynced later r.0) t.consistent
          {x = sync_head hash cfg rpc rpc.head t} {y = (t, done)}
          (sync_head-IsSynced rpc.head leaves t s) (leaves, s)

    -- From a memory that is the tree over a list of fewer than 2 ^ 31 leaves, with rows that are that list,
    -- a run leaves the memory as the tree over some list of leaves, whatever the RPC answers, as long as the
    -- index in a log is below 2 ^ 31, and the rows as that list unless it found a divergence.
    pub sync-IsSynced :
        (leaves : List ℕ) (t : Tree)
        → length leaves < 2 ^ 31
        → ((l : Log) (ev : LeafInserted) → rpc.parse_log l ≡ some ev → ev.leaf_index < 2 ^ 31)
        → IsSynced leaves t
        → (later : List ℕ) × IsSynced later (sync hash cfg rpc t).0
    sync-IsSynced leaves t small indices s = sync_keeps leaves t s
