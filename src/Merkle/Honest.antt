-- ===== src/Merkle/Honest.antt =====
-- The sync of merkleTree.ts on the logs of an honest chain, and a restart from what it persisted.
use polyshield.Common.{
  ℕ, suc, ◌≡◌, refl, sym, ap, ◌∙◌, Bool, true, false, Option, none, some, List, [], ◌∷◌, ◌++◌,
  arith, ◌==◌, length, ltb, map, not, ==_refl, if_both, length-append, ◌+◌, ◌<◌, ◌^◌,
}
use mathlib.Core.Path.{subst}
use mathlib.Core.List.{append-nil, append_assoc}
use polyshield.Merkle.Reference.{tree_depth, subtree}
use polyshield.Merkle.Cache.{
  Tree, Db, append, root, load_rows, load_from_db, resume, new_tree, reset_in_memory, persist_leaf,
}
use polyshield.Merkle.Mirror.{Mirrors, append-Mirrors, blank-Mirrors, root-subtree}
use polyshield.Merkle.OnTheFly.{LeafInserted}
use polyshield.Merkle.Agreement.{leaf_of}
use polyshield.Merkle.Sync.{ingest_one, ingest}
use polyshield.Merkle.Ingest.{IsSynced, persist-IsSynced, rows, remirror}

module _ (hash : ℕ → ℕ → ℕ) where
  -- Logs that go on from the leaves: each has the next index, and the root of the tree with its leaf.
  abbrev pub IsHonest : List ℕ → List LeafInserted → Type 0
  IsHonest ls [] = Unit
  IsHonest ls (ev ∷ evs) =
      (ev.leaf_index ≡ length ls)
      × (ev.new_root ≡ subtree hash (ls ++ ev.leaf ∷ []) tree_depth 0)
      × IsHonest (ls ++ ev.leaf ∷ []) evs

  ingest_one-next :
      (ev : LeafInserted) (t : Tree)
      → ev.leaf_index ≡ t.next_index
      → root hash (append hash ev.leaf t) ≡ ev.new_root
      → ingest_one hash ev t ≡ (persist_leaf ev.leaf_index ev.leaf (append hash ev.leaf t), true)
  unfolding ingest_one
  ingest_one-next ev t at same =
      let new : ltb ev.leaf_index t.next_index ≡ false = ground arith in
      let next : not (ev.leaf_index == t.next_index) ≡ false = ground arith in
      rw (new, next, same, ==_refl ev.new_root) refl

  persist-consistent :
      (idx leaf x : ℕ) (t : Tree)
      → (persist_leaf idx leaf (append hash x t)).consistent ≡ t.consistent
  unfolding persist_leaf append
  persist-consistent idx leaf x t = refl

  ingest_next :
      (ev : LeafInserted) (evs : List LeafInserted) (t t' : Tree)
      → ingest_one hash ev t ≡ (t', true)
      → ingest hash (ev ∷ evs) t ≡ ingest hash evs t'
  unfolding ingest
  ingest_next ev evs t t' e =
      ap (λ (r : Tree × Bool). elim r.1 [ true ↦ ingest hash evs r.0 | false ↦ (r.0, false) ]) e

  taken_in :
      (evs : List LeafInserted) (leaves : List ℕ) (t : Tree)
      → t.consistent ≡ true
      → IsSynced hash leaves t
      → IsHonest leaves evs
      → let (t', goes_on) = ingest hash evs t in
        (goes_on ≡ true) × (t'.consistent ≡ true) × IsSynced hash (leaves ++ map leaf_of evs) t'
  unfolding ingest
  taken_in [] leaves t ok s honest = (refl, ok, rw append-nil s)
  taken_in (ev ∷ evs) leaves t ok s (at, top, later) =
      let grown = leaves ++ ev.leaf ∷ [] in
      let index : ev.leaf_index ≡ t.next_index = at ∙ sym s.mirrors.count in
      let m : Mirrors hash grown (append hash ev.leaf t) =
        append-Mirrors hash ev.leaf leaves t s.mirrors in
      let one = ingest_one-next ev t index (root-subtree hash grown _ m ∙ sym top) in
      let t' = persist_leaf ev.leaf_index ev.leaf (append hash ev.leaf t) in
      let (on, ok', s') =
        taken_in evs grown t' (persist-consistent _ _ _ t ∙ ok)
          (persist-IsSynced hash ev.leaf_index ev.leaf leaves t index ok s) later in
      rw (ingest_next ev evs t t' one)
        (on, ok', rw (← append_assoc leaves (ev.leaf ∷ []) (map leaf_of evs)) s')

  -- The logs of an honest chain are all taken in, where the leaves the cache had and those of the logs are
  -- fewer than 2 ^ 31: no gap and no divergence is found, and the cache is then the tree over the leaves
  -- it had and those of the logs, and so are its rows.
  pub ingest_honest :
      (evs : List LeafInserted) (leaves : List ℕ) (t : Tree)
      → length leaves + length evs < 2 ^ 31
      → t.consistent ≡ true
      → IsSynced hash leaves t
      → IsHonest leaves evs
      → let (t', goes_on) = ingest hash evs t in
        (goes_on ≡ true) × (t'.consistent ≡ true) × IsSynced hash (leaves ++ map leaf_of evs) t'
  ingest_honest evs leaves t small ok s honest = taken_in evs leaves t ok s honest

  append-db : (x : ℕ) (t : Tree) → (append hash x t).db ≡ t.db
  unfolding append
  append-db x t = refl

  load_rows-rows :
      (xs ls : List ℕ) (k : ℕ) (t : Tree)
      → k ≡ length ls
      → Mirrors hash ls t
      → (t' : Tree) × (load_rows hash (rows k xs) t ≡ some t')
        × (t'.db ≡ t.db)
        × Mirrors hash (ls ++ xs) t'
  unfolding load_rows
  load_rows-rows [] ls k t at m = (t, refl, refl, rw append-nil m)
  load_rows-rows (x ∷ xs) ls k t at m =
      let next : k == t.next_index ≡ true = ground (arith, m.count) in
      let one : suc k ≡ length (ls ++ x ∷ []) = omega (arith, length-append ls (x ∷ [])) in
      let (t', e, d, m') =
        load_rows-rows xs (ls ++ x ∷ []) (suc k) (append hash x t) one
          (append-Mirrors hash x ls t m) in
      (t', rw next e, d ∙ append-db x t, rw (← append_assoc ls (x ∷ []) xs) m')

  resume-IsSynced :
      (last : Option ℕ) (leaves : List ℕ) (t : Tree)
      → IsSynced hash leaves t
      → IsSynced hash leaves (resume hash last t)
  resume-IsSynced none leaves t s = s
  resume-IsSynced (some b) leaves t s =
      if_both {A = Tree} (λ u. IsSynced hash leaves u) (ltb 0 t.next_index)
        {x = record t { last_block = b }} {y = t}
        (record {
          mirrors = remirror hash t (record t { last_block = b }) s.mirrors refl refl refl;
          persisted = s.persisted;
        })
        s

  -- A restart: a new tree that loads a database whose rows are a list of fewer than 2 ^ 31 leaves is the
  -- tree over it.
  pub load_from_db_restores :
      (deploy_block : ℕ) (leaves : List ℕ) (last : Option ℕ)
      → length leaves < 2 ^ 31
      → let d : Db = record { leaves = rows 0 leaves; last_block = last } in
        IsSynced hash leaves (load_from_db hash (new_tree deploy_block (some d)))
  unfolding load_from_db new_tree
  load_from_db_restores deploy_block leaves last small =
      let d : Db = record { leaves = rows 0 leaves; last_block = last } in
      let fresh : Tree = new_tree deploy_block (some d) in
      let (t', loaded, kept, m) =
        load_rows-rows leaves [] 0 fresh refl (blank-Mirrors hash fresh refl refl refl) in
      let s : IsSynced hash leaves t' = record { mirrors = m; persisted = λ _. rw kept refl } in
      subst
        (λ (o : Option Tree).
          IsSynced hash leaves
            (elim o [ none ↦ reset_in_memory fresh | some l ↦ resume hash last l ]))
        (sym loaded) (resume-IsSynced last leaves t' s)
