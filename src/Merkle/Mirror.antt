-- ===== src/Merkle/Mirror.antt =====
-- The mirror of merkleTree.ts against the tree over the list of its leaves: append, the reload of
-- the table, and the paths that it serves.
use polyshield.Common.{
  ℕ, zero, suc, ◌+◌, ◌*◌, ◌/◌, ◌≤◌, ◌<◌, ◌≡◌, inl, inr, refl, sym, ◌∙◌, Option, none, some, List,
  [], ◌∷◌, ◌++◌, arith, ◌&&◌, if◌then◌else◌, ◌==◌, length, get_elem?, Bool-cases, ==→eq, ap,
  length-append,
}
use polyshield.Merkle.Reference.{
  tree_depth, subtree, ancestor, subtree-nil, subtree-append_ne, get_or-append_self,
  get_or-append_ne,
}
use polyshield.Merkle.Cache.{Tree, set_node, get_node, update_path, append, root}

get_elem?-append_self : (xs : List ℕ) (x : ℕ) → get_elem? (xs ++ x ∷ []) (length xs) ≡ some x
get_elem?-append_self [] x = refl
get_elem?-append_self (y ∷ xs) x = get_elem?-append_self xs x

pub get_elem?-append_left :
    (xs ys : List ℕ) (i : ℕ) {x : ℕ} → get_elem? xs i ≡ some x → get_elem? (xs ++ ys) i ≡ some x
get_elem?-append_left [] ys i h = cc
get_elem?-append_left (y ∷ xs) ys zero h = h
get_elem?-append_left (y ∷ xs) ys (suc i) h = get_elem?-append_left xs ys i h

pub lt-length : (xs : List ℕ) (i : ℕ) {x : ℕ} → get_elem? xs i ≡ some x → i < length xs
lt-length [] i h = cc
lt-length (y ∷ xs) zero h = omega arith
lt-length (y ∷ xs) (suc i) h = omega (arith, lt-length xs i h)

module _ (hash : ℕ → ℕ → ℕ) where
  get_node-set_node :
      (nodes : ℕ → ℕ → Option ℕ) (a b v l j : ℕ)
      → get_node hash (set_node nodes a b v) l j
        ≡ (if l == a && j == b then v else get_node hash nodes l j)
  unfolding get_node
  get_node-set_node nodes a b v l j = ground arith

  module _ (leaves : List ℕ) (x : ℕ) where
    -- One round of the loop: the parent's level is then right at every index.
    set_node-subtree :
        (level i : ℕ) (nodes : ℕ → ℕ → Option ℕ)
        → i ≡ ancestor (length leaves) level
        → ((l j : ℕ) → l ≤ level → get_node hash nodes l j ≡ subtree hash (leaves ++ x ∷ []) l j)
        → ((j : ℕ) → get_node hash nodes (suc level) j ≡ subtree hash leaves (suc level) j)
        → (l j : ℕ) → l ≤ suc level
        → get_node hash
            (set_node nodes (suc level) (i / 2) (
              hash
                (get_node hash nodes level (i / 2 * 2))
                (get_node hash nodes level (i / 2 * 2 + 1))))
            l
            j
          ≡ subtree hash (leaves ++ x ∷ []) l j
    unfolding subtree ancestor
    set_node-subtree level i nodes at lower upper l j h =
        rw (get_node-set_node nodes (suc level) (i / 2) _ l j) (elim (Bool-cases (l == suc level)) [
          | inl top ↦ elim (Bool-cases (j == i / 2)) [
            | inl self ↦
                rw (top, self, ==→eq l (suc level) top, ==→eq j (i / 2) self)
                  (cc (
                    lower level (i / 2 * 2) (omega arith),
                    lower level (i / 2 * 2 + 1) (omega arith),
                  ))
            | inr other ↦
                rw (top, other, ==→eq l (suc level) top)
                  (upper j ∙ sym (subtree-append_ne hash leaves x (suc level) j (ground arith)))
          ]
          | inr below ↦ rw below (lower l j (ground arith))
        ])

    update_path-subtree :
        (left level i : ℕ) (nodes : ℕ → ℕ → Option ℕ)
        → i ≡ ancestor (length leaves) level
        → ((l j : ℕ) → l ≤ level → get_node hash nodes l j ≡ subtree hash (leaves ++ x ∷ []) l j)
        → ((l j : ℕ)
            → level < l
            → l ≤ level + left
            → get_node hash nodes l j ≡ subtree hash leaves l j)
        → (l j : ℕ) → l ≤ level + left
        → get_node hash (update_path hash left level i nodes) l j
          ≡ subtree hash (leaves ++ x ∷ []) l j
    unfolding update_path ancestor
    update_path-subtree zero level i nodes at lower upper l j h = lower l j (omega arith)
    update_path-subtree (suc left) level i nodes at lower upper l j h =
        update_path-subtree left (suc level) (i / 2) _ (omega arith)
          (set_node-subtree level i nodes at lower
            (λ k. upper (suc level) k (omega arith) (omega arith)))
          (λ m k above within.
            get_node-set_node nodes (suc level) (i / 2) _ m k
            ∙ ground (arith, upper m k (omega arith) (omega arith)))
          l j (omega arith)

  -- A tree stands for a list of leaves: every node on its levels is the hash of that subtree, the
  -- next index is their number, and each index that a leaf is filed under holds the leaf.
  pub record Mirrors (leaves : List ℕ) (t : Tree) : Type 0 where
    pub node : (l j : ℕ) → l ≤ tree_depth → get_node hash t.nodes l j ≡ subtree hash leaves l j
    pub count : t.next_index ≡ length leaves
    pub filed : (y i : ℕ) → t.index_by_leaf y ≡ some i → get_elem? leaves i ≡ some y

  pub root-subtree :
      (leaves : List ℕ) (t : Tree)
      → Mirrors leaves t
      → root hash t ≡ subtree hash leaves tree_depth 0
  unfolding root
  root-subtree leaves t m = m.node tree_depth 0 (omega arith)

  pub blank-Mirrors :
      (t : Tree)
      → t.nodes ≡ (λ _ _. none)
      → t.index_by_leaf ≡ (λ _. none)
      → t.next_index ≡ 0
      → Mirrors [] t
  unfolding get_node
  blank-Mirrors t e f g = record {
    node = λ l j h. rw e (sym (subtree-nil hash l j));
    count = g;
    filed = λ y i h. cc (ap (λ (table : ℕ → Option ℕ). table y) f);
  }

  leaf_level :
      (x : ℕ) (leaves : List ℕ) (t : Tree)
      → Mirrors leaves t
      → (k i : ℕ) → k ≤ 0
      → (if k == 0 && i == t.next_index then x else get_node hash t.nodes k i)
        ≡ subtree hash (leaves ++ x ∷ []) k i
  unfolding subtree
  leaf_level x leaves t m zero i low = elim (Bool-cases (i == t.next_index)) [
    | inl self ↦ rw (self, ==→eq i t.next_index self, m.count) (sym (get_or-append_self leaves x))
    | inr other ↦ rw other (
        m.node 0 i (omega arith)
        ∙ sym (get_or-append_ne leaves x i (let e = m.count in ground arith)))
  ]
  leaf_level x leaves t m (suc k) i low = absurd (omega arith)

  -- append
  pub append-Mirrors :
      (x : ℕ) (leaves : List ℕ) (t : Tree)
      → Mirrors leaves t
      → Mirrors (leaves ++ x ∷ []) (append hash x t)
  unfolding append subtree ancestor
  append-Mirrors x leaves t m = record {
    node = λ l j h.
        update_path-subtree leaves x tree_depth 0 t.next_index (set_node t.nodes 0 t.next_index x)
          m.count
          (λ k i low.
            get_node-set_node t.nodes 0 t.next_index x k i ∙ leaf_level x leaves t m k i low)
          (λ k i above within.
            get_node-set_node t.nodes 0 t.next_index x k i
            ∙ ground (arith, m.node k i (omega arith)))
          l j h;
    count = let e = m.count in omega (arith, length-append leaves (x ∷ []));
    filed = λ y i h. elim (Bool-cases (y == x)) [
      | inl same ↦
          let here : t.next_index ≡ i = ground arith in
          rw (← here, m.count, ==→eq y x same) (get_elem?-append_self leaves x)
      | inr other ↦ get_elem?-append_left leaves (x ∷ []) i (m.filed y i (ground arith))
    ];
  }
