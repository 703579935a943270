-- ===== src/Tracker/Resume.antt =====
-- The restart of wsFillTracker.ts: startFillTracker over the persisted orders.
use polyshield.Common.{
  ◌≡◌, ◌≢◌, ℕ, true, false, some, List, [], ◌∷◌, ◌++◌, arith, ◌==◌, refl, ◌∙◌, if◌then◌else◌,
  if_both, ==_refl, ap,
}
use polyshield.Tracker.{
  Tracker, TrackedOrder, resume, start_fill_tracker, set_order, find_order, already_attested,
  unpersist,
}

-- No order of the list has the id.
abbrev pub IsFreshId : ℕ → List TrackedOrder → Type 0
IsFreshId id [] = Unit
IsFreshId id (p ∷ ps) = (p.order_id ≢ id) × IsFreshId id ps

find_order-set_order :
    (id : ℕ) (o : TrackedOrder) (ps : List TrackedOrder)
    → find_order id (set_order o ps) ≡ (if o.order_id == id then some o else find_order id ps)
unfolding find_order set_order
find_order-set_order id o [] = refl
find_order-set_order id o (p ∷ ps) = ground (arith, find_order-set_order id o ps)

-- One round of the loop.
abbrev pub after_row : TrackedOrder → Tracker → Tracker
after_row o t =
    if already_attested o.side o.nullifier t.store
    then record t { table = unpersist o.nullifier t.table; finalized = o.nullifier ∷ t.finalized }
    else record t { by_order_id = set_order o t.by_order_id }

after_row-store : (o : TrackedOrder) (t : Tracker) → (after_row o t).store ≡ t.store
after_row-store o t =
    if_both {A = Tracker} (λ u. u.store ≡ t.store) (already_attested o.side o.nullifier t.store)
      refl refl

after_row-other :
    (id : ℕ) (o : TrackedOrder) (t : Tracker)
    → o.order_id ≢ id
    → find_order id (after_row o t).by_order_id ≡ find_order id t.by_order_id
after_row-other id o t h =
    let kept : find_order id (set_order o t.by_order_id) ≡ find_order id t.by_order_id =
      ground (arith, find_order-set_order id o t.by_order_id) in
    if_both {A = Tracker} (λ u. find_order id u.by_order_id ≡ find_order id t.by_order_id)
      (already_attested o.side o.nullifier t.store) refl kept

resume-store : (os : List TrackedOrder) (t : Tracker) → (resume os t).store ≡ t.store
unfolding resume
resume-store [] t = refl
resume-store (o ∷ os) t = resume-store os (after_row o t) ∙ after_row-store o t

resume-other :
    (id : ℕ) (os : List TrackedOrder) (t : Tracker)
    → IsFreshId id os
    → find_order id (resume os t).by_order_id ≡ find_order id t.by_order_id
unfolding resume
resume-other id [] t h = refl
resume-other id (o ∷ os) t (ne, h) =
    resume-other id os (after_row o t) h ∙ after_row-other id o t ne

resume-append :
    (os ps : List TrackedOrder) (t : Tracker) → resume (os ++ ps) t ≡ resume ps (resume os t)
unfolding resume
resume-append [] ps t = refl
resume-append (o ∷ os) ps t = resume-append os ps (after_row o t)

after_row-tracked :
    (o : TrackedOrder) (t : Tracker)
    → already_attested o.side o.nullifier t.store ≡ false
    → find_order o.order_id (after_row o t).by_order_id ≡ some o
after_row-tracked o t h =
    let found : find_order o.order_id (set_order o t.by_order_id) ≡ some o =
      ground (arith, find_order-set_order o.order_id o t.by_order_id, ==_refl o.order_id) in
    rw h found

-- After a restart an order of the table whose report is not attested is tracked under its order id,
-- if no later row of the table has that id.
pub start_resumes :
    (before after : List TrackedOrder) (o : TrackedOrder) (t : Tracker)
    → t.table ≡ before ++ o ∷ after
    → IsFreshId o.order_id after
    → already_attested o.side o.nullifier t.store ≡ false
    → find_order o.order_id (start_fill_tracker t).by_order_id ≡ some o
unfolding start_fill_tracker resume
start_resumes before after o t table fresh waiting =
    let t₀ : Tracker = record t { has_wallet = true } in
    let t₁ = resume before t₀ in
    let still : already_attested o.side o.nullifier t₁.store ≡ false =
      rw (resume-store before t₀) waiting in
    let split : resume t.table t₀ ≡ resume (o ∷ after) t₁ =
      ap (λ os. resume os t₀) table ∙ resume-append before (o ∷ after) t₀ in
    ap (λ (u : Tracker). find_order o.order_id u.by_order_id) split
    ∙ (resume-other o.order_id after (after_row o t₁) fresh ∙ after_row-tracked o t₁ still)
