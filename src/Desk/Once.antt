-- ===== src/Desk/Once.antt =====
-- What every run of the signing layer (packages/backend/signing-layer/src) keeps about the orders that
-- it posts: eventListener.ts, orderBuilder.ts and autoSettlement.ts together.
use polyshield.Common.{
  ℕ, ◌/◌, ◌≡◌, ◌≢◌, Bool, true, false, Option, none, some, List, [], ◌∷◌, ◌||◌, ◌&&◌, not, ◌==◌,
  if◌then◌else◌, arith, Bool-cases, Option-cases, inl, inr, refl, is_some, if_both, ltb, leb, ==→eq,
}
pub mod Closes
pub mod Reconciled
pub mod Marked
use mathlib.Core.Path.{subst}
use polyshield.Attest.Store.{
  Signer, Store, MarketSubmission, get_market_submission, mark_market_submitting,
  set_market_order_id, get_attestation,
}
use polyshield.Tracker.{mem, is_order_tracked}
use polyshield.Desk.{
  Desk, Intent, with_store, check_response, is_halted, started_at, restart, get_limit_order,
  upsert_tracked_market,
}
use polyshield.Desk.Submit.{
  BetEvent, PostReply, no_client, threw, answered, OrderResponse, fail, submit_fak_order,
  submit_limit_order, after_fak, after_limit, settle_fak, settle_limit, post_buy, post_fak,
  mark_submitting, keep_order_id, note_resting,
}

abbrev pub Distinct : List ℕ → Type 0
Distinct [] = Unit
Distinct (n ∷ ns) = (mem n ns ≡ false) × Distinct ns

abbrev pub has_marker : ℕ → List MarketSubmission → Bool
has_marker n rs = is_some (get_market_submission n rs)

-- No bet's BUY was posted twice by this process, those posted are in flight, and each that was ever
-- posted as a FAK has its durable marker.
abbrev pub IsSound : Desk → Type 0
IsSound d =
    ((n : ℕ) → mem n d.posted ≡ true → is_some (started_at n d.in_flight) ≡ true)
    × Distinct d.posted
    × ((n : ℕ) → mem n d.fak_posted ≡ true → has_marker n d.submissions ≡ true)

-- The bet is in flight, and its order was not posted yet.
abbrev pub IsReady : ℕ → Desk → Type 0
IsReady n d = IsSound d × (mem n d.posted ≡ false) × (is_some (started_at n d.in_flight) ≡ true)

mark-has_marker :
    (n c now : ℕ) (rs : List MarketSubmission)
    → has_marker n (mark_market_submitting n c now rs) ≡ true
unfolding mark_market_submitting get_market_submission
mark-has_marker n c now [] = ground arith
mark-has_marker n c now (r ∷ rs) = ground (arith, mark-has_marker n c now rs)

mark-keeps :
    (n m c now : ℕ) (rs : List MarketSubmission)
    → has_marker m rs ≡ true
    → has_marker m (mark_market_submitting n c now rs) ≡ true
unfolding mark_market_submitting get_market_submission
mark-keeps n m c now [] h = ground arith
mark-keeps n m c now (r ∷ rs) h = ground (arith, mark-keeps n m c now rs)

set_id-keeps :
    (n m : ℕ) (id : Option ℕ) (rs : List MarketSubmission)
    → has_marker m rs ≡ true
    → has_marker m (set_market_order_id n id rs) ≡ true
unfolding set_market_order_id get_market_submission
set_id-keeps n m none rs h = h
set_id-keeps n m (some id) [] h = h
set_id-keeps n m (some id) (r ∷ rs) h = ground (arith, set_id-keeps n m (some id) rs)

post_buy-IsSound : (e : BetEvent) (d : Desk) → IsReady e.nullifier d → IsSound (post_buy e d)
unfolding post_buy
post_buy-IsSound e d ((flying, once, marked), fresh, here) = (
  λ n h. elim (Bool-cases (e.nullifier == n)) [
    | inl same ↦ subst (λ m. is_some (started_at m d.in_flight) ≡ true) (==→eq _ _ same) here
    | inr other ↦ flying n (rw other at h)
  ],
  (fresh, once),
  marked,
)

post_fak-IsSound :
    (e : BetEvent) (d : Desk)
    → IsReady e.nullifier d
    → has_marker e.nullifier d.submissions ≡ true
    → IsSound (post_fak e d)
unfolding post_fak
post_fak-IsSound e d ((flying, once, marked), fresh, here) mine =
    post_buy-IsSound e (record d { fak_posted = e.nullifier ∷ d.fak_posted })
      (
        (
          flying,
          once,
          λ n h. elim (Bool-cases (e.nullifier == n)) [
            | inl same ↦ subst (λ m. has_marker m d.submissions ≡ true) (==→eq _ _ same) mine
            | inr other ↦ marked n (rw other at h)
          ],
        ),
        fresh,
        here,
      )

check_response-IsSound :
    (status : Option ℕ) (d : Desk) → IsSound d → IsSound (check_response status d)
unfolding check_response
check_response-IsSound none d h = h
check_response-IsSound (some status) d h = if_both {A = Desk} IsSound (status == 403) {y = d} h h

mark_submitting-IsReady :
    (now : ℕ) (e : BetEvent) (d : Desk)
    → IsReady e.nullifier d
    → IsReady e.nullifier (mark_submitting now e d)
unfolding mark_submitting
mark_submitting-IsReady now e d ((flying, once, marked), fresh, here) = (
  (flying, once, λ n h. mark-keeps e.nullifier n e.market_id (now / 1000) _ (marked n h)),
  fresh,
  here,
)

module _ (domain_set : Bool) (sign : Signer) (mock : Bool) where
  fail-IsSound : (n : ℕ) (d : Desk) → IsSound d → IsSound (fail domain_set sign mock n d)
  unfolding fail with_store
  fail-IsSound n d h = h

  settle_fak-IsSound :
      (e : BetEvent) (size : ℕ) (r : OrderResponse) (d : Desk)
      → IsSound d
      → IsSound (settle_fak domain_set sign mock e size r d)
  unfolding settle_fak with_store
  settle_fak-IsSound e size r d h = if_both {A = Desk} IsSound _ {x = d} h h

  keep_order_id-IsSound :
      (e : BetEvent) (r : OrderResponse) (d : Desk) → IsSound d → IsSound (keep_order_id e r d)
  unfolding keep_order_id
  keep_order_id-IsSound e r d (flying, once, marked) =
      (flying, once, λ n h. set_id-keeps e.nullifier n r.order_id _ (marked n h))

  after_fak-IsSound :
      (e : BetEvent) (reply : PostReply) (d : Desk)
      → IsReady e.nullifier d
      → has_marker e.nullifier d.submissions ≡ true
      → IsSound (after_fak domain_set sign mock e reply d)
  after_fak-IsSound e no_client d h mine = h.0
  after_fak-IsSound e (threw status) d h mine =
      check_response-IsSound status (post_fak e d) (post_fak-IsSound e d h mine)
  after_fak-IsSound e (answered size r) d h mine =
      settle_fak-IsSound e (if mock then 0 else size) r (keep_order_id e r (post_fak e d))
        (keep_order_id-IsSound e r (post_fak e d) (post_fak-IsSound e d h mine))

  submit_fak_order-IsSound :
      (now : ℕ) (e : BetEvent) (funded : Bool) (reply : PostReply) (d : Desk)
      → IsReady e.nullifier d
      → IsSound (submit_fak_order domain_set sign mock now e funded reply d)
  unfolding submit_fak_order
  submit_fak_order-IsSound now e funded reply d h = if_both {A = Desk} IsSound (is_halted d) h.0 (
      if_both {A = Desk} IsSound (not funded) (fail-IsSound e.nullifier d h.0) (
        after_fak-IsSound e reply (mark_submitting now e d) (mark_submitting-IsReady now e d h)
          (unfold mark_submitting in mark-has_marker e.nullifier e.market_id (now / 1000) _)))

  note_resting-IsSound :
      (e : BetEvent) (r : OrderResponse) (d : Desk) → IsSound d → IsSound (note_resting e r d)
  unfolding note_resting
  note_resting-IsSound e r d h = if_both {A = Desk} IsSound _ {y = d} h h

  settle_limit-IsSound :
      (e : BetEvent) (r : OrderResponse) (fee : ℕ) (id : Option ℕ) (d : Desk)
      → IsSound d
      → IsSound (settle_limit domain_set sign mock e r fee id d)
  settle_limit-IsSound e r fee none d h =
      if_both {A = Desk} IsSound _ h (fail-IsSound e.nullifier d h)
  settle_limit-IsSound e r fee (some id) d h = h

  after_limit-IsSound :
      (e : BetEvent) (reply : PostReply) (fee : ℕ) (d : Desk)
      → IsReady e.nullifier d
      → IsSound (after_limit domain_set sign mock e reply fee d)
  after_limit-IsSound e no_client fee d h = h.0
  after_limit-IsSound e (threw status) fee d h =
      check_response-IsSound status (post_buy e d) (post_buy-IsSound e d h)
  after_limit-IsSound e (answered size r) fee d h =
      settle_limit-IsSound e r fee r.order_id (note_resting e r (post_buy e d))
        (note_resting-IsSound e r (post_buy e d) (post_buy-IsSound e d h))

  submit_limit_order-IsSound :
      (e : BetEvent) (funded : Bool) (reply : PostReply) (fee : ℕ) (d : Desk)
      → IsReady e.nullifier d
      → IsSound (submit_limit_order domain_set sign mock e funded reply fee d)
  unfolding submit_limit_order
  submit_limit_order-IsSound e funded reply fee d h = if_both {A = Desk} IsSound (is_halted d) h.0 (
      if_both {A = Desk} IsSound (not funded) (fail-IsSound e.nullifier d h.0)
        (after_limit-IsSound e reply fee d h))
