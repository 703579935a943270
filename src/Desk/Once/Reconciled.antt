-- ===== src/Desk/Once/Reconciled.antt =====
-- What cancel-bet of packages/backend/signing-layer/src/autoSettlement.ts has gone by when it adds an outcome
-- for a bet without a tracked order.
use polyshield.Signing.MarketOrders.{
  OrderReply, reconcile_market_submission, stale_submission_sec, by_order_id, from_order,
  with_order, terminal,
}
use polyshield.Common.{
  ℕ, ◌≡◌, ltb, Bool, false, Option, none, some, arith, Bool-cases, inl, inr, ◌⊎◌, refl, ◌<◌, ◌-◌,
  ap,
}
use polyshield.Attest.Store.{
  Signer, MarketSubmission, get_market_submission, get_attestation, Attestation, Store,
}
use polyshield.Tracker.{is_order_tracked}
use polyshield.Desk.{Desk, is_actively_submitting}
use polyshield.Desk.Routes.{CancelAnswers, cancel_bet, cancel_submission}
use polyshield.Signing.MarketOrders.{terminal, live, unknown, threw}

-- What a reconcile that adds an outcome has gone by: the age of a marker without an order id, or an order
-- that the CLOB has off its book.
abbrev pub IsReconciled : ℕ → Option OrderReply → MarketSubmission → Type 0
IsReconciled now_sec order sub =
    ((sub.order_id ≡ none) × (stale_submission_sec < now_sec - sub.submitted_at))
    ⊎ ((id : ℕ) × (filled_by : ℕ) × (spent : ℕ) × (sub.order_id ≡ some id)
        × (order ≡ some (terminal filled_by spent)))

module _ (domain_set : Bool) (sign : Signer) (mock : Bool) where
  from_order-added :
      (n : ℕ) (committed : ℕ × ℕ) (reply : OrderReply) (store : Store) (w : Attestation)
      → get_attestation n none store ≡ none
      → get_attestation n none (from_order domain_set sign n committed reply store).1 ≡ some w
      → (filled_by : ℕ) × (spent : ℕ) × (reply ≡ terminal filled_by spent)
  from_order-added n (e, b) (terminal f sp) store w free added = (f, sp, refl)
  from_order-added n (e, b) live store w free added = absurd (cc (free, added))
  from_order-added n (e, b) unknown store w free added = absurd (cc (free, added))
  from_order-added n (e, b) threw store w free added = absurd (cc (free, added))

  with_order-added :
      (n : ℕ) (order : Option OrderReply) (committed : Option (ℕ × ℕ)) (store : Store)
      (w : Attestation)
      → get_attestation n none store ≡ none
      → get_attestation n none (with_order domain_set sign n order committed store).1 ≡ some w
      → (filled_by : ℕ) × (spent : ℕ) × (order ≡ some (terminal filled_by spent))
  with_order-added n none committed store w free added = absurd (cc (free, added))
  with_order-added n (some reply) none store w free added = absurd (cc (free, added))
  with_order-added n (some reply) (some bounds) store w free added =
      let (f, sp, e) = from_order-added n bounds reply store w free added in (f, sp, ap some e)

  by_order_id-added :
      (now_sec n : ℕ) (sub : MarketSubmission) (id : Option ℕ) (order : Option OrderReply)
      (committed : Option (ℕ × ℕ)) (store : Store) (w : Attestation)
      → sub.order_id ≡ id
      → get_attestation n none store ≡ none
      → get_attestation n none
          (by_order_id domain_set sign n now_sec sub id order committed store).1
        ≡ some w
      → IsReconciled now_sec order sub
  by_order_id-added now_sec n sub none order committed store w e free added =
      elim (Bool-cases (ltb stale_submission_sec (now_sec - sub.submitted_at))) [
        | inl stale ↦ inl (e, ground arith)
        | inr young ↦ absurd (cc (free, rw young at added))
      ]
  by_order_id-added now_sec n sub (some id) order committed store w e free added =
      let (f, sp, answer) = with_order-added n order committed store w free added in
      inr (id, f, sp, e, answer)

  submission-added :
      (now_sec n : ℕ) (a : CancelAnswers) (o : Option MarketSubmission) (d : Desk) (w : Attestation)
      → get_attestation n none d.tracker.store ≡ none
      → get_attestation n none
          (cancel_submission domain_set sign mock now_sec n a o d).1.tracker.store
        ≡ some w
      → (o ≡ none) ⊎ ((sub : MarketSubmission) × (o ≡ some sub) × IsReconciled now_sec a.order sub)
  unfolding reconcile_market_submission
  submission-added now_sec n a none d w free added = inl refl
  submission-added now_sec n a (some sub) d w free added = inr (
    sub,
    refl,
    by_order_id-added now_sec n sub sub.order_id a.order a.committed d.tracker.store w refl free
        (rw free at added),
  )

  pub cancel-added :
      (now now_sec n : ℕ) (a : CancelAnswers) (d : Desk) (w : Attestation)
      → is_order_tracked n d.tracker ≡ false
      → get_attestation n none d.tracker.store ≡ none
      → get_attestation n none (cancel_bet domain_set sign mock now now_sec n a d).1.tracker.store
        ≡ some w
      → (get_market_submission n d.submissions ≡ none)
        ⊎ ((sub : MarketSubmission) × (get_market_submission n d.submissions ≡ some sub)
            × IsReconciled now_sec a.order sub)
  unfolding cancel_bet
  cancel-added now now_sec n a d w untracked free added =
      elim (Bool-cases (is_actively_submitting now n d)) [
        | inl busy ↦ absurd (cc (free, rw (free, untracked, busy) at added))
        | inr idle ↦
            submission-added now_sec n a (get_market_submission n d.submissions) d w free
              (rw (free, untracked, idle) at added)
      ]
