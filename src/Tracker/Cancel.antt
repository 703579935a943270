-- ===== src/Tracker/Cancel.antt =====
-- packages/backend/signing-layer/src/wsFillTracker.ts: reconcileOne against the authenticated CLOB, and
-- cancelTrackedOrder. `client` is what getOrder and getTrades answer, if there is a client: the fill of
-- the trades is none where that call fails. The reply to cancelOrder is only logged.
use polyshield.Common.{ℕ, Bool, Option, none, some, ◌||◌, if◌then◌else◌, ltb}
use polyshield.Attest.Store.{Signer}
use polyshield.Signing.MarketOrders.{OrderReply, terminal, live, unknown, threw}
use polyshield.Tracker.{Tracker, TrackedOrder, mem, finalize, already_attested, get_tracked_order}

pub record Client : Type 0 where
  pub order : OrderReply
  pub trades : Option (ℕ × ℕ)

pub data CancelReply : Type 0 where
  finalized cancel_requested : CancelReply

module _ (domain_set : Bool) (sign : Signer) (o : TrackedOrder) where
  abbrev pub finish_confirmed : Option (ℕ × ℕ) → Tracker → Tracker
  finish_confirmed none t = t
  finish_confirmed (some (filled, spent)) t =
      if ltb 0 filled then finalize domain_set sign o filled spent t else t

  abbrev pub reconcile_reply : OrderReply → Option (ℕ × ℕ) → Tracker → Tracker
  reconcile_reply (terminal filled spent) trades t = finalize domain_set sign o filled spent t
  reconcile_reply live trades t = t
  reconcile_reply unknown trades t = finish_confirmed trades t
  reconcile_reply threw trades t = finish_confirmed trades t

  abbrev pub reconcile_with : Option Client → Tracker → Tracker
  reconcile_with none t = t
  reconcile_with (some c) t = reconcile_reply c.order c.trades t

  -- reconcileOne
  unfoldable pub reconcile_one : Option Client → Tracker → Tracker
  reconcile_one client t =
      if mem o.nullifier t.finalized then t else if t.has_wallet then reconcile_with client t else t

  -- The last two lines of cancelTrackedOrder; `later` is what the CLOB answers by then.
  abbrev pub backstop : Option Client → Tracker → CancelReply × Tracker
  backstop later t =
      let t' = reconcile_one later t in
      (
        if mem o.nullifier t'.finalized || already_attested o.side o.nullifier t'.store
            then finalized
            else cancel_requested,
        t',
      )

  abbrev pub from_trades : Option (ℕ × ℕ) → Option Client → Tracker → CancelReply × Tracker
  from_trades none later t = backstop later t
  from_trades (some (filled, spent)) later t =
      (finalized, finalize domain_set sign o filled spent t)

  abbrev pub cancel_reply :
      OrderReply → Option (ℕ × ℕ) → Option Client → Tracker → CancelReply × Tracker
  cancel_reply (terminal filled spent) trades later t =
      (finalized, finalize domain_set sign o filled spent t)
  cancel_reply live trades later t = from_trades trades later t
  cancel_reply unknown trades later t = from_trades trades later t
  cancel_reply threw trades later t = from_trades trades later t

  abbrev pub cancel_with : Option Client → Option Client → Tracker → CancelReply × Tracker
  cancel_with none later t = backstop later t
  cancel_with (some c) later t = cancel_reply c.order c.trades later t

module _ (domain_set : Bool) (sign : Signer) where
  abbrev pub cancel_found :
      Option TrackedOrder → Option Client → Option Client → Tracker → CancelReply × Tracker
  cancel_found none client later t = (finalized, t)
  cancel_found (some o) client later t =
      if already_attested o.side o.nullifier t.store
      then (finalized, t)
      else cancel_with domain_set sign o client later t

  -- cancelTrackedOrder; an order that is finalized is not found.
  unfoldable pub cancel_tracked_order :
      ℕ → Option Client → Option Client → Tracker → CancelReply × Tracker
  cancel_tracked_order n client later t = cancel_found (get_tracked_order n t) client later t
