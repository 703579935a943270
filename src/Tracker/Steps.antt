-- ===== src/Tracker/Steps.antt =====
-- Runs of wsFillTracker.ts: any sequence of its entry points, and what no such sequence changes.
use polyshield.Common.{
  ℕ, Bool, true, Option, none, some, List, [], ◌∷◌, ◌||◌, Bool-cases, inl, inr, if◌then◌else◌, ltb,
  not, if_both,
}
use polyshield.Attest.Store.{Store, Signer}
use polyshield.Attest.Terminal.{attest_terminal, TerminalBet}
use polyshield.Signing.MarketOrders.{OrderReply, terminal, live, unknown, threw}
use polyshield.Tracker.{
  Tracker, TrackedOrder, Message, finalize, handle_one, handle_tracked, find_tracked,
  cancel_orders_for_market, cancel_each, track_order, mem, with_fee, already_attested, finalize_if,
  classify_terminal, extract_fill, is_order_message, same_market, start_fill_tracker, resume,
  unpersist, set_order, Terminal, get_tracked_order,
}
use polyshield.Tracker.Cancel.{
  Client, reconcile_one, reconcile_with, reconcile_reply, finish_confirmed, cancel_tracked_order,
  cancel_found, cancel_with, cancel_reply, from_trades,
}

-- What happens to the tracker: it is started, an order is tracked, a message arrives, an order is
-- reconciled, a user cancels a bet, or a market resolves.
pub data Action : Type 0 where
  start : Action
  track : TrackedOrder → Action
  message : Message → Action
  reconcile : TrackedOrder → Option Client → Action
  cancel : ℕ → Option Client → Option Client → Action
  resolve : ℕ → Action

-- A property of the attestations that attestTerminal keeps.
abbrev pub IsKept : Bool → Signer → (Store → Type 0) → Type 0
IsKept d sign P =
    (bet : TerminalBet) (a b : ℕ) (s : Store) → P s → P (attest_terminal d sign bet a b s)

module _ (d : Bool) (sign : Signer) where
  unfoldable pub step : Action → Tracker → Tracker
  step start t = start_fill_tracker t
  step (track o) t = track_order o t
  step (message m) t = handle_one d sign m t
  step (reconcile o client) t = reconcile_one d sign o client t
  step (cancel n client later) t = (cancel_tracked_order d sign n client later t).1
  step (resolve condition) t = cancel_orders_for_market d sign condition t

  unfoldable pub run : List Action → Tracker → Tracker
  run [] t = t
  run (a ∷ acts) t = run acts (step a t)

module _ (d : Bool) (sign : Signer) (P : Store → Type 0) (k : IsKept d sign P) where
  finalize-keeps :
      (o : TrackedOrder) (a b : ℕ) (t : Tracker) → P t.store → P (finalize d sign o a b t).store
  unfolding finalize
  finalize-keeps o a b t h = elim (Bool-cases (mem o.nullifier t.finalized || not t.has_wallet)) [
    | inl e ↦ rw e h
    | inr e ↦ rw e (k _ a (with_fee o.side o.taker_fee_usd b) t.store h)
  ]

  finalize_if-keeps :
      (s : Option Terminal) (o : TrackedOrder) (fill : ℕ × ℕ) (t : Tracker)
      → P t.store
      → P (finalize_if d sign s o fill t).store
  finalize_if-keeps none o fill t h = h
  finalize_if-keeps (some s) o (a, b) t h = finalize-keeps o a b t h

  handle_tracked-keeps :
      (m : Message) (o : Option TrackedOrder) (t : Tracker)
      → P t.store
      → P (handle_tracked d sign m o t).store
  handle_tracked-keeps m none t h = h
  handle_tracked-keeps m (some o) t h =
      finalize_if-keeps (classify_terminal m.status (extract_fill m o).0) o (extract_fill m o) t h

  handle_one-keeps : (m : Message) (t : Tracker) → P t.store → P (handle_one d sign m t).store
  unfolding handle_one
  handle_one-keeps m t h = elim (Bool-cases (is_order_message m)) [
    | inl e ↦ rw e (handle_tracked-keeps m (find_tracked m t.by_order_id) t h)
    | inr e ↦ rw e h
  ]

  finish_confirmed-keeps :
      (o : TrackedOrder) (trades : Option (ℕ × ℕ)) (t : Tracker)
      → P t.store
      → P (finish_confirmed d sign o trades t).store
  finish_confirmed-keeps o none t h = h
  finish_confirmed-keeps o (some (a, b)) t h = elim (Bool-cases (ltb 0 a)) [
    | inl e ↦ rw e (finalize-keeps o a b t h)
    | inr e ↦ rw e h
  ]

  reconcile_reply-keeps :
      (o : TrackedOrder) (r : OrderReply) (trades : Option (ℕ × ℕ)) (t : Tracker)
      → P t.store
      → P (reconcile_reply d sign o r trades t).store
  reconcile_reply-keeps o (terminal a b) trades t h = finalize-keeps o a b t h
  reconcile_reply-keeps o live trades t h = h
  reconcile_reply-keeps o unknown trades t h = finish_confirmed-keeps o trades t h
  reconcile_reply-keeps o threw trades t h = finish_confirmed-keeps o trades t h

  reconcile_with-keeps :
      (o : TrackedOrder) (client : Option Client) (t : Tracker)
      → P t.store
      → P (reconcile_with d sign o client t).store
  reconcile_with-keeps o none t h = h
  reconcile_with-keeps o (some c) t h = reconcile_reply-keeps o c.order c.trades t h

  reconcile_one-keeps :
      (o : TrackedOrder) (client : Option Client) (t : Tracker)
      → P t.store
      → P (reconcile_one d sign o client t).store
  unfolding reconcile_one
  reconcile_one-keeps o client t h =
      if_both {A = Tracker} (λ u. P u.store) (mem o.nullifier t.finalized) h
        (if_both {A = Tracker} (λ u. P u.store) t.has_wallet (reconcile_with-keeps o client t h) h)

  from_trades-keeps :
      (o : TrackedOrder) (trades : Option (ℕ × ℕ)) (later : Option Client) (t : Tracker)
      → P t.store
      → P (from_trades d sign o trades later t).1.store
  from_trades-keeps o none later t h = reconcile_one-keeps o later t h
  from_trades-keeps o (some (a, b)) later t h = finalize-keeps o a b t h

  cancel_reply-keeps :
      (o : TrackedOrder) (r : OrderReply) (trades : Option (ℕ × ℕ)) (later : Option Client)
      (t : Tracker)
      → P t.store
      → P (cancel_reply d sign o r trades later t).1.store
  cancel_reply-keeps o (terminal a b) trades later t h = finalize-keeps o a b t h
  cancel_reply-keeps o live trades later t h = from_trades-keeps o trades later t h
  cancel_reply-keeps o unknown trades later t h = from_trades-keeps o trades later t h
  cancel_reply-keeps o threw trades later t h = from_trades-keeps o trades later t h

  cancel_with-keeps :
      (o : TrackedOrder) (client later : Option Client) (t : Tracker)
      → P t.store
      → P (cancel_with d sign o client later t).1.store
  cancel_with-keeps o none later t h = reconcile_one-keeps o later t h
  cancel_with-keeps o (some c) later t h = cancel_reply-keeps o c.order c.trades later t h

  cancel_found-keeps :
      (o : Option TrackedOrder) (client later : Option Client) (t : Tracker)
      → P t.store
      → P (cancel_found d sign o client later t).1.store
  cancel_found-keeps none client later t h = h
  cancel_found-keeps (some o) client later t h =
      elim (Bool-cases (already_attested o.side o.nullifier t.store)) [
        | inl e ↦ rw e h
        | inr e ↦ rw e (cancel_with-keeps o client later t h)
      ]

  cancel_tracked_order-keeps :
      (n : ℕ) (client later : Option Client) (t : Tracker)
      → P t.store
      → P (cancel_tracked_order d sign n client later t).1.store
  unfolding cancel_tracked_order
  cancel_tracked_order-keeps n client later t h =
      cancel_found-keeps (get_tracked_order n t) client later t h

  cancel_each-keeps :
      (condition : ℕ) (os : List TrackedOrder) (t : Tracker)
      → P t.store
      → P (cancel_each d sign condition os t).store
  unfolding cancel_each
  cancel_each-keeps condition [] t h = h
  cancel_each-keeps condition (o ∷ os) t h =
      let next : Tracker =
        if same_market o.condition_id condition then finalize d sign o 0 0 t else t in
      cancel_each-keeps condition os next (
        if_both {A = Tracker} (λ u. P u.store) (same_market o.condition_id condition)
          (finalize-keeps o 0 0 t h) h)

  resume-keeps : (os : List TrackedOrder) (t : Tracker) → P t.store → P (resume os t).store
  unfolding resume
  resume-keeps [] t h = h
  resume-keeps (o ∷ os) t h =
      let done : Tracker = record t {
        table = unpersist o.nullifier t.table;
        finalized = o.nullifier ∷ t.finalized;
      } in
      let again : Tracker = record t { by_order_id = set_order o t.by_order_id } in
      resume-keeps os (if already_attested o.side o.nullifier t.store then done else again) (
        if_both {A = Tracker} (λ u. P u.store) (already_attested o.side o.nullifier t.store)
          {x = done} {y = again} h h)

  track_order-keeps : (o : TrackedOrder) (t : Tracker) → P t.store → P (track_order o t).store
  unfolding track_order
  track_order-keeps o t h =
      elim (Bool-cases
        (mem o.nullifier t.finalized || already_attested o.side o.nullifier t.store)) [
          | inl e ↦ rw e h
          | inr e ↦ rw e h
        ]

  step-keeps : (a : Action) (t : Tracker) → P t.store → P (step d sign a t).store
  unfolding step start_fill_tracker cancel_orders_for_market
  step-keeps start t h = resume-keeps t.table (record t { has_wallet = true }) h
  step-keeps (track o) t h = track_order-keeps o t h
  step-keeps (message m) t h = handle_one-keeps m t h
  step-keeps (reconcile o client) t h = reconcile_one-keeps o client t h
  step-keeps (cancel n client later) t h = cancel_tracked_order-keeps n client later t h
  step-keeps (resolve condition) t h = cancel_each-keeps condition t.by_order_id t h

  pub run-keeps : (acts : List Action) (t : Tracker) → P t.store → P (run d sign acts t).store
  unfolding run
  run-keeps [] t h = h
  run-keeps (a ∷ acts) t h = run-keeps acts (step d sign a t) (step-keeps a t h)
