-- ===== src/Desk/Source/Served.antt =====
-- The listener of the signing layer over the event index of the proof relay:
-- packages/backend/signing-layer/src/vaultEventSource.ts and eventListener.ts, and
-- packages/backend/proof-relay/src/eventIndex.ts, together.
use polyshield.Attest.Store.{Signer}
use polyshield.Common.{
  ℕ, zero, suc, ◌+◌, ◌-◌, ◌≤◌, ◌<◌, ◌≡◌, Bool, true, false, none, some, List, [], ◌++◌,
  if◌then◌else◌, arith, refl, ◌∙◌, ap, blocks, ◌||◌, map, sym,
}
use polyshield.EventIndex.{Row, is_ready, Index, IndexConfig, Rpc}
use polyshield.EventIndex.Reads.{select, bet_authorized_events}
use polyshield.Desk.Listener.{BetRecord, Answers, handle_all}
use polyshield.EventIndex.{catch_up, new_index}
use polyshield.EventIndex.Records.{IsHonest, IsNew, sync_stores}
use polyshield.Merkle.Sync.{is_done}
use mathlib.Core.List.{map-append, map}
use polyshield.Desk.{Desk, is_halted, Signer}
use polyshield.Desk.Scan.{done, forward_from}
use polyshield.Desk.Scan.Coverage.{IsComplete, catch_up_covers}
use polyshield.Desk.Source.{
  listen_to, with_answers, chain_records, or_chain, served_records, from_index, head_or_chain,
  ready_head, records_from_index, ChainReads, bet_authorized_events, fetch_bet_authorized, is_ready,
  scan_head, Index, index_head, serve, listen,
}
use polyshield.Desk.Source.Ordered.{bets_of, kept, in_range, select-IsOrdered}
use polyshield.Desk.Source.Ranges.{AreBlocks, blocks-IsOrdered, range_all}

module _ (chain : ChainReads) (at : ℕ → List Row) where
  events_kept :
      (x : Index) (s n from to : ℕ)
      → AreBlocks at
      → x.has_db ≡ true
      → x.rows ≡ blocks at s n
      → bet_authorized_events from to x ≡ kept (in_range from to) (blocks at s n)
  unfolding bet_authorized_events
  events_kept x s n from to h db rows =
      ap (λ b. if b then select (in_range from to) x.rows else []) db
      ∙ ap (select (in_range from to)) rows
      ∙ select-IsOrdered (in_range from to) (blocks at s n) (blocks-IsOrdered at n s h)

  served_bets :
      (x : Index) (s n from to : ℕ)
      → AreBlocks at
      → x.has_db ≡ true
      → is_ready x ≡ true
      → x.rows ≡ blocks at s n
      → s ≤ from
      → to < s + n
      → fetch_bet_authorized true (serve x) chain true from to
        ≡ some (blocks (λ b. bets_of (at b)) from (suc to - from), from_index)
  unfolding fetch_bet_authorized serve
  served_bets x s n from to h db ready rows lo hi =
      let scanned = chain_records chain (chain.query from to) in
      let events = events_kept x s n from to h db rows in
      ap
        (λ b.
          or_chain
            (served_records (if b then some (some (bet_authorized_events from to x)) else none))
            scanned)
        ready
      ∙ ap (λ es. or_chain (records_from_index es) scanned) events
      ∙ ap (λ o. or_chain o scanned) (range_all at n from to s h lo hi)

  served_head :
      (x : Index)
      → is_ready x ≡ true
      → scan_head true (serve x) chain ≡ some (x.last_block, from_index)
  unfolding scan_head index_head serve
  served_head x ready =
      ap
        (λ b. head_or_chain chain (ready_head (if b then some (true, some x.last_block) else none)))
        ready

  -- The index that has synced from its deployment to the confirmed head.
  synced :
      (cfg : IndexConfig) (rpc : Rpc) (deploy head target : ℕ)
      → rpc.head ≡ some head
      → target ≡ head - cfg.confirmations
      → IsHonest cfg rpc at
      → 1 ≤ cfg.scan_window
      → 1 ≤ deploy
      → deploy ≤ target
      → IsNew [] (blocks at deploy (suc target - deploy))
      → (x : Index) × ((catch_up cfg rpc (new_index deploy true [] none)).0 ≡ x)
        × (x.has_db ≡ true)
        × (is_ready x ≡ true)
        × (x.rows ≡ blocks at deploy (suc target - deploy))
        × (x.last_block ≡ target)
  unfolding catch_up new_index is_ready
  synced cfg rpc deploy head target answers e honest w low le fresh =
      let x0 : Index = new_index deploy true [] none in
      let start : deploy - 1 + 1 ≡ deploy = omega arith in
      let stores =
        (sync_stores cfg rpc at head x0 refl answers honest w (omega arith)
          (rw (start, ← e) fresh)).0 in
      (
        _,
        ap (λ r. record (r.0) { ready = is_done r.1 || r.0.ready }) stores,
        refl,
        refl,
        rw (start, ← e) refl,
        sym e,
      )

map-blocks :
    {A B : Type 0} (f : A → B) (g : ℕ → List A) (a n : ℕ)
    → map f (blocks g a n) ≡ blocks (λ b. map f (g b)) a n
map-blocks f g a zero = refl
map-blocks f g a (suc n) =
    map-append f (g a) (blocks g (suc a) n) ∙ ap (λ l. map f (g a) ++ l) (map-blocks f g (suc a) n)

module _ (domain_set : Bool) (sign : Signer) (mock : Bool) (window : ℕ)
    (answer : BetRecord → Answers) (chain : ChainReads) (at : ℕ → List Row) where
  -- The bets of a block, each with what is answered for it.
  abbrev pub bets_at : ℕ → List (BetRecord × Answers)
  bets_at b = map (λ r. (r, answer r)) (bets_of (at b))

  reads_ready_index :
      (x : Index) (deploy n target last : ℕ) (d : Desk)
      → AreBlocks at
      → x.has_db ≡ true
      → is_ready x ≡ true
      → x.rows ≡ blocks at deploy n
      → x.last_block ≡ target
      → target < deploy + n
      → 1 ≤ window
      → deploy ≤ target
      → is_halted (
          handle_all domain_set sign mock
            (blocks bets_at
              (forward_from deploy target last)
              (suc target - forward_from deploy target last))
            d)
        ≡ false
      → listen domain_set sign mock window answer true (serve x) chain deploy none last d ≡ record {
        desk =
            handle_all domain_set sign mock
              (blocks bets_at
                (forward_from deploy target last)
                (suc target - forward_from deploy target last))
              d;
        last_block = target;
        ended = done;
      }
  unfolding listen
  reads_ready_index x deploy n target last d h db ready rows reached top w low runs =
      let fetch = λ (a b : ℕ).
        with_answers domain_set sign mock window answer
          (fetch_bet_authorized true (serve x) chain true a b) in
      let lowest : deploy ≤ forward_from deploy target last = unfold forward_from in omega arith in
      let complete : IsComplete domain_set sign mock window fetch bets_at
          (forward_from deploy target last) target =
        λ a b lo hi.
          ap (with_answers domain_set sign mock window answer)
            (served_bets chain at x deploy n a b h db ready rows (omega arith) (omega arith))
          ∙ ap some (map-blocks (λ r. (r, answer r)) (λ c. bets_of (at c)) a (suc b - a)) in
      ap (listen_to domain_set sign mock window answer true (serve x) chain deploy none last d)
        (served_head chain at x ready ∙ ap (λ t. some (t, from_index)) reached)
      ∙ (catch_up_covers domain_set sign mock window fetch bets_at deploy target last d complete w
          low runs).1

  -- From the chain to the orders: an index that catches up, from an empty database, over an RPC that
  -- answers every window with the events of its blocks, and a listener that reads it. Where the events
  -- of a block stand in the order of their logs and no two have the key of one row, windows have a block
  -- at least, the deployment is at or below the confirmed head, and no answer makes the breaker exit,
  -- the scan of the listener ends through the confirmed head, leaves its cursor there, and does what
  -- handling the bets of the chain's blocks, from its first block on, once and in their order, does.
  pub index_feeds_listener :
      (cfg : IndexConfig) (rpc : Rpc) (deploy head target last : ℕ) (d : Desk)
      → rpc.head ≡ some head
      → target ≡ head - cfg.confirmations
      → IsHonest cfg rpc at
      → AreBlocks at
      → IsNew [] (blocks at deploy (suc target - deploy))
      → 1 ≤ cfg.scan_window
      → 1 ≤ window
      → 1 ≤ deploy
      → deploy ≤ target
      → is_halted (
          handle_all domain_set sign mock
            (blocks bets_at
              (forward_from deploy target last)
              (suc target - forward_from deploy target last))
            d)
        ≡ false
      → listen domain_set sign mock window answer true
          (serve (catch_up cfg rpc (new_index deploy true [] none)).0)
          chain
          deploy
          none
          last
          d
        ≡ record {
          desk =
              handle_all domain_set sign mock
                (blocks bets_at
                  (forward_from deploy target last)
                  (suc target - forward_from deploy target last))
                d;
          last_block = target;
          ended = done;
        }
  index_feeds_listener cfg rpc deploy head target last d answers e honest h fresh w w' low le runs =
      let (x, caught, db, ready, rows, reached) =
        synced chain at cfg rpc deploy head target answers e honest w low le fresh in
      ap (λ y. listen domain_set sign mock window answer true (serve y) chain deploy none last d)
        caught
      ∙ reads_ready_index x deploy (suc target - deploy) target last d h db ready rows reached
          (omega arith) w' le runs
