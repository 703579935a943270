-- ===== src/Frontend/Recovery/Sides.antt =====
-- The side of a bet in replayLineage of packages/frontend/src/lib/notes.ts.
use polyshield.Common.{ℕ, ◌+◌, ◌*◌, ◌<◌, ◌≡◌, false, some, List, [], ◌==◌, arith, refl}
use native.Mathlib.Nat.{mul-pos}
use polyshield.Frontend.Recovery.{
  Sale, Vault, Replay, replay_event, replay_events, replay_credit, deposited, produce, spend,
}
use polyshield.Frontend.Recovery.Wallet.{
  Bet, Wallet, Deed, win, find_bet, act, play, event_of, events_of, AreAllowed,
}
use polyshield.Frontend.Recovery.Roundtrip.{Agree, run-agrees, start-agrees, mine}

module _ (v : Vault) where
  -- The credit of a bet of any side is replayed with the payout of side 0.
  win-lost :
      (k payout c : ℕ) (b : Bet) (w : Wallet) (r : Replay)
      → Agree v w r
      → find_bet k w.bets ≡ some b
      → (b.shares == 0) ≡ false
      → v.pending_credit b.market_id 0 ≡ some 0
      → (replay_event v false (event_of v (win k payout c) w) r).note.balance ≡ w.balance
  unfolding replay_event replay_credit produce spend
  win-lost k payout c b w r (bal, non, nul, live, old, fresh) placed held nothing =
      let (x, found, (amount, fee, market, shares)) = old k b placed in
      rw (mine v w r nul live, found, shares, held, market, nothing, bal) (omega arith)

  won :
      (k payout c : ℕ) (b : Bet) (w : Wallet)
      → find_bet k w.bets ≡ some b
      → (act (win k payout c) w).balance ≡ w.balance + b.shares * payout
  won k payout c b w placed = rw placed refl

  -- The payout of a bet on side 1 that has won is lost: where the nullifiers of a secret differ, after any
  -- allowed deeds of a wallet, if it then settles a bet of side 1 with shares in a market that pays side 1
  -- and nothing to side 0, the replay of its events ends with a note that lacks the whole payout of the
  -- bet, which is more than 0.
  pub settled_side_is_lost :
      (ds : List Deed) (amount commitment k payout c : ℕ) (sold : List Sale)
      (balances : List (ℕ × ℕ)) (b : Bet)
      → ((i j : ℕ) → v.nullifier_of i ≡ v.nullifier_of j → i ≡ j)
      → AreAllowed v ds (record { balance = amount; nonce = 0; bets = [] })
      → let start : Wallet = record { balance = amount; nonce = 0; bets = [] } in
        find_bet k (play ds start).bets ≡ some b
        → b.side ≡ 1
        → 0 < b.shares
        → 0 < payout
        → v.pending_credit b.market_id b.side ≡ some payout
        → v.pending_credit b.market_id 0 ≡ some 0
        → let r = replay_events v false (events_of v ds start) (record {
          note = deposited v amount commitment;
          free = [];
          receipts = [];
          sold = sold;
          balances = balances;
        }) in
          let replayed = replay_event v false (event_of v (win k payout c) (play ds start)) r in
          let real = act (win k payout c) (play ds start) in
          (replayed.note.balance + b.shares * payout ≡ real.balance)
          × (replayed.note.balance < real.balance)
  settled_side_is_lost ds amount commitment k payout c sold balances b inj ok placed side held paid
        pays nothing =
      let start : Wallet = record { balance = amount; nonce = 0; bets = [] } in
      let w = play ds start in
      let r : Replay = replay_events v false (events_of v ds start) (record {
        note = deposited v amount commitment;
        free = [];
        receipts = [];
        sold = sold;
        balances = balances;
      }) in
      let agree : Agree v w r =
        run-agrees v inj ds start _ (start-agrees v amount commitment sold balances) ok in
      let lost = win-lost k payout c b w r agree placed (ground arith) nothing in
      let gained = won k payout c b w placed in
      let more : 0 < b.shares * payout = mul-pos held paid in
      (omega (arith, lost, gained), omega (arith, lost, gained))
