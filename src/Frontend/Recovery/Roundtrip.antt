-- ===== src/Frontend/Recovery/Roundtrip.antt =====
-- recoverNotesWithClient of packages/frontend/src/lib/notes.ts reads back what a wallet has done.
use polyshield.Frontend.Selection.{member}
use mathlib.Core.Path.{subst, sym, ap}
use polyshield.Common.{
  ℕ, ◌≤◌, ◌≡◌, false, none, some, List, [], ◌∷◌, ◌++◌, ◌==◌, arith, refl, ==→eq, Bool-cases, inl,
  inr, ◌∙◌, ap, true, ==_refl, ◌+◌, ◌-◌,
}
use polyshield.Frontend.Recovery.{
  deposited, Sale, Vault, Replay, Receipt, find_receipt, update_receipt, mark_spent, CreditKind,
  is_spent_by, replay_event, ChainEvent, replay_bet, replay_credit, replay_withdraw, produce, bet,
  spend, credit, credit_balance, partial, close, withdraw, consolidate, member, replay_events,
  bet_cancel, na_cancel, settle,
}
use polyshield.Frontend.Recovery.Wallet.{
  Bet, Wallet, find_bet, refund, IsForeign, act, cash_out, place, event_of, Deed, play, AreAllowed,
  IsAllowed, events_of, void_bet, win, other,
}

module _ (v : Vault) where
  -- A receipt holds what is needed of its bet.
  abbrev pub IsReceiptOf : Bet → Receipt → Type 0
  IsReceiptOf b r =
      (r.bet_amount ≡ b.amount)
      × (r.protocol_fee ≡ some b.protocol_fee)
      × (r.market_id ≡ b.market_id)
      × (r.expected_shares ≡ b.shares)

  abbrev pub HasReceipt : ℕ → Bet → List Receipt → Type 0
  HasReceipt k b rs =
      (r : Receipt) × (find_receipt (v.nullifier_of k) rs ≡ some r) × IsReceiptOf b r

  -- The replay is where the wallet is, and no note to come has a receipt.
  abbrev pub Agree : Wallet → Replay → Type 0
  Agree w r =
      (r.note.balance ≡ w.balance)
      × (r.note.nonce ≡ w.nonce)
      × (r.note.nullifier ≡ v.nullifier_of w.nonce)
      × (r.note.spent ≡ false)
      × ((k : ℕ) (b : Bet) → find_bet k w.bets ≡ some b → HasReceipt k b r.receipts)
      × ((k : ℕ) → w.nonce ≤ k → find_receipt (v.nullifier_of k) r.receipts ≡ none)

  abbrev pub IsInjective : Type 0
  IsInjective = (j k : ℕ) → v.nullifier_of j ≡ v.nullifier_of k → j ≡ k

  find-append_ne :
      (n : ℕ) (rs : List Receipt) (new : Receipt)
      → (new.nullifier_of_bet == n) ≡ false
      → find_receipt n (rs ++ new ∷ []) ≡ find_receipt n rs
  unfolding find_receipt
  find-append_ne n [] new h = ground arith
  find-append_ne n (x ∷ rs) new h = ground (arith, find-append_ne n rs new)

  find-new :
      (rs : List Receipt) (new : Receipt)
      → find_receipt new.nullifier_of_bet rs ≡ none
      → find_receipt new.nullifier_of_bet (rs ++ new ∷ []) ≡ some new
  unfolding find_receipt
  find-new [] new h = ground arith
  find-new (x ∷ rs) new h = ground (arith, find-new rs new)

  update_none :
      (n m : ℕ) (rs : List Receipt)
      → find_receipt n rs ≡ none
      → find_receipt n (update_receipt m (mark_spent v) rs) ≡ none
  unfolding find_receipt update_receipt
  update_none n m [] h = refl
  update_none n m (x ∷ rs) h = ground (arith, update_none n m rs)

  update-IsReceiptOf :
      (n m : ℕ) (b : Bet) (rs : List Receipt) (r : Receipt)
      → find_receipt n rs ≡ some r
      → IsReceiptOf b r
      → (r' : Receipt) × (find_receipt n (update_receipt m (mark_spent v) rs) ≡ some r')
        × IsReceiptOf b r'
  unfolding find_receipt update_receipt
  update-IsReceiptOf n m b [] r h p = absurd (cc (h))
  update-IsReceiptOf n m b (x ∷ rs) r h p = elim (Bool-cases (x.nullifier_of_bet == n)) [
    | inl here ↦
        let same : x ≡ r = cc (rw here at h) in
        let held : IsReceiptOf b x = subst (λ y. IsReceiptOf b y) (sym same) p in
        elim (Bool-cases (x.nullifier_of_bet == m)) [
          | inl hit ↦ (mark_spent v x, rw (hit, here) refl, held)
          | inr miss ↦ (x, rw (miss, here) refl, held)
        ]
    | inr there ↦
        let rest = update-IsReceiptOf n m b rs r (rw there at h) p in
        elim (Bool-cases (x.nullifier_of_bet == m)) [
          | inl hit ↦ (r, rw (hit, there) (rw there at h), p)
          | inr miss ↦ (rest.0, rw (miss, there) rest.1, rest.2)
        ]
  ]

  nullifier_ne :
      IsInjective → (j k : ℕ) → (j == k) ≡ false → (v.nullifier_of j == v.nullifier_of k) ≡ false
  nullifier_ne inj j k h = elim (Bool-cases (v.nullifier_of j == v.nullifier_of k)) [
    | inl same ↦
        let e : j ≡ k = inj j k (==→eq (v.nullifier_of j) (v.nullifier_of k) same) in
        absurd (ground arith)
    | inr differ ↦ differ
  ]

  pub mine :
      (w : Wallet) (r : Replay)
      → r.note.nullifier ≡ v.nullifier_of w.nonce
      → r.note.spent ≡ false
      → is_spent_by (v.nullifier_of w.nonce) r.note ≡ true
  unfolding is_spent_by
  mine w r e open_note = rw (e, open_note, ==_refl (v.nullifier_of w.nonce)) refl

  not_mine :
      (n : ℕ) (w : Wallet) (r : Replay)
      → r.note.nullifier ≡ v.nullifier_of w.nonce
      → ((k : ℕ) → (n == v.nullifier_of k) ≡ false)
      → is_spent_by n r.note ≡ false
  unfolding is_spent_by
  not_mine n w r e h = rw (e, h w.nonce) refl

  foreign_skipped :
      (e : ChainEvent) (w : Wallet) (r : Replay)
      → r.note.nullifier ≡ v.nullifier_of w.nonce
      → IsForeign v e
      → replay_event v false e r ≡ r
  unfolding replay_event
  foreign_skipped (bet e) w r here h = rw (not_mine e.nullifier w r here h) refl
  foreign_skipped (credit kind n of_bet c) w r here h = rw (not_mine n w r here h) refl
  foreign_skipped (partial n of_bet c) w r here h = rw (not_mine n w r here h) refl
  foreign_skipped (close n of_bet full c) w r here h = rw (not_mine n w r here h) refl
  foreign_skipped (withdraw n amount c) w r here h = rw (not_mine n w r here h) refl
  foreign_skipped (consolidate ns c) w r here h =
      let out : member r.note.nullifier ns ≡ false = rw here (h w.nonce) in rw out refl

  placed_receipts :
      IsInjective
      → (w : Wallet) (b : Bet) (rs : List Receipt) (new : Receipt)
      → new.nullifier_of_bet ≡ v.nullifier_of w.nonce
      → IsReceiptOf b new
      → find_receipt (v.nullifier_of w.nonce) rs ≡ none
      → ((k : ℕ) (a : Bet) → find_bet k w.bets ≡ some a → HasReceipt k a rs)
      → (k : ℕ) (a : Bet) → find_bet k ((w.nonce, b) ∷ w.bets) ≡ some a
      → HasReceipt k a (rs ++ new ∷ [])
  unfolding find_bet
  placed_receipts inj w b rs new named held fresh old k a e = elim (Bool-cases (w.nonce == k)) [
    | inl now ↦
        let at : w.nonce ≡ k = ==→eq w.nonce k now in
        let same : b ≡ a = cc (rw now at e) in
        (
          new,
          subst (λ n. find_receipt n (rs ++ new ∷ []) ≡ some new) (named ∙ ap v.nullifier_of at)
              (find-new rs new (subst (λ n. find_receipt n rs ≡ none) (sym named) fresh)),
          subst (λ x. IsReceiptOf x new) same held,
        )
    | inr before ↦
        let (r, found, fits) = old k a (rw before at e) in
        let apart : (new.nullifier_of_bet == v.nullifier_of k) ≡ false =
          rw named (nullifier_ne inj w.nonce k before) in
        (r, find-append_ne (v.nullifier_of k) rs new apart ∙ found, fits)
  ]

  place-agrees :
      IsInjective
      → (b : Bet) (c : ℕ) (w : Wallet) (r : Replay) → Agree w r
      → Agree (act (place b c) w) (replay_event v false (event_of v (place b c) w) r)
  unfolding replay_event replay_bet produce spend
  place-agrees inj b c w r (bal, non, nul, live, old, fresh) =
      let new : Receipt = record {
        nullifier_of_bet = v.nullifier_of w.nonce;
        market_id = b.market_id;
        position_id = b.position_id;
        bet_amount = b.amount;
        expected_shares = b.shares;
        protocol_fee = some b.protocol_fee;
        spent = false;
      } in
      rw (mine w r nul live) (
        ap (λ x. x - b.amount - b.protocol_fee - b.relay_fee) bal,
        ap (λ n. n + 1) non,
        ap (λ n. v.nullifier_of (n + 1)) non,
        refl,
        placed_receipts inj w b r.receipts new refl (refl, refl, refl, refl)
            (fresh w.nonce (omega arith)) old,
        λ k later.
            find-append_ne (v.nullifier_of k) r.receipts new
              (nullifier_ne inj w.nonce k (ground arith))
            ∙ fresh k (omega arith),
      )

  cash_out-agrees :
      (a c : ℕ) (w : Wallet) (r : Replay)
      → (c == 0) ≡ false
      → Agree w r
      → Agree (act (cash_out a c) w) (replay_event v false (event_of v (cash_out a c) w) r)
  unfolding replay_event replay_withdraw produce spend
  cash_out-agrees a c w r rest (bal, non, nul, live, old, fresh) =
      rw (mine w r nul live, rest)
        (
          ap (λ x. x - a) bal,
          ap (λ n. n + 1) non,
          ap (λ n. v.nullifier_of (n + 1)) non,
          refl,
          old,
          λ k later. fresh k (omega arith),
        )

  -- A credit whose new balance is the wallet's leaves the replay where the wallet is.
  credit-agrees :
      (kind : CreditKind) (of_bet c : ℕ) (w w' : Wallet) (r : Replay)
      → Agree w r
      → w'.nonce ≡ w.nonce + 1
      → w'.bets ≡ w.bets
      → (credit_balance v kind r.note.balance (find_receipt of_bet r.receipts) ≡ w'.balance)
      → Agree w' (replay_event v false (credit kind (v.nullifier_of w.nonce) of_bet c) r)
  unfolding replay_event replay_credit produce spend
  credit-agrees kind of_bet c w w' r (bal, non, nul, live, old, fresh) next kept paid =
      rw (mine w r nul live) (
        paid,
        ap (λ n. n + 1) non ∙ sym next,
        ap v.nullifier_of (ap (λ n. n + 1) non ∙ sym next),
        refl,
        (λ k b e.
            let (x, found, fits) = old k b (rw kept at e) in
            update-IsReceiptOf (v.nullifier_of k) of_bet b r.receipts x found fits),
        λ k later.
            let before : w.nonce ≤ k = omega arith in
            update_none (v.nullifier_of k) of_bet r.receipts (fresh k before),
      )

  step-agrees :
      IsInjective
      → (d : Deed) (w : Wallet) (r : Replay) → Agree w r
      → IsAllowed v d w
      → Agree (act d w) (replay_event v false (event_of v d w) r)
  step-agrees inj (place b c) w r agree ok = place-agrees inj b c w r agree
  step-agrees inj (cash_out a c) w r agree (covered, ok) = cash_out-agrees a c w r ok agree
  step-agrees inj (refund k c) w r (bal, non, nul, live, old, fresh) (b, e, staked) =
      let (x, found, (amount, fee, market, shares)) = old k b e in
      credit-agrees bet_cancel (v.nullifier_of k) c w (act (refund k c) w) r
        (bal, non, nul, live, old, fresh) refl refl (rw (found, e, amount, staked, fee, bal) refl)
  step-agrees inj (void_bet k c) w r (bal, non, nul, live, old, fresh) (b, e, staked) =
      let (x, found, (amount, fee, market, shares)) = old k b e in
      credit-agrees na_cancel (v.nullifier_of k) c w (act (void_bet k c) w) r
        (bal, non, nul, live, old, fresh) refl refl
        (rw (found, e, amount, staked, bal) (omega arith))
  step-agrees inj (win k payout c) w r (bal, non, nul, live, old, fresh) (b, e, held, side, paid) =
      let (x, found, (amount, fee, market, shares)) = old k b e in
      let paid' : v.pending_credit b.market_id 0 ≡ some payout = rw side at paid in
      credit-agrees settle (v.nullifier_of k) c w (act (win k payout c) w) r
        (bal, non, nul, live, old, fresh) refl refl
        (rw (found, e, shares, held, market, paid', bal) refl)
  step-agrees inj (other e) w r (bal, non, nul, live, old, fresh) ok =
      rw (foreign_skipped e w r nul ok) (bal, non, nul, live, old, fresh)

  pub run-agrees :
      IsInjective
      → (ds : List Deed) (w : Wallet) (r : Replay) → Agree w r
      → AreAllowed v ds w
      → Agree (play ds w) (replay_events v false (events_of v ds w) r)
  unfolding play replay_events events_of
  run-agrees inj [] w r agree ok = agree
  run-agrees inj (d ∷ ds) w r agree (ok, oks) =
      run-agrees inj ds (act d w) (replay_event v false (event_of v d w) r)
        (step-agrees inj d w r agree ok) oks

  pub start-agrees :
      (amount commitment : ℕ) (sold : List Sale) (balances : List (ℕ × ℕ))
      → Agree
          (record { balance = amount; nonce = 0; bets = [] })
          (record {
            note = deposited v amount commitment;
            free = [];
            receipts = [];
            sold = sold;
            balances = balances;
          })
  unfolding deposited find_bet find_receipt
  start-agrees amount commitment sold balances =
      (refl, refl, refl, refl, (λ k b e. absurd (cc (e))), λ k later. refl)

  -- Where the nullifiers of a secret differ for each nonce, the replay of a deposit over the events of
  -- bets, cash-outs, refunds, void bets and wins of side 0 that its wallet has made, in their order and
  -- among any events that spend no nullifier of this secret, ends with the wallet's own note: its
  -- balance, its nonce and its nullifier, not spent; if each bet and cash-out is covered by the balance,
  -- no cash-out has the zero commitment of one that takes all, each refund and void bet is of a bet
  -- of the wallet with a stake, and each win is of one with shares and is paid what the Vault has pending.
  pub replay_restores :
      (ds : List Deed) (amount commitment : ℕ) (sold : List Sale) (balances : List (ℕ × ℕ))
      → ((j k : ℕ) → v.nullifier_of j ≡ v.nullifier_of k → j ≡ k)
      → AreAllowed v ds (record { balance = amount; nonce = 0; bets = [] })
      → let w : Wallet = record { balance = amount; nonce = 0; bets = [] } in
        let start : Replay = record {
          note = deposited v amount commitment;
          free = [];
          receipts = [];
          sold = sold;
          balances = balances;
        } in
        let r = replay_events v false (events_of v ds w) start in
        (r.note.balance ≡ (play ds w).balance)
        × (r.note.nonce ≡ (play ds w).nonce)
        × (r.note.nullifier ≡ v.nullifier_of (play ds w).nonce)
        × (r.note.spent ≡ false)
  replay_restores ds amount commitment sold balances inj ok =
      let w : Wallet = record { balance = amount; nonce = 0; bets = [] } in
      let start : Replay = record {
        note = deposited v amount commitment;
        free = [];
        receipts = [];
        sold = sold;
        balances = balances;
      } in
      let (bal, non, nul, live, old, fresh) =
        run-agrees inj ds w start (start-agrees amount commitment sold balances) ok in
      (bal, non, nul, live)
