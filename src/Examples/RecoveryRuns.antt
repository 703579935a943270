-- ===== src/Examples/RecoveryRuns.antt =====
-- The recovery of the notes (packages/frontend/src/lib/notes.ts) at concrete inputs.
use polyshield.Common.{
  if◌then◌else◌, ℕ, ◌+◌, ◌≡◌, false, none, some, List, [], ◌∷◌, refl, arith, ◌==◌, ◌*◌, ◌<◌,
}
use polyshield.Frontend.Recovery.{
  Vault, Replay, credit, settle, deposited, replay_event, replay_events,
}
use polyshield.Frontend.Recovery.Wallet.{
  find_bet, Bet, Wallet, Deed, place, cash_out, refund, win, other, play, events_of, event_of, act,
}
use polyshield.Frontend.Recovery.Roundtrip.{replay_restores}
use polyshield.Frontend.Recovery.Sides.{settled_side_is_lost}

-- Side 0 of the market 6 pays 1 for each share.
abbrev vault : Vault
vault = record {
  nullifier_of = λ n. n + 100;
  commitment_of = λ b n. b + n;
  pending_credit = λ market side. if side == 0 then some 1 else some 0;
  bet_record = λ n. none;
  bet_fee_bps = 0;
  relay_gas_fee = 0;
}

abbrev bet_on : ℕ → Bet
bet_on amount = record {
  market_id = 6;
  position_id = 5;
  side = 0;
  shares = 9;
  amount = amount;
  protocol_fee = 1;
  relay_fee = 2;
}

-- Two bets, of which one wins and one is refunded, a cash-out, and a stranger's settlement.
abbrev deeds : List Deed
deeds =
    place (bet_on 10) 41
    ∷ other (credit settle 7 8 9)
    ∷ place (bet_on 20) 42
    ∷ win 0 1 43
    ∷ refund 1 44
    ∷ cash_out 5 45
    ∷ []

replay_restores_example :
    let w : Wallet = record { balance = 50; nonce = 0; bets = [] } in
    let start : Replay = record {
      note = deposited vault 50 40;
      free = [];
      receipts = [];
      sold = [];
      balances = [];
    } in
    let r = replay_events vault false (events_of vault deeds w) start in
    (r.note.balance ≡ (play deeds w).balance)
    × (r.note.nonce ≡ (play deeds w).nonce)
    × (r.note.nullifier ≡ (play deeds w).nonce + 100)
    × (r.note.spent ≡ false)
unfolding find_bet
replay_restores_example =
    replay_restores vault deeds 50 40 [] [] (λ j k e. omega arith)
      (
        omega arith,
        (
          (λ k. ground arith),
          (
            omega arith,
            (
              (bet_on 10, refl, refl, refl, refl),
              ((bet_on 20, refl, refl), ((omega arith, refl), tt)),
            ),
          ),
        ),
      )

-- A bet on NO, in a market that pays 1 for each share of side 1.
abbrev side_one_pays : Vault
side_one_pays = record vault {
  pending_credit = λ market side. if side == 0 then some 0 else some 1;
}

abbrev bet_on_no : Bet
bet_on_no = record (bet_on 10) { side = 1 }

abbrev bet_no : List Deed
bet_no = place bet_on_no 41 ∷ []

settled_side_is_lost_example :
    let start : Wallet = record { balance = 50; nonce = 0; bets = [] } in
    let r = replay_events side_one_pays false (events_of side_one_pays bet_no start) (record {
      note = deposited side_one_pays 50 40;
      free = [];
      receipts = [];
      sold = [];
      balances = [];
    }) in
    let replayed =
      replay_event side_one_pays false
        (event_of side_one_pays (win 0 1 42) (play bet_no start))
        r in
    let real = act (win 0 1 42) (play bet_no start) in
    (replayed.note.balance + 9 * 1 ≡ real.balance) × (replayed.note.balance < real.balance)
unfolding find_bet play
settled_side_is_lost_example =
    settled_side_is_lost side_one_pays bet_no 50 40 0 1 42 [] [] bet_on_no (λ j k e. omega arith)
      (omega arith, tt) refl refl (omega arith) (omega arith) refl refl
