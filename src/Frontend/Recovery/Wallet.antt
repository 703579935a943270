-- ===== src/Frontend/Recovery/Wallet.antt =====
-- What a wallet does with one deposit, as the Vault books it, and the events that others read of it: the
-- description that the recovery of packages/frontend/src/lib/notes.ts is compared with.
use polyshield.Common.{
  ℕ, ◌+◌, ◌-◌, ◌*◌, ◌≡◌, false, Option, none, some, List, [], ◌∷◌, if◌then◌else◌, ◌==◌, ◌≤◌,
}
use polyshield.Frontend.Selection.{member}
use polyshield.Frontend.Recovery.{
  Vault, ChainEvent, bet, credit, partial, close, withdraw, consolidate, settle, bet_cancel,
  na_cancel,
}

pub record Bet : Type 0 where
  pub market_id : ℕ
  pub position_id : ℕ
  pub side : ℕ
  pub shares : ℕ
  pub amount : ℕ
  pub protocol_fee : ℕ
  pub relay_fee : ℕ

-- A bet is known by the nonce of the note that it has spent.
pub record Wallet : Type 0 where
  pub balance : ℕ
  pub nonce : ℕ
  pub bets : List (ℕ × Bet)

-- Each deed has the new commitment that the wallet sends with it; `other` is an event of anyone else.
pub data Deed : Type 0 where
  place : Bet → ℕ → Deed
  cash_out : ℕ → ℕ → Deed
  refund : ℕ → ℕ → Deed
  void_bet : ℕ → ℕ → Deed
  win : ℕ → ℕ → ℕ → Deed
  other : ChainEvent → Deed

unfoldable pub find_bet : ℕ → List (ℕ × Bet) → Option Bet
find_bet k [] = none
find_bet k ((j, b) ∷ bs) = if j == k then some b else find_bet k bs

abbrev pub stake_of : Option Bet → ℕ
stake_of none = 0
stake_of (some b) = b.amount

abbrev pub fee_of : Option Bet → ℕ
fee_of none = 0
fee_of (some b) = b.protocol_fee

abbrev pub shares_of : Option Bet → ℕ
shares_of none = 0
shares_of (some b) = b.shares

-- The balance after a deed: a refund gives back the stake with its protocol fee, a void bet the stake, and
-- a win its shares times their payout.
abbrev pub balance_after : Deed → Wallet → ℕ
balance_after (place b c) w = w.balance - b.amount - b.protocol_fee - b.relay_fee
balance_after (cash_out a c) w = w.balance - a
balance_after (refund k c) w = w.balance + stake_of (find_bet k w.bets) + fee_of (find_bet k w.bets)
balance_after (void_bet k c) w = w.balance + stake_of (find_bet k w.bets)
balance_after (win k payout c) w = w.balance + shares_of (find_bet k w.bets) * payout
balance_after (other e) w = w.balance

abbrev pub bets_after : Deed → Wallet → List (ℕ × Bet)
bets_after (place b c) w = (w.nonce, b) ∷ w.bets
bets_after _ w = w.bets

abbrev pub nonce_after : Deed → Wallet → ℕ
nonce_after (other e) w = w.nonce
nonce_after _ w = w.nonce + 1

abbrev pub act : Deed → Wallet → Wallet
act d w = record { balance = balance_after d w; nonce = nonce_after d w; bets = bets_after d w }

unfoldable pub play : List Deed → Wallet → Wallet
play [] w = w
play (d ∷ ds) w = play ds (act d w)

module _ (v : Vault) where
  abbrev pub event_of : Deed → Wallet → ChainEvent
  event_of (place b c) w = bet (record {
    nullifier = v.nullifier_of w.nonce;
    market_id = b.market_id;
    position_id = b.position_id;
    expected_shares = b.shares;
    bet_amount = b.amount;
    new_commitment = c;
    protocol_fee = some b.protocol_fee;
    relay_fee = some b.relay_fee;
  })
  event_of (cash_out a c) w = withdraw (v.nullifier_of w.nonce) a c
  event_of (refund k c) w = credit bet_cancel (v.nullifier_of w.nonce) (v.nullifier_of k) c
  event_of (void_bet k c) w = credit na_cancel (v.nullifier_of w.nonce) (v.nullifier_of k) c
  event_of (win k payout c) w = credit settle (v.nullifier_of w.nonce) (v.nullifier_of k) c
  event_of (other e) w = e

  unfoldable pub events_of : List Deed → Wallet → List ChainEvent
  events_of [] w = []
  events_of (d ∷ ds) w = event_of d w ∷ events_of ds (act d w)

  -- The nullifier that an event spends is none of this lineage.
  abbrev pub IsForeign : ChainEvent → Type 0
  IsForeign (bet e) = (k : ℕ) → (e.nullifier == v.nullifier_of k) ≡ false
  IsForeign (credit _ n _ _) = (k : ℕ) → (n == v.nullifier_of k) ≡ false
  IsForeign (partial n _ _) = (k : ℕ) → (n == v.nullifier_of k) ≡ false
  IsForeign (close n _ _ _) = (k : ℕ) → (n == v.nullifier_of k) ≡ false
  IsForeign (withdraw n _ _) = (k : ℕ) → (n == v.nullifier_of k) ≡ false
  IsForeign (consolidate ns _) = (k : ℕ) → member (v.nullifier_of k) ns ≡ false

  -- What the Vault allows: credits are for bets of the wallet, with a stake, and a win is paid what
  -- pendingCredit says for the side of its bet, which is 0 here. Bets and cash-outs are covered, and a
  -- cash-out leaves a note.
  abbrev pub IsAllowed : Deed → Wallet → Type 0
  IsAllowed (place b c) w = b.amount + b.protocol_fee + b.relay_fee ≤ w.balance
  IsAllowed (cash_out a c) w = (a ≤ w.balance) × ((c == 0) ≡ false)
  IsAllowed (refund k c) w = (b : Bet) × (find_bet k w.bets ≡ some b) × ((b.amount == 0) ≡ false)
  IsAllowed (void_bet k c) w = (b : Bet) × (find_bet k w.bets ≡ some b) × ((b.amount == 0) ≡ false)
  IsAllowed (win k payout c) w =
      (b : Bet) × (find_bet k w.bets ≡ some b)
      × ((b.shares == 0) ≡ false)
      × (b.side ≡ 0)
      × (v.pending_credit b.market_id b.side ≡ some payout)
  IsAllowed (other e) w = IsForeign e

  abbrev pub AreAllowed : List Deed → Wallet → Type 0
  AreAllowed [] w = Unit
  AreAllowed (d ∷ ds) w = IsAllowed d w × AreAllowed ds (act d w)
