-- ===== src/Frontend/Recovery.antt =====
-- packages/frontend/src/lib/notes.ts: replayLineage and the two passes of recoverNotesWithClient, from the
-- sorted events on. Hashes and ids are opaque numbers, and 0 is the zero word; computeNullifier and
-- computeCommitment, which call the Poseidon hash, are parameters, and so are the reads of the Vault. The
-- activity log, the timestamps and the fields of a note that only label it are left out. Amounts are
-- bigints that the Vault keeps from going below 0.
pub mod Wallet
pub mod Roundtrip
pub mod Sides
use polyshield.Common.{
  ℕ, ◌+◌, ◌-◌, ◌*◌, ◌/◌, Bool, true, false, Option, none, some, List, [], ◌∷◌, ◌++◌, ◌&&◌, ◌||◌,
  not, if◌then◌else◌, ◌==◌, ltb, leb,
}
use polyshield.Frontend.Selection.{member}

pub data NoteKind : Type 0 where
  deposit bet_output settle_credit cancel_credit : NoteKind

-- ChainNoteState, less the secret and the index, which stay the same in a lineage.
pub record ChainNote : Type 0 where
  pub balance : ℕ
  pub nonce : ℕ
  pub commitment : ℕ
  pub nullifier : ℕ
  pub kind : NoteKind
  pub spent : Bool

-- A note of the kind BET_RECEIPT.
pub record Receipt : Type 0 where
  pub nullifier_of_bet : ℕ
  pub market_id : ℕ
  pub position_id : ℕ
  pub bet_amount : ℕ
  pub expected_shares : ℕ
  pub protocol_fee : Option ℕ
  pub spent : Bool

-- BetSold
pub record Sale : Type 0 where
  pub nullifier_of_bet : ℕ
  pub proceeds : ℕ
  pub sold_shares : ℕ

pub record BetLog : Type 0 where
  pub nullifier : ℕ
  pub market_id : ℕ
  pub position_id : ℕ
  pub expected_shares : ℕ
  pub bet_amount : ℕ
  pub new_commitment : ℕ
  pub protocol_fee : Option ℕ
  pub relay_fee : Option ℕ

pub data CreditKind : Type 0 where
  settle bet_cancel na_cancel : CreditKind

-- The events of a replay: a spent nullifier, the bet it is about, and the new commitment last.
pub data ChainEvent : Type 0 where
  bet : BetLog → ChainEvent
  credit : CreditKind → ℕ → ℕ → ℕ → ChainEvent
  partial : ℕ → ℕ → ℕ → ChainEvent
  close : ℕ → ℕ → Bool → ℕ → ChainEvent
  withdraw : ℕ → ℕ → ℕ → ChainEvent
  consolidate : List ℕ → ℕ → ChainEvent

-- pendingCredit and betRecords (shares and amount) are none where the read throws.
pub record Vault : Type 0 where
  pub nullifier_of : ℕ → ℕ
  pub commitment_of : ℕ → ℕ → ℕ
  pub pending_credit : ℕ → ℕ → Option ℕ
  pub bet_record : ℕ → Option (ℕ × ℕ)
  pub bet_fee_bps : ℕ
  pub relay_gas_fee : ℕ

-- The current note, the notes and receipts pushed so far, the queues of sales, and balanceByNullifier.
pub record Replay : Type 0 where
  pub note : ChainNote
  pub free : List ChainNote
  pub receipts : List Receipt
  pub sold : List Sale
  pub balances : List (ℕ × ℕ)

unfoldable pub find_receipt : ℕ → List Receipt → Option Receipt
find_receipt n [] = none
find_receipt n (r ∷ rs) = if r.nullifier_of_bet == n then some r else find_receipt n rs

-- What an assignment to the fields of a receipt, which is shared with the list, does.
unfoldable pub update_receipt : ℕ → (Receipt → Receipt) → List Receipt → List Receipt
update_receipt n f [] = []
update_receipt n f (r ∷ rs) =
    if r.nullifier_of_bet == n then f r ∷ rs else r ∷ update_receipt n f rs

-- soldByBet.get(n)?.shift()
unfoldable pub take_sale : ℕ → List Sale → Option Sale × List Sale
take_sale n [] = (none, [])
take_sale n (s ∷ ss) =
    let (found, rest) = take_sale n ss in
    if s.nullifier_of_bet == n then (some s, ss) else (found, s ∷ rest)

unfoldable pub get_balance : ℕ → List (ℕ × ℕ) → ℕ
get_balance n [] = 0
get_balance n ((m, b) ∷ bs) = if m == n then b else get_balance n bs

unfoldable pub set_balance : ℕ → ℕ → List (ℕ × ℕ) → List (ℕ × ℕ)
set_balance n b [] = (n, b) ∷ []
set_balance n b ((m, c) ∷ bs) = if m == n then (m, b) ∷ bs else (m, c) ∷ set_balance n b bs

-- The sum over the inputs of a consolidation.
unfoldable pub merged_balance : List (ℕ × ℕ) → List ℕ → ℕ
merged_balance balances [] = 0
merged_balance balances (n ∷ ns) =
    if n == 0
    then merged_balance balances ns
    else get_balance n balances + merged_balance balances ns

-- The guard of every event but a consolidation.
unfoldable pub is_spent_by : ℕ → ChainNote → Bool
is_spent_by n s = (n == s.nullifier) && not s.spent

-- The current note is pushed as spent.
unfoldable pub spend : Replay → Replay
spend r = record r {
  note = record r.note { spent = true };
  free = r.free ++ record r.note { spent = true } ∷ [];
}

abbrev pub or_zero : Option ℕ → ℕ
or_zero none = 0
or_zero (some a) = a

module _ (v : Vault) where
  -- The note that an event makes, with the next nonce.
  unfoldable pub produce : NoteKind → ℕ → ℕ → Replay → Replay
  produce kind balance commitment r = record r {
    note = record {
      balance = balance;
      nonce = r.note.nonce + 1;
      commitment = commitment;
      nullifier = v.nullifier_of (r.note.nonce + 1);
      kind = kind;
      spent = false;
    };
  }

  -- A commitment is not made of a balance below 0, so such a trial does not match.
  abbrev pub legacy_balance : ℕ → ℕ → ℕ → ℕ → ℕ
  legacy_balance balance nonce amount commitment =
      let fee = amount * v.bet_fee_bps / 10_000 + v.relay_gas_fee in
      if ltb 0 fee
        && (ltb balance (amount + fee)
            || not (v.commitment_of (balance - amount - fee) nonce == commitment))
      then balance - amount
      else balance - amount - fee

  abbrev pub bet_balance : ChainNote → BetLog → Option ℕ → ℕ
  bet_balance s e (some fee) = s.balance - e.bet_amount - fee - or_zero e.relay_fee
  bet_balance s e none = legacy_balance s.balance (s.nonce + 1) e.bet_amount e.new_commitment

  abbrev pub receipt_of : BetLog → Receipt
  receipt_of e = record {
    nullifier_of_bet = e.nullifier;
    market_id = e.market_id;
    position_id = e.position_id;
    bet_amount = e.bet_amount;
    expected_shares = e.expected_shares;
    protocol_fee = e.protocol_fee;
    spent = false;
  }

  unfoldable pub replay_bet : BetLog → Replay → Replay
  replay_bet e r =
      let balance = bet_balance r.note e e.protocol_fee in
      let r' = spend r in
      produce bet_output balance e.new_commitment
        (record r' { receipts = r'.receipts ++ receipt_of e ∷ [] })

  abbrev pub payout_balance : ℕ → ℕ → Option ℕ → ℕ
  payout_balance old shares none = old
  payout_balance old shares (some payout) = old + shares * payout

  abbrev pub is_bet_cancel : CreditKind → Bool
  is_bet_cancel bet_cancel = true
  is_bet_cancel _ = false

  abbrev pub refund_balance : CreditKind → ℕ → Receipt → ℕ
  refund_balance k old receipt =
      if receipt.bet_amount == 0
      then old
      else old + receipt.bet_amount + (if is_bet_cancel k then or_zero receipt.protocol_fee else 0)

  -- inferBalanceFromCommitment returns null, and a receipt of the replay has no side, so that the
  -- payout is read for the side 0.
  abbrev pub credit_balance : CreditKind → ℕ → Option Receipt → ℕ
  credit_balance k old none = old
  credit_balance settle old (some receipt) =
      if receipt.expected_shares == 0
      then refund_balance settle old receipt
      else payout_balance old receipt.expected_shares (v.pending_credit receipt.market_id 0)
  credit_balance bet_cancel old (some receipt) = refund_balance bet_cancel old receipt
  credit_balance na_cancel old (some receipt) = refund_balance na_cancel old receipt

  abbrev pub credit_note : CreditKind → NoteKind
  credit_note settle = settle_credit
  credit_note bet_cancel = cancel_credit
  credit_note na_cancel = cancel_credit

  abbrev pub mark_spent : Receipt → Receipt
  mark_spent receipt = record receipt { spent = true }

  unfoldable pub replay_credit : CreditKind → ℕ → ℕ → Replay → Replay
  replay_credit k of_bet commitment r =
      let balance = credit_balance k r.note.balance (find_receipt of_bet r.receipts) in
      let r' = spend r in
      produce (credit_note k) balance commitment
        (record r' { receipts = update_receipt of_bet mark_spent r'.receipts })

  abbrev pub committed_of : Option Receipt → ℕ × ℕ
  committed_of none = (0, 0)
  committed_of (some receipt) = (receipt.bet_amount, or_zero receipt.protocol_fee)

  abbrev pub partial_refund : ℕ × ℕ → Option (ℕ × ℕ) → ℕ
  partial_refund (committed, fee) none = 0
  partial_refund (committed, fee) (some (filled, spent)) =
      if ltb spent committed then committed - spent + fee * (committed - spent) / committed else 0

  abbrev pub normalize : Option (ℕ × ℕ) → Receipt → Receipt
  normalize none receipt = receipt
  normalize (some (filled, spent)) receipt = record receipt {
    expected_shares = filled;
    bet_amount = spent;
  }

  unfoldable pub replay_partial : ℕ → ℕ → Replay → Replay
  replay_partial of_bet commitment r =
      let fill = v.bet_record of_bet in
      let refund = partial_refund (committed_of (find_receipt of_bet r.receipts)) fill in
      let balance = r.note.balance + refund in
      let r' = spend r in
      produce cancel_credit balance commitment
        (record r' { receipts = update_receipt of_bet (normalize fill) r'.receipts })

  abbrev pub proceeds_of : Option Sale → ℕ
  proceeds_of none = 0
  proceeds_of (some sale) = sale.proceeds

  abbrev pub after_close : Bool → Option Sale → Receipt → Receipt
  after_close true sale receipt = record receipt { spent = true }
  after_close false none receipt = receipt
  after_close false (some sale) receipt = record receipt {
    expected_shares = receipt.expected_shares - sale.sold_shares;
  }

  unfoldable pub replay_close : ℕ → Bool → ℕ → Replay → Replay
  replay_close of_bet is_full commitment r =
      let (sale, rest) = take_sale of_bet r.sold in
      let balance = r.note.balance + proceeds_of sale in
      let r' = spend r in
      produce settle_credit balance commitment (record r' {
        receipts = update_receipt of_bet (after_close is_full sale) r'.receipts;
        sold = rest;
      })

  unfoldable pub replay_withdraw : ℕ → ℕ → Replay → Replay
  replay_withdraw amount commitment r =
      let balance = r.note.balance - amount in
      let r' = spend r in
      if commitment == 0
      then record r' { note = record r'.note { balance = 0 } }
      else produce bet_output balance commitment r'

  abbrev pub is_first : ℕ → List ℕ → Bool
  is_first n [] = false
  is_first n (m ∷ ms) = m == n

  unfoldable pub replay_consolidate : Bool → List ℕ → ℕ → Replay → Replay
  replay_consolidate discover inputs commitment r =
      let n = r.note.nullifier in
      let balances = set_balance n r.note.balance r.balances in
      let r' = record (spend r) { balances = balances } in
      if not (is_first n inputs) || discover
      then r'
      else produce bet_output (merged_balance balances inputs) commitment r'

  -- The body of the loop over the events; `discover` is the mode of the first pass.
  unfoldable pub replay_event : Bool → ChainEvent → Replay → Replay
  replay_event discover (bet e) r = if is_spent_by e.nullifier r.note then replay_bet e r else r
  replay_event discover (credit k n of_bet c) r =
      if is_spent_by n r.note then replay_credit k of_bet c r else r
  replay_event discover (partial n of_bet c) r =
      if is_spent_by n r.note then replay_partial of_bet c r else r
  replay_event discover (close n of_bet is_full c) r =
      if is_spent_by n r.note then replay_close of_bet is_full c r else r
  replay_event discover (withdraw n amount c) r =
      if is_spent_by n r.note then replay_withdraw amount c r else r
  replay_event discover (consolidate inputs c) r =
      if member r.note.nullifier inputs && not r.note.spent
      then replay_consolidate discover inputs c r
      else r

  unfoldable pub replay_events : Bool → List ChainEvent → Replay → Replay
  replay_events discover [] r = r
  replay_events discover (e ∷ es) r = replay_events discover es (replay_event discover e r)

  -- The note of a deposit, and replayLineage with the sales and balances of those before it.
  unfoldable pub deposited : ℕ → ℕ → ChainNote
  deposited amount commitment = record {
    balance = amount;
    nonce = 0;
    commitment = commitment;
    nullifier = v.nullifier_of 0;
    kind = deposit;
    spent = false;
  }

  unfoldable pub push_last : Replay → Replay
  push_last r =
      if not r.note.spent && ltb 0 r.note.balance
      then record r { free = r.free ++ r.note ∷ [] }
      else r

  unfoldable pub replay_lineage : Bool → ℕ × ℕ → List ChainEvent → List Sale → List (ℕ × ℕ) → Replay
  replay_lineage discover (amount, commitment) es sold balances = push_last (
      replay_events discover es (record {
        note = deposited amount commitment;
        free = [];
        receipts = [];
        sold = sold;
        balances = balances;
      }))

-- A deposit that was matched to its index: the Vault's parameters with its secret, and the amount and
-- commitment of the deposit.
pub record Lineage : Type 0 where
  pub vault : Vault
  pub amount : ℕ
  pub commitment : ℕ

-- A pass over the lineages in the order of their indices.
unfoldable pub replay_all :
    Bool → List ChainEvent → List Sale → List (ℕ × ℕ) → List Lineage → List Replay × List (ℕ × ℕ)
replay_all discover es sold balances [] = ([], balances)
replay_all discover es sold balances (l ∷ ls) =
    let r = replay_lineage l.vault discover (l.amount, l.commitment) es sold balances in
    let (rs, balances') = replay_all discover es r.sold r.balances ls in (r ∷ rs, balances')

-- The discovery pass, whose notes are discarded, and the final pass.
unfoldable pub recover_notes : List ChainEvent → List Sale → List Lineage → List Replay
recover_notes es sold ls =
    let (discarded, balances) = replay_all true es sold [] ls in
    (replay_all false es sold balances ls).0
