-- ===== src/Frontend/Ledger/SpendBooks.antt =====
-- The books of a wallet and its cash agree after a merge and a bet of packages/frontend/src.
use polyshield.Common.{
  ℕ, ◌+◌, ◌-◌, ◌≤◌, ◌≡◌, Bool, true, false, Option, none, some, List, [], ◌∷◌, ◌&&◌, ltb, leb,
  length, if◌then◌else◌, arith, refl, ◌∙◌, Bool-cases, inl, inr, ==_refl,
}
use polyshield.Frontend.Ledger.{
  Ledger, Note, receipt_of, bet_output, cash_of, mark_note_spent, add_note, record_wallet_activity,
}
use polyshield.Frontend.Ledger.Sums.{ids, IsFresh, IsFresh-add}
use polyshield.Frontend.Ledger.Effects.{
  IsGood, IsFree, Effect, nothing, IsGood-after, and_then, spend, add, book,
}
use polyshield.Frontend.Ledger.Replace.{ids-spend, ids-add}
use polyshield.Frontend.Ledger.Flows.{next_note}
use polyshield.Frontend.Ledger.Spends.{
  BetForm, total, mark_all, merge_into, consolidate_notes, receipt_note, bet_event, bet_on,
  bet_after_merge, bet_by_merge, submit_bet,
}
use polyshield.Frontend.Ledger.Runs.{received_in, paid_in}
use polyshield.Frontend.Ledger.Balance.{Keeps, balanced, unchanged, cash_of-next, NextIsFresh}

-- The notes are ones that the wallet can spend one after the other.
abbrev pub AreFree : ℕ → List Note → Ledger → Type 0
AreFree wallet [] l = Unit
AreFree wallet (n ∷ ns) l = IsFree wallet n l × AreFree wallet ns (mark_note_spent n.id l)

spend_all :
    (wallet : ℕ) (ns : List Note) (l : Ledger)
    → IsGood l
    → AreFree wallet ns l
    → Effect wallet l (mark_all ns l) 0 (total ns) 0 0 × (ids (mark_all ns l).notes ≡ ids l.notes)
unfolding mark_all
spend_all wallet [] l good h = (nothing wallet l good, refl)
spend_all wallet (n ∷ ns) l good (h, hs) =
    let e1 = spend wallet n l good h in
    let (e2, same) = spend_all wallet ns (mark_note_spent n.id l) (IsGood-after e1) hs in
    (and_then e1 e2, same ∙ ids-spend n.id l)

pub Keeps-after :
    (wallet : ℕ) (l l' l'' : Ledger) (fee : ℕ)
    → Keeps wallet l l' 0
    → Keeps wallet l' l'' fee
    → Keeps wallet l l'' fee
Keeps-after wallet l l' l'' fee (good, e) (good', e') = (good', omega arith)

module _ (commit : ℕ → ℕ → ℕ → ℕ → ℕ) (nullify : ℕ → ℕ → ℕ → ℕ) (wallet : ℕ) where
  -- The notes can be merged: each can be spent, and the next commitment of the first is new.
  abbrev pub IsMergeable : List Note → Ledger → Type 0
  IsMergeable [] l = Unit
  IsMergeable (n ∷ ns) l = AreFree wallet (n ∷ ns) l × NextIsFresh commit nullify wallet n l

  merge-Keeps :
      (first : Note) (notes : List Note) (l : Ledger)
      → IsGood l
      → AreFree wallet notes l
      → NextIsFresh commit nullify wallet first l
      → Keeps wallet l (merge_into commit nullify wallet first notes l).1 0
  merge-Keeps first notes l good free fresh =
      let (e1, same) = spend_all wallet notes l good free in
      let e2 =
        add wallet (next_note commit nullify wallet bet_output (total notes) first)
          (mark_all notes l) (IsGood-after e1) (rw same (fresh (total notes))) refl in
      balanced 0 (and_then e1 e2)
        (omega (arith, cash_of-next commit nullify wallet bet_output (total notes) first refl))

  pub consolidate-Keeps :
      (notes : List Note) (relayed : Bool) (l : Ledger)
      → IsGood l
      → IsMergeable notes l
      → Keeps wallet l (consolidate_notes commit nullify wallet notes relayed l).1 0
  unfolding consolidate_notes
  consolidate-Keeps [] relayed l good h = unchanged wallet l good
  consolidate-Keeps (n ∷ []) relayed l good h = unchanged wallet l good
  consolidate-Keeps (n ∷ m ∷ ns) relayed l good (free, fresh) =
      elim (Bool-cases (leb (length (n ∷ m ∷ ns)) 4 && relayed)) [
        | inl merges ↦ rw merges (merge-Keeps n (n ∷ m ∷ ns) l good free fresh)
        | inr stops ↦ rw stops (unchanged wallet l good)
      ]

  -- A bet can be placed on the note: its next commitment and the receipt are new.
  abbrev pub CanBet : Note → Ledger → Type 0
  CanBet n l =
      IsFree wallet n l
      × NextIsFresh commit nullify wallet n l
      × IsFresh (receipt_of (nullify wallet n.deposit_index n.nonce)) (ids l.notes)

  cash_of-bet :
      (n : Note) (f : BetForm) → cash_of wallet (receipt_note commit nullify wallet n f) ≡ 0
  cash_of-bet n f = refl

  bet-Keeps :
      (f : BetForm) (cash : Note) (l : Ledger)
      → IsGood l
      → CanBet cash l
      → f.stake + f.fee ≤ cash.balance
      → Keeps wallet l
          (record_wallet_activity (bet_event commit nullify wallet cash f) (
            add_note (receipt_note commit nullify wallet cash f) (
              add_note
                (next_note commit nullify wallet bet_output (cash.balance - f.stake - f.fee) cash)
                (mark_note_spent cash.id l))))
          f.fee
  bet-Keeps f cash l good (is_free, fresh, new) enough =
      let rest = cash.balance - f.stake - f.fee in
      let next = next_note commit nullify wallet bet_output rest cash in
      let receipt = receipt_note commit nullify wallet cash f in
      let ev = bet_event commit nullify wallet cash f in
      let e1 = spend wallet cash l good is_free in
      let l1 = mark_note_spent cash.id l in
      let e2 = add wallet next l1 (IsGood-after e1) (rw (ids-spend cash.id l) (fresh rest)) refl in
      let l2 = add_note next l1 in
      let e3 =
        add wallet receipt l2 (IsGood-after e2)
          (rw (ids-add next l1, ids-spend cash.id l)
            (IsFresh-add receipt.id (ids l.notes) next.id new refl))
          refl in
      let e4 = book wallet ev (add_note receipt l2) (IsGood-after e3) in
      let paid_stake : paid_in wallet ev ≡ f.stake = rw (==_refl wallet) refl in
      let received_none : received_in wallet ev ≡ 0 = rw (==_refl wallet) refl in
      balanced f.fee (and_then e1 (and_then e2 (and_then e3 e4))) (
        omega (
          arith,
          cash_of-next commit nullify wallet bet_output rest cash refl,
          paid_stake,
          received_none,
        ))

  abbrev pub BetKeeps : BetForm → Ledger → Bool × Ledger → Type 0
  BetKeeps f l x = Keeps wallet l x.1 (if x.0 then f.fee else 0)

  bet_on-keeps :
      (f : BetForm) (relayed : Bool) (cash : Note) (l : Ledger)
      → IsGood l
      → CanBet cash l
      → BetKeeps f l (bet_on commit nullify wallet f relayed cash l)
  unfolding bet_on
  bet_on-keeps f relayed cash l good can = elim (Bool-cases (ltb cash.balance (f.stake + f.fee))) [
    | inl short ↦ rw short (unchanged wallet l good)
    | inr enough ↦ elim (Bool-cases relayed) [
      | inl sent ↦ rw (enough, sent) (bet-Keeps f cash l good can (ground arith))
      | inr lost ↦ rw (enough, lost) (unchanged wallet l good)
    ]
  ]

  -- What follows a merge.
  abbrev pub AfterMerge : (Note → Ledger → Type 0) → Option (List Note) → Bool → Ledger → Type 0
  AfterMerge P none relayed l = Unit
  AfterMerge P (some notes) relayed l =
      IsMergeable notes l
      × ((m : Note)
          → (consolidate_notes commit nullify wallet notes relayed l).0 ≡ some m
          → P m (consolidate_notes commit nullify wallet notes relayed l).1)

  bet_merged :
      (f : BetForm) (relayed : Bool) (l : Ledger) (x : Option Note × Ledger)
      → Keeps wallet l x.1 0
      → ((m : Note) → x.0 ≡ some m → CanBet m x.1)
      → BetKeeps f l (bet_after_merge commit nullify wallet f relayed x)
  bet_merged f relayed l (none, l') k can = k
  bet_merged f relayed l (some m, l') k can =
      Keeps-after wallet l l' _ _ k (bet_on-keeps f relayed m l' k.0 (can m refl))

  bet_by_merge-keeps :
      (f : BetForm) (picked : Option (List Note)) (merged relayed : Bool) (l : Ledger)
      → IsGood l
      → AfterMerge CanBet picked merged l
      → BetKeeps f l (bet_by_merge commit nullify wallet f picked merged relayed l)
  bet_by_merge-keeps f none merged relayed l good h = unchanged wallet l good
  bet_by_merge-keeps f (some notes) merged relayed l good (mergeable, can) =
      bet_merged f relayed l _ (consolidate-Keeps notes merged l good mergeable) can

  pub submit_bet-keeps :
      (f : BetForm) (picked : Option (List Note)) (merged relayed : Bool) (cash : Note) (l : Ledger)
      → IsGood l
      → (ltb cash.balance (f.stake + f.fee) ≡ false → CanBet cash l)
      → (ltb cash.balance (f.stake + f.fee) ≡ true → AfterMerge CanBet picked merged l)
      → BetKeeps f l (submit_bet commit nullify wallet f picked merged relayed cash l)
  unfolding submit_bet
  submit_bet-keeps f picked merged relayed cash l good can after =
      elim (Bool-cases (ltb cash.balance (f.stake + f.fee))) [
        | inl short ↦ rw short (bet_by_merge-keeps f picked merged relayed l good (after short))
        | inr enough ↦ rw enough (bet_on-keeps f relayed cash l good (can enough))
      ]
