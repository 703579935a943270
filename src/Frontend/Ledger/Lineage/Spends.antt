-- ===== src/Frontend/Ledger/Lineage/Spends.antt =====
-- The open positions of a wallet under the merges, bets, withdrawals and deposits of packages/frontend/src.
use polyshield.Common.{
  ℕ, ◌≡◌, ◌<◌, Bool, true, false, Option, none, some, List, [], ◌∷◌, ◌++◌, ◌+◌, ◌-◌, ◌==◌, ◌&&◌,
  refl, Bool-cases, inl, inr, ◌⊎◌, arith, ltb, leb, length, ==_refl, ==→eq,
}
use mathlib.Core.Path.{subst}
use polyshield.Frontend.Ledger.{
  Ledger, Note, bet_output, is_in_deposit, mark_note_spent, add_note, record_wallet_activity,
}
use polyshield.Frontend.Ledger.Flows.{next_note}
use polyshield.Frontend.Ledger.Spends.{
  BetForm, total, member, mark_all, consolidate_notes, merge_into, receipt_note, bet_on,
  bet_after_merge, bet_by_merge, submit_bet, effective_withdrawal, withdraw_from,
  withdraw_after_merge, withdraw_by_merge, submit_withdrawal, deposited_note, deposit_confirmed,
}
use polyshield.Frontend.Ledger.Effects.{IsFree}
use polyshield.Frontend.Ledger.SpendBooks.{AreFree, IsMergeable, AfterMerge, CanBet}
use polyshield.Frontend.Ledger.WithdrawBooks.{CanTake}
use polyshield.Frontend.Ledger.Kept.{
  has_open, of_any, kept_same, kept_add, kept_spend_all, covered, IsCovered-receipt, has-last,
}
use polyshield.Frontend.Ledger.Lineage.{HasCover, next_free, spent, continued}

-- The deposits of merged notes have no open position, but for the one of the first note.
abbrev pub IsAnchored : ℕ → List Note → Ledger → Type 0
IsAnchored wallet [] l = Unit
IsAnchored wallet (n ∷ ns) l =
    (d : ℕ)
    → of_any (n ∷ ns) d ≡ true
    → (has_open wallet d l.notes ≡ false) ⊎ ((n.deposit_index == d) ≡ true)

-- The page knows of an open position of the note's deposit, and then the note holds more than 1.
abbrev pub KeepsDust : ℕ → List ℕ → Note → Ledger → Type 0
KeepsDust wallet open_deposits n l =
    has_open wallet n.deposit_index l.notes ≡ true
    → (member n.deposit_index open_deposits ≡ true) × (1 < n.balance)

rest_left :
    (open_deposits : List ℕ) (requested : ℕ) (n : Note)
    → member n.deposit_index open_deposits ≡ true
    → 1 < n.balance
    → ltb 0 (n.balance - effective_withdrawal open_deposits requested n) ≡ true
unfolding effective_withdrawal
rest_left open_deposits requested n known dust = elim (Bool-cases (leb n.balance requested)) [
  | inl all ↦
      let more : ltb 1 n.balance ≡ true = ground arith in rw (known, all, more) (ground arith)
  | inr part ↦ rw (known, part) (ground arith)
]

module _ (commit : ℕ → ℕ → ℕ → ℕ → ℕ) (nullify : ℕ → ℕ → ℕ → ℕ) (wallet : ℕ) where
  abbrev pub Covers : Ledger → Type 0
  Covers l = HasCover commit nullify wallet l

  merge-Covers :
      (n : Note) (ns : List Note) (l : Ledger)
      → Covers l
      → AreFree wallet (n ∷ ns) l
      → IsAnchored wallet (n ∷ ns) l
      → Covers (merge_into commit nullify wallet n (n ∷ ns) l).1
  unfolding add_note
  merge-Covers n ns l cov free anchored =
      let next = next_note commit nullify wallet bet_output (total (n ∷ ns)) n in
      let marked = (mark_all (n ∷ ns) l).notes in
      covered wallet (of_any (n ∷ ns)) l.notes (marked ++ next ∷ []) cov
        (kept_add wallet (of_any (n ∷ ns)) next l.notes marked refl (
          kept_spend_all wallet (of_any (n ∷ ns)) l.notes (n ∷ ns) l
            (kept_same wallet (of_any (n ∷ ns)) l.notes) free (λ d h. h)))
        (λ d gone. elim (anchored d gone) [
          | inl shut ↦ inl shut
          | inr here ↦ inr (
              has-last (is_in_deposit wallet d) marked next
                (next_free commit nullify wallet bet_output (total (n ∷ ns)) d n refl here))
        ])

  pub consolidate-Covers :
      (notes : List Note) (relayed : Bool) (l : Ledger)
      → Covers l
      → IsMergeable commit nullify wallet notes l
      → IsAnchored wallet notes l
      → Covers (consolidate_notes commit nullify wallet notes relayed l).1
  unfolding consolidate_notes
  consolidate-Covers [] relayed l cov h anchored = cov
  consolidate-Covers (n ∷ []) relayed l cov h anchored = cov
  consolidate-Covers (n ∷ m ∷ ns) relayed l cov (free, fresh) anchored =
      elim (Bool-cases (leb (length (n ∷ m ∷ ns)) 4 && relayed)) [
        | inl merges ↦ rw merges (merge-Covers n (m ∷ ns) l cov free anchored)
        | inr stops ↦ rw stops cov
      ]

  bet_on-Covers :
      (f : BetForm) (relayed : Bool) (cash : Note) (l : Ledger)
      → Covers l
      → IsFree wallet cash l
      → Covers (bet_on commit nullify wallet f relayed cash l).1
  unfolding bet_on add_note record_wallet_activity
  bet_on-Covers f relayed cash l cov free = elim (Bool-cases (ltb cash.balance (f.stake + f.fee))) [
    | inl short ↦ rw short cov
    | inr enough ↦ elim (Bool-cases relayed) [
      | inl sent ↦
          rw (enough, sent)
            (let rest = cash.balance - f.stake - f.fee in
              let next = next_note commit nullify wallet bet_output rest cash in
              let marked = (mark_note_spent cash.id l).notes in
              IsCovered-receipt wallet (receipt_note commit nullify wallet cash f)
                (marked ++ next ∷ [])
                (continued commit nullify wallet bet_output rest cash l marked refl cov
                  (spent commit nullify wallet cash l free))
                (has-last (is_in_deposit wallet cash.deposit_index) marked next (
                  next_free commit nullify wallet bet_output rest cash.deposit_index cash refl
                    (==_refl cash.deposit_index))))
      | inr lost ↦ rw (enough, lost) cov
    ]
  ]

  bet_merged-Covers :
      (f : BetForm) (relayed : Bool) (x : Option Note × Ledger)
      → Covers x.1
      → ((m : Note) → x.0 ≡ some m → CanBet commit nullify wallet m x.1)
      → Covers (bet_after_merge commit nullify wallet f relayed x).1
  bet_merged-Covers f relayed (none, l) cov can = cov
  bet_merged-Covers f relayed (some m, l) cov can = bet_on-Covers f relayed m l cov (can m refl).0

  -- What is picked to be merged is anchored.
  abbrev pub PickIsAnchored : Option (List Note) → Ledger → Type 0
  PickIsAnchored none l = Unit
  PickIsAnchored (some notes) l = IsAnchored wallet notes l

  bet_by_merge-Covers :
      (f : BetForm) (picked : Option (List Note)) (merged relayed : Bool) (l : Ledger)
      → Covers l
      → AfterMerge commit nullify wallet (CanBet commit nullify wallet) picked merged l
      → PickIsAnchored picked l
      → Covers (bet_by_merge commit nullify wallet f picked merged relayed l).1
  bet_by_merge-Covers f none merged relayed l cov h anchored = cov
  bet_by_merge-Covers f (some notes) merged relayed l cov (mergeable, can) anchored =
      bet_merged-Covers f relayed _ (consolidate-Covers notes merged l cov mergeable anchored) can

  pub submit_bet-Covers :
      (f : BetForm) (picked : Option (List Note)) (merged relayed : Bool) (cash : Note) (l : Ledger)
      → Covers l
      → (ltb cash.balance (f.stake + f.fee) ≡ false → CanBet commit nullify wallet cash l)
      → (ltb cash.balance (f.stake + f.fee) ≡ true
          → AfterMerge commit nullify wallet (CanBet commit nullify wallet) picked merged l)
      → (ltb cash.balance (f.stake + f.fee) ≡ true → PickIsAnchored picked l)
      → Covers (submit_bet commit nullify wallet f picked merged relayed cash l).1
  unfolding submit_bet
  submit_bet-Covers f picked merged relayed cash l cov can after anchored =
      elim (Bool-cases (ltb cash.balance (f.stake + f.fee))) [
        | inl short ↦
            rw short
              (bet_by_merge-Covers f picked merged relayed l cov (after short) (anchored short))
        | inr enough ↦ rw enough (bet_on-Covers f relayed cash l cov (can enough).0)
      ]

  pub deposit-Covers :
      (index amount : ℕ) (l : Ledger)
      → Covers l
      → Covers (deposit_confirmed commit nullify wallet index amount l)
  unfolding deposit_confirmed add_note record_wallet_activity
  deposit-Covers index amount l cov =
      let n = deposited_note commit nullify wallet index amount in
      covered wallet (λ d. false) l.notes (l.notes ++ n ∷ []) cov
        (kept_add wallet (λ d. false) n l.notes l.notes refl
          (kept_same wallet (λ d. false) l.notes))
        (λ d h. ground arith)

  withdraw-Covers :
      (open_deposits : List ℕ) (requested : ℕ) (relayed : Bool) (n : Note) (l : Ledger)
      → Covers l
      → IsFree wallet n l
      → KeepsDust wallet open_deposits n l
      → Covers (withdraw_from commit nullify wallet open_deposits requested relayed n l).1
  unfolding withdraw_from add_note record_wallet_activity
  withdraw-Covers open_deposits requested false n l cov free dust = cov
  withdraw-Covers open_deposits requested true n l cov free dust =
      let rest = n.balance - effective_withdrawal open_deposits requested n in
      let marked = (mark_note_spent n.id l).notes in
      let kept = spent commit nullify wallet n l free in
      elim (Bool-cases (ltb 0 rest)) [
        | inl more ↦
            rw more (continued commit nullify wallet bet_output rest n l marked refl cov kept)
        | inr drained ↦ rw drained (
            covered wallet (λ d. n.deposit_index == d) l.notes marked cov kept
              (λ d gone. elim (Bool-cases (has_open wallet n.deposit_index l.notes)) [
                | inl open_bet ↦
                    let (known, more) = dust open_bet in
                    absurd (cc (drained, rest_left open_deposits requested n known more))
                | inr shut ↦ inl (
                    subst (λ e. has_open wallet e l.notes ≡ false) (==→eq n.deposit_index d gone)
                      shut)
              ]))
      ]

  withdraw_merged-Covers :
      (open_deposits : List ℕ) (requested : ℕ) (relayed : Bool) (x : Option Note × Ledger)
      → Covers x.1
      → ((m : Note) → x.0 ≡ some m → CanTake commit nullify wallet requested m x.1)
      → ((m : Note) → x.0 ≡ some m → KeepsDust wallet open_deposits m x.1)
      → Covers (withdraw_after_merge commit nullify wallet open_deposits requested relayed x).1
  withdraw_merged-Covers open_deposits requested relayed (none, l) cov can dust = cov
  withdraw_merged-Covers open_deposits requested relayed (some m, l) cov can dust =
      withdraw-Covers open_deposits requested relayed m l cov (can m refl).0 (dust m refl)

  -- The merged note keeps dust too.
  abbrev pub MergeKeepsDust : List ℕ → Option (List Note) → Bool → Ledger → Type 0
  MergeKeepsDust open_deposits none merged l = Unit
  MergeKeepsDust open_deposits (some notes) merged l =
      IsAnchored wallet notes l
      × ((m : Note)
          → (consolidate_notes commit nullify wallet notes merged l).0 ≡ some m
          → KeepsDust wallet open_deposits m
              (consolidate_notes commit nullify wallet notes merged l).1)

  withdraw_by_merge-Covers :
      (open_deposits : List ℕ) (requested : ℕ) (picked : Option (List Note)) (merged relayed : Bool)
      (l : Ledger)
      → Covers l
      → AfterMerge commit nullify wallet (CanTake commit nullify wallet requested) picked merged l
      → MergeKeepsDust open_deposits picked merged l
      → Covers
          (withdraw_by_merge commit nullify wallet open_deposits requested picked merged relayed
            l).1
  withdraw_by_merge-Covers open_deposits requested none merged relayed l cov h dust = cov
  withdraw_by_merge-Covers open_deposits requested (some notes) merged relayed l cov
        (mergeable, can) (anchored, dust) =
      withdraw_merged-Covers open_deposits requested relayed _
        (consolidate-Covers notes merged l cov mergeable anchored) can dust

  pub submit_withdrawal-Covers :
      (open_deposits : List ℕ) (requested : ℕ) (picked : Option (List Note)) (merged relayed : Bool)
      (cash : Note) (l : Ledger)
      → Covers l
      → (ltb cash.balance requested ≡ false → CanTake commit nullify wallet requested cash l)
      → (ltb cash.balance requested ≡ true
          → AfterMerge commit nullify wallet
              (CanTake commit nullify wallet requested)
              picked
              merged
              l)
      → (ltb cash.balance requested ≡ false → KeepsDust wallet open_deposits cash l)
      → (ltb cash.balance requested ≡ true → MergeKeepsDust open_deposits picked merged l)
      → Covers
          (submit_withdrawal commit nullify wallet open_deposits requested picked merged relayed
            cash l).1
  unfolding submit_withdrawal
  submit_withdrawal-Covers open_deposits requested picked merged relayed cash l cov can after dust
        merged_dust =
      elim (Bool-cases (ltb cash.balance requested)) [
        | inl short ↦ rw short (
            withdraw_by_merge-Covers open_deposits requested picked merged relayed l cov
              (after short) (merged_dust short))
        | inr enough ↦ rw enough (
            withdraw-Covers open_deposits requested relayed cash l cov (can enough).0 (dust enough))
      ]
