-- ===== src/Frontend/Ledger/WithdrawBooks.antt =====
-- The books of a wallet and its cash agree after a withdrawal and a deposit of packages/frontend/src.
use polyshield.Common.{
  ℕ, ◌-◌, ◌≤◌, ◌≡◌, Bool, true, false, Option, none, some, List, ◌&&◌, ltb, leb, arith, refl, ◌∙◌,
  Bool-cases, inl, inr, ==_refl,
}
use polyshield.Frontend.Ledger.{
  Ledger, Note, hashed, Activity, withdrawal, bet_output, cash_of, mark_note_spent, add_note,
  record_wallet_activity,
}
use polyshield.Frontend.Ledger.Sums.{ids, IsFresh}
use polyshield.Frontend.Ledger.Effects.{
  IsGood, IsFree, Effect, IsGood-after, and_then, spend, add, book,
}
use polyshield.Frontend.Ledger.Replace.{ids-spend, ids-book}
use polyshield.Frontend.Ledger.Flows.{next_note}
use polyshield.Frontend.Ledger.Spends.{
  member, effective_withdrawal, keep_rest, withdraw_from, withdraw_after_merge, withdraw_by_merge,
  submit_withdrawal, deposit_confirmed, deposited_note, deposit_event,
}
use polyshield.Frontend.Ledger.Runs.{received_in, paid_in}
use polyshield.Frontend.Ledger.Balance.{Keeps, balanced, unchanged, cash_of-next, NextIsFresh}
use polyshield.Frontend.Ledger.SpendBooks.{AfterMerge, consolidate-Keeps, Keeps-after}

module _ (commit : ℕ → ℕ → ℕ → ℕ → ℕ) (nullify : ℕ → ℕ → ℕ → ℕ) (wallet : ℕ) where
  -- A withdrawal can be taken from the note.
  abbrev pub CanTake : ℕ → Note → Ledger → Type 0
  CanTake requested n l =
      IsFree wallet n l × NextIsFresh commit nullify wallet n l × (requested ≤ n.balance)

  taken_bound :
      (open_deposits : List ℕ) (requested : ℕ) (n : Note)
      → requested ≤ n.balance
      → effective_withdrawal open_deposits requested n ≤ n.balance
  unfolding effective_withdrawal
  taken_bound open_deposits requested n h =
      elim (Bool-cases
        (member n.deposit_index open_deposits && (leb n.balance requested && ltb 1 n.balance))) [
          | inl dust ↦ rw dust (omega arith)
          | inr plain ↦ rw plain h
        ]

  keep_rest_effect :
      (rest : ℕ) (n : Note) (l : Ledger)
      → IsGood l
      → NextIsFresh commit nullify wallet n l
      → Effect wallet l (keep_rest commit nullify wallet rest n l) rest 0 0 0
  keep_rest_effect rest n l good fresh = elim (Bool-cases (ltb 0 rest)) [
    | inl more ↦
        let next = next_note commit nullify wallet bet_output rest n in
        let (good', cash, pd, rc) = (add wallet next l good (fresh rest) refl).change in
        rw more (record {
          change = (
            good',
            omega (arith, cash, cash_of-next commit nullify wallet bet_output rest n refl),
            pd,
            rc,
          );
        })
    | inr empty ↦
        let nil : rest ≡ 0 = ground arith in
        rw empty (record { change = (good, omega arith, omega arith, omega arith) })
  ]

  take-Keeps :
      (taken : ℕ) (n : Note) (l : Ledger)
      → IsGood l
      → IsFree wallet n l
      → NextIsFresh commit nullify wallet n l
      → taken ≤ n.balance
      → Keeps wallet l
          (keep_rest commit nullify wallet (n.balance - taken) n (
            record_wallet_activity
              (record { wallet = wallet; kind = withdrawal; amount = taken; receipt_id = none })
              (mark_note_spent n.id l)))
          0
  take-Keeps taken n l good is_free fresh enough =
      let ev : Activity = record {
        wallet = wallet;
        kind = withdrawal;
        amount = taken;
        receipt_id = none;
      } in
      let e1 = spend wallet n l good is_free in
      let l1 = mark_note_spent n.id l in
      let e2 = book wallet ev l1 (IsGood-after e1) in
      let same : ids (record_wallet_activity ev l1).notes ≡ ids l.notes =
        ids-book ev l1 ∙ ids-spend n.id l in
      let e3 =
        keep_rest_effect (n.balance - taken) n (record_wallet_activity ev l1) (IsGood-after e2)
          (λ b. rw same (fresh b)) in
      let paid_taken : paid_in wallet ev ≡ taken = rw (==_refl wallet) refl in
      let received_none : received_in wallet ev ≡ 0 = rw (==_refl wallet) refl in
      balanced 0 (and_then e1 (and_then e2 e3)) (omega (arith, paid_taken, received_none))

  withdraw_from-Keeps :
      (open_deposits : List ℕ) (requested : ℕ) (relayed : Bool) (n : Note) (l : Ledger)
      → IsGood l
      → CanTake requested n l
      → Keeps wallet l (withdraw_from commit nullify wallet open_deposits requested relayed n l).1 0
  unfolding withdraw_from
  withdraw_from-Keeps open_deposits requested true n l good (is_free, fresh, enough) =
      take-Keeps (effective_withdrawal open_deposits requested n) n l good is_free fresh
        (taken_bound open_deposits requested n enough)
  withdraw_from-Keeps open_deposits requested false n l good can = unchanged wallet l good

  withdraw_merged :
      (open_deposits : List ℕ) (requested : ℕ) (relayed : Bool) (l : Ledger)
      (x : Option Note × Ledger)
      → Keeps wallet l x.1 0
      → ((m : Note) → x.0 ≡ some m → CanTake requested m x.1)
      → Keeps wallet l
          (withdraw_after_merge commit nullify wallet open_deposits requested relayed x).1
          0
  withdraw_merged open_deposits requested relayed l (none, l') k can = k
  withdraw_merged open_deposits requested relayed l (some m, l') k can =
      Keeps-after wallet l l' _ _ k
        (withdraw_from-Keeps open_deposits requested relayed m l' k.0 (can m refl))

  withdraw_by_merge-Keeps :
      (open_deposits : List ℕ) (requested : ℕ) (picked : Option (List Note)) (merged relayed : Bool)
      (l : Ledger)
      → IsGood l
      → AfterMerge commit nullify wallet (CanTake requested) picked merged l
      → Keeps wallet l
          (withdraw_by_merge commit nullify wallet open_deposits requested picked merged relayed
            l).1
          0
  withdraw_by_merge-Keeps open_deposits requested none merged relayed l good h =
      unchanged wallet l good
  withdraw_by_merge-Keeps open_deposits requested (some notes) merged relayed l good
        (mergeable, can) =
      withdraw_merged open_deposits requested relayed l _
        (consolidate-Keeps commit nullify wallet notes merged l good mergeable) can

  pub submit_withdrawal-Keeps :
      (open_deposits : List ℕ) (requested : ℕ) (picked : Option (List Note)) (merged relayed : Bool)
      (cash : Note) (l : Ledger)
      → IsGood l
      → (ltb cash.balance requested ≡ false → CanTake requested cash l)
      → (ltb cash.balance requested ≡ true
          → AfterMerge commit nullify wallet (CanTake requested) picked merged l)
      → Keeps wallet l
          (submit_withdrawal commit nullify wallet open_deposits requested picked merged relayed
            cash l).1
          0
  unfolding submit_withdrawal
  submit_withdrawal-Keeps open_deposits requested picked merged relayed cash l good can after =
      elim (Bool-cases (ltb cash.balance requested)) [
        | inl short ↦ rw short (
            withdraw_by_merge-Keeps open_deposits requested picked merged relayed l good
              (after short))
        | inr enough ↦
            rw enough (withdraw_from-Keeps open_deposits requested relayed cash l good (can enough))
      ]

  pub deposit-Keeps :
      (index amount : ℕ) (l : Ledger)
      → IsGood l
      → IsFresh (hashed (commit wallet index amount 0)) (ids l.notes)
      → Keeps wallet l (deposit_confirmed commit nullify wallet index amount l) 0
  unfolding deposit_confirmed
  deposit-Keeps index amount l good fresh =
      let n = deposited_note commit nullify wallet index amount in
      let ev = deposit_event commit nullify wallet amount in
      let e1 = add wallet n l good fresh refl in
      let e2 = book wallet ev (add_note n l) (IsGood-after e1) in
      let cash_new : cash_of wallet n ≡ amount = rw (==_refl wallet) refl in
      let paid_none : paid_in wallet ev ≡ 0 = rw (==_refl wallet) refl in
      let received_all : received_in wallet ev ≡ amount = rw (==_refl wallet) refl in
      balanced 0 (and_then e1 e2) (omega (arith, cash_new, paid_none, received_all))
