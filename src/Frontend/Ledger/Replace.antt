-- ===== src/Frontend/Ledger/Replace.antt =====
-- replaceNote of packages/frontend/src/lib/notes.ts on a receipt changes neither the cash nor the books, and
-- the operations keep the ids that they do not add.
use mathlib.Core.Path.{subst}
use polyshield.Common.{
  ℕ, ◌+◌, ◌≡◌, Bool, true, Option, none, some, List, [], ◌∷◌, ◌++◌, arith, refl, ap, sym, ◌∙◌,
  Bool-cases, inl, inr, ==→eq,
}
use polyshield.Frontend.Ledger.{
  Ledger, Note, NoteId, hashed, receipt_of, is_receipt, same_id, has_id, find_first, put_first,
  sum_notes, cash_of, get_cash_balance, replace_note, mark_note_spent, mark_bet_receipt_spent,
  add_note, record_wallet_activity, Activity, is_receipt_of,
}
use polyshield.Frontend.Ledger.Sums.{
  ids, IsFresh, IsDistinct, ids-mark, ids-append, IsDistinct-add, sum-append, some-same, find-holds,
}
use polyshield.Frontend.Ledger.Runs.{received, paid}
use polyshield.Frontend.Ledger.Effects.{
  is_text, AreTyped, IsGood, Change, Effect, AreTyped-add, cash_of-receipt,
}

pub same_id-eq : (a b : NoteId) → same_id a b ≡ true → a ≡ b
same_id-eq (hashed a) (hashed b) h = ap hashed (==→eq a b h)
same_id-eq (receipt_of a) (receipt_of b) h = ap receipt_of (==→eq a b h)
same_id-eq (hashed a) (receipt_of b) h = absurd (cc (h))
same_id-eq (receipt_of a) (hashed b) h = absurd (cc (h))

put-none :
    (p : Note → Bool) (next : Note) (ns : List Note)
    → find_first p ns ≡ none
    → put_first p next ns ≡ ns ++ next ∷ []
unfolding put_first find_first
put-none p next [] h = refl
put-none p next (x ∷ xs) h = elim (Bool-cases (p x)) [
  | inl holds ↦ absurd (cc (h, holds))
  | inr fails ↦ rw fails (ap (λ l. x ∷ l) (put-none p next xs (rw fails at h)))
]

none-IsFresh :
    (id : NoteId) (ns : List Note) → find_first (has_id id) ns ≡ none → IsFresh id (ids ns)
unfolding find_first
none-IsFresh id [] h = tt
none-IsFresh id (x ∷ xs) h = elim (Bool-cases (same_id x.id id)) [
  | inl same ↦ absurd (cc (h, same))
  | inr other ↦ (other, none-IsFresh id xs (rw other at h))
]

put-ids :
    (next n : Note) (ns : List Note)
    → find_first (has_id next.id) ns ≡ some n
    → ids (put_first (has_id next.id) next ns) ≡ ids ns
unfolding put_first find_first
put-ids next n [] h = absurd (cc (h))
put-ids next n (x ∷ xs) h = elim (Bool-cases (same_id x.id next.id)) [
  | inl same ↦ rw same (ap (λ i. i ∷ ids xs) (sym (same_id-eq x.id next.id same)))
  | inr other ↦ rw other (ap (λ l. x.id ∷ l) (put-ids next n xs (rw other at h)))
]

put-sum :
    (f : Note → ℕ) (p : Note → Bool) (next n : Note) (ns : List Note)
    → find_first p ns ≡ some n
    → sum_notes f (put_first p next ns) + f n ≡ sum_notes f ns + f next
unfolding put_first find_first sum_notes
put-sum f p next n [] h = absurd (cc (h))
put-sum f p next n (x ∷ xs) h = elim (Bool-cases (p x)) [
  | inl holds ↦ rw holds (
      subst (λ z. f next + sum_notes f xs + f z ≡ f x + sum_notes f xs + f next)
        (some-same x n (rw holds at h)) (omega arith))
  | inr fails ↦ rw fails (omega (arith, put-sum f p next n xs (rw fails at h)))
]

AreTyped-put :
    (p : Note → Bool) (next : Note) (ns : List Note)
    → AreTyped ns
    → is_receipt next.kind ≡ is_text next.id
    → AreTyped (put_first p next ns)
unfolding put_first
AreTyped-put p next [] h k = (k, tt)
AreTyped-put p next (x ∷ xs) (h, hs) k = elim (Bool-cases (p x)) [
  | inl holds ↦ rw holds (k, hs)
  | inr fails ↦ rw fails (h, AreTyped-put p next xs hs k)
]

AreTyped-found :
    (p : Note → Bool) (ns : List Note) (n : Note)
    → AreTyped ns
    → find_first p ns ≡ some n
    → is_receipt n.kind ≡ is_text n.id
unfolding find_first
AreTyped-found p [] n h e = absurd (cc (e))
AreTyped-found p (x ∷ xs) n (h, hs) e = elim (Bool-cases (p x)) [
  | inl holds ↦ subst (λ z. is_receipt z.kind ≡ is_text z.id) (some-same x n (rw holds at e)) h
  | inr fails ↦ AreTyped-found p xs n hs (rw fails at e)
]

-- The id of a receipt, and a receipt.
abbrev pub IsReceipt : Note → Type 0
IsReceipt n = (is_receipt n.kind ≡ true) × (is_text n.id ≡ true)

replace_with :
    (wallet : ℕ) (next : Note) (l : Ledger) (o : Option Note)
    → find_first (has_id next.id) l.notes ≡ o
    → IsGood l
    → IsReceipt next
    → Change wallet l (replace_note next.id next l) 0 0 0 0
unfolding replace_note get_cash_balance paid received sum_notes
replace_with wallet next l none e (distinct, typed) (kind, text) =
    rw (put-none (has_id next.id) next l.notes e) (
      (
        IsDistinct-add l.notes next distinct (none-IsFresh next.id l.notes e),
        AreTyped-add l.notes next typed (kind ∙ sym text),
      ),
      omega (
        arith,
        sum-append (cash_of wallet) l.notes (next ∷ []),
        cash_of-receipt wallet next kind,
      ),
      omega arith,
      omega arith,
    )
replace_with wallet next l (some n) e (distinct, typed) (kind, text) =
    let same : is_text n.id ≡ true =
      ap is_text (same_id-eq n.id next.id (find-holds (has_id next.id) l.notes n e)) ∙ text in
    let old : is_receipt n.kind ≡ true = AreTyped-found (has_id next.id) l.notes n typed e ∙ same in
    (
      (
        subst IsDistinct (sym (put-ids next n l.notes e)) distinct,
        AreTyped-put (has_id next.id) next l.notes typed (kind ∙ sym text),
      ),
      omega (
        arith,
        put-sum (cash_of wallet) (has_id next.id) next n l.notes e,
        cash_of-receipt wallet next kind,
        cash_of-receipt wallet n old,
      ),
      omega arith,
      omega arith,
    )

pub replace :
    (wallet : ℕ) (next : Note) (l : Ledger)
    → IsGood l
    → IsReceipt next
    → Effect wallet l (replace_note next.id next l) 0 0 0 0
replace wallet next l good receipt = record {
  change = replace_with wallet next l (find_first (has_id next.id) l.notes) refl good receipt;
}

pub ids-spend : (id : NoteId) (l : Ledger) → ids (mark_note_spent id l).notes ≡ ids l.notes
unfolding mark_note_spent
ids-spend id l = ids-mark (has_id id) l.notes

pub ids-retire : (nb : ℕ) (l : Ledger) → ids (mark_bet_receipt_spent nb l).notes ≡ ids l.notes
unfolding mark_bet_receipt_spent
ids-retire nb l = ids-mark (is_receipt_of nb) l.notes

pub ids-book : (e : Activity) (l : Ledger) → ids (record_wallet_activity e l).notes ≡ ids l.notes
unfolding record_wallet_activity
ids-book e l = refl

pub ids-add : (n : Note) (l : Ledger) → ids (add_note n l).notes ≡ ids l.notes ++ n.id ∷ []
unfolding add_note
ids-add n l = ids-append l.notes (n ∷ [])
