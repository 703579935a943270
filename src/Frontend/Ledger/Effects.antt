-- ===== src/Frontend/Ledger/Effects.antt =====
-- What the operations of packages/frontend/src/lib/notes.ts do to the cash of a wallet and to its books.
use polyshield.Common.{
  ℕ, ◌+◌, ◌≡◌, Bool, true, false, Option, none, some, List, [], ◌∷◌, ◌++◌, ◌&&◌, not, ◌==◌, arith,
  refl, ap, Bool-cases, inl, inr,
}
use polyshield.Frontend.Ledger.{
  Ledger, Note, NoteId, hashed, receipt_of, is_receipt, has_id, is_receipt_of, find_first,
  mark_first, sum_notes, cash_of, is_spendable, get_cash_balance, mark_note_spent,
  mark_bet_receipt_spent, add_note, record_wallet_activity, Activity,
}
use polyshield.Frontend.Ledger.Sums.{
  ids, IsFresh, IsDistinct, ids-mark, IsDistinct-add, sum-append, sum-mark, mark-none, find-holds,
}
use polyshield.Frontend.Ledger.Runs.{received, paid, received_in, paid_in, total_over}

abbrev pub is_text : NoteId → Bool
is_text (hashed _) = false
is_text (receipt_of _) = true

-- The receipts are the notes with the id of a receipt.
abbrev pub AreTyped : List Note → Type 0
AreTyped [] = Unit
AreTyped (n ∷ ns) = (is_receipt n.kind ≡ is_text n.id) × AreTyped ns

abbrev pub IsGood : Ledger → Type 0
IsGood l = IsDistinct (ids l.notes) × AreTyped l.notes

-- A note of the ledger that the wallet can spend.
abbrev pub IsFree : ℕ → Note → Ledger → Type 0
IsFree wallet n l = (find_first (has_id n.id) l.notes ≡ some n) × (is_spendable wallet n ≡ true)

-- The ledger stays good; its cash grows by `gain` less `cost`, and the books by `p` and `r`.
abbrev pub Change : ℕ → Ledger → Ledger → ℕ → ℕ → ℕ → ℕ → Type 0
Change wallet l l' gain cost p r =
    IsGood l'
    × (get_cash_balance wallet l' + cost ≡ get_cash_balance wallet l + gain)
    × (paid wallet l' ≡ paid wallet l + p)
    × (received wallet l' ≡ received wallet l + r)

pub record Effect (wallet : ℕ) (l l' : Ledger) (gain cost p r : ℕ) : Type 0 where
  pub change : Change wallet l l' gain cost p r

pub IsGood-after :
    {wallet : ℕ} {l l' : Ledger} {g c p r : ℕ} → Effect wallet l l' g c p r → IsGood l'
IsGood-after e = e.change.0

pub nothing : (wallet : ℕ) (l : Ledger) → IsGood l → Effect wallet l l 0 0 0 0
nothing wallet l g = record { change = (g, omega arith, omega arith, omega arith) }

pub and_then :
    {wallet : ℕ} {l l' l'' : Ledger} {g c p r g' c' p' r' : ℕ}
    → Effect wallet l l' g c p r
    → Effect wallet l' l'' g' c' p' r'
    → Effect wallet l l'' (g + g') (c + c') (p + p') (r + r')
and_then e e' =
    let (good, cash, pd, rc) = e.change in
    let (good', cash', pd', rc') = e'.change in
    record { change = (good', omega arith, omega arith, omega arith) }

AreTyped-mark : (p : Note → Bool) (ns : List Note) → AreTyped ns → AreTyped (mark_first p ns)
unfolding mark_first
AreTyped-mark p [] h = tt
AreTyped-mark p (n ∷ ns) (h, hs) = elim (Bool-cases (p n)) [
  | inl holds ↦ rw holds (h, hs)
  | inr fails ↦ rw fails (h, AreTyped-mark p ns hs)
]

pub AreTyped-add :
    (ns : List Note) (n : Note)
    → AreTyped ns
    → is_receipt n.kind ≡ is_text n.id
    → AreTyped (ns ++ n ∷ [])
AreTyped-add [] n h k = (k, tt)
AreTyped-add (x ∷ xs) n (h, hs) k = (h, AreTyped-add xs n hs k)

cash_of-spent : (wallet : ℕ) (n : Note) → cash_of wallet (record n { spent = true }) ≡ 0
cash_of-spent wallet n = refl

pub cash_of-free :
    (wallet : ℕ) (n : Note) → is_spendable wallet n ≡ true → cash_of wallet n ≡ n.balance
cash_of-free wallet n h = rw h refl

receipt_is_kept : (a b c : Bool) → b ≡ true → (not a && (not b && c)) ≡ false
receipt_is_kept a b c h = ground arith

pub cash_of-receipt : (wallet : ℕ) (n : Note) → is_receipt n.kind ≡ true → cash_of wallet n ≡ 0
cash_of-receipt wallet n h =
    rw (receipt_is_kept n.spent (is_receipt n.kind) (n.owner == wallet) h) refl

pub spend :
    (wallet : ℕ) (n : Note) (l : Ledger)
    → IsGood l
    → IsFree wallet n l
    → Effect wallet l (mark_note_spent n.id l) 0 n.balance 0 0
unfolding mark_note_spent get_cash_balance paid received
spend wallet n l (distinct, typed) (found, free) = record {
  change = (
    (rw (ids-mark (has_id n.id) l.notes) distinct, AreTyped-mark (has_id n.id) l.notes typed),
    omega (
      arith,
      sum-mark (cash_of wallet) (has_id n.id) l.notes n found,
      cash_of-free wallet n free,
    ),
    omega arith,
    omega arith,
  );
}

and_first : (a b : Bool) → (a && b) ≡ true → a ≡ true
and_first a b h = ground arith

retire_sum :
    (wallet nb : ℕ) (ns : List Note) (o : Option Note)
    → find_first (is_receipt_of nb) ns ≡ o
    → sum_notes (cash_of wallet) (mark_first (is_receipt_of nb) ns) ≡ sum_notes (cash_of wallet) ns
retire_sum wallet nb ns none e = ap (sum_notes (cash_of wallet)) (mark-none (is_receipt_of nb) ns e)
retire_sum wallet nb ns (some n) e =
    let kind = and_first (is_receipt n.kind) _ (find-holds (is_receipt_of nb) ns n e) in
    omega
      (arith, sum-mark (cash_of wallet) (is_receipt_of nb) ns n e, cash_of-receipt wallet n kind)

pub retire :
    (wallet nb : ℕ) (l : Ledger) → IsGood l → Effect wallet l (mark_bet_receipt_spent nb l) 0 0 0 0
unfolding mark_bet_receipt_spent get_cash_balance paid received
retire wallet nb l (distinct, typed) = record {
  change = (
    (
      rw (ids-mark (is_receipt_of nb) l.notes) distinct,
      AreTyped-mark (is_receipt_of nb) l.notes typed,
    ),
    omega (arith, retire_sum wallet nb l.notes (find_first (is_receipt_of nb) l.notes) refl),
    omega arith,
    omega arith,
  );
}

pub add :
    (wallet : ℕ) (n : Note) (l : Ledger)
    → IsGood l
    → IsFresh n.id (ids l.notes)
    → is_receipt n.kind ≡ is_text n.id
    → Effect wallet l (add_note n l) (cash_of wallet n) 0 0 0
unfolding add_note get_cash_balance paid received sum_notes
add wallet n l (distinct, typed) fresh kind = record {
  change = (
    (IsDistinct-add l.notes n distinct fresh, AreTyped-add l.notes n typed kind),
    omega (arith, sum-append (cash_of wallet) l.notes (n ∷ [])),
    omega arith,
    omega arith,
  );
}

pub total_over-append :
    (f : Activity → ℕ) (xs : List Activity) (e : Activity)
    → total_over f (xs ++ e ∷ []) ≡ total_over f xs + f e
total_over-append f [] e = omega arith
total_over-append f (x ∷ xs) e = omega (arith, total_over-append f xs e)

pub book :
    (wallet : ℕ) (e : Activity) (l : Ledger)
    → IsGood l
    → Effect wallet l (record_wallet_activity e l) 0 0 (paid_in wallet e) (received_in wallet e)
unfolding record_wallet_activity get_cash_balance paid received
book wallet e l good = record {
  change = (
    good,
    omega arith,
    total_over-append (paid_in wallet) l.activity e,
    total_over-append (received_in wallet) l.activity e,
  );
}
