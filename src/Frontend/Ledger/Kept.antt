-- ===== src/Frontend/Ledger/Kept.antt =====
-- The open receipts and the spendable notes of each deposit under the writers of
-- packages/frontend/src/lib/notes.ts.
use polyshield.Frontend.Ledger.SpendBooks.{AreFree}
use polyshield.Frontend.Ledger.Replace.{IsReceipt, same_id-eq}
use polyshield.Frontend.Ledger.Spends.{mark_all}
use polyshield.Frontend.Ledger.Effects.{AreTyped, is_text}
use polyshield.Common.{
  ℕ, ◌≡◌, Bool, true, false, some, List, [], ◌∷◌, ◌++◌, ◌&&◌, ◌||◌, ◌==◌, arith, refl, sym, ◌∙◌,
  Bool-cases, inl, inr, ◌⊎◌, ap,
}
use mathlib.Core.Path.{subst, ap}
use polyshield.Frontend.Ledger.{
  Note, is_receipt, has_id, is_receipt_of, find_first, mark_first, is_open_receipt, is_in_deposit,
  put_first, mark_note_spent, Ledger, same_id,
}
use polyshield.Frontend.Ledger.Sums.{has_note, has-mark, has-mark_other, has-append}

abbrev pub is_open_in : ℕ → ℕ → Note → Bool
is_open_in wallet d n = is_open_receipt wallet n && n.deposit_index == d

abbrev pub has_open : ℕ → ℕ → List Note → Bool
has_open wallet d ns = has_note (is_open_in wallet d) ns

abbrev pub has_free : ℕ → ℕ → List Note → Bool
has_free wallet d ns = has_note (is_in_deposit wallet d) ns

-- Each deposit with an open receipt of the wallet has a note that it can spend.
abbrev pub IsCovered : ℕ → List Note → Type 0
IsCovered wallet ns = (d : ℕ) → has_open wallet d ns ≡ true → has_free wallet d ns ≡ true

-- No receipt is opened, and the deposits that are not `lost` keep a note that can be spent.
abbrev pub IsKept : ℕ → (ℕ → Bool) → List Note → List Note → Type 0
IsKept wallet lost ns ns' =
    (d : ℕ)
    → (has_open wallet d ns' ≡ true → has_open wallet d ns ≡ true)
      × (lost d ≡ false → has_free wallet d ns ≡ true → has_free wallet d ns' ≡ true)

and_false : (a b : Bool) → b ≡ false → (a && b) ≡ false
and_false a b h = ground arith

or_left : (a b : Bool) → a ≡ true → (a || b) ≡ true
or_left a b h = ground arith

or_last : (a b : Bool) → b ≡ true → (a || b) ≡ true
or_last a b h = ground arith

or_not_last : (a b : Bool) → b ≡ false → (a || b) ≡ true → a ≡ true
or_not_last a b h k = ground arith

pub has-first :
    (q : Note → Bool) (ns : List Note) (x : Note)
    → has_note q ns ≡ true
    → has_note q (ns ++ x ∷ []) ≡ true
has-first q ns x h = has-append q ns x ∙ or_left (has_note q ns) (q x) h

pub has-last :
    (q : Note → Bool) (ns : List Note) (x : Note) → q x ≡ true → has_note q (ns ++ x ∷ []) ≡ true
has-last q ns x h = has-append q ns x ∙ or_last (has_note q ns) (q x) h

pub has-old :
    (q : Note → Bool) (ns : List Note) (x : Note)
    → q x ≡ false
    → has_note q (ns ++ x ∷ []) ≡ true
    → has_note q ns ≡ true
has-old q ns x h k = or_not_last (has_note q ns) (q x) h (sym (has-append q ns x) ∙ k)

pub kept_same : (wallet : ℕ) (lost : ℕ → Bool) (ns : List Note) → IsKept wallet lost ns ns
kept_same wallet lost ns d = ((λ h. h), λ k h. h)

pub kept_spend :
    (wallet : ℕ) (lost : ℕ → Bool) (ns ns' : List Note) (n : Note)
    → IsKept wallet lost ns ns'
    → find_first (has_id n.id) ns' ≡ some n
    → ((d : ℕ) → lost d ≡ false → (n.deposit_index == d) ≡ false)
    → IsKept wallet lost ns (mark_first (has_id n.id) ns')
kept_spend wallet lost ns ns' n kept found out d =
    let (opens, frees) = kept d in
    (
      (λ h. opens (has-mark (has_id n.id) (is_open_in wallet d) ns' (λ m. refl) h)),
      (λ k h.
          has-mark_other (has_id n.id) (is_in_deposit wallet d) ns' n found
            (and_false _ (n.deposit_index == d) (out d k)) (frees k h)),
    )

has-retired :
    (wallet nb d : ℕ) (ns : List Note)
    → has_free wallet d ns ≡ true
    → has_free wallet d (mark_first (is_receipt_of nb) ns) ≡ true
unfolding has_note mark_first
has-retired wallet nb d [] h = h
has-retired wallet nb d (x ∷ xs) h = elim (Bool-cases (is_receipt_of nb x)) [
  | inl holds ↦
      let dead : is_in_deposit wallet d x ≡ false = ground arith in rw holds (rw dead at h)
  | inr fails ↦ elim (Bool-cases (is_in_deposit wallet d x)) [
    | inl here ↦ rw (fails, here) refl
    | inr later ↦ rw (fails, later) (has-retired wallet nb d xs (rw later at h))
  ]
]

pub kept_retire :
    (wallet : ℕ) (lost : ℕ → Bool) (nb : ℕ) (ns ns' : List Note)
    → IsKept wallet lost ns ns'
    → IsKept wallet lost ns (mark_first (is_receipt_of nb) ns')
kept_retire wallet lost nb ns ns' kept d =
    let (opens, frees) = kept d in
    (
      (λ h. opens (has-mark (is_receipt_of nb) (is_open_in wallet d) ns' (λ m. refl) h)),
      (λ k h. has-retired wallet nb d ns' (frees k h)),
    )

pub kept_add :
    (wallet : ℕ) (lost : ℕ → Bool) (x : Note) (ns ns' : List Note)
    → is_receipt x.kind ≡ false
    → IsKept wallet lost ns ns'
    → IsKept wallet lost ns (ns' ++ x ∷ [])
kept_add wallet lost x ns ns' plain kept d =
    let (opens, frees) = kept d in
    let shut : is_open_in wallet d x ≡ false = ground arith in
    (
      (λ h. opens (has-old (is_open_in wallet d) ns' x shut h)),
      λ k h. has-first (is_in_deposit wallet d) ns' x (frees k h),
    )

-- What is kept is covered, where each lost deposit has no open receipt or a new note.
pub covered :
    (wallet : ℕ) (lost : ℕ → Bool) (ns ns' : List Note)
    → IsCovered wallet ns
    → IsKept wallet lost ns ns'
    → ((d : ℕ) → lost d ≡ true → (has_open wallet d ns ≡ false) ⊎ (has_free wallet d ns' ≡ true))
    → IsCovered wallet ns'
covered wallet lost ns ns' cov kept safe d h =
    let (opens, frees) = kept d in
    elim (Bool-cases (lost d)) [
      | inl gone ↦ elim (safe d gone) [ inl shut ↦ absurd (cc (shut, opens h)) | inr new ↦ new ]
      | inr stays ↦ frees stays (cov d (opens h))
    ]

-- A receipt can be added where its deposit has a note.
pub IsCovered-receipt :
    (wallet : ℕ) (x : Note) (ns : List Note)
    → IsCovered wallet ns
    → has_free wallet x.deposit_index ns ≡ true
    → IsCovered wallet (ns ++ x ∷ [])
IsCovered-receipt wallet x ns cov free d h = elim (Bool-cases (is_open_in wallet d x)) [
  | inl here ↦
      let same : x.deposit_index ≡ d = ground arith in
      has-first (is_in_deposit wallet d) ns x (subst (λ e. has_free wallet e ns ≡ true) same free)
  | inr other ↦
      has-first (is_in_deposit wallet d) ns x (cov d (has-old (is_open_in wallet d) ns x other h))
]

put-open :
    (q p : Note → Bool) (next : Note) (ns : List Note)
    → has_note q (put_first p next ns) ≡ true
    → (q next ≡ true) ⊎ (has_note q ns ≡ true)
unfolding has_note put_first
put-open q p next [] h = inl (ground arith)
put-open q p next (x ∷ xs) h = elim (Bool-cases (q x)) [
  | inl here ↦ inr (rw here refl)
  | inr other ↦ elim (Bool-cases (p x)) [
    | inl holds ↦ elim (Bool-cases (q next)) [
      | inl new ↦ inl new
      | inr old ↦ inr (rw other (rw (holds, old) at h))
    ]
    | inr fails ↦ elim (put-open q p next xs (rw (fails, other) at h)) [
      | inl new ↦ inl new
      | inr rest ↦ inr (rw other rest)
    ]
  ]
]

put-free :
    (wallet d : ℕ) (next : Note) (ns : List Note)
    → AreTyped ns
    → IsReceipt next
    → has_free wallet d ns ≡ true
    → has_free wallet d (put_first (has_id next.id) next ns) ≡ true
unfolding has_note put_first
put-free wallet d next [] t r h = absurd (cc (h))
put-free wallet d next (x ∷ xs) (t, ts) (r, text) h = elim (Bool-cases (same_id x.id next.id)) [
  | inl same ↦
      let receipt : is_receipt x.kind ≡ true =
        t ∙ ap is_text (same_id-eq x.id next.id same) ∙ text in
      let dead : is_in_deposit wallet d x ≡ false = ground (arith, receipt) in
      rw same (or_last _ (has_free wallet d xs) (rw dead at h))
  | inr other ↦ elim (Bool-cases (is_in_deposit wallet d x)) [
    | inl here ↦ rw (other, here) refl
    | inr later ↦ rw (other, later) (put-free wallet d next xs ts (r, text) (rw later at h))
  ]
]

-- A receipt can be replaced by one of a deposit that has a note.
pub IsCovered-put :
    (wallet : ℕ) (next : Note) (ns : List Note)
    → IsCovered wallet ns
    → AreTyped ns
    → IsReceipt next
    → has_free wallet next.deposit_index ns ≡ true
    → IsCovered wallet (put_first (has_id next.id) next ns)
IsCovered-put wallet next ns cov typed r free d h =
    put-free wallet d next ns typed r
      (elim (put-open (is_open_in wallet d) (has_id next.id) next ns h) [
        | inl here ↦
            let same : next.deposit_index ≡ d = ground arith in
            subst (λ e. has_free wallet e ns ≡ true) same free
        | inr old ↦ cov d old
      ])

-- The deposits of notes.
abbrev pub of_any : List Note → ℕ → Bool
of_any [] d = false
of_any (n ∷ ns) d = n.deposit_index == d || of_any ns d

pub kept_spend_all :
    (wallet : ℕ) (lost : ℕ → Bool) (ns : List Note) (notes : List Note) (l : Ledger)
    → IsKept wallet lost ns l.notes
    → AreFree wallet notes l
    → ((d : ℕ) → lost d ≡ false → of_any notes d ≡ false)
    → IsKept wallet lost ns (mark_all notes l).notes
unfolding mark_all mark_note_spent
kept_spend_all wallet lost ns [] l kept free out = kept
kept_spend_all wallet lost ns (n ∷ rest) l kept ((found, spendable), free) out =
    kept_spend_all wallet lost ns rest (mark_note_spent n.id l)
      (kept_spend wallet lost ns l.notes n kept found (λ d k. let all = out d k in ground arith))
      free (λ d k. let all = out d k in ground arith)
