-- ===== src/Frontend/Ledger/Latest.antt =====
-- getFreeNoteForDeposit of packages/frontend/src/lib/notes.ts: the latest note is one of its kind, and the
-- first with its id.
use mathlib.Core.Path.{subst}
use polyshield.Common.{
  ◌≡◌, Bool, true, false, Option, none, some, List, [], ◌∷◌, if◌then◌else◌, ltb, refl, ◌∙◌,
  Bool-cases, inl, inr, ◌⊎◌,
}
use polyshield.Frontend.Ledger.{Note, NoteId, same_id, has_id, find_first, later_note, latest_note}
use polyshield.Frontend.Ledger.Sums.{
  ids, IsFresh, IsDistinct, same_id_refl, same_id_comm, some-same, has_note,
}

later_note-cases :
    (x n : Note) (rest : Option Note) → later_note x rest ≡ some n → (x ≡ n) ⊎ (rest ≡ some n)
later_note-cases x n none e = inl (some-same x n e)
later_note-cases x n (some m) e = elim (Bool-cases (ltb x.nonce m.nonce)) [
  | inl later ↦ inr (rw later at e)
  | inr first ↦ inl (some-same x n (rw first at e))
]

latest-cases :
    (p : Note → Bool) (x n : Note) (xs : List Note)
    → latest_note p (x ∷ xs) ≡ some n
    → ((x ≡ n) × (p x ≡ true)) ⊎ (latest_note p xs ≡ some n)
unfolding latest_note
latest-cases p x n xs e = elim (Bool-cases (p x)) [
  | inl holds ↦ elim (later_note-cases x n (latest_note p xs) (rw holds at e)) [
    | inl same ↦ inl (same, holds)
    | inr rest ↦ inr rest
  ]
  | inr fails ↦ inr (rw fails at e)
]

latest-IsFresh :
    (p : Note → Bool) (ns : List Note) (n : Note) (id : NoteId)
    → IsFresh id (ids ns)
    → latest_note p ns ≡ some n
    → same_id n.id id ≡ false
unfolding latest_note
latest-IsFresh p [] n id h e = absurd (cc (e))
latest-IsFresh p (x ∷ xs) n id (h, hs) e = elim (latest-cases p x n xs e) [
  | inl (same, holds) ↦ subst (λ z. same_id z.id id ≡ false) same h
  | inr rest ↦ latest-IsFresh p xs n id hs rest
]

pub latest-holds :
    (p : Note → Bool) (ns : List Note) (n : Note) → latest_note p ns ≡ some n → p n ≡ true
unfolding latest_note
latest-holds p [] n e = absurd (cc (e))
latest-holds p (x ∷ xs) n e = elim (latest-cases p x n xs e) [
  | inl (same, holds) ↦ subst (λ z. p z ≡ true) same holds
  | inr rest ↦ latest-holds p xs n rest
]

pub latest-found :
    (p : Note → Bool) (ns : List Note) (n : Note)
    → IsDistinct (ids ns)
    → latest_note p ns ≡ some n
    → find_first (has_id n.id) ns ≡ some n
unfolding latest_note find_first
latest-found p [] n d e = absurd (cc (e))
latest-found p (x ∷ xs) n (h, hs) e = elim (latest-cases p x n xs e) [
  | inl (same, holds) ↦
      subst (λ z. (if same_id x.id z.id then some x else find_first (has_id z.id) xs) ≡ some z) same
        (rw (same_id_refl x.id) refl)
  | inr rest ↦
      rw (same_id_comm x.id n.id ∙ latest-IsFresh p xs n x.id h rest) (latest-found p xs n hs rest)
]

is_later : (x : Note) (rest : Option Note) → (n : Note) × (later_note x rest ≡ some n)
is_later x none = (x, refl)
is_later x (some m) = elim (Bool-cases (ltb x.nonce m.nonce)) [
  | inl later ↦ (m, rw later refl)
  | inr first ↦ (x, rw first refl)
]

-- There is one where some note is of the kind.
pub latest-exists :
    (p : Note → Bool) (ns : List Note)
    → has_note p ns ≡ true
    → (n : Note) × (latest_note p ns ≡ some n)
unfolding latest_note has_note
latest-exists p [] h = absurd (cc (h))
latest-exists p (x ∷ xs) h = elim (Bool-cases (p x)) [
  | inl holds ↦ rw holds (is_later x (latest_note p xs))
  | inr fails ↦ rw fails (latest-exists p xs (rw fails at h))
]
