-- ===== src/Attest/Refines.antt =====
-- packages/backend/signing-layer/src/attestationStore.ts against a description without a table: a book
-- holds for each bet at most one outcome and one sale, and the first to be signed stays.
use polyshield.Common.{
  ℕ, ◌≡◌, Bool, true, false, Option, none, some, List, [], ◌∷◌, ◌++◌, ◌&&◌, if◌then◌else◌, ◌==◌,
  arith, Option-cases, inl, inr, refl, ap, sym, ◌⊎◌, ◌∙◌,
}
use polyshield.Attest.Store.{
  Attestation, Store, Signer, ReportType, sold, filled, failed, partial, is_bet_outcome,
  read_outcome_row, read_typed_row, read_slot, sign_and_store, get_attestation,
}
use polyshield.Attest.SingleWrite.{commit-new, read_outcome_row-sold}

pub data Kind : Type 0 where
  outcome sale : Kind

abbrev pub kind_of : ReportType → Kind
kind_of sold = sale
kind_of _ = outcome

abbrev pub same_kind : Kind → Kind → Bool
same_kind outcome outcome = true
same_kind sale sale = true
same_kind _ _ = false

abbrev pub Book : Type 0
Book = ℕ → Kind → Option Attestation

abbrev pub put : Attestation → Book → Book
put att book m k =
    if same_kind (kind_of att.report_type) k && att.nullifier == m then some att else book m k

-- What a caller of signAndStoreAttestation asks for.
pub record Request : Type 0 where
  pub nullifier : ℕ
  pub report_type : ReportType
  pub amount_a : ℕ
  pub amount_b : ℕ

abbrev pub attestation_of : Request → ℕ → Attestation
attestation_of r s = record {
  nullifier = r.nullifier;
  report_type = r.report_type;
  amount_a = r.amount_a;
  amount_b = r.amount_b;
  signature = s;
}

-- The promise: the entry that there is, or a new one if it can be signed.
abbrev pub sign_new : Option ℕ → Request → Book → Option Attestation × Book
sign_new none r book = (none, book)
sign_new (some s) r book = (some (attestation_of r s), put (attestation_of r s) book)

abbrev pub keep_or_sign : Option Attestation → Option ℕ → Request → Book → Option Attestation × Book
keep_or_sign (some att) answer r book = (some att, book)
keep_or_sign none answer r book = sign_new answer r book

abbrev pub promise : Signer → Request → Book → Option Attestation × Book
promise sign r book =
    keep_or_sign (book r.nullifier (kind_of r.report_type))
      (sign r.nullifier r.report_type r.amount_a r.amount_b) r book

unfoldable pub replay : Signer → List Request → Book → List (Option Attestation) × Book
replay sign [] book = ([], book)
replay sign (r ∷ rs) book =
    let (reply, book') = promise sign r book in
    let (replies, book'') = replay sign rs book' in (reply ∷ replies, book'')

-- The calls on the table, one after another.
unfoldable pub call_all : Signer → List Request → Store → List (Option Attestation) × Store
call_all sign [] store = ([], store)
call_all sign (r ∷ rs) store =
    let (reply, store') =
      sign_and_store sign r.nullifier r.report_type r.amount_a r.amount_b store in
    let (replies, store'') = call_all sign rs store' in (reply ∷ replies, store'')

-- The book that a table stands for: what getAttestation returns for a bet, and for its sale.
abbrev pub view : Store → Book
view store n outcome = get_attestation n none store
view store n sale = get_attestation n (some sold) store

slot-view :
    (n : ℕ) (rt : ReportType) (store : Store) → read_slot n rt store ≡ view store n (kind_of rt)
unfolding read_slot get_attestation
slot-view n filled store = refl
slot-view n failed store = refl
slot-view n partial store = refl
slot-view n sold store = refl

outcome-append :
    (att : Attestation) (store : Store) (m : ℕ)
    → is_bet_outcome att.report_type ≡ true
    → read_outcome_row att.nullifier store ≡ none
    → read_outcome_row m (store ++ att ∷ [])
      ≡ (if att.nullifier == m then some att else read_outcome_row m store)
unfolding read_outcome_row
outcome-append att [] m p h = ground arith
outcome-append att (r ∷ rs) m p h = ground (arith, outcome-append att rs m p)

sale-append :
    (att : Attestation) (store : Store) (m : ℕ)
    → is_bet_outcome att.report_type ≡ false
    → read_typed_row att.nullifier sold store ≡ none
    → read_typed_row m sold (store ++ att ∷ [])
      ≡ (if att.nullifier == m then some att else read_typed_row m sold store)
unfolding read_typed_row
sale-append att [] m p h = ground arith
sale-append att (r ∷ rs) m p h = ground (arith, sale-append att rs m p)

sale-outcome :
    (att : Attestation) (store : Store) (m : ℕ)
    → is_bet_outcome att.report_type ≡ true
    → read_typed_row m sold (store ++ att ∷ []) ≡ read_typed_row m sold store
unfolding read_typed_row
sale-outcome att [] m p = ground arith
sale-outcome att (r ∷ rs) m p = ground (arith, sale-outcome att rs m p)

append-outcome :
    (r : Request) (s : ℕ) (store : Store) (m : ℕ) (k : Kind)
    → is_bet_outcome r.report_type ≡ true
    → kind_of r.report_type ≡ outcome
    → view store r.nullifier outcome ≡ none
    → view (store ++ attestation_of r s ∷ []) m k ≡ put (attestation_of r s) (view store) m k
unfolding get_attestation
append-outcome r s store m outcome p e h = rw e (outcome-append (attestation_of r s) store m p h)
append-outcome r s store m sale p e h = rw e (sale-outcome (attestation_of r s) store m p)

append-sale :
    (r : Request) (s : ℕ) (store : Store) (m : ℕ) (k : Kind)
    → is_bet_outcome r.report_type ≡ false
    → kind_of r.report_type ≡ sale
    → view store r.nullifier sale ≡ none
    → view (store ++ attestation_of r s ∷ []) m k ≡ put (attestation_of r s) (view store) m k
unfolding get_attestation
append-sale r s store m outcome p e h = rw e (read_outcome_row-sold m (attestation_of r s) store p)
append-sale r s store m sale p e h = rw e (sale-append (attestation_of r s) store m p h)

-- A report is about the outcome of its bet, or about its sale.
kind_cases :
    (rt : ReportType)
    → ((is_bet_outcome rt ≡ true) × (kind_of rt ≡ outcome))
      ⊎ ((is_bet_outcome rt ≡ false) × (kind_of rt ≡ sale))
kind_cases filled = inl (refl, refl)
kind_cases failed = inl (refl, refl)
kind_cases partial = inl (refl, refl)
kind_cases sold = inr (refl, refl)

view-append :
    (r : Request) (s : ℕ) (store : Store) (m : ℕ) (k : Kind)
    → view store r.nullifier (kind_of r.report_type) ≡ none
    → view (store ++ attestation_of r s ∷ []) m k ≡ put (attestation_of r s) (view store) m k
view-append r s store m k h = elim (kind_cases r.report_type) [
  | inl (p, e) ↦ append-outcome r s store m k p e (rw e at h)
  | inr (p, e) ↦ append-sale r s store m k p e (rw e at h)
]

call-promise :
    (sign : Signer) (r : Request) (store : Store)
    → ((sign_and_store sign r.nullifier r.report_type r.amount_a r.amount_b store).0
        ≡ (promise sign r (view store)).0)
      × (view (sign_and_store sign r.nullifier r.report_type r.amount_a r.amount_b store).1
          ≡ (promise sign r (view store)).1)
unfolding sign_and_store
call-promise sign r store =
    let same = slot-view r.nullifier r.report_type store in
    elim (Option-cases (read_slot r.nullifier r.report_type store)) [
      | inr (row, taken) ↦ rw (← same, taken) (refl, refl)
      | inl free ↦ elim (Option-cases (sign r.nullifier r.report_type r.amount_a r.amount_b)) [
        | inl refused ↦ rw (← same, free, refused) (refl, refl)
        | inr (s, ok) ↦
            let att = attestation_of r s in
            rw (← same, free, ok, commit-new att store free)
              (refl, λ i m k. view-append r s store m k (sym same ∙ free) i)
      ]
    ]

-- The table refines the book: any calls of signAndStoreAttestation, one after another, get the replies
-- that a book gives which keeps the first signed outcome and the first signed sale of each bet, and
-- what getAttestation then returns for every bet is what that book holds.
pub call_all-refines-replay :
    (sign : Signer) (rs : List Request) (store : Store)
    → ((call_all sign rs store).0 ≡ (replay sign rs (view store)).0)
      × (view (call_all sign rs store).1 ≡ (replay sign rs (view store)).1)
unfolding call_all replay
call_all-refines-replay sign [] store = (refl, refl)
call_all-refines-replay sign (r ∷ rs) store =
    let (reply_eq, book_eq) = call-promise sign r store in
    let store' = (sign_and_store sign r.nullifier r.report_type r.amount_a r.amount_b store).1 in
    let (replies_eq, books_eq) = call_all-refines-replay sign rs store' in
    (
      (λ i. reply_eq i ∷ (replies_eq ∙ ap (λ b. (replay sign rs b).0) book_eq) i),
      books_eq ∙ ap (λ b. (replay sign rs b).1) book_eq,
    )
