-- ===== src/Attest/SingleWrite.antt =====
-- The single write of attestationStore.ts: one outcome and one sale for each bet, the first one wins;
-- and what a wait between the read and the insert does to it.
use polyshield.Common.{
  ◌≡◌, Bool, false, [], ◌∷◌, ◌&&◌, ◌||◌, ◌==◌, arith, ◌++◌, none, some, ℕ, Option-cases, refl, true,
  inl, inr, Option, ◌∙◌, ap,
}
use polyshield.Attest.Store.{
  code, Attestation, Store, is_bet_outcome, commit, read_slot, read_typed_row, sign_and_store,
  Signer, insert_row, read_outcome_row, ReportType, get_attestation, sold, failed,
}

-- A later write finds the slot of this row taken: same bet, and both outcomes or the same type.
abbrev pub clash : Attestation → Attestation → Bool
clash r s =
    r.nullifier == s.nullifier
    && ((is_bet_outcome r.report_type && is_bet_outcome s.report_type)
        || code r.report_type == code s.report_type)

abbrev pub any_clash : Attestation → Store → Bool
any_clash r [] = false
any_clash r (s ∷ ss) = clash s r || any_clash r ss

-- No two rows of the table fill one slot.
abbrev pub IsSingle : Store → Type 0
IsSingle [] = Unit
IsSingle (r ∷ rs) = (any_clash r rs ≡ false) × IsSingle rs

any_clash_sym : (r s : Attestation) → clash r s ≡ false → clash s r ≡ false
any_clash_sym r s h = ground arith

slot_free-clash :
    (att : Attestation) (store : Store)
    → read_slot att.nullifier att.report_type store ≡ none
    → any_clash att store ≡ false
unfolding read_slot read_outcome_row read_typed_row
slot_free-clash att [] h = refl
slot_free-clash att (r ∷ rs) h = ground (arith, slot_free-clash att rs)

any_clash-append :
    (r att : Attestation) (rs : Store)
    → any_clash r rs ≡ false
    → clash att r ≡ false
    → any_clash r (rs ++ att ∷ []) ≡ false
any_clash-append r att [] h k = ground arith
any_clash-append r att (s ∷ rs) h k = ground (arith, any_clash-append r att rs)

IsSingle-append :
    (att : Attestation) (store : Store)
    → IsSingle store
    → any_clash att store ≡ false
    → IsSingle (store ++ att ∷ [])
IsSingle-append att [] h k = (refl, tt)
IsSingle-append att (r ∷ rs) (h, hs) k = (
  any_clash-append r att rs h (ground (arith, any_clash_sym r att)),
  IsSingle-append att rs hs (ground arith),
)

pub typed_of_slot :
    (n : ℕ) (rt : ReportType) (store : Store)
    → read_slot n rt store ≡ none
    → read_typed_row n rt store ≡ none
unfolding read_slot read_outcome_row read_typed_row
typed_of_slot n rt [] h = refl
typed_of_slot n rt (r ∷ rs) h = ground (arith, typed_of_slot n rt rs)

pub read_typed_row-append :
    (att : Attestation) (store : Store)
    → read_typed_row att.nullifier att.report_type store ≡ none
    → read_typed_row att.nullifier att.report_type (store ++ att ∷ []) ≡ some att
unfolding read_typed_row
read_typed_row-append att [] h = ground arith
read_typed_row-append att (r ∷ rs) h = ground (arith, read_typed_row-append att rs)

-- A row that finds its slot empty is inserted and read back.
pub commit-new :
    (att : Attestation) (store : Store)
    → read_slot att.nullifier att.report_type store ≡ none
    → commit att store ≡ (att, store ++ att ∷ [])
unfolding commit insert_row
commit-new att store h =
    let free = typed_of_slot att.nullifier att.report_type store h in
    rw (free, read_typed_row-append att store free)

-- In a table with no two rows in one slot, a call of signAndStoreAttestation leaves none, whatever it is
-- given and whether or not the signer answers.
pub sign_and_store-IsSingle :
    (sign : Signer) (n : ℕ) (rt : ReportType) (a b : ℕ) (store : Store)
    → IsSingle store
    → IsSingle (sign_and_store sign n rt a b store).1
unfolding sign_and_store
sign_and_store-IsSingle sign n rt a b store h = elim (Option-cases (read_slot n rt store)) [
  | inl free ↦ elim (Option-cases (sign n rt a b)) [
    | inl refused ↦ rw (free, refused) h
    | inr (s, ok) ↦
        let att : Attestation = record {
          nullifier = n;
          report_type = rt;
          amount_a = a;
          amount_b = b;
          signature = s;
        } in
        rw (free, ok, commit-new att store free)
          (IsSingle-append att store h (slot_free-clash att store free))
  ]
  | inr (row, taken) ↦ rw taken h
]

read_outcome_row-append :
    (att : Attestation) (store : Store)
    → read_outcome_row att.nullifier store ≡ none
    → is_bet_outcome att.report_type ≡ true
    → read_outcome_row att.nullifier (store ++ att ∷ []) ≡ some att
unfolding read_outcome_row
read_outcome_row-append att [] h k = ground arith
read_outcome_row-append att (r ∷ rs) h k = ground (arith, read_outcome_row-append att rs)

-- Reports of one group, the outcomes of a bet or its sale, read one slot.
pub read_slot-group :
    (n : ℕ) (rt rt' : ReportType) (store : Store)
    → is_bet_outcome rt ≡ is_bet_outcome rt'
    → read_slot n rt store ≡ read_slot n rt' store
unfolding read_slot
read_slot-group n rt rt' store e = ground arith

read_slot-append :
    (att : Attestation) (store : Store)
    → read_slot att.nullifier att.report_type store ≡ none
    → read_slot att.nullifier att.report_type (store ++ att ∷ []) ≡ some att
unfolding read_slot
read_slot-append att store h =
    ground (arith, read_outcome_row-append att store, read_typed_row-append att store)

-- After a call that returned an attestation its slot holds it.
pub stored_in_slot :
    (sign : Signer) (n : ℕ) (rt : ReportType) (a b : ℕ) (store store' : Store) (att : Attestation)
    → sign_and_store sign n rt a b store ≡ (some att, store')
    → read_slot n rt store' ≡ some att
unfolding sign_and_store
stored_in_slot sign n rt a b store store' att e = elim (Option-cases (read_slot n rt store)) [
  | inl free ↦ elim (Option-cases (sign n rt a b)) [
    | inl refused ↦ absurd (cc (rw (free, refused) at e))
    | inr (s, ok) ↦
        let new : Attestation = record {
          nullifier = n;
          report_type = rt;
          amount_a = a;
          amount_b = b;
          signature = s;
        } in
        let e' : ◌≡◌ {A = Option Attestation × Store} (some new, store ++ new ∷ [])
            (some att, store') =
          rw (free, ok, commit-new new store free) at e in
        let same : new ≡ att = cc in
        let grown : store ++ new ∷ [] ≡ store' = cc in
        rw (← grown) (read_slot-append new store free ∙ ap some same)
  ]
  | inr (row, taken) ↦
      let e' : ◌≡◌ {A = Option Attestation × Store} (some row, store) (some att, store') =
        rw taken at e in
      let same : row ≡ att = cc in
      let kept : store ≡ store' = cc in rw (← kept) (taken ∙ ap some same)
]

-- After a call that returned an attestation, any call for the same bet and the same slot, the outcome of
-- the bet or its sale, returns that attestation whatever it asks for, and writes nothing.
pub first_write_wins :
    (sign sign' : Signer) (n : ℕ) (rt rt' : ReportType) (a b a' b' : ℕ) (store store' : Store)
    (att : Attestation)
    → sign_and_store sign n rt a b store ≡ (some att, store')
    → is_bet_outcome rt ≡ is_bet_outcome rt'
    → sign_and_store sign' n rt' a' b' store' ≡ (some att, store')
unfolding sign_and_store
first_write_wins sign sign' n rt rt' a b a' b' store store' att e group =
    rw (← read_slot-group n rt rt' store' group, stored_in_slot sign n rt a b store store' att e)

pub read_outcome_row-sold :
    (m : ℕ) (att : Attestation) (store : Store)
    → is_bet_outcome att.report_type ≡ false
    → read_outcome_row m (store ++ att ∷ []) ≡ read_outcome_row m store
unfolding read_outcome_row
read_outcome_row-sold m att [] h = ground arith
read_outcome_row-sold m att (r ∷ rs) h = ground (arith, read_outcome_row-sold m att rs h)

-- A sale leaves the outcome of every bet alone.
pub sold_keeps_outcome :
    (sign : Signer) (n m : ℕ) (a b : ℕ) (store : Store)
    → get_attestation m none (sign_and_store sign n sold a b store).1 ≡ get_attestation m none store
unfolding sign_and_store get_attestation
sold_keeps_outcome sign n m a b store = elim (Option-cases (read_slot n sold store)) [
  | inl free ↦ elim (Option-cases (sign n sold a b)) [
    | inl refused ↦ rw (free, refused)
    | inr (s, ok) ↦
        let att : Attestation = record {
          nullifier = n;
          report_type = sold;
          amount_a = a;
          amount_b = b;
          signature = s;
        } in
        rw (free, ok, commit-new att store free) (read_outcome_row-sold m att store refl)
  ]
  | inr (row, taken) ↦ rw taken
]

-- A FAILED that finds no outcome of its bet is the outcome.
pub failed_recorded :
    (sign : Signer) (n : ℕ) (store : Store) (w : ℕ)
    → get_attestation n none store ≡ none
    → sign n failed 0 0 ≡ some w
    → get_attestation n none (sign_and_store sign n failed 0 0 store).1
      ≡ some (record {
        nullifier = n;
        report_type = failed;
        amount_a = 0;
        amount_b = 0;
        signature = w;
      })
unfolding get_attestation sign_and_store read_slot
failed_recorded sign n store w free ok =
    let new : Attestation = record {
      nullifier = n;
      report_type = failed;
      amount_a = 0;
      amount_b = 0;
      signature = w;
    } in
    let e : sign_and_store sign n failed 0 0 store ≡ (some new, store ++ new ∷ []) =
      rw (free, ok, commit-new new store free) in
    rw e (stored_in_slot sign n failed 0 0 store (store ++ new ∷ []) new e)
