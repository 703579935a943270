-- ===== src/Attest/Race.antt =====
-- Two signers at once in attestationStore.ts: both read before either inserts.
use polyshield.Common.{ℕ, ◌≡◌, true, ◌≢◌, none, ◌++◌, ◌∷◌, [], arith, ap, ◌∙◌}
use polyshield.Attest.Store.{
  Attestation, read_typed_row, Store, ReportType, commit, code, is_bet_outcome, read_outcome_row,
  insert_row, read_slot,
}
use mathlib.Core.List.{append_assoc, []}
use polyshield.Attest.SingleWrite.{IsSingle, typed_of_slot, commit-new}

-- The two calls as they interleave at the wait for the signature: each has found its slot empty, and
-- then each inserts the row that it has signed.
unfoldable pub commit_both : Attestation → Attestation → Store → Store
commit_both first second store = (commit second (commit first store).1).1

both_outcomes_clash :
    (x y : Attestation) (store : Store)
    → x.nullifier ≡ y.nullifier
    → is_bet_outcome x.report_type ≡ true
    → is_bet_outcome y.report_type ≡ true
    → ¬ IsSingle (store ++ x ∷ y ∷ [])
both_outcomes_clash x y [] e p q (h, _) = ground arith
both_outcomes_clash x y (r ∷ rs) e p q (_, h) = both_outcomes_clash x y rs e p q h

read_typed_row-append_ne :
    (n : ℕ) (rt : ReportType) (att : Attestation) (store : Store)
    → code att.report_type ≢ code rt
    → read_typed_row n rt store ≡ none
    → read_typed_row n rt (store ++ att ∷ []) ≡ none
unfolding read_typed_row
read_typed_row-append_ne n rt att [] ne h = ground arith
read_typed_row-append_ne n rt att (r ∷ rs) ne h =
    ground (arith, read_typed_row-append_ne n rt att rs)

slot_of_outcome :
    (n : ℕ) (rt : ReportType) (store : Store)
    → is_bet_outcome rt ≡ true
    → read_outcome_row n store ≡ none
    → read_slot n rt store ≡ none
unfolding read_slot
slot_of_outcome n rt store h free = rw h free

insert_free :
    (att : Attestation) (store : Store)
    → read_typed_row att.nullifier att.report_type store ≡ none
    → (commit att store).1 ≡ store ++ att ∷ []
unfolding commit insert_row
insert_free att store h = rw h

-- Two calls for one bet, with different outcomes, that both read before either inserts: where the bet had
-- no outcome, both rows are inserted, and the bet has two outcomes.
pub race_breaks-IsSingle :
    (x y : Attestation) (store : Store)
    → x.nullifier ≡ y.nullifier
    → is_bet_outcome x.report_type ≡ true
    → is_bet_outcome y.report_type ≡ true
    → code x.report_type ≢ code y.report_type
    → read_outcome_row x.nullifier store ≡ none
    → ¬ IsSingle (commit_both x y store)
race_breaks-IsSingle x y store e p q ne free single =
    let free_x : read_slot x.nullifier x.report_type store ≡ none =
      slot_of_outcome x.nullifier x.report_type store p free in
    let free_y : read_slot y.nullifier y.report_type store ≡ none =
      slot_of_outcome y.nullifier y.report_type store q (rw (← e) free) in
    let open_y : read_typed_row y.nullifier y.report_type (store ++ x ∷ []) ≡ none =
      read_typed_row-append_ne y.nullifier y.report_type x store ne
        (typed_of_slot y.nullifier y.report_type store free_y) in
    let both : commit_both x y store ≡ store ++ x ∷ y ∷ [] =
      unfold commit_both in
      ap (λ (p : Attestation × Store). (commit y p.1).1) (commit-new x store free_x)
      ∙ insert_free y (store ++ x ∷ []) open_y
      ∙ append_assoc store (x ∷ []) (y ∷ []) in
    both_outcomes_clash x y store e p q (rw both at single)
