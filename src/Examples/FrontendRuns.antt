-- ===== src/Examples/FrontendRuns.antt =====
-- The frontend's choices (packages/frontend/src/lib) at concrete inputs.
use polyshield.Frontend.Selection.Totals.{selection_covers}
use polyshield.Common.{◌≡◌, ℕ, ◌+◌, ◌≤◌, true, false, none, some, List, [], ◌∷◌, refl, length}
use polyshield.Frontend.Receipts.{ReceiptClassInputs}
use polyshield.Frontend.Preview.{OrderPreviewInput, OrderPreview, compute_order_preview, preview_of}
use polyshield.Frontend.Selection.{
  Note, free_balance, NoteSelection, select_notes_for_amount, get_free_notes, sort_notes,
  insert_note, filter_notes, pool_of, take_notes, add_all, first_open, move_front, take_out,
  sum_balance,
}
use polyshield.Frontend.Selection.Safety.{count_open, merged_away, selection_keeps_positions}

-- A fee-only PARTIAL: the whole stake was spent.
abbrev fee_only : ReceiptClassInputs
fee_only = record { ready = false; status = 0; outcome = 3; bet_amount = 50; fill_spent = some 50 }

-- $2 at a price of 0.5, with a protocol fee of 1% and a gas fee of 5 cents.
abbrev two_dollars : OrderPreviewInput
two_dollars = record {
  amount_micro = 2_000_000;
  is_priced = true;
  price_e8 = 50_000_000;
  protocol_fee_bps = 100;
  relay_gas_micro = 50_000;
  taker_fee_bps = 0;
  min_bet_micro = 1_000_000;
}

abbrev two_dollars_shown : OrderPreview
two_dollars_shown = preview_of two_dollars 4_000_000

two_dollars_preview : compute_order_preview two_dollars ≡ some two_dollars_shown
unfolding compute_order_preview
two_dollars_preview = refl

abbrev note : ℕ → ℕ → Note
note deposit balance = record {
  owner = 7;
  nullifier = 100 + deposit;
  nullifier_of_bet = none;
  deposit_index = deposit;
  nonce = 0;
  balance = balance;
  spent = false;
  kind = free_balance;
}

abbrev wallet_notes : List Note
wallet_notes = note 1 40 ∷ note 2 25 ∷ note 3 60 ∷ note 4 10 ∷ []

-- Deposit 2 has an open position, and 3 another one: only the larger is admitted, and goes first.
abbrev three_merged : NoteSelection
three_merged = record { notes = note 3 60 ∷ note 1 40 ∷ note 4 10 ∷ []; total = 110 }

selects : select_notes_for_amount 7 105 (2 ∷ 3 ∷ []) none wallet_notes ≡ some three_merged
unfolding select_notes_for_amount get_free_notes sort_notes insert_note filter_notes pool_of
    take_notes add_all first_open move_front take_out
selects = refl

selection_keeps_positions_example : count_open (2 ∷ 3 ∷ []) (merged_away three_merged.notes) ≡ 0
selection_keeps_positions_example =
    selection_keeps_positions 7 105 (2 ∷ 3 ∷ []) none wallet_notes three_merged selects

selection_covers_example :
    (three_merged.total ≡ sum_balance three_merged.notes)
    × (length three_merged.notes ≤ 4)
    × (105 ≤ three_merged.total)
selection_covers_example =
    selection_covers 7 105 (2 ∷ 3 ∷ []) none wallet_notes three_merged selects
