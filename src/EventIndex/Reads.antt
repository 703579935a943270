-- ===== src/EventIndex/Reads.antt =====
-- The look-ups of VaultEventIndex, packages/backend/proof-relay/src/eventIndex.ts.
use polyshield.Common.{
  ℕ, zero, Bool, false, Option, none, some, List, [], ◌∷◌, ◌&&◌, ◌||◌, not, if◌then◌else◌, ◌==◌,
  leb, ltb, suc,
}
use polyshield.EventIndex.{Args, Row, Index, type_of, depositor_of, market_resolved}

-- ORDER BY block, log_index
abbrev pub precedes : Row → Row → Bool
precedes x y = ltb x.block y.block || x.block == y.block && leb x.log_index y.log_index

unfoldable pub insert_ordered : Row → List Row → List Row
insert_ordered r [] = r ∷ []
insert_ordered r (x ∷ xs) = if precedes r x then r ∷ x ∷ xs else x ∷ insert_ordered r xs

-- The rows that a condition holds of, in order.
unfoldable pub select : (Row → Bool) → List Row → List Row
select p [] = []
select p (r ∷ rs) = if p r then insert_ordered r (select p rs) else select p rs

abbrev pub if_db {ℓ} : {A : Type ℓ} → Index → A → A → A
if_db x without with_db = if x.has_db then with_db else without

-- betAuthorizedEvents
unfoldable pub bet_authorized_events : ℕ → ℕ → Index → List Row
bet_authorized_events from to x =
    if_db x [] (select (λ r. type_of r.args == 1 && (leb from r.block && leb r.block to)) x.rows)

unfoldable pub add_id : ℕ → List ℕ → List ℕ
add_id m [] = m ∷ []
add_id m (x ∷ xs) = if x == m then x ∷ xs else x ∷ add_id m xs

abbrev pub add_resolved : Args → List ℕ → List ℕ
add_resolved (market_resolved id at) out = if id == 0 then out else add_id id out
add_resolved _ out = out

-- resolvedMarketIds, in the order of the rows, which SQL leaves open; the empty text is 0.
unfoldable pub resolved_from : List Row → List ℕ → List ℕ
resolved_from [] out = out
resolved_from (r ∷ rs) out = resolved_from rs (add_resolved r.args out)

unfoldable pub resolved_market_ids : Index → List ℕ
resolved_market_ids x = if_db x [] (resolved_from x.rows [])

abbrev pub is_depositor : ℕ → Option ℕ → Bool
is_depositor who none = false
is_depositor who (some d) = d == who

-- recoveryData: the wallet's deposits, and all other events.
unfoldable pub recovery_data : ℕ → Index → List Row × List Row
recovery_data who x =
    if_db x ([], [])
      (
        select (λ r. type_of r.args == 0 && is_depositor who (depositor_of r.args)) x.rows,
        select (λ r. not (type_of r.args == 0)) x.rows,
      )

-- ORDER BY block DESC, log_index DESC LIMIT
unfoldable pub insert_newest : Row → List Row → List Row
insert_newest r [] = r ∷ []
insert_newest r (x ∷ xs) = if precedes x r then r ∷ x ∷ xs else x ∷ insert_newest r xs

unfoldable pub newest : List Row → List Row
newest [] = []
newest (r ∷ rs) = insert_newest r (newest rs)

unfoldable pub first_rows : ℕ → List Row → List Row
first_rows zero rs = []
first_rows (suc n) [] = []
first_rows (suc n) (r ∷ rs) = r ∷ first_rows n rs

-- allEvents
unfoldable pub all_events : ℕ → Index → List Row
all_events limit x = if_db x [] (first_rows limit (newest x.rows))

-- blockTimestamps: a pair for each block that a row with a time has.
abbrev pub or_first : Option ℕ → Option ℕ → Option ℕ
or_first none rest = rest
or_first (some t) rest = some t

unfoldable pub timestamp_of : ℕ → List Row → Option ℕ
timestamp_of b [] = none
timestamp_of b (r ∷ rs) =
    let rest = timestamp_of b rs in if r.block == b then or_first r.block_ts rest else rest

abbrev pub add_timestamp : ℕ → Option ℕ → List (ℕ × ℕ) → List (ℕ × ℕ)
add_timestamp b none out = out
add_timestamp b (some t) out = (b, t) ∷ out

unfoldable pub timestamps_from : List ℕ → List Row → List (ℕ × ℕ)
timestamps_from [] rows = []
timestamps_from (b ∷ bs) rows = add_timestamp b (timestamp_of b rows) (timestamps_from bs rows)

unfoldable pub block_timestamps : List ℕ → Index → List (ℕ × ℕ)
block_timestamps bs x = if_db x [] (timestamps_from bs x.rows)
