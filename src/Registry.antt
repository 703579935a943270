-- ===== src/Registry.antt =====
-- packages/backend/signing-layer/src/marketRegistry.ts: which token an outcome of a market is traded on.
-- Ids are numbers, a condition is the value of its 32 bytes, and 0 is the empty text. The pages of the
-- market API are given as they parse; the question and updated_at, which nothing reads, are left out.
pub mod Binding
use text.Mathlib.Text.{◌==◌ as str_eq}
use Prim.Native.String.{String}
use polyshield.Common.{
  ℕ, zero, suc, ◌+◌, ◌%◌, Bool, true, false, Option, none, some, List, [], ◌∷◌, ◌&&◌, ◌||◌, not,
  if◌then◌else◌, ◌==◌, ltb, length, get_or,
}
use polyshield.Tracker.{bn254_p}
use polyshield.Desk.{coalesce}
use polyshield.Signing.TokenBinding.{RegistryHit}

-- GammaMarket: `condition_id` is none where it is no bytes32, and the outcomes are in lower case.
pub record GammaMarket : Type 0 where
  pub condition_id : Option ℕ
  pub enable_order_book : Bool
  pub outcomes : List String
  pub tokens : List ℕ
  pub end_date : Option ℕ

-- A row of market_registry.
pub record Row : Type 0 where
  pub key : ℕ
  pub condition_id : ℕ
  pub yes_token : ℕ
  pub no_token : ℕ
  pub end_date : Option ℕ

-- toFieldSafe
abbrev pub to_field_safe : ℕ → ℕ
to_field_safe cid = cid % bn254_p

abbrev pub next_index : Option ℕ → Option ℕ
next_index none = none
next_index (some i) = some (i + 1)

unfoldable pub index_of : String → List String → Option ℕ
index_of s [] = none
index_of s (x ∷ xs) = if str_eq x s then some 0 else next_index (index_of s xs)

abbrev pub both_indices : Option ℕ → Option ℕ → Option (ℕ × ℕ)
both_indices (some first) (some second) = some (first, second)
both_indices _ _ = none

abbrev pub or_pair : Option (ℕ × ℕ) → ℕ × ℕ → ℕ × ℕ
or_pair none d = d
or_pair (some p) d = p

-- The indices of the sides 0 and 1: those of BINARY_PAIRS, or the native order.
unfoldable pub side_indices : List String → ℕ × ℕ
side_indices outcomes =
    or_pair (both_indices (index_of "yes" outcomes) (index_of "no" outcomes))
      (or_pair (both_indices (index_of "up" outcomes) (index_of "down" outcomes)) (0, 1))

abbrev pub row_with : GammaMarket → ℕ → ℕ → ℕ → Option Row
row_with m cid first second =
    if first == 0 || second == 0
    then none
    else some (record {
      key = to_field_safe cid;
      condition_id = cid;
      yes_token = first;
      no_token = second;
      end_date = m.end_date;
    })

abbrev pub row_of : GammaMarket → Option ℕ → Option Row
row_of m none = none
row_of m (some cid) =
    if not m.enable_order_book || not (length m.outcomes == 2)
    then none
    else row_with m cid (get_or m.tokens (side_indices m.outcomes).0 0)
        (get_or m.tokens (side_indices m.outcomes).1 0)

-- toRow
unfoldable pub to_row : GammaMarket → Option Row
to_row m = row_of m m.condition_id

-- INSERT … ON CONFLICT(market_id_field) DO UPDATE
unfoldable pub put_row : Row → List Row → List Row
put_row r [] = r ∷ []
put_row r (x ∷ xs) =
    if x.key == r.key
    then record r { end_date = coalesce r.end_date x.end_date } ∷ xs
    else x ∷ put_row r xs

unfoldable pub put_rows : List Row → List Row → List Row
put_rows [] reg = reg
put_rows (r ∷ rs) reg = put_rows rs (put_row r reg)

abbrev pub keep_row : Option Row → List Row → List Row
keep_row none rs = rs
keep_row (some r) rs = r ∷ rs

unfoldable pub to_rows : List GammaMarket → List Row
to_rows [] = []
to_rows (m ∷ ms) = keep_row (to_row m) (to_rows ms)

abbrev pub page_size : ℕ
page_size = 500

-- syncPages with maxPages, over the answers to its pages; none is a page that cannot be fetched.
abbrev pub after_page : (List Row → List Row) → Option (List GammaMarket) → List Row → List Row
after_page next none reg = reg
after_page next (some []) reg = reg
after_page next (some (m ∷ ms)) reg =
    let reg' = put_rows (to_rows (m ∷ ms)) reg in
    if ltb (length (m ∷ ms)) page_size then reg' else next reg'

unfoldable pub sync_pages : ℕ → List (Option (List GammaMarket)) → List Row → List Row
sync_pages zero pages reg = reg
sync_pages (suc max) [] reg = reg
sync_pages (suc max) (page ∷ pages) reg = after_page (λ reg'. sync_pages max pages reg') page reg

-- syncMarkets: the pages by volume, and those by the end date.
unfoldable pub sync_markets :
    List (Option (List GammaMarket)) → List (Option (List GammaMarket)) → List Row → List Row
sync_markets by_volume by_soon reg = sync_pages 4 by_soon (sync_pages 20 by_volume reg)

-- syncOneMarket: the first row of the answer, none where there is no answer.
abbrev pub put_first : List Row → List Row → Bool × List Row
put_first [] reg = (false, reg)
put_first (r ∷ rs) reg = (true, put_row r reg)

unfoldable pub sync_one_market : Option (List GammaMarket) → List Row → Bool × List Row
sync_one_market none reg = (false, reg)
sync_one_market (some ms) reg = put_first (to_rows ms) reg

unfoldable pub find_row : ℕ → List Row → Option Row
find_row key [] = none
find_row key (r ∷ rs) = if r.key == key then some r else find_row key rs

-- `side` is none for a number other than an integer of 0 or more.
abbrev pub side_token : Option ℕ → Row → ℕ
side_token none r = r.no_token
side_token (some side) r = if side == 0 then r.yes_token else r.no_token

abbrev pub hit_of : Option ℕ → Option Row → Option RegistryHit
hit_of side none = none
hit_of side (some r) =
    if side_token side r == 0
    then none
    else some (record { token_id = side_token side r; condition_id = r.condition_id })

-- resolveToken
unfoldable pub resolve_token : ℕ → Option ℕ → List Row → Option RegistryHit
resolve_token key side reg = hit_of side (find_row key reg)

abbrev pub condition_of_row : Option Row → Option ℕ
condition_of_row none = none
condition_of_row (some r) = some r.condition_id

-- conditionIdForKey, and marketMetaForKey
unfoldable pub condition_id_for_key : ℕ → List Row → Option ℕ
condition_id_for_key key reg = condition_of_row (find_row key reg)

abbrev pub meta_of_row : Option Row → Option (ℕ × Option ℕ)
meta_of_row none = none
meta_of_row (some r) = some (r.condition_id, r.end_date)

unfoldable pub market_meta_for_key : ℕ → List Row → Option (ℕ × Option ℕ)
market_meta_for_key key reg = meta_of_row (find_row key reg)
