-- ===== src/LogScan/Coverage.antt =====
-- The paging loop always ends, and what it returns is each block of the range once, in order.
use polyshield.Common.{
  ℕ, zero, suc, ◌+◌, ◌-◌, ◌/◌, ◌<◌, ◌≤◌, ◌≡◌, ◌≢◌, refl, List, [], ◌++◌, arith, inl, inr,
  Bool-cases, Bool, ap, blocks, blocks_glue, leb, max, min, false, true, ◌==◌, leb→le, ◌∙◌,
}
use mathlib.Core.List.{append-nil, append_assoc}
use polyshield.LogScan.{Answer, Scan, page, get_logs_chunked, after_answer}

next_bound :
    (from to_block chunk fuel : ℕ)
    → leb from to_block ≡ true
    → 1 ≤ chunk
    → to_block + 1 - from + chunk < suc fuel
    → to_block + 1 - (min (from + chunk - 1) to_block + 1) + chunk < fuel
next_bound from to_block chunk fuel more pos h = let le = leb→le from to_block more in omega arith

shrunk_bound :
    (from to_block chunk fuel : ℕ)
    → leb from to_block ≡ true
    → (min (from + chunk - 1) to_block == from) ≡ false
    → 1 ≤ chunk
    → to_block + 1 - from + chunk < suc fuel
    → to_block + 1 - from + max 1 (chunk / 2) < fuel
shrunk_bound from to_block chunk fuel more wide pos h = ground arith

-- What holds of every way in which a round may go on.
after_answer_rule {ℓ κ} :
    {L : Type ℓ} (P : Scan L → Type κ) (advance : List L → Scan L) (shrink : Unit {0} → Scan L)
    (single : Bool) (ans : Answer L)
    → ((ls : List L) → ans ≡ Answer.logs ls → P (advance ls))
    → P Scan.rate_limited
    → P Scan.failed
    → (single ≡ false → P (shrink tt))
    → P (after_answer advance shrink single ans)
after_answer_rule P advance shrink single (Answer.logs ls) a r f s = a ls refl
after_answer_rule P advance shrink single Answer.rate_limited a r f s = r
after_answer_rule P advance shrink true Answer.failed a r f s = f
after_answer_rule P advance shrink false Answer.failed a r f s = s refl

module _ {ℓ} {L : Type ℓ} (ask : ℕ → ℕ → ℕ → Answer L) where
  page_ends :
      (fuel k from to_block chunk : ℕ) (out : List L)
      → to_block + 1 - from + chunk < fuel
      → 1 ≤ chunk
      → page ask fuel k from to_block chunk out ≢ Scan.out_of_fuel
  unfolding page
  page_ends zero k from to_block chunk out h pos = absurd (omega arith)
  page_ends (suc fuel) k from to_block chunk out h pos =
      let to = min (from + chunk - 1) to_block in
      elim (Bool-cases (leb from to_block)) [
        | inl more ↦ rw more (
            after_answer_rule (λ s. s ≢ Scan.out_of_fuel)
              (λ ls. page ask fuel (k + 1) (to + 1) to_block chunk (out ++ ls))
              (λ _. page ask fuel (k + 1) from to_block (max 1 (chunk / 2)) out) (to == from)
              (ask k from to)
              (λ ls _.
                page_ends fuel (k + 1) (to + 1) to_block chunk (out ++ ls)
                  (next_bound _ _ _ _ more pos h) pos)
              (λ e. cc) (λ e. cc)
              (λ wide.
                page_ends fuel (k + 1) from to_block (max 1 (chunk / 2)) out
                  (shrunk_bound _ _ _ _ more wide pos h) (omega arith)))
        | inr over ↦ rw over (λ e. cc)
      ]

  -- A scan ends, whatever the RPC answers: the fuel given to the loop is enough.
  pub get_logs_chunked_ends :
      (from_block to_block start_chunk : ℕ)
      → get_logs_chunked ask from_block to_block start_chunk ≢ Scan.out_of_fuel
  unfolding get_logs_chunked
  get_logs_chunked_ends from_block to_block start_chunk =
      page_ends _ 0 from_block to_block (max 1 start_chunk) [] (omega arith) (omega arith)

  module _ (at : ℕ → List L) where
    -- Every answer that is given is complete and in the order of the chain.
    abbrev pub IsHonest : Type ℓ
    IsHonest = (k a b : ℕ) (ls : List L) → ask k a b ≡ Answer.logs ls → ls ≡ blocks at a (suc b - a)

    over_end :
        (from to_block : ℕ) (out r : List L)
        → to_block < from
        → out ≡ r
        → r ≡ out ++ blocks at from (suc to_block - from)
    over_end from to_block out r past e =
        let none_left : suc to_block - from ≡ 0 = omega arith in rw (none_left, append-nil, e)

    page_covers :
        (fuel k from to_block chunk : ℕ) (out : List L)
        → IsHonest
        → 1 ≤ chunk
        → from ≤ suc to_block
        → (r : List L) → page ask fuel k from to_block chunk out ≡ Scan.done r
        → r ≡ out ++ blocks at from (suc to_block - from)
    unfolding page
    page_covers zero k from to_block chunk out honest pos within = λ r e. cc
    page_covers (suc fuel) k from to_block chunk out honest pos within =
        let to = min (from + chunk - 1) to_block in
        elim (Bool-cases (leb from to_block)) [
          | inl more ↦ rw more (
              after_answer_rule
                (λ s.
                  (r : List L) → s ≡ Scan.done r → r ≡ out ++ blocks at from (suc to_block - from))
                (λ ls. page ask fuel (k + 1) (to + 1) to_block chunk (out ++ ls))
                (λ _. page ask fuel (k + 1) from to_block (max 1 (chunk / 2)) out) (to == from)
                (ask k from to)
                (λ ls answered r e.
                  let le = leb→le from to_block more in
                  page_covers fuel (k + 1) (to + 1) to_block chunk (out ++ ls) honest pos
                    (omega arith) r e
                  ∙ (append_assoc out ls _
                      ∙ ap (λ x. out ++ x)
                          (rw (honest k from to ls answered)
                            (blocks_glue at from to to_block (omega arith) (omega arith)))))
                (λ r e. cc) (λ r e. cc)
                (λ wide.
                  page_covers fuel (k + 1) from to_block (max 1 (chunk / 2)) out honest
                    (omega arith) within))
          | inr over ↦ rw over (λ r e. over_end from to_block out r (ground arith) (cc))
        ]

    -- With honest answers a scan that returns has returned the logs of each block of its range once,
    -- in the order of the chain, whatever spans were refused on the way.
    pub get_logs_chunked_covers :
        (from_block to_block start_chunk : ℕ) (r : List L)
        → IsHonest
        → from_block ≤ suc to_block
        → get_logs_chunked ask from_block to_block start_chunk ≡ Scan.done r
        → r ≡ blocks at from_block (suc to_block - from_block)
    unfolding get_logs_chunked
    get_logs_chunked_covers from_block to_block start_chunk r honest within e =
        page_covers _ 0 from_block to_block (max 1 start_chunk) [] honest (omega arith) within r e
