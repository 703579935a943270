-- ===== src/Desk/Scan/Coverage.antt =====
-- The windowed scan of packages/backend/signing-layer/src/eventListener.ts is one pass over its blocks.
use polyshield.Common.{
  ℕ, zero, suc, ◌+◌, ◌-◌, ◌≤◌, ◌<◌, ◌≡◌, Bool, true, false, some, List, [], ◌∷◌, ◌++◌,
  if◌then◌else◌, leb, min, arith, Bool-cases, inl, inr, refl, blocks, blocks_glue, leb→le, ◌∙◌, max,
  none,
}
use polyshield.Attest.Store.{Signer}
use polyshield.Desk.{Desk, is_halted}
use polyshield.Desk.Listener.{BetRecord, Answers, handle_all, handle_bet_record}
use polyshield.Desk.Scan.{Fetch, done, scan_windows, catch_up_missed_bets, forward_from}

module _ (domain_set : Bool) (sign : Signer) (mock : Bool) where
  handle_all-append :
      (xs ys : List (BetRecord × Answers)) (d : Desk)
      → handle_all domain_set sign mock (xs ++ ys) d
        ≡ handle_all domain_set sign mock ys (handle_all domain_set sign mock xs d)
  unfolding handle_all
  handle_all-append [] ys d = refl
  handle_all-append ((r, a) ∷ xs) ys d =
      handle_all-append xs ys
        (if is_halted d then d else handle_bet_record domain_set sign mock r a d)

  handle_all-halted :
      (xs : List (BetRecord × Answers)) (d : Desk)
      → is_halted d ≡ true
      → handle_all domain_set sign mock xs d ≡ d
  unfolding handle_all
  handle_all-halted [] d h = refl
  handle_all-halted ((r, a) ∷ xs) d h = rw h (handle_all-halted xs d h)

  module _ (window : ℕ) (fetch : Fetch) (at : ℕ → List (BetRecord × Answers)) where
    -- The fetch answers every range between two blocks, with the records of each block of the range.
    abbrev pub IsComplete : ℕ → ℕ → Type 0
    IsComplete lo hi = (a b : ℕ) → lo ≤ a → b ≤ hi → fetch a b ≡ some (blocks at a (suc b - a))

    over_head :
        (cursor head : ℕ) (d : Desk)
        → leb cursor head ≡ false
        → d ≡ handle_all domain_set sign mock (blocks at cursor (suc head - cursor)) d
    unfolding handle_all
    over_head cursor head d past =
        let none_left : suc head - cursor ≡ 0 = ground arith in rw none_left refl

    scan_windows_handles :
        (fuel : ℕ) (persist : Bool) (lo cursor head last : ℕ) (d : Desk)
        → IsComplete lo head
        → lo ≤ cursor
        → 1 ≤ window
        → head + 1 - cursor < fuel
        → (scan_windows domain_set sign mock window fetch fuel persist cursor head last d).desk
          ≡ handle_all domain_set sign mock (blocks at cursor (suc head - cursor)) d
    unfolding scan_windows
    scan_windows_handles zero persist lo cursor head last d c low w h = absurd (omega arith)
    scan_windows_handles (suc fuel) persist lo cursor head last d c low w h =
        let to = min (cursor + window - 1) head in
        let now = handle_all domain_set sign mock (blocks at cursor (suc to - cursor)) d in
        elim (Bool-cases (leb cursor head)) [
          | inl more ↦
              let le : cursor ≤ head = leb→le cursor head more in
              let glue : handle_all domain_set sign mock (blocks at cursor (suc head - cursor)) d
                  ≡ handle_all domain_set sign mock (blocks at (to + 1) (suc head - (to + 1))) now =
                rw (← blocks_glue at cursor to head (omega arith) (omega arith))
                  (handle_all-append _ _ d) in
              elim (Bool-cases (is_halted now)) [
                | inl halts ↦
                    rw
                      (
                        more,
                        c cursor to low (omega arith),
                        halts,
                        glue,
                        handle_all-halted _ now halts,
                      )
                      refl
                | inr runs ↦
                    rw (more, c cursor to low (omega arith), runs, glue)
                      (scan_windows_handles fuel persist lo (to + 1) head _ now c (omega arith) w
                        (omega arith))
              ]
          | inr past ↦ rw past (over_head cursor head d past)
        ]

    -- The cursor that a scan leaves.
    abbrev pub saved : Bool → ℕ → ℕ → ℕ → ℕ
    saved persist cursor head last =
        if leb cursor head then if persist then head else last else last

    saved_next :
        (persist : Bool) (to head last : ℕ)
        → to ≤ head
        → saved persist (to + 1) head (if persist then to else last)
          ≡ (if persist then head else last)
    saved_next persist to head last h = ground arith

    scan_windows_ends :
        (fuel : ℕ) (persist : Bool) (lo cursor head last : ℕ) (d : Desk)
        → IsComplete lo head
        → lo ≤ cursor
        → 1 ≤ window
        → head + 1 - cursor < fuel
        → is_halted (handle_all domain_set sign mock (blocks at cursor (suc head - cursor)) d)
          ≡ false
        → (scan_windows domain_set sign mock window fetch fuel persist cursor head last d).ended
            ≡ done
          × (scan_windows domain_set sign mock window fetch fuel persist cursor head last
              d).last_block
            ≡ saved persist cursor head last
    unfolding scan_windows
    scan_windows_ends zero persist lo cursor head last d c low w h runs = absurd (omega arith)
    scan_windows_ends (suc fuel) persist lo cursor head last d c low w h runs =
        let to = min (cursor + window - 1) head in
        let now = handle_all domain_set sign mock (blocks at cursor (suc to - cursor)) d in
        elim (Bool-cases (leb cursor head)) [
          | inl more ↦
              let le : cursor ≤ head = leb→le cursor head more in
              let glue : handle_all domain_set sign mock (blocks at cursor (suc head - cursor)) d
                  ≡ handle_all domain_set sign mock (blocks at (to + 1) (suc head - (to + 1))) now =
                rw (← blocks_glue at cursor to head (omega arith) (omega arith))
                  (handle_all-append _ _ d) in
              elim (Bool-cases (is_halted now)) [
                | inl halts ↦ absurd (cc (handle_all-halted _ now halts))
                | inr on ↦
                    let last' : ℕ = if persist then to else last in
                    let ih =
                      scan_windows_ends fuel persist lo (to + 1) head last' now c (omega arith) w
                        (omega arith) (rw glue at runs) in
                    rw (more, c cursor to low (omega arith), on)
                      (ih.0, ih.1 ∙ saved_next persist to head last (omega arith))
              ]
          | inr past ↦ rw past (refl, refl)
        ]

    -- The first block of the forward scan is at or below the cursor, or is the block of the deployment.
    -- Where the fetch answers every range from there to the head with the records of each of its blocks, windows have a block
    -- at least, the head is not below the deployment, and no answer makes the breaker exit, the scan
    -- ends through the head, leaves the cursor there, and has done what handling the records of all
    -- blocks from its first one to the head, once and in their order, does.
    pub catch_up_covers :
        (deploy head last : ℕ) (d : Desk)
        → IsComplete (forward_from deploy head last) head
        → 1 ≤ window
        → deploy ≤ head
        → is_halted (
            handle_all domain_set sign mock
              (blocks at (forward_from deploy head last) (suc head - forward_from deploy head last))
              d)
          ≡ false
        → (forward_from deploy head last ≤ max deploy last)
          × (catch_up_missed_bets domain_set sign mock window fetch deploy none (some head) last d
              ≡ record {
                desk =
                    handle_all domain_set sign mock
                      (blocks at
                        (forward_from deploy head last)
                        (suc head - forward_from deploy head last))
                      d;
                last_block = head;
                ended = done;
              })
    unfolding catch_up_missed_bets
    catch_up_covers deploy head last d c w low runs =
        let from = forward_from deploy head last in
        let low' : from ≤ head = unfold forward_from in omega arith in
        let enough : head + 1 - from < head + 2 - from = omega arith in
        let desk_eq =
          scan_windows_handles (head + 2 - from) true from from head last d c (omega arith) w
            enough in
        let (ended_eq, last_eq) =
          scan_windows_ends (head + 2 - from) true from from head last d c (omega arith) w enough
            runs in
        let last_eq' : (scan_windows domain_set sign mock window fetch (head + 2 - from) true from
              head last d).last_block
            ≡ head =
          last_eq ∙ (ground arith) in
        (
          unfold forward_from in omega arith,
          λ i. record { desk = desk_eq i; last_block = last_eq' i; ended = ended_eq i },
        )
