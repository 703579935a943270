-- ===== src/Signing/Nonce/Sends.antt =====
-- Sends that follow one another, and sends that overlap, in nonceManager.ts.
use polyshield.Signing.Nonce.{
  Manager, get_and_increment, decrement, send, Outcome, Reply, nonce_error, other_error, thrown,
  reset,
}
use mathlib.Core.Path.{subst}
use native.Mathlib.Numerals.{add-one}
use polyshield.Common.{
  ◌∙◌, sym, ◌≢◌, refl, [], ◌∷◌, List, some, suc, arith, List, ℕ, ◌∷◌, ◌≡◌, some, suc, ◌≢◌, ◌+◌,
  refl,
}

-- The nonce that the next send uses.
unfoldable pub next_nonce : ℕ → Manager → ℕ
next_nonce pending m = (get_and_increment pending m).0

-- A send that succeeds at once uses the next nonce and moves on by one; one that fails before the
-- transaction is broadcast gives its nonce back; and one that meets a nonce error takes a fresh nonce
-- from the chain, which stays used up even if the retry fails.
pub send_next :
    (pending repending : ℕ) (fn again : ℕ → Reply) (m : Manager)
    → let n = next_nonce pending m in
      let (r, m') = send pending repending fn again m in
      (fn n ≡ Reply.sent → (r ≡ Outcome.sent n) × (m'.nonce ≡ some (n + 1)))
      × (fn n ≡ other_error → (r ≡ thrown) × (m'.nonce ≡ some n))
      × (fn n ≡ nonce_error → m'.nonce ≡ some (repending + 1))
      × (fn n ≡ nonce_error → again repending ≡ Reply.sent → r ≡ Outcome.sent repending)
unfolding send next_nonce get_and_increment decrement reset
send_next pending repending fn again m = ground arith

-- A batch of sends, one after the other; the replies are given by the transaction and its nonce.
unfoldable pub send_all : ℕ → List (ℕ → Reply) → Manager → List Outcome × Manager
send_all pending [] m = ([], m)
send_all pending (fn ∷ fns) m =
    let (r, m') = send pending pending fn fn m in
    let (rs, m'') = send_all pending fns m' in (r ∷ rs, m'')

-- The nonces that were used are consecutive, from `n` on.
abbrev pub Consecutive : ℕ → List Outcome → Type 0
Consecutive n [] = Unit
Consecutive n (Outcome.sent k ∷ rs) = (k ≡ n) × Consecutive (suc n) rs
Consecutive n (thrown ∷ rs) = Consecutive n rs

abbrev pub NoNonceError : List (ℕ → Reply) → Type 0
NoNonceError [] = Unit
NoNonceError (fn ∷ fns) = ((n : ℕ) → fn n ≢ nonce_error) × NoNonceError fns

next_of_some : (pending k : ℕ) (m : Manager) → m.nonce ≡ some k → next_nonce pending m ≡ k
unfolding next_nonce get_and_increment
next_of_some pending k m e = ground arith

-- One send in front of a batch that goes on from the manager that it leaves.
Consecutive-send :
    (pending : ℕ) (fn : ℕ → Reply) (m : Manager)
    → ((n : ℕ) → fn n ≢ nonce_error)
    → (rs : List Outcome) → Consecutive (next_nonce pending (send pending pending fn fn m).1) rs
    → Consecutive (next_nonce pending m) ((send pending pending fn fn m).0 ∷ rs)
Consecutive-send pending fn m h rs later = go (fn (next_nonce pending m)) refl
  where
    n : ℕ
    n = next_nonce pending m

    after : Manager
    after = (send pending pending fn fn m).1

    go : (r : Reply) → fn n ≡ r → Consecutive n ((send pending pending fn fn m).0 ∷ rs)
    go Reply.sent e =
        let (result, left) = (send_next pending pending fn fn m).0 e in
        let on : next_nonce pending after ≡ suc n =
          next_of_some pending (n + 1) after left ∙ add-one n in
        subst (λ r. Consecutive n (r ∷ rs)) (sym result)
          (refl, subst (λ k. Consecutive k rs) on later)
    go other_error e =
        let (result, left) = (send_next pending pending fn fn m).1 e in
        subst (λ r. Consecutive n (r ∷ rs)) (sym result)
          (subst (λ k. Consecutive k rs) (next_of_some pending n after left) later)
    go nonce_error e = absurd (h n e)

-- Sends one after the other, none of which meets a nonce error, use consecutive nonces from the next one
-- on: a send that fails before its transaction is broadcast leaves no gap.
pub send_all-Consecutive :
    (pending : ℕ) (fns : List (ℕ → Reply)) (m : Manager)
    → NoNonceError fns
    → Consecutive (next_nonce pending m) (send_all pending fns m).0
unfolding send_all
send_all-Consecutive pending [] m h = tt
send_all-Consecutive pending (fn ∷ fns) m (h, hs) =
    Consecutive-send pending fn m h _
      (send_all-Consecutive pending fns (send pending pending fn fn m).1 hs)

-- Two sends that overlap: the first has taken its nonce when the second takes one and succeeds, and
-- then the first fails before its transaction is broadcast. The next send is given the nonce that the
-- second has used.
overlap_reuses_nonce :
    (pending : ℕ) (m : Manager)
    → let (a, m₁) = get_and_increment pending m in
      let (b, m₂) = get_and_increment pending m₁ in next_nonce pending (decrement m₂) ≡ b
unfolding next_nonce get_and_increment decrement
overlap_reuses_nonce pending m = ground arith
