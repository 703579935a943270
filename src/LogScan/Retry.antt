-- ===== src/LogScan/Retry.antt =====
-- RetryingJsonRpcProvider.send, the same class in merkle.ts and logScan.ts.
use mathlib.Core.Path.{subst}
use polyshield.Common.{sym, refl, inl, inr, Bool-cases, ◌==◌, ==→eq}
use polyshield.Common.{ℕ, zero, suc, ◌+◌, ◌*◌, ◌^◌, ◌≤◌, ◌<◌, ◌≡◌, min, arith}

-- What the wrapped send does at one attempt: an answer, a rate limit, or another error.
pub data Reply : Type 0 where
  answer : ℕ → Reply
  rate_limit : ℕ → Reply
  error : ℕ → Reply

-- The reply that is returned or thrown, and the milliseconds slept before it.
pub record Sent : Type 0 where
  pub reply : Reply
  pub requests : ℕ
  pub slept : ℕ

-- The catch block: another round at a rate limit only.
abbrev pub after_reply : (Unit {0} → Sent) → ℕ → ℕ → Reply → Sent
after_reply again attempt slept (rate_limit _) = again tt
after_reply again attempt slept r = record { reply = r; requests = suc attempt; slept = slept }

-- The loop, with `left` retries of the eight left after `attempt` of them.
unfoldable pub retry : (ℕ → Reply) → ℕ → ℕ → ℕ → Sent
retry reply zero attempt slept = record {
  reply = reply attempt;
  requests = suc attempt;
  slept = slept;
}
retry reply (suc left) attempt slept =
    after_reply (λ _. retry reply left (suc attempt) (slept + min 8_000 (300 * 2 ^ suc attempt)))
      attempt slept (reply attempt)

unfoldable pub send : (ℕ → Reply) → Sent
send reply = retry reply 8 0 0

abbrev pub IsRateLimit : Reply → Type 0
IsRateLimit (rate_limit _) = Unit
IsRateLimit _ = ⊥

-- How the loop ends after `attempt` retries, with `left` more allowed.
record Ends (reply : ℕ → Reply) (left attempt slept : ℕ) (s : Sent) : Type 0 where
  last : ℕ
  counted : s.requests ≡ suc last
  replied : s.reply ≡ reply last
  from_here : attempt ≤ last
  within : last ≤ attempt + left
  before : (j : ℕ) → attempt ≤ j → j < last → IsRateLimit (reply j)
  gave_up : IsRateLimit (reply last) → last ≡ attempt + left
  short : s.slept ≤ slept + 8_000 * left

after_reply_rule :
    (P : Sent → Type 0) (again : Unit {0} → Sent) (attempt slept : ℕ) (r : Reply)
    → (IsRateLimit r → P (again tt))
    → (¬ IsRateLimit r → P (record { reply = r; requests = suc attempt; slept = slept }))
    → P (after_reply again attempt slept r)
after_reply_rule P again attempt slept (rate_limit e) h k = h tt
after_reply_rule P again attempt slept (answer v) h k = k (λ x. x)
after_reply_rule P again attempt slept (error e) h k = k (λ x. x)

first_or_later :
    (P : ℕ → Type 0) (attempt j : ℕ) → attempt ≤ j → P attempt → (suc attempt ≤ j → P j) → P j
first_or_later P attempt j h p k = elim (Bool-cases (j == attempt)) [
  | inl e ↦ subst P (sym (==→eq j attempt e)) p
  | inr ne ↦ k (ground arith)
]

retry-Ends :
    (reply : ℕ → Reply) (left attempt slept : ℕ)
    → Ends reply left attempt slept (retry reply left attempt slept)
unfolding retry
retry-Ends reply zero attempt slept = record {
  last = attempt;
  counted = refl;
  replied = refl;
  from_here = omega arith;
  within = omega arith;
  before = λ j h k. absurd (omega arith);
  gave_up = λ _. omega arith;
  short = omega arith;
}
retry-Ends reply (suc left) attempt slept =
    after_reply_rule (Ends reply (suc left) attempt slept)
      (λ _. retry reply left (suc attempt) (slept + min 8_000 (300 * 2 ^ suc attempt))) attempt
      slept (reply attempt)
      (λ limited.
        let e = retry-Ends reply left (suc attempt) (slept + min 8_000 (300 * 2 ^ suc attempt)) in
        record {
          last = e.last;
          counted = e.counted;
          replied = e.replied;
          from_here = let a = e.from_here in omega arith;
          within = let a = e.within in omega arith;
          before = λ j h k.
              first_or_later (λ i. IsRateLimit (reply i)) attempt j h limited
                (λ h'. e.before j h' k);
          gave_up = λ g. let a = e.gave_up g in omega arith;
          short = let a = e.short in omega arith;
        })
      (λ other. record {
        last = attempt;
        counted = refl;
        replied = refl;
        from_here = omega arith;
        within = omega arith;
        before = λ j h k. absurd (omega arith);
        gave_up = λ g. absurd (other g);
        short = omega arith;
      })

-- A request is sent at most nine times, and again only at a rate limit: what comes back is the reply
-- to the last one, every earlier reply was a rate limit, and the last is one only if all nine were.
-- No more than 64 seconds are slept.
send_lem :
    (reply : ℕ → Reply)
    → (last : ℕ) × ((send reply).requests ≡ suc last)
      × ((send reply).reply ≡ reply last)
      × (last ≤ 8)
      × ((j : ℕ) → j < last → IsRateLimit (reply j))
      × (IsRateLimit (reply last) → last ≡ 8)
      × ((send reply).slept ≤ 64_000)
unfolding send
send_lem reply =
    let e = retry-Ends reply 8 0 0 in
    (
      e.last,
      e.counted,
      e.replied,
      omega (arith, e.within),
      λ j h. e.before j (omega arith) h,
      λ g. e.gave_up g,
      omega (arith, e.short),
    )
