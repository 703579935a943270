-- ===== src/Signing/Nonce.antt =====
-- packages/backend/signing-layer/src/nonceManager.ts: class NonceManager.
pub mod Sends
use polyshield.Common.{
  ℕ, suc, ◌+◌, ◌-◌, Bool, true, false, Option, none, some, List, [], ◌∷◌, if◌then◌else◌, ltb,
}

pub record Manager : Type 0 where
  pub nonce : Option ℕ
  pub last_seen_block : ℕ

-- getAndIncrement, where `pending` is what getTransactionCount(address, "pending") answers
unfoldable pub get_and_increment : ℕ → Manager → ℕ × Manager
get_and_increment pending m = elim m.nonce [
  | none ↦ (pending, record m { nonce = some (pending + 1) })
  | some n ↦ (n, record m { nonce = some (n + 1) })
]

abbrev pub lowered : Option ℕ → Option ℕ
lowered none = none
lowered (some n) = some (n - 1)

unfoldable pub decrement : Manager → Manager
decrement m = record m { nonce = lowered m.nonce }

unfoldable pub reset : Manager → Manager
reset m = record m { nonce = none }

-- checkForChainReset outside production; `none` is an unavailable RPC.
unfoldable pub check_for_chain_reset : Bool → Option ℕ → Manager → Manager
check_for_chain_reset true current m = m
check_for_chain_reset false none m = m
check_for_chain_reset false (some current) m =
    record (if ltb current m.last_seen_block then reset m else m) { last_seen_block = current }

-- What `fn(nonce)` does: the transaction is sent, or a nonce error is thrown, or another one.
pub data Reply : Type 0 where
  sent : Reply
  nonce_error : Reply
  other_error : Reply

-- How send ends: with the nonce of the transaction, or with the error that is thrown.
pub data Outcome : Type 0 where
  sent : ℕ → Outcome
  thrown : Outcome

abbrev pub retried : ℕ → Reply → Outcome
retried n Reply.sent = Outcome.sent n
retried n _ = thrown

-- The body of send once it has a nonce, by the reply to `fn(nonce)`; `again` is the one to a retry.
abbrev pub after_reply : ℕ → (ℕ → Reply) → ℕ → Reply → Manager → Outcome × Manager
after_reply pending again n Reply.sent m = (Outcome.sent n, m)
after_reply pending again n nonce_error m =
    let (fresh, m') = get_and_increment pending (reset m) in (retried fresh (again fresh), m')
after_reply pending again n other_error m = (thrown, decrement m)

-- send: the pending counts that a seed and a reseed read, and the replies to the two attempts.
unfoldable pub send : ℕ → ℕ → (ℕ → Reply) → (ℕ → Reply) → Manager → Outcome × Manager
send pending repending fn again m =
    let (n, m') = get_and_increment pending m in after_reply repending again n (fn n) m'
