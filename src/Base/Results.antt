-- ===== src/Base/Results.antt =====
-- How a call ends: with a result, blocked for ever on a lock or a semaphore, or in a `BUG_ON` or a
-- wild access.

pub data Outcome {ℓ} (A : Type ℓ) : Type ℓ where
  done : A → Outcome A
  blocked : Outcome A
  bug : Outcome A

infixl 5 ◌>>=◌
abbrev pub ◌>>=◌ {ℓ κ} : {A : Type ℓ} {B : Type κ} → Outcome A → (A → Outcome B) → Outcome B
done a >>= f = f a
blocked >>= f = blocked
bug >>= f = bug
