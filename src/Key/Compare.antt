-- ===== src/Key/Compare.antt =====
-- The comparison by `memcmp` and length is the lexicographic order of the key bytes.
use kevin.Base.{
  ℕ, zero, suc, ◌≤◌, List, [], ◌∷◌, lt, gt, ◌≡◌, refl, ◌∙◌, arith, ltb, take, length, if◌then◌else◌,
}
use kevin.Key.{Dbt, memcmp, or_else, lightfs_keycmp, env_keycmp, IsKey, key_bytes}
use kevin.Key.Order.{lex}

memcmp-lex_shorter :
    (a b : List ℕ) (m n : ℕ)
    → m ≤ length a
    → n ≤ length b
    → m ≤ n
    → (if ltb m n then or_else (memcmp a b m) lt else memcmp a b m) ≡ lex (take m a) (take n b)
unfolding memcmp lex
memcmp-lex_shorter a [] zero zero hm hn h = refl
memcmp-lex_shorter a (y ∷ b) zero zero hm hn h = refl
memcmp-lex_shorter a [] zero (suc n) hm hn h = absurd (omega arith)
memcmp-lex_shorter a (y ∷ b) zero (suc n) hm hn h = ground arith
memcmp-lex_shorter [] b (suc m) n hm hn h = absurd (omega arith)
memcmp-lex_shorter (x ∷ a) b (suc m) zero hm hn h = absurd (omega arith)
memcmp-lex_shorter (x ∷ a) [] (suc m) (suc n) hm hn h = absurd (omega arith)
memcmp-lex_shorter (x ∷ a) (y ∷ b) (suc m) (suc n) hm hn h =
    ground (arith, memcmp-lex_shorter a b m n)

memcmp-lex_longer :
    (a b : List ℕ) (m n : ℕ)
    → m ≤ length a
    → n ≤ length b
    → suc n ≤ m
    → or_else (memcmp a b n) gt ≡ lex (take m a) (take n b)
unfolding memcmp lex
memcmp-lex_longer a b zero n hm hn h = absurd (omega arith)
memcmp-lex_longer [] b (suc m) n hm hn h = absurd (omega arith)
memcmp-lex_longer (x ∷ a) [] (suc m) zero hm hn h = refl
memcmp-lex_longer (x ∷ a) (y ∷ b) (suc m) zero hm hn h = refl
memcmp-lex_longer (x ∷ a) [] (suc m) (suc n) hm hn h = absurd (omega arith)
memcmp-lex_longer (x ∷ a) (y ∷ b) (suc m) (suc n) hm hn h =
    ground (arith, memcmp-lex_longer a b m n)

-- For keys whose buffers hold the lengths given, `lightfs_keycmp` orders the two byte strings
-- lexicographically, a proper prefix first.
pub lightfs_keycmp-lex :
    (a b : List ℕ) (m n : ℕ)
    → m ≤ length a
    → n ≤ length b
    → lightfs_keycmp a m b n ≡ lex (take m a) (take n b)
unfolding lightfs_keycmp
lightfs_keycmp-lex a b m n hm hn =
    ground (arith, memcmp-lex_shorter a b m n, memcmp-lex_longer a b m n)

-- The two copies of the comparison agree.
pub env_keycmp-lightfs_keycmp :
    (a b : Dbt) → env_keycmp a b ≡ lightfs_keycmp a.buf a.size b.buf b.size
unfolding env_keycmp lightfs_keycmp
env_keycmp-lightfs_keycmp a b = refl

-- For keys whose buffers hold `size` bytes, `env_keycmp` orders the two byte strings
-- lexicographically, a proper prefix first.
pub env_keycmp-lex :
    (a b : Dbt) → IsKey a → IsKey b → env_keycmp a b ≡ lex (key_bytes a) (key_bytes b)
env_keycmp-lex a b ha hb =
    env_keycmp-lightfs_keycmp a b ∙ lightfs_keycmp-lex a.buf b.buf a.size b.size ha hb
