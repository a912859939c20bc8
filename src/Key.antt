-- ===== src/Key.antt =====
-- kevinfs/db.h (`DBT`), the DBT helpers of kevinfs/lightfs_fs.h, and the key comparison, of which
-- kevinfs/rbtreekv.c, lightfs_bstore.c and lightfs_cache.c each have a copy.
pub mod Memory
pub mod Order
pub mod Compare
pub mod Layout
pub mod Data
use kevin.Base.{
  ℕ, zero, suc, ◌+◌, ◌≤◌, Bool, List, [], ◌∷◌, ◌++◌, Ordering, lt, eq, gt, compare, ltb,
  if◌then◌else◌, take, drop, replicate, length,
}

-- `DBT`: `buf` is what `data` points to, as bytes; `size` of them are in use.
pub record Dbt : Type 0 where
  pub buf : List ℕ
  pub size : ℕ
  pub ulen : ℕ
  pub flags : ℕ

abbrev pub db_dbt_usermem : ℕ
db_dbt_usermem = 256

abbrev pub dbt_setup : List ℕ → ℕ → Dbt
dbt_setup buf size = record { buf = buf; size = size; ulen = size; flags = db_dbt_usermem }

-- C `memcpy(dst + off, src, n)` into a buffer.
abbrev pub memcpy : List ℕ → ℕ → List ℕ → ℕ → List ℕ
memcpy dst off src n = take off dst ++ (take n src ++ drop (off + n) dst)

-- C `memset(dst + off, c, n)`.
abbrev pub memset : List ℕ → ℕ → ℕ → ℕ → List ℕ
memset dst off c n = memcpy dst off (replicate n c) n

-- C `memcmp`, of which the code reads the sign: the first byte that differs decides. A buffer
-- that ends before `n` bytes is a read out of bounds, which `IsKey` rules out.
unfoldable pub memcmp : List ℕ → List ℕ → ℕ → Ordering
memcmp a b zero = eq
memcmp [] b (suc n) = eq
memcmp (x ∷ a) [] (suc n) = eq
memcmp (x ∷ a) (y ∷ b) (suc n) = elim (compare x y) [ lt ↦ lt | gt ↦ gt | eq ↦ memcmp a b n ]

-- `if (r) return r; return d;`
abbrev pub or_else : Ordering → Ordering → Ordering
or_else eq d = d
or_else r d = r

-- `lightfs_keycmp`: two keys given by pointer and length. The lengths are `uint16_t` in the source and
-- are not cut here: no caller builds a key of 64 KiB.
unfoldable pub lightfs_keycmp : List ℕ → ℕ → List ℕ → ℕ → Ordering
lightfs_keycmp akey alen bkey blen =
    if ltb alen blen
    then or_else (memcmp akey bkey alen) lt
    else (if ltb blen alen then or_else (memcmp akey bkey blen) gt else memcmp akey bkey alen)

-- `env_keycmp`.
unfoldable pub env_keycmp : Dbt → Dbt → Ordering
env_keycmp a b =
    if ltb a.size b.size
    then or_else (memcmp a.buf b.buf a.size) lt
    else (if ltb b.size a.size
        then or_else (memcmp a.buf b.buf b.size) gt
        else memcmp a.buf b.buf a.size)

-- The buffer holds the bytes that `size` speaks of.
abbrev pub IsKey : Dbt → Type 0
IsKey d = d.size ≤ length d.buf

-- The key as a byte string.
abbrev pub key_bytes : Dbt → List ℕ
key_bytes d = take d.size d.buf
