-- ===== src/Key/Data.antt =====
-- Data keys sort by inode number and then by block number, and both can be read back.
use kevin.Base.{
  ℕ, zero, suc, ◌/◌, ◌%◌, ◌^◌, ◌<◌, ◌≤◌, List, [], ◌∷◌, ◌++◌, some, done, lt, eq, gt, compare, ◌≡◌,
  refl, ap, ap₂, sym, ◌∙◌, arith, take, append_assoc,
}
use kevin.Key.{Dbt, dbt_setup, IsKey, key_bytes, env_keycmp}
use kevin.Key.Order.{lex, lex-append_left}
use kevin.Key.Compare.{env_keycmp-lex}
use kevin.Key.Layout.{
  to_be, of_be, lightfs_key_get_ino, lightfs_data_key_get_blocknum, lightfs_data_key_set_blocknum,
  data_key, data_key_magic, alloc_data_dbt_from_ino, copy_data_dbt_from_inode,
}

-- A number of at most `n` bytes.
unfoldable pub Fits : ℕ → ℕ → Type 0
Fits zero v = v ≡ 0
Fits (suc n) v = Fits n (v / 256)

Fits-u64 : (v : ℕ) → v < 2 ^ 64 → Fits 8 v
unfolding Fits
Fits-u64 v h = omega arith

-- Big-endian numbers of one length compare as the numbers, before what stands behind them.
lex-to_be :
    (n a b : ℕ) (p q : List ℕ)
    → Fits n a
    → Fits n b
    → lex (to_be n a ++ p) (to_be n b ++ q)
      ≡ elim (compare a b) [ lt ↦ lt | gt ↦ gt | eq ↦ lex p q ]
unfolding to_be lex Fits
lex-to_be zero a b p q ha hb = ground (arith, ha, hb)
lex-to_be (suc n) a b p q ha hb =
    ap₂ lex (append_assoc (to_be n (a / 256)) (a % 256 ∷ []) p)
      (append_assoc (to_be n (b / 256)) (b % 256 ∷ []) q)
    ∙ lex-to_be n (a / 256) (b / 256) (a % 256 ∷ p) (b % 256 ∷ q) ha hb
    ∙ ground arith

of_be-to_be : (n a : ℕ) (p : List ℕ) → Fits n a → of_be 0 (to_be n a ++ p) ≡ of_be a p
unfolding to_be of_be Fits
of_be-to_be zero a p h = ap (λ k. of_be k p) (sym h)
of_be-to_be (suc n) a p h =
    ap (of_be 0) (append_assoc (to_be n (a / 256)) (a % 256 ∷ []) p)
    ∙ of_be-to_be n (a / 256) (a % 256 ∷ p) h
    ∙ ap (λ k. of_be k p) (omega arith)

data_key_bytes :
    (mem : List ℕ) (ino block_num : ℕ)
    → take 17 (data_key mem ino block_num)
      ≡ data_key_magic ∷ (to_be 8 ino ++ (to_be 8 block_num ++ []))
unfolding data_key to_be
data_key_bytes mem ino block_num = refl

data_key-IsKey :
    (mem : List ℕ) (ino block_num : ℕ) → IsKey (dbt_setup (data_key mem ino block_num) 17)
unfolding data_key to_be
data_key-IsKey mem ino block_num = omega arith

-- For inode and block numbers of 64 bits `env_keycmp` compares two data keys by the inode numbers, and
-- for one inode by the block numbers.
pub data_key_order :
    (mem mem' : List ℕ) (ino ino' block block' : ℕ)
    → ino < 2 ^ 64
    → ino' < 2 ^ 64
    → block < 2 ^ 64
    → block' < 2 ^ 64
    → env_keycmp (dbt_setup (data_key mem ino block) 17) (dbt_setup (data_key mem' ino' block') 17)
      ≡ elim (compare ino ino') [ lt ↦ lt | gt ↦ gt | eq ↦ compare block block' ]
unfolding lex
data_key_order mem mem' i i' b b' hi hi' hb hb' =
    env_keycmp-lex (dbt_setup (data_key mem i b) 17) (dbt_setup (data_key mem' i' b') 17)
      (data_key-IsKey mem i b) (data_key-IsKey mem' i' b')
    ∙ ap₂ lex (data_key_bytes mem i b) (data_key_bytes mem' i' b')
    ∙ lex-append_left (data_key_magic ∷ []) (to_be 8 i ++ (to_be 8 b ++ []))
        (to_be 8 i' ++ (to_be 8 b' ++ []))
    ∙ lex-to_be 8 i i' (to_be 8 b ++ []) (to_be 8 b' ++ []) (Fits-u64 i hi) (Fits-u64 i' hi')
    ∙ ground (arith, lex-to_be 8 b b' [] [] (Fits-u64 b hb) (Fits-u64 b' hb'))

get_ino-data_key :
    (mem : List ℕ) (ino block : ℕ)
    → lightfs_key_get_ino (data_key mem ino block) ≡ of_be 0 (to_be 8 ino ++ [])
unfolding lightfs_key_get_ino data_key to_be
get_ino-data_key mem ino block = refl

get_blocknum-data_key :
    (mem : List ℕ) (ino block : ℕ)
    → lightfs_data_key_get_blocknum (data_key mem ino block) 17 ≡ of_be 0 (to_be 8 block ++ [])
unfolding lightfs_data_key_get_blocknum data_key to_be
get_blocknum-data_key mem ino block = refl

pub data_key_ino :
    (mem : List ℕ) (ino block : ℕ)
    → ino < 2 ^ 64
    → lightfs_key_get_ino (data_key mem ino block) ≡ ino
unfolding of_be
data_key_ino mem ino block h =
    get_ino-data_key mem ino block ∙ of_be-to_be 8 ino [] (Fits-u64 ino h)

pub data_key_blocknum :
    (mem : List ℕ) (ino block : ℕ)
    → block < 2 ^ 64
    → lightfs_data_key_get_blocknum (data_key mem ino block) 17 ≡ block
unfolding of_be
data_key_blocknum mem ino block h =
    get_blocknum-data_key mem ino block ∙ of_be-to_be 8 block [] (Fits-u64 block h)

-- For inode and block numbers of 64 bits the accessors read both back from the key that
-- `alloc_data_dbt_from_ino` builds when there is memory, and `copy_data_dbt_from_inode` puts the same
-- bytes into a buffer of at least 17.
data_key_fields :
    (mem : List ℕ) (dbt : Dbt) (ino block : ℕ)
    → ino < 2 ^ 64
    → block < 2 ^ 64
    → 17 ≤ dbt.ulen
    → (made : Dbt) × (alloc_data_dbt_from_ino (some mem) ino block ≡ some made)
      × (lightfs_key_get_ino made.buf ≡ ino)
      × (lightfs_data_key_get_blocknum made.buf made.size ≡ block)
      × (copied : Dbt) × (copy_data_dbt_from_inode dbt ino block ≡ done copied)
      × (key_bytes copied ≡ key_bytes made)
unfolding alloc_data_dbt_from_ino copy_data_dbt_from_inode of_be
data_key_fields mem dbt ino block hi hb room = (
  dbt_setup (data_key mem ino block) 17,
  refl,
  data_key_ino mem ino block hi,
  data_key_blocknum mem ino block hb,
  record dbt { buf = data_key dbt.buf ino block; size = 17 },
  ground (arith, room),
  data_key_bytes dbt.buf ino block ∙ sym (data_key_bytes mem ino block),
)

-- The block number of a data key is set anew.
pub set_blocknum-data_key :
    (mem : List ℕ) (ino block next : ℕ)
    → lightfs_data_key_set_blocknum (data_key mem ino block) 17 next ≡ data_key mem ino next
unfolding data_key to_be
set_blocknum-data_key mem ino block next = refl
