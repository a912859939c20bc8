-- ===== src/Bloom.antt =====
-- kevinfs/bloomfilter.c: the filter of the keys that a group transaction writes.
pub mod Murmur
pub mod Bits
pub mod Members
use Prim.Native.Nat.{bit_and, bit_or}
use kevin.Base.{
  ℕ, zero, suc, ◌+◌, ◌-◌, ◌/◌, ◌%◌, ◌^◌, List, Bool, true, false, ◌==◌, if◌then◌else◌, get_or, set,
  replicate,
}
use Murmur.{murmur3_hash32}

-- `struct bloomfilter`.
pub record Bloomfilter : Type 0 where
  pub m : ℕ
  pub k : ℕ
  pub bit_vector : List ℕ

-- `0x1 << (0x7 - (n & 0x7))`.
abbrev pub bit_mask : ℕ → ℕ
bit_mask n = 2 ^ (7 - n % 8)

unfoldable pub bit_set : List ℕ → ℕ → List ℕ
bit_set v n = set v (n / 8) (bit_or (get_or v (n / 8) 0) (bit_mask n))

unfoldable pub bit_get : List ℕ → ℕ → ℕ
bit_get v n = bit_and (get_or v (n / 8) 0) (bit_mask n)

unfoldable pub bloomfilter_init : ℕ → ℕ → Bloomfilter
bloomfilter_init m k = record { m = m; k = k; bit_vector = replicate (m / 8) 0 }

-- The position of the bit for seed `i`, in a filter of `m` bits.
abbrev pub bit_at : ℕ → List ℕ → ℕ → ℕ → ℕ
bit_at m key len i = murmur3_hash32 key len i % m

-- The two loops, with the rounds that are left, the counter `i` and the vector.
pub set_loop : ℕ → List ℕ → ℕ → ℕ → ℕ → List ℕ → List ℕ
set_loop m key len zero i v = v
set_loop m key len (suc rounds) i v =
    set_loop m key len rounds (i + 1) (bit_set v (bit_at m key len i))

pub get_loop : ℕ → List ℕ → ℕ → ℕ → ℕ → List ℕ → ℕ
get_loop m key len zero i v = 1
get_loop m key len (suc rounds) i v =
    let rest = get_loop m key len rounds (i + 1) v in
    if bit_get v (bit_at m key len i) == 0 then 0 else rest

unfoldable pub bloomfilter_set : Bloomfilter → List ℕ → ℕ → Bloomfilter
unfolding set_loop bit_set
bloomfilter_set f key len = record f { bit_vector = set_loop f.m key len f.k 0 f.bit_vector }

unfoldable pub bloomfilter_get : Bloomfilter → List ℕ → ℕ → ℕ
unfolding get_loop bit_get
bloomfilter_get f key len = get_loop f.m key len f.k 0 f.bit_vector
