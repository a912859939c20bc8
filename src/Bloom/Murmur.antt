-- ===== src/Bloom/Murmur.antt =====
-- kevinfs/murmur3.c: the 32-bit MurmurHash3 of a byte string. `uint32_t` arithmetic wraps at 2^32;
-- `blocks[i]` reads four bytes as a little-endian word, as on the machines the module is built for.
use Prim.Native.Nat.{bit_or, bit_xor}
use kevin.Base.{ℕ, zero, suc, ◌+◌, ◌-◌, ◌*◌, ◌/◌, ◌%◌, ◌^◌, List, ◌==◌, if◌then◌else◌, get_or, drop}

abbrev u32 : ℕ
u32 = 2 ^ 32

-- `ROTL32`.
rotl32 : ℕ → ℕ → ℕ
rotl32 x r = bit_or (x * 2 ^ r % u32) (x / 2 ^ (32 - r))

-- `blocks[i]`, for the block at the head of the bytes.
word_at : List ℕ → ℕ
word_at d = get_or d 0 0 + get_or d 1 0 * 2 ^ 8 + get_or d 2 0 * 2 ^ 16 + get_or d 3 0 * 2 ^ 24

-- `k1 *= c1; k1 = ROTL32(k1,15); k1 *= c2;`
scramble : ℕ → ℕ
unfolding rotl32
scramble k1 = rotl32 (k1 * 0xcc9e2d51 % u32) 15 * 0x1b873593 % u32

-- The loop over the blocks, four bytes at a time.
unfoldable pub murmur3_body : ℕ → List ℕ → ℕ → ℕ
unfolding scramble word_at
murmur3_body zero d h1 = h1
murmur3_body (suc n) d h1 =
    murmur3_body n (drop 4 d)
      ((rotl32 (bit_xor h1 (scramble (word_at d))) 13 * 5 + 0xe6546b64) % u32)

-- The `switch` on the bytes that are left, which falls through from 3 to 1.
unfoldable pub murmur3_tail : ℕ → List ℕ → ℕ → ℕ
unfolding scramble
murmur3_tail rest tail h1 =
    if rest == 0 then h1 else bit_xor h1 (scramble (bit_xor two (get_or tail 0 0)))
  where
    three : ℕ
    three = if rest == 3 then get_or tail 2 0 * 2 ^ 16 else 0

    two : ℕ
    two = if rest == 1 then 0 else bit_xor three (get_or tail 1 0 * 2 ^ 8)

-- The final mix.
unfoldable pub murmur3_mix : ℕ → ℕ
murmur3_mix h0 =
    let h1 = bit_xor h0 (h0 / 2 ^ 16) * 0x85ebca6b % u32 in
    let h2 = bit_xor h1 (h1 / 2 ^ 13) * 0xc2b2ae35 % u32 in bit_xor h2 (h2 / 2 ^ 16)

-- `*(uint32_t*)out = h1`, for `len` bytes of `key`.
unfoldable pub murmur3_hash32 : List ℕ → ℕ → ℕ → ℕ
unfolding murmur3_body murmur3_tail murmur3_mix
murmur3_hash32 key len seed =
    murmur3_mix (
      bit_xor (murmur3_tail (len % 4) (drop (len / 4 * 4) key) (murmur3_body (len / 4) key seed))
        (len % u32))
    % u32
