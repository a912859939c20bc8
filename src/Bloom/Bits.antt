-- ===== src/Bloom/Bits.antt =====
-- One bit of a byte vector: what a set bit reads as, and that setting another keeps it.
use Prim.Native.Nat.{bit_and, bit_or}
use kevin.Base.{
  ℕ, zero, suc, ◌-◌, ◌*◌, ◌/◌, ◌%◌, ◌^◌, ◌<◌, List, [], ◌∷◌, Bool, true, false, if◌then◌else◌, ◌&&◌,
  ◌==◌, not, ◌||◌, ltb, ◌≡◌, ◌≢◌, refl, arith, All, get_or, set, length, get_or-set_self,
  get_or-set_ne, length-set,
}
use native.Mathlib.Decide.{ℕ_discrete}
use kevin.Bloom.{bit_mask, bit_set, bit_get}

-- A test of every number under a bound.
every : (ℕ → Bool) → ℕ → Bool
every test zero = true
every test (suc bound) = if test bound then every test bound else false

of_every : (test : ℕ → Bool) (bound k : ℕ) → k < bound → every test bound ≡ true → test k ≡ true
unfolding every
of_every test zero k below passed = absurd (omega arith)
of_every test (suc bound) k below passed = ground (arith, of_every test bound k)

-- For a byte `b` and two bits of it: the bit just set is there, the byte stays one, and a bit that
-- was there still is.
good : ℕ → ℕ → ℕ → Bool
good b i j =
    not (bit_and (bit_or b (2 ^ i)) (2 ^ i) == 0)
    && ltb (bit_or b (2 ^ i)) 256
    && ((bit_and b (2 ^ j) == 0) || not (bit_and (bit_or b (2 ^ i)) (2 ^ j) == 0))

good_table : every (λ b. every (λ i. every (good b i) 8) 8) 256 ≡ true
unfolding every good
good_table = refl

good_all : (b i j : ℕ) → b < 256 → i < 8 → j < 8 → good b i j ≡ true
good_all b i j hb hi hj = of_every (good b i) 8 j hj (
    of_every (λ i. every (good b i) 8) 8 i hi
      (of_every (λ b. every (λ i. every (good b i) 8) 8) 256 b hb good_table))

set_bit : (b i : ℕ) → b < 256 → i < 8 → bit_and (bit_or b (2 ^ i)) (2 ^ i) ≢ 0
unfolding good
set_bit b i hb hi = ground (arith, good_all b i 0 hb hi (omega arith))

byte_or : (b i : ℕ) → b < 256 → i < 8 → bit_or b (2 ^ i) < 256
unfolding good
byte_or b i hb hi = ground (arith, good_all b i 0 hb hi (omega arith))

keep_bit :
    (b i j : ℕ)
    → b < 256
    → i < 8
    → j < 8
    → bit_and b (2 ^ j) ≢ 0
    → bit_and (bit_or b (2 ^ i)) (2 ^ j) ≢ 0
unfolding good
keep_bit b i j hb hi hj h = ground (arith, good_all b i j hb hi hj)

abbrev pub IsBytes : List ℕ → Type 0
IsBytes v = All (λ b. b < 256) v

byte_at : (v : List ℕ) (i : ℕ) → IsBytes v → get_or v i 0 < 256
byte_at [] i h = omega arith
byte_at (b ∷ v) zero h = h.0
byte_at (b ∷ v) (suc i) h = byte_at v i h.1

set-IsBytes : (v : List ℕ) (i b : ℕ) → b < 256 → IsBytes v → IsBytes (set v i b)
set-IsBytes [] i b hb h = tt
set-IsBytes (x ∷ v) zero b hb h = (hb, h.1)
set-IsBytes (x ∷ v) (suc i) b hb h = (h.0, set-IsBytes v i b hb h.1)

pub bit_set-IsBytes : (v : List ℕ) (n : ℕ) → IsBytes v → IsBytes (bit_set v n)
unfolding bit_set
bit_set-IsBytes v n h =
    set-IsBytes v (n / 8) _ (byte_or _ (7 - n % 8) (byte_at v (n / 8) h) (omega arith)) h

pub length-bit_set : (v : List ℕ) (n : ℕ) → length (bit_set v n) ≡ length v
unfolding bit_set
length-bit_set v n = length-set v (n / 8) _

-- A bit inside the vector reads as set once it is set.
pub bit_get-bit_set :
    (v : List ℕ) (n : ℕ) → IsBytes v → n < length v * 8 → bit_get (bit_set v n) n ≢ 0
unfolding bit_set bit_get
bit_get-bit_set v n h lt =
    rw (get_or-set_self v (n / 8) (bit_or (get_or v (n / 8) 0) (bit_mask n)) 0 (omega arith))
      (set_bit _ (7 - n % 8) (byte_at v (n / 8) h) (omega arith))

-- Setting a bit clears none.
pub bit_get-bit_set_other :
    (v : List ℕ) (n j : ℕ)
    → IsBytes v
    → n < length v * 8
    → bit_get v j ≢ 0
    → bit_get (bit_set v n) j ≢ 0
unfolding bit_set bit_get
bit_get-bit_set_other v n j h lt set_j = elim (ℕ_discrete (n / 8) (j / 8)) [
  | yes e ↦
      rw (← e, get_or-set_self v (n / 8) (bit_or (get_or v (n / 8) 0) (bit_mask n)) 0 (omega arith))
        (keep_bit _ (7 - n % 8) (7 - j % 8) (byte_at v (n / 8) h) (omega arith) (omega arith)
          (rw e set_j))
  | no e ↦ rw (get_or-set_ne v (n / 8) (j / 8) (bit_or (get_or v (n / 8) 0) (bit_mask n)) 0 e) set_j
]
