-- ===== src/Bloom/Members.antt =====
-- The filter has no false negatives, whatever is added after a key.
use kevin.Base.{
  ℕ, zero, suc, ◌+◌, ◌*◌, ◌/◌, ◌%◌, ◌<◌, ◌≤◌, List, [], ◌∷◌, ◌≡◌, ◌≢◌, refl, arith, All, length,
  replicate, length-replicate,
}
use kevin.Bloom.{
  Bloomfilter, bit_set, bit_get, bit_at, set_loop, get_loop, bloomfilter_init, bloomfilter_set,
  bloomfilter_get,
}
use kevin.Bloom.Bits.{
  IsBytes, bit_set-IsBytes, length-bit_set, bit_get-bit_set, bit_get-bit_set_other,
}

-- There is a bit for every position, and the vector holds bytes.
pub record IsValid (f : Bloomfilter) : Type 0 where
  pub some_bits : 0 < f.m
  pub room : f.m ≤ length f.bit_vector * 8
  pub bytes : IsBytes f.bit_vector

zeros-IsBytes : (n : ℕ) → IsBytes (replicate n 0)
zeros-IsBytes zero = tt
zeros-IsBytes (suc n) = (omega arith, zeros-IsBytes n)

-- A filter of a positive number of bits that fills whole bytes starts valid.
pub bloomfilter_init-IsValid : (m k : ℕ) → 0 < m → m % 8 ≡ 0 → IsValid (bloomfilter_init m k)
unfolding bloomfilter_init
bloomfilter_init-IsValid m k pos whole = record {
  some_bits = pos;
  room = omega (arith, length-replicate (m / 8) (let z : ℕ = 0 in z));
  bytes = zeros-IsBytes (m / 8);
}

-- A vector that serves a filter of `m` bits.
abbrev Fits : ℕ → List ℕ → Type 0
Fits m v = IsBytes v × (m ≤ length v * 8)

bit_set-Fits : (m : ℕ) (v : List ℕ) (n : ℕ) → Fits m v → Fits m (bit_set v n)
bit_set-Fits m v n h = (bit_set-IsBytes v n h.0, omega (arith, length-bit_set v n, h.1))

module _ (m : ℕ) (key : List ℕ) (len : ℕ) (pos : 0 < m) where
  in_range : (i : ℕ) (v : List ℕ) → Fits m v → bit_at m key len i < length v * 8
  in_range i v h = omega arith

  set_loop-Fits : (rounds i : ℕ) (v : List ℕ) → Fits m v → Fits m (set_loop m key len rounds i v)
  unfolding set_loop
  set_loop-Fits zero i v h = h
  set_loop-Fits (suc rounds) i v h =
      set_loop-Fits rounds (i + 1) (bit_set v (bit_at m key len i))
        (bit_set-Fits m v (bit_at m key len i) h)

  -- The loop of `bloomfilter_set` clears no bit.
  set_loop_keeps :
      (rounds i : ℕ) (v : List ℕ) (j : ℕ)
      → Fits m v
      → bit_get v j ≢ 0
      → bit_get (set_loop m key len rounds i v) j ≢ 0
  unfolding set_loop
  set_loop_keeps zero i v j h e = e
  set_loop_keeps (suc rounds) i v j h e =
      set_loop_keeps rounds (i + 1) (bit_set v (bit_at m key len i)) j
        (bit_set-Fits m v (bit_at m key len i) h)
        (bit_get-bit_set_other v (bit_at m key len i) j h.0 (in_range i v h) e)

  -- Every bit of the key, from seed `i` on, is set in `v`.
  HasBits : ℕ → ℕ → List ℕ → Type 0
  HasBits zero i v = Unit
  HasBits (suc rounds) i v = (bit_get v (bit_at m key len i) ≢ 0) × HasBits rounds (i + 1) v

  set_loop-HasBits :
      (rounds i : ℕ) (v : List ℕ) → Fits m v → HasBits rounds i (set_loop m key len rounds i v)
  unfolding set_loop HasBits
  set_loop-HasBits zero i v h = tt
  set_loop-HasBits (suc rounds) i v h =
      let b = bit_at m key len i in
      (
        set_loop_keeps rounds (i + 1) (bit_set v b) b (bit_set-Fits m v b h)
            (bit_get-bit_set v b h.0 (in_range i v h)),
        set_loop-HasBits rounds (i + 1) (bit_set v b) (bit_set-Fits m v b h),
      )

  HasBits-mono :
      (v w : List ℕ)
      → ((j : ℕ) → bit_get v j ≢ 0 → bit_get w j ≢ 0)
      → (rounds i : ℕ) → HasBits rounds i v
      → HasBits rounds i w
  unfolding HasBits
  HasBits-mono v w keep zero i h = tt
  HasBits-mono v w keep (suc rounds) i h =
      (keep (bit_at m key len i) h.0, HasBits-mono v w keep rounds (i + 1) h.1)

  get_loop-HasBits :
      (rounds i : ℕ) (v : List ℕ) → HasBits rounds i v → get_loop m key len rounds i v ≡ 1
  unfolding get_loop HasBits
  get_loop-HasBits zero i v h = refl
  get_loop-HasBits (suc rounds) i v h = ground (arith, h.0, get_loop-HasBits rounds (i + 1) v h.1)

  HasBits-get_loop :
      (rounds i : ℕ) (v : List ℕ) → get_loop m key len rounds i v ≡ 1 → HasBits rounds i v
  unfolding get_loop HasBits
  HasBits-get_loop zero i v h = tt
  HasBits-get_loop (suc rounds) i v h = ground (arith, HasBits-get_loop rounds (i + 1) v)

-- Adding a key keeps the filter valid.
pub bloomfilter_set-IsValid :
    (f : Bloomfilter) (key : List ℕ) (len : ℕ) → IsValid f → IsValid (bloomfilter_set f key len)
unfolding bloomfilter_set
bloomfilter_set-IsValid f key len v =
    let fits = set_loop-Fits f.m key len v.some_bits f.k 0 f.bit_vector (v.bytes, v.room) in
    record { some_bits = v.some_bits; room = fits.1; bytes = fits.0 }

-- A key that was just added is found.
pub bloomfilter_get-set_self :
    (f : Bloomfilter) (key : List ℕ) (len : ℕ)
    → IsValid f
    → bloomfilter_get (bloomfilter_set f key len) key len ≡ 1
unfolding bloomfilter_set bloomfilter_get
bloomfilter_get-set_self f key len v =
    get_loop-HasBits f.m key len v.some_bits f.k 0 (set_loop f.m key len f.k 0 f.bit_vector)
      (set_loop-HasBits f.m key len v.some_bits f.k 0 f.bit_vector (v.bytes, v.room))

-- A key that is found is found after any other key is added.
pub bloomfilter_get-set_keeps :
    (f : Bloomfilter) (key : List ℕ) (len : ℕ) (other : List ℕ) (n : ℕ)
    → IsValid f
    → bloomfilter_get f key len ≡ 1
    → bloomfilter_get (bloomfilter_set f other n) key len ≡ 1
unfolding bloomfilter_set bloomfilter_get
bloomfilter_get-set_keeps f key len other n v h =
    let after = set_loop f.m other n f.k 0 f.bit_vector in
    get_loop-HasBits f.m key len v.some_bits f.k 0 after (
      HasBits-mono f.m key len v.some_bits f.bit_vector after
        (λ j e. set_loop_keeps f.m other n v.some_bits f.k 0 f.bit_vector j (v.bytes, v.room) e) f.k
        0 (HasBits-get_loop f.m key len v.some_bits f.k 0 f.bit_vector h))

-- The keys of a list, added in turn.
unfoldable pub add_keys : Bloomfilter → List (List ℕ × ℕ) → Bloomfilter
add_keys f [] = f
add_keys f ((key, len) ∷ keys) = add_keys (bloomfilter_set f key len) keys

abbrev pub Found : Bloomfilter → List ℕ × ℕ → Type 0
Found f (key, len) = bloomfilter_get f key len ≡ 1

add_keys_keeps :
    (f : Bloomfilter) (keys : List (List ℕ × ℕ)) (key : List ℕ) (len : ℕ)
    → IsValid f
    → bloomfilter_get f key len ≡ 1
    → bloomfilter_get (add_keys f keys) key len ≡ 1
unfolding add_keys
add_keys_keeps f [] key len v h = h
add_keys_keeps f ((other, n) ∷ keys) key len v h =
    add_keys_keeps (bloomfilter_set f other n) keys key len (bloomfilter_set-IsValid f other n v)
      (bloomfilter_get-set_keeps f key len other n v h)

-- From a valid filter, every key of a list that `bloomfilter_set` adds in turn is found by
-- `bloomfilter_get` afterwards, whatever hash values the keys have.
add_keys-Found :
    (f : Bloomfilter) (keys : List (List ℕ × ℕ)) → IsValid f → All (Found (add_keys f keys)) keys
unfolding add_keys
add_keys-Found f [] v = tt
add_keys-Found f ((key, len) ∷ keys) v = (
  add_keys_keeps (bloomfilter_set f key len) keys key len (bloomfilter_set-IsValid f key len v)
      (bloomfilter_get-set_self f key len v),
  add_keys-Found (bloomfilter_set f key len) keys (bloomfilter_set-IsValid f key len v),
)
