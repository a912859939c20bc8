-- ===== src/Bstore/Padding.antt =====
-- The value that `env_update_cb` builds from an old one, byte by byte.
use kevin.Base.{
  ℕ, ◌+◌, ◌-◌, ◌≤◌, ◌<◌, min, max, List, Option, none, some, true, false, ◌==◌, ltb, leb,
  if◌then◌else◌, ◌&&◌, ◌≡◌, ◌⊎◌, inl, inr, ap, ◌∙◌, arith, length, get_or, Bool-cases,
  get_or-replicate, replicate, length-replicate, ltb→lt,
}
use kevin.Key.{Dbt, memcpy, memset}
use kevin.Key.Memory.{
  length-memcpy, length-memset, get_or-memcpy_before, get_or-memcpy_inside, get_or-memcpy_beyond,
}
use kevin.Bstore.{BlockUpdateCbInfo}

-- The old value's size and bytes; there are none without an old value.
abbrev pub old_size : Option Dbt → ℕ
old_size none = 0
old_size (some old) = old.size

abbrev pub old_byte : Option Dbt → ℕ → ℕ
old_byte none i = 0
old_byte (some old) i = if ltb i old.size then get_or old.buf i 0 else 0

-- The old value holds the bytes that its size speaks of.
abbrev pub IsHeld : Option Dbt → Type 0
IsHeld none = Unit
IsHeld (some old) = old.size ≤ length old.buf

-- The new value: truncated to the offset for a size of 0, else with the bytes from the offset on
-- overwritten, and zeros where neither had a byte.
unfoldable pub new_size : Option Dbt → BlockUpdateCbInfo → ℕ
new_size old info =
    if info.size == 0
    then min (old_size old) info.offset
    else max (old_size old) (info.offset + info.size)

unfoldable pub new_byte : Option Dbt → BlockUpdateCbInfo → ℕ → ℕ
new_byte old info i =
    if leb info.offset i && ltb i (info.offset + info.size)
    then get_or info.buf (i - info.offset) 0
    else old_byte old i

get_or-memset :
    (dst : List ℕ) (off n i : ℕ)
    → off + n ≤ length dst
    → off ≤ i
    → i < off + n
    → get_or (memset dst off 0 n) i 0 ≡ 0
get_or-memset dst off n i h le lt =
    get_or-memcpy_inside dst off (replicate n 0) n i h (omega (arith, length-replicate {A = ℕ} n 0))
      le lt
    ∙ get_or-replicate n 0 (i - off)

-- New memory with the old value, and zeros from its end to the offset.
abbrev pub padded : List ℕ → Dbt → ℕ → List ℕ
padded newval old offset =
    let newval = memcpy newval 0 old.buf old.size in
    if ltb old.size offset then memset newval old.size 0 (offset - old.size) else newval

module _ (newval : List ℕ) (old : Dbt) (offset : ℕ) (held : old.size ≤ length old.buf)
    (room : old.size ≤ length newval) (reach : offset ≤ length newval) where
  copied_length : length (memcpy newval 0 old.buf old.size) ≡ length newval
  copied_length = length-memcpy newval 0 old.buf old.size (omega (arith, room)) held

  copied_byte :
      (i : ℕ) → i < old.size → get_or (memcpy newval 0 old.buf old.size) i 0 ≡ get_or old.buf i 0
  copied_byte i lt =
      get_or-memcpy_inside newval 0 old.buf old.size i (omega (arith, room)) held (omega arith)
        (omega (arith, lt))
      ∙ ap (λ j. get_or old.buf j 0) (omega arith)

  -- The length, and the bytes of the old value and of the padding.
  padded-length : length (padded newval old offset) ≡ length newval
  padded-length = elim (Bool-cases (ltb old.size offset)) [
    | inl e ↦ ground (
      arith,
      e,
      copied_length,
      length-memset (memcpy newval 0 old.buf old.size) old.size 0 (offset - old.size)
          (omega (arith, ltb→lt old.size offset e, copied_length)),
    )
    | inr e ↦ ground (arith, e, copied_length)
  ]

  padded_old : (i : ℕ) → i < old.size → get_or (padded newval old offset) i 0 ≡ get_or old.buf i 0
  padded_old i lt = elim (Bool-cases (ltb old.size offset)) [
    | inl e ↦ ground (
      arith,
      e,
      copied_byte i lt,
      get_or-memcpy_before (memcpy newval 0 old.buf old.size) old.size
          (replicate (offset - old.size) 0) (offset - old.size) i
          (omega (arith, copied_length, room)) lt,
    )
    | inr e ↦ ground (arith, e, copied_byte i lt)
  ]

  padded_zero : (i : ℕ) → old.size ≤ i → i < offset → get_or (padded newval old offset) i 0 ≡ 0
  padded_zero i le lt =
      let more : ltb old.size offset ≡ true = ground (arith, le, lt) in
      ground (
        arith,
        more,
        get_or-memset (memcpy newval 0 old.buf old.size) old.size (offset - old.size) i
            (omega (arith, copied_length, reach, le, lt)) le (omega (arith, le, lt)),
      )

module _ (newval : List ℕ) (old : Dbt) (info : BlockUpdateCbInfo) (held : old.size ≤ length old.buf)
    (have : info.size ≤ length info.buf) (room : old.size ≤ length newval)
    (reach : info.offset + info.size ≤ length newval) where
  abbrev pub pad : List ℕ
  pad = padded newval old info.offset

  short : info.offset ≤ length newval
  short = omega (arith, reach)

  pad_long : length pad ≡ length newval
  pad_long = padded-length newval old info.offset held room short

  padded_byte :
      (i : ℕ) → (i < old.size) ⊎ (i < info.offset) → get_or pad i 0 ≡ old_byte (some old) i
  padded_byte i (inl lt) =
      ground (arith, lt, padded_old newval old info.offset held room short i lt)
  padded_byte i (inr lt) = elim (Bool-cases (ltb i old.size)) [
    | inl e ↦
        let less = ltb→lt i old.size e in
        ground (arith, e, padded_old newval old info.offset held room short i less)
    | inr e ↦
        let past : old.size ≤ i = ground (arith, e) in
        ground (arith, e, padded_zero newval old info.offset held room short i past lt)
  ]

  pub written_byte :
      (i : ℕ)
      → i < max old.size (info.offset + info.size)
      → get_or (memcpy pad info.offset info.buf info.size) i 0 ≡ new_byte (some old) info i
  unfolding new_byte
  written_byte i lt = elim (Bool-cases (ltb i info.offset)) [
    | inl e ↦
        let before = ltb→lt i info.offset e in
        let kept =
          get_or-memcpy_before pad info.offset info.buf info.size i (omega (arith, pad_long, reach))
            before in
        let out : leb info.offset i ≡ false = ground (arith, before) in
        ground (arith, out, kept, padded_byte i (inr before))
    | inr e ↦
        let from : info.offset ≤ i = ground (arith, e) in
        let reached : leb info.offset i ≡ true = ground (arith, from) in
        elim (Bool-cases (ltb i (info.offset + info.size))) [
          | inl f ↦
              let inside =
                get_or-memcpy_inside pad info.offset info.buf info.size i
                  (omega (arith, pad_long, reach)) have from
                  (ltb→lt i (info.offset + info.size) f) in
              ground (arith, reached, f, inside)
          | inr f ↦
              let past : info.offset + info.size ≤ i = ground (arith, f) in
              let kept =
                get_or-memcpy_beyond pad info.offset info.buf info.size i
                  (omega (arith, pad_long, reach)) have past in
              ground (arith, reached, f, kept, padded_byte i (inl (omega (arith, past, lt))))
        ]
  ]
