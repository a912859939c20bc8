-- ===== src/Bstore/Update.antt =====
-- What `env_update_cb` makes of a value.
use kevin.Base.{
  ℕ, ◌+◌, ◌-◌, ◌%◌, ◌^◌, ◌≤◌, ◌<◌, min, max, List, [], Option, none, some, true, false, ◌==◌, ltb,
  if◌then◌else◌, ◌≡◌, refl, inl, inr, ◌∙◌, arith, length, get_or, Bool-cases,
}
use kevin.Key.{Dbt, dbt_setup, memcpy}
use kevin.Key.Memory.{get_or-memcpy_inside}
use kevin.Bstore.{BlockUpdateCbInfo, truncated, overwritten, env_update_cb}
use kevin.Bstore.Padding.{old_byte, IsHeld, new_size, new_byte, pad, written_byte}

-- The result of a call that got its memory: a value of the new size, with each byte as it should be.
abbrev pub Sets : Option Dbt → BlockUpdateCbInfo → Option Dbt → Type 0
Sets old info out =
    (v : Dbt) × (out ≡ some v)
    × (v.size ≡ new_size old info)
    × ((i : ℕ) → i < new_size old info → get_or v.buf i 0 ≡ new_byte old info i)

module _ (kmalloc : ℕ → Option (List ℕ))
    (gives : (n : ℕ) → (mem : List ℕ) × (kmalloc n ≡ some mem) × (length mem ≡ n)) where
  overwritten-some :
      (old : Dbt) (info : BlockUpdateCbInfo)
      → old.size ≤ length old.buf
      → info.size ≤ length info.buf
      → new_size (some old) info < 2 ^ 32
      → (info.size == 0) ≡ false
      → Sets (some old) info (overwritten kmalloc (some old) info)
  unfolding overwritten new_size new_byte
  overwritten-some old info held have small writes =
      let reach = (info.offset + info.size) % 2 ^ 64 in
      let n = (if ltb reach old.size then old.size else reach) in
      let fits : max old.size (info.offset + info.size) < 2 ^ 32 = ground (arith, small, writes) in
      let size_is : n ≡ max old.size (info.offset + info.size) = ground (arith, fits) in
      let (mem, got, long) = gives n in
      let r1 : old.size ≤ length mem = omega (arith, long, size_is) in
      let r2 : info.offset + info.size ≤ length mem = omega (arith, long, size_is) in
      (
        dbt_setup (memcpy (pad mem old info held have r1 r2) info.offset info.buf info.size)
            (n % 2 ^ 32),
        ground (arith, got),
        ground (arith, size_is, writes, fits),
        λ i lt. written_byte mem old info held have r1 r2 i (ground (arith, lt, writes)),
      )

  -- Without an old value it is as with an empty one.
  abbrev empty : Dbt
  empty = dbt_setup [] 0

  overwritten-none :
      (info : BlockUpdateCbInfo)
      → overwritten kmalloc none info ≡ overwritten kmalloc (some empty) info
  unfolding overwritten
  overwritten-none info =
      let n = (info.offset + info.size) % 2 ^ 64 in
      let same : (if ltb n 0 then 0 else n) ≡ n = ground arith in
      let whole : info.offset - 0 ≡ info.offset = omega arith in
      let (mem, got, long) = gives n in ground (arith, same, whole, got)

  truncated_lem :
      (old : Option Dbt) (info : BlockUpdateCbInfo)
      → IsHeld old
      → new_size old info < 2 ^ 32
      → (info.size == 0) ≡ true
      → Sets old info (truncated kmalloc old info.offset)
  unfolding truncated new_size new_byte
  truncated_lem none info held small stops =
      (dbt_setup [] 0, refl, ground (arith, stops), λ i lt. absurd (ground (arith, stops, lt)))
  truncated_lem (some old) info held small stops =
      let n = (if ltb old.size info.offset then old.size else info.offset) in
      let fits : min old.size info.offset < 2 ^ 32 = ground (arith, small, stops) in
      let size_is : n ≡ min old.size info.offset = ground arith in
      let (mem, got, long) = gives n in
      (
        dbt_setup (memcpy mem 0 old.buf n) (n % 2 ^ 32),
        ground (arith, got),
        ground (arith, size_is, stops, fits),
        λ i lt.
            let less : i < n = ground (arith, stops, lt, size_is) in
            let byte =
              get_or-memcpy_inside mem 0 old.buf n i (omega (arith, long))
                (omega (arith, held, size_is)) (omega arith) (omega (arith, less)) in
            let place : i - 0 ≡ i = omega arith in
            ground (arith, byte, place, less, size_is, stops),
      )

  overwritten_lem :
      (old : Option Dbt) (info : BlockUpdateCbInfo)
      → IsHeld old
      → info.size ≤ length info.buf
      → new_size old info < 2 ^ 32
      → (info.size == 0) ≡ false
      → Sets old info (overwritten kmalloc old info)
  unfolding new_size new_byte
  overwritten_lem (some old) info held have small writes =
      overwritten-some old info held have small writes
  overwritten_lem none info held have small writes =
      let (v, e, size_is, byte_is) = overwritten-some empty info (omega arith) have small writes in
      (
        v,
        overwritten-none info ∙ e,
        size_is,
        λ i lt.
            let nothing : old_byte (some empty) i ≡ 0 = ground arith in
            ground (arith, byte_is i lt, nothing),
      )

  -- When memory is given, the old value and the update hold the bytes that their sizes speak of, and
  -- the new size fits the 32 bits of a value's size, `env_update_cb` sets a value of the new size.
  -- The new size of an update of size 0 is the smaller of the offset and the old size, which is 0
  -- without an old value; of any other update it is the larger of the old size and the update's end.
  -- Each byte of the value is the update's where the update writes, else the old value's, and zero
  -- where neither has one.
  pub env_update_cb_lem :
      (old : Option Dbt) (info : BlockUpdateCbInfo)
      → IsHeld old
      → info.size ≤ length info.buf
      → new_size old info < 2 ^ 32
      → Sets old info (env_update_cb kmalloc old info)
  unfolding env_update_cb
  env_update_cb_lem old info held have small = elim (Bool-cases (info.size == 0)) [
    | inl e ↦
        let (v, f, g, bytes) = truncated_lem old info held small e in
        (v, ground (arith, e, f), g, bytes)
    | inr e ↦
        let (v, f, g, bytes) = overwritten_lem old info held have small e in
        (v, ground (arith, e, f), g, bytes)
  ]
