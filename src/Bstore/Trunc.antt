-- ===== src/Bstore/Trunc.antt =====
-- Which blocks `lightfs_bstore_trunc` deletes.
use kevin.Base.{
  ℕ, zero, suc, ◌+◌, ◌-◌, ◌/◌, ◌%◌, ◌^◌, ◌≤◌, ◌<◌, List, [], ◌∷◌, some, done, ◌==◌, ltb, leb,
  if◌then◌else◌, ◌&&◌, ◌≡◌, refl, arith, All, Bool-cases, inl, inr,
}
use kevin.Key.{Dbt, dbt_setup}
use kevin.Key.Layout.{
  data_key, alloc_data_dbt_from_ino, copy_data_dbt_from_inode, lightfs_key_get_ino,
  lightfs_data_key_get_blocknum,
}
use kevin.Key.Data.{data_key_ino, data_key_blocknum}
use kevin.Bstore.{
  trunc_loop, trunc_from, lightfs_get_block_num_by_size, lightfs_bstore_trunc, setattr_trunc,
}

-- How often the calls delete a block.
unfoldable pub deletions : ℕ → List (Dbt × ℕ) → ℕ
deletions block [] = 0
deletions block ((key, cnt) ∷ calls) =
    let first = lightfs_data_key_get_blocknum key.buf key.size in
    (if leb first block && ltb block (first + cnt) then 1 else 0) + deletions block calls

-- A call deletes between 1 and 310 blocks of the inode.
abbrev pub IsCall : ℕ → Dbt × ℕ → Type 0
IsCall ino (key, cnt) = (lightfs_key_get_ino key.buf ≡ ino) × (1 ≤ cnt) × (cnt ≤ 310)

-- A key with room for another data key.
record IsDataKey (ino block : ℕ) (key : Dbt) : Type 0 where
  pub room : 17 ≤ key.ulen
  pub ino_is : lightfs_key_get_ino key.buf ≡ ino
  pub block_is : lightfs_data_key_get_blocknum key.buf key.size ≡ block

next_key :
    (ino block : ℕ) (key : Dbt)
    → ino < 2 ^ 64
    → block < 2 ^ 64
    → 17 ≤ key.ulen
    → (next : Dbt) × (copy_data_dbt_from_inode key ino block ≡ done next) × IsDataKey ino block next
unfolding copy_data_dbt_from_inode
next_key ino block key hi hb room = (
  record key { buf = data_key key.buf ino block; size = 17 },
  ground (arith, room),
  record {
    room = room;
    ino_is = data_key_ino key.buf ino block hi;
    block_is = data_key_blocknum key.buf ino block hb;
  },
)

-- A list of calls that deletes each block from `first` on, before `past`, once.
record Covers (ino first past : ℕ) (calls : List (Dbt × ℕ)) : Type 0 where
  pub are_calls : All (IsCall ino) calls
  pub covered : (b : ℕ) → deletions b calls ≡ (if leb first b && ltb b past then 1 else 0)

trunc_loop-Covers :
    (ino rounds : ℕ) (key : Dbt) (first total : ℕ)
    → ino < 2 ^ 64
    → total ≤ rounds
    → first + total < 2 ^ 64
    → IsDataKey ino first key
    → (calls : List (Dbt × ℕ)) × (trunc_loop ino rounds key first total ≡ done calls)
      × Covers ino first (first + total) calls
unfolding trunc_loop deletions
trunc_loop-Covers ino zero key first total hi le small k =
    ([], refl, record { are_calls = tt; covered = λ b. ground arith })
trunc_loop-Covers ino (suc rounds) key first total hi le small k = elim (Bool-cases (total == 0)) [
  | inl e ↦ ([], ground (arith, e), record { are_calls = tt; covered = λ b. ground (arith, e) })
  | inr e ↦
      let cnt = (if ltb 310 total then 310 else total) in
      let bounds : (1 ≤ cnt) × (cnt ≤ 310) × (cnt ≤ total) = ground (arith, e) in
      let (next, copied, k') = next_key ino (first + cnt) key hi (omega (arith, bounds)) k.room in
      let (calls, looped, c) =
        trunc_loop-Covers ino rounds next (first + cnt) (total - cnt) hi (omega (arith, bounds, le))
          (omega (arith, bounds, small)) k' in
      (
        (key, cnt) ∷ calls,
        ground (arith, e, copied, looped),
        record {
          are_calls = ((k.ino_is, bounds.0, bounds.1), c.are_calls);
          covered = λ b. ground (arith, c.covered b, k.block_is, bounds);
        },
      )
]

-- Shrinking a file of an inode to a smaller size, where there is memory for a key, ends with calls that
-- delete each block behind the last one that the new size needs, up to the last one that the old
-- size needed, exactly once and no other block; each call is for between 1 and 310 blocks of the inode.
pub setattr_trunc_lem :
    (mem : List ℕ) (ino size ia_size : ℕ)
    → ino < 2 ^ 64
    → size < 2 ^ 63
    → ia_size < size
    → (calls : List (Dbt × ℕ)) × (setattr_trunc (some mem) ino size ia_size ≡ done (some calls))
      × All (IsCall ino) calls
      × ((b : ℕ)
          → deletions b calls ≡ (
              if ltb (lightfs_get_block_num_by_size ia_size) b
                && leb b (lightfs_get_block_num_by_size size)
              then 1
              else 0))
unfolding setattr_trunc lightfs_bstore_trunc alloc_data_dbt_from_ino
setattr_trunc_lem mem ino size ia_size hi small shrinks =
    let first = trunc_from (ia_size / 4096 + 1) (ia_size % 4096) in
    let last = lightfs_get_block_num_by_size size in
    let total = (last + 2 ^ 64 - first + 1) % 2 ^ 64 in
    let from : first ≡ lightfs_get_block_num_by_size ia_size + 1 = ground arith in
    let order : lightfs_get_block_num_by_size ia_size ≤ last = ground (arith, shrinks) in
    let bound : last < 2 ^ 52 = ground (arith, small) in
    let count : first + total ≡ last + 1 = omega (arith, from, order, bound) in
    let key : Dbt = dbt_setup (data_key mem ino first) 17 in
    let (calls, looped, c) =
      trunc_loop-Covers ino total key first total hi (omega arith) (omega (arith, count, bound))
        (record {
          room = omega arith;
          ino_is = data_key_ino mem ino first hi;
          block_is = data_key_blocknum mem ino first (omega (arith, from, order, bound));
        }) in
    (calls, ground (arith, looped), c.are_calls, λ b. ground (arith, c.covered b, from, count))
