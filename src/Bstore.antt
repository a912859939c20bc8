-- ===== src/Bstore.antt =====
-- The block store, kevinfs/lightfs_bstore.c, with the block arithmetic of kevinfs/lightfs_fs.h: files
-- as 4096-byte blocks from block 1 on, and directories' entries, as key-value pairs.
pub mod Padding
pub mod Update
pub mod Trunc
pub mod Scan
pub mod Pages
pub mod Callbacks
pub mod Read
pub mod OnePage
use kevin.Base.{
  ℕ, zero, suc, ◌+◌, ◌-◌, ◌/◌, ◌%◌, ◌^◌, List, [], ◌∷◌, Option, none, some, Bool, true, false,
  Outcome, done, ◌>>=◌, ◌==◌, ltb, if◌then◌else◌,
}
use kevin.Key.{Dbt, dbt_setup, memcpy, memset}
use kevin.Key.Layout.{alloc_data_dbt_from_ino, copy_data_dbt_from_inode}

abbrev pub lightfs_bstore_blocksize : ℕ
lightfs_bstore_blocksize = 4096

abbrev pub block_get_num_by_position : ℕ → ℕ
block_get_num_by_position position = position / lightfs_bstore_blocksize + 1

abbrev pub block_get_off_by_position : ℕ → ℕ
block_get_off_by_position position = position % lightfs_bstore_blocksize

abbrev pub lightfs_get_block_num_by_size : ℕ → ℕ
lightfs_get_block_num_by_size size =
    if size == 0 then 0 else (size - 1) / lightfs_bstore_blocksize + 1

-- `struct block_update_cb_info`.
pub record BlockUpdateCbInfo : Type 0 where
  pub offset : ℕ
  pub size : ℕ
  pub buf : List ℕ

-- The value that `env_update_cb` sets, `none` for -ENOMEM. `kmalloc` gives what new memory holds. A
-- `size_t` goes into the `uint32_t` of the value's size.
unfoldable pub truncated : (ℕ → Option (List ℕ)) → Option Dbt → ℕ → Option Dbt
truncated kmalloc none offset = some (dbt_setup [] 0)
truncated kmalloc (some old_val) offset =
    let newval_size = (if ltb old_val.size offset then old_val.size else offset) in
    elim (kmalloc newval_size) [
      | none ↦ none
      | some newval ↦
          some (dbt_setup (memcpy newval 0 old_val.buf newval_size) (newval_size % 2 ^ 32))
    ]

unfoldable pub overwritten : (ℕ → Option (List ℕ)) → Option Dbt → BlockUpdateCbInfo → Option Dbt
overwritten kmalloc none info =
    let newval_size = (info.offset + info.size) % 2 ^ 64 in
    elim (kmalloc newval_size) [
      | none ↦ none
      | some newval ↦
          let newval = (if ltb 0 info.offset then memset newval 0 0 info.offset else newval) in
          some (dbt_setup (memcpy newval info.offset info.buf info.size) (newval_size % 2 ^ 32))
    ]
overwritten kmalloc (some old_val) info =
    let newval_size = (info.offset + info.size) % 2 ^ 64 in
    let newval_size = (if ltb newval_size old_val.size then old_val.size else newval_size) in
    elim (kmalloc newval_size) [
      | none ↦ none
      | some newval ↦
          let newval = memcpy newval 0 old_val.buf old_val.size in
          let newval =
            (if ltb old_val.size info.offset
              then memset newval old_val.size 0 (info.offset - old_val.size)
              else newval) in
          some (dbt_setup (memcpy newval info.offset info.buf info.size) (newval_size % 2 ^ 32))
    ]

-- `env_update_cb`.
unfoldable pub env_update_cb : (ℕ → Option (List ℕ)) → Option Dbt → BlockUpdateCbInfo → Option Dbt
env_update_cb kmalloc old_val info =
    if info.size == 0
    then truncated kmalloc old_val info.offset
    else overwritten kmalloc old_val info

abbrev pub lightfs_txn_limit : ℕ
lightfs_txn_limit = 310

-- The loop of `lightfs_bstore_trunc`, for the rounds that are left: the calls of `del_multi`, each in a
-- transaction of its own, by first key and count. The calls and the commits return 0.
unfoldable pub trunc_loop : ℕ → ℕ → Dbt → ℕ → ℕ → Outcome (List (Dbt × ℕ))
trunc_loop ino zero key current_block_num total_block_num = done []
trunc_loop ino (suc rounds) key current_block_num total_block_num = elim (total_block_num == 0) [
  | true ↦ done []
  | false ↦ do
    let cnt = (if ltb lightfs_txn_limit total_block_num then lightfs_txn_limit else total_block_num)
    let next = current_block_num + cnt
    next_key ← copy_data_dbt_from_inode key ino next
    rest ← trunc_loop ino rounds next_key next (total_block_num - cnt)
    done ((key, cnt) ∷ rest)
]

-- The first block that is deleted.
abbrev pub trunc_from : ℕ → ℕ → ℕ
trunc_from new_num offset = if new_num == 0 then 1 else if offset == 0 then new_num else new_num + 1

-- `lightfs_bstore_trunc`, for an inode's number and size; `none` when the memory for the first key is
-- not there (-ENOMEM).
unfoldable pub lightfs_bstore_trunc :
    Option (List ℕ) → ℕ → ℕ → ℕ → ℕ → Outcome (Option (List (Dbt × ℕ)))
lightfs_bstore_trunc mem ino size new_num offset =
    let current_block_num = trunc_from new_num offset in
    let last_block_num = lightfs_get_block_num_by_size size in
    let total_block_num = (last_block_num + 2 ^ 64 - current_block_num + 1) % 2 ^ 64 in
    elim (alloc_data_dbt_from_ino mem ino current_block_num) [
      | none ↦ done none
      | some key ↦ do
        calls ← trunc_loop ino total_block_num key current_block_num total_block_num
        done (some calls)
    ]

-- The part of `lightfs_setattr` (kevinfs/lightfs_super.c) that shrinks a file of `size` to `ia_size`.
unfoldable pub setattr_trunc : Option (List ℕ) → ℕ → ℕ → ℕ → Outcome (Option (List (Dbt × ℕ)))
setattr_trunc mem ino size ia_size =
    lightfs_bstore_trunc mem ino size (block_get_num_by_position ia_size)
      (block_get_off_by_position ia_size)
