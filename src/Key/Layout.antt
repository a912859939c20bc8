-- ===== src/Key/Layout.antt =====
-- The layout of the keys: the accessors of kevinfs/lightfs_fs.h and the functions of
-- kevinfs/lightfs_super.c that build keys. A buffer of the allocator is an argument, `none` when there
-- is no memory. A size that does not fit in the caller's buffer is a BUG_ON.
use kevin.Base.{
  ℕ, zero, suc, ◌+◌, ◌-◌, ◌*◌, ◌/◌, ◌%◌, List, [], ◌∷◌, ◌++◌, Option, none, some, Outcome, done,
  bug, ltb, if◌then◌else◌, take, drop, length,
}
use kevin.Key.{Dbt, dbt_setup, memcpy}

abbrev pub meta_key_magic : ℕ
meta_key_magic = 109

abbrev pub data_key_magic : ℕ
data_key_magic = 100

abbrev pub ino_pos : ℕ
ino_pos = 1

abbrev pub path_pos : ℕ
path_pos = 9

abbrev pub bnum_pos : ℕ → ℕ
bnum_pos size = size - 8

-- `n` bytes of a number, the most significant first, and back.
unfoldable pub to_be : ℕ → ℕ → List ℕ
to_be zero v = []
to_be (suc n) v = to_be n (v / 256) ++ (v % 256 ∷ [])

unfoldable pub of_be : ℕ → List ℕ → ℕ
of_be acc [] = acc
of_be acc (x ∷ xs) = of_be (acc * 256 + x) xs

abbrev pub lightfs_key_set_magic : List ℕ → ℕ → List ℕ
lightfs_key_set_magic key magic = memcpy key 0 (magic ∷ []) 1

abbrev pub lightfs_key_set_ino : List ℕ → ℕ → List ℕ
lightfs_key_set_ino key ino = memcpy key ino_pos (to_be 8 ino) 8

unfoldable pub lightfs_key_get_ino : List ℕ → ℕ
lightfs_key_get_ino key = of_be 0 (take 8 (drop ino_pos key))

abbrev pub lightfs_data_key_set_blocknum : List ℕ → ℕ → ℕ → List ℕ
lightfs_data_key_set_blocknum key size block_num = memcpy key (bnum_pos size) (to_be 8 block_num) 8

unfoldable pub lightfs_data_key_get_blocknum : List ℕ → ℕ → ℕ
lightfs_data_key_get_blocknum key size = of_be 0 (take 8 (drop (bnum_pos size) key))

-- The key that the three functions for data keys write.
unfoldable pub data_key : List ℕ → ℕ → ℕ → List ℕ
data_key mem ino block_num =
    lightfs_data_key_set_blocknum
      (lightfs_key_set_ino (lightfs_key_set_magic mem data_key_magic) ino) 17 block_num

-- `alloc_data_dbt_from_ino`, and `alloc_data_dbt_from_inode` with the inode's number. `none` is
-- -ENOMEM.
unfoldable pub alloc_data_dbt_from_ino : Option (List ℕ) → ℕ → ℕ → Option Dbt
alloc_data_dbt_from_ino none ino block_num = none
alloc_data_dbt_from_ino (some mem) ino block_num = some (dbt_setup (data_key mem ino block_num) 17)

-- `copy_data_dbt_from_inode`.
unfoldable pub copy_data_dbt_from_inode : Dbt → ℕ → ℕ → Outcome Dbt
copy_data_dbt_from_inode dbt ino block_num =
    if ltb dbt.ulen 17
    then bug
    else done (record dbt { buf = data_key dbt.buf ino block_num; size = 17 })

-- `alloc_child_meta_dbt_from_inode`, for a name without its closing zero.
unfoldable pub alloc_child_meta_dbt_from_inode : Option (List ℕ) → ℕ → List ℕ → Option Dbt
alloc_child_meta_dbt_from_inode none ino name = none
alloc_child_meta_dbt_from_inode (some mem) ino name =
    let key = lightfs_key_set_ino (lightfs_key_set_magic mem meta_key_magic) ino in
    some (
      dbt_setup (memcpy key path_pos (name ++ (0 ∷ [])) (length name + 1))
        (path_pos + length name + 1))

-- `copy_meta_dbt_from_ino`.
unfoldable pub copy_meta_dbt_from_ino : Dbt → ℕ → Outcome Dbt
copy_meta_dbt_from_ino dbt ino =
    if ltb dbt.ulen 10
    then bug
    else (let key = lightfs_key_set_ino (lightfs_key_set_magic dbt.buf meta_key_magic) ino in
        done (record dbt { buf = memcpy key path_pos (0 ∷ []) 1; size = 10 }))
