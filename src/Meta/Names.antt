-- ===== src/Meta/Names.antt =====
-- Renaming and creating in kevinfs/lightfs_super.c, up to the end of the transaction: `lightfs_rename`
-- and `lightfs_mknod`. What they do to the VFS's own inodes and dentries is left out, and
-- `lightfs_setup_inode` is taken to succeed. `mem_key` is the memory for a key, if there is any.
use kevin.Base.{
  ℕ, zero, List, Option, none, some, Bool, true, false, if◌then◌else◌, ℤ, pos, Outcome, done, ◌>>=◌,
}
use kevin.Key.{Dbt}
use kevin.Key.Layout.{alloc_child_meta_dbt_from_inode}
use kevin.Bstore.OnePage.{enomem}
use kevin.RbTree.{RbLib}
use kevin.Txn.{DbTxn, lightfs_txn_init}
use kevin.Cache.{Cache, CacheHash, Child}
use kevin.Meta.{enoent, enotdir, enotempty, lightfs_bstore_meta_put, lightfs_bstore_meta_del}

-- How the transaction ended: handed to the handler, or dropped.
pub data TxnEnd : Type 0 where
  committed : DbTxn → TxnEnd
  aborted : TxnEnd

-- `lightfs_dir_is_empty`, which returns before it looks.
abbrev pub lightfs_dir_is_empty : ℤ
lightfs_dir_is_empty = pos 1

-- The checks of `lightfs_rename` where the new name exists: the error, if there is one. `is_empty` is what
-- the variable holds that `lightfs_dir_is_empty` should set.
unfoldable pub rename_check : Bool → Option Bool → Bool → Option ℤ
rename_check old_is_dir none is_empty = none
rename_check true (some false) is_empty = some enotdir
rename_check true (some true) is_empty = elim lightfs_dir_is_empty [
  | pos zero ↦ if is_empty then none else some enotempty
  | other ↦ some other
]
rename_check false (some true) is_empty = some enotdir
rename_check false (some false) is_empty = none

-- The state after a rename, with the key that the old inode has then.
pub record Renamed : Type 0 where
  pub cache : Cache
  pub end : TxnEnd
  pub ret : ℤ
  pub meta_dbt : Dbt

-- The names of a rename: the directory's number and key, and the new name.
pub record Target : Type 0 where
  pub dir_ino : ℕ
  pub dir_key : Dbt
  pub name : List ℕ

module _ (hash : CacheHash) (lib : RbLib Child) where
  abbrev pub rename_aborted : Cache → Dbt → ℤ → Outcome Renamed
  rename_aborted c old ret = done (record { cache = c; end = aborted; ret = ret; meta_dbt = old })

  -- `lightfs_rename`.
  unfoldable pub lightfs_rename :
      Option (List ℕ)
      → List ℕ
      → List ℕ
      → Cache
      → Bool
      → Bool
      → Option Bool
      → Bool
      → Dbt
      → List ℕ
      → Target
      → Outcome Renamed
  lightfs_rename mem_key mem page c whiteout old_is_dir new_inode is_empty old metadata target =
      if whiteout
      then rename_aborted c old enoent
      else elim (rename_check old_is_dir new_inode is_empty) [
        | some err ↦ rename_aborted c old err
        | none ↦ elim (alloc_child_meta_dbt_from_inode mem_key target.dir_ino target.name) [
          | none ↦ rename_aborted c old enomem
          | some new ↦ do
            (c, txn, ret) ← lightfs_bstore_meta_del hash lib c lightfs_txn_init old false false
            elim ret [
              | pos zero ↦ do
                (c, txn, ret) ←
                    lightfs_bstore_meta_put hash lib mem page c txn new metadata
                      (some target.dir_key) false
                elim ret [
                  | pos zero ↦
                      done (record { cache = c; end = committed txn; ret = pos 0; meta_dbt = new })
                  | other ↦ rename_aborted c old other
                ]
              | other ↦ rename_aborted c old other
            ]
        ]
      ]

  -- `lightfs_mknod`; `ino_ret` is what `lightfs_next_ino` returned.
  unfoldable pub lightfs_mknod :
      Option (List ℕ)
      → List ℕ
      → List ℕ
      → Cache
      → ℤ
      → List ℕ
      → Bool
      → Target
      → Outcome (Cache × TxnEnd × ℤ)
  lightfs_mknod mem_key mem page c ino_ret metadata is_dir target =
      elim (alloc_child_meta_dbt_from_inode mem_key target.dir_ino target.name) [
        | none ↦ done (c, aborted, enomem)
        | some key ↦ elim ino_ret [
          | pos zero ↦ do
            (c, txn, ret) ←
                lightfs_bstore_meta_put hash lib mem page c lightfs_txn_init key metadata
                  (some target.dir_key) is_dir
            elim ret [
              | pos zero ↦ done (c, committed txn, pos 0)
              | other ↦ done (c, aborted, other)
            ]
          | other ↦ done (c, aborted, other)
        ]
      ]
