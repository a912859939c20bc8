-- ===== src/Meta/Lookup.antt =====
-- `lightfs_lookup`, `lightfs_unlink`, `lightfs_do_unlink`, `lightfs_write_inode` and `lightfs_evict_inode`
-- of kevinfs/lightfs_super.c, up to the end of the transaction. What they do to the VFS's inodes and pages is left out, and `lightfs_setup_inode`
-- is taken to succeed.
use kevin.Base.{
  ℕ, zero, ◌+◌, ◌-◌, ◌%◌, ◌^◌, List, [], Option, none, some, Bool, true, false, ltb, ◌==◌, ◌||◌,
  if◌then◌else◌, ℤ, pos, negsuc, Outcome, done, bug, ◌>>=◌,
}
use kevin.Key.{Dbt}
use kevin.Key.Layout.{alloc_child_meta_dbt_from_inode, copy_meta_dbt_from_ino}
use kevin.Bstore.{lightfs_bstore_trunc}
use kevin.Bstore.OnePage.{enomem}
use kevin.RbTree.{RbLib}
use kevin.Txn.{DbTxn, lightfs_txn_init}
use kevin.Cache.{Cache, CacheHash, Child}
use kevin.Meta.{lightfs_bstore_meta_get, lightfs_bstore_meta_put, lightfs_bstore_meta_del}
use kevin.Meta.Names.{TxnEnd, committed, aborted}
use kevin.Meta.Readdir.{MetaLayout}

-- What a lookup gives to `d_splice_alias`: no inode, one with its key and metadata, or an error.
pub data Looked : Type 0 where
  no_inode : Looked
  inode_of : Dbt → List ℕ → Looked
  lookup_error : ℤ → Looked

abbrev pub is_enoent : ℤ → Bool
is_enoent (pos n) = false
is_enoent (negsuc n) = n == 1

-- The state after an eviction, with the calls of `del_multi`; without an end no transaction began.
pub record Evicted : Type 0 where
  pub cache : Cache
  pub end : Option TxnEnd
  pub calls : List (Dbt × ℕ)

-- `meta_key_is_root`, which looks at nothing.
abbrev pub meta_key_is_root : Bool
meta_key_is_root = true

-- The state after an unlink: the links of the inode and the size of the directory.
pub record Unlinked : Type 0 where
  pub cache : Cache
  pub end : Option TxnEnd
  pub i_nlink : ℕ
  pub dir_size : ℕ
  pub ret : ℤ

abbrev pub unlinked : Cache → Option TxnEnd → ℕ → ℕ → ℤ → Unlinked
unlinked c end i_nlink dir_size ret = record {
  cache = c;
  end = end;
  i_nlink = i_nlink;
  dir_size = dir_size;
  ret = ret;
}

module _ (hash : CacheHash) where
  module _ (layout : MetaLayout) (get : Dbt → Dbt → ℤ × Dbt) where
    -- The metadata that was found sets the inode up.
    abbrev pub normal_inode : Cache → Dbt → List ℕ → Outcome (Cache × Looked)
    normal_inode c key meta = if layout.type meta == 0 then done (c, inode_of key meta) else bug

    -- The second read, under the key of the inode that the entry redirects to.
    abbrev pub lookup_redirect : Cache → Dbt → List ℕ → Outcome (Cache × Looked)
    lookup_redirect c key meta = do
      key ← copy_meta_dbt_from_ino key (layout.ino meta)
      (c, r, meta) ← lightfs_bstore_meta_get hash get c key meta
      (if is_enoent r
          then bug
          else elim r [ pos zero ↦ normal_inode c key meta | other ↦ done (c, lookup_error other) ])

    -- `lightfs_lookup`; `mem_key` is the memory for the key, `meta` what the metadata holds before.
    unfoldable pub lightfs_lookup :
        Option (List ℕ) → Cache → ℕ → List ℕ → List ℕ → Outcome (Cache × Looked)
    lightfs_lookup mem_key c dir_ino name meta =
        elim (alloc_child_meta_dbt_from_inode mem_key dir_ino name) [
          | none ↦ done (c, lookup_error enomem)
          | some key ↦ do
            (c, r, meta) ← lightfs_bstore_meta_get hash get c key meta
            (if is_enoent r then done (c, no_inode) else elim r [
              | pos zero ↦
                  if layout.type meta == 1
                  then lookup_redirect c key meta
                  else normal_inode c key meta
              | other ↦ done (c, lookup_error other)
            ])
        ]

  module _ (lib : RbLib Child) where
    -- `lightfs_do_unlink`, for an inode's number and size; `mem` is the memory for the first data key.
    unfoldable pub lightfs_do_unlink :
        Option (List ℕ)
        → Cache
        → DbTxn
        → Dbt
        → ℕ
        → ℕ
        → Bool
        → Outcome (Cache × DbTxn × ℤ × List (Dbt × ℕ))
    lightfs_do_unlink mem c txn meta_dbt ino size true = do
      (c, txn, _) ← lightfs_bstore_meta_del hash lib c txn meta_dbt false true
      done (c, txn, pos 0, [])
    lightfs_do_unlink mem c txn meta_dbt ino size false = do
      (c, txn, ret) ← lightfs_bstore_meta_del hash lib c txn meta_dbt false false
      elim ret [
        | pos zero ↦ if size == 0 then done (c, txn, pos 0, []) else (do
          calls ← lightfs_bstore_trunc mem ino size 0 0
          elim calls [
            | none ↦ done (c, txn, enomem, [])
            | some calls ↦ done (c, txn, pos 0, calls)
          ])
        | other ↦ done (c, txn, other, [])
      ]

    -- `lightfs_evict_inode`; `deleted` is LIGHTFS_FLAG_DELETED.
    unfoldable pub lightfs_evict_inode :
        Option (List ℕ) → Cache → Dbt → ℕ → ℕ → ℕ → Bool → Bool → Outcome Evicted
    lightfs_evict_inode mem c meta_dbt ino size i_nlink deleted is_dir =
        if ltb 0 i_nlink || deleted
        then (do
          (c, _, _) ← lightfs_bstore_meta_del hash lib c lightfs_txn_init meta_dbt true is_dir
          done (record { cache = c; end = none; calls = [] }))
        else (do
          (c, txn, ret, calls) ← lightfs_do_unlink mem c lightfs_txn_init meta_dbt ino size is_dir
          elim ret [
            | pos zero ↦ done (record { cache = c; end = some (committed txn); calls = calls })
            | other ↦ done (record { cache = c; end = some aborted; calls = calls })
          ])

    -- `lightfs_write_inode`; `metadata` is the inode's. Without an end no transaction began.
    unfoldable pub lightfs_write_inode :
        List ℕ → List ℕ → Cache → Dbt → List ℕ → ℕ → Outcome (Cache × Option TxnEnd × ℤ)
    lightfs_write_inode mem page c meta_dbt metadata i_nlink =
        if i_nlink == 0 then done (c, none, pos 0) else (do
          (c, txn, ret) ←
              lightfs_bstore_meta_put hash lib mem page c lightfs_txn_init meta_dbt metadata none
                false
          elim ret [
            | pos zero ↦ done (c, some (committed txn), pos 0)
            | other ↦ done (c, some aborted, other)
          ])

    -- The part of `lightfs_unlink` that takes the name away, where the key is not the root's.
    unfoldable pub unlink_name :
        Option (List ℕ) → Cache → ℕ → List ℕ → Bool → Outcome (Cache × Option TxnEnd × ℤ)
    unlink_name mem_key c dir_ino name is_dir =
        if meta_key_is_root
        then done (c, none, pos 0)
        else elim (alloc_child_meta_dbt_from_inode mem_key dir_ino name) [
          | none ↦ done (c, none, enomem)
          | some key ↦ do
            (c, txn, ret) ← lightfs_bstore_meta_del hash lib c lightfs_txn_init key false is_dir
            elim ret [
              | pos zero ↦ done (c, some (committed txn), pos 0)
              | other ↦ done (c, some aborted, other)
            ]
        ]

    -- `lightfs_unlink`; `drop_nlink` is the VFS's, and a size is its 64 bits.
    unfoldable pub lightfs_unlink :
        (ℕ → ℕ) → Option (List ℕ) → Cache → ℕ → List ℕ → Bool → ℕ → ℕ → Outcome Unlinked
    lightfs_unlink drop_nlink mem_key c dir_ino name is_dir i_nlink dir_size = do
      (c, end, ret) ← unlink_name mem_key c dir_ino name is_dir
      let left = unlinked c end
      elim ret [
        | pos zero ↦ done (left (drop_nlink i_nlink) ((dir_size + 2 ^ 64 - 1) % 2 ^ 64) (pos 0))
        | other ↦ done (left i_nlink dir_size other)
      ]
