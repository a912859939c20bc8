-- ===== src/Meta.antt =====
-- The metadata calls of kevinfs/lightfs_bstore.c, which put the cache in front of the store, and the calls
-- of kevinfs/lightfs_super.c that create and rename by them. A `struct lightfs_metadata` is its bytes.
-- A write to the store joins the caller's transaction; what the store answers to a read is a parameter.
pub mod Cached
pub mod Names
pub mod Rename
pub mod Readdir
pub mod Listing
pub mod Counters
pub mod Ino
pub mod Lookup
pub mod Evict
use kevin.Base.{
  ℕ, zero, suc, ◌+◌, ◌*◌, ◌≤◌, ◌<◌, List, [], ◌∷◌, Option, none, some, Bool, true, false, ◌==◌, leb,
  ltb, if◌then◌else◌, ℤ, pos, negsuc, Outcome, done, ◌>>=◌, length,
}
use kevin.Key.{Dbt, dbt_setup}
use kevin.Key.Layout.{alloc_child_meta_dbt_from_inode}
use kevin.Bstore.OnePage.{enomem}
use kevin.RbTree.{RbLib}
use kevin.RbKv.{db_notfound}
use kevin.Txn.{ReqType, meta_set, meta_del, DbTxn, lightfs_txn_init}
use kevin.Txn.Insert.{lightfs_bstore_txn_insert}
use kevin.Cache.{
  Cache, CacheHash, Child, db_found_free, lightfs_ht_cache_get, lightfs_ht_cache_put,
  lightfs_ht_cache_del, lightfs_ht_cache_weak_del,
}

abbrev pub enoent : ℤ
enoent = negsuc 1

abbrev pub enotdir : ℤ
enotdir = negsuc 19

abbrev pub enotempty : ℤ
enotempty = negsuc 38

-- The two return values of the cache that the code names; any other is passed on.
pub data CacheAnswer : Type 0 where
  missing found_free other : CacheAnswer

abbrev pub cache_answer : ℤ → CacheAnswer
cache_answer (pos n) = other
cache_answer (negsuc n) = if n == 30988 then missing else (if n == 30986 then found_free else other)

module _ (hash : CacheHash) where
  -- `lightfs_bstore_meta_get`; `get` is `meta_db->get`. The cache, the return value, the metadata.
  unfoldable pub lightfs_bstore_meta_get :
      (Dbt → Dbt → ℤ × Dbt) → Cache → Dbt → List ℕ → Outcome (Cache × ℤ × List ℕ)
  lightfs_bstore_meta_get get c meta_dbt metadata = do
    (c, ret, value) ← lightfs_ht_cache_get hash c meta_dbt (dbt_setup metadata (length metadata))
    let answer = get meta_dbt (dbt_setup value.buf (length metadata))
    elim (cache_answer ret) [
      | missing ↦ done (c, enoent, value.buf)
      | found_free ↦ done (c, answer.0, answer.1.buf)
      | other ↦ done (c, ret, value.buf)
    ]

  -- `lightfs_bstore_meta_get_tmp`.
  unfoldable pub lightfs_bstore_meta_get_tmp : Cache → Dbt → List ℕ → Outcome (Cache × ℤ × List ℕ)
  lightfs_bstore_meta_get_tmp c meta_dbt metadata = do
    (c, ret, value) ← lightfs_ht_cache_get hash c meta_dbt (dbt_setup metadata (length metadata))
    elim (cache_answer ret) [
      | missing ↦ done (c, enoent, value.buf)
      | found_free ↦ done (c, pos 0, value.buf)
      | other ↦ done (c, ret, value.buf)
    ]

  module _ (lib : RbLib Child) where
    -- `lightfs_bstore_meta_put_cache`; `mem` is the cache's new buffer, `dir_key` the key of `dir_inode`.
    unfoldable pub lightfs_bstore_meta_put_cache :
        List ℕ → Cache → Dbt → List ℕ → Option Dbt → Bool → Outcome (Cache × ℤ)
    lightfs_bstore_meta_put_cache mem c meta_dbt metadata dir_key is_dir =
        lightfs_ht_cache_put hash lib mem c meta_dbt (dbt_setup metadata (length metadata)) dir_key
          is_dir

    -- `lightfs_bstore_meta_put_tmp`; `page` is the buffer of the request.
    unfoldable pub lightfs_bstore_meta_put_tmp : List ℕ → DbTxn → Dbt → List ℕ → DbTxn × ℤ
    lightfs_bstore_meta_put_tmp page txn meta_dbt metadata = (
      lightfs_bstore_txn_insert txn meta_dbt (some (dbt_setup metadata (length metadata))) page 0
          meta_set,
      pos 0,
    )

    -- `lightfs_bstore_meta_put`.
    unfoldable pub lightfs_bstore_meta_put :
        List ℕ
        → List ℕ
        → Cache
        → DbTxn
        → Dbt
        → List ℕ
        → Option Dbt
        → Bool
        → Outcome (Cache × DbTxn × ℤ)
    lightfs_bstore_meta_put mem page c txn meta_dbt metadata dir_key is_dir = do
      let value = dbt_setup metadata (length metadata)
      (c, _) ← lightfs_ht_cache_put hash lib mem c meta_dbt value dir_key is_dir
      done (c, lightfs_bstore_txn_insert txn meta_dbt (some value) page 0 meta_set, pos 0)

    -- `lightfs_bstore_meta_del`.
    unfoldable pub lightfs_bstore_meta_del :
        Cache → DbTxn → Dbt → Bool → Bool → Outcome (Cache × DbTxn × ℤ)
    lightfs_bstore_meta_del c txn meta_dbt true is_dir = do
      (c, _) ← lightfs_ht_cache_weak_del hash c meta_dbt
      done (c, txn, pos 0)
    lightfs_bstore_meta_del c txn meta_dbt false is_dir = do
      (c, _) ← lightfs_ht_cache_del hash lib c meta_dbt is_dir
      done (c, lightfs_bstore_txn_insert txn meta_dbt none [] 1 meta_del, pos 0)
