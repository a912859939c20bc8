-- ===== src/Cache.antt =====
-- kevinfs/lightfs_cache.c: the cache of metadata, a hash table whose directories keep their children in a
-- tree. An item is its address. One lock item stands in every bucket of `lightfs_ht_lock`
-- (`lightfs_cache_create` puts it there and only the close takes it out), so each loop over that bucket
-- is run once; a call holds it and the lock of a `dcache` for itself alone. GROUP_EVICTION is off.
pub mod Chain
pub mod Table
pub mod Map
pub mod Change
pub mod Calls
pub mod WeakDel
pub mod Del
pub mod Put
pub mod Insert
pub mod Plain
pub mod Cursor
use kevin.Base.{
  ℕ, ◌+◌, List, [], ◌∷◌, Option, none, some, Bool, true, false, Ordering, lt, eq, gt, ◌&&◌, ◌==◌,
  if◌then◌else◌, ℤ, pos, negsuc, Outcome, done, bug, ◌>>=◌,
}
use kevin.Key.{Dbt, memcpy, lightfs_keycmp, key_bytes}
use kevin.RbTree.{Tree, leaf, link, RbLib}
use kevin.RbKv.{dbt_copy, db_notfound}
use kevin.Txn.{add32}

-- The `rb_node` of an item in the tree of its directory, with the item's key, which no call changes.
pub record Child : Type 0 where
  pub item : ℕ
  pub key : Dbt

-- `struct dcache_entry`, without its lock.
pub record DcacheEntry : Type 0 where
  pub is_full : Bool
  pub rb_root : Tree Child
  pub child : ℕ
  pub e_child : ℕ

-- `struct ht_cache_item`, whose `hnode` is the place in the table's chain.
pub record HtCacheItem : Type 0 where
  pub key : Dbt
  pub value : Dbt
  pub is_weak_del : Bool
  pub is_evicted : Bool
  pub fp : ℕ
  pub dcache : Option DcacheEntry
  pub parent : Option ℕ

-- The memory of the items, the next free address, and the chains of `lightfs_ht_cache`.
pub record Cache : Type 0 where
  pub item_at : ℕ → Option HtCacheItem
  pub next : ℕ
  pub lightfs_ht_cache : ℕ → List ℕ

-- The tables after `lightfs_cache_create`.
abbrev pub lightfs_cache_create : Cache
lightfs_cache_create = record { item_at = λ i. none; next = 0; lightfs_ht_cache = λ b. [] }

-- <linux/crc32.h>, and `hash_min` of <linux/hashtable.h>, which chooses the bucket.
pub record CacheHash : Type 0 where
  pub crc32 : ℕ → List ℕ → ℕ
  pub hash_min : ℕ → ℕ

abbrev pub db_found_free : ℤ
db_found_free = negsuc 30986

abbrev pub db_notfound_dcache_full : ℤ
db_notfound_dcache_full = negsuc 30983

-- A function that is changed at one place.
abbrev pub upd {ℓ} : {A : Type ℓ} → (ℕ → A) → ℕ → A → ℕ → A
upd f i a j = if j == i then a else f j

-- A wild access where no item is.
abbrev pub deref : Cache → ℕ → Outcome HtCacheItem
deref c i = elim (c.item_at i) [ none ↦ bug | some item ↦ done item ]

abbrev pub write : Cache → ℕ → HtCacheItem → Cache
write c i item = record c { item_at = upd c.item_at i (some item) }

-- `p->dcache`, for `p` the parent of an item; a null pointer on the way is a fault.
abbrev pub dcache_of : Cache → ℕ → Outcome DcacheEntry
dcache_of c p = do item ← deref c p; elim item.dcache [ none ↦ bug | some d ↦ done d ]

abbrev pub set_dcache : Cache → ℕ → DcacheEntry → Outcome Cache
set_dcache c p d = do item ← deref c p; done (write c p (record item { dcache = some d }))

abbrev pub set_parent : Cache → ℕ → ℕ → Outcome Cache
set_parent c i p = do item ← deref c i; done (write c i (record item { parent = some p }))

-- `!lightfs_keycmp(...)`.
abbrev pub same_key : Dbt → Dbt → Bool
same_key a b = elim (lightfs_keycmp a.buf a.size b.buf b.size) [ eq ↦ true | _ ↦ false ]

-- The loop of `hash_for_each_possible` up to its `break` or `return`, on the rest of a chain.
unfoldable pub ht_find : Cache → ℕ → Dbt → List ℕ → Outcome (Option ℕ)
ht_find c fp key [] = done none
ht_find c fp key (i ∷ is) =
    let rest = ht_find c fp key is in
    do item ← deref c i; if item.fp == fp && same_key item.key key then done (some i) else rest

-- `lightfs_dcache_entry_init`.
abbrev pub lightfs_dcache_entry_init : DcacheEntry
lightfs_dcache_entry_init = record { is_full = true; rb_root = leaf; child = 0; e_child = 0 }

-- `_dbt_no_alloc_copy`.
abbrev pub dbt_no_alloc_copy : Dbt → Dbt → Dbt
dbt_no_alloc_copy to from = record to { buf = memcpy to.buf 0 from.buf from.size }

-- `_dbt_copy_meta`; `mem` is what the new buffer of INODE_SIZE bytes holds.
abbrev pub dbt_copy_meta : List ℕ → Dbt → Dbt
dbt_copy_meta mem from = record from { buf = memcpy mem 0 from.buf from.size }

-- `lightfs_ht_cache_item_init`, and the fields that `lightfs_ht_cache_put` sets next.
abbrev pub lightfs_ht_cache_item_init : List ℕ → Dbt → Dbt → ℕ → Bool → HtCacheItem
lightfs_ht_cache_item_init mem key value fp is_dir = record {
  key = dbt_copy key;
  value = dbt_copy_meta mem value;
  is_weak_del = false;
  is_evicted = false;
  fp = fp;
  dcache = if is_dir then some lightfs_dcache_entry_init else none;
  parent = none;
}

abbrev pub remove_id : ℕ → List ℕ → List ℕ
remove_id i [] = []
remove_id i (j ∷ js) = if j == i then js else j ∷ remove_id i js

module _ (hash : CacheHash) where
  -- `lightfs_ht_func` of a key, with FSEED and SSEED; the bucket and the fingerprint.
  abbrev pub bucket : Dbt → ℕ
  bucket key = hash.hash_min (hash.crc32 0 (key_bytes key))

  abbrev pub finger : Dbt → ℕ
  finger key = hash.crc32 17 (key_bytes key)

  unfoldable pub lookup : Cache → Dbt → Outcome (Option ℕ)
  lookup c key = ht_find c (finger key) key (c.lightfs_ht_cache (bucket key))

  -- `lightfs_ht_cache_get`: the cache, the return value and the caller's value.
  unfoldable pub lightfs_ht_cache_get : Cache → Dbt → Dbt → Outcome (Cache × ℤ × Dbt)
  lightfs_ht_cache_get c key value = do
    found ← lookup c key
    elim found [
      | none ↦ done (c, db_notfound, value)
      | some i ↦ do
        item ← deref c i
        let out = record value { buf = memcpy value.buf 0 item.value.buf value.size }
        elim (item.is_weak_del && item.is_evicted) [
          | true ↦ done (
            write c i (record item { is_weak_del = false; is_evicted = false }),
            db_found_free,
            out,
          )
          | false ↦ done (c, pos 0, out)
        ]
    ]

  -- `lightfs_dcache_invalidate`, whose return value nobody reads.
  unfoldable pub lightfs_dcache_invalidate : Cache → HtCacheItem → Outcome Cache
  lightfs_dcache_invalidate c node = elim node.parent [
    | none ↦ done c
    | some p ↦ do
      d ← dcache_of c p
      set_dcache c p (record d { is_full = true; e_child = add32 d.e_child 1 })
  ]

  -- `lightfs_ht_cache_weak_del`.
  unfoldable pub lightfs_ht_cache_weak_del : Cache → Dbt → Outcome (Cache × ℤ)
  lightfs_ht_cache_weak_del c key = do
    found ← lookup c key
    elim found [
      | none ↦ done (c, db_notfound)
      | some i ↦ do
        node ← deref c i
        c ← lightfs_dcache_invalidate c node
        item ← deref c i
        done (write c i (record item { is_weak_del = true; is_evicted = true }), pos 0)
    ]

  module _ (lib : RbLib Child) where
    -- `lightfs_dcache_insert`; the return value -1, for an equal key, changes nothing.
    unfoldable pub lightfs_dcache_insert : DcacheEntry → Child → DcacheEntry
    lightfs_dcache_insert d new =
        elim (link
          (λ (this : Child). lightfs_keycmp new.key.buf new.key.size this.key.buf this.key.size) new
          d.rb_root) [ none ↦ d | some t ↦ record d { rb_root = lib.rb_insert_color t new } ]

    -- The last loop of `lightfs_ht_cache_put`, without a `break`: the new item `new` joins every item
    -- of the rest of the chain whose key is `dir_key`.
    unfoldable pub join_dir : Cache → Child → Dbt → List ℕ → Outcome Cache
    join_dir c new dir_key [] = done c
    join_dir c new dir_key (p ∷ ps) = do
      dir ← deref c p
      elim (dir.fp == finger dir_key && same_key dir.key dir_key) [
        | false ↦ join_dir c new dir_key ps
        | true ↦ elim dir.dcache [
          | none ↦ bug
          | some d ↦ do
            c ← set_dcache c p (record (lightfs_dcache_insert d new) {
              child = add32 (lightfs_dcache_insert d new).child 1;
            })
            c ← set_parent c new.item p
            join_dir c new dir_key ps
        ]
      ]

    -- `lightfs_ht_cache_put`; `dir_key` is the key of `dir_inode`, if there is one.
    unfoldable pub lightfs_ht_cache_put :
        List ℕ → Cache → Dbt → Dbt → Option Dbt → Bool → Outcome (Cache × ℤ)
    lightfs_ht_cache_put mem c key value dir_key is_dir = do
      found ← lookup c key
      elim found [
        | some i ↦ do
          item ← deref c i
          done (
            write c i (record item {
              value = dbt_no_alloc_copy item.value value;
              is_weak_del = false;
              is_evicted = false;
            }),
            pos 0,
          )
        | none ↦ do
          let i = c.next
          let item = lightfs_ht_cache_item_init mem key value (finger key) is_dir
          let c = record c {
            item_at = upd c.item_at i (some item);
            next = i + 1;
            lightfs_ht_cache =
                upd c.lightfs_ht_cache (bucket key) (i ∷ c.lightfs_ht_cache (bucket key));
          }
          elim dir_key [
            | none ↦ done (c, pos 0)
            | some d ↦ do
              c ← join_dir c (record { item = i; key = item.key }) d (c.lightfs_ht_cache (bucket d))
              done (c, pos 0)
          ]
      ]

    -- `lightfs_dcache_del`.
    unfoldable pub lightfs_dcache_del : Cache → ℕ → HtCacheItem → Outcome Cache
    lightfs_dcache_del c i node = elim node.parent [
      | none ↦ bug
      | some p ↦ do
        d ← dcache_of c p
        set_dcache c p
            (record d { rb_root = lib.rb_erase d.rb_root (record { item = i; key = node.key }) })
    ]

    -- `lightfs_ht_cache_del`. `is_dir` only frees the directory's own `dcache`, which goes with the item.
    unfoldable pub lightfs_ht_cache_del : Cache → Dbt → Bool → Outcome (Cache × ℤ)
    lightfs_ht_cache_del c key is_dir = do
      found ← lookup c key
      elim found [
        | none ↦ done (c, db_notfound)
        | some i ↦ do
          node ← deref c i
          let c = record c {
            lightfs_ht_cache =
                upd c.lightfs_ht_cache (bucket key) (remove_id i (c.lightfs_ht_cache (bucket key)));
          }
          c ← lightfs_dcache_del c i node
          done (record c { item_at = upd c.item_at i none }, pos 0)
      ]
