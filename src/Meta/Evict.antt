-- ===== src/Meta/Evict.antt =====
-- Lookups after the calls that make a name and that take it away: `lightfs_mknod`, `lightfs_write_inode`,
-- `lightfs_unlink`, `lightfs_evict_inode` and `lightfs_lookup` of kevinfs/lightfs_super.c.
use kevin.Base.{
  ℕ, ◌+◌, ◌-◌, ◌%◌, ◌<◌, ◌^◌, List, [], Option, none, some, Bool, false, ltb, leb, ◌&&◌,
  if◌then◌else◌, ℤ, pos, done, ◌≡◌, ◌≢◌, refl, ap, ◌∙◌, arith, length, All,
}
use kevin.Key.{Dbt, IsKey, key_bytes, dbt_setup, memcpy}
use kevin.Key.Layout.{alloc_child_meta_dbt_from_inode}
use kevin.Key.Order.{lex_refl}
use kevin.Bstore.{lightfs_get_block_num_by_size, lightfs_bstore_trunc, setattr_trunc}
use kevin.Bstore.Trunc.{deletions, IsCall, setattr_trunc_lem}
use kevin.RbTree.{RbLib}
use kevin.Txn.{meta_set, meta_del, lightfs_txn_init}
use kevin.Txn.Insert.{lightfs_bstore_txn_insert}
use kevin.Cache.{Cache, CacheHash, Child, HtCacheItem}
use kevin.Cache.Chain.{Entry}
use kevin.Cache.Map.{IsValid, contents}
use kevin.Cache.Calls.{place}
use kevin.Cache.Del.{Childless, lightfs_ht_cache_del-Dels}
use kevin.Cache.WeakDel.{evicted, lightfs_ht_cache_weak_del-WeakDels}
use kevin.Cache.Insert.{CanJoin, stored, lightfs_ht_cache_put-Puts}
use kevin.Meta.{lightfs_bstore_meta_put, lightfs_bstore_meta_del}
use kevin.Meta.Cached.{answer_of, stored-flags, stored-value, lightfs_bstore_meta_get_lem}
use kevin.Meta.Names.{Target, committed, lightfs_mknod}
use kevin.Meta.Readdir.{MetaLayout}
use kevin.Meta.Lookup.{
  no_inode, inode_of, Unlinked, unlinked, Evicted, unlink_name, lightfs_lookup, lightfs_unlink,
  lightfs_do_unlink, lightfs_write_inode, lightfs_evict_inode,
}

-- A truncation to no blocks is one to size 0.
trunc_all :
    (mem : List ℕ) (ino size : ℕ)
    → lightfs_bstore_trunc (some mem) ino size 0 0 ≡ setattr_trunc (some mem) ino size 0
unfolding lightfs_bstore_trunc setattr_trunc
trunc_all mem ino size = refl

module _ (hash : CacheHash) (layout : MetaLayout) (get : Dbt → Dbt → ℤ × Dbt) (c : Cache)
    (v : IsValid hash c) (key : Dbt) (is_key : IsKey key) (mem : Option (List ℕ)) (ino : ℕ)
    (name out : List ℕ) (named : alloc_child_meta_dbt_from_inode mem ino name ≡ some key) where
  -- A name without an entry has no inode.
  lookup_none :
      contents hash c (key_bytes key) ≡ none
      → (c' : Cache) × (lightfs_lookup hash layout get mem c ino name out ≡ done (c', no_inode))
        × IsValid hash c'
  unfolding lightfs_lookup
  lookup_none free =
      let (c', run, v', _) = lightfs_bstore_meta_get_lem hash c v key is_key get out in
      (c', ground (arith, named, run, free), v')

  -- A name whose entry answers with normal metadata has their inode.
  lookup_some :
      (m : List ℕ)
      → answer_of get key out (contents hash c (key_bytes key)) ≡ (pos 0, m)
      → layout.type m ≡ 0
      → (c' : Cache) × (lightfs_lookup hash layout get mem c ino name out
          ≡ done (c', inode_of key m))
        × IsValid hash c'
  unfolding lightfs_lookup
  lookup_some m a normal =
      let (c', run, v', _) = lightfs_bstore_meta_get_lem hash c v key is_key get out in
      (c', ground (arith, named, run, a, normal), v')

module _ (hash : CacheHash) (lib : RbLib Child) (layout : MetaLayout) (get : Dbt → Dbt → ℤ × Dbt)
    (c : Cache) (v : IsValid hash c) (key key' : Dbt) (is_key : IsKey key) (is_key' : IsKey key')
    (same : key_bytes key' ≡ key_bytes key) (mem_key mem_key' : Option (List ℕ))
    (out : List ℕ) where
  -- From a valid cache `lightfs_mknod` with memory for its key and an inode number ends with 0 and
  -- commits the write of the metadata under the new key, when the key is in bounds and the
  -- directory has another key in bounds under which all items are directories. A `lightfs_lookup`
  -- of the name after it, with memory for the same key and as many bytes, finds the inode with the
  -- metadata that were given, when their type is the normal one, and leaves a valid cache.
  pub lightfs_lookup-lightfs_mknod :
      (mem page : List ℕ) (m : List ℕ) (is_dir : Bool) (target : Target)
      → alloc_child_meta_dbt_from_inode mem_key target.dir_ino target.name ≡ some key
      → alloc_child_meta_dbt_from_inode mem_key' target.dir_ino target.name ≡ some key'
      → CanJoin c key (some target.dir_key)
      → length out ≡ length m
      → layout.type m ≡ 0
      → (c' : Cache) × (c'' : Cache) × (lightfs_mknod hash lib mem_key mem page c
            (pos 0)
            m
            is_dir
            target
          ≡ done (
            c',
            committed (
                lightfs_bstore_txn_insert lightfs_txn_init key
                  (some (dbt_setup m (length m)))
                  page
                  0
                  meta_set),
            pos 0,
          ))
        × (lightfs_lookup hash layout get mem_key' c' target.dir_ino target.name out
            ≡ done (c'', inode_of key' m))
        × IsValid hash c''
  unfolding lightfs_mknod lightfs_bstore_meta_put
  lightfs_lookup-lightfs_mknod mem page m is_dir target a b can wide normal =
      let value = dbt_setup m (length m) in
      let o = contents hash c (key_bytes key) in
      let (r, run, p) =
        lightfs_ht_cache_put-Puts hash lib mem c v key is_key value is_dir (some target.dir_key)
          can in
      let there : contents hash r.0 (key_bytes key') ≡ some (stored hash mem key value o) =
        ground (arith, same, p.reads (key_bytes key), lex_refl (key_bytes key)) in
      let answer : answer_of get key' out (contents hash r.0 (key_bytes key')) ≡ (pos 0, m) =
        ground (
          arith,
          there,
          stored-flags hash lib c v mem key value o,
          stored-value hash lib c v mem key m out o wide,
        ) in
      let (c'', found, v'') =
        lookup_some hash layout get r.0 p.valid key' is_key' mem_key' target.dir_ino target.name out
          b m answer normal in
      (r.0, c'', ground (arith, a, run), found, v'')

  -- `lightfs_unlink` of a regular file's last link, with the `drop_nlink` of the VFS taking 1 to 0,
  -- ends with 0 and leaves the cache and the store as they are. From a valid cache a
  -- `lightfs_evict_inode` after it, with memory for the first data key, commits the deletion of the
  -- metadata and deletes each block from 1 to the last of the file's size exactly once and no other
  -- block, in calls of 1 to 310 blocks of the inode, when the file is not empty, its key has an
  -- entry, in bounds, whose item has a parent and no children, and number and size are in range. A
  -- `lightfs_lookup` of the name after that, with memory for the same key, finds no inode and
  -- leaves a valid cache.
  pub lightfs_lookup-lightfs_evict_inode :
      (drop_nlink : ℕ → ℕ) (mem : List ℕ) (ino size dir_ino dir_size : ℕ) (name : List ℕ)
      (e : Entry)
      → drop_nlink 1 ≡ 0
      → alloc_child_meta_dbt_from_inode mem_key' dir_ino name ≡ some key'
      → ino < 2 ^ 64
      → size < 2 ^ 63
      → 0 < size
      → contents hash c (key_bytes key) ≡ some e
      → ((i : ℕ) (x : HtCacheItem)
          → place hash c v key is_key ≡ some i
          → c.item_at i ≡ some x
          → (x.parent ≢ none) × Childless c i)
      → (u : Unlinked) × (r : Evicted) × (c' : Cache) × (lightfs_unlink hash lib drop_nlink mem_key
            c dir_ino name false 1 dir_size
          ≡ done u)
        × (u.ret ≡ pos 0)
        × (u.cache ≡ c)
        × (u.end ≡ none)
        × (lightfs_evict_inode hash lib (some mem) u.cache key ino size u.i_nlink false false
            ≡ done r)
        × (r.end
            ≡ some (committed (lightfs_bstore_txn_insert lightfs_txn_init key none [] 1 meta_del)))
        × All (IsCall ino) r.calls
        × ((b : ℕ)
            → deletions b r.calls
              ≡ (if ltb 0 b && leb b (lightfs_get_block_num_by_size size) then 1 else 0))
        × (lightfs_lookup hash layout get mem_key' r.cache dir_ino name out ≡ done (c', no_inode))
        × IsValid hash c'
  unfolding lightfs_unlink unlink_name lightfs_evict_inode lightfs_do_unlink lightfs_bstore_meta_del
  lightfs_lookup-lightfs_evict_inode drop_nlink mem ino size dir_ino dir_size name e last b hi small
        some_size there safe =
      let (r, run, d) = lightfs_ht_cache_del-Dels hash c v key is_key lib false safe in
      let (calls, cut, are_calls, covered) = setattr_trunc_lem mem ino size 0 hi small some_size in
      let trunc : lightfs_bstore_trunc (some mem) ino size 0 0 ≡ done (some calls) =
        trunc_all mem ino size ∙ cut in
      let gone : contents hash r.0 (key_bytes key') ≡ none =
        ground (arith, same, d.reads (key_bytes key), lex_refl (key_bytes key)) in
      let (c', unnamed, v') =
        lookup_none hash layout get r.0 d.valid key' is_key' mem_key' dir_ino name out b gone in
      (
        unlinked c none (drop_nlink 1) ((dir_size + 2 ^ 64 - 1) % 2 ^ 64) (pos 0),
        record {
          cache = r.0;
          end =
              some (committed (lightfs_bstore_txn_insert lightfs_txn_init key none [] 1 meta_del));
          calls = calls;
        },
        c',
        refl,
        refl,
        refl,
        refl,
        ground (arith, last, run, trunc, some_size),
        refl,
        are_calls,
        covered,
        unnamed,
        v',
      )

  -- From a valid cache `lightfs_write_inode` of an inode with links, whose key is in bounds, ends
  -- with 0 and commits the write of its metadata; a `lightfs_evict_inode` after it begins no
  -- transaction; and a `lightfs_lookup` of the name after that, with memory for the same key, asks
  -- the store: where the store answers with the metadata that were written, and their type is the
  -- normal one, it finds the inode with these metadata, and leaves a valid cache.
  pub lightfs_lookup-lightfs_write_inode :
      (mem page m : List ℕ) (ino size dir_ino : ℕ) (name : List ℕ) (i_nlink : ℕ) (is_dir : Bool)
      → alloc_child_meta_dbt_from_inode mem_key' dir_ino name ≡ some key'
      → 0 < i_nlink
      → ((value : Dbt) → get key' value ≡ (pos 0, record value { buf = m }))
      → layout.type m ≡ 0
      → (c' : Cache) × (r : Evicted) × (c'' : Cache) × (lightfs_write_inode hash lib mem page c key
            m i_nlink
          ≡ done (
            c',
            some (
                committed (
                  lightfs_bstore_txn_insert lightfs_txn_init key
                    (some (dbt_setup m (length m)))
                    page
                    0
                    meta_set)),
            pos 0,
          ))
        × (lightfs_evict_inode hash lib none c' key ino size i_nlink false is_dir ≡ done r)
        × (r.end ≡ none)
        × (lightfs_lookup hash layout get mem_key' r.cache dir_ino name out
            ≡ done (c'', inode_of key' m))
        × IsValid hash c''
  unfolding lightfs_write_inode lightfs_evict_inode lightfs_bstore_meta_put lightfs_bstore_meta_del
  lightfs_lookup-lightfs_write_inode mem page m ino size dir_ino name i_nlink is_dir b linked kept
        normal =
      let value = dbt_setup m (length m) in
      let o = contents hash c (key_bytes key) in
      let (r, run, p) = lightfs_ht_cache_put-Puts hash lib mem c v key is_key value false none tt in
      let (s, ran, w) = lightfs_ht_cache_weak_del-WeakDels hash r.0 p.valid key is_key in
      let there : contents hash s.0 (key_bytes key')
          ≡ evicted (some (stored hash mem key value o)) =
        ground (
          arith,
          same,
          p.reads (key_bytes key),
          w.reads (key_bytes key),
          lex_refl (key_bytes key),
        ) in
      let back = memcpy out 0 (stored hash mem key value o).value.buf (length out) in
      let answer : answer_of get key' out (contents hash s.0 (key_bytes key')) ≡ (pos 0, m) =
        ap (answer_of get key' out) there
        ∙ ap (λ (a : ℤ × Dbt). (a.0, a.1.buf)) (kept (dbt_setup back (length out))) in
      let (c'', found, v'') =
        lookup_some hash layout get s.0 w.valid key' is_key' mem_key' dir_ino name out b m answer
          normal in
      (
        r.0,
        record { cache = s.0; end = none; calls = [] },
        c'',
        ground (arith, run, linked),
        ground (arith, ran, linked),
        refl,
        found,
        v'',
      )
