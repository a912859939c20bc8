-- ===== src/Tests/Lookup.antt =====
-- Making, writing back and removing a name at concrete inputs.
use kevin.Base.{
  ℕ, ◌-◌, [], ◌∷◌, none, some, false, ltb, leb, ◌&&◌, if◌then◌else◌, ℤ, pos, done, ◌≡◌, refl, arith,
  All, replicate,
}
use kevin.Key.{Dbt, key_bytes, dbt_setup}
use kevin.Key.Layout.{alloc_child_meta_dbt_from_inode, to_be}
use kevin.Key.Order.{lex}
use kevin.Bstore.{lightfs_get_block_num_by_size}
use kevin.Bstore.Trunc.{deletions, IsCall}
use kevin.Txn.{lightfs_txn_init, meta_set, meta_del}
use kevin.Txn.Insert.{lightfs_bstore_txn_insert}
use kevin.Cache.{Cache}
use kevin.Cache.Chain.{Entry, view}
use kevin.Cache.Map.{entry_of, IsValid, contents}
use kevin.Meta.Names.{committed, lightfs_mknod}
use kevin.Meta.Lookup.{
  no_inode, inode_of, Unlinked, Evicted, lightfs_lookup, lightfs_unlink, lightfs_write_inode,
  lightfs_evict_inode,
}
use kevin.Meta.Evict.{
  lightfs_lookup-lightfs_mknod, lightfs_lookup-lightfs_evict_inode,
  lightfs_lookup-lightfs_write_inode,
}
use kevin.Tests.Metadata.{
  test_hash, child_lib, child_key, child_item, small_cache, small_valid, child_ok, new_key, new_ok,
  new_CanJoin, child_deletable,
}
use kevin.Tests.Names.{empty_store, eleven, in_root, new_alloc, one_field}

-- The new file `b` of the root.
lightfs_lookup-lightfs_mknod_example :
    (c' : Cache) × (c'' : Cache) × (lightfs_mknod test_hash child_lib eleven
        (1 ∷ [])
        []
        small_cache
        (pos 0)
        (9 ∷ [])
        false
        in_root
      ≡ done (
        c',
        committed (
            lightfs_bstore_txn_insert lightfs_txn_init new_key
              (some (dbt_setup (9 ∷ []) 1))
              []
              0
              meta_set),
        pos 0,
      ))
    × (lightfs_lookup test_hash one_field empty_store eleven c' 0 (98 ∷ []) (0 ∷ [])
        ≡ done (c'', inode_of new_key (9 ∷ [])))
    × IsValid test_hash c''
lightfs_lookup-lightfs_mknod_example =
    lightfs_lookup-lightfs_mknod test_hash child_lib one_field empty_store small_cache small_valid
      new_key new_key new_ok new_ok refl eleven eleven (0 ∷ []) (1 ∷ []) [] (9 ∷ []) false in_root
      new_alloc new_alloc new_CanJoin refl refl

child_alloc : alloc_child_meta_dbt_from_inode eleven 0 (97 ∷ []) ≡ some child_key
unfolding alloc_child_meta_dbt_from_inode to_be
child_alloc = refl

abbrev child_entry : Entry
child_entry = entry_of child_item

child_there : contents test_hash small_cache (key_bytes child_key) ≡ some child_entry
unfolding view lex
child_there = refl

-- The child `a` of the root, of 5000 bytes.
lightfs_lookup-lightfs_evict_inode_example :
    (u : Unlinked) × (r : Evicted) × (c' : Cache) × (lightfs_unlink test_hash child_lib
        (λ n. n - 1)
        eleven
        small_cache
        0
        (97 ∷ [])
        false
        1
        1
      ≡ done u)
    × (u.ret ≡ pos 0)
    × (u.cache ≡ small_cache)
    × (u.end ≡ none)
    × (lightfs_evict_inode test_hash child_lib
          (some (replicate 17 0))
          u.cache
          child_key
          7
          5000
          u.i_nlink
          false
          false
        ≡ done r)
    × (r.end
        ≡ some
            (committed (lightfs_bstore_txn_insert lightfs_txn_init child_key none [] 1 meta_del)))
    × All (IsCall 7) r.calls
    × ((b : ℕ)
        → deletions b r.calls
          ≡ (if ltb 0 b && leb b (lightfs_get_block_num_by_size 5000) then 1 else 0))
    × (lightfs_lookup test_hash one_field empty_store eleven r.cache 0 (97 ∷ []) (0 ∷ [])
        ≡ done (c', no_inode))
    × IsValid test_hash c'
lightfs_lookup-lightfs_evict_inode_example =
    lightfs_lookup-lightfs_evict_inode test_hash child_lib one_field empty_store small_cache
      small_valid child_key child_key child_ok child_ok refl eleven eleven (0 ∷ []) (λ n. n - 1)
      (replicate 17 0) 7 5000 0 1 (97 ∷ []) child_entry refl child_alloc (omega arith) (omega arith)
      (omega arith) child_there child_deletable

-- A store that has the written byte under every key.
abbrev byte_store : Dbt → Dbt → ℤ × Dbt
byte_store key value = (pos 0, record value { buf = 9 ∷ [] })

lightfs_lookup-lightfs_write_inode_example :
    (c' : Cache) × (r : Evicted) × (c'' : Cache) × (lightfs_write_inode test_hash child_lib
        (1 ∷ [])
        []
        small_cache
        child_key
        (9 ∷ [])
        1
      ≡ done (
        c',
        some (
            committed (
              lightfs_bstore_txn_insert lightfs_txn_init child_key
                (some (dbt_setup (9 ∷ []) 1))
                []
                0
                meta_set)),
        pos 0,
      ))
    × (lightfs_evict_inode test_hash child_lib none c' child_key 7 5000 1 false false ≡ done r)
    × (r.end ≡ none)
    × (lightfs_lookup test_hash one_field byte_store eleven r.cache 0 (97 ∷ []) (0 ∷ [])
        ≡ done (c'', inode_of child_key (9 ∷ [])))
    × IsValid test_hash c''
lightfs_lookup-lightfs_write_inode_example =
    lightfs_lookup-lightfs_write_inode test_hash child_lib one_field byte_store small_cache
      small_valid child_key child_key child_ok child_ok refl eleven eleven (0 ∷ []) (1 ∷ []) []
      (9 ∷ []) 7 5000 0 (97 ∷ []) 1 false child_alloc (omega arith) (λ _. refl) refl
