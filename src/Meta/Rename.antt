-- ===== src/Meta/Rename.antt =====
-- A directory after `lightfs_rename` of kevinfs/lightfs_super.c.
use kevin.Base.{
  ℕ, List, [], Option, none, some, Bool, true, false, eq, ℤ, pos, done, bug, ◌≡◌, ◌≢◌, refl, sym,
  inl, inr, Option-cases, arith, length,
}
use kevin.Key.{Dbt, IsKey, key_bytes, dbt_setup}
use kevin.Key.Layout.{alloc_child_meta_dbt_from_inode}
use kevin.Key.Order.{lex, lex_refl, eq_of_lex}
use kevin.RbTree.{RbLib}
use kevin.Txn.{meta_set, meta_del, lightfs_txn_init}
use kevin.Txn.Insert.{lightfs_bstore_txn_insert}
use kevin.Cache.{Cache, CacheHash, Child, HtCacheItem}
use kevin.Cache.Chain.{Entry}
use kevin.Cache.Map.{IsValid, contents}
use kevin.Cache.Calls.{place, found, missing}
use kevin.Cache.Del.{Childless, Dels, lightfs_ht_cache_del-Dels}
use kevin.Cache.Insert.{CanJoin, stored, Puts, lightfs_ht_cache_put-Puts}
use kevin.Cache.Plain.{lightfs_ht_cache_put-plain}
use kevin.Meta.{lightfs_bstore_meta_put, lightfs_bstore_meta_del}
use kevin.Meta.Names.{Target, Renamed, committed, rename_check, lightfs_rename, lightfs_mknod}

-- The two keys differ, and so do not compare equal.
lex_ne : (a b : List ℕ) → a ≢ b → lex a b ≢ eq
lex_ne a b ne e = ne (eq_of_lex a b e)

module _ (hash : CacheHash) (c : Cache) (v : IsValid hash c) (key : Dbt) (is_key : IsKey key) where
  -- A key without an entry is not found, and one with an entry is.
  placed_not : contents hash c (key_bytes key) ≡ none → place hash c v key is_key ≡ none
  placed_not n = elim (Option-cases (place hash c v key is_key)) [
    | inl s ↦ s
    | inr (i, s) ↦ let (x, o, k, r) = found hash c v key is_key s in absurd (ground (arith, n, r))
  ]

  placed_at :
      {e : Entry}
      → contents hash c (key_bytes key) ≡ some e
      → (i : ℕ) × (place hash c v key is_key ≡ some i)
  placed_at e = elim (Option-cases (place hash c v key is_key)) [
    | inl s ↦ absurd (ground (arith, e, missing hash c v key is_key s))
    | inr (i, s) ↦ (i, s)
  ]

module _ (hash : CacheHash) (lib : RbLib Child) (c : Cache) (v : IsValid hash c) where
  -- The state after a rename that went through.
  abbrev pub renamed_to : List ℕ → Dbt → Dbt → List ℕ → Cache → Renamed
  renamed_to page old new metadata c' = record {
    cache = c';
    end = committed (
        lightfs_bstore_txn_insert
          (lightfs_bstore_txn_insert lightfs_txn_init old none [] 1 meta_del) new
          (some (dbt_setup metadata (length metadata))) page 0 meta_set);
    ret = pos 0;
    meta_dbt = new;
  }

  -- A rename without an obstacle.
  rename_lem :
      (mem page : List ℕ) (new_inode : Option Bool) (old_is_dir is_empty : Bool) (old new : Dbt)
      (metadata : List ℕ) (mem_key : Option (List ℕ)) (target : Target)
      → (old_ok : IsKey old) → (new_ok : IsKey new)
      → rename_check old_is_dir new_inode is_empty ≡ none
      → alloc_child_meta_dbt_from_inode mem_key target.dir_ino target.name ≡ some new
      → ((i : ℕ) (x : HtCacheItem)
          → place hash c v old old_ok ≡ some i
          → c.item_at i ≡ some x
          → (x.parent ≢ none) × Childless c i)
      → CanJoin c new (some target.dir_key)
      → (s : Cache × ℤ) × (d : Dels hash c v old old_ok s) × (u : Cache × ℤ) × Puts hash lib mem s.0
          d.valid new new_ok
          (dbt_setup metadata (length metadata))
          false
          u
        × (lightfs_rename hash lib mem_key mem page c false old_is_dir new_inode is_empty old
              metadata target
            ≡ done (renamed_to page old new metadata u.0))
  unfolding lightfs_rename lightfs_bstore_meta_put lightfs_bstore_meta_del
  rename_lem mem page new_inode old_is_dir is_empty old new metadata mem_key target old_ok new_ok
        clear key safe can =
      let (s, run, d) = lightfs_ht_cache_del-Dels hash c v old old_ok lib false safe in
      let value = dbt_setup metadata (length metadata) in
      let (u, run₁, p) =
        lightfs_ht_cache_put-Puts hash lib mem s.0 d.valid new new_ok value false
          (some target.dir_key) (can.0, can.1, d.dirs target.dir_key can.2) in
      (s, d, u, p, ground (arith, run, run₁, clear, key))

  -- From a valid cache, `lightfs_rename` of a directory ends with 0 and commits the deletion of
  -- the old key and the write of the new one, when the checks pass, there is memory for the new
  -- key, which has no entry, the old item, if there is one, has a parent and no children in the
  -- cache, and the new directory has another key in bounds under which all items are directories.
  -- Creating a new entry under the renamed directory, in `lightfs_mknod` with memory for its key
  -- and an inode number, then ends in a BUG_ON.
  pub lightfs_mknod-lightfs_rename :
      (mem page mem' page' : List ℕ) (new_inode : Option Bool) (is_empty : Bool) (old new key : Dbt)
      (metadata metadata' : List ℕ) (mem_key mem_key' : Option (List ℕ)) (target : Target)
      (new_ino : ℕ) (name : List ℕ) (is_dir : Bool)
      → (old_ok : IsKey old) → (new_ok : IsKey new) → (key_ok : IsKey key)
      → rename_check true new_inode is_empty ≡ none
      → alloc_child_meta_dbt_from_inode mem_key target.dir_ino target.name ≡ some new
      → alloc_child_meta_dbt_from_inode mem_key' new_ino name ≡ some key
      → key_bytes key ≢ key_bytes new
      → contents hash c (key_bytes new) ≡ none
      → contents hash c (key_bytes key) ≡ none
      → ((i : ℕ) (x : HtCacheItem)
          → place hash c v old old_ok ≡ some i
          → c.item_at i ≡ some x
          → (x.parent ≢ none) × Childless c i)
      → CanJoin c new (some target.dir_key)
      → (c' : Cache) × (lightfs_rename hash lib mem_key mem page c false true new_inode is_empty old
            metadata target
          ≡ done (renamed_to page old new metadata c'))
        × (lightfs_mknod hash lib mem_key' mem' page' c'
              (pos 0)
              metadata'
              is_dir
              (record { dir_ino = new_ino; dir_key = new; name = name })
            ≡ bug)
  unfolding lightfs_mknod lightfs_bstore_meta_put
  lightfs_mknod-lightfs_rename mem page mem' page' new_inode is_empty old new key metadata metadata'
        mem_key mem_key' target new_ino name is_dir old_ok new_ok key_ok clear a b ne free unused
        safe can =
      let (s, d, u, p, run) =
        rename_lem mem page new_inode true is_empty old new metadata mem_key target old_ok new_ok
          clear a safe can in
      let value = dbt_setup metadata (length metadata) in
      let still_free : contents hash s.0 (key_bytes new) ≡ none =
        ground (arith, d.reads (key_bytes new), free) in
      let still_unused : contents hash u.0 (key_bytes key) ≡ none = ground (
        arith,
        d.reads (key_bytes key),
        p.reads (key_bytes key),
        unused,
        lex_ne (key_bytes new) (key_bytes key) (λ e. ne (sym e)),
      ) in
      let (i, at) =
        placed_at hash u.0 p.valid new new_ok
          {e = stored hash mem new value (contents hash s.0 (key_bytes new))}
          (ground (arith, p.reads (key_bytes new), lex_refl (key_bytes new))) in
      let ends =
        lightfs_ht_cache_put-plain hash lib new new_ok mem' u.0 p.valid key key_ok
          (dbt_setup metadata' (length metadata')) is_dir i
          (placed_not hash u.0 p.valid key key_ok still_unused)
          (lex_ne (key_bytes key) (key_bytes new) ne) at (p.plain still_free refl i at) in
      (u.0, run, ground (arith, b, ends))
