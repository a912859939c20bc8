-- ===== src/Cache/WeakDel.antt =====
-- Weak deletion in kevinfs/lightfs_cache.c: the entry stays and is marked.
use kevin.Base.{
  ℕ, List, Option, none, some, true, eq, ℤ, pos, done, ◌≡◌, refl, ap, ap₂, ◌∙◌, inl, inr,
  Option-cases, arith,
}
use kevin.Key.{Dbt, IsKey, key_bytes}
use kevin.Key.Order.{lex}
use kevin.RbKv.{db_notfound}
use kevin.Txn.{add32}
use kevin.Cache.{
  Cache, CacheHash, HtCacheItem, DcacheEntry, write, lightfs_dcache_invalidate,
  lightfs_ht_cache_weak_del,
}
use kevin.Cache.Chain.{Entry, scan}
use kevin.Cache.Table.{home, read}
use kevin.Cache.Map.{entry_of, cells, IsValid, contents, lookup_lem}
use kevin.Cache.Change.{IsValid-entry, parent_dir, set_dcache-keeps}
use kevin.Cache.Calls.{place, found, missing, contents-same, contents-write}

abbrev pub evicted : Option Entry → Option Entry
evicted none = none
evicted (some e) = some (record e { is_weak_del = true; is_evicted = true })

module _ (hash : CacheHash) (c : Cache) (v : IsValid hash c) where
  -- A cache with the same entries.
  pub record Keeps (c' : Cache) : Type 0 where
    pub valid : IsValid hash c'
    pub same_cells : cells c'.item_at ≡ cells c.item_at
    pub same_table : c'.lightfs_ht_cache ≡ c.lightfs_ht_cache

  pub lightfs_dcache_invalidate-Keeps :
      (i : ℕ) (x : HtCacheItem)
      → c.item_at i ≡ some x
      → (c' : Cache) × (lightfs_dcache_invalidate hash c x ≡ done c') × Keeps c'
  unfolding lightfs_dcache_invalidate
  lightfs_dcache_invalidate-Keeps i x o = elim (Option-cases x.parent) [
    | inl n ↦ (c, ground arith, record { valid = v; same_cells = refl; same_table = refl })
    | inr (p, e) ↦
        let (y, d, at_p, has) = parent_dir hash c v i p x o e in
        let d' : DcacheEntry = record d { is_full = true; e_child = add32 d.e_child 1 } in
        let (run, valid, same) = set_dcache-keeps hash c v p y d' at_p in
        (
          write c p (record y { dcache = some d' }),
          ground (arith, run),
          record { valid = valid; same_cells = same; same_table = refl },
        )
  ]

  module _ (key : Dbt) (is_key : IsKey key) where
    -- What a weak deletion leaves and returns.
    pub record WeakDels (r : Cache × ℤ) : Type 0 where
      pub valid : IsValid hash r.0
      pub returns :
          r.1 ≡ elim (contents hash c (key_bytes key)) [ none ↦ db_notfound | some _ ↦ pos 0 ]
      pub reads :
          (p : List ℕ)
          → contents hash r.0 p ≡ elim (lex (key_bytes key) p) [
            | eq ↦ evicted (contents hash c (key_bytes key))
            | _ ↦ contents hash c p
          ]

    -- In a valid cache a weak deletion of a key in bounds always ends and leaves a valid cache. It
    -- returns DB_NOTFOUND where the map has no entry under the key, and else 0; the entry stays
    -- with both flags set, and every other key keeps its entry.
    pub lightfs_ht_cache_weak_del-WeakDels :
        (r : Cache × ℤ) × (lightfs_ht_cache_weak_del hash c key ≡ done r) × WeakDels r
    unfolding lightfs_ht_cache_weak_del
    lightfs_ht_cache_weak_del-WeakDels = elim (Option-cases (place hash c v key is_key)) [
      | inl s ↦ (
        (c, db_notfound),
        ground (arith, lookup_lem hash key is_key c v),
        record {
          valid = v;
          returns = ground (arith, missing hash c v key is_key s);
          reads = λ p.
              ground (arith, missing hash c v key is_key s, contents-same hash c v key is_key p);
        },
      )
      | inr (i, s) ↦
          let (x, o, k, r) = found hash c v key is_key s in
          let (c', run, w) = lightfs_dcache_invalidate-Keeps i x o in
          let reads_same : contents hash c' ≡ contents hash c =
            ap₂ (λ h t. read hash h t) w.same_cells w.same_table in
          let s' : place hash c' w.valid key is_key ≡ some i =
            ap₂ (λ h t. scan h (key_bytes key) (t (home hash (key_bytes key)))) w.same_cells
              w.same_table
            ∙ s in
          let (x₁, o₁, k₁, r₁) = found hash c' w.valid key is_key s' in
          let x' : HtCacheItem = record x₁ { is_weak_del = true; is_evicted = true } in
          let same : entry_of x₁ ≡ entry_of x =
            ground (arith, ap (λ (f : List ℕ → Option Entry). f (key_bytes key)) reads_same) in
          (
            (write c' i x', pos 0),
            ground (arith, lookup_lem hash key is_key c v),
            record {
              valid = IsValid-entry hash c' w.valid i x₁ x' o₁ (λ d. d) refl refl refl;
              returns = ground arith;
              reads = λ p. ground (
                arith,
                contents-write hash c' w.valid key is_key i x₁ x' s' o₁ k₁ (λ d. d) refl p,
                ap (λ (f : List ℕ → Option Entry). f p) reads_same,
                ap (λ (e : Entry). evicted (some e)) same,
                r,
              );
            },
          )
    ]
