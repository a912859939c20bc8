-- ===== src/Cache/Map.antt =====
-- The state of kevinfs/lightfs_cache.c between calls, and what its lookup finds.
use kevin.Base.{
  ℕ, List, [], ◌∷◌, Option, none, some, true, false, eq, ◌==◌, if◌then◌else◌, done, ◌≡◌, refl, ap,
  subst, ◌∙◌, inl, inr, Option-cases, arith, fun_ext,
}
use kevin.Key.{Dbt, IsKey, key_bytes}
use kevin.Key.Compare.{lightfs_keycmp-lex}
use kevin.Key.Order.{lex, eq_of_lex}
use kevin.Cache.{Cache, CacheHash, HtCacheItem, DcacheEntry, upd, same_key, ht_find, lookup, finger}
use kevin.Cache.Chain.{Entry, Cells, scan}
use kevin.Cache.Table.{IsTable, Placed, Belongs, read, home}

abbrev pub entry_of : HtCacheItem → Entry
entry_of x = record {
  key = x.key;
  value = x.value;
  is_weak_del = x.is_weak_del;
  is_evicted = x.is_evicted;
  fp = x.fp;
}

abbrev pub cell : Option HtCacheItem → Option Entry
cell none = none
cell (some x) = some (entry_of x)

abbrev pub cells : (ℕ → Option HtCacheItem) → Cells
cells items i = cell (items i)

abbrev pub Given : Option DcacheEntry → Type 0
Given none = ⊥
Given (some d) = Unit

-- The place of a directory.
abbrev pub IsDir : Option HtCacheItem → Type 0
IsDir none = ⊥
IsDir (some x) = Given x.dcache

abbrev pub HasDir : (ℕ → Option HtCacheItem) → Option HtCacheItem → Type 0
HasDir items none = Unit
HasDir items (some x) = elim x.parent [ none ↦ Unit | some p ↦ IsDir (items p) ]

pub cells-upd :
    (items : ℕ → Option HtCacheItem) (i : ℕ) (o : Option HtCacheItem)
    → cells (upd items i o) ≡ upd (cells items) i (cell o)
cells-upd items i o = fun_ext (λ j. ground (arith, ap cell (step j)))
  where
    step : (j : ℕ) → upd items i o j ≡ (if j == i then o else items j)
    step j = refl

module _ (hash : CacheHash) where
  -- Between calls: the table is a table, and the parent of an item is a directory.
  pub record IsValid (c : Cache) : Type 0 where
    pub table : IsTable hash (cells c.item_at) c.next c.lightfs_ht_cache
    pub family : (i : ℕ) → HasDir c.item_at (c.item_at i)

  -- The cache as a map.
  abbrev pub contents : Cache → List ℕ → Option Entry
  contents c = read hash (cells c.item_at) c.lightfs_ht_cache

  module _ (key : Dbt) (is_key : IsKey key) where
    abbrev pub q : List ℕ
    q = key_bytes key

    same_key-lex :
        (k : Dbt) → IsKey k → same_key k key ≡ elim (lex (key_bytes k) q) [ eq ↦ true | _ ↦ false ]
    same_key-lex k h = ground (arith, lightfs_keycmp-lex k.buf key.buf k.size key.size h is_key)

    same_finger :
        (x : HtCacheItem)
        → x.fp ≡ finger hash x.key
        → lex (key_bytes x.key) q ≡ eq
        → (x.fp == finger hash key) ≡ true
    same_finger x e r =
        let same : x.fp ≡ finger hash key =
          e ∙ ap (hash.crc32 17) (eq_of_lex (key_bytes x.key) q r) in
        ground (arith, same)

    ht_find-scan :
        (c : Cache) (b : ℕ) (is : List ℕ)
        → Placed hash (cells c.item_at) b is
        → ht_find c (finger hash key) key is ≡ done (scan (cells c.item_at) q is)
    unfolding ht_find scan
    ht_find-scan c b [] p = refl
    ht_find-scan c b (i ∷ is) p = elim (Option-cases (c.item_at i)) [
      | inl o ↦ absurd (subst (λ x. Belongs hash b (cell x)) o p.0)
      | inr (x, o) ↦
          let own : Belongs hash b (some (entry_of x)) =
            subst (λ y. Belongs hash b (cell y)) o p.0 in
          ground (arith, o, ht_find-scan c b is p.1, same_key-lex x.key own.0, same_finger x own.1)
    ]

    -- `lookup` finds the address of the key.
    pub lookup_lem :
        (c : Cache)
        → IsValid c
        → lookup hash c key ≡ done (scan (cells c.item_at) q (c.lightfs_ht_cache (home hash q)))
    unfolding lookup
    lookup_lem c v =
        ht_find-scan c (home hash q) (c.lightfs_ht_cache (home hash q))
          (v.table.placed (home hash q))
