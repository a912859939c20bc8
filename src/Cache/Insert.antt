-- ===== src/Cache/Insert.antt =====
-- `lightfs_ht_cache_put` of kevinfs/lightfs_cache.c, on the map from keys to entries.
use kevin.Base.{
  ℕ, ◌+◌, List, ◌∷◌, Option, none, some, Bool, false, eq, ℤ, pos, done, ◌≡◌, ◌≢◌, refl, sym, ap,
  ap₂, subst, ◌∙◌, inl, inr, Option-cases, arith,
}
use kevin.Key.{Dbt, IsKey, key_bytes}
use kevin.Key.Order.{lex}
use kevin.RbTree.{RbLib}
use kevin.RbKv.{dbt_copy}
use kevin.RbKv.Store.{dbt_copy-IsKey, key_bytes-dbt_copy}
use kevin.Cache.{
  Cache, CacheHash, Child, HtCacheItem, upd, write, finger, lightfs_ht_cache_item_init,
  lightfs_ht_cache_put, dbt_no_alloc_copy, dbt_copy_meta,
}
use kevin.Cache.Chain.{Entry, scan, scan-head}
use kevin.Cache.Table.{IsTable, IsTable-add, read-add, Belongs, home, read, upd-rule}
use kevin.Cache.Map.{entry_of, cell, cells, cells-upd, IsDir, HasDir, IsValid, contents, lookup_lem}
use kevin.Cache.Change.{HasDir-mono, IsValid-entry}
use kevin.Cache.Calls.{place, found, missing, contents-write}
use kevin.Cache.Put.{IsPlain, AreDirs, AreDirs-upd, join_dir-Keeps}

-- The cache with a new item at the head of the chain `b`.
abbrev pub added : Cache → ℕ → HtCacheItem → Cache
added c b x = record c {
  item_at = upd c.item_at c.next (some x);
  next = c.next + 1;
  lightfs_ht_cache = upd c.lightfs_ht_cache b (c.next ∷ c.lightfs_ht_cache b);
}

module _ (hash : CacheHash) (c : Cache) (v : IsValid hash c) (key : Dbt) (is_key : IsKey key) where
  pub absent : c.item_at c.next ≡ none
  absent = elim (Option-cases (c.item_at c.next)) [
    | inl n ↦ n
    | inr (x, o) ↦ absurd (ground (arith, ap cell o, v.table.fresh c.next))
  ]

  module _ (x : HtCacheItem) (k : key_bytes x.key ≡ key_bytes key)
      (own : Belongs hash (home hash (key_bytes x.key)) (some (entry_of x)))
      (orphan : x.parent ≡ none) where
    pub IsValid-added :
        place hash c v key is_key ≡ none → IsValid hash (added c (home hash (key_bytes key)) x)
    IsValid-added s =
        subst (λ q. IsValid hash (added c (home hash q) x)) k
          (record {
            table =
                subst
                  (λ h. IsTable hash h (c.next + 1) (
                    upd c.lightfs_ht_cache (home hash (key_bytes x.key))
                      (c.next ∷ c.lightfs_ht_cache (home hash (key_bytes x.key)))))
                  (sym (cells-upd c.item_at c.next (some x)))
                  (IsTable-add hash (cells c.item_at) c.next c.lightfs_ht_cache v.table (entry_of x)
                    own
                    (subst (λ q. scan (cells c.item_at) q (c.lightfs_ht_cache (home hash q)) ≡ none)
                      (sym k) s));
            family =
                upd-rule (λ _ y. HasDir (upd c.item_at c.next (some x)) y) c.item_at c.next (some x)
                  (subst
                    (λ p. elim p as (λ _. Type 0) [
                      | none ↦ Unit
                      | some p ↦ IsDir (upd c.item_at c.next (some x) p)
                    ])
                    (sym orphan) tt)
                  (λ j _.
                    HasDir-mono c.item_at (upd c.item_at c.next (some x)) (c.item_at j)
                      (λ p.
                        upd-rule (λ p y. IsDir (c.item_at p) → IsDir y) c.item_at c.next (some x)
                          (λ h. absurd (subst IsDir absent h)) (λ _ _ h. h) p)
                      (v.family j));
          })

    pub contents-added :
        (p : List ℕ)
        → contents hash (added c (home hash (key_bytes key)) x) p
          ≡ elim (lex (key_bytes key) p) [ eq ↦ some (entry_of x) | _ ↦ contents hash c p ]
    contents-added p =
        subst
          (λ q.
            contents hash (added c (home hash q) x) p
            ≡ elim (lex q p) [ eq ↦ some (entry_of x) | _ ↦ contents hash c p ])
          k
          (ap
              (λ h.
                read hash h
                  (upd c.lightfs_ht_cache (home hash (key_bytes x.key))
                    (c.next ∷ c.lightfs_ht_cache (home hash (key_bytes x.key))))
                  p)
              (cells-upd c.item_at c.next (some x))
            ∙ read-add hash (cells c.item_at) c.next c.lightfs_ht_cache v.table (entry_of x) own p)

abbrev pub place_in : CacheHash → Cache → List ℕ → Option ℕ
place_in hash c q = scan (cells c.item_at) q (c.lightfs_ht_cache (home hash q))

place-added :
    (hash : CacheHash) (c : Cache) (q : List ℕ) (x : HtCacheItem)
    → key_bytes x.key ≡ q
    → place_in hash (added c (home hash q) x) q ≡ some c.next
place-added hash c q x k =
    let chain : upd c.lightfs_ht_cache (home hash q) (c.next ∷ c.lightfs_ht_cache (home hash q))
          (home hash q)
        ≡ c.next ∷ c.lightfs_ht_cache (home hash q) =
      ground arith in
    ap (scan (cells (upd c.item_at c.next (some x))) q) chain
    ∙ scan-head (cells (upd c.item_at c.next (some x))) q c.next (entry_of x)
        (c.lightfs_ht_cache (home hash q)) (ground arith) k

some_eq : (i j : ℕ) → some i ≡ some j → i ≡ j
some_eq i j e = cc

-- What an insertion stores: in place of the old entry, or a new one.
abbrev pub stored : CacheHash → List ℕ → Dbt → Dbt → Option Entry → Entry
stored hash mem key value none = record {
  key = dbt_copy key;
  value = dbt_copy_meta mem value;
  is_weak_del = false;
  is_evicted = false;
  fp = finger hash key;
}
stored hash mem key value (some e) = record e {
  value = dbt_no_alloc_copy e.value value;
  is_weak_del = false;
  is_evicted = false;
}

-- The directory of the new item has another key, and what has its key is a directory.
abbrev pub CanJoin : Cache → Dbt → Option Dbt → Type 0
CanJoin c key none = Unit
CanJoin c key (some d) = IsKey d × (key_bytes key ≢ key_bytes d) × AreDirs c.item_at d

module _ (hash : CacheHash) (lib : RbLib Child) (mem : List ℕ) (c : Cache)
    (v : IsValid hash c) where
  module _ (key : Dbt) (is_key : IsKey key) (value : Dbt) where
    -- What an insertion leaves and returns.
    pub record Puts (is_dir : Bool) (r : Cache × ℤ) : Type 0 where
      pub valid : IsValid hash r.0
      pub returns : r.1 ≡ pos 0
      pub reads :
          (p : List ℕ)
          → contents hash r.0 p ≡ elim (lex (key_bytes key) p) [
            | eq ↦ some (stored hash mem key value (contents hash c (key_bytes key)))
            | _ ↦ contents hash c p
          ]
      -- A new item that is no directory has no children.
      pub plain :
          contents hash c (key_bytes key) ≡ none
          → is_dir ≡ false
          → (i : ℕ) → place_in hash r.0 (key_bytes key) ≡ some i
          → IsPlain (r.0.item_at i)

    module _ (is_dir : Bool) where
      abbrev pub item : HtCacheItem
      item = lightfs_ht_cache_item_init mem key value (finger hash key) is_dir

      new_plain :
          is_dir ≡ false
          → (i : ℕ)
          → place_in hash (added c (home hash (key_bytes key)) item) (key_bytes key) ≡ some i
          → IsPlain ((added c (home hash (key_bytes key)) item).item_at i)
      new_plain e i s =
          let here : c.next ≡ i =
            some_eq c.next i
              (sym (place-added hash c (key_bytes key) item (key_bytes-dbt_copy key)) ∙ s) in
          let at_next : some item ≡ upd c.item_at c.next (some item) i = ground (arith, here) in
          let no_dcache : item.dcache ≡ none = ground (arith, e) in subst IsPlain at_next no_dcache

      pub own_place : Belongs hash (home hash (key_bytes item.key)) (some (entry_of item))
      own_place =
          (dbt_copy-IsKey key is_key, ap (hash.crc32 17) (sym (key_bytes-dbt_copy key)), refl)

      put_new :
          place hash c v key is_key ≡ none
          → (dir_key : Option Dbt) → CanJoin c key dir_key
          → (r : Cache × ℤ) × (lightfs_ht_cache_put hash lib mem c key value dir_key is_dir
              ≡ done r)
            × Puts is_dir r
      unfolding lightfs_ht_cache_put
      put_new s none can = (
        (added c (home hash (key_bytes key)) item, pos 0),
        ground (arith, s, lookup_lem hash key is_key c v),
        record {
          valid = IsValid-added hash c v key is_key item (key_bytes-dbt_copy key) own_place refl s;
          returns = refl;
          reads = λ p. ground (
            arith,
            missing hash c v key is_key s,
            contents-added hash c v key is_key item (key_bytes-dbt_copy key) own_place refl p,
          );
          plain = λ _. new_plain;
        },
      )
      put_new s (some d) can =
          let c₁ : Cache = added c (home hash (key_bytes key)) item in
          let v₁ : IsValid hash c₁ =
            IsValid-added hash c v key is_key item (key_bytes-dbt_copy key) own_place refl s in
          let dirs : AreDirs c₁.item_at d =
            AreDirs-upd c.item_at d c.next item
              (λ e. absurd (can.1 (sym (key_bytes-dbt_copy key) ∙ e))) can.2 in
          let (c', run, k, plain) =
            join_dir-Keeps hash lib (record { item = c.next; key = item.key }) d can.0 c₁
              (home hash (key_bytes d)) item (c₁.lightfs_ht_cache (home hash (key_bytes d))) v₁
              (v₁.table.placed (home hash (key_bytes d))) dirs (ground arith) in
          (
            (c', pos 0),
            ground (arith, s, lookup_lem hash key is_key c v, run),
            record {
              valid = k.valid;
              returns = refl;
              reads = λ p. ground (
                arith,
                missing hash c v key is_key s,
                contents-added hash c v key is_key item (key_bytes-dbt_copy key) own_place refl p,
                ap₂ (λ h t. read hash h t p) k.same_cells k.same_table,
              );
              plain = λ _ e i s. plain i (
                  new_plain e i (
                    ap₂ (λ h t. scan h (key_bytes key) (t (home hash (key_bytes key))))
                      (sym k.same_cells) (sym k.same_table)
                    ∙ s));
            },
          )

      -- In a valid cache an insertion of a key in bounds ends with 0 and leaves a valid cache,
      -- when no directory is given, or one of another key in bounds, under which all items are
      -- directories. The key then has its old entry with the new value copied over the old one and
      -- both flags cleared, or a new entry where there was none, and every other key keeps its
      -- entry. A new item that is not inserted as a directory has no `dcache`.
      pub lightfs_ht_cache_put-Puts :
          (dir_key : Option Dbt)
          → CanJoin c key dir_key
          → (r : Cache × ℤ) × (lightfs_ht_cache_put hash lib mem c key value dir_key is_dir
              ≡ done r)
            × Puts is_dir r
      unfolding lightfs_ht_cache_put
      lightfs_ht_cache_put-Puts dir_key can = elim (Option-cases (place hash c v key is_key)) [
        | inr (i, s) ↦
            let (x, o, k, r) = found hash c v key is_key s in
            let x' : HtCacheItem = record x {
              value = dbt_no_alloc_copy x.value value;
              is_weak_del = false;
              is_evicted = false;
            } in
            (
              (write c i x', pos 0),
              ground (arith, lookup_lem hash key is_key c v),
              record {
                valid = IsValid-entry hash c v i x x' o (λ h. h) refl refl refl;
                returns = refl;
                reads = λ p.
                    ground
                      (arith, contents-write hash c v key is_key i x x' s o k (λ h. h) refl p, r);
                plain = λ n _ _ _. absurd (ground (arith, r, n));
              },
            )
        | inl s ↦ put_new s dir_key can
      ]
