-- ===== src/Cache/Del.antt =====
-- Deletion in kevinfs/lightfs_cache.c.
use kevin.Base.{
  ℕ, List, Option, none, some, Bool, eq, ℤ, pos, done, bug, ◌≡◌, ◌≢◌, sym, ap, subst, ◌∙◌, inl, inr,
  Option-cases, arith,
}
use kevin.Key.{Dbt, IsKey, key_bytes}
use kevin.Key.Order.{lex}
use kevin.RbTree.{RbLib}
use kevin.RbKv.{db_notfound}
use kevin.Cache.{
  Cache, CacheHash, Child, HtCacheItem, DcacheEntry, upd, write, remove_id, lightfs_dcache_del,
  lightfs_ht_cache_del,
}
use kevin.Cache.Chain.{scan}
use kevin.Cache.Table.{IsTable, IsTable-remove, read-remove, home, read, upd-rule}
use kevin.Cache.Map.{entry_of, cell, cells, cells-upd, IsDir, HasDir, IsValid, contents, lookup_lem}
use kevin.Cache.Change.{parent_dir, set_dcache-keeps}
use kevin.Cache.Put.{AreDirs, AreDirs-upd}
use kevin.Cache.Calls.{place, found, missing, contents-same}

-- The item is not a child of the one at `i`.
abbrev pub NotChild : ℕ → Option HtCacheItem → Type 0
NotChild i none = Unit
NotChild i (some x) = x.parent ≢ some i

abbrev pub Childless : Cache → ℕ → Type 0
Childless c i = (j : ℕ) → NotChild i (c.item_at j)

-- The item leaves its chain and is freed.
abbrev pub without : Cache → ℕ → ℕ → Cache
without c b i = record c {
  item_at = upd c.item_at i none;
  lightfs_ht_cache = upd c.lightfs_ht_cache b (remove_id i (c.lightfs_ht_cache b));
}

AreDirs-free :
    (items : ℕ → Option HtCacheItem) (d : Dbt) (i : ℕ)
    → AreDirs items d
    → AreDirs (upd items i none) d
AreDirs-free items d i f p =
    upd-rule
      (λ _ y. (x : HtCacheItem) → y ≡ some x → key_bytes x.key ≡ key_bytes d → IsDir (some x)) items
      i none (λ x e _. absurd (not_there x e)) (λ p _. f p) p
  where
    not_there : (x : HtCacheItem) → ◌≡◌ {A = Option HtCacheItem} none (some x) → ⊥
    not_there x e = cc

module _ (items : ℕ → Option HtCacheItem) (i : ℕ) where
  HasDir-without :
      (o : Option HtCacheItem) → NotChild i o → HasDir items o → HasDir (upd items i none) o
  HasDir-without none n h = tt
  HasDir-without (some x) n h = go x.parent n h
    where
      go :
          (p : Option ℕ)
          → p ≢ some i
          → elim p as (λ _. Type 0) [ none ↦ Unit | some p ↦ IsDir (items p) ]
          → elim p as (λ _. Type 0) [ none ↦ Unit | some p ↦ IsDir (upd items i none p) ]
      go none n h = tt
      go (some p) n h =
          let kept : items p ≡ upd items i none p = ground (arith, n) in subst IsDir kept h

module _ (hash : CacheHash) (c : Cache) (v : IsValid hash c) (key : Dbt) (is_key : IsKey key) where
  module _ (i : ℕ) (x : HtCacheItem) (s : place hash c v key is_key ≡ some i)
      (o : c.item_at i ≡ some x) (k : key_bytes x.key ≡ key_bytes key) (alone : Childless c i) where
    chain_of :
        scan (cells c.item_at) (key_bytes x.key) (c.lightfs_ht_cache (home hash (key_bytes x.key)))
        ≡ some i
    chain_of =
        subst (λ q. scan (cells c.item_at) q (c.lightfs_ht_cache (home hash q)) ≡ some i) (sym k) s

    pub IsValid-without : IsValid hash (without c (home hash (key_bytes key)) i)
    IsValid-without =
        subst (λ q. IsValid hash (without c (home hash q) i)) k
          (record {
            table =
                subst
                  (λ h. IsTable hash h c.next (
                    upd c.lightfs_ht_cache (home hash (key_bytes x.key))
                      (remove_id i (c.lightfs_ht_cache (home hash (key_bytes x.key))))))
                  (sym (cells-upd c.item_at i none))
                  (IsTable-remove hash (cells c.item_at) c.next c.lightfs_ht_cache v.table i
                    (entry_of x) (ap cell o) chain_of);
            family =
                upd-rule (λ _ y. HasDir (upd c.item_at i none) y) c.item_at i none tt
                  (λ j _. HasDir-without c.item_at i (c.item_at j) (alone j) (v.family j));
          })

    pub contents-without :
        (p : List ℕ)
        → contents hash (without c (home hash (key_bytes key)) i) p
          ≡ elim (lex (key_bytes key) p) [ eq ↦ none | _ ↦ contents hash c p ]
    contents-without p =
        subst
          (λ q.
            contents hash (without c (home hash q) i) p
            ≡ elim (lex q p) [ eq ↦ none | _ ↦ contents hash c p ])
          k
          (ap
              (λ h.
                read hash h
                  (upd c.lightfs_ht_cache (home hash (key_bytes x.key))
                    (remove_id i (c.lightfs_ht_cache (home hash (key_bytes x.key)))))
                  p)
              (cells-upd c.item_at i none)
            ∙ read-remove hash (cells c.item_at) c.next c.lightfs_ht_cache v.table i (entry_of x)
                (ap cell o) chain_of p)

module _ (hash : CacheHash) (c : Cache) (v : IsValid hash c) (key : Dbt) (is_key : IsKey key) where
  -- What a deletion leaves and returns.
  pub record Dels (r : Cache × ℤ) : Type 0 where
    pub valid : IsValid hash r.0
    pub returns :
        r.1 ≡ elim (contents hash c (key_bytes key)) [ none ↦ db_notfound | some _ ↦ pos 0 ]
    pub reads :
        (p : List ℕ)
        → contents hash r.0 p ≡ elim (lex (key_bytes key) p) [ eq ↦ none | _ ↦ contents hash c p ]
    -- What was a directory, if it is still there, is one.
    pub dirs : (d : Dbt) → AreDirs c.item_at d → AreDirs r.0.item_at d

  module _ (lib : RbLib Child) (is_dir : Bool) where
    -- A deletion of an item without a parent follows a null pointer.
    pub lightfs_ht_cache_del-orphan :
        (i : ℕ) (x : HtCacheItem)
        → place hash c v key is_key ≡ some i
        → c.item_at i ≡ some x
        → x.parent ≡ none
        → lightfs_ht_cache_del hash lib c key is_dir ≡ bug
    unfolding lightfs_ht_cache_del lightfs_dcache_del
    lightfs_ht_cache_del-orphan i x s o e = ground (arith, lookup_lem hash key is_key c v)

    del_child :
        (i : ℕ) (x : HtCacheItem)
        → place hash c v key is_key ≡ some i
        → c.item_at i ≡ some x
        → key_bytes x.key ≡ key_bytes key
        → contents hash c (key_bytes key) ≡ some (entry_of x)
        → Childless c i
        → (p : ℕ) → x.parent ≡ some p
        → (r : Cache × ℤ) × (lightfs_ht_cache_del hash lib c key is_dir ≡ done r) × Dels r
    unfolding lightfs_ht_cache_del lightfs_dcache_del
    del_child i x s o k r alone p e =
        let (y, d, at_p, has) = parent_dir hash c v i p x o e in
        let d' : DcacheEntry = record d {
          rb_root = lib.rb_erase d.rb_root (record { item = i; key = x.key });
        } in
        let y' : HtCacheItem = record y { dcache = some d' } in
        let (run, valid, same) = set_dcache-keeps hash c v p y d' at_p in
        let c₀ : Cache = write c p y' in
        let s₀ : place hash c₀ valid key is_key ≡ some i =
          ap (λ h. scan h (key_bytes key) (c.lightfs_ht_cache (home hash (key_bytes key)))) same
          ∙ s in
        let (x₀, o₀, k₀, r₀) = found hash c₀ valid key is_key s₀ in
        let y_alone : NotChild i (some y) = subst (NotChild i) at_p (alone p) in
        let alone₀ : Childless c₀ i =
          upd-rule (λ _ z. NotChild i z) c.item_at p (some y') y_alone (λ j _. alone j) in
        (
          (without c₀ (home hash (key_bytes key)) i, pos 0),
          ground (arith, lookup_lem hash key is_key c v, run),
          record {
            valid = IsValid-without hash c₀ valid key is_key i x₀ s₀ o₀ k₀ alone₀;
            returns = ground (arith, r);
            reads = λ q. ground (
              arith,
              contents-without hash c₀ valid key is_key i x₀ s₀ o₀ k₀ alone₀ q,
              ap (λ h. read hash h c.lightfs_ht_cache q) same,
            );
            dirs = λ q h. AreDirs-free c₀.item_at q i (AreDirs-upd c.item_at q p y' (λ _. tt) h);
          },
        )

    -- In a valid cache a deletion of a key in bounds ends and leaves a valid cache, when the item
    -- under the key, if there is one, has a parent and is the parent of no item. It returns
    -- DB_NOTFOUND where the map has no entry under the key, and else 0; the entry is gone, and
    -- every other key keeps its entry. When all items under a key are directories, they still are.
    pub lightfs_ht_cache_del-Dels :
        ((i : ℕ) (x : HtCacheItem)
          → place hash c v key is_key ≡ some i
          → c.item_at i ≡ some x
          → (x.parent ≢ none) × Childless c i)
        → (r : Cache × ℤ) × (lightfs_ht_cache_del hash lib c key is_dir ≡ done r) × Dels r
    unfolding lightfs_ht_cache_del lightfs_dcache_del
    lightfs_ht_cache_del-Dels safe = elim (Option-cases (place hash c v key is_key)) [
      | inl s ↦ (
        (c, db_notfound),
        ground (arith, lookup_lem hash key is_key c v),
        record {
          valid = v;
          returns = ground (arith, missing hash c v key is_key s);
          reads = λ p.
              ground (arith, missing hash c v key is_key s, contents-same hash c v key is_key p);
          dirs = λ _ h. h;
        },
      )
      | inr (i, s) ↦
          let (x, o, k, r) = found hash c v key is_key s in
          let (has_parent, alone) = safe i x s o in
          elim (Option-cases x.parent) [
            | inl e ↦ absurd (has_parent e)
            | inr (p, e) ↦ del_child i x s o k r alone p e
          ]
    ]
