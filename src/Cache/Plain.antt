-- ===== src/Cache/Plain.antt =====
-- What kevinfs/lightfs_cache.c does when the item of a directory has no `dcache`.
use kevin.Base.{
  ℕ, List, [], ◌∷◌, none, some, Bool, eq, ◌==◌, bug, ◌≡◌, ◌≢◌, refl, sym, ap, subst, ◌∙◌, inl, inr,
  Option-cases, Bool-cases, Ordering-cases, arith,
}
use kevin.Key.{Dbt, IsKey, key_bytes}
use kevin.Key.Compare.{lightfs_keycmp-lex}
use kevin.Key.Order.{lex, eq_of_lex}
use kevin.RbTree.{RbLib}
use kevin.RbKv.Store.{key_bytes-dbt_copy}
use kevin.Cache.{
  Cache, CacheHash, Child, HtCacheItem, finger, join_dir, lightfs_ht_cache_put,
  lightfs_ht_cache_item_init,
}
use kevin.Cache.Chain.{scan, scan-upd}
use kevin.Cache.Table.{Belongs, Placed, home, upd-rule, eq_of_test, NotIn-unused}
use kevin.Cache.Map.{entry_of, cell, cells, cells-upd, IsValid, lookup_lem}
use kevin.Cache.Calls.{place}
use kevin.Cache.Put.{IsPlain}
use kevin.Cache.Insert.{added, place_in, absent, IsValid-added, own_place}

-- A key that is not that of the new item is found where it was.
place_in-added :
    (hash : CacheHash) (c : Cache) (v : IsValid hash c) (b : ℕ) (x : HtCacheItem) (q : List ℕ)
    → lex (key_bytes x.key) q ≢ eq
    → place_in hash (added c b x) q ≡ place_in hash c q
unfolding scan
place_in-added hash c v b x q ne =
    let out =
      NotIn-unused hash (cells c.item_at) c.next (home hash q) (c.lightfs_ht_cache (home hash q))
        (v.table.fresh c.next (omega arith)) (v.table.placed (home hash q)) in
    let kept =
      scan-upd (cells c.item_at) c.next (some (entry_of x)) q (c.lightfs_ht_cache (home hash q))
        out in
    let cells_same = cells-upd c.item_at c.next (some x) in
    ap (λ h. scan h q ((added c b x).lightfs_ht_cache (home hash q))) cells_same
    ∙ elim (Bool-cases (home hash q == b)) [
      | inl s ↦ ground (arith, kept, ap c.lightfs_ht_cache (eq_of_test (home hash q) b s))
      | inr s ↦ ground (arith, kept)
    ]

module _ (hash : CacheHash) (lib : RbLib Child) (d : Dbt) (is_key : IsKey d) where
  -- The loop meets the item under `d`.
  join_dir-plain :
      (c : Cache) (new : Child) (b : ℕ) (ps : List ℕ) {p : ℕ}
      → Placed hash (cells c.item_at) b ps
      → scan (cells c.item_at) (key_bytes d) ps ≡ some p
      → IsPlain (c.item_at p)
      → join_dir hash lib c new d ps ≡ bug
  unfolding join_dir scan
  join_dir-plain c new b [] at_b s plain = absurd (ground arith)
  join_dir-plain c new b (i ∷ ps) {p = p} at_b s plain = elim (Option-cases (c.item_at i)) [
    | inl o ↦ absurd (subst (λ y. Belongs hash b (cell y)) o at_b.0)
    | inr (x, o) ↦
        let own : Belongs hash b (some (entry_of x)) =
          subst (λ y. Belongs hash b (cell y)) o at_b.0 in
        let compare = lightfs_keycmp-lex x.key.buf d.buf x.key.size d.size own.0 is_key in
        elim (Ordering-cases (lex (key_bytes x.key) (key_bytes d))) [
          | inl r ↦ ground (arith, compare, join_dir-plain c new b ps at_b.1 (ground arith) plain)
          | inr (inl r) ↦
              let here : i ≡ p = ground arith in
              let no_dcache : x.dcache ≡ none = subst IsPlain (ap c.item_at (sym here) ∙ o) plain in
              let fp : x.fp ≡ finger hash d =
                own.1 ∙ ap (hash.crc32 17) (eq_of_lex (key_bytes x.key) (key_bytes d) r) in
              ground (arith, compare, fp, no_dcache)
          | inr (inr r) ↦
              ground (arith, compare, join_dir-plain c new b ps at_b.1 (ground arith) plain)
        ]
  ]

  -- A new item in a directory whose item has no `dcache` ends in a BUG_ON.
  pub lightfs_ht_cache_put-plain :
      (mem : List ℕ) (c : Cache) (v : IsValid hash c) (key : Dbt) (key_ok : IsKey key) (value : Dbt)
      (is_dir : Bool) (p : ℕ)
      → place hash c v key key_ok ≡ none
      → lex (key_bytes key) (key_bytes d) ≢ eq
      → place_in hash c (key_bytes d) ≡ some p
      → IsPlain (c.item_at p)
      → lightfs_ht_cache_put hash lib mem c key value (some d) is_dir ≡ bug
  unfolding lightfs_ht_cache_put
  lightfs_ht_cache_put-plain mem c v key key_ok value is_dir p s ne at_d plain =
      let x = lightfs_ht_cache_item_init mem key value (finger hash key) is_dir in
      let same = key_bytes-dbt_copy key in
      let b = home hash (key_bytes key) in
      let c₁ : Cache = added c b x in
      let v₁ : IsValid hash c₁ =
        IsValid-added hash c v key key_ok x same
          (own_place hash lib mem c v key key_ok value is_dir) refl s in
      let ne₁ : lex (key_bytes x.key) (key_bytes d) ≢ eq =
        λ e. ne (sym (ap (λ q. lex q (key_bytes d)) same) ∙ e) in
      let at_d₁ = place_in-added hash c v b x (key_bytes d) ne₁ ∙ at_d in
      let plain₁ : IsPlain (c₁.item_at p) =
        upd-rule (λ i y. IsPlain (c.item_at i) → IsPlain y) c.item_at c.next (some x)
          (λ h. absurd (subst IsPlain (absent hash c v key key_ok) h)) (λ _ _ h. h) p plain in
      let ends =
        join_dir-plain c₁ (record { item = c.next; key = x.key }) (home hash (key_bytes d))
          (c₁.lightfs_ht_cache (home hash (key_bytes d)))
          (v₁.table.placed (home hash (key_bytes d))) at_d₁ plain₁ in
      ground (arith, s, lookup_lem hash key key_ok c v, ends)
