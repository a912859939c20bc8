-- ===== src/Cache/Calls.antt =====
-- Lookup and weak deletion in kevinfs/lightfs_cache.c, on the map from keys to entries.
use kevin.Base.{
  ℕ, List, Option, none, some, true, false, eq, ◌&&◌, if◌then◌else◌, ℤ, pos, done, ◌≡◌, refl, sym,
  ap, subst, ◌∙◌, inl, inr, Bool-cases, Option-cases, Ordering-cases, arith,
}
use kevin.Key.{Dbt, IsKey, key_bytes, memcpy}
use kevin.Key.Order.{lex, eq_of_lex}
use kevin.RbKv.{db_notfound}
use kevin.Cache.{Cache, CacheHash, HtCacheItem, write, db_found_free, lightfs_ht_cache_get}
use kevin.Cache.Chain.{Entry, scan, scan-found, scan-view}
use kevin.Cache.Table.{home}
use kevin.Cache.Map.{entry_of, cell, cells, IsDir, IsValid, contents, lookup_lem}
use kevin.Cache.Change.{IsValid-entry, contents-entry}

abbrev pub cleared : Entry → Entry
cleared e = record e { is_weak_del = false; is_evicted = false }

-- A lookup of an evicted entry takes it back.
abbrev pub woken : Option Entry → Option Entry
woken none = none
woken (some e) = some (if e.is_weak_del && e.is_evicted then cleared e else e)

abbrev pub evicted : Entry → Entry
evicted e = record e { is_weak_del = true; is_evicted = true }

module _ (hash : CacheHash) (c : Cache) (v : IsValid hash c) (key : Dbt) (is_key : IsKey key) where
  abbrev pub asked : List ℕ
  asked = key_bytes key

  abbrev pub place : Option ℕ
  place = scan (cells c.item_at) asked (c.lightfs_ht_cache (home hash asked))

  pub found :
      {i : ℕ}
      → place ≡ some i
      → (x : HtCacheItem) × (c.item_at i ≡ some x)
        × (key_bytes x.key ≡ asked)
        × (contents hash c asked ≡ some (entry_of x))
  found {i} s =
      let (e, o, k, r) =
        scan-found (cells c.item_at) asked (c.lightfs_ht_cache (home hash asked)) s in
      elim (Option-cases (c.item_at i)) [
        | inl n ↦ absurd (ground (arith, ap cell n, o))
        | inr (x, a) ↦
            let same : entry_of x ≡ e = ground (arith, ap cell a, o) in
            (x, a, ap (λ (y : Entry). key_bytes y.key) same ∙ k, r ∙ ap some (sym same))
      ]

  pub missing : place ≡ none → contents hash c asked ≡ none
  missing s = scan-view (cells c.item_at) asked (c.lightfs_ht_cache (home hash asked)) s

  -- The same entry under the same key.
  pub contents-same :
      (p : List ℕ)
      → contents hash c p
        ≡ elim (lex asked p) [ eq ↦ contents hash c asked | _ ↦ contents hash c p ]
  contents-same p = elim (Ordering-cases (lex asked p)) [
    | inl r ↦ ground arith
    | inr (inl r) ↦ ground (arith, ap (contents hash c) (eq_of_lex asked p r))
    | inr (inr r) ↦ ground arith
  ]

  -- The map after a write to the item that was found.
  pub contents-write :
      (i : ℕ) (x x' : HtCacheItem)
      → place ≡ some i
      → c.item_at i ≡ some x
      → key_bytes x.key ≡ asked
      → (IsDir (some x) → IsDir (some x'))
      → x'.key ≡ x.key
      → (p : List ℕ)
      → contents hash (write c i x') p
        ≡ elim (lex asked p) [ eq ↦ some (entry_of x') | _ ↦ contents hash c p ]
  contents-write i x x' s o k dir same p =
      subst
        (λ q.
          contents hash (write c i x') p
          ≡ elim (lex q p) [ eq ↦ some (entry_of x') | _ ↦ contents hash c p ])
        k
        (contents-entry hash c v i x x' o dir p same (
          subst (λ q. scan (cells c.item_at) q (c.lightfs_ht_cache (home hash q)) ≡ some i) (sym k)
            s))

  -- What a lookup leaves and returns.
  pub record Gets (value : Dbt) (r : Cache × ℤ × Dbt) : Type 0 where
    pub valid : IsValid hash r.0
    pub returns : r.1 ≡ elim (contents hash c asked) [
      | none ↦ db_notfound
      | some e ↦ if e.is_weak_del && e.is_evicted then db_found_free else pos 0
    ]
    pub copied : r.2 ≡ elim (contents hash c asked) [
      | none ↦ value
      | some e ↦ record value { buf = memcpy value.buf 0 e.value.buf value.size }
    ]
    pub reads :
        (p : List ℕ)
        → contents hash r.0 p
          ≡ elim (lex asked p) [ eq ↦ woken (contents hash c asked) | _ ↦ contents hash c p ]

  -- In a valid cache a lookup of a key in bounds always ends and leaves a valid cache. It returns
  -- DB_NOTFOUND where the map has no entry under the key. Else it copies as many bytes of the
  -- entry's value as the caller's `size` asks for, and returns DB_FOUND_FREE and clears the
  -- entry's two flags when both are set, and else returns 0 and leaves the map as it was.
  pub lightfs_ht_cache_get-Gets :
      (value : Dbt)
      → (r : Cache × ℤ × Dbt) × (lightfs_ht_cache_get hash c key value ≡ done r) × Gets value r
  unfolding lightfs_ht_cache_get
  lightfs_ht_cache_get-Gets value = elim (Option-cases place) [
    | inl s ↦ (
      (c, db_notfound, value),
      ground (arith, lookup_lem hash key is_key c v),
      record {
        valid = v;
        returns = ground (arith, missing s);
        copied = ground (arith, missing s);
        reads = λ p. ground (arith, missing s, contents-same p);
      },
    )
    | inr (i, s) ↦
        let (x, o, k, r) = found s in
        elim (Bool-cases (x.is_weak_del && x.is_evicted)) [
          | inr b ↦ (
            (c, pos 0, record value { buf = memcpy value.buf 0 x.value.buf value.size }),
            ground (arith, lookup_lem hash key is_key c v),
            record {
              valid = v;
              returns = ground arith;
              copied = ground arith;
              reads = λ p. ground (arith, contents-same p);
            },
          )
          | inl b ↦
              let x' : HtCacheItem = record x { is_weak_del = false; is_evicted = false } in
              (
                (
                  write c i x',
                  db_found_free,
                  record value { buf = memcpy value.buf 0 x.value.buf value.size },
                ),
                ground (arith, lookup_lem hash key is_key c v),
                record {
                  valid = IsValid-entry hash c v i x x' o (λ d. d) refl refl refl;
                  returns = ground arith;
                  copied = ground arith;
                  reads = λ p. ground (arith, contents-write i x x' s o k (λ d. d) refl p, b, r);
                },
              )
        ]
  ]
