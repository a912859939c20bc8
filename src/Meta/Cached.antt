-- ===== src/Meta/Cached.antt =====
-- Metadata read through the cache: what `lightfs_bstore_meta_get` answers, and that it reads back what
-- `lightfs_bstore_meta_put` put.
use kevin.Base.{
  ℕ, zero, suc, ◌+◌, List, [], ◌∷◌, ◌++◌, Option, none, some, Bool, false, eq, ◌&&◌, if◌then◌else◌,
  ℤ, pos, done, ◌≡◌, refl, ap, ◌∙◌, inl, inr, Bool-cases, Option-cases, arith, length, take, drop,
  append-nil, take-append_left, take_all,
}
use kevin.Key.{Dbt, IsKey, key_bytes, dbt_setup, memcpy}
use kevin.Key.Order.{lex, lex_refl}
use kevin.RbTree.{RbLib}
use kevin.Txn.{DbTxn, meta_set}
use kevin.Txn.Insert.{lightfs_bstore_txn_insert}
use kevin.Cache.{Cache, CacheHash, Child}
use kevin.Cache.Chain.{Entry}
use kevin.Cache.Map.{IsValid, contents}
use kevin.Cache.Calls.{woken, lightfs_ht_cache_get-Gets}
use kevin.Cache.Insert.{CanJoin, stored, lightfs_ht_cache_put-Puts}
use kevin.Meta.{enoent, lightfs_bstore_meta_get, lightfs_bstore_meta_put}

pub drop_all : (n : ℕ) (out : List ℕ) → length out ≡ n → drop (0 + n) out ≡ []
drop_all zero [] e = refl
drop_all (suc n) [] e = absurd (ground arith)
drop_all zero (x ∷ out) e = absurd (ground arith)
drop_all (suc n) (x ∷ out) e =
    let shift : 0 + suc n ≡ suc (0 + n) = ground arith in
    ap (λ k. drop k (x ∷ out)) shift ∙ drop_all n out (ground arith)

-- A copy into a buffer and back.
copy_back :
    (b out m : List ℕ)
    → length out ≡ length m
    → memcpy out 0 (memcpy b 0 m (length m)) (length out) ≡ m
copy_back b out m e =
    let back : take (length out) (memcpy b 0 m (length m)) ≡ m =
      ap (λ n. take n (memcpy b 0 m (length m))) e
      ∙ take-append_left (take (length m) m) (drop (0 + length m) b) (length m)
          (ap length (take_all m))
      ∙ take_all m in
    ap (λ r. take (length out) (memcpy b 0 m (length m)) ++ r) (drop_all (length out) out refl)
    ∙ append-nil (take (length out) (memcpy b 0 m (length m)))
    ∙ back

-- How a call of `lightfs_bstore_meta_get` ends, by the entry under the key.
abbrev pub answer_of : (Dbt → Dbt → ℤ × Dbt) → Dbt → List ℕ → Option Entry → ℤ × List ℕ
answer_of get key m none = (enoent, m)
answer_of get key m (some e) =
    let out = memcpy m 0 e.value.buf (length m) in
    let a = get key (dbt_setup out (length m)) in
    if e.is_weak_del && e.is_evicted then (a.0, a.1.buf) else (pos 0, out)

abbrev pub with_cache : Cache → ℤ × List ℕ → Cache × ℤ × List ℕ
with_cache c a = (c, a.0, a.1)

module _ (hash : CacheHash) (c : Cache) (v : IsValid hash c) (key : Dbt) (is_key : IsKey key) where
  -- In a valid cache `lightfs_bstore_meta_get` of a key in bounds always ends and leaves a valid
  -- cache. It returns -ENOENT where the cache has no entry under the key, whatever the store has;
  -- it returns the store's answer where both flags of the entry are set, which it clears; and else
  -- 0 with the cached metadata. Every other key keeps its entry.
  pub lightfs_bstore_meta_get_lem :
      (get : Dbt → Dbt → ℤ × Dbt) (m : List ℕ)
      → (c' : Cache) × (lightfs_bstore_meta_get hash get c key m
          ≡ done (with_cache c' (answer_of get key m (contents hash c (key_bytes key)))))
        × IsValid hash c'
        × ((p : List ℕ)
            → contents hash c' p ≡ elim (lex (key_bytes key) p) [
              | eq ↦ woken (contents hash c (key_bytes key))
              | _ ↦ contents hash c p
            ])
  unfolding lightfs_bstore_meta_get
  lightfs_bstore_meta_get_lem get m =
      let value = dbt_setup m (length m) in
      let (r, run, g) = lightfs_ht_cache_get-Gets hash c v key is_key value in
      (
        r.0,
        elim (Option-cases (contents hash c (key_bytes key))) [
          | inl n ↦ rw (run, n) (ground (arith, g.returns, g.copied))
          | inr (e, o) ↦ elim (Bool-cases (e.is_weak_del && e.is_evicted)) [
            | inl b ↦ ground (arith, run, g.returns, g.copied, b, o)
            | inr b ↦ ground (arith, run, g.returns, g.copied, b, o)
          ]
        ],
        g.valid,
        g.reads,
      )

module _ (hash : CacheHash) (lib : RbLib Child) (c : Cache) (v : IsValid hash c) where
  pub stored-value :
      (mem : List ℕ) (key : Dbt) (m out : List ℕ) (o : Option Entry)
      → length out ≡ length m
      → memcpy out 0 (stored hash mem key (dbt_setup m (length m)) o).value.buf (length out) ≡ m
  stored-value mem key m out none e = copy_back mem out m e
  stored-value mem key m out (some x) e = copy_back x.value.buf out m e

  pub stored-flags :
      (mem : List ℕ) (key value : Dbt) (o : Option Entry)
      → (stored hash mem key value o).is_weak_del ≡ false
  stored-flags mem key value none = refl
  stored-flags mem key value (some x) = refl

  -- From a valid cache `lightfs_bstore_meta_put` of a key in bounds, with no directory or one of
  -- another key in bounds under which all items are directories, ends with 0, and a
  -- `lightfs_bstore_meta_get` of the key after it, into as many bytes, returns 0 and the metadata
  -- that was put.
  meta_get-meta_put :
      (mem page : List ℕ) (txn : DbTxn) (key : Dbt) (m out : List ℕ) (dir_key : Option Dbt)
      (is_dir : Bool) (get : Dbt → Dbt → ℤ × Dbt)
      → IsKey key
      → CanJoin c key dir_key
      → length out ≡ length m
      → (c' : Cache) × (c'' : Cache) × (lightfs_bstore_meta_put hash lib mem page c txn key m
            dir_key is_dir
          ≡ done (
            c',
            lightfs_bstore_txn_insert txn key (some (dbt_setup m (length m))) page 0 meta_set,
            pos 0,
          ))
        × (lightfs_bstore_meta_get hash get c' key out ≡ done (c'', pos 0, m))
  unfolding lightfs_bstore_meta_put
  meta_get-meta_put mem page txn key m out dir_key is_dir get is_key can same =
      let value = dbt_setup m (length m) in
      let (r, run, p) =
        lightfs_ht_cache_put-Puts hash lib mem c v key is_key value is_dir dir_key can in
      let (c'', got, _, _) = lightfs_bstore_meta_get_lem hash r.0 p.valid key is_key get out in
      let o = contents hash c (key_bytes key) in
      let there : contents hash r.0 (key_bytes key) ≡ some (stored hash mem key value o) =
        ground (arith, p.reads (key_bytes key), lex_refl (key_bytes key)) in
      (
        r.0,
        c'',
        ground (arith, run),
        ground (arith, got, there, stored-flags mem key value o, stored-value mem key m out o same),
      )
