-- ===== src/Tests/Metadata.antt =====
-- The metadata cache at concrete inputs: a root directory with one child, in two chains.
use kevin.Base.{
  ℕ, ◌+◌, ◌%◌, ◌≤◌, List, [], ◌∷◌, Option, none, some, true, false, ℤ, done, ◌≡◌, ◌≢◌, refl, ap,
  arith, length, subst, ◌∙◌,
}
use native.Mathlib.Decide.{ℕ_discrete}
use kevin.Key.{Dbt, IsKey, dbt_setup}
use kevin.Key.Order.{lex}
use kevin.RbTree.{leaf, node, RbLib}
use kevin.Tests.Spine.{spine_lib}
use kevin.Cache.{
  Cache, CacheHash, Child, HtCacheItem, upd, lightfs_ht_cache_get, lightfs_ht_cache_put,
  lightfs_ht_cache_del, lightfs_ht_cache_weak_del,
}
use kevin.Cache.Chain.{scan, Distinct}
use kevin.Cache.Table.{Placed, upd-rule}
use kevin.Cache.Calls.{place, Gets, lightfs_ht_cache_get-Gets}
use kevin.Cache.WeakDel.{WeakDels, lightfs_ht_cache_weak_del-WeakDels}
use kevin.Cache.Del.{Childless, NotChild, Dels, lightfs_ht_cache_del-Dels}
use kevin.Cache.Put.{AreDirs, AreDirs-upd}
use kevin.Cache.Insert.{CanJoin, Puts, lightfs_ht_cache_put-Puts}
use kevin.Cache.Map.{cell, cells, HasDir, IsValid}

abbrev pub test_hash : CacheHash
test_hash = record { crc32 = λ seed bytes. seed + length bytes; hash_min = λ h. h % 2 }

abbrev pub child_lib : RbLib Child
child_lib = spine_lib (hlevel ℕ_discrete)

abbrev pub root_key : Dbt
root_key = dbt_setup (109 ∷ 0 ∷ 0 ∷ 0 ∷ 0 ∷ 0 ∷ 0 ∷ 0 ∷ 0 ∷ 0 ∷ []) 10

-- The child `a` of inode 0.
abbrev pub child_key : Dbt
child_key = dbt_setup (109 ∷ 0 ∷ 0 ∷ 0 ∷ 0 ∷ 0 ∷ 0 ∷ 0 ∷ 0 ∷ 97 ∷ 0 ∷ []) 11

abbrev pub root_item : HtCacheItem
root_item = record {
  key = root_key;
  value = dbt_setup (5 ∷ []) 1;
  is_weak_del = false;
  is_evicted = false;
  fp = 27;
  dcache = some (record {
    is_full = true;
    rb_root = node leaf (record { item = 1; key = child_key }) leaf;
    child = 1;
    e_child = 0;
  });
  parent = none;
}

abbrev pub child_item : HtCacheItem
child_item = record {
  key = child_key;
  value = dbt_setup (7 ∷ []) 1;
  is_weak_del = true;
  is_evicted = true;
  fp = 28;
  dcache = none;
  parent = some 0;
}

abbrev pub no_items : ℕ → Option HtCacheItem
no_items i = none

abbrev pub items : ℕ → Option HtCacheItem
items = upd (upd no_items 0 (some root_item)) 1 (some child_item)

abbrev pub chains : ℕ → List ℕ
chains = upd (upd (λ _. []) 0 (0 ∷ [])) 1 (1 ∷ [])

abbrev pub small_cache : Cache
small_cache = record { item_at = items; next = 2; lightfs_ht_cache = chains }

pub small_valid : IsValid test_hash small_cache
unfolding Distinct scan
small_valid = record {
  table = record {
    fresh =
        upd-rule (λ j o. 2 ≤ j → cell o ≡ none) (upd no_items 0 (some root_item)) 1
          (some child_item) (λ h. absurd (omega arith))
          (λ j _.
            upd-rule (λ j o. 2 ≤ j → cell o ≡ none) no_items 0 (some root_item)
              (λ h. absurd (omega arith)) (λ _ _ _. refl) j);
    placed =
        upd-rule (Placed test_hash (cells items)) (upd (λ _. []) 0 (0 ∷ [])) 1 (1 ∷ [])
          ((omega arith, refl, refl), tt)
          (λ b _.
            upd-rule (Placed test_hash (cells items)) (λ _. []) 0 (0 ∷ [])
              ((omega arith, refl, refl), tt) (λ _ _. tt) b);
    distinct =
        upd-rule (λ _ is. Distinct (cells items) is) (upd (λ _. []) 0 (0 ∷ [])) 1 (1 ∷ [])
          (refl, tt)
          (λ b _.
            upd-rule (λ _ is. Distinct (cells items) is) (λ _. []) 0 (0 ∷ []) (refl, tt) (λ _ _. tt)
              b);
  };
  family =
      upd-rule (λ _ o. HasDir items o) (upd no_items 0 (some root_item)) 1 (some child_item) tt
        (λ j _. upd-rule (λ _ o. HasDir items o) no_items 0 (some root_item) tt (λ _ _. tt) j);
}

abbrev pub one_byte : Dbt
one_byte = dbt_setup (3 ∷ []) 1

pub root_ok : IsKey root_key
root_ok = omega arith

pub child_ok : IsKey child_key
child_ok = omega arith

-- Only the root has the root's key.
root_AreDirs : AreDirs items root_key
root_AreDirs =
    AreDirs-upd (upd no_items 0 (some root_item)) root_key 1 child_item
      (λ e. absurd (omega (arith, ap length e)))
      (AreDirs-upd no_items root_key 0 root_item (λ _. tt) (λ p x e k. absurd (nothing x e)))
  where
    nothing : (x : HtCacheItem) → ◌≡◌ {A = Option HtCacheItem} none (some x) → ⊥
    nothing x e = cc

-- Reading the child takes it back.
lightfs_ht_cache_get-Gets_example :
    (r : Cache × ℤ × Dbt) × (lightfs_ht_cache_get test_hash small_cache child_key one_byte ≡ done r)
    × Gets test_hash small_cache small_valid child_key child_ok one_byte r
lightfs_ht_cache_get-Gets_example =
    lightfs_ht_cache_get-Gets test_hash small_cache small_valid child_key child_ok one_byte

lightfs_ht_cache_weak_del-WeakDels_example :
    (r : Cache × ℤ) × (lightfs_ht_cache_weak_del test_hash small_cache child_key ≡ done r)
    × WeakDels test_hash small_cache small_valid child_key child_ok r
lightfs_ht_cache_weak_del-WeakDels_example =
    lightfs_ht_cache_weak_del-WeakDels test_hash small_cache small_valid child_key child_ok

-- A new file `b` in the root.
abbrev pub new_key : Dbt
new_key = dbt_setup (109 ∷ 0 ∷ 0 ∷ 0 ∷ 0 ∷ 0 ∷ 0 ∷ 0 ∷ 0 ∷ 98 ∷ 0 ∷ []) 11

pub new_ok : IsKey new_key
new_ok = omega arith

pub new_CanJoin : CanJoin small_cache new_key (some root_key)
new_CanJoin = (root_ok, (λ e. omega (arith, ap length e)), root_AreDirs)

lightfs_ht_cache_put-Puts_example :
    (r : Cache × ℤ) × (lightfs_ht_cache_put test_hash child_lib [] small_cache new_key one_byte
        (some root_key)
        false
      ≡ done r)
    × Puts test_hash child_lib [] small_cache small_valid new_key new_ok one_byte false r
lightfs_ht_cache_put-Puts_example =
    lightfs_ht_cache_put-Puts test_hash child_lib [] small_cache small_valid new_key new_ok one_byte
      false (some root_key) new_CanJoin

-- The child has the root as its parent, and no children.
child_alone : Childless small_cache 1
child_alone =
    upd-rule (λ _ o. NotChild 1 o) (upd no_items 0 (some root_item)) 1 (some child_item)
      (λ e. omega (arith, zero_one e))
      (λ j _.
        upd-rule (λ _ o. NotChild 1 o) no_items 0 (some root_item) (λ e. absurd (none_some e))
          (λ _ _. tt) j)
  where
    zero_one : ◌≡◌ {A = Option ℕ} (some 0) (some 1) → ◌≡◌ {A = ℕ} 0 1
    zero_one e = cc

    none_some : ◌≡◌ {A = Option ℕ} none (some 1) → ⊥
    none_some e = cc

pub child_deletable :
    (i : ℕ) (x : HtCacheItem)
    → place test_hash small_cache small_valid child_key child_ok ≡ some i
    → small_cache.item_at i ≡ some x
    → (x.parent ≢ none) × Childless small_cache i
unfolding scan lex
child_deletable i x s o =
    let one : ◌≡◌ {A = ℕ} 1 i = is_one i s in
    let same : child_item ≡ x = is_child x (ap items one ∙ o) in
    (
      subst (λ (y : HtCacheItem). y.parent ≢ none) same some_none,
      subst (Childless small_cache) one child_alone,
    )
  where
    is_one : (i : ℕ) → ◌≡◌ {A = Option ℕ} (some 1) (some i) → ◌≡◌ {A = ℕ} 1 i
    is_one i e = cc

    is_child : (x : HtCacheItem) → some child_item ≡ some x → child_item ≡ x
    is_child x e = cc

    some_none : ◌≢◌ {A = Option ℕ} (some 0) none
    some_none e = cc

lightfs_ht_cache_del-Dels_example :
    (r : Cache × ℤ) × (lightfs_ht_cache_del test_hash child_lib small_cache child_key false
      ≡ done r)
    × Dels test_hash small_cache small_valid child_key child_ok r
lightfs_ht_cache_del-Dels_example =
    lightfs_ht_cache_del-Dels test_hash small_cache small_valid child_key child_ok child_lib false
      child_deletable
