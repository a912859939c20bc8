-- ===== src/Cache/Change.antt =====
-- What writes to the items of kevinfs/lightfs_cache.c do to a valid cache.
use kevin.Base.{
  ℕ, List, Option, none, some, eq, done, ◌≡◌, refl, sym, ap, subst, ◌∙◌, arith, fun_ext,
}
use kevin.Key.{key_bytes}
use kevin.Key.Order.{lex}
use kevin.Cache.{Cache, CacheHash, HtCacheItem, DcacheEntry, upd, write, set_dcache}
use kevin.Cache.Chain.{Entry, scan}
use kevin.Cache.Table.{IsTable, IsTable-key, read-key, read, home, upd-rule}
use kevin.Cache.Map.{entry_of, cell, cells, cells-upd, Given, IsDir, HasDir, IsValid, contents}

pub HasDir-mono :
    (items items' : ℕ → Option HtCacheItem) (o : Option HtCacheItem)
    → ((p : ℕ) → IsDir (items p) → IsDir (items' p))
    → HasDir items o
    → HasDir items' o
HasDir-mono items items' none f h = tt
HasDir-mono items items' (some x) f h = go x.parent h
  where
    go :
        (p : Option ℕ)
        → elim p as (λ _. Type 0) [ none ↦ Unit | some p ↦ IsDir (items p) ]
        → elim p as (λ _. Type 0) [ none ↦ Unit | some p ↦ IsDir (items' p) ]
    go none h = tt
    go (some p) h = f p h

module _ (hash : CacheHash) (c : Cache) (v : IsValid hash c) where
  -- A write to an item that is there, which stays a directory if it was one.
  module _ (i : ℕ) (x x' : HtCacheItem) (o : c.item_at i ≡ some x)
      (dir : IsDir (some x) → IsDir (some x')) where
    pub IsDir-upd : (p : ℕ) → IsDir (c.item_at p) → IsDir (upd c.item_at i (some x') p)
    IsDir-upd p =
        upd-rule (λ p y. IsDir (c.item_at p) → IsDir y) c.item_at i (some x')
          (λ h. dir (subst IsDir o h)) (λ p _ h. h) p

    pub family-write :
        HasDir (upd c.item_at i (some x')) (some x')
        → (j : ℕ) → HasDir (upd c.item_at i (some x')) (upd c.item_at i (some x') j)
    family-write own =
        upd-rule (λ j y. HasDir (upd c.item_at i (some x')) y) c.item_at i (some x') own
          (λ j _.
            HasDir-mono c.item_at (upd c.item_at i (some x')) (c.item_at j) IsDir-upd (v.family j))

    -- The parent stays too.
    pub family-same : x'.parent ≡ x.parent → HasDir (upd c.item_at i (some x')) (some x')
    family-same e =
        let before : HasDir c.item_at (some x) = subst (HasDir c.item_at) o (v.family i) in
        let after : HasDir (upd c.item_at i (some x')) (some x) =
          HasDir-mono c.item_at (upd c.item_at i (some x')) (some x) IsDir-upd before in
        subst
          (λ p. elim p as (λ _. Type 0) [
            | none ↦ Unit
            | some p ↦ IsDir (upd c.item_at i (some x') p)
          ])
          (sym e) after

    -- The entry changes its value or its flags.
    pub IsValid-entry :
        x'.key ≡ x.key → x'.fp ≡ x.fp → x'.parent ≡ x.parent → IsValid hash (write c i x')
    IsValid-entry k f p = record {
      table =
          subst (λ h. IsTable hash h c.next c.lightfs_ht_cache)
            (sym (cells-upd c.item_at i (some x')))
            (IsTable-key hash (cells c.item_at) c.next c.lightfs_ht_cache v.table i (entry_of x)
              (entry_of x') (ap cell o) k f);
      family = family-write (family-same p);
    }

    pub contents-entry :
        (p : List ℕ)
        → x'.key ≡ x.key
        → scan
            (cells c.item_at)
            (key_bytes x.key)
            (c.lightfs_ht_cache (home hash (key_bytes x.key)))
          ≡ some i
        → contents hash (write c i x') p
          ≡ elim (lex (key_bytes x.key) p) [ eq ↦ some (entry_of x') | _ ↦ contents hash c p ]
    contents-entry p k s =
        ap (λ h. read hash h c.lightfs_ht_cache p) (cells-upd c.item_at i (some x'))
        ∙ read-key hash (cells c.item_at) c.next c.lightfs_ht_cache v.table i (entry_of x)
            (entry_of x') (ap cell o) k p s

    -- Only the directory part or the parent changes.
    pub cells-same : entry_of x' ≡ entry_of x → cells (upd c.item_at i (some x')) ≡ cells c.item_at
    cells-same e = fun_ext λ j.
        upd-rule (λ j y. cell y ≡ cell (c.item_at j)) c.item_at i (some x')
          (ap some e ∙ sym (ap cell o)) (λ j _. refl) j

    pub write-keeps :
        entry_of x' ≡ entry_of x
        → x'.parent ≡ x.parent
        → IsValid hash (write c i x') × (cells (write c i x').item_at ≡ cells c.item_at)
    write-keeps e f =
        (IsValid-entry (ap (λ (y : Entry). y.key) e) (ap (λ (y : Entry). y.fp) e) f, cells-same e)

  IsDir-holds :
      (o : Option HtCacheItem)
      → IsDir o
      → (y : HtCacheItem) × (d : DcacheEntry) × (o ≡ some y) × (y.dcache ≡ some d)
  IsDir-holds none h = absurd h
  IsDir-holds (some y) h = go y.dcache refl h
    where
      go :
          (m : Option DcacheEntry)
          → y.dcache ≡ m
          → Given m
          → (z : HtCacheItem) × (d : DcacheEntry) × (some y ≡ some z) × (z.dcache ≡ some d)
      go none e h = absurd h
      go (some d) e h = (y, d, refl, e)

  -- The parent of an item is a directory.
  pub parent_dir :
      (i p : ℕ) (x : HtCacheItem)
      → c.item_at i ≡ some x
      → x.parent ≡ some p
      → (y : HtCacheItem) × (d : DcacheEntry) × (c.item_at p ≡ some y) × (y.dcache ≡ some d)
  parent_dir i p x o e = IsDir-holds (c.item_at p) (
      subst (λ m. elim m as (λ _. Type 0) [ none ↦ Unit | some p ↦ IsDir (c.item_at p) ]) e
        (subst (HasDir c.item_at) o (v.family i)))

  -- A new state of a directory's children.
  pub set_dcache-keeps :
      (p : ℕ) (y : HtCacheItem) (d' : DcacheEntry)
      → c.item_at p ≡ some y
      → (set_dcache c p d' ≡ done (write c p (record y { dcache = some d' })))
        × IsValid hash (write c p (record y { dcache = some d' }))
        × (cells (write c p (record y { dcache = some d' })).item_at ≡ cells c.item_at)
  set_dcache-keeps p y d' o =
      let (valid, same) = write-keeps p y (record y { dcache = some d' }) o (λ _. tt) refl refl in
      (ground arith, valid, same)
