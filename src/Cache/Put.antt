-- ===== src/Cache/Put.antt =====
-- Insertion in kevinfs/lightfs_cache.c: a new value in place, or a new item, which joins its directory.
use kevin.Base.{
  ℕ, List, [], ◌∷◌, Option, none, some, true, ◌==◌, ◌&&◌, Outcome, done, blocked, bug, ◌>>=◌, ◌≡◌,
  refl, sym, ap, subst, ◌∙◌, inl, inr, Option-cases, Bool-cases, Ordering-cases, arith,
}
use kevin.Key.{Dbt, IsKey, key_bytes}
use kevin.Key.Compare.{lightfs_keycmp-lex}
use kevin.Key.Order.{lex, eq_of_lex}
use kevin.RbTree.{RbLib}
use kevin.Txn.{add32}
use kevin.Cache.{
  Cache, CacheHash, Child, HtCacheItem, DcacheEntry, upd, write, set_dcache, set_parent, same_key,
  finger, lightfs_dcache_insert, join_dir,
}
use kevin.Cache.Table.{IsTable, Belongs, Placed, upd-rule}
use kevin.Cache.Map.{entry_of, cell, cells, Given, IsDir, IsValid}
use kevin.Cache.Change.{cells-same, family-write, IsDir-upd, set_dcache-keeps}
use kevin.Cache.WeakDel.{Keeps}

-- Every item under the key of `d` is a directory.
abbrev pub AreDirs : (ℕ → Option HtCacheItem) → Dbt → Type 0
AreDirs items d =
    (p : ℕ) (x : HtCacheItem) → items p ≡ some x → key_bytes x.key ≡ key_bytes d → IsDir (some x)

pub AreDirs-upd :
    (items : ℕ → Option HtCacheItem) (d : Dbt) (i : ℕ) (x' : HtCacheItem)
    → (key_bytes x'.key ≡ key_bytes d → IsDir (some x'))
    → AreDirs items d
    → AreDirs (upd items i (some x')) d
AreDirs-upd items d i x' own f p =
    upd-rule
      (λ _ y. (x : HtCacheItem) → y ≡ some x → key_bytes x.key ≡ key_bytes d → IsDir (some x)) items
      i (some x')
      (λ x e k.
        let same : x' ≡ x = cc in
        subst (λ z. IsDir (some z)) same (own (ap (λ (z : HtCacheItem). key_bytes z.key) same ∙ k)))
      (λ p _. f p) p

two_ways : (x : HtCacheItem) (t : DcacheEntry) → x.dcache ≡ some t → x.dcache ≡ none → ⊥
two_ways x t a b = cc

-- An item that is not a directory.
abbrev pub IsPlain : Option HtCacheItem → Type 0
IsPlain none = ⊥
IsPlain (some x) = x.dcache ≡ none

abbrev pub StayPlain : Cache → Cache → Type 0
StayPlain c c' = (i : ℕ) → IsPlain (c.item_at i) → IsPlain (c'.item_at i)

>>=-assoc_done :
    (m : Outcome Cache) (f g : Cache → Outcome Cache) {c : Cache}
    → (m >>= f) ≡ done c
    → (m >>= λ a. f a >>= g) ≡ g c
>>=-assoc_done (done a) f g e = ground (arith, e)
>>=-assoc_done blocked f g e = absurd (ground (arith, e))
>>=-assoc_done bug f g e = absurd (ground (arith, e))

after_write :
    (c : Cache) (p i : ℕ) (y x : HtCacheItem)
    → c.item_at i ≡ some x
    → (x' : HtCacheItem) × ((write c p y).item_at i ≡ some x')
after_write c p i y x o = elim (Bool-cases (i == p)) [
  | inl s ↦ (y, ground arith)
  | inr s ↦ (x, ground arith)
]

module _ (hash : CacheHash) (lib : RbLib Child) (new : Child) (d : Dbt) (is_key : IsKey d) where
  -- One directory takes the child.
  join_one :
      (c : Cache) (p : ℕ) (dir x : HtCacheItem) (t t' : DcacheEntry)
      → (v : IsValid hash c) → AreDirs c.item_at d
      → c.item_at p ≡ some dir
      → dir.dcache ≡ some t
      → c.item_at new.item ≡ some x
      → (c' : Cache) × (x' : HtCacheItem) × ((set_dcache c p t' >>= λ c. set_parent c new.item p)
          ≡ done c')
        × Keeps hash c v c'
        × AreDirs c'.item_at d
        × (c'.item_at new.item ≡ some x')
        × StayPlain c c'
  join_one c p dir x t t' v dirs at_p has at_new =
      let (run, v₁, same₁) = set_dcache-keeps hash c v p dir t' at_p in
      let dir' : HtCacheItem = record dir { dcache = some t' } in
      let c₁ : Cache = write c p dir' in
      let (x₁, o₁) = after_write c p new.item dir' x at_new in
      let x₂ : HtCacheItem = record x₁ { parent = some p } in
      let c₂ : Cache = write c₁ new.item x₂ in
      let at_dir : some dir' ≡ c₁.item_at p = ground arith in
      let dir₂ : IsDir (c₂.item_at p) =
        IsDir-upd hash c₁ v₁ new.item x₁ x₂ o₁ (λ h. h) p (subst IsDir at_dir tt) in
      let dirs₁ : AreDirs c₁.item_at d = AreDirs-upd c.item_at d p dir' (λ _. tt) dirs in
      let same₂ : cells c₂.item_at ≡ cells c₁.item_at =
        cells-same hash c₁ v₁ new.item x₁ x₂ o₁ (λ h. h) refl in
      (
        c₂,
        x₂,
        ground (arith, run),
        record {
          valid = record {
            table = subst (λ h. IsTable hash h c.next c.lightfs_ht_cache) (sym same₂) v₁.table;
            family = family-write hash c₁ v₁ new.item x₁ x₂ o₁ (λ h. h) dir₂;
          };
          same_cells = same₂ ∙ same₁;
          same_table = refl;
        },
        AreDirs-upd c₁.item_at d new.item x₂ (λ k. dirs₁ new.item x₁ o₁ k) dirs₁,
        ground arith,
        λ i h.
            upd-rule (λ i y. IsPlain (c₁.item_at i) → IsPlain y) c₁.item_at new.item (some x₂)
              (λ k. subst IsPlain o₁ k) (λ _ _ k. k) i
              (upd-rule (λ i y. IsPlain (c.item_at i) → IsPlain y) c.item_at p (some dir')
                (λ k. absurd (two_ways dir t has (subst IsPlain at_p k))) (λ _ _ k. k) i h),
      )

  pub named : (k : Dbt) → IsKey k → same_key k d ≡ true → key_bytes k ≡ key_bytes d
  named k h s = elim (Ordering-cases (lex (key_bytes k) (key_bytes d))) [
    | inl r ↦ absurd (ground (arith, lightfs_keycmp-lex k.buf d.buf k.size d.size h is_key))
    | inr (inl r) ↦ eq_of_lex (key_bytes k) (key_bytes d) r
    | inr (inr r) ↦ absurd (ground (arith, lightfs_keycmp-lex k.buf d.buf k.size d.size h is_key))
  ]

  -- The loop over the chain of the directory keeps every entry.
  pub join_dir-Keeps :
      (c : Cache) (b : ℕ) (x : HtCacheItem) (ps : List ℕ)
      → (v : IsValid hash c) → Placed hash (cells c.item_at) b ps
      → AreDirs c.item_at d
      → c.item_at new.item ≡ some x
      → (c' : Cache) × (join_dir hash lib c new d ps ≡ done c') × Keeps hash c v c' × StayPlain c c'
  unfolding join_dir
  join_dir-Keeps c b x [] v at_b dirs at_new =
      (c, refl, record { valid = v; same_cells = refl; same_table = refl }, λ i h. h)
  join_dir-Keeps c b x (p ∷ ps) v at_b dirs at_new =
      let rest = join_dir-Keeps c b x ps v at_b.1 dirs at_new in
      elim (Option-cases (c.item_at p)) [
        | inl o ↦ absurd (subst (λ y. Belongs hash b (cell y)) o at_b.0)
        | inr (dir, o) ↦
            let own : Belongs hash b (some (entry_of dir)) =
              subst (λ y. Belongs hash b (cell y)) o at_b.0 in
            elim (Bool-cases (dir.fp == finger hash d && same_key dir.key d)) [
              | inr miss ↦ (rest.0, ground (arith, rest.1), rest.2, rest.3)
              | inl hit ↦
                  let is_dir = dirs p dir o (named dir.key own.0 (ground arith)) in
                  elim (Option-cases dir.dcache) [
                    | inl none_there ↦ absurd (subst Given none_there is_dir)
                    | inr (t, has) ↦
                        let grown = lightfs_dcache_insert hash lib t new in
                        let t' : DcacheEntry = record grown { child = add32 grown.child 1 } in
                        let (c₁, x₁, run, k, dirs₁, at_new₁, plain) =
                          join_one c p dir x t t' v dirs o has at_new in
                        let later =
                          join_dir-Keeps c₁ b x₁ ps k.valid
                            (subst (λ h. Placed hash h b ps) (sym k.same_cells) at_b.1) dirs₁
                            at_new₁ in
                        (
                          later.0,
                          ground (
                            arith,
                            >>=-assoc_done (set_dcache c p t') (λ c. set_parent c new.item p)
                                (λ c. join_dir hash lib c new d ps) run,
                            later.1,
                          ),
                          record {
                            valid = later.2.valid;
                            same_cells = later.2.same_cells ∙ k.same_cells;
                            same_table = later.2.same_table ∙ k.same_table;
                          },
                          λ i h. later.3 i (plain i h),
                        )
                  ]
            ]
      ]
