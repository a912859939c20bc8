-- ===== src/Cache/Chain.antt =====
-- A chain of the hash table of kevinfs/lightfs_cache.c, as the map from key bytes to entries.
use kevin.Base.{
  ℕ, List, [], ◌∷◌, Option, none, some, Bool, true, false, eq, ◌==◌, if◌then◌else◌, ◌≡◌, ◌≢◌, refl,
  sym, ap, subst, ◌∙◌, inl, inr, Bool-cases, Option-cases, Ordering-cases, arith, All,
}
use kevin.Key.{Dbt, key_bytes}
use kevin.Key.Order.{lex, lex_refl, eq_of_lex}
use kevin.Cache.{upd, remove_id}

-- What a lookup reads of an item.
pub record Entry : Type 0 where
  pub key : Dbt
  pub value : Dbt
  pub is_weak_del : Bool
  pub is_evicted : Bool
  pub fp : ℕ

abbrev pub Cells : Type 0
Cells = ℕ → Option Entry

-- The first address and the first entry under the key `q`.
unfoldable pub scan : Cells → List ℕ → List ℕ → Option ℕ
scan h q [] = none
scan h q (i ∷ is) = elim (h i) [
  | none ↦ scan h q is
  | some e ↦ elim (lex (key_bytes e.key) q) [ eq ↦ some i | _ ↦ scan h q is ]
]

unfoldable pub view : Cells → List ℕ → List ℕ → Option Entry
view h q [] = none
view h q (i ∷ is) = elim (h i) [
  | none ↦ view h q is
  | some e ↦ elim (lex (key_bytes e.key) q) [ eq ↦ some e | _ ↦ view h q is ]
]

-- Every address holds an entry, and no key stands twice.
abbrev pub Alone : Cells → Option Entry → List ℕ → Type 0
Alone h none is = ⊥
Alone h (some e) is = scan h (key_bytes e.key) is ≡ none

unfoldable pub Distinct : Cells → List ℕ → Type 0
Distinct h [] = Unit
Distinct h (i ∷ is) = Alone h (h i) is × Distinct h is

abbrev pub NotIn : ℕ → List ℕ → Type 0
NotIn i is = All (λ j. (j == i) ≡ false) is

module _ (h : Cells) where
  pub scan-head :
      (q : List ℕ) (i : ℕ) (e : Entry) (is : List ℕ)
      → h i ≡ some e
      → key_bytes e.key ≡ q
      → scan h q (i ∷ is) ≡ some i
  unfolding scan
  scan-head q i e is o k = ground (arith, lex_refl q, ap (λ p. lex p q) k)

  pub scan-view : (q : List ℕ) (is : List ℕ) → scan h q is ≡ none → view h q is ≡ none
  unfolding scan view
  scan-view q [] s = refl
  scan-view q (i ∷ is) s = ground (arith, scan-view q is)

  -- What a search finds.
  pub scan-found :
      (q : List ℕ) (is : List ℕ) {i : ℕ}
      → scan h q is ≡ some i
      → (e : Entry) × (h i ≡ some e) × (key_bytes e.key ≡ q) × (view h q is ≡ some e)
  unfolding scan view
  scan-found q [] {i = i} s = absurd (ground arith)
  scan-found q (j ∷ is) {i = i} s = elim (Option-cases (h j)) [
    | inl o ↦ let (e, a, b, c) = scan-found q is (ground arith) in (e, a, b, ground arith)
    | inr (x, o) ↦ elim (Ordering-cases (lex (key_bytes x.key) q)) [
      | inl r ↦ let (e, a, b, c) = scan-found q is (ground arith) in (e, a, b, ground arith)
      | inr (inl r) ↦ (x, ground arith, eq_of_lex (key_bytes x.key) q r, ground arith)
      | inr (inr r) ↦ let (e, a, b, c) = scan-found q is (ground arith) in (e, a, b, ground arith)
    ]
  ]

  module _ (i : ℕ) (o : Option Entry) where
    -- A chain without the address does not see a write to it.
    pub scan-upd : (q : List ℕ) (is : List ℕ) → NotIn i is → scan (upd h i o) q is ≡ scan h q is
    unfolding scan
    scan-upd q [] n = refl
    scan-upd q (j ∷ is) n = ground (arith, scan-upd q is)

    pub view-upd : (q : List ℕ) (is : List ℕ) → NotIn i is → view (upd h i o) q is ≡ view h q is
    unfolding view
    view-upd q [] n = refl
    view-upd q (j ∷ is) n = ground (arith, view-upd q is)

    upd-ne : (j : ℕ) → (j == i) ≡ false → upd h i o j ≡ h j
    upd-ne j n = ground arith

    Alone-upd :
        (x : Option Entry) (is : List ℕ) → NotIn i is → Alone h x is → Alone (upd h i o) x is
    Alone-upd none is n a = a
    Alone-upd (some e) is n a = scan-upd (key_bytes e.key) is n ∙ a

    pub Distinct-upd : (is : List ℕ) → NotIn i is → Distinct h is → Distinct (upd h i o) is
    unfolding Distinct
    Distinct-upd [] n d = tt
    Distinct-upd (j ∷ is) n d = (
      subst (λ x. Alone (upd h i o) x is) (sym (upd-ne j n.0)) (Alone-upd (h j) is n.1 d.0),
      Distinct-upd is n.1 d.1,
    )

  -- An entry whose key is not in a chain is not in the chain.
  pub NotIn-scan :
      (i : ℕ) (e : Entry) (is : List ℕ)
      → h i ≡ some e
      → scan h (key_bytes e.key) is ≡ none
      → NotIn i is
  unfolding scan
  NotIn-scan i e [] o s = tt
  NotIn-scan i e (j ∷ is) o s = elim (Bool-cases (j == i)) [
    | inl same ↦
        let k : j ≡ i = ground arith in absurd (ground (arith, ap h k, lex_refl (key_bytes e.key)))
    | inr other ↦ (other, NotIn-scan i e is o (ground (arith, absent (key_bytes e.key) j is s)))
  ]
    where
      absent : (q : List ℕ) (j : ℕ) (is : List ℕ) → scan h q (j ∷ is) ≡ none → scan h q is ≡ none
      absent q j is s = ground arith

  -- The entry in place of the one under the key.
  module _ (i : ℕ) (e e' : Entry) (o : h i ≡ some e) (same : e'.key ≡ e.key) where
    here : (j : ℕ) → (j == i) ≡ true → h j ≡ some e
    here j t = let k : j ≡ i = ground arith in ap h k ∙ o

    pub scan-key : (q : List ℕ) (is : List ℕ) → scan (upd h i (some e')) q is ≡ scan h q is
    unfolding scan
    scan-key q [] = refl
    scan-key q (j ∷ is) =
        ground (arith, scan-key q is, here j, ap (λ (k : Dbt). lex (key_bytes k) q) same)

    -- The map under another key stays.
    pub view-other :
        (q : List ℕ) (is : List ℕ)
        → lex (key_bytes e.key) q ≢ eq
        → view (upd h i (some e')) q is ≡ view h q is
    unfolding view
    view-other q [] ne = refl
    view-other q (j ∷ is) ne =
        ground (arith, view-other q is, here j, ap (λ (k : Dbt). lex (key_bytes k) q) same)

    Alone-key : (x : Option Entry) (is : List ℕ) → Alone h x is → Alone (upd h i (some e')) x is
    Alone-key none is a = a
    Alone-key (some y) is a = scan-key (key_bytes y.key) is ∙ a

    Alone-here : (is : List ℕ) → Alone h (some e) is → Alone (upd h i (some e')) (some e') is
    Alone-here is a =
        scan-key (key_bytes e'.key) is ∙ ap (λ (k : Dbt). scan h (key_bytes k) is) same ∙ a

    pub Distinct-key : (is : List ℕ) → Distinct h is → Distinct (upd h i (some e')) is
    unfolding Distinct
    Distinct-key [] d = tt
    Distinct-key (j ∷ is) d = (
      elim (Bool-cases (j == i)) [
        | inl t ↦
            let at_j : upd h i (some e') j ≡ some e' = ground arith in
            subst (λ x. Alone (upd h i (some e')) x is) (sym at_j)
              (Alone-here is (subst (λ x. Alone h x is) (here j t) d.0))
        | inr t ↦
            subst (λ x. Alone (upd h i (some e')) x is) (sym (upd-ne i (some e') j t))
              (Alone-key (h j) is d.0)
      ],
      Distinct-key is d.1,
    )

    -- The map under every key.
    pub view-key :
        (q : List ℕ) (is : List ℕ)
        → scan h (key_bytes e.key) is ≡ some i
        → view (upd h i (some e')) q is
          ≡ elim (lex (key_bytes e.key) q) [ eq ↦ some e' | _ ↦ view h q is ]
    unfolding view scan
    view-key q [] s = absurd (ground arith)
    view-key q (j ∷ is) s = ground (
      arith,
      view-key q is,
      eq_of_lex (key_bytes e.key) q,
      view-other q is,
      here j,
      ap (λ (k : Dbt). lex (key_bytes k) q) same,
      lex_refl (key_bytes e.key),
    )

  -- The chain without the address that is under a key.
  pub scan-remove :
      (i : ℕ) (q : List ℕ) (is : List ℕ) → scan h q is ≡ none → scan h q (remove_id i is) ≡ none
  unfolding scan
  scan-remove i q [] s = refl
  scan-remove i q (j ∷ is) s = ground (arith, scan-remove i q is)

  Alone-remove :
      (i : ℕ) (x : Option Entry) (is : List ℕ) → Alone h x is → Alone h x (remove_id i is)
  Alone-remove i none is a = a
  Alone-remove i (some e) is a = scan-remove i (key_bytes e.key) is a

  pub Distinct-remove : (i : ℕ) (is : List ℕ) → Distinct h is → Distinct h (remove_id i is)
  unfolding Distinct
  Distinct-remove i [] d = tt
  Distinct-remove i (j ∷ is) d =
      elim (j == i) as (λ b. Distinct h (if b then is else j ∷ remove_id i is)) [
        | true ↦ d.1
        | false ↦ (Alone-remove i (h j) is d.0, Distinct-remove i is d.1)
      ]

  module _ (i : ℕ) (e : Entry) (o : h i ≡ some e) where
    at_here : (j : ℕ) → (j == i) ≡ true → h j ≡ some e
    at_here j t = let k : j ≡ i = ground arith in ap h k ∙ o

    gone :
        (j : ℕ) (is : List ℕ)
        → (j == i) ≡ true
        → Alone h (h j) is
        → scan h (key_bytes e.key) is ≡ none
    gone j is t a = subst (λ x. Alone h x is) (at_here j t) a

    at_entry : (j : ℕ) (is : List ℕ) → (j == i) ≡ true → Alone h (h j) is → NotIn i is
    at_entry j is t a = NotIn-scan i e is o (gone j is t a)

    pub NotIn-remove : (is : List ℕ) → Distinct h is → NotIn i (remove_id i is)
    unfolding Distinct
    NotIn-remove [] d = tt
    NotIn-remove (j ∷ is) d = elim (Bool-cases (j == i)) [
      | inl t ↦ ground (arith, at_entry j is t d.0)
      | inr t ↦ ground (arith, NotIn-remove is d.1)
    ]

    pub view-remove :
        (q : List ℕ) (is : List ℕ)
        → Distinct h is
        → scan h (key_bytes e.key) is ≡ some i
        → view h q (remove_id i is) ≡ elim (lex (key_bytes e.key) q) [ eq ↦ none | _ ↦ view h q is ]
    unfolding view scan Distinct
    view-remove q [] d s = absurd (ground arith)
    view-remove q (j ∷ is) d s = ground (
      arith,
      view-remove q is d.1,
      at_here j,
      gone j is,
      scan-view q is,
      eq_of_lex (key_bytes e.key) q,
      lex_refl (key_bytes e.key),
    )
