-- ===== src/Cache/Table.antt =====
-- The hash table of kevinfs/lightfs_cache.c as a map, and the three ways in which the calls change it.
use kevin.Base.{
  ℕ, ◌+◌, ◌≤◌, List, [], ◌∷◌, Option, none, some, true, false, eq, ◌==◌, if◌then◌else◌, ◌≡◌, ◌≢◌,
  refl, sym, ap, subst, ◌∙◌, inl, inr, Bool-cases, Ordering-cases, arith, All, All-imp,
}
use kevin.Key.{Dbt, IsKey, key_bytes}
use kevin.Key.Order.{lex, eq_of_lex}
use kevin.Cache.{CacheHash, upd, remove_id}
use kevin.Cache.Chain.{
  Entry, Cells, scan, view, Distinct, Alone, NotIn, scan-upd, view-upd, Distinct-upd, view-key,
  view-other, Distinct-key, Distinct-remove, NotIn-remove, view-remove,
}

pub eq_of_test : (j i : ℕ) → (j == i) ≡ true → j ≡ i
eq_of_test j i s = ground arith

-- A predicate of every value after a change at one place.
pub upd-rule {ℓ κ} :
    {A : Type ℓ} (P : ℕ → A → Type κ) (f : ℕ → A) (i : ℕ) (a : A)
    → P i a
    → ((j : ℕ) → (j == i) ≡ false → P j (f j))
    → (j : ℕ) → P j (upd f i a j)
upd-rule P f i a here there j = elim (Bool-cases (j == i)) [
  | inl s ↦
      let new : a ≡ upd f i a j = ground arith in
      subst (P j) new (subst (λ k. P k a) (sym (eq_of_test j i s)) here)
  | inr s ↦ let old : f j ≡ upd f i a j = ground arith in subst (P j) old (there j s)
]

module _ (hash : CacheHash) where
  abbrev pub home : List ℕ → ℕ
  home q = hash.hash_min (hash.crc32 0 q)

  -- The cell belongs to the chain `b`.
  abbrev pub Belongs : ℕ → Option Entry → Type 0
  Belongs b none = ⊥
  Belongs b (some e) =
      IsKey e.key × (e.fp ≡ hash.crc32 17 (key_bytes e.key)) × (home (key_bytes e.key) ≡ b)

  abbrev pub Placed : Cells → ℕ → List ℕ → Type 0
  Placed h b is = All (λ i. Belongs b (h i)) is

  -- No address from `next` on is in use; every address of a chain belongs there, and no key stands
  -- twice.
  pub record IsTable (h : Cells) (next : ℕ) (table : ℕ → List ℕ) : Type 0 where
    pub fresh : (i : ℕ) → next ≤ i → h i ≡ none
    pub placed : (b : ℕ) → Placed h b (table b)
    pub distinct : (b : ℕ) → Distinct h (table b)

  -- The map.
  abbrev pub read : Cells → (ℕ → List ℕ) → List ℕ → Option Entry
  read h table q = view h q (table (home q))

  Placed-upd :
      (h : Cells) (i : ℕ) (o : Option Entry) (b : ℕ) (is : List ℕ)
      → NotIn i is
      → Placed h b is
      → Placed (upd h i o) b is
  Placed-upd h i o b [] n p = tt
  Placed-upd h i o b (j ∷ is) n p =
      let same : h j ≡ upd h i o j = ground arith in
      (subst (Belongs b) same p.0, Placed-upd h i o b is n.1 p.1)

  Placed-remove : (h : Cells) (i b : ℕ) (is : List ℕ) → Placed h b is → Placed h b (remove_id i is)
  Placed-remove h i b [] p = tt
  Placed-remove h i b (j ∷ is) p =
      elim (j == i) as (λ t. Placed h b (if t then is else j ∷ remove_id i is)) [
        | true ↦ p.1
        | false ↦ (p.0, Placed-remove h i b is p.1)
      ]

  -- An address is in no chain if it is unused, or in no other chain than its own.
  pub NotIn-unused : (h : Cells) (i b : ℕ) (is : List ℕ) → h i ≡ none → Placed h b is → NotIn i is
  NotIn-unused h i b [] o p = tt
  NotIn-unused h i b (j ∷ is) o p = elim (Bool-cases (j == i)) [
    | inl t ↦ let k : j ≡ i = ground arith in absurd (subst (Belongs b) (ap h k ∙ o) p.0)
    | inr t ↦ (t, NotIn-unused h i b is o p.1)
  ]

  NotIn-other :
      (h : Cells) (i b : ℕ) (e : Entry) (is : List ℕ)
      → h i ≡ some e
      → home (key_bytes e.key) ≢ b
      → Placed h b is
      → NotIn i is
  NotIn-other h i b e [] o ne p = tt
  NotIn-other h i b e (j ∷ is) o ne p = elim (Bool-cases (j == i)) [
    | inl t ↦
        let k : j ≡ i = ground arith in
        let own : Belongs b (some e) = subst (Belongs b) (ap h k ∙ o) p.0 in absurd (ne own.2)
    | inr t ↦ (t, NotIn-other h i b e is o ne p.1)
  ]

  module _ (h : Cells) (next : ℕ) (table : ℕ → List ℕ) (t : IsTable h next table) where
    -- A new value under a key.
    module _ (i : ℕ) (e e' : Entry) (o : h i ≡ some e) (same : e'.key ≡ e.key) where
      Belongs-key : (fp : e'.fp ≡ e.fp) (b : ℕ) → Belongs b (h i) → Belongs b (some e')
      Belongs-key fp b p =
          let own : Belongs b (some e) = subst (Belongs b) o p in
          (
            subst IsKey (sym same) own.0,
            fp ∙ own.1 ∙ ap (λ (k : Dbt). hash.crc32 17 (key_bytes k)) (sym same),
            ap (λ (k : Dbt). home (key_bytes k)) same ∙ own.2,
          )

      Placed-key :
          (fp : e'.fp ≡ e.fp) (b : ℕ) (j : ℕ) → Belongs b (h j) → Belongs b (upd h i (some e') j)
      Placed-key fp b j =
          upd-rule (λ j x. Belongs b (h j) → Belongs b x) h i (some e') (Belongs-key fp b)
            (λ j _ p. p) j

      pub IsTable-key : e'.fp ≡ e.fp → IsTable (upd h i (some e')) next table
      IsTable-key fp = record {
        fresh = λ j le.
            upd-rule (λ j x. h j ≡ none → x ≡ none) h i (some e')
              (λ n. absurd (ground (arith, o, n))) (λ j _ n. n) j (t.fresh j le);
        placed = λ b.
            All-imp (λ j. Belongs b (h j)) (λ j. Belongs b (upd h i (some e') j)) (Placed-key fp b)
              (table b) (t.placed b);
        distinct = λ b. Distinct-key h i e e' o same (table b) (t.distinct b);
      }

      pub read-key :
          (p : List ℕ)
          → scan h (key_bytes e.key) (table (home (key_bytes e.key))) ≡ some i
          → read (upd h i (some e')) table p
            ≡ elim (lex (key_bytes e.key) p) [ eq ↦ some e' | _ ↦ read h table p ]
      read-key p s = elim (Ordering-cases (lex (key_bytes e.key) p)) [
        | inl r ↦ ground (arith, view-other h i e e' o same p (table (home p)))
        | inr (inl r) ↦
            let there : scan h (key_bytes e.key) (table (home p)) ≡ some i =
              ap (λ q. scan h (key_bytes e.key) (table (home q)))
                (sym (eq_of_lex (key_bytes e.key) p r))
              ∙ s in
            view-key h i e e' o same p (table (home p)) there
        | inr (inr r) ↦ ground (arith, view-other h i e e' o same p (table (home p)))
      ]

    near :
        (e : Entry) (p : List ℕ)
        → lex (key_bytes e.key) p ≡ eq
        → (home p == home (key_bytes e.key)) ≡ true
    near e p r =
        let same : home (key_bytes e.key) ≡ home p = ap home (eq_of_lex (key_bytes e.key) p r) in
        ground (arith, same)

    -- A new entry at the head of its chain.
    module _ (e : Entry) (own : Belongs (home (key_bytes e.key)) (some e)) where
      abbrev pub b₀ : ℕ
      b₀ = home (key_bytes e.key)

      abbrev pub grown : ℕ → List ℕ
      grown = upd table b₀ (next ∷ table b₀)

      unused : h next ≡ none
      unused = t.fresh next (omega arith)

      out : (b : ℕ) → NotIn next (table b)
      out b = NotIn-unused h next b (table b) unused (t.placed b)

      h' : Cells
      h' = upd h next (some e)

      here : h' next ≡ some e
      unfolding h'
      here = ground arith

      self : Belongs b₀ (h' next)
      self = subst (Belongs b₀) (sym here) own

      kept : (b : ℕ) → Placed h' b (table b)
      unfolding h'
      kept b = Placed-upd h next (some e) b (table b) (out b) (t.placed b)

      alone : scan h (key_bytes e.key) (table b₀) ≡ none → Distinct h' (next ∷ table b₀)
      unfolding h' Distinct
      alone s = (
        subst (λ x. Alone h' x (table b₀)) (sym here)
            (scan-upd h next (some e) (key_bytes e.key) (table b₀) (out b₀) ∙ s),
        Distinct-upd h next (some e) (table b₀) (out b₀) (t.distinct b₀),
      )

      pub IsTable-add :
          scan h (key_bytes e.key) (table b₀) ≡ none
          → IsTable (upd h next (some e)) (next + 1) grown
      unfolding h'
      IsTable-add s = record {
        fresh = λ j le. ground (arith, t.fresh j (omega arith));
        placed = upd-rule (Placed h') table b₀ (next ∷ table b₀) (self, kept b₀) (λ b _. kept b);
        distinct =
            upd-rule (λ _ is. Distinct h' is) table b₀ (next ∷ table b₀) (alone s)
              (λ b _. Distinct-upd h next (some e) (table b) (out b) (t.distinct b));
      }

      pub read-add :
          (p : List ℕ)
          → read (upd h next (some e)) grown p
            ≡ elim (lex (key_bytes e.key) p) [ eq ↦ some e | _ ↦ read h table p ]
      unfolding view
      read-add p = elim (Bool-cases (home p == b₀)) [
        | inl s ↦ ground (
          arith,
          ap table (eq_of_test (home p) b₀ s),
          view-upd h next (some e) p (table b₀) (out b₀),
        )
        | inr s ↦
            ground (arith, near e p, view-upd h next (some e) p (table (home p)) (out (home p)))
      ]

    -- The entry under a key is taken out of its chain and freed.
    module _ (i : ℕ) (e : Entry) (o : h i ≡ some e)
        (s : scan h (key_bytes e.key) (table (home (key_bytes e.key))) ≡ some i) where
      abbrev pub b₁ : ℕ
      b₁ = home (key_bytes e.key)

      abbrev pub shrunk : ℕ → List ℕ
      shrunk = upd table b₁ (remove_id i (table b₁))

      gone : Cells
      gone = upd h i none

      out₁ : NotIn i (remove_id i (table b₁))
      out₁ = NotIn-remove h i e o (table b₁) (t.distinct b₁)

      elsewhere : (b : ℕ) → (b == b₁) ≡ false → NotIn i (table b)
      elsewhere b ne = NotIn-other h i b e (table b) o (λ same. ground (arith, same)) (t.placed b)

      pub IsTable-remove : IsTable (upd h i none) next shrunk
      unfolding gone
      IsTable-remove = record {
        fresh = λ j le.
            upd-rule (λ j x. h j ≡ none → x ≡ none) h i none (λ _. refl) (λ j _ n. n) j
              (t.fresh j le);
        placed =
            upd-rule (Placed gone) table b₁ (remove_id i (table b₁))
              (Placed-upd h i none b₁ (remove_id i (table b₁)) out₁
                (Placed-remove h i b₁ (table b₁) (t.placed b₁)))
              (λ b ne. Placed-upd h i none b (table b) (elsewhere b ne) (t.placed b));
        distinct =
            upd-rule (λ _ is. Distinct gone is) table b₁ (remove_id i (table b₁))
              (Distinct-upd h i none (remove_id i (table b₁)) out₁
                (Distinct-remove h i (table b₁) (t.distinct b₁)))
              (λ b ne. Distinct-upd h i none (table b) (elsewhere b ne) (t.distinct b));
      }

      pub read-remove :
          (p : List ℕ)
          → read (upd h i none) shrunk p
            ≡ elim (lex (key_bytes e.key) p) [ eq ↦ none | _ ↦ read h table p ]
      read-remove p = elim (Bool-cases (home p == b₁)) [
        | inl q ↦ ground (
          arith,
          ap table (eq_of_test (home p) b₁ q),
          view-upd h i none p (remove_id i (table b₁)) out₁,
          view-remove h i e o p (table b₁) (t.distinct b₁) s,
        )
        | inr q ↦
            ground (arith, near e p, view-upd h i none p (table (home p)) (elsewhere (home p) q))
      ]
