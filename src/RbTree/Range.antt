-- ===== src/RbTree/Range.antt =====
-- The search for the least node that is not smaller than a key, as rbtreekv.c does it: a descent to
-- some greater node, and then a walk back by `rb_prev`.
use kevin.Base.{
  ℕ, zero, suc, ◌≤◌, List, [], ◌∷◌, ◌++◌, Option, none, some, Ordering, lt, eq, gt, ◌≡◌, ◌≢◌, ◌⊎◌,
  inl, inr, refl, sym, ap, ◌∙◌, subst, arith, All, All-append, append_assoc, length, length-append,
  Ordering-cases,
}
use kevin.RbTree.{Tree, leaf, node, inorder, RbLib}
use kevin.RbTree.Search.{IsCut, cut_before}

module _ {ℓ} {N : Type ℓ} where
  snoc_cases : (l : List N) → (l ≡ []) ⊎ ((front : List N) × (m : N) × (l ≡ front ++ (m ∷ [])))
  snoc_cases [] = inl refl
  snoc_cases (n ∷ l) = elim (snoc_cases l) [
    | inl e ↦ inr ([], n, ap (λ rest. n ∷ rest) e)
    | inr (front, m, e) ↦ inr (n ∷ front, m, ap (λ rest. n ∷ rest) e)
  ]

module _ {ℓ} {N : Type ℓ} (probe : N → Ordering) where
  -- The first node of a list that is not smaller than the key.
  unfoldable pub ge_list : List N → Option N
  ge_list [] = none
  ge_list (n ∷ ns) = elim (probe n) [ gt ↦ ge_list ns | _ ↦ some n ]

  pub ge_list-gt : (ms ns : List N) → All (λ m. probe m ≡ gt) ms → ge_list (ms ++ ns) ≡ ge_list ns
  unfolding ge_list
  ge_list-gt [] ns h = refl
  ge_list-gt (m ∷ ms) ns h = ground (arith, ge_list-gt ms ns)

  -- At a node behind an equal or smaller one, `ge_list` stops there.
  pub ge_list-at :
      (l : List N) (n : N) (r : List N)
      → IsCut probe (l ++ (n ∷ r))
      → probe n ≢ lt
      → ge_list (l ++ (n ∷ r)) ≡ ge_list (n ∷ r)
  ge_list-at l n r cut h = ge_list-gt l (n ∷ r) (cut_before probe l n r cut h)

module _ {ℓ} {N : Type ℓ} (lib : RbLib N) (probe : N → Ordering) (whole : Tree N) where
  -- The inner loop, with the rounds that are left: the last node that is not smaller.
  unfoldable pub walk_back : ℕ → N → N
  walk_back zero n = n
  walk_back (suc rounds) n = elim (lib.rb_prev whole n) [
    | none ↦ n
    | some m ↦ elim (probe m) [ lt ↦ walk_back rounds m | eq ↦ m | gt ↦ n ]
  ]

  -- The outer loop, from a subtree of `whole`.
  unfoldable pub find_ge : Tree N → Option N
  find_ge leaf = none
  find_ge (node l n r) = elim (probe n) [
    | lt ↦ some (walk_back (length (inorder whole)) n)
    | eq ↦ some n
    | gt ↦ find_ge r
  ]

  -- No node stands in two places.
  abbrev pub IsApart : Type ℓ
  IsApart = (l : List N) (n : N) (r : List N) → inorder whole ≡ l ++ (n ∷ r) → All (λ k. k ≢ n) l

  module _ (cut : IsCut probe (inorder whole)) (apart : IsApart) where
    -- One step of the walk, from `n` to the node `m` before it.
    step_back :
        (rounds : ℕ) (l : List N) (m n : N) (r : List N)
        → inorder whole ≡ l ++ (m ∷ n ∷ r)
        → probe n ≡ lt
        → (probe m ≡ lt → ge_list probe (inorder whole) ≡ some (walk_back rounds m))
        → ge_list probe (inorder whole)
          ≡ some (elim (probe m) [ lt ↦ walk_back rounds m | eq ↦ m | gt ↦ n ])
    unfolding ge_list
    step_back rounds l m n r e h ih = elim (Ordering-cases (probe m)) [
      | inl less ↦ rw (less) (ih less)
      | inr (inl same) ↦
          rw (e, same)
            (ge_list-at probe l m (n ∷ r) (subst (IsCut probe) e cut) (ground (arith, same))
              ∙ ground (arith, same))
      | inr (inr more) ↦
          rw (e, more)
            (ge_list-at probe l m (n ∷ r) (subst (IsCut probe) e cut) (ground (arith, more))
              ∙ ground (arith, more, h))
    ]

    -- A walk back from a greater node, of as many rounds as there are nodes before it.
    walk_back-ge_list :
        (rounds : ℕ) (l : List N) (n : N) (r : List N)
        → inorder whole ≡ l ++ (n ∷ r)
        → probe n ≡ lt
        → length l ≤ rounds
        → ge_list probe (inorder whole) ≡ some (walk_back rounds n)
    unfolding walk_back ge_list
    walk_back-ge_list zero [] n r e h le = rw (e) (ground (arith, h))
    walk_back-ge_list zero (k ∷ l) n r e h le = absurd (omega arith)
    walk_back-ge_list (suc rounds) l n r e h le = elim (snoc_cases l) [
      | inl empty ↦
          let first : inorder whole ≡ n ∷ r = e ∙ ap (λ k. k ++ (n ∷ r)) empty in
          ground (arith, lib.prev_first whole n r first, first, h)
      | inr (front, m, split) ↦
          let there : inorder whole ≡ front ++ (m ∷ n ∷ r) =
            e ∙ ap (λ k. k ++ (n ∷ r)) split ∙ append_assoc front (m ∷ []) (n ∷ r) in
          let before =
            lib.prev_precedes whole n m front r there
              (subst (All (λ k. k ≢ n)) split (apart l n r e)) in
          let shorter : length front ≤ rounds =
            omega (arith, ap length split, length-append front (m ∷ [])) in
          ground (
            arith,
            before,
            step_back rounds front m n r there h
                (λ less. walk_back-ge_list rounds front m (n ∷ r) there less shorter),
          )
    ]

    -- The descent, when the nodes before the subtree are smaller and none are behind it.
    descend-ge_list :
        (t : Tree N) (before : List N)
        → inorder whole ≡ before ++ inorder t
        → All (λ m. probe m ≡ gt) before
        → find_ge t ≡ ge_list probe (inorder whole)
    unfolding find_ge ge_list
    descend-ge_list leaf before e h = rw (e) (sym (ge_list-gt probe before [] h))
    descend-ge_list (node l n r) before e h =
        let there : inorder whole ≡ (before ++ inorder l) ++ (n ∷ inorder r) =
          e ∙ sym (append_assoc before (inorder l) (n ∷ inorder r)) in
        let cut' = subst (IsCut probe) there cut in
        let room : length (before ++ inorder l) ≤ length (inorder whole) =
          omega (arith, ap length there, length-append (before ++ inorder l) (n ∷ inorder r)) in
        elim (Ordering-cases (probe n)) [
          | inl less ↦ ground (
            arith,
            less,
            walk_back-ge_list (length (inorder whole)) (before ++ inorder l) n (inorder r) there
                less room,
          )
          | inr (inl same) ↦ ground (
            arith,
            same,
            there,
            ge_list-at probe (before ++ inorder l) n (inorder r) cut' (ground (arith, same)),
          )
          | inr (inr more) ↦
              let smaller =
                cut_before probe (before ++ inorder l) n (inorder r) cut' (ground (arith, more)) in
              ground (
                arith,
                more,
                descend-ge_list r ((before ++ inorder l) ++ (n ∷ []))
                    (there ∙ sym (append_assoc (before ++ inorder l) (n ∷ []) (inorder r)))
                    (All-append (λ m. probe m ≡ gt) (before ++ inorder l) (n ∷ []) smaller
                      (more, tt)),
              )
        ]

    pub find_ge-ge_list : find_ge whole ≡ ge_list probe (inorder whole)
    find_ge-ge_list = descend-ge_list whole [] refl tt
