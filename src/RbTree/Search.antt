-- ===== src/RbTree/Search.antt =====
-- The descents of a search tree, as operations on the list of its nodes in order.
use kevin.Base.{
  List, [], ◌∷◌, ◌++◌, Option, none, some, Ordering, lt, eq, gt, ◌≡◌, ◌≢◌, refl, sym, ap, ◌∙◌,
  arith, All,
}
use kevin.RbTree.{Tree, leaf, node, inorder, find, link, modify}

module _ {ℓ} {N : Type ℓ} (probe : N → Ordering) where
  -- Smaller nodes, then at most one equal one, then greater ones.
  abbrev pub IsCut : List N → Type 0
  IsCut [] = Unit
  IsCut (n ∷ ns) = elim (probe n) [ gt ↦ IsCut ns | _ ↦ All (λ m. probe m ≡ lt) ns ]

  abbrev pub find_list : List N → Option N
  find_list [] = none
  find_list (n ∷ ns) = elim (probe n) [ eq ↦ some n | _ ↦ find_list ns ]

  -- Before the first greater node.
  abbrev pub insert_list : N → List N → List N
  insert_list new [] = new ∷ []
  insert_list new (n ∷ ns) = elim (probe n) [ lt ↦ new ∷ n ∷ ns | _ ↦ n ∷ insert_list new ns ]

  -- The first equal node is changed.
  abbrev pub modify_list : (N → N) → List N → List N
  modify_list f [] = []
  modify_list f (n ∷ ns) = elim (probe n) [ eq ↦ f n ∷ ns | _ ↦ n ∷ modify_list f ns ]

  -- The first equal node is taken out.
  abbrev pub erase_list : List N → List N
  erase_list [] = []
  erase_list (n ∷ ns) = elim (probe n) [ eq ↦ ns | _ ↦ n ∷ erase_list ns ]

  All-lt_left : (ms ns : List N) → All (λ m. probe m ≡ lt) (ms ++ ns) → All (λ m. probe m ≡ lt) ms
  All-lt_left [] ns h = tt
  All-lt_left (m ∷ ms) ns h = (h.0, All-lt_left ms ns h.1)

  All-lt_right : (ms ns : List N) → All (λ m. probe m ≡ lt) (ms ++ ns) → All (λ m. probe m ≡ lt) ns
  All-lt_right [] ns h = h
  All-lt_right (m ∷ ms) ns h = All-lt_right ms ns h.1

  All-IsCut : (ns : List N) → All (λ m. probe m ≡ lt) ns → IsCut ns
  All-IsCut [] h = tt
  All-IsCut (n ∷ ns) h = ground arith

  pub IsCut-left : (ms ns : List N) → IsCut (ms ++ ns) → IsCut ms
  IsCut-left [] ns h = tt
  IsCut-left (m ∷ ms) ns h = ground (arith, IsCut-left ms ns, All-lt_left ms ns)

  pub IsCut-right : (ms ns : List N) → IsCut (ms ++ ns) → IsCut ns
  IsCut-right [] ns h = h
  IsCut-right (m ∷ ms) ns h = ground (arith, IsCut-right ms ns, All-lt_right ms ns, All-IsCut ns)

  pub cut_before :
      (ms : List N) (n : N) (ns : List N)
      → IsCut (ms ++ (n ∷ ns))
      → probe n ≢ lt
      → All (λ m. probe m ≡ gt) ms
  cut_before [] n ns h e = tt
  cut_before (m ∷ ms) n ns h e = ground (arith, cut_before ms n ns, All-lt_right ms (n ∷ ns))

  pub cut_after :
      (ms : List N) (n : N) (ns : List N)
      → IsCut (ms ++ (n ∷ ns))
      → probe n ≢ gt
      → All (λ m. probe m ≡ lt) ns
  cut_after ms n ns h e = ground (arith, IsCut-right ms (n ∷ ns) h)

  find_list-gt : (ms ns : List N) → All (λ m. probe m ≡ gt) ms → find_list (ms ++ ns) ≡ find_list ns
  find_list-gt [] ns h = refl
  find_list-gt (m ∷ ms) ns h = ground (arith, find_list-gt ms ns)

  pub find_list-lt : (ns : List N) → All (λ m. probe m ≡ lt) ns → find_list ns ≡ none
  find_list-lt [] h = refl
  find_list-lt (n ∷ ns) h = ground (arith, find_list-lt ns)

  find_list-append_lt :
      (ms ns : List N) → All (λ m. probe m ≡ lt) ns → find_list (ms ++ ns) ≡ find_list ms
  find_list-append_lt [] ns h = find_list-lt ns h
  find_list-append_lt (m ∷ ms) ns h = ground (arith, find_list-append_lt ms ns)

  insert_list-gt :
      (new : N) (ms ns : List N)
      → All (λ m. probe m ≡ gt) ms
      → insert_list new (ms ++ ns) ≡ ms ++ insert_list new ns
  insert_list-gt new [] ns h = refl
  insert_list-gt new (m ∷ ms) ns h = ground (arith, insert_list-gt new ms ns)

  insert_list-append_lt :
      (new : N) (ms : List N) (n : N) (ns : List N)
      → probe n ≡ lt
      → insert_list new (ms ++ (n ∷ ns)) ≡ insert_list new ms ++ (n ∷ ns)
  insert_list-append_lt new [] n ns h = ground arith
  insert_list-append_lt new (m ∷ ms) n ns h = ground (arith, insert_list-append_lt new ms n ns)

  modify_list-gt :
      (f : N → N) (ms ns : List N)
      → All (λ m. probe m ≡ gt) ms
      → modify_list f (ms ++ ns) ≡ ms ++ modify_list f ns
  modify_list-gt f [] ns h = refl
  modify_list-gt f (m ∷ ms) ns h = ground (arith, modify_list-gt f ms ns)

  modify_list-lt : (f : N → N) (ns : List N) → All (λ m. probe m ≡ lt) ns → modify_list f ns ≡ ns
  modify_list-lt f [] h = refl
  modify_list-lt f (n ∷ ns) h = ground (arith, modify_list-lt f ns)

  modify_list-append_lt :
      (f : N → N) (ms ns : List N)
      → All (λ m. probe m ≡ lt) ns
      → modify_list f (ms ++ ns) ≡ modify_list f ms ++ ns
  modify_list-append_lt f [] ns h = modify_list-lt f ns h
  modify_list-append_lt f (m ∷ ms) ns h = ground (arith, modify_list-append_lt f ms ns)

  -- Where the nodes in order are cut by the key, the descent finds the equal node exactly when
  -- the list of nodes has one.
  pub find-list : (t : Tree N) → IsCut (inorder t) → find probe t ≡ find_list (inorder t)
  unfolding find
  find-list leaf h = refl
  find-list (node l n r) h = ground (
    arith,
    find-list l (IsCut-left (inorder l) (n ∷ inorder r) h),
    find-list r,
    IsCut-right (inorder l) (n ∷ inorder r) h,
    cut_before (inorder l) n (inorder r) h,
    cut_after (inorder l) n (inorder r) h,
    find_list-gt (inorder l) (n ∷ inorder r),
    find_list-append_lt (inorder l) (n ∷ inorder r),
  )

  -- Where `link` puts the new node when no key is equal.
  place : N → Tree N → Tree N
  place new leaf = node leaf new leaf
  place new (node l n r) = elim (probe n) [
    | lt ↦ node (place new l) n r
    | _ ↦ node l n (place new r)
  ]

  link-place :
      (new : N) (t : Tree N)
      → IsCut (inorder t)
      → find_list (inorder t) ≡ none
      → link probe new t ≡ some (place new t)
  unfolding link place
  link-place new leaf h e = refl
  link-place new (node l n r) h e = ground (
    arith,
    link-place new l (IsCut-left (inorder l) (n ∷ inorder r) h),
    link-place new r,
    IsCut-right (inorder l) (n ∷ inorder r) h,
    cut_before (inorder l) n (inorder r) h,
    cut_after (inorder l) n (inorder r) h,
    find_list-gt (inorder l) (n ∷ inorder r),
    find_list-append_lt (inorder l) (n ∷ inorder r),
  )

  place-list :
      (new : N) (t : Tree N)
      → IsCut (inorder t)
      → find_list (inorder t) ≡ none
      → inorder (place new t) ≡ insert_list new (inorder t)
  unfolding place
  place-list new leaf h e = refl
  place-list new (node l n r) h e = ground (
    arith,
    place-list new l (IsCut-left (inorder l) (n ∷ inorder r) h),
    place-list new r,
    IsCut-right (inorder l) (n ∷ inorder r) h,
    cut_before (inorder l) n (inorder r) h,
    cut_after (inorder l) n (inorder r) h,
    find_list-gt (inorder l) (n ∷ inorder r),
    find_list-append_lt (inorder l) (n ∷ inorder r),
    insert_list-gt new (inorder l) (n ∷ inorder r),
    insert_list-append_lt new (inorder l) n (inorder r),
  )

  -- Without an equal key, the new node goes before the first greater one.
  pub link-list :
      (new : N) (t : Tree N)
      → IsCut (inorder t)
      → find_list (inorder t) ≡ none
      → (t' : Tree N) × (link probe new t ≡ some t') × (inorder t' ≡ insert_list new (inorder t))
  link-list new t h e = (place new t, link-place new t h e, place-list new t h e)

  pub modify-list :
      (f : N → N) (t : Tree N)
      → IsCut (inorder t)
      → inorder (modify probe f t) ≡ modify_list f (inorder t)
  unfolding modify
  modify-list f leaf h = refl
  modify-list f (node l n r) h = ground (
    arith,
    modify-list f l (IsCut-left (inorder l) (n ∷ inorder r) h),
    modify-list f r,
    IsCut-right (inorder l) (n ∷ inorder r) h,
    cut_before (inorder l) n (inorder r) h,
    cut_after (inorder l) n (inorder r) h,
    modify_list-gt f (inorder l) (n ∷ inorder r),
    modify_list-append_lt f (inorder l) (n ∷ inorder r),
  )

  -- `n` is the first node of `ns` with the key, and `erase_list` takes out this one.
  pub record Splits (ns : List N) (n : N) : Type ℓ where
    pub before : List N
    pub after : List N
    pub whole : ns ≡ before ++ (n ∷ after)
    pub erased : erase_list ns ≡ before ++ after
    pub first : All (λ m. m ≢ n) before
    pub equal : probe n ≡ eq

  Splits-cons : (m n : N) (ns : List N) → probe m ≢ eq → Splits ns n → Splits (m ∷ ns) n
  Splits-cons m n ns ne s = record {
    before = m ∷ s.before;
    after = s.after;
    whole = ap (◌∷◌ m) s.whole;
    erased = ground arith;
    first = (λ same. ne (ap probe same ∙ s.equal), s.first);
    equal = s.equal;
  }

  Splits-here : (m n : N) (ns : List N) → probe m ≡ eq → m ≡ n → Splits (m ∷ ns) n
  Splits-here m n ns e same = record {
    before = [];
    after = ns;
    whole = ap (λ k. k ∷ ns) same;
    erased = ground arith;
    first = tt;
    equal = ap probe (sym same) ∙ e;
  }

  -- The node found splits the list: no earlier node is the same.
  pub find_list-Splits : (ns : List N) (n : N) → find_list ns ≡ some n → Splits ns n
  find_list-Splits [] n h = cc
  find_list-Splits (m ∷ ns) n h = by_probe (probe m) refl (find_list-Splits ns n)
    where
      by_probe :
          (o : Ordering) → probe m ≡ o → (find_list ns ≡ some n → Splits ns n) → Splits (m ∷ ns) n
      by_probe lt e ih = Splits-cons m n ns (ground arith) (ih (ground arith))
      by_probe gt e ih = Splits-cons m n ns (ground arith) (ih (ground arith))
      by_probe eq e ih = Splits-here m n ns e (ground arith)
