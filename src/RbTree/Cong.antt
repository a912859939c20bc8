-- ===== src/RbTree/Cong.antt =====
-- Two comparisons that agree on the nodes of a list do the same to it.
use kevin.Base.{List, [], ◌∷◌, Ordering, lt, ◌≡◌, refl, arith, All}
use kevin.RbTree.Search.{IsCut, find_list, insert_list, modify_list, erase_list}

module _ {ℓ} {N : Type ℓ} (f g : N → Ordering) where
  abbrev pub Agree : List N → Type 0
  Agree ns = All (λ n. f n ≡ g n) ns

  All-lt-cong : (ns : List N) → Agree ns → All (λ n. g n ≡ lt) ns → All (λ n. f n ≡ lt) ns
  All-lt-cong [] a h = tt
  All-lt-cong (n ∷ ns) a h = ground (arith, All-lt-cong ns)

  pub IsCut-cong : (ns : List N) → Agree ns → IsCut g ns → IsCut f ns
  IsCut-cong [] a h = tt
  IsCut-cong (n ∷ ns) a h = ground (arith, IsCut-cong ns, All-lt-cong ns)

  pub find_list-cong : (ns : List N) → Agree ns → find_list f ns ≡ find_list g ns
  find_list-cong [] a = refl
  find_list-cong (n ∷ ns) a = ground (arith, find_list-cong ns)

  pub insert_list-cong :
      (new : N) (ns : List N) → Agree ns → insert_list f new ns ≡ insert_list g new ns
  insert_list-cong new [] a = refl
  insert_list-cong new (n ∷ ns) a = ground (arith, insert_list-cong new ns)

  pub modify_list-cong :
      (h : N → N) (ns : List N) → Agree ns → modify_list f h ns ≡ modify_list g h ns
  modify_list-cong h [] a = refl
  modify_list-cong h (n ∷ ns) a = ground (arith, modify_list-cong h ns)

  pub erase_list-cong : (ns : List N) → Agree ns → erase_list f ns ≡ erase_list g ns
  erase_list-cong [] a = refl
  erase_list-cong (n ∷ ns) a = ground (arith, erase_list-cong ns)
