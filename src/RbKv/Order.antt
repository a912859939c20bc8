-- ===== src/RbKv/Order.antt =====
-- The order of the nodes, and the map that they stand for.
use kevin.Base.{
  ℕ, List, [], ◌∷◌, Option, none, some, Ordering, lt, eq, gt, ◌≡◌, ◌≢◌, refl, ap, arith, All,
}
use kevin.Key.{Dbt, IsKey, key_bytes}
use kevin.Key.Order.{lex, lex_refl, eq_of_lex, lex-lt_of_gt, lex_trans}
use kevin.RbTree.Search.{IsCut, find_list, insert_list, modify_list, erase_list}
use kevin.RbKv.{RbKvNode}

-- The keys rise along the list, and every key's buffer holds the key.
abbrev pub IsOrdered : List RbKvNode → Type 0
IsOrdered [] = Unit
IsOrdered (n ∷ ns) =
    IsKey n.key × All (λ m. lex (key_bytes n.key) (key_bytes m.key) ≡ lt) ns × IsOrdered ns

-- The value under a key, as the abstract store has it.
abbrev pub view : List RbKvNode → List ℕ → Option Dbt
view [] q = none
view (n ∷ ns) q = elim (lex q (key_bytes n.key)) [ eq ↦ some n.val | _ ↦ view ns q ]

abbrev pub bytes_cmp : List ℕ → RbKvNode → Ordering
bytes_cmp q n = lex q (key_bytes n.key)

module _ (q : List ℕ) where
  pub All-lt-above :
      (p : List ℕ) (ns : List RbKvNode)
      → All (λ m. lex p (key_bytes m.key) ≡ lt) ns
      → lex q p ≢ gt
      → All (λ m. lex q (key_bytes m.key) ≡ lt) ns
  All-lt-above p [] h e = tt
  All-lt-above p (m ∷ ns) h e =
      (grind (arith, lex_trans q p (key_bytes m.key), eq_of_lex q p), All-lt-above p ns h.1 e)

  -- A key cuts the ordered nodes in two.
  pub IsOrdered-IsCut : (ns : List RbKvNode) → IsOrdered ns → IsCut (bytes_cmp q) ns
  IsOrdered-IsCut [] h = tt
  IsOrdered-IsCut (n ∷ ns) h =
      ground (arith, IsOrdered-IsCut ns h.2, All-lt-above (key_bytes n.key) ns h.1)

  pub view-find_list :
      (ns : List RbKvNode)
      → view ns q ≡ elim (find_list (bytes_cmp q) ns) [ none ↦ none | some n ↦ some n.val ]
  view-find_list [] = refl
  view-find_list (n ∷ ns) = ground (arith, view-find_list ns)

pub IsOrdered-keys : (ns : List RbKvNode) → IsOrdered ns → All (λ n. IsKey n.key) ns
IsOrdered-keys [] h = tt
IsOrdered-keys (n ∷ ns) h = (h.0, IsOrdered-keys ns h.2)

-- `view` after each change of the list of nodes.
module _ (q p : List ℕ) where
  pub view-insert_list :
      (new : RbKvNode) (ns : List RbKvNode)
      → key_bytes new.key ≡ q
      → find_list (bytes_cmp q) ns ≡ none
      → view (insert_list (bytes_cmp q) new ns) p
        ≡ elim (lex p q) [ eq ↦ some new.val | _ ↦ view ns p ]
  view-insert_list new [] e h = ground (arith, ap (lex p) e)
  view-insert_list new (n ∷ ns) e h = ground (
    arith,
    view-insert_list new ns e,
    ap (lex p) e,
    eq_of_lex p q,
    eq_of_lex p (key_bytes n.key),
    lex_refl q,
  )

  pub view-modify_list :
      (g : Dbt → Dbt) (ns : List RbKvNode)
      → view (modify_list (bytes_cmp q) (λ n. record n { val = g n.val }) ns) p ≡ elim (lex p q) [
        | eq ↦ elim (view ns q) [ none ↦ none | some v ↦ some (g v) ]
        | _ ↦ view ns p
      ]
  view-modify_list g [] = ground arith
  view-modify_list g (n ∷ ns) =
      ground (arith, view-modify_list g ns, eq_of_lex p q, eq_of_lex q (key_bytes n.key))

pub view-above :
    (q : List ℕ) (ns : List RbKvNode)
    → All (λ m. lex q (key_bytes m.key) ≡ lt) ns
    → view ns q ≡ none
view-above q [] h = refl
view-above q (n ∷ ns) h = ground (arith, view-above q ns)

-- A key that is taken out of the ordered nodes is gone, and no other is.
pub view-erase_list :
    (q p : List ℕ) (ns : List RbKvNode)
    → IsOrdered ns
    → view (erase_list (bytes_cmp q) ns) p ≡ elim (lex p q) [ eq ↦ none | _ ↦ view ns p ]
view-erase_list q p [] h = ground arith
view-erase_list q p (n ∷ ns) h = ground (
  arith,
  view-erase_list q p ns h.2,
  eq_of_lex p q,
  eq_of_lex q (key_bytes n.key),
  view-above (key_bytes n.key) ns h.1,
)

-- Each change keeps the order.
module _ (q : List ℕ) where
  All-lt-insert_list :
      (b : List ℕ) (new : RbKvNode) (ns : List RbKvNode)
      → lex b (key_bytes new.key) ≡ lt
      → All (λ m. lex b (key_bytes m.key) ≡ lt) ns
      → All (λ m. lex b (key_bytes m.key) ≡ lt) (insert_list (bytes_cmp q) new ns)
  All-lt-insert_list b new [] e h = (e, tt)
  All-lt-insert_list b new (n ∷ ns) e h = ground (arith, All-lt-insert_list b new ns)

  pub insert_list-IsOrdered :
      (new : RbKvNode) (ns : List RbKvNode)
      → IsKey new.key
      → key_bytes new.key ≡ q
      → find_list (bytes_cmp q) ns ≡ none
      → IsOrdered ns
      → IsOrdered (insert_list (bytes_cmp q) new ns)
  insert_list-IsOrdered new [] k e f h = (k, tt, tt)
  insert_list-IsOrdered new (n ∷ ns) k e f h = ground (
    arith,
    insert_list-IsOrdered new ns,
    All-lt-insert_list (key_bytes n.key) new ns,
    All-lt-above (key_bytes new.key) (key_bytes n.key) ns h.1,
    lex-lt_of_gt q (key_bytes n.key),
    ap (λ (b : List ℕ). lex b (key_bytes n.key)) e,
    ap (lex (key_bytes n.key)) e,
  )

  All-lt-modify_list :
      (b : List ℕ) (g : Dbt → Dbt) (ns : List RbKvNode)
      → All (λ m. lex b (key_bytes m.key) ≡ lt) ns
      → All
          (λ m. lex b (key_bytes m.key) ≡ lt)
          (modify_list (bytes_cmp q) (λ n. record n { val = g n.val }) ns)
  All-lt-modify_list b g [] h = tt
  All-lt-modify_list b g (n ∷ ns) h = ground (arith, All-lt-modify_list b g ns)

  pub modify_list-IsOrdered :
      (g : Dbt → Dbt) (ns : List RbKvNode)
      → IsOrdered ns
      → IsOrdered (modify_list (bytes_cmp q) (λ n. record n { val = g n.val }) ns)
  modify_list-IsOrdered g [] h = tt
  modify_list-IsOrdered g (n ∷ ns) h =
      ground (arith, modify_list-IsOrdered g ns, All-lt-modify_list (key_bytes n.key) g ns)

  All-lt-erase_list :
      (b : List ℕ) (ns : List RbKvNode)
      → All (λ m. lex b (key_bytes m.key) ≡ lt) ns
      → All (λ m. lex b (key_bytes m.key) ≡ lt) (erase_list (bytes_cmp q) ns)
  All-lt-erase_list b [] h = tt
  All-lt-erase_list b (n ∷ ns) h = ground (arith, All-lt-erase_list b ns)

  pub erase_list-IsOrdered :
      (ns : List RbKvNode) → IsOrdered ns → IsOrdered (erase_list (bytes_cmp q) ns)
  erase_list-IsOrdered [] h = tt
  erase_list-IsOrdered (n ∷ ns) h =
      ground (arith, erase_list-IsOrdered ns, All-lt-erase_list (key_bytes n.key) ns)
