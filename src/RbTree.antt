-- ===== src/RbTree.antt =====
-- The search trees of kevinfs/rbtreekv.c, lightfs_cache.c and lightfs_txn_hdlr.c: the descents
-- that these files write out over `rb_left` and `rb_right`. Colours, rotations and the walk along
-- the tree belong to the kernel's <linux/rbtree.h>; `RbLib` states what the code relies on.
pub mod Search
pub mod Cong
pub mod Range
use kevin.Base.{List, [], ◌∷◌, ◌++◌, Option, none, some, Ordering, lt, eq, gt, ◌≡◌, ◌≢◌, All}

pub data Tree {ℓ} (N : Type ℓ) : Type ℓ where
  leaf : Tree N
  node : Tree N → N → Tree N → Tree N

module _ {ℓ} {N : Type ℓ} where
  -- The nodes in the order of `rb_first` and `rb_next`.
  abbrev pub inorder : Tree N → List N
  inorder leaf = []
  inorder (node l n r) = inorder l ++ (n ∷ inorder r)

  -- `find_val_with_key`: `probe n` is the result of comparing the key with that of `n`.
  unfoldable pub find : (N → Ordering) → Tree N → Option N
  find probe leaf = none
  find probe (node l n r) = elim (probe n) [ lt ↦ find probe l | eq ↦ some n | gt ↦ find probe r ]

  -- `rb_kv_insert`, up to `rb_link_node`: down to a free place, or `none` (-1) at an equal key.
  unfoldable pub link : (N → Ordering) → N → Tree N → Option (Tree N)
  link probe new leaf = some (node leaf new leaf)
  link probe new (node l n r) = elim (probe n) [
    | lt ↦ elim (link probe new l) [ none ↦ none | some l' ↦ some (node l' n r) ]
    | eq ↦ none
    | gt ↦ elim (link probe new r) [ none ↦ none | some r' ↦ some (node l n r') ]
  ]

  -- A write through the node pointer that `find` returns.
  unfoldable pub modify : (N → Ordering) → (N → N) → Tree N → Tree N
  modify probe f leaf = leaf
  modify probe f (node l n r) = elim (probe n) [
    | lt ↦ node (modify probe f l) n r
    | eq ↦ node l (f n) r
    | gt ↦ node l n (modify probe f r)
  ]

-- <linux/rbtree.h>. A pointer to a node is the node itself, the first such one in order.
pub record RbLib {ℓ} (N : Type ℓ) : Type ℓ where
  pub rb_insert_color : Tree N → N → Tree N
  pub rb_erase : Tree N → N → Tree N
  pub rb_next : Tree N → N → Option N
  pub rb_prev : Tree N → N → Option N
  pub rb_first : Tree N → Option N
  -- Rebalancing keeps the order of the nodes.
  pub insert_color_keeps : (t : Tree N) (n : N) → inorder (rb_insert_color t n) ≡ inorder t
  -- Erasing takes out the node and keeps the order of the others.
  pub erase_removes :
      (t : Tree N) (n : N) (l r : List N)
      → inorder t ≡ l ++ (n ∷ r)
      → All (λ m. m ≢ n) l
      → inorder (rb_erase t n) ≡ l ++ r
  -- The walk goes along the order.
  pub next_follows :
      (t : Tree N) (n m : N) (l r : List N)
      → inorder t ≡ l ++ (n ∷ m ∷ r)
      → All (λ k. k ≢ n) l
      → rb_next t n ≡ some m
  pub next_last :
      (t : Tree N) (n : N) (l : List N)
      → inorder t ≡ l ++ (n ∷ [])
      → All (λ k. k ≢ n) l
      → rb_next t n ≡ none
  pub prev_precedes :
      (t : Tree N) (n m : N) (l r : List N)
      → inorder t ≡ l ++ (m ∷ n ∷ r)
      → All (λ k. k ≢ n) (l ++ (m ∷ []))
      → rb_prev t n ≡ some m
  pub prev_first : (t : Tree N) (n : N) (r : List N) → inorder t ≡ n ∷ r → rb_prev t n ≡ none
  pub first_least : (t : Tree N) (n : N) (r : List N) → inorder t ≡ n ∷ r → rb_first t ≡ some n
  pub first_empty : (t : Tree N) → inorder t ≡ [] → rb_first t ≡ none
