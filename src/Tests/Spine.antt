-- ===== src/Tests/Spine.antt =====
-- A concrete <linux/rbtree.h>: a tree keeps its shape when a node is inserted, and is a spine to
-- the right when one was erased.
use kevin.Base.{List, [], ◌∷◌, ◌++◌, Option, none, some, ◌≡◌, ◌≢◌, refl, ap, ◌∙◌, All}
use mathlib.Core.HLevel.{Discrete}
use native.Mathlib.Decide.{ℕ_discrete}
use kevin.RbTree.{Tree, leaf, node, inorder, RbLib}
use kevin.RbKv.{RbKvNode}

pick : {A P : Type 0} → Dec P → A → A → A
pick (yes _) a b = a
pick (no _) a b = b

pick_yes : {A P : Type 0} (d : Dec P) (a b : A) → P → pick d a b ≡ a
unfolding pick
pick_yes (yes _) a b p = refl
pick_yes (no ne) a b p = absurd (ne p)

pick_no : {A P : Type 0} (d : Dec P) (a b : A) → ¬ P → pick d a b ≡ b
unfolding pick
pick_no (yes e) a b np = absurd (np e)
pick_no (no _) a b np = refl

module _ {N : Type 0} (dec : Discrete N) where
  spine : List N → Tree N
  spine [] = leaf
  spine (n ∷ ns) = node leaf n (spine ns)

  inorder-spine : (ns : List N) → inorder (spine ns) ≡ ns
  unfolding spine
  inorder-spine [] = refl
  inorder-spine (n ∷ ns) = ap (λ ms. n ∷ ms) (inorder-spine ns)

  remove : N → List N → List N
  remove n [] = []
  remove n (m ∷ ms) = pick (dec m n) ms (m ∷ remove n ms)

  remove-first : (n : N) (l r : List N) → All (λ m. m ≢ n) l → remove n (l ++ (n ∷ r)) ≡ l ++ r
  unfolding remove
  remove-first n [] r h = pick_yes (dec n n) r (n ∷ remove n r) refl
  remove-first n (m ∷ l) r h =
      pick_no (dec m n) (l ++ (n ∷ r)) (m ∷ remove n (l ++ (n ∷ r))) h.0
      ∙ ap (λ ms. m ∷ ms) (remove-first n l r h.1)

  head_of : List N → Option N
  head_of [] = none
  head_of (n ∷ ns) = some n

  next_of : List N → N → Option N
  next_of [] n = none
  next_of (m ∷ ms) n = pick (dec m n) (head_of ms) (next_of ms n)

  next_of-split : (n : N) (l r : List N) → All (λ m. m ≢ n) l → next_of (l ++ (n ∷ r)) n ≡ head_of r
  unfolding next_of
  next_of-split n [] r h = pick_yes (dec n n) (head_of r) (next_of r n) refl
  next_of-split n (m ∷ l) r h =
      pick_no (dec m n) (head_of (l ++ (n ∷ r))) (next_of (l ++ (n ∷ r)) n) h.0
      ∙ next_of-split n l r h.1

  prev_of : Option N → List N → N → Option N
  prev_of p [] n = none
  prev_of p (m ∷ ms) n = pick (dec m n) p (prev_of (some m) ms n)

  prev_of-split :
      (p : Option N) (m n : N) (l r : List N)
      → All (λ k. k ≢ n) (l ++ (m ∷ []))
      → prev_of p (l ++ (m ∷ n ∷ r)) n ≡ some m
  unfolding prev_of
  prev_of-split p m n [] r h =
      pick_no (dec m n) p (prev_of (some m) (n ∷ r) n) h.0
      ∙ pick_yes (dec n n) (some m) (prev_of (some n) r n) refl
  prev_of-split p m n (k ∷ l) r h =
      pick_no (dec k n) p (prev_of (some k) (l ++ (m ∷ n ∷ r)) n) h.0
      ∙ prev_of-split (some k) m n l r h.1

  pub spine_lib : RbLib N
  unfolding head_of prev_of
  spine_lib = record {
    rb_insert_color = λ t n. t;
    rb_erase = λ t n. spine (remove n (inorder t));
    rb_next = λ t n. next_of (inorder t) n;
    rb_prev = λ t n. prev_of none (inorder t) n;
    rb_first = λ t. head_of (inorder t);
    insert_color_keeps = λ t n. refl;
    erase_removes = λ t n l r e h.
        inorder-spine (remove n (inorder t)) ∙ ap (remove n) e ∙ remove-first n l r h;
    next_follows = λ t n m l r e h. ap (λ ns. next_of ns n) e ∙ next_of-split n l (m ∷ r) h;
    next_last = λ t n l e h. ap (λ ns. next_of ns n) e ∙ next_of-split n l [] h;
    prev_precedes = λ t n m l r e h. ap (λ ns. prev_of none ns n) e ∙ prev_of-split none m n l r h;
    prev_first = λ t n r e. ap (λ ns. prev_of none ns n) e ∙ first n r;
    first_least = λ t n r e. ap head_of e;
    first_empty = λ t e. ap head_of e;
  }
    where
      first : (n : N) (r : List N) → prev_of none (n ∷ r) n ≡ none
      first n r = pick_yes (dec n n) none (prev_of (some n) r n) refl

-- The library for the nodes of rbtreekv.c.
abbrev pub rb_lib : RbLib RbKvNode
rb_lib = spine_lib (hlevel ℕ_discrete)
