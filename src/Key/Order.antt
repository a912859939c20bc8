-- ===== src/Key/Order.antt =====
-- Byte strings in lexicographic order, a prefix first: the order that the stores promise.
use kevin.Base.{ℕ, List, [], ◌∷◌, ◌++◌, Ordering, lt, eq, gt, compare, ◌≡◌, refl, arith}

unfoldable pub lex : List ℕ → List ℕ → Ordering
lex [] [] = eq
lex [] (y ∷ b) = lt
lex (x ∷ a) [] = gt
lex (x ∷ a) (y ∷ b) = elim (compare x y) [ lt ↦ lt | gt ↦ gt | eq ↦ lex a b ]

pub lex_refl : (a : List ℕ) → lex a a ≡ eq
unfolding lex
lex_refl [] = refl
lex_refl (x ∷ a) = ground (arith, lex_refl a)

pub eq_of_lex : (a b : List ℕ) → lex a b ≡ eq → a ≡ b
unfolding lex
eq_of_lex [] [] h = refl
eq_of_lex [] (y ∷ b) h = ground arith
eq_of_lex (x ∷ a) [] h = ground arith
eq_of_lex (x ∷ a) (y ∷ b) h = ground (arith, eq_of_lex a b)

pub lex-gt_of_lt : (a b : List ℕ) → lex a b ≡ lt → lex b a ≡ gt
unfolding lex
lex-gt_of_lt [] [] h = ground arith
lex-gt_of_lt [] (y ∷ b) h = refl
lex-gt_of_lt (x ∷ a) [] h = ground arith
lex-gt_of_lt (x ∷ a) (y ∷ b) h = ground (arith, lex-gt_of_lt a b)

pub lex-lt_of_gt : (a b : List ℕ) → lex a b ≡ gt → lex b a ≡ lt
unfolding lex
lex-lt_of_gt [] [] h = ground arith
lex-lt_of_gt [] (y ∷ b) h = ground arith
lex-lt_of_gt (x ∷ a) [] h = refl
lex-lt_of_gt (x ∷ a) (y ∷ b) h = ground (arith, lex-lt_of_gt a b)

pub lex_trans : (a b c : List ℕ) → lex a b ≡ lt → lex b c ≡ lt → lex a c ≡ lt
unfolding lex
lex_trans [] [] c h k = ground arith
lex_trans [] (y ∷ b) [] h k = ground arith
lex_trans [] (y ∷ b) (z ∷ c) h k = refl
lex_trans (x ∷ a) [] c h k = ground arith
lex_trans (x ∷ a) (y ∷ b) [] h k = ground arith
lex_trans (x ∷ a) (y ∷ b) (z ∷ c) h k = ground (arith, lex_trans a b c)

-- A common prefix does not matter.
pub lex-append_left : (p a b : List ℕ) → lex (p ++ a) (p ++ b) ≡ lex a b
unfolding lex
lex-append_left [] a b = refl
lex-append_left (x ∷ p) a b = ground (arith, lex-append_left p a b)
