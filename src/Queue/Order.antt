-- ===== src/Queue/Order.antt =====
-- How often an id stands in a list, and that a list reads the same when data behind other ids change.
use kevin.Base.{
  ℕ, zero, suc, ◌+◌, ◌≤◌, ◌<◌, List, [], ◌∷◌, ◌++◌, ◌==◌, if◌then◌else◌, ◌≡◌, refl, ap, ap₂, arith,
  get_or, set, get_or-set_ne, length,
}
use kevin.Queue.{ids}

unfoldable pub occurs : ℕ → List ℕ → ℕ
occurs i [] = 0
occurs i (j ∷ js) = let rest = occurs i js in if i == j then suc rest else rest

pub occurs-append : (i : ℕ) (xs ys : List ℕ) → occurs i (xs ++ ys) ≡ occurs i xs + occurs i ys
unfolding occurs
occurs-append i [] ys = omega arith
occurs-append i (j ∷ js) ys = ground (arith, occurs-append i js ys)

pub occurs-ids :
    (i s n : ℕ)
    → (s ≤ i → i < s + n → occurs i (ids s n) ≡ 1)
      × (i < s → occurs i (ids s n) ≡ 0)
      × (s + n ≤ i → occurs i (ids s n) ≡ 0)
unfolding occurs ids
occurs-ids i s zero = (λ a b. absurd (omega arith), λ a. refl, λ a. refl)
occurs-ids i s (suc n) =
    let ih = occurs-ids i (suc s) n in
    (λ a b. ground (arith, ih), λ a. ground (arith, ih), λ a. ground (arith, ih))

pub length-ids : (s n : ℕ) → length (ids s n) ≡ n
unfolding ids
length-ids s zero = refl
length-ids s (suc n) = ap suc (length-ids (suc s) n)

module _ {ℓ} {A : Type ℓ} where
  -- The data behind a list of ids.
  unfoldable pub behind : List A → A → List ℕ → List A
  behind ds d [] = []
  behind ds d (i ∷ is) = get_or ds i d ∷ behind ds d is

  pub behind-append :
      (ds : List A) (d : A) (xs ys : List ℕ)
      → behind ds d (xs ++ ys) ≡ behind ds d xs ++ behind ds d ys
  unfolding behind
  behind-append ds d [] ys = refl
  behind-append ds d (x ∷ xs) ys = ap (λ rest. get_or ds x d ∷ rest) (behind-append ds d xs ys)

  pub behind-set :
      (ds : List A) (d a : A) (i : ℕ) (js : List ℕ)
      → occurs i js ≡ 0
      → behind (set ds i a) d js ≡ behind ds d js
  unfolding behind occurs
  behind-set ds d a i [] h = refl
  behind-set ds d a i (j ∷ js) h =
      ap₂ (λ x rest. x ∷ rest) (get_or-set_ne ds i j a d (ground (arith, h)))
        (behind-set ds d a i js (ground (arith, h)))
