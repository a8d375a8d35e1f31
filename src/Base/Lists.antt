-- ===== src/Base/Lists.antt =====
-- Lists measured by native numbers, and Python's `in`, `all`, `any`, `set` and `<=` on them. A
-- Python set is a list read up to order and repetition.
use switchstand.Base.Names.{ℕ, suc, Bool, true, false, ◌&&◌, ◌||◌, List, [], ◌∷◌, ◌++◌}
use switchstand.Base.Tests.{if◌then◌else◌}
use switchstand.Base.Equality.{Eq, ◌==◌}

module _ {ℓ} {A : Type ℓ} where
  abbrev pub length : List A → ℕ
  length [] = 0
  length (x ∷ xs) = suc (length xs)

  abbrev pub is_empty : List A → Bool
  is_empty [] = true
  is_empty (x ∷ xs) = false

  unfoldable pub all : (A → Bool) → List A → Bool
  all p [] = true
  all p (x ∷ xs) = p x && all p xs

  unfoldable pub any : (A → Bool) → List A → Bool
  any p [] = false
  any p (x ∷ xs) = p x || any p xs

  unfoldable pub concat_map {κ} : {B : Type κ} → (A → List B) → List A → List B
  concat_map f [] = []
  concat_map f (x ∷ xs) = f x ++ concat_map f xs

module _ {ℓ} {A : Type ℓ} ⦃e : Eq A⦄ where
  unfoldable pub elem : A → List A → Bool
  elem a [] = false
  elem a (x ∷ xs) = x == a || elem a xs

  -- `xs <= ys` of two sets
  unfoldable pub subset : List A → List A → Bool
  unfolding all elem
  subset xs ys = all (λ x. elem x ys) xs

  -- `xs == ys` of two sets
  unfoldable pub same_set : List A → List A → Bool
  unfolding subset
  same_set xs ys = subset xs ys && subset ys xs

  -- `set(xs)`: each element once
  unfoldable pub to_set : List A → List A
  unfolding elem
  to_set [] = []
  to_set (x ∷ xs) = let rest = to_set xs in if elem x rest then rest else x ∷ rest
