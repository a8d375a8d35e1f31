-- ===== src/Base/Sets.antt =====
-- Lemmas on the tests `elem`, `all`, `subset` and on `to_set`, with the pigeonhole principle.
use switchstand.Base.Names.{
  suc, ◌≤◌, ◌≡◌, refl, inl, inr, Bool, true, false, ◌&&◌, ◌||◌, not, List, [], ◌∷◌, ◌++◌, ap, subst,
  arith,
}
use switchstand.Base.Tests.{if◌then◌else◌, Bool-cases, and_parts}
use switchstand.Base.Equality.{Eq, ◌==◌, beq_refl}
use switchstand.Base.Lists.{length, all, elem, subset, to_set}

-- `P` holds of each element.
abbrev pub All {κ μ} : {T : Type κ} (holds : T → Type μ) (elements : List T) → Type μ
All holds [] = Unit
All holds (y ∷ ys) = holds y × All holds ys

module _ {ℓ} {A : Type ℓ} where
  pub all→All : (p : A → Bool) (xs : List A) → all p xs ≡ true → All (λ x. p x ≡ true) xs
  unfolding all
  all→All p [] h = tt
  all→All p (x ∷ xs) h =
      let (now, later) = and_parts (p x) (all p xs) h in (now, all→All p xs later)

  pub all-append : (p : A → Bool) (xs ys : List A) → all p (xs ++ ys) ≡ (all p xs && all p ys)
  unfolding all
  all-append p [] ys = refl
  all-append p (x ∷ xs) ys = ground (arith, all-append p xs ys)

  pub All-mono {κ μ} :
      {P : A → Type κ} {Q : A → Type μ} (f : (a : A) → P a → Q a) (xs : List A)
      → All P xs
      → All Q xs
  All-mono f [] h = tt
  All-mono f (x ∷ xs) h = (f x h.0, All-mono f xs h.1)

module _ {ℓ} {A : Type ℓ} ⦃e : Eq A⦄ where
  pub all-elem :
      (p : A → Bool) (a : A) (xs : List A) → all p xs ≡ true → elem a xs ≡ true → p a ≡ true
  unfolding all elem
  all-elem p a [] h m = cc
  all-elem p a (x ∷ xs) h m = elim (Bool-cases (x == a)) [
    | inl here ↦ subst (λ y. p y ≡ true) ((e.same_iff x a).0 here) (and_parts (p x) _ h).0
    | inr there ↦ all-elem p a xs (and_parts (p x) _ h).1 (rw there at m)
  ]

  pub elem-append : (a : A) (xs ys : List A) → elem a (xs ++ ys) ≡ (elem a xs || elem a ys)
  unfolding elem
  elem-append a [] ys = refl
  elem-append a (x ∷ xs) ys = ground (arith, elem-append a xs ys)

  pub subset-elem :
      (xs ys : List A) (a : A) → subset xs ys ≡ true → elem a xs ≡ true → elem a ys ≡ true
  unfolding subset
  subset-elem xs ys a h m = all-elem (λ x. elem x ys) a xs h m

  pub subset→All : (xs ys : List A) → subset xs ys ≡ true → All (λ x. elem x ys ≡ true) xs
  unfolding subset
  subset→All xs ys h = all→All (λ x. elem x ys) xs h

  pub elem_here : (a : A) (xs : List A) → elem a (a ∷ xs) ≡ true
  unfolding elem
  elem_here a xs = rw (beq_refl a)

  elem_of_eq : (x a : A) (xs : List A) → (x == a) ≡ true → elem x xs ≡ true → elem a xs ≡ true
  elem_of_eq x a xs h m = subst (λ y. elem y xs ≡ true) ((e.same_iff x a).0 h) m

  -- A set forgets repetition only.
  pub elem-to_set : (a : A) (xs : List A) → elem a (to_set xs) ≡ elem a xs
  unfolding elem to_set
  elem-to_set a [] = refl
  elem-to_set a (x ∷ xs) = elim (Bool-cases (elem x (to_set xs))) [
    | inl old ↦ rw old (ground (arith, elem-to_set a xs, elem_of_eq x a (to_set xs)))
    | inr new ↦ rw new (ap (λ b. x == a || b) (elem-to_set a xs))
  ]

  pub length-to_set : (xs : List A) → length (to_set xs) ≤ length xs
  unfolding to_set
  length-to_set [] = omega arith
  length-to_set (x ∷ xs) = ground (arith, length-to_set xs)

  -- No element stands twice.
  unfoldable pub nodup : List A → Bool
  unfolding elem
  nodup [] = true
  nodup (x ∷ xs) = not (elem x xs) && nodup xs

  pub nodup-to_set : (xs : List A) → nodup (to_set xs) ≡ true
  unfolding nodup to_set
  nodup-to_set [] = refl
  nodup-to_set (x ∷ xs) = elim (Bool-cases (elem x (to_set xs))) [
    | inl old ↦ rw old (nodup-to_set xs)
    | inr new ↦ rw (new, new, nodup) (nodup-to_set xs)
  ]

  -- `len(xs) == len(set(xs))` exactly when no element stands twice: one direction.
  pub nodup_of_length : (xs : List A) → length xs ≡ length (to_set xs) → nodup xs ≡ true
  unfolding nodup to_set
  nodup_of_length [] h = refl
  nodup_of_length (x ∷ xs) h = elim (Bool-cases (elem x (to_set xs))) [
    | inl old ↦ absurd (omega (arith, length-to_set xs, rw old at h))
    | inr new ↦ rw (← elem-to_set x xs, new) (nodup_of_length xs (omega (arith, rw new at h)))
  ]

  without : A → List A → List A
  without a [] = []
  without a (x ∷ xs) = let rest = without a xs in if x == a then xs else x ∷ rest

  length-without :
      (a : A) (xs : List A) → elem a xs ≡ true → length xs ≡ suc (length (without a xs))
  unfolding elem without
  length-without a [] h = cc
  length-without a (x ∷ xs) h = ground (arith, length-without a xs)

  elem-without :
      (a b : A) (xs : List A) → elem b xs ≡ true → (a == b) ≡ false → elem b (without a xs) ≡ true
  unfolding elem without
  elem-without a b [] h n = cc
  elem-without a b (x ∷ xs) h n =
      ground (arith, elem-without a b xs, e.same_iff x a, e.same_iff x b, e.same_iff a b)

  all-without :
      (a : A) (xs ys : List A)
      → all (λ x. elem x ys) xs ≡ true
      → elem a xs ≡ false
      → all (λ x. elem x (without a ys)) xs ≡ true
  unfolding all elem
  all-without a [] ys h n = refl
  all-without a (x ∷ xs) ys h n =
      ground (arith, elem-without a x ys, all-without a xs ys, e.same_iff a x, e.same_iff x a)

  -- The pigeonhole principle.
  pub length-nodup-subset :
      (xs ys : List A) → nodup xs ≡ true → subset xs ys ≡ true → length xs ≤ length ys
  unfolding nodup subset all
  length-nodup-subset [] ys d h = omega arith
  length-nodup-subset (x ∷ xs) ys d h =
      let (fresh, rest) = and_parts (not (elem x xs)) (nodup xs) d in
      let (there, others) = and_parts (elem x ys) (all (λ z. elem z ys) xs) h in
      omega (
        arith,
        length-without x ys there,
        length-nodup-subset xs (without x ys) rest
            (all-without x xs ys others (ground (arith, fresh))),
      )
