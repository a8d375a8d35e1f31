-- ===== src/AffectedTests/Named.antt =====
-- Which tests have a reason in src/switchstand/affected_tests.py.
use switchstand.AffectedTests.Planner.{when, first_of, select}
use switchstand.AffectedTests.{Reasons}
use switchstand.Base.{
  false, ◌↔◌, Bool, string_eq, Bool-cases, List, String, [], ap, arith, concat_map, elem,
  elem-append, elem_here, inl, inr, insert_text, refl, sorted, str_iff, subst, sym, text_leb, true,
  ◌++◌, ◌==◌, ◌||◌, ◌∙◌, ◌∷◌, ◌≡◌, ◌⊎◌,
}

elem-insert_text : (x s : String) (ts : List String) → elem x (insert_text s ts) ≡ elem x (s ∷ ts)
unfolding insert_text elem
elem-insert_text x s [] = refl
elem-insert_text x s (t ∷ ts) = elim (Bool-cases (text_leb s t)) [
  | inl e ↦ rw e refl
  | inr e ↦ rw e (ground (arith, elem-insert_text x s ts))
]

pub elem-sorted : (x : String) (ss : List String) → elem x (sorted ss) ≡ elem x ss
unfolding sorted elem
elem-sorted x [] = refl
elem-sorted x (s ∷ ss) = elem-insert_text x s (sorted ss) ∙ ap (λ b. s == x || b) (elem-sorted x ss)

first_of-append : (xs ys : Reasons) → first_of (xs ++ ys) ≡ first_of xs ++ first_of ys
first_of-append [] ys = refl
first_of-append (x ∷ xs) ys = ap (λ zs. x.0 ∷ zs) (first_of-append xs ys)

-- The test has a reason.
abbrev pub Named : String → Reasons → Type 0
Named t reasons = elem t (first_of reasons) ≡ true

pub Named-left : (t : String) (xs ys : Reasons) → Named t xs → Named t (xs ++ ys)
Named-left t xs ys h = rw (first_of-append xs ys, elem-append t (first_of xs) (first_of ys), h) refl

pub Named-right : (t : String) (xs ys : Reasons) → Named t ys → Named t (xs ++ ys)
Named-right t xs ys h =
    rw (first_of-append xs ys, elem-append t (first_of xs) (first_of ys), h) (ground arith)

Named-append : (t : String) (xs ys : Reasons) → Named t (xs ++ ys) → Named t xs ⊎ Named t ys
Named-append t xs ys h =
    let both : (elem t (first_of xs) || elem t (first_of ys)) ≡ true =
      sym (elem-append t (first_of xs) (first_of ys))
      ∙ ap (elem t) (sym (first_of-append xs ys))
      ∙ h in
    elim (Bool-cases (elem t (first_of xs))) [ inl a ↦ inl a | inr a ↦ inr (rw a at both) ]

pub Named-concat_map :
    (t x : String) (f : String → Reasons) (xs : List String)
    → elem x xs ≡ true
    → Named t (f x)
    → Named t (concat_map f xs)
unfolding concat_map elem
Named-concat_map t x f [] m h = cc
Named-concat_map t x f (y ∷ xs) m h = elim (Bool-cases (y == x)) [
  | inl e ↦
      Named-left t (f y) (concat_map f xs) (subst (λ z. Named t (f z)) (sym ((str_iff y x).0 e)) h)
  | inr e ↦ Named-right t (f y) (concat_map f xs) (Named-concat_map t x f xs (rw e at m) h)
]

-- Only tests have reasons.
abbrev pub OnlyTests : List String → Reasons → Type 0
OnlyTests tests reasons = (t : String) → Named t reasons → elem t tests ≡ true

pub OnlyTests-append :
    (tests : List String) (xs ys : Reasons)
    → OnlyTests tests xs
    → OnlyTests tests ys
    → OnlyTests tests (xs ++ ys)
OnlyTests-append tests xs ys p q t h = elim (Named-append t xs ys h) [
  | inl a ↦ p t a
  | inr b ↦ q t b
]

pub OnlyTests-concat_map :
    (tests : List String) (f : String → Reasons) (xs : List String)
    → ((x : String) → OnlyTests tests (f x))
    → OnlyTests tests (concat_map f xs)
unfolding concat_map elem
OnlyTests-concat_map tests f [] p = λ t h. cc
OnlyTests-concat_map tests f (x ∷ xs) p =
    OnlyTests-append tests (f x) (concat_map f xs) (p x) (OnlyTests-concat_map tests f xs p)

pub OnlyTests-select :
    (tests : List String) (test reason : String) → OnlyTests tests (select tests test reason)
unfolding select elem
OnlyTests-select tests test reason t h = elim (Bool-cases (elem test tests)) [
  | inr e ↦ absurd (cc (rw e at h))
  | inl e ↦ elim (Bool-cases (test == t)) [
    | inl same ↦ subst (λ z. elem z tests ≡ true) ((str_iff test t).0 same) e
    | inr differs ↦ absurd (ground (arith, rw e at h, differs))
  ]
]

pub Named-select :
    (tests : List String) (test reason : String)
    → elem test tests ≡ true
    → Named test (select tests test reason)
unfolding select
Named-select tests test reason e = rw e (elem_here test [])

pub nothing : (tests : List String) → OnlyTests tests []
unfolding elem
nothing tests t h = cc

pub append_empty {ℓ} : {A : Type ℓ} (xs ys : List A) → (xs ++ ys) ≡ [] → (xs ≡ []) × (ys ≡ [])
append_empty [] ys h = (refl, h)
append_empty (x ∷ xs) ys h = cc

pub when-empty : (b : Bool) (reason : String) → (when b reason ≡ []) ↔ (b ≡ false)
when-empty true reason = (λ h. cc, λ h. cc)
when-empty false reason = (λ h. refl, λ h. refl)
