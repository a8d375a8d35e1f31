-- ===== src/AffectedTests/Reach.antt =====
-- The search of src/switchstand/affected_tests.py ends, and finds exactly the changed modules that a
-- test imports, directly or through other files.
use switchstand.AffectedTests.Walk.{
  add_hits, push_path, walk, Graph, changed_names, lookup, names_of, push_all,
}
use switchstand.Base.{
  zero, and_parts, ◌∙◌, elem-append, ◌||◌, some_inj, sym, subst, none, suc, ◌++◌, ℕ, ◌==◌, All,
  Option, elem_here, ◌⊎◌, string_eq, Bool-cases, List, Option-cases, String, [], arith, elem, inl,
  inr, refl, some, str_iff, true, ◌&&◌, ◌∷◌, ◌≡◌,
}

-- `u` imports a name that is the module of the file `v`.
abbrev pub Edge : Graph → String → String → Type 0
Edge g u v = (name : String) × (elem name (names_of g u) ≡ true) × (lookup name g.modules ≡ some v)

-- the files that `s` imports, directly or through others
pub data Reach (g : Graph) (s : String) : String → Type 0 where
  here : Reach g s s
  step : {u v : String} → Reach g s u → Edge g u v → Reach g s v

-- A file that `s` reaches imports the changed module `name`.
abbrev pub ImportsFrom : Graph → List String → String → String → Type 0
ImportsFrom g changed s name =
    (u : String) × Reach g s u × (elem name (names_of g u) ≡ true) × (elem name changed ≡ true)

pub elem-changed_names :
    (changed names : List String) (name : String)
    → elem name (changed_names changed names) ≡ (elem name names && elem name changed)
unfolding changed_names elem
elem-changed_names changed [] name = refl
elem-changed_names changed (x ∷ names) name = elim (Bool-cases (elem x changed)) [
  | inl b ↦ rw b (ground (arith, elem-changed_names changed names name, str_iff x name, b))
  | inr b ↦ rw b (ground (arith, elem-changed_names changed names name, str_iff x name, b))
]

pub elem_there : (a b : String) (xs : List String) → elem a xs ≡ true → elem a (b ∷ xs) ≡ true
unfolding elem
elem_there a b xs h = ground (arith, h)

pub elem_cases :
    (a b : String) (xs : List String) → elem a (b ∷ xs) ≡ true → (b ≡ a) ⊎ (elem a xs ≡ true)
unfolding elem
elem_cases a b xs h = elim (Bool-cases (b == a)) [
  | inl e ↦ inl ((str_iff b a).0 e)
  | inr e ↦ inr (rw e at h)
]

-- what is pushed: all that waited, and the file of each name
pub elem-push_all :
    (g : Graph) (names pending : List String) (v : String)
    → elem v pending ≡ true
    → elem v (push_all g names pending) ≡ true
unfolding push_all
elem-push_all g [] pending v e = e
elem-push_all g (x ∷ names) pending v e = elim (Option-cases (lookup x g.modules)) [
  | inl n ↦ rw n (elem-push_all g names pending v e)
  | inr (w, n) ↦ rw n (elem-push_all g names (w ∷ pending) v (elem_there v w pending e))
]

pub pushed :
    (g : Graph) (names pending : List String) (name v : String)
    → elem name names ≡ true
    → lookup name g.modules ≡ some v
    → elem v (push_all g names pending) ≡ true
unfolding push_all
pushed g [] pending name v m e = absurd (unfold elem in cc m)
pushed g (x ∷ names) pending name v m e = elim (elem_cases name x names m) [
  | inl is ↦ rw (is, e) (elem-push_all g names (v ∷ pending) v (elem_here v pending))
  | inr later ↦ pushed g names (push_path (lookup x g.modules) pending) name v later e
]

-- Everything that waits is reached.
abbrev pub AllReached : Graph → String → List String → Type 0
AllReached g s pending = All (Reach g s) pending

push_all-reached :
    (g : Graph) (s u : String) (names pending : List String)
    → Reach g s u
    → ((name : String) → elem name names ≡ true → elem name (names_of g u) ≡ true)
    → AllReached g s pending
    → AllReached g s (push_all g names pending)
unfolding push_all
push_all-reached g s u [] pending r are waiting = waiting
push_all-reached g s u (x ∷ names) pending r are waiting =
    push_all-reached g s u names (push_path (lookup x g.modules) pending) r
      (λ name m. are name (elem_there name x names m)) (pushed_one (lookup x g.modules) refl)
  where
    pushed_one :
        (found : Option String)
        → lookup x g.modules ≡ found
        → AllReached g s (push_path found pending)
    pushed_one none e = waiting
    pushed_one (some v) e = (step r (x, are x (elem_here x names), e), waiting)

pub add_hits-parts :
    (now : List String) (m : Option (List String)) (hits : List String)
    → add_hits now m ≡ some hits
    → (later : List String) × (m ≡ some later) × (hits ≡ now ++ later)
add_hits-parts now none hits h = cc
add_hits-parts now (some later) hits h = (later, refl, cc)

module _ (g : Graph) (changed : List String) where
  -- Only such modules are found.
  pub walk_sound :
      (s : String) (fuel : ℕ) (pending seen hits : List String) (name : String)
      → AllReached g s pending
      → walk g changed fuel pending seen ≡ some hits
      → elem name hits ≡ true
      → ImportsFrom g changed s name
  unfolding walk
  walk_sound s zero pending seen hits name r e m = cc
  walk_sound s (suc fuel) [] seen hits name r e m =
      absurd (unfold elem in cc (subst (λ xs. elem name xs ≡ true) (sym (some_inj e)) m))
  walk_sound s (suc fuel) (current ∷ pending) seen hits name r e m =
      elim (Bool-cases (elem current seen)) [
        | inl old ↦ walk_sound s fuel pending seen hits name r.1 (rw (old, walk) at e) m
        | inr new ↦
            let names = names_of g current in
            let (later, e1, e2) =
              add_hits-parts (changed_names changed names)
                (walk g changed fuel (push_all g names pending) (current ∷ seen)) hits
                (rw (new, walk) at e) in
            let both : (elem name (changed_names changed names) || elem name later) ≡ true =
              sym (elem-append name (changed_names changed names) later)
              ∙ subst (λ xs. elem name xs ≡ true) e2 m in
            elim (Bool-cases (elem name (changed_names changed names))) [
              | inl now ↦
                  let (a, b) =
                    and_parts (elem name names) (elem name changed)
                      (sym (elem-changed_names changed names name) ∙ now) in
                  (current, r.0, a, b)
              | inr not_now ↦
                  walk_sound s fuel (push_all g names pending) (current ∷ seen) later name
                    (push_all-reached g s current names pending r.0 (λ n x. x) r.1) e1
                    (rw not_now at both)
            ]
      ]
