-- ===== src/AffectedTests/Complete.antt =====
-- The search of src/switchstand/affected_tests.py misses nothing.
use switchstand.AffectedTests.Ends.{remaining-nil, walk_ends}
use switchstand.AffectedTests.Reach.{
  walk_sound, ImportsFrom, here, step, Reach, elem-changed_names, elem-push_all, pushed,
  add_hits-parts, elem_cases, elem_there, Edge,
}
use switchstand.AffectedTests.Walk.{
  walk_fuel, imports_changed, Graph, changed_names, names_of, push_all, walk,
}
use switchstand.Base.{
  ◌↔◌, ◌||◌, Bool, elem-append, elem_here, sym, subst, string_eq, Bool-cases, List, String, [],
  arith, elem, false, inl, inr, refl, some, str_iff, suc, true, zero, ℕ, ◌++◌, ◌==◌, ◌∷◌, ◌≡◌, ◌⊎◌,
}

or_true : (b : Bool) → (b || true) ≡ true
or_true b = ground arith

seen_other :
    (c u : String) (xs : List String)
    → (c == u) ≡ false
    → elem u xs ≡ false
    → elem u (c ∷ xs) ≡ false
unfolding elem
seen_other c u xs e n = rw (e, n) refl

module _ (g : Graph) (changed : List String) where
  -- The files that are seen import only files that are seen, or wait.
  abbrev Closed : List String → List String → Type 0
  Closed seen pending =
      (u v : String)
      → elem u seen ≡ true
      → Edge g u v
      → (elem v seen ≡ true) ⊎ (elem v pending ≡ true)

  -- Where the search ends: a closed set, in which no module of a new file was missed.
  record IsFinal (pending seen hits : List String) : Type 0 where
    final : List String
    has : (x : String) → (elem x seen ≡ true) ⊎ (elem x pending ≡ true) → elem x final ≡ true
    closed : (u v : String) → elem u final ≡ true → Edge g u v → elem v final ≡ true
    hit :
        (u name : String)
        → elem u final ≡ true
        → elem u seen ≡ false
        → elem name (names_of g u) ≡ true
        → elem name changed ≡ true
        → elem name hits ≡ true

  push-Closed :
      (current : String) (pending seen : List String)
      → Closed seen (current ∷ pending)
      → Closed (current ∷ seen) (push_all g (names_of g current) pending)
  push-Closed current pending seen c u v m edge = elim (elem_cases u current seen m) [
    | inl is ↦ inr (
        pushed g (names_of g current) pending edge.0 v
          (subst (λ x. elem edge.0 (names_of g x) ≡ true) (sym is) edge.1) edge.2)
    | inr before ↦ elim (c u v before edge) [
      | inl old ↦ inl (elem_there v current seen old)
      | inr waits ↦ elim (elem_cases v current pending waits) [
        | inl is ↦ inl (subst (λ x. elem x (current ∷ seen) ≡ true) is (elem_here current seen))
        | inr later ↦ inr (elem-push_all g (names_of g current) pending v later)
      ]
    ]
  ]

  skip-Closed :
      (current : String) (pending seen : List String)
      → elem current seen ≡ true
      → Closed seen (current ∷ pending)
      → Closed seen pending
  skip-Closed current pending seen old c u v m edge = elim (c u v m edge) [
    | inl before ↦ inl before
    | inr waits ↦ elim (elem_cases v current pending waits) [
      | inl is ↦ inl (subst (λ x. elem x seen ≡ true) is old)
      | inr later ↦ inr later
    ]
  ]

  skip-IsFinal :
      (current : String) (pending seen hits : List String)
      → elem current seen ≡ true
      → IsFinal pending seen hits
      → IsFinal (current ∷ pending) seen hits
  skip-IsFinal current pending seen hits old f = record {
    final = f.final;
    has = λ x m. elim m [
      | inl before ↦ f.has x (inl before)
      | inr waits ↦ elim (elem_cases x current pending waits) [
        | inl is ↦ f.has x (inl (subst (λ y. elem y seen ≡ true) is old))
        | inr later ↦ f.has x (inr later)
      ]
    ];
    closed = f.closed;
    hit = f.hit;
  }

  see-IsFinal :
      (current : String) (pending seen later : List String)
      → IsFinal (push_all g (names_of g current) pending) (current ∷ seen) later
      → IsFinal (current ∷ pending) seen (changed_names changed (names_of g current) ++ later)
  see-IsFinal current pending seen later f = record {
    final = f.final;
    has = λ x m. elim m [
      | inl before ↦ f.has x (inl (elem_there x current seen before))
      | inr waits ↦ elim (elem_cases x current pending waits) [
        | inl is ↦
            f.has x (inl (subst (λ y. elem y (current ∷ seen) ≡ true) is (elem_here current seen)))
        | inr after ↦ f.has x (inr (elem-push_all g (names_of g current) pending x after))
      ]
    ];
    closed = f.closed;
    hit = λ u name m new imports is_changed.
        let now = changed_names changed (names_of g current) in
        rw (elem-append name now later) (elim (Bool-cases (current == u)) [
          | inl e ↦
              let is = (str_iff current u).0 e in
              let found : elem name now ≡ true =
                rw (elem-changed_names changed (names_of g current) name, is, imports, is_changed)
                  refl in
              rw found refl
          | inr e ↦
              rw (f.hit u name m (seen_other current u seen e new) imports is_changed)
                (or_true (elem name now))
        ]);
  }

  walk_complete :
      (fuel : ℕ) (pending seen hits : List String)
      → Closed seen pending
      → walk g changed fuel pending seen ≡ some hits
      → IsFinal pending seen hits
  unfolding walk
  walk_complete zero pending seen hits c e = cc
  walk_complete (suc fuel) [] seen hits c e = record {
    final = seen;
    has = λ x m. elim m [ inl before ↦ before | inr waits ↦ absurd (unfold elem in cc waits) ];
    closed = λ u v m edge. elim (c u v m edge) [
      | inl before ↦ before
      | inr waits ↦ absurd (unfold elem in cc waits)
    ];
    hit = λ u name m new imports is_changed. absurd (ground (arith, m, new));
  }
  walk_complete (suc fuel) (current ∷ pending) seen hits c e =
      elim (Bool-cases (elem current seen)) [
        | inl old ↦ skip-IsFinal current pending seen hits old (
            walk_complete fuel pending seen hits (skip-Closed current pending seen old c)
              (rw (old, walk) at e))
        | inr new ↦
            let names = names_of g current in
            let (later, e1, e2) =
              add_hits-parts (changed_names changed names)
                (walk g changed fuel (push_all g names pending) (current ∷ seen)) hits
                (rw (new, walk) at e) in
            subst (IsFinal (current ∷ pending) seen) (sym e2) (
              see-IsFinal current pending seen later (
                walk_complete fuel (push_all g names pending) (current ∷ seen) later
                  (push-Closed current pending seen c) e1))
      ]

  final-Reach :
      (s u : String) (hits : List String) (f : IsFinal (s ∷ []) [] hits)
      → Reach g s u
      → elem u f.final ≡ true
  final-Reach s u hits f here = f.has s (inr (elem_here s []))
  final-Reach s v hits f (step {u} r edge) = f.closed u v (final-Reach s u hits f r) edge

  starts-Closed : (s : String) → Closed [] (s ∷ [])
  unfolding elem
  starts-Closed s u v m edge = cc

  not_seen : (u : String) → elem u [] ≡ false
  unfolding elem
  not_seen u = refl

-- The search from a test ends within its fuel, whatever cycles the imports have, and a changed module
-- is found if and only if the test imports it, directly or through other files of the graph.
pub imports_changed-ImportsFrom :
    (g : Graph) (changed : List String) (test : String)
    → (hits : List String) × (imports_changed g changed test ≡ some hits)
      × ((name : String) → (elem name hits ≡ true) ↔ ImportsFrom g changed test name)
unfolding imports_changed
imports_changed-ImportsFrom g changed test =
    let (hits, e) =
      walk_ends g changed (walk_fuel g) (test ∷ []) []
        (omega (arith, remaining-nil g.dependencies)) in
    let f =
      walk_complete g changed (walk_fuel g) (test ∷ []) [] hits (starts-Closed g changed test) e in
    (
      hits,
      e,
      λ name. (
        λ m. walk_sound g changed test (walk_fuel g) (test ∷ []) [] hits name (here, tt) e m,
        λ (u, r, imports, is_changed).
            f.hit u name (final-Reach g changed test u hits f r) (not_seen g changed u) imports
              is_changed,
      ),
    )
