-- ===== src/AffectedTests/Ends.antt =====
-- The search of src/switchstand/affected_tests.py ends within its fuel.
use switchstand.AffectedTests.Walk.{
  Graph, changed_names, graph_size, lookup, names_of, or_empty, push_all, walk,
}
use switchstand.Base.{
  string_eq, Bool-cases, List, Option-cases, String, [], arith, elem, false, if◌then◌else◌, inl,
  inr, length, refl, some, str_iff, suc, zero, ℕ, ◌++◌, ◌+◌, ◌<◌, ◌==◌, ◌∷◌, ◌≡◌, ◌≤◌,
}

-- The names of the files that were not seen yet: each round takes a file that waits, or sees one.
pub remaining : List (String × List String) → List String → ℕ
remaining [] seen = 0
remaining ((path, names) ∷ rest) seen =
    (if elem path seen then 0 else length names) + remaining rest seen

pub remaining-nil : (t : List (String × List String)) → remaining t [] ≡ graph_size t
unfolding remaining graph_size elem
remaining-nil [] = refl
remaining-nil ((path, names) ∷ rest) = omega (arith, remaining-nil rest)

remaining_mono :
    (t : List (String × List String)) (c : String) (seen : List String)
    → remaining t (c ∷ seen) ≤ remaining t seen
unfolding remaining elem
remaining_mono [] c seen = omega arith
remaining_mono ((path, names) ∷ rest) c seen = ground (arith, remaining_mono rest c seen)

-- A file that is seen leaves the rest smaller by its names.
remaining_less :
    (t : List (String × List String)) (c : String) (seen : List String)
    → elem c seen ≡ false
    → remaining t (c ∷ seen) + length (or_empty (lookup c t)) ≤ remaining t seen
unfolding remaining lookup elem
remaining_less [] c seen new = omega arith
remaining_less ((path, names) ∷ rest) c seen new = elim (Bool-cases (path == c)) [
  | inl e ↦
      let is = (str_iff path c).0 e in
      ground (arith, remaining_mono rest c seen, is, new, str_iff path c, str_iff c path)
  | inr e ↦ ground (arith, remaining_less rest c seen new, e, str_iff path c, str_iff c path)
]

length-push_all :
    (g : Graph) (names pending : List String)
    → length (push_all g names pending) ≤ length names + length pending
unfolding push_all
length-push_all g [] pending = omega arith
length-push_all g (x ∷ names) pending = elim (Option-cases (lookup x g.modules)) [
  | inl n ↦ rw n (omega (arith, length-push_all g names pending))
  | inr (v, n) ↦ rw n (omega (arith, length-push_all g names (v ∷ pending)))
]

module _ (g : Graph) (changed : List String) where
  pub walk_ends :
      (fuel : ℕ) (pending seen : List String)
      → length pending + remaining g.dependencies seen < fuel
      → (hits : List String) × (walk g changed fuel pending seen ≡ some hits)
  unfolding walk names_of
  walk_ends zero pending seen h = elim h [ ]
  walk_ends (suc fuel) [] seen h = ([], refl)
  walk_ends (suc fuel) (current ∷ pending) seen h = elim (Bool-cases (elem current seen)) [
    | inl old ↦ rw (old, walk) (walk_ends fuel pending seen (omega arith))
    | inr new ↦
        let names = names_of g current in
        let (hits, e) = walk_ends fuel (push_all g names pending) (current ∷ seen) (
          omega (
            arith,
            length-push_all g names pending,
            remaining_less g.dependencies current seen new,
          )) in
        (changed_names changed names ++ hits, rw (new, walk, e) refl)
  ]
