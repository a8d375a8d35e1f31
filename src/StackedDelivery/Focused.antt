-- ===== src/StackedDelivery/Focused.antt =====
-- What focused reviews must show before they count as evidence.
use switchstand.Base.{
  sym, ◌∙◌, suc, String, ◌≡◌, refl, ap, Bool, true, false, not, List, [], ◌∷◌, map, ◌==◌, length,
  all, elem, subset, same_set, to_set, nodup, nat_beq, nat_beq_iff, arith, and_parts, all→All, All,
  All-mono, string_eq, option_eq, str_iff, nodup-to_set, nodup_of_length, length-nodup-subset,
  elem-to_set, subset→All, all-append, ◌⊎◌, ◌≢◌, ◌++◌, inl, inr, Bool-cases,
}
use switchstand.StackedDelivery.{
  FocusedReviewCheck, identity_eq, layer_of, identity_of, identity_beq_iff, required_stack_layers,
  required_review_dimensions, focused_review_is_current, check_holds, reviews_known,
  focused_review_evidence, is_digest,
}

-- A focused review that covers the diff and the contract as they are now.
pub record IsCurrent (check : FocusedReviewCheck) : Type 0 where
  pub verdict : check.review.verdict ≡ "PASS"
  pub unresolved : check.conflict_resolution_occurred ≡ false
  pub identity : check.review.identity ≡ check.current
  pub diff : is_digest check.current.layer_diff_digest ≡ true
  pub contract : is_digest check.current.dependency_contract_digest ≡ true
  pub dimensions : subset required_review_dimensions check.review.reviewed_dimensions ≡ true

false_of_not : (b : Bool) → not b ≡ true → b ≡ false
false_of_not b h = ground arith

check_holds-IsCurrent : (check : FocusedReviewCheck) → check_holds check ≡ true → IsCurrent check
unfolding check_holds focused_review_is_current all
check_holds-IsCurrent check h =
    let (dimensions, current) =
      and_parts (subset required_review_dimensions check.review.reviewed_dimensions) _ h in
    let (digests, h1) =
      and_parts
        (all is_digest (
          check.review.identity.layer_diff_digest ∷ check.review.identity.dependency_contract_digest
          ∷ check.current.layer_diff_digest ∷ check.current.dependency_contract_digest ∷ []))
        _ current in
    let (verdict, h2) = and_parts (check.review.verdict == "PASS") _ h1 in
    let (clean, same) = and_parts (not check.conflict_resolution_occurred) _ h2 in
    let four =
      all→All is_digest
        (check.review.identity.layer_diff_digest ∷ check.review.identity.dependency_contract_digest
          ∷ check.current.layer_diff_digest ∷ check.current.dependency_contract_digest ∷ [])
        digests in
    record {
      verdict = (str_iff check.review.verdict "PASS").0 verdict;
      unresolved = false_of_not check.conflict_resolution_occurred clean;
      identity = (identity_beq_iff check.review.identity check.current).0 same;
      diff = four.1.1.0;
      contract = four.1.1.1.0;
      dimensions = dimensions;
    }

-- Four checks, one for each layer of the stack, each of another identity, and each current.
pub record CoversStack (checks : List FocusedReviewCheck) : Type 0 where
  pub four : length checks ≡ 4
  pub each_layer : All (λ l. elem l (map layer_of checks) ≡ true) required_stack_layers
  pub layers_distinct : nodup (map layer_of checks) ≡ true
  pub identities_distinct : nodup (map identity_of checks) ≡ true
  pub current : All IsCurrent checks

length-map {ℓ κ} :
    {A : Type ℓ} {B : Type κ} (f : A → B) (xs : List A) → length (map f xs) ≡ length xs
length-map f [] = refl
length-map f (x ∷ xs) = ap suc (length-map f xs)

required_layers_nodup : nodup required_stack_layers ≡ true
unfolding nodup elem
required_layers_nodup = refl

reviews_known-CoversStack :
    (checks : List FocusedReviewCheck) → reviews_known checks ≡ true → CoversStack checks
unfolding reviews_known same_set
reviews_known-CoversStack checks h =
    let layers = to_set (map layer_of checks) in
    let identities = to_set (map identity_of checks) in
    let (same, h1) = and_parts (same_set layers required_stack_layers) _ h in
    let (within, covering) = and_parts (subset layers required_stack_layers) _ same in
    let (one_each, h2) = and_parts (nat_beq (length checks) (length layers)) _ h1 in
    let (distinct, hold) = and_parts (nat_beq (length checks) (length identities)) _ h2 in
    let layer_count = (nat_beq_iff (length checks) (length layers)).0 one_each in
    let identity_count = (nat_beq_iff (length checks) (length identities)).0 distinct in
    let at_most =
      length-nodup-subset layers required_stack_layers (nodup-to_set (map layer_of checks))
        within in
    let at_least =
      length-nodup-subset required_stack_layers layers required_layers_nodup covering in
    record {
      four = omega (arith, layer_count, at_most, at_least);
      each_layer =
          All-mono {P = λ l. elem l layers ≡ true} {Q = λ l. elem l (map layer_of checks) ≡ true}
            (λ l m. sym (elem-to_set l (map layer_of checks)) ∙ m) required_stack_layers
            (subset→All required_stack_layers layers covering);
      layers_distinct =
          nodup_of_length (map layer_of checks)
            (omega (arith, length-map layer_of checks, layer_count));
      identities_distinct =
          nodup_of_length (map identity_of checks)
            (omega (arith, length-map identity_of checks, identity_count));
      current = All-mono check_holds-IsCurrent checks (all→All check_holds checks hold);
    }

-- Focused evidence is known only for exactly four checks, one for each layer A to D and of four
-- different identities, each a PASS whose reviewed identity is the current one, after no conflict.
pub focused_review_evidence-CoversStack :
    (subject : String) (checks : List FocusedReviewCheck)
    → (focused_review_evidence subject checks).known ≡ true
    → CoversStack checks
unfolding focused_review_evidence
focused_review_evidence-CoversStack subject checks h = reviews_known-CoversStack checks h

-- What a restack can do to a review.
abbrev pub IsStale : FocusedReviewCheck → Type 0
IsStale check =
    (check.conflict_resolution_occurred ≡ true)
    ⊎ (check.review.identity ≢ check.current)
    ⊎ (check.review.verdict ≢ "PASS")

stale_fails : (check : FocusedReviewCheck) → IsStale check → check_holds check ≡ false
stale_fails check s = elim (Bool-cases (check_holds check)) [
  | inr e ↦ e
  | inl e ↦ absurd (refuted (check_holds-IsCurrent check e) s)
]
  where
    refuted : IsCurrent check → IsStale check → ⊥
    refuted c (inl conflict) = cc (c.unresolved, conflict)
    refuted c (inr (inl changed)) = changed c.identity
    refuted c (inr (inr verdict)) = verdict c.verdict

-- One stale check among the others leaves the evidence unknown and empty.
pub focused_review_evidence_stale :
    (subject : String) (before after : List FocusedReviewCheck) (check : FocusedReviewCheck)
    → IsStale check
    → (focused_review_evidence subject (before ++ check ∷ after)).known ≡ false
      × ((focused_review_evidence subject (before ++ check ∷ after)).passed ≡ [])
unfolding focused_review_evidence reviews_known all
focused_review_evidence_stale subject before after check s =
    ground (arith, all-append check_holds before (check ∷ after), stale_fails check s)
