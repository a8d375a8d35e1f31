-- ===== src/StackedDelivery/Sufficiency.antt =====
-- What sufficient evidence is, and that combining receipts manufactures none.
use switchstand.Base.{
  String, ◌≡◌, refl, ◌⊎◌, inl, inr, true, false, not, Option, none, some, List, [], ◌∷◌, ◌++◌, ◌==◌,
  is_empty, all, any, concat_map, elem, subset, arith, and_parts, string_eq, elem-append,
  all-append, all→All, All, All-mono, str_iff,
}
use switchstand.StackedDelivery.{
  LayerQualification, layer_qualification_is_sufficient, combine_layer_qualifications, passed_of,
  receipt_agrees, composition_agrees, is_sha, or_empty, evidence_dimensions,
}

-- The abstract contract of a sufficient qualification.
pub record IsSufficient (q : LayerQualification) (required : List String) : Type 0 where
  pub sha : is_sha q.subject_sha ≡ true
  pub known : q.known ≡ true
  pub recognised : subset q.passed evidence_dimensions ≡ true
  pub covered : subset required q.passed ≡ true
  pub composed :
      elem "CUMULATIVE_TOP_QUALITY" q.passed ≡ true → is_sha (or_empty q.composition_sha) ≡ true

-- Evidence is accepted only if it is known, bound to a full SHA, made of recognised dimensions and
-- covers every required one; a cumulative claim needs a full composition SHA too.
pub layer_qualification-IsSufficient :
    (q : LayerQualification) (required : List String)
    → layer_qualification_is_sufficient q required ≡ true
    → IsSufficient q required
unfolding layer_qualification_is_sufficient
layer_qualification-IsSufficient q required h =
    let (sha, h1) = and_parts (is_sha q.subject_sha) _ h in
    let (known, h2) = and_parts q.known _ h1 in
    let (nonempty, h3) = and_parts (not (is_empty q.passed)) _ h2 in
    let (recognised, h4) = and_parts (subset q.passed evidence_dimensions) _ h3 in
    let (covered, composed) = and_parts (subset required q.passed) _ h4 in
    record {
      sha = sha;
      known = known;
      recognised = recognised;
      covered = covered;
      composed = λ m. rw m at composed;
    }

-- What is in the combined receipts is in one of them.
elem-concat_map :
    (d : String) (qs : List LayerQualification)
    → elem d (concat_map passed_of qs) ≡ any (λ q. elem d q.passed) qs
unfolding concat_map any elem
elem-concat_map d [] = refl
elem-concat_map d (q ∷ qs) =
    rw (elem-append d q.passed (concat_map passed_of qs), elem-concat_map d qs)

-- A receipt bound to the subject and, if it names a composition, to that composition.
pub record IsBound (subject composition : String) (q : LayerQualification) : Type 0 where
  pub sufficient : layer_qualification_is_sufficient q [] ≡ true
  pub subject_sha : q.subject_sha ≡ subject
  pub composition_sha : (q.composition_sha ≡ none) ⊎ (q.composition_sha ≡ some composition)

composition_cases :
    (c : String) (o : Option String) → composition_agrees c o ≡ true → (o ≡ none) ⊎ (o ≡ some c)
composition_cases c none h = inl refl
composition_cases c (some s) h = inr (ground (arith, str_iff s c))

pub receipt_agrees-IsBound :
    (s c : String) (q : LayerQualification) → receipt_agrees s c q ≡ true → IsBound s c q
unfolding receipt_agrees
receipt_agrees-IsBound s c q h =
    let (sufficient, h1) = and_parts (layer_qualification_is_sufficient q []) _ h in
    let (same, composed) = and_parts (q.subject_sha == s) _ h1 in
    record {
      sufficient = sufficient;
      subject_sha = (str_iff q.subject_sha s).0 same;
      composition_sha = composition_cases c q.composition_sha composed;
    }

-- If the combination of receipts is sufficient for the required dimensions, then every receipt is
-- sufficient by itself and bound to the same subject and composition, and each required dimension
-- was passed by one of the receipts.
pub combine-IsSufficient :
    (s c : String) (receipts : List LayerQualification) (required : List String)
    → layer_qualification_is_sufficient (combine_layer_qualifications s c receipts) required ≡ true
    → All (IsBound s c) receipts × All (λ d. any (λ q. elem d q.passed) receipts ≡ true) required
unfolding combine_layer_qualifications subset
combine-IsSufficient s c receipts required h =
    let combined = combine_layer_qualifications s c receipts in
    let good = layer_qualification-IsSufficient combined required h in
    let (some_receipt, agree) =
      and_parts (not (is_empty receipts)) (all (receipt_agrees s c) receipts) good.known in
    (
      All-mono (receipt_agrees-IsBound s c) receipts (all→All (receipt_agrees s c) receipts agree),
      All-mono (λ d m. rw elem-concat_map at m) required
          (all→All (λ d. elem d combined.passed) required good.covered),
    )

-- One receipt that does not agree makes the combination unknown, whatever stands around it, and
-- then the combination is sufficient for nothing.
pub combine_poisoned :
    (s c : String) (before after : List LayerQualification) (bad : LayerQualification)
    (required : List String)
    → receipt_agrees s c bad ≡ false
    → layer_qualification_is_sufficient
        (combine_layer_qualifications s c (before ++ bad ∷ after))
        required
      ≡ false
unfolding combine_layer_qualifications layer_qualification_is_sufficient all
combine_poisoned s c before after bad required h =
    ground (arith, all-append (receipt_agrees s c) before (bad ∷ after))
