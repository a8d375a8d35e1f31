-- ===== src/StackedDelivery/Landing.antt =====
-- The no-early-partial-landing boundary.
use switchstand.Base.{
  concat_map, ◌∙◌, String, ◌≡◌, refl, Bool, true, false, ◌&&◌, Option, none, some, List, [], ◌∷◌,
  ◌++◌, string_eq, option_eq, arith, and_parts, All, all, all-append, any, is_empty, elem, subset,
  str_iff, beq_refl,
}
use switchstand.StackedDelivery.{
  StackLandingEvidence, FocusedReviewCheck, passed_of, LayerQualification, ReviewReceipt,
  review_passes, landing_receipts, stack_is_ready_to_land, focused_review_evidence,
  combine_layer_qualifications, is_sha, or_empty, layer_qualification_is_sufficient,
  required_landing_dimensions, receipt_agrees, reviews_known, evidence_dimensions,
}
use switchstand.StackedDelivery.Sufficiency.{
  IsBound, combine-IsSufficient, layer_qualification-IsSufficient,
}
use switchstand.StackedDelivery.Focused.{CoversStack, focused_review_evidence-CoversStack}

-- A cumulative review that passed the exact top.
abbrev pub ReviewedTop : String → Option ReviewReceipt → Type 0
ReviewedTop top none = ⊥
ReviewedTop top (some r) = (r.verdict ≡ "PASS") × (r.subject_sha ≡ top)

-- All that a landing rests on.
pub record IsLandable (e : StackLandingEvidence) : Type 0 where
  pub top : is_sha e.exact_top_sha ≡ true
  pub composition : is_sha e.exact_composition_sha ≡ true
  pub review : ReviewedTop e.exact_top_sha e.cumulative_review
  pub quality : e.cumulative_quality_sha ≡ some e.exact_top_sha
  pub focused : CoversStack e.focused_reviews
  pub receipts : All (IsBound e.exact_top_sha e.exact_composition_sha) e.qualifications
  pub dimensions :
      All (λ d. any (λ q. elem d q.passed) (landing_receipts e) ≡ true) evidence_dimensions

review_passes-ReviewedTop :
    (top : String) (o : Option ReviewReceipt) → review_passes top o ≡ true → ReviewedTop top o
review_passes-ReviewedTop top none h = cc
review_passes-ReviewedTop top (some r) h =
    ground (arith, str_iff r.verdict "PASS", str_iff r.subject_sha top)

All-split {ℓ κ} :
    {A : Type ℓ} (P : A → Type κ) (xs ys : List A) → All P (xs ++ ys) → All P xs × All P ys
All-split P [] ys h = (tt, h)
All-split P (x ∷ xs) ys h = let (left, right) = All-split P xs ys h.1 in ((h.0, left), right)

-- Evidence that is sufficient by itself is known.
IsBound-known : (s c : String) (q : LayerQualification) → IsBound s c q → q.known ≡ true
IsBound-known s c q b = (layer_qualification-IsSufficient q [] b.sufficient).known

-- A stack lands only with all of this: full SHAs of the top and the composition, a PASS review and
-- a quality run of exactly that top, four current focused reviews of the layers A to D, receipts
-- that are each sufficient and bound to that top and composition, and each of the six evidence
-- dimensions passed by one of the receipts.
pub ready-IsLandable : (e : StackLandingEvidence) → stack_is_ready_to_land e ≡ true → IsLandable e
unfolding stack_is_ready_to_land
ready-IsLandable e h =
    let (top, h1) = and_parts (is_sha e.exact_top_sha) _ h in
    let (composition, h2) = and_parts (is_sha e.exact_composition_sha) _ h1 in
    let (review, h3) = and_parts (review_passes e.exact_top_sha e.cumulative_review) _ h2 in
    let (sha, h4) = and_parts (is_sha (or_empty e.cumulative_quality_sha)) _ h3 in
    let (sufficient, quality) =
      and_parts
        (layer_qualification_is_sufficient
          (combine_layer_qualifications e.exact_top_sha e.exact_composition_sha
            (landing_receipts e))
          required_landing_dimensions)
        _ h4 in
    let (bound, dimensions) =
      combine-IsSufficient e.exact_top_sha e.exact_composition_sha (landing_receipts e)
        required_landing_dimensions sufficient in
    let evidence = focused_review_evidence e.exact_top_sha e.focused_reviews in
    let (given, derived) =
      All-split (IsBound e.exact_top_sha e.exact_composition_sha) e.qualifications (evidence ∷ [])
        bound in
    record {
      top = top;
      composition = composition;
      review = review_passes-ReviewedTop e.exact_top_sha e.cumulative_review review;
      quality =
          ((option_eq {A = String}).same_iff e.cumulative_quality_sha (some e.exact_top_sha)).0
            quality;
      focused =
          focused_review_evidence-CoversStack e.exact_top_sha e.focused_reviews
            (IsBound-known e.exact_top_sha e.exact_composition_sha evidence derived.0);
      receipts = given;
      dimensions = dimensions;
    }

both :
    (p : LayerQualification → Bool) (q : LayerQualification) {b : Bool}
    → b ≡ true
    → p q ≡ true
    → (b && all p (q ∷ [])) ≡ true
unfolding all
both p q h k = ground arith

-- What agreeing receipts pass is recognised.
passed_recognised :
    (s c : String) (qs : List LayerQualification)
    → all (receipt_agrees s c) qs ≡ true
    → subset (concat_map passed_of qs) evidence_dimensions ≡ true
unfolding all concat_map subset receipt_agrees layer_qualification_is_sufficient
passed_recognised s c [] h = refl
passed_recognised s c (q ∷ qs) h = ground (
  arith,
  all-append (λ d. elem d evidence_dimensions) q.passed (concat_map passed_of qs),
  passed_recognised s c qs,
)

focused_agrees :
    (top composition : String) (checks : List FocusedReviewCheck)
    → is_sha top ≡ true
    → reviews_known checks ≡ true
    → receipt_agrees top composition (focused_review_evidence top checks) ≡ true
unfolding receipt_agrees focused_review_evidence layer_qualification_is_sufficient subset all elem
focused_agrees top composition checks sha known = rw (known, sha, beq_refl top)

append_nonempty :
    (xs : List LayerQualification) (q : LayerQualification) → is_empty (xs ++ q ∷ []) ≡ false
append_nonempty [] q = refl
append_nonempty (x ∷ xs) q = refl

covering_nonempty : (xs : List String) → subset evidence_dimensions xs ≡ true → is_empty xs ≡ false
unfolding subset all elem
covering_nonempty [] h = cc
covering_nonempty (x ∷ xs) h = refl

-- A stack lands when the SHAs are full, a PASS review and a quality run name exactly the top, the
-- focused reviews are known, each receipt agrees with the top and the composition, and together
-- they pass the six dimensions.
pub ready_of_evidence :
    (e : StackLandingEvidence) (r : ReviewReceipt)
    → is_sha e.exact_top_sha ≡ true
    → is_sha e.exact_composition_sha ≡ true
    → e.cumulative_review ≡ some r
    → r.verdict ≡ "PASS"
    → r.subject_sha ≡ e.exact_top_sha
    → e.cumulative_quality_sha ≡ some e.exact_top_sha
    → reviews_known e.focused_reviews ≡ true
    → all (receipt_agrees e.exact_top_sha e.exact_composition_sha) e.qualifications ≡ true
    → subset evidence_dimensions (concat_map passed_of (landing_receipts e)) ≡ true
    → stack_is_ready_to_land e ≡ true
unfolding stack_is_ready_to_land combine_layer_qualifications layer_qualification_is_sufficient
ready_of_evidence e r top composition review verdict subject quality known agree covered =
    let evidence = focused_review_evidence e.exact_top_sha e.focused_reviews in
    let agrees = receipt_agrees e.exact_top_sha e.exact_composition_sha in
    let last = focused_agrees e.exact_top_sha e.exact_composition_sha e.focused_reviews top known in
    let everything : all agrees (landing_receipts e) ≡ true =
      all-append agrees e.qualifications (evidence ∷ []) ∙ both agrees evidence agree last in
    rw
      (
        review,
        quality,
        verdict,
        subject,
        top,
        composition,
        beq_refl e.exact_top_sha,
        everything,
        covered,
        covering_nonempty (concat_map passed_of (landing_receipts e)) covered,
        passed_recognised e.exact_top_sha e.exact_composition_sha (landing_receipts e) everything,
        append_nonempty e.qualifications evidence,
      )
      (ground arith)
