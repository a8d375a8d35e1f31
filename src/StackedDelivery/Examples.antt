-- ===== src/StackedDelivery/Examples.antt =====
-- The theorems on stacked delivery at concrete evidence.
use switchstand.StackedDelivery.Sufficiency.{combine-IsSufficient, IsBound}
use switchstand.StackedDelivery.Landing.{ready_of_evidence, ready-IsLandable, IsLandable}
use switchstand.Base.{
  any, concat_map, to_set, elem, same_set, All, all, hex_text, subset, String, ◌≡◌, refl, true,
  false, some, List, [], ◌∷◌, string_eq,
}
use switchstand.StackedDelivery.{
  reviews_known, is_sha, is_digest, check_holds, focused_review_is_current, LayerReviewIdentity,
  FocusedReviewCheck, LayerQualification, StackLandingEvidence, ReviewReceipt,
  combine_layer_qualifications, layer_qualification_is_sufficient, receipt_agrees,
  focused_review_evidence, stack_is_ready_to_land, required_review_dimensions,
}

abbrev top : String
top = "0123456789abcdef0123456789abcdef01234567"

abbrev composition : String
composition = "fedcba9876543210fedcba9876543210fedcba98"

abbrev contract : String
contract = "0123456789abcdef0123456789abcdef0123456789abcdef0123456789abcdef"

abbrev identity : String → LayerReviewIdentity
identity digest = record { layer_diff_digest = digest; dependency_contract_digest = contract }

abbrev check_of : String → String → FocusedReviewCheck
check_of layer digest = record {
  review = record {
    identity = identity digest;
    verdict = "PASS";
    layer = some layer;
    reviewed_dimensions = required_review_dimensions;
  };
  current = identity digest;
  conflict_resolution_occurred = false;
}

abbrev digest_a : String
digest_a = "aaaaaaaaaaaaaaaaaaaaaaaaaaaaaaaaaaaaaaaaaaaaaaaaaaaaaaaaaaaaaaaa"

abbrev checks : List FocusedReviewCheck
checks =
    check_of "A" digest_a
    ∷ check_of "B" "bbbbbbbbbbbbbbbbbbbbbbbbbbbbbbbbbbbbbbbbbbbbbbbbbbbbbbbbbbbbbbbb"
    ∷ check_of "C" "cccccccccccccccccccccccccccccccccccccccccccccccccccccccccccccccc"
    ∷ check_of "D" "dddddddddddddddddddddddddddddddddddddddddddddddddddddddddddddddd"
    ∷ []

abbrev quality : LayerQualification
quality = record {
  subject_sha = top;
  passed =
      "CUMULATIVE_TOP_QUALITY" ∷ "BROAD_QUALITY" ∷ "RUNTIME_LIFECYCLE" ∷ "WAKEFUL_REAL_HOST" ∷ [];
  known = true;
  composition_sha = some composition;
}

abbrev unknown_quality : LayerQualification
unknown_quality = record quality { known = false }

abbrev receipt : ReviewReceipt
receipt = record { subject_sha = top; verdict = "PASS" }

abbrev evidence : StackLandingEvidence
evidence = record {
  exact_top_sha = top;
  exact_composition_sha = composition;
  cumulative_review = some receipt;
  cumulative_quality_sha = some top;
  focused_reviews = checks;
  qualifications = quality ∷ [];
}

evidence_known : reviews_known checks ≡ true
unfolding reviews_known same_set subset all elem to_set check_holds focused_review_is_current
    is_digest hex_text
evidence_known = refl

quality_agrees : all (receipt_agrees top composition) (quality ∷ []) ≡ true
unfolding all receipt_agrees layer_qualification_is_sufficient is_sha hex_text subset elem
quality_agrees = refl

shas_full : (is_sha top ≡ true) × (is_sha composition ≡ true)
unfolding is_sha hex_text
shas_full = (refl, refl)

ready_of_evidence_example : stack_is_ready_to_land evidence ≡ true
unfolding subset all elem concat_map focused_review_evidence reviews_known same_set to_set
    check_holds focused_review_is_current is_digest hex_text
ready_of_evidence_example =
    ready_of_evidence evidence receipt shas_full.0 shas_full.1 refl refl refl refl evidence_known
      quality_agrees refl

ready-IsLandable_example : IsLandable evidence
ready-IsLandable_example = ready-IsLandable evidence ready_of_evidence_example

combined_sufficient :
    layer_qualification_is_sufficient
      (combine_layer_qualifications top composition (quality ∷ []))
      ("BROAD_QUALITY" ∷ [])
    ≡ true
unfolding combine_layer_qualifications layer_qualification_is_sufficient receipt_agrees all elem
    subset concat_map is_sha hex_text
combined_sufficient = refl

combine-IsSufficient_example :
    All (IsBound top composition) (quality ∷ [])
    × All (λ d. any (λ q. elem d q.passed) (quality ∷ []) ≡ true) ("BROAD_QUALITY" ∷ [])
combine-IsSufficient_example =
    combine-IsSufficient top composition (quality ∷ []) ("BROAD_QUALITY" ∷ []) combined_sufficient

unknown_disagrees : receipt_agrees top composition unknown_quality ≡ false
unfolding receipt_agrees layer_qualification_is_sufficient is_sha hex_text
unknown_disagrees = refl

abbrev conflicted : FocusedReviewCheck
conflicted = record (check_of "A" digest_a) { conflict_resolution_occurred = true }
