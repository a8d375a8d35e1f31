-- ===== src/StackedDelivery.antt =====
-- src/switchstand/stacked_delivery.py: review identity and evidence sufficiency of native stacked
-- delivery. A frozenset is a list read up to order and repetition; dimensions, layers and
-- verdicts stay texts, since the code guards against unknown ones. `re` is the pattern's meaning.
pub mod Sufficiency
pub mod Focused
pub mod Landing
mod Examples
use switchstand.Base.{
  String, Bool, true, false, ◌&&◌, ◌||◌, not, Option, none, some, List, [], ◌∷◌, ◌++◌, map, ◌↔◌,
  ◌≡◌, Eq, ◌==◌, string_eq, option_eq, length, is_empty, all, concat_map, elem, subset, same_set,
  to_set, hex_text, nat_beq, if◌then◌else◌, arith, str_iff, option_beq,
}

abbrev pub evidence_dimensions : List String
evidence_dimensions =
    "LAYER_CAUSAL_QUALITY" ∷ "INERTNESS_NON_RELIANCE" ∷ "CUMULATIVE_TOP_QUALITY" ∷ "BROAD_QUALITY"
    ∷ "RUNTIME_LIFECYCLE" ∷ "WAKEFUL_REAL_HOST" ∷ []

abbrev pub required_landing_dimensions : List String
required_landing_dimensions = evidence_dimensions

abbrev pub required_review_dimensions : List String
required_review_dimensions = "LAYER_CAUSAL_QUALITY" ∷ "INERTNESS_NON_RELIANCE" ∷ []

abbrev pub required_stack_layers : List (Option String)
required_stack_layers = some "A" ∷ some "B" ∷ some "C" ∷ some "D" ∷ []

pub record LayerReviewIdentity : Type 0 where
  pub layer_diff_digest : String
  pub dependency_contract_digest : String

-- `==` of the dataclass
abbrev pub identity_beq : LayerReviewIdentity → LayerReviewIdentity → Bool
identity_beq a b =
    a.layer_diff_digest == b.layer_diff_digest
    && a.dependency_contract_digest == b.dependency_contract_digest

pub identity_beq_iff : (a b : LayerReviewIdentity) → (identity_beq a b ≡ true) ↔ (a ≡ b)
identity_beq_iff a b = (
  λ h. ground (
    arith,
    str_iff a.layer_diff_digest b.layer_diff_digest,
    str_iff a.dependency_contract_digest b.dependency_contract_digest,
  ),
  λ h. ground (
    arith,
    str_iff a.layer_diff_digest b.layer_diff_digest,
    str_iff a.dependency_contract_digest b.dependency_contract_digest,
  ),
)

instance abbrev pub identity_eq : Eq LayerReviewIdentity
identity_eq = record { same = identity_beq; same_iff = identity_beq_iff }

pub record FocusedLayerReview : Type 0 where
  pub identity : LayerReviewIdentity
  pub verdict : String
  pub layer : Option String
  pub reviewed_dimensions : List String

pub record FocusedReviewCheck : Type 0 where
  pub review : FocusedLayerReview
  pub current : LayerReviewIdentity
  pub conflict_resolution_occurred : Bool

pub record LayerQualification : Type 0 where
  pub subject_sha : String
  pub passed : List String
  pub known : Bool
  pub composition_sha : Option String

pub record ReviewReceipt : Type 0 where
  pub subject_sha : String
  pub verdict : String

pub record StackLandingEvidence : Type 0 where
  pub exact_top_sha : String
  pub exact_composition_sha : String
  pub cumulative_review : Option ReviewReceipt
  pub cumulative_quality_sha : Option String
  pub focused_reviews : List FocusedReviewCheck
  pub qualifications : List LayerQualification

-- `_SHA` and `_DIGEST`
unfoldable pub is_sha : String → Bool
is_sha = hex_text 40

unfoldable pub is_digest : String → Bool
is_digest = hex_text 64

-- `value or ""`
abbrev pub or_empty : Option String → String
or_empty none = ""
or_empty (some s) = s

unfoldable pub layer_qualification_is_sufficient : LayerQualification → List String → Bool
layer_qualification_is_sufficient evidence required =
    is_sha evidence.subject_sha
    && (evidence.known
        && (not (is_empty evidence.passed)
            && (subset evidence.passed evidence_dimensions
                && (subset required evidence.passed
                    && (not (elem "CUMULATIVE_TOP_QUALITY" evidence.passed)
                        || is_sha (or_empty evidence.composition_sha))))))

-- `item.composition_sha in {None, composition_sha}`
abbrev pub composition_agrees : String → Option String → Bool
composition_agrees composition_sha none = true
composition_agrees composition_sha (some sha) = sha == composition_sha

-- The test of the generator in `combine_layer_qualifications`.
unfoldable pub receipt_agrees : String → String → LayerQualification → Bool
receipt_agrees subject_sha composition_sha item =
    layer_qualification_is_sufficient item []
    && (item.subject_sha == subject_sha && composition_agrees composition_sha item.composition_sha)

abbrev pub passed_of : LayerQualification → List String
passed_of item = item.passed

unfoldable pub combine_layer_qualifications :
    String → String → List LayerQualification → LayerQualification
combine_layer_qualifications subject_sha composition_sha receipts = record {
  subject_sha = subject_sha;
  passed = concat_map passed_of receipts;
  known = not (is_empty receipts) && all (receipt_agrees subject_sha composition_sha) receipts;
  composition_sha = some composition_sha;
}

unfoldable pub focused_review_is_current : FocusedLayerReview → LayerReviewIdentity → Bool → Bool
focused_review_is_current review current conflict_resolution_occurred =
    all is_digest (
      review.identity.layer_diff_digest ∷ review.identity.dependency_contract_digest
      ∷ current.layer_diff_digest ∷ current.dependency_contract_digest ∷ [])
    && (review.verdict == "PASS"
        && (not conflict_resolution_occurred && review.identity == current))

-- The test of the generator in `focused_review_evidence`.
unfoldable pub check_holds : FocusedReviewCheck → Bool
check_holds check =
    subset required_review_dimensions check.review.reviewed_dimensions
    && focused_review_is_current check.review check.current check.conflict_resolution_occurred

abbrev pub layer_of : FocusedReviewCheck → Option String
layer_of check = check.review.layer

abbrev pub identity_of : FocusedReviewCheck → LayerReviewIdentity
identity_of check = check.review.identity

unfoldable pub reviews_known : List FocusedReviewCheck → Bool
reviews_known checks =
    let layers = to_set (map layer_of checks) in
    let identities = to_set (map identity_of checks) in
    same_set layers required_stack_layers
    && (nat_beq (length checks) (length layers)
        && (nat_beq (length checks) (length identities) && all check_holds checks))

unfoldable pub focused_review_evidence : String → List FocusedReviewCheck → LayerQualification
unfolding reviews_known
focused_review_evidence subject_sha checks =
    let known = reviews_known checks in
    record {
      subject_sha = subject_sha;
      passed = if known then required_review_dimensions else [];
      known = known;
      composition_sha = none;
    }

abbrev pub review_passes : String → Option ReviewReceipt → Bool
review_passes top none = false
review_passes top (some r) = r.verdict == "PASS" && (is_sha r.subject_sha && r.subject_sha == top)

-- The receipts that `stack_is_ready_to_land` combines.
abbrev pub landing_receipts : StackLandingEvidence → List LayerQualification
landing_receipts evidence =
    evidence.qualifications
    ++ focused_review_evidence evidence.exact_top_sha evidence.focused_reviews ∷ []

-- The conjunction's two tests on the cumulative review stand together here.
unfoldable pub stack_is_ready_to_land : StackLandingEvidence → Bool
stack_is_ready_to_land evidence =
    let qualification =
      combine_layer_qualifications evidence.exact_top_sha evidence.exact_composition_sha
        (landing_receipts evidence) in
    is_sha evidence.exact_top_sha
    && (is_sha evidence.exact_composition_sha
        && (review_passes evidence.exact_top_sha evidence.cumulative_review
            && (is_sha (or_empty evidence.cumulative_quality_sha)
                && (layer_qualification_is_sufficient qualification required_landing_dimensions
                    && evidence.cumulative_quality_sha == some evidence.exact_top_sha))))
