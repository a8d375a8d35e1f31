-- ===== src/AffectedTests/Promoted.antt =====
-- What `foreground_authority` of src/switchstand/affected_tests.py promotes.
use switchstand.AffectedTests.Named.{when-empty, append_empty}
use switchstand.AffectedTests.Planner.{when}
use switchstand.AffectedTests.Paths.{is_direct_test}
use switchstand.Base.{
  all, if◌then◌else◌, string_eq, Bool, List, String, [], any, elem, false, is_empty, not, refl,
  true, ◌&&◌, ◌++◌, ◌==◌, ◌||◌, ◌↔◌, ◌∷◌, ◌≡◌, ◌≢◌,
}
use switchstand.AffectedTests.Authority.{
  promote_affected_inputs_v1, promote_test_module_only_v1, authority_of, authority_reasons,
  foreground_authority, full_fallback_authority, is_exact, is_promoted, is_selected,
}
use switchstand.AffectedTests.{Plan, planner_revision, serial_sensitive_v1}

-- The guards of a promotion, each of which the code names by a reason.
pub record IsPromotable (p : Plan) (subject_verified health_clear stack_top : Bool) : Type 0 where
  pub subject : (not (is_exact p.basis_kind) || not subject_verified) ≡ false
  pub revision : (not (p.planner_revision == planner_revision)) ≡ false
  pub health : not health_clear ≡ false
  pub not_top : stack_top ≡ false
  pub clean : (not (is_selected p.mode) || not (is_empty p.fallback_reasons)) ≡ false
  pub nothing_gone : p.destructive ≡ false
  pub inputs :
      (is_empty p.changed_paths || any (λ path. not (is_promoted path)) p.changed_paths) ≡ false
  pub direct :
      (is_empty p.selected_tests || any (λ path. not (is_direct_test path)) p.selected_tests)
      ≡ false
  pub changed_tests :
      any (λ path. is_direct_test path && not (elem path p.selected_tests)) p.changed_paths ≡ false
  pub not_serial :
      any (λ path. elem path serial_sensitive_v1) (p.changed_paths ++ p.selected_tests) ≡ false

module _ (p : Plan) (subject_verified health_clear stack_top : Bool) where
  reasons-IsPromotable :
      authority_reasons p subject_verified health_clear stack_top ≡ []
      → IsPromotable p subject_verified health_clear stack_top
  unfolding authority_reasons
  reasons-IsPromotable h =
      let (a, h1) = append_empty (when _ _) _ h in
      let (b, h2) = append_empty (when _ _) _ h1 in
      let (c, h3) = append_empty (when _ _) _ h2 in
      let (d, h4) = append_empty (when _ _) _ h3 in
      let (e, h5) = append_empty (when _ _) _ h4 in
      let (f, h6) = append_empty (when _ _) _ h5 in
      let (g, h7) = append_empty (when _ _) _ h6 in
      let (k, h8) = append_empty (when _ _) _ h7 in
      let (l, m) = append_empty (when _ _) _ h8 in
      record {
        subject = (when-empty _ _).0 a;
        revision = (when-empty _ _).0 b;
        health = (when-empty _ _).0 c;
        not_top = (when-empty _ _).0 d;
        clean = (when-empty _ _).0 e;
        nothing_gone = (when-empty _ _).0 f;
        inputs = (when-empty _ _).0 g;
        direct = (when-empty _ _).0 k;
        changed_tests = (when-empty _ _).0 l;
        not_serial = (when-empty _ _).0 m;
      }

  IsPromotable-reasons :
      IsPromotable p subject_verified health_clear stack_top
      → authority_reasons p subject_verified health_clear stack_top ≡ []
  unfolding authority_reasons
  IsPromotable-reasons h =
      rw
        (
          h.subject, h.revision, h.health, h.not_top, h.clean, h.nothing_gone, h.inputs, h.direct,
          h.changed_tests, h.not_serial,
        )
        refl

  pick :
      (b : Bool)
      → ¬ (
          (if b then promote_test_module_only_v1 else promote_affected_inputs_v1)
          ≡ full_fallback_authority)
  pick true e = cc
  pick false e = cc

  authority-mode :
      (reasons : List String)
      → ((authority_of p reasons).mode ≢ full_fallback_authority) ↔ (reasons ≡ [])
  authority-mode [] = (λ h. refl, λ e e'. pick (all is_direct_test p.changed_paths) e')
  authority-mode (r ∷ rs) = (λ h. absurd (h refl), λ e. cc)

-- A plan is promoted if and only if it meets every guard: an exact and verified subject, the promoted
-- planner, clear health, no top of a cumulative stack, a clean selection without a removal, changed
-- paths that are all direct tests or promoted inputs, selected tests that are all direct test
-- modules and have each changed one among them, and no test that is sensitive to order.
pub foreground_authority-IsPromotable :
    (p : Plan) (subject_verified health_clear stack_top : Bool)
    → ((foreground_authority p subject_verified health_clear stack_top).mode
        ≢ full_fallback_authority)
      ↔ IsPromotable p subject_verified health_clear stack_top
unfolding foreground_authority
foreground_authority-IsPromotable p subject_verified health_clear stack_top =
    let decided =
      authority-mode p subject_verified health_clear stack_top
        (authority_reasons p subject_verified health_clear stack_top) in
    (
      λ h. reasons-IsPromotable p subject_verified health_clear stack_top (decided.0 h),
      λ h. decided.1 (IsPromotable-reasons p subject_verified health_clear stack_top h),
    )
