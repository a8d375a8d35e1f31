-- ===== src/Core/Launch/Authority.antt =====
-- What a provisioned launch may read.
use switchstand.Core.Launch.{
  handle_ids, Launched, authorize, is_canonical, launch_read, make_authority, provision_launch,
  read_all,
}
use switchstand.Core.{Call, Handle, LaunchAuthority, ProviderWork, World, authority_bounded}
use switchstand.Base.{
  string_eq, Bool-cases, List, Option, Result-cases, String, [], all, arith, err, inl, inr, leb,
  length, nat_beq, ok, refl, subst, to_set, true, ◌∷◌, ◌≡◌, ◌≤◌,
}

-- the work that a launch was given for
pub record IsProvisioned (w : World) (log : List Call) (provider active : String)
    (references : List String) (a : LaunchAuthority) : Type 0 where
  pub few : length references ≤ 8
  pub works : List (Option ProviderWork)
  pub read : (read_all w log provider (active ∷ references)).1 ≡ ok works
  pub canonical : all is_canonical works ≡ true
  pub bounded : authority_bounded a ≡ true

-- the claim of an outcome
abbrev ProvisionClaim :
    World → List Call → String → String → List String → Launched LaunchAuthority → Type 0
ProvisionClaim w log provider active references (after, ok a) =
    IsProvisioned w log provider active references a
ProvisionClaim w log provider active references (after, err e) = Unit

authority-bounded :
    (hs : List Handle) (a : LaunchAuthority) → make_authority hs ≡ ok a → authority_bounded a ≡ true
unfolding make_authority
authority-bounded [] a h = cc
authority-bounded (x ∷ xs) a h =
    let made : LaunchAuthority = record {
      active_work_id = x.id;
      reference_work_ids = handle_ids xs;
    } in
    elim (Bool-cases (authority_bounded made)) [
      | inl e ↦
          let same : made ≡ a = cc (rw (e, make_authority) at h) in
          subst (λ y. authority_bounded y ≡ true) same e
      | inr e ↦ cc (rw (e, make_authority) at h)
    ]

authorize-ProvisionClaim :
    (w : World) (log : List Call) (provider active : String) (references : List String)
    (works : List (Option ProviderWork)) (o : Launched (List Handle))
    → length references ≤ 8
    → (read_all w log provider (active ∷ references)).1 ≡ ok works
    → all is_canonical works ≡ true
    → ProvisionClaim w log provider active references (authorize o)
authorize-ProvisionClaim w log provider active references works (after, err e) few read c = tt
authorize-ProvisionClaim w log provider active references works (after, ok hs) few read c =
    elim (Result-cases (make_authority hs)) [
      | inl (a, e) ↦ rw e (record {
        few = few;
        works = works;
        read = read;
        canonical = c;
        bounded = authority-bounded hs a e;
      })
      | inr (x, e) ↦ rw e tt
    ]

read-ProvisionClaim :
    (w : World) (log : List Call) (provider active : String) (references : List String)
    (o : Launched (List (Option ProviderWork)))
    → length references ≤ 8
    → (read_all w log provider (active ∷ references)).1 ≡ o.1
    → ProvisionClaim w log provider active references
        (launch_read w provider (active ∷ references) o)
unfolding launch_read
read-ProvisionClaim w log provider active references (after, err e) few read = tt
read-ProvisionClaim w log provider active references (after, ok works) few read =
    elim (Bool-cases (all is_canonical works)) [
      | inl c ↦
          rw (c, launch_read)
            (authorize-ProvisionClaim w log provider active references works _ few read c)
      | inr c ↦ rw (c, launch_read) tt
    ]

-- A launch that is provisioned has at most eight references, all its works were read from the
-- provider and are canonical, and its authority passes its validator: distinct handles, the
-- active one not among the references.
pub provision_launch-IsProvisioned :
    (w : World) (log after : List Call) (provider active : String) (references : List String)
    (a : LaunchAuthority)
    → provision_launch w log provider active references ≡ (after, ok a)
    → IsProvisioned w log provider active references a
unfolding provision_launch
provision_launch-IsProvisioned w log after provider active references a h =
    elim (Bool-cases (leb (length references) 8)) [
      | inr e ↦ cc (rw (e, provision_launch) at h)
      | inl e ↦
          elim (Bool-cases
            (nat_beq (length (to_set (active ∷ references))) (length (active ∷ references)))) [
              | inr d ↦ cc (rw (e, d, provision_launch) at h)
              | inl d ↦
                  subst {A = Launched LaunchAuthority}
                    (λ o. ProvisionClaim w log provider active references o)
                    (rw (e, d, provision_launch) at h)
                    (read-ProvisionClaim w log provider active references _ (ground arith) refl)
            ]
    ]
