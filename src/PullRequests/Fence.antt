-- ===== src/PullRequests/Fence.antt =====
-- The checks that every change of src/switchstand/pull_requests.py passed, and its links.
use switchstand.PullRequests.Links.{apply_action-IsLinked, IsLinked}
use switchstand.Grants.{remove, add_relation, set, move, clear, PullRequestChange, RelationAction}
use switchstand.PullRequests.Change.{
  is_binding_of, add_pull, apply_action, change, change_row, is_current_caller, needs_link,
  version_current,
}
use switchstand.PullRequests.{
  PullRequestLink, find_mailbox, AgentMailbox, PullRequestRecord, Tables, find_pull, is_link,
}
use switchstand.Base.{
  string_eq, str_iff, ◌==◌, inr, List, inl, some_inj, Option-cases, subst, ℕ, ◌⊎◌, Option, String,
  any, arith, bind_passed, forbid_passed, none, not, ok, refl, require_passed, some, true, ◌&&◌,
  ◌≡◌, ◌≢◌,
}

-- The caller has a mailbox with just its endpoint, principal, session and generation, and is the
-- principal's.
pub record IsRegistered (t : Tables) (caller : AgentMailbox) (principal_key : String) : Type 0 where
  pub mailbox : AgentMailbox
  pub found : find_mailbox caller.name_key t.mailboxes ≡ some mailbox
  pub endpoint : mailbox.endpoint_id ≡ caller.endpoint_id
  pub principal : mailbox.principal_key ≡ caller.principal_key
  pub session : mailbox.session_key ≡ caller.session_key
  pub generation : mailbox.generation ≡ caller.generation
  pub of_principal : caller.principal_key ≡ principal_key

current-IsRegistered :
    (t : Tables) (caller : AgentMailbox) (principal_key : String)
    → is_current_caller t caller principal_key ≡ true
    → IsRegistered t caller principal_key
unfolding is_current_caller
current-IsRegistered t caller principal_key h =
    elim (Option-cases (find_mailbox caller.name_key t.mailboxes)) [
      | inl e ↦ absurd (cc (rw (e, is_current_caller) at h))
      | inr (m, e) ↦
          let same : (is_binding_of caller m && caller.principal_key == principal_key) ≡ true =
            rw (e, is_current_caller) at h in
          record {
            mailbox = m;
            found = e;
            endpoint = (str_iff m.endpoint_id caller.endpoint_id).0 (ground (arith, same));
            principal = (str_iff m.principal_key caller.principal_key).0 (ground (arith, same));
            session = (str_iff m.session_key caller.session_key).0 (ground (arith, same));
            generation = ground (arith, same);
            of_principal = (str_iff caller.principal_key principal_key).0 (ground (arith, same));
          }
    ]

-- The fence, and what the change leaves of the links: the caller is registered; the row exists,
-- after the insert of an `add`, at the expected version if there is one; a removal or a transfer had
-- its link.
pub record IsAdmitted (t added after : Tables) (work_id : String) (action : RelationAction)
    (patch : PullRequestChange) (caller : AgentMailbox) (principal_key : String) : Type 0 where
  pub registered : IsRegistered t caller principal_key
  pub row : PullRequestRecord
  pub found : find_pull patch.repository patch.number added.pulls ≡ some row
  pub current : (v : ℕ) → patch.expected_version ≡ some v → row.row_version ≡ v
  pub linked :
      (action ≡ remove) ⊎ (action ≡ set)
      → any (is_link work_id patch.repository patch.number) t.links ≡ true
  pub supported : (action ≢ clear) × (action ≢ move)
  pub links : IsLinked t.links after.links action work_id patch.repository patch.number

current_of :
    (expected : Option ℕ) (row : PullRequestRecord) (v : ℕ)
    → version_current expected row ≡ true
    → expected ≡ some v
    → row.row_version ≡ v
current_of none row v h e = cc
current_of (some x) row v h e = ground (arith, h, some_inj e)

added-links :
    (action : RelationAction) (t : Tables) (patch : PullRequestChange) (caller : AgentMailbox)
    (op : String)
    → (add_pull action t patch caller op).links ≡ t.links
unfolding add_pull
added-links set t patch caller op = refl
added-links clear t patch caller op = refl
added-links add_relation t patch caller op = refl
added-links remove t patch caller op = refl
added-links move t patch caller op = refl

needs_link-cases :
    (action : RelationAction) → (action ≡ remove) ⊎ (action ≡ set) → needs_link action ≡ true
needs_link-cases action (inl e) = rw e refl
needs_link-cases action (inr e) = rw e refl

supported_action :
    (action : RelationAction) (t after : Tables) (work_id : String) (patch : PullRequestChange)
    (caller : AgentMailbox) (row : PullRequestRecord)
    → apply_action action t work_id patch caller row ≡ ok after
    → (action ≢ clear) × (action ≢ move)
unfolding apply_action
supported_action set t after work_id patch caller row h = (λ e. cc, λ e. cc)
supported_action clear t after work_id patch caller row h = cc
supported_action add_relation t after work_id patch caller row h = (λ e. cc, λ e. cc)
supported_action remove t after work_id patch caller row h = (λ e. cc, λ e. cc)
supported_action move t after work_id patch caller row h = cc

row-IsAdmitted :
    (t added after : Tables) (work_id : String) (action : RelationAction)
    (patch : PullRequestChange) (caller : AgentMailbox) (principal_key : String)
    (row : Option PullRequestRecord)
    → IsRegistered t caller principal_key
    → added.links ≡ t.links
    → find_pull patch.repository patch.number added.pulls ≡ row
    → change_row action added work_id patch caller row ≡ ok after
    → IsAdmitted t added after work_id action patch caller principal_key
unfolding change_row
row-IsAdmitted t added after work_id action patch caller principal_key none known same held h = cc
row-IsAdmitted t added after work_id action patch caller principal_key (some row) known same held
      h =
    let key = is_link work_id patch.repository patch.number in
    let (unlinked, h1) =
      forbid_passed (needs_link action && not (any key added.links)) _ _ after h in
    let (current, h2) = require_passed (version_current patch.expected_version row) _ _ after h1 in
    let linked : needs_link action ≡ true → any key added.links ≡ true = λ e. ground arith in
    record {
      registered = known;
      row = row;
      found = held;
      current = λ v. current_of patch.expected_version row v current;
      linked = λ e.
          subst (λ (x : List PullRequestLink). any key x ≡ true) same
            (linked (needs_link-cases action e));
      supported = supported_action action added after work_id patch caller row h2;
      links =
          subst
            (λ (x : List PullRequestLink).
              IsLinked x after.links action work_id patch.repository patch.number)
            same (apply_action-IsLinked action added after work_id patch caller row linked h2);
    }

-- A change that succeeds passed its fence: the caller's mailbox is registered with exactly its
-- endpoint, principal, session and generation, for the principal; the pull request exists, after the
-- insert of an `add`, and its version is the expected one if one is expected; a removal or a transfer
-- had the link to the work; and the action is set, add or remove. After it the work is linked to the
-- pull request, or is not after a removal, and every other link is as before.
pub change-IsAdmitted :
    (t after : Tables) (work_id : String) (action : RelationAction) (patch : PullRequestChange)
    (caller : AgentMailbox) (principal_key op : String) (result : Option PullRequestRecord)
    → change t work_id action patch caller principal_key op ≡ ok (after, result)
    → IsAdmitted t
        (add_pull action t patch caller op)
        after
        work_id
        action
        patch
        caller
        principal_key
unfolding change
change-IsAdmitted t after work_id action patch caller principal_key op result h =
    let (known, h1) =
      require_passed (is_current_caller t caller principal_key) _ _ (after, result) h in
    let added = add_pull action t patch caller op in
    let (u, changed, h2) =
      bind_passed
        (change_row action added work_id patch caller
          (find_pull patch.repository patch.number added.pulls))
        _ h1 in
    let is : u ≡ after = cc h2 in
    row-IsAdmitted t added after work_id action patch caller principal_key _
      (current-IsRegistered t caller principal_key known) (added-links action t patch caller op)
      refl
      (subst
        (λ (x : Tables).
          change_row action added work_id patch caller
            (find_pull patch.repository patch.number added.pulls)
          ≡ ok x)
        is changed)
