-- ===== src/PullRequests/Ownership.antt =====
-- Who may take over a pull request.
use switchstand.Grants.{move, remove, add_relation, clear, set, PullRequestChange, RelationAction}
use switchstand.PullRequests.Rows.{find_pull-add_pull, update_owner-Updated}
use switchstand.PullRequests.{
  other_payload, owner_acceptance, Acceptance, Payload, AgentMailbox, PullRequestRecord, Tables,
  delete_link, find_payload, find_pull, find_recipient, insert_link, is_link, update_owner,
}
use switchstand.PullRequests.Change.{
  accepts, add_pull, apply_action, change, change_row, is_current_caller, needs_link, text_of,
  transfer, transfer_to, version_current,
}
use switchstand.Base.{
  Option, String, and_parts, any, ap, arith, bind_passed, false, forbid_passed, inl, inr, none, not,
  ok, refl, require_passed, some, some_inj, str_iff, string_eq, subst, sym, true, ℕ, ◌&&◌, ◌+◌,
  ◌<>◌, ◌==◌, ◌∙◌, ◌≡◌, ◌⊎◌,
}

-- The recipient's message to the caller that accepts exactly this transfer.
pub record IsAccepted (t : Tables) (patch : PullRequestChange) (version : ℕ)
    (caller recipient : AgentMailbox) : Type 0 where
  pub a : Acceptance
  pub delivered :
      find_payload patch.acceptance_delivery_id recipient.endpoint_id caller.endpoint_id
        t.deliveries
      ≡ some (owner_acceptance a)
  pub repository : a.repository ≡ patch.repository
  pub number : a.number ≡ patch.number
  pub from : a.previous_owner ≡ caller.name_key
  pub at_version : a.expected_version ≡ version
  pub package_ref : a.package_ref ≡ patch.package_ref
  pub to : a.recipient_key ≡ recipient.name_key
  pub to_generation : a.recipient_generation ≡ recipient.generation
  pub from_generation : a.previous_owner_generation ≡ caller.generation

accepts-IsAccepted :
    (t : Tables) (patch : PullRequestChange) (version : ℕ) (caller recipient : AgentMailbox)
    (payload : Option Payload)
    → find_payload patch.acceptance_delivery_id recipient.endpoint_id caller.endpoint_id
        t.deliveries
      ≡ payload
    → accepts patch version caller recipient payload ≡ true
    → IsAccepted t patch version caller recipient
accepts-IsAccepted t patch version caller recipient none e h = cc
accepts-IsAccepted t patch version caller recipient (some (other_payload text)) e h = cc
accepts-IsAccepted t patch version caller recipient (some (owner_acceptance a)) e h = record {
  a = a;
  delivered = e;
  repository = (str_iff a.repository patch.repository).0 (ground (arith, h));
  number = ground (arith, h);
  from = (str_iff a.previous_owner caller.name_key).0 (ground (arith, h));
  at_version = ground (arith, h);
  package_ref = (str_iff a.package_ref patch.package_ref).0 (ground (arith, h));
  to = (str_iff a.recipient_key recipient.name_key).0 (ground (arith, h));
  to_generation = ground (arith, h);
  from_generation = ground (arith, h);
}

-- What a change of the owner needs: the caller is the owner, the row's version is the expected one, the
-- recipient is registered and is another, and it sent the caller an acceptance of exactly this
-- transfer. The version then grows by one.
pub record IsTransferred (t : Tables) (patch : PullRequestChange) (caller : AgentMailbox)
    (p q : PullRequestRecord) : Type 0 where
  pub was_owner : p.owner_key ≡ caller.name_key
  pub version : ℕ
  pub expected : patch.expected_version ≡ some version
  pub current : p.row_version ≡ version
  pub recipient : AgentMailbox
  pub registered : find_recipient patch.recipient_key t.mailboxes ≡ some recipient
  pub another : (recipient.name_key == caller.name_key) ≡ false
  pub accepted : IsAccepted t patch version caller recipient
  pub new_owner : q.owner_key ≡ recipient.name_key
  pub next_version : q.row_version ≡ p.row_version + 1

-- A row after a change: as it was, or handed over.
abbrev pub Evolved :
    Tables
    → RelationAction
    → PullRequestChange
    → AgentMailbox
    → String
    → ℕ
    → PullRequestRecord
    → Tables
    → Type 0
Evolved t action patch caller r n p after =
    (q : PullRequestRecord) × (find_pull r n after.pulls ≡ some q)
    × ((q ≡ p) ⊎ ((action ≡ set) × IsTransferred t patch caller p q))

transfer_to-Evolved :
    (t after : Tables) (patch : PullRequestChange) (caller recipient : AgentMailbox)
    (row : PullRequestRecord) (version : ℕ) (r : String) (n : ℕ) (p : PullRequestRecord)
    → find_pull r n t.pulls ≡ some p
    → find_pull patch.repository patch.number t.pulls ≡ some row
    → patch.expected_version ≡ some version
    → row.row_version ≡ version
    → find_recipient patch.recipient_key t.mailboxes ≡ some recipient
    → transfer_to t patch caller row version recipient ≡ ok after
    → Evolved t set patch caller r n p after
unfolding transfer_to
transfer_to-Evolved t after patch caller recipient row version r n p found held expected current
      known h =
    let (owners, h1) =
      require_passed
        (row.owner_key == caller.name_key && not (recipient.name_key == caller.name_key)) _ _ after
        h in
    let (accepted, h2) =
      require_passed
        (accepts patch version caller recipient (
          find_payload patch.acceptance_delivery_id recipient.endpoint_id caller.endpoint_id
            t.deliveries))
        _ _ after h1 in
    let (owns, other) = and_parts (row.owner_key == caller.name_key) _ owners in
    let moved : record t {
      pulls =
          update_owner patch.repository patch.number recipient.name_key (row.row_version + 1)
            ("delivery:" <> text_of patch.acceptance_delivery_id) t.pulls;
    }
        ≡ after =
      cc h2 in
    let (q, found_q, how) =
      update_owner-Updated r patch.repository n patch.number recipient.name_key
        ("delivery:" <> text_of patch.acceptance_delivery_id) (row.row_version + 1) t.pulls p
        found in
    let found_after = subst (λ (x : Tables). find_pull r n x.pulls ≡ some q) moved found_q in
    elim how [
      | inl same ↦ (q, found_after, inl same)
      | inr (repository, number, updated) ↦
          let is_row : row ≡ p = some_inj (
            sym held
            ∙ subst (λ (x : String). find_pull x patch.number t.pulls ≡ some p) repository
                (subst (λ (x : ℕ). find_pull r x t.pulls ≡ some p) number found)) in
          (
            q,
            found_after,
            inr (
              refl,
              record {
                was_owner =
                    ap (λ (x : PullRequestRecord). x.owner_key) (sym is_row)
                    ∙ (str_iff row.owner_key caller.name_key).0 owns;
                version = version;
                expected = expected;
                current = ap (λ (x : PullRequestRecord). x.row_version) (sym is_row) ∙ current;
                recipient = recipient;
                registered = known;
                another = ground arith;
                accepted = accepts-IsAccepted t patch version caller recipient _ refl accepted;
                new_owner = ap (λ (x : PullRequestRecord). x.owner_key) updated;
                next_version =
                    ap (λ (x : PullRequestRecord). x.row_version) updated
                    ∙ ap (λ (x : PullRequestRecord). x.row_version + 1) is_row;
              },
            ),
          )
    ]

transfer-Evolved :
    (t after : Tables) (patch : PullRequestChange) (caller : AgentMailbox) (row : PullRequestRecord)
    (v : Option ℕ) (m : Option AgentMailbox) (r : String) (n : ℕ) (p : PullRequestRecord)
    → find_pull r n t.pulls ≡ some p
    → find_pull patch.repository patch.number t.pulls ≡ some row
    → patch.expected_version ≡ v
    → version_current v row ≡ true
    → find_recipient patch.recipient_key t.mailboxes ≡ m
    → transfer t patch caller row v m ≡ ok after
    → Evolved t set patch caller r n p after
unfolding transfer
transfer-Evolved t after patch caller row none m r n p found held expected current known h = cc
transfer-Evolved t after patch caller row (some v) none r n p found held expected current known h =
    cc
transfer-Evolved t after patch caller row (some v) (some m) r n p found held expected current known
      h =
    transfer_to-Evolved t after patch caller m row v r n p found held expected
      (ground (arith, current)) known h

apply-Evolved :
    (action : RelationAction) (t after : Tables) (work_id : String) (patch : PullRequestChange)
    (caller : AgentMailbox) (row : PullRequestRecord) (r : String) (n : ℕ) (p : PullRequestRecord)
    → find_pull r n t.pulls ≡ some p
    → find_pull patch.repository patch.number t.pulls ≡ some row
    → version_current patch.expected_version row ≡ true
    → apply_action action t work_id patch caller row ≡ ok after
    → Evolved t action patch caller r n p after
unfolding apply_action
apply-Evolved set t after work_id patch caller row r n p found held current h =
    transfer-Evolved t after patch caller row patch.expected_version _ r n p found held refl current
      refl h
apply-Evolved clear t after work_id patch caller row r n p found held current h = cc
apply-Evolved add_relation t after work_id patch caller row r n p found held current h =
    let same : record t {
      links =
          insert_link
            (record { work_id = work_id; repository = patch.repository; number = patch.number })
            t.links;
    }
        ≡ after =
      cc h in
    (p, subst (λ (x : Tables). find_pull r n x.pulls ≡ some p) same found, inl refl)
apply-Evolved remove t after work_id patch caller row r n p found held current h =
    let same : record t { links = delete_link work_id patch.repository patch.number t.links }
        ≡ after =
      cc h in
    (p, subst (λ (x : Tables). find_pull r n x.pulls ≡ some p) same found, inl refl)
apply-Evolved move t after work_id patch caller row r n p found held current h = cc

row-Evolved :
    (action : RelationAction) (t after : Tables) (work_id : String) (patch : PullRequestChange)
    (caller : AgentMailbox) (row : Option PullRequestRecord) (r : String) (n : ℕ)
    (p : PullRequestRecord)
    → find_pull r n t.pulls ≡ some p
    → find_pull patch.repository patch.number t.pulls ≡ row
    → change_row action t work_id patch caller row ≡ ok after
    → Evolved t action patch caller r n p after
unfolding change_row
row-Evolved action t after work_id patch caller none r n p found held h = cc
row-Evolved action t after work_id patch caller (some row) r n p found held h =
    let (linked, h1) =
      forbid_passed
        (needs_link action && not (any (is_link work_id patch.repository patch.number) t.links)) _ _
        after h in
    let (current, h2) = require_passed (version_current patch.expected_version row) _ _ after h1 in
    apply-Evolved action t after work_id patch caller row r n p found held current h2

IsTransferred-added :
    (action : RelationAction) (t : Tables) (patch : PullRequestChange) (caller : AgentMailbox)
    (op : String) (p q : PullRequestRecord)
    → IsTransferred (add_pull action t patch caller op) patch caller p q
    → IsTransferred t patch caller p q
unfolding add_pull
IsTransferred-added set t patch caller op p q x = x
IsTransferred-added clear t patch caller op p q x = x
IsTransferred-added add_relation t patch caller op p q x = record {
  was_owner = x.was_owner;
  version = x.version;
  expected = x.expected;
  current = x.current;
  recipient = x.recipient;
  registered = x.registered;
  another = x.another;
  accepted = record {
    a = x.accepted.a;
    delivered = x.accepted.delivered;
    repository = x.accepted.repository;
    number = x.accepted.number;
    from = x.accepted.from;
    at_version = x.accepted.at_version;
    package_ref = x.accepted.package_ref;
    to = x.accepted.to;
    to_generation = x.accepted.to_generation;
    from_generation = x.accepted.from_generation;
  };
  new_owner = x.new_owner;
  next_version = x.next_version;
}
IsTransferred-added remove t patch caller op p q x = x
IsTransferred-added move t patch caller op p q x = x

-- No change loses a pull request, and none changes its owner, version or acceptance but a
-- transfer by the owner at the expected version to another registered agent, which accepted
-- exactly that transfer; the version then grows by one.
pub change-Evolved :
    (t after : Tables) (work_id : String) (action : RelationAction) (patch : PullRequestChange)
    (caller : AgentMailbox) (principal_key op : String) (result : Option PullRequestRecord)
    (r : String) (n : ℕ) (p : PullRequestRecord)
    → find_pull r n t.pulls ≡ some p
    → change t work_id action patch caller principal_key op ≡ ok (after, result)
    → Evolved t action patch caller r n p after
unfolding change
change-Evolved t after work_id action patch caller principal_key op result r n p found h =
    let (known, h1) =
      require_passed (is_current_caller t caller principal_key) _ _ (after, result) h in
    let added = add_pull action t patch caller op in
    let (u, changed, h2) =
      bind_passed
        (change_row action added work_id patch caller
          (find_pull patch.repository patch.number added.pulls))
        _ h1 in
    let same : u ≡ after = cc h2 in
    let (q, found_q, how) =
      row-Evolved action added u work_id patch caller _ r n p
        (find_pull-add_pull r n action t patch caller op p found) refl changed in
    (
      q,
      subst (λ (x : Tables). find_pull r n x.pulls ≡ some q) same found_q,
      elim how [
        | inl kept ↦ inl kept
        | inr (is_set, moved) ↦ inr (is_set, IsTransferred-added action t patch caller op p q moved)
      ],
    )
