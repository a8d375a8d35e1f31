-- ===== src/PullRequests/Change.antt =====
-- `change`.
use switchstand.Grants.{add_relation, remove, set, PullRequestChange, RelationAction}
use switchstand.PullRequests.{
  AgentMailbox, ChangeError, Payload, PullRequestRecord, Tables, acceptance_required,
  caller_changed, delete_link, find_mailbox, find_payload, find_pull, find_recipient, insert_link,
  insert_pull, is_link, not_linked, other_payload, owner_acceptance, owner_required, pr_missing,
  stale_version, unsupported_action, update_owner,
}
use switchstand.Base.{
  Bool, Option, Result, String, any, err, false, forbid, nat_beq, none, not, ok, require, some,
  string_eq, true, ℕ, ◌&&◌, ◌+◌, ◌<>◌, ◌==◌, ◌>>=◌, ◌>>◌,
}

abbrev pub is_binding_of : AgentMailbox → AgentMailbox → Bool
is_binding_of caller m =
    m.endpoint_id == caller.endpoint_id
    && (m.principal_key == caller.principal_key
        && (m.session_key == caller.session_key && nat_beq m.generation caller.generation))

-- the caller is registered as it was resolved, for the principal
unfoldable pub is_current_caller : Tables → AgentMailbox → String → Bool
is_current_caller t caller principal_key = elim (find_mailbox caller.name_key t.mailboxes) [
  | none ↦ false
  | some m ↦ is_binding_of caller m && caller.principal_key == principal_key
]

-- the first insert of an `add`
unfoldable pub add_pull :
    RelationAction → Tables → PullRequestChange → AgentMailbox → String → Tables
add_pull add_relation t patch caller operation_id = record t {
  pulls =
      insert_pull
        (record {
          repository = patch.repository;
          number = patch.number;
          owner_key = caller.name_key;
          row_version = 1;
          acceptance_ref = "operation:" <> operation_id;
        })
        t.pulls;
}
add_pull action t patch caller operation_id = t

-- `action in {"remove", "set"}`
abbrev pub needs_link : RelationAction → Bool
needs_link remove = true
needs_link set = true
needs_link _ = false

-- a version that is expected is the row's
abbrev pub version_current : Option ℕ → PullRequestRecord → Bool
version_current none row = true
version_current (some v) row = nat_beq row.row_version v

-- the payload is the acceptance that the transfer needs
abbrev pub accepts : PullRequestChange → ℕ → AgentMailbox → AgentMailbox → Option Payload → Bool
accepts patch version caller recipient none = false
accepts patch version caller recipient (some (other_payload text)) = false
accepts patch version caller recipient (some (owner_acceptance a)) =
    a.repository == patch.repository
    && (nat_beq a.number patch.number
        && (a.previous_owner == caller.name_key
            && (nat_beq a.expected_version version
                && (a.package_ref == patch.package_ref
                    && (a.recipient_key == recipient.name_key
                        && (nat_beq a.recipient_generation recipient.generation
                            && nat_beq a.previous_owner_generation caller.generation))))))

-- `str(...)` of the delivery id in the reference
abbrev pub text_of : Option String → String
text_of none = "None"
text_of (some v) = v

-- the branch on `set` for a recipient and a version
unfoldable pub transfer_to :
    Tables
    → PullRequestChange
    → AgentMailbox
    → PullRequestRecord
    → ℕ
    → AgentMailbox
    → Result ChangeError Tables
transfer_to t patch caller row version recipient = do
  require (row.owner_key == caller.name_key && not (recipient.name_key == caller.name_key))
      owner_required
  require
      (accepts patch version caller recipient (
        find_payload patch.acceptance_delivery_id recipient.endpoint_id caller.endpoint_id
          t.deliveries))
      acceptance_required
  ok (record t {
    pulls =
        update_owner patch.repository patch.number recipient.name_key (row.row_version + 1)
          ("delivery:" <> text_of patch.acceptance_delivery_id) t.pulls;
  })

unfoldable pub transfer :
    Tables
    → PullRequestChange
    → AgentMailbox
    → PullRequestRecord
    → Option ℕ
    → Option AgentMailbox
    → Result ChangeError Tables
transfer t patch caller row (some version) (some recipient) =
    transfer_to t patch caller row version recipient
transfer t patch caller row _ _ = err owner_required

-- the branches on the action
unfoldable pub apply_action :
    RelationAction
    → Tables
    → String
    → PullRequestChange
    → AgentMailbox
    → PullRequestRecord
    → Result ChangeError Tables
apply_action set t work_id patch caller row =
    transfer t patch caller row patch.expected_version
      (find_recipient patch.recipient_key t.mailboxes)
apply_action add_relation t work_id patch caller row = ok (record t {
  links =
      insert_link
        (record { work_id = work_id; repository = patch.repository; number = patch.number })
        t.links;
})
apply_action remove t work_id patch caller row =
    ok (record t { links = delete_link work_id patch.repository patch.number t.links })
apply_action _ t work_id patch caller row = err unsupported_action

-- `change` after the first insert, over the row that is found
unfoldable pub change_row :
    RelationAction
    → Tables
    → String
    → PullRequestChange
    → AgentMailbox
    → Option PullRequestRecord
    → Result ChangeError Tables
change_row action t work_id patch caller none = err pr_missing
change_row action t work_id patch caller (some row) = do
  forbid (needs_link action && not (any (is_link work_id patch.repository patch.number) t.links))
      not_linked
  require (version_current patch.expected_version row) stale_version
  apply_action action t work_id patch caller row

-- `change`; its result is the row that the tables then have
unfoldable pub change :
    Tables
    → String
    → RelationAction
    → PullRequestChange
    → AgentMailbox
    → String
    → String
    → Result ChangeError (Tables × Option PullRequestRecord)
change t work_id action patch caller principal_key operation_id = do
  require (is_current_caller t caller principal_key) caller_changed
  let added = add_pull action t patch caller operation_id
  after ←
      change_row action added work_id patch caller
        (find_pull patch.repository patch.number added.pulls)
  ok (after, find_pull patch.repository patch.number after.pulls)
