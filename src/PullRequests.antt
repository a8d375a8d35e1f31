-- ===== src/PullRequests.antt =====
-- src/switchstand/pull_requests.py: the tables of `change` and its statements on them, the change of
-- a pull request's links and owner inside the relation transaction. A table is the list of its
-- rows; an exception rolls the transaction back. Of a message, the model has its delivery and its
-- payload.
pub mod Change
pub mod Rows
pub mod Ownership
pub mod Links
pub mod Fence
mod Examples
use switchstand.Base.{
  option_eq, Bool, List, Option, String, [], any, if◌then◌else◌, nat_beq, none, some, string_eq, ℕ,
  ◌&&◌, ◌++◌, ◌==◌, ◌∷◌,
}

-- a row of `agent_mailboxes`, and the caller that the server resolved
pub record AgentMailbox : Type 0 where
  pub name_key : String
  pub endpoint_id : String
  pub principal_key : String
  pub session_key : String
  pub generation : ℕ

-- a row of `pull_requests`
pub record PullRequestRecord : Type 0 where
  pub repository : String
  pub number : ℕ
  pub owner_key : String
  pub row_version : ℕ
  pub acceptance_ref : String

-- a row of `work_pull_requests`
pub record PullRequestLink : Type 0 where
  pub work_id : String
  pub repository : String
  pub number : ℕ

-- the JSON that accepts an ownership
pub record Acceptance : Type 0 where
  pub repository : String
  pub number : ℕ
  pub previous_owner : String
  pub expected_version : ℕ
  pub package_ref : String
  pub recipient_key : String
  pub recipient_generation : ℕ
  pub previous_owner_generation : ℕ

-- a message's payload: of the kind `pr_owner_acceptance` with just these keys, or any other
pub data Payload : Type 0 where
  owner_acceptance : Acceptance → Payload
  other_payload : String → Payload

-- a row of the join of `messages` and `message_deliveries`
pub record Delivery : Type 0 where
  pub delivery_id : String
  pub sender_work_id : String
  pub recipient_work_id : String
  pub payload : Payload

pub record Tables : Type 0 where
  pub mailboxes : List AgentMailbox
  pub pulls : List PullRequestRecord
  pub links : List PullRequestLink
  pub deliveries : List Delivery

pub data ChangeError : Type 0 where
  caller_changed pr_missing not_linked stale_version : ChangeError
  owner_required acceptance_required unsupported_action : ChangeError

unfoldable pub find_mailbox : String → List AgentMailbox → Option AgentMailbox
find_mailbox name [] = none
find_mailbox name (m ∷ ms) = if m.name_key == name then some m else find_mailbox name ms

-- `next(actor for actor in actors if actor["name_key"] == patch.recipient_key)`
abbrev pub find_recipient : Option String → List AgentMailbox → Option AgentMailbox
find_recipient none ms = none
find_recipient (some name) ms = find_mailbox name ms

-- `key`
abbrev pub is_key : String → ℕ → PullRequestRecord → Bool
is_key repository number p = p.repository == repository && nat_beq p.number number

unfoldable pub find_pull : String → ℕ → List PullRequestRecord → Option PullRequestRecord
find_pull repository number [] = none
find_pull repository number (p ∷ ps) =
    if is_key repository number p then some p else find_pull repository number ps

-- `link`
abbrev pub is_link : String → String → ℕ → PullRequestLink → Bool
is_link work_id repository number l =
    l.work_id == work_id && (l.repository == repository && nat_beq l.number number)

-- `insert(pull_requests)...on_conflict_do_nothing()`
unfoldable pub insert_pull : PullRequestRecord → List PullRequestRecord → List PullRequestRecord
insert_pull new ps = elim (find_pull new.repository new.number ps) [
  | none ↦ ps ++ new ∷ []
  | some p ↦ ps
]

-- the payload of the first delivery that the select finds
unfoldable pub find_payload : Option String → String → String → List Delivery → Option Payload
find_payload delivery sender recipient [] = none
find_payload delivery sender recipient (d ∷ ds) =
    if delivery == some d.delivery_id
      && (d.sender_work_id == sender && d.recipient_work_id == recipient)
    then some d.payload
    else find_payload delivery sender recipient ds

-- `update(pull_requests).where(key).values(...)`
unfoldable pub update_owner :
    String → ℕ → String → ℕ → String → List PullRequestRecord → List PullRequestRecord
update_owner repository number owner version acceptance [] = []
update_owner repository number owner version acceptance (p ∷ ps) =
    (if is_key repository number p
      then record p { owner_key = owner; row_version = version; acceptance_ref = acceptance }
      else p)
    ∷ update_owner repository number owner version acceptance ps

-- `insert(work_pull_requests)...on_conflict_do_nothing()`
unfoldable pub insert_link : PullRequestLink → List PullRequestLink → List PullRequestLink
insert_link new ls =
    if any (is_link new.work_id new.repository new.number) ls then ls else ls ++ new ∷ []

-- `delete(work_pull_requests).where(...)`
unfoldable pub delete_link : String → String → ℕ → List PullRequestLink → List PullRequestLink
delete_link work_id repository number [] = []
delete_link work_id repository number (l ∷ ls) =
    let rest = delete_link work_id repository number ls in
    if is_link work_id repository number l then rest else l ∷ rest
