-- ===== src/PullRequests/Examples.antt =====
-- A pull request that its owner hands over.
use switchstand.Grants.{PullRequestChange, set}
use switchstand.PullRequests.Fence.{IsAdmitted, change-IsAdmitted}
use switchstand.PullRequests.Ownership.{Evolved, change-Evolved}
use switchstand.PullRequests.{
  Acceptance, AgentMailbox, PullRequestRecord, Tables, acceptance_required, find_mailbox,
  find_payload, find_pull, owner_acceptance, update_owner,
}
use switchstand.Base.{[], any, err, ok, refl, some, string_eq, ◌∷◌, ◌≡◌}
use switchstand.PullRequests.Change.{
  add_pull, apply_action, change, change_row, is_current_caller, transfer, transfer_to,
}

abbrev lead : AgentMailbox
lead = record {
  name_key = "lead";
  endpoint_id = "end-lead";
  principal_key = "principal";
  session_key = "s1";
  generation = 1;
}

abbrev builder : AgentMailbox
builder = record {
  name_key = "builder";
  endpoint_id = "end-builder";
  principal_key = "principal";
  session_key = "s2";
  generation = 4;
}

abbrev hand_over : PullRequestChange
hand_over = record {
  repository = "owner/repo";
  number = 7;
  expected_version = some 2;
  recipient_key = some "builder";
  acceptance_delivery_id = some "d1";
  package_ref = "p1";
}

abbrev owned_pull : PullRequestRecord
owned_pull = record {
  repository = "owner/repo";
  number = 7;
  owner_key = "lead";
  row_version = 2;
  acceptance_ref = "operation:o1";
}

abbrev taken_pull : PullRequestRecord
taken_pull = record {
  repository = "owner/repo";
  number = 7;
  owner_key = "builder";
  row_version = 3;
  acceptance_ref = "delivery:d1";
}

abbrev acceptance : Acceptance
acceptance = record {
  repository = "owner/repo";
  number = 7;
  previous_owner = "lead";
  expected_version = 2;
  package_ref = "p1";
  recipient_key = "builder";
  recipient_generation = 4;
  previous_owner_generation = 1;
}

abbrev tables : Tables
tables = record {
  mailboxes = lead ∷ builder ∷ [];
  pulls = owned_pull ∷ [];
  links = record { work_id = "w1"; repository = "owner/repo"; number = 7 } ∷ [];
  deliveries =
      record {
        delivery_id = "d1";
        sender_work_id = "end-builder";
        recipient_work_id = "end-lead";
        payload = owner_acceptance acceptance;
      }
      ∷ [];
}

abbrev tables_after : Tables
tables_after = record tables { pulls = taken_pull ∷ [] }

handed_over :
    change tables "w1" set hand_over lead "principal" "o2" ≡ ok (tables_after, some taken_pull)
unfolding change is_current_caller find_mailbox add_pull change_row find_pull any apply_action
    transfer transfer_to find_payload update_owner
handed_over = refl

-- without the delivery the transfer is refused
not_accepted :
    change (record tables { deliveries = [] }) "w1" set hand_over lead "principal" "o2"
    ≡ err acceptance_required
unfolding change is_current_caller find_mailbox add_pull change_row find_pull any apply_action
    transfer transfer_to find_payload
not_accepted = refl

owned_found : find_pull "owner/repo" 7 tables.pulls ≡ some owned_pull
unfolding find_pull
owned_found = refl

change-Evolved_example : Evolved tables set hand_over lead "owner/repo" 7 owned_pull tables_after
change-Evolved_example =
    change-Evolved tables tables_after "w1" set hand_over lead "principal" "o2" (some taken_pull)
      "owner/repo" 7 owned_pull owned_found handed_over

change-IsAdmitted_example :
    IsAdmitted tables
      (add_pull set tables hand_over lead "o2")
      tables_after
      "w1"
      set
      hand_over
      lead
      "principal"
change-IsAdmitted_example =
    change-IsAdmitted tables tables_after "w1" set hand_over lead "principal" "o2" (some taken_pull)
      handed_over
