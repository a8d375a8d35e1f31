-- ===== src/PullRequests/Links.antt =====
-- What `change` of src/switchstand/pull_requests.py leaves of the links of works and pull requests.
use switchstand.Grants.{add_relation, move, clear, set, remove, PullRequestChange, RelationAction}
use switchstand.PullRequests.{
  update_owner, find_payload, ChangeError, AgentMailbox, PullRequestLink, PullRequestRecord, Tables,
  delete_link, find_recipient, insert_link, is_link,
}
use switchstand.Base.{
  string_eq, ◌<>◌, ◌+◌, not, ◌&&◌, ◌==◌, Result, Bool, Bool-cases, List, Option, String, [], any,
  ap, arith, beq_refl, false, if_both, if_known, inl, inr, none, ok, refl, require_passed, some,
  str_iff, sym, true, ℕ, ◌++◌, ◌||◌, ◌∙◌, ◌∷◌, ◌≡◌, ◌≢◌,
}
use switchstand.PullRequests.Change.{
  text_of, accepts, apply_action, needs_link, transfer, transfer_to,
}

-- a link is of the key that it was tested for
is_link-eq :
    (work_id repository : String) (number : ℕ) (l : PullRequestLink)
    → is_link work_id repository number l ≡ true
    → (l.work_id ≡ work_id) × (l.repository ≡ repository) × (l.number ≡ number)
is_link-eq work_id repository number l h = (
  (str_iff l.work_id work_id).0 (ground (arith, h)),
  (str_iff l.repository repository).0 (ground (arith, h)),
  ground (arith, h),
)

any-delete_link :
    (work_id repository : String) (number : ℕ) (ls : List PullRequestLink)
    → any (is_link work_id repository number) (delete_link work_id repository number ls) ≡ false
unfolding any delete_link
any-delete_link work_id repository number [] = refl
any-delete_link work_id repository number (l ∷ ls) =
    elim (Bool-cases (is_link work_id repository number l)) [
      | inl e ↦ rw e (any-delete_link work_id repository number ls)
      | inr e ↦ rw (e, e) (any-delete_link work_id repository number ls)
    ]

any-append_one :
    (p : PullRequestLink → Bool) (ls : List PullRequestLink) (new : PullRequestLink)
    → any p (ls ++ new ∷ []) ≡ (any p ls || p new)
unfolding any
any-append_one p [] new = ground arith
any-append_one p (l ∷ ls) new = rw (any-append_one p ls new) (ground arith)

any-insert_link :
    (p : PullRequestLink → Bool) (ls : List PullRequestLink) (new : PullRequestLink)
    → p new ≡ false
    → any p (insert_link new ls) ≡ any p ls
unfolding insert_link
any-insert_link p ls new h =
    if_both (λ x. any p x ≡ any p ls) (any (is_link new.work_id new.repository new.number) ls) _ _
      refl (any-append_one p ls new ∙ rw h (ground arith))

inserted_link :
    (new : PullRequestLink) (ls : List PullRequestLink)
    → any (is_link new.work_id new.repository new.number) (insert_link new ls) ≡ true
unfolding insert_link
inserted_link new ls =
    let key = is_link new.work_id new.repository new.number in
    if_known (λ x. any key x ≡ true) (any key ls) _ _ (λ e. e)
      (λ e.
        any-append_one key ls new
        ∙ rw (e, beq_refl new.work_id, beq_refl new.repository) (ground arith))

module _ (work_id repository : String) (number : ℕ) (w r : String) (n : ℕ)
    (other : is_link w r n (record { work_id = work_id; repository = repository; number = number })
      ≡ false) where
  any-delete_link-other :
      (ls : List PullRequestLink)
      → any (is_link w r n) (delete_link work_id repository number ls) ≡ any (is_link w r n) ls
  unfolding any delete_link
  any-delete_link-other [] = refl
  any-delete_link-other (l ∷ ls) = elim (Bool-cases (is_link work_id repository number l)) [
    | inr e ↦ rw (e, any-delete_link-other ls) refl
    | inl e ↦
        let (is_work, is_repository, is_number) = is_link-eq work_id repository number l e in
        let untouched : is_link w r n l ≡ false = rw (is_work, is_repository, is_number) other in
        rw (e, untouched) (any-delete_link-other ls)
  ]

-- The link of the key after a change of the links, and every other link.
pub record IsLinked (before after : List PullRequestLink) (action : RelationAction)
    (work_id repository : String) (number : ℕ) : Type 0 where
  pub removed : action ≡ remove → any (is_link work_id repository number) after ≡ false
  pub present : action ≢ remove → any (is_link work_id repository number) after ≡ true
  pub others :
      (w r : String) (n : ℕ)
      → is_link w r n (record { work_id = work_id; repository = repository; number = number })
        ≡ false
      → any (is_link w r n) after ≡ any (is_link w r n) before

ok_inj : {a b : Tables} → ◌≡◌ {A = Result ChangeError Tables} (ok a) (ok b) → a ≡ b
ok_inj h = cc h

transfer-links :
    (t after : Tables) (patch : PullRequestChange) (caller : AgentMailbox) (row : PullRequestRecord)
    (v : Option ℕ) (m : Option AgentMailbox)
    → transfer t patch caller row v m ≡ ok after
    → after.links ≡ t.links
unfolding transfer transfer_to
transfer-links t after patch caller row none m h = cc
transfer-links t after patch caller row (some v) none h = cc
transfer-links t after patch caller row (some version) (some recipient) h =
    let (owners, h1) =
      require_passed
        (row.owner_key == caller.name_key && not (recipient.name_key == caller.name_key)) _ _ after
        h in
    let (accepted, h2) =
      require_passed
        (accepts patch version caller recipient (
          find_payload patch.acceptance_delivery_id recipient.endpoint_id caller.endpoint_id
            t.deliveries))
        _ _ after h1 in
    let moved : record t {
      pulls =
          update_owner patch.repository patch.number recipient.name_key (row.row_version + 1)
            ("delivery:" <> text_of patch.acceptance_delivery_id) t.pulls;
    }
        ≡ after =
      ok_inj h2 in
    ap (λ (x : Tables). x.links) (sym moved)

pub apply_action-IsLinked :
    (action : RelationAction) (t after : Tables) (work_id : String) (patch : PullRequestChange)
    (caller : AgentMailbox) (row : PullRequestRecord)
    → (needs_link action ≡ true
        → any (is_link work_id patch.repository patch.number) t.links ≡ true)
    → apply_action action t work_id patch caller row ≡ ok after
    → IsLinked t.links after.links action work_id patch.repository patch.number
unfolding apply_action
apply_action-IsLinked set t after work_id patch caller row linked h =
    let same =
      transfer-links t after patch caller row patch.expected_version
        (find_recipient patch.recipient_key t.mailboxes) h in
    record {
      removed = λ e. cc;
      present = λ e. rw same (linked refl);
      others = λ w r n e. rw same refl;
    }
apply_action-IsLinked clear t after work_id patch caller row linked h = cc
apply_action-IsLinked move t after work_id patch caller row linked h = cc
apply_action-IsLinked add_relation t after work_id patch caller row linked h =
    let new : PullRequestLink = record {
      work_id = work_id;
      repository = patch.repository;
      number = patch.number;
    } in
    let same : after.links ≡ insert_link new t.links =
      ap (λ (x : Tables). x.links) (sym (ok_inj h)) in
    record {
      removed = λ e. cc;
      present = λ e. rw same (inserted_link new t.links);
      others = λ w r n e. rw same (any-insert_link (is_link w r n) t.links new e);
    }
apply_action-IsLinked remove t after work_id patch caller row linked h =
    let same : after.links ≡ delete_link work_id patch.repository patch.number t.links =
      ap (λ (x : Tables). x.links) (sym (ok_inj h)) in
    record {
      removed = λ e. rw same (any-delete_link work_id patch.repository patch.number t.links);
      present = λ e. absurd (e refl);
      others = λ w r n e.
          rw same (any-delete_link-other work_id patch.repository patch.number w r n e t.links);
    }
