-- ===== src/PullRequests/Rows.antt =====
-- How the rows of pull requests are found after an insert and after an update.
use switchstand.Grants.{move, remove, add_relation, clear, set, PullRequestChange, RelationAction}
use switchstand.PullRequests.Change.{add_pull}
use switchstand.PullRequests.{
  AgentMailbox, PullRequestRecord, Tables, find_pull, insert_pull, is_key, update_owner,
}
use switchstand.Base.{
  string_eq, Bool-cases, List, Option-cases, String, [], and_parts, ap, arith, inl, inr, some,
  some_inj, str_iff, sym, true, ℕ, ◌++◌, ◌==◌, ◌∙◌, ◌∷◌, ◌≡◌, ◌⊎◌,
}

find_pull-append :
    (r : String) (n : ℕ) (ps : List PullRequestRecord) (new p : PullRequestRecord)
    → find_pull r n ps ≡ some p
    → find_pull r n (ps ++ new ∷ []) ≡ some p
unfolding find_pull
find_pull-append r n [] new p h = cc
find_pull-append r n (q ∷ ps) new p h = ground (arith, find_pull-append r n ps new p)

find_pull-insert_pull :
    (r : String) (n : ℕ) (ps : List PullRequestRecord) (new p : PullRequestRecord)
    → find_pull r n ps ≡ some p
    → find_pull r n (insert_pull new ps) ≡ some p
unfolding insert_pull
find_pull-insert_pull r n ps new p h =
    elim (Option-cases (find_pull new.repository new.number ps)) [
      | inl e ↦ rw (e, insert_pull) (find_pull-append r n ps new p h)
      | inr (q, e) ↦ rw (e, insert_pull) h
    ]

pub find_pull-add_pull :
    (r : String) (n : ℕ) (action : RelationAction) (t : Tables) (patch : PullRequestChange)
    (caller : AgentMailbox) (op : String) (p : PullRequestRecord)
    → find_pull r n t.pulls ≡ some p
    → find_pull r n (add_pull action t patch caller op).pulls ≡ some p
unfolding add_pull
find_pull-add_pull r n set t patch caller op p h = h
find_pull-add_pull r n clear t patch caller op p h = h
find_pull-add_pull r n add_relation t patch caller op p h = find_pull-insert_pull r n t.pulls _ p h
find_pull-add_pull r n remove t patch caller op p h = h
find_pull-add_pull r n move t patch caller op p h = h

-- the row of the key with another owner
abbrev pub owned_by : PullRequestRecord → String → ℕ → String → PullRequestRecord
owned_by p owner version acceptance = record p {
  owner_key = owner;
  row_version = version;
  acceptance_ref = acceptance;
}

-- A row after an update of the owner of a key: as it was, or the row of that key, updated.
abbrev pub Updated :
    String
    → ℕ
    → String
    → ℕ
    → String
    → ℕ
    → String
    → List PullRequestRecord
    → PullRequestRecord
    → Type 0
Updated r n key_repository key_number owner version acceptance after p =
    (q : PullRequestRecord) × (find_pull r n after ≡ some q)
    × ((q ≡ p)
        ⊎ ((r ≡ key_repository) × (n ≡ key_number) × (q ≡ owned_by p owner version acceptance)))

same_key :
    (r s : String) (n m : ℕ) (p : PullRequestRecord)
    → is_key r n p ≡ true
    → is_key s m p ≡ true
    → (r ≡ s) × (n ≡ m)
same_key r s n m p h k =
    let (h1, h2) = and_parts (p.repository == r) _ h in
    let (k1, k2) = and_parts (p.repository == s) _ k in
    (sym ((str_iff p.repository r).0 h1) ∙ (str_iff p.repository s).0 k1, ground arith)

pub update_owner-Updated :
    (r s : String) (n m : ℕ) (owner acceptance : String) (version : ℕ) (ps : List PullRequestRecord)
    (p : PullRequestRecord)
    → find_pull r n ps ≡ some p
    → Updated r n s m owner version acceptance (update_owner s m owner version acceptance ps) p
unfolding find_pull update_owner
update_owner-Updated r s n m owner acceptance version [] p h = cc
update_owner-Updated r s n m owner acceptance version (q ∷ ps) p h =
    elim (Bool-cases (is_key r n q)) [
      | inl e ↦
          let same : q ≡ p = some_inj (rw e at h) in
          elim (Bool-cases (is_key s m q)) [
            | inl k ↦
                let (repository, number) = same_key r s n m q e k in
                (
                  owned_by q owner version acceptance,
                  rw (k, e),
                  inr (repository, number, ap (λ x. owned_by x owner version acceptance) same),
                )
            | inr k ↦ (q, rw (k, e), inl same)
          ]
      | inr e ↦
          let (q', found, how) =
            update_owner-Updated r s n m owner acceptance version ps p (rw e at h) in
          elim (Bool-cases (is_key s m q)) [
            | inl k ↦ (q', rw (k, e) found, how)
            | inr k ↦ (q', rw (k, e) found, how)
          ]
    ]
