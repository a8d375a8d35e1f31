-- ===== src/Core/Writes/Fence.antt =====
-- The revision fence of `update`.
use switchstand.Core.Writes.Effects.{read_with_provider, read_without_provider}
use switchstand.Core.Writes.Update.{
  WorkUpdateRequest, update_entered, update_locked, update_read, update_work_item,
}
use switchstand.Core.Writes.Claims.{
  IsUnsent, locked_calls, provider_calls, read_calls, sent_calls, shown_calls, updates,
}
use switchstand.Base.{
  Result-cases, String, string_eq, Bool-cases, List, Option, Result, err, if_known, inl, inr, none,
  ok, refl, some, str_iff, subst, sym, true, ◌==◌, ◌∷◌, ◌≡◌, ◌⊎◌,
}
use switchstand.Core.Writes.{apply_read, after_update, apply_scalar, Body, leave_lock}
use switchstand.Core.Writes.Once.{applied_log}
use switchstand.Core.{
  Call, Handle, LaunchAuthority, Outcome, ProviderWork, Raised, WorkResult, World, make_item,
  read_answer, state_lock,
}

-- The provider of the locked work answered the read of this call with canonical work of the revision
-- that the caller observed, and the calls are that read and the update of that work, and then at most
-- the readback.
pub record IsFenced (w : World) (r : WorkUpdateRequest) (log calls : List Call) : Type 0 where
  pub handle : Handle
  pub held : w.lock log r.work_id ≡ ok (some handle)
  pub work : ProviderWork
  pub read :
      w.get_work (locked_calls r log handle) handle.provider handle.provider_work_id
      ≡ ok (some work)
  pub canonical : work.canonical ≡ true
  pub observed : work.revision ≡ r.observed_revision
  pub made :
      (calls ≡ provider_calls (sent_calls r log handle))
      ⊎ (calls ≡ provider_calls (shown_calls r log handle))

-- No update was sent since `log`, or the fence held.
abbrev pub Fenced : World → WorkUpdateRequest → List Call → List Call → Type 0
Fenced w r log calls = IsUnsent log calls ⊎ IsFenced w r log calls

-- what `apply_scalar` leaves of the calls
applied_calls :
    (w : World) (r : WorkUpdateRequest) (log : List Call) (h : Handle)
    (u : Result Raised (Unit {0}))
    → (let calls =
          provider_calls
            (after_update w (sent_calls r log h) h.provider h.provider_work_id r.patch u).0 in
        (calls ≡ provider_calls (sent_calls r log h))
        ⊎ (calls ≡ provider_calls (shown_calls r log h)))
unfolding after_update apply_read
applied_calls w r log h (err e) = inl refl
applied_calls w r log h (ok done) = inr refl

read-Fenced :
    (w : World) (r : WorkUpdateRequest) (log : List Call) (h : Handle)
    (o : Result Raised (Option ProviderWork))
    → w.lock log r.work_id ≡ ok (some h)
    → w.get_work (locked_calls r log h) h.provider h.provider_work_id ≡ o
    → Fenced w r log
        (provider_calls (update_read w r h (read_calls r log h, read_answer r.work_id h o)).log)
unfolding update_read read_answer make_item provider_calls updates apply_scalar
read-Fenced w r log h (err e) held read = inl refl
read-Fenced w r log h (ok none) held read = inl refl
read-Fenced w r log h (ok (some work)) held read = elim (Bool-cases work.canonical) [
  | inr c ↦ rw (c, read_answer, update_read) (inl refl)
  | inl c ↦ elim (Bool-cases (work.revision == r.observed_revision)) [
    | inr d ↦ rw (c, read_answer, update_read, d) (inl refl)
    | inl d ↦
        let u = w.update_work (read_calls r log h) h.provider h.provider_work_id r.patch in
        let made =
          subst
            (λ l.
              (provider_calls l ≡ provider_calls (sent_calls r log h))
              ⊎ (provider_calls l ≡ provider_calls (shown_calls r log h)))
            (sym (
              applied_log r.work_id h
                (after_update w (sent_calls r log h) h.provider h.provider_work_id r.patch u)))
            (applied_calls w r log h u) in
        rw (c, read_answer, update_read, d)
          (inr (record {
            handle = h;
            held = held;
            work = work;
            read = read;
            canonical = c;
            observed = (str_iff work.revision r.observed_revision).0 d;
            made = made;
          }))
  ]
]

locked-Fenced :
    (w : World) (r : WorkUpdateRequest) (log : List Call) (h : Option Handle)
    → w.lock log r.work_id ≡ ok h
    → Fenced w r log (provider_calls (update_locked w (state_lock r.work_id ∷ log) r h).log)
unfolding update_locked updates update_read provider_calls
locked-Fenced w r log none held = inl refl
locked-Fenced w r log (some h) held = elim (Bool-cases (w.has_provider h.provider)) [
  | inl p ↦
      subst (λ o. Fenced w r log (provider_calls (update_read w r h o).log))
        (sym (read_with_provider w (state_lock r.work_id ∷ log) r.work_id h p))
        (read-Fenced w r log h
          (w.get_work (state_lock r.work_id ∷ log) h.provider h.provider_work_id) held refl)
  | inr p ↦
      subst (λ o. Fenced w r log (provider_calls (update_read w r h o).log))
        (sym (read_without_provider w (state_lock r.work_id ∷ log) r.work_id h p)) (inl refl)
]

leave-provider_calls :
    (w : World) (id : String) (b : Body WorkResult)
    → provider_calls (leave_lock w id b).log ≡ provider_calls b.log
unfolding leave_lock provider_calls
leave-provider_calls w id b = elim (Result-cases (w.unlock b.log id)) [
  | inl (done, e) ↦ rw (e, leave_lock) refl
  | inr (x, e) ↦ rw (e, leave_lock) refl
]

-- An update is sent only to the provider's work that the lock of the requested item gave, and only
-- after this call read it there as canonical work of exactly the revision that the caller observed;
-- the calls to providers are then that read, the one update with the requested patch, and at most the
-- readback of the same work.
pub update-Fenced :
    (w : World) (a : LaunchAuthority) (log : List Call) (r : WorkUpdateRequest)
    → Fenced w r log (provider_calls (update_work_item w a log r).0)
unfolding update_work_item update_entered updates provider_calls
update-Fenced w a log r =
    if_known {A = Outcome WorkResult} (λ o. Fenced w r log (provider_calls (o.0)))
      (r.work_id == a.active_work_id) _ _ (λ e. entered (w.lock log r.work_id) refl) (λ e. inl refl)
  where
    entered :
        (l : Result Raised (Option Handle))
        → w.lock log r.work_id ≡ l
        → Fenced w r log (provider_calls (update_entered w (state_lock r.work_id ∷ log) r l).0)
    entered (err e) held = inl refl
    entered (ok h) held =
        subst (Fenced w r log)
          (sym
            (leave-provider_calls w r.work_id (update_locked w (state_lock r.work_id ∷ log) r h)))
          (locked-Fenced w r log h held)
