-- ===== src/Core/Writes/Effects.antt =====
-- The answers of `update` stand by their claims.
use switchstand.Core.Writes.{
  Body, after_update, apply_read, apply_scalar, converged, leave_lock, patch_matches, readback,
}
use switchstand.Core.Writes.Update.{
  WorkUpdateRequest, update_applied, update_entered, update_locked, update_read, update_result,
  update_work_item,
}
use switchstand.Core.{
  Call, Handle, LaunchAuthority, Outcome, ProviderWork, Raised, Status, WorkItem, WorkResult, World,
  bare, denied, make_item, needs_item, ok_status, other_failure, provider_error, provider_failure,
  provider_get, read_answer, read_work, stale, state_lock, unknown, unknown_effect,
  work_result_valid,
}
use switchstand.Base.{
  str_iff, arith, string_eq, Bool, Bool-cases, List, Option, Result, Result-cases, String,
  and_parts, bool_beq, err, false, inl, inr, is_some, none, ok, refl, some, subst, sym, true, ◌&&◌,
  ◌==◌, ◌∷◌, ◌≡◌,
}
use switchstand.Core.Writes.Claims.{
  BodyClaim, Claim, ResultClaim, locked_calls, provider_calls, read_calls, sent_calls, shown_calls,
  updates,
}

module _ (w : World) (r : WorkUpdateRequest) (log : List Call) (h : Handle)
    (held : w.lock log r.work_id ≡ ok (some h)) where
  -- after an update that the provider took
  readback-Claim :
      (g : Result Raised (Option ProviderWork))
      → w.update_work (read_calls r log h) h.provider h.provider_work_id r.patch ≡ ok tt
      → w.get_work (sent_calls r log h) h.provider h.provider_work_id ≡ g
      → BodyClaim w r log
          (update_applied r.work_id h (shown_calls r log h, readback true r.patch g))
  unfolding update_applied readback converged
  readback-Claim (err unknown_effect) t e = refl
  readback-Claim (err provider_failure) t e = refl
  readback-Claim (err other_failure) t e = tt
  readback-Claim (ok none) t e = refl
  readback-Claim (ok (some work)) t e =
      elim (Bool-cases (work.canonical && patch_matches r.patch work)) [
        | inl c ↦
            let (canonical, shows) = and_parts work.canonical _ c in
            rw (c, update_applied, converged)
              (record {
                handle = h;
                held = held;
                taken = t;
                work = work;
                read = e;
                canonical = canonical;
                shows = shows;
                same_item = refl;
                made = refl;
              })
        | inr c ↦ rw (c, update_applied, converged) refl
      ]

  sent-Claim :
      (u : Result Raised (Unit {0}))
      → w.update_work (read_calls r log h) h.provider h.provider_work_id r.patch ≡ u
      → BodyClaim w r log (
          update_applied r.work_id h
            (after_update w (sent_calls r log h) h.provider h.provider_work_id r.patch u))
  unfolding update_applied after_update apply_read
  sent-Claim (err unknown_effect) e = refl
  sent-Claim (err provider_failure) e = inr (inr (record { handle = h; held = held; rejected = e }))
  sent-Claim (err other_failure) e = tt
  sent-Claim (ok done) e =
      readback-Claim (w.get_work (sent_calls r log h) h.provider h.provider_work_id) e refl

  read-Claim :
      (o : Result Raised (Option ProviderWork))
      → w.get_work (locked_calls r log h) h.provider h.provider_work_id ≡ o
      → BodyClaim w r log (update_read w r h (read_calls r log h, read_answer r.work_id h o))
  unfolding update_read read_answer apply_scalar make_item provider_calls updates
  read-Claim (err unknown_effect) e = tt
  read-Claim (err provider_failure) e = inr (inl refl)
  read-Claim (err other_failure) e = tt
  read-Claim (ok none) e = refl
  read-Claim (ok (some work)) e = elim (Bool-cases work.canonical) [
    | inr c ↦ rw (c, read_answer, update_read) (refl, refl)
    | inl c ↦ elim (Bool-cases (work.revision == r.observed_revision)) [
      | inl same ↦
          rw (c, read_answer, update_read, same)
            (sent-Claim (w.update_work (read_calls r log h) h.provider h.provider_work_id r.patch)
              refl)
      | inr other ↦
          rw (c, read_answer, update_read, other)
            (
              record {
                handle = h;
                held = held;
                work = work;
                read = e;
                canonical = c;
                same_item = refl;
                other = λ is.
                    absurd
                      (ground (arith, other, (str_iff work.revision r.observed_revision).1 is));
              },
              refl,
            )
    ]
  ]

pub read_without_provider :
    (w : World) (log : List Call) (id : String) (h : Handle)
    → w.has_provider h.provider ≡ false
    → read_work w log id h ≡ (log, ok (bare provider_error))
unfolding read_work
read_without_provider w log id h e = rw (e, read_work)

pub read_with_provider :
    (w : World) (log : List Call) (id : String) (h : Handle)
    → w.has_provider h.provider ≡ true
    → read_work w log id h ≡ (
      provider_get h.provider h.provider_work_id ∷ log,
      read_answer id h (w.get_work log h.provider h.provider_work_id),
    )
unfolding read_work
read_with_provider w log id h e = rw (e, read_work)

locked-Claim :
    (w : World) (r : WorkUpdateRequest) (log : List Call) (h : Option Handle)
    → w.lock log r.work_id ≡ ok h
    → BodyClaim w r log (update_locked w (state_lock r.work_id ∷ log) r h)
unfolding update_locked read_work update_read updates provider_calls
locked-Claim w r log none held = refl
locked-Claim w r log (some h) held = elim (Bool-cases (w.has_provider h.provider)) [
  | inl p ↦
      subst (λ o. BodyClaim w r log (update_read w r h o))
        (sym (read_with_provider w (state_lock r.work_id ∷ log) r.work_id h p))
        (read-Claim w r log h held
          (w.get_work (state_lock r.work_id ∷ log) h.provider h.provider_work_id) refl)
  | inr p ↦
      subst (λ o. BodyClaim w r log (update_read w r h o))
        (sym (read_without_provider w (state_lock r.work_id ∷ log) r.work_id h p)) (refl, inl refl)
]

leave-Claim :
    (w : World) (r : WorkUpdateRequest) (log : List Call) (b : Body WorkResult)
    → ((before : List Call) (id : String) (e : Raised)
        → w.unlock before id ≡ err e
        → e ≡ other_failure)
    → BodyClaim w r log b
    → BodyClaim w r log (leave_lock w r.work_id b)
unfolding leave_lock provider_calls
leave-Claim w r log b foreign c = elim (Result-cases (w.unlock b.log r.work_id)) [
  | inl (done, e) ↦ rw (e, leave_lock) c
  | inr (x, e) ↦ rw (e, leave_lock, foreign b.log r.work_id x e) tt
]

close-Claim :
    (w : World) (r : WorkUpdateRequest) (log calls : List Call) (applied : Bool)
    (x : Result Raised WorkResult) (res : WorkResult)
    → ResultClaim w r log calls applied x
    → update_result applied x ≡ ok res
    → Claim w r log calls res.status res.item
unfolding update_result
close-Claim w r log calls applied (ok res') res c h =
    let same : res' ≡ res = cc h in
    subst (λ (y : WorkResult). Claim w r log calls y.status y.item) same c
close-Claim w r log calls applied (err unknown_effect) res c h =
    let same : bare unknown ≡ res = cc h in
    subst (λ (y : WorkResult). Claim w r log calls y.status y.item) same refl
close-Claim w r log calls true (err provider_failure) res c h =
    let same : bare unknown ≡ res = cc h in
    subst (λ (y : WorkResult). Claim w r log calls y.status y.item) same refl
close-Claim w r log calls false (err provider_failure) res c h =
    let same : bare provider_error ≡ res = cc h in
    subst (λ (y : WorkResult). Claim w r log calls y.status y.item) same
      (refl, elim c [ inl e ↦ cc | inr n ↦ n ])
close-Claim w r log calls true (err other_failure) res c h =
    let same : bare unknown ≡ res = cc h in
    subst (λ (y : WorkResult). Claim w r log calls y.status y.item) same refl
close-Claim w r log calls false (err other_failure) res c h = cc

-- the claim of an answer that is returned
abbrev ReturnClaim : World → WorkUpdateRequest → List Call → Outcome WorkResult → Type 0
ReturnClaim w r log (after, ok res) = Claim w r log (provider_calls after) res.status res.item
ReturnClaim w r log (after, err e) = Unit

entered-Claim :
    (w : World) (r : WorkUpdateRequest) (log : List Call)
    → ((before : List Call) (id : String) (e : Raised)
        → w.unlock before id ≡ err e
        → e ≡ other_failure)
    → (l : Result Raised (Option Handle)) → w.lock log r.work_id ≡ l
    → ReturnClaim w r log (update_entered w (state_lock r.work_id ∷ log) r l)
unfolding update_entered updates update_result provider_calls
entered-Claim w r log foreign (err unknown_effect) held = refl
entered-Claim w r log foreign (err provider_failure) held = (refl, inl refl)
entered-Claim w r log foreign (err other_failure) held = tt
entered-Claim w r log foreign (ok h) held =
    let b = leave_lock w r.work_id (update_locked w (state_lock r.work_id ∷ log) r h) in
    let c = leave-Claim w r log _ foreign (locked-Claim w r log h held) in
    elim (Result-cases (update_result b.maybe_applied b.result)) [
      | inl (res, e) ↦
          rw e (close-Claim w r log (provider_calls b.log) b.maybe_applied b.result res c e)
      | inr (x, e) ↦ rw e tt
    ]

update_returns :
    (w : World) (a : LaunchAuthority) (log : List Call) (r : WorkUpdateRequest) (after : List Call)
    (res : WorkResult)
    → ((before : List Call) (id : String) (e : Raised)
        → w.unlock before id ≡ err e
        → e ≡ other_failure)
    → update_work_item w a log r ≡ (after, ok res)
    → Claim w r log (provider_calls after) res.status res.item
unfolding update_work_item update_entered updates
update_returns w a log r after res foreign h = elim (Bool-cases (r.work_id == a.active_work_id)) [
  | inr e ↦
      let same : ◌≡◌ {A = Outcome WorkResult} (log, ok (bare denied)) (after, ok res) =
        cc (rw (e, update_work_item) at h) in
      subst {A = Outcome WorkResult} (λ o. ReturnClaim w r log o) same (refl, refl)
  | inl e ↦
      let entered : update_entered w (state_lock r.work_id ∷ log) r (w.lock log r.work_id)
          ≡ (after, ok res) =
        rw (e, update_work_item) at h in
      subst {A = Outcome WorkResult} (λ o. ReturnClaim w r log o) entered
        (entered-Claim w r log foreign (w.lock log r.work_id) refl)
]

valid_of_Claim :
    (w : World) (r : WorkUpdateRequest) (log calls : List Call) (s : Status) (i : Option WorkItem)
    → Claim w r log calls s i
    → bool_beq (needs_item s) (is_some i) ≡ true
valid_of_Claim w r log calls ok_status i c = rw (c.same_item) refl
valid_of_Claim w r log calls stale i c = rw (c.0.same_item) refl
valid_of_Claim w r log calls denied i c = rw (c.0) refl
valid_of_Claim w r log calls unknown i c = rw c refl
valid_of_Claim w r log calls provider_error i c = rw (c.0) refl

-- An update that returns says nothing false of the provider, given that leaving the lock of the
-- state raises no provider failure. `ok` carries canonical work that shows the whole patch: it is the
-- answer to the read that followed this call's update, which the provider took, and the calls are the
-- read, the update and the readback. `stale` carries the canonical work that this call read, of
-- another revision than the observed one; `stale` and `denied` sent no update; `provider_error` sent
-- none, or the provider rejected the one that this call sent; only `unknown` leaves the effect open.
-- The result passes the validator of `WorkResult`.
pub update-Claim :
    (w : World) (a : LaunchAuthority) (log : List Call) (r : WorkUpdateRequest) (after : List Call)
    (res : WorkResult)
    → ((before : List Call) (id : String) (e : Raised)
        → w.unlock before id ≡ err e
        → e ≡ other_failure)
    → update_work_item w a log r ≡ (after, ok res)
    → Claim w r log (provider_calls after) res.status res.item × (work_result_valid res ≡ true)
unfolding work_result_valid
update-Claim w a log r after res foreign h =
    let claim = update_returns w a log r after res foreign h in
    (claim, valid_of_Claim w r log (provider_calls after) res.status res.item claim)
