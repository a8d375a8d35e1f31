-- ===== src/Broker/Pressure/Admits.antt =====
-- What a pressure sample that admits a worker shows of the host.
use switchstand.Broker.Budget.{WorkerClass}
use switchstand.Broker.Pressure.{
  Pressure, Reading, activity_of, activity_refusal, finite, is_light, is_natural, load_refusal,
  not_finite, numbers_valid, pressure_max_age, psi_reaches, reading_natural, refusal,
  required_memory, sample_refusal, window_refusal,
}
use switchstand.Base.{
  Bool-cases, Option, Option-cases, Result-cases, ap, arith, false, inl, inr, is_nonzero, leb_ℤ,
  max, negsuc, none, ok, pos, pos_part, refl, some, suc, true, zero, ℕ, ℤ, ◌+◌, ◌/◌, ◌<◌, ◌∙◌, ◌≡◌,
  ◌≤◌,
}

-- The sample is not from the future and at most five seconds old, where it has a time.
abbrev pub IsFresh : Option Reading → ℕ → Type 0
IsFresh none now = Unit
IsFresh (some not_finite) now = ⊥
IsFresh (some (finite (pos s))) now = (s ≤ now) × (now ≤ s + pressure_max_age)
IsFresh (some (finite (negsuc n))) now = now + n + 1 ≤ pressure_max_age

-- a pressure stall value below a limit
abbrev pub Below : Reading → ℕ → Type 0
Below (finite (pos z)) limit = z < limit
Below (finite (negsuc z)) limit = ⊥
Below not_finite limit = ⊥

abbrev pub HasAvailable : ℤ → ℕ → Type 0
HasAvailable (pos n) required = required ≤ n
HasAvailable (negsuc n) required = ⊥

-- The host has room for the candidate beside what was reserved.
pub record HasRoom (p : Pressure) (class : WorkerClass) (taken candidate now : ℕ) : Type 0 where
  pub memory :
      HasAvailable p.memory_available_mib
        (max 2048 (pos_part p.memory_total_mib / 5) + taken + candidate)
  pub stall : Below p.memory_psi_avg10 500
  pub stall_heavier : is_light class ≡ false → Below p.memory_psi_avg10 200
  pub fresh : IsFresh p.sampled_monotonic now
  pub no_swapping : activity_of p ≡ ok (pos 0)

sample-IsFresh : (r : Option Reading) (now : ℕ) → sample_refusal r now ≡ none → IsFresh r now
unfolding sample_refusal
sample-IsFresh none now h = tt
sample-IsFresh (some not_finite) now h = cc
sample-IsFresh (some (finite (pos s))) now h = (ground arith, ground arith)
sample-IsFresh (some (finite (negsuc n))) now h = ground arith

stall-Below :
    (r : Reading) (limit : ℕ)
    → reading_natural r ≡ true
    → psi_reaches r limit ≡ false
    → Below r limit
stall-Below (finite (pos z)) limit n h = ground arith
stall-Below (finite (negsuc z)) limit n h = cc
stall-Below not_finite limit n h = cc

available : (z : ℤ) (n : ℕ) → leb_ℤ (pos n) z ≡ true → HasAvailable z n
available (pos z) n h = ground arith
available (negsuc z) n h = cc

no_activity : (z : ℤ) → is_natural z ≡ true → is_nonzero z ≡ false → z ≡ pos 0
no_activity (pos zero) n h = refl
no_activity (pos (suc m)) n h = ground arith
no_activity (negsuc m) n h = cc

-- the last two tests and the window, over a known activity
activity_room :
    (p : Pressure) (class : WorkerClass) (taken candidate now : ℕ) (activity : ℤ)
    → numbers_valid p ≡ true
    → sample_refusal p.sampled_monotonic now ≡ none
    → activity_of p ≡ ok activity
    → activity_refusal p class taken candidate (ok activity) ≡ none
    → HasRoom p class taken candidate now
unfolding activity_refusal load_refusal required_memory
activity_room p class taken candidate now activity v f a h =
    elim (Bool-cases (is_natural activity)) [
      | inr e ↦ cc (rw (e, activity_refusal) at h)
      | inl e ↦ elim (Option-cases (window_refusal p.activity_window_seconds)) [
        | inr (r, w) ↦ cc (rw (e, activity_refusal, w) at h)
        | inl w ↦
            let h1 = rw (e, activity_refusal, w) at h in
            let stall_valid : reading_natural p.memory_psi_avg10 ≡ true =
              unfold numbers_valid in ground arith in
            record {
              memory = available p.memory_available_mib _ (unfold load_refusal in ground arith);
              stall = stall-Below p.memory_psi_avg10 500 stall_valid (ground arith);
              stall_heavier =
                  λ heavy. stall-Below p.memory_psi_avg10 200 stall_valid (ground arith);
              fresh = sample-IsFresh p.sampled_monotonic now f;
              no_swapping = a ∙ ap ok (no_activity activity e (ground arith));
            }
      ]
    ]

-- A sample that refuses nothing shows the room that the policy asks for: memory for what was
-- reserved and for the candidate beside the host's reserve, pressure stall below 5% and below 2%
-- for a class that is not light, no swapping, and, if the sample has a time, one within the last
-- five seconds.
pub admits-HasRoom :
    (p : Pressure) (class : WorkerClass) (taken candidate now : ℕ)
    → refusal p class taken candidate now ≡ none
    → HasRoom p class taken candidate now
unfolding refusal activity_refusal
admits-HasRoom p class taken candidate now h = elim (Bool-cases (numbers_valid p)) [
  | inr e ↦ cc (rw (e, refusal) at h)
  | inl e ↦ elim (Option-cases (sample_refusal p.sampled_monotonic now)) [
    | inr (r, f) ↦ cc (rw (e, f, refusal) at h)
    | inl f ↦
        let h1 = rw (e, f, refusal) at h in
        elim (Result-cases (activity_of p)) [
          | inr (r, a) ↦ cc (rw (a, activity_refusal) at h1)
          | inl (z, a) ↦ activity_room p class taken candidate now z e f a (rw a at h1)
        ]
  ]
]
