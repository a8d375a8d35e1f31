-- ===== src/Broker/Pressure.antt =====
-- `Pressure`: the host's memory and swap sample, and the reasons to refuse a worker. Times are in
-- nanoseconds and pressure stall values in hundredths; a float that is not finite is `not_finite`.
pub mod Admits
use switchstand.Broker.Budget.{WorkerClass, light}
use switchstand.Base.{
  Bool, Option, Result, err, false, if◌then◌else◌, is_none, is_nonzero, leb_ℤ, ltb, max, negsuc,
  none, not, ok, pos, pos_part, some, true, ℕ, ℤ, ◌&&◌, ◌+ℤ◌, ◌+◌, ◌-ℤ◌, ◌/◌, ◌||◌,
}

-- the limits of the module, in nanoseconds
abbrev pub pressure_max_age : ℕ
pressure_max_age = 5000000000

abbrev pub swap_activity_max_window : ℕ
swap_activity_max_window = 60000000000

abbrev pub claim_ttl : ℕ
claim_ttl = 60000000000

-- a float
pub data Reading : Type 0 where
  finite : ℤ → Reading
  not_finite : Reading

pub record Pressure : Type 0 where
  pub memory_total_mib : ℤ
  pub memory_available_mib : ℤ
  pub swap_total_mib : ℤ
  pub swap_used_mib : ℤ
  pub memory_psi_avg10 : Reading
  pub swap_activity_pages : Option ℤ
  pub sampled_monotonic : Option Reading
  pub activity_window_seconds : Option Reading
  pub pswpin : Option ℤ
  pub pswpout : Option ℤ

-- what the ledger keeps of a sample
pub record Sample : Type 0 where
  pub swapped_in : ℤ
  pub swapped_out : ℤ
  pub sampled : Reading

unfoldable pub sample_of : Option ℤ → Option ℤ → Option Reading → Option Sample
sample_of (some i) (some o) (some t) =
    some (record { swapped_in = i; swapped_out = o; sampled = t })
sample_of _ _ _ = none

-- `sample_record`
unfoldable pub sample_record : Pressure → Option Sample
unfolding sample_of
sample_record p = sample_of p.pswpin p.pswpout p.sampled_monotonic

abbrev pub reading_sub : Reading → Reading → Reading
reading_sub (finite a) (finite b) = finite (a -ℤ b)
reading_sub _ _ = not_finite

-- `elapsed <= 0`, which is false of NaN
abbrev pub not_after : Reading → Bool
not_after (finite z) = leb_ℤ z (pos 0)
not_after not_finite = false

-- `with_activity`, over the records of both samples
unfoldable pub derive_activity : Pressure → Option Sample → Option Sample → Pressure
derive_activity p (some now) (some previous) =
    let elapsed = reading_sub now.sampled previous.sampled in
    let activity =
      (now.swapped_in -ℤ previous.swapped_in) +ℤ (now.swapped_out -ℤ previous.swapped_out) in
    if not_after elapsed || not (leb_ℤ (pos 0) activity)
    then p
    else record p { swap_activity_pages = some activity; activity_window_seconds = some elapsed }
derive_activity p _ _ = p

unfoldable pub with_activity : Pressure → Option Sample → Pressure
unfolding derive_activity
with_activity p previous = derive_activity p (sample_record p) previous

pub data Refusal : Type 0 where
  pressure_sample_invalid pressure_sample_stale pressure_sample_missing : Refusal
  memory_available host_pressure host_pressure_light_only parent_budget : Refusal

abbrev pub is_natural : ℤ → Bool
is_natural z = leb_ℤ (pos 0) z

abbrev pub reading_natural : Reading → Bool
reading_natural (finite z) = is_natural z
reading_natural not_finite = false

-- the test over `numbers`, where the two ledger amounts are natural
unfoldable pub numbers_valid : Pressure → Bool
numbers_valid p =
    is_natural p.memory_total_mib
    && (is_natural p.memory_available_mib
        && (is_natural p.swap_total_mib
            && (is_natural p.swap_used_mib && reading_natural p.memory_psi_avg10)))

-- the tests on `sampled`
unfoldable pub sample_refusal : Option Reading → ℕ → Option Refusal
sample_refusal none now = none
sample_refusal (some not_finite) now = some pressure_sample_invalid
sample_refusal (some (finite (pos s))) now =
    if ltb now s
    then some pressure_sample_invalid
    else if ltb (s + pressure_max_age) now
    then some pressure_sample_stale
    else none
sample_refusal (some (finite (negsuc n))) now =
    if ltb pressure_max_age (now + n + 1) then some pressure_sample_stale else none

abbrev pub no_counters : Pressure → Bool
no_counters p = is_none p.pswpin && is_none p.pswpout

-- the swap activity, or the reason to refuse without one
unfoldable pub activity_of : Pressure → Result Refusal ℤ
activity_of p = elim p.swap_activity_pages [
  | some z ↦ ok z
  | none ↦
      if no_counters p
      then (if is_nonzero p.swap_used_mib then err host_pressure else ok (pos 0))
      else err pressure_sample_missing
]

-- the tests on `activity_window_seconds`
unfoldable pub window_refusal : Option Reading → Option Refusal
window_refusal none = none
window_refusal (some not_finite) = some pressure_sample_invalid
window_refusal (some (finite z)) =
    if leb_ℤ z (pos 0)
    then some pressure_sample_invalid
    else if leb_ℤ z (pos swap_activity_max_window)
    then none
    else some pressure_sample_stale

-- `memory_psi_avg10 >= limit`
abbrev pub psi_reaches : Reading → ℕ → Bool
psi_reaches (finite z) limit = leb_ℤ (pos limit) z
psi_reaches not_finite limit = false

abbrev pub is_light : WorkerClass → Bool
is_light light = true
is_light _ = false

-- `max(2048, memory_total_mib // 5) + reserved + candidate`, for a total that is natural
unfoldable pub required_memory : Pressure → ℕ → ℕ → ℕ
required_memory p reserved candidate =
    max 2048 (pos_part p.memory_total_mib / 5) + reserved + candidate

-- the end of `refusal`, over a valid sample
unfoldable pub load_refusal : Pressure → WorkerClass → ℕ → ℕ → ℤ → Option Refusal
load_refusal p class reserved candidate activity =
    if not (leb_ℤ (pos (required_memory p reserved candidate)) p.memory_available_mib)
    then some memory_available
    else if is_nonzero activity || psi_reaches p.memory_psi_avg10 500
    then some host_pressure
    else if not (is_light class) && psi_reaches p.memory_psi_avg10 200
    then some host_pressure_light_only
    else none

-- the tests in turn, each over the result of the one before
unfoldable pub activity_refusal : Pressure → WorkerClass → ℕ → ℕ → Result Refusal ℤ → Option Refusal
activity_refusal p class reserved candidate (err r) = some r
activity_refusal p class reserved candidate (ok activity) =
    if not (is_natural activity)
    then some pressure_sample_invalid
    else elim (window_refusal p.activity_window_seconds) [
      | some r ↦ some r
      | none ↦ load_refusal p class reserved candidate activity
    ]

unfoldable pub refusal : Pressure → WorkerClass → ℕ → ℕ → ℕ → Option Refusal
refusal p class reserved candidate now =
    if not (numbers_valid p)
    then some pressure_sample_invalid
    else elim (sample_refusal p.sampled_monotonic now) [
      | some r ↦ some r
      | none ↦ activity_refusal p class reserved candidate (activity_of p)
    ]
