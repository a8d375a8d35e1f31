-- ===== src/Broker/Budget.antt =====
-- `Budget`, `CLASSES` and `ChildBudget`.
use switchstand.Base.{
  Bool, Option, String, arith, as_natural, if◌then◌else◌, leb, none, refl, some, string_eq, true, ℕ,
  ℤ, ◌&&◌, ◌+◌, ◌==◌, ◌≡◌, ◌≤◌,
}

pub record Budget : Type 0 where
  pub memory_high_mib : ℕ
  pub memory_max_mib : ℕ
  pub swap_max_mib : ℕ
  pub cpu_percent : ℕ
  pub tasks : ℕ
  pub workers : ℕ
  pub heavy : ℕ

-- the seven values before `Budget.__post_init__` and the validator of `ChildBudget`
pub record RawBudget : Type 0 where
  pub memory_high_mib : ℤ
  pub memory_max_mib : ℤ
  pub swap_max_mib : ℤ
  pub cpu_percent : ℤ
  pub tasks : ℤ
  pub workers : ℤ
  pub heavy : ℤ

unfoldable pub all_natural :
    Option ℕ → Option ℕ → Option ℕ → Option ℕ → Option ℕ → Option ℕ → Option ℕ → Option Budget
all_natural (some a) (some b) (some c) (some d) (some e) (some f) (some g) = some (record {
  memory_high_mib = a;
  memory_max_mib = b;
  swap_max_mib = c;
  cpu_percent = d;
  tasks = e;
  workers = f;
  heavy = g;
})
all_natural _ _ _ _ _ _ _ = none

-- `ChildBudget.non_negative` on each field
unfoldable pub non_negative : RawBudget → Option Budget
unfolding all_natural
non_negative raw =
    all_natural (as_natural raw.memory_high_mib) (as_natural raw.memory_max_mib)
      (as_natural raw.swap_max_mib) (as_natural raw.cpu_percent) (as_natural raw.tasks)
      (as_natural raw.workers) (as_natural raw.heavy)

-- `memory_high_mib > memory_max_mib` is refused
abbrev pub high_within_max : Budget → Bool
high_within_max b = leb b.memory_high_mib b.memory_max_mib

-- `Budget.__post_init__`; `none` is the `ValueError`
unfoldable pub make_budget : RawBudget → Option Budget
make_budget raw = elim (non_negative raw) [
  | none ↦ none
  | some b ↦ if high_within_max b then some b else none
]

-- `add`
unfoldable pub add : Budget → Budget → Budget
add a b = record {
  memory_high_mib = a.memory_high_mib + b.memory_high_mib;
  memory_max_mib = a.memory_max_mib + b.memory_max_mib;
  swap_max_mib = a.swap_max_mib + b.swap_max_mib;
  cpu_percent = a.cpu_percent + b.cpu_percent;
  tasks = a.tasks + b.tasks;
  workers = a.workers + b.workers;
  heavy = a.heavy + b.heavy;
}

-- `fits`
unfoldable pub fits : Budget → Budget → Bool
fits a limit =
    leb a.memory_high_mib limit.memory_high_mib
    && (leb a.memory_max_mib limit.memory_max_mib
        && (leb a.swap_max_mib limit.swap_max_mib
            && (leb a.cpu_percent limit.cpu_percent
                && (leb a.tasks limit.tasks
                    && (leb a.workers limit.workers && leb a.heavy limit.heavy)))))

-- `ZERO`
abbrev pub zero_budget : Budget
zero_budget = record {
  memory_high_mib = 0;
  memory_max_mib = 0;
  swap_max_mib = 0;
  cpu_percent = 0;
  tasks = 0;
  workers = 0;
  heavy = 0;
}

pub data WorkerClass : Type 0 where
  light implementation heavy_class : WorkerClass

-- `CLASSES`
unfoldable pub class_budget : WorkerClass → Budget
class_budget light = record {
  memory_high_mib = 700;
  memory_max_mib = 1024;
  swap_max_mib = 128;
  cpu_percent = 100;
  tasks = 96;
  workers = 1;
  heavy = 0;
}
class_budget implementation = record {
  memory_high_mib = 1229;
  memory_max_mib = 1792;
  swap_max_mib = 256;
  cpu_percent = 200;
  tasks = 160;
  workers = 1;
  heavy = 0;
}
class_budget heavy_class = record {
  memory_high_mib = 2560;
  memory_max_mib = 3584;
  swap_max_mib = 512;
  cpu_percent = 400;
  tasks = 384;
  workers = 1;
  heavy = 1;
}

-- `LeaseRequest.known_class`
unfoldable pub known_class : String → Option WorkerClass
known_class value =
    if value == "light"
    then some light
    else if value == "implementation"
    then some implementation
    else if value == "heavy"
    then some heavy_class
    else none

-- The seven dimensions of a budget.
pub data Dimension : Type 0 where
  high_mib max_mib swap_mib cpu task_count worker_count heavy_count : Dimension

abbrev pub amount : Dimension → Budget → ℕ
amount high_mib b = b.memory_high_mib
amount max_mib b = b.memory_max_mib
amount swap_mib b = b.swap_max_mib
amount cpu b = b.cpu_percent
amount task_count b = b.tasks
amount worker_count b = b.workers
amount heavy_count b = b.heavy

-- `add` and `fits` act on each dimension.
pub amount-add : (d : Dimension) (a b : Budget) → amount d (add a b) ≡ amount d a + amount d b
unfolding add
amount-add high_mib a b = refl
amount-add max_mib a b = refl
amount-add _ a b = refl

pub amount-le_of_fits :
    (d : Dimension) (a limit : Budget) → fits a limit ≡ true → amount d a ≤ amount d limit
unfolding fits
amount-le_of_fits high_mib a l h = ground arith
amount-le_of_fits max_mib a l h = ground arith
amount-le_of_fits _ a l h = ground arith
