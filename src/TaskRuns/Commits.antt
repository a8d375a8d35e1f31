-- ===== src/TaskRuns/Commits.antt =====
-- Postconditions of the transactions of src/switchstand/task_runs.py.
use switchstand.TaskRuns.{Failure, Tables, close_transaction}
use switchstand.Base.{Bool, Result, err, false, ok, refl, require, true, ◌>>=◌, ◌>>◌, ◌≡◌}

-- `Q` holds of the tables and the answer that a transaction commits.
pub data Commits {ℓ} {A : Type ℓ} (Q : Tables × A → Type 0)
    : Result Failure (Tables × A) → Type ℓ where
  commits : {out : Tables × A} → Q out → Commits Q (ok out)
  raises : {raised : Failure} → Commits Q (err raised)

module _ {ℓ} {A : Type ℓ} (Q : Tables × A → Type 0) where
  pub bind-Commits {κ} :
      {B : Type κ} (m : Result Failure B) (f : B → Result Failure (Tables × A))
      → ((b : B) → m ≡ ok b → Commits Q (f b))
      → Commits Q (m >>= f)
  bind-Commits (ok b) f k = k b refl
  bind-Commits (err e) f k = raises

  pub require-Commits :
      (b : Bool) (e : Failure) {k : Result Failure (Tables × A)}
      → Commits Q k
      → Commits Q (require b e >> k)
  require-Commits true e k = k
  require-Commits false e k = raises

  -- The end of a transaction: what it commits, or the answer to an exception.
  pub close-Commits :
      {t : Tables} {failed : A} {m : Result Failure (Tables × A)}
      → Q (t, failed)
      → Commits Q m
      → Q (close_transaction t failed m)
  close-Commits q (commits p) = p
  close-Commits q raises = q
