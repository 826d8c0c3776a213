-- ===== src/Environment/TaskOutcome.antt =====
-- How the tasks of a host's environment leave the database.
use sglang_ops_stack.Base.{String, ◌≡◌, refl, ◌⊎◌, inl, inr}
use sglang_ops_stack.Base.Exec.{Result, ok, err}
use sglang_ops_stack.Base.Exec.Keeps.{Ends}
use sglang_ops_stack.Db.{Host, JobStatus, rollback}
use sglang_ops_stack.Db.Loaded.{Loaded, no_job, no_target, loaded, swallow}
use sglang_ops_stack.Jobs.{mark_failed}
use sglang_ops_stack.Environment.Runner.{World, EnvironmentException, Runner, new_runner}
use sglang_ops_stack.Environment.Run.{check}
use sglang_ops_stack.Environment.Outcome.{IsSettled, IsStuck, check-settles}
use sglang_ops_stack.Environment.Task.{host_not_found, run_environment_check_task, raised_by}

-- The job of the session is not pending: it runs, or it is settled.
abbrev pub IsTaken : JobStatus → Type 0
IsTaken status =
    (status ≡ JobStatus.running)
    ⊎ ((status ≡ JobStatus.succeeded)
        ⊎ ((status ≡ JobStatus.failed) ⊎ (status ≡ JobStatus.waiting_confirmation)))

-- What a task leaves: nothing uncommitted, and a job that was taken up; without its host the job
-- has failed.
abbrev pub IsLeft : Loaded Host → Type 0
IsLeft no_job = Unit
IsLeft (no_target db) = (db.saved ≡ db.rows) × (db.job.status ≡ JobStatus.failed)
IsLeft (loaded db) = (db.saved ≡ db.rows) × IsTaken db.job.status

module _ (w : World) (password : String) where
  settled-IsLeft : (r : Runner) → IsSettled r → IsLeft (loaded r.db)
  settled-IsLeft r (inl h, c) = (c, inr (inl h))
  settled-IsLeft r (inr (inl h), c) = (c, inr (inr (inl h)))
  settled-IsLeft r (inr (inr h), c) = (c, inr (inr (inr h)))

  stuck-IsLeft :
      (e : EnvironmentException) (r : Runner) → IsStuck e r → IsLeft (loaded (rollback r.db))
  stuck-IsLeft e r h = (refl, inl (h.1).1)

  left :
      (outcome : Result EnvironmentException Unit) (r : Runner)
      → Ends (λ _. IsSettled) IsStuck outcome r
      → IsLeft (swallow (raised_by outcome, loaded r.db))
  unfolding swallow
  left (ok a) r h = settled-IsLeft r h
  left (err e) r h = stuck-IsLeft e r h

  -- The task of a check leaves nothing uncommitted, whatever the host answers and whatever is
  -- raised; a job without its host has failed, and any other runs, has succeeded, has failed or
  -- waits for a confirmation.
  pub run_environment_check_task-IsLeft :
      (found : Loaded Host) → IsLeft (run_environment_check_task w password found)
  unfolding run_environment_check_task swallow host_not_found mark_failed
  run_environment_check_task-IsLeft no_job = tt
  run_environment_check_task-IsLeft (no_target db) = (refl, refl)
  run_environment_check_task-IsLeft (loaded db) =
      left (check w (new_runner db password)).0 (check w (new_runner db password)).1
        (check-settles w (new_runner db password))
