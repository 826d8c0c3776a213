-- ===== src/Environment/Task.antt =====
-- services/environment/runner.py: the functions that load the rows of a job and run it, and the
-- tasks that a worker calls.
use sglang_ops_stack.Base.{String, ◌<>◌, Bool, [], ◌∷◌, if◌then◌else◌}
use sglang_ops_stack.Base.Show.{show}
use sglang_ops_stack.Base.Exec.{Result, ok, err}
use sglang_ops_stack.Db.{Host, Session}
use sglang_ops_stack.Db.Loaded.{Loaded, no_job, no_target, loaded, swallow}
use sglang_ops_stack.Db.Results.{ssh_connect_failed}
use sglang_ops_stack.Jobs.{mark_failed}
use sglang_ops_stack.Environment.Runner.{World, EnvironmentException, Action, new_runner, code_text}
use sglang_ops_stack.Environment.Run.{check, confirm_install}

-- What the functions raise: the `ValueError` on a missing confirmation, or an exception of the run.
pub data TaskException : Type 0 where
  not_confirmed : TaskException
  raised : EnvironmentException → TaskException

abbrev pub raised_by : Result EnvironmentException Unit → Result TaskException Unit
raised_by (ok a) = ok a
raised_by (err e) = err (raised e)

module _ (w : World) (password : String) where
  -- `_load_job_host`: a job without its host is marked as failed.
  unfoldable pub host_not_found : Session Unit → Session Unit
  host_not_found db =
      mark_failed w.clock w.patterns (code_text ssh_connect_failed)
        ("host " <> show db.job.target_id <> " not found") (password ∷ []) db

  unfoldable pub run_on : Action Unit → Loaded Host → Result TaskException Unit × Loaded Host
  unfolding host_not_found
  run_on method no_job = (ok tt, no_job)
  run_on method (no_target db) = (ok tt, no_target (host_not_found db))
  run_on method (loaded db) =
      let (outcome, r) = method (new_runner db password) in (raised_by outcome, loaded r.db)

  unfoldable pub run_environment_check : Loaded Host → Result TaskException Unit × Loaded Host
  unfolding run_on
  run_environment_check = run_on (check w)

  unfoldable pub confirm_environment_install :
      Bool → Loaded Host → Result TaskException Unit × Loaded Host
  unfolding run_on
  confirm_environment_install confirmed found =
      if confirmed then run_on (confirm_install w) found else (err not_confirmed, found)

  unfoldable pub run_environment_check_task : Loaded Host → Loaded Host
  unfolding run_environment_check
  run_environment_check_task found = swallow (run_environment_check found)

  unfoldable pub confirm_environment_install_task : Bool → Loaded Host → Loaded Host
  unfolding confirm_environment_install
  confirm_environment_install_task confirmed found =
      swallow (confirm_environment_install confirmed found)
