-- ===== src/Redeploy/Task.antt =====
-- jobs/deployment_jobs.py, operation_jobs.py and redeploy_jobs.py: the tasks, which load the rows of
-- their job and run it.
use sglang_ops_stack.Base.{String, Bool, [], Option, none, some}
use sglang_ops_stack.Base.Exec.{Result, raise}
use sglang_ops_stack.Db.{Host, Session}
use sglang_ops_stack.Db.Results.{OperationName, DeploymentStatus}
use sglang_ops_stack.Jobs.{mark_failed}
use sglang_ops_stack.Deployment.Create.{DeploymentCreate}
use sglang_ops_stack.Deployment.World.{World, JobException, value_error, JobState, Action}
use sglang_ops_stack.Deployment.Run.{run, fail}
use sglang_ops_stack.Operation.Run.{run_operation, fail_operation, fail_at}
use sglang_ops_stack.Redeploy.Run.{run_redeploy}

-- Which of the rows are found: the job, its deployment, the host of that.
pub data Work : Type 0 where
  no_job : Work
  no_deployment : Session Unit → Work
  no_host : JobState → Work
  ready : Host → JobState → Work

-- What a task leaves: nothing that it wrote, a session without a deployment, or an outcome.
pub data Left : Type 0 where
  untouched : Left
  without_deployment : Session Unit → Left
  ended : Result JobException Unit → JobState → Left

abbrev pub ended_by : Result JobException Unit × JobState → Left
ended_by (outcome, s) = ended outcome s

-- The shape of the three tasks: what is done where the host is missing, and what with the host.
unfoldable pub run_task : World → Action Unit → (Host → Action Unit) → Work → Left
run_task w fail_host run_on no_job = untouched
run_task w fail_host run_on (no_deployment db) =
    without_deployment
      (mark_failed w.clock w.patterns "VALIDATION_ERROR" "Deployment not found" [] db)
run_task w fail_host run_on (no_host s) = ended_by (fail_host s)
run_task w fail_host run_on (ready host s) = ended_by (run_on host s)

module _ (w : World) (password : String) where
  unfoldable pub run_deployment_task : Bool → Work → Left
  unfolding run_task
  run_deployment_task confirm =
      run_task w (fail w "VALIDATION_ERROR" "Host not found") (λ host. run w host password confirm)

  unfoldable pub run_operation_task : OperationName → Work → Left
  unfolding run_task
  run_operation_task operation =
      run_task w (fail_operation w "VALIDATION_ERROR" "Host not found")
        (λ host. run_operation w host password operation)

  abbrev pub run_validated : Bool → Option DeploymentCreate → Host → Action Unit
  run_validated confirm none host = raise value_error
  run_validated confirm (some payload) host = run_redeploy w host password payload confirm

  -- The payload is `none` where `model_validate` refuses the requested configuration, by an error
  -- that is a `ValueError`.
  unfoldable pub run_redeploy_task : Option DeploymentCreate → Bool → Work → Left
  unfolding run_task
  run_redeploy_task payload confirm =
      run_task w (fail_at w DeploymentStatus.failed "VALIDATION_ERROR" "Host not found")
        (λ host. run_validated confirm payload host)
