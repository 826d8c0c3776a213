-- ===== src/Redeploy/TaskOutcome.antt =====
-- How the tasks of a deployment end.
use sglang_ops_stack.Base.{String, Bool, ◌≡◌, refl}
use sglang_ops_stack.Base.Exec.{ok, ◌>>=◌}
use sglang_ops_stack.Base.Exec.Keeps.{Ends}
use sglang_ops_stack.Db.{JobStatus}
use sglang_ops_stack.Db.Results.{OperationName, DeploymentStatus}
use sglang_ops_stack.Jobs.{mark_failed, add_log}
use sglang_ops_stack.Deployment.World.{World, JobState, now}
use sglang_ops_stack.Deployment.Run.{fail, add_job_log, mark_deployment_failed}
use sglang_ops_stack.Deployment.Outcome.{IsFinished, IsAbandoned, run-finishes}
use sglang_ops_stack.Operation.Run.{
  fail_operation, fail_at, failed_result, write_failure, add_operation_log,
}
use sglang_ops_stack.Operation.Outcome.{IsOperated, run_operation-finishes}
use sglang_ops_stack.Redeploy.Task.{
  Work, no_job, no_deployment, no_host, ready, Left, untouched, without_deployment, ended,
  run_deployment_task, run_operation_task,
}

-- Nothing is left of a task without its job; without its deployment the job has failed; else it has
-- ended as `Done` says, or was abandoned by an exception.
abbrev pub IsLeftBy : (JobState → Type 0) → Work → Left → Type 0
IsLeftBy Done no_job left = left ≡ untouched
IsLeftBy Done (no_deployment db) (without_deployment db') =
    (db'.job.status ≡ JobStatus.failed) × (db'.saved ≡ db'.rows)
IsLeftBy Done (no_host s) (ended outcome s') =
    (outcome ≡ ok tt)
    × (s'.job.status ≡ JobStatus.failed)
    × (s'.target.status ≡ DeploymentStatus.failed)
    × (s'.saved ≡ s'.rows)
IsLeftBy Done (ready host s) (ended outcome s') =
    Ends (λ _. Done) (IsAbandoned s.target.status) outcome s'
IsLeftBy Done work left = ⊥

-- The tasks of a deployment and of an operation end on every row that is found or missing: a job
-- whose deployment is missing has failed, one whose host is missing has failed with its deployment,
-- and any other ends as its runner does; all but an abandoned one is committed.
pub tasks-IsLeftBy :
    (w : World) (password : String) (confirm : Bool) (operation : OperationName) (work : Work)
    → IsLeftBy IsFinished work (run_deployment_task w password confirm work)
      × IsLeftBy (IsOperated operation) work (run_operation_task w password operation work)
unfolding run_deployment_task run_operation_task mark_failed fail add_job_log mark_deployment_failed
    fail_operation fail_at failed_result write_failure add_operation_log add_log now ◌>>=◌
tasks-IsLeftBy w password confirm operation no_job = (refl, refl)
tasks-IsLeftBy w password confirm operation (no_deployment db) = ((refl, refl), (refl, refl))
tasks-IsLeftBy w password confirm operation (no_host s) =
    ((refl, refl, refl, refl), (refl, refl, refl, refl))
tasks-IsLeftBy w password confirm operation (ready host s) =
    (run-finishes w host password confirm s, run_operation-finishes w host password operation s)
