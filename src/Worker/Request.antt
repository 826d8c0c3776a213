-- ===== src/Worker/Request.antt =====
-- api/routers/pages.py: what the routes give to `enqueue_job` for each kind of job, and the task that
-- they add to the background tasks where the job is not queued: `ssh_check_page`,
-- `environment_check_page`, `confirm_install_page`, `deploy_deployment_page`,
-- `deployment_operation_page` and `redeploy_submit_page`. The JSON routes (hosts.py, jobs.py,
-- deployments.py, operations.py) do the same.
use sglang_ops_stack.Base.{ℕ, String, Bool, true}
use sglang_ops_stack.Json.{Entries, no_entries, entry, text, bool, object}
use sglang_ops_stack.Db.Results.{OperationName}
use sglang_ops_stack.Operation.Run.{operation_text}
use sglang_ops_stack.Worker.Dispatch.{
  Task, run_ssh_connect_check_task, run_environment_check_task, confirm_environment_install_task,
  run_deployment_task, run_operation_task, run_redeploy_task,
}

-- A job that a route starts, with what it takes from the form or the body. An installation that is
-- not confirmed is refused before.
pub data JobRequest : Type 0 where
  ssh_connect_check environment_check environment_install : JobRequest
  deployment : (confirm_remove_existing : Bool) → JobRequest
  operation : OperationName → JobRequest
  redeployment : (requested_config : Entries) → (confirm_high_risk : Bool) → JobRequest

unfoldable pub job_type : JobRequest → String
unfolding operation_text
job_type ssh_connect_check = "ssh_connect_check"
job_type environment_check = "environment_check"
job_type environment_install = "environment_install"
job_type (deployment confirm) = "deployment"
job_type (operation name) = operation_text name
job_type (redeployment config confirm) = "redeployment"

-- The keyword arguments.
unfoldable pub options : JobRequest → Entries
unfolding operation_text
options (deployment confirm) = entry "confirm_remove_existing" (bool confirm) no_entries
options (operation name) = entry "operation" (text (operation_text name)) no_entries
options (redeployment config confirm) =
    entry "requested_config" (object config) (entry "confirm_high_risk" (bool confirm) no_entries)
options _ = no_entries

-- The arguments of `background_tasks.add_task`.
unfoldable pub background_task : JobRequest → (job_id : ℕ) → (password : String) → Task
unfolding operation_text
background_task ssh_connect_check id password = run_ssh_connect_check_task id password
background_task environment_check id password = run_environment_check_task id password
background_task environment_install id password = confirm_environment_install_task id password true
background_task (deployment confirm) id password = run_deployment_task id password confirm
background_task (operation name) id password =
    run_operation_task id (text (operation_text name)) password
background_task (redeployment config confirm) id password =
    run_redeploy_task id password config confirm
