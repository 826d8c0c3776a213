-- ===== src/Redeploy/Run.antt =====
-- jobs/redeploy_jobs.py: the job that replaces the container of a deployment by one of a new
-- payload, and `create_redeploy_job` of services/redeploy_service.py.
use sglang_ops_stack.Base.{
  ℕ, String, ◌<>◌, Bool, true, false, List, [], ◌∷◌, ◌++◌, Option, none, some, if◌then◌else◌,
}
use sglang_ops_stack.Base.Exec.{Result, ok, err, pure, raise, gets, try, ◌>>=◌, ◌>>◌}
use sglang_ops_stack.Remote.{ssh, SshErrorKind}
use sglang_ops_stack.Masking.{Patterns}
use sglang_ops_stack.Json.{
  Value, Elements, bool, text, array, object, no_elements, element, no_entries, entry,
}
use sglang_ops_stack.Json.Masked.{mask_value}
use sglang_ops_stack.Db.{Host, Level, Deployment, Job, JobType, TargetType}
use sglang_ops_stack.Db.Results.{
  Health, DeploymentStatus, JobResult, redeploy_requested, redeployed,
}
use sglang_ops_stack.Base.Show.{show}
use sglang_ops_stack.Jobs.{create_job, save_result, mark_running, mark_succeeded}
use sglang_ops_stack.Deployment.Docker.{
  DockerCommandBuilder, pull, stop, rm_existing, run_detached_idle, exec_detached,
}
use sglang_ops_stack.Deployment.Sglang.{build_sglang_argv}
use sglang_ops_stack.Deployment.Create.{
  DeploymentCreate, payload_from_deployment, payload_secrets, optional_text, dump,
}
use sglang_ops_stack.Deployment.Apply.{apply_payload_to_deployment, service_url_of}
use sglang_ops_stack.Deployment.World.{
  World, JobException, executor, job_error, value_error, Action, on_db, on_deployment,
}
use sglang_ops_stack.Deployment.Health.{is_error, check_deployment}
use sglang_ops_stack.Deployment.Run.{
  status_text, deployment_status_text, healthy_status, save_health,
}
use sglang_ops_stack.Operation.Guards.{operation_secrets}
use sglang_ops_stack.Operation.Run.{add_operation_log, fail_at, run_operation_command}
use sglang_ops_stack.Redeploy.Plan.{
  DiffItem, RedeployPlan, PlanError, busy, not_allowed, other_host, unconfirmed, no_preview,
  validate_redeploy,
}

unfoldable pub text_items : List String → Elements
text_items [] = no_elements
text_items (t ∷ ts) = element (text t) (text_items ts)

unfoldable pub dump_diff : List DiffItem → Elements
dump_diff [] = no_elements
dump_diff (i ∷ is) =
    element
      (object (
        entry "field" (text i.path) (
          entry "old_value" i.old_value
            (entry "new_value" i.new_value (entry "risk" (optional_text i.risk) no_entries)))))
      (dump_diff is)

-- `plan.model_dump()`
unfoldable pub dump_plan : RedeployPlan → Value
unfolding text_items dump_diff
dump_plan plan = object (
    entry "command_preview" (text plan.command_preview) (
      entry "risk_warnings" (array (text_items plan.risk_warnings)) (
        entry "diff" (array (dump_diff plan.diff)) (
          entry "high_risk" (bool plan.high_risk)
            (entry "requires_confirmation" (bool plan.requires_confirmation) no_entries)))))

abbrev pub all_secrets : Deployment → DeploymentCreate → List String
all_secrets d payload = operation_secrets d ++ payload_secrets payload

-- What follows the validation, on the rows of the job and of the deployment.
unfoldable pub requested :
    Patterns
    → ℕ
    → Deployment
    → DeploymentCreate
    → Result PlanError RedeployPlan
    → Result PlanError (Job × Deployment × RedeployPlan)
unfolding dump_plan
requested p id d payload (err e) = err e
requested p id d payload (ok plan) = ok (
  record (create_job id d.id JobType.redeployment TargetType.deployment) {
    result = some (
        redeploy_requested (mask_value p (all_secrets d payload) (object (dump payload)))
          (dump_plan plan) d.status);
  },
  record d { last_job_id = some id; status = DeploymentStatus.redeploying },
  plan,
)

-- The new job, with the id that the database gives, the row of the deployment, and the plan.
unfoldable pub create_redeploy_job :
    Patterns
    → ℕ
    → Deployment
    → DeploymentCreate
    → Bool
    → Result PlanError (Job × Deployment × RedeployPlan)
unfolding requested validate_redeploy
create_redeploy_job p id d payload confirm =
    requested p id d payload (validate_redeploy p true d payload confirm)

-- The message of a `RedeployError`.
unfoldable pub plan_error_text : PlanError → String
plan_error_text (busy status) = "deployment is busy: " <> deployment_status_text status
plan_error_text (not_allowed status) =
    "redeploy is not allowed when status=" <> deployment_status_text status
plan_error_text other_host = "redeploy does not support changing host_id"
plan_error_text unconfirmed = "High-risk redeploy requires confirm_high_risk=true"
plan_error_text no_preview = ""

-- The exception of a refused plan.
unfoldable pub plan_exception : PlanError → JobException
unfolding plan_error_text
plan_exception no_preview = value_error
plan_exception e = job_error "VALIDATION_ERROR" (plan_error_text e)

unfoldable pub former : Option JobResult → DeploymentStatus → DeploymentStatus
former (some (redeploy_requested config plan previous_status)) status = previous_status
former _ status = status

unfoldable pub restorable : DeploymentStatus → DeploymentStatus
restorable DeploymentStatus.redeploying = DeploymentStatus.failed
restorable status = status

-- `old_status`
unfoldable pub old_status : Job → Deployment → DeploymentStatus
unfolding former restorable
old_status job d = restorable (former job.result d.status)

-- `_builder_from_payload`
unfoldable pub builder_from_payload : String → ℕ → DeploymentCreate → DockerCommandBuilder
builder_from_payload container_name port payload = record {
  image = payload.image;
  container_name = container_name;
  port = port;
  config = payload.docker_config;
}

abbrev bool_text : Bool → String
bool_text true = "True"
bool_text false = "False"

abbrev pub outcome_of : Result PlanError RedeployPlan → Action RedeployPlan
outcome_of (ok plan) = pure plan
outcome_of (err e) = raise (plan_exception e)

module _ (w : World) (host : Host) (password : String) (secrets : List String) where
  -- `_run_required`; its caller does not read the result.
  unfoldable pub run_redeploy_command : sglang_ops_stack.Remote.Spec.CommandSpec → Action Unit
  run_redeploy_command spec =
      run_operation_command w host password secrets "CONTAINER_START_FAILED" spec

  -- `build_sglang_argv` raises a `ValueError` where the model path is missing.
  unfoldable pub start_replacement : DockerCommandBuilder → Option (List String) → Action Unit
  unfolding run_redeploy_command
  start_replacement b none = raise value_error
  start_replacement b (some argv) = run_redeploy_command (exec_detached b argv)

  -- The commands, in their order.
  unfoldable pub replace_container :
      DockerCommandBuilder → DockerCommandBuilder → DeploymentCreate → Action Unit
  replace_container old new payload = do
    run_redeploy_command (stop old)
    run_redeploy_command (rm_existing old)
    run_redeploy_command (pull new)
    run_redeploy_command (run_detached_idle new)
    start_replacement new (build_sglang_argv payload.sglang_config)

  -- What is written behind a health check without an error.
  unfoldable pub accept : DeploymentCreate → Health → Action Unit
  accept payload health = do
    apply_payload_to_deployment w (some host) payload
    save_health w host password health
    on_deployment (λ d. record d {
      status = healthy_status health.status;
      last_error_code = none;
      last_error_message = none;
    })
    d ← gets (λ s. s.target)
    on_db (save_result (some (redeployed d.id d.current_revision_id d.current_version health)))
    add_operation_log w secrets Level.capital_info (
        "redeploy succeeded revision="
        <> show d.current_version
        <> " status="
        <> deployment_status_text d.status)
    on_db (mark_succeeded w.clock)

  unfoldable pub judge_health : DeploymentCreate → Health → Action Unit
  judge_health payload health = do
    add_operation_log w secrets Level.capital_info
        ("health aggregate status=" <> status_text health.status)
    if is_error health.status
        then raise (job_error "HEALTH_CHECK_FAILED" "Layered health check failed during redeploy")
        else accept payload health

  -- The body of the `try` of `run`
  unfoldable pub redeploy : DeploymentCreate → Bool → Deployment → Action Unit
  unfolding builder_from_payload validate_redeploy plan_exception
  redeploy payload confirm d = do
    on_db (mark_running w.clock)
    plan ← outcome_of (validate_redeploy w.patterns false d payload confirm)
    add_operation_log w secrets Level.capital_info (
        "redeploy starting high_risk="
        <> bool_text plan.high_risk
        <> " confirm_high_risk="
        <> bool_text confirm)
    replace_container (builder_from_payload d.container_name d.port (payload_from_deployment d))
        (builder_from_payload payload.container_name payload.port payload) payload
    health ←
        check_deployment w host password (some (service_url_of host payload.port))
          (some payload.port) d (builder_from_payload payload.container_name payload.port payload)
    judge_health payload health

module _ (w : World) where
  -- The `except` clauses.
  unfoldable pub on_redeploy_failure : DeploymentStatus → Result JobException Unit → Action Unit
  on_redeploy_failure status (ok a) = pure tt
  on_redeploy_failure status (err (job_error error_code message)) =
      fail_at w status error_code message
  on_redeploy_failure status (err (executor (ssh kind message))) = elim kind [
    | SshErrorKind.command_timeout ↦ fail_at w status "COMMAND_TIMEOUT" message
    | _ ↦ fail_at w status "DOCKER_NOT_RUNNING" message
  ]
  on_redeploy_failure status (err e) = raise e

  -- `RedeployJobRunner.run`
  unfoldable pub run_redeploy : Host → String → DeploymentCreate → Bool → Action Unit
  unfolding old_status
  run_redeploy host password payload confirm = do
    d ← gets (λ s. s.target)
    job ← gets (λ s. s.job)
    outcome ← try (redeploy w host password (all_secrets d payload) payload confirm d)
    on_redeploy_failure (old_status job d) outcome
