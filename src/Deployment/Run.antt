-- ===== src/Deployment/Run.antt =====
-- jobs/deployment_jobs.py: the job that starts a deployment on a host.
use sglang_ops_stack.Base.{
  ℕ, String, ◌<>◌, Bool, true, ◌||◌, List, [], ◌∷◌, Option, none, some, ◌==◌, if◌then◌else◌,
}
use sglang_ops_stack.Base.Text.{or_else, strip}
use sglang_ops_stack.Base.Show.{show, show_exit}
use sglang_ops_stack.Base.Exec.{Result, ok, err, pure, raise, gets, modify, try, ◌>>=◌, ◌>>◌}
use sglang_ops_stack.Remote.{CommandResult, exit_allowed, ssh, SshErrorKind}
use sglang_ops_stack.Remote.Spec.{CommandSpec}
use sglang_ops_stack.Masking.{mask_secret}
use sglang_ops_stack.Db.{Host, Level, Deployment, commit}
use sglang_ops_stack.Db.Results.{
  HealthStatus, HealthLayerResult, Health, DeploymentStatus, deployed,
}
use sglang_ops_stack.Jobs.{add_log, save_result, mark_running, mark_succeeded, mark_failed}
use sglang_ops_stack.Deployment.Docker.{
  DockerCommandBuilder, pull, rm_existing, run_detached_idle, exec_detached, inspect_running,
}
use sglang_ops_stack.Deployment.Sglang.{build_sglang_argv}
use sglang_ops_stack.Deployment.Payload.{
  synced_config, docker_builder, deployment_secrets, truncate, port_check_spec,
}
use sglang_ops_stack.Deployment.World.{
  World, JobException, executor, job_error, value_error, Action, on_db, on_deployment, now, send,
}
use sglang_ops_stack.Deployment.Health.{is_error, is_fine, check_deployment}

unfoldable pub status_text : HealthStatus → String
status_text HealthStatus.ok = "OK"
status_text HealthStatus.warn = "WARN"
status_text HealthStatus.error = "ERROR"
status_text HealthStatus.skipped = "SKIPPED"
status_text HealthStatus.unknown = "UNKNOWN"

unfoldable pub deployment_status_text : DeploymentStatus → String
deployment_status_text DeploymentStatus.draft = "draft"
deployment_status_text DeploymentStatus.deploying = "deploying"
deployment_status_text DeploymentStatus.redeploying = "redeploying"
deployment_status_text DeploymentStatus.restarting = "restarting"
deployment_status_text DeploymentStatus.stopping = "stopping"
deployment_status_text DeploymentStatus.starting = "starting"
deployment_status_text DeploymentStatus.running = "running"
deployment_status_text DeploymentStatus.degraded = "degraded"
deployment_status_text DeploymentStatus.stopped = "stopped"
deployment_status_text DeploymentStatus.failed = "failed"

-- `host.environment_status not in (None, "READY", "ready")` is its negation.
unfoldable pub is_ready : Option String → Bool
is_ready none = true
is_ready (some status) = (status == "READY") || (status == "ready")

-- The status that a health check stands for.
abbrev pub healthy_status : HealthStatus → DeploymentStatus
healthy_status status =
    if is_fine status then DeploymentStatus.running else DeploymentStatus.degraded

module _ (w : World) where
  unfoldable pub add_job_log : Level → String → Action Unit
  add_job_log level message = modify (λ s. record s {
    db = add_log w.patterns level (truncate message 1200) (deployment_secrets s.target) s.db;
  })

  unfoldable pub command_excerpt : CommandResult → String
  command_excerpt res =
      "exit_code="
      <> show_exit res.exit_code
      <> " stdout="
      <> w.repr (truncate (strip res.stdout) 500)
      <> " stderr="
      <> w.repr (truncate (strip res.stderr) 500)

  -- Writes the failure into the deployment, and commits.
  unfoldable pub mark_deployment_failed : String → String → Action Unit
  mark_deployment_failed error_code message = do
    on_deployment (λ d. record d {
      status = DeploymentStatus.failed;
      last_error_code = some error_code;
      last_error_message = some message;
    })
    on_db commit

  -- `_fail`
  unfoldable pub fail : String → String → Action Unit
  fail error_code message = do
    safe_message ←
        gets (λ s. mask_secret w.patterns (truncate message 500) (deployment_secrets s.target))
    add_job_log Level.capital_error (error_code <> ": " <> safe_message)
    mark_deployment_failed error_code safe_message
    modify (λ s. record s {
      db =
          mark_failed w.clock w.patterns error_code safe_message (deployment_secrets s.target) s.db;
    })

  unfoldable pub log_layers : List HealthLayerResult → Action Unit
  unfolding status_text
  log_layers [] = pure tt
  log_layers (l ∷ layers) = do
    add_job_log (if is_error l.status then Level.capital_error else Level.capital_info) (
        "health layer " <> l.name <> " status=" <> status_text l.status <> " message=" <> l.message)
    log_layers layers

  module _ (host : Host) (password : String) where
    unfoldable pub judge_port : ℕ → CommandResult → Action Unit
    judge_port port res =
        if exit_allowed res.exit_code (1 ∷ [])
        then (do
          add_job_log Level.capital_error ("deployment.port_check failed " <> command_excerpt res)
          raise (
              job_error "VALIDATION_ERROR"
                ("Target host port " <> show port <> " is already listening")))
        else add_job_log Level.capital_info
            ("deployment.port_check completed " <> command_excerpt res)

    unfoldable pub ensure_port_available : ℕ → Action Unit
    ensure_port_available port = do
      add_job_log Level.capital_info ("deployment.port_check starting port=" <> show port)
      res ← send w host password (port_check_spec port)
      judge_port port res

    unfoldable pub judge_required : CommandSpec → String → CommandResult → Action Unit
    judge_required spec error_code res =
        if exit_allowed res.exit_code spec.allowed_exit_codes
        then add_job_log Level.capital_info (spec.id <> " completed " <> command_excerpt res)
        else (do
          add_job_log Level.capital_error
              (spec.id <> " failed " <> error_code <> " " <> command_excerpt res)
          raise (
              job_error error_code
                (or_else (strip res.stderr) (or_else (strip res.stdout) "command failed"))))

    -- `_run_required`; no caller reads its result.
    unfoldable pub run_required : CommandSpec → String → Action Unit
    run_required spec error_code = do
      add_job_log Level.capital_info (spec.id <> " starting")
      res ← send w host password spec
      judge_required spec error_code res

    unfoldable pub remove_existing_container : Bool → DockerCommandBuilder → Action Unit
    remove_existing_container confirm b =
        if confirm
        then run_required (rm_existing b) "CONTAINER_START_FAILED"
        else raise
            (job_error "VALIDATION_ERROR" "Container removal requires confirm_remove_existing=true")

    unfoldable pub start_server : Option (List String) → DockerCommandBuilder → Action Unit
    start_server none b = raise value_error
    start_server (some argv) b = run_required (exec_detached b argv) "SGLANG_START_FAILED"

    unfoldable pub save_health : Health → Action Unit
    save_health health = do
      on_deployment (λ d. record d { last_health_status = some health })
      time ← now w
      on_deployment (λ d. record d { last_checked_at = some time })

    -- From the status on, all is written behind a health check without an error.
    unfoldable pub finish : Health → Action Unit
    finish health = do
      on_deployment (λ d. record d {
        status = healthy_status health.status;
        last_error_code = none;
        last_error_message = none;
      })
      modify (λ s. record s { db = save_result (some (deployed s.target.id health)) s.db })
      status ← gets (λ s. s.target.status)
      add_job_log Level.capital_info
          ("deployment job succeeded status=" <> deployment_status_text status)
      on_db (mark_succeeded w.clock)

    unfoldable pub conclude : Health → Action Unit
    conclude health = do
      save_health health
      add_job_log Level.capital_info ("health aggregate status=" <> status_text health.status)
      log_layers health.layers
      if is_error health.status
          then raise (job_error "HEALTH_CHECK_FAILED" "Layered health check failed")
          else finish health

    -- The body of the `try` of `run`, on the row as it was when the job began.
    unfoldable pub deploy : Bool → Deployment → Action Unit
    deploy confirm d = do
      if is_ready host.environment_status
          then pure tt
          else raise (
              job_error "VALIDATION_ERROR"
                "Host environment is not READY; run environment check or confirm readiness first")
      ensure_port_available d.port
      run_required (pull (docker_builder d)) "IMAGE_PULL_FAILED"
      if d.docker_config.remove_existing
          then remove_existing_container confirm (docker_builder d)
          else pure tt
      run_required (run_detached_idle (docker_builder d)) "CONTAINER_START_FAILED"
      start_server (build_sglang_argv (synced_config d)) (docker_builder d)
      run_required (inspect_running (docker_builder d)) "CONTAINER_START_FAILED"
      health ← check_deployment w host password none none d (docker_builder d)
      conclude health

    -- The `except` clauses.
    unfoldable pub on_failure : Result JobException Unit → Action Unit
    on_failure (ok a) = pure tt
    on_failure (err (job_error error_code message)) = fail error_code message
    on_failure (err (executor (ssh kind message))) = elim kind [
      | SshErrorKind.command_timeout ↦ fail "COMMAND_TIMEOUT" message
      | _ ↦ fail "DOCKER_NOT_RUNNING" message
    ]
    on_failure (err e) = raise e

    -- `DeploymentJobRunner.run`
    unfoldable pub run : Bool → Action Unit
    run confirm = do
      on_db (mark_running w.clock)
      d ← gets (λ s. s.target)
      add_job_log Level.capital_info ("deployment job starting deployment_id=" <> show d.id)
      outcome ← try (deploy confirm d)
      on_failure outcome
