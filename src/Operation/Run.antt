-- ===== src/Operation/Run.antt =====
-- jobs/operation_jobs.py: the job that restarts, stops or starts a deployment.
use sglang_ops_stack.Base.{String, ◌<>◌, false, List, Option, none, some, if◌then◌else◌}
use sglang_ops_stack.Base.Text.{or_else, strip, take_chars}
use sglang_ops_stack.Base.Show.{pos}
use sglang_ops_stack.Base.Exec.{Result, ok, err, pure, raise, gets, modify, try, ◌>>=◌, ◌>>◌}
use sglang_ops_stack.Remote.{CommandResult, exit_allowed, ssh, SshErrorKind}
use sglang_ops_stack.Remote.Spec.{CommandSpec}
use sglang_ops_stack.Db.{Host, Level, Deployment, commit}
use sglang_ops_stack.Db.Results.{Health, OperationName, DeploymentStatus, operated}
use sglang_ops_stack.Jobs.{add_log, save_result, mark_running, mark_succeeded, mark_failed}
use sglang_ops_stack.Deployment.Docker.{DockerCommandBuilder, restart, stop, start}
use sglang_ops_stack.Deployment.Payload.{docker_builder}
use sglang_ops_stack.Deployment.World.{
  World, JobException, executor, job_error, Action, on_db, on_deployment, now, send,
}
use sglang_ops_stack.Deployment.Health.{is_error, check_deployment}
use sglang_ops_stack.Deployment.Run.{
  status_text, deployment_status_text, healthy_status, save_health,
}
use sglang_ops_stack.Operation.Guards.{operation_secrets, result_excerpt}

unfoldable pub operation_text : OperationName → String
operation_text OperationName.restart = "restart"
operation_text OperationName.stop = "stop"
operation_text OperationName.start = "start"

-- `_spec_for`
unfoldable pub spec_for : OperationName → DockerCommandBuilder → CommandSpec
spec_for OperationName.restart b = restart b
spec_for OperationName.stop b = stop b
spec_for OperationName.start b = start b

module _ (w : World) where
  -- `_add_log`
  unfoldable pub add_operation_log : List String → Level → String → Action Unit
  add_operation_log secrets level message =
      modify
        (λ s. record s { db = add_log w.patterns level (take_chars 1200 message) secrets s.db })

  -- The result that `_fail` makes of a message.
  unfoldable pub failed_result : String → Action CommandResult
  failed_result message = do
    started_at ← now w
    finished_at ← now w
    pure (record {
      exit_code = some (pos 1);
      stdout = message;
      stderr = "";
      timed_out = false;
      started_at = started_at;
      finished_at = finished_at;
    })

  unfoldable pub write_failure : DeploymentStatus → List String → String → String → Action Unit
  write_failure status secrets error_code safe_message = do
    add_operation_log secrets Level.capital_error (error_code <> ": " <> safe_message)
    on_deployment (λ d. record d {
      status = status;
      last_error_code = some error_code;
      last_error_message = some safe_message;
    })
    on_db commit
    modify
        (λ s. record s { db = mark_failed w.clock w.patterns error_code safe_message secrets s.db })

  -- `_fail`, with the status that the deployment is left at
  unfoldable pub fail_at : DeploymentStatus → String → String → Action Unit
  fail_at status error_code message = do
    secrets ← gets (λ s. operation_secrets s.target)
    res ← failed_result message
    write_failure status secrets error_code (result_excerpt w.patterns w.repr res secrets)

  unfoldable pub fail_operation : String → String → Action Unit
  unfolding fail_at
  fail_operation = fail_at DeploymentStatus.failed

  module _ (host : Host) (password : String) (secrets : List String) where
    unfoldable pub judge_operation : String → CommandSpec → CommandResult → Action Unit
    judge_operation error_code spec res =
        if exit_allowed res.exit_code spec.allowed_exit_codes
        then add_operation_log secrets Level.capital_info
            (spec.id <> " completed " <> result_excerpt w.patterns w.repr res secrets)
        else (do
          add_operation_log secrets Level.capital_error
              (spec.id <> " failed " <> result_excerpt w.patterns w.repr res secrets)
          raise (
              job_error error_code
                (or_else (strip res.stderr) (or_else (strip res.stdout) "command failed"))))

    -- `_run_required`; no caller reads its result.
    unfoldable pub run_operation_command : String → CommandSpec → Action Unit
    run_operation_command error_code spec = do
      add_operation_log secrets Level.capital_info (spec.id <> " starting")
      res ← send w host password spec
      judge_operation error_code spec res

    -- What is written where the operation succeeded.
    unfoldable pub finish_operation : OperationName → DeploymentStatus → Option Health → Action Unit
    finish_operation operation status health = do
      on_deployment
          (λ d. record d { status = status; last_error_code = none; last_error_message = none })
      modify (λ s. record s { db = save_result (some (operated operation status health)) s.db })
      add_operation_log secrets Level.capital_info (
          "operation "
          <> operation_text operation
          <> " succeeded status="
          <> deployment_status_text status)
      on_db (mark_succeeded w.clock)

    unfoldable pub conclude_operation : OperationName → Health → Action Unit
    conclude_operation operation health = do
      save_health w host password health
      add_operation_log secrets Level.capital_info
          ("health aggregate status=" <> status_text health.status)
      if is_error health.status
          then raise (job_error "HEALTH_CHECK_FAILED" "Layered health check failed")
          else finish_operation operation (healthy_status health.status) (some health)

    -- What follows the command.
    unfoldable pub verify_operation : OperationName → Deployment → Action Unit
    verify_operation OperationName.stop d =
        finish_operation OperationName.stop DeploymentStatus.stopped none
    verify_operation operation d = do
      health ← check_deployment w host password none none d (docker_builder d)
      conclude_operation operation health

    -- The body of the `try` of `run`
    unfoldable pub operate : OperationName → Deployment → Action Unit
    unfolding spec_for
    operate operation d = do
      on_db (mark_running w.clock)
      add_operation_log secrets Level.capital_info
          ("operation " <> operation_text operation <> " starting")
      run_operation_command "CONTAINER_OPERATION_FAILED" (spec_for operation (docker_builder d))
      verify_operation operation d

  -- The `except` clauses.
  unfoldable pub on_operation_failure : Result JobException Unit → Action Unit
  on_operation_failure (ok a) = pure tt
  on_operation_failure (err (job_error error_code message)) = fail_operation error_code message
  on_operation_failure (err (executor (ssh kind message))) = elim kind [
    | SshErrorKind.command_timeout ↦ fail_operation "COMMAND_TIMEOUT" message
    | _ ↦ fail_operation "DOCKER_NOT_RUNNING" message
  ]
  on_operation_failure (err e) = raise e

  -- `OperationJobRunner.run`
  unfoldable pub run_operation : Host → String → OperationName → Action Unit
  run_operation host password operation = do
    d ← gets (λ s. s.target)
    outcome ← try (operate host password (operation_secrets d) operation d)
    on_operation_failure outcome
