-- ===== src/Environment/Run.antt =====
-- services/environment/runner.py: `check` and `confirm_install`.
use sglang_ops_stack.Base.{◌<>◌, Bool, true, false, not, some, if◌then◌else◌}
use sglang_ops_stack.Base.Text.{or_else}
use sglang_ops_stack.Base.Exec.{Result, ok, err, pure, raise, gets, modify, try, ◌>>=◌, ◌>>◌}
use sglang_ops_stack.Remote.{
  ssh, execution_failed, auth_failed, connect_timeout, command_timeout, invalid_spec, runtime,
  unexpected,
}
use sglang_ops_stack.Db.{info, CheckStatus, commit}
use sglang_ops_stack.Db.Results.{EnvironmentErrorCode, ssh_connect_failed}
use sglang_ops_stack.Jobs.{mark_running, mark_succeeded}
use sglang_ops_stack.Environment.Runner.{
  World, EnvironmentException, executor, env_failure, Action, on_host, on_db, log, save,
  default_notice, wait_for_confirmation, fail,
}
use sglang_ops_stack.Environment.Checks.{
  check_ssh, check_os, check_gpu, check_driver, check_docker, check_or_install_docker,
  check_nvidia_runtime, check_or_install_runtime, check_container_gpu,
}

module _ (w : World) where
  -- The body of the `try` of `check`: whether it came to its end.
  unfoldable pub check_body : Action Bool
  check_body = do
    check_ssh w
    check_os w
    check_gpu w
    driver ← check_driver w
    if not driver
        then (do
          wait_for_confirmation w
              "Environment check requires NVIDIA driver remediation before continuing"
          pure false)
        else (do
          docker ← check_docker w
          if not docker then (do wait_for_confirmation w (default_notice w); pure false) else (do
            configured ← check_nvidia_runtime w
            if not configured
                then (do wait_for_confirmation w (default_notice w); pure false)
                else (do check_container_gpu w; pure true)))

  -- The body of the `try` of `confirm_install`.
  unfoldable pub install_body : Action Bool
  install_body = do
    check_ssh w
    check_os w
    check_gpu w
    driver ← check_driver w
    if not driver
        then (do
          wait_for_confirmation w
              "NVIDIA driver still requires manual remediation and reboot before continuing"
          pure false)
        else (do
          docker ← check_or_install_docker w
          if not docker then pure false else (do
            configured ← check_or_install_runtime w
            if not configured then pure false else (do check_container_gpu w; pure true)))

  -- The `except` clauses, which both methods have. What none of them names is raised again.
  unfoldable pub on_exception : EnvironmentException → Action Unit
  on_exception (executor (ssh auth_failed message)) =
      fail w ssh_connect_failed (or_else message "SSH authentication failed")
  on_exception (executor (ssh command_timeout message)) =
      fail w EnvironmentErrorCode.command_timeout (or_else message "Remote command timed out")
  on_exception (executor (ssh execution_failed message)) =
      fail w ssh_connect_failed (or_else message "SSH execution failed")
  on_exception (executor (ssh connect_timeout message)) =
      fail w ssh_connect_failed (or_else message "SSH execution failed")
  on_exception (executor (runtime message)) = fail w ssh_connect_failed message
  on_exception (env_failure code message) = fail w code message
  on_exception (executor (invalid_spec e)) = raise (executor (invalid_spec e))
  on_exception (executor (unexpected message)) = raise (executor (unexpected message))

  unfoldable pub finish_check : Result EnvironmentException Bool → Action Unit
  finish_check (err e) = on_exception e
  finish_check (ok false) = pure tt
  finish_check (ok true) = do
    modify (on_host (λ h. record h { last_check_status = some CheckStatus.succeeded }))
    on_db commit
    save w
    log w info "Environment check succeeded"
    on_db (mark_succeeded w.clock)

  unfoldable pub check : Action Unit
  check = do
    on_db (mark_running w.clock)
    host ← gets (λ r. r.target)
    log w info ("Starting environment check for host " <> host.name <> " (" <> host.ip <> ")")
    outcome ← try check_body
    finish_check outcome

  unfoldable pub finish_install : Result EnvironmentException Bool → Action Unit
  finish_install (err e) = on_exception e
  finish_install (ok false) = pure tt
  finish_install (ok true) = do
    save w
    log w info "Environment installation and verification succeeded"
    on_db (mark_succeeded w.clock)

  unfoldable pub confirm_install : Action Unit
  confirm_install = do
    on_db (mark_running w.clock)
    log w info "User confirmed environment installation risk plan"
    outcome ← try install_body
    finish_install outcome
