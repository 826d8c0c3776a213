-- ===== src/Operation/Outcome.antt =====
-- How an operation on a deployment ends.
use sglang_ops_stack.Base.{
  String, Bool, true, false, List, Option, none, some, ◌≡◌, refl, ◌⊎◌, inl, inr, if◌then◌else◌,
}
use sglang_ops_stack.Base.Exec.{Result, ok, err, raise, ◌>>=◌}
use sglang_ops_stack.Base.Exec.Keeps.{
  Ends, Triple, Triple-bind, Triple-pure, Triple-raise, Triple-modify, Triple-gets, Triple-try,
  Keeps-modify,
}
use sglang_ops_stack.Remote.{
  ssh, execution_failed, auth_failed, connect_timeout, command_timeout, invalid_spec, runtime,
  unexpected,
}
use sglang_ops_stack.Db.{Host, Deployment, JobStatus}
use sglang_ops_stack.Db.Results.{Health, OperationName, DeploymentStatus}
use sglang_ops_stack.Jobs.{add_log, save_result, mark_running, mark_succeeded, mark_failed}
use sglang_ops_stack.Deployment.Payload.{docker_builder}
use sglang_ops_stack.Deployment.World.{
  World, JobException, executor, job_error, request_failed, value_error, JobState, now,
}
use sglang_ops_stack.Deployment.Health.{is_error}
use sglang_ops_stack.Deployment.Run.{healthy_status}
use sglang_ops_stack.Deployment.Steady.{save_health-Keeps, check_deployment-Keeps}
use sglang_ops_stack.Deployment.Outcome.{
  IsWorking, IsHealthy, IsAbandoned, IsWorking-Steady, kept, stopped, healthy,
}
use sglang_ops_stack.Operation.Guards.{operation_secrets}
use sglang_ops_stack.Operation.Steady.{Logging, run_operation_command-Keeps}
use sglang_ops_stack.Operation.Run.{
  add_operation_log, failed_result, fail_at, write_failure, fail_operation, finish_operation,
  conclude_operation, verify_operation, operate, on_operation_failure, run_operation, spec_for,
}

-- The status that a deployment has behind an operation that succeeded.
abbrev pub Fits : OperationName → DeploymentStatus → Type 0
Fits OperationName.stop status = status ≡ DeploymentStatus.stopped
Fits _ status = IsHealthy status

abbrev pub IsOperated : OperationName → JobState → Type 0
IsOperated operation s =
    (((s.job.status ≡ JobStatus.succeeded) × Fits operation s.target.status)
      ⊎ ((s.job.status ≡ JobStatus.failed) × (s.target.status ≡ DeploymentStatus.failed)))
    × (s.saved ≡ s.rows)

module _ (w : World) (status : DeploymentStatus) where
  write_failure-IsOperated :
      (operation : OperationName) (secrets : List String) (error_code message : String)
      → Triple
          (λ _. Unit)
          (write_failure w DeploymentStatus.failed secrets error_code message)
          (λ _. IsOperated operation)
          (IsAbandoned status)
  unfolding write_failure add_operation_log add_log mark_failed ◌>>=◌
  write_failure-IsOperated operation secrets error_code message = record {
    at = λ s h. (inr (refl, refl), refl);
  }

  fail_operation-IsOperated :
      (operation : OperationName) (error_code message : String)
      → Triple
          (λ _. Unit)
          (fail_operation w error_code message)
          (λ _. IsOperated operation)
          (IsAbandoned status)
  unfolding fail_operation fail_at failed_result now ◌>>=◌
  fail_operation-IsOperated operation error_code message = record {
    at = λ s h. (write_failure-IsOperated operation _ error_code _).at _ tt;
  }

  failing :
      (operation : OperationName) (error_code message : String)
      → Triple
          (IsWorking status)
          (fail_operation w error_code message)
          (λ _. IsOperated operation)
          (IsAbandoned status)
  failing operation error_code message = record {
    at = λ s h. (fail_operation-IsOperated operation error_code message).at s tt;
  }

  on_operation_failure-IsOperated :
      (operation : OperationName) (outcome : Result JobException Unit)
      → Triple
          (Ends (λ _. IsOperated operation) (λ _. IsWorking status) outcome)
          (on_operation_failure w outcome)
          (λ _. IsOperated operation)
          (IsAbandoned status)
  unfolding on_operation_failure
  on_operation_failure-IsOperated op (ok a) = Triple-pure tt
  on_operation_failure-IsOperated op (err (job_error error_code message)) = failing op _ _
  on_operation_failure-IsOperated op (err (executor (ssh execution_failed m))) = failing op _ _
  on_operation_failure-IsOperated op (err (executor (ssh auth_failed m))) = failing op _ _
  on_operation_failure-IsOperated op (err (executor (ssh connect_timeout m))) = failing op _ _
  on_operation_failure-IsOperated op (err (executor (ssh command_timeout m))) = failing op _ _
  on_operation_failure-IsOperated op (err (executor (invalid_spec e))) =
      Triple-raise _ (λ s h. (tt, h))
  on_operation_failure-IsOperated op (err (executor (runtime m))) = Triple-raise _ (λ s h. (tt, h))
  on_operation_failure-IsOperated op (err (executor (unexpected m))) =
      Triple-raise _ (λ s h. (tt, h))
  on_operation_failure-IsOperated op (err request_failed) = Triple-raise _ (λ s h. (tt, h))
  on_operation_failure-IsOperated op (err value_error) = Triple-raise _ (λ s h. (tt, h))

  module _ (host : Host) (password : String) (secrets : List String) where
    logging : Logging w (IsWorking status)
    unfolding add_operation_log add_log
    logging secrets level message = Keeps-modify _ (λ s h. (h.0, h.0, h.2))

    finish_operation-IsOperated :
        (operation : OperationName) (reached : DeploymentStatus) (health : Option Health)
        → Fits operation reached
        → Triple
            (IsWorking status)
            (finish_operation w host password secrets operation reached health)
            (λ _. IsOperated operation)
            (λ _. IsWorking status)
    unfolding finish_operation save_result add_operation_log add_log mark_succeeded ◌>>=◌
    finish_operation-IsOperated operation reached health fits = record {
      at = λ s h. (inl (refl, fits), refl);
    }

    conclude_operation-IsOperated :
        (operation : OperationName) (health : Health)
        → Fits operation (healthy_status health.status)
        → Triple
            (IsWorking status)
            (conclude_operation w host password secrets operation health)
            (λ _. IsOperated operation)
            (λ _. IsWorking status)
    unfolding conclude_operation
    conclude_operation-IsOperated operation health fits =
        Triple-bind _ _
          (kept _
            (save_health-Keeps (IsWorking-Steady w host password status) host password health))
          λ _. Triple-bind _ _ (kept _ (logging _ _ _)) (λ _. judged (is_error health.status))
      where
        judged :
            (b : Bool)
            → Triple
                (IsWorking status)
                (if b
                  then raise (job_error "HEALTH_CHECK_FAILED" "Layered health check failed")
                  else finish_operation w host password secrets operation
                      (healthy_status health.status)
                      (some health))
                (λ _. IsOperated operation)
                (λ _. IsWorking status)
        judged true = stopped (λ _. IsOperated operation) _
        judged false = finish_operation-IsOperated operation _ _ fits

    checked :
        (operation : OperationName) (d : Deployment)
        → ((health : Health) → Fits operation (healthy_status health.status))
        → Triple
            (IsWorking status)
            (do
              health ←
                  sglang_ops_stack.Deployment.Health.check_deployment w host password none none d
                    (docker_builder d)
              conclude_operation w host password secrets operation health)
            (λ _. IsOperated operation)
            (λ _. IsWorking status)
    checked operation d fits =
        Triple-bind _ _
          (kept _ (
            check_deployment-Keeps (IsWorking-Steady w host password status) host password d _ tt tt
              tt none none))
          (λ health. conclude_operation-IsOperated operation health (fits health))

    verify_operation-IsOperated :
        (operation : OperationName) (d : Deployment)
        → Triple
            (IsWorking status)
            (verify_operation w host password secrets operation d)
            (λ _. IsOperated operation)
            (λ _. IsWorking status)
    unfolding verify_operation
    verify_operation-IsOperated OperationName.stop d =
        finish_operation-IsOperated OperationName.stop _ _ refl
    verify_operation-IsOperated OperationName.restart d =
        checked OperationName.restart d (λ h. healthy w host password status h.status)
    verify_operation-IsOperated OperationName.start d =
        checked OperationName.start d (λ h. healthy w host password status h.status)

    operate-IsOperated :
        (operation : OperationName) (d : Deployment)
        → Triple
            (λ s. s.target.status ≡ status)
            (operate w host password secrets operation d)
            (λ _. IsOperated operation)
            (λ _. IsWorking status)
    unfolding operate mark_running
    operate-IsOperated operation d =
        Triple-bind _ _ (Triple-modify {Q = IsWorking status} _ (λ s h. (refl, refl, h))) λ _.
          Triple-bind _ _ (kept _ (logging _ _ _)) λ _.
            Triple-bind _ _
              (kept _ (
                run_operation_command-Keeps (IsWorking-Steady w host password status) logging host
                  password secrets _ (spec_for operation (docker_builder d)) tt))
              (λ _. verify_operation-IsOperated operation d)

  pub run_operation-IsOperated :
      (host : Host) (password : String) (operation : OperationName)
      → Triple
          (λ s. s.target.status ≡ status)
          (run_operation w host password operation)
          (λ _. IsOperated operation)
          (IsAbandoned status)
  unfolding run_operation
  run_operation-IsOperated host password operation =
      Triple-bind {Q = λ _ s. s.target.status ≡ status} _ _ (Triple-gets _ (λ s h. h)) λ d.
        Triple-bind _ _
          (Triple-try _ (operate-IsOperated host password (operation_secrets d) operation d))
          (on_operation_failure-IsOperated operation)

-- The job of an operation that returns has succeeded, with a deployment that is stopped behind a
-- stop and running or degraded behind the others, or both have failed; all is committed. One that
-- raises has met an exception that no clause names, leaves the job running and the deployment at
-- its former status.
pub run_operation-finishes :
    (w : World) (host : Host) (password : String) (operation : OperationName) (s : JobState)
    → Ends
        (λ _. IsOperated operation)
        (IsAbandoned s.target.status)
        (run_operation w host password operation s).0
        (run_operation w host password operation s).1
run_operation-finishes w host password operation s =
    (run_operation-IsOperated w s.target.status host password operation).at s refl
