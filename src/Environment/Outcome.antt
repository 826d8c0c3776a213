-- ===== src/Environment/Outcome.antt =====
-- How a check ends, on every path.
use sglang_ops_stack.Base.{
  String, List, Option, none, some, Bool, true, false, ◌≡◌, refl, ◌⊎◌, inl, inr, not, if◌then◌else◌,
  arith,
}
use sglang_ops_stack.Base.Exec.{Result, ok, err, ◌>>=◌, pure, ◌>>◌}
use sglang_ops_stack.Base.Exec.Keeps.{
  Ends, Triple, Triple-bind, Triple-Keeps, Triple-pure, Triple-gets, Triple-raise, Triple-weaken,
  Triple-modify, Triple-try, Triple-if, Keeps, Keeps-modify,
}
use sglang_ops_stack.Remote.{
  ssh, execution_failed, auth_failed, connect_timeout, command_timeout, invalid_spec, runtime,
  unexpected,
}
use sglang_ops_stack.Db.{JobStatus, Level}
use sglang_ops_stack.Db.Results.{EnvironmentErrorCode, StepId, StepStatus, Step}
use sglang_ops_stack.Jobs.{
  add_log, mark_running, mark_waiting_confirmation, mark_failed, mark_succeeded, save_result,
}
use sglang_ops_stack.Environment.Runner.{
  World, EnvironmentException, executor, env_failure, Runner, log, save, wait_for_confirmation,
  record_failure, note_timeout, append_timeout_step, append_timeout_to, add_step, Action,
  default_notice, on_db, mark_host_failed, fail,
}
use sglang_ops_stack.Environment.Stable.{
  Stable, AllowsProbes, check_ssh-Keeps, check_os-Keeps, check_gpu-Keeps, check_driver-Keeps,
  check_docker-Keeps, check_nvidia_runtime-Keeps, check_container_gpu-Keeps,
}
use sglang_ops_stack.Environment.Run.{check_body, on_exception, finish_check, check}
use sglang_ops_stack.Environment.Checks.{check_nvidia_runtime, check_container_gpu}

-- The job runs, and that is committed.
abbrev pub IsRunning : Runner → Type 0
IsRunning r = (r.job.status ≡ JobStatus.running) × (r.saved.job.status ≡ JobStatus.running)

abbrev pub IsIn : JobStatus → Runner → Type 0
IsIn status r = (r.job.status ≡ status) × (r.saved ≡ r.rows)

module _ (w : World) where
  pub IsRunning-Stable : Stable w IsRunning (λ _. Unit)
  unfolding log add_log
  IsRunning-Stable = record {
    elsewhere = λ r r' job logs saved password sent h. ground arith;
    logging = λ level message. Keeps-modify _ (λ r h. (h.0, h.0));
    sending = λ spec _ r h. h;
  }

  pub all_probes : AllowsProbes (λ _. Unit)
  all_probes = search

  abbrev pub Never : EnvironmentException → Runner → Type 0
  Never e r = ⊥

  pub wait_for_confirmation-IsIn :
      (message : String)
      → Triple
          (λ _. Unit)
          (wait_for_confirmation w message)
          (λ _. IsIn JobStatus.waiting_confirmation)
          Never
  unfolding wait_for_confirmation mark_waiting_confirmation ◌>>=◌ save log add_log save_result
  wait_for_confirmation-IsIn message = record { at = λ r _. (refl, refl) }

  record_failure-IsIn :
      (code : EnvironmentErrorCode) (message : String)
      → Triple (λ _. Unit) (record_failure w code message) (λ _. IsIn JobStatus.failed) Never
  unfolding record_failure mark_failed ◌>>=◌ save log add_log mark_host_failed save_result
  record_failure-IsIn code message = record { at = λ r _. (refl, refl) }

  add_step-returns :
      (id : StepId) (status : StepStatus) (summary : String) (code : Option EnvironmentErrorCode)
      → Triple (λ _. Unit) (add_step id status summary code) (λ _ _. Unit) Never
  unfolding add_step
  add_step-returns id status summary code = Triple-modify _ (λ r h. h)

  append_timeout-returns :
      (current : Option StepId) (steps : List Step)
      → Triple (λ _. Unit) (append_timeout_to w current steps) (λ _ _. Unit) Never
  unfolding append_timeout_to
  append_timeout-returns none steps = Triple-pure tt
  append_timeout-returns (some id) steps =
      Triple-if _ _ _ (Triple-pure tt) (add_step-returns id _ _ _)

  note_timeout-returns :
      (code : EnvironmentErrorCode) → Triple (λ _. Unit) (note_timeout w code) (λ _ _. Unit) Never
  unfolding note_timeout append_timeout_step
  note_timeout-returns code =
      Triple-if _ _ _
        (Triple-bind _ _ (Triple-gets _ (λ r h. h))
          (λ current. Triple-bind _ _ (Triple-gets _ (λ r h. h)) (append_timeout-returns current)))
        (Triple-pure tt)

  pub fail-IsIn :
      (code : EnvironmentErrorCode) (message : String)
      → Triple (λ _. Unit) (fail w code message) (λ _. IsIn JobStatus.failed) Never
  unfolding fail
  fail-IsIn code message =
      Triple-bind _ _ (note_timeout-returns code) (λ _. record_failure-IsIn code message)

  -- What the body of the `try` leaves: the job still runs, or it waits, and that is committed.
  abbrev pub Body : Bool → Runner → Type 0
  Body true r = IsRunning r
  Body false r = IsIn JobStatus.waiting_confirmation r

  abbrev pub StillRuns : EnvironmentException → Runner → Type 0
  StillRuns e r = IsRunning r

  pub Keeps-IsRunning :
      {A : Type 0} (m : Action A)
      → Keeps IsRunning m
      → Triple IsRunning m (λ _ r. IsRunning r) StillRuns
  Keeps-IsRunning m k = Triple-Keeps m k

  wait-Body :
      (message : String)
      → Triple IsRunning (do wait_for_confirmation w message; pure false) Body StillRuns
  wait-Body message =
      Triple-bind _ _
        (Triple-weaken _ (λ r h. tt) (λ a r h. h) (λ e r h. absurd h)
          (wait_for_confirmation-IsIn message))
        (λ _. Triple-pure {Q = Body} false)

  pub check_body-Body : Triple IsRunning (check_body w) Body StillRuns
  unfolding check_body
  check_body-Body =
      Triple-bind _ _ (Keeps-IsRunning _ (check_ssh-Keeps IsRunning-Stable all_probes)) λ _.
        Triple-bind _ _ (Keeps-IsRunning _ (check_os-Keeps IsRunning-Stable all_probes)) λ _.
          Triple-bind _ _ (Keeps-IsRunning _ (check_gpu-Keeps IsRunning-Stable all_probes)) λ _.
            Triple-bind _ _ (Keeps-IsRunning _ (check_driver-Keeps IsRunning-Stable all_probes))
              λ _. Triple-if _ _ _ (wait-Body _) (
                Triple-bind _ _ (Keeps-IsRunning _ (check_docker-Keeps IsRunning-Stable all_probes))
                  λ _. Triple-if _ _ _ (wait-Body _) from_runtime)
    where
      from_runtime :
          Triple IsRunning
            (do
              configured ← check_nvidia_runtime w
              if not configured
                  then (do wait_for_confirmation w (default_notice w); pure false)
                  else (do check_container_gpu w; pure true))
            Body
            StillRuns
      from_runtime =
          Triple-bind _ _
            (Keeps-IsRunning _ (check_nvidia_runtime-Keeps IsRunning-Stable all_probes))
            λ _. Triple-if _ _ _ (wait-Body _) (
              Triple-bind _ _
                (Keeps-IsRunning _ (check_container_gpu-Keeps IsRunning-Stable all_probes))
                (λ _. Triple-pure {Q = Body} true))

-- What no `except` clause names: the `ValueError` of `validate`, and exceptions of other classes.
abbrev pub IsUncaught : EnvironmentException → Type 0
IsUncaught (executor (invalid_spec e)) = Unit
IsUncaught (executor (unexpected message)) = Unit
IsUncaught _ = ⊥

abbrev pub IsSettled : Runner → Type 0
IsSettled r =
    ((r.job.status ≡ JobStatus.succeeded)
      ⊎ ((r.job.status ≡ JobStatus.failed) ⊎ (r.job.status ≡ JobStatus.waiting_confirmation)))
    × (r.saved ≡ r.rows)

abbrev pub IsStuck : EnvironmentException → Runner → Type 0
IsStuck e r = IsUncaught e × IsRunning r

module _ (w : World) where
  caught :
      (code : EnvironmentErrorCode) (message : String)
      → Triple IsRunning (fail w code message) (λ _. IsIn JobStatus.failed) IsStuck
  caught code message =
      Triple-weaken _ (λ r h. tt) (λ _ r h. h) (λ e r h. absurd h) (fail-IsIn w code message)

  pub on_exception-fails :
      (e : EnvironmentException)
      → Triple IsRunning (on_exception w e) (λ _. IsIn JobStatus.failed) IsStuck
  unfolding on_exception
  on_exception-fails (executor (ssh auth_failed m)) = caught _ _
  on_exception-fails (executor (ssh command_timeout m)) = caught _ _
  on_exception-fails (executor (ssh execution_failed m)) = caught _ _
  on_exception-fails (executor (ssh connect_timeout m)) = caught _ _
  on_exception-fails (executor (runtime m)) = caught _ _
  on_exception-fails (env_failure code m) = caught _ _
  on_exception-fails (executor (invalid_spec e)) = Triple-raise _ (λ r h. (tt, h))
  on_exception-fails (executor (unexpected m)) = Triple-raise _ (λ r h. (tt, h))

  pub on_exception-settles :
      (e : EnvironmentException) → Triple IsRunning (on_exception w e) (λ _. IsSettled) IsStuck
  on_exception-settles e =
      Triple-weaken _ (λ r h. h) (λ _ r h. (inr (inl h.0), h.1)) (λ e r h. h) (on_exception-fails e)

  finish_check-settles :
      (outcome : Result EnvironmentException Bool)
      → Triple
          (Ends (Body w) (StillRuns w) outcome)
          (finish_check w outcome)
          (λ _. IsSettled)
          IsStuck
  unfolding finish_check mark_succeeded save log add_log save_result ◌>>=◌
  finish_check-settles (err e) = on_exception-settles e
  finish_check-settles (ok false) = record { at = λ r h. (inr (inr h.0), h.1) }
  finish_check-settles (ok true) = record { at = λ r h. (inl refl, refl) }

  pub mark_running-IsRunning :
      Triple (λ _. Unit) (on_db (mark_running w.clock)) (λ _. IsRunning) IsStuck
  unfolding mark_running
  mark_running-IsRunning = Triple-modify _ (λ r _. (refl, refl))

  pub log-IsRunning :
      (level : Level) (message : String)
      → Triple IsRunning (log w level message) (λ _. IsRunning) IsStuck
  unfolding log add_log
  log-IsRunning level message = Triple-modify _ (λ r h. (h.0, h.0))

  -- A check that returns leaves a job that succeeded, failed or waits for the confirmation, and
  -- has committed all it wrote, whatever the host answered. One that raises has met an exception
  -- that no clause names, and leaves the job running, in the database too.
  pub check-settles : (r : Runner) → Ends (λ _. IsSettled) IsStuck (check w r).0 (check w r).1
  unfolding check
  check-settles r =
      (Triple-bind _ _ mark_running-IsRunning λ _.
          Triple-bind _ _ (Triple-gets _ (λ s h. h)) λ host.
            Triple-bind _ _ (log-IsRunning _ _)
              λ _. Triple-bind _ _ (Triple-try _ (check_body-Body w)) finish_check-settles).at
        r tt
