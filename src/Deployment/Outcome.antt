-- ===== src/Deployment/Outcome.antt =====
-- How a deployment job ends, on every path.
use sglang_ops_stack.Base.{
  ℕ, String, Bool, true, false, List, none, ◌≡◌, refl, ◌⊎◌, inl, inr, arith, if◌then◌else◌,
}
use sglang_ops_stack.Base.Exec.{Result, ok, err, pure, raise, ◌>>=◌}
use sglang_ops_stack.Base.Exec.Keeps.{
  Ends, Triple, Triple-bind, Triple-Keeps, Triple-pure, Triple-raise, Triple-if, Triple-modify,
  Triple-gets, Triple-try, Keeps, Keeps-modify,
}
use sglang_ops_stack.Remote.{
  ssh, execution_failed, auth_failed, connect_timeout, command_timeout, invalid_spec, runtime,
  unexpected,
}
use sglang_ops_stack.Remote.Spec.{CommandSpec}
use sglang_ops_stack.Db.{Host, Level, Deployment, JobStatus}
use sglang_ops_stack.Db.Results.{HealthStatus, Health, DeploymentStatus}
use sglang_ops_stack.Jobs.{add_log, save_result, mark_running, mark_succeeded, mark_failed}
use sglang_ops_stack.Deployment.Docker.{
  DockerCommandBuilder, pull, rm_existing, run_detached_idle, exec_detached, inspect_running, ps,
  process_check,
}
use sglang_ops_stack.Deployment.Sglang.{build_sglang_argv}
use sglang_ops_stack.Deployment.Payload.{docker_builder, port_check_spec, synced_config}
use sglang_ops_stack.Deployment.World.{
  World, JobException, executor, job_error, request_failed, value_error, JobState, Action,
}
use sglang_ops_stack.Deployment.Health.{is_error}
use sglang_ops_stack.Deployment.Run.{
  add_job_log, remove_existing_container, finish, conclude, deploy, on_failure, run, fail,
  mark_deployment_failed, is_ready, run_required, healthy_status,
}
use sglang_ops_stack.Deployment.Steady.{
  Steady, ensure_port_available-Keeps, run_required-Keeps, start_server-Keeps, save_health-Keeps,
  check_deployment-Keeps, log_layers-Keeps,
}

-- The commands that the job of a deployment may send: the removal of a container where the
-- configuration asks for it and the request confirms it.
pub record AllowsDeploy (Allowed : CommandSpec → Type 0) (confirm : Bool) (d : Deployment)
    : Type 0 where
  pub port_check : (port : ℕ) → Allowed (port_check_spec port)
  pub pulling : Allowed (pull (docker_builder d))
  pub removing :
      d.docker_config.remove_existing ≡ true
      → confirm ≡ true
      → Allowed (rm_existing (docker_builder d))
  pub idle : Allowed (run_detached_idle (docker_builder d))
  pub starting : (words : List String) → Allowed (exec_detached (docker_builder d) words)
  pub inspecting : Allowed (inspect_running (docker_builder d))
  pub listing : Allowed (ps (docker_builder d))
  pub finding : Allowed (process_check (docker_builder d))

module _ {P : JobState → Type 0} where
  pub kept : {A : Type 0} (m : Action A) → Keeps P m → Triple P m (λ _ s. P s) (λ _ s. P s)
  kept m k = Triple-Keeps m k

  pub stopped :
      {A : Type 0} (Q : A → JobState → Type 0) (e : JobException)
      → Triple P (raise e) Q (λ _ s. P s)
  stopped Q e = Triple-raise {R = λ _ s. P s} e (λ s h. h)

module _ {w : World} {P : JobState → Type 0} {Allowed : CommandSpec → Type 0}
    (steady : Steady w P Allowed) (host : Host) (password : String) where
  removal :
      (confirm : Bool) (b : DockerCommandBuilder)
      → (confirm ≡ true → Allowed (rm_existing b))
      → Triple P (remove_existing_container w host password confirm b) (λ _ s. P s) (λ _ s. P s)
  unfolding remove_existing_container
  removal true b allowed = kept _ (run_required-Keeps steady host password _ _ (allowed refl))
  removal false b allowed = stopped (λ _ s. P s) _

  removal_if :
      (wanted confirm : Bool) (b : DockerCommandBuilder)
      → (wanted ≡ true → confirm ≡ true → Allowed (rm_existing b))
      → Triple P
          (if wanted then remove_existing_container w host password confirm b else pure tt)
          (λ _ s. P s)
          (λ _ s. P s)
  removal_if true confirm b allowed = removal confirm b (allowed refl)
  removal_if false confirm b allowed = Triple-pure {Q = λ _ s. P s} tt

  -- A run of the body is its last step behind steps that keep the property.
  pub deploy-by_conclude :
      (confirm : Bool) (d : Deployment) (Q : Unit → JobState → Type 0)
      → AllowsDeploy Allowed confirm d
      → ((health : Health) → Triple P (conclude w host password health) Q (λ _ s. P s))
      → Triple P (deploy w host password confirm d) Q (λ _ s. P s)
  unfolding deploy
  deploy-by_conclude confirm d Q allowed last =
      let required : (spec : CommandSpec) (code : String)
          → Allowed spec
          → Triple P (run_required w host password spec code) (λ _ s. P s) (λ _ s. P s) =
        λ spec code a. kept _ (run_required-Keeps steady host password spec code a) in
      Triple-bind _ _
        (Triple-if {Q = λ _ s. P s} (is_ready host.environment_status) _ _
          (Triple-pure {Q = λ _ s. P s} tt) (stopped (λ _ s. P s) _))
        λ _.
          Triple-bind _ _
            (kept _
              (ensure_port_available-Keeps steady host password d.port (allowed.port_check d.port)))
            λ _. Triple-bind _ _ (required _ _ allowed.pulling) λ _.
              Triple-bind _ _
                (removal_if d.docker_config.remove_existing confirm _ allowed.removing)
                λ _. Triple-bind _ _ (required _ _ allowed.idle) λ _.
                  Triple-bind _ _
                    (kept _ (
                      start_server-Keeps steady host password (build_sglang_argv (synced_config d))
                        _ allowed.starting))
                    λ _. Triple-bind _ _ (required _ _ allowed.inspecting) λ _.
                      Triple-bind _ _
                        (kept _ (
                          check_deployment-Keeps steady host password d _ allowed.listing
                            allowed.inspecting allowed.finding none none))
                        last

  pub conclude-by_finish :
      (health : Health) (Q : Unit → JobState → Type 0)
      → (is_error health.status ≡ false → Triple P (finish w host password health) Q (λ _ s. P s))
      → Triple P (conclude w host password health) Q (λ _ s. P s)
  unfolding conclude
  conclude-by_finish health Q last =
      Triple-bind _ _ (kept _ (save_health-Keeps steady host password health)) λ _.
        Triple-bind _ _ (kept _ (steady.logging _ _)) λ _.
          Triple-bind _ _ (kept _ (log_layers-Keeps steady health.layers))
            λ _. judged (is_error health.status) refl
    where
      judged :
          (b : Bool)
          → is_error health.status ≡ b
          → Triple P
              (if b
                then raise (job_error "HEALTH_CHECK_FAILED" "Layered health check failed")
                else finish w host password health)
              Q
              (λ _ s. P s)
      judged true e = stopped Q _
      judged false e = last e

-- The job runs, the deployment has the status it had, and that is committed.
abbrev pub IsWorking : DeploymentStatus → JobState → Type 0
IsWorking status s =
    (s.job.status ≡ JobStatus.running)
    × (s.saved.job.status ≡ JobStatus.running)
    × (s.target.status ≡ status)

abbrev pub IsHealthy : DeploymentStatus → Type 0
IsHealthy status = (status ≡ DeploymentStatus.running) ⊎ (status ≡ DeploymentStatus.degraded)

-- The job succeeded with a deployment that runs, or both failed; all is committed.
abbrev pub IsFinished : JobState → Type 0
IsFinished s =
    (((s.job.status ≡ JobStatus.succeeded) × IsHealthy s.target.status)
      ⊎ ((s.job.status ≡ JobStatus.failed) × (s.target.status ≡ DeploymentStatus.failed)))
    × (s.saved ≡ s.rows)

-- What no `except` clause names.
abbrev pub IsUnnamed : JobException → Type 0
IsUnnamed (job_error code message) = ⊥
IsUnnamed (executor (ssh kind message)) = ⊥
IsUnnamed _ = Unit

abbrev pub IsAbandoned : DeploymentStatus → JobException → JobState → Type 0
IsAbandoned status e s = IsUnnamed e × IsWorking status s

module _ (w : World) (host : Host) (password : String) (status : DeploymentStatus) where
  pub IsWorking-Steady : Steady w (IsWorking status) (λ _. Unit)
  unfolding add_job_log add_log
  IsWorking-Steady = record {
    elsewhere = λ s s' job logs saved same path config payload sent h. ground arith;
    logging = λ level message. Keeps-modify _ (λ s h. (h.0, h.0, h.2));
    sending = λ spec _ s h. h;
  }

  all_allowed : (confirm : Bool) (d : Deployment) → AllowsDeploy (λ _. Unit) confirm d
  all_allowed confirm d = search

  pub healthy : (s : HealthStatus) → IsHealthy (healthy_status s)
  healthy s = grind arith

  finish-IsFinished :
      (health : Health)
      → Triple
          (IsWorking status)
          (finish w host password health)
          (λ _. IsFinished)
          (λ _. IsWorking status)
  unfolding finish save_result add_job_log add_log mark_succeeded ◌>>=◌
  finish-IsFinished health = record { at = λ s h. (inl (refl, healthy health.status), refl) }

  fail-IsFinished :
      (error_code message : String)
      → Triple (IsWorking status) (fail w error_code message) (λ _. IsFinished) (IsAbandoned status)
  unfolding fail add_job_log add_log mark_deployment_failed mark_failed ◌>>=◌
  fail-IsFinished error_code message = record { at = λ s h. (inr (refl, refl), refl) }

  on_failure-IsFinished :
      (outcome : Result JobException Unit)
      → Triple
          (Ends (λ _. IsFinished) (λ _. IsWorking status) outcome)
          (on_failure w host password outcome)
          (λ _. IsFinished)
          (IsAbandoned status)
  unfolding on_failure
  on_failure-IsFinished (ok a) = Triple-pure tt
  on_failure-IsFinished (err (job_error error_code message)) = fail-IsFinished _ _
  on_failure-IsFinished (err (executor (ssh execution_failed message))) = fail-IsFinished _ _
  on_failure-IsFinished (err (executor (ssh auth_failed message))) = fail-IsFinished _ _
  on_failure-IsFinished (err (executor (ssh connect_timeout message))) = fail-IsFinished _ _
  on_failure-IsFinished (err (executor (ssh command_timeout message))) = fail-IsFinished _ _
  on_failure-IsFinished (err (executor (invalid_spec e))) = Triple-raise _ (λ s h. (tt, h))
  on_failure-IsFinished (err (executor (runtime m))) = Triple-raise _ (λ s h. (tt, h))
  on_failure-IsFinished (err (executor (unexpected m))) = Triple-raise _ (λ s h. (tt, h))
  on_failure-IsFinished (err request_failed) = Triple-raise _ (λ s h. (tt, h))
  on_failure-IsFinished (err value_error) = Triple-raise _ (λ s h. (tt, h))

  deploy-IsFinished :
      (confirm : Bool) (d : Deployment)
      → Triple
          (IsWorking status)
          (deploy w host password confirm d)
          (λ _. IsFinished)
          (λ _. IsWorking status)
  deploy-IsFinished confirm d =
      deploy-by_conclude IsWorking-Steady host password confirm d _ (all_allowed confirm d)
        (λ health.
          conclude-by_finish IsWorking-Steady host password health _
            (λ _. finish-IsFinished health))

  logged :
      (level : Level) (message : String)
      → Triple
          (IsWorking status)
          (add_job_log w level message)
          (λ _. IsWorking status)
          (IsAbandoned status)
  unfolding add_job_log add_log
  logged level message = Triple-modify _ (λ s h. (h.0, h.0, h.2))

  run-IsFinished :
      (confirm : Bool)
      → Triple
          (λ s. s.target.status ≡ status)
          (run w host password confirm)
          (λ _. IsFinished)
          (IsAbandoned status)
  unfolding run mark_running
  run-IsFinished confirm =
      Triple-bind _ _ (Triple-modify {Q = IsWorking status} _ (λ s h. (refl, refl, h))) λ _.
        Triple-bind {Q = λ _. IsWorking status} _ _ (Triple-gets _ (λ s h. h)) λ d.
          Triple-bind {Q = λ _. IsWorking status} _ _ (logged _ _)
            λ _. Triple-bind _ _ (Triple-try _ (deploy-IsFinished confirm d)) on_failure-IsFinished

-- A deployment job that returns has either succeeded, and its deployment is running or degraded, or
-- both the job and the deployment have failed; all is committed. One that raises has met an
-- exception that no clause names, leaves the job running and the deployment at its former status.
pub run-finishes :
    (w : World) (host : Host) (password : String) (confirm : Bool) (s : JobState)
    → Ends
        (λ _. IsFinished)
        (IsAbandoned s.target.status)
        (run w host password confirm s).0
        (run w host password confirm s).1
run-finishes w host password confirm s =
    (run-IsFinished w host password s.target.status confirm).at s refl
