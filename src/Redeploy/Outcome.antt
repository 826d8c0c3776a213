-- ===== src/Redeploy/Outcome.antt =====
-- How a redeployment ends, on every path.
use sglang_ops_stack.Base.{
  String, Bool, false, List, Option, none, some, ◌≡◌, refl, ◌∙◌, sym, ◌⊎◌, inl, inr, arith,
}
use sglang_ops_stack.Base.Exec.{Result, ok, err, ◌>>=◌}
use sglang_ops_stack.Base.Exec.Keeps.{
  Ends, Triple, Triple-bind, Triple-pure, Triple-raise, Triple-modify, Triple-try, Triple-if,
  Triple-Keeps, Keeps, Keeps-modify, keeps_rules,
}
use sglang_ops_stack.Remote.{
  ssh, execution_failed, auth_failed, connect_timeout, command_timeout, invalid_spec, runtime,
  unexpected,
}
use sglang_ops_stack.Db.{Host, Deployment, JobStatus}
use sglang_ops_stack.Db.Results.{Health, DeploymentStatus}
use sglang_ops_stack.Jobs.{add_log, save_result, mark_running, mark_succeeded, mark_failed}
use sglang_ops_stack.Deployment.Docker.{DockerCommandBuilder}
use sglang_ops_stack.Deployment.Payload.{synced_config}
use sglang_ops_stack.Deployment.Create.{DeploymentCreate, payload_from_deployment, preview_commands}
use sglang_ops_stack.Deployment.Apply.{
  assign, with_revision, create_revision, apply_previewed, apply_payload_to_deployment,
}
use sglang_ops_stack.Deployment.Apply.{stored}
use sglang_ops_stack.Deployment.World.{
  World, JobException, executor, job_error, request_failed, value_error, JobState, send, now,
}
use sglang_ops_stack.Deployment.Health.{is_error}
use sglang_ops_stack.Deployment.Run.{healthy_status, save_health}
use sglang_ops_stack.Deployment.Steady.{Steady, check_deployment-Keeps}
use sglang_ops_stack.Deployment.Outcome.{IsWorking, IsHealthy, IsUnnamed, healthy}
use sglang_ops_stack.Operation.Run.{add_operation_log, failed_result, fail_at, write_failure}
use sglang_ops_stack.Operation.Steady.{Logging, run_operation_command-Keeps}
use sglang_ops_stack.Redeploy.Plan.{PlanError, RedeployPlan, validate_redeploy}
use sglang_ops_stack.Redeploy.Run.{
  outcome_of, run_redeploy_command, start_replacement, replace_container, accept, judge_health,
  redeploy, on_redeploy_failure, run_redeploy, old_status, all_secrets,
}

-- The job runs, and the deployment has the status and the configuration that it had.
abbrev pub IsAtWork : DeploymentStatus → DeploymentCreate → JobState → Type 0
IsAtWork status old s = IsWorking status s × (payload_from_deployment s.target ≡ old)

-- The job succeeded and the deployment runs with the new configuration, or the job failed and the
-- deployment has the status that is restored and the old configuration; all is committed.
abbrev pub IsRedeployed : DeploymentStatus → DeploymentCreate → DeploymentCreate → JobState → Type 0
IsRedeployed restored old new s =
    (((s.job.status ≡ JobStatus.succeeded)
        × IsHealthy s.target.status
        × (payload_from_deployment s.target ≡ stored new))
      ⊎ ((s.job.status ≡ JobStatus.failed)
          × (s.target.status ≡ restored)
          × (payload_from_deployment s.target ≡ old)))
    × (s.saved ≡ s.rows)

abbrev pub IsGivenUp : DeploymentStatus → DeploymentCreate → JobException → JobState → Type 0
IsGivenUp status old e s = IsUnnamed e × IsAtWork status old s

module _ (w : World) (status restored : DeploymentStatus) (old new : DeploymentCreate) where
  abbrev Working : JobState → Type 0
  Working = IsAtWork status old

  abbrev Done : JobState → Type 0
  Done = IsRedeployed restored old new

  Working-Steady : Steady w Working (λ _. Unit)
  unfolding sglang_ops_stack.Deployment.Run.add_job_log add_log payload_from_deployment
      synced_config
  Working-Steady = record {
    elsewhere =
        λ s s' job logs saved same path config payload sent h. (ground arith, sym payload ∙ h.1);
    logging = λ level message. Keeps-modify _ (λ s h. ((h.0.0, h.0.0, h.0.2), h.1));
    sending = λ spec _ s h. h;
  }

  logging : Logging w Working
  unfolding add_operation_log add_log payload_from_deployment synced_config
  logging secrets level message = Keeps-modify _ (λ s h. ((h.0.0, h.0.0, h.0.2), h.1))

  fail_at-IsRedeployed :
      (error_code message : String)
      → Triple Working (fail_at w restored error_code message) (λ _. Done) (IsGivenUp status old)
  unfolding fail_at failed_result now write_failure add_operation_log add_log mark_failed ◌>>=◌
      payload_from_deployment synced_config
  fail_at-IsRedeployed error_code message = record { at = λ s h. (inr (refl, refl, h.1), refl) }

  on_redeploy_failure-IsRedeployed :
      (outcome : Result JobException Unit)
      → Triple
          (Ends (λ _. Done) (λ _. Working) outcome)
          (on_redeploy_failure w restored outcome)
          (λ _. Done)
          (IsGivenUp status old)
  unfolding on_redeploy_failure
  on_redeploy_failure-IsRedeployed (ok a) = Triple-pure tt
  on_redeploy_failure-IsRedeployed (err (job_error c m)) = fail_at-IsRedeployed _ _
  on_redeploy_failure-IsRedeployed (err (executor (ssh execution_failed m))) =
      fail_at-IsRedeployed _ _
  on_redeploy_failure-IsRedeployed (err (executor (ssh auth_failed m))) = fail_at-IsRedeployed _ _
  on_redeploy_failure-IsRedeployed (err (executor (ssh connect_timeout m))) =
      fail_at-IsRedeployed _ _
  on_redeploy_failure-IsRedeployed (err (executor (ssh command_timeout m))) =
      fail_at-IsRedeployed _ _
  on_redeploy_failure-IsRedeployed (err (executor (invalid_spec e))) =
      Triple-raise _ (λ s h. (tt, h))
  on_redeploy_failure-IsRedeployed (err (executor (runtime m))) = Triple-raise _ (λ s h. (tt, h))
  on_redeploy_failure-IsRedeployed (err (executor (unexpected m))) = Triple-raise _ (λ s h. (tt, h))
  on_redeploy_failure-IsRedeployed (err request_failed) = Triple-raise _ (λ s h. (tt, h))
  on_redeploy_failure-IsRedeployed (err value_error) = Triple-raise _ (λ s h. (tt, h))

  kept :
      {A : Type 0} (m : sglang_ops_stack.Deployment.World.Action A)
      → Keeps Working m
      → Triple Working m (λ _. Working) (λ _. Working)
  kept m k = Triple-Keeps m k

  module _ (host : Host) (password : String) (secrets : List String) where
    command-Keeps :
        (spec : sglang_ops_stack.Remote.Spec.CommandSpec)
        → Keeps Working (run_redeploy_command w host password secrets spec)
    unfolding run_redeploy_command
    command-Keeps spec =
        run_operation_command-Keeps Working-Steady logging host password secrets _ spec tt

    start_replacement-Keeps :
        (b : DockerCommandBuilder) (argv : Option (List String))
        → Keeps Working (start_replacement w host password secrets b argv)
    unfolding start_replacement
    start_replacement-Keeps b none = search keeps_rules
    start_replacement-Keeps b (some argv) = command-Keeps _

    replace_container-Keeps :
        (b b' : DockerCommandBuilder)
        → Keeps Working (replace_container w host password secrets b b' new)
    unfolding replace_container
    replace_container-Keeps b b' = search (keeps_rules, command-Keeps, start_replacement-Keeps)

    apply_previewed-Applies :
        (previewed : Option (String × List String))
        → Triple Working
            (apply_previewed w host new previewed)
            (λ _ s.
              (s.job.status ≡ JobStatus.running) × (payload_from_deployment s.target ≡ stored new))
            (λ _. Working)
    unfolding apply_previewed create_revision assign with_revision ◌>>=◌ payload_from_deployment
        synced_config
    apply_previewed-Applies none = record { at = λ s h. h }
    apply_previewed-Applies (some (line, warnings)) = record { at = λ s h. (h.0.0, refl) }

    accept-IsRedeployed :
        (health : Health)
        → Triple Working (accept w host password secrets new health) (λ _. Done) (λ _. Working)
    unfolding accept apply_payload_to_deployment save_health now save_result add_operation_log
        add_log mark_succeeded ◌>>=◌ payload_from_deployment synced_config
    accept-IsRedeployed health =
        Triple-bind _ _ (apply_previewed-Applies (preview_commands w.patterns new)) λ _. record {
          at = λ s h. (inl (refl, healthy w host password status health.status, h.1), refl);
        }

    judge_health-IsRedeployed :
        (health : Health)
        → Triple Working
            (judge_health w host password secrets new health)
            (λ _. Done)
            (λ _. Working)
    unfolding judge_health
    judge_health-IsRedeployed health = Triple-bind _ _ (kept _ (logging _ _ _)) (λ _.
        Triple-if {Q = λ _. Done} (is_error health.status) _ _ (Triple-raise _ (λ s h. h))
          (accept-IsRedeployed health))

    planned :
        (outcome : Result PlanError RedeployPlan)
        → Triple Working (outcome_of outcome) (λ _. Working) (λ _. Working)
    planned (ok plan) = Triple-pure plan
    planned (err e) = Triple-raise _ (λ s h. h)

    redeploy-IsRedeployed :
        (confirm : Bool) (d : Deployment)
        → Triple
            (λ s. (s.target.status ≡ status) × (payload_from_deployment s.target ≡ old))
            (redeploy w host password secrets new confirm d)
            (λ _. Done)
            (λ _. Working)
    unfolding redeploy mark_running payload_from_deployment synced_config
    redeploy-IsRedeployed confirm d =
        Triple-bind _ _ (Triple-modify {Q = Working} _ (λ s h. ((refl, refl, h.0), h.1))) λ _.
          Triple-bind _ _ (planned (validate_redeploy w.patterns false d new confirm)) λ plan.
            Triple-bind _ _ (kept _ (logging _ _ _)) λ _.
              Triple-bind _ _ (kept _ (replace_container-Keeps _ _)) λ _.
                Triple-bind _ _
                  (kept _ (check_deployment-Keeps Working-Steady host password d _ tt tt tt _ _))
                  judge_health-IsRedeployed

-- A redeployment that returns has either succeeded, and its deployment is running or degraded with
-- the new configuration, or it has failed, and the deployment has its old configuration and the
-- status that it had before the request; all is committed. One that raises has met an exception
-- that no clause names, leaves the job running and the deployment at its status and configuration.
pub run_redeploy-finishes :
    (w : World) (host : Host) (password : String) (payload : DeploymentCreate) (confirm : Bool)
    (s : JobState)
    → Ends
        (λ _. IsRedeployed (old_status s.job s.target) (payload_from_deployment s.target) payload)
        (IsGivenUp s.target.status (payload_from_deployment s.target))
        (run_redeploy w host password payload confirm s).0
        (run_redeploy w host password payload confirm s).1
unfolding run_redeploy ◌>>=◌ on_redeploy_failure
run_redeploy-finishes w host password payload confirm s =
    let restored = old_status s.job s.target in
    let old = payload_from_deployment s.target in
    (Triple-bind _ _
        (Triple-try _ (
          redeploy-IsRedeployed w s.target.status restored old payload host password
            (all_secrets s.target payload) confirm s.target))
        (on_redeploy_failure-IsRedeployed w s.target.status restored old payload)).at
      s (refl, refl)
