-- ===== src/Redeploy/Request.antt =====
-- What the request of a redeployment and its job agree on.
use sglang_ops_stack.Base.{ℕ, Bool, true, false, Option, none, some, ◌≡◌, refl, sym, ◌∙◌, ap, arith}
use sglang_ops_stack.Base.Exec.{Result, ok, err, ◌>>=◌}
use sglang_ops_stack.Base.{String}
use sglang_ops_stack.Masking.{Patterns}
use sglang_ops_stack.Db.{Host, Deployment, Job}
use sglang_ops_stack.Db.Results.{DeploymentStatus}
use sglang_ops_stack.Jobs.{mark_running}
use sglang_ops_stack.Deployment.Create.{DeploymentCreate}
use sglang_ops_stack.Deployment.World.{World, JobState, now}
use sglang_ops_stack.Operation.Guards.{is_blocking}
use sglang_ops_stack.Operation.Exclusion.{IsClosed, blocking-IsClosed}
use sglang_ops_stack.Operation.Run.{failed_result, fail_at, write_failure, add_operation_log}
use sglang_ops_stack.Redeploy.Plan.{
  RedeployPlan, PlanError, is_redeployable, status_error, validate_payload, validate_redeploy, busy,
  not_allowed, other_host, unconfirmed, no_preview,
}
use sglang_ops_stack.Redeploy.Run.{
  create_redeploy_job, requested, old_status, former, restorable, redeploy, run_redeploy,
  on_redeploy_failure, plan_exception,
}

-- A redeployment that the plan refuses, as one of a high risk without a confirmation, sends no
-- command.
pub run_redeploy-refused :
    (w : World) (host : Host) (password : String) (payload : DeploymentCreate) (confirm : Bool)
    (s : JobState) (e : PlanError)
    → validate_redeploy w.patterns false s.target payload confirm ≡ err e
    → (run_redeploy w host password payload confirm s).1.sent ≡ s.sent
unfolding run_redeploy redeploy mark_running on_redeploy_failure fail_at failed_result now
    write_failure add_operation_log plan_exception ◌>>=◌
run_redeploy-refused w host password payload confirm s (busy status) h = rw h refl
run_redeploy-refused w host password payload confirm s (not_allowed status) h = rw h refl
run_redeploy-refused w host password payload confirm s other_host h = rw h refl
run_redeploy-refused w host password payload confirm s unconfirmed h = rw h refl
run_redeploy-refused w host password payload confirm s no_preview h = rw h refl

module _ (p : Patterns) (id : ℕ) (d : Deployment) (payload : DeploymentCreate) where
  requested-row :
      (outcome : Result PlanError RedeployPlan) (job : Job) (d' : Deployment) (plan : RedeployPlan)
      → requested p id d payload outcome ≡ ok (job, d', plan)
      → (outcome ≡ ok plan)
        × (d'.status ≡ DeploymentStatus.redeploying)
        × (former job.result d'.status ≡ d.status)
  unfolding requested former
  requested-row (err e) job d' plan h = ground arith
  requested-row (ok plan') job d' plan h = (ground arith, ground arith, sym (ap restored_by h))
    where
      restored_by : Result PlanError (Job × Deployment × RedeployPlan) → DeploymentStatus
      restored_by (err e) = d.status
      restored_by (ok (job, d', plan)) = former job.result d'.status

restorable-redeployable :
    (status : DeploymentStatus) → is_redeployable status ≡ true → restorable status ≡ status
unfolding is_redeployable restorable
restorable-redeployable DeploymentStatus.redeploying r = ground arith
restorable-redeployable DeploymentStatus.draft r = refl
restorable-redeployable DeploymentStatus.deploying r = refl
restorable-redeployable DeploymentStatus.restarting r = refl
restorable-redeployable DeploymentStatus.stopping r = refl
restorable-redeployable DeploymentStatus.starting r = refl
restorable-redeployable DeploymentStatus.running r = refl
restorable-redeployable DeploymentStatus.degraded r = refl
restorable-redeployable DeploymentStatus.stopped r = refl
restorable-redeployable DeploymentStatus.failed r = refl

status_error-none :
    (status : DeploymentStatus) → status_error status ≡ none → is_redeployable status ≡ true
unfolding status_error
status_error-none status h = ground arith

unrefused :
    (refusal : Option PlanError) (rest : Result PlanError RedeployPlan) (plan : RedeployPlan)
    → elim refusal as (λ _. Result PlanError RedeployPlan) [ some e ↦ err e | none ↦ rest ]
      ≡ ok plan
    → refusal ≡ none
unrefused none rest plan h = refl
unrefused (some e) rest plan h = ground arith

accepted_status :
    (p : Patterns) (d : Deployment) (payload : DeploymentCreate) (confirm : Bool)
    (plan : RedeployPlan)
    → validate_redeploy p true d payload confirm ≡ ok plan
    → is_redeployable d.status ≡ true
unfolding validate_redeploy
accepted_status p d payload confirm plan h =
    status_error-none d.status
      (unrefused (status_error d.status) (validate_payload p d payload confirm) plan h)

-- The request of a redeployment is accepted of a deployment that is running, degraded, stopped or
-- failed. It closes the deployment to every operation, and its job restores just that status.
pub create_redeploy_job-restores :
    (p : Patterns) (id : ℕ) (d : Deployment) (payload : DeploymentCreate) (confirm : Bool)
    (job : Job) (d' : Deployment) (plan : RedeployPlan)
    → create_redeploy_job p id d payload confirm ≡ ok (job, d', plan)
    → (is_redeployable d.status ≡ true) × IsClosed d' × (old_status job d' ≡ d.status)
unfolding create_redeploy_job is_blocking old_status
create_redeploy_job-restores p id d payload confirm job d' plan h =
    let row =
      requested-row p id d payload (validate_redeploy p true d payload confirm) job d' plan h in
    let admitted = accepted_status p d payload confirm plan row.0 in
    (
      admitted,
      blocking-IsClosed d' (ap is_blocking row.1),
      ap restorable row.2 ∙ restorable-redeployable d.status admitted,
    )
