-- ===== src/Redeploy/Tests.antt =====
-- Redeployments of a concrete deployment, and the theorems at these.
use sglang_ops_stack.Base.{
  ℕ, Option, true, false, List, [], ◌∷◌, ◌++◌, none, some, any, ap, refl, ◌≡◌, eqb, Bool-cases, inl,
  inr,
}
use sglang_ops_stack.Base.Exec.{Result, ok, err}
use sglang_ops_stack.Base.Exec.Keeps.{Ends}
use sglang_ops_stack.Json.{
  no_entries, Value, array, object, same, get, has_key, insert_keys, insert_key, all_keys,
}
use sglang_ops_stack.Json.Masked.{mask_value}
use sglang_ops_stack.Db.{Deployment, DeploymentRevision, Job, JobType}
use sglang_ops_stack.Db.Results.{OperationName, DeploymentStatus, redeploy_requested}
use sglang_ops_stack.Deployment.Create.{
  DeploymentCreate, payload_from_deployment, dump, dump_volumes, preview_commands,
  build_command_specs, payload_secrets,
}
use sglang_ops_stack.Deployment.Sglang.{build_sglang_argv}
use sglang_ops_stack.Deployment.Apply.{create_deployment, apply_payload_to_deployment}
use sglang_ops_stack.Deployment.Numbered.{
  numbers, IsNumbered, IsVersioned, IsApplied, create_deployment-IsVersioned,
  apply_payload_to_deployment-IsApplied,
}
use sglang_ops_stack.Deployment.World.{JobState}
use sglang_ops_stack.Deployment.Tests.{world, gpu_host, deployment, begin, plain_patterns}
use sglang_ops_stack.Operation.Exclusion.{IsClosed}
use sglang_ops_stack.Deployment.Outcome.{IsFinished}
use sglang_ops_stack.Operation.Outcome.{IsOperated}
use sglang_ops_stack.Redeploy.Task.{ready, run_deployment_task, run_operation_task}
use sglang_ops_stack.Redeploy.TaskOutcome.{IsLeftBy, tasks-IsLeftBy}
use sglang_ops_stack.Redeploy.Plan.{
  RedeployPlan, PlanError, other_host, plan_redeploy, build_config_diff, diff_top, diff_value,
  is_risky, validate_payload, validate_redeploy, is_redeployable,
}
use sglang_ops_stack.Redeploy.Run.{
  run_redeploy, create_redeploy_job, all_secrets, dump_plan, requested, old_status,
}
use sglang_ops_stack.Redeploy.Outcome.{IsRedeployed, IsGivenUp, run_redeploy-finishes}
use sglang_ops_stack.Redeploy.Request.{run_redeploy-refused, create_redeploy_job-restores}
use sglang_ops_stack.Redeploy.Risk.{
  Grants, IsPrivileged, OnHostNetwork, OnHostIpc, validate_payload-Grants,
}

abbrev running : Deployment
running = record deployment { status = DeploymentStatus.running }

abbrev redeploying : Deployment
redeploying = record deployment { status = DeploymentStatus.redeploying }

-- Another image.
abbrev newer : DeploymentCreate
newer = record {
  host_id = 7;
  name = "llm";
  container_name = "llm";
  image = "sglang:v2";
  model_path = "/models/llm";
  served_model_name = none;
  port = 30000;
  tp_size = 1;
  dp_size = 1;
  pp_size = 1;
  mem_fraction_static = none;
  docker_config = deployment.docker_config;
  sglang_config = record deployment.sglang_config { model_path = some "/models/llm" };
  change_summary = none;
  created_by = none;
}

abbrev privileged : DeploymentCreate
privileged = record newer { docker_config = record deployment.docker_config { privileged = true } }

abbrev begin_redeploy : JobState
begin_redeploy = record begin {
  db = record begin.db { rows = record begin.db.rows { target = redeploying } };
}

run_redeploy-finishes_example :
    Ends
      (λ _.
        IsRedeployed
          (old_status begin_redeploy.job redeploying)
          (payload_from_deployment redeploying)
          newer)
      (IsGivenUp DeploymentStatus.redeploying (payload_from_deployment redeploying))
      (run_redeploy world gpu_host "pw" newer true begin_redeploy).0
      (run_redeploy world gpu_host "pw" newer true begin_redeploy).1
run_redeploy-finishes_example = run_redeploy-finishes world gpu_host "pw" newer true begin_redeploy

run_redeploy-refused_example :
    (run_redeploy world gpu_host "pw" (record newer { host_id = 8 }) false begin_redeploy).1.sent
    ≡ []
unfolding validate_redeploy validate_payload
run_redeploy-refused_example =
    run_redeploy-refused world gpu_host "pw" (record newer { host_id = 8 }) false begin_redeploy
      other_host refl

-- A deployment of few and short words.
abbrev small : Deployment
small = record deployment {
  name = "a";
  container_name = "a";
  image = "i";
  model_path = "m";
  status = DeploymentStatus.running;
  port = 1;
  docker_config = record deployment.docker_config {
    env = [];
    gpus = none;
    network = none;
    remove_existing = false;
  };
  sglang_config = record deployment.sglang_config {
    extra_args = [];
    host = "h";
    enable_metrics = false;
  };
}

abbrev small_payload : DeploymentCreate
small_payload = record newer {
  name = "a";
  container_name = "a";
  image = "i";
  model_path = "m";
  port = 1;
  docker_config = small.docker_config;
  sglang_config = record small.sglang_config { model_path = some "m"; port = 1 };
}

abbrev empty_plan : RedeployPlan
empty_plan = record {
  command_preview = "";
  risk_warnings = [];
  diff = [];
  high_risk = false;
  requires_confirmation = false;
}

abbrev plan_from : Result PlanError RedeployPlan → RedeployPlan
plan_from (ok plan) = plan
plan_from (err e) = empty_plan

abbrev small_plan : RedeployPlan
small_plan = plan_from (validate_payload plain_patterns small small_payload false)

small-accepted : validate_payload plain_patterns small small_payload false ≡ ok small_plan
unfolding all_keys build_command_specs build_config_diff build_sglang_argv diff_top diff_value dump
    get has_key insert_key insert_keys payload_from_deployment payload_secrets plan_redeploy
    preview_commands same sglang_ops_stack.Base.Show.show sglang_ops_stack.Base.Text.join
    sglang_ops_stack.Base.Text.lower sglang_ops_stack.Base.Text.precedes
    sglang_ops_stack.Base.Text.replace sglang_ops_stack.Base.Text.replace_from
    sglang_ops_stack.Deployment.Create.dump_docker sglang_ops_stack.Deployment.Docker.exec_detached
    sglang_ops_stack.Deployment.Docker.port_args sglang_ops_stack.Deployment.Docker.pull
    sglang_ops_stack.Deployment.Docker.rm_existing
    sglang_ops_stack.Deployment.Docker.run_detached_idle
    sglang_ops_stack.Deployment.Docker.volume_args sglang_ops_stack.Deployment.Payload.env_values
    sglang_ops_stack.Deployment.Payload.non_empty sglang_ops_stack.Deployment.Payload.synced_config
    sglang_ops_stack.Deployment.Payload.volume_paths sglang_ops_stack.Deployment.Sglang.extra_words
    sglang_ops_stack.Deployment.Sglang.insert sglang_ops_stack.Deployment.Sglang.sorted_items
    sglang_ops_stack.Deployment.Sglang.words_for sglang_ops_stack.Json.Masked.mask_value
    sglang_ops_stack.Json.count_fields sglang_ops_stack.Masking.mask_secret
    sglang_ops_stack.Masking.replace_secrets sglang_ops_stack.Operation.Guards.operation_secrets
    sglang_ops_stack.Operation.Guards.secret_env_values sglang_ops_stack.Remote.Spec.Quote.all_safe
    sglang_ops_stack.Remote.Spec.Quote.is_safe sglang_ops_stack.Remote.Spec.Quote.quote
    sglang_ops_stack.Remote.Spec.argv sglang_ops_stack.Remote.Spec.command_line
    sglang_ops_stack.Remote.Spec.has_nul sglang_ops_stack.Remote.Spec.is_multi_line
    sglang_ops_stack.Remote.Spec.validate validate_payload
small-accepted = refl

validate_payload-Grants_example :
    Grants IsPrivileged (payload_from_deployment small) small_payload
    × Grants OnHostNetwork (payload_from_deployment small) small_payload
    × Grants OnHostIpc (payload_from_deployment small) small_payload
    × (same
          (array (dump_volumes small.docker_config.volumes))
          (array (dump_volumes small_payload.docker_config.volumes))
        ≡ true)
validate_payload-Grants_example =
    validate_payload-Grants plain_patterns small small_payload small_plan small-accepted

abbrev small_job : Job
small_job = record begin.job {
  type = JobType.redeployment;
  id = 2;
  result = some (
      redeploy_requested
        (mask_value plain_patterns (all_secrets small small_payload) (object (dump small_payload)))
        (dump_plan small_plan) DeploymentStatus.running);
}

abbrev small_redeploying : Deployment
small_redeploying = record small { last_job_id = some 2; status = DeploymentStatus.redeploying }

small-validated : validate_redeploy plain_patterns true small small_payload false ≡ ok small_plan
unfolding validate_redeploy sglang_ops_stack.Redeploy.Plan.status_error
    sglang_ops_stack.Operation.Guards.is_blocking is_redeployable
small-validated = small-accepted

small-created :
    create_redeploy_job plain_patterns 2 small small_payload false
    ≡ ok (small_job, small_redeploying, small_plan)
unfolding create_redeploy_job requested sglang_ops_stack.Jobs.create_job
small-created = ap (requested plain_patterns 2 small small_payload) small-validated

create_redeploy_job-restores_example :
    (is_redeployable small.status ≡ true)
    × IsClosed small_redeploying
    × (old_status small_job small_redeploying ≡ small.status)
create_redeploy_job-restores_example =
    create_redeploy_job-restores plain_patterns 2 small small_payload false small_job
      small_redeploying small_plan small-created

abbrev history_row : (id revision_no : ℕ) → DeploymentRevision
history_row id revision_no = record {
  id = id;
  deployment_id = 3;
  revision_no = revision_no;
  config_snapshot = no_entries;
  command_preview = "";
  change_summary = none;
  created_by = none;
}

-- Two revisions of the deployment with the id 3.
abbrev history : List DeploymentRevision
history = history_row 7 1 ∷ history_row 8 2 ∷ []

history-IsNumbered : IsNumbered history
unfolding numbers
history-IsNumbered id = elim (Bool-cases (eqb 3 id)) [
  | inl e ↦ rw e (refl, (refl, tt))
  | inr e ↦ rw e tt
]

abbrev rows_from : Option (Deployment × DeploymentRevision) → Deployment × DeploymentRevision
rows_from (some rows) = rows
rows_from none = (small, history_row 0 0)

abbrev small_rows : Deployment × DeploymentRevision
small_rows = rows_from (create_deployment plain_patterns 4 9 history (some gpu_host) small_payload)

create_deployment-IsVersioned_example : IsVersioned (history ++ small_rows.1 ∷ []) small_rows.0
unfolding build_command_specs build_sglang_argv payload_secrets preview_commands
    sglang_ops_stack.Base.Show.show sglang_ops_stack.Base.Text.join sglang_ops_stack.Base.Text.lower
    sglang_ops_stack.Base.Text.replace sglang_ops_stack.Base.Text.replace_from
    sglang_ops_stack.Deployment.Docker.exec_detached sglang_ops_stack.Deployment.Docker.port_args
    sglang_ops_stack.Deployment.Docker.pull sglang_ops_stack.Deployment.Docker.rm_existing
    sglang_ops_stack.Deployment.Docker.run_detached_idle
    sglang_ops_stack.Deployment.Docker.volume_args sglang_ops_stack.Deployment.Payload.env_values
    sglang_ops_stack.Deployment.Payload.non_empty sglang_ops_stack.Deployment.Payload.synced_config
    sglang_ops_stack.Deployment.Payload.volume_paths sglang_ops_stack.Deployment.Sglang.extra_words
    sglang_ops_stack.Deployment.Sglang.insert sglang_ops_stack.Deployment.Sglang.sorted_items
    sglang_ops_stack.Deployment.Sglang.words_for sglang_ops_stack.Masking.mask_secret
    sglang_ops_stack.Masking.replace_secrets sglang_ops_stack.Remote.Spec.Quote.all_safe
    sglang_ops_stack.Remote.Spec.Quote.is_safe sglang_ops_stack.Remote.Spec.Quote.quote
    sglang_ops_stack.Remote.Spec.argv sglang_ops_stack.Remote.Spec.command_line
    sglang_ops_stack.Remote.Spec.has_nul sglang_ops_stack.Remote.Spec.is_multi_line
    sglang_ops_stack.Remote.Spec.validate create_deployment
    sglang_ops_stack.Deployment.Apply.revision_of sglang_ops_stack.Deployment.Apply.with_revision
create_deployment-IsVersioned_example =
    create_deployment-IsVersioned plain_patterns 4 9 history (some gpu_host) small_payload
      small_rows.0 small_rows.1 history-IsNumbered refl

-- The deployment with these two revisions.
abbrev with_history : JobState
with_history = record begin {
  revisions = history;
  db = record begin.db {
    rows = record begin.db.rows { target = record deployment { id = 3; current_version = 2 } };
  };
}

with_history-IsVersioned : IsVersioned history (record deployment { id = 3; current_version = 2 })
unfolding numbers
with_history-IsVersioned = (history-IsNumbered, refl)

apply_payload_to_deployment-IsApplied_example :
    IsApplied with_history
      (apply_payload_to_deployment world (some gpu_host) small_payload with_history).0
      (apply_payload_to_deployment world (some gpu_host) small_payload with_history).1
apply_payload_to_deployment-IsApplied_example =
    apply_payload_to_deployment-IsApplied world (some gpu_host) small_payload with_history
      with_history-IsVersioned

tasks-IsLeftBy_example :
    IsLeftBy IsFinished
      (ready gpu_host begin)
      (run_deployment_task world "pw" true (ready gpu_host begin))
    × IsLeftBy
        (IsOperated OperationName.stop)
        (ready gpu_host begin)
        (run_operation_task world "pw" OperationName.stop (ready gpu_host begin))
tasks-IsLeftBy_example = tasks-IsLeftBy world "pw" true OperationName.stop (ready gpu_host begin)
