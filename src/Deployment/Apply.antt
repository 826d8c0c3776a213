-- ===== src/Deployment/Apply.antt =====
-- services/deployment_service.py: what creates a deployment, changes it by a payload and keeps the
-- revisions of its configuration.
use sglang_ops_stack.Base.{
  ℕ, suc, String, ◌<>◌, Bool, List, [], ◌∷◌, ◌++◌, Option, none, some, eqb, ltb, if◌then◌else◌,
}
use sglang_ops_stack.Base.Show.{show}
use sglang_ops_stack.Base.Exec.{ok, raise, ◌>>=◌, ◌>>◌}
use sglang_ops_stack.Masking.{Patterns}
use sglang_ops_stack.Db.{Host, Deployment, DeploymentRevision, Job, JobType, TargetType, commit}
use sglang_ops_stack.Db.Results.{DeploymentStatus}
use sglang_ops_stack.Jobs.{create_job}
use sglang_ops_stack.Deployment.Create.{DeploymentCreate, dump, preview_commands}
use sglang_ops_stack.Deployment.World.{World, value_error, Action, on_db, on_deployment}

abbrev max : ℕ → ℕ → ℕ
max m n = if ltb m n then n else m

-- `select(func.max(revision_no))` on the revisions of a deployment, or 0
unfoldable pub last_revision_no : ℕ → List DeploymentRevision → ℕ
last_revision_no deployment_id [] = 0
last_revision_no deployment_id (r ∷ rs) =
    let rest = last_revision_no deployment_id rs in
    if eqb r.deployment_id deployment_id then max r.revision_no rest else rest

-- The row that `create_revision` adds.
unfoldable pub revision_of :
    ℕ → List DeploymentRevision → ℕ → DeploymentCreate → String → DeploymentRevision
unfolding last_revision_no
revision_of id revisions deployment_id payload command_preview = record {
  id = id;
  deployment_id = deployment_id;
  revision_no = suc (last_revision_no deployment_id revisions);
  config_snapshot = dump payload;
  command_preview = command_preview;
  change_summary = payload.change_summary;
  created_by = payload.created_by;
}

abbrev pub service_url_of : Host → ℕ → String
service_url_of host port = "http://" <> host.ip <> ":" <> show port

abbrev pub metrics_url_of : Host → ℕ → Bool → Option String
metrics_url_of host port enabled =
    if enabled then some (service_url_of host port <> "/metrics") else none

-- What `apply_payload_to_deployment` assigns before it adds the revision.
unfoldable pub assign : Host → DeploymentCreate → String → Deployment → Deployment
assign host payload command_preview d = record d {
  host_id = payload.host_id;
  name = payload.name;
  container_name = payload.container_name;
  image = payload.image;
  model_path = payload.model_path;
  served_model_name = payload.served_model_name;
  bind_host = payload.sglang_config.host;
  port = payload.port;
  tp_size = payload.tp_size;
  dp_size = payload.dp_size;
  pp_size = payload.pp_size;
  mem_fraction_static = payload.mem_fraction_static;
  docker_config = payload.docker_config;
  sglang_config = payload.sglang_config;
  service_url = some (service_url_of host payload.port);
  metrics_url = metrics_url_of host payload.port payload.sglang_config.enable_metrics;
  last_command_preview = some command_preview;
}

unfoldable pub with_revision : DeploymentRevision → Deployment → Deployment
with_revision r d = record d { current_revision_id = some r.id; current_version = r.revision_no }

module _ (w : World) where
  unfoldable pub create_revision : DeploymentCreate → String → Action DeploymentRevision
  unfolding revision_of
  create_revision payload command_preview s =
      let revision =
        revision_of (w.revision_id s.revisions) s.revisions s.target.id payload command_preview in
      (ok revision, record s { db = commit s.db; revisions = s.revisions ++ revision ∷ [] })

  -- What follows the preview; `none` stands for the `ValueError` of a command.
  unfoldable pub apply_previewed :
      Host → DeploymentCreate → Option (String × List String) → Action Unit
  unfolding assign with_revision
  apply_previewed host payload none = raise value_error
  apply_previewed host payload (some (command_preview, warnings)) = do
    on_deployment (assign host payload command_preview)
    revision ← create_revision payload command_preview
    on_deployment (with_revision revision)
    on_db commit

  -- The host is the row that the database has for `payload.host_id`.
  unfoldable pub apply_payload_to_deployment : Option Host → DeploymentCreate → Action Unit
  apply_payload_to_deployment none payload = raise value_error
  apply_payload_to_deployment (some host) payload =
      apply_previewed host payload (preview_commands w.patterns payload)

-- The row that `create_deployment` adds first, with the id that the database gives.
unfoldable pub draft_of : ℕ → Host → DeploymentCreate → String → Deployment
draft_of id host payload command_preview = record {
  id = id;
  host_id = payload.host_id;
  name = payload.name;
  container_name = payload.container_name;
  image = payload.image;
  model_path = payload.model_path;
  served_model_name = payload.served_model_name;
  bind_host = payload.sglang_config.host;
  port = payload.port;
  tp_size = payload.tp_size;
  dp_size = payload.dp_size;
  pp_size = payload.pp_size;
  mem_fraction_static = payload.mem_fraction_static;
  docker_config = payload.docker_config;
  sglang_config = payload.sglang_config;
  status = DeploymentStatus.draft;
  service_url = some (service_url_of host payload.port);
  metrics_url = metrics_url_of host payload.port payload.sglang_config.enable_metrics;
  last_command_preview = some command_preview;
  last_health_status = none;
  current_revision_id = none;
  current_version = 0;
  last_job_id = none;
  last_error_code = none;
  last_error_message = none;
  last_checked_at = none;
}

abbrev pub drafted :
    (id revision_id : ℕ)
    → List DeploymentRevision
    → Host
    → DeploymentCreate
    → Option (String × List String)
    → Option (Deployment × DeploymentRevision)
drafted id revision_id revisions host payload none = none
drafted id revision_id revisions host payload (some (command_preview, warnings)) =
    let revision = revision_of revision_id revisions id payload command_preview in
    some (with_revision revision (draft_of id host payload command_preview), revision)

-- The two new rows, with the ids that the database gives; `none` stands for a `ValueError`.
unfoldable pub create_deployment :
    Patterns
    → (id revision_id : ℕ) → List DeploymentRevision
    → Option Host
    → DeploymentCreate
    → Option (Deployment × DeploymentRevision)
unfolding revision_of with_revision draft_of
create_deployment p id revision_id revisions none payload = none
create_deployment p id revision_id revisions (some host) payload =
    drafted id revision_id revisions host payload (preview_commands p payload)

-- The payload that is read from a row that another payload has been written to.
abbrev pub stored : DeploymentCreate → DeploymentCreate
stored p = record p {
  sglang_config = record p.sglang_config {
    model_path = some p.model_path;
    served_model_name = p.served_model_name;
    port = p.port;
    tp_size = p.tp_size;
    dp_size = p.dp_size;
    pp_size = p.pp_size;
    mem_fraction_static = p.mem_fraction_static;
  };
  change_summary = none;
  created_by = none;
}

-- The new job, with its id, and the deployment that waits for it.
unfoldable pub create_deployment_job : ℕ → Deployment → Job × Deployment
create_deployment_job id d = (
  create_job id d.id JobType.deployment TargetType.deployment,
  record d { last_job_id = some id; status = DeploymentStatus.deploying },
)
