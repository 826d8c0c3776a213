-- ===== src/Deployment/Tests.antt =====
-- Runs of deployment jobs on concrete hosts, and the theorems at these runs.
use sglang_ops_stack.Base.{true, false, [], ◌∷◌, none, some, refl, All, ◌≡◌}
use sglang_ops_stack.Base.Show.{pos}
use sglang_ops_stack.Base.Exec.{ok}
use sglang_ops_stack.Base.Exec.Keeps.{Ends}
use sglang_ops_stack.Remote.{Remote}
use sglang_ops_stack.Masking.{Patterns}
use sglang_ops_stack.Db.{
  Host, JobStatus, JobType, TargetType, Rows, DockerConfig, SglangConfig, LaunchStyle, Deployment,
  extra_int,
}
use sglang_ops_stack.Db.Results.{DeploymentStatus, HealthStatus}
use sglang_ops_stack.Deployment.Http.{answered, not_json}
use sglang_ops_stack.Deployment.Payload.{deployment_secrets}
use sglang_ops_stack.Deployment.World.{World, JobState}
use sglang_ops_stack.Deployment.Run.{run}
use sglang_ops_stack.Deployment.Outcome.{IsFinished, IsAbandoned, run-finishes}
use sglang_ops_stack.Deployment.Removal.{IsHarmless, run-sends-IsHarmless}
use sglang_ops_stack.Deployment.Health.{aggregate_status}
use sglang_ops_stack.Deployment.Severity.{severity, worst, severity-aggregate_status}
use sglang_ops_stack.Deployment.Masked.{IsHidden, run-logs-IsHidden}

abbrev pub plain_patterns : Patterns
plain_patterns = record {
  sub_private_key = λ t. t;
  sub_bearer = λ t. t;
  sub_assignment = λ t. t;
  sub_json = λ t. t;
  sub_url = λ f t. t;
  urlsplit = λ t. record { scheme = ""; netloc = ""; path = ""; query = ""; fragment = "" };
  urlunsplit = λ u. "";
  parse_qsl = λ t. [];
  urlencode = λ ps. "";
}

-- Every command ends with status 0 and "true".
abbrev obliging : Remote
obliging sent request = ok (record {
  exit_code = some (pos 0);
  stdout = "true";
  stderr = "";
  timed_out = false;
  started_at = 0;
  finished_at = 0;
})

abbrev pub world : World
world = record {
  run = obliging;
  clock = λ n. n;
  patterns = plain_patterns;
  fetch = λ n url. answered 200 "fine";
  loads = λ body. not_json;
  repr = λ t. t;
  revision_id = λ revisions. 11;
}

abbrev pub gpu_host : Host
gpu_host = record {
  id = 7;
  name = "gpu";
  ip = "10.0.0.7";
  ssh_port = 22;
  ssh_user = "root";
  auth_type = "password";
  tags = none;
  note = none;
  os_info = none;
  gpu_info = none;
  last_check_status = none;
  environment_status = none;
  last_check_at = none;
}

abbrev docker_config : DockerConfig
docker_config = record {
  volumes = [];
  env = ("MODE", "fast") ∷ [];
  gpus = some "all";
  network = some "host";
  privileged = false;
  user = none;
  ipc = none;
  shm_size = none;
  remove_existing = true;
}

abbrev sglang_config : SglangConfig
sglang_config = record {
  model_path = none;
  served_model_name = none;
  host = "0.0.0.0";
  port = 30000;
  tp_size = 1;
  dp_size = 1;
  pp_size = 1;
  mem_fraction_static = none;
  trust_remote_code = false;
  enable_cache_report = false;
  enable_metrics = true;
  launch_style = LaunchStyle.sglang;
  extra_args = ("context_length", extra_int 4096) ∷ [];
}

abbrev pub deployment : Deployment
deployment = record {
  id = 3;
  host_id = 7;
  name = "llm";
  container_name = "llm";
  image = "sglang:latest";
  model_path = "/models/llm";
  served_model_name = none;
  bind_host = "0.0.0.0";
  port = 30000;
  tp_size = 1;
  dp_size = 1;
  pp_size = 1;
  mem_fraction_static = none;
  docker_config = docker_config;
  sglang_config = sglang_config;
  status = DeploymentStatus.deploying;
  service_url = none;
  metrics_url = none;
  last_command_preview = none;
  last_health_status = none;
  current_revision_id = none;
  current_version = 1;
  last_job_id = some 1;
  last_error_code = none;
  last_error_message = none;
  last_checked_at = none;
}

abbrev pub begin : JobState
begin =
    let rows : Rows Deployment = record {
      job = record {
        id = 1;
        type = JobType.deployment;
        status = JobStatus.pending;
        target_type = TargetType.deployment;
        target_id = 3;
        started_at = none;
        finished_at = none;
        error_code = none;
        error_message = none;
        result = none;
      };
      target = deployment;
      logs = [];
    } in
    record {
      db = record { rows = rows; saved = rows; ticks = 0 };
      sent = [];
      fetches = 0;
      revisions = [];
    }

run-finishes_example :
    Ends
      (λ _. IsFinished)
      (IsAbandoned DeploymentStatus.deploying)
      (run world gpu_host "pw" true begin).0
      (run world gpu_host "pw" true begin).1
run-finishes_example = run-finishes world gpu_host "pw" true begin

run-sends-IsHarmless_example : All IsHarmless (run world gpu_host "pw" false begin).1.sent
run-sends-IsHarmless_example = run-sends-IsHarmless world gpu_host "pw" false begin refl tt

run-logs-IsHidden_example :
    All (IsHidden world (deployment_secrets deployment)) (run world gpu_host "pw" true begin).1.logs
run-logs-IsHidden_example = run-logs-IsHidden world gpu_host "pw" true begin tt

severity-aggregate_status_example :
    severity (aggregate_status (HealthStatus.ok ∷ HealthStatus.warn ∷ HealthStatus.skipped ∷ []))
    ≡ worst (HealthStatus.ok ∷ HealthStatus.warn ∷ HealthStatus.skipped ∷ [])
severity-aggregate_status_example =
    severity-aggregate_status (HealthStatus.ok ∷ HealthStatus.warn ∷ HealthStatus.skipped ∷ [])
