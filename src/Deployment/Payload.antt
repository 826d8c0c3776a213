-- ===== src/Deployment/Payload.antt =====
-- services/deployment_service.py and the head of jobs/deployment_jobs.py: what is read from the row
-- of a deployment. The row is one that the service wrote from a validated payload, so the
-- validators that `DeploymentCreate` runs again accept it; what they assign is written out.
use sglang_ops_stack.Base.{ℕ, String, ◌<>◌, List, [], ◌∷◌, ◌++◌, some, leb, if◌then◌else◌}
use Prim.Native.String.{count}
use sglang_ops_stack.Base.Text.{is_empty, take_chars}
use sglang_ops_stack.Base.Show.{show}
use sglang_ops_stack.Remote.Spec.{CommandSpec, command_spec}
use sglang_ops_stack.Db.{DockerVolume, SglangConfig, Deployment}
use sglang_ops_stack.Deployment.Docker.{DockerCommandBuilder}

-- `payload.sglang_config` of `payload_from_deployment`: `sync_top_level_sglang_fields` has copied
-- the fields of the row into it.
unfoldable pub synced_config : Deployment → SglangConfig
synced_config d = record d.sglang_config {
  model_path = some d.model_path;
  served_model_name = d.served_model_name;
  port = d.port;
  tp_size = d.tp_size;
  dp_size = d.dp_size;
  pp_size = d.pp_size;
  mem_fraction_static = d.mem_fraction_static;
}

unfoldable pub docker_builder : Deployment → DockerCommandBuilder
docker_builder d = record {
  image = d.image;
  container_name = d.container_name;
  port = d.port;
  config = d.docker_config;
}

unfoldable pub env_values : List (String × String) → List String
env_values [] = []
env_values ((key, value) ∷ rest) = value ∷ env_values rest

unfoldable pub volume_paths : List DockerVolume → List String
volume_paths [] = []
volume_paths (v ∷ vs) = v.host_path ∷ v.container_path ∷ volume_paths vs

-- `[secret for secret in secrets if secret]`
unfoldable pub non_empty : List String → List String
non_empty [] = []
non_empty (s ∷ ss) = let rest = non_empty ss in if is_empty s then rest else s ∷ rest

-- `_deployment_secrets`; the path of the payload is that of the row.
unfoldable pub deployment_secrets : Deployment → List String
unfolding env_values volume_paths non_empty
deployment_secrets d = non_empty (
    d.model_path
    ∷ d.model_path
    ∷ (env_values d.docker_config.env ++ volume_paths d.docker_config.volumes))

unfoldable pub truncate : String → ℕ → String
truncate text limit =
    if leb (count text) limit then text else take_chars limit text <> "...<truncated>"

unfoldable pub port_check_spec : ℕ → CommandSpec
port_check_spec port =
    record (command_spec "deployment.port_check" "python3"
      ("-c"
        ∷ ("import socket,sys;s=socket.socket();s.settimeout(2);sys.exit(0 if s.connect_ex(('127.0.0.1',"
            <> show port
            <> ")) else 1)")
        ∷ [])
      "Check whether target host port is already listening") {
        timeout_seconds = 10;
        allowed_exit_codes = 0 ∷ 1 ∷ [];
      }
