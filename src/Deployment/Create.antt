-- ===== src/Deployment/Create.antt =====
-- services/deployment_service.py and api/schemas/deployment.py: the payload of a deployment, its
-- dictionary, the commands it stands for and their preview.
use sglang_ops_stack.Base.{ℕ, String, List, [], ◌∷◌, ◌++◌, Option, none, some, if◌then◌else◌}
use sglang_ops_stack.Base.Text.{join}
use sglang_ops_stack.Remote.Spec.{CommandSpec, valid, invalid, command_line}
use sglang_ops_stack.Masking.{Patterns, mask_secret}
use sglang_ops_stack.Json.{
  Value, Elements, Entries, null, bool, int, float, text, array, object, no_elements, element,
  no_entries, entry,
}
use sglang_ops_stack.Db.{
  DockerVolume, DockerConfig, LaunchStyle, SglangConfig, Deployment, ExtraValue, extra_text,
  extra_int, extra_number,
}
use sglang_ops_stack.Deployment.Docker.{
  DockerCommandBuilder, pull, rm_existing, run_detached_idle, exec_detached, docker_risk_warnings,
}
use sglang_ops_stack.Deployment.Sglang.{build_sglang_argv}
use sglang_ops_stack.Deployment.Payload.{synced_config, env_values, volume_paths, non_empty}

-- A payload that the validators have accepted.
pub record DeploymentCreate : Type 0 where
  pub host_id : ℕ
  pub name : String
  pub container_name : String
  pub image : String
  pub model_path : String
  pub served_model_name : Option String
  pub port : ℕ
  pub tp_size : ℕ
  pub dp_size : ℕ
  pub pp_size : ℕ
  pub mem_fraction_static : Option String
  pub docker_config : DockerConfig
  pub sglang_config : SglangConfig
  pub change_summary : Option String
  pub created_by : Option String

-- `payload_from_deployment`
unfoldable pub payload_from_deployment : Deployment → DeploymentCreate
payload_from_deployment d = record {
  host_id = d.host_id;
  name = d.name;
  container_name = d.container_name;
  image = d.image;
  model_path = d.model_path;
  served_model_name = d.served_model_name;
  port = d.port;
  tp_size = d.tp_size;
  dp_size = d.dp_size;
  pp_size = d.pp_size;
  mem_fraction_static = d.mem_fraction_static;
  docker_config = d.docker_config;
  sglang_config = synced_config d;
  change_summary = none;
  created_by = none;
}

abbrev pub optional_text : Option String → Value
optional_text none = null
optional_text (some t) = text t

abbrev optional_float : Option String → Value
optional_float none = null
optional_float (some t) = float t

abbrev style_text : LaunchStyle → String
style_text LaunchStyle.sglang = "sglang"
style_text LaunchStyle.python_module = "python_module"

unfoldable pub dump_volumes : List DockerVolume → Elements
dump_volumes [] = no_elements
dump_volumes (v ∷ vs) =
    element
      (object (
        entry "host_path" (text v.host_path)
          (entry "container_path" (text v.container_path) (entry "mode" (text v.mode) no_entries))))
      (dump_volumes vs)

unfoldable pub dump_texts : List (String × String) → Entries
dump_texts [] = no_entries
dump_texts ((key, value) ∷ rest) = entry key (text value) (dump_texts rest)

-- `docker_config.model_dump()`
unfoldable pub dump_docker : DockerConfig → Entries
unfolding dump_volumes dump_texts
dump_docker c = entry "volumes" (array (dump_volumes c.volumes)) (
    entry "env" (object (dump_texts c.env)) (
      entry "gpus" (optional_text c.gpus) (
        entry "network" (optional_text c.network) (
          entry "privileged" (bool c.privileged) (
            entry "user" (optional_text c.user) (
              entry "ipc" (optional_text c.ipc) (
                entry "shm_size" (optional_text c.shm_size)
                  (entry "remove_existing" (bool c.remove_existing) no_entries))))))))

unfoldable pub dump_extra : List (String × ExtraValue) → Entries
dump_extra [] = no_entries
dump_extra ((key, extra_text s) ∷ rest) = entry key (text s) (dump_extra rest)
dump_extra ((key, extra_int n) ∷ rest) = entry key (int n) (dump_extra rest)
dump_extra ((key, extra_number s) ∷ rest) = entry key (float s) (dump_extra rest)

-- `sglang_config.model_dump()`
unfoldable pub dump_sglang : SglangConfig → Entries
unfolding dump_extra
dump_sglang c = entry "model_path" (optional_text c.model_path) (
    entry "served_model_name" (optional_text c.served_model_name) (
      entry "host" (text c.host) (
        entry "port" (int c.port) (
          entry "tp_size" (int c.tp_size) (
            entry "dp_size" (int c.dp_size) (
              entry "pp_size" (int c.pp_size) (
                entry "mem_fraction_static" (optional_float c.mem_fraction_static) (
                  entry "trust_remote_code" (bool c.trust_remote_code) (
                    entry "enable_cache_report" (bool c.enable_cache_report) (
                      entry "enable_metrics" (bool c.enable_metrics) (
                        entry "launch_style" (text (style_text c.launch_style)) (
                          entry "extra_args" (object (dump_extra c.extra_args))
                            no_entries))))))))))))

-- `payload.model_dump()`
unfoldable pub dump : DeploymentCreate → Entries
unfolding dump_docker dump_sglang
dump p = entry "host_id" (int p.host_id) (
    entry "name" (text p.name) (
      entry "container_name" (text p.container_name) (
        entry "image" (text p.image) (
          entry "model_path" (text p.model_path) (
            entry "served_model_name" (optional_text p.served_model_name) (
              entry "port" (int p.port) (
                entry "tp_size" (int p.tp_size) (
                  entry "dp_size" (int p.dp_size) (
                    entry "pp_size" (int p.pp_size) (
                      entry "mem_fraction_static" (optional_float p.mem_fraction_static) (
                        entry "docker_config" (object (dump_docker p.docker_config)) (
                          entry "sglang_config" (object (dump_sglang p.sglang_config)) (
                            entry "change_summary" (optional_text p.change_summary) (
                              entry "created_by" (optional_text p.created_by)
                                no_entries))))))))))))))

unfoldable pub build_docker_builder : DeploymentCreate → DockerCommandBuilder
build_docker_builder p = record {
  image = p.image;
  container_name = p.container_name;
  port = p.port;
  config = p.docker_config;
}

abbrev with_server : DeploymentCreate → Option (List String) → Option (List CommandSpec)
with_server p none = none
with_server p (some argv) =
    let b = build_docker_builder p in
    some (
      (pull b ∷ (if p.docker_config.remove_existing then rm_existing b ∷ [] else []))
      ++ (run_detached_idle b ∷ exec_detached b argv ∷ []))

-- `none` where the model path is missing, which raises a `ValueError`.
unfoldable pub build_command_specs : DeploymentCreate → Option (List CommandSpec)
unfolding build_docker_builder
build_command_specs p = with_server p (build_sglang_argv p.sglang_config)

-- `_payload_secrets`, which `_preview_secrets` repeats
unfoldable pub payload_secrets : DeploymentCreate → List String
unfolding env_values volume_paths non_empty
payload_secrets p =
    non_empty
      (p.model_path ∷ (env_values p.docker_config.env ++ volume_paths p.docker_config.volumes))

-- The masked lines of the commands; `none` where one of them is refused by `validate`.
unfoldable pub preview_lines : Patterns → List String → List CommandSpec → Option (List String)
preview_lines patterns secrets [] = some []
preview_lines patterns secrets (spec ∷ specs) =
    let rest = preview_lines patterns secrets specs in
    elim (command_line spec) [
      | invalid e ↦ none
      | valid line ↦ elim rest [
        | none ↦ none
        | some lines ↦ some (mask_secret patterns line secrets ∷ lines)
      ]
    ]

abbrev joined : List String → Option (List String) → Option (String × List String)
joined warnings none = none
joined warnings (some lines) = some (join "\n" lines, warnings)

abbrev previewed :
    Patterns → DeploymentCreate → Option (List CommandSpec) → Option (String × List String)
previewed patterns p none = none
previewed patterns p (some specs) =
    joined (docker_risk_warnings p.docker_config) (preview_lines patterns (payload_secrets p) specs)

-- The preview and the warnings; `none` stands for the `ValueError` of a command.
unfoldable pub preview_commands : Patterns → DeploymentCreate → Option (String × List String)
unfolding build_command_specs payload_secrets preview_lines
preview_commands patterns p = previewed patterns p (build_command_specs p)
