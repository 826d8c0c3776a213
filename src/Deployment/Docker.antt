-- ===== src/Deployment/Docker.antt =====
-- commands/docker.py: the docker commands of a deployment.
use sglang_ops_stack.Base.{
  ℕ, String, ◌<>◌, Bool, true, false, not, ◌||◌, List, [], ◌∷◌, ◌++◌, Option, none, some, ◌==◌,
  if◌then◌else◌,
}
use sglang_ops_stack.Base.Text.{is_empty}
use sglang_ops_stack.Base.Show.{show}
use sglang_ops_stack.Remote.Spec.{CommandSpec, command_spec, service_change, docker_run}
use sglang_ops_stack.Db.{DockerVolume, DockerConfig}

pub record DockerCommandBuilder : Type 0 where
  pub image : String
  pub container_name : String
  pub port : ℕ
  pub config : DockerConfig

-- `bool(value)` and `value == text` of an optional text.
abbrev pub is_given : Option String → Bool
is_given none = false
is_given (some text) = not (is_empty text)

abbrev pub is_text : String → Option String → Bool
is_text text none = false
is_text text (some value) = value == text

-- A flag with its value, where the value is given.
unfoldable pub flag : String → Option String → List String
flag name none = []
flag name (some value) = if is_empty value then [] else name ∷ value ∷ []

unfoldable pub volume_args : List DockerVolume → List String
volume_args [] = []
volume_args (v ∷ vs) =
    "-v" ∷ (v.host_path <> ":" <> v.container_path <> ":" <> v.mode) ∷ volume_args vs

unfoldable pub env_args : List (String × String) → List String
env_args [] = []
env_args ((key, value) ∷ rest) = "-e" ∷ (key <> "=" <> value) ∷ env_args rest

module _ (b : DockerCommandBuilder) where
  unfoldable pub pull : CommandSpec
  pull =
      record (command_spec "deployment.docker_pull" "docker" ("pull" ∷ b.image ∷ [])
        "Pull SGLang container image") { timeout_seconds = 900; risk = service_change }

  unfoldable pub rm_existing : CommandSpec
  rm_existing =
      record (command_spec "deployment.docker_rm_existing" "docker"
        ("rm" ∷ "-f" ∷ b.container_name ∷ [])
        "Remove existing container after explicit confirmation") {
          timeout_seconds = 120;
          allowed_exit_codes = 0 ∷ 1 ∷ [];
          risk = docker_run;
        }

  unfoldable pub port_args : List String
  port_args =
      if is_text "host" b.config.network
      then []
      else "-p" ∷ (show b.port <> ":" <> show b.port) ∷ []

  unfoldable pub idle_args : List String
  unfolding flag volume_args env_args port_args
  idle_args =
      ("run" ∷ "-d" ∷ "--name" ∷ b.container_name ∷ [])
      ++ flag "--gpus" b.config.gpus
      ++ flag "--network" b.config.network
      ++ (if b.config.privileged then "--privileged" ∷ [] else [])
      ++ flag "--user" b.config.user
      ++ flag "--ipc" b.config.ipc
      ++ flag "--shm-size" b.config.shm_size
      ++ port_args
      ++ volume_args b.config.volumes
      ++ env_args b.config.env
      ++ (b.image ∷ "tail" ∷ "-f" ∷ "/dev/null" ∷ [])

  unfoldable pub run_detached_idle : CommandSpec
  unfolding idle_args
  run_detached_idle =
      record (command_spec "deployment.docker_run_idle" "docker" idle_args
        "Create idle SGLang container") { timeout_seconds = 300; risk = docker_run }

  unfoldable pub exec_detached : List String → CommandSpec
  exec_detached argv =
      record (command_spec "deployment.sglang_exec_start" "docker"
        ("exec" ∷ "-d" ∷ b.container_name ∷ argv) "Start SGLang inside container") {
          timeout_seconds = 120;
          risk = service_change;
        }

  unfoldable pub ps : CommandSpec
  ps =
      command_spec "deployment.docker_ps" "docker"
        ("ps" ∷ "--filter" ∷ ("name=^" <> b.container_name <> "$") ∷ "--format" ∷ "{{.Names}}" ∷ [])
        "Check running container"

  unfoldable pub inspect_running : CommandSpec
  inspect_running =
      record (command_spec "deployment.docker_inspect_running" "docker"
        ("inspect" ∷ "-f" ∷ "{{.State.Running}}" ∷ b.container_name ∷ [])
        "Inspect container running state") { allowed_exit_codes = 0 ∷ 1 ∷ [] }

  unfoldable pub restart : CommandSpec
  restart =
      record (command_spec "deployment.docker_restart" "docker" ("restart" ∷ b.container_name ∷ [])
        "Restart managed deployment container") { timeout_seconds = 120; risk = service_change }

  unfoldable pub stop : CommandSpec
  stop =
      record (command_spec "deployment.docker_stop" "docker" ("stop" ∷ b.container_name ∷ [])
        "Stop managed deployment container") {
          timeout_seconds = 120;
          allowed_exit_codes = 0 ∷ 1 ∷ [];
          risk = service_change;
        }

  unfoldable pub start : CommandSpec
  start =
      record (command_spec "deployment.docker_start" "docker" ("start" ∷ b.container_name ∷ [])
        "Start managed deployment container") { timeout_seconds = 120; risk = service_change }

  unfoldable pub logs_tail : ℕ → CommandSpec
  logs_tail lines =
      record (command_spec "deployment.docker_logs" "docker"
        ("logs" ∷ "--tail" ∷ show lines ∷ b.container_name ∷ []) "Read recent container logs") {
          allowed_exit_codes = 0 ∷ 1 ∷ [];
        }

  unfoldable pub process_check : CommandSpec
  process_check =
      record (command_spec "deployment.sglang_process_check" "docker"
        ("exec" ∷ b.container_name ∷ "pgrep" ∷ "-af" ∷ "sglang|launch_server" ∷ [])
        "Check SGLang process inside container") { allowed_exit_codes = 0 ∷ 1 ∷ [] }

abbrev warn_if : Bool → String → List String
warn_if b warning = if b then warning ∷ [] else []

-- `config.user in (None, "", "root", "0")`
abbrev runs_as_root : Option String → Bool
runs_as_root none = true
runs_as_root (some user) = is_empty user || (user == "root") || (user == "0")

unfoldable pub docker_risk_warnings : DockerConfig → List String
docker_risk_warnings config =
    warn_if config.privileged "Risk: --privileged grants broad host capabilities to the container."
    ++ warn_if (is_text "host" config.network)
        "Risk: --network host exposes the service directly on the host network."
    ++ warn_if (is_text "host" config.ipc)
        "Risk: --ipc host shares the host IPC namespace with the container."
    ++ warn_if (runs_as_root config.user) "Risk: container process runs as root user by default."
    ++ warn_if (is_text "all" config.gpus)
        "Risk: --gpus all exposes all host GPUs to the container."
