-- ===== src/Environment/Checks.antt =====
-- services/environment/runner.py: the seven checks.
use sglang_ops_stack.Base.{
  String, ◌<>◌, Bool, true, false, ◌&&◌, List, [], ◌∷◌, ◌++◌, Option, none, some, ◌==◌,
  if◌then◌else◌,
}
use sglang_ops_stack.Base.Text.{is_empty, or_else, strip, lower, contains}
use sglang_ops_stack.Base.Exec.{pure, raise, modify, ◌>>=◌, ◌>>◌}
use sglang_ops_stack.Remote.{CommandResult}
use sglang_ops_stack.Remote.Spec.{CommandSpec, safe_summary}
use sglang_ops_stack.Db.Results.{
  EnvironmentErrorCode, unsupported_os, no_nvidia_gpu, driver_not_ready, docker_not_installed,
  nvidia_runtime_missing, runtime_verify_failed, ssh_connect_failed, StepId, StepStatus, PlanItem,
  install, manual,
}
use sglang_ops_stack.Environment.Commands
use sglang_ops_stack.Environment.Release.{lookup_or_empty, parse_os_release, supported_name}
use sglang_ops_stack.Environment.Runner.{
  World, env_failure, Action, on_host, is_ok, add_step, or_raise, mask_output, execute, fail,
}

abbrev pub when_some : Option CommandResult → (CommandResult → Bool) → Bool
when_some none test = false
when_some (some res) test = test res

-- `text or None`
abbrev pub text_or_none : String → Option String
text_or_none text = if is_empty text then none else some text

-- `install_plan.extend(spec.safe_summary() for spec in specs)`
unfoldable pub plan : List CommandSpec → Action Unit
plan [] = pure tt
plan (spec ∷ specs) = do
  summary ← or_raise (safe_summary spec)
  modify (λ r. record r { install_plan = r.install_plan ++ install summary ∷ [] })
  plan specs

-- Adds a failed step, and raises.
abbrev pub fail_step : StepId → String → EnvironmentErrorCode → String → Action Unit
fail_step id summary code message = do
  add_step id StepStatus.failed summary (some code)
  raise (env_failure code message)

module _ (w : World) where
  unfoldable pub check_ssh : Action Unit
  check_ssh = do
    res ← execute w Commands.ssh_smoke StepId.ssh
    if is_ok res Commands.ssh_smoke
        then add_step StepId.ssh StepStatus.passed "SSH command execution succeeded" none
        else fail_step StepId.ssh "SSH command execution failed" ssh_connect_failed
            "Unable to execute SSH smoke command"

  unfoldable pub refuse_release : String → String → Action Unit
  refuse_release os_id version_id =
      fail_step StepId.os
        ("Only supported Ubuntu LTS hosts are allowed; detected ID="
          <> or_else os_id "unknown"
          <> " VERSION_ID="
          <> or_else version_id "unknown")
        unsupported_os "Only Ubuntu LTS 20.04, 22.04, or 24.04 hosts are supported"

  unfoldable pub accept_release : CommandResult → CommandResult → String → String → Action Unit
  accept_release release arch version_id codename = do
    modify
        λ r. on_host (λ h. record h { os_info = text_or_none (mask_output w release.stdout r) }) r
    add_step StepId.os StepStatus.passed
        ("Ubuntu " <> version_id <> " LTS (" <> codename <> ") detected on " <> strip arch.stdout)
        none

  unfoldable pub judge_release :
      CommandResult → CommandResult → (os_id version_id : String) → Option String → Action Unit
  judge_release release arch os_id version_id none = refuse_release os_id version_id
  judge_release release arch os_id version_id (some codename) =
      if os_id == "ubuntu"
      then accept_release release arch version_id codename
      else refuse_release os_id version_id

  -- The part of `_check_os` behind the two commands.
  unfoldable pub check_release : CommandResult → CommandResult → Action Unit
  unfolding judge_release
  check_release release arch =
      let os_info = parse_os_release release.stdout in
      let version_id = lookup_or_empty "version_id" os_info in
      judge_release release arch (lookup_or_empty "id" os_info) version_id
        (supported_name version_id)

  unfoldable pub check_os : Action Unit
  check_os = do
    release ← execute w Commands.os_release StepId.os
    arch ← execute w Commands.os_arch StepId.os
    if is_ok release Commands.os_release && is_ok arch Commands.os_arch
        then check_release release arch
        else fail_step StepId.os "Unable to read OS information" unsupported_os
            "Unable to detect supported Ubuntu LTS OS"

  unfoldable pub check_gpu : Action Unit
  check_gpu = do
    res ← execute w Commands.gpu_lspci StepId.gpu
    if is_ok res Commands.gpu_lspci && contains "nvidia" (lower (res.stdout <> res.stderr))
        then add_step StepId.gpu StepStatus.passed "NVIDIA GPU is visible on PCI bus" none
        else fail_step StepId.gpu "No NVIDIA GPU found" no_nvidia_gpu "No NVIDIA GPU found"

  abbrev driver_plan : PlanItem
  driver_plan =
      manual "driver.manual_install"
        "Manually install a compatible NVIDIA data center driver, reboot the host, then continue from driver check."
        "manual_reboot_required" StepId.driver

  unfoldable pub require_reboot : Action Unit
  require_reboot = do
    modify λ r. record r {
      reboot_required = true;
      resume_step = some StepId.driver;
      risk_notice =
          some
            "NVIDIA driver is not ready. Install or repair the host NVIDIA driver manually, reboot the host, then continue this environment check.";
      install_plan = r.install_plan ++ driver_plan ∷ [];
    }
    add_step StepId.driver StepStatus.reboot_required
        "NVIDIA driver is unavailable; manual installation or repair and reboot are required before continuing"
        (some driver_not_ready)

  unfoldable pub check_driver : Action Bool
  check_driver = do
    res ← execute w Commands.driver_query StepId.driver
    if is_ok res Commands.driver_query
        then (do
          modify λ r.
              on_host (λ h. record h { gpu_info = text_or_none (mask_output w res.stdout r) }) r
          add_step StepId.driver StepStatus.passed "nvidia-smi reported driver and GPU information"
              none
          pure true)
        else (do require_reboot; pure false)

  -- The loop over the commands of an installation: whether all of them succeeded.
  unfoldable pub install_all :
      StepId → String → EnvironmentErrorCode → List CommandSpec → Action Bool
  install_all id message code [] = pure true
  install_all id message code (spec ∷ specs) = do
    res ← execute w spec id
    if is_ok res spec
        then install_all id message code specs
        else (do add_step id StepStatus.failed message (some code); fail w code message; pure false)

  -- Runs the second command only if the first succeeded.
  unfoldable pub execute_if : Bool → CommandSpec → StepId → Action (Option CommandResult)
  execute_if false spec id = pure none
  execute_if true spec id = do res ← execute w spec id; pure (some res)

  unfoldable pub docker_running : Action Bool
  docker_running = do
    version ← execute w Commands.docker_version StepId.docker
    service ←
        execute_if (is_ok version Commands.docker_version) Commands.docker_service_active
          StepId.docker
    pure (
        when_some service
          (λ res. is_ok res Commands.docker_service_active && strip res.stdout == "active"))

  -- `_check_docker(install=False)`
  unfoldable pub check_docker : Action Bool
  check_docker = do
    running ← docker_running
    if running
        then (do
          add_step StepId.docker StepStatus.passed "Docker is installed and running" none
          pure true)
        else (do
          plan Commands.install_docker
          add_step StepId.docker StepStatus.waiting_confirmation
              "Docker must be installed or started" (some docker_not_installed)
          pure false)

  -- `_check_docker(install=True)`
  unfoldable pub check_or_install_docker : Action Bool
  check_or_install_docker = do
    running ← docker_running
    if running
        then (do
          add_step StepId.docker StepStatus.skipped "Docker is installed and running" none
          pure true)
        else (do
          installed ←
              install_all StepId.docker "Docker installation failed" docker_not_installed
                Commands.install_docker
          if installed then check_docker else pure false)

  unfoldable pub runtime_configured : Action Bool
  runtime_configured = do
    ctk ← execute w Commands.nvidia_ctk_version StepId.nvidia_runtime
    details ←
        execute_if (is_ok ctk Commands.nvidia_ctk_version) Commands.docker_runtime_info
          StepId.nvidia_runtime
    pure (when_some details (λ res. contains "nvidia" (lower res.stdout)))

  -- `_check_nvidia_runtime(install=False)`
  unfoldable pub check_nvidia_runtime : Action Bool
  check_nvidia_runtime = do
    configured ← runtime_configured
    if configured
        then (do
          add_step StepId.nvidia_runtime StepStatus.passed "NVIDIA Docker runtime is configured"
              none
          pure true)
        else (do
          plan Commands.configure_nvidia_runtime
          add_step StepId.nvidia_runtime StepStatus.waiting_confirmation
              "NVIDIA Container Toolkit/runtime must be configured" (some nvidia_runtime_missing)
          pure false)

  -- `_check_nvidia_runtime(install=True)`
  unfoldable pub check_or_install_runtime : Action Bool
  check_or_install_runtime = do
    configured ← runtime_configured
    if configured
        then (do
          add_step StepId.nvidia_runtime StepStatus.skipped "NVIDIA Docker runtime is configured"
              none
          pure true)
        else (do
          installed ←
              install_all StepId.nvidia_runtime "NVIDIA runtime configuration failed"
                nvidia_runtime_missing Commands.configure_nvidia_runtime
          if installed then check_nvidia_runtime else pure false)

  unfoldable pub check_container_gpu : Action Unit
  check_container_gpu = do
    res ← execute w Commands.container_gpu_test StepId.container_test
    if is_ok res Commands.container_gpu_test
        then add_step StepId.container_test StepStatus.passed "CUDA test container can access GPU"
            none
        else fail_step StepId.container_test "CUDA test container cannot access GPU"
            runtime_verify_failed "CUDA test container cannot access GPU"
