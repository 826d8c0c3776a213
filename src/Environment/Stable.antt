-- ===== src/Environment/Stable.antt =====
-- What every check keeps: one proof for all properties of the job, the log, the password and the
-- commands sent. A property is stable if it does not look at the rest, admits every log message of
-- the runner, and admits each allowed command.
use sglang_ops_stack.Base.{
  String, Bool, List, [], ◌∷◌, ◌++◌, Option, none, some, ◌≡◌, refl, ap, true, false,
}
use sglang_ops_stack.Base.Exec.{modify}
use sglang_ops_stack.Base.Exec.Keeps.{Keeps, Keeps-modify, Keeps-bind, keeps_rules}
use sglang_ops_stack.Remote.{CommandResult}
use sglang_ops_stack.Remote.Spec.{CommandSpec, Checked, valid, invalid}
use sglang_ops_stack.Db.{Level, Host, Rows}
use sglang_ops_stack.Db.Results.{EnvironmentErrorCode, StepId, StepStatus}
use sglang_ops_stack.Environment.Commands
use sglang_ops_stack.Environment.Execute.{Inner, execute-Keeps}
use sglang_ops_stack.Environment.Release.{supported_name}
use sglang_ops_stack.Environment.Runner.{
  World, EnvironmentException, Runner, add_step, or_raise, log, execute,
}
use sglang_ops_stack.Environment.Checks.{
  plan, fail_step, check_ssh, refuse_release, accept_release, judge_release, check_release,
  check_os, check_gpu, require_reboot, check_driver, execute_if, docker_running, check_docker,
  runtime_configured, check_nvidia_runtime, check_container_gpu,
}

pub record Stable (w : World) (P : Runner → Type 0) (Allowed : CommandSpec → Type 0) : Type 0 where
  pub elsewhere :
      (r r' : Runner)
      → r.job ≡ r'.job
      → r.logs ≡ r'.logs
      → r.saved ≡ r'.saved
      → r.password ≡ r'.password
      → r.sent ≡ r'.sent
      → P r
      → P r'
  pub logging : (level : Level) (message : String) → Keeps P (log w level message)
  pub sending :
      (spec : CommandSpec)
      → Allowed spec
      → (r : Runner) → P r
      → P (record r { sent = r.sent ++ spec ∷ [] })

Stable-Inner :
    {w : World} {P : Runner → Type 0} {Allowed : CommandSpec → Type 0}
    → Stable w P Allowed
    → Inner w P Allowed
Stable-Inner s = record {
  elsewhere = λ r r' rows saved password sent steps h.
      s.elsewhere r r' (ap (λ (q : Rows Host). q.job) rows) (ap (λ (q : Rows Host). q.logs) rows)
        saved password sent h;
  logging = s.logging;
  sending = s.sending;
}

-- The commands that the checks themselves run.
pub record AllowsProbes (Allowed : CommandSpec → Type 0) : Type 0 where
  pub ssh_smoke : Allowed Commands.ssh_smoke
  pub os_release : Allowed Commands.os_release
  pub os_arch : Allowed Commands.os_arch
  pub gpu_lspci : Allowed Commands.gpu_lspci
  pub driver_query : Allowed Commands.driver_query
  pub docker_version : Allowed Commands.docker_version
  pub docker_service_active : Allowed Commands.docker_service_active
  pub nvidia_ctk_version : Allowed Commands.nvidia_ctk_version
  pub docker_runtime_info : Allowed Commands.docker_runtime_info
  pub container_gpu_test : Allowed Commands.container_gpu_test

module _ {w : World} {P : Runner → Type 0} {Allowed : CommandSpec → Type 0}
    (stable : Stable w P Allowed) where
  -- A change of the fields that the property does not look at.
  Keeps-elsewhere :
      (f : Runner → Runner)
      → ((r : Runner) → r.job ≡ (f r).job)
      → ((r : Runner) → r.logs ≡ (f r).logs)
      → ((r : Runner) → r.saved ≡ (f r).saved)
      → ((r : Runner) → r.password ≡ (f r).password)
      → ((r : Runner) → r.sent ≡ (f r).sent)
      → Keeps P (modify {E = EnvironmentException} f)
  Keeps-elsewhere f job logs saved password sent =
      Keeps-modify f
        (λ r h. stable.elsewhere r (f r) (job r) (logs r) (saved r) (password r) (sent r) h)

  ruleset elsewhere = (Keeps-elsewhere, refl)

  pub add_step-Keeps :
      (id : StepId) (status : StepStatus) (summary : String) (code : Option EnvironmentErrorCode)
      → Keeps P (add_step id status summary code)
  unfolding add_step
  add_step-Keeps id status summary code =
      Keeps-elsewhere _ (λ r. refl) (λ r. refl) (λ r. refl) (λ r. refl) (λ r. refl)

  or_raise-Keeps : {A : Type 0} (c : Checked A) → Keeps P (or_raise c)
  unfolding or_raise
  or_raise-Keeps (valid a) = search keeps_rules
  or_raise-Keeps (invalid e) = search keeps_rules

  pub log-Keeps : (level : Level) (message : String) → Keeps P (log w level message)
  log-Keeps level message = stable.logging level message

  ruleset basic = (keeps_rules, log-Keeps, add_step-Keeps, or_raise-Keeps)

  pub run-Keeps : (spec : CommandSpec) (id : StepId) → Allowed spec → Keeps P (execute w spec id)
  run-Keeps = execute-Keeps (Stable-Inner stable)

  pub plan-Keeps : (specs : List CommandSpec) → Keeps P (plan specs)
  unfolding plan
  plan-Keeps [] = search keeps_rules
  plan-Keeps (spec ∷ specs) =
      Keeps-bind _ _ (search basic)
        (λ summary. Keeps-bind _ _ (search elsewhere) (λ _. plan-Keeps specs))

  pub fail_step-Keeps :
      (id : StepId) (summary : String) (code : EnvironmentErrorCode) (message : String)
      → Keeps P (fail_step id summary code message)
  fail_step-Keeps id summary code message = search basic

  require_reboot-Keeps : Keeps P (require_reboot w)
  unfolding require_reboot
  require_reboot-Keeps = search (basic, elsewhere)

  accept_release-Keeps :
      (release arch : CommandResult) (version_id codename : String)
      → Keeps P (accept_release w release arch version_id codename)
  unfolding accept_release
  accept_release-Keeps release arch version_id codename = search (basic, elsewhere)

  judge_release-Keeps :
      (release arch : CommandResult) (os_id version_id : String) (name : Option String)
      → Keeps P (judge_release w release arch os_id version_id name)
  unfolding judge_release refuse_release
  judge_release-Keeps release arch os_id version_id none = search (basic, fail_step-Keeps)
  judge_release-Keeps release arch os_id version_id (some codename) =
      search (basic, fail_step-Keeps, accept_release-Keeps)

  check_release-Keeps : (release arch : CommandResult) → Keeps P (check_release w release arch)
  unfolding check_release
  check_release-Keeps release arch = judge_release-Keeps release arch _ _ (supported_name _)

  pub execute_if-Keeps :
      (b : Bool) (spec : CommandSpec) (id : StepId)
      → Allowed spec
      → Keeps P (execute_if w b spec id)
  unfolding execute_if
  execute_if-Keeps true spec id allowed = search (basic, run-Keeps)
  execute_if-Keeps false spec id allowed = search basic

  ruleset steps = (
    basic, run-Keeps, plan-Keeps, fail_step-Keeps, require_reboot-Keeps, check_release-Keeps,
    execute_if-Keeps,
  )

  module _ (probes : AllowsProbes Allowed) where
    pub check_ssh-Keeps : Keeps P (check_ssh w)
    unfolding check_ssh
    check_ssh-Keeps = search (steps, probes.ssh_smoke)

    pub check_os-Keeps : Keeps P (check_os w)
    unfolding check_os
    check_os-Keeps = search (steps, probes.os_release, probes.os_arch)

    pub check_gpu-Keeps : Keeps P (check_gpu w)
    unfolding check_gpu
    check_gpu-Keeps = search (steps, probes.gpu_lspci)

    pub check_driver-Keeps : Keeps P (check_driver w)
    unfolding check_driver
    check_driver-Keeps = search (steps, probes.driver_query, elsewhere)

    pub docker_running-Keeps : Keeps P (docker_running w)
    unfolding docker_running
    docker_running-Keeps = search (steps, probes.docker_version, probes.docker_service_active)

    pub check_docker-Keeps : Keeps P (check_docker w)
    unfolding check_docker
    check_docker-Keeps = search (steps, docker_running-Keeps)

    pub runtime_configured-Keeps : Keeps P (runtime_configured w)
    unfolding runtime_configured
    runtime_configured-Keeps = search (steps, probes.nvidia_ctk_version, probes.docker_runtime_info)

    pub check_nvidia_runtime-Keeps : Keeps P (check_nvidia_runtime w)
    unfolding check_nvidia_runtime
    check_nvidia_runtime-Keeps = search (steps, runtime_configured-Keeps)

    pub check_container_gpu-Keeps : Keeps P (check_container_gpu w)
    unfolding check_container_gpu
    check_container_gpu-Keeps = search (steps, probes.container_gpu_test)
