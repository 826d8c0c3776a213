-- ===== src/Environment/Whole.antt =====
-- What both runs keep from their start to their end: every property of the log, the password and
-- the commands sent that admits the log messages of the runner and the commands of the run.
use sglang_ops_stack.Base.{
  String, Bool, true, false, List, [], ◌∷◌, ◌++◌, Option, none, some, ◌≡◌, refl, All,
}
use sglang_ops_stack.Base.Exec.{Result, ok, err, modify, pure, ◌>>◌}
use sglang_ops_stack.Base.Exec.Keeps.{
  Keeps, Keeps-modify, Keeps-bind, Keeps-if, Keeps-pure, keeps_rules,
}
use sglang_ops_stack.Remote.{
  ssh, execution_failed, auth_failed, connect_timeout, command_timeout, invalid_spec, runtime,
  unexpected,
}
use sglang_ops_stack.Remote.Spec.{CommandSpec}
use sglang_ops_stack.Db.{Level}
use sglang_ops_stack.Db.Results.{EnvironmentErrorCode, StepId, StepStatus, Step}
use sglang_ops_stack.Environment.Commands
use sglang_ops_stack.Environment.Runner.{
  World, EnvironmentException, executor, env_failure, Runner, add_step, log, save,
  wait_for_confirmation, append_timeout_to, append_timeout_step, note_timeout, mark_host_failed,
  record_failure, fail,
}
use sglang_ops_stack.Environment.Checks.{
  check_container_gpu, install_all, check_or_install_docker, check_or_install_runtime,
}
use sglang_ops_stack.Environment.Stable.{
  Stable, AllowsProbes, add_step-Keeps, run-Keeps, check_ssh-Keeps, check_os-Keeps, check_gpu-Keeps,
  check_driver-Keeps, docker_running-Keeps, check_docker-Keeps, runtime_configured-Keeps,
  check_nvidia_runtime-Keeps, check_container_gpu-Keeps,
}
use sglang_ops_stack.Environment.Run.{
  check_body, install_body, on_exception, finish_check, check, finish_install, confirm_install,
}

pub record Persistent (w : World) (P : Runner → Type 0) (Allowed : CommandSpec → Type 0)
    : Type 0 where
  pub elsewhere :
      (r r' : Runner) → r.logs ≡ r'.logs → r.password ≡ r'.password → r.sent ≡ r'.sent → P r → P r'
  pub logging : (level : Level) (message : String) → Keeps P (log w level message)
  pub sending :
      (spec : CommandSpec)
      → Allowed spec
      → (r : Runner) → P r
      → P (record r { sent = r.sent ++ spec ∷ [] })

Persistent-Stable :
    {w : World} {P : Runner → Type 0} {Allowed : CommandSpec → Type 0}
    → Persistent w P Allowed
    → Stable w P Allowed
Persistent-Stable s = record {
  elsewhere = λ r r' job logs saved password sent h. s.elsewhere r r' logs password sent h;
  logging = s.logging;
  sending = s.sending;
}

module _ {w : World} {P : Runner → Type 0} {Allowed : CommandSpec → Type 0}
    (keep : Persistent w P Allowed) (probes : AllowsProbes Allowed) where
  Keeps-elsewhere :
      (f : Runner → Runner)
      → ((r : Runner) → r.logs ≡ (f r).logs)
      → ((r : Runner) → r.password ≡ (f r).password)
      → ((r : Runner) → r.sent ≡ (f r).sent)
      → Keeps P (modify {E = EnvironmentException} f)
  Keeps-elsewhere f logs password sent =
      Keeps-modify f (λ r h. keep.elsewhere r (f r) (logs r) (password r) (sent r) h)

  log-Keeps : (level : Level) (message : String) → Keeps P (log w level message)
  log-Keeps level message = keep.logging level message

  stable : Stable w P Allowed
  stable = Persistent-Stable keep

  ruleset basic = (keeps_rules, log-Keeps, Keeps-elsewhere, refl)

  save-Keeps : Keeps P (save w)
  unfolding save sglang_ops_stack.Jobs.save_result
  save-Keeps = search basic

  wait_for_confirmation-Keeps : (message : String) → Keeps P (wait_for_confirmation w message)
  unfolding wait_for_confirmation sglang_ops_stack.Jobs.mark_waiting_confirmation
  wait_for_confirmation-Keeps message = search (basic, save-Keeps)

  append_timeout-Keeps :
      (current : Option StepId) (steps : List Step) → Keeps P (append_timeout_to w current steps)
  unfolding append_timeout_to
  append_timeout-Keeps none steps = search basic
  append_timeout-Keeps (some id) steps = search (basic, add_step-Keeps stable)

  note_timeout-Keeps : (code : EnvironmentErrorCode) → Keeps P (note_timeout w code)
  unfolding note_timeout append_timeout_step
  note_timeout-Keeps code = search (basic, append_timeout-Keeps)

  record_failure-Keeps :
      (code : EnvironmentErrorCode) (message : String) → Keeps P (record_failure w code message)
  unfolding record_failure mark_host_failed sglang_ops_stack.Jobs.mark_failed
  record_failure-Keeps code message = search (basic, save-Keeps) depth 8

  fail-Keeps : (code : EnvironmentErrorCode) (message : String) → Keeps P (fail w code message)
  unfolding fail
  fail-Keeps code message = search (basic, note_timeout-Keeps, record_failure-Keeps)

  on_exception-Keeps : (e : EnvironmentException) → Keeps P (on_exception w e)
  unfolding on_exception
  on_exception-Keeps (executor (ssh auth_failed m)) = fail-Keeps _ _
  on_exception-Keeps (executor (ssh command_timeout m)) = fail-Keeps _ _
  on_exception-Keeps (executor (ssh execution_failed m)) = fail-Keeps _ _
  on_exception-Keeps (executor (ssh connect_timeout m)) = fail-Keeps _ _
  on_exception-Keeps (executor (runtime m)) = fail-Keeps _ _
  on_exception-Keeps (env_failure code m) = fail-Keeps _ _
  on_exception-Keeps (executor (invalid_spec e)) = search keeps_rules
  on_exception-Keeps (executor (unexpected m)) = search keeps_rules

  finish_check-Keeps :
      (outcome : Result EnvironmentException Bool) → Keeps P (finish_check w outcome)
  unfolding finish_check sglang_ops_stack.Jobs.mark_succeeded
  finish_check-Keeps (err e) = on_exception-Keeps e
  finish_check-Keeps (ok false) = search keeps_rules
  finish_check-Keeps (ok true) = search (basic, save-Keeps) depth 8

  wait_and_stop-Keeps :
      (message : String) → Keeps P (do wait_for_confirmation w message; pure false)
  wait_and_stop-Keeps message = search (keeps_rules, wait_for_confirmation-Keeps)

  found-Keeps :
      (id : StepId) (status : StepStatus) (summary : String) (code : Option EnvironmentErrorCode)
      → Keeps P (do add_step id status summary code; pure true)
  found-Keeps id status summary code = search (keeps_rules, add_step-Keeps stable)

  fail_and_stop-Keeps :
      (id : StepId) (code : EnvironmentErrorCode) (message : String)
      → Keeps P
          (do add_step id StepStatus.failed message (some code); fail w code message; pure false)
  fail_and_stop-Keeps id code message = search (keeps_rules, fail-Keeps, add_step-Keeps stable)

  last_check-Keeps : Keeps P (do check_container_gpu w; pure true)
  last_check-Keeps = search (keeps_rules, check_container_gpu-Keeps stable probes)

  check_body-Keeps : Keeps P (check_body w)
  unfolding check_body
  check_body-Keeps = Keeps-bind _ _ (check_ssh-Keeps stable probes) λ _.
      Keeps-bind _ _ (check_os-Keeps stable probes) λ _.
        Keeps-bind _ _ (check_gpu-Keeps stable probes) λ _.
          Keeps-bind _ _ (check_driver-Keeps stable probes) λ _.
            Keeps-if _ _ _ (wait_and_stop-Keeps _) (
              Keeps-bind _ _ (check_docker-Keeps stable probes) λ _.
                Keeps-if _ _ _ (wait_and_stop-Keeps _) (
                  Keeps-bind _ _ (check_nvidia_runtime-Keeps stable probes)
                    λ _. Keeps-if _ _ _ (wait_and_stop-Keeps _) last_check-Keeps))

  pub check-Keeps : Keeps P (check w)
  unfolding check sglang_ops_stack.Jobs.mark_running
  check-Keeps = search (basic, check_body-Keeps, finish_check-Keeps) depth 8

  module _ (dockers : All Allowed Commands.install_docker) where
    install_all-Keeps :
        (id : StepId) (message : String) (code : EnvironmentErrorCode) (specs : List CommandSpec)
        → All Allowed specs
        → Keeps P (install_all w id message code specs)
    unfolding install_all
    install_all-Keeps id message code [] h = search keeps_rules
    install_all-Keeps id message code (spec ∷ specs) h =
        Keeps-bind _ _ (run-Keeps stable spec id h.0) λ _.
          Keeps-if _ _ _ (install_all-Keeps id message code specs h.1)
            (fail_and_stop-Keeps id code message)

    check_or_install_docker-Keeps : Keeps P (check_or_install_docker w)
    unfolding check_or_install_docker
    check_or_install_docker-Keeps = Keeps-bind _ _ (docker_running-Keeps stable probes) λ _.
        Keeps-if _ _ _ (found-Keeps _ _ _ _) (
          Keeps-bind _ _ (install_all-Keeps _ _ _ _ dockers)
            λ _. Keeps-if _ _ _ (check_docker-Keeps stable probes) (Keeps-pure false))

    module _ (runtimes : All Allowed Commands.configure_nvidia_runtime) where
      check_or_install_runtime-Keeps : Keeps P (check_or_install_runtime w)
      unfolding check_or_install_runtime
      check_or_install_runtime-Keeps = Keeps-bind _ _ (runtime_configured-Keeps stable probes) λ _.
          Keeps-if _ _ _ (found-Keeps _ _ _ _) (
            Keeps-bind _ _ (install_all-Keeps _ _ _ _ runtimes)
              λ _. Keeps-if _ _ _ (check_nvidia_runtime-Keeps stable probes) (Keeps-pure false))

      install_body-Keeps : Keeps P (install_body w)
      unfolding install_body
      install_body-Keeps = Keeps-bind _ _ (check_ssh-Keeps stable probes) λ _.
          Keeps-bind _ _ (check_os-Keeps stable probes) λ _.
            Keeps-bind _ _ (check_gpu-Keeps stable probes) λ _.
              Keeps-bind _ _ (check_driver-Keeps stable probes) λ _.
                Keeps-if _ _ _ (wait_and_stop-Keeps _) (
                  Keeps-bind _ _ check_or_install_docker-Keeps λ _.
                    Keeps-if _ _ _ (Keeps-pure false) (
                      Keeps-bind _ _ check_or_install_runtime-Keeps
                        λ _. Keeps-if _ _ _ (Keeps-pure false) last_check-Keeps))

      finish_install-Keeps :
          (outcome : Result EnvironmentException Bool) → Keeps P (finish_install w outcome)
      unfolding finish_install sglang_ops_stack.Jobs.mark_succeeded
      finish_install-Keeps (err e) = on_exception-Keeps e
      finish_install-Keeps (ok false) = search keeps_rules
      finish_install-Keeps (ok true) = search (basic, save-Keeps) depth 8

      pub confirm_install-Keeps : Keeps P (confirm_install w)
      unfolding confirm_install sglang_ops_stack.Jobs.mark_running
      confirm_install-Keeps = search (basic, install_body-Keeps, finish_install-Keeps) depth 8
