-- ===== src/Environment/Install.antt =====
-- How a confirmed installation ends, on every path.
use sglang_ops_stack.Base.{
  String, Bool, true, false, not, List, [], ◌∷◌, ◌++◌, Option, ◌≡◌, refl, ◌⊎◌, inl, inr,
  if◌then◌else◌,
}
use sglang_ops_stack.Base.Exec.{Result, ok, err, pure, ◌>>=◌, ◌>>◌}
use sglang_ops_stack.Base.Exec.Keeps.{
  Ends, Triple, Triple-bind, Triple-pure, Triple-modify, Triple-try, Triple-if, Triple-weaken,
}
use sglang_ops_stack.Remote.Spec.{CommandSpec}
use sglang_ops_stack.Db.Results.{EnvironmentErrorCode, StepId, StepStatus, Step}
use sglang_ops_stack.Jobs.{mark_succeeded, save_result, add_log}
use sglang_ops_stack.Environment.Runner.{
  World, EnvironmentException, Runner, Action, add_step, log, save, wait_for_confirmation,
}
use sglang_ops_stack.Environment.Checks.{
  install_all, check_docker, check_or_install_docker, check_nvidia_runtime,
  check_or_install_runtime, check_container_gpu, plan,
}
use sglang_ops_stack.Environment.Stable.{
  add_step-Keeps, run-Keeps, plan-Keeps, docker_running-Keeps, runtime_configured-Keeps,
  check_ssh-Keeps, check_os-Keeps, check_gpu-Keeps, check_driver-Keeps, check_container_gpu-Keeps,
}
use sglang_ops_stack.Environment.Run.{install_body, finish_install, confirm_install}
use sglang_ops_stack.Environment.Outcome.{
  IsRunning, IsSettled, IsStuck, IsRunning-Stable, all_probes, StillRuns, Keeps-IsRunning,
  wait_for_confirmation-IsIn, fail-IsIn, on_exception-settles, mark_running-IsRunning,
  log-IsRunning,
}

-- The last step asks for a confirmation.
abbrev pub AsksAgain : Runner → Type 0
AsksAgain r =
    (earlier : List Step) × (step : Step) × (r.steps ≡ earlier ++ step ∷ [])
    × (step.status ≡ StepStatus.waiting_confirmation)

-- What is left where an installation is not complete.
abbrev pub IsIncomplete : Runner → Type 0
IsIncomplete r = IsSettled r ⊎ (IsRunning r × AsksAgain r)

module _ (w : World) where
  abbrev Installed : Bool → Runner → Type 0
  Installed true r = IsRunning r
  Installed false r = IsIncomplete r

  add_waiting :
      (id : StepId) (summary : String) (code : Option EnvironmentErrorCode)
      → Triple IsRunning
          (add_step id StepStatus.waiting_confirmation summary code)
          (λ _ r. IsRunning r × AsksAgain r)
          (StillRuns w)
  unfolding add_step
  add_waiting id summary code = Triple-modify _ (λ r h. (h, (r.steps, _, refl, refl)))

  IsRunning-step :
      (id : StepId) (status : StepStatus) (summary : String) (code : Option EnvironmentErrorCode)
      → Triple IsRunning (add_step id status summary code) (λ _. IsRunning) (StillRuns w)
  IsRunning-step id status summary code =
      Keeps-IsRunning w _ (add_step-Keeps (IsRunning-Stable w) id status summary code)

  found :
      (id : StepId) (status : StepStatus) (summary : String) (code : Option EnvironmentErrorCode)
      → Triple IsRunning (do add_step id status summary code; pure true) Installed (StillRuns w)
  found id status summary code =
      Triple-bind _ _ (IsRunning-step id status summary code)
        (λ _. Triple-pure {Q = Installed} true)

  ask_again :
      (specs : List CommandSpec) (id : StepId) (summary : String)
      (code : Option EnvironmentErrorCode)
      → Triple IsRunning
          (do plan specs; add_step id StepStatus.waiting_confirmation summary code; pure false)
          Installed
          (StillRuns w)
  ask_again specs id summary code =
      Triple-bind _ _ (Keeps-IsRunning w _ (plan-Keeps (IsRunning-Stable w) specs)) λ _.
        Triple-bind _ _ (add_waiting id summary code) λ _.
          Triple-weaken _ (λ r h. inr h) (λ a r h. h) (λ e r h. h)
            (Triple-pure {Q = Installed} false)

  check_docker-Installed : Triple IsRunning (check_docker w) Installed (StillRuns w)
  unfolding check_docker
  check_docker-Installed =
      Triple-bind _ _
        (Keeps-IsRunning w _ (docker_running-Keeps (IsRunning-Stable w) (all_probes w)))
        λ _. Triple-if _ _ _ (found _ _ _ _) (ask_again _ _ _ _)

  check_nvidia_runtime-Installed : Triple IsRunning (check_nvidia_runtime w) Installed (StillRuns w)
  unfolding check_nvidia_runtime
  check_nvidia_runtime-Installed =
      Triple-bind _ _
        (Keeps-IsRunning w _ (runtime_configured-Keeps (IsRunning-Stable w) (all_probes w)))
        λ _. Triple-if _ _ _ (found _ _ _ _) (ask_again _ _ _ _)

  install_all-Installed :
      (id : StepId) (message : String) (code : EnvironmentErrorCode) (specs : List CommandSpec)
      → Triple IsRunning (install_all w id message code specs) Installed (StillRuns w)
  unfolding install_all
  install_all-Installed id message code [] = Triple-pure {Q = Installed} true
  install_all-Installed id message code (spec ∷ specs) =
      Triple-bind _ _ (Keeps-IsRunning w _ (run-Keeps (IsRunning-Stable w) spec id tt)) λ _.
        Triple-if _ _ _ (install_all-Installed id message code specs) (
          Triple-bind _ _ (IsRunning-step _ _ _ _) λ _.
            Triple-bind _ _
              (Triple-weaken _ (λ r h. tt) (λ a r h. inl (inr (inl h.0), h.1)) (λ e r h. absurd h)
                (fail-IsIn w code message))
              (λ _. Triple-pure {Q = Installed} false))

  -- `if installed then check again else pure false`
  then_check :
      (again : Action Bool)
      → Triple IsRunning again Installed (StillRuns w)
      → (installed : Bool)
      → Triple
          (Installed installed)
          (if installed then again else pure false)
          Installed
          (StillRuns w)
  then_check again t true = t
  then_check again t false = Triple-pure {Q = Installed} false

  check_or_install_docker-Installed :
      Triple IsRunning (check_or_install_docker w) Installed (StillRuns w)
  unfolding check_or_install_docker
  check_or_install_docker-Installed =
      Triple-bind _ _
        (Keeps-IsRunning w _ (docker_running-Keeps (IsRunning-Stable w) (all_probes w)))
        λ _.
          Triple-if _ _ _ (found _ _ _ _)
            (Triple-bind _ _ (install_all-Installed _ _ _ _) (then_check _ check_docker-Installed))

  check_or_install_runtime-Installed :
      Triple IsRunning (check_or_install_runtime w) Installed (StillRuns w)
  unfolding check_or_install_runtime
  check_or_install_runtime-Installed =
      Triple-bind _ _
        (Keeps-IsRunning w _ (runtime_configured-Keeps (IsRunning-Stable w) (all_probes w)))
        λ _. Triple-if _ _ _ (found _ _ _ _) (
          Triple-bind _ _ (install_all-Installed _ _ _ _)
            (then_check _ check_nvidia_runtime-Installed))

  -- `if not done then pure false else …`
  or_return :
      (next : Action Bool)
      → Triple IsRunning next Installed (StillRuns w)
      → (done : Bool)
      → Triple (Installed done) (if not done then pure false else next) Installed (StillRuns w)
  or_return next t true = t
  or_return next t false = Triple-pure {Q = Installed} false

  wait-Installed :
      (message : String)
      → Triple IsRunning (do wait_for_confirmation w message; pure false) Installed (StillRuns w)
  wait-Installed message =
      Triple-bind _ _
        (Triple-weaken _ (λ r h. tt) (λ a r h. inl (inr (inr h.0), h.1)) (λ e r h. absurd h)
          (wait_for_confirmation-IsIn w message))
        (λ _. Triple-pure {Q = Installed} false)

  last_check : Triple IsRunning (do check_container_gpu w; pure true) Installed (StillRuns w)
  last_check =
      Triple-bind _ _
        (Keeps-IsRunning w _ (check_container_gpu-Keeps (IsRunning-Stable w) (all_probes w)))
        (λ _. Triple-pure {Q = Installed} true)

  install_body-Installed : Triple IsRunning (install_body w) Installed (StillRuns w)
  unfolding install_body
  install_body-Installed =
      let s = IsRunning-Stable w in
      let p = all_probes w in
      Triple-bind _ _ (Keeps-IsRunning w _ (check_ssh-Keeps s p)) λ _.
        Triple-bind _ _ (Keeps-IsRunning w _ (check_os-Keeps s p)) λ _.
          Triple-bind _ _ (Keeps-IsRunning w _ (check_gpu-Keeps s p)) λ _.
            Triple-bind _ _ (Keeps-IsRunning w _ (check_driver-Keeps s p)) λ _.
              Triple-if _ _ _ (wait-Installed _) (
                Triple-bind _ _ check_or_install_docker-Installed (
                  or_return _
                    (Triple-bind _ _ check_or_install_runtime-Installed (or_return _ last_check))))

  finish_install-settles :
      (outcome : Result EnvironmentException Bool)
      → Triple
          (Ends Installed (StillRuns w) outcome)
          (finish_install w outcome)
          (λ _. IsIncomplete)
          IsStuck
  unfolding finish_install mark_succeeded save log add_log save_result ◌>>=◌
  finish_install-settles (err e) =
      Triple-weaken _ (λ r h. h) (λ a r h. inl h) (λ e r h. h) (on_exception-settles w e)
  finish_install-settles (ok false) = record { at = λ r h. h }
  finish_install-settles (ok true) = record { at = λ r h. inl (inl refl, refl) }

  -- A confirmed installation that returns leaves a job that succeeded, failed or waits for a
  -- confirmation, all committed; or else the job is still running, in the database too, and the last
  -- step of the run asks for a confirmation that nobody is asked for. One that raises has met an
  -- exception that no clause names, and leaves the job running.
  pub confirm_install-settles :
      (r : Runner)
      → Ends (λ _. IsIncomplete) IsStuck (confirm_install w r).0 (confirm_install w r).1
  unfolding confirm_install
  confirm_install-settles r =
      (Triple-bind _ _ (mark_running-IsRunning w) λ _.
          Triple-bind _ _ (log-IsRunning w _ _)
            λ _. Triple-bind _ _ (Triple-try _ install_body-Installed) finish_install-settles).at
        r tt
