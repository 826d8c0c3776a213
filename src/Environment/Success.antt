-- ===== src/Environment/Success.antt =====
-- What a check that succeeds has found.
use mathlib.Core.List.{map-append}
use sglang_ops_stack.Base.{
  String, Bool, true, false, not, List, [], ◌∷◌, ◌++◌, map, Option, none, some, ◌≡◌, refl, sym, ap,
  ◌∙◌, if◌then◌else◌,
}
use sglang_ops_stack.Base.Exec.{Result, ok, err, pure, ◌>>=◌, ◌>>◌}
use sglang_ops_stack.Base.Exec.Keeps.{
  Ends, Triple, Triple-bind, Triple-pure, Triple-raise, Triple-gets, Triple-modify, Triple-try,
  Triple-if, Triple-weaken, Triple-Keeps, Triple-and, Keeps-modify,
}
use sglang_ops_stack.Remote.{CommandResult}
use sglang_ops_stack.Remote.Spec.{CommandSpec}
use sglang_ops_stack.Db.{JobStatus, CheckStatus, Host, Session, Level}
use sglang_ops_stack.Db.Results.{EnvironmentErrorCode, StepId, StepStatus, Step}
use sglang_ops_stack.Jobs.{add_log, mark_running, mark_succeeded, save_result}
use sglang_ops_stack.Environment.Runner.{
  World, EnvironmentException, Runner, Action, add_step, execute, log, save, new_runner,
}
use sglang_ops_stack.Environment.Execute.{Inner, execute-Keeps}
use sglang_ops_stack.Environment.Checks.{
  fail_step, check_ssh, check_release, judge_release, accept_release, refuse_release, check_os,
  check_gpu, check_driver, execute_if, docker_running, check_docker, runtime_configured,
  check_nvidia_runtime, check_container_gpu,
}
use sglang_ops_stack.Environment.Release.{supported_name}
use sglang_ops_stack.Environment.Run.{check_body, finish_check, check}
use sglang_ops_stack.Environment.Outcome.{IsRunning, Body, check_body-Body, on_exception-fails}

abbrev pub step_shape : Step → StepId × StepStatus
step_shape s = (s.id, s.status)

abbrev Shape : List (StepId × StepStatus) → Runner → Type 0
Shape xs r = map step_shape r.steps ≡ xs

abbrev Any : EnvironmentException → Runner → Type 0
Any e r = Unit

abbrev passed : StepId → StepId × StepStatus
passed id = (id, StepStatus.passed)

abbrev three : List (StepId × StepStatus)
three = passed StepId.ssh ∷ passed StepId.os ∷ passed StepId.gpu ∷ []

abbrev four : List (StepId × StepStatus)
four = three ++ passed StepId.driver ∷ []

abbrev five : List (StepId × StepStatus)
five = four ++ passed StepId.docker ∷ []

abbrev pub all_passed : List (StepId × StepStatus)
all_passed =
    passed StepId.ssh
    ∷ passed StepId.os
    ∷ passed StepId.gpu
    ∷ passed StepId.driver
    ∷ passed StepId.docker
    ∷ passed StepId.nvidia_runtime
    ∷ passed StepId.container_test
    ∷ []

failed_ne : JobStatus.failed ≡ JobStatus.succeeded → ⊥
failed_ne e = cc

running_ne : JobStatus.running ≡ JobStatus.succeeded → ⊥
running_ne e = cc

waiting_ne : JobStatus.waiting_confirmation ≡ JobStatus.succeeded → ⊥
waiting_ne e = cc

module _ (w : World) where
  Shape-Inner : (xs : List (StepId × StepStatus)) → Inner w (Shape xs) (λ _. Unit)
  unfolding log add_log
  Shape-Inner xs = record {
    elsewhere = λ r r' rows saved password sent steps h. ap (map step_shape) (sym steps) ∙ h;
    logging = λ level message. Keeps-modify _ (λ r h. h);
    sending = λ spec _ r h. h;
  }

  anything : {P : Runner → Type 0} {A : Type 0} (m : Action A) → Triple P m (λ _ _. Unit) Any
  anything {A = A} m = record { at = λ r h. any_end (m r).0 (m r).1 }
    where
      any_end : (o : Result EnvironmentException A) (r : Runner) → Ends (λ _ _. Unit) Any o r
      any_end (ok a) r = tt
      any_end (err e) r = tt

  module _ (xs : List (StepId × StepStatus)) where
    run-Shape :
        (spec : CommandSpec) (id : StepId)
        → Triple (Shape xs) (execute w spec id) (λ _. Shape xs) Any
    run-Shape spec id =
        Triple-weaken _ (λ r h. h) (λ a r h. h) (λ e r h. tt)
          (Triple-Keeps _ (execute-Keeps (Shape-Inner xs) spec id tt))

    pass-Shape :
        (id : StepId) (summary : String) (code : Option EnvironmentErrorCode)
        → Triple
            (Shape xs)
            (add_step id StepStatus.passed summary code)
            (λ _. Shape (xs ++ passed id ∷ []))
            Any
    unfolding add_step
    pass-Shape id summary code =
        Triple-modify _ (λ r h. map-append step_shape r.steps _ ∙ ap (λ ys. ys ++ passed id ∷ []) h)

    raise-Shape :
        {Q : Unit → Runner → Type 0} (id : StepId) (summary : String) (code : EnvironmentErrorCode)
        (message : String)
        → Triple (Shape xs) (fail_step id summary code message) Q Any
    unfolding add_step
    raise-Shape id summary code message =
        Triple-bind {Q = λ _ _. Unit} _ _ (Triple-modify _ (λ r h. tt))
          (λ _. Triple-raise _ (λ r h. tt))

    -- A Boolean check: it has passed if it returns `true`.
    abbrev Then : StepId → Bool → Runner → Type 0
    Then id true r = Shape (xs ++ passed id ∷ []) r
    Then id false r = Unit

    pass-Then :
        (id : StepId) (summary : String) (code : Option EnvironmentErrorCode)
        → Triple (Shape xs) (do add_step id StepStatus.passed summary code; pure true) (Then id) Any
    pass-Then id summary code =
        Triple-bind _ _ (pass-Shape id summary code) (λ _. Triple-pure {Q = Then id} true)

    -- Whatever returns `false` at its end meets the condition.
    stop-Any : (id : StepId) (m : Action Unit) → Triple (λ _. Unit) (do m; pure false) (Then id) Any
    stop-Any id m =
        Triple-bind {Q = λ _ _. Unit} _ _ (anything m) (λ _. Triple-pure {Q = Then id} false)

    stop-Then : (id : StepId) (m : Action Unit) → Triple (Shape xs) (do m; pure false) (Then id) Any
    stop-Then id m = Triple-weaken _ (λ r h. tt) (λ a r h. h) (λ e r h. h) (stop-Any id m)

    stop_two :
        (id : StepId) (m n : Action Unit) → Triple (Shape xs) (do m; n; pure false) (Then id) Any
    stop_two id m n = Triple-bind {Q = λ _ _. Unit} _ _ (anything m) (λ _. stop-Any id n)

    ssh-Shape : Triple (Shape xs) (check_ssh w) (λ _. Shape (xs ++ passed StepId.ssh ∷ [])) Any
    unfolding check_ssh
    ssh-Shape =
        Triple-bind _ _ (run-Shape _ _)
          λ _. Triple-if _ _ _ (pass-Shape _ _ _) (raise-Shape _ _ _ _)

    judge-Shape :
        (release arch : CommandResult) (os_id version_id : String) (name : Option String)
        → Triple
            (Shape xs)
            (judge_release w release arch os_id version_id name)
            (λ _. Shape (xs ++ passed StepId.os ∷ []))
            Any
    unfolding judge_release refuse_release accept_release
    judge-Shape release arch os_id version_id none = raise-Shape _ _ _ _
    judge-Shape release arch os_id version_id (some codename) =
        Triple-if _ _ _
          (Triple-bind _ _ (Triple-modify {Q = Shape xs} _ (λ r h. h)) (λ _. pass-Shape _ _ _))
          (raise-Shape _ _ _ _)

    os-Shape : Triple (Shape xs) (check_os w) (λ _. Shape (xs ++ passed StepId.os ∷ [])) Any
    unfolding check_os check_release
    os-Shape = Triple-bind _ _ (run-Shape _ _) λ release. Triple-bind _ _ (run-Shape _ _) λ arch.
        Triple-if _ _ _ (judge-Shape release arch _ _ (supported_name _)) (raise-Shape _ _ _ _)

    gpu-Shape : Triple (Shape xs) (check_gpu w) (λ _. Shape (xs ++ passed StepId.gpu ∷ [])) Any
    unfolding check_gpu
    gpu-Shape =
        Triple-bind _ _ (run-Shape _ _)
          λ _. Triple-if _ _ _ (pass-Shape _ _ _) (raise-Shape _ _ _ _)

    driver-Shape : Triple (Shape xs) (check_driver w) (Then StepId.driver) Any
    unfolding check_driver
    driver-Shape = Triple-bind _ _ (run-Shape _ _) λ _.
        Triple-if _ _ _
          (Triple-bind _ _ (Triple-modify {Q = Shape xs} _ (λ r h. h)) (λ _. pass-Then _ _ _))
          (stop-Then _ _)

    execute_if-Shape :
        (b : Bool) (spec : CommandSpec) (id : StepId)
        → Triple (Shape xs) (execute_if w b spec id) (λ _. Shape xs) Any
    unfolding execute_if
    execute_if-Shape false spec id = Triple-pure {Q = λ _. Shape xs} none
    execute_if-Shape true spec id =
        Triple-bind _ _ (run-Shape spec id) (λ res. Triple-pure {Q = λ _. Shape xs} (some res))

    running-Shape : Triple (Shape xs) (docker_running w) (λ _. Shape xs) Any
    unfolding docker_running
    running-Shape =
        Triple-bind _ _ (run-Shape _ _)
          λ _. Triple-bind _ _ (execute_if-Shape _ _ _) λ _. Triple-pure {Q = λ _. Shape xs} _

    configured-Shape : Triple (Shape xs) (runtime_configured w) (λ _. Shape xs) Any
    unfolding runtime_configured
    configured-Shape =
        Triple-bind _ _ (run-Shape _ _)
          λ _. Triple-bind _ _ (execute_if-Shape _ _ _) λ _. Triple-pure {Q = λ _. Shape xs} _

    docker-Shape : Triple (Shape xs) (check_docker w) (Then StepId.docker) Any
    unfolding check_docker
    docker-Shape =
        Triple-bind _ _ running-Shape λ _. Triple-if _ _ _ (pass-Then _ _ _) (stop_two _ _ _)

    runtime-Shape : Triple (Shape xs) (check_nvidia_runtime w) (Then StepId.nvidia_runtime) Any
    unfolding check_nvidia_runtime
    runtime-Shape =
        Triple-bind _ _ configured-Shape λ _. Triple-if _ _ _ (pass-Then _ _ _) (stop_two _ _ _)

    container-Shape :
        Triple
          (Shape xs)
          (check_container_gpu w)
          (λ _. Shape (xs ++ passed StepId.container_test ∷ []))
          Any
    unfolding check_container_gpu
    container-Shape =
        Triple-bind _ _ (run-Shape _ _)
          λ _. Triple-if _ _ _ (pass-Shape _ _ _) (raise-Shape _ _ _ _)

  abbrev Whole : Bool → Runner → Type 0
  Whole true r = Shape all_passed r
  Whole false r = Unit

  -- `if not done then stop else next`
  or_stop :
      (xs : List (StepId × StepStatus)) (id : StepId) (stop : Action Unit) (next : Action Bool)
      → Triple (Shape (xs ++ passed id ∷ [])) next Whole Any
      → (done : Bool)
      → Triple (Then xs id done) (if not done then (do stop; pure false) else next) Whole Any
  or_stop xs id stop next t true = t
  or_stop xs id stop next t false =
      Triple-bind {Q = λ _ _. Unit} _ _ (anything stop) (λ _. Triple-pure {Q = Whole} false)

  body-Shape : Triple (Shape []) (check_body w) Whole Any
  unfolding check_body
  body-Shape = Triple-bind _ _ (ssh-Shape _) λ _. Triple-bind _ _ (os-Shape _) λ _.
      Triple-bind _ _ (gpu-Shape _) λ _. Triple-bind _ _ (driver-Shape _) (
        or_stop three StepId.driver _ _ (
          Triple-bind _ _ (docker-Shape _) (
            or_stop four StepId.docker _ _ (
              Triple-bind _ _ (runtime-Shape _) (
                or_stop five StepId.nvidia_runtime _ _
                  (Triple-bind _ _ (container-Shape _) (λ _. Triple-pure {Q = Whole} true)))))))

  -- What holds of a job that succeeded.
  abbrev Found : Runner → Type 0
  Found r =
      r.job.status ≡ JobStatus.succeeded
      → Shape all_passed r × (r.target.last_check_status ≡ some CheckStatus.succeeded)

  finish-Found :
      (outcome : Result EnvironmentException Bool)
      → Triple
          (Ends (λ b r. Body w b r × Whole b r) (λ e r. IsRunning r × Unit) outcome)
          (finish_check w outcome)
          (λ _. Found)
          (λ _. Found)
  unfolding finish_check mark_succeeded save log add_log save_result ◌>>=◌
  finish-Found (err e) =
      Triple-weaken _ (λ r h. h.0) (λ a r h s. absurd (failed_ne (sym h.0 ∙ s)))
        (λ e r h s. absurd (running_ne (sym h.1.0 ∙ s))) (on_exception-fails w e)
  finish-Found (ok false) = record { at = λ r h s. absurd (waiting_ne (sym h.0.0 ∙ s)) }
  finish-Found (ok true) = record { at = λ r h s. (h.1, refl) }

  log_both :
      (level : Level) (message : String)
      → Triple
          (λ r. IsRunning r × Shape [] r)
          (log w level message)
          (λ _ r. IsRunning r × Shape [] r)
          (λ _. Found)
  unfolding log add_log
  log_both level message = Triple-modify _ (λ r h. ((h.0.0, h.0.0), h.1))

  from_Ends :
      (o : Result EnvironmentException Unit) (r : Runner)
      → Ends (λ _. Found) (λ _. Found) o r
      → Found r
  from_Ends (ok a) r h = h
  from_Ends (err e) r h = h

  -- A check whose job succeeded has recorded the seven steps in their order, each of them passed,
  -- and has marked the host as checked.
  pub check-succeeded :
      (db : Session Host) (password : String)
      → (check w (new_runner db password)).1.job.status ≡ JobStatus.succeeded
      → (map step_shape (check w (new_runner db password)).1.steps ≡ all_passed)
        × ((check w (new_runner db password)).1.target.last_check_status
            ≡ some CheckStatus.succeeded)
  unfolding check new_runner mark_running
  check-succeeded db password = from_Ends _ _ (
      (Triple-bind _ _
          (Triple-modify {Q = λ r. IsRunning r × Shape [] r} _ (λ r h. ((refl, refl), h)))
          λ _. Triple-bind _ _ (Triple-gets _ (λ s h. h)) λ host.
            Triple-bind _ _ (log_both _ _) λ _.
              Triple-bind _ _ (Triple-try _ (Triple-and _ (check_body-Body w) body-Shape))
                finish-Found).at
        _ refl)
