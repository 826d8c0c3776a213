-- ===== src/Deployment/Safety.antt =====
-- What a deployment job sends to its host, and what it writes to its log, on every path.
use sglang_ops_stack.Base.{
  ℕ, String, ◌<>◌, Bool, true, false, ◌&&◌, List, [], ◌∷◌, ◌++◌, Option, none, some, ◌≡◌, refl, sym,
  ap, subst, ◌∙◌, All, All-append, arith, if◌then◌else◌, ◌==◌,
}
use sglang_ops_stack.Base.Exec.{Result, ok, err, modify, try, ◌>>=◌, ◌>>◌}
use sglang_ops_stack.Base.Exec.Keeps.{
  Triple, Triple-bind, Triple-Keeps, Triple-gets, Keeps, Keeps-Triple, Keeps-modify, Keeps-bind,
  Keeps-try, keeps_rules,
}
use sglang_ops_stack.Remote.{ssh, execution_failed, auth_failed, connect_timeout, command_timeout}
use sglang_ops_stack.Remote.Spec.{CommandSpec}
use sglang_ops_stack.Db.{Host, Level, Deployment, DockerConfig}
use sglang_ops_stack.Db.Results.{Health}
use sglang_ops_stack.Jobs.{add_log}
use sglang_ops_stack.Deployment.World.{World, JobException, executor, job_error, JobState}
use sglang_ops_stack.Deployment.Run.{
  add_job_log, mark_deployment_failed, fail, finish, deploy, on_failure, run,
}
use sglang_ops_stack.Deployment.Steady.{Steady}
use sglang_ops_stack.Deployment.Outcome.{AllowsDeploy, deploy-by_conclude, conclude-by_finish}

pub record Lasting (w : World) (P : JobState → Type 0) (Allowed : CommandSpec → Type 0)
    : Type 0 where
  pub elsewhere :
      (s s' : JobState)
      → s.logs ≡ s'.logs
      → s.target.model_path ≡ s'.target.model_path
      → s.target.docker_config ≡ s'.target.docker_config
      → s.sent ≡ s'.sent
      → P s
      → P s'
  pub logging : (level : Level) (message : String) → Keeps P (add_job_log w level message)
  pub sending :
      (spec : CommandSpec)
      → Allowed spec
      → (s : JobState) → P s
      → P (record s { sent = s.sent ++ spec ∷ [] })

Lasting-Steady :
    {w : World} {P : JobState → Type 0} {Allowed : CommandSpec → Type 0}
    → Lasting w P Allowed
    → Steady w P Allowed
Lasting-Steady l = record {
  elsewhere = λ s s' job logs saved same path config payload sent h.
      l.elsewhere s s' logs path config sent h;
  logging = l.logging;
  sending = l.sending;
}

module _ {w : World} {P : JobState → Type 0} {Allowed : CommandSpec → Type 0}
    (lasting : Lasting w P Allowed) where
  Keeps-elsewhere :
      (f : JobState → JobState)
      → ((s : JobState) → s.logs ≡ (f s).logs)
      → ((s : JobState) → s.target.model_path ≡ (f s).target.model_path)
      → ((s : JobState) → s.target.docker_config ≡ (f s).target.docker_config)
      → ((s : JobState) → s.sent ≡ (f s).sent)
      → Keeps P (modify {E = JobException} f)
  Keeps-elsewhere f logs path config sent =
      Keeps-modify f (λ s h. lasting.elsewhere s (f s) (logs s) (path s) (config s) (sent s) h)

  log-Keeps : (level : Level) (message : String) → Keeps P (add_job_log w level message)
  log-Keeps level message = lasting.logging level message

  ruleset basic = (keeps_rules, log-Keeps, Keeps-elsewhere, refl)

  fail-Keeps : (error_code message : String) → Keeps P (fail w error_code message)
  unfolding fail mark_deployment_failed sglang_ops_stack.Jobs.mark_failed
  fail-Keeps error_code message = search basic depth 8

  module _ (host : Host) (password : String) where
    finish-Keeps : (health : Health) → Keeps P (finish w host password health)
    unfolding finish sglang_ops_stack.Jobs.save_result sglang_ops_stack.Jobs.mark_succeeded
    finish-Keeps health = search basic depth 8

    on_failure-Keeps :
        (outcome : Result JobException Unit) → Keeps P (on_failure w host password outcome)
    unfolding on_failure
    on_failure-Keeps (ok a) = search basic
    on_failure-Keeps (err (job_error code message)) = fail-Keeps code message
    on_failure-Keeps (err (executor (ssh execution_failed m))) = fail-Keeps _ m
    on_failure-Keeps (err (executor (ssh auth_failed m))) = fail-Keeps _ m
    on_failure-Keeps (err (executor (ssh connect_timeout m))) = fail-Keeps _ m
    on_failure-Keeps (err (executor (ssh command_timeout m))) = fail-Keeps _ m
    on_failure-Keeps (err e) = search basic

    deploy-Keeps :
        (confirm : Bool) (d : Deployment)
        → AllowsDeploy Allowed confirm d
        → Keeps P (deploy w host password confirm d)
    deploy-Keeps confirm d allowed =
        let steady = Lasting-Steady lasting in
        Keeps-Triple _ (
          deploy-by_conclude steady host password confirm d _ allowed (λ health.
            conclude-by_finish steady host password health _
              (λ _. Triple-Keeps _ (finish-Keeps health))))

    pub run-Keeps :
        (confirm : Bool) (config : DockerConfig)
        → ((s : JobState) → P s → s.target.docker_config ≡ config)
        → ((d : Deployment) → d.docker_config ≡ config → AllowsDeploy Allowed confirm d)
        → Keeps P (run w host password confirm)
    unfolding run sglang_ops_stack.Jobs.mark_running
    run-Keeps confirm config known allowed = Keeps-bind _ _ (search basic) (λ _. Keeps-Triple _ (
        Triple-bind {Q = λ (d : Deployment) s. P s × (d.docker_config ≡ config)} _ _
          (Triple-gets _ (λ s h. (h, known s h))) (λ d. with_row d)))
      where
        with_row :
            (d : Deployment)
            → Triple
                (λ s. P s × (d.docker_config ≡ config))
                (do
                  add_job_log w Level.capital_info (
                      "deployment job starting deployment_id="
                      <> sglang_ops_stack.Base.Show.show d.id)
                  outcome ← try (deploy w host password confirm d)
                  on_failure w host password outcome)
                (λ _ s. P s)
                (λ _ s. P s)
        with_row d = record {
          at = λ s h.
              (Triple-Keeps _ (
                  Keeps-bind _ _ (log-Keeps _ _) (λ _.
                    Keeps-bind _ _ (Keeps-try _ (deploy-Keeps confirm d (allowed d h.1)))
                      on_failure-Keeps))).at
                s h.0;
        }
