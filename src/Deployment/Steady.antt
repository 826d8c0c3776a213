-- ===== src/Deployment/Steady.antt =====
-- What the steps of a deployment job keep, until its end is written.
use sglang_ops_stack.Base.{ℕ, String, List, [], ◌∷◌, ◌++◌, Option, none, some, ◌≡◌, refl, arith}
use sglang_ops_stack.Base.Exec.{Result, ok, err, ◌>>=◌}
use sglang_ops_stack.Base.Exec.Keeps.{
  Keeps, Keeps-modify, Keeps-bind, Keeps-try, Keeps-if, Keeps-pure, keeps_rules,
}
use sglang_ops_stack.Remote.{CommandResult, execute_spec, ssh}
use sglang_ops_stack.Remote.Spec.{CommandSpec}
use sglang_ops_stack.Db.{Host, Level, Deployment}
use sglang_ops_stack.Db.Results.{HealthLayerResult, Health}
use sglang_ops_stack.Deployment.Docker.{
  DockerCommandBuilder, exec_detached, inspect_running, ps, process_check,
}
use sglang_ops_stack.Deployment.Payload.{synced_config, port_check_spec}
use sglang_ops_stack.Deployment.Create.{payload_from_deployment}
use sglang_ops_stack.Deployment.World.{
  World, JobException, executor, JobState, on_deployment, now, send, get,
}
use sglang_ops_stack.Deployment.Health.{
  layer_of, run_layer, info_response, metrics_layers, remaining_layers, check_deployment,
}
use sglang_ops_stack.Deployment.Run.{
  add_job_log, log_layers, judge_port, ensure_port_available, judge_required, run_required,
  start_server, save_health,
}

pub record Steady (w : World) (P : JobState → Type 0) (Allowed : CommandSpec → Type 0)
    : Type 0 where
  pub elsewhere :
      (s s' : JobState)
      → s.job ≡ s'.job
      → s.logs ≡ s'.logs
      → s.saved ≡ s'.saved
      → s.target.status ≡ s'.target.status
      → s.target.model_path ≡ s'.target.model_path
      → s.target.docker_config ≡ s'.target.docker_config
      → payload_from_deployment s.target ≡ payload_from_deployment s'.target
      → s.sent ≡ s'.sent
      → P s
      → P s'
  pub logging : (level : Level) (message : String) → Keeps P (add_job_log w level message)
  pub sending :
      (spec : CommandSpec)
      → Allowed spec
      → (s : JobState) → P s
      → P (record s { sent = s.sent ++ spec ∷ [] })

module _ {w : World} {P : JobState → Type 0} {Allowed : CommandSpec → Type 0}
    (steady : Steady w P Allowed) where
  log-Keeps : (level : Level) (message : String) → Keeps P (add_job_log w level message)
  log-Keeps level message = steady.logging level message

  ruleset basic = (keeps_rules, log-Keeps)

  now-Keeps : Keeps P (now w)
  unfolding now
  now-Keeps = record { at = λ s h. steady.elsewhere s _ refl refl refl refl refl refl refl refl h }

  on_deployment-Keeps :
      (f : Deployment → Deployment)
      → ((d : Deployment) → d.status ≡ (f d).status)
      → ((d : Deployment) → d.model_path ≡ (f d).model_path)
      → ((d : Deployment) → d.docker_config ≡ (f d).docker_config)
      → ((d : Deployment) → payload_from_deployment d ≡ payload_from_deployment (f d))
      → Keeps P (on_deployment f)
  on_deployment-Keeps f status path config payload = Keeps-modify _ (λ s h.
      steady.elsewhere s
        (record s { db = record s.db { rows = record s.db.rows { target = f s.target } } }) refl
        refl refl (status s.target) (path s.target) (config s.target) (payload s.target) refl h)

  got-Keeps : (base_url path : String) (s : JobState) → P s → P (get w base_url path s).1
  unfolding get ◌>>=◌
  got-Keeps base_url path s h = ground (arith, steady.elsewhere s (get w base_url path s).1)

  get-Keeps : (base_url path : String) → Keeps P (get w base_url path)
  get-Keeps base_url path = record { at = got-Keeps base_url path }

  pub log_layers-Keeps : (layers : List HealthLayerResult) → Keeps P (log_layers w layers)
  unfolding log_layers
  log_layers-Keeps [] = search basic
  log_layers-Keeps (l ∷ layers) = Keeps-bind _ _ (log-Keeps _ _) (λ _. log_layers-Keeps layers)

  layer_of-Keeps :
      (checked_at : ℕ) (name ok_message : String) (needle : Option String)
      (outcome : Result JobException CommandResult)
      → Keeps P (layer_of checked_at name ok_message needle outcome)
  unfolding layer_of
  layer_of-Keeps checked_at name ok_message needle (ok res) = search basic
  layer_of-Keeps checked_at name ok_message needle (err (executor (ssh kind message))) =
      search basic
  layer_of-Keeps checked_at name ok_message needle (err e) = search basic

  module _ (host : Host) (password : String) where
    sent-Keeps :
        (spec : CommandSpec)
        → Allowed spec
        → (s : JobState) → P s
        → P (send w host password spec s).1
    unfolding send execute_spec ◌>>=◌
    sent-Keeps spec allowed s h = ground (arith, steady.sending spec allowed s)

    pub send-Keeps : (spec : CommandSpec) → Allowed spec → Keeps P (send w host password spec)
    send-Keeps spec allowed = record { at = sent-Keeps spec allowed }

    run_layer-Keeps :
        (checked_at : ℕ) (name : String) (spec : CommandSpec) (ok_message : String)
        (needle : Option String)
        → Allowed spec
        → Keeps P (run_layer w host password checked_at name spec ok_message needle)
    unfolding run_layer
    run_layer-Keeps checked_at name spec ok_message needle allowed =
        Keeps-bind _ _ (Keeps-try _ (send-Keeps spec allowed))
          (layer_of-Keeps checked_at name ok_message needle)

    judge_port-Keeps :
        (port : ℕ) (res : CommandResult) → Keeps P (judge_port w host password port res)
    unfolding judge_port
    judge_port-Keeps port res = search basic

    pub ensure_port_available-Keeps :
        (port : ℕ)
        → Allowed (port_check_spec port)
        → Keeps P (ensure_port_available w host password port)
    unfolding ensure_port_available
    ensure_port_available-Keeps port allowed =
        Keeps-bind _ _ (log-Keeps _ _)
          (λ _. Keeps-bind _ _ (send-Keeps _ allowed) (judge_port-Keeps port))

    judge_required-Keeps :
        (spec : CommandSpec) (error_code : String) (res : CommandResult)
        → Keeps P (judge_required w host password spec error_code res)
    unfolding judge_required
    judge_required-Keeps spec error_code res = search basic

    pub run_required-Keeps :
        (spec : CommandSpec) (error_code : String)
        → Allowed spec
        → Keeps P (run_required w host password spec error_code)
    unfolding run_required
    run_required-Keeps spec error_code allowed =
        Keeps-bind _ _ (log-Keeps _ _)
          (λ _. Keeps-bind _ _ (send-Keeps _ allowed) (judge_required-Keeps spec error_code))

    pub start_server-Keeps :
        (argv : Option (List String)) (b : DockerCommandBuilder)
        → ((words : List String) → Allowed (exec_detached b words))
        → Keeps P (start_server w host password argv b)
    unfolding start_server
    start_server-Keeps none b allowed = search basic
    start_server-Keeps (some argv) b allowed = run_required-Keeps _ _ (allowed argv)

    pub save_health-Keeps : (health : Health) → Keeps P (save_health w host password health)
    unfolding save_health payload_from_deployment synced_config
    save_health-Keeps health =
        Keeps-bind _ _
          (on_deployment-Keeps (λ d. record d { last_health_status = some health }) (λ d. refl)
            (λ d. refl) (λ d. refl) (λ d. refl))
          (λ _. Keeps-bind _ _ now-Keeps (λ time.
            on_deployment-Keeps (λ d. record d { last_checked_at = some time }) (λ d. refl)
              (λ d. refl) (λ d. refl) (λ d. refl)))

    info_response-Keeps : (url : String) → Keeps P (info_response w host password url)
    unfolding info_response
    info_response-Keeps url = search (basic, get-Keeps)

    metrics_layers-Keeps :
        (checked_at : ℕ) (url : String) (metrics_url : Option String)
        (layers : List HealthLayerResult)
        → Keeps P (metrics_layers w host password checked_at url metrics_url layers)
    unfolding metrics_layers
    metrics_layers-Keeps checked_at url none layers = search basic
    metrics_layers-Keeps checked_at url (some metrics_url) layers = search (basic, get-Keeps)

    module _ (d : Deployment) (b : DockerCommandBuilder) (ps_allowed : Allowed (ps b))
        (inspect_allowed : Allowed (inspect_running b))
        (process_allowed : Allowed (process_check b)) where
      remaining_layers-Keeps :
          (url : String) (checked_at : ℕ) (host_ok : HealthLayerResult)
          → Keeps P (remaining_layers w host password url d b checked_at host_ok)
      unfolding remaining_layers
      remaining_layers-Keeps url checked_at host_ok =
          Keeps-bind _ _ (run_layer-Keeps _ _ _ _ _ ps_allowed) λ docker.
            Keeps-bind _ _ (run_layer-Keeps _ _ _ _ _ inspect_allowed) λ container.
              Keeps-bind _ _ (run_layer-Keeps _ _ _ _ _ process_allowed) λ process.
                Keeps-bind _ _ (get-Keeps _ _) λ health.
                  Keeps-bind _ _ (info_response-Keeps _) λ info.
                    Keeps-bind _ _ (get-Keeps _ _)
                      (λ load. metrics_layers-Keeps checked_at _ d.metrics_url _)

      pub check_deployment-Keeps :
          (service_url : Option String) (port : Option ℕ)
          → Keeps P (check_deployment w host password service_url port d b)
      unfolding check_deployment
      check_deployment-Keeps service_url port = Keeps-bind _ _ now-Keeps λ checked_at.
          Keeps-bind _ _ (run_layer-Keeps _ _ _ _ _ ps_allowed) λ host_ok.
            Keeps-bind _ _
              (Keeps-if _ _ _ (Keeps-pure _) (remaining_layers-Keeps _ checked_at host_ok))
              (λ layers. Keeps-pure _)
