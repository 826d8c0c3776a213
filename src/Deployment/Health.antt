-- ===== src/Deployment/Health.antt =====
-- services/health_service.py: the layers of a health check, in their order, and their aggregate.
use sglang_ops_stack.Base.{
  ℕ, String, ◌<>◌, Bool, true, false, ◌&&◌, List, [], ◌∷◌, ◌++◌, Option, none, some, any, map, ◌==◌,
  if◌then◌else◌,
}
use sglang_ops_stack.Base.Text.{or_else, strip, lower, contains, last_chars}
use sglang_ops_stack.Base.Show.{show}
use sglang_ops_stack.Base.Exec.{Result, err, pure, raise, try, ◌>>=◌}
use sglang_ops_stack.Remote.{CommandResult, exit_allowed, ssh}
use sglang_ops_stack.Remote.Spec.{CommandSpec}
use sglang_ops_stack.Db.{Host, Deployment}
use sglang_ops_stack.Db.Results.{
  HealthStatus, JsonObject, JsonValue, no_details, of_command, of_response, of_metrics,
  metrics_disabled, HealthLayerResult, Health,
}
use sglang_ops_stack.Deployment.Docker.{DockerCommandBuilder, ps, inspect_running, process_check}
use sglang_ops_stack.Deployment.Http.{SglangHttpResponse}
use sglang_ops_stack.Deployment.World.{World, JobException, executor, Action, now, send, get}

abbrev pub is_error : HealthStatus → Bool
is_error HealthStatus.error = true
is_error _ = false

abbrev pub is_warn : HealthStatus → Bool
is_warn HealthStatus.warn = true
is_warn _ = false

abbrev pub is_fine : HealthStatus → Bool
is_fine HealthStatus.ok = true
is_fine _ = false

unfoldable pub aggregate_status : List HealthStatus → HealthStatus
aggregate_status [] = HealthStatus.unknown
aggregate_status (s ∷ statuses) =
    if any is_error (s ∷ statuses)
    then HealthStatus.error
    else if any is_warn (s ∷ statuses)
    then HealthStatus.warn
    else HealthStatus.ok

-- `_aggregate`
unfoldable pub aggregate : List HealthLayerResult → ℕ → Health
unfolding aggregate_status
aggregate layers checked_at = record {
  status = aggregate_status (map (λ l. l.status) layers);
  checked_at = checked_at;
  layers = layers;
}

-- `payload.get("text")`, where it is a string
unfoldable pub text_of : JsonObject → Option String
text_of [] = none
text_of ((key, value) ∷ items) =
    let rest = text_of items in
    if key == "text"
    then elim value [ JsonValue.text t ↦ some t | JsonValue.other t ↦ none ]
    else rest

-- monitoring_service.metrics_response_is_prometheus_text
unfoldable pub metrics_response_is_prometheus_text : Option JsonObject → Bool
unfolding text_of
metrics_response_is_prometheus_text none = false
metrics_response_is_prometheus_text (some payload) = elim (text_of payload) [
  | none ↦ false
  | some text ↦
      any (λ marker. contains marker (strip text)) ("# HELP" ∷ "# TYPE" ∷ "_total" ∷ "{}" ∷ [])
]

-- `error or message`
abbrev error_or : Option String → String → String
error_or none message = message
error_or (some error) message = or_else error message

unfoldable pub layer_ok : Option String → CommandResult → Bool
layer_ok none res = exit_allowed res.exit_code (0 ∷ [])
layer_ok (some needle) res =
    exit_allowed res.exit_code (0 ∷ []) && contains needle (lower res.stdout)

-- What `_run_layer` makes of the outcome of its command.
unfoldable pub layer_of :
    ℕ
    → String
    → String
    → Option String
    → Result JobException CommandResult
    → Action HealthLayerResult
unfolding layer_ok
layer_of checked_at name ok_message needle (Result.ok res) =
    let is_ok = layer_ok needle res in
    pure (record {
      name = name;
      status = if is_ok then HealthStatus.ok else HealthStatus.error;
      message =
          if is_ok
          then ok_message
          else or_else (strip res.stderr) (or_else (strip res.stdout) "command failed");
      checked_at = checked_at;
      details = of_command res.exit_code (last_chars 500 res.stdout);
    })
layer_of checked_at name ok_message needle (err (executor (ssh kind message))) = pure (record {
  name = name;
  status = HealthStatus.error;
  message = message;
  checked_at = checked_at;
  details = no_details;
})
layer_of checked_at name ok_message needle (err e) = raise e

-- The layers of the HTTP requests.
unfoldable pub response_layer :
    ℕ → String → HealthStatus → String → String → SglangHttpResponse → HealthLayerResult
response_layer checked_at name otherwise ok_message failed_message r = record {
  name = name;
  status = if r.ok then HealthStatus.ok else otherwise;
  message = if r.ok then ok_message else error_or r.error failed_message;
  checked_at = checked_at;
  details = of_response r.status_code r.payload;
}

unfoldable pub metrics_layer : ℕ → String → SglangHttpResponse → HealthLayerResult
metrics_layer checked_at metrics_url r =
    let metrics_ok = r.ok && metrics_response_is_prometheus_text r.payload in
    record {
      name = "metrics";
      status = if metrics_ok then HealthStatus.ok else HealthStatus.warn;
      message =
          if metrics_ok
          then "HTTP /metrics Prometheus text available"
          else error_or r.error "HTTP /metrics unavailable or invalid";
      checked_at = checked_at;
      details = of_metrics r.status_code metrics_url metrics_ok;
    }

-- `bool` of an optional text decides which of two is taken.
abbrev or_else_url : Option String → String → String
or_else_url none url = url
or_else_url (some given) url = or_else given url

-- `service_url or deployment.service_url or f"http://{host.ip}:{target_port}"`
unfoldable pub target_url : Option String → Option ℕ → Host → Deployment → String
target_url service_url port host d =
    let target_port : ℕ = elim port [ none ↦ d.port | some n ↦ n ] in
    or_else_url service_url
      (or_else_url d.service_url ("http://" <> host.ip <> ":" <> show target_port))

module _ (w : World) (host : Host) (password : String) where
  unfoldable pub run_layer :
      ℕ → String → CommandSpec → String → Option String → Action HealthLayerResult
  run_layer checked_at name spec ok_message needle = do
    outcome ← try (send w host password spec)
    layer_of checked_at name ok_message needle outcome

  -- `client.model_info()`, or `client.server_info()` where that is not fine
  unfoldable pub info_response : String → Action SglangHttpResponse
  info_response url = do
    info ← get w url "/model_info"
    if info.ok then pure info else get w url "/server_info"

  unfoldable pub metrics_layers :
      ℕ → String → Option String → List HealthLayerResult → Action (List HealthLayerResult)
  unfolding metrics_layer
  metrics_layers checked_at url none layers = pure (
      layers
      ++ record {
        name = "metrics";
        status = HealthStatus.skipped;
        message = "Metrics endpoint is disabled for this deployment";
        checked_at = checked_at;
        details = metrics_disabled;
      }
        ∷ [])
  metrics_layers checked_at url (some metrics_url) layers = do
    metrics ← get w url "/metrics"
    pure (layers ++ metrics_layer checked_at metrics_url metrics ∷ [])

  -- The layers behind the first one.
  unfoldable pub remaining_layers :
      String
      → Deployment
      → DockerCommandBuilder
      → ℕ
      → HealthLayerResult
      → Action (List HealthLayerResult)
  unfolding response_layer
  remaining_layers url d b checked_at host_ok = do
    docker ← run_layer checked_at "docker_ready" (ps b) "Docker command is available" none
    container ←
        run_layer checked_at "container_running" (inspect_running b) "Container is running"
          (some "true")
    process ←
        run_layer checked_at "sglang_process_exists" (process_check b) "SGLang process exists" none
    health ← get w url "/health"
    info ← info_response url
    load ← get w url "/get_load"
    metrics_layers checked_at url d.metrics_url (
        host_ok
        ∷ docker
        ∷ container
        ∷ process
        ∷ response_layer checked_at "http_health" HealthStatus.error "HTTP /health OK"
            "HTTP /health failed" health
        ∷ response_layer checked_at "model_or_server_info" HealthStatus.warn
            "Model/server info available" "Info endpoint unavailable" info
        ∷ response_layer checked_at "load_optional" HealthStatus.warn "Load endpoint available"
            "Load endpoint unavailable" load
        ∷ [])

  unfoldable pub check_deployment :
      Option String → Option ℕ → Deployment → DockerCommandBuilder → Action Health
  unfolding aggregate target_url
  check_deployment service_url port d b = do
    checked_at ← now w
    host_ok ← run_layer checked_at "host_reachable" (ps b) "Host reachable over SSH" none
    layers ←
        if is_error host_ok.status
        then pure (host_ok ∷ [])
        else remaining_layers (target_url service_url port host d) d b checked_at host_ok
    pure (aggregate layers checked_at)
