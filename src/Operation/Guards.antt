-- ===== src/Operation/Guards.antt =====
-- services/operation_service.py: which operation a deployment admits, and what is
-- secret of it.
use sglang_ops_stack.Base.{
  ℕ, String, ◌<>◌, Bool, true, false, List, [], ◌∷◌, ◌++◌, Option, none, some, any, ltb,
  if◌then◌else◌,
}
use Prim.Native.String.{count}
use sglang_ops_stack.Base.Text.{lower, contains, strip, take_chars}
use sglang_ops_stack.Base.Show.{show_exit}
use sglang_ops_stack.Base.Exec.{Result, ok, err}
use sglang_ops_stack.Remote.{CommandResult}
use sglang_ops_stack.Masking.{Patterns, mask_secret}
use sglang_ops_stack.Db.{Job, JobType, TargetType, Deployment}
use sglang_ops_stack.Db.Results.{OperationName, DeploymentStatus}
use sglang_ops_stack.Jobs.{create_job}
use sglang_ops_stack.Deployment.Payload.{env_values, volume_paths, non_empty}

-- `_BLOCKING_STATUSES`
unfoldable pub is_blocking : DeploymentStatus → Bool
is_blocking DeploymentStatus.deploying = true
is_blocking DeploymentStatus.redeploying = true
is_blocking DeploymentStatus.restarting = true
is_blocking DeploymentStatus.stopping = true
is_blocking DeploymentStatus.starting = true
is_blocking _ = false

-- `_ALLOWED_STATUSES`
unfoldable pub is_allowed : OperationName → DeploymentStatus → Bool
is_allowed OperationName.start DeploymentStatus.stopped = true
is_allowed OperationName.start DeploymentStatus.failed = true
is_allowed OperationName.start _ = false
is_allowed OperationName.restart DeploymentStatus.running = true
is_allowed OperationName.restart DeploymentStatus.degraded = true
is_allowed OperationName.restart DeploymentStatus.failed = true
is_allowed OperationName.restart _ = false
is_allowed OperationName.stop DeploymentStatus.running = true
is_allowed OperationName.stop DeploymentStatus.degraded = true
is_allowed OperationName.stop DeploymentStatus.failed = true
is_allowed OperationName.stop _ = false

-- `_TRANSITION_STATUS`
unfoldable pub transition_status : OperationName → DeploymentStatus
transition_status OperationName.restart = DeploymentStatus.restarting
transition_status OperationName.stop = DeploymentStatus.stopping
transition_status OperationName.start = DeploymentStatus.starting

pub data OperationError : Type 0 where
  busy : DeploymentStatus → OperationError
  not_allowed : OperationName → DeploymentStatus → OperationError

-- `none` where the function returns, else the error that it raises.
unfoldable pub validate_operation : Deployment → OperationName → Option OperationError
unfolding is_blocking is_allowed
validate_operation d operation =
    if is_blocking d.status
    then some (busy d.status)
    else if is_allowed operation d.status
    then none
    else some (not_allowed operation d.status)

-- What follows the validation.
unfoldable pub created :
    ℕ
    → Deployment
    → OperationName
    → Option OperationError
    → Result OperationError (Job × Deployment)
unfolding transition_status
created id d operation (some e) = err e
created id d operation none = ok (
  create_job id d.id JobType.deployment_operation TargetType.deployment,
  record d { last_job_id = some id; status = transition_status operation },
)

-- The new job, with the id that the database gives, and the row of the deployment; both are
-- committed.
unfoldable pub create_operation_job :
    ℕ → Deployment → OperationName → Result OperationError (Job × Deployment)
unfolding validate_operation created
create_operation_job id d operation = created id d operation (validate_operation d operation)

abbrev secret_tokens : List String
secret_tokens = "password" ∷ "passwd" ∷ "pwd" ∷ "token" ∷ "key" ∷ "secret" ∷ []

-- The values of the variables whose names say that they are secret, which are listed once more.
unfoldable pub secret_env_values : List (String × String) → List String
secret_env_values [] = []
secret_env_values ((key, value) ∷ rest) =
    let values = secret_env_values rest in
    if any (λ token. contains token (lower key)) secret_tokens then value ∷ values else values

-- `deployment_secrets` of this module
unfoldable pub operation_secrets : Deployment → List String
unfolding secret_env_values
operation_secrets d = non_empty (
    d.model_path
    ∷ d.model_path
    ∷ (env_values d.docker_config.env
        ++ (secret_env_values d.docker_config.env ++ volume_paths d.docker_config.volumes)))

abbrev excerpt_text : (String → String) → CommandResult → String
excerpt_text repr res =
    "exit_code="
    <> show_exit res.exit_code
    <> " stdout="
    <> repr (strip res.stdout)
    <> " stderr="
    <> repr (strip res.stderr)

abbrev cut : ℕ → String → String
cut limit text = if ltb limit (count text) then take_chars limit text <> "...<truncated>" else text

unfoldable pub result_excerpt : Patterns → (String → String) → CommandResult → List String → String
result_excerpt p repr res secrets = mask_secret p (cut 600 (excerpt_text repr res)) secrets
