-- ===== src/Db/Results.antt =====
-- The dictionaries that the jobs store in `Job.result`, as records: those of
-- services/environment/runner.py, of services/health_service.py, and of the jobs of a deployment.
use sglang_ops_stack.Base.{ℕ, String, Bool, List, Option}
use sglang_ops_stack.Base.Show.{ℤ}
use sglang_ops_stack.Remote.Spec.{CommandRisk, Summary}
use sglang_ops_stack.Json.{Value}

-- services/environment/error_codes.py
pub data EnvironmentErrorCode : Type 0 where
  ssh_connect_failed unsupported_os no_nvidia_gpu driver_not_ready docker_not_installed
        nvidia_runtime_missing runtime_verify_failed command_timeout :
      EnvironmentErrorCode

pub data StepId : Type 0 where
  ssh os gpu driver docker nvidia_runtime container_test : StepId

pub data StepStatus : Type 0 where
  passed failed skipped reboot_required waiting_confirmation : StepStatus

pub record CommandRecord : Type 0 where
  pub id : String
  pub summary : String
  pub command : String
  pub risk : CommandRisk
  pub exit_code : Option ℤ
  pub timed_out : Bool
  pub stdout : String
  pub stderr : String
  pub started_at : ℕ
  pub finished_at : ℕ

pub record Step : Type 0 where
  pub id : StepId
  pub name : String
  pub status : StepStatus
  pub summary : String
  pub commands : List CommandRecord
  pub error_code : Option EnvironmentErrorCode

pub data PlanItem : Type 0 where
  install : Summary → PlanItem
  manual : (id description risk : String) → (resume_step : StepId) → PlanItem

pub record EnvironmentResult : Type 0 where
  pub steps : List Step
  pub install_plan : List PlanItem
  pub reboot_required : Bool
  pub resume_step : Option StepId
  pub risk_notice : Option String

pub data HealthStatus : Type 0 where
  ok warn error skipped unknown : HealthStatus

-- A value of a JSON object: a string, or any other by its text.
pub data JsonValue : Type 0 where
  text : String → JsonValue
  other : String → JsonValue

abbrev pub JsonObject : Type 0
JsonObject = List (String × JsonValue)

-- The dictionary `details` of a layer.
pub data LayerDetails : Type 0 where
  no_details : LayerDetails
  of_command : (exit_code : Option ℤ) → (stdout : String) → LayerDetails
  of_response : (status_code : Option ℕ) → (payload : Option JsonObject) → LayerDetails
  of_metrics : (status_code : Option ℕ) → (metrics_url : String) → (reachable : Bool) → LayerDetails
  metrics_disabled : LayerDetails

pub record HealthLayerResult : Type 0 where
  pub name : String
  pub status : HealthStatus
  pub message : String
  pub checked_at : ℕ
  pub details : LayerDetails

-- The dictionary of `_aggregate`.
pub record Health : Type 0 where
  pub status : HealthStatus
  pub checked_at : ℕ
  pub layers : List HealthLayerResult

pub data OperationName : Type 0 where
  restart stop start : OperationName

pub data DeploymentStatus : Type 0 where
  draft deploying redeploying restarting stopping starting running degraded stopped failed :
      DeploymentStatus

pub data JobResult : Type 0 where
  environment : EnvironmentResult → JobResult
  deployed : (deployment_id : ℕ) → Health → JobResult
  operated : OperationName → DeploymentStatus → Option Health → JobResult
  redeploy_requested :
      (requested_config plan : Value) → (previous_status : DeploymentStatus) → JobResult
  redeployed :
      (deployment_id : ℕ)
      → (current_revision_id : Option ℕ) → (current_version : ℕ) → Health
      → JobResult
