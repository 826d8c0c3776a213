-- ===== src/Db.antt =====
-- db/models/ and domain_enums.py: the rows that the jobs work on, and the session that holds them.
-- A task loads the row of its job and of its target, and works on these objects; no other row can
-- change, so a session holds just those two and the log rows of the job. `rows` is what the objects
-- say, `saved` what was committed last. `created_at` and `updated_at` are left to the database.
pub mod Results
pub mod Loaded
use sglang_ops_stack.Base.{ℕ, String, Bool, Option, List, none, some}
use sglang_ops_stack.Json.{Entries}
use Results.{JobResult, Health, DeploymentStatus}

pub data JobStatus : Type 0 where
  pending running waiting_confirmation succeeded failed canceled : JobStatus

pub data JobType : Type 0 where
  ssh_connect_check environment_check deployment deployment_operation redeployment : JobType

pub data TargetType : Type 0 where
  host deployment : TargetType

pub record Job : Type 0 where
  pub id : ℕ
  pub type : JobType
  pub status : JobStatus
  pub target_type : TargetType
  pub target_id : ℕ
  pub started_at : Option ℕ
  pub finished_at : Option ℕ
  pub error_code : Option String
  pub error_message : Option String
  pub result : Option JobResult

pub data Level : Type 0 where
  info warning error : Level
  -- "INFO" and "ERROR", as the jobs of a deployment spell them
  capital_info capital_error : Level

pub record JobLog : Type 0 where
  pub job_id : ℕ
  pub level : Level
  pub message : String

pub data CheckStatus : Type 0 where
  succeeded failed : CheckStatus

pub record Host : Type 0 where
  pub id : ℕ
  pub name : String
  pub ip : String
  pub ssh_port : ℕ
  pub ssh_user : String
  pub auth_type : String
  pub tags : Option String
  pub note : Option String
  pub os_info : Option String
  pub gpu_info : Option String
  pub last_check_status : Option CheckStatus
  pub environment_status : Option String
  pub last_check_at : Option ℕ

pub record DockerVolume : Type 0 where
  pub host_path : String
  pub container_path : String
  pub mode : String

-- `env` is the dictionary in its order.
pub record DockerConfig : Type 0 where
  pub volumes : List DockerVolume
  pub env : List (String × String)
  pub gpus : Option String
  pub network : Option String
  pub privileged : Bool
  pub user : Option String
  pub ipc : Option String
  pub shm_size : Option String
  pub remove_existing : Bool

pub data LaunchStyle : Type 0 where
  sglang python_module : LaunchStyle

-- A value of `extra_args`: a text, a natural number, or another number, by its `str`.
pub data ExtraValue : Type 0 where
  extra_text : String → ExtraValue
  extra_int : ℕ → ExtraValue
  extra_number : String → ExtraValue

-- A number that may be a float is given by its `str`.
pub record SglangConfig : Type 0 where
  pub model_path : Option String
  pub served_model_name : Option String
  pub host : String
  pub port : ℕ
  pub tp_size : ℕ
  pub dp_size : ℕ
  pub pp_size : ℕ
  pub mem_fraction_static : Option String
  pub trust_remote_code : Bool
  pub enable_cache_report : Bool
  pub enable_metrics : Bool
  pub launch_style : LaunchStyle
  pub extra_args : List (String × ExtraValue)

pub record Deployment : Type 0 where
  pub id : ℕ
  pub host_id : ℕ
  pub name : String
  pub container_name : String
  pub image : String
  pub model_path : String
  pub served_model_name : Option String
  pub bind_host : String
  pub port : ℕ
  pub tp_size : ℕ
  pub dp_size : ℕ
  pub pp_size : ℕ
  pub mem_fraction_static : Option String
  pub docker_config : DockerConfig
  pub sglang_config : SglangConfig
  pub status : DeploymentStatus
  pub service_url : Option String
  pub metrics_url : Option String
  pub last_command_preview : Option String
  pub last_health_status : Option Health
  pub current_revision_id : Option ℕ
  pub current_version : ℕ
  pub last_job_id : Option ℕ
  pub last_error_code : Option String
  pub last_error_message : Option String
  pub last_checked_at : Option ℕ

-- `config_snapshot` is the dictionary of the payload.
pub record DeploymentRevision : Type 0 where
  pub id : ℕ
  pub deployment_id : ℕ
  pub revision_no : ℕ
  pub config_snapshot : Entries
  pub command_preview : String
  pub change_summary : Option String
  pub created_by : Option String

pub record Rows (T : Type 0) : Type 0 where
  pub job : Job
  pub target : T
  pub logs : List JobLog

-- `ticks` counts the readings of the clock.
pub record Session (T : Type 0) : Type 0 where
  pub rows : Rows T
  pub open rows use *
  pub saved : Rows T
  pub ticks : ℕ

module _ {T : Type 0} where
  abbrev pub commit : Session T → Session T
  commit db = record db { saved = db.rows }

  -- `db.rollback()`
  abbrev pub rollback : Session T → Session T
  rollback db = record db { rows = db.saved }
