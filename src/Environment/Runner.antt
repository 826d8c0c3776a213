-- ===== src/Environment/Runner.antt =====
-- services/environment/runner.py: the state of `EnvironmentCheckRunner`, and the methods that its
-- checks are made of.
use sglang_ops_stack.Base.{
  ℕ, suc, String, ◌<>◌, Bool, true, false, not, ◌&&◌, List, [], ◌∷◌, ◌++◌, Option, none, some, any,
  eqb, if◌then◌else◌,
}
use sglang_ops_stack.Base.Text.{is_empty, or_else, strip}
use sglang_ops_stack.Base.Show.{pos, show_exit, show_bool}
use sglang_ops_stack.Base.Exec.{Result, ok, err, Exec, pure, raise, gets, modify, try, ◌>>=◌, ◌>>◌}
use sglang_ops_stack.Remote.{
  CommandResult, exit_allowed, ssh, command_timeout, ExecutorError, invalid_spec, Login, Remote,
  execute_spec,
}
use sglang_ops_stack.Remote.Spec.{CommandSpec, Checked, valid, invalid, command_line}
use sglang_ops_stack.Masking.{Patterns, mask_secret}
use sglang_ops_stack.Db.{Host, Level, info, warning, error, Session, CheckStatus, commit}
use sglang_ops_stack.Db.Results.{
  EnvironmentErrorCode, StepId, StepStatus, CommandRecord, Step, PlanItem, JobResult, environment,
}
use sglang_ops_stack.Jobs.{add_log, save_result, mark_waiting_confirmation, mark_failed}

-- What lies outside of the program: the hosts, the clock, and the library functions of `Patterns`.
pub record World : Type 0 where
  pub run : Remote
  pub clock : ℕ → ℕ
  pub patterns : Patterns

-- What the methods raise: what `execute_spec` raises, and `_EnvFailure`.
pub data EnvironmentException : Type 0 where
  executor : ExecutorError → EnvironmentException
  env_failure : EnvironmentErrorCode → String → EnvironmentException

-- `_step_commands` is the function `commands`: a step that ran nothing has the empty list.
pub record Runner : Type 0 where
  pub db : Session Host
  pub open db use *
  pub password : String
  pub steps : List Step
  pub install_plan : List PlanItem
  pub reboot_required : Bool
  pub resume_step : Option StepId
  pub risk_notice : Option String
  pub commands : StepId → List CommandRecord
  pub current_step : Option StepId
  pub sent : List CommandSpec

abbrev pub Action : Type 0 → Type 0
Action A = Exec EnvironmentException Runner A

-- `EnvironmentCheckRunner(db, job, host, password, executor)`
unfoldable pub new_runner : Session Host → String → Runner
new_runner db password = record {
  db = db;
  password = password;
  steps = [];
  install_plan = [];
  reboot_required = false;
  resume_step = none;
  risk_notice = none;
  commands = λ _. [];
  current_step = none;
  sent = [];
}

unfoldable pub step_number : StepId → ℕ
step_number StepId.ssh = 0
step_number StepId.os = 1
step_number StepId.gpu = 2
step_number StepId.driver = 3
step_number StepId.docker = 4
step_number StepId.nvidia_runtime = 5
step_number StepId.container_test = 6

unfoldable pub same_step : StepId → StepId → Bool
unfolding step_number
same_step a b = eqb (step_number a) (step_number b)

unfoldable pub step_name : StepId → String
step_name StepId.ssh = "SSH"
step_name StepId.os = "OS / package manager"
step_name StepId.gpu = "GPU visibility"
step_name StepId.driver = "NVIDIA driver"
step_name StepId.docker = "Docker"
step_name StepId.nvidia_runtime = "NVIDIA Container Toolkit / Docker runtime"
step_name StepId.container_test = "Container GPU test"

unfoldable pub code_text : EnvironmentErrorCode → String
code_text EnvironmentErrorCode.ssh_connect_failed = "SSH_CONNECT_FAILED"
code_text EnvironmentErrorCode.unsupported_os = "UNSUPPORTED_OS"
code_text EnvironmentErrorCode.no_nvidia_gpu = "NO_NVIDIA_GPU"
code_text EnvironmentErrorCode.driver_not_ready = "DRIVER_NOT_READY"
code_text EnvironmentErrorCode.docker_not_installed = "DOCKER_NOT_INSTALLED"
code_text EnvironmentErrorCode.nvidia_runtime_missing = "NVIDIA_RUNTIME_MISSING"
code_text EnvironmentErrorCode.runtime_verify_failed = "RUNTIME_VERIFY_FAILED"
code_text EnvironmentErrorCode.command_timeout = "COMMAND_TIMEOUT"

abbrev pub is_timeout : EnvironmentErrorCode → Bool
is_timeout EnvironmentErrorCode.command_timeout = true
is_timeout _ = false

-- `_result`: an absent key is `false` or `none` here.
unfoldable pub result : Runner → JobResult
result r = environment (record {
  steps = r.steps;
  install_plan = r.install_plan;
  reboot_required = r.reboot_required;
  resume_step = r.resume_step;
  risk_notice = r.risk_notice;
})

-- `_ok`
unfoldable pub is_ok : CommandResult → CommandSpec → Bool
is_ok res spec = not res.timed_out && exit_allowed res.exit_code spec.allowed_exit_codes

-- Assigns to fields of the host, without a commit.
abbrev pub on_host : (Host → Host) → Runner → Runner
on_host f r = record r { db = record r.db { rows = record r.db.rows { target = f r.target } } }

abbrev pub on_db : (Session Host → Session Host) → Action Unit
on_db f = modify (λ r. record r { db = f r.db })

-- `self.steps.append(_step(…))`, with the commands of the step.
unfoldable pub add_step : StepId → StepStatus → String → Option EnvironmentErrorCode → Action Unit
unfolding step_name
add_step id status summary code = modify (λ r. record r {
  steps =
      r.steps
      ++ (record {
        id = id;
        name = step_name id;
        status = status;
        summary = summary;
        commands = r.commands id;
        error_code = code;
      })
        ∷ [];
})

-- A `ValueError` of `validate` is raised.
unfoldable pub or_raise : {A : Type 0} → Checked A → Action A
or_raise (valid a) = pure a
or_raise (invalid e) = raise (executor (invalid_spec e))

module _ (w : World) where
  unfoldable pub log : Level → String → Action Unit
  log level message =
      modify (λ r. record r { db = add_log w.patterns level message (r.password ∷ []) r.db })

  unfoldable pub mask_output : String → Runner → String
  mask_output text r = mask_secret w.patterns (strip text) (r.password ∷ [])

  unfoldable pub shown : String → String → String
  shown label text = if is_empty text then "" else label <> text

  unfoldable pub log_result : CommandSpec → CommandResult → Action Unit
  unfolding shown
  log_result spec res = do
    stdout ← gets (mask_output res.stdout)
    stderr ← gets (mask_output res.stderr)
    log (if is_ok res spec then info else warning) (
        spec.id
        <> ": exit_code="
        <> show_exit res.exit_code
        <> " timed_out="
        <> show_bool res.timed_out
        <> shown " stdout=" stdout
        <> shown " stderr=" stderr)

  -- `_record_command`, with the dictionary of `_command_result`
  unfoldable pub record_command : StepId → CommandSpec → CommandResult → Action Unit
  record_command id spec res = do
    line ← or_raise (command_line spec)
    modify λ r.
        let command : CommandRecord = record {
          id = spec.id;
          summary = spec.description;
          command = line;
          risk = spec.risk;
          exit_code = res.exit_code;
          timed_out = res.timed_out;
          stdout = mask_output res.stdout r;
          stderr = mask_output res.stderr r;
          started_at = res.started_at;
          finished_at = res.finished_at;
        } in
        record r {
          commands = λ j. if same_step j id then r.commands j ++ command ∷ [] else r.commands j;
        }
    log_result spec res

  unfoldable pub send : CommandSpec → Action CommandResult
  send spec r =
      let login : Login = record {
        host = r.target.ip;
        port = r.target.ssh_port;
        username = r.target.ssh_user;
        password = r.password;
      } in
      let (outcome, sent) = execute_spec w.run login spec r.sent in
      let r' = record r { sent = sent } in
      elim outcome [ ok res ↦ pure res r' | err e ↦ raise (executor e) r' ]

  -- The result that stands in for a command that was cut off: exit status 124, at the current time.
  unfoldable pub timed_out_result : String → Action CommandResult
  timed_out_result message r =
      let now = w.clock r.ticks in
      (
        ok (record {
          exit_code = some (pos 124);
          stdout = "";
          stderr = message;
          timed_out = true;
          started_at = now;
          finished_at = now;
        }),
        record r { db = record r.db { ticks = suc r.ticks } },
      )

  -- The handlers of `_execute`, and what follows a result.
  unfoldable pub settle :
      StepId → CommandSpec → Result EnvironmentException CommandResult → Action CommandResult
  settle id spec (ok res) = do
    record_command id spec res
    if res.timed_out
        then raise
            (env_failure EnvironmentErrorCode.command_timeout ("Command timed out: " <> spec.id))
        else pure res
  settle id spec (err (executor (ssh command_timeout message))) = do
    res ← timed_out_result (or_else message ("Command timed out: " <> spec.id))
    record_command id spec res
    raise (
        env_failure EnvironmentErrorCode.command_timeout
          (or_else message ("Command timed out: " <> spec.id)))
  settle id spec (err e) = raise e

  unfoldable pub execute : CommandSpec → StepId → Action CommandResult
  execute spec id = do
    modify (λ r. record r { current_step = some id })
    log info ("Executing " <> spec.id <> ": " <> spec.description)
    outcome ← try (send spec)
    settle id spec outcome

  -- `_save_result`
  unfoldable pub save : Action Unit
  save = modify (λ r. record r { db = save_result (some (result r)) r.db })

  abbrev pub default_notice : String
  default_notice = "Environment check requires explicit installation confirmation"

  unfoldable pub wait_for_confirmation : String → Action Unit
  wait_for_confirmation message = do
    save
    log warning message
    modify (λ r. record r { db = mark_waiting_confirmation (some (result r)) r.db })

  unfoldable pub append_timeout_to : Option StepId → List Step → Action Unit
  append_timeout_to none steps = pure tt
  append_timeout_to (some id) steps =
      if any (λ s. same_step s.id id) steps
      then pure tt
      else add_step id StepStatus.failed "Remote command timed out"
          (some EnvironmentErrorCode.command_timeout)

  unfoldable pub append_timeout_step : Action Unit
  unfolding append_timeout_to
  append_timeout_step = do
    current ← gets (λ r. r.current_step)
    steps ← gets (λ r. r.steps)
    append_timeout_to current steps

  unfoldable pub mark_host_failed : Action Unit
  mark_host_failed = do
    modify (on_host (λ h. record h { last_check_status = some CheckStatus.failed }))
    on_db commit

  unfoldable pub note_timeout : EnvironmentErrorCode → Action Unit
  note_timeout code = if is_timeout code then append_timeout_step else pure tt

  -- `_fail`, behind its first statement
  unfoldable pub record_failure : EnvironmentErrorCode → String → Action Unit
  record_failure code message = do
    mark_host_failed
    save
    safe_message ← gets (λ r. mask_secret w.patterns message (r.password ∷ []))
    log error safe_message
    modify λ r. record r {
      db = mark_failed w.clock w.patterns (code_text code) safe_message (r.password ∷ []) r.db;
    }

  -- `_fail`
  unfoldable pub fail : EnvironmentErrorCode → String → Action Unit
  fail code message = do note_timeout code; record_failure code message
