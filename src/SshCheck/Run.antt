-- ===== src/SshCheck/Run.antt =====
-- services/ssh_connect_check.py: `run_ssh_connect_check` and its task. `executor.run` is a
-- parameter; its timeout is one of the settings, in seconds.
use sglang_ops_stack.Base.{
  ℕ, suc, String, ◌<>◌, Bool, not, ◌&&◌, List, [], ◌∷◌, ◌++◌, Option, none, some, any, ◌==◌,
  if◌then◌else◌,
}
use sglang_ops_stack.Base.Text.{is_empty, or_else, strip}
use sglang_ops_stack.Base.Show.{show, show_exit, show_bool}
use sglang_ops_stack.Base.Exec.{Result, ok, err, Exec, pure, raise, gets, modify, try, ◌>>=◌, ◌>>◌}
use sglang_ops_stack.Remote.{CommandResult, exit_allowed, SshErrorKind, Request}
use sglang_ops_stack.Masking.{Patterns, mask_secret}
use sglang_ops_stack.Db.{Host, Level, info, warning, error, Session, CheckStatus, commit}
use sglang_ops_stack.Db.Loaded.{Loaded, no_job, no_target, loaded, swallow}
use sglang_ops_stack.Jobs.{add_log, mark_running, mark_succeeded, mark_failed}

abbrev pub whoami_command : String
whoami_command = "whoami"

abbrev pub uname_command : String
uname_command = "uname -a"

abbrev pub gpu_query_command : String
gpu_query_command = "nvidia-smi --query-gpu=name,driver_version --format=csv,noheader"

abbrev pub allowed_commands : List String
allowed_commands = whoami_command ∷ uname_command ∷ gpu_query_command ∷ []

-- An `SSHExecutionError` of some class, or any other exception; with its `str`.
pub data CheckException : Type 0 where
  ssh : SshErrorKind → String → CheckException
  other : String → CheckException

-- What a run answers may depend on all the commands that were run before.
pub record World : Type 0 where
  pub run : List String → Request → Result CheckException CommandResult
  pub clock : ℕ → ℕ
  pub patterns : Patterns
  pub command_timeout : ℕ

pub record CheckState : Type 0 where
  pub db : Session Host
  pub open db use *
  pub ran : List String

abbrev pub Action : Type 0 → Type 0
Action A = Exec CheckException CheckState A

abbrev pub on_db : (Session Host → Session Host) → Action Unit
on_db f = modify (λ s. record s { db = f s.db })

abbrev pub on_host : (Host → Host) → Action Unit
on_host f =
    modify (λ s. record s { db = record s.db { rows = record s.db.rows { target = f s.target } } })

-- `getattr(exc, "error_code", "ssh_error")`
unfoldable pub error_code : SshErrorKind → String
error_code SshErrorKind.execution_failed = "ssh_error"
error_code SshErrorKind.auth_failed = "auth_failed"
error_code SshErrorKind.connect_timeout = "connect_timeout"
error_code SshErrorKind.command_timeout = "command_timeout"

-- `text or None`
abbrev text_or_none : String → Option String
text_or_none text = if is_empty text then none else some text

-- The negation of `exit_code != 0 or timed_out`
unfoldable pub is_success : CommandResult → Bool
is_success res = exit_allowed res.exit_code (0 ∷ []) && not res.timed_out

module _ (w : World) where
  -- `datetime.now(UTC)`
  unfoldable pub now : Action ℕ
  now s = (ok (w.clock s.ticks), record s { db = record s.db { ticks = suc s.ticks } })

  unfoldable pub add_check_log : Level → String → List String → Action Unit
  add_check_log level message secrets =
      modify (λ s. record s { db = add_log w.patterns level message secrets s.db })

  -- `_mark_host_failed`
  unfoldable pub mark_host_failed : Action Unit
  mark_host_failed = do
    on_host (λ h. record h { last_check_status = some CheckStatus.failed })
    time ← now
    on_host (λ h. record h { last_check_at = some time })
    on_db commit

  -- `_fail_job`
  unfoldable pub fail_job : String → String → List String → Action Unit
  fail_job code error_message secrets = do
    let message = mask_secret w.patterns error_message secrets
    add_check_log error message secrets
    on_db (mark_failed w.clock w.patterns code message secrets)

  module _ (password : String) where
    -- The call of `executor.run`
    unfoldable pub send : String → Action CommandResult
    send command s =
        let request : Request = record {
          host = s.target.ip;
          port = s.target.ssh_port;
          username = s.target.ssh_user;
          password = password;
          command = command;
          timeout = w.command_timeout;
          stdin = none;
        } in
        let outcome = w.run s.ran request in
        let s' = record s { ran = s.ran ++ command ∷ [] } in
        elim outcome [ ok res ↦ pure res s' | err e ↦ raise e s' ]

    -- `_run_command`
    unfoldable pub run_command : String → Action CommandResult
    run_command command =
        if any (λ c. command == c) allowed_commands
        then send command
        else raise (other "command is not allowed")

    unfoldable pub shown : String → String → String
    shown label text = if is_empty text then "" else label <> text

    -- `_log_result`
    unfoldable pub log_result : String → CommandResult → Action Unit
    unfolding shown is_success
    log_result command res =
        add_check_log (if is_success res then info else warning)
          (command
            <> ": exit_code="
            <> show_exit res.exit_code
            <> " timed_out="
            <> show_bool res.timed_out
            <> shown " stdout=" (mask_secret w.patterns (strip res.stdout) (password ∷ []))
            <> shown " stderr=" (mask_secret w.patterns (strip res.stderr) (password ∷ [])))
          (password ∷ [])

    -- Runs a command, writes down its result, and raises unless it succeeded.
    unfoldable pub require : String → String → Action CommandResult
    require command message = do
      res ← run_command command
      log_result command res
      if is_success res then pure res else raise (ssh SshErrorKind.execution_failed message)

    unfoldable pub masked_output : CommandResult → Option String
    masked_output res = text_or_none (mask_secret w.patterns (strip res.stdout) (password ∷ []))

    unfoldable pub note_gpu : CommandResult → Action Unit
    unfolding masked_output
    note_gpu res =
        if is_success res
        then on_host (λ h. record h { gpu_info = masked_output res })
        else add_check_log warning "GPU probe failed or timed out; SSH connectivity still succeeded"
            (password ∷ [])

    unfoldable pub record_success : CommandResult → Action Unit
    unfolding masked_output
    record_success uname = do
      on_host (λ h. record h {
        os_info = masked_output uname;
        last_check_status = some CheckStatus.succeeded;
      })
      time ← now
      on_host (λ h. record h { last_check_at = some time })
      on_db commit
      add_check_log info "SSH connectivity check succeeded" []
      on_db (mark_succeeded w.clock)

    -- The body of the `try`
    unfoldable pub probe : Action Unit
    probe = do
      whoami ← require whoami_command "whoami command failed"
      uname ← require uname_command "uname command failed"
      gpu ← run_command gpu_query_command
      log_result gpu_query_command gpu
      note_gpu gpu
      record_success uname

    -- The `except` clauses
    unfoldable pub on_exception : Result CheckException Unit → Action Unit
    on_exception (ok a) = pure tt
    on_exception (err (ssh kind message)) = do
      mark_host_failed
      fail_job (error_code kind) (or_else message "SSH connectivity check failed") (password ∷ [])
    on_exception (err (other message)) = do
      mark_host_failed
      fail_job "ssh_error" (or_else message "Unexpected SSH connectivity check failure")
          (password ∷ [])

    -- `run_ssh_connect_check`, on the rows that were found
    unfoldable pub check_connection : Action Unit
    check_connection = do
      on_db (mark_running w.clock)
      host ← gets (λ s. s.target)
      add_check_log info
          ("Starting SSH connectivity check for host " <> host.name <> " (" <> host.ip <> ")")
          (password ∷ [])
      outcome ← try probe
      on_exception outcome

    -- `_fail_job` on a job without its host
    unfoldable pub host_not_found : Session Unit → Session Unit
    host_not_found db =
        let message =
          mask_secret w.patterns ("host " <> show db.job.target_id <> " not found")
            (password ∷ []) in
        mark_failed w.clock w.patterns "host_not_found" message (password ∷ [])
          (add_log w.patterns error message (password ∷ []) db)

    unfoldable pub run_ssh_connect_check : Loaded Host → Result CheckException Unit × Loaded Host
    unfolding host_not_found
    run_ssh_connect_check no_job = (ok tt, no_job)
    run_ssh_connect_check (no_target db) = (ok tt, no_target (host_not_found db))
    run_ssh_connect_check (loaded db) =
        let (outcome, s) = check_connection (record { db = db; ran = [] }) in (outcome, loaded s.db)

    unfoldable pub run_ssh_connect_check_task : Loaded Host → Loaded Host
    unfolding run_ssh_connect_check
    run_ssh_connect_check_task found = swallow (run_ssh_connect_check found)
