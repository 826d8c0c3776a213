-- ===== src/Remote.antt =====
-- remote/: what is run on a host, and what comes back. `result.py`, and `SSHExecutor.execute_spec`
-- of `executor.py` over the SSH client, which is a parameter.
pub mod Spec
pub mod Channel
pub mod Deadline
mod Tests
use sglang_ops_stack.Base.{ℕ, zero, String, Bool, List, [], ◌∷◌, ◌++◌, Option, none, some, any, eqb}
use sglang_ops_stack.Base.Show.{ℤ, pos, negsuc}
use sglang_ops_stack.Base.Exec.{Result, ok, err}
use Spec.{CommandSpec, CommandValidationError, command_line, valid, invalid}

pub record CommandResult : Type 0 where
  pub exit_code : Option ℤ
  pub stdout : String
  pub stderr : String
  pub timed_out : Bool
  pub started_at : ℕ
  pub finished_at : ℕ

-- `result.exit_code in spec.allowed_exit_codes`
unfoldable pub exit_allowed : Option ℤ → List ℕ → Bool
exit_allowed none codes = any (λ _. Bool.false) codes
exit_allowed (some (pos n)) codes = any (eqb n) codes
exit_allowed (some (negsuc n)) codes = any (λ _. Bool.false) codes

-- `SSHExecutionError` and its subclasses.
pub data SshErrorKind : Type 0 where
  execution_failed auth_failed connect_timeout command_timeout : SshErrorKind

-- What `execute_spec` raises: an error of SSH, the `ValueError` of `validate`, another
-- `RuntimeError`, or anything else.
pub data ExecutorError : Type 0 where
  ssh : SshErrorKind → String → ExecutorError
  invalid_spec : CommandValidationError → ExecutorError
  runtime : String → ExecutorError
  unexpected : String → ExecutorError

-- The arguments of `SSHExecutor.run`.
pub record Request : Type 0 where
  pub host : String
  pub port : ℕ
  pub username : String
  pub password : String
  pub command : String
  pub timeout : ℕ
  pub stdin : Option String

pub record Login : Type 0 where
  pub host : String
  pub port : ℕ
  pub username : String
  pub password : String

-- What a run answers may depend on all the specifications that were sent before.
abbrev pub Remote : Type 0
Remote = List CommandSpec → Request → Result ExecutorError CommandResult

-- The outcome, and the specifications sent so far. A specification that is refused is not sent.
unfoldable pub execute_spec :
    Remote
    → Login
    → CommandSpec
    → List CommandSpec
    → Result ExecutorError CommandResult × List CommandSpec
execute_spec run login spec sent = elim (command_line spec) [
  | invalid e ↦ (err (invalid_spec e), sent)
  | valid line ↦ (
    run sent (record {
      host = login.host;
      port = login.port;
      username = login.username;
      password = login.password;
      command = line;
      timeout = spec.timeout_seconds;
      stdin = spec.stdin;
    }),
    sent ++ spec ∷ [],
  )
]
