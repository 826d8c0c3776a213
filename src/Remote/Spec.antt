-- ===== src/Remote/Spec.antt =====
-- remote/command_spec.py: the description of one remote command, its validation and its text.
pub mod Quote
pub mod Shell
pub mod Words
use sglang_ops_stack.Base.{
  ℕ, String, Bool, true, false, ◌&&◌, ◌||◌, List, [], ◌∷◌, ◌++◌, Option, none, some, any, map, ◌==◌,
  if◌then◌else◌,
}
use sglang_ops_stack.Base.Text.{is_empty, contains, join}
use Quote.{quote}

pub data CommandRisk : Type 0 where
  read_only service_change package_install docker_run : CommandRisk

-- One constructor for each `raise` of `validate`, in its order.
pub data CommandValidationError : Type 0 where
  not_allowed : String → CommandValidationError
  invalid_id multi_line_value nul_in_stdin undeclared_risk : CommandValidationError

abbrev pub allowed_executables : List String
allowed_executables =
    "apt-get" ∷ "cat" ∷ "curl" ∷ "docker" ∷ "dpkg-query" ∷ "gpg" ∷ "id" ∷ "install" ∷ "lspci"
    ∷ "nvidia-ctk" ∷ "nvidia-smi" ∷ "python3" ∷ "systemctl" ∷ "tee" ∷ "uname" ∷ []

abbrev pub forbidden_tokens : List String
forbidden_tokens = ";" ∷ "&&" ∷ "||" ∷ "|" ∷ ">" ∷ "<" ∷ "`" ∷ "$" ∷ []

pub record CommandSpec : Type 0 where
  pub id : String
  pub executable : String
  pub args : List String
  pub sudo : Bool
  pub timeout_seconds : ℕ
  pub allowed_exit_codes : List ℕ
  pub redact_patterns : List String
  pub risk : CommandRisk
  pub description : String
  pub stdin : Option String

-- The defaults of the dataclass.
abbrev pub command_spec : String → String → List String → String → CommandSpec
command_spec id executable args description = record {
  id = id;
  executable = executable;
  args = args;
  sudo = false;
  timeout_seconds = 30;
  allowed_exit_codes = 0 ∷ [];
  redact_patterns = [];
  risk = read_only;
  description = description;
  stdin = none;
}

abbrev pub is_read_only : CommandRisk → Bool
is_read_only read_only = true
is_read_only _ = false

-- `"\x00" in value or "\n" in value or "\r" in value`
unfoldable pub is_multi_line : String → Bool
is_multi_line value = contains "\0" value || contains "\n" value || contains "\r" value

unfoldable pub has_nul : Option String → Bool
has_nul none = false
has_nul (some text) = contains "\0" text

-- `none` where the method returns, else the error that it raises.
unfoldable pub validate : CommandSpec → Option CommandValidationError
unfolding is_multi_line has_nul
validate s =
    if any (λ e. s.executable == e) allowed_executables
    then if is_empty s.id || any (λ token. contains token s.id) forbidden_tokens
      then some invalid_id
      else if any is_multi_line (s.executable ∷ s.args)
      then some multi_line_value
      else if has_nul s.stdin
      then some nul_in_stdin
      else if s.sudo && is_read_only s.risk
      then some undeclared_risk
      else none
    else some (not_allowed s.executable)

-- A value, or the error of `validate`, which is raised.
pub data Checked {ℓ} (A : Type ℓ) : Type ℓ where
  valid : A → Checked A
  invalid : CommandValidationError → Checked A

abbrev pub words : CommandSpec → List String
words s = let command = s.executable ∷ s.args in if s.sudo then "sudo" ∷ "-n" ∷ command else command

abbrev pub check {ℓ} : {A : Type ℓ} → CommandSpec → A → Checked A
check s a = elim (validate s) [ none ↦ valid a | some e ↦ invalid e ]

unfoldable pub argv : CommandSpec → Checked (List String)
argv s = check s (words s)

unfoldable pub command_line : CommandSpec → Checked String
unfolding argv
command_line s = elim (argv s) [
  | valid parts ↦ valid (join " " (map quote parts))
  | invalid e ↦ invalid e
]

-- The dictionary of `safe_summary`. `stdin` is shown by a fixed text, so only its presence is kept.
pub record Summary : Type 0 where
  pub id : String
  pub command : String
  pub sudo : Bool
  pub risk : CommandRisk
  pub description : String
  pub timeout_seconds : ℕ
  pub stdin : Option String

abbrev managed : Option String → Option String
managed none = none
managed (some text) = some "<fixed managed content>"

unfoldable pub safe_summary : CommandSpec → Checked Summary
unfolding command_line
safe_summary s = elim (command_line s) [
  | valid command ↦ valid (record {
    id = s.id;
    command = command;
    sudo = s.sudo;
    risk = s.risk;
    description = s.description;
    timeout_seconds = s.timeout_seconds;
    stdin = managed s.stdin;
  })
  | invalid e ↦ invalid e
]
