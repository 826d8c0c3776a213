-- ===== src/Environment/Execute.antt =====
-- What running a command keeps: every property of the job, the log, the password, the commands
-- sent, the steps and the host that admits the log messages of the runner and the command itself.
use sglang_ops_stack.Base.{String, [], ◌∷◌, ◌++◌, ◌≡◌, refl, arith}
use sglang_ops_stack.Base.Exec.{Result, ok, err, modify, ◌>>=◌}
use sglang_ops_stack.Base.Exec.Keeps.{Keeps, Keeps-modify, Keeps-bind, Keeps-try, keeps_rules}
use sglang_ops_stack.Remote.{CommandResult, execute_spec, ssh, command_timeout}
use sglang_ops_stack.Remote.Spec.{CommandSpec, Checked, valid, invalid}
use sglang_ops_stack.Db.{Level}
use sglang_ops_stack.Db.Results.{StepId}
use sglang_ops_stack.Environment.Runner.{
  World, EnvironmentException, executor, Runner, or_raise, log, log_result, record_command, send,
  timed_out_result, settle, execute,
}

pub record Inner (w : World) (P : Runner → Type 0) (Allowed : CommandSpec → Type 0) : Type 0 where
  pub elsewhere :
      (r r' : Runner)
      → r.rows ≡ r'.rows
      → r.saved ≡ r'.saved
      → r.password ≡ r'.password
      → r.sent ≡ r'.sent
      → r.steps ≡ r'.steps
      → P r
      → P r'
  pub logging : (level : Level) (message : String) → Keeps P (log w level message)
  pub sending :
      (spec : CommandSpec)
      → Allowed spec
      → (r : Runner) → P r
      → P (record r { sent = r.sent ++ spec ∷ [] })

module _ {w : World} {P : Runner → Type 0} {Allowed : CommandSpec → Type 0}
    (inner : Inner w P Allowed) where
  -- A change of the fields that the property does not look at.
  Keeps-inner :
      (f : Runner → Runner)
      → ((r : Runner) → r.rows ≡ (f r).rows)
      → ((r : Runner) → r.saved ≡ (f r).saved)
      → ((r : Runner) → r.password ≡ (f r).password)
      → ((r : Runner) → r.sent ≡ (f r).sent)
      → ((r : Runner) → r.steps ≡ (f r).steps)
      → Keeps P (modify {E = EnvironmentException} f)
  Keeps-inner f rows saved password sent steps =
      Keeps-modify f
        (λ r h. inner.elsewhere r (f r) (rows r) (saved r) (password r) (sent r) (steps r) h)

  ruleset elsewhere = (Keeps-inner, refl)

  or_raise-Keeps : {A : Type 0} (c : Checked A) → Keeps P (or_raise c)
  unfolding or_raise
  or_raise-Keeps (valid a) = search keeps_rules
  or_raise-Keeps (invalid e) = search keeps_rules

  log-Keeps : (level : Level) (message : String) → Keeps P (log w level message)
  log-Keeps level message = inner.logging level message

  ruleset basic = (keeps_rules, log-Keeps, or_raise-Keeps)

  log_result-Keeps : (spec : CommandSpec) (res : CommandResult) → Keeps P (log_result w spec res)
  unfolding log_result
  log_result-Keeps spec res = search basic

  record_command-Keeps :
      (id : StepId) (spec : CommandSpec) (res : CommandResult)
      → Keeps P (record_command w id spec res)
  unfolding record_command
  record_command-Keeps id spec res = search (basic, log_result-Keeps, elsewhere)

  sent-Keeps : (spec : CommandSpec) → Allowed spec → (r : Runner) → P r → P (send w spec r).1
  unfolding send execute_spec ◌>>=◌
  sent-Keeps spec allowed r h = ground (arith, inner.sending spec allowed r)

  send-Keeps : (spec : CommandSpec) → Allowed spec → Keeps P (send w spec)
  send-Keeps spec allowed = record { at = sent-Keeps spec allowed }

  timed_out_result-Keeps : (message : String) → Keeps P (timed_out_result w message)
  unfolding timed_out_result
  timed_out_result-Keeps message = record {
    at = λ r h. inner.elsewhere r _ refl refl refl refl refl h;
  }

  settle-Keeps :
      (id : StepId) (spec : CommandSpec) (res : Result EnvironmentException CommandResult)
      → Keeps P (settle w id spec res)
  unfolding settle
  settle-Keeps id spec (ok res) = search (basic, record_command-Keeps)
  settle-Keeps id spec (err (executor (ssh command_timeout message))) =
      search (basic, record_command-Keeps, timed_out_result-Keeps)
  settle-Keeps id spec (err _) = search basic

  pub execute-Keeps :
      (spec : CommandSpec) (id : StepId) → Allowed spec → Keeps P (execute w spec id)
  unfolding execute
  execute-Keeps spec id allowed = Keeps-bind _ _ (search elsewhere) (λ _.
      Keeps-bind _ _ (search basic)
        (λ _. Keeps-bind _ _ (Keeps-try _ (send-Keeps spec allowed)) (settle-Keeps id spec)))
