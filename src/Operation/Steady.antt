-- ===== src/Operation/Steady.antt =====
-- What running a command keeps, in the jobs that log by `_add_log` of jobs/operation_jobs.py.
use sglang_ops_stack.Base.{String, List}
use sglang_ops_stack.Base.Exec.Keeps.{Keeps, Keeps-bind, keeps_rules}
use sglang_ops_stack.Remote.{CommandResult}
use sglang_ops_stack.Remote.Spec.{CommandSpec}
use sglang_ops_stack.Db.{Host, Level}
use sglang_ops_stack.Deployment.World.{World, JobState}
use sglang_ops_stack.Deployment.Steady.{Steady, send-Keeps}
use sglang_ops_stack.Operation.Run.{add_operation_log, judge_operation, run_operation_command}

abbrev pub Logging : World → (JobState → Type 0) → Type 0
Logging w P =
    (secrets : List String) (level : Level) (message : String)
    → Keeps P (add_operation_log w secrets level message)

module _ {w : World} {P : JobState → Type 0} {Allowed : CommandSpec → Type 0}
    (steady : Steady w P Allowed) (logging : Logging w P) (host : Host) (password : String)
    (secrets : List String) where
  judge_operation-Keeps :
      (error_code : String) (spec : CommandSpec) (res : CommandResult)
      → Keeps P (judge_operation w host password secrets error_code spec res)
  unfolding judge_operation
  judge_operation-Keeps error_code spec res = search (keeps_rules, logging)

  pub run_operation_command-Keeps :
      (error_code : String) (spec : CommandSpec)
      → Allowed spec
      → Keeps P (run_operation_command w host password secrets error_code spec)
  unfolding run_operation_command
  run_operation_command-Keeps error_code spec allowed = Keeps-bind _ _ (logging _ _ _) (λ _.
      Keeps-bind _ _ (send-Keeps steady host password spec allowed)
        (judge_operation-Keeps error_code spec))
