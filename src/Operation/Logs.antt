-- ===== src/Operation/Logs.antt =====
-- services/operation_service.py: reading the log of a container, which a job of its own records.
use sglang_ops_stack.Base.{ℕ, String, ◌<>◌, List, [], ltb, if◌then◌else◌}
use sglang_ops_stack.Base.Show.{ℤ, pos, negsuc, show, show_exit}
use sglang_ops_stack.Base.Exec.{pure, ◌>>=◌, ◌>>◌, gets}
use sglang_ops_stack.Remote.{CommandResult, exit_allowed}
use sglang_ops_stack.Masking.{mask_secret}
use sglang_ops_stack.Db.{Host, Deployment, Level, JobType, TargetType, Session, commit}
use sglang_ops_stack.Jobs.{create_job, add_log, mark_succeeded}
use sglang_ops_stack.Deployment.Docker.{logs_tail}
use sglang_ops_stack.Deployment.Payload.{docker_builder}
use sglang_ops_stack.Deployment.World.{World, Action, on_db, send}
use sglang_ops_stack.Operation.Guards.{operation_secrets}

abbrev pub max_log_tail : ℕ
max_log_tail = 500

unfoldable pub clamp_tail : ℤ → ℕ
clamp_tail (negsuc n) = 1
clamp_tail (pos tail) =
    if ltb tail 1 then 1 else if ltb max_log_tail tail then max_log_tail else tail

-- The output, and the errors where the command failed.
unfoldable pub combined : CommandResult → String
combined res =
    if exit_allowed res.exit_code (List.◌∷◌ 0 [])
    then res.stdout
    else res.stdout <> "\n" <> res.stderr

-- The job of the session is the one that is created, from then on.
abbrev pub with_job : ℕ → Session Deployment → Session Deployment
with_job id db = commit (record db {
  rows = record db.rows {
    job = create_job id db.rows.target.id JobType.deployment_operation TargetType.deployment;
    logs = [];
  };
})

module _ (w : World) (host : Host) (password : String) where
  -- What is written about a reading.
  unfoldable pub record_reading : ℕ → ℕ → CommandResult → List String → Action Unit
  record_reading id safe_tail res secrets = do
    on_db (with_job id)
    on_db (
        add_log w.patterns Level.capital_info
          ("read container logs tail="
            <> show safe_tail
            <> " exit_code="
            <> show_exit res.exit_code)
          secrets)
    on_db (mark_succeeded w.clock)

  -- `read_container_logs`, with the id that the database gives to the job
  unfoldable pub read_container_logs : ℕ → ℤ → Action (ℕ × String)
  unfolding clamp_tail combined
  read_container_logs id tail = do
    d ← gets (λ s. s.target)
    res ← send w host password (logs_tail (docker_builder d) (clamp_tail tail))
    record_reading id (clamp_tail tail) res (operation_secrets d)
    pure (clamp_tail tail, mask_secret w.patterns (combined res) (operation_secrets d))
