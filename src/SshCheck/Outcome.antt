-- ===== src/SshCheck/Outcome.antt =====
-- How a connectivity check ends, on every path, and which commands it runs.
use sglang_ops_stack.Base.{String, List, some, ◌≡◌, ◌⊎◌}
use sglang_ops_stack.Base.Exec.{◌>>◌}
use sglang_ops_stack.Db.{JobStatus, CheckStatus}
use sglang_ops_stack.SshCheck.Run.{CheckException, CheckState, allowed_commands}

-- Exactly these commands were run.
abbrev HasRun : List String → CheckState → Type 0
HasRun commands s = s.ran ≡ commands

abbrev pub HasSucceeded : CheckState → Type 0
HasSucceeded s =
    (s.job.status ≡ JobStatus.succeeded)
    × (s.target.last_check_status ≡ some CheckStatus.succeeded)
    × (s.ran ≡ allowed_commands)
    × (s.saved ≡ s.rows)

abbrev pub HasFailed : CheckState → Type 0
HasFailed s =
    (s.job.status ≡ JobStatus.failed)
    × (s.target.last_check_status ≡ some CheckStatus.failed)
    × (s.saved ≡ s.rows)

abbrev pub IsDone : CheckState → Type 0
IsDone s = HasSucceeded s ⊎ HasFailed s

abbrev Anything : CheckException → CheckState → Type 0
Anything e s = Unit

abbrev Nothing : CheckException → CheckState → Type 0
Nothing e s = ⊥
