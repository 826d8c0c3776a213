-- ===== src/SshCheck/Tests.antt =====
-- The theorem at a host that refuses the second command.
use sglang_ops_stack.Base.{false, some, ◌==◌, if◌then◌else◌}
use sglang_ops_stack.Base.Show.{pos}
use sglang_ops_stack.Base.Exec.{ok, err}
use sglang_ops_stack.Remote.{SshErrorKind}
use sglang_ops_stack.Deployment.Tests.{plain_patterns}
use sglang_ops_stack.SshCheck.Run.{World, ssh}

abbrev refusing : World
refusing = record {
  run = λ ran request.
      if request.command == "whoami"
      then ok (record {
        exit_code = some (pos 0);
        stdout = "root";
        stderr = "";
        timed_out = false;
        started_at = 0;
        finished_at = 0;
      })
      else err (ssh SshErrorKind.command_timeout "SSH command timed out");
  clock = λ n. n;
  patterns = plain_patterns;
  command_timeout = 30;
}
