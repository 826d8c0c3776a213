-- ===== src/Environment/Tests.antt =====
-- Runs of the checks against concrete hosts, and the theorems at these runs.
use sglang_ops_stack.Base.{
  ℕ, String, false, [], none, some, ◌≡◌, refl, ◌==◌, if◌then◌else◌, All, map,
}
use sglang_ops_stack.Base.Show.{pos, show, show_int, show_exit, show_bool}
use sglang_ops_stack.Base.Text.{strip, lower, join, replace}
use sglang_ops_stack.Base.Exec.{Result, ok, ◌>>=◌}
use sglang_ops_stack.Base.Exec.Keeps.{Ends}
use sglang_ops_stack.Remote.{CommandResult, ExecutorError, Remote, exit_allowed, execute_spec}
use sglang_ops_stack.Remote.Spec.{
  validate, command_line, argv, safe_summary, is_multi_line, has_nul,
}
use sglang_ops_stack.Remote.Spec.Quote.{quote, all_safe, is_safe}
use sglang_ops_stack.Masking.{Patterns, SplitUrl, mask_secret, replace_secrets}
use sglang_ops_stack.Db.{Host, JobStatus, JobType, TargetType, Session, Rows, CheckStatus}
use sglang_ops_stack.Jobs
use sglang_ops_stack.Environment.Commands
use sglang_ops_stack.Environment.Release.{parse_os_release, lookup_or_empty, supported_name}
use sglang_ops_stack.Environment.Runner.{
  World, new_runner, step_number, same_step, step_name, code_text, result, is_ok, add_step,
  or_raise, log, mask_output, shown, log_result, record_command, send, timed_out_result, settle,
  execute, save, wait_for_confirmation, append_timeout_to, append_timeout_step, mark_host_failed,
  note_timeout, record_failure, fail,
}
use sglang_ops_stack.Environment.Checks.{
  plan, check_ssh, refuse_release, accept_release, judge_release, check_release, check_os,
  check_gpu, require_reboot, check_driver, install_all, execute_if, docker_running, check_docker,
  check_or_install_docker, runtime_configured, check_nvidia_runtime, check_or_install_runtime,
  check_container_gpu,
}
use sglang_ops_stack.Environment.Run.{
  check_body, install_body, on_exception, finish_check, check, finish_install, confirm_install,
}
use sglang_ops_stack.Environment.Outcome.{IsSettled, IsStuck, check-settles}
use sglang_ops_stack.Environment.Install.{IsIncomplete, confirm_install-settles}
use sglang_ops_stack.Environment.Safety.{
  IsProbe, IsKnown, IsMasked, check-sends-IsProbe, confirm_install-sends-IsKnown,
  check-logs-IsMasked,
}
use sglang_ops_stack.Db.Loaded.{loaded}
use sglang_ops_stack.Environment.Task.{run_environment_check_task}
use sglang_ops_stack.Environment.TaskOutcome.{IsLeft, run_environment_check_task-IsLeft}
use sglang_ops_stack.Environment.Success.{step_shape, all_passed, check-succeeded}

abbrev no_split : String → SplitUrl
no_split url = record { scheme = ""; netloc = ""; path = ""; query = ""; fragment = "" }

abbrev plain_patterns : Patterns
plain_patterns = record {
  sub_private_key = λ t. t;
  sub_bearer = λ t. t;
  sub_assignment = λ t. t;
  sub_json = λ t. t;
  sub_url = λ f t. t;
  urlsplit = no_split;
  urlunsplit = λ u. "";
  parse_qsl = λ t. [];
  urlencode = λ ps. "";
}

abbrev answer : ℕ → String → Result ExecutorError CommandResult
answer code text = ok (record {
  exit_code = some (pos code);
  stdout = text;
  stderr = "";
  timed_out = false;
  started_at = 0;
  finished_at = 0;
})

-- A host with all that is needed; what `systemctl is-active` says is the parameter.
abbrev host_with : String → Remote
host_with active sent request =
    if request.command == "cat /etc/os-release"
    then answer 0 "NAME=\"Ubuntu\"\nID=ubuntu\nVERSION_ID=\"22.04\"\n"
    else if request.command == "lspci -nn"
    then answer 0 "01:00.0 3D controller: NVIDIA Corporation"
    else if request.command == "systemctl is-active docker"
    then answer 0 active
    else if request.command == "docker info --format '{{json .Runtimes}}'"
    then answer 0 "{\"nvidia\":{}}"
    else answer 0 "0"

abbrev world_of : Remote → World
world_of run = record { run = run; clock = λ n. n; patterns = plain_patterns }

abbrev ready : World
ready = world_of (host_with "active")

-- The commands of the installation succeed, and the daemon does not come up.
abbrev idle : World
idle = world_of (host_with "inactive")

abbrev gpu_host : Host
gpu_host = record {
  id = 7;
  name = "gpu";
  ip = "10.0.0.7";
  ssh_port = 22;
  ssh_user = "root";
  auth_type = "password";
  tags = none;
  note = none;
  os_info = none;
  gpu_info = none;
  last_check_status = none;
  environment_status = none;
  last_check_at = none;
}

abbrev pub session : Session Host
session =
    let rows : Rows Host = record {
      job = record {
        id = 1;
        type = JobType.environment_check;
        status = JobStatus.pending;
        target_type = TargetType.host;
        target_id = 7;
        started_at = none;
        finished_at = none;
        error_code = none;
        error_message = none;
        result = none;
      };
      target = gpu_host;
      logs = [];
    } in
    record { rows = rows; saved = rows; ticks = 0 }

-- Opens all that a run calls.
runs : ℕ
unfolding replace show show_int show_exit show_bool strip lower join ◌>>=◌ exit_allowed execute_spec
    validate command_line argv safe_summary is_multi_line has_nul quote all_safe is_safe mask_secret
    replace_secrets Jobs.save_result Jobs.mark_waiting_confirmation Jobs.mark_running
    Jobs.mark_succeeded Jobs.mark_failed Jobs.add_log parse_os_release lookup_or_empty
    supported_name new_runner step_number same_step step_name code_text result is_ok add_step
    or_raise log mask_output shown log_result record_command send timed_out_result settle execute
    save wait_for_confirmation append_timeout_to append_timeout_step mark_host_failed note_timeout
    record_failure fail plan check_ssh refuse_release accept_release judge_release check_release
    check_os check_gpu require_reboot check_driver install_all execute_if docker_running
    check_docker check_or_install_docker runtime_configured check_nvidia_runtime
    check_or_install_runtime check_container_gpu check_body install_body on_exception finish_check
    check finish_install confirm_install Commands.ssh_smoke Commands.os_release Commands.os_arch
    Commands.gpu_lspci Commands.driver_query Commands.docker_version Commands.docker_service_active
    Commands.nvidia_ctk_version Commands.docker_runtime_info Commands.container_gpu_test
    Commands.docker_apt_update Commands.docker_install Commands.docker_enable_now
    Commands.install_docker Commands.nvidia_runtime_keyring_dir
    Commands.nvidia_runtime_download_gpg_key Commands.nvidia_runtime_install_gpg_keyring
    Commands.nvidia_runtime_write_repo_list Commands.nvidia_runtime_apt_update
    Commands.nvidia_runtime_install_toolkit Commands.nvidia_runtime_configure
    Commands.nvidia_runtime_restart_docker Commands.configure_nvidia_runtime
runs = 0

ready_succeeds : (check ready (new_runner session "pw")).1.job.status ≡ JobStatus.succeeded
unfolding runs
ready_succeeds = refl

idle_waits : (check idle (new_runner session "pw")).1.job.status ≡ JobStatus.waiting_confirmation
unfolding runs
idle_waits = refl

-- The confirmed installation ends without an exception, and the job is left running.
idle_install_runs_on :
    ((confirm_install idle (new_runner session "pw")).0 ≡ ok tt)
    × ((confirm_install idle (new_runner session "pw")).1.saved.job.status ≡ JobStatus.running)
unfolding runs
idle_install_runs_on = (refl, refl)

check-settles_example :
    Ends
      (λ _. IsSettled)
      IsStuck
      (check idle (new_runner session "pw")).0
      (check idle (new_runner session "pw")).1
check-settles_example = check-settles idle (new_runner session "pw")

confirm_install-settles_example :
    Ends
      (λ _. IsIncomplete)
      IsStuck
      (confirm_install idle (new_runner session "pw")).0
      (confirm_install idle (new_runner session "pw")).1
confirm_install-settles_example = confirm_install-settles idle (new_runner session "pw")

check-sends-IsProbe_example : All IsProbe (check idle (new_runner session "pw")).1.sent
check-sends-IsProbe_example = check-sends-IsProbe idle session "pw"

confirm_install-sends-IsKnown_example :
    All IsKnown (confirm_install idle (new_runner session "pw")).1.sent
confirm_install-sends-IsKnown_example = confirm_install-sends-IsKnown idle session "pw"

check-logs-IsMasked_example :
    All (IsMasked ready "pw") (check ready (new_runner session "pw")).1.logs
    × All (IsMasked ready "pw") (confirm_install ready (new_runner session "pw")).1.logs
check-logs-IsMasked_example = check-logs-IsMasked ready session "pw" tt

check-succeeded_example :
    (map step_shape (check ready (new_runner session "pw")).1.steps ≡ all_passed)
    × ((check ready (new_runner session "pw")).1.target.last_check_status
        ≡ some CheckStatus.succeeded)
check-succeeded_example = check-succeeded ready session "pw" ready_succeeds

run_environment_check_task-IsLeft_example :
    IsLeft (run_environment_check_task idle "pw" (loaded session))
run_environment_check_task-IsLeft_example =
    run_environment_check_task-IsLeft idle "pw" (loaded session)
