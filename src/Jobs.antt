-- ===== src/Jobs.antt =====
-- services/job_service.py: the operations on the row of a job. Each commits.
use sglang_ops_stack.Base.{ℕ, suc, String, List, [], ◌∷◌, ◌++◌, Option, none, some}
use sglang_ops_stack.Masking.{Patterns, mask_secret}
use sglang_ops_stack.Db.{Job, JobType, TargetType, JobStatus, JobLog, Level, Session, commit}
use sglang_ops_stack.Db.Results.{JobResult}

-- The arguments of `create_job`, and the id that the database gives.
unfoldable pub create_job : ℕ → ℕ → JobType → TargetType → Job
create_job id target_id job_type target_type = record {
  id = id;
  type = job_type;
  status = JobStatus.pending;
  target_type = target_type;
  target_id = target_id;
  started_at = none;
  finished_at = none;
  error_code = none;
  error_message = none;
  result = none;
}

module _ {T : Type 0} where
  -- Changes the object of the job, and commits.
  abbrev update : (Job → Job) → Session T → Session T
  update f db = commit (record db { rows = record db.rows { job = f db.job } })

  unfoldable pub save_result : Option JobResult → Session T → Session T
  save_result result = update (λ job. record job { result = result })

  unfoldable pub mark_waiting_confirmation : Option JobResult → Session T → Session T
  mark_waiting_confirmation result =
      update (λ job. record job { status = JobStatus.waiting_confirmation; result = result })

  unfoldable pub reset_for_retry : Session T → Session T
  reset_for_retry = update (λ job. record job {
    status = JobStatus.pending;
    error_code = none;
    error_message = none;
    finished_at = none;
  })

  module _ (clock : ℕ → ℕ) where
    -- `utc_now()`: each reading of the clock is the next one.
    abbrev tick : Session T → Session T
    tick db = record db { ticks = suc db.ticks }

    unfoldable pub mark_running : Session T → Session T
    mark_running db =
        update
          (λ job. record job { status = JobStatus.running; started_at = some (clock db.ticks) })
          (tick db)

    unfoldable pub mark_succeeded : Session T → Session T
    mark_succeeded db =
        update
          (λ job. record job { status = JobStatus.succeeded; finished_at = some (clock db.ticks) })
          (tick db)

    unfoldable pub mark_failed : Patterns → String → String → List String → Session T → Session T
    mark_failed p error_code error_message secrets db =
        update
          (λ job. record job {
            status = JobStatus.failed;
            error_code = some error_code;
            error_message = some (mask_secret p error_message secrets);
            finished_at = some (clock db.ticks);
          })
          (tick db)

  unfoldable pub add_log : Patterns → Level → String → List String → Session T → Session T
  add_log p level message secrets db =
      let log : JobLog = record {
        job_id = db.job.id;
        level = level;
        message = mask_secret p message secrets;
      } in
      commit (record db { rows = record db.rows { logs = db.logs ++ log ∷ [] } })
