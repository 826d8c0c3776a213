-- ===== src/Operation/LogsBounds.antt =====
-- How much of a log is read, and what that leaves behind.
use sglang_ops_stack.Base.{ℕ, String, List, [], ◌∷◌, ◌++◌, ◌≤◌, ◌≡◌, refl, sym, subst, arith, ap}
use sglang_ops_stack.Base.Exec.{pure, ◌>>=◌, ◌>>◌}
use sglang_ops_stack.Base.Show.{ℤ, pos, negsuc}
use sglang_ops_stack.Base.Exec.Keeps.{Ends, Triple, Triple-bind}
use sglang_ops_stack.Remote.{CommandResult, execute_spec}
use sglang_ops_stack.Remote.Spec.{CommandSpec}
use sglang_ops_stack.Db.{Host, JobStatus}
use sglang_ops_stack.Jobs.{add_log, mark_succeeded}
use sglang_ops_stack.Deployment.Docker.{logs_tail}
use sglang_ops_stack.Deployment.Payload.{docker_builder}
use sglang_ops_stack.Deployment.World.{World, JobException, JobState, send}
use sglang_ops_stack.Operation.Logs.{clamp_tail, max_log_tail, record_reading, read_container_logs}

clamp_tail-bounds : (tail : ℤ) → (1 ≤ clamp_tail tail) × (clamp_tail tail ≤ max_log_tail)
unfolding clamp_tail
clamp_tail-bounds (negsuc n) = (omega arith, omega arith)
clamp_tail-bounds (pos tail) = (ground arith, ground arith)

-- The one command that was sent reads so many lines, and the new job has succeeded.
abbrev pub HasRead : JobState → ℕ × String → JobState → Type 0
HasRead before (lines, logs) s =
    (1 ≤ lines)
    × (lines ≤ max_log_tail)
    × (s.sent ≡ before.sent ++ logs_tail (docker_builder before.target) lines ∷ [])
    × (s.job.status ≡ JobStatus.succeeded)
    × (s.target ≡ before.target)
    × (s.saved ≡ s.rows)

abbrev pub HasNotRead : JobState → JobException → JobState → Type 0
HasNotRead before e s = s.db ≡ before.db

-- What the command itself leaves.
abbrev HasSent : JobState → CommandSpec → JobState → Type 0
HasSent before spec s = (s.sent ≡ before.sent ++ spec ∷ []) × (s.db ≡ before.db)

module _ (w : World) (host : Host) (password : String) (before : JobState) where
  sent-HasSent :
      (spec : CommandSpec)
      → Ends
          (λ _. HasSent before spec)
          (HasNotRead before)
          (send w host password spec before).0
          (send w host password spec before).1
  unfolding send execute_spec ◌>>=◌
  sent-HasSent spec = ground arith

  send-HasSent :
      (spec : CommandSpec)
      → Triple
          (λ s. s ≡ before)
          (send w host password spec)
          (λ _. HasSent before spec)
          (HasNotRead before)
  send-HasSent spec = record {
    at = λ s h.
        subst
          (λ s.
            Ends (λ _. HasSent before spec) (HasNotRead before) (send w host password spec s).0
              (send w host password spec s).1)
          (sym h) (sent-HasSent spec);
  }

  recorded :
      (id lines : ℕ) (res : CommandResult) (secrets : List String) (logs : String)
      → (1 ≤ lines) × (lines ≤ max_log_tail)
      → Triple
          (HasSent before (logs_tail (docker_builder before.target) lines))
          (do record_reading w host password id lines res secrets; pure (lines, logs))
          (HasRead before)
          (HasNotRead before)
  unfolding record_reading add_log mark_succeeded ◌>>=◌
  recorded id lines res secrets logs bounds = record {
    at = λ s h. (bounds.0, bounds.1, h.0, refl, ap (λ db. db.rows.target) h.1, refl);
  }

-- A reading that returns has sent one command, for at least one line and at most 500, whatever was
-- asked for; its job has succeeded, and all is committed. One that raises has written nothing.
pub read_container_logs-HasRead :
    (w : World) (host : Host) (password : String) (id : ℕ) (tail : ℤ) (s : JobState)
    → Ends
        (HasRead s)
        (HasNotRead s)
        (read_container_logs w host password id tail s).0
        (read_container_logs w host password id tail s).1
unfolding read_container_logs ◌>>=◌
read_container_logs-HasRead w host password id tail s =
    (Triple-bind _ _
        (send-HasSent w host password s (logs_tail (docker_builder s.target) (clamp_tail tail)))
        (λ res.
          recorded w host password s id (clamp_tail tail) res _ _ (clamp_tail-bounds tail))).at
      s refl
