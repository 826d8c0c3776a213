-- ===== src/Operation/Exclusion.antt =====
-- One operation at a time: what the statuses of a deployment admit while an operation is under way
-- and when it is over.
use sglang_ops_stack.Base.{ℕ, true, false, Option, none, some, ◌≡◌, refl, ◌∙◌, ap, inl, inr, arith}
use sglang_ops_stack.Base.Exec.{ok}
use sglang_ops_stack.Base.Exec.Keeps.{Ends, Triple-weaken}
use sglang_ops_stack.Base.{String}
use sglang_ops_stack.Db.{Host, Deployment, Job}
use sglang_ops_stack.Db.Results.{OperationName, DeploymentStatus}
use sglang_ops_stack.Deployment.World.{World, JobState}
use sglang_ops_stack.Deployment.Outcome.{IsHealthy}
use sglang_ops_stack.Operation.Guards.{
  is_blocking, is_allowed, transition_status, OperationError, busy, validate_operation,
  create_operation_job, created,
}
use sglang_ops_stack.Operation.Run.{run_operation}
use sglang_ops_stack.Operation.Outcome.{Fits, IsOperated, run_operation-IsOperated}

-- Some operation is admitted.
abbrev pub IsOpen : Deployment → Type 0
IsOpen d = (operation : OperationName) × (validate_operation d operation ≡ none)

-- Every operation is refused, because the deployment is busy.
abbrev pub IsClosed : Deployment → Type 0
IsClosed d = (operation : OperationName) → validate_operation d operation ≡ some (busy d.status)

is_blocking-transition :
    (operation : OperationName) → is_blocking (transition_status operation) ≡ true
unfolding is_blocking transition_status
is_blocking-transition OperationName.restart = refl
is_blocking-transition OperationName.stop = refl
is_blocking-transition OperationName.start = refl

pub blocking-IsClosed : (d : Deployment) → is_blocking d.status ≡ true → IsClosed d
unfolding validate_operation
blocking-IsClosed d h operation = rw h refl

transition-IsClosed :
    (d : Deployment) (operation : OperationName)
    → d.status ≡ transition_status operation
    → IsClosed d
transition-IsClosed d operation h =
    blocking-IsClosed d (ap is_blocking h ∙ is_blocking-transition operation)

allowed_status :
    (d : Deployment) (operation : OperationName)
    → is_blocking d.status ≡ false
    → is_allowed operation d.status ≡ true
    → IsOpen d
unfolding validate_operation
allowed_status d operation free allowed = (operation, rw (free, allowed) refl)

at_status :
    (d : Deployment) (status : DeploymentStatus) (operation : OperationName)
    → d.status ≡ status
    → is_blocking status ≡ false
    → is_allowed operation status ≡ true
    → IsOpen d
at_status d status operation h free allowed =
    allowed_status d operation (ap is_blocking h ∙ free) (ap (is_allowed operation) h ∙ allowed)

healthy-IsOpen : (d : Deployment) → IsHealthy d.status → IsOpen d
unfolding is_blocking is_allowed
healthy-IsOpen d (inl h) = at_status d _ OperationName.stop h refl refl
healthy-IsOpen d (inr h) = at_status d _ OperationName.stop h refl refl

Fits-IsOpen : (operation : OperationName) (d : Deployment) → Fits operation d.status → IsOpen d
unfolding is_blocking is_allowed
Fits-IsOpen OperationName.stop d h = at_status d _ OperationName.start h refl refl
Fits-IsOpen OperationName.restart d h = healthy-IsOpen d h
Fits-IsOpen OperationName.start d h = healthy-IsOpen d h

operated-IsOpen :
    (operation : OperationName) (s : JobState) → IsOperated operation s → IsOpen s.target
unfolding is_blocking is_allowed
operated-IsOpen operation s h = elim h.0 [
  | inl succeeded ↦ Fits-IsOpen operation s.target succeeded.1
  | inr failed ↦ at_status s.target _ OperationName.start failed.1 refl refl
]

created-IsClosed :
    (id : ℕ) (d : Deployment) (operation : OperationName) (e : Option OperationError) (job : Job)
    (d' : Deployment)
    → created id d operation e ≡ ok (job, d')
    → IsClosed d'
unfolding created
created-IsClosed id d operation (some x) job d' h = ground arith
created-IsClosed id d operation none job d' h =
    let same : d'.status ≡ transition_status operation = ground arith in
    transition-IsClosed d' operation same

-- From the creation of an operation's job on, every other operation is refused.
pub create_operation_job-IsClosed :
    (id : ℕ) (d : Deployment) (operation : OperationName) (job : Job) (d' : Deployment)
    → create_operation_job id d operation ≡ ok (job, d')
    → IsClosed d'
unfolding create_operation_job
create_operation_job-IsClosed id d operation job d' h =
    created-IsClosed id d operation (validate_operation d operation) job d' h

-- On a deployment at the status that the creation of the job gave it: an operation that is over
-- admits a next one; one whose job raised has left its deployment busy, and every further operation
-- is refused.
pub run_operation-IsOpen :
    (w : World) (host : Host) (password : String) (operation : OperationName) (s : JobState)
    → s.target.status ≡ transition_status operation
    → Ends
        (λ _ s'. IsOpen s'.target)
        (λ _ s'. IsClosed s'.target)
        (run_operation w host password operation s).0
        (run_operation w host password operation s).1
run_operation-IsOpen w host password operation s h =
    (Triple-weaken _ (λ s' k. k) (λ _ s' k. operated-IsOpen operation s' k)
        (λ e s' k. transition-IsClosed s'.target operation (k.1).2)
        (run_operation-IsOperated w (transition_status operation) host password operation)).at
      s h
