-- ===== src/Operation/Tests.antt =====
-- The theorems on operations at concrete deployments.
use sglang_ops_stack.Base.{refl, some}
use sglang_ops_stack.Base.Exec.Keeps.{Ends}
use sglang_ops_stack.Db.{Deployment, JobType, TargetType}
use sglang_ops_stack.Db.Results.{OperationName, DeploymentStatus}
use sglang_ops_stack.Jobs.{create_job}
use sglang_ops_stack.Deployment.World.{JobState}
use sglang_ops_stack.Deployment.Outcome.{IsAbandoned}
use sglang_ops_stack.Deployment.Tests.{world, gpu_host, deployment, begin}
use sglang_ops_stack.Operation.Guards.{create_operation_job}
use sglang_ops_stack.Operation.Run.{run_operation}
use sglang_ops_stack.Base.Show.{pos}
use sglang_ops_stack.Operation.Logs.{read_container_logs}
use sglang_ops_stack.Operation.LogsBounds.{HasRead, HasNotRead, read_container_logs-HasRead}
use sglang_ops_stack.Operation.Outcome.{IsOperated, run_operation-finishes}
use sglang_ops_stack.Operation.Exclusion.{
  IsOpen, IsClosed, create_operation_job-IsClosed, run_operation-IsOpen,
}

abbrev running : Deployment
running = record deployment { status = DeploymentStatus.running }

abbrev stopping : Deployment
stopping = record deployment { last_job_id = some 2; status = DeploymentStatus.stopping }

abbrev begin_stop : JobState
begin_stop = record begin {
  db = record begin.db { rows = record begin.db.rows { target = stopping } };
}

run_operation-finishes_example :
    Ends
      (λ _. IsOperated OperationName.stop)
      (IsAbandoned DeploymentStatus.stopping)
      (run_operation world gpu_host "pw" OperationName.stop begin_stop).0
      (run_operation world gpu_host "pw" OperationName.stop begin_stop).1
run_operation-finishes_example =
    run_operation-finishes world gpu_host "pw" OperationName.stop begin_stop

create_operation_job-IsClosed_example : IsClosed stopping
unfolding create_operation_job
create_operation_job-IsClosed_example =
    create_operation_job-IsClosed 2 running OperationName.stop
      (create_job 2 3 JobType.deployment_operation TargetType.deployment) stopping refl

run_operation-IsOpen_example :
    Ends
      (λ _ s. IsOpen s.target)
      (λ _ s. IsClosed s.target)
      (run_operation world gpu_host "pw" OperationName.stop begin_stop).0
      (run_operation world gpu_host "pw" OperationName.stop begin_stop).1
unfolding sglang_ops_stack.Operation.Guards.transition_status
run_operation-IsOpen_example =
    run_operation-IsOpen world gpu_host "pw" OperationName.stop begin_stop refl

read_container_logs-HasRead_example :
    Ends
      (HasRead begin)
      (HasNotRead begin)
      (read_container_logs world gpu_host "pw" 5 (pos 9000) begin).0
      (read_container_logs world gpu_host "pw" 5 (pos 9000) begin).1
read_container_logs-HasRead_example =
    read_container_logs-HasRead world gpu_host "pw" 5 (pos 9000) begin
