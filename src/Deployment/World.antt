-- ===== src/Deployment/World.antt =====
-- What the jobs of a deployment share: what lies outside, what they raise, and what they change.
use sglang_ops_stack.Base.{ℕ, suc, String, List, none, some}
use sglang_ops_stack.Base.Exec.{ok, err, Exec, pure, raise, modify}
use sglang_ops_stack.Remote.{CommandResult, ExecutorError, Login, Remote, execute_spec}
use sglang_ops_stack.Remote.Spec.{CommandSpec}
use sglang_ops_stack.Masking.{Patterns}
use sglang_ops_stack.Db.{Host, Deployment, DeploymentRevision, Session}
use sglang_ops_stack.Deployment.Http.{
  Fetched, Loaded, SglangHttpResponse, read_response, request_url,
}

-- `fetch` is given the number of requests before. `repr` is the function of Python. The
-- database gives a new row of `deployment_revisions` an id, by the rows that the table has.
pub record World : Type 0 where
  pub run : Remote
  pub clock : ℕ → ℕ
  pub patterns : Patterns
  pub fetch : ℕ → String → Fetched
  pub loads : String → Loaded
  pub repr : String → String
  pub revision_id : List DeploymentRevision → ℕ

-- What `execute_spec` raises, the error of a job with its code, an exception of an HTTP request that
-- the client does not name, and the `ValueError` on a missing model path.
pub data JobException : Type 0 where
  executor : ExecutorError → JobException
  job_error : (error_code message : String) → JobException
  request_failed : JobException
  value_error : JobException

pub record JobState : Type 0 where
  pub db : Session Deployment
  pub open db use *
  pub sent : List CommandSpec
  pub fetches : ℕ
  pub revisions : List DeploymentRevision

abbrev pub Action : Type 0 → Type 0
Action A = Exec JobException JobState A

abbrev pub on_db : (Session Deployment → Session Deployment) → Action Unit
on_db f = modify (λ s. record s { db = f s.db })

-- Assigns to fields of the deployment, without a commit.
abbrev pub on_deployment : (Deployment → Deployment) → Action Unit
on_deployment f =
    modify (λ s. record s { db = record s.db { rows = record s.db.rows { target = f s.target } } })

module _ (w : World) where
  -- `datetime.now(UTC)`
  unfoldable pub now : Action ℕ
  now s = (ok (w.clock s.ticks), record s { db = record s.db { ticks = suc s.ticks } })

  module _ (host : Host) (password : String) where
    unfoldable pub send : CommandSpec → Action CommandResult
    send spec s =
        let login : Login = record {
          host = host.ip;
          port = host.ssh_port;
          username = host.ssh_user;
          password = password;
        } in
        let (outcome, sent) = execute_spec w.run login spec s.sent in
        let s' = record s { sent = sent } in
        elim outcome [ ok res ↦ pure res s' | err e ↦ raise (executor e) s' ]

  -- `get_json_or_text`
  unfoldable pub get : String → String → Action SglangHttpResponse
  get base_url path s =
      let response = read_response w.loads (w.fetch s.fetches (request_url base_url path)) in
      let s' = record s { fetches = suc s.fetches } in
      elim response [ some r ↦ pure r s' | none ↦ raise request_failed s' ]
