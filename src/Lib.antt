-- ===== src/Lib.antt =====
-- Verification of sglang_ops_stack, the service that prepares GPU hosts and runs SGLang servers on
-- them: a web application that writes jobs to a database, and jobs that send commands to the hosts
-- over SSH and write down what came back.
--
-- Parts, with the paths from the repository's root:
--   src/sglang_ops_stack/remote/command_spec.py             Remote/Spec.antt, Remote/Spec/Quote.antt
--   src/sglang_ops_stack/remote/executor.py, result.py      Remote.antt, Remote/Channel.antt (the loop
--     that reads a channel)
--   src/sglang_ops_stack/utils/masking.py                   Masking.antt, Json/Masked.antt
--   src/sglang_ops_stack/db/models/, domain_enums.py        Db.antt, Db/Results.antt, Json.antt (the
--     dictionaries of `model_dump`)
--   src/sglang_ops_stack/services/job_service.py            Jobs.antt
--   src/sglang_ops_stack/services/environment/commands.py   Environment/Commands.antt
--   src/sglang_ops_stack/services/environment/runner.py     Environment/Runner.antt (the state and
--     the methods that the checks are made of), Release.antt (/etc/os-release), Checks.antt (one
--     definition for each check), Run.antt (`check` and `confirm_install`), Task.antt (the
--     tasks, on rows that Db/Loaded.antt says are found or not)
--   src/sglang_ops_stack/commands/docker.py, sglang.py      Deployment/Docker.antt, Sglang.antt
--   src/sglang_ops_stack/services/deployment_service.py     Deployment/Payload.antt (what is read from
--     the row of a deployment, and the port check), Create.antt (the payload, its dictionary and its
--     preview), Apply.antt (creation, revisions, the change by a payload)
--   src/sglang_ops_stack/clients/sglang_http.py             Deployment/Http.antt
--   src/sglang_ops_stack/services/health_service.py         Deployment/Health.antt
--   src/sglang_ops_stack/jobs/deployment_jobs.py            Deployment/World.antt (the state of a job),
--     Deployment/Run.antt (`DeploymentJobRunner.run`)
--   src/sglang_ops_stack/worker/queue.py                    Worker/Bytes.antt, Worker/Queue.antt,
--     Worker/Dispatch.antt (the queued dictionary), Worker/Request.antt (what the routes queue)
--   src/sglang_ops_stack/services/operation_service.py      Operation/Guards.antt, Operation/Logs.antt
--   src/sglang_ops_stack/jobs/operation_jobs.py             Operation/Run.antt (`OperationJobRunner.run`)
--   src/sglang_ops_stack/services/redeploy_service.py       Redeploy/Plan.antt (differences, risks and
--     the plan), Redeploy/Run.antt (the request)
--   src/sglang_ops_stack/jobs/redeploy_jobs.py              Redeploy/Run.antt (`RedeployJobRunner.run`),
--     Redeploy/Task.antt (the tasks of all three jobs on a deployment)
--   src/sglang_ops_stack/services/ssh_connect_check.py      SshCheck/Run.antt
--   src/sglang_ops_stack/core/auth.py                       Auth/Crypto.antt, Auth/Token.antt (the
--     tokens), Auth/Password.antt (the hashes)
--   src/sglang_ops_stack/services/user_service.py           Auth/Password.antt
--   src/sglang_ops_stack/api/deps.py, services/audit_service.py   Auth/Access.antt
--
-- Base.antt has the shared helpers: lists and Boolean tests over native numbers, texts with the
-- meaning of Python's methods on them, and Base/Exec.antt, programs that raise and change a state.
-- Base/Exec/Keeps.antt has the rules by which an invariant or an outcome is proved of such a
-- program, one rule for each way to compose one.
--
-- How the code is read. A method that changes objects and may raise is a function from the state to
-- a result and the state behind it, so what was written before an exception stays written. A
-- session (Db.antt) holds the objects of one job and its target, and what of them was committed; a
-- rollback is the return to the latter. `self.db.add` and `self.db.refresh` on an object of the
-- session change nothing here. A JSON column with a schema, as `docker_config` and `sglang_config`
-- of a deployment, is kept as the record that `model_validate` makes of what `model_dump` wrote:
-- that pydantic takes back its own dictionaries is assumed, not proved; the snapshots of revisions
-- and of jobs are dictionaries. The texts of Python are native strings; numbers are natural
-- numbers, an exit status is an integer or absent.
--
-- Parameters. The hosts are a function from the commands sent before and the request to a result or
-- an exception, the clock a function from the number of its readings, both arbitrary: a theorem
-- holds for every host, in every order of answers. The regular expressions of masking.py and
-- urllib's functions are the fields of the record `Patterns`; `urlopen`, `json.loads` and `repr`
-- are fields of Deployment/World.antt, and the functions of hmac, hashlib and base64 and the coding
-- of texts are the record `Crypto` of Worker/Queue.antt; `Builtins` of Worker/Dispatch.antt is what
-- is left open of `str` and `int`, and `Channel` of Remote/Channel.antt the channel and the clock.
-- `shlex.quote` is written out from its documentation. The libraries of core/auth.py are the record
-- `AuthCrypto` of Auth/Crypto.antt. What a theorem asks of a parameter is the record `Sound` of
-- Worker/RoundTrip.antt and Auth/Issued.antt, and `Paced` of Remote/Deadline.antt.
--
-- Bounds. `check_docker(install)` calls itself once, with `install=False`, and so do the runtime's:
-- each is two definitions, and no fuel is used for them. Searching and replacing in a text run on
-- the length of the text, which each step consumes. The loop of `_xor_stream` has one round for
-- each byte of the text as its fuel, and each round adds a digest of 32 bytes. The loop of
-- `_read_channel` has a round for each pause of 50 milliseconds in its timeout and one more, since
-- each round but the last sleeps so long or until the deadline; its inner loops have the number of
-- chunks that the command still gives, which has to be finite: they do not look at the deadline.
-- Times are in nanoseconds there. The comparison of two payloads goes three dictionaries deep,
-- which is how deep they are.
--
-- Not modelled: the rendering of pages, the assembly of the application, the session of the
-- database as a database (concurrent transactions, constraints), the inside of the SSH client, the
-- validators of the request schemas, monitoring, and of the routers all but what they queue. The
-- dictionary of a queued job is taken to reach the worker as it was sent.
pub mod Base
pub mod Remote
pub mod Masking
pub mod Json
pub mod Db
pub mod Jobs
pub mod SshCheck
pub mod Environment
pub mod Deployment
pub mod Operation
pub mod Redeploy
pub mod Auth
pub mod Worker
