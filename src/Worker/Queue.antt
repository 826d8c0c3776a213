-- ===== src/Worker/Queue.antt =====
-- worker/queue.py: the encryption of a password on its way to the worker, and the marking of a job
-- whose task has raised. The functions of `hmac`, `hashlib` and `base64`, the coding of texts and the
-- nonce are parameters.
use sglang_ops_stack.Base.{
  ℕ, zero, suc, String, Bool, ◌&&◌, List, [], ◌++◌, Option, none, some, length, ltb, ◌==◌,
  if◌then◌else◌,
}
use sglang_ops_stack.Base.Exec.{Result, ok, err}
use sglang_ops_stack.Masking.{Patterns}
use sglang_ops_stack.Db.{JobStatus, Session}
use sglang_ops_stack.Jobs.{mark_failed}
use sglang_ops_stack.Worker.Bytes.{zip_xor, to_bytes, take, drop, same_bytes}

pub record Crypto : Type 0 where
  pub sha256 : List ℕ → List ℕ
  -- `hmac.new(key, message, hashlib.sha256).digest()`
  pub hmac : List ℕ → List ℕ → List ℕ
  pub encode : String → List ℕ
  pub decode : List ℕ → Option String
  pub b64encode : List ℕ → String
  pub b64decode : String → Option (List ℕ)

pub record Settings : Type 0 where
  pub task_queue_mode : String
  pub auth_secret_key : String

-- The exceptions, one for each `raise`, and those of the decoders.
pub data QueueError : Type 0 where
  default_key malformed integrity undecodable unsupported_type missing_key invalid_id : QueueError

unfoldable pub should_use_worker_queue : Settings → Bool
should_use_worker_queue settings = settings.task_queue_mode == "celery"

module _ (c : Crypto) where
  -- `_secret_key`
  unfoldable pub secret_key : Settings → Result QueueError (List ℕ)
  secret_key settings =
      if (settings.task_queue_mode == "celery")
        && (settings.auth_secret_key == "dev-only-change-me")
      then err default_key
      else ok (c.sha256 (c.encode settings.auth_secret_key))

  -- The loop of `_xor_stream`: blocks are added until there are `wanted` bytes. The fuel is the
  -- number of rounds at most.
  unfoldable pub stream : ℕ → ℕ → List ℕ → List ℕ → ℕ → List ℕ → List ℕ
  stream zero wanted key nonce counter output = output
  stream (suc fuel) wanted key nonce counter output =
      let more =
        stream fuel wanted key nonce (suc counter)
          (output ++ c.hmac key (nonce ++ to_bytes 8 counter)) in
      if ltb (length output) wanted then more else output

  -- `_xor_stream`. No block is empty, so there are no more rounds than bytes.
  unfoldable pub xor_stream : List ℕ → List ℕ → List ℕ → List ℕ
  unfolding stream
  xor_stream bytes key nonce = zip_xor bytes (stream (length bytes) (length bytes) key nonce 0 [])

  unfoldable pub seal : List ℕ → List ℕ → String → String
  seal key nonce password =
      let ciphertext = xor_stream (c.encode password) key nonce in
      c.b64encode (nonce ++ (c.hmac key (nonce ++ ciphertext) ++ ciphertext))

  unfoldable pub encrypt_password : Settings → List ℕ → String → Result QueueError String
  unfolding secret_key seal
  encrypt_password settings nonce password = elim (secret_key settings) [
    | err e ↦ err e
    | ok key ↦ ok (seal key nonce password)
  ]

  unfoldable pub decoded : Option String → Result QueueError String
  decoded none = err undecodable
  decoded (some password) = ok password

  -- What `decrypt_password` does with the three parts.
  unfoldable pub open_parts : List ℕ → List ℕ → List ℕ → List ℕ → Result QueueError String
  unfolding decoded
  open_parts key nonce mac ciphertext =
      if same_bytes mac (c.hmac key (nonce ++ ciphertext))
      then decoded (c.decode (xor_stream ciphertext key nonce))
      else err integrity

  unfoldable pub open_raw : Settings → List ℕ → Result QueueError String
  unfolding open_parts
  open_raw settings raw =
      if ltb (length raw) 48 then err malformed else elim (secret_key settings) [
        | err e ↦ err e
        | ok key ↦ open_parts key (take 16 raw) (take 32 (drop 16 raw)) (drop 48 raw)
      ]

  unfoldable pub decrypt_password : Settings → String → Result QueueError String
  unfolding open_raw
  decrypt_password settings token = elim (c.b64decode token) [
    | none ↦ err undecodable
    | some raw ↦ open_raw settings raw
  ]

-- `_mark_job_failed`, on the row of the job where there is one. `message` is the `str` of the
-- exception, or the name of its class.
unfoldable pub mark_job_failed : {T : Type 0} → (ℕ → ℕ) → Patterns → String → Session T → Session T
mark_job_failed clock p message db = elim db.job.status [
  | JobStatus.succeeded ↦ db
  | JobStatus.failed ↦ db
  | _ ↦ mark_failed clock p "WORKER_TASK_FAILED" message [] db
]
