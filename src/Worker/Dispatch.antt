-- ===== src/Worker/Dispatch.antt =====
-- worker/queue.py: the dictionary that goes to the worker, and the task that the worker runs for it.
-- Celery brings the dictionary over as it is.
use sglang_ops_stack.Base.{
  ℕ, zero, suc, String, Bool, true, false, ◌||◌, List, Option, none, some, ◌==◌, if◌then◌else◌,
}
use sglang_ops_stack.Base.Show.{show, show_bool}
use sglang_ops_stack.Base.Exec.{Result, ok, err}
use sglang_ops_stack.Json.{
  Value, Entries, no_entries, entry, no_elements, element, text, float, int, bool, null, array,
  object, get, has_key,
}
use sglang_ops_stack.Worker.Queue.{
  Crypto, Settings, QueueError, missing_key, invalid_id, unsupported_type, should_use_worker_queue,
  encrypt_password, decrypt_password,
}

-- What is left open of Python's `str` and `int`: `str` of a list or of a dictionary, and `int` of a
-- text, or of a float, that is given by its `str`. A negative number is the id of no row and counts
-- as a failure.
pub record Builtins : Type 0 where
  pub repr : Value → String
  pub int_of_text : String → Option ℕ

-- The task that is called, with its arguments. The operation is not checked before the call.
pub data Task : Type 0 where
  run_ssh_connect_check_task run_environment_check_task : (job_id : ℕ) → (password : String) → Task
  confirm_environment_install_task : (job_id : ℕ) → (password : String) → (confirmed : Bool) → Task
  run_deployment_task : (job_id : ℕ) → (password : String) → (confirm : Bool) → Task
  run_operation_task : (job_id : ℕ) → (operation : Value) → (password : String) → Task
  run_redeploy_task :
      (job_id : ℕ) → (password : String) → (config : Entries) → (confirm : Bool) → Task

-- `payload[key] = value`: in its place, or as the last.
unfoldable pub set_entry : String → Value → Entries → Entries
set_entry key value no_entries = entry key value no_entries
set_entry key value (entry k v rest) =
    let later = set_entry key value rest in if k == key then entry k value rest else entry k v later

-- `payload.update(options)`
unfoldable pub update_with : Entries → Entries → Entries
unfolding set_entry
update_with payload no_entries = payload
update_with payload (entry k v rest) = update_with (set_entry k v payload) rest

-- `payload.get(key, default)`
unfoldable pub get_or : Value → String → Entries → Value
unfolding get has_key
get_or default key payload = if has_key key payload then get key payload else default

-- `payload[key]`
unfoldable pub required : String → Entries → Result QueueError Value
unfolding get has_key
required key payload = if has_key key payload then ok (get key payload) else err missing_key

-- `bool(value)`
unfoldable pub truth : Value → Bool
truth null = false
truth (bool flag) = flag
truth (int zero) = false
truth (int (suc n)) = true
truth (float s) = if s == "0.0" || s == "-0.0" then false else true
truth (text s) = if s == "" then false else true
truth (array no_elements) = false
truth (array (element v vs)) = true
truth (object no_entries) = false
truth (object (entry k v rest)) = true

-- `requested_config if isinstance(requested_config, dict) else {}`
unfoldable pub config_of : Value → Entries
config_of (object entries) = entries
config_of _ = no_entries

unfoldable pub str_value : Builtins → Value → String
unfolding show show_bool
str_value py (text s) = s
str_value py (float s) = s
str_value py (int n) = show n
str_value py (bool flag) = show_bool flag
str_value py null = "None"
str_value py value = py.repr value

abbrev id_from : Option ℕ → Result QueueError ℕ
id_from none = err invalid_id
id_from (some n) = ok n

unfoldable pub int_value : Builtins → Value → Result QueueError ℕ
int_value py (int n) = ok n
int_value py (bool true) = ok 1
int_value py (bool false) = ok 0
int_value py (text s) = id_from (py.int_of_text s)
int_value py (float s) = id_from (py.int_of_text s)
int_value py _ = err invalid_id

infixl 5 ◌>>=◌
abbrev pub ◌>>=◌ :
    {A B : Type 0} → Result QueueError A → (A → Result QueueError B) → Result QueueError B
err e >>= k = err e
ok a >>= k = k a

-- The branches of `_dispatch_job_unchecked`.
unfoldable pub task_for :
    Entries → (job_type : String) → (job_id : ℕ) → String → Result QueueError Task
unfolding get_or truth config_of
task_for payload job_type job_id password =
    if job_type == "ssh_connect_check"
    then ok (run_ssh_connect_check_task job_id password)
    else if job_type == "environment_check"
    then ok (run_environment_check_task job_id password)
    else if job_type == "environment_install"
    then ok (confirm_environment_install_task job_id password true)
    else if job_type == "deployment"
    then ok (
        run_deployment_task job_id password
          (truth (get_or (bool false) "confirm_remove_existing" payload)))
    else if job_type == "restart" || job_type == "stop" || job_type == "start"
    then ok (run_operation_task job_id (get_or (text job_type) "operation" payload) password)
    else if job_type == "redeployment"
    then ok (
        run_redeploy_task job_id password (config_of (get_or null "requested_config" payload))
          (truth (get_or (bool false) "confirm_high_risk" payload)))
    else err unsupported_type

-- The dictionary of `enqueue_job`.
unfoldable pub payload_of : (job_type : String) → ℕ → (token : String) → Entries → Entries
unfolding update_with
payload_of job_type job_id token options =
    update_with
      (entry "job_type" (text job_type)
        (entry "job_id" (int job_id) (entry "encrypted_password" (text token) no_entries)))
      options

module _ (c : Crypto) where
  -- The dictionary that goes to the worker; `none` where the job is not queued.
  unfoldable pub enqueue_job :
      Settings
      → (nonce : List ℕ) → (job_type : String) → ℕ
      → (password : String) → Entries
      → Result QueueError (Option Entries)
  unfolding should_use_worker_queue payload_of
  enqueue_job settings nonce job_type job_id password options =
      if should_use_worker_queue settings
      then (do
        token ← encrypt_password c settings nonce password
        ok (some (payload_of job_type job_id token options)))
      else ok none

  -- `_dispatch_job_unchecked`, up to the call of the task.
  unfoldable pub dispatch_unchecked :
      Builtins → Settings → Entries → (job_type : String) → (job_id : ℕ) → Result QueueError Task
  unfolding required str_value task_for
  dispatch_unchecked py settings payload job_type job_id = do
    token ← required "encrypted_password" payload
    password ← decrypt_password c settings (str_value py token)
    task_for payload job_type job_id password

  -- `_dispatch_job`, up to the call of the task.
  unfoldable pub dispatch : Builtins → Settings → Entries → Result QueueError Task
  unfolding int_value dispatch_unchecked
  dispatch py settings payload = do
    job_type ← required "job_type" payload
    job_id ← required "job_id" payload
    id ← int_value py job_id
    dispatch_unchecked py settings payload (str_value py job_type) id
