-- ===== src/Worker/Submitted.antt =====
-- The worker runs the task that the route would have run itself.
use sglang_ops_stack.Base.{
  ℕ, String, Bool, true, false, List, none, some, length, ◌≡◌, refl, subst, arith, if◌then◌else◌,
}
use sglang_ops_stack.Base.Exec.{Result, ok, err}
use sglang_ops_stack.Json.{Entries, get, has_key}
use sglang_ops_stack.Db.Results.{OperationName}
use sglang_ops_stack.Operation.Run.{operation_text}
use sglang_ops_stack.Worker.Queue.{
  Crypto, Settings, QueueError, should_use_worker_queue, encrypt_password, decrypt_password,
}
use sglang_ops_stack.Worker.RoundTrip.{Sound, decrypt_password-encrypt_password}
use sglang_ops_stack.Worker.Dispatch.{
  Builtins, set_entry, update_with, get_or, required, truth, config_of, str_value, int_value, ◌>>=◌,
  task_for, payload_of, enqueue_job, dispatch_unchecked, dispatch,
}
use sglang_ops_stack.Worker.Request.{
  JobRequest, ssh_connect_check, environment_check, environment_install, deployment, operation,
  redeployment, job_type, options, background_task,
}

module _ (c : Crypto) (password : String) (py : Builtins) (settings : Settings) (job_id : ℕ)
    (token : String) (opens : decrypt_password c settings token ≡ ok password) where
  dispatch-payload_of :
      (request : JobRequest)
      → dispatch c py settings (payload_of (job_type request) job_id token (options request))
        ≡ ok (background_task request job_id password)
  unfolding dispatch dispatch_unchecked task_for payload_of update_with set_entry required get_or
      get has_key truth config_of str_value int_value job_type options background_task
      operation_text
  dispatch-payload_of ssh_connect_check = rw opens refl
  dispatch-payload_of environment_check = rw opens refl
  dispatch-payload_of environment_install = rw opens refl
  dispatch-payload_of (deployment confirm) = rw opens refl
  dispatch-payload_of (operation OperationName.restart) = rw opens refl
  dispatch-payload_of (operation OperationName.stop) = rw opens refl
  dispatch-payload_of (operation OperationName.start) = rw opens refl
  dispatch-payload_of (redeployment config confirm) = rw opens refl

module _ (c : Crypto) (password : String) (sound : Sound c password) where
  -- For libraries that are sound for the password and a nonce of 16 bytes, whatever `str` and `int`
  -- make of other values: where a route queues a job, the worker calls the task that the route adds
  -- to its background tasks otherwise, with the same job, password and options.
  pub dispatch-enqueue_job :
      (py : Builtins) (settings : Settings) (nonce : List ℕ) (request : JobRequest) (job_id : ℕ)
      (payload : Entries)
      → length nonce ≡ 16
      → enqueue_job c settings nonce (job_type request) job_id password (options request)
        ≡ ok (some payload)
      → dispatch c py settings payload ≡ ok (background_task request job_id password)
  unfolding enqueue_job
  dispatch-enqueue_job py settings nonce request job_id payload hn h =
      queued (should_use_worker_queue settings) (encrypt_password c settings nonce password) refl h
    where
      queued :
          (b : Bool) (sealed : Result QueueError String)
          → encrypt_password c settings nonce password ≡ sealed
          → (if b
              then (sealed >>= λ token.
                  ok (some (payload_of (job_type request) job_id token (options request))))
              else ok none)
            ≡ ok (some payload)
          → dispatch c py settings payload ≡ ok (background_task request job_id password)
      queued false sealed e g = ground arith
      queued true (err x) e g = ground arith
      queued true (ok token) e g =
          let same : payload_of (job_type request) job_id token (options request) ≡ payload =
            ground arith in
          subst (λ p. dispatch c py settings p ≡ ok (background_task request job_id password)) same
            (dispatch-payload_of c password py settings job_id token
              (decrypt_password-encrypt_password c password sound settings nonce token hn e)
              request)
