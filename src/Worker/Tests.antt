-- ===== src/Worker/Tests.antt =====
-- The theorems on the queue at concrete functions in place of the libraries'.
use Prim.Native.Char.{char, code}
use sglang_ops_stack.Base.{
  ℕ, zero, suc, ◌+◌, String, true, false, List, [], ◌∷◌, none, some, eqb, ◌≡◌, refl, ◌∙◌, ap, arith,
  length,
}
use sglang_ops_stack.Base.Exec.{ok, err}
use sglang_ops_stack.Worker.Queue.{
  Crypto, Settings, unsupported_type, encrypt_password, decrypt_password, secret_key, seal,
  should_use_worker_queue,
}
use sglang_ops_stack.Json.{Entries, no_entries, entry, text, int, bool, object, get, has_key}
use sglang_ops_stack.Worker.Dispatch.{
  Builtins, run_redeploy_task, enqueue_job, dispatch, dispatch_unchecked, task_for, payload_of,
  update_with, set_entry, required, get_or, str_value, int_value,
}
use sglang_ops_stack.Worker.Request.{JobRequest, redeployment, job_type, options, background_task}
use sglang_ops_stack.Worker.Submitted.{dispatch-enqueue_job}
use sglang_ops_stack.Worker.RoundTrip.{
  Sound, IsAuthentic, decrypt_password-encrypt_password, decrypt_password-IsAuthentic,
}

-- A number in unary, before a text.
unary : ℕ → String → String
unary zero rest = String.◌∷◌ (char 98 tt) rest
unary (suc n) rest = String.◌∷◌ (char 97 tt) (unary n rest)

write : List ℕ → String
unfolding unary
write [] = ""
write (n ∷ ns) = unary n (write ns)

read : ℕ → String → List ℕ
read n String.[] = []
read n (String.◌∷◌ c s) = elim (eqb (code c) 98) [ true ↦ n ∷ read 0 s | false ↦ read (suc n) s ]

read-unary : (m n : ℕ) (rest : String) → read m (unary n rest) ≡ (m + n) ∷ read 0 rest
unfolding read unary
read-unary m zero rest = ap (λ k. k ∷ read 0 rest) (omega arith)
read-unary m (suc n) rest = read-unary (suc m) n rest ∙ ap (λ k. k ∷ read 0 rest) (omega arith)

read-write : (ns : List ℕ) → read 0 (write ns) ≡ ns
unfolding read write
read-write [] = refl
read-write (n ∷ ns) =
    read-unary 0 n (write ns)
    ∙ ap (λ k. k ∷ read 0 (write ns)) (omega arith)
    ∙ ap (λ ms. n ∷ ms) (read-write ns)

digest : ℕ → ℕ → List ℕ
digest zero n = []
digest (suc count) n = n ∷ digest count n

crypto : Crypto
unfolding read write digest
crypto = record {
  sha256 = λ bytes. digest 32 1;
  hmac = λ key message. digest 32 (length message);
  encode = λ text. 112 ∷ 119 ∷ [];
  decode = λ bytes. some "pw";
  b64encode = write;
  b64decode = λ text. some (read 0 text);
}

crypto-Sound : Sound crypto "pw"
unfolding crypto
crypto-Sound = record {
  digest_length = λ key message. refl;
  encode_bytes = (omega arith, (omega arith, tt));
  decode-encode = refl;
  b64decode-b64encode = λ bytes. ap some (read-write bytes);
}

abbrev settings : Settings
settings = record { task_queue_mode = "celery"; auth_secret_key = "a key" }

abbrev nonce : List ℕ
nonce = 1 ∷ 2 ∷ 3 ∷ 4 ∷ 5 ∷ 6 ∷ 7 ∷ 8 ∷ 9 ∷ 10 ∷ 11 ∷ 12 ∷ 13 ∷ 14 ∷ 15 ∷ 16 ∷ []

-- The key of these settings.
abbrev key : List ℕ
key = crypto.sha256 (crypto.encode "a key")

decrypt_password-encrypt_password_example :
    decrypt_password crypto settings (seal crypto key nonce "pw") ≡ ok "pw"
unfolding encrypt_password secret_key
decrypt_password-encrypt_password_example =
    decrypt_password-encrypt_password crypto "pw" crypto-Sound settings nonce
      (seal crypto key nonce "pw") refl refl

-- Texts and floats are no numbers here.
abbrev builtins : Builtins
builtins = record { repr = λ value. "..."; int_of_text = λ text. none }

-- A redeployment whose risks are not confirmed.
abbrev request : JobRequest
request = redeployment (entry "port" (int 30010) no_entries) false

abbrev queued : Entries
queued = entry "job_type" (text "redeployment") (
    entry "job_id" (int 5) (
      entry "encrypted_password" (text (seal crypto key nonce "pw")) (
        entry "requested_config" (object (entry "port" (int 30010) no_entries))
          (entry "confirm_high_risk" (bool false) no_entries))))

dispatch-enqueue_job_example :
    dispatch crypto builtins settings queued
    ≡ ok (run_redeploy_task 5 "pw" (entry "port" (int 30010) no_entries) false)
unfolding enqueue_job encrypt_password secret_key should_use_worker_queue payload_of update_with
    set_entry job_type options background_task
dispatch-enqueue_job_example =
    dispatch-enqueue_job crypto "pw" crypto-Sound builtins settings nonce request 5 queued refl refl

-- An unknown type is refused, after its password has been decrypted.
dispatch_other :
    dispatch crypto builtins settings
      (payload_of "deployment_operation" 5 (seal crypto key nonce "pw") no_entries)
    ≡ err unsupported_type
unfolding dispatch dispatch_unchecked task_for payload_of update_with set_entry required get_or get
    has_key str_value int_value
dispatch_other = rw decrypt_password-encrypt_password_example refl

decrypt_password-IsAuthentic_example :
    (raw : List ℕ) × (crypto.b64decode (seal crypto key nonce "pw") ≡ some raw)
    × IsAuthentic crypto settings raw
decrypt_password-IsAuthentic_example =
    decrypt_password-IsAuthentic crypto settings (seal crypto key nonce "pw") "pw"
      decrypt_password-encrypt_password_example
