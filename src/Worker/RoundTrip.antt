-- ===== src/Worker/RoundTrip.antt =====
-- Passwords on their way to the worker.
use sglang_ops_stack.Base.{
  ℕ, zero, suc, ◌+◌, ◌≤◌, String, false, List, [], ◌∷◌, ◌++◌, Option, none, some, length, ltb, All,
  ◌≡◌, refl, ◌∙◌, ap, subst, arith, Bool-cases, inl, inr,
}
use sglang_ops_stack.Base.Exec.{Result, ok, err}
use sglang_ops_stack.Worker.Bytes.{
  IsByte, take, drop, same_bytes, to_bytes, zip_xor-zip_xor, length-zip_xor, take-append,
  drop-append, length-append, same_bytes_refl, same_bytes-equal,
}
use sglang_ops_stack.Worker.Queue.{
  Crypto, Settings, QueueError, undecodable, secret_key, stream, xor_stream, seal, encrypt_password,
  decoded, open_parts, open_raw, decrypt_password,
}

-- What is documented of the libraries: a digest of SHA-256 has 32 bytes, a text is encoded by
-- bytes, and the decoders take back what the encoders made.
pub record Sound (c : Crypto) (text : String) : Type 0 where
  pub digest_length : (key message : List ℕ) → length (c.hmac key message) ≡ 32
  pub encode_bytes : All IsByte (c.encode text)
  pub decode-encode : c.decode (c.encode text) ≡ some text
  pub b64decode-b64encode : (bytes : List ℕ) → c.b64decode (c.b64encode bytes) ≡ some bytes

take_exact : (n : ℕ) (xs ys : List ℕ) → length xs ≡ n → take n (xs ++ ys) ≡ xs
take_exact n xs ys h = subst (λ m. take m (xs ++ ys) ≡ xs) h (take-append xs ys)

drop_exact : (n : ℕ) (xs ys : List ℕ) → length xs ≡ n → drop n (xs ++ ys) ≡ ys
drop_exact n xs ys h = subst (λ m. drop m (xs ++ ys) ≡ ys) h (drop-append xs ys)

append-append : (xs ys zs : List ℕ) → (xs ++ ys) ++ zs ≡ xs ++ (ys ++ zs)
append-append [] ys zs = refl
append-append (x ∷ xs) ys zs = ap (λ ws. x ∷ ws) (append-append xs ys zs)

module _ (c : Crypto) (password : String) (sound : Sound c password) where
  length-stream :
      (fuel wanted : ℕ) (key nonce : List ℕ) (counter : ℕ) (output : List ℕ)
      → wanted ≤ length output + fuel
      → wanted ≤ length (stream c fuel wanted key nonce counter output)
  unfolding stream
  length-stream zero wanted key nonce counter output h = omega arith
  length-stream (suc fuel) wanted key nonce counter output h =
      elim (Bool-cases (ltb (length output) wanted)) [
        | inl e ↦
            let block = c.hmac key (nonce ++ to_bytes 8 counter) in
            let grown = length-append output block in
            let digest = sound.digest_length key (nonce ++ to_bytes 8 counter) in
            rw e (length-stream fuel wanted key nonce (suc counter) (output ++ block) (omega arith))
        | inr e ↦ rw e (ground arith)
      ]

  mask_covers :
      (values key nonce : List ℕ)
      → length values ≤ length (stream c (length values) (length values) key nonce 0 [])
  mask_covers values key nonce =
      length-stream (length values) (length values) key nonce 0 [] (omega arith)

  xor_stream-xor_stream :
      (values key nonce : List ℕ)
      → All IsByte values
      → xor_stream c (xor_stream c values key nonce) key nonce ≡ values
  unfolding xor_stream
  xor_stream-xor_stream values key nonce bytes =
      rw
        (length-zip_xor values (stream c (length values) (length values) key nonce 0 [])
          (mask_covers values key nonce))
        (zip_xor-zip_xor values _ bytes (mask_covers values key nonce))

  open_parts-seal :
      (key nonce : List ℕ)
      → (let ciphertext = xor_stream c (c.encode password) key nonce in
          open_parts c key nonce (c.hmac key (nonce ++ ciphertext)) ciphertext ≡ ok password)
  unfolding open_parts decoded
  open_parts-seal key nonce =
      rw
        (
          same_bytes_refl (c.hmac key (nonce ++ xor_stream c (c.encode password) key nonce)),
          xor_stream-xor_stream (c.encode password) key nonce sound.encode_bytes,
          sound.decode-encode,
        )
        refl

  open_raw-append :
      (settings : Settings) (key nonce mac ciphertext : List ℕ)
      → secret_key c settings ≡ ok key
      → length nonce ≡ 16
      → length mac ≡ 32
      → open_raw c settings (nonce ++ (mac ++ ciphertext)) ≡ open_parts c key nonce mac ciphertext
  unfolding open_raw
  open_raw-append settings key nonce mac ciphertext k hn hm =
      let outer = length-append nonce (mac ++ ciphertext) in
      let inner = length-append mac ciphertext in
      let head = length-append nonce mac in
      let long : ltb (length (nonce ++ (mac ++ ciphertext))) 48 ≡ false = ground arith in
      let tail : drop 48 (nonce ++ (mac ++ ciphertext)) ≡ ciphertext =
        subst (λ raw. drop 48 raw ≡ ciphertext) (append-append nonce mac ciphertext)
          (drop_exact 48 (nonce ++ mac) ciphertext (omega arith)) in
      rw
        (
          long,
          k,
          take_exact 16 nonce (mac ++ ciphertext) hn,
          drop_exact 16 nonce (mac ++ ciphertext) hn,
          take_exact 32 mac ciphertext hm,
          tail,
        )
        refl

  decrypt_password-seal :
      (settings : Settings) (key nonce : List ℕ)
      → secret_key c settings ≡ ok key
      → length nonce ≡ 16
      → decrypt_password c settings (seal c key nonce password) ≡ ok password
  unfolding decrypt_password seal
  decrypt_password-seal settings key nonce k hn =
      let ciphertext = xor_stream c (c.encode password) key nonce in
      let mac = c.hmac key (nonce ++ ciphertext) in
      rw (sound.b64decode-b64encode (nonce ++ (mac ++ ciphertext)), decrypt_password)
        (open_raw-append settings key nonce mac ciphertext k hn (sound.digest_length key _)
          ∙ open_parts-seal key nonce)

  decrypts_with :
      (settings : Settings) (nonce : List ℕ) (token : String) (found : Result QueueError (List ℕ))
      → length nonce ≡ 16
      → secret_key c settings ≡ found
      → elim found [ err e ↦ err e | ok key ↦ ok (seal c key nonce password) ] ≡ ok token
      → decrypt_password c settings token ≡ ok password
  decrypts_with settings nonce token (err e) hn k h = ground arith
  decrypts_with settings nonce token (ok key) hn k h =
      let same : seal c key nonce password ≡ token = ground arith in
      subst (λ t. decrypt_password c settings t ≡ ok password) same
        (decrypt_password-seal settings key nonce k hn)

  -- For libraries that are sound for the password and a nonce of 16 bytes, what `encrypt_password`
  -- returns is decrypted to the password.
  pub decrypt_password-encrypt_password :
      (settings : Settings) (nonce : List ℕ) (token : String)
      → length nonce ≡ 16
      → encrypt_password c settings nonce password ≡ ok token
      → decrypt_password c settings token ≡ ok password
  unfolding encrypt_password
  decrypt_password-encrypt_password settings nonce token hn h =
      decrypts_with settings nonce token (secret_key c settings) hn refl h

-- A token that is decrypted is base64 of at least 48 bytes, of which those from the 17th to the
-- 48th are the digest, under the key of the settings, of the nonce before them and the ciphertext
-- behind them.
abbrev pub IsAuthentic : Crypto → Settings → List ℕ → Type 0
IsAuthentic c settings raw =
    (key : List ℕ) × (secret_key c settings ≡ ok key)
    × (take 32 (drop 16 raw) ≡ c.hmac key (take 16 raw ++ drop 48 raw))
    × (48 ≤ length raw)

module _ (c : Crypto) where
  opened_parts :
      (settings : Settings) (raw key : List ℕ) (password : String)
      → secret_key c settings ≡ ok key
      → 48 ≤ length raw
      → open_parts c key (take 16 raw) (take 32 (drop 16 raw)) (drop 48 raw) ≡ ok password
      → IsAuthentic c settings raw
  unfolding open_parts
  opened_parts settings raw key password k long h =
      elim (Bool-cases
        (same_bytes (take 32 (drop 16 raw)) (c.hmac key (take 16 raw ++ drop 48 raw)))) [
          | inl e ↦ (key, k, same_bytes-equal _ _ e, long)
          | inr e ↦ ground arith
        ]

  opened :
      (settings : Settings) (raw : List ℕ) (password : String)
      → open_raw c settings raw ≡ ok password
      → IsAuthentic c settings raw
  unfolding open_raw
  opened settings raw password h = elim (Bool-cases (ltb (length raw) 48)) [
    | inl e ↦ ground arith
    | inr e ↦ with_key (secret_key c settings) refl (ground arith) (ground arith)
  ]
    where
      with_key :
          (found : Result QueueError (List ℕ))
          → secret_key c settings ≡ found
          → 48 ≤ length raw
          → elim found [
            | err e ↦ err e
            | ok key ↦ open_parts c key (take 16 raw) (take 32 (drop 16 raw)) (drop 48 raw)
          ]
            ≡ ok password
          → IsAuthentic c settings raw
      with_key (err e) k long g = ground arith
      with_key (ok key) k long g = opened_parts settings raw key password k long g

  -- No token is decrypted but one that carries the digest of its own nonce and ciphertext under the
  -- key of the settings.
  pub decrypt_password-IsAuthentic :
      (settings : Settings) (token password : String)
      → decrypt_password c settings token ≡ ok password
      → (raw : List ℕ) × (c.b64decode token ≡ some raw) × IsAuthentic c settings raw
  unfolding decrypt_password
  decrypt_password-IsAuthentic settings token password h = from_raw (c.b64decode token) refl h
    where
      from_raw :
          (found : Option (List ℕ))
          → c.b64decode token ≡ found
          → elim found [ none ↦ err undecodable | some raw ↦ open_raw c settings raw ] ≡ ok password
          → (raw : List ℕ) × (c.b64decode token ≡ some raw) × IsAuthentic c settings raw
      from_raw none e g = ground arith
      from_raw (some raw) e g = (raw, e, opened settings raw password g)
