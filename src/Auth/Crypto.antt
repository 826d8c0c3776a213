-- ===== src/Auth/Crypto.antt =====
-- core/auth.py: what lies outside of it, what it raises, and the texts of its digests.
use Prim.Native.Char.{Char, code}
use sglang_ops_stack.Base.{
  ℕ, ◌-◌, ◌%◌, String, ◌<>◌, Bool, true, ◌&&◌, List, Option, ltb, ◌==◌, if◌then◌else◌,
}
use Prim.Native.String.{count}
use sglang_ops_stack.Base.Text.{rstrip_char}
use sglang_ops_stack.Base.Split.{repeat}
use sglang_ops_stack.Base.Exec.{Result, ok, err}
use sglang_ops_stack.Json.{Value, Entries}

-- The functions of `hmac`, `hashlib`, `base64` and `json`; `none` stands for a `ValueError`.
pub record AuthCrypto : Type 0 where
  pub encode : String → List ℕ
  -- `hmac.new(key, message, hashlib.sha256).digest()`
  pub hmac : List ℕ → List ℕ → List ℕ
  -- `hashlib.pbkdf2_hmac("sha256", password, salt, iterations).hex()`, for a positive number
  pub pbkdf2_hex : (password salt : List ℕ) → (iterations : ℕ) → String
  pub urlsafe_b64encode : List ℕ → String
  pub urlsafe_b64decode : String → Option (List ℕ)
  -- `json.dumps(payload, separators=(",", ":"))`
  pub dumps : Entries → String
  pub loads : List ℕ → Option Value

pub record AuthSettings : Type 0 where
  pub access_token_expire_minutes : ℕ
  pub auth_secret_key : String

-- `compare_digest` refuses texts beyond ASCII, `payload.get` values that are no dictionaries, and
-- `pbkdf2_hmac` a number of iterations that is not positive.
pub data AuthException : Type 0 where
  type_error attribute_error value_error : AuthException

unfoldable pub is_ascii : String → Bool
is_ascii String.[] = true
is_ascii (String.◌∷◌ c s) = ltb (code c) 128 && is_ascii s

-- `hmac.compare_digest` of two texts
unfoldable pub compare_digest : String → String → Result AuthException Bool
unfolding is_ascii
compare_digest a b = if is_ascii a && is_ascii b then ok (a == b) else err type_error

-- `-n % 4`
unfoldable pub missing : ℕ → ℕ
missing n = (4 - n % 4) % 4

abbrev pub equals : Char
equals = "="

module _ (c : AuthCrypto) where
  -- `_b64url_encode`
  unfoldable pub b64url_encode : List ℕ → String
  b64url_encode value = rstrip_char equals (c.urlsafe_b64encode value)

  -- `_b64url_decode`
  unfoldable pub b64url_decode : String → Option (List ℕ)
  unfolding missing
  b64url_decode value = c.urlsafe_b64decode (value <> repeat equals (missing (count value)))

  -- `_sign`
  unfoldable pub sign : (message secret_key : String) → String
  unfolding b64url_encode
  sign message secret_key = b64url_encode (c.hmac (c.encode secret_key) (c.encode message))
