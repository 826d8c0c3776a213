-- ===== src/Auth/Token.antt =====
-- core/auth.py: the access tokens.
use Prim.Native.Char.{Char}
use sglang_ops_stack.Base.{
  ℕ, ◌+◌, ◌*◌, String, ◌<>◌, Bool, true, false, List, [], ◌∷◌, Option, none, some, ltb, eqb,
  if◌then◌else◌,
}
use sglang_ops_stack.Base.Split.{split_all}
use sglang_ops_stack.Base.Show.{show}
use sglang_ops_stack.Base.Exec.{Result, ok, err}
use sglang_ops_stack.Json.{Value, Entries, text, int, bool, object, no_entries, entry, get}
use sglang_ops_stack.Auth.Crypto.{
  AuthCrypto, AuthSettings, AuthException, attribute_error, compare_digest, b64url_encode,
  b64url_decode, sign,
}

pub record User : Type 0 where
  pub id : ℕ
  pub username : String
  pub password_hash : String
  pub role : String
  pub is_active : Bool

-- `access_token_expire_minutes or _DEFAULT_TOKEN_TTL_MINUTES`
unfoldable pub ttl_minutes : AuthSettings → ℕ
ttl_minutes settings =
    if eqb settings.access_token_expire_minutes 0 then 60 else settings.access_token_expire_minutes

-- The payload at a time, in seconds.
unfoldable pub token_payload : AuthSettings → ℕ → User → Entries
unfolding ttl_minutes
token_payload settings now user = entry "sub" (text (show user.id)) (
    entry "username" (text user.username) (
      entry "role" (text user.role)
        (entry "exp" (int (now + 60 * ttl_minutes settings)) no_entries)))

abbrev token_header : Entries
token_header = entry "typ" (text "JWT") (entry "alg" (text "HS256") no_entries)

abbrev pub dot : Char
dot = "."

-- `isinstance(exp, int)` and not below the time; a truth value is an `int` to Python. A negative
-- number is below every time, and stands outside `int` of `Value`.
unfoldable pub is_current : ℕ → Value → Bool
is_current now (int exp) = if ltb exp now then false else true
is_current now (bool true) = if ltb 1 now then false else true
is_current now (bool false) = if ltb 0 now then false else true
is_current now _ = false

-- What is done with the payload.
unfoldable pub checked_payload : ℕ → Option Value → Result AuthException (Option Entries)
unfolding is_current
checked_payload now none = ok none
checked_payload now (some (object payload)) =
    ok (if is_current now (get "exp" payload) then some payload else none)
checked_payload now (some _) = err attribute_error

abbrev pub load_bytes : AuthCrypto → Option (List ℕ) → Option Value
load_bytes c none = none
load_bytes c (some bytes) = c.loads bytes

-- `json.loads(_b64url_decode(part))`
unfoldable pub load_part : AuthCrypto → String → Option Value
load_part c part = load_bytes c (b64url_decode c part)

module _ (c : AuthCrypto) (settings : AuthSettings) where
  unfoldable pub signing_input : ℕ → User → String
  unfolding token_payload b64url_encode
  signing_input now user =
      b64url_encode c (c.encode (c.dumps token_header))
      <> "."
      <> b64url_encode c (c.encode (c.dumps (token_payload settings now user)))

  unfoldable pub create_access_token : ℕ → User → String
  unfolding signing_input
  create_access_token now user =
      let message = signing_input now user in
      message <> "." <> sign c message settings.auth_secret_key

  -- What follows the comparison of the signatures.
  unfoldable pub verified :
      ℕ → String → Result AuthException Bool → Result AuthException (Option Entries)
  unfolding load_part checked_payload
  verified now part (err e) = err e
  verified now part (ok false) = ok none
  verified now part (ok true) = checked_payload now (load_part c part)

  -- The three parts of a token; any other number of parts is refused.
  unfoldable pub decode_parts : ℕ → List String → Result AuthException (Option Entries)
  unfolding verified
  decode_parts now (header ∷ (payload ∷ (signature ∷ []))) =
      verified now payload
        (compare_digest (sign c (header <> "." <> payload) settings.auth_secret_key) signature)
  decode_parts now _ = ok none

  unfoldable pub decode_access_token : ℕ → String → Result AuthException (Option Entries)
  unfolding decode_parts
  decode_access_token now token = decode_parts now (split_all dot token)
