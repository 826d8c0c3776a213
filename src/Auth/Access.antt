-- ===== src/Auth/Access.antt =====
-- api/deps.py and services/audit_service.py: the user of a request, the role that it needs, and the
-- record of a refusal.
use sglang_ops_stack.Base.{
  ℕ, String, List, [], ◌∷◌, ◌++◌, Option, none, some, ltb, ◌==◌, if◌then◌else◌,
}
use sglang_ops_stack.Base.Show.{ℤ, pos, negsuc}
use sglang_ops_stack.Base.Exec.{Result, ok, err, Exec, pure, raise, try, modify, ◌>>=◌, ◌>>◌}
use sglang_ops_stack.Masking.{Patterns}
use sglang_ops_stack.Json.{Value, Entries, text, object, no_entries, entry, get}
use sglang_ops_stack.Json.Masked.{mask_sensitive_data}
use sglang_ops_stack.Auth.Crypto.{AuthCrypto, AuthSettings, AuthException}
use sglang_ops_stack.Auth.Token.{User, decode_access_token}
use sglang_ops_stack.Auth.Password.{int_of, get_user}

pub record AuditLog : Type 0 where
  pub event_type : String
  pub actor_id : Option ℕ
  pub actor_username : Option String
  pub actor_role : Option String
  pub target_type : Option String
  pub target_id : Option String
  pub summary : Value

-- An `HTTPException` with its status and detail, or another exception of core/auth.py.
pub data AccessError : Type 0 where
  http : (status_code : ℕ) → (detail : String) → AccessError
  auth : AuthException → AccessError

-- The tables that a request reads and the one that it writes.
pub record Access : Type 0 where
  pub users : List User
  pub audits : List AuditLog

abbrev pub Request : Type 0 → Type 0
Request A = Exec AccessError Access A

pub record Gate : Type 0 where
  pub crypto : AuthCrypto
  pub settings : AuthSettings
  pub patterns : Patterns

-- `ROLE_LEVELS.get(role, 0)`
unfoldable pub role_level : String → ℕ
role_level role =
    if role == "viewer"
    then 1
    else if role == "operator"
    then 2
    else if role == "admin"
    then 3
    else 0

-- The row that `record_event` makes of an actor.
unfoldable pub audit_row :
    Patterns → (event_type : String) → User → (target_type target_id : String) → Entries → AuditLog
audit_row p event_type actor target_type target_id summary = record {
  event_type = event_type;
  actor_id = some actor.id;
  actor_username = some actor.username;
  actor_role = some actor.role;
  target_type = some target_type;
  target_id = some target_id;
  summary = mask_sensitive_data p [] (object summary);
}

-- `record_event` with an actor, which commits the new row
unfoldable pub record_event :
    Patterns
    → (event_type : String) → User
    → (target_type target_id : String) → Entries
    → Request Unit
unfolding audit_row
record_event p event_type actor target_type target_id summary = modify (λ s. record s {
  audits = s.audits ++ audit_row p event_type actor target_type target_id summary ∷ [];
})

abbrev pub invalid_token : {A : Type 0} → Request A
invalid_token = raise (http 401 "Invalid token")

abbrev pub active : Option User → Request User
active none = raise (http 401 "Inactive user")
active (some user) = if user.is_active then pure user else raise (http 401 "Inactive user")

-- No user has a negative number.
abbrev pub found_user : ℤ → List User → Option User
found_user (pos id) users = get_user id users
found_user (negsuc n) users = none

-- The user that the payload names.
unfoldable pub user_of_subject : Option ℤ → Request User
unfolding get_user
user_of_subject none s = invalid_token s
user_of_subject (some id) s = active (found_user id s.users) s

abbrev pub user_of_value : Value → Request User
user_of_value (text subject) = user_of_subject (int_of subject)
user_of_value _ = invalid_token

unfoldable pub user_of_payload : Result AuthException (Option Entries) → Request User
unfolding get
user_of_payload (err e) = raise (auth e)
user_of_payload (ok none) = invalid_token
user_of_payload (ok (some payload)) = user_of_value (get "sub" payload)

-- `current_user`, at a time; `request.state` keeps the user that is returned.
unfoldable pub current_user : Gate → ℕ → Option String → Request User
unfolding decode_access_token user_of_payload
current_user g now none = raise (http 401 "Authentication required")
current_user g now (some token) =
    user_of_payload (decode_access_token g.crypto g.settings now token)

-- Only an `HTTPException` is caught.
abbrev pub user_or_none : Result AccessError User → Request (Option User)
user_or_none (ok user) = pure (some user)
user_or_none (err (http status_code detail)) = pure none
user_or_none (err (auth e)) = raise (auth e)

unfoldable pub optional_user : Gate → ℕ → Option String → Request (Option User)
optional_user g now none = pure none
optional_user g now (some token) = do
  outcome ← try (current_user g now (some token))
  user_or_none outcome

abbrev pub refusal_summary : (method path min_role : String) → Entries
refusal_summary method path min_role =
    entry "method" (text method)
      (entry "path" (text path) (entry "required_role" (text min_role) no_entries))

-- What follows the authentication in `require_role`.
unfoldable pub check_role : Gate → (method path min_role : String) → User → Request User
unfolding role_level record_event
check_role g method path min_role user =
    if ltb (role_level user.role) (role_level min_role)
    then (do
      record_event g.patterns "auth.permission_denied" user "route" path
          (refusal_summary method path min_role)
      raise (http 403 "Insufficient role"))
    else pure user

-- The dependency of `require_role`, for one of the roles of `ROLE_LEVELS`.
unfoldable pub require_role :
    Gate → ℕ → (method path min_role : String) → Option String → Request User
unfolding current_user check_role
require_role g now method path min_role credentials = do
  user ← current_user g now credentials
  check_role g method path min_role user
