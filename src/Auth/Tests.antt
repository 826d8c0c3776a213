-- ===== src/Auth/Tests.antt =====
-- Tokens, users and requests, and the theorems at these.
use sglang_ops_stack.Base.{ℕ, String, true, false, List, [], ◌∷◌, some, none, refl, arith, ◌≡◌}
use sglang_ops_stack.Base.Show.{negsuc}
use sglang_ops_stack.Base.Split.{split_all}
use sglang_ops_stack.Base.Exec.{ok}
use sglang_ops_stack.Base.Exec.Keeps.{Ends}
use sglang_ops_stack.Json.{object}
use sglang_ops_stack.Deployment.Tests.{plain_patterns}
use sglang_ops_stack.Auth.Crypto.{AuthCrypto, AuthSettings}
use sglang_ops_stack.Auth.Token.{User, token_payload, create_access_token, decode_access_token, dot}
use sglang_ops_stack.Auth.Password.{
  create_user, authenticate_user, hash_password, int_of, signed, digits,
}
use sglang_ops_stack.Auth.Access.{Access, Gate, require_role}
use sglang_ops_stack.Auth.Authentic.{IsAuthentic, decode_access_token-IsAuthentic}
use sglang_ops_stack.Auth.Issued.{Sound, decode_access_token-create_access_token}
use sglang_ops_stack.Auth.Granted.{IsGranted, IsRefused, require_role-IsGranted}
use sglang_ops_stack.Auth.Enrolled.{authenticate_user-create_user}

abbrev settings : AuthSettings
settings = record { access_token_expire_minutes = 0; auth_secret_key = "key" }

abbrev ann : User
ann = record {
  id = 1;
  username = "ann";
  password_hash = "pbkdf2_sha256$260000$5a17$d1";
  role = "operator";
  is_active = true;
}

-- Libraries that know one payload.
abbrev crypto : AuthCrypto
crypto = record {
  encode = λ text. 1 ∷ [];
  hmac = λ key message. 2 ∷ [];
  pbkdf2_hex = λ password salt iterations. "d1";
  urlsafe_b64encode = λ bytes. "YQ==";
  urlsafe_b64decode = λ text. some (1 ∷ []);
  dumps = λ payload. "{}";
  loads = λ bytes. some (object (token_payload settings 1000 ann));
}

crypto-Sound : Sound crypto (token_payload settings 1000 ann)
unfolding sglang_ops_stack.Base.Split.lacks sglang_ops_stack.Base.Split.repeat
    sglang_ops_stack.Auth.Crypto.missing sglang_ops_stack.Auth.Crypto.is_ascii
crypto-Sound = record {
  body = λ bytes. "YQ";
  padding = λ bytes. refl;
  lacks_equals = λ bytes. refl;
  lacks_dot = λ bytes. refl;
  ascii = λ bytes. refl;
  b64decode-b64encode = refl;
  loads-dumps = refl;
}

decode_access_token-create_access_token_example :
    decode_access_token crypto settings 4600 (create_access_token crypto settings 1000 ann)
    ≡ ok (some (token_payload settings 1000 ann))
unfolding sglang_ops_stack.Auth.Token.ttl_minutes
decode_access_token-create_access_token_example =
    decode_access_token-create_access_token crypto settings 1000 ann crypto-Sound 4600 (omega arith)

decode_access_token-IsAuthentic_example :
    IsAuthentic crypto settings 4600
      (split_all dot (create_access_token crypto settings 1000 ann))
      (token_payload settings 1000 ann)
unfolding sglang_ops_stack.Auth.Token.ttl_minutes
decode_access_token-IsAuthentic_example =
    decode_access_token-IsAuthentic crypto settings 4600
      (create_access_token crypto settings 1000 ann) (token_payload settings 1000 ann)
      (decode_access_token-create_access_token crypto settings 1000 ann crypto-Sound 4600
        (omega arith))

abbrev gate : Gate
gate = record { crypto = crypto; settings = settings; patterns = plain_patterns }

abbrev tables : Access
tables = record { users = ann ∷ []; audits = [] }

require_role-IsGranted_example :
    Ends
      (IsGranted "admin" tables)
      (IsRefused tables)
      (require_role gate 1000 "POST" "/hosts" "admin"
        (some (create_access_token crypto settings 1000 ann))
        tables).0
      (require_role gate 1000 "POST" "/hosts" "admin"
        (some (create_access_token crypto settings 1000 ann))
        tables).1
require_role-IsGranted_example =
    require_role-IsGranted gate 1000 "POST" "/hosts" "admin"
      (some (create_access_token crypto settings 1000 ann)) tables

abbrev bob : User
bob = record {
  id = 2;
  username = "bob";
  password_hash = hash_password crypto "5a17" "pw" 260000;
  role = "viewer";
  is_active = true;
}

authenticate_user-create_user_example :
    authenticate_user crypto "bob" "pw" (ann ∷ bob ∷ []) ≡ ok (some bob)
unfolding create_user sglang_ops_stack.Auth.Password.get_user_by_username
    sglang_ops_stack.Base.Split.lacks sglang_ops_stack.Auth.Crypto.is_ascii
authenticate_user-create_user_example =
    authenticate_user-create_user crypto 2 "5a17" "bob" "pw" "viewer" (ann ∷ []) refl refl refl bob
      (ann ∷ bob ∷ []) refl

-- The digits of other scripts are digits of a number.
arabic_digits : int_of " -\u{664}_\u{662} " ≡ some (negsuc 41)
unfolding int_of signed digits sglang_ops_stack.Base.Text.strip
arabic_digits = refl
