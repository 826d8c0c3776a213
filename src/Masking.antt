-- ===== src/Masking.antt =====
-- utils/masking.py: secrets are taken out of every text that is stored or shown. The substitutions
-- of Python's `re` and the functions of `urllib.parse` are parameters.
use sglang_ops_stack.Base.{String, Bool, List, [], ◌∷◌, Option, none, some, any, map, if◌then◌else◌}
use sglang_ops_stack.Base.Text.{is_empty, lower, contains, replace}

-- The parts of `urlsplit`.
pub record SplitUrl : Type 0 where
  pub scheme : String
  pub netloc : String
  pub path : String
  pub query : String
  pub fragment : String

pub record Patterns : Type 0 where
  -- `_PRIVATE_KEY_RE.sub(MASK, text)` and the substitutions behind it
  pub sub_private_key : String → String
  pub sub_bearer : String → String
  pub sub_assignment : String → String
  pub sub_json : String → String
  -- `_URL_RE.sub(repl, text)`, for any `repl`
  pub sub_url : (String → String) → String → String
  pub urlsplit : String → SplitUrl
  pub urlunsplit : SplitUrl → String
  pub parse_qsl : String → List (String × String)
  pub urlencode : List (String × String) → String

abbrev pub mask : String
mask = "***"

abbrev pub sensitive_keywords : List String
sensitive_keywords =
    "password" ∷ "passwd" ∷ "pwd" ∷ "token" ∷ "api_key" ∷ "apikey" ∷ "key" ∷ "secret" ∷ []

unfoldable pub has_sensitive_key : String → Bool
has_sensitive_key key =
    let normalized = replace "-" "_" (lower key) in
    any (λ token. contains token normalized) sensitive_keywords

unfoldable pub mask_pair : String × String → String × String
unfolding has_sensitive_key
mask_pair (key, value) = (key, if has_sensitive_key key then mask else value)

unfoldable pub replace_secrets : String → List String → String
replace_secrets text [] = text
replace_secrets text (secret ∷ secrets) =
    replace_secrets (if is_empty secret then text else replace secret mask text) secrets

module _ (p : Patterns) where
  pub mask_url : String → String
  mask_url raw_url =
      let parts = p.urlsplit raw_url in
      if is_empty parts.query
      then raw_url
      else p.urlunsplit
          (record parts { query = p.urlencode (map mask_pair (p.parse_qsl parts.query)) })

  unfoldable pub mask_secret : String → List String → String
  unfolding mask_url
  mask_secret text secrets = p.sub_url mask_url (
      p.sub_json
        (p.sub_assignment (p.sub_bearer (p.sub_private_key (replace_secrets text secrets)))))

  -- `mask_secret` of a text that may be `None`.
  unfoldable pub mask_optional : Option String → List String → String
  mask_optional none secrets = ""
  mask_optional (some text) secrets = mask_secret text secrets
