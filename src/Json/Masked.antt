-- ===== src/Json/Masked.antt =====
-- utils/masking.py, api/schemas/deployment.py and services/redeploy_service.py: the masking of
-- nested data.
use sglang_ops_stack.Base.{
  String, Bool, true, false, ◌||◌, List, [], ◌∷◌, ◌++◌, any, ◌==◌, if◌then◌else◌,
}
use sglang_ops_stack.Base.Text.{lower, contains}
use sglang_ops_stack.Masking.{Patterns, mask, mask_secret, has_sensitive_key}
use sglang_ops_stack.Json.{
  Value, Elements, Entries, text, array, object, no_elements, element, no_entries, entry,
}

module _ (p : Patterns) (secrets : List String) where
  -- `mask_sensitive_data`
  unfoldable mutual
    pub mask_sensitive_data : Value → Value
    mask_sensitive_data (text t) = text (mask_secret p t secrets)
    mask_sensitive_data (array xs) = array (mask_sensitive_items xs)
    mask_sensitive_data (object fs) = object (mask_sensitive_fields fs)
    mask_sensitive_data v = v

    pub mask_sensitive_items : Elements → Elements
    mask_sensitive_items no_elements = no_elements
    mask_sensitive_items (element x xs) = element (mask_sensitive_data x) (mask_sensitive_items xs)

    pub mask_sensitive_fields : Entries → Entries
    mask_sensitive_fields no_entries = no_entries
    mask_sensitive_fields (entry k v fs) =
        let masked = mask_sensitive_data v in
        let rest = mask_sensitive_fields fs in
        entry k (if has_sensitive_key k then text mask else masked) rest

  -- `_mask_config_value`, which `_mask_value` repeats
  unfoldable mutual
    pub mask_value : Value → Value
    mask_value (text t) = text (mask_secret p t secrets)
    mask_value (array xs) = array (mask_value_items xs)
    mask_value (object fs) = object (mask_value_fields fs)
    mask_value v = v

    pub mask_value_items : Elements → Elements
    mask_value_items no_elements = no_elements
    mask_value_items (element x xs) = element (mask_value x) (mask_value_items xs)

    pub mask_value_fields : Entries → Entries
    mask_value_fields no_entries = no_entries
    mask_value_fields (entry k v fs) = entry k (mask_value v) (mask_value_fields fs)

-- Whether the value of a key is collected as a secret, where it is a text.
unfoldable pub names_secret : String → Bool
names_secret key =
    let name = lower key in
    (name == "model_path")
    || (name == "host_path")
    || (name == "container_path")
    || any (λ token. contains token name) ("password" ∷ "token" ∷ "key" ∷ "secret" ∷ [])

abbrev own_secret : String → Value → List String
own_secret key (text t) = if names_secret key then t ∷ [] else []
own_secret key v = []

abbrev given : List String → List String
given [] = []
given (s ∷ ss) =
    let rest = given ss in if sglang_ops_stack.Base.Text.is_empty s then rest else s ∷ rest

-- `_collect_config_secrets`; the empty texts are left out at the end.
unfoldable mutual
  pub secrets_in : Value → List String
  secrets_in (array xs) = secrets_in_items xs
  secrets_in (object fs) = secrets_in_fields fs
  secrets_in v = []

  pub secrets_in_items : Elements → List String
  secrets_in_items no_elements = []
  secrets_in_items (element x xs) = secrets_in x ++ secrets_in_items xs

  pub secrets_in_fields : Entries → List String
  secrets_in_fields no_entries = []
  secrets_in_fields (entry k v fs) = own_secret k v ++ (secrets_in v ++ secrets_in_fields fs)

unfoldable pub collect_config_secrets : Value → List String
unfolding secrets_in
collect_config_secrets v = given (secrets_in v)
