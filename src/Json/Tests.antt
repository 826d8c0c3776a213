-- ===== src/Json/Tests.antt =====
-- Masking at a concrete dictionary.
use sglang_ops_stack.Base.{[], true, ◌≡◌, refl}
use sglang_ops_stack.Masking.{has_sensitive_key}
use sglang_ops_stack.Json.{Value, text, object, no_entries, entry}
use sglang_ops_stack.Json.Masked.{mask_sensitive_data}
use sglang_ops_stack.Json.Hidden.{hides, hides-mask_sensitive_data}
use sglang_ops_stack.Deployment.Tests.{plain_patterns}

abbrev nested : Value
nested = object (
    entry "host" (text "gpu")
      (entry "env" (object (entry "API-KEY" (text "k1") no_entries)) no_entries))

hides-mask_sensitive_data_example : hides (mask_sensitive_data plain_patterns [] nested) ≡ true
hides-mask_sensitive_data_example = hides-mask_sensitive_data plain_patterns [] nested

-- Python's lower case of the sign of kelvin is a k, so this key is sensitive.
kelvin-has_sensitive_key : has_sensitive_key "TOKEN" ≡ true
unfolding has_sensitive_key sglang_ops_stack.Base.Text.lower sglang_ops_stack.Base.Text.replace
    sglang_ops_stack.Base.Text.replace_from
kelvin-has_sensitive_key = refl
