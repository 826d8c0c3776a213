-- ===== src/Json/Hidden.antt =====
-- What masked data shows under the keys that are sensitive.
use sglang_ops_stack.Base.{
  String, Bool, true, false, ◌&&◌, List, ◌≡◌, refl, arith, Bool-cases, inl, inr, if◌then◌else◌,
}
use sglang_ops_stack.Masking.{Patterns, mask, has_sensitive_key}
use sglang_ops_stack.Json.{
  Value, Elements, Entries, null, bool, int, float, text, array, object, no_elements, element,
  no_entries, entry, same,
}
use sglang_ops_stack.Json.Masked.{mask_sensitive_data, mask_sensitive_items, mask_sensitive_fields}

abbrev shows : String → Value → Bool
shows key v = if has_sensitive_key key then same v (text mask) else true

-- At every depth, a value under a sensitive key is the mask.
unfoldable mutual
  pub hides : Value → Bool
  hides (array xs) = hides_elements xs
  hides (object fs) = hides_entries fs
  hides _ = true

  pub hides_elements : Elements → Bool
  hides_elements no_elements = true
  hides_elements (element x xs) = hides x && hides_elements xs

  pub hides_entries : Entries → Bool
  hides_entries no_entries = true
  hides_entries (entry k v fs) = shows k v && hides v && hides_entries fs

all_three : (a b c : Bool) → a ≡ true → b ≡ true → c ≡ true → (a && b && c) ≡ true
all_three a b c h k l = ground arith

both : (a b : Bool) → a ≡ true → b ≡ true → (a && b) ≡ true
both a b h k = ground arith

module _ (p : Patterns) (secrets : List String) where
  abbrev value_of : Bool → Value → Value
  value_of b masked = if b then text mask else masked

  shown_value :
      (key : String) (masked : Value) → shows key (value_of (has_sensitive_key key) masked) ≡ true
  unfolding same
  shown_value key masked = elim (Bool-cases (has_sensitive_key key)) [
    | inl e ↦ rw e refl
    | inr e ↦ rw e refl
  ]

  hidden_value :
      (b : Bool) (masked : Value) → hides masked ≡ true → hides (value_of b masked) ≡ true
  unfolding hides
  hidden_value true masked h = refl
  hidden_value false masked h = h

  mutual
    unfolding hides mask_sensitive_data

    hidden_data : (v : Value) → hides (mask_sensitive_data p secrets v) ≡ true
    hidden_data (text t) = refl
    hidden_data (float t) = refl
    hidden_data (int n) = refl
    hidden_data (bool b) = refl
    hidden_data null = refl
    hidden_data (array xs) = hidden_elements xs
    hidden_data (object fs) = hidden_entries fs

    hidden_elements : (xs : Elements) → hides_elements (mask_sensitive_items p secrets xs) ≡ true
    hidden_elements no_elements = refl
    hidden_elements (element x xs) = both _ _ (hidden_data x) (hidden_elements xs)

    hidden_entries : (fs : Entries) → hides_entries (mask_sensitive_fields p secrets fs) ≡ true
    hidden_entries no_entries = refl
    hidden_entries (entry k v fs) =
        all_three _ _ _ (shown_value k _) (hidden_value (has_sensitive_key k) _ (hidden_data v))
          (hidden_entries fs)

  -- What mask_sensitive_data returns has nothing but the mask under a key that is sensitive, at any
  -- depth.
  pub hides-mask_sensitive_data : (v : Value) → hides (mask_sensitive_data p secrets v) ≡ true
  hides-mask_sensitive_data v = hidden_data v
