-- ===== src/Json.antt =====
-- The dictionaries that the program compares, masks and stores: values as `json` and `model_dump`
-- make them.
pub mod Masked
pub mod Hidden
mod Tests
use sglang_ops_stack.Base.{
  ℕ, String, Bool, true, false, ◌&&◌, List, [], ◌∷◌, suc, eqb, ◌==◌, if◌then◌else◌,
}
use sglang_ops_stack.Base.Text.{precedes}

-- A number that is not given as a natural number, such as a float, is kept as its `str`, apart from
-- the naturals.
mutual
  pub data Entries : Type 0 where
    no_entries : Entries
    entry : (key : String) → (value : Value) → (rest : Entries) → Entries

  pub data Elements : Type 0 where
    no_elements : Elements
    element : (first : Value) → (rest : Elements) → Elements

  pub data Value : Type 0 where
    text float : String → Value
    int : ℕ → Value
    bool : (flag : Bool) → Value
    null : Value
    array : (elements : Elements) → Value
    object : (entries : Entries) → Value

-- `data.get(key)`
unfoldable pub get : String → Entries → Value
get key no_entries = null
get key (entry k v fs) = let rest = get key fs in if k == key then v else rest

unfoldable pub has_key : String → Entries → Bool
has_key key no_entries = false
has_key key (entry k v fs) = let rest = has_key key fs in if k == key then true else rest

unfoldable pub count_fields : Entries → ℕ
count_fields no_entries = 0
count_fields (entry k v fs) = suc (count_fields fs)

abbrev same_bool : Bool → Bool → Bool
same_bool true b = b
same_bool false true = false
same_bool false false = true

-- `old == new`; two dictionaries are equal in any order of their keys. (1 and 1.0, which Python
-- takes for equal, are apart here.)
unfoldable mutual
  pub same : Value → Value → Bool
  same null null = true
  same (bool a) (bool b) = same_bool a b
  same (int a) (int b) = eqb a b
  same (float a) (float b) = a == b
  same (text a) (text b) = a == b
  same (array xs) (array ys) = same_items xs ys
  same (object xs) (object ys) = eqb (count_fields xs) (count_fields ys) && within xs ys
  same _ _ = false

  pub same_items : Elements → Elements → Bool
  same_items no_elements no_elements = true
  same_items (element x xs) (element y ys) = same x y && same_items xs ys
  same_items _ _ = false

  -- Every field of the first is one of the second, with the same value.
  pub within : Entries → Entries → Bool
  within no_entries ys = true
  within (entry k v fs) ys = has_key k ys && same v (get k ys) && within fs ys

-- A key at its place in a sorted list of keys without repetitions.
unfoldable pub insert_key : String → List String → List String
insert_key key [] = key ∷ []
insert_key key (k ∷ keys) =
    let rest = insert_key key keys in
    if key == k then k ∷ keys else if precedes key k then key ∷ k ∷ keys else k ∷ rest

unfoldable pub insert_keys : Entries → List String → List String
unfolding insert_key
insert_keys no_entries keys = keys
insert_keys (entry k v fs) keys = insert_key k (insert_keys fs keys)

-- `sorted(set(old) | set(new))`
unfoldable pub all_keys : Entries → Entries → List String
unfolding insert_keys
all_keys old new = insert_keys old (insert_keys new [])
