-- ===== src/Auth/Password.antt =====
-- core/auth.py and services/user_service.py: the passwords of the users.
use Prim.Native.Char.{Char, code}
use sglang_ops_stack.Base.{
  ℕ, zero, suc, ◌+◌, ◌*◌, ◌-◌, String, ◌<>◌, Bool, true, false, ◌&&◌, List, [], ◌∷◌, ◌++◌, Option,
  none, some, any, leb, eqb, ◌==◌, if◌then◌else◌,
}
use mathlib.Core.Option
use sglang_ops_stack.Base.Text.{strip}
use sglang_ops_stack.Base.Split.{split_at_most}
use sglang_ops_stack.Base.Show.{ℤ, pos, negsuc, show}
use sglang_ops_stack.Base.Exec.{Result, ok, err}
use sglang_ops_stack.Auth.Crypto.{AuthCrypto, AuthException, value_error, compare_digest}
use sglang_ops_stack.Auth.Token.{User}

abbrev is_digit : Char → Bool
is_digit c = leb 48 (code c) && leb (code c) 57

-- The zeros of the decimal digits beyond ASCII (category Nd of Unicode 15), each with its nine
-- successors behind it.
abbrev zeros : List ℕ
zeros =
    1632 ∷ 1776 ∷ 1984 ∷ 2406 ∷ 2534 ∷ 2662 ∷ 2790 ∷ 2918 ∷ 3046 ∷ 3174 ∷ 3302 ∷ 3430 ∷ 3558 ∷ 3664
    ∷ 3792 ∷ 3872 ∷ 4160 ∷ 4240 ∷ 6112 ∷ 6160 ∷ 6470 ∷ 6608 ∷ 6784 ∷ 6800 ∷ 6992 ∷ 7088 ∷ 7232
    ∷ 7248 ∷ 42528 ∷ 43216 ∷ 43264 ∷ 43472 ∷ 43504 ∷ 43600 ∷ 44016 ∷ 65296 ∷ 66720 ∷ 68912 ∷ 69734
    ∷ 69872 ∷ 69942 ∷ 70096 ∷ 70384 ∷ 70736 ∷ 70864 ∷ 71248 ∷ 71360 ∷ 71472 ∷ 71904 ∷ 72016 ∷ 72784
    ∷ 73040 ∷ 73120 ∷ 73552 ∷ 92768 ∷ 92864 ∷ 93008 ∷ 120782 ∷ 120792 ∷ 120802 ∷ 120812 ∷ 120822
    ∷ 123200 ∷ 123632 ∷ 124144 ∷ 125264 ∷ 130032 ∷ []

-- The value of a digit that has one of these zeros.
value_from : List ℕ → ℕ → Option ℕ
value_from [] n = none
value_from (first ∷ zeros) n =
    let rest = value_from zeros n in
    if leb first n && leb n (first + 9) then some (n - first) else rest

-- The digits of a number, with single underscores between them; the flag says that a digit stood
-- before.
unfoldable pub digits : Bool → ℕ → String → Option ℕ
unfolding value_from
digits behind n String.[] = if behind then some n else none
digits behind n (String.◌∷◌ c s) =
    let next = digits true (10 * n + (code c - 48)) s in
    let between = digits false n s in
    if is_digit c
    then next
    else if eqb (code c) 95
    then if behind then between else none
    else elim (value_from zeros (code c)) [ none ↦ none | some d ↦ digits true (10 * n + d) s ]

abbrev negated : ℕ → ℤ
negated zero = pos 0
negated (suc n) = negsuc n

unfoldable pub signed : String → Option ℤ
unfolding digits
signed String.[] = none
signed (String.◌∷◌ c s) =
    if eqb (code c) 45
    then Option.map negated (digits false 0 s)
    else if eqb (code c) 43
    then Option.map pos (digits false 0 s)
    else Option.map pos (digits false 0 (String.◌∷◌ c s))

-- `int(text)`; `none` stands for a `ValueError`.
unfoldable pub int_of : String → Option ℤ
unfolding signed
int_of text = signed (strip text)

abbrev pub dollar : Char
dollar = "$"

module _ (c : AuthCrypto) where
  -- `hash_password`, with the salt that `secrets.token_hex` gives
  unfoldable pub hash_password : (salt password : String) → (iterations : ℕ) → String
  hash_password salt password iterations =
      "pbkdf2_sha256"
      <> "$"
      <> show iterations
      <> "$"
      <> salt
      <> "$"
      <> c.pbkdf2_hex (c.encode password) (c.encode salt) iterations

  unfoldable pub compare_digests : (password salt expected : String) → ℤ → Result AuthException Bool
  compare_digests password salt expected (pos (suc n)) =
      compare_digest (c.pbkdf2_hex (c.encode password) (c.encode salt) (suc n)) expected
  compare_digests password salt expected _ = err value_error

  -- What follows the split and the reading of the number.
  unfoldable pub verify_digest :
      (password scheme salt expected : String) → Option ℤ → Result AuthException Bool
  unfolding compare_digests
  verify_digest password scheme salt expected none = ok false
  verify_digest password scheme salt expected (some iterations) =
      if scheme == "pbkdf2_sha256"
      then compare_digests password salt expected iterations
      else ok false

  unfoldable pub verify_parts : String → List String → Result AuthException Bool
  unfolding verify_digest int_of
  verify_parts password (scheme ∷ (raw_iterations ∷ (salt ∷ (expected ∷ [])))) =
      verify_digest password scheme salt expected (int_of raw_iterations)
  verify_parts password _ = ok false

  unfoldable pub verify_password : (password password_hash : String) → Result AuthException Bool
  unfolding verify_parts
  verify_password password password_hash =
      verify_parts password (split_at_most 3 dollar password_hash)

-- `get_user_by_username`, on the rows of the table
unfoldable pub get_user_by_username : String → List User → Option User
get_user_by_username username [] = none
get_user_by_username username (u ∷ us) =
    let rest = get_user_by_username username us in if u.username == username then some u else rest

-- `get_user`
unfoldable pub get_user : ℕ → List User → Option User
get_user id [] = none
get_user id (u ∷ us) = let rest = get_user id us in if eqb u.id id then some u else rest

abbrev valid_roles : List String
valid_roles = "admin" ∷ "operator" ∷ "viewer" ∷ []

-- Where no user has the name.
abbrev pub added :
    AuthCrypto
    → (id : ℕ) → (salt username password role : String) → Bool
    → Option User
    → List User
    → User × List User
added c id salt username password role is_active (some existing) users = (existing, users)
added c id salt username password role is_active none users =
    let user : User = record {
      id = id;
      username = username;
      password_hash = hash_password c salt password 260000;
      role = role;
      is_active = is_active;
    } in
    (user, users ++ user ∷ [])

-- The user and the rows behind the commit, with the id and the salt that are drawn; `none` stands
-- for the `ValueError` of an invalid role.
unfoldable pub create_user :
    AuthCrypto
    → (id : ℕ) → (salt username password role : String) → Bool
    → List User
    → Option (User × List User)
unfolding hash_password get_user_by_username
create_user c id salt username password role is_active users =
    if any (λ r. r == role) valid_roles
    then some (
        added c id salt username password role is_active (get_user_by_username username users)
          users)
    else none

abbrev pub admitted : User → Result AuthException Bool → Result AuthException (Option User)
admitted user (err e) = err e
admitted user (ok valid) = ok (if valid then some user else none)

abbrev pub authenticated : AuthCrypto → String → Option User → Result AuthException (Option User)
authenticated c password none = ok none
authenticated c password (some user) =
    if user.is_active
    then admitted user (verify_password c password user.password_hash)
    else ok none

unfoldable pub authenticate_user :
    AuthCrypto → (username password : String) → List User → Result AuthException (Option User)
unfolding verify_password
authenticate_user c username password users =
    authenticated c password (get_user_by_username username users)
