-- ===== src/Auth/Enrolled.antt =====
-- A user who was created can log in.
use Prim.Native.Char.{Char}
use Prim.Native.String.append
use sglang_ops_stack.Base.{
  ℕ, suc, String, ◌<>◌, Bool, true, false, List, [], ◌∷◌, ◌++◌, Option, none, some, ◌==◌, eq_iff,
  ◌≡◌, refl, sym, subst, ap, ◌∙◌, arith, Bool-cases, inl, inr, if◌then◌else◌,
}
use sglang_ops_stack.Base.Text.{strip}
use sglang_ops_stack.Base.Split.{split_on, split_at_most, lacks, split_once-append}
use sglang_ops_stack.Base.Show.{pos, show}
use sglang_ops_stack.Base.Exec.{ok}
use sglang_ops_stack.Auth.Crypto.{AuthCrypto, is_ascii}
use sglang_ops_stack.Auth.Token.{User}
use sglang_ops_stack.Auth.Issued.{compare_digest_self}
use sglang_ops_stack.Auth.Password.{
  int_of, dollar, hash_password, compare_digests, verify_digest, verify_parts, verify_password,
  get_user_by_username, create_user, added, admitted, authenticated, authenticate_user,
}

split_at_most-append :
    (n : ℕ) (sep : Char) (a b : String)
    → lacks sep a ≡ true
    → split_at_most (suc n) sep (a <> String.◌∷◌ sep b) ≡ a ∷ split_at_most n sep b
unfolding split_at_most
split_at_most-append n sep a b h =
    ap (split_on (λ t. split_at_most n sep t) (a <> String.◌∷◌ sep b)) (split_once-append sep a b h)

dollar-append : (s : String) → "$" <> s ≡ String.◌∷◌ dollar s
dollar-append s = rw (append.cons, append.nil) refl

split_at_most-four :
    (a b c d : String)
    → lacks dollar a ≡ true
    → lacks dollar b ≡ true
    → lacks dollar c ≡ true
    → split_at_most 3 dollar (a <> "$" <> b <> "$" <> c <> "$" <> d) ≡ a ∷ b ∷ c ∷ d ∷ []
unfolding split_at_most
split_at_most-four a b c d ha hb hc =
    rw
      (
        dollar-append d,
        dollar-append (c <> String.◌∷◌ dollar d),
        dollar-append (b <> String.◌∷◌ dollar (c <> String.◌∷◌ dollar d)),
      )
      (split_at_most-append 2 dollar a _ ha
        ∙ ap (λ ws. a ∷ ws)
            (split_at_most-append 1 dollar b _ hb
              ∙ ap (λ ws. b ∷ ws) (split_at_most-append 0 dollar c d hc)))

rounds : int_of (show 260000) ≡ some (pos 260000)
unfolding int_of show strip
rounds = refl

lacks-rounds : lacks dollar (show 260000) ≡ true
unfolding lacks show
lacks-rounds = refl

lacks-scheme : lacks dollar "pbkdf2_sha256" ≡ true
unfolding lacks
lacks-scheme = refl

module _ (c : AuthCrypto) (salt password : String) where
  abbrev digest : String
  digest = c.pbkdf2_hex (c.encode password) (c.encode salt) 260000

  verify_password-hash_password :
      lacks dollar salt ≡ true
      → is_ascii digest ≡ true
      → verify_password c password (hash_password c salt password 260000) ≡ ok true
  unfolding verify_password hash_password verify_digest verify_parts compare_digests
  verify_password-hash_password h a =
      ap (verify_parts c password)
        (split_at_most-four "pbkdf2_sha256" (show 260000) salt digest lacks-scheme lacks-rounds h)
      ∙ ap (verify_digest c password "pbkdf2_sha256" salt digest) rounds
      ∙ compare_digest_self digest a

-- Where no user before has the name, the added one is found by it.
get_user_by_username-append :
    (username : String) (users : List User) (user : User)
    → get_user_by_username username users ≡ none
    → user.username ≡ username
    → get_user_by_username username (users ++ user ∷ []) ≡ some user
unfolding get_user_by_username
get_user_by_username-append username [] user h e = rw ((eq_iff user.username username).1 e) refl
get_user_by_username-append username (u ∷ us) user h e =
    elim (Bool-cases (u.username == username)) [
      | inl b ↦ absurd (found (simp b at h))
      | inr b ↦ rw b (get_user_by_username-append username us user (simp b at h) e)
    ]
  where
    found : some u ≡ none → ⊥
    found q = ground arith

module _ (c : AuthCrypto) (id : ℕ) (salt username password role : String) (users : List User)
    (absent : get_user_by_username username users ≡ none) (plain_salt : lacks dollar salt ≡ true)
    (plain_digest : is_ascii (digest c salt password) ≡ true) where
  abbrev Created : Option (User × List User) → Type 0
  Created none = Unit
  Created (some (user, users')) = authenticate_user c username password users' ≡ ok (some user)

  abbrev new_user : User
  new_user = record {
    id = id;
    username = username;
    password_hash = hash_password c salt password 260000;
    role = role;
    is_active = true;
  }

  authenticate-new_user :
      authenticate_user c username password (users ++ new_user ∷ []) ≡ ok (some new_user)
  unfolding authenticate_user
  authenticate-new_user =
      ap (authenticated c password)
        (get_user_by_username-append username users new_user absent refl)
      ∙ ap (admitted new_user)
          (verify_password-hash_password c salt password plain_salt plain_digest)

  added-Created :
      (b : Bool)
      → Created (
          if b
          then some (
              added c id salt username password role true
                (get_user_by_username username users)
                users)
          else none)
  added-Created false = tt
  added-Created true =
      subst (λ found. Created (some (added c id salt username password role true found users)))
        (sym absent) authenticate-new_user

  -- A user who is created under a name that no user had, active, with a salt without "$" and a
  -- digest in ASCII, is authenticated with the password.
  pub authenticate_user-create_user :
      (user : User) (users' : List User)
      → create_user c id salt username password role true users ≡ some (user, users')
      → authenticate_user c username password users' ≡ ok (some user)
  unfolding create_user
  authenticate_user-create_user user users' h = subst Created h (added-Created _)
