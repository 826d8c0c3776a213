-- ===== src/Auth/Issued.antt =====
-- What is decode_access_token-signed of a token that the service issued.
use Prim.Native.String.append
use Prim.Native.String.{count}
use text.Mathlib.TextLemmas.{append_assoc}
use sglang_ops_stack.Base.{
  ℕ, ◌+◌, ◌*◌, ◌≤◌, String, ◌<>◌, true, false, List, [], ◌∷◌, some, ◌≡◌, refl, sym, ◌∙◌, ap, subst,
  arith, ltb, eq_iff, if◌then◌else◌,
}
use sglang_ops_stack.Base.Split.{
  split_all, lacks, repeat, split_all-append, split_all-lacks, rstrip_char-append,
}
use sglang_ops_stack.Base.Exec.{ok}
use sglang_ops_stack.Json.{Entries, object, get}
use sglang_ops_stack.Auth.Crypto.{
  AuthCrypto, AuthSettings, is_ascii, compare_digest, missing, equals, b64url_encode, b64url_decode,
  sign,
}
use sglang_ops_stack.Auth.Token.{
  User, ttl_minutes, token_payload, is_current, checked_payload, signing_input, create_access_token,
  load_bytes, load_part, verified, decode_parts, decode_access_token, dot,
}

-- What the libraries document: base64 fills its text up with "=" to a multiple of four characters,
-- which are otherwise letters, digits, "-" and "_" (in `body`). On the payload of a token it is
-- undone by its inverse, and what is loaded of the dump is the payload.
pub record Sound (c : AuthCrypto) (payload : Entries) : Type 0 where
  pub body : List ℕ → String
  pub padding :
      (bytes : List ℕ)
      → c.urlsafe_b64encode bytes ≡ body bytes <> repeat equals (missing (count (body bytes)))
  pub lacks_equals : (bytes : List ℕ) → lacks equals (body bytes) ≡ true
  pub lacks_dot : (bytes : List ℕ) → lacks dot (body bytes) ≡ true
  pub ascii : (bytes : List ℕ) → is_ascii (body bytes) ≡ true
  pub b64decode-b64encode :
      c.urlsafe_b64decode (c.urlsafe_b64encode (c.encode (c.dumps payload)))
      ≡ some (c.encode (c.dumps payload))
  pub loads-dumps : c.loads (c.encode (c.dumps payload)) ≡ some (object payload)

pub compare_digest_self : (s : String) → is_ascii s ≡ true → compare_digest s s ≡ ok true
unfolding compare_digest
compare_digest_self s h = rw (h, (eq_iff s s).1 refl) refl

dotted : (s : String) → "." <> s ≡ String.◌∷◌ dot s
dotted s = rw (append.cons, append.nil) refl

not_expired : (exp later : ℕ) → later ≤ exp → (if ltb exp later then false else true) ≡ true
not_expired exp later h = ground arith

joined :
    (a b s : String) → (a <> "." <> b) <> "." <> s ≡ a <> String.◌∷◌ dot (b <> String.◌∷◌ dot s)
joined a b s = rw (dotted b, dotted s, append_assoc, append.cons) refl

split_all-three :
    (a b s : String)
    → lacks dot a ≡ true
    → lacks dot b ≡ true
    → lacks dot s ≡ true
    → split_all dot ((a <> "." <> b) <> "." <> s) ≡ a ∷ b ∷ s ∷ []
split_all-three a b s ha hb hs =
    ap (split_all dot) (joined a b s)
    ∙ split_all-append dot a _ ha
    ∙ ap (λ ws. a ∷ ws) (split_all-append dot b s hb ∙ ap (λ ws. b ∷ ws) (split_all-lacks dot s hs))

module _ (c : AuthCrypto) (payload : Entries) (sound : Sound c payload) where
  b64url_encode-body : (bytes : List ℕ) → b64url_encode c bytes ≡ sound.body bytes
  unfolding b64url_encode
  b64url_encode-body bytes = rw (sound.padding bytes) (
      rstrip_char-append equals (missing (count (sound.body bytes))) (sound.body bytes)
        (sound.lacks_equals bytes))

  b64url_decode-encode :
      (bytes : List ℕ)
      → c.urlsafe_b64decode (c.urlsafe_b64encode bytes) ≡ some bytes
      → b64url_decode c (b64url_encode c bytes) ≡ some bytes
  unfolding b64url_decode
  b64url_decode-encode bytes inverse =
      subst (λ s. c.urlsafe_b64decode (s <> repeat equals (missing (count s))) ≡ some bytes)
        (sym (b64url_encode-body bytes))
        (subst (λ s. c.urlsafe_b64decode s ≡ some bytes) (sound.padding bytes) inverse)

  lacks-b64url_encode : (bytes : List ℕ) → lacks dot (b64url_encode c bytes) ≡ true
  lacks-b64url_encode bytes = rw (b64url_encode-body bytes) (sound.lacks_dot bytes)

  lacks-sign : (message key : String) → lacks dot (sign c message key) ≡ true
  unfolding sign
  lacks-sign message key = lacks-b64url_encode _

  is_ascii-sign : (message key : String) → is_ascii (sign c message key) ≡ true
  unfolding sign
  is_ascii-sign message key = rw (b64url_encode-body _) (sound.ascii _)

  load_part-decoded :
      (part : String) (bytes : List ℕ)
      → b64url_decode c part ≡ some bytes
      → load_part c part ≡ c.loads bytes
  unfolding load_part
  load_part-decoded part bytes h = ap (load_bytes c) h

  decode_access_token-signed :
      (settings : AuthSettings) (later : ℕ) (header part : String)
      → lacks dot header ≡ true
      → lacks dot part ≡ true
      → decode_access_token c settings later (
          (header <> "." <> part) <> "." <> sign c (header <> "." <> part) settings.auth_secret_key)
        ≡ checked_payload later (load_part c part)
  unfolding decode_access_token decode_parts verified
  decode_access_token-signed settings later header part h p =
      ap (decode_parts c settings later)
        (split_all-three header part _ h p (lacks-sign _ settings.auth_secret_key))
      ∙ ap (verified c settings later part)
          (compare_digest_self _ (is_ascii-sign _ settings.auth_secret_key))

module _ (c : AuthCrypto) (settings : AuthSettings) (now : ℕ) (user : User)
    (sound : Sound c (token_payload settings now user)) where
  is_current-payload :
      (later : ℕ)
      → later ≤ now + 60 * ttl_minutes settings
      → checked_payload later (some (object (token_payload settings now user)))
        ≡ ok (some (token_payload settings now user))
  unfolding checked_payload token_payload is_current get
  is_current-payload later h = rw (not_expired (now + 60 * ttl_minutes settings) later h) refl

  -- For libraries that behave as documented, a token that the service issued gives back its
  -- payload, the number and the role of the user, until it expires.
  pub decode_access_token-create_access_token :
      (later : ℕ)
      → later ≤ now + 60 * ttl_minutes settings
      → decode_access_token c settings later (create_access_token c settings now user)
        ≡ ok (some (token_payload settings now user))
  unfolding create_access_token signing_input
  decode_access_token-create_access_token later h =
      decode_access_token-signed c _ sound settings later _ _ (lacks-b64url_encode c _ sound _)
        (lacks-b64url_encode c _ sound _)
      ∙ ap (checked_payload later) (
          load_part-decoded c _ sound _ _
            (b64url_decode-encode c _ sound _ sound.b64decode-b64encode)
          ∙ sound.loads-dumps)
      ∙ is_current-payload later h
