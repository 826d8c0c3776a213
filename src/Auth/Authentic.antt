-- ===== src/Auth/Authentic.antt =====
-- Which access tokens are accepted.
use sglang_ops_stack.Base.{
  ℕ, String, ◌<>◌, Bool, true, false, ◌&&◌, List, [], ◌∷◌, Option, none, some, ◌≡◌, refl, sym, ap,
  subst, arith, ◌==◌, eq_iff, if◌then◌else◌, Bool-cases, inl, inr,
}
use sglang_ops_stack.Base.Split.{split_all}
use sglang_ops_stack.Base.Exec.{Result, ok, err}
use sglang_ops_stack.Json.{
  Value, Entries, text as plain_text, int, float, bool, null, array, object, get,
}
use sglang_ops_stack.Auth.Crypto.{
  AuthCrypto, AuthSettings, AuthException, is_ascii, compare_digest, sign,
}
use sglang_ops_stack.Auth.Token.{
  is_current, checked_payload, load_part, verified, decode_parts, decode_access_token, dot,
}

compare_digest-path : (a b : String) → compare_digest a b ≡ ok true → a ≡ b
unfolding compare_digest
compare_digest-path a b h = elim (Bool-cases (is_ascii a && is_ascii b)) [
  | inl e ↦ (eq_iff a b).0 (same (a == b) (simp e at h))
  | inr e ↦ absurd (differ (simp e at h))
]
  where
    equal : Bool → Result AuthException Bool
    equal b = ok b

    same : (b : Bool) → equal b ≡ ok true → b ≡ true
    same b q = ground arith

    differ : {e : AuthException} → err e ≡ ok true → ⊥
    differ q = ground arith

abbrev returned : Option Entries → Result AuthException (Option Entries)
returned r = ok r

kept_payload :
    (b : Bool) (fs payload : Entries)
    → returned (if b then some fs else none) ≡ ok (some payload)
    → (b ≡ true) × (fs ≡ payload)
kept_payload true fs payload h = (refl, ground arith)
kept_payload false fs payload h = ground arith

checked_payload-object :
    (now : ℕ) (value : Option Value) (payload : Entries)
    → checked_payload now value ≡ ok (some payload)
    → (value ≡ some (object payload)) × (is_current now (get "exp" payload) ≡ true)
unfolding checked_payload
checked_payload-object now none payload h = ground arith
checked_payload-object now (some (object fs)) payload h =
    let kept = kept_payload (is_current now (get "exp" fs)) fs payload h in
    (
      ap (λ p. some (object p)) kept.1,
      subst (λ p. is_current now (get "exp" p) ≡ true) kept.1 kept.0,
    )
checked_payload-object now (some null) payload h = ground arith
checked_payload-object now (some (plain_text t)) payload h = ground arith
checked_payload-object now (some (int n)) payload h = ground arith
checked_payload-object now (some (float t)) payload h = ground arith
checked_payload-object now (some (bool b)) payload h = ground arith
checked_payload-object now (some (array xs)) payload h = ground arith

module _ (c : AuthCrypto) (settings : AuthSettings) (now : ℕ) where
  verified-object :
      (part : String) (compared : Result AuthException Bool) (payload : Entries)
      → verified c settings now part compared ≡ ok (some payload)
      → (compared ≡ ok true)
        × (load_part c part ≡ some (object payload))
        × (is_current now (get "exp" payload) ≡ true)
  unfolding verified
  verified-object part (err e) payload h = ground arith
  verified-object part (ok false) payload h = ground arith
  verified-object part (ok true) payload h =
      let found = checked_payload-object now (load_part c part) payload h in
      (refl, found.0, found.1)

  -- A token of three parts, the last the signature of the others under the key of the settings, the
  -- middle one a dictionary that has not expired.
  abbrev pub IsAuthentic : List String → Entries → Type 0
  IsAuthentic parts payload =
      (header : String) × (part : String) × (parts
        ≡ header ∷ part ∷ sign c (header <> "." <> part) settings.auth_secret_key ∷ [])
      × (load_part c part ≡ some (object payload))
      × (is_current now (get "exp" payload) ≡ true)

  decode_parts-IsAuthentic :
      (parts : List String) (payload : Entries)
      → decode_parts c settings now parts ≡ ok (some payload)
      → IsAuthentic parts payload
  unfolding decode_parts
  decode_parts-IsAuthentic (header ∷ (part ∷ (signature ∷ []))) payload h =
      let found =
        verified-object part
          (compare_digest (sign c (header <> "." <> part) settings.auth_secret_key) signature)
          payload h in
      let same = compare_digest-path _ signature found.0 in
      (header, part, ap (λ s. header ∷ part ∷ s ∷ []) (sym same), found.1, found.2)
  decode_parts-IsAuthentic [] payload h = ground arith
  decode_parts-IsAuthentic (a ∷ []) payload h = ground arith
  decode_parts-IsAuthentic (a ∷ (b ∷ [])) payload h = ground arith
  decode_parts-IsAuthentic (a ∷ (b ∷ (s ∷ (d ∷ rest)))) payload h = ground arith

  -- Every token that is accepted has three parts: the last is the signature of the others under the
  -- key of the settings, and the middle one is a dictionary that has not expired.
  pub decode_access_token-IsAuthentic :
      (token : String) (payload : Entries)
      → decode_access_token c settings now token ≡ ok (some payload)
      → IsAuthentic (split_all dot token) payload
  unfolding decode_access_token
  decode_access_token-IsAuthentic token payload h = decode_parts-IsAuthentic _ payload h
