-- ===== src/Redeploy/Riskless.antt =====
-- What a difference without a risky item leaves equal.
use sglang_ops_stack.Base.{
  ℕ, suc, String, ◌<>◌, Bool, true, false, ◌&&◌, List, [], ◌∷◌, ◌++◌, any, ◌≡◌, refl, sym, subst,
  ◌⊎◌, inl, inr, Bool-cases, arith, ◌==◌, eq_iff, eqb,
}
use sglang_ops_stack.Base.Text.{precedes}
use sglang_ops_stack.Json.{
  Value, Entries, object, no_entries, entry, get, has_key, count_fields, same, within, insert_key,
  insert_keys, all_keys,
}
use sglang_ops_stack.Deployment.Create.{DeploymentCreate, dump, dump_docker}
use sglang_ops_stack.Redeploy.Plan.{
  DiffItem, diff_keys, diff_inside, diff_value, diff_top, build_config_diff, is_risky,
}

abbrev pub IsRiskless : List DiffItem → Type 0
IsRiskless items = any is_risky items ≡ false

abbrev pub Holds : String → List String → Type 0
Holds key keys = any (λ k. k == key) keys ≡ true

IsRiskless-append : (xs ys : List DiffItem) → IsRiskless (xs ++ ys) → IsRiskless xs × IsRiskless ys
IsRiskless-append [] ys h = (refl, h)
IsRiskless-append (x ∷ xs) ys h = ground (arith, IsRiskless-append xs ys)

pub true-ne-false : true ≡ false → ⊥
true-ne-false h = ground arith

text_refl : (s : String) → (s == s) ≡ true
text_refl s = (eq_iff s s).1 refl

pub text_path : (s t : String) → (s == t) ≡ true → s ≡ t
text_path s t = (eq_iff s t).0

Holds-insert_self : (key : String) (keys : List String) → Holds key (insert_key key keys)
unfolding insert_key
Holds-insert_self key [] = rw (text_refl key) refl
Holds-insert_self key (k ∷ keys) = elim (Bool-cases (key == k)) [
  | inl e ↦ rw e (rw (subst (λ s. (s == key) ≡ true) (text_path key k e) (text_refl key)) refl)
  | inr e ↦ rw e (elim (Bool-cases (precedes key k)) [
    | inl p ↦ rw (p, text_refl key) refl
    | inr p ↦ rw p (ground (arith, Holds-insert_self key keys))
  ])
]

Holds-insert :
    (key k : String) (keys : List String) → Holds key keys → Holds key (insert_key k keys)
unfolding insert_key
Holds-insert key k [] h = ground arith
Holds-insert key k (k' ∷ keys) h = ground (arith, Holds-insert key k keys)

Holds-insert_keys_old :
    (key : String) (fs : Entries) (keys : List String)
    → has_key key fs ≡ true
    → Holds key (insert_keys fs keys)
unfolding has_key insert_keys
Holds-insert_keys_old key no_entries keys h = ground arith
Holds-insert_keys_old key (entry k v fs) keys h = elim (Bool-cases (k == key)) [
  | inl e ↦
      subst (λ s. Holds key (insert_key s (insert_keys fs keys))) (sym (text_path k key e))
        (Holds-insert_self key (insert_keys fs keys))
  | inr e ↦
      Holds-insert key k (insert_keys fs keys) (Holds-insert_keys_old key fs keys (ground arith))
]

pub Holds-all_keys :
    (key : String) (old new : Entries) → has_key key old ≡ true → Holds key (all_keys old new)
unfolding all_keys
Holds-all_keys key old new h = Holds-insert_keys_old key old _ h

and3 : (a b c : Bool) → (a && b && c) ≡ true → (b ≡ true) × (c ≡ true)
and3 a b c h = ground arith

and_right : (a b : Bool) → (a && b) ≡ true → b ≡ true
and_right a b h = ground arith

-- Equal dictionaries have the same value at each key of the first.
same-get :
    (key : String) (xs ys : Entries)
    → has_key key xs ≡ true
    → within xs ys ≡ true
    → same (get key xs) (get key ys) ≡ true
unfolding has_key get same
same-get key no_entries ys h w = ground arith
same-get key (entry k v fs) ys h w = elim (Bool-cases (k == key)) [
  | inl e ↦ rw e (
      subst (λ s. same v (get s ys) ≡ true) (text_path k key e)
        (and3 (has_key k ys) (same v (get k ys)) (within fs ys) w).0)
  | inr e ↦ rw e (
      same-get key fs ys (simp e at h) (and3 (has_key k ys) (same v (get k ys)) (within fs ys) w).1)
]

module _ (child : String → Value → Value → List DiffItem) where
  IsRiskless-keys :
      (key path : String) (old new : Entries) (keys : List String)
      → Holds key keys
      → IsRiskless (diff_keys child path old new keys)
      → IsRiskless (child (path <> "." <> key) (get key old) (get key new))
  unfolding diff_keys
  IsRiskless-keys key path old new [] h clean = ground arith
  IsRiskless-keys key path old new (k ∷ keys) h clean =
      let parts = IsRiskless-append (child (path <> "." <> k) (get k old) (get k new)) _ clean in
      elim (Bool-cases (k == key)) [
        | inl e ↦
            subst (λ s. IsRiskless (child (path <> "." <> s) (get s old) (get s new)))
              (text_path k key e) parts.0
        | inr e ↦ IsRiskless-keys key path old new keys (ground arith) parts.1
      ]

within_of_same : (old new : Entries) → same (object old) (object new) ≡ true → within old new ≡ true
unfolding same
within_of_same old new h = and_right (eqb (count_fields old) (count_fields new)) (within old new) h

-- Where the items of two values carry no risk, the values of a key that the old one has are equal,
-- or their own items carry none.
pub IsRiskless-field :
    (depth : ℕ) (path key : String) (old new : Entries)
    → has_key key old ≡ true
    → IsRiskless (diff_value (suc depth) path (object old) (object new))
    → (same (get key old) (get key new) ≡ true)
      ⊎ IsRiskless (diff_value depth (path <> "." <> key) (get key old) (get key new))
unfolding diff_value diff_inside
IsRiskless-field depth path key old new h clean =
    elim (Bool-cases (same (object old) (object new))) [
      | inl e ↦ inl (same-get key old new h (within_of_same old new e))
      | inr e ↦ inr (
          IsRiskless-keys (λ p o n. diff_value depth p o n) key path old new (all_keys old new)
            (Holds-all_keys key old new h) (simp e at clean))
    ]

pub IsRiskless-top :
    (key : String) (old new : Entries) (keys : List String)
    → Holds key keys
    → IsRiskless (diff_top old new keys)
    → IsRiskless (diff_value 3 key (get key old) (get key new))
unfolding diff_top
IsRiskless-top key old new [] h clean = ground arith
IsRiskless-top key old new (k ∷ keys) h clean =
    let parts = IsRiskless-append (diff_value 3 k (get k old) (get k new)) _ clean in
    elim (Bool-cases (k == key)) [
      | inl e ↦
          subst (λ s. IsRiskless (diff_value 3 s (get s old) (get s new))) (text_path k key e)
            parts.0
      | inr e ↦ IsRiskless-top key old new keys (ground arith) parts.1
    ]

module _ (old new : DeploymentCreate) (clean : IsRiskless (build_config_diff old new)) where
  pub field-IsSafe :
      (key : String)
      → has_key key (dump_docker old.docker_config) ≡ true
      → (same (get key (dump_docker old.docker_config)) (get key (dump_docker new.docker_config))
          ≡ true)
        ⊎ IsRiskless (
            diff_value 2
              ("docker_config" <> "." <> key)
              (get key (dump_docker old.docker_config))
              (get key (dump_docker new.docker_config)))
  unfolding dump has_key get build_config_diff
  field-IsSafe key h =
      IsRiskless-field 2 "docker_config" key (dump_docker old.docker_config)
        (dump_docker new.docker_config) h
        (IsRiskless-top "docker_config" (dump old) (dump new) (all_keys (dump old) (dump new))
          (Holds-all_keys "docker_config" (dump old) (dump new) refl) clean)
