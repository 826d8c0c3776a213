-- ===== src/Redeploy/Risk.antt =====
-- What a redeployment without a risk leaves as it was.
use sglang_ops_stack.Base.{
  String, Bool, true, false, List, [], ◌∷◌, Option, none, some, any, ◌≡◌, refl, sym, subst, ap, ◌∙◌,
  ◌⊎◌, inl, inr, Bool-cases, arith, eqb,
}
use sglang_ops_stack.Json.{
  Value, Entries, null, bool, text, array, object, no_entries, entry, get, has_key, count_fields,
  same, within, insert_key, insert_keys, all_keys,
}
use sglang_ops_stack.Db.{DockerConfig, Deployment}
use sglang_ops_stack.Deployment.Create.{
  DeploymentCreate, dump_docker, dump_volumes, optional_text, payload_from_deployment,
  preview_commands,
}
use sglang_ops_stack.Redeploy.Plan.{
  DiffItem, risk_for, diff_item, diff_inside, diff_value, build_config_diff, is_risky, PlanError,
  RedeployPlan, confirmed, plan_of, plan_secrets, plan_redeploy, validate_payload,
}
use sglang_ops_stack.Base.Exec.{ok, err}
use sglang_ops_stack.Masking.{Patterns}
use sglang_ops_stack.Redeploy.Riskless.{IsRiskless, true-ne-false, text_path, field-IsSafe}

-- What was so for the old configuration, where it is so for the new one.
abbrev pub Grants : (DockerConfig → Type 0) → DeploymentCreate → DeploymentCreate → Type 0
Grants P old new = P new.docker_config → P old.docker_config

abbrev pub IsPrivileged : DockerConfig → Type 0
IsPrivileged c = c.privileged ≡ true

abbrev pub OnHostNetwork : DockerConfig → Type 0
OnHostNetwork c = c.network ≡ some "host"

abbrev pub OnHostIpc : DockerConfig → Type 0
OnHostIpc c = c.ipc ≡ some "host"

-- The items of a flag that is set.
abbrev IsSafe : String → Value → Value → Type 0
IsSafe path old new = (same old new ≡ true) ⊎ IsRiskless (diff_value 2 path old new)

set_before :
    (a b : Bool) → b ≡ true → IsSafe "docker_config.privileged" (bool a) (bool b) → a ≡ true
unfolding same diff_value risk_for
set_before true b p h = refl
set_before false true p (inl h) = h
set_before false true p (inr h) = sym h
set_before false false p h = p

risky_item :
    (path : String) (old new : Value) (risk : String)
    → risk_for path new ≡ some risk
    → any is_risky (diff_item path old new ∷ []) ≡ true
unfolding diff_item
risky_item path old new risk e = rw e refl

-- A change that would be risky is none.
unchanged :
    (path : String) (old new : Value) (risk : String)
    → risk_for path new ≡ some risk
    → diff_inside (λ p o n. diff_value 1 p o n) path old new ≡ diff_item path old new ∷ []
    → IsSafe path old new
    → same old new ≡ true
unfolding diff_value
unchanged path old new risk e one (inl h) = h
unchanged path old new risk e one (inr h) = elim (Bool-cases (same old new)) [
  | inl s ↦ s
  | inr s ↦
      let items : IsRiskless (diff_item path old new ∷ []) = subst IsRiskless one (simp s at h) in
      absurd (true-ne-false (sym (risky_item path old new risk e) ∙ items))
]

host_before :
    (path : String) (risk : String) (a b : Option String)
    → b ≡ some "host"
    → risk_for path (text "host") ≡ some risk
    → ((v : Value) (t : String)
        → diff_inside (λ p o n. diff_value 1 p o n) path v (text t)
          ≡ diff_item path v (text t) ∷ [])
    → IsSafe path (optional_text a) (optional_text b)
    → a ≡ some "host"
host_before path risk a b p e one h = host a (
    unchanged path (optional_text a) (text "host") risk e (one (optional_text a) "host")
      (subst (λ c. IsSafe path (optional_text a) (optional_text c)) p h))
  where
    host : (a : Option String) → same (optional_text a) (text "host") ≡ true → a ≡ some "host"
    host none s = unfold same in ground arith
    host (some t) s = ap some (text_path t "host" (unfold same in s))

one_item :
    (path : String) (v : Value) (t : String)
    → diff_inside (λ p o n. diff_value 1 p o n) path v (text t) ≡ diff_item path v (text t) ∷ []
unfolding diff_inside
one_item path null t = refl
one_item path (bool b) t = refl
one_item path (sglang_ops_stack.Json.int n) t = refl
one_item path (sglang_ops_stack.Json.float s) t = refl
one_item path (text s) t = refl
one_item path (array xs) t = refl
one_item path (object fs) t = refl

module _ (old new : DeploymentCreate) (clean : IsRiskless (build_config_diff old new)) where
  keeps_IsPrivileged : Grants IsPrivileged old new
  unfolding dump_docker get has_key
  keeps_IsPrivileged p = set_before _ _ p (field-IsSafe old new clean "privileged" refl)

  keeps_network : Grants OnHostNetwork old new
  unfolding dump_docker get has_key risk_for
  keeps_network p =
      host_before "docker_config.network" _ old.docker_config.network new.docker_config.network p
        refl (one_item "docker_config.network") (field-IsSafe old new clean "network" refl)

  keeps_ipc : Grants OnHostIpc old new
  unfolding dump_docker get has_key risk_for
  keeps_ipc p =
      host_before "docker_config.ipc" _ old.docker_config.ipc new.docker_config.ipc p refl
        (one_item "docker_config.ipc") (field-IsSafe old new clean "ipc" refl)

  keeps_volumes :
      same
        (array (dump_volumes old.docker_config.volumes))
        (array (dump_volumes new.docker_config.volumes))
      ≡ true
  unfolding dump_docker get has_key risk_for diff_inside
  keeps_volumes =
      unchanged "docker_config.volumes" _ _ _ refl refl (field-IsSafe old new clean "volumes" refl)

  grants :
      Grants IsPrivileged old new
      × Grants OnHostNetwork old new
      × Grants OnHostIpc old new
      × (same
            (array (dump_volumes old.docker_config.volumes))
            (array (dump_volumes new.docker_config.volumes))
          ≡ true)
  grants = (keeps_IsPrivileged, keeps_network, keeps_ipc, keeps_volumes)

unconfirmed-IsRiskless :
    (p : Patterns) (secrets : List String) (diff : List DiffItem)
    (preview : Option (String × List String)) (plan : RedeployPlan)
    → confirmed false (plan_of p secrets diff preview) ≡ ok plan
    → IsRiskless diff
unconfirmed-IsRiskless p secrets diff none plan h = ground arith
unconfirmed-IsRiskless p secrets diff (some (a, b)) plan h = ground arith

payload-IsRiskless :
    (p : Patterns) (d : Deployment) (payload : DeploymentCreate) (plan : RedeployPlan)
    → validate_payload p d payload false ≡ ok plan
    → IsRiskless (build_config_diff (payload_from_deployment d) payload)
unfolding validate_payload plan_redeploy
payload-IsRiskless p d payload plan h = elim (Bool-cases (eqb d.host_id payload.host_id)) [
  | inl e ↦
      unconfirmed-IsRiskless p (plan_secrets d payload) _ (preview_commands p payload) plan
        (simp e at h)
  | inr e ↦ absurd (err-ne-ok _ _ (simp e at h))
]
  where
    err-ne-ok : (e : PlanError) (a : RedeployPlan) → err e ≡ ok a → ⊥
    err-ne-ok e a q = ground arith

-- A redeployment that is accepted without a confirmation grants the container nothing that it did
-- not have: neither the privileged mode, nor the network or the IPC namespace of the host, nor
-- another volume.
pub validate_payload-Grants :
    (p : Patterns) (d : Deployment) (payload : DeploymentCreate) (plan : RedeployPlan)
    → validate_payload p d payload false ≡ ok plan
    → Grants IsPrivileged (payload_from_deployment d) payload
      × Grants OnHostNetwork (payload_from_deployment d) payload
      × Grants OnHostIpc (payload_from_deployment d) payload
      × (same
            (array (dump_volumes d.docker_config.volumes))
            (array (dump_volumes payload.docker_config.volumes))
          ≡ true)
unfolding payload_from_deployment
validate_payload-Grants p d payload plan h =
    grants (payload_from_deployment d) payload (payload-IsRiskless p d payload plan h)
