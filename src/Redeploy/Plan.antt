-- ===== src/Redeploy/Plan.antt =====
-- services/redeploy_service.py: what changes with a new payload, how risky that is, and whether a
-- redeployment is admitted.
use sglang_ops_stack.Base.{
  ℕ, zero, suc, String, ◌<>◌, Bool, true, false, not, ◌&&◌, ◌||◌, List, [], ◌∷◌, ◌++◌, Option, none,
  some, any, map, eqb, ◌==◌, if◌then◌else◌,
}
use sglang_ops_stack.Base.Text.{is_empty, is_prefix}
use sglang_ops_stack.Base.Exec.{Result, ok, err}
use sglang_ops_stack.Masking.{Patterns, mask_secret}
use sglang_ops_stack.Json.{Value, Entries, null, bool, text, object, get, same, all_keys}
use sglang_ops_stack.Json.Masked.{mask_value}
use sglang_ops_stack.Db.{Deployment}
use sglang_ops_stack.Db.Results.{DeploymentStatus}
use sglang_ops_stack.Deployment.Create.{
  DeploymentCreate, payload_from_deployment, payload_secrets, preview_commands, dump,
}
use sglang_ops_stack.Operation.Guards.{is_blocking, operation_secrets}

pub record DiffItem : Type 0 where
  pub path : String
  pub old_value : Value
  pub new_value : Value
  pub risk : Option String

pub record RedeployPlan : Type 0 where
  pub command_preview : String
  pub risk_warnings : List String
  pub diff : List DiffItem
  pub high_risk : Bool
  pub requires_confirmation : Bool

-- One constructor for each `raise`, and the `ValueError` of the preview, which is no
-- `RedeployError`.
pub data PlanError : Type 0 where
  busy not_allowed : DeploymentStatus → PlanError
  other_host unconfirmed : PlanError
  no_preview : PlanError

abbrev is_true : Value → Bool
is_true (bool b) = b
is_true _ = false

abbrev equals_text : String → Value → Bool
equals_text word (text t) = t == word
equals_text word _ = false

-- `new in (None, "", "root", "0")`
abbrev names_root : Value → Bool
names_root null = true
names_root (text t) = is_empty t || (t == "root") || (t == "0")
names_root _ = false

abbrev risk_if : Bool → String → Option String → Option String
risk_if b message otherwise = if b then some message else otherwise

-- `_risk_for`; the old value plays no part.
unfoldable pub risk_for : String → Value → Option String
risk_for path new =
    risk_if (path == "docker_config.volumes")
      "High risk: Docker volume changes can expose or replace host paths."
      (risk_if ((path == "docker_config.privileged") && is_true new)
        "High risk: --privileged grants broad host capabilities."
        (risk_if ((path == "docker_config.network") && equals_text "host" new)
          "High risk: --network host exposes host networking."
          (risk_if ((path == "docker_config.user") && names_root new)
            "High risk: container runs as root user."
            (risk_if ((path == "docker_config.ipc") && equals_text "host" new)
              "High risk: --ipc host shares host IPC namespace."
              (risk_if (is_prefix "docker_config.env" path)
                "Sensitive: environment variable changed." none)))))

unfoldable pub diff_item : String → Value → Value → DiffItem
unfolding risk_for
diff_item path old new = record {
  path = path;
  old_value = old;
  new_value = new;
  risk = risk_for path new;
}

-- The items of the fields of two dictionaries; `child` is the recursive call.
unfoldable pub diff_keys :
    (String → Value → Value → List DiffItem)
    → String
    → Entries
    → Entries
    → List String
    → List DiffItem
diff_keys child path old new [] = []
diff_keys child path old new (key ∷ keys) =
    child (path <> "." <> key) (get key old) (get key new) ++ diff_keys child path old new keys

-- Two dictionaries are compared field by field, other values make one item.
unfoldable pub diff_inside :
    (String → Value → Value → List DiffItem) → String → Value → Value → List DiffItem
unfolding diff_item diff_keys
diff_inside child path (object old) (object new) = diff_keys child path old new (all_keys old new)
diff_inside child path old new = diff_item path old new ∷ []

-- `_append_diff`: the items that it appends. The fuel is the depth of the dictionaries.
unfoldable pub diff_value : ℕ → String → Value → Value → List DiffItem
unfolding diff_inside
diff_value zero path old new = if same old new then [] else diff_item path old new ∷ []
diff_value (suc depth) path old new =
    if same old new then [] else diff_inside (λ p o n. diff_value depth p o n) path old new

-- The loop over the fields of the payloads, whose paths have no prefix.
unfoldable pub diff_top : Entries → Entries → List String → List DiffItem
unfolding diff_value
diff_top old new [] = []
diff_top old new (key ∷ keys) =
    diff_value 3 key (get key old) (get key new) ++ diff_top old new keys

unfoldable pub build_config_diff : DeploymentCreate → DeploymentCreate → List DiffItem
unfolding diff_top
build_config_diff old new = diff_top (dump old) (dump new) (all_keys (dump old) (dump new))

abbrev pub is_risky : DiffItem → Bool
is_risky item = elim item.risk [ none ↦ false | some risk ↦ true ]

abbrev mask_item : Patterns → List String → DiffItem → DiffItem
mask_item p secrets item = record item {
  old_value = mask_value p secrets item.old_value;
  new_value = mask_value p secrets item.new_value;
}

abbrev pub plan_secrets : Deployment → DeploymentCreate → List String
plan_secrets d payload = operation_secrets d ++ payload_secrets payload

abbrev pub plan_of :
    Patterns → List String → List DiffItem → Option (String × List String) → Option RedeployPlan
plan_of p secrets diff none = none
plan_of p secrets diff (some (preview, warnings)) = some (record {
  command_preview = mask_secret p preview secrets;
  risk_warnings = map (λ warning. mask_secret p warning secrets) warnings;
  diff = map (mask_item p secrets) diff;
  high_risk = any is_risky diff;
  requires_confirmation = any is_risky diff;
})

-- `none` stands for the `ValueError` of the preview.
unfoldable pub plan_redeploy : Patterns → Deployment → DeploymentCreate → Option RedeployPlan
unfolding build_config_diff
plan_redeploy p d payload =
    plan_of p (plan_secrets d payload) (build_config_diff (payload_from_deployment d) payload)
      (preview_commands p payload)

-- `_REDEPLOY_ALLOWED`
unfoldable pub is_redeployable : DeploymentStatus → Bool
is_redeployable DeploymentStatus.running = true
is_redeployable DeploymentStatus.degraded = true
is_redeployable DeploymentStatus.failed = true
is_redeployable DeploymentStatus.stopped = true
is_redeployable _ = false

-- The check of the status.
unfoldable pub status_error : DeploymentStatus → Option PlanError
unfolding is_redeployable
status_error status =
    if is_blocking status
    then some (busy status)
    else if is_redeployable status
    then none
    else some (not_allowed status)

abbrev pub confirmed : Bool → Option RedeployPlan → Result PlanError RedeployPlan
confirmed confirm none = err no_preview
confirmed confirm (some plan) = if plan.high_risk && not confirm then err unconfirmed else ok plan

-- `validate_redeploy` behind the check of the status
unfoldable pub validate_payload :
    Patterns → Deployment → DeploymentCreate → Bool → Result PlanError RedeployPlan
unfolding plan_redeploy
validate_payload p d payload confirm =
    if eqb d.host_id payload.host_id
    then confirmed confirm (plan_redeploy p d payload)
    else err other_host

unfoldable pub validate_redeploy :
    Patterns → Bool → Deployment → DeploymentCreate → Bool → Result PlanError RedeployPlan
unfolding validate_payload status_error
validate_redeploy p check_status d payload confirm =
    elim (if check_status then status_error d.status else none) [
      | some e ↦ err e
      | none ↦ validate_payload p d payload confirm
    ]
