-- ===== src/Deployment/Masked.antt =====
-- How a deployment job masks what it writes down.
use sglang_ops_stack.Base.{String, Bool, List, ◌≡◌, refl, sym, ap, subst, ◌∙◌, All, All-append}
use sglang_ops_stack.Base.Exec.Keeps.{Keeps-modify}
use sglang_ops_stack.Masking.{mask_secret}
use sglang_ops_stack.Db.{Host, Deployment, DockerConfig, JobLog}
use sglang_ops_stack.Jobs.{add_log}
use sglang_ops_stack.Deployment.Payload.{deployment_secrets, truncate}
use sglang_ops_stack.Deployment.World.{World, JobState}
use sglang_ops_stack.Deployment.Run.{add_job_log, run}
use sglang_ops_stack.Deployment.Safety.{Lasting, run-Keeps}

-- The row is `mask_secret` of some text with these secrets.
abbrev pub IsHidden : World → List String → JobLog → Type 0
IsHidden w secrets log = (text : String) × (log.message ≡ mask_secret w.patterns text secrets)

abbrev Hidden : World → String → DockerConfig → List String → JobState → Type 0
Hidden w path config secrets s =
    (s.target.model_path ≡ path)
    × (s.target.docker_config ≡ config)
    × (deployment_secrets s.target ≡ secrets)
    × All (IsHidden w secrets) s.logs

-- The secrets depend on the path and the configuration alone.
secrets_same :
    (d d' : Deployment)
    → d.model_path ≡ d'.model_path
    → d.docker_config ≡ d'.docker_config
    → deployment_secrets d ≡ deployment_secrets d'
unfolding deployment_secrets
secrets_same d d' path config = rw (path, config)

Hidden-Lasting :
    (w : World) (path : String) (config : DockerConfig) (secrets : List String)
    → Lasting w (Hidden w path config secrets) (λ _. Unit)
unfolding add_job_log add_log
Hidden-Lasting w path config secrets = record {
  elsewhere = λ s s' logs same_path same_config sent h. (
    sym same_path ∙ h.0,
    sym same_config ∙ h.1,
    sym (secrets_same s.target s'.target same_path same_config) ∙ h.2,
    subst (All (IsHidden w secrets)) logs h.3,
  );
  logging = λ level message. Keeps-modify _ (λ s h. (
    h.0,
    h.1,
    h.2,
    All-append (IsHidden w secrets) s.logs _ h.3
        ((truncate message 1200, ap (mask_secret w.patterns (truncate message 1200)) h.2), tt),
  ));
  sending = λ spec allowed s h. h;
}

-- Every row that a deployment job adds to its log went through `mask_secret` with all the secrets of
-- the deployment: from rows that are so, all rows are so at the end, on every path.
pub run-logs-IsHidden :
    (w : World) (host : Host) (password : String) (confirm : Bool) (s : JobState)
    → All (IsHidden w (deployment_secrets s.target)) s.logs
    → All (IsHidden w (deployment_secrets s.target)) (run w host password confirm s).1.logs
run-logs-IsHidden w host password confirm s clean =
    let config = s.target.docker_config in
    let secrets = deployment_secrets s.target in
    ((run-Keeps (Hidden-Lasting w s.target.model_path config secrets) host password confirm config
        (λ _ h. h.1) (λ d _. search)).at
      s (refl, refl, refl, clean)).3
