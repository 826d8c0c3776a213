-- ===== src/Deployment/Removal.antt =====
-- When a deployment job removes a container.
use sglang_ops_stack.Base.{
  String, Bool, true, false, ◌&&◌, List, [], ◌∷◌, ◌≡◌, refl, sym, ap, subst, ◌∙◌, All, All-append,
  arith, ◌==◌,
}
use sglang_ops_stack.Base.Exec.Keeps.{Keeps-modify}
use sglang_ops_stack.Remote.Spec.{CommandSpec}
use sglang_ops_stack.Db.{Host, Deployment, DockerConfig}
use sglang_ops_stack.Jobs.{add_log}
use sglang_ops_stack.Deployment.Docker
use sglang_ops_stack.Deployment.Payload.{port_check_spec}
use sglang_ops_stack.Deployment.World.{World, JobState}
use sglang_ops_stack.Deployment.Run.{add_job_log, run}
use sglang_ops_stack.Deployment.Outcome.{AllowsDeploy}
use sglang_ops_stack.Deployment.Safety.{Lasting, run-Keeps}

abbrev leads : String → List String → Bool
leads word [] = false
leads word (first ∷ rest) = first == word

-- `docker rm …`
abbrev pub is_removal : CommandSpec → Bool
is_removal spec = (spec.executable == "docker") && leads "rm" spec.args

abbrev pub IsHarmless : CommandSpec → Type 0
IsHarmless spec = is_removal spec ≡ false

abbrev Harmless : DockerConfig → JobState → Type 0
Harmless config s = (s.target.docker_config ≡ config) × All IsHarmless s.sent

Harmless-Lasting : (w : World) (config : DockerConfig) → Lasting w (Harmless config) IsHarmless
unfolding add_job_log add_log
Harmless-Lasting w config = record {
  elsewhere = λ s s' logs path same sent h. (sym same ∙ h.0, subst (All IsHarmless) sent h.1);
  logging = λ level message. Keeps-modify _ (λ s h. h);
  sending = λ spec allowed s h. (h.0, All-append IsHarmless s.sent _ h.1 (allowed, tt));
}

allowed_without :
    (confirm : Bool) (config : DockerConfig)
    → (config.remove_existing && confirm) ≡ false
    → (d : Deployment) → d.docker_config ≡ config
    → AllowsDeploy IsHarmless confirm d
unfolding port_check_spec Docker.pull Docker.rm_existing Docker.run_detached_idle
    Docker.exec_detached Docker.inspect_running Docker.ps Docker.process_check
allowed_without confirm config off d same = record {
  port_check = λ port. refl;
  pulling = refl;
  removing = λ wanted confirmed. absurd (
      impossible _ _ off (sym (ap (λ (c : DockerConfig). c.remove_existing) same) ∙ wanted)
        confirmed);
  idle = refl;
  starting = λ words. refl;
  inspecting = refl;
  listing = refl;
  finding = refl;
}
  where
    impossible : (a b : Bool) → (a && b) ≡ false → a ≡ true → b ≡ true → ⊥
    impossible a b h ha hb = ground arith

-- Unless the configuration asks to remove an existing container and the request confirms it, a
-- deployment job that has sent no `docker rm` before sends none, whatever the host answers.
pub run-sends-IsHarmless :
    (w : World) (host : Host) (password : String) (confirm : Bool) (s : JobState)
    → (s.target.docker_config.remove_existing && confirm) ≡ false
    → All IsHarmless s.sent
    → All IsHarmless (run w host password confirm s).1.sent
run-sends-IsHarmless w host password confirm s off clean =
    let config = s.target.docker_config in
    ((run-Keeps (Harmless-Lasting w config) host password confirm config (λ _ h. h.0)
        (allowed_without confirm config off)).at
      s (refl, clean)).1
