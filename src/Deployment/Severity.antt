-- ===== src/Deployment/Severity.antt =====
-- The aggregate of a health check against an independent description: the worst of its layers.
use sglang_ops_stack.Base.{
  ℕ, Bool, true, false, List, [], ◌∷◌, any, ltb, ◌≡◌, refl, arith, if◌then◌else◌, ◌∙◌, sym,
}
use sglang_ops_stack.Db.Results.{HealthStatus}
use sglang_ops_stack.Deployment.Health.{is_error, is_warn, aggregate_status}

-- How bad a status is.
abbrev pub severity : HealthStatus → ℕ
severity HealthStatus.error = 2
severity HealthStatus.warn = 1
severity _ = 0

abbrev larger : ℕ → ℕ → ℕ
larger a b = if ltb a b then b else a

abbrev pub worst : List HealthStatus → ℕ
worst [] = 0
worst (s ∷ statuses) = larger (severity s) (worst statuses)

-- What the two searches say of the worst status.
abbrev level : Bool → Bool → ℕ
level true warned = 2
level false true = 1
level false false = 0

worst-any :
    (statuses : List HealthStatus)
    → worst statuses ≡ level (any is_error statuses) (any is_warn statuses)
worst-any [] = refl
worst-any (HealthStatus.error ∷ statuses) = let rest = worst-any statuses in ground arith
worst-any (HealthStatus.warn ∷ statuses) = let rest = worst-any statuses in ground arith
worst-any (HealthStatus.ok ∷ statuses) = let rest = worst-any statuses in ground arith
worst-any (HealthStatus.skipped ∷ statuses) = let rest = worst-any statuses in ground arith
worst-any (HealthStatus.unknown ∷ statuses) = let rest = worst-any statuses in ground arith

severity-level :
    (statuses : List HealthStatus)
    → severity (aggregate_status statuses) ≡ level (any is_error statuses) (any is_warn statuses)
unfolding aggregate_status
severity-level [] = refl
severity-level (s ∷ statuses) = chosen (any is_error (s ∷ statuses)) (any is_warn (s ∷ statuses))
  where
    chosen :
        (failed warned : Bool)
        → severity (
            if failed
            then HealthStatus.error
            else if warned
            then HealthStatus.warn
            else HealthStatus.ok)
          ≡ level failed warned
    chosen true warned = refl
    chosen false true = refl
    chosen false false = refl

-- The status of a health check is as bad as the worst of its layers: an error if one is an error,
-- else a warning if one is a warning, else neither.
pub severity-aggregate_status :
    (statuses : List HealthStatus) → severity (aggregate_status statuses) ≡ worst statuses
severity-aggregate_status statuses = severity-level statuses ∙ sym (worst-any statuses)
