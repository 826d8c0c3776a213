-- ===== src/Deployment/Numbered.antt =====
-- The numbers of the revisions of a deployment, and its current version.
use sglang_ops_stack.Base.{
  ℕ, suc, ◌+◌, String, true, false, List, [], ◌∷◌, ◌++◌, Option, none, some, length, ltb, eqb, ◌≡◌,
  refl, sym, ◌∙◌, ap, subst, arith, if◌then◌else◌, Bool-cases, inl, inr,
}
use sglang_ops_stack.Base.Exec.{Result, ok, err, ◌>>=◌}
use sglang_ops_stack.Masking.{Patterns}
use sglang_ops_stack.Db.{Host, Deployment, DeploymentRevision}
use sglang_ops_stack.Deployment.Create.{DeploymentCreate, preview_commands}
use sglang_ops_stack.Deployment.World.{World, JobException, JobState}
use sglang_ops_stack.Deployment.Apply.{
  last_revision_no, revision_of, assign, with_revision, create_revision, apply_previewed,
  apply_payload_to_deployment, draft_of, drafted, create_deployment,
}

-- The numbers of a deployment's revisions, the oldest first.
unfoldable pub numbers : ℕ → List DeploymentRevision → List ℕ
numbers id [] = []
numbers id (r ∷ rs) =
    let rest = numbers id rs in if eqb r.deployment_id id then r.revision_no ∷ rest else rest

-- The numbers that follow the given one, without a gap.
abbrev pub Counts : ℕ → List ℕ → Type 0
Counts n [] = Unit
Counts n (x ∷ xs) = (x ≡ suc n) × Counts (suc n) xs

-- The revisions of every deployment are numbered 1, 2, 3 and so on.
abbrev pub IsNumbered : List DeploymentRevision → Type 0
IsNumbered revisions = (id : ℕ) → Counts 0 (numbers id revisions)

-- So are all revisions, and the current version of the deployment is how many it has.
abbrev pub IsVersioned : List DeploymentRevision → Deployment → Type 0
IsVersioned revisions d =
    IsNumbered revisions × (d.current_version ≡ length (numbers d.id revisions))

greater : (m n : ℕ) → ℕ
greater m n = if ltb m n then n else m

-- The greatest number is how many there are.
greater-last_revision_no :
    (id n : ℕ) (rs : List DeploymentRevision)
    → Counts n (numbers id rs)
    → greater n (last_revision_no id rs) ≡ n + length (numbers id rs)
unfolding greater numbers last_revision_no
greater-last_revision_no id n [] h = ground arith
greater-last_revision_no id n (r ∷ rs) h = elim (Bool-cases (eqb r.deployment_id id)) [
  | inl e ↦
      let here : Counts n (r.revision_no ∷ numbers id rs) =
        subst (λ b. Counts n (if b then r.revision_no ∷ numbers id rs else numbers id rs)) e h in
      let rest = greater-last_revision_no id (suc n) rs here.1 in
      let first = here.0 in rw e (ground arith)
  | inr e ↦ rw e (
      greater-last_revision_no id n rs
        (subst (λ b. Counts n (if b then r.revision_no ∷ numbers id rs else numbers id rs)) e h))
]

last_revision_no-length :
    (id : ℕ) (rs : List DeploymentRevision)
    → Counts 0 (numbers id rs)
    → last_revision_no id rs ≡ length (numbers id rs)
unfolding greater
last_revision_no-length id rs h = let found = greater-last_revision_no id 0 rs h in ground arith

Counts-append : (n : ℕ) (xs : List ℕ) → Counts n xs → Counts n (xs ++ suc (n + length xs) ∷ [])
Counts-append n [] h = (omega arith, tt)
Counts-append n (x ∷ xs) h =
    (h.0, subst (λ k. Counts (suc n) (xs ++ k ∷ [])) (omega arith) (Counts-append (suc n) xs h.1))

length-append_one : (xs : List ℕ) (x : ℕ) → length (xs ++ x ∷ []) ≡ suc (length xs)
length-append_one [] x = refl
length-append_one (y ∷ ys) x = ap suc (length-append_one ys x)

numbers-append_same :
    (id : ℕ) (rs : List DeploymentRevision) (r : DeploymentRevision)
    → eqb r.deployment_id id ≡ true
    → numbers id (rs ++ r ∷ []) ≡ numbers id rs ++ r.revision_no ∷ []
unfolding numbers
numbers-append_same id [] r h = rw h refl
numbers-append_same id (q ∷ rs) r h = elim (Bool-cases (eqb q.deployment_id id)) [
  | inl e ↦ rw (e, numbers-append_same id rs r h) refl
  | inr e ↦ rw (e, numbers-append_same id rs r h) refl
]

numbers-append_other :
    (id : ℕ) (rs : List DeploymentRevision) (r : DeploymentRevision)
    → eqb r.deployment_id id ≡ false
    → numbers id (rs ++ r ∷ []) ≡ numbers id rs
unfolding numbers
numbers-append_other id [] r h = rw h refl
numbers-append_other id (q ∷ rs) r h = elim (Bool-cases (eqb q.deployment_id id)) [
  | inl e ↦ rw (e, numbers-append_other id rs r h) refl
  | inr e ↦ rw (e, numbers-append_other id rs r h) refl
]

module _ (rs : List DeploymentRevision) (r : DeploymentRevision) (numbered : IsNumbered rs)
    (next : r.revision_no ≡ suc (last_revision_no r.deployment_id rs)) where
  append-Counts : (id : ℕ) → eqb r.deployment_id id ≡ true → Counts 0 (numbers id (rs ++ r ∷ []))
  append-Counts id e =
      let same : r.deployment_id ≡ id = ground arith in
      let found = last_revision_no-length id rs (numbered id) in
      let number : suc (0 + length (numbers id rs)) ≡ r.revision_no =
        sym (next ∙ ap (λ k. suc (last_revision_no k rs)) same ∙ ap suc found ∙ omega arith) in
      rw (numbers-append_same id rs r e) (
        subst (λ k. Counts 0 (numbers id rs ++ k ∷ [])) number
          (Counts-append 0 (numbers id rs) (numbered id)))

  append-IsNumbered : IsNumbered (rs ++ r ∷ [])
  append-IsNumbered id = elim (Bool-cases (eqb r.deployment_id id)) [
    | inl e ↦ append-Counts id e
    | inr e ↦ rw (numbers-append_other id rs r e) (numbered id)
  ]

  append-length : r.revision_no ≡ length (numbers r.deployment_id (rs ++ r ∷ []))
  append-length =
      let same : eqb r.deployment_id r.deployment_id ≡ true = ground arith in
      next
      ∙ ap suc (last_revision_no-length r.deployment_id rs (numbered r.deployment_id))
      ∙ sym (length-append_one (numbers r.deployment_id rs) r.revision_no)
      ∙ sym (ap length (numbers-append_same r.deployment_id rs r same))

abbrev Versioned : List DeploymentRevision → Option (Deployment × DeploymentRevision) → Type 0
Versioned revisions none = Unit
Versioned revisions (some (d, r)) = IsVersioned (revisions ++ r ∷ []) d

drafted-Versioned :
    (id revision_id : ℕ) (revisions : List DeploymentRevision) (host : Host)
    (payload : DeploymentCreate) (preview : Option (String × List String))
    → IsNumbered revisions
    → Versioned revisions (drafted id revision_id revisions host payload preview)
unfolding draft_of with_revision revision_of
drafted-Versioned id revision_id revisions host payload none h = tt
drafted-Versioned id revision_id revisions host payload (some (line, warnings)) h =
    let r = revision_of revision_id revisions id payload line in
    (append-IsNumbered revisions r h refl, append-length revisions r h refl)

created-Versioned :
    (p : Patterns) (id revision_id : ℕ) (revisions : List DeploymentRevision) (host : Option Host)
    (payload : DeploymentCreate)
    → IsNumbered revisions
    → Versioned revisions (create_deployment p id revision_id revisions host payload)
unfolding create_deployment
created-Versioned p id revision_id revisions none payload h = tt
created-Versioned p id revision_id revisions (some host) payload h =
    drafted-Versioned id revision_id revisions host payload (preview_commands p payload) h

-- Where the revisions of every deployment are numbered 1, 2, 3 and so on in the order they were
-- added, they are so with the revision of a created deployment, whose current version is the number
-- of its revisions.
pub create_deployment-IsVersioned :
    (p : Patterns) (id revision_id : ℕ) (revisions : List DeploymentRevision) (host : Option Host)
    (payload : DeploymentCreate) (d : Deployment) (r : DeploymentRevision)
    → IsNumbered revisions
    → create_deployment p id revision_id revisions host payload ≡ some (d, r)
    → IsVersioned (revisions ++ r ∷ []) d
create_deployment-IsVersioned p id revision_id revisions host payload d r numbered h =
    subst (Versioned revisions) h
      (created-Versioned p id revision_id revisions host payload numbered)

-- Behind a change that is made the deployment has one version more; one that is refused changes
-- nothing.
abbrev pub IsApplied : JobState → Result JobException Unit → JobState → Type 0
IsApplied s (ok done) s' =
    IsVersioned s'.revisions s'.target × (s'.target.current_version ≡ suc s.target.current_version)
IsApplied s (err e) s' = s' ≡ s

previewed-IsApplied :
    (w : World) (host : Host) (payload : DeploymentCreate) (s : JobState)
    (preview : Option (String × List String))
    → IsVersioned s.revisions s.target
    → (let (outcome, s') = apply_previewed w host payload preview s in IsApplied s outcome s')
unfolding apply_previewed create_revision assign with_revision revision_of ◌>>=◌
previewed-IsApplied w host payload s none h = refl
previewed-IsApplied w host payload s (some (line, warnings)) h =
    let r = revision_of (w.revision_id s.revisions) s.revisions s.target.id payload line in
    (
      (append-IsNumbered s.revisions r h.0 refl, append-length s.revisions r h.0 refl),
      ap suc (last_revision_no-length s.target.id s.revisions (h.0 s.target.id) ∙ sym h.1),
    )

-- Where the revisions of every deployment are numbered 1, 2, 3 and so on in the order they were
-- added and the current version of the deployment is the number of its revisions, a change by a
-- payload that returns keeps this and raises the version by one; one that raises an exception
-- changes nothing.
pub apply_payload_to_deployment-IsApplied :
    (w : World) (host : Option Host) (payload : DeploymentCreate) (s : JobState)
    → IsVersioned s.revisions s.target
    → (let (outcome, s') = apply_payload_to_deployment w host payload s in IsApplied s outcome s')
unfolding apply_payload_to_deployment ◌>>=◌
apply_payload_to_deployment-IsApplied w none payload s h = refl
apply_payload_to_deployment-IsApplied w (some host) payload s h =
    previewed-IsApplied w host payload s (preview_commands w.patterns payload) h
