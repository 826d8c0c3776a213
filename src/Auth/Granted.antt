-- ===== src/Auth/Granted.antt =====
-- Who passes the check of a role, and what a refusal writes.
use sglang_ops_stack.Base.{
  ℕ, String, Bool, true, false, List, [], ◌∷◌, ◌++◌, Option, none, some, ltb, eqb, subst, ◌≤◌, ◌≡◌,
  refl, sym, ap, arith, if◌then◌else◌,
}
use sglang_ops_stack.Base.Show.{ℤ, pos, negsuc}
use sglang_ops_stack.Base.Exec.{Result, ok, err, pure, raise, ◌>>=◌, ◌>>◌}
use sglang_ops_stack.Base.Exec.Keeps.{
  Ends, Triple, Triple-bind, Triple-pure, Triple-raise, Triple-weaken,
}
use sglang_ops_stack.Json.{Value, Entries, text, int, float, bool, null, array, object, get}
use sglang_ops_stack.Auth.Crypto.{AuthException}
use sglang_ops_stack.Auth.Token.{User, decode_access_token}
use sglang_ops_stack.Auth.Password.{get_user, int_of}
use sglang_ops_stack.Auth.Access.{
  active, found_user, audit_row, refusal_summary, AuditLog, AccessError, http, auth, Access, Gate,
  role_level, record_event, user_of_subject, user_of_value, user_of_payload, current_user,
  check_role, require_role,
}

-- One of the users, and active.
abbrev pub IsKnown : List User → User → Type 0
IsKnown users user = (get_user user.id users ≡ some user) × (user.is_active ≡ true)

-- The status of an error, where it has one.
abbrev is_forbidden : AccessError → Bool
is_forbidden (http status_code detail) = eqb status_code 403
is_forbidden (auth e) = false

-- One row was added, which says that a permission was denied to a user; or nothing was written.
abbrev pub IsWritten : Bool → Access → Access → Type 0
IsWritten true before s =
    (row : AuditLog) × (s.audits ≡ before.audits ++ row ∷ [])
    × (row.event_type ≡ "auth.permission_denied")
    × (s.users ≡ before.users)
IsWritten false before s = s ≡ before

abbrev pub IsRefused : Access → AccessError → Access → Type 0
IsRefused before e s = IsWritten (is_forbidden e) before s

-- The user is known, has the role or a higher one, and nothing was written.
abbrev pub IsGranted : String → Access → User → Access → Type 0
IsGranted min_role before user s =
    IsKnown before.users user × (role_level min_role ≤ role_level user.role) × (s ≡ before)

get_user-id :
    (id : ℕ) (users : List User) (user : User) → get_user id users ≡ some user → user.id ≡ id
unfolding get_user
get_user-id id [] user h = ground arith
get_user-id id (u ∷ us) user h = ground (arith, get_user-id id us user)

get_user_self :
    (id : ℕ) (users : List User) (user : User)
    → get_user id users ≡ some user
    → get_user user.id users ≡ some user
get_user_self id users user h =
    subst (λ n. get_user n users ≡ some user) (sym (get_user-id id users user h)) h

-- The errors of the authentication write nothing.
abbrev Plain : Access → AccessError → Access → Type 0
Plain before e s = (is_forbidden e ≡ false) × (s ≡ before)

abbrev Same : Access → Access → Type 0
Same before s = s ≡ before

not_below : (m n : ℕ) → ltb n m ≡ false → m ≤ n
not_below m n h = ground arith

module _ (before : Access) where
  abbrev Known : User → Access → Type 0
  Known user s = IsKnown before.users user × (s ≡ before)

  invalid-Plain :
      Triple (Same before) (raise {A = User} (http 401 "Invalid token")) Known (Plain before)
  invalid-Plain = Triple-raise _ (λ s h. (refl, h))

  passing :
      (user : User)
      → IsKnown before.users user
      → Triple (Same before) (pure user) Known (Plain before)
  passing user known =
      Triple-weaken {P' = Same before} _ (λ s k. (known, k)) (λ u s k. k) (λ e s k. k)
        (Triple-pure {R = Plain before} {Q = Known} user)

  active-Known :
      (id : ℕ) (found : Option User)
      → get_user id before.users ≡ found
      → Triple (Same before) (active found) Known (Plain before)
  active-Known id none h = Triple-raise _ (λ s k. (refl, k))
  active-Known id (some user) h = allowed user.is_active refl
    where
      allowed :
          (b : Bool)
          → user.is_active ≡ b
          → Triple
              (Same before)
              (if b then pure user else raise (http 401 "Inactive user"))
              Known
              (Plain before)
      allowed true e = passing user (get_user_self id before.users user h, e)
      allowed false e = Triple-raise _ (λ s k. (refl, k))

  found-Known :
      (id : ℤ) → Triple (Same before) (active (found_user id before.users)) Known (Plain before)
  found-Known (pos id) = active-Known id (get_user id before.users) refl
  found-Known (negsuc n) = Triple-raise _ (λ s k. (refl, k))

  user_of_subject-Known :
      (id : Option ℤ) → Triple (Same before) (user_of_subject id) Known (Plain before)
  unfolding user_of_subject
  user_of_subject-Known none = record { at = λ s h. invalid-Plain.at s h }
  user_of_subject-Known (some id) = record {
    at = λ s h.
        subst
          (λ us.
            Ends Known (Plain before) (active (found_user id us) s).0
              (active (found_user id us) s).1)
          (ap (λ a. a.users) (sym h)) ((found-Known id).at s h);
  }

  subject-Known :
      (subject : Value) → Triple (Same before) (user_of_value subject) Known (Plain before)
  subject-Known (text t) = user_of_subject-Known (int_of t)
  subject-Known (int n) = invalid-Plain
  subject-Known (float t) = invalid-Plain
  subject-Known (bool b) = invalid-Plain
  subject-Known null = invalid-Plain
  subject-Known (array xs) = invalid-Plain
  subject-Known (object fs) = invalid-Plain

  user_of_payload-Known :
      (decoded : Result AuthException (Option Entries))
      → Triple (Same before) (user_of_payload decoded) Known (Plain before)
  unfolding user_of_payload
  user_of_payload-Known (err e) = Triple-raise _ (λ s k. (refl, k))
  user_of_payload-Known (ok none) = invalid-Plain
  user_of_payload-Known (ok (some payload)) = subject-Known (get "sub" payload)

  current_user-Known :
      (g : Gate) (now : ℕ) (credentials : Option String)
      → Triple (Same before) (current_user g now credentials) Known (Plain before)
  unfolding current_user
  current_user-Known g now none = Triple-raise _ (λ s k. (refl, k))
  current_user-Known g now (some token) =
      user_of_payload-Known (decode_access_token g.crypto g.settings now token)

  check_role-IsGranted :
      (g : Gate) (method path min_role : String) (user : User)
      → Triple
          (Known user)
          (check_role g method path min_role user)
          (IsGranted min_role before)
          (IsRefused before)
  unfolding check_role record_event ◌>>=◌
  check_role-IsGranted g method path min_role user =
      judged (ltb (role_level user.role) (role_level min_role)) refl
    where
      row : AuditLog
      row =
          audit_row g.patterns "auth.permission_denied" user "route" path
            (refusal_summary method path min_role)

      judged :
          (b : Bool)
          → ltb (role_level user.role) (role_level min_role) ≡ b
          → Triple
              (Known user)
              (if b
                then (do
                  record_event g.patterns "auth.permission_denied" user "route" path
                      (refusal_summary method path min_role)
                  raise (http 403 "Insufficient role"))
                else pure user)
              (IsGranted min_role before)
              (IsRefused before)
      judged true e = record {
        at = λ s h. (
          row,
          ap (λ a. a.audits ++ row ∷ []) h.1,
          unfold audit_row in refl,
          ap (λ a. a.users) h.1,
        );
      }
      judged false e =
          Triple-weaken {P' = Known user} _ (λ s k. (k.0, not_below _ _ e, k.1)) (λ u s k. k)
            (λ x s k. k) (Triple-pure {R = IsRefused before} {Q = IsGranted min_role before} user)

  refused : (e : AccessError) (s : Access) → Plain before e s → IsRefused before e s
  refused e s h = rw h.0 h.1

-- Who passes the check of a role is an active user of the table whose role is the required one or
-- a higher one, and nothing is written. A request that is refused for its role adds one row to the
-- audit log, of a denied permission; one that is refused for another reason writes nothing.
pub require_role-IsGranted :
    (g : Gate) (now : ℕ) (method path min_role : String) (credentials : Option String)
    (before : Access)
    → Ends
        (IsGranted min_role before)
        (IsRefused before)
        (require_role g now method path min_role credentials before).0
        (require_role g now method path min_role credentials before).1
unfolding require_role
require_role-IsGranted g now method path min_role credentials before =
    (Triple-bind _ _
        (Triple-weaken _ (λ s h. h) (λ u s h. h) (refused before)
          (current_user-Known before g now credentials))
        (check_role-IsGranted before g method path min_role)).at
      before refl
