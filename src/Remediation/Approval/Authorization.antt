-- ===== src/Remediation/Approval/Authorization.antt =====
-- Whom `_authorize_actor` lets approve (remediation_approval_service.py).
use authclaw_mvp.Common.{ℕ, ◌≡◌, refl, Bool, true, false, not, ◌&&◌, Option, List, arith, ◌==◌, ok}
use authclaw_mvp.Common.Exec.{check_then_ok, check, ◌>>◌}
use authclaw_mvp.Common.Tables.{select}
use authclaw_mvp.Remediation.{RemediationApprovalLevel, RoleName, Session}
use authclaw_mvp.Remediation.Failure.{
  viewer_cannot_approve, role_missing, mfa_required, self_approval,
}
use authclaw_mvp.Remediation.Machine.Validation.{check_ok}
use authclaw_mvp.Remediation.Approval.{
  is_mfa_level, may_approve, any_role, is_observer, names, same_id, authorize_roles,
}

abbrev pub roles_of : ℕ → ℕ → Session → List RoleName
roles_of tenant actor s =
    names (select (λ m. m.tenant_id == tenant && m.user_id == actor) s.memberships)

-- An actor whose roles may approve at the level, with MFA and not the requester at the elevated levels.
pub record Authorized (roles : List RoleName) (actor : ℕ) (level : RemediationApprovalLevel)
    (mfa_verified : Bool) (requested_by : Option ℕ) : Type 0 where
  pub has_role : any_role (may_approve level) roles ≡ true
  pub has_mfa : is_mfa_level level ≡ true → mfa_verified ≡ true
  pub is_other : is_mfa_level level ≡ true → same_id requested_by actor ≡ false

forces : (b c : Bool) → not (b && c) ≡ true → b ≡ true → c ≡ false
forces b false h e = refl
forces true true h e = absurd (ground arith)
forces false true h e = absurd (ground arith)

not-false→true : (b : Bool) → not b ≡ false → b ≡ true
not-false→true true h = refl
not-false→true false h = absurd (ground arith)

pub authorize_roles_ok :
    (roles : List RoleName) (actor : ℕ) (level : RemediationApprovalLevel) (mfa_verified : Bool)
    (requested_by : Option ℕ) (s : Session) {u : Unit {0}} {s' : Session}
    → authorize_roles roles actor level mfa_verified requested_by s ≡ (ok u, s')
    → Authorized roles actor level mfa_verified requested_by × (s' ≡ s)
unfolding authorize_roles
authorize_roles_ok roles actor level mfa_verified requested_by s {u = u} {s' = s'} h =
    let c3 = check (not (is_mfa_level level && not mfa_verified)) mfa_required in
    let c4 = check (not (is_mfa_level level && same_id requested_by actor)) self_approval in
    let (seen, h1) =
      check_then_ok
        (not (any_role is_observer roles && not (any_role (λ r. not (is_observer r)) roles)))
        viewer_cannot_approve
        (check (any_role (may_approve level) roles) role_missing >> (c3 >> c4)) s h in
    let (has_role, h2) =
      check_then_ok (any_role (may_approve level) roles) role_missing (c3 >> c4) s h1 in
    let (mfa, h3) =
      check_then_ok (not (is_mfa_level level && not mfa_verified)) mfa_required c4 s h2 in
    let (other, same) =
      check_ok (not (is_mfa_level level && same_id requested_by actor)) self_approval s h3 in
    (
      record {
        has_role = has_role;
        has_mfa =
            λ e. not-false→true mfa_verified (forces (is_mfa_level level) (not mfa_verified) mfa e);
        is_other = λ e. forces (is_mfa_level level) (same_id requested_by actor) other e;
      },
      same,
    )
