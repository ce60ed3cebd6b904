-- ===== src/Remediation/Approval.antt =====
-- RemediationApprovalService of apps/api/app/services/remediation_approval_service.py.
-- The envelope of an MFA event (a digest) and the fields of an event that only repeat rows are left
-- out; the text library of `sanitize_text` is the parameter `lib`.
pub mod Service
pub mod Binding
pub mod Authorization
pub mod Granting
pub mod Expiry
use authclaw_mvp.Common.{
  ℕ, suc, ◌+◌, ◌*◌, Bool, true, false, not, ◌&&◌, ◌||◌, Option, none, some, List, [], ◌∷◌, ◌++◌,
  ltb, ◌==◌, if◌then◌else◌, Result, ok, err, Text, max,
}
use authclaw_mvp.Common.Exec.{Exec, ◌>>=◌, ◌>>◌, pure, raise, gets, modify, check, when}
use authclaw_mvp.Common.Tables.{first, update, latest, select}
use authclaw_mvp.ApiSafety.{TextLibrary, sanitize_text}
use authclaw_mvp.Remediation.{
  RemediationRiskLevel, RemediationPlanStatus, RemediationApprovalStatus, RemediationApprovalLevel,
  RoleName, RemediationPlan, RemediationArtifact, RemediationPolicyCheck, RemediationApproval,
  Membership, EventKind, Event, Session, Failure, Action, emit, is_plan, is_approval,
}
use authclaw_mvp.Remediation.Failure.{
  approval_not_found, artifact_not_found, plan_not_validated, no_policy_check, latest_check_failed,
  check_unbound, reason_required, not_pending, not_revocable, approval_used, plan_not_approved,
  not_latest_check, mfa_not_fresh, other_approver, approver_missing, viewer_cannot_approve,
  role_missing, mfa_required, self_approval, approval_expired, requires_passing_check,
  artifact_mismatch, approval_of_other_plan, approval_not_approved, approval_artifact_mismatch,
  approval_check_mismatch, check_artifact_mismatch,
}
use authclaw_mvp.Remediation.Machine.{
  Context, no_context, or_raise, is_some, find_plan, check_of_hash, is_approved, transition_plan,
  passing,
}

-- MFA_REQUIRED_LEVELS
abbrev pub is_mfa_level : RemediationApprovalLevel → Bool
is_mfa_level RemediationApprovalLevel.owner = true
is_mfa_level RemediationApprovalLevel.security_admin = true
is_mfa_level _ = false

-- MFA_REQUIRED_RISK_LEVELS
abbrev pub is_mfa_risk : RemediationRiskLevel → Bool
is_mfa_risk RemediationRiskLevel.high = true
is_mfa_risk RemediationRiskLevel.critical = true
is_mfa_risk _ = false

abbrev pub is_privileged : RoleName → Bool
is_privileged RoleName.admin = true
is_privileged RoleName.owner = true
is_privileged RoleName.security_admin = true
is_privileged _ = false

abbrev pub is_reviewer : RoleName → Bool
is_reviewer RoleName.operator = true
is_reviewer RoleName.analyst = true
is_reviewer role = is_privileged role

-- `role in APPROVAL_ROLE_MATRIX[level]`
abbrev pub may_approve : RemediationApprovalLevel → RoleName → Bool
may_approve RemediationApprovalLevel.operator role = is_reviewer role
may_approve RemediationApprovalLevel.admin RoleName.analyst = true
may_approve RemediationApprovalLevel.admin role = is_privileged role
may_approve RemediationApprovalLevel.owner role = is_privileged role
may_approve RemediationApprovalLevel.security_admin role = is_privileged role

abbrev pub is_observer : RoleName → Bool
is_observer RoleName.viewer = true
is_observer RoleName.auditor = true
is_observer _ = false

-- `roles & {..}` is not empty.
abbrev pub any_role : (RoleName → Bool) → List RoleName → Bool
any_role p [] = false
any_role p (role ∷ roles) = p role || any_role p roles

abbrev pub names : List Membership → List RoleName
names [] = []
names (m ∷ ms) = m.name ∷ names ms

abbrev pub actor_roles : ℕ → ℕ → Action (List RoleName)
actor_roles tenant actor =
    gets (λ s. names (select (λ m. m.tenant_id == tenant && m.user_id == actor) s.memberships))

abbrev pub same_id : Option ℕ → ℕ → Bool
same_id none actor = false
same_id (some id) actor = id == actor

-- `_authorize_actor`, for the roles that were read.
pub authorize_roles :
    List RoleName → ℕ → RemediationApprovalLevel → Bool → Option ℕ → Action (Unit {0})
authorize_roles roles actor level mfa_verified requested_by = do
  check (not (any_role is_observer roles && not (any_role (λ r. not (is_observer r)) roles)))
      viewer_cannot_approve
  check (any_role (may_approve level) roles) role_missing
  check (not (is_mfa_level level && not mfa_verified)) mfa_required
  check (not (is_mfa_level level && same_id requested_by actor)) self_approval

pub authorize_actor : ℕ → ℕ → RemediationApprovalLevel → Bool → Option ℕ → Action (Unit {0})
unfolding authorize_roles
authorize_actor tenant actor level mfa_verified requested_by = do
  roles ← actor_roles tenant actor
  authorize_roles roles actor level mfa_verified requested_by

pub authorize_reviewer : ℕ → ℕ → Bool → Action (Unit {0})
authorize_reviewer tenant actor privileged_only = do
  roles ← actor_roles tenant actor
  check (any_role (if privileged_only then is_privileged else is_reviewer) roles) role_missing

-- `_mfa_required`
pub needs_mfa : RemediationPlan → RemediationPolicyCheck → Bool
needs_mfa plan c = is_mfa_risk plan.risk_level || is_mfa_level c.required_approval_level

abbrev pub find_approval : ℕ → ℕ → Action RemediationApproval
find_approval tenant id = do
  found ← gets (λ s. first (is_approval tenant id) s.approvals)
  or_raise approval_not_found found

abbrev pub artifact_of_hash : RemediationPlan → ℕ → RemediationArtifact → Bool
artifact_of_hash plan hash a =
    a.tenant_id == plan.tenant_id && a.plan_id == plan.id && a.artifact_hash == hash

abbrev pub artifact_of_id : RemediationPlan → ℕ → RemediationArtifact → Bool
artifact_of_id plan id a = a.tenant_id == plan.tenant_id && a.plan_id == plan.id && a.id == id

abbrev pub check_of_plan : RemediationPlan → RemediationPolicyCheck → Bool
check_of_plan plan c = c.tenant_id == plan.tenant_id && c.plan_id == plan.id

abbrev pub latest_policy_check : RemediationPlan → Session → Option RemediationPolicyCheck
latest_policy_check plan s = latest (λ c. c.created_at) (select (check_of_plan plan) s.checks)

abbrev pub policy_check_by_hash : RemediationPlan → ℕ → Session → Option RemediationPolicyCheck
policy_check_by_hash plan hash s = first (check_of_hash plan hash) s.checks

abbrev pub artifact_by_hash : RemediationPlan → ℕ → Session → Option RemediationArtifact
artifact_by_hash plan hash s = first (artifact_of_hash plan hash) s.artifacts

abbrev pub is_pending : RemediationApprovalStatus → Bool
is_pending RemediationApprovalStatus.pending = true
is_pending _ = false

abbrev pub is_used : RemediationApprovalStatus → Bool
is_used RemediationApprovalStatus.used = true
is_used _ = false

abbrev pub is_empty : Text → Bool
is_empty [] = true
is_empty (c ∷ cs) = false

-- The approval's row is changed: it was read by its tenant and its id.
abbrev pub set_approval :
    RemediationApproval → (RemediationApproval → RemediationApproval) → Action (Unit {0})
set_approval a f =
    modify (λ s. record s { approvals = update (is_approval a.tenant_id a.id) f s.approvals })

-- `_emit_approval_event` and `_emit_mfa_event`.
abbrev pub emit_approval :
    EventKind → RemediationPlan → RemediationApproval → Option ℕ → Action (Unit {0})
emit_approval kind plan a actor =
    emit (record { kind = kind; plan_id = plan.id; approval_id = some a.id; actor_id = actor })

abbrev pub is_validated : RemediationPlanStatus → Bool
is_validated RemediationPlanStatus.plan_validated = true
is_validated _ = false

abbrev pub is_requested : RemediationPlanStatus → Bool
is_requested RemediationPlanStatus.approval_requested = true
is_requested _ = false

abbrev pub is_plan_approved : RemediationPlanStatus → Bool
is_plan_approved RemediationPlanStatus.approved = true
is_plan_approved _ = false

-- `check.artifact_id != artifact.id` does not hold.
abbrev pub bound_to : Option ℕ → ℕ → Bool
bound_to none id = false
bound_to (some a) id = a == id
