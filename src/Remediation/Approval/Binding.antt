-- ===== src/Remediation/Approval/Binding.antt =====
-- The verification of an approval before a run: `_verify_approval_binding` and its three callers
-- (remediation_approval_service.py).
pub mod SingleUse
pub mod Bound
use authclaw_mvp.Common.{
  ℕ, Bool, true, false, not, ◌&&◌, ◌||◌, Option, none, some, List, [], ◌∷◌, ltb, ◌==◌,
  if◌then◌else◌, Result, ok, err,
}
use authclaw_mvp.Common.Exec.{Exec, ◌>>=◌, ◌>>◌, pure, raise, gets, check, when}
use authclaw_mvp.Remediation.{
  RemediationApprovalStatus, RemediationPlan, RemediationPolicyCheck, RemediationApproval,
  EventKind, Session, Failure, Action,
}
use authclaw_mvp.Remediation.Failure.{
  approval_used, plan_not_approved, not_latest_check, mfa_not_fresh, other_approver,
  approver_missing, approval_expired, approval_of_other_plan, approval_not_approved,
  approval_artifact_mismatch, approval_check_mismatch, check_artifact_mismatch,
}
use authclaw_mvp.Remediation.Machine.{or_raise, is_some, find_plan, is_approved}
use authclaw_mvp.Remediation.Approval.{
  needs_mfa, find_approval, latest_policy_check, policy_check_by_hash, artifact_by_hash, is_used,
  set_approval, emit_approval, is_plan_approved, bound_to, same_id,
}
use authclaw_mvp.Remediation.Approval.Service.{expire}

-- ApprovalVerificationResult. Of the envelope's digest, whether there is one.
pub record ApprovalVerificationResult : Type 0 where
  pub approval_id : ℕ
  pub plan_id : ℕ
  pub artifact_hash : ℕ
  pub policy_check_hash : ℕ
  pub has_envelope : Bool

abbrev pub or_else : Option ℕ → Option ℕ → Option ℕ
or_else none b = b
or_else (some a) b = some a

abbrev pub is_latest : Option RemediationPolicyCheck → ℕ → Bool
is_latest none hash = false
is_latest (some c) hash = c.policy_check_hash == hash

-- `actor_uuid is not None and approval.approved_by != actor_uuid`
abbrev pub is_other : Option ℕ → Option ℕ → Bool
is_other none approver = false
is_other (some actor) approver = not (same_id approver actor)

-- The branch for an action that needs MFA.
pub verify_mfa : RemediationPlan → RemediationApproval → Option ℕ → Action (Unit {0})
verify_mfa plan a actor = do
  check a.mfa_verified mfa_not_fresh
  check (not (is_other actor a.approved_by)) other_approver
  check (is_some a.approved_by) approver_missing
  emit_approval EventKind.mfa_execution_verified plan a (or_else actor a.approved_by)

abbrev pub use_approval : RemediationApproval → RemediationApproval
use_approval a = record a { status = RemediationApprovalStatus.used }

-- The checks that read what the approval is bound to.
pub verify_bound : RemediationPlan → RemediationApproval → Option ℕ → Action Bool
unfolding verify_mfa needs_mfa
verify_bound plan a actor = do
  artifact? ← gets (artifact_by_hash plan a.artifact_hash)
  artifact ← or_raise approval_artifact_mismatch artifact?
  check? ← gets (policy_check_by_hash plan a.policy_check_hash)
  c ← or_raise approval_check_mismatch check?
  check c.passed approval_check_mismatch
  latest? ← gets (latest_policy_check plan)
  check (is_latest latest? a.policy_check_hash) not_latest_check
  check (bound_to c.artifact_id artifact.id) check_artifact_mismatch
  when (needs_mfa plan c) (verify_mfa plan a actor)
  pure (needs_mfa plan c)

pub verify_current :
    RemediationPlan
    → RemediationApproval
    → Bool
    → Bool
    → Option ℕ
    → Action ApprovalVerificationResult
unfolding verify_bound
verify_current plan a consume require_plan_approved actor = do
  check (not (require_plan_approved && not (is_plan_approved plan.status))) plan_not_approved
  has_envelope ← verify_bound plan a actor
  when consume (set_approval a use_approval)
  pure (record {
    approval_id = a.id;
    plan_id = plan.id;
    artifact_hash = a.artifact_hash;
    policy_check_hash = a.policy_check_hash;
    has_envelope = has_envelope;
  })

abbrev pub expire_approval :
    RemediationPlan → RemediationApproval → Option ℕ → Action ApprovalVerificationResult
expire_approval plan a actor = do
  now ← gets (λ s. s.now)
  set_approval a (expire now)
  emit_approval EventKind.mfa_expired plan a (or_else actor a.approved_by)
  raise approval_expired

-- The body of `try`.
pub verify_rows :
    RemediationPlan
    → RemediationApproval
    → Bool
    → Bool
    → Option ℕ
    → Action ApprovalVerificationResult
unfolding verify_current
verify_rows plan a consume require_plan_approved actor = do
  check (a.plan_id == plan.id) approval_of_other_plan
  check (not (is_used a.status)) approval_used
  check (is_approved a.status) approval_not_approved
  now ← gets (λ s. s.now)
  if ltb a.expires_at now
      then expire_approval plan a actor
      else verify_current plan a consume require_plan_approved actor

-- `except BadRequestException: emit; raise`: every failure of the body is one.
abbrev pub blocked :
    RemediationPlan
    → RemediationApproval
    → Result Failure ApprovalVerificationResult
    → Action ApprovalVerificationResult
blocked plan a (ok r) = pure r
blocked plan a (err e) = emit_approval EventKind.replay_blocked plan a none >> raise e

abbrev pub report_blocked :
    RemediationPlan
    → RemediationApproval
    → Action ApprovalVerificationResult
    → Action ApprovalVerificationResult
report_blocked plan a body s = let (r, s') = body s in blocked plan a r s'

unfoldable pub verify_approval_binding :
    ℕ → ℕ → ℕ → Bool → Bool → Option ℕ → Action ApprovalVerificationResult
unfolding verify_rows
verify_approval_binding tenant plan_id approval_id consume require_plan_approved actor = do
  plan ← find_plan tenant plan_id
  a ← find_approval tenant approval_id
  report_blocked plan a (verify_rows plan a consume require_plan_approved actor)

abbrev pub verify_approval_for_future_execution :
    ℕ → ℕ → ℕ → Option ℕ → Action ApprovalVerificationResult
verify_approval_for_future_execution tenant plan_id approval_id actor =
    verify_approval_binding tenant plan_id approval_id true true actor

abbrev pub verify_approval_for_controlled_execution_start :
    ℕ → ℕ → ℕ → Option ℕ → Action ApprovalVerificationResult
verify_approval_for_controlled_execution_start tenant plan_id approval_id actor =
    verify_approval_binding tenant plan_id approval_id true false actor

abbrev pub verify_approval_for_dry_run : ℕ → ℕ → ℕ → Option ℕ → Action ApprovalVerificationResult
verify_approval_for_dry_run tenant plan_id approval_id actor =
    verify_approval_binding tenant plan_id approval_id false true actor
