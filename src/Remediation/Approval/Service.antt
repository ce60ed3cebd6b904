-- ===== src/Remediation/Approval/Service.antt =====
-- The operations of RemediationApprovalService (remediation_approval_service.py).
use authclaw_mvp.Common.{
  ℕ, suc, ◌+◌, ◌*◌, Bool, true, false, not, ◌&&◌, ◌||◌, Option, none, some, List, [], ◌∷◌, ltb,
  ◌==◌, if◌then◌else◌, Text, max,
}
use authclaw_mvp.Common.Exec.{◌>>=◌, ◌>>◌, pure, raise, gets, modify, check, when}
use authclaw_mvp.Common.Tables.{first, select}
use authclaw_mvp.ApiSafety.{TextLibrary, sanitize_text}
use authclaw_mvp.Remediation.{
  RemediationPlanStatus, RemediationApprovalStatus, RemediationPlan, RemediationArtifact,
  RemediationPolicyCheck, RemediationApproval, EventKind, Session, Action,
}
use authclaw_mvp.Remediation.Failure.{
  artifact_not_found, plan_not_validated, no_policy_check, latest_check_failed, check_unbound,
  reason_required, not_pending, not_revocable, approval_expired, requires_passing_check,
  artifact_mismatch,
}
use authclaw_mvp.Remediation.Machine.{
  no_context, or_raise, is_some, find_plan, is_approved, transition_plan,
}
use authclaw_mvp.Remediation.Approval.{
  authorize_actor, authorize_reviewer, needs_mfa, find_approval, artifact_of_id,
  latest_policy_check, policy_check_by_hash, artifact_by_hash, is_pending, is_empty, set_approval,
  emit_approval, is_validated, is_requested, bound_to,
}

-- The row that `request_approval` adds, with the expiry that it computes.
abbrev pub new_approval :
    ℕ
    → RemediationPlan
    → RemediationArtifact
    → RemediationPolicyCheck
    → Option ℕ
    → Text
    → ℕ
    → Session
    → RemediationApproval
new_approval tenant plan artifact c requested_by reason minutes s = record {
  id = s.next_id;
  tenant_id = tenant;
  plan_id = plan.id;
  artifact_hash = artifact.artifact_hash;
  policy_check_hash = c.policy_check_hash;
  requested_by = requested_by;
  approved_by = none;
  status = RemediationApprovalStatus.pending;
  expires_at = s.now + 60 * max 1 minutes;
  resolved_at = none;
  mfa_verified = false;
  nonce = s.next_nonce;
  approval_reason = reason;
}

abbrev pub add_approval : RemediationApproval → Action (Unit {0})
add_approval a = modify (λ s. record s {
  approvals = a ∷ s.approvals;
  next_id = suc s.next_id;
  next_nonce = suc s.next_nonce;
})

-- What `approve`, `reject` and `revoke_approval` write into the row.
abbrev pub resolve :
    RemediationApprovalStatus → ℕ → ℕ → Text → RemediationApproval → RemediationApproval
resolve status actor now reason a = record a {
  status = status;
  approved_by = some actor;
  resolved_at = some now;
  approval_reason = reason;
}

abbrev pub expire : ℕ → RemediationApproval → RemediationApproval
expire now a = record a { status = RemediationApprovalStatus.expired; resolved_at = some now }

-- `_expire_single`
unfoldable pub expire_single : RemediationPlan → RemediationApproval → Option ℕ → Action (Unit {0})
expire_single plan a actor = do
  now ← gets (λ s. s.now)
  set_approval a (expire now)
  when (is_requested plan.status)
      (transition_plan plan.tenant_id plan.id RemediationPlanStatus.expired actor no_context)
  emit_approval EventKind.expired plan a actor

-- The MFA events of `approve` before the actor is authorized.
unfoldable pub challenge : RemediationPlan → RemediationApproval → ℕ → Bool → Action (Unit {0})
challenge plan a actor mfa_verified = do
  emit_approval EventKind.mfa_challenge_requested plan a (some actor)
  when (not mfa_verified) (emit_approval EventKind.mfa_verification_failed plan a (some actor))

-- `approve` from the guards on, for the rows that it has read.
unfoldable pub grant :
    RemediationPlan
    → RemediationApproval
    → RemediationPolicyCheck
    → ℕ
    → Text
    → Bool
    → Action (Unit {0})
unfolding challenge authorize_actor needs_mfa
grant plan a c actor reason mfa_verified = do
  when (needs_mfa plan c) (challenge plan a actor mfa_verified)
  authorize_actor a.tenant_id actor c.required_approval_level mfa_verified a.requested_by
  now ← gets (λ s. s.now)
  set_approval a (λ x. record (resolve RemediationApprovalStatus.approved actor now reason x) {
    mfa_verified = mfa_verified;
  })
  transition_plan a.tenant_id plan.id RemediationPlanStatus.approved (some actor)
      (record no_context { approval_id = some a.id; nonce = some a.nonce })
  emit_approval EventKind.approved plan a (some actor)
  when (needs_mfa plan c) (emit_approval EventKind.mfa_verified plan a (some actor))

unfoldable pub approve_current :
    RemediationPlan → RemediationApproval → ℕ → Text → Bool → Action (Unit {0})
unfolding grant
approve_current plan a actor reason mfa_verified = do
  check? ← gets (policy_check_by_hash plan a.policy_check_hash)
  c ← or_raise requires_passing_check check?
  check c.passed requires_passing_check
  artifact? ← gets (artifact_by_hash plan a.artifact_hash)
  artifact ← or_raise artifact_mismatch artifact?
  check (bound_to c.artifact_id artifact.id) artifact_mismatch
  grant plan a c actor reason mfa_verified

unfoldable pub approve_rows :
    RemediationPlan → RemediationApproval → ℕ → Text → Bool → Action (Unit {0})
unfolding approve_current expire_single
approve_rows plan a actor reason mfa_verified = do
  check (is_pending a.status) not_pending
  now ← gets (λ s. s.now)
  if ltb a.expires_at now
      then (expire_single plan a (some actor) >> raise approval_expired)
      else approve_current plan a actor reason mfa_verified

module _ (lib : TextLibrary) where
  unfoldable pub approve : ℕ → ℕ → ℕ → Text → Bool → Action (Unit {0})
  unfolding approve_rows
  approve tenant approval_id actor reason mfa_verified = do
    check (not (is_empty (sanitize_text lib reason))) reason_required
    a ← find_approval tenant approval_id
    plan ← find_plan tenant a.plan_id
    approve_rows plan a actor (sanitize_text lib reason) mfa_verified

  unfoldable pub request_approval : ℕ → ℕ → Option ℕ → Text → ℕ → Action (Unit {0})
  request_approval tenant plan_id requested_by reason minutes = do
    plan ← find_plan tenant plan_id
    check (is_validated plan.status) plan_not_validated
    check? ← gets (latest_policy_check plan)
    c ← or_raise no_policy_check check?
    check c.passed latest_check_failed
    artifact_id ← or_raise check_unbound c.artifact_id
    artifact? ← gets (λ s. first (artifact_of_id plan artifact_id) s.artifacts)
    artifact ← or_raise artifact_not_found artifact?
    a ← gets (new_approval tenant plan artifact c requested_by (sanitize_text lib reason) minutes)
    add_approval a
    transition_plan tenant plan.id RemediationPlanStatus.approval_requested requested_by
        (record no_context {
          artifact_hash = some artifact.artifact_hash;
          policy_check_hash = some c.policy_check_hash;
        })
    emit_approval EventKind.approval_requested plan a requested_by

  unfoldable pub reject : ℕ → ℕ → ℕ → Text → Action (Unit {0})
  unfolding authorize_reviewer
  reject tenant approval_id actor reason = do
    check (not (is_empty (sanitize_text lib reason))) reason_required
    a ← find_approval tenant approval_id
    plan ← find_plan tenant a.plan_id
    check (is_pending a.status) not_pending
    authorize_reviewer tenant actor false
    now ← gets (λ s. s.now)
    set_approval a (resolve RemediationApprovalStatus.rejected actor now (sanitize_text lib reason))
    transition_plan tenant plan.id RemediationPlanStatus.rejected (some actor) no_context
    emit_approval EventKind.rejected plan a (some actor)

  unfoldable pub revoke_approval : ℕ → ℕ → ℕ → Text → Action (Unit {0})
  unfolding authorize_reviewer
  revoke_approval tenant approval_id actor reason = do
    check (not (is_empty (sanitize_text lib reason))) reason_required
    a ← find_approval tenant approval_id
    plan ← find_plan tenant a.plan_id
    check (is_pending a.status || is_approved a.status) not_revocable
    authorize_reviewer tenant actor true
    now ← gets (λ s. s.now)
    set_approval a (resolve RemediationApprovalStatus.revoked actor now (sanitize_text lib reason))
    when (is_requested plan.status)
        (transition_plan tenant plan.id RemediationPlanStatus.rejected (some actor) no_context)
    emit_approval EventKind.revoked plan a (some actor)

unfoldable pub expire_found : Option RemediationPlan → RemediationApproval → Action (Unit {0})
unfolding expire_single
expire_found none a = pure tt
expire_found (some plan) a = expire_single plan a none

-- `expire_approvals`: the rows that its query yields, each with its plan, which the join leaves out
-- when there is none. The plans are read as the loop goes: a session hands out one object for a row,
-- so an approval later in the list sees what an earlier one did to their plan.
unfoldable pub expire_each : List RemediationApproval → Action (List ℕ)
unfolding expire_found
expire_each [] = pure []
expire_each (a ∷ rows) = do
  plan? ← gets (λ s. first (λ p. p.id == a.plan_id) s.plans)
  expire_found plan? a
  rest ← expire_each rows
  pure (if is_some plan? then a.id ∷ rest else rest)

abbrev pub is_overdue : ℕ → ℕ → RemediationApproval → Bool
is_overdue tenant now a = a.tenant_id == tenant && is_pending a.status && ltb a.expires_at now

unfoldable pub expire_approvals : ℕ → Action (List ℕ)
unfolding expire_each
expire_approvals tenant = do
  overdue ← gets (λ s. select (is_overdue tenant s.now) s.approvals)
  expire_each overdue
