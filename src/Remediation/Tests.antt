-- ===== src/Remediation/Tests.antt =====
-- A plan of high risk, its approval and its run, step by step, with the theorems at those steps.
use authclaw_mvp.Common.{
  ◌≡◌, ◌≢◌, refl, true, false, none, some, [], ◌∷◌, ok, err, Text, codes, map, drop, arith,
}
use authclaw_mvp.ApiSafety.{TextLibrary, sanitize_text}
use authclaw_mvp.Remediation.{
  RemediationRiskLevel, RemediationPlanStatus, RemediationArtifactStatus, RemediationArtifactType,
  RemediationApprovalLevel, RoleName, EventKind, Session, is_approval,
}
use authclaw_mvp.Remediation.Failure.{mfa_not_fresh}
use authclaw_mvp.Remediation.Machine.{no_context, Context, transition_plan}
use authclaw_mvp.Remediation.Machine.Transitions.{
  Moved, Approvable, transition_plan_ok, transition_plan-ApprovedBy, transition_plan-final,
}
use authclaw_mvp.Remediation.Approval.Service.{approve, request_approval, expire}
use authclaw_mvp.Remediation.Approval.Expiry.{approve_overdue}
use authclaw_mvp.Common.Tables.{update}
use authclaw_mvp.Remediation.Approval.Granting.{Approve, approve_ok}
use authclaw_mvp.Remediation.Approval.Binding.{verify_approval_binding, ApprovalVerificationResult}
use authclaw_mvp.Remediation.Approval.Binding.SingleUse.{single_use}
use authclaw_mvp.Remediation.Approval.Binding.Bound.{Verification, verify-Bound}

abbrev pub library : TextLibrary
library = record { squeeze = λ t. t; redact = λ p t. t }

abbrev validated : Session
validated = record {
  plans =
      record {
        id = 10;
        tenant_id = 1;
        risk_level = RemediationRiskLevel.high;
        provider = [];
        resource_ref = [];
        status = RemediationPlanStatus.plan_validated;
      }
      ∷ [];
  artifacts =
      record {
        id = 20;
        tenant_id = 1;
        plan_id = 10;
        artifact_type = RemediationArtifactType.documentation_only;
        content_redacted = [];
        execution_mode = codes "simulated";
        simulated_failure = false;
        artifact_hash = 100;
        status = RemediationArtifactStatus.active;
      }
      ∷ [];
  rollbacks = record { id = 25; tenant_id = 1; plan_id = 10 } ∷ [];
  checks =
      record {
        id = 30;
        tenant_id = 1;
        plan_id = 10;
        artifact_id = some 20;
        passed = true;
        required_approval_level = RemediationApprovalLevel.owner;
        policy_check_hash = 200;
        created_at = 5;
      }
      ∷ [];
  approvals = [];
  memberships = record { tenant_id = 1; user_id = 7; name = RoleName.admin } ∷ [];
  events = [];
  now = 50;
  next_id = 40;
  next_nonce = 900;
}

abbrev reason : Text
reason = codes "ok"

abbrev requested : Session
requested = (request_approval library 1 10 (some 8) reason 30 validated).1

abbrev pub granted_session : Session
granted_session = (approve library 1 40 7 reason true requested).1

abbrev used_session : Session
used_session = (verify_approval_binding 1 10 40 true true (some 7) granted_session).1

transition_plan_ok_example :
    Moved 1 10 RemediationPlanStatus.rejected no_context requested
      (transition_plan 1 10 RemediationPlanStatus.rejected none no_context requested).1
unfolding transition_plan request_approval
transition_plan_ok_example =
    transition_plan_ok 1 10 RemediationPlanStatus.rejected none no_context requested refl

approve_ok_example : Approve library 1 40 7 reason true requested granted_session
unfolding approve request_approval transition_plan sanitize_text
approve_ok_example = approve_ok library 1 40 7 reason true requested refl

verify-Bound_example : Verification 1 10 40 true (some 7) granted_session
unfolding approve request_approval transition_plan sanitize_text verify_approval_binding
verify-Bound_example = verify-Bound 1 10 40 true true (some 7) granted_session refl

abbrev granted_row_only : Session
granted_row_only = record granted_session { plans = requested.plans }

abbrev named : Context
named = record no_context { approval_id = some 40; nonce = some 900 }

transition_plan-ApprovedBy_example : Approvable 1 10 named granted_row_only
unfolding approve request_approval transition_plan sanitize_text
transition_plan-ApprovedBy_example =
    transition_plan-ApprovedBy 1 10 (some 7) named granted_row_only refl

abbrev rejected_session : Session
rejected_session = (transition_plan 1 10 RemediationPlanStatus.rejected none no_context requested).1

transition_plan-final_example :
    transition_plan 1 10 RemediationPlanStatus.approved (some 7) named rejected_session
    ≢ (ok tt, rejected_session)
unfolding transition_plan request_approval
transition_plan-final_example =
    transition_plan-final 1 10 RemediationPlanStatus.approved (some 7) named rejected_session refl
      refl

abbrev first_result : ApprovalVerificationResult
first_result = record {
  approval_id = 40;
  plan_id = 10;
  artifact_hash = 100;
  policy_check_hash = 200;
  has_envelope = true;
}

single_use_example :
    verify_approval_binding 1 10 40 false true none used_session ≢ (ok first_result, used_session)
unfolding approve request_approval transition_plan sanitize_text verify_approval_binding
single_use_example = single_use 1 10 40 10 false true true (some 7) none granted_session refl

-- A check of level `admin`: the risk asks for MFA, the level does not.
abbrev admin_level : Session
admin_level = record requested {
  checks =
      record {
        id = 30;
        tenant_id = 1;
        plan_id = 10;
        artifact_id = some 20;
        passed = true;
        required_approval_level = RemediationApprovalLevel.admin;
        policy_check_hash = 200;
        created_at = 5;
      }
      ∷ [];
}

abbrev without_mfa : Session
without_mfa = (approve library 1 40 7 reason false admin_level).1

-- It is granted without MFA, with the events of a failed challenge and of a verified one.
granted_without_mfa : (approve library 1 40 7 reason false admin_level).0 ≡ ok tt
unfolding approve request_approval transition_plan sanitize_text
granted_without_mfa = refl

events_without_mfa :
    map (λ e. e.kind) (drop 2 without_mfa.events)
    ≡ EventKind.mfa_challenge_requested ∷ EventKind.mfa_verification_failed ∷ EventKind.approved
      ∷ EventKind.approved ∷ EventKind.mfa_verified ∷ []
unfolding approve request_approval transition_plan sanitize_text
events_without_mfa = refl

-- The run is refused.
run_without_mfa :
    (verify_approval_binding 1 10 40 true true (some 7) without_mfa).0 ≡ err mfa_not_fresh
unfolding approve request_approval transition_plan sanitize_text verify_approval_binding
run_without_mfa = refl

abbrev late_session : Session
late_session = record requested { now = 5000 }

approve_overdue_example :
    ((approve library 1 40 7 reason true late_session).0 ≢ ok tt)
    × ((approve library 1 40 7 reason true late_session).1.approvals
        ≡ update (is_approval 1 40) (expire 5000) late_session.approvals)
unfolding request_approval transition_plan sanitize_text
approve_overdue_example =
    approve_overdue library 1 40 7 reason true late_session refl refl refl refl (omega arith)
