-- ===== src/Remediation/Execution/Run.antt =====
-- `execute_job` of RemediationExecutionService
-- (apps/api/app/services/remediation_execution_service.py).
pub mod Effects
pub mod Slot
pub mod Once
pub mod Eligible
use authclaw_mvp.Common.{
  ℕ, suc, Bool, true, false, not, ◌&&◌, Option, none, some, List, [], ◌∷◌, ◌++◌, ◌==◌,
  if◌then◌else◌, Text, codes, Result, ok, err,
}
use authclaw_mvp.Common.Exec.{Exec, ◌>>=◌, ◌>>◌, pure, gets, modify, check, when}
use authclaw_mvp.Common.Tables.{first, update}
use authclaw_mvp.ApiSafety.{sanitize_text}
use authclaw_mvp.RateLimit.Limiter.{LimitDecision, acquire_remediation_job, release_remediation_job}
use authclaw_mvp.Remediation.{
  RemediationPlanStatus, RemediationPlan, RemediationArtifact, Session, Action, EventKind, Event,
  emit,
}
use authclaw_mvp.Remediation.Machine.{
  Context, no_context, find_plan, is_some, rollback_of, transition_plan,
}
use authclaw_mvp.Remediation.Approval.{bound_to, is_plan_approved}
use authclaw_mvp.Remediation.Approval.Binding.{
  ApprovalVerificationResult, verify_approval_binding, verify_approval_for_dry_run,
  verify_approval_for_controlled_execution_start,
}
use authclaw_mvp.Remediation.WorkerToken.{WorkerTokenScope, issue_token, validate_token}
use authclaw_mvp.Remediation.Execution.{
  RemediationExecutionStatus, RemediationVerificationStatus, RemediationExecutionJob,
  RemediationDryRunResult, RemediationVerificationResult, Adapter, documentation_only,
  static_validation, local_noop, simulated_provider, ExecutionFailure, limited,
  artifact_hash_mismatch, plan_not_approved, World, Work, in_session, in_tokens, ExecutionLibrary,
  is_job, find_job, dry_run_by_id, find_artifact, find_bound_approval, ExecutionEligibility,
  eligibility,
}
use authclaw_mvp.Remediation.Execution.Jobs.{
  ExecutionOutcome, outcome_of, execute_adapter, adapter_name, execution_enabled_context, move_plan,
  emit_job, set_job, with_status, started, completed, next_id, add_job, add_verification,
  create_execution_job, job_succeeded, plan_succeeded, success_of, summary_of, new_verification,
  verify_plan, record_verification, verify_unless_found, verify_execution, after_success,
  require_rollback, after_failure, block_execution,
}

-- The body of `try` in `execute_job`.
pub run_job :
    ExecutionLibrary
    → ℕ
    → RemediationExecutionJob
    → RemediationPlan
    → RemediationArtifact
    → Adapter
    → Work RemediationVerificationResult
unfolding after_success after_failure execute_adapter
run_job lib tenant job plan artifact adapter = do
  move_plan tenant plan.id RemediationPlanStatus.queued_for_execution
  now ← gets (λ w. w.session.now)
  set_job job (started now)
  move_plan tenant plan.id RemediationPlanStatus.executing
  emit_job EventKind.execution_started plan.id none
  let outcome = execute_adapter adapter artifact
  if outcome.success
      then after_success lib tenant job plan outcome
      else after_failure lib tenant job plan outcome

-- `acquire_remediation_job`
pub acquire_slot : ExecutionLibrary → ℕ → Work LimitDecision
acquire_slot lib tenant w =
    let (decision, redis) = acquire_remediation_job (lib.limits_for_tenant tenant) tenant w.redis in
    (ok decision, record w { redis = redis })

-- `try: body finally: release_remediation_job`
pub with_slot : {A : Type 0} → ℕ → Work A → Work A
with_slot tenant body w =
    let (r, w') = body w in (r, record w' { redis = release_remediation_job tenant w'.redis })

abbrev pub text_or_none : Text → Option Text
text_or_none [] = none
text_or_none (c ∷ cs) = some (c ∷ cs)

-- `_worker_token_scope`
abbrev pub worker_token_scope :
    ExecutionLibrary → ℕ → ℕ → Adapter → RemediationPlan → WorkerTokenScope
worker_token_scope lib tenant job_id adapter plan = record {
  tenant_id = tenant;
  worker_type = codes "remediation_execution";
  job_id = some job_id;
  action_type = adapter_name adapter;
  provider_scope = text_or_none (sanitize_text lib.text plan.provider);
  resource_scope = text_or_none (sanitize_text lib.text plan.resource_ref);
  one_time = true;
}

-- `execute_job` from the limiter on.
pub limited_run :
    ExecutionLibrary
    → ℕ
    → RemediationExecutionJob
    → RemediationPlan
    → RemediationArtifact
    → Adapter
    → Work RemediationVerificationResult
unfolding acquire_slot with_slot run_job
limited_run lib tenant job plan artifact adapter = do
  decision ← acquire_slot lib tenant
  check decision.allowed (limited decision)
  with_slot tenant (run_job lib tenant job plan artifact adapter)

-- `execute_job` behind the consumption of the approval. The plan is read again for its status, as the
-- session's one object for the row.
pub start_run :
    ExecutionLibrary
    → ℕ
    → RemediationExecutionJob
    → RemediationPlan
    → RemediationArtifact
    → Adapter
    → ApprovalVerificationResult
    → Work RemediationVerificationResult
unfolding limited_run
start_run lib tenant job plan artifact adapter verification = do
  check (verification.artifact_hash == artifact.artifact_hash) artifact_hash_mismatch
  current ← in_session (find_plan tenant plan.id)
  check (is_plan_approved current.status) plan_not_approved
  let scope = worker_token_scope lib tenant job.id adapter plan
  raw ← in_tokens (issue_token lib.digest lib.ttl_seconds scope)
  token ← in_tokens (validate_token lib.digest lib.ttl_seconds raw scope true)
  limited_run lib tenant job plan artifact adapter

-- `execute_job` for the job that was read.
pub execute_found :
    ExecutionLibrary → ℕ → RemediationExecutionJob → Option ℕ → Work RemediationVerificationResult
unfolding eligibility start_run
execute_found lib tenant job actor = do
  dry_run ← dry_run_by_id tenant job.dry_run_result_id
  plan ← in_session (find_plan tenant job.plan_id)
  artifact ← find_artifact tenant plan.id dry_run.artifact_id
  approval ← find_bound_approval tenant plan.id job.approval_id
  eligible ← eligibility lib tenant plan artifact approval
  verification ←
      in_session (verify_approval_for_controlled_execution_start tenant plan.id approval.id actor)
  start_run lib tenant job plan artifact eligible.adapter verification

unfoldable pub execute_job :
    ExecutionLibrary → ℕ → ℕ → Option ℕ → Work RemediationVerificationResult
unfolding execute_found
execute_job lib tenant job_id actor = do
  job ← find_job tenant job_id
  execute_found lib tenant job actor
