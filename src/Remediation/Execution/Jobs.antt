-- ===== src/Remediation/Execution/Jobs.antt =====
-- The jobs of RemediationExecutionService
-- (apps/api/app/services/remediation_execution_service.py): its adapters, the creation and the blocking
-- of a job, its verification, and what follows success and failure.
use authclaw_mvp.Common.{
  ℕ, suc, Bool, true, false, ◌&&◌, Option, none, some, ◌∷◌, ◌++◌, ◌==◌, if◌then◌else◌, Text, codes,
}
use authclaw_mvp.Common.Exec.{◌>>=◌, ◌>>◌, pure, gets, modify, when}
use authclaw_mvp.Common.Tables.{first, update}
use authclaw_mvp.ApiSafety.{sanitize_text}
use authclaw_mvp.Remediation.{
  RemediationPlanStatus, RemediationPlan, RemediationArtifact, EventKind, emit,
}
use authclaw_mvp.Remediation.Machine.{
  Context, no_context, find_plan, is_some, rollback_of, transition_plan,
}
use authclaw_mvp.Remediation.Approval.{bound_to}
use authclaw_mvp.Remediation.Approval.Binding.{verify_approval_for_dry_run}
use authclaw_mvp.Remediation.Execution.{
  RemediationExecutionStatus, RemediationVerificationStatus, RemediationExecutionJob,
  RemediationVerificationResult, Adapter, documentation_only, static_validation, local_noop,
  simulated_provider, Work, in_session, ExecutionLibrary, is_job, find_job, dry_run_by_id,
  find_artifact, find_bound_approval, eligibility,
}

pub record ExecutionOutcome : Type 0 where
  pub success : Bool
  pub simulated : Bool
  pub verification_summary : Text
  pub rollback_required : Bool

abbrev pub outcome_of : Bool → Bool → Text → Bool → ExecutionOutcome
outcome_of success simulated summary rollback_required = record {
  success = success;
  simulated = simulated;
  verification_summary = summary;
  rollback_required = rollback_required;
}

-- The adapters' `execute`.
unfoldable pub execute_adapter : Adapter → RemediationArtifact → ExecutionOutcome
execute_adapter documentation_only artifact =
    outcome_of true false
      (codes "Documentation-only remediation acknowledged. No external mutation was attempted.")
      false
execute_adapter static_validation artifact =
    outcome_of true false
      (codes
        "Passed static dry-run validation was recorded as controlled MVP completion. No external mutation was attempted.")
      false
execute_adapter local_noop artifact =
    outcome_of true false
      (codes
        "Local no-op execution completed. Only AuthClaw job and verification rows were updated.")
      false
execute_adapter simulated_provider artifact =
    if artifact.simulated_failure
    then outcome_of false true
        (codes
          "Simulated provider execution failed by configured test input. No external provider was called.")
        true
    else outcome_of true true
        (codes
          "Simulated provider execution succeeded. No external provider was called and no resources were mutated.")
        false

abbrev pub adapter_name : Adapter → Text
adapter_name documentation_only = codes "documentation_only"
adapter_name static_validation = codes "static_validation"
adapter_name local_noop = codes "local_noop"
adapter_name simulated_provider = codes "simulated_provider"

-- EXECUTION_ENABLED_CONTEXT
abbrev pub execution_enabled_context : Context
execution_enabled_context = record no_context { execution_enabled = true }

abbrev pub move_plan : ℕ → ℕ → RemediationPlanStatus → Work (Unit {0})
move_plan tenant plan_id next =
    in_session (transition_plan tenant plan_id next none execution_enabled_context)

-- An event of a job, of which the plan and the actor are kept.
abbrev pub emit_job : EventKind → ℕ → Option ℕ → Work (Unit {0})
emit_job kind plan_id actor =
    in_session
      (emit (record { kind = kind; plan_id = plan_id; approval_id = none; actor_id = actor }))

abbrev pub set_job :
    RemediationExecutionJob → (RemediationExecutionJob → RemediationExecutionJob) → Work (Unit {0})
set_job job f = modify (λ w. record w { jobs = update (is_job job.tenant_id job.id) f w.jobs })

abbrev pub with_status :
    RemediationExecutionStatus → RemediationExecutionJob → RemediationExecutionJob
with_status status job = record job { status = status }

abbrev pub started : ℕ → RemediationExecutionJob → RemediationExecutionJob
started now job = record job {
  status = RemediationExecutionStatus.executing;
  started_at = some now;
}

abbrev pub completed :
    ℕ → RemediationExecutionStatus → RemediationExecutionJob → RemediationExecutionJob
completed now status job = record job { status = status; completed_at = some now }

unfoldable pub next_id : Work ℕ
next_id = do
  id ← gets (λ w. w.session.next_id)
  in_session (modify (λ s. record s { next_id = suc s.next_id }))
  pure id

abbrev pub add_job : RemediationExecutionJob → Work (Unit {0})
add_job job = modify (λ w. record w { jobs = job ∷ w.jobs })

abbrev pub add_verification : RemediationVerificationResult → Work (Unit {0})
add_verification v = modify (λ w. record w { verifications = v ∷ w.verifications })

unfoldable pub create_execution_job :
    ExecutionLibrary → ℕ → ℕ → ℕ → ℕ → Option ℕ → Work RemediationExecutionJob
unfolding eligibility next_id
create_execution_job lib tenant plan_id artifact_id approval_id actor = do
  plan ← in_session (find_plan tenant plan_id)
  artifact ← find_artifact tenant plan.id artifact_id
  approval ← find_bound_approval tenant plan.id (some approval_id)
  eligible ← eligibility lib tenant plan artifact approval
  verification ← in_session (verify_approval_for_dry_run tenant plan.id approval.id actor)
  id ← next_id
  let job : RemediationExecutionJob = record {
    id = id;
    tenant_id = tenant;
    plan_id = plan.id;
    approval_id = some approval.id;
    dry_run_result_id = some eligible.dry_run.id;
    status = RemediationExecutionStatus.queued;
    started_at = none;
    completed_at = none;
    disabled_reason =
        codes "Controlled Phase 8 execution queued with "
        ++ adapter_name eligible.adapter
        ++ codes " adapter.";
  }
  add_job job
  emit_job EventKind.execution_queued plan.id actor
  pure job

abbrev pub job_succeeded : RemediationExecutionStatus → Bool
job_succeeded RemediationExecutionStatus.succeeded = true
job_succeeded _ = false

abbrev pub plan_succeeded : RemediationPlanStatus → Bool
plan_succeeded RemediationPlanStatus.succeeded = true
plan_succeeded _ = false

abbrev pub success_of : Option ExecutionOutcome → RemediationExecutionStatus → Bool
success_of none status = job_succeeded status
success_of (some outcome) status = outcome.success

abbrev pub summary_of : Option ExecutionOutcome → Text
summary_of none =
    codes
      "Controlled execution verification recorded from current job state. No external mutation was attempted."
summary_of (some outcome) = outcome.verification_summary

-- The row that `verify_execution` adds.
abbrev pub new_verification :
    ExecutionLibrary
    → ℕ
    → RemediationExecutionJob
    → RemediationPlan
    → Option ExecutionOutcome
    → ℕ
    → RemediationVerificationResult
new_verification lib tenant job plan outcome id = record {
  id = id;
  tenant_id = tenant;
  plan_id = plan.id;
  job_id = some job.id;
  verified = success_of outcome job.status;
  verification_summary = sanitize_text lib.text (summary_of outcome);
  status =
      if success_of outcome job.status
      then RemediationVerificationStatus.verified
      else RemediationVerificationStatus.failed;
}

abbrev pub verify_plan : ℕ → RemediationPlan → Work (Unit {0})
verify_plan tenant plan =
    move_plan tenant plan.id RemediationPlanStatus.verified
    >> emit_job EventKind.execution_verified plan.id none

-- `verify_execution` for a job that has no verification yet.
unfoldable pub record_verification :
    ExecutionLibrary
    → ℕ
    → RemediationExecutionJob
    → RemediationPlan
    → Option ExecutionOutcome
    → Work RemediationVerificationResult
unfolding next_id
record_verification lib tenant job plan outcome = do
  id ← next_id
  add_verification (new_verification lib tenant job plan outcome id)
  when (success_of outcome job.status && plan_succeeded plan.status) (verify_plan tenant plan)
  pure (new_verification lib tenant job plan outcome id)

unfoldable pub verify_unless_found :
    ExecutionLibrary
    → ℕ
    → RemediationExecutionJob
    → RemediationPlan
    → Option ExecutionOutcome
    → Option RemediationVerificationResult
    → Work RemediationVerificationResult
unfolding record_verification
verify_unless_found lib tenant job plan outcome none =
    record_verification lib tenant job plan outcome
verify_unless_found lib tenant job plan outcome (some existing) = pure existing

unfoldable pub verify_execution :
    ExecutionLibrary → ℕ → ℕ → Option ExecutionOutcome → Work RemediationVerificationResult
unfolding verify_unless_found
verify_execution lib tenant job_id outcome = do
  job ← find_job tenant job_id
  plan ← in_session (find_plan tenant job.plan_id)
  dry_run ← dry_run_by_id tenant job.dry_run_result_id
  existing ←
      gets (λ w. first (λ v. v.tenant_id == tenant && bound_to v.job_id job.id) w.verifications)
  verify_unless_found lib tenant job plan outcome existing

unfoldable pub after_success :
    ExecutionLibrary
    → ℕ
    → RemediationExecutionJob
    → RemediationPlan
    → ExecutionOutcome
    → Work RemediationVerificationResult
unfolding verify_execution
after_success lib tenant job plan outcome = do
  now ← gets (λ w. w.session.now)
  set_job job (completed now RemediationExecutionStatus.succeeded)
  move_plan tenant plan.id RemediationPlanStatus.succeeded
  emit_job EventKind.execution_succeeded plan.id none
  verify_execution lib tenant job.id (some outcome)

abbrev pub require_rollback : ℕ → RemediationExecutionJob → RemediationPlan → Work (Unit {0})
require_rollback tenant job plan = do
  set_job job (with_status RemediationExecutionStatus.rollback_required)
  move_plan tenant plan.id RemediationPlanStatus.rollback_required
  emit_job EventKind.rollback_required plan.id none

unfoldable pub after_failure :
    ExecutionLibrary
    → ℕ
    → RemediationExecutionJob
    → RemediationPlan
    → ExecutionOutcome
    → Work RemediationVerificationResult
unfolding verify_execution
after_failure lib tenant job plan outcome = do
  now ← gets (λ w. w.session.now)
  set_job job (completed now RemediationExecutionStatus.failed)
  move_plan tenant plan.id RemediationPlanStatus.failed
  emit_job EventKind.execution_failed plan.id none
  verification ← verify_execution lib tenant job.id (some outcome)
  rollback ← gets (λ w. first (rollback_of plan) w.session.rollbacks)
  when (outcome.rollback_required && is_some rollback) (require_rollback tenant job plan)
  pure verification

-- `block_execution`
unfoldable pub block_execution : ExecutionLibrary → ℕ → ℕ → Text → Work RemediationExecutionJob
unfolding next_id
block_execution lib tenant plan_id reason = do
  plan ← in_session (find_plan tenant plan_id)
  id ← next_id
  let job : RemediationExecutionJob = record {
    id = id;
    tenant_id = tenant;
    plan_id = plan.id;
    approval_id = none;
    dry_run_result_id = none;
    status = RemediationExecutionStatus.disabled;
    started_at = none;
    completed_at = none;
    disabled_reason = sanitize_text lib.text reason;
  }
  add_job job
  emit_job EventKind.execution_blocked plan.id none
  pure job
