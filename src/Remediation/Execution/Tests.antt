-- ===== src/Remediation/Execution/Tests.antt =====
-- A run of a job, from an approval that was granted.
use authclaw_mvp.Common.{
  ◌≡◌, ◌≢◌, refl, Bool, true, false, Option, none, some, List, [], ◌∷◌, codes, Result, ok, err,
  arith, ◌+◌,
}
use authclaw_mvp.Common.Tables.{first}
use authclaw_mvp.ApiSafety.{sanitize_text}
use authclaw_mvp.RateLimit.{free}
use authclaw_mvp.RateLimit.Limiter.{acquire_remediation_job, release_remediation_job}
use authclaw_mvp.Remediation.{
  RemediationPlanStatus, RemediationRiskLevel, RemediationArtifactType, RemediationArtifactStatus,
  RemediationApprovalStatus, RemediationPlan, RemediationArtifact, RemediationApproval,
}
use authclaw_mvp.Remediation.Machine.{transition_plan}
use authclaw_mvp.Remediation.Approval.Service.{approve, request_approval}
use authclaw_mvp.Remediation.Approval.Binding.{verify_approval_binding}
use authclaw_mvp.Remediation.Tests.{library, granted_session}
use authclaw_mvp.Remediation.WorkerToken.{
  WorkerTokenScope, TokenStore, issue_token, validate_token, issued,
}
use authclaw_mvp.Remediation.WorkerToken.OneTime.{issue-validate, validate_token-once, consumed}
use authclaw_mvp.Remediation.Execution.{
  RemediationExecutionStatus, RemediationDryRunStatus, RemediationVerificationStatus,
  ExecutionFailure, mutation_blocked, terraform_apply, RemediationExecutionJob,
  RemediationDryRunResult, RemediationVerificationResult, simulated_provider, World, is_job,
  ExecutionLibrary, eligible_for, eligibility,
}
use authclaw_mvp.Remediation.Execution.Run.{execute_job}
use authclaw_mvp.Remediation.Execution.Run.Slot.{SlotReturned, execute_job-SlotReturned}
use authclaw_mvp.Remediation.Execution.Run.Once.{execute_job-once}
use authclaw_mvp.Remediation.Execution.Run.Eligible.{Eligible, eligibility-Eligible}

abbrev tools : ExecutionLibrary
tools = record {
  text = library;
  strip_lower = λ t. t;
  search = λ p t. false;
  sandbox_succeeds = λ a. true;
  limits_for_tenant = λ t. free;
  digest = λ n. n + 1000;
  ttl_seconds = 60;
}

abbrev queued_job : RemediationExecutionJob
queued_job = record {
  id = 60;
  tenant_id = 1;
  plan_id = 10;
  approval_id = some 40;
  dry_run_result_id = some 70;
  status = RemediationExecutionStatus.queued;
  started_at = none;
  completed_at = none;
  disabled_reason = [];
}

abbrev passed : RemediationDryRunResult
passed = record {
  id = 70;
  tenant_id = 1;
  plan_id = 10;
  artifact_id = 20;
  approval_id = some 40;
  status = RemediationDryRunStatus.succeeded;
  blocking_reasons = [];
  completed_at = some 49;
  created_at = 48;
}

ready : World
ready = record {
  session = granted_session;
  jobs = queued_job ∷ [];
  dry_runs = passed ∷ [];
  verifications = [];
  tokens = record { records = λ h. none; now = 0; next_token = 3 };
  redis = record { counters = λ k. none; deadlines = λ k. none; now = 0; faults = [] };
}

abbrev status_of : List RemediationExecutionJob → Option RemediationExecutionStatus
status_of [] = none
status_of (j ∷ js) = some j.status

is_returned : {E A : Type 0} → Result E A → Bool
is_returned (ok a) = true
is_returned (err e) = false

runs : is_returned (execute_job tools 1 60 (some 7) ready).0 ≡ true
unfolding ready execute_job approve request_approval transition_plan sanitize_text
    verify_approval_binding eligibility acquire_remediation_job release_remediation_job is_returned
    issue_token validate_token
runs = refl

ran : World
unfolding ready
ran = (execute_job tools 1 60 (some 7) ready).1

-- The job has succeeded, and no slot of the limiter is held.
ran_status : status_of ran.jobs ≡ some RemediationExecutionStatus.succeeded
unfolding ready ran execute_job approve request_approval transition_plan sanitize_text
    verify_approval_binding eligibility acquire_remediation_job release_remediation_job issue_token
    validate_token
ran_status = refl

abbrev any_result : RemediationVerificationResult
any_result = record {
  id = 0;
  tenant_id = 1;
  plan_id = 10;
  job_id = none;
  verified = true;
  verification_summary = [];
  status = RemediationVerificationStatus.verified;
}

abbrev result_of :
    Result ExecutionFailure RemediationVerificationResult → RemediationVerificationResult
result_of (ok r) = r
result_of (err e) = any_result

first_result : RemediationVerificationResult
unfolding ready
first_result = result_of (execute_job tools 1 60 (some 7) ready).0

returns :
    (r : Result ExecutionFailure RemediationVerificationResult)
    → is_returned r ≡ true
    → r ≡ ok (result_of r)
unfolding is_returned
returns (ok a) h = refl
returns (err e) h = absurd (ground arith)

first_run : execute_job tools 1 60 (some 7) ready ≡ (ok first_result, ran)
unfolding first_result ran
first_run = λ i. (
  returns (execute_job tools 1 60 (some 7) ready).0 runs i,
  (execute_job tools 1 60 (some 7) ready).1,
)

abbrev finished : RemediationExecutionJob
finished = record queued_job {
  status = RemediationExecutionStatus.succeeded;
  started_at = some 50;
  completed_at = some 50;
}

finds_queued : first (is_job 1 60) ready.jobs ≡ some queued_job
unfolding ready
finds_queued = refl

finds_finished : first (is_job 1 60) ran.jobs ≡ some finished
unfolding ready ran execute_job approve request_approval transition_plan sanitize_text
    verify_approval_binding eligibility acquire_remediation_job release_remediation_job issue_token
    validate_token
finds_finished = refl

execute_job-once_example : execute_job tools 1 60 none ran ≢ (ok any_result, ran)
execute_job-once_example =
    execute_job-once tools 1 60 60 (some 7) none ready first_run finds_queued finds_finished refl

execute_job-SlotReturned_example :
    SlotReturned tools 1 ready.redis (execute_job tools 1 60 (some 7) ready).1
execute_job-SlotReturned_example = execute_job-SlotReturned tools 1 60 (some 7) ready

abbrev plan_of : List RemediationPlan → Option RemediationPlan
plan_of [] = none
plan_of (p ∷ ps) = some p

abbrev plan : RemediationPlan
plan = record {
  id = 10;
  tenant_id = 1;
  risk_level = RemediationRiskLevel.high;
  provider = [];
  resource_ref = [];
  status = RemediationPlanStatus.approved;
}

abbrev artifact : RemediationArtifact
artifact = record {
  id = 20;
  tenant_id = 1;
  plan_id = 10;
  artifact_type = RemediationArtifactType.documentation_only;
  content_redacted = [];
  execution_mode = codes "simulated";
  simulated_failure = false;
  artifact_hash = 100;
  status = RemediationArtifactStatus.active;
}

abbrev approval : RemediationApproval
approval = record {
  id = 40;
  tenant_id = 1;
  plan_id = 10;
  artifact_hash = 100;
  policy_check_hash = 200;
  requested_by = some 8;
  approved_by = some 7;
  status = RemediationApprovalStatus.approved;
  expires_at = 1850;
  resolved_at = some 50;
  mfa_verified = true;
  nonce = 900;
  approval_reason = codes "ok";
}

eligibility-Eligible_example :
    Eligible tools 1 plan artifact approval (eligible_for simulated_provider passed)
unfolding ready approve request_approval transition_plan sanitize_text verify_approval_binding
    eligibility
eligibility-Eligible_example = eligibility-Eligible tools 1 plan artifact approval ready refl

-- An artifact with a forbidden command does not run.
abbrev strict : ExecutionLibrary
strict = record tools { search = λ p t. true }

forbidden : (execute_job strict 1 60 (some 7) ready).0 ≡ err (mutation_blocked terraform_apply)
unfolding ready execute_job approve request_approval transition_plan sanitize_text
    verify_approval_binding eligibility
forbidden = refl

abbrev scope : WorkerTokenScope
scope = record {
  tenant_id = 1;
  worker_type = codes "w";
  job_id = some 60;
  action_type = codes "a";
  provider_scope = none;
  resource_scope = none;
  one_time = true;
}

abbrev empty : TokenStore
empty = record { records = λ h. none; now = 10; next_token = 3 }

issue-validate_example :
    ((issue_token tools.digest 60 scope empty).0 ≡ ok 3)
    × ((validate_token tools.digest 60 3 scope true
          (record (issue_token tools.digest 60 scope empty).1 { now = 20 })).0
        ≡ ok (consumed true 20 (issued tools.digest 60 scope 3 10)))
issue-validate_example = issue-validate tools.digest 60 scope true empty 20 (omega arith)

abbrev with_token : TokenStore
with_token = (issue_token tools.digest 60 scope empty).1

abbrev after_use : TokenStore
after_use = (validate_token tools.digest 60 3 scope true with_token).1

validate_token-once_example :
    validate_token tools.digest 60 3 scope false after_use
    ≢ (ok (issued tools.digest 60 scope 3 10), after_use)
unfolding issue_token validate_token
validate_token-once_example =
    validate_token-once tools.digest 60 3 scope scope false with_token refl refl refl
