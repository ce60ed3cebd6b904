-- ===== src/Remediation/Execution.antt =====
-- RemediationExecutionService of apps/api/app/services/remediation_execution_service.py: its rows
-- (apps/api/app/models/remediation.py), its reads and its test of eligibility. The service's calls of
-- `re`, of `str` methods, of the tenant's limits and of the sandbox are fields of `ExecutionLibrary`.
pub mod Jobs
pub mod Run
mod Tests
use authclaw_mvp.Common.{
  ℕ, suc, Bool, true, false, not, ◌&&◌, ◌||◌, Option, none, some, List, [], ◌∷◌, ltb, ◌==◌,
  if◌then◌else◌, Text, codes, Result, ok, err,
}
use authclaw_mvp.Common.Exec.{Exec, ◌>>=◌, ◌>>◌, pure, raise, gets, modify, check}
use authclaw_mvp.Common.Tables.{first, select}
use authclaw_mvp.Common.Texts.{same_text, lookup}
use authclaw_mvp.ApiSafety.{TextLibrary, sanitize_text}
use authclaw_mvp.RateLimit.{TenantPlanLimits}
use authclaw_mvp.RateLimit.Redis.{Redis}
use authclaw_mvp.RateLimit.Limiter.{LimitDecision}
use authclaw_mvp.Remediation.{
  RemediationRiskLevel, RemediationPlanStatus, RemediationArtifactType, RemediationPlan,
  RemediationArtifact, RemediationPolicyCheck, RemediationApproval, Session, Failure, Action,
  is_plan,
}
use authclaw_mvp.Remediation.Machine.{find_plan, approval_of}
use authclaw_mvp.Remediation.Approval.{artifact_of_id, policy_check_by_hash, bound_to}
use authclaw_mvp.Remediation.Approval.Binding.{
  ApprovalVerificationResult, verify_approval_binding, verify_approval_for_dry_run,
}
use authclaw_mvp.Remediation.WorkerToken.{TokenStore, TokenFailure, TokenAction}

pub data RemediationExecutionStatus : Type 0 where
  disabled queued dry_run_requested dry_run_succeeded dry_run_failed : RemediationExecutionStatus
  executing succeeded failed rollback_required rolled_back : RemediationExecutionStatus

pub data RemediationDryRunStatus : Type 0 where
  queued running succeeded failed rejected : RemediationDryRunStatus

pub data RemediationVerificationStatus : Type 0 where
  pending verified failed inconclusive : RemediationVerificationStatus

pub record RemediationExecutionJob : Type 0 where
  pub id : ℕ
  pub tenant_id : ℕ
  pub plan_id : ℕ
  pub approval_id : Option ℕ
  pub dry_run_result_id : Option ℕ
  pub status : RemediationExecutionStatus
  pub started_at : Option ℕ
  pub completed_at : Option ℕ
  pub disabled_reason : Text

pub record RemediationDryRunResult : Type 0 where
  pub id : ℕ
  pub tenant_id : ℕ
  pub plan_id : ℕ
  pub artifact_id : ℕ
  pub approval_id : Option ℕ
  pub status : RemediationDryRunStatus
  pub blocking_reasons : List Text
  pub completed_at : Option ℕ
  pub created_at : ℕ

pub record RemediationVerificationResult : Type 0 where
  pub id : ℕ
  pub tenant_id : ℕ
  pub plan_id : ℕ
  pub job_id : Option ℕ
  pub verified : Bool
  pub verification_summary : Text
  pub status : RemediationVerificationStatus

-- MUTATION_OR_PROCESS_PATTERNS, in order.
pub data MutationPattern : Type 0 where
  terraform_apply terraform_destroy aws_mutation github_mutation gcp_mutation : MutationPattern
  shell_wrapper process_execution pipe_to_shell : MutationPattern

abbrev pub mutation_patterns : List MutationPattern
mutation_patterns =
    terraform_apply ∷ terraform_destroy ∷ aws_mutation ∷ github_mutation ∷ gcp_mutation
    ∷ shell_wrapper ∷ process_execution ∷ pipe_to_shell ∷ []

-- The keys of ADAPTERS.
pub data Adapter : Type 0 where
  documentation_only static_validation local_noop simulated_provider : Adapter

pub data ExecutionFailure : Type 0 where
  workflow : Failure → ExecutionFailure
  token : TokenFailure → ExecutionFailure
  limited : LimitDecision → ExecutionFailure
  mutation_blocked : MutationPattern → ExecutionFailure
  job_not_found dry_run_missing dry_run_not_found artifact_not_found : ExecutionFailure
  approval_required approval_not_found tenant_mismatch other_plan plan_not_approved :
      ExecutionFailure
  artifact_hash_mismatch check_mismatch dry_run_required dry_run_blocked : ExecutionFailure
  adapter_not_allowed artifact_not_eligible risk_not_allowed secret_content sandbox_blocked :
      ExecutionFailure

-- What the service works on; the identifiers of new rows are the session's.
pub record World : Type 0 where
  pub session : Session
  pub jobs : List RemediationExecutionJob
  pub dry_runs : List RemediationDryRunResult
  pub verifications : List RemediationVerificationResult
  pub tokens : TokenStore
  pub redis : Redis

abbrev pub Work : Type 0 → Type 0
Work = Exec World ExecutionFailure

abbrev pub map_error :
    {E A : Type 0} → (E → ExecutionFailure) → Result E A → Result ExecutionFailure A
map_error f (ok a) = ok a
map_error f (err e) = err (f e)

abbrev pub in_session : {A : Type 0} → Action A → Work A
in_session m w = let (r, s) = m w.session in (map_error workflow r, record w { session = s })

-- The tokens' clock is the session's.
abbrev pub in_tokens : {A : Type 0} → TokenAction A → Work A
in_tokens m w =
    let (r, s) = m (record w.tokens { now = w.session.now }) in
    (map_error token r, record w { tokens = s })

abbrev pub require : {A : Type 0} → ExecutionFailure → Option A → Work A
require e none = raise e
require e (some a) = pure a

pub record ExecutionLibrary : Type 0 where
  pub text : TextLibrary
  -- `s.strip().lower()`
  pub strip_lower : Text → Text
  -- `pattern.search(raw)`
  pub search : MutationPattern → Text → Bool
  -- `sandbox_service.validate_artifact(artifact).status == succeeded`
  pub sandbox_succeeds : RemediationArtifact → Bool
  pub limits_for_tenant : ℕ → TenantPlanLimits
  pub digest : ℕ → ℕ
  pub ttl_seconds : ℕ

abbrev pub is_job : ℕ → ℕ → RemediationExecutionJob → Bool
is_job tenant id job = job.tenant_id == tenant && job.id == id

-- `_job`
abbrev pub find_job : ℕ → ℕ → Work RemediationExecutionJob
find_job tenant id = do
  found ← gets (λ w. first (is_job tenant id) w.jobs)
  require job_not_found found

-- `_dry_run_by_id`
abbrev pub dry_run_by_id : ℕ → Option ℕ → Work RemediationDryRunResult
dry_run_by_id tenant none = raise dry_run_missing
dry_run_by_id tenant (some id) = do
  found ← gets (λ w. first (λ d. d.tenant_id == tenant && d.id == id) w.dry_runs)
  require dry_run_not_found found

-- `_artifact`
abbrev pub find_artifact : ℕ → ℕ → ℕ → Work RemediationArtifact
find_artifact tenant plan_id id = do
  found ← gets (λ w.
      first (λ a. a.tenant_id == tenant && a.plan_id == plan_id && a.id == id) w.session.artifacts)
  require artifact_not_found found

-- `_approval`
abbrev pub find_bound_approval : ℕ → ℕ → Option ℕ → Work RemediationApproval
find_bound_approval tenant plan_id none = raise approval_required
find_bound_approval tenant plan_id (some id) = do
  found ← gets (λ w.
      first (λ a. a.tenant_id == tenant && a.plan_id == plan_id && a.id == id) w.session.approvals)
  require approval_not_found found

-- Whether the first time comes after the second in descending order, with `tie` for equal ones; a
-- missing time comes first.
abbrev pub earlier_time : Option ℕ → Option ℕ → Bool → Bool
earlier_time none none tie = tie
earlier_time none (some b) tie = false
earlier_time (some a) none tie = true
earlier_time (some a) (some b) tie = ltb a b || (a == b && tie)

-- `order_by(desc(completed_at), desc(created_at))`
abbrev pub earlier_run : RemediationDryRunResult → RemediationDryRunResult → Bool
earlier_run a b = earlier_time a.completed_at b.completed_at (ltb a.created_at b.created_at)

abbrev pub first_run :
    RemediationDryRunResult → Option RemediationDryRunResult → Option RemediationDryRunResult
first_run a none = some a
first_run a (some b) = if earlier_run a b then some b else some a

abbrev pub latest_run : List RemediationDryRunResult → Option RemediationDryRunResult
latest_run [] = none
latest_run (d ∷ ds) = first_run d (latest_run ds)

abbrev pub is_passed : RemediationDryRunStatus → Bool
is_passed RemediationDryRunStatus.succeeded = true
is_passed _ = false

-- `_latest_passed_dry_run`
abbrev pub latest_passed_dry_run : ℕ → ℕ → ℕ → ℕ → World → Option RemediationDryRunResult
latest_passed_dry_run tenant plan_id artifact_id approval_id w = latest_run (
    select
      (λ d.
        d.tenant_id == tenant
        && d.plan_id == plan_id
        && d.artifact_id == artifact_id
        && bound_to d.approval_id approval_id
        && is_passed d.status)
      w.dry_runs)

abbrev pub may_execute : RemediationPlanStatus → Bool
may_execute RemediationPlanStatus.approved = true
may_execute RemediationPlanStatus.queued_for_execution = true
may_execute _ = false

abbrev pub is_nonempty : {A : Type 0} → List A → Bool
is_nonempty [] = false
is_nonempty (x ∷ xs) = true

-- The aliases of `_adapter_type`.
abbrev pub aliases : List (Text × Adapter)
aliases =
    (codes "simulated", simulated_provider)
    ∷ (codes "simulate", simulated_provider)
    ∷ (codes "simulated_provider", simulated_provider)
    ∷ (codes "static", static_validation)
    ∷ (codes "static_validation", static_validation)
    ∷ (codes "noop", local_noop)
    ∷ (codes "local_noop", local_noop)
    ∷ (codes "documentation_only", documentation_only)
    ∷ []

abbrev pub default_adapter : RemediationArtifactType → Work Adapter
default_adapter RemediationArtifactType.documentation_only = pure documentation_only
default_adapter _ = raise artifact_not_eligible

-- `_adapter_type`
pub adapter_type : ExecutionLibrary → RemediationArtifact → Work Adapter
adapter_type lib artifact =
    let requested = lib.strip_lower artifact.execution_mode in
    if is_nonempty requested
    then require adapter_not_allowed (lookup requested aliases)
    else default_adapter artifact.artifact_type

abbrev pub is_simulated : Adapter → Bool
is_simulated simulated_provider = true
is_simulated _ = false

-- LOW_RISK_ALLOWED; SIMULATED_RISK_ALLOWED has every level.
abbrev pub is_low_risk : RemediationRiskLevel → Bool
is_low_risk RemediationRiskLevel.low = true
is_low_risk RemediationRiskLevel.medium = true
is_low_risk _ = false

pub block_mutations : ExecutionLibrary → List MutationPattern → Text → Work (Unit {0})
block_mutations lib [] raw = pure tt
block_mutations lib (p ∷ ps) raw =
    check (not (lib.search p raw)) (mutation_blocked p) >> block_mutations lib ps raw

-- `_block_secret_or_mutation_content`
pub block_secret_or_mutation_content : ExecutionLibrary → RemediationArtifact → Work (Unit {0})
unfolding block_mutations
block_secret_or_mutation_content lib artifact = do
  check
      (same_text (sanitize_text lib.text artifact.content_redacted)
        (lib.text.squeeze artifact.content_redacted))
      secret_content
  block_mutations lib mutation_patterns artifact.content_redacted

pub record ExecutionEligibility : Type 0 where
  pub adapter : Adapter
  pub simulated : Bool
  pub dry_run : RemediationDryRunResult

abbrev pub check_matches : Option RemediationPolicyCheck → ℕ → Bool
check_matches none id = false
check_matches (some c) id = bound_to c.artifact_id id && c.passed

abbrev pub eligible_for : Adapter → RemediationDryRunResult → ExecutionEligibility
eligible_for adapter dry_run = record {
  adapter = adapter;
  simulated = is_simulated adapter;
  dry_run = dry_run;
}

-- `_eligibility` behind the verification of the approval.
pub eligible_content :
    ExecutionLibrary
    → RemediationPlan
    → RemediationArtifact
    → RemediationDryRunResult
    → Work ExecutionEligibility
unfolding adapter_type block_secret_or_mutation_content
eligible_content lib plan artifact dry_run = do
  check (not (is_nonempty dry_run.blocking_reasons)) dry_run_blocked
  adapter ← adapter_type lib artifact
  check (is_simulated adapter || is_low_risk plan.risk_level) risk_not_allowed
  block_secret_or_mutation_content lib artifact
  check (lib.sandbox_succeeds artifact) sandbox_blocked
  pure (eligible_for adapter dry_run)

pub eligible_verified :
    ExecutionLibrary
    → ℕ
    → RemediationPlan
    → RemediationArtifact
    → RemediationApproval
    → ApprovalVerificationResult
    → Work ExecutionEligibility
unfolding eligible_content
eligible_verified lib tenant plan artifact approval verification = do
  check (verification.artifact_hash == artifact.artifact_hash) artifact_hash_mismatch
  check? ← gets (λ w. policy_check_by_hash plan verification.policy_check_hash w.session)
  check (check_matches check? artifact.id) check_mismatch
  found ← gets (latest_passed_dry_run tenant plan.id artifact.id approval.id)
  dry_run ← require dry_run_required found
  eligible_content lib plan artifact dry_run

-- `_eligibility`
unfoldable pub eligibility :
    ExecutionLibrary
    → ℕ
    → RemediationPlan
    → RemediationArtifact
    → RemediationApproval
    → Work ExecutionEligibility
unfolding eligible_verified
eligibility lib tenant plan artifact approval = do
  check (plan.tenant_id == tenant && artifact.tenant_id == tenant && approval.tenant_id == tenant)
      tenant_mismatch
  check (artifact.plan_id == plan.id && approval.plan_id == plan.id) other_plan
  check (may_execute plan.status) plan_not_approved
  verification ← in_session (verify_approval_for_dry_run tenant plan.id approval.id none)
  eligible_verified lib tenant plan artifact approval verification
