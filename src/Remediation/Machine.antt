-- ===== src/Remediation/Machine.antt =====
-- RemediationStateMachine of apps/api/app/services/remediation_state_machine.py.
pub mod Validation
pub mod Transitions
use authclaw_mvp.Common.{
  ℕ, zero, suc, Bool, true, false, not, ◌&&◌, ◌||◌, Option, none, some, List, [], ◌∷◌, ◌++◌, ltb,
  ◌==◌, if◌then◌else◌, ok,
}
use authclaw_mvp.Common.Exec.{◌>>=◌, ◌>>◌, pure, raise, gets, modify, check, when}
use authclaw_mvp.Common.Tables.{first, update, latest, select}
use authclaw_mvp.Remediation.{
  RemediationPlanStatus, RemediationArtifactStatus, RemediationApprovalStatus, RemediationPlan,
  RemediationArtifact, RemediationRollbackPlan, RemediationPolicyCheck, RemediationApproval,
  EventKind, Event, Session, Failure, Action, emit, is_plan, is_approval,
}
use authclaw_mvp.Remediation.Failure.{
  plan_not_found, execution_disabled, invalid_transition, requires_hashes, artifact_mismatch,
  requires_passing_check, check_artifact_mismatch, requires_rollback, requires_approval_and_nonce,
  approval_of_other_plan, approval_not_approved, approval_expired, nonce_mismatch,
  approval_artifact_mismatch, approval_check_mismatch,
}

-- `status in EXECUTION_DISABLED_PLAN_STATUSES`
unfoldable pub is_execution_status : RemediationPlanStatus → Bool
is_execution_status RemediationPlanStatus.queued_for_execution = true
is_execution_status RemediationPlanStatus.executing = true
is_execution_status RemediationPlanStatus.succeeded = true
is_execution_status RemediationPlanStatus.failed = true
is_execution_status RemediationPlanStatus.rollback_required = true
is_execution_status RemediationPlanStatus.rolled_back = true
is_execution_status RemediationPlanStatus.verified = true
is_execution_status _ = false

-- `next in ALLOWED_TRANSITIONS.get(current, set())`
unfoldable pub is_allowed : RemediationPlanStatus → RemediationPlanStatus → Bool
is_allowed RemediationPlanStatus.detected RemediationPlanStatus.recommendation_created = true
is_allowed RemediationPlanStatus.detected RemediationPlanStatus.plan_drafted = true
is_allowed RemediationPlanStatus.recommendation_created RemediationPlanStatus.plan_drafted = true
is_allowed RemediationPlanStatus.plan_drafted RemediationPlanStatus.plan_validated = true
is_allowed RemediationPlanStatus.plan_drafted RemediationPlanStatus.rejected = true
is_allowed RemediationPlanStatus.plan_validated RemediationPlanStatus.approval_requested = true
is_allowed RemediationPlanStatus.plan_validated RemediationPlanStatus.rejected = true
is_allowed RemediationPlanStatus.approval_requested RemediationPlanStatus.approved = true
is_allowed RemediationPlanStatus.approval_requested RemediationPlanStatus.rejected = true
is_allowed RemediationPlanStatus.approval_requested RemediationPlanStatus.expired = true
is_allowed RemediationPlanStatus.approved RemediationPlanStatus.queued_for_execution = true
is_allowed RemediationPlanStatus.approved RemediationPlanStatus.rejected = true
is_allowed RemediationPlanStatus.queued_for_execution RemediationPlanStatus.executing = true
is_allowed RemediationPlanStatus.queued_for_execution RemediationPlanStatus.expired = true
is_allowed RemediationPlanStatus.executing RemediationPlanStatus.succeeded = true
is_allowed RemediationPlanStatus.executing RemediationPlanStatus.failed = true
is_allowed RemediationPlanStatus.failed RemediationPlanStatus.rollback_required = true
is_allowed RemediationPlanStatus.rollback_required RemediationPlanStatus.rolled_back = true
is_allowed RemediationPlanStatus.rolled_back RemediationPlanStatus.verified = true
is_allowed RemediationPlanStatus.succeeded RemediationPlanStatus.verified = true
is_allowed _ _ = false

unfoldable pub can_transition : RemediationPlanStatus → RemediationPlanStatus → Bool → Bool
unfolding is_execution_status is_allowed
can_transition current next execution_enabled =
    if is_execution_status next && not execution_enabled then false else is_allowed current next

-- The entries of `context` that the machine reads.
pub record Context : Type 0 where
  pub execution_enabled : Bool
  pub artifact_hash : Option ℕ
  pub policy_check_hash : Option ℕ
  pub approval_id : Option ℕ
  pub nonce : Option ℕ

abbrev pub no_context : Context
no_context = record {
  execution_enabled = false;
  artifact_hash = none;
  policy_check_hash = none;
  approval_id = none;
  nonce = none;
}

-- `str(value or "")`: 0 is the empty text.
abbrev pub or_empty : Option ℕ → ℕ
or_empty none = 0
or_empty (some n) = n

abbrev pub is_usable : RemediationArtifactStatus → Bool
is_usable RemediationArtifactStatus.draft = true
is_usable RemediationArtifactStatus.active = true
is_usable _ = false

abbrev pub is_approved : RemediationApprovalStatus → Bool
is_approved RemediationApprovalStatus.approved = true
is_approved _ = false

abbrev pub or_raise : {A : Type 0} → Failure → Option A → Action A
or_raise e none = raise e
or_raise e (some a) = pure a

-- The machine's `_artifact_by_hash`, `_policy_check_by_hash` and `_approval`.
abbrev pub usable_artifact : RemediationPlan → ℕ → RemediationArtifact → Bool
usable_artifact plan hash a =
    a.tenant_id == plan.tenant_id
    && a.plan_id == plan.id
    && a.artifact_hash == hash
    && is_usable a.status

abbrev pub check_of_hash : RemediationPlan → ℕ → RemediationPolicyCheck → Bool
check_of_hash plan hash c =
    c.tenant_id == plan.tenant_id && c.plan_id == plan.id && c.policy_check_hash == hash

abbrev pub rollback_of : RemediationPlan → RemediationRollbackPlan → Bool
rollback_of plan r = r.tenant_id == plan.tenant_id && r.plan_id == plan.id

abbrev pub approval_of : RemediationPlan → ℕ → RemediationApproval → Bool
approval_of plan id a = a.tenant_id == plan.tenant_id && a.plan_id == plan.id && a.id == id

abbrev pub find_plan : ℕ → ℕ → Action RemediationPlan
find_plan tenant id = do
  found ← gets (λ s. first (is_plan tenant id) s.plans)
  or_raise plan_not_found found

abbrev pub passing : Option RemediationPolicyCheck → Bool
passing none = false
passing (some c) = c.passed

-- `check.artifact_id is not None and check.artifact_id != artifact.id`
abbrev pub bound_elsewhere : Option ℕ → ℕ → Bool
bound_elsewhere none id = false
bound_elsewhere (some a) id = not (a == id)

abbrev pub is_some {ℓ} : {A : Type ℓ} → Option A → Bool
is_some none = false
is_some (some a) = true

-- The branch of `validate_transition_requirements` for `approval_requested`.
pub validate_requested : RemediationPlan → Context → Action (Unit {0})
validate_requested plan context = do
  let artifact_hash = or_empty context.artifact_hash
  let policy_hash = or_empty context.policy_check_hash
  check (not (artifact_hash == 0) && not (policy_hash == 0)) requires_hashes
  artifact? ← gets (λ s. first (usable_artifact plan artifact_hash) s.artifacts)
  artifact ← or_raise artifact_mismatch artifact?
  check? ← gets (λ s. first (check_of_hash plan policy_hash) s.checks)
  c ← or_raise requires_passing_check check?
  check c.passed requires_passing_check
  check (not (bound_elsewhere c.artifact_id artifact.id)) check_artifact_mismatch
  rollback ← gets (λ s. first (rollback_of plan) s.rollbacks)
  check (is_some rollback) requires_rollback

-- The branch for `approved`, for the approval that was read.
pub validate_approval : RemediationPlan → ℕ → RemediationApproval → Action (Unit {0})
validate_approval plan nonce approval = do
  check (is_approved approval.status) approval_not_approved
  now ← gets (λ s. s.now)
  check (not (ltb approval.expires_at now)) approval_expired
  check (approval.nonce == nonce) nonce_mismatch
  artifact ← gets (λ s. first (usable_artifact plan approval.artifact_hash) s.artifacts)
  check (is_some artifact) approval_artifact_mismatch
  check? ← gets (λ s. first (check_of_hash plan approval.policy_check_hash) s.checks)
  check (passing check?) approval_check_mismatch

pub validate_approved_by : RemediationPlan → ℕ → ℕ → Action (Unit {0})
unfolding validate_approval
validate_approved_by plan approval_id nonce = do
  found ← gets (λ s. first (approval_of plan approval_id) s.approvals)
  approval ← or_raise approval_of_other_plan found
  validate_approval plan nonce approval

pub validate_approved : RemediationPlan → Option ℕ → ℕ → Action (Unit {0})
unfolding validate_approved_by
validate_approved plan none nonce = raise requires_approval_and_nonce
validate_approved plan (some approval_id) nonce =
    if nonce == 0
    then raise requires_approval_and_nonce
    else validate_approved_by plan approval_id nonce

-- `validate_transition_requirements`
unfoldable pub validate_transition_requirements :
    RemediationPlan → RemediationPlanStatus → Context → Action (Unit {0})
unfolding validate_requested validate_approved
validate_transition_requirements plan RemediationPlanStatus.approval_requested context =
    validate_requested plan context
validate_transition_requirements plan RemediationPlanStatus.approved context =
    validate_approved plan context.approval_id (or_empty context.nonce)
validate_transition_requirements plan _ context = pure tt

-- `_emit_status_event`, for the status that the plan now has. (The digests and the approval that it
-- reads for the event are left out.)
unfoldable pub emit_status_event :
    RemediationPlan → RemediationPlanStatus → Option ℕ → Action (Unit {0})
emit_status_event plan RemediationPlanStatus.approval_requested actor = emit (record {
  kind = EventKind.approval_requested;
  plan_id = plan.id;
  approval_id = none;
  actor_id = actor;
})
emit_status_event plan RemediationPlanStatus.approved actor =
    emit (record {
      kind = EventKind.approved;
      plan_id = plan.id;
      approval_id = none;
      actor_id = actor;
    })
emit_status_event plan RemediationPlanStatus.rejected actor =
    emit (record {
      kind = EventKind.rejected;
      plan_id = plan.id;
      approval_id = none;
      actor_id = actor;
    })
emit_status_event plan _ actor = emit (record {
  kind = EventKind.status_changed;
  plan_id = plan.id;
  approval_id = none;
  actor_id = actor;
})

abbrev pub with_status : RemediationPlanStatus → RemediationPlan → RemediationPlan
with_status status plan = record plan { status = status }

-- `plan.status = next`: the plan's row is the one that was read by its tenant and its id.
abbrev pub set_plan_status : RemediationPlan → RemediationPlanStatus → Action (Unit {0})
set_plan_status plan status =
    modify (λ s. record s {
      plans = update (is_plan plan.tenant_id plan.id) (with_status status) s.plans;
    })

-- `transition_plan` behind the test for disabled execution.
unfoldable pub transition_checked :
    RemediationPlan → RemediationPlanStatus → Option ℕ → Context → Action (Unit {0})
unfolding can_transition validate_transition_requirements emit_status_event
transition_checked plan next actor context = do
  check (can_transition plan.status next context.execution_enabled) invalid_transition
  validate_transition_requirements plan next context
  set_plan_status plan next
  emit_status_event plan next actor

abbrev pub block_execution : RemediationPlan → Option ℕ → Action (Unit {0})
block_execution plan actor = do
  emit (record {
    kind = EventKind.execution_blocked;
    plan_id = plan.id;
    approval_id = none;
    actor_id = actor;
  })
  raise execution_disabled

unfoldable pub transition_plan :
    ℕ → ℕ → RemediationPlanStatus → Option ℕ → Context → Action (Unit {0})
unfolding transition_checked is_execution_status
transition_plan tenant plan_id next actor context = do
  plan ← find_plan tenant plan_id
  let blocked = is_execution_status next && not context.execution_enabled
  if blocked then block_execution plan actor else transition_checked plan next actor context
