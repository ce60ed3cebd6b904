-- ===== src/Remediation.antt =====
-- The remediation workflow: plans, artifacts, policy checks and approvals
-- (apps/api/app/models/remediation.py), with the role names of apps/api/app/models/role.py.
-- Identifiers, times, digests and nonces are numbers; a digest or a nonce of 0 is the empty text.
pub mod Machine
pub mod Approval
pub mod WorkerToken
pub mod Execution
mod Tests
use authclaw_mvp.Common.{
  Text, ℕ, Bool, true, false, ◌&&◌, Option, none, some, List, [], ◌∷◌, ◌++◌, ◌==◌, if◌then◌else◌,
}
use authclaw_mvp.Common.Exec.{Exec, modify}

pub data RemediationRiskLevel : Type 0 where
  low medium high critical : RemediationRiskLevel

pub data RemediationPlanStatus : Type 0 where
  detected recommendation_created plan_drafted plan_validated : RemediationPlanStatus
  approval_requested approved rejected expired : RemediationPlanStatus
  queued_for_execution executing succeeded failed : RemediationPlanStatus
  rollback_required rolled_back verified : RemediationPlanStatus

pub data RemediationArtifactStatus : Type 0 where
  draft active superseded rejected archived : RemediationArtifactStatus

pub data RemediationApprovalStatus : Type 0 where
  pending approved rejected expired revoked used : RemediationApprovalStatus

pub data RemediationApprovalLevel : Type 0 where
  operator admin owner security_admin : RemediationApprovalLevel

-- The names of roles that the workflow tests; any other name is `other`.
pub data RoleName : Type 0 where
  viewer auditor operator analyst admin owner security_admin : RoleName
  other : ℕ → RoleName

pub record RemediationPlan : Type 0 where
  pub id : ℕ
  pub tenant_id : ℕ
  pub risk_level : RemediationRiskLevel
  pub provider : Text
  pub resource_ref : Text
  pub status : RemediationPlanStatus

pub data RemediationArtifactType : Type 0 where
  terraform_plan_draft aws_cli_command_draft github_pr_patch_draft : RemediationArtifactType
  iam_policy_diff documentation_only : RemediationArtifactType

-- Of the risk flags, the text of the execution adapter or mode, "" for none, and whether a simulated
-- failure is asked for.
pub record RemediationArtifact : Type 0 where
  pub id : ℕ
  pub tenant_id : ℕ
  pub plan_id : ℕ
  pub artifact_type : RemediationArtifactType
  pub content_redacted : Text
  pub artifact_hash : ℕ
  pub execution_mode : Text
  pub simulated_failure : Bool
  pub status : RemediationArtifactStatus

pub record RemediationRollbackPlan : Type 0 where
  pub id : ℕ
  pub tenant_id : ℕ
  pub plan_id : ℕ

pub record RemediationPolicyCheck : Type 0 where
  pub id : ℕ
  pub tenant_id : ℕ
  pub plan_id : ℕ
  pub artifact_id : Option ℕ
  pub passed : Bool
  pub required_approval_level : RemediationApprovalLevel
  pub policy_check_hash : ℕ
  pub created_at : ℕ

pub record RemediationApproval : Type 0 where
  pub id : ℕ
  pub tenant_id : ℕ
  pub plan_id : ℕ
  pub artifact_hash : ℕ
  pub policy_check_hash : ℕ
  pub requested_by : Option ℕ
  pub approved_by : Option ℕ
  pub status : RemediationApprovalStatus
  pub expires_at : ℕ
  pub resolved_at : Option ℕ
  pub mfa_verified : Bool
  pub nonce : ℕ
  pub approval_reason : List ℕ

-- A row of `user_roles`, joined with the name of its role.
pub record Membership : Type 0 where
  pub tenant_id : ℕ
  pub user_id : ℕ
  pub name : RoleName

-- The kinds of event that are handed to the producer, with the action of an MFA event.
pub data EventKind : Type 0 where
  execution_blocked status_changed approval_requested approved rejected revoked expired : EventKind
  replay_blocked mfa_challenge_requested mfa_verification_failed mfa_verified mfa_expired :
      EventKind
  mfa_execution_verified : EventKind
  execution_queued execution_started execution_succeeded execution_failed : EventKind
  rollback_required execution_verified : EventKind

pub record Event : Type 0 where
  pub kind : EventKind
  pub plan_id : ℕ
  pub approval_id : Option ℕ
  pub actor_id : Option ℕ

-- The session's rows, the events handed to the producer, the clock, and the supplies of identifiers
-- and of nonces. A failure to publish is caught and changes nothing, so it is not told apart.
pub record Session : Type 0 where
  pub plans : List RemediationPlan
  pub artifacts : List RemediationArtifact
  pub rollbacks : List RemediationRollbackPlan
  pub checks : List RemediationPolicyCheck
  pub approvals : List RemediationApproval
  pub memberships : List Membership
  pub events : List Event
  pub now : ℕ
  pub next_id : ℕ
  pub next_nonce : ℕ

-- The exceptions, a constructor for each message.
pub data Failure : Type 0 where
  plan_not_found approval_not_found artifact_not_found : Failure
  execution_disabled invalid_transition : Failure
  requires_hashes artifact_mismatch requires_passing_check check_artifact_mismatch : Failure
  requires_rollback requires_approval_and_nonce approval_of_other_plan approval_not_approved :
      Failure
  approval_expired nonce_mismatch approval_artifact_mismatch approval_check_mismatch : Failure
  plan_not_validated no_policy_check latest_check_failed check_unbound : Failure
  reason_required not_pending not_revocable approval_used plan_not_approved : Failure
  not_latest_check mfa_not_fresh other_approver approver_missing : Failure
  viewer_cannot_approve role_missing mfa_required self_approval : Failure

abbrev pub Action : Type 0 → Type 0
Action = Exec Session Failure

abbrev pub emit : Event → Action (Unit {0})
emit event = modify (λ s. record s { events = s.events ++ event ∷ [] })

-- `tenant_id == t and id == i`, the filter of every read of a plan or an approval.
abbrev pub is_plan : ℕ → ℕ → RemediationPlan → Bool
is_plan tenant id plan = plan.tenant_id == tenant && plan.id == id

abbrev pub is_approval : ℕ → ℕ → RemediationApproval → Bool
is_approval tenant id approval = approval.tenant_id == tenant && approval.id == id
