-- ===== src/Remediation/Approval/Granting.antt =====
-- What `approve` grants, and to whom.
use authclaw_mvp.Common.{
  ℕ, subst, ◌≤◌, ◌≡◌, ◌≢◌, refl, sym, ap, ◌∙◌, Bool, true, false, not, Option, some, arith, ltb,
  if◌then◌else◌, ok, Text,
}
use authclaw_mvp.Common.Exec.{
  bind_ok, check_then_ok, check, gets, Keeps, Keeps-when, keeps_rules, when, raise, ◌>>◌, ◌>>=◌,
}
use authclaw_mvp.Common.Tables.{update}
use authclaw_mvp.ApiSafety.{TextLibrary, sanitize_text}
use authclaw_mvp.Remediation.{
  RemediationPlanStatus, RemediationApprovalStatus, is_plan, is_approval, RemediationPlan,
  RemediationApproval, RemediationArtifact, RemediationPolicyCheck, Session, Action, EventKind,
}
use authclaw_mvp.Remediation.Failure.{
  reason_required, approval_not_found, plan_not_found, not_pending, requires_passing_check,
  artifact_mismatch, approval_expired,
}
use authclaw_mvp.Remediation.Machine.{or_raise, find_plan, transition_plan, with_status, no_context}
use authclaw_mvp.Remediation.Machine.Validation.{stored, or_raise_then_ok}
use authclaw_mvp.Common.{some-injective}
use authclaw_mvp.Remediation.Machine.Transitions.{
  quiet, transition_plan_ok, transition_plan-ApprovedBy, Approvable,
}
use authclaw_mvp.Remediation.Approval.{
  needs_mfa, artifact_by_hash, policy_check_by_hash, bound_to, is_pending, is_empty,
  authorize_actor, emit_approval, set_approval, find_approval,
}
use authclaw_mvp.Remediation.Approval.Service.{
  challenge, grant, approve_current, approve_rows, approve, expire_single, resolve,
}
use authclaw_mvp.Remediation.Approval.Binding.SingleUse.{stored_approval, if_ok}
use authclaw_mvp.Common.{not-true→false}
use authclaw_mvp.Remediation.Approval.Authorization.{roles_of, Authorized, authorize_roles_ok}

-- What a grant rests on.
pub record Grantable (plan : RemediationPlan) (a : RemediationApproval) (actor : ℕ)
    (mfa_verified : Bool) (s : Session) : Type 0 where
  pub c : RemediationPolicyCheck
  pub artifact : RemediationArtifact
  pub has_check : policy_check_by_hash plan a.policy_check_hash s ≡ some c
  pub passed : c.passed ≡ true
  pub has_artifact : artifact_by_hash plan a.artifact_hash s ≡ some artifact
  pub of_artifact : bound_to c.artifact_id artifact.id ≡ true
  pub authorized :
      Authorized
        (roles_of a.tenant_id actor s)
        actor
        c.required_approval_level
        mfa_verified
        a.requested_by

Keeps-emit_approval :
    (kind : EventKind) (plan : RemediationPlan) (a : RemediationApproval) (actor : Option ℕ)
    (rows : Session)
    → Keeps (λ x. quiet x ≡ rows) (emit_approval kind plan a actor)
Keeps-emit_approval kind plan a actor rows = record { at = λ s h. h }

Keeps-challenge :
    (plan : RemediationPlan) (a : RemediationApproval) (actor : ℕ) (mfa_verified : Bool)
    (rows : Session)
    → Keeps (λ x. quiet x ≡ rows) (challenge plan a actor mfa_verified)
unfolding challenge
Keeps-challenge plan a actor mfa_verified rows = search (keeps_rules, Keeps-emit_approval) depth 20

-- The row that a grant writes, and its plan's.
abbrev pub granted : ℕ → Text → Bool → ℕ → RemediationApproval → RemediationApproval
granted actor reason mfa_verified now a =
    record (resolve RemediationApprovalStatus.approved actor now reason a) {
      mfa_verified = mfa_verified;
    }

pub record Effect (plan : RemediationPlan) (a : RemediationApproval) (actor : ℕ) (reason : Text)
    (mfa_verified : Bool) (s s' : Session) : Type 0 where
  pub row : RemediationPlan
  pub read : stored a.tenant_id plan.id s ≡ some row
  pub was_requested : row.status ≡ RemediationPlanStatus.approval_requested
  pub rows_after :
      quiet s'
      ≡ quiet (record s {
        plans =
            update
              (is_plan row.tenant_id row.id)
              (with_status RemediationPlanStatus.approved)
              s.plans;
        approvals =
            update
              (is_approval a.tenant_id a.id)
              (granted actor reason mfa_verified s.now)
              s.approvals;
      })

-- `grant` behind the authorization.
abbrev write_grant :
    RemediationPlan
    → RemediationApproval
    → RemediationPolicyCheck
    → ℕ
    → Text
    → Bool
    → Action (Unit {0})
unfolding needs_mfa
write_grant plan a c actor reason mfa_verified = do
  now ← gets (λ s. s.now)
  set_approval a (granted actor reason mfa_verified now)
  transition_plan a.tenant_id plan.id RemediationPlanStatus.approved (some actor)
      (record no_context { approval_id = some a.id; nonce = some a.nonce })
  emit_approval EventKind.approved plan a (some actor)
  when (needs_mfa plan c) (emit_approval EventKind.mfa_verified plan a (some actor))

Keeps-events :
    (plan : RemediationPlan) (a : RemediationApproval) (actor : ℕ) (b : Bool) (rows : Session)
    → Keeps
        (λ x. quiet x ≡ rows)
        (emit_approval EventKind.approved plan a (some actor)
          >> when b (emit_approval EventKind.mfa_verified plan a (some actor)))
Keeps-events plan a actor b rows = search (keeps_rules, Keeps-emit_approval) depth 20

write_grant_ok :
    (plan : RemediationPlan) (a : RemediationApproval) (c : RemediationPolicyCheck) (actor : ℕ)
    (reason : Text) (mfa_verified : Bool) (s : Session) {s' : Session}
    → write_grant plan a c actor reason mfa_verified s ≡ (ok tt, s')
    → Effect plan a actor reason mfa_verified (quiet s) s'
unfolding needs_mfa write_grant Approvable
write_grant_ok plan a c actor reason mfa_verified s {s' = s'} h =
    let context = record no_context { approval_id = some a.id; nonce = some a.nonce } in
    let events =
      emit_approval EventKind.approved plan a (some actor)
      >> when (needs_mfa plan c) (emit_approval EventKind.mfa_verified plan a (some actor)) in
    let written = record s {
      approvals =
          update (is_approval a.tenant_id a.id) (granted actor reason mfa_verified s.now)
            s.approvals;
    } in
    let (u, s1, moving, rest) =
      bind_ok
        (transition_plan a.tenant_id plan.id RemediationPlanStatus.approved (some actor) context)
        (λ _. events) written h in
    let moved =
      transition_plan_ok a.tenant_id plan.id RemediationPlanStatus.approved (some actor) context
        written moving in
    let (x, read, status, by) =
      transition_plan-ApprovedBy a.tenant_id plan.id (some actor) context written moving in
    let same : quiet s' ≡ quiet s1 =
      ap (λ y. quiet y.1) (sym rest)
      ∙ (Keeps-events plan a actor (needs_mfa plan c) (quiet s1)).at s1 refl in
    record {
      row = moved.plan;
      read = moved.read;
      was_requested = ap (λ y. y.status) (some-injective (sym moved.read ∙ read)) ∙ status;
      rows_after = same ∙ moved.rows_after;
    }

of_quiet :
    {plan : RemediationPlan} {a : RemediationApproval} {actor : ℕ} {reason : Text}
    {mfa_verified : Bool} {s s' : Session}
    → Effect plan a actor reason mfa_verified (quiet s) s'
    → Effect plan a actor reason mfa_verified s s'
of_quiet e = record {
  row = e.row;
  read = e.read;
  was_requested = e.was_requested;
  rows_after = e.rows_after;
}

grant_ok :
    (plan : RemediationPlan) (a : RemediationApproval) (c : RemediationPolicyCheck) (actor : ℕ)
    (reason : Text) (mfa_verified : Bool) (s : Session) {s' : Session}
    → grant plan a c actor reason mfa_verified s ≡ (ok tt, s')
    → Authorized
        (roles_of a.tenant_id actor s)
        actor
        c.required_approval_level
        mfa_verified
        a.requested_by
      × Effect plan a actor reason mfa_verified s s'
unfolding grant authorize_actor
grant_ok plan a c actor reason mfa_verified s {s' = s'} h =
    let write = write_grant plan a c actor reason mfa_verified in
    let authorize =
      authorize_actor a.tenant_id actor c.required_approval_level mfa_verified a.requested_by in
    let (u, s1, asked, h1) =
      bind_ok (when (needs_mfa plan c) (challenge plan a actor mfa_verified))
        (λ _. authorize >> write) s h in
    let (v, s2, allowed, h2) = bind_ok authorize (λ _. write) s1 h1 in
    let same : quiet s1 ≡ quiet s =
      ap (λ x. quiet x.1) (sym asked)
      ∙ (Keeps-when (needs_mfa plan c) (challenge plan a actor mfa_verified)
            (Keeps-challenge plan a actor mfa_verified (quiet s))).at
          s refl in
    let (authorized, unchanged) =
      authorize_roles_ok (roles_of a.tenant_id actor s1) actor c.required_approval_level
        mfa_verified a.requested_by s1 allowed in
    let effect =
      write_grant_ok plan a c actor reason mfa_verified s1 (ap write (sym unchanged) ∙ h2) in
    (
      subst
          (λ x.
            Authorized (roles_of a.tenant_id actor x) actor c.required_approval_level mfa_verified
              a.requested_by)
          same authorized,
      of_quiet (subst (λ x. Effect plan a actor reason mfa_verified x s') same effect),
    )

approve_current_ok :
    (plan : RemediationPlan) (a : RemediationApproval) (actor : ℕ) (reason : Text)
    (mfa_verified : Bool) (s : Session) {s' : Session}
    → approve_current plan a actor reason mfa_verified s ≡ (ok tt, s')
    → Grantable plan a actor mfa_verified s × Effect plan a actor reason mfa_verified s s'
unfolding approve_current
approve_current_ok plan a actor reason mfa_verified s h =
    let bound = λ (c : RemediationPolicyCheck) (artifact : RemediationArtifact).
      check (bound_to c.artifact_id artifact.id) artifact_mismatch
      >> grant plan a c actor reason mfa_verified in
    let found = λ (c : RemediationPolicyCheck).
      gets (artifact_by_hash plan a.artifact_hash) >>= λ o.
      or_raise artifact_mismatch o >>= bound c in
    let (c, has_check, h1) =
      or_raise_then_ok requires_passing_check (policy_check_by_hash plan a.policy_check_hash s)
        (λ x. check x.passed requires_passing_check >> found x) s h in
    let (passed, h2) = check_then_ok c.passed requires_passing_check (found c) s h1 in
    let (artifact, has_artifact, h3) =
      or_raise_then_ok artifact_mismatch (artifact_by_hash plan a.artifact_hash s) (bound c) s h2 in
    let (of_artifact, h4) =
      check_then_ok (bound_to c.artifact_id artifact.id) artifact_mismatch
        (grant plan a c actor reason mfa_verified) s h3 in
    let (authorized, effect) = grant_ok plan a c actor reason mfa_verified s h4 in
    (
      record {
        c = c;
        artifact = artifact;
        has_check = has_check;
        passed = passed;
        has_artifact = has_artifact;
        of_artifact = of_artifact;
        authorized = authorized;
      },
      effect,
    )

never : (s1 : Session) {s' : Session} → raise {A = Unit {0}} approval_expired s1 ≢ (ok tt, s')
never s1 h = ground arith

expired_raises :
    (plan : RemediationPlan) (a : RemediationApproval) (actor : Option ℕ) (s : Session)
    {s' : Session}
    → (expire_single plan a actor >> raise approval_expired) s ≢ (ok tt, s')
expired_raises plan a actor s h =
    let (u, s1, before, rest) =
      bind_ok (expire_single plan a actor) (λ _. raise approval_expired) s h in
    never s1 rest

-- What a call of `approve` that returns has found and written.
unfoldable pub Approve : TextLibrary → ℕ → ℕ → ℕ → Text → Bool → Session → Session → Type 0
Approve lib t id actor reason mfa_verified s s' =
    (plan : RemediationPlan) × (a : RemediationApproval) × (stored_approval t id s ≡ some a)
    × (stored t a.plan_id s ≡ some plan)
    × (is_empty (sanitize_text lib reason) ≡ false)
    × (is_pending a.status ≡ true)
    × (s.now ≤ a.expires_at)
    × Grantable plan a actor mfa_verified s
    × Effect plan a actor (sanitize_text lib reason) mfa_verified s s'

-- A call of `approve` that returns had a reason, and a pending, current approval of a plan that waits
-- for one; a passing check and its artifact, with the approval's digests; an actor with a role that may
-- approve at the check's level, and at the elevated levels with MFA and not the requester. But for the
-- events it has changed the plan's status and the approval's row only.
pub approve_ok :
    (lib : TextLibrary) (t id actor : ℕ) (reason : Text) (mfa_verified : Bool) (s : Session)
    {s' : Session}
    → approve lib t id actor reason mfa_verified s ≡ (ok tt, s')
    → Approve lib t id actor reason mfa_verified s s'
unfolding approve approve_rows Approve
approve_ok lib t id actor reason mfa_verified s {s' = s'} h =
    let text = sanitize_text lib reason in
    let with_plan = λ (a : RemediationApproval) (plan : RemediationPlan).
      approve_rows plan a actor text mfa_verified in
    let with_approval = λ (a : RemediationApproval). find_plan t a.plan_id >>= with_plan a in
    let (has_reason, h1) =
      check_then_ok (not (is_empty text)) reason_required (find_approval t id >>= with_approval) s
        h in
    let (a, found, h2) =
      or_raise_then_ok approval_not_found (stored_approval t id s) with_approval s h1 in
    let (plan, plan_found, h3) =
      or_raise_then_ok plan_not_found (stored t a.plan_id s) (with_plan a) s h2 in
    let last = gets (λ x. x.now) >>= λ now.
    if ltb a.expires_at now
    then (expire_single plan a (some actor) >> raise approval_expired)
    else approve_current plan a actor text mfa_verified in
    let (pending, h4) = check_then_ok (is_pending a.status) not_pending last s h3 in
    let (current, h5) =
      if_ok (ltb a.expires_at s.now) (expire_single plan a (some actor) >> raise approval_expired)
        (approve_current plan a actor text mfa_verified) s
        (λ v. expired_raises plan a (some actor) s) h4 in
    let (grantable, effect) = approve_current_ok plan a actor text mfa_verified s h5 in
    (
      plan,
      a,
      found,
      plan_found,
      not-true→false (is_empty text) has_reason,
      pending,
      ground arith,
      grantable,
      effect,
    )
