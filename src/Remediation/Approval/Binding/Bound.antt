-- ===== src/Remediation/Approval/Binding/Bound.antt =====
-- What the approval of a verification that returns is bound to.
use authclaw_mvp.Common.{
  not-true→false, ℕ, ◌≡◌, refl, Bool, true, false, not, ◌&&◌, Option, some, arith, ok,
}
use authclaw_mvp.Common.Exec.{bind_ok, check_then_ok, check, gets, pure, when, ◌>>◌, ◌>>=◌}
use authclaw_mvp.Remediation.{
  RemediationPlan, RemediationApproval, RemediationArtifact, RemediationPolicyCheck, Session,
  Action, EventKind,
}
use authclaw_mvp.Remediation.Failure.{
  approval_artifact_mismatch, approval_check_mismatch, not_latest_check, check_artifact_mismatch,
  plan_not_approved, mfa_not_fresh, other_approver, approver_missing,
}
use authclaw_mvp.Remediation.Machine.{or_raise, is_some}
use authclaw_mvp.Remediation.Machine.Validation.{stored, or_raise_then_ok}
use authclaw_mvp.Remediation.Approval.{
  needs_mfa, artifact_by_hash, policy_check_by_hash, latest_policy_check, bound_to,
  is_plan_approved, set_approval, emit_approval,
}
use authclaw_mvp.Remediation.Approval.Binding.{
  verify_mfa, verify_bound, verify_current, verify_approval_binding, ApprovalVerificationResult,
  is_latest, is_other, or_else, use_approval,
}
use authclaw_mvp.Remediation.Approval.Binding.SingleUse.{Verified, verify_ok, result}

-- An approver is bound by MFA, and the actor, if one is named, is the approver.
pub record MfaBound (a : RemediationApproval) (actor : Option ℕ) : Type 0 where
  pub is_fresh : a.mfa_verified ≡ true
  pub same_actor : is_other actor a.approved_by ≡ false
  pub has_approver : is_some a.approved_by ≡ true

-- The artifact and the passing, latest check of the approval's digests, for one another.
pub record Bound (plan : RemediationPlan) (a : RemediationApproval) (actor : Option ℕ) (s : Session)
    : Type 0 where
  pub artifact : RemediationArtifact
  pub c : RemediationPolicyCheck
  pub has_artifact : artifact_by_hash plan a.artifact_hash s ≡ some artifact
  pub has_check : policy_check_by_hash plan a.policy_check_hash s ≡ some c
  pub passed : c.passed ≡ true
  pub is_last : is_latest (latest_policy_check plan s) a.policy_check_hash ≡ true
  pub of_artifact : bound_to c.artifact_id artifact.id ≡ true
  pub mfa : needs_mfa plan c ≡ true → MfaBound a actor

verify_mfa_ok :
    (plan : RemediationPlan) (a : RemediationApproval) (actor : Option ℕ) (s : Session)
    {u : Unit {0}} {s' : Session}
    → verify_mfa plan a actor s ≡ (ok u, s')
    → MfaBound a actor
unfolding verify_mfa
verify_mfa_ok plan a actor s h =
    let event =
      emit_approval EventKind.mfa_execution_verified plan a (or_else actor a.approved_by) in
    let (fresh, h1) =
      check_then_ok a.mfa_verified mfa_not_fresh
        (check (not (is_other actor a.approved_by)) other_approver
          >> (check (is_some a.approved_by) approver_missing >> event))
        s h in
    let (same, h2) =
      check_then_ok (not (is_other actor a.approved_by)) other_approver
        (check (is_some a.approved_by) approver_missing >> event) s h1 in
    let (has, h3) = check_then_ok (is_some a.approved_by) approver_missing event s h2 in
    record {
      is_fresh = fresh;
      same_actor = not-true→false (is_other actor a.approved_by) same;
      has_approver = has;
    }

when_ok :
    (b : Bool) (m : Action (Unit {0})) (s : Session) {u : Unit {0}} {s' : Session}
    → b ≡ true
    → when b m s ≡ (ok u, s')
    → m s ≡ (ok u, s')
when_ok true m s e h = h
when_ok false m s e h = absurd (ground arith)

verify_bound_ok :
    (plan : RemediationPlan) (a : RemediationApproval) (actor : Option ℕ) (s : Session) {b : Bool}
    {s' : Session}
    → verify_bound plan a actor s ≡ (ok b, s')
    → Bound plan a actor s
unfolding verify_bound
verify_bound_ok plan a actor s h =
    let last = λ (c : RemediationPolicyCheck).
      when (needs_mfa plan c) (verify_mfa plan a actor) >> pure (needs_mfa plan c) in
    let tests = λ (artifact : RemediationArtifact) (c : RemediationPolicyCheck).
      gets (latest_policy_check plan) >>= λ x.
      check (is_latest x a.policy_check_hash) not_latest_check
      >> (check (bound_to c.artifact_id artifact.id) check_artifact_mismatch >> last c) in
    let checked = λ (artifact : RemediationArtifact) (c : RemediationPolicyCheck).
      check c.passed approval_check_mismatch >> tests artifact c in
    let (artifact, has_artifact, h1) =
      or_raise_then_ok approval_artifact_mismatch (artifact_by_hash plan a.artifact_hash s)
        (λ x. gets (policy_check_by_hash plan a.policy_check_hash) >>= λ o.
          or_raise approval_check_mismatch o >>= checked x)
        s h in
    let (c, has_check, h2) =
      or_raise_then_ok approval_check_mismatch (policy_check_by_hash plan a.policy_check_hash s)
        (checked artifact) s h1 in
    let (passed, h3) = check_then_ok c.passed approval_check_mismatch (tests artifact c) s h2 in
    let (is_last, h4) =
      check_then_ok (is_latest (latest_policy_check plan s) a.policy_check_hash) not_latest_check
        (check (bound_to c.artifact_id artifact.id) check_artifact_mismatch >> last c) s h3 in
    let (of_artifact, h5) =
      check_then_ok (bound_to c.artifact_id artifact.id) check_artifact_mismatch (last c) s h4 in
    let (u, s1, h6, rest) =
      bind_ok (when (needs_mfa plan c) (verify_mfa plan a actor)) (λ _. pure (needs_mfa plan c)) s
        h5 in
    record {
      artifact = artifact;
      c = c;
      has_artifact = has_artifact;
      has_check = has_check;
      passed = passed;
      is_last = is_last;
      of_artifact = of_artifact;
      mfa = λ e.
          verify_mfa_ok plan a actor s
            (when_ok (needs_mfa plan c) (verify_mfa plan a actor) s e h6);
    }

is_approved_plan : (req b : Bool) → req ≡ true → not (req && not b) ≡ true → b ≡ true
is_approved_plan req true e h = refl
is_approved_plan true false e h = absurd (ground arith)
is_approved_plan false false e h = absurd (ground arith)

-- What a verification that returns has found.
pub Verification : ℕ → ℕ → ℕ → Bool → Option ℕ → Session → Type 0
Verification t p id req actor s =
    (plan : RemediationPlan) × (a : RemediationApproval) × (stored t p s ≡ some plan)
    × Verified t plan.id id s a
    × Bound plan a actor s
    × (req ≡ true → is_plan_approved plan.status ≡ true)

-- A verification that returns has found the plan and its approval, granted and current, with the
-- artifact and the passing, latest check of its digests; where the plan's risk or the check's level
-- asks for MFA, the approval was granted with MFA, and a named actor is its approver.
pub verify-Bound :
    (t p id : ℕ) (consume req : Bool) (actor : Option ℕ) (s : Session)
    {r : ApprovalVerificationResult} {s' : Session}
    → verify_approval_binding t p id consume req actor s ≡ (ok r, s')
    → Verification t p id req actor s
unfolding verify_current Verification
verify-Bound t p id consume req actor s h =
    let (plan, a, plan_found, verified, h1) = verify_ok t p id consume req actor s h in
    let body = λ (b : Bool). when consume (set_approval a use_approval) >> pure (result plan a b) in
    let (passes, h2) =
      check_then_ok (not (req && not (is_plan_approved plan.status))) plan_not_approved
        (verify_bound plan a actor >>= body) s h1 in
    let (b, s1, h3, rest) = bind_ok (verify_bound plan a actor) body s h2 in
    (
      plan,
      a,
      plan_found,
      verified,
      verify_bound_ok plan a actor s h3,
      λ e. is_approved_plan req (is_plan_approved plan.status) e passes,
    )
