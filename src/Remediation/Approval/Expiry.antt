-- ===== src/Remediation/Approval/Expiry.antt =====
-- What `approve` does with an approval whose time has gone by.
use authclaw_mvp.Common.{
  ℕ, ◌<◌, ◌≡◌, ◌≢◌, refl, sym, ap, ◌∙◌, Bool, true, false, not, Option, some, List, ltb,
  if◌then◌else◌, Result, ok, err, Text, arith, lt→ltb,
}
use authclaw_mvp.Common.Exec.{Keeps, keeps_rules, gets, check, raise, when, continue, ◌>>◌, ◌>>=◌}
use authclaw_mvp.Common.Tables.{update}
use authclaw_mvp.ApiSafety.{TextLibrary, sanitize_text}
use authclaw_mvp.Remediation.{
  RemediationPlanStatus, RemediationPlan, RemediationApproval, Session, Failure, EventKind, Event,
  emit, is_approval,
}
use authclaw_mvp.Remediation.Failure.{
  approval_expired, reason_required, approval_not_found, plan_not_found, not_pending,
}
use authclaw_mvp.Remediation.Machine.{
  Context, no_context, or_raise, find_plan, transition_plan, transition_checked, block_execution,
  set_plan_status, emit_status_event,
}
use authclaw_mvp.Remediation.Machine.Validation.{
  stored, Keeps-or_raise, Keeps-if, Keeps-validate_transition_requirements,
}
use authclaw_mvp.Common.{some-injective}
use authclaw_mvp.Remediation.Approval.{
  is_pending, is_empty, is_requested, find_approval, emit_approval,
}
use authclaw_mvp.Remediation.Approval.Service.{
  approve, approve_rows, approve_current, expire_single, expire,
}
use authclaw_mvp.Remediation.Approval.Granting.{Approve, approve_ok}
use authclaw_mvp.Remediation.Approval.Binding.SingleUse.{stored_approval}

-- The machine writes no approval.
Keeps-emit :
    (e : Event) (rows : List RemediationApproval) → Keeps (λ x. x.approvals ≡ rows) (emit e)
Keeps-emit e rows = record { at = λ s h. h }

Keeps-set_plan_status :
    (plan : RemediationPlan) (status : RemediationPlanStatus) (rows : List RemediationApproval)
    → Keeps (λ x. x.approvals ≡ rows) (set_plan_status plan status)
Keeps-set_plan_status plan status rows = record { at = λ s h. h }

Keeps-emit_status_event :
    (plan : RemediationPlan) (status : RemediationPlanStatus) (actor : Option ℕ)
    (rows : List RemediationApproval)
    → Keeps (λ x. x.approvals ≡ rows) (emit_status_event plan status actor)
unfolding emit_status_event
Keeps-emit_status_event plan RemediationPlanStatus.approval_requested actor rows = search Keeps-emit
Keeps-emit_status_event plan RemediationPlanStatus.approved actor rows = search Keeps-emit
Keeps-emit_status_event plan RemediationPlanStatus.rejected actor rows = search Keeps-emit
Keeps-emit_status_event plan _ actor rows = search Keeps-emit

Keeps-transition_checked :
    (plan : RemediationPlan) (next : RemediationPlanStatus) (actor : Option ℕ) (context : Context)
    (rows : List RemediationApproval)
    → Keeps (λ x. x.approvals ≡ rows) (transition_checked plan next actor context)
unfolding transition_checked
Keeps-transition_checked plan next actor context rows =
    search
      (
        keeps_rules, Keeps-validate_transition_requirements, Keeps-set_plan_status,
        Keeps-emit_status_event,
      )
      depth 20

Keeps-block_execution :
    (plan : RemediationPlan) (actor : Option ℕ) (rows : List RemediationApproval)
    → Keeps (λ x. x.approvals ≡ rows) (block_execution plan actor)
Keeps-block_execution plan actor rows = search (keeps_rules, Keeps-emit) depth 20

pub Keeps-transition_plan :
    (t p : ℕ) (next : RemediationPlanStatus) (actor : Option ℕ) (context : Context)
    (rows : List RemediationApproval)
    → Keeps (λ x. x.approvals ≡ rows) (transition_plan t p next actor context)
unfolding transition_plan
Keeps-transition_plan t p next actor context rows =
    search (keeps_rules, Keeps-or_raise, Keeps-if, Keeps-block_execution, Keeps-transition_checked)
      depth 20

-- `_expire_single` behind its write of the row.
Keeps-rest :
    (plan : RemediationPlan) (a : RemediationApproval) (actor : Option ℕ)
    (rows : List RemediationApproval)
    → Keeps
        (λ x. x.approvals ≡ rows)
        (when
            (is_requested plan.status)
            (transition_plan plan.tenant_id plan.id RemediationPlanStatus.expired actor no_context)
          >> emit_approval EventKind.expired plan a actor)
Keeps-rest plan a actor rows = search (keeps_rules, Keeps-transition_plan, Keeps-emit) depth 20

-- `_expire_single` marks the approval expired, and no other row of the approvals, whether the plan's
-- transition returns or raises.
pub expire_single_approvals :
    (plan : RemediationPlan) (a : RemediationApproval) (actor : Option ℕ) (s : Session)
    → (expire_single plan a actor s).1.approvals
      ≡ update (is_approval a.tenant_id a.id) (expire s.now) s.approvals
unfolding expire_single
expire_single_approvals plan a actor s =
    let rows = update (is_approval a.tenant_id a.id) (expire s.now) s.approvals in
    (Keeps-rest plan a actor rows).at (record s { approvals = rows }) refl

continue-raise :
    (r : Result Failure (Unit {0})) (s : Session)
    → (continue r (λ _. raise {A = Unit {0}} approval_expired) s).1.approvals ≡ s.approvals
continue-raise (ok u) s = refl
continue-raise (err e) s = refl

raised_after :
    (plan : RemediationPlan) (a : RemediationApproval) (actor : Option ℕ) (s : Session)
    → ((expire_single plan a actor >> raise {A = Unit {0}} approval_expired) s).1.approvals
      ≡ (expire_single plan a actor s).1.approvals
raised_after plan a actor s =
    continue-raise (expire_single plan a actor s).0 (expire_single plan a actor s).1

module _ (lib : TextLibrary) (t id actor : ℕ) (reason : Text) (mfa_verified : Bool) where
  overdue_approvals :
      (s : Session) {a : RemediationApproval} {plan : RemediationPlan}
      → is_empty (sanitize_text lib reason) ≡ false
      → stored_approval t id s ≡ some a
      → stored t a.plan_id s ≡ some plan
      → is_pending a.status ≡ true
      → a.expires_at < s.now
      → ((approve lib t id actor reason mfa_verified s).1.approvals
          ≡ update (is_approval a.tenant_id a.id) (expire s.now) s.approvals)
  unfolding approve approve_rows
  overdue_approvals s {a = a} {plan = plan} has_reason found plan_found pending overdue =
      let text = sanitize_text lib reason in
      let last = λ (x : RemediationApproval) (y : RemediationPlan).
        approve_rows y x actor text mfa_verified in
      let with_plan = λ (x : RemediationApproval). find_plan t x.plan_id >>= last x in
      let step1 =
        ap
          (λ b.
            ((check (not b) reason_required >> (find_approval t id >>= with_plan)) s).1.approvals)
          has_reason in
      let step2 = ap (λ o. ((or_raise approval_not_found o >>= with_plan) s).1.approvals) found in
      let step3 = ap (λ o. ((or_raise plan_not_found o >>= last a) s).1.approvals) plan_found in
      let late = λ (b : Bool).
        if b
        then (expire_single plan a (some actor) >> raise approval_expired)
        else approve_current plan a actor text mfa_verified in
      let step4 =
        ap
          (λ b.
            ((check b not_pending >> (gets (λ x. x.now) >>= λ now. late (ltb a.expires_at now)))
              s).1.approvals)
          pending in
      let step5 = ap (λ b. (late b s).1.approvals) (lt→ltb a.expires_at s.now overdue) in
      step1
      ∙ step2
      ∙ step3
      ∙ step4
      ∙ step5
      ∙ raised_after plan a (some actor) s
      ∙ expire_single_approvals plan a (some actor) s

  overdue_raises :
      (s : Session) {a : RemediationApproval}
      → stored_approval t id s ≡ some a
      → a.expires_at < s.now
      → (approve lib t id actor reason mfa_verified s).0 ≢ ok tt
  unfolding Approve
  overdue_raises s {a = a} found overdue h =
      let (plan, b, found_b, plan_found, has_reason, pending, current, grantable, effect) =
        approve_ok lib t id actor reason mfa_verified s
          (λ i. (h i, (approve lib t id actor reason mfa_verified s).1)) in
      let same = ap (λ x. x.expires_at) (some-injective (sym found_b ∙ found)) in
      omega (arith, same, current, overdue)

  -- `approve` of a pending approval after its expiry, with a reason that is not blank when it is sanitized
  -- and with a stored plan, raises; of the approvals it has
  -- written that row alone, which is now expired, whether the plan's own transition raises or not.
  pub approve_overdue :
      (s : Session) {a : RemediationApproval} {plan : RemediationPlan}
      → is_empty (sanitize_text lib reason) ≡ false
      → stored_approval t id s ≡ some a
      → stored t a.plan_id s ≡ some plan
      → is_pending a.status ≡ true
      → a.expires_at < s.now
      → ((approve lib t id actor reason mfa_verified s).0 ≢ ok tt)
        × ((approve lib t id actor reason mfa_verified s).1.approvals
            ≡ update (is_approval a.tenant_id a.id) (expire s.now) s.approvals)
  approve_overdue s has_reason found plan_found pending overdue = (
    overdue_raises s found overdue,
    overdue_approvals s has_reason found plan_found pending overdue,
  )
