-- ===== src/Remediation/Machine/Transitions.antt =====
-- What `transition_plan` of remediation_state_machine.py lets through.
use authclaw_mvp.Common.{
  some-injective, ℕ, ◌≡◌, ◌≢◌, refl, sym, ap, ◌∙◌, Bool, true, false, not, ◌&&◌, Option, some, [],
  arith, if◌then◌else◌, ok,
}
use authclaw_mvp.Common.Exec.{bind_ok, check, ◌>>◌, ◌>>=◌}
use authclaw_mvp.Common.Tables.{update}
use authclaw_mvp.Remediation.{RemediationPlanStatus, RemediationPlan, Session, Action, is_plan}
use authclaw_mvp.Remediation.Failure.{invalid_transition}
use authclaw_mvp.Remediation.Machine.{
  is_execution_status, is_allowed, can_transition, Context, or_empty, find_plan, set_plan_status,
  with_status, validate_transition_requirements, emit_status_event, transition_checked,
  transition_plan, block_execution,
}
use authclaw_mvp.Remediation.Machine.Validation.{
  stored, find_plan_ok, Keeps-validate_transition_requirements, check_ok, ApprovedBy,
  validate_approved_ok,
}

-- The rows, without the events.
abbrev pub quiet : Session → Session
quiet s = record s { events = [] }

-- What a transition that is made has found, and done.
pub record Moved (t p : ℕ) (next : RemediationPlanStatus) (context : Context) (s s' : Session)
    : Type 0 where
  pub plan : RemediationPlan
  pub read : stored t p s ≡ some plan
  pub edge : can_transition plan.status next context.execution_enabled ≡ true
  pub required : validate_transition_requirements plan next context s ≡ (ok tt, s)
  pub plans_after : s'.plans ≡ update (is_plan plan.tenant_id plan.id) (with_status next) s.plans
  pub approvals_after : s'.approvals ≡ s.approvals
  pub rows_after :
      quiet s'
      ≡ quiet
          (record s { plans = update (is_plan plan.tenant_id plan.id) (with_status next) s.plans })

emit_status_event_rows :
    (plan : RemediationPlan) (next : RemediationPlanStatus) (actor : Option ℕ) (s : Session)
    → quiet (emit_status_event plan next actor s).1 ≡ quiet s
unfolding emit_status_event
emit_status_event_rows plan RemediationPlanStatus.approval_requested actor s = refl
emit_status_event_rows plan RemediationPlanStatus.approved actor s = refl
emit_status_event_rows plan RemediationPlanStatus.rejected actor s = refl
emit_status_event_rows plan _ actor s = refl

validation_reads :
    (plan : RemediationPlan) (next : RemediationPlanStatus) (context : Context) (s : Session)
    → (validate_transition_requirements plan next context s).1 ≡ s
validation_reads plan next context s =
    (Keeps-validate_transition_requirements {P = λ x. x ≡ s} plan next context).at s refl

transition_checked_ok :
    (t p : ℕ) (plan : RemediationPlan) (next : RemediationPlanStatus) (actor : Option ℕ)
    (context : Context) (s : Session) {u : Unit {0}} {s' : Session}
    → stored t p s ≡ some plan
    → transition_checked plan next actor context s ≡ (ok u, s')
    → Moved t p next context s s'
unfolding transition_checked
transition_checked_ok t p plan next actor context s {s' = s'} read h =
    let write = λ (_ : Unit {0}). set_plan_status plan next >> emit_status_event plan next actor in
    let validate = validate_transition_requirements plan next context in
    let (u1, s1, checked, rest) =
      bind_ok (check (can_transition plan.status next context.execution_enabled) invalid_transition)
        (λ _. validate >>= write) s h in
    let (edge, same1) =
      check_ok (can_transition plan.status next context.execution_enabled) invalid_transition s
        checked in
    let (u2, s2, valid, rest2) =
      bind_ok validate write s (ap (validate >>= write) (sym same1) ∙ rest) in
    let same2 = sym (ap (λ x. x.1) valid) ∙ validation_reads plan next context s in
    let moved = λ (x : Session). record x {
      plans = update (is_plan plan.tenant_id plan.id) (with_status next) x.plans;
    } in
    let same : quiet s' ≡ quiet (moved s) =
      ap (λ x. quiet x.1) (sym rest2)
      ∙ emit_status_event_rows plan next actor (moved s2)
      ∙ ap (λ x. quiet (moved x)) same2 in
    record {
      plan = plan;
      read = read;
      edge = edge;
      required = valid ∙ (λ i. (ok tt, same2 i));
      plans_after = ap (λ x. x.plans) same;
      approvals_after = ap (λ x. x.approvals) same;
      rows_after = same;
    }

blocked_raises :
    (plan : RemediationPlan) (actor : Option ℕ) (s : Session) {u : Unit {0}} {s' : Session}
    → block_execution plan actor s ≢ (ok u, s')
blocked_raises plan actor s h = ground arith

dispatch_ok :
    (b : Bool) (m n : Action (Unit {0})) (s : Session) {u : Unit {0}} {s' : Session}
    → ((v : Unit {0}) → m s ≢ (ok v, s'))
    → (if b then m else n) s ≡ (ok u, s')
    → n s ≡ (ok u, s')
dispatch_ok true m n s never h = absurd (never _ h)
dispatch_ok false m n s never h = h

-- A call that returns has made the transition: the plan read is the tenant's, the edge is allowed from
-- its status, its requirements hold, and but for the events only the status of that plan is changed.
pub transition_plan_ok :
    (t p : ℕ) (next : RemediationPlanStatus) (actor : Option ℕ) (context : Context) (s : Session)
    {s' : Session}
    → transition_plan t p next actor context s ≡ (ok tt, s')
    → Moved t p next context s s'
unfolding transition_plan
transition_plan_ok t p next actor context s {s' = s'} h =
    let blocked = is_execution_status next && not context.execution_enabled in
    let run = λ (plan : RemediationPlan).
      if blocked then block_execution plan actor else transition_checked plan next actor context in
    let (plan, s1, found, rest) = bind_ok (find_plan t p) run s h in
    let (read, same) = find_plan_ok t p s found in
    let moved =
      dispatch_ok blocked (block_execution plan actor) (transition_checked plan next actor context)
        s (λ v. blocked_raises plan actor s {u = v} {s' = s'}) (ap (run plan) (sym same) ∙ rest) in
    transition_checked_ok t p plan next actor context s read moved

only_requested :
    (status : RemediationPlanStatus) (enabled : Bool)
    → can_transition status RemediationPlanStatus.approved enabled ≡ true
    → status ≡ RemediationPlanStatus.approval_requested
unfolding can_transition is_allowed is_execution_status
only_requested RemediationPlanStatus.approval_requested enabled h = refl
only_requested _ enabled h = absurd (ground arith)

-- A plan that waits for an approval has one, by its name and nonce.
unfoldable pub Approvable : ℕ → ℕ → Context → Session → Type 0
Approvable t p context s =
    (plan : RemediationPlan) × (stored t p s ≡ some plan)
    × (plan.status ≡ RemediationPlanStatus.approval_requested)
    × ApprovedBy plan (or_empty context.approval_id) (or_empty context.nonce) s

-- A plan becomes `approved` only from `approval_requested`, and only with an approval of its own that is
-- granted and current, named with its nonce, with an artifact in use and a passing check of its digests.
pub transition_plan-ApprovedBy :
    (t p : ℕ) (actor : Option ℕ) (context : Context) (s : Session) {s' : Session}
    → transition_plan t p RemediationPlanStatus.approved actor context s ≡ (ok tt, s')
    → Approvable t p context s
unfolding validate_transition_requirements Approvable
transition_plan-ApprovedBy t p actor context s h =
    let moved = transition_plan_ok t p RemediationPlanStatus.approved actor context s h in
    (
      moved.plan,
      moved.read,
      only_requested moved.plan.status context.execution_enabled moved.edge,
      validate_approved_ok moved.plan context.approval_id (or_empty context.nonce) s moved.required,
    )

abbrev pub final : RemediationPlanStatus → Bool
final RemediationPlanStatus.rejected = true
final RemediationPlanStatus.expired = true
final RemediationPlanStatus.verified = true
final _ = false

no_edge :
    (status next : RemediationPlanStatus) (enabled : Bool)
    → final status ≡ true
    → can_transition status next enabled ≢ true
unfolding can_transition is_allowed is_execution_status
no_edge RemediationPlanStatus.rejected next enabled hf h = ground arith
no_edge RemediationPlanStatus.expired next enabled hf h = ground arith
no_edge RemediationPlanStatus.verified next enabled hf h = ground arith
no_edge _ next enabled hf h = ground arith

-- A plan that is rejected, expired or verified stays so: every call on it raises.
pub transition_plan-final :
    (t p : ℕ) (next : RemediationPlanStatus) (actor : Option ℕ) (context : Context) (s : Session)
    {plan : RemediationPlan} {s' : Session}
    → stored t p s ≡ some plan
    → final plan.status ≡ true
    → transition_plan t p next actor context s ≢ (ok tt, s')
transition_plan-final t p next actor context s {plan = plan} read hf h =
    let moved = transition_plan_ok t p next actor context s h in
    let same : moved.plan ≡ plan = some-injective (sym moved.read ∙ read) in
    no_edge moved.plan.status next context.execution_enabled (ap (λ x. final x.status) same ∙ hf)
      moved.edge
