-- ===== src/Remediation/Approval/Binding/SingleUse.antt =====
-- An approval is used once.
use authclaw_mvp.Common.{
  ℕ, ◌≤◌, ◌≡◌, ◌≢◌, refl, sym, ap, ◌∙◌, Bool, true, false, not, ◌&&◌, Option, some, List, arith,
  ltb, ◌==◌, if◌then◌else◌, Result, ok, err,
}
use authclaw_mvp.Common.Exec.{
  bind_ok, check_then_ok, check, gets, pure, when, Keeps, keeps_rules, ◌>>◌, ◌>>=◌,
}
use authclaw_mvp.Common.Tables.{first, update, first-holds, first-update}
use authclaw_mvp.Remediation.{
  RemediationApprovalStatus, RemediationPlan, RemediationApproval, Session, Failure, Action,
  is_approval, emit, Event,
}
use authclaw_mvp.Remediation.Failure.{
  plan_not_found, approval_not_found, plan_not_approved, approval_of_other_plan, approval_used,
  approval_not_approved,
}
use authclaw_mvp.Remediation.Machine.{is_approved}
use authclaw_mvp.Remediation.Machine.Validation.{stored, Keeps-or_raise, or_raise_then_ok}
use authclaw_mvp.Common.{some-injective}
use authclaw_mvp.Remediation.Approval.{find_approval, set_approval, is_used, is_plan_approved}
use authclaw_mvp.Remediation.Approval.Binding.{
  verify_mfa, verify_bound, verify_current, verify_rows, verify_approval_binding,
  ApprovalVerificationResult, report_blocked, use_approval, blocked, expire_approval,
}

abbrev pub stored_approval : ℕ → ℕ → Session → Option RemediationApproval
stored_approval tenant id s = first (is_approval tenant id) s.approvals

-- What a verification that passes has found.
pub record Verified (t p id : ℕ) (s : Session) (approval : RemediationApproval) : Type 0 where
  pub found : stored_approval t id s ≡ some approval
  pub same_plan : approval.plan_id ≡ p
  pub is_granted : is_approved approval.status ≡ true
  pub current : s.now ≤ approval.expires_at

pub Keeps-emit :
    (e : Event) (rows : List RemediationApproval) → Keeps (λ x. x.approvals ≡ rows) (emit e)
Keeps-emit e rows = record { at = λ s h. h }

Keeps-verify_mfa :
    (plan : RemediationPlan) (a : RemediationApproval) (actor : Option ℕ)
    (rows : List RemediationApproval)
    → Keeps (λ x. x.approvals ≡ rows) (verify_mfa plan a actor)
unfolding verify_mfa
Keeps-verify_mfa plan a actor rows = search (keeps_rules, Keeps-emit) depth 30

-- The reads of the verification leave the approvals as they are.
Keeps-verify_bound :
    (plan : RemediationPlan) (a : RemediationApproval) (actor : Option ℕ)
    (rows : List RemediationApproval)
    → Keeps (λ x. x.approvals ≡ rows) (verify_bound plan a actor)
unfolding verify_bound
Keeps-verify_bound plan a actor rows =
    search (keeps_rules, Keeps-or_raise, Keeps-verify_mfa) depth 40

used_not_granted :
    (status : RemediationApprovalStatus) → is_used status ≡ true → is_approved status ≢ true
used_not_granted RemediationApprovalStatus.used h g = ground arith
used_not_granted _ h g = ground arith

pub if_ok :
    {A : Type 0} (b : Bool) (m n : Action A) (s : Session) {r : A} {s' : Session}
    → ((v : A) → m s ≢ (ok v, s'))
    → (if b then m else n) s ≡ (ok r, s')
    → (b ≡ false) × (n s ≡ (ok r, s'))
if_ok true m n s {r = r} never h = absurd (never r h)
if_ok false m n s never h = (refl, h)

consume_ok :
    (m : Action Bool) (a : RemediationApproval) (f : Bool → ApprovalVerificationResult)
    (s : Session) {r : ApprovalVerificationResult} {s' : Session}
    → ((rows : List RemediationApproval) → Keeps (λ x. x.approvals ≡ rows) m)
    → (m >>= λ b. when true (set_approval a use_approval) >> pure (f b)) s ≡ (ok r, s')
    → s'.approvals ≡ update (is_approval a.tenant_id a.id) use_approval s.approvals
consume_ok m a f s k h =
    let (b, s1, e, rest) =
      bind_ok m (λ b. when true (set_approval a use_approval) >> pure (f b)) s h in
    ap (λ x. x.1.approvals) (sym rest)
    ∙ ap (update (is_approval a.tenant_id a.id) use_approval)
        (ap (λ x. x.1.approvals) (sym e) ∙ (k s.approvals).at s refl)

abbrev pub result : RemediationPlan → RemediationApproval → Bool → ApprovalVerificationResult
result plan a has_envelope = record {
  approval_id = a.id;
  plan_id = plan.id;
  artifact_hash = a.artifact_hash;
  policy_check_hash = a.policy_check_hash;
  has_envelope = has_envelope;
}

verify_current_ok :
    (plan : RemediationPlan) (a : RemediationApproval) (req : Bool) (actor : Option ℕ) (s : Session)
    {r : ApprovalVerificationResult} {s' : Session}
    → verify_current plan a true req actor s ≡ (ok r, s')
    → s'.approvals ≡ update (is_approval a.tenant_id a.id) use_approval s.approvals
unfolding verify_current
verify_current_ok plan a req actor s h =
    let body = λ (b : Bool). when true (set_approval a use_approval) >> pure (result plan a b) in
    let (passes, rest) =
      check_then_ok (not (req && not (is_plan_approved plan.status))) plan_not_approved
        (verify_bound plan a actor >>= body) s h in
    consume_ok (verify_bound plan a actor) a (result plan a) s (Keeps-verify_bound plan a actor)
      rest

-- The body of `try`, for the rows that were read.
verify_rows_ok :
    (t id : ℕ) (plan : RemediationPlan) (a : RemediationApproval) (consume req : Bool)
    (actor : Option ℕ) (s : Session) {r : ApprovalVerificationResult} {s' : Session}
    → stored_approval t id s ≡ some a
    → verify_rows plan a consume req actor s ≡ (ok r, s')
    → Verified t plan.id id s a × (verify_current plan a consume req actor s ≡ (ok r, s'))
unfolding verify_rows
verify_rows_ok t id plan a consume req actor s {s' = s'} found h =
    let last = gets (λ x. x.now) >>= λ now.
    if ltb a.expires_at now
    then expire_approval plan a actor
    else verify_current plan a consume req actor in
    let (same, h1) =
      check_then_ok (a.plan_id == plan.id) approval_of_other_plan
        (check (not (is_used a.status)) approval_used
          >> (check (is_approved a.status) approval_not_approved >> last))
        s h in
    let (fresh, h2) =
      check_then_ok (not (is_used a.status)) approval_used
        (check (is_approved a.status) approval_not_approved >> last) s h1 in
    let (granted, h3) = check_then_ok (is_approved a.status) approval_not_approved last s h2 in
    let (current, h4) =
      if_ok (ltb a.expires_at s.now) (expire_approval plan a actor)
        (verify_current plan a consume req actor) s (λ v h. ground arith) h3 in
    (
      record {
        found = found;
        same_plan = ground arith;
        is_granted = granted;
        current = ground arith;
      },
      h4,
    )

blocked_ok :
    (plan : RemediationPlan) (a : RemediationApproval)
    (x : Result Failure ApprovalVerificationResult) (y : Session) {r : ApprovalVerificationResult}
    {s' : Session}
    → blocked plan a x y ≡ (ok r, s')
    → ◌≡◌ {A = Result Failure ApprovalVerificationResult × Session} (x, y) (ok r, s')
blocked_ok plan a (ok v) y h = h
blocked_ok plan a (err e) y h = absurd (ground arith)

report_ok :
    (plan : RemediationPlan) (a : RemediationApproval) (m : Action ApprovalVerificationResult)
    (s : Session) {r : ApprovalVerificationResult} {s' : Session}
    → report_blocked plan a m s ≡ (ok r, s')
    → m s ≡ (ok r, s')
report_ok plan a m s h = blocked_ok plan a (m s).0 (m s).1 h

-- A verification that returns has found the approval of the plan, granted and current.
pub verify_ok :
    (t p id : ℕ) (consume req : Bool) (actor : Option ℕ) (s : Session)
    {r : ApprovalVerificationResult} {s' : Session}
    → verify_approval_binding t p id consume req actor s ≡ (ok r, s')
    → (plan : RemediationPlan) × (a : RemediationApproval) × (stored t p s ≡ some plan)
      × Verified t plan.id id s a
      × (verify_current plan a consume req actor s ≡ (ok r, s'))
unfolding verify_approval_binding
verify_ok t p id consume req actor s {s' = s'} h =
    let (plan, plan_found, h1) =
      or_raise_then_ok plan_not_found (stored t p s)
        (λ x. find_approval t id >>= λ a. report_blocked x a (verify_rows x a consume req actor)) s
        h in
    let (a, found, h2) =
      or_raise_then_ok approval_not_found (stored_approval t id s)
        (λ x. report_blocked plan x (verify_rows plan x consume req actor)) s h1 in
    let (verified, rest) =
      verify_rows_ok t id plan a consume req actor s found
        (report_ok plan a (verify_rows plan a consume req actor) s h2) in
    (plan, a, plan_found, verified, rest)

-- A used approval verifies no run, of any plan.
pub used_raises :
    (t p id : ℕ) (consume req : Bool) (actor : Option ℕ) (s : Session) {a : RemediationApproval}
    {r : ApprovalVerificationResult} {s' : Session}
    → stored_approval t id s ≡ some a
    → is_used a.status ≡ true
    → verify_approval_binding t p id consume req actor s ≢ (ok r, s')
used_raises t p id consume req actor s {a = a} found used h =
    let (plan, b, plan_found, verified, rest) = verify_ok t p id consume req actor s h in
    used_not_granted b.status
      (ap (λ x. is_used x.status) (some-injective (sym verified.found ∙ found)) ∙ used)
      verified.is_granted

use_first :
    (t id : ℕ) (rows : List RemediationApproval) {a : RemediationApproval}
    → first (is_approval t id) rows ≡ some a
    → first (is_approval t id) (update (is_approval a.tenant_id a.id) use_approval rows)
      ≡ some (use_approval a)
use_first t id rows {a = a} found =
    let holds = first-holds (is_approval t id) rows found in
    let same_tenant : a.tenant_id ≡ t = ground arith in
    let same_id : a.id ≡ id = ground arith in
    (λ i.
      first (is_approval t id) (update (is_approval (same_tenant i) (same_id i)) use_approval rows))
    ∙ first-update (is_approval t id) use_approval rows (λ y h. h) found

pub consumed :
    (t p id : ℕ) (req : Bool) (actor : Option ℕ) (s : Session) {r : ApprovalVerificationResult}
    {s' : Session}
    → verify_approval_binding t p id true req actor s ≡ (ok r, s')
    → (a : RemediationApproval) × (stored_approval t id s' ≡ some (use_approval a))
consumed t p id req actor s {s' = s'} h =
    let (plan, a, plan_found, verified, rest) = verify_ok t p id true req actor s h in
    (
      a,
      ap (first (is_approval t id)) (verify_current_ok plan a req actor s rest)
          ∙ use_first t id s.approvals verified.found,
    )

-- An approval is consumed once: after a verification for a run has returned, no verification of it
-- returns, for a run of any kind, with any plan and any actor.
pub single_use :
    (t p id q : ℕ) (consume req req' : Bool) (actor actor' : Option ℕ) (s : Session)
    {r r' : ApprovalVerificationResult} {s' s'' : Session}
    → verify_approval_binding t p id true req actor s ≡ (ok r, s')
    → verify_approval_binding t q id consume req' actor' s' ≢ (ok r', s'')
single_use t p id q consume req req' actor actor' s {s' = s'} h =
    let (a, found) = consumed t p id req actor s h in
    used_raises t q id consume req' actor' s' found refl
