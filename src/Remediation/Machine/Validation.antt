-- ===== src/Remediation/Machine/Validation.antt =====
-- The requirements of a transition (remediation_state_machine.py): they read and do not write.
use authclaw_mvp.Common.{
  ℕ, ◌≤◌, ◌≡◌, refl, sym, ap, ◌∙◌, Bool, true, false, Option, none, some, arith, if◌then◌else◌, ok,
}
use authclaw_mvp.Common.Exec.{bind_ok, check, Keeps, keeps_rules, ◌>>=◌}
use authclaw_mvp.Common.Tables.{first}
use authclaw_mvp.Remediation.{
  RemediationPlanStatus, RemediationPlan, RemediationApproval, Session, Failure, Action, is_plan,
}
use authclaw_mvp.Remediation.Failure.{approval_of_other_plan}
use authclaw_mvp.Remediation.Machine.{
  Context, or_empty, is_approved, usable_artifact, check_of_hash, approval_of, or_raise, find_plan,
  validate_transition_requirements, validate_requested, validate_approved, validate_approved_by,
  validate_approval, is_some, passing,
}

-- The plan that a call reads.
abbrev pub stored : ℕ → ℕ → Session → Option RemediationPlan
stored tenant id s = first (is_plan tenant id) s.plans

pub find_plan_ok :
    (t p : ℕ) (s : Session) {plan : RemediationPlan} {s' : Session}
    → find_plan t p s ≡ (ok plan, s')
    → (stored t p s ≡ some plan) × (s' ≡ s)
find_plan_ok t p s h = ground arith

pub Keeps-or_raise :
    {P : Session → Type 0} {A : Type 0} (e : Failure) (o : Option A) → Keeps P (or_raise e o)
Keeps-or_raise e none = record { at = λ s h. h }
Keeps-or_raise e (some a) = record { at = λ s h. h }

-- The validation reads and does not write.
Keeps-validate_requested :
    {P : Session → Type 0} (plan : RemediationPlan) (context : Context)
    → Keeps P (validate_requested plan context)
unfolding validate_requested
Keeps-validate_requested plan context = search (keeps_rules, Keeps-or_raise) depth 30

Keeps-validate_approved_by :
    {P : Session → Type 0} (plan : RemediationPlan) (id nonce : ℕ)
    → Keeps P (validate_approved_by plan id nonce)
unfolding validate_approved_by validate_approval
Keeps-validate_approved_by plan id nonce = search (keeps_rules, Keeps-or_raise) depth 30

pub Keeps-if :
    {P : Session → Type 0} (b : Bool) (m n : Action (Unit {0}))
    → Keeps P m
    → Keeps P n
    → Keeps P (if b then m else n)
Keeps-if true m n hm hn = hm
Keeps-if false m n hm hn = hn

Keeps-validate_approved :
    {P : Session → Type 0} (plan : RemediationPlan) (id : Option ℕ) (nonce : ℕ)
    → Keeps P (validate_approved plan id nonce)
unfolding validate_approved
Keeps-validate_approved plan none nonce = search keeps_rules
Keeps-validate_approved plan (some id) nonce =
    search (keeps_rules, Keeps-if, Keeps-validate_approved_by)

pub Keeps-validate_transition_requirements :
    {P : Session → Type 0} (plan : RemediationPlan) (next : RemediationPlanStatus)
    (context : Context)
    → Keeps P (validate_transition_requirements plan next context)
unfolding validate_transition_requirements
Keeps-validate_transition_requirements plan RemediationPlanStatus.approval_requested context =
    Keeps-validate_requested plan context
Keeps-validate_transition_requirements plan RemediationPlanStatus.approved context =
    search Keeps-validate_approved
Keeps-validate_transition_requirements plan _ context = search keeps_rules

or_raise_ok :
    {A : Type 0} (e : Failure) (o : Option A) (s : Session) {a : A} {s' : Session}
    → or_raise e o s ≡ (ok a, s')
    → (o ≡ some a) × (s' ≡ s)
or_raise_ok e none s h = absurd (ground arith)
or_raise_ok e (some a) s h = ground arith

pub or_raise_then_ok :
    {A B : Type 0} (e : Failure) (o : Option A) (f : A → Action B) (s : Session) {b : B}
    {s' : Session}
    → (or_raise e o >>= f) s ≡ (ok b, s')
    → (a : A) × (o ≡ some a) × (f a s ≡ (ok b, s'))
or_raise_then_ok e none f s h = absurd (ground arith)
or_raise_then_ok e (some a) f s h = (a, refl, h)

pub check_ok :
    (b : Bool) (e : Failure) (s : Session) {u : Unit {0}} {s' : Session}
    → check b e s ≡ (ok u, s')
    → (b ≡ true) × (s' ≡ s)
check_ok true e s h = ground arith
check_ok false e s h = absurd (ground arith)

-- What a plan needs to become `approved`: an approval of its own that is approved, current, and named
-- with its nonce, with an artifact in use and a passing policy check of its digests.
pub record ApprovedBy (plan : RemediationPlan) (id nonce : ℕ) (s : Session) : Type 0 where
  pub approval : RemediationApproval
  pub found : first (approval_of plan id) s.approvals ≡ some approval
  pub is_granted : is_approved approval.status ≡ true
  pub current : s.now ≤ approval.expires_at
  pub same_nonce : approval.nonce ≡ nonce
  pub has_artifact :
      is_some (first (usable_artifact plan approval.artifact_hash) s.artifacts) ≡ true
  pub has_passing_check :
      passing (first (check_of_hash plan approval.policy_check_hash) s.checks) ≡ true

validate_approval_ok :
    (plan : RemediationPlan) (id nonce : ℕ) (a : RemediationApproval) (s : Session) {u : Unit {0}}
    {s' : Session}
    → first (approval_of plan id) s.approvals ≡ some a
    → validate_approval plan nonce a s ≡ (ok u, s')
    → ApprovedBy plan id nonce s
unfolding validate_approval
validate_approval_ok plan id nonce a s found h = record {
  approval = a;
  found = found;
  is_granted = ground arith;
  current = ground arith;
  same_nonce = ground arith;
  has_artifact = ground arith;
  has_passing_check = ground arith;
}

validate_approved_by_ok :
    (plan : RemediationPlan) (id nonce : ℕ) (s : Session) {u : Unit {0}} {s' : Session}
    → validate_approved_by plan id nonce s ≡ (ok u, s')
    → ApprovedBy plan id nonce s
unfolding validate_approved_by
validate_approved_by_ok plan id nonce s h =
    let (a, s1, read, rest) =
      bind_ok (or_raise approval_of_other_plan (first (approval_of plan id) s.approvals))
        (validate_approval plan nonce) s h in
    let (found, same) =
      or_raise_ok approval_of_other_plan (first (approval_of plan id) s.approvals) s read in
    validate_approval_ok plan id nonce a s found
      (ap (validate_approval plan nonce a) (sym same) ∙ rest)

pub validate_approved_ok :
    (plan : RemediationPlan) (id : Option ℕ) (nonce : ℕ) (s : Session) {u : Unit {0}} {s' : Session}
    → validate_approved plan id nonce s ≡ (ok u, s')
    → ApprovedBy plan (or_empty id) nonce s
unfolding validate_approved
validate_approved_ok plan none nonce s h = absurd (ground arith)
validate_approved_ok plan (some id) nonce s {s' = s'} h =
    validate_approved_by_ok plan id nonce s {s' = s'} (ground arith)
