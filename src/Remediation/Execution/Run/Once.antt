-- ===== src/Remediation/Execution/Run/Once.antt =====
-- A run of a job uses its approval up.
use authclaw_mvp.Common.{
  ℕ, ◌≡◌, ◌≢◌, refl, sym, ap, subst, ◌∙◌, true, false, ◌&&◌, Option, none, some, List, ◌==◌, Result,
  ok, err, arith, some-injective,
}
use authclaw_mvp.Common.Exec.{
  ◌>>=◌, ◌>>◌, check, continue, bind_ok, check_then_ok, Keeps, keeps_rules,
}
use authclaw_mvp.Common.Tables.{first, first-holds}
use authclaw_mvp.Remediation.{
  RemediationPlan, RemediationArtifact, RemediationApproval, Session, Failure, Action, is_approval,
}
use authclaw_mvp.Remediation.Machine.{find_plan, transition_plan}
use authclaw_mvp.Remediation.Machine.Validation.{find_plan_ok, Keeps-or_raise}
use authclaw_mvp.Remediation.Approval.Expiry.{Keeps-transition_plan}
use authclaw_mvp.Remediation.Approval.Binding.{
  ApprovalVerificationResult, use_approval, verify_approval_for_dry_run,
  verify_approval_for_controlled_execution_start,
}
use authclaw_mvp.Remediation.Approval.Binding.SingleUse.{stored_approval, consumed, used_raises}
use authclaw_mvp.Remediation.WorkerToken.{TokenAction}
use authclaw_mvp.Remediation.Execution.{
  RemediationDryRunResult, RemediationVerificationResult, Adapter, ExecutionFailure, workflow,
  dry_run_not_found, approval_not_found, artifact_not_found, job_not_found, tenant_mismatch,
  other_plan, plan_not_approved, World, Work, map_error, in_session, in_tokens, require,
  ExecutionLibrary, RemediationExecutionJob, is_job, dry_run_by_id, find_artifact,
  find_bound_approval, may_execute, ExecutionEligibility, eligible_verified, eligibility,
}
use authclaw_mvp.Remediation.Execution.Jobs.{next_id, execution_enabled_context}
use authclaw_mvp.Remediation.Execution.Run.{
  acquire_slot, with_slot, limited_run, start_run, execute_found, execute_job,
}
use authclaw_mvp.Remediation.Execution.Run.Effects.{Unaffected, Keeps-run_job}

-- The approvals of the session stand as `rows`.
abbrev Rows : List RemediationApproval → World → Type 0
Rows rows w = w.session.approvals ≡ rows

Keeps-in_session :
    {A : Type 0} (m : Action A) (rows : List RemediationApproval)
    → Keeps (λ s. s.approvals ≡ rows) m
    → Keeps (Rows rows) (in_session m)
Keeps-in_session m rows k = record { at = λ w h. k.at w.session h }

Keeps-in_tokens :
    {A : Type 0} (m : TokenAction A) (rows : List RemediationApproval)
    → Keeps (Rows rows) (in_tokens m)
Keeps-in_tokens m rows = record { at = λ w h. h }

Keeps-find_plan :
    (t p : ℕ) (rows : List RemediationApproval) → Keeps (λ s. s.approvals ≡ rows) (find_plan t p)
Keeps-find_plan t p rows = search (keeps_rules, Keeps-or_raise) depth 10

approvals_unaffected : (rows : List RemediationApproval) → Unaffected (Rows rows)
unfolding next_id
approvals_unaffected rows = record {
  move = λ t p next.
      Keeps-in_session (transition_plan t p next none execution_enabled_context) rows
        (Keeps-transition_plan t p next none execution_enabled_context rows);
  publish = λ kind p actor. record { at = λ s h. h };
  write = λ job f. record { at = λ s h. h };
  supply = record { at = λ s h. h };
  add = λ v. record { at = λ s h. h };
  read = λ t p. Keeps-in_session (find_plan t p) rows (Keeps-find_plan t p rows);
}

module _ (lib : ExecutionLibrary) (t : ℕ) (rows : List RemediationApproval) where
  Keeps-acquire_slot : Keeps (Rows rows) (acquire_slot lib t)
  unfolding acquire_slot
  Keeps-acquire_slot = record { at = λ s h. h }

  Keeps-with_slot :
      {A : Type 0} (m : Work A) → Keeps (Rows rows) m → Keeps (Rows rows) (with_slot t m)
  unfolding with_slot
  Keeps-with_slot m k = record { at = λ w h. k.at w h }

  module _ (job : RemediationExecutionJob) (plan : RemediationPlan) (artifact : RemediationArtifact)
      (adapter : Adapter) where
    Keeps-limited_run : Keeps (Rows rows) (limited_run lib t job plan artifact adapter)
    unfolding limited_run
    Keeps-limited_run =
        search
          (
            keeps_rules,
            Keeps-acquire_slot,
            Keeps-with_slot,
            Keeps-run_job (approvals_unaffected rows),
          )
          depth 20

    Keeps-start_run :
        (v : ApprovalVerificationResult)
        → Keeps (Rows rows) (start_run lib t job plan artifact adapter v)
    unfolding start_run
    Keeps-start_run v =
        search (keeps_rules, Keeps-in_session, Keeps-find_plan, Keeps-in_tokens, Keeps-limited_run)
          depth 20

module _ {A B : Type 0} where
  pub require_then_ok :
      (e : ExecutionFailure) (o : Option A) (f : A → Work B) (w : World) {b : B} {w' : World}
      → (require e o >>= f) w ≡ (ok b, w')
      → (a : A) × (o ≡ some a) × (f a w ≡ (ok b, w'))
  require_then_ok e none f w h = absurd (ground arith)
  require_then_ok e (some a) f w h = (a, refl, h)

  -- A call of the session's services that returns.
  returned_then :
      (r : Result Failure A) (s : Session) (f : A → Work B) (w : World) {b : B} {w' : World}
      → continue (map_error workflow r) f (record w { session = s }) ≡ (ok b, w')
      → (a : A) × (◌≡◌ {A = Result Failure A × Session} (r, s) (ok a, s))
        × (f a (record w { session = s }) ≡ (ok b, w'))
  returned_then (ok a) s f w h = (a, refl, h)
  returned_then (err e) s f w h = absurd (ground arith)

  pub session_then_ok :
      (m : Action A) (f : A → Work B) (w : World) {b : B} {w' : World}
      → (in_session m >>= f) w ≡ (ok b, w')
      → (a : A) × (s : Session) × (m w.session ≡ (ok a, s))
        × (f a (record w { session = s }) ≡ (ok b, w'))
  session_then_ok m f w h =
      let (a, e, rest) = returned_then (m w.session).0 (m w.session).1 f w h in
      (a, (m w.session).1, e, rest)

module _ {B : Type 0} (t : ℕ) where
  dry_run_then_ok :
      (o : Option ℕ) (f : RemediationDryRunResult → Work B) (w : World) {b : B} {w' : World}
      → (dry_run_by_id t o >>= f) w ≡ (ok b, w')
      → (d : RemediationDryRunResult) × (f d w ≡ (ok b, w'))
  dry_run_then_ok none f w h = absurd (ground arith)
  dry_run_then_ok (some id) f w h =
      let (d, found, rest) =
        require_then_ok dry_run_not_found (first (λ d. d.tenant_id == t && d.id == id) w.dry_runs) f
          w h in
      (d, rest)

  approval_then_ok :
      (p : ℕ) (o : Option ℕ) (f : RemediationApproval → Work B) (w : World) {b : B} {w' : World}
      → (find_bound_approval t p o >>= f) w ≡ (ok b, w')
      → (a : RemediationApproval) × (o ≡ some a.id) × (f a w ≡ (ok b, w'))
  approval_then_ok p none f w h = absurd (ground arith)
  approval_then_ok p (some id) f w h =
      let test = λ (a : RemediationApproval). a.tenant_id == t && a.plan_id == p && a.id == id in
      let (a, found, rest) =
        require_then_ok approval_not_found (first test w.session.approvals) f w h in
      let holds = first-holds test w.session.approvals found in
      let same : id ≡ a.id = ground arith in (a, ap some same, rest)

module _ (lib : ExecutionLibrary) (t : ℕ) (job : RemediationExecutionJob) (actor : Option ℕ) where
  abbrev pub from_verification :
      RemediationPlan
      → RemediationArtifact
      → RemediationApproval
      → ExecutionEligibility
      → Work RemediationVerificationResult
  from_verification plan artifact a eligible =
      in_session (verify_approval_for_controlled_execution_start t plan.id a.id actor) >>= λ v.
      start_run lib t job plan artifact eligible.adapter v

  abbrev pub from_approval :
      RemediationPlan
      → RemediationArtifact
      → RemediationApproval
      → Work RemediationVerificationResult
  from_approval plan artifact a =
      eligibility lib t plan artifact a >>= from_verification plan artifact a

  abbrev pub from_artifact :
      RemediationPlan → RemediationArtifact → Work RemediationVerificationResult
  from_artifact plan artifact =
      find_bound_approval t plan.id job.approval_id >>= λ a. from_approval plan artifact a

  abbrev pub from_plan :
      RemediationDryRunResult → RemediationPlan → Work RemediationVerificationResult
  from_plan d plan =
      find_artifact t plan.id d.artifact_id >>= λ artifact. from_artifact plan artifact

  -- A run that returns has read its plan, its artifact and its approval, and changed nothing before.
  pub execute_found_ok :
      (w : World) {r : RemediationVerificationResult} {w' : World}
      → execute_found lib t job actor w ≡ (ok r, w')
      → (plan : RemediationPlan) × (artifact : RemediationArtifact) × (a : RemediationApproval)
        × (job.approval_id ≡ some a.id)
        × (from_approval plan artifact a w ≡ (ok r, w'))
  unfolding execute_found
  execute_found_ok w {r = r} {w' = w'} h =
      let (d, h1) =
        dry_run_then_ok t job.dry_run_result_id
          (λ d. in_session (find_plan t job.plan_id) >>= λ plan. from_plan d plan) w h in
      let (plan, s, read, h2) = session_then_ok (find_plan t job.plan_id) (from_plan d) w h1 in
      let unchanged = (find_plan_ok t job.plan_id w.session read).1 in
      let h3 : from_plan d plan w ≡ (ok r, w') =
        ap (λ x. from_plan d plan (record w { session = x })) (sym unchanged) ∙ h2 in
      let (artifact, found, h4) =
        require_then_ok artifact_not_found
          (first (λ a. a.tenant_id == t && a.plan_id == plan.id && a.id == d.artifact_id)
            w.session.artifacts)
          (from_artifact plan) w h3 in
      let (a, bound, h5) =
        approval_then_ok t plan.id job.approval_id (from_approval plan artifact) w h4 in
      (plan, artifact, a, bound, h5)

  eligibility_ok :
      (plan : RemediationPlan) (artifact : RemediationArtifact) (a : RemediationApproval)
      (w : World) {e : ExecutionEligibility} {w' : World}
      → eligibility lib t plan artifact a w ≡ (ok e, w')
      → (v : ApprovalVerificationResult) × (s : Session) × (verify_approval_for_dry_run t plan.id
            a.id none w.session
          ≡ (ok v, s))
  unfolding eligibility
  eligibility_ok plan artifact a w h =
      let verify = in_session (verify_approval_for_dry_run t plan.id a.id none) >>= λ v.
      eligible_verified lib t plan artifact a v in
      let (one, h1) =
        check_then_ok (plan.tenant_id == t && artifact.tenant_id == t && a.tenant_id == t)
          tenant_mismatch
          (check (artifact.plan_id == plan.id && a.plan_id == plan.id) other_plan
            >> (check (may_execute plan.status) plan_not_approved >> verify))
          w h in
      let (two, h2) =
        check_then_ok (artifact.plan_id == plan.id && a.plan_id == plan.id) other_plan
          (check (may_execute plan.status) plan_not_approved >> verify) w h1 in
      let (three, h3) = check_then_ok (may_execute plan.status) plan_not_approved verify w h2 in
      let (v, s, verified, rest) =
        session_then_ok (verify_approval_for_dry_run t plan.id a.id none)
          (λ v. eligible_verified lib t plan artifact a v) w h3 in
      (v, s, verified)

  -- A run that returns leaves its approval used.
  execute_found_uses :
      (w : World) {r : RemediationVerificationResult} {w' : World}
      → execute_found lib t job actor w ≡ (ok r, w')
      → (id : ℕ) × (a : RemediationApproval) × (job.approval_id ≡ some id)
        × (stored_approval t id w'.session ≡ some (use_approval a))
  execute_found_uses w {w' = w'} h =
      let (plan, artifact, a, bound, h1) = execute_found_ok w h in
      let (e, w1, eligible, h2) =
        bind_ok (eligibility lib t plan artifact a) (from_verification plan artifact a) w h1 in
      let (v, s, verified, h3) =
        session_then_ok (verify_approval_for_controlled_execution_start t plan.id a.id actor)
          (λ v. start_run lib t job plan artifact e.adapter v) w1 h2 in
      let (b, used) = consumed t plan.id a.id false actor w1.session verified in
      let kept =
        (Keeps-start_run lib t s.approvals job plan artifact e.adapter v).at
          (record w1 { session = s }) refl in
      (
        a.id,
        b,
        bound,
        ap (first (is_approval t a.id)) (ap (λ x. x.1.session.approvals) (sym h3) ∙ kept) ∙ used,
      )

-- A job whose approval is used does not run.
used_stops :
    (lib : ExecutionLibrary) (t : ℕ) (job : RemediationExecutionJob) (actor : Option ℕ) (id : ℕ)
    (a : RemediationApproval) (w : World) {r : RemediationVerificationResult} {w' : World}
    → job.approval_id ≡ some id
    → stored_approval t id w.session ≡ some (use_approval a)
    → execute_found lib t job actor w ≢ (ok r, w')
used_stops lib t job actor id a w same used h =
    let (plan, artifact, b, bound, h1) = execute_found_ok lib t job actor w h in
    let (e, w1, eligible, h2) =
      bind_ok (eligibility lib t plan artifact b)
        (from_verification lib t job actor plan artifact b) w h1 in
    let (v, s, verified) = eligibility_ok lib t job actor plan artifact b w eligible in
    let id_of : id ≡ b.id = some-injective (sym same ∙ bound) in
    used_raises t plan.id b.id false true none w.session
      (subst (λ n. stored_approval t n w.session ≡ some (use_approval a)) id_of used) refl verified

-- An approval starts one run: after a job has been run and returned, no job of the tenant that names
-- the same approval, that job included, returns from a run.
pub execute_job-once :
    (lib : ExecutionLibrary) (t job_id job_id' : ℕ) (actor actor' : Option ℕ) (w : World)
    {job job' : RemediationExecutionJob} {r r' : RemediationVerificationResult} {w' w'' : World}
    → execute_job lib t job_id actor w ≡ (ok r, w')
    → first (is_job t job_id) w.jobs ≡ some job
    → first (is_job t job_id') w'.jobs ≡ some job'
    → job'.approval_id ≡ job.approval_id
    → execute_job lib t job_id' actor' w' ≢ (ok r', w'')
unfolding execute_job
execute_job-once lib t job_id job_id' actor actor' w {job = job} {job' = job'} {w' = w'} run found
      found' same again =
    let (j, read, h) =
      require_then_ok job_not_found (first (is_job t job_id) w.jobs)
        (λ j. execute_found lib t j actor) w run in
    let (j', read', h') =
      require_then_ok job_not_found (first (is_job t job_id') w'.jobs)
        (λ j. execute_found lib t j actor') w' again in
    let (id, a, bound, used) = execute_found_uses lib t j actor w h in
    let of_first : j ≡ job = some-injective (sym read ∙ found) in
    let of_second : job' ≡ j' = some-injective (sym found' ∙ read') in
    used_stops lib t j' actor' id a w'
      (ap (λ x. x.approval_id) (sym of_second)
        ∙ same
        ∙ ap (λ x. x.approval_id) (sym of_first)
        ∙ bound)
      used h'
