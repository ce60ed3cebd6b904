-- ===== src/Remediation/Execution/Run/Effects.antt =====
-- What the body of execute_job leaves alone.
use authclaw_mvp.Common.{ℕ, Bool, true, false, ◌&&◌, Option, none, some, if◌then◌else◌}
use authclaw_mvp.Common.Exec.{◌>>◌, pure, when, Keeps, Keeps-bind, keeps_rules}
use authclaw_mvp.Remediation.{
  RemediationPlanStatus, RemediationPlan, RemediationArtifact, EventKind,
}
use authclaw_mvp.Remediation.Machine.{find_plan}
use authclaw_mvp.Remediation.Execution.{
  RemediationExecutionJob, RemediationVerificationResult, Adapter, ExecutionFailure, World, Work,
  in_session, require, ExecutionLibrary, find_job, dry_run_by_id,
}
use authclaw_mvp.Remediation.Execution.Jobs.{
  ExecutionOutcome, move_plan, emit_job, set_job, next_id, add_verification, success_of,
  new_verification, plan_succeeded, verify_plan, record_verification, verify_unless_found,
  verify_execution, after_success, require_rollback, after_failure,
}
use authclaw_mvp.Remediation.Execution.Run.{run_job}

-- The steps that write keep `P`.
pub record Unaffected (P : World → Type 0) : Type 0 where
  pub move : (t p : ℕ) (next : RemediationPlanStatus) → Keeps P (move_plan t p next)
  pub publish : (kind : EventKind) (p : ℕ) (actor : Option ℕ) → Keeps P (emit_job kind p actor)
  pub write :
      (job : RemediationExecutionJob) (f : RemediationExecutionJob → RemediationExecutionJob)
      → Keeps P (set_job job f)
  pub supply : Keeps P next_id
  pub add : (v : RemediationVerificationResult) → Keeps P (add_verification v)
  pub read : (t p : ℕ) → Keeps P (in_session (find_plan t p))

module _ {P : World → Type 0} where
  pub Keeps-require : {A : Type 0} (e : ExecutionFailure) (o : Option A) → Keeps P (require e o)
  Keeps-require e none = record { at = λ s h. h }
  Keeps-require e (some a) = record { at = λ s h. h }

  pub Keeps-choose :
      {A : Type 0} (b : Bool) (m n : Work A) → Keeps P m → Keeps P n → Keeps P (if b then m else n)
  Keeps-choose true m n km kn = km
  Keeps-choose false m n km kn = kn

  pub Keeps-find_job : (t id : ℕ) → Keeps P (find_job t id)
  Keeps-find_job t id = search (keeps_rules, Keeps-require) depth 10

  pub Keeps-dry_run_by_id : (t : ℕ) (id : Option ℕ) → Keeps P (dry_run_by_id t id)
  Keeps-dry_run_by_id t none = search keeps_rules
  Keeps-dry_run_by_id t (some id) = search (keeps_rules, Keeps-require) depth 10

  module _ (u : Unaffected P) (lib : ExecutionLibrary) (t : ℕ) where
    Keeps-record_verification :
        (job : RemediationExecutionJob) (plan : RemediationPlan) (o : Option ExecutionOutcome)
        → Keeps P (record_verification lib t job plan o)
    unfolding record_verification
    Keeps-record_verification job plan o =
        Keeps-bind next_id
          (λ id.
            add_verification (new_verification lib t job plan o id)
            >> when (success_of o job.status && plan_succeeded plan.status) (verify_plan t plan)
            >> pure (new_verification lib t job plan o id))
          u.supply (λ id. search (keeps_rules, u.move, u.publish, u.add) depth 30)

    Keeps-verify_unless_found :
        (job : RemediationExecutionJob) (plan : RemediationPlan) (o : Option ExecutionOutcome)
        (found : Option RemediationVerificationResult)
        → Keeps P (verify_unless_found lib t job plan o found)
    unfolding verify_unless_found
    Keeps-verify_unless_found job plan o none = Keeps-record_verification job plan o
    Keeps-verify_unless_found job plan o (some v) = search keeps_rules

    Keeps-verify_execution :
        (id : ℕ) (o : Option ExecutionOutcome) → Keeps P (verify_execution lib t id o)
    unfolding verify_execution
    Keeps-verify_execution id o =
        search (keeps_rules, u.read, Keeps-find_job, Keeps-dry_run_by_id, Keeps-verify_unless_found)
          depth 30

    Keeps-require_rollback :
        (job : RemediationExecutionJob) (plan : RemediationPlan)
        → Keeps P (require_rollback t job plan)
    Keeps-require_rollback job plan = search (keeps_rules, u.move, u.publish, u.write) depth 20

    Keeps-after_success :
        (job : RemediationExecutionJob) (plan : RemediationPlan) (o : ExecutionOutcome)
        → Keeps P (after_success lib t job plan o)
    unfolding after_success
    Keeps-after_success job plan o =
        search (keeps_rules, u.move, u.publish, u.write, Keeps-verify_execution) depth 30

    Keeps-after_failure :
        (job : RemediationExecutionJob) (plan : RemediationPlan) (o : ExecutionOutcome)
        → Keeps P (after_failure lib t job plan o)
    unfolding after_failure
    Keeps-after_failure job plan o =
        search
          (keeps_rules, u.move, u.publish, u.write, Keeps-verify_execution, Keeps-require_rollback)
          depth 30

    pub Keeps-run_job :
        (job : RemediationExecutionJob) (plan : RemediationPlan) (artifact : RemediationArtifact)
        (adapter : Adapter)
        → Keeps P (run_job lib t job plan artifact adapter)
    unfolding run_job
    Keeps-run_job job plan artifact adapter =
        search
          (
            keeps_rules, u.move, u.publish, u.write, Keeps-choose, Keeps-after_success,
            Keeps-after_failure,
          )
          depth 30
