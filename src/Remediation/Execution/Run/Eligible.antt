-- ===== src/Remediation/Execution/Run/Eligible.antt =====
-- What a job must be to run.
use authclaw_mvp.Common.{
  ℕ, ◌≡◌, refl, sym, ap, subst, ◌∙◌, Bool, true, false, not, ◌&&◌, ◌||◌, Option, none, some, List,
  [], ◌∷◌, ◌==◌, if◌then◌else◌, All, Text, ok, arith, not-true→false, ok-injective,
}
use authclaw_mvp.Common.Exec.{◌>>=◌, ◌>>◌, pure, gets, check, bind_ok, check_then_ok}
use authclaw_mvp.Common.Tables.{select}
use authclaw_mvp.Common.Texts.{same_text, same_text→≡}
use authclaw_mvp.ApiSafety.{sanitize_text}
use authclaw_mvp.Remediation.{RemediationPlan, RemediationArtifact, RemediationApproval}
use authclaw_mvp.Remediation.Approval.{policy_check_by_hash, bound_to}
use authclaw_mvp.Remediation.Approval.Binding.{
  ApprovalVerificationResult, verify_approval_for_dry_run,
}
use authclaw_mvp.Remediation.Execution.{
  Adapter, RemediationDryRunResult, MutationPattern, mutation_patterns, mutation_blocked,
  dry_run_blocked, risk_not_allowed, secret_content, sandbox_blocked, artifact_hash_mismatch,
  check_mismatch, dry_run_required, tenant_mismatch, other_plan, plan_not_approved, World,
  in_session, require, ExecutionLibrary, earlier_run, first_run, latest_run, is_passed,
  latest_passed_dry_run, may_execute, is_nonempty, adapter_type, is_simulated, is_low_risk,
  block_mutations, block_secret_or_mutation_content, ExecutionEligibility, check_matches,
  eligible_for, eligible_content, eligible_verified, eligibility,
}
use authclaw_mvp.Remediation.Execution.Run.Once.{require_then_ok, session_then_ok}

-- A dry run that passed, of the plan's artifact under the approval.
abbrev pub is_passed_run : ℕ → ℕ → ℕ → ℕ → RemediationDryRunResult → Bool
is_passed_run t p artifact a d =
    d.tenant_id == t
    && d.plan_id == p
    && d.artifact_id == artifact
    && bound_to d.approval_id a
    && is_passed d.status

-- Of a plan, its artifact and its approval that may be executed.
pub record Eligible (lib : ExecutionLibrary) (t : ℕ) (plan : RemediationPlan)
    (artifact : RemediationArtifact) (a : RemediationApproval) (e : ExecutionEligibility)
    : Type 0 where
  pub of_tenant : (plan.tenant_id == t && artifact.tenant_id == t && a.tenant_id == t) ≡ true
  pub of_plan : (artifact.plan_id == plan.id && a.plan_id == plan.id) ≡ true
  pub may : may_execute plan.status ≡ true
  pub passed_run : is_passed_run t plan.id artifact.id a.id e.dry_run ≡ true
  pub unblocked : is_nonempty e.dry_run.blocking_reasons ≡ false
  pub risk : (is_simulated e.adapter || is_low_risk plan.risk_level) ≡ true
  pub no_secret :
      sanitize_text lib.text artifact.content_redacted ≡ lib.text.squeeze artifact.content_redacted
  pub no_mutation : All (λ p. lib.search p artifact.content_redacted ≡ false) mutation_patterns
  pub in_sandbox : lib.sandbox_succeeds artifact ≡ true

module _ (p : RemediationDryRunResult → Bool) where
  abbrev Fits : Option RemediationDryRunResult → Type 0
  Fits none = Unit
  Fits (some d) = p d ≡ true

  Fits-if :
      (b : Bool) (x y : RemediationDryRunResult)
      → p x ≡ true
      → p y ≡ true
      → Fits (if b then some x else some y)
  Fits-if true x y hx hy = hx
  Fits-if false x y hx hy = hy

  Fits-first_run :
      (d : RemediationDryRunResult) (o : Option RemediationDryRunResult)
      → p d ≡ true
      → Fits o
      → Fits (first_run d o)
  Fits-first_run d none hd ho = hd
  Fits-first_run d (some x) hd ho = Fits-if (earlier_run d x) x d ho hd

  choose_Fits :
      (b : Bool) (d : RemediationDryRunResult) (rest : List RemediationDryRunResult)
      → p d ≡ b
      → Fits (latest_run rest)
      → Fits (latest_run (if b then d ∷ rest else rest))
  choose_Fits true d rest h fits = Fits-first_run d (latest_run rest) h fits
  choose_Fits false d rest h fits = fits

  latest_run-Fits : (ds : List RemediationDryRunResult) → Fits (latest_run (select p ds))
  latest_run-Fits [] = tt
  latest_run-Fits (d ∷ ds) = choose_Fits (p d) d (select p ds) refl (latest_run-Fits ds)

module _ (lib : ExecutionLibrary) where
  block_mutations_ok :
      (ps : List MutationPattern) (raw : Text) (w : World) {u : Unit {0}} {w' : World}
      → block_mutations lib ps raw w ≡ (ok u, w')
      → All (λ p. lib.search p raw ≡ false) ps
  unfolding block_mutations
  block_mutations_ok [] raw w h = tt
  block_mutations_ok (p ∷ ps) raw w h =
      let (clean, rest) =
        check_then_ok (not (lib.search p raw)) (mutation_blocked p) (block_mutations lib ps raw) w
          h in
      (ground (arith, clean), block_mutations_ok ps raw w rest)

  content_ok :
      (artifact : RemediationArtifact) (w : World) {u : Unit {0}} {w' : World}
      → block_secret_or_mutation_content lib artifact w ≡ (ok u, w')
      → (sanitize_text lib.text artifact.content_redacted
          ≡ lib.text.squeeze artifact.content_redacted)
        × All (λ p. lib.search p artifact.content_redacted ≡ false) mutation_patterns
  unfolding block_secret_or_mutation_content
  content_ok artifact w h =
      let raw = artifact.content_redacted in
      let (same, rest) =
        check_then_ok (same_text (sanitize_text lib.text raw) (lib.text.squeeze raw)) secret_content
          (block_mutations lib mutation_patterns raw) w h in
      (
        same_text→≡ (sanitize_text lib.text raw) (lib.text.squeeze raw) same,
        block_mutations_ok mutation_patterns raw w rest,
      )

  -- The tests that the artifact and the dry run pass.
  abbrev Content :
      RemediationPlan
      → RemediationArtifact
      → RemediationDryRunResult
      → ExecutionEligibility
      → Type 0
  Content plan artifact d e =
      (e.dry_run ≡ d)
      × (is_nonempty d.blocking_reasons ≡ false)
      × ((is_simulated e.adapter || is_low_risk plan.risk_level) ≡ true)
      × (sanitize_text lib.text artifact.content_redacted
          ≡ lib.text.squeeze artifact.content_redacted)
      × All (λ p. lib.search p artifact.content_redacted ≡ false) mutation_patterns
      × (lib.sandbox_succeeds artifact ≡ true)

  eligible_content_ok :
      (plan : RemediationPlan) (artifact : RemediationArtifact) (d : RemediationDryRunResult)
      (w : World) {e : ExecutionEligibility} {w' : World}
      → eligible_content lib plan artifact d w ≡ (ok e, w')
      → Content plan artifact d e
  unfolding eligible_content
  eligible_content_ok plan artifact d w {e = e} {w' = w'} h =
      let sandboxed = λ (x : Adapter).
        check (lib.sandbox_succeeds artifact) sandbox_blocked >> pure (eligible_for x d) in
      let safe = λ (x : Adapter). block_secret_or_mutation_content lib artifact >> sandboxed x in
      let risky = λ (x : Adapter).
        check (is_simulated x || is_low_risk plan.risk_level) risk_not_allowed >> safe x in
      let (unblocked, h1) =
        check_then_ok (not (is_nonempty d.blocking_reasons)) dry_run_blocked
          (adapter_type lib artifact >>= risky) w h in
      let (x, w1, typed, h2) = bind_ok (adapter_type lib artifact) risky w h1 in
      let (risk, h3) =
        check_then_ok (is_simulated x || is_low_risk plan.risk_level) risk_not_allowed (safe x) w1
          h2 in
      let (u, w2, content, h4) =
        bind_ok (block_secret_or_mutation_content lib artifact) (λ u. sandboxed x) w1 h3 in
      let (clean, unmatched) = content_ok artifact w1 content in
      let (in_sandbox, h5) =
        check_then_ok (lib.sandbox_succeeds artifact) sandbox_blocked (pure (eligible_for x d)) w2
          h4 in
      let same : eligible_for x d ≡ e = ok-injective (ap (λ r. r.0) h5) in
      (
        ap (λ r. r.dry_run) (sym same),
        not-true→false (is_nonempty d.blocking_reasons) unblocked,
        ap (λ r. is_simulated r.adapter || is_low_risk plan.risk_level) (sym same) ∙ risk,
        clean,
        unmatched,
        in_sandbox,
      )

  verified_ok :
      (t : ℕ) (plan : RemediationPlan) (artifact : RemediationArtifact) (a : RemediationApproval)
      (v : ApprovalVerificationResult) (w : World) {e : ExecutionEligibility} {w' : World}
      → eligible_verified lib t plan artifact a v w ≡ (ok e, w')
      → (is_passed_run t plan.id artifact.id a.id e.dry_run ≡ true)
        × Content plan artifact e.dry_run e
  unfolding eligible_verified
  verified_ok t plan artifact a v w {e = e} h =
      let found = latest_passed_dry_run t plan.id artifact.id a.id w in
      let last = λ (d : RemediationDryRunResult). eligible_content lib plan artifact d in
      let fetch = gets (latest_passed_dry_run t plan.id artifact.id a.id) >>= λ o.
      require dry_run_required o >>= last in
      let (one, h1) =
        check_then_ok (v.artifact_hash == artifact.artifact_hash) artifact_hash_mismatch
          (gets (λ x. policy_check_by_hash plan v.policy_check_hash x.session) >>= λ c.
            check (check_matches c artifact.id) check_mismatch >> fetch)
          w h in
      let (two, h2) =
        check_then_ok
          (check_matches (policy_check_by_hash plan v.policy_check_hash w.session) artifact.id)
          check_mismatch fetch w h1 in
      let (d, is_found, h3) = require_then_ok dry_run_required found last w h2 in
      let content = eligible_content_ok plan artifact d w h3 in
      let fits : is_passed_run t plan.id artifact.id a.id d ≡ true =
        subst (Fits (is_passed_run t plan.id artifact.id a.id)) is_found
          (latest_run-Fits (is_passed_run t plan.id artifact.id a.id) w.dry_runs) in
      (
        subst (λ x. is_passed_run t plan.id artifact.id a.id x ≡ true) (sym content.0) fits,
        subst (λ x. Content plan artifact x e) (sym content.0) content,
      )

  -- What is eligible passed every test.
  pub eligibility-Eligible :
      (t : ℕ) (plan : RemediationPlan) (artifact : RemediationArtifact) (a : RemediationApproval)
      (w : World) {e : ExecutionEligibility} {w' : World}
      → eligibility lib t plan artifact a w ≡ (ok e, w')
      → Eligible lib t plan artifact a e
  unfolding eligibility
  eligibility-Eligible t plan artifact a w h =
      let verify = in_session (verify_approval_for_dry_run t plan.id a.id none) >>= λ v.
      eligible_verified lib t plan artifact a v in
      let (one, h1) =
        check_then_ok (plan.tenant_id == t && artifact.tenant_id == t && a.tenant_id == t)
          tenant_mismatch
          (check (artifact.plan_id == plan.id && a.plan_id == plan.id) other_plan
            >> (check (may_execute plan.status) plan_not_approved >> verify))
          w h in
      let (two, h2) =
        check_then_ok (artifact.plan_id == plan.id && a.plan_id == plan.id) other_plan
          (check (may_execute plan.status) plan_not_approved >> verify) w h1 in
      let (three, h3) = check_then_ok (may_execute plan.status) plan_not_approved verify w h2 in
      let (v, s, verified, rest) =
        session_then_ok (verify_approval_for_dry_run t plan.id a.id none)
          (λ v. eligible_verified lib t plan artifact a v) w h3 in
      let (passed, content) = verified_ok t plan artifact a v (record w { session = s }) rest in
      record {
        of_tenant = one;
        of_plan = two;
        may = three;
        passed_run = passed;
        unblocked = content.1;
        risk = content.2;
        no_secret = content.3;
        no_mutation = content.4;
        in_sandbox = content.5;
      }
