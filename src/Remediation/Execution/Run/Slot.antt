-- ===== src/Remediation/Execution/Run/Slot.antt =====
-- The slot of the limiter that execute_job takes.
use authclaw_mvp.Common.{
  ℕ, ◌≡◌, refl, ap, subst, ◌∙◌, ◌⊎◌, inl, inr, Bool, true, false, not, Option, none, some, List, [],
  ◌∷◌, Text, arith, Bool-cases,
}
use authclaw_mvp.Common.Exec.{
  ◌>>◌, check, Keeps, Keeps-bind, Keeps-check, keeps_rules, Leads, Leads-bind,
}
use authclaw_mvp.RateLimit.Redis.{Redis}
use authclaw_mvp.RateLimit.Limiter.{acquire_remediation_job, release_remediation_job}
use authclaw_mvp.Remediation.{
  RemediationArtifactType, RemediationPlan, RemediationArtifact, RemediationApproval, Action,
}
use authclaw_mvp.Remediation.Approval.Binding.{ApprovalVerificationResult}
use authclaw_mvp.Remediation.WorkerToken.{TokenAction}
use authclaw_mvp.Remediation.Execution.{
  RemediationDryRunResult, Adapter, MutationPattern, ExecutionFailure, mutation_blocked, limited,
  World, Work, in_session, in_tokens, ExecutionLibrary, RemediationExecutionJob, find_job,
  find_artifact, find_bound_approval, default_adapter, adapter_type, block_mutations,
  block_secret_or_mutation_content, eligible_content, eligible_verified, eligibility,
}
use authclaw_mvp.Remediation.Execution.Jobs.{next_id}
use authclaw_mvp.Remediation.Execution.Run.{
  run_job, acquire_slot, with_slot, limited_run, start_run, execute_found, execute_job,
}
use authclaw_mvp.Remediation.Execution.Run.Effects.{
  Unaffected, Keeps-run_job, Keeps-require, Keeps-find_job, Keeps-dry_run_by_id, Keeps-choose,
}

module _ (r : Redis) where
  abbrev Same : World → Type 0
  Same w = w.redis ≡ r

  Keeps-in_session : {A : Type 0} (m : Action A) → Keeps Same (in_session m)
  Keeps-in_session m = record { at = λ s h. h }

  Keeps-in_tokens : {A : Type 0} (m : TokenAction A) → Keeps Same (in_tokens m)
  Keeps-in_tokens m = record { at = λ s h. h }

  redis_unaffected : Unaffected Same
  unfolding next_id
  redis_unaffected = record {
    move = λ t p next. record { at = λ s h. h };
    publish = λ kind p actor. record { at = λ s h. h };
    write = λ job f. record { at = λ s h. h };
    supply = record { at = λ s h. h };
    add = λ v. record { at = λ s h. h };
    read = λ t p. record { at = λ s h. h };
  }

  Keeps-find_artifact : (t p id : ℕ) → Keeps Same (find_artifact t p id)
  Keeps-find_artifact t p id = search (keeps_rules, Keeps-require) depth 10

  Keeps-find_bound_approval : (t p : ℕ) (id : Option ℕ) → Keeps Same (find_bound_approval t p id)
  Keeps-find_bound_approval t p none = search keeps_rules
  Keeps-find_bound_approval t p (some id) = search (keeps_rules, Keeps-require) depth 10

  Keeps-default_adapter : (type : RemediationArtifactType) → Keeps Same (default_adapter type)
  Keeps-default_adapter RemediationArtifactType.documentation_only = search keeps_rules
  Keeps-default_adapter _ = search keeps_rules

  module _ (lib : ExecutionLibrary) where
    Keeps-adapter_type : (artifact : RemediationArtifact) → Keeps Same (adapter_type lib artifact)
    unfolding adapter_type
    Keeps-adapter_type artifact =
        search (keeps_rules, Keeps-choose, Keeps-require, Keeps-default_adapter) depth 10

    Keeps-block_mutations :
        (ps : List MutationPattern) (raw : Text) → Keeps Same (block_mutations lib ps raw)
    unfolding block_mutations
    Keeps-block_mutations [] raw = search keeps_rules
    Keeps-block_mutations (p ∷ ps) raw =
        Keeps-bind (check (not (lib.search p raw)) (mutation_blocked p))
          (λ u. block_mutations lib ps raw)
          (Keeps-check (not (lib.search p raw)) (mutation_blocked p))
          (λ u. Keeps-block_mutations ps raw)

    Keeps-content :
        (artifact : RemediationArtifact)
        → Keeps Same (block_secret_or_mutation_content lib artifact)
    unfolding block_secret_or_mutation_content
    Keeps-content artifact = search (keeps_rules, Keeps-block_mutations) depth 10

    Keeps-eligible_content :
        (plan : RemediationPlan) (artifact : RemediationArtifact) (d : RemediationDryRunResult)
        → Keeps Same (eligible_content lib plan artifact d)
    unfolding eligible_content
    Keeps-eligible_content plan artifact d =
        search (keeps_rules, Keeps-adapter_type, Keeps-content) depth 20

    Keeps-eligible_verified :
        (t : ℕ) (plan : RemediationPlan) (artifact : RemediationArtifact) (a : RemediationApproval)
        (v : ApprovalVerificationResult)
        → Keeps Same (eligible_verified lib t plan artifact a v)
    unfolding eligible_verified
    Keeps-eligible_verified t plan artifact a v =
        search (keeps_rules, Keeps-require, Keeps-eligible_content) depth 20

    Keeps-eligibility :
        (t : ℕ) (plan : RemediationPlan) (artifact : RemediationArtifact) (a : RemediationApproval)
        → Keeps Same (eligibility lib t plan artifact a)
    unfolding eligibility
    Keeps-eligibility t plan artifact a =
        search (keeps_rules, Keeps-in_session, Keeps-eligible_verified) depth 20

check_stops :
    {A : Type 0} (b : Bool) (e : ExecutionFailure) (m : Work A) (w : World)
    → b ≡ false
    → ((check b e >> m) w).1 ≡ w
check_stops true e m w h = absurd (ground arith)
check_stops false e m w h = refl

check_passes :
    {A : Type 0} (b : Bool) (e : ExecutionFailure) (m : Work A) (w : World)
    → b ≡ true
    → (check b e >> m) w ≡ m w
check_passes true e m w h = refl
check_passes false e m w h = absurd (ground arith)

-- The limiter's part of the state: as it was, after a refused request, or after a slot was taken and
-- given back.
unfoldable pub SlotReturned : ExecutionLibrary → ℕ → Redis → World → Type 0
SlotReturned lib t r w =
    let (decision, taken) = acquire_remediation_job (lib.limits_for_tenant t) t r in
    (w.redis ≡ r)
    ⊎ (((decision.allowed ≡ false) × (w.redis ≡ taken))
        ⊎ ((decision.allowed ≡ true) × (w.redis ≡ release_remediation_job t taken)))

module _ (lib : ExecutionLibrary) (t : ℕ) where
  limited_run_returns :
      (job : RemediationExecutionJob) (plan : RemediationPlan) (artifact : RemediationArtifact)
      (adapter : Adapter) (w : World)
      → SlotReturned lib t w.redis (limited_run lib t job plan artifact adapter w).1
  unfolding limited_run SlotReturned with_slot acquire_slot
  limited_run_returns job plan artifact adapter w =
      let (decision, taken) = acquire_remediation_job (lib.limits_for_tenant t) t w.redis in
      let w1 = record w { redis = taken } in
      let body = run_job lib t job plan artifact adapter in
      elim (Bool-cases decision.allowed) [
        | inl allowed ↦ inr (
            inr (
              allowed,
              ap (λ x. x.1.redis)
                    (check_passes decision.allowed (limited decision) (with_slot t body) w1 allowed)
                  ∙ ap (release_remediation_job t) (
                      (Keeps-run_job (redis_unaffected taken) lib t job plan artifact adapter).at w1
                        refl),
            ))
        | inr denied ↦ inr (
            inl (
              denied,
              ap (λ x. x.redis)
                  (check_stops decision.allowed (limited decision) (with_slot t body) w1 denied),
            ))
      ]

  returned : (r : Redis) (w : World) → w.redis ≡ r → SlotReturned lib t r w
  unfolding SlotReturned
  returned r w h = inl h

  Leads-limited_run :
      (r : Redis) (job : RemediationExecutionJob) (plan : RemediationPlan)
      (artifact : RemediationArtifact) (adapter : Adapter)
      → Leads (Same r) (SlotReturned lib t r) (limited_run lib t job plan artifact adapter)
  Leads-limited_run r job plan artifact adapter = record {
    at = λ w h.
        subst (λ x. SlotReturned lib t x (limited_run lib t job plan artifact adapter w).1) h
          (limited_run_returns job plan artifact adapter w);
  }

  Leads-start_run :
      (r : Redis) (job : RemediationExecutionJob) (plan : RemediationPlan)
      (artifact : RemediationArtifact) (adapter : Adapter) (v : ApprovalVerificationResult)
      → Leads (Same r) (SlotReturned lib t r) (start_run lib t job plan artifact adapter v)
  unfolding start_run
  Leads-start_run r job plan artifact adapter v =
      search
        (Leads-bind (returned r), keeps_rules, Keeps-in_session, Keeps-in_tokens, Leads-limited_run)
        depth 20

  Leads-execute_found :
      (r : Redis) (job : RemediationExecutionJob) (actor : Option ℕ)
      → Leads (Same r) (SlotReturned lib t r) (execute_found lib t job actor)
  unfolding execute_found
  Leads-execute_found r job actor =
      search
        (
          Leads-bind (returned r),
          keeps_rules,
          Keeps-in_session,
          Keeps-dry_run_by_id,
          Keeps-find_artifact,
          Keeps-find_bound_approval,
          Keeps-eligibility,
          Leads-start_run,
        )
        depth 20

  -- However a run of a job ends, returned or raised, the slot of the tenant's limiter that it took is
  -- given back: what stands in Redis is as before, or as a refused request left it, or as taking a slot
  -- and releasing it leaves it.
  pub execute_job-SlotReturned :
      (job_id : ℕ) (actor : Option ℕ) (w : World)
      → SlotReturned lib t w.redis (execute_job lib t job_id actor w).1
  unfolding execute_job
  execute_job-SlotReturned job_id actor w =
      (Leads-bind (returned w.redis) (find_job t job_id) (λ job. execute_found lib t job actor)
          (Keeps-find_job t job_id) (λ job. Leads-execute_found w.redis job actor)).at
        w refl
