-- ===== src/RateLimit/Overrides.antt =====
-- Overrides cannot take a limit below one.
use authclaw_mvp.Common.{
  ℕ, All, subst, sym, ◌≤◌, none, some, List, [], ◌∷◌, Text, arith, if◌then◌else◌, Bool-cases, inl,
  inr,
}
use authclaw_mvp.Common.Texts.{same_text, lookup}
use authclaw_mvp.RateLimit.{
  free, ℤ, pos, negsuc, TenantPlanLimits, LimitField, replace, at_least_one, Override,
  override_with, override_each, plan_limits, limits_or_free, canonical_plan_name, plan_limits_for,
}

abbrev pub values : TenantPlanLimits → List ℕ
values l =
    l.requests_per_minute ∷ l.requests_per_day ∷ l.api_key_requests_per_minute
    ∷ l.route_model_requests_per_minute ∷ l.provider_requests_per_minute
    ∷ l.concurrent_gateway_requests ∷ l.concurrent_streams ∷ l.max_body_bytes
    ∷ l.connector_scan_concurrency ∷ l.connector_scan_interval_seconds
    ∷ l.report_generation_per_hour ∷ l.remediation_job_concurrency ∷ []

-- Every limit is at least one.
abbrev pub Positive : TenantPlanLimits → Type 0
Positive l = All (λ n. 1 ≤ n) (values l)

replace-Positive :
    (f : LimitField) (n : ℕ) (l : TenantPlanLimits) → 1 ≤ n → Positive l → Positive (replace f n l)
unfolding replace
replace-Positive LimitField.requests_per_minute n l hn h = ground arith
replace-Positive LimitField.requests_per_day n l hn h = ground arith
replace-Positive LimitField.api_key_requests_per_minute n l hn h = ground arith
replace-Positive LimitField.route_model_requests_per_minute n l hn h = ground arith
replace-Positive LimitField.provider_requests_per_minute n l hn h = ground arith
replace-Positive LimitField.concurrent_gateway_requests n l hn h = ground arith
replace-Positive LimitField.concurrent_streams n l hn h = ground arith
replace-Positive LimitField.max_body_bytes n l hn h = ground arith
replace-Positive LimitField.connector_scan_concurrency n l hn h = ground arith
replace-Positive LimitField.connector_scan_interval_seconds n l hn h = ground arith
replace-Positive LimitField.report_generation_per_hour n l hn h = ground arith
replace-Positive LimitField.remediation_job_concurrency n l hn h = ground arith

at_least_one_le : (z : ℤ) → 1 ≤ at_least_one z
unfolding at_least_one
at_least_one_le (pos n) = omega arith
at_least_one_le (negsuc n) = omega arith

override_with-Positive :
    (o : Override) (l : TenantPlanLimits) → Positive l → Positive (override_with o l)
unfolding override_with
override_with-Positive (none, value) l h = h
override_with-Positive (some f, none) l h = h
override_with-Positive (some f, some z) l h =
    replace-Positive f (at_least_one z) l (at_least_one_le z) h

override_each-Positive :
    (os : List Override) (l : TenantPlanLimits) → Positive l → Positive (override_each os l)
unfolding override_each
override_each-Positive [] l h = h
override_each-Positive (o ∷ os) l h =
    override_each-Positive os (override_with o l) (override_with-Positive o l h)

lookup_lem :
    (P : TenantPlanLimits → Type 0) (key : Text) (rows : List (Text × TenantPlanLimits))
    → P free
    → All (λ row. P row.1) rows
    → P (limits_or_free (lookup key rows))
lookup_lem P key [] hf h = hf
lookup_lem P key ((k, l) ∷ rows) hf h = elim (Bool-cases (same_text key k)) [
  | inl e ↦ subst (λ b. P (limits_or_free (if b then some l else lookup key rows))) (sym e) h.0
  | inr e ↦
      subst (λ b. P (limits_or_free (if b then some l else lookup key rows))) (sym e)
        (lookup_lem P key rows hf h.1)
]

-- Whatever the plan's name and the overrides in a tenant's settings, every limit is at least one, so
-- that no override shuts a tenant out.
pub plan_limits_for-Positive :
    (normalize : Text → Text) (configured plan : Text) (overrides : List Override)
    → Positive (plan_limits_for normalize configured plan overrides)
unfolding plan_limits_for
plan_limits_for-Positive normalize configured plan overrides =
    override_each-Positive overrides
      (limits_or_free (lookup (canonical_plan_name normalize configured plan) plan_limits))
      (lookup_lem Positive (canonical_plan_name normalize configured plan) plan_limits
        (ground arith) (ground arith))
