-- ===== src/RateLimit.antt =====
-- The limits of a tenant's plan: apps/api/app/core/rate_limit/plans.py.
pub mod Overrides
mod Tests
pub mod Redis
pub mod Limiter
use authclaw_mvp.Common.{
  ℕ, ◌*◌, Bool, true, false, Option, none, some, List, [], ◌∷◌, if◌then◌else◌, max, Text, codes,
  ◌≤◌,
}
use authclaw_mvp.Common.Texts.{same_text, lookup}

-- A Python `int`: `pos n` is n, `negsuc n` is -(n + 1).
pub data ℤ : Type 0 where
  pos negsuc : ℕ → ℤ

pub record TenantPlanLimits : Type 0 where
  pub plan_name : Text
  pub requests_per_minute : ℕ
  pub requests_per_day : ℕ
  pub api_key_requests_per_minute : ℕ
  pub route_model_requests_per_minute : ℕ
  pub provider_requests_per_minute : ℕ
  pub concurrent_gateway_requests : ℕ
  pub concurrent_streams : ℕ
  pub max_body_bytes : ℕ
  pub connector_scan_concurrency : ℕ
  pub connector_scan_interval_seconds : ℕ
  pub report_generation_per_hour : ℕ
  pub remediation_job_concurrency : ℕ

abbrev pub free : TenantPlanLimits
free = record {
  plan_name = codes "free";
  requests_per_minute = 60;
  requests_per_day = 1000;
  api_key_requests_per_minute = 30;
  route_model_requests_per_minute = 30;
  provider_requests_per_minute = 60;
  concurrent_gateway_requests = 5;
  concurrent_streams = 1;
  max_body_bytes = 32 * 1024;
  connector_scan_concurrency = 1;
  connector_scan_interval_seconds = 60 * 60;
  report_generation_per_hour = 5;
  remediation_job_concurrency = 1;
}

abbrev team : TenantPlanLimits
team = record {
  plan_name = codes "team";
  requests_per_minute = 600;
  requests_per_day = 10000;
  api_key_requests_per_minute = 300;
  route_model_requests_per_minute = 300;
  provider_requests_per_minute = 600;
  concurrent_gateway_requests = 25;
  concurrent_streams = 5;
  max_body_bytes = 128 * 1024;
  connector_scan_concurrency = 2;
  connector_scan_interval_seconds = 15 * 60;
  report_generation_per_hour = 30;
  remediation_job_concurrency = 2;
}

abbrev enterprise : TenantPlanLimits
enterprise = record {
  plan_name = codes "enterprise";
  requests_per_minute = 6000;
  requests_per_day = 250000;
  api_key_requests_per_minute = 3000;
  route_model_requests_per_minute = 3000;
  provider_requests_per_minute = 6000;
  concurrent_gateway_requests = 250;
  concurrent_streams = 50;
  max_body_bytes = 512 * 1024;
  connector_scan_concurrency = 10;
  connector_scan_interval_seconds = 5 * 60;
  report_generation_per_hour = 250;
  remediation_job_concurrency = 10;
}

abbrev internal : TenantPlanLimits
internal = record {
  plan_name = codes "internal";
  requests_per_minute = 20000;
  requests_per_day = 1000000;
  api_key_requests_per_minute = 10000;
  route_model_requests_per_minute = 10000;
  provider_requests_per_minute = 20000;
  concurrent_gateway_requests = 500;
  concurrent_streams = 100;
  max_body_bytes = 1024 * 1024;
  connector_scan_concurrency = 25;
  connector_scan_interval_seconds = 60;
  report_generation_per_hour = 1000;
  remediation_job_concurrency = 25;
}

abbrev demo : TenantPlanLimits
demo = record {
  plan_name = codes "demo";
  requests_per_minute = 1000;
  requests_per_day = 25000;
  api_key_requests_per_minute = 500;
  route_model_requests_per_minute = 500;
  provider_requests_per_minute = 1000;
  concurrent_gateway_requests = 50;
  concurrent_streams = 10;
  max_body_bytes = 256 * 1024;
  connector_scan_concurrency = 3;
  connector_scan_interval_seconds = 10 * 60;
  report_generation_per_hour = 50;
  remediation_job_concurrency = 3;
}

abbrev pub plan_limits : List (Text × TenantPlanLimits)
plan_limits =
    (codes "free", free)
    ∷ (codes "team", team)
    ∷ (codes "enterprise", enterprise)
    ∷ (codes "internal", internal)
    ∷ (codes "demo", demo)
    ∷ []

abbrev pub plan_aliases : List (Text × Text)
plan_aliases =
    (codes "starter", codes "team")
    ∷ (codes "professional", codes "team")
    ∷ (codes "pro", codes "team")
    ∷ []

-- `raw if raw in PLAN_LIMITS else "free"`
pub known_or_free : Text → Option TenantPlanLimits → Text
known_or_free raw none = codes "free"
known_or_free raw (some limits) = raw

pub alias_or : Option Text → Text → Text
alias_or none name = name
alias_or (some name) _ = name

-- The value of `plan` or `tier` in the settings, of the plan, and `"free"`, the first that is not empty.
pub first_name : Text → Text → Text
first_name [] [] = codes "free"
first_name [] (c ∷ cs) = c ∷ cs
first_name (c ∷ cs) plan = c ∷ cs

-- `canonical_plan_name`, for the texts of the settings' plan and of the tenant's; "" stands for an
-- absent one. `strip().lower()` is the parameter `normalize`.
pub canonical_plan_name : (Text → Text) → Text → Text → Text
unfolding known_or_free alias_or first_name
canonical_plan_name normalize configured plan =
    let raw = normalize (first_name configured plan) in
    alias_or (lookup raw plan_aliases) (known_or_free raw (lookup raw plan_limits))

-- The fields of a limit, but for its name.
pub data LimitField : Type 0 where
  requests_per_minute requests_per_day api_key_requests_per_minute : LimitField
  route_model_requests_per_minute provider_requests_per_minute : LimitField
  concurrent_gateway_requests concurrent_streams max_body_bytes : LimitField
  connector_scan_concurrency connector_scan_interval_seconds : LimitField
  report_generation_per_hour remediation_job_concurrency : LimitField

-- `replace(limits, **{field: value})`
pub replace : LimitField → ℕ → TenantPlanLimits → TenantPlanLimits
replace LimitField.requests_per_minute n l = record l { requests_per_minute = n }
replace LimitField.requests_per_day n l = record l { requests_per_day = n }
replace LimitField.api_key_requests_per_minute n l = record l { api_key_requests_per_minute = n }
replace LimitField.route_model_requests_per_minute n l = record l {
  route_model_requests_per_minute = n;
}
replace LimitField.provider_requests_per_minute n l = record l { provider_requests_per_minute = n }
replace LimitField.concurrent_gateway_requests n l = record l { concurrent_gateway_requests = n }
replace LimitField.concurrent_streams n l = record l { concurrent_streams = n }
replace LimitField.max_body_bytes n l = record l { max_body_bytes = n }
replace LimitField.connector_scan_concurrency n l = record l { connector_scan_concurrency = n }
replace LimitField.connector_scan_interval_seconds n l = record l {
  connector_scan_interval_seconds = n;
}
replace LimitField.report_generation_per_hour n l = record l { report_generation_per_hour = n }
replace LimitField.remediation_job_concurrency n l = record l { remediation_job_concurrency = n }

-- `max(1, value)`
pub at_least_one : ℤ → ℕ
at_least_one (pos n) = max 1 n
at_least_one (negsuc n) = 1

-- An entry of `rate_limits`: its field, `none` for a key that is no field, and the value of `int()`,
-- `none` where that raises.
abbrev pub Override : Type 0
Override = Option LimitField × Option ℤ

pub override_with : Override → TenantPlanLimits → TenantPlanLimits
unfolding replace at_least_one
override_with (none, value) limits = limits
override_with (some field, none) limits = limits
override_with (some field, some value) limits = replace field (at_least_one value) limits

-- The loop over the overrides.
pub override_each : List Override → TenantPlanLimits → TenantPlanLimits
unfolding override_with
override_each [] limits = limits
override_each (o ∷ os) limits = override_each os (override_with o limits)

-- `PLAN_LIMITS[name]`, for a name that is there.
abbrev pub limits_or_free : Option TenantPlanLimits → TenantPlanLimits
limits_or_free none = free
limits_or_free (some limits) = limits

-- `plan_limits_for`; settings without `rate_limits` are an empty list.
unfoldable pub plan_limits_for : (Text → Text) → Text → Text → List Override → TenantPlanLimits
unfolding canonical_plan_name override_each
plan_limits_for normalize configured plan overrides =
    override_each overrides
      (limits_or_free (lookup (canonical_plan_name normalize configured plan) plan_limits))
