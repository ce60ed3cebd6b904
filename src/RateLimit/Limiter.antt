-- ===== src/RateLimit/Limiter.antt =====
-- TenantPlanLimiter of apps/api/app/core/rate_limit/tenant_limiter.py.
pub mod Held
pub mod Balance
pub mod Concurrency
use authclaw_mvp.Common.{
  ℕ, zero, suc, ◌*◌, Bool, true, false, Option, none, some, List, [], ◌∷◌, if◌then◌else◌, max, leb,
  Text, Result, ok, err,
}
use authclaw_mvp.Common.Exec.{Exec, ◌>>=◌, ◌>>◌, pure}
use authclaw_mvp.RateLimit.{ℤ, pos, negsuc, TenantPlanLimits}
use authclaw_mvp.RateLimit.Redis.{
  LimitKey, active_stream, cooldown_connector, active_connector, active_remediation, reports, Redis,
  RedisError, Call, incr, decr, delete, expire, set_nx,
}

pub data Scope : Type 0 where
  stream_concurrency connector_scan_frequency connector_scan_concurrency : Scope
  remediation_job_concurrency report_generation : Scope

pub record LimitDecision : Type 0 where
  pub allowed : Bool
  pub scope : Scope
  pub plan : Text
  pub retry_after : ℕ

abbrev pub decide : Bool → Scope → Text → ℕ → LimitDecision
decide allowed scope plan retry_after = record {
  allowed = allowed;
  scope = scope;
  plan = plan;
  retry_after = retry_after;
}

-- `z <= n`
abbrev pub le_limit : ℤ → ℕ → Bool
le_limit (pos m) n = leb m n
le_limit (negsuc m) n = true

-- `remaining <= 0`
abbrev pub is_exhausted : ℤ → Bool
is_exhausted (pos zero) = true
is_exhausted (pos (suc n)) = false
is_exhausted (negsuc n) = true

-- `try: body except RedisError: value`
abbrev pub recover : {A : Type 0} → A → Result RedisError A → A
recover value (ok a) = a
recover value (err e) = value

abbrev pub guarded : {A : Type 0} → A → Call A → Redis → A × Redis
guarded value body s = let (r, s') = body s in (recover value r, s')

pub drop_if_exhausted : LimitKey → ℤ → Call (Unit {0})
drop_if_exhausted key remaining = if is_exhausted remaining then delete key else pure tt

-- `_release`
pub release : LimitKey → Redis → Redis
unfolding drop_if_exhausted
release key s = (guarded tt (decr key >>= drop_if_exhausted key) s).1

-- `_acquire_concurrency` from its test on
pub admit : LimitKey → ℕ → Scope → Text → ℤ → Call LimitDecision
unfolding release
admit key limit scope plan current s =
    if le_limit current limit
    then (ok (decide true scope plan 60), s)
    else (ok (decide false scope plan 60), release key s)

-- `_acquire_concurrency`
unfoldable pub acquire_concurrency : LimitKey → ℕ → ℕ → Scope → Text → Redis → LimitDecision × Redis
unfolding admit
acquire_concurrency key limit ttl scope plan =
    guarded (decide false scope plan 60)
      (incr key >>= λ current. expire key (max 1 ttl) >> admit key limit scope plan current)

pub created_decision : Bool → ℕ → Scope → Text → LimitDecision
created_decision true ttl scope plan = decide true scope plan 60
created_decision false ttl scope plan = decide false scope plan (max 1 ttl)

-- `_cooldown`
pub cooldown : LimitKey → ℕ → Scope → Text → Redis → LimitDecision × Redis
unfolding created_decision
cooldown key ttl scope plan =
    guarded (decide false scope plan 60)
      (set_nx key (max 1 ttl) >>= λ created. pure (created_decision created ttl scope plan))

pub expire_first : LimitKey → ℕ → ℤ → Call (Unit {0})
expire_first key ttl (pos (suc zero)) = expire key (max 1 ttl)
expire_first key ttl _ = pure tt

-- `_fixed_window`
pub fixed_window : LimitKey → ℕ → ℕ → Scope → Text → Redis → LimitDecision × Redis
unfolding expire_first created_decision
fixed_window key limit ttl scope plan = guarded (decide false scope plan 60) (
    incr key >>= λ current.
    expire_first key ttl current >> pure (created_decision (le_limit current limit) ttl scope plan))

-- The public operations, for the limits of the tenant's plan.
module _ (limits : TenantPlanLimits) where
  unfoldable pub acquire_stream : ℕ → ℕ → Redis → LimitDecision × Redis
  unfolding acquire_concurrency
  acquire_stream tenant api_key =
      acquire_concurrency (active_stream tenant api_key) limits.concurrent_streams (60 * 60)
        Scope.stream_concurrency limits.plan_name

  unfoldable pub acquire_connector_scan : ℕ → ℕ → ℕ → Redis → LimitDecision × Redis
  unfolding acquire_concurrency cooldown
  acquire_connector_scan tenant provider integration s =
      let (decision, s') =
        cooldown (cooldown_connector tenant provider integration)
          limits.connector_scan_interval_seconds Scope.connector_scan_frequency limits.plan_name
          s in
      if decision.allowed
      then acquire_concurrency (active_connector tenant) limits.connector_scan_concurrency
          (max limits.connector_scan_interval_seconds 60) Scope.connector_scan_concurrency
          limits.plan_name s'
      else (decision, s')

  unfoldable pub acquire_remediation_job : ℕ → Redis → LimitDecision × Redis
  unfolding acquire_concurrency
  acquire_remediation_job tenant =
      acquire_concurrency (active_remediation tenant) limits.remediation_job_concurrency (60 * 60)
        Scope.remediation_job_concurrency limits.plan_name

  unfoldable pub check_report_generation : ℕ → Redis → LimitDecision × Redis
  unfolding fixed_window
  check_report_generation tenant =
      fixed_window (reports tenant) limits.report_generation_per_hour (60 * 60)
        Scope.report_generation limits.plan_name

unfoldable pub release_stream : ℕ → ℕ → Redis → Redis
unfolding release
release_stream tenant api_key = release (active_stream tenant api_key)

unfoldable pub release_connector_scan : ℕ → Redis → Redis
unfolding release
release_connector_scan tenant = release (active_connector tenant)

unfoldable pub release_remediation_job : ℕ → Redis → Redis
unfolding release
release_remediation_job tenant = release (active_remediation tenant)
