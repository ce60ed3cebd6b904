-- ===== src/RateLimit/Tests.antt =====
-- Limits and counters at concrete inputs.
use authclaw_mvp.Common.{
  arith, true, ◌≤◌, ◌≡◌, refl, some, none, List, [], ◌∷◌, codes, Text, ok, ◌+◌,
}
use authclaw_mvp.Common.Exec.{◌>>◌}
use authclaw_mvp.RateLimit.{pos, negsuc, LimitField, Override, plan_limits_for}
use authclaw_mvp.RateLimit.Overrides.{Positive, plan_limits_for-Positive}
use authclaw_mvp.RateLimit.Redis.{LimitKey, active_remediation, Redis, later, incr, decr, delete}
use authclaw_mvp.RateLimit.Limiter.{Scope, LimitDecision, acquire_concurrency}
use authclaw_mvp.RateLimit.Limiter.Concurrency.{start, granted, passed, Reachable_le}
use authclaw_mvp.RateLimit.Limiter.Held.{Holds, count}
use authclaw_mvp.RateLimit.Limiter.Balance.{finished, acquire-release}

abbrev as_is : Text → Text
as_is text = text

abbrev overrides : List Override
overrides =
    (some LimitField.concurrent_streams, some (negsuc 4))
    ∷ (none, some (pos 3))
    ∷ (some LimitField.max_body_bytes, some (pos 9))
    ∷ []

plan_limits_for-Positive_example : Positive (plan_limits_for as_is (codes "pro") [] overrides)
plan_limits_for-Positive_example = plan_limits_for-Positive as_is (codes "pro") [] overrides

-- A plan with no such name has the limits of `free`, and an override below one is one.
overridden :
    (plan_limits_for as_is (codes "gold") [] overrides).concurrent_streams
      + (plan_limits_for as_is (codes "gold") [] overrides).max_body_bytes
    ≡ 10
unfolding plan_limits_for
overridden = refl

abbrev empty : Redis
empty = record { counters = λ k. none; deadlines = λ k. none; now = 0; faults = [] }

abbrev key : LimitKey
key = active_remediation 1

abbrev acquire : Redis → LimitDecision × Redis
acquire = acquire_concurrency key 1 3600 Scope.remediation_job_concurrency (codes "free")

-- A holder, most of an hour later.
Reachable_le_example : (1 ≤ 1) × Holds key 1 (later 3599 (acquire empty).1)
unfolding acquire_concurrency
Reachable_le_example =
    Reachable_le key 1 3600 Scope.remediation_job_concurrency (codes "free")
      (passed (granted (start empty refl refl) refl) 3599 (omega arith) (omega arith))

acquire-release_example : count key (finished key (acquire empty)) ≡ pos 0
acquire-release_example =
    acquire-release key 1 3600 Scope.remediation_job_concurrency (codes "free") empty 0 refl refl

-- A holder that stays for longer than its time to live is forgotten.
outlived : (acquire (later 3600 (acquire empty).1)).0.allowed ≡ true
unfolding acquire_concurrency
outlived = refl

-- A release is two calls: a second holder that comes between them is forgotten by the second call, and a
-- third is let in beside it. (Each `incr` that returns 1 is an acquisition within a limit of one.)
forgotten_holder :
    ((incr key >> decr key >> incr key >> delete key >> incr key) empty).0 ≡ ok (pos 1)
forgotten_holder = refl
