-- ===== src/RateLimit/Limiter/Balance.antt =====
-- An acquisition and its release, or an acquisition that is refused, with no fault of Redis.
use authclaw_mvp.Common.{
  ℕ, zero, suc, ◌≡◌, refl, ap, ◌∙◌, max, Bool, true, false, none, some, [], if◌then◌else◌, Text,
  Result, ok, ◌+◌,
}
use authclaw_mvp.RateLimit.{ℤ, pos, negsuc}
use authclaw_mvp.RateLimit.Redis.{
  LimitKey, Redis, RedisError, increment, decrement, write, set_deadline, is_absent,
}
use authclaw_mvp.RateLimit.Limiter.{
  Scope, LimitDecision, decide, le_limit, recover, drop_if_exhausted, release, admit,
  acquire_concurrency,
}
use authclaw_mvp.RateLimit.Limiter.Held.{count, count-write}

-- What a caller does: it releases what it was granted.
abbrev pub finished : LimitKey → LimitDecision × Redis → Redis
finished key (decision, s) = if decision.allowed then release key s else s

abbrev reliable : Redis → Redis
reliable s = record s { faults = [] }

-- A counter below zero is deleted.
abbrev floor : ℤ → ℤ
floor (pos n) = pos n
floor (negsuc n) = pos 0

dropped :
    (key : LimitKey) (z : ℤ) (s : Redis)
    → count key (drop_if_exhausted key z (write key (some z) (reliable s))).1 ≡ floor z
unfolding drop_if_exhausted
dropped key (pos zero) s = count-write key none (write key (some (pos 0)) (reliable s))
dropped key (pos (suc n)) s = count-write key (some (pos (suc n))) (reliable s)
dropped key (negsuc n) s = count-write key none (write key (some (negsuc n)) (reliable s))

count-release :
    (key : LimitKey) (s : Redis)
    → count key (release key (reliable s)) ≡ floor (decrement (count key s))
unfolding release
count-release key s = dropped key (decrement (count key s)) s

-- The store after the counter was raised and its time to live renewed.
abbrev raised : LimitKey → ℕ → Redis → Redis
raised key ttl s =
    let w = write key (some (increment (count key s))) (reliable s) in
    set_deadline key (if is_absent (w.counters key) then none else some (w.now + max 1 ttl)) w

abbrev recovered : LimitDecision → Result RedisError LimitDecision × Redis → LimitDecision × Redis
recovered denied (r, s) = (recover denied r, s)

either_way :
    (b : Bool) (key : LimitKey) (scope : Scope) (plan : Text) (s : Redis)
    → finished key (
        recovered (decide false scope plan 60) (
          if b
          then (ok (decide true scope plan 60), s)
          else (ok (decide false scope plan 60), release key s)))
      ≡ release key s
either_way true key scope plan s = refl
either_way false key scope plan s = refl

finished_run :
    (key : LimitKey) (limit ttl : ℕ) (scope : Scope) (plan : Text) (s : Redis)
    → finished key (acquire_concurrency key limit ttl scope plan (reliable s))
      ≡ release key (raised key ttl s)
unfolding acquire_concurrency admit
finished_run key limit ttl scope plan s =
    either_way (le_limit (increment (count key s)) limit) key scope plan (raised key ttl s)

-- With no fault of Redis the counter of a key stands after an acquisition, and after its release where it
-- was granted, where it stood before, with the limit reached or not.
pub acquire-release :
    (key : LimitKey) (limit ttl : ℕ) (scope : Scope) (plan : Text) (s : Redis) (n : ℕ)
    → s.faults ≡ []
    → count key s ≡ pos n
    → count key (finished key (acquire_concurrency key limit ttl scope plan s)) ≡ pos n
acquire-release key limit ttl scope plan s n no_faults stands =
    let same : s ≡ reliable s = λ i. record s { faults = no_faults i } in
    ap (λ x. count key (finished key (acquire_concurrency key limit ttl scope plan x))) same
    ∙ ap (count key) (finished_run key limit ttl scope plan s)
    ∙ count-release key (raised key ttl s)
    ∙ ap (λ z. floor (decrement z)) (count-write key (some (increment (count key s))) (reliable s))
    ∙ ap (λ z. floor (decrement (increment z))) stands
