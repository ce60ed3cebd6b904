-- ===== src/RateLimit/Redis.antt =====
-- What the limiter uses of Redis: counters by key with their times to live, a clock in seconds, and calls
-- that may raise RedisError. The calls to come that raise are in `faults`, in order. The clock stands
-- still within an operation, and `later` moves it.
use authclaw_mvp.Common.{
  ℕ, zero, suc, ◌+◌, leb, Bool, true, false, ◌&&◌, Option, none, some, List, [], ◌∷◌, ◌==◌,
  if◌then◌else◌, ok, err,
}
use authclaw_mvp.Common.Exec.{Exec}
use authclaw_mvp.RateLimit.{ℤ, pos, negsuc}

-- The keys of tenant_limiter.py, with the identifiers in their texts.
pub data LimitKey : Type 0 where
  active_stream : ℕ → ℕ → LimitKey
  cooldown_connector : ℕ → ℕ → ℕ → LimitKey
  active_connector active_remediation reports : ℕ → LimitKey

abbrev pub same_key : LimitKey → LimitKey → Bool
same_key (active_stream t a) (active_stream t' a') = t == t' && a == a'
same_key (cooldown_connector t p i) (cooldown_connector t' p' i') = t == t' && p == p' && i == i'
same_key (active_connector t) (active_connector t') = t == t'
same_key (active_remediation t) (active_remediation t') = t == t'
same_key (reports t) (reports t') = t == t'
same_key _ _ = false

pub record Redis : Type 0 where
  pub counters : LimitKey → Option ℤ
  pub deadlines : LimitKey → Option ℕ
  pub now : ℕ
  pub faults : List Bool

pub data RedisError : Type 0 where
  redis_error : RedisError

abbrev pub Call : Type 0 → Type 0
Call = Exec Redis RedisError

-- One call: it raises if the next fault says so, and writes nothing then.
abbrev pub attempt : {A : Type 0} → (Redis → A × Redis) → Redis → List Bool → Call A
attempt f before [] _ = let (a, s) = f before in (ok a, s)
attempt f before (true ∷ faults) _ = (err redis_error, record before { faults = faults })
attempt f before (false ∷ faults) _ =
    let (a, s) = f (record before { faults = faults }) in (ok a, s)

abbrev pub call : {A : Type 0} → (Redis → A × Redis) → Call A
call f s = attempt f s s.faults s

abbrev pub or_zero : Option ℤ → ℤ
or_zero none = pos 0
or_zero (some z) = z

abbrev pub increment : ℤ → ℤ
increment (pos n) = pos (suc n)
increment (negsuc zero) = pos 0
increment (negsuc (suc n)) = negsuc n

abbrev pub decrement : ℤ → ℤ
decrement (pos zero) = negsuc 0
decrement (pos (suc n)) = pos n
decrement (negsuc n) = negsuc (suc n)

abbrev pub write : LimitKey → Option ℤ → Redis → Redis
write key value s = record s { counters = λ k. if same_key key k then value else s.counters k }

abbrev pub incr : LimitKey → Call ℤ
incr key = call (λ s. let z = increment (or_zero (s.counters key)) in (z, write key (some z) s))

abbrev pub decr : LimitKey → Call ℤ
decr key = call (λ s. let z = decrement (or_zero (s.counters key)) in (z, write key (some z) s))

abbrev pub set_deadline : LimitKey → Option ℕ → Redis → Redis
set_deadline key deadline s = record s {
  deadlines = λ k. if same_key key k then deadline else s.deadlines k;
}

abbrev pub delete : LimitKey → Call (Unit {0})
delete key = call (λ s. (tt, set_deadline key none (write key none s)))

abbrev pub is_absent : Option ℤ → Bool
is_absent none = true
is_absent (some z) = false

-- `expire(key, ttl)`, which does nothing to a key that is not there.
abbrev pub expire : LimitKey → ℕ → Call (Unit {0})
expire key ttl = call (λ s.
    (tt, set_deadline key (if is_absent (s.counters key) then none else some (s.now + ttl)) s))

abbrev pub lapsed : ℕ → Option ℕ → Bool
lapsed t none = false
lapsed t (some deadline) = leb deadline t

-- The store at the time `t`: a key goes when its time to live is over.
abbrev pub later : ℕ → Redis → Redis
later t s = record s {
  counters = λ k. if lapsed t (s.deadlines k) then none else s.counters k;
  deadlines = λ k. if lapsed t (s.deadlines k) then none else s.deadlines k;
  now = t;
}

-- `set(key, "1", ex=ttl, nx=True)`: whether the key was created.
abbrev pub set_nx : LimitKey → ℕ → Call Bool
set_nx key ttl = call (λ s.
    let absent = is_absent (s.counters key) in
    (
      absent,
      if absent then set_deadline key (some (s.now + ttl)) (write key (some (pos 1)) s) else s,
    ))
