-- ===== src/RateLimit/Limiter/Concurrency.antt =====
-- How many holders a key of the limiter has.
use authclaw_mvp.Common.{
  ℕ, zero, suc, ◌+◌, ◌≤◌, ◌<◌, max, leb, ◌≡◌, refl, sym, subst, Bool, true, false, Option, none,
  some, if◌then◌else◌, Text, arith, leb→le,
}
use authclaw_mvp.RateLimit.{ℤ}
use authclaw_mvp.RateLimit.Redis.{LimitKey, Redis, or_zero, lapsed, later}
use authclaw_mvp.RateLimit.Limiter.{Scope, release, acquire_concurrency}
use authclaw_mvp.RateLimit.Limiter.Held.{
  AtLeast, Holds, Late, release-Stands, After, acquire_concurrency-After,
}

-- While a key has holders, the time is before the end of the time to live of its last acquisition.
abbrev pub InTime : ℕ → ℕ → ℕ → ℕ → Type 0
InTime zero latest ttl t = Unit
InTime (suc n) latest ttl t = t < latest + max 1 ttl

-- The store, the number of holders of a key and the time of its last grant, as acquisitions, the holders'
-- releases and the rest of the store's life follow one another. While the key has holders, time passes
-- only up to the time to live from the last grant.
pub data Reachable (key : LimitKey) (limit ttl : ℕ) (scope : Scope) (plan : Text)
    : Redis → ℕ → ℕ → Type 0 where
  start :
      (s : Redis)
      → s.counters key ≡ none
      → s.deadlines key ≡ none
      → Reachable key limit ttl scope plan s 0 s.now
  granted :
      {s : Redis} {n latest : ℕ}
      → Reachable key limit ttl scope plan s n latest
      → (acquire_concurrency key limit ttl scope plan s).0.allowed ≡ true
      → Reachable key limit ttl scope plan
          (acquire_concurrency key limit ttl scope plan s).1
          (suc n)
          s.now
  denied :
      {s : Redis} {n latest : ℕ}
      → Reachable key limit ttl scope plan s n latest
      → (acquire_concurrency key limit ttl scope plan s).0.allowed ≡ false
      → Reachable key limit ttl scope plan
          (acquire_concurrency key limit ttl scope plan s).1
          n
          latest
  released :
      {s : Redis} {n latest : ℕ}
      → Reachable key limit ttl scope plan s (suc n) latest
      → Reachable key limit ttl scope plan (release key s) n latest
  elsewhere :
      {s : Redis} {n latest : ℕ}
      → Reachable key limit ttl scope plan s n latest
      → (s' : Redis) → s'.counters key ≡ s.counters key
      → s'.deadlines key ≡ s.deadlines key
      → s'.now ≡ s.now
      → Reachable key limit ttl scope plan s' n latest
  passed :
      {s : Redis} {n latest : ℕ}
      → Reachable key limit ttl scope plan s n latest
      → (t : ℕ) → s.now ≤ t
      → InTime n latest ttl t
      → Reachable key limit ttl scope plan (later t s) n latest

unless_lapsed :
    (x : Bool) (c : Option ℤ) (d n b : ℕ)
    → AtLeast n (or_zero c)
    → b ≤ d
    → (x ≡ true → n ≡ 0)
    → AtLeast n (or_zero (if x then none else c)) × Late b (if x then none else some d)
unless_lapsed true c d n b h le none_left = (omega (arith, none_left refl), tt)
unless_lapsed false c d n b h le none_left = (h, le)

no_holder :
    (n latest ttl t d : ℕ) → InTime n latest ttl t → latest + max 1 ttl ≤ d → leb d t ≡ true → n ≡ 0
no_holder zero latest ttl t d early le h = refl
no_holder (suc n) latest ttl t d early le h = absurd (omega (arith, early, le, leb→le d t h))

passed_lem :
    (n latest ttl t : ℕ) (c : Option ℤ) (o : Option ℕ)
    → InTime n latest ttl t
    → AtLeast n (or_zero c)
    → Late (latest + max 1 ttl) o
    → AtLeast n (or_zero (if lapsed t o then none else c))
      × Late (latest + max 1 ttl) (if lapsed t o then none else o)
passed_lem n latest ttl t c none early h late = (h, tt)
passed_lem n latest ttl t c (some d) early h late =
    unless_lapsed (leb d t) c d n (latest + max 1 ttl) h late
      (no_holder n latest ttl t d early late)

module _ (key : LimitKey) (limit ttl : ℕ) (scope : Scope) (plan : Text) where
  -- The invariant: with the counter, the key's time to live and the clock.
  abbrev Within : Redis → ℕ → ℕ → Type 0
  Within s n latest =
      (n ≤ limit) × Holds key n s × Late (latest + max 1 ttl) (s.deadlines key) × (latest ≤ s.now)

  Reachable-Within :
      {s : Redis} {n latest : ℕ} → Reachable key limit ttl scope plan s n latest → Within s n latest
  Reachable-Within (start s e d) = (
    omega arith,
    subst (λ o. AtLeast 0 (or_zero o)) (sym e) (omega arith),
    subst (Late (s.now + max 1 ttl)) (sym d) tt,
    omega arith,
  )
  Reachable-Within (granted {s = s} {n = n} {latest = latest} r e) =
      let (le, holds, late, past) = Reachable-Within r in
      let (stands, le') =
        subst
          (λ c.
            After key limit ttl scope plan s.now (latest + max 1 ttl) (omega (arith, past)) n c
              (acquire_concurrency key limit ttl scope plan s).1)
          e
          (acquire_concurrency-After key limit ttl scope plan s.now (latest + max 1 ttl)
            (omega (arith, past)) n s (holds, late, refl)) in
      (le', stands.0, stands.1, omega (arith, stands.2))
  Reachable-Within (denied {s = s} {n = n} {latest = latest} r e) =
      let (le, holds, late, past) = Reachable-Within r in
      let stands =
        subst
          (λ c.
            After key limit ttl scope plan s.now (latest + max 1 ttl) (omega (arith, past)) n c
              (acquire_concurrency key limit ttl scope plan s).1)
          e
          (acquire_concurrency-After key limit ttl scope plan s.now (latest + max 1 ttl)
            (omega (arith, past)) n s (holds, late, refl)) in
      (le, stands.0, stands.1, omega (arith, stands.2, past))
  Reachable-Within (released {s = s} {n = n} {latest = latest} r) =
      let (le, holds, late, past) = Reachable-Within r in
      let stands = release-Stands key s.now n (latest + max 1 ttl) s (holds, late, refl) in
      (omega (arith, le), stands.0, stands.1, omega (arith, stands.2, past))
  Reachable-Within (elsewhere {n = n} {latest = latest} r s' e d at) =
      let (le, holds, late, past) = Reachable-Within r in
      (
        le,
        subst (λ o. AtLeast n (or_zero o)) (sym e) holds,
        subst (Late (latest + max 1 ttl)) (sym d) late,
        omega (arith, at, past),
      )
  Reachable-Within (passed {s = s} {n = n} {latest = latest} r t le_t early) =
      let (le, holds, late, past) = Reachable-Within r in
      let (holds', late') =
        passed_lem n latest ttl t (s.counters key) (s.deadlines key) early holds late in
      (le, holds', late', omega (arith, past, le_t))

  -- However acquisitions and releases follow one another, whatever calls of the store raise, and whatever
  -- happens to other keys, a key has at most as many holders as its limit, and its counter stands at their
  -- number or above, as long as a key that has holders sees a time before the time to live of its last
  -- grant has passed.
  pub Reachable_le :
      {s : Redis} {n latest : ℕ}
      → Reachable key limit ttl scope plan s n latest
      → (n ≤ limit) × Holds key n s
  Reachable_le r = let (le, holds, late, past) = Reachable-Within r in (le, holds)
