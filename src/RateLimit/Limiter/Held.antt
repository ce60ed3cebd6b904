-- ===== src/RateLimit/Limiter/Held.antt =====
-- What one acquisition or release leaves of a counter and of its time to live.
use authclaw_mvp.Common.{
  ℕ, zero, suc, ◌+◌, ◌≤◌, max, ◌≡◌, refl, sym, ap, subst, inl, inr, Bool, true, false, Option, none,
  some, List, [], ◌∷◌, if◌then◌else◌, Text, Result, ok, err, arith, Bool-cases, leb→le,
}
use authclaw_mvp.Common.Exec.{◌>>=◌, ◌>>◌, pure, Ends, bind-Ends}
use authclaw_mvp.RateLimit.{ℤ, pos, negsuc}
use authclaw_mvp.RateLimit.Redis.{
  LimitKey, active_stream, cooldown_connector, active_connector, active_remediation, reports, Redis,
  RedisError, same_key, or_zero, increment, decrement, write, attempt, incr, decr, delete, expire,
  set_deadline, is_absent,
}
use authclaw_mvp.RateLimit.Limiter.{
  Scope, LimitDecision, decide, le_limit, is_exhausted, recover, drop_if_exhausted, release, admit,
  acquire_concurrency,
}

-- The counter stands at `n` or above.
abbrev pub AtLeast : ℕ → ℤ → Type 0
AtLeast n (pos m) = n ≤ m
AtLeast n (negsuc m) = suc n ≤ 0

abbrev pub count : LimitKey → Redis → ℤ
count key s = or_zero (s.counters key)

-- The counter of `key` stands at `n` or above.
abbrev pub Holds : LimitKey → ℕ → Redis → Type 0
Holds key n s = AtLeast n (count key s)

same_key_refl : (key : LimitKey) → same_key key key ≡ true
same_key_refl (active_stream t a) = ground arith
same_key_refl (cooldown_connector t p i) = ground arith
same_key_refl (active_connector t) = ground arith
same_key_refl (active_remediation t) = ground arith
same_key_refl (reports t) = ground arith

pub count-write :
    (key : LimitKey) (value : Option ℤ) (s : Redis) → count key (write key value s) ≡ or_zero value
count-write key value s =
    ap (λ b. or_zero (if b then value else s.counters key)) (same_key_refl key)

call-Ends :
    {A : Type 0} (P : A → Redis → Type 0) (Q : Redis → Type 0) (f : Redis → A × Redis) (s : Redis)
    (faults : List Bool)
    → ((fs : List Bool) → P (f (record s { faults = fs })).0 (f (record s { faults = fs })).1)
    → ((fs : List Bool) → Q (record s { faults = fs }))
    → Ends P Q (attempt f s faults s)
call-Ends P Q f s [] hp hq = hp s.faults
call-Ends P Q f s (true ∷ faults) hp hq = hq faults
call-Ends P Q f s (false ∷ faults) hp hq = hp faults

AtLeast-increment : (n : ℕ) (z : ℤ) → AtLeast n z → AtLeast (suc n) (increment z)
AtLeast-increment n (pos m) h = omega (arith, h)
AtLeast-increment n (negsuc m) h = absurd (omega (arith, h))

AtLeast-weaken : (n : ℕ) (z : ℤ) → AtLeast (suc n) z → AtLeast n z
AtLeast-weaken n (pos m) h = omega (arith, h)
AtLeast-weaken n (negsuc m) h = absurd (omega (arith, h))

AtLeast-decrement : (n : ℕ) (z : ℤ) → AtLeast (suc n) z → AtLeast n (decrement z)
AtLeast-decrement n (pos zero) h = absurd (omega (arith, h))
AtLeast-decrement n (pos (suc m)) h = omega (arith, h)
AtLeast-decrement n (negsuc m) h = absurd (omega (arith, h))

-- The key, if it has a time to live, stands until `b` at least.
abbrev pub Late : ℕ → Option ℕ → Type 0
Late b none = Unit
Late b (some deadline) = b ≤ deadline

Late-weaken : (a b : ℕ) (o : Option ℕ) → a ≤ b → Late b o → Late a o
Late-weaken a b none le h = tt
Late-weaken a b (some d) le h = omega (arith, le, h)

Late-unless : (c : Bool) (b : ℕ) (o : Option ℕ) → Late b o → Late b (if c then none else o)
Late-unless true b o h = tt
Late-unless false b o h = h

module _ (key : LimitKey) (t : ℕ) where
  -- At the time `t` the counter stands at `n` or above, and until `b` at least.
  abbrev pub Stands : ℕ → ℕ → Redis → Type 0
  Stands n b s = Holds key n s × Late b (s.deadlines key) × (s.now ≡ t)

  -- The value that a change returns is the one that it writes.
  abbrev Counted : ℕ → ℕ → ℤ → Redis → Type 0
  Counted n b z s = AtLeast n z × (count key s ≡ z) × Late b (s.deadlines key) × (s.now ≡ t)

  Counted-Stands : (n b : ℕ) (z : ℤ) (s : Redis) → Counted n b z s → Stands n b s
  Counted-Stands n b z s (h, e, late, at) = (subst (AtLeast n) (sym e) h, late, at)

  incr-Ends :
      (n b : ℕ) (s : Redis) → Stands n b s → Ends (Counted (suc n) b) (Stands n b) (incr key s)
  incr-Ends n b s (h, late, at) =
      let z = increment (count key s) in
      call-Ends (Counted (suc n) b) (Stands n b)
        (λ x. let z = increment (or_zero (x.counters key)) in (z, write key (some z) x)) s s.faults
        (λ fs. (
          AtLeast-increment n (count key s) h,
          count-write key (some z) (record s { faults = fs }),
          late,
          at,
        ))
        (λ fs. (h, late, at))

  decr-Ends :
      (n b : ℕ) (s : Redis) → Stands (suc n) b s → Ends (Counted n b) (Stands n b) (decr key s)
  decr-Ends n b s (h, late, at) =
      let z = decrement (count key s) in
      call-Ends (Counted n b) (Stands n b)
        (λ x. let z = decrement (or_zero (x.counters key)) in (z, write key (some z) x)) s s.faults
        (λ fs. (
          AtLeast-decrement n (count key s) h,
          count-write key (some z) (record s { faults = fs }),
          late,
          at,
        ))
        (λ fs. (AtLeast-weaken n (count key s) h, late, at))

ends-both :
    {A : Type 0} (R : Redis → Type 0) (m : Result RedisError A × Redis) → Ends (λ _. R) R m → R m.1
ends-both R (ok a, s) h = h
ends-both R (err e, s) h = h

exhausted_zero : (n : ℕ) (z : ℤ) → AtLeast n z → is_exhausted z ≡ true → n ≡ 0
exhausted_zero n (pos zero) h e = omega (arith, h)
exhausted_zero n (pos (suc m)) h e = absurd (ground arith)
exhausted_zero n (negsuc m) h e = absurd (omega (arith, h))

set_deadline-Late :
    (key : LimitKey) (o : Option ℕ) (b : ℕ) (s : Redis)
    → Late b o
    → Late b ((set_deadline key o s).deadlines key)
set_deadline-Late key o b s h =
    subst (λ c. Late b (if c then o else s.deadlines key)) (sym (same_key_refl key)) h

module _ (key : LimitKey) (t : ℕ) where
  delete-Ends :
      (b : ℕ) (s : Redis)
      → Stands key t 0 b s
      → Ends (λ _. Stands key t 0 b) (Stands key t 0 b) (delete key s)
  delete-Ends b s (h, late, at) =
      call-Ends (λ _. Stands key t 0 b) (Stands key t 0 b)
        (λ x. (tt, set_deadline key none (write key none x))) s s.faults
        (λ fs. (
          subst (AtLeast 0) (sym (count-write key none (record s { faults = fs }))) (omega arith),
          set_deadline-Late key none b (write key none s) tt,
          at,
        ))
        (λ fs. (h, late, at))

  drop_if_exhausted-Ends :
      (n b : ℕ) (z : ℤ) (s : Redis)
      → Counted key t n b z s
      → Ends (λ _. Stands key t n b) (Stands key t n b) (drop_if_exhausted key z s)
  unfolding drop_if_exhausted
  drop_if_exhausted-Ends n b z s counted = elim (Bool-cases (is_exhausted z)) [
    | inl x ↦
        subst
          (λ c.
            Ends (λ _. Stands key t n b) (Stands key t n b) ((if c then delete key else pure tt) s))
          (sym x)
          (let zero_left = exhausted_zero n z counted.0 x in
            subst (λ k. Ends (λ _. Stands key t k b) (Stands key t k b) (delete key s))
              (sym zero_left)
              (delete-Ends b s
                (subst (λ k. Stands key t k b s) zero_left (Counted-Stands key t n b z s counted))))
    | inr x ↦
        subst
          (λ c.
            Ends (λ _. Stands key t n b) (Stands key t n b) ((if c then delete key else pure tt) s))
          (sym x) (Counted-Stands key t n b z s counted)
  ]

  -- A release takes one from what the counter stands for, whether its calls raise or not.
  pub release-Stands :
      (n b : ℕ) (s : Redis) → Stands key t (suc n) b s → Stands key t n b (release key s)
  unfolding release
  release-Stands n b s h = ends-both (Stands key t n b) ((decr key >>= drop_if_exhausted key) s) (
      bind-Ends (Counted key t n b) (λ _. Stands key t n b) (Stands key t n b) (decr key)
        (drop_if_exhausted key) s (decr-Ends key t n b s h)
        (λ z u counted. drop_if_exhausted-Ends n b z u counted))

le_limit_le : (n limit : ℕ) (z : ℤ) → AtLeast n z → le_limit z limit ≡ true → n ≤ limit
le_limit_le n limit (pos m) h e = omega (arith, h, leb→le m limit e)
le_limit_le n limit (negsuc m) h e = absurd (omega (arith, h))

module _ (key : LimitKey) (limit ttl : ℕ) (scope : Scope) (plan : Text) (t b : ℕ)
    (soon : b ≤ t + max 1 ttl) where
  -- What an acquisition at the time `t` leaves: one holder more, within the limit, with the time to live
  -- ahead; or as many as before.
  abbrev pub After : ℕ → Bool → Redis → Type 0
  After n true s = Stands key t (suc n) (t + max 1 ttl) s × (suc n ≤ limit)
  After n false s = Stands key t n b s

  admit-After :
      (n : ℕ) (z : ℤ) (s : Redis)
      → Counted key t (suc n) (t + max 1 ttl) z s
      → Ends (λ d. After n d.allowed) (Stands key t n b) (admit key limit scope plan z s)
  unfolding admit
  admit-After n z s counted =
      let stands = Counted-Stands key t (suc n) (t + max 1 ttl) z s counted in
      let result = λ (c : Bool).
        Ends {E = RedisError} (λ d. After n d.allowed) (Stands key t n b)
          (if c
            then (ok (decide true scope plan 60), s)
            else (ok (decide false scope plan 60), release key s)) in
      elim (Bool-cases (le_limit z limit)) [
        | inl x ↦ subst result (sym x) (stands, le_limit_le (suc n) limit z counted.0 x)
        | inr x ↦ subst result (sym x) (
            release-Stands key t n b s
              (stands.0, Late-weaken b (t + max 1 ttl) (s.deadlines key) soon stands.1, stands.2))
      ]

  expire-Ends :
      (n : ℕ) (z : ℤ) (s : Redis)
      → Counted key t (suc n) b z s
      → Ends
          (λ _. Counted key t (suc n) (t + max 1 ttl) z)
          (Stands key t n b)
          (expire key (max 1 ttl) s)
  expire-Ends n z s (h, e, late, at) =
      let deadline =
        λ (x : Redis). if is_absent (x.counters key) then none else some (x.now + max 1 ttl) in
      call-Ends (λ _. Counted key t (suc n) (t + max 1 ttl) z) (Stands key t n b)
        (λ x. (tt, set_deadline key (deadline x) x)) s s.faults
        (λ fs. (
          h,
          e,
          set_deadline-Late key (deadline s) (t + max 1 ttl) s (
              Late-unless (is_absent (s.counters key)) (t + max 1 ttl) (some (s.now + max 1 ttl))
                (omega (arith, at))),
          at,
        ))
        (λ fs. (subst (AtLeast n) (sym e) (AtLeast-weaken n z h), late, at))

  guarded-After :
      (n : ℕ) (denied : LimitDecision) (m : Result RedisError LimitDecision × Redis)
      → denied.allowed ≡ false
      → Ends (λ d. After n d.allowed) (Stands key t n b) m
      → After n (recover denied m.0).allowed m.1
  guarded-After n denied (ok d, s) e h = h
  guarded-After n denied (err x, s) e h = subst (λ c. After n c s) (sym e) h

  -- An acquisition, whatever raises: it is granted within the limit, or denied and not counted as held.
  pub acquire_concurrency-After :
      (n : ℕ) (s : Redis)
      → Stands key t n b s
      → After n
          (acquire_concurrency key limit ttl scope plan s).0.allowed
          (acquire_concurrency key limit ttl scope plan s).1
  unfolding acquire_concurrency
  acquire_concurrency-After n s h =
      let body = λ (z : ℤ). expire key (max 1 ttl) >> admit key limit scope plan z in
      guarded-After n (decide false scope plan 60) ((incr key >>= body) s) refl (
        bind-Ends (Counted key t (suc n) b) (λ d. After n d.allowed) (Stands key t n b) (incr key)
          body s (incr-Ends key t n b s h)
          (λ z x counted.
            bind-Ends (λ _. Counted key t (suc n) (t + max 1 ttl) z) (λ d. After n d.allowed)
              (Stands key t n b) (expire key (max 1 ttl)) (λ _. admit key limit scope plan z) x
              (expire-Ends n z x counted) (λ _ y counted'. admit-After n z y counted')))
