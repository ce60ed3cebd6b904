-- ===== src/Breaker/Interleaving.antt =====
-- The breaker under any interleaving of calls.
use authclaw_mvp.Common.{
  if◌then◌else◌, sym, ℕ, length, Bool-cases, leb→le, inl, inr, suc, ◌+◌, ◌≤◌, ◌<◌, ◌≡◌, refl, ap,
  subst, ◌∙◌, Bool, true, false, List, [], ◌∷◌, arith, leb, none, some,
}
use authclaw_mvp.Common.{some-injective}
use authclaw_mvp.Breaker.{
  CircuitState, CircuitBreaker, new, should_attempt_reset, enter, enter_in, enter_open, on_success,
  on_failure, after_failure, reset,
}

-- A locked block of some call, or a reset. A call that is let in ends later, after any other blocks.
pub data Step : CircuitBreaker → CircuitBreaker → Type 0 where
  entered : {b b' : CircuitBreaker} (now : ℕ) → enter b now ≡ some b' → Step b b'
  succeeded : (b : CircuitBreaker) → Step b (on_success b)
  failed : (b : CircuitBreaker) (now : ℕ) → Step b (on_failure b now)
  was_reset : (b : CircuitBreaker) → Step b (reset b)

pub data Reachable (threshold timeout : ℕ) : CircuitBreaker → Type 0 where
  start : Reachable threshold timeout (new threshold timeout)
  next :
      {b b' : CircuitBreaker}
      → Reachable threshold timeout b
      → Step b b'
      → Reachable threshold timeout b'

-- Closed means fewer failures than the threshold; the parameters never change.
pub record Sound (threshold timeout : ℕ) (b : CircuitBreaker) : Type 0 where
  pub same_threshold : b.failure_threshold ≡ threshold
  pub same_timeout : b.recovery_timeout ≡ timeout
  pub below : b.state ≡ CircuitState.closed → b.failure_count < threshold

not_closed :
    (count threshold : ℕ) (s : CircuitState)
    → after_failure s count threshold ≡ CircuitState.closed
    → count < threshold
unfolding after_failure
not_closed count threshold CircuitState.closed h = ground arith
not_closed count threshold CircuitState.opened h = ground arith
not_closed count threshold CircuitState.half_open h = ground arith

Sound-on_failure :
    (k t : ℕ) (b : CircuitBreaker) (now : ℕ) → Sound k t b → Sound k t (on_failure b now)
unfolding on_failure
Sound-on_failure k t b now h = record {
  same_threshold = h.same_threshold;
  same_timeout = h.same_timeout;
  below = λ e.
      subst (λ x. suc b.failure_count < x) h.same_threshold
        (not_closed (suc b.failure_count) b.failure_threshold b.state e);
}

Sound-enter_open :
    (k t : ℕ) (b : CircuitBreaker) (reset? : Bool) {b' : CircuitBreaker}
    → Sound k t b
    → enter_open b reset? ≡ some b'
    → Sound k t b'
unfolding enter_open
Sound-enter_open k t b true h e = subst (Sound k t) (some-injective e) (record {
  same_threshold = h.same_threshold;
  same_timeout = h.same_timeout;
  below = λ e'. absurd (ground arith);
})
Sound-enter_open k t b false h e = absurd (ground arith)

Sound-enter :
    (k t : ℕ) (b : CircuitBreaker) (s : CircuitState) (now : ℕ) {b' : CircuitBreaker}
    → Sound k t b
    → enter_in b s now ≡ some b'
    → Sound k t b'
unfolding enter_in
Sound-enter k t b CircuitState.opened now h e =
    Sound-enter_open k t b (should_attempt_reset b now) h e
Sound-enter k t b CircuitState.closed now h e = subst (Sound k t) (some-injective e) h
Sound-enter k t b CircuitState.half_open now h e = subst (Sound k t) (some-injective e) h

Sound-Step : (k t : ℕ) {b b' : CircuitBreaker} → 1 ≤ k → Sound k t b → Step b b' → Sound k t b'
unfolding enter on_success reset
Sound-Step k t hk h (entered {b = b} now e) = Sound-enter k t b b.state now h e
Sound-Step k t hk h (succeeded b) = record {
  same_threshold = h.same_threshold;
  same_timeout = h.same_timeout;
  below = λ e. ground arith;
}
Sound-Step k t hk h (failed b now) = Sound-on_failure k t b now h
Sound-Step k t hk h (was_reset b) = record {
  same_threshold = h.same_threshold;
  same_timeout = h.same_timeout;
  below = λ e. ground arith;
}

-- Whatever the interleaving of calls, a closed breaker has counted fewer failures than its threshold,
-- which is at least 1.
pub Reachable-Sound : (k t : ℕ) {b : CircuitBreaker} → 1 ≤ k → Reachable k t b → Sound k t b
unfolding new
Reachable-Sound k t hk start = record {
  same_threshold = refl;
  same_timeout = refl;
  below = λ e. ground arith;
}
Reachable-Sound k t hk (next r step) = Sound-Step k t hk (Reachable-Sound k t hk r) step

-- The breaker that a probe has entered.
abbrev pub probe : CircuitBreaker → CircuitBreaker
probe b = record b { state = CircuitState.half_open }

reset_time :
    (b : CircuitBreaker) (now : ℕ)
    → b.last_failure_time + b.recovery_timeout ≤ now
    → should_attempt_reset b now ≡ true
unfolding should_attempt_reset
reset_time b now h = ground arith

too_early :
    (b : CircuitBreaker) (now : ℕ)
    → now < b.last_failure_time + b.recovery_timeout
    → should_attempt_reset b now ≡ false
unfolding should_attempt_reset
too_early b now h = ground arith

-- An open breaker rejects every call until the timeout since its last failure has gone by.
open_rejects :
    (b : CircuitBreaker) (now : ℕ)
    → b.state ≡ CircuitState.opened
    → now < b.last_failure_time + b.recovery_timeout
    → enter b now ≡ none
unfolding enter enter_in enter_open
open_rejects b now h early =
    ap (λ s. enter_in b s now) h ∙ ap (enter_open b) (too_early b now early)

-- After the timeout an open breaker lets a call in as a probe; when the probe succeeds the breaker is
-- closed with no failures, and when it fails a call within the timeout from that failure is rejected.
pub open_probes :
    (b : CircuitBreaker) (now later again : ℕ)
    → b.state ≡ CircuitState.opened
    → b.last_failure_time + b.recovery_timeout ≤ now
    → again < later + b.recovery_timeout
    → (enter b now ≡ some (probe b))
      × ((on_success (probe b)).state ≡ CircuitState.closed)
      × ((on_success (probe b)).failure_count ≡ 0)
      × (enter (on_failure (probe b) later) again ≡ none)
unfolding enter enter_in enter_open on_success on_failure after_failure
open_probes b now later again h late early = (
  ap (λ s. enter_in b s now) h ∙ ap (enter_open b) (reset_time b now late),
  refl,
  refl,
  open_rejects (on_failure (probe b) later) again refl early,
)

-- Failures that follow one another.
abbrev pub fail_times : List ℕ → CircuitBreaker → CircuitBreaker
fail_times [] b = b
fail_times (now ∷ times) b = fail_times times (on_failure b now)

after_open :
    (count threshold : ℕ) (s : CircuitState)
    → s ≡ CircuitState.opened
    → after_failure s count threshold ≡ CircuitState.opened
unfolding after_failure
after_open count threshold CircuitState.opened h = ground arith
after_open count threshold CircuitState.closed h = absurd (ground arith)
after_open count threshold CircuitState.half_open h = refl

still :
    (b : CircuitBreaker) (now : ℕ)
    → b.state ≡ CircuitState.opened
    → (on_failure b now).state ≡ CircuitState.opened
unfolding on_failure
still b now h = after_open (suc b.failure_count) b.failure_threshold b.state h

opened_stays :
    (times : List ℕ) (b : CircuitBreaker)
    → b.state ≡ CircuitState.opened
    → (fail_times times b).state ≡ CircuitState.opened
opened_stays [] b h = h
opened_stays (now ∷ times) b h = opened_stays times (on_failure b now) (still b now h)

after_closed :
    (count threshold : ℕ) (s : CircuitState)
    → s ≡ CircuitState.closed
    → count < threshold
    → after_failure s count threshold ≡ CircuitState.closed
unfolding after_failure
after_closed count threshold CircuitState.closed h lt = ground arith
after_closed count threshold CircuitState.opened h lt = absurd (ground arith)
after_closed count threshold CircuitState.half_open h lt = absurd (ground arith)

reaches :
    (count threshold : ℕ) (s : CircuitState)
    → threshold ≤ count
    → after_failure s count threshold ≡ CircuitState.opened
unfolding after_failure
reaches count threshold CircuitState.closed le = ground arith
reaches count threshold CircuitState.opened le = ground arith
reaches count threshold CircuitState.half_open le = refl

stays_closed :
    (times : List ℕ) (b : CircuitBreaker)
    → b.state ≡ CircuitState.closed
    → b.failure_count + length times < b.failure_threshold
    → (fail_times times b).state ≡ CircuitState.closed
unfolding on_failure
stays_closed [] b h lt = h
stays_closed (now ∷ times) b h lt =
    stays_closed times (on_failure b now)
      (after_closed (suc b.failure_count) b.failure_threshold b.state h (omega (arith, lt)))
      (omega (arith, lt))

below : {k n : ℕ} → leb k n ≡ false → n < k
below h = ground arith

opens :
    (times : List ℕ) (b : CircuitBreaker)
    → b.state ≡ CircuitState.closed
    → 1 ≤ length times
    → b.failure_threshold ≤ b.failure_count + length times
    → (fail_times times b).state ≡ CircuitState.opened
unfolding on_failure
opens [] b h some_time le = absurd (omega (arith, some_time))
opens (now ∷ times) b h some_time le =
    elim (Bool-cases (leb b.failure_threshold (suc b.failure_count))) [
      | inl e ↦
          opened_stays times (on_failure b now)
            (reaches (suc b.failure_count) b.failure_threshold b.state (leb→le _ _ e))
      | inr e ↦
          opens times (on_failure b now)
            (after_closed (suc b.failure_count) b.failure_threshold b.state h (below e))
            (omega (arith, below e, le)) (omega (arith, le))
    ]

new_closed :
    (k t : ℕ) (times : List ℕ)
    → length times < k
    → (fail_times times (new k t)).state ≡ CircuitState.closed
unfolding new
new_closed k t times lt = stays_closed times (new k t) refl (omega (arith, lt))

new_opened :
    (k t : ℕ) (times : List ℕ)
    → 1 ≤ k
    → k ≤ length times
    → (fail_times times (new k t)).state ≡ CircuitState.opened
unfolding new
new_opened k t times hk le = opens times (new k t) refl (omega (arith, le, hk)) (omega (arith, le))

-- After failures that follow one another a new breaker is open when they are at least as many as the
-- threshold, which is at least 1, and closed when they are fewer.
pub new_opens :
    (k t : ℕ) (times : List ℕ)
    → 1 ≤ k
    → (fail_times times (new k t)).state
      ≡ (if leb k (length times) then CircuitState.opened else CircuitState.closed)
new_opens k t times hk = elim (Bool-cases (leb k (length times))) [
  | inl e ↦
      new_opened k t times hk (leb→le k (length times) e)
      ∙ ap (λ b. if b then CircuitState.opened else CircuitState.closed) (sym e)
  | inr e ↦
      new_closed k t times (below e)
      ∙ ap (λ b. if b then CircuitState.opened else CircuitState.closed) (sym e)
]
