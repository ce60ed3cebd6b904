-- ===== src/Streaming/Redaction/Actions.antt =====
-- The actions of streaming_state_machine.py fail closed: an action that raises leaves no text.
use authclaw_mvp.Common.{
  ℕ, zero, suc, ◌≡◌, refl, ap, subst, Bool, true, false, [], ◌∷◌, arith, if◌then◌else◌, Result, ok,
  err, Text,
}
use authclaw_mvp.Streaming.Redaction.{
  Machine, Reason, StreamingState, error, Action, ◌>>=◌, pure, gets, continue, when, bump_sequence,
  see_end, fail, transition, require_state, push, settle, admit, append, consume, emit_window,
  emit_scanned, emit_buffered, emit_safe, flush_buffered, flush_open, flush, end_of_stream,
}

-- What a raise leaves: no text, and the error state.
pub record Failed (m : Machine) : Type 0 where
  pub no_text : m.segments ≡ []
  pub no_chars : m.buffered_chars ≡ 0
  pub in_error : m.state ≡ error
  pub not_ended : m.end_seen ≡ false

continue_ok :
    {A B : Type 0} (r : Result Reason A) (f : A → Action B) (m1 : Machine) {b : B} {m' : Machine}
    → continue r f m1 ≡ (ok b, m')
    → (x : A) × (r ≡ ok x) × (f x m1 ≡ (ok b, m'))
continue_ok (ok x) f m1 h = (x, refl, h)
continue_ok (err e) f m1 h = absurd (ground arith)

-- A sequence that returns is two actions that return.
pub bind_ok :
    {A B : Type 0} (a : Action A) (f : A → Action B) (m : Machine) {b : B} {m' : Machine}
    → (a >>= f) m ≡ (ok b, m')
    → (x : A) × (m1 : Machine) × (a m ≡ (ok x, m1)) × (f x m1 ≡ (ok b, m'))
bind_ok a f m h =
    let (x, e, rest) = continue_ok (a m).0 f (a m).1 h in (x, (a m).1, (λ i. (e i, (a m).1)), rest)

pub record FailsClosed {A : Type 0} (a : Action A) : Type 0 where
  pub at : (m : Machine) (e : Reason) (m' : Machine) → a m ≡ (err e, m') → Failed m'

module _ {A : Type 0} where
  FailsClosed-pure : (x : A) → FailsClosed (pure x)
  FailsClosed-pure x = record { at = λ m e m' h. ground arith }

  FailsClosed-gets : (f : Machine → A) → FailsClosed (gets f)
  FailsClosed-gets f = record { at = λ m e m' h. ground arith }

  FailsClosed-fail : (r : Reason) → FailsClosed (fail {A = A} r)
  unfolding fail
  FailsClosed-fail r = record { at = λ m e m' h. ground arith }

  FailsClosed-if :
      (b : Bool) (x y : Action A) → FailsClosed x → FailsClosed y → FailsClosed (if b then x else y)
  FailsClosed-if true x y hx hy = hx
  FailsClosed-if false x y hx hy = hy

module _ {A B : Type 0} where
  continue_err :
      (a : Action A) (f : A → Action B)
      → FailsClosed a
      → ((x : A) → FailsClosed (f x))
      → (m : Machine) (r : Result Reason A) (m1 : Machine) {e : Reason} {m' : Machine}
      → a m ≡ (r, m1)
      → continue r f m1 ≡ (err e, m')
      → Failed m'
  continue_err a f ha hf m (ok x) m1 {e} {m'} q h = (hf x).at m1 e m' h
  continue_err a f ha hf m (err x) m1 {e} {m'} q h = subst Failed (ap (λ t. t.1) h) (ha.at m x m1 q)

  FailsClosed-bind :
      (a : Action A) (f : A → Action B)
      → FailsClosed a
      → ((x : A) → FailsClosed (f x))
      → FailsClosed (a >>= f)
  FailsClosed-bind a f ha hf = record {
    at = λ m e m' h. continue_err a f ha hf m (a m).0 (a m).1 refl h;
  }

FailsClosed-when : (b : Bool) (a : Action Unit) → FailsClosed a → FailsClosed (when b a)
FailsClosed-when true a h = record { at = h.at }
FailsClosed-when false a h = record { at = λ m e m' h. ground arith }

FailsClosed-bump_sequence : FailsClosed bump_sequence
FailsClosed-bump_sequence = record { at = λ m e m' h. ground arith }

FailsClosed-see_end : FailsClosed see_end
FailsClosed-see_end = record { at = λ m e m' h. ground arith }

FailsClosed-transition : (st : StreamingState) → FailsClosed (transition st)
unfolding transition
FailsClosed-transition st = record { at = λ m e m' h. ground arith }

FailsClosed-require_state :
    (test : StreamingState → Bool) (r : Reason) → FailsClosed (require_state test r)
unfolding require_state
FailsClosed-require_state test r = record { at = λ m e m' h. ground arith }

FailsClosed-consume : (n : ℕ) → FailsClosed (consume n)
unfolding consume
FailsClosed-consume n = record { at = λ m e m' h. ground arith }

FailsClosed-push : (text : Text) → FailsClosed (push text)
unfolding push
FailsClosed-push [] = record { at = λ m e m' h. ground arith }
FailsClosed-push (x ∷ text) = record { at = λ m e m' h. ground arith }

ruleset closed_rules = (
  FailsClosed-pure, FailsClosed-gets, FailsClosed-fail, FailsClosed-if, FailsClosed-bind,
  FailsClosed-when, FailsClosed-bump_sequence, FailsClosed-see_end, FailsClosed-transition,
  FailsClosed-require_state, FailsClosed-consume, FailsClosed-push,
)

FailsClosed-settle : FailsClosed settle
unfolding settle
FailsClosed-settle = search closed_rules

FailsClosed-admit : FailsClosed admit
unfolding admit
FailsClosed-admit = search closed_rules

pub FailsClosed-append : (text : Text) → FailsClosed (append text)
unfolding append
FailsClosed-append text = search (closed_rules, FailsClosed-admit, FailsClosed-settle)

FailsClosed-emit_window : (text : Text) → FailsClosed (emit_window text)
unfolding emit_window
FailsClosed-emit_window [] = search closed_rules
FailsClosed-emit_window (x ∷ text) = search closed_rules depth 8

FailsClosed-emit_scanned : (n : ℕ) → FailsClosed (emit_scanned n)
unfolding emit_scanned
FailsClosed-emit_scanned zero = search closed_rules
FailsClosed-emit_scanned (suc n) = search (closed_rules, FailsClosed-emit_window)

FailsClosed-emit_buffered : (n : ℕ) → FailsClosed (emit_buffered n)
unfolding emit_buffered
FailsClosed-emit_buffered zero = search closed_rules
FailsClosed-emit_buffered (suc n) = search (closed_rules, FailsClosed-emit_scanned)

pub FailsClosed-emit_safe : FailsClosed emit_safe
unfolding emit_safe
FailsClosed-emit_safe = search (closed_rules, FailsClosed-emit_buffered)

FailsClosed-flush_buffered : (n : ℕ) → FailsClosed (flush_buffered n)
unfolding flush_buffered
FailsClosed-flush_buffered zero = search closed_rules
FailsClosed-flush_buffered (suc n) = search closed_rules depth 8

FailsClosed-flush_open : FailsClosed flush_open
unfolding flush_open
FailsClosed-flush_open = search (closed_rules, FailsClosed-flush_buffered) depth 8

pub FailsClosed-flush : FailsClosed flush
unfolding flush
FailsClosed-flush = search (closed_rules, FailsClosed-flush_open) depth 8

pub FailsClosed-end_of_stream : FailsClosed end_of_stream
unfolding end_of_stream
FailsClosed-end_of_stream = search closed_rules depth 8

pub data Operation : Type 0 where
  appending : Text → Operation
  emitting flushing ending : Operation

-- A call of the machine, without what it returns.
unfoldable pub perform : Operation → Action (Unit {0})
perform (appending text) = append text
perform emitting = emit_safe >>= λ _. pure tt
perform flushing = flush >>= λ _. pure tt
perform ending = end_of_stream

FailsClosed-perform : (op : Operation) → FailsClosed (perform op)
unfolding perform
FailsClosed-perform (appending text) = FailsClosed-append text
FailsClosed-perform emitting = search (closed_rules, FailsClosed-emit_safe)
FailsClosed-perform flushing = search (closed_rules, FailsClosed-flush)
FailsClosed-perform ending = FailsClosed-end_of_stream

-- `append`, `emit_safe`, `flush` or `end_of_stream`, in any machine: a call that raises leaves no
-- buffered text, and the machine in its error state.
pub perform-Failed :
    (op : Operation) (m : Machine) (e : Reason) (m' : Machine)
    → perform op m ≡ (err e, m')
    → Failed m'
perform-Failed op m e m' h = (FailsClosed-perform op).at m e m' h
