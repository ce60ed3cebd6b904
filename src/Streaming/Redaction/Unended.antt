-- ===== src/Streaming/Redaction/Unended.antt =====
-- Only the end of a stream marks it as ended (streaming_state_machine.py).
use authclaw_mvp.Common.{
  ℕ, zero, suc, ◌+◌, ◌-◌, ◌≡◌, refl, Bool, true, false, [], ◌∷◌, ◌++◌, ltb, ◌==◌, if◌then◌else◌,
  Result, ok, err, length, Text,
}
use authclaw_mvp.Streaming.Redaction.{
  Machine, StreamingState, Reason, window_overflow, internal_corruption, illegal_state_transition,
  Action, continue, ◌>>=◌, pure, gets, fail, allowed, same_state, transition, require_state, when,
  admit, push, settle, consume, consume_loop, bump_sequence, emit_window, emit_scanned,
  emit_buffered, append, emit_safe,
}

record Unended {A : Type 0} (a : Action A) : Type 0 where
  at : (m : Machine) → m.end_seen ≡ false → (a m).1.end_seen ≡ false

module _ {A B : Type 0} where
  Unended-continue :
      (r : Result Reason A) (f : A → Action B) (m : Machine)
      → ((x : A) → Unended (f x))
      → m.end_seen ≡ false
      → (continue r f m).1.end_seen ≡ false
  Unended-continue (ok x) f m k h = (k x).at m h
  Unended-continue (err e) f m k h = h

  Unended-bind :
      (a : Action A) (f : A → Action B) → Unended a → ((x : A) → Unended (f x)) → Unended (a >>= f)
  Unended-bind a f ka kf = record { at = λ m h. Unended-continue (a m).0 f (a m).1 kf (ka.at m h) }

Unended-pure : {A : Type 0} (x : A) → Unended (pure x)
Unended-pure x = record { at = λ m h. h }

Unended-gets : {A : Type 0} (f : Machine → A) → Unended (gets f)
Unended-gets f = record { at = λ m h. h }

Unended-fail : {A : Type 0} (reason : Reason) → Unended (fail {A = A} reason)
unfolding fail
Unended-fail reason = record { at = λ m h. refl }

pick_end :
    {A : Type 0} (b : Bool) (x y : Result Reason A × Machine)
    → x.1.end_seen ≡ false
    → y.1.end_seen ≡ false
    → (if b then x else y).1.end_seen ≡ false
pick_end true x y hx hy = hx
pick_end false x y hx hy = hy

Unended-transition : (next : StreamingState) → Unended (transition next)
unfolding transition
Unended-transition next = record {
  at = λ m h.
      pick_end (same_state next m.state) (ok tt, m)
        (if allowed m.state next
          then (ok tt, record m { state = next })
          else fail illegal_state_transition m)
        h
        (pick_end (allowed m.state next) (ok tt, record m { state = next })
          (fail illegal_state_transition m) h
          ((Unended-fail {A = Unit {0}} illegal_state_transition).at m h));
}

Unended-require_state :
    (test : StreamingState → Bool) (reason : Reason) → Unended (require_state test reason)
unfolding require_state
Unended-require_state test reason = record {
  at = λ m h.
      pick_end (test m.state) (ok tt, m) (fail reason m) h
        ((Unended-fail {A = Unit {0}} reason).at m h);
}

Unended-when : (b : Bool) (a : Action (Unit {0})) → Unended a → Unended (when b a)
Unended-when true a k = record { at = k.at }
Unended-when false a k = record { at = λ m h. h }

Unended-push : (text : Text) → Unended (push text)
unfolding push
Unended-push [] = record { at = λ m h. h }
Unended-push (x ∷ text) = record {
  at = λ m h.
      let m' = record m {
        segments = m.segments ++ (x ∷ text) ∷ [];
        buffered_chars = m.buffered_chars + length (x ∷ text);
      } in
      pick_end (ltb m.max_window m'.buffered_chars) (fail window_overflow m') (ok tt, m')
        ((Unended-fail {A = Unit {0}} window_overflow).at m' h) h;
}

ruleset ends_rules = (
  Unended-bind, Unended-pure, Unended-gets, Unended-fail, Unended-transition, Unended-require_state,
  Unended-when,
)

Unended-append : (text : Text) → Unended (append text)
unfolding append admit settle
Unended-append text = search (ends_rules, Unended-push) depth 30

Unended-bump : Unended bump_sequence
Unended-bump = record { at = λ m h. h }

Unended-consume : (n : ℕ) → Unended (consume n)
unfolding consume
Unended-consume n = record {
  at = λ m h.
      let (out, segments, remaining) = consume_loop n m.segments in
      let m' = record m {
        segments = segments;
        buffered_chars = m.buffered_chars - (n - remaining);
      } in
      pick_end (ltb m.buffered_chars n) (fail internal_corruption m)
        (if remaining == 0 then (ok out, m') else fail internal_corruption m')
        ((Unended-fail {A = Text} internal_corruption).at m h)
        (pick_end (remaining == 0) (ok out, m') (fail internal_corruption m') h
          ((Unended-fail {A = Text} internal_corruption).at m' h));
}

Unended-emit_window : (text : Text) → Unended (emit_window text)
unfolding emit_window
Unended-emit_window [] = search ends_rules depth 20
Unended-emit_window (x ∷ text) = search (ends_rules, Unended-bump) depth 20

Unended-emit_scanned : (n : ℕ) → Unended (emit_scanned n)
unfolding emit_scanned
Unended-emit_scanned zero = search ends_rules depth 20
Unended-emit_scanned (suc n) = search (ends_rules, Unended-consume, Unended-emit_window) depth 20

Unended-emit_buffered : (n : ℕ) → Unended (emit_buffered n)
unfolding emit_buffered
Unended-emit_buffered zero = search ends_rules depth 20
Unended-emit_buffered (suc n) = search (ends_rules, Unended-emit_scanned) depth 20

Unended-emit_safe : Unended emit_safe
unfolding emit_safe
Unended-emit_safe = search (ends_rules, Unended-emit_buffered) depth 20

-- `append` and `emit_safe` leave an unended stream unended.
pub append_unended :
    (text : Text) (m : Machine) → m.end_seen ≡ false → (append text m).1.end_seen ≡ false
append_unended text m h = (Unended-append text).at m h

pub emit_safe_unended : (m : Machine) → m.end_seen ≡ false → (emit_safe m).1.end_seen ≡ false
emit_safe_unended m h = Unended-emit_safe.at m h
