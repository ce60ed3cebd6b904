-- ===== src/Streaming/Redaction.antt =====
-- The rolling text window of apps/api/app/core/engine/streaming_state_machine.py. A method that
-- raises leaves its state behind, so an action returns a result and a state.
mod Actions
mod Consume
pub mod Window
pub mod Accepts
pub mod Stream
pub mod Unended
mod Tests
use authclaw_mvp.Common.{
  ℕ, zero, suc, ◌+◌, ◌-◌, ◌≤◌, ◌<◌, max, Bool, true, false, not, ◌||◌, Option, none, some, List, [],
  ◌∷◌, ◌++◌, ltb, leb, ◌==◌, if◌then◌else◌, Result, ok, err, length, take, drop, Text,
}

pub data StreamingState : Type 0 where
  initial buffering scanning ready_to_emit emitting flushing complete error : StreamingState

-- The reasons of StreamingStateMachineError. (`invalid_event` is a type test, which cannot fail here.)
pub data Reason : Type 0 where
  append_not_allowed append_after_end_of_stream window_overflow emit_not_allowed : Reason
  flush_not_allowed flush_before_end_of_stream end_not_allowed : Reason
  internal_corruption illegal_state_transition : Reason

-- StreamingTextWindow, whose `text` and `safe_prefix` are one text.
pub record StreamingTextWindow : Type 0 where
  pub safe_prefix : Text
  pub retained_suffix : Text
  pub sequence : ℕ
  pub is_final : Bool

pub record Machine : Type 0 where
  pub look_behind : ℕ
  pub look_ahead : ℕ
  pub max_window : ℕ
  pub segments : List Text
  pub buffered_chars : ℕ
  pub state : StreamingState
  pub sequence : ℕ
  pub end_seen : Bool

pub data InitError : Type 0 where
  negative_look window_too_small : InitError

-- `__init__`, whose sizes are numbers: the test for negative ones cannot fail.
unfoldable pub new : ℕ → ℕ → ℕ → Result InitError Machine
new look_behind look_ahead max_window =
    if leb max_window (max look_behind look_ahead)
    then err window_too_small
    else ok (record {
      look_behind = look_behind;
      look_ahead = look_ahead;
      max_window = max_window;
      segments = [];
      buffered_chars = 0;
      state = initial;
      sequence = 0;
      end_seen = false;
    })

abbrev pub Action : Type 0 → Type 0
Action A = Machine → Result Reason A × Machine

abbrev pub continue : {A B : Type 0} → Result Reason A → (A → Action B) → Action B
continue (ok a) f m = f a m
continue (err e) f m = (err e, m)

infixl 5 ◌>>=◌ ◌>>◌
abbrev pub ◌>>=◌ : {A B : Type 0} → Action A → (A → Action B) → Action B
◌>>=◌ a f m = let (r, m') = a m in continue r f m'

abbrev pub ◌>>◌ : {A B : Type 0} → Action A → Action B → Action B
a >> b = a >>= λ _. b

abbrev pub pure : {A : Type 0} → A → Action A
pure a m = (ok a, m)

abbrev pub gets : {A : Type 0} → (Machine → A) → Action A
gets f m = (ok (f m), m)

-- `_fail`
pub fail : {A : Type 0} → Reason → Action A
fail reason m =
    (err reason, record m { segments = []; buffered_chars = 0; end_seen = false; state = error })

-- `next_state in allowed[self._state]`
pub allowed : StreamingState → StreamingState → Bool
allowed initial buffering = true
allowed initial complete = true
allowed buffering scanning = true
allowed buffering ready_to_emit = true
allowed buffering flushing = true
allowed buffering complete = true
allowed scanning buffering = true
allowed scanning ready_to_emit = true
allowed ready_to_emit scanning = true
allowed ready_to_emit emitting = true
allowed ready_to_emit buffering = true
allowed ready_to_emit flushing = true
allowed emitting buffering = true
allowed emitting initial = true
allowed flushing complete = true
allowed error initial = true
allowed _ _ = false

pub same_state : StreamingState → StreamingState → Bool
same_state initial initial = true
same_state buffering buffering = true
same_state scanning scanning = true
same_state ready_to_emit ready_to_emit = true
same_state emitting emitting = true
same_state flushing flushing = true
same_state complete complete = true
same_state error error = true
same_state _ _ = false

pub transition : StreamingState → Action (Unit {0})
unfolding allowed same_state fail
transition next m =
    if same_state next m.state
    then (ok tt, m)
    else if allowed m.state next
    then (ok tt, record m { state = next })
    else fail illegal_state_transition m

-- `_require_state`, with the set as a test.
pub require_state : (StreamingState → Bool) → Reason → Action (Unit {0})
unfolding fail
require_state test reason m = if test m.state then (ok tt, m) else fail reason m

-- `"".join(segments)`
unfoldable pub join : List Text → Text
join [] = []
join (s ∷ ss) = s ++ join ss

pub eligible_emit_len : Machine → ℕ
eligible_emit_len m = m.buffered_chars - max m.look_behind m.look_ahead

-- " \t\r\n,;!?)]}\"'"
unfoldable pub is_boundary : ℕ → Bool
is_boundary c =
    c == b' '
    || c == 9
    || c == 13
    || c == 10
    || c == b','
    || c == b';'
    || c == b'!'
    || c == b'?'
    || c == b')'
    || c == b']'
    || c == b'}'
    || c == 34
    || c == 39

-- `text[i]`; the loop reads it in range only.
unfoldable pub char_at : Text → ℕ → ℕ
char_at [] i = 0
char_at (x ∷ xs) zero = x
char_at (x ∷ xs) (suc i) = char_at xs i

-- `while cut > 0 and text[cut - 1] not in _BOUNDARY_CHARS: cut -= 1`
pub last_boundary : Text → ℕ → ℕ
last_boundary text zero = 0
last_boundary text (suc cut) =
    let rest = last_boundary text cut in if is_boundary (char_at text cut) then suc cut else rest

pub safe_emit_len : Machine → ℕ
unfolding eligible_emit_len last_boundary
safe_emit_len m = last_boundary (join m.segments) (eligible_emit_len m)

-- The `while remaining and self._segments` loop of `_consume`: the text put out, the segments left,
-- and what remains to be taken.
pub consume_loop : ℕ → List Text → Text × List Text × ℕ
consume_loop remaining [] = ([], [], remaining)
consume_loop zero (s ∷ ss) = ([], s ∷ ss, 0)
consume_loop (suc n) (s ∷ ss) =
    let rest = consume_loop (suc n - length s) ss in
    if leb (length s) (suc n)
    then (s ++ rest.0, rest.1, rest.2)
    else (take (suc n) s, drop (suc n) s ∷ ss, 0)

-- `_buffered_chars` falls by what is taken.
pub consume : ℕ → Action Text
unfolding consume_loop fail
consume count m =
    if ltb m.buffered_chars count
    then fail internal_corruption m
    else let (out, segments, remaining) = consume_loop count m.segments in
      let m' = record m {
        segments = segments;
        buffered_chars = m.buffered_chars - (count - remaining);
      } in
      if remaining == 0 then (ok out, m') else fail internal_corruption m'

abbrev appendable : StreamingState → Bool
appendable initial = true
appendable buffering = true
appendable ready_to_emit = true
appendable emitting = true
appendable _ = false

abbrev emittable : StreamingState → Bool
emittable buffering = true
emittable ready_to_emit = true
emittable _ = false

abbrev flushable : StreamingState → Bool
flushable initial = true
flushable buffering = true
flushable ready_to_emit = true
flushable complete = true
flushable _ = false

-- `if text:` of `append`, for the event's `data or ""`.
pub push : Text → Action (Unit {0})
unfolding fail
push [] m = (ok tt, m)
push (x ∷ text) m =
    let m' = record m {
      segments = m.segments ++ (x ∷ text) ∷ [];
      buffered_chars = m.buffered_chars + length (x ∷ text);
    } in
    if ltb m.max_window m'.buffered_chars then fail window_overflow m' else (ok tt, m')

abbrev pub when : Bool → Action (Unit {0}) → Action (Unit {0})
when b a m = if b then a m else (ok tt, m)

-- The end of `append`, behind the text.
pub settle : Action (Unit {0})
unfolding transition eligible_emit_len
settle = do
  transition buffering
  eligible ← gets eligible_emit_len
  when (ltb 0 eligible) (transition ready_to_emit)

-- The tests at the start of `append`.
pub admit : Action (Unit {0})
unfolding require_state fail
admit = do
  require_state appendable append_not_allowed
  ended ← gets (λ m. m.end_seen)
  when ended (fail append_after_end_of_stream)

unfoldable pub append : Text → Action (Unit {0})
unfolding admit push settle
append text = do admit; push text; settle

abbrev pub window_of : Text → Machine → StreamingTextWindow
window_of text m = record {
  safe_prefix = text;
  retained_suffix = join m.segments;
  sequence = m.sequence;
  is_final = false;
}

abbrev pub bump_sequence : Action (Unit {0})
bump_sequence m = (ok tt, record m { sequence = m.sequence + 1 })

-- The end of `emit_safe`, from `safe_prefix` on.
pub emit_window : Text → Action (List StreamingTextWindow)
unfolding transition join
emit_window [] = do transition buffering; pure []
emit_window (x ∷ text) = do
  transition emitting
  bump_sequence
  window ← gets (window_of (x ∷ text))
  left ← gets (λ m. m.buffered_chars)
  transition (if left == 0 then initial else buffering)
  pure (window ∷ [])

pub emit_scanned : ℕ → Action (List StreamingTextWindow)
unfolding transition consume emit_window
emit_scanned zero = do transition buffering; pure []
emit_scanned (suc n) = do
  transition ready_to_emit
  safe_prefix ← consume (suc n)
  emit_window safe_prefix

pub emit_buffered : ℕ → Action (List StreamingTextWindow)
unfolding transition safe_emit_len emit_scanned
emit_buffered zero = do transition buffering; pure []
emit_buffered (suc n) = do transition scanning; emit_len ← gets safe_emit_len; emit_scanned emit_len

unfoldable pub emit_safe : Action (List StreamingTextWindow)
unfolding require_state emit_buffered
emit_safe = do
  require_state emittable emit_not_allowed
  buffered ← gets (λ m. m.buffered_chars)
  emit_buffered buffered

abbrev pub final_window : Text → Machine → StreamingTextWindow
final_window text m = record {
  safe_prefix = text;
  retained_suffix = [];
  sequence = m.sequence;
  is_final = true;
}

pub flush_buffered : ℕ → Action (List StreamingTextWindow)
unfolding transition consume
flush_buffered zero = do transition complete; pure []
flush_buffered (suc n) = do
  final_text ← consume (suc n)
  bump_sequence
  window ← gets (final_window final_text)
  transition complete
  pure (window ∷ [])

pub flush_open : Action (List StreamingTextWindow)
unfolding transition flush_buffered
flush_open = do
  ended ← gets (λ m. m.end_seen)
  when (not ended) (fail flush_before_end_of_stream)
  transition flushing
  buffered ← gets (λ m. m.buffered_chars)
  flush_buffered buffered

unfoldable pub flush : Action (List StreamingTextWindow)
unfolding require_state flush_open same_state
flush = do
  require_state flushable flush_not_allowed
  state ← gets (λ m. m.state)
  if same_state state complete then pure [] else flush_open

abbrev pub see_end : Action (Unit {0})
see_end m = (ok tt, record m { end_seen = true })

unfoldable pub end_of_stream : Action (Unit {0})
unfolding require_state transition
end_of_stream = do
  require_state appendable end_not_allowed
  see_end
  left ← gets (λ m. m.buffered_chars)
  transition (if left == 0 then complete else buffering)

pub reset : Machine → Machine
reset m = record m {
  segments = [];
  buffered_chars = 0;
  sequence = 0;
  end_seen = false;
  state = initial;
}

-- `process_text` is a generator: the windows that it has yielded stay yielded if it raises later.
pub process_text :
    Text → Bool → Machine → List StreamingTextWindow × Result Reason (Unit {0}) × Machine
unfolding append emit_safe end_of_stream flush
process_text text is_final m =
    let (r1, m1) = (append text >> emit_safe) m in
    let (r2, m2) = (end_of_stream >> flush) m1 in
    elim r1 [
      | err e ↦ ([], err e, m1)
      | ok windows ↦
          if is_final
          then elim r2 [ err e ↦ (windows, err e, m2) | ok last ↦ (windows ++ last, ok tt, m2) ]
          else (windows, ok tt, m1)
    ]
