-- ===== src/Streaming/Redaction/Window.antt =====
-- The window of streaming_state_machine.py: its invariant, and what each method does to the text.
use authclaw_mvp.Common.{
  ℕ, zero, suc, ◌+◌, ◌-◌, ◌≤◌, ◌<◌, ◌≡◌, refl, sym, ap, ◌∙◌, max, true, false, [], ◌∷◌, ◌++◌,
  append-nil, arith, ltb, ◌==◌, if◌then◌else◌, ◌⊎◌, inl, inr, ok, err, length, length-append, Text,
}
use authclaw_mvp.Streaming.Redaction.{
  Machine, StreamingState, StreamingTextWindow, initial, buffering, scanning, ready_to_emit,
  complete, error, window_overflow, join, append, admit, settle, push, emit_safe, emit_buffered,
  emit_scanned, emit_window, window_of, eligible_emit_len, safe_emit_len, consume, is_boundary,
  char_at,
}
use authclaw_mvp.Streaming.Redaction.Consume.{
  join-append, Consumed, consume-Consumed, last_boundary-le, last_boundary-is_boundary,
  last_boundary-greatest,
}

-- The states in which a machine rests between two calls, and what they say of the buffer.
abbrev pub AtRest : StreamingState → ℕ → Type 0
AtRest initial n = n ≡ 0
AtRest buffering n = Unit
AtRest ready_to_emit n = 0 < n
AtRest complete n = n ≡ 0
AtRest error n = n ≡ 0
AtRest _ n = ⊥

pub record IsValid (m : Machine) : Type 0 where
  pub counted : m.buffered_chars ≡ length (join m.segments)
  pub fits : m.buffered_chars ≤ m.max_window
  pub at_rest : AtRest m.state m.buffered_chars

join-nil : join [] ≡ []
unfolding join
join-nil = refl

abbrev pub IsOpen : StreamingState → Type 0
IsOpen initial = Unit
IsOpen buffering = Unit
IsOpen ready_to_emit = Unit
IsOpen _ = ⊥

abbrev Emittable : Machine → Type 0
Emittable m = (m.state ≡ buffering) ⊎ (m.state ≡ ready_to_emit)

pub settled : Machine → Machine
settled m = record m { state = if ltb 0 (eligible_emit_len m) then ready_to_emit else buffering }

pub settle_lem :
    (st : StreamingState) (m : Machine) → m.state ≡ st → IsOpen st → settle m ≡ (ok tt, settled m)
unfolding settle settled
settle_lem initial m e o = ground arith
settle_lem buffering m e o = ground arith
settle_lem ready_to_emit m e o = ground arith
settle_lem _ m e o = absurd o

pub settled-IsValid :
    (m : Machine)
    → m.buffered_chars ≡ length (join m.segments)
    → m.buffered_chars ≤ m.max_window
    → IsValid (settled m)
unfolding settled eligible_emit_len
settled-IsValid m counted fits = ground arith

admit_run :
    (st : StreamingState) (m : Machine)
    → m.state ≡ st
    → IsOpen st
    → m.end_seen ≡ false
    → admit m ≡ (ok tt, m)
unfolding admit
admit_run initial m e o n = ground arith
admit_run buffering m e o n = ground arith
admit_run ready_to_emit m e o n = ground arith
admit_run _ m e o n = absurd o

pushed : Text → Machine → Machine
pushed [] m = m
pushed (x ∷ text) m = record m {
  segments = m.segments ++ (x ∷ text) ∷ [];
  buffered_chars = m.buffered_chars + length (x ∷ text);
}

push_run :
    (text : Text) (m : Machine)
    → m.buffered_chars + length text ≤ m.max_window
    → push text m ≡ (ok tt, pushed text m)
unfolding push pushed
push_run [] m h = refl
push_run (x ∷ text) m h = ground arith

pushed-state :
    (text : Text) (m : Machine)
    → ((pushed text m).state ≡ m.state)
      × ((pushed text m).end_seen ≡ m.end_seen)
      × ((pushed text m).max_window ≡ m.max_window)
      × ((pushed text m).buffered_chars ≡ m.buffered_chars + length text)
      × (join (pushed text m).segments ≡ join m.segments ++ text)
unfolding pushed
pushed-state [] m = (refl, refl, refl, omega arith, sym (append-nil (join m.segments)))
pushed-state (x ∷ text) m = (refl, refl, refl, omega arith, join-append m.segments (x ∷ text))

Emittable-settled : (m : Machine) → Emittable (settled m)
unfolding settled
Emittable-settled m = ground arith

pub append_lem :
    (text : Text) (m : Machine)
    → IsValid m
    → IsOpen m.state
    → m.end_seen ≡ false
    → m.buffered_chars + length text ≤ m.max_window
    → (m' : Machine) × (append text m ≡ (ok tt, m'))
      × IsValid m'
      × (join m'.segments ≡ join m.segments ++ text)
      × ((m'.state ≡ buffering) ⊎ (m'.state ≡ ready_to_emit))
      × (m'.end_seen ≡ false)
unfolding append settled
append_lem text m v o n room =
    let (st, es, cap, chars, added) = pushed-state text m in
    let total = length-append (join m.segments) text in
    let grown = ap length added in
    let counted = v.counted in
    (
      settled (pushed text m),
      ground (
        arith,
        admit_run m.state m refl o n,
        push_run text m room,
        settle_lem m.state (pushed text m) st o,
      ),
      settled-IsValid (pushed text m) (omega arith) (omega arith),
      added,
      Emittable-settled (pushed text m),
      es ∙ n,
    )

push_overflow :
    (text : Text) (m : Machine)
    → m.max_window < m.buffered_chars + length text
    → m.buffered_chars ≤ m.max_window
    → (push text m).0 ≡ err window_overflow
unfolding push
push_overflow [] m h le = absurd (omega arith)
push_overflow (x ∷ text) m h le = ground arith

pub append_overflow :
    (text : Text) (m : Machine)
    → IsValid m
    → IsOpen m.state
    → m.end_seen ≡ false
    → m.max_window < m.buffered_chars + length text
    → (append text m).0 ≡ err window_overflow
unfolding append
append_overflow text m v o n h =
    ground (arith, admit_run m.state m refl o n, push_overflow text m h v.fits)

emitted : Machine → Machine
emitted m = record m {
  sequence = m.sequence + 1;
  state = if m.buffered_chars == 0 then initial else buffering;
}

emit_window_lem :
    (x : ℕ) (text : Text) (m : Machine)
    → m.state ≡ ready_to_emit
    → emit_window (x ∷ text) m ≡ (ok (window_of (x ∷ text) (emitted m) ∷ []), emitted m)
unfolding emit_window emitted
emit_window_lem x text m e = ground arith

-- What a window that `emit_safe` returns is: the text up to the last boundary that leaves the
-- look-behind and the look-ahead in the buffer, with the text that stays.
pub record SafeWindow (m : Machine) (w : StreamingTextWindow) (m' : Machine) : Type 0 where
  pub whole : w.safe_prefix ++ w.retained_suffix ≡ join m.segments
  pub retained : w.retained_suffix ≡ join m'.segments
  pub cut : length w.safe_prefix ≡ safe_emit_len m
  pub look : max m.look_behind m.look_ahead ≤ length w.retained_suffix
  pub numbered : w.sequence ≡ m.sequence + 1
  pub not_final : w.is_final ≡ false
  pub valid : IsValid m'
  pub open_after : IsOpen m'.state

to_ready : Machine → Machine
to_ready m = record m { state = ready_to_emit }

emit_scanned_run :
    (n : ℕ) (m : Machine) (x : ℕ) (out : Text) (m1 : Machine)
    → m.state ≡ scanning
    → consume (suc n) (to_ready m) ≡ (ok (x ∷ out), m1)
    → m1.state ≡ ready_to_emit
    → emit_scanned (suc n) m ≡ (ok (window_of (x ∷ out) (emitted m1) ∷ []), emitted m1)
unfolding emit_scanned to_ready
emit_scanned_run n m x out m1 e run st = ground (arith, run, emit_window_lem x out m1)

safe_emit_len-le :
    (m : Machine) → safe_emit_len m ≤ m.buffered_chars - max m.look_behind m.look_ahead
unfolding safe_emit_len eligible_emit_len
safe_emit_len-le m =
    last_boundary-le (join m.segments) (m.buffered_chars - max m.look_behind m.look_ahead)

-- The segments and the count that `consume` leaves, for a window.
safe_window :
    (n : ℕ) (m : Machine) (x : ℕ) (out : Text) (m1 : Machine)
    → m.buffered_chars ≡ length (join m.segments)
    → m.buffered_chars ≤ m.max_window
    → suc n ≡ safe_emit_len m
    → Consumed (suc n) (to_ready m) (x ∷ out) m1
    → SafeWindow m (window_of (x ∷ out) (emitted m1)) (emitted m1)
unfolding to_ready emitted
safe_window n m x out m1 counted fits len c =
    let total = length-append (x ∷ out) (join m1.segments) in
    let same = ap length c.whole in
    let le = safe_emit_len-le m in
    let left : m1.buffered_chars ≡ m.buffered_chars - suc n =
      ap (λ (t : Machine). t.buffered_chars) c.rest in
    let cap : m1.max_window ≡ m.max_window = ap (λ (t : Machine). t.max_window) c.rest in
    let num : m1.sequence ≡ m.sequence = ap (λ (t : Machine). t.sequence) c.rest in
    let taken = c.taken in
    record {
      whole = c.whole;
      retained = refl;
      cut = omega arith;
      look = omega arith;
      numbered = omega arith;
      not_final = refl;
      open_after = ground arith;
      valid = record { counted = omega arith; fits = omega arith; at_rest = ground arith };
    }

emit_scanned_lem :
    (n : ℕ) (m : Machine)
    → m.state ≡ scanning
    → m.buffered_chars ≡ length (join m.segments)
    → m.buffered_chars ≤ m.max_window
    → suc n ≡ safe_emit_len m
    → (w : StreamingTextWindow) × (m' : Machine) × (emit_scanned (suc n) m ≡ (ok (w ∷ []), m'))
      × SafeWindow m w m'
unfolding to_ready
emit_scanned_lem n m e counted fits len =
    go (consume-Consumed (suc n) (to_ready m) counted (omega (arith, safe_emit_len-le m)))
  where
    go :
        (r : (out : Text) × (m' : Machine) × Consumed (suc n) (to_ready m) out m')
        → (w : StreamingTextWindow) × (m' : Machine) × (emit_scanned (suc n) m ≡ (ok (w ∷ []), m'))
          × SafeWindow m w m'
    go ([], m1, c) = absurd (omega (arith, c.taken))
    go (x ∷ out, m1, c) = (
      window_of (x ∷ out) (emitted m1),
      emitted m1,
      emit_scanned_run n m x out m1 e c.run (ap (λ (t : Machine). t.state) c.rest),
      safe_window n m x out m1 counted fits len c,
    )

to_scanning : Machine → Machine
to_scanning m = record m { state = scanning }

-- The window of a machine that scans is that of the machine which called for the scan.
SafeWindow-to_scanning :
    (m : Machine) {w : StreamingTextWindow} {m' : Machine}
    → SafeWindow (to_scanning m) w m'
    → SafeWindow m w m'
unfolding to_scanning safe_emit_len eligible_emit_len
SafeWindow-to_scanning m h = record {
  whole = h.whole;
  retained = h.retained;
  cut = h.cut;
  look = h.look;
  numbered = h.numbered;
  not_final = h.not_final;
  valid = h.valid;
  open_after = h.open_after;
}

idle : Machine → Machine
idle m = record m { state = buffering }

idle-IsValid : (m : Machine) → IsValid m → IsValid (idle m)
unfolding idle
idle-IsValid m v = ground arith

emit_safe_run : (m : Machine) → Emittable m → emit_safe m ≡ emit_buffered m.buffered_chars m
unfolding emit_safe
emit_safe_run m st = ground arith

emit_buffered-zero : (m : Machine) → Emittable m → emit_buffered zero m ≡ (ok [], idle m)
unfolding emit_buffered idle
emit_buffered-zero m st = ground arith

emit_buffered-suc :
    (b : ℕ) (m : Machine)
    → Emittable m
    → emit_buffered (suc b) m ≡ emit_scanned (safe_emit_len (to_scanning m)) (to_scanning m)
unfolding emit_buffered to_scanning
emit_buffered-suc b m st = ground arith

emit_scanned-zero : (m : Machine) → emit_scanned zero (to_scanning m) ≡ (ok [], idle m)
unfolding emit_scanned to_scanning idle
emit_scanned-zero m = ground arith

safe_emit_len-to_scanning : (m : Machine) → safe_emit_len (to_scanning m) ≡ safe_emit_len m
unfolding safe_emit_len eligible_emit_len to_scanning
safe_emit_len-to_scanning m = refl

Emitted : Machine → Type 0
Emitted m =
    ((m' : Machine) × (emit_safe m ≡ (ok [], m'))
      × (safe_emit_len m ≡ 0)
      × IsValid m'
      × IsOpen m'.state
      × (m'.segments ≡ m.segments))
    ⊎ ((w : StreamingTextWindow) × (m' : Machine) × (emit_safe m ≡ (ok (w ∷ []), m'))
        × (0 < safe_emit_len m)
        × SafeWindow m w m')

emit_cases :
    (b n : ℕ) (m : Machine)
    → IsValid m
    → Emittable m
    → m.buffered_chars ≡ b
    → safe_emit_len m ≡ n
    → Emitted m
unfolding Emitted to_scanning idle
emit_cases zero n m v st eb en = inl (
  idle m,
  emit_safe_run m st ∙ ap (λ k. emit_buffered k m) eb ∙ emit_buffered-zero m st,
  omega (arith, safe_emit_len-le m),
  idle-IsValid m v,
  tt,
  refl,
)
emit_cases (suc b) zero m v st eb en = inl (
  idle m,
  emit_safe_run m st
      ∙ ap (λ k. emit_buffered k m) eb
      ∙ emit_buffered-suc b m st
      ∙ ap (λ k. emit_scanned k (to_scanning m)) (safe_emit_len-to_scanning m ∙ en)
      ∙ emit_scanned-zero m,
  en,
  idle-IsValid m v,
  tt,
  refl,
)
emit_cases (suc b) (suc n) m v st eb en =
    let len = safe_emit_len-to_scanning m ∙ en in
    let (w, m', run, safe) = emit_scanned_lem n (to_scanning m) refl v.counted v.fits (sym len) in
    inr (
      w,
      m',
      emit_safe_run m st
          ∙ ap (λ k. emit_buffered k m) eb
          ∙ emit_buffered-suc b m st
          ∙ ap (λ k. emit_scanned k (to_scanning m)) len
          ∙ run,
      omega arith,
      SafeWindow-to_scanning m safe,
    )

-- `emit_safe` of a valid machine that buffers returns: no window, with the text unchanged, where no
-- boundary is far enough back, and else one safe window.
pub emit_safe_lem :
    (m : Machine)
    → IsValid m
    → (m.state ≡ buffering) ⊎ (m.state ≡ ready_to_emit)
    → ((m' : Machine) × (emit_safe m ≡ (ok [], m'))
        × (safe_emit_len m ≡ 0)
        × IsValid m'
        × IsOpen m'.state
        × (m'.segments ≡ m.segments))
      ⊎ ((w : StreamingTextWindow) × (m' : Machine) × (emit_safe m ≡ (ok (w ∷ []), m'))
          × (0 < safe_emit_len m)
          × SafeWindow m w m')
unfolding Emitted
emit_safe_lem m v st = emit_cases m.buffered_chars (safe_emit_len m) m v st refl refl

-- A positive cut leaves the longer of look-behind and look-ahead in the buffer. The character before it is
-- a boundary, and none of those behind it, up to the limit, is.
pub safe_emit_len_lem :
    (m : Machine) {n : ℕ}
    → safe_emit_len m ≡ suc n
    → (suc n + max m.look_behind m.look_ahead ≤ m.buffered_chars)
      × (is_boundary (char_at (join m.segments) n) ≡ true)
      × ((j : ℕ)
          → suc n ≤ j
          → suc j + max m.look_behind m.look_ahead ≤ m.buffered_chars
          → is_boundary (char_at (join m.segments) j) ≡ false)
unfolding safe_emit_len eligible_emit_len
safe_emit_len_lem m {n} h = (
  omega (arith, safe_emit_len-le m, h),
  last_boundary-is_boundary (join m.segments) (eligible_emit_len m) h,
  λ j le room.
      last_boundary-greatest (join m.segments) (eligible_emit_len m) j (omega (arith, h))
        (omega (arith, room)),
)
