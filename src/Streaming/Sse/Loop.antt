-- ===== src/Streaming/Sse/Loop.antt =====
-- The loop of `feed` in sse_parser.py: what a round does to the buffer, and that the fuel suffices.
use authclaw_mvp.Common.{
  ℕ, zero, suc, ◌-◌, ◌≤◌, ◌<◌, ◌≡◌, ◌≢◌, Option, none, some, List, [], ◌∷◌, arith, Option-cases,
  Result-cases, inl, inr, ok, err, ◌>>=◌, length, drop, length-drop, Text,
}
use authclaw_mvp.Streaming.Sse.{
  ParserConfig, SseParser, SseField, ParsedSseEvent, find, next_newline_index, newline_len,
  check_size, split_field, set_field, parse_field, parse_line, dispatch_event, count_partial,
  take_line, cons_some, feed_loop, out_of_fuel, parse_retry,
}

pub find-lt : (c : ℕ) (text : Text) {i : ℕ} → find c text ≡ some i → i < length text
unfolding find
find-lt c [] h = cc
find-lt c (x ∷ xs) {i} h = ground (arith, find-lt c xs {i = i - 1})

pub next_newline_index-lt :
    (text : Text) {i : ℕ} → next_newline_index text ≡ some i → i < length text
unfolding next_newline_index
next_newline_index-lt text {i} h =
    ground (arith, find-lt b'\n' text {i = i}, find-lt b'\r' text {i = i})

-- The fields of the pending event and its count, the buffer apart.
abbrev pub SameBuffer : SseParser → SseParser → Type 0
SameBuffer s s' =
    (s'.line_buffer ≡ s.line_buffer) × (s'.line_buffer_counted_chars ≡ s.line_buffer_counted_chars)

set_field-SameBuffer :
    (c : ParserConfig) (s : SseParser) (item : SseField) {s' : SseParser}
    → set_field c s item ≡ ok s'
    → SameBuffer s s'
unfolding set_field
set_field-SameBuffer c s item h = ground arith

parse_field-SameBuffer :
    (c : ParserConfig) (s : SseParser) (line : Text) {s' : SseParser}
    → parse_field c s line ≡ ok s'
    → SameBuffer s s'
unfolding parse_field
parse_field-SameBuffer c s line h = grind (arith, set_field-SameBuffer)

check_size-SameBuffer :
    (c : ParserConfig) (s : SseParser) (n : ℕ) {s' : SseParser}
    → check_size c s n ≡ ok s'
    → SameBuffer s s'
unfolding check_size
check_size-SameBuffer c s n h = ground arith

parse_line-SameBuffer :
    (c : ParserConfig) (s : SseParser) (line : Text) {s' : SseParser} {e : Option ParsedSseEvent}
    → parse_line c s line ≡ ok (s', e)
    → SameBuffer s s'
unfolding parse_line dispatch_event
parse_line-SameBuffer c s [] h = ground arith
parse_line-SameBuffer c s (x ∷ line) h =
    grind (arith, parse_field-SameBuffer, check_size-SameBuffer)

pub take_line-buffer :
    (c : ParserConfig) (s : SseParser) (i : ℕ) {s' : SseParser} {e : Option ParsedSseEvent}
    → take_line c s i ≡ ok (s', e)
    → (s'.line_buffer ≡ drop (newline_len (drop i s.line_buffer)) (drop i s.line_buffer))
      × (s'.line_buffer_counted_chars ≡ 0)
unfolding take_line
take_line-buffer c s i h = parse_line-SameBuffer c _ _ h

newline_len_pos : (t : Text) → 1 ≤ newline_len t
newline_len_pos [] = omega arith
newline_len_pos (x ∷ []) = omega arith
newline_len_pos (x ∷ y ∷ r) = ground arith

-- A round leaves a shorter buffer.
pub take_line-lt :
    (c : ParserConfig) (s : SseParser) (i : ℕ) {s' : SseParser} {e : Option ParsedSseEvent}
    → next_newline_index s.line_buffer ≡ some i
    → take_line c s i ≡ ok (s', e)
    → length s'.line_buffer < length s.line_buffer
take_line-lt c s i found h =
    let tail = drop i s.line_buffer in
    rw ((take_line-buffer c s i h).0) (
      omega (
        arith,
        next_newline_index-lt s.line_buffer found,
        newline_len_pos tail,
        length-drop (newline_len tail) tail,
        length-drop i s.line_buffer,
      ))

set_field-has_fuel :
    (c : ParserConfig) (s : SseParser) (item : SseField) → set_field c s item ≢ err out_of_fuel
unfolding set_field parse_retry
set_field-has_fuel c s item h = ground arith

parse_field-has_fuel :
    (c : ParserConfig) (s : SseParser) (line : Text) → parse_field c s line ≢ err out_of_fuel
unfolding parse_field split_field
parse_field-has_fuel c s line h = grind (arith, set_field-has_fuel)

parse_line-has_fuel :
    (c : ParserConfig) (s : SseParser) (line : Text) → parse_line c s line ≢ err out_of_fuel
unfolding parse_line check_size
parse_line-has_fuel c s [] h = cc
parse_line-has_fuel c s (x ∷ line) h = grind (arith, parse_field-has_fuel)

take_line-has_fuel : (c : ParserConfig) (s : SseParser) (i : ℕ) → take_line c s i ≢ err out_of_fuel
unfolding take_line
take_line-has_fuel c s i h = parse_line-has_fuel c _ _ h

count_partial-has_fuel : (c : ParserConfig) (s : SseParser) → count_partial c s ≢ err out_of_fuel
unfolding count_partial check_size
count_partial-has_fuel c s h = ground arith

pub feed_loop_last :
    (fuel : ℕ) (c : ParserConfig) (s : SseParser)
    → next_newline_index s.line_buffer ≡ none
    → feed_loop (suc fuel) c s ≡ (count_partial c s >>= λ s'. ok (s', []))
unfolding feed_loop
feed_loop_last fuel c s e = rw (e, feed_loop)

pub feed_loop_round :
    (fuel : ℕ) (c : ParserConfig) (s : SseParser) {i : ℕ}
    → next_newline_index s.line_buffer ≡ some i
    → feed_loop (suc fuel) c s
      ≡ (take_line c s i >>= λ r. feed_loop fuel c r.0 >>= λ q. ok (q.0, cons_some r.1 q.1))
unfolding feed_loop
feed_loop_round fuel c s e = rw (e, feed_loop)

-- A successful run that meets a newline is a round and a successful run of the rest.
pub feed_loop_round_inv :
    (fuel : ℕ) (c : ParserConfig) (s : SseParser) {i : ℕ} {s' : SseParser}
    {events : List ParsedSseEvent}
    → next_newline_index s.line_buffer ≡ some i
    → feed_loop (suc fuel) c s ≡ ok (s', events)
    → (s1 : SseParser) × (e : Option ParsedSseEvent) × (later : List ParsedSseEvent) × (take_line c
          s i
        ≡ ok (s1, e))
      × (feed_loop fuel c s1 ≡ ok (s', later))
      × (events ≡ cons_some e later)
feed_loop_round_inv fuel c s {i} found h = elim (Result-cases (take_line c s i)) [
  | inr (x, r) ↦ absurd (ground (arith, feed_loop_round fuel c s found, r))
  | inl ((s1, e), r) ↦ elim (Result-cases (feed_loop fuel c s1)) [
    | inr (x, q) ↦ absurd (ground (arith, feed_loop_round fuel c s found, r, q))
    | inl ((s2, later), q) ↦ (
      s1,
      e,
      later,
      r,
      ground (arith, feed_loop_round fuel c s found, r, q),
      ground (arith, feed_loop_round fuel c s found, r, q),
    )
  ]
]

pub feed_loop_round_ok :
    (fuel : ℕ) (c : ParserConfig) (s : SseParser) {i : ℕ} {s1 s' : SseParser}
    {e : Option ParsedSseEvent} {later : List ParsedSseEvent}
    → next_newline_index s.line_buffer ≡ some i
    → take_line c s i ≡ ok (s1, e)
    → feed_loop fuel c s1 ≡ ok (s', later)
    → feed_loop (suc fuel) c s ≡ ok (s', cons_some e later)
feed_loop_round_ok fuel c s found r q = ground (arith, feed_loop_round fuel c s found)

-- Fuel above the buffer's length suffices.
pub feed_loop-has_fuel :
    (fuel : ℕ) (c : ParserConfig) (s : SseParser)
    → length s.line_buffer < fuel
    → feed_loop fuel c s ≢ err out_of_fuel
feed_loop-has_fuel zero c s lt h = elim lt [ ]
feed_loop-has_fuel (suc fuel) c s lt h = elim (Option-cases (next_newline_index s.line_buffer)) [
  | inl e ↦ ground (arith, feed_loop_last fuel c s e, count_partial-has_fuel c s)
  | inr (i, e) ↦ elim (Result-cases (take_line c s i)) [
    | inl ((s', event), r) ↦
        ground (
          arith,
          feed_loop_round fuel c s e,
          r,
          feed_loop-has_fuel fuel c s',
          take_line-lt c s i e r,
        )
    | inr (x, r) ↦ ground (arith, feed_loop_round fuel c s e, r, take_line-has_fuel c s i)
  ]
]

-- Any two amounts of fuel above it give one result.
pub feed_loop-fuel_eq :
    (f g : ℕ) (c : ParserConfig) (s : SseParser)
    → length s.line_buffer < f
    → length s.line_buffer < g
    → feed_loop f c s ≡ feed_loop g c s
feed_loop-fuel_eq zero g c s lf lg = elim lf [ ]
feed_loop-fuel_eq (suc f) zero c s lf lg = elim lg [ ]
feed_loop-fuel_eq (suc f) (suc g) c s lf lg =
    elim (Option-cases (next_newline_index s.line_buffer)) [
      | inl e ↦ cc (feed_loop_last f c s e, feed_loop_last g c s e)
      | inr (i, e) ↦ elim (Result-cases (take_line c s i)) [
        | inl ((s', event), r) ↦ ground (
          arith,
          feed_loop_round f c s e,
          feed_loop_round g c s e,
          r,
          feed_loop-fuel_eq f g c s',
          take_line-lt c s i e r,
        )
        | inr (x, r) ↦ ground (arith, feed_loop_round f c s e, feed_loop_round g c s e, r)
      ]
    ]

parse_field-count :
    (c : ParserConfig) (s : SseParser) (line : Text) {s' : SseParser}
    → parse_field c s line ≡ ok s'
    → s'.event_chars ≡ s.event_chars
unfolding parse_field set_field
parse_field-count c s line h = ground arith

parse_line-bound :
    (c : ParserConfig) (s : SseParser) (line : Text) {s' : SseParser} {e : Option ParsedSseEvent}
    → s.event_chars ≤ c.max_event_chars
    → parse_line c s line ≡ ok (s', e)
    → s'.event_chars ≤ c.max_event_chars
unfolding parse_line check_size dispatch_event
parse_line-bound c s [] le h = ground arith
parse_line-bound c s (x ∷ line) le h = grind (arith, parse_field-count)

-- No round leaves a count above the limit.
pub take_line-bound :
    (c : ParserConfig) (s : SseParser) (i : ℕ) {s' : SseParser} {e : Option ParsedSseEvent}
    → s.event_chars ≤ c.max_event_chars
    → take_line c s i ≡ ok (s', e)
    → s'.event_chars ≤ c.max_event_chars
unfolding take_line
take_line-bound c s i le h = parse_line-bound c _ _ le h
