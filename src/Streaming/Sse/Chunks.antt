-- ===== src/Streaming/Sse/Chunks.antt =====
-- How `feed` of sse_parser.py depends on where the text is cut into chunks.
use authclaw_mvp.Common.{
  ℕ, zero, suc, ◌+◌, ◌-◌, ◌≤◌, ◌≡◌, refl, Option, List, [], ◌∷◌, arith, if◌then◌else◌, Option-cases,
  Result-cases, inl, inr, ok, err, length, take, drop, Text,
}
use authclaw_mvp.Streaming.Sse.{
  ParserConfig, SseParser, SseField, ParsedSseEvent, Parse, next_newline_index, newline_len,
  strip_cr, check_size, set_field, parse_field, parse_line, dispatch_event, has_pending_event,
  count_partial, take_line, feed_loop,
}
use authclaw_mvp.Streaming.Sse.Loop.{
  feed_loop_last, feed_loop_round_inv, feed_loop_round_ok, take_line-buffer, take_line-bound,
}

-- A state with another buffer and other counts.
abbrev pub recount : SseParser → Text → ℕ → ℕ → SseParser
recount s buffer m n = record s {
  line_buffer = buffer;
  line_buffer_counted_chars = m;
  event_chars = n;
}

abbrev map_ok : {A B : Type 0} → (A → B) → Parse A → Parse B
map_ok f (ok a) = ok (f a)
map_ok f (err e) = err e

set_field-recount :
    (c : ParserConfig) (s : SseParser) (item : SseField) (b : Text) (m n : ℕ)
    → set_field c (recount s b m n) item ≡ map_ok (λ t. recount t b m n) (set_field c s item)
unfolding set_field
set_field-recount c s item b m n = ground arith

parse_field-recount :
    (c : ParserConfig) (s : SseParser) (line b : Text) (m n : ℕ)
    → parse_field c (recount s b m n) line ≡ map_ok (λ t. recount t b m n) (parse_field c s line)
unfolding parse_field
parse_field-recount c s line b m n = grind (arith, set_field-recount)

-- What a line makes of a count.
next_count : SseParser → Text → ℕ → ℕ
next_count s [] n = if has_pending_event s then 0 else n
next_count s (x ∷ line) n = n + length (x ∷ line)

has_pending-recount :
    (s : SseParser) (b : Text) (m n : ℕ) → has_pending_event (recount s b m n) ≡ has_pending_event s
unfolding has_pending_event
has_pending-recount s b m n = refl

parse_line-recount :
    (c : ParserConfig) (s : SseParser) (line b : Text) (m n : ℕ) {s' : SseParser}
    {e : Option ParsedSseEvent}
    → n ≤ s.event_chars
    → parse_line c s line ≡ ok (s', e)
    → (parse_line c (recount s b m n) line ≡ ok (recount s' b m (next_count s line n), e))
      × (next_count s line n ≤ s'.event_chars)
unfolding parse_line next_count check_size dispatch_event
parse_line-recount c s [] b m n {s' = s'} le h = ground (arith, has_pending-recount s b m n)
parse_line-recount c s (x ∷ line) b m n le h = ground (
  arith,
  parse_field-recount c s (x ∷ line) s.line_buffer s.line_buffer_counted_chars
      (s.event_chars + length (x ∷ line)),
  parse_field-recount c s (x ∷ line) b m (n + length (x ∷ line)),
)

-- The buffer after the newline at `i`.
abbrev pub after : ℕ → Text → Text
after i b = drop (newline_len (drop i b)) (drop i b)

pub take_line-recount :
    (c : ParserConfig) (s : SseParser) (i : ℕ) (b : Text) (m n : ℕ) {s' : SseParser}
    {e : Option ParsedSseEvent}
    → take i b ≡ take i s.line_buffer
    → n ≤ s.event_chars
    → take_line c s i ≡ ok (s', e)
    → (k : ℕ) × (take_line c (recount s b m n) i ≡ ok (recount s' (after i b) 0 k, e))
      × (k ≤ s'.event_chars)
unfolding take_line
take_line-recount c s i b m n same le h =
    let s0 = record s { line_buffer = after i s.line_buffer; line_buffer_counted_chars = 0 } in
    let line = strip_cr (take i s.line_buffer) in
    let both = parse_line-recount c s0 line (after i b) 0 n le h in
    (next_count s0 line n, rw same both.0, both.1)

count_partial-recount :
    (c : ParserConfig) (s : SseParser) (m n : ℕ) {s' : SseParser}
    → n + s.line_buffer_counted_chars ≤ s.event_chars + m
    → n ≤ s.event_chars
    → s.event_chars ≤ c.max_event_chars
    → s.line_buffer_counted_chars ≤ length s.line_buffer
    → m ≤ length s.line_buffer
    → count_partial c s ≡ ok s'
    → (count_partial c (recount s s.line_buffer m n)
        ≡ ok (
            recount s' s'.line_buffer s'.line_buffer_counted_chars
              (n + (length s.line_buffer - m))))
      × (n + (length s.line_buffer - m) ≤ s'.event_chars)
unfolding count_partial check_size
count_partial-recount c s m n diff le bound counted small h = ground arith

-- A run that has counted less so far gives the same events.
pub feed_loop-recount :
    (f : ℕ) (c : ParserConfig) (s : SseParser) (m n : ℕ) {s' : SseParser}
    {events : List ParsedSseEvent}
    → n ≤ s.event_chars
    → s.event_chars ≤ c.max_event_chars
    → n + s.line_buffer_counted_chars ≤ s.event_chars + m
    → s.line_buffer_counted_chars ≤ length s.line_buffer
    → m ≤ length s.line_buffer
    → feed_loop f c s ≡ ok (s', events)
    → (k : ℕ) × (feed_loop f c (recount s s.line_buffer m n)
        ≡ ok (recount s' s'.line_buffer s'.line_buffer_counted_chars k, events))
      × (k ≤ s'.event_chars)
feed_loop-recount zero c s m n le bound diff counted small h = unfold feed_loop in cc
feed_loop-recount (suc f) c s m n {s' = s'} le bound diff counted small h =
    elim (Option-cases (next_newline_index s.line_buffer)) [
      | inl e ↦ elim (Result-cases (count_partial c s)) [
        | inr (x, r) ↦ absurd (ground (arith, feed_loop_last f c s e, r))
        | inl (s1, r) ↦
            let fact = count_partial-recount c s m n diff le bound counted small r in
            let same : s1 ≡ s' = ground (arith, feed_loop_last f c s e, r) in
            (
              n + (length s.line_buffer - m),
              ground (
                arith,
                feed_loop_last f c s e,
                feed_loop_last f c (recount s s.line_buffer m n) e,
                r,
                fact.0,
              ),
              rw (← same) fact.1,
            )
      ]
      | inr (i, e) ↦
          let (s1, event, later, taken, rest, split) = feed_loop_round_inv f c s e h in
          let (k, taken', le') = take_line-recount c s i s.line_buffer m n refl le taken in
          let (buffer, zeroed) = take_line-buffer c s i taken in
          let (k', rest', le'') =
            feed_loop-recount f c s1 0 k le' (take_line-bound c s i bound taken) (omega arith)
              (omega arith) (omega arith) rest in
          (
            k',
            rw split (
                feed_loop_round_ok f c (recount s s.line_buffer m n) e taken' (rw buffer at rest')),
            le'',
          )
    ]
