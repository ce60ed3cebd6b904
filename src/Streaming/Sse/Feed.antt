-- ===== src/Streaming/Sse/Feed.antt =====
-- What `feed` and `flush` of sse_parser.py promise.
use authclaw_mvp.Common.{
  ℕ, zero, suc, ◌≤◌, ◌≡◌, ◌≢◌, refl, ap, subst, ◌∙◌, false, none, List, [], ◌∷◌, ◌++◌, append-nil,
  arith, Option-cases, Result-cases, inl, inr, ok, err, length, length-append, append_assoc, Text,
}
use authclaw_mvp.Streaming.Sse.{
  ParserConfig, SseParser, ParsedSseEvent, initial, find, next_newline_index, count_partial,
  feed_loop, feed, ParserError, out_of_fuel,
}
use authclaw_mvp.Streaming.Sse.Loop.{
  feed_loop_last, feed_loop_round_inv, feed_loop-has_fuel, take_line-buffer, take_line-bound,
}
use authclaw_mvp.Streaming.Sse.Chunks.{recount}
use authclaw_mvp.Streaming.Sse.Split.{
  ends_cr, ends_cr-append, feed_loop-split, count_partial-Counted, with_text,
}

-- What holds of a parser between two calls: no complete line is left in the buffer, all of it has
-- been counted, and the count is within the limit.
pub record IsReady (c : ParserConfig) (s : SseParser) : Type 0 where
  pub no_line : next_newline_index s.line_buffer ≡ none
  pub counted : s.line_buffer_counted_chars ≡ length s.line_buffer
  pub within : s.event_chars ≤ c.max_event_chars

pub initial-IsReady : (c : ParserConfig) → IsReady c initial
unfolding next_newline_index find
initial-IsReady c = record { no_line = refl; counted = refl; within = omega arith }

feed_loop-IsReady :
    (f : ℕ) (c : ParserConfig) (s : SseParser) {s' : SseParser} {events : List ParsedSseEvent}
    → s.line_buffer_counted_chars ≤ length s.line_buffer
    → s.event_chars ≤ c.max_event_chars
    → feed_loop f c s ≡ ok (s', events)
    → IsReady c s'
feed_loop-IsReady zero c s counted bound h = unfold feed_loop in cc
feed_loop-IsReady (suc f) c s {s' = s'} counted bound h =
    elim (Option-cases (next_newline_index s.line_buffer)) [
      | inl e ↦ elim (Result-cases (count_partial c s)) [
        | inr (x, r) ↦ absurd (ground (arith, feed_loop_last f c s e, r))
        | inl (s1, r) ↦
            let same : s1 ≡ s' = ground (arith, feed_loop_last f c s e, r) in
            let done = count_partial-Counted c s counted bound r in
            subst (IsReady c) same
              (record { no_line = rw (done.buffer) e; counted = done.counted; within = done.bound })
      ]
      | inr (i, e) ↦
          let (s0, event, later, taken, rest, split) = feed_loop_round_inv f c s e h in
          let (buffer, zeroed) = take_line-buffer c s i taken in
          feed_loop-IsReady f c s0 (omega arith) (take_line-bound c s i bound taken) rest
    ]

feed_ok_inv :
    (c : ParserConfig) (s : SseParser) (x : ℕ) (text : Text) {s' : SseParser}
    {events : List ParsedSseEvent}
    → feed c s (x ∷ text) ≡ (ok events, s')
    → feed_loop (suc (length (s.line_buffer ++ (x ∷ text)))) c (with_text s (x ∷ text))
      ≡ ok (s', events)
unfolding feed
feed_ok_inv c s x text h =
    elim (Result-cases
      (feed_loop (suc (length (s.line_buffer ++ (x ∷ text)))) c (with_text s (x ∷ text)))) [
        | inl ((s1, ev), r) ↦ ground (arith, r)
        | inr (e, r) ↦ absurd (ground (arith, r))
      ]

feed_ok_intro :
    (c : ParserConfig) (s : SseParser) (x : ℕ) (text : Text) {s' : SseParser}
    {events : List ParsedSseEvent}
    → feed_loop (suc (length (s.line_buffer ++ (x ∷ text)))) c (with_text s (x ∷ text))
      ≡ ok (s', events)
    → feed c s (x ∷ text) ≡ (ok events, s')
unfolding feed
feed_ok_intro c s x text h = ground (arith, h)

feed_err_intro :
    (c : ParserConfig) (s : SseParser) (x : ℕ) (text : Text) {e : ParserError}
    → feed_loop (suc (length (s.line_buffer ++ (x ∷ text)))) c (with_text s (x ∷ text)) ≡ err e
    → feed c s (x ∷ text) ≡ (err e, initial)
unfolding feed
feed_err_intro c s x text h = ground (arith, h)

-- Whatever the text, and whether `feed` returns or raises, a ready parser stays ready.
pub feed-IsReady :
    (c : ParserConfig) (s : SseParser) (text : Text) → IsReady c s → IsReady c (feed c s text).1
feed-IsReady c s [] r = unfold feed in r
feed-IsReady c s (x ∷ text) r =
    elim (Result-cases
      (feed_loop (suc (length (s.line_buffer ++ (x ∷ text)))) c (with_text s (x ∷ text)))) [
        | inl ((s1, ev), q) ↦ rw (feed_ok_intro c s x text q) (
            feed_loop-IsReady _ c (with_text s (x ∷ text))
              (omega (arith, r.counted, length-append s.line_buffer (x ∷ text))) r.within q)
        | inr (e, q) ↦ rw (feed_err_intro c s x text q) (initial-IsReady c)
      ]

-- A call that raises leaves the parser as `reset` does, and the loop has not run out of its fuel.
pub feed_error_resets :
    (c : ParserConfig) (s : SseParser) (text : Text) (e : ParserError)
    → (feed c s text).0 ≡ err e
    → ((feed c s text).1 ≡ initial) × (e ≢ out_of_fuel)
feed_error_resets c s [] e h = absurd (unfold feed in cc)
feed_error_resets c s (x ∷ text) e h =
    elim (Result-cases
      (feed_loop (suc (length (s.line_buffer ++ (x ∷ text)))) c (with_text s (x ∷ text)))) [
        | inl ((s1, ev), q) ↦ absurd (ground (arith, feed_ok_intro c s x text q))
        | inr (e', q) ↦ (
          ground (arith, feed_err_intro c s x text q),
          λ out.
              feed_loop-has_fuel (suc (length (s.line_buffer ++ (x ∷ text)))) c
                (with_text s (x ∷ text)) (omega arith)
                (ground (arith, feed_err_intro c s x text q, q)),
        )
      ]

feed_nil : (c : ParserConfig) (s : SseParser) → feed c s [] ≡ (ok [], s)
unfolding feed
feed_nil c s = refl

-- Cutting a text in two, not after a carriage return, changes no event of a ready parser: if both parts
-- are accepted,
-- so is the whole, with the same events in order, and the parsers differ at most in the count of
-- characters, which is not larger for the whole.
pub feed-append :
    (c : ParserConfig) (s : SseParser) (a b : Text) {s1 s2 : SseParser}
    {ev1 ev2 : List ParsedSseEvent}
    → IsReady c s
    → ends_cr a ≡ false
    → feed c s a ≡ (ok ev1, s1)
    → feed c s1 b ≡ (ok ev2, s2)
    → (k : ℕ) × (feed c s (a ++ b)
        ≡ (ok (ev1 ++ ev2), recount s2 s2.line_buffer s2.line_buffer_counted_chars k))
      × (k ≤ s2.event_chars)
feed-append c s [] b {s1 = s1} {s2 = s2} {ev1 = ev1} {ev2 = ev2} ready no_cr one two =
    let same : s ≡ s1 = cc (feed_nil c s) in
    let nil : ev1 ≡ [] = cc (feed_nil c s) in (s2.event_chars, rw nil (rw same two), omega arith)
feed-append c s (x ∷ a) [] {s1 = s1} {s2 = s2} {ev1 = ev1} {ev2 = ev2} ready no_cr one two =
    let same : s1 ≡ s2 = cc (feed_nil c s1) in
    let nil : ev2 ≡ [] = cc (feed_nil c s1) in
    (
      s2.event_chars,
      rw (nil, append-nil (x ∷ a), append-nil ev1) (one ∙ ap (λ t. (ok ev1, t)) same),
      omega arith,
    )
feed-append c s (x ∷ a) (y ∷ b) {s1 = s1} {s2 = s2} {ev1 = ev1} {ev2 = ev2} ready no_cr one two =
    let run1 = feed_ok_inv c s x a one in
    let run2 = feed_ok_inv c s1 y b two in
    let buffer = s.line_buffer ++ (x ∷ a) in
    let assoc : (s.line_buffer ++ (x ∷ a)) ++ (y ∷ b) ≡ s.line_buffer ++ ((x ∷ a) ++ (y ∷ b)) =
      append_assoc s.line_buffer (x ∷ a) (y ∷ b) in
    let (k, run, le) =
      feed_loop-split _ _ (suc (length (s.line_buffer ++ ((x ∷ a) ++ (y ∷ b))))) c
        (with_text s (x ∷ a)) (y ∷ b)
        (omega (arith, ready.counted, length-append s.line_buffer (x ∷ a))) ready.within
        (ends_cr-append s.line_buffer x a ∙ no_cr) run1 run2 (omega arith)
        (rw assoc (omega arith)) in
    (
      k,
      feed_ok_intro c s x (a ++ (y ∷ b)) (
          subst
            (λ t.
              feed_loop (suc (length (s.line_buffer ++ ((x ∷ a) ++ (y ∷ b))))) c
                (record s { line_buffer = t })
              ≡ ok (recount s2 s2.line_buffer s2.line_buffer_counted_chars k, ev1 ++ ev2))
            assoc run),
      le,
    )
