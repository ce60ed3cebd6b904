-- ===== src/Streaming/Sse/Split.antt =====
-- Feeding a text in two chunks to the parser of sse_parser.py.
use authclaw_mvp.Common.{
  ℕ, zero, suc, ◌+◌, ◌-◌, ◌≤◌, ◌<◌, ◌≡◌, refl, sym, ap, subst, ◌∙◌, Bool, false, Option, none, some,
  List, [], ◌∷◌, ◌++◌, arith, ◌==◌, Option-cases, Result-cases, inl, inr, ok, length, take, drop,
  length-drop, length-append, Text,
}
use authclaw_mvp.Streaming.Sse.{
  ParserConfig, SseParser, ParsedSseEvent, Parse, find, next_newline_index, newline_len, check_size,
  count_partial, cons_some, feed_loop,
}
use authclaw_mvp.Streaming.Sse.Loop.{
  feed_loop_last, feed_loop_round_inv, feed_loop_round_ok, feed_loop-fuel_eq, next_newline_index-lt,
  find-lt, take_line-lt, take_line-buffer, take_line-bound,
}
use authclaw_mvp.Streaming.Sse.Chunks.{recount, after, take_line-recount, feed_loop-recount}

-- The text's last character is a carriage return.
unfoldable pub ends_cr : Text → Bool
ends_cr [] = false
ends_cr (x ∷ []) = x == b'\r'
ends_cr (x ∷ y ∷ r) = ends_cr (y ∷ r)

find-append_some : (c : ℕ) (xs ys : Text) {i : ℕ} → find c xs ≡ some i → find c (xs ++ ys) ≡ some i
unfolding find
find-append_some c [] ys h = cc
find-append_some c (x ∷ xs) ys {i} h = ground (arith, find-append_some c xs ys {i = i - 1})

find-append_none :
    (c : ℕ) (xs ys : Text) {j : ℕ} → find c xs ≡ none → find c (xs ++ ys) ≡ some j → length xs ≤ j
unfolding find
find-append_none c [] ys h g = omega arith
find-append_none c (x ∷ xs) ys {j} h g = ground (arith, find-append_none c xs ys {j = j - 1})

next_newline_index-append :
    (xs ys : Text) {i : ℕ} → next_newline_index xs ≡ some i → next_newline_index (xs ++ ys) ≡ some i
unfolding next_newline_index
next_newline_index-append xs ys {i} h = grind (
  arith,
  find-append_some b'\n' xs ys,
  find-append_none b'\n' xs ys,
  find-append_some b'\r' xs ys,
  find-append_none b'\r' xs ys,
  find-lt b'\n' xs,
  find-lt b'\r' xs,
)

take-append_le : (i : ℕ) (xs ys : Text) → i ≤ length xs → take i (xs ++ ys) ≡ take i xs
take-append_le zero xs ys h = refl
take-append_le (suc i) [] ys h = absurd (omega arith)
take-append_le (suc i) (x ∷ xs) ys h = rw (take-append_le i xs ys (omega arith))

drop-append_le : (i : ℕ) (xs ys : Text) → i ≤ length xs → drop i (xs ++ ys) ≡ drop i xs ++ ys
drop-append_le zero xs ys h = refl
drop-append_le (suc i) [] ys h = absurd (omega arith)
drop-append_le (suc i) (x ∷ xs) ys h = drop-append_le i xs ys (omega arith)

ends_cr-drop : (i : ℕ) (xs : Text) → ends_cr xs ≡ false → ends_cr (drop i xs) ≡ false
unfolding ends_cr
ends_cr-drop zero xs h = h
ends_cr-drop (suc i) [] h = refl
ends_cr-drop (suc zero) (x ∷ []) h = refl
ends_cr-drop (suc (suc i)) (x ∷ []) h = refl
ends_cr-drop (suc i) (x ∷ y ∷ xs) h = ends_cr-drop i (y ∷ xs) h

pub ends_cr-append : (xs : Text) (y : ℕ) (ys : Text) → ends_cr (xs ++ (y ∷ ys)) ≡ ends_cr (y ∷ ys)
unfolding ends_cr
ends_cr-append [] y ys = refl
ends_cr-append (x ∷ []) y ys = refl
ends_cr-append (x ∷ x' ∷ xs) y ys = ends_cr-append (x' ∷ xs) y ys

newline_len-append :
    (t ys : Text) → 0 < length t → ends_cr t ≡ false → newline_len (t ++ ys) ≡ newline_len t
unfolding ends_cr
newline_len-append [] ys pos h = absurd (omega arith)
newline_len-append (x ∷ []) [] pos h = refl
newline_len-append (x ∷ []) (y ∷ ys) pos h = ground arith
newline_len-append (x ∷ y ∷ r) ys pos h = refl

newline_len-le : (t : Text) → 0 < length t → newline_len t ≤ length t
newline_len-le [] h = absurd (omega arith)
newline_len-le (x ∷ []) h = omega arith
newline_len-le (x ∷ y ∷ r) h = ground arith

after-append :
    (i : ℕ) (xs ys : Text)
    → i < length xs
    → ends_cr xs ≡ false
    → after i (xs ++ ys) ≡ after i xs ++ ys
after-append i xs ys lt h =
    let t = drop i xs in
    let pos : 0 < length t = omega (arith, length-drop i xs) in
    let cut : drop i (xs ++ ys) ≡ t ++ ys = drop-append_le i xs ys (omega arith) in
    let same = newline_len-append t ys pos (ends_cr-drop i xs h) in
    rw cut (rw same (drop-append_le (newline_len t) t ys (newline_len-le t pos)))

cons_some-append :
    (e : Option ParsedSseEvent) (xs ys : List ParsedSseEvent)
    → cons_some e (xs ++ ys) ≡ cons_some e xs ++ ys
cons_some-append none xs ys = refl
cons_some-append (some e) xs ys = refl

-- What the last part of the loop does to a state.
pub record Counted (c : ParserConfig) (s s' : SseParser) : Type 0 where
  pub shape : s' ≡ recount s s.line_buffer s'.line_buffer_counted_chars s'.event_chars
  pub buffer : s'.line_buffer ≡ s.line_buffer
  pub grows : s.event_chars ≤ s'.event_chars
  pub diff :
      s.event_chars + s'.line_buffer_counted_chars ≤ s'.event_chars + s.line_buffer_counted_chars
  pub bound : s'.event_chars ≤ c.max_event_chars
  pub counted : s'.line_buffer_counted_chars ≡ length s'.line_buffer

pub count_partial-Counted :
    (c : ParserConfig) (s : SseParser) {s' : SseParser}
    → s.line_buffer_counted_chars ≤ length s.line_buffer
    → s.event_chars ≤ c.max_event_chars
    → count_partial c s ≡ ok s'
    → Counted c s s'
unfolding count_partial check_size
count_partial-Counted c s counted bound h = record {
  shape = ground arith;
  buffer = ground arith;
  grows = ground arith;
  diff = ground arith;
  bound = ground arith;
  counted = ground arith;
}

-- A state with more text at the end of its buffer.
abbrev pub with_text : SseParser → Text → SseParser
with_text s b = record s { line_buffer = s.line_buffer ++ b }

same_events :
    {r : Parse (SseParser × List ParsedSseEvent)} {s : SseParser} {xs ys : List ParsedSseEvent}
    → r ≡ ok (s, xs)
    → xs ≡ ys
    → r ≡ ok (s, ys)
same_events h e = cc

-- The first chunk leaves no newline: the second run goes on from its text.
feed_loop-split_last :
    (g h : ℕ) (c : ParserConfig) (s : SseParser) (b : Text) {s1 s2 : SseParser}
    {events : List ParsedSseEvent}
    → s.line_buffer_counted_chars ≤ length s.line_buffer
    → Counted c s s1
    → feed_loop g c (with_text s1 b) ≡ ok (s2, events)
    → length (s1.line_buffer ++ b) < g
    → length (s.line_buffer ++ b) < h
    → (k : ℕ) × (feed_loop h c (with_text s b)
        ≡ ok (recount s2 s2.line_buffer s2.line_buffer_counted_chars k, events))
      × (k ≤ s2.event_chars)
feed_loop-split_last g h c s b {s1 = s1} counted done two lg lh =
    let room : length (s1.line_buffer ++ b) < h = rw (done.buffer) lh in
    let size = length-append s1.line_buffer b in
    let same_len : length s1.line_buffer ≡ length s.line_buffer = ap length (done.buffer) in
    let (k, run, le) =
      feed_loop-recount h c (with_text s1 b) s.line_buffer_counted_chars s.event_chars done.grows
        done.bound done.diff (omega (arith, done.counted)) (omega arith)
        (feed_loop-fuel_eq h g c (with_text s1 b) room lg ∙ two) in
    let back : recount s1 (s1.line_buffer ++ b) s.line_buffer_counted_chars s.event_chars
        ≡ with_text s b =
      ap
        (λ (x : SseParser).
          recount x (x.line_buffer ++ b) s.line_buffer_counted_chars s.event_chars)
        done.shape in
    (k, ap (feed_loop h c) (sym back) ∙ run, le)

pub feed_loop-split :
    (f g h : ℕ) (c : ParserConfig) (s : SseParser) (b : Text) {s1 s2 : SseParser}
    {ev1 ev2 : List ParsedSseEvent}
    → s.line_buffer_counted_chars ≤ length s.line_buffer
    → s.event_chars ≤ c.max_event_chars
    → ends_cr s.line_buffer ≡ false
    → feed_loop f c s ≡ ok (s1, ev1)
    → feed_loop g c (with_text s1 b) ≡ ok (s2, ev2)
    → length (s1.line_buffer ++ b) < g
    → length (s.line_buffer ++ b) < h
    → (k : ℕ) × (feed_loop h c (with_text s b)
        ≡ ok (recount s2 s2.line_buffer s2.line_buffer_counted_chars k, ev1 ++ ev2))
      × (k ≤ s2.event_chars)
feed_loop-split zero g h c s b counted bound no_cr one two lg lh = unfold feed_loop in cc
feed_loop-split (suc f) g zero c s b counted bound no_cr one two lg lh = elim lh [ ]
feed_loop-split (suc f) g (suc h) c s b {s1 = s1} {s2 = s2} {ev1 = ev1} {ev2 = ev2} counted bound
      no_cr one two lg lh =
    elim (Option-cases (next_newline_index s.line_buffer)) [
      | inl e ↦ elim (Result-cases (count_partial c s)) [
        | inr (x, r) ↦ absurd (ground (arith, feed_loop_last f c s e, r))
        | inl (s1', r) ↦
            let same : s1' ≡ s1 = ground (arith, feed_loop_last f c s e, r) in
            let nil : ev1 ≡ [] = ground (arith, feed_loop_last f c s e, r) in
            rw nil (
              feed_loop-split_last g (suc h) c s b counted
                (rw (← same) (count_partial-Counted c s counted bound r)) two lg lh)
      ]
      | inr (i, e) ↦
          let (s0, event, later, taken, rest, split) = feed_loop_round_inv f c s e one in
          let lt = next_newline_index-lt s.line_buffer e in
          let (k, taken', le') =
            take_line-recount c s i (s.line_buffer ++ b) s.line_buffer_counted_chars s.event_chars
              (take-append_le i s.line_buffer b (omega arith)) (omega arith) taken in
          let (buffer, zeroed) = take_line-buffer c s i taken in
          let no_cr' : ends_cr s0.line_buffer ≡ false = rw buffer (
            ends_cr-drop (newline_len (drop i s.line_buffer)) (drop i s.line_buffer)
              (ends_cr-drop i s.line_buffer no_cr)) in
          let bound' = take_line-bound c s i bound taken in
          let shorter = take_line-lt c s i e taken in
          let size = length-append s.line_buffer b in
          let size' = length-append s0.line_buffer b in
          let (k0, run0, le0) =
            feed_loop-split f g h c s0 b (omega arith) bound' no_cr' rest two lg (omega arith) in
          let (k1, run1, le1) =
            feed_loop-recount h c (with_text s0 b) 0 k le' bound' (omega arith) (omega arith)
              (omega arith) run0 in
          let moved : s0.line_buffer ++ b ≡ after i (s.line_buffer ++ b) =
            ap (λ t. t ++ b) buffer ∙ sym (after-append i s.line_buffer b lt no_cr) in
          let run2 =
            subst
              (λ t.
                feed_loop h c (recount s0 t 0 k)
                ≡ ok (recount s2 s2.line_buffer s2.line_buffer_counted_chars k1, later ++ ev2))
              moved run1 in
          (
            k1,
            same_events
                (feed_loop_round_ok h c (with_text s b)
                  (next_newline_index-append s.line_buffer b e) taken' run2)
                (cons_some-append event later ev2 ∙ ap (λ l. l ++ ev2) (sym split)),
            omega arith,
          )
    ]
