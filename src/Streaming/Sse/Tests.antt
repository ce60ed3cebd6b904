-- ===== src/Streaming/Sse/Tests.antt =====
-- Runs of sse_parser.py at concrete inputs.
use authclaw_mvp.Common.{
  ℕ, ◌+◌, ◌-◌, ◌*◌, ◌≤◌, ◌≡◌, ◌≢◌, refl, true, false, ◌&&◌, ◌||◌, Option, none, some, List, [], ◌∷◌,
  ◌++◌, leb, ◌==◌, ok, err, codes, Text,
}
use authclaw_mvp.Streaming.Sse.{
  Characters, ParserConfig, SseParser, ParsedSseEvent, Parse, initial, feed, find,
  next_newline_index, text_eq, strip_cr, parse_line, check_size, split_field, set_field,
  parse_field, take_line, count_partial, join_lines, parse_retry, has_pending_event, dispatch_event,
  event_too_large, malformed_field, int_value_error, out_of_fuel,
}
use authclaw_mvp.Streaming.Sse.Chunks.{recount}
use authclaw_mvp.Streaming.Sse.Split.{ends_cr}
use authclaw_mvp.Streaming.Sse.Feed.{
  IsReady, initial-IsReady, feed-IsReady, feed_error_resets, feed-append,
}

-- The ASCII characters, with one digit of another script, which `int` refuses as it does U+00B2.
abbrev decimal : ℕ → Text → Option ℕ
decimal n [] = some n
decimal n (x ∷ xs) =
    let rest = decimal (n * 10 + (x - 48)) xs in
    elim (leb 48 x && leb x 57) [ true ↦ rest | false ↦ none ]

abbrev ascii : Characters
ascii = record {
  is_space = λ c. c == 32 || (leb 9 c && leb c 13);
  is_digit = λ c. (leb 48 c && leb c 57) || c == 178;
  to_int = decimal 0;
}

abbrev config : ParserConfig
config = record { max_event_chars = 64; characters = ascii }

abbrev lf : Text
lf = b'\n' ∷ []

abbrev cr : Text
cr = b'\r' ∷ []

-- How many events a call returns.
abbrev count_events : Parse (List ParsedSseEvent) → Option ℕ
count_events (ok []) = some 0
count_events (ok (e ∷ [])) = some 1
count_events (ok (e ∷ f ∷ es)) = some 2
count_events (err e) = none

-- One event of two fields.
whole_event :
    count_events (feed config initial (codes "event: x" ++ lf ++ codes "data: a" ++ lf ++ lf)).0
    ≡ some 1
unfolding feed next_newline_index find parse_line check_size parse_field split_field set_field
    text_eq take_line strip_cr count_partial dispatch_event has_pending_event join_lines
whole_event = refl

-- The line feed that ends the chunk before it, CR LF, is read as a blank line.
crlf_whole :
    count_events
      (feed config initial
        (codes "data: a" ++ cr ++ lf ++ codes "data: b" ++ cr ++ lf ++ cr ++ lf)).0
    ≡ some 1
unfolding feed next_newline_index find parse_line check_size parse_field split_field set_field
    text_eq take_line strip_cr count_partial dispatch_event has_pending_event join_lines
crlf_whole = refl

crlf_apart :
    count_events
      (feed config
        (feed config initial (codes "data: a" ++ cr)).1
        (lf ++ codes "data: b" ++ cr ++ lf ++ cr ++ lf)).0
    ≡ some 2
unfolding feed next_newline_index find parse_line check_size parse_field split_field set_field
    text_eq take_line strip_cr count_partial dispatch_event has_pending_event join_lines
crlf_apart = refl

-- A line that comes in two chunks is counted once for its first chunk and once whole.
counted_whole :
    count_events (feed (record config { max_event_chars = 10 }) initial (codes "data: abc" ++ lf)).0
    ≡ some 0
unfolding feed next_newline_index find parse_line check_size parse_field split_field set_field
    text_eq take_line strip_cr count_partial dispatch_event has_pending_event join_lines
counted_whole = refl

counted_twice :
    (feed
      (record config { max_event_chars = 10 })
      (feed (record config { max_event_chars = 10 }) initial (codes "data: a")).1
      (codes "bc" ++ lf)).0
    ≡ err event_too_large
unfolding feed next_newline_index find parse_line check_size parse_field split_field set_field
    text_eq take_line strip_cr count_partial dispatch_event has_pending_event join_lines
counted_twice = refl

-- A digit that `int` does not take: the error is not of the parser's own.
retry_digit : (feed config initial (codes "retry: " ++ 178 ∷ [] ++ lf)).0 ≡ err int_value_error
unfolding feed next_newline_index find parse_line check_size parse_field split_field set_field
    text_eq take_line strip_cr count_partial dispatch_event has_pending_event join_lines parse_retry
retry_digit = refl

feed-IsReady_example : IsReady config (feed config initial (codes "data: a" ++ lf ++ codes "id")).1
feed-IsReady_example =
    feed-IsReady config initial (codes "data: a" ++ lf ++ codes "id") (initial-IsReady config)

feed_error_resets_example :
    ((feed config initial (codes " x" ++ lf)).1 ≡ initial) × (malformed_field ≢ out_of_fuel)
unfolding feed next_newline_index find parse_line check_size parse_field split_field take_line
    strip_cr
feed_error_resets_example = feed_error_resets config initial (codes " x" ++ lf) malformed_field refl

abbrev first_chunk : Text
first_chunk = codes "data: a" ++ lf ++ codes "da"

first_chunk_end : ends_cr first_chunk ≡ false
unfolding ends_cr
first_chunk_end = refl

abbrev second_chunk : Text
second_chunk = codes "ta: b" ++ lf ++ lf

abbrev after_first : SseParser
after_first = record initial {
  line_buffer = codes "da";
  line_buffer_counted_chars = 2;
  data_lines = codes "a" ∷ [];
  fields = record { name = codes "data"; value = codes "a" } ∷ [];
  event_chars = 9;
}

abbrev two_data_lines : ParsedSseEvent
two_data_lines = record {
  data_text = some (codes "a" ++ lf ++ codes "b");
  event = none;
  event_id = none;
  retry_ms = none;
  comment = none;
  fields =
      record { name = codes "data"; value = codes "a" }
      ∷ record { name = codes "data"; value = codes "b" }
      ∷ [];
  unknown_fields = [];
}

feed-append_example :
    (k : ℕ) × (feed config initial (first_chunk ++ second_chunk)
      ≡ (ok ([] ++ two_data_lines ∷ []), recount initial [] 0 k))
    × (k ≤ 0)
unfolding feed next_newline_index find parse_line check_size parse_field split_field set_field
    text_eq take_line strip_cr count_partial dispatch_event has_pending_event join_lines
feed-append_example =
    feed-append config initial first_chunk second_chunk {s1 = after_first} {s2 = initial} {ev1 = []}
      {ev2 = two_data_lines ∷ []} (initial-IsReady config) first_chunk_end refl refl
