-- ===== src/Streaming/Sse.antt =====
-- The incremental parser of server-sent events (apps/api/app/core/engine/sse_parser.py).
-- Text is a list of code points. What Python's `str` methods say of characters is a parameter.
mod Chunks
pub mod Feed
mod Loop
mod Split
mod Tests
use authclaw_mvp.Common.{
  ℕ, zero, suc, ◌+◌, ◌-◌, Bool, true, false, ◌&&◌, ◌||◌, not, Option, none, some, List, [], ◌∷◌,
  ◌++◌, min, ltb, ◌==◌, if◌then◌else◌, Result, ok, err, ◌>>=◌, length, take, drop, any, Text, codes,
}

-- `str.isspace` and `str.isdigit` of one character, and `int(text)`, which may raise ValueError.
pub record Characters : Type 0 where
  pub is_space : ℕ → Bool
  pub is_digit : ℕ → Bool
  pub to_int : Text → Option ℕ

pub record ParserConfig : Type 0 where
  pub max_event_chars : ℕ
  pub characters : Characters
  pub open characters use *

-- The reasons of SseParserError, the ValueError of `int`, and the model's own mark for a loop that
-- has used up its fuel.
pub data ParserError : Type 0 where
  malformed_field invalid_retry event_too_large truncated_final_event : ParserError
  int_value_error out_of_fuel : ParserError

pub record SseField : Type 0 where
  pub name : Text
  pub value : Text

pub record ParsedSseEvent : Type 0 where
  pub data_text : Option Text
  pub event : Option Text
  pub event_id : Option Text
  pub retry_ms : Option ℕ
  pub comment : Option Text
  pub fields : List SseField
  pub unknown_fields : List SseField

pub record SseParser : Type 0 where
  pub line_buffer : Text
  pub line_buffer_counted_chars : ℕ
  pub data_lines : List Text
  pub event : Option Text
  pub event_id : Option Text
  pub retry_ms : Option ℕ
  pub comment_lines : List Text
  pub fields : List SseField
  pub unknown_fields : List SseField
  pub event_chars : ℕ

-- The state of `__init__`, and of `reset`.
abbrev pub initial : SseParser
initial = record {
  line_buffer = [];
  line_buffer_counted_chars = 0;
  data_lines = [];
  event = none;
  event_id = none;
  retry_ms = none;
  comment_lines = [];
  fields = [];
  unknown_fields = [];
  event_chars = 0;
}

abbrev pub Parse : Type 0 → Type 0
Parse = Result ParserError

unfoldable pub text_eq : Text → Text → Bool
text_eq [] [] = true
text_eq (x ∷ xs) (y ∷ ys) = x == y && text_eq xs ys
text_eq _ _ = false

abbrev pub is_empty {ℓ} : {A : Type ℓ} → List A → Bool
is_empty [] = true
is_empty (x ∷ xs) = false

abbrev pub is_some {ℓ} : {A : Type ℓ} → Option A → Bool
is_some none = false
is_some (some a) = true

-- `str.find` of one character.
unfoldable pub find : ℕ → Text → Option ℕ
find c [] = none
find c (x ∷ xs) =
    let later = find c xs in
    if x == c then some 0 else elim later [ none ↦ none | some i ↦ some (suc i) ]

abbrev min_index : Option ℕ → Option ℕ → Option ℕ
min_index none j = j
min_index (some i) none = some i
min_index (some i) (some j) = some (min i j)

unfoldable pub next_newline_index : Text → Option ℕ
next_newline_index text = min_index (find b'\n' text) (find b'\r' text)

-- `2 if text[i:i + 2] == "\r\n" else 1`, on the text from the newline on.
abbrev pub newline_len : Text → ℕ
newline_len (x ∷ y ∷ r) = if x == b'\r' && y == b'\n' then 2 else 1
newline_len _ = 1

unfoldable pub strip_cr : Text → Text
strip_cr [] = []
strip_cr (x ∷ []) = if x == b'\r' then [] else x ∷ []
strip_cr (x ∷ y ∷ r) = x ∷ strip_cr (y ∷ r)

-- `value[1:] if value.startswith(" ") else value`
abbrev pub strip_space : Text → Text
strip_space [] = []
strip_space (x ∷ xs) = if x == b' ' then xs else x ∷ xs

-- `"\n".join(lines)`
unfoldable pub join_lines : List Text → Text
join_lines [] = []
join_lines (l ∷ []) = l
join_lines (l ∷ m ∷ ls) = l ++ (b'\n' ∷ join_lines (m ∷ ls))

unfoldable pub check_size : ParserConfig → SseParser → ℕ → Parse SseParser
check_size c s incoming =
    let total = s.event_chars + incoming in
    if ltb c.max_event_chars total
    then err event_too_large
    else ok (record s { event_chars = total })

-- `line.split(":", 1)`, and the whole line with an empty value where it has no colon.
abbrev cut_field : Text → Option ℕ → Text × Text
cut_field line none = (line, [])
cut_field line (some i) = (take i line, strip_space (drop (suc i) line))

unfoldable pub split_field : ParserConfig → Text → Parse (Text × Text)
split_field c line =
    if is_some (find 0 line)
    then err malformed_field
    else let (name, value) = cut_field line (find b':' line) in
      if is_empty name || any c.is_space name then err malformed_field else ok (name, value)

abbrev all_digits : (ℕ → Bool) → Text → Bool
all_digits p [] = true
all_digits p (x ∷ xs) = p x && all_digits p xs

abbrev or_value_error : Option ℕ → Parse ℕ
or_value_error none = err int_value_error
or_value_error (some n) = ok n

pub parse_retry : ParserConfig → Text → Parse ℕ
parse_retry c [] = err invalid_retry
parse_retry c (x ∷ xs) =
    if all_digits c.is_digit (x ∷ xs) then or_value_error (c.to_int (x ∷ xs)) else err invalid_retry

pub has_pending_event : SseParser → Bool
has_pending_event s =
    not (is_empty s.data_lines)
    || is_some s.event
    || is_some s.event_id
    || is_some s.retry_ms
    || not (is_empty s.comment_lines)
    || not (is_empty s.fields)
    || not (is_empty s.unknown_fields)

pub clear_event_state : SseParser → SseParser
clear_event_state s = record initial {
  line_buffer = s.line_buffer;
  line_buffer_counted_chars = s.line_buffer_counted_chars;
}

-- `"\n".join(lines) if lines else None`
abbrev join_or_none : List Text → Option Text
join_or_none [] = none
join_or_none (l ∷ ls) = some (join_lines (l ∷ ls))

abbrev pub event_of : SseParser → ParsedSseEvent
event_of s = record {
  data_text = join_or_none s.data_lines;
  event = s.event;
  event_id = s.event_id;
  retry_ms = s.retry_ms;
  comment = join_or_none s.comment_lines;
  fields = s.fields;
  unknown_fields = s.unknown_fields;
}

unfoldable pub dispatch_event : SseParser → SseParser × Option ParsedSseEvent
unfolding clear_event_state
dispatch_event s =
    if has_pending_event s then (clear_event_state s, some (event_of s)) else (s, none)

-- The chain of tests on the field's name; its item is already in `fields`.
unfoldable pub set_field : ParserConfig → SseParser → SseField → Parse SseParser
set_field c s item =
    if text_eq item.name (codes "data")
    then ok (record s { data_lines = s.data_lines ++ item.value ∷ [] })
    else if text_eq item.name (codes "event")
    then ok (record s { event = some item.value })
    else if text_eq item.name (codes "id")
    then ok (record s { event_id = some item.value })
    else if text_eq item.name (codes "retry")
    then (do n ← parse_retry c item.value; ok (record s { retry_ms = some n }))
    else ok (record s { unknown_fields = s.unknown_fields ++ item ∷ [] })

abbrev add_comment : SseParser → Text → SseParser
add_comment s value = record s {
  comment_lines = s.comment_lines ++ value ∷ [];
  fields = s.fields ++ record { name = codes "comment"; value = value } ∷ [];
}

unfoldable pub parse_field : ParserConfig → SseParser → Text → Parse SseParser
parse_field c s line = do
  (name, value) ← split_field c line
  let item : SseField = record { name = name; value = value }
  set_field c (record s { fields = s.fields ++ item ∷ [] }) item

unfoldable pub parse_line :
    ParserConfig → SseParser → Text → Parse (SseParser × Option ParsedSseEvent)
parse_line c s [] = ok (dispatch_event s)
parse_line c s (x ∷ rest) = do
  s' ← check_size c s (length (x ∷ rest))
  if x == b':'
      then ok (add_comment s' (strip_space rest), none)
      else do s'' ← parse_field c s' (x ∷ rest); ok (s'', none)

abbrev pub cons_some {ℓ} : {A : Type ℓ} → Option A → List A → List A
cons_some none l = l
cons_some (some a) l = a ∷ l

-- The end of the loop: what is left has no newline, and its new characters are counted.
unfoldable pub count_partial : ParserConfig → SseParser → Parse SseParser
count_partial c s =
    let uncounted = length s.line_buffer - s.line_buffer_counted_chars in
    if ltb 0 uncounted
    then (do
      s' ← check_size c s uncounted
      ok (record s' { line_buffer_counted_chars = length s.line_buffer }))
    else ok s

-- One round of the loop, at the newline `i`: the rest of the buffer stays, and the line is parsed.
unfoldable pub take_line : ParserConfig → SseParser → ℕ → Parse (SseParser × Option ParsedSseEvent)
take_line c s i =
    let raw_line = take i s.line_buffer in
    let tail = drop i s.line_buffer in
    let s' = record s {
      line_buffer = drop (newline_len tail) tail;
      line_buffer_counted_chars = 0;
    } in
    parse_line c s' (strip_cr raw_line)

-- `while True` of `feed`, with the events in order. A round takes at least one character.
pub feed_loop : ℕ → ParserConfig → SseParser → Parse (SseParser × List ParsedSseEvent)
feed_loop zero c s = err out_of_fuel
feed_loop (suc fuel) c s = elim (next_newline_index s.line_buffer) [
  | none ↦ do s' ← count_partial c s; ok (s', [])
  | some i ↦ do
    (s', event) ← take_line c s i
    (s'', events) ← feed_loop fuel c s'
    ok (s'', cons_some event events)
]

-- `except Exception: self.reset(); raise`
abbrev or_reset : Parse (SseParser × List ParsedSseEvent) → Parse (List ParsedSseEvent) × SseParser
or_reset (ok (s, events)) = (ok events, s)
or_reset (err e) = (err e, initial)

unfoldable pub feed : ParserConfig → SseParser → Text → Parse (List ParsedSseEvent) × SseParser
unfolding feed_loop
feed c s [] = (ok [], s)
feed c s (x ∷ text) =
    let buffer = s.line_buffer ++ (x ∷ text) in
    or_reset (feed_loop (suc (length buffer)) c (record s { line_buffer = buffer }))

unfoldable pub flush : SseParser → Parse (List ParsedSseEvent) × SseParser
unfolding has_pending_event
flush s =
    if not (is_empty s.line_buffer)
    then (err truncated_final_event, initial)
    else if has_pending_event s
    then (err truncated_final_event, initial)
    else (ok [], s)
