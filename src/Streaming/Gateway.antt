-- ===== src/Streaming/Gateway.antt =====
-- `stream_response` of StreamingEngine (apps/api/app/core/engine/streaming.py): the generator that
-- collects a model's answer, has it scanned, and releases it. The scan (`_apply_stream_security`) and
-- the JSON of a chunk are fields of `GatewayLibrary`; the chunks come decoded. The reader takes all that
-- the generator yields; of the audit events the hashes are the texts that are hashed.
mod Contents
pub mod Collected
pub mod Released
mod Tests
use authclaw_mvp.Common.{
  ℕ, suc, ◌+◌, ◌*◌, max, Bool, true, false, not, ◌||◌, Option, none, some, List, [], ◌∷◌, ◌++◌, ltb,
  leb, ◌==◌, if◌then◌else◌, drop, any, length, Text, codes, Result, ok, err,
}
use authclaw_mvp.Common.Exec.{Exec, ◌>>=◌, ◌>>◌, pure, raise, gets, modify}
use authclaw_mvp.Common.Texts.{same_text}
use authclaw_mvp.RateLimit.{TenantPlanLimits}
use authclaw_mvp.RateLimit.Redis.{Redis}
use authclaw_mvp.RateLimit.Limiter.{LimitDecision, acquire_stream, release_stream}
use authclaw_mvp.Streaming.Sse.{
  initial, feed, flush as flush_sse, ParserConfig, ParserError, ParsedSseEvent, SseParser, Parse,
}
use authclaw_mvp.Streaming.Redaction.Stream.{prefixes}
use authclaw_mvp.Streaming.Redaction.{
  new, append, emit_safe, end_of_stream, flush, Machine, StreamingTextWindow, InitError, Reason,
  Action,
}

-- What ends a stream early: an exception of the parser, of the machine, of the decoder or of the
-- provider, or of the reading of a chunk's JSON.
pub data StreamFault : Type 0 where
  parser_fault : ParserError → StreamFault
  machine_fault : Reason → StreamFault
  init_fault : InitError → StreamFault
  payload_fault upstream_fault : StreamFault

-- What `_apply_stream_security` does: a text and a number of entities, StreamingSecurityBlocked with its
-- reason, or another exception.
pub data Scan : Type 0 where
  sanitized : Text → ℕ → Scan
  blocked : Text → Scan
  scan_failed : Scan

pub record GatewayLibrary : Type 0 where
  pub parser : ParserConfig
  -- `s.strip()`
  pub strip : Text → Text
  -- `json.loads` accepts the text.
  pub is_json : Text → Bool
  -- `choices[0].delta.content` of the JSON text when it is a string; reading it may raise.
  pub delta_content : Text → Result (Unit {0}) (Option Text)
  pub security : Text → Scan

-- The answer of the provider: its status, the chunks in order, whether reading them raises after the
-- last one, and what `decoder.flush()` returns at the end, with none for an exception.
pub record Upstream : Type 0 where
  pub status_code : ℕ
  pub chunks : List Text
  pub interrupted : Bool
  pub tail : Option Text

-- The parser, the machine, the joined windows (`full_response_chunks`) and the number of contents.
pub record Pipe : Type 0 where
  pub sse : SseParser
  pub machine : Machine
  pub full_response : Text
  pub chunks_seen : ℕ

abbrev pub Pump : Type 0 → Type 0
Pump = Exec Pipe StreamFault

abbrev pub data_prefix : Text
data_prefix = codes "data: "

abbrev pub starts_with : Text → Text → Bool
starts_with [] t = true
starts_with (c ∷ cs) [] = false
starts_with (c ∷ cs) (x ∷ xs) = if c == x then starts_with cs xs else false

abbrev pub done_text : Text
done_text = codes "[DONE]"

abbrev pub two_newlines : Text
two_newlines = 10 ∷ 10 ∷ []

-- `_normalize_legacy_sse_text`
unfoldable pub normalize_legacy_sse_text : GatewayLibrary → Text → Text
normalize_legacy_sse_text lib text =
    let stripped = lib.strip text in
    let data_str = lib.strip (drop (length data_prefix) stripped) in
    if any (λ c. c == 10) text || not (starts_with data_prefix stripped)
    then text
    else if same_text data_str done_text || lib.is_json data_str
    then text ++ two_newlines
    else text

pub data Delta : Type 0 where
  finished : Delta
  content : Option Text → Delta
  unreadable : Delta

abbrev pub delta_of : Result (Unit {0}) (Option Text) → Delta
delta_of (ok c) = content c
delta_of (err e) = unreadable

-- `_extract_openai_delta_data`
unfoldable pub extract_openai_delta_data : GatewayLibrary → Text → Delta
extract_openai_delta_data lib data_str =
    if same_text data_str done_text
    then finished
    else if lib.is_json data_str
    then delta_of (lib.delta_content data_str)
    else content none

abbrev pub map_fault : {E A : Type 0} → (E → StreamFault) → Result E A → Result StreamFault A
map_fault f (ok a) = ok a
map_fault f (err e) = err (f e)

abbrev pub run_machine : {A : Type 0} → Action A → Pump A
run_machine a p = let (r, m) = a p.machine in (map_fault machine_fault r, record p { machine = m })

abbrev pub run_parser : {A : Type 0} → (SseParser → Parse A × SseParser) → Pump A
run_parser f p = let (r, s) = f p.sse in (map_fault parser_fault r, record p { sse = s })

abbrev pub release_windows : List StreamingTextWindow → Pump (Unit {0})
release_windows windows =
    modify (λ p. record p { full_response = p.full_response ++ prefixes windows })

-- What is done with a content: none and "" are passed over.
unfoldable pub take_content : Text → Pump (Unit {0})
take_content [] = pure tt
take_content (c ∷ text) = do
  modify (λ p. record p { chunks_seen = suc p.chunks_seen })
  run_machine (append (c ∷ text))
  windows ← run_machine emit_safe
  release_windows windows

-- What follows an event, for the rest of the loop.
unfoldable pub take_delta : Delta → Pump Bool → Pump Bool
unfolding take_content
take_delta finished rest = pure true
take_delta unreadable rest = raise payload_fault
take_delta (content none) rest = rest
take_delta (content (some text)) rest = take_content text >> rest

unfoldable pub take_event : GatewayLibrary → Option Text → Pump Bool → Pump Bool
unfolding take_delta extract_openai_delta_data
take_event lib none rest = rest
take_event lib (some text) rest = take_delta (extract_openai_delta_data lib (lib.strip text)) rest

-- The loop over the events of a chunk; it returns whether the mark of the end came.
unfoldable pub take_events : GatewayLibrary → List ParsedSseEvent → Pump Bool
unfolding take_event
take_events lib [] = pure false
take_events lib (e ∷ events) = take_event lib e.data_text (take_events lib events)

unfoldable pub take_chunk : GatewayLibrary → Text → Pump Bool
unfolding normalize_legacy_sse_text take_events
take_chunk lib text = do
  events ← run_parser (λ s. feed lib.parser s (normalize_legacy_sse_text lib text))
  take_events lib events

-- `async for` over the provider's chunks; an empty chunk is passed over.
unfoldable pub take_chunks : GatewayLibrary → List Text → Bool → Pump Bool
unfolding take_chunk
take_chunks lib [] interrupted = if interrupted then raise upstream_fault else pure false
take_chunks lib ([] ∷ chunks) interrupted = take_chunks lib chunks interrupted
take_chunks lib ((c ∷ text) ∷ chunks) interrupted = do
  done ← take_chunk lib (c ∷ text)
  if done then pure true else take_chunks lib chunks interrupted

-- What the decoder still holds.
unfoldable pub take_tail : GatewayLibrary → Option Text → Pump Bool
unfolding take_chunk
take_tail lib none = raise upstream_fault
take_tail lib (some []) = pure false
take_tail lib (some (c ∷ text)) = take_chunk lib (c ∷ text)

abbrev pub flush_parser : Bool → Pump (List ParsedSseEvent)
flush_parser true = pure []
flush_parser false = run_parser flush_sse

-- The generator up to the scan: it returns the joined windows.
unfoldable pub collect : GatewayLibrary → Upstream → Pump Text
unfolding take_chunks take_tail
collect lib up = do
  done ← take_chunks lib up.chunks up.interrupted
  done' ← if done then pure true else take_tail lib up.tail
  flush_parser done'
  run_machine end_of_stream
  windows ← run_machine flush
  release_windows windows
  gets (λ p. p.full_response)

-- What is yielded, and the audit events.
pub data Yield : Type 0 where
  upstream_error response_blocked security_error streaming_error rate_limited : Yield
  released : Text → ℕ → Yield
  done_sse : Yield

pub data AuditEvent : Type 0 where
  started : AuditEvent
  completed : Text → ℕ → AuditEvent
  provider_failed policy_blocked scan_error stream_error rate_limit : AuditEvent

abbrev pub Outcome : Type 0
Outcome = List Yield × List AuditEvent

-- The generator from the scan on, for the number of contents.
unfoldable pub release_scanned : Scan → ℕ → Outcome
release_scanned (blocked reason) seen =
    (response_blocked ∷ done_sse ∷ [], started ∷ policy_blocked ∷ [])
release_scanned scan_failed seen = (security_error ∷ done_sse ∷ [], started ∷ scan_error ∷ [])
release_scanned (sanitized [] count) seen = (done_sse ∷ [], started ∷ completed [] seen ∷ [])
release_scanned (sanitized (c ∷ text) count) seen =
    (released (c ∷ text) count ∷ done_sse ∷ [], started ∷ completed (c ∷ text) seen ∷ [])

unfoldable pub after_collect : GatewayLibrary → Result StreamFault Text × Pipe → Outcome
unfolding release_scanned
after_collect lib (ok raw, p) = release_scanned (lib.security raw) p.chunks_seen
after_collect lib (err e, p) = (streaming_error ∷ done_sse ∷ [], started ∷ stream_error ∷ [])

abbrev pub fresh : Machine → Pipe
fresh m = record { sse = initial; machine = m; full_response = []; chunks_seen = 0 }

unfoldable pub start_stream : GatewayLibrary → Upstream → Result InitError Machine → Outcome
unfolding collect after_collect
start_stream lib up (err e) = (streaming_error ∷ done_sse ∷ [], started ∷ stream_error ∷ [])
start_stream lib up (ok m) = after_collect lib (collect lib up (fresh m))

-- `StreamingRedactionStateMachine(max_window_chars=...)`, whose other sizes are its defaults.
unfoldable pub run_stream : GatewayLibrary → ℕ → Upstream → Outcome
unfolding start_stream
run_stream lib window_size up = start_stream lib up (new 64 64 (max window_size 20 * 1024))

unfoldable pub answer : GatewayLibrary → ℕ → Upstream → Outcome
unfolding run_stream
answer lib window_size up =
    if leb 400 up.status_code
    then (upstream_error ∷ done_sse ∷ [], provider_failed ∷ [])
    else run_stream lib window_size up

-- The generator with its `finally`, or the one for a refused request.
abbrev pub admitted : Bool → Outcome → ℕ → ℕ → Redis → Outcome × Redis
admitted true outcome tenant api_key redis = (outcome, release_stream tenant api_key redis)
admitted false outcome tenant api_key redis =
    ((rate_limited ∷ done_sse ∷ [], rate_limit ∷ []), redis)

-- `stream_response`, with the generator run to its end and its `finally`.
unfoldable pub stream_response :
    GatewayLibrary → TenantPlanLimits → ℕ → ℕ → ℕ → Upstream → Redis → Outcome × Redis
unfolding answer
stream_response lib limits tenant api_key window_size up redis =
    let (decision, taken) = acquire_stream limits tenant api_key redis in
    admitted decision.allowed (answer lib window_size up) tenant api_key taken
