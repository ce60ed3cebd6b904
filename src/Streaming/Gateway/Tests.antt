-- ===== src/Streaming/Gateway/Tests.antt =====
-- A stream through the gateway at concrete chunks.
use authclaw_mvp.Common.{◌≡◌, refl, true, false, none, some, [], ◌∷◌, ◌++◌, codes, ok}
use authclaw_mvp.RateLimit.{free}
use authclaw_mvp.RateLimit.Redis.{Redis}
use authclaw_mvp.RateLimit.Limiter.{acquire_stream, release_stream}
use authclaw_mvp.Streaming.Redaction.Stream.{prefixes}
use authclaw_mvp.Streaming.Sse.{
  dispatch_event, join_lines, count_partial, text_eq, strip_cr, take_line, feed, flush as flush_sse,
  next_newline_index, find, parse_line, check_size, parse_field, split_field, set_field,
}
use authclaw_mvp.Streaming.Redaction.{
  append, emit_safe, flush, end_of_stream, new, join, is_boundary, char_at,
}
use authclaw_mvp.Streaming.Gateway.{
  GatewayLibrary, Upstream, sanitized, released, done_sse, stream_response,
}
use authclaw_mvp.Streaming.Gateway.Collected.{delta_text}
use authclaw_mvp.Streaming.Gateway.Released.{OnlyReleases, stream_response-scanned}

-- Every text is JSON and its own content; the scan masks the whole answer with a star.
abbrev masked : GatewayLibrary
masked = record {
  parser = record {
    max_event_chars = 1000;
    characters = record { is_space = λ c. false; is_digit = λ c. false; to_int = λ t. none };
  };
  strip = λ t. t;
  is_json = λ t. true;
  delta_content = λ t. ok (some t);
  security = λ t. sanitized (42 ∷ t) 1;
}

-- The answer "hi" and "you", cut within a line.
abbrev upstream : Upstream
upstream = record {
  status_code = 200;
  chunks = (codes "data: hi" ++ 10 ∷ 10 ∷ codes "dat") ∷ (codes "a: you" ++ 10 ∷ 10 ∷ []) ∷ [];
  interrupted = false;
  tail = some [];
}

abbrev empty : Redis
empty = record { counters = λ k. none; deadlines = λ k. none; now = 0; faults = [] }

yields :
    (stream_response masked free 1 2 20 upstream empty).0.0
    ≡ released (codes "*hiyou") 1 ∷ done_sse ∷ []
unfolding stream_response take_line feed flush_sse append emit_safe flush end_of_stream new join
    acquire_stream release_stream next_newline_index find parse_line check_size parse_field
    split_field set_field is_boundary char_at strip_cr text_eq dispatch_event count_partial
    join_lines prefixes
yields = refl

stream_response-scanned_example :
    OnlyReleases
      (λ text count. masked.security (delta_text masked upstream) ≡ sanitized text count)
      (stream_response masked free 1 2 20 upstream empty).0.0
stream_response-scanned_example = stream_response-scanned masked free 1 2 20 upstream empty
