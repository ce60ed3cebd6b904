-- ===== src/Streaming/Buffer.antt =====
-- StreamingBuffer of apps/api/app/core/detection/streaming_buffer.py. The scan is a parameter: `none`
-- is an exception, a result is the sanitized text and the number of entities.
pub mod Scanned
mod Tests
use authclaw_mvp.Common.{
  ℕ, ◌+◌, ◌-◌, Bool, true, false, Option, none, some, List, [], ◌∷◌, ◌++◌, ltb, if◌then◌else◌, Text,
  length, take, drop,
}

abbrev pub ScanFn : Type 0
ScanFn = Text → Option (Text × ℕ)

-- What the consumer of `process` sees: the texts yielded, and whether StreamingScanError ended it.
pub record Outcome : Type 0 where
  pub yielded : List Text
  pub failed : Bool
  pub total_entities : ℕ

abbrev pub finished : Outcome
finished = record { yielded = []; failed = false; total_entities = 0 }

module _ (scan_fn : ScanFn) (shadow_mode : Bool) where
  -- `yield` of a portion that was scanned, before what comes after it.
  abbrev pub yield_scanned : Text → Option (Text × ℕ) → Outcome → Outcome
  yield_scanned portion none rest = record { yielded = []; failed = true; total_entities = 0 }
  yield_scanned portion (some (sanitized, count)) rest = record {
    yielded = (if shadow_mode then portion else sanitized) ∷ rest.yielded;
    failed = rest.failed;
    total_entities = count + rest.total_entities;
  }

  abbrev pub scan_portion : Text → Outcome → Outcome
  scan_portion portion rest = yield_scanned portion (scan_fn portion) rest

  -- The final buffer.
  pub flush_buffer : Text → Outcome
  flush_buffer [] = finished
  flush_buffer (c ∷ cs) = scan_portion (c ∷ cs) finished

  -- The loop over the chunks, with the buffer.
  pub process_loop : ℕ → Text → List Text → Outcome
  unfolding flush_buffer
  process_loop size buffer [] = flush_buffer buffer
  process_loop size buffer (chunk ∷ chunks) =
      let joined = buffer ++ chunk in
      let is_long = ltb size (length joined) in
      let safe_len = length joined - size in
      let rest = process_loop size (if is_long then drop safe_len joined else joined) chunks in
      if is_long then scan_portion (take safe_len joined) rest else rest

  -- `process`, for `buffer_size or settings.STREAMING_BUFFER_SIZE`.
  unfoldable pub process : ℕ → List Text → Outcome
  unfolding process_loop
  process size chunks = process_loop size [] chunks
