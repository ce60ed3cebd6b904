-- ===== src/Streaming/Gateway/Collected.antt =====
-- What the generator collects of an answer.
use authclaw_mvp.Common.{
  ◌≡◌, refl, sym, ap, subst, ◌∙◌, Bool, true, false, Option, none, some, List, [], ◌∷◌, ◌++◌,
  append_assoc, if◌then◌else◌, Text, Result, ok, err, arith, ok-injective,
}
use authclaw_mvp.Common.Exec.{◌>>=◌, ◌>>◌, pure, gets, continue, bind_ok}
use authclaw_mvp.Streaming.Sse.{initial, feed, ParserError, ParsedSseEvent, SseParser}
use authclaw_mvp.Streaming.Redaction.{Machine, StreamingTextWindow, join, end_of_stream, flush}
use authclaw_mvp.Streaming.Redaction.Stream.{prefixes, ended, end_of_stream_run, end_cases}
use authclaw_mvp.Streaming.Gateway.{
  answer, GatewayLibrary, Upstream, Pipe, Pump, parser_fault, map_fault, run_machine,
  release_windows, normalize_legacy_sse_text, take_events, take_chunk, take_chunks, take_tail,
  flush_parser, collect,
}
use authclaw_mvp.Streaming.Gateway.Contents.{
  Ready, held, Took, text_of_events, TookTo, pure-Takes, take_events-Takes,
}

-- The text of the contents of one chunk, and the parser behind it.
abbrev pub text_of_parsed : GatewayLibrary → Result ParserError (List ParsedSseEvent) → Text × Bool
text_of_parsed lib (ok events) = text_of_events lib events
text_of_parsed lib (err e) = ([], true)

abbrev pub parse_chunk :
    GatewayLibrary → SseParser → Text → Result ParserError (List ParsedSseEvent) × SseParser
parse_chunk lib s text = feed lib.parser s (normalize_legacy_sse_text lib text)

-- The text of one chunk, before that of the chunks behind it.
abbrev pub joined : Bool → Text → SseParser → (Text × Bool) × SseParser → (Text × Bool) × SseParser
joined true first s1 more = ((first, true), s1)
joined false first s1 more = ((first ++ more.0.0, more.0.1), more.1)

abbrev pub text_of_chunks : GatewayLibrary → SseParser → List Text → (Text × Bool) × SseParser
text_of_chunks lib s [] = (([], false), s)
text_of_chunks lib s ([] ∷ chunks) = text_of_chunks lib s chunks
text_of_chunks lib s ((c ∷ text) ∷ chunks) =
    let (parsed, s1) = parse_chunk lib s (c ∷ text) in
    let (first, stops) = text_of_parsed lib parsed in
    joined stops first s1 (text_of_chunks lib s1 chunks)

abbrev pub text_of_tail : GatewayLibrary → SseParser → Option Text → Text
text_of_tail lib s none = []
text_of_tail lib s (some []) = []
text_of_tail lib s (some (c ∷ text)) = (text_of_parsed lib (parse_chunk lib s (c ∷ text)).0).0

-- The contents of the whole answer, joined, as the parser alone reads them.
unfoldable pub delta_text : GatewayLibrary → Upstream → Text
delta_text lib up =
    let ((text, ends), s) = text_of_chunks lib initial up.chunks in
    if ends then text else text ++ text_of_tail lib s up.tail

parsed_ok :
    (lib : GatewayLibrary) (r : Result ParserError (List ParsedSseEvent)) (s : SseParser) (p : Pipe)
    {b : Bool} {p' : Pipe}
    → Ready p.machine
    → continue (map_fault parser_fault r) (take_events lib) (record p { sse = s }) ≡ (ok b, p')
    → TookTo p (text_of_parsed lib r) s b p'
parsed_ok lib (ok events) s p {b} {p'} ready h =
    take_events-Takes lib events (record p { sse = s }) b p' ready h
parsed_ok lib (err e) s p ready h = absurd (ground arith)

take_chunk_ok :
    (lib : GatewayLibrary) (text : Text) (p : Pipe) {b : Bool} {p' : Pipe}
    → Ready p.machine
    → take_chunk lib text p ≡ (ok b, p')
    → TookTo p
        (text_of_parsed lib (parse_chunk lib p.sse text).0)
        (parse_chunk lib p.sse text).1
        b
        p'
unfolding take_chunk
take_chunk_ok lib text p ready h =
    parsed_ok lib (parse_chunk lib p.sse text).0 (parse_chunk lib p.sse text).1 p ready h

-- One chunk and what follows it.
chunks_step :
    (first : Text) (stops : Bool) (s1 : SseParser) (more : (Text × Bool) × SseParser)
    (rest : Pump Bool) (p p1 : Pipe) (d : Bool) {b : Bool} {p' : Pipe}
    → TookTo p (first, stops) s1 d p1
    → (if d then pure true else rest) p1 ≡ (ok b, p')
    → (rest p1 ≡ (ok b, p') → TookTo p1 more.0 more.1 b p')
    → TookTo p (joined stops first s1 more).0 (joined stops first s1 more).1 b p'
chunks_step first true s1 more rest p p1 d {b} {p'} ((ready, kept, sse), answer) h ih =
    let ran = ap (λ x. (if x then pure true else rest) p1) (sym answer) ∙ h in
    let same : p1 ≡ p' = ap (λ x. x.1) ran in
    (subst (Took p first s1) same (ready, kept, sse), sym (ok-injective (ap (λ x. x.0) ran)))
chunks_step first false s1 more rest p p1 d {b} {p'} ((ready, kept, sse), answer) h ih =
    let ran = ap (λ x. (if x then pure true else rest) p1) (sym answer) ∙ h in
    let ((ready2, kept2, sse2), answer2) = ih ran in
    (
      (ready2, kept2 ∙ ap (λ t. t ++ more.0.0) kept ∙ append_assoc (held p) first more.0.0, sse2),
      answer2,
    )

take_chunks_ok :
    (lib : GatewayLibrary) (chunks : List Text) (interrupted : Bool) (p : Pipe) {b : Bool}
    {p' : Pipe}
    → Ready p.machine
    → take_chunks lib chunks interrupted p ≡ (ok b, p')
    → TookTo p (text_of_chunks lib p.sse chunks).0 (text_of_chunks lib p.sse chunks).1 b p'
unfolding take_chunks
take_chunks_ok lib [] true p ready h = absurd (ground arith)
take_chunks_ok lib [] false p {b} {p'} ready h = pure-Takes false p b p' ready h
take_chunks_ok lib ([] ∷ chunks) interrupted p ready h =
    take_chunks_ok lib chunks interrupted p ready h
take_chunks_ok lib ((c ∷ text) ∷ chunks) interrupted p {b} {p'} ready h =
    let rest = take_chunks lib chunks interrupted in
    let parsed = parse_chunk lib p.sse (c ∷ text) in
    let (d, p1, first, second) =
      bind_ok (take_chunk lib (c ∷ text)) (λ d. if d then pure true else rest) p h in
    let took = take_chunk_ok lib (c ∷ text) p ready first in
    let expected = text_of_parsed lib parsed.0 in
    let ready1 = took.0.0 in
    let ih = λ (g : rest p1 ≡ (ok b, p')).
      subst (λ s. TookTo p1 (text_of_chunks lib s chunks).0 (text_of_chunks lib s chunks).1 b p')
        took.0.2 (take_chunks_ok lib chunks interrupted p1 ready1 g) in
    chunks_step expected.0 expected.1 parsed.1 (text_of_chunks lib parsed.1 chunks) rest p p1 d took
      second ih

abbrev closing : Pump Text
closing =
    run_machine end_of_stream
    >> (run_machine flush >>= λ windows. release_windows windows >> gets (λ p. p.full_response))

closing_run :
    (p : Pipe) (m1 m2 : Machine) (windows : List StreamingTextWindow)
    → end_of_stream p.machine ≡ (ok tt, m1)
    → flush m1 ≡ (ok windows, m2)
    → (closing p).0 ≡ ok (p.full_response ++ prefixes windows)
closing_run p m1 m2 windows e f = ground (arith, e, f)

-- The end of the stream puts out all that is held.
closing-held : (p : Pipe) → Ready p.machine → (closing p).0 ≡ ok (held p)
unfolding ended
closing-held p ready =
    let f = end_cases p.machine.buffered_chars p.machine ready.0 refl in
    closing_run p (ended p.machine) f.after f.windows
      (end_of_stream_run p.machine.state p.machine refl ready.1 ready.0) f.run
    ∙ ap (λ t. ok (p.full_response ++ t)) f.all_text

take_tail_ok :
    (lib : GatewayLibrary) (tail : Option Text) (p : Pipe) {b : Bool} {p' : Pipe}
    → Ready p.machine
    → take_tail lib tail p ≡ (ok b, p')
    → Ready p'.machine × (held p' ≡ held p ++ text_of_tail lib p.sse tail)
unfolding take_tail
take_tail_ok lib none p ready h = absurd (ground arith)
take_tail_ok lib (some []) p {b} {p'} ready h =
    let took = (pure-Takes false p b p' ready h).0 in (took.0, took.1)
take_tail_ok lib (some (c ∷ text)) p ready h =
    let took = (take_chunk_ok lib (c ∷ text) p ready h).0 in (took.0, took.1)

-- Behind the chunks: the rest of the decoder, unless the stream is done.
rest_ok :
    (lib : GatewayLibrary) (up : Upstream) (done : Bool) (p : Pipe) {b : Bool} {p' : Pipe}
    → Ready p.machine
    → (if done then pure true else take_tail lib up.tail) p ≡ (ok b, p')
    → Ready p'.machine
      × (held p' ≡ (if done then held p else held p ++ text_of_tail lib p.sse up.tail))
rest_ok lib up true p {b} {p'} ready h =
    subst (λ x. Ready x.machine × (held x ≡ held p)) (ap (λ x. x.1) h) (ready, refl)
rest_ok lib up false p ready h = take_tail_ok lib up.tail p ready h

flush_parser_ok :
    (b : Bool) (p : Pipe) {events : List ParsedSseEvent} {p' : Pipe}
    → flush_parser b p ≡ (ok events, p')
    → (p'.machine ≡ p.machine) × (p'.full_response ≡ p.full_response)
flush_parser_ok true p h = (ap (λ x. x.1.machine) (sym h), ap (λ x. x.1.full_response) (sym h))
flush_parser_ok false p h = (ap (λ x. x.1.machine) (sym h), ap (λ x. x.1.full_response) (sym h))

pick_held :
    (ends : Bool) (text tail : Text) (p : Pipe)
    → (held p ≡ text)
    → (if ends then held p else held p ++ tail) ≡ (if ends then text else text ++ tail)
pick_held ends text tail p h = ap (λ t. if ends then t else t ++ tail) h

-- What a run that returns has collected is the whole answer, whatever its chunks: the contents in
-- order, up to the mark of the end.
pub collect-delta_text :
    (lib : GatewayLibrary) (up : Upstream) (m : Machine) {raw : Text} {p' : Pipe}
    → Ready m
    → join m.segments ≡ []
    → collect lib up (record { sse = initial; machine = m; full_response = []; chunks_seen = 0 })
      ≡ (ok raw, p')
    → raw ≡ delta_text lib up
unfolding collect delta_text
collect-delta_text lib up m {raw} {p'} ready nothing h =
    let p : Pipe = record { sse = initial; machine = m; full_response = []; chunks_seen = 0 } in
    let whole = text_of_chunks lib initial up.chunks in
    let last = λ (d : Bool). flush_parser d >> closing in
    let (done, p1, first, h1) =
      bind_ok (take_chunks lib up.chunks up.interrupted)
        (λ d. (if d then pure true else take_tail lib up.tail) >>= last) p h in
    let ((ready1, held1, sse1), ends) = take_chunks_ok lib up.chunks up.interrupted p ready first in
    let (done2, p2, second, h2) =
      bind_ok (if done then pure true else take_tail lib up.tail) last p1 h1 in
    let (ready2, held2) = rest_ok lib up done p1 ready1 second in
    let (events, p3, third, h3) = bind_ok (flush_parser done2) (λ e. closing) p2 h2 in
    let (same_machine, same_text) = flush_parser_ok done2 p2 third in
    let ready3 = subst Ready (sym same_machine) ready2 in
    let answer : raw ≡ held p3 = ok-injective (sym (ap (λ x. x.0) h3) ∙ closing-held p3 ready3) in
    answer
    ∙ (λ i. same_text i ++ join (same_machine i).segments)
    ∙ held2
    ∙ (λ i. if ends i then held p1 else held p1 ++ text_of_tail lib (sse1 i) up.tail)
    ∙ pick_held whole.0.1 whole.0.0 (text_of_tail lib whole.1 up.tail) p1
        (held1 ∙ ap (λ t. t ++ whole.0.0) nothing)
