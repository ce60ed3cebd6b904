-- ===== src/Streaming/Gateway/Contents.antt =====
-- One content of an answer, and the events of a chunk, through the machine.
use authclaw_mvp.Common.{
  ℕ, suc, ◌+◌, ◌≡◌, refl, sym, ap, subst, ◌∙◌, inl, inr, Bool, true, false, Option, none, some,
  List, [], ◌∷◌, ◌++◌, append_assoc, append-nil, leb, length, Text, ok, err, arith, Bool-cases,
  ok-injective,
}
use authclaw_mvp.Common.Exec.{◌>>◌, pure, bind_ok}
use authclaw_mvp.Streaming.Sse.{ParsedSseEvent, SseParser}
use authclaw_mvp.Streaming.Redaction.{
  Machine, StreamingTextWindow, window_overflow, join, append, emit_safe,
}
use authclaw_mvp.Streaming.Redaction.Window.{IsValid, IsOpen, append_lem, append_overflow}
use authclaw_mvp.Streaming.Redaction.Stream.{prefixes, emit_split}
use authclaw_mvp.Streaming.Redaction.Unended.{append_unended, emit_safe_unended}
use authclaw_mvp.Streaming.Gateway.{
  answer, GatewayLibrary, Pipe, Pump, Delta, finished, content, unreadable, machine_fault,
  extract_openai_delta_data, take_content, take_delta, take_event, take_events,
}

-- A machine between two contents.
abbrev pub Ready : Machine → Type 0
Ready m = IsValid m × IsOpen m.state × (m.end_seen ≡ false)

-- The text that has been put out or is still held.
abbrev pub held : Pipe → Text
held p = p.full_response ++ join p.machine.segments

-- A step that leaves the pipe ready, adds a text and leaves the parser as `s`.
abbrev pub Took : Pipe → Text → SseParser → Pipe → Type 0
Took p text s p' = Ready p'.machine × (held p' ≡ held p ++ text) × (p'.sse ≡ s)

abbrev pub taken : Pipe → Machine → List StreamingTextWindow → Pipe
taken p m windows = record p {
  machine = m;
  full_response = p.full_response ++ prefixes windows;
  chunks_seen = suc p.chunks_seen;
}

take_content_run :
    (c : ℕ) (text : Text) (p : Pipe) (m1 m2 : Machine) (windows : List StreamingTextWindow)
    → append (c ∷ text) p.machine ≡ (ok tt, m1)
    → emit_safe m1 ≡ (ok windows, m2)
    → take_content (c ∷ text) p ≡ (ok tt, taken p m2 windows)
unfolding take_content
take_content_run c text p m1 m2 windows a e = ground (arith, a, e)

take_content_overflow :
    (c : ℕ) (text : Text) (p : Pipe)
    → (append (c ∷ text) p.machine).0 ≡ err window_overflow
    → (take_content (c ∷ text) p).0 ≡ err (machine_fault window_overflow)
unfolding take_content
take_content_overflow c text p a = ground (arith, a)

held_after :
    (full joined emitted rest text : Text)
    → emitted ++ rest ≡ joined ++ text
    → (full ++ emitted) ++ rest ≡ (full ++ joined) ++ text
held_after full joined emitted rest text h =
    append_assoc full emitted rest ∙ ap (λ t. full ++ t) h ∙ sym (append_assoc full joined text)

take_nothing : (p : Pipe) → take_content [] p ≡ (ok tt, p)
unfolding take_content
take_nothing p = refl

take_content_ok :
    (text : Text) (p : Pipe) {u : Unit {0}} {p' : Pipe}
    → Ready p.machine
    → take_content text p ≡ (ok u, p')
    → Took p text p.sse p'
take_content_ok [] p {p' = p'} ready h =
    subst (Took p [] p.sse) (ap (λ x. x.1) (sym (take_nothing p) ∙ h))
      (ready, sym (append-nil (held p)), refl)
take_content_ok (c ∷ text) p {p' = p'} ready h =
    elim (Bool-cases (leb (p.machine.buffered_chars + length (c ∷ text)) p.machine.max_window)) [
      | inl fits ↦
          (let (m1, a, valid, same, at, rest) =
              append_lem (c ∷ text) p.machine ready.0 ready.1 ready.2 (ground (arith, fits)) in
            let (windows, m2, e, valid2, open2, whole) = emit_split m1 valid at in
            let unended1 =
              ap (λ x. x.1.end_seen) (sym a) ∙ append_unended (c ∷ text) p.machine ready.2 in
            let unended2 = ap (λ x. x.1.end_seen) (sym e) ∙ emit_safe_unended m1 unended1 in
            let after : taken p m2 windows ≡ p' =
              ap (λ x. x.1) (sym (take_content_run c text p m1 m2 windows a e) ∙ h) in
            subst (Took p (c ∷ text) p.sse) after (
              (valid2, open2, unended2),
              held_after p.full_response (join p.machine.segments) (prefixes windows)
                  (join m2.segments) (c ∷ text) (whole ∙ same),
              refl,
            ))
      | inr over ↦ absurd (
          ground (
            arith,
            take_content_overflow c text p (
                append_overflow (c ∷ text) p.machine ready.0 ready.1 ready.2
                  (ground (arith, over))),
            h,
          ))
    ]

-- The text of the contents of the events in one chunk, and whether they hold the mark of the end.
abbrev pub text_of_delta : Delta → Text × Bool → Text × Bool
text_of_delta finished rest = ([], true)
text_of_delta unreadable rest = ([], true)
text_of_delta (content none) rest = rest
text_of_delta (content (some text)) rest = (text ++ rest.0, rest.1)

abbrev pub text_of_event : GatewayLibrary → Option Text → Text × Bool → Text × Bool
text_of_event lib none rest = rest
text_of_event lib (some text) rest =
    text_of_delta (extract_openai_delta_data lib (lib.strip text)) rest

abbrev pub text_of_events : GatewayLibrary → List ParsedSseEvent → Text × Bool
text_of_events lib [] = ([], false)
text_of_events lib (e ∷ events) = text_of_event lib e.data_text (text_of_events lib events)

-- `Took`, with the answer whether the stream is done.
abbrev pub TookTo : Pipe → Text × Bool → SseParser → Bool → Pipe → Type 0
TookTo p expected s done p' = Took p (expected.0) s p' × (done ≡ expected.1)

-- An action that takes a text whenever it returns.
abbrev Takes : Pump Bool → Text × Bool → Type 0
Takes m expected =
    (p : Pipe) (b : Bool) (p' : Pipe)
    → Ready p.machine
    → m p ≡ (ok b, p')
    → TookTo p expected p.sse b p'

pub pure-Takes : (b : Bool) → Takes (pure b) ([], b)
pure-Takes b p b' p' ready h =
    let same : p ≡ p' = ap (λ x. x.1) h in
    let answer : b ≡ b' = ok-injective (ap (λ x. x.0) h) in
    (subst (Took p [] p.sse) same (ready, sym (append-nil (held p)), refl), sym answer)

after_content :
    (text : Text) (rest : Pump Bool) (expected : Text × Bool)
    → Takes rest expected
    → Takes (take_content text >> rest) (text ++ expected.0, expected.1)
after_content text rest expected ih p b p' ready h =
    let (u, p1, first, second) = bind_ok (take_content text) (λ u. rest) p h in
    let (ready1, held1, sse1) = take_content_ok text p ready first in
    let ((ready2, held2, sse2), answer) = ih p1 b p' ready1 second in
    (
      (
        ready2,
        held2 ∙ ap (λ t. t ++ expected.0) held1 ∙ append_assoc (held p) text expected.0,
        sse2 ∙ sse1,
      ),
      answer,
    )

take_delta-Takes :
    (d : Delta) (rest : Pump Bool) (expected : Text × Bool)
    → Takes rest expected
    → Takes (take_delta d rest) (text_of_delta d expected)
unfolding take_delta
take_delta-Takes finished rest expected ih = pure-Takes true
take_delta-Takes unreadable rest expected ih = λ p b p' ready h. absurd (ground arith)
take_delta-Takes (content none) rest expected ih = ih
take_delta-Takes (content (some text)) rest expected ih = after_content text rest expected ih

take_event-Takes :
    (lib : GatewayLibrary) (data_text : Option Text) (rest : Pump Bool) (expected : Text × Bool)
    → Takes rest expected
    → Takes (take_event lib data_text rest) (text_of_event lib data_text expected)
unfolding take_event
take_event-Takes lib none rest expected ih = ih
take_event-Takes lib (some text) rest expected ih =
    take_delta-Takes (extract_openai_delta_data lib (lib.strip text)) rest expected ih

pub take_events-Takes :
    (lib : GatewayLibrary) (events : List ParsedSseEvent)
    → Takes (take_events lib events) (text_of_events lib events)
unfolding take_events
take_events-Takes lib [] = pure-Takes false
take_events-Takes lib (e ∷ events) =
    take_event-Takes lib e.data_text (take_events lib events) (text_of_events lib events)
      (take_events-Takes lib events)
