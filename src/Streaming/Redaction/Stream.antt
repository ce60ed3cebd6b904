-- ===== src/Streaming/Redaction/Stream.antt =====
-- Whole streams through streaming_state_machine.py: the end of a stream, and `process_text`.
use authclaw_mvp.Common.{
  ℕ, zero, suc, ◌+◌, ◌≤◌, ◌≡◌, refl, sym, ap, ◌∙◌, ◌⊎◌, inl, inr, Bool, true, false, List, [], ◌∷◌,
  ◌++◌, append_assoc, append-nil, arith, ◌==◌, if◌then◌else◌, ok, err, length, length-append, Text,
}
use authclaw_mvp.Streaming.Redaction.{
  Machine, StreamingState, StreamingTextWindow, initial, buffering, ready_to_emit, flushing,
  complete, join, append, emit_safe, flush, flush_open, flush_buffered, final_window, end_of_stream,
  process_text, consume, illegal_state_transition,
}
use authclaw_mvp.Streaming.Redaction.Consume.{consume-Consumed}
use authclaw_mvp.Streaming.Redaction.Window.{IsValid, IsOpen, append_lem, emit_safe_lem}

-- The text that windows carry.
unfoldable pub prefixes : List StreamingTextWindow → Text
prefixes [] = []
prefixes (w ∷ ws) = w.safe_prefix ++ prefixes ws

unfoldable pub ended : Machine → Machine
ended m = record m {
  end_seen = true;
  state = if m.buffered_chars == 0 then complete else buffering;
}

pub end_of_stream_run :
    (st : StreamingState) (m : Machine)
    → m.state ≡ st
    → IsOpen st
    → IsValid m
    → end_of_stream m ≡ (ok tt, ended m)
unfolding end_of_stream ended
end_of_stream_run initial m e o v = ground arith
end_of_stream_run buffering m e o v = ground arith
end_of_stream_run ready_to_emit m e o v = ground arith
end_of_stream_run _ m e o v = absurd o

-- The machine that `flush` leaves.
flushed : Machine → Machine → Machine
flushed m m1 = record m1 { sequence = m1.sequence + 1; state = complete }

to_flushing : Machine → Machine
to_flushing m = record m { state = flushing }

flush_to_open : (m : Machine) → m.state ≡ buffering → flush m ≡ flush_open m
unfolding flush
flush_to_open m st = ground arith

flush_open_run :
    (m : Machine)
    → m.state ≡ buffering
    → m.end_seen ≡ true
    → flush_open m ≡ flush_buffered m.buffered_chars (to_flushing m)
unfolding flush_open to_flushing
flush_open_run m st es = ground arith

flush_buffered_run :
    (n : ℕ) (m : Machine) (out : Text) (m1 : Machine)
    → consume (suc n) m ≡ (ok out, m1)
    → m1.state ≡ flushing
    → flush_buffered (suc n) m ≡ (ok (final_window out (flushed m m1) ∷ []), flushed m m1)
unfolding flush_buffered flushed
flush_buffered_run n m out m1 run st1 = ground (arith, run)

flush_buffered-zero :
    (m : Machine)
    → m.state ≡ buffering
    → flush_buffered zero (to_flushing m) ≡ (ok [], record m { state = complete })
unfolding flush_buffered to_flushing
flush_buffered-zero m st = ground arith

-- What `flush` of all the text gives.
pub record Flushed (m : Machine) : Type 0 where
  pub windows : List StreamingTextWindow
  pub after : Machine
  pub run : flush m ≡ (ok windows, after)
  pub all_text : prefixes windows ≡ join m.segments
  pub done : after.state ≡ complete
  pub empty : join after.segments ≡ []

-- A text of length 0.
nil_of_length : (t : Text) → length t ≡ 0 → t ≡ []
nil_of_length [] h = refl
nil_of_length (x ∷ t) h = absurd (omega arith)

flush_cases :
    (n : ℕ) (m : Machine)
    → IsValid m
    → m.state ≡ buffering
    → m.end_seen ≡ true
    → m.buffered_chars ≡ n
    → Flushed m
unfolding prefixes to_flushing flushed
flush_cases zero m v st es b =
    let nil = nil_of_length (join m.segments) (sym v.counted ∙ b) in
    record {
      windows = [];
      after = record m { state = complete };
      run =
          flush_to_open m st
          ∙ flush_open_run m st es
          ∙ ap (λ k. flush_buffered k (to_flushing m)) b
          ∙ flush_buffered-zero m st;
      all_text = sym nil;
      done = refl;
      empty = nil;
    }
flush_cases (suc n) m v st es b =
    let (out, m1, c) = consume-Consumed (suc n) (to_flushing m) v.counted (omega arith) in
    let total = length-append out (join m1.segments) in
    let same = ap length c.whole in
    let taken = c.taken in
    let counted = v.counted in
    let nil = nil_of_length (join m1.segments) (omega arith) in
    record {
      windows = final_window out (flushed m m1) ∷ [];
      after = flushed m m1;
      run =
          flush_to_open m st
          ∙ flush_open_run m st es
          ∙ ap (λ k. flush_buffered k (to_flushing m)) b
          ∙ flush_buffered_run n (to_flushing m) out m1 c.run
              (ap (λ (t : Machine). t.state) c.rest);
      all_text = append-nil out ∙ sym (append-nil out) ∙ ap (λ t. out ++ t) (sym nil) ∙ c.whole;
      done = refl;
      empty = nil;
    }

flush_done : (m : Machine) → m.state ≡ complete → flush m ≡ (ok [], m)
unfolding flush
flush_done m st = ground arith

-- The end of a stream, and `flush`, put out all the text.
pub end_cases : (n : ℕ) (m : Machine) → IsValid m → m.buffered_chars ≡ n → Flushed (ended m)
unfolding ended prefixes
end_cases zero m v b =
    let nil = nil_of_length (join m.segments) (sym v.counted ∙ b) in
    record {
      windows = [];
      after = ended m;
      run = flush_done (ended m) (ground arith);
      all_text = sym nil;
      done = ground arith;
      empty = nil;
    }
end_cases (suc n) m v b =
    flush_cases (suc n) (ended m)
      (record { counted = v.counted; fits = v.fits; at_rest = ground arith }) (ground arith) refl b

pub prefixes-append :
    (xs ys : List StreamingTextWindow) → prefixes (xs ++ ys) ≡ prefixes xs ++ prefixes ys
unfolding prefixes
prefixes-append [] ys = refl
prefixes-append (x ∷ xs) ys =
    ap (λ t. x.safe_prefix ++ t) (prefixes-append xs ys)
    ∙ sym (append_assoc x.safe_prefix (prefixes xs) (prefixes ys))

-- `emit_safe` puts out a beginning of the text, and keeps the rest.
pub emit_split :
    (m : Machine)
    → IsValid m
    → (m.state ≡ buffering) ⊎ (m.state ≡ ready_to_emit)
    → (ws : List StreamingTextWindow) × (m' : Machine) × (emit_safe m ≡ (ok ws, m'))
      × IsValid m'
      × IsOpen m'.state
      × (prefixes ws ++ join m'.segments ≡ join m.segments)
unfolding prefixes
emit_split m v st = elim (emit_safe_lem m v st) [
  | inl (m', run, zero_len, v', o, same) ↦ ([], m', run, v', o, ap join same)
  | inr (w, m', run, pos, safe) ↦ (
    w ∷ [],
    m',
    run,
    safe.valid,
    safe.open_after,
    ap (λ t. t ++ join m'.segments) (append-nil w.safe_prefix)
        ∙ ap (λ t. w.safe_prefix ++ t) (sym safe.retained)
        ∙ safe.whole,
  )
]

process_text_run :
    (text : Text) (f : Bool) (m m1 m2 m3 : Machine) (ws last : List StreamingTextWindow)
    → append text m ≡ (ok tt, m1)
    → emit_safe m1 ≡ (ok ws, m2)
    → end_of_stream m2 ≡ (ok tt, ended m2)
    → flush (ended m2) ≡ (ok last, m3)
    → process_text text f m ≡ (if f then (ws ++ last, ok tt, m3) else (ws, ok tt, m2))
unfolding process_text
process_text_run text true m m1 m2 m3 ws last a e s fl = ground (arith, a, e, s, fl)
process_text_run text false m m1 m2 m3 ws last a e s fl = ground (arith, a, e, s, fl)

-- `process_text` of a text that fits returns, in a machine that takes text. The windows and what
-- stays in the buffer make up the old buffer and the text; at the end of the stream nothing stays,
-- and the machine is complete.
pub process_text_lem :
    (text : Text) (f : Bool) (m : Machine)
    → IsValid m
    → IsOpen m.state
    → m.end_seen ≡ false
    → m.buffered_chars + length text ≤ m.max_window
    → (ws : List StreamingTextWindow) × (m' : Machine) × (process_text text f m ≡ (ws, ok tt, m'))
      × (prefixes ws ++ join m'.segments ≡ join m.segments ++ text)
      × (f ≡ true → (join m'.segments ≡ []) × (m'.state ≡ complete))
unfolding ended emit_split
process_text_lem text false m v o n room =
    let (m1, added, v1, joined, st1, es1) = append_lem text m v o n room in
    let (ws, m2, out, v2, o2, split) = emit_split m1 v1 st1 in
    let fin = end_cases m2.buffered_chars m2 v2 refl in
    (
      ws,
      m2,
      process_text_run text false m m1 m2 fin.after ws fin.windows added out
          (end_of_stream_run m2.state m2 refl o2 v2) fin.run,
      split ∙ joined,
      λ h. absurd (ground arith),
    )
process_text_lem text true m v o n room =
    let (m1, added, v1, joined, st1, es1) = append_lem text m v o n room in
    let (ws, m2, out, v2, o2, split) = emit_split m1 v1 st1 in
    let fin = end_cases m2.buffered_chars m2 v2 refl in
    (
      ws ++ fin.windows,
      fin.after,
      process_text_run text true m m1 m2 fin.after ws fin.windows added out
          (end_of_stream_run m2.state m2 refl o2 v2) fin.run,
      ap (λ t. prefixes (ws ++ fin.windows) ++ t) fin.empty
          ∙ append-nil (prefixes (ws ++ fin.windows))
          ∙ prefixes-append ws fin.windows
          ∙ ap (λ t. prefixes ws ++ t) fin.all_text
          ∙ split
          ∙ joined,
      λ h. (fin.empty, fin.done),
    )

-- A machine in its initial state that has seen the end of the stream, as `emit_safe` leaves it when it
-- drains the buffer, cannot be flushed: `flush` raises `illegal_state_transition`.
pub flush_drained :
    (m : Machine)
    → m.state ≡ initial
    → m.end_seen ≡ true
    → (flush m).0 ≡ err illegal_state_transition
unfolding flush flush_open
flush_drained m st es = ground arith
