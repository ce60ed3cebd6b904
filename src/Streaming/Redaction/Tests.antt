-- ===== src/Streaming/Redaction/Tests.antt =====
-- Runs of streaming_state_machine.py at concrete inputs.
use authclaw_mvp.Common.{
  ◌↔◌, length, ◌+◌, max, suc, ℕ, ◌≤◌, ◌<◌, ◌≡◌, refl, inr, ◌⊎◌, true, false, List, [], ◌∷◌, ◌++◌,
  arith, ok, err, codes,
}
use authclaw_mvp.Streaming.Redaction.{
  append_after_end_of_stream, Machine, StreamingTextWindow, ◌>>◌, initial, ready_to_emit, complete,
  new, join, append, emit_safe, flush, end_of_stream, process_text, safe_emit_len,
  illegal_state_transition, is_boundary, char_at,
}
use authclaw_mvp.Streaming.Redaction.Actions.{Failed, perform, perform-Failed, appending}
use authclaw_mvp.Streaming.Redaction.Window.{
  IsValid, IsOpen, SafeWindow, emit_safe_lem, safe_emit_len_lem,
}
use authclaw_mvp.Streaming.Redaction.Accepts.{append_returns}
use authclaw_mvp.Streaming.Redaction.Stream.{prefixes, process_text_lem, flush_drained}

abbrev machine : Machine
machine = record {
  look_behind = 2;
  look_ahead = 3;
  max_window = 12;
  segments = [];
  buffered_chars = 0;
  state = initial;
  sequence = 0;
  end_seen = false;
}

machine_ready : new 2 3 12 ≡ ok machine
unfolding new
machine_ready = refl

abbrev loaded : Machine
loaded = record machine {
  segments = codes "ab, c" ∷ codes "d e" ∷ [];
  buffered_chars = 8;
  state = ready_to_emit;
}

loaded-IsValid : IsValid loaded
unfolding join
loaded-IsValid = record { counted = refl; fits = omega arith; at_rest = omega arith }

machine-IsValid : IsValid machine
unfolding join
machine-IsValid = record { counted = refl; fits = omega arith; at_rest = refl }

loaded_cut : safe_emit_len loaded ≡ 4
unfolding safe_emit_len join is_boundary char_at
loaded_cut = refl

safe_emit_len_lem_example :
    (4 + max loaded.look_behind loaded.look_ahead ≤ loaded.buffered_chars)
    × (is_boundary (char_at (join loaded.segments) 3) ≡ true)
    × ((j : ℕ)
        → 4 ≤ j
        → suc j + max loaded.look_behind loaded.look_ahead ≤ loaded.buffered_chars
        → is_boundary (char_at (join loaded.segments) j) ≡ false)
safe_emit_len_lem_example = safe_emit_len_lem loaded loaded_cut

emit_safe_lem_example :
    ((m' : Machine) × (emit_safe loaded ≡ (ok [], m'))
      × (safe_emit_len loaded ≡ 0)
      × IsValid m'
      × IsOpen m'.state
      × (m'.segments ≡ loaded.segments))
    ⊎ ((w : StreamingTextWindow) × (m' : Machine) × (emit_safe loaded ≡ (ok (w ∷ []), m'))
        × (0 < safe_emit_len loaded)
        × SafeWindow loaded w m')
emit_safe_lem_example = emit_safe_lem loaded loaded-IsValid (inr refl)

process_text_lem_example :
    (ws : List StreamingTextWindow) × (m' : Machine) × (process_text (codes "one two") true machine
      ≡ (ws, ok tt, m'))
    × (prefixes ws ++ join m'.segments ≡ join machine.segments ++ codes "one two")
    × (true ≡ true → (join m'.segments ≡ []) × (m'.state ≡ complete))
process_text_lem_example =
    process_text_lem (codes "one two") true machine machine-IsValid tt refl (omega arith)

-- A machine with no look-behind and no look-ahead.
abbrev eager : Machine
eager = record machine { look_behind = 0; look_ahead = 0 }

abbrev drained : Machine
drained = record eager { sequence = 1; end_seen = true }

drained_reached : ((append (codes "a ") >> end_of_stream >> emit_safe) eager).1 ≡ drained
unfolding append end_of_stream emit_safe is_boundary char_at
drained_reached = refl

flush_drained_example : (flush drained).0 ≡ err illegal_state_transition
flush_drained_example = flush_drained drained refl refl

abbrev overdue : Machine
overdue = record machine { end_seen = true }

perform-Failed_example : Failed (perform (appending (codes "a")) overdue).1
unfolding append perform
perform-Failed_example =
    perform-Failed (appending (codes "a")) overdue append_after_end_of_stream
      (perform (appending (codes "a")) overdue).1 refl

append_returns_example : ((append (codes "more text") loaded).0 ≡ ok tt) ↔ (
    IsOpen loaded.state
    × (loaded.end_seen ≡ false)
    × (loaded.buffered_chars + length (codes "more text") ≤ loaded.max_window))
append_returns_example = append_returns (codes "more text") loaded loaded-IsValid
