-- ===== src/Streaming/Redaction/Accepts.antt =====
-- Which texts `append` of streaming_state_machine.py takes.
use authclaw_mvp.Common.{
  ℕ, ◌+◌, ◌≤◌, ◌<◌, ◌≡◌, refl, subst, ap, ◌↔◌, false, arith, ◌⊎◌, inl, inr, ok, length, Text,
  Bool-cases, ltb,
}
use authclaw_mvp.Streaming.Redaction.{
  Machine, StreamingState, initial, buffering, ready_to_emit, emitting, append, admit,
  require_state, fail,
}
use authclaw_mvp.Streaming.Redaction.Window.{AtRest, IsValid, IsOpen, append_lem, append_overflow}

-- A machine in another state refuses every text.
needs_open :
    (st : StreamingState) (text : Text) (m : Machine)
    → m.state ≡ st
    → IsValid m
    → (append text m).0 ≡ ok tt
    → IsOpen st
unfolding append admit require_state fail
needs_open initial text m e v h = tt
needs_open buffering text m e v h = tt
needs_open ready_to_emit text m e v h = tt
needs_open emitting text m e v h = subst (λ s. AtRest s m.buffered_chars) e v.at_rest
needs_open _ text m e v h = absurd (ground arith)

needs_more :
    (text : Text) (m : Machine) → (append text m).0 ≡ ok tt → IsOpen m.state → m.end_seen ≡ false
unfolding append admit require_state fail
needs_more text m h o = elim (Bool-cases m.end_seen) [
  | inl ended ↦ absurd (ground arith)
  | inr more ↦ more
]

fits_or_not : (n k : ℕ) → (n ≤ k) ⊎ (k < n)
fits_or_not n k = elim (Bool-cases (ltb k n)) [
  | inl over ↦ inr (ground arith)
  | inr fits ↦ inl (ground arith)
]

needs_room :
    (text : Text) (m : Machine)
    → IsValid m
    → (append text m).0 ≡ ok tt
    → IsOpen m.state
    → m.end_seen ≡ false
    → m.buffered_chars + length text ≤ m.max_window
needs_room text m v h o more = elim (fits_or_not (m.buffered_chars + length text) m.max_window) [
  | inl fits ↦ fits
  | inr over ↦ (let raised = append_overflow text m v o more over in absurd (ground arith))
]

-- `append` of a valid machine returns exactly when the machine is open, has not seen the end of the
-- stream, and has room for the text beside what it holds; in every other case it raises.
pub append_returns :
    (text : Text) (m : Machine)
    → IsValid m
    → ((append text m).0 ≡ ok tt)
      ↔ (IsOpen m.state × (m.end_seen ≡ false) × (m.buffered_chars + length text ≤ m.max_window))
append_returns text m v = (
  λ h.
      (let o = needs_open m.state text m refl v h in
        let more = needs_more text m h o in (o, more, needs_room text m v h o more)),
  λ (o, more, room). (let r = append_lem text m v o more room in ap (λ x. x.0) r.1),
)
