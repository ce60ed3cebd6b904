-- ===== src/Streaming/Redaction/Consume.antt =====
-- `_consume` and `_safe_emit_len` of streaming_state_machine.py.
use authclaw_mvp.Common.{
  ℕ, zero, suc, ◌+◌, ◌-◌, ◌≤◌, ◌<◌, ◌≡◌, refl, sym, ap, ◌∙◌, true, false, List, [], ◌∷◌, ◌++◌,
  append_assoc, append-nil, arith, Bool-cases, inl, inr, leb, leb→le, dec_lt, ok, length, take,
  drop, length-append, length-take, take-append-drop, Text,
}
use authclaw_mvp.Streaming.Redaction.{
  Machine, join, consume_loop, consume, char_at, is_boundary, last_boundary,
}

pub join-append : (ss : List Text) (t : Text) → join (ss ++ t ∷ []) ≡ join ss ++ t
unfolding join
join-append [] t = append-nil t
join-append (s ∷ ss) t = rw (join-append ss t) (sym (append_assoc s (join ss) t))

-- What the loop puts out and leaves make up the text, and what it puts out has the length asked for.
record Split (n : ℕ) (ss : List Text) (r : Text × List Text × ℕ) : Type 0 where
  whole : r.0 ++ join r.1 ≡ join ss
  taken : length r.0 + r.2 ≡ n
  full : n ≤ length (join ss) → r.2 ≡ 0

consume_loop-Split : (n : ℕ) (ss : List Text) → Split n ss (consume_loop n ss)
unfolding consume_loop join
consume_loop-Split n [] = record { whole = refl; taken = omega arith; full = λ h. omega arith }
consume_loop-Split zero (s ∷ ss) = record { whole = refl; taken = omega arith; full = λ h. refl }
consume_loop-Split (suc n) (s ∷ ss) = elim (Bool-cases (leb (length s) (suc n))) [
  | inl fits ↦
      let ih = consume_loop-Split (suc n - length s) ss in
      let rest = consume_loop (suc n - length s) ss in
      let le = leb→le (length s) (suc n) fits in
      rw fits (record {
        whole = append_assoc s rest.0 (join rest.1) ∙ ap (λ t. s ++ t) ih.whole;
        taken = omega (arith, ih.taken, length-append s rest.0);
        full = λ h. ih.full (omega (arith, length-append s (join ss)));
      })
  | inr long ↦
      let lt : suc n < length s = ground arith in
      rw long (record {
        whole =
            sym (append_assoc (take (suc n) s) (drop (suc n) s) (join ss))
            ∙ ap (λ t. t ++ join ss) (take-append-drop (suc n) s);
        taken = omega (arith, length-take (suc n) s);
        full = λ h. refl;
      })
]

-- `_consume` of what is there succeeds, and cuts the buffered text at the count.
pub record Consumed (count : ℕ) (m : Machine) (out : Text) (m' : Machine) : Type 0 where
  pub run : consume count m ≡ (ok out, m')
  pub whole : out ++ join m'.segments ≡ join m.segments
  pub taken : length out ≡ count
  pub rest : m' ≡ record m { segments = m'.segments; buffered_chars = m.buffered_chars - count }

pub consume-Consumed :
    (count : ℕ) (m : Machine)
    → m.buffered_chars ≡ length (join m.segments)
    → count ≤ m.buffered_chars
    → (out : Text) × (m' : Machine) × Consumed count m out m'
unfolding consume
consume-Consumed count m counted le =
    let r = consume_loop count m.segments in
    let split = consume_loop-Split count m.segments in
    let none_left = split.full (omega arith) in
    (
      r.0,
      record m { segments = r.1; buffered_chars = m.buffered_chars - count },
      record {
        run = ground (arith, none_left);
        whole = split.whole;
        taken = omega (arith, split.taken);
        rest = refl;
      },
    )

pub last_boundary-le : (text : Text) (cut : ℕ) → last_boundary text cut ≤ cut
unfolding last_boundary
last_boundary-le text zero = omega arith
last_boundary-le text (suc cut) = ground (arith, last_boundary-le text cut)

pub last_boundary-is_boundary :
    (text : Text) (cut : ℕ) {j : ℕ}
    → last_boundary text cut ≡ suc j
    → is_boundary (char_at text j) ≡ true
unfolding last_boundary
last_boundary-is_boundary text zero h = absurd (omega arith)
last_boundary-is_boundary text (suc cut) {j} h =
    ground (arith, last_boundary-is_boundary text cut {j = j})

-- No boundary lies between the cut and the limit of what may be emitted.
pub last_boundary-greatest :
    (text : Text) (cut : ℕ) (j : ℕ)
    → last_boundary text cut ≤ j
    → j < cut
    → is_boundary (char_at text j) ≡ false
unfolding last_boundary
last_boundary-greatest text zero j h lt = absurd (omega arith)
last_boundary-greatest text (suc cut) j h lt = elim (dec_lt j cut) [
  | yes below ↦ ground (arith, last_boundary-greatest text cut j)
  | no top ↦ let here : j ≡ cut = omega arith in rw here (ground arith)
]
