-- ===== src/Streaming/Buffer/Scanned.antt =====
-- The stream that StreamingBuffer yields is the scan of its input, piece by piece.
use authclaw_mvp.Common.{
  ℕ, zero, suc, ◌+◌, ◌-◌, ◌≡◌, refl, sym, ap, subst, inl, inr, Bool, true, false, none, some, List,
  [], ◌∷◌, ◌++◌, ltb, if◌then◌else◌, Text, length, take, drop, append-nil, append_assoc,
  Option-cases,
}
use authclaw_mvp.Streaming.Buffer.{
  ScanFn, Outcome, finished, yield_scanned, scan_portion, flush_buffer, process_loop, process,
}

-- Input and outcome: the input is cut into pieces; each is scanned, and what is yielded for it is the
-- scan's text (the piece itself in shadow mode); a scan that fails ends the stream there.
pub data Scanned (scan_fn : ScanFn) (shadow_mode : Bool) : Text → Outcome → Type 0 where
  ended : Scanned scan_fn shadow_mode [] finished
  scan_failed :
      (piece input : Text)
      → scan_fn piece ≡ none
      → Scanned scan_fn shadow_mode
          (piece ++ input)
          (record { yielded = []; failed = true; total_entities = 0 })
  scan_passed :
      (piece sanitized input : Text) (count : ℕ) (rest : Outcome)
      → scan_fn piece ≡ some (sanitized, count)
      → Scanned scan_fn shadow_mode input rest
      → Scanned scan_fn shadow_mode (piece ++ input) (record {
        yielded = (if shadow_mode then piece else sanitized) ∷ rest.yielded;
        failed = rest.failed;
        total_entities = count + rest.total_entities;
      })

abbrev pub join : List Text → Text
join [] = []
join (chunk ∷ chunks) = chunk ++ join chunks

module _ (scan_fn : ScanFn) (shadow_mode : Bool) where
  scan_portion-Scanned :
      (portion input : Text) (rest : Outcome)
      → Scanned scan_fn shadow_mode input rest
      → Scanned scan_fn shadow_mode
          (portion ++ input)
          (scan_portion scan_fn shadow_mode portion rest)
  scan_portion-Scanned portion input rest h = elim (Option-cases (scan_fn portion)) [
    | inl e ↦
        subst
          (λ o.
            Scanned scan_fn shadow_mode (portion ++ input)
              (yield_scanned scan_fn shadow_mode portion o rest))
          (sym e) (scan_failed portion input e)
    | inr ((sanitized, count), e) ↦
        subst
          (λ o.
            Scanned scan_fn shadow_mode (portion ++ input)
              (yield_scanned scan_fn shadow_mode portion o rest))
          (sym e) (scan_passed portion sanitized input count rest e h)
  ]

  flush-Scanned :
      (buffer : Text) → Scanned scan_fn shadow_mode buffer (flush_buffer scan_fn shadow_mode buffer)
  unfolding flush_buffer
  flush-Scanned [] = ended
  flush-Scanned (c ∷ cs) =
      subst
        (λ t. Scanned scan_fn shadow_mode t (scan_portion scan_fn shadow_mode (c ∷ cs) finished))
        (append-nil (c ∷ cs)) (scan_portion-Scanned (c ∷ cs) [] finished ended)

  take-drop : (n : ℕ) (text rest : Text) → take n text ++ (drop n text ++ rest) ≡ text ++ rest
  take-drop zero text rest = refl
  take-drop (suc n) [] rest = refl
  take-drop (suc n) (c ∷ cs) rest = ap (λ t. c ∷ t) (take-drop n cs rest)

  -- One round of the loop, for the rest of it.
  cut-Scanned :
      (joined : Text) (n : ℕ) (input : Text) (is_long : Bool) (go : Text → Outcome)
      → ((b : Text) → Scanned scan_fn shadow_mode (b ++ input) (go b))
      → Scanned scan_fn shadow_mode (joined ++ input) (
          if is_long
          then scan_portion scan_fn shadow_mode
              (take n joined)
              (go (if is_long then drop n joined else joined))
          else go (if is_long then drop n joined else joined))
  cut-Scanned joined n input true go h =
      subst
        (λ t.
          Scanned scan_fn shadow_mode t
            (scan_portion scan_fn shadow_mode (take n joined) (go (drop n joined))))
        (take-drop n joined input)
        (scan_portion-Scanned (take n joined) (drop n joined ++ input) (go (drop n joined))
          (h (drop n joined)))
  cut-Scanned joined n input false go h = h joined

  process_loop-Scanned :
      (size : ℕ) (buffer : Text) (chunks : List Text)
      → Scanned scan_fn shadow_mode
          (buffer ++ join chunks)
          (process_loop scan_fn shadow_mode size buffer chunks)
  unfolding process_loop
  process_loop-Scanned size buffer [] =
      subst (λ t. Scanned scan_fn shadow_mode t (flush_buffer scan_fn shadow_mode buffer))
        (sym (append-nil buffer)) (flush-Scanned buffer)
  process_loop-Scanned size buffer (chunk ∷ chunks) =
      subst
        (λ t.
          Scanned scan_fn shadow_mode t
            (process_loop scan_fn shadow_mode size buffer (chunk ∷ chunks)))
        (append_assoc buffer chunk (join chunks))
        (cut-Scanned (buffer ++ chunk) (length (buffer ++ chunk) - size) (join chunks)
          (ltb size (length (buffer ++ chunk)))
          (λ b. process_loop scan_fn shadow_mode size b chunks)
          (λ b. process_loop-Scanned size b chunks))

  -- Every outcome of `process` is a scan of its whole input, piece by piece and in order. For each piece
  -- the text of its scan is yielded, in shadow mode the piece itself; no piece is dropped, repeated or
  -- left unscanned, and nothing is yielded from the first scan that fails on.
  pub process-Scanned :
      (size : ℕ) (chunks : List Text)
      → Scanned scan_fn shadow_mode (join chunks) (process scan_fn shadow_mode size chunks)
  unfolding process
  process-Scanned size chunks = process_loop-Scanned size [] chunks
