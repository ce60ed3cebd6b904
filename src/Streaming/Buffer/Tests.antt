-- ===== src/Streaming/Buffer/Tests.antt =====
-- Runs of StreamingBuffer with a scan that replaces the text 7 7.
use authclaw_mvp.Common.{◌≡◌, refl, false, some, List, [], ◌∷◌, Text, ◌==◌, ◌&&◌, if◌then◌else◌}
use authclaw_mvp.Streaming.Buffer.{ScanFn, process}
use authclaw_mvp.Streaming.Buffer.Scanned.{Scanned, join, process-Scanned}

abbrev redact_pair : Text → Text
redact_pair [] = []
redact_pair (a ∷ []) = a ∷ []
redact_pair (a ∷ b ∷ rest) =
    let later = redact_pair (b ∷ rest) in
    let after = redact_pair rest in if a == 7 && b == 7 then 0 ∷ after else a ∷ later

abbrev scan : ScanFn
scan text = some (redact_pair text, 0)

abbrev chunks : List Text
chunks = (1 ∷ 7 ∷ []) ∷ (7 ∷ 2 ∷ []) ∷ []

process-Scanned_example : Scanned scan false (join chunks) (process scan false 3 chunks)
unfolding process
process-Scanned_example = process-Scanned scan false 3 chunks

-- The scan of the whole text finds the pair.
whole : redact_pair (join chunks) ≡ 1 ∷ 0 ∷ 2 ∷ []
whole = refl

-- With a buffer of two characters, the cut falls inside it, and both halves are yielded as they are.
cut_inside : (process scan false 2 chunks).yielded ≡ (1 ∷ 7 ∷ []) ∷ (7 ∷ 2 ∷ []) ∷ []
unfolding process
cut_inside = refl
