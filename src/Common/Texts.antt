-- ===== src/Common/Texts.antt =====
-- Texts compared, and tables with texts as keys.
use authclaw_mvp.Common.Tests.{◌==◌, if◌then◌else◌}
use authclaw_mvp.Common.Lists.{Text}
use mathlib.Core.Path.{◌≡◌, refl}
use mathlib.Core.Bool.{Bool, true, false, ◌&&◌}
use mathlib.Core.Option.{Option, none, some}
use mathlib.Core.List.{List, [], ◌∷◌}
use native.Mathlib.Omega.{arith}

abbrev pub same_text : Text → Text → Bool
same_text [] [] = true
same_text (a ∷ as') (b ∷ bs) = a == b && same_text as' bs
same_text _ _ = false

pub same_text→≡ : (a b : Text) → same_text a b ≡ true → a ≡ b
same_text→≡ [] [] h = refl
same_text→≡ [] (y ∷ ys) h = absurd (ground arith)
same_text→≡ (x ∷ xs) [] h = absurd (ground arith)
same_text→≡ (x ∷ xs) (y ∷ ys) h =
    let head : x ≡ y = ground arith in
    let tail = same_text→≡ xs ys (ground arith) in λ i. head i ∷ tail i

pub same_text_refl : (t : Text) → same_text t t ≡ true
same_text_refl [] = refl
same_text_refl (c ∷ cs) = ground (arith, same_text_refl cs)

module _ {A : Type 0} where
  -- `table.get(key)`
  abbrev pub lookup : Text → List (Text × A) → Option A
  lookup key [] = none
  lookup key ((k, a) ∷ rows) = if same_text key k then some a else lookup key rows
