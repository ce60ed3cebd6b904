-- ===== src/Common/Tables.antt =====
-- Tables of rows as lists: the queries that the services send, and updates.
use Prim.Native.Nat.{ℕ}
use mathlib.Core.Path.{◌≡◌}
use mathlib.Core.Bool.{Bool, true}
use mathlib.Core.Option.{Option, none, some}
use mathlib.Core.List.{List, [], ◌∷◌}
use native.Mathlib.Omega.{arith}
use authclaw_mvp.Common.Tests.{ltb, if◌then◌else◌}

module _ {A : Type 0} where
  -- `select(...).where(p)`, first row.
  abbrev pub first : (A → Bool) → List A → Option A
  first p [] = none
  first p (x ∷ xs) = if p x then some x else first p xs

  -- Rows that pass the test are changed by `f`.
  abbrev pub update : (A → Bool) → (A → A) → List A → List A
  update p f [] = []
  update p f (x ∷ xs) = (if p x then f x else x) ∷ update p f xs

  abbrev pub select : (A → Bool) → List A → List A
  select p [] = []
  select p (x ∷ xs) = let rest = select p xs in if p x then x ∷ rest else rest

  abbrev later : (A → ℕ) → A → Option A → A
  later at x none = x
  later at x (some y) = if ltb (at x) (at y) then y else x

  -- `order_by(desc(at)).limit(1)`
  abbrev pub latest : (A → ℕ) → List A → Option A
  latest at [] = none
  latest at (x ∷ xs) = some (later at x (latest at xs))

  -- The row found passes the test.
  pub first-holds : (p : A → Bool) (xs : List A) {x : A} → first p xs ≡ some x → p x ≡ true
  first-holds p [] h = absurd (ground arith)
  first-holds p (y ∷ xs) {x} h = ground (arith, first-holds p xs {x = x})

  -- A change that keeps the test changes the row that is found.
  pub first-update :
      (p : A → Bool) (f : A → A) (xs : List A) {x : A}
      → ((y : A) → p y ≡ true → p (f y) ≡ true)
      → first p xs ≡ some x
      → first p (update p f xs) ≡ some (f x)
  first-update p f [] keep h = absurd (ground arith)
  first-update p f (y ∷ xs) {x} keep h = ground (arith, keep y, first-update p f xs {x = x} keep)
