-- ===== src/Common/Exec.antt =====
-- Methods that change a shared object and may raise: what was written before a raise stays written.
use mathlib.Core.Path.{◌≡◌, refl}
use mathlib.Core.Bool.{Bool, true, false}
use native.Mathlib.Omega.{arith}
use authclaw_mvp.Common.Tests.{Result, ok, err}

abbrev pub Exec : Type 0 → Type 0 → Type 0 → Type 0
Exec S E A = S → Result E A × S

module _ {S E A B : Type 0} where
  abbrev pub continue : Result E A → (A → Exec S E B) → Exec S E B
  continue (ok a) f s = f a s
  continue (err e) f s = (err e, s)

  infixl 5 ◌>>=◌ ◌>>◌
  abbrev pub ◌>>=◌ : Exec S E A → (A → Exec S E B) → Exec S E B
  ◌>>=◌ m f s = let (r, s') = m s in continue r f s'

  abbrev pub ◌>>◌ : Exec S E A → Exec S E B → Exec S E B
  m >> n = m >>= λ _. n

module _ {S E A : Type 0} where
  abbrev pub pure : A → Exec S E A
  pure a s = (ok a, s)

  abbrev pub raise : E → Exec S E A
  raise e s = (err e, s)

  abbrev pub gets : (S → A) → Exec S E A
  gets f s = (ok (f s), s)

module _ {S E : Type 0} where
  abbrev pub modify : (S → S) → Exec S E (Unit {0})
  modify f s = (ok tt, f s)

  -- `if not test: raise e`
  abbrev pub check : Bool → E → Exec S E (Unit {0})
  check true e s = (ok tt, s)
  check false e s = (err e, s)

  abbrev pub when : Bool → Exec S E (Unit {0}) → Exec S E (Unit {0})
  when true m s = m s
  when false m s = (ok tt, s)

module _ {S E A B : Type 0} where
  continue_ok :
      (r : Result E A) (f : A → Exec S E B) (s : S) {b : B} {t : S}
      → continue r f s ≡ (ok b, t)
      → (a : A) × (r ≡ ok a) × (f a s ≡ (ok b, t))
  continue_ok (ok a) f s h = (a, refl, h)
  continue_ok (err e) f s h = absurd (ground arith)

  -- A sequence that returns is two actions that return.
  pub bind_ok :
      (m : Exec S E A) (f : A → Exec S E B) (s : S) {b : B} {t : S}
      → (m >>= f) s ≡ (ok b, t)
      → (a : A) × (s1 : S) × (m s ≡ (ok a, s1)) × (f a s1 ≡ (ok b, t))
  bind_ok m f s h =
      let (a, e, rest) = continue_ok (m s).0 f (m s).1 h in
      (a, (m s).1, (λ i. (e i, (m s).1)), rest)

module _ {S E A : Type 0} where
  -- A check that passes, and what comes after it.
  pub check_then_ok :
      (b : Bool) (e : E) (m : Exec S E A) (s : S) {a : A} {t : S}
      → (check b e >> m) s ≡ (ok a, t)
      → (b ≡ true) × (m s ≡ (ok a, t))
  check_then_ok true e m s h = (refl, h)
  check_then_ok false e m s h = absurd (ground arith)

-- `m` keeps `P`, whether it returns or raises.
pub record Keeps {S E A : Type 0} (P : S → Type 0) (m : Exec S E A) : Type 0 where
  pub at : (s : S) → P s → P (m s).1

module _ {S E A : Type 0} {P : S → Type 0} where
  pub Keeps-pure : (a : A) → Keeps P (pure {E = E} a)
  Keeps-pure a = record { at = λ s h. h }

  pub Keeps-raise : (e : E) → Keeps P (raise {A = A} e)
  Keeps-raise e = record { at = λ s h. h }

  pub Keeps-gets : (f : S → A) → Keeps P (gets {E = E} f)
  Keeps-gets f = record { at = λ s h. h }

module _ {S E : Type 0} {P : S → Type 0} where
  pub Keeps-check : (b : Bool) (e : E) → Keeps P (check b e)
  Keeps-check true e = record { at = λ s h. h }
  Keeps-check false e = record { at = λ s h. h }

  pub Keeps-when : (b : Bool) (m : Exec S E Unit) → Keeps P m → Keeps P (when b m)
  Keeps-when true m k = record { at = k.at }
  Keeps-when false m k = record { at = λ s h. h }

module _ {S E A B : Type 0} {P : S → Type 0} where
  Keeps-continue :
      (r : Result E A) (f : A → Exec S E B) (s : S)
      → ((a : A) → Keeps P (f a))
      → P s
      → P (continue r f s).1
  Keeps-continue (ok a) f s kf h = (kf a).at s h
  Keeps-continue (err e) f s kf h = h

  pub Keeps-bind :
      (m : Exec S E A) (f : A → Exec S E B)
      → Keeps P m
      → ((a : A) → Keeps P (f a))
      → Keeps P (m >>= f)
  Keeps-bind m f km kf = record { at = λ s h. Keeps-continue (m s).0 f (m s).1 kf (km.at s h) }

pub ruleset keeps_rules = (Keeps-pure, Keeps-raise, Keeps-gets, Keeps-check, Keeps-when, Keeps-bind)

-- How a run ends: `P` holds of the value and the state of one that returns, `Q` of the state that one
-- that raises leaves.
abbrev pub Ends : {S E A : Type 0} → (A → S → Type 0) → (S → Type 0) → Result E A × S → Type 0
Ends P Q (ok a, s) = P a s
Ends P Q (err e, s) = Q s

module _ {S E A B : Type 0} where
  continue-Ends :
      (P : A → S → Type 0) (P' : B → S → Type 0) (Q : S → Type 0) (r : Result E A)
      (f : A → Exec S E B) (s : S)
      → Ends P Q (r, s)
      → ((a : A) (t : S) → P a t → Ends P' Q (f a t))
      → Ends P' Q (continue r f s)
  continue-Ends P P' Q (ok a) f s h hf = hf a s h
  continue-Ends P P' Q (err e) f s h hf = h

  pub bind-Ends :
      (P : A → S → Type 0) (P' : B → S → Type 0) (Q : S → Type 0) (m : Exec S E A)
      (f : A → Exec S E B) (s : S)
      → Ends P Q (m s)
      → ((a : A) (t : S) → P a t → Ends P' Q (f a t))
      → Ends P' Q ((m >>= f) s)
  bind-Ends P P' Q m f s h hf = continue-Ends P P' Q (m s).0 f (m s).1 h hf

-- From a state of `Q` a run of `m` ends in a state of `P`, whether it returns or raises.
pub record Leads {S E A : Type 0} (Q P : S → Type 0) (m : Exec S E A) : Type 0 where
  pub at : (s : S) → Q s → P (m s).1

module _ {S E A B : Type 0} {Q P : S → Type 0} where
  Leads-continue :
      (sub : (s : S) → Q s → P s) (r : Result E A) (f : A → Exec S E B) (s : S)
      → ((a : A) → Leads Q P (f a))
      → Q s
      → P (continue r f s).1
  Leads-continue sub (ok a) f s lf h = (lf a).at s h
  Leads-continue sub (err e) f s lf h = sub s h

  -- Steps that keep `Q`, before the rest.
  pub Leads-bind :
      (sub : (s : S) → Q s → P s) (m : Exec S E A) (f : A → Exec S E B)
      → Keeps Q m
      → ((a : A) → Leads Q P (f a))
      → Leads Q P (m >>= f)
  Leads-bind sub m f km lf = record {
    at = λ s h. Leads-continue sub (m s).0 f (m s).1 lf (km.at s h);
  }
