-- ===== src/Policy/Keywords.antt =====
-- The blocklist of the evaluator: its hits are the keywords that stand in the text.
use authclaw_mvp.Common.{
  ◌≡◌, ◌≢◌, refl, sym, ap, ◌∙◌, ◌↔◌, ◌⊎◌, inl, inr, Bool, true, false, ◌||◌, List, [], ◌∷◌, ◌++◌,
  arith, if◌then◌else◌, Text,
}
use authclaw_mvp.Policy.{
  CompiledPolicy, Detection, is_prefix, contains, hits, keyword_hits_in, evaluate,
}
use authclaw_mvp.Policy.Blocking.{is_block, any_blocked, is_some_keyword, is_block-evaluate}

-- `key` stands somewhere in `text`.
abbrev pub Occurs : Text → Text → Type 0
Occurs key text = (before : Text) × (after : Text) × (before ++ (key ++ after) ≡ text)

is_prefix_sound :
    (key text : Text) → is_prefix key text ≡ true → (after : Text) × (key ++ after ≡ text)
is_prefix_sound [] text h = (text, refl)
is_prefix_sound (k ∷ ks) [] h = absurd (ground arith)
is_prefix_sound (k ∷ ks) (c ∷ cs) h =
    let same : k ≡ c = ground arith in
    let (after, e) = is_prefix_sound ks cs (ground arith) in (after, λ i. same i ∷ e i)

is_prefix-append : (key after : Text) → is_prefix key (key ++ after) ≡ true
is_prefix-append [] after = refl
is_prefix-append (k ∷ ks) after = ground (arith, is_prefix-append ks after)

either : (a b : Bool) → (a || b) ≡ true → (a ≡ true) ⊎ (b ≡ true)
either true b h = inl refl
either false b h = inr h

contains-Occurs : (key text : Text) → contains key text ≡ true → Occurs key text
contains-Occurs key [] h = let (after, e) = is_prefix_sound key [] h in ([], after, e)
contains-Occurs key (c ∷ cs) h = elim (either (is_prefix key (c ∷ cs)) (contains key cs) h) [
  | inl here ↦ (let (after, e) = is_prefix_sound key (c ∷ cs) here in ([], after, e))
  | inr later ↦
      (let (before, after, e) = contains-Occurs key cs later in
        (c ∷ before, after, ap (λ t. c ∷ t) e))
]

or_true : (a b : Bool) → b ≡ true → (a || b) ≡ true
or_true true b h = refl
or_true false b h = h

contains_prefix : (key text : Text) → is_prefix key text ≡ true → contains key text ≡ true
contains_prefix key [] h = h
contains_prefix key (c ∷ cs) h = ap (λ b. b || contains key cs) h

contains-append : (key before after : Text) → contains key (before ++ (key ++ after)) ≡ true
contains-append key [] after = contains_prefix key (key ++ after) (is_prefix-append key after)
contains-append key (c ∷ before) after =
    or_true (is_prefix key (c ∷ (before ++ (key ++ after))))
      (contains key (before ++ (key ++ after))) (contains-append key before after)

Occurs-contains : (key text : Text) → Occurs key text → contains key text ≡ true
Occurs-contains key text (before, after, e) =
    ap (contains key) (sym e) ∙ contains-append key before after

kept :
    (b : Bool) (k : Text) (rest : List Text)
    → b ≡ true
    → is_some_keyword (if b then k ∷ rest else rest) ≡ true
kept true k rest h = refl
kept false k rest h = absurd (ground arith)

kept_rest :
    (b : Bool) (k : Text) (rest : List Text)
    → is_some_keyword rest ≡ true
    → is_some_keyword (if b then k ∷ rest else rest) ≡ true
kept_rest true k rest h = refl
kept_rest false k rest h = h

kept_either :
    (b : Bool) (k : Text) (rest : List Text)
    → is_some_keyword (if b then k ∷ rest else rest) ≡ true
    → (b ≡ true) ⊎ (is_some_keyword rest ≡ true)
kept_either true k rest h = inl refl
kept_either false k rest h = inr h

module _ (upper lower : Text → Text) where
  -- One of the keywords stands in the text, both in lower case.
  abbrev pub SomeOccurs : Text → List Text → Type 0
  SomeOccurs text [] = ⊥
  SomeOccurs text (k ∷ ks) = Occurs (lower k) (lower text) ⊎ SomeOccurs text ks

  hits-SomeOccurs :
      (text : Text) (ks : List Text)
      → is_some_keyword (hits upper lower (lower text) ks) ≡ true
      → SomeOccurs text ks
  unfolding hits
  hits-SomeOccurs text [] h = ground arith
  hits-SomeOccurs text (k ∷ ks) h =
      elim (kept_either (contains (lower k) (lower text)) k (hits upper lower (lower text) ks) h) [
        | inl here ↦ inl (contains-Occurs (lower k) (lower text) here)
        | inr later ↦ inr (hits-SomeOccurs text ks later)
      ]

  SomeOccurs-hits :
      (text : Text) (ks : List Text)
      → SomeOccurs text ks
      → is_some_keyword (hits upper lower (lower text) ks) ≡ true
  unfolding hits
  SomeOccurs-hits text [] h = absurd h
  SomeOccurs-hits text (k ∷ ks) (inl here) =
      kept (contains (lower k) (lower text)) k (hits upper lower (lower text) ks)
        (Occurs-contains (lower k) (lower text) here)
  SomeOccurs-hits text (k ∷ ks) (inr later) =
      kept_rest (contains (lower k) (lower text)) k (hits upper lower (lower text) ks)
        (SomeOccurs-hits text ks later)

  found-SomeOccurs :
      (text : Text) (ks : List Text)
      → is_some_keyword (keyword_hits_in upper lower text ks) ≡ true
      → (text ≢ []) × SomeOccurs text ks
  unfolding keyword_hits_in
  found-SomeOccurs [] ks h = absurd (ground arith)
  found-SomeOccurs (c ∷ cs) ks h = (λ e. ground arith, hits-SomeOccurs (c ∷ cs) ks h)

  SomeOccurs-found :
      (text : Text) (ks : List Text)
      → text ≢ []
      → SomeOccurs text ks
      → is_some_keyword (keyword_hits_in upper lower text ks) ≡ true
  unfolding keyword_hits_in
  SomeOccurs-found [] ks some_text h = absurd (some_text refl)
  SomeOccurs-found (c ∷ cs) ks some_text h = SomeOccurs-hits (c ∷ cs) ks h

  -- Whatever the order of the detections and their repeats, `evaluate` decides `BLOCK` exactly when the
  -- policy blocks the type of one of them or the text is not empty and a keyword of the blocklist stands
  -- in it, both in lower case: the text is some text, then the keyword, then some text.
  pub evaluate_blocks :
      (policy : CompiledPolicy) (detections : List Detection) (text : Text) (shadow_mode : Bool)
      → (is_block (evaluate upper lower detections text policy shadow_mode).action ≡ true) ↔ (
          (any_blocked upper lower policy detections ≡ true)
          ⊎ ((text ≢ []) × SomeOccurs text policy.keyword_blocklist))
  evaluate_blocks policy detections text shadow_mode =
      let ks = policy.keyword_blocklist in
      let blocked = any_blocked upper lower policy detections in
      let found = is_some_keyword (keyword_hits_in upper lower text ks) in
      let run = is_block-evaluate upper lower policy detections text shadow_mode in
      (
        λ h. elim (either blocked found (sym run ∙ h)) [
          | inl b ↦ inl b
          | inr f ↦ inr (found-SomeOccurs text ks f)
        ],
        λ h. run ∙ elim h [
          | inl b ↦ ap (λ x. x || found) b
          | inr (some_text, o) ↦ or_true blocked found (SomeOccurs-found text ks some_text o)
        ],
      )
