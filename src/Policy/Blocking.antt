-- ===== src/Policy/Blocking.antt =====
-- When the evaluator blocks, and what it redacts.
use authclaw_mvp.Common.{
  ◌≤◌, ◌≡◌, refl, sym, ap, ◌∙◌, inl, inr, Bool, true, false, ◌||◌, Option, none, some, List, [],
  ◌∷◌, arith, leb, if◌then◌else◌, Text, codes, Bool-cases, leb→le,
}
use authclaw_mvp.Common.Texts.{same_text, same_text→≡, lookup}
use authclaw_mvp.Policy.{
  RiskLevel, PolicyAction, CompiledPolicy, Detection, Progress, member, risk_index, system_risk,
  lowered, override_of, classify, action_for, raised, add_violation, configured_action, see,
  see_each, keyword_hits_in, decide, evaluate, nothing_seen, unconfigured, redact_actions,
}

chosen_le :
    (b : Bool) (override system : RiskLevel)
    → (b ≡ true → risk_index override ≤ risk_index system)
    → risk_index (if b then override else system) ≤ risk_index system
chosen_le true override system h = h refl
chosen_le false override system h = omega arith

lowered_le :
    (system : RiskLevel) (override : Option RiskLevel)
    → risk_index (lowered system override) ≤ risk_index system
unfolding lowered
lowered_le system none = omega arith
lowered_le system (some override) =
    chosen_le (leb (risk_index override) (risk_index system)) override system
      (leb→le (risk_index override) (risk_index system))

-- A tenant's override never raises the risk of an entity type.
pub classify_le :
    (entity_type : Text) (overrides : List (Text × Text))
    → risk_index (classify entity_type overrides) ≤ risk_index (system_risk entity_type)
unfolding classify
classify_le entity_type overrides =
    lowered_le (system_risk entity_type) (override_of (lookup entity_type overrides))

abbrev pub is_block : PolicyAction → Bool
is_block PolicyAction.block = true
is_block _ = false

is_block-unconfigured : (risk : RiskLevel) → is_block (unconfigured risk) ≡ false
is_block-unconfigured RiskLevel.critical = refl
is_block-unconfigured RiskLevel.low = refl
is_block-unconfigured RiskLevel.medium = refl
is_block-unconfigured RiskLevel.high = refl

is_block-chosen :
    (b c : Bool) (risk : RiskLevel)
    → is_block
        (if b then PolicyAction.block else (if c then PolicyAction.redact else unconfigured risk))
      ≡ b
is_block-chosen true c risk = refl
is_block-chosen false true risk = refl
is_block-chosen false false risk = is_block-unconfigured risk

or_assoc : (a b c : Bool) → ((a || b) || c) ≡ (a || (b || c))
or_assoc true b c = refl
or_assoc false b c = refl

or_left : (a b : Bool) → a ≡ true → (a || b) ≡ true
or_left true b h = refl
or_left false b h = absurd (ground arith)

or_right : (a b : Bool) → b ≡ true → (a || b) ≡ true
or_right true b h = refl
or_right false b h = h

absorbs : (a b : Bool) → (b ≡ true → a ≡ true) → a ≡ (a || b)
absorbs true b h = refl
absorbs false true h = h refl
absorbs false false h = refl

is_block-action_for :
    (configured : Text) (risk : RiskLevel)
    → is_block (action_for configured risk) ≡ same_text configured (codes "BLOCK")
unfolding action_for
is_block-action_for configured risk =
    is_block-chosen (same_text configured (codes "BLOCK")) (member configured redact_actions) risk

is_block-raised :
    (highest action : PolicyAction)
    → is_block (raised highest action) ≡ (is_block highest || is_block action)
unfolding raised
is_block-raised PolicyAction.pass PolicyAction.block = refl
is_block-raised PolicyAction.pass PolicyAction.pass = refl
is_block-raised PolicyAction.pass PolicyAction.warn = refl
is_block-raised PolicyAction.pass PolicyAction.redact = refl
is_block-raised PolicyAction.warn PolicyAction.block = refl
is_block-raised PolicyAction.warn PolicyAction.pass = refl
is_block-raised PolicyAction.warn PolicyAction.warn = refl
is_block-raised PolicyAction.warn PolicyAction.redact = refl
is_block-raised PolicyAction.redact PolicyAction.block = refl
is_block-raised PolicyAction.redact PolicyAction.pass = refl
is_block-raised PolicyAction.redact PolicyAction.warn = refl
is_block-raised PolicyAction.redact PolicyAction.redact = refl
is_block-raised PolicyAction.block PolicyAction.block = refl
is_block-raised PolicyAction.block PolicyAction.pass = refl
is_block-raised PolicyAction.block PolicyAction.warn = refl
is_block-raised PolicyAction.block PolicyAction.redact = refl

abbrev pub is_some_keyword : List Text → Bool
is_some_keyword [] = false
is_some_keyword (k ∷ ks) = true

module _ (upper lower : Text → Text) (policy : CompiledPolicy) where
  -- The tenant's policy blocks the entity type.
  abbrev pub blocks : Text → Bool
  blocks entity_type = same_text (configured_action upper lower policy entity_type) (codes "BLOCK")

  abbrev pub any_blocked : List Detection → Bool
  any_blocked [] = false
  any_blocked (d ∷ ds) = blocks d.entity_type || any_blocked ds

  -- A type that was seen and is blocked has made the action `BLOCK`.
  record Consistent (p : Progress) : Type 0 where
    at :
        (e : Text)
        → member e p.seen_entity_types ≡ true
        → blocks e ≡ true
        → is_block p.highest_action ≡ true

  record Seen (d : Detection) (p p' : Progress) : Type 0 where
    action : is_block p'.highest_action ≡ (is_block p.highest_action || blocks d.entity_type)
    consistent : Consistent p'

  covers :
      (e entity_type : Text) (p : Progress)
      → Consistent p
      → (same_text e entity_type || member e p.seen_entity_types) ≡ true
      → blocks e ≡ true
      → (is_block p.highest_action || blocks entity_type) ≡ true
  covers e entity_type p h he hb = elim (Bool-cases (same_text e entity_type)) [
    | inl same ↦
        or_right (is_block p.highest_action) (blocks entity_type)
          (ap blocks (sym (same_text→≡ e entity_type same)) ∙ hb)
    | inr other ↦
        or_left (is_block p.highest_action) (blocks entity_type)
          (h.at e (ap (λ b. b || member e p.seen_entity_types) (sym other) ∙ he) hb)
  ]

  Seen-add :
      (d : Detection) (risk : RiskLevel) (p : Progress)
      → Consistent p
      → Seen d p (
          add_violation d
            (action_for (configured_action upper lower policy d.entity_type) risk)
            risk
            p)
  unfolding add_violation
  Seen-add d risk p h =
      let configured = configured_action upper lower policy d.entity_type in
      let after : is_block (raised p.highest_action (action_for configured risk))
          ≡ (is_block p.highest_action || blocks d.entity_type) =
        is_block-raised p.highest_action (action_for configured risk)
        ∙ ap (λ b. is_block p.highest_action || b) (is_block-action_for configured risk) in
      record {
        action = after;
        consistent = record { at = λ e he hb. after ∙ covers e d.entity_type p h he hb };
      }

  Seen-if :
      (b : Bool) (d : Detection) (risk : RiskLevel) (p : Progress)
      → Consistent p
      → member d.entity_type p.seen_entity_types ≡ b
      → Seen d p (
          if b
          then p
          else add_violation d
              (action_for (configured_action upper lower policy d.entity_type) risk)
              risk
              p)
  Seen-if true d risk p h e = record {
    action = absorbs (is_block p.highest_action) (blocks d.entity_type) (h.at d.entity_type e);
    consistent = h;
  }
  Seen-if false d risk p h e = Seen-add d risk p h

  Seen-see : (d : Detection) (p : Progress) → Consistent p → Seen d p (see upper lower policy d p)
  unfolding see
  Seen-see d p h =
      Seen-if (member d.entity_type p.seen_entity_types) d
        (classify d.entity_type policy.classification_overrides) p h refl

  see_each_lem :
      (ds : List Detection) (p : Progress)
      → Consistent p
      → is_block (see_each upper lower policy ds p).highest_action
        ≡ (is_block p.highest_action || any_blocked ds)
  unfolding see_each
  see_each_lem [] p h = ground arith
  see_each_lem (d ∷ ds) p h =
      let seen = Seen-see d p h in
      see_each_lem ds (see upper lower policy d p) seen.consistent
      ∙ ap (λ b. b || any_blocked ds) seen.action
      ∙ or_assoc (is_block p.highest_action) (blocks d.entity_type) (any_blocked ds)

  is_block-decide :
      (p : Progress) (found : List Text) (shadow_mode : Bool)
      → is_block (decide upper lower p found shadow_mode).action
        ≡ (is_block p.highest_action || is_some_keyword found)
  unfolding decide
  is_block-decide p [] shadow_mode = ground arith
  is_block-decide p (k ∷ ks) shadow_mode = sym (or_right (is_block p.highest_action) true refl)

  -- The two tests that decide on `BLOCK`.
  pub is_block-evaluate :
      (detections : List Detection) (text : Text) (shadow_mode : Bool)
      → is_block (evaluate upper lower detections text policy shadow_mode).action ≡ (
          any_blocked detections
          || is_some_keyword (keyword_hits_in upper lower text policy.keyword_blocklist))
  unfolding evaluate
  is_block-evaluate detections text shadow_mode =
      is_block-decide (see_each upper lower policy detections nothing_seen)
        (keyword_hits_in upper lower text policy.keyword_blocklist) shadow_mode
      ∙ ap (λ b. b || is_some_keyword (keyword_hits_in upper lower text policy.keyword_blocklist))
          (see_each_lem detections nothing_seen (record { at = λ e he hb. absurd (ground arith) }))
