-- ===== src/Policy.antt =====
-- EmbeddedPolicyEvaluator of apps/api/app/core/policy/evaluator.py, with the risk levels of
-- apps/api/app/core/detection/classification.py. Python's `str.upper` and `str.lower` are parameters.
pub mod Blocking
pub mod Keywords
mod Tests
use authclaw_mvp.Common.Texts.{same_text, lookup}
use authclaw_mvp.Common.{
  ℕ, Bool, true, false, ◌&&◌, ◌||◌, Option, none, some, List, [], ◌∷◌, ◌++◌, ◌==◌, if◌then◌else◌,
  leb, ltb, Text, codes,
}

pub data RiskLevel : Type 0 where
  low medium high critical : RiskLevel

pub data PolicyAction : Type 0 where
  pass warn redact block : PolicyAction

module _ {A : Type 0} where
  abbrev pub or_default : A → Option A → A
  or_default a none = a
  or_default a (some x) = x

-- `_risk_index`
abbrev pub risk_index : RiskLevel → ℕ
risk_index RiskLevel.low = 0
risk_index RiskLevel.medium = 1
risk_index RiskLevel.high = 2
risk_index RiskLevel.critical = 3

abbrev pub default_entity_risk_map : List (Text × RiskLevel)
default_entity_risk_map =
    (codes "PERSON", RiskLevel.low)
    ∷ (codes "LOCATION", RiskLevel.low)
    ∷ (codes "DATE_TIME", RiskLevel.low)
    ∷ (codes "URL", RiskLevel.low)
    ∷ (codes "NRP", RiskLevel.low)
    ∷ (codes "EMAIL_ADDRESS", RiskLevel.medium)
    ∷ (codes "PHONE_NUMBER", RiskLevel.medium)
    ∷ (codes "ADDRESS", RiskLevel.medium)
    ∷ (codes "DATE", RiskLevel.medium)
    ∷ (codes "AGE", RiskLevel.medium)
    ∷ (codes "IP_ADDRESS", RiskLevel.medium)
    ∷ (codes "CREDIT_CARD", RiskLevel.high)
    ∷ (codes "IBAN_CODE", RiskLevel.high)
    ∷ (codes "BANK_ACCOUNT", RiskLevel.high)
    ∷ (codes "US_SSN", RiskLevel.high)
    ∷ (codes "US_PASSPORT", RiskLevel.high)
    ∷ (codes "US_DRIVER_LICENSE", RiskLevel.high)
    ∷ (codes "US_ITIN", RiskLevel.high)
    ∷ (codes "UK_NHS", RiskLevel.high)
    ∷ (codes "CREDENTIAL", RiskLevel.high)
    ∷ (codes "MEDICAL_RECORD", RiskLevel.critical)
    ∷ (codes "PHI_MRN", RiskLevel.critical)
    ∷ (codes "PHI_NPI", RiskLevel.critical)
    ∷ (codes "PHI_INSURANCE_ID", RiskLevel.critical)
    ∷ []

-- `RiskLevel(name)`; `none` is ValueError.
abbrev pub risk_of_name : Text → Option RiskLevel
risk_of_name name = lookup name (
    (codes "LOW", RiskLevel.low)
    ∷ (codes "MEDIUM", RiskLevel.medium)
    ∷ (codes "HIGH", RiskLevel.high)
    ∷ (codes "CRITICAL", RiskLevel.critical)
    ∷ [])

abbrev pub system_risk : Text → RiskLevel
system_risk entity_type = or_default RiskLevel.critical (lookup entity_type default_entity_risk_map)

pub lowered : RiskLevel → Option RiskLevel → RiskLevel
lowered system none = system
lowered system (some override) =
    if leb (risk_index override) (risk_index system) then override else system

pub override_of : Option Text → Option RiskLevel
override_of none = none
override_of (some name) = risk_of_name name

-- `SecurityClassifier.classify`
unfoldable pub classify : Text → List (Text × Text) → RiskLevel
unfolding lowered override_of
classify entity_type overrides =
    lowered (system_risk entity_type) (override_of (lookup entity_type overrides))

pub record Detection : Type 0 where
  pub entity_type : Text
  pub score : ℕ

pub record EntityViolation : Type 0 where
  pub entity_type : Text
  pub action : PolicyAction
  pub risk_level : RiskLevel
  pub score : ℕ

pub data BlockReason : Type 0 where
  entity : Text → RiskLevel → BlockReason
  keywords : List Text → BlockReason

pub record PolicyDecision : Type 0 where
  pub action : PolicyAction
  pub violations : List EntityViolation
  pub keyword_hits : List Text
  pub max_risk_level : Option RiskLevel
  pub redact_entities : List Text
  pub block_reason : Option BlockReason
  pub shadow_mode : Bool

pub record CompiledPolicy : Type 0 where
  pub entity_actions : List (Text × Text)
  pub classification_overrides : List (Text × Text)
  pub keyword_blocklist : List Text

-- What the loop over the detections has so far.
pub record Progress : Type 0 where
  pub seen_entity_types : List Text
  pub violations : List EntityViolation
  pub redact_entities : List Text
  pub highest_action : PolicyAction
  pub block_reason : Option BlockReason

abbrev pub member : Text → List Text → Bool
member key [] = false
member key (k ∷ ks) = same_text key k || member key ks

abbrev pub is_prefix : Text → Text → Bool
is_prefix [] text = true
is_prefix (k ∷ ks) [] = false
is_prefix (k ∷ ks) (c ∷ cs) = k == c && is_prefix ks cs

-- `key in text`, for texts.
abbrev pub contains : Text → Text → Bool
contains key [] = is_prefix key []
contains key (c ∷ cs) = is_prefix key (c ∷ cs) || contains key cs

-- _REDACT_ACTIONS
abbrev pub redact_actions : List Text
redact_actions =
    codes "MASK" ∷ codes "HASH" ∷ codes "REPLACE" ∷ codes "SYNTHETIC" ∷ codes "REDACT" ∷ []

-- The branch for an entity type without an action of the policy.
abbrev pub unconfigured : RiskLevel → PolicyAction
unconfigured RiskLevel.critical = PolicyAction.redact
unconfigured _ = PolicyAction.warn

pub action_for : Text → RiskLevel → PolicyAction
action_for configured risk =
    if same_text configured (codes "BLOCK")
    then PolicyAction.block
    else (if member configured redact_actions then PolicyAction.redact else unconfigured risk)

-- `highest_action` after an action: only `BLOCK` replaces what is not `PASS`.
pub raised : PolicyAction → PolicyAction → PolicyAction
raised highest PolicyAction.block = PolicyAction.block
raised PolicyAction.pass action = action
raised highest _ = highest

abbrev pub add_redact : PolicyAction → Text → List Text → List Text
add_redact PolicyAction.redact entity_type entities = entities ++ entity_type ∷ []
add_redact _ entity_type entities = entities

abbrev pub reason_after : PolicyAction → Text → RiskLevel → Option BlockReason → Option BlockReason
reason_after PolicyAction.block entity_type risk reason = some (entity entity_type risk)
reason_after _ entity_type risk reason = reason

-- One violation.
pub add_violation : Detection → PolicyAction → RiskLevel → Progress → Progress
unfolding raised
add_violation d action risk p = record {
  seen_entity_types = d.entity_type ∷ p.seen_entity_types;
  violations =
      p.violations
      ++ record { entity_type = d.entity_type; action = action; risk_level = risk; score = d.score }
        ∷ [];
  redact_entities = add_redact action d.entity_type p.redact_entities;
  highest_action = raised p.highest_action action;
  block_reason = reason_after action d.entity_type risk p.block_reason;
}

abbrev pub higher : RiskLevel → Option RiskLevel → RiskLevel
higher r none = r
higher r (some q) = if ltb (risk_index r) (risk_index q) then q else r

abbrev pub max_risk : List EntityViolation → Option RiskLevel
max_risk [] = none
max_risk (v ∷ vs) = some (higher v.risk_level (max_risk vs))

abbrev pub nothing_seen : Progress
nothing_seen = record {
  seen_entity_types = [];
  violations = [];
  redact_entities = [];
  highest_action = PolicyAction.pass;
  block_reason = none;
}

module _ (upper lower : Text → Text) where
  -- `entity_actions.get(entity_type, "").upper()`
  abbrev pub configured_action : CompiledPolicy → Text → Text
  configured_action policy entity_type =
      upper (or_default [] (lookup entity_type policy.entity_actions))

  pub see : CompiledPolicy → Detection → Progress → Progress
  unfolding classify action_for add_violation
  see policy d p =
      let risk = classify d.entity_type policy.classification_overrides in
      if member d.entity_type p.seen_entity_types
      then p
      else add_violation d (action_for (configured_action policy d.entity_type) risk) risk p

  pub see_each : CompiledPolicy → List Detection → Progress → Progress
  unfolding see
  see_each policy [] p = p
  see_each policy (d ∷ ds) p = see_each policy ds (see policy d p)

  pub hits : Text → List Text → List Text
  hits lower_text [] = []
  hits lower_text (k ∷ ks) =
      let rest = hits lower_text ks in if contains (lower k) lower_text then k ∷ rest else rest

  -- Step 2 of `evaluate`: no search in an empty text.
  pub keyword_hits_in : Text → List Text → List Text
  unfolding hits
  keyword_hits_in [] blocklist = []
  keyword_hits_in (c ∷ cs) blocklist = hits (lower (c ∷ cs)) blocklist

  pub decide : Progress → List Text → Bool → PolicyDecision
  decide p [] shadow_mode = record {
    action = p.highest_action;
    violations = p.violations;
    keyword_hits = [];
    max_risk_level = max_risk p.violations;
    redact_entities = p.redact_entities;
    block_reason = p.block_reason;
    shadow_mode = shadow_mode;
  }
  decide p (k ∷ ks) shadow_mode = record {
    action = PolicyAction.block;
    violations = p.violations;
    keyword_hits = k ∷ ks;
    max_risk_level = max_risk p.violations;
    redact_entities = p.redact_entities;
    block_reason = some (keywords (k ∷ ks));
    shadow_mode = shadow_mode;
  }

  -- `evaluate`. (The code removes repeats from `redact_entities`; there are none.)
  unfoldable pub evaluate : List Detection → Text → CompiledPolicy → Bool → PolicyDecision
  unfolding see_each keyword_hits_in decide
  evaluate detections text policy shadow_mode =
      decide (see_each policy detections nothing_seen)
        (keyword_hits_in text policy.keyword_blocklist) shadow_mode
