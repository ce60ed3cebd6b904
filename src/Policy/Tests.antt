-- ===== src/Policy/Tests.antt =====
-- Runs of the policy evaluator.
use authclaw_mvp.Common.{◌≡◌, refl, ◌≤◌, ◌≢◌, ◌⊎◌, ◌↔◌, true, false, [], ◌∷◌, Text, codes}
use authclaw_mvp.Policy.{
  PolicyAction, CompiledPolicy, Detection, classify, risk_index, system_risk, evaluate,
}
use authclaw_mvp.Policy.Blocking.{is_block, any_blocked, classify_le}
use authclaw_mvp.Policy.Keywords.{SomeOccurs, evaluate_blocks}

abbrev policy : CompiledPolicy
policy = record {
  entity_actions = (codes "CREDIT_CARD", codes "MASK") ∷ (codes "US_SSN", codes "BLOCK") ∷ [];
  classification_overrides =
      (codes "MEDICAL_RECORD", codes "HIGH") ∷ (codes "PERSON", codes "CRITICAL") ∷ [];
  keyword_blocklist = codes "top" ∷ [];
}

abbrev email : Detection
email = record { entity_type = codes "EMAIL_ADDRESS"; score = 1 }

abbrev card : Detection
card = record { entity_type = codes "CREDIT_CARD"; score = 1 }

abbrev ssn : Detection
ssn = record { entity_type = codes "US_SSN"; score = 1 }

abbrev same : Text → Text
same text = text

classify_le_example :
    risk_index (classify (codes "PERSON") policy.classification_overrides)
    ≤ risk_index (system_risk (codes "PERSON"))
classify_le_example = classify_le (codes "PERSON") policy.classification_overrides

evaluate_blocks_example :
    (is_block (evaluate same same (email ∷ card ∷ []) (codes "stop") policy false).action ≡ true)
    ↔ ((any_blocked same same policy (email ∷ card ∷ []) ≡ true)
        ⊎ ((codes "stop" ≢ []) × SomeOccurs same same (codes "stop") policy.keyword_blocklist))
evaluate_blocks_example = evaluate_blocks same same policy (email ∷ card ∷ []) (codes "stop") false

-- The action of a redacted type and of an unconfigured one depends on their order.
redact_first : (evaluate same same (card ∷ email ∷ []) [] policy false).action ≡ PolicyAction.redact
unfolding evaluate
redact_first = refl

warn_first : (evaluate same same (email ∷ card ∷ []) [] policy false).action ≡ PolicyAction.warn
unfolding evaluate
warn_first = refl
