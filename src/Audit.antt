-- ===== src/Audit.antt =====
-- The audit chain: audit records, their hash and their checks (apps/api/app/core/events/audit_hash.py,
-- apps/api/app/core/audit/integrity.py). Identifiers are numbers, times microseconds; of the metadata the values are
-- texts. The fields that no code here reads are left out of a record: the actor's type, the
-- frameworks, the trace, the address and the user agent.
pub mod Repository
pub mod Verification
pub mod ChainProof
mod Tests
use authclaw_mvp.Common.{
  ℕ, zero, suc, Bool, true, false, not, ◌||◌, Option, none, some, List, [], ◌∷◌, ◌++◌, map, any,
  ◌==◌, if◌then◌else◌, Text, codes, Result, ok, err,
}
use authclaw_mvp.Common.Exec.{Exec}
use authclaw_mvp.Common.Texts.{same_text, lookup}

abbrev pub Metadata : Type 0
Metadata = List (Text × Text)

pub record AuditRecord : Type 0 where
  pub record_id : ℕ
  pub tenant_id : ℕ
  pub sequence_no : ℕ
  pub created_at : ℕ
  pub actor_id : Option ℕ
  pub action : Text
  pub resource : Option Text
  pub resource_id : Option Text
  pub metadata : Metadata
  pub previous_hash : Text
  pub integrity_hash : Text

-- `hashlib.sha256(...).hexdigest()`, `str` of an identifier, `json.dumps` with sorted keys, and
-- `isoformat` of a time in UTC.
pub record Hashing : Type 0 where
  pub sha256 : Text → Text
  pub str : ℕ → Text
  pub dumps : Metadata → Text
  pub isoformat : ℕ → Text

abbrev pub zeros : ℕ → Text
zeros zero = []
zeros (suc n) = 48 ∷ zeros n

abbrev pub genesis_hash : Text
genesis_hash = zeros 64

-- `value or default`, where an empty text is false.
abbrev pub or_default : Option Text → Text → Text
or_default none d = d
or_default (some []) d = d
or_default (some (c ∷ cs)) d = c ∷ cs

-- `normalize_audit_value`
abbrev pub normalize_audit_value : Option Text → Text
normalize_audit_value none = codes "unknown"
normalize_audit_value (some t) = t

abbrev pub undotted : ℕ → ℕ
undotted c = if c == 46 then 95 else c

abbrev pub normalize_event_type : Option Text → Text
normalize_event_type v = map undotted (normalize_audit_value v)

abbrev pub is_action : Text → Bool
is_action a =
    same_text a (codes "create")
    || same_text a (codes "read")
    || same_text a (codes "update")
    || same_text a (codes "delete")
    || same_text a (codes "execute")

abbrev pub known_action : Text → Text
known_action a = if is_action a then a else codes "execute"

abbrev pub normalize_action : Option Text → Text
normalize_action v = known_action (normalize_audit_value v)

abbrev pub value_or : Option Text → Text → Text
value_or none d = d
value_or (some t) d = t

-- `d[key] = value`
abbrev pub set_item : Text → Text → Metadata → Metadata
set_item key value [] = (key, value) ∷ []
set_item key value ((k, v) ∷ rest) =
    let changed = set_item key value rest in
    if same_text key k then (k, value) ∷ rest else (k, v) ∷ changed

-- `d.get("event_type", default)`
abbrev pub event_type_or : Metadata → Text → Text
event_type_or metadata d = value_or (lookup (codes "event_type") metadata) d

module _ (h : Hashing) where
  abbrev pub id_or_none : Option ℕ → Text
  id_or_none none = codes "None"
  id_or_none (some n) = h.str n

  -- The arguments are those of the function, in its order.
  unfoldable pub compute_audit_hash :
      Text → Text → Text → Text → Text → Text → Text → Text → Metadata → ℕ → Text
  compute_audit_hash previous_hash id_val tenant_id user_id event_type resource resource_id action
        metadata created_at =
      h.sha256 (
        previous_hash
        ++ id_val
        ++ tenant_id
        ++ user_id
        ++ event_type
        ++ resource
        ++ resource_id
        ++ action
        ++ h.dumps metadata
        ++ h.isoformat created_at)

  abbrev pub compute_canonical_record_hash : AuditRecord → Text
  compute_canonical_record_hash r =
      compute_audit_hash r.previous_hash (h.str r.record_id) (h.str r.tenant_id)
        (id_or_none r.actor_id) (normalize_event_type (some (event_type_or r.metadata r.action)))
        (or_default r.resource (codes "system")) (or_default r.resource_id (codes "None"))
        (normalize_action (some r.action)) r.metadata r.created_at

  -- The hash that `verify_tenant_chain` computes, of the record as it is stored.
  abbrev pub compute_stored_hash : AuditRecord → Text
  compute_stored_hash r =
      compute_audit_hash r.previous_hash (h.str r.record_id) (h.str r.tenant_id)
        (id_or_none r.actor_id) (event_type_or r.metadata r.action)
        (or_default r.resource (codes "system")) (or_default r.resource_id (codes "None")) r.action
        r.metadata r.created_at

pub data AuditIntegrityError : Type 0 where
  previous_hash_required integrity_hash_required integrity_hash_mismatch : AuditIntegrityError

abbrev pub is_empty : Text → Bool
is_empty [] = true
is_empty (c ∷ cs) = false

-- A tenant's identifier is never false.
abbrev pub validate_canonical_record : Hashing → AuditRecord → Result AuditIntegrityError (Unit {0})
validate_canonical_record h r =
    if is_empty r.previous_hash
    then err previous_hash_required
    else if is_empty r.integrity_hash
    then err integrity_hash_required
    else if not (same_text r.integrity_hash (compute_canonical_record_hash h r))
    then err integrity_hash_mismatch
    else ok tt
