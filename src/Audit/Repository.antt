-- ===== src/Audit/Repository.antt =====
-- ClickHouseAuditRepository of apps/api/app/core/audit/repository.py, its queries over the rows of
-- audit_logs, and append_canonical_audit_record of apps/api/app/core/audit/integrity.py, which writes
-- through it. The rows stand with the last inserted first; a query's `{limit}` and `{offset}` are its
-- arguments.
pub mod Chain
use authclaw_mvp.Common.{
  ℕ, suc, ◌+◌, ◌*◌, ◌/◌, max, Bool, true, false, ◌&&◌, ◌||◌, Option, none, some, List, [], ◌∷◌, ltb,
  ◌==◌, if◌then◌else◌, take, drop, Text, codes, Result, ok, err,
}
use authclaw_mvp.Common.Exec.{Exec, ◌>>=◌, ◌>>◌, pure, raise, gets, modify}
use authclaw_mvp.Audit.{
  AuditRecord, Metadata, Hashing, genesis_hash, or_default, normalize_event_type, normalize_action,
  set_item, compute_canonical_record_hash, AuditIntegrityError, validate_canonical_record,
}

abbrev pub AuditLogs : Type 0
AuditLogs = List AuditRecord

abbrev pub AuditAction : Type 0 → Type 0
AuditAction = Exec AuditLogs AuditIntegrityError

-- `WHERE tenant_id = t`
abbrev pub of_tenant : ℕ → AuditLogs → AuditLogs
of_tenant t [] = []
of_tenant t (r ∷ rs) = let rest = of_tenant t rs in if r.tenant_id == t then r ∷ rest else rest

-- `ORDER BY sequence_no DESC, created_at DESC`
abbrev pub comes_before : AuditRecord → AuditRecord → Bool
comes_before a b =
    ltb b.sequence_no a.sequence_no
    || (a.sequence_no == b.sequence_no && ltb b.created_at a.created_at)

abbrev pub insert : AuditRecord → AuditLogs → AuditLogs
insert r [] = r ∷ []
insert r (x ∷ xs) = let rest = insert r xs in if comes_before x r then x ∷ rest else r ∷ x ∷ xs

abbrev pub descending : AuditLogs → AuditLogs
descending [] = []
descending (r ∷ rs) = insert r (descending rs)

abbrev pub list : ℕ → ℕ → ℕ → AuditLogs → AuditLogs
list tenant limit offset logs = take limit (drop offset (descending (of_tenant tenant logs)))

abbrev pub hash_of_first : AuditLogs → Option Text
hash_of_first [] = none
hash_of_first (r ∷ rs) = some r.integrity_hash

abbrev pub get_latest_hash : ℕ → AuditLogs → Option Text
get_latest_hash tenant logs = hash_of_first (descending (of_tenant tenant logs))

abbrev pub max_sequence : AuditLogs → ℕ
max_sequence [] = 0
max_sequence (r ∷ rs) = max r.sequence_no (max_sequence rs)

abbrev pub get_latest_sequence_no : ℕ → AuditLogs → ℕ
get_latest_sequence_no tenant logs = max_sequence (of_tenant tenant logs)

-- What the column `created_at DateTime64(3, 'UTC')` of audit_logs
-- (infrastructure/clickhouse/migrations/001_initial_audit_log.sql) keeps of a time: whole milliseconds.
abbrev pub stored_time : ℕ → ℕ
stored_time t = t / 1000 * 1000

-- A row as it is inserted and read back: a missing text is empty, and the time is the column's.
abbrev pub as_row : AuditRecord → AuditRecord
as_row r = record r {
  created_at = stored_time r.created_at;
  resource = some (or_default r.resource []);
  resource_id = some (or_default r.resource_id []);
}

abbrev pub insert_valid :
    AuditRecord → Result AuditIntegrityError (Unit {0}) → AuditAction (Unit {0})
insert_valid r (ok v) = modify (λ logs. as_row r ∷ logs)
insert_valid r (err e) = raise e

-- `append`, the `bulk_append` of one record
abbrev pub append : Hashing → AuditRecord → AuditAction (Unit {0})
append h r = insert_valid r (validate_canonical_record h r)

-- The arguments of `append_canonical_audit_record`, with the identifier and the time resolved.
pub record AuditEntry : Type 0 where
  pub tenant_id : ℕ
  pub event_type : Option Text
  pub action : Option Text
  pub metadata : Metadata
  pub record_id : ℕ
  pub actor_id : Option ℕ
  pub resource : Option Text
  pub resource_id : Option Text
  pub created_at : ℕ

abbrev pub text_or_none : Option Text → Option Text
text_or_none none = none
text_or_none (some []) = none
text_or_none (some (c ∷ cs)) = some (c ∷ cs)

-- The record, before its hash is set.
abbrev pub unsigned_record : AuditEntry → Text → ℕ → AuditRecord
unsigned_record e previous_hash latest = record {
  record_id = e.record_id;
  tenant_id = e.tenant_id;
  sequence_no = latest + 1;
  created_at = e.created_at;
  actor_id = e.actor_id;
  action = normalize_action e.action;
  resource = some (or_default e.resource (codes "system"));
  resource_id = text_or_none e.resource_id;
  metadata = set_item (codes "event_type") (normalize_event_type e.event_type) e.metadata;
  previous_hash = previous_hash;
  integrity_hash = [];
}

abbrev pub signed : Hashing → AuditRecord → AuditRecord
signed h r = record r { integrity_hash = compute_canonical_record_hash h r }

abbrev pub if_valid :
    Result AuditIntegrityError (Unit {0}) → AuditAction AuditRecord → AuditAction AuditRecord
if_valid (ok v) m = m
if_valid (err e) m = raise e

unfoldable pub append_canonical_audit_record : Hashing → AuditEntry → AuditAction AuditRecord
append_canonical_audit_record h e = do
  latest ← gets (get_latest_hash e.tenant_id)
  sequence_no ← gets (get_latest_sequence_no e.tenant_id)
  let r = signed h (unsigned_record e (or_default latest genesis_hash) sequence_no)
  if_valid (validate_canonical_record h r) (append h r >> pure r)
