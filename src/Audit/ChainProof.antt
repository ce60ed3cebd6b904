-- ===== src/Audit/ChainProof.antt =====
-- ChainProofService of apps/api/app/core/audit/chain_proof.py, for documents that were parsed
-- (ChainProofDocument, with the fields of apps/api/app/core/audit/export_contracts.py flattened and the
-- time range left out). Identifiers are compared as the texts that `str` gives.
pub mod Generated
use authclaw_mvp.Common.{
  ℕ, zero, suc, ◌+◌, Bool, true, false, not, ◌&&◌, ◌||◌, Option, none, some, List, [], ◌∷◌, ◌++◌,
  map, ltb, ◌==◌, if◌then◌else◌, length, Text, codes, Result, ok, err,
}
use authclaw_mvp.Common.Texts.{same_text}
use authclaw_mvp.Audit.{AuditRecord, Hashing, compute_canonical_record_hash}
use authclaw_mvp.Audit.Repository.{AuditLogs}
use authclaw_mvp.Audit.Verification.{ChainScan, range, extend_if, last_record}

pub record ChainProofRecordContract : Type 0 where
  pub record_id : Text
  pub tenant_id : ℕ
  pub sequence_no : ℕ
  pub created_at : ℕ
  pub previous_hash : Text
  pub integrity_hash : Text

pub record ChainProofDocument : Type 0 where
  pub schema_version : ℕ
  pub tenant_id : ℕ
  pub start_record_id : Text
  pub end_record_id : Text
  pub record_count : ℕ
  pub hash_algorithm : Text
  pub canonicalization : Text
  pub start_previous_hash : Text
  pub expected_final_integrity_hash : Text
  pub manifest_digest : Text
  pub records : List ChainProofRecordContract

pub data ProofError : Type 0 where
  unsupported_schema_version unsupported_hash_algorithm unsupported_canonicalization : ProofError
  manifest_digest_mismatch tenant_mismatch cross_tenant_record record_count_mismatch : ProofError
  proof_record_order_mismatch final_integrity_hash_mismatch start_record_id_mismatch : ProofError
  end_record_id_mismatch : ProofError

pub record ChainProofResult : Type 0 where
  pub chain_valid : Bool
  pub record_count : ℕ
  pub tampered_records : List ℕ
  pub missing_records : List ℕ
  pub chain_breaks : List ℕ
  pub errors : List ProofError

abbrev pub chain_proof_schema_version : ℕ
chain_proof_schema_version = 1

-- HashAlgorithm.SHA_256 and CanonicalizationIdentifier.AUTHCLAW_CANONICAL_JSON_V1
abbrev pub sha_256 : Text
sha_256 = codes "SHA-256"

abbrev pub authclaw_canonical_json_v1 : Text
authclaw_canonical_json_v1 = codes "authclaw.canonical-json/v1"

-- The order of texts.
abbrev pub text_before : Text → Text → Bool
text_before [] [] = false
text_before [] (b ∷ bs) = true
text_before (a ∷ as') [] = false
text_before (a ∷ as') (b ∷ bs) = ltb a b || (a == b && text_before as' bs)

-- The key of `order_audit_records`.
abbrev pub stands_before : Hashing → AuditRecord → AuditRecord → Bool
stands_before h a b =
    ltb a.sequence_no b.sequence_no
    || (a.sequence_no == b.sequence_no
        && (ltb a.created_at b.created_at
            || (a.created_at == b.created_at
                && text_before (h.str a.record_id) (h.str b.record_id))))

abbrev pub place : Hashing → AuditRecord → AuditLogs → AuditLogs
place h r [] = r ∷ []
place h r (x ∷ xs) = let rest = place h r xs in if stands_before h x r then x ∷ rest else r ∷ x ∷ xs

abbrev pub order_audit_records : Hashing → AuditLogs → AuditLogs
order_audit_records h [] = []
order_audit_records h (r ∷ rs) = place h r (order_audit_records h rs)

abbrev pub record_contract : Hashing → AuditRecord → ChainProofRecordContract
record_contract h r = record {
  record_id = h.str r.record_id;
  tenant_id = r.tenant_id;
  sequence_no = r.sequence_no;
  created_at = r.created_at;
  previous_hash = r.previous_hash;
  integrity_hash = r.integrity_hash;
}

-- `all(record.tenant_id == tenant_id)`
abbrev pub all_of : ℕ → AuditLogs → Bool
all_of tenant [] = true
all_of tenant (r ∷ rs) = r.tenant_id == tenant && all_of tenant rs

-- A field of the first and of the last record, with "" for no records.
abbrev pub of_first : (AuditRecord → Text) → AuditLogs → Text
of_first f [] = []
of_first f (r ∷ rs) = f r

abbrev pub of_last : (AuditRecord → Text) → AuditLogs → Text
of_last f [] = []
of_last f (r ∷ rs) = f (last_record r rs)

abbrev pub document_of : Hashing → ℕ → Text → AuditLogs → ChainProofDocument
document_of h tenant manifest_digest ordered = record {
  schema_version = chain_proof_schema_version;
  tenant_id = tenant;
  start_record_id = of_first (λ r. h.str r.record_id) ordered;
  end_record_id = of_last (λ r. h.str r.record_id) ordered;
  record_count = length ordered;
  hash_algorithm = sha_256;
  canonicalization = authclaw_canonical_json_v1;
  start_previous_hash = of_first (λ r. r.previous_hash) ordered;
  expected_final_integrity_hash = of_last (λ r. r.integrity_hash) ordered;
  manifest_digest = manifest_digest;
  records = map (record_contract h) ordered;
}

-- `generate`, which raises ValueError for a record of another tenant.
unfoldable pub generate : Hashing → ℕ → AuditLogs → Text → Result ProofError ChainProofDocument
generate h tenant records manifest_digest =
    let ordered = order_audit_records h records in
    if all_of tenant ordered
    then ok (document_of h tenant manifest_digest ordered)
    else err cross_tenant_record

abbrev pub error_if : Bool → ProofError → List ProofError
error_if true e = e ∷ []
error_if false e = []

abbrev pub other_digest : Option Text → Text → Bool
other_digest none digest = false
other_digest (some expected) digest = not (same_text digest expected)

-- `_preflight_errors`
abbrev pub preflight_errors : ChainProofDocument → Option Text → List ProofError
preflight_errors p expected_manifest_digest =
    error_if (not (p.schema_version == chain_proof_schema_version)) unsupported_schema_version
    ++ error_if (not (same_text p.hash_algorithm sha_256)) unsupported_hash_algorithm
    ++ error_if (not (same_text p.canonicalization authclaw_canonical_json_v1))
        unsupported_canonicalization
    ++ error_if (other_digest expected_manifest_digest p.manifest_digest) manifest_digest_mismatch

abbrev pub same_ids : Hashing → List ChainProofRecordContract → AuditLogs → Bool
same_ids h [] [] = true
same_ids h (c ∷ cs) (r ∷ rs) = same_text c.record_id (h.str r.record_id) && same_ids h cs rs
same_ids h _ _ = false

-- The errors that `verify` collects before its loop and after it.
abbrev pub document_errors : Hashing → ChainProofDocument → ℕ → AuditLogs → List ProofError
document_errors h p tenant ordered =
    error_if (not (p.tenant_id == tenant)) tenant_mismatch
    ++ error_if (not (all_of tenant ordered)) cross_tenant_record
    ++ error_if (not (p.record_count == length ordered)) record_count_mismatch
    ++ error_if (not (same_ids h p.records ordered)) proof_record_order_mismatch
    ++ error_if
        (not (same_text p.expected_final_integrity_hash (of_last (λ r. r.integrity_hash) ordered)))
        final_integrity_hash_mismatch
    ++ error_if
        (not (length ordered == 0)
          && not (same_text p.start_record_id (of_first (λ r. h.str r.record_id) ordered)))
        start_record_id_mismatch
    ++ error_if
        (not (length ordered == 0)
          && not (same_text p.end_record_id (of_last (λ r. h.str r.record_id) ordered)))
        end_record_id_mismatch

-- The body of the loop of `verify`.
abbrev pub check_record : Hashing → AuditRecord → ChainScan → ChainScan
check_record h r s = record {
  missing_records =
      extend_if (not (r.sequence_no == 0) && ltb s.expected_sequence_no r.sequence_no)
        (range s.expected_sequence_no r.sequence_no) s.missing_records;
  tampered_records =
      extend_if (not (same_text r.integrity_hash (compute_canonical_record_hash h r)))
        (r.record_id ∷ []) s.tampered_records;
  chain_breaks =
      extend_if (not (same_text r.previous_hash s.expected_previous_hash)) (r.record_id ∷ [])
        s.chain_breaks;
  expected_previous_hash = r.integrity_hash;
  expected_sequence_no = if r.sequence_no == 0 then s.expected_sequence_no else r.sequence_no + 1;
  total_scanned = s.total_scanned + 1;
}

abbrev pub check_records : Hashing → AuditLogs → ChainScan → ChainScan
check_records h [] s = s
check_records h (r ∷ rs) s = check_records h rs (check_record h r s)

abbrev pub first_scan : Text → ChainScan
first_scan start_previous_hash = record {
  missing_records = [];
  tampered_records = [];
  chain_breaks = [];
  expected_previous_hash = start_previous_hash;
  expected_sequence_no = 1;
  total_scanned = 0;
}

abbrev pub result_of : List ProofError → ChainScan → ℕ → ChainProofResult
result_of errors s count = record {
  chain_valid =
      length errors == 0
      && (length s.missing_records == 0
          && length s.tampered_records == 0
          && length s.chain_breaks == 0);
  record_count = count;
  tampered_records = s.tampered_records;
  missing_records = s.missing_records;
  chain_breaks = s.chain_breaks;
  errors = errors;
}

abbrev pub tenant_or : Option ℕ → ℕ → ℕ
tenant_or none t = t
tenant_or (some t') t = t'

unfoldable pub verify :
    Hashing → ChainProofDocument → AuditLogs → Option ℕ → Option Text → ChainProofResult
verify h p records expected_tenant_id expected_manifest_digest =
    let ordered = order_audit_records h records in
    let preflight = preflight_errors p expected_manifest_digest in
    let checked = check_records h ordered (first_scan p.start_previous_hash) in
    if length preflight == 0
    then result_of (document_errors h p (tenant_or expected_tenant_id p.tenant_id) ordered) checked
        (length ordered)
    else result_of preflight (first_scan []) 0
