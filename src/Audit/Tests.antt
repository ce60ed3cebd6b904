-- ===== src/Audit/Tests.antt =====
-- Runs of the audit chain on concrete records.
use authclaw_mvp.Common.{
  ℕ, ◌*◌, ◌≡◌, ◌↔◌, refl, true, false, Option, none, some, List, [], ◌∷◌, length, Text, codes,
  arith,
}
use authclaw_mvp.Audit.{Hashing, compute_audit_hash, genesis_hash, is_empty}
use authclaw_mvp.Audit.Repository.{
  AuditLogs, AuditEntry, append_canonical_audit_record, of_tenant, descending,
}
use authclaw_mvp.Audit.Repository.Chain.{Reachable, IsWhole}
use authclaw_mvp.Audit.Verification.{
  ChainScan, report_of, VerificationReport, ascending, verify_chain_by, verify_tenant_chain,
}
use authclaw_mvp.Common.{take}
use authclaw_mvp.Audit.ChainProof.{
  ChainProofDocument, document_of, order_audit_records, generate, verify,
}
use authclaw_mvp.Audit.ChainProof.Generated.{IntactFrom, generate-verify}
use authclaw_mvp.Audit.Verification.Pages.{ScannedOnce, verify_tenant_chain-scans}
use authclaw_mvp.Audit.Verification.Pages.Links.{Intact, verify_tenant_chain-Intact}
use authclaw_mvp.Audit.Verification.Pages.Written.{append-verify, longer_than_a_page-invalid}

-- A digest that keeps its text, and short forms of the other values.
abbrev plain : Hashing
plain = record { sha256 = λ t. 49 ∷ t; str = λ n. n ∷ []; dumps = λ m. []; isoformat = λ n. n ∷ [] }

plain_nonempty : (t : Text) → is_empty (plain.sha256 t) ≡ false
plain_nonempty t = refl

abbrev entry : ℕ → ℕ → AuditEntry
entry tenant id = record {
  tenant_id = tenant;
  event_type = some (codes "policy.updated");
  action = some (codes "update");
  metadata = [];
  record_id = id;
  actor_id = none;
  resource = none;
  resource_id = none;
  created_at = id * 1000;
}

abbrev tampered_of : Option VerificationReport → List ℕ
tampered_of none = []
tampered_of (some r) = r.tampered_records

abbrev written : AuditLogs
written =
    (append_canonical_audit_record plain (entry 1 3)
      (append_canonical_audit_record plain (entry 2 2)
        (append_canonical_audit_record plain (entry 1 1) []).1).1).1

written_Reachable : Reachable plain IsWhole written
written_Reachable =
    Reachable.step (entry 1 3) refl
      (Reachable.step (entry 2 2) refl (Reachable.step (entry 1 1) refl Reachable.start))

-- The time of a record is hashed to the microsecond and kept to the millisecond: a record that nobody
-- changed is reported.
between_milliseconds :
    tampered_of (
      verify_tenant_chain plain 1
        (append_canonical_audit_record plain (record (entry 1 1) { created_at = 1500 }) []).1)
    ≡ 1 ∷ []
unfolding append_canonical_audit_record verify_chain_by compute_audit_hash
between_milliseconds = refl

-- A row whose action was changed is reported.
abbrev changed : AuditLogs → AuditLogs
changed [] = []
changed (r ∷ rs) = record r { action = codes "read" } ∷ rs

tampered : tampered_of (verify_tenant_chain plain 1 (changed written)) ≡ 3 ∷ []
unfolding append_canonical_audit_record verify_chain_by compute_audit_hash
tampered = refl

-- The fields are joined with nothing between them, so a text that moves from one to the next leaves
-- the hash as it was.
same_hash_of_other_fields :
    (h : Hashing)
    → compute_audit_hash h [] [] [] [] (codes "read") (codes "key1") (codes "2") [] [] 0
      ≡ compute_audit_hash h [] [] [] [] (codes "read") (codes "key") (codes "12") [] [] 0
unfolding compute_audit_hash
same_hash_of_other_fields h = refl

written_count : length (of_tenant 1 written) ≡ 2
unfolding append_canonical_audit_record compute_audit_hash
written_count = refl

verify_tenant_chain-scans_example :
    (t : ChainScan) × (verify_tenant_chain plain 1 written ≡ some (report_of t))
    × (t.total_scanned ≡ length (of_tenant 1 written))
    × ScannedOnce plain 1 written t
verify_tenant_chain-scans_example = verify_tenant_chain-scans plain 1 written

append-verify_example :
    (r : VerificationReport) × (verify_tenant_chain plain 1 written ≡ some r)
    × (r.is_valid ≡ true)
    × (r.scanned_records ≡ length (of_tenant 1 written))
append-verify_example =
    append-verify plain plain_nonempty written 1 written_Reachable (omega (arith, written_count))

longer_than_a_page-invalid_example :
    (r : VerificationReport) × (verify_chain_by 1 plain 1 written ≡ some r) × (r.is_valid ≡ false)
longer_than_a_page-invalid_example =
    longer_than_a_page-invalid plain plain_nonempty IsWhole 1 written 1 written_Reachable
      (omega arith) (omega (arith, written_count))

verify_tenant_chain-Intact_example :
    (r : VerificationReport) × (verify_tenant_chain plain 1 written ≡ some r)
    × ((r.is_valid ≡ true)
        ↔ Intact plain genesis_hash 1 (ascending (descending (of_tenant 1 written))))
verify_tenant_chain-Intact_example =
    verify_tenant_chain-Intact plain 1 written (omega (arith, written_count))

abbrev whole : ChainProofDocument
whole = document_of plain 1 (codes "d") (order_audit_records plain (of_tenant 1 written))

generate-verify_example :
    ((verify plain whole (of_tenant 1 written) none (some (codes "d"))).chain_valid ≡ true)
    ↔ IntactFrom plain whole.start_previous_hash 1 (order_audit_records plain (of_tenant 1 written))
unfolding append_canonical_audit_record compute_audit_hash generate
generate-verify_example = generate-verify plain 1 (of_tenant 1 written) (codes "d") refl

whole_valid : (verify plain whole (of_tenant 1 written) none (some (codes "d"))).chain_valid ≡ true
unfolding append_canonical_audit_record compute_audit_hash verify
whole_valid = refl

-- A proof of a range that does not start at the first record misses the numbers before the range.
abbrev newest : AuditLogs
newest = take 1 (of_tenant 1 written)

newest_missing :
    (verify plain
      (document_of plain 1 (codes "d") (order_audit_records plain newest))
      newest
      none
      (some (codes "d"))).missing_records
    ≡ 1 ∷ []
unfolding append_canonical_audit_record compute_audit_hash verify
newest_missing = refl
