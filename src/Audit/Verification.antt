-- ===== src/Audit/Verification.antt =====
-- HashVerificationService.verify_tenant_chain of apps/api/app/core/audit/verification.py, over
-- ClickHouseAuditRepository. The `while True` loop runs on fuel.
pub mod Pages
use authclaw_mvp.Common.{
  ℕ, zero, suc, ◌+◌, ◌-◌, Bool, true, false, not, ◌&&◌, ◌||◌, Option, none, some, List, [], ◌∷◌,
  ◌++◌, ltb, ◌==◌, if◌then◌else◌, length, Text,
}
use authclaw_mvp.Common.Texts.{same_text}
use authclaw_mvp.Audit.{AuditRecord, Hashing, genesis_hash, compute_stored_hash}
use authclaw_mvp.Audit.Repository.{AuditLogs, list, of_tenant}

pub record ChainScan : Type 0 where
  pub missing_records : List ℕ
  pub tampered_records : List ℕ
  pub chain_breaks : List ℕ
  pub expected_previous_hash : Text
  pub expected_sequence_no : ℕ
  pub total_scanned : ℕ

pub record VerificationReport : Type 0 where
  pub is_valid : Bool
  pub scanned_records : ℕ
  pub missing_records : List ℕ
  pub tampered_records : List ℕ
  pub chain_breaks : List ℕ

abbrev pub range_from : ℕ → ℕ → List ℕ
range_from start zero = []
range_from start (suc n) = start ∷ range_from (suc start) n

-- `range(start, stop)`
abbrev pub range : ℕ → ℕ → List ℕ
range start stop = range_from start (stop - start)

abbrev pub extend_if : Bool → List ℕ → List ℕ → List ℕ
extend_if true more xs = xs ++ more
extend_if false more xs = xs

-- The body of the loop over a page's records.
abbrev pub scan_record : Hashing → AuditRecord → ChainScan → ChainScan
scan_record h r s = record {
  missing_records =
      extend_if (not (r.sequence_no == 0) && ltb s.expected_sequence_no r.sequence_no)
        (range s.expected_sequence_no r.sequence_no) s.missing_records;
  tampered_records =
      extend_if (not (same_text r.integrity_hash (compute_stored_hash h r))) (r.record_id ∷ [])
        s.tampered_records;
  chain_breaks =
      extend_if (not (same_text r.previous_hash s.expected_previous_hash)) (r.record_id ∷ [])
        s.chain_breaks;
  expected_previous_hash = r.integrity_hash;
  expected_sequence_no = (if r.sequence_no == 0 then s.expected_sequence_no else r.sequence_no) + 1;
  total_scanned = s.total_scanned + 1;
}

abbrev pub scan : Hashing → AuditLogs → ChainScan → ChainScan
scan h [] s = s
scan h (r ∷ rs) s = scan h rs (scan_record h r s)

abbrev pub last_record : AuditRecord → AuditLogs → AuditRecord
last_record r [] = r
last_record r (x ∷ xs) = last_record x xs

abbrev pub reverse : AuditLogs → AuditLogs
reverse [] = []
reverse (r ∷ rs) = reverse rs ++ r ∷ []

-- The test for a page in descending order, which also asks for two records.
abbrev pub is_descending : AuditRecord → AuditRecord → Bool
is_descending first last =
    ltb last.sequence_no first.sequence_no
    || (first.sequence_no == last.sequence_no
        && last.sequence_no == 0
        && ltb last.created_at first.created_at)

abbrev pub ascending : AuditLogs → AuditLogs
ascending [] = []
ascending (r ∷ []) = r ∷ []
ascending (r ∷ x ∷ xs) =
    if is_descending r (last_record x xs) then reverse (r ∷ x ∷ xs) else r ∷ x ∷ xs

-- The `while True` loop, which stops at the first empty page.
abbrev pub verify_pages : Hashing → ℕ → ℕ → ℕ → ℕ → AuditLogs → ChainScan → Option ChainScan
verify_pages h tenant limit zero offset logs s = none
verify_pages h tenant limit (suc fuel) offset logs s =
    let page = list tenant limit offset logs in
    let rest = verify_pages h tenant limit fuel (offset + limit) logs (scan h (ascending page) s) in
    if length page == 0 then some s else rest

abbrev pub initial_scan : ChainScan
initial_scan = record {
  missing_records = [];
  tampered_records = [];
  chain_breaks = [];
  expected_previous_hash = genesis_hash;
  expected_sequence_no = 1;
  total_scanned = 0;
}

abbrev pub report_of : ChainScan → VerificationReport
report_of s = record {
  is_valid =
      length s.missing_records == 0 && length s.tampered_records == 0 && length s.chain_breaks == 0;
  scanned_records = s.total_scanned;
  missing_records = s.missing_records;
  tampered_records = s.tampered_records;
  chain_breaks = s.chain_breaks;
}

abbrev pub map_report : Option ChainScan → Option VerificationReport
map_report none = none
map_report (some s) = some (report_of s)

abbrev pub page_limit : ℕ
page_limit = 10000

-- The body of `verify_tenant_chain`, for a page size.
unfoldable pub verify_chain_by : ℕ → Hashing → ℕ → AuditLogs → Option VerificationReport
verify_chain_by limit h tenant logs =
    map_report
      (verify_pages h tenant limit (suc (length (of_tenant tenant logs))) 0 logs initial_scan)

abbrev pub verify_tenant_chain : Hashing → ℕ → AuditLogs → Option VerificationReport
verify_tenant_chain = verify_chain_by page_limit
