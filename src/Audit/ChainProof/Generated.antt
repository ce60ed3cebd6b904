-- ===== src/Audit/ChainProof/Generated.antt =====
-- The verification of a proof against the records that it was generated from.
use authclaw_mvp.Common.{
  ℕ, ◌+◌, ◌≤◌, ◌≡◌, ◌↔◌, refl, sym, ap, subst, ◌∙◌, Bool, true, false, not, ◌&&◌, none, some, [],
  ◌∷◌, ◌++◌, map, ◌==◌, if◌then◌else◌, length, Text, Result, ok, err, arith, ok-injective,
}
use authclaw_mvp.Common.Texts.{same_text, same_text_refl}
use authclaw_mvp.Audit.{Hashing, compute_canonical_record_hash}
use authclaw_mvp.Audit.Repository.{AuditLogs}
use authclaw_mvp.Audit.Verification.{ChainScan}
use authclaw_mvp.Audit.Verification.Pages.Links.{is_clean, record_clean, clean_record}
use authclaw_mvp.Audit.ChainProof.{
  ChainProofDocument, ProofError, cross_tenant_record, manifest_digest_mismatch, tenant_mismatch,
  record_count_mismatch, proof_record_order_mismatch, final_integrity_hash_mismatch,
  start_record_id_mismatch, end_record_id_mismatch, order_audit_records, record_contract, all_of,
  of_first, of_last, document_of, generate, error_if, preflight_errors, same_ids, document_errors,
  check_record, check_records, first_scan, result_of, verify,
}

-- Each record skips no number, names the hash before it, and has its own hash.
abbrev pub IntactFrom : Hashing → Text → ℕ → AuditLogs → Type 0
IntactFrom h previous n [] = Unit
IntactFrom h previous n (r ∷ rs) =
    (r.sequence_no ≤ n)
    × (r.previous_hash ≡ previous)
    × (r.integrity_hash ≡ compute_canonical_record_hash h r)
    × IntactFrom h r.integrity_hash (if r.sequence_no == 0 then n else r.sequence_no + 1) rs

check_records-IntactFrom :
    (h : Hashing) (rs : AuditLogs) (s : ChainScan)
    → is_clean (check_records h rs s) ≡ true
    → (is_clean s ≡ true) × IntactFrom h s.expected_previous_hash s.expected_sequence_no rs
check_records-IntactFrom h [] s clean = (clean, tt)
check_records-IntactFrom h (r ∷ rs) s clean =
    let (one, rest) = check_records-IntactFrom h rs (check_record h r s) clean in
    let (before, le, previous, hash) = record_clean (compute_canonical_record_hash h r) r s one in
    (before, (le, previous, hash, rest))

IntactFrom-check_records :
    (h : Hashing) (rs : AuditLogs) (s : ChainScan)
    → is_clean s ≡ true
    → IntactFrom h s.expected_previous_hash s.expected_sequence_no rs
    → is_clean (check_records h rs s) ≡ true
IntactFrom-check_records h [] s clean intact = clean
IntactFrom-check_records h (r ∷ rs) s clean intact =
    IntactFrom-check_records h rs (check_record h r s)
      (clean_record (compute_canonical_record_hash h r) r s clean intact.0 intact.1 intact.2)
      intact.3

same_ids_contracts :
    (h : Hashing) (rs : AuditLogs) → same_ids h (map (record_contract h) rs) rs ≡ true
same_ids_contracts h [] = refl
same_ids_contracts h (r ∷ rs) =
    ap (λ b. b && same_ids h (map (record_contract h) rs) rs) (same_text_refl (h.str r.record_id))
    ∙ same_ids_contracts h rs

==_same : (n : ℕ) → (n == n) ≡ true
==_same n = ground arith

no_error : (b : Bool) (e : ProofError) → b ≡ true → error_if (not b) e ≡ []
no_error true e h = refl
no_error false e h = absurd (ground arith)

no_error_of : (a b : Bool) (e : ProofError) → b ≡ true → error_if (a && not b) e ≡ []
no_error_of true true e h = refl
no_error_of false true e h = refl
no_error_of _ false e h = absurd (ground arith)

module _ (h : Hashing) (tenant : ℕ) (digest : Text) (ordered : AuditLogs)
    (scoped : all_of tenant ordered ≡ true) where
  no_document_errors : document_errors h (document_of h tenant digest ordered) tenant ordered ≡ []
  no_document_errors =
      let first_id = of_first (λ r. h.str r.record_id) ordered in
      let last_id = of_last (λ r. h.str r.record_id) ordered in
      let last_hash = of_last (λ r. r.integrity_hash) ordered in
      let e1 = no_error (tenant == tenant) tenant_mismatch (==_same tenant) in
      let e2 = no_error (all_of tenant ordered) cross_tenant_record scoped in
      let e3 =
        no_error (length ordered == length ordered) record_count_mismatch
          (==_same (length ordered)) in
      let e4 =
        no_error (same_ids h (map (record_contract h) ordered) ordered) proof_record_order_mismatch
          (same_ids_contracts h ordered) in
      let e5 =
        no_error (same_text last_hash last_hash) final_integrity_hash_mismatch
          (same_text_refl last_hash) in
      let e6 =
        no_error_of (not (length ordered == 0)) (same_text first_id first_id)
          start_record_id_mismatch (same_text_refl first_id) in
      let e7 =
        no_error_of (not (length ordered == 0)) (same_text last_id last_id) end_record_id_mismatch
          (same_text_refl last_id) in
      λ i. e1 i ++ e2 i ++ e3 i ++ e4 i ++ e5 i ++ e6 i ++ e7 i

  no_preflight_errors : preflight_errors (document_of h tenant digest ordered) (some digest) ≡ []
  no_preflight_errors =
      no_error (same_text digest digest) manifest_digest_mismatch (same_text_refl digest)

generated_ok :
    (b : Bool) (doc : ChainProofDocument) {p : ChainProofDocument}
    → ◌≡◌ {A = Result ProofError ChainProofDocument}
        (if b then ok doc else err cross_tenant_record)
        (ok p)
    → (b ≡ true) × (doc ≡ p)
generated_ok true doc h = (refl, ok-injective h)
generated_ok false doc h = absurd (ground arith)

verified_document :
    (h : Hashing) (tenant : ℕ) (digest : Text) (records : AuditLogs)
    → all_of tenant (order_audit_records h records) ≡ true
    → verify h
        (document_of h tenant digest (order_audit_records h records))
        records
        none
        (some digest)
      ≡ result_of []
          (check_records h
            (order_audit_records h records)
            (first_scan (of_first (λ r. r.previous_hash) (order_audit_records h records))))
          (length (order_audit_records h records))
unfolding verify
verified_document h tenant digest records scoped =
    let ordered = order_audit_records h records in
    let checked = check_records h ordered (first_scan (of_first (λ r. r.previous_hash) ordered)) in
    let none_before = no_preflight_errors h tenant digest ordered scoped in
    let none_after = no_document_errors h tenant digest ordered scoped in
    λ i.
      if length (none_before i) == 0
      then result_of (none_after i) checked (length ordered)
      else result_of (none_before i) (first_scan []) 0

-- A proof that was generated from records, verified against the same records and the digest it was
-- given, is valid exactly when the records, in their order, are intact from the first one's previous
-- hash and the number 1 on.
pub generate-verify :
    (h : Hashing) (tenant : ℕ) (records : AuditLogs) (digest : Text) {p : ChainProofDocument}
    → generate h tenant records digest ≡ ok p
    → ((verify h p records none (some digest)).chain_valid ≡ true)
      ↔ IntactFrom h p.start_previous_hash 1 (order_audit_records h records)
unfolding generate
generate-verify h tenant records digest run =
    let ordered = order_audit_records h records in
    let (scoped, same) =
      generated_ok (all_of tenant ordered) (document_of h tenant digest ordered) run in
    let start = first_scan (of_first (λ r. r.previous_hash) ordered) in
    let valid = ap (λ x. x.chain_valid) (verified_document h tenant digest records scoped) in
    subst
      (λ x.
        ((verify h x records none (some digest)).chain_valid ≡ true)
        ↔ IntactFrom h x.start_previous_hash 1 ordered)
      same
      (
        λ v. (check_records-IntactFrom h ordered start (sym valid ∙ v)).1,
        λ intact. valid ∙ IntactFrom-check_records h ordered start refl intact,
      )
