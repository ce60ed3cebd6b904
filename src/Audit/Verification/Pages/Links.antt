-- ===== src/Audit/Verification/Pages/Links.antt =====
-- What a report of verify_tenant_chain says of the rows.
use authclaw_mvp.Common.{
  ℕ, zero, suc, ◌+◌, ◌-◌, ◌≤◌, ◌<◌, ◌≡◌, ◌↔◌, refl, sym, ap, ◌∙◌, Bool, true, false, not, ◌&&◌,
  some, List, [], ◌∷◌, ltb, ◌==◌, if◌then◌else◌, length, take, length-append, Text, arith,
  Bool-cases, inl, inr,
}
use authclaw_mvp.Common.Texts.{same_text, same_text→≡, same_text_refl}
use authclaw_mvp.Audit.{AuditRecord, Hashing, genesis_hash, compute_stored_hash}
use authclaw_mvp.Audit.Repository.{AuditLogs, of_tenant, descending, list}
use authclaw_mvp.Audit.Verification.Pages.{length-descending, length-list}
use authclaw_mvp.Audit.Verification.{
  ChainScan, VerificationReport, range_from, range, extend_if, scan_record, scan, ascending,
  verify_pages, initial_scan, report_of, map_report, page_limit, verify_tenant_chain,
  verify_chain_by,
}

-- The sequence number that is expected after a record.
abbrev pub after : ℕ → AuditRecord → ℕ
after n r = (if r.sequence_no == 0 then n else r.sequence_no) + 1

-- Each record skips no number, names the hash before it, and has its own hash.
abbrev pub Intact : Hashing → Text → ℕ → AuditLogs → Type 0
Intact h previous n [] = Unit
Intact h previous n (r ∷ rs) =
    (r.sequence_no ≤ n)
    × (r.previous_hash ≡ previous)
    × (r.integrity_hash ≡ compute_stored_hash h r)
    × Intact h r.integrity_hash (after n r) rs

-- Nothing is reported yet.
abbrev pub is_clean : ChainScan → Bool
is_clean s =
    length s.missing_records == 0 && length s.tampered_records == 0 && length s.chain_breaks == 0

length-range_from : (start n : ℕ) → length (range_from start n) ≡ n
length-range_from start zero = refl
length-range_from start (suc n) = ap suc (length-range_from (suc start) n)

length_extend :
    (b : Bool) (more xs : List ℕ)
    → (length (extend_if b more xs) ≡ 0)
    → 0 < length more
    → (b ≡ false) × (length xs ≡ 0)
length_extend true more xs h positive = absurd (omega (arith, length-append xs more, h, positive))
length_extend false more xs h positive = (refl, h)

length_extend_true :
    (b : Bool) (more xs : List ℕ) → length (extend_if b more xs) ≡ 0 → length xs ≡ 0
length_extend_true true more xs h = omega (arith, length-append xs more, h)
length_extend_true false more xs h = h

extend_false :
    (b : Bool) (more xs : List ℕ) → b ≡ false → length xs ≡ 0 → length (extend_if b more xs) ≡ 0
extend_false true more xs h e = absurd (ground arith)
extend_false false more xs h e = e

no_gap :
    (n m : ℕ) (xs : List ℕ)
    → length (extend_if (not (m == 0) && ltb n m) (range n m) xs) ≡ 0
    → m ≤ n
no_gap n m xs h = elim (Bool-cases (ltb n m)) [
  | inl below ↦
      (let less : n < m = ground arith in
        let (kept, e) =
          length_extend (not (m == 0) && ltb n m) (range n m) xs h
            (omega (arith, length-range_from n (m - n), less)) in
        absurd (ground (arith, kept, below, less)))
  | inr above ↦ ground (arith, above)
]

-- What one record adds to the three lists, for the hash that is computed of it.
abbrev pub reported : Text → AuditRecord → ChainScan → ChainScan
reported computed r s = record s {
  missing_records =
      extend_if (not (r.sequence_no == 0) && ltb s.expected_sequence_no r.sequence_no)
        (range s.expected_sequence_no r.sequence_no) s.missing_records;
  tampered_records =
      extend_if (not (same_text r.integrity_hash computed)) (r.record_id ∷ []) s.tampered_records;
  chain_breaks =
      extend_if (not (same_text r.previous_hash s.expected_previous_hash)) (r.record_id ∷ [])
        s.chain_breaks;
}

-- One record leaves nothing reported exactly when it is in its place and nothing was reported before.
pub record_clean :
    (computed : Text) (r : AuditRecord) (s : ChainScan)
    → is_clean (reported computed r s) ≡ true
    → (is_clean s ≡ true)
      × (r.sequence_no ≤ s.expected_sequence_no)
      × (r.previous_hash ≡ s.expected_previous_hash)
      × (r.integrity_hash ≡ computed)
record_clean computed r s clean =
    let t = reported computed r s in
    let missing : length t.missing_records ≡ 0 = ground arith in
    let tampered : length t.tampered_records ≡ 0 = ground arith in
    let breaks : length t.chain_breaks ≡ 0 = ground arith in
    let same_hash =
      length_extend (not (same_text r.integrity_hash computed)) (r.record_id ∷ [])
        s.tampered_records tampered (omega arith) in
    let same_previous =
      length_extend (not (same_text r.previous_hash s.expected_previous_hash)) (r.record_id ∷ [])
        s.chain_breaks breaks (omega arith) in
    let skips = not (r.sequence_no == 0) && ltb s.expected_sequence_no r.sequence_no in
    let nothing_before =
      length_extend_true skips (range s.expected_sequence_no r.sequence_no) s.missing_records
        missing in
    (
      ground (arith, nothing_before, same_hash.1, same_previous.1),
      no_gap s.expected_sequence_no r.sequence_no s.missing_records missing,
      same_text→≡ r.previous_hash s.expected_previous_hash (ground (arith, same_previous.0)),
      same_text→≡ r.integrity_hash computed (ground (arith, same_hash.0)),
    )

pub clean_record :
    (computed : Text) (r : AuditRecord) (s : ChainScan)
    → is_clean s ≡ true
    → r.sequence_no ≤ s.expected_sequence_no
    → r.previous_hash ≡ s.expected_previous_hash
    → r.integrity_hash ≡ computed
    → is_clean (reported computed r s) ≡ true
clean_record computed r s clean le previous hash =
    let t = reported computed r s in
    let missing =
      extend_false (not (r.sequence_no == 0) && ltb s.expected_sequence_no r.sequence_no)
        (range s.expected_sequence_no r.sequence_no) s.missing_records (ground (arith, le))
        (ground (arith, clean)) in
    let tampered =
      extend_false (not (same_text r.integrity_hash computed)) (r.record_id ∷ []) s.tampered_records
        (ap (λ x. not (same_text r.integrity_hash x)) (sym hash)
          ∙ ap not (same_text_refl r.integrity_hash))
        (ground (arith, clean)) in
    let breaks =
      extend_false (not (same_text r.previous_hash s.expected_previous_hash)) (r.record_id ∷ [])
        s.chain_breaks
        (ap (λ x. not (same_text r.previous_hash x)) (sym previous)
          ∙ ap not (same_text_refl r.previous_hash))
        (ground (arith, clean)) in
    ground (arith, missing, tampered, breaks)

pub scan-Intact :
    (h : Hashing) (rs : AuditLogs) (s : ChainScan)
    → is_clean (scan h rs s) ≡ true
    → (is_clean s ≡ true) × Intact h s.expected_previous_hash s.expected_sequence_no rs
scan-Intact h [] s clean = (clean, tt)
scan-Intact h (r ∷ rs) s clean =
    let (one, rest) = scan-Intact h rs (scan_record h r s) clean in
    let (before, le, previous, hash) = record_clean (compute_stored_hash h r) r s one in
    (before, (le, previous, hash, rest))

pub Intact-scan :
    (h : Hashing) (rs : AuditLogs) (s : ChainScan)
    → is_clean s ≡ true
    → Intact h s.expected_previous_hash s.expected_sequence_no rs
    → is_clean (scan h rs s) ≡ true
Intact-scan h [] s clean intact = clean
Intact-scan h (r ∷ rs) s clean intact =
    Intact-scan h rs (scan_record h r s)
      (clean_record (compute_stored_hash h r) r s clean intact.0 intact.1 intact.2) intact.3

take_all : {A : Type 0} (n : ℕ) (xs : List A) → length xs ≤ n → take n xs ≡ xs
take_all zero [] le = refl
take_all zero (x ∷ xs) le = absurd (omega (arith, le))
take_all (suc n) [] le = refl
take_all (suc n) (x ∷ xs) le = ap (◌∷◌ x) (take_all n xs (omega (arith, le)))

length_zero : (rs : AuditLogs) → length rs ≡ 0 → rs ≡ []
length_zero [] h = refl
length_zero (r ∷ rs) h = absurd (omega (arith, h))

past_the_end :
    (h : Hashing) (tenant limit fuel offset : ℕ) (logs : AuditLogs) (s : ChainScan)
    → 0 < fuel
    → length (of_tenant tenant logs) ≤ offset
    → verify_pages h tenant limit fuel offset logs s ≡ some s
past_the_end h tenant limit zero offset logs s positive le = absurd (omega (arith, positive))
past_the_end h tenant limit (suc fuel) offset logs s positive le =
    let page = list tenant limit offset logs in
    let empty : length page ≡ 0 = omega (arith, length-list tenant limit offset logs, le) in
    let stop : (length page == 0) ≡ true = ground (arith, empty) in
    ap
      (λ b.
        if b
        then some s
        else verify_pages h tenant limit fuel (offset + limit) logs (scan h (ascending page) s))
      stop

-- A chain of at most one page is scanned in ascending order.
pub single_page :
    (h : Hashing) (tenant limit : ℕ) (logs : AuditLogs) (s : ChainScan)
    → length (of_tenant tenant logs) ≤ limit
    → verify_pages h tenant limit (suc (length (of_tenant tenant logs))) 0 logs s
      ≡ some (scan h (ascending (descending (of_tenant tenant logs))) s)
single_page h tenant limit logs s le =
    let rows = of_tenant tenant logs in
    let page = list tenant limit 0 logs in
    let all : page ≡ descending rows =
      take_all limit (descending rows) (omega (arith, length-descending rows, le)) in
    let rest =
      verify_pages h tenant limit (length rows) (0 + limit) logs (scan h (ascending page) s) in
    elim (Bool-cases (length page == 0)) [
      | inl stop ↦
          (let nothing : descending rows ≡ [] = sym all ∙ length_zero page (ground arith) in
            ap (λ b. if b then some s else rest) stop
            ∙ sym (ap (λ x. some (scan h (ascending x) s)) nothing))
      | inr more ↦
          (let counted = length-list tenant limit 0 logs in
            let some_left : 0 < length page = ground arith in
            let filled : 0 < length rows = omega (arith, counted, some_left) in
            ap (λ b. if b then some s else rest) more
            ∙ past_the_end h tenant limit (length rows) (0 + limit) logs (scan h (ascending page) s)
                filled (omega (arith, le))
            ∙ ap (λ x. some (scan h (ascending x) s)) all)
    ]

-- A chain of at most a page of records is reported valid exactly when its records, in the order of the
-- scan, are intact from the genesis hash on.
pub verify_tenant_chain-Intact :
    (h : Hashing) (tenant : ℕ) (logs : AuditLogs)
    → length (of_tenant tenant logs) ≤ page_limit
    → (r : VerificationReport) × (verify_tenant_chain h tenant logs ≡ some r)
      × ((r.is_valid ≡ true)
          ↔ Intact h genesis_hash 1 (ascending (descending (of_tenant tenant logs))))
unfolding verify_chain_by
verify_tenant_chain-Intact h tenant logs le =
    let page = ascending (descending (of_tenant tenant logs)) in
    (
      report_of (scan h page initial_scan),
      ap map_report (single_page h tenant page_limit logs initial_scan le),
      (
        λ valid. (scan-Intact h page initial_scan valid).1,
        λ intact. Intact-scan h page initial_scan refl intact,
      ),
    )
