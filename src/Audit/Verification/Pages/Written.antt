-- ===== src/Audit/Verification/Pages/Written.antt =====
-- The verification of what append_canonical_audit_record wrote.
use authclaw_mvp.Common.{
  some-injective, All, All-append, ℕ, zero, suc, ◌+◌, ◌≤◌, ◌<◌, ◌≡◌, ◌≢◌, refl, sym, ap, subst, ◌∙◌,
  Bool, true, false, some, [], ◌∷◌, ◌++◌, append_assoc, append-nil, ◌==◌, if◌then◌else◌, length,
  take, length-take, Text, arith, Bool-cases, inl, inr,
}
use authclaw_mvp.Audit.{AuditRecord, Hashing, genesis_hash, or_default, is_empty}
use authclaw_mvp.Audit.Repository.{AuditEntry, AuditLogs, of_tenant, hash_of_first, list}
use authclaw_mvp.Audit.Repository.Chain.{
  Linked, Reachable, IsWhole, IsHashed, descending-Linked, Reachable-Linked, Reachable-Hashed,
}
use authclaw_mvp.Audit.Verification.{
  ChainScan, VerificationReport, scan, last_record, reverse, is_descending, ascending, verify_pages,
  initial_scan, report_of, map_report, page_limit, verify_tenant_chain, verify_chain_by,
}
use authclaw_mvp.Audit.Verification.Pages.{
  verify_tenant_chain-scans, length-ascending, pages_end, Ended,
}
use authclaw_mvp.Audit.Verification.Pages.Links.{
  Intact, is_clean, after, scan-Intact, verify_tenant_chain-Intact,
}

hash_default : (t : Text) → is_empty t ≡ false → or_default (some t) genesis_hash ≡ t
hash_default [] h = absurd (ground arith)
hash_default (c ∷ cs) h = refl

after_next : (r : AuditRecord) (n m : ℕ) → r.sequence_no ≡ suc n → after m r ≡ suc (suc n)
after_next r n m h = ground (arith, h)

-- The records of a chain, oldest first, before records that continue it.
Linked-Intact :
    (h : Hashing) (rs more : AuditLogs)
    → Linked (IsHashed h) rs
    → Intact h (or_default (hash_of_first rs) genesis_hash) (suc (length rs)) more
    → Intact h genesis_hash 1 (reverse rs ++ more)
Linked-Intact h [] more l intact = intact
Linked-Intact h (r ∷ rs) more l intact =
    let next =
      subst (λ t. Intact h t (suc (suc (length rs))) more) (hash_default r.integrity_hash l.3)
        intact in
    let first : Intact h (or_default (hash_of_first rs) genesis_hash) (suc (length rs)) (r ∷ more) =
      (
        omega (arith, l.0),
        l.1,
        l.2,
        subst (λ n. Intact h r.integrity_hash n more)
            (sym (after_next r (length rs) (suc (length rs)) l.0)) next,
      ) in
    subst (Intact h genesis_hash 1) (sym (append_assoc (reverse rs) (r ∷ []) more))
      (Linked-Intact h rs (r ∷ more) l.4 first)

last_sequence :
    (Q : AuditRecord → Type 0) (r : AuditRecord) (rs : AuditLogs)
    → Linked Q (r ∷ rs)
    → (last_record r rs).sequence_no ≡ 1
last_sequence Q r [] l = l.0
last_sequence Q r (x ∷ xs) l = last_sequence Q x xs l.4

ascending-Linked :
    (Q : AuditRecord → Type 0) (rs : AuditLogs) → Linked Q rs → ascending rs ≡ reverse rs
ascending-Linked Q [] l = refl
ascending-Linked Q (r ∷ []) l = refl
ascending-Linked Q (r ∷ x ∷ xs) l =
    let first = l.0 in
    let last = last_sequence Q x xs l.4 in
    let test : is_descending r (last_record x xs) ≡ true = ground (arith, first, last) in
    ap (λ b. if b then reverse (r ∷ x ∷ xs) else r ∷ x ∷ xs) test

module _ (h : Hashing) (digest_nonempty : (t : Text) → is_empty (h.sha256 t) ≡ false) where
  -- Whatever calls of append_canonical_audit_record wrote with times of whole milliseconds, for any
  -- tenants and in any order, is reported valid for each tenant, with all of its rows scanned, while it
  -- has at most a page of rows.
  pub append-verify :
      (logs : AuditLogs) (tenant : ℕ)
      → Reachable h IsWhole logs
      → length (of_tenant tenant logs) ≤ page_limit
      → (r : VerificationReport) × (verify_tenant_chain h tenant logs ≡ some r)
        × (r.is_valid ≡ true)
        × (r.scanned_records ≡ length (of_tenant tenant logs))
  append-verify logs tenant path le =
      let rows = of_tenant tenant logs in
      let l = Reachable-Hashed h digest_nonempty logs path tenant in
      let order =
        ap ascending (descending-Linked (IsHashed h) rows l)
        ∙ ascending-Linked (IsHashed h) rows l
        ∙ sym (append-nil (reverse rows)) in
      let intact = subst (Intact h genesis_hash 1) (sym order) (Linked-Intact h rows [] l tt) in
      let (r, runs, valid) = verify_tenant_chain-Intact h tenant logs le in
      let (t, runs', scanned, pages) = verify_tenant_chain-scans h tenant logs in
      (
        r,
        runs,
        valid.1 intact,
        ap (λ x. x.scanned_records) (some-injective (sym runs ∙ runs')) ∙ scanned,
      )

late_take :
    (Q : AuditRecord → Type 0) (n : ℕ) (rs : AuditLogs)
    → Linked Q rs
    → n < length rs
    → All (λ r. 1 < r.sequence_no) (take n rs)
late_take Q zero rs l lt = tt
late_take Q (suc n) [] l lt = tt
late_take Q (suc n) (r ∷ rs) l lt =
    (omega (arith, l.0, lt), late_take Q n rs l.4 (omega (arith, lt)))

All-reverse : (P : AuditRecord → Type 0) (rs : AuditLogs) → All P rs → All P (reverse rs)
All-reverse P [] a = tt
All-reverse P (r ∷ rs) a = All-append P (reverse rs) (r ∷ []) (All-reverse P rs a.1) (a.0, tt)

All-if :
    (P : AuditRecord → Type 0) (b : Bool) (xs ys : AuditLogs)
    → All P xs
    → All P ys
    → All P (if b then xs else ys)
All-if P true xs ys ax ay = ax
All-if P false xs ys ax ay = ay

All-ascending : (P : AuditRecord → Type 0) (rs : AuditLogs) → All P rs → All P (ascending rs)
All-ascending P [] a = tt
All-ascending P (r ∷ []) a = a
All-ascending P (r ∷ x ∷ xs) a =
    All-if P (is_descending r (last_record x xs)) (reverse (r ∷ x ∷ xs)) (r ∷ x ∷ xs)
      (All-reverse P (r ∷ x ∷ xs) a) a

late_broken :
    (h : Hashing) (previous : Text) (rs : AuditLogs)
    → 0 < length rs
    → All (λ r. 1 < r.sequence_no) rs
    → Intact h previous 1 rs
    → ⊥
late_broken h previous [] positive late intact = omega (arith, positive)
late_broken h previous (r ∷ rs) positive late intact = omega (arith, late.0, intact.0)

-- A loop that ends with nothing reported had nothing reported before.
clean_before :
    (h : Hashing) (tenant limit fuel offset : ℕ) (logs : AuditLogs) (s t : ChainScan)
    → verify_pages h tenant limit fuel offset logs s ≡ some t
    → is_clean t ≡ true
    → is_clean s ≡ true
clean_before h tenant limit zero offset logs s t runs clean = absurd (ground arith)
clean_before h tenant limit (suc fuel) offset logs s t runs clean =
    let page = list tenant limit offset logs in
    let next = scan h (ascending page) s in
    let rest = verify_pages h tenant limit fuel (offset + limit) logs next in
    elim (Bool-cases (length page == 0)) [
      | inl stop ↦
          (let same : s ≡ t =
              some-injective (sym (ap (λ b. if b then some s else rest) stop) ∙ runs) in
            ap is_clean same ∙ clean)
      | inr more ↦
          (let goes_on = sym (ap (λ b. if b then some s else rest) more) ∙ runs in
            (scan-Intact h (ascending page) s
              (clean_before h tenant limit fuel (offset + limit) logs next t goes_on clean)).0)
    ]

nonzero_test : (n : ℕ) → 0 < n → (n == 0) ≡ false
nonzero_test n h = ground (arith, h)

-- The first page of a longer chain holds its last records, so the scan does not start at the first one.
first_page_broken :
    (h : Hashing) (tenant limit : ℕ) (logs : AuditLogs) (t : ChainScan)
    → Linked (λ _. Unit {0}) (of_tenant tenant logs)
    → 0 < limit
    → limit < length (of_tenant tenant logs)
    → verify_pages h tenant limit (suc (length (of_tenant tenant logs))) 0 logs initial_scan
      ≡ some t
    → is_clean t ≢ true
first_page_broken h tenant limit logs t l positive longer runs clean =
    let rows = of_tenant tenant logs in
    let page = list tenant limit 0 logs in
    let newest : take limit rows ≡ page =
      ap (take limit) (sym (descending-Linked (λ _. Unit {0}) rows l)) in
    let late =
      subst (All (λ r. 1 < r.sequence_no)) newest (late_take (λ _. Unit {0}) limit rows l longer) in
    let counted : length page ≡ limit =
      ap length (sym newest) ∙ length-take limit rows ∙ omega (arith, longer) in
    let next = scan h (ascending page) initial_scan in
    let more : (length page == 0) ≡ false =
      nonzero_test (length page) (omega (arith, counted, positive)) in
    let goes_on =
      sym (
        ap
          (λ b.
            if b
            then some initial_scan
            else verify_pages h tenant limit (length rows) (0 + limit) logs next)
          more)
      ∙ runs in
    let (start, intact) =
      scan-Intact h (ascending page) initial_scan
        (clean_before h tenant limit (length rows) (0 + limit) logs next t goes_on clean) in
    late_broken h genesis_hash (ascending page)
      (omega (arith, length-ascending page, counted, positive))
      (All-ascending (λ r. 1 < r.sequence_no) page late) intact

module _ (h : Hashing) (digest_nonempty : (t : Text) → is_empty (h.sha256 t) ≡ false) where
  -- Rows that append_canonical_audit_record wrote for a tenant, from whatever entries and more of them
  -- than a page, are reported invalid, with any page size.
  pub longer_than_a_page-invalid :
      (P : AuditEntry → Type 0) (limit : ℕ) (logs : AuditLogs) (tenant : ℕ)
      → Reachable h P logs
      → 0 < limit
      → limit < length (of_tenant tenant logs)
      → (r : VerificationReport) × (verify_chain_by limit h tenant logs ≡ some r)
        × (r.is_valid ≡ false)
  unfolding verify_chain_by Ended
  longer_than_a_page-invalid P limit logs tenant path positive longer =
      let (t, runs, total, pages) =
        pages_end h tenant limit (suc (length (of_tenant tenant logs))) 0 logs initial_scan positive
          (omega arith) in
      let broken =
        first_page_broken h tenant limit logs t
          (Reachable-Linked h digest_nonempty P logs path tenant) positive longer runs in
      (
        report_of t,
        ap map_report runs,
        elim (Bool-cases (is_clean t)) [ inl clean ↦ absurd (broken clean) | inr dirty ↦ dirty ],
      )
