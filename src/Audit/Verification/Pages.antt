-- ===== src/Audit/Verification/Pages.antt =====
-- The loop of verify_tenant_chain over the pages of a table.
pub mod Links
pub mod Written
use authclaw_mvp.Common.{
  ℕ, zero, suc, ◌+◌, ◌-◌, ◌≤◌, ◌<◌, min, ◌≡◌, refl, sym, ap, subst, ◌∙◌, Bool, true, false, not,
  ◌&&◌, ◌||◌, Option, none, some, List, [], ◌∷◌, ◌++◌, ltb, ◌==◌, if◌then◌else◌, length, take, drop,
  length-append, length-take, length-drop, take-append-drop, append-nil, Text, arith, Bool-cases,
  ◌⊎◌, inl, inr,
}
use mathlib.Core.List.{Perm, perm_middle}
use mathlib.Core.List.Perm
use authclaw_mvp.Audit.{AuditRecord, Hashing}
use authclaw_mvp.Audit.Repository.{AuditLogs, of_tenant, comes_before, insert, descending, list}
use authclaw_mvp.Audit.Verification.{
  ChainScan, VerificationReport, scan_record, scan, last_record, reverse, is_descending, ascending,
  verify_pages, initial_scan, report_of, map_report, page_limit, verify_tenant_chain,
  verify_chain_by,
}

choose_length :
    (b : Bool) (xs ys : AuditLogs) {n : ℕ}
    → length xs ≡ n
    → length ys ≡ n
    → length (if b then xs else ys) ≡ n
choose_length true xs ys hx hy = hx
choose_length false xs ys hx hy = hy

length-insert : (r : AuditRecord) (rs : AuditLogs) → length (insert r rs) ≡ suc (length rs)
length-insert r [] = refl
length-insert r (x ∷ xs) =
    choose_length (comes_before x r) (x ∷ insert r xs) (r ∷ x ∷ xs) (ap suc (length-insert r xs))
      refl

pub length-descending : (rs : AuditLogs) → length (descending rs) ≡ length rs
length-descending [] = refl
length-descending (r ∷ rs) = length-insert r (descending rs) ∙ ap suc (length-descending rs)

length-reverse : (rs : AuditLogs) → length (reverse rs) ≡ length rs
length-reverse [] = refl
length-reverse (r ∷ rs) = length-append (reverse rs) (r ∷ []) ∙ omega (arith, length-reverse rs)

pub length-ascending : (rs : AuditLogs) → length (ascending rs) ≡ length rs
length-ascending [] = refl
length-ascending (r ∷ []) = refl
length-ascending (r ∷ x ∷ xs) =
    choose_length (is_descending r (last_record x xs)) (reverse (r ∷ x ∷ xs)) (r ∷ x ∷ xs)
      (length-reverse (r ∷ x ∷ xs)) refl

scan_total :
    (h : Hashing) (rs : AuditLogs) (s : ChainScan)
    → (scan h rs s).total_scanned ≡ s.total_scanned + length rs
scan_total h [] s = omega arith
scan_total h (r ∷ rs) s = scan_total h rs (scan_record h r s) ∙ omega arith

pub length-list :
    (tenant limit offset : ℕ) (logs : AuditLogs)
    → length (list tenant limit offset logs) ≡ min limit (length (of_tenant tenant logs) - offset)
length-list tenant limit offset logs =
    length-take limit (drop offset (descending (of_tenant tenant logs)))
    ∙ ap (min limit) (
        length-drop offset (descending (of_tenant tenant logs))
        ∙ ap (λ n. n - offset) (length-descending (of_tenant tenant logs)))

drop-nil : (n : ℕ) → drop {A = AuditRecord} n [] ≡ []
drop-nil zero = refl
drop-nil (suc n) = refl

drop-drop : (n k : ℕ) (rs : AuditLogs) → drop k (drop n rs) ≡ drop (n + k) rs
drop-drop zero k rs = let same : k ≡ 0 + k = omega arith in ap (λ m. drop m rs) same
drop-drop (suc n) k [] = drop-nil k ∙ sym (drop-nil (suc n + k))
drop-drop (suc n) k (r ∷ rs) =
    let same : suc (n + k) ≡ suc n + k = omega arith in
    drop-drop n k rs ∙ ap (λ m. drop m (r ∷ rs)) same

drop_all : (n : ℕ) (rs : AuditLogs) → length rs ≤ n → drop n rs ≡ []
drop_all zero [] h = refl
drop_all zero (r ∷ rs) h = absurd (omega (arith, h))
drop_all (suc n) [] h = refl
drop_all (suc n) (r ∷ rs) h = drop_all n rs (omega (arith, h))

choose_perm :
    (b : Bool) {xs ys zs : AuditLogs} → Perm xs zs → Perm ys zs → Perm (if b then xs else ys) zs
choose_perm true px py = px
choose_perm false px py = py

insert-perm : (r : AuditRecord) (rs : AuditLogs) → Perm (insert r rs) (r ∷ rs)
insert-perm r [] = Perm.refl (r ∷ [])
insert-perm r (x ∷ xs) =
    choose_perm (comes_before x r) (Perm.trans (Perm.cons x (insert-perm r xs)) (Perm.swap r x xs))
      (Perm.refl (r ∷ x ∷ xs))

descending-perm : (rs : AuditLogs) → Perm (descending rs) rs
descending-perm [] = Perm.nil
descending-perm (r ∷ rs) =
    Perm.trans (insert-perm r (descending rs)) (Perm.cons r (descending-perm rs))

reverse-perm : (rs : AuditLogs) → Perm (reverse rs) rs
reverse-perm [] = Perm.nil
reverse-perm (r ∷ rs) =
    Perm.trans (perm_middle (reverse rs) [])
      (Perm.cons r (subst (λ t. Perm t rs) (sym (append-nil (reverse rs))) (reverse-perm rs)))

ascending-perm : (rs : AuditLogs) → Perm (ascending rs) rs
ascending-perm [] = Perm.nil
ascending-perm (r ∷ []) = Perm.refl (r ∷ [])
ascending-perm (r ∷ x ∷ xs) =
    choose_perm (is_descending r (last_record x xs)) (reverse-perm (r ∷ x ∷ xs))
      (Perm.refl (r ∷ x ∷ xs))

-- Records that are cut into pages, in order; the records of a page, each once and in some order, are
-- scanned from the state `s` on, then those of the next page, up to the state `t`.
pub data InPages (h : Hashing) (limit : ℕ) : AuditLogs → ChainScan → ChainScan → Type 0 where
  done : (s : ChainScan) → InPages h limit [] s s
  page :
      (first ordered : AuditLogs) {more : AuditLogs} {s t : ChainScan}
      → length first ≤ limit
      → Perm ordered first
      → InPages h limit more (scan h ordered s) t
      → InPages h limit (first ++ more) s t

-- A loop with enough fuel ends, and has then scanned every row from its offset on, page by page.
unfoldable pub Ended : Hashing → ℕ → ℕ → ℕ → ℕ → AuditLogs → ChainScan → Type 0
Ended h tenant limit fuel offset logs s =
    (t : ChainScan) × (verify_pages h tenant limit fuel offset logs s ≡ some t)
    × (t.total_scanned ≡ s.total_scanned + (length (of_tenant tenant logs) - offset))
    × InPages h limit (drop offset (descending (of_tenant tenant logs))) s t

first_page :
    (h : Hashing) (limit offset : ℕ) (rows : AuditLogs) {s t : ChainScan}
    → length (take limit (drop offset rows)) ≤ limit
    → InPages h limit
        (drop (offset + limit) rows)
        (scan h (ascending (take limit (drop offset rows))) s)
        t
    → InPages h limit (drop offset rows) s t
first_page h limit offset rows {s} {t} le rest =
    let first = take limit (drop offset rows) in
    subst (λ x. InPages h limit x s t) (take-append-drop limit (drop offset rows))
      (InPages.page first (ascending first) le (ascending-perm first) (
        subst (λ x. InPages h limit x (scan h (ascending first) s) t)
          (sym (drop-drop offset limit rows)) rest))

pub pages_end :
    (h : Hashing) (tenant limit fuel offset : ℕ) (logs : AuditLogs) (s : ChainScan)
    → 0 < limit
    → length (of_tenant tenant logs) - offset < fuel
    → Ended h tenant limit fuel offset logs s
unfolding Ended
pages_end h tenant limit zero offset logs s positive enough = absurd (omega (arith, enough))
pages_end h tenant limit (suc fuel) offset logs s positive enough =
    let rows = descending (of_tenant tenant logs) in
    let page = list tenant limit offset logs in
    let next = scan h (ascending page) s in
    let counted = length-list tenant limit offset logs in
    let scanned =
      scan_total h (ascending page) s ∙ ap (λ n. s.total_scanned + n) (length-ascending page) in
    elim (Bool-cases (length page == 0)) [
      | inl stop ↦
          (let none_left : length page ≡ 0 = ground arith in
            (
              s,
              ap
                  (λ b.
                    if b
                    then some s
                    else verify_pages h tenant limit fuel (offset + limit) logs next)
                  stop,
              omega (arith, counted, none_left, positive),
              subst (λ x. InPages h limit x s s)
                  (sym (
                    drop_all offset rows (
                      omega (
                        arith,
                        length-descending (of_tenant tenant logs),
                        counted,
                        none_left,
                        positive,
                      ))))
                  (done s),
            ))
      | inr more ↦
          (let some_left : 0 < length page = ground arith in
            let (t, runs, total, pages) =
              pages_end h tenant limit fuel (offset + limit) logs next positive
                (omega (arith, counted, some_left, enough, positive)) in
            (
              t,
              ap
                    (λ b.
                      if b
                      then some s
                      else verify_pages h tenant limit fuel (offset + limit) logs next)
                    more
                  ∙ runs,
              omega (arith, total, scanned, counted, some_left),
              first_page h limit offset rows (omega (arith, length-take limit (drop offset rows)))
                  pages,
            ))
    ]

-- What a verification of a chain that ends has scanned: the tenant's rows, each once, page by page.
unfoldable pub ScannedOnce : Hashing → ℕ → AuditLogs → ChainScan → Type 0
ScannedOnce h tenant logs t =
    (rows : AuditLogs) × Perm rows (of_tenant tenant logs)
    × InPages h page_limit rows initial_scan t

-- The verification of a tenant's chain always ends, whatever the table holds. Its report is that of a
-- scan of all the tenant's rows, each of them once, in pages of at most the limit, and it counts them.
pub verify_tenant_chain-scans :
    (h : Hashing) (tenant : ℕ) (logs : AuditLogs)
    → (t : ChainScan) × (verify_tenant_chain h tenant logs ≡ some (report_of t))
      × (t.total_scanned ≡ length (of_tenant tenant logs))
      × ScannedOnce h tenant logs t
unfolding verify_chain_by Ended ScannedOnce
verify_tenant_chain-scans h tenant logs =
    let rows = of_tenant tenant logs in
    let (t, runs, total, pages) =
      pages_end h tenant page_limit (suc (length rows)) 0 logs initial_scan (omega arith)
        (omega arith) in
    (t, ap map_report runs, omega (arith, total), (descending rows, descending-perm rows, pages))
