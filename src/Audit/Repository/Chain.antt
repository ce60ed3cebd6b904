-- ===== src/Audit/Repository/Chain.antt =====
-- What append_canonical_audit_record writes is a chain for each tenant.
use authclaw_mvp.Common.{
  ℕ, suc, ◌%◌, ◌≡◌, refl, sym, ap, subst, ◌∙◌, Bool, true, false, not, Option, none, some, [], ◌∷◌,
  ◌++◌, map, ◌==◌, if◌then◌else◌, length, Text, codes, Result, ok, err, arith,
}
use authclaw_mvp.Common.Texts.{same_text, same_text_refl, lookup}
use authclaw_mvp.Audit.{
  AuditRecord, Metadata, Hashing, genesis_hash, or_default, normalize_audit_value, undotted,
  normalize_event_type, is_action, known_action, normalize_action, value_or, set_item,
  event_type_or, compute_audit_hash, compute_canonical_record_hash, compute_stored_hash, id_or_none,
  AuditIntegrityError, is_empty, validate_canonical_record, previous_hash_required,
  integrity_hash_required, integrity_hash_mismatch,
}
use authclaw_mvp.Audit.Repository.{
  AuditLogs, of_tenant, comes_before, insert, descending, hash_of_first, get_latest_hash,
  max_sequence, get_latest_sequence_no, stored_time, as_row, AuditEntry, unsigned_record, signed,
  append_canonical_audit_record,
}

module _ (Q : AuditRecord → Type 0) where
  -- The rows of a tenant, last first, are numbered from 1, `Q` holds of each, and each names the hash
  -- before it.
  abbrev pub Linked : AuditLogs → Type 0
  Linked [] = Unit
  Linked (r ∷ rs) =
      (r.sequence_no ≡ suc (length rs))
      × (r.previous_hash ≡ or_default (hash_of_first rs) genesis_hash)
      × Q r
      × (is_empty r.integrity_hash ≡ false)
      × Linked rs

  max_sequence-length : (rs : AuditLogs) → Linked rs → max_sequence rs ≡ length rs
  max_sequence-length [] l = refl
  max_sequence-length (r ∷ rs) l = omega (arith, max_sequence-length rs l.4, l.0)

  insert_newest : (r : AuditRecord) (rs : AuditLogs) → Linked (r ∷ rs) → insert r rs ≡ r ∷ rs
  insert_newest r [] l = refl
  insert_newest r (x ∷ xs) l =
      let before : comes_before x r ≡ false = ground (arith, l.0, l.4.0) in
      ap (λ b. if b then x ∷ insert r xs else r ∷ x ∷ xs) before

  pub descending-Linked : (rs : AuditLogs) → Linked rs → descending rs ≡ rs
  descending-Linked [] l = refl
  descending-Linked (r ∷ rs) l = ap (insert r) (descending-Linked rs l.4) ∙ insert_newest r rs l

-- Every table that calls of the function with entries that `P` holds of, for any tenants and in any
-- order, build from the empty one.
pub data Reachable (h : Hashing) (P : AuditEntry → Type 0) : AuditLogs → Type 0 where
  start : Reachable h P []
  step :
      {logs : AuditLogs} (e : AuditEntry)
      → P e
      → Reachable h P logs
      → Reachable h P (append_canonical_audit_record h e logs).1

-- The time of an entry is one that the table keeps.
abbrev pub IsWhole : AuditEntry → Type 0
IsWhole e = e.created_at % 1000 ≡ 0

-- The hash of a row is the one that the verification computes of it.
abbrev pub IsHashed : Hashing → AuditRecord → Type 0
IsHashed h r = r.integrity_hash ≡ compute_stored_hash h r

whole_stored : (n : ℕ) → n % 1000 ≡ 0 → stored_time n ≡ n
whole_stored n h = omega (arith, h)

-- A value that is written is read back.
pick :
    (b : Bool) (key value k v : Text) (rest changed : Metadata)
    → same_text key k ≡ b
    → lookup key changed ≡ some value
    → lookup key (if b then (k, value) ∷ rest else (k, v) ∷ changed) ≡ some value
pick true key value k v rest changed e ih = ap (λ b. if b then some value else lookup key rest) e
pick false key value k v rest changed e ih =
    ap (λ b. if b then some v else lookup key changed) e ∙ ih

lookup-set_item : (key value : Text) (m : Metadata) → lookup key (set_item key value m) ≡ some value
lookup-set_item key value [] = ap (λ b. if b then some value else none) (same_text_refl key)
lookup-set_item key value ((k, v) ∷ rest) =
    pick (same_text key k) key value k v rest (set_item key value rest) refl
      (lookup-set_item key value rest)

undotted-undotted : (c : ℕ) → undotted (undotted c) ≡ undotted c
undotted-undotted c = ground arith

map-undotted : (t : Text) → map undotted (map undotted t) ≡ map undotted t
map-undotted [] = refl
map-undotted (c ∷ cs) = λ i. undotted-undotted c i ∷ map-undotted cs i

chosen_action :
    (a : Text) (b : Bool)
    → is_action a ≡ b
    → known_action (if b then a else codes "execute") ≡ (if b then a else codes "execute")
chosen_action a true e = ap (λ b. if b then a else codes "execute") e
chosen_action a false e = refl

known_action_known : (a : Text) → known_action (known_action a) ≡ known_action a
known_action_known a = chosen_action a (is_action a) refl

or_default_stored :
    (o : Option Text) (d : Text) → or_default (some (or_default o [])) d ≡ or_default o d
or_default_stored none d = refl
or_default_stored (some []) d = refl
or_default_stored (some (c ∷ cs)) d = refl

genesis_default : (o : Option Text) → is_empty (or_default o genesis_hash) ≡ false
genesis_default none = refl
genesis_default (some []) = refl
genesis_default (some (c ∷ cs)) = refl

module _ (h : Hashing) (digest_nonempty : (t : Text) → is_empty (h.sha256 t) ≡ false) where
  hash_nonempty : (r : AuditRecord) → is_empty (compute_canonical_record_hash h r) ≡ false
  unfolding compute_audit_hash
  hash_nonempty r = digest_nonempty (
      r.previous_hash
      ++ h.str r.record_id
      ++ h.str r.tenant_id
      ++ id_or_none h r.actor_id
      ++ normalize_event_type (some (event_type_or r.metadata r.action))
      ++ or_default r.resource (codes "system")
      ++ or_default r.resource_id (codes "None")
      ++ normalize_action (some r.action)
      ++ h.dumps r.metadata
      ++ h.isoformat r.created_at)

  abbrev new_record : AuditEntry → AuditLogs → AuditRecord
  new_record e logs = signed h (
      unsigned_record e (or_default (get_latest_hash e.tenant_id logs) genesis_hash)
        (get_latest_sequence_no e.tenant_id logs))

  -- The hash that the verification computes of a row is the one that was signed.
  stored_hash :
      (e : AuditEntry) (previous_hash : Text) (latest : ℕ)
      → IsWhole e
      → compute_stored_hash h (as_row (signed h (unsigned_record e previous_hash latest)))
        ≡ compute_canonical_record_hash h (unsigned_record e previous_hash latest)
  stored_hash e previous_hash latest whole =
      let u = unsigned_record e previous_hash latest in
      let read : event_type_or u.metadata u.action ≡ normalize_event_type e.event_type =
        ap (λ o. value_or o u.action)
          (lookup-set_item (codes "event_type") (normalize_event_type e.event_type) e.metadata) in
      let event_type : event_type_or u.metadata u.action
          ≡ normalize_event_type (some (event_type_or u.metadata u.action)) =
        read
        ∙ sym (map-undotted (normalize_audit_value e.event_type))
        ∙ sym (ap (map undotted) read) in
      let action = sym (known_action_known (normalize_audit_value e.action)) in
      let resource = or_default_stored u.resource (codes "system") in
      let resource_id = or_default_stored u.resource_id (codes "None") in
      let time = whole_stored e.created_at whole in
      λ i.
        compute_audit_hash h previous_hash (h.str e.record_id) (h.str e.tenant_id)
          (id_or_none h e.actor_id) (event_type i) (resource i) (resource_id i) (action i)
          u.metadata (time i)

  abbrev validity : Bool → Bool → Bool → Result AuditIntegrityError (Unit {0})
  validity a b c =
      if a
      then err previous_hash_required
      else if b
      then err integrity_hash_required
      else if not c
      then err integrity_hash_mismatch
      else ok tt

  new_record_valid :
      (e : AuditEntry) (logs : AuditLogs) → validate_canonical_record h (new_record e logs) ≡ ok tt
  new_record_valid e logs =
      let r = new_record e logs in
      let previous = genesis_default (get_latest_hash e.tenant_id logs) in
      let hash = hash_nonempty r in
      let same = same_text_refl r.integrity_hash in λ i. validity (previous i) (hash i) (same i)

  -- The function always returns, and inserts what it returns.
  pub append_canonical_runs :
      (e : AuditEntry) (logs : AuditLogs)
      → append_canonical_audit_record h e logs
        ≡ (ok (new_record e logs), as_row (new_record e logs) ∷ logs)
  unfolding append_canonical_audit_record
  append_canonical_runs e logs = rw (new_record_valid e logs)

  module _ (P : AuditEntry → Type 0) (Q : AuditRecord → Type 0)
      (row_Q : (e : AuditEntry) (previous_hash : Text) (latest : ℕ)
        → P e
        → Q (as_row (signed h (unsigned_record e previous_hash latest)))) where
    -- One more record keeps every tenant's rows linked.
    new_row-Linked :
        (e : AuditEntry) (logs : AuditLogs)
        → P e
        → ((t : ℕ) → Linked Q (of_tenant t logs))
        → Linked Q (as_row (new_record e logs) ∷ of_tenant e.tenant_id logs)
    new_row-Linked e logs p l =
        let rows = of_tenant e.tenant_id logs in
        let counted = max_sequence-length Q rows (l e.tenant_id) in
        (
          omega (arith, counted),
          ap (λ x. or_default (hash_of_first x) genesis_hash)
              (descending-Linked Q rows (l e.tenant_id)),
          row_Q e (or_default (get_latest_hash e.tenant_id logs) genesis_hash)
              (get_latest_sequence_no e.tenant_id logs) p,
          hash_nonempty (new_record e logs),
          l e.tenant_id,
        )

    keep-Linked :
        (e : AuditEntry) (logs : AuditLogs) (t : ℕ) (b : Bool)
        → (e.tenant_id == t) ≡ b
        → P e
        → ((u : ℕ) → Linked Q (of_tenant u logs))
        → Linked Q (if b then as_row (new_record e logs) ∷ of_tenant t logs else of_tenant t logs)
    keep-Linked e logs t true same p l =
        let tenant : e.tenant_id ≡ t = ground arith in
        subst (λ u. Linked Q (as_row (new_record e logs) ∷ of_tenant u logs)) tenant
          (new_row-Linked e logs p l)
    keep-Linked e logs t false other p l = l t

    rows-Linked : (logs : AuditLogs) → Reachable h P logs → (t : ℕ) → Linked Q (of_tenant t logs)
    rows-Linked _ start t = tt
    rows-Linked _ (step {logs} e p path) t =
        subst (λ x. Linked Q (of_tenant t x.1)) (sym (append_canonical_runs e logs))
          (keep-Linked e logs t (e.tenant_id == t) refl p (rows-Linked logs path))

  -- Whatever was appended is numbered and linked.
  pub Reachable-Linked :
      (P : AuditEntry → Type 0) (logs : AuditLogs)
      → Reachable h P logs
      → (t : ℕ) → Linked (λ _. Unit {0}) (of_tenant t logs)
  Reachable-Linked P logs path t =
      rows-Linked P (λ _. Unit {0}) (λ e previous_hash latest p. tt) logs path t

  -- With times that the table keeps, each row has its hash.
  pub Reachable-Hashed :
      (logs : AuditLogs)
      → Reachable h IsWhole logs
      → (t : ℕ) → Linked (IsHashed h) (of_tenant t logs)
  Reachable-Hashed logs path t =
      rows-Linked IsWhole (IsHashed h)
        (λ e previous_hash latest whole. sym (stored_hash e previous_hash latest whole)) logs path t
