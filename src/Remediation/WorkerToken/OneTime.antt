-- ===== src/Remediation/WorkerToken/OneTime.antt =====
-- A worker token that was issued validates, and a one-time token does so once.
use authclaw_mvp.Common.{
  ℕ, ◌+◌, ◌≤◌, ◌≡◌, ◌≢◌, refl, sym, ap, ◌∙◌, Bool, true, false, not, ◌&&◌, Option, none, some, ltb,
  ◌==◌, if◌then◌else◌, ok, arith, some-injective, not-true→false,
}
use authclaw_mvp.Common.Exec.{◌>>=◌, ◌>>◌, pure, gets, check, when, check_then_ok, continue}
use authclaw_mvp.Common.Texts.{same_text, same_text_refl}
use authclaw_mvp.Remediation.WorkerToken.{
  WorkerTokenScope, same_option, matches, WorkerTokenRecord, TokenStore, TokenFailure, TokenAction,
  is_set, put, found, with_used, validate_record, issued, issue_token, validate_token,
  token_invalid, token_revoked, token_expired, scope_mismatch, token_used,
}

same_option_refl :
    {A : Type 0} (same : A → A → Bool) (o : Option A)
    → ((a : A) → same a a ≡ true)
    → same_option same o o ≡ true
same_option_refl same none h = refl
same_option_refl same (some a) h = h a

==_refl : (n : ℕ) → (n == n) ≡ true
==_refl n = ground arith

and_intro : {a b : Bool} → a ≡ true → b ≡ true → (a && b) ≡ true
and_intro ha hb = ground (arith, ha, hb)

matches_refl : (s : WorkerTokenScope) → matches s s ≡ true
unfolding matches
matches_refl s =
    and_intro
      (and_intro
        (and_intro
          (and_intro (and_intro (==_refl s.tenant_id) (same_text_refl s.worker_type))
            (same_option_refl ◌==◌ s.job_id ==_refl))
          (same_text_refl s.action_type))
        (same_option_refl same_text s.provider_scope same_text_refl))
      (same_option_refl same_text s.resource_scope same_text_refl)

then_same :
    {A : Type 0} (b : Bool) (e : TokenFailure) (m : TokenAction A) (s : TokenStore)
    → b ≡ true
    → (check b e >> m) s ≡ m s
then_same true e m s h = refl
then_same false e m s h = absurd (ground arith)

not_used : (b : Bool) → not (b && false) ≡ true
not_used true = refl
not_used false = refl

last_ok :
    {A : Type 0} (b : Bool) (m : TokenAction (Unit {0})) (a : A) (s : TokenStore)
    → (m s).0 ≡ ok tt
    → ((when b m >> pure a) s).0 ≡ ok a
last_ok true m a s h = ap (λ r. (continue {S = TokenStore} r (λ _. pure a) (m s).1).0) h
last_ok false m a s h = refl

-- What `validate_record` returns for a record that passes its tests.
abbrev pub consumed : Bool → ℕ → WorkerTokenRecord → WorkerTokenRecord
consumed consume now r = if consume && r.scope.one_time then with_used now r else r

fresh_passes :
    (r : WorkerTokenRecord) (consume : Bool) (s : TokenStore)
    → r.revoked_at ≡ none
    → r.used_at ≡ none
    → s.now ≤ r.expires_at
    → (validate_record r r.token_hash r.scope consume s).0 ≡ ok (consumed consume s.now r)
unfolding validate_record
fresh_passes r consume s unrevoked unused current =
    let last =
      when (consume && r.scope.one_time) (put (with_used s.now r))
      >> pure (consumed consume s.now r) in
    let c5 = check (r.token_hash == r.token_hash) token_invalid >> last in
    let c4 = check (not (r.scope.one_time && is_set r.used_at)) token_used >> c5 in
    let c3 = check (matches r.scope r.scope) scope_mismatch >> c4 in
    ap (λ x. x.0)
      (then_same (not (is_set r.revoked_at)) token_revoked
          (gets (λ x. x.now) >>= λ now.
            check (not (ltb r.expires_at now)) token_expired
            >> (check (matches r.scope r.scope) scope_mismatch
                >> (check (not (r.scope.one_time && is_set r.used_at)) token_used
                    >> (check (r.token_hash == r.token_hash) token_invalid
                        >> (when (consume && r.scope.one_time) (put (with_used now r))
                            >> pure (consumed consume now r))))))
          s (ap (λ o. not (is_set o)) unrevoked)
        ∙ then_same (not (ltb r.expires_at s.now)) token_expired c3 s (ground arith)
        ∙ then_same (matches r.scope r.scope) scope_mismatch c4 s (matches_refl r.scope)
        ∙ then_same (not (r.scope.one_time && is_set r.used_at)) token_used c5 s
            (ap (λ o. not (r.scope.one_time && is_set o)) unused ∙ not_used r.scope.one_time)
        ∙ then_same (r.token_hash == r.token_hash) token_invalid last s (==_refl r.token_hash))
    ∙ last_ok (consume && r.scope.one_time) (put (with_used s.now r)) (consumed consume s.now r) s
        refl

module _ (digest : ℕ → ℕ) (ttl_seconds : ℕ) where
  -- A token that was issued validates for its scope until its expiry, whatever its digest.
  pub issue-validate :
      (scope : WorkerTokenScope) (consume : Bool) (s : TokenStore) (later : ℕ)
      → later ≤ s.now + ttl_seconds
      → ((issue_token digest ttl_seconds scope s).0 ≡ ok s.next_token)
        × ((validate_token digest ttl_seconds s.next_token scope consume
              (record (issue_token digest ttl_seconds scope s).1 { now = later })).0
            ≡ ok (consumed consume later (issued digest ttl_seconds scope s.next_token s.now)))
  unfolding issue_token validate_token
  issue-validate scope consume s later le =
      let r = issued digest ttl_seconds scope s.next_token s.now in
      let after = record (issue_token digest ttl_seconds scope s).1 { now = later } in
      (
        refl,
        ap
              (λ b.
                ((found (if b then some r else s.records (digest s.next_token)) >>= λ x.
                validate_record x (digest s.next_token) scope consume)
                  after).0)
              (==_refl (digest s.next_token))
            ∙ fresh_passes r consume after refl refl le,
      )

-- The write of `validate_record`, and what follows it.
abbrev ending : WorkerTokenRecord → Bool → ℕ → TokenAction WorkerTokenRecord
ending r consume now =
    when (consume && r.scope.one_time) (put (with_used now r)) >> pure (consumed consume now r)

-- A validation that returns has found a token that may still be used, under its own digest.
validate_record_ok :
    (r : WorkerTokenRecord) (token_hash : ℕ) (expected : WorkerTokenScope) (consume : Bool)
    (s : TokenStore) {x : WorkerTokenRecord} {s' : TokenStore}
    → validate_record r token_hash expected consume s ≡ (ok x, s')
    → ((r.scope.one_time && is_set r.used_at) ≡ false)
      × ((r.token_hash == token_hash) ≡ true)
      × (ending r consume s.now s ≡ (ok x, s'))
unfolding validate_record
validate_record_ok r token_hash expected consume s h =
    let last = ending r consume s.now in
    let c5 = check (r.token_hash == token_hash) token_invalid >> last in
    let c4 = check (not (r.scope.one_time && is_set r.used_at)) token_used >> c5 in
    let c3 = check (matches r.scope expected) scope_mismatch >> c4 in
    let c2 = gets (λ x. x.now) >>= λ now.
    check (not (ltb r.expires_at now)) token_expired
    >> (check (matches r.scope expected) scope_mismatch
        >> (check (not (r.scope.one_time && is_set r.used_at)) token_used
            >> (check (r.token_hash == token_hash) token_invalid >> ending r consume now))) in
    let (unrevoked, h1) = check_then_ok (not (is_set r.revoked_at)) token_revoked c2 s h in
    let (current, h2) = check_then_ok (not (ltb r.expires_at s.now)) token_expired c3 s h1 in
    let (scope, h3) = check_then_ok (matches r.scope expected) scope_mismatch c4 s h2 in
    let (fresh, h4) =
      check_then_ok (not (r.scope.one_time && is_set r.used_at)) token_used c5 s h3 in
    let (own, h5) = check_then_ok (r.token_hash == token_hash) token_invalid last s h4 in
    (not-true→false (r.scope.one_time && is_set r.used_at) fresh, own, h5)

ending_writes :
    (r : WorkerTokenRecord) (b : Bool) (now : ℕ) (result : WorkerTokenRecord) (s : TokenStore)
    {x : WorkerTokenRecord} {s' : TokenStore}
    → b ≡ true
    → (when b (put (with_used now r)) >> pure result) s ≡ (ok x, s')
    → s'.records r.token_hash ≡ some (with_used now r)
ending_writes r true now result s b h =
    ap (λ x. x.1.records r.token_hash) (sym h)
    ∙ ap (λ c. if c then some (with_used now r) else s.records r.token_hash) (==_refl r.token_hash)
ending_writes r false now result s b h = absurd (ground arith)

module _ (digest : ℕ → ℕ) (ttl_seconds : ℕ) where
  found_then_ok :
      (o : Option WorkerTokenRecord) (f : WorkerTokenRecord → TokenAction WorkerTokenRecord)
      (s : TokenStore) {x r : WorkerTokenRecord} {s' : TokenStore}
      → o ≡ some r
      → (found o >>= f) s ≡ (ok x, s')
      → f r s ≡ (ok x, s')
  found_then_ok none f s e h = absurd (ground arith)
  found_then_ok (some a) f s e h = ap (λ y. f y s) (sym (some-injective e)) ∙ h

  -- A token for one use is used once: after a validation that consumed it has returned, none returns,
  -- for any scope, whether it consumes or not.
  pub validate_token-once :
      (raw : ℕ) (expected expected' : WorkerTokenScope) (consume : Bool) (s : TokenStore)
      {r x y : WorkerTokenRecord} {s' s'' : TokenStore}
      → s.records (digest raw) ≡ some r
      → r.scope.one_time ≡ true
      → validate_token digest ttl_seconds raw expected true s ≡ (ok x, s')
      → validate_token digest ttl_seconds raw expected' consume s' ≢ (ok y, s'')
  unfolding validate_token
  validate_token-once raw expected expected' consume s {r = r} {s' = s'} stored one_time first
        again =
      let first_run =
        found_then_ok (s.records (digest raw)) (λ a. validate_record a (digest raw) expected true) s
          stored first in
      let (fresh, own, end) = validate_record_ok r (digest raw) expected true s first_run in
      let hash : r.token_hash ≡ digest raw = ground arith in
      let written =
        ending_writes r (true && r.scope.one_time) s.now (consumed true s.now r) s one_time end in
      let second_run =
        found_then_ok (s'.records (digest raw))
          (λ a. validate_record a (digest raw) expected' consume) s'
          (ap s'.records (sym hash) ∙ written) again in
      let (unused, own', end') =
        validate_record_ok (with_used s.now r) (digest raw) expected' consume s' second_run in
      let used : (r.scope.one_time && true) ≡ true = ap (λ b. b && true) one_time in
      ground (arith, used, unused)
