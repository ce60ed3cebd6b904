-- ===== src/Remediation/WorkerToken.antt =====
-- WorkerTokenService of apps/api/app/services/worker_token_service.py, over InMemoryWorkerTokenStore.
-- Raw tokens are numbers in the order of their issue; their digest is the parameter `digest`, and the
-- events and the token's own identifier are left out.
pub mod OneTime
use authclaw_mvp.Common.{
  ℕ, suc, ◌+◌, Bool, true, false, not, ◌&&◌, Option, none, some, ltb, ◌==◌, if◌then◌else◌, Text, ok,
  err,
}
use authclaw_mvp.Common.Exec.{Exec, ◌>>=◌, ◌>>◌, pure, raise, gets, modify, check, when}
use authclaw_mvp.Common.Texts.{same_text}

pub record WorkerTokenScope : Type 0 where
  pub tenant_id : ℕ
  pub worker_type : Text
  pub job_id : Option ℕ
  pub action_type : Text
  pub provider_scope : Option Text
  pub resource_scope : Option Text
  pub one_time : Bool

module _ {A : Type 0} (same : A → A → Bool) where
  abbrev pub same_option : Option A → Option A → Bool
  same_option none none = true
  same_option (some a) (some b) = same a b
  same_option _ _ = false

-- `matches`
unfoldable pub matches : WorkerTokenScope → WorkerTokenScope → Bool
matches s o =
    s.tenant_id == o.tenant_id
    && same_text s.worker_type o.worker_type
    && same_option ◌==◌ s.job_id o.job_id
    && same_text s.action_type o.action_type
    && same_option same_text s.provider_scope o.provider_scope
    && same_option same_text s.resource_scope o.resource_scope

pub record WorkerTokenRecord : Type 0 where
  pub token_hash : ℕ
  pub scope : WorkerTokenScope
  pub expires_at : ℕ
  pub revoked_at : Option ℕ
  pub used_at : Option ℕ

-- The store's dictionary, the clock, and the next raw token.
pub record TokenStore : Type 0 where
  pub records : ℕ → Option WorkerTokenRecord
  pub now : ℕ
  pub next_token : ℕ

pub data TokenFailure : Type 0 where
  token_invalid token_revoked token_expired scope_mismatch token_used : TokenFailure

abbrev pub TokenAction : Type 0 → Type 0
TokenAction = Exec TokenStore TokenFailure

abbrev pub is_set : Option ℕ → Bool
is_set none = false
is_set (some t) = true

-- `put` and `update`
abbrev pub put : WorkerTokenRecord → TokenAction (Unit {0})
put r = modify (λ s. record s { records = λ h. if h == r.token_hash then some r else s.records h })

abbrev pub found : Option WorkerTokenRecord → TokenAction WorkerTokenRecord
found none = raise token_invalid
found (some r) = pure r

abbrev pub with_used : ℕ → WorkerTokenRecord → WorkerTokenRecord
with_used now r = record r { used_at = some now }

-- The tests of `validate_token`, and what it writes, for the record that was read.
pub validate_record :
    WorkerTokenRecord → ℕ → WorkerTokenScope → Bool → TokenAction WorkerTokenRecord
unfolding matches
validate_record r token_hash expected consume = do
  check (not (is_set r.revoked_at)) token_revoked
  now ← gets (λ s. s.now)
  check (not (ltb r.expires_at now)) token_expired
  check (matches r.scope expected) scope_mismatch
  check (not (r.scope.one_time && is_set r.used_at)) token_used
  check (r.token_hash == token_hash) token_invalid
  when (consume && r.scope.one_time) (put (with_used now r))
  pure (if consume && r.scope.one_time then with_used now r else r)

module _ (digest : ℕ → ℕ) (ttl_seconds : ℕ) where
  -- The record that `issue_token` puts.
  abbrev pub issued : WorkerTokenScope → ℕ → ℕ → WorkerTokenRecord
  issued scope raw now = record {
    token_hash = digest raw;
    scope = scope;
    expires_at = now + ttl_seconds;
    revoked_at = none;
    used_at = none;
  }

  unfoldable pub issue_token : WorkerTokenScope → TokenAction ℕ
  issue_token scope = do
    raw ← gets (λ s. s.next_token)
    now ← gets (λ s. s.now)
    modify (λ s. record s { next_token = suc s.next_token })
    put (issued scope raw now)
    pure raw

  unfoldable pub validate_token : ℕ → WorkerTokenScope → Bool → TokenAction WorkerTokenRecord
  unfolding validate_record
  validate_token raw expected consume = do
    read ← gets (λ s. s.records (digest raw))
    r ← found read
    validate_record r (digest raw) expected consume

  revoke_record : Option WorkerTokenRecord → ℕ → TokenAction (Unit {0})
  revoke_record none now = pure tt
  revoke_record (some r) now = put (record r { revoked_at = some now })

  unfoldable pub revoke_token : ℕ → TokenAction (Unit {0})
  unfolding revoke_record
  revoke_token raw = do
    read ← gets (λ s. s.records (digest raw))
    now ← gets (λ s. s.now)
    revoke_record read now
