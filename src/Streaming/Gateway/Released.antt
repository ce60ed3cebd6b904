-- ===== src/Streaming/Gateway/Released.antt =====
-- What the gateway releases is the scan of the whole answer.
use authclaw_mvp.Common.{
  ℕ, ◌*◌, max, ◌≡◌, refl, subst, Bool, true, false, List, [], ◌∷◌, leb, if◌then◌else◌, Text, Result,
  ok, err, arith, ok-injective,
}
use authclaw_mvp.Streaming.Redaction.{Machine, join, new}
use authclaw_mvp.RateLimit.{TenantPlanLimits}
use authclaw_mvp.RateLimit.Redis.{Redis}
use authclaw_mvp.RateLimit.Limiter.{acquire_stream}
use authclaw_mvp.Streaming.Redaction.{InitError, window_too_small, StreamingState}
use authclaw_mvp.Streaming.Gateway.{
  Scan, sanitized, blocked, scan_failed, Yield, released, upstream_error, provider_failed, done_sse,
  Outcome, fresh, start_stream, release_scanned, after_collect, run_stream, answer, admitted,
  stream_response, GatewayLibrary, Upstream, StreamFault, Pipe, collect,
}
use authclaw_mvp.Streaming.Gateway.Contents.{Ready, taken}
use authclaw_mvp.Streaming.Gateway.Collected.{delta_text, collect-delta_text}

made_ok :
    (b : Bool) (x : Machine) {m : Machine}
    → ◌≡◌ {A = Result InitError Machine} (if b then err window_too_small else ok x) (ok m)
    → x ≡ m
made_ok true x h = absurd (ground arith)
made_ok false x h = ok-injective h

new-Ready :
    (m : Machine) (look_behind look_ahead size : ℕ)
    → new look_behind look_ahead size ≡ ok m
    → Ready m × (join m.segments ≡ [])
unfolding new join
new-Ready m look_behind look_ahead size h =
    let empty : Machine = record {
      look_behind = look_behind;
      look_ahead = look_ahead;
      max_window = size;
      segments = [];
      buffered_chars = 0;
      state = StreamingState.initial;
      sequence = 0;
      end_seen = false;
    } in
    let same = made_ok (leb size (max look_behind look_ahead)) empty h in
    subst (λ x. Ready x × (join x.segments ≡ [])) same
      ((record { counted = refl; fits = omega arith; at_rest = refl }, tt, refl), refl)

-- Of what is yielded, each text that is released is one that `P` holds of, with its number of entities.
abbrev pub OnlyReleases : (Text → ℕ → Type 0) → List Yield → Type 0
OnlyReleases P [] = Unit
OnlyReleases P (released text count ∷ ys) = P text count × OnlyReleases P ys
OnlyReleases P (_ ∷ ys) = OnlyReleases P ys

released_by_scan :
    (scan : Scan) (seen : ℕ)
    → OnlyReleases (λ text count. scan ≡ sanitized text count) (release_scanned scan seen).0
unfolding release_scanned
released_by_scan (blocked reason) seen = tt
released_by_scan scan_failed seen = tt
released_by_scan (sanitized [] n) seen = tt
released_by_scan (sanitized (c ∷ cs) n) seen = (refl, tt)

-- The scan of a text that `r` returned, if it did, is what is released after `r`.
released_after :
    (lib : GatewayLibrary) (r : Result StreamFault Text) (p : Pipe) (whole : Text)
    → ((raw : Text) → r ≡ ok raw → raw ≡ whole)
    → OnlyReleases
        (λ text count. lib.security whole ≡ sanitized text count)
        (after_collect lib (r, p)).0
unfolding after_collect
released_after lib (ok raw) p whole h =
    subst
      (λ t.
        OnlyReleases (λ text count. lib.security t ≡ sanitized text count)
          (release_scanned (lib.security raw) p.chunks_seen).0)
      (h raw refl) (released_by_scan (lib.security raw) p.chunks_seen)
released_after lib (err e) p whole h = tt

released_stream :
    (lib : GatewayLibrary) (up : Upstream) (look_behind look_ahead size : ℕ)
    (r : Result InitError Machine)
    → new look_behind look_ahead size ≡ r
    → OnlyReleases
        (λ text count. lib.security (delta_text lib up) ≡ sanitized text count)
        (start_stream lib up r).0
unfolding start_stream
released_stream lib up look_behind look_ahead size (err e) made = tt
released_stream lib up look_behind look_ahead size (ok m) made =
    let (ready, nothing) = new-Ready m look_behind look_ahead size made in
    let (r, p) = collect lib up (fresh m) in
    released_after lib r p (delta_text lib up)
      (λ raw returned. collect-delta_text lib up m ready nothing (λ i. (returned i, p)))

choose_released :
    (P : Text → ℕ → Type 0) (b : Bool) (run : Outcome)
    → OnlyReleases P run.0
    → OnlyReleases P (if b then (upstream_error ∷ done_sse ∷ [], provider_failed ∷ []) else run).0
choose_released P true run h = tt
choose_released P false run h = h

admitted_released :
    (P : Text → ℕ → Type 0) (b : Bool) (run : Outcome) (tenant api_key : ℕ) (redis : Redis)
    → OnlyReleases P run.0
    → OnlyReleases P (admitted b run tenant api_key redis).0.0
admitted_released P true run tenant api_key redis h = h
admitted_released P false run tenant api_key redis h = tt

-- Nothing of a model's answer is released but what the scan of the whole answer returned: wherever a
-- text stands in what is yielded, the scan of all the contents, in order and joined, returned this text.
pub stream_response-scanned :
    (lib : GatewayLibrary) (limits : TenantPlanLimits) (tenant api_key window_size : ℕ)
    (up : Upstream) (redis : Redis)
    → OnlyReleases
        (λ text count. lib.security (delta_text lib up) ≡ sanitized text count)
        (stream_response lib limits tenant api_key window_size up redis).0.0
unfolding stream_response answer run_stream
stream_response-scanned lib limits tenant api_key window_size up redis =
    let (decision, taken) = acquire_stream limits tenant api_key redis in
    let size = max window_size 20 * 1024 in
    let P = λ (text : Text) (count : ℕ). lib.security (delta_text lib up) ≡ sanitized text count in
    admitted_released P decision.allowed (answer lib window_size up) tenant api_key taken (
      choose_released P (leb 400 up.status_code) (start_stream lib up (new 64 64 size))
        (released_stream lib up 64 64 size (new 64 64 size) refl))
