-- ===== src/Lib.antt =====
-- The control plane of an AI gateway (apps/api/app): the streaming path that parses, redacts and
-- scans the text of a model, the policy evaluator that decides what a request may carry, the
-- workflow that approves and executes remediations of findings, the audit chain, the limits of a
-- tenant's plan, and the breaker around the connectors.
--
-- Streaming/Sse.antt models SseParser of apps/api/app/core/engine/sse_parser.py: the record
-- SseParser is its fields, `feed`, `flush` and the helpers are its methods; Feed, Chunks, Split and
-- Loop hold the proofs. The loop of `feed` runs on fuel, one more than the length of the buffer,
-- which suffices since a round takes a character. Characters are code points; `str.isspace`,
-- `isdigit` and `int` are the parameter Characters.
-- Streaming/Redaction.antt models StreamingRedactionStateMachine of
-- apps/api/app/core/engine/streaming_state_machine.py, an action for each method; a raise keeps
-- what was written before it. Actions is about raises, Consume, Window and Accepts about single
-- calls, Stream about whole texts.
-- Streaming/Buffer.antt models StreamingBuffer of apps/api/app/core/detection/streaming_buffer.py,
-- whose scan is a parameter.
-- Streaming/Gateway.antt models stream_response of apps/api/app/core/engine/streaming.py, which
-- puts the parser, the machine and the limiter of RateLimit together; its scan and the JSON of a
-- chunk are parameters, and the reader takes all that is yielded. Gateway/Contents,
-- Gateway/Collected and Gateway/Released hold the proofs, with Redaction/Unended.
-- Policy.antt, with its proofs in Blocking and Keywords, models EmbeddedPolicyEvaluator
-- (apps/api/app/core/policy/evaluator.py) and the classifier that it calls
-- (apps/api/app/core/detection/classification.py). Case mapping is a parameter.
-- Remediation.antt holds the rows of apps/api/app/models/remediation.py and the session: tables,
-- events handed to the producer, clock, and supplies of identifiers and nonces.
-- Remediation/Machine.antt models RemediationStateMachine
-- (apps/api/app/services/remediation_state_machine.py), and
-- Remediation/Approval.antt with its children Service and Binding models RemediationApprovalService
-- (apps/api/app/services/remediation_approval_service.py), which calls the machine to move plans.
-- An operation is an action on the session that may raise; what it wrote stays written in the
-- session, and the caller's commit or rollback is not modelled. Identifiers, times, digests and
-- nonces are numbers. ApiSafety.antt is `sanitize_text` of apps/api/app/services/api_safety.py,
-- with Python's regular expressions as parameters. The proofs stand in Machine/Validation and
-- Machine/Transitions, in Approval/Authorization, Approval/Granting and Approval/Expiry, and in
-- Binding/SingleUse and Binding/Bound.
-- Remediation/WorkerToken.antt models WorkerTokenService
-- (apps/api/app/services/worker_token_service.py) over its store in memory, with the digest as a
-- parameter; the default store, in Redis, which drops a token by itself when its time to live is
-- over, is not modelled. Remediation/Execution.antt and its children Jobs and Run model
-- RemediationExecutionService (apps/api/app/services/remediation_execution_service.py): its world
-- is the session, the jobs and results, the token store and Redis, and it calls the approval
-- service, the state machine, the token service and the limiter. Run/Effects says what a run leaves
-- alone, Run/Slot is about the limiter, Run/Once about the approval, Run/Eligible about the guards.
-- RateLimit.antt models the plans of apps/api/app/core/rate_limit/plans.py, and
-- RateLimit/Limiter.antt TenantPlanLimiter of apps/api/app/core/rate_limit/tenant_limiter.py over
-- RateLimit/Redis.antt, counters with times to live whose calls may raise; its clock stands still
-- within an operation, a run of a job and a stream. Limiter/Held and Limiter/Balance are about one
-- operation, Limiter/Concurrency about sequences of them.
-- Audit.antt models the record's hash and checks (apps/api/app/core/events/audit_hash.py,
-- apps/api/app/core/audit/integrity.py), Audit/Repository.antt the queries of
-- ClickHouseAuditRepository (apps/api/app/core/audit/repository.py) and
-- append_canonical_audit_record, and Audit/Verification.antt HashVerificationService
-- (apps/api/app/core/audit/verification.py), and Audit/ChainProof.antt ChainProofService
-- (apps/api/app/core/audit/chain_proof.py). SHA-256, JSON and the texts of identifiers and times
-- are the parameter Hashing; times are microseconds, and a row keeps the milliseconds that its
-- column keeps (infrastructure/clickhouse/migrations/001_initial_audit_log.sql). The loop over
-- pages runs on fuel, one more than the tenant's rows, which suffices since a page that is not the
-- last holds a row. Repository/Chain, Pages, Pages/Links, Pages/Written and ChainProof/Generated
-- hold the proofs.
-- Breaker.antt models CircuitBreaker of apps/api/app/services/connectors/resiliency.py. Its two
-- locked blocks are separate steps, so that calls interleave.
-- Common.antt and its children hold what the others share: tests, lists, tables, and the actions
-- with the rule that an action keeps a predicate.
--
-- Not modelled: HTTP, database and broker clients, the digests of envelopes, event fields that
-- repeat rows, dry runs and the sandbox, the request limits, the audit packages and the repository
-- on Postgres, the requests of the gateway around the streaming path and its scan, and the web
-- application and SDKs.
pub mod Common
pub mod ApiSafety
pub mod Audit
pub mod Breaker
pub mod Policy
pub mod RateLimit
pub mod Remediation
pub mod Streaming
