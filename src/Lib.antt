-- ===== src/Lib.antt =====
-- decisionos: models of the judge, policies, change governance, rollout, lineage, consents, security,
-- metering, payments and cards of the program, with the theorems that make them correct.
--
-- The program is a FastAPI service in Python. A request to POST /judge is signed with a key that the
-- key loader knows, carries a nonce that the replay store has not seen, needs a scope, and gets a
-- judgement; several judges can decide together; calls to outside services go through a circuit
-- breaker, a token bucket and a backoff. Policies decide on requests by rules with priorities, by
-- scopes that the environment grants, and by a map from routes to scopes. Payments go through
-- intents, charges, receipts and refunds, with adapters that settle them by webhooks. What tenants
-- use is metered by events that are taken in once, summed by the hour, held against quotas and rated. The
-- cards of the operations pages are sent as deltas. Changes of a rollout pass a guard: a flag, freeze
-- windows from a signed policy, and a signed break-glass manifest that lifts a freeze; the controller
-- moves a canary through its stages and writes the stage to a signed file. The lineage of data is a
-- graph that is searched in both directions. A pull request that touches policies needs approvals by
-- rules on its files. Signing keys are rotated by a
-- command. Consents are kept by subject in chains of hashes. A breaker turns the redaction of personal data off where it fails or is slow.
--
-- Which file models what:
--   Common           truth tests, lists, Python's int (Int), dict (Dict) and str (Text)
--   Cards/Delta      apps/ops/cache/etag_delta.py
--   Change/PolicyLoader  apps/common/policy_loader.py; Change/BreakGlass, Windows (with Parse) and
--                    Freeze: apps/ops/freeze.py
--   Change/Multisig  scripts/ci/check_multisig.py; Change/Globs: its match_glob
--   Security/PiiBreaker  apps/security/pii_circuit_breaker.py; Machine and Runs: the state machine that it
--                    refines
--   Security/KeyRotation  scripts/ops/key_rotation.py
--   Consent          apps/consent/store.py
--   Rollout/StageFile    apps/experiment/stage_file.py; Rollout/Controller: controller.py there
--   Lineage          apps/lineage/graph.py
--   Judge/Replay     apps/judge/replay_plugins.py, SQLiteReplayStore; Judge/Redis: RedisReplayStore;
--                    Judge/NonceStore: the interface that both fill and the server takes
--   Judge/Keys       apps/judge/crypto.py: Material (entries and secrets), Loader (MultiKeyLoader),
--                    Verify (hmac_sign, verify_with_multikey, verify_signature_safe)
--   Judge/Server     apps/judge/server.py, post_judge, cut at its guards into judge, admit, verify,
--                    timed, headers; within_clock_skew of apps/common/timeutil.py; Evaluated: with
--                    the judgement of Judge/Slo in the place of its parameter
--   Judge/Slo        apps/judge/slo_judge.py, evaluate: Schema (apps/judge/slo_schema.py and what is
--                    read of the evidence), Checks and Blocks (one function for each check)
--   Judge/Quorum     apps/judge/quorum.py, decide; Judge/Quorum/Pool: apps/judge/pool.py
--   Judge/Breaker    apps/judge/backpressure.py, CircuitBreaker: a call is enter, then succeed or
--                    raised, as the lock is taken; Backoff: calculate_backoff_ms
--   Judge/TokenBucket  apps/judge/backpressure.py, TokenBucket
--   Policy/Pep       apps/policy/pep.py
--   Policy/Pdp       apps/policy/pdp.py, with the records of apps/policy/parser.py and store.py
--   Policy/Rbac      apps/policy/rbac_enforce.py
--   Metering/Ingest  apps/metering/schema.py, store.py, ingest.py; Reconcile: watermark.py and
--                    reconcile.py; Quota: apps/limits/quota.py; Rating:
--                    apps/rating/plans.py and engine.py
--   Payments/States  apps/payments/state_machine.py; Models: models.py; Adapters: adapters/;
--                    Receipts: receipts.py and apps/taxes/rules.py; Service: core.py, a method as a
--                    function from a repository to its result, or exception, and the repository that
--                    it leaves
--   Payments/Idempotency  apps/common/idempotency.py
--   Payments/Webhooks     apps/payments/webhooks.py and handle_webhook of
--                    apps/gateway/routers/payments.py
--
-- State is passed explicitly: each operation takes the state and the clock readings that it meets,
-- and gives the state that it leaves, also where it raises. Times are whole numbers of the unit that
-- a file names. The loops are structural but for three on fuel: that of `decimal` in Common/Text is the
-- number itself, which has no more digits than that; that of the search in Lineage is one more
-- than the number of its targets, each of which enters the queue once; and that of `match_glob` in
-- Change/Globs is one more than the number of "}" of the pattern, of which each call takes one.
--
-- Not modelled: hashing, base64, JSON, the validation of pydantic, time zones, `eval` and `fnmatch`,
-- regular expressions, which are parameters; the parser of policies; metrics, logs, files and HTTP; the operations pages,
-- budgets, the other jobs and scripts of the program; and vendor/, a copy of another project.
pub mod Cards
pub mod Change
pub mod Common
pub mod Judge
pub mod Lineage
pub mod Metering
pub mod Policy
pub mod Rollout
pub mod Security
pub mod Consent
pub mod Payments
