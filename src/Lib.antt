-- ===== src/Lib.antt =====
-- A model of the e-KYC platform: identity verification sessions, from creation to a decision.
--
-- The program's parts. The KYC service (app/services/kyc.py) owns a session: it creates one under a
-- policy (app/engines/policy.py) and a regulatory profile (app/engines/orchestrator.py), stores the
-- results of its checks, lets the decision engine (app/engines/decision.py) turn them into a status,
-- and corrects or expires it. Each operation records hash-chained events with the audit engine
-- (app/engines/audit.py) and queues a webhook (app/services/webhooks.py) when the status changes.
-- The OTP engine (app/engines/otp.py) sends and verifies one-time codes behind the rate limiter
-- (app/engines/ratelimit.py) and reports the OTP check to the KYC service.
--
-- The files.
--   Prelude     notation, tests on numbers, lists and dictionaries that all parts share.
--   Json        JSON values and Python floats. Enums, Models: app/models.
--   Env         what comes from outside: settings, floating-point arithmetic, hashlib, hmac, json,
--               secrets, jwt, AES-GCM, HKDF, the signer, the Redis server, the OTP
--               gateway, storage backends, the OCR and face providers, HTTP posts.
--   Exec        operations as functions from a database to a result and a database; an exception is
--               a result. Exec.Keeps and Exec.Triple have one rule for each way to build an operation.
--   Config      app/core/config.py, the validation of production settings.
--   Policy, Decision, Orchestrator, Audit, Webhooks, RateLimit, Otp: the module of app/engines or
--               app/services with that name. Decision.Verdict, Audit.Chain, Audit.Verify,
--               Audit.Tamper, Webhooks.Unique, Otp.Verification and so on hold their theorems.
--   Store       the table of sessions and the row lock (`lock_session` of app/services/kyc.py).
--   Kyc         app/services/kyc.py: Session (consent, creation, authentication), Decide (checks,
--               evaluation, override, expiry), Public (the tenant's view); theorems in Checks,
--               Evaluate, Corrections, Opened and Minimal.
--   Retention   app/services/retention.py: the purge; Chains and Purged hold its theorems.
--   Vault, Storage, Archive: app/services/vault.py, storage.py and archive.py; Vault.Seal has the
--               theorem on sealed blobs.
--   Pdf, Signatures, Evidence: app/services/pdf.py, app/engines/signature_manager.py with signature.py
--               and app/engines/providers/signers.py, app/services/evidence.py; Evidence.Trace and
--               Timestamps follow the steps of a sealing, Sealing and Sealed hold its theorems.
--   Identity, Biometrics: app/engines/identity.py and biometrics.py.
--   Workers     app/workers/tasks.py: the processing tasks; Delivery has webhook deliveries with their
--               signatures, Sweep the reconciliation; theorems in Delivered, Unrecorded and
--               Failures.
--   Asn1, Tsa, Mrz: app/engines/asn1.py (DER encoding), tsa.py (the reader; Tsa.Authorities has the
--               choice of an authority and the tokens, Tsa.Verify their verification) and
--               app/engines/providers/mrz.py (Mrz.Passport has the fields and the search); theorems in
--               Asn1.Numbers, Tsa.RoundTrip, Tsa.Walks, Tsa.Honest, Tsa.Internal, Mrz.Digits,
--               Mrz.Passport.Names and Search.
--   Api         app/api/deps.py; Verification, Sessions and Auth are app/api/v1/verification.py,
--               sessions.py, and tenants.py with auth.py; Documents has the certificate and the
--               documents of sessions.py, Proof is verify.py; Guards, Certificates and Auth.Tokens
--               hold theorems.
--   Providers   app/engines/providers/__init__.py; its child OtpSenders is otp_senders.py. Production and
--               Sends hold their theorems.
--   Client      clients/ekyc/client.py with models.py; Calls has its other calls, Webhook is
--               clients/ekyc/webhook.py; Polling has the theorem on waiting, Certificates the one on
--               the certificates that the platform answers with.
--   Frame       an interface: the writes that have to keep an invariant of the database;
--               History has the databases that any sequence of calls leads to; Appended and
--               Terminal are about the audit log and the status through a history. Tasks and its
--               child Terminal add the calls of the API and the background work to the histories,
--               Anchors the purges, for the signed documents; its children are Proofs, about the proofs of
--               documents, and Logs, about the audit log through purges.
--   Tests       concrete rows, and each property at a concrete input.
--
-- How state corresponds. `Db` of Exec holds the rows of the tables, the limiter's memory, the clock
-- and the tasks handed to the queue. A session object of SQLAlchemy is the row read from `Db`; an
-- assignment to its fields and the flush are `save_session`. The row lock reads the row anew, as
-- `populate_existing` does. What was written before a raise stays in `Db`: a rollback is the
-- caller's. The tasks of Workers and the calls of Api up to their commit run in `transaction`, which
-- rolls back as `db_session` of app/db/session.py does; a history of Frame.History leaves a call that is rolled back out.
--
-- Bounds and fuel. Numbers are unbounded, as in Python; a timestamp is a number of seconds. The only
-- fuel is that of the digits of a number n in some base, n or n + 1, which is more than it has digits,
-- that of the walk over DER elements, the number of bytes, of which every element takes two, and that of
-- a client that waits for a result, one more than the seconds it waits, where a pause takes a second.
--
-- Not modelled: floating-point arithmetic, hashing and JSON printing (parameters), thread locks
-- (each operation is atomic), the file system and the S3 client, OCR and face models (parameters),
-- the stub providers, the admin's reports, backoff times, key material and the loading of certificates, routing, the PDF libraries.
pub mod Prelude
pub mod Json
pub mod Enums
pub mod Models
pub mod Env
pub mod Exec
pub mod Config
pub mod Policy
pub mod Decision
pub mod Audit
pub mod Store
pub mod Orchestrator
pub mod Webhooks
pub mod Kyc
pub mod RateLimit
pub mod Otp
pub mod Frame
pub mod Vault
pub mod Storage
pub mod Archive
pub mod Pdf
pub mod Evidence
pub mod Providers
pub mod Client
pub mod Signatures
pub mod Identity
pub mod Biometrics
pub mod Workers
pub mod Api
pub mod Asn1
pub mod Mrz
pub mod Tsa
pub mod Retention
pub mod Tests
