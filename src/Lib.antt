-- ===== src/Lib.antt =====
-- starter-backend-template: the job queue with its worker, the uploaded files, the users with their
-- tenants and permissions, the settings, the rate limits, the inbound webhooks with their idempotency
-- keys, the refresh tokens and the password reset.
--
-- The program is a FastAPI service. Its services put jobs into Redis; a worker takes them, runs their
-- handlers and retries what fails. Routes check permissions before they call a service. The settings
-- are validated once, when the process starts. An inbound webhook is checked against its signature,
-- begun under an idempotency lock in Redis, stored as an event and answered, and the answer is stored
-- for a repeated request. A refresh token is exchanged for new tokens once; a password reset spends
-- its token and ends the sessions of its user. An access token gives a request its user as long as the
-- row has the token version that it names. A file is stored in the object storage under a key of its
-- tenant and owner and has a row; one that was uploaded past the service is checked by the worker
-- before it is served.
--
-- - Prelude: tests, lists and Python texts as lists of code points. A text that the code only
--   compares with literals is a native string.
-- - Errors: app/core/domain_errors.py, get_error_code of app/core/exception_handlers.py, the other
--   exceptions that the modelled code raises, and results with state; Errors/Chains has their laws.
-- - Permissions: app/core/permissions.py and app/services/permission_service.py.
-- - Queue: app/core/job_queue.py. Queue/Redis is the interface to Redis, Queue/Job the class Job
--   with its JSON form, Queue/Backoff the delay of a retry, Queue/Ops the operations under their
--   names in Python. Queue/Copies, Queue/Conservation and Queue/Batches count the copies of a job.
-- - Worker: handle_job, process_next_job and maybe_run_queue_maintenance of app/worker.py. The try
--   of process_next_job is settle.
-- - Config: the validators of app/core/config.py, in their order; a problem is a constructor in
--   place of its message.
-- - Keys: the interface to single keys of Redis that live for a time.
-- - Webhook: app/core/webhook_security.py (Webhook/Signature), app/services/idempotency_service.py
--   and app/services/webhook_service.py (Webhook/Store), with the proofs beside them.
-- - Accounts: the interface to the rows of users and tenants.
-- - Auth: the login and the refresh tokens of app/services/auth_service.py, app/core/security.py and
--   app/core/redis.py, with the membership test of app/services/tenant_membership_service.py.
-- - Reset: the job that sends a password reset token, the confirmation and the cleanup,
--   app/services/password_reset_service.py; its calls to the audit log and to the cache of the user
--   lists are a sequence in the state.
-- - Tenants: app/services/tenant_service.py and app/api/dependencies/tenant.py.
-- - Users: app/api/dependencies/auth.py (Users/CurrentUser), the operations on one user of
--   app/services/user_service.py with their routes in app/api/routes/users.py (Users/Service), the
--   keyset pages of get_users with app/core/keyset_pagination.py (Users/Listing), and the proofs on
--   them. A field of an update is left out, null or given.
-- - Uploads: app/services/storage_service.py and app/api/routes/files.py (Uploads/Service,
--   Uploads/Access, Uploads/ObjectKeys, Uploads/Spool), the checks of names, types and signatures
--   (Uploads/Validation, Uploads/Content), the scanner and the check of the worker
--   (Uploads/Handlers). Uploads/Stores is the interface to the object storage, the scanner and the
--   rows. Uploads/Lifecycle relates the steps on the rows to the abstract life of a file.
-- - RateLimit: app/api/dependencies/rate_limit.py and app/core/client_ip.py.
-- - Examples: the theorems at concrete inputs, with Redis, a database session and a coding of JSON
--   in memory that meet the interfaces.
--
-- What is not in the repository is a parameter: the Redis commands, the database session, the client
-- of the object storage, the request to the scanner, json, datetime, hmac, sha256 and the case mapping
-- of texts. The hypotheses on them are their documented effects. Times are natural numbers,
-- microseconds in the queue and seconds elsewhere. A command of Redis that fails is not modelled in
-- the queue. A text in a queue whose fields have other JSON types than the class Job names is outside
-- the model: reading it ends in `ill_typed`, where Python builds the job. One call of a service is one
-- step: what two requests do at once is a sequence of such calls. The theorems on the queue and the
-- worker assume that the settings give the three lists different names.
--
-- Loops over lists are structural recursion. The loop of requeue_failed_jobs is recursion on fuel: it
-- starts with the length of the failed queue and one more, and each round takes one item. The loop
-- that spools an upload starts with the length of the file and one more, and each round reads one byte
-- at least. A client that follows the pages of users needs more fuel than there are rows.
--
-- Not modelled: registration, the request of a password reset, the cache of the lists of users and
-- their pages by offset, the listing of tenants, the route of the webhooks, the loop of the worker and
-- the audit log; the schemas, migrations, logging, metrics, email, health checks and command line
-- tools, which are wiring or input and output.
pub mod Prelude
pub mod Errors
pub mod Permissions
pub mod Keys
pub mod Accounts
pub mod Config
pub mod Queue
pub mod Worker
pub mod Webhook
pub mod Auth
pub mod Reset
pub mod Uploads
pub mod RateLimit
pub mod Tenants
pub mod Users
pub mod Examples
