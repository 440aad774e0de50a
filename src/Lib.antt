-- ===== src/Lib.antt =====
-- Verification of the GLIP backend (src/glip): the settings, the idempotency ledger of external
-- calls, the ORKIO client, invitations, projects, BIM jobs, drafts with their approvals and
-- memory, logins and sessions, and pricing.
--
-- A request handler is an action on a session, which holds the committed tables and its own
-- working copy; `commit` and `rollback` are as in SQLAlchemy, and what a handler changed is lost
-- when it raises before its commit. A table is a list of records, newest first; an id is a
-- number, and 0 stands for the empty text. Texts that the code inspects are lists of character
-- codes. Times are microseconds, money is cents, quantities, whose columns have scale six, are
-- counted in millionths, and the hours of a fee in units of any power of ten. An error of the
-- code is a value: an HTTP status with its detail, a violated unique index, a failure with its
-- code, or an exception that nothing catches.
--
-- The files:
--   * Prelude: results, sessions and actions, texts, integers, and the lemmas on tables.
--   * Idempotency (src/glip/integration_idempotency.py): `Execution` is a row of
--     integration_executions. `commit_new_or_recover_winner`, `acquire_execution_lease`,
--     `finalize_execution_if_owner` and `fail_execution_if_owner` are the operations of the same
--     names. Workers share the table: Steps has one step per operation, with any arguments and
--     any clock, and `Reach` is a sequence of them; what other workers commit between the update
--     and the reload of a lease is a parameter of `acquire_execution_lease`. Others has the
--     steps while one token takes no lease. Where an insertion breaks several constraints, which
--     one the database names is its choice; `violated` names the idempotency key first. A new
--     row has new random ids, so the key is the one constraint that a submission meets.
--   * Drafts (src/glip/services.py, and the routes of src/glip/routes.py that commit its work):
--     Approval has the versions, requests and decisions, Memory the promotion of a candidate to
--     a fact, Once any number of promotions. SHA-256 is a parameter. Drafts are separate from
--     Idempotency for now: `create_draft`, which uses both, is not modelled.
--   * Auth (src/glip/native_auth.py): Identity has the checks of an identity and of a password,
--     Login `authenticate_native` with its lockout, Sessions the acceptance and revocation of
--     sessions. Key derivation, base64, the digest of a token and the token are parameters.
--   * Config (src/glip/config.py): `Settings` and its validation, in the order of the tests. The
--     backoff between calls is an integer, since its sign is not checked.
--   * Orkio (src/glip/integrations/orkio): Request and Response have the contract, on the JSON
--     values of Json; Client has the circuit breaker and `draft`. A run is a value: its outcome,
--     the circuit that it leaves, the calls made and the pauses between them. What the i-th call
--     gets is a parameter, as are the clock's readings.
--   * Invitations (src/glip/admin_routes.py, src/glip/invitation_routes.py): Issue has the
--     creation and revocation of invitations with the hourly bucket of the tenant, Activate the
--     acceptance, which writes the tables of Auth. A tenant's lock makes each creation one step.
--   * Projects (src/glip/authz.py and src/glip/routes.py): Authz has the roles, Body and Create
--     the creation with its idempotency key, Edit and Change the update, archival and
--     restoration. What other requests commit between the search for the key and the flush is a
--     parameter of `create_project`; Calls serves any sequence of requests.
--   * Bim (src/glip/bim/service.py): Queue has the queue and its leases, Extraction the
--     processing of a claimed job. The storage and the IFC engine are parameters.
--   * Pricing (src/glip/pricing/service.py, sources.py and routes.py): Sources has the registry,
--     Snapshots the submission and approval of price sources, Mappings those of quantities,
--     Estimates and Fees the two estimates and the cost ledger. Service runs them as the routes
--     do, with the check of the project, the commit and the rollback.
--
-- There is no fuel: the loops of the code run over a list, or, in the ORKIO client, down from
-- the number of attempts.
--
-- Not modelled: the CAD, geometry and image queues, artifacts, chat, the read-only routes, and
-- the columns of a table that are only stored. The web framework, the database engine and the
-- JSON parser are outside; an isolated SQL statement is one atomic step.
pub mod Prelude
pub mod Idempotency
pub mod Drafts
pub mod Pricing
pub mod Auth
pub mod Bim
pub mod Config
pub mod Invitations
pub mod Orkio
pub mod Projects
