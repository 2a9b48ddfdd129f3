-- ===== src/Lib.antt =====
-- NafasHR evaluates the people of a company. An evaluation record goes through a chain of approvals
-- (a unit supervisor scores it, human resources, a deputy and the chief executive pass it on), under
-- rules and questions that are versioned, with a log whose rows are linked by hashes. This library
-- models the core of the backend, the services and the endpoints that change evaluation records.
--
-- The parts, with the code that each models (paths are from the root of the repository):
-- - Model: the tables and enumerations of backend/app/models and the state of a request. `Db` holds
--   the tables, `Case` the record that a request has locked beside them, `Env` the clock, the digest,
--   the random token and the configured channels of one request.
-- - Web: an endpoint is a function from the state to an answer or a raised error. A raised error
--   rolls the transaction back, so it carries no state.
-- - Audit: backend/app/services/audit.py, `log_event` and `verify_chain`; Audit/Chain and
--   Audit/Tamper are about the chain of hashes.
-- - Modules: backend/app/core/modules.py. Delivery, Notifications: backend/app/services/delivery.py
--   and notifications.py: what the workflow enqueues with every transition, and Delivery/Sweep, the sweep
--   that sends it.
-- - Window: backend/app/services/evaluation_window.py, the deadline of a record.
-- - Guards: backend/app/services/self_evaluation.py.
-- - Workflow: backend/app/services/workflow.py. Roles and Table are the table of transitions and its
--   check, Apply is `apply_transition`, Effects and Advance say what it does, Diagram is the state
--   diagram of each path of a record.
-- - Framework, Scheme: backend/app/services/indicator_framework.py and scoring_scheme.py, the versions
--   of the questions and of the rules; Scheme/Editor is backend/app/api/routers/scoring_schemes.py.
-- - Scoring: backend/app/services/evaluation.py and `finalize_scoring` of workflow.py.
-- - Cases: backend/app/api/routers/evaluations.py and backend/app/services/snapshot.py. Open, Chain,
--   Scores, Comments and Owners are the endpoints, one function each; Deeds makes all requests for one
--   record one type, and Deeds/Reach the steps that any sequence of them takes. Chain/Accounts has
--   the accounts that make the requests, and Chain/Completion the approvals one after another.
-- - Auth: backend/app/services/login_guard.py (Attempts), sessions.py (Sessions), and Login, the
--   endpoints of backend/app/api/routers/auth.py with `get_current_user` of backend/app/api/deps.py;
--   Tokens is backend/app/core/security.py. Such an endpoint may commit and then refuse, so it
--   gives the tables beside its answer.
-- - Bulk: backend/app/services/bulk_evaluation.py, and Bulk/Request the two endpoints of
--   backend/app/api/routers/periods.py that call it. What other requests commit between the rounds of
--   a run is an argument.
-- - SelfAssessment: backend/app/services/self_assessment.py, and SelfAssessment/Submit the endpoints
--   of backend/app/api/routers/me.py for the own form; SelfAssessment/Own are those that acknowledge
--   a result and object to it.
-- - Periods: the endpoints of backend/app/api/routers/periods.py that open, change, delete and close a
--   period. Periods/Sound, and Scheme/Fixed for the editor of schemes, make such requests one type.
-- - Scheduled: the sweeps of backend/app/services/scheduled.py over contracts and records.
-- - Samples: a small company on which the theorems are run in the Tests modules.
--
-- Requests come one after another: the code locks the row of the record and the head of the log for
-- the time of a request. In between, other requests change the other tables, the step `elsewhere`.
-- Everything is by recursion on lists, so that nothing runs out of fuel; the sweep of the outbox counts
-- down the candidates that it reads and the rows that it takes, as the code's limits do.
--
-- Parameters, for what is not code of the repository: SHA-256 after `json.dumps` (`Env.digest`, of the
-- dict that `_canonical` builds), the arithmetic of floats with the rounding of the columns
-- (`FloatOps`), the clock, the random token, PyJWT, argon2 and the lower case of Unicode (`TokenOps`),
-- what a channel answers to a message (`SendOutcome`). Dates are numbers of days, percentages of
-- hundredths, hashes the numbers that they write. Of the labels and messages only the reason is kept.
--
-- Not modelled: the other sweeps and the lock of the scheduler, the endpoints of indicators, the
-- preview of a scheme, the grants of capabilities, improvement plans, the channels that send, the
-- administration of master data, reports, documents, the migrations and the frontend.
pub mod Prelude
pub mod Model
pub mod Samples
pub mod Web
pub mod Auth
pub mod Bulk
pub mod SelfAssessment
pub mod Scheduled
pub mod Periods
pub mod Audit
pub mod Modules
pub mod Delivery
pub mod Window
pub mod Guards
pub mod Notifications
pub mod Workflow
pub mod Framework
pub mod Scheme
pub mod Scoring
pub mod Cases
