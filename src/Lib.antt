-- ===== src/Lib.antt =====
-- Verification of the Python services of the Brasaland platform.
--
-- Parts. Every service takes a bearer token and checks it with packages/auth-verify; the tokens come
-- from services/auth, which keeps the users, the refresh tokens and the locations that a user is
-- assigned to. services/inventory keeps the stock of each location and asks the token for the
-- locations that a request may touch. services/incident-manager keeps the incidents of the branches,
-- whose fields and statuses packages/shared defines.
--   AuthVerify: packages/auth-verify/brasaland_auth_verify (verify.py, deps.py, location_claims.py).
--   Auth: services/auth/auth. Locations is locations.py; Store has the records of types.py and
--     refresh_repository.py, the environment and the errors; Users is repository.py; Tokens is
--     refresh_repository.py; Accounts, Sessions and Service are service.py with security.py. Calls
--     puts the writing calls together, in any order and at any time. Unique, Invariant, Revocation,
--     Reset, Reset/Once, Login, Access and Locations/Canonical prove. Http is services/auth/app.py, with Http/Guards.
--     Demo and Tests run the code on data.
--   Shared: packages/shared/brasaland_shared; Fields and Transitions prove.
--   Incidents: services/incident-manager/incident_manager. Store is repository.py with types.py and
--     models.py, Service is service.py, Mapping is seed_mapping.py with translations.py; Writes,
--     Valid, Statuses, Seeding, Report, Summary and Stuck prove.
--   Inventory: services/inventory. Store is models.py and schemas.py, Orders is routers/inventory.py
--     and dependencies.py; Locations, Stock, Balance and Recorded prove.
--   Rfp: data/pipelines/rfp_intake. Lifecycle is lifecycle.py, Prompt is draft_prompt.py, Evaluators and
--     Patterns are response_evaluators.py, Response is response_graph.py (a worker drafts a section and
--     has it checked), Arbitration is arbitration.py (rules on the numbers of all sections), Orchestration is
--     approval_orchestration.py (the numbers of the sections, the stamps, the final document), Approval is
--     approval_graph.py (a person approves a section). Lifecycle/Order, Prompt/Fences, Prompt/Fenced, Response/Loop,
--     Arbitration/Forced, Orchestration/Stamps and Approval/Ending prove.
--   ProxyTrust: packages/proxy-trust/brasaland_proxy_trust/rate_limit_key.py; Keys proves.
--   Agent: data/pipelines. Guard is guardrails.py: Patterns, Input (the classifiers), Ledger (the
--     sessions), Turns (apply_input_guard), Memories (the answers to a proposal) and Output. Memory is
--     memory_store.py: Patterns, Screen (what is never stored), Audit and Store. The ledger logs what
--     expires to the audit of the memory. Turns/Escalation and Store/Screened prove.
--   Jobs: data/pipelines/job_runner.py. Store has the statements on job_runs, Claims is claim_job, as a
--     whole and statement by statement, with any processes interleaved, Finish is mark_completed and
--     mark_failed. Claims/Rows, Machine, Winner, Alone and Takeover, and Finish/Attempts prove.
--   Base: what the parts share: results, code that reads and writes a state, lists as tables, the
--     methods of Python's `str`, and the interfaces of a document table (TinyDB) and a SQL table.
--
-- Conventions. A function that may raise returns a `Result`; one that also writes the store is an
-- `Action`, and what it wrote before a raise stays written. A datetime is a number of microseconds,
-- the claim `exp` a number of seconds. The times of the sessions and the memory are seconds. The clock is
-- read once in a call of a service. A claim has
-- the type with which the auth service signs it, and a claim that is not there is `none`. The
-- settings in minutes are natural numbers. `int` of a claim reads decimal digits. A quantity of
-- the inventory is a floating point number, known by its bits.
--
-- Parameters. The records `Env`, `Arithmetic`, `Jwt`, `Table`, `SqlTable`, `LogTable`, `JobTable` and `Engine` hold what is outside the
-- repository: the tables of TinyDB and SQLModel with the documented behaviour of each operation, jose,
-- passlib, sha256, token_urlsafe, `str.lower`, `datetime.fromisoformat`, the engine of `re` (a pattern is
-- the text that the source compiles), the arithmetic on floating point numbers, of which nothing is
-- assumed, and the language model of the approvals. jose signs with every key that is not blank; that
-- it refuses a malformed one is left out. `JwtLaws` states what is
-- relied on of signatures, where a theorem needs it.
--
-- Fuel. `decimal n` has fuel n + 1, and each round divides by ten. The rounds of a worker count down
-- from the ITERATION_LIMIT of the source, 3, and the attempts to finish a job are its 3; the approval
-- takes one decision of a person per round.
--
-- Not modelled: request schemas, rate limits, responses and pages of services/auth/app.py,
-- the HTTP layer of services/incident-manager, the listing of orders, the Redis branches of
-- memory_store.py, strip_memory_decision_clause of guardrails.py, the graph of the support agent, the
-- intake graph and the storage of requests for proposals, the sales pipelines, which are pandas data frames, and the other services.
pub mod Base
pub mod AuthVerify
pub mod Auth
pub mod Shared
pub mod Incidents
pub mod Inventory
pub mod Rfp
pub mod Agent
pub mod Jobs
pub mod ProxyTrust
