-- ===== src/Lib.antt =====
-- Burkham Wickmont Operations Console: a model of the console's control plane, the part that decides
-- whether an action may happen and records that it did, and of the billing and workflow services
-- behind it.
--
-- The parts and how they interact. Every action goes through the middleware chain, which asks the
-- other parts in a fixed order: who the actor is (identity), whether the tenant is the actor's own
-- (tenancy), whether the level suffices (identity over core's tables), whether the client may be
-- acted for (clients, Do Not Fund, conduct, Firewall), whether the jurisdiction allows the content
-- (regulatory); it then appends the action's event to the Event Ledger and scans the content
-- (scanner). A transition of a client's state to Fail lists the client for Do Not Fund, which is what
-- the chain's gate then reads. Billing and the workflow packages are services that run behind such
-- actions. A playbook is a graph of nodes, validated when it is published; an instance of it is
-- started by hand, by the scheduler or by the listener for an event, and the engine moves it from
-- node to node: each tick reclaims, escalates, reminds, claims tasks from the queue and executes
-- them, where decision points evaluate predicates and waits are parked until the listener resumes
-- them.
--
-- The files and the code that each is about, by its path in the repository:
--   Prelude          shared tests and lemmas on numbers, lists and texts (no code of its own)
--   Core             packages/core/src/outcome.ts, authority.ts, compliance.ts, events.ts
--   Identity         packages/identity/src/index.ts: findActor is find_actor, decideAuthority is
--                    decide_authority; rateLimit.ts is Identity/RateLimit
--   Tenancy          packages/tenancy/src/index.ts: assertSameTenant
--   Clients          packages/clients/src/index.ts: find is find_client, and Clients/Transition is
--                    transitionComplianceState
--   Firewall         packages/firewall/src/index.ts: status, trigger, clear and evaluate are
--                    firewall_status, trigger, clear_firewall and evaluate_gate
--   Risk             packages/risk/src/listings.ts (Risk/Listings) and gate.ts (Risk/Gate)
--   Scanner          packages/scanner/src/index.ts: scanText, scanForTenant
--   Middleware       packages/middleware/src/index.ts: the function `chain`, one definition for each
--                    of its seven steps, over the monad of Middleware/Steps
--   Ledger           packages/ledger/src/index.ts: append, read, verifyIntegrity
--   Billing          packages/billing/src/money.ts (Money), credit.ts (Credit), refunds.ts (Refunds)
--   Workflow         packages/workflow/src, with a module for each of its files:
--                    predicate.ts is Predicate, queue.ts is Queue, playbook.ts is Playbook (validate,
--                    isValid), definition.ts is in Instances, scheduler.ts is Scheduler
--                    (schedulerPass, nextOccurrence), listener.ts is Listener (fireTrigger,
--                    resolveWaits) and ListenerPass (listenerPass). engine.ts is Instances
--                    (publishPlaybook, start, enqueueNode), Engine (executeTask, advanceTo,
--                    recordFailure), Tick (tick) and Resume (resolveEventWait,
--                    completeExternalTask), over the tables of State
--   Tests            the theorems at concrete inputs
--
-- How the code is modelled. The database is a record of lists of rows and an operation takes it and
-- gives the new one; a query is a filter over a list, and an `update` or an `upsert` on a unique
-- column rewrites its row. Identifiers are numbers, which the code only compares and orders, and a
-- new row's identifier is an argument. Times are epoch milliseconds. An `Outcome` is a data type with
-- one constructor for each reason of a refusal, in place of its text; a rejected promise is the value
-- `threw`, or `reject` in the chain. The chain carries its trace and the Ledger's events from step to
-- step, and an argument says which appends are accepted, so a Ledger that fails is covered. The engine
-- has no transaction: a call gives the tables that it leaves whether its promise is fulfilled or
-- rejected, and the events and notifications that it wrote are part of them. Elsewhere an append is
-- taken to succeed, and the event is part of the result; of an event's payload only the figures are
-- kept, since nothing but the signature reads it.
--
-- Bounds. Amounts are non-negative whole cents, and a task's priority, backoff and maximum are natural
-- numbers, which the source does not check. The products of Money are exact while they stay below
-- 2^53, and the model marks a result beyond that instead of guessing the rounded number. The Ledger's
-- retry loop has the source's bound of five attempts. The worklist of a playbook's validation runs on
-- fuel, one round for the start and one for each edge of the graph, which is enough because a round
-- takes one key off the frontier and a node's edges are pushed at most once. No other loop needs
-- fuel: each runs over a list.
--
-- Not modelled: HMAC signatures, PII redaction, the regular expressions of the scanner, the conduct
-- service and the regulatory engine are parameters; the texts of reasons, of trace details and of
-- refund bases are left out. cron-parser and the reading of a text as a date are parameters too. Of
-- the workflow package, the worker's timer and the seed are left out. The remaining packages and the
-- applications are not modelled: sign-in, consent, vault, capital placement, sales, partners, reports
-- and the HTTP layer.
pub mod Prelude
pub mod Core
pub mod Identity
pub mod Tenancy
pub mod Clients
pub mod Firewall
pub mod Risk
pub mod Scanner
pub mod Middleware
pub mod Ledger
pub mod Billing
pub mod Workflow
pub mod Tests
