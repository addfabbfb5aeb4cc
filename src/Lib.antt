-- ===== src/Lib.antt =====
-- The audit platform's Go code: the parts that carry its own logic, as definitions that run, and
-- theorems about them.
--
-- A file models the Go file that its first comment names, with the function names in snake_case.
-- A method that changes its receiver takes it to a new value beside its result, and an error is a
-- value of a result type. What the code asks of its surroundings is an argument: `time.Now()` (a
-- number of nanoseconds), `uuid.New()` (a number, with `uuid.Nil` as 0), the UUID parser, and what a
-- decoder makes of a request's body. A string type of Go with constants is a data type with those
-- constants and one constructor for any other text. A Go map is an association list in which a key
-- stands once. The mutexes are not modelled: a method that holds one throughout is one step, and a
-- sequence of calls is a list of steps. Slices and structs are values: the stores copy what they keep
-- and give out.
--
-- Approval models services/approval. Types and Workflow are internal/domain/workflow.go (the types,
-- `submit`, `approve`, `lock`, `reject`, `return_to_draft` and `apply_transition`); `step` and `run`
-- are one request and a sequence of them. Diagram states the transition diagram as a relation,
-- History what a history says, Release the password gate. Store is internal/store/store.go and
-- Handler internal/handler/handler.go, whose five transition handlers share the function
-- `transition`; Serving is about the handlers over the store.
--
-- AuditTrail models services/audit-trail. HashChain is internal/hashchain/hashchain.go, over a record
-- `Hashing` of what Go's libraries do: SHA-256 with its hex encoding, the JSON encoder and two
-- printers. Store is internal/store/store.go with the table as a list of rows, and Handler the append
-- and the verification of internal/handler/handler.go, whose database faults are arguments. Walk,
-- Commitment, Stored and Race are theorems: on what a verification reports, on what the head of a
-- chain fixes, on events read back from the table, and on two overlapping appends.
--
-- Circuit models two circuit breakers. Breaker is sdk/connector/circuit/breaker.go and Connector
-- services/integration/internal/connector/circuit_breaker.go, which has a copy around IAM connectors.
-- The goroutines that call OnStateChange are kept in the order in which they are started.
-- Diagram is about all interleavings of calls of the first, Probe about tripping and recovery, and
-- Agreement compares the two.
--
-- Engagement models services/engagement: Lifecycle is internal/domain/engagement.go, Store
-- internal/store/store.go and Handler internal/handler/handler.go. Timeline and Service are about the
-- lifecycle, alone and behind the handlers.
--
-- Planning models services/planning. Annual, Strategic, Assurance and Calendar are the four kinds of
-- internal/domain/plan.go; Store is the store of annual plans in internal/store/store.go, Repository
-- the three plain ones at any kind of row, and Stores the bundle, where each store is what the
-- handlers need of it. Handler has the steps that the handlers of internal/handler/handler.go share,
-- and Service the handlers. Actions composes the changing ones over the bundle; Modify, Keeping and
-- Isolation are about what other organisations see, Approvers about who approved, Utilisation about an
-- auditor's days. Uniqueness and Calls are about the one open plan for an organisation and a year;
-- Calls composes what the handlers of annual plans do to the store alone.
--
-- ControlFramework models frameworks, controls and assessments of services/control-framework: Domain
-- is internal/domain/types.go, Controls what the layers say of controls, Repository the statements of internal/repository/postgres.go on tables as
-- lists of rows, Service internal/service/service.go, Context the middleware with the keys of a
-- request's context, and Handlers internal/handlers. Unreachable is about the handlers behind the
-- middleware, Transitions and Assessing about the statuses of an assessment.
--
-- Gateway models the rate limiter of services/gateway/internal/middleware/ratelimit.go: RateLimit is
-- its script and its middleware on one key, over an interface of Redis's sorted sets, and Window counts
-- what it lets through.
--
-- Rbac models the permission matrix of services/identity/pkg/rbac/rbac.go and the middleware that
-- asks it.
--
-- Sdk models two packages of sdk/connector: Retry is retry/retry.go over a record of floating point and
-- a record of what the context and the function do, Registry is registry.go. An error wraps one cause at
-- most: errors joined with several causes are left out. Attempts and Recording
-- are about the loop, Refines about the registry as a partial function.
--
-- Webhook models services/webhook: Store is internal/domain/types.go and internal/store/store.go with
-- its two tables, Worker one poll of internal/worker/worker.go, and Handler internal/handler/handler.go.
-- The times of a batch are taken as one. Tracked follows one row through a batch, Settling through many,
-- and Undelivered is about the whole service.
--
-- Webhooks models services/webhooks: Delivery is a row with the statements of internal/store/store.go on
-- it and the attempt of internal/delivery/delivery.go, Retries what a row of failures leads to.
-- Subscriptions has the other statements on the two tables, and Dispatch the worker of
-- internal/delivery/delivery.go, which gives the goroutines that it starts; FanOut is about both with
-- the goroutines in any order. Handler is internal/handler/handler.go.
--
-- Evidence models services/evidence/internal: Model is models/evidence.go, Repository the memory
-- repository of repository/repository.go, Sufficiency sufficiency/sufficiency.go with the arithmetic of
-- float64 as an argument, and Handler the handlers that read in handler/handler.go.
--
-- Base has what they share: Boolean tests on numbers, lists, tables, Go's `int`, with its wrap-around at
-- 64 bits in Int64, and decoded JSON.
--
-- Recursion is over lists, and in the SDK's retry loop over the attempts that are left, which are as
-- many as the configuration allows. The digits of a number are taken on as much fuel as the number,
-- which is enough since each step divides by ten. Counters are unbounded numbers, but for the day
-- counts of Planning, which wrap around.
--
-- Not modelled: the paged queries of the audit trail, the update of a control, its mappings,
-- evidence requirements and audit objectives, the scorer, classifier and ingester of evidence,
-- reporting, the gateway's tokens and pagination, the SDK's rate limiter; code that is input and
-- output (SQL, HTTP clients, proxying, search, process start-up); password hashing and tokens,
-- which libraries do; the Python engine and the TypeScript user interface.
pub mod Approval
pub mod AuditTrail
pub mod Base
pub mod Circuit
pub mod ControlFramework
pub mod Engagement
pub mod Evidence
pub mod Gateway
pub mod Planning
pub mod Rbac
pub mod Sdk
pub mod Webhook
pub mod Webhooks
