-- ===== src/Lib.antt =====
-- Houdry is a control plane for a cluster of machines with GPUs. Nodes enrol with a one-time token,
-- join, and send heartbeats; users submit jobs; a scheduler gives each queued job to a node that fits
-- it; the node claims it, runs it and reports a result. This library models that control plane in
-- internal/ and states what its parts promise.
--
-- The parts and their files:
--
-- - Nodes models internal/server/store.go, the registry: `upsert`, `heartbeat`, `set_status`,
--   `set_drain`, `set_identity`, `remove`, `mark_stale_offline`, `list`, `lookup` and `open_store` are
--   Store's Upsert, Heartbeat, SetStatus, SetDrain, SetIdentity, Remove, MarkStaleOffline, List, Get
--   and NewStore with load.
-- - Jobs models internal/server/jobs.go: `create`, `assign`, `claim`, `complete`, `lookup`, `list`,
--   `list_by_status`, `count_by_status`, `fail_running_for_node`, `fail_running_except` and
--   `open_jobs` are JobStore's operations.
-- - Resources and Fitting model internal/server/resources.go: the profile of a node, the requirements
--   of a job, Fits and ModelScore.
-- - Scheduler models internal/server/scheduler.go: selectNode and tryScheduleQueued.
-- - Model models internal/modelruntime/identity.go and the lookups of runtime.go beside it.
-- - Routing models internal/routing: Analysis is Analyze of analyze.go, Scoring and Choosing are
--   scorePair and Route of router.go, with EntrySupports and EntrySupportsTools, Catalog is catalog.go
--   and PickFittingModel, and Grading joins Analyze and Route. Choosing takes the profile of the prompt
--   and the rows of DefaultCatalog as arguments.
-- - Revocation models internal/pki/revoke.go, Enrollment internal/enrollment/store.go, and RateLimit
--   the limiter of internal/server/enroll.go.
-- - Server models the handlers of internal/server/server.go that change the cluster, the certificate
--   check of internal/server/mtls.go, enrichNode of internal/server/cluster.go, the admin calls of
--   internal/server/enroll.go, and a tick of the sweep. `Requests.serve` runs one of
--   these or of the handlers below that change the cluster. Beside them,
--   Enrolling is handleEnroll and handleRenew of enroll.go with SignCSR of internal/pki/pki.go, Views
--   is route.go, internal/routing/catalog_io.go, the summary of cluster.go and the read-only listings,
--   Prompts is handleRoute, Chat is the plan that handleChatCompletions of openai_chat.go makes, and
--   Answers is the rest of that handler, with what the store holds while it waits as an argument.
-- - Jobs.Waiting models WaitJob of internal/server/wait.go, and Jobs.Board is an abstract view of the
--   job store: a function from ids to jobs.
-- - Inference models what internal/modelruntime decides apart from its calls: Compact is compact.go and
--   shouldCompact of ollama.go, Context is ollama_context.go, Runtimes is SelectAvailable, Discover and
--   Find of runtime.go and ListModels of ollama.go.
-- - Discovery models internal/discovery/protocol.go, and OpenAi the messages of
--   internal/openaicompat/types.go.
-- - Gpu holds the records of internal/gpu/model.go and internal/host/resources.go, Text the functions
--   of Go's strings package that the code calls, Prelude what all share, Tests the concrete runs.
--
-- How state is modelled. A store is a record, and an operation answers the store after it. A Go map is
-- an association list in the order of its loop, since Go leaves that order open. The mutexes make each
-- operation of a store atomic; a handler is run to its end before the next, so no request comes between
-- two store operations of one handler. Files are the list that they decode to; `writable` says whether
-- a write succeeds, and the failures that the code ignores are ignored here. Times are numbers of
-- nanoseconds, 0 is the zero time, and the clock is an argument, as are the job ids and tokens that the
-- code draws. Texts are ASCII, so that bytes and characters agree.
--
-- What is a parameter. The hash of a token is an argument of Enrollment; whether a certificate carries
-- the CA's signature is a field of the certificate that a request presents; what host.Collect measures
-- is a field of the request's `Call`; reading a signing request and issuing a certificate are arguments
-- of Server.Enrolling; what the Ollama daemon answers, and the printing of a number in a URL, are
-- arguments of Inference and Discovery. Bodies and files that JSON decodes are their decoded values, or
-- missing where decoding fails. Parameter counts, which the code reads as floating-point numbers, are
-- exact decimals, and the scores of the router, which are sums of small constants and of a catalog's
-- priorities, are integers without a bound. Storing a job or a node as JSON and reading it back is the
-- identity.
--
-- Loops are structural recursion on a list. Only Jobs.Waiting.wait_job runs on fuel: one unit for each
-- look at the job, which is enough if the context ends before the fuel does.
--
-- Not modelled: HTTP and TLS themselves, the audit log, crypto/x509, the dashboard and the downloads,
-- chat on the control plane itself, the streaming of answers, the agent, the command line, the sockets
-- of discovery and the detection of hardware. They are input and output, or come later.
pub mod Prelude
pub mod Text
pub mod Gpu
pub mod Model
pub mod Resources
pub mod Nodes
pub mod Jobs
pub mod Fitting
pub mod Scheduler
pub mod Routing
pub mod Revocation
pub mod RateLimit
pub mod Enrollment
pub mod Server
pub mod Tests
pub mod Discovery
pub mod Inference
pub mod OpenAi
