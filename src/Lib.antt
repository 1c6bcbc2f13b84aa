-- ===== src/Lib.antt =====
-- Verification of trivy-epss-kev-exporter, which watches the VulnerabilityReports of a cluster and
-- exposes for each vulnerability of a workload its EPSS score and its KEV status as Prometheus
-- gauges.
--
-- The parts, the code that each is about, and how they interact:
-- * Strings, Maps, Base: the functions of Go's strings package that the code calls, its maps as
--   association lists, texts as lists of code points. The case tables of Unicode are a parameter
--   (CaseTable) with the laws the code relies on. Texts are valid UTF-8.
-- * Float64, Http, Prometheus: float64 with strconv.ParseFloat, HTTP requests with the decoders,
--   and gauge vectors, as parameters with laws.
-- * Epss (internal/epss/epss.go): `parse` reads a stream into a snapshot, `load` requests it and
--   unpacks it, `lookup` answers from it. The csv reader is a parameter, the list of what its
--   calls return. `load` is in Epss/Request. Epss/Preamble, Header, Rows, Outcome and Load are
--   about the preamble line, the header row, the loop over the rows, `parse` and `load`.
-- * Kev (internal/kev/kev.go): the same for the catalog; the JSON decoder is a parameter.
-- * Report (internal/report/report.go): the trimmed report and `workload`, what its labels and
--   owner references say of the workload; Report/Owner and Described are about it. Resolver
--   (internal/controller/resolver.go): the roll-up from a ReplicaSet to its Deployment.
-- * Enrich (internal/enrich/enrich.go): `report` makes the series of a report from both
--   snapshots.
-- * Metrics (internal/metrics/metrics.go): `set_report` and `delete_report` keep the gauges, the
--   tuples that each report owns, and the reference counts. Metrics/Gauges reads the gauges;
--   Loops, Release, Invariant, Effect, Delete and SelfCalls are about one call; Refinement,
--   Recent, Written and Only are about histories.
-- * Feeds (internal/feeds/feeds.go): `refresh_once` compares markers and returns the calls that
--   it makes: the store of the snapshot, the record of success or failure, and the sweep.
--   Feeds/Sweep is about histories of loads; Feeds/Phases makes the same calls one at a time.
-- * Controller (internal/controller/controller.go, convert.go): what is enqueued, and what a
--   worker does with a key. The workqueue, the keys and the JSON of objects are parameters.
-- * App (internal/app/app.go): the snapshots and readiness, and `reconcile`, which passes a
--   report through Enrich to Metrics. App/Calls, Refresh, Sweep and Ready are about histories of
--   events: each method of Metrics holds its mutex, so that its call is one event, in which the
--   snapshots that `reconcile` read before are arguments, since a load may have been stored
--   between.
-- * System (all of the above at work): `Step` is one access to shared state by the informer, its
--   event handlers, a worker (`processNext` and `process` of controller.go with `reconcile` of
--   app.go) or a refresher (`RefreshOnce` with `EnqueueAll`), in any order and for any number of
--   workers; `Reach` is a run. `processNext`'s deferred `Done` and the call before it are one
--   step, as is the insertion of one key. System/Held, Exclusive, Sound, Outputs, Scoped,
--   Settled, Calm, Invariant, Turns, Steps, Loads and Quiescent lead to System/Exported and
--   Values: the exporter at rest; Work, Free and Rest lead to System/Drain: how it comes to
--   rest, with a bound on the keys that wait as fuel; Measure leads to System/Finite: how many
--   steps it takes. System/Refresh and System/Swept are about one refresh with nobody else at
--   the queue.
-- * Controller/Setup (`New`, the start of `Run` and trimReplicaSet of controller.go), App/Config
--   (`withDefaults` and the headers of app.go), Server (internal/server/server.go;
--   Server/Handler is about its answers), Main/Wiring and Main/Probes (`run` of main.go): from
--   the flags to the parts, and to the probes. Int has the integers of the configuration.
-- * Clients (internal/controller/client.go): the configuration and the clients of the cluster.
-- * Main (cmd/trivy-epss-kev-exporter/main.go): the namespace list, defaults, the log level; its
--   errors and the status of the process are in Main/Exit; Main/Started is about what it needs
--   before the goroutines start.
-- * Lifecycle (`run` of main.go with its error group, and `Run` of internal/app/app.go,
--   internal/controller/controller.go, internal/feeds/feeds.go and internal/server/server.go):
--   the goroutines from the start to the exit. In Lifecycle/Moves, `Move` is one step of one of
--   them, or of the world: the signal, keys for the queue, ticks, requests, failures; `Reach` is
--   a run. What a worker does with a key and what a refresh does is in System, so that the keys
--   and requests are only counted here. The end of a backoff whose key is in the queue already
--   is `backoff_drops`; if the key is with a worker, it is `backoff_drops` and then `add_again`.
--   Lifecycle/Causes is about why goroutines end, Results about what they return, Drain about
--   what is left in the queue, Steps about how many steps are left, Shutdown about the way to
--   the exit, and Exit about the status. The listener is assumed not to fail once the shutdown
--   has begun, and a refresh to end, as its requests have a time limit.
-- * Tests (no code): runs, and the theorems at concrete inputs, with concrete parameters.
--
-- The model has no fuel: each loop of the program is over a list. Where Go iterates over a map, the
-- model takes the order of the list; an index out of range, where Go panics, is an error of its own.
-- Times are numbers of seconds, counters and reference counts natural numbers without a bound.
--
-- Not modelled: logging, a ReplicaSet lister whose answers change while the exporter runs, the
-- informers' own work, a second signal, what is read from and written to a connection, the parsing of
-- flags, metric names and help texts.
pub mod Base
pub mod Int
pub mod Strings
pub mod Maps
pub mod Float64
pub mod Http
pub mod Epss
pub mod Kev
pub mod Report
pub mod Enrich
pub mod Prometheus
pub mod Metrics
pub mod Feeds
pub mod Resolver
pub mod Controller
pub mod Clients
pub mod App
pub mod System
pub mod Server
pub mod Main
pub mod Lifecycle
pub mod Tests
