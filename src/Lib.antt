-- ===== src/Lib.antt =====
-- mamori: typed configuration for Go programs. Struct fields carry source tags; each tag is a chain of
-- refs (scheme://path#key?options) that providers resolve; a Watcher keeps the resolved struct up to
-- date, validated, versioned and pinnable. A config server answers named refs over HTTP, and a provider
-- is its client. This library models the core of the root package, the server and that client.
--
-- The files, and what they model:
-- - Prelude: tests on numbers, lists, texts as lists of bytes, and Go maps and sets with string keys as
--   association lists behind their laws.
-- - Strings: the functions of strings and net/url that the code calls, on bytes; TrimSpace knows the
--   ASCII blanks only.
-- - Errors (errors.go): sentinels, wrapping error types as a tree, errors.Is, ErrorKind, SentinelFor.
-- - Ref (ref.go), Ref/Chain (ParseRefs, splitChain), Ref/Vars (refvars.go), Ref/Redact (status.go).
-- - Value (value.go; fieldSpec and onFailPolicy of decode.go).
-- - Decode (decodeopt.go): the ?decode= pipeline over a record of readers, Codecs, for base64, hex and
--   gzip.
-- - Backoff (backoff.go): the wait of a source that fails. Poll (poll.go): the rounds of a polling watch.
-- - Pointer (jsonpointer.go, SelectKey of helpers.go): parts of a JSON document.
-- - Bootstrap (bootstrapstore.go, records of bootstrapfile.go): what a bootstrap snapshot records, and
--   restoreBootstrap. The file, its encryption and the fingerprint are arguments.
-- - Load (reconcile.go): loadValue with its fallback to the snapshot.
-- - Middleware (cache.go, failover.go, ratelimit.go and prefix.go of middleware): providers that wrap
--   providers. Resolve/OneShot (resolveref.go): Resolve of a ref string.
-- - Report (report.go, status.go): buildReport, Status and Health.
-- - Resolve (resolve.go): resolveRef, resolveChain, resolveOne, resolveBatchScheme and resolveAll, over
--   a map of providers. The order in which resolveAll ranges over its map of schemes is an argument.
-- - Engine (reconciler.go, preapply.go, pin.go, history.go, bootstrapstore.go): the reconciler.
--   Engine/State is the struct engine with what the Watcher publishes and the variables of loop;
--   Engine/Sources is recordSourceUpdate, recomputeWinner and seedChainSources; Engine/Debounce is arm,
--   addPending, markChanged and unblock of loop, debounceFor and refDebounceOverride; Engine/Outcome is
--   the switches of loop and refreshNow with handleChainNotFound and reportTerminalError;
--   Engine/Candidate is buildCandidate; Engine/Flush is flush with runPreApply, recordSnapshot and
--   enqueue; Engine/Control is handlePin and refreshNow; Engine/Loop is the events of loop and the runs
--   of a Watcher as a step relation.
-- - Server (server): Server/Bindings (bindings.go, policy.go), Server/Resolver (resolve.go: the snapshot of
--   each binding, lookups, readiness, start and Close), Server/Wire (wire.go), Server/Handler and
--   Server/Watch (handler.go).
-- - Client (providers/mamori): resolve.go, batch.go and failover.go; Client/Stream is watch.go and
--   freshness.go.
-- - Http (providers/httpcore): classify.go; Http/Revalidate is revalidate.go.
-- - Sse (providers/httpcore/sse.go, writeSSE... of server/wire.go): the stream between them, in lines.
-- - Cli (cmd/mamori): internal/sourcetag, collectPolicyRefs of policy.go, and of diffmodel.go the
--   privilege delta and, in Cli/Diff, the diff of a chain.
--
-- How they interact: providers answer refs (Resolve, Engine/Sources), the reconciler folds answers into
-- its state (Engine/Loop calls Engine/Sources, Engine/Outcome and Engine/Debounce), and a flush or a pin
-- command (Engine/Flush, Engine/Control) decides what Get, History and OnChange see. Engine/Served
-- names that part of the state. All of it runs on one goroutine, so that an event is served to its end
-- before the next one; the dispatch goroutine takes changes from the queue between events.
--
-- A server's watches feed Server/Resolver, the endpoints of Server/Handler and Server/Watch read it, and
-- the bodies of Server/Wire are what Client and Client/Stream read at the other end, through Sse.
--
-- Choices. Times and durations are natural numbers of nanoseconds, 0 the zero time; those of Backoff are
-- int64s by their bit patterns, compared as signed. A handler reads the clock once. The version is a uint64 and wraps. The loop of enqueue runs on fuel, the length of the
-- queue and one: each round but the last takes a change from the queue, so that this is enough when the
-- queue has any depth. What the environment answers to a handler (clock, providers, the
-- PreApply hook, the write of the bootstrap snapshot) is the record Env; what reflection and the
-- application give (setField, the validator, fieldByPath, reflect.DeepEqual, derivedVersion) is the
-- record Host; time.ParseDuration and url.Values.Encode are arguments. A PreApply hook that panics, a
-- context that ends while a handler runs, and the end of loop when all sources close are not modelled.
--
-- In the server and its client an HTTP body is the struct that is encoded, a handler reads all bindings
-- at one moment, and JSON, sockets, tickers and path.Match are arguments. The reader of a stream runs on
-- fuel: each event takes a line at least, so that one more than the lines is enough. The loop that
-- evicts cached responses runs on as much fuel as there are entries, of which each round removes one.
--
-- Not modelled: the other providers, the rest of the command line tool, the transports of the config
-- server, the admin endpoint and authentication (I/O and SDK calls), observability (no effect on what is
-- served), the file format of the bootstrap snapshot, Watch's set-up of goroutines, doctor and the audit
-- middleware.
pub mod Backoff
pub mod Bootstrap
pub mod Cli
pub mod Client
pub mod Decode
pub mod Engine
pub mod Errors
pub mod Http
pub mod Load
pub mod Middleware
pub mod Pointer
pub mod Poll
pub mod Prelude
pub mod Ref
pub mod Report
pub mod Resolve
pub mod Server
pub mod Sse
pub mod Strings
pub mod Value
