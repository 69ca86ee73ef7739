-- ===== src/Lib.antt =====
-- The router of this repository (router/src) stands between HTTP clients and several language-model
-- backends. This library models the parts of it that keep state or decide, as functions by clauses
-- on explicit states, and proves what makes them correct.
--
-- How the parts work together. A request names a model. The preflight looks the name up in the
-- model registry, redirects a deprecated alias, asks the policy gate, and then the circuit breaker
-- of the entry's backend. The semaphore of the backend admits the call or lets it wait. Where a
-- session is attached, the context provider puts its history before the messages of the request,
-- within a budget of estimated tokens. A translator brings the request into the canonical form and
-- another one the canonical form to the backend; what the backend streams comes back through two
-- more, chunks to canonical events to the frames of the surface. Where external MCP servers are enabled, the tool loop
-- alternates between the model and the servers' tools. At the end a row for the request goes to the
-- log buffer, which writes rows to the database in batches.
--
-- Which file models which part, with the names of the source where they are not the same but for
-- their spelling (`inFlight` is `in_flight`):
--   * Semaphore (router/src/concurrency/semaphore.ts): BackendSemaphore. A promise is a number, its
--     settlement an entry of `settled`; the release closures are `release` with the number of the
--     call, the timers `expire`, the abort listeners `abort`. `run` takes any order of these events.
--   * BufferedWriter (router/src/db/bufferedWriter.ts): `push`, `flush` up to its await, then
--     `inserted` or `insert_failed`, `drain`; `run` takes any order of them, of the interval
--     (`tick`) and of the microtasks.
--   * Valkey (no file of the repository): the commands of the Valkey server as a record of
--     operations with their documented laws, a parameter of its users. Valkey/Table fills it.
--   * CircuitBreaker (router/src/resilience/circuitBreaker.ts): `check`, `record_failure`,
--     `record_success`, `reset`, and isBreakerTrip as `is_breaker_trip`.
--   * Registry (router/src/config/registry.ts): the data of models.yaml, the store with `resolve` and
--     `swap`, and in Registry/Refine the cross-field validation `superRefine`.
--   * Dispatch (router/src/dispatch/preflight.ts, router/src/policy/gate.ts,
--     router/src/config/deprecation.ts): applyPreflight, applyPolicyGate, resolveAlias.
--   * Canonical (router/src/translation/canonical.ts): the messages that the other parts share.
--   * Tokens (router/src/translation/count-tokens.ts): countTokens, and in Tokens/Images the readers
--     of image headers.
--   * Context (router/src/providers/context-provider.ts): provideContext, with the turns of a session
--     in Context/Turns, and in Context/Counting the texts whose tokens it counts.
--   * Idempotency (router/src/resilience/idempotency.ts): publishStreamEvent, finalizeStream and
--     awaitStreamResult for one key. A subscription is what is published after it, and the reply to
--     LRANGE, the reply to GET and the messages that have arrived by then are arguments.
--   * Mcp (router/src/mcp/client): Prefix (prefix.ts), Sanitize (sanitize.ts), ToolLoop
--     (tool-loop.ts).
--   * Sessions (router/src/mcp/host/session-gc.ts): the callback of startSessionGc as `sweep`,
--     shutdownSessions.
--   * ScopedIds (router/src/middleware/scopedIds.ts): scopedIdsPreHandler on the three headers.
--   * Translation (router/src/translation): Chunks (openAIChunksToCanonicalEvents of openai-out.ts),
--     OpenaiOut (the other translators of that file), Responses (responses-stream.ts), AnthropicOut
--     (anthropic-out.ts), OpenaiIn (openai-in.ts), ImageGuard (the fetch of images in
--     ollama-native-out.ts), OllamaStream (ollamaNativeChunksToCanonicalEvents of that file);
--     Pipeline joins Chunks to what reads its events. A generator is a function from the whole input
--     to the list of what it yields, with how its input ended. Emit, Follow and Content say what it
--     means for lists of events to be balanced and to carry a text and calls.
--   * Errors (router/src/errors/envelope.ts): the errors as a data type, toOpenAIErrorEnvelope,
--     toAnthropicErrorEnvelope and mapToHttpStatus.
--   * Base: names of the libraries, lists measured by native numbers, texts.
-- The files below these say in their first lines what they add.
--
-- What the models assume. Numbers are natural numbers: times are milliseconds, sizes are whole, and a
-- difference that the source lets be negative is written out where it matters. A text is the list of
-- its UTF-16 code units. JavaScript runs a synchronous block without interruption, so an operation
-- is one step of its model up to its first await. The commands that one call of the circuit breaker
-- sends to the Valkey server are taken to run without commands of other calls between them, at one
-- time and on one clock. Identifiers drawn at random are a function of a number that goes up, and the
-- clock of the Responses frames is read by the number of frames sent. The
-- tokenizer, which may throw, JSON, base 64, the backends' adapters and the MCP connections are
-- parameters.
--
-- Fuel. The tool loop recurses on the rounds that its limit of 10 still leaves, which the source
-- counts as well. The reader of JPEG headers has the length of the buffer as fuel; each run of its
-- body moves on by at least one byte.
--
-- Not modelled: HTTP routes and adapters, the parsing of YAML and of environment variables, SQL,
-- sockets and timers of third-party code, metrics and log lines; and of the router's own logic so
-- far the roles and the unstreamed results of idempotency, rate limits, the headers for agents and
-- sessions, the parser of the Anthropic surface, the requests to Ollama, the repair of JSON answers, hooks,
-- liveness and the garbage collection of models.
pub mod Base
pub mod BufferedWriter
pub mod Canonical
pub mod CircuitBreaker
pub mod Context
pub mod Dispatch
pub mod Errors
pub mod Idempotency
pub mod Mcp
pub mod Registry
pub mod ScopedIds
pub mod Semaphore
pub mod Sessions
pub mod Tokens
pub mod Translation
pub mod Valkey
