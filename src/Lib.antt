-- ===== src/Lib.antt =====
-- LLM Security Audit Gateway: a reverse proxy for OpenAI-compatible APIs that audits requests and
-- responses with keyword and regex rules, policies and an external model.
--
-- A text is a native string where the source compares or joins it and a list of byte values where
-- it cuts bytes; a signed Go `int` is ℤ of Base/Int, one that the code keeps from going negative is
-- a native number. Instants and durations are numbers, and the clock is an argument.
--
-- Files and the code they are about:
--   - Base: lists, integers, association lists for Go's maps, results.
--   - Audit, Audit/Circuit: internal/audit/types.go, auditor.go, circuit.go. A breaker's locked
--     sections are the constructors of `Step`, which any goroutines interleave.
--   - Policy, Policy/Resolver: internal/policy/policy.go. `decide`, `elevate`, and the snapshots
--     that `refresh` publishes and `resolve` reads.
--   - Stream: internal/stream/sse.go. `read_event` takes the slices of a buffered reader, `copy`
--     forwards events over a world of its own (context, inspector, writer), `feed_channel` keeps a
--     rolling window for each channel. `copy` has fuel: one round for each slice and one more.
--   - Proxy/Ssrf: internal/proxy/ssrf.go. The resolver, the dialer and the URL parser are parameters.
--   - Proxy/Upstream: internal/proxy/proxy.go. `do_upstream` builds the request, asks the server, which
--     is a parameter, and relays the answer, a stream by `copy` of Stream/Copy.
--   - Events/Pipeline: internal/events/events.go, the pipeline between the gateway and the database.
--     `worker_step` is the next step of the goroutine that stores; `Step` interleaves it with
--     producers and `Close`.
--   - Storage/Outbox, Events/Dispatch: internal/storage/postgres.go, events.go. The outbox is a list of
--     rows, each SQL statement a function on it; `dispatch` is a round that carries it on to Kafka.
--   - Storage/Upstreams: internal/storage/admin_upstreams.go, postgres.go. Upstreams and their gateway
--     keys as two tables; `Step` is one transaction of any gateway. `sweep` counts down to its limit.
--   - Health: internal/health/health.go.
--   - Httpapi/Front, Decode, RequestAudit, ResponseAudit, Emit: internal/httpapi/handler.go.
--     `proxy` is the handler up to the upstream exchange, `inspect` its look at a response.
--   - Rules/Engine, Rules/Registry: internal/rule/engine.go, registry.go.
--   - Consumer/Validation, Consumer/Rounds: internal/clickhouse/store.go, internal/consumer/consumer.go.
--     A round of `Run` meets a script of answers, which is also the fuel of its retry loops.
--   - Auth/Keys: internal/auth/apikey.go. Random bytes, UUIDs, base64 and SHA-256 are parameters.
--   - Admin/Accounts, Admin/Sessions: internal/storage/admin_upstreams.go, internal/httpapi/admin.go.
--     Administrators and sessions as two tables, and the handlers that sign in and out.
--   - Admin/Csrf: internal/httpapi/admin.go, the check in front of every write.
--   - Crypto: internal/crypto/crypto.go. AES-GCM is a parameter, the file system answers by arguments.
--   - Config, Config/Load: internal/config/config.go.
--   - Httpapi/LoginGuard, Httpapi/AuthThrottle: internal/httpapi/login_guard.go, auth_throttle.go.
--
-- Not modelled: Kafka, Redis and ClickHouse behind their clients, the tables of rules and policies,
-- the rest of the admin API, metrics and logging, and the wiring of the processes.
pub mod Base
pub mod Audit
pub mod Policy
pub mod Rules
pub mod Stream
pub mod Proxy
pub mod Httpapi
pub mod Config
pub mod Storage
pub mod Events
pub mod Consumer
pub mod Health
pub mod Auth
pub mod Crypto
pub mod Admin
