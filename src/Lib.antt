-- ===== src/Lib.antt =====
-- Otherlode collector: a verification library of the Go program in this repository.
--
-- The collector receives protobuf payloads from agents (ingest), passes them through processors
-- (internal/processor) and relays them to a backend from sharded queues (internal/forward).
-- A request first passes the rate limiter (internal/ratelimit) and shows a bearer token
-- (internal/auth), whose set can come from a file that is read again and again
-- (internal/tokenfile). A decoded payload goes from the handler through Redaction, Namespace and
-- Environment to the sink.
--
-- Which file models which part:
--   Base, Text       shared names; Go strings as lists of bytes, and what the program uses of
--                    `strings` and `strconv`.
--   Payload          the messages that the program reads and writes, and their reflection tree.
--   Metrics          metrics/: Counters has the increments as values, Series and Exposition have
--                    metrics.go (Add, Value, NewCounter, render and the escapes), Registry all
--                    counters of a program.
--   Ingest           ingest/handler.go: Paths, the Sink interface, Validate, and Handler (readRequest,
--                    acquire, unmarshal, handle); Slots has the decode slots under requests that
--                    interleave, as a step relation; LogSink has what ingest/logsink.go writes.
--   Auth             internal/auth/bearer.go: TokenSet and RequireBearerToken.
--   TokenFile        internal/tokenfile/tokenfile.go: Parse, Read, Open, Watch and reload.
--   RateLimit        internal/ratelimit/limiter.go: the map and the list of the tracked clients, allow
--                    and evictStaleLoop; Run puts them together; Clients has clientIP, Build the
--                    options, New and Stop, and Middleware the handler in front.
--   Processor        internal/processor: environment.go, namespace.go and redaction.go.
--   Forward          internal/forward/forward.go and backoff.go: Config (withDefaults, validateURL),
--                    Instance (shardKey, shardIndex), Shard (reserve, release), Sink (enqueue and the
--                    Accept methods), Float and Backoff (next, parseRetryAfter), Attempt, Deliver, and
--                    Worker (runShard, drain and Shutdown on one shard, as a step relation) and Shards
--                    (all of them, as a step relation over the shards' own).
--   Command          cmd/otherlode-collector: the resolve functions of main.go (Settings, Tokens,
--                    ForwardKey, Forwarding, Limits, Stamps, Redacting), main itself (Start),
--                    routes.go (Sinks, Routes), and healthcheck.go (Probe).
--
-- Start puts the settings together into the configuration of the routes, whose requests go through
-- the limiter, the token check, the handler and the processors to the sink.
--
-- State is passed explicitly. Counters are lists of increments. A panic is `none`. What the network,
-- the clock, the random numbers and other goroutines do is an argument of the definition that meets
-- it. Durations are int64 nanoseconds: the sum in `next` and the product in `parseRetryAfter` wrap
-- around; sizes in memory are taken not to overflow. float64 is modelled by its rounding to 53 bits.
--
-- Fuel: `Forward.Deliver.deliver` recurs on fuel, and more fuel than the retry budget has nanoseconds
-- is enough, since each wait takes at least one nanosecond. `Text.Decimal.digits` is given more fuel
-- than its number has digits, and `Forward.Float.excess` 128 rounds, for numbers below 2 ^ 181.
--
-- Not modelled: log lines but those of the log sink, and the texts of error answers; the HTTP
-- server, and the client but for its settings; signals and the goroutines that main starts. The
-- environment, the generated protobuf code, SHA-256, `url.Parse`, `http.ParseTime`,
-- `mime.ParseMediaType`, `time.ParseDuration`, `strconv.ParseFloat`, network addresses, regular
-- expressions and the buckets of golang.org/x/time/rate are parameters.
pub mod Base
pub mod Text
pub mod Payload
pub mod Metrics
pub mod Ingest
pub mod Forward
pub mod Processor
pub mod Auth
pub mod TokenFile
pub mod RateLimit
pub mod Command
