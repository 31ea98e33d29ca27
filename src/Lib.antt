-- ===== src/Lib.antt =====
-- SimpleAPI: a proxy between LLM clients and LLM providers, of internal/ in the repository.
--
-- A request passes the authentication, is routed to candidates, and the pipeline tries them in turn:
--   Glob         internal/glob/glob.go: `glob_match` is `Match`
--   Limiter      internal/concurrency/limiter.go: slots per provider
--   Failover     internal/failover/failover.go: failures per key and model
--   CallLog      internal/calllog/calllog.go: a ring buffer of attempts
--   Usage        internal/usage/usage.go: totals per dimension
--   Config       internal/config/config.go, helpers.go and internal/protocol; Config/Payload and
--                Config/Validate are validate_payload.go and validate.go, Config/Env is env.go
--                and Config/Atomic atomic.go
--   Indexes      internal/indexes/indexes.go: what `Build` makes of a config, and the routing
--   Json         what the code uses of gjson and sjson, as a record that modules take
--   Auth         internal/auth, PathProtocol of internal/web, and AdminKeyAuth
--   Management   internal/management: the handlers that change the config; Management/Reads: those that
--                read it
--   Provider     internal/provider: the URL and the headers of an outbound request
--   Payload      internal/payload: rules on outbound bodies
--   Translate    internal/translate/registry.go; Translate/Stream is stream.go, the chunk
--                transforms, Translate/Norm the neutral view of norm.go, Translate/Anthropic, Openai and
--                Codex the parsers and builders of the files of those names, Translate/Helpers is
--                helpers.go, and Translate/Pairs is pairs.go
--   Archive      internal/archive/archive.go: the queue of records, and their files
--   ModelRewrite internal/modelrewrite: model names in responses
--   Pipeline     internal/pipeline: Counts, Answer, Attempt and Errors are stream.go; World, Records,
--                Call and Serve are pipeline.go
--   Startup      cmd/proxy/main.go: from the config file to the running state
-- Each file names the functions that its definitions are. State is passed explicitly: an operation
-- under a mutex is one function on the state. `Pipeline.World` holds the long-lived objects of
-- internal/runtime; a request that `serve_proxy` serves is not interleaved with others.
--
-- Strings and byte slices are lists of bytes (`Text`), a Go map is an association list, and an
-- `int64` or `int` is a number below 2 ^ 64 in two's complement (Base/Int64), with the wrap-around of
-- addition and multiplication. Times are nanoseconds in ℕ, below 2 ^ 63 where a theorem needs it.
-- Every loop is a recursion on the list it reads or on the number of its rounds, without fuel, but for
-- the decimal digits of a number, of which twenty are enough below 2 ^ 64 (Pipeline/Reasons). Where Go
-- would panic on a read out of range, the model's read returns none.
--
-- What an upstream answers, the clock, the file system, the JSON and YAML libraries and the environment
-- are arguments. What a builder hands to `json.Marshal` is a value
-- (Translate/Doc): whether it can be printed is modelled, its text is an argument. Not modelled: the HTTP
-- server, logging, and the texts of messages.
pub mod Base
pub mod Glob
pub mod Limiter
pub mod Failover
pub mod CallLog
pub mod Config
pub mod Indexes
pub mod Usage
pub mod Json
pub mod Payload
pub mod Auth
pub mod Provider
pub mod Management
pub mod Translate
pub mod Archive
pub mod ModelRewrite
pub mod Pipeline
pub mod Startup
