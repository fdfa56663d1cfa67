-- ===== src/Lib.antt =====
-- A verification library for hoodalpha, the control plane of a trading bot: a Telegram bot and a Mini App
-- through which allowlisted users link wallets, a worker that verifies them on chain, and the stores behind
-- both. This build has no signer and no execution engine; what is at stake is who is let in, which wallets
-- and limits are stored, and what survives errors, retries and replays.
--
-- How the parts interact. The commands (cmd/api, cmd/bot, cmd/worker) read their settings (`Load`,
-- internal/config/config.go), open their connections (`bootstrap.New`, internal/bootstrap/bootstrap.go), make
-- their services from both, serve until they are stopped, and close what they opened. A chat
-- message goes through `Router.Dispatch` (internal/telegram/router.go): parse, authorize, rate limit, run the
-- handler, audit, reply. A Mini App request goes through
-- `MiniAppAuth.Authenticate` (internal/application/miniapp.go): verify the signed payload
-- (internal/telegram/initdata), then authorize. Both use `Onboarding.Authorize`, which asks the allowlist
-- and the store of accounts. Handlers call `WalletService` (internal/application/wallet.go), which drives
-- the repositories (internal/persistence/postgres), the chain client (internal/chain), the queue and the
-- audit trail. The HTTP server (internal/httpapi) answers Mini App requests through `MiniAppAuth` and
-- `WalletService`; the subscriber (internal/chain/subscriber.go) hands each head to `ChainSync.Record`,
-- which saves it; the worker's tasks (internal/queue) verify wallets and follow the chain.
--
-- Which file models which part.
--   Prelude/*: names shared by all files, Boolean tests, lists over native numbers, integers.
--   Go/*: what the code uses of Go: strings and their bytes or code points (Go/Text), errors with
--     `errors.Is` (Go/Error), instants and durations in 64 bits (Go/Time), float64 (Go/Float), and methods
--     that change state and may fail (Go/Exec: a result beside the new state, on errors too).
--   Domain/*: internal/domain: addresses, chains, amounts, health, accounts and the allowlist, wallets and
--     their life cycle, limits, audit events.
--   Postgres/*: internal/persistence/postgres: `EnsureTelegramUser` (`ensure_telegram_user`), `Link`
--     (`link`), `MarkVerified` (`mark_verified`), `SetStatus`, `UpdatePolicy`, `SaveHead`, `LoadHead`,
--     `Record`. The state `Db` has a list of rows for each table. Every statement may fail; a transaction
--     that fails restores the tables, but a COMMIT that gives an error may have taken effect
--     (Postgres/Transactions). What the server and the driver decide (UUID syntax, NUMERIC rounding,
--     error texts) is the record `Postgres`, a parameter. Postgres/Pool is `Connect` of postgres.go and
--     Postgres/Migrate is migrate.go, over pgxpool and goose as parameters (`PoolApi`, `Goose`).
--   App/*: internal/application: the ports, `WalletService`, `Onboarding`, `MiniAppAuth`, `ChainSync` and
--     `HealthChecker`, for every state `S` and every implementation of the ports.
--   InitData/*: internal/telegram/initdata, with `Verify` (`verify`) and `VerifyThirdParty`, and the replay
--     guard of internal/persistence/redis/guard.go (InitData/Guard), over a Redis with a clock of its own; what
--     the client makes of an expiry is a parameter. HMAC, Ed25519, base64 and JSON are the
--     record `Library`, a parameter; `url.ParseQuery`, hexadecimal and sorting are written out.
--   Telegram/*: the router, the commands and the test for pasted secrets of internal/telegram, and the rate
--     limiter of internal/persistence/redis/guard.go.
--     Telegram/Bot is the adapter of bot.go and notifier.go: what it hands on, how it cuts long replies, its
--     menu, its start. Telegram/Table is the table of commands, and Telegram/Register is `NewRouter` and the
--     registration of the five commands; the closure of `handleHelp` is a case of `Handler` of its own.
--   Chain/*: internal/chain: `retry.go` (`retry_do`), `client.go` (`dial`, the reads and their checks) and
--     `subscriber.go`, whose `Run` is the step relation `RunStep` between the states of the loop.
--     go-ethereum, timers and contexts are the records `Node` and `Runtime`, parameters.
--   Config/*: internal/config/config.go (`load`, `config_checks`, the readers of variables); the
--     variables of the process are the record `Environment`, a parameter. Also what the commands make of it:
--     `toTelegramIDs` and `defaultPolicy` of cmd/bot, cmd/worker and cmd/api.
--   Http and Http/*: internal/httpapi (server.go, miniapp.go): health and readiness, the session and wallet
--     routes, and the middleware that authenticates. Routing, decoding of bodies and the text of an instant
--     are parameters. Http/Running is `Run` of the server; Http/Apart (with App/Wallets/Apart) is about what a
--     request leaves of the state.
--   Bootstrap: internal/bootstrap/bootstrap.go over any connections, with what is open after a failure
--     (Bootstrap/Closing). Bootstrap/Connecting is the same over the connections of the code, with
--     internal/persistence/redis/redis.go in Bootstrap/RedisClient; its hypotheses on the libraries are the
--     record `IsDriving`: making a connection opens it, closing it closes it, and no other call does either.
--   Cmd: what the commands share: `run_process` is `run`, over the test of the command and its body, and
--     `Ports` is what the constructors of the repositories, of the chain client and of the guards give.
--     Cmd/Api, Cmd/Bot and Cmd/Worker are the parts and the bodies of the three; Cmd/Migrate and
--     Cmd/Healthcheck are cmd/migrate and cmd/healthcheck.
--   Observability: the level of a text (internal/observability/logging) and the metadata of the build
--     (internal/observability/buildinfo).
--   Queue: the task handlers of internal/queue/tasks, `SkipRetry` and the retry delay of
--     internal/queue/server.go; JSON payloads are the record `Payloads`, a parameter. Queue/Server: the rest
--     of server.go, and queue.go, with the handlers by the type of their tasks.
--     Queue/Client: internal/queue/client.go and enqueuer.go; the broker is a parameter.
--   System/*: the use cases over the repositories, one chain node and one queue, with what holds of them
--     together; System/Progress sets recorded heads beside a register of the highest number, and
--     System/Delivery has the deliveries of one verification task in a row. System/Site fills the
--     ports of the commands with the repositories and Redis.
--   Examples/*: runs on small inputs.
--
-- Bounds and fuel. `decimal` writes a number with one more unit of fuel than its value, which is enough
-- since a number falls with every digit; `itoa` has the twenty digits of its buffer, which hold every
-- 64-bit number. `retry_loop` has one unit of fuel more than the retries allowed (Chain/Retry/Bounds
-- says what that gives). Every other loop is structural. `Sub` of instants is held to 64 bits and
-- `time.Unix` wraps round as in Go; block numbers and chain identifiers pass through `int64` on their way
-- to the tables. The tables keep instants as they are given, where a TIMESTAMPTZ has microseconds.
--
-- What is not modelled. Logging, and the choice of a handler of slog; contexts and deadlines, beyond the
-- answers of `Runtime`; signals; the interleaving of concurrent transactions and of the goroutines of an
-- errgroup, each repository call being one step and each group one call with an answer (`Serving`,
-- `Working`); letter case beyond ASCII; the limit of newer Go versions on the number of pairs in a query;
-- `ListByAction` of the audit trail, a query that only tests send; the names of tasks and actions that
-- nothing uses yet. What net/http, Asynq, pgxpool, go-redis, goose, go-ethereum and the library of the Bot
-- API do is not in the repository.
pub mod Prelude
pub mod Go
pub mod Domain
pub mod Postgres
pub mod App
pub mod System
pub mod InitData
pub mod Telegram
pub mod Cmd
pub mod Examples
pub mod Queue
pub mod Chain
pub mod Config
pub mod Http
pub mod Bootstrap
pub mod Observability
