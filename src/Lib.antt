-- ===== src/Lib.antt =====
-- A verification library of hoopoe, a social event platform: notifications that actors produce to
-- and consume from brokers, a websocket server that hands them on, tokens that guard the API, and
-- hoops (events) that end.
--
-- How the parts interact. A producer seals a notification (Crypter), leaves its keys in Redis and
-- publishes; a consumer with the same keys opens it, puts the text into the channel of the
-- websocket server, adds the notification to its receiver's list in Redis, and sends it to the
-- mutator actor (Broker). The sessions of the websocket server share the receiver of that channel
-- (Ws), and the API answers requests for stored notifications (Api). An API request passes the token
-- check, against tokens that the token handler left in Redis (Access). Adding a hoop sets a key in
-- Redis whose expiry tells the scheduler of the hoop's end (Hoop).
--
-- Which file models which part; names are those of the source, in snake case.
--   Base, Models: shared names, and the data of src/models/event.rs, src/models/server.rs and
--     src/constants/mod.rs.
--   Service: Redis, serde, hex, themis' secure cell, http, chrono and RabbitMQ, as records of functions
--     with the laws that the code relies on; a definition takes them as arguments.
--   Files: the file system, as a map from paths to bytes.
--   Errors: src/error/mod.rs. The error record that callers leave, the log file (Log), and the
--     conversions of errors with the http writer (From). Kinds has the errors inside the kinds.
--   Zerlog: src/workers/zerlog/mod.rs, and HoopoeErrorResponse::new of src/error/mod.rs.
--   Crypter: src/interfaces/crypter.rs.
--   Broker: src/workers/notif/mod.rs. Cache is the cache step, Process what one message does,
--     Consume the loops of consumeFromRmq, consumeFromKafka and consumeFromRedis, Publish the
--     producers, Actor its messages and handlers. World is the state outside, Run adds the consumer's
--     own, with the offsets that Kafka's client commits by itself.
--   Access: src/interfaces/passport.rs, src/apis/v1/http/auth.rs, src/middlewares/passport.rs and
--     src/middlewares/check_token.rs, with src/models/user.rs (User). History lets requests for tokens take turns with the other
--     writes to Redis.
--   Ws: src/server/mod.rs, with the statics of src/constants/mod.rs in the record Hub.
--     Upgrade is the handler of src/apis/v1/ws/notif.rs.
--   Hoop: src/apis/v1/http/hoop.rs (Add), src/workers/scheduler/mod.rs and the handler and
--     FinishHoop of src/workers/cqrs/mutators/hoop.rs (Schedule), and the rest of that file, with the
--     queries of src/constants/queries.rs (Mutator). Handlers and Cron are the other handlers and
--     tasks of these files.
--   Api: src/apis/v1/http/notif.rs, get_notif (Fetch) and register_notif (Register), and
--     src/workers/cqrs/accessors/notif.rs, its queries and cached answers (Accessor).
--   Cqrs: the rows of notifications: src/workers/cqrs/mutators/notif.rs (Store), and by their id
--     src/workers/cqrs/accessors/notif.rs (Seen). Failure formats the errors of src/workers/cqrs.rs.
--   Storage: src/storage/cruft.rs, the bounded buffer and the engine over it (Database), and
--     src/storage/engine.rs (Engine).
--   Start: src/app.rs, src/server/mod.rs and AppContext of src/context/mod.rs (Server), the variables
--     of src/config/mod.rs (Config), and the routes of src/routers/mod.rs and of the functions
--     register_controller (Routes).
--   Schema: migration/src, one file for each migration, over a schema manager (Manager).
--   Requests: src/requests/mod.rs.
--   Lockers: src/lockers/llm.rs. Minting has the tasks of a call, Steps lets the tasks of any number
--     of calls take turns over the one list of locked ids. Bounded counts the steps, Calls follows one
--     call, Held and Locks the list, and Finished puts them together. Dlm is src/lockers/dlm.rs.
--   Health: src/apis/v1/http/health.rs, check_health (Check) and picer (Picture); its handler mint is
--     in Lockers.
--   Cry: src/crypter/src/cry.rs, and src/crypter/src/wallet.rs (Evm).
--   Workers: workerthreadpool of src/workers/actor.rs: the pool of async tasks (Tasks), that of
--     rayon's jobs (Rayon) and that of threads with its destructor (Threads). Stock and Garage have
--     the experiments of that file: a watched price, a pool of cars, an event loop, subscribers.
--   Examples: services that run, and the theorems at concrete inputs.
--
-- What is assumed. A spawned task runs to its end before the next message, but in Broker/Race,
-- where the tasks of two cache steps interleave, in Cqrs/StoreLaws, where the storing tasks end in
-- any order, and in Lockers and Workers, where all tasks interleave. Kafka's client commits what it
-- has delivered at the latest when the consumer is closed.
-- The actors that keep hoops take each message. A command on a connection that was acquired does
-- not fail but as Service/Redis says; an error of a service has a source, but in Errors/From. The
-- database gives rows in a fixed order. A broker's stream of messages is a list; the loops recur on
-- it and need no fuel. The rounds of runInterval are counted, and so are those of the engine's
-- loops and the depth of calls in Cqrs/Failure, over all numbers of them. Text is a list of bytes;
-- i64, u64 and usize have 64 bits.
--
-- What is not modelled: the logger and the server over HTTP/3, mail and payment, the tests, and
-- the defaults of wallexerr's records that src/crypter/src/wallet.rs passes on. The hoop accessor
-- and the updates and deletions of the mutators have no body.
pub mod Base
pub mod Models
pub mod Service
pub mod Errors
pub mod Crypter
pub mod Broker
pub mod Access
pub mod Workers
pub mod Ws
pub mod Hoop
pub mod Api
pub mod Requests
pub mod Schema
pub mod Start
pub mod Storage
pub mod Lockers
pub mod Cry
pub mod Zerlog
pub mod Cqrs
pub mod Files
pub mod Health
pub mod Examples
