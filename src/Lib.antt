-- ===== src/Lib.antt =====
-- squeuelite: a gateway that serialises all writes to a SQLite database through one writer.
--
-- Requests come in through a channel and are executed by a single writer thread, each in its own
-- transaction or, when batching is on, several in one transaction with a savepoint for each. A
-- request with an idempotency key is remembered in a table, inside its own transaction.
--
-- - Config, Request, Error: src/config.rs, src/request.rs, src/error.rs, types and defaults.
-- - Validate: `validate_sql` of src/writer.rs. Params: `params_from` there, over Json.
-- - Latency: `push_latency`. Statements: the SQL text that the program issues.
-- - Driver: rusqlite as a record of calls on a connection (`Driver`), with what is relied on in
--   SQLite as `Laws` over snapshots of the data. Codec: serde_json and base64 as a record.
-- - Writer: the actor's state and `apply`, `apply_inner`. The connection is passed along, an early
--   return is an error of `Tx`, and a transaction that is not committed is dropped.
--   Writer/Batch: `apply_batch`, `apply_savepoint`. Writer/Loop: `run`.
-- - Spec and Serial: what is promised, on the data alone: a request is answered from the checks or
--   runs as one transaction; a queue is executed one command at a time. Spec/Numbers and
--   Serial/Numbers: the numbers of commits there. The other modules below Writer relate the code
--   to them.
-- - Http: `rpc_handler` of src/http.rs. Http/Server: the rest of that file, `HttpGateway::serve` and
--   its router, over axum as a record. Http/Transports has what is relied on in axum for one request,
--   and Http/Alike puts the two transports side by side. Sidecar: `handle_connection` of src/sidecar.rs, on the list
--   of what its reads give; Sidecar/Run: `run` and `accept_loop` there and `run_uds_inline` of the
--   binary, over the calls of the system, on the list of what the listener gives.
-- - Effect: code that moves a state and may return early with an error, for do blocks.
-- - Client: src/client.rs over the two halves of a stream. Client/Wire puts the loop of one
--   connection at the other end of it, and says what a call and a reply are on the wire: a call is a
--   value of serde_json, whose members are sorted by key, and a reply the text of a struct, whose
--   members come in the order of the fields. Squeue: clients/rust/squeue.rs. Client/Connect opens the
--   stream of either.
-- - Binary: `parse_args` of src/bin/squeuelite-gateway.rs and what `main` runs for its options.
--   Binary/Main is its first case, a sidecar alone, and Binary/Shared its second, the HTTP server with
--   or without a socket, and `main` as a whole, to the exit code. Binary/Banner is what is printed of
--   a configuration.
-- - Gateway: `GatewayHandle` and `shutdown` of src/inprocess.rs, over tokio's channels as a record.
--   Gateway/Attached puts the writer at the other end of a channel, and Stack the client, the socket,
--   the dispatcher, the handle and that writer together, for one request and for a session.
--   Gateway/Process is `InProcessGateway` as an object.
-- - System: callers, the bounded channel and the writer's thread as one state, with a relation of
--   steps in any order: a call begins, enters the channel, or is turned away; the sending ends go; the
--   thread receives a command, tries to collect one more, or executes what it holds. `log` is the
--   order in which commands entered the channel, and `Reach` are the states that can come about.
--   System/Trace is what the thread has done with the log, and System/Equivalence puts the thread
--   beside the loop of Writer/Loop.
-- - Startup: `apply_pragmas` and `run_migrations` of src/writer.rs, `open_with_config`.
-- - Stats: src/stats.rs. Rpc: src/jsonrpc.rs, over the gateway's handle and serde as records; a
--   request is handled from its text to its reply, and the state of the program is passed along.
--   Rpc/Inflight has the counters alone, with several requests on their way.
-- - Tests: a small database that keeps the laws, and the theorems at concrete requests.
--
-- The channel is a list of arrivals in the order of sending, each marked ready or late: a late one
-- is what `try_recv` did not find yet. The fuel of `run_loop` is the length of the queue and one
-- more, and each pass of the loop takes a command off it. A sender of responses is a number, and a
-- send to a receiver that is gone is a send.
--
-- `IsPlain` is what a statement has to be for the laws of transactions to hold of it: it is no
-- transaction control and does not raise ROLLBACK. `validate_sql` does not establish it.
--
-- `Willing` is what a driver has to be for no request to fail for a reason outside of it: BEGIN with
-- no transaction open, COMMIT and SAVEPOINT in a transaction, and RELEASE of the open savepoint
-- succeed, so that nothing else locks the file. `Refusal` is one of these calls that fails. Of calls
-- out of place, such as a BEGIN in a transaction, nothing is asked.
--
-- The fuel of `parse_loop` is the length of the command line and one more; each pass of that loop
-- moves the index on.
--
-- The loop of Writer/Loop takes the whole queue with the arrival times that it is given; System does
-- not, and its thread finds in the channel what is there when it looks. In System a command is
-- executed in one step, and the one-shot channel of a caller that has gone is answered like any other.
-- The fuel of `thread` is what `steps_left` says and one more: two for each queued command and up to
-- three for the phase, which each step of the thread brings down.
--
-- Not modelled: the connections of the HTTP server side by side, and the dispatcher with
-- several requests at the same time, but for its counters, and for the commands that it sends;
-- the tasks of the second case of `main` while they run, and the build without HTTP; what the
-- binary prints but for its first line; the lock of the latency buffer, but for a poisoned one,
-- since it is held for single reads and writes; time, but for the elapsed microseconds that the
-- driver's record gives.
pub mod Common
pub mod Config
pub mod Error
pub mod Json
pub mod Request
pub mod Validate
pub mod Codec
pub mod Params
pub mod Statements
pub mod Driver
pub mod Effect
pub mod Latency
pub mod Writer
pub mod Spec
pub mod Serial
pub mod Stats
pub mod System
pub mod Rpc
pub mod Http
pub mod Sidecar
pub mod Client
pub mod Squeue
pub mod Binary
pub mod Gateway
pub mod Startup
pub mod Stack
pub mod Tests
