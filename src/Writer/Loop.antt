-- ===== src/Writer/Loop.antt =====
-- The writer's loop over its channel, with the greedy collection of batches (src/writer.rs, `run`).
pub mod Queue
pub mod Rule
pub mod Passes
pub mod Replies
pub mod Numbers
pub mod Invariant
pub mod Refinement
use squeuelite_rs.Common.{
  ℕ, zero, suc, ◌-◌, Bool, true, false, Option, none, some, List, [], ◌∷◌, ◌++◌, map, Result,
  length, ◌==◌, if◌then◌else◌, map_err,
}
use squeuelite_rs.Config.{BatchConfig}
use squeuelite_rs.Error.{Error, sqlite}
use squeuelite_rs.Request.{WriteRequest, WriteResponse}
use squeuelite_rs.Codec.{Codec}
use squeuelite_rs.Driver.{Driver}
use squeuelite_rs.Statements.{wal_checkpoint}
use squeuelite_rs.Writer.{Writer, apply}
use squeuelite_rs.Writer.Batch.{Ticket, apply_batch}

pub data Command : Type 0 where
  write : WriteRequest → Ticket → Command
  shutdown : Command
  checkpoint : Ticket → Command

-- A command as it comes through the channel. A late one was not there yet when `try_recv` asked
-- for it, which then found the queue empty; `blocking_recv` waits for it.
pub data Arrival : Type 0 where
  ready late : Command → Arrival

abbrev pub command_of : Arrival → Command
command_of (ready command) = command
command_of (late command) = command

-- What is sent back on a ticket.
pub data Reply : Type 0 where
  written : WriteResponse → Reply
  checkpointed : Result (Unit {0}) Error → Reply

abbrev pub Sent : Type 0
Sent = List (Ticket × Reply)

abbrev pub sent_writes : List (Ticket × WriteResponse) → Sent
sent_writes = map (λ r. (r.0, written r.1))

-- What `try_recv` gave while a batch was collected: the batch, a command to be handled after it,
-- and the rest of the queue.
pub record Drained : Type 0 where
  pub batch : List (WriteRequest × Ticket)
  pub deferred : Option Command
  pub rest : List Arrival

abbrev pub is_single : WriteRequest → Bool
is_single req = length req.operations == 1

-- The inner `while batch.len() < max_size` loop; `room` is what is left below `max_size`.
abbrev pub nothing_drained : List Arrival → Drained
nothing_drained queue = record { batch = []; deferred = none; rest = queue }

-- A command that ends the batch and comes after it.
abbrev pub deferring : Command → List Arrival → Drained
deferring command queue = record { batch = []; deferred = some command; rest = queue }

unfoldable pub drain : ℕ → List Arrival → Drained
drain zero queue = nothing_drained queue
drain (suc room) [] = nothing_drained []
drain (suc room) (late command ∷ queue) = nothing_drained (late command ∷ queue)
drain (suc room) (ready (write req ticket) ∷ queue) =
    let more = drain room queue in
    if is_single req
    then record more { batch = (req, ticket) ∷ more.batch }
    else deferring (write req ticket) queue
drain (suc room) (ready shutdown ∷ queue) = deferring shutdown queue
drain (suc room) (ready (checkpoint ticket) ∷ queue) = deferring (checkpoint ticket) queue

module _ {C : Type 0} (driver : Driver C) (codec : Codec) where
  -- What one pass has sent, the writer after it, and whether the loop ends there.
  abbrev pub Pass : Type 0
  Pass = Sent × Writer C × Bool

  abbrev pub apply_one : Writer C → WriteRequest → Ticket → Sent × Writer C
  apply_one w req ticket =
      let (response, w') = apply driver codec w req in ((ticket, written response) ∷ [], w')

  -- A command by itself, at the head of the loop or deferred by a batch.
  unfoldable pub handle : Writer C → Command → Pass
  unfolding apply
  handle w (write req ticket) = let (sent, w') = apply_one w req ticket in (sent, w', false)
  handle w shutdown = ([], w, true)
  handle w (checkpoint ticket) =
      let (result, c) = driver.execute_batch wal_checkpoint w.conn in
      ((ticket, checkpointed (map_err sqlite result)) ∷ [], record w { conn = c }, false)

  -- A batch of one goes the way of a single request.
  unfoldable pub apply_collected :
      Writer C → WriteRequest → Ticket → List (WriteRequest × Ticket) → Sent × Writer C
  unfolding apply apply_batch
  apply_collected w req ticket [] = apply_one w req ticket
  apply_collected w req ticket (r ∷ more) =
      let (responses, w') = apply_batch driver codec w ((req, ticket) ∷ r ∷ more) in
      (sent_writes responses, w')

  unfoldable pub handle_deferred : Option Command → Sent × Writer C → Pass
  unfolding handle
  handle_deferred none (sent, w) = (sent, w, false)
  handle_deferred (some command) (sent, w) =
      let (more, w', stop) = handle w command in (sent ++ more, w', stop)

  unfoldable pub collect :
      Writer C → BatchConfig → WriteRequest → Ticket → List Arrival → Pass × List Arrival
  unfolding drain apply_collected handle_deferred
  collect w limits req ticket queue =
      let d = drain (limits.max_size - 1) queue in
      (handle_deferred d.deferred (apply_collected w req ticket d.batch), d.rest)

  -- The body of the loop, on the command that `blocking_recv` gave.
  unfoldable pub turn : Writer C → Command → List Arrival → Pass × List Arrival
  unfolding handle collect
  turn w (write req ticket) queue = elim w.config.batch [
    | none ↦ (handle w (write req ticket), queue)
    | some limits ↦
        if is_single req
        then collect w limits req ticket queue
        else (handle w (write req ticket), queue)
  ]
  turn w shutdown queue = (handle w shutdown, queue)
  turn w (checkpoint ticket) queue = (handle w (checkpoint ticket), queue)

  -- What a pass has sent comes before what the loop goes on to send.
  unfoldable pub resume :
      Bool → Sent → Writer C → Option (Sent × Writer C) → Option (Sent × Writer C)
  resume true sent w later = some (sent, w)
  resume false sent w none = none
  resume false sent w (some (more, w')) = some (sent ++ more, w')

  -- `while let Some(cmd) = blocking_recv()`; the empty queue is the closed channel. `none` means
  -- that the fuel ran out.
  unfoldable pub run_loop : ℕ → Writer C → List Arrival → Option (Sent × Writer C)
  unfolding turn resume
  run_loop zero w queue = none
  run_loop (suc fuel) w [] = some ([], w)
  run_loop (suc fuel) w (a ∷ queue) =
      let ((sent, w', stop), rest) = turn w (command_of a) queue in
      let later = run_loop fuel w' rest in resume stop sent w' later

  -- The checkpoint at shutdown; its outcome is ignored.
  abbrev pub shutdown_checkpoint : Writer C → Writer C
  shutdown_checkpoint w = record w { conn = (driver.execute_batch wal_checkpoint w.conn).1 }

  -- The whole loop. Each pass takes a command off the queue, so the fuel is enough.
  abbrev pub ended : Option (Sent × Writer C) → Option (Sent × Writer C)
  ended none = none
  ended (some (sent, w)) = some (sent, shutdown_checkpoint w)

  unfoldable pub run : Writer C → List Arrival → Option (Sent × Writer C)
  unfolding run_loop
  run w queue = ended (run_loop (suc (length queue)) w queue)
