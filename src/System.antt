-- ===== src/System.antt =====
-- The gateway with its callers and its writer's thread, one step at a time and in any order: calls
-- that begin, enter the bounded channel or are turned away, and the writer's thread between two of
-- its receptions (src/inprocess.rs: `GatewayHandle::execute`, `GatewayHandle::checkpoint`,
-- `InProcessGateway::shutdown`; src/writer.rs: `run`).
pub mod Trace
pub mod Callers
pub mod Refinement
pub mod Replies
pub mod Linear
pub mod Kept
pub mod Once
pub mod Progress
pub mod Branches
pub mod Alone
pub mod Equivalence
pub mod Order
pub mod Numbers
use squeuelite_rs.Common.{
  ℕ, zero, suc, ◌+◌, ◌-◌, ◌<◌, ◌≡◌, Bool, true, false, Option, none, some, List, [], ◌∷◌, ◌++◌,
  length, if◌then◌else◌,
}
use squeuelite_rs.Config.{OverflowPolicy, wait, reject, wait_timeout}
use squeuelite_rs.Error.{Error, gateway_closed, gateway_overloaded}
use squeuelite_rs.Request.{WriteRequest}
use squeuelite_rs.Codec.{Codec}
use squeuelite_rs.Driver.{Driver}
use squeuelite_rs.Writer.{Writer}
use squeuelite_rs.Writer.Batch.{Ticket}
use squeuelite_rs.Writer.Loop.{
  Command, write, shutdown, checkpoint, Sent, Pass, is_single, handle, apply_collected,
  handle_deferred, shutdown_checkpoint,
}

-- What a caller asks of the gateway.
pub data Call : Type 0 where
  execute_call : WriteRequest → Call
  checkpoint_call : Call
  shutdown_call : Call

-- Where the writer's thread is: at `blocking_recv`; in the collection of a batch, with the room that
-- is left in it, its first request and the others in the order of their arrival; out of the loop; or
-- gone, and the receiving end of the channel with it.
pub data Phase : Type 0 where
  receiving : Phase
  collecting : ℕ → WriteRequest → Ticket → List (WriteRequest × Ticket) → Phase
  closing : Phase
  stopped : Phase

-- `calling` are the commands that wait in `send`, and `refused` those that never entered the channel,
-- each with its error or, where the caller has gone, none. `log` are the commands that entered, in
-- their order. `senders` says that some sending end of the channel is left.
pub record System (C : Type 0) : Type 0 where
  pub next : Ticket
  pub calling : List Command
  pub refused : List (Command × Option Error)
  pub log : List Command
  pub queue : List Command
  pub senders : Bool
  pub phase : Phase
  pub writer : Writer C
  pub sent : Sent

-- A call makes its one-shot channel, if it awaits an answer, and its command.
unfoldable pub issue : {C : Type 0} → Call → System C → System C
issue (execute_call req) s = record s { next = s.next + 1; calling = write req s.next ∷ s.calling }
issue checkpoint_call s = record s { next = s.next + 1; calling = checkpoint s.next ∷ s.calling }
issue shutdown_call s = record s { calling = shutdown ∷ s.calling }

-- A command that waited between the others enters the channel.
abbrev pub admitted : {C : Type 0} → List Command → Command → List Command → System C → System C
admitted before command after s = record s {
  calling = before ++ after;
  log = s.log ++ command ∷ [];
  queue = s.queue ++ command ∷ [];
}

abbrev pub turned_away :
    {C : Type 0} → List Command → Command → List Command → Option Error → System C → System C
turned_away before command after why s = record s {
  calling = before ++ after;
  refused = (command, why) ∷ s.refused;
}

-- Why a command may be turned away. A caller may always be gone. Only a request is subject to the
-- policy: with `reject` the places that are left are taken, by the queue or by those who wait, and a
-- timeout may pass at any time.
unfoldable pub Refuses :
    {C : Type 0} → ℕ → OverflowPolicy → System C → Command → Option Error → Type 0
Refuses capacity policy s command none = Unit {0}
Refuses capacity policy s command (some gateway_closed) = s.phase ≡ stopped
Refuses capacity reject s (write req ticket) (some gateway_overloaded) =
    capacity < length s.queue + length s.calling
Refuses capacity (wait_timeout millis) s (write req ticket) (some gateway_overloaded) = Unit {0}
Refuses capacity policy s command (some _) = ⊥

-- The receiving end of the channel is there.
abbrev pub IsReceiver : Phase → Type 0
IsReceiver stopped = ⊥
IsReceiver _ = Unit {0}

module _ {C : Type 0} (driver : Driver C) (codec : Codec) where
  -- The end of a pass of the loop: back to `blocking_recv`, or out of the loop.
  abbrev pub passed : System C → List Command → Pass driver codec → System C
  passed s rest (sent, w, stop) = record s {
    queue = rest;
    phase = if stop then closing else receiving;
    writer = w;
    sent = s.sent ++ sent;
  }

  -- `blocking_recv` has given a command.
  unfoldable pub received : System C → Command → List Command → System C
  unfolding handle
  received s (write req ticket) rest = elim s.writer.config.batch [
    | none ↦ passed s rest (handle driver codec s.writer (write req ticket))
    | some limits ↦
        if is_single req
        then record s { queue = rest; phase = collecting (limits.max_size - 1) req ticket [] }
        else passed s rest (handle driver codec s.writer (write req ticket))
  ]
  received s shutdown rest = passed s rest (handle driver codec s.writer shutdown)
  received s (checkpoint ticket) rest =
      passed s rest (handle driver codec s.writer (checkpoint ticket))

  -- The batch is complete: it is executed, and then the command that ended it.
  abbrev pub applied :
      System C
      → WriteRequest
      → Ticket
      → List (WriteRequest × Ticket)
      → Option Command
      → List Command
      → System C
  unfolding apply_collected handle_deferred
  applied s req ticket batch deferred rest = passed s rest (
      handle_deferred driver codec deferred
        (apply_collected driver codec s.writer req ticket batch))

  -- One round of the collection, with its `try_recv` if there is room.
  unfoldable pub collected :
      System C → ℕ → WriteRequest → Ticket → List (WriteRequest × Ticket) → List Command → System C
  unfolding applied
  collected s zero req ticket batch queue = applied s req ticket batch none queue
  collected s (suc room) req ticket batch [] = applied s req ticket batch none []
  collected s (suc room) req ticket batch (write other on ∷ rest) =
      if is_single other
      then record s { queue = rest; phase = collecting room req ticket (batch ++ (other, on) ∷ []) }
      else applied s req ticket batch (some (write other on)) rest
  collected s (suc room) req ticket batch (shutdown ∷ rest) =
      applied s req ticket batch (some shutdown) rest
  collected s (suc room) req ticket batch (checkpoint on ∷ rest) =
      applied s req ticket batch (some (checkpoint on)) rest

  -- The checkpoint at shutdown, and the drop of the receiving end with what is left in the queue.
  abbrev pub gone : System C → System C
  gone s = record s {
    queue = [];
    phase = stopped;
    writer = shutdown_checkpoint driver codec s.writer;
  }

  -- The next step of the writer's thread; `none` where it waits, or has ended. At an empty queue it
  -- waits as long as a sending end is left.
  unfoldable pub advance_in : Phase → List Command → System C → Option (System C)
  unfolding received collected
  advance_in receiving [] s = if s.senders then none else some (record s { phase = closing })
  advance_in receiving (command ∷ rest) s = some (received s command rest)
  advance_in (collecting room req ticket batch) queue s =
      some (collected s room req ticket batch queue)
  advance_in closing queue s = some (gone s)
  advance_in stopped queue s = none

  unfoldable pub advance : System C → Option (System C)
  unfolding advance_in
  advance s = advance_in s.phase s.queue s

  -- A step of the program: of a caller, of the channel or of the writer's thread.
  pub data Step (capacity : ℕ) (policy : OverflowPolicy) (s : System C) : System C → Type 0 where
    calls : (call : Call) → s.senders ≡ true → Step capacity policy s (issue call s)
    enters :
        (before after : List Command) (command : Command)
        → s.calling ≡ before ++ command ∷ after
        → length s.queue < capacity
        → IsReceiver s.phase
        → Step capacity policy s (admitted before command after s)
    leaves :
        (before after : List Command) (command : Command) (why : Option Error)
        → s.calling ≡ before ++ command ∷ after
        → Refuses capacity policy s command why
        → Step capacity policy s (turned_away before command after why s)
    drops : s.calling ≡ [] → Step capacity policy s (record s { senders = false })
    advances : {t : System C} → advance s ≡ some t → Step capacity policy s t

  -- The gateway as it is opened.
  abbrev pub opened : Writer C → System C
  opened w = record {
    next = 0;
    calling = [];
    refused = [];
    log = [];
    queue = [];
    senders = true;
    phase = receiving;
    writer = w;
    sent = [];
  }

  pub data Reach (capacity : ℕ) (policy : OverflowPolicy) (w : Writer C) : System C → Type 0 where
    start : Reach capacity policy w (opened w)
    later :
        {s t : System C}
        → Reach capacity policy w s
        → Step capacity policy s t
        → Reach capacity policy w t
