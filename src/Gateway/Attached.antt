-- ===== src/Gateway/Attached.antt =====
-- The gateway's handle with the writer at the other end of its channel (src/inprocess.rs,
-- src/writer.rs). The writer takes its turn while the handle awaits the answer.
use squeuelite_rs.Common.{
  ℕ, zero, suc, ◌+◌, ◌-◌, ◌≡◌, refl, ap, ◌∙◌, Bool, true, false, Option, none, some, List, [], ◌∷◌,
  ◌++◌, Result, ok, err, length, ◌==◌, if◌then◌else◌, arith,
}
use squeuelite_rs.Config.{OverflowPolicy, wait, reject, wait_timeout, BatchConfig}
use squeuelite_rs.Error.{Error}
use squeuelite_rs.Request.{WriteRequest, WriteResponse}
use squeuelite_rs.Codec.{Codec}
use squeuelite_rs.Driver.{Driver}
use squeuelite_rs.Writer.{Writer, apply}
use squeuelite_rs.Writer.Batch.{Ticket}
use squeuelite_rs.Writer.Loop.{
  Command, write, command_of, Arrival, ready, written, checkpointed, Sent, turn, drain,
  nothing_drained, collect, apply_collected, handle_deferred, handle, is_single,
}
use squeuelite_rs.Gateway.{Channel, submit, enqueue, receive}

-- The number of the next one-shot channel, the commands in the queue, what was sent on the
-- one-shot channels, and the writer.
pub record Attached (C : Type 0) : Type 0 where
  pub next : Ticket
  pub pending : List Arrival
  pub sent : Sent
  pub writer : Writer C

abbrev pub response_on : Ticket → Sent → Result WriteResponse (Unit {0})
response_on ticket [] = err tt
response_on ticket ((on, checkpointed result) ∷ sent) = response_on ticket sent
response_on ticket ((on, written response) ∷ sent) =
    let later = response_on ticket sent in if on == ticket then ok response else later

abbrev pub result_on : Ticket → Sent → Result (Result (Unit {0}) Error) (Unit {0})
result_on ticket [] = err tt
result_on ticket ((on, written response) ∷ sent) = result_on ticket sent
result_on ticket ((on, checkpointed result) ∷ sent) =
    let later = result_on ticket sent in if on == ticket then ok result else later

module _ {C : Type 0} (driver : Driver C) (codec : Codec) (size : ℕ) where
  -- One pass of the writer's loop.
  abbrev pub pass : Attached C → List Arrival → Attached C
  unfolding turn
  pass a [] = a
  pass a (command ∷ queue) =
      let ((sent, w, stop), rest) = turn driver codec a.writer (command_of command) queue in
      record { next = a.next; pending = rest; sent = a.sent ++ sent; writer = w }

  unfoldable pub awaited : Attached C → Attached C
  unfolding pass
  awaited a = pass a a.pending

  abbrev pub queued : Command → Attached C → Attached C
  queued command a = record a { pending = a.pending ++ ready command ∷ [] }

  unfoldable pub attached : Channel (Attached C)
  unfolding awaited
  attached = record {
    oneshot = λ a. (a.next, record a { next = a.next + 1 });
    send = λ command a. (ok tt, queued command a);
    try_send = λ command a. (ok tt, queued command a);
    send_timeout = λ millis command a. (ok (ok tt), queued command a);
    response = λ ticket a. (response_on ticket (awaited a).sent, record (awaited a) { sent = [] });
    checkpoint_result =
        λ ticket a. (result_on ticket (awaited a).sent, record (awaited a) { sent = [] });
    max_capacity = λ a. size;
    capacity = λ a. size - length a.pending;
    join = λ a. (ok tt, a);
  }

  drain-empty : (room : ℕ) → drain room [] ≡ nothing_drained []
  unfolding drain
  drain-empty zero = refl
  drain-empty (suc room) = refl

  abbrev alone : Writer C → WriteRequest → Ticket → (Sent × Writer C × Bool) × List Arrival
  alone w req ticket = (
    ((ticket, written (apply driver codec w req).0) ∷ [], (apply driver codec w req).1, false),
    [],
  )

  collect-alone :
      (w : Writer C) (limits : BatchConfig) (req : WriteRequest) (ticket : Ticket)
      → collect driver codec w limits req ticket [] ≡ alone w req ticket
  unfolding collect apply_collected handle_deferred
  collect-alone w limits req ticket = rw (drain-empty (limits.max_size - 1), collect) refl

  turn_on-alone :
      (single : Bool) (limits : BatchConfig) (w : Writer C) (req : WriteRequest) (ticket : Ticket)
      → (if single
          then collect driver codec w limits req ticket []
          else (handle driver codec w (write req ticket), []))
        ≡ alone w req ticket
  unfolding handle
  turn_on-alone true limits w req ticket = collect-alone w limits req ticket
  turn_on-alone false limits w req ticket = refl

  turn_with-alone :
      (batch : Option BatchConfig) (w : Writer C) (req : WriteRequest) (ticket : Ticket)
      → elim batch [
        | none ↦ (handle driver codec w (write req ticket), [])
        | some limits ↦
            if is_single req
            then collect driver codec w limits req ticket []
            else (handle driver codec w (write req ticket), [])
      ]
        ≡ alone w req ticket
  unfolding handle
  turn_with-alone none w req ticket = refl
  turn_with-alone (some limits) w req ticket = turn_on-alone (is_single req) limits w req ticket

  turn-alone :
      (w : Writer C) (req : WriteRequest) (ticket : Ticket)
      → turn driver codec w (write req ticket) [] ≡ alone w req ticket
  unfolding turn
  turn-alone w req ticket = turn_with-alone w.config.batch w req ticket

  -- The queue is empty, and nobody awaits an answer.
  abbrev pub resting : Ticket → Writer C → Attached C
  resting next w = record { next = next; pending = []; sent = []; writer = w }

  awaited-alone :
      (n next : Ticket) (w : Writer C) (req : WriteRequest)
      → awaited (queued (write req n) (resting next w)) ≡ record {
        next = next;
        pending = [];
        sent = (n, written (apply driver codec w req).0) ∷ [];
        writer = (apply driver codec w req).1;
      }
  unfolding awaited pass
  awaited-alone n next w req = rw (turn-alone w req n) refl

  response_on-own :
      (n : Ticket) (response : WriteResponse)
      → response_on n ((n, written response) ∷ []) ≡ ok response
  response_on-own n response = let own : (n == n) ≡ true = ground arith in rw own refl

  response-alone :
      (n next : Ticket) (w : Writer C) (req : WriteRequest)
      → attached.response n (queued (write req n) (resting next w))
        ≡ (ok (apply driver codec w req).0, resting next (apply driver codec w req).1)
  unfolding attached
  response-alone n next w req =
      ap (λ (b : Attached C). (response_on n b.sent, record b { sent = [] }))
        (awaited-alone n next w req)
      ∙ ap (λ r. (r, resting next (apply driver codec w req).1))
          (response_on-own n (apply driver codec w req).0)

  receive-alone :
      (n next : Ticket) (w : Writer C) (req : WriteRequest)
      → receive attached n (ok tt, queued (write req n) (resting next w))
        ≡ (ok (apply driver codec w req).0, resting next (apply driver codec w req).1)
  unfolding receive
  receive-alone n next w req = rw (response-alone n next w req) refl

  -- A request that is submitted while the queue is empty.
  pub submit-apply :
      (policy : OverflowPolicy) (req : WriteRequest) (next : Ticket) (w : Writer C)
      → submit attached policy req (resting next w)
        ≡ (ok (apply driver codec w req).0, resting (next + 1) (apply driver codec w req).1)
  unfolding submit enqueue attached
  submit-apply wait req next w = receive-alone next (next + 1) w req
  submit-apply reject req next w = receive-alone next (next + 1) w req
  submit-apply (wait_timeout millis) req next w = receive-alone next (next + 1) w req
