-- ===== src/Writer/Loop/Invariant.antt =====
-- What the writer's loop keeps on every queue (src/writer.rs: `run`).
use squeuelite_rs.Common.{
  suc, ◌-◌, ◌≡◌, sym, subst, inl, inr, Option, none, some, List, [], ◌∷◌, length, arith,
}
use squeuelite_rs.Config.{BatchConfig}
use squeuelite_rs.Request.{WriteRequest}
use squeuelite_rs.Codec.{Codec}
use squeuelite_rs.Driver.{Driver}
use squeuelite_rs.Writer.{Writer}
use squeuelite_rs.Writer.Kept.{Kept, Kept-refl, Kept-trans, apply-Kept, apply_batch-Kept}
use squeuelite_rs.Writer.Batch.{Ticket}
use squeuelite_rs.Writer.Loop.{
  Command, write, shutdown, checkpoint, Arrival, command_of, Sent, drain, handle, apply_collected,
  handle_deferred, collect, turn, run_loop, ended, run,
}
use squeuelite_rs.Writer.Loop.Rule.{turn-cases, EndsWith, EndsWith→some, run_loop-EndsWith}

module _ {C : Type 0} (driver : Driver C) (codec : Codec) where
  pub handle-Kept : (w : Writer C) (command : Command) → Kept w (handle driver codec w command).1
  unfolding handle
  handle-Kept w (write req ticket) = apply-Kept driver codec w req
  handle-Kept w shutdown = Kept-refl w
  handle-Kept w (checkpoint ticket) = Kept-refl w

  pub apply_collected-Kept :
      (w : Writer C) (req : WriteRequest) (ticket : Ticket) (batch : List (WriteRequest × Ticket))
      → Kept w (apply_collected driver codec w req ticket batch).1
  unfolding apply_collected
  apply_collected-Kept w req ticket [] = apply-Kept driver codec w req
  apply_collected-Kept w req ticket (r ∷ more) =
      apply_batch-Kept driver codec w ((req, ticket) ∷ r ∷ more)

  handle_deferred-Kept :
      (deferred : Option Command) (r : Sent × Writer C)
      → Kept r.1 (handle_deferred driver codec deferred r).1
  unfolding handle_deferred
  handle_deferred-Kept none (sent, w) = Kept-refl w
  handle_deferred-Kept (some command) (sent, w) = handle-Kept w command

  collect-Kept :
      (w : Writer C) (limits : BatchConfig) (req : WriteRequest) (ticket : Ticket)
      (queue : List Arrival)
      → Kept w (collect driver codec w limits req ticket queue).0.1
  unfolding collect
  collect-Kept w limits req ticket queue =
      let d = drain (limits.max_size - 1) queue in
      let r = apply_collected driver codec w req ticket d.batch in
      Kept-trans w r.1 (handle_deferred driver codec d.deferred r).1
        (apply_collected-Kept w req ticket d.batch) (handle_deferred-Kept d.deferred r)

  turn-Kept :
      (w : Writer C) (command : Command) (queue : List Arrival)
      → Kept w (turn driver codec w command queue).0.1
  unfolding turn
  turn-Kept w (write req ticket) queue = elim (turn-cases driver codec w req ticket queue) [
    | inl e ↦ subst (λ p. Kept w p.0.1) (sym e) (handle-Kept w (write req ticket))
    | inr (limits, e) ↦ subst (λ p. Kept w p.0.1) (sym e) (collect-Kept w limits req ticket queue)
  ]
  turn-Kept w shutdown queue = handle-Kept w shutdown
  turn-Kept w (checkpoint ticket) queue = handle-Kept w (checkpoint ticket)

  ended-Kept :
      (w : Writer C) (r : Option (Sent × Writer C))
      → EndsWith driver codec (λ sent v. Kept w v) r
      → EndsWith driver codec (λ sent v. Kept w v) (ended driver codec r)
  ended-Kept w none h = h
  ended-Kept w (some (sent, v)) h = h

  -- Whatever the driver does: the loop ends on every queue, with the settings of the writer as they
  -- were, and with at most 1024 latencies in its buffer if it began so.
  pub run-Kept :
      (w : Writer C) (queue : List Arrival)
      → (sent : Sent) × (v : Writer C) × (run driver codec w queue ≡ some (sent, v)) × Kept w v
  unfolding run
  run-Kept w queue =
      EndsWith→some driver codec (λ sent v. Kept w v) _
        (ended-Kept w (run_loop driver codec (suc (length queue)) w queue) (
          run_loop-EndsWith driver codec (λ w queue sent v. Kept w v) Kept-refl
            (λ w a queue stopped. turn-Kept w (command_of a) queue)
            (λ w a queue goes more v h.
              Kept-trans w (turn driver codec w (command_of a) queue).0.1 v
                (turn-Kept w (command_of a) queue) h)
            (suc (length queue)) w queue (omega arith)))
