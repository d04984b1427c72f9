-- ===== src/System/Branches.antt =====
-- The branches of one step of the thread, and of one pass of the loop, as equations (src/writer.rs:
-- `run`).
use squeuelite_rs.Common.{
  ℕ, suc, ◌-◌, ◌≡◌, refl, true, false, Option, none, some, List, [], ◌∷◌, ◌++◌,
}
use squeuelite_rs.Config.{BatchConfig}
use squeuelite_rs.Request.{WriteRequest}
use squeuelite_rs.Codec.{Codec}
use squeuelite_rs.Driver.{Driver}
use squeuelite_rs.Writer.{Writer}
use squeuelite_rs.Writer.Batch.{Ticket}
use squeuelite_rs.Writer.Loop.{
  Command, write, Arrival, is_single, handle, collect, apply_collected, handle_deferred, turn,
}
use squeuelite_rs.System.{
  Phase, collecting, System, received, collected, passed, advance_in, advance,
}

module _ {C : Type 0} (driver : Driver C) (codec : Codec) where
  abbrev pub at : System C → Phase → List Command → System C
  at s phase queue = record s { phase = phase; queue = queue }

  -- The end of the batch.
  abbrev pub ended :
      System C
      → List Command
      → Option Command
      → WriteRequest
      → Ticket
      → List (WriteRequest × Ticket)
      → System C
  ended s queue deferred req ticket batch = passed driver codec s queue (
      handle_deferred driver codec deferred
        (apply_collected driver codec s.writer req ticket batch))

  -- One round with a write in front of the queue.
  pub taken :
      (s : System C) (room : ℕ) (req : WriteRequest) (ticket : Ticket)
      (batch : List (WriteRequest × Ticket)) (other : WriteRequest) (on : Ticket)
      (queue : List Command)
      → is_single other ≡ true
      → advance driver codec
          (at s (collecting (suc room) req ticket batch) (write other on ∷ queue))
        ≡ some (at s (collecting room req ticket (batch ++ (other, on) ∷ [])) queue)
  unfolding advance advance_in collected
  taken s room req ticket batch other on queue single = rw single refl

  pub left_over :
      (s : System C) (room : ℕ) (req : WriteRequest) (ticket : Ticket)
      (batch : List (WriteRequest × Ticket)) (other : WriteRequest) (on : Ticket)
      (queue : List Command)
      → is_single other ≡ false
      → advance driver codec
          (at s (collecting (suc room) req ticket batch) (write other on ∷ queue))
        ≡ some (ended s queue (some (write other on)) req ticket batch)
  unfolding advance advance_in collected
  left_over s room req ticket batch other on queue several = rw several refl

  pub received-alone :
      (s : System C) (req : WriteRequest) (ticket : Ticket) (queue : List Command)
      → s.writer.config.batch ≡ none
      → received driver codec s (write req ticket) queue
        ≡ passed driver codec s queue (handle driver codec s.writer (write req ticket))
  unfolding received
  received-alone s req ticket queue e = simp (e, received)

  pub received-several :
      (s : System C) (limits : BatchConfig) (req : WriteRequest) (ticket : Ticket)
      (queue : List Command)
      → s.writer.config.batch ≡ some limits
      → is_single req ≡ false
      → received driver codec s (write req ticket) queue
        ≡ passed driver codec s queue (handle driver codec s.writer (write req ticket))
  unfolding received
  received-several s limits req ticket queue e several = simp (e, received, several)

  pub received-single :
      (s : System C) (limits : BatchConfig) (req : WriteRequest) (ticket : Ticket)
      (queue : List Command)
      → s.writer.config.batch ≡ some limits
      → is_single req ≡ true
      → received driver codec s (write req ticket) queue
        ≡ at s (collecting (limits.max_size - 1) req ticket []) queue
  unfolding received
  received-single s limits req ticket queue e single = simp (e, received, single)

  pub turn-alone :
      (w : Writer C) (req : WriteRequest) (ticket : Ticket) (queue : List Arrival)
      → w.config.batch ≡ none
      → turn driver codec w (write req ticket) queue
        ≡ (handle driver codec w (write req ticket), queue)
  unfolding turn
  turn-alone w req ticket queue e = simp (e, turn)

  pub turn-several :
      (w : Writer C) (limits : BatchConfig) (req : WriteRequest) (ticket : Ticket)
      (queue : List Arrival)
      → w.config.batch ≡ some limits
      → is_single req ≡ false
      → turn driver codec w (write req ticket) queue
        ≡ (handle driver codec w (write req ticket), queue)
  unfolding turn
  turn-several w limits req ticket queue e several = simp (e, turn, several)

  pub turn-single :
      (w : Writer C) (limits : BatchConfig) (req : WriteRequest) (ticket : Ticket)
      (queue : List Arrival)
      → w.config.batch ≡ some limits
      → is_single req ≡ true
      → turn driver codec w (write req ticket) queue
        ≡ collect driver codec w limits req ticket queue
  unfolding turn
  turn-single w limits req ticket queue e single = simp (e, turn, single)
