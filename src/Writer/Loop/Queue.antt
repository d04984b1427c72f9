-- ===== src/Writer/Loop/Queue.antt =====
-- What the collection of a batch takes off the queue.
use squeuelite_rs.Common.{
  ℕ, zero, suc, ◌≤◌, ◌≡◌, refl, ap, true, Option, none, some, List, [], ◌∷◌, ◌++◌, map, Text, All,
  length, arith, Bool-cases, inl, inr,
}
use squeuelite_rs.Request.{WriteRequest}
use squeuelite_rs.Writer.Refinement.{PlainRequest}
use squeuelite_rs.Writer.Batch.{Ticket}
use squeuelite_rs.Writer.Batch.Refinement.{PlainBatch}
use squeuelite_rs.Writer.Loop.{
  Command, write, shutdown, checkpoint, Arrival, ready, late, command_of, is_single, drain,
}

abbrev pub commands : List Arrival → List Command
commands = map command_of

abbrev pub writes : List (WriteRequest × Ticket) → List Command
writes = map (λ r. write r.0 r.1)

-- A deferred command comes before the rest.
abbrev pub pending : Option Command → List Command → List Command
pending none rest = rest
pending (some command) rest = command ∷ rest

-- Collecting takes commands off the front of the queue, and loses, adds and reorders none.
pub drain_lem :
    (room : ℕ) (queue : List Arrival)
    → let d = drain room queue in
      writes d.batch ++ pending d.deferred (commands d.rest) ≡ commands queue
unfolding drain
drain_lem zero queue = refl
drain_lem (suc room) [] = refl
drain_lem (suc room) (late command ∷ queue) = refl
drain_lem (suc room) (ready (write req ticket) ∷ queue) = elim (Bool-cases (is_single req)) [
  | inl single ↦ rw single (ap (λ l. write req ticket ∷ l) (drain_lem room queue))
  | inr several ↦ rw several
]
drain_lem (suc room) (ready shutdown ∷ queue) = refl
drain_lem (suc room) (ready (checkpoint ticket) ∷ queue) = refl

-- A batch holds no more than there is room for, and single operations alone.
pub drain-batch_bounds :
    (room : ℕ) (queue : List Arrival)
    → (length (drain room queue).batch ≤ room)
      × All (λ r. is_single r.0 ≡ true) (drain room queue).batch
      × (length (drain room queue).rest ≤ length queue)
unfolding drain
drain-batch_bounds zero queue = (omega arith, tt, omega arith)
drain-batch_bounds (suc room) [] = (omega arith, tt, omega arith)
drain-batch_bounds (suc room) (late command ∷ queue) = (omega arith, tt, omega arith)
drain-batch_bounds (suc room) (ready (write req ticket) ∷ queue) =
    let (most, singles, rest) = drain-batch_bounds room queue in
    elim (Bool-cases (is_single req)) [
      | inl single ↦ rw single (omega arith, (single, singles), omega arith)
      | inr several ↦ rw several (omega arith, tt, omega arith)
    ]
drain-batch_bounds (suc room) (ready shutdown ∷ queue) = (omega arith, tt, omega arith)
drain-batch_bounds (suc room) (ready (checkpoint ticket) ∷ queue) = (omega arith, tt, omega arith)

-- Plain commands on the queue make a plain batch, and leave the others plain.
abbrev pub PlainCommand : (Text → Type 0) → Command → Type 0
PlainCommand IsPlain (write req ticket) = PlainRequest IsPlain req
PlainCommand IsPlain shutdown = Unit {0}
PlainCommand IsPlain (checkpoint ticket) = Unit {0}

abbrev pub PlainCommands : (Text → Type 0) → List Command → Type 0
PlainCommands IsPlain = All (PlainCommand IsPlain)

pub PlainBatch-writes :
    (IsPlain : Text → Type 0) (batch : List (WriteRequest × Ticket)) (rest : List Command)
    → PlainCommands IsPlain (writes batch ++ rest)
    → PlainBatch IsPlain batch × PlainCommands IsPlain rest
PlainBatch-writes IsPlain [] rest h = (tt, h)
PlainBatch-writes IsPlain (r ∷ batch) rest h =
    let (b, c) = PlainBatch-writes IsPlain batch rest h.1 in ((h.0, b), c)
