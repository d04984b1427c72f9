-- ===== src/Serial.antt =====
-- Serial execution, on the data alone: requests and commands one at a time, in their order. This
-- is what the writer promises for its queue, however it collects batches.
pub mod Numbers
use squeuelite_rs.Common.{◌≡◌, ◌⊎◌, List, [], ◌∷◌}
use squeuelite_rs.Request.{WriteRequest, WriteResponse, failed}
use squeuelite_rs.Codec.{Codec}
use squeuelite_rs.Driver.Laws.{Semantics}
use squeuelite_rs.Writer.Batch.{Ticket}
use squeuelite_rs.Writer.Loop.{Command, write, shutdown, checkpoint, Sent, written, checkpointed}
use squeuelite_rs.Spec.{Settings, promised}

-- `Fault` is what has to be so for a request to end other than promised.
module _ {D : Type 0} (meaning : Semantics D) (codec : Codec) (Fault : Type 0) (s : Settings) where
  -- A request is answered as promised, or by a fault it fails and changes nothing.
  abbrev pub Answered : WriteRequest → D → WriteResponse → D → Type 0
  Answered req x resp y =
      ((y ≡ (promised meaning codec s req x).1) × (resp ≡ (promised meaning codec s req x).0))
      ⊎ ((y ≡ x) × (resp.status ≡ failed) × Fault)

  -- A list of requests, each on the data that the one before has left, each answered once on its
  -- own ticket and in order.
  abbrev pub Run : D → List (WriteRequest × Ticket) → List (Ticket × WriteResponse) → D → Type 0
  Run x [] [] z = z ≡ x
  Run x ((req, ticket) ∷ batch) ((on, resp) ∷ sent) z =
      (on ≡ ticket) × ((y : D) × Answered req x resp y × Run y batch sent z)
  Run x _ _ z = ⊥

  -- One command, and what follows it. A shutdown ends the run with nothing more sent.
  abbrev pub Handled : Command → D → Sent → D → (Sent → D → Type 0) → Type 0
  Handled (write req ticket) x ((on, written resp) ∷ sent) z follows =
      (on ≡ ticket) × ((y : D) × Answered req x resp y × follows sent y)
  Handled (checkpoint ticket) x ((on, checkpointed result) ∷ sent) z follows =
      (on ≡ ticket) × follows sent x
  Handled shutdown x [] z follows = z ≡ x
  Handled _ x _ z follows = ⊥

  -- The commands in order, up to the first shutdown or the end.
  abbrev pub Serial : D → List Command → Sent → D → Type 0
  Serial x [] [] z = z ≡ x
  Serial x [] (r ∷ sent) z = ⊥
  Serial x (command ∷ commands) sent z =
      Handled command x sent z (λ more y. Serial y commands more z)
