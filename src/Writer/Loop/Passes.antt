-- ===== src/Writer/Loop/Passes.antt =====
-- One pass of the loop against the serial execution of the commands that it takes off the queue
-- (src/writer.rs: `run`).
use squeuelite_rs.Common.{
  ◌-◌, ◌≡◌, refl, sym, subst, ◌∙◌, inl, inr, Bool, true, false, Option, none, some, List, [], ◌∷◌,
  ◌++◌, Text, Bool-cases, Option-cases,
}
use mathlib.Core.List.{append_assoc}
use squeuelite_rs.Config.{BatchConfig}
use squeuelite_rs.Request.{WriteRequest, WriteResponse}
use squeuelite_rs.Codec.{Codec}
use squeuelite_rs.Driver.{Driver}
use squeuelite_rs.Driver.Snapshots.{idle}
use squeuelite_rs.Driver.Laws.{Semantics, Laws}
use squeuelite_rs.Driver.Refusal.{Refusal}
use squeuelite_rs.Writer.{Writer, apply}
use squeuelite_rs.Writer.Refinement.{settings_of, PlainRequest, Ends, apply-Ends}
use squeuelite_rs.Writer.Batch.{Ticket, apply_batch}
use squeuelite_rs.Writer.Batch.Refinement.{PlainBatch, apply_batch-Runs}
use squeuelite_rs.Writer.Loop.{
  Command, write, shutdown, checkpoint, Arrival, Sent, sent_writes, is_single, drain, apply_one,
  handle, apply_collected, handle_deferred, collect, turn,
}
use squeuelite_rs.Writer.Loop.Queue.{
  commands, writes, pending, drain_lem, PlainCommand, PlainCommands, PlainBatch-writes,
}
use squeuelite_rs.Spec.{Settings, promised}
use squeuelite_rs.Serial.{Answered, Run, Serial}

module _ {D : Type 0} (meaning : Semantics D) (codec : Codec) (Fault : Type 0) (s : Settings) where
  -- How the rest is executed: not at all once the loop has stopped.
  abbrev pub Resumes : Bool → D → List Command → Sent → D → Type 0
  Resumes true x rest more z = (more ≡ []) × (z ≡ x)
  Resumes false x rest more z = Serial meaning codec Fault s x rest more z

  -- From `x`, a serial execution of the queue may begin with these sendings and go on so.
  abbrev pub Leads : D → List Command → Sent → Bool → D → List Command → Type 0
  Leads x queue sent stop y rest =
      (more : Sent) (z : D)
      → Resumes stop y rest more z
      → Serial meaning codec Fault s x queue (sent ++ more) z

  Run-Leads :
      (x y : D) (batch : List (WriteRequest × Ticket)) (sent : List (Ticket × WriteResponse))
      (rest : List Command)
      → Run meaning codec Fault s x batch sent y
      → Leads x (writes batch ++ rest) (sent_writes sent) false y rest
  Run-Leads x y [] [] rest h more z next =
      subst (λ u. Serial meaning codec Fault s u rest more z) h next
  Run-Leads x y (r ∷ batch) (q ∷ sent) rest h more z next =
      (h.0, (h.1.0, h.1.1, Run-Leads h.1.0 y batch sent rest h.1.2 more z next))
  Run-Leads x y [] (q ∷ sent) rest h more z next = absurd h
  Run-Leads x y (r ∷ batch) [] rest h more z next = absurd h

  pub Leads-append :
      (x y u : D) (queue mid rest : List Command) (sent after : Sent) (stop : Bool)
      → Leads x queue sent false y mid
      → Leads y mid after stop u rest
      → Leads x queue (sent ++ after) stop u rest
  Leads-append x y u queue mid rest sent after stop first second more z next =
      rw append_assoc (first (after ++ more) z (second more z next))

module _ {C D : Type 0} {driver : Driver C} {meaning : Semantics D} {IsPlain : Text → Type 0}
    (laws : Laws driver meaning IsPlain) (codec : Codec) where
  -- A writer at rest with the data `x`, under the given settings.
  abbrev pub Rests : Settings → Writer C → D → Type 0
  Rests s w x = (settings_of w ≡ s) × (laws.state w.conn ≡ idle x)

  -- A pass that began at `x` with these commands: what it sent begins a serial execution of them.
  abbrev pub Passes : Settings → D → List Command → List Command → Sent × Writer C × Bool → Type 0
  Passes s x queue rest (sent, w, stop) =
      (y : D) × (Rests s w y × Leads meaning codec (Refusal laws) s x queue sent stop y rest)

  Ends-Answered :
      (w : Writer C) (req : WriteRequest) (x : D) (r : WriteResponse × Writer C)
      → Ends laws codec w x (promised meaning codec (settings_of w) req x) r
      → (y : D) × (Rests (settings_of w) r.1 y
          × Answered meaning codec (Refusal laws) (settings_of w) req x r.0 y)
  Ends-Answered w req x (resp, w') (same, inl (at, q)) =
      ((promised meaning codec (settings_of w) req x).1, ((same, at), inl (refl, q)))
  Ends-Answered w req x (resp, w') (same, inr (at, q, f)) = (x, ((same, at), inr (refl, q, f)))

  apply-Answered :
      (s : Settings) (w : Writer C) (req : WriteRequest) (x : D)
      → PlainRequest IsPlain req
      → Rests s w x
      → let r = apply driver codec w req in
        (y : D) × (Rests s r.1 y × Answered meaning codec (Refusal laws) s req x r.0 y)
  apply-Answered s w req x plain (e, at) =
      let r = apply driver codec w req in
      subst (λ t. (y : D) × (Rests t r.1 y × Answered meaning codec (Refusal laws) t req x r.0 y)) e
        (Ends-Answered w req x r (apply-Ends laws codec w req x plain at))

  apply_one-Passes :
      (s : Settings) (w : Writer C) (req : WriteRequest) (ticket : Ticket) (x : D)
      (rest : List Command)
      → PlainRequest IsPlain req
      → Rests s w x
      → let (sent, w') = apply_one driver codec w req ticket in
        Passes s x (write req ticket ∷ rest) rest (sent, w', false)
  apply_one-Passes s w req ticket x rest plain h =
      let (y, (at, answered)) = apply-Answered s w req x plain h in
      (y, (at, λ more z next. (refl, (y, answered, next))))

  pub handle-Passes :
      (s : Settings) (w : Writer C) (command : Command) (x : D) (rest : List Command)
      → PlainCommand IsPlain command
      → Rests s w x
      → Passes s x (command ∷ rest) rest (handle driver codec w command)
  unfolding handle
  handle-Passes s w (write req ticket) x rest plain h =
      apply_one-Passes s w req ticket x rest plain h
  handle-Passes s w shutdown x rest plain h = (x, (h, λ more z next. rw (next.0) (next.1)))
  handle-Passes s w (checkpoint ticket) x rest plain h =
      (x, ((h.0, laws.checkpoint_same w.conn x h.1), λ more z next. (refl, next)))

  pub apply_collected-Passes :
      (s : Settings) (w : Writer C) (req : WriteRequest) (ticket : Ticket)
      (batch : List (WriteRequest × Ticket)) (x : D) (rest : List Command)
      → PlainBatch IsPlain ((req, ticket) ∷ batch)
      → Rests s w x
      → let (sent, w') = apply_collected driver codec w req ticket batch in
        Passes s x (writes ((req, ticket) ∷ batch) ++ rest) rest (sent, w', false)
  unfolding apply_collected
  apply_collected-Passes s w req ticket [] x rest plain h =
      apply_one-Passes s w req ticket x rest plain.0 h
  apply_collected-Passes s w req ticket (r ∷ more) x rest plain (e, at) =
      let batch = (req, ticket) ∷ r ∷ more in
      let (same, (z, (at', ran))) = apply_batch-Runs laws codec w batch x plain at in
      (
        z,
        (
          (same ∙ e, at'),
          Run-Leads meaning codec (Refusal laws) s x z batch (apply_batch driver codec w batch).0
              rest
              (subst
                (λ t.
                  Run meaning codec (Refusal laws) t x batch (apply_batch driver codec w batch).0 z)
                e ran),
        ),
      )

  handle_deferred-Passes :
      (s : Settings) (deferred : Option Command) (x : D) (queue rest : List Command)
      (r : Sent × Writer C)
      → PlainCommands IsPlain (pending deferred rest)
      → Passes s x queue (pending deferred rest) (r.0, r.1, false)
      → Passes s x queue rest (handle_deferred driver codec deferred r)
  unfolding handle_deferred
  handle_deferred-Passes s none x queue rest r plain h = h
  handle_deferred-Passes s (some command) x queue rest (sent, w) plain (y, (at, first)) =
      let (more, w', stop) = handle driver codec w command in
      let (u, (at', second)) = handle-Passes s w command y rest plain.0 at in
      (
        u,
        (
          at',
          Leads-append meaning codec (Refusal laws) s x y u queue (command ∷ rest) rest sent more
              stop first second,
        ),
      )

  collect-Passes :
      (s : Settings) (w : Writer C) (limits : BatchConfig) (req : WriteRequest) (ticket : Ticket)
      (queue : List Arrival) (x : D)
      → PlainRequest IsPlain req
      → PlainCommands IsPlain (commands queue)
      → Rests s w x
      → let (pass, rest) = collect driver codec w limits req ticket queue in
        Passes s x (write req ticket ∷ commands queue) (commands rest) pass
  unfolding collect
  collect-Passes s w limits req ticket queue x plain others h =
      let d = drain (limits.max_size - 1) queue in
      let after = pending d.deferred (commands d.rest) in
      let whole = drain_lem (limits.max_size - 1) queue in
      let (batch, left) =
        PlainBatch-writes IsPlain d.batch after
          (subst (PlainCommands IsPlain) (sym whole) others) in
      subst
        (λ q. Passes s x (write req ticket ∷ q) (commands d.rest) (
          handle_deferred driver codec d.deferred
            (apply_collected driver codec w req ticket d.batch)))
        whole
        (handle_deferred-Passes s d.deferred x (writes ((req, ticket) ∷ d.batch) ++ after)
          (commands d.rest) (apply_collected driver codec w req ticket d.batch) left
          (apply_collected-Passes s w req ticket d.batch x after (plain, batch) h))

  pub turn-Passes :
      (s : Settings) (w : Writer C) (command : Command) (queue : List Arrival) (x : D)
      → PlainCommand IsPlain command
      → PlainCommands IsPlain (commands queue)
      → Rests s w x
      → let (pass, rest) = turn driver codec w command queue in
        Passes s x (command ∷ commands queue) (commands rest) pass
  unfolding turn
  turn-Passes s w (write req ticket) queue x plain others h = elim (Option-cases w.config.batch) [
    | inl e ↦ rw (e, turn) (handle-Passes s w (write req ticket) x (commands queue) plain h)
    | inr (limits, e) ↦ elim (Bool-cases (is_single req)) [
      | inl single ↦
          rw (e, turn, single) (collect-Passes s w limits req ticket queue x plain others h)
      | inr several ↦
          rw (e, turn, several) (handle-Passes s w (write req ticket) x (commands queue) plain h)
    ]
  ]
  turn-Passes s w shutdown queue x plain others h =
      handle-Passes s w shutdown x (commands queue) plain h
  turn-Passes s w (checkpoint ticket) queue x plain others h =
      handle-Passes s w (checkpoint ticket) x (commands queue) plain h
