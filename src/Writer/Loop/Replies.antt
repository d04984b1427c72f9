-- ===== src/Writer/Loop/Replies.antt =====
-- Who is answered by the writer's loop, whatever the driver does (src/writer.rs: `run`,
-- `apply_batch`).
use squeuelite_rs.Common.{
  ℕ, suc, ◌+◌, ◌-◌, ◌≡◌, refl, sym, subst, ap, ◌∙◌, inl, inr, Bool, true, false, Option, none, some,
  List, [], ◌∷◌, ◌++◌, map, Result, ok, err, length, arith,
}
use mathlib.Core.List.{append_assoc, append-nil}
use squeuelite_rs.Error.{SqlError}
use squeuelite_rs.Config.{BatchConfig}
use squeuelite_rs.Request.{WriteRequest, WriteResponse, failed_response}
use squeuelite_rs.Codec.{Codec}
use squeuelite_rs.Driver.{Driver}
use squeuelite_rs.Writer.{Writer}
use squeuelite_rs.Writer.Batch.{
  Ticket, override, batch_turns, batch_settle, batch_begin, apply_batch,
}
use squeuelite_rs.Writer.Loop.{
  Command, write, shutdown, checkpoint, Arrival, command_of, Sent, sent_writes, drain, Pass, handle,
  apply_collected, handle_deferred, collect, turn, run_loop, ended, run,
}
use squeuelite_rs.Writer.Loop.Rule.{turn-cases, EndsWith, EndsWith→some, run_loop-EndsWith}
use squeuelite_rs.Writer.Loop.Queue.{commands, writes, pending, drain_lem}

-- Who waits for an answer: the senders of the commands before the first shutdown.
abbrev pub waiting : List Command → List Ticket
waiting [] = []
waiting (write req ticket ∷ queue) = ticket ∷ waiting queue
waiting (shutdown ∷ queue) = []
waiting (checkpoint ticket ∷ queue) = ticket ∷ waiting queue

abbrev pub answered : {A : Type 0} → List (Ticket × A) → List Ticket
answered = map (λ r. r.0)

-- Who still waits after a pass: nobody once the loop has ended.
abbrev pub still : Bool → List Command → List Ticket
still true queue = []
still false queue = waiting queue

pub answered-append :
    {A : Type 0} (xs ys : List (Ticket × A)) → answered (xs ++ ys) ≡ answered xs ++ answered ys
answered-append [] ys = refl
answered-append (x ∷ xs) ys = ap (λ l. x.0 ∷ l) (answered-append xs ys)

pub waiting-writes :
    (batch : List (WriteRequest × Ticket)) (queue : List Command)
    → waiting (writes batch ++ queue) ≡ map (λ r. r.1) batch ++ waiting queue
waiting-writes [] queue = refl
waiting-writes ((req, ticket) ∷ batch) queue = ap (λ l. ticket ∷ l) (waiting-writes batch queue)

answered-sent_writes :
    (sent : List (Ticket × WriteResponse)) → answered (sent_writes sent) ≡ answered sent
answered-sent_writes [] = refl
answered-sent_writes (r ∷ sent) = ap (λ l. r.0 ∷ l) (answered-sent_writes sent)

answered-override :
    (f : WriteResponse → WriteResponse) (sent : List (Ticket × WriteResponse))
    → answered (map (λ r. (r.0, f r.1)) sent) ≡ answered sent
answered-override f [] = refl
answered-override f (r ∷ sent) = ap (λ l. r.0 ∷ l) (answered-override f sent)

answered-failed :
    (f : WriteRequest → WriteResponse) (batch : List (WriteRequest × Ticket))
    → answered (map (λ r. (r.1, f r.0)) batch) ≡ map (λ r. r.1) batch
answered-failed f [] = refl
answered-failed f (r ∷ batch) = ap (λ l. r.1 ∷ l) (answered-failed f batch)

at_last :
    (stop : Bool)
    → stop ≡ true
    → (xs ys : List Ticket) (queue : List Command) → xs ++ still stop queue ≡ ys
    → xs ≡ ys
at_last true e xs ys queue h = sym (append-nil xs) ∙ h
at_last false e xs ys queue h = cc

at_next :
    (stop : Bool)
    → stop ≡ false
    → (xs ys : List Ticket) (queue : List Command) → xs ++ still stop queue ≡ ys
    → xs ++ waiting queue ≡ ys
at_next true e xs ys queue h = cc
at_next false e xs ys queue h = h

module _ {C : Type 0} (driver : Driver C) (codec : Codec) where
  batch_turns-answered :
      (w : Writer C) (idx : ℕ) (batch : List (WriteRequest × Ticket)) (c : C)
      → answered (batch_turns driver codec w idx batch c).0 ≡ map (λ r. r.1) batch
  unfolding batch_turns
  batch_turns-answered w idx [] c = refl
  batch_turns-answered w idx ((req, ticket) ∷ batch) c =
      ap (λ l. ticket ∷ l) (batch_turns-answered w (idx + 1) batch _)

  batch_settle-answered :
      (w : Writer C) (sent : List (Ticket × WriteResponse)) (r : Result (Unit {0}) SqlError × C)
      → answered (batch_settle driver codec w sent r).0 ≡ answered sent
  unfolding batch_settle
  batch_settle-answered w sent (ok _, c) = refl
  batch_settle-answered w sent (err e, c) = answered-override (override e.message) sent

  batch_begin-answered :
      (w : Writer C) (batch : List (WriteRequest × Ticket)) (r : Result (Unit {0}) SqlError × C)
      → answered (batch_begin driver codec w batch r).0 ≡ map (λ r. r.1) batch
  unfolding batch_begin
  batch_begin-answered w batch (ok _, c) =
      batch_settle-answered w (batch_turns driver codec w 0 batch c).0 _
      ∙ batch_turns-answered w 0 batch c
  batch_begin-answered w batch (err e, c) =
      answered-failed (λ req. failed_response req.request_id e.message) batch

  -- A batch answers each of its senders once, in order.
  apply_batch-answered :
      (w : Writer C) (batch : List (WriteRequest × Ticket))
      → answered (apply_batch driver codec w batch).0 ≡ map (λ r. r.1) batch
  unfolding apply_batch
  apply_batch-answered w batch = batch_begin-answered w batch (driver.begin_immediate w.conn)

  pub handle-answered :
      (w : Writer C) (command : Command) (queue : List Command)
      → let (sent, w', stop) = handle driver codec w command in
        answered sent ++ still stop queue ≡ waiting (command ∷ queue)
  unfolding handle
  handle-answered w (write req ticket) queue = refl
  handle-answered w shutdown queue = refl
  handle-answered w (checkpoint ticket) queue = refl

  pub apply_collected-answered :
      (w : Writer C) (req : WriteRequest) (ticket : Ticket) (batch : List (WriteRequest × Ticket))
      → answered (apply_collected driver codec w req ticket batch).0 ≡ ticket ∷ map (λ r. r.1) batch
  unfolding apply_collected
  apply_collected-answered w req ticket [] = refl
  apply_collected-answered w req ticket (r ∷ more) =
      answered-sent_writes (apply_batch driver codec w ((req, ticket) ∷ r ∷ more)).0
      ∙ apply_batch-answered w ((req, ticket) ∷ r ∷ more)

  handle_deferred-answered :
      (deferred : Option Command) (sent : Sent) (w : Writer C) (queue : List Command)
      → let (sent', w', stop) = handle_deferred driver codec deferred (sent, w) in
        answered sent' ++ still stop queue ≡ answered sent ++ waiting (pending deferred queue)
  unfolding handle_deferred
  handle_deferred-answered none sent w queue = refl
  handle_deferred-answered (some command) sent w queue =
      let (more, w', stop) = handle driver codec w command in
      ap (λ l. l ++ still stop queue) (answered-append sent more)
      ∙ append_assoc (answered sent) (answered more) (still stop queue)
      ∙ ap (λ l. answered sent ++ l) (handle-answered w command queue)

  -- A pass answers who waits at the front, and leaves the rest of the queue.
  abbrev Answers : List Command → Pass driver codec × List Arrival → Type 0
  Answers queue ((sent, w', stop), rest) =
      answered sent ++ still stop (commands rest) ≡ waiting queue

  collect-answered :
      (w : Writer C) (limits : BatchConfig) (req : WriteRequest) (ticket : Ticket)
      (queue : List Arrival)
      → Answers (write req ticket ∷ commands queue) (collect driver codec w limits req ticket queue)
  unfolding collect
  collect-answered w limits req ticket queue =
      let d = drain (limits.max_size - 1) queue in
      let r = apply_collected driver codec w req ticket d.batch in
      handle_deferred-answered d.deferred r.0 r.1 (commands d.rest)
      ∙ ap (λ l. l ++ waiting (pending d.deferred (commands d.rest)))
          (apply_collected-answered w req ticket d.batch)
      ∙ ap (λ l. ticket ∷ l)
          (sym (waiting-writes d.batch (pending d.deferred (commands d.rest)))
            ∙ ap waiting (drain_lem (limits.max_size - 1) queue))

  turn-answered :
      (w : Writer C) (command : Command) (queue : List Arrival)
      → Answers (command ∷ commands queue) (turn driver codec w command queue)
  unfolding turn
  turn-answered w (write req ticket) queue =
      let waits : List Command = write req ticket ∷ commands queue in
      elim (turn-cases driver codec w req ticket queue) [
        | inl e ↦
            subst (Answers waits) (sym e) (handle-answered w (write req ticket) (commands queue))
        | inr (limits, e) ↦
            subst (Answers waits) (sym e) (collect-answered w limits req ticket queue)
      ]
  turn-answered w shutdown queue = handle-answered w shutdown (commands queue)
  turn-answered w (checkpoint ticket) queue = handle-answered w (checkpoint ticket) (commands queue)

  ended-answered :
      (queue : List Command) (r : Option (Sent × Writer C))
      → EndsWith driver codec (λ sent v. answered sent ≡ waiting queue) r
      → EndsWith driver codec (λ sent v. answered sent ≡ waiting queue) (ended driver codec r)
  ended-answered queue none h = h
  ended-answered queue (some (sent, w)) h = h

  -- Whatever the driver does: on every queue the loop ends, and it has answered each sender of a
  -- command before the first shutdown exactly once, in the order of the queue, and nobody else.
  pub run-answered :
      (w : Writer C) (queue : List Arrival)
      → (sent : Sent) × (v : Writer C) × (run driver codec w queue ≡ some (sent, v))
        × (answered sent ≡ waiting (commands queue))
  unfolding run
  run-answered w queue =
      EndsWith→some driver codec (λ sent v. answered sent ≡ waiting (commands queue)) _
        (ended-answered (commands queue) (run_loop driver codec (suc (length queue)) w queue) (
          run_loop-EndsWith driver codec
            (λ w queue sent v. answered sent ≡ waiting (commands queue)) (λ w. refl)
            (λ w a queue stopped. at_last _ stopped _ _ _ (turn-answered w (command_of a) queue))
            (λ w a queue goes more v h.
              let sent = (turn driver codec w (command_of a) queue).0.0 in
              answered-append sent more
              ∙ ap (λ l. answered sent ++ l) h
              ∙ at_next _ goes _ _ _ (turn-answered w (command_of a) queue))
            (suc (length queue)) w queue (omega arith)))
