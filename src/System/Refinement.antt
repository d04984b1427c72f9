-- ===== src/System/Refinement.antt =====
-- Every reachable state of the gateway with its callers, against what the writer's thread has done
-- with the commands in the order in which they entered the channel (src/inprocess.rs, src/writer.rs).
use squeuelite_rs.Common.{
  ◌≡◌, refl, sym, subst, ap, inl, inr, ℕ, zero, suc, true, false, some, List, [], ◌∷◌, ◌++◌,
  Bool-cases, Option-cases,
}
use squeuelite_rs.Config.{OverflowPolicy}
use squeuelite_rs.Request.{WriteRequest}
use squeuelite_rs.Codec.{Codec}
use squeuelite_rs.Driver.{Driver}
use squeuelite_rs.Writer.{Writer}
use squeuelite_rs.Writer.Batch.{Ticket}
use squeuelite_rs.Writer.Loop.{Command, write, shutdown, checkpoint, is_single, handle_deferred}
use squeuelite_rs.Writer.Loop.Queue.{writes}
use squeuelite_rs.System.{
  Call, execute_call, checkpoint_call, shutdown_call, Phase, receiving, collecting, closing,
  stopped, System, issue, received, collected, advance_in, advance, Step, calls, enters, leaves,
  drops, advances, Reach, start, later,
}
use squeuelite_rs.System.Callers.{Gives, unless, Silent, somebody, Reach-Silent}
use squeuelite_rs.System.Trace.{
  Ran, nothing, batched, TracedIn, TracedIn-quiet, TracedIn-enters, Traced, IsQuiet, handle-Traced,
  deferred-Traced,
}

writes-push :
    (batch : List (WriteRequest × Ticket)) (req : WriteRequest) (ticket : Ticket)
    (rest : List Command)
    → writes (batch ++ (req, ticket) ∷ []) ++ rest ≡ writes batch ++ write req ticket ∷ rest
writes-push [] req ticket rest = refl
writes-push (r ∷ batch) req ticket rest =
    ap (λ l. write r.0 r.1 ∷ l) (writes-push batch req ticket rest)

module _ {C : Type 0} (driver : Driver C) (codec : Codec) where
  received-Traced :
      (w : Writer C) (s : System C) (command : Command) (rest : List Command)
      → Ran driver codec w s.log s.sent false s.writer (command ∷ rest)
      → Traced driver codec w (received driver codec s command rest)
  unfolding received
  received-Traced w s (write req ticket) rest h = elim (Option-cases s.writer.config.batch) [
    | inl e ↦ rw (e, received) (handle-Traced driver codec w s (write req ticket) rest h)
    | inr (limits, e) ↦ elim (Bool-cases (is_single req)) [
      | inl single ↦ rw (e, received, single) h
      | inr several ↦
          rw (e, received, several) (handle-Traced driver codec w s (write req ticket) rest h)
    ]
  ]
  received-Traced w s shutdown rest h = handle-Traced driver codec w s shutdown rest h
  received-Traced w s (checkpoint ticket) rest h =
      handle-Traced driver codec w s (checkpoint ticket) rest h

  collected-Traced :
      (w : Writer C) (s : System C) (room : ℕ) (req : WriteRequest) (ticket : Ticket)
      (batch : List (WriteRequest × Ticket)) (queue : List Command)
      → Ran driver codec w s.log s.sent false s.writer (write req ticket ∷ writes batch ++ queue)
      → Traced driver codec w (collected driver codec s room req ticket batch queue)
  unfolding collected handle_deferred
  collected-Traced w s zero req ticket batch queue h = batched req ticket batch h
  collected-Traced w s (suc room) req ticket batch [] h = batched req ticket batch h
  collected-Traced w s (suc room) req ticket batch (write other on ∷ rest) h =
      elim (Bool-cases (is_single other)) [
        | inl single ↦ rw (single) (
            subst (λ q. Ran driver codec w s.log s.sent false s.writer (write req ticket ∷ q))
              (sym (writes-push batch other on rest)) h)
        | inr several ↦ rw (several) (
            deferred-Traced driver codec w s (write other on) rest _ _ (batched req ticket batch h))
      ]
  collected-Traced w s (suc room) req ticket batch (shutdown ∷ rest) h =
      deferred-Traced driver codec w s shutdown rest _ _ (batched req ticket batch h)
  collected-Traced w s (suc room) req ticket batch (checkpoint on ∷ rest) h =
      deferred-Traced driver codec w s (checkpoint on) rest _ _ (batched req ticket batch h)

  advance_in-Traced :
      (w : Writer C) (phase : Phase) (queue : List Command) (s : System C)
      → TracedIn driver codec w phase s.log queue s.sent s.writer (IsQuiet driver codec s)
      → Silent s
      → Gives (Traced driver codec w) (advance_in driver codec phase queue s)
  unfolding advance_in
  advance_in-Traced w receiving [] s h silent =
      unless (Traced driver codec w) s.senders _ (λ e. inr (h, (e, silent e)))
  advance_in-Traced w receiving (command ∷ rest) s h silent = received-Traced w s command rest h
  advance_in-Traced w (collecting room req ticket batch) queue s h silent =
      collected-Traced w s room req ticket batch queue h
  advance_in-Traced w closing queue s h silent = (s.writer, refl, h)
  advance_in-Traced w stopped queue s h silent = tt

  advance-Traced :
      (w : Writer C) (s t : System C)
      → Traced driver codec w s
      → Silent s
      → advance driver codec s ≡ some t
      → Traced driver codec w t
  unfolding advance
  advance-Traced w s t h silent e =
      subst (Gives (Traced driver codec w)) e (advance_in-Traced w s.phase s.queue s h silent)

  issue-Traced :
      (w : Writer C) (call : Call) (s : System C)
      → s.senders ≡ true
      → Traced driver codec w s
      → Traced driver codec w (issue call s)
  unfolding issue
  issue-Traced w (execute_call req) s e h =
      TracedIn-quiet driver codec w s.writer s.phase s.log s.queue s.sent _ _ (λ q. cc) h
  issue-Traced w checkpoint_call s e h =
      TracedIn-quiet driver codec w s.writer s.phase s.log s.queue s.sent _ _ (λ q. cc) h
  issue-Traced w shutdown_call s e h =
      TracedIn-quiet driver codec w s.writer s.phase s.log s.queue s.sent _ _ (λ q. cc) h

  module _ (capacity : ℕ) (policy : OverflowPolicy) where
    pub Step-Traced :
        {s t : System C} (w : Writer C)
        → Step driver codec capacity policy s t
        → Silent s
        → Traced driver codec w s
        → Traced driver codec w t
    Step-Traced {s} w (calls call e) silent h = issue-Traced w call s e h
    Step-Traced {s} w (enters before after command e room there) silent h =
        TracedIn-enters driver codec w s.writer s.phase s.log s.queue s.sent _ _ command
          (λ q. somebody before after command s silent e q.0) there h
    Step-Traced {s} w (leaves before after command why e refused) silent h =
        TracedIn-quiet driver codec w s.writer s.phase s.log s.queue s.sent _ _
          (λ q. absurd (somebody before after command s silent e q.0)) h
    Step-Traced {s} w (drops e) silent h =
        TracedIn-quiet driver codec w s.writer s.phase s.log s.queue s.sent _ _ (λ q. (refl, e)) h
    Step-Traced {s} {t} w (advances e) silent h = advance-Traced w s t h silent e

    -- In every reachable state the thread has taken the commands of the log in their order, each one
    -- by itself or in a batch, up to the first shutdown; what it holds and what is queued are the
    -- rest of the log.
    pub Reach-Traced :
        {w : Writer C} {s : System C}
        → Reach driver codec capacity policy w s
        → Traced driver codec w s
    Reach-Traced start = nothing
    Reach-Traced {w} (later r step) =
        Step-Traced w step (Reach-Silent driver codec capacity policy r) (Reach-Traced r)
