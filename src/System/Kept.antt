-- ===== src/System/Kept.antt =====
-- What every reachable state keeps, whatever the driver does (src/inprocess.rs, src/writer.rs).
use squeuelite_rs.Common.{
  ℕ, zero, suc, ◌≤◌, ◌≡◌, refl, sym, subst, inl, inr, Bool, true, false, Option, none, some, List,
  [], ◌∷◌, length, length-append, arith, Bool-cases, Option-cases, if◌then◌else◌,
}
use squeuelite_rs.Config.{OverflowPolicy}
use squeuelite_rs.Request.{WriteRequest}
use squeuelite_rs.Codec.{Codec}
use squeuelite_rs.Driver.{Driver}
use squeuelite_rs.Writer.{Writer}
use squeuelite_rs.Writer.Batch.{Ticket}
use squeuelite_rs.Writer.Kept.{Kept, Kept-refl, Kept-trans}
use squeuelite_rs.Writer.Loop.{
  Command, write, shutdown, checkpoint, Sent, is_single, handle, apply_collected,
}
use squeuelite_rs.Writer.Loop.Invariant.{handle-Kept, apply_collected-Kept}
use squeuelite_rs.System.{
  Call, execute_call, checkpoint_call, shutdown_call, Phase, receiving, collecting, closing,
  stopped, System, issue, received, collected, advance_in, advance, Step, calls, enters, leaves,
  drops, advances, Reach, start, later,
}
use squeuelite_rs.System.Trace.{Ran, nothing, handled, batched, TracedIn, Ended}
use squeuelite_rs.System.Refinement.{Reach-Traced}

module _ {C : Type 0} (driver : Driver C) (codec : Codec) where
  Ran-Kept :
      {w : Writer C} {queue : List Command} {sent : Sent} {stop : Bool} {v : Writer C}
      {rest : List Command}
      → Ran driver codec w queue sent stop v rest
      → Kept w v
  Ran-Kept {w} nothing = Kept-refl w
  Ran-Kept {w} (handled {sent} {v} {rest} command ran) =
      Kept-trans w v (handle driver codec v command).1 (Ran-Kept ran)
        (handle-Kept driver codec v command)
  Ran-Kept {w} (batched {sent} {v} {rest} req ticket batch ran) =
      Kept-trans w v (apply_collected driver codec v req ticket batch).1 (Ran-Kept ran)
        (apply_collected-Kept driver codec v req ticket batch)

  Ended-Kept :
      {w v : Writer C} {log : List Command} {sent : Sent} {Quiet : Type 0}
      → Ended driver codec w log sent v Quiet
      → Kept w v
  Ended-Kept (inl (rest, ran)) = Ran-Kept ran
  Ended-Kept (inr (ran, quiet)) = Ran-Kept ran

  TracedIn-Kept :
      (w v : Writer C) (phase : Phase) (log queue : List Command) (sent : Sent) (Quiet : Type 0)
      → TracedIn driver codec w phase log queue sent v Quiet
      → Kept w v
  TracedIn-Kept w v receiving log queue sent Quiet h = Ran-Kept h
  TracedIn-Kept w v (collecting room req ticket batch) log queue sent Quiet h = Ran-Kept h
  TracedIn-Kept w v closing log queue sent Quiet h = Ended-Kept h
  TracedIn-Kept w v stopped log queue sent Quiet (u, same, h) =
      subst (Kept w) (sym same) (Ended-Kept h)

  -- A step of the thread never lengthens the queue.
  abbrev Shorter : ℕ → Option (System C) → Type 0
  Shorter n none = Unit {0}
  Shorter n (some t) = length t.queue ≤ n

  received-Shorter :
      (s : System C) (command : Command) (rest : List Command)
      → length (received driver codec s command rest).queue ≤ length rest
  unfolding received
  received-Shorter s (write req ticket) rest = elim (Option-cases s.writer.config.batch) [
    | inl e ↦ rw (e, received) (omega arith)
    | inr (limits, e) ↦ elim (Bool-cases (is_single req)) [
      | inl single ↦ rw (e, received, single) (omega arith)
      | inr several ↦ rw (e, received, several) (omega arith)
    ]
  ]
  received-Shorter s shutdown rest = omega arith
  received-Shorter s (checkpoint ticket) rest = omega arith

  collected-Shorter :
      (s : System C) (room : ℕ) (req : WriteRequest) (ticket : Ticket)
      (batch : List (WriteRequest × Ticket)) (queue : List Command)
      → length (collected driver codec s room req ticket batch queue).queue ≤ length queue
  unfolding collected
  collected-Shorter s zero req ticket batch queue = omega arith
  collected-Shorter s (suc room) req ticket batch [] = omega arith
  collected-Shorter s (suc room) req ticket batch (write other on ∷ rest) =
      elim (Bool-cases (is_single other)) [
        | inl single ↦ rw single (omega arith)
        | inr several ↦ rw several (omega arith)
      ]
  collected-Shorter s (suc room) req ticket batch (shutdown ∷ rest) = omega arith
  collected-Shorter s (suc room) req ticket batch (checkpoint on ∷ rest) = omega arith

  hang_up-Shorter :
      (b : Bool) (n : ℕ) (t : System C)
      → length t.queue ≤ n
      → Shorter n (if b then none else some t)
  hang_up-Shorter true n t h = tt
  hang_up-Shorter false n t h = h

  advance_in-Shorter :
      (phase : Phase) (queue : List Command) (s : System C)
      → s.queue ≡ queue
      → Shorter (length queue) (advance_in driver codec phase queue s)
  unfolding advance_in
  advance_in-Shorter receiving [] s e =
      hang_up-Shorter s.senders 0 _ (subst (λ q. length q ≤ 0) (sym e) (omega arith))
  advance_in-Shorter receiving (command ∷ rest) s e = omega (arith, received-Shorter s command rest)
  advance_in-Shorter (collecting room req ticket batch) queue s e =
      collected-Shorter s room req ticket batch queue
  advance_in-Shorter closing queue s e = omega arith
  advance_in-Shorter stopped queue s e = tt

  advance-Shorter :
      (s t : System C) → advance driver codec s ≡ some t → length t.queue ≤ length s.queue
  unfolding advance
  advance-Shorter s t e =
      subst (Shorter (length s.queue)) e (advance_in-Shorter s.phase s.queue s refl)

  issue-queue : (call : Call) (s : System C) → (issue call s).queue ≡ s.queue
  unfolding issue
  issue-queue (execute_call req) s = refl
  issue-queue checkpoint_call s = refl
  issue-queue shutdown_call s = refl

  module _ (capacity : ℕ) (policy : OverflowPolicy) where
    Step-bound :
        {s t : System C}
        → Step driver codec capacity policy s t
        → length s.queue ≤ capacity
        → length t.queue ≤ capacity
    Step-bound {s} (calls call e) h = subst (λ q. length q ≤ capacity) (sym (issue-queue call s)) h
    Step-bound {s} (enters before after command e room there) h =
        omega (arith, length-append s.queue (command ∷ []))
    Step-bound (leaves before after command why e refused) h = h
    Step-bound (drops e) h = h
    Step-bound {s} {t} (advances e) h = omega (arith, advance-Shorter s t e)

    Reach-bound :
        {w : Writer C} {s : System C}
        → Reach driver codec capacity policy w s
        → length s.queue ≤ capacity
    Reach-bound start = omega arith
    Reach-bound (later r step) = Step-bound step (Reach-bound r)

    -- In every reachable state, whatever the driver does and however the steps interleave: the queue
    -- holds no more commands than the channel was made for, the writer has the settings that it
    -- began with, and at most 1024 latencies if it began so.
    pub Reach-Kept :
        (w : Writer C) (s : System C)
        → Reach driver codec capacity policy w s
        → (length s.queue ≤ capacity) × Kept w s.writer
    Reach-Kept w s r = (
      Reach-bound r,
      TracedIn-Kept w s.writer s.phase s.log s.queue s.sent _
          (Reach-Traced driver codec capacity policy r),
    )
