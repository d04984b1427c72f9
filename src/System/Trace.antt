-- ===== src/System/Trace.antt =====
-- What the writer's thread has done with the commands that entered the channel, in whatever way the
-- callers and the thread interleave (src/writer.rs: `run`).
use squeuelite_rs.Common.{◌≡◌, subst, inl, inr, ◌⊎◌, Bool, true, false, some, List, [], ◌∷◌, ◌++◌}
use mathlib.Core.List.{append_assoc}
use squeuelite_rs.Request.{WriteRequest}
use squeuelite_rs.Codec.{Codec}
use squeuelite_rs.Driver.{Driver}
use squeuelite_rs.Writer.{Writer}
use squeuelite_rs.Writer.Batch.{Ticket}
use squeuelite_rs.Writer.Loop.{
  Command, write, Sent, handle, apply_collected, handle_deferred, shutdown_checkpoint,
}
use squeuelite_rs.Writer.Loop.Queue.{writes}
use squeuelite_rs.System.{
  Phase, receiving, collecting, closing, stopped, System, passed, IsReceiver,
}

module _ {C : Type 0} (driver : Driver C) (codec : Codec) where
  -- From the first writer and commands: what was sent, whether the loop was left, the writer after
  -- that and the commands that are left. The commands are taken in order, one at a time or as a
  -- batch, until the first shutdown.
  pub data Ran (w : Writer C) (queue : List Command)
      : Sent → Bool → Writer C → List Command → Type 0 where
    nothing : Ran w queue [] false w queue
    handled :
        {sent : Sent} {v : Writer C} {rest : List Command} (command : Command)
        → Ran w queue sent false v (command ∷ rest)
        → Ran w queue
            (sent ++ (handle driver codec v command).0)
            (handle driver codec v command).2
            (handle driver codec v command).1
            rest
    batched :
        {sent : Sent} {v : Writer C} {rest : List Command} (req : WriteRequest) (ticket : Ticket)
        (batch : List (WriteRequest × Ticket))
        → Ran w queue sent false v (write req ticket ∷ writes batch ++ rest)
        → Ran w queue
            (sent ++ (apply_collected driver codec v req ticket batch).0)
            false
            (apply_collected driver codec v req ticket batch).1
            rest

  Ran-append :
      {w : Writer C} {queue : List Command} {sent : Sent} {stop : Bool} {v : Writer C}
      {rest : List Command}
      → Ran w queue sent stop v rest
      → (more : List Command) → Ran w (queue ++ more) sent stop v (rest ++ more)
  Ran-append nothing more = nothing
  Ran-append (handled command r) more = handled command (Ran-append r more)
  Ran-append {w} {queue} (batched {sent} {v} {rest} req ticket batch r) more =
      batched req ticket batch (
        subst (λ q. Ran w (queue ++ more) sent false v (write req ticket ∷ q))
          (append_assoc (writes batch) rest more) (Ran-append r more))

  -- The loop was left: by a shutdown, or with nothing to do and nobody to send more.
  abbrev pub Ended : Writer C → List Command → Sent → Writer C → Type 0 → Type 0
  Ended w log sent v Quiet =
      ((rest : List Command) × Ran w log sent true v rest) ⊎ (Ran w log sent false v [] × Quiet)

  -- What has been done with the commands of the log, by the phase.
  abbrev pub TracedIn :
      Writer C → Phase → List Command → List Command → Sent → Writer C → Type 0 → Type 0
  TracedIn w receiving log queue sent v Quiet = Ran w log sent false v queue
  TracedIn w (collecting room req ticket batch) log queue sent v Quiet =
      Ran w log sent false v (write req ticket ∷ writes batch ++ queue)
  TracedIn w closing log queue sent v Quiet = Ended w log sent v Quiet
  TracedIn w stopped log queue sent v Quiet =
      (u : Writer C) × (v ≡ shutdown_checkpoint driver codec u) × Ended w log sent u Quiet

  -- Nobody can send.
  abbrev pub IsQuiet : System C → Type 0
  IsQuiet s = (s.senders ≡ false) × (s.calling ≡ [])

  abbrev pub Traced : Writer C → System C → Type 0
  Traced w s = TracedIn w s.phase s.log s.queue s.sent s.writer (IsQuiet s)

  Ended-quiet :
      (w v : Writer C) (log : List Command) (sent : Sent) (Q R : Type 0)
      → (Q → R)
      → Ended w log sent v Q
      → Ended w log sent v R
  Ended-quiet w v log sent Q R f (inl h) = inl h
  Ended-quiet w v log sent Q R f (inr (ran, q)) = inr (ran, f q)

  -- A step that leaves the writer's side as it was.
  pub TracedIn-quiet :
      (w v : Writer C) (phase : Phase) (log queue : List Command) (sent : Sent) (Q R : Type 0)
      → (Q → R)
      → TracedIn w phase log queue sent v Q
      → TracedIn w phase log queue sent v R
  TracedIn-quiet w v receiving log queue sent Q R f h = h
  TracedIn-quiet w v (collecting room req ticket batch) log queue sent Q R f h = h
  TracedIn-quiet w v closing log queue sent Q R f h = Ended-quiet w v log sent Q R f h
  TracedIn-quiet w v stopped log queue sent Q R f (u, same, h) =
      (u, same, Ended-quiet w u log sent Q R f h)

  Ended-enters :
      (w v : Writer C) (log : List Command) (sent : Sent) (Q R : Type 0) (command : Command)
      → (Q → ⊥)
      → Ended w log sent v Q
      → Ended w (log ++ command ∷ []) sent v R
  Ended-enters w v log sent Q R command busy (inl (rest, ran)) =
      inl (rest ++ command ∷ [], Ran-append ran (command ∷ []))
  Ended-enters w v log sent Q R command busy (inr (ran, q)) = absurd (busy q)

  pub TracedIn-enters :
      (w v : Writer C) (phase : Phase) (log queue : List Command) (sent : Sent) (Q R : Type 0)
      (command : Command)
      → (Q → ⊥)
      → IsReceiver phase
      → TracedIn w phase log queue sent v Q
      → TracedIn w phase (log ++ command ∷ []) (queue ++ command ∷ []) sent v R
  TracedIn-enters w v receiving log queue sent Q R command busy there h =
      Ran-append h (command ∷ [])
  TracedIn-enters w v (collecting room req ticket batch) log queue sent Q R command busy there h =
      subst (λ q. Ran w (log ++ command ∷ []) sent false v (write req ticket ∷ q))
        (append_assoc (writes batch) queue (command ∷ [])) (Ran-append h (command ∷ []))
  TracedIn-enters w v closing log queue sent Q R command busy there h =
      Ended-enters w v log sent Q R command busy h
  TracedIn-enters w v stopped log queue sent Q R command busy there h = absurd there

  -- The end of a pass.
  pub passed-Traced :
      (w : Writer C) (s : System C) (rest : List Command) (sent : Sent) (v : Writer C) (stop : Bool)
      → Ran w s.log (s.sent ++ sent) stop v rest
      → Traced w (passed driver codec s rest (sent, v, stop))
  passed-Traced w s rest sent v true h = inl (rest, h)
  passed-Traced w s rest sent v false h = h

  pub handle-Traced :
      (w : Writer C) (s : System C) (command : Command) (rest : List Command)
      → Ran w s.log s.sent false s.writer (command ∷ rest)
      → Traced w (passed driver codec s rest (handle driver codec s.writer command))
  handle-Traced w s command rest h = passed-Traced w s rest _ _ _ (handled command h)

  pub deferred-Traced :
      (w : Writer C) (s : System C) (command : Command) (rest : List Command) (sent : Sent)
      (v : Writer C)
      → Ran w s.log (s.sent ++ sent) false v (command ∷ rest)
      → Traced w
          (passed driver codec s rest (handle_deferred driver codec (some command) (sent, v)))
  unfolding handle_deferred
  deferred-Traced w s command rest sent v h = passed-Traced w s rest _ _ _ (
      subst
        (λ l.
          Ran w s.log l (handle driver codec v command).2 (handle driver codec v command).1 rest)
        (append_assoc s.sent sent (handle driver codec v command).0) (handled command h))
