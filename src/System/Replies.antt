-- ===== src/System/Replies.antt =====
-- Who has been answered in a reachable state, who will be, and that no call is in two places
-- (src/inprocess.rs, src/writer.rs).
use squeuelite_rs.Common.{ℕ, ◌≡◌, refl, sym, ap, ◌∙◌, inl, inr, Bool, List, [], ◌∷◌, ◌++◌, map}
use mathlib.Core.List.{append_assoc}
use squeuelite_rs.Config.{OverflowPolicy}
use squeuelite_rs.Codec.{Codec}
use squeuelite_rs.Driver.{Driver}
use squeuelite_rs.Writer.{Writer}
use squeuelite_rs.Writer.Batch.{Ticket}
use squeuelite_rs.Writer.Loop.{Command, Sent, handle, apply_collected}
use squeuelite_rs.Writer.Loop.Replies.{
  waiting, answered, still, answered-append, waiting-writes, handle-answered,
  apply_collected-answered,
}
use squeuelite_rs.System.{Phase, receiving, collecting, closing, stopped, System, Reach}
use squeuelite_rs.System.Trace.{Ran, nothing, handled, batched, TracedIn, Ended}
use squeuelite_rs.System.Refinement.{Reach-Traced}

-- Whose answers the thread owes: it holds their commands, or they are queued before a shutdown.
abbrev pub owed : Phase → List Command → List Ticket
owed receiving queue = waiting queue
owed (collecting room req ticket batch) queue = ticket ∷ map (λ r. r.1) batch ++ waiting queue
owed closing queue = []
owed stopped queue = []

module _ {C : Type 0} (driver : Driver C) (codec : Codec) where
  Ran-answered :
      {w : Writer C} {queue : List Command} {sent : Sent} {stop : Bool} {v : Writer C}
      {rest : List Command}
      → Ran driver codec w queue sent stop v rest
      → answered sent ++ still stop rest ≡ waiting queue
  Ran-answered nothing = refl
  Ran-answered (handled {sent} {v} {rest} command ran) =
      let (more, v', stop) = handle driver codec v command in
      ap (λ l. l ++ still stop rest) (answered-append sent more)
      ∙ append_assoc (answered sent) (answered more) (still stop rest)
      ∙ ap (λ l. answered sent ++ l) (handle-answered driver codec v command rest)
      ∙ Ran-answered ran
  Ran-answered (batched {sent} {v} {rest} req ticket batch ran) =
      let more = (apply_collected driver codec v req ticket batch).0 in
      ap (λ l. l ++ waiting rest) (answered-append sent more)
      ∙ append_assoc (answered sent) (answered more) (waiting rest)
      ∙ ap (λ l. answered sent ++ l)
          (ap (λ l. l ++ waiting rest) (apply_collected-answered driver codec v req ticket batch)
            ∙ ap (λ l. ticket ∷ l) (sym (waiting-writes batch rest)))
      ∙ Ran-answered ran

  Ended-answered :
      {w v : Writer C} {log : List Command} {sent : Sent} {Quiet : Type 0}
      → Ended driver codec w log sent v Quiet
      → answered sent ++ [] ≡ waiting log
  Ended-answered (inl (rest, ran)) = Ran-answered ran
  Ended-answered (inr (ran, quiet)) = Ran-answered ran

  TracedIn-answered :
      (w v : Writer C) (phase : Phase) (log queue : List Command) (sent : Sent) (Quiet : Type 0)
      → TracedIn driver codec w phase log queue sent v Quiet
      → answered sent ++ owed phase queue ≡ waiting log
  TracedIn-answered w v receiving log queue sent Quiet h = Ran-answered h
  TracedIn-answered w v (collecting room req ticket batch) log queue sent Quiet h =
      ap (λ l. answered sent ++ ticket ∷ l) (sym (waiting-writes batch queue)) ∙ Ran-answered h
  TracedIn-answered w v closing log queue sent Quiet h = Ended-answered h
  TracedIn-answered w v stopped log queue sent Quiet (u, same, h) = Ended-answered h

  -- In every reachable state, whatever the driver does and however the steps interleave: those that
  -- have been answered, followed by those that the thread owes an answer, are the senders of the
  -- commands that entered the channel before the first shutdown, each once and in the order of
  -- entry. Once the loop is left nothing is owed.
  pub Reach-answered :
      (capacity : ℕ) (policy : OverflowPolicy) (w : Writer C) (s : System C)
      → Reach driver codec capacity policy w s
      → answered s.sent ++ owed s.phase s.queue ≡ waiting s.log
  Reach-answered capacity policy w s r =
      TracedIn-answered w s.writer s.phase s.log s.queue s.sent _
        (Reach-Traced driver codec capacity policy r)
