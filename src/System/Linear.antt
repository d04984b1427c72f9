-- ===== src/System/Linear.antt =====
-- Every reachable state of the gateway with its callers, against the serial execution of the log
-- (src/inprocess.rs, src/writer.rs).
use squeuelite_rs.Common.{
  ℕ, ◌≡◌, refl, sym, subst, inl, inr, Bool, true, false, List, [], ◌∷◌, ◌++◌, Text,
}
use squeuelite_rs.Config.{OverflowPolicy}
use squeuelite_rs.Codec.{Codec}
use squeuelite_rs.Driver.{Driver}
use squeuelite_rs.Driver.Snapshots.{idle}
use squeuelite_rs.Driver.Laws.{Semantics, Laws}
use squeuelite_rs.Driver.Refusal.{Refusal}
use squeuelite_rs.Writer.{Writer}
use squeuelite_rs.Writer.Refinement.{settings_of}
use squeuelite_rs.Writer.Loop.{Command, write, Sent}
use squeuelite_rs.Writer.Loop.Queue.{writes, PlainCommands, PlainBatch-writes}
use squeuelite_rs.Writer.Loop.Passes.{
  Rests, Leads, Leads-append, Passes, handle-Passes, apply_collected-Passes,
}
use squeuelite_rs.Spec.{Settings}
use squeuelite_rs.System.{Phase, receiving, collecting, closing, stopped, System, Reach}
use squeuelite_rs.System.Trace.{Ran, nothing, handled, batched, TracedIn, Ended}
use squeuelite_rs.System.Refinement.{Reach-Traced}

-- The commands that entered the channel and are still to be executed.
abbrev pub ahead : Phase → List Command → List Command
ahead receiving queue = queue
ahead (collecting room req ticket batch) queue = write req ticket ∷ writes batch ++ queue
ahead closing queue = []
ahead stopped queue = []

abbrev pub is_over : Phase → Bool
is_over receiving = false
is_over (collecting room req ticket batch) = false
is_over closing = true
is_over stopped = true

module _ {C D : Type 0} {driver : Driver C} {meaning : Semantics D} {IsPlain : Text → Type 0}
    (laws : Laws driver meaning IsPlain) (codec : Codec) where
  Ran-plain :
      {w : Writer C} {queue : List Command} {sent : Sent} {stop : Bool} {v : Writer C}
      {rest : List Command}
      → Ran driver codec w queue sent stop v rest
      → PlainCommands IsPlain queue
      → PlainCommands IsPlain rest
  Ran-plain nothing plain = plain
  Ran-plain (handled command ran) plain = (Ran-plain ran plain).1
  Ran-plain (batched {sent} {v} {rest} req ticket batch ran) plain =
      (PlainBatch-writes IsPlain ((req, ticket) ∷ batch) rest (Ran-plain ran plain)).1

  Ran-Passes :
      {s : Settings} {x : D} {w : Writer C} {queue : List Command} {sent : Sent} {stop : Bool}
      {v : Writer C} {rest : List Command}
      → Ran driver codec w queue sent stop v rest
      → PlainCommands IsPlain queue
      → Rests laws codec s w x
      → Passes laws codec s x queue rest (sent, v, stop)
  Ran-Passes {s} {x} nothing plain at = (x, (at, λ more z next. next))
  Ran-Passes {s} {x} {w} {queue} (handled {sent} {v} {rest} command ran) plain at =
      let (y, (at', first)) = Ran-Passes {s = s} {x = x} ran plain at in
      let (u, (at'', second)) =
        handle-Passes laws codec s v command y rest (Ran-plain ran plain).0 at' in
      (
        u,
        (
          at'',
          Leads-append meaning codec (Refusal laws) s x y u queue (command ∷ rest) rest sent _ _
              first second,
        ),
      )
  Ran-Passes {s} {x} {w} {queue} (batched {sent} {v} {rest} req ticket batch ran) plain at =
      let (y, (at', first)) = Ran-Passes {s = s} {x = x} ran plain at in
      let held = (req, ticket) ∷ batch in
      let (u, (at'', second)) =
        apply_collected-Passes laws codec s v req ticket batch y rest
          (PlainBatch-writes IsPlain held rest (Ran-plain ran plain)).0 at' in
      (
        u,
        (
          at'',
          Leads-append meaning codec (Refusal laws) s x y u queue (writes held ++ rest) rest sent _
              false first second,
        ),
      )

  Ended-Passes :
      (s : Settings) (x : D) (w v : Writer C) (log : List Command) (sent : Sent) (Quiet : Type 0)
      → PlainCommands IsPlain log
      → Rests laws codec s w x
      → Ended driver codec w log sent v Quiet
      → Passes laws codec s x log [] (sent, v, true)
  Ended-Passes s x w v log sent Quiet plain at (inl (rest, ran)) =
      let (y, (at', leads)) = Ran-Passes ran plain at in (y, (at', leads))
  Ended-Passes s x w v log sent Quiet plain at (inr (ran, quiet)) =
      let (y, (at', leads)) = Ran-Passes {s = s} {x = x} ran plain at in
      (y, (at', λ more z next. leads more z (rw (next.0) (next.1))))

  TracedIn-Passes :
      (s : Settings) (x : D) (w v : Writer C) (phase : Phase) (log queue : List Command)
      (sent : Sent) (Quiet : Type 0)
      → PlainCommands IsPlain log
      → Rests laws codec s w x
      → TracedIn driver codec w phase log queue sent v Quiet
      → Passes laws codec s x log (ahead phase queue) (sent, v, is_over phase)
  TracedIn-Passes s x w v receiving log queue sent Quiet plain at h = Ran-Passes h plain at
  TracedIn-Passes s x w v (collecting room req ticket batch) log queue sent Quiet plain at h =
      Ran-Passes h plain at
  TracedIn-Passes s x w v closing log queue sent Quiet plain at h =
      Ended-Passes s x w v log sent Quiet plain at h
  TracedIn-Passes s x w v stopped log queue sent Quiet plain at (u, same, h) =
      let (y, (at', leads)) = Ended-Passes s x w u log sent Quiet plain at h in
      (
        y,
        (
          subst (λ v. Rests laws codec s v y) (sym same)
              ((at'.0, laws.checkpoint_same u.conn y at'.1)),
          leads,
        ),
      )

  -- For a driver that keeps the laws, on a connection with no transaction open, in every state that
  -- is reached with plain commands in the log, however callers, channel and thread interleave: the
  -- writer rests, with the settings it began with, on data `y`; and whatever a serial execution of
  -- the commands still to be executed makes of `y`, what was sent and the replies of that execution
  -- are those of a serial execution of the whole log, in the order of entry. Once the loop is left
  -- nothing is to be executed: what was sent and `y` are those of a serial execution of the log up
  -- to its first shutdown.
  pub Reach-Leads :
      (capacity : ℕ) (policy : OverflowPolicy) (w : Writer C) (s : System C) (x : D)
      → PlainCommands IsPlain s.log
      → laws.state w.conn ≡ idle x
      → Reach driver codec capacity policy w s
      → (y : D) × (settings_of s.writer ≡ settings_of w)
        × (laws.state s.writer.conn ≡ idle y)
        × Leads meaning codec
            (Refusal laws)
            (settings_of w)
            x
            s.log
            s.sent
            (is_over s.phase)
            y
            (ahead s.phase s.queue)
  Reach-Leads capacity policy w s x plain at r =
      let (y, (rests, leads)) =
        TracedIn-Passes (settings_of w) x w s.writer s.phase s.log s.queue s.sent _ plain (refl, at)
          (Reach-Traced driver codec capacity policy r) in
      (y, rests.0, rests.1, leads)
