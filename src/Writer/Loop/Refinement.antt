-- ===== src/Writer/Loop/Refinement.antt =====
-- The writer's loop, on its fuel, against the serial execution of its queue (src/writer.rs: `run`).
use squeuelite_rs.Common.{
  ℕ, suc, zero, ◌-◌, ◌<◌, ◌≡◌, refl, sym, subst, inl, inr, Bool, true, false, Option, none, some,
  List, [], ◌∷◌, Text, arith, length, Bool-cases, Option-cases,
}
use mathlib.Core.List.{append-nil}
use squeuelite_rs.Codec.{Codec}
use squeuelite_rs.Driver.{Driver}
use squeuelite_rs.Driver.Snapshots.{idle}
use squeuelite_rs.Driver.Laws.{Semantics, Laws}
use squeuelite_rs.Driver.Refusal.{Refusal}
use squeuelite_rs.Writer.{Writer}
use squeuelite_rs.Writer.Refinement.{settings_of}
use squeuelite_rs.Writer.Loop.{
  Command, write, shutdown, checkpoint, Arrival, Sent, command_of, is_single, drain, collect, turn,
  run_loop, run, resume, ended,
}
use squeuelite_rs.Writer.Loop.Queue.{commands, pending, drain_lem, PlainCommands, PlainBatch-writes}
use squeuelite_rs.Writer.Loop.Rule.{length-turn}
use squeuelite_rs.Writer.Loop.Passes.{Rests, Leads, turn-Passes}
use squeuelite_rs.Spec.{Settings}
use squeuelite_rs.Serial.{Serial}

behind :
    (IsPlain : Text → Type 0) (deferred : Option Command) (rest : List Command)
    → PlainCommands IsPlain (pending deferred rest)
    → PlainCommands IsPlain rest
behind IsPlain none rest h = h
behind IsPlain (some command) rest h = h.1

after_drain :
    (IsPlain : Text → Type 0) (room : ℕ) (queue : List Arrival)
    → PlainCommands IsPlain (commands queue)
    → PlainCommands IsPlain (commands (drain room queue).rest)
after_drain IsPlain room queue plain =
    let d = drain room queue in
    let left : PlainCommands IsPlain (pending d.deferred (commands d.rest)) =
      (PlainBatch-writes IsPlain d.batch (pending d.deferred (commands d.rest))
        (subst (PlainCommands IsPlain) (sym (drain_lem room queue)) plain)).1 in
    behind IsPlain d.deferred (commands d.rest) left

module _ {C : Type 0} (driver : Driver C) (codec : Codec) where
  plain-turn :
      (IsPlain : Text → Type 0) (w : Writer C) (command : Command) (queue : List Arrival)
      → PlainCommands IsPlain (commands queue)
      → PlainCommands IsPlain (commands (turn driver codec w command queue).1)
  unfolding turn collect
  plain-turn IsPlain w (write req ticket) queue plain = elim (Option-cases w.config.batch) [
    | inl e ↦ rw (e, turn) plain
    | inr (limits, e) ↦ elim (Bool-cases (is_single req)) [
      | inl single ↦ rw (e, turn, single) (after_drain IsPlain (limits.max_size - 1) queue plain)
      | inr several ↦ rw (e, turn, several) plain
    ]
  ]
  plain-turn IsPlain w shutdown queue plain = plain
  plain-turn IsPlain w (checkpoint ticket) queue plain = plain

module _ {C D : Type 0} {driver : Driver C} {meaning : Semantics D} {IsPlain : Text → Type 0}
    (laws : Laws driver meaning IsPlain) (codec : Codec) where
  -- How the loop ends.
  abbrev pub Executes : Settings → D → List Command → Option (Sent × Writer C) → Type 0
  Executes s x queue none = ⊥
  Executes s x queue (some (sent, w)) =
      (y : D) × (Rests laws codec s w y × Serial meaning codec (Refusal laws) s x queue sent y)

  resume-Executes :
      (s : Settings) (x y : D) (queue rest : List Command) (sent : Sent) (w : Writer C)
      (stop : Bool) (later : Option (Sent × Writer C))
      → Rests laws codec s w y
      → Leads meaning codec (Refusal laws) s x queue sent stop y rest
      → Executes s y rest later
      → Executes s x queue (resume driver codec stop sent w later)
  unfolding resume
  resume-Executes s x y queue rest sent w true later at leads h =
      (y, (at, rw append-nil at (leads [] y (refl, refl))))
  resume-Executes s x y queue rest sent w false none at leads h = h
  resume-Executes s x y queue rest sent w false (some (more, w')) at leads (z, (at', serial)) =
      (z, (at', leads more z serial))

  run_loop-Executes :
      (fuel : ℕ) (s : Settings) (w : Writer C) (queue : List Arrival) (x : D)
      → length queue < fuel
      → PlainCommands IsPlain (commands queue)
      → Rests laws codec s w x
      → Executes s x (commands queue) (run_loop driver codec fuel w queue)
  unfolding run_loop
  run_loop-Executes zero s w queue x enough plain h = absurd (omega arith)
  run_loop-Executes (suc fuel) s w [] x enough plain h = (x, (h, refl))
  run_loop-Executes (suc fuel) s w (a ∷ queue) x enough plain h =
      let command = command_of a in
      let ((sent, w', stop), rest) = turn driver codec w command queue in
      let (y, (at, leads)) = turn-Passes laws codec s w command queue x plain.0 plain.1 h in
      resume-Executes s x y (commands (a ∷ queue)) (commands rest) sent w' stop
        (run_loop driver codec fuel w' rest) at leads
        (run_loop-Executes fuel s w' rest y
          (omega (arith, length-turn driver codec w command queue))
          (plain-turn driver codec IsPlain w command queue plain.1) at)

  ended-Executes :
      (s : Settings) (x : D) (queue : List Command) (r : Option (Sent × Writer C))
      → Executes s x queue r
      → Executes s x queue (ended driver codec r)
  ended-Executes s x queue none h = h
  ended-Executes s x queue (some (sent, w)) (y, (at, serial)) =
      (y, ((at.0, laws.checkpoint_same w.conn y at.1), serial))

  -- For a driver that keeps the laws and plain statements, on a connection with no transaction
  -- open: whatever the settings and the arrival times, the loop ends; it has sent the replies, and
  -- left the data and the connection idle, of executing the queue's commands one at a time, in
  -- order, up to the first shutdown. Each request is answered as promised or, with a driver that
  -- refuses a BEGIN, COMMIT, SAVEPOINT or RELEASE where it is in place, possibly as failed and
  -- without effect.
  pub run-Executes :
      (w : Writer C) (queue : List Arrival) (x : D)
      → PlainCommands IsPlain (commands queue)
      → laws.state w.conn ≡ idle x
      → Executes (settings_of w) x (commands queue) (run driver codec w queue)
  unfolding run
  run-Executes w queue x plain at = ended-Executes (settings_of w) x (commands queue) _ (
      run_loop-Executes (suc (length queue)) (settings_of w) w queue x (omega arith) plain
        (refl, at))
