-- ===== src/Writer/Loop/Numbers.antt =====
-- The numbers of commits that the loop sends (src/writer.rs: `run`, `apply_inner`, `apply_savepoint`).
use squeuelite_rs.Common.{◌≡◌, refl, true, Option, none, some, List, Text, All}
use squeuelite_rs.Codec.{Codec}
use squeuelite_rs.Driver.{Driver}
use squeuelite_rs.Driver.Snapshots.{idle}
use squeuelite_rs.Driver.Laws.{Semantics, Laws}
use squeuelite_rs.Driver.Refusal.{Refusal}
use squeuelite_rs.Writer.{Writer}
use squeuelite_rs.Writer.Refinement.{settings_of}
use squeuelite_rs.Writer.Loop.{Command, Arrival, Sent, run}
use squeuelite_rs.Writer.Loop.Queue.{commands, PlainCommands}
use squeuelite_rs.Writer.Loop.Refinement.{Executes, run-Executes}
use squeuelite_rs.Spec.{Settings}
use squeuelite_rs.Spec.Numbers.{Numbering}
use squeuelite_rs.Serial.Numbers.{FreshCommand, Increasing, Serial-Increasing}

module _ {C D : Type 0} {driver : Driver C} {meaning : Semantics D}
    {IsPlain Sparing : Text → Type 0} (laws : Laws driver meaning IsPlain)
    (numbering : Numbering meaning Sparing) (codec : Codec) where
  Executes-Increasing :
      (s : Settings) (x : D) (queue : List Command) (r : Option (Sent × Writer C))
      → s.track ≡ true
      → All (FreshCommand numbering codec (Refusal laws) s) queue
      → Executes laws codec s x queue r
      → (sent : Sent) × (v : Writer C) × (r ≡ some (sent, v))
        × Increasing numbering codec (Refusal laws) s (numbering.largest x) sent
  Executes-Increasing s x queue none tracks fresh h = absurd h
  Executes-Increasing s x queue (some (sent, v)) tracks fresh (y, (at, serial)) = (
    sent,
    v,
    refl,
    Serial-Increasing numbering codec (Refusal laws) s queue x y sent tracks fresh serial,
  )

  -- For a driver and a table of commits that keep their laws, with commits tracked, on a connection
  -- with no transaction open: let the statements of the queue be plain and put no row into the table
  -- of commits, and let no request have an idempotency key that is in use. Then the loop ends, and
  -- the commits among its replies have numbers that increase in the order of the queue, above all
  -- the numbers that were given before.
  pub run-Increasing :
      (w : Writer C) (queue : List Arrival) (x : D)
      → PlainCommands IsPlain (commands queue)
      → laws.state w.conn ≡ idle x
      → w.track_commits ≡ true
      → All (FreshCommand numbering codec (Refusal laws) (settings_of w)) (commands queue)
      → (sent : Sent) × (v : Writer C) × (run driver codec w queue ≡ some (sent, v))
        × Increasing numbering codec (Refusal laws) (settings_of w) (numbering.largest x) sent
  run-Increasing w queue x plain at tracks fresh =
      Executes-Increasing (settings_of w) x (commands queue) (run driver codec w queue) tracks fresh
        (run-Executes laws codec w queue x plain at)
