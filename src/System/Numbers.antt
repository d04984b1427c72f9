-- ===== src/System/Numbers.antt =====
-- The numbers of the commits that were sent so far (src/writer.rs: `run`, `apply_inner`,
-- `apply_savepoint`; src/inprocess.rs).
use squeuelite_rs.Common.{
  ℕ, ◌≡◌, refl, inl, inr, Bool, true, false, ok, List, [], ◌∷◌, ◌++◌, Text, All,
}
use squeuelite_rs.Config.{OverflowPolicy}
use squeuelite_rs.Codec.{Codec}
use squeuelite_rs.Driver.{Driver}
use squeuelite_rs.Driver.Snapshots.{idle}
use squeuelite_rs.Driver.Laws.{Semantics, Laws}
use squeuelite_rs.Driver.Refusal.{Refusal}
use squeuelite_rs.Writer.{Writer}
use squeuelite_rs.Writer.Refinement.{settings_of}
use squeuelite_rs.Writer.Loop.{Command, write, shutdown, checkpoint, Sent, written, checkpointed}
use squeuelite_rs.Writer.Loop.Queue.{PlainCommands}
use squeuelite_rs.Writer.Loop.Passes.{Resumes}
use squeuelite_rs.Spec.{Settings, promised}
use squeuelite_rs.Spec.Numbers.{Numbering}
use squeuelite_rs.Serial.{Serial}
use squeuelite_rs.Serial.Numbers.{FreshCommand, Increasing, Serial-Increasing}
use squeuelite_rs.System.{System, Reach}
use squeuelite_rs.System.Linear.{ahead, is_over, Reach-Leads}

module _ {D : Type 0} (meaning : Semantics D) (codec : Codec) (Fault : Type 0) (s : Settings) where
  -- Commands can be executed serially on any data: as promised.
  Serial-promised :
      (x : D) (queue : List Command)
      → (sent : Sent) × (z : D) × Serial meaning codec Fault s x queue sent z
  Serial-promised x [] = ([], x, refl)
  Serial-promised x (write req ticket ∷ queue) =
      let p = promised meaning codec s req x in
      let (sent, z, serial) = Serial-promised p.1 queue in
      ((ticket, written p.0) ∷ sent, z, (refl, (p.1, inl (refl, refl), serial)))
  Serial-promised x (shutdown ∷ queue) = ([], x, refl)
  Serial-promised x (checkpoint ticket ∷ queue) =
      let (sent, z, serial) = Serial-promised x queue in
      ((ticket, checkpointed (ok tt)) ∷ sent, z, (refl, serial))

  Resumes-promised :
      (stop : Bool) (x : D) (queue : List Command)
      → (more : Sent) × (z : D) × Resumes meaning codec Fault s stop x queue more z
  Resumes-promised true x queue = ([], x, (refl, refl))
  Resumes-promised false x queue = Serial-promised x queue

module _ {D : Type 0} {meaning : Semantics D} {Sparing : Text → Type 0}
    (numbering : Numbering meaning Sparing) (codec : Codec) (Fault : Type 0) (s : Settings) where
  -- The numbers increase in the beginning of what they increase in.
  Increasing-front :
      (bound : ℕ) (front back : Sent)
      → Increasing numbering codec Fault s bound (front ++ back)
      → Increasing numbering codec Fault s bound front
  Increasing-front bound [] back h = tt
  Increasing-front bound ((on, checkpointed result) ∷ front) back h =
      Increasing-front bound front back h
  Increasing-front bound ((on, written resp) ∷ front) back (inl (bad, h)) =
      inl (bad, Increasing-front bound front back h)
  Increasing-front bound ((on, written resp) ∷ front) back (inr (n, good, number, above, h)) =
      inr (n, good, number, above, Increasing-front n front back h)

module _ {C D : Type 0} {driver : Driver C} {meaning : Semantics D} {IsPlain : Text → Type 0}
    (laws : Laws driver meaning IsPlain) (codec : Codec) where
  -- What was sent begins the replies of a serial execution of the whole log.
  pub Reach-Serial :
      (capacity : ℕ) (policy : OverflowPolicy) (w : Writer C) (s : System C) (x : D)
      → PlainCommands IsPlain s.log
      → laws.state w.conn ≡ idle x
      → Reach driver codec capacity policy w s
      → (more : Sent) × (z : D) × Serial meaning codec
          (Refusal laws)
          (settings_of w)
          x
          s.log
          (s.sent ++ more)
          z
  Reach-Serial capacity policy w s x plain at r =
      let (y, same, rests, leads) = Reach-Leads laws codec capacity policy w s x plain at r in
      let (more, z, resumes) =
        Resumes-promised meaning codec (Refusal laws) (settings_of w) (is_over s.phase) y
          (ahead s.phase s.queue) in
      (more, z, leads more z resumes)

module _ {C D : Type 0} {driver : Driver C} {meaning : Semantics D}
    {IsPlain Sparing : Text → Type 0} (laws : Laws driver meaning IsPlain)
    (numbering : Numbering meaning Sparing) (codec : Codec) where
  -- For a driver and a table of commits that keep their laws, with commits tracked, on a connection
  -- with no transaction open: let the statements of the log be plain and put no row into the table of
  -- commits, and let no request have an idempotency key that is in use. Then in every reachable
  -- state, however the steps interleave, the commits that were sent have numbers that increase in the
  -- order of sending, above all the numbers that were given before.
  pub Reach-Increasing :
      (capacity : ℕ) (policy : OverflowPolicy) (w : Writer C) (s : System C) (x : D)
      → PlainCommands IsPlain s.log
      → laws.state w.conn ≡ idle x
      → w.track_commits ≡ true
      → All (FreshCommand numbering codec (Refusal laws) (settings_of w)) s.log
      → Reach driver codec capacity policy w s
      → Increasing numbering codec (Refusal laws) (settings_of w) (numbering.largest x) s.sent
  Reach-Increasing capacity policy w s x plain at tracks fresh r =
      let (more, z, serial) = Reach-Serial laws codec capacity policy w s x plain at r in
      Increasing-front numbering codec (Refusal laws) (settings_of w) (numbering.largest x) s.sent
        more
        (Serial-Increasing numbering codec (Refusal laws) (settings_of w) s.log x z (s.sent ++ more)
          tracks fresh serial)
