-- ===== src/Writer/Batch/Refinement.antt =====
-- A batch against the serial execution of its requests (src/writer.rs: `apply_batch`).
use squeuelite_rs.Common.{
  ℕ, ◌+◌, ◌≡◌, refl, inl, inr, List, [], ◌∷◌, map, Text, Result, ok, err, All,
}
use squeuelite_rs.Error.{SqlError}
use squeuelite_rs.Request.{
  WriteRequest, WriteResponse, committed, failed, failed_response, WriteStatus,
}
use squeuelite_rs.Codec.{Codec}
use squeuelite_rs.Driver.{Driver}
use squeuelite_rs.Driver.Snapshots.{idle, in_tx}
use squeuelite_rs.Driver.Laws.{Semantics, Laws}
use squeuelite_rs.Driver.Refusal.{Refusal}
use squeuelite_rs.Writer.{Writer}
use squeuelite_rs.Writer.Refinement.{settings_of, PlainRequest}
use squeuelite_rs.Writer.Batch.{
  Ticket, override, batch_turn, batch_turns, batch_settle, batch_begin, apply_batch,
}
use squeuelite_rs.Writer.Batch.Turns.{Turned, batch_turn-Turned}
use squeuelite_rs.Spec.{Settings, promised}
use squeuelite_rs.Serial.{Answered, Run}

abbrev pub PlainBatch : (Text → Type 0) → List (WriteRequest × Ticket) → Type 0
PlainBatch IsPlain = All (λ r. PlainRequest IsPlain r.0)

override-failed :
    (m : Text) (id : Text) (status : WriteStatus) (resp : WriteResponse)
    → resp.status ≡ status
    → (override m resp).status ≡ failed
unfolding override
override-failed m id committed resp e = rw (e, override)
override-failed m id failed resp e = rw (e, override) e

module _ {D : Type 0} (meaning : Semantics D) (codec : Codec) (Fault : Type 0) (fault : Fault)
    (s : Settings) where
  -- Once every response says failed, the run is one of failures on unchanged data.
  override-Run :
      (m : Text) (x y z : D) (batch : List (WriteRequest × Ticket))
      (sent : List (Ticket × WriteResponse))
      → Run meaning codec Fault s y batch sent z
      → Run meaning codec Fault s x batch (map (λ r. (r.0, override m r.1)) sent) x
  override-Run m x y z [] [] h = refl
  override-Run m x y z (r ∷ batch) (q ∷ sent) h = (
    h.0,
    (
      x,
      inr (refl, override-failed m m q.1.status q.1 refl, fault),
      override-Run m x h.1.0 z batch sent h.1.2,
    ),
  )
  override-Run m x y z [] (q ∷ sent) h = h
  override-Run m x y z (r ∷ batch) [] h = h

  refuse-Run :
      (m : Text) (x : D) (batch : List (WriteRequest × Ticket))
      → Run meaning codec Fault s x batch
          (map (λ r. (r.1, failed_response r.0.request_id m)) batch)
          x
  refuse-Run m x [] = refl
  refuse-Run m x (r ∷ batch) = (refl, (x, inr (refl, refl, fault), refuse-Run m x batch))

module _ {C D : Type 0} {driver : Driver C} {meaning : Semantics D} {IsPlain : Text → Type 0}
    (laws : Laws driver meaning IsPlain) (codec : Codec) where
  Turned-Answered :
      (s : Settings) (req : WriteRequest) (o x : D) (resp : WriteResponse) (c : C)
      → Turned laws codec o x (promised meaning codec s req x) (resp, c)
      → (y : D) × ((laws.state c ≡ in_tx y o)
          × Answered meaning codec (Refusal laws) s req x resp y)
  Turned-Answered s req o x resp c (inl (e, q)) =
      ((promised meaning codec s req x).1, (e, inl (refl, q)))
  Turned-Answered s req o x resp c (inr (e, q, f)) = (x, (e, inr (refl, q, f)))

  turns-Run :
      (w : Writer C) (idx : ℕ) (batch : List (WriteRequest × Ticket)) (o x : D) (c : C)
      → PlainBatch IsPlain batch
      → laws.state c ≡ in_tx x o
      → let (sent, c') = batch_turns driver codec w idx batch c in
        (z : D) × ((laws.state c' ≡ in_tx z o)
          × Run meaning codec (Refusal laws) (settings_of w) x batch sent z)
  unfolding batch_turns
  turns-Run w idx [] o x c plain e = (x, (e, refl))
  turns-Run w idx ((req, ticket) ∷ batch) o x c plain e =
      let (resp, c') = batch_turn driver codec w idx req c in
      let (y, (e', answered)) =
        Turned-Answered (settings_of w) req o x resp c'
          (batch_turn-Turned laws codec w idx req o x c plain.0 e) in
      let (z, (e'', rest)) = turns-Run w (idx + 1) batch o y c' plain.1 e' in
      (z, (e'', (refl, (y, answered, rest))))

  -- What a batch that began with the data `x` leaves.
  abbrev pub BatchRuns :
      Writer C
      → List (WriteRequest × Ticket)
      → D
      → List (Ticket × WriteResponse) × Writer C
      → Type 0
  BatchRuns w batch x (sent, w') =
      (settings_of w' ≡ settings_of w)
      × ((z : D) × ((laws.state w'.conn ≡ idle z)
            × Run meaning codec (Refusal laws) (settings_of w) x batch sent z))

  batch_settle-Runs :
      (w : Writer C) (batch : List (WriteRequest × Ticket)) (x z : D)
      (sent : List (Ticket × WriteResponse)) (r : Result (Unit {0}) SqlError × C)
      → Run meaning codec (Refusal laws) (settings_of w) x batch sent z
      → (r.0 ≡ ok tt → laws.state r.1 ≡ idle z)
      → ((e : SqlError) → r.0 ≡ err e → (laws.state r.1 ≡ idle x) × Refusal laws)
      → BatchRuns w batch x (batch_settle driver codec w sent r)
  unfolding batch_settle
  batch_settle-Runs w batch x z sent (ok _, c) h good bad = (refl, (z, (good refl, h)))
  batch_settle-Runs w batch x z sent (err e, c) h good bad = (
    refl,
    (
      x,
      (
        (bad e refl).0,
        override-Run meaning codec (Refusal laws) (bad e refl).1 (settings_of w) e.message x x z
            batch sent h,
      ),
    ),
  )

  batch_begin-Runs :
      (w : Writer C) (batch : List (WriteRequest × Ticket)) (x : D)
      (r : Result (Unit {0}) SqlError × C)
      → PlainBatch IsPlain batch
      → (r.0 ≡ ok tt → laws.state r.1 ≡ in_tx x x)
      → ((e : SqlError) → r.0 ≡ err e → (laws.state r.1 ≡ idle x) × Refusal laws)
      → BatchRuns w batch x (batch_begin driver codec w batch r)
  unfolding batch_begin
  batch_begin-Runs w batch x (ok _, c) plain good bad =
      let (sent, c') = batch_turns driver codec w 0 batch c in
      let (z, (e, h)) = turns-Run w 0 batch x x c plain (good refl) in
      batch_settle-Runs w batch x z sent (driver.commit c') h (laws.commit_ok c' z x e)
        (λ m p. (laws.commit_err c' z x m e p, Refusal.commit c' z x m e p))
  batch_begin-Runs w batch x (err e, c) plain good bad = (
    refl,
    (
      x,
      (
        (bad e refl).0,
        refuse-Run meaning codec (Refusal laws) (bad e refl).1 (settings_of w) e.message x batch,
      ),
    ),
  )

  -- For a driver that keeps the laws and plain statements, on a connection with no transaction
  -- open: a batch keeps the settings, leaves the connection idle and answers each request once, on
  -- its own ticket and in order: as promised on the data that the requests before it have left or,
  -- with a driver that refuses a BEGIN, COMMIT, SAVEPOINT or RELEASE where it is in place, possibly
  -- as failed and without effect.
  pub apply_batch-Runs :
      (w : Writer C) (batch : List (WriteRequest × Ticket)) (x : D)
      → PlainBatch IsPlain batch
      → laws.state w.conn ≡ idle x
      → BatchRuns w batch x (apply_batch driver codec w batch)
  unfolding apply_batch
  apply_batch-Runs w batch x plain e =
      batch_begin-Runs w batch x (driver.begin_immediate w.conn) plain (laws.begin_ok w.conn x e)
        (λ m p. (laws.begin_err w.conn x m e p, Refusal.begin w.conn x m e p))
