-- ===== src/Writer/Kept.antt =====
-- What every operation of the writer keeps, whatever the driver does: its settings, and the bound
-- on its latency buffer (src/writer.rs: `apply`, `apply_batch`).
use squeuelite_rs.Common.{◌≤◌, ◌≡◌, refl, ◌∙◌, Option, List, Text, Result, ok, err, length}
use squeuelite_rs.Common.Int.{ℤ}
use squeuelite_rs.Error.{SqlError}
use squeuelite_rs.Request.{WriteRequest, WriteResponse}
use squeuelite_rs.Codec.{Codec}
use squeuelite_rs.Driver.{Driver}
use squeuelite_rs.Latency.{latency_buf_cap}
use squeuelite_rs.Latency.Window.{push_latency-bound}
use squeuelite_rs.Writer.{
  Writer, Admission, reply, proceed, admit, settle, finish, write_body, begin_with, apply_inner,
  answer, apply,
}
use squeuelite_rs.Writer.Refinement.{settings_of}
use squeuelite_rs.Writer.Batch.{Ticket, batch_turns, batch_settle, batch_begin, apply_batch}

-- The settings are the same, and a buffer within its bound stays so.
abbrev pub Kept : {C : Type 0} → Writer C → Writer C → Type 0
Kept w v =
    (settings_of v ≡ settings_of w)
    × (length w.latency_buf ≤ latency_buf_cap → length v.latency_buf ≤ latency_buf_cap)

pub Kept-refl : {C : Type 0} (w : Writer C) → Kept w w
Kept-refl w = (refl, λ h. h)

pub Kept-trans : {C : Type 0} (u v w : Writer C) → Kept u v → Kept v w → Kept u w
Kept-trans u v w h k = (k.0 ∙ h.0, λ bound. k.1 (h.1 bound))

module _ {C : Type 0} (driver : Driver C) (codec : Codec) where
  settle-Kept :
      (w : Writer C) (id : Text) (seq : Option ℤ) (r : Result (Unit {0}) SqlError × C)
      → Kept w (settle driver w id seq r).1
  unfolding settle
  settle-Kept w id seq (ok _, c) = (refl, push_latency-bound w.latency_buf _)
  settle-Kept w id seq (err e, c) = (refl, λ h. h)

  finish-Kept :
      (w : Writer C) (id : Text) (r : Result (Option ℤ) Text × C) → Kept w (finish driver w id r).1
  unfolding finish
  finish-Kept w id (ok seq, c) = settle-Kept w id seq (driver.commit c)
  finish-Kept w id (err m, c) = (refl, λ h. h)

  begin_with-Kept :
      (w : Writer C) (req : WriteRequest) (rec : Option (Text × Text))
      (r : Result (Unit {0}) SqlError × C)
      → Kept w (begin_with driver codec w req rec r).1
  unfolding begin_with
  begin_with-Kept w req rec (ok _, c) =
      finish-Kept w req.request_id (write_body driver codec w.track_commits req rec c)
  begin_with-Kept w req rec (err e, c) = (refl, λ h. h)

  answer-Kept :
      (w : Writer C) (req : WriteRequest) (a : Admission) → Kept w (answer driver codec w req a).1
  unfolding answer apply_inner
  answer-Kept w req (reply response) = Kept-refl w
  answer-Kept w req (proceed rec) = begin_with-Kept w req rec (driver.begin_immediate w.conn)

  pub apply-Kept : (w : Writer C) (req : WriteRequest) → Kept w (apply driver codec w req).1
  unfolding apply
  apply-Kept w req = answer-Kept w req (admit driver codec w.config w.idempotency req w.conn)

  batch_settle-Kept :
      (w : Writer C) (sent : List (Ticket × WriteResponse)) (r : Result (Unit {0}) SqlError × C)
      → Kept w (batch_settle driver codec w sent r).1
  unfolding batch_settle
  batch_settle-Kept w sent (ok _, c) = (refl, push_latency-bound w.latency_buf _)
  batch_settle-Kept w sent (err e, c) = (refl, λ h. h)

  batch_begin-Kept :
      (w : Writer C) (batch : List (WriteRequest × Ticket)) (r : Result (Unit {0}) SqlError × C)
      → Kept w (batch_begin driver codec w batch r).1
  unfolding batch_begin
  batch_begin-Kept w batch (ok _, c) =
      batch_settle-Kept w (batch_turns driver codec w 0 batch c).0 _
  batch_begin-Kept w batch (err e, c) = (refl, λ h. h)

  pub apply_batch-Kept :
      (w : Writer C) (batch : List (WriteRequest × Ticket))
      → Kept w (apply_batch driver codec w batch).1
  unfolding apply_batch
  apply_batch-Kept w batch = batch_begin-Kept w batch (driver.begin_immediate w.conn)
