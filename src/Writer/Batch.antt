-- ===== src/Writer/Batch.antt =====
-- Batched commits: one outer transaction, a savepoint for each request (src/writer.rs:
-- `apply_batch`, `apply_savepoint`).
pub mod Turns
pub mod Refinement
pub mod Sequential
use squeuelite_rs.Common.{ℕ, ◌+◌, Bool, Option, List, [], ◌∷◌, map, Text, Result, ok, err}
use squeuelite_rs.Common.Int.{ℤ}
use squeuelite_rs.Error.{SqlError}
use squeuelite_rs.Request.{
  WriteRequest, WriteResponse, committed, failed, committed_response, failed_response,
}
use squeuelite_rs.Codec.{Codec}
use squeuelite_rs.Driver.{Driver}
use squeuelite_rs.Statements.{savepoint, release, rollback, savepoint_name}
use squeuelite_rs.Writer.{Writer, Admission, reply, proceed, admit, write_body, note_latency}

-- The sender of a response is known by a number.
abbrev pub Ticket : Type 0
Ticket = ℕ

module _ {C : Type 0} (driver : Driver C) where
  -- `sp_fail!`
  unfoldable pub sp_fail : Text → Text → Text → C → WriteResponse × C
  sp_fail name id message c =
      (failed_response id message, (driver.execute_batch (rollback name) c).1)

  -- The RELEASE, and the response to its outcome.
  unfoldable pub sp_release :
      Text → Text → Option ℤ → Result (Unit {0}) SqlError × C → WriteResponse × C
  unfolding sp_fail
  sp_release name id seq (ok _, c) = (committed_response id seq, c)
  sp_release name id seq (err e, c) = sp_fail name id e.message c

  unfoldable pub sp_finish : Text → Text → Result (Option ℤ) Text × C → WriteResponse × C
  unfolding sp_release sp_fail
  sp_finish name id (ok seq, c) = sp_release name id seq (driver.execute_batch (release name) c)
  sp_finish name id (err m, c) = sp_fail name id m c

-- Once the outer commit has failed, only responses that say committed are replaced.
unfoldable pub override : Text → WriteResponse → WriteResponse
override message resp = elim resp.status [
  | committed ↦ failed_response resp.request_id message
  | failed ↦ resp
]

module _ {C : Type 0} (driver : Driver C) (codec : Codec) where
  unfoldable pub sp_begin :
      Text
      → Bool
      → WriteRequest
      → Option (Text × Text)
      → Result (Unit {0}) SqlError × C
      → WriteResponse × C
  unfolding sp_finish write_body
  sp_begin name track req rec (ok _, c) =
      sp_finish driver name req.request_id (write_body driver codec track req rec c)
  sp_begin name track req rec (err e, c) = (failed_response req.request_id e.message, c)

  unfoldable pub apply_savepoint :
      Text → Bool → WriteRequest → Option (Text × Text) → C → WriteResponse × C
  unfolding sp_begin
  apply_savepoint name track req rec c =
      sp_begin name track req rec (driver.execute_batch (savepoint name) c)

  unfoldable pub batch_answer : Writer C → ℕ → WriteRequest → Admission → C → WriteResponse × C
  unfolding apply_savepoint
  batch_answer w idx req (reply response) c = (response, c)
  batch_answer w idx req (proceed rec) c =
      apply_savepoint (savepoint_name idx) w.track_commits req rec c

  -- One turn of the loop over the batch.
  unfoldable pub batch_turn : Writer C → ℕ → WriteRequest → C → WriteResponse × C
  unfolding admit batch_answer
  batch_turn w idx req c =
      batch_answer w idx req (admit driver codec w.config w.idempotency req c) c

  unfoldable pub batch_turns :
      Writer C → ℕ → List (WriteRequest × Ticket) → C → List (Ticket × WriteResponse) × C
  unfolding batch_turn
  batch_turns w idx [] c = ([], c)
  batch_turns w idx ((req, ticket) ∷ batch) c =
      let (response, c') = batch_turn w idx req c in
      let (responses, c'') = batch_turns w (idx + 1) batch c' in
      ((ticket, response) ∷ responses, c'')

  -- The outer COMMIT: the responses that are sent, and the writer.
  unfoldable pub batch_settle :
      Writer C
      → List (Ticket × WriteResponse)
      → Result (Unit {0}) SqlError × C
      → List (Ticket × WriteResponse) × Writer C
  unfolding override
  batch_settle w responses (ok _, c) = (responses, note_latency driver w c)
  batch_settle w responses (err e, c) =
      (map (λ r. (r.0, override e.message r.1)) responses, record w { conn = c })

  unfoldable pub batch_begin :
      Writer C
      → List (WriteRequest × Ticket)
      → Result (Unit {0}) SqlError × C
      → List (Ticket × WriteResponse) × Writer C
  unfolding batch_turns batch_settle
  batch_begin w batch (ok _, c) =
      let (responses, c') = batch_turns w 0 batch c in batch_settle w responses (driver.commit c')
  batch_begin w batch (err e, c) =
      (map (λ r. (r.1, failed_response r.0.request_id e.message)) batch, record w { conn = c })

  unfoldable pub apply_batch :
      Writer C → List (WriteRequest × Ticket) → List (Ticket × WriteResponse) × Writer C
  unfolding batch_begin
  apply_batch w batch = batch_begin w batch (driver.begin_immediate w.conn)
