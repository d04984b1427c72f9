-- ===== src/Writer/Batch/Turns.antt =====
-- One request of a batch, in its savepoint (src/writer.rs: `apply_savepoint`).
use squeuelite_rs.Common.{
  ℕ, ◌≡◌, refl, sym, ap, subst, ◌∙◌, ◌⊎◌, inl, inr, Bool, Option, Text, Result, ok, err,
}
use squeuelite_rs.Common.Int.{ℤ}
use squeuelite_rs.Error.{SqlError}
use squeuelite_rs.Request.{WriteRequest, WriteResponse, failed, committed_response, failed_response}
use squeuelite_rs.Codec.{Codec}
use squeuelite_rs.Driver.{Driver}
use squeuelite_rs.Driver.Snapshots.{in_tx, in_savepoint, data_of, frame_in_savepoint}
use squeuelite_rs.Driver.Laws.{Semantics, Laws}
use squeuelite_rs.Driver.Refusal.{Refusal}
use squeuelite_rs.Statements.{savepoint, release, savepoint_name}
use squeuelite_rs.Writer.{Writer, Admission, reply, proceed}
use squeuelite_rs.Writer.Tracks.{TracksValue}
use squeuelite_rs.Writer.Simulation.{write_body-Tracks}
use squeuelite_rs.Writer.Refinement.{settings_of, PlainRequest, admit-eq-admission}
use squeuelite_rs.Writer.Batch.{
  sp_fail, sp_release, sp_finish, sp_begin, apply_savepoint, batch_answer, batch_turn,
}
use squeuelite_rs.Spec.{outcome, transaction, admission, resolve, promised}

module _ {C D : Type 0} {driver : Driver C} {meaning : Semantics D} {IsPlain : Text → Type 0}
    (laws : Laws driver meaning IsPlain) (codec : Codec) where
  -- How a request ends in the outer transaction, which began at `o`: at its outcome `q`, or failed
  -- with the data as it was, since the driver refused.
  abbrev pub Turned : D → D → WriteResponse × D → WriteResponse × C → Type 0
  Turned o x q (resp, c) =
      ((laws.state c ≡ in_tx q.1 o) × (resp ≡ q.0))
      ⊎ ((laws.state c ≡ in_tx x o) × (resp.status ≡ failed) × Refusal laws)

  sp_release-Turned :
      (name id : Text) (seq : Option ℤ) (o x y : D) (r : Result (Unit {0}) SqlError × C)
      → (r.0 ≡ ok tt → laws.state r.1 ≡ in_tx y o)
      → ((e : SqlError) → r.0 ≡ err e → (laws.state r.1 ≡ in_savepoint name y o x) × Refusal laws)
      → Turned o x (committed_response id seq, y) (sp_release driver name id seq r)
  unfolding sp_release sp_fail
  sp_release-Turned name id seq o x y (ok _, c) good bad = inl (good refl, refl)
  sp_release-Turned name id seq o x y (err e, c) good bad =
      inr (laws.rollback_back c name y o x (bad e refl).0, refl, (bad e refl).1)

  sp_finish-Turned :
      (name id : Text) (o x : D) (r : Result (Option ℤ) Text × C) (q : Result (Option ℤ × D) Text)
      → TracksValue laws (in_savepoint name x o x) r q
      → Turned o x (outcome id x q) (sp_finish driver name id r)
  unfolding sp_finish sp_fail
  sp_finish-Turned name id o x (ok seq, c) (ok (b, y)) h = rw (← h.0) (
      sp_release-Turned name id seq o x y (driver.execute_batch (release name) c)
        (laws.release_ok c name y o x h.1)
        (λ e p. (laws.release_err c name y o x e h.1 p, Refusal.let_go c name y o x e h.1 p)))
  sp_finish-Turned name id o x (err m, c) (err n) h = inl (
    laws.rollback_back c name _ o x (frame_in_savepoint (laws.state c) name x o x h.1),
    ap (failed_response id) h.0,
  )
  sp_finish-Turned name id o x (ok seq, c) (err n) h = absurd h
  sp_finish-Turned name id o x (err m, c) (ok y) h = absurd h

  sp_begin-Turned :
      (name : Text) (track : Bool) (req : WriteRequest) (rec : Option (Text × Text)) (o x : D)
      (r : Result (Unit {0}) SqlError × C)
      → PlainRequest IsPlain req
      → (r.0 ≡ ok tt → laws.state r.1 ≡ in_savepoint name x o x)
      → ((e : SqlError) → r.0 ≡ err e → (laws.state r.1 ≡ in_tx x o) × Refusal laws)
      → Turned o x
          (outcome req.request_id x (transaction meaning codec track req rec x))
          (sp_begin driver codec name track req rec r)
  unfolding sp_begin
  sp_begin-Turned name track req rec o x (ok _, c) plain good bad =
      sp_finish-Turned name req.request_id o x _ _ (
        write_body-Tracks laws codec track req rec (in_savepoint name x o x) c plain tt (good refl))
  sp_begin-Turned name track req rec o x (err e, c) plain good bad =
      inr ((bad e refl).0, refl, (bad e refl).1)

  batch_answer-Turned :
      (w : Writer C) (idx : ℕ) (req : WriteRequest) (o x : D) (a : Admission) (c : C)
      → PlainRequest IsPlain req
      → laws.state c ≡ in_tx x o
      → Turned o x
          (resolve meaning codec (settings_of w) req x a)
          (batch_answer driver codec w idx req a c)
  unfolding batch_answer apply_savepoint resolve
  batch_answer-Turned w idx req o x (reply response) c plain e = inl (e, refl)
  batch_answer-Turned w idx req o x (proceed rec) c plain e =
      let name = savepoint_name idx in
      sp_begin-Turned name w.track_commits req rec o x (driver.execute_batch (savepoint name) c)
        plain (laws.savepoint_ok c name x o e)
        (λ m p. (laws.savepoint_err c name x o m e p, Refusal.save c name x o m e p))

  -- A request in a batch ends as promised, or it fails and leaves the batch's data as it was.
  pub batch_turn-Turned :
      (w : Writer C) (idx : ℕ) (req : WriteRequest) (o x : D) (c : C)
      → PlainRequest IsPlain req
      → laws.state c ≡ in_tx x o
      → Turned o x
          (promised meaning codec (settings_of w) req x)
          (batch_turn driver codec w idx req c)
  unfolding batch_turn promised
  batch_turn-Turned w idx req o x c plain e =
      let s = settings_of w in
      subst
        (λ a. Turned o x (promised meaning codec s req x) (batch_answer driver codec w idx req a c))
        (sym (
          admit-eq-admission laws codec w req c
          ∙ ap (λ t. admission meaning codec s req (data_of t)) e))
        (batch_answer-Turned w idx req o x (admission meaning codec s req x) c plain e)
