-- ===== src/Writer/Simulation.antt =====
-- The blocks of a transaction on the connection against the promise on the data (src/writer.rs:
-- `apply_inner`, `apply_savepoint`).
use squeuelite_rs.Common.{
  ◌≡◌, refl, sym, ◌∙◌, Bool, true, false, Option, none, some, List, [], ◌∷◌, Text, All, arith, inl,
  inr, Result-cases, map_err,
}
use squeuelite_rs.Common.Int.{ℤ}
use squeuelite_rs.Error.{display}
use squeuelite_rs.Request.{SqlOperation, WriteRequest}
use squeuelite_rs.Codec.{Codec}
use squeuelite_rs.Params.{SqlValue, params_from}
use squeuelite_rs.Driver.{Driver}
use squeuelite_rs.Driver.Laws.{Semantics, Laws}
use squeuelite_rs.Driver.Snapshots.{
  State, IsOpen, data_of, with_data, data_of-with_data, with_data_back, with_data_back_from,
  IsOpen-with_data,
}
use squeuelite_rs.Statements.{insert_commit, insert_request}
use squeuelite_rs.Writer.{
  execute, run_operations, record_commit, record_request, write_body, commit_row,
}
use squeuelite_rs.Writer.Tracks.{
  Tracks, TracksValue, Tracks-bind, Tracks-bind_value, TracksValue-bind, Tracks-drop, Tracks-return,
}
use squeuelite_rs.Spec.{statement, operations, numbered, remembered, transaction}

module _ {C D : Type 0} {driver : Driver C} {meaning : Semantics D} {IsPlain : Text → Type 0}
    (laws : Laws driver meaning IsPlain) (codec : Codec) where
  execute-Tracks :
      (sql : Text) (ps : List SqlValue) (s : State D) (c : C)
      → IsPlain sql
      → IsOpen s
      → laws.state c ≡ s
      → Tracks laws s (execute driver sql ps c) (statement meaning sql ps (data_of s))
  unfolding execute statement
  execute-Tracks sql ps s c plain open_s e = rw (← e) (
      ground (
        arith,
        laws.prepare_eq c sql,
        laws.execute_eq c sql ps plain,
        laws.execute_state c sql ps plain,
        with_data_back (laws.state c),
        with_data_back_from (laws.state c) (meaning.run sql ps (data_of (laws.state c))).1,
      ))

  run_operations-Tracks :
      (ops : List SqlOperation) (s : State D) (c : C)
      → All (λ op. IsPlain op.sql) ops
      → IsOpen s
      → laws.state c ≡ s
      → Tracks laws s (run_operations driver codec ops c) (operations meaning codec ops (data_of s))
  unfolding run_operations operations
  run_operations-Tracks [] s c plain open_s e = e ∙ sym (with_data_back s)
  run_operations-Tracks (op ∷ ops) s c plain open_s e =
      elim (Result-cases (map_err display (params_from codec op.params))) [
        | inl (ps, p) ↦ rw p (
            Tracks-bind laws s _ _ _ _ (execute-Tracks op.sql ps s c plain.0 open_s e) (λ a c' y e'.
              rw data_of-with_data at (
                run_operations-Tracks ops (with_data s y) c' plain.1 (IsOpen-with_data s y open_s)
                  e')))
        | inr (m, p) ↦ rw p (refl, rw e (with_data_back s))
      ]

  record_commit-Tracks :
      (track : Bool) (req : WriteRequest) (s : State D) (c : C)
      → IsOpen s
      → laws.state c ≡ s
      → TracksValue laws s
          (record_commit driver track req c)
          (numbered meaning track req (data_of s))
  unfolding record_commit numbered execute statement
  record_commit-Tracks false req s c open_s e = (refl, rw e (sym (with_data_back s)))
  record_commit-Tracks true req s c open_s e =
      let row = commit_row req in
      let y = (meaning.run insert_commit row (data_of (laws.state c))).1 in
      rw (← e) (elim (Result-cases (driver.execute insert_commit row c).0) [
        | inl (n, p) ↦ ground (
          arith,
          laws.prepare_eq c insert_commit,
          laws.execute_eq c insert_commit row laws.insert_commit_plain,
          laws.execute_state c insert_commit row laws.insert_commit_plain,
          laws.rowid_eq c row n,
          with_data_back (laws.state c),
        )
        | inr (m, p) ↦ ground (
          arith,
          laws.prepare_eq c insert_commit,
          laws.execute_eq c insert_commit row laws.insert_commit_plain,
          laws.execute_state c insert_commit row laws.insert_commit_plain,
          with_data_back (laws.state c),
          with_data_back_from (laws.state c) y,
        )
      ])

  record_request-Tracks :
      (rec : Option (Text × Text)) (id : Text) (seq : Option ℤ) (s : State D) (c : C)
      → IsOpen s
      → laws.state c ≡ s
      → Tracks laws s
          (record_request driver codec rec id seq c)
          (remembered meaning codec rec id seq (data_of s))
  unfolding record_request remembered
  record_request-Tracks none id seq s c open_s e = e ∙ sym (with_data_back s)
  record_request-Tracks (some (key, hash)) id seq s c open_s e =
      Tracks-drop laws s _ _
        (execute-Tracks insert_request _ s c laws.insert_request_plain open_s e)

  pub write_body-Tracks :
      (track : Bool) (req : WriteRequest) (rec : Option (Text × Text)) (s : State D) (c : C)
      → All (λ op. IsPlain op.sql) req.operations
      → IsOpen s
      → laws.state c ≡ s
      → TracksValue laws s
          (write_body driver codec track req rec c)
          (transaction meaning codec track req rec (data_of s))
  unfolding write_body transaction
  write_body-Tracks track req rec s c plain open_s e =
      Tracks-bind_value laws s _ _ _ _ (run_operations-Tracks req.operations s c plain open_s e)
        λ a c' y e'.
          TracksValue-bind laws (with_data s y) _ _ _ _
            (rw data_of-with_data at
              (record_commit-Tracks track req (with_data s y) c' (IsOpen-with_data s y open_s) e'))
            λ seq c'' z e''.
              let t = with_data (with_data s y) z in
              let open_t = IsOpen-with_data (with_data s y) z (IsOpen-with_data s y open_s) in
              Tracks-return laws t seq _ _ (
                rw data_of-with_data at
                  (record_request-Tracks rec req.request_id seq t c'' open_t e''))
