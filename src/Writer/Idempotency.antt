-- ===== src/Writer/Idempotency.antt =====
-- Requests with an idempotency key that has a stored row (src/writer.rs: `apply`).
use squeuelite_rs.Common.{
  ◌≡◌, ap, ◌∙◌, ◌≢◌, inl, inr, true, Option, none, some, [], ◌∷◌, Text, Result, ok, err, Bool-cases,
  text_eq, text_eq_refl, text_eq_iff,
}
use squeuelite_rs.Error.{SqlError, display, idempotency_conflict}
use squeuelite_rs.Request.{WriteRequest, WriteResponse, failed_response}
use squeuelite_rs.Codec.{Codec}
use squeuelite_rs.Driver.{Driver}
use squeuelite_rs.Driver.Snapshots.{idle, data_of}
use squeuelite_rs.Driver.Laws.{Semantics, Laws}
use squeuelite_rs.Statements.{select_request}
use squeuelite_rs.Params.{text}
use squeuelite_rs.Writer.{
  Writer, reply, proceed, first_rejected, stored_response, judge, check_key, admit, apply,
}
use squeuelite_rs.Spec.Memory.{Row, stored}

module _ {C D : Type 0} {driver : Driver C} {meaning : Semantics D} {IsPlain : Text → Type 0}
    (laws : Laws driver meaning IsPlain) (codec : Codec) where
  looked_up :
      (c : C) (x : D) (key : Text) (r : Result Row SqlError)
      → laws.state c ≡ idle x
      → stored meaning key x ≡ r
      → driver.query_row select_request (text key ∷ []) c ≡ r
  looked_up c x key r at row =
      laws.query_eq c select_request (text key ∷ [])
      ∙ ap (λ t. stored meaning key (data_of t)) at
      ∙ row

  -- The checks on a request with a key come down to the row of the key.
  pub admit_keyed :
      (w : Writer C) (req : WriteRequest) (x : D) (key hash : Text) (r : Result Row SqlError)
      → w.idempotency ≡ true
      → first_rejected req.operations w.config ≡ none
      → req.idempotency_key ≡ some key
      → codec.operations_to_string req.operations ≡ ok hash
      → laws.state w.conn ≡ idle x
      → stored meaning key x ≡ r
      → admit driver codec w.config w.idempotency req w.conn ≡ judge codec req.request_id key hash r
  admit_keyed w req x key hash r on valid keyed hashed at row =
      unfold admit check_key in
      rw (valid, admit, on, keyed, check_key, hashed, looked_up w.conn x key r at row)

  judge_same :
      (id key hash json : Text) (resp : WriteResponse)
      → codec.response_from_str json ≡ ok resp
      → judge codec id key hash (ok (hash, some json)) ≡ reply resp
  judge_same id key hash json resp reads =
      unfold judge in rw (text_eq_refl hash, reads, stored_response)

  judge_other :
      (id key hash other : Text) (json : Option Text)
      → other ≢ hash
      → judge codec id key hash (ok (other, json))
        ≡ reply (failed_response id (display (idempotency_conflict key)))
  judge_other id key hash other json differs = elim (Bool-cases (text_eq other hash)) [
    | inl same ↦ absurd (differs ((text_eq_iff other hash).0 same))
    | inr apart ↦ unfold judge in rw apart
  ]

  pub judge_new :
      (id key hash : Text) (e : SqlError)
      → e.no_rows ≡ true
      → judge codec id key hash (err e) ≡ proceed (some (key, hash))
  judge_new id key hash e none_found = unfold judge in rw none_found

  -- With the idempotency table in use and a driver that keeps the laws, on an idle connection: a
  -- request that passes validation and whose key has a row with the hash of its operations and a
  -- readable response gets that response, and the writer is as before.
  pub apply_replay :
      (w : Writer C) (req : WriteRequest) (x : D) (key hash json : Text) (resp : WriteResponse)
      → w.idempotency ≡ true
      → first_rejected req.operations w.config ≡ none
      → req.idempotency_key ≡ some key
      → codec.operations_to_string req.operations ≡ ok hash
      → laws.state w.conn ≡ idle x
      → stored meaning key x ≡ ok (hash, some json)
      → codec.response_from_str json ≡ ok resp
      → apply driver codec w req ≡ (resp, w)
  apply_replay w req x key hash json resp on valid keyed hashed at row reads =
      let admitted =
        admit_keyed w req x key hash (ok (hash, some json)) on valid keyed hashed at row
        ∙ judge_same req.request_id key hash json resp reads in
      unfold apply in rw admitted

  -- With the idempotency table in use and a driver that keeps the laws, on an idle connection: a
  -- request that passes validation and whose key has a row with another hash is refused as a
  -- conflict that names the key, and the writer is as before.
  pub apply_conflict :
      (w : Writer C) (req : WriteRequest) (x : D) (key hash other : Text) (json : Option Text)
      → w.idempotency ≡ true
      → first_rejected req.operations w.config ≡ none
      → req.idempotency_key ≡ some key
      → codec.operations_to_string req.operations ≡ ok hash
      → laws.state w.conn ≡ idle x
      → stored meaning key x ≡ ok (other, json)
      → other ≢ hash
      → apply driver codec w req
        ≡ (failed_response req.request_id (display (idempotency_conflict key)), w)
  apply_conflict w req x key hash other json on valid keyed hashed at row differs =
      let admitted =
        admit_keyed w req x key hash (ok (other, json)) on valid keyed hashed at row
        ∙ judge_other req.request_id key hash other json differs in
      unfold apply in rw admitted
