-- ===== src/Writer.antt =====
-- The writer actor and its single-request path (src/writer.rs: `Writer`, `apply`, `apply_inner`).
pub mod Batch
pub mod Loop
pub mod Tracks
pub mod Simulation
pub mod Refinement
pub mod Kept
pub mod Idempotency
pub mod Once
pub mod Atomic
use squeuelite_rs.Common.{
  ℕ, ◌%◌, ◌^◌, Bool, true, false, Option, none, some, List, [], ◌∷◌, ◌++◌, Text, codes, text_eq,
  Result, ok, err, map_err, if◌then◌else◌,
}
use squeuelite_rs.Common.Int.{ℤ}
use squeuelite_rs.Config.{GatewayConfig}
use squeuelite_rs.Error.{SqlError, Error, display, idempotency_conflict}
use squeuelite_rs.Request.{
  SqlOperation, WriteRequest, WriteResponse, committed_response, failed_response,
}
use squeuelite_rs.Validate.{validate_sql}
use squeuelite_rs.Codec.{Codec}
use squeuelite_rs.Params.{SqlValue, null, integer, text, params_from}
use squeuelite_rs.Driver.{Driver}
use squeuelite_rs.Statements.{select_request, insert_commit, insert_request}
use squeuelite_rs.Latency.{push_latency}
use squeuelite_rs.Effect.{Tx, pure, lift, gets, gets_result, ◌>>=◌, ◌>>◌}

-- The receiving end of the channel is the argument of the loop.
pub record Writer (C : Type 0) : Type 0 where
  pub conn : C
  pub track_commits : Bool
  pub idempotency : Bool
  pub config : GatewayConfig
  pub latency_buf : List ℕ

abbrev pub nullable_text : Option Text → SqlValue
nullable_text none = null
nullable_text (some s) = text s

abbrev pub nullable_integer : Option ℤ → SqlValue
nullable_integer none = null
nullable_integer (some n) = integer n

-- The parameters of the two internal inserts.
abbrev pub commit_row : WriteRequest → List SqlValue
commit_row req = text req.request_id ∷ text req.actor_id ∷ nullable_text req.run_id ∷ []

abbrev pub request_row : Text → Text → Text → Option ℤ → List SqlValue
request_row key hash response seq = text key ∷ text hash ∷ text response ∷ nullable_integer seq ∷ []

abbrev pub or_empty : Result Text Text → Text
or_empty (ok s) = s
or_empty (err _) = []

abbrev pub message_of {ℓ} : {A : Type ℓ} → Result A SqlError → Result A Text
message_of (ok a) = ok a
message_of (err e) = err e.message

-- `for op in &request.operations { validate_sql(&op.sql, &self.config) }`: the first refusal.
unfoldable pub first_rejected : List SqlOperation → GatewayConfig → Option Text
first_rejected [] config = none
first_rejected (op ∷ ops) config = elim (validate_sql op.sql config) [
  | err e ↦ some (display e)
  | ok _ ↦ first_rejected ops config
]

-- What the checks before the transaction decide: an answer at once, or a run with the
-- idempotency record to write.
pub data Admission : Type 0 where
  reply : WriteResponse → Admission
  proceed : Option (Text × Text) → Admission

module _ (codec : Codec) where
  -- The stored response, or a bare committed one where it is missing or unreadable.
  unfoldable pub stored_response : Text → Option Text → WriteResponse
  stored_response id none = committed_response id none
  stored_response id (some json) = elim (codec.response_from_str json) [
    | ok response ↦ response
    | err _ ↦ committed_response id none
  ]

  -- The answer to the lookup of a key.
  unfoldable pub judge : Text → Text → Text → Result (Text × Option Text) SqlError → Admission
  unfolding stored_response text_eq
  judge id key hash (ok (stored, response)) =
      if text_eq stored hash
      then reply (stored_response id response)
      else reply (failed_response id (display (idempotency_conflict key)))
  judge id key hash (err e) =
      if e.no_rows then proceed (some (key, hash)) else reply (failed_response id e.message)

module _ {C : Type 0} (driver : Driver C) where
  -- `stmt.execute(params)` after `tx.prepare_cached(sql)`
  unfoldable pub execute : Text → List SqlValue → Tx C ℕ
  execute sql params = do
    gets_result (λ c. message_of (driver.prepare_cached sql c))
    λ c. (message_of (driver.execute sql params c).0, (driver.execute sql params c).1)

  unfoldable pub record_commit : Bool → WriteRequest → Tx C (Option ℤ)
  unfolding execute
  record_commit false req = pure none
  record_commit true req = do
    execute insert_commit (commit_row req)
    gets (λ c. some (driver.last_insert_rowid c))

  -- `as u64` of the elapsed time, on the connection that the commit left.
  abbrev pub note_latency : Writer C → C → Writer C
  note_latency w c = record w {
    conn = c;
    latency_buf = push_latency w.latency_buf (driver.elapsed_micros c % 2 ^ 64);
  }

  -- The COMMIT, and the response to its outcome.
  unfoldable pub settle :
      Writer C → Text → Option ℤ → Result (Unit {0}) SqlError × C → WriteResponse × Writer C
  settle w id seq (ok _, c) = (committed_response id seq, note_latency w c)
  settle w id seq (err e, c) = (failed_response id e.message, record w { conn = c })

  unfoldable pub finish : Writer C → Text → Result (Option ℤ) Text × C → WriteResponse × Writer C
  unfolding settle
  finish w id (ok seq, c) = settle w id seq (driver.commit c)
  finish w id (err m, c) = (failed_response id m, record w { conn = driver.drop_tx c })

module _ {C : Type 0} (driver : Driver C) (codec : Codec) where
  -- The idempotency check.
  unfoldable pub check_key : Bool → WriteRequest → C → Admission
  unfolding judge
  check_key false req c = proceed none
  check_key true req c = elim req.idempotency_key [
    | none ↦ proceed none
    | some key ↦ elim (codec.operations_to_string req.operations) [
      | err m ↦ reply (failed_response req.request_id m)
      | ok hash ↦
          judge codec req.request_id key hash (driver.query_row select_request (text key ∷ []) c)
    ]
  ]

  -- Both checks, in the order of the code.
  unfoldable pub admit : GatewayConfig → Bool → WriteRequest → C → Admission
  unfolding first_rejected check_key
  admit config idempotency req c = elim (first_rejected req.operations config) [
    | some m ↦ reply (failed_response req.request_id m)
    | none ↦ check_key idempotency req c
  ]

  unfoldable pub run_operations : List SqlOperation → Tx C (Unit {0})
  unfolding execute
  run_operations [] = pure tt
  run_operations (op ∷ ops) = do
    params ← lift (map_err display (params_from codec op.params))
    execute driver op.sql params
    run_operations ops

  unfoldable pub record_request : Option (Text × Text) → Text → Option ℤ → Tx C (Unit {0})
  unfolding execute
  record_request none id seq = pure tt
  record_request (some (key, hash)) id seq = do
    execute driver insert_request
        (request_row key hash (or_empty (codec.response_to_string (committed_response id seq))) seq)
    pure tt

  -- All that a request does between the start of its transaction and its end.
  unfoldable pub write_body : Bool → WriteRequest → Option (Text × Text) → Tx C (Option ℤ)
  unfolding run_operations record_commit record_request
  write_body track req rec = do
    run_operations req.operations
    seq ← record_commit driver track req
    record_request rec req.request_id seq
    pure seq

  unfoldable pub begin_with :
      Writer C
      → WriteRequest
      → Option (Text × Text)
      → Result (Unit {0}) SqlError × C
      → WriteResponse × Writer C
  unfolding finish write_body
  begin_with w req rec (ok _, c) =
      finish driver w req.request_id (write_body w.track_commits req rec c)
  begin_with w req rec (err e, c) =
      (failed_response req.request_id e.message, record w { conn = c })

  unfoldable pub apply_inner :
      Writer C → WriteRequest → Option (Text × Text) → WriteResponse × Writer C
  unfolding begin_with
  apply_inner w req rec = begin_with w req rec (driver.begin_immediate w.conn)

  unfoldable pub answer : Writer C → WriteRequest → Admission → WriteResponse × Writer C
  unfolding apply_inner
  answer w req (reply response) = (response, w)
  answer w req (proceed rec) = apply_inner w req rec

  unfoldable pub apply : Writer C → WriteRequest → WriteResponse × Writer C
  unfolding admit answer
  apply w req = answer w req (admit w.config w.idempotency req w.conn)
