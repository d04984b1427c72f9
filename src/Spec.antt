-- ===== src/Spec.antt =====
-- What a write request promises, on the data alone: it is answered from the checks, or it runs as
-- one transaction that changes the data entirely or not at all.
pub mod Memory
pub mod Numbers
use squeuelite_rs.Common.{
  Bool, true, false, Option, none, some, List, [], ◌∷◌, Text, Result, ok, err, map_err, ◌>>=◌,
}
use squeuelite_rs.Common.Int.{ℤ}
use squeuelite_rs.Config.{GatewayConfig}
use squeuelite_rs.Error.{display}
use squeuelite_rs.Request.{
  SqlOperation, WriteRequest, WriteResponse, committed_response, failed_response,
}
use squeuelite_rs.Codec.{Codec}
use squeuelite_rs.Params.{SqlValue, text, params_from}
use squeuelite_rs.Statements.{select_request, insert_commit, insert_request}
use squeuelite_rs.Driver.Laws.{Semantics}
use squeuelite_rs.Writer.{
  Admission, reply, proceed, commit_row, request_row, or_empty, message_of, first_rejected, judge,
}

-- The settings that a promise depends on.
pub record Settings : Type 0 where
  pub config : GatewayConfig
  pub track : Bool
  pub idempotency : Bool

module _ {D : Type 0} (meaning : Semantics D) where
  -- A statement either gives the data after it or an error.
  unfoldable pub statement : Text → List SqlValue → D → Result D Text
  statement sql ps x = message_of (meaning.prepare sql x) >>= λ _.
      message_of (meaning.run sql ps x).0 >>= λ _. ok (meaning.run sql ps x).1

  -- The sequence number of the commit, and the data with its row.
  unfoldable pub numbered : Bool → WriteRequest → D → Result (Option ℤ × D) Text
  unfolding statement
  numbered false req x = ok (none, x)
  numbered true req x =
      statement insert_commit (commit_row req) x >>= λ y. ok (some (meaning.newest_commit y), y)

module _ {D : Type 0} where
  abbrev pub outcome : Text → D → Result (Option ℤ × D) Text → WriteResponse × D
  outcome id x (ok (seq, y)) = (committed_response id seq, y)
  outcome id x (err m) = (failed_response id m, x)

module _ {D : Type 0} (meaning : Semantics D) (codec : Codec) where
  unfoldable pub operations : List SqlOperation → D → Result D Text
  unfolding statement
  operations [] x = ok x
  operations (op ∷ ops) x = map_err display (params_from codec op.params) >>= λ ps.
      statement meaning op.sql ps x >>= λ y. operations ops y

  -- The record by which a repeated request is known.
  unfoldable pub remembered : Option (Text × Text) → Text → Option ℤ → D → Result D Text
  unfolding statement
  remembered none id seq x = ok x
  remembered (some (key, hash)) id seq x =
      statement meaning insert_request
        (request_row key hash (or_empty (codec.response_to_string (committed_response id seq))) seq)
        x

  -- The whole transaction.
  unfoldable pub transaction :
      Bool → WriteRequest → Option (Text × Text) → D → Result (Option ℤ × D) Text
  unfolding operations numbered remembered
  transaction track req rec x = operations req.operations x >>= λ y.
      numbered meaning track req y >>= λ (seq, z).
      remembered rec req.request_id seq z >>= λ u. ok (seq, u)

  -- The lookup of the key, if keys are in use and the request has one.
  unfoldable pub by_key : Bool → Option Text → WriteRequest → D → Admission
  unfolding judge
  by_key false key req x = proceed none
  by_key true none req x = proceed none
  by_key true (some key) req x = elim (codec.operations_to_string req.operations) [
    | err m ↦ reply (failed_response req.request_id m)
    | ok hash ↦ judge codec req.request_id key hash (meaning.query select_request (text key ∷ []) x)
  ]

  unfoldable pub admission : Settings → WriteRequest → D → Admission
  unfolding first_rejected by_key
  admission s req x = elim (first_rejected req.operations s.config) [
    | some m ↦ reply (failed_response req.request_id m)
    | none ↦ by_key s.idempotency req.idempotency_key req x
  ]

  unfoldable pub resolve : Settings → WriteRequest → D → Admission → WriteResponse × D
  unfolding transaction
  resolve s req x (reply response) = (response, x)
  resolve s req x (proceed rec) = outcome req.request_id x (transaction s.track req rec x)

  -- The promise: the response, and the data after it.
  unfoldable pub promised : Settings → WriteRequest → D → WriteResponse × D
  unfolding admission resolve
  promised s req x = resolve s req x (admission s req x)
