-- ===== src/Rpc/Execute.antt =====
-- The `execute` method: its parameters, the request and the reply (src/jsonrpc.rs,
-- `dispatch_execute`).
use squeuelite_rs.Common.{
  ℕ, ◌+◌, Option, none, some, List, [], ◌∷◌, ◌++◌, Text, codes, decimal, Result, ok, err, ◌>>=◌,
}
use squeuelite_rs.Common.Int.{ℤ}
use squeuelite_rs.Error.{Error, display, gateway_overloaded, gateway_closed}
use squeuelite_rs.Json.{Json, Fields, get, as_str, as_object, as_array, elements, field, end}
use squeuelite_rs.Request.{SqlOperation, WriteRequest, WriteResponse, committed, failed}
use squeuelite_rs.Stats.{Stats, fetch_add}
use squeuelite_rs.Rpc.{
  Serde, Handle, ok_json, err_json, err_json_data, invalid_params, write_failed, overloaded, closed,
}

abbrev pub required {ℓ} : {A : Type ℓ} → Option A → Text → Result A Text
required none message = err message
required (some a) message = ok a

-- `get(name).and_then(|v| v.as_str())`
unfoldable pub str_at : Text → Fields → Option Text
unfolding get as_str
str_at name fields = elim (get name fields) [ none ↦ none | some v ↦ as_str v ]

abbrev pub operation_message : ℕ → Text → Text
operation_message i what = codes "operations[" ++ (decimal i ++ (codes "]" ++ what))

-- The parameters of an operation: an array, or null or absent for none.
unfoldable pub operation_params : ℕ → Option Json → Result (List Json) Text
unfolding elements
operation_params i none = ok []
operation_params i (some Json.null) = ok []
operation_params i (some (Json.array vs)) = ok (elements vs)
operation_params i (some _) = err (operation_message i (codes ".params must be an array or absent"))

unfoldable pub parse_operation : ℕ → Json → Result SqlOperation Text
unfolding as_object str_at get operation_params
parse_operation i v = do
  fields ← required (as_object v) (operation_message i (codes " must be an object"))
  sql ← required (str_at (codes "sql") fields) (operation_message i (codes ".sql must be a string"))
  params ← operation_params i (get (codes "params") fields)
  ok (record { sql = sql; params = params })

unfoldable pub parse_operations : ℕ → List Json → Result (List SqlOperation) Text
unfolding parse_operation
parse_operations i [] = ok []
parse_operations i (v ∷ vs) = do
  op ← parse_operation i v
  ops ← parse_operations (i + 1) vs
  ok (op ∷ ops)

abbrev pub non_empty : Option (List Json) → Result (List Json) Text
non_empty none = err (codes "operations must be an array")
non_empty (some []) = err (codes "operations must be a non-empty array")
non_empty (some (v ∷ vs)) = ok (v ∷ vs)

-- The request but for its id, which is given last; built from the parts that were taken so far.
unfoldable pub from_values : Fields → Text → List Json → Result (Text → WriteRequest) Text
unfolding str_at parse_operations
from_values fields actor_id values = do
  ops ← parse_operations 0 values
  ok (λ request_id. record {
    request_id = request_id;
    actor_id = actor_id;
    run_id = str_at (codes "run_id") fields;
    idempotency_key = str_at (codes "idempotency_key") fields;
    operations = ops;
  })

unfoldable pub from_operations : Fields → Text → Json → Result (Text → WriteRequest) Text
unfolding as_array from_values
from_operations fields actor_id operations =
    non_empty (as_array operations) >>= from_values fields actor_id

unfoldable pub from_actor : Fields → Text → Result (Text → WriteRequest) Text
unfolding get from_operations
from_actor fields actor_id =
    required (get (codes "operations") fields) (codes "missing operations in params")
    >>= from_operations fields actor_id

unfoldable pub from_fields : Fields → Result (Text → WriteRequest) Text
unfolding str_at from_actor
from_fields fields =
    required (str_at (codes "actor_id") fields) (codes "missing or non-string actor_id in params")
    >>= from_actor fields

unfoldable pub execute_params : Json → Result (Text → WriteRequest) Text
unfolding as_object from_fields
execute_params params =
    required (as_object params) (codes "params must be an object with actor_id and operations")
    >>= from_fields

abbrev pub error_message : Option Text → Text
error_message none = codes "write failed"
error_message (some e) = e

abbrev pub error_data : Option Text → Json
error_data none = Json.null
error_data (some e) = Json.string e

module _ {W : Type 0} (serde : Serde) (handle : Handle W) where
  -- The id of the call where it is a string or a number, or else a new one.
  unfoldable pub request_id_of : Json → W → Text × W
  request_id_of (Json.string s) w = (s, w)
  request_id_of (Json.number n) w = (n.to_text, w)
  request_id_of id w = handle.now_v7 w

  abbrev pub seq_value : Option ℤ → Json
  seq_value none = Json.null
  seq_value (some n) = Json.number (serde.number_from n)

  abbrev pub committed_value : Option ℤ → Json
  committed_value seq = Json.object (
      field (codes "commit_seq") (seq_value seq)
        (field (codes "status") (Json.string (codes "committed")) end))

  -- The reply to what `execute` gave, and the counter that goes up.
  unfoldable pub execute_reply : Json → Stats → Result WriteResponse Error → Text × Stats
  execute_reply id stats (ok resp) = elim resp.status [
    | committed ↦ (
      ok_json serde id (committed_value resp.commit_seq),
      record stats { committed = fetch_add stats.committed },
    )
    | failed ↦ (
      err_json_data serde id write_failed (error_message resp.error) (error_data resp.error),
      record stats { failed = fetch_add stats.failed },
    )
  ]
  execute_reply id stats (err gateway_overloaded) = (
    err_json serde id overloaded (codes "gateway overloaded"),
    record stats { rejected = fetch_add stats.rejected },
  )
  execute_reply id stats (err gateway_closed) = (
    err_json serde id closed (codes "gateway closed"),
    record stats { rejected = fetch_add stats.rejected },
  )
  execute_reply id stats (err e) =
      (err_json serde id write_failed (display e), record stats { failed = fetch_add stats.failed })

  unfoldable pub dispatch_execute : Json → Json → Stats → W → Text × Stats × W
  unfolding execute_params request_id_of execute_reply
  dispatch_execute id params stats w = elim (execute_params params) [
    | err message ↦ (err_json serde id invalid_params message, stats, w)
    | ok request ↦
        let (request_id, w') = request_id_of id w in
        let (result, w'') = handle.execute (request request_id) w' in
        let (text, stats') =
          execute_reply id (record stats { accepted = fetch_add stats.accepted }) result in
        (text, stats', w'')
  ]
