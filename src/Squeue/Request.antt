-- ===== src/Squeue/Request.antt =====
-- A request of the standalone client through the dispatcher's parser, and a blob through the
-- conversion of parameters (clients/rust/squeue.rs, src/jsonrpc.rs, src/writer.rs).
use squeuelite_rs.Common.{
  ℕ, ◌≤◌, ◌≡◌, refl, ap, ◌∙◌, Option, none, some, List, [], ◌∷◌, map, Text, codes, ok, length,
}
use squeuelite_rs.Json.{Json, get, as_str, as_object}
use squeuelite_rs.Request.{SqlOperation, WriteRequest}
use squeuelite_rs.Codec.{Codec}
use squeuelite_rs.Params.{json_to_sqlite, decode_blob, blob_text}
use squeuelite_rs.Rpc.Execute.{str_at, execute_params}
use mathlib.Core.Path.{ap₂}
use squeuelite_rs.Client
use squeuelite_rs.Client.{array_of}
use squeuelite_rs.Client.Envelope.{request_from, from_fields-request_from}
use squeuelite_rs.Squeue.{blob, map_insert, text_before, operation_json, rpc_fields, rpc_params}

-- An operation as the client is given it.
abbrev pub sql_and_params : SqlOperation → Text × Json
sql_and_params op = (op.sql, Json.array (array_of op.params))

map-sql_and_params :
    (ops : List SqlOperation)
    → map operation_json (map sql_and_params ops) ≡ map Client.operation_value ops
map-sql_and_params [] = refl
map-sql_and_params (op ∷ ops) = ap (λ vs. Client.operation_value op ∷ vs) (map-sql_and_params ops)

-- The four members of the params.
rpc_fields-members :
    (actor_id : Text) (operations : Json) (key run_id : Option Text)
    → (str_at (codes "actor_id") (rpc_fields actor_id operations key run_id) ≡ some actor_id)
      × (get (codes "operations") (rpc_fields actor_id operations key run_id) ≡ some operations)
      × (str_at (codes "run_id") (rpc_fields actor_id operations key run_id) ≡ run_id)
      × (str_at (codes "idempotency_key") (rpc_fields actor_id operations key run_id) ≡ key)
unfolding rpc_fields map_insert text_before str_at as_str get
rpc_fields-members actor_id operations none none = (refl, refl, refl, refl)
rpc_fields-members actor_id operations none (some run) = (refl, refl, refl, refl)
rpc_fields-members actor_id operations (some key) none = (refl, refl, refl, refl)
rpc_fields-members actor_id operations (some key) (some run) = (refl, refl, refl, refl)

-- For a request with at least one operation, the dispatcher reads the client's params as that
-- request: actor, run, idempotency key, statements and parameters, under the id it is then given.
pub execute_params-rpc_params :
    (req : WriteRequest)
    → 1 ≤ length req.operations
    → (request : Text → WriteRequest) × (execute_params (
          rpc_params req.actor_id
            (map sql_and_params req.operations)
            req.idempotency_key
            req.run_id)
        ≡ ok request)
      × (request req.request_id ≡ req)
unfolding execute_params rpc_params as_object
execute_params-rpc_params req some_operations =
    let operations =
      Json.array (array_of (map operation_json (map sql_and_params req.operations))) in
    let fields = rpc_fields req.actor_id operations req.idempotency_key req.run_id in
    let (actor, values, run, key) =
      rpc_fields-members req.actor_id operations req.idempotency_key req.run_id in
    (
      request_from req.actor_id (str_at (codes "run_id") fields)
          (str_at (codes "idempotency_key") fields) req.operations,
      from_fields-request_from fields req.actor_id req.operations actor
          (values ∙ ap (λ vs. some (Json.array (array_of vs))) (map-sql_and_params req.operations))
          some_operations,
      ap₂ (λ r k. request_from req.actor_id r k req.operations req.request_id) run key,
    )

-- Bytes that a client wraps for a parameter are bound as a blob of those bytes, where base64 decodes
-- what it encoded.
pub json_to_sqlite-blob :
    (codec : Codec) (base64_encode : List ℕ → Text) (bytes : List ℕ)
    → codec.base64_decode (base64_encode bytes) ≡ ok bytes
    → json_to_sqlite codec (blob base64_encode bytes) ≡ ok (squeuelite_rs.Params.blob bytes)
unfolding json_to_sqlite decode_blob blob_text blob get as_str
json_to_sqlite-blob codec base64_encode bytes decoded = rw decoded refl
