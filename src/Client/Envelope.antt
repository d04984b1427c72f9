-- ===== src/Client/Envelope.antt =====
-- A request through the client's envelope and the dispatcher's parser (src/client.rs,
-- src/jsonrpc.rs).
use squeuelite_rs.Common.{
  ℕ, ◌+◌, ◌≤◌, ◌≡◌, refl, ap, ◌∙◌, Option, none, some, List, [], ◌∷◌, map, Text, codes, ok, arith,
  length, ◌>>=◌, >>=-ok,
}
use squeuelite_rs.Json.{Json, Fields, elements, get, as_str, as_object, as_array}
use squeuelite_rs.Request.{SqlOperation, WriteRequest}
use squeuelite_rs.Rpc.Execute.{
  str_at, parse_operation, parse_operations, from_values, from_operations, from_actor, from_fields,
  execute_params, operation_params,
}
use mathlib.Core.Path.{ap₂}
use squeuelite_rs.Client.{array_of, option_value, operation_value, execute_fields, execute_value}

elements-array_of : (vs : List Json) → elements (array_of vs) ≡ vs
unfolding elements
elements-array_of [] = refl
elements-array_of (v ∷ vs) = ap (λ l. v ∷ l) (elements-array_of vs)

as_str-option_value : (o : Option Text) → as_str (option_value o) ≡ o
unfolding as_str
as_str-option_value none = refl
as_str-option_value (some s) = refl

parse_operation-operation_value :
    (i : ℕ) (op : SqlOperation) → parse_operation i (operation_value op) ≡ ok op
unfolding parse_operation str_at as_object as_str operation_params
parse_operation-operation_value i op = rw (elements-array_of op.params)

parse_operations-map :
    (i : ℕ) (ops : List SqlOperation) → parse_operations i (map operation_value ops) ≡ ok ops
unfolding parse_operations
parse_operations-map i [] = refl
parse_operations-map i (op ∷ ops) =
    >>=-ok (λ op'. parse_operations (i + 1) (map operation_value ops) >>= λ ops'. ok (op' ∷ ops'))
      (parse_operation-operation_value i op)
    ∙ >>=-ok (λ ops'. ok (op ∷ ops')) (parse_operations-map (i + 1) ops)

-- The request that the dispatcher builds, from the parts that the client sends.
abbrev pub request_from : Text → Option Text → Option Text → List SqlOperation → Text → WriteRequest
request_from actor_id run_id key ops request_id = record {
  request_id = request_id;
  actor_id = actor_id;
  run_id = run_id;
  idempotency_key = key;
  operations = ops;
}

from_values-map :
    (fields : Fields) (actor_id : Text) (ops : List SqlOperation)
    → from_values fields actor_id (map operation_value ops)
      ≡ ok (
          request_from actor_id
            (str_at (codes "run_id") fields)
            (str_at (codes "idempotency_key") fields)
            ops)
unfolding from_values
from_values-map fields actor_id ops =
    >>=-ok
      (λ ops'. ok (
        request_from actor_id (str_at (codes "run_id") fields)
          (str_at (codes "idempotency_key") fields) ops'))
      (parse_operations-map 0 ops)

from_operations-map :
    (fields : Fields) (actor_id : Text) (ops : List SqlOperation)
    → 1 ≤ length ops
    → from_operations fields actor_id (Json.array (array_of (map operation_value ops)))
      ≡ from_values fields actor_id (map operation_value ops)
unfolding from_operations as_array
from_operations-map fields actor_id [] some_operations = grind arith
from_operations-map fields actor_id (op ∷ ops) some_operations =
    rw (elements-array_of (map operation_value ops))

-- The dispatcher's reading of params, by the members that it looks for.
pub from_fields-request_from :
    (fields : Fields) (actor_id : Text) (ops : List SqlOperation)
    → str_at (codes "actor_id") fields ≡ some actor_id
    → get (codes "operations") fields ≡ some (Json.array (array_of (map operation_value ops)))
    → 1 ≤ length ops
    → from_fields fields
      ≡ ok (
          request_from actor_id
            (str_at (codes "run_id") fields)
            (str_at (codes "idempotency_key") fields)
            ops)
unfolding from_fields from_actor
from_fields-request_from fields actor_id ops actor operations some_operations =
    rw (actor, from_fields)
      (rw (operations, from_actor)
        (from_operations-map fields actor_id ops some_operations
          ∙ from_values-map fields actor_id ops))

-- What the client writes for a request with at least one operation, the dispatcher reads as that
-- request: actor, run, idempotency key, statements and parameters, under the id it is then given.
pub execute_params-execute_value :
    (req : WriteRequest)
    → 1 ≤ length req.operations
    → (request : Text → WriteRequest) × (execute_params (execute_value req) ≡ ok request)
      × (request req.request_id ≡ req)
unfolding execute_params execute_value from_fields from_actor str_at as_object
execute_params-execute_value req some_operations = (
  request_from req.actor_id (str_at (codes "run_id") (execute_fields req))
      (str_at (codes "idempotency_key") (execute_fields req)) req.operations,
  from_fields-request_from (execute_fields req) req.actor_id req.operations refl refl
      some_operations,
  ap₂ (λ run key. request_from req.actor_id run key req.operations req.request_id)
      (as_str-option_value req.run_id) (as_str-option_value req.idempotency_key),
)
