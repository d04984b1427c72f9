-- ===== src/Client.antt =====
-- The client of the socket: calls as JSON lines, and what it makes of the replies (src/client.rs).
pub mod Connect
pub mod Wire
pub mod Envelope
pub mod Replies
pub mod Session
pub mod Admin
use squeuelite_rs.Common.{
  ℕ, Bool, true, false, Option, none, some, List, [], ◌∷◌, ◌++◌, map, Text, codes, text_eq, Result,
  ok, err, map_err, if◌then◌else◌,
}
use squeuelite_rs.Common.Int.{ℤ}
use squeuelite_rs.Error.{Error, json, io, protocol, gateway_closed}
use squeuelite_rs.Json.{Json, Items, nil, cons, Fields, field, end, get, as_str, as_object}
use squeuelite_rs.Request.{
  SqlOperation, WriteRequest, WriteStatus, committed, failed, WriteResponse,
}
use squeuelite_rs.Stats.{StatsSnapshot}
use squeuelite_rs.Effect.{Eff, lift, call, ◌>>=◌, ◌>>◌}
use squeuelite_rs.Rpc.{Serde}
use squeuelite_rs.Sidecar.{trim_newlines}

-- The two halves of the stream, and the source of ids. An error is an I/O error by its message.
pub record Link (W : Type 0) : Type 0 where
  pub write_all : Text → W → Result (Unit {0}) Text × W
  -- a line with its newline; empty at the end of the stream
  pub read_line : W → Result Text Text × W
  -- `Uuid::now_v7`, printed
  pub now_v7 : W → Text × W

-- `Value::get`: a member of an object.
unfoldable pub value_get : Text → Json → Option Json
unfolding get
value_get key (Json.object fields) = get key fields
value_get key v = none

-- `Value::as_i64`
abbrev pub as_i64 : Json → Option ℤ
as_i64 (Json.number n) = n.as_i64
as_i64 v = none

abbrev pub and_then {ℓ κ} : {A : Type ℓ} {B : Type κ} → Option A → (A → Option B) → Option B
and_then none f = none
and_then (some a) f = f a

abbrev pub or_else : Option Text → Option Text → Option Text
or_else none other = other
or_else (some s) other = some s

abbrev pub array_of : List Json → Items
array_of [] = nil
array_of (v ∷ vs) = cons v (array_of vs)

abbrev pub option_value : Option Text → Json
option_value none = Json.null
option_value (some s) = Json.string s

abbrev pub operation_value : SqlOperation → Json
operation_value op = Json.object (
    field (codes "params") (Json.array (array_of op.params))
      (field (codes "sql") (Json.string op.sql) end))

-- The params of `execute`.
abbrev pub execute_fields : WriteRequest → Fields
execute_fields req = field (codes "actor_id") (Json.string req.actor_id) (
    field (codes "idempotency_key") (option_value req.idempotency_key) (
      field (codes "operations") (Json.array (array_of (map operation_value req.operations)))
        (field (codes "run_id") (option_value req.run_id) end)))

unfoldable pub execute_value : WriteRequest → Json
execute_value req = Json.object (execute_fields req)

abbrev pub version : Json
version = Json.string (codes "2.0")

-- A call with params, and one without.
abbrev pub call_value : Text → Text → Json → Json
call_value id method params = Json.object (
    field (codes "id") (Json.string id) (
      field (codes "jsonrpc") version
        (field (codes "method") (Json.string method) (field (codes "params") params end))))

abbrev pub admin_value : Text → Text → Json
admin_value id method = Json.object (
    field (codes "id") (Json.string id)
      (field (codes "jsonrpc") version (field (codes "method") (Json.string method) end)))

abbrev pub status_from : Option Text → WriteStatus
status_from none = failed
status_from (some s) = if text_eq s (codes "committed") then committed else failed

-- The response to a call that has a result.
unfoldable pub result_response : Text → Json → WriteResponse
unfolding text_eq value_get as_str
result_response id result = record {
  request_id = id;
  status = status_from (and_then (value_get (codes "status") result) as_str);
  commit_seq = and_then (value_get (codes "commit_seq") result) as_i64;
  error = none;
}

-- The response to a call that has an error.
unfoldable pub error_response : Text → Json → WriteResponse
unfolding value_get as_str
error_response id e = record {
  request_id = id;
  status = failed;
  commit_seq = none;
  error =
      or_else (and_then (value_get (codes "message") e) as_str)
        (and_then (value_get (codes "data") e) as_str);
}

abbrev pub write_or_else : Text → Option Json → Error → Result WriteResponse Error
write_or_else id none other = err other
write_or_else id (some e) other = ok (error_response id e)

-- The two members of a reply, `result` before `error`.
unfoldable pub write_reply : Text → Text → Json → Result WriteResponse Error
unfolding value_get result_response error_response
write_reply id reply v = elim (value_get (codes "result") v) [
  | some result ↦ ok (result_response id result)
  | none ↦
      write_or_else id (value_get (codes "error") v)
        (protocol (codes "unexpected JSON-RPC response: " ++ reply))
]

abbrev pub closed_if_empty : Text → Result Text Error
closed_if_empty [] = err gateway_closed
closed_if_empty (c ∷ s) = ok (trim_newlines (c ∷ s))

module _ {W : Type 0} (serde : Serde) (link : Link W) where
  unfoldable pub send_line : Text → Eff W Error Text
  send_line line = do
    λ w. (
      map_err io (link.write_all (line ++ b'\n' ∷ []) w).0,
      (link.write_all (line ++ b'\n' ∷ []) w).1,
    )
    reply ← λ w. (map_err io (link.read_line w).0, (link.read_line w).1)
    lift (closed_if_empty reply)

  -- A value sent as a line, and the reply with the value in it.
  unfoldable pub exchange : Json → Eff W Error (Text × Json)
  unfolding send_line
  exchange v = do
    line ← lift (map_err json (serde.to_string v))
    reply ← send_line line
    value ← lift (map_err json (serde.from_str reply))
    lift (ok (reply, value))

  unfoldable pub send_request : WriteRequest → Eff W Error WriteResponse
  unfolding exchange execute_value write_reply
  send_request req = do
    reply ← exchange (call_value req.request_id (codes "execute") (execute_value req))
    lift (write_reply req.request_id reply.0 reply.1)

  -- `Client::transaction`, by the client's actor.
  unfoldable pub transaction : Text → List SqlOperation → Eff W Error WriteResponse
  unfolding send_request
  transaction actor_id ops = do
    id ← call link.now_v7
    send_request (record {
      request_id = id;
      actor_id = actor_id;
      run_id = none;
      idempotency_key = none;
      operations = ops;
    })

  -- `Client::execute`
  unfoldable pub execute : Text → SqlOperation → Eff W Error WriteResponse
  unfolding transaction
  execute actor_id op = transaction actor_id (op ∷ [])

  abbrev pub protocol_or : {A : Type 0} → Option Json → Result A Error → Result A Error
  protocol_or none other = other
  protocol_or (some e) other = err (protocol (serde.print e))

  unfoldable pub stats_reply : Text → Json → Result StatsSnapshot Error
  unfolding value_get
  stats_reply reply v = elim (value_get (codes "result") v) [
    | some result ↦ map_err json (serde.snapshot_from_value result)
    | none ↦
        protocol_or (value_get (codes "error") v)
          (err (protocol (codes "unexpected stats response: " ++ reply)))
  ]

  -- `Client::stats`
  unfoldable pub stats : Eff W Error StatsSnapshot
  unfolding exchange stats_reply
  stats = do
    id ← call link.now_v7
    reply ← exchange (admin_value id (codes "stats"))
    lift (stats_reply reply.0 reply.1)

  -- What `health` and `checkpoint` make of a reply: any but an error is taken.
  unfoldable pub acknowledged : Json → Result (Unit {0}) Error
  unfolding value_get
  acknowledged v = elim (value_get (codes "result") v) [
    | some result ↦ ok tt
    | none ↦ protocol_or (value_get (codes "error") v) (ok tt)
  ]

  unfoldable pub admin : Text → Eff W Error (Unit {0})
  unfolding exchange acknowledged
  admin method = do
    id ← call link.now_v7
    reply ← exchange (admin_value id method)
    lift (acknowledged reply.1)

  -- `Client::health` and `Client::checkpoint`
  abbrev pub health : Eff W Error (Unit {0})
  health = admin (codes "health")

  abbrev pub request_checkpoint : Eff W Error (Unit {0})
  request_checkpoint = admin (codes "checkpoint")
