-- ===== src/Rpc.antt =====
-- The JSON-RPC dispatcher, shared by the socket and the HTTP transport (src/jsonrpc.rs).
pub mod Execute
pub mod Dispatch
pub mod Counters
pub mod Parsed
pub mod Inflight
use squeuelite_rs.Common.{ℕ, Option, none, some, List, Text, codes, Result, ok, err, ◌++◌}
use squeuelite_rs.Common.Int.{ℤ, negsuc}
use squeuelite_rs.Error.{Error}
use squeuelite_rs.Json.{Json, Number}
use squeuelite_rs.Request.{WriteRequest, WriteResponse}
use squeuelite_rs.Stats.{StatsSnapshot}

-- ERR_PARSE_ERROR and the other codes.
abbrev pub parse_error : ℤ
parse_error = negsuc 32699

abbrev pub invalid_request : ℤ
invalid_request = negsuc 32599

abbrev pub method_not_found : ℤ
method_not_found = negsuc 32600

abbrev pub invalid_params : ℤ
invalid_params = negsuc 32601

abbrev pub internal_error : ℤ
internal_error = negsuc 32602

abbrev pub write_failed : ℤ
write_failed = negsuc 31999

abbrev pub overloaded : ℤ
overloaded = negsuc 32000

abbrev pub closed : ℤ
closed = negsuc 32001

-- The member `jsonrpc` of the two kinds of reply is always "2.0".
pub record RawRequest : Type 0 where
  pub jsonrpc : Option Text
  pub id : Json
  pub method : Option Text
  pub params : Json

pub record JsonRpcSuccess : Type 0 where
  pub id : Json
  pub result : Json

pub record RpcErrorObject : Type 0 where
  pub code : ℤ
  pub message : Text
  pub «data» : Option Json

pub record JsonRpcError : Type 0 where
  pub id : Json
  pub error : RpcErrorObject

-- serde_json, with the readers and writers that serde derives.
pub record Serde : Type 0 where
  pub from_str : Text → Result Json Text
  pub to_string : Json → Result Text Text
  pub raw_request : Json → Result RawRequest Text
  pub success_to_string : JsonRpcSuccess → Result Text Text
  pub error_to_string : JsonRpcError → Result Text Text
  pub snapshot_to_value : StatsSnapshot → Result Json Text
  pub snapshot_from_value : Json → Result StatsSnapshot Text
  -- `Value::to_string`, which cannot fail
  pub print : Json → Text
  -- the number of an i64
  pub number_from : ℤ → Number

-- What the dispatcher calls on the gateway's handle and on the system. `W` is the state of both,
-- and a call that may change it gives the state that it leaves behind.
pub record Handle (W : Type 0) : Type 0 where
  pub execute : WriteRequest → W → Result WriteResponse Error × W
  pub checkpoint : W → Result (Unit {0}) Error × W
  pub queue_depth : W → ℕ
  pub queue_capacity : W → ℕ
  pub latency_snapshot : W → ℕ × ℕ
  pub file_size : Text → W → Option ℕ
  -- `Uuid::now_v7`, printed
  pub now_v7 : W → Text × W

module _ (serde : Serde) where
  -- What is sent when a reply has no JSON.
  abbrev pub unserialised : Text → Text
  unserialised e =
      codes
        "{\"jsonrpc\":\"2.0\",\"id\":null,\"error\":{\"code\":-32603,\"message\":\"internal serialize error: "
      ++ (e ++ codes "\"}}")

  abbrev pub or_unserialised : Result Text Text → Text
  or_unserialised (ok s) = s
  or_unserialised (err e) = unserialised e

  abbrev pub ok_json : Json → Json → Text
  ok_json id result =
      or_unserialised (serde.success_to_string (record { id = id; result = result }))

  abbrev pub err_json_with : Json → ℤ → Text → Option Json → Text
  err_json_with id code message detail = or_unserialised (
      serde.error_to_string
        (record { id = id; error = record { code = code; message = message; «data» = detail } }))

  abbrev pub err_json : Json → ℤ → Text → Text
  err_json id code message = err_json_with id code message none

  abbrev pub err_json_data : Json → ℤ → Text → Json → Text
  err_json_data id code message detail = err_json_with id code message (some detail)
