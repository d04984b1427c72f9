-- ===== src/Client/Wire.antt =====
-- What the client's calls and the dispatcher's replies are on the wire, and a socket whose other end
-- is the loop of one connection (src/client.rs, src/sidecar.rs, src/jsonrpc.rs).
use squeuelite_rs.Common.{
  ◌≡◌, true, Option, none, some, List, [], ◌∷◌, ◌++◌, Text, codes, Result, ok,
}
use squeuelite_rs.Common.Int.{ℤ}
use squeuelite_rs.Json.{Json, Fields, field, end}
use squeuelite_rs.Stats.{Stats}
use squeuelite_rs.Rpc.{Serde, Handle, JsonRpcSuccess, JsonRpcError, RpcErrorObject}
use squeuelite_rs.Sidecar.{line, trim_newlines, handle_connection}
use squeuelite_rs.Client.{Link, version, call_value, admin_value}

-- The JSON that each kind of reply is read back as.
abbrev pub success_value : JsonRpcSuccess → Json
success_value r = Json.object (
    field (codes "id") r.id (field (codes "jsonrpc") version (field (codes "result") r.result end)))

abbrev pub data_then : Option Json → Fields → Fields
data_then none fs = fs
data_then (some detail) fs = field (codes "data") detail fs

-- A reply of the dispatcher.
pub data Reply : Type 0 where
  success : JsonRpcSuccess → Reply
  failure : JsonRpcError → Reply

module _ (serde : Serde) where
  abbrev pub error_object : RpcErrorObject → Json
  error_object e = Json.object (
      field (codes "code") (Json.number (serde.number_from e.code))
        (data_then e.«data» (field (codes "message") (Json.string e.message) end)))

  abbrev pub error_value : JsonRpcError → Json
  error_value r = Json.object (
      field (codes "error") (error_object r.error)
        (field (codes "id") r.id (field (codes "jsonrpc") version end)))

  -- What is written is one line of text that is read as the value.
  pub record Printed (written : Result Text Text) (v : Json) : Type 0 where
    pub text : Text
    pub printed : written ≡ ok text
    pub read : serde.from_str text ≡ ok v
    pub one_line : trim_newlines (text ++ b'\n' ∷ []) ≡ text

  -- A value, by the text that `to_string` gives for it.
  abbrev pub Carried : Json → Type 0
  Carried v = Printed (serde.to_string v) v

  -- A reply, by the text that serde writes for its struct, and the value that it is read back as.
  abbrev pub reply_text : Reply → Result Text Text
  reply_text (Reply.success r) = serde.success_to_string r
  reply_text (Reply.failure r) = serde.error_to_string r

  abbrev pub reply_value : Reply → Json
  reply_value (Reply.success r) = success_value r
  reply_value (Reply.failure r) = error_value r

  abbrev pub Replied : Reply → Type 0
  Replied r = Printed (reply_text r) (reply_value r)

  -- How serde reads a call, by its derived code for `RawRequest`.
  pub record Derived : Type 0 where
    pub call :
        (id method : Text) (params : Json)
        → serde.raw_request (call_value id method params)
          ≡ ok (record {
            jsonrpc = some (codes "2.0");
            id = Json.string id;
            method = some method;
            params = params;
          })
    pub admin_call :
        (id method : Text)
        → serde.raw_request (admin_value id method)
          ≡ ok (record {
            jsonrpc = some (codes "2.0");
            id = Json.string id;
            method = some method;
            params = Json.null;
          })
    pub number : (n : ℤ) → (serde.number_from n).as_i64 ≡ some n

  -- The bytes that the client has yet to read, the counters, and the gateway.
  abbrev pub Session : Type 0 → Type 0
  Session W = Text × Stats × W

  -- A socket that hands each line to `handle_connection` as it is written.
  abbrev pub first_reply : List Text → Text
  first_reply [] = []
  first_reply (reply ∷ replies) = reply

  unfoldable pub loopback : {W : Type 0} → Handle W → Text → Link (Session W)
  unfolding handle_connection
  loopback handle db_path = record {
    write_all = λ sent session.
        let (replies, stats, w) =
          handle_connection serde handle db_path ((line sent, true) ∷ []) session.1 session.2 in
        (ok tt, (first_reply replies, stats, w));
    read_line = λ session. (ok session.0, ([], session.1, session.2));
    now_v7 = λ session.
        ((handle.now_v7 session.2).0, (session.0, session.1, (handle.now_v7 session.2).1));
  }
