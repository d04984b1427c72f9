-- ===== src/Client/Session.antt =====
-- A client's request from end to end: the client, the socket's loop, the dispatcher and the gateway's
-- handle (src/client.rs, src/sidecar.rs, src/jsonrpc.rs).
use squeuelite_rs.Common.{
  ◌≤◌, ◌≡◌, refl, ap, ◌∙◌, true, false, [], ◌∷◌, ◌++◌, Text, codes, Result, ok, err, arith, length,
  ltb, inl, inr,
}
use squeuelite_rs.Error.{
  Error, gateway_overloaded, gateway_closed, sqlite, json, migration, sql_rejected,
  idempotency_conflict, invalid_param, io, protocol,
}
use squeuelite_rs.Json.{Json}
use squeuelite_rs.Request.{WriteRequest, WriteResponse, WriteStatus, committed, failed}
use squeuelite_rs.Stats.{Stats, fetch_add}
use squeuelite_rs.Rpc.{Serde, Handle, RawRequest, or_unserialised}
use squeuelite_rs.Rpc.Execute.{execute_params, execute_reply, dispatch_execute, request_id_of}
use squeuelite_rs.Rpc.Dispatch.{
  dispatch, dispatch_value, dispatch_request, dispatch_method, is_array,
}
use squeuelite_rs.Rpc.Counters.{WriteStatus-cases}
use squeuelite_rs.Sidecar.{line, trim_newlines, utf8_length, max_line_bytes, handle_connection}
use squeuelite_rs.Client.{
  call_value, execute_value, send_request, exchange, send_line, closed_if_empty,
}
use squeuelite_rs.Client.Wire.{
  Printed, Carried, Replied, Derived, loopback, reply_text, reply_value,
}
use squeuelite_rs.Client.Envelope.{execute_params-execute_value}
use squeuelite_rs.Client.Replies.{received, reply_to, execute_reply-reply_to, write_reply-reply_to}

abbrev pub counted_response : WriteStatus → Stats → Stats
counted_response committed stats = record stats { committed = fetch_add stats.committed }
counted_response failed stats = record stats { failed = fetch_add stats.failed }

-- The counter of an outcome.
abbrev pub counted : Result WriteResponse Error → Stats → Stats
counted (ok resp) stats = counted_response resp.status stats
counted (err gateway_overloaded) stats = record stats { rejected = fetch_add stats.rejected }
counted (err gateway_closed) stats = record stats { rejected = fetch_add stats.rejected }
counted (err e) stats = record stats { failed = fetch_add stats.failed }

abbrev pub accepted : Stats → Stats
accepted stats = record stats { accepted = fetch_add stats.accepted }

module _ {W : Type 0} (serde : Serde) (derived : Derived serde) (handle : Handle W)
    (db_path : Text) where
  dispatch_execute-ok :
      (id params : Json) (request : Text → WriteRequest) (stats : Stats) (w : W)
      → execute_params params ≡ ok request
      → let (request_id, w') = request_id_of serde handle id w in
        let (result, w'') = handle.execute (request request_id) w' in
        dispatch_execute serde handle id params stats w ≡ (
          (execute_reply serde handle id (accepted stats) result).0,
          (execute_reply serde handle id (accepted stats) result).1,
          w'',
        )
  unfolding dispatch_execute
  dispatch_execute-ok id params request stats w read = rw (read, dispatch_execute) refl

  pub dispatch-read :
      (text : Text) (v : Json) (call : RawRequest) (stats : Stats) (w : W)
      → serde.from_str text ≡ ok v
      → is_array v ≡ false
      → serde.raw_request v ≡ ok call
      → dispatch serde handle db_path text stats w
        ≡ dispatch_request serde handle db_path call stats w
  unfolding dispatch dispatch_value
  dispatch-read text v call stats w read no_array raw =
      rw (read, dispatch) (rw (no_array, raw, dispatch_value) refl)

  -- What a client's request does at the dispatcher.
  dispatch-call :
      (req : WriteRequest) (stats : Stats) (w : W)
      → 1 ≤ length req.operations
      → (call : Carried serde (call_value req.request_id (codes "execute") (execute_value req)))
      → let (result, w') = handle.execute req w in
        dispatch serde handle db_path call.text stats w ≡ (
          (execute_reply serde handle (Json.string req.request_id) (accepted stats) result).0,
          (execute_reply serde handle (Json.string req.request_id) (accepted stats) result).1,
          w',
        )
  unfolding dispatch_request dispatch_method request_id_of
  dispatch-call req stats w some_operations call =
      let (request, taken, same) = execute_params-execute_value req some_operations in
      let id = Json.string req.request_id in
      dispatch-read call.text (call_value req.request_id (codes "execute") (execute_value req)) _
        stats w call.read refl (derived.call req.request_id (codes "execute") (execute_value req))
      ∙ dispatch_execute-ok id (execute_value req) request stats w taken
      ∙ ap
          (λ r. (
            (execute_reply serde handle id (accepted stats) (handle.execute r w).0).0,
            (execute_reply serde handle id (accepted stats) (handle.execute r w).0).1,
            (handle.execute r w).1,
          ))
          same

  execute_reply-counted :
      (id : Json) (stats : Stats) (result : Result WriteResponse Error)
      → (execute_reply serde handle id stats result).1 ≡ counted result stats
  unfolding execute_reply
  execute_reply-counted id stats (ok resp) = elim (WriteStatus-cases resp.status) [
    | inl e ↦ rw (e, execute_reply) refl
    | inr e ↦ rw (e, execute_reply) refl
  ]
  execute_reply-counted id stats (err gateway_overloaded) = refl
  execute_reply-counted id stats (err gateway_closed) = refl
  execute_reply-counted id stats (err (sqlite e)) = refl
  execute_reply-counted id stats (err (json e)) = refl
  execute_reply-counted id stats (err (migration e)) = refl
  execute_reply-counted id stats (err (sql_rejected e)) = refl
  execute_reply-counted id stats (err (idempotency_conflict e)) = refl
  execute_reply-counted id stats (err (invalid_param e)) = refl
  execute_reply-counted id stats (err (io e)) = refl
  execute_reply-counted id stats (err (protocol e)) = refl

  -- One line that is not too long, by the loop of the connection.
  handle_connection-line :
      (text reply : Text) (stats stats' : Stats) (w w' : W)
      → utf8_length (text ++ b'\n' ∷ []) ≤ max_line_bytes
      → trim_newlines (text ++ b'\n' ∷ []) ≡ text
      → dispatch serde handle db_path text stats w ≡ (reply, stats', w')
      → handle_connection serde handle db_path ((line (text ++ b'\n' ∷ []), true) ∷ []) stats w
        ≡ ((reply ++ b'\n' ∷ []) ∷ [], stats', w')
  unfolding handle_connection
  handle_connection-line text reply stats stats' w w' short one_line dispatched =
      let fits : ltb max_line_bytes (utf8_length (text ++ b'\n' ∷ [])) ≡ false = ground arith in
      rw (fits, one_line, dispatched) refl

  closed_if_empty-line :
      (text : Text)
      → trim_newlines (text ++ b'\n' ∷ []) ≡ text
      → closed_if_empty (text ++ b'\n' ∷ []) ≡ ok text
  closed_if_empty-line [] one_line = ap ok one_line
  closed_if_empty-line (c ∷ s) one_line = ap ok one_line

  send_line-line :
      (text reply : Text) (stats stats' : Stats) (w w' : W) (buf : Text)
      → utf8_length (text ++ b'\n' ∷ []) ≤ max_line_bytes
      → trim_newlines (text ++ b'\n' ∷ []) ≡ text
      → trim_newlines (reply ++ b'\n' ∷ []) ≡ reply
      → dispatch serde handle db_path text stats w ≡ (reply, stats', w')
      → send_line serde (loopback serde handle db_path) text (buf, stats, w)
        ≡ (ok reply, ([], stats', w'))
  unfolding send_line loopback
  send_line-line text reply stats stats' w w' buf short one_line reply_line dispatched =
      rw (handle_connection-line text reply stats stats' w w' short one_line dispatched)
        (ap (λ r. (r, ([], stats', w'))) (closed_if_empty-line reply reply_line))

  pub exchange-Carried :
      (v answer : Json) (written : Result Text Text) (call : Carried serde v)
      (reply : Printed serde written answer) (stats stats' : Stats) (w w' : W) (buf : Text)
      → utf8_length (call.text ++ b'\n' ∷ []) ≤ max_line_bytes
      → dispatch serde handle db_path call.text stats w ≡ (reply.text, stats', w')
      → exchange serde (loopback serde handle db_path) v (buf, stats, w)
        ≡ (ok (reply.text, answer), ([], stats', w'))
  unfolding exchange
  exchange-Carried v answer written call reply stats stats' w w' buf short dispatched =
      rw (call.printed, exchange)
        (rw
          (
            send_line-line call.text reply.text stats stats' w w' buf short call.one_line
                reply.one_line dispatched,
            reply.read,
          )
          refl)

  -- Where serde reads calls by their fields, the text of the call is read back and is no longer than a
  -- line may be, and the text of the reply's struct is read back as its members: a request with at least
  -- one operation that a client sends over the socket is executed by the gateway's handle as it
  -- was given, once; the client gets the outcome of that, and the counters and the gateway are
  -- left as it leaves them.
  pub send_request-received :
      (req : WriteRequest) (buf : Text) (stats : Stats) (w : W)
      → 1 ≤ length req.operations
      → (call : Carried serde (call_value req.request_id (codes "execute") (execute_value req)))
      → utf8_length (call.text ++ b'\n' ∷ []) ≤ max_line_bytes
      → Replied serde (reply_to serde handle req.request_id (handle.execute req w).0)
      → send_request serde (loopback serde handle db_path) req (buf, stats, w) ≡ (
        ok (received req.request_id (handle.execute req w).0),
        ([], counted (handle.execute req w).0 (accepted stats), (handle.execute req w).1),
      )
  unfolding send_request
  send_request-received req buf stats w some_operations call short reply =
      let result = (handle.execute req w).0 in
      let id = req.request_id in
      let text : (execute_reply serde handle (Json.string id) (accepted stats) result).0
          ≡ reply.text =
        execute_reply-reply_to serde handle id (accepted stats) result
        ∙ ap (or_unserialised serde) reply.printed in
      let dispatched =
        dispatch-call req stats w some_operations call
        ∙ ap
            (λ t. (
              t,
              (execute_reply serde handle (Json.string id) (accepted stats) result).1,
              (handle.execute req w).1,
            ))
            text
        ∙ ap (λ s. (reply.text, s, (handle.execute req w).1))
            (execute_reply-counted (Json.string id) (accepted stats) result) in
      let exchanged =
        exchange-Carried (call_value id (codes "execute") (execute_value req))
          (reply_value serde (reply_to serde handle id result))
          (reply_text serde (reply_to serde handle id result)) call reply stats
          (counted result (accepted stats)) w (handle.execute req w).1 buf short dispatched in
      rw (exchanged, write_reply-reply_to serde handle derived id reply.text result) refl
