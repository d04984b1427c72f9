-- ===== src/Client/Replies.antt =====
-- What the client makes of the replies to `execute` (src/client.rs, src/jsonrpc.rs).
use squeuelite_rs.Common.{◌≡◌, refl, Option, none, some, Text, codes, Result, ok, err, inl, inr}
use squeuelite_rs.Common.Int.{ℤ}
use squeuelite_rs.Error.{
  Error, display, gateway_overloaded, gateway_closed, sqlite, json, migration, sql_rejected,
  idempotency_conflict, invalid_param, io, protocol,
}
use squeuelite_rs.Json.{Json, get, as_str}
use squeuelite_rs.Request.{WriteResponse, WriteStatus, committed, failed}
use squeuelite_rs.Stats.{Stats}
use squeuelite_rs.Rpc.{Serde, Handle, or_unserialised, write_failed, overloaded, closed}
use squeuelite_rs.Rpc.Execute.{execute_reply, committed_value, error_message, error_data}
use squeuelite_rs.Rpc.Counters.{WriteStatus-cases}
use squeuelite_rs.Client.{write_reply, result_response, error_response, value_get}
use squeuelite_rs.Client.Wire.{Reply, reply_text, reply_value, Derived}

abbrev pub received_response : Text → WriteStatus → Option ℤ → Option Text → WriteResponse
received_response id committed seq message = record {
  request_id = id;
  status = committed;
  commit_seq = seq;
  error = none;
}
received_response id failed seq message = record {
  request_id = id;
  status = failed;
  commit_seq = none;
  error = some (error_message message);
}

-- The response that a client is to have for an outcome of `execute`: a commit with its number; a
-- failure with its message, or "write failed" where it has none; and an error as a failure with
-- the error's message.
unfoldable pub received : Text → Result WriteResponse Error → WriteResponse
unfolding display
received id (ok resp) = received_response id resp.status resp.commit_seq resp.error
received id (err gateway_overloaded) = record {
  request_id = id;
  status = failed;
  commit_seq = none;
  error = some (codes "gateway overloaded");
}
received id (err gateway_closed) = record {
  request_id = id;
  status = failed;
  commit_seq = none;
  error = some (codes "gateway closed");
}
received id (err e) = record {
  request_id = id;
  status = failed;
  commit_seq = none;
  error = some (display e);
}

module _ {W : Type 0} (serde : Serde) (handle : Handle W) where
  abbrev failure_reply : Text → ℤ → Text → Option Json → Reply
  failure_reply id code message detail = Reply.failure (record {
    id = Json.string id;
    error = record { code = code; message = message; «data» = detail };
  })

  abbrev response_reply : Text → WriteStatus → Option ℤ → Option Text → Reply
  response_reply id committed seq message =
      Reply.success (record { id = Json.string id; result = committed_value serde handle seq })
  response_reply id failed seq message =
      failure_reply id write_failed (error_message message) (some (error_data message))

  -- The reply to an outcome.
  unfoldable pub reply_to : Text → Result WriteResponse Error → Reply
  unfolding display
  reply_to id (ok resp) = response_reply id resp.status resp.commit_seq resp.error
  reply_to id (err gateway_overloaded) =
      failure_reply id overloaded (codes "gateway overloaded") none
  reply_to id (err gateway_closed) = failure_reply id closed (codes "gateway closed") none
  reply_to id (err e) = failure_reply id write_failed (display e) none

  pub execute_reply-reply_to :
      (id : Text) (stats : Stats) (result : Result WriteResponse Error)
      → (execute_reply serde handle (Json.string id) stats result).0
        ≡ or_unserialised serde (reply_text serde (reply_to id result))
  unfolding execute_reply reply_to
  execute_reply-reply_to id stats (ok resp) = elim (WriteStatus-cases resp.status) [
    | inl e ↦ rw (e, execute_reply) refl
    | inr e ↦ rw (e, execute_reply) refl
  ]
  execute_reply-reply_to id stats (err gateway_overloaded) = refl
  execute_reply-reply_to id stats (err gateway_closed) = refl
  execute_reply-reply_to id stats (err (sqlite e)) = refl
  execute_reply-reply_to id stats (err (json e)) = refl
  execute_reply-reply_to id stats (err (migration e)) = refl
  execute_reply-reply_to id stats (err (sql_rejected e)) = refl
  execute_reply-reply_to id stats (err (idempotency_conflict e)) = refl
  execute_reply-reply_to id stats (err (invalid_param e)) = refl
  execute_reply-reply_to id stats (err (io e)) = refl
  execute_reply-reply_to id stats (err (protocol e)) = refl

  write_reply-response_reply :
      Derived serde
      → (id reply : Text) (status : WriteStatus) (seq : Option ℤ) (message : Option Text)
      → write_reply id reply (reply_value serde (response_reply id status seq message))
        ≡ ok (received_response id status seq message)
  unfolding write_reply result_response error_response value_get get as_str
  write_reply-response_reply derived id reply committed none message = refl
  write_reply-response_reply derived id reply committed (some n) message =
      rw (derived.number n) refl
  write_reply-response_reply derived id reply failed seq message = refl

  pub write_reply-reply_to :
      Derived serde
      → (id reply : Text) (result : Result WriteResponse Error)
      → write_reply id reply (reply_value serde (reply_to id result)) ≡ ok (received id result)
  unfolding write_reply result_response error_response value_get get as_str reply_to received
  write_reply-reply_to derived id reply (ok resp) =
      write_reply-response_reply derived id reply resp.status resp.commit_seq resp.error
  write_reply-reply_to derived id reply (err gateway_overloaded) = refl
  write_reply-reply_to derived id reply (err gateway_closed) = refl
  write_reply-reply_to derived id reply (err (sqlite e)) = refl
  write_reply-reply_to derived id reply (err (json e)) = refl
  write_reply-reply_to derived id reply (err (migration e)) = refl
  write_reply-reply_to derived id reply (err (sql_rejected e)) = refl
  write_reply-reply_to derived id reply (err (idempotency_conflict e)) = refl
  write_reply-reply_to derived id reply (err (invalid_param e)) = refl
  write_reply-reply_to derived id reply (err (io e)) = refl
  write_reply-reply_to derived id reply (err (protocol e)) = refl
