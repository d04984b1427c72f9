-- ===== src/Client/Admin.antt =====
-- The client's administrative calls from end to end (src/client.rs, src/jsonrpc.rs).
use squeuelite_rs.Common.{
  ◌≤◌, ◌≡◌, refl, ap, ◌∙◌, none, [], ◌∷◌, ◌++◌, Text, codes, Result, ok, err,
}
use squeuelite_rs.Error.{Error, display, protocol}
use squeuelite_rs.Json.{Json, get}
use squeuelite_rs.Stats.{Stats, StatsSnapshot, snapshot, wal_size_bytes}
use squeuelite_rs.Rpc.{Serde, Handle, or_unserialised, write_failed}
use squeuelite_rs.Rpc.Dispatch.{
  dispatch_request, dispatch_method, dispatch_stats, dispatch_checkpoint, checkpoint_reply,
  status_ok,
}
use squeuelite_rs.Sidecar.{utf8_length, max_line_bytes}
use squeuelite_rs.Client.{
  admin_value, value_get, stats, stats_reply, admin, acknowledged, request_checkpoint,
}
use squeuelite_rs.Client.Wire.{
  Reply, reply_text, reply_value, Carried, Replied, Derived, loopback, error_object,
}
use squeuelite_rs.Client.Session.{dispatch-read, exchange-Carried}

module _ {W : Type 0} (serde : Serde) (derived : Derived serde) (handle : Handle W)
    (db_path : Text) where
  -- The statistics of a gateway.
  unfoldable pub taken : Stats → W → StatsSnapshot
  unfolding snapshot wal_size_bytes
  taken counters w =
      snapshot counters (handle.queue_depth w) (handle.queue_capacity w)
        (wal_size_bytes (λ path. handle.file_size path w) db_path) (handle.latency_snapshot w).0
        (handle.latency_snapshot w).1

  dispatch_stats-text :
      (id : Text) (v : Json) (counters : Stats) (w : W)
      → serde.snapshot_to_value (taken counters w) ≡ ok v
      → dispatch_stats serde handle db_path (Json.string id) counters w
        ≡ or_unserialised serde
            (serde.success_to_string (record { id = Json.string id; result = v }))
  unfolding dispatch_stats taken
  dispatch_stats-text id v counters w written = rw (written, dispatch_stats) refl

  -- The client's `stats` gives the snapshot of the counters and the gateway at the time of the
  -- call, and changes neither but for the id that it takes, where serde reads calls by their fields,
  -- the text of the call is read back and is no longer than a line may be, that of the reply's struct
  -- is read back as its members, and the JSON of the snapshot as the snapshot.
  pub stats-taken :
      (buf : Text) (counters : Stats) (w : W) (v : Json)
      → serde.snapshot_to_value (taken counters (handle.now_v7 w).1) ≡ ok v
      → serde.snapshot_from_value v ≡ ok (taken counters (handle.now_v7 w).1)
      → (call : Carried serde (admin_value (handle.now_v7 w).0 (codes "stats")))
      → utf8_length (call.text ++ b'\n' ∷ []) ≤ max_line_bytes
      → Replied serde (Reply.success (record { id = Json.string (handle.now_v7 w).0; result = v }))
      → stats serde (loopback serde handle db_path) (buf, counters, w)
        ≡ (ok (taken counters (handle.now_v7 w).1), ([], counters, (handle.now_v7 w).1))
  unfolding stats loopback dispatch_request dispatch_method stats_reply value_get get
  stats-taken buf counters w v written restored call short reply =
      let (id, w') = handle.now_v7 w in
      let text =
        dispatch_stats-text id v counters w' written ∙ ap (or_unserialised serde) reply.printed in
      let dispatched =
        dispatch-read serde derived handle db_path call.text (admin_value id (codes "stats")) _
          counters w' call.read refl (derived.admin_call id (codes "stats"))
        ∙ ap (λ t. (t, counters, w')) text in
      let exchanged =
        exchange-Carried serde derived handle db_path (admin_value id (codes "stats"))
          (reply_value serde (Reply.success (record { id = Json.string id; result = v })))
          (reply_text serde (Reply.success (record { id = Json.string id; result = v }))) call reply
          counters counters w' w' buf short dispatched in
      rw (exchanged, restored) refl

  -- The reply to `checkpoint`, and what the client is to return.
  unfoldable pub checkpoint_to : Text → Result (Unit {0}) Error → Reply
  unfolding display
  checkpoint_to id (ok _) = Reply.success (record { id = Json.string id; result = status_ok })
  checkpoint_to id (err e) = Reply.failure (record {
    id = Json.string id;
    error = record { code = write_failed; message = display e; «data» = none };
  })

  unfoldable pub confirmed : Result (Unit {0}) Error → Result (Unit {0}) Error
  unfolding display
  confirmed (ok _) = ok tt
  confirmed (err e) = err (
      protocol (
        serde.print (
          error_object serde (record { code = write_failed; message = display e; «data» = none }))))

  checkpoint_reply-text :
      (id : Text) (result : Result (Unit {0}) Error)
      → checkpoint_reply serde handle db_path (Json.string id) result
        ≡ or_unserialised serde (reply_text serde (checkpoint_to id result))
  unfolding checkpoint_reply checkpoint_to
  checkpoint_reply-text id (ok _) = refl
  checkpoint_reply-text id (err e) = refl

  acknowledged-checkpoint_to :
      (id : Text) (result : Result (Unit {0}) Error)
      → acknowledged serde
          (loopback serde handle db_path)
          (reply_value serde (checkpoint_to id result))
        ≡ confirmed result
  unfolding acknowledged checkpoint_to confirmed value_get get
  acknowledged-checkpoint_to id (ok _) = refl
  acknowledged-checkpoint_to id (err e) = refl

  -- The client's `checkpoint` succeeds where the gateway's does, and fails with the printed error
  -- object of the reply where it fails; the counters stay, and the gateway is left as its checkpoint
  -- leaves it. Serde reads calls by their fields, the text of the call is read back and is no longer
  -- than a line may be, and that of the reply's struct is read back as its members.
  pub request_checkpoint-confirmed :
      (buf : Text) (counters : Stats) (w : W)
      → (call : Carried serde (admin_value (handle.now_v7 w).0 (codes "checkpoint")))
      → utf8_length (call.text ++ b'\n' ∷ []) ≤ max_line_bytes
      → Replied serde (checkpoint_to (handle.now_v7 w).0 (handle.checkpoint (handle.now_v7 w).1).0)
      → request_checkpoint serde (loopback serde handle db_path) (buf, counters, w) ≡ (
        confirmed (handle.checkpoint (handle.now_v7 w).1).0,
        ([], counters, (handle.checkpoint (handle.now_v7 w).1).1),
      )
  unfolding admin loopback dispatch_request dispatch_method dispatch_checkpoint
  request_checkpoint-confirmed buf counters w call short reply =
      let (id, w') = handle.now_v7 w in
      let (result, w'') = handle.checkpoint w' in
      let text = checkpoint_reply-text id result ∙ ap (or_unserialised serde) reply.printed in
      let dispatched =
        dispatch-read serde derived handle db_path call.text (admin_value id (codes "checkpoint")) _
          counters w' call.read refl (derived.admin_call id (codes "checkpoint"))
        ∙ ap (λ t. (t, counters, w'')) text in
      let exchanged =
        exchange-Carried serde derived handle db_path (admin_value id (codes "checkpoint"))
          (reply_value serde (checkpoint_to id result)) (reply_text serde (checkpoint_to id result))
          call reply counters counters w' w'' buf short dispatched in
      rw (exchanged, acknowledged-checkpoint_to id result) refl
