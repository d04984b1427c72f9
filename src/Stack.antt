-- ===== src/Stack.antt =====
-- The whole program on one request: the client, the socket's loop, the dispatcher, the handle, the
-- channel and the writer, against what is promised on the data (src/client.rs, src/sidecar.rs,
-- src/jsonrpc.rs, src/inprocess.rs, src/writer.rs).
pub mod Sessions
use squeuelite_rs.Common.{
  ℕ, ◌+◌, ◌≤◌, ◌≡◌, ap, sym, subst, ◌∙◌, Option, [], ◌∷◌, ◌++◌, Text, codes, Result, ok, length,
}
use squeuelite_rs.Config.{OverflowPolicy}
use squeuelite_rs.Error.{Error}
use squeuelite_rs.Request.{WriteRequest, WriteResponse}
use squeuelite_rs.Codec.{Codec}
use squeuelite_rs.Driver.{Driver}
use squeuelite_rs.Driver.Snapshots.{idle}
use squeuelite_rs.Driver.Laws.{Semantics, Laws}
use squeuelite_rs.Driver.Refusal.{Willing}
use squeuelite_rs.Stats.{Stats}
use squeuelite_rs.Writer.{Writer, apply}
use squeuelite_rs.Writer.Batch.{Ticket}
use squeuelite_rs.Writer.Refinement.{settings_of, PlainRequest}
use squeuelite_rs.Writer.Atomic.{apply-promised}
use squeuelite_rs.Spec.{promised}
use squeuelite_rs.Gateway.{Channel, submit, request_checkpoint, queue_depth}
use squeuelite_rs.Gateway.Attached.{Attached, attached, resting, submit-apply}
use squeuelite_rs.Rpc.{Serde, Handle}
use squeuelite_rs.Sidecar.{utf8_length, max_line_bytes}
use squeuelite_rs.Client.{call_value, execute_value, send_request}
use squeuelite_rs.Client.Wire.{Carried, Replied, Derived, loopback}
use squeuelite_rs.Client.Replies.{received, reply_to}
use squeuelite_rs.Client.Session.{counted, accepted, send_request-received}

-- What a handle has beside its channel: the latencies, the files and the clock.
pub record Surroundings (W : Type 0) : Type 0 where
  pub latency_snapshot : W → ℕ × ℕ
  pub file_size : Text → W → Option ℕ
  pub now_v7 : W → Text × W

-- `GatewayHandle`, by its sender and its policy.
unfoldable pub gateway_handle :
    {W : Type 0} → Surroundings W → Channel W → OverflowPolicy → Handle W
unfolding submit request_checkpoint queue_depth
gateway_handle around channel policy = record {
  execute = submit channel policy;
  checkpoint = request_checkpoint channel;
  queue_depth = queue_depth channel;
  queue_capacity = channel.max_capacity;
  latency_snapshot = around.latency_snapshot;
  file_size = around.file_size;
  now_v7 = around.now_v7;
}

module _ {C D : Type 0} {driver : Driver C} {meaning : Semantics D} {IsPlain : Text → Type 0}
    (laws : Laws driver meaning IsPlain) (codec : Codec) (willing : Willing laws)
    (around : Surroundings (Attached C)) (size : ℕ) (policy : OverflowPolicy) where
  -- The handle of the gateway whose writer is attached.
  abbrev pub gateway : Handle (Attached C)
  unfolding gateway_handle
  gateway = gateway_handle around (attached driver codec size) policy

  execute-promised :
      (req : WriteRequest) (next : Ticket) (w : Writer C) (x : D)
      → PlainRequest IsPlain req
      → laws.state w.conn ≡ idle x
      → gateway.execute req (resting driver codec size next w) ≡ (
        ok (promised meaning codec (settings_of w) req x).0,
        resting driver codec size (next + 1) (apply driver codec w req).1,
      )
  unfolding gateway gateway_handle
  execute-promised req next w x plain at =
      let (same, there, response) = apply-promised laws codec w req x willing plain at in
      submit-apply driver codec size policy req next w
      ∙ ap (λ r. (ok r, resting driver codec size (next + 1) (apply driver codec w req).1)) response

  -- The client's outcome, the counters and the gateway from those of the handle.
  abbrev outcome_of :
      Serde
      → WriteRequest
      → Stats
      → Result WriteResponse Error × Attached C
      → Result WriteResponse Error × (Text × Stats × Attached C)
  unfolding received
  outcome_of serde req stats r =
      (ok (received req.request_id r.0), ([], counted r.0 (accepted stats), r.1))

  -- For a driver that keeps the laws and refuses no BEGIN, COMMIT, SAVEPOINT or RELEASE where it is in
  -- place, and plain statements; where serde reads calls by their fields, the text of the call is
  -- read back and is no longer than a line may be, and the text of the reply's struct is read back
  -- as its members; on a gateway whose queue
  -- is empty and whose connection has no transaction open: a client that sends a request with at
  -- least one operation gets the status of the promised response, with its commit number or its
  -- message, the writer is left with the promised data and the same settings, and the request is
  -- counted once.
  pub send_request-promised :
      (serde : Serde) (db_path : Text) (req : WriteRequest) (buf : Text) (stats : Stats)
      (next : Ticket) (w : Writer C) (x : D)
      → Derived serde
      → PlainRequest IsPlain req
      → laws.state w.conn ≡ idle x
      → 1 ≤ length req.operations
      → (call : Carried serde (call_value req.request_id (codes "execute") (execute_value req)))
      → utf8_length (call.text ++ b'\n' ∷ []) ≤ max_line_bytes
      → Replied serde (
          reply_to serde gateway req.request_id
            (ok (promised meaning codec (settings_of w) req x).0))
      → (v : Writer C) × (send_request serde
            (loopback serde gateway db_path)
            req
            (buf, stats, resting driver codec size next w)
          ≡ (
            ok (received req.request_id (ok (promised meaning codec (settings_of w) req x).0)),
            (
              [],
              counted (ok (promised meaning codec (settings_of w) req x).0) (accepted stats),
              resting driver codec size (next + 1) v,
            ),
          ))
        × (settings_of v ≡ settings_of w)
        × (laws.state v.conn ≡ idle (promised meaning codec (settings_of w) req x).1)
  unfolding outcome_of
  send_request-promised serde db_path req buf stats next w x derived plain at some_operations call
        short reply =
      let (same, there, response) = apply-promised laws codec w req x willing plain at in
      let start = resting driver codec size next w in
      let executed = execute-promised req next w x plain at in
      let reply' =
        subst
          (λ (r : Result WriteResponse Error × Attached C).
            Replied serde (reply_to serde gateway req.request_id r.0))
          (sym executed) reply in
      (
        (apply driver codec w req).1,
        send_request-received serde derived gateway db_path req buf stats start some_operations call
              short reply'
            ∙ ap (outcome_of serde req stats) executed,
        same,
        there,
      )
