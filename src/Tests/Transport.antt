-- ===== src/Tests/Transport.antt =====
-- The theorems on the dispatcher, the gateway's handle and the startup at concrete inputs.
use squeuelite_rs.Common.{
  ℕ, ◌+◌, ◌*◌, ◌≤◌, ◌≡◌, ◌⊎◌, refl, Option, none, some, List, [], ◌∷◌, Text, codes, Result, ok, err,
  length,
}
use squeuelite_rs.Common.Int.{pos}
use squeuelite_rs.Config.{GatewayConfig, reject, new}
use squeuelite_rs.Error.{SqlError}
use squeuelite_rs.Json.{Json, string, object, array, cons, nil, field, end, get}
use squeuelite_rs.Request.{WriteRequest, committed_response}
use squeuelite_rs.Writer.{Writer}
use squeuelite_rs.Writer.Loop.{write}
use squeuelite_rs.Stats.{new_arc, fetch_add}
use squeuelite_rs.Rpc.{Serde, Handle, RawRequest, err_json, invalid_params}
use squeuelite_rs.Rpc.Execute.{str_at, dispatch_execute, execute_reply, request_id_of}
use squeuelite_rs.Rpc.Dispatch.{dispatch}
use squeuelite_rs.Rpc.Counters.{Balanced, dispatch-Balanced}
use squeuelite_rs.Rpc.Parsed.{Taken, dispatch_execute-Taken}
use squeuelite_rs.Gateway.{Channel, full, latency_snapshot, enqueue, submit}
use squeuelite_rs.Gateway.Overflow.{Overflows, submit-overloaded}
use squeuelite_rs.Gateway.Percentile.{count_le, latency_snapshot-percentile}
use squeuelite_rs.Startup.{Setup, open_with_config, started_writer}
use squeuelite_rs.Startup.Order.{calls, Performed, Fresh, open_with_config-Performed}
use squeuelite_rs.Tests.Runs.{keyed}

abbrev pub operation : Json
operation = object (field (codes "sql") (string (codes "INSERT INTO t VALUES (1)")) end)

abbrev pub execute_object : Json
execute_object = object (
    field (codes "actor_id") (string (codes "a"))
      (field (codes "operations") (array (cons operation nil)) end))

abbrev pub call : Json
call = object (
    field (codes "id") (string (codes "1")) (
      field (codes "jsonrpc") (string (codes "2.0")) (
        field (codes "method") (string (codes "execute"))
          (field (codes "params") execute_object end))))

abbrev pub or_null : Option Json → Json
or_null none = Json.null
or_null (some v) = v

unfoldable pub raw : Json → Result RawRequest Text
raw (Json.object fields) = ok (record {
  jsonrpc = str_at (codes "jsonrpc") fields;
  id = or_null (get (codes "id") fields);
  method = str_at (codes "method") fields;
  params = or_null (get (codes "params") fields);
})
raw v = err (codes "not an object")

-- It reads every text as `call`, and prints every reply the same.
abbrev pub serde : Serde
serde = record {
  from_str = λ s. ok call;
  to_string = λ v. ok (codes "call");
  raw_request = raw;
  success_to_string = λ r. ok (codes "success");
  error_to_string = λ r. ok (codes "error");
  snapshot_to_value = λ s. ok Json.null;
  snapshot_from_value = λ v. err [];
  print = λ v. [];
  number_from = λ n. record { as_i64 = some n; as_f64 = none; to_text = [] };
}

-- A gateway that commits every request and remembers it.
abbrev pub handle : Handle (List WriteRequest)
handle = record {
  execute = λ req w. (ok (committed_response req.request_id (some (pos (length w)))), req ∷ w);
  checkpoint = λ w. (ok tt, w);
  queue_depth = λ w. 0;
  queue_capacity = λ w. 1024;
  latency_snapshot = λ w. (0, 0);
  file_size = λ path w. none;
  now_v7 = λ w. (codes "uuid", w);
}

-- An accepted request that is committed: the counters go up by one each.
dispatch_counts :
    (dispatch serde handle (codes "app.db") [] new_arc []).1
    ≡ record { accepted = 1; committed = 1; failed = 0; rejected = 0 }
unfolding dispatch raw
dispatch_counts = refl

dispatch-Balanced_example : Balanced (dispatch serde handle (codes "app.db") [] new_arc []).1
dispatch-Balanced_example = dispatch-Balanced serde handle (codes "app.db") [] new_arc [] refl

dispatch_execute-Taken_example :
    ((req : WriteRequest) × Taken execute_object (codes "1") req
      × (dispatch_execute serde handle (string (codes "1")) execute_object new_arc [] ≡ (
          let (result, w) = handle.execute req [] in
          let (text, stats) =
            execute_reply serde handle
              (string (codes "1"))
              (record new_arc { accepted = fetch_add new_arc.accepted })
              result in
          (text, stats, w))))
    ⊎ (((req : WriteRequest) → Taken execute_object (codes "1") req → ⊥)
        × ((message : Text) × (dispatch_execute serde handle
                (string (codes "1"))
                execute_object
                new_arc
                []
              ≡ (err_json serde (string (codes "1")) invalid_params message, new_arc, []))))
unfolding request_id_of
dispatch_execute-Taken_example =
    dispatch_execute-Taken serde handle (string (codes "1")) execute_object new_arc []

-- A channel whose queue is full.
abbrev channel : Channel ℕ
channel = record {
  oneshot = λ w. (w, w + 1);
  send = λ command w. (ok tt, w);
  try_send = λ command w. (err full, w);
  send_timeout = λ millis command w. (err tt, w);
  response = λ ticket w. (err tt, w);
  checkpoint_result = λ ticket w. (err tt, w);
  max_capacity = λ w. 1;
  capacity = λ w. 0;
  join = λ w. (ok tt, w);
}

submit-overloaded_example :
    Overflows channel reject (write keyed 5) 6
    × ((submit channel reject keyed 5).1 ≡ (enqueue channel reject (write keyed 5) 6).1)
unfolding submit
submit-overloaded_example = submit-overloaded channel reject keyed 5 refl

abbrev latencies : List ℕ
latencies = 7 ∷ 3 ∷ 5 ∷ []

latency_snapshot-percentile_example :
    (r : ℕ × ℕ) × (latency_snapshot (λ a b. a) latencies ≡ some r)
    × (95 * length latencies ≤ 100 * count_le r.1 latencies)
latency_snapshot-percentile_example = latency_snapshot-percentile (λ a b. a) latencies

-- A connection that records the calls, newest first.
abbrev perform : Setup → List Setup → Result (Unit {0}) SqlError × List Setup
perform step done = (ok tt, step ∷ done)

abbrev config : GatewayConfig
config = new (codes "app.db")

abbrev reversed : List Setup → List Setup → List Setup
reversed [] done = done
reversed (step ∷ steps) done = reversed steps (step ∷ done)

abbrev opened : Writer (List Setup)
opened = started_writer config (reversed (calls config) [])

open_with_config-Performed_example :
    (d : List Setup) × Performed perform (calls config) [] d × Fresh perform config d opened
unfolding open_with_config
open_with_config-Performed_example = open_with_config-Performed perform config [] opened refl
