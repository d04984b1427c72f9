-- ===== src/Tests/Stack.antt =====
-- A request from a client to the small database and back.
use squeuelite_rs.Common.{◌≡◌, refl, none, some, [], codes, text_eq, decimal, ok, arith}
use squeuelite_rs.Common.Int.{pos}
use squeuelite_rs.Config.{reject}
use squeuelite_rs.Request.{committed_response}
use squeuelite_rs.Driver.Snapshots.{State, idle}
use squeuelite_rs.Stats.{new_arc}
use squeuelite_rs.Validate.{validate_sql}
use squeuelite_rs.Writer.{Writer}
use squeuelite_rs.Writer.Refinement.{settings_of}
use squeuelite_rs.Spec.{promised}
use squeuelite_rs.Gateway.Attached.{Attached, resting}
use squeuelite_rs.Client.{send_request}
use squeuelite_rs.Client.Wire.{loopback}
use squeuelite_rs.Client.Replies.{received}
use squeuelite_rs.Stack.{Surroundings, gateway, send_request-promised}
use squeuelite_rs.Params.{params_from}
use squeuelite_rs.Tests.Database.{query_sql, run_sql, Db, empty_db, meaning, driver}
use squeuelite_rs.Tests.Laws.{laws, willing}
use squeuelite_rs.Tests.Encoding.{codec}
use squeuelite_rs.Tests.Runs.{writer, keyed}
use squeuelite_rs.Tests.Wire.{wire, known, carried, answered, derived, execute_call, execute_answer}

abbrev pub around : Surroundings (Attached (State Db))
around = record {
  latency_snapshot = λ w. (0, 0);
  file_size = λ path w. none;
  now_v7 = λ w. (codes "u1", w);
}

send_request-promised_example :
    (v : Writer (State Db)) × (send_request wire
        (loopback wire (gateway laws codec willing around 16 reject) (codes "app.db"))
        keyed
        ([], new_arc, resting driver codec 16 0 writer)
      ≡ (
        ok (committed_response (codes "r1") (some (pos 1))),
        (
          [],
          record { accepted = 1; committed = 1; failed = 0; rejected = 0 },
          resting driver codec 16 1 v,
        ),
      ))
    × (settings_of v ≡ settings_of writer)
    × (laws.state v.conn ≡ idle (promised meaning codec (settings_of writer) keyed empty_db).1)
unfolding wire carried known execute_call execute_answer received laws promised codec validate_sql
    query_sql params_from run_sql text_eq decimal
send_request-promised_example =
    send_request-promised laws codec willing around 16 reject wire (codes "app.db") keyed [] new_arc
      0 writer empty_db (derived known) (tt, tt) refl (omega arith)
      (carried known execute_call refl refl) (omega arith) (answered known execute_answer refl refl)
