-- ===== src/Tests/Admin.antt =====
-- The client's administrative calls at a gateway whose checkpoints fail.
use squeuelite_rs.Common.{
  ◌≡◌, refl, none, List, [], ◌∷◌, Text, codes, text_eq, decimal, ok, err, arith,
}
use squeuelite_rs.Error.{gateway_closed, protocol, display}
use squeuelite_rs.Json.{Json}
use squeuelite_rs.Stats.{snapshot, wal_size_bytes, new_arc}
use squeuelite_rs.Rpc.{Serde}
use squeuelite_rs.Client.{admin_value, stats, request_checkpoint}
use squeuelite_rs.Client.Wire.{Reply, loopback}
use squeuelite_rs.Client.Admin.{
  taken, checkpoint_to, confirmed, stats-taken, request_checkpoint-confirmed,
}
use squeuelite_rs.Tests.Wire.{
  reading, called, replied, carried, answered, derived, gateway, snapshot_value,
}

abbrev stats_call : Json
stats_call = admin_value (codes "u1") (codes "stats")

abbrev stats_answer : Reply
stats_answer = Reply.success (record {
  id = Json.string (codes "u1");
  result = snapshot_value (snapshot new_arc 0 1024 none 0 0);
})

abbrev checkpoint_call : Json
checkpoint_call = admin_value (codes "u1") (codes "checkpoint")

abbrev checkpoint_answer : Reply
unfolding checkpoint_to reading display
checkpoint_answer =
    checkpoint_to (reading []) (derived []) gateway (codes "app.db") (codes "u1")
      (err gateway_closed)

abbrev known : List (Text × Json)
unfolding checkpoint_answer
known =
    called stats_call
    ∷ replied stats_answer
    ∷ called checkpoint_call
    ∷ replied checkpoint_answer
    ∷ []

abbrev wire : Serde
unfolding reading
wire = reading known

stats-taken_example :
    stats wire (loopback wire gateway (codes "app.db")) ([], new_arc, [])
    ≡ (ok (snapshot new_arc 0 1024 none 0 0), ([], new_arc, []))
unfolding text_eq wire known reading checkpoint_answer carried decimal taken snapshot wal_size_bytes
    checkpoint_to display
stats-taken_example =
    stats-taken wire (derived known) gateway (codes "app.db") [] new_arc []
      (snapshot_value (snapshot new_arc 0 1024 none 0 0)) refl refl
      (carried known stats_call refl refl) (omega arith) (answered known stats_answer refl refl)

request_checkpoint-confirmed_example :
    request_checkpoint wire (loopback wire gateway (codes "app.db")) ([], new_arc, [])
    ≡ (err (protocol (codes "{'code':-32000,'message':'gateway is closed',}")), ([], new_arc, []))
unfolding text_eq wire known reading checkpoint_answer carried decimal checkpoint_to confirmed
    display
request_checkpoint-confirmed_example =
    request_checkpoint-confirmed wire (derived known) gateway (codes "app.db") [] new_arc []
      (carried known checkpoint_call refl refl) (omega arith)
      (answered known checkpoint_answer refl refl)
