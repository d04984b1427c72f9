-- ===== src/Tests/Sessions.antt =====
-- A client that sends two requests to the small database, which refuses the second.
use squeuelite_rs.Common.{◌≡◌, refl, List, [], ◌∷◌, Text, codes, text_eq, decimal, ok, arith}
use squeuelite_rs.Config.{reject}
use squeuelite_rs.Driver.Snapshots.{State, idle}
use squeuelite_rs.Json.{Json}
use squeuelite_rs.Params.{params_from}
use squeuelite_rs.Request.{WriteRequest}
use squeuelite_rs.Stats.{Stats, new_arc}
use squeuelite_rs.Validate.{validate_sql}
use squeuelite_rs.Writer.{Writer}
use squeuelite_rs.Writer.Batch.{Ticket}
use squeuelite_rs.Writer.Refinement.{settings_of}
use squeuelite_rs.Spec.{promised}
use squeuelite_rs.Gateway.Attached.{resting}
use squeuelite_rs.Client.{call_value, execute_value}
use squeuelite_rs.Client.Wire.{Reply, loopback}
use squeuelite_rs.Client.Replies.{received, reply_to}
use squeuelite_rs.Rpc.{Serde}
use squeuelite_rs.Stack.{gateway}
use squeuelite_rs.Stack.Sessions.{session, answers, data_after, link, AllSendable, session-answers}
use squeuelite_rs.Tests.Database.{Db, empty_db, meaning, driver, query_sql, run_sql}
use squeuelite_rs.Tests.Laws.{laws, willing}
use squeuelite_rs.Tests.Encoding.{codec}
use squeuelite_rs.Tests.Runs.{writer, keyed, repeated}
use squeuelite_rs.Tests.Stack.{around}
use squeuelite_rs.Tests.Wire
use squeuelite_rs.Tests.Wire.{
  reading, called, replied, carried, answered, derived, printing, execute_call, execute_answer,
}

abbrev second_call : Json
unfolding execute_value
second_call = call_value (codes "r3") (codes "execute") (execute_value repeated)

abbrev second_answer : Reply
unfolding reply_to promised
second_answer = reply_to printing Wire.gateway (codes "r3") (
    ok
      (promised meaning codec (settings_of writer) repeated
        (promised meaning codec (settings_of writer) keyed empty_db).1).0)

abbrev known : List (Text × Json)
unfolding execute_call execute_answer second_call second_answer
known =
    called execute_call ∷ replied execute_answer ∷ called second_call ∷ replied second_answer ∷ []

abbrev wire : Serde
unfolding reading known
wire = reading known

abbrev requests : List WriteRequest
requests = keyed ∷ repeated ∷ []

session-answers_example :
    (stats' : Stats) × (next' : Ticket) × (v : Writer (State Db)) × (session wire
        (loopback wire (gateway laws codec willing around 16 reject) (codes "app.db"))
        requests
        ([], new_arc, resting driver codec 16 0 writer)
      ≡ (
        answers meaning codec (settings_of writer) requests empty_db,
        ([], stats', resting driver codec 16 next' v),
      ))
    × (laws.state v.conn ≡ idle (data_after meaning codec (settings_of writer) requests empty_db))
unfolding AllSendable link wire known carried execute_call execute_answer second_call second_answer
    received laws promised codec validate_sql query_sql params_from run_sql text_eq decimal
session-answers_example =
    session-answers laws codec willing around 16 reject wire (derived known) (codes "app.db")
      (settings_of writer) requests new_arc 0 writer empty_db refl refl
      (
        (tt, tt),
        omega arith,
        (
          (carried known execute_call refl refl, omega arith),
          answered known execute_answer refl refl,
        ),
        (
          (tt, tt),
          omega arith,
          (
            (carried known second_call refl refl, omega arith),
            answered known second_answer refl refl,
          ),
          tt,
        ),
      )
