-- ===== src/Tests/Wire.antt =====
-- A printer of JSON and a reader of what it printed, and the clients' theorems with them.
use squeuelite_rs.Common.{
  ◌+◌, ◌≡◌, refl, true, false, Option, none, some, List, [], ◌∷◌, ◌++◌, Text, codes, text_eq,
  decimal, Result, ok, err, if◌then◌else◌, arith,
}
use squeuelite_rs.Common.Int.{ℤ, pos, negsuc}
use squeuelite_rs.Error.{gateway_closed}
use squeuelite_rs.Json.{Json, Number, Items, nil, cons, Fields, field, end, get, as_str}
use squeuelite_rs.Request.{WriteRequest, committed_response}
use squeuelite_rs.Stats.{StatsSnapshot, snapshot, new_arc}
use squeuelite_rs.Rpc.{Serde, Handle, JsonRpcSuccess, JsonRpcError}
use squeuelite_rs.Client.{version, call_value, execute_value, send_request}
use squeuelite_rs.Client.Wire.{Reply, reply_value, Carried, Replied, Derived, loopback}
use squeuelite_rs.Client.Replies.{received, reply_to}
use squeuelite_rs.Client.Session.{send_request-received}
use squeuelite_rs.Rpc.Execute.{str_at}
use squeuelite_rs.Sidecar.{trim_newlines}
use squeuelite_rs.Tests.Transport.{raw}
use squeuelite_rs.Tests.Runs.{keyed}

abbrev pub digits : Option ℤ → Text
digits none = codes "?"
digits (some (pos n)) = decimal n
digits (some (negsuc n)) = codes "-" ++ decimal (n + 1)

abbrev pub quoted : Text → Text
quoted s = codes "'" ++ (s ++ codes "'")

abbrev mutual
  pub printed : Json → Text
  printed Json.null = codes "null"
  printed (Json.bool true) = codes "true"
  printed (Json.bool false) = codes "false"
  printed (Json.number n) = digits n.as_i64
  printed (Json.string s) = quoted s
  printed (Json.array vs) = codes "[" ++ items vs
  printed (Json.object fs) = codes "{" ++ members fs

  pub items : Items → Text
  items nil = codes "]"
  items (cons v vs) = printed v ++ (codes "," ++ items vs)

  pub members : Fields → Text
  members end = codes "}"
  members (field k v fs) = quoted k ++ (codes ":" ++ (printed v ++ (codes "," ++ members fs)))

-- The value that a list has for the text.
abbrev pub read_as : Text → List (Text × Json) → Result Json Text
read_as text [] = err (codes "no JSON")
read_as text ((t, v) ∷ known) =
    let rest = read_as text known in if text_eq t text then ok v else rest

-- The structs of the replies, their fields in the order in which they are declared.
abbrev pub printed_success : JsonRpcSuccess → Text
printed_success r = printed (
    Json.object (
      field (codes "jsonrpc") version
        (field (codes "id") r.id (field (codes "result") r.result end))))

abbrev pub printed_data : Option Json → Fields
printed_data none = end
printed_data (some detail) = field (codes "data") detail end

abbrev pub number_of : ℤ → Number
number_of n = record { as_i64 = some n; as_f64 = none; to_text = digits (some n) }

-- A snapshot by its counter of commits.
abbrev pub snapshot_value : StatsSnapshot → Json
snapshot_value s =
    Json.object (field (codes "committed") (Json.number (number_of (pos s.committed))) end)

abbrev pub printed_error : JsonRpcError → Text
printed_error r = printed (
    Json.object (
      field (codes "jsonrpc") version (
        field (codes "id") r.id (
          field (codes "error")
            (Json.object (
              field (codes "code") (Json.number (number_of r.error.code)) (
                field (codes "message") (Json.string r.error.message)
                  (printed_data r.error.«data»))))
            end))))

abbrev pub printing : Serde
unfolding raw
printing = record {
  from_str = λ text. err [];
  to_string = λ v. ok (printed v);
  raw_request = raw;
  success_to_string = λ r. ok (printed_success r);
  error_to_string = λ r. ok (printed_error r);
  snapshot_to_value = λ s. ok (snapshot_value s);
  snapshot_from_value = λ v. ok (snapshot new_arc 0 1024 none 0 0);
  print = printed;
  number_from = number_of;
}

-- Its reader knows the texts of a list.
unfoldable pub reading : List (Text × Json) → Serde
unfolding raw
reading known = record printing { from_str = λ text. read_as text known }

pub derived : (known : List (Text × Json)) → Derived (reading known)
unfolding reading raw get str_at as_str
derived known = record {
  call = λ id method params. refl;
  admin_call = λ id method. refl;
  number = λ n. refl;
}

-- A gateway that commits every request and remembers it, and whose checkpoints fail.
abbrev pub gateway : Handle (List WriteRequest)
gateway = record {
  execute = λ req w. (ok (committed_response req.request_id (some (pos 1))), req ∷ w);
  checkpoint = λ w. (err gateway_closed, w);
  queue_depth = λ w. 0;
  queue_capacity = λ w. 1024;
  latency_snapshot = λ w. (0, 0);
  file_size = λ path w. none;
  now_v7 = λ w. (codes "u1", w);
}

unfoldable pub execute_call : Json
unfolding execute_value
execute_call = call_value (codes "r1") (codes "execute") (execute_value keyed)

unfoldable pub execute_answer : Reply
unfolding reply_to
execute_answer = reply_to printing gateway (codes "r1") (gateway.execute keyed []).0

-- The text of a call, and of a reply, with the value that it is read as.
abbrev pub called : Json → Text × Json
called v = (printed v, v)

abbrev pub printed_reply : Reply → Text
printed_reply (Reply.success r) = printed_success r
printed_reply (Reply.failure r) = printed_error r

abbrev pub replied : Reply → Text × Json
replied r = (printed_reply r, reply_value printing r)

unfoldable pub known : List (Text × Json)
unfolding execute_call execute_answer
known = called execute_call ∷ replied execute_answer ∷ []

unfoldable pub wire : Serde
unfolding reading known
wire = reading known

-- What is printed on one line is carried if it is known.
unfoldable pub carried :
    (texts : List (Text × Json)) (v : Json)
    → read_as (printed v) texts ≡ ok v
    → trim_newlines (printed v ++ b'\n' ∷ []) ≡ printed v
    → Carried (reading texts) v
unfolding reading
carried texts v is_known one_line = record {
  text = printed v;
  printed = refl;
  read = is_known;
  one_line = one_line;
}

pub answered :
    (texts : List (Text × Json)) (r : Reply)
    → read_as (printed_reply r) texts ≡ ok (reply_value printing r)
    → trim_newlines (printed_reply r ++ b'\n' ∷ []) ≡ printed_reply r
    → Replied (reading texts) r
unfolding reading
answered texts (Reply.success r) is_known one_line = record {
  text = printed_success r;
  printed = refl;
  read = is_known;
  one_line = one_line;
}
answered texts (Reply.failure r) is_known one_line = record {
  text = printed_error r;
  printed = refl;
  read = is_known;
  one_line = one_line;
}

send_request-received_example :
    send_request wire (loopback wire gateway (codes "app.db")) keyed ([], new_arc, []) ≡ (
      ok (committed_response (codes "r1") (some (pos 1))),
      ([], record { accepted = 1; committed = 1; failed = 0; rejected = 0 }, keyed ∷ []),
    )
unfolding text_eq wire known execute_call execute_answer carried decimal received
send_request-received_example =
    send_request-received wire (derived known) gateway (codes "app.db") keyed [] new_arc []
      (omega arith) (carried known execute_call refl refl) (omega arith)
      (answered known execute_answer refl refl)
