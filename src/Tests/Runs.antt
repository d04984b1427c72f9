-- ===== src/Tests/Runs.antt =====
-- The writer's theorems at concrete requests.
use squeuelite_rs.Common.{
  ◌⊎◌, ◌≡◌, refl, true, false, none, some, List, [], ◌∷◌, codes, ◌≢◌, text_eq, text_eq_iff,
}
use squeuelite_rs.Common.Int.{pos}
use squeuelite_rs.Error.{idempotency_conflict, display}
use squeuelite_rs.Config.{GatewayConfig, default_batch, new}
use squeuelite_rs.Request.{
  failed, WriteRequest, WriteResponse, SqlOperation, committed_response, failed_response,
}
use squeuelite_rs.Validate.{validate_sql}
use squeuelite_rs.Params.{params_from}
use squeuelite_rs.Driver.Snapshots.{State, idle}
use squeuelite_rs.Writer.{Writer, apply, first_rejected, or_empty}
use squeuelite_rs.Writer.Atomic.{apply-failed}
use squeuelite_rs.Writer.Batch.Sequential.{apply_each, apply_batch-eq-apply_each}
use squeuelite_rs.Writer.Refinement.{settings_of, apply-Ends}
use squeuelite_rs.Driver.Refusal.{Refusal}
use squeuelite_rs.Writer.Batch.{Ticket, apply_batch}
use squeuelite_rs.Writer.Batch.Refinement.{BatchRuns, apply_batch-Runs}
use squeuelite_rs.Writer.Loop.{Arrival, ready, late, write, shutdown, checkpoint, run}
use squeuelite_rs.Writer.Loop.Queue.{commands}
use squeuelite_rs.Writer.Loop.Refinement.{Executes, run-Executes}
use squeuelite_rs.Writer.Idempotency.{apply_replay, apply_conflict}
use squeuelite_rs.Writer.Once.{Resent, apply_once}
use squeuelite_rs.Spec.{promised}
use squeuelite_rs.Tests.Database.{
  Db, empty_db, meaning, driver, no_such_row, lookup, query_sql, run_sql, execute_db,
}
use squeuelite_rs.Tests.Laws.{laws, willing}
use squeuelite_rs.Tests.Table.{table}
use squeuelite_rs.Tests.Encoding.{codec, joined, reads_back}

abbrev pub batched : GatewayConfig
batched = record (new (codes "app.db")) { batch = some default_batch }

abbrev pub writer : Writer (State Db)
writer = record {
  conn = idle empty_db;
  track_commits = true;
  idempotency = true;
  config = batched;
  latency_buf = [];
}

abbrev pub insert_one : SqlOperation
insert_one = record { sql = codes "INSERT INTO orders VALUES (1)"; params = [] }

abbrev pub insert_two : SqlOperation
insert_two = record { sql = codes "INSERT INTO orders VALUES (2)"; params = [] }

abbrev pub keyed : WriteRequest
keyed = record {
  request_id = codes "r1";
  actor_id = codes "a";
  run_id = none;
  idempotency_key = some (codes "k");
  operations = insert_one ∷ [];
}

abbrev pub plain_two : WriteRequest
plain_two = record keyed {
  request_id = codes "r2";
  idempotency_key = none;
  operations = insert_two ∷ [];
}

-- It repeats the insert of `keyed`, which the database refuses.
abbrev pub repeated : WriteRequest
repeated = record keyed { request_id = codes "r3"; idempotency_key = none }

abbrev two_requests : List (WriteRequest × Ticket)
two_requests = (keyed, 1) ∷ (repeated, 2) ∷ (plain_two, 3) ∷ []

-- The database after `keyed`, and a writer on it.
abbrev first : WriteResponse
first = committed_response (codes "r1") (some (pos 1))

abbrev used_db : Db
used_db = record {
  log = insert_one.sql ∷ [];
  commits = 1;
  requests =
      (codes "k", (joined keyed.operations, some (or_empty (codec.response_to_string first)))) ∷ [];
}

abbrev used : Writer (State Db)
used = record writer { conn = idle used_db }

-- The key of `keyed` with another operation.
abbrev other_use : WriteRequest
other_use = record keyed { request_id = codes "r4"; operations = insert_two ∷ [] }

other_hash : joined keyed.operations ≢ joined other_use.operations
unfolding joined text_eq
other_hash e =
    let same : false ≡ true =
      (text_eq_iff (joined keyed.operations) (joined other_use.operations)).1 e in
    cc

abbrev pub queue : List Arrival
queue =
    ready (write keyed 1)
    ∷ ready (write repeated 2)
    ∷ ready (write plain_two 3)
    ∷ late (checkpoint 4)
    ∷ ready shutdown
    ∷ []

run-Executes_example :
    Executes laws codec
      (settings_of writer)
      empty_db
      (commands queue)
      (run driver codec writer queue)
unfolding laws
run-Executes_example =
    run-Executes laws codec writer queue empty_db ((tt, tt), ((tt, tt), ((tt, tt), (tt, (tt, tt)))))
      refl

apply_batch-Runs_example :
    BatchRuns laws codec writer two_requests empty_db (apply_batch driver codec writer two_requests)
unfolding laws
apply_batch-Runs_example =
    apply_batch-Runs laws codec writer two_requests empty_db ((tt, tt), ((tt, tt), ((tt, tt), tt)))
      refl

apply_batch-eq-apply_each_example :
    ((apply_batch driver codec writer two_requests).0
      ≡ (apply_each driver codec writer two_requests).0)
    × (laws.state (apply_batch driver codec writer two_requests).1.conn
        ≡ laws.state (apply_each driver codec writer two_requests).1.conn)
unfolding laws
apply_batch-eq-apply_each_example =
    apply_batch-eq-apply_each laws codec willing writer two_requests empty_db
      ((tt, tt), ((tt, tt), ((tt, tt), tt))) refl

apply-Ends_example :
    let q = promised meaning codec (settings_of writer) keyed empty_db in
    let r = apply driver codec writer keyed in
    (settings_of r.1 ≡ settings_of writer)
    × (((laws.state r.1.conn ≡ idle q.1) × (r.0 ≡ q.0))
        ⊎ ((laws.state r.1.conn ≡ idle empty_db) × (r.0.status ≡ failed) × Refusal laws))
unfolding laws
apply-Ends_example = apply-Ends laws codec writer keyed empty_db (tt, tt) refl

apply-failed_example : laws.state (apply driver codec used repeated).1.conn ≡ idle used_db
unfolding laws apply run_sql validate_sql params_from execute_db
apply-failed_example = apply-failed laws codec used repeated used_db (tt, tt) refl refl

apply_replay_example : apply driver codec used keyed ≡ (first, used)
unfolding laws codec first_rejected validate_sql lookup query_sql
apply_replay_example =
    apply_replay laws codec used keyed used_db (codes "k") (joined keyed.operations)
      (or_empty (codec.response_to_string first)) first refl refl refl refl refl refl
      (reads_back first)

apply_conflict_example :
    apply driver codec used other_use
    ≡ (failed_response (codes "r4") (display (idempotency_conflict (codes "k"))), used)
unfolding laws codec first_rejected validate_sql lookup query_sql joined
apply_conflict_example =
    apply_conflict laws codec used other_use used_db (codes "k") (joined other_use.operations)
      (joined keyed.operations) (some (or_empty (codec.response_to_string first))) refl refl refl
      refl refl refl other_hash

apply_once_example :
    Resent laws table codec reads_back keyed
      (apply driver codec writer keyed).0
      (run driver codec (apply driver codec writer keyed).1 queue)
unfolding laws codec first_rejected validate_sql lookup query_sql text_eq apply run_sql params_from
    execute_db
apply_once_example =
    apply_once laws table codec reads_back writer keyed keyed queue empty_db (codes "k")
      (joined keyed.operations) no_such_row (tt, tt) (refl, tt)
      ((tt, tt), ((tt, tt), ((tt, tt), (tt, (tt, tt)))))
      ((refl, tt), ((refl, tt), ((refl, tt), (tt, (tt, tt))))) refl refl refl refl refl refl refl
      refl refl refl
