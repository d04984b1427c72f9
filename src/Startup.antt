-- ===== src/Startup.antt =====
-- What the gateway does to its connection before the writer starts (src/writer.rs:
-- `apply_pragmas`, `run_migrations`; src/inprocess.rs: `open_with_config`).
pub mod Order
use squeuelite_rs.Common.{
  ℕ, Bool, true, false, List, [], ◌∷◌, Text, codes, Result, ok, err, map_err, ◌>>=◌,
}
use squeuelite_rs.Config.{GatewayConfig}
use squeuelite_rs.Config.Pragma.{journal_value, sync_value}
use squeuelite_rs.Error.{SqlError, Error, sqlite, migration}
use squeuelite_rs.Writer.{Writer}

-- The calls of rusqlite that set a connection up.
pub data Setup : Type 0 where
  pragma_update_and_check : Text → Text → Setup
  busy_timeout : ℕ → Setup
  pragma_update : Text → Text → Setup
  pragma_update_integer : Text → ℕ → Setup
  execute_batch : Text → Setup

abbrev pub commits_ddl : Text
commits_ddl =
    codes
      "CREATE TABLE IF NOT EXISTS squeuelite_commits (\n                seq          INTEGER PRIMARY KEY AUTOINCREMENT,\n                request_id   TEXT NOT NULL,\n                actor_id     TEXT NOT NULL,\n                run_id       TEXT,\n                committed_at TEXT NOT NULL DEFAULT CURRENT_TIMESTAMP\n            );"

abbrev pub requests_ddl : Text
requests_ddl =
    codes
      "CREATE TABLE IF NOT EXISTS squeuelite_requests (\n                idempotency_key TEXT PRIMARY KEY,\n                request_hash    TEXT NOT NULL,\n                status          TEXT NOT NULL,\n                response_json   TEXT,\n                commit_seq      INTEGER,\n                created_at      TEXT NOT NULL DEFAULT CURRENT_TIMESTAMP,\n                updated_at      TEXT NOT NULL DEFAULT CURRENT_TIMESTAMP\n            );"

abbrev pub flag : Bool → ℕ
flag true = 1
flag false = 0

-- `Writer::new`, with a new latency buffer.
abbrev pub started_writer : {C : Type 0} → GatewayConfig → C → Writer C
started_writer config c = record {
  conn = c;
  track_commits = config.track_commits;
  idempotency = config.idempotency;
  config = config;
  latency_buf = [];
}

-- `perform` makes a call on the connection.
module _ {C : Type 0} (perform : Setup → C → Result (Unit {0}) SqlError × C) where
  -- The next step on what a step gave.
  abbrev pub proceeding :
      {E : Type 0}
      → (C → Result (Unit {0}) E × C)
      → Result (Unit {0}) E × C
      → Result (Unit {0}) E × C
  proceeding next (ok _, c) = next c
  proceeding next (err e, c) = (err e, c)

  abbrev pub attempt : (SqlError → Error) → Setup → C → Result (Unit {0}) Error × C
  attempt wrap call c = let (result, c') = perform call c in (map_err wrap result, c')

  -- The four settings, each with those that follow it.
  abbrev pub set_foreign_keys : GatewayConfig → C → Result (Unit {0}) Error × C
  set_foreign_keys config =
      attempt sqlite (pragma_update_integer (codes "foreign_keys") (flag config.foreign_keys))

  abbrev pub set_synchronous : GatewayConfig → C → Result (Unit {0}) Error × C
  set_synchronous config c =
      proceeding (set_foreign_keys config)
        (attempt sqlite (pragma_update (codes "synchronous") (sync_value config.synchronous)) c)

  abbrev pub set_busy_timeout : GatewayConfig → C → Result (Unit {0}) Error × C
  set_busy_timeout config c =
      proceeding (set_synchronous config) (attempt sqlite (busy_timeout config.busy_timeout_ms) c)

  unfoldable pub apply_pragmas : GatewayConfig → C → Result (Unit {0}) Error × C
  unfolding journal_value sync_value
  apply_pragmas config c = proceeding (set_busy_timeout config) (
      attempt sqlite
        (pragma_update_and_check (codes "journal_mode") (journal_value config.journal_mode)) c)

  abbrev pub migrate : Bool → Text → C → Result (Unit {0}) Error × C
  migrate false ddl c = (ok tt, c)
  migrate true ddl c = attempt (λ e. migration e.message) (execute_batch ddl) c

  unfoldable pub run_migrations : Bool → Bool → C → Result (Unit {0}) Error × C
  run_migrations track idempotency c =
      proceeding (migrate idempotency requests_ddl) (migrate track commits_ddl c)

  -- The writer that is started on the connection.
  abbrev pub started : GatewayConfig → Result (Unit {0}) Error × C → Result (Writer C) Error
  started config (err e, c) = err e
  started config (ok _, c) = ok (started_writer config c)

  -- `InProcessGateway::open_with_config`, from what `Connection::open` gave.
  unfoldable pub open_with_config : GatewayConfig → Result C SqlError → Result (Writer C) Error
  unfolding apply_pragmas run_migrations
  open_with_config config (err e) = err (sqlite e)
  open_with_config config (ok c) =
      started config (
        proceeding (run_migrations config.track_commits config.idempotency)
          (apply_pragmas config c))
