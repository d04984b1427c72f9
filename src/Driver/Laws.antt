-- ===== src/Driver/Laws.antt =====
-- What the program relies on in SQLite: transactions and savepoints as snapshots of the data, and
-- statements that act on the data alone.
use squeuelite_rs.Common.{ℕ, ◌≡◌, Option, List, Text, Result, ok, err}
use squeuelite_rs.Common.Int.{ℤ}
use squeuelite_rs.Error.{SqlError}
use squeuelite_rs.Params.{SqlValue}
use squeuelite_rs.Statements.{
  insert_commit, insert_request, savepoint, release, rollback, wal_checkpoint,
}
use squeuelite_rs.Driver.{Driver}
use squeuelite_rs.Driver.Snapshots.{State, idle, in_tx, in_savepoint, data_of, with_data, IsOpen}

-- What the statements mean on the data.
pub record Semantics (D : Type 0) : Type 0 where
  pub prepare : Text → D → Result (Unit {0}) SqlError
  pub run : Text → List SqlValue → D → Result ℕ SqlError × D
  pub query : Text → List SqlValue → D → Result (Text × Option Text) SqlError
  -- the rowid of the row that INSERT last put into `squeuelite_commits`
  pub newest_commit : D → ℤ

-- `IsPlain sql` says that the statement leaves transaction and savepoints alone whatever its
-- outcome: it is no transaction control and does not raise ROLLBACK.
pub record Laws {C D : Type 0} (driver : Driver C) (meaning : Semantics D) (IsPlain : Text → Type 0)
    : Type 0 where
  pub state : C → State D
  -- BEGIN IMMEDIATE takes a snapshot, or changes nothing.
  pub begin_ok :
      (c : C) (x : D)
      → state c ≡ idle x
      → (driver.begin_immediate c).0 ≡ ok tt
      → state (driver.begin_immediate c).1 ≡ in_tx x x
  pub begin_err :
      (c : C) (x : D) (e : SqlError)
      → state c ≡ idle x
      → (driver.begin_immediate c).0 ≡ err e
      → state (driver.begin_immediate c).1 ≡ idle x
  -- COMMIT keeps the data; a failed one, and a dropped transaction, go back to the snapshot.
  pub commit_ok :
      (c : C) (x o : D)
      → state c ≡ in_tx x o
      → (driver.commit c).0 ≡ ok tt
      → state (driver.commit c).1 ≡ idle x
  pub commit_err :
      (c : C) (x o : D) (e : SqlError)
      → state c ≡ in_tx x o
      → (driver.commit c).0 ≡ err e
      → state (driver.commit c).1 ≡ idle o
  pub drop_back : (c : C) (x o : D) → state c ≡ in_tx x o → state (driver.drop_tx c) ≡ idle o
  -- SAVEPOINT, RELEASE, and ROLLBACK TO followed by RELEASE.
  pub savepoint_ok :
      (c : C) (name : Text) (x o : D)
      → state c ≡ in_tx x o
      → (driver.execute_batch (savepoint name) c).0 ≡ ok tt
      → state (driver.execute_batch (savepoint name) c).1 ≡ in_savepoint name x o x
  pub savepoint_err :
      (c : C) (name : Text) (x o : D) (e : SqlError)
      → state c ≡ in_tx x o
      → (driver.execute_batch (savepoint name) c).0 ≡ err e
      → state (driver.execute_batch (savepoint name) c).1 ≡ in_tx x o
  pub release_ok :
      (c : C) (name : Text) (x o p : D)
      → state c ≡ in_savepoint name x o p
      → (driver.execute_batch (release name) c).0 ≡ ok tt
      → state (driver.execute_batch (release name) c).1 ≡ in_tx x o
  pub release_err :
      (c : C) (name : Text) (x o p : D) (e : SqlError)
      → state c ≡ in_savepoint name x o p
      → (driver.execute_batch (release name) c).0 ≡ err e
      → state (driver.execute_batch (release name) c).1 ≡ in_savepoint name x o p
  pub rollback_back :
      (c : C) (name : Text) (x o p : D)
      → state c ≡ in_savepoint name x o p
      → state (driver.execute_batch (rollback name) c).1 ≡ in_tx p o
  -- A checkpoint moves the log into the file and leaves the data.
  pub checkpoint_same :
      (c : C) (x : D) → state c ≡ idle x → state (driver.execute_batch wal_checkpoint c).1 ≡ idle x
  -- Compiling and reading see the data; a plain statement acts on it inside the transaction.
  pub prepare_eq :
      (c : C) (sql : Text) → driver.prepare_cached sql c ≡ meaning.prepare sql (data_of (state c))
  pub query_eq :
      (c : C) (sql : Text) (ps : List SqlValue)
      → driver.query_row sql ps c ≡ meaning.query sql ps (data_of (state c))
  pub execute_eq :
      (c : C) (sql : Text) (ps : List SqlValue)
      → IsPlain sql
      → IsOpen (state c)
      → (driver.execute sql ps c).0 ≡ (meaning.run sql ps (data_of (state c))).0
  pub execute_state :
      (c : C) (sql : Text) (ps : List SqlValue)
      → IsPlain sql
      → IsOpen (state c)
      → state (driver.execute sql ps c).1
        ≡ with_data (state c) (meaning.run sql ps (data_of (state c))).1
  -- The rowid that is read after a successful insert of a commit row.
  pub rowid_eq :
      (c : C) (ps : List SqlValue) (n : ℕ)
      → IsOpen (state c)
      → (driver.execute insert_commit ps c).0 ≡ ok n
      → driver.last_insert_rowid (driver.execute insert_commit ps c).1
        ≡ meaning.newest_commit (meaning.run insert_commit ps (data_of (state c))).1
  -- The program's own inserts are plain.
  pub insert_commit_plain : IsPlain insert_commit
  pub insert_request_plain : IsPlain insert_request
