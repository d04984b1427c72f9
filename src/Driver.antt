-- ===== src/Driver.antt =====
-- The SQLite driver, rusqlite, as an interface: what the program calls on its one connection.
pub mod Snapshots
pub mod Laws
pub mod Refusal
use squeuelite_rs.Common.{ℕ, Option, List, Text, Result}
use squeuelite_rs.Common.Int.{ℤ}
use squeuelite_rs.Error.{SqlError}
use squeuelite_rs.Params.{SqlValue}

-- `C` is the connection with whatever it reads of the world: the database file, the open
-- transaction, the clock. A prepared statement is its text, and a call that may change the
-- connection gives the connection that it leaves behind.
pub record Driver (C : Type 0) : Type 0 where
  -- `transaction_with_behavior(TransactionBehavior::Immediate)`
  pub begin_immediate : C → Result (Unit {0}) SqlError × C
  -- `tx.commit()`, which consumes the transaction also when it fails
  pub commit : C → Result (Unit {0}) SqlError × C
  -- a transaction that goes out of scope uncommitted
  pub drop_tx : C → C
  pub prepare_cached : Text → C → Result (Unit {0}) SqlError
  pub execute : Text → List SqlValue → C → Result ℕ SqlError × C
  pub execute_batch : Text → C → Result (Unit {0}) SqlError × C
  -- `query_row` with the two columns that the program reads
  pub query_row : Text → List SqlValue → C → Result (Text × Option Text) SqlError
  pub last_insert_rowid : C → ℤ
  -- `start.elapsed().as_micros()`, read when a commit has left the connection so
  pub elapsed_micros : C → ℕ
