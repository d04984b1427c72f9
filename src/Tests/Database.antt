-- ===== src/Tests/Database.antt =====
-- A small database with the driver's interface, on which the laws of transactions, savepoints and
-- the table of requests hold.
use squeuelite_rs.Common.{
  ℕ, zero, suc, ◌≡◌, refl, ap, Bool, true, false, Option, none, some, List, [], ◌∷◌, ◌++◌, Text,
  codes, Result, ok, err, text_eq, if◌then◌else◌,
}
use squeuelite_rs.Common.Int.{ℤ, pos}
use squeuelite_rs.Error.{SqlError}
use squeuelite_rs.Params.{SqlValue, text}
use squeuelite_rs.Driver.{Driver}
use squeuelite_rs.Driver.Snapshots.{State, idle, in_tx, in_savepoint, data_of, with_data}
use squeuelite_rs.Driver.Laws.{Semantics}
use squeuelite_rs.Statements.{insert_commit, insert_request, release, rollback}
use squeuelite_rs.Spec.Memory.{Row}

-- The statements run so far, each at most once, the number of commit rows, and the requests.
pub record Db : Type 0 where
  pub log : List Text
  pub commits : ℕ
  pub requests : List (Text × Row)

abbrev pub empty_db : Db
empty_db = record { log = []; commits = 0; requests = [] }

abbrev pub unique_failed : SqlError
unique_failed = record { message = codes "UNIQUE constraint failed"; no_rows = false }

abbrev pub no_such_row : SqlError
no_such_row = record { message = codes "Query returned no rows"; no_rows = true }

unfoldable pub lookup : Text → List (Text × Row) → Result Row SqlError
unfolding text_eq
lookup key [] = err no_such_row
lookup key ((k, row) ∷ rest) = if text_eq k key then ok row else lookup key rest

unfoldable pub has : Text → List Text → Bool
unfolding text_eq
has sql [] = false
has sql (s ∷ rest) = if text_eq s sql then true else has sql rest

abbrev pub found : Result Row SqlError → Bool
found (ok _) = true
found (err _) = false

-- INSERT OR IGNORE
unfoldable pub put_row : Text → Row → List (Text × Row) → List (Text × Row)
unfolding lookup
put_row key row rows = if found (lookup key rows) then rows else (key, row) ∷ rows

unfoldable pub row_of : List SqlValue → Option (Text × Row)
row_of (text key ∷ text hash ∷ text response ∷ seq ∷ []) = some (key, (hash, some response))
row_of ps = none

unfoldable pub put : List SqlValue → List (Text × Row) → List (Text × Row)
unfolding put_row row_of
put ps rows = elim (row_of ps) [ none ↦ rows | some r ↦ put_row r.0 r.1 rows ]

unfoldable pub run_plain : Text → Db → Result ℕ SqlError × Db
unfolding has
run_plain sql x =
    if has sql x.log then (err unique_failed, x) else (ok 1, record x { log = sql ∷ x.log })

unfoldable pub run_sql : Text → List SqlValue → Db → Result ℕ SqlError × Db
unfolding text_eq put run_plain
run_sql sql ps x =
    if text_eq sql insert_request
    then (ok 1, record x { requests = put ps x.requests })
    else if text_eq sql insert_commit
    then (ok 1, record x { commits = suc x.commits })
    else run_plain sql x

unfoldable pub query_sql : Text → List SqlValue → Db → Result Row SqlError
unfolding lookup
query_sql sql (text key ∷ ps) x = lookup key x.requests
query_sql sql ps x = err no_such_row

abbrev pub meaning : Semantics Db
meaning = record {
  prepare = λ sql x. ok tt;
  run = run_sql;
  query = query_sql;
  newest_commit = λ x. pos x.commits;
}

-- The name in `SAVEPOINT name;`.
abbrev skip : ℕ → Text → Text
skip zero s = s
skip (suc n) [] = []
skip (suc n) (c ∷ s) = skip n s

abbrev pub but_last : Text → Text
but_last [] = []
but_last (c ∷ []) = []
but_last (c ∷ d ∷ s) = c ∷ but_last (d ∷ s)

pub but_last-append : (s : Text) (c : ℕ) → but_last (s ++ c ∷ []) ≡ s
but_last-append [] c = refl
but_last-append (d ∷ []) c = refl
but_last-append (d ∷ e ∷ s) c = ap (λ t. d ∷ t) (but_last-append (e ∷ s) c)

abbrev saved_name : Text → Text
saved_name sql = but_last (skip 10 sql)

abbrev Done : Type 0
Done = Result (Unit {0}) SqlError × State Db

abbrev nested_begin : SqlError
nested_begin = record {
  message = codes "cannot start a transaction within a transaction";
  no_rows = false;
}

abbrev no_transaction : SqlError
no_transaction = record {
  message = codes "cannot commit - no transaction is active";
  no_rows = false;
}

abbrev no_savepoint : SqlError
no_savepoint = record { message = codes "no such savepoint"; no_rows = false }

abbrev begin_db : State Db → Done
begin_db (idle x) = (ok tt, in_tx x x)
begin_db (in_tx x o) = (err nested_begin, in_tx x o)
begin_db (in_savepoint n x o p) = (err nested_begin, in_savepoint n x o p)

abbrev commit_db : State Db → Done
commit_db (idle x) = (err no_transaction, idle x)
commit_db (in_tx x o) = (ok tt, idle x)
commit_db (in_savepoint n x o p) = (ok tt, idle x)

abbrev drop_db : State Db → State Db
drop_db (idle x) = idle x
drop_db (in_tx x o) = idle o
drop_db (in_savepoint n x o p) = idle o

unfoldable pub batch_db : Text → State Db → Done
unfolding text_eq
batch_db sql (idle x) = (ok tt, idle x)
batch_db sql (in_tx x o) = (ok tt, in_savepoint (saved_name sql) x o x)
batch_db sql (in_savepoint n x o p) =
    if text_eq sql (rollback n)
    then (ok tt, in_tx p o)
    else if text_eq sql (release n)
    then (ok tt, in_tx x o)
    else (err no_savepoint, in_savepoint n x o p)

unfoldable pub execute_db : Text → List SqlValue → State Db → Result ℕ SqlError × State Db
unfolding run_sql
execute_db sql ps s = ((run_sql sql ps (data_of s)).0, with_data s (run_sql sql ps (data_of s)).1)

abbrev newest : State Db → ℤ
newest s = pos (data_of s).commits

abbrev pub driver : Driver (State Db)
driver = record {
  begin_immediate = begin_db;
  commit = commit_db;
  drop_tx = drop_db;
  prepare_cached = λ sql s. ok tt;
  execute = execute_db;
  execute_batch = batch_db;
  query_row = λ sql ps s. query_sql sql ps (data_of s);
  last_insert_rowid = newest;
  elapsed_micros = λ s. 7;
}
