-- ===== src/Tests/Numbers.antt =====
-- The numbers of commits in the small database.
use squeuelite_rs.Common.{◌≡◌, refl, inl, inr, false, List, Text, text_eq, Bool-cases, arith}
use squeuelite_rs.Params.{SqlValue}
use squeuelite_rs.Statements.{insert_commit, insert_request}
use squeuelite_rs.Driver.Snapshots.{State}
use squeuelite_rs.Writer.{Writer}
use squeuelite_rs.Spec.Numbers.{Numbering}
use squeuelite_rs.Tests.Database.{Db, meaning, has, run_plain, run_sql}
use squeuelite_rs.Tests.Runs.{writer}

abbrev pub Sparing : Text → Type 0
Sparing sql = text_eq sql insert_commit ≡ false

run_plain-commits : (sql : Text) (x : Db) → (run_plain sql x).1.commits ≡ x.commits
unfolding run_plain
run_plain-commits sql x = elim (Bool-cases (has sql x.log)) [
  | inl there ↦ rw (there, run_plain) refl
  | inr absent ↦ rw (absent, run_plain) refl
]

pub run_sql-commits :
    (sql : Text) (ps : List SqlValue) (x : Db)
    → Sparing sql
    → (run_sql sql ps x).1.commits ≡ x.commits
unfolding run_sql
run_sql-commits sql ps x spares = elim (Bool-cases (text_eq sql insert_request)) [
  | inl request ↦ rw (request, run_sql) refl
  | inr other ↦ rw (other, spares, run_sql) (run_plain-commits sql x)
]

unfoldable pub numbering : Numbering meaning Sparing
unfolding run_sql text_eq
numbering = record {
  largest = λ x. x.commits;
  insert_above = λ ps x n inserted. (omega arith, refl);
  sparing_keeps = run_sql-commits;
}

abbrev pub unkeyed : Writer (State Db)
unkeyed = record writer { idempotency = false }
