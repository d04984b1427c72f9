-- ===== src/Tests/Table.antt =====
-- The small database as an instance of the laws of the table of requests.
use squeuelite_rs.Common.{
  ◌≡◌, refl, ap, ◌∙◌, inl, inr, true, false, Option, none, some, List, Text, ok, err, text_eq,
  text_eq_refl, text_eq→eq, Bool-cases, Option-cases,
}
use squeuelite_rs.Common.Int.{ℤ}
use squeuelite_rs.Error.{SqlError}
use squeuelite_rs.Params.{SqlValue}
use squeuelite_rs.Statements.{insert_commit, insert_request}
use squeuelite_rs.Writer.{request_row}
use squeuelite_rs.Spec.Memory.{Row, Table, stored}
use squeuelite_rs.Tests.Database.{
  Db, lookup, found, has, put_row, row_of, put, run_plain, run_sql, query_sql, meaning,
}

-- A statement other than the program's insert leaves the table of requests.
abbrev pub Sparing : Text → Type 0
Sparing sql = text_eq sql insert_request ≡ false

lookup-put_row :
    (key k : Text) (r row : Row) (rows : List (Text × Row))
    → lookup key rows ≡ ok row
    → lookup key (put_row k r rows) ≡ ok row
unfolding put_row lookup
lookup-put_row key k r row rows h = elim (Bool-cases (found (lookup k rows))) [
  | inl there ↦ rw there h
  | inr absent ↦ elim (Bool-cases (text_eq k key)) [
    | inl same ↦
        let e = text_eq→eq k key same in let there : found (lookup k rows) ≡ true = rw (e, h) in cc
    | inr other ↦ rw (absent, other) h
  ]
]

put-none : (ps : List SqlValue) (rows : List (Text × Row)) → row_of ps ≡ none → put ps rows ≡ rows
unfolding put
put-none ps rows e = rw (e, put)

put-some :
    (ps : List SqlValue) (rows : List (Text × Row)) (r : Text × Row)
    → row_of ps ≡ some r
    → put ps rows ≡ put_row r.0 r.1 rows
unfolding put
put-some ps rows r e = rw (e, put)

lookup-put :
    (key : Text) (ps : List SqlValue) (row : Row) (rows : List (Text × Row))
    → lookup key rows ≡ ok row
    → lookup key (put ps rows) ≡ ok row
lookup-put key ps row rows h = elim (Option-cases (row_of ps)) [
  | inl e ↦ ap (lookup key) (put-none ps rows e) ∙ h
  | inr (r, e) ↦ ap (lookup key) (put-some ps rows r e) ∙ lookup-put_row key r.0 r.1 row rows h
]

insert_new :
    (key hash response : Text) (seq : Option ℤ) (x : Db) (e : SqlError)
    → stored meaning key x ≡ err e
    → stored meaning key (run_sql insert_request (request_row key hash response seq) x).1
      ≡ ok (hash, some response)
unfolding query_sql run_sql put row_of put_row lookup
insert_new key hash response seq x e h = rw (h, text_eq_refl key)

insert_keeps :
    (key : Text) (ps : List SqlValue) (x : Db) (row : Row)
    → stored meaning key x ≡ ok row
    → stored meaning key (run_sql insert_request ps x).1 ≡ ok row
unfolding query_sql run_sql
insert_keeps key ps x row h = lookup-put key ps row x.requests h

run_plain-requests : (sql : Text) (x : Db) → (run_plain sql x).1.requests ≡ x.requests
unfolding run_plain
run_plain-requests sql x = elim (Bool-cases (has sql x.log)) [
  | inl e ↦ rw e refl
  | inr e ↦ rw e refl
]

run_sql-requests :
    (sql : Text) (ps : List SqlValue) (x : Db)
    → Sparing sql
    → (run_sql sql ps x).1.requests ≡ x.requests
unfolding run_sql
run_sql-requests sql ps x spares = elim (Bool-cases (text_eq sql insert_commit)) [
  | inl e ↦ rw (spares, e) refl
  | inr e ↦ rw (spares, e) (run_plain-requests sql x)
]

sparing_keeps :
    (key sql : Text) (ps : List SqlValue) (x : Db)
    → Sparing sql
    → stored meaning key (run_sql sql ps x).1 ≡ stored meaning key x
unfolding query_sql
sparing_keeps key sql ps x spares = ap (lookup key) (run_sql-requests sql ps x spares)

commit_spares : Sparing insert_commit
unfolding text_eq
commit_spares = refl

pub table : Table meaning Sparing
table = record {
  insert_new = λ key hash response seq x e n missing h p. insert_new key hash response seq x e h;
  insert_keeps = insert_keeps;
  sparing_keeps = sparing_keeps;
  insert_commit_sparing = commit_spares;
}
