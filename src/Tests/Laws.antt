-- ===== src/Tests/Laws.antt =====
-- The small database as an instance of the laws of the driver.
use squeuelite_rs.Common.{◌≡◌, refl, ap, ◌∙◌, List, Text, Result, ok, err, text_eq_refl}
use squeuelite_rs.Error.{SqlError}
use squeuelite_rs.Params.{SqlValue}
use squeuelite_rs.Driver.Snapshots.{State, idle, in_tx, in_savepoint, data_of, with_data}
use squeuelite_rs.Driver.Laws.{Laws}
use squeuelite_rs.Driver.Refusal.{Willing}
use squeuelite_rs.Statements.{insert_commit, savepoint, release, rollback, wal_checkpoint}
use squeuelite_rs.Tests.Database.{
  Db, run_sql, meaning, driver, batch_db, execute_db, but_last-append,
}

-- No statement of the small database ends a transaction.
abbrev pub IsPlain : Text → Type 0
IsPlain sql = Unit {0}

abbrev St : Type 0
St = State Db

pub drop_back : (c : St) (x o : Db) → c ≡ in_tx x o → driver.drop_tx c ≡ idle o
drop_back c x o h = ap driver.drop_tx h

pub begin_ok : (c : St) (x : Db) → c ≡ idle x → (driver.begin_immediate c).1 ≡ in_tx x x
begin_ok c x h = ap (λ s. (driver.begin_immediate s).1) h

pub begins : (c : St) (x : Db) → c ≡ idle x → (driver.begin_immediate c).0 ≡ ok tt
begins c x h = ap (λ s. (driver.begin_immediate s).0) h

pub commits : (c : St) (x o : Db) → c ≡ in_tx x o → (driver.commit c).0 ≡ ok tt
commits c x o h = ap (λ s. (driver.commit s).0) h

pub saves :
    (c : St) (name : Text) (x o : Db) → c ≡ in_tx x o → (batch_db (savepoint name) c).0 ≡ ok tt
unfolding batch_db
saves c name x o h = ap (λ s. (batch_db (savepoint name) s).0) h

pub lets_go :
    (c : St) (name : Text) (x o p : Db)
    → c ≡ in_savepoint name x o p
    → (batch_db (release name) c).0 ≡ ok tt
unfolding batch_db
lets_go c name x o p h =
    ap (λ s. (batch_db (release name) s).0) h ∙ rw (text_eq_refl (release name)) refl

pub commit_ok : (c : St) (x o : Db) → c ≡ in_tx x o → (driver.commit c).1 ≡ idle x
commit_ok c x o h = ap (λ s. (driver.commit s).1) h

pub savepoint_ok :
    (c : St) (name : Text) (x o : Db)
    → c ≡ in_tx x o
    → (batch_db (savepoint name) c).1 ≡ in_savepoint name x o x
unfolding batch_db
savepoint_ok c name x o h =
    ap (λ s. (batch_db (savepoint name) s).1) h
    ∙ ap (λ n. in_savepoint n x o x) (but_last-append name b';')

pub release_ok :
    (c : St) (name : Text) (x o p : Db)
    → c ≡ in_savepoint name x o p
    → (batch_db (release name) c).1 ≡ in_tx x o
unfolding batch_db
release_ok c name x o p h =
    ap (λ s. (batch_db (release name) s).1) h ∙ rw (text_eq_refl (release name)) refl

pub rollback_back :
    (c : St) (name : Text) (x o p : Db)
    → c ≡ in_savepoint name x o p
    → (batch_db (rollback name) c).1 ≡ in_tx p o
unfolding batch_db
rollback_back c name x o p h =
    ap (λ s. (batch_db (rollback name) s).1) h ∙ rw (text_eq_refl (rollback name)) refl

pub checkpoint_same : (c : St) (x : Db) → c ≡ idle x → (batch_db wal_checkpoint c).1 ≡ idle x
unfolding batch_db
checkpoint_same c x h = ap (λ s. (batch_db wal_checkpoint s).1) h

pub refused :
    {A : Type 0} (r : Result (Unit {0}) SqlError) (e : SqlError) → r ≡ ok tt → r ≡ err e → A
refused r e h p = cc

pub inserted_commit :
    (c : St) (ps : List SqlValue)
    → driver.last_insert_rowid (execute_db insert_commit ps c).1
      ≡ meaning.newest_commit (run_sql insert_commit ps (data_of c)).1
unfolding execute_db run_sql
inserted_commit (idle x) ps = refl
inserted_commit (in_tx x o) ps = refl
inserted_commit (in_savepoint n x o p) ps = refl

pub executes :
    (c : St) (sql : Text) (ps : List SqlValue)
    → (execute_db sql ps c).0 ≡ (run_sql sql ps (data_of c)).0
unfolding execute_db
executes c sql ps = refl

pub executes_state :
    (c : St) (sql : Text) (ps : List SqlValue)
    → (execute_db sql ps c).1 ≡ with_data c (run_sql sql ps (data_of c)).1
unfolding execute_db
executes_state c sql ps = refl

unfoldable pub laws : Laws driver meaning IsPlain
laws = record {
  state = λ c. c;
  begin_ok = λ c x h p. begin_ok c x h;
  begin_err = λ c x e h p. refused _ e (begins c x h) p;
  commit_ok = λ c x o h p. commit_ok c x o h;
  commit_err = λ c x o e h p. refused _ e (commits c x o h) p;
  drop_back = drop_back;
  savepoint_ok = λ c name x o h p. savepoint_ok c name x o h;
  savepoint_err = λ c name x o e h p. refused _ e (saves c name x o h) p;
  release_ok = λ c name x o q h p. release_ok c name x o q h;
  release_err = λ c name x o q e h p. refused _ e (lets_go c name x o q h) p;
  rollback_back = rollback_back;
  checkpoint_same = checkpoint_same;
  prepare_eq = λ c sql. refl;
  query_eq = λ c sql ps. refl;
  execute_eq = λ c sql ps plain at. executes c sql ps;
  execute_state = λ c sql ps plain at. executes_state c sql ps;
  rowid_eq = λ c ps n at p. inserted_commit c ps;
  insert_commit_plain = tt;
  insert_request_plain = tt;
}

abbrev pub willing : Willing laws
unfolding laws
willing = record { begins = begins; commits = commits; saves = saves; lets_go = lets_go }
