-- ===== src/Statements.antt =====
-- The SQL that the program itself issues, letter by letter (src/writer.rs).
use squeuelite_rs.Common.{ℕ, ◌++◌, Text, codes, decimal}

abbrev pub select_request : Text
select_request =
    codes "SELECT request_hash, response_json FROM squeuelite_requests WHERE idempotency_key = ?1"

abbrev pub insert_commit : Text
insert_commit =
    codes "INSERT INTO squeuelite_commits(request_id, actor_id, run_id) VALUES (?, ?, ?)"

abbrev pub insert_request : Text
insert_request =
    codes
      "INSERT OR IGNORE INTO squeuelite_requests (idempotency_key, request_hash, status, response_json, commit_seq) VALUES (?1, ?2, 'committed', ?3, ?4)"

abbrev pub savepoint : Text → Text
savepoint name = codes "SAVEPOINT " ++ (name ++ codes ";")

abbrev pub release : Text → Text
release name = codes "RELEASE " ++ (name ++ codes ";")

abbrev pub rollback : Text → Text
rollback name = codes "ROLLBACK TO " ++ (name ++ (codes "; RELEASE " ++ (name ++ codes ";")))

-- `format!("sp_{idx}")`
abbrev pub savepoint_name : ℕ → Text
savepoint_name idx = codes "sp_" ++ decimal idx

abbrev pub wal_checkpoint : Text
wal_checkpoint = codes "PRAGMA wal_checkpoint(TRUNCATE);"
