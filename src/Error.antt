-- ===== src/Error.antt =====
-- The library's errors and their messages (src/error.rs).
use squeuelite_rs.Common.{Bool, ◌++◌, Text, codes}

-- An error of the SQLite driver, by what the program reads of it: its message, and whether it is
-- the driver's "query returned no rows".
pub record SqlError : Type 0 where
  pub message : Text
  pub no_rows : Bool

-- A JSON error is read by its message alone.
pub data Error : Type 0 where
  sqlite : SqlError → Error
  json migration sql_rejected idempotency_conflict invalid_param io protocol : Text → Error
  gateway_closed gateway_overloaded : Error

-- `Error::to_string`
unfoldable pub display : Error → Text
display (sqlite e) = codes "sqlite error: " ++ e.message
display (json m) = codes "json error: " ++ m
display (migration m) = codes "migration error: " ++ m
display (sql_rejected m) = codes "sql rejected: " ++ m
display gateway_closed = codes "gateway is closed"
display gateway_overloaded = codes "gateway overloaded"
display (idempotency_conflict k) =
    codes "idempotency conflict: key '"
    ++ (k ++ codes "' already used with a different request hash")
display (invalid_param m) = codes "invalid parameter: " ++ m
display (io m) = codes "io error: " ++ m
display (protocol m) = codes "protocol error: " ++ m
