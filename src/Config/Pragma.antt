-- ===== src/Config/Pragma.antt =====
-- The values of the PRAGMA settings (src/config.rs).
use squeuelite_rs.Common.{Text, codes}

pub data JournalMode : Type 0 where
  wal delete : JournalMode

-- `JournalMode::as_pragma_value`
unfoldable pub journal_value : JournalMode → Text
journal_value wal = codes "WAL"
journal_value delete = codes "DELETE"

pub data SyncMode : Type 0 where
  normal full : SyncMode

-- `SyncMode::as_pragma_value`
unfoldable pub sync_value : SyncMode → Text
sync_value normal = codes "NORMAL"
sync_value full = codes "FULL"
