-- ===== src/Config.antt =====
-- The gateway's configuration (src/config.rs): settings, policies and their defaults.
pub mod Pragma
use squeuelite_rs.Common.{ℕ, Bool, true, false, Option, none, []}
use squeuelite_rs.Common.{Text}
use Pragma.{JournalMode, SyncMode, wal, normal}

pub data OverflowPolicy : Type 0 where
  wait reject : OverflowPolicy
  wait_timeout : ℕ → OverflowPolicy

pub record BatchConfig : Type 0 where
  pub max_size : ℕ
  pub max_delay_micros : ℕ

-- `BatchConfig::default`
abbrev pub default_batch : BatchConfig
default_batch = record { max_size = 64; max_delay_micros = 500 }

pub record GatewayConfig : Type 0 where
  pub db_path : Text
  pub journal_mode : JournalMode
  pub synchronous : SyncMode
  pub queue_capacity : ℕ
  pub track_commits : Bool
  pub busy_timeout_ms : ℕ
  pub foreign_keys : Bool
  pub idempotency : Bool
  pub allow_raw_sql : Bool
  pub allow_schema_write : Bool
  pub allow_delete : Bool
  pub allow_drop : Bool
  pub overflow : OverflowPolicy
  pub batch : Option BatchConfig

-- `GatewayConfig::default`
abbrev pub default_config : GatewayConfig
default_config = record {
  db_path = [];
  journal_mode = wal;
  synchronous = normal;
  queue_capacity = 1024;
  track_commits = true;
  busy_timeout_ms = 5000;
  foreign_keys = true;
  idempotency = true;
  allow_raw_sql = true;
  allow_schema_write = false;
  allow_delete = true;
  allow_drop = false;
  overflow = wait_timeout 5000;
  batch = none;
}

-- `GatewayConfig::new`
abbrev pub new : Text → GatewayConfig
new db_path = record default_config { db_path = db_path }
