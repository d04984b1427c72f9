-- ===== src/Stats.antt =====
-- The gateway's counters and what the statistics report (src/stats.rs).
use squeuelite_rs.Common.{
  ℕ, ◌+◌, ◌%◌, ◌^◌, ◌||◌, Option, none, [], ◌++◌, Text, codes, text_eq, if◌then◌else◌,
}

-- Each an AtomicU64.
pub record Stats : Type 0 where
  pub accepted : ℕ
  pub committed : ℕ
  pub failed : ℕ
  pub rejected : ℕ

-- `Stats::new_arc`
abbrev pub new_arc : Stats
new_arc = record { accepted = 0; committed = 0; failed = 0; rejected = 0 }

-- `fetch_add(1, …)`, which wraps.
abbrev pub fetch_add : ℕ → ℕ
fetch_add n = (n + 1) % 2 ^ 64

-- The average is the bits of an f64.
pub record StatsSnapshot : Type 0 where
  pub accepted : ℕ
  pub committed : ℕ
  pub failed : ℕ
  pub rejected : ℕ
  pub queue_depth : ℕ
  pub queue_capacity : ℕ
  pub current_wal_size_bytes : Option ℕ
  pub avg_commit_latency_micros : ℕ
  pub p95_commit_latency_micros : ℕ

unfoldable pub snapshot : Stats → ℕ → ℕ → Option ℕ → ℕ → ℕ → StatsSnapshot
snapshot stats depth capacity wal avg p95 = record {
  accepted = stats.accepted;
  committed = stats.committed;
  failed = stats.failed;
  rejected = stats.rejected;
  queue_depth = depth;
  queue_capacity = capacity;
  current_wal_size_bytes = wal;
  avg_commit_latency_micros = avg;
  p95_commit_latency_micros = p95;
}

-- `file_size` is the length of a file that can be read, from its path.
unfoldable pub wal_size_bytes : (Text → Option ℕ) → Text → Option ℕ
unfolding text_eq
wal_size_bytes file_size path =
    if text_eq path [] || text_eq path (codes ":memory:")
    then none
    else file_size (path ++ codes "-wal")
