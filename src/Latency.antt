-- ===== src/Latency.antt =====
-- The commit latencies kept for the statistics (src/writer.rs, `push_latency`).
pub mod Window
use squeuelite_rs.Common.{ℕ, List, [], ◌∷◌, ◌++◌, length, leb, if◌then◌else◌}

-- `LATENCY_BUF_CAP`
abbrev pub latency_buf_cap : ℕ
latency_buf_cap = 1024

-- `VecDeque::pop_front`
abbrev pub pop_front : List ℕ → List ℕ
pop_front [] = []
pop_front (x ∷ xs) = xs

unfoldable pub push_latency : List ℕ → ℕ → List ℕ
push_latency buf micros =
    (if leb latency_buf_cap (length buf) then pop_front buf else buf) ++ micros ∷ []
