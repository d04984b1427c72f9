-- ===== src/Sidecar.antt =====
-- The Unix-socket transport: one client's connection (src/sidecar.rs, `handle_connection`).
pub mod Lines
pub mod Run
pub mod Life
use squeuelite_rs.Common.{
  ℕ, ◌+◌, ◌*◌, Bool, true, false, List, [], ◌∷◌, ◌++◌, Text, codes, decimal, ltb, ◌==◌,
  if◌then◌else◌,
}
use squeuelite_rs.Json.{Json}
use squeuelite_rs.Stats.{Stats}
use squeuelite_rs.Rpc.{Serde, Handle, err_json, invalid_request}
use squeuelite_rs.Rpc.Dispatch.{dispatch}

-- `MAX_LINE_BYTES`
abbrev pub max_line_bytes : ℕ
max_line_bytes = 1024 * 1024

-- What `read_line` gives: the end of the stream, an error, or a line with its newline.
pub data Read : Type 0 where
  eof io_error : Read
  line : Text → Read

-- `String::len`: the bytes of the text in UTF-8.
abbrev pub utf8_width : ℕ → ℕ
utf8_width c = if ltb c 0x80 then 1 else if ltb c 0x800 then 2 else if ltb c 0x10000 then 3 else 4

abbrev pub utf8_length : Text → ℕ
utf8_length [] = 0
utf8_length (c ∷ s) = utf8_width c + utf8_length s

-- `trim_end_matches('\n')`
abbrev pub after_newlines : ℕ → Text → Text
after_newlines c [] = if c == 10 then [] else c ∷ []
after_newlines c (d ∷ s) = c ∷ d ∷ s

abbrev pub trim_newlines : Text → Text
trim_newlines [] = []
trim_newlines (c ∷ s) = after_newlines c (trim_newlines s)

abbrev pub too_long : ℕ → Text
too_long bytes =
    codes "line too long: "
    ++ (decimal bytes
        ++ (codes " bytes exceeds limit (" ++ (decimal max_line_bytes ++ codes " bytes)")))

module _ {W : Type 0} (serde : Serde) (handle : Handle W) (db_path : Text) where
  -- The replies that were written, and the counters and the gateway after them.
  abbrev pub Served : Type 0
  Served = List Text × Stats × W

  abbrev pub served_first : Text → Served → Served
  served_first reply (replies, stats, w) = (reply ∷ replies, stats, w)

  -- The loop over the reads, each with whether the reply to it can be written.
  unfoldable pub handle_connection : List (Read × Bool) → Stats → W → Served
  unfolding dispatch
  handle_connection [] stats w = ([], stats, w)
  handle_connection ((eof, writes) ∷ reads) stats w = ([], stats, w)
  handle_connection ((io_error, writes) ∷ reads) stats w = ([], stats, w)
  handle_connection ((line buf, writes) ∷ reads) stats w =
      let too_long_reply =
        err_json serde Json.null invalid_request (too_long (utf8_length buf)) ++ b'\n' ∷ [] in
      let (reply, stats', w') = dispatch serde handle db_path (trim_newlines buf) stats w in
      let later = handle_connection reads stats' w' in
      if ltb max_line_bytes (utf8_length buf)
      then ((if writes then too_long_reply ∷ [] else []), stats, w)
      else if writes
      then served_first (reply ++ b'\n' ∷ []) later
      else ([], stats', w')
