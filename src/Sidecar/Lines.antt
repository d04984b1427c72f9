-- ===== src/Sidecar/Lines.antt =====
-- A connection from its first line to its last (src/sidecar.rs, `handle_connection`).
use squeuelite_rs.Common.{
  ℕ, suc, ◌≤◌, ◌<◌, ◌≡◌, refl, Bool, true, false, List, [], ◌∷◌, ◌++◌, Text, length, ltb, arith,
  if◌then◌else◌,
}
use squeuelite_rs.Stats.{Stats}
use squeuelite_rs.Rpc.{Serde, Handle}
use squeuelite_rs.Rpc.Dispatch.{dispatch}
use squeuelite_rs.Rpc.Counters.{Balanced, dispatch-Balanced}
use squeuelite_rs.Sidecar.{
  max_line_bytes, Read, eof, io_error, line, utf8_length, trim_newlines, Served, handle_connection,
}

module _ {W : Type 0} (serde : Serde) (handle : Handle W) (db_path : Text) where
  -- After a line of more than 1 MiB, whatever else the client sends is neither handled nor answered.
  pub handle_connection-closes :
      (before after : List (Read × Bool)) (buf : Text) (writes : Bool) (s : Stats) (w : W)
      → max_line_bytes < utf8_length buf
      → handle_connection serde handle db_path (before ++ (line buf, writes) ∷ after) s w
        ≡ handle_connection serde handle db_path (before ++ (line buf, writes) ∷ []) s w
  unfolding handle_connection
  handle_connection-closes [] after buf writes s w long =
      let over : ltb max_line_bytes (utf8_length buf) ≡ true = ground arith in rw over
  handle_connection-closes ((eof, b) ∷ before) after buf writes s w long = refl
  handle_connection-closes ((io_error, b) ∷ before) after buf writes s w long = refl
  handle_connection-closes ((line first, b) ∷ before) after buf writes s w long =
      let (reply, s', w') = dispatch serde handle db_path (trim_newlines first) s w in
      rw (handle_connection-closes before after buf writes s' w' long)

  -- At most `n` replies, and balanced counters.
  abbrev Good : ℕ → Served serde handle db_path → Type 0
  Good n r = (length r.0 ≤ n) × Balanced r.1

  if-Good :
      (b : Bool) (n : ℕ) (p q : Served serde handle db_path)
      → Good n p
      → Good n q
      → Good n (if b then p else q)
  if-Good true n p q hp hq = hp
  if-Good false n p q hp hq = hq

  if-short : (b : Bool) (n : ℕ) (reply : Text) → 1 ≤ n → length (if b then reply ∷ [] else []) ≤ n
  if-short true n reply h = omega arith
  if-short false n reply h = omega arith

  -- From balanced counters, a connection writes at most one reply for each read, and leaves the
  -- counters balanced, however it ends.
  pub handle_connection-replies :
      (reads : List (Read × Bool)) (s : Stats) (w : W)
      → Balanced s
      → let (replies, s', w') = handle_connection serde handle db_path reads s w in
        (length replies ≤ length reads) × Balanced s'
  unfolding handle_connection
  handle_connection-replies [] s w h = (omega arith, h)
  handle_connection-replies ((eof, b) ∷ reads) s w h = (omega arith, h)
  handle_connection-replies ((io_error, b) ∷ reads) s w h = (omega arith, h)
  handle_connection-replies ((line buf, b) ∷ reads) s w h =
      let (reply, s', w') = dispatch serde handle db_path (trim_newlines buf) s w in
      let kept = dispatch-Balanced serde handle db_path (trim_newlines buf) s w h in
      let (fewer, balanced) = handle_connection-replies reads s' w' kept in
      if-Good (ltb max_line_bytes (utf8_length buf)) (suc (length reads)) _ _
        (if-short b (suc (length reads)) _ (omega arith), h)
        (if-Good b (suc (length reads)) _ _ (omega arith, balanced) (omega arith, kept))
