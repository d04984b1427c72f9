-- ===== src/Rpc/Dispatch.antt =====
-- One request from its text to its reply (src/jsonrpc.rs, `dispatch` and the methods but `execute`).
use squeuelite_rs.Common.{
  Bool, true, false, Option, none, some, ◌++◌, Text, codes, text_eq, Result, ok, err, if◌then◌else◌,
}
use squeuelite_rs.Error.{Error, display}
use squeuelite_rs.Json.{Json, field, end}
use squeuelite_rs.Stats.{Stats, snapshot, wal_size_bytes}
use squeuelite_rs.Rpc.{
  Serde, Handle, RawRequest, ok_json, err_json, parse_error, invalid_request, method_not_found,
  internal_error, write_failed,
}
use squeuelite_rs.Rpc.Execute.{dispatch_execute}

abbrev pub is_array : Json → Bool
is_array (Json.array vs) = true
is_array v = false

abbrev pub status_ok : Json
status_ok = Json.object (field (codes "status") (Json.string (codes "ok")) end)

-- `jsonrpc` is there and says "2.0".
abbrev pub is_two : Option Text → Bool
is_two none = false
is_two (some version) = text_eq version (codes "2.0")

module _ {W : Type 0} (serde : Serde) (handle : Handle W) (db_path : Text) where
  unfoldable pub dispatch_stats : Json → Stats → W → Text
  unfolding snapshot wal_size_bytes
  dispatch_stats id stats w =
      let (avg, p95) = handle.latency_snapshot w in
      let taken =
        snapshot stats (handle.queue_depth w) (handle.queue_capacity w)
          (wal_size_bytes (λ path. handle.file_size path w) db_path) avg p95 in
      elim (serde.snapshot_to_value taken) [
        | ok v ↦ ok_json serde id v
        | err e ↦ err_json serde id internal_error (codes "internal serialize error: " ++ e)
      ]

  unfoldable pub checkpoint_reply : Json → Result (Unit {0}) Error → Text
  checkpoint_reply id (ok _) = ok_json serde id status_ok
  checkpoint_reply id (err e) = err_json serde id write_failed (display e)

  unfoldable pub dispatch_checkpoint : Json → W → Text × W
  unfolding checkpoint_reply
  dispatch_checkpoint id w =
      let (result, w') = handle.checkpoint w in (checkpoint_reply id result, w')

  -- Step 6.
  unfoldable pub dispatch_method : Text → Json → Json → Stats → W → Text × Stats × W
  unfolding text_eq dispatch_execute dispatch_stats dispatch_checkpoint
  dispatch_method method id params stats w =
      if text_eq method (codes "execute")
      then dispatch_execute serde handle id params stats w
      else if text_eq method (codes "stats")
      then (dispatch_stats id stats w, stats, w)
      else if text_eq method (codes "health")
      then (ok_json serde id status_ok, stats, w)
      else if text_eq method (codes "checkpoint")
      then ((dispatch_checkpoint id w).0, stats, (dispatch_checkpoint id w).1)
      else (err_json serde id method_not_found (codes "method not found: " ++ method), stats, w)

  -- Steps 4 and 5.
  unfoldable pub dispatch_request : RawRequest → Stats → W → Text × Stats × W
  unfolding text_eq dispatch_method
  dispatch_request req stats w =
      if is_two req.jsonrpc
      then elim req.method [
        | none ↦
            (err_json serde req.id invalid_request (codes "missing \"method\" field"), stats, w)
        | some method ↦ dispatch_method method req.id req.params stats w
      ]
      else (
        err_json serde req.id invalid_request
            (codes "missing or invalid \"jsonrpc\" field; must be \"2.0\""),
        stats,
        w,
      )

  -- Steps 2 and 3.
  unfoldable pub dispatch_value : Json → Stats → W → Text × Stats × W
  unfolding dispatch_request
  dispatch_value v stats w =
      if is_array v
      then (
        err_json serde Json.null invalid_request
            (codes "JSON-RPC batch arrays are not supported; send one request per line"),
        stats,
        w,
      )
      else elim (serde.raw_request v) [
        | err e ↦ (
          err_json serde Json.null invalid_request (codes "invalid request structure: " ++ e),
          stats,
          w,
        )
        | ok req ↦ dispatch_request req stats w
      ]

  unfoldable pub dispatch : Text → Stats → W → Text × Stats × W
  unfolding dispatch_value
  dispatch line stats w = elim (serde.from_str line) [
    | err e ↦ (err_json serde Json.null parse_error (codes "parse error: " ++ e), stats, w)
    | ok v ↦ dispatch_value v stats w
  ]
