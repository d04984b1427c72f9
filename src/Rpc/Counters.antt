-- ===== src/Rpc/Counters.antt =====
-- The counters over the requests that the dispatcher handles (src/jsonrpc.rs, src/stats.rs).
use squeuelite_rs.Common.{
  ◌+◌, ◌%◌, ◌^◌, ◌≡◌, refl, inl, inr, ◌⊎◌, Bool, true, false, Text, codes, text_eq, Result, ok, err,
  Option-cases, Result-cases, arith, if◌then◌else◌,
}
use squeuelite_rs.Error.{
  Error, sqlite, json, migration, sql_rejected, idempotency_conflict, invalid_param, io, protocol,
  gateway_closed, gateway_overloaded,
}
use squeuelite_rs.Json.{Json}
use squeuelite_rs.Request.{WriteStatus, WriteResponse, committed, failed}
use squeuelite_rs.Stats.{Stats, fetch_add}
use squeuelite_rs.Rpc.{Serde, Handle, RawRequest}
use squeuelite_rs.Rpc.Execute.{execute_params, execute_reply, dispatch_execute}
use squeuelite_rs.Rpc.Dispatch.{
  is_array, is_two, dispatch_method, dispatch_request, dispatch_value, dispatch,
}

-- Every request that was accepted has been counted once more, by how it ended; modulo the width.
abbrev pub Balanced : Stats → Type 0
Balanced s = s.accepted % 2 ^ 64 ≡ (s.committed + s.failed + s.rejected) % 2 ^ 64

pub WriteStatus-cases : (s : WriteStatus) → (s ≡ committed) ⊎ (s ≡ failed)
WriteStatus-cases committed = inl refl
WriteStatus-cases failed = inr refl

module _ {W : Type 0} (serde : Serde) (handle : Handle W) where
  execute_reply-Balanced :
      (id : Json) (s : Stats) (r : Result WriteResponse Error)
      → Balanced s
      → Balanced (execute_reply serde handle id (record s { accepted = fetch_add s.accepted }) r).1
  unfolding execute_reply
  execute_reply-Balanced id s (ok resp) h = elim (WriteStatus-cases resp.status) [
    | inl e ↦ rw e (omega arith)
    | inr e ↦ rw e (omega arith)
  ]
  execute_reply-Balanced id s (err gateway_overloaded) h = omega arith
  execute_reply-Balanced id s (err gateway_closed) h = omega arith
  execute_reply-Balanced id s (err (sqlite e)) h = omega arith
  execute_reply-Balanced id s (err (json e)) h = omega arith
  execute_reply-Balanced id s (err (migration e)) h = omega arith
  execute_reply-Balanced id s (err (sql_rejected e)) h = omega arith
  execute_reply-Balanced id s (err (idempotency_conflict e)) h = omega arith
  execute_reply-Balanced id s (err (invalid_param e)) h = omega arith
  execute_reply-Balanced id s (err (io e)) h = omega arith
  execute_reply-Balanced id s (err (protocol e)) h = omega arith

  -- A reply keeps the balance.
  abbrev Keeps : Text × Stats × W → Type 0
  Keeps r = Balanced r.1

  if-Keeps : (b : Bool) (p q : Text × Stats × W) → Keeps p → Keeps q → Keeps (if b then p else q)
  if-Keeps true p q hp hq = hp
  if-Keeps false p q hp hq = hq

  dispatch_execute-Balanced :
      (id params : Json) (s : Stats) (w : W)
      → Balanced s
      → Keeps (dispatch_execute serde handle id params s w)
  unfolding dispatch_execute
  dispatch_execute-Balanced id params s w h = elim (Result-cases (execute_params params)) [
    | inl (request, e) ↦ rw (e, dispatch_execute) (execute_reply-Balanced id s _ h)
    | inr (m, e) ↦ rw (e, dispatch_execute) h
  ]

  module _ (db_path : Text) where
    dispatch_method-Balanced :
        (method : Text) (id params : Json) (s : Stats) (w : W)
        → Balanced s
        → Keeps (dispatch_method serde handle db_path method id params s w)
    unfolding dispatch_method
    dispatch_method-Balanced method id params s w h =
        if-Keeps (text_eq method (codes "execute")) _ _ (dispatch_execute-Balanced id params s w h)
          (if-Keeps (text_eq method (codes "stats")) _ _ h (
            if-Keeps (text_eq method (codes "health")) _ _ h
              (if-Keeps (text_eq method (codes "checkpoint")) _ _ h h)))

    dispatch_request-Balanced :
        (req : RawRequest) (s : Stats) (w : W)
        → Balanced s
        → Keeps (dispatch_request serde handle db_path req s w)
    unfolding dispatch_request
    dispatch_request-Balanced req s w h = elim (Option-cases req.method) [
      | inl e ↦ rw e (if-Keeps (is_two req.jsonrpc) _ _ h h)
      | inr (method, e) ↦ rw e (
          if-Keeps (is_two req.jsonrpc) _ _
            (dispatch_method-Balanced method req.id req.params s w h) h)
    ]

    dispatch_value-Balanced :
        (v : Json) (s : Stats) (w : W)
        → Balanced s
        → Keeps (dispatch_value serde handle db_path v s w)
    unfolding dispatch_value
    dispatch_value-Balanced v s w h = elim (Result-cases (serde.raw_request v)) [
      | inl (req, e) ↦ rw e (if-Keeps (is_array v) _ _ h (dispatch_request-Balanced req s w h))
      | inr (m, e) ↦ rw e (if-Keeps (is_array v) _ _ h h)
    ]

    -- Handling one request after the other keeps the accepted requests equal to those counted as
    -- committed, failed or rejected, modulo 2 ^ 64, whatever the request is and however it ends.
    pub dispatch-Balanced :
        (line : Text) (s : Stats) (w : W)
        → Balanced s
        → Balanced (dispatch serde handle db_path line s w).1
    unfolding dispatch
    dispatch-Balanced line s w h = elim (Result-cases (serde.from_str line)) [
      | inl (v, e) ↦ rw (e, dispatch) (dispatch_value-Balanced v s w h)
      | inr (m, e) ↦ rw (e, dispatch) h
    ]
