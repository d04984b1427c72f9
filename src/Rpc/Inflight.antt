-- ===== src/Rpc/Inflight.antt =====
-- The counters while several requests are on their way at once: each `execute` counts its request as
-- accepted, awaits the gateway, and counts its end; its handler may be dropped in between, as the one
-- of an HTTP client that goes away (src/jsonrpc.rs, `dispatch_execute`; src/stats.rs).
use squeuelite_rs.Common.{ℕ, ◌+◌, ◌%◌, ◌^◌, ◌≡◌, refl, inl, inr, Result, ok, err, arith}
use squeuelite_rs.Error.{
  Error, sqlite, json, migration, sql_rejected, idempotency_conflict, invalid_param, io, protocol,
  gateway_closed, gateway_overloaded,
}
use squeuelite_rs.Json.{Json}
use squeuelite_rs.Request.{WriteResponse}
use squeuelite_rs.Stats.{Stats, fetch_add, new_arc}
use squeuelite_rs.Rpc.{Serde, Handle}
use squeuelite_rs.Rpc.Execute.{execute_reply}
use squeuelite_rs.Rpc.Counters.{WriteStatus-cases}

-- The counters, how many requests await the gateway, and how many were dropped while they did.
pub record Inflight : Type 0 where
  pub stats : Stats
  pub awaiting : ℕ
  pub dropped : ℕ

abbrev pub ended_count : Stats → ℕ
ended_count s = s.committed + s.failed + s.rejected

abbrev pub IsAccounted : Inflight → Type 0
IsAccounted s = s.stats.accepted % 2 ^ 64 ≡ (ended_count s.stats + s.awaiting + s.dropped) % 2 ^ 64

module _ {W : Type 0} (serde : Serde) (handle : Handle W) where
  -- The part of `dispatch_execute` before the await, the part after it, and the drop.
  pub data Counts (s : Inflight) : Inflight → Type 0 where
    accepts : Counts s (record s {
      stats = record s.stats { accepted = fetch_add s.stats.accepted };
      awaiting = s.awaiting + 1;
    })
    ends :
        (id : Json) (result : Result WriteResponse Error) (others : ℕ)
        → s.awaiting ≡ others + 1
        → Counts s (record s {
          stats = (execute_reply serde handle id s.stats result).1;
          awaiting = others;
        })
    drops :
        (others : ℕ)
        → s.awaiting ≡ others + 1
        → Counts s (record s { awaiting = others; dropped = s.dropped + 1 })

  pub data Counted : Inflight → Type 0 where
    begun : Counted (record { stats = new_arc; awaiting = 0; dropped = 0 })
    then_counts : {s t : Inflight} → Counted s → Counts s t → Counted t

  -- A reply counts one end, whatever the result is, and nothing else.
  abbrev OneMore : Stats → Stats → Type 0
  OneMore s t = (t.accepted ≡ s.accepted) × (ended_count t % 2 ^ 64 ≡ (ended_count s + 1) % 2 ^ 64)

  execute_reply-OneMore :
      (id : Json) (s : Stats) (r : Result WriteResponse Error)
      → OneMore s (execute_reply serde handle id s r).1
  unfolding execute_reply
  execute_reply-OneMore id s (ok resp) = elim (WriteStatus-cases resp.status) [
    | inl e ↦ rw e (refl, omega arith)
    | inr e ↦ rw e (refl, omega arith)
  ]
  execute_reply-OneMore id s (err gateway_overloaded) = (refl, omega arith)
  execute_reply-OneMore id s (err gateway_closed) = (refl, omega arith)
  execute_reply-OneMore id s (err (sqlite e)) = (refl, omega arith)
  execute_reply-OneMore id s (err (json e)) = (refl, omega arith)
  execute_reply-OneMore id s (err (migration e)) = (refl, omega arith)
  execute_reply-OneMore id s (err (sql_rejected e)) = (refl, omega arith)
  execute_reply-OneMore id s (err (idempotency_conflict e)) = (refl, omega arith)
  execute_reply-OneMore id s (err (invalid_param e)) = (refl, omega arith)
  execute_reply-OneMore id s (err (io e)) = (refl, omega arith)
  execute_reply-OneMore id s (err (protocol e)) = (refl, omega arith)

  Counts-IsAccounted : {s t : Inflight} → Counts s t → IsAccounted s → IsAccounted t
  Counts-IsAccounted accepts h = omega arith
  Counts-IsAccounted {s} (ends id result others e) h =
      let (same, more) = execute_reply-OneMore id s.stats result in omega (arith, h, e, same, more)
  Counts-IsAccounted (drops others e) h = omega (arith, h, e)

  -- However the requests interleave: modulo 2 ^ 64, the accepted ones are those that were counted as
  -- committed, failed or rejected, those that await the gateway, and those whose handler was dropped
  -- while it did.
  pub Counted-IsAccounted : (s : Inflight) → Counted s → IsAccounted s
  Counted-IsAccounted s begun = omega arith
  Counted-IsAccounted s (then_counts {s = before} r step) =
      Counts-IsAccounted step (Counted-IsAccounted before r)
