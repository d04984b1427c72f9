-- ===== src/Tests/Counters.antt =====
-- The counters with two requests at once, of which one finds the gateway closed and one is dropped.
use squeuelite_rs.Common.{refl, err}
use squeuelite_rs.Error.{gateway_closed}
use squeuelite_rs.Json.{Json}
use squeuelite_rs.Stats.{new_arc}
use squeuelite_rs.Rpc.Execute.{execute_reply}
use squeuelite_rs.Rpc.Inflight.{
  Inflight, IsAccounted, accepts, ends, drops, Counted, begun, then_counts, Counted-IsAccounted,
}
use squeuelite_rs.Tests.Transport.{serde, handle}

abbrev last : Inflight
last = record { stats = record new_arc { accepted = 2; rejected = 1 }; awaiting = 0; dropped = 1 }

last-Counted : Counted serde handle last
unfolding execute_reply
last-Counted =
    then_counts
      (then_counts (then_counts (then_counts begun accepts) accepts)
        (ends Json.null (err gateway_closed) 1 refl))
      (drops 0 refl)

Counted-IsAccounted_example : IsAccounted last
Counted-IsAccounted_example = Counted-IsAccounted serde handle last last-Counted
