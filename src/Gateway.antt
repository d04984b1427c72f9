-- ===== src/Gateway.antt =====
-- The in-process gateway's handle: submitting requests to the writer's channel, and the latency
-- statistics (src/inprocess.rs).
pub mod Attached
pub mod Overflow
pub mod Percentile
pub mod Process
use squeuelite_rs.Common.{
  ℕ, zero, suc, ◌+◌, ◌-◌, ◌*◌, ◌/◌, ◌%◌, ◌^◌, Option, none, some, List, [], ◌∷◌, Result, ok, err,
  length, get_elem?, leb, if◌then◌else◌,
}
use squeuelite_rs.Config.{OverflowPolicy, wait, reject, wait_timeout}
use squeuelite_rs.Error.{Error, gateway_closed, gateway_overloaded}
use squeuelite_rs.Request.{WriteRequest, WriteResponse}
use squeuelite_rs.Writer.Batch.{Ticket}
use squeuelite_rs.Writer.Loop.{Command, write, shutdown, checkpoint}

-- `mpsc::error::TrySendError`
pub data TrySendError : Type 0 where
  full closed : TrySendError

-- The bounded channel of tokio, and its one-shot channels, whose two ends are known by a ticket.
-- `W` is the state of the program; an await gives the state in which it is over.
pub record Channel (W : Type 0) : Type 0 where
  pub oneshot : W → Ticket × W
  -- an error is a closed channel
  pub send : Command → W → Result (Unit {0}) (Unit {0}) × W
  pub try_send : Command → W → Result (Unit {0}) TrySendError × W
  -- `timeout(millis, send(command))`: the outer error is the timeout's
  pub send_timeout : ℕ → Command → W → Result (Result (Unit {0}) (Unit {0})) (Unit {0}) × W
  -- an error is a sender that was dropped
  pub response : Ticket → W → Result WriteResponse (Unit {0}) × W
  pub checkpoint_result : Ticket → W → Result (Result (Unit {0}) Error) (Unit {0}) × W
  pub max_capacity : W → ℕ
  pub capacity : W → ℕ
  -- `JoinHandle::join` on the writer's thread; an error is a panic
  pub join : W → Result (Unit {0}) (Unit {0}) × W

abbrev pub closed_error {ℓ} : {A : Type ℓ} → Result A (Unit {0}) → Result A Error
closed_error (ok a) = ok a
closed_error (err _) = err gateway_closed

abbrev pub try_error : Result (Unit {0}) TrySendError → Result (Unit {0}) Error
try_error (ok a) = ok a
try_error (err full) = err gateway_overloaded
try_error (err closed) = err gateway_closed

abbrev pub timeout_error :
    Result (Result (Unit {0}) (Unit {0})) (Unit {0}) → Result (Unit {0}) Error
timeout_error (ok sent) = closed_error sent
timeout_error (err _) = err gateway_overloaded

abbrev pub nested : Result (Result (Unit {0}) Error) (Unit {0}) → Result (Unit {0}) Error
nested (ok result) = result
nested (err _) = err gateway_closed

module _ {W : Type 0} (channel : Channel W) where
  unfoldable pub enqueue : OverflowPolicy → Command → W → Result (Unit {0}) Error × W
  enqueue wait command w = let (sent, w') = channel.send command w in (closed_error sent, w')
  enqueue reject command w = let (sent, w') = channel.try_send command w in (try_error sent, w')
  enqueue (wait_timeout millis) command w =
      let (sent, w') = channel.send_timeout millis command w in (timeout_error sent, w')

  -- `rx.await`, once the command is in the queue.
  unfoldable pub receive : Ticket → Result (Unit {0}) Error × W → Result WriteResponse Error × W
  receive ticket (ok _, w) =
      let (result, w') = channel.response ticket w in (closed_error result, w')
  receive ticket (err e, w) = (err e, w)

  -- `GatewayHandle::execute`
  unfoldable pub submit : OverflowPolicy → WriteRequest → W → Result WriteResponse Error × W
  unfolding enqueue receive
  submit policy request w =
      let (ticket, w') = channel.oneshot w in
      receive ticket (enqueue policy (write request ticket) w')

  unfoldable pub receive_checkpoint :
      Ticket → Result (Unit {0}) (Unit {0}) × W → Result (Unit {0}) Error × W
  receive_checkpoint ticket (ok _, w) =
      let (result, w') = channel.checkpoint_result ticket w in (nested result, w')
  receive_checkpoint ticket (err _, w) = (err gateway_closed, w)

  -- `GatewayHandle::checkpoint`
  unfoldable pub request_checkpoint : W → Result (Unit {0}) Error × W
  unfolding receive_checkpoint
  request_checkpoint w =
      let (ticket, w') = channel.oneshot w in
      receive_checkpoint ticket (channel.send (checkpoint ticket) w')

  -- `GatewayHandle::queue_depth`: a channel never has more room than it was made with.
  unfoldable pub queue_depth : W → ℕ
  queue_depth w = channel.max_capacity w - channel.capacity w

  -- `InProcessGateway::shutdown`, on a gateway whose thread was not joined before. The outcome of
  -- the send is ignored.
  unfoldable pub shut_down : W → Result (Unit {0}) Error × W
  shut_down w =
      let (result, w') = channel.join (channel.send shutdown w).1 in (closed_error result, w')

unfoldable pub insert : ℕ → List ℕ → List ℕ
insert x [] = x ∷ []
insert x (y ∷ ys) = let rest = insert x ys in if leb x y then x ∷ y ∷ ys else y ∷ rest

-- `sort_unstable` on integers.
unfoldable pub sort : List ℕ → List ℕ
unfolding insert
sort [] = []
sort (x ∷ xs) = insert x (sort xs)

-- The sum of u64s, which wraps.
abbrev pub sum : List ℕ → ℕ
sum [] = 0
sum (x ∷ xs) = (x + sum xs) % 2 ^ 64

-- `(n as f64 * 0.95).ceil() as usize`, which has this value for each `n` up to 1024.
abbrev pub ceil_95 : ℕ → ℕ
ceil_95 n = (19 * n + 19) / 20

module _ (quotient : ℕ → ℕ → ℕ) where
  abbrev with_average : ℕ → Option ℕ → Option (ℕ × ℕ)
  with_average avg none = none
  with_average avg (some p95) = some (avg, p95)

  -- `GatewayHandle::latency_snapshot` on the buffer behind the lock. `quotient` is the bits of the
  -- f64 quotient of two integers; `none` is a panic at an index out of range.
  unfoldable pub latency_snapshot : List ℕ → Option (ℕ × ℕ)
  unfolding sort
  latency_snapshot [] = some (0, 0)
  latency_snapshot (x ∷ xs) =
      with_average (quotient (sum (x ∷ xs)) (length (x ∷ xs)))
        (get_elem? (sort (x ∷ xs)) (ceil_95 (length (sort (x ∷ xs))) - 1))
