-- ===== src/Gateway/Overflow.antt =====
-- What a full queue means for a request, by the overflow policy (src/inprocess.rs, `execute`).
use squeuelite_rs.Common.{◌≡◌, refl, Result, ok, err}
use squeuelite_rs.Config.{OverflowPolicy, wait, reject, wait_timeout}
use squeuelite_rs.Error.{Error, gateway_overloaded}
use squeuelite_rs.Request.{WriteRequest}
use squeuelite_rs.Writer.Batch.{Ticket}
use squeuelite_rs.Writer.Loop.{Command, write}
use squeuelite_rs.Gateway.{
  Channel, TrySendError, full, closed, closed_error, try_error, timeout_error, enqueue, receive,
  submit,
}

module _ {W : Type 0} (channel : Channel W) where
  -- Why a command was not taken: the policy is to reject and the queue was full, or it is to wait
  -- for a time that has passed.
  abbrev pub Overflows : OverflowPolicy → Command → W → Type 0
  Overflows wait command w = ⊥
  Overflows reject command w = (channel.try_send command w).0 ≡ err full
  Overflows (wait_timeout millis) command w = (channel.send_timeout millis command w).0 ≡ err tt

  try-overloaded :
      (r : Result (Unit {0}) TrySendError) → try_error r ≡ err gateway_overloaded → r ≡ err full
  try-overloaded (ok a) h = cc
  try-overloaded (err full) h = refl
  try-overloaded (err closed) h = cc

  closed-overloaded :
      {A : Type 0} (r : Result A (Unit {0})) → closed_error r ≡ err gateway_overloaded → ⊥
  closed-overloaded (ok a) h = cc
  closed-overloaded (err e) h = cc

  timeout-overloaded :
      (r : Result (Result (Unit {0}) (Unit {0})) (Unit {0}))
      → timeout_error r ≡ err gateway_overloaded
      → r ≡ err tt
  timeout-overloaded (ok sent) h = absurd (closed-overloaded sent h)
  timeout-overloaded (err e) h = refl

  enqueue-Overflows :
      (policy : OverflowPolicy) (command : Command) (w : W)
      → (enqueue channel policy command w).0 ≡ err gateway_overloaded
      → Overflows policy command w
  unfolding enqueue
  enqueue-Overflows wait command w h = closed-overloaded (channel.send command w).0 h
  enqueue-Overflows reject command w h = try-overloaded (channel.try_send command w).0 h
  enqueue-Overflows (wait_timeout millis) command w h =
      timeout-overloaded (channel.send_timeout millis command w).0 h

  receive-overloaded :
      (ticket : Ticket) (r : Result (Unit {0}) Error × W)
      → (receive channel ticket r).0 ≡ err gateway_overloaded
      → (r.0 ≡ err gateway_overloaded) × ((receive channel ticket r).1 ≡ r.1)
  unfolding receive
  receive-overloaded ticket (ok a, w) h = absurd (closed-overloaded (channel.response ticket w).0 h)
  receive-overloaded ticket (err e, w) h = (cc, refl)

  -- A request is answered as overloaded only where its policy is to reject and the queue was full,
  -- or its policy has a timeout that has passed; nothing is awaited after that.
  pub submit-overloaded :
      (policy : OverflowPolicy) (request : WriteRequest) (w : W)
      → (submit channel policy request w).0 ≡ err gateway_overloaded
      → let (ticket, w') = channel.oneshot w in
        Overflows policy (write request ticket) w'
        × ((submit channel policy request w).1
            ≡ (enqueue channel policy (write request ticket) w').1)
  unfolding submit
  submit-overloaded policy request w h =
      let (ticket, w') = channel.oneshot w in
      let (refused, same) =
        receive-overloaded ticket (enqueue channel policy (write request ticket) w') h in
      (enqueue-Overflows policy (write request ticket) w' refused, same)
