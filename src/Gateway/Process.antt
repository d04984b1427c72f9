-- ===== src/Gateway/Process.antt =====
-- The in-process gateway as an object: opening it, its handles, its shutdown and its drop
-- (src/inprocess.rs).
use squeuelite_rs.Common.{
  ℕ, ◌≡◌, refl, Bool, true, Option, none, some, List, Text, Result, ok, err, if◌then◌else◌,
}
use squeuelite_rs.Config.{GatewayConfig, new, OverflowPolicy}
use squeuelite_rs.Error.{Error, SqlError}
use squeuelite_rs.Request.{WriteRequest, WriteResponse}
use squeuelite_rs.Writer.{Writer}
use squeuelite_rs.Writer.Loop.{shutdown}
use squeuelite_rs.Startup.{Setup, open_with_config}
use squeuelite_rs.Gateway.{Channel, submit, shut_down, latency_snapshot}

-- `is_running` says that the thread was not joined. The latency buffer is shared with the writer and
-- stands in the state of the program.
pub record InProcessGateway (W : Type 0) : Type 0 where
  pub sender : Channel W
  pub is_running : Bool
  pub db_path : Text
  pub overflow : OverflowPolicy

pub record GatewayHandle (W : Type 0) : Type 0 where
  pub sender : Channel W
  pub overflow : OverflowPolicy

-- What becomes of an opening: an error, a panic, or a gateway and its writer, which runs in a thread.
pub data Opening (C W : Type 0) : Type 0 where
  refused : Error → Opening C W
  panicked : Opening C W
  started : InProcessGateway W → Writer C → Opening C W

module _ {W : Type 0} where
  -- `InProcessGateway::handle`
  abbrev pub handle_of : InProcessGateway W → GatewayHandle W
  handle_of gateway = record { sender = gateway.sender; overflow = gateway.overflow }

  -- `InProcessGateway::db_path`
  abbrev pub path_of : InProcessGateway W → Text
  path_of gateway = gateway.db_path

  -- `GatewayHandle::execute`
  abbrev pub execute_on : GatewayHandle W → WriteRequest → W → Result WriteResponse Error × W
  execute_on handle request w = submit handle.sender handle.overflow request w

  -- `GatewayHandle::queue_capacity`
  abbrev pub queue_capacity : GatewayHandle W → W → ℕ
  queue_capacity handle w = handle.sender.max_capacity w

  -- `InProcessGateway::shutdown`; what follows the send is left out on a gateway that was joined.
  unfoldable pub shutdown_gateway : InProcessGateway W → W → Result (Unit {0}) Error × W
  unfolding shut_down
  shutdown_gateway gateway w =
      if gateway.is_running
      then shut_down gateway.sender w
      else (ok tt, (gateway.sender.send shutdown w).1)

module _ {C W : Type 0} where
  -- The gateway on a channel, if that could be made.
  abbrev pub on_channel : GatewayConfig → Writer C → Option (Channel W) → Opening C W
  on_channel config writer none = panicked
  on_channel config writer (some channel) =
      started
        (record {
          sender = channel;
          is_running = true;
          db_path = config.db_path;
          overflow = config.overflow;
        })
        writer

  abbrev pub on_writer :
      (ℕ → Option (Channel W)) → GatewayConfig → Result (Writer C) Error → Opening C W
  on_writer make config (err e) = refused e
  on_writer make config (ok writer) = on_channel config writer (make config.queue_capacity)

  -- `InProcessGateway::open_with_config`. `make` is `mpsc::channel`, by the capacity; `none` is its
  -- panic.
  unfoldable pub open_gateway :
      (Setup → C → Result (Unit {0}) SqlError × C)
      → (ℕ → Option (Channel W))
      → GatewayConfig
      → Result C SqlError
      → Opening C W
  unfolding open_with_config
  open_gateway setup make config connected =
      on_writer make config (open_with_config setup config connected)

  -- `InProcessGateway::open`
  abbrev pub open_path :
      (Setup → C → Result (Unit {0}) SqlError × C)
      → (ℕ → Option (Channel W))
      → Text
      → Result C SqlError
      → Opening C W
  open_path setup make path connected = open_gateway setup make (new path) connected

  -- A capacity that `mpsc::channel` does not take is no error of the opening but a panic, and the
  -- pragmas and tables are set by then.
  open_gateway-panicked :
      (setup : Setup → C → Result (Unit {0}) SqlError × C) (make : ℕ → Option (Channel W))
      (config : GatewayConfig) (connected : Result C SqlError) (writer : Writer C)
      → make config.queue_capacity ≡ none
      → open_with_config setup config connected ≡ ok writer
      → open_gateway setup make config connected ≡ panicked
  unfolding open_gateway
  open_gateway-panicked setup make config connected writer refusing opened =
      rw (opened, refusing) refl

-- `GatewayHandle::latency_snapshot`, from the lock: a poisoned one gives none.
abbrev pub locked_snapshot : (ℕ → ℕ → ℕ) → Option (List ℕ) → Option (ℕ × ℕ)
locked_snapshot quotient none = some (0, 0)
locked_snapshot quotient (some buffer) = latency_snapshot quotient buffer
