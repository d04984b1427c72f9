-- ===== src/Sidecar/Run.antt =====
-- The sidecar's life: the socket file, the accept loop and the shutdown (src/sidecar.rs,
-- `SidecarGateway::run` and `accept_loop`; src/bin/squeuelite-gateway.rs, `run_uds_inline`).
use squeuelite_rs.Common.{ℕ, List, [], ◌∷◌, Text, Result, ok, err, map_err}
use squeuelite_rs.Stats.{Stats, new_arc}
use squeuelite_rs.Config.{GatewayConfig, new}
use squeuelite_rs.Error.{Error, io}
use squeuelite_rs.Effect.{Eff, ◌>>◌, pure}

pub record SidecarConfig : Type 0 where
  pub gateway : GatewayConfig
  pub socket_path : Text
  pub socket_mode : ℕ

-- 0o600
abbrev pub owner_only : ℕ
owner_only = 384

-- `SidecarConfig::new`
unfoldable pub sidecar_config : Text → Text → SidecarConfig
sidecar_config db_path socket_path = record {
  gateway = new db_path;
  socket_path = socket_path;
  socket_mode = owner_only;
}

-- The gateway of a sidecar with the path and the mode of its socket. `G` is the in-process gateway.
pub record SidecarGateway (G : Type 0) : Type 0 where
  pub inner : G
  pub socket_path : Text
  pub socket_mode : ℕ

-- `SidecarGateway::open`, by `InProcessGateway::open_with_config`, with new counters.
abbrev pub open_sidecar :
    {G : Type 0}
    → (GatewayConfig → Result G Error)
    → SidecarConfig
    → Result (SidecarGateway G × Stats) Error
open_sidecar open_inner config = elim (open_inner config.gateway) [
  | err e ↦ err e
  | ok inner ↦ ok (
    record { inner = inner; socket_path = config.socket_path; socket_mode = config.socket_mode },
    new_arc,
  )
]

-- What the accept loop gets from the listener before the shutdown resolves: a stream or an error.
pub data Accepted : Type 0 where
  stream : ℕ → Accepted
  accept_error : Accepted

-- What the run asks of the system and of tokio; an error is its message.
pub data Call : Type 0 where
  remove_file bind : Text → Call
  set_permissions : Text → ℕ → Call
  spawn_connection : ℕ → Call

module _ {W : Type 0} (perform : Call → W → Result (Unit {0}) Text × W) where
  -- `let _ = …`, and the warning that is printed where the permissions cannot be set.
  abbrev pub ignoring : Call → Eff W Error (Unit {0})
  ignoring c w = (ok tt, (perform c w).1)

  abbrev pub or_io_error : Call → Eff W Error (Unit {0})
  or_io_error c w = (map_err io (perform c w).0, (perform c w).1)

  -- Until an error, or until the shutdown resolves.
  unfoldable pub accept_loop : List Accepted → Eff W Error (Unit {0})
  accept_loop [] = pure tt
  accept_loop (accept_error ∷ arrivals) = pure tt
  accept_loop (stream s ∷ arrivals) = ignoring (spawn_connection s) >> accept_loop arrivals

  -- `run_uds_inline`, and the run of the sidecar but for its last step.
  unfoldable pub run_uds : Text → ℕ → List Accepted → Eff W Error (Unit {0})
  unfolding accept_loop
  run_uds socket_path socket_mode arrivals = do
    ignoring (remove_file socket_path)
    or_io_error (bind socket_path)
    ignoring (set_permissions socket_path socket_mode)
    accept_loop arrivals
    ignoring (remove_file socket_path)

  -- `SidecarGateway::run`, with `InProcessGateway::shutdown` of its gateway.
  unfoldable pub run_sidecar :
      Eff W Error (Unit {0}) → SidecarConfig → List Accepted → Eff W Error (Unit {0})
  unfolding run_uds
  run_sidecar shut_down config arrivals = do
    run_uds config.socket_path config.socket_mode arrivals
    shut_down
