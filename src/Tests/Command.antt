-- ===== src/Tests/Command.antt =====
-- The binary's command line, the sidecar's run and the standalone client at concrete inputs.
use squeuelite_rs.Common.{
  ◌≡◌, refl, none, some, List, [], ◌∷◌, drop, Text, codes, Result, ok, err, arith, map, inl,
}
use squeuelite_rs.Request.{WriteRequest}
use squeuelite_rs.Rpc.Execute.{execute_params}
use squeuelite_rs.Binary.{Args, parse_args, invalid_socket_mode}
use squeuelite_rs.Binary.Scan.{pairs}
use squeuelite_rs.Binary.Options.{described, parse_args-described}
use squeuelite_rs.Binary.Print.{command_line, parse_args-command_line}
use squeuelite_rs.Sidecar.Run.{
  sidecar_config, stream, accept_error, Call, remove_file, bind, set_permissions, spawn_connection,
  run_sidecar,
}
use squeuelite_rs.Sidecar.Life.{run_sidecar-calls, after_bind, all}
use squeuelite_rs.Client.{execute_value}
use squeuelite_rs.Client.Envelope.{execute_params-execute_value}
use squeuelite_rs.Squeue.{rpc_params}
use squeuelite_rs.Squeue.Request.{sql_and_params, execute_params-rpc_params}
use squeuelite_rs.Tests.Runs.{keyed}

-- The last `--db` counts, an unknown argument is passed over, and the environment's token is empty.
abbrev pub line : List Text
line =
    codes "squeuelite-gateway"
    ∷ codes "--db"
    ∷ codes "a.db"
    ∷ codes "-v"
    ∷ codes "--db"
    ∷ codes "--socket"
    ∷ codes "--http"
    ∷ codes "127.0.0.1:8080"
    ∷ codes "--http-token"
    ∷ codes "t"
    ∷ codes "--socket-mode"
    ∷ []

abbrev pub line_args : Args
line_args = record {
  db_path = codes "--socket";
  socket_path = none;
  socket_mode = none;
  http_addr = some (codes "127.0.0.1:8080");
  http_token = some (codes "t");
}

pub parse_args-line_args : parse_args line (some []) ≡ some (ok line_args)
unfolding parse_args
parse_args-line_args = refl

parse_args_mode :
    parse_args (codes "g" ∷ codes "--socket-mode" ∷ codes "8" ∷ []) none
    ≡ some (err (invalid_socket_mode (codes "8")))
unfolding parse_args
parse_args_mode = refl

parse_args-described_example :
    parse_args line (some []) ≡ some (described (pairs (drop 1 line)) (some []))
parse_args-described_example = parse_args-described line (some [])

abbrev both : Args
both = record {
  db_path = codes "app.db";
  socket_path = some (codes "s.sock");
  socket_mode = some 432;
  http_addr = some (codes "127.0.0.1:8080");
  http_token = none;
}

parse_args-command_line_example : parse_args (command_line both) none ≡ some (ok both)
parse_args-command_line_example = parse_args-command_line both (inl (λ e. cc)) (omega arith)

-- A system that refuses to set permissions, and remembers what it is asked.
abbrev refusing_modes : Call → Result (Unit {0}) Text
refusing_modes (set_permissions path mode) = err (codes "not supported")
refusing_modes c = ok tt

abbrev perform : Call → List Call → Result (Unit {0}) Text × List Call
perform c w = (refusing_modes c, c ∷ w)

run_sidecar-calls_example :
    run_sidecar perform
      (λ w. (ok tt, w))
      (sidecar_config (codes "app.db") (codes "s.sock"))
      (stream 7 ∷ accept_error ∷ stream 8 ∷ [])
      []
    ≡ (
      ok tt,
      remove_file (codes "s.sock")
          ∷ spawn_connection 7
          ∷ set_permissions (codes "s.sock") 384
          ∷ bind (codes "s.sock")
          ∷ remove_file (codes "s.sock")
          ∷ [],
    )
unfolding sidecar_config after_bind all
run_sidecar-calls_example =
    run_sidecar-calls perform (λ w. (ok tt, w)) (sidecar_config (codes "app.db") (codes "s.sock"))
      (stream 7 ∷ accept_error ∷ stream 8 ∷ []) []

execute_params-execute_value_example :
    (request : Text → WriteRequest) × (execute_params (execute_value keyed) ≡ ok request)
    × (request (codes "r1") ≡ keyed)
execute_params-execute_value_example = execute_params-execute_value keyed (omega arith)

execute_params-rpc_params_example :
    (request : Text → WriteRequest) × (execute_params
        (rpc_params (codes "a") (map sql_and_params keyed.operations) (some (codes "k")) none)
      ≡ ok request)
    × (request (codes "r1") ≡ keyed)
execute_params-rpc_params_example = execute_params-rpc_params keyed (omega arith)
