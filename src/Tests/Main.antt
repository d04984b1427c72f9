-- ===== src/Tests/Main.antt =====
-- The exit of the binary at a concrete system.
use squeuelite_rs.Common.{
  ◌≢◌, Option, none, ◌≡◌, ◌↔◌, refl, some, List, [], ◌∷◌, Text, codes, Result, ok, err,
}
use squeuelite_rs.Error.{Error, SqlError, gateway_closed}
use squeuelite_rs.Effect.{Eff}
use squeuelite_rs.Writer.{Writer}
use squeuelite_rs.Startup.{Setup, open_with_config}
use squeuelite_rs.Sidecar.Run.{SidecarConfig, sidecar_config, stream, Call, run_sidecar}
use squeuelite_rs.Sidecar.Life.{all, bound_calls}
use squeuelite_rs.Binary.Mode.{run_mode}
use squeuelite_rs.Binary.Shared.{Runtime, run_shared, run_in, run_main, Faulty, run_main-Faulty}
use squeuelite_rs.Tests.Command.{line, line_args, parse_args-line_args}
use squeuelite_rs.Binary.Main.{returned, panicked, exit, run_only, binding, run_only-returned}

-- A connection and a system that grant everything, and a gateway whose writer has panicked.
abbrev setup : Setup → List Setup → Result (Unit {0}) SqlError × List Setup
setup call done = (ok tt, call ∷ done)

abbrev perform : Call → List Call → Result (Unit {0}) Text × List Call
perform call done = (ok tt, call ∷ done)

abbrev broken : Writer (List Setup) → Eff (List Call) Error (Unit {0})
broken writer w = (err gateway_closed, w)

unfoldable config : SidecarConfig
unfolding sidecar_config
config = sidecar_config (codes "app.db") (codes "s.sock")

broken_exit : (run_only setup perform broken config (ok []) (stream 1 ∷ []) []).0 ≡ exit 1
unfolding run_only open_with_config config run_sidecar
broken_exit = refl

run_only-returned_example :
    ((run_only setup perform broken config (ok []) (stream 1 ∷ []) []).0 ≡ returned) ↔ (
      (writer : Writer (List Setup)) × (open_with_config setup config.gateway (ok []) ≡ ok writer)
      × ((binding setup perform broken config []).0 ≡ ok tt)
      × ((broken writer (
            all perform
              (bound_calls config (stream 1 ∷ []))
              (binding setup perform broken config []).1)).0
          ≡ ok tt))
run_only-returned_example = run_only-returned setup perform broken config (ok []) (stream 1 ∷ []) []

-- A runtime that does nothing but count, and a parser that takes no address.
abbrev runtime : Runtime (Unit {0}) (List Call)
runtime = record { spawn = λ task w. w; wait_for = λ task w. w }

abbrev no_address_parse : Text → Option (Unit {0})
no_address_parse text = none

abbrev one_address : Text → Option (Unit {0})
one_address text = some tt

bad_address :
    (run_main setup perform runtime no_address_parse broken (ok line_args) (ok []) [] []).0 ≡ exit 2
unfolding run_main run_in run_shared run_mode open_with_config
bad_address = refl

-- The shutdown fails, and `main` returns all the same.
returns_anyway :
    (run_main setup perform runtime one_address broken (ok line_args) (ok []) [] []).0 ≡ returned
unfolding run_main run_in run_shared run_mode open_with_config
returns_anyway = refl

run_main-Faulty_example :
    ((run_main setup perform runtime no_address_parse broken (ok line_args) (ok []) [] []).0
      ≢ panicked)
    × (((run_main setup perform runtime no_address_parse broken (ok line_args) (ok []) [] []).0
          ≡ exit 2)
        ↔ Faulty setup perform runtime no_address_parse broken (ok []) (ok line_args))
run_main-Faulty_example =
    run_main-Faulty setup perform runtime no_address_parse broken line (some []) (ok line_args)
      (ok []) [] [] parse_args-line_args
