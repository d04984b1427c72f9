-- ===== src/Sidecar/Life.antt =====
-- The order of a run's calls (src/sidecar.rs, `SidecarGateway::run`).
use squeuelite_rs.Common.{
  ◌≡◌, refl, ap, sym, List, [], ◌∷◌, ◌++◌, Text, Result, ok, err, Result-cases, inl, inr,
}
use squeuelite_rs.Error.{Error, io}
use squeuelite_rs.Effect.{Eff}
use squeuelite_rs.Sidecar.Run.{
  SidecarConfig, Accepted, stream, accept_error, Call, remove_file, bind, set_permissions,
  spawn_connection, accept_loop, run_sidecar, run_uds,
}

-- The streams before the first error.
abbrev pub streams : List Accepted → List Call
streams [] = []
streams (accept_error ∷ arrivals) = []
streams (stream s ∷ arrivals) = spawn_connection s ∷ streams arrivals

-- The calls of a run whose socket is bound, up to the shutdown of the gateway.
abbrev pub bound_calls : SidecarConfig → List Accepted → List Call
bound_calls config arrivals =
    set_permissions config.socket_path config.socket_mode
    ∷ (streams arrivals ++ remove_file config.socket_path ∷ [])

module _ {W : Type 0} (perform : Call → W → Result (Unit {0}) Text × W) where
  -- The calls one after another, whatever each gives.
  unfoldable pub all : List Call → W → W
  all [] w = w
  all (c ∷ calls) w = all calls (perform c w).1

  all-append : (front back : List Call) (w : W) → all (front ++ back) w ≡ all back (all front w)
  unfolding all
  all-append [] back w = refl
  all-append (c ∷ front) back w = all-append front back (perform c w).1

  accept_loop-streams :
      (arrivals : List Accepted) (w : W)
      → accept_loop perform arrivals w ≡ (ok tt, all (streams arrivals) w)
  unfolding accept_loop all
  accept_loop-streams [] w = refl
  accept_loop-streams (accept_error ∷ arrivals) w = refl
  accept_loop-streams (stream s ∷ arrivals) w =
      accept_loop-streams arrivals (perform (spawn_connection s) w).1

  -- What becomes of a run, from what the call of `bind` gave.
  unfoldable pub after_bind :
      Eff W Error (Unit {0})
      → SidecarConfig
      → List Accepted
      → Result (Unit {0}) Text × W
      → Result (Unit {0}) Error × W
  unfolding all
  after_bind shut_down config arrivals (err e, w) = (err (io e), w)
  after_bind shut_down config arrivals (ok _, w) = shut_down (all (bound_calls config arrivals) w)

  -- A run removes a stale socket file and binds the socket. Where that fails the run ends with its
  -- I/O error and makes no other call. Where it succeeds, whatever errors the other calls give, the
  -- run sets the permissions, spawns a task for each stream before the first error of the
  -- listener, removes the socket file, and shuts the gateway down, in that order, and its outcome
  -- is that of the shutdown.
  pub run_sidecar-calls :
      (shut_down : Eff W Error (Unit {0})) (config : SidecarConfig) (arrivals : List Accepted)
      (w : W)
      → run_sidecar perform shut_down config arrivals w
        ≡ after_bind shut_down config arrivals
            (perform (bind config.socket_path) (perform (remove_file config.socket_path) w).1)
  unfolding run_sidecar run_uds all after_bind
  run_sidecar-calls shut_down config arrivals w =
      let bound =
        perform (bind config.socket_path) (perform (remove_file config.socket_path) w).1 in
      elim (Result-cases bound.0) [
        | inr (e, refused) ↦ rw refused refl
        | inl (done, made) ↦
            let w' = (perform (set_permissions config.socket_path config.socket_mode) bound.1).1 in
            rw (made, accept_loop-streams arrivals w')
              (ap shut_down
                (sym (all-append (streams arrivals) (remove_file config.socket_path ∷ []) w')))
      ]
