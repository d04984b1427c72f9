-- ===== src/Binary/Main.antt =====
-- The first case of `main`: a sidecar with its own gateway, from opening it to the exit code
-- (src/bin/squeuelite-gateway.rs).
use squeuelite_rs.Common.{
  ℕ, ◌≡◌, ◌↔◌, refl, sym, ap, ◌∙◌, List, Text, Result, ok, err, ok_subst, inl, inr, ◌⊎◌,
}
use squeuelite_rs.Error.{Error, SqlError}
use squeuelite_rs.Effect.{Eff}
use squeuelite_rs.Writer.{Writer}
use squeuelite_rs.Startup.{Setup, open_with_config}
use squeuelite_rs.Sidecar.Run.{SidecarConfig, Accepted, Call, remove_file, bind, run_sidecar}
use squeuelite_rs.Sidecar.Life.{all, bound_calls, after_bind, run_sidecar-calls}

-- `main` returns or panics, or the process exits with a code.
pub data Exit : Type 0 where
  returned panicked : Exit
  exit : ℕ → Exit

-- `setup` and `perform` make the calls on the connection and on the system, `connected` is what
-- `Connection::open` gave, and `shut_down` is `InProcessGateway::shutdown` of a gateway.
module _ {C W : Type 0} (setup : Setup → C → Result (Unit {0}) SqlError × C)
    (perform : Call → W → Result (Unit {0}) Text × W)
    (shut_down : Writer C → Eff W Error (Unit {0})) where
  abbrev pub exit_of : Result (Unit {0}) Error × W → Exit × W
  exit_of (ok _, w) = (returned, w)
  exit_of (err e, w) = (exit 1, w)

  abbrev pub run_opened : SidecarConfig → List Accepted → W → Result (Writer C) Error → Exit × W
  run_opened config arrivals w (err e) = (exit 1, w)
  run_opened config arrivals w (ok writer) =
      exit_of (run_sidecar perform (shut_down writer) config arrivals w)

  -- `SidecarGateway::open` and the run.
  unfoldable pub run_only : SidecarConfig → Result C SqlError → List Accepted → W → Exit × W
  unfolding open_with_config
  run_only config connected arrivals w =
      run_opened config arrivals w (open_with_config setup config.gateway connected)

  -- The state in which the socket is bound, or not.
  abbrev pub binding : SidecarConfig → W → Result (Unit {0}) Text × W
  binding config w =
      perform (bind config.socket_path) (perform (remove_file config.socket_path) w).1

  exit_of-returned : (r : Result (Unit {0}) Error × W) → ((exit_of r).0 ≡ returned) ↔ (r.0 ≡ ok tt)
  exit_of-returned (ok _, w) = (λ h. refl, λ h. refl)
  exit_of-returned (err e, w) = (λ h. cc, λ h. cc)

  after_bind-returned :
      (config : SidecarConfig) (arrivals : List Accepted) (writer : Writer C)
      (b : Result (Unit {0}) Text × W)
      → ((exit_of (after_bind perform (shut_down writer) config arrivals b)).0 ≡ returned) ↔ (
          (b.0 ≡ ok tt)
          × ((shut_down writer (all perform (bound_calls config arrivals) b.1)).0 ≡ ok tt))
  unfolding after_bind
  after_bind-returned config arrivals writer (err e, w) = (λ h. cc, λ (bound, done). cc)
  after_bind-returned config arrivals writer (ok _, w) =
      let (to, from) =
        exit_of-returned (shut_down writer (all perform (bound_calls config arrivals) w)) in
      (λ h. (refl, to h), λ (bound, done). from done)

  -- What has to be so for `main` to return.
  abbrev pub Returns : SidecarConfig → List Accepted → W → Result (Writer C) Error → Type 0
  Returns config arrivals w opened =
      (writer : Writer C) × (opened ≡ ok writer)
      × ((binding config w).0 ≡ ok tt)
      × ((shut_down writer (all perform (bound_calls config arrivals) (binding config w).1)).0
          ≡ ok tt)

  run_opened-returned :
      (config : SidecarConfig) (arrivals : List Accepted) (w : W) (opened : Result (Writer C) Error)
      → ((run_opened config arrivals w opened).0 ≡ returned) ↔ Returns config arrivals w opened
  run_opened-returned config arrivals w (err e) = (λ h. cc, λ (writer, absent, bound, done). cc)
  run_opened-returned config arrivals w (ok writer) =
      let calls =
        ap (λ r. (exit_of r).0) (run_sidecar-calls perform (shut_down writer) config arrivals w) in
      let (to, from) = after_bind-returned config arrivals writer (binding config w) in
      (
        λ h. let (bound, done) = to (sym calls ∙ h) in (writer, refl, bound, done),
        λ (other, same, bound, done).
            calls
            ∙ from (
              bound,
              ok_subst
                  (λ (v : Writer C).
                    (shut_down v (all perform (bound_calls config arrivals) (binding config w).1)).0
                    ≡ ok tt)
                  (sym same) done,
            ),
      )

  -- In its first case `main` returns exactly where the gateway opens, the socket is bound, and the
  -- shutdown of the gateway succeeds, on the state that is left when the listener has failed or was
  -- told to stop and the socket file was removed.
  pub run_only-returned :
      (config : SidecarConfig) (connected : Result C SqlError) (arrivals : List Accepted) (w : W)
      → ((run_only config connected arrivals w).0 ≡ returned) ↔ (
          (writer : Writer C) × (open_with_config setup config.gateway connected ≡ ok writer)
          × ((binding config w).0 ≡ ok tt)
          × ((shut_down writer (all perform (bound_calls config arrivals) (binding config w).1)).0
              ≡ ok tt))
  unfolding run_only
  run_only-returned config connected arrivals w =
      run_opened-returned config arrivals w (open_with_config setup config.gateway connected)

  -- Its first case ends so or with exit code 1.
  exit_of-cases :
      (r : Result (Unit {0}) Error × W) → ((exit_of r).0 ≡ returned) ⊎ ((exit_of r).0 ≡ exit 1)
  exit_of-cases (ok _, w) = inl refl
  exit_of-cases (err e, w) = inr refl

  run_opened-cases :
      (config : SidecarConfig) (arrivals : List Accepted) (w : W) (opened : Result (Writer C) Error)
      → ((run_opened config arrivals w opened).0 ≡ returned)
        ⊎ ((run_opened config arrivals w opened).0 ≡ exit 1)
  run_opened-cases config arrivals w (err e) = inr refl
  run_opened-cases config arrivals w (ok writer) =
      exit_of-cases (run_sidecar perform (shut_down writer) config arrivals w)

  pub run_only-cases :
      (config : SidecarConfig) (connected : Result C SqlError) (arrivals : List Accepted) (w : W)
      → ((run_only config connected arrivals w).0 ≡ returned)
        ⊎ ((run_only config connected arrivals w).0 ≡ exit 1)
  unfolding run_only
  run_only-cases config connected arrivals w =
      run_opened-cases config arrivals w (open_with_config setup config.gateway connected)
