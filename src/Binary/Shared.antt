-- ===== src/Binary/Shared.antt =====
-- The second case of `main`, a gateway that the HTTP server shares with a socket, and `main` as a
-- whole, from its options to the exit code (src/bin/squeuelite-gateway.rs).
use squeuelite_rs.Common.{
  ℕ, ◌≡◌, ◌≢◌, ◌↔◌, refl, sym, subst, ◌∙◌, Option, none, some, List, [], ◌∷◌, ◌++◌, Text, Result,
  ok, err, inl, inr, ◌⊎◌,
}
use squeuelite_rs.Config.{GatewayConfig, new}
use squeuelite_rs.Error.{Error, SqlError}
use squeuelite_rs.Effect.{Eff}
use squeuelite_rs.Writer.{Writer}
use squeuelite_rs.Startup.{Setup, open_with_config}
use squeuelite_rs.Sidecar.Run.{SidecarConfig, Accepted, Call}
use squeuelite_rs.Http.Server.{HttpConfig}
use squeuelite_rs.Binary.{Args, Refused, parse_args}
use squeuelite_rs.Binary.Mode.{
  Mode, sidecar_only, shared, no_address, run_mode, mode_or_default, run_mode-address,
}
use squeuelite_rs.Binary.Main.{Exit, returned, panicked, exit, run_only, run_only-cases}

-- The tasks that `main` spawns: for Ctrl-C; `run_uds_inline` on a path with a mode; and
-- `HttpGateway::serve` with a configuration, `A` being the addresses. What a task prints at its
-- error is left out.
pub data Task (A : Type 0) : Type 0 where
  ctrl_c : Task A
  uds : Text → ℕ → Task A
  http : HttpConfig A → Task A

-- `tokio::spawn`, and the wait for a task, whose outcome is ignored.
pub record Runtime (A W : Type 0) : Type 0 where
  pub spawn : Task A → W → W
  pub wait_for : Task A → W → W

abbrev pub uds_tasks : {A : Type 0} → Option (Text × ℕ) → List (Task A)
uds_tasks none = []
uds_tasks (some (path, mode)) = uds path mode ∷ []

abbrev args_of : Text → Option Text → Option ℕ → Option Text → Option Text → Args
args_of db socket mode http_addr token = record {
  db_path = db;
  socket_path = socket;
  socket_mode = mode;
  http_addr = http_addr;
  http_token = token;
}

exit_codes : exit 1 ≡ exit 2 → ⊥
exit_codes h = cc

-- `setup` and `perform` make the calls on the connection and on the system, `parse` reads a socket
-- address, and `shut_down` is `InProcessGateway::shutdown` of a gateway.
module _ {A C W : Type 0} (setup : Setup → C → Result (Unit {0}) SqlError × C)
    (perform : Call → W → Result (Unit {0}) Text × W) (runtime : Runtime A W)
    (parse : Text → Option A) (shut_down : Writer C → Eff W Error (Unit {0})) where
  abbrev pub spawn_all : List (Task A) → W → W
  spawn_all [] w = w
  spawn_all (task ∷ tasks) w = spawn_all tasks (runtime.spawn task w)

  abbrev pub wait_for_all : List (Task A) → W → W
  wait_for_all [] w = w
  wait_for_all (task ∷ tasks) w = wait_for_all tasks (runtime.wait_for task w)

  -- The tasks of the servers are waited for, in their order, and then the gateway is shut down, the
  -- error of which is printed.
  abbrev pub run_servers : Writer C → List (Task A) → W → Exit × W
  run_servers writer tasks w = (returned, (shut_down writer (wait_for_all tasks w)).1)

  -- The HTTP server, from its address. The other tasks run by then.
  abbrev pub with_http : Writer C → List (Task A) → Option Text → Option A → W → Exit × W
  with_http writer tasks token none w = (exit 2, w)
  with_http writer tasks token (some addr) w =
      let server = http (record { addr = addr; auth_token = token }) in
      run_servers writer (tasks ++ server ∷ []) (runtime.spawn server w)

  abbrev pub run_both :
      Option (Text × ℕ) → Text → Option Text → W → Result (Writer C) Error → Exit × W
  run_both socket addr token w (err e) = (exit 1, w)
  run_both socket addr token w (ok writer) =
      let tasks = uds_tasks socket in
      with_http writer tasks token (parse addr) (spawn_all (ctrl_c ∷ tasks) w)

  -- From opening the gateway on.
  unfoldable pub run_shared :
      GatewayConfig → Option (Text × ℕ) → Text → Option Text → Result C SqlError → W → Exit × W
  unfolding open_with_config
  run_shared config socket addr token connected w =
      run_both socket addr token w (open_with_config setup config connected)

  unfoldable pub run_in : Mode → Result C SqlError → List Accepted → W → Exit × W
  unfolding run_only run_shared
  run_in (sidecar_only config) connected arrivals w =
      run_only setup perform shut_down config connected arrivals w
  run_in (shared config socket addr token) connected arrivals w =
      run_shared config socket addr token connected w
  run_in no_address connected arrivals w = (panicked, w)

  -- `main`, from the outcome of `parse_args`.
  unfoldable pub run_main : Result Args Refused → Result C SqlError → List Accepted → W → Exit × W
  unfolding run_in run_mode
  run_main (err refused) connected arrivals w = (exit 2, w)
  run_main (ok a) connected arrivals w = run_in (run_mode a) connected arrivals w

  with_http-returned :
      (writer : Writer C) (tasks : List (Task A)) (token : Option Text) (parsed : Option A) (w : W)
      → ((with_http writer tasks token parsed w).0 ≡ returned) ↔ ((a : A) × (parsed ≡ some a))
  with_http-returned writer tasks token none w = (λ same. cc, λ (a, absent). cc)
  with_http-returned writer tasks token (some a) w = (λ same. (a, refl), λ found. refl)

  run_both-returned :
      (socket : Option (Text × ℕ)) (addr : Text) (token : Option Text) (w : W)
      (opened : Result (Writer C) Error)
      → ((run_both socket addr token w opened).0 ≡ returned)
        ↔ (((writer : Writer C) × (opened ≡ ok writer)) × ((a : A) × (parse addr ≡ some a)))
  run_both-returned socket addr token w (err e) = (λ same. cc, λ ((writer, absent), given). cc)
  run_both-returned socket addr token w (ok writer) =
      let (to, from) =
        with_http-returned writer (uds_tasks socket) token (parse addr)
          (spawn_all (ctrl_c ∷ uds_tasks socket) w) in
      (λ same. ((writer, refl), to same), λ (there, given). from given)

  -- In its second case `main` returns exactly where the gateway opens and the address of the HTTP
  -- server is one, whatever becomes of the servers and of the shutdown.
  pub run_shared-returned :
      (config : GatewayConfig) (socket : Option (Text × ℕ)) (addr : Text) (token : Option Text)
      (connected : Result C SqlError) (w : W)
      → ((run_shared config socket addr token connected w).0 ≡ returned) ↔ (
          ((writer : Writer C) × (open_with_config setup config connected ≡ ok writer))
          × ((a : A) × (parse addr ≡ some a)))
  unfolding run_shared
  run_shared-returned config socket addr token connected w =
      run_both-returned socket addr token w (open_with_config setup config connected)

  -- The command line is wrong: it was refused, or it has an address for the HTTP server that is none,
  -- which is found once the gateway is open.
  abbrev pub Faulty : Result C SqlError → Result Args Refused → Type 0
  Faulty connected (err refused) = Unit {0}
  Faulty connected (ok a) =
      (addr : Text) × (a.http_addr ≡ some addr)
      × (parse addr ≡ none)
      × ((writer : Writer C) × (open_with_config setup (new a.db_path) connected ≡ ok writer))

  -- An end that is no panic, and is the exit for a wrong command line exactly where `Fault` says so.
  abbrev Judged : Exit → Type 0 → Type 0
  Judged e Fault = (e ≢ panicked) × ((e ≡ exit 2) ↔ Fault)

  cases-Judged :
      (e : Exit) (Fault : Type 0) → (e ≡ returned) ⊎ (e ≡ exit 1) → (Fault → ⊥) → Judged e Fault
  cases-Judged e Fault (inl h) unless = (λ same. cc, (λ same. cc, λ fault. absurd (unless fault)))
  cases-Judged e Fault (inr h) unless =
      (λ same. cc, (λ same. absurd (exit_codes (sym h ∙ same)), λ fault. absurd (unless fault)))

  abbrev ok_of : Writer C → Result (Writer C) Error
  ok_of writer = ok writer

  with_http-Judged :
      (writer : Writer C) (tasks : List (Task A)) (token : Option Text) (parsed : Option A) (w : W)
      → Judged
          (with_http writer tasks token parsed w).0
          ((parsed ≡ none) × ((other : Writer C) × (ok_of writer ≡ ok other)))
  with_http-Judged writer tasks token none w =
      (λ same. cc, (λ same. (refl, (writer, refl)), λ found. refl))
  with_http-Judged writer tasks token (some a) w = (λ same. cc, (λ same. cc, λ (absent, there). cc))

  both-Judged :
      (socket : Option (Text × ℕ)) (addr : Text) (token : Option Text) (w : W)
      (opened : Result (Writer C) Error)
      → Judged
          (run_both socket addr token w opened).0
          ((parse addr ≡ none) × ((writer : Writer C) × (opened ≡ ok writer)))
  both-Judged socket addr token w (err e) =
      (λ same. cc, (λ same. absurd (exit_codes same), λ (absent, (writer, same)). cc))
  both-Judged socket addr token w (ok writer) =
      let w' = spawn_all (ctrl_c ∷ uds_tasks socket) w in
      with_http-Judged writer (uds_tasks socket) token (parse addr) w'

  shared-Judged :
      (a : Args) (socket : Option (Text × ℕ)) (addr : Text) (connected : Result C SqlError) (w : W)
      → a.http_addr ≡ some addr
      → Judged
          (run_shared (new a.db_path) socket addr a.http_token connected w).0
          (Faulty connected (ok a))
  unfolding run_shared
  shared-Judged a socket addr connected w given =
      let (calm, (to, from)) =
        both-Judged socket addr a.http_token w (open_with_config setup (new a.db_path) connected) in
      (
        calm,
        (
          λ same. let (absent, there) = to same in (addr, given, absent, there),
          λ (other, given', absent, there).
              let same : other ≡ addr = cc in from (subst (λ t. parse t ≡ none) same absent, there),
        ),
      )

  run_mode-Judged :
      (db : Text) (socket : Option Text) (mode : Option ℕ) (http_addr token : Option Text)
      (connected : Result C SqlError) (arrivals : List Accepted) (w : W)
      → let a = args_of db socket mode http_addr token in
        run_mode a ≢ no_address
        → Judged (run_main (ok a) connected arrivals w).0 (Faulty connected (ok a))
  unfolding run_main run_in run_mode
  run_mode-Judged db none mode none token connected arrivals w there = absurd (there refl)
  run_mode-Judged db (some path) mode none token connected arrivals w there =
      let config : SidecarConfig = record {
        gateway = new db;
        socket_path = path;
        socket_mode = mode_or_default mode;
      } in
      cases-Judged (run_only setup perform shut_down config connected arrivals w).0
        (Faulty connected (ok (args_of db (some path) mode none token)))
        (run_only-cases setup perform shut_down config connected arrivals w)
        (λ (addr, given, absent, there). cc)
  run_mode-Judged db none mode (some addr) token connected arrivals w there =
      shared-Judged (args_of db none mode (some addr) token) none addr connected w refl
  run_mode-Judged db (some path) mode (some addr) token connected arrivals w there =
      shared-Judged (args_of db (some path) mode (some addr) token)
        (some (path, mode_or_default mode)) addr connected w refl

  -- For options as `parse_args` gives them, `main` does not panic for a missing HTTP address, and it
  -- ends with exit code 2 exactly where the command line is wrong: it was refused, or its address for
  -- the HTTP server is none and the gateway has opened.
  pub run_main-Faulty :
      (args : List Text) (token : Option Text) (r : Result Args Refused)
      (connected : Result C SqlError) (arrivals : List Accepted) (w : W)
      → parse_args args token ≡ some r
      → ((run_main r connected arrivals w).0 ≢ panicked)
        × (((run_main r connected arrivals w).0 ≡ exit 2) ↔ Faulty connected r)
  unfolding run_main
  run_main-Faulty args token (err refused) connected arrivals w parsed =
      (λ same. cc, (λ same. tt, λ fault. refl))
  run_main-Faulty args token (ok a) connected arrivals w parsed =
      run_mode-Judged a.db_path a.socket_path a.socket_mode a.http_addr a.http_token connected
        arrivals w (run_mode-address args token a parsed)
