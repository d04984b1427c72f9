-- ===== src/Binary/Mode.antt =====
-- What the gateway binary runs for its options (src/bin/squeuelite-gateway.rs, `main`).
use squeuelite_rs.Common.{
  ℕ, ◌≡◌, ◌≢◌, sym, subst, ◌∙◌, Option, none, some, List, Text, Result, ok, err, drop, codes,
  Option-cases, inl, inr,
}
use squeuelite_rs.Config.{GatewayConfig, new}
use squeuelite_rs.Sidecar.Run.{SidecarConfig, owner_only}
use squeuelite_rs.Binary.{Args, Refused, parse_args, or_flag, unless_blank}
use squeuelite_rs.Binary.Scan.{pairs}
use squeuelite_rs.Binary.Options.{
  described, options, parse_args-described, last_value, last_mode, bad_mode,
}

-- A sidecar with its own gateway; or a gateway that the HTTP server shares with a socket, if there
-- is one, by its path and mode; or the panic of `expect` on the address.
pub data Mode : Type 0 where
  sidecar_only : SidecarConfig → Mode
  shared : GatewayConfig → Option (Text × ℕ) → Text → Option Text → Mode
  no_address : Mode

-- `unwrap_or(0o600)`
abbrev pub mode_or_default : Option ℕ → ℕ
mode_or_default none = owner_only
mode_or_default (some mode) = mode

abbrev pub shared_socket : Option Text → Option ℕ → Option (Text × ℕ)
shared_socket none mode = none
shared_socket (some path) mode = some (path, mode_or_default mode)

abbrev pub with_address : Args → Option Text → Mode
with_address a none = no_address
with_address a (some addr) =
    shared (new a.db_path) (shared_socket a.socket_path a.socket_mode) addr a.http_token

abbrev pub without_http : Args → Option Text → Mode
without_http a (some path) = sidecar_only (record {
  gateway = new a.db_path;
  socket_path = path;
  socket_mode = mode_or_default a.socket_mode;
})
without_http a none = with_address a none

unfoldable pub run_mode : Args → Mode
run_mode a = elim a.http_addr [
  | none ↦ without_http a a.socket_path
  | some addr ↦ with_address a (some addr)
]

-- Options that were taken run a gateway.
abbrev Runs : Result Args Refused → Type 0
unfolding run_mode
Runs (err refused) = Unit
Runs (ok a) = run_mode a ≢ no_address

abbrev RunsSome : Option (Result Args Refused) → Type 0
unfolding Runs
RunsSome none = Unit
RunsSome (some result) = Runs result

options-Runs :
    (db socket http_addr : Option Text) (mode : Option ℕ) (token : Option Text)
    → Runs (options db socket http_addr mode token)
unfolding run_mode Runs
options-Runs none socket http_addr mode token = tt
options-Runs (some db) none none mode token = tt
options-Runs (some db) none (some addr) mode token = λ same. cc
options-Runs (some db) (some socket) none mode token = λ same. cc
options-Runs (some db) (some socket) (some addr) mode token = λ same. cc

described-Runs : (ps : List (Text × Text)) (token : Option Text) → Runs (described ps token)
unfolding Runs described
described-Runs ps token = elim (Option-cases (bad_mode ps)) [
  | inr (v, e) ↦ rw (e, described) tt
  | inl e ↦
      rw (e, described)
        (options-Runs (last_value (codes "--db") ps none) (last_value (codes "--socket") ps none)
          (last_value (codes "--http") ps none) (last_mode ps none)
          (or_flag (unless_blank token) (last_value (codes "--http-token") ps none)))
]

-- `main` never reaches the panic for a missing HTTP address with options that `parse_args` took.
pub run_mode-address :
    (args : List Text) (token : Option Text) (a : Args)
    → parse_args args token ≡ some (ok a)
    → run_mode a ≢ no_address
unfolding RunsSome Runs
run_mode-address args token a parsed =
    subst RunsSome (sym (parse_args-described args token) ∙ parsed)
      (described-Runs (pairs (drop 1 args)) token)
