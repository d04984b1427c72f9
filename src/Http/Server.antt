-- ===== src/Http/Server.antt =====
-- The HTTP server: its configuration, its router, and `serve` (src/http.rs), over axum and the
-- listener of tokio as a record.
use squeuelite_rs.Common.{ℕ, Option, none, some, List, [], ◌∷◌, Text, codes, Result, map_err}
use squeuelite_rs.Json.{Json, field, end}
use squeuelite_rs.Error.{Error, io}
use squeuelite_rs.Effect.{Eff, ◌>>◌}
use squeuelite_rs.Stats.{Stats, new_arc}
use squeuelite_rs.Rpc.{Serde, Handle}
use squeuelite_rs.Sidecar.{max_line_bytes}
use squeuelite_rs.Http.{StatusCode, ok_200, rpc_handler}

-- `A` is the type of socket addresses.
pub record HttpConfig (A : Type 0) : Type 0 where
  pub addr : A
  pub auth_token : Option Text

-- `HttpConfig::new`
abbrev pub http_config : {A : Type 0} → A → HttpConfig A
http_config addr = record { addr = addr; auth_token = none }

-- `HttpConfig::default`, by how an address is parsed; `none` is the panic of `expect`.
abbrev pub default_http_config : {A : Type 0} → (Text → Option A) → Option (HttpConfig A)
default_http_config parse = elim (parse (codes "127.0.0.1:8080")) [
  | none ↦ none
  | some addr ↦ some (http_config addr)
]

-- The counters are shared, and passed along with the state.
pub record HttpGateway (W : Type 0) : Type 0 where
  pub handle : Handle W
  pub db_path : Text

-- `HttpGateway::with_stats`, and `HttpGateway::new` with counters of its own.
abbrev pub with_stats : {W : Type 0} → Handle W → Stats → Text → HttpGateway W × Stats
with_stats handle stats db_path = (record { handle = handle; db_path = db_path }, stats)

abbrev pub new_gateway : {W : Type 0} → Handle W → Text → HttpGateway W × Stats
new_gateway handle db_path = with_stats handle new_arc db_path

pub record AppState (W : Type 0) : Type 0 where
  pub handle : Handle W
  pub db_path : Text
  pub auth_token : Option Text

pub data Method : Type 0 where
  get post other_method : Method

-- `size` are the bytes of the body, and `body` its text, or none where it is not UTF-8.
pub record HttpRequest : Type 0 where
  pub method : Method
  pub path : Text
  pub authorization : Option Text
  pub size : ℕ
  pub body : Option Text

-- A handler that extracts the body, or one that extracts nothing.
pub data Handler (S : Type 0) : Type 0 where
  with_body : (HttpRequest → S → (StatusCode × Json) × S) → Handler S
  without_body : (S → (StatusCode × Json) × S) → Handler S

-- The path, the method and the handler of each route, and `DefaultBodyLimit::max`.
pub record Router (S : Type 0) : Type 0 where
  pub routes : List (Text × Method × Handler S)
  pub body_limit : ℕ

-- `TcpListener::bind`, and `axum::serve` with its graceful shutdown; an error is its message.
pub record Axum (A S : Type 0) : Type 0 where
  pub bind : A → S → Result (Unit {0}) Text × S
  pub serve : Router S → S → Result (Unit {0}) Text × S

abbrev pub or_io : {S : Type 0} → (S → Result (Unit {0}) Text × S) → Eff S Error (Unit {0})
or_io act s = (map_err io (act s).0, (act s).1)

-- `health_handler`
abbrev pub health_handler : {S : Type 0} → S → (StatusCode × Json) × S
health_handler s =
    ((ok_200, Json.object (field (codes "status") (Json.string (codes "ok")) end)), s)

module _ {W : Type 0} (serde : Serde) where
  abbrev pub handle_rpc : AppState W → HttpRequest → Stats × W → (StatusCode × Json) × (Stats × W)
  handle_rpc state req (stats, w) =
      let (reply, stats', w') =
        rpc_handler serde state.handle state.db_path state.auth_token req.authorization req.body
          stats w in
      (reply, (stats', w'))

  abbrev pub app : AppState W → Router (Stats × W)
  app state = record {
    routes =
        (codes "/rpc", post, with_body (handle_rpc state))
        ∷ (codes "/health", get, without_body health_handler)
        ∷ [];
    body_limit = max_line_bytes;
  }

  abbrev pub state_of : HttpGateway W → Option Text → AppState W
  state_of gateway token = record {
    handle = gateway.handle;
    db_path = gateway.db_path;
    auth_token = token;
  }

  -- `HttpGateway::serve`
  unfoldable pub serve :
      {A : Type 0}
      → Axum A (Stats × W)
      → HttpGateway W
      → HttpConfig A
      → Eff (Stats × W) Error (Unit {0})
  serve axum gateway config = do
    or_io (axum.bind config.addr)
    or_io (axum.serve (app (state_of gateway config.auth_token)))
