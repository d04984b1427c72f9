-- ===== src/Http/Transports.antt =====
-- What a request to the HTTP server does to counters and gateway (src/http.rs).
use squeuelite_rs.Common.{
  ◌≤◌, ◌<◌, ◌≡◌, refl, ◌∙◌, inl, inr, Bool, true, false, Option, none, some, List, [], ◌∷◌, Text,
  codes, text_eq, leb, ◌&&◌, if◌then◌else◌, Bool-cases, leb→le, leb-ge,
}
use squeuelite_rs.Json.{Json}
use squeuelite_rs.Stats.{Stats}
use squeuelite_rs.Rpc.{Serde, Handle}
use squeuelite_rs.Rpc.Dispatch.{dispatch}
use squeuelite_rs.Sidecar.{max_line_bytes}
use squeuelite_rs.Http.{StatusCode, is_authorized, handle_body, rpc_handler}
use squeuelite_rs.Http.Server.{
  HttpGateway, Method, get, post, other_method, HttpRequest, Handler, with_body, without_body,
  Router, handle_rpc, health_handler, app, state_of,
}

-- The handler of the first route with this path and method.
abbrev pub same_method : Method → Method → Bool
same_method get get = true
same_method post post = true
same_method other_method other_method = true
same_method _ _ = false

abbrev pub find_route :
    {S : Type 0} → List (Text × Method × Handler S) → HttpRequest → Option (Handler S)
find_route [] req = none
find_route ((path, method, handler) ∷ routes) req =
    let later = find_route routes req in
    if text_eq path req.path && same_method method req.method then some handler else later

-- What is relied on in axum, for one request whose handler runs to its end with nothing in between:
-- `answer` is what the request does to the state behind a router. The first route of its path and
-- method handles it; a body over the limit is refused by the extractor, before the handler. Nothing
-- is said of how the requests of several connections interleave, or of handlers that are dropped.
pub record Answers {S : Type 0} (answer : Router S → HttpRequest → S → S) : Type 0 where
  pub missing :
      (router : Router S) (req : HttpRequest) (s : S)
      → find_route router.routes req ≡ none
      → answer router req s ≡ s
  pub plain :
      (router : Router S) (req : HttpRequest) (s : S) (f : S → (StatusCode × Json) × S)
      → find_route router.routes req ≡ some (without_body f)
      → answer router req s ≡ (f s).1
  pub within :
      (router : Router S) (req : HttpRequest) (s : S)
      (f : HttpRequest → S → (StatusCode × Json) × S)
      → find_route router.routes req ≡ some (with_body f)
      → req.size ≤ router.body_limit
      → answer router req s ≡ (f req s).1
  pub over :
      (router : Router S) (req : HttpRequest) (s : S)
      (f : HttpRequest → S → (StatusCode × Json) × S)
      → find_route router.routes req ≡ some (with_body f)
      → router.body_limit < req.size
      → answer router req s ≡ s

abbrev pub is_admitted : Option Text → Option Text → Bool
is_admitted none header = true
is_admitted (some expected) header = is_authorized expected header

abbrev pub to_rpc : HttpRequest → Bool
to_rpc req = text_eq (codes "/rpc") req.path && same_method post req.method

abbrev pub text_of : Option Text → List Text
text_of none = []
text_of (some text) = text ∷ []

-- The line that a request gives the dispatcher: its body, where it is a POST to /rpc of at most 1 MiB
-- of UTF-8 with the token that is asked for.
abbrev pub line_of : Option Text → HttpRequest → List Text
line_of token req =
    if to_rpc req && (leb req.size max_line_bytes && is_admitted token req.authorization)
    then text_of req.body
    else []

module _ {W : Type 0} (serde : Serde) (handle : Handle W) (db_path : Text) where
  -- Counters and gateway after the dispatcher has handled these lines.
  abbrev pub dispatch_all : List Text → Stats × W → Stats × W
  dispatch_all [] s = s
  dispatch_all (text ∷ texts) (stats, w) =
      let (reply, stats', w') = dispatch serde handle db_path text stats w in
      dispatch_all texts (stats', w')

  abbrev pub gateway_of : HttpGateway W
  gateway_of = record { handle = handle; db_path = db_path }

  handle_body-dispatch :
      (body : Option Text) (stats : Stats) (w : W)
      → let (reply, stats', w') = handle_body serde handle db_path body stats w in
        (stats', w') ≡ dispatch_all (text_of body) (stats, w)
  unfolding handle_body
  handle_body-dispatch none stats w = refl
  handle_body-dispatch (some text) stats w = refl

  -- The handler of /rpc, by whether the token lets the request pass.
  handle_rpc-dispatch :
      (token : Option Text) (req : HttpRequest) (s : Stats × W)
      → (handle_rpc serde (state_of serde gateway_of token) req s).1
        ≡ dispatch_all (if is_admitted token req.authorization then text_of req.body else []) s
  unfolding rpc_handler
  handle_rpc-dispatch none req (stats, w) = handle_body-dispatch req.body stats w
  handle_rpc-dispatch (some expected) req (stats, w) =
      elim (Bool-cases (is_authorized expected req.authorization)) [
        | inl e ↦ rw e (handle_body-dispatch req.body stats w)
        | inr e ↦ rw e refl
      ]

  module _ {answer : Router (Stats × W) → HttpRequest → Stats × W → Stats × W}
      (laws : Answers answer) where
    -- The health route, and every other request, leaves all as it was.
    elsewhere :
        (token : Option Text) (req : HttpRequest) (s : Stats × W)
        → to_rpc req ≡ false
        → answer (app serde (state_of serde gateway_of token)) req s ≡ s
    elsewhere token req s e =
        elim (Bool-cases (text_eq (codes "/health") req.path && same_method get req.method)) [
          | inl health ↦ laws.plain _ req s health_handler (rw (e, health) refl)
          | inr neither ↦ laws.missing _ req s (rw (e, neither) refl)
        ]

    -- For axum as it is relied on, a request whose handler runs to its end with nothing in between:
    -- a POST to /rpc of at most 1 MiB of UTF-8, with the token that is configured, if one is, does to
    -- counters and gateway what the dispatcher does on its body, once; no other request touches
    -- them.
    pub app-line_of :
        (token : Option Text) (req : HttpRequest) (s : Stats × W)
        → answer (app serde (state_of serde gateway_of token)) req s
          ≡ dispatch_all (line_of token req) s
    app-line_of token req s =
        let state = state_of serde gateway_of token in
        elim (Bool-cases (to_rpc req)) [
          | inr e ↦ elsewhere token req s e ∙ rw e refl
          | inl e ↦ elim (Bool-cases (leb req.size max_line_bytes)) [
            | inl fits ↦
                laws.within (app serde state) req s (handle_rpc serde state) (rw e refl)
                  (leb→le req.size max_line_bytes fits)
                ∙ handle_rpc-dispatch token req s
                ∙ rw (e, fits) refl
            | inr long ↦
                laws.over (app serde state) req s (handle_rpc serde state) (rw e refl)
                  (leb-ge req.size max_line_bytes long)
                ∙ rw (e, long) refl
          ]
        ]
