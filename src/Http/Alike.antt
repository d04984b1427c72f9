-- ===== src/Http/Alike.antt =====
-- The two transports side by side: the same lines over one connection of the socket and as calls of
-- the HTTP server (src/http.rs, `rpc_handler`; src/sidecar.rs, `handle_connection`).
use squeuelite_rs.Common.{
  ◌≤◌, ◌≡◌, refl, ap, ◌∙◌, Bool, true, false, Option, none, some, List, [], ◌∷◌, ◌++◌, map, Text,
  codes, ltb, All, arith,
}
use squeuelite_rs.Json.{Json}
use squeuelite_rs.Stats.{Stats}
use squeuelite_rs.Rpc.{Serde, Handle}
use squeuelite_rs.Rpc.Dispatch.{dispatch}
use squeuelite_rs.Sidecar.{
  Read, line, max_line_bytes, utf8_length, trim_newlines, handle_connection,
}
use squeuelite_rs.Http.{StatusCode, ok_200, handle_body, rpc_handler, or_internal_error}
use squeuelite_rs.Http.Server.{HttpRequest, post, handle_rpc, state_of}
use squeuelite_rs.Http.Transports.{is_admitted, dispatch_all, gateway_of}

abbrev pub with_newline : Text → Text
with_newline text = text ++ b'\n' ∷ []

-- A text without a newline at its end, that fits in a line of the socket with one.
abbrev pub Fits : Text → Type 0
Fits text =
    (trim_newlines (with_newline text) ≡ text) × (utf8_length (with_newline text) ≤ max_line_bytes)

-- The reads of a connection that sends these lines, and takes every reply.
abbrev pub reads_of : List Text → List (Read × Bool)
reads_of = map (λ text. (line (with_newline text), true))

-- The calls with these bodies.
abbrev pub posted : Option Text → Text → HttpRequest
posted header text = record {
  method = post;
  path = codes "/rpc";
  authorization = header;
  size = utf8_length text;
  body = some text;
}

module _ {W : Type 0} (serde : Serde) (handle : Handle W) (db_path : Text) where
  -- The dispatcher's replies to these lines.
  abbrev pub replies_to : List Text → Stats × W → List Text
  replies_to [] s = []
  replies_to (text ∷ texts) (stats, w) =
      let (reply, stats', w') = dispatch serde handle db_path text stats w in
      reply ∷ replies_to texts (stats', w')

  -- The handler of /rpc on one call after the other.
  abbrev pub call_all :
      Option Text → List HttpRequest → Stats × W → List (StatusCode × Json) × (Stats × W)
  call_all token [] s = ([], s)
  call_all token (req ∷ requests) s =
      let (reply, s') =
        handle_rpc serde (state_of serde (gateway_of serde handle db_path) token) req s in
      let (replies, s'') = call_all token requests s' in (reply ∷ replies, s'')

  connection-replies :
      (texts : List Text) (stats : Stats) (w : W)
      → All Fits texts
      → handle_connection serde handle db_path (reads_of texts) stats w ≡ (
        map with_newline (replies_to texts (stats, w)),
        (dispatch_all serde handle db_path texts (stats, w)).0,
        (dispatch_all serde handle db_path texts (stats, w)).1,
      )
  unfolding handle_connection
  connection-replies [] stats w fits = refl
  connection-replies (text ∷ texts) stats w ((trims, short), fits) =
      let within : ltb max_line_bytes (utf8_length (with_newline text)) ≡ false = ground arith in
      let (reply, stats', w') = dispatch serde handle db_path text stats w in
      rw (within, trims, connection-replies texts stats' w' fits) refl

  -- What the HTTP server answers for a reply of the dispatcher.
  abbrev pub http_reply : Text → StatusCode × Json
  http_reply reply = (ok_200, or_internal_error serde handle db_path (serde.from_str reply))

  handle_rpc-reply :
      (token header : Option Text) (text : Text) (stats : Stats) (w : W)
      → is_admitted token header ≡ true
      → let (reply, stats', w') = dispatch serde handle db_path text stats w in
        handle_rpc serde
          (state_of serde (gateway_of serde handle db_path) token)
          (posted header text)
          (stats, w)
        ≡ (http_reply reply, (stats', w'))
  unfolding rpc_handler handle_body
  handle_rpc-reply none header text stats w admitted = refl
  handle_rpc-reply (some expected) header text stats w admitted = rw admitted refl

  call_all-replies :
      (token header : Option Text) (texts : List Text) (s : Stats × W)
      → is_admitted token header ≡ true
      → call_all token (map (posted header) texts) s
        ≡ (map http_reply (replies_to texts s), dispatch_all serde handle db_path texts s)
  call_all-replies token header [] s admitted = refl
  call_all-replies token header (text ∷ texts) (stats, w) admitted =
      let (reply, stats', w') = dispatch serde handle db_path text stats w in
      let later = map (posted header) texts in
      ap
        (λ (r : (StatusCode × Json) × (Stats × W)).
          (r.0 ∷ (call_all token later r.1).0, (call_all token later r.1).1))
        (handle_rpc-reply token header text stats w admitted)
      ∙ ap (λ (r : List (StatusCode × Json) × (Stats × W)). (http_reply reply ∷ r.0, r.1))
          (call_all-replies token header texts (stats', w') admitted)

  -- Lines that fit, with no newline at their ends, whether they come over one connection whose client
  -- takes every reply or as the bodies of calls that the token lets pass: the HTTP server answers each
  -- with status 200 and the JSON of the reply that the socket writes for it, or with an internal error
  -- where serde cannot read that reply, and both transports leave the same counters and gateway.
  pub transports_alike :
      (token header : Option Text) (texts : List Text) (stats : Stats) (w : W)
      → All Fits texts
      → is_admitted token header ≡ true
      → let (written, stats', w') =
          handle_connection serde handle db_path (reads_of texts) stats w in
        (written ≡ map with_newline (replies_to texts (stats, w)))
        × (call_all token (map (posted header) texts) (stats, w)
            ≡ (map http_reply (replies_to texts (stats, w)), (stats', w')))
  transports_alike token header texts stats w fits admitted =
      let socket = connection-replies texts stats w fits in
      rw socket (refl, call_all-replies token header texts (stats, w) admitted)
