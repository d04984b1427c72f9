-- ===== src/Tests/Http.antt =====
-- The HTTP server on concrete requests.
use squeuelite_rs.Common.{
  text_eq, ℕ, ◌≤◌, ◌<◌, ◌≡◌, refl, true, false, Option, none, some, List, [], ◌∷◌, map, Text, codes,
  leb, if◌then◌else◌, ap, ◌∙◌, arith,
}
use squeuelite_rs.Request.{WriteRequest}
use squeuelite_rs.Stats.{Stats, new_arc}
use squeuelite_rs.Sidecar.{handle_connection}
use squeuelite_rs.Json.{Json}
use squeuelite_rs.Http.{StatusCode, is_authorized, strip_prefix}
use squeuelite_rs.Http.Server.{HttpRequest, Handler, with_body, without_body, Router, app, state_of}
use squeuelite_rs.Http.Transports.{find_route, Answers, dispatch_all, gateway_of, app-line_of}
use squeuelite_rs.Http.Alike.{
  reads_of, posted, with_newline, replies_to, call_all, http_reply, transports_alike,
}
use squeuelite_rs.Tests.Transport.{serde, handle}
use squeuelite_rs.Tests.Clients.{path, empty}

abbrev S : Type 0
S = Stats × List WriteRequest

-- A call with the token.
abbrev bearer_s : Option Text
bearer_s = some (codes "Bearer s")

abbrev call : HttpRequest
call = posted bearer_s (codes "{}")

-- A server that answers as axum does.
abbrev routed : ℕ → HttpRequest → S → Option (Handler S) → S
routed limit req s none = s
routed limit req s (some (without_body f)) = (f s).1
routed limit req s (some (with_body f)) = if leb req.size limit then (f req s).1 else s

abbrev answer : Router S → HttpRequest → S → S
answer router req s = routed router.body_limit req s (find_route router.routes req)

within_limit :
    (limit : ℕ) (req : HttpRequest) (s : S) (f : HttpRequest → S → (StatusCode × Json) × S)
    → req.size ≤ limit
    → routed limit req s (some (with_body f)) ≡ (f req s).1
within_limit limit req s f fits =
    let short : leb req.size limit ≡ true = ground arith in rw short refl

over_limit :
    (limit : ℕ) (req : HttpRequest) (s : S) (f : HttpRequest → S → (StatusCode × Json) × S)
    → limit < req.size
    → routed limit req s (some (with_body f)) ≡ s
over_limit limit req s f long =
    let beyond : leb req.size limit ≡ false = ground arith in rw beyond refl

answers : Answers answer
answers = record {
  missing = λ router req s e. rw e refl;
  plain = λ router req s f e. rw e refl;
  within = λ router req s f e fits.
      ap (routed router.body_limit req s) e ∙ within_limit router.body_limit req s f fits;
  over = λ router req s f e long.
      ap (routed router.body_limit req s) e ∙ over_limit router.body_limit req s f long;
}

abbrev begun : S
begun = (new_arc, empty)

app-line_of_example :
    answer (app serde (state_of serde (gateway_of serde handle path) (some (codes "s")))) call begun
    ≡ dispatch_all serde handle path (codes "{}" ∷ []) begun
unfolding text_eq answers is_authorized strip_prefix
app-line_of_example = app-line_of serde handle path answers (some (codes "s")) call begun

transports_alike_example :
    let (written, stats, w) =
      handle_connection serde handle path (reads_of (codes "{}" ∷ [])) new_arc empty in
    (written ≡ map with_newline (replies_to serde handle path (codes "{}" ∷ []) begun))
    × (call_all serde handle path (some (codes "s")) (map (posted bearer_s) (codes "{}" ∷ [])) begun
        ≡ (
          map (http_reply serde handle path) (replies_to serde handle path (codes "{}" ∷ []) begun),
          (stats, w),
        ))
unfolding is_authorized strip_prefix text_eq
transports_alike_example =
    transports_alike serde handle path (some (codes "s")) bearer_s (codes "{}" ∷ []) new_arc empty
      ((refl, omega arith), tt) refl
