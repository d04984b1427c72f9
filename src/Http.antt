-- ===== src/Http.antt =====
-- The HTTP handler of a call: the bearer token, then the dispatcher (src/http.rs, `rpc_handler`).
pub mod Bearer
pub mod Server
pub mod Transports
pub mod Alike
use squeuelite_rs.Common.{
  ℕ, Bool, true, false, Option, none, some, List, [], ◌∷◌, Text, codes, text_eq, Result, ok, err,
  ◌==◌, if◌then◌else◌,
}
use squeuelite_rs.Json.{Json, field, end}
use squeuelite_rs.Stats.{Stats}
use squeuelite_rs.Rpc.{Serde, Handle, parse_error, internal_error}
use squeuelite_rs.Rpc.Dispatch.{dispatch}

-- The status of a response.
pub data StatusCode : Type 0 where
  ok_200 unauthorized_401 : StatusCode

-- `str::strip_prefix`
unfoldable pub strip_prefix : Text → Text → Option Text
strip_prefix [] s = some s
strip_prefix (p ∷ ps) [] = none
strip_prefix (p ∷ ps) (c ∷ s) = let rest = strip_prefix ps s in if p == c then rest else none

abbrev pub bearer : Text
bearer = codes "Bearer "

abbrev pub matches_token : Text → Option Text → Bool
matches_token expected none = false
matches_token expected (some token) = text_eq token expected

-- The header `Authorization`, where it is there and its bytes are visible ASCII.
unfoldable pub is_authorized : Text → Option Text → Bool
unfolding strip_prefix text_eq
is_authorized expected none = false
is_authorized expected (some value) = matches_token expected (strip_prefix bearer value)

abbrev pub unauthorized : Json
unauthorized = Json.object (field (codes "error") (Json.string (codes "unauthorized")) end)

module _ {W : Type 0} (serde : Serde) (handle : Handle W) (db_path : Text) where
  abbrev pub Response : Type 0
  Response = (StatusCode × Json) × Stats × W

  abbrev pub error_value : Json → Text → Json
  error_value code message = Json.object (
      field (codes "error")
        (Json.object
          (field (codes "code") code (field (codes "message") (Json.string message) end)))
        (field (codes "id") Json.null (field (codes "jsonrpc") (Json.string (codes "2.0")) end)))

  abbrev pub or_internal_error : Result Json Text → Json
  or_internal_error (ok v) = v
  or_internal_error (err _) =
      error_value (Json.number (serde.number_from internal_error)) (codes "internal error")

  -- `body` is the text of the request, or none where it is not UTF-8.
  unfoldable pub handle_body : Option Text → Stats → W → Response
  unfolding dispatch
  handle_body none stats w = (
    (
      ok_200,
      error_value (Json.number (serde.number_from parse_error))
          (codes "request body is not valid UTF-8"),
    ),
    stats,
    w,
  )
  handle_body (some line) stats w =
      let (reply, stats', w') = dispatch serde handle db_path line stats w in
      ((ok_200, or_internal_error (serde.from_str reply)), stats', w')

  unfoldable pub rpc_handler : Option Text → Option Text → Option Text → Stats → W → Response
  unfolding is_authorized handle_body
  rpc_handler none header body stats w = handle_body body stats w
  rpc_handler (some expected) header body stats w =
      if is_authorized expected header
      then handle_body body stats w
      else ((unauthorized_401, unauthorized), stats, w)
