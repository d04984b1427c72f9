-- ===== src/Codec.antt =====
-- The encoders that the program calls and does not implement: serde_json and base64. Each may
-- refuse, with an error that the program reads by its message.
use squeuelite_rs.Common.{ℕ, List, Text, Result}
use squeuelite_rs.Json.{Json}
use squeuelite_rs.Request.{SqlOperation, WriteResponse}

pub record Codec : Type 0 where
  -- `BASE64_STANDARD.decode`
  pub base64_decode : Text → Result (List ℕ) Text
  -- `serde_json::to_string` on a value, on a request's operations and on a response
  pub json_to_string : Json → Result Text Text
  pub operations_to_string : List SqlOperation → Result Text Text
  pub response_to_string : WriteResponse → Result Text Text
  -- `serde_json::from_str::<WriteResponse>`
  pub response_from_str : Text → Result WriteResponse Text
