-- ===== src/Params.antt =====
-- JSON parameters as SQLite values (src/writer.rs, `params_from`).
pub mod Convert
use squeuelite_rs.Common.{
  ℕ, Bool, true, false, Option, none, some, List, [], ◌∷◌, ◌++◌, Text, codes, Result, ok, err,
  map_err, ◌>>=◌,
}
use squeuelite_rs.Common.Int.{ℤ, pos}
use squeuelite_rs.Error.{Error, json, invalid_param}
use squeuelite_rs.Json.{Json, Number, Items, Fields, end, field, get, as_str}
use squeuelite_rs.Codec.{Codec}

-- `rusqlite::types::Value`; a real is the bits of its f64.
pub data SqlValue : Type 0 where
  null : SqlValue
  integer : ℤ → SqlValue
  real : ℕ → SqlValue
  text : Text → SqlValue
  blob : List ℕ → SqlValue

-- `*b as i64`
unfoldable pub bool_as_i64 : Bool → ℤ
bool_as_i64 false = pos 0
bool_as_i64 true = pos 1

unfoldable pub number_to_sqlite : Number → SqlValue
number_to_sqlite n = elim n.as_i64 [
  | some i ↦ integer i
  | none ↦ elim n.as_f64 [ some f ↦ real f | none ↦ text n.to_text ]
]

-- The text under `$blob`, when that is the only key and its value is a string.
unfoldable pub blob_text : Fields → Option Text
unfolding get as_str
blob_text (field k v end) = elim (get (codes "$blob") (field k v end)) [
  | some b ↦ as_str b
  | none ↦ none
]
blob_text _ = none

module _ (codec : Codec) where
  unfoldable pub decode_blob : Text → Result SqlValue Error
  decode_blob encoded =
      map_err (λ e. invalid_param (codes "$blob base64 decode failed: " ++ e))
        (codec.base64_decode encoded)
      >>= λ bytes. ok (blob bytes)

  -- `Value::Text(serde_json::to_string(other)?)`
  unfoldable pub serialised : Json → Result SqlValue Error
  serialised v = map_err json (codec.json_to_string v) >>= λ s. ok (text s)

  unfoldable pub json_to_sqlite : Json → Result SqlValue Error
  unfolding bool_as_i64 number_to_sqlite blob_text decode_blob serialised
  json_to_sqlite Json.null = ok null
  json_to_sqlite (Json.bool b) = ok (integer (bool_as_i64 b))
  json_to_sqlite (Json.number n) = ok (number_to_sqlite n)
  json_to_sqlite (Json.string s) = ok (text s)
  json_to_sqlite (Json.array vs) = serialised (Json.array vs)
  json_to_sqlite (Json.object fs) = elim (blob_text fs) [
    | some encoded ↦ decode_blob encoded
    | none ↦ serialised (Json.object fs)
  ]

  -- `values.iter().map(json_to_sqlite).collect()`: the first error ends it.
  unfoldable pub params_from : List Json → Result (List SqlValue) Error
  unfolding json_to_sqlite
  params_from [] = ok []
  params_from (v ∷ vs) = do x ← json_to_sqlite v; xs ← params_from vs; ok (x ∷ xs)
