-- ===== src/Json.antt =====
-- JSON values, by the constructors of `serde_json::Value` that the program matches on.
use squeuelite_rs.Common.{ℕ, Bool, Option, none, some, List, [], ◌∷◌, Text, text_eq, if◌then◌else◌}
use squeuelite_rs.Common.Int.{ℤ}

-- A JSON number, by what the program reads of it: as an i64, as the bits of an f64, and printed.
pub record Number : Type 0 where
  pub as_i64 : Option ℤ
  pub as_f64 : Option ℕ
  pub to_text : Text

mutual
  pub data Json : Type 0 where
    null : Json
    bool : Bool → Json
    number : Number → Json
    string : Text → Json
    array : Items → Json
    object : Fields → Json

  pub data Items : Type 0 where
    nil : Items
    cons : Json → Items → Items

  -- `serde_json::Map` is a BTreeMap and keeps its keys sorted. A value that the program builds is
  -- written here with its members in that order.
  pub data Fields : Type 0 where
    end : Fields
    field : Text → Json → Fields → Fields

-- `Map::get`
unfoldable pub get : Text → Fields → Option Json
unfolding text_eq
get k end = none
get k (field j v fs) = if text_eq k j then some v else get k fs

-- The values of an array, as `as_array` gives them.
unfoldable pub elements : Items → List Json
elements nil = []
elements (cons v vs) = v ∷ elements vs

unfoldable pub as_str : Json → Option Text
as_str (string s) = some s
as_str _ = none

unfoldable pub as_object : Json → Option Fields
as_object (object fs) = some fs
as_object _ = none

unfoldable pub as_array : Json → Option (List Json)
unfolding elements
as_array (array vs) = some (elements vs)
as_array _ = none
