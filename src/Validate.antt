-- ===== src/Validate.antt =====
-- The checks on a SQL statement before it is run (src/writer.rs, `validate_sql`).
pub mod Policy
pub mod Gaps
use squeuelite_rs.Common.{
  ℕ, ◌-◌, Bool, true, false, not, ◌&&◌, ◌||◌, List, [], ◌∷◌, ◌++◌, map, Text, codes, text_eq,
  one_of, Result, ok, err, ltb, leb, ◌==◌, if◌then◌else◌,
}
use squeuelite_rs.Config.{GatewayConfig}
use squeuelite_rs.Error.{Error, sql_rejected}

-- `char::is_whitespace`: Unicode White_Space.
unfoldable pub is_whitespace : ℕ → Bool
is_whitespace c =
    (leb 9 c && leb c 13)
    || c == 32
    || c == 0x85
    || c == 0xA0
    || c == 0x1680
    || (leb 0x2000 c && leb c 0x200A)
    || c == 0x2028
    || c == 0x2029
    || c == 0x202F
    || c == 0x205F
    || c == 0x3000

pub is_ascii_whitespace : ℕ → Bool
is_ascii_whitespace c = c == 9 || c == 10 || c == 12 || c == 13 || c == 32

pub drop_while : (ℕ → Bool) → Text → Text
drop_while p [] = []
drop_while p (c ∷ s) = if p c then drop_while p s else c ∷ s

pub take_until : (ℕ → Bool) → Text → Text
take_until p [] = []
take_until p (c ∷ s) = if p c then [] else c ∷ take_until p s

pub trim_start : Text → Text
unfolding drop_while is_whitespace
trim_start s = drop_while is_whitespace s

-- `sql.trim_start().split_ascii_whitespace().next().unwrap_or("")`
unfoldable pub first_token : Text → Text
unfolding trim_start take_until drop_while is_ascii_whitespace
first_token sql = take_until is_ascii_whitespace (drop_while is_ascii_whitespace (trim_start sql))

pub to_ascii_upper : ℕ → ℕ
to_ascii_upper c = if leb 97 c && leb c 122 then c - 32 else c

-- `str::to_ascii_uppercase`
pub to_ascii_uppercase : Text → Text
unfolding to_ascii_upper
to_ascii_uppercase = map to_ascii_upper

abbrev pub transaction_keywords : List Text
transaction_keywords =
    codes "BEGIN"
    ∷ codes "COMMIT"
    ∷ codes "ROLLBACK"
    ∷ codes "SAVEPOINT"
    ∷ codes "RELEASE"
    ∷ codes "PRAGMA"
    ∷ []

abbrev pub schema_keywords : List Text
schema_keywords = codes "CREATE" ∷ codes "ALTER" ∷ codes "DROP" ∷ codes "TRUNCATE" ∷ []

abbrev pub raw_sql_message : Text
raw_sql_message = codes "raw SQL is disabled (allow_raw_sql = false)"

abbrev pub drop_message : Text
drop_message = codes "DROP statements are disabled (allow_drop = false)"

abbrev pub delete_message : Text
delete_message = codes "DELETE statements are disabled (allow_delete = false)"

-- Rules 2 to 5, on the first token and its upper case.
pub check_token : Text → Text → GatewayConfig → Result (Unit {0}) Error
unfolding one_of text_eq
check_token first token config =
    if one_of token transaction_keywords
    then err
        (sql_rejected (codes "statement starts with forbidden keyword '" ++ (first ++ codes "'")))
    else if text_eq token (codes "DROP") && not config.allow_drop
    then err (sql_rejected drop_message)
    else if text_eq token (codes "DELETE") && not config.allow_delete
    then err (sql_rejected delete_message)
    else if one_of token schema_keywords && not config.allow_schema_write
    then err (
        sql_rejected (
          codes
            "schema-write statements are disabled (allow_schema_write = false); statement starts with '"
          ++ (first ++ codes "'")))
    else ok tt

unfoldable pub validate_sql : Text → GatewayConfig → Result (Unit {0}) Error
unfolding first_token to_ascii_uppercase check_token
validate_sql sql config =
    if not config.allow_raw_sql
    then err (sql_rejected raw_sql_message)
    else check_token (first_token sql) (to_ascii_uppercase (first_token sql)) config
