-- ===== src/Validate/Policy.antt =====
-- What `validate_sql` accepts, against the configuration.
use squeuelite_rs.Common.{◌≡◌, ◌↔◌, true, false, Text, codes, ok, arith, text_eq_iff, one_of}
use squeuelite_rs.Config.{GatewayConfig}
use squeuelite_rs.Validate.{
  validate_sql, check_token, first_token, to_ascii_uppercase, transaction_keywords, schema_keywords,
}

-- What the configuration has to allow for a statement with this first token, in upper case.
abbrev pub Allowed : GatewayConfig → Text → Type 0
Allowed config token =
    (config.allow_raw_sql ≡ true)
    × (one_of token transaction_keywords ≡ false)
    × (token ≡ codes "DROP" → config.allow_drop ≡ true)
    × (token ≡ codes "DELETE" → config.allow_delete ≡ true)
    × (one_of token schema_keywords ≡ true → config.allow_schema_write ≡ true)

abbrev pub token_of : Text → Text
token_of sql = to_ascii_uppercase (first_token sql)

-- A statement passes exactly when the configuration allows raw SQL, its first token is no keyword
-- of transaction control, and the configuration allows what the token stands for.
pub validate_sql_iff :
    (sql : Text) (config : GatewayConfig)
    → (validate_sql sql config ≡ ok tt) ↔ Allowed config (token_of sql)
unfolding validate_sql check_token
validate_sql_iff sql config =
    let drop = text_eq_iff (token_of sql) (codes "DROP") in
    let delete = text_eq_iff (token_of sql) (codes "DELETE") in ground arith
