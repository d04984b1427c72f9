-- ===== src/Tests/Checks.antt =====
-- The theorems on validation, parameters, latencies and collection at concrete inputs.
use squeuelite_rs.Common.{◌≡◌, ◌↔◌, refl, true, List, [], ◌∷◌, codes, ok}
use squeuelite_rs.Common.Int.{pos}
use squeuelite_rs.Config.{default_config}
use squeuelite_rs.Json.{Json, bool, string, object, field, end}
use squeuelite_rs.Params.{SqlValue, integer, text, blob, params_from}
use squeuelite_rs.Validate.{validate_sql, first_token}
use squeuelite_rs.Validate.Policy.{Allowed, token_of, validate_sql_iff}
use squeuelite_rs.Validate.Gaps.{contains, validate_sql-semicolon}
use squeuelite_rs.Latency.Window.{window, push_all, push_all_lem}
use squeuelite_rs.Tests.Encoding.{codec}

accepts_insert : validate_sql (codes " \n insert INTO t VALUES (1)") default_config ≡ ok tt
unfolding validate_sql
accepts_insert = refl

validate_sql_iff_example :
    (validate_sql (codes "drop TABLE t") default_config ≡ ok tt)
    ↔ Allowed default_config (token_of (codes "drop TABLE t"))
validate_sql_iff_example = validate_sql_iff (codes "drop TABLE t") default_config

validate_sql-semicolon_example : validate_sql (codes "COMMIT;") default_config ≡ ok tt
unfolding first_token contains
validate_sql-semicolon_example = validate_sql-semicolon (codes "COMMIT;") default_config refl refl

abbrev values : List Json
values =
    bool true ∷ string (codes "a") ∷ object (field (codes "$blob") (string (codes "YQ==")) end) ∷ []

abbrev parameters : List SqlValue
parameters = integer (pos 1) ∷ text (codes "a") ∷ blob (codes "YQ==") ∷ []

converts : params_from codec values ≡ ok parameters
unfolding params_from codec
converts = refl

push_all_lem_example : push_all [] (3 ∷ 1 ∷ 2 ∷ []) ≡ window (3 ∷ 1 ∷ 2 ∷ [])
push_all_lem_example = push_all_lem (3 ∷ 1 ∷ 2 ∷ [])
