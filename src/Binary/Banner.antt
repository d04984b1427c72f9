-- ===== src/Binary/Banner.antt =====
-- What is printed of a configuration: the first line of `main`, and the debug output of `HttpConfig`
-- (src/bin/squeuelite-gateway.rs, `main`; src/http.rs).
use squeuelite_rs.Common.{◌≡◌, refl, Option, none, some, [], ◌++◌, Text, codes}
use squeuelite_rs.Binary.{Args}
use squeuelite_rs.Binary.Octal.{octal}
use squeuelite_rs.Http.Server.{HttpConfig}

-- `map(format).unwrap_or_default()`
abbrev pub shown : {A : Type 0} → (A → Text) → Option A → Text
shown format none = []
shown format (some a) = format a

unfoldable pub banner : Args → Text
unfolding octal
banner a =
    codes "[squeuelite-gateway] db="
    ++ (a.db_path
        ++ (shown (λ s. codes " socket=" ++ s) a.socket_path
            ++ (shown (λ m. codes " socket_mode=0o" ++ octal m) a.socket_mode
                ++ (shown (λ s. codes " http=" ++ s) a.http_addr
                    ++ shown (λ token. codes " http_auth=bearer") a.http_token))))

-- `<redacted>` in the place of a token.
abbrev pub redacted : Option Text → Option Text
redacted none = none
redacted (some token) = some (codes "<redacted>")

-- `Debug for HttpConfig`, by what `debug_struct` prints of an address and a token.
abbrev pub debug_config : {A : Type 0} → (A → Option Text → Text) → HttpConfig A → Text
debug_config debug_struct config = debug_struct config.addr (redacted config.auth_token)

-- Neither shows more of a token than that there is one.
banner-token :
    (a : Args) (t u : Text)
    → banner (record a { http_token = some t }) ≡ banner (record a { http_token = some u })
unfolding banner
banner-token a t u = refl

debug_config-token :
    {A : Type 0} (debug_struct : A → Option Text → Text) (c : HttpConfig A) (t u : Text)
    → debug_config debug_struct (record c { auth_token = some t })
      ≡ debug_config debug_struct (record c { auth_token = some u })
debug_config-token debug_struct c t u = refl
