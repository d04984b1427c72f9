-- ===== src/Http/Bearer.antt =====
-- Which calls get past the bearer token (src/http.rs, `rpc_handler`).
use squeuelite_rs.Common.{
  ◌≡◌, ◌≢◌, refl, sym, ap, ◌∙◌, inl, inr, ◌⊎◌, true, false, Option, none, some, [], ◌∷◌, ◌++◌, Text,
  text_eq_iff, text_eq_refl, ==_iff, Bool-cases, arith,
}
use squeuelite_rs.Stats.{Stats}
use squeuelite_rs.Rpc.{Serde, Handle}
use squeuelite_rs.Http.{
  strip_prefix, bearer, matches_token, is_authorized, unauthorized_401, unauthorized, rpc_handler,
}

bool_apart : true ≡ false → ⊥
bool_apart e = cc

strip_prefix-append : (p s : Text) → strip_prefix p (p ++ s) ≡ some s
unfolding strip_prefix
strip_prefix-append [] s = refl
strip_prefix-append (c ∷ p) s = rw ((==_iff c c).1 refl, strip_prefix-append p s)

strip_prefix-eq-some : (p s t : Text) → strip_prefix p s ≡ some t → s ≡ p ++ t
unfolding strip_prefix
strip_prefix-eq-some [] s t h = cc
strip_prefix-eq-some (c ∷ p) [] t h = cc
strip_prefix-eq-some (c ∷ p) (d ∷ s) t h = let later = strip_prefix-eq-some p s t in ground arith

matches_token-eq :
    (expected : Text) (o : Option Text) → matches_token expected o ≡ true → o ≡ some expected
matches_token-eq expected none h = cc
matches_token-eq expected (some token) h = ap some ((text_eq_iff token expected).0 h)

authorized→bearer :
    (expected : Text) (header : Option Text)
    → is_authorized expected header ≡ true
    → header ≡ some (bearer ++ expected)
unfolding is_authorized
authorized→bearer expected none h = cc
authorized→bearer expected (some value) h =
    let token = matches_token-eq expected (strip_prefix bearer value) h in
    ap some (strip_prefix-eq-some bearer value expected token)

bearer→authorized : (expected : Text) → is_authorized expected (some (bearer ++ expected)) ≡ true
unfolding is_authorized
bearer→authorized expected =
    ap (matches_token expected) (strip_prefix-append bearer expected) ∙ text_eq_refl expected

module _ {W : Type 0} (serde : Serde) (handle : Handle W) (db_path : Text) where
  -- With a token configured, a call whose header is "Bearer " and the token is handled as without
  -- one, and a call with any other header, or none, is answered 401 and reaches nothing: counters
  -- and gateway are as before.
  pub rpc_handler-bearer :
      (expected : Text) (header body : Option Text) (s : Stats) (w : W)
      → ((header ≡ some (bearer ++ expected))
          × (rpc_handler serde handle db_path (some expected) header body s w
              ≡ rpc_handler serde handle db_path none header body s w))
        ⊎ ((header ≢ some (bearer ++ expected))
            × (rpc_handler serde handle db_path (some expected) header body s w
                ≡ ((unauthorized_401, unauthorized), s, w)))
  unfolding rpc_handler
  rpc_handler-bearer expected header body s w = elim (Bool-cases (is_authorized expected header)) [
    | inl e ↦ inl (authorized→bearer expected header e, rw e)
    | inr e ↦ inr (
      λ same.
          let yes : is_authorized expected header ≡ true =
            ap (is_authorized expected) same ∙ bearer→authorized expected in
          bool_apart (sym yes ∙ e),
      rw e,
    )
  ]
