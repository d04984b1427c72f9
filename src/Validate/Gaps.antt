-- ===== src/Validate/Gaps.antt =====
-- How `validate_sql` reads the first token: what it looks through and what it misses.
use squeuelite_rs.Common.{
  ◌≡◌, refl, ◌∙◌, inl, inr, Bool, true, false, ◌||◌, List, [], ◌∷◌, ◌++◌, Text, codes, ok, ◌==◌,
  All, arith, text_eq, text_eq→eq, one_of, Bool-cases, ℕ,
}
use squeuelite_rs.Config.{GatewayConfig}
use squeuelite_rs.Validate.{
  validate_sql, check_token, first_token, trim_start, drop_while, to_ascii_upper,
  to_ascii_uppercase, is_whitespace, transaction_keywords, schema_keywords,
}

drop_while-append :
    (p : ℕ → Bool) (ws s : Text)
    → All (λ c. p c ≡ true) ws
    → drop_while p (ws ++ s) ≡ drop_while p s
unfolding drop_while
drop_while-append p [] s h = refl
drop_while-append p (c ∷ ws) s h = rw (h.0, drop_while) (drop_while-append p ws s h.1)

-- White space in front of a statement does not change the verdict on it.
pub validate_sql-whitespace :
    (ws sql : Text) (config : GatewayConfig)
    → All (λ c. is_whitespace c ≡ true) ws
    → validate_sql (ws ++ sql) config ≡ validate_sql sql config
unfolding validate_sql first_token trim_start
validate_sql-whitespace ws sql config h =
    let skipped : trim_start (ws ++ sql) ≡ trim_start sql =
      drop_while-append is_whitespace ws sql h in
    rw skipped

unfoldable pub contains : ℕ → Text → Bool
contains c [] = false
contains c (d ∷ s) = d == c || contains c s

text_eq-contains :
    (c : ℕ) (s t : Text) → contains c s ≡ true → contains c t ≡ false → text_eq s t ≡ false
text_eq-contains c s t h k = elim (Bool-cases (text_eq s t)) [
  | inl same ↦ let e = text_eq→eq s t same in cc
  | inr apart ↦ apart
]

one_of-contains :
    (c : ℕ) (s : Text) (ks : List Text)
    → contains c s ≡ true
    → All (λ k. contains c k ≡ false) ks
    → one_of s ks ≡ false
unfolding one_of
one_of-contains c s [] h none = refl
one_of-contains c s (k ∷ ks) h none =
    let apart = text_eq-contains c s k h none.0 in
    let rest = one_of-contains c s ks h none.1 in ground arith

upper-semicolon : (c : ℕ) → (to_ascii_upper c == b';') ≡ (c == b';')
unfolding to_ascii_upper
upper-semicolon c = ground arith

contains-upper : (s : Text) → contains b';' (to_ascii_uppercase s) ≡ contains b';' s
unfolding contains to_ascii_uppercase
contains-upper [] = refl
contains-upper (c ∷ s) = rw (upper-semicolon c, contains-upper s)

-- A statement whose first token has a semicolon in it, such as `COMMIT;`, passes whatever the
-- keyword is, once raw SQL is allowed.
pub validate_sql-semicolon :
    (sql : Text) (config : GatewayConfig)
    → config.allow_raw_sql ≡ true
    → contains b';' (first_token sql) ≡ true
    → validate_sql sql config ≡ ok tt
unfolding validate_sql check_token contains text_eq
validate_sql-semicolon sql config raw found =
    let t = to_ascii_uppercase (first_token sql) in
    let here : contains b';' t ≡ true = contains-upper (first_token sql) ∙ found in
    let control =
      one_of-contains b';' t transaction_keywords here
        (refl, (refl, (refl, (refl, (refl, (refl, tt)))))) in
    let schema = one_of-contains b';' t schema_keywords here (refl, (refl, (refl, (refl, tt)))) in
    let drop = text_eq-contains b';' t (codes "DROP") here refl in
    let delete = text_eq-contains b';' t (codes "DELETE") here refl in
    rw (raw, control, schema, drop, delete)
