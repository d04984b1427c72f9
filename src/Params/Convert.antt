-- ===== src/Params/Convert.antt =====
-- `params_from` against the conversion of each value (src/writer.rs).
use squeuelite_rs.Common.{◌≡◌, refl, subst, ◌↔◌, List, [], ◌∷◌, ok, >>=-eq-ok, ◌>>=◌}
use squeuelite_rs.Json.{Json}
use squeuelite_rs.Codec.{Codec}
use squeuelite_rs.Params.{SqlValue, json_to_sqlite, params_from}

module _ (codec : Codec) where
  -- The parameters are as many as the values, and each is the conversion of the value at its place.
  abbrev pub Converted : List Json → List SqlValue → Type 0
  Converted [] [] = Unit {0}
  Converted (v ∷ vs) (x ∷ xs) = (json_to_sqlite codec v ≡ ok x) × Converted vs xs
  Converted _ _ = ⊥

  params_from-Converted :
      (vs : List Json) (xs : List SqlValue) → params_from codec vs ≡ ok xs → Converted vs xs
  unfolding params_from
  params_from-Converted [] [] h = tt
  params_from-Converted [] (x ∷ xs) h = cc
  params_from-Converted (v ∷ vs) xs h =
      let (y, e, h') =
        >>=-eq-ok (json_to_sqlite codec v) (λ y. params_from codec vs >>= λ ys. ok (y ∷ ys)) h in
      let (ys, e', h'') = >>=-eq-ok (params_from codec vs) (λ ys. ok (y ∷ ys)) h' in
      let eq : y ∷ ys ≡ xs = cc in subst (Converted (v ∷ vs)) eq (e, params_from-Converted vs ys e')

  Converted-params_from :
      (vs : List Json) (xs : List SqlValue) → Converted vs xs → params_from codec vs ≡ ok xs
  unfolding params_from
  Converted-params_from [] [] h = refl
  Converted-params_from [] (x ∷ xs) h = absurd h
  Converted-params_from (v ∷ vs) [] h = absurd h
  Converted-params_from (v ∷ vs) (x ∷ xs) (e, rest) = rw (e, Converted-params_from vs xs rest)

  -- The parameters of an operation are the conversions of its values, one for one and in order,
  -- and there are none exactly when a value has no conversion.
  pub params_from_iff :
      (vs : List Json) (xs : List SqlValue) → (params_from codec vs ≡ ok xs) ↔ Converted vs xs
  params_from_iff vs xs = (params_from-Converted vs xs, Converted-params_from vs xs)
