-- ===== src/Binary/Scan.antt =====
-- The flags of a command line as pairs of a name and a value (src/bin/squeuelite-gateway.rs, the
-- loop of `parse_args`).
use squeuelite_rs.Common.{
  ℕ, zero, suc, ◌+◌, ◌≤◌, ◌≡◌, ap, sym, refl, ◌∙◌, true, false, Option, some, none, List, [], ◌∷◌,
  Text, Result, ok, err, ◌>>=◌, arith, if◌then◌else◌, length, get_elem?, drop, drop-cases, drop-suc,
  Bool-cases, Result-cases, inl, inr,
}
use squeuelite_rs.Binary.{Flags, Refused, store, takes_value, store_next, parse_arg, parse_loop}

-- Every name that takes a value and has one, with the value.
unfoldable pub pairs : List Text → List (Text × Text)
unfolding takes_value
pairs [] = []
pairs (name ∷ []) = []
pairs (name ∷ value ∷ rest) =
    let taken = pairs rest in
    let passed = pairs (value ∷ rest) in if takes_value name then (name, value) ∷ taken else passed

unfoldable pub store_all : List (Text × Text) → Flags → Result Flags Refused
unfolding store
store_all [] flags = ok flags
store_all ((name, value) ∷ ps) flags = store name value flags >>= store_all ps

parse_loop-end :
    (fuel : ℕ) (args : List Text) (i : ℕ) (flags : Flags)
    → get_elem? args i ≡ none
    → drop i args ≡ []
    → parse_loop (suc fuel) args i flags ≡ some (store_all (pairs (drop i args)) flags)
unfolding parse_loop pairs store_all
parse_loop-end fuel args i flags absent gone = rw (absent, gone, parse_loop) refl

-- What the loop makes of what its body gives.
abbrev loop_on : ℕ → List Text → Result (ℕ × Flags) Refused → Option (Result Flags Refused)
loop_on fuel args (err refused) = some (err refused)
loop_on fuel args (ok next) = parse_loop fuel args next.0 next.1

parse_loop-found :
    (fuel : ℕ) (args : List Text) (i : ℕ) (flags : Flags) (name : Text)
    → get_elem? args i ≡ some name
    → parse_loop (suc fuel) args i flags ≡ loop_on fuel args (parse_arg args i name flags)
unfolding parse_loop
parse_loop-found fuel args i flags name found =
    rw (found, parse_loop)
      (elim (Result-cases (parse_arg args i name flags)) [
        | inl (next, e) ↦ rw e refl
        | inr (refused, e) ↦ rw e refl
      ])

parse_arg-passed :
    (args : List Text) (i : ℕ) (name : Text) (flags : Flags)
    → takes_value name ≡ false
    → parse_arg args i name flags ≡ ok (suc i, flags)
unfolding parse_arg
parse_arg-passed args i name flags passed =
    let next : i + 1 ≡ suc i = omega arith in rw (passed, next) refl

parse_arg-taken :
    (args : List Text) (i : ℕ) (name : Text) (flags : Flags)
    → takes_value name ≡ true
    → parse_arg args i name flags
      ≡ (store_next name (get_elem? args (suc i)) flags >>= λ flags'. ok (suc (suc i), flags'))
unfolding parse_arg
parse_arg-taken args i name flags taken =
    let next : i + 1 ≡ suc i = omega arith in
    let after : i + 2 ≡ suc (suc i) = omega arith in rw (taken, next, after) refl

pairs-passed :
    (name : Text) (rest : List Text) → takes_value name ≡ false → pairs (name ∷ rest) ≡ pairs rest
unfolding pairs
pairs-passed name [] passed = refl
pairs-passed name (value ∷ rest) passed = rw passed refl

pairs-taken :
    (name value : Text) (rest : List Text)
    → takes_value name ≡ true
    → pairs (name ∷ value ∷ rest) ≡ (name, value) ∷ pairs rest
unfolding pairs
pairs-taken name value rest taken = rw taken refl

-- What is left to do after a flag at index `i` that takes a value.
abbrev after_flag : ℕ → List Text → ℕ → Text → Flags → Option (Result Flags Refused)
after_flag fuel args i name flags =
    loop_on fuel args
      (store_next name (get_elem? args (suc i)) flags >>= λ flags'. ok (suc (suc i), flags'))

-- The loop from an index has stored the pairs from there on.
abbrev Scanned : ℕ → List Text → ℕ → Flags → Type 0
Scanned fuel args i flags =
    parse_loop (suc fuel) args i flags ≡ some (store_all (pairs (drop i args)) flags)

after_flag-end :
    (fuel : ℕ) (args : List Text) (i : ℕ) (name : Text) (flags : Flags)
    → drop i args ≡ name ∷ drop (suc i) args
    → get_elem? args (suc i) ≡ none
    → drop (suc i) args ≡ []
    → Scanned fuel args (suc (suc i)) flags
    → after_flag (suc fuel) args i name flags ≡ some (store_all (pairs (drop i args)) flags)
unfolding store_all pairs
after_flag-end fuel args i name flags later absent gone next =
    let last : pairs (drop i args) ≡ [] = ap pairs (later ∙ ap (λ l. name ∷ l) gone) in
    let ended : drop (suc (suc i)) args ≡ [] = drop-suc (suc i) args ∙ ap (drop 1) gone in
    rw (absent, last) (next ∙ ap (λ l. some (store_all (pairs l) flags)) ended)

after_flag-value :
    (fuel : ℕ) (args : List Text) (i : ℕ) (name value : Text) (flags : Flags)
    → takes_value name ≡ true
    → drop i args ≡ name ∷ drop (suc i) args
    → get_elem? args (suc i) ≡ some value
    → drop (suc i) args ≡ value ∷ drop (suc (suc i)) args
    → ((flags' : Flags) → Scanned fuel args (suc (suc i)) flags')
    → after_flag (suc fuel) args i name flags ≡ some (store_all (pairs (drop i args)) flags)
unfolding store_all
after_flag-value fuel args i name value flags taken later found later' next =
    let first : pairs (drop i args) ≡ (name, value) ∷ pairs (drop (suc (suc i)) args) =
      ap pairs (later ∙ ap (λ l. name ∷ l) later')
      ∙ pairs-taken name value (drop (suc (suc i)) args) taken in
    rw (found, first)
      (elim (Result-cases (store name value flags)) [
        | inl (flags', e) ↦ rw e (next flags')
        | inr (refused, e) ↦ rw e refl
      ])

-- From any index, the loop gets to the end of the arguments, and has then stored the pairs that
-- stand from there on. The fuel is the distance to the end.
pub parse_loop-pairs :
    (fuel : ℕ) (args : List Text) (i : ℕ) (flags : Flags)
    → length args ≤ i + fuel
    → parse_loop (suc fuel) args i flags ≡ some (store_all (pairs (drop i args)) flags)
parse_loop-pairs zero args i flags enough = elim (drop-cases i args) [
  | inl (absent, gone) ↦ parse_loop-end zero args i flags absent gone
  | inr (name, found, later, below) ↦ grind arith
]
parse_loop-pairs (suc fuel) args i flags enough = elim (drop-cases i args) [
  | inl (absent, gone) ↦ parse_loop-end (suc fuel) args i flags absent gone
  | inr (name, found, later, below) ↦
      parse_loop-found (suc fuel) args i flags name found ∙ elim (Bool-cases (takes_value name)) [
        | inr passed ↦
            ap (loop_on (suc fuel) args) (parse_arg-passed args i name flags passed)
            ∙ parse_loop-pairs fuel args (suc i) flags (omega (arith, enough))
            ∙ sym (
                ap (λ ps. some (store_all ps flags))
                  (ap pairs later ∙ pairs-passed name (drop (suc i) args) passed))
        | inl taken ↦
            let next = λ (flags' : Flags).
              parse_loop-pairs fuel args (suc (suc i)) flags' (omega (arith, enough)) in
            ap (loop_on (suc fuel) args) (parse_arg-taken args i name flags taken)
            ∙ elim (drop-cases (suc i) args) [
              | inl (absent, gone) ↦
                  after_flag-end fuel args i name flags later absent gone (next flags)
              | inr (value, found', later', below') ↦
                  after_flag-value fuel args i name value flags taken later found' later' next
            ]
      ]
]
