-- ===== src/Binary/Octal.antt =====
-- A mode as it is printed and as `--socket-mode` reads it (src/bin/squeuelite-gateway.rs).
use squeuelite_rs.Common.{
  ℕ, zero, suc, ◌+◌, ◌/◌, ◌%◌, ◌^◌, ◌<◌, ◌≡◌, ap, sym, some, [], ◌∷◌, Text, ltb, arith,
  if◌then◌else◌, refl, ◌∙◌, ◌-◌, ◌*◌, ◌==◌, Bool-cases, inl, inr, true, false, ◌&&◌,
}
use squeuelite_rs.Binary.{octal_digits, from_octal, is_octal}

-- The octal digits of a number, before those of `rest`. The fuel bounds the digits.
unfoldable pub digits : ℕ → ℕ → Text → Text
digits zero n rest = rest
digits (suc fuel) n rest =
    let more = digits fuel (n / 8) ((b'0' + n % 8) ∷ rest) in
    if ltb n 8 then (b'0' + n) ∷ rest else more

-- `{m:o}`
unfoldable pub octal : ℕ → Text
unfolding digits
octal m = digits (m + 1) m []

octal_digits-digit :
    (n d : ℕ) (rest : Text)
    → d < 8
    → n * 8 + d < 2 ^ 32
    → octal_digits n ((b'0' + d) ∷ rest) ≡ octal_digits (n * 8 + d) rest
unfolding octal_digits
octal_digits-digit n d rest is_digit fits =
    let value : (b'0' + d) - b'0' ≡ d = omega (arith, is_digit) in
    let read : (is_octal (b'0' + d) && ltb (n * 8 + ((b'0' + d) - b'0')) (2 ^ 32)) ≡ true =
      ground arith in
    rw (read, value)

octal_digits-digits :
    (fuel n : ℕ) (rest : Text)
    → n < fuel
    → n < 2 ^ 32
    → octal_digits 0 (digits fuel n rest) ≡ octal_digits n rest
unfolding digits
octal_digits-digits zero n rest enough fits = grind arith
octal_digits-digits (suc fuel) n rest enough fits = elim (Bool-cases (ltb n 8)) [
  | inl small ↦ rw small (
      octal_digits-digit 0 n rest (ground arith) (omega (arith, fits))
      ∙ ap (λ k. octal_digits k rest) (omega arith))
  | inr large ↦ rw large (
      octal_digits-digits fuel (n / 8) ((b'0' + n % 8) ∷ rest) (ground arith) (omega (arith, fits))
      ∙ octal_digits-digit (n / 8) (n % 8) rest (omega arith) (omega (arith, fits))
      ∙ ap (λ k. octal_digits k rest) (omega arith))
]

digits-head :
    (fuel n : ℕ) (rest : Text)
    → n < fuel
    → (d : ℕ) × (s : Text) × (d < 8) × (digits fuel n rest ≡ (b'0' + d) ∷ s)
unfolding digits
digits-head zero n rest enough = grind arith
digits-head (suc fuel) n rest enough = elim (Bool-cases (ltb n 8)) [
  | inl small ↦ rw small (n, rest, ground arith, refl)
  | inr large ↦ rw large (digits-head fuel (n / 8) ((b'0' + n % 8) ∷ rest) (ground arith))
]

from_octal-digit :
    (d : ℕ) (s : Text) → d < 8 → from_octal ((b'0' + d) ∷ s) ≡ octal_digits 0 ((b'0' + d) ∷ s)
unfolding from_octal
from_octal-digit d s is_digit =
    let not_plus : ((b'0' + d) == b'+') ≡ false = ground arith in rw not_plus

-- A mode as it is printed is read as that mode.
pub from_octal-octal : (m : ℕ) → m < 2 ^ 32 → from_octal (octal m) ≡ some m
unfolding octal octal_digits
from_octal-octal m fits =
    let (d, s, is_digit, printed) = digits-head (m + 1) m [] (omega arith) in
    ap from_octal printed
    ∙ from_octal-digit d s is_digit
    ∙ sym (ap (octal_digits 0) printed)
    ∙ octal_digits-digits (m + 1) m [] (omega arith) fits
