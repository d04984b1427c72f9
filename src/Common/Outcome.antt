-- ===== src/Common/Outcome.antt =====
-- `Result<A, E>`, and its `?` as a bind.
use mathlib.Core.Path.{◌≡◌, refl, ap, subst}
use mathlib.Core.Logic.{◌⊎◌, inl, inr}

pub data Result {ℓ κ} (A : Type ℓ) (E : Type κ) : Type (ℓ ⊔ κ) where
  ok : A → Result A E
  err : E → Result A E

module _ {ℓ κ} {E : Type κ} where
  infixl 5 ◌>>=◌ ◌>>◌
  abbrev pub ◌>>=◌ {ℓ'} : {A : Type ℓ} {B : Type ℓ'} → Result A E → (A → Result B E) → Result B E
  ok a >>= f = f a
  err e >>= f = err e

  abbrev pub ◌>>◌ : {B : Type ℓ} → Result (Unit {0}) E → Result B E → Result B E
  ok _ >> k = k
  err e >> k = err e

pub Result-cases {ℓ κ} :
    {A : Type ℓ} {E : Type κ} (r : Result A E) → ((a : A) × (r ≡ ok a)) ⊎ ((e : E) × (r ≡ err e))
Result-cases (ok a) = inl (a, refl)
Result-cases (err e) = inr (e, refl)

-- `.map_err(f)`
abbrev pub map_err {ℓ κ κ'} :
    {A : Type ℓ} {E : Type κ} {F : Type κ'} → (E → F) → Result A E → Result A F
map_err f (ok a) = ok a
map_err f (err e) = err (f e)

-- What a successful chain went through.
pub >>=-eq-ok {ℓ ℓ' κ} :
    {A : Type ℓ} {B : Type ℓ'} {E : Type κ} (first : Result A E) (next : A → Result B E) {z : B}
    → (first >>= next) ≡ ok z
    → (value : A) × (first ≡ ok value) × (next value ≡ ok z)
>>=-eq-ok (ok value) next done = (value, refl, done)
>>=-eq-ok (err refused) next done = cc

-- A chain whose first step succeeds.
pub >>=-ok {ℓ ℓ' κ} :
    {A : Type ℓ} {B : Type ℓ'} {E : Type κ} {first : Result A E} {value : A} (next : A → Result B E)
    → first ≡ ok value
    → (first >>= next) ≡ next value
>>=-ok next succeeded = ap (λ r. r >>= next) succeeded

-- A predicate on the value of a success.
abbrev pub Succeeds {ℓ κ ι} : {A : Type ℓ} {E : Type κ} → (A → Type ι) → Result A E → Type ι
Succeeds P (ok a) = P a
Succeeds P (err e) = Unit

pub ok_subst {ℓ κ ι} :
    {A : Type ℓ} {E : Type κ} {a b : A} (P : A → Type ι)
    → ◌≡◌ {A = Result A E} (ok a) (ok b)
    → P a
    → P b
ok_subst P same holds = subst (Succeeds P) same holds
