-- ===== src/Effect.antt =====
-- Code that moves a state and may return early with an error. What it did before an early return is
-- not undone by itself.
use squeuelite_rs.Common.{Text, Result, ok, err}

abbrev pub Eff : Type 0 → Type 0 → Type 0 → Type 0
Eff C E A = C → Result A E × C

-- Code inside a transaction moves the connection, and its error is the message for the failed
-- response.
abbrev pub Tx : Type 0 → Type 0 → Type 0
Tx C A = Eff C Text A

module _ {C E A : Type 0} where
  abbrev pub pure : A → Eff C E A
  pure a c = (ok a, c)

  -- A result that is there already.
  abbrev pub lift : Result A E → Eff C E A
  lift r c = (r, c)

  abbrev pub gets : (C → A) → Eff C E A
  gets f c = (ok (f c), c)

  abbrev pub gets_result : (C → Result A E) → Eff C E A
  gets_result f c = (f c, c)

  -- A call that moves the state and cannot fail.
  abbrev pub call : (C → A × C) → Eff C E A
  call f c = (ok (f c).0, (f c).1)

module _ {C E A B : Type 0} where
  abbrev pub continue : Result A E → (A → Eff C E B) → Eff C E B
  continue (ok a) f c = f a c
  continue (err m) f c = (err m, c)

  infixl 5 ◌>>=◌ ◌>>◌
  abbrev pub ◌>>=◌ : Eff C E A → (A → Eff C E B) → Eff C E B
  ◌>>=◌ m f c = continue (m c).0 f (m c).1

  abbrev pub ◌>>◌ : Eff C E A → Eff C E B → Eff C E B
  m >> k = m >>= λ _. k
