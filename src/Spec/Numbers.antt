-- ===== src/Spec/Numbers.antt =====
-- The numbers of commits on the data alone.
use squeuelite_rs.Common.{
  ℕ, ◌<◌, ◌≡◌, refl, sym, ap, subst, ◌∙◌, ◌⊎◌, inl, inr, Bool, true, false, Option, none, some,
  List, [], ◌∷◌, Text, Result, ok, err, All, arith, Result-cases, Option-cases, >>=-eq-ok, ok_subst,
  map_err, ◌>>=◌,
}
use squeuelite_rs.Common.Int.{ℤ, pos}
use squeuelite_rs.Error.{display}
use squeuelite_rs.Request.{
  SqlOperation, WriteRequest, WriteResponse, committed, failed, failed_response,
}
use squeuelite_rs.Codec.{Codec}
use squeuelite_rs.Params.{SqlValue, params_from}
use squeuelite_rs.Statements.{insert_commit}
use squeuelite_rs.Driver.Laws.{Semantics}
use squeuelite_rs.Writer.{reply, proceed, commit_row, first_rejected}
use squeuelite_rs.Spec.{
  Settings, statement, operations, numbered, remembered, transaction, outcome, resolve, promised,
  admission, by_key,
}

-- What is relied on in the AUTOINCREMENT column of the table of commits. A statement that is `Sparing`
-- puts no row there.
pub record Numbering {D : Type 0} (meaning : Semantics D) (Sparing : Text → Type 0) : Type 0 where
  -- the largest number that was ever given
  pub largest : D → ℕ
  -- a new row gets a larger one
  pub insert_above :
      (ps : List SqlValue) (x : D) (n : ℕ)
      → (meaning.run insert_commit ps x).0 ≡ ok n
      → (largest x < largest (meaning.run insert_commit ps x).1)
        × (meaning.newest_commit (meaning.run insert_commit ps x).1
            ≡ pos (largest (meaning.run insert_commit ps x).1))
  pub sparing_keeps :
      (sql : Text) (ps : List SqlValue) (x : D)
      → Sparing sql
      → largest (meaning.run sql ps x).1 ≡ largest x

-- A request that cannot be answered by a response of an earlier one.
abbrev pub Fresh : Settings → WriteRequest → Type 0
Fresh s req = (s.idempotency ≡ false) ⊎ (req.idempotency_key ≡ none)

module _ {D : Type 0} {meaning : Semantics D} {Sparing : Text → Type 0}
    (numbering : Numbering meaning Sparing) (codec : Codec) where
  statement-largest :
      (sql : Text) (ps : List SqlValue) (x y : D)
      → Sparing sql
      → statement meaning sql ps x ≡ ok y
      → numbering.largest y ≡ numbering.largest x
  unfolding statement
  statement-largest sql ps x y spares h = ground (arith, numbering.sparing_keeps sql ps x spares)

  operations-largest :
      (ops : List SqlOperation) (x y : D)
      → All (λ op. Sparing op.sql) ops
      → operations meaning codec ops x ≡ ok y
      → numbering.largest y ≡ numbering.largest x
  unfolding operations
  operations-largest [] x y spares h = cc
  operations-largest (op ∷ ops) x y spares h =
      let params = map_err display (params_from codec op.params) in
      let (ps, _, h') =
        >>=-eq-ok params (λ ps. statement meaning op.sql ps x >>= operations meaning codec ops) h in
      let (z, first, rest) =
        >>=-eq-ok (statement meaning op.sql ps x) (operations meaning codec ops) h' in
      operations-largest ops z y spares.1 rest ∙ statement-largest op.sql ps x z spares.0 first

  statement-above :
      (ps : List SqlValue) (x y : D)
      → statement meaning insert_commit ps x ≡ ok y
      → (numbering.largest x < numbering.largest y)
        × (meaning.newest_commit y ≡ pos (numbering.largest y))
  unfolding statement
  statement-above ps x y h = elim (Result-cases (meaning.run insert_commit ps x).0) [
    | inl (n, p) ↦
        let same : (meaning.run insert_commit ps x).1 ≡ y = ground arith in
        subst
          (λ z.
            (numbering.largest x < numbering.largest z)
            × (meaning.newest_commit z ≡ pos (numbering.largest z)))
          same (numbering.insert_above ps x n p)
    | inr (m, p) ↦ ground arith
  ]

  -- A commit has a number above the largest before it; a failure leaves the largest.
  abbrev pub Above : D → WriteResponse × D → Type 0
  Above x (resp, y) =
      ((resp.status ≡ failed) × (numbering.largest y ≡ numbering.largest x))
      ⊎ ((resp.status ≡ committed)
          × (resp.commit_seq ≡ some (pos (numbering.largest y)))
          × (numbering.largest x < numbering.largest y))

  numbered-above :
      (req : WriteRequest) (y : D) (r : Option ℤ × D)
      → numbered meaning true req y ≡ ok r
      → (r.0 ≡ some (pos (numbering.largest r.1))) × (numbering.largest y < numbering.largest r.1)
  unfolding numbered
  numbered-above req y r h =
      let (z, inserted, number) =
        >>=-eq-ok (statement meaning insert_commit (commit_row req) y)
          (λ z. ok (some (meaning.newest_commit z), z)) h in
      let (above, newest) = statement-above (commit_row req) y z inserted in
      ok_subst
        (λ r.
          (r.0 ≡ some (pos (numbering.largest r.1)))
          × (numbering.largest y < numbering.largest r.1))
        number (ap some newest, above)

  transaction-above :
      (req : WriteRequest) (x : D) (r : Option ℤ × D)
      → All (λ op. Sparing op.sql) req.operations
      → transaction meaning codec true req none x ≡ ok r
      → (r.0 ≡ some (pos (numbering.largest r.1))) × (numbering.largest x < numbering.largest r.1)
  unfolding transaction remembered
  transaction-above req x r spares ran =
      let (y, ops, rest) =
        >>=-eq-ok (operations meaning codec req.operations x)
          (λ y. numbered meaning true req y >>= λ p. ok (p.0, p.1)) ran in
      let (p, num, last) = >>=-eq-ok (numbered meaning true req y) (λ p. ok (p.0, p.1)) rest in
      let kept = operations-largest req.operations x y spares ops in
      let (number, above) = numbered-above req y p num in
      ok_subst
        (λ r.
          (r.0 ≡ some (pos (numbering.largest r.1)))
          × (numbering.largest x < numbering.largest r.1))
        last (number, omega (arith, above, kept))

  outcome-Above :
      (req : WriteRequest) (x : D) (r : Result (Option ℤ × D) Text)
      → All (λ op. Sparing op.sql) req.operations
      → transaction meaning codec true req none x ≡ r
      → Above x (outcome req.request_id x r)
  outcome-Above req x (err m) spares ran = inl (refl, refl)
  outcome-Above req x (ok r) spares ran =
      let (number, above) = transaction-above req x r spares ran in inr (refl, number, above)

  by_key-none :
      (on : Bool) (req : WriteRequest) (x : D) → by_key meaning codec on none req x ≡ proceed none
  unfolding by_key
  by_key-none false req x = refl
  by_key-none true req x = refl

  by_key-Fresh :
      (s : Settings) (req : WriteRequest) (x : D)
      → Fresh s req
      → by_key meaning codec s.idempotency req.idempotency_key req x ≡ proceed none
  unfolding by_key
  by_key-Fresh s req x (inl off) = ap (λ on. by_key meaning codec on req.idempotency_key req x) off
  by_key-Fresh s req x (inr keyless) =
      ap (λ key. by_key meaning codec s.idempotency key req x) keyless
      ∙ by_key-none s.idempotency req x

  admission-Fresh :
      (s : Settings) (req : WriteRequest) (x : D)
      → Fresh s req
      → (admission meaning codec s req x ≡ proceed none)
        ⊎ ((m : Text) × (admission meaning codec s req x
              ≡ reply (failed_response req.request_id m)))
  unfolding admission
  admission-Fresh s req x fresh = elim (Option-cases (first_rejected req.operations s.config)) [
    | inl e ↦ inl (rw (e, admission) (by_key-Fresh s req x fresh))
    | inr (m, e) ↦ inr (m, rw (e, admission) refl)
  ]

  pub promised-Above :
      (s : Settings) (req : WriteRequest) (x : D)
      → s.track ≡ true
      → Fresh s req
      → All (λ op. Sparing op.sql) req.operations
      → Above x (promised meaning codec s req x)
  unfolding promised resolve
  promised-Above s req x tracks fresh spares = elim (admission-Fresh s req x fresh) [
    | inr (m, rejected) ↦
        subst (λ a. Above x (resolve meaning codec s req x a)) (sym rejected) (inl (refl, refl))
    | inl goes ↦
        subst (λ a. Above x (resolve meaning codec s req x a)) (sym goes)
          (subst (λ t. Above x (outcome req.request_id x (transaction meaning codec t req none x)))
            (sym tracks)
            (outcome-Above req x (transaction meaning codec true req none x) spares refl))
  ]
