-- ===== src/Writer/Atomic.antt =====
-- Requests that fail, and a driver that refuses no transaction control: what `apply` then gives.
use squeuelite_rs.Common.{◌≡◌, refl, sym, ap, ◌∙◌, inl, inr, Option, Text, Result, ok, err}
use squeuelite_rs.Common.Int.{ℤ}
use squeuelite_rs.Request.{WriteRequest, WriteResponse, failed}
use squeuelite_rs.Codec.{Codec}
use squeuelite_rs.Driver.{Driver}
use squeuelite_rs.Driver.Snapshots.{idle}
use squeuelite_rs.Driver.Laws.{Semantics, Laws}
use squeuelite_rs.Driver.Refusal.{Willing, not-Refusal}
use squeuelite_rs.Writer.{Writer, Admission, reply, proceed, apply}
use squeuelite_rs.Writer.Refinement.{settings_of, PlainRequest, apply-Ends}
use squeuelite_rs.Spec.{Settings, outcome, transaction, admission, resolve, promised}

outcome-failed :
    {D : Type 0} (id : Text) (x : D) (r : Result (Option ℤ × D) Text)
    → (outcome id x r).0.status ≡ failed
    → (outcome id x r).1 ≡ x
outcome-failed id x (ok (seq, y)) h = cc
outcome-failed id x (err m) h = refl

module _ {D : Type 0} (meaning : Semantics D) (codec : Codec) (s : Settings) where
  resolve-failed :
      (req : WriteRequest) (x : D) (a : Admission)
      → (resolve meaning codec s req x a).0.status ≡ failed
      → (resolve meaning codec s req x a).1 ≡ x
  unfolding resolve
  resolve-failed req x (reply response) h = refl
  resolve-failed req x (proceed rec) h =
      outcome-failed req.request_id x (transaction meaning codec s.track req rec x) h

  -- A promise to fail is a promise to change nothing.
  pub promised-failed :
      (req : WriteRequest) (x : D)
      → (promised meaning codec s req x).0.status ≡ failed
      → (promised meaning codec s req x).1 ≡ x
  unfolding promised
  promised-failed req x = resolve-failed req x (admission meaning codec s req x)

module _ {C D : Type 0} {driver : Driver C} {meaning : Semantics D} {IsPlain : Text → Type 0}
    (laws : Laws driver meaning IsPlain) (codec : Codec) where
  -- For a driver that keeps the laws and plain statements, on a connection with no transaction
  -- open: a request that is answered as failed, for whatever reason, leaves the connection idle on
  -- the data as before.
  pub apply-failed :
      (w : Writer C) (req : WriteRequest) (x : D)
      → PlainRequest IsPlain req
      → laws.state w.conn ≡ idle x
      → (apply driver codec w req).0.status ≡ failed
      → laws.state (apply driver codec w req).1.conn ≡ idle x
  apply-failed w req x plain at h = elim (apply-Ends laws codec w req x plain at).1 [
    | inl (there, eq) ↦
        there
        ∙ ap idle (
            promised-failed meaning codec (settings_of w) req x
              (ap (λ (r : WriteResponse). r.status) (sym eq) ∙ h))
    | inr (there, _, _) ↦ there
  ]

  -- For a driver that keeps the laws and plain statements, on a connection with no transaction
  -- open: when the driver refuses no BEGIN, COMMIT, SAVEPOINT or RELEASE where it is in place, a
  -- request keeps the settings, and its response and the data that it leaves are the promised ones.
  pub apply-promised :
      (w : Writer C) (req : WriteRequest) (x : D)
      → Willing laws
      → PlainRequest IsPlain req
      → laws.state w.conn ≡ idle x
      → let q = promised meaning codec (settings_of w) req x in
        (settings_of (apply driver codec w req).1 ≡ settings_of w)
        × (laws.state (apply driver codec w req).1.conn ≡ idle q.1)
        × ((apply driver codec w req).0 ≡ q.0)
  apply-promised w req x willing plain at =
      let (same, ends) = apply-Ends laws codec w req x plain at in
      elim ends [
        | inl (there, eq) ↦ (same, there, eq)
        | inr (_, _, fault) ↦ absurd (not-Refusal willing fault)
      ]
