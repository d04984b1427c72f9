-- ===== src/Writer/Refinement.antt =====
-- A single request on the connection against its promise (src/writer.rs: `apply`, `apply_inner`).
use squeuelite_rs.Common.{
  ◌≡◌, refl, sym, ap, subst, ◌∙◌, ◌⊎◌, inl, inr, Bool, true, false, Option, Text, Result, ok, err,
  All, arith, Option-cases, [], ◌∷◌,
}
use squeuelite_rs.Common.Int.{ℤ}
use squeuelite_rs.Error.{SqlError}
use squeuelite_rs.Request.{WriteRequest, WriteResponse, failed, committed_response, failed_response}
use squeuelite_rs.Codec.{Codec}
use squeuelite_rs.Driver.{Driver}
use squeuelite_rs.Driver.Snapshots.{idle, in_tx, data_of, frame_in_tx}
use squeuelite_rs.Driver.Laws.{Semantics, Laws}
use squeuelite_rs.Driver.Refusal.{Refusal}
use squeuelite_rs.Statements.{select_request}
use squeuelite_rs.Params.{text}
use squeuelite_rs.Writer.{
  Writer, Admission, reply, proceed, admit, first_rejected, check_key, settle, finish, begin_with,
  apply_inner, answer, apply,
}
use squeuelite_rs.Writer.Tracks.{TracksValue}
use squeuelite_rs.Writer.Simulation.{write_body-Tracks}
use squeuelite_rs.Spec.{Settings, outcome, transaction, by_key, admission, resolve, promised}

abbrev pub settings_of : {C : Type 0} → Writer C → Settings
settings_of w = record { config = w.config; track = w.track_commits; idempotency = w.idempotency }

-- Every statement of the request leaves transactions alone.
abbrev pub PlainRequest : (Text → Type 0) → WriteRequest → Type 0
PlainRequest IsPlain req = All (λ op. IsPlain op.sql) req.operations

module _ {C D : Type 0} {driver : Driver C} {meaning : Semantics D} {IsPlain : Text → Type 0}
    (laws : Laws driver meaning IsPlain) (codec : Codec) where
  check_key-eq-by_key :
      (idempotency : Bool) (req : WriteRequest) (c : C)
      → check_key driver codec idempotency req c
        ≡ by_key meaning codec idempotency req.idempotency_key req (data_of (laws.state c))
  unfolding check_key by_key
  check_key-eq-by_key false req c = refl
  check_key-eq-by_key true req c = elim (Option-cases req.idempotency_key) [
    | inl e ↦ ground arith
    | inr (key, e) ↦ ground (arith, laws.query_eq c select_request (text key ∷ []))
  ]

  -- The checks read the data alone.
  pub admit-eq-admission :
      (w : Writer C) (req : WriteRequest) (c : C)
      → admit driver codec w.config w.idempotency req c
        ≡ admission meaning codec (settings_of w) req (data_of (laws.state c))
  unfolding admit admission
  admit-eq-admission w req c = elim (Option-cases (first_rejected req.operations w.config)) [
    | inl e ↦ rw (e, admit, admission) (check_key-eq-by_key w.idempotency req c)
    | inr (m, e) ↦ rw (e, admit, admission)
  ]

  -- How a call that began with the data `x` ends: with the settings kept and no transaction open,
  -- at the outcome `q`, or failed with the data as it was, since the driver refused.
  abbrev pub Ends : Writer C → D → WriteResponse × D → WriteResponse × Writer C → Type 0
  Ends w x q (resp, w') =
      (settings_of w' ≡ settings_of w)
      × (((laws.state w'.conn ≡ idle q.1) × (resp ≡ q.0))
          ⊎ ((laws.state w'.conn ≡ idle x) × (resp.status ≡ failed) × Refusal laws))

  settle-Ends :
      (w : Writer C) (id : Text) (seq : Option ℤ) (x y : D) (r : Result (Unit {0}) SqlError × C)
      → (r.0 ≡ ok tt → laws.state r.1 ≡ idle y)
      → ((e : SqlError) → r.0 ≡ err e → (laws.state r.1 ≡ idle x) × Refusal laws)
      → Ends w x (committed_response id seq, y) (settle driver w id seq r)
  unfolding settle
  settle-Ends w id seq x y (ok _, c) good bad = (refl, inl (good refl, refl))
  settle-Ends w id seq x y (err e, c) good bad = (refl, inr ((bad e refl).0, refl, (bad e refl).1))

  finish-Ends :
      (w : Writer C) (id : Text) (x : D) (r : Result (Option ℤ) Text × C)
      (q : Result (Option ℤ × D) Text)
      → TracksValue laws (in_tx x x) r q
      → Ends w x (outcome id x q) (finish driver w id r)
  unfolding finish
  finish-Ends w id x (ok seq, c) (ok (b, y)) h = rw (← h.0) (
      settle-Ends w id seq x y (driver.commit c) (laws.commit_ok c y x h.1)
        (λ e p. (laws.commit_err c y x e h.1 p, Refusal.commit c y x e h.1 p)))
  finish-Ends w id x (err m, c) (err n) h = (
    refl,
    inl (laws.drop_back c _ x (frame_in_tx (laws.state c) x x h.1), ap (failed_response id) h.0),
  )
  finish-Ends w id x (ok seq, c) (err n) h = absurd h
  finish-Ends w id x (err m, c) (ok y) h = absurd h

  begin_with-Ends :
      (w : Writer C) (req : WriteRequest) (rec : Option (Text × Text)) (x : D)
      (r : Result (Unit {0}) SqlError × C)
      → PlainRequest IsPlain req
      → (r.0 ≡ ok tt → laws.state r.1 ≡ in_tx x x)
      → ((e : SqlError) → r.0 ≡ err e → (laws.state r.1 ≡ idle x) × Refusal laws)
      → Ends w x
          (outcome req.request_id x (transaction meaning codec w.track_commits req rec x))
          (begin_with driver codec w req rec r)
  unfolding begin_with
  begin_with-Ends w req rec x (ok _, c) plain good bad =
      finish-Ends w req.request_id x _ _
        (write_body-Tracks laws codec w.track_commits req rec (in_tx x x) c plain tt (good refl))
  begin_with-Ends w req rec x (err e, c) plain good bad =
      (refl, inr ((bad e refl).0, refl, (bad e refl).1))

  pub apply_inner-Ends :
      (w : Writer C) (req : WriteRequest) (rec : Option (Text × Text)) (x : D)
      → PlainRequest IsPlain req
      → laws.state w.conn ≡ idle x
      → Ends w x
          (outcome req.request_id x (transaction meaning codec w.track_commits req rec x))
          (apply_inner driver codec w req rec)
  unfolding apply_inner
  apply_inner-Ends w req rec x plain e =
      begin_with-Ends w req rec x (driver.begin_immediate w.conn) plain (laws.begin_ok w.conn x e)
        (λ m p. (laws.begin_err w.conn x m e p, Refusal.begin w.conn x m e p))

  answer-Ends :
      (w : Writer C) (req : WriteRequest) (x : D) (a : Admission)
      → PlainRequest IsPlain req
      → laws.state w.conn ≡ idle x
      → Ends w x (resolve meaning codec (settings_of w) req x a) (answer driver codec w req a)
  unfolding answer resolve
  answer-Ends w req x (reply response) plain e = (refl, inl (e, refl))
  answer-Ends w req x (proceed rec) plain e = apply_inner-Ends w req rec x plain e

  -- For a driver that keeps the laws and plain statements, on a connection with no transaction
  -- open: a request keeps the settings and leaves the connection idle; it ends as promised or,
  -- with a driver that refuses a BEGIN, COMMIT, SAVEPOINT or RELEASE where it is in place, possibly
  -- as failed on the data as before.
  pub apply-Ends :
      (w : Writer C) (req : WriteRequest) (x : D)
      → PlainRequest IsPlain req
      → laws.state w.conn ≡ idle x
      → let q = promised meaning codec (settings_of w) req x in
        let r = apply driver codec w req in
        (settings_of r.1 ≡ settings_of w)
        × (((laws.state r.1.conn ≡ idle q.1) × (r.0 ≡ q.0))
            ⊎ ((laws.state r.1.conn ≡ idle x) × (r.0.status ≡ failed) × Refusal laws))
  unfolding apply promised
  apply-Ends w req x plain e =
      let s = settings_of w in
      subst (λ a. Ends w x (promised meaning codec s req x) (answer driver codec w req a))
        (sym
          (admit-eq-admission w req w.conn ∙ ap (λ t. admission meaning codec s req (data_of t)) e))
        (answer-Ends w req x (admission meaning codec s req x) plain e)
