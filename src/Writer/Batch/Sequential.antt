-- ===== src/Writer/Batch/Sequential.antt =====
-- A batch against its requests one at a time (src/writer.rs: `apply_batch` and `apply`).
use squeuelite_rs.Common.{◌≡◌, refl, sym, ap, ◌∙◌, inl, inr, subst, List, [], ◌∷◌, Text}
use squeuelite_rs.Request.{WriteRequest, WriteResponse}
use squeuelite_rs.Codec.{Codec}
use squeuelite_rs.Driver.{Driver}
use squeuelite_rs.Driver.Snapshots.{idle}
use squeuelite_rs.Driver.Laws.{Semantics, Laws}
use squeuelite_rs.Driver.Refusal.{Refusal, Willing, not-Refusal}
use squeuelite_rs.Writer.{Writer, apply}
use squeuelite_rs.Writer.Refinement.{settings_of}
use squeuelite_rs.Writer.Atomic.{apply-promised}
use squeuelite_rs.Writer.Batch.{Ticket, apply_batch}
use squeuelite_rs.Writer.Batch.Refinement.{PlainBatch, apply_batch-Runs}
use squeuelite_rs.Spec.{Settings, promised}
use squeuelite_rs.Serial.{Run}

module _ {D : Type 0} (meaning : Semantics D) (codec : Codec) (s : Settings) where
  -- The promises of a list of requests, each on the data that the one before leaves.
  unfoldable promised_all : D → List (WriteRequest × Ticket) → List (Ticket × WriteResponse) × D
  promised_all x [] = ([], x)
  promised_all x ((req, ticket) ∷ batch) =
      let (resp, y) = promised meaning codec s req x in
      let (sent, z) = promised_all y batch in ((ticket, resp) ∷ sent, z)

  Run-promised :
      (Fault : Type 0) (x z : D) (batch : List (WriteRequest × Ticket))
      (sent : List (Ticket × WriteResponse))
      → (Fault → ⊥)
      → Run meaning codec Fault s x batch sent z
      → (sent, z) ≡ promised_all x batch
  unfolding promised_all
  Run-promised Fault x z [] [] never h = ap (λ t. ([], t)) h
  Run-promised Fault x z [] (r ∷ sent) never h = absurd h
  Run-promised Fault x z (r ∷ batch) [] never h = absurd h
  Run-promised Fault x z ((req, ticket) ∷ batch) ((on, resp) ∷ sent) never
        (e, (y, inl (ey, er), rest)) =
      let q = promised meaning codec s req x in
      let later =
        Run-promised Fault q.1 z batch sent never
          (subst (λ t. Run meaning codec Fault s t batch sent z) ey rest) in
      ap (λ (p : List (Ticket × WriteResponse) × D). ((on, resp) ∷ p.0, p.1)) later
      ∙ rw (e, er) refl
  Run-promised Fault x z ((req, ticket) ∷ batch) ((on, resp) ∷ sent) never
        (e, (y, inr (_, _, fault), _)) =
      absurd (never fault)

module _ {C : Type 0} (driver : Driver C) (codec : Codec) where
  -- What the loop does without batches: a transaction for each request.
  unfoldable pub apply_each :
      Writer C → List (WriteRequest × Ticket) → List (Ticket × WriteResponse) × Writer C
  unfolding apply
  apply_each w [] = ([], w)
  apply_each w ((req, ticket) ∷ batch) =
      let (response, w') = apply driver codec w req in
      let (sent, w'') = apply_each w' batch in ((ticket, response) ∷ sent, w'')

module _ {C D : Type 0} {driver : Driver C} {meaning : Semantics D} {IsPlain : Text → Type 0}
    (laws : Laws driver meaning IsPlain) (codec : Codec) (willing : Willing laws) where
  -- The responses that are sent, and the data that is left.
  abbrev Gives :
      List (Ticket × WriteResponse) × D → List (Ticket × WriteResponse) × Writer C → Type 0
  Gives (sent, z) (sent', w) = (sent' ≡ sent) × (laws.state w.conn ≡ idle z)

  apply_each-Gives :
      (s : Settings) (w : Writer C) (batch : List (WriteRequest × Ticket)) (x : D)
      → PlainBatch IsPlain batch
      → settings_of w ≡ s
      → laws.state w.conn ≡ idle x
      → Gives (promised_all meaning codec s x batch) (apply_each driver codec w batch)
  unfolding promised_all apply_each
  apply_each-Gives s w [] x plain same at = (refl, at)
  apply_each-Gives s w ((req, ticket) ∷ batch) x plain same at =
      let (kept, at', resp) = apply-promised laws codec w req x willing plain.0 at in
      let q = promised meaning codec (settings_of w) req x in
      let r = apply driver codec w req in
      let eq : q ≡ promised meaning codec s req x = ap (λ t. promised meaning codec t req x) same in
      let (sent, at'') =
        apply_each-Gives s r.1 batch (promised meaning codec s req x).1 plain.1 (kept ∙ same)
          (at' ∙ ap (λ (p : WriteResponse × D). idle p.1) eq) in
      (rw (sent, resp, eq) refl, at'')

  apply_batch-Gives :
      (w : Writer C) (batch : List (WriteRequest × Ticket)) (x : D)
      → PlainBatch IsPlain batch
      → laws.state w.conn ≡ idle x
      → Gives
          (promised_all meaning codec (settings_of w) x batch)
          (apply_batch driver codec w batch)
  apply_batch-Gives w batch x plain at =
      let (same, (z, (at', runs))) = apply_batch-Runs laws codec w batch x plain at in
      let eq =
        Run-promised meaning codec (settings_of w) (Refusal laws) x z batch
          (apply_batch driver codec w batch).0 (not-Refusal willing) runs in
      (
        ap (λ (p : List (Ticket × WriteResponse) × D). p.0) eq,
        at' ∙ ap (λ (p : List (Ticket × WriteResponse) × D). idle p.1) eq,
      )

  -- For a driver that keeps the laws and plain statements, on a connection with no transaction
  -- open: when the driver refuses no BEGIN, COMMIT, SAVEPOINT or RELEASE where it is in place, a
  -- batch in one transaction sends the same responses on the same tickets, and leaves the connection
  -- on the same data, as its requests in a transaction each.
  pub apply_batch-eq-apply_each :
      (w : Writer C) (batch : List (WriteRequest × Ticket)) (x : D)
      → PlainBatch IsPlain batch
      → laws.state w.conn ≡ idle x
      → ((apply_batch driver codec w batch).0 ≡ (apply_each driver codec w batch).0)
        × (laws.state (apply_batch driver codec w batch).1.conn
            ≡ laws.state (apply_each driver codec w batch).1.conn)
  apply_batch-eq-apply_each w batch x plain at =
      let (sent, left) = apply_batch-Gives w batch x plain at in
      let (sent', left') = apply_each-Gives (settings_of w) w batch x plain refl at in
      (sent ∙ sym sent', left ∙ sym left')
