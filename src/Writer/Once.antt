-- ===== src/Writer/Once.antt =====
-- Requests under a new idempotency key, and the same key later (src/writer.rs: `apply`, `run`).
use squeuelite_rs.Common.{
  ◌≡◌, refl, sym, ap, ◌∙◌, inl, inr, true, Option, none, some, List, [], ◌∷◌, Text, Result, ok, err,
  All,
}
use squeuelite_rs.Error.{SqlError}
use squeuelite_rs.Request.{WriteRequest, WriteResponse, committed, failed}
use squeuelite_rs.Common.Int.{ℤ}
use squeuelite_rs.Codec.{Codec}
use squeuelite_rs.Driver.{Driver}
use squeuelite_rs.Driver.Snapshots.{idle}
use squeuelite_rs.Driver.Laws.{Semantics, Laws}
use squeuelite_rs.Driver.Refusal.{Refusal}
use squeuelite_rs.Writer.{Writer, or_empty, first_rejected, apply_inner, apply}
use squeuelite_rs.Writer.Refinement.{settings_of, PlainRequest, Ends, apply_inner-Ends}
use squeuelite_rs.Writer.Loop.{
  Command, write, shutdown, checkpoint, Arrival, Sent, written, checkpointed, run,
}
use squeuelite_rs.Writer.Loop.Queue.{commands, PlainCommands}
use squeuelite_rs.Writer.Loop.Refinement.{Executes, run-Executes}
use squeuelite_rs.Spec.{Settings, outcome, transaction}
use squeuelite_rs.Spec.Memory.{
  Row, stored, Table, SparingRequest, promised-keeps, transaction-stores,
}
use squeuelite_rs.Serial.{Answered, Serial}
use squeuelite_rs.Writer.Idempotency.{admit_keyed, judge_new, apply_replay}

abbrev pub SparingCommand : (Text → Type 0) → Command → Type 0
SparingCommand Sparing (write req ticket) = SparingRequest Sparing req
SparingCommand Sparing shutdown = Unit {0}
SparingCommand Sparing (checkpoint ticket) = Unit {0}

module _ {D : Type 0} {meaning : Semantics D} {Sparing : Text → Type 0}
    (table : Table meaning Sparing) (codec : Codec) (Fault : Type 0) (s : Settings) (key : Text)
    (row : Row) where
  Answered-keeps :
      (req : WriteRequest) (x y : D) (resp : WriteResponse)
      → SparingRequest Sparing req
      → Answered meaning codec Fault s req x resp y
      → stored meaning key x ≡ ok row
      → stored meaning key y ≡ ok row
  Answered-keeps req x y resp spares (inl (e, _)) h =
      rw e (promised-keeps table codec s key req x row spares h)
  Answered-keeps req x y resp spares (inr (e, _, _)) h = rw e h

  -- A stored row survives a serial execution.
  Serial-keeps :
      (queue : List Command) (x z : D) (sent : Sent)
      → All (SparingCommand Sparing) queue
      → Serial meaning codec Fault s x queue sent z
      → stored meaning key x ≡ ok row
      → stored meaning key z ≡ ok row
  Serial-keeps [] x z [] spares h e = rw h e
  Serial-keeps [] x z (r ∷ sent) spares h e = absurd h
  Serial-keeps (write req ticket ∷ queue) x z ((on, written resp) ∷ sent) spares h e =
      Serial-keeps queue h.1.0 z sent spares.1 h.1.2
        (Answered-keeps req x h.1.0 resp spares.0 h.1.1 e)
  Serial-keeps (checkpoint ticket ∷ queue) x z ((on, checkpointed result) ∷ sent) spares h e =
      Serial-keeps queue x z sent spares.1 h.1 e
  Serial-keeps (shutdown ∷ queue) x z [] spares h e = rw h e
  Serial-keeps (write req ticket ∷ queue) x z [] spares h e = absurd h
  Serial-keeps (write req ticket ∷ queue) x z ((on, checkpointed result) ∷ sent) spares h e =
      absurd h
  Serial-keeps (checkpoint ticket ∷ queue) x z [] spares h e = absurd h
  Serial-keeps (checkpoint ticket ∷ queue) x z ((on, written resp) ∷ sent) spares h e = absurd h
  Serial-keeps (shutdown ∷ queue) x z (r ∷ sent) spares h e = absurd h

module _ {C D : Type 0} {driver : Driver C} {meaning : Semantics D}
    {IsPlain Sparing : Text → Type 0} (laws : Laws driver meaning IsPlain)
    (table : Table meaning Sparing) (codec : Codec)
    (reads_back : (r : WriteResponse)
      → codec.response_from_str (or_empty (codec.response_to_string r)) ≡ ok r) where
  -- How a committed request under a new key ends: its response is in the row of its key.
  abbrev pub Stores : Writer C → Text → Text → WriteResponse × Writer C → Type 0
  Stores w key hash (resp, w') =
      (y : D) × (settings_of w' ≡ settings_of w)
      × (laws.state w'.conn ≡ idle y)
      × (stored meaning key y ≡ ok (hash, some (or_empty (codec.response_to_string resp))))

  Ends-Stores :
      (w : Writer C) (req : WriteRequest) (x : D) (key hash : Text) (e : SqlError)
      (r : WriteResponse × Writer C) (q : Result (Option ℤ × D) Text)
      → SparingRequest Sparing req
      → e.no_rows ≡ true
      → stored meaning key x ≡ err e
      → transaction meaning codec w.track_commits req (some (key, hash)) x ≡ q
      → Ends laws codec w x (outcome req.request_id x q) r
      → r.0.status ≡ committed
      → Stores w key hash r
  Ends-Stores w req x key hash e (resp, w') (ok p) spares missing new ran (same, inl (at, eq))
        done =
      (
        p.1,
        same,
        at,
        rw eq (
            transaction-stores table codec key hash w.track_commits req x e p spares ran missing
              new),
      )
  Ends-Stores w req x key hash e (resp, w') (err m) spares missing new ran (same, inl (at, eq))
        done =
      let bad : failed ≡ committed = sym (ap (λ (t : WriteResponse). t.status) eq) ∙ done in cc
  Ends-Stores w req x key hash e (resp, w') (ok p) spares missing new ran (same, inr (at, bad, _))
        done =
      cc
  Ends-Stores w req x key hash e (resp, w') (err m) spares missing new ran (same, inr (at, bad, _))
        done =
      cc

  committed-Stores :
      (w : Writer C) (req : WriteRequest) (x : D) (key hash : Text) (e : SqlError)
      → PlainRequest IsPlain req
      → SparingRequest Sparing req
      → w.idempotency ≡ true
      → first_rejected req.operations w.config ≡ none
      → req.idempotency_key ≡ some key
      → codec.operations_to_string req.operations ≡ ok hash
      → laws.state w.conn ≡ idle x
      → stored meaning key x ≡ err e
      → e.no_rows ≡ true
      → (apply driver codec w req).0.status ≡ committed
      → Stores w key hash (apply driver codec w req)
  committed-Stores w req x key hash e plain spares on valid keyed hashed at new none_found done =
      let rec : Option (Text × Text) = some (key, hash) in
      let admitted =
        admit_keyed laws codec w req x key hash (err e) on valid keyed hashed at new
        ∙ judge_new laws codec req.request_id key hash e none_found in
      let inner : apply driver codec w req ≡ apply_inner driver codec w req rec =
        unfold apply in rw admitted in
      rw inner (
        Ends-Stores w req x key hash e (apply_inner driver codec w req rec) _ spares none_found new
          refl (apply_inner-Ends laws codec w req rec x plain at) (rw inner at done))

  -- What resending leaves: the loop has ended, and the answer is the first response again.
  abbrev pub Resent : WriteRequest → WriteResponse → Option (Sent × Writer C) → Type 0
  Resent again resp none = ⊥
  Resent again resp (some (sent, w)) = apply driver codec w again ≡ (resp, w)

  Executes-Resent :
      (s : Settings) (again : WriteRequest) (y : D) (key hash : Text) (resp : WriteResponse)
      (queue : List Command) (r : Option (Sent × Writer C))
      → All (SparingCommand Sparing) queue
      → s.idempotency ≡ true
      → first_rejected again.operations s.config ≡ none
      → again.idempotency_key ≡ some key
      → codec.operations_to_string again.operations ≡ ok hash
      → stored meaning key y ≡ ok (hash, some (or_empty (codec.response_to_string resp)))
      → Executes laws codec s y queue r
      → Resent again resp r
  Executes-Resent s again y key hash resp queue none spares on valid keyed hashed row h = h
  Executes-Resent s again y key hash resp queue (some (sent, w)) spares on valid keyed hashed row
        (z, ((same, at), serial)) =
      apply_replay laws codec w again z key hash (or_empty (codec.response_to_string resp)) resp
        (ap (λ (t : Settings). t.idempotency) same ∙ on)
        (ap (λ (t : Settings). first_rejected again.operations t.config) same ∙ valid) keyed hashed
        at (Serial-keeps table codec (Refusal laws) s key _ queue y z sent spares serial row)
        (reads_back resp)

  -- For a driver and a table of requests that keep their laws, and an encoder that reads back its
  -- responses: let a request with plain statements that spare the table pass validation under a
  -- key that has no row, and commit. Then the loop ends on every queue of commands with plain and
  -- sparing statements, and afterwards a request with the same key and operations gets the first
  -- response and leaves the writer as it is.
  pub apply_once :
      (w : Writer C) (req again : WriteRequest) (queue : List Arrival) (x : D) (key hash : Text)
      (e : SqlError)
      → PlainRequest IsPlain req
      → SparingRequest Sparing req
      → PlainCommands IsPlain (commands queue)
      → All (SparingCommand Sparing) (commands queue)
      → w.idempotency ≡ true
      → first_rejected req.operations w.config ≡ none
      → req.idempotency_key ≡ some key
      → codec.operations_to_string req.operations ≡ ok hash
      → again.idempotency_key ≡ some key
      → again.operations ≡ req.operations
      → laws.state w.conn ≡ idle x
      → stored meaning key x ≡ err e
      → e.no_rows ≡ true
      → (apply driver codec w req).0.status ≡ committed
      → Resent again
          (apply driver codec w req).0
          (run driver codec (apply driver codec w req).1 queue)
  apply_once w req again queue x key hash e plain spares others sparing on valid keyed hashed key'
        ops at new none_found done =
      let r = apply driver codec w req in
      let (y, same, at', row) =
        committed-Stores w req x key hash e plain spares on valid keyed hashed at new none_found
          done in
      Executes-Resent (settings_of r.1) again y key hash r.0 (commands queue)
        (run driver codec r.1 queue) sparing (ap (λ (t : Settings). t.idempotency) same ∙ on)
        (ap (λ (t : Settings). first_rejected again.operations t.config) same ∙ rw ops valid) key'
        (rw ops hashed) row (run-Executes laws codec r.1 queue y others at')
