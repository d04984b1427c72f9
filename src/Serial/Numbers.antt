-- ===== src/Serial/Numbers.antt =====
-- The numbers of commits in serial execution.
use squeuelite_rs.Common.{
  ℕ, ◌<◌, ◌≡◌, ap, subst, ◌⊎◌, inl, inr, true, some, List, [], ◌∷◌, Text, All,
}
use squeuelite_rs.Common.Int.{pos}
use squeuelite_rs.Request.{WriteRequest, WriteResponse, committed, failed}
use squeuelite_rs.Codec.{Codec}
use squeuelite_rs.Driver.Laws.{Semantics}
use squeuelite_rs.Writer.Loop.{Command, write, shutdown, checkpoint, Sent, written, checkpointed}
use squeuelite_rs.Spec.{Settings}
use squeuelite_rs.Serial.{Answered, Serial}
use squeuelite_rs.Spec.Numbers.{Numbering, Fresh, Above, promised-Above}

module _ {D : Type 0} {meaning : Semantics D} {Sparing : Text → Type 0}
    (numbering : Numbering meaning Sparing) (codec : Codec) (Fault : Type 0) (s : Settings) where
  -- The commands' requests are fresh and put no row into the table of commits themselves.
  abbrev pub FreshCommand : Command → Type 0
  FreshCommand (write req ticket) = Fresh s req × All (λ op. Sparing op.sql) req.operations
  FreshCommand shutdown = Unit {0}
  FreshCommand (checkpoint ticket) = Unit {0}

  -- Each commit among the replies has a number above `bound` and those before it.
  abbrev pub Increasing : ℕ → Sent → Type 0
  Increasing bound [] = Unit
  Increasing bound ((on, checkpointed result) ∷ sent) = Increasing bound sent
  Increasing bound ((on, written resp) ∷ sent) =
      ((resp.status ≡ failed) × Increasing bound sent)
      ⊎ ((n : ℕ) × (resp.status ≡ committed)
          × (resp.commit_seq ≡ some (pos n))
          × (bound < n)
          × Increasing n sent)

  Answered-Above :
      (req : WriteRequest) (x y : D) (resp : WriteResponse)
      → s.track ≡ true
      → FreshCommand (write req 0)
      → Answered meaning codec Fault s req x resp y
      → Above numbering codec x (resp, y)
  Answered-Above req x y resp tracks fresh (inl (data_is, resp_is)) =
      rw (data_is, resp_is) (promised-Above numbering codec s req x tracks fresh.0 fresh.1)
  Answered-Above req x y resp tracks fresh (inr (same, bad, _)) =
      inl (bad, ap (λ z. numbering.largest z) same)

  -- In a serial execution the numbers of the commits increase.
  pub Serial-Increasing :
      (queue : List Command) (x z : D) (sent : Sent)
      → s.track ≡ true
      → All FreshCommand queue
      → Serial meaning codec Fault s x queue sent z
      → Increasing (numbering.largest x) sent
  Serial-Increasing [] x z [] tracks fresh h = tt
  Serial-Increasing [] x z (r ∷ sent) tracks fresh h = absurd h
  Serial-Increasing (write req ticket ∷ queue) x z ((on, written resp) ∷ sent) tracks fresh h =
      let later = Serial-Increasing queue h.1.0 z sent tracks fresh.1 h.1.2 in
      elim (Answered-Above req x h.1.0 resp tracks fresh.0 h.1.1) [
        | inl (bad, same) ↦ inl (bad, subst (λ n. Increasing n sent) same later)
        | inr (good, number, above) ↦ inr (numbering.largest h.1.0, good, number, above, later)
      ]
  Serial-Increasing (checkpoint ticket ∷ queue) x z ((on, checkpointed result) ∷ sent) tracks fresh
        h =
      Serial-Increasing queue x z sent tracks fresh.1 h.1
  Serial-Increasing (shutdown ∷ queue) x z [] tracks fresh h = tt
  Serial-Increasing (write req ticket ∷ queue) x z [] tracks fresh h = absurd h
  Serial-Increasing (write req ticket ∷ queue) x z ((on, checkpointed r) ∷ sent) tracks fresh h =
      absurd h
  Serial-Increasing (checkpoint ticket ∷ queue) x z [] tracks fresh h = absurd h
  Serial-Increasing (checkpoint ticket ∷ queue) x z ((on, written r) ∷ sent) tracks fresh h =
      absurd h
  Serial-Increasing (shutdown ∷ queue) x z (r ∷ sent) tracks fresh h = absurd h
