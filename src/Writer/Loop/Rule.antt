-- ===== src/Writer/Loop/Rule.antt =====
-- A rule for the writer's loop: what one pass keeps, the whole loop has, and it ends (src/writer.rs,
-- `run`).
use squeuelite_rs.Common.{
  ℕ, zero, suc, ◌-◌, ◌≤◌, ◌<◌, ◌≡◌, ◌⊎◌, refl, inl, inr, Bool, true, false, Option, none, some,
  List, [], ◌∷◌, ◌++◌, length, arith, Option-cases, Bool-cases,
}
use squeuelite_rs.Config.{BatchConfig}
use squeuelite_rs.Request.{WriteRequest}
use squeuelite_rs.Codec.{Codec}
use squeuelite_rs.Driver.{Driver}
use squeuelite_rs.Writer.{Writer}
use squeuelite_rs.Writer.Batch.{Ticket}
use squeuelite_rs.Writer.Loop.{
  Command, write, shutdown, checkpoint, Arrival, command_of, Sent, is_single, handle, collect, turn,
  resume, run_loop,
}
use squeuelite_rs.Writer.Loop.Queue.{drain-batch_bounds}

module _ {C : Type 0} (driver : Driver C) (codec : Codec) where
  -- A pass leaves no more on the queue than it found.
  pub length-turn :
      (w : Writer C) (command : Command) (queue : List Arrival)
      → length (turn driver codec w command queue).1 ≤ length queue
  unfolding turn collect
  length-turn w (write req ticket) queue = elim (Option-cases w.config.batch) [
    | inl e ↦ rw (e, turn) (omega arith)
    | inr (limits, e) ↦ elim (Bool-cases (is_single req)) [
      | inl single ↦ rw (e, turn, single) ((drain-batch_bounds (limits.max_size - 1) queue).2)
      | inr several ↦ rw (e, turn, several) (omega arith)
    ]
  ]
  length-turn w shutdown queue = omega arith
  length-turn w (checkpoint ticket) queue = omega arith

  -- A pass over a write is that of the single command, or the collection of a batch.
  pub turn-cases :
      (w : Writer C) (req : WriteRequest) (ticket : Ticket) (queue : List Arrival)
      → (turn driver codec w (write req ticket) queue
          ≡ (handle driver codec w (write req ticket), queue))
        ⊎ ((limits : BatchConfig) × (turn driver codec w (write req ticket) queue
              ≡ collect driver codec w limits req ticket queue))
  unfolding turn
  turn-cases w req ticket queue = elim (Option-cases w.config.batch) [
    | inl e ↦ inl (simp (e, turn))
    | inr (limits, e) ↦ elim (Bool-cases (is_single req)) [
      | inl single ↦ inr (limits, simp (e, turn, single))
      | inr several ↦ inl (simp (e, turn, several))
    ]
  ]

  -- The loop has ended, and `Q` holds of what it has sent and of the writer that it leaves.
  abbrev pub EndsWith : (Sent → Writer C → Type 0) → Option (Sent × Writer C) → Type 0
  EndsWith Q none = ⊥
  EndsWith Q (some (sent, w)) = Q sent w

  pub EndsWith→some :
      (Q : Sent → Writer C → Type 0) (r : Option (Sent × Writer C))
      → EndsWith Q r
      → (sent : Sent) × (v : Writer C) × (r ≡ some (sent, v)) × Q sent v
  EndsWith→some Q none h = absurd h
  EndsWith→some Q (some (sent, v)) h = (sent, v, refl, h)

  resume-EndsWith :
      (Q R : Sent → Writer C → Type 0) (stop : Bool) (sent : Sent) (w : Writer C)
      (later : Option (Sent × Writer C))
      → (stop ≡ true → Q sent w)
      → (stop ≡ false → (more : Sent) (v : Writer C) → R more v → Q (sent ++ more) v)
      → EndsWith R later
      → EndsWith Q (resume driver codec stop sent w later)
  unfolding resume
  resume-EndsWith Q R true sent w later last next h = last refl
  resume-EndsWith Q R false sent w none last next h = h
  resume-EndsWith Q R false sent w (some (more, v)) last next h = next refl more v h

  -- `P w queue sent v`: from `w`, the loop on `queue` sends `sent` and leaves `v`.
  module _ (P : Writer C → List Arrival → Sent → Writer C → Type 0)
      (done : (w : Writer C) → P w [] [] w)
      (last : (w : Writer C) (a : Arrival) (queue : List Arrival)
        → let ((sent, w', stop), rest) = turn driver codec w (command_of a) queue in
          stop ≡ true → P w (a ∷ queue) sent w')
      (next : (w : Writer C) (a : Arrival) (queue : List Arrival)
        → let ((sent, w', stop), rest) = turn driver codec w (command_of a) queue in
          stop ≡ false
          → (more : Sent) (v : Writer C) → P w' rest more v
          → P w (a ∷ queue) (sent ++ more) v) where
    pub run_loop-EndsWith :
        (fuel : ℕ) (w : Writer C) (queue : List Arrival)
        → length queue < fuel
        → EndsWith (P w queue) (run_loop driver codec fuel w queue)
    unfolding run_loop
    run_loop-EndsWith zero w queue enough = absurd (omega arith)
    run_loop-EndsWith (suc fuel) w [] enough = done w
    run_loop-EndsWith (suc fuel) w (a ∷ queue) enough =
        let ((sent, w', stop), rest) = turn driver codec w (command_of a) queue in
        resume-EndsWith (P w (a ∷ queue)) (P w' rest) stop sent w'
          (run_loop driver codec fuel w' rest) (last w a queue) (next w a queue)
          (run_loop-EndsWith fuel w' rest (omega (arith, length-turn w (command_of a) queue)))
