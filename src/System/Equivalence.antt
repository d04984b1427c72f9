-- ===== src/System/Equivalence.antt =====
-- The thread of the interleaved system and the loop on its whole queue are one program (src/writer.rs:
-- `run`).
use squeuelite_rs.Common.{
  ℕ, zero, suc, ◌-◌, ◌<◌, ◌≡◌, refl, sym, subst, inl, inr, Bool, true, false, Option, none, some,
  List, [], ◌∷◌, ◌++◌, length, length-map, arith, Bool-cases, Option-cases,
}
use mathlib.Core.List.{append_assoc, append-nil}
use squeuelite_rs.Codec.{Codec}
use squeuelite_rs.Driver.{Driver}
use squeuelite_rs.Writer.{Writer}
use squeuelite_rs.Writer.Loop.{
  Command, write, shutdown, checkpoint, Arrival, ready, command_of, Sent, is_single, drain, collect,
  turn, resume, run_loop, ended, run,
}
use squeuelite_rs.Writer.Loop.Queue.{commands}
use squeuelite_rs.Writer.Loop.Rule.{length-turn}
use squeuelite_rs.System.{receiving, closing, stopped, System, passed, gone, advance_in, advance}
use squeuelite_rs.System.Progress.{steps_left, thread, advance-Fewer}
use squeuelite_rs.System.Branches.{at, turn-alone, turn-several, turn-single}
use squeuelite_rs.System.Alone.{at_hand, drain-at_hand, Goes, stay, go, receiving-Goes}

module _ {C : Type 0} (driver : Driver C) (codec : Codec) where
  abbrev AtHand : List Arrival → Type 0
  AtHand queue = queue ≡ at_hand (commands queue)

  AtHand-at_hand : (queue : List Command) → AtHand (at_hand queue)
  unfolding drain
  AtHand-at_hand queue = drain-at_hand 0 queue

  turn-AtHand :
      (w : Writer C) (command : Command) (queue : List Command)
      → AtHand (turn driver codec w command (at_hand queue)).1
  unfolding turn collect
  turn-AtHand w (write req ticket) queue = elim (Option-cases w.config.batch) [
    | inl e ↦
        subst (λ r. AtHand r.1) (sym (turn-alone driver codec w req ticket (at_hand queue) e))
          (AtHand-at_hand queue)
    | inr (limits, e) ↦ elim (Bool-cases (is_single req)) [
      | inl single ↦
          subst (λ r. AtHand r.1)
            (sym (turn-single driver codec w limits req ticket (at_hand queue) e single))
            (drain-at_hand (limits.max_size - 1) queue)
      | inr several ↦
          subst (λ r. AtHand r.1)
            (sym (turn-several driver codec w limits req ticket (at_hand queue) e several))
            (AtHand-at_hand queue)
    ]
  ]
  turn-AtHand w shutdown queue = AtHand-at_hand queue
  turn-AtHand w (checkpoint ticket) queue = AtHand-at_hand queue

  Goes-trans :
      {s t u : System C} → Goes driver codec s t → Goes driver codec t u → Goes driver codec s u
  Goes-trans stay h = h
  Goes-trans (go e g) h = go e (Goes-trans g h)

  abbrev sent_by : System C → Sent → Writer C → System C
  sent_by s sent w = record s { writer = w; sent = s.sent ++ sent }

  -- From `x` the thread comes to the end of the loop, with what the loop has sent on top of `s`.
  abbrev Leaves : System C → System C → Option (Sent × Writer C) → Type 0
  Leaves x s none = ⊥
  Leaves x s (some (sent, w)) =
      (rest : List Command) × Goes driver codec x (at driver codec (sent_by s sent w) closing rest)

  resume-Leaves :
      (x s : System C) (rest : List Command) (sent : Sent) (w : Writer C) (stop : Bool)
      (later : Option (Sent × Writer C))
      → Goes driver codec x (passed driver codec s rest (sent, w, stop))
      → Leaves (at driver codec (sent_by s sent w) receiving rest) (sent_by s sent w) later
      → Leaves x s (resume driver codec stop sent w later)
  unfolding resume
  resume-Leaves x s rest sent w true later first next = (rest, first)
  resume-Leaves x s rest sent w false none first next = next
  resume-Leaves x s rest sent w false (some (more, v)) first (left, second) = (
    left,
    subst
        (λ l.
          Goes driver codec x (record s { queue = left; phase = closing; writer = v; sent = l }))
        (append_assoc s.sent sent more) (Goes-trans first second),
  )

  hangs_up :
      (s : System C)
      → s.senders ≡ false
      → advance driver codec (at driver codec s receiving []) ≡ some (at driver codec s closing [])
  unfolding advance advance_in
  hangs_up s e = simp e

  run_loop-Leaves :
      (fuel : ℕ) (s : System C) (queue : List Command)
      → s.senders ≡ false
      → length queue < fuel
      → Leaves
          (at driver codec s receiving queue)
          s
          (run_loop driver codec fuel s.writer (at_hand queue))
  unfolding run_loop
  run_loop-Leaves zero s queue e enough = absurd (omega arith)
  run_loop-Leaves (suc fuel) s [] e enough = (
    [],
    subst
        (λ l.
          Goes driver codec (at driver codec s receiving [])
            (record s { queue = []; phase = closing; sent = l }))
        (sym (append-nil s.sent)) (go (hangs_up s e) stay),
  )
  run_loop-Leaves (suc fuel) s (command ∷ queue) e enough =
      let ((sent, w, stop), rest) = turn driver codec s.writer command (at_hand queue) in
      resume-Leaves (at driver codec s receiving (command ∷ queue)) s (commands rest) sent w stop
        (run_loop driver codec fuel w rest) (receiving-Goes driver codec s command queue)
        (subst
          (λ q.
            Leaves (at driver codec (sent_by s sent w) receiving (commands rest)) (sent_by s sent w)
              (run_loop driver codec fuel w q))
          (sym (turn-AtHand s.writer command queue))
          (run_loop-Leaves fuel (sent_by s sent w) (commands rest) e (
            omega (
              arith,
              length-map command_of rest,
              length-map ready queue,
              length-turn driver codec s.writer command (at_hand queue),
            ))))

  -- The steps of the thread are determined.
  thread-Goes :
      (fuel : ℕ) {s t : System C}
      → Goes driver codec s t
      → advance driver codec t ≡ none
      → steps_left s < fuel
      → thread driver codec fuel s ≡ t
  unfolding thread
  thread-Goes zero g e enough = absurd (omega arith)
  thread-Goes (suc fuel) stay e enough = rw (e, thread) refl
  thread-Goes (suc fuel) {s} (go {t = m} step g) e enough =
      let less = advance-Fewer driver codec s m step in
      rw (step, thread) (thread-Goes fuel g e (omega arith))

  -- What the loop gives, and where the thread has come to.
  abbrev Comes : System C → System C → Option (Sent × Writer C) → Type 0
  Comes s t r =
      (sent : Sent) × (r ≡ some (sent, t.writer)) × (t.sent ≡ s.sent ++ sent) × (t.phase ≡ stopped)

  Leaves-Comes :
      (x s : System C) (r : Option (Sent × Writer C))
      → Leaves x s r
      → (t : System C) × Goes driver codec x t
        × (advance driver codec t ≡ none)
        × Comes s t (ended driver codec r)
  unfolding advance advance_in
  Leaves-Comes x s none h = absurd h
  Leaves-Comes x s (some (sent, w)) (rest, g) =
      let closed = at driver codec (sent_by s sent w) closing rest in
      (gone driver codec closed, Goes-trans g (go refl stay), refl, (sent, refl, refl, refl))

  -- Whatever the driver does: when nobody is left to send, the thread of the interleaved system comes,
  -- within its fuel, to its end, with the writer and the replies, in their order, of the loop on the
  -- same commands where all are there from the start.
  pub thread-run :
      (s : System C) (queue : List Command)
      → let begun = record s { phase = receiving; queue = queue; senders = false } in
        let t = thread driver codec (suc (steps_left begun)) begun in
        (sent : Sent) × (run driver codec s.writer (at_hand queue) ≡ some (sent, t.writer))
        × (t.sent ≡ s.sent ++ sent)
        × (t.phase ≡ stopped)
  unfolding run
  thread-run s queue =
      let silent = record s { senders = false } in
      let begun = record s { phase = receiving; queue = queue; senders = false } in
      let (t, g, e, comes) =
        Leaves-Comes begun silent
          (run_loop driver codec (suc (length (at_hand queue))) s.writer (at_hand queue))
          (run_loop-Leaves (suc (length (at_hand queue))) silent queue refl
            (omega (arith, length-map ready queue))) in
      subst (λ u. Comes s u (run driver codec s.writer (at_hand queue)))
        (sym (thread-Goes (suc (steps_left begun)) g e (omega arith))) comes
