-- ===== src/System/Progress.antt =====
-- The writer's thread, left to itself, answers all that wait (src/writer.rs: `run`).
use squeuelite_rs.Common.{
  ℕ, zero, suc, ◌+◌, ◌*◌, ◌<◌, ◌≤◌, ◌≡◌, refl, sym, subst, ap, ◌∙◌, inl, inr, Bool, true, false,
  Option, none, some, List, [], ◌∷◌, ◌++◌, length, arith, Bool-cases, Option-cases, if◌then◌else◌,
}
use mathlib.Core.List.{append-nil}
use squeuelite_rs.Config.{OverflowPolicy}
use squeuelite_rs.Request.{WriteRequest}
use squeuelite_rs.Codec.{Codec}
use squeuelite_rs.Driver.{Driver}
use squeuelite_rs.Writer.{Writer}
use squeuelite_rs.Writer.Batch.{Ticket}
use squeuelite_rs.Writer.Loop.{Command, write, shutdown, checkpoint, is_single, handle, Pass}
use squeuelite_rs.Writer.Loop.Replies.{waiting, answered}
use squeuelite_rs.System.{
  Phase, receiving, collecting, closing, stopped, System, received, collected, passed, advance_in,
  advance, advances, Reach, later,
}
use squeuelite_rs.System.Callers.{advance-SameCallers}
use squeuelite_rs.System.Replies.{owed, Reach-answered}

-- How many steps the thread may take from here, if nobody sends more.
abbrev pub steps_in : Phase → ℕ
steps_in receiving = 2
steps_in (collecting room req ticket batch) = 3
steps_in closing = 1
steps_in stopped = 0

abbrev pub steps_left : {C : Type 0} → System C → ℕ
steps_left s = 2 * length s.queue + steps_in s.phase

module _ {C : Type 0} (driver : Driver C) (codec : Codec) where
  -- The thread takes its steps until it waits or has ended, on fuel.
  unfoldable pub thread : ℕ → System C → System C
  unfolding advance
  thread zero s = s
  thread (suc fuel) s = elim (advance driver codec s) [ none ↦ s | some t ↦ thread fuel t ]

  abbrev Fewer : ℕ → Option (System C) → Type 0
  Fewer n none = Unit {0}
  Fewer n (some t) = steps_left t < n

  passed-Fewer :
      (s : System C) (rest : List Command) (p : Pass driver codec)
      → steps_left (passed driver codec s rest p) ≤ 2 * length rest + 2
  passed-Fewer s rest (sent, w, true) = omega arith
  passed-Fewer s rest (sent, w, false) = omega arith

  received-Fewer :
      (s : System C) (command : Command) (rest : List Command)
      → steps_left (received driver codec s command rest) ≤ 2 * length rest + 3
  unfolding received
  received-Fewer s (write req ticket) rest =
      let alone = passed-Fewer s rest (handle driver codec s.writer (write req ticket)) in
      elim (Option-cases s.writer.config.batch) [
        | inl e ↦ rw (e, received) (omega (arith, alone))
        | inr (limits, e) ↦ elim (Bool-cases (is_single req)) [
          | inl single ↦ rw (e, received, single) (omega arith)
          | inr several ↦ rw (e, received, several) (omega (arith, alone))
        ]
      ]
  received-Fewer s shutdown rest =
      omega (arith, passed-Fewer s rest (handle driver codec s.writer shutdown))
  received-Fewer s (checkpoint ticket) rest =
      omega (arith, passed-Fewer s rest (handle driver codec s.writer (checkpoint ticket)))

  collected-Fewer :
      (s : System C) (room : ℕ) (req : WriteRequest) (ticket : Ticket)
      (batch : List (WriteRequest × Ticket)) (queue : List Command)
      → steps_left (collected driver codec s room req ticket batch queue) < 2 * length queue + 3
  unfolding collected
  collected-Fewer s zero req ticket batch queue = omega (arith, passed-Fewer s queue _)
  collected-Fewer s (suc room) req ticket batch [] = omega (arith, passed-Fewer s [] _)
  collected-Fewer s (suc room) req ticket batch (write other on ∷ rest) =
      elim (Bool-cases (is_single other)) [
        | inl single ↦ rw single (omega arith)
        | inr several ↦ rw several (omega (arith, passed-Fewer s rest _))
      ]
  collected-Fewer s (suc room) req ticket batch (shutdown ∷ rest) =
      omega (arith, passed-Fewer s rest _)
  collected-Fewer s (suc room) req ticket batch (checkpoint on ∷ rest) =
      omega (arith, passed-Fewer s rest _)

  unless-Fewer :
      (b : Bool) (n : ℕ) (t : System C) → steps_left t < n → Fewer n (if b then none else some t)
  unless-Fewer true n t h = tt
  unless-Fewer false n t h = h

  advance_in-Fewer :
      (phase : Phase) (queue : List Command) (s : System C)
      → s.queue ≡ queue
      → Fewer (2 * length queue + steps_in phase) (advance_in driver codec phase queue s)
  unfolding advance_in
  advance_in-Fewer receiving [] s e = unless-Fewer s.senders 2 _ (omega (arith, ap length e))
  advance_in-Fewer receiving (command ∷ rest) s e = omega (arith, received-Fewer s command rest)
  advance_in-Fewer (collecting room req ticket batch) queue s e =
      collected-Fewer s room req ticket batch queue
  advance_in-Fewer closing queue s e = omega arith
  advance_in-Fewer stopped queue s e = tt

  pub advance-Fewer :
      (s t : System C) → advance driver codec s ≡ some t → steps_left t < steps_left s
  unfolding advance
  advance-Fewer s t e = subst (Fewer (steps_left s)) e (advance_in-Fewer s.phase s.queue s refl)

  waits-in :
      (phase : Phase) (queue : List Command) (s : System C)
      → advance_in driver codec phase queue s ≡ none
      → owed phase queue ≡ []
  unfolding advance_in
  waits-in receiving [] s e = refl
  waits-in receiving (command ∷ rest) s e = cc
  waits-in (collecting room req ticket batch) queue s e = cc
  waits-in closing queue s e = cc
  waits-in stopped queue s e = refl

  -- Where the thread does not go on it owes nothing.
  waits : (s : System C) → advance driver codec s ≡ none → owed s.phase s.queue ≡ []
  unfolding advance
  waits s e = waits-in s.phase s.queue s e

  module _ (capacity : ℕ) (policy : OverflowPolicy) where
    -- What the thread has come to.
    abbrev Settled : Writer C → System C → System C → Type 0
    Settled w s t =
        Reach driver codec capacity policy w t × (advance driver codec t ≡ none) × (t.log ≡ s.log)

    thread-Settled :
        (fuel : ℕ) (w : Writer C) (s : System C)
        → Reach driver codec capacity policy w s
        → steps_left s < fuel
        → Settled w s (thread fuel s)
    unfolding thread
    thread-Settled zero w s r enough = absurd (omega arith)
    thread-Settled (suc fuel) w s r enough = elim (Option-cases (advance driver codec s)) [
      | inl e ↦ rw (e, thread) (r, e, refl)
      | inr (t, e) ↦
          let more =
            thread-Settled fuel w t (later r (advances e)) (omega (arith, advance-Fewer s t e)) in
          let same = advance-SameCallers driver codec s t e in
          rw (e, thread) (more.0, more.1, more.2 ∙ same.3)
    ]

    -- From every reachable state, whatever the driver does: when nobody sends more, the thread comes
    -- within its fuel to a reachable state with the same log from where it takes no step, and in it
    -- the sender of each command before the first shutdown has been answered, in the order of entry.
    pub thread-answered :
        (w : Writer C) (s : System C)
        → Reach driver codec capacity policy w s
        → let t = thread (suc (steps_left s)) s in
          Reach driver codec capacity policy w t
          × (advance driver codec t ≡ none)
          × (t.log ≡ s.log)
          × (answered t.sent ≡ waiting s.log)
    thread-answered w s r =
        let t = thread (suc (steps_left s)) s in
        let (r', still, same) = thread-Settled (suc (steps_left s)) w s r (omega arith) in
        (
          r',
          still,
          same,
          sym (append-nil (answered t.sent))
              ∙ ap (λ l. answered t.sent ++ l) (sym (waits t still))
              ∙ Reach-answered driver codec capacity policy w t r'
              ∙ ap waiting same,
        )
