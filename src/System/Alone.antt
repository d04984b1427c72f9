-- ===== src/System/Alone.antt =====
-- The writer's thread with nobody left to send, against the loop on its whole queue (src/writer.rs:
-- `run`).
use squeuelite_rs.Common.{
  ℕ, zero, suc, ◌-◌, ◌≡◌, refl, sym, subst, ap, inl, inr, Option, none, some, List, [], ◌∷◌, ◌++◌,
  map, Bool-cases, Option-cases,
}
use mathlib.Core.List.{append_assoc, append-nil}
use squeuelite_rs.Request.{WriteRequest}
use squeuelite_rs.Codec.{Codec}
use squeuelite_rs.Driver.{Driver}
use squeuelite_rs.Writer.Batch.{Ticket}
use squeuelite_rs.Writer.Loop.{
  Command, write, shutdown, checkpoint, Arrival, ready, is_single, drain, handle, collect, turn,
}
use squeuelite_rs.Writer.Loop.Queue.{commands}
use squeuelite_rs.System.{
  receiving, collecting, System, received, collected, passed, advance_in, advance,
}
use squeuelite_rs.System.Branches.{
  at, ended, taken, left_over, received-alone, received-several, received-single, turn-alone,
  turn-several, turn-single,
}

-- All of these commands are there when the thread looks.
abbrev pub at_hand : List Command → List Arrival
at_hand = map ready

commands-at_hand : (queue : List Command) → commands (at_hand queue) ≡ queue
commands-at_hand [] = refl
commands-at_hand (command ∷ queue) = ap (λ l. command ∷ l) (commands-at_hand queue)

pub drain-at_hand :
    (room : ℕ) (queue : List Command)
    → (drain room (at_hand queue)).rest ≡ at_hand (commands (drain room (at_hand queue)).rest)
unfolding drain
drain-at_hand zero [] = refl
drain-at_hand zero (command ∷ queue) = ap (λ l. ready command ∷ l) (drain-at_hand zero queue)
drain-at_hand (suc room) [] = refl
drain-at_hand (suc room) (write req ticket ∷ queue) = elim (Bool-cases (is_single req)) [
  | inl single ↦ rw single (drain-at_hand room queue)
  | inr several ↦ rw several (drain-at_hand zero queue)
]
drain-at_hand (suc room) (shutdown ∷ queue) = drain-at_hand zero queue
drain-at_hand (suc room) (checkpoint ticket ∷ queue) = drain-at_hand zero queue

module _ {C : Type 0} (driver : Driver C) (codec : Codec) where
  -- Steps of the thread alone.
  pub data Goes : System C → System C → Type 0 where
    stay : {s : System C} → Goes s s
    go : {s t u : System C} → advance driver codec s ≡ some t → Goes t u → Goes s u

  ended-Goes :
      (x s : System C) (queue queue' : List Command) (deferred : Option Command)
      (req : WriteRequest) (ticket : Ticket) (batch batch' : List (WriteRequest × Ticket))
      → queue ≡ queue'
      → batch ≡ batch'
      → Goes x (ended driver codec s queue deferred req ticket batch)
      → Goes x (ended driver codec s queue' deferred req ticket batch')
  ended-Goes x s queue queue' deferred req ticket batch batch' e f h =
      subst (λ q. Goes x (ended driver codec s q deferred req ticket batch')) e
        (subst (λ b. Goes x (ended driver codec s queue deferred req ticket b)) f h)

  -- A collection takes what `drain` takes.
  pub collecting-Goes :
      (s : System C) (room : ℕ) (req : WriteRequest) (ticket : Ticket)
      (batch : List (WriteRequest × Ticket)) (queue : List Command)
      → let d = drain room (at_hand queue) in
        Goes
          (at driver codec s (collecting room req ticket batch) queue)
          (ended driver codec s (commands d.rest) d.deferred req ticket (batch ++ d.batch))
  unfolding advance advance_in collected drain
  collecting-Goes s zero req ticket batch queue =
      ended-Goes _ s queue (commands (at_hand queue)) none req ticket batch (batch ++ [])
        (sym (commands-at_hand queue)) (sym (append-nil batch)) (go refl stay)
  collecting-Goes s (suc room) req ticket batch [] =
      ended-Goes _ s [] [] none req ticket batch (batch ++ []) refl (sym (append-nil batch))
        (go refl stay)
  collecting-Goes s (suc room) req ticket batch (write other on ∷ queue) =
      elim (Bool-cases (is_single other)) [
        | inl single ↦
            let d = drain room (at_hand queue) in
            rw single (
              go (taken driver codec s room req ticket batch other on queue single) (
                ended-Goes _ s (commands d.rest) (commands d.rest) d.deferred req ticket
                  ((batch ++ (other, on) ∷ []) ++ d.batch) (batch ++ (other, on) ∷ d.batch) refl
                  (append_assoc batch ((other, on) ∷ []) d.batch)
                  (collecting-Goes s room req ticket (batch ++ (other, on) ∷ []) queue)))
        | inr several ↦ rw several (
            ended-Goes _ s queue (commands (at_hand queue)) (some (write other on)) req ticket batch
              (batch ++ []) (sym (commands-at_hand queue)) (sym (append-nil batch))
              (go (left_over driver codec s room req ticket batch other on queue several) stay))
      ]
  collecting-Goes s (suc room) req ticket batch (shutdown ∷ queue) =
      ended-Goes _ s queue (commands (at_hand queue)) (some shutdown) req ticket batch (batch ++ [])
        (sym (commands-at_hand queue)) (sym (append-nil batch)) (go refl stay)
  collecting-Goes s (suc room) req ticket batch (checkpoint on ∷ queue) =
      ended-Goes _ s queue (commands (at_hand queue)) (some (checkpoint on)) req ticket batch
        (batch ++ []) (sym (commands-at_hand queue)) (sym (append-nil batch)) (go refl stay)

  -- What a pass has to come to.
  abbrev pub Passed : System C → Command → List Command → Type 0
  Passed s command queue =
      let r = turn driver codec s.writer command (at_hand queue) in
      Goes (at driver codec s receiving (command ∷ queue))
        (passed driver codec s (commands r.1) r.0)

  -- A pass over a command by itself.
  alone-Goes :
      (s : System C) (command : Command) (queue : List Command)
      → advance driver codec (at driver codec s receiving (command ∷ queue))
        ≡ some (passed driver codec s queue (handle driver codec s.writer command))
      → turn driver codec s.writer command (at_hand queue)
        ≡ (handle driver codec s.writer command, at_hand queue)
      → Passed s command queue
  alone-Goes s command queue e same =
      subst
        (λ r.
          Goes (at driver codec s receiving (command ∷ queue))
            (passed driver codec s (commands r.1) r.0))
        (sym same)
        (subst
          (λ q.
            Goes (at driver codec s receiving (command ∷ queue))
              (passed driver codec s q (handle driver codec s.writer command)))
          (sym (commands-at_hand queue)) (go e stay))

  -- A pass over a command is the pass of the loop.
  pub receiving-Goes :
      (s : System C) (command : Command) (queue : List Command) → Passed s command queue
  unfolding advance advance_in received turn collect
  receiving-Goes s (write req ticket) queue = elim (Option-cases s.writer.config.batch) [
    | inl e ↦
        alone-Goes s (write req ticket) queue
          (ap some (
            received-alone driver codec (at driver codec s receiving (write req ticket ∷ queue)) req
              ticket queue e))
          (turn-alone driver codec s.writer req ticket (at_hand queue) e)
    | inr (limits, e) ↦ elim (Bool-cases (is_single req)) [
      | inl single ↦
          subst
            (λ r.
              Goes (at driver codec s receiving (write req ticket ∷ queue))
                (passed driver codec s (commands r.1) r.0))
            (sym (turn-single driver codec s.writer limits req ticket (at_hand queue) e single))
            (go
              (ap some (
                received-single driver codec
                  (at driver codec s receiving (write req ticket ∷ queue)) limits req ticket queue e
                  single))
              (collecting-Goes s (limits.max_size - 1) req ticket [] queue))
      | inr several ↦
          alone-Goes s (write req ticket) queue
            (ap some (
              received-several driver codec (at driver codec s receiving (write req ticket ∷ queue))
                limits req ticket queue e several))
            (turn-several driver codec s.writer limits req ticket (at_hand queue) e several)
    ]
  ]
  receiving-Goes s shutdown queue = alone-Goes s shutdown queue refl refl
  receiving-Goes s (checkpoint ticket) queue = alone-Goes s (checkpoint ticket) queue refl refl
