-- ===== src/System/Callers.antt =====
-- The callers' side of a step of the writer's thread, which does not touch it, and the callers once
-- the sending ends are gone (src/inprocess.rs, src/writer.rs).
use squeuelite_rs.Common.{
  ◌≡◌, refl, sym, subst, ◌∙◌, inl, inr, ℕ, zero, suc, Bool, true, false, Option, none, some, List,
  [], ◌∷◌, ◌++◌, Bool-cases, Option-cases, if◌then◌else◌,
}
use squeuelite_rs.Config.{OverflowPolicy}
use squeuelite_rs.Request.{WriteRequest}
use squeuelite_rs.Codec.{Codec}
use squeuelite_rs.Driver.{Driver}
use squeuelite_rs.Writer.{Writer}
use squeuelite_rs.Writer.Batch.{Ticket}
use squeuelite_rs.Writer.Loop.{Command, write, shutdown, checkpoint, is_single}
use squeuelite_rs.System.{
  Call, execute_call, checkpoint_call, shutdown_call, Phase, receiving, collecting, closing,
  stopped, System, issue, received, collected, gone, advance_in, advance, Step, calls, enters,
  leaves, drops, advances, Reach, start, later,
}

some_before : {A : Type 0} (before after : List A) (a : A) → before ++ a ∷ after ≡ [] → ⊥
some_before [] after a e = cc
some_before (b ∷ before) after a e = cc

bool_apart : true ≡ false → ⊥
bool_apart e = cc

module _ {C : Type 0} where
  -- What a step of the writer's thread gives, if there is one.
  abbrev pub Gives : (System C → Type 0) → Option (System C) → Type 0
  Gives P none = Unit {0}
  Gives P (some t) = P t

  pub unless :
      (P : System C → Type 0) (b : Bool) (t : System C)
      → (b ≡ false → P t)
      → Gives P (if b then none else some t)
  unless P true t h = tt
  unless P false t h = h refl

  -- Once the sending ends are gone nobody calls.
  abbrev pub Silent : System C → Type 0
  Silent s = s.senders ≡ false → s.calling ≡ []

  -- The thread does not touch the callers' side.
  abbrev pub SameCallers : System C → System C → Type 0
  SameCallers s t =
      (t.next ≡ s.next)
      × (t.calling ≡ s.calling)
      × (t.refused ≡ s.refused)
      × (t.log ≡ s.log)
      × (t.senders ≡ s.senders)

  issue-senders : (call : Call) (s : System C) → (issue call s).senders ≡ s.senders
  unfolding issue
  issue-senders (execute_call req) s = refl
  issue-senders checkpoint_call s = refl
  issue-senders shutdown_call s = refl

  pub somebody :
      (before after : List Command) (command : Command) (s : System C)
      → Silent s
      → s.calling ≡ before ++ command ∷ after
      → s.senders ≡ false
      → ⊥
  somebody before after command s silent e gone =
      some_before before after command (sym e ∙ silent gone)

module _ {C : Type 0} (driver : Driver C) (codec : Codec) where
  received-SameCallers :
      (s : System C) (command : Command) (rest : List Command)
      → SameCallers s (received driver codec s command rest)
  unfolding received
  received-SameCallers s (write req ticket) rest = elim (Option-cases s.writer.config.batch) [
    | inl e ↦ rw (e, received) (refl, refl, refl, refl, refl)
    | inr (limits, e) ↦ elim (Bool-cases (is_single req)) [
      | inl single ↦ rw (e, received, single) (refl, refl, refl, refl, refl)
      | inr several ↦ rw (e, received, several) (refl, refl, refl, refl, refl)
    ]
  ]
  received-SameCallers s shutdown rest = (refl, refl, refl, refl, refl)
  received-SameCallers s (checkpoint ticket) rest = (refl, refl, refl, refl, refl)

  collected-SameCallers :
      (s : System C) (room : ℕ) (req : WriteRequest) (ticket : Ticket)
      (batch : List (WriteRequest × Ticket)) (queue : List Command)
      → SameCallers s (collected driver codec s room req ticket batch queue)
  unfolding collected
  collected-SameCallers s zero req ticket batch queue = (refl, refl, refl, refl, refl)
  collected-SameCallers s (suc room) req ticket batch [] = (refl, refl, refl, refl, refl)
  collected-SameCallers s (suc room) req ticket batch (write other on ∷ rest) =
      elim (Bool-cases (is_single other)) [
        | inl single ↦ rw single (refl, refl, refl, refl, refl)
        | inr several ↦ rw several (refl, refl, refl, refl, refl)
      ]
  collected-SameCallers s (suc room) req ticket batch (shutdown ∷ rest) =
      (refl, refl, refl, refl, refl)
  collected-SameCallers s (suc room) req ticket batch (checkpoint on ∷ rest) =
      (refl, refl, refl, refl, refl)

  advance_in-SameCallers :
      (phase : Phase) (queue : List Command) (s : System C)
      → Gives (SameCallers s) (advance_in driver codec phase queue s)
  unfolding advance_in
  advance_in-SameCallers receiving [] s =
      unless (SameCallers s) s.senders _ (λ e. (refl, refl, refl, refl, refl))
  advance_in-SameCallers receiving (command ∷ rest) s = received-SameCallers s command rest
  advance_in-SameCallers (collecting room req ticket batch) queue s =
      collected-SameCallers s room req ticket batch queue
  advance_in-SameCallers closing queue s = (refl, refl, refl, refl, refl)
  advance_in-SameCallers stopped queue s = tt

  -- A step of the thread leaves the callers, and the log, as they were.
  pub advance-SameCallers : (s t : System C) → advance driver codec s ≡ some t → SameCallers s t
  unfolding advance
  advance-SameCallers s t e =
      subst (Gives (SameCallers s)) e (advance_in-SameCallers s.phase s.queue s)

  module _ (capacity : ℕ) (policy : OverflowPolicy) where
    pub Step-Silent : {s t : System C} → Step driver codec capacity policy s t → Silent s → Silent t
    Step-Silent {s} (calls call e) silent gone =
        absurd (bool_apart (sym e ∙ sym (issue-senders call s) ∙ gone))
    Step-Silent {s} (enters before after command e room there) silent gone =
        absurd (somebody before after command s silent e gone)
    Step-Silent {s} (leaves before after command why e refused) silent gone =
        absurd (somebody before after command s silent e gone)
    Step-Silent (drops e) silent gone = e
    Step-Silent {s} {t} (advances e) silent gone =
        let same = advance-SameCallers s t e in same.1 ∙ silent (sym same.4 ∙ gone)

    pub Reach-Silent :
        {w : Writer C} {s : System C} → Reach driver codec capacity policy w s → Silent s
    Reach-Silent start gone = refl
    Reach-Silent (later r step) gone = Step-Silent step (Reach-Silent r) gone
