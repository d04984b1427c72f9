-- ===== src/System/Order.antt =====
-- The order of the serial execution against the order in time (src/inprocess.rs, src/writer.rs).
use squeuelite_rs.Common.{ℕ, ◌≤◌, ◌≡◌, refl, sym, ap, subst, ◌∙◌, List, [], ◌∷◌, ◌++◌, Text, arith}
use mathlib.Core.List.{append_assoc, append-nil}
use squeuelite_rs.Config.{OverflowPolicy}
use squeuelite_rs.Codec.{Codec}
use squeuelite_rs.Driver.{Driver}
use squeuelite_rs.Writer.{Writer}
use squeuelite_rs.Writer.Batch.{Ticket}
use squeuelite_rs.Writer.Loop.{Command, Sent}
use squeuelite_rs.Writer.Loop.Queue.{PlainCommands}
use squeuelite_rs.Writer.Refinement.{settings_of}
use squeuelite_rs.Serial.{Serial}
use squeuelite_rs.Driver.Snapshots.{idle}
use squeuelite_rs.Driver.Laws.{Semantics, Laws}
use squeuelite_rs.Driver.Refusal.{Refusal}
use squeuelite_rs.Writer.Loop.Replies.{waiting, answered}
use squeuelite_rs.System.{
  Call, execute_call, checkpoint_call, shutdown_call, System, issue, Step, calls, enters, leaves,
  drops, advances, Reach, later,
}
use squeuelite_rs.System.Callers.{advance-SameCallers}
use squeuelite_rs.System.Replies.{owed, Reach-answered}
use squeuelite_rs.System.Once.{count, tickets_of, issued, count-append, Reach-Placed}
use squeuelite_rs.System.Numbers.{Reach-Serial}

module _ {C : Type 0} (driver : Driver C) (codec : Codec) (capacity : ℕ)
    (policy : OverflowPolicy) where
  -- What happens from one state to another.
  pub data Steps : System C → System C → Type 0 where
    done : {s : System C} → Steps s s
    next : {s t u : System C} → Step driver codec capacity policy s t → Steps t u → Steps s u

  -- The log has only grown at its end.
  abbrev Grown : List Command → List Command → Type 0
  Grown log grown = (more : List Command) × (grown ≡ log ++ more)

  issue-log : (call : Call) (s : System C) → (issue call s).log ≡ s.log
  unfolding issue
  issue-log (execute_call req) s = refl
  issue-log checkpoint_call s = refl
  issue-log shutdown_call s = refl

  Grown-same : (log grown : List Command) → grown ≡ log → Grown log grown
  Grown-same log grown e = ([], e ∙ sym (append-nil log))

  Step-Grown : {s t : System C} → Step driver codec capacity policy s t → Grown s.log t.log
  Step-Grown {s} (calls call e) = Grown-same s.log (issue call s).log (issue-log call s)
  Step-Grown {s} (enters before after command e room there) = (command ∷ [], refl)
  Step-Grown {s} (leaves before after command why e refused) = Grown-same s.log s.log refl
  Step-Grown {s} (drops e) = Grown-same s.log s.log refl
  Step-Grown {s} {t} (advances e) =
      Grown-same s.log t.log (advance-SameCallers driver codec s t e).3

  Steps-Grown : {s t : System C} → Steps s t → Grown s.log t.log
  Steps-Grown {s} done = Grown-same s.log s.log refl
  Steps-Grown {s} {t = u} (next {t} step steps) =
      let (first, e) = Step-Grown step in
      let (second, f) = Steps-Grown steps in
      (first ++ second, f ∙ ap (λ l. l ++ second) e ∙ append_assoc s.log first second)

  Steps-Reach :
      {w : Writer C} {s t : System C}
      → Reach driver codec capacity policy w s
      → Steps s t
      → Reach driver codec capacity policy w t
  Steps-Reach r done = r
  Steps-Reach r (next step steps) = Steps-Reach (later r step) steps

  -- A call that was answered is in the log of that time, before its shutdown; one that is yet to
  -- begin is not.
  Reach-before :
      (w : Writer C) (s : System C) (m n : Ticket)
      → Reach driver codec capacity policy w s
      → 1 ≤ count m (answered s.sent)
      → s.next ≤ n
      → (1 ≤ count m (waiting s.log)) × (count n (tickets_of s.log) ≡ 0)
  Reach-before w s m n r before after =
      let sent = ap (count m) (Reach-answered driver codec capacity policy w s r) in
      let absent : issued n s.next ≡ 0 = ground arith in
      (
        omega (arith, before, sent, count-append m (answered s.sent) (owed s.phase s.queue)),
        omega (arith, absent, Reach-Placed driver codec capacity policy r n),
      )

module _ {C D : Type 0} {driver : Driver C} {meaning : Semantics D} {IsPlain : Text → Type 0}
    (laws : Laws driver meaning IsPlain) (codec : Codec) where
  -- The serial execution keeps the order in time. For a driver that keeps the laws and plain
  -- statements, on a connection with no transaction open: let, in a reachable state, the call of
  -- ticket `m` have been answered and the ticket `n` not been given out yet. Then all that is sent up
  -- to any later state begins the replies of a serial execution that first takes the commands of the
  -- earlier state's log, one of `m` before any shutdown and none of `n` among them, and then those
  -- that entered the channel since.
  pub Steps-Serial :
      (capacity : ℕ) (policy : OverflowPolicy) (w : Writer C) (s t : System C) (m n : Ticket)
      (x : D)
      → PlainCommands IsPlain t.log
      → laws.state w.conn ≡ idle x
      → Reach driver codec capacity policy w s
      → Steps driver codec capacity policy s t
      → 1 ≤ count m (answered s.sent)
      → s.next ≤ n
      → (more : List Command) × (owing : Sent) × (z : D) × Serial meaning codec
          (Refusal laws)
          (settings_of w)
          x
          (s.log ++ more)
          (t.sent ++ owing)
          z
        × (t.log ≡ s.log ++ more)
        × (1 ≤ count m (waiting s.log))
        × (count n (tickets_of s.log) ≡ 0)
  Steps-Serial capacity policy w s t m n x plain at r steps before after =
      let (more, grown) = Steps-Grown driver codec capacity policy steps in
      let (owing, z, serial) =
        Reach-Serial laws codec capacity policy w t x plain at
          (Steps-Reach driver codec capacity policy r steps) in
      let (executed, absent) = Reach-before driver codec capacity policy w s m n r before after in
      (
        more,
        owing,
        z,
        subst (λ log. Serial meaning codec (Refusal laws) (settings_of w) x log (t.sent ++ owing) z)
            grown serial,
        grown,
        executed,
        absent,
      )
