-- ===== src/Tests/System.antt =====
-- The gateway with its callers on a schedule of two calls, a batch and a shutdown.
use squeuelite_rs.Common.{
  inl, sym, ap, ◌∙◌, ◌∷◌, List, suc, ◌+◌, ◌≤◌, ◌≡◌, refl, none, some, [], ◌++◌, length, arith,
}
use mathlib.Core.List.{append-nil}
use squeuelite_rs.Config.{wait}
use squeuelite_rs.Driver.Snapshots.{State, idle}
use squeuelite_rs.Driver.Refusal.{Refusal}
use squeuelite_rs.Writer.Kept.{Kept}
use squeuelite_rs.Writer.Refinement.{settings_of}
use squeuelite_rs.Writer.Loop.{handle, handle_deferred, Command, write, shutdown, Sent}
use squeuelite_rs.Writer.Loop.Replies.{waiting, answered}
use squeuelite_rs.Writer.Loop.Passes.{Leads}
use squeuelite_rs.Serial.Numbers.{Increasing}
use squeuelite_rs.System.Numbers.{Reach-Increasing}
use squeuelite_rs.Tests.Numbers.{numbering, unkeyed}
use squeuelite_rs.System.Order.{done, next, Steps-Serial}
use squeuelite_rs.Serial.{Serial}
use squeuelite_rs.System.{
  checkpoint_call, Call, execute_call, shutdown_call, System, issue, admitted, received, collected,
  advance_in, advance, calls, enters, advances, Reach, start, later, opened,
}
use squeuelite_rs.System.Replies.{owed, Reach-answered}
use squeuelite_rs.System.Linear.{ahead, is_over, Reach-Leads}
use squeuelite_rs.System.Kept.{Reach-Kept}
use squeuelite_rs.System.Once.{count, tickets_of, refused_tickets, behind, Reach-once}
use squeuelite_rs.System.Progress.{steps_left, thread, thread-answered}
use squeuelite_rs.Tests.Database.{Db, empty_db, meaning, driver}
use squeuelite_rs.Tests.Laws.{laws}
use squeuelite_rs.Tests.Encoding.{codec}
use squeuelite_rs.Tests.Runs.{writer, keyed, plain_two}

abbrev Reached : System (State Db) → Type 0
Reached = Reach driver codec 2 wait writer

-- A call that enters the channel at once.
abbrev asked : Call → Command → System (State Db) → System (State Db)
unfolding issue
asked call command s = admitted [] command [] (issue call s)

abbrev one : System (State Db)
one = asked (execute_call keyed) (write keyed 0) (opened driver codec writer)

one-Reached : Reached one
unfolding issue
one-Reached =
    later (later start (calls (execute_call keyed) refl))
      (enters [] [] (write keyed 0) refl (omega arith) tt)

abbrev two : System (State Db)
two = asked (execute_call plain_two) (write plain_two 1) one

two-Reached : Reached two
unfolding issue
two-Reached =
    later (later one-Reached (calls (execute_call plain_two) refl))
      (enters [] [] (write plain_two 1) refl (omega arith) tt)

-- The writer has begun a batch, and the gateway is asked to shut down.
abbrev went : System (State Db) → System (State Db)
unfolding advance
went s = elim (advance driver codec s) [ none ↦ s | some t ↦ t ]

abbrev three : System (State Db)
unfolding went advance advance_in received
three = asked shutdown_call shutdown (went two)

three-Reached : Reached three
unfolding issue went advance advance_in received three
three-Reached =
    later (later (later two-Reached (advances {t = went two} refl)) (calls shutdown_call refl))
      (enters [] [] shutdown refl (omega arith) tt)

abbrev four : System (State Db)
unfolding went advance advance_in received three collected
four = went (went three)

four-Reached : Reached four
unfolding went advance advance_in received three collected four asked
four-Reached =
    later (later three-Reached (advances {t = went three} refl)) (advances {t = four} refl)

Reach-answered_example : answered four.sent ++ owed four.phase four.queue ≡ waiting four.log
Reach-answered_example = Reach-answered driver codec 2 wait writer four four-Reached

Reach-once_example :
    count 1 (tickets_of four.calling)
      + count 1 (refused_tickets four.refused)
      + count 1 (answered four.sent)
      + count 1 (owed four.phase four.queue)
      + count 1 (behind four.log)
    ≡ 1
unfolding four three asked issue went advance advance_in received collected
Reach-once_example = Reach-once driver codec 2 wait writer four 1 four-Reached (omega arith)

Reach-Kept_example : (length four.queue ≤ 2) × Kept writer four.writer
Reach-Kept_example = Reach-Kept driver codec 2 wait writer four four-Reached

Reach-Leads_example :
    (y : Db) × (settings_of four.writer ≡ settings_of writer)
    × (laws.state four.writer.conn ≡ idle y)
    × Leads meaning codec
        (Refusal laws)
        (settings_of writer)
        empty_db
        four.log
        four.sent
        (is_over four.phase)
        y
        (ahead four.phase four.queue)
unfolding laws four asked
Reach-Leads_example =
    Reach-Leads laws codec 2 wait writer four empty_db ((tt, tt), ((tt, tt), (tt, tt))) refl
      four-Reached

thread-answered_example :
    let t = thread driver codec (suc (steps_left three)) three in
    Reached t
    × (advance driver codec t ≡ none)
    × (t.log ≡ three.log)
    × (answered t.sent ≡ waiting three.log)
thread-answered_example = thread-answered driver codec 2 wait writer three three-Reached

-- Both calls have been answered, and then another begins.
abbrev five : System (State Db)
unfolding issue
five = issue checkpoint_call four

answered-four : answered four.sent ≡ 0 ∷ 1 ∷ []
unfolding four three asked issue went advance advance_in received collected handle_deferred handle
answered-four =
    sym (append-nil (answered four.sent))
    ∙ Reach-answered driver codec 2 wait writer four four-Reached

Steps-Serial_example :
    (more : List Command) × (owing : Sent) × (z : Db) × Serial meaning codec
      (Refusal laws)
      (settings_of writer)
      empty_db
      (four.log ++ more)
      (five.sent ++ owing)
      z
    × (five.log ≡ four.log ++ more)
    × (1 ≤ count 0 (waiting four.log))
    × (count 2 (tickets_of four.log) ≡ 0)
unfolding laws five four three asked issue went advance advance_in received collected
Steps-Serial_example =
    Steps-Serial laws codec 2 wait writer four five 0 2 empty_db ((tt, tt), ((tt, tt), (tt, tt)))
      refl four-Reached (next (calls checkpoint_call refl) done)
      (omega (arith, ap (count 0) answered-four)) (omega arith)

-- One request, executed by a writer that knows no keys.
abbrev asked_once : System (State Db)
asked_once = asked (execute_call keyed) (write keyed 0) (opened driver codec unkeyed)

abbrev done_once : System (State Db)
unfolding asked issue went advance advance_in received collected
done_once = went (went asked_once)

once-Reach : Reach driver codec 2 wait unkeyed done_once
unfolding done_once asked issue went advance advance_in received collected
once-Reach =
    later
      (later
        (later (later start (calls (execute_call keyed) refl))
          (enters [] [] (write keyed 0) refl (omega arith) tt))
        (advances {t = went asked_once} refl))
      (advances {t = done_once} refl)

Reach-Increasing_example :
    Increasing numbering codec (Refusal laws) (settings_of unkeyed) 0 done_once.sent
unfolding laws numbering done_once asked issue went advance advance_in received collected
Reach-Increasing_example =
    Reach-Increasing laws numbering codec 2 wait unkeyed done_once empty_db ((tt, tt), tt) refl refl
      ((inl refl, (refl, tt)), tt) once-Reach
