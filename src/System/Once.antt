-- ===== src/System/Once.antt =====
-- No call is lost and none is answered twice (src/inprocess.rs, src/writer.rs).
use squeuelite_rs.Common.{
  ℕ, suc, ◌+◌, ◌<◌, ◌≡◌, refl, ap, inl, inr, Option, List, [], ◌∷◌, ◌++◌, ◌==◌, if◌then◌else◌, ltb,
  arith, Bool-cases,
}
use squeuelite_rs.Config.{OverflowPolicy}
use squeuelite_rs.Error.{Error}
use squeuelite_rs.Codec.{Codec}
use squeuelite_rs.Driver.{Driver}
use squeuelite_rs.Writer.{Writer}
use squeuelite_rs.Writer.Batch.{Ticket}
use squeuelite_rs.Writer.Loop.{Command, write, shutdown, checkpoint}
use squeuelite_rs.Writer.Loop.Replies.{waiting, answered}
use squeuelite_rs.System.{
  Call, execute_call, checkpoint_call, shutdown_call, System, issue, Step, calls, enters, leaves,
  drops, advances, Reach, start, later,
}
use squeuelite_rs.System.Callers.{advance-SameCallers}
use squeuelite_rs.System.Replies.{owed, Reach-answered}

abbrev pub count : Ticket → List Ticket → ℕ
count n [] = 0
count n (m ∷ tickets) = let more = count n tickets in if n == m then suc more else more

-- The one-shot channels of commands.
abbrev pub tickets_of : List Command → List Ticket
tickets_of [] = []
tickets_of (write req ticket ∷ commands) = ticket ∷ tickets_of commands
tickets_of (shutdown ∷ commands) = tickets_of commands
tickets_of (checkpoint ticket ∷ commands) = ticket ∷ tickets_of commands

-- Who sent a command that entered the channel after the first shutdown; such a command is dropped,
-- and its sender finds the gateway closed.
abbrev pub behind : List Command → List Ticket
behind [] = []
behind (write req ticket ∷ commands) = behind commands
behind (shutdown ∷ commands) = tickets_of commands
behind (checkpoint ticket ∷ commands) = behind commands

abbrev pub refused_tickets : List (Command × Option Error) → List Ticket
refused_tickets [] = []
refused_tickets ((command, why) ∷ refused) = tickets_of (command ∷ []) ++ refused_tickets refused

pub count-append : (n : Ticket) (xs ys : List Ticket) → count n (xs ++ ys) ≡ count n xs + count n ys
count-append n [] ys = omega arith
count-append n (x ∷ xs) ys = elim (Bool-cases (n == x)) [
  | inl e ↦ rw e (omega (arith, count-append n xs ys))
  | inr e ↦ rw e (omega (arith, count-append n xs ys))
]

count_tickets-append :
    (n : Ticket) (xs ys : List Command)
    → count n (tickets_of (xs ++ ys)) ≡ count n (tickets_of xs) + count n (tickets_of ys)
count_tickets-append n [] ys = omega arith
count_tickets-append n (write req ticket ∷ xs) ys = elim (Bool-cases (n == ticket)) [
  | inl e ↦ rw e (omega (arith, count_tickets-append n xs ys))
  | inr e ↦ rw e (omega (arith, count_tickets-append n xs ys))
]
count_tickets-append n (shutdown ∷ xs) ys = count_tickets-append n xs ys
count_tickets-append n (checkpoint ticket ∷ xs) ys = elim (Bool-cases (n == ticket)) [
  | inl e ↦ rw e (omega (arith, count_tickets-append n xs ys))
  | inr e ↦ rw e (omega (arith, count_tickets-append n xs ys))
]

-- A command in the middle of others.
count-middle :
    (n : Ticket) (before after : List Command) (command : Command)
    → count n (tickets_of (before ++ command ∷ after))
      ≡ count n (tickets_of (before ++ after)) + count n (tickets_of (command ∷ []))
count-middle n before after command = omega (
  arith,
  count_tickets-append n before (command ∷ after),
  count_tickets-append n before after,
  count_tickets-append n (command ∷ []) after,
)

-- The log is what waits before the first shutdown and what is behind it.
pub count-log :
    (n : Ticket) (log : List Command)
    → count n (tickets_of log) ≡ count n (waiting log) + count n (behind log)
count-log n [] = refl
count-log n (write req ticket ∷ log) = elim (Bool-cases (n == ticket)) [
  | inl e ↦ rw e (omega (arith, count-log n log))
  | inr e ↦ rw e (omega (arith, count-log n log))
]
count-log n (shutdown ∷ log) = omega arith
count-log n (checkpoint ticket ∷ log) = elim (Bool-cases (n == ticket)) [
  | inl e ↦ rw e (omega (arith, count-log n log))
  | inr e ↦ rw e (omega (arith, count-log n log))
]

-- One below the next ticket, zero from there on.
abbrev pub issued : Ticket → Ticket → ℕ
issued n next = if ltb n next then 1 else 0

issued-next : (n next : Ticket) → issued n (next + 1) ≡ issued n next + (if n == next then 1 else 0)
issued-next n next = ground arith

count-own :
    (n m : Ticket) (tickets : List Ticket)
    → count n (m ∷ tickets) ≡ count n tickets + (if n == m then 1 else 0)
count-own n m tickets = elim (Bool-cases (n == m)) [
  | inl e ↦ rw e (omega arith)
  | inr e ↦ rw e (omega arith)
]

-- How often a ticket stands among the calls: those that wait to enter, those that were refused and
-- those that entered.
abbrev pub places : {C : Type 0} → Ticket → System C → ℕ
places n s =
    count n (tickets_of s.calling)
    + count n (refused_tickets s.refused)
    + count n (tickets_of s.log)

enters-Placed :
    (n next : Ticket) (before after calling log : List Command) (command : Command) (others : ℕ)
    → calling ≡ before ++ command ∷ after
    → count n (tickets_of calling) + others + count n (tickets_of log) ≡ issued n next
    → count n (tickets_of (before ++ after)) + others + count n (tickets_of (log ++ command ∷ []))
      ≡ issued n next
enters-Placed n next before after calling log command others e h =
    let here = ap (λ l. count n (tickets_of l)) e in
    omega (
      arith,
      h,
      here,
      count-middle n before after command,
      count_tickets-append n log (command ∷ []),
    )

leaves-Placed :
    (n next : Ticket) (before after calling : List Command) (command : Command)
    (refused : List (Command × Option Error)) (why : Option Error) (others : ℕ)
    → calling ≡ before ++ command ∷ after
    → count n (tickets_of calling) + count n (refused_tickets refused) + others ≡ issued n next
    → count n (tickets_of (before ++ after))
        + count n (refused_tickets ((command, why) ∷ refused))
        + others
      ≡ issued n next
leaves-Placed n next before after calling command refused why others e h =
    let here = ap (λ l. count n (tickets_of l)) e in
    omega (
      arith,
      h,
      here,
      count-middle n before after command,
      count-append n (tickets_of (command ∷ [])) (refused_tickets refused),
    )

module _ {C : Type 0} where
  -- Each ticket that was issued is in one place, and the others in none.
  abbrev pub Placed : System C → Type 0
  Placed s = (n : Ticket) → places n s ≡ issued n s.next

  issue-Placed : (call : Call) (s : System C) → Placed s → Placed (issue call s)
  unfolding issue
  issue-Placed (execute_call req) s h n =
      omega (arith, h n, issued-next n s.next, count-own n s.next (tickets_of s.calling))
  issue-Placed checkpoint_call s h n =
      omega (arith, h n, issued-next n s.next, count-own n s.next (tickets_of s.calling))
  issue-Placed shutdown_call s h n = h n

module _ {C : Type 0} (driver : Driver C) (codec : Codec) (capacity : ℕ)
    (policy : OverflowPolicy) where
  Step-Placed : {s t : System C} → Step driver codec capacity policy s t → Placed s → Placed t
  Step-Placed {s} (calls call e) h n = issue-Placed call s h n
  Step-Placed {s} (enters before after command e room there) h n =
      enters-Placed n s.next before after s.calling s.log command
        (count n (refused_tickets s.refused)) e (h n)
  Step-Placed {s} (leaves before after command why e refused) h n =
      leaves-Placed n s.next before after s.calling command s.refused why
        (count n (tickets_of s.log)) e (h n)
  Step-Placed (drops e) h n = h n
  Step-Placed {s} {t} (advances e) h n =
      let (next, calling, refused, log, senders) = advance-SameCallers driver codec s t e in
      rw (next, calling, refused, log) (h n)

  pub Reach-Placed :
      {w : Writer C} {s : System C} → Reach driver codec capacity policy w s → Placed s
  Reach-Placed start n = ground arith
  Reach-Placed (later r step) n = Step-Placed step (Reach-Placed r) n

  -- In every reachable state, whatever the driver does and however the steps interleave: each ticket
  -- that was issued is in exactly one of these places, and there once. Its call waits to enter the
  -- channel; it was refused or given up before that; it has been answered; the thread owes it an
  -- answer; or its command entered after the first shutdown.
  pub Reach-once :
      (w : Writer C) (s : System C) (n : Ticket)
      → Reach driver codec capacity policy w s
      → n < s.next
      → count n (tickets_of s.calling)
          + count n (refused_tickets s.refused)
          + count n (answered s.sent)
          + count n (owed s.phase s.queue)
          + count n (behind s.log)
        ≡ 1
  Reach-once w s n r below =
      let here = ap (count n) (Reach-answered driver codec capacity policy w s r) in
      let one : issued n s.next ≡ 1 = ground arith in
      omega (
        arith,
        one,
        Reach-Placed r n,
        count-log n s.log,
        here,
        count-append n (answered s.sent) (owed s.phase s.queue),
      )
