-- ===== src/Tests/Loops.antt =====
-- The loop's theorems that ask nothing of the driver, at a concrete queue.
use squeuelite_rs.Common.{◌≡◌, some}
use squeuelite_rs.Driver.Snapshots.{State}
use squeuelite_rs.Writer.{Writer}
use squeuelite_rs.Writer.Loop.{Sent, run}
use squeuelite_rs.Writer.Loop.Queue.{commands}
use squeuelite_rs.Writer.Loop.Replies.{waiting, answered, run-answered}
use squeuelite_rs.Tests.Database.{Db, driver}
use squeuelite_rs.Tests.Encoding.{codec}
use squeuelite_rs.Tests.Runs.{writer, queue}

run-answered_example :
    (sent : Sent) × (v : Writer (State Db)) × (run driver codec writer queue ≡ some (sent, v))
    × (answered sent ≡ waiting (commands queue))
run-answered_example = run-answered driver codec writer queue
