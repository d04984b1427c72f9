-- ===== src/Tests/Clients.antt =====
-- The theorems on the two transports at concrete calls.
use squeuelite_rs.Common.{◌≡◌, ◌≢◌, ◌⊎◌, none, some, List, [], ◌++◌, Text, codes}
use squeuelite_rs.Request.{WriteRequest}
use squeuelite_rs.Stats.{new_arc}
use squeuelite_rs.Http.{bearer, rpc_handler, unauthorized_401, unauthorized}
use squeuelite_rs.Http.Bearer.{rpc_handler-bearer}
use squeuelite_rs.Tests.Transport.{serde, handle}

abbrev pub path : Text
path = codes "app.db"

abbrev pub empty : List WriteRequest
empty = []

rpc_handler-bearer_example :
    ((some (codes "Bearer s3cret") ≡ some (bearer ++ codes "secret"))
      × (rpc_handler serde handle path
            (some (codes "secret"))
            (some (codes "Bearer s3cret"))
            (some [])
            new_arc
            empty
          ≡ rpc_handler serde handle path none
              (some (codes "Bearer s3cret"))
              (some [])
              new_arc
              empty))
    ⊎ ((some (codes "Bearer s3cret") ≢ some (bearer ++ codes "secret"))
        × (rpc_handler serde handle path
              (some (codes "secret"))
              (some (codes "Bearer s3cret"))
              (some [])
              new_arc
              empty
            ≡ ((unauthorized_401, unauthorized), new_arc, empty)))
rpc_handler-bearer_example =
    rpc_handler-bearer serde handle path (codes "secret") (some (codes "Bearer s3cret")) (some [])
      new_arc empty
