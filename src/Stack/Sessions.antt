-- ===== src/Stack/Sessions.antt =====
-- A client that sends one request after the other (src/client.rs, and the files below it).
use squeuelite_rs.Common.{
  ℕ, ◌+◌, ◌≤◌, ◌≡◌, refl, ap, subst, ◌∙◌, List, [], ◌∷◌, ◌++◌, Text, codes, Result, ok, length,
}
use squeuelite_rs.Config.{OverflowPolicy}
use squeuelite_rs.Error.{Error}
use squeuelite_rs.Request.{WriteRequest, WriteResponse}
use squeuelite_rs.Codec.{Codec}
use squeuelite_rs.Driver.{Driver}
use squeuelite_rs.Driver.Snapshots.{idle}
use squeuelite_rs.Driver.Laws.{Semantics, Laws}
use squeuelite_rs.Driver.Refusal.{Willing}
use squeuelite_rs.Stats.{Stats}
use squeuelite_rs.Writer.{Writer}
use squeuelite_rs.Writer.Batch.{Ticket}
use squeuelite_rs.Writer.Refinement.{settings_of, PlainRequest}
use squeuelite_rs.Spec.{Settings, promised}
use squeuelite_rs.Gateway.Attached.{Attached, resting}
use squeuelite_rs.Rpc.{Serde}
use squeuelite_rs.Sidecar.{utf8_length, max_line_bytes}
use squeuelite_rs.Client.{Link, call_value, execute_value, send_request}
use squeuelite_rs.Client.Wire.{Carried, Replied, Derived, Session, loopback}
use squeuelite_rs.Client.Replies.{received, reply_to}
use squeuelite_rs.Client.Session.{counted, accepted}
use squeuelite_rs.Stack.{Surroundings, gateway, send_request-promised}

-- The requests in their order, each when the one before is answered.
unfoldable pub session :
    {W : Type 0} → Serde → Link W → List WriteRequest → W → List (Result WriteResponse Error) × W
unfolding send_request
session serde link [] w = ([], w)
session serde link (req ∷ reqs) w =
    let (response, w') = send_request serde link req w in
    let (responses, w'') = session serde link reqs w' in (response ∷ responses, w'')

module _ {D : Type 0} (meaning : Semantics D) (codec : Codec) (s : Settings) where
  -- What the client is to have, and the data that is to be left.
  unfoldable pub answers : List WriteRequest → D → List (Result WriteResponse Error)
  unfolding promised received
  answers [] x = []
  answers (req ∷ reqs) x =
      let (response, y) = promised meaning codec s req x in
      ok (received req.request_id (ok response)) ∷ answers reqs y

  unfoldable pub data_after : List WriteRequest → D → D
  unfolding promised
  data_after [] x = x
  data_after (req ∷ reqs) x = data_after reqs (promised meaning codec s req x).1

module _ {C D : Type 0} {driver : Driver C} {meaning : Semantics D} {IsPlain : Text → Type 0}
    (laws : Laws driver meaning IsPlain) (codec : Codec) (willing : Willing laws)
    (around : Surroundings (Attached C)) (size : ℕ) (policy : OverflowPolicy) (serde : Serde)
    (derived : Derived serde) (db_path : Text) where
  -- The call of a request fits a line, and its text and that of the reply are read back.
  abbrev pub Sendable : WriteRequest → WriteResponse → Type 0
  Sendable req response =
      ((call : Carried serde (call_value req.request_id (codes "execute") (execute_value req)))
        × (utf8_length (call.text ++ b'\n' ∷ []) ≤ max_line_bytes))
      × Replied serde (
          reply_to serde (gateway laws codec willing around size policy) req.request_id
            (ok response))

  -- Plain requests with operations, whose texts are read back on the data that each meets.
  unfoldable pub AllSendable : Settings → List WriteRequest → D → Type 0
  unfolding promised
  AllSendable s [] x = Unit
  AllSendable s (req ∷ reqs) x =
      PlainRequest IsPlain req
      × (1 ≤ length req.operations)
      × Sendable req (promised meaning codec s req x).0
      × AllSendable s reqs (promised meaning codec s req x).1

  unfoldable pub link : Link (Session serde (Attached C))
  unfolding loopback
  link = loopback serde (gateway laws codec willing around size policy) db_path

  -- One request, for settings that are those of the writer.
  abbrev Step : WriteRequest → Stats → Ticket → Writer C → D → Settings → Type 0
  unfolding link send_request received promised
  Step req stats next w x s =
      (v : Writer C) × (send_request serde link req ([], stats, resting driver codec size next w)
        ≡ (
          ok (received req.request_id (ok (promised meaning codec s req x).0)),
          (
            [],
            counted (ok (promised meaning codec s req x).0) (accepted stats),
            resting driver codec size (next + 1) v,
          ),
        ))
      × (settings_of v ≡ s)
      × (laws.state v.conn ≡ idle (promised meaning codec s req x).1)

  step :
      (s : Settings) (req : WriteRequest) (stats : Stats) (next : Ticket) (w : Writer C) (x : D)
      → settings_of w ≡ s
      → laws.state w.conn ≡ idle x
      → PlainRequest IsPlain req
      → 1 ≤ length req.operations
      → Sendable req (promised meaning codec s req x).0
      → Step req stats next w x s
  unfolding Step link
  step s req stats next w x same at plain some_operations sendable =
      subst (λ t. Sendable req (promised meaning codec t req x).0 → Step req stats next w x t) same
        (λ ((call, short), reply).
          send_request-promised laws codec willing around size policy serde db_path req [] stats
            next w x derived plain at some_operations call short reply)
        sendable

  -- For a driver that keeps the laws and refuses no BEGIN, COMMIT, SAVEPOINT or RELEASE where it is
  -- in place, where serde reads calls by their fields, on a gateway whose queue is empty and whose
  -- connection has no transaction open: let a client send plain requests with operations one after
  -- the other, each with a call that fits a line, and texts of call and reply that are read back,
  -- the reply's as the members of its struct. Then it gets for each the status that is promised on
  -- the data that the requests before have left, with its commit number or its message, and the
  -- gateway is left with the data after all of them.
  pub session-answers :
      (s : Settings) (reqs : List WriteRequest) (stats : Stats) (next : Ticket) (w : Writer C)
      (x : D)
      → settings_of w ≡ s
      → laws.state w.conn ≡ idle x
      → AllSendable s reqs x
      → (stats' : Stats) × (next' : Ticket) × (v : Writer C) × (session serde link reqs
            ([], stats, resting driver codec size next w)
          ≡ (answers meaning codec s reqs x, ([], stats', resting driver codec size next' v)))
        × (laws.state v.conn ≡ idle (data_after meaning codec s reqs x))
  unfolding session answers data_after Step link AllSendable
  session-answers s [] stats next w x same at sendable = (stats, next, w, refl, at)
  session-answers s (req ∷ reqs) stats next w x same at (plain, some_operations, sendable, later) =
      let (response, y) = promised meaning codec s req x in
      let (v, sent, same', at') =
        step s req stats next w x same at plain some_operations sendable in
      let (stats', next', v', rest, at'') =
        session-answers s reqs (counted (ok response) (accepted stats)) (next + 1) v y same' at'
          later in
      (
        stats',
        next',
        v',
        ap (λ r. (r.0 ∷ (session serde link reqs r.1).0, (session serde link reqs r.1).1)) sent
            ∙ ap (λ r. (ok (received req.request_id (ok response)) ∷ r.0, r.1)) rest,
        at'',
      )
