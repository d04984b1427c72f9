-- ===== src/Client/Connect.antt =====
-- Opening the stream of a client (src/client.rs, `Client::connect`; clients/rust/squeue.rs,
-- `Squeue::connect`). `L` are the two halves of a stream.
use squeuelite_rs.Common.{ℕ, Text, Result, map_err}
use squeuelite_rs.Error.{Error, io}
use squeuelite_rs.Effect.{Eff, pure, ◌>>=◌}
use squeuelite_rs.Squeue.{IoError}

pub record Client (L : Type 0) : Type 0 where
  pub actor_id : Text
  pub stream : L

pub record Squeue (L : Type 0) : Type 0 where
  pub actor_id : Text
  pub stream : L
  pub counter : ℕ

module _ {L W : Type 0} where
  -- `UnixStream::connect`, whose error is given by its message.
  abbrev opened : (Text → W → Result L Text × W) → Text → Eff W Error L
  opened connect path w = (map_err io (connect path w).0, (connect path w).1)

  -- `Client::connect`
  abbrev pub connect_client : (Text → W → Result L Text × W) → Text → Text → Eff W Error (Client L)
  connect_client connect actor_id path = do
    stream ← opened connect path
    pure (record { actor_id = actor_id; stream = stream })

  -- `Squeue::connect`
  abbrev pub connect_squeue :
      (Text → W → Result L IoError × W) → Text → Text → Eff W IoError (Squeue L)
  connect_squeue connect path actor_id = do
    stream ← connect path
    pure (record { actor_id = actor_id; stream = stream; counter = 0 })
