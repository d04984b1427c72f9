-- ===== src/Squeue.antt =====
-- The standalone client (clients/rust/squeue.rs): a request with an idempotency key and a run id, sent
-- as a JSON line.
pub mod Request
use squeuelite_rs.Common.{
  ℕ, ◌+◌, ◌%◌, ◌^◌, Bool, true, false, Option, none, some, List, [], ◌∷◌, ◌++◌, map, Text, codes,
  text_eq, Result, ok, err, map_err, if◌then◌else◌, ◌==◌, ltb,
}
use squeuelite_rs.Json.{Json, Number, Fields, end, field}
use squeuelite_rs.Effect.{Eff, lift, call, ◌>>=◌, ◌>>◌}
use squeuelite_rs.Client.{version, array_of}

-- `io::Error`, by its message, with the two kinds that the client makes itself.
pub data IoError : Type 0 where
  other invalid_data unexpected_eof : Text → IoError

-- The stream, and what the client calls of serde_json and base64.
pub record Socket (W : Type 0) : Type 0 where
  pub write_all : Text → W → Result (Unit {0}) IoError × W
  -- a line with its newline; empty at the end of the stream
  pub read_line : W → Result Text IoError × W
  pub to_string : Json → Result Text Text
  pub from_str : Text → Result Json Text
  -- the number of a u64
  pub number_from : ℕ → Number

-- `blob`, from base64's encoder.
unfoldable pub blob : (List ℕ → Text) → List ℕ → Json
blob base64_encode bytes =
    Json.object (field (codes "$blob") (Json.string (base64_encode bytes)) end)

-- The order of strings, letter by letter.
unfoldable pub text_before : Text → Text → Bool
text_before [] [] = false
text_before [] (d ∷ t) = true
text_before (c ∷ s) [] = false
text_before (c ∷ s) (d ∷ t) = let rest = text_before s t in if c == d then rest else ltb c d

-- `Map::insert`: the value of the key, or a new member in the order of the keys.
unfoldable pub map_insert : Text → Json → Fields → Fields
unfolding text_eq text_before
map_insert k v end = field k v end
map_insert k v (field j u fs) =
    let rest = map_insert k v fs in
    if text_eq k j
    then field j v fs
    else if text_before k j
    then field k v (field j u fs)
    else field j u rest

abbrev pub map_insert_if : Text → Option Text → Fields → Fields
unfolding map_insert
map_insert_if k none fs = fs
map_insert_if k (some s) fs = map_insert k (Json.string s) fs

abbrev pub operation_json : Text × Json → Json
operation_json (sql, params) =
    Json.object (field (codes "params") params (field (codes "sql") (Json.string sql) end))

-- The params of `execute`.
unfoldable pub rpc_fields : Text → Json → Option Text → Option Text → Fields
unfolding map_insert
rpc_fields actor_id operations idempotency_key run_id = map_insert_if (codes "run_id") run_id (
    map_insert_if (codes "idempotency_key") idempotency_key
      (field (codes "actor_id") (Json.string actor_id) (field (codes "operations") operations end)))

unfoldable pub rpc_params : Text → List (Text × Json) → Option Text → Option Text → Json
unfolding rpc_fields
rpc_params actor_id ops idempotency_key run_id =
    Json.object
      (rpc_fields actor_id (Json.array (array_of (map operation_json ops))) idempotency_key run_id)

-- `next_id`, in a build without overflow checks: the id and the counter after it.
unfoldable pub next_id : ℕ → ℕ × ℕ
next_id counter = ((counter + 1) % 2 ^ 64, (counter + 1) % 2 ^ 64)

module _ {W : Type 0} (socket : Socket W) where
  -- The client's state: the counter of ids, and the rest.
  abbrev pub Client : Type 0
  Client = ℕ × W

  abbrev pub on_socket : {A : Type 0} → (W → Result A IoError × W) → Eff Client IoError A
  on_socket f (counter, w) = let (result, w') = f w in (result, (counter, w'))

  abbrev pub unless_empty : Text → Result Text IoError
  unless_empty [] = err (unexpected_eof (codes "gateway closed the connection"))
  unless_empty (c ∷ s) = ok (c ∷ s)

  unfoldable pub roundtrip : Json → Eff Client IoError Json
  roundtrip req = do
    line ← lift (map_err invalid_data (socket.to_string req))
    on_socket (socket.write_all (line ++ b'\n' ∷ []))
    read ← on_socket socket.read_line
    reply ← lift (unless_empty read)
    lift (map_err invalid_data (socket.from_str reply))

  abbrev pub take_id : Eff Client IoError ℕ
  unfolding next_id
  take_id (counter, w) = let (id, counter') = next_id counter in (ok id, (counter', w))

  unfoldable pub transaction :
      Text → List (Text × Json) → Option Text → Option Text → Eff Client IoError Json
  unfolding roundtrip rpc_params take_id
  transaction actor_id ops idempotency_key run_id = do
    id ← take_id
    roundtrip (
        Json.object (
          field (codes "id") (Json.number (socket.number_from id)) (
            field (codes "jsonrpc") version (
              field (codes "method") (Json.string (codes "execute"))
                (field (codes "params") (rpc_params actor_id ops idempotency_key run_id) end)))))

  unfoldable pub execute : Text → Text → Json → Option Text → Option Text → Eff Client IoError Json
  unfolding transaction
  execute actor_id sql params idempotency_key run_id =
      transaction actor_id ((sql, params) ∷ []) idempotency_key run_id

  unfoldable pub admin : Text → Eff Client IoError Json
  unfolding roundtrip take_id
  admin method = do
    id ← take_id
    roundtrip (
        Json.object (
          field (codes "id") (Json.number (socket.number_from id))
            (field (codes "jsonrpc") version (field (codes "method") (Json.string method) end))))

  abbrev pub stats : Eff Client IoError Json
  unfolding admin
  stats = admin (codes "stats")

  abbrev pub health : Eff Client IoError Json
  unfolding admin
  health = admin (codes "health")

  abbrev pub request_checkpoint : Eff Client IoError Json
  unfolding admin
  request_checkpoint = admin (codes "checkpoint")
