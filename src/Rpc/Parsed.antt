-- ===== src/Rpc/Parsed.antt =====
-- Which parameters of `execute` reach the writer, and as which request (src/jsonrpc.rs).
use squeuelite_rs.Common.{
  ℕ, ◌+◌, ◌≤◌, ◌≡◌, refl, ap, subst, ◌∙◌, ◌⊎◌, inl, inr, Option, none, some, List, [], ◌∷◌, Text,
  codes, Result, ok, err, Result-cases, >>=-eq-ok, >>=-ok, ◌>>=◌, length, arith,
}
use squeuelite_rs.Json.{Json, Fields, get, as_object, as_array, elements}
use squeuelite_rs.Request.{SqlOperation, WriteRequest}
use squeuelite_rs.Stats.{Stats, fetch_add}
use squeuelite_rs.Rpc.{Serde, Handle, err_json, invalid_params}
use squeuelite_rs.Rpc.Execute.{
  required, str_at, operation_params, parse_operation, parse_operations, non_empty, from_values,
  from_operations, from_actor, from_fields, execute_params, request_id_of, execute_reply,
  dispatch_execute,
}

required-eq-ok : {A : Type 0} (o : Option A) (m : Text) (a : A) → required o m ≡ ok a → o ≡ some a
required-eq-ok none m a h = cc
required-eq-ok (some b) m a h = cc

-- The parameters of an entry: those of its array, or none where there is no array but null or
-- nothing.
abbrev pub Params : Option Json → List Json → Type 0
Params o ps =
    ((o ≡ none) × (ps ≡ []))
    ⊎ ((o ≡ some Json.null) × (ps ≡ []))
    ⊎ ((vs : _) × (o ≡ some (Json.array vs)) × (ps ≡ elements vs))

-- An entry of `operations`: an object with a string `sql` and these parameters.
abbrev pub Entry : Json → SqlOperation → Type 0
Entry v op =
    (fields : Fields) × (as_object v ≡ some fields)
    × (str_at (codes "sql") fields ≡ some op.sql)
    × Params (get (codes "params") fields) op.params

abbrev pub Entries : List Json → List SqlOperation → Type 0
Entries [] [] = Unit {0}
Entries [] (op ∷ ops) = ⊥
Entries (v ∷ vs) [] = ⊥
Entries (v ∷ vs) (op ∷ ops) = Entry v op × Entries vs ops

operation_params-Params :
    (i : ℕ) (o : Option Json) (ps : List Json) → operation_params i o ≡ ok ps → Params o ps
unfolding operation_params
operation_params-Params i none ps h = let e : ps ≡ [] = cc in inl (refl, e)
operation_params-Params i (some Json.null) ps h = let e : ps ≡ [] = cc in inr (inl (refl, e))
operation_params-Params i (some (Json.array vs)) ps h =
    let e : ps ≡ elements vs = cc in inr (inr (vs, refl, e))
operation_params-Params i (some (Json.bool b)) ps h = cc
operation_params-Params i (some (Json.number n)) ps h = cc
operation_params-Params i (some (Json.string s)) ps h = cc
operation_params-Params i (some (Json.object fs)) ps h = cc

Params-operation_params :
    (i : ℕ) (o : Option Json) (ps : List Json) → Params o ps → operation_params i o ≡ ok ps
unfolding operation_params
Params-operation_params i o ps (inl (e, f)) = rw (e, f) refl
Params-operation_params i o ps (inr (inl (e, f))) = rw (e, f) refl
Params-operation_params i o ps (inr (inr (vs, e, f))) = rw (e, f) refl

parse_operation-Entry :
    (i : ℕ) (v : Json) (op : SqlOperation) → parse_operation i v ≡ ok op → Entry v op
unfolding parse_operation
parse_operation-Entry i v op h =
    let (fields, e1, h1) = >>=-eq-ok (required (as_object v) _) _ h in
    let (sql, e2, h2) = >>=-eq-ok (required (str_at (codes "sql") fields) _) _ h1 in
    let (ps, e3, h3) = >>=-eq-ok (operation_params i (get (codes "params") fields)) _ h2 in
    let same : record { sql = sql; params = ps } ≡ op = cc in
    subst (Entry v) same (
      fields,
      required-eq-ok _ _ fields e1,
      required-eq-ok _ _ sql e2,
      operation_params-Params i _ ps e3,
    )

Entry-parse_operation :
    (i : ℕ) (v : Json) (op : SqlOperation) → Entry v op → parse_operation i v ≡ ok op
unfolding parse_operation
Entry-parse_operation i v op (fields, e, f, g) =
    rw (e, parse_operation) (rw f (>>=-ok _ (Params-operation_params i _ op.params g)))

parse_operations-Entries :
    (i : ℕ) (vs : List Json) (ops : List SqlOperation)
    → parse_operations i vs ≡ ok ops
    → Entries vs ops
unfolding parse_operations
parse_operations-Entries i [] [] h = tt
parse_operations-Entries i [] (op ∷ ops) h = cc
parse_operations-Entries i (v ∷ vs) ops h =
    let (op, e, h') = >>=-eq-ok (parse_operation i v) _ h in
    let (rest, e', h'') = >>=-eq-ok (parse_operations (i + 1) vs) _ h' in
    let same : op ∷ rest ≡ ops = cc in
    subst (Entries (v ∷ vs)) same
      (parse_operation-Entry i v op e, parse_operations-Entries (i + 1) vs rest e')

Entries-parse_operations :
    (i : ℕ) (vs : List Json) (ops : List SqlOperation)
    → Entries vs ops
    → parse_operations i vs ≡ ok ops
unfolding parse_operations
Entries-parse_operations i [] [] h = refl
Entries-parse_operations i [] (op ∷ ops) h = absurd h
Entries-parse_operations i (v ∷ vs) [] h = absurd h
Entries-parse_operations i (v ∷ vs) (op ∷ ops) (h, hs) =
    >>=-ok (λ op'. parse_operations (i + 1) vs >>= λ ops'. ok (op' ∷ ops'))
      (Entry-parse_operation i v op h)
    ∙ >>=-ok (λ ops'. ok (op ∷ ops')) (Entries-parse_operations (i + 1) vs ops hs)

non_empty-eq-ok :
    (o : Option (List Json)) (vs : List Json)
    → non_empty o ≡ ok vs
    → (o ≡ some vs) × (1 ≤ length vs)
non_empty-eq-ok none vs h = cc
non_empty-eq-ok (some []) vs h = cc
non_empty-eq-ok (some (v ∷ ws)) vs h =
    let eq : v ∷ ws ≡ vs = cc in (ap some eq, subst (λ l. 1 ≤ length l) eq (omega arith))

non_empty-some : (vs : List Json) → 1 ≤ length vs → non_empty (some vs) ≡ ok vs
non_empty-some [] h = grind arith
non_empty-some (v ∷ vs) h = refl

-- The request that a result gives for an id, with `other` where it is an error.
abbrev request_at : Result (Text → WriteRequest) Text → Text → WriteRequest → WriteRequest
request_at (ok request) id other = request id
request_at (err m) id other = other

-- A request with this id and this actor, with the run and the key of the members, where they are
-- strings, and with the operations of the entries.
abbrev pub Carries : Text → Fields → Text → List Json → WriteRequest → Type 0
Carries id fields actor vs req =
    (req.request_id ≡ id)
    × (req.actor_id ≡ actor)
    × (req.run_id ≡ str_at (codes "run_id") fields)
    × (req.idempotency_key ≡ str_at (codes "idempotency_key") fields)
    × Entries vs req.operations

from_values-Carries :
    (fields : Fields) (actor : Text) (vs : List Json) (request : Text → WriteRequest) (id : Text)
    → from_values fields actor vs ≡ ok request
    → Carries id fields actor vs (request id)
unfolding from_values
from_values-Carries fields actor vs request id h =
    let (ops, e, h') = >>=-eq-ok (parse_operations 0 vs) _ h in
    let same = ap (λ r. request_at r id (request id)) h' in
    subst (Carries id fields actor vs) same
      (refl, refl, refl, refl, parse_operations-Entries 0 vs ops e)

-- The parameters are an object with a string `actor_id` and an array `operations` that is not empty,
-- and this is the request that they stand for.
abbrev pub Taken : Json → Text → WriteRequest → Type 0
Taken params id req =
    (fields : Fields) × (actor : Text) × (values : Json) × (vs : List Json) × (as_object params
      ≡ some fields)
    × (str_at (codes "actor_id") fields ≡ some actor)
    × (get (codes "operations") fields ≡ some values)
    × (as_array values ≡ some vs)
    × (1 ≤ length vs)
    × Carries id fields actor vs req

execute_params-Taken :
    (params : Json) (request : Text → WriteRequest) (id : Text)
    → execute_params params ≡ ok request
    → Taken params id (request id)
unfolding execute_params from_fields from_actor from_operations
execute_params-Taken params request id h =
    let (fields, e1, h1) = >>=-eq-ok (required (as_object params) _) from_fields h in
    let (actor, e2, h2) =
      >>=-eq-ok (required (str_at (codes "actor_id") fields) _) (from_actor fields) h1 in
    let (value, e3, h3) =
      >>=-eq-ok (required (get (codes "operations") fields) _) (from_operations fields actor) h2 in
    let (vs, e4, h4) = >>=-eq-ok (non_empty (as_array value)) (from_values fields actor) h3 in
    let (array, some_values) = non_empty-eq-ok (as_array value) vs e4 in
    (
      fields,
      actor,
      value,
      vs,
      required-eq-ok _ _ fields e1,
      required-eq-ok _ _ actor e2,
      required-eq-ok _ _ value e3,
      array,
      some_values,
      from_values-Carries fields actor vs request id h4,
    )

-- Parameters that stand for a request are not refused.
Taken-execute_params :
    (params : Json) (id : Text) (req : WriteRequest) (message : Text)
    → Taken params id req
    → execute_params params ≡ err message
    → ⊥
unfolding execute_params from_fields from_actor from_operations from_values
Taken-execute_params params id req message (fields, actor, values, vs, e1, e2, e3, e4, length, h)
      refused =
    let parsed = Entries-parse_operations 0 vs req.operations h.4 in
    let taken : execute_params params
        ≡ ok (λ request_id. record {
          request_id = request_id;
          actor_id = actor;
          run_id = str_at (codes "run_id") fields;
          idempotency_key = str_at (codes "idempotency_key") fields;
          operations = req.operations;
        }) =
      rw (e1, execute_params)
        (rw (e2, from_fields)
          (rw (e3, from_actor)
            (rw (e4, non_empty-some vs length, from_operations) (>>=-ok _ parsed)))) in
    cc

module _ {W : Type 0} (serde : Serde) (handle : Handle W) where
  -- A call of `execute` with parameters that stand for a request gives that request to the gateway,
  -- once, under the id of the call or a new one, and the reply and the counter are those of the
  -- outcome: the request has the actor, the run and the key of the parameters, and for each entry
  -- of their array, in order, its statement and its parameters. With any other parameters the
  -- reply is the error of invalid params, and counters and gateway are left as they were.
  pub dispatch_execute-Taken :
      (id params : Json) (stats : Stats) (w : W)
      → let (request_id, w') = request_id_of serde handle id w in
        ((req : WriteRequest) × Taken params request_id req
          × (dispatch_execute serde handle id params stats w ≡ (
              let (result, w'') = handle.execute req w' in
              let (text, stats') =
                execute_reply serde handle id
                  (record stats { accepted = fetch_add stats.accepted })
                  result in
              (text, stats', w''))))
        ⊎ (((req : WriteRequest) → Taken params request_id req → ⊥)
            × ((message : Text) × (dispatch_execute serde handle id params stats w
                  ≡ (err_json serde id invalid_params message, stats, w))))
  unfolding dispatch_execute
  dispatch_execute-Taken id params stats w =
      let request_id = (request_id_of serde handle id w).0 in
      elim (Result-cases (execute_params params)) [
        | inl (request, e) ↦ inl (
          request request_id,
          execute_params-Taken params request request_id e,
          rw (e, dispatch_execute) refl,
        )
        | inr (message, e) ↦ inr (
          λ req taken. Taken-execute_params params request_id req message taken e,
          (message, rw (e, dispatch_execute) refl),
        )
      ]
