-- ===== src/Spec/Memory.antt =====
-- The table of requests on the data, and what a transaction does to its rows.
use squeuelite_rs.Common.{
  ℕ, ◌≡◌, refl, subst, ◌∙◌, inl, inr, Bool, true, false, Option, none, some, List, [], ◌∷◌, Text,
  Result, ok, err, All, arith, Result-cases, >>=-eq-ok, map_err, ◌>>=◌,
}
use squeuelite_rs.Common.Int.{ℤ}
use squeuelite_rs.Error.{SqlError, display}
use squeuelite_rs.Request.{SqlOperation, WriteRequest, committed_response}
use squeuelite_rs.Codec.{Codec}
use squeuelite_rs.Params.{SqlValue, text, params_from}
use squeuelite_rs.Statements.{select_request, insert_commit, insert_request}
use squeuelite_rs.Driver.Laws.{Semantics}
use squeuelite_rs.Writer.{Admission, reply, proceed, request_row, commit_row, or_empty}
use squeuelite_rs.Spec.{
  Settings, statement, operations, numbered, remembered, transaction, outcome, resolve, promised,
  admission,
}

-- A row of the table of requests: the hash of the operations, and the response.
abbrev pub Row : Type 0
Row = Text × Option Text

abbrev pub stored : {D : Type 0} → Semantics D → Text → D → Result Row SqlError
stored meaning key x = meaning.query select_request (text key ∷ []) x

-- What is relied on in the table of requests. A statement that is `Sparing` writes nothing there.
pub record Table {D : Type 0} (meaning : Semantics D) (Sparing : Text → Type 0) : Type 0 where
  -- INSERT OR IGNORE of a key for which a query finds no row gives it one
  pub insert_new :
      (key hash response : Text) (seq : Option ℤ) (x : D) (e : SqlError) (n : ℕ)
      → e.no_rows ≡ true
      → stored meaning key x ≡ err e
      → (meaning.run insert_request (request_row key hash response seq) x).0 ≡ ok n
      → stored meaning key (meaning.run insert_request (request_row key hash response seq) x).1
        ≡ ok (hash, some response)
  -- and leaves each row that is there
  pub insert_keeps :
      (key : Text) (ps : List SqlValue) (x : D) (row : Row)
      → stored meaning key x ≡ ok row
      → stored meaning key (meaning.run insert_request ps x).1 ≡ ok row
  pub sparing_keeps :
      (key sql : Text) (ps : List SqlValue) (x : D)
      → Sparing sql
      → stored meaning key (meaning.run sql ps x).1 ≡ stored meaning key x
  pub insert_commit_sparing : Sparing insert_commit

abbrev pub SparingRequest : (Text → Type 0) → WriteRequest → Type 0
SparingRequest Sparing req = All (λ op. Sparing op.sql) req.operations

module _ {D : Type 0} {meaning : Semantics D} {Sparing : Text → Type 0}
    (table : Table meaning Sparing) (codec : Codec) where
  statement-stored :
      (key sql : Text) (ps : List SqlValue) (x y : D)
      → Sparing sql
      → statement meaning sql ps x ≡ ok y
      → stored meaning key y ≡ stored meaning key x
  unfolding statement
  statement-stored key sql ps x y spares h = ground (arith, table.sparing_keeps key sql ps x spares)

  operations-stored :
      (key : Text) (ops : List SqlOperation) (x y : D)
      → All (λ op. Sparing op.sql) ops
      → operations meaning codec ops x ≡ ok y
      → stored meaning key y ≡ stored meaning key x
  unfolding operations
  operations-stored key [] x y spares h = cc
  operations-stored key (op ∷ ops) x y spares h =
      let params = map_err display (params_from codec op.params) in
      let (ps, _, h') =
        >>=-eq-ok params (λ ps. statement meaning op.sql ps x >>= operations meaning codec ops) h in
      let (z, first, rest) =
        >>=-eq-ok (statement meaning op.sql ps x) (operations meaning codec ops) h' in
      operations-stored key ops z y spares.1 rest
      ∙ statement-stored key op.sql ps x z spares.0 first

  numbered-stored :
      (key : Text) (track : Bool) (req : WriteRequest) (x : D) (r : Option ℤ × D)
      → numbered meaning track req x ≡ ok r
      → stored meaning key r.1 ≡ stored meaning key x
  unfolding numbered
  numbered-stored key false req x r h = cc
  numbered-stored key true req x r h =
      let (z, first, rest) =
        >>=-eq-ok (statement meaning insert_commit (commit_row req) x)
          (λ y. ok (some (meaning.newest_commit y), y)) h in
      let same : stored meaning key r.1 ≡ stored meaning key z = cc in
      same
      ∙ statement-stored key insert_commit (commit_row req) x z table.insert_commit_sparing first

  remembered-keeps :
      (key : Text) (rec : Option (Text × Text)) (id : Text) (seq : Option ℤ) (x y : D) (row : Row)
      → remembered meaning codec rec id seq x ≡ ok y
      → stored meaning key x ≡ ok row
      → stored meaning key y ≡ ok row
  unfolding remembered statement
  remembered-keeps key none id seq x y row h e = cc
  remembered-keeps key (some (k, hash)) id seq x y row h e =
      let ps =
        request_row k hash (or_empty (codec.response_to_string (committed_response id seq))) seq in
      ground (arith, table.insert_keeps key ps x row e)

  remembered-stores :
      (key hash id : Text) (seq : Option ℤ) (x y : D) (e : SqlError)
      → remembered meaning codec (some (key, hash)) id seq x ≡ ok y
      → e.no_rows ≡ true
      → stored meaning key x ≡ err e
      → stored meaning key y
        ≡ ok (hash, some (or_empty (codec.response_to_string (committed_response id seq))))
  unfolding remembered statement
  remembered-stores key hash id seq x y e h missing new =
      let response = or_empty (codec.response_to_string (committed_response id seq)) in
      let ps = request_row key hash response seq in
      elim (Result-cases (meaning.run insert_request ps x).0) [
        | inl (n, p) ↦ ground (arith, table.insert_new key hash response seq x e n missing new p)
        | inr (m, p) ↦ ground arith
      ]

  -- The last two steps of a transaction.
  abbrev closing : Option (Text × Text) → Text → Option ℤ × D → Result (Option ℤ × D) Text
  closing rec id (seq, z) = remembered meaning codec rec id seq z >>= λ u. ok (seq, u)

  abbrev numbering : Bool → WriteRequest → Option (Text × Text) → D → Result (Option ℤ × D) Text
  numbering track req rec y = numbered meaning track req y >>= closing rec req.request_id

  -- What a successful transaction went through.
  transaction-steps :
      (track : Bool) (req : WriteRequest) (rec : Option (Text × Text)) (x : D) (r : Option ℤ × D)
      → transaction meaning codec track req rec x ≡ ok r
      → (y z : D) × (operations meaning codec req.operations x ≡ ok y)
        × (numbered meaning track req y ≡ ok (r.0, z))
        × (remembered meaning codec rec req.request_id r.0 z ≡ ok r.1)
  unfolding transaction
  transaction-steps track req rec x r h =
      let (y, ops, h') =
        >>=-eq-ok (operations meaning codec req.operations x) (numbering track req rec) h in
      let (p, num, h'') =
        >>=-eq-ok (numbered meaning track req y) (closing rec req.request_id) h' in
      let (u, last, end) =
        >>=-eq-ok (remembered meaning codec rec req.request_id p.0 p.1) (λ u. ok (p.0, u)) h'' in
      let whole : ◌≡◌ {A = Option ℤ × D} (p.0, u) r = cc in
      subst
        (λ t.
          (y z : D) × (operations meaning codec req.operations x ≡ ok y)
          × (numbered meaning track req y ≡ ok (t.0, z))
          × (remembered meaning codec rec req.request_id t.0 z ≡ ok t.1))
        whole (y, p.1, ops, num, last)

  -- A row that is there survives any transaction of sparing operations.
  transaction-keeps :
      (key : Text) (track : Bool) (req : WriteRequest) (rec : Option (Text × Text)) (x : D)
      (row : Row) (r : Option ℤ × D)
      → SparingRequest Sparing req
      → transaction meaning codec track req rec x ≡ ok r
      → stored meaning key x ≡ ok row
      → stored meaning key r.1 ≡ ok row
  transaction-keeps key track req rec x row r spares h e =
      let (y, z, ops, num, last) = transaction-steps track req rec x r h in
      remembered-keeps key rec req.request_id r.0 z r.1 row last (
        numbered-stored key track req y (r.0, z) num
        ∙ operations-stored key req.operations x y spares ops
        ∙ e)

  -- A committed request under a new key leaves its own row.
  pub transaction-stores :
      (key hash : Text) (track : Bool) (req : WriteRequest) (x : D) (e : SqlError)
      (r : Option ℤ × D)
      → SparingRequest Sparing req
      → transaction meaning codec track req (some (key, hash)) x ≡ ok r
      → e.no_rows ≡ true
      → stored meaning key x ≡ err e
      → stored meaning key r.1
        ≡ ok (
          hash,
          some (or_empty (codec.response_to_string (committed_response req.request_id r.0))),
        )
  transaction-stores key hash track req x e r spares h missing new =
      let (y, z, ops, num, last) = transaction-steps track req (some (key, hash)) x r h in
      remembered-stores key hash req.request_id r.0 z r.1 e last missing (
        numbered-stored key track req y (r.0, z) num
        ∙ operations-stored key req.operations x y spares ops
        ∙ new)

  -- A row that is there survives any request, whatever it is answered.
  pub promised-keeps :
      (s : Settings) (key : Text) (req : WriteRequest) (x : D) (row : Row)
      → SparingRequest Sparing req
      → stored meaning key x ≡ ok row
      → stored meaning key (promised meaning codec s req x).1 ≡ ok row
  unfolding promised
  promised-keeps s key req x row spares e = resolve-keeps (admission meaning codec s req x)
    where
      outcome-keeps :
          (rec : Option (Text × Text)) (q : Result (Option ℤ × D) Text)
          → transaction meaning codec s.track req rec x ≡ q
          → stored meaning key (outcome req.request_id x q).1 ≡ ok row
      outcome-keeps rec (ok r) h = transaction-keeps key s.track req rec x row r spares h e
      outcome-keeps rec (err m) h = e

      resolve-keeps :
          (a : Admission) → stored meaning key (resolve meaning codec s req x a).1 ≡ ok row
      resolve-keeps (reply response) = e
      resolve-keeps (proceed rec) =
          outcome-keeps rec (transaction meaning codec s.track req rec x) refl
