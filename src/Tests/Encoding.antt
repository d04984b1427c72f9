-- ===== src/Tests/Encoding.antt =====
-- An encoder that reads back what it writes: a response as its tags, its length and its texts.
use squeuelite_rs.Common.{
  ℕ, zero, suc, ◌≡◌, refl, ap, Option, none, some, List, [], ◌∷◌, ◌++◌, length, Text, Result, ok,
  err, codes,
}
use squeuelite_rs.Common.Int.{ℤ, pos, negsuc}
use squeuelite_rs.Request.{SqlOperation, WriteStatus, committed, failed, WriteResponse}
use squeuelite_rs.Codec.{Codec}
use squeuelite_rs.Writer.{or_empty}

abbrev front : ℕ → Text → Text
front zero s = []
front (suc n) [] = []
front (suc n) (c ∷ s) = c ∷ front n s

abbrev behind : ℕ → Text → Text
behind zero s = s
behind (suc n) [] = []
behind (suc n) (c ∷ s) = behind n s

front-append : (s t : Text) → front (length s) (s ++ t) ≡ s
front-append [] t = refl
front-append (c ∷ s) t = ap (λ u. c ∷ u) (front-append s t)

behind-append : (s t : Text) → behind (length s) (s ++ t) ≡ t
behind-append [] t = refl
behind-append (c ∷ s) t = behind-append s t

abbrev status_tag : WriteStatus → ℕ
status_tag committed = 0
status_tag failed = 1

abbrev status_of : ℕ → WriteStatus
status_of zero = committed
status_of (suc n) = failed

abbrev seq_tag : Option ℤ → ℕ
seq_tag none = 0
seq_tag (some (pos n)) = 1
seq_tag (some (negsuc n)) = 2

abbrev seq_part : Option ℤ → ℕ
seq_part none = 0
seq_part (some (pos n)) = n
seq_part (some (negsuc n)) = n

abbrev seq_of : ℕ → ℕ → Option ℤ
seq_of zero n = none
seq_of (suc zero) n = some (pos n)
seq_of (suc (suc m)) n = some (negsuc n)

abbrev error_tag : Option Text → ℕ
error_tag none = 0
error_tag (some e) = 1

abbrev error_part : Option Text → Text
error_part none = []
error_part (some e) = e

abbrev error_of : ℕ → Text → Option Text
error_of zero s = none
error_of (suc n) s = some s

unfoldable encode : WriteResponse → Text
encode r =
    status_tag r.status
    ∷ seq_tag r.commit_seq
    ∷ seq_part r.commit_seq
    ∷ error_tag r.error
    ∷ length r.request_id
    ∷ (r.request_id ++ error_part r.error)

unfoldable decode : Text → Result WriteResponse Text
decode (st ∷ tag ∷ n ∷ etag ∷ len ∷ s) = ok (record {
  request_id = front len s;
  status = status_of st;
  commit_seq = seq_of tag n;
  error = error_of etag (behind len s);
})
decode s = err (codes "unreadable")

status_back : (s : WriteStatus) → status_of (status_tag s) ≡ s
status_back committed = refl
status_back failed = refl

seq_back : (s : Option ℤ) → seq_of (seq_tag s) (seq_part s) ≡ s
seq_back none = refl
seq_back (some (pos n)) = refl
seq_back (some (negsuc n)) = refl

error_back : (e : Option Text) → error_of (error_tag e) (error_part e) ≡ e
error_back none = refl
error_back (some e) = refl

-- The texts of the operations, one after the other.
unfoldable pub joined : List SqlOperation → Text
joined [] = []
joined (op ∷ ops) = op.sql ++ (b';' ∷ joined ops)

unfoldable pub codec : Codec
unfolding encode decode joined
codec = record {
  base64_decode = λ s. ok s;
  json_to_string = λ v. ok (codes "json");
  operations_to_string = λ ops. ok (joined ops);
  response_to_string = λ r. ok (encode r);
  response_from_str = decode;
}

pub reads_back :
    (r : WriteResponse) → codec.response_from_str (or_empty (codec.response_to_string r)) ≡ ok r
unfolding codec encode decode
reads_back r = rw (
  front-append r.request_id (error_part r.error),
  behind-append r.request_id (error_part r.error),
  status_back r.status,
  seq_back r.commit_seq,
  error_back r.error,
)
