-- ===== src/Binary/Print.antt =====
-- Options written as a command line, and read back (src/bin/squeuelite-gateway.rs).
use squeuelite_rs.Common.{
  ℕ, ◌<◌, ◌≡◌, ◌≢◌, ap, refl, ◌∙◌, ◌^◌, Option, some, none, List, [], ◌∷◌, Text, codes, ok, ◌>>=◌,
  arith, length, drop, ◌⊎◌,
}
use squeuelite_rs.Binary.{
  Flags, Args, no_flags, parse_args, finish_args, finish_loop, check_transport, store, takes_value,
}
use squeuelite_rs.Binary.Octal.{octal, from_octal-octal}
use squeuelite_rs.Binary.Scan.{pairs, store_all, parse_loop-pairs}

abbrev pub given : Text → Option Text → List Text → List Text
given name none rest = rest
given name (some value) rest = name ∷ value ∷ rest

abbrev pub given_mode : Option ℕ → List Text → List Text
unfolding octal
given_mode none rest = rest
given_mode (some mode) rest = codes "--socket-mode" ∷ octal mode ∷ rest

-- A command line for the options.
unfoldable pub command_line : Args → List Text
unfolding octal
command_line a =
    codes "squeuelite-gateway"
    ∷ codes "--db"
    ∷ a.db_path
    ∷ given (codes "--socket") a.socket_path (
        given_mode a.socket_mode
          (given (codes "--http") a.http_addr (given (codes "--http-token") a.http_token [])))

-- A mode that fits a u32.
abbrev pub Fits : Option ℕ → Type 0
Fits none = Unit
Fits (some mode) = mode < 2 ^ 32

store_socket :
    (o : Option Text) (rest : List Text) (db : Text)
    → store_all (pairs (given (codes "--socket") o rest)) (record no_flags { db = some db })
      ≡ store_all (pairs rest) (record no_flags { db = some db; socket = o })
unfolding store_all pairs store takes_value
store_socket none rest db = refl
store_socket (some value) rest db = refl

store_mode :
    (o : Option ℕ) (rest : List Text) (db : Text) (socket : Option Text)
    → Fits o
    → store_all (pairs (given_mode o rest)) (record no_flags { db = some db; socket = socket })
      ≡ store_all (pairs rest) (record no_flags { db = some db; socket = socket; socket_mode = o })
unfolding store_all pairs store takes_value given_mode
store_mode none rest db socket fits = refl
store_mode (some mode) rest db socket fits = rw (from_octal-octal mode fits) refl

store_http :
    (o : Option Text) (rest : List Text) (db : Text) (socket : Option Text) (mode : Option ℕ)
    → store_all
        (pairs (given (codes "--http") o rest))
        (record no_flags { db = some db; socket = socket; socket_mode = mode })
      ≡ store_all
          (pairs rest)
          (record no_flags { db = some db; socket = socket; socket_mode = mode; http_addr = o })
unfolding store_all pairs store takes_value
store_http none rest db socket mode = refl
store_http (some value) rest db socket mode = refl

-- The flags of the options.
abbrev flags_of : Args → Flags
flags_of a = record {
  db = some a.db_path;
  socket = a.socket_path;
  socket_mode = a.socket_mode;
  http_addr = a.http_addr;
  http_token_flag = a.http_token;
}

store_token :
    (o : Option Text) (db : Text) (socket : Option Text) (mode : Option ℕ) (http : Option Text)
    → store_all
        (pairs (given (codes "--http-token") o []))
        (record no_flags { db = some db; socket = socket; socket_mode = mode; http_addr = http })
      ≡ ok (record {
        db = some db;
        socket = socket;
        socket_mode = mode;
        http_addr = http;
        http_token_flag = o;
      })
unfolding store_all pairs store takes_value
store_token none db socket mode http = refl
store_token (some value) db socket mode http = refl

store_all-command_line :
    (a : Args)
    → Fits a.socket_mode
    → store_all (pairs (drop 1 (command_line a))) no_flags ≡ ok (flags_of a)
unfolding command_line store_all pairs store takes_value
store_all-command_line a fits =
    let token = given (codes "--http-token") a.http_token [] in
    let http = given (codes "--http") a.http_addr token in
    store_socket a.socket_path (given_mode a.socket_mode http) a.db_path
    ∙ store_mode a.socket_mode http a.db_path a.socket_path fits
    ∙ store_http a.http_addr token a.db_path a.socket_path a.socket_mode
    ∙ store_token a.http_token a.db_path a.socket_path a.socket_mode a.http_addr

check_transport-fields :
    (db : Text) (socket : Option Text) (mode : Option ℕ) (http token : Option Text)
    → (socket ≢ none) ⊎ (http ≢ none)
    → check_transport db none (record {
      db = some db;
      socket = socket;
      socket_mode = mode;
      http_addr = http;
      http_token_flag = token;
    })
      ≡ ok (record {
        db_path = db;
        socket_path = socket;
        socket_mode = mode;
        http_addr = http;
        http_token = token;
      })
check_transport-fields db (some socket) mode http token reachable = refl
check_transport-fields db none mode (some addr) token reachable = refl
check_transport-fields db none mode none token reachable = ground arith

-- Options that have `--socket` or `--http` and a mode below 2 ^ 32 are read back from their command
-- line, where the environment has no token.
pub parse_args-command_line :
    (a : Args)
    → (a.socket_path ≢ none) ⊎ (a.http_addr ≢ none)
    → Fits a.socket_mode
    → parse_args (command_line a) none ≡ some (ok a)
unfolding parse_args finish_args
parse_args-command_line a reachable fits =
    ap (finish_loop none)
      (parse_loop-pairs (length (command_line a)) (command_line a) 1 no_flags (omega arith))
    ∙ ap some (
        ap (λ r. r >>= finish_args none) (store_all-command_line a fits)
        ∙ check_transport-fields a.db_path a.socket_path a.socket_mode a.http_addr a.http_token
            reachable)
