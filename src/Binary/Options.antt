-- ===== src/Binary/Options.antt =====
-- What a command line says, read off its pairs of name and value
-- (src/bin/squeuelite-gateway.rs, `parse_args`).
use squeuelite_rs.Common.{
  ℕ, ◌≡◌, ap, sym, subst, refl, ◌∙◌, true, false, Option, some, none, List, [], ◌∷◌, Text, codes,
  text_eq, text_eq→eq, Result, ok, err, ◌>>=◌, arith, if◌then◌else◌, length, drop, Bool-cases,
  Option-cases, inl, inr,
}
use squeuelite_rs.Binary.{
  Flags, Args, Refused, invalid_socket_mode, db_required, transport_required, no_flags, store,
  from_octal, finish_args, parse_args, unless_blank, or_flag, check_db, finish_loop,
}
use squeuelite_rs.Binary.Scan.{pairs, store_all, parse_loop-pairs}

-- The last value of a name, or what it was before.
unfoldable pub last_value : Text → List (Text × Text) → Option Text → Option Text
unfolding text_eq
last_value name [] before = before
last_value name ((n, v) ∷ ps) before =
    last_value name ps (if text_eq n name then some v else before)

-- The first `--socket-mode` that is no octal u32.
unfoldable pub bad_mode : List (Text × Text) → Option Text
unfolding text_eq from_octal
bad_mode [] = none
bad_mode ((n, v) ∷ ps) =
    let later = bad_mode ps in
    if text_eq n (codes "--socket-mode")
    then elim (from_octal v) [ none ↦ some v | some m ↦ later ]
    else later

unfoldable pub last_mode : List (Text × Text) → Option ℕ → Option ℕ
unfolding text_eq from_octal
last_mode [] before = before
last_mode ((n, v) ∷ ps) before =
    last_mode ps (if text_eq n (codes "--socket-mode") then from_octal v else before)

-- The flags after a list of pairs.
abbrev latest : List (Text × Text) → Flags → Flags
unfolding last_value last_mode
latest ps flags = record {
  db = last_value (codes "--db") ps flags.db;
  socket = last_value (codes "--socket") ps flags.socket;
  socket_mode = last_mode ps flags.socket_mode;
  http_addr = last_value (codes "--http") ps flags.http_addr;
  http_token_flag = last_value (codes "--http-token") ps flags.http_token_flag;
}

abbrev stored : Option Text → Flags → Result Flags Refused
stored none flags = ok flags
stored (some v) flags = err (invalid_socket_mode v)

-- What is stored of the pairs is what they say.
abbrev Latest : List (Text × Text) → Flags → Type 0
unfolding store_all bad_mode last_value last_mode
Latest ps flags = store_all ps flags ≡ stored (bad_mode ps) (latest ps flags)

-- A name that passes the test for another is that one.
known :
    (n name v : Text) (ps : List (Text × Text)) (flags : Flags)
    → text_eq n name ≡ true
    → Latest ((name, v) ∷ ps) flags
    → Latest ((n, v) ∷ ps) flags
known n name v ps flags same holds =
    subst (λ m. Latest ((m, v) ∷ ps) flags) (sym (text_eq→eq n name same)) holds

latest-mode :
    (v : Text) (ps : List (Text × Text)) (flags : Flags)
    → ((flags' : Flags) → Latest ps flags')
    → Latest ((codes "--socket-mode", v) ∷ ps) flags
unfolding store_all bad_mode last_value last_mode store
latest-mode v ps flags later = elim (Option-cases (from_octal v)) [
  | inl e ↦ rw e refl
  | inr (mode, e) ↦ rw e (later (record flags { socket_mode = some mode }))
]

latest-other :
    (n v : Text) (ps : List (Text × Text)) (flags : Flags)
    → text_eq n (codes "--db") ≡ false
    → text_eq n (codes "--socket") ≡ false
    → text_eq n (codes "--socket-mode") ≡ false
    → ((flags' : Flags) → Latest ps flags')
    → Latest ((n, v) ∷ ps) flags
unfolding store_all bad_mode last_value last_mode store
latest-other n v ps flags no_db no_socket no_mode later =
    elim (Bool-cases (text_eq n (codes "--http"))) [
      | inl e ↦ known n (codes "--http") v ps flags e (later (record flags { http_addr = some v }))
      | inr no_http ↦ elim (Bool-cases (text_eq n (codes "--http-token"))) [
        | inl e ↦
            known n (codes "--http-token") v ps flags e
              (later (record flags { http_token_flag = some v }))
        | inr no_token ↦ rw (no_db, no_socket, no_mode, no_http, no_token) (later flags)
      ]
    ]

store_all-latest : (ps : List (Text × Text)) (flags : Flags) → Latest ps flags
unfolding store_all bad_mode last_value last_mode store
store_all-latest [] flags = refl
store_all-latest ((n, v) ∷ ps) flags = elim (Bool-cases (text_eq n (codes "--db"))) [
  | inl e ↦ known n (codes "--db") v ps flags e (store_all-latest ps (record flags { db = some v }))
  | inr no_db ↦ elim (Bool-cases (text_eq n (codes "--socket"))) [
    | inl e ↦
        known n (codes "--socket") v ps flags e
          (store_all-latest ps (record flags { socket = some v }))
    | inr no_socket ↦ elim (Bool-cases (text_eq n (codes "--socket-mode"))) [
      | inl e ↦
          known n (codes "--socket-mode") v ps flags e
            (latest-mode v ps flags (λ flags'. store_all-latest ps flags'))
      | inr no_mode ↦
          latest-other n v ps flags no_db no_socket no_mode (λ flags'. store_all-latest ps flags')
    ]
  ]
]

-- The options of five values, where the two that are required are there.
abbrev pub options :
    Option Text → Option Text → Option Text → Option ℕ → Option Text → Result Args Refused
options none socket http_addr mode http_token = err db_required
options (some db_path) none none mode http_token = err transport_required
options (some db_path) none (some addr) mode http_token = ok (record {
  db_path = db_path;
  socket_path = none;
  socket_mode = mode;
  http_addr = some addr;
  http_token = http_token;
})
options (some db_path) (some socket) http_addr mode http_token = ok (record {
  db_path = db_path;
  socket_path = some socket;
  socket_mode = mode;
  http_addr = http_addr;
  http_token = http_token;
})

-- The options that the pairs give, with the environment's token before the flag's.
unfoldable pub described : List (Text × Text) → Option Text → Result Args Refused
unfolding bad_mode last_value last_mode
described ps token = elim (bad_mode ps) [
  | some v ↦ err (invalid_socket_mode v)
  | none ↦
      options (last_value (codes "--db") ps none) (last_value (codes "--socket") ps none)
        (last_value (codes "--http") ps none) (last_mode ps none)
        (or_flag (unless_blank token) (last_value (codes "--http-token") ps none))
]

-- The checks after the loop.
check_db-options :
    (db socket http_addr : Option Text) (mode : Option ℕ) (flag token : Option Text)
    → check_db db token (record {
      db = db;
      socket = socket;
      socket_mode = mode;
      http_addr = http_addr;
      http_token_flag = flag;
    })
      ≡ options db socket http_addr mode (or_flag (unless_blank token) flag)
check_db-options none socket http_addr mode flag token = refl
check_db-options (some db) none none mode flag token = refl
check_db-options (some db) none (some addr) mode flag token = refl
check_db-options (some db) (some socket) http_addr mode flag token = refl

finish_args-stored :
    (ps : List (Text × Text)) (token : Option Text)
    → (stored (bad_mode ps) (latest ps no_flags) >>= finish_args token) ≡ described ps token
unfolding described finish_args
finish_args-stored ps token = elim (Option-cases (bad_mode ps)) [
  | inr (v, e) ↦ rw (e, described) refl
  | inl e ↦
      rw (e, described)
        (check_db-options (last_value (codes "--db") ps none)
          (last_value (codes "--socket") ps none) (last_value (codes "--http") ps none)
          (last_mode ps none) (last_value (codes "--http-token") ps none) token)
]

-- For every command line the loop of `parse_args` ends within its fuel, and the outcome is what the
-- pairs of a known flag and its value say: the exit for the first mode that is no octal number,
-- for no `--db`, or for neither `--socket` nor `--http`; or else the options, each the last that
-- was given, with the environment's token first unless it is empty.
pub parse_args-described :
    (args : List Text) (token : Option Text)
    → parse_args args token ≡ some (described (pairs (drop 1 args)) token)
unfolding parse_args Latest
parse_args-described args token =
    let ended = parse_loop-pairs (length args) args 1 no_flags (omega arith) in
    let ps = pairs (drop 1 args) in
    ap (finish_loop token) ended
    ∙ ap some (
        ap (λ r. r >>= finish_args token) (store_all-latest ps no_flags)
        ∙ finish_args-stored ps token)
