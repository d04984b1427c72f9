-- ===== src/Binary.antt =====
-- The command line of the gateway binary (src/bin/squeuelite-gateway.rs, `parse_args`). What is
-- printed is left out.
pub mod Octal
pub mod Scan
pub mod Options
pub mod Print
pub mod Mode
pub mod Main
pub mod Shared
pub mod Banner
use squeuelite_rs.Common.{
  ℕ, zero, suc, ◌+◌, ◌-◌, ◌*◌, ◌^◌, Bool, true, false, ◌&&◌, Option, none, some, List, [], ◌∷◌,
  Text, codes, text_eq, one_of, Result, ok, err, ◌>>=◌, length, get_elem?, leb, ltb, ◌==◌,
  if◌then◌else◌,
}

pub record Args : Type 0 where
  pub db_path : Text
  pub socket_path : Option Text
  pub socket_mode : Option ℕ
  pub http_addr : Option Text
  pub http_token : Option Text

-- The variables of the loop.
pub record Flags : Type 0 where
  pub db : Option Text
  pub socket : Option Text
  pub socket_mode : Option ℕ
  pub http_addr : Option Text
  pub http_token_flag : Option Text

-- Why the process ends with exit code 2 before it starts anything.
pub data Refused : Type 0 where
  invalid_socket_mode : Text → Refused
  db_required transport_required : Refused

abbrev pub no_flags : Flags
no_flags = record {
  db = none;
  socket = none;
  socket_mode = none;
  http_addr = none;
  http_token_flag = none;
}

abbrev pub is_octal : ℕ → Bool
is_octal c = leb b'0' c && leb c b'7'

-- The digits after the value `n` of those before them, as long as the value fits a u32.
unfoldable pub octal_digits : ℕ → Text → Option ℕ
octal_digits n [] = some n
octal_digits n (c ∷ s) =
    let rest = octal_digits (n * 8 + (c - b'0')) s in
    if is_octal c && ltb (n * 8 + (c - b'0')) (2 ^ 32) then rest else none

abbrev pub unsigned : Text → Option ℕ
unfolding octal_digits
unsigned [] = none
unsigned (c ∷ s) = octal_digits 0 (c ∷ s)

-- `u32::from_str_radix(s, 8)`
unfoldable pub from_octal : Text → Option ℕ
unfolding octal_digits
from_octal [] = none
from_octal (c ∷ s) = if c == b'+' then unsigned s else unsigned (c ∷ s)

abbrev pub with_mode : Text → Flags → Option ℕ → Result Flags Refused
with_mode value flags none = err (invalid_socket_mode value)
with_mode value flags (some mode) = ok (record flags { socket_mode = some mode })

-- A flag with the argument after it.
unfoldable pub store : Text → Text → Flags → Result Flags Refused
unfolding text_eq from_octal
store name value flags =
    if text_eq name (codes "--db")
    then ok (record flags { db = some value })
    else if text_eq name (codes "--socket")
    then ok (record flags { socket = some value })
    else if text_eq name (codes "--socket-mode")
    then with_mode value flags (from_octal value)
    else if text_eq name (codes "--http")
    then ok (record flags { http_addr = some value })
    else if text_eq name (codes "--http-token")
    then ok (record flags { http_token_flag = some value })
    else ok flags

-- The names that move the index to the next argument.
unfoldable pub takes_value : Text → Bool
unfolding one_of
takes_value name = one_of name (
    codes "--db"
    ∷ codes "--socket"
    ∷ codes "--socket-mode"
    ∷ codes "--http"
    ∷ codes "--http-token"
    ∷ [])

abbrev pub store_next : Text → Option Text → Flags → Result Flags Refused
unfolding store
store_next name none flags = ok flags
store_next name (some value) flags = store name value flags

-- The body of the loop at index `i`: the flags and the next index.
unfoldable pub parse_arg : List Text → ℕ → Text → Flags → Result (ℕ × Flags) Refused
unfolding takes_value store
parse_arg args i name flags =
    if takes_value name
    then (store_next name (get_elem? args (i + 1)) flags >>= λ flags'. ok (i + 2, flags'))
    else ok (i + 1, flags)

-- The loop from index `i`; `none` where the fuel does not suffice.
unfoldable pub parse_loop : ℕ → List Text → ℕ → Flags → Option (Result Flags Refused)
unfolding parse_arg
parse_loop zero args i flags = none
parse_loop (suc fuel) args i flags = elim (get_elem? args i) [
  | none ↦ some (ok flags)
  | some name ↦ elim (parse_arg args i name flags) [
    | err refused ↦ some (err refused)
    | ok next ↦ parse_loop fuel args next.0 next.1
  ]
]

abbrev pub unless_blank : Option Text → Option Text
unless_blank none = none
unless_blank (some []) = none
unless_blank (some (c ∷ s)) = some (c ∷ s)

abbrev pub or_flag : Option Text → Option Text → Option Text
or_flag none flag = flag
or_flag (some token) flag = some token

abbrev pub with_transport : Text → Option Text → Flags → Result Args Refused
with_transport db_path token flags = ok (record {
  db_path = db_path;
  socket_path = flags.socket;
  socket_mode = flags.socket_mode;
  http_addr = flags.http_addr;
  http_token = or_flag (unless_blank token) flags.http_token_flag;
})

-- The check for `--socket` or `--http`.
abbrev pub check_transport : Text → Option Text → Flags → Result Args Refused
check_transport db_path token flags = elim flags.socket [
  | some socket ↦ with_transport db_path token flags
  | none ↦ elim flags.http_addr [
    | some addr ↦ with_transport db_path token flags
    | none ↦ err transport_required
  ]
]

abbrev pub check_db : Option Text → Option Text → Flags → Result Args Refused
check_db none token flags = err db_required
check_db (some db_path) token flags = check_transport db_path token flags

-- After the loop; `token` is the environment's `SQUEUELITE_HTTP_TOKEN`.
unfoldable pub finish_args : Option Text → Flags → Result Args Refused
finish_args token flags = check_db flags.db token flags

abbrev pub finish_loop : Option Text → Option (Result Flags Refused) → Option (Result Args Refused)
unfolding finish_args
finish_loop token none = none
finish_loop token (some result) = some (result >>= finish_args token)

-- `args` starts with the program's name.
unfoldable pub parse_args : List Text → Option Text → Option (Result Args Refused)
unfolding parse_loop finish_args
parse_args args token = finish_loop token (parse_loop (suc (length args)) args 1 no_flags)
