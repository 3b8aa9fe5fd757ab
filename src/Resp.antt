-- ===== src/Resp.antt =====
-- src/common/resp_parser.h: the decoder of client commands; and from src/server/main.cpp the
-- printing of commands for the log (Bulk, SerializeCommand).
pub mod Numbers
pub mod Bulks
pub mod Commands
use raft_kv.Base.{
  ℕ, zero, suc, ◌+◌, ◌-◌, ◌*◌, ◌^◌, Bool, true, false, not, ◌&&◌, ◌||◌, Option, none, some, List,
  [], ◌∷◌, ◌++◌, Bytes, codes, ltb, ◌==◌, if◌then◌else◌, length, get_elem?, take, drop, uint64_max,
}
use raft_kv.Decimal.{to_string, value}
use raft_kv.Commands.{is_digit}

abbrev pub max_command_bytes : ℕ
max_command_bytes = 1024 * 1024

abbrev pub max_arguments : ℕ
max_arguments = 1024

-- `raw.find("\r\n", pos)`, from `pos`.
unfoldable pub find_crlf : Bytes → Option ℕ
find_crlf [] = none
find_crlf (c ∷ []) = none
find_crlf (c ∷ d ∷ cs) =
    let later = find_crlf (d ∷ cs) in
    if c == b'\r' && d == b'\n' then some 0 else elim later [ none ↦ none | some i ↦ some (suc i) ]

unfoldable pub all_digits : Bytes → Bool
all_digits [] = true
all_digits (c ∷ cs) = is_digit c && all_digits cs

-- What the lambda `number` finds: the value, and how far `pos` moves.
pub data Number : Type 0 where
  number_more number_invalid : Number
  number_got : ℕ → ℕ → Number

-- `number`, behind the prefix, where the line ends at `end`.
unfoldable pub line_number : ℕ → Bytes → ℕ → Number
line_number limit behind end =
    let ds = take (end - 1) behind in
    if length ds == 0 || ltb 20 (length ds) || not (all_digits ds)
    then number_invalid
    else if ltb uint64_max (value 0 ds) || ltb limit (value 0 ds)
    then number_invalid
    else number_got (value 0 ds) (end + 2)

-- `number`, on the bytes from `pos` on.
unfoldable pub number : ℕ → ℕ → Bytes → Number
number prefix limit [] = number_more
number prefix limit (c ∷ cs) =
    let long : Number = if ltb 22 (length (c ∷ cs)) then number_invalid else number_more in
    let found : Number = elim (find_crlf (c ∷ cs)) [
      | none ↦ long
      | some end ↦ line_number limit cs end
    ] in
    if not (c == prefix) then number_invalid else found

-- `Result`: the state with what is set then.
pub data Parsed : Type 0 where
  need_more : Parsed
  complete : List Bytes → ℕ → Parsed
  invalid : Bytes → Parsed

pub data Bulk : Type 0 where
  bulk_more : Bulk
  bulk_got : Bytes → ℕ → Bulk
  bulk_invalid : Bytes → Bulk

abbrev pub is_at : Bytes → ℕ → ℕ → Bool
is_at bytes i c = elim (get_elem? bytes i) [ none ↦ false | some b ↦ b == c ]

-- A round of the loop behind the length: `body` are the bytes from `at` on.
unfoldable pub read_body : ℕ → Bytes → ℕ → ℕ → Bulk
read_body at body size used =
    if ltb (max_command_bytes - 2) at || ltb (max_command_bytes - at - 2) size
    then bulk_invalid (codes "command too large")
    else if ltb (length body) (size + 2)
    then bulk_more
    else if not (is_at body size b'\r' && is_at body (size + 1) b'\n')
    then bulk_invalid (codes "invalid bulk terminator")
    else bulk_got (take size body) (used + size + 2)

-- A round of the loop, on the bytes from `pos` on.
unfoldable pub read_bulk : ℕ → Bytes → Bulk
read_bulk pos bytes = elim (number b'$' max_command_bytes bytes) [
  | number_more ↦ bulk_more
  | number_invalid ↦ bulk_invalid (codes "invalid bulk length")
  | number_got size used ↦ read_body (pos + used) (drop used bytes) size used
]

abbrev pub prepend : Bytes → Parsed → Parsed
prepend a need_more = need_more
prepend a (complete args consumed) = complete (a ∷ args) consumed
prepend a (invalid message) = invalid message

-- The loop, for the arguments that are left.
unfoldable pub parse_bulks : ℕ → ℕ → Bytes → Parsed
parse_bulks zero pos bytes = complete [] pos
parse_bulks (suc count) pos bytes = elim (read_bulk pos bytes) [
  | bulk_more ↦ need_more
  | bulk_invalid message ↦ invalid message
  | bulk_got a used ↦ prepend a (parse_bulks count (pos + used) (drop used bytes))
]

unfoldable pub try_parse_one : Bytes → Parsed
try_parse_one raw = elim (number b'*' max_arguments raw) [
  | number_more ↦ need_more
  | number_invalid ↦ invalid (codes "invalid array length")
  | number_got count used ↦
      if count == 0 then invalid (codes "empty command") else parse_bulks count used (drop used raw)
]

abbrev pub crlf : Bytes
crlf = codes "\r\n"

unfoldable pub bulk : Bytes → Bytes
bulk value = codes "$" ++ to_string (length value) ++ crlf ++ value ++ crlf

unfoldable pub bulks : List Bytes → Bytes
bulks [] = []
bulks (a ∷ args) = bulk a ++ bulks args

unfoldable pub serialize_command : List Bytes → Bytes
serialize_command args = codes "*" ++ to_string (length args) ++ crlf ++ bulks args
