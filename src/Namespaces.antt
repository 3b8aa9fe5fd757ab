-- ===== src/Namespaces.antt =====
-- src/namespace/namespace_manager.{h,cc}: the namespace of each client connection, and the keys of
-- the store. Connections are known by number.
pub mod Keys
pub mod Examples
use raft_kv.Base.{
  ℕ, Bool, true, false, not, ◌&&◌, ◌||◌, Option, none, some, List, [], ◌∷◌, ◌++◌, Bytes, ltb, leb,
  ◌==◌, length, update,
}

-- `_ns`.
pub record Namespaces : Type 0 where
  pub ns : ℕ → Option Bytes

-- "default".
abbrev pub default_ns : Bytes
default_ns = 100 ∷ 101 ∷ 102 ∷ 97 ∷ 117 ∷ 108 ∷ 116 ∷ []

-- ':'.
abbrev pub sep : ℕ
sep = 58

-- A letter, a digit, '_' or '-'.
unfoldable pub valid_byte : ℕ → Bool
valid_byte c =
    (leb 97 c && leb c 122)
    || (leb 65 c && leb c 90)
    || (leb 48 c && leb c 57)
    || c == 95
    || c == 45

unfoldable pub valid_bytes : Bytes → Bool
valid_bytes [] = true
valid_bytes (c ∷ cs) = valid_byte c && valid_bytes cs

unfoldable pub is_valid_name : Bytes → Bool
is_valid_name name = not (length name == 0) && leb (length name) 63 && valid_bytes name

unfoldable pub set_ns : ℕ → Bytes → Namespaces → Namespaces
set_ns conn name m = record { ns = update m.ns conn (some name) }

unfoldable pub get_ns : ℕ → Namespaces → Bytes
get_ns conn m = elim (m.ns conn) [ none ↦ default_ns | some name ↦ name ]

unfoldable pub make_key : ℕ → Bytes → Namespaces → Bytes
make_key conn raw_key m = get_ns conn m ++ (sep ∷ raw_key)

unfoldable pub remove : ℕ → Namespaces → Namespaces
remove conn m = record { ns = update m.ns conn none }
