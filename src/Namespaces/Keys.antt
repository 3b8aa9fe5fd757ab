-- ===== src/Namespaces/Keys.antt =====
-- Keys of the store, and the namespaces that they come from.
use raft_kv.Base.{
  ℕ, ◌≡◌, refl, true, false, none, some, List, [], ◌∷◌, ◌++◌, Bytes, arith, inl, inr, Option-cases,
  ◌==◌, update, Bool-cases,
}
use raft_kv.Namespaces.{
  Namespaces, default_ns, sep, valid_byte, valid_bytes, is_valid_name, set_ns, get_ns, make_key,
  remove,
}

-- Two names without a separator, each before one: the names are the same, and so is the rest.
split_at_sep :
    (xs ys ks ls : Bytes)
    → valid_bytes xs ≡ true
    → valid_bytes ys ≡ true
    → xs ++ (sep ∷ ks) ≡ ys ++ (sep ∷ ls)
    → (xs ≡ ys) × (ks ≡ ls)
unfolding valid_bytes valid_byte
split_at_sep [] [] ks ls h k e = (refl, cc)
split_at_sep [] (y ∷ ys) ks ls h k e = let same : sep ≡ y = cc in absurd (grind arith)
split_at_sep (x ∷ xs) [] ks ls h k e = let same : x ≡ sep = cc in absurd (grind arith)
split_at_sep (x ∷ xs) (y ∷ ys) ks ls h k e =
    let same : x ≡ y = cc in
    let rest : xs ++ (sep ∷ ks) ≡ ys ++ (sep ∷ ls) = cc in
    let (names, keys) = split_at_sep xs ys ks ls (grind arith) (grind arith) rest in (cc, keys)

-- A call of NamespaceManager; the server sets a name only after it has tested it.
pub data NsCall : Type 0 where
  selected : ℕ → Bytes → NsCall
  closed : ℕ → NsCall

abbrev pub ns_step : NsCall → Namespaces → Namespaces
ns_step (selected conn name) m = elim (is_valid_name name) [ true ↦ set_ns conn name m | false ↦ m ]
ns_step (closed conn) m = remove conn m

abbrev pub ns_run : List NsCall → Namespaces → Namespaces
ns_run [] m = m
ns_run (c ∷ cs) m = ns_run cs (ns_step c m)

abbrev pub new_namespaces : Namespaces
new_namespaces = record { ns = λ c. none }

-- Every name in use is made of valid bytes.
abbrev IsClean : Namespaces → Type 0
IsClean m = (c : ℕ) (name : Bytes) → m.ns c ≡ some name → valid_bytes name ≡ true

valid_name-bytes : (name : Bytes) → is_valid_name name ≡ true → valid_bytes name ≡ true
unfolding is_valid_name
valid_name-bytes name h = ground arith

ns_step-IsClean : (c : NsCall) (m : Namespaces) → IsClean m → IsClean (ns_step c m)
unfolding set_ns remove
ns_step-IsClean (selected conn name) m h d given e = elim (Bool-cases (is_valid_name name)) [
  | inr bad ↦ h d given (rw (bad, ns_step) at e)
  | inl good ↦
      let fine = valid_name-bytes name good in
      let now : update m.ns conn (some name) d ≡ some given = rw (good, ns_step) at e in
      elim (Bool-cases (conn == d)) [
        | inr other ↦ h d given (rw other at now)
        | inl same ↦
            let set : some name ≡ some given = rw same at now in
            let equal : name ≡ given = cc in rw equal at fine
      ]
]
ns_step-IsClean (closed conn) m h d given e = elim (Bool-cases (conn == d)) [
  | inr other ↦ h d given (rw other at e)
  | inl same ↦ let gone : none ≡ some given = rw same at e in cc
]

ns_run-IsClean : (cs : List NsCall) (m : Namespaces) → IsClean m → IsClean (ns_run cs m)
ns_run-IsClean [] m h = h
ns_run-IsClean (c ∷ cs) m h = ns_run-IsClean cs (ns_step c m) (ns_step-IsClean c m h)

default-valid : valid_bytes default_ns ≡ true
unfolding valid_bytes valid_byte
default-valid = refl

get_ns-valid : (c : ℕ) (m : Namespaces) → IsClean m → valid_bytes (get_ns c m) ≡ true
unfolding get_ns
get_ns-valid c m h = elim (Option-cases (m.ns c)) [
  | inl e ↦ rw (e, get_ns) default-valid
  | inr (name, e) ↦ rw (e, get_ns) (h c name e)
]

-- Keys of different namespaces never meet: whatever names connections have selected, two keys of
-- the store that are equal come from the same namespace and the same raw key.
pub make_key-injective :
    (cs : List NsCall) (c d : ℕ) (k l : Bytes)
    → make_key c k (ns_run cs new_namespaces) ≡ make_key d l (ns_run cs new_namespaces)
    → (get_ns c (ns_run cs new_namespaces) ≡ get_ns d (ns_run cs new_namespaces)) × (k ≡ l)
unfolding make_key
make_key-injective cs c d k l e =
    let m = ns_run cs new_namespaces in
    let clean = ns_run-IsClean cs new_namespaces (λ c name none_set. cc) in
    split_at_sep (get_ns c m) (get_ns d m) k l (get_ns-valid c m clean) (get_ns-valid d m clean) e
