-- ===== src/Namespaces/Examples.antt =====
-- Two connections that have selected one namespace.
use raft_kv.Base.{◌≡◌, refl, List, [], ◌∷◌, Bytes}
use raft_kv.Namespaces.{make_key, get_ns, set_ns, is_valid_name, valid_bytes, valid_byte}
use raft_kv.Namespaces.Keys.{NsCall, selected, ns_run, new_namespaces, make_key-injective}

abbrev calls : List NsCall
calls = selected 4 (97 ∷ 98 ∷ []) ∷ selected 5 (97 ∷ 98 ∷ []) ∷ []

make_key-injective_example :
    (get_ns 4 (ns_run calls new_namespaces) ≡ get_ns 5 (ns_run calls new_namespaces))
    × (◌≡◌ {A = Bytes} (7 ∷ []) (7 ∷ []))
unfolding make_key get_ns set_ns is_valid_name valid_bytes valid_byte
make_key-injective_example = make_key-injective calls 4 5 (7 ∷ []) (7 ∷ []) refl
