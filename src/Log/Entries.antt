-- ===== src/Log/Entries.antt =====
-- Lists of entries and their indices.
use raft_kv.Base.{
  ℕ, zero, suc, ◌+◌, ◌-◌, ◌≤◌, ◌<◌, ◌≡◌, refl, true, ◌||◌, Option, none, List, [], ◌∷◌, ◌++◌, arith,
  ltb, leb, if◌then◌else◌, length, get_elem?, take, drop, length-append, length-take, length-drop,
  get_elem?-append_left, get_elem?-take, get_elem?-drop,
}
use raft_kv.Log.{Log, Entry, get, consecutive}

-- Indices that follow one another from `base` on, and positive terms.
abbrev pub Chained : ℕ → List Entry → Type 0
Chained base [] = Unit
Chained base (e ∷ es) = (e.index ≡ suc base) × (0 < e.term) × Chained (suc base) es

-- The entry of an index, in a list that starts after `base`.
unfoldable pub entry_at : ℕ → List Entry → ℕ → Option Entry
entry_at base es i =
    if leb i base || ltb (base + length es) i then none else get_elem? es (i - base - 1)

pub get-entry_at : (l : Log) (i : ℕ) → get l i ≡ entry_at l.snapshot.index l.entries i
unfolding get entry_at
get-entry_at l i = refl

pub Chained-append :
    (base : ℕ) (es fs : List Entry)
    → Chained base es
    → Chained (base + length es) fs
    → Chained base (es ++ fs)
Chained-append base [] fs h k = let e : base + 0 ≡ base = omega arith in rw e at k
Chained-append base (e ∷ es) fs h k =
    let moved : base + suc (length es) ≡ suc base + length es = omega arith in
    (h.0, h.1, Chained-append (suc base) es fs h.2 (rw moved at k))

pub consecutive-Chained :
    (base : ℕ) (es : List Entry) → consecutive base es ≡ true → Chained base es
unfolding consecutive
consecutive-Chained base [] h = tt
consecutive-Chained base (e ∷ es) h =
    let index : e.index ≡ suc base = ground arith in
    (index, ground arith, rw index at (consecutive-Chained e.index es (ground arith)))

pub Chained-take : (k base : ℕ) (es : List Entry) → Chained base es → Chained base (take k es)
Chained-take zero base es h = tt
Chained-take (suc k) base [] h = tt
Chained-take (suc k) base (e ∷ es) h = (h.0, h.1, Chained-take k (suc base) es h.2)

pub Chained-drop :
    (k base : ℕ) (es : List Entry)
    → k ≤ length es
    → Chained base es
    → Chained (base + k) (drop k es)
Chained-drop zero base es le h = let e : base ≡ base + 0 = omega arith in rw e at h
Chained-drop (suc k) base [] le h = absurd (omega arith)
Chained-drop (suc k) base (e ∷ es) le h =
    let moved : suc base + k ≡ base + suc k = omega arith in
    rw moved at (Chained-drop k (suc base) es (omega arith) h.2)

pub entry_at-append :
    (base : ℕ) (es fs : List Entry) (i : ℕ)
    → i ≤ base + length es
    → entry_at base (es ++ fs) i ≡ entry_at base es i
unfolding entry_at
entry_at-append base es fs i h =
    grind (arith, length-append es fs, get_elem?-append_left es fs (i - base - 1))

pub entry_at-take :
    (k base : ℕ) (es : List Entry) (i : ℕ)
    → i ≤ base + k
    → k ≤ length es
    → entry_at base (take k es) i ≡ entry_at base es i
unfolding entry_at
entry_at-take k base es i h le = grind (arith, length-take k es, get_elem?-take k es (i - base - 1))

pub entry_at-drop :
    (k base : ℕ) (es : List Entry) (i : ℕ)
    → base + k < i
    → k ≤ length es
    → entry_at (base + k) (drop k es) i ≡ entry_at base es i
unfolding entry_at
entry_at-drop k base es i h le =
    grind (arith, length-drop k es, get_elem?-drop k es (i - (base + k) - 1) (i - base - 1))
