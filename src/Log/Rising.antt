-- ===== src/Log/Rising.antt =====
-- Logs whose terms do not fall.
use raft_kv.Base.{
  ℕ, zero, suc, ◌-◌, ◌≤◌, ◌<◌, ◌≡◌, refl, none, some, List, [], ◌∷◌, arith, get_elem?,
}
use raft_kv.Log.{Log, Entry, get, get_term}

-- Terms that do not fall, from t on.
abbrev pub Rising : ℕ → List Entry → Type 0
Rising t [] = Unit
Rising t (e ∷ es) = (t ≤ e.term) × Rising e.term es

pub Rising-from :
    (t : ℕ) (es : List Entry) (j : ℕ) (b : Entry)
    → Rising t es
    → get_elem? es j ≡ some b
    → t ≤ b.term
Rising-from t [] j b h at = cc
Rising-from t (e ∷ es) zero b h at = let same : e ≡ b = cc in rw same at h.0
Rising-from t (e ∷ es) (suc j) b h at = omega (arith, h.0, Rising-from e.term es j b h.1 at)

Rising-terms :
    (t : ℕ) (es : List Entry) (i j : ℕ) (a b : Entry)
    → Rising t es
    → i ≤ j
    → get_elem? es i ≡ some a
    → get_elem? es j ≡ some b
    → a.term ≤ b.term
Rising-terms t [] i j a b h le at at' = cc
Rising-terms t (e ∷ es) zero zero a b h le at at' = let same : a ≡ b = cc in rw same (omega arith)
Rising-terms t (e ∷ es) zero (suc j) a b h le at at' =
    let same : e ≡ a = cc in rw same at (Rising-from e.term es j b h.1 at')
Rising-terms t (e ∷ es) (suc i) zero a b h le at at' = absurd (omega arith)
Rising-terms t (e ∷ es) (suc i) (suc j) a b h le at at' =
    Rising-terms e.term es i j a b h.1 (omega arith) at at'

-- A term behind the snapshot is that of an entry.
pub get_term-entry :
    (l : Log) (i t : ℕ)
    → l.snapshot.index < i
    → get_term l i ≡ some t
    → (e : Entry) × (get_elem? l.entries (i - l.snapshot.index - 1) ≡ some e) × (e.term ≡ t)
unfolding get_term get
get_term-entry l i t lt h =
    elim (get_elem? l.entries (i - l.snapshot.index - 1))
        as (λ o.
          get_elem? l.entries (i - l.snapshot.index - 1) ≡ o
          → (e : Entry) × (get_elem? l.entries (i - l.snapshot.index - 1) ≡ some e)
            × (e.term ≡ t)) [
              | none ↦ λ at. absurd (grind arith)
              | some e ↦ λ at. (e, at, grind arith)
            ]
      refl

pub get_term-Rising :
    (l : Log) (i j s t : ℕ)
    → Rising l.snapshot.term l.entries
    → l.snapshot.index < i
    → i ≤ j
    → get_term l i ≡ some s
    → get_term l j ≡ some t
    → s ≤ t
get_term-Rising l i j s t h lt le at at' =
    let (a, here, s') = get_term-entry l i s lt at in
    let (b, there, t') = get_term-entry l j t (omega arith) at' in
    omega (
      arith,
      s',
      t',
      Rising-terms l.snapshot.term l.entries (i - l.snapshot.index - 1) (j - l.snapshot.index - 1) a
          b h (omega arith) here there,
    )
