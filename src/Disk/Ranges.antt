-- ===== src/Disk/Ranges.antt =====
-- The operations of the log keep the bounds of its entries.
use raft_kv.Base.{
  ℕ, zero, suc, ◌+◌, ◌-◌, ◌≡◌, refl, ap, subst, some, List, [], ◌∷◌, ◌++◌, length, get_elem?, take,
  drop, All, arith, ℕ_discrete,
}
use raft_kv.Log.{Log, Entry, term_after, get, get_term}
use raft_kv.Log.Rising.{Rising}

module _ (P : Entry → Type 0) where
  pub All-append : (es fs : List Entry) → All P es → All P fs → All P (es ++ fs)
  All-append [] fs h k = k
  All-append (e ∷ es) fs (h, hs) k = (h, All-append es fs hs k)

  pub All-elem : (es : List Entry) (n : ℕ) (e : Entry) → All P es → get_elem? es n ≡ some e → P e
  All-elem [] n e h at = cc
  All-elem (x ∷ xs) zero e h at = let same : x ≡ e = cc (at) in subst P same h.0
  All-elem (x ∷ xs) (suc n) e h at = All-elem xs n e h.1 at

  pub All-take : (k : ℕ) (es : List Entry) → All P es → All P (take k es)
  All-take zero es h = tt
  All-take (suc k) [] h = tt
  All-take (suc k) (e ∷ es) (h, hs) = (h, All-take k es hs)

  pub All-drop : (k : ℕ) (es : List Entry) → All P es → All P (drop k es)
  All-drop zero es h = h
  All-drop (suc k) [] h = tt
  All-drop (suc k) (e ∷ es) (h, hs) = All-drop k es hs

pub Rising-append :
    (t : ℕ) (es fs : List Entry) → Rising t es → Rising (term_after t es) fs → Rising t (es ++ fs)
Rising-append t [] fs h k = k
Rising-append t (e ∷ es) fs (h, hs) k = (h, Rising-append e.term es fs hs k)

pub Rising-take : (k t : ℕ) (es : List Entry) → Rising t es → Rising t (take k es)
Rising-take zero t es h = tt
Rising-take (suc k) t [] h = tt
Rising-take (suc k) t (e ∷ es) (h, hs) = (h, Rising-take k e.term es hs)

pub term_after-append :
    (t : ℕ) (es fs : List Entry) → term_after t (es ++ fs) ≡ term_after (term_after t es) fs
term_after-append t [] fs = refl
term_after-append t (e ∷ es) fs = term_after-append e.term es fs

-- Behind an entry, the terms go on from the entry's.
pub Rising-drop :
    (k t : ℕ) (es : List Entry) (e : Entry)
    → Rising t es
    → get_elem? es k ≡ some e
    → Rising e.term (drop (suc k) es)
Rising-drop k t [] e h at = cc
Rising-drop zero t (x ∷ xs) e h at = let same : x ≡ e = cc (at) in rw same at h.1
Rising-drop (suc k) t (x ∷ xs) e h at = Rising-drop k x.term xs e h.1 at

pub term_after-drop :
    (k t : ℕ) (es : List Entry) (e : Entry)
    → get_elem? es k ≡ some e
    → term_after e.term (drop (suc k) es) ≡ term_after t es
term_after-drop k t [] e at = cc
term_after-drop zero t (x ∷ xs) e at =
    let same : e ≡ x = cc (at) in ap (λ (y : Entry). term_after y.term xs) same
term_after-drop (suc k) t (x ∷ xs) e at = term_after-drop k x.term xs e at

last_elem :
    (t : ℕ) (x : Entry) (xs : List Entry)
    → (e : Entry) × (get_elem? (x ∷ xs) (length xs) ≡ some e) × (e.term ≡ term_after x.term xs)
last_elem t x [] = (x, refl, refl)
last_elem t x (y ∷ ys) = last_elem x.term y ys

-- The term of the last index.
pub get_term-last :
    (l : Log) (es : List Entry)
    → l.entries ≡ es
    → (l.snapshot.index ≡ 0 → l.snapshot.term ≡ 0)
    → get_term l (l.snapshot.index + length es) ≡ some (term_after l.snapshot.term es)
unfolding get_term get
get_term-last l [] same zero_term = elim (ℕ_discrete l.snapshot.index 0) [
  | yes z ↦ let t = zero_term z in ground (arith, z, t)
  | no z ↦ ground (arith, z)
]
get_term-last l (x ∷ xs) same zero_term =
    let (e, at, term) = last_elem 0 x xs in
    let place : l.snapshot.index + suc (length xs) - l.snapshot.index - 1 ≡ length xs =
      omega arith in
    rw (same, place, at, get) (ground (arith, term))
