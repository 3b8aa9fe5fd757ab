-- ===== src/Node/Conflict.antt =====
-- ConflictIndex: the binary search over terms.
use raft_kv.Base.{
  ℕ, zero, suc, ◌+◌, ◌-◌, ◌/◌, ◌≤◌, ◌<◌, ◌≡◌, ◌≢◌, refl, ap, ◌∙◌, sym, ◌↔◌, true, ◌&&◌, some, arith,
  inl, inr, Bool-cases, ltb, leb, ◌==◌, if◌then◌else◌, dec_lt, dec_le,
}
use raft_kv.Log.{Log, get_term, term_is}
use raft_kv.Log.Terms.{get_term-some, get_term-some_le}
use raft_kv.Log.Rising.{Rising, Rising-from, get_term-entry, get_term-Rising}
use raft_kv.Node.Append.{search_term, conflict_index}

-- The first index behind `low` of the term is c.
pub record IsFirst (l : Log) (t low high c : ℕ) : Type 0 where
  pub later : low < c
  pub has : get_term l c ≡ some t
  pub le : c ≤ high
  pub first : (i : ℕ) → low < i → i < c → get_term l i ≢ some t

IsFirst-wider :
    {l : Log} {t low mid high c : ℕ} → IsFirst l t low mid c → mid ≤ high → IsFirst l t low high c
IsFirst-wider h le = record {
  later = h.later;
  has = h.has;
  le = omega (arith, h.le);
  first = h.first;
}

search_term-IsFirst :
    (fuel : ℕ) (l : Log) (t low high : ℕ)
    → Rising l.snapshot.term l.entries
    → high - low ≤ fuel
    → l.snapshot.index ≤ low
    → low < high
    → get_term l high ≡ some t
    → IsFirst l t low high (search_term fuel l t low high)
unfolding search_term
search_term-IsFirst zero l t low high r enough lo lt h = absurd (omega arith)
search_term-IsFirst (suc fuel) l t low high r enough lo lt h =
    let mid = low + (high - low) / 2 in
    elim (Bool-cases (leb (high - low) 1)) [
      | inl close ↦
          rw (close, search_term)
            (record {
              later = lt;
              has = h;
              le = omega arith;
              first = λ i a b. absurd (ground arith);
            })
      | inr wide ↦ elim (Bool-cases (term_is (get_term l mid) t)) [
        | inl hit ↦
            let at : get_term l mid ≡ some t = ground arith in
            rw (wide, hit, search_term)
              (IsFirst-wider
                (search_term-IsFirst fuel l t low mid r (ground arith) lo (ground arith) at)
                (omega arith))
        | inr miss ↦
            let found =
              search_term-IsFirst fuel l t mid high r (ground arith) (omega arith) (ground arith)
                h in
            let below : low < mid = ground arith in
            let within : mid ≤ high = omega arith in
            let (s, at) =
              get_term-some l mid (omega arith) (omega (arith, get_term-some_le l high t h)) in
            let differs : ¬ (s ≡ t) = ground arith in
            rw (wide, miss, search_term)
              (record {
                later = omega (arith, found.later);
                has = found.has;
                le = found.le;
                first = λ i a b. elim (dec_le i mid) [
                  | no past ↦ found.first i (omega arith) b
                  | yes before ↦ λ known.
                      let up : t ≤ s =
                        get_term-Rising l i mid t s r (omega arith) before known at in
                      let down : s ≤ t =
                        get_term-Rising l mid high s t r (omega arith) within at h in
                      differs (omega (arith, up, down))
                ];
              })
      ]
    ]

search_term-flat : (fuel : ℕ) (l : Log) (t k : ℕ) → search_term fuel l t k k ≡ k
unfolding search_term
search_term-flat zero l t k = refl
search_term-flat (suc fuel) l t k =
    let small : leb (k - k) 1 ≡ true = ground arith in rw (small, search_term) refl

-- The term at the snapshot's own index.
get_term-snapshot :
    (l : Log) (t : ℕ)
    → (get_term l l.snapshot.index ≡ some (suc t))
      ↔ ((0 < l.snapshot.index) × (l.snapshot.term ≡ suc t))
unfolding get_term
get_term-snapshot l t = (λ h. (ground arith, ground arith), λ h. ground arith)

-- The snapshot takes the place of the first entry where it has the same term.
abbrev first_or_snapshot : Log → ℕ → ℕ → ℕ
first_or_snapshot l t high =
    if high == l.snapshot.index + 1 && ltb 0 l.snapshot.index && l.snapshot.term == suc t
    then l.snapshot.index
    else high

-- Where the snapshot has the term too, the first entry has it.
first_after :
    (l : Log) (t index high : ℕ)
    → IsFirst l (suc t) l.snapshot.index index high
    → Rising l.snapshot.term l.entries
    → l.snapshot.term ≡ suc t
    → high ≡ l.snapshot.index + 1
first_after l t index high f r term = elim (dec_lt (l.snapshot.index + 1) high) [
  | no h ↦ omega (arith, f.later)
  | yes h ↦
      let start = l.snapshot.index + 1 in
      let (s, at) =
        get_term-some l start (omega arith)
          (omega (arith, get_term-some_le l high (suc t) f.has)) in
      let (e, here, named) = get_term-entry l start s (omega arith) at in
      let down : s ≤ suc t =
        get_term-Rising l start high s (suc t) r (omega arith) (omega arith) at f.has in
      let up = Rising-from l.snapshot.term l.entries (start - l.snapshot.index - 1) e r here in
      let same : s ≡ suc t = omega (arith, down, up, named, term) in
      absurd (f.first start (omega arith) h (rw same at at))
]

first_or_snapshot-IsFirst :
    (l : Log) (index t high : ℕ)
    → IsFirst l (suc t) l.snapshot.index index high
    → Rising l.snapshot.term l.entries
    → (get_term l (first_or_snapshot l t high) ≡ some (suc t))
      × (first_or_snapshot l t high ≤ index)
      × ((i : ℕ)
          → l.snapshot.index ≤ i
          → i < first_or_snapshot l t high
          → get_term l i ≢ some (suc t))
first_or_snapshot-IsFirst l index t high f r =
    elim (Bool-cases
      (high == l.snapshot.index + 1 && ltb 0 l.snapshot.index && l.snapshot.term == suc t)) [
        | inl e ↦
            let at = (get_term-snapshot l t).1 (ground arith, ground arith) in
            rw e (at, omega (arith, f.later, f.le), λ i a b. absurd (omega arith))
        | inr e ↦ rw e (
          f.has,
          f.le,
          λ i a b. elim (dec_lt l.snapshot.index i) [
            | yes past ↦ f.first i past b
            | no not_past ↦ λ known.
                let same : i ≡ l.snapshot.index = omega arith in
                let (positive, term) = (get_term-snapshot l t).0 (rw same at known) in
                let next : high ≡ l.snapshot.index + 1 = first_after l t index high f r term in
                absurd (ground arith)
          ],
        )
      ]

-- The index that a refusal backs up to: in a log whose terms do not fall, it has the term of the
-- conflicting entry, it is no later than that entry, and no index before it, down to the snapshot,
-- has that term.
pub conflict_index-IsFirst :
    (l : Log) (index t : ℕ)
    → Rising l.snapshot.term l.entries
    → l.snapshot.index ≤ index
    → get_term l index ≡ some (suc t)
    → (get_term l (conflict_index l index) ≡ some (suc t))
      × (conflict_index l index ≤ index)
      × ((i : ℕ) → l.snapshot.index ≤ i → i < conflict_index l index → get_term l i ≢ some (suc t))
unfolding conflict_index
conflict_index-IsFirst l index t r lo h = elim (dec_lt l.snapshot.index index) [
  | no equal ↦
      let same : l.snapshot.index ≡ index = omega arith in
      let flat : search_term index l (suc t) l.snapshot.index index ≡ l.snapshot.index =
        rw (sym same) (search_term-flat l.snapshot.index l (suc t) l.snapshot.index) in
      let kept : conflict_index l index ≡ l.snapshot.index =
        rw (h, conflict_index) (rw flat (ground arith)) in
      let here : get_term l l.snapshot.index ≡ some (suc t) = ap (get_term l) same ∙ h in
      rw kept (here, omega arith, λ i a b. absurd (omega arith))
  | yes lt ↦
      let found =
        search_term-IsFirst index l (suc t) l.snapshot.index index r (omega arith) (omega arith) lt
          h in
      rw (h, conflict_index) (first_or_snapshot-IsFirst l index t _ found r)
]
