-- ===== src/Node/Majority.antt =====
-- AdvanceCommitIndex: matched indices and their majority.
use raft_kv.Base.{
  ℕ, zero, suc, ◌+◌, ◌-◌, ◌≤◌, ◌<◌, ◌≡◌, ◌↔◌, refl, ap, ◌∙◌, List, [], ◌∷◌, map, some, arith, leb,
  if◌then◌else◌, length, All, Bool-cases, inl, inr,
}
use raft_kv.Log.{get_term}
use raft_kv.Node.State.{Node, Env}
use raft_kv.Node.Reads.{quorum_size}
use raft_kv.Node.Apply.{insert_falling, sort_falling, get_or, majority_match, raise_commit}

length-map : (f : ℕ → ℕ) (xs : List ℕ) → length (map f xs) ≡ length xs
length-map f [] = refl
length-map f (x ∷ xs) = ap suc (length-map f xs)

-- How many of the numbers are k or more.
abbrev pub reached : ℕ → List ℕ → ℕ
reached k [] = 0
reached k (x ∷ xs) = (if leb k x then 1 else 0) + reached k xs

abbrev Falling : List ℕ → Type 0
Falling [] = Unit
Falling (x ∷ xs) = All (λ y. y ≤ x) xs × Falling xs

reached-insert : (k a : ℕ) (xs : List ℕ) → reached k (insert_falling a xs) ≡ reached k (a ∷ xs)
unfolding insert_falling
reached-insert k a [] = refl
reached-insert k a (x ∷ xs) = ground (arith, reached-insert k a xs)

reached-sort : (k : ℕ) (xs : List ℕ) → reached k (sort_falling xs) ≡ reached k xs
unfolding sort_falling
reached-sort k [] = refl
reached-sort k (x ∷ xs) = omega (arith, reached-insert k x (sort_falling xs), reached-sort k xs)

length-insert : (a : ℕ) (xs : List ℕ) → length (insert_falling a xs) ≡ suc (length xs)
unfolding insert_falling
length-insert a [] = refl
length-insert a (x ∷ xs) = ground (arith, length-insert a xs)

length-sort : (xs : List ℕ) → length (sort_falling xs) ≡ length xs
unfolding sort_falling
length-sort [] = refl
length-sort (x ∷ xs) = omega (arith, length-insert x (sort_falling xs), length-sort xs)

All-weaken : (a b : ℕ) (xs : List ℕ) → a ≤ b → All (λ y. y ≤ a) xs → All (λ y. y ≤ b) xs
All-weaken a b [] le h = tt
All-weaken a b (x ∷ xs) le (h, hs) = (omega arith, All-weaken a b xs le hs)

All-insert :
    (a b : ℕ) (xs : List ℕ) → a ≤ b → All (λ y. y ≤ b) xs → All (λ y. y ≤ b) (insert_falling a xs)
unfolding insert_falling
All-insert a b [] le h = (le, tt)
All-insert a b (x ∷ xs) le (h, hs) = ground (arith, All-insert a b xs le hs)

Falling-insert : (a : ℕ) (xs : List ℕ) → Falling xs → Falling (insert_falling a xs)
unfolding insert_falling
Falling-insert a [] h = (tt, tt)
Falling-insert a (x ∷ xs) (top, rest) = elim (Bool-cases (leb x a)) [
  | inl e ↦
      let le : x ≤ a = ground arith in
      rw (e, insert_falling) ((le, All-weaken x a xs le top), (top, rest))
  | inr e ↦
      let le : a ≤ x = ground arith in
      rw (e, insert_falling) (All-insert a x xs le top, Falling-insert a xs rest)
]

Falling-sort : (xs : List ℕ) → Falling (sort_falling xs)
unfolding sort_falling
Falling-sort [] = tt
Falling-sort (x ∷ xs) = Falling-insert x (sort_falling xs) (Falling-sort xs)

none_reached : (k b : ℕ) (xs : List ℕ) → b < k → All (λ y. y ≤ b) xs → reached k xs ≡ 0
none_reached k b [] lt h = refl
none_reached k b (x ∷ xs) lt (h, hs) = ground (arith, none_reached k b xs lt hs)

get_or-le : (b i : ℕ) (xs : List ℕ) → All (λ y. y ≤ b) xs → get_or xs i 0 ≤ b
get_or-le b i [] h = omega arith
get_or-le b zero (x ∷ xs) (h, hs) = h
get_or-le b (suc i) (x ∷ xs) (h, hs) = get_or-le b i xs hs

-- In a falling list the element at i is the greatest number that i + 1 elements reach.
Falling-reached :
    (k i : ℕ) (xs : List ℕ)
    → Falling xs
    → i < length xs
    → (k ≤ get_or xs i 0) ↔ (suc i ≤ reached k xs)
Falling-reached k i [] h lt = elim lt [ ]
Falling-reached k zero (x ∷ xs) (top, rest) lt =
    (ground arith, λ h. grind (arith, λ (lt : x < k). none_reached k x xs lt top))
Falling-reached k (suc i) (x ∷ xs) (top, rest) lt =
    let (there, back) = Falling-reached k i xs rest (omega arith) in
    let small = get_or-le x i xs top in
    (
      λ h. ground (arith, there h, small),
      λ h. grind (arith, back, λ (lt : x < k). none_reached k x xs lt top),
    )

module _ {S : Type 0} (env : Env S) where
  -- Whatever the order of the peers, the index that AdvanceCommitIndex picks is the greatest one
  -- that a majority of them has matched: an index is at most that one just when a majority has
  -- matched it.
  pub majority_match-reached :
      (n : Node S) (k : ℕ)
      → 0 < length n.peers
      → (k ≤ majority_match env n) ↔ (quorum_size n ≤ reached k (map n.match_index n.peers))
  unfolding majority_match
  majority_match-reached n k some_peer =
      let xs = map n.match_index n.peers in
      let same = reached-sort k xs in
      let long : length (sort_falling xs) ≡ length n.peers =
        length-sort xs ∙ length-map n.match_index n.peers in
      let i = quorum_size n - 1 in
      let (there, back) =
        Falling-reached k i (sort_falling xs) (Falling-sort xs) (omega (arith, long)) in
      (λ h. omega (arith, there h, same), λ h. back (omega (arith, h, same)))

  -- The commit index rises only to an index of the current term that a majority has matched, and
  -- then no later index is matched by a majority.
  pub raise_commit-majority :
      (n : Node S)
      → 0 < length n.peers
      → n.commit_index < (raise_commit env n).commit_index
      → (quorum_size n ≤ reached (raise_commit env n).commit_index (map n.match_index n.peers))
        × (get_term n.log (raise_commit env n).commit_index ≡ some n.current_term)
        × ((k : ℕ)
            → quorum_size n ≤ reached k (map n.match_index n.peers)
            → k ≤ (raise_commit env n).commit_index)
  unfolding raise_commit
  raise_commit-majority n some_peer h =
      let risen : (raise_commit env n).commit_index ≡ majority_match env n = ground arith in
      let term : get_term n.log (majority_match env n) ≡ some n.current_term = ground arith in
      rw risen (
        (majority_match-reached n (majority_match env n) some_peer).0 (omega arith),
        term,
        λ k q. (majority_match-reached n k some_peer).1 q,
      )

  -- When the picked index is of the current term, nothing that a majority has matched stays
  -- uncommitted.
  pub raise_commit_complete :
      (n : Node S) (k : ℕ)
      → 0 < length n.peers
      → get_term n.log (majority_match env n) ≡ some n.current_term
      → quorum_size n ≤ reached k (map n.match_index n.peers)
      → k ≤ (raise_commit env n).commit_index
  unfolding raise_commit
  raise_commit_complete n k some_peer term q =
      let le = (majority_match-reached n k some_peer).1 q in ground arith
