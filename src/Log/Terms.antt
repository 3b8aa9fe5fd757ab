-- ===== src/Log/Terms.antt =====
-- The terms of a log's indices.
use mathlib.Core.List.{append_assoc}
use raft_kv.Base.{
  ℕ, zero, suc, ◌+◌, ◌-◌, ◌≤◌, ◌<◌, ◌≡◌, refl, sym, ap, ◌∙◌, some, List, [], ◌∷◌, ◌++◌, arith, inl,
  inr, Option-cases, All, length, take, length-append, get_elem?, dec_lt,
}
use raft_kv.Log.{Log, Entry, Snapshot, last_index, get, get_term}
use raft_kv.Log.Entries.{Chained, get-entry_at, entry_at-append, entry_at-take}

-- The entry stands in the log under its term.
abbrev pub Known : Log → Entry → Type 0
Known l e = get_term l e.index ≡ some e.term

pub All-append_left : (P : Entry → Type 0) (es fs : List Entry) → All P (es ++ fs) → All P es
All-append_left P [] fs h = tt
All-append_left P (e ∷ es) fs (h, hs) = (h, All-append_left P es fs hs)

get_elem?-middle : (es fs : List Entry) (e : Entry) → get_elem? (es ++ e ∷ fs) (length es) ≡ some e
get_elem?-middle [] fs e = refl
get_elem?-middle (x ∷ es) fs e = get_elem?-middle es fs e

middle-Known :
    (l : Log) (es fs : List Entry) (e : Entry)
    → l.entries ≡ es ++ e ∷ fs
    → e.index ≡ suc (l.snapshot.index + length es)
    → Known l e
unfolding get_term get
middle-Known l es fs e h i =
    let at : get_elem? l.entries (length es) ≡ some e = rw h (get_elem?-middle es fs e) in
    let place : e.index - l.snapshot.index - 1 ≡ length es = omega arith in
    let long : length l.entries ≡ length es + suc (length fs) =
      ap length h ∙ length-append es (e ∷ fs) in
    grind (arith, at, place)

-- What a chain of entries adds stands in the log.
pub appended-Known :
    (l : Log) (es fs : List Entry)
    → l.entries ≡ es ++ fs
    → Chained (l.snapshot.index + length es) fs
    → All (Known l) fs
appended-Known l es [] h c = tt
appended-Known l es (e ∷ fs) h c =
    let moved : suc (l.snapshot.index + length es) ≡ l.snapshot.index + length (es ++ e ∷ []) =
      omega (arith, length-append es (e ∷ [])) in
    (
      middle-Known l es fs e h c.0,
      appended-Known l (es ++ e ∷ []) fs (h ∙ sym (append_assoc es (e ∷ []) fs)) (rw moved at c.2),
    )

pub get_elem?-some :
    (xs : List Entry) (i : ℕ) → i < length xs → (e : Entry) × (get_elem? xs i ≡ some e)
get_elem?-some [] i h = elim h [ ]
get_elem?-some (x ∷ xs) zero h = (x, refl)
get_elem?-some (x ∷ xs) (suc i) h = get_elem?-some xs i (omega arith)

-- An index from the snapshot to the end has a term.
pub get_term-some :
    (l : Log) (i : ℕ) → l.snapshot.index ≤ i → i ≤ last_index l → (t : ℕ) × (get_term l i ≡ some t)
unfolding get_term get
get_term-some l i lo hi = elim (Option-cases (get_term l i)) [
  | inr found ↦ found
  | inl e ↦ elim (dec_lt l.snapshot.index i) [
    | no h ↦ absurd (grind arith)
    | yes h ↦
        let (x, at) = get_elem?-some l.entries (i - l.snapshot.index - 1) (omega arith) in
        absurd (grind (arith, at))
  ]
]

pub get_term-some_le : (l : Log) (i t : ℕ) → get_term l i ≡ some t → i ≤ last_index l
unfolding get_term get
get_term-some_le l i t h = ground arith

-- The term of an index that appending or cutting does not touch.
pub get_term-append :
    (l m : Log) (fs : List Entry) (i : ℕ)
    → m.snapshot ≡ l.snapshot
    → m.entries ≡ l.entries ++ fs
    → i ≤ last_index l
    → get_term m i ≡ get_term l i
unfolding get_term
get_term-append l m fs i s e h =
    let snap = ap (λ (x : Snapshot). x.index) s in
    let same : get m i ≡ get l i =
      get-entry_at m i
      ∙ rw (s, e) (entry_at-append l.snapshot.index l.entries fs i h)
      ∙ sym (get-entry_at l i) in
    rw (same, s) refl

pub get_term-take :
    (l : Log) (k i : ℕ)
    → k ≤ length l.entries
    → i ≤ l.snapshot.index + k
    → get_term (record l { entries = take k l.entries }) i ≡ get_term l i
unfolding get_term
get_term-take l k i fits h =
    let same : get (record l { entries = take k l.entries }) i ≡ get l i =
      get-entry_at (record l { entries = take k l.entries }) i
      ∙ entry_at-take k l.snapshot.index l.entries i h fits
      ∙ sym (get-entry_at l i) in
    rw same refl
