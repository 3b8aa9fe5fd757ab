-- ===== src/Resp/Numbers.antt =====
-- The number lines of the decoder: more bytes behind them, and their printed form.
use mathlib.Core.List.{append_assoc}
use raft_kv.Base.{
  ℕ, suc, ◌+◌, ◌-◌, ◌≤◌, ◌<◌, ◌≡◌, inl, inr, refl, true, take-append_left, take-length, drop,
  drop-length, ==_refl, length-take, some, none, [], ◌∷◌, ◌++◌, Bytes, Option-cases, length,
  length-append, All, arith, uint64_max,
}
use raft_kv.Decimal.{
  value, to_string, IsDigit, value-to_string, to_string-IsDigit, length-to_string,
}
use raft_kv.Resp.{
  find_crlf, all_digits, Number, number_more, number_invalid, number_got, line_number, number, crlf,
}

-- A line end that was found is found where it was, and stands within the bytes.
pub find_crlf-append :
    (xs ys : Bytes) (i : ℕ)
    → find_crlf xs ≡ some i
    → (find_crlf (xs ++ ys) ≡ some i) × (i + 2 ≤ length xs)
unfolding find_crlf
find_crlf-append [] ys i h = cc
find_crlf-append (c ∷ []) ys i h = cc
find_crlf-append (c ∷ d ∷ cs) ys i h = elim (Option-cases (find_crlf (d ∷ cs))) [
  | inl e ↦ ground (arith, e)
  | inr (j, e) ↦ ground (arith, e, find_crlf-append (d ∷ cs) ys j e)
]

-- A line end that comes with more bytes is at the end of what was there, or behind it.
pub find_crlf-append_late :
    (xs ys : Bytes) (i : ℕ)
    → find_crlf xs ≡ none
    → find_crlf (xs ++ ys) ≡ some i
    → length xs ≤ i + 1
unfolding find_crlf
find_crlf-append_late [] ys i h k = omega arith
find_crlf-append_late (c ∷ []) ys i h k = omega arith
find_crlf-append_late (c ∷ d ∷ cs) ys i h k = elim (Option-cases (find_crlf (d ∷ cs))) [
  | inl e ↦ elim (Option-cases (find_crlf ((d ∷ cs) ++ ys))) [
    | inl k' ↦ ground (arith, e, k')
    | inr (j, k') ↦ ground (arith, e, k', find_crlf-append_late (d ∷ cs) ys j e k')
  ]
  | inr (j, e) ↦ ground (arith, e)
]

-- A verdict that does not ask for more bytes.
abbrev pub NumberSettled : Number → Type 0
NumberSettled number_more = ⊥
NumberSettled _ = Unit

-- A line of more than 20 digits is refused.
line_number_long :
    (limit : ℕ) (behind : Bytes) (end : ℕ)
    → 22 ≤ end
    → end ≤ 1 + length behind
    → line_number limit behind end ≡ number_invalid
unfolding line_number
line_number_long limit behind end low high = ground (arith, length-take (end - 1) behind)

line_number-append :
    (limit : ℕ) (xs ys : Bytes) (end : ℕ)
    → end ≤ 1 + length xs
    → line_number limit (xs ++ ys) end ≡ line_number limit xs end
unfolding line_number
line_number-append limit xs ys end h = rw (take-append_left (end - 1) xs ys (omega arith)) refl

-- A verdict stays as it is whatever follows, and its line stands within the bytes.
pub number-append :
    (prefix limit : ℕ) (xs ys : Bytes)
    → NumberSettled (number prefix limit xs)
    → number prefix limit (xs ++ ys) ≡ number prefix limit xs
unfolding number
number-append prefix limit [] ys h = absurd h
number-append prefix limit (c ∷ cs) ys h = elim (Option-cases (find_crlf (c ∷ cs))) [
  | inl f ↦ elim (Option-cases (find_crlf ((c ∷ cs) ++ ys))) [
    | inl g ↦ ground (arith, f, g, h, length-append cs ys)
    | inr (end, g) ↦
        let late = find_crlf-append_late (c ∷ cs) ys end f g in
        let fits = find_crlf-append ((c ∷ cs) ++ ys) [] end g in
        ground (arith, f, g, h, late, fits.1, line_number_long limit (cs ++ ys) end)
  ]
  | inr (end, f) ↦
      let (g, fits) = find_crlf-append (c ∷ cs) ys end f in
      rw (f, g, line_number-append limit cs ys end (omega arith)) refl
]

line_number_within :
    (limit : ℕ) (behind : Bytes) (end v used : ℕ)
    → line_number limit behind end ≡ number_got v used
    → (v ≤ limit) × (used ≡ end + 2)
unfolding line_number
line_number_within limit behind end v used h = ground arith

-- An accepted number is within its limit, and its line within the bytes.
pub number_within :
    (prefix limit v used : ℕ) (bytes : Bytes)
    → number prefix limit bytes ≡ number_got v used
    → (v ≤ limit) × (used ≤ length bytes)
unfolding number
number_within prefix limit v used [] h = cc
number_within prefix limit v used (c ∷ cs) h = elim (Option-cases (find_crlf (c ∷ cs))) [
  | inl f ↦ ground (arith, f, h)
  | inr (end, f) ↦
      ground (
        arith,
        f,
        h,
        (find_crlf-append (c ∷ cs) [] end f).1,
        line_number_within limit cs end v used,
      )
]

line_number_short :
    (limit : ℕ) (behind : Bytes) (end v used : ℕ)
    → end ≤ 1 + length behind
    → line_number limit behind end ≡ number_got v used
    → used ≤ 23
unfolding line_number
line_number_short limit behind end v used fits h = ground (arith, length-take (end - 1) behind)

-- The line of an accepted number has from 2 to 23 bytes.
pub number_short :
    (prefix limit v used : ℕ) (bytes : Bytes)
    → number prefix limit bytes ≡ number_got v used
    → (2 ≤ used) × (used ≤ 23)
unfolding number
number_short prefix limit v used [] h = cc
number_short prefix limit v used (c ∷ cs) h = elim (Option-cases (find_crlf (c ∷ cs))) [
  | inl f ↦ ground (arith, f, h)
  | inr (end, f) ↦ ground (
    arith,
    f,
    h,
    (find_crlf-append (c ∷ cs) [] end f).1,
    line_number_within limit cs end v used,
    line_number_short limit cs end v used,
  )
]

-- A byte that is above a line end.
abbrev pub IsPlain : ℕ → Type 0
IsPlain c = b'\r' < c

IsDigit-IsPlain : (ds : Bytes) → All IsDigit ds → All IsPlain ds
IsDigit-IsPlain [] h = tt
IsDigit-IsPlain (d ∷ ds) h = let low = h.0.0 in (omega arith, IsDigit-IsPlain ds h.1)

find_crlf-plain :
    (xs rest : Bytes) → All IsPlain xs → find_crlf (xs ++ (crlf ++ rest)) ≡ some (length xs)
unfolding find_crlf
find_crlf-plain [] rest h = refl
find_crlf-plain (x ∷ []) rest h = ground (arith, h.0)
find_crlf-plain (x ∷ y ∷ xs) rest h = ground (arith, h.0, find_crlf-plain (y ∷ xs) rest h.1)

all_digits_of : (ds : Bytes) → All IsDigit ds → all_digits ds ≡ true
unfolding all_digits
all_digits_of [] h = refl
all_digits_of (d ∷ ds) h = ground (arith, h.0, all_digits_of ds h.1)

line_number-digits :
    (limit n : ℕ) (ds rest : Bytes)
    → All IsDigit ds
    → 1 ≤ length ds
    → length ds ≤ 20
    → value 0 ds ≡ n
    → n ≤ limit
    → limit ≤ uint64_max
    → line_number limit (ds ++ (crlf ++ rest)) (suc (length ds)) ≡ number_got n (length ds + 3)
unfolding line_number
line_number-digits limit n ds rest h low high e fits wide =
    let same = take-length ds (crlf ++ rest) (suc (length ds) - 1) (omega arith) in
    rw (same, all_digits_of ds h, e) (ground arith)

-- The line of a number behind its prefix is read as the number, and just the line is consumed.
pub number-to_string :
    (prefix limit n : ℕ) (rest : Bytes)
    → IsPlain prefix
    → n ≤ limit
    → limit ≤ uint64_max
    → number prefix limit ((prefix ∷ to_string n) ++ (crlf ++ rest))
      ≡ number_got n (length (to_string n) + 3)
unfolding number
number-to_string prefix limit n rest plain fits wide =
    let ds = to_string n in
    let h = to_string-IsDigit n in
    let (low, high) = length-to_string n in
    let found = find_crlf-plain (prefix ∷ ds) rest (plain, IsDigit-IsPlain ds h) in
    let exact = value-to_string n (omega arith) in
    rw (==_refl prefix, found) (line_number-digits limit n ds rest h low high exact fits wide)

-- What stands behind such a line.
pub drop-line :
    (prefix : ℕ) (ds tail : Bytes) → drop (length ds + 3) ((prefix ∷ ds) ++ (crlf ++ tail)) ≡ tail
drop-line prefix ds tail =
    let split : (prefix ∷ ds) ++ (crlf ++ tail) ≡ ((prefix ∷ ds) ++ crlf) ++ tail =
      simp append_assoc in
    let size : length ds + 3 ≡ length ((prefix ∷ ds) ++ crlf) =
      omega (arith, length-append (prefix ∷ ds) crlf) in
    rw split (drop-length ((prefix ∷ ds) ++ crlf) tail (length ds + 3) size)
