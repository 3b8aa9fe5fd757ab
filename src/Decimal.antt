-- ===== src/Decimal.antt =====
-- Decimal numbers of the C++ library, on the range of `size_t`: `std::to_string` and what
-- `std::from_chars` reads.
use native.Mathlib.Nat.{pow-succ', mul-le-mul_right, pow-le-pow_right}
use raft_kv.Base.{
  ℕ, zero, suc, ◌+◌, ◌-◌, ◌*◌, ◌/◌, ◌%◌, ◌^◌, ◌≤◌, ◌<◌, ◌≡◌, refl, sym, [], ◌∷◌, ◌++◌, Bytes, ltb,
  if◌then◌else◌, dec_lt, lt→ltb, not_lt→ltb, length, All, arith, length-append, uint64_max,
}

-- The digits of a number below `10 ^ fuel`, the highest first.
unfoldable pub digits : ℕ → ℕ → Bytes
digits zero n = []
digits (suc fuel) n =
    let high = digits fuel (n / 10) in
    if ltb n 10 then (b'0' + n) ∷ [] else high ++ (b'0' + n % 10) ∷ []

-- 20 digits are enough for 64 bits.
unfoldable pub to_string : ℕ → Bytes
to_string n = digits 20 n

-- The number that digits spell behind `n`.
unfoldable pub value : ℕ → Bytes → ℕ
value n [] = n
value n (c ∷ cs) = value (n * 10 + (c - b'0')) cs

abbrev pub IsDigit : ℕ → Type 0
IsDigit c = (b'0' ≤ c) × (c ≤ b'9')

value-append : (n : ℕ) (xs ys : Bytes) → value n (xs ++ ys) ≡ value (value n xs) ys
unfolding value
value-append n [] ys = refl
value-append n (x ∷ xs) ys = value-append (n * 10 + (x - b'0')) xs ys

All-append : (xs ys : Bytes) → All IsDigit xs → All IsDigit ys → All IsDigit (xs ++ ys)
All-append [] ys h k = k
All-append (x ∷ xs) ys h k = (h.0, All-append xs ys h.1 k)

pub value-digits : (fuel n : ℕ) → n < 10 ^ fuel → value 0 (digits fuel n) ≡ n
unfolding digits value
value-digits zero n h = omega arith
value-digits (suc fuel) n h = grind (
  arith,
  value-digits fuel (n / 10),
  value-append 0 (digits fuel (n / 10)) ((b'0' + n % 10) ∷ []),
)

pub digits-IsDigit : (fuel n : ℕ) → All IsDigit (digits fuel n)
unfolding digits
digits-IsDigit zero n = tt
digits-IsDigit (suc fuel) n =
    let last : All IsDigit ((b'0' + n % 10) ∷ []) = ((omega arith, omega arith), tt) in
    let ih =
      All-append (digits fuel (n / 10)) ((b'0' + n % 10) ∷ []) (digits-IsDigit fuel (n / 10))
        last in
    ground (arith, ih)

pub length-digits :
    (fuel n : ℕ) → (length (digits fuel n) ≤ fuel) × (1 ≤ fuel → 1 ≤ length (digits fuel n))
unfolding digits
length-digits zero n = ground arith
length-digits (suc fuel) n = ground (
  arith,
  length-digits fuel (n / 10),
  length-append (digits fuel (n / 10)) ((b'0' + n % 10) ∷ []),
)

-- A first digit that is not 0.
abbrev pub Leads : Bytes → Type 0
Leads [] = ⊥
Leads (c ∷ cs) = b'1' ≤ c

Leads-append : (xs ys : Bytes) → Leads xs → Leads (xs ++ ys)
Leads-append [] ys h = absurd h
Leads-append (x ∷ xs) ys h = h

pub digits-Leads : (fuel n : ℕ) → 1 ≤ n → n < 10 ^ fuel → Leads (digits fuel n)
unfolding digits
digits-Leads zero n low high = absurd (omega arith)
digits-Leads (suc fuel) n low high = elim (dec_lt n 10) [
  | yes h ↦ rw (lt→ltb n 10 h) (omega arith)
  | no h ↦
      let ih = digits-Leads fuel (n / 10) (omega arith) (omega arith) in
      rw (not_lt→ltb n 10 h) (Leads-append (digits fuel (n / 10)) ((b'0' + n % 10) ∷ []) ih)
]

lower_step : (n d p v : ℕ) → (n * 10 + d) * p ≤ v → n * (10 * p) ≤ v
lower_step n d p v h = grind arith

upper_step : (n d p v : ℕ) → d ≤ 9 → v < (n * 10 + d + 1) * p → v < (n + 1) * (10 * p)
upper_step n d p v small h =
    let wide : (n * 10 + d + 1) * p ≤ (n * 10 + 10) * p = mul-le-mul_right p (omega arith) in
    grind (arith, wide)

pub value-lower : (n : ℕ) (xs : Bytes) → n * 10 ^ length xs ≤ value n xs
unfolding value
value-lower n [] = omega arith
value-lower n (x ∷ xs) =
    rw (pow-succ' 10 (length xs))
      (lower_step n (x - b'0') (10 ^ length xs) _ (value-lower (n * 10 + (x - b'0')) xs))

pub value-upper : (n : ℕ) (xs : Bytes) → All IsDigit xs → value n xs < (n + 1) * 10 ^ length xs
unfolding value
value-upper n [] h = omega arith
value-upper n (x ∷ xs) h =
    let (low, high) = h.0 in
    rw (pow-succ' 10 (length xs)) (
      upper_step n (x - b'0') (10 ^ length xs) _ (omega arith)
        (value-upper (n * 10 + (x - b'0')) xs h.1))

-- Spellings of one length are told apart by their value.
value-injective_same :
    (m n : ℕ) (xs ys : Bytes)
    → length xs ≡ length ys
    → All IsDigit xs
    → All IsDigit ys
    → value m xs ≡ value n ys
    → (m ≡ n) × (xs ≡ ys)
unfolding value
value-injective_same m n [] [] e hx hy h = (h, refl)
value-injective_same m n [] (y ∷ ys) e hx hy h = absurd (omega arith)
value-injective_same m n (x ∷ xs) [] e hx hy h = absurd (omega arith)
value-injective_same m n (x ∷ xs) (y ∷ ys) e hx hy h =
    let ih =
      value-injective_same (m * 10 + (x - b'0')) (n * 10 + (y - b'0')) xs ys (omega arith) hx.1 hy.1
        h in
    let (lx, ux) = hx.0 in
    let (ly, uy) = hy.0 in
    let same : x ≡ y = omega (arith, ih.0) in (omega (arith, ih.0), cc (same, ih.1))

-- A spelling without a leading 0 is as long as any of the same value.
not_shorter :
    (xs ys : Bytes)
    → All IsDigit xs
    → Leads ys
    → value 0 xs ≡ value 0 ys
    → ¬ (length xs < length ys)
unfolding value
not_shorter xs [] hx ly e h = omega arith
not_shorter xs (y ∷ ys) hx ly e h =
    let d = 0 * 10 + (y - b'0') in
    let more : 10 ^ length xs ≤ 10 ^ length ys = pow-le-pow_right (omega arith) (omega arith) in
    let low : 1 * 10 ^ length ys ≤ d * 10 ^ length ys =
      mul-le-mul_right (10 ^ length ys) (omega arith) in
    let same : value 0 xs ≡ value d ys = e in
    omega (arith, same, more, low, value-upper 0 xs hx, value-lower d ys)

-- A number has one spelling without a leading 0.
pub value-injective :
    (xs ys : Bytes)
    → All IsDigit xs
    → All IsDigit ys
    → Leads xs
    → Leads ys
    → value 0 xs ≡ value 0 ys
    → xs ≡ ys
value-injective xs ys hx hy lx ly e =
    let same : length xs ≡ length ys =
      omega (arith, not_shorter xs ys hx ly e, not_shorter ys xs hy lx (sym e)) in
    (value-injective_same 0 0 xs ys same hx hy e).1

-- What the printed form of a number of 64 bits is.
module _ (n : ℕ) (fits : n ≤ uint64_max) where
  pub value-to_string : value 0 (to_string n) ≡ n
  unfolding to_string
  value-to_string = value-digits 20 n (omega arith)

  pub to_string-Leads : 1 ≤ n → Leads (to_string n)
  unfolding to_string
  to_string-Leads low = digits-Leads 20 n low (omega arith)

pub to_string-IsDigit : (n : ℕ) → All IsDigit (to_string n)
unfolding to_string
to_string-IsDigit n = digits-IsDigit 20 n

pub length-to_string : (n : ℕ) → (1 ≤ length (to_string n)) × (length (to_string n) ≤ 20)
unfolding to_string
length-to_string n = grind (arith, length-digits 20 n)
