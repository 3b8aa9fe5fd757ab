-- ===== src/Commands/Ids.antt =====
-- ParseRequestId.
use raft_kv.Base.{
  ℕ, ◌+◌, ◌-◌, ◌*◌, ◌≤◌, ◌≡◌, refl, ◌↔◌, some, [], ◌∷◌, Bytes, length, All, arith, uint64_max,
}
use raft_kv.Decimal.{
  to_string, value, IsDigit, Leads, value-injective, value-to_string, to_string-Leads,
  to_string-IsDigit, length-to_string,
}
use raft_kv.Commands.{request_id_loop, parse_request_id}

le-value : (n : ℕ) (cs : Bytes) → n ≤ value n cs
unfolding value
le-value n [] = omega arith
le-value n (c ∷ cs) = omega (arith, le-value (n * 10 + (c - b'0')) cs)

loop_sound :
    (cs : Bytes) (v n : ℕ)
    → v ≤ uint64_max
    → request_id_loop cs v ≡ some n
    → All IsDigit cs × (n ≡ value v cs) × (n ≤ uint64_max)
unfolding request_id_loop value
loop_sound [] v n fits h = ground arith
loop_sound (c ∷ cs) v n fits h = ground (arith, loop_sound cs (v * 10 + (c - b'0')) n)

loop_complete :
    (cs : Bytes) (v : ℕ)
    → All IsDigit cs
    → value v cs ≤ uint64_max
    → request_id_loop cs v ≡ some (value v cs)
unfolding request_id_loop value
loop_complete [] v h fits = refl
loop_complete (c ∷ cs) v h fits =
    let m = v * 10 + (c - b'0') in ground (arith, loop_complete cs m h.1 fits, le-value m cs)

accepted :
    (s : Bytes)
    → Leads s
    → All IsDigit s
    → length s ≤ 20
    → value 0 s ≤ uint64_max
    → parse_request_id s ≡ some (value 0 s)
unfolding parse_request_id
accepted [] l d short fits = absurd l
accepted (c ∷ cs) l d short fits = ground (arith, loop_complete (c ∷ cs) 0 d fits)

accepted_only :
    (s : Bytes) (n : ℕ)
    → parse_request_id s ≡ some n
    → Leads s × All IsDigit s × (n ≡ value 0 s) × (n ≤ uint64_max)
unfolding parse_request_id
accepted_only [] n h = cc
accepted_only (c ∷ cs) n h = ground (arith, loop_sound (c ∷ cs) 0 n)

value_pos : (s : Bytes) → Leads s → 1 ≤ value 0 s
unfolding value
value_pos [] l = absurd l
value_pos (c ∷ cs) l = omega (arith, le-value (0 * 10 + (c - b'0')) cs)

-- A request id is accepted just when it is the decimal form of a number from 1 to 2^64 - 1, so each
-- id has one spelling.
pub parse_request_id_iff :
    (s : Bytes) (n : ℕ)
    → (parse_request_id s ≡ some n) ↔ ((1 ≤ n) × (n ≤ uint64_max) × (s ≡ to_string n))
parse_request_id_iff s n = (only, back)
  where
    only : parse_request_id s ≡ some n → (1 ≤ n) × (n ≤ uint64_max) × (s ≡ to_string n)
    only h =
        let (leads, all_digits, exact, fits) = accepted_only s n h in
        let low : 1 ≤ n = omega (arith, exact, value_pos s leads) in
        let same : value 0 s ≡ value 0 (to_string n) = cc (exact, value-to_string n fits) in
        (
          low,
          fits,
          value-injective s (to_string n) all_digits (to_string-IsDigit n) leads
              (to_string-Leads n fits low) same,
        )

    back : (1 ≤ n) × (n ≤ uint64_max) × (s ≡ to_string n) → parse_request_id s ≡ some n
    back (low, fits, e) =
        let exact = value-to_string n fits in
        let within : value 0 (to_string n) ≤ uint64_max = omega (arith, exact) in
        let found =
          accepted (to_string n) (to_string-Leads n fits low) (to_string-IsDigit n)
            (length-to_string n).1 within in
        rw e (rw exact at found)
