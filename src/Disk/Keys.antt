-- ===== src/Disk/Keys.antt =====
-- The keys of the log's database are apart, and its records are read as they were written.
use mathlib.Core.List.{append_assoc, append-nil}
use raft_kv.Base.{
  ◌⊎◌, ℕ, ◌-◌, ◌^◌, ◌≤◌, ◌<◌, ◌≡◌, ◌≢◌, refl, sym, ◌∙◌, ap, false, Option, none, some, [], ◌++◌,
  Bytes, same_bytes, same_bytes_sound, length, length-append, take, drop, take-length, drop-length,
  arith, Bool-cases, inl, inr, int32_max, int64_max, ◌==◌, if◌then◌else◌,
}
use raft_kv.Outcome.{ok}
use raft_kv.BigEndian.{write_u64, read_u64, read_u64-write_u64, length-write_u64}
use raft_kv.Disk.{
  index_to_key, snapshot_meta_key, snapshot_data_key, tail_key, snapshot_intent_key, encode_tail,
  first_field, second_field, write_le32, read_le32, encode_hard_state, decode_hard_state,
}

apart_by_length : (xs ys : Bytes) → length xs ≢ length ys → same_bytes xs ys ≡ false
apart_by_length xs ys h = elim (Bool-cases (same_bytes xs ys)) [
  | inl e ↦ absurd (h (ap length (same_bytes_sound xs ys e)))
  | inr e ↦ e
]

module _ (i : ℕ) where
  length-index_to_key : length (index_to_key i) ≡ 8
  unfolding index_to_key
  length-index_to_key = length-write_u64 i

  -- A name that is no key of an entry.
  pub index_not_name : (name : Bytes) → 9 ≤ length name → same_bytes (index_to_key i) name ≡ false
  index_not_name name h =
      apart_by_length (index_to_key i) name λ e. omega (arith, e, length-index_to_key)

  pub name_not_index : (name : Bytes) → 9 ≤ length name → same_bytes name (index_to_key i) ≡ false
  name_not_index name h =
      apart_by_length name (index_to_key i) λ e. omega (arith, e, length-index_to_key)

pub index_not_index :
    (i j : ℕ)
    → i ≤ int64_max
    → j ≤ int64_max
    → i ≢ j
    → same_bytes (index_to_key i) (index_to_key j) ≡ false
unfolding index_to_key
index_not_index i j hi hj h = elim (Bool-cases (same_bytes (write_u64 i) (write_u64 j))) [
  | inl e ↦
      let same = same_bytes_sound (write_u64 i) (write_u64 j) e in
      let a = read_u64-write_u64 i (omega arith) in
      let b = read_u64-write_u64 j (omega arith) in absurd (h (sym a ∙ (ap (read_u64 0) same ∙ b)))
  | inr e ↦ e
]

-- The fields of a record, whatever follows it.
module _ (index term : ℕ) (rest : Bytes) (low : index ≤ int64_max) (high : term ≤ int64_max) where
  pub first_field_lem : first_field (encode_tail index term ++ rest) ≡ index
  unfolding encode_tail
  first_field_lem =
      let split = append_assoc (write_u64 index) (write_u64 term) rest in
      let front =
        take-length (write_u64 index) (write_u64 term ++ rest) 8 (sym (length-write_u64 index)) in
      rw (split, front) (read_u64-write_u64 index (omega arith))

  pub second_field_lem : second_field (encode_tail index term ++ rest) ≡ term
  unfolding encode_tail
  second_field_lem =
      let split = append_assoc (write_u64 index) (write_u64 term) rest in
      let back =
        drop-length (write_u64 index) (write_u64 term ++ rest) 8 (sym (length-write_u64 index)) in
      let front = take-length (write_u64 term) rest 8 (sym (length-write_u64 term)) in
      rw (split, back, front) (read_u64-write_u64 term (omega arith))

pub tail_index :
    (index term : ℕ)
    → index ≤ int64_max
    → term ≤ int64_max
    → first_field (encode_tail index term) ≡ index
tail_index index term low high =
    let bare = append-nil (encode_tail index term) in
    rw bare at (first_field_lem index term [] low high)

pub tail_term :
    (index term : ℕ)
    → index ≤ int64_max
    → term ≤ int64_max
    → second_field (encode_tail index term) ≡ term
tail_term index term low high =
    let bare = append-nil (encode_tail index term) in
    rw bare at (second_field_lem index term [] low high)

pub length-encode_tail : (index term : ℕ) → length (encode_tail index term) ≡ 16
unfolding encode_tail
length-encode_tail index term = omega (
  arith,
  length-append (write_u64 index) (write_u64 term),
  length-write_u64 index,
  length-write_u64 term,
)

le32 : (n : ℕ) → n < 2 ^ 32 → read_le32 (write_le32 n) ≡ n
unfolding read_le32 write_le32
le32 n h = omega arith

abbrev pub IsVote : Option ℕ → Type 0
IsVote none = Unit
IsVote (some id) = id ≤ int32_max

-- What the fields of a hard state are, decides what is decoded.
decoded :
    (value : Bytes) (term vote : ℕ)
    → length value ≡ 8
    → read_le32 (take 4 value) ≡ term
    → read_le32 (drop 4 value) ≡ vote
    → term ≤ int32_max
    → vote ≤ int32_max ⊎ vote ≡ 2 ^ 32 - 1
    → decode_hard_state value
      ≡ ok (record { term = term; voted_for = if vote == 2 ^ 32 - 1 then none else some vote })
unfolding decode_hard_state
decoded value term vote size a b low (inl c) = ground (arith, size, a, b, low, c)
decoded value term vote size a b low (inr c) = ground (arith, size, a, b, low, c)

-- A hard state whose term and vote are of the source's int range, and whose vote may be missing, is read
-- as it was written.
pub decode_hard_state-encode_hard_state :
    (term : ℕ) (vote : Option ℕ)
    → term ≤ int32_max
    → IsVote vote
    → decode_hard_state (encode_hard_state (record { term = term; voted_for = vote }))
      ≡ ok (record { term = term; voted_for = vote })
unfolding encode_hard_state write_le32
decode_hard_state-encode_hard_state term none low h =
    decoded _ term (2 ^ 32 - 1) refl (le32 term (omega arith)) (le32 (2 ^ 32 - 1) (omega arith)) low
      (inr refl)
decode_hard_state-encode_hard_state term (some id) low h =
    let differs : (id == 2 ^ 32 - 1) ≡ false = ground arith in
    let read =
      decoded (write_le32 term ++ write_le32 id) term id refl (le32 term (omega arith))
        (le32 id (omega arith)) low (inl h) in
    rw differs at read

-- The names of the log's own records are apart.
pub tail-meta : same_bytes tail_key snapshot_meta_key ≡ false
unfolding same_bytes
tail-meta = refl

pub tail-data : same_bytes tail_key snapshot_data_key ≡ false
unfolding same_bytes
tail-data = refl

pub tail-intent : same_bytes tail_key snapshot_intent_key ≡ false
unfolding same_bytes
tail-intent = refl

pub data-meta : same_bytes snapshot_data_key snapshot_meta_key ≡ false
unfolding same_bytes
data-meta = refl

pub intent-meta : same_bytes snapshot_intent_key snapshot_meta_key ≡ false
unfolding same_bytes
intent-meta = refl

pub intent-data : same_bytes snapshot_intent_key snapshot_data_key ≡ false
unfolding same_bytes
intent-data = refl
