-- ===== src/BigEndian.antt =====
-- Numbers of 64 bits as eight bytes, the highest first, as the stores of src/storage/rocksdb_store.cpp,
-- src/raft/kv_state_machine.cc and src/raftcore/raft_log.cc write and read them in their loops.
use raft_kv.Base.{
  ℕ, zero, suc, ◌+◌, ◌*◌, ◌/◌, ◌%◌, ◌^◌, ◌<◌, ◌≡◌, refl, [], ◌∷◌, ◌++◌, Bytes, length, arith,
  length-append,
}

-- The last `width` bytes of a number.
unfoldable pub big_endian : ℕ → ℕ → Bytes
big_endian zero n = []
big_endian (suc width) n = big_endian width (n / 256) ++ (n % 256) ∷ []

unfoldable pub write_u64 : ℕ → Bytes
write_u64 n = big_endian 8 n

-- `value = (value << 8) | byte`, in 64 bits.
unfoldable pub read_u64 : ℕ → Bytes → ℕ
read_u64 value [] = value
read_u64 value (b ∷ bytes) = read_u64 ((value * 256 + b) % 2 ^ 64) bytes

read_u64-append : (v : ℕ) (xs ys : Bytes) → read_u64 v (xs ++ ys) ≡ read_u64 (read_u64 v xs) ys
unfolding read_u64
read_u64-append v [] ys = refl
read_u64-append v (x ∷ xs) ys = read_u64-append ((v * 256 + x) % 2 ^ 64) xs ys

length-big_endian : (width n : ℕ) → length (big_endian width n) ≡ width
unfolding big_endian
length-big_endian zero n = refl
length-big_endian (suc width) n = omega (
  arith,
  length-append (big_endian width (n / 256)) ((n % 256) ∷ []),
  length-big_endian width (n / 256),
)

read_u64-big_endian :
    (width n : ℕ) → n < 256 ^ width → n < 2 ^ 64 → read_u64 0 (big_endian width n) ≡ n
unfolding big_endian read_u64
read_u64-big_endian zero n small fits = omega arith
read_u64-big_endian (suc width) n small fits =
    let ih = read_u64-big_endian width (n / 256) (omega arith) (omega arith) in
    let split = read_u64-append 0 (big_endian width (n / 256)) ((n % 256) ∷ []) in
    grind (arith, ih, split)

pub length-write_u64 : (n : ℕ) → length (write_u64 n) ≡ 8
unfolding write_u64
length-write_u64 n = length-big_endian 8 n

-- What was written is read back.
pub read_u64-write_u64 : (n : ℕ) → n < 2 ^ 64 → read_u64 0 (write_u64 n) ≡ n
unfolding write_u64
read_u64-write_u64 n fits = read_u64-big_endian 8 n (omega arith) fits
