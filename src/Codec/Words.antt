-- ===== src/Codec/Words.antt =====
-- Four bytes and the number that they stand for.
use raft_kv.Base.{ℕ, ◌/◌, ◌%◌, ◌^◌, ◌<◌, ◌≡◌, refl, [], ◌∷◌, ◌++◌, Bytes, arith}
use raft_kv.Codec.{read_from, read_u32, write_before, write_u32}

-- The bytes of a word, written out.
pub write_u32_lem :
    (v : ℕ)
    → write_u32 v ≡ v / 256 / 256 / 256 % 256 ∷ v / 256 / 256 % 256 ∷ v / 256 % 256 ∷ v % 256 ∷ []
unfolding write_before
write_u32_lem v = refl

-- A word that was written is read back, whatever follows it.
pub read_u32-write_u32 : (v : ℕ) (rest : Bytes) → v < 2 ^ 32 → read_u32 (write_u32 v ++ rest) ≡ v
unfolding read_from write_before
read_u32-write_u32 v rest h = omega arith
