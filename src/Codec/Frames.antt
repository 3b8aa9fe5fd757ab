-- ===== src/Codec/Frames.antt =====
-- RaftCodec: encoding and decoding of frames.
use raft_kv.Base.{
  ℕ, ◌+◌, ◌-◌, ◌≤◌, ◌≡◌, refl, ap, pos, some, [], ◌∷◌, ◌++◌, Bytes, arith, length, length-append,
  get_elem?, take, drop, int32_max,
}
use raft_kv.Codec.{
  MsgType, code, of_code, max_frame_size, read_u32, write_u32, write_before, encode, framed,
  try_decode, complete,
}
use raft_kv.Codec.Words.{read_u32-write_u32}

of_code-code : (t : MsgType) → of_code (code t) ≡ some t
of_code-code MsgType.request_vote = refl
of_code-code MsgType.request_vote_response = refl
of_code-code MsgType.append_entries = refl
of_code-code MsgType.append_entries_response = refl
of_code-code MsgType.install_snapshot = refl
of_code-code MsgType.install_snapshot_response = refl

take-append : (xs ys : Bytes) → take (length xs) (xs ++ ys) ≡ xs
take-append [] ys = refl
take-append (x ∷ xs) ys = ap (λ zs. x ∷ zs) (take-append xs ys)

-- The bytes of a frame.
abbrev pub frame_bytes : MsgType → ℕ → Bytes → Bytes
frame_bytes t sender payload =
    write_u32 (length payload + 5) ++ code t ∷ [] ++ write_u32 sender ++ payload

-- What the fields of a buffer are, decides what is decoded.
decoded :
    (bytes : Bytes) (size sender : ℕ) (t : MsgType) (payload : Bytes)
    → read_u32 bytes ≡ size
    → read_u32 (drop 5 bytes) ≡ sender
    → get_elem? bytes 4 ≡ some (code t)
    → take (size - 5) (drop 9 bytes) ≡ payload
    → 5 ≤ size
    → size ≤ max_frame_size
    → 4 + size ≤ length bytes
    → sender ≤ int32_max
    → try_decode bytes
      ≡ complete (record { msg_type = t; sender_id = sender; payload = payload }) (4 + size)
unfolding try_decode
decoded bytes size sender t payload a b c d lo hi fits small =
    let valid = of_code-code t in grind (arith, a, b, c, d, valid)

-- A frame at the front of a buffer is decoded to what was encoded, and just its bytes are consumed.
pub try_decode-encode :
    (t : MsgType) (sender : ℕ) (payload rest bytes : Bytes)
    → sender ≤ int32_max
    → encode t (pos sender) payload ≡ framed bytes
    → try_decode (bytes ++ rest)
      ≡ complete (record { msg_type = t; sender_id = sender; payload = payload }) (length bytes)
unfolding encode write_before
try_decode-encode t sender payload rest bytes small h =
    let same : bytes ≡ frame_bytes t sender payload = ground arith in
    let fits : length payload ≤ max_frame_size - 5 = ground arith in
    let size = length payload + 5 in
    let whole = frame_bytes t sender payload ++ rest in
    let a : read_u32 whole ≡ size =
      read_u32-write_u32 size (code t ∷ write_u32 sender ++ payload ++ rest) (omega arith) in
    let b : read_u32 (drop 5 whole) ≡ sender =
      read_u32-write_u32 sender (payload ++ rest) (omega arith) in
    let d : take (size - 5) (drop 9 whole) ≡ payload =
      let even : size - 5 ≡ length payload = omega arith in rw even (take-append payload rest) in
    let long : length whole ≡ 9 + length payload + length rest =
      omega (arith, length-append payload rest) in
    let count : length bytes ≡ 4 + size = omega (arith, ap length same) in
    rw (count, same)
      (decoded whole size sender t payload a b refl d (omega arith) (omega arith)
        (omega (arith, long)) small)
