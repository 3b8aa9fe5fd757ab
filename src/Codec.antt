-- ===== src/Codec.antt =====
-- src/raft/raft_codec.h: the frames that carry Raft messages over TCP.
pub mod Words
pub mod Frames
use raft_kv.Base.{
  ℕ, zero, suc, ◌+◌, ◌-◌, ◌*◌, ◌/◌, ◌%◌, ◌^◌, ℤ, is_negative, pos_part, Bool, not, ◌||◌, Option,
  none, some, List, [], ◌∷◌, ◌++◌, Bytes, ltb, ◌==◌, if◌then◌else◌, length, get_elem?, take, drop,
  int32_max,
}

-- `RaftMsgType`.
pub data MsgType : Type 0 where
  request_vote request_vote_response : MsgType
  append_entries append_entries_response : MsgType
  install_snapshot install_snapshot_response : MsgType

-- The byte of a type, and `IsValidType` with the conversion back.
abbrev pub code : MsgType → ℕ
code request_vote = 0
code request_vote_response = 1
code append_entries = 2
code append_entries_response = 3
code install_snapshot = 4
code install_snapshot_response = 5

abbrev pub of_code : ℕ → Option MsgType
of_code b =
    if b == 0
    then some request_vote
    else if b == 1
    then some request_vote_response
    else if b == 2
    then some append_entries
    else if b == 3
    then some append_entries_response
    else if b == 4
    then some install_snapshot
    else if b == 5
    then some install_snapshot_response
    else none

-- `DecodedRaftMsg`.
pub record Frame : Type 0 where
  pub msg_type : MsgType
  pub sender_id : ℕ
  pub payload : Bytes

abbrev pub max_frame_size : ℕ
max_frame_size = 10 * 1024 * 1024

-- `ReadU32`: each step shifts the value, in 32 bits, and adds a byte.
unfoldable pub read_from : ℕ → Bytes → ℕ
read_from value [] = value
read_from value (b ∷ bs) = read_from (value * 256 % 2 ^ 32 + b) bs

abbrev pub read_u32 : Bytes → ℕ
read_u32 bytes = read_from 0 (take 4 bytes)

-- `WriteU32`, from the last byte on.
unfoldable pub write_before : ℕ → ℕ → Bytes → Bytes
write_before zero value bytes = bytes
write_before (suc k) value bytes = write_before k (value / 256) (value % 256 ∷ bytes)

abbrev pub write_u32 : ℕ → Bytes
write_u32 value = write_before 4 value []

-- The exceptions of `Encode`.
pub data Encoded : Type 0 where
  framed : Bytes → Encoded
  invalid_header too_large : Encoded

unfoldable pub encode : MsgType → ℤ → Bytes → Encoded
encode t sender payload =
    if is_negative sender
    then invalid_header
    else if ltb (max_frame_size - 5) (length payload)
    then too_large
    else framed
        (write_u32 (length payload + 5) ++ code t ∷ [] ++ write_u32 (pos_part sender) ++ payload)

-- `TryDecode`: `malformed` is an exception, and the number is what was consumed.
pub data Decoded : Type 0 where
  incomplete malformed : Decoded
  complete : Frame → ℕ → Decoded

unfoldable pub try_decode : Bytes → Decoded
try_decode bytes =
    let size = read_u32 bytes in
    let sender = read_u32 (drop 5 bytes) in
    if ltb (length bytes) 4
    then incomplete
    else if ltb size 5 || ltb max_frame_size size
    then malformed
    else if ltb (length bytes) (4 + size)
    then incomplete
    else elim (get_elem? bytes 4) [
      | none ↦ malformed
      | some b ↦ elim (of_code b) [
        | none ↦ malformed
        | some t ↦
            if ltb int32_max sender
            then malformed
            else complete
                (record {
                  msg_type = t;
                  sender_id = sender;
                  payload = take (size - 5) (drop 9 bytes);
                })
                (4 + size)
      ]
    ]
