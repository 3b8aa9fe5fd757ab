-- ===== src/Sessions/Buffer.antt =====
-- CommandBuffer: the buffer as a queue of bytes.
use mathlib.Core.List.{append-nil}
use raft_kv.Base.{
  ℕ, ◌+◌, ◌≤◌, ◌≡◌, refl, sym, ◌∙◌, ap, Bool, true, false, inl, inr, ◌⊎◌, drop-all, ℕ_discrete,
  dec_lt, lt→ltb, not_lt→ltb, Option, none, some, List, [], ◌∷◌, ◌++◌, Bytes, ltb, ◌==◌, not, ◌&&◌,
  if◌then◌else◌, length, drop, length-append, length-drop, drop-drop, arith,
}
use raft_kv.Resp.{Parsed, complete, try_parse_one}
use raft_kv.Resp.Commands.{try_parse_one_within, Parsed-cases}
use raft_kv.Sessions.{
  CommandBuffer, empty_buffer, unread_bytes, append, consume, next, max_buffered_bytes,
}

-- What has arrived and was not consumed.
abbrev pub unread : CommandBuffer → Bytes
unread b = drop b.offset b.bytes

pub record IsValid (b : CommandBuffer) : Type 0 where
  pub within : b.offset ≤ length b.bytes
  pub bounded : length (unread b) ≤ max_buffered_bytes

pub empty_buffer-IsValid : IsValid empty_buffer
empty_buffer-IsValid = record { within = omega arith; bounded = omega arith }

-- The specification: a queue of at most 4 MiB.
unfoldable pub append_bytes : Bytes → Bytes → Option Bytes
append_bytes chunk u =
    if ltb max_buffered_bytes (length u + length chunk) && not (length chunk == 0)
    then none
    else some (u ++ chunk)

abbrev pub rest_of : Parsed → Bytes → Bytes
rest_of (complete args consumed) u = drop consumed u
rest_of _ u = u

unfoldable pub next_bytes : Bytes → Bytes × Parsed
next_bytes u = (rest_of (try_parse_one u) u, try_parse_one u)

unread_bytes_lem : (b : CommandBuffer) → IsValid b → unread_bytes b ≡ length (unread b)
unfolding unread_bytes
unread_bytes_lem b h =
    let inside = h.within in
    let small = h.bounded in omega (arith, inside, small, length-drop b.offset b.bytes)

-- Consuming moves on in what is unread, on each way that the buffer is kept.
pub consume_unread :
    (b : CommandBuffer) (n : ℕ)
    → IsValid b
    → n ≤ length (unread b)
    → IsValid (consume n b) × (unread (consume n b) ≡ drop n (unread b))
unfolding consume
consume_unread b n h fits =
    let inside = h.within in
    let small = h.bounded in
    let moved = drop-drop b.offset n (b.offset + n) b.bytes refl in
    let long = length-drop b.offset b.bytes in
    let left = length-drop (b.offset + n) b.bytes in
    let none_left = drop-all (b.offset + n) b.bytes in
    ground (arith, inside, small, moved, long, left, none_left)

-- The bytes of a decoded command are there.
pub next_unread :
    (b : CommandBuffer)
    → IsValid b
    → IsValid (next b).0
      × (unread (next b).0 ≡ (next_bytes (unread b)).0)
      × ((next b).1 ≡ (next_bytes (unread b)).1)
unfolding next next_bytes
next_unread b h = elim (Parsed-cases (try_parse_one (unread b))) [
  | inl e ↦ rw e (h, refl, refl)
  | inr (inl (args, n, e)) ↦
      let fits = (try_parse_one_within (unread b) args n e).3 in
      let (valid, same) = consume_unread b n h fits in rw e (valid, same, refl)
  | inr (inr (m, e)) ↦ rw e (h, refl, refl)
]

kept_unread :
    (b : CommandBuffer) → (if b.offset == 0 then b.bytes else drop b.offset b.bytes) ≡ unread b
kept_unread b = elim (ℕ_discrete b.offset 0) [ yes e ↦ rw e refl | no e ↦ ground arith ]

append_empty : (b : CommandBuffer) → append [] b ≡ some b
unfolding append
append_empty b = refl

append_bytes_empty : (u : Bytes) → append_bytes [] u ≡ some u
unfolding append_bytes
append_bytes_empty u = let same = append-nil u in ground (arith, same)

-- What `Append` returns for a chunk that is not empty.
append_of :
    (chunk : Bytes) (b : CommandBuffer)
    → IsValid b
    → 1 ≤ length chunk
    → append chunk b ≡ (
        if ltb max_buffered_bytes (length (unread b) + length chunk)
        then none
        else some (record { bytes = unread b ++ chunk; offset = 0 }))
unfolding append
append_of chunk b h some_bytes =
    let small = h.bounded in
    rw (kept_unread b, unread_bytes_lem b h) (ground (arith, small, some_bytes))

-- `Append` refuses when the specification does, and else adds the chunk at the end.
pub append_unread :
    (chunk : Bytes) (b : CommandBuffer)
    → IsValid b
    → ((append chunk b ≡ none) × (append_bytes chunk (unread b) ≡ none))
      ⊎ ((c : CommandBuffer) × (append chunk b ≡ some c)
          × IsValid c
          × (append_bytes chunk (unread b) ≡ some (unread c)))
append_unread [] b h = inr (b, append_empty b, h, append_bytes_empty (unread b))
append_unread (x ∷ xs) b h =
    let code = append_of (x ∷ xs) b h (omega arith) in
    let sum = length-append (unread b) (x ∷ xs) in
    elim (dec_lt max_buffered_bytes (length (unread b) + length (x ∷ xs))) [
      | yes over ↦
          inl (
            rw (lt→ltb _ _ over) at code,
            unfold append_bytes in rw (lt→ltb _ _ over) (ground arith),
          )
      | no fits ↦
          let c : CommandBuffer = record { bytes = unread b ++ (x ∷ xs); offset = 0 } in
          let valid : IsValid c = record { within = omega arith; bounded = omega (arith, sum) } in
          inr (
            c,
            rw (not_lt→ltb _ _ fits) at code,
            valid,
            unfold append_bytes in rw (not_lt→ltb _ _ fits) refl,
          )
    ]

pub append_whole :
    (chunk : Bytes) (b c : CommandBuffer)
    → IsValid b
    → append chunk b ≡ some c
    → unread c ≡ unread b ++ chunk
unfolding append_bytes
append_whole chunk b c h e = elim (append_unread chunk b h) [
  | inl (refused, same) ↦ cc (e, refused)
  | inr (d, there, valid, same) ↦
      let one : d ≡ c = cc (e, there) in
      let whole : unread b ++ chunk ≡ unread d = ground (arith, same) in
      ap unread (sym one) ∙ sym whole
]

-- Calls of the buffer, and what they answer.
pub data Call : Type 0 where
  append_call : Bytes → Call
  next_call : Call

pub data Answer : Type 0 where
  appended : Bool → Answer
  answered : Parsed → Answer

abbrev pub append_answer {ℓ} : {B : Type ℓ} → B → Option B → B × Answer
append_answer b none = (b, appended false)
append_answer b (some c) = (c, appended true)

unfoldable pub answer_call : Call → CommandBuffer → CommandBuffer × Answer
answer_call (append_call chunk) b = append_answer b (append chunk b)
answer_call next_call b = let (c, p) = next b in (c, answered p)

unfoldable pub answer_bytes : Call → Bytes → Bytes × Answer
answer_bytes (append_call chunk) u = append_answer u (append_bytes chunk u)
answer_bytes next_call u = let (v, p) = next_bytes u in (v, answered p)

-- The answers of a history, and the buffer that it leaves.
unfoldable pub answer_all : List Call → CommandBuffer → CommandBuffer × List Answer
answer_all [] b = (b, [])
answer_all (call ∷ calls) b =
    let (c, answer) = answer_call call b in
    let (d, answers) = answer_all calls c in (d, answer ∷ answers)

unfoldable pub answer_all_bytes : List Call → Bytes → Bytes × List Answer
answer_all_bytes [] u = (u, [])
answer_all_bytes (call ∷ calls) u =
    let (v, answer) = answer_bytes call u in
    let (w, answers) = answer_all_bytes calls v in (w, answer ∷ answers)

answer_call_refines :
    (call : Call) (b : CommandBuffer)
    → IsValid b
    → IsValid (answer_call call b).0
      × (unread (answer_call call b).0 ≡ (answer_bytes call (unread b)).0)
      × ((answer_call call b).1 ≡ (answer_bytes call (unread b)).1)
unfolding answer_call answer_bytes
answer_call_refines (append_call chunk) b h = elim (append_unread chunk b h) [
  | inl (e, f) ↦ rw (e, f) (h, refl, refl)
  | inr (c, e, valid, f) ↦ rw (e, f) (valid, refl, refl)
]
answer_call_refines next_call b h =
    let (valid, left, answer) = next_unread b h in (valid, left, ap answered answer)

answer_all_refines_from :
    (calls : List Call) (b : CommandBuffer)
    → IsValid b
    → IsValid (answer_all calls b).0
      × (unread (answer_all calls b).0 ≡ (answer_all_bytes calls (unread b)).0)
      × ((answer_all calls b).1 ≡ (answer_all_bytes calls (unread b)).1)
unfolding answer_all answer_all_bytes
answer_all_refines_from [] b h = (h, refl, refl)
answer_all_refines_from (call ∷ calls) b h =
    let (valid, left, answer) = answer_call_refines call b h in
    let (valid', left', answers) = answer_all_refines_from calls (answer_call call b).0 valid in
    rw (sym left, sym answer) (valid', left', ap (λ as'. (answer_call call b).1 ∷ as') answers)

-- Whatever is appended and taken, a new buffer answers as a queue of at most 4 MiB of bytes does, and
-- holds what that queue holds; its cursor stays within its bytes.
pub answer_all_refines :
    (calls : List Call)
    → IsValid (answer_all calls empty_buffer).0
      × (unread (answer_all calls empty_buffer).0 ≡ (answer_all_bytes calls []).0)
      × ((answer_all calls empty_buffer).1 ≡ (answer_all_bytes calls []).1)
answer_all_refines calls = answer_all_refines_from calls empty_buffer empty_buffer-IsValid
