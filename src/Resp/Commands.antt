-- ===== src/Resp/Commands.antt =====
-- Whole commands: round trip, more bytes behind them, parts of them, and bounds.
use mathlib.Core.List.{append_assoc, append-nil}
use raft_kv.Base.{
  ℕ, zero, suc, ◌+◌, ◌≤◌, ◌<◌, ◌≡◌, ◌≢◌, refl, sym, ◌∙◌, subst, ap, [], ◌∷◌, ◌++◌, List, Bytes,
  length, length-append, drop, drop-append_left, length-drop, drop-length, arith, inl, inr, ◌⊎◌,
}
use raft_kv.Decimal.{to_string}
use raft_kv.Resp.{
  number_got, number, Bulk, bulk_more, bulk_got, bulk_invalid, read_bulk, bulk, bulks, crlf,
  max_command_bytes, max_arguments, Parsed, need_more, complete, invalid, prepend, parse_bulks,
  try_parse_one, serialize_command,
}
use raft_kv.Resp.Numbers.{number-append, number_within, number_short, number-to_string, drop-line}
use raft_kv.Resp.Bulks.{Number-cases, read_bulk-append, read_bulk_within, read_bulk-bulk}

pub Bulk-cases :
    (b : Bulk)
    → (b ≡ bulk_more)
      ⊎ ((m : Bytes) × (b ≡ bulk_invalid m))
      ⊎ ((a : Bytes) × (used : ℕ) × (b ≡ bulk_got a used))
Bulk-cases bulk_more = inl refl
Bulk-cases (bulk_invalid m) = inr (inl (m, refl))
Bulk-cases (bulk_got a used) = inr (inr (a, used, refl))

abbrev pub Settled : Parsed → Type 0
Settled need_more = ⊥
Settled _ = Unit

Settled-prepend : (a : Bytes) (p : Parsed) → Settled (prepend a p) → Settled p
Settled-prepend a need_more h = h
Settled-prepend a (complete args n) h = tt
Settled-prepend a (invalid m) h = tt

-- One round of the loop.
module _ (count pos : ℕ) (bytes : Bytes) where
  parse_bulks_more : read_bulk pos bytes ≡ bulk_more → parse_bulks (suc count) pos bytes ≡ need_more
  unfolding parse_bulks
  parse_bulks_more e = rw (e, parse_bulks) refl

  parse_bulks_invalid :
      (m : Bytes)
      → read_bulk pos bytes ≡ bulk_invalid m
      → parse_bulks (suc count) pos bytes ≡ invalid m
  unfolding parse_bulks
  parse_bulks_invalid m e = rw (e, parse_bulks) refl

  parse_bulks_got :
      (a : Bytes) (used : ℕ)
      → read_bulk pos bytes ≡ bulk_got a used
      → parse_bulks (suc count) pos bytes
        ≡ prepend a (parse_bulks count (pos + used) (drop used bytes))
  unfolding parse_bulks
  parse_bulks_got a used e = rw (e, parse_bulks) refl

parse_bulks-append :
    (count pos : ℕ) (xs ys : Bytes)
    → Settled (parse_bulks count pos xs)
    → parse_bulks count pos (xs ++ ys) ≡ parse_bulks count pos xs
parse_bulks-append zero pos xs ys h = unfold parse_bulks in refl
parse_bulks-append (suc count) pos xs ys h = elim (Bulk-cases (read_bulk pos xs)) [
  | inl e ↦ absurd (subst Settled (parse_bulks_more count pos xs e) h)
  | inr (inl (m, e)) ↦
      let same = read_bulk-append pos xs ys (rw e tt) in
      let there = parse_bulks_invalid count pos (xs ++ ys) m (same ∙ e) in
      cc (there, parse_bulks_invalid count pos xs m e)
  | inr (inr (a, used, e)) ↦
      let same = read_bulk-append pos xs ys (rw e tt) in
      let here = parse_bulks_got count pos xs a used e in
      let there = parse_bulks_got count pos (xs ++ ys) a used (same ∙ e) in
      let fits = (read_bulk_within pos xs a used e).0 in
      let later =
        parse_bulks-append count (pos + used) (drop used xs) ys
          (Settled-prepend a _ (subst Settled here h)) in
      cc (here, there, later, drop-append_left used xs ys fits)
]

-- The loop behind the count.
try_parse_one_of :
    (raw : Bytes) (count used : ℕ)
    → number b'*' max_arguments raw ≡ number_got (suc count) used
    → try_parse_one raw ≡ parse_bulks (suc count) used (drop used raw)
unfolding try_parse_one
try_parse_one_of raw count used e = ground (arith, e)

-- A decoded or refused command stays so, whatever bytes follow: how the stream is cut into receives
-- does not matter.
pub try_parse_one-append :
    (xs ys : Bytes) → try_parse_one xs ≢ need_more → try_parse_one (xs ++ ys) ≡ try_parse_one xs
unfolding try_parse_one
try_parse_one-append xs ys h = elim (Number-cases (number b'*' max_arguments xs)) [
  | inl e ↦ absurd (h (rw (e, try_parse_one) refl))
  | inr (inl e) ↦
      let same = number-append b'*' max_arguments xs ys (rw e tt) in
      rw (same, e, try_parse_one) refl
  | inr (inr (zero, used, e)) ↦
      let same = number-append b'*' max_arguments xs ys (rw e tt) in
      rw (same, e, try_parse_one) refl
  | inr (inr (suc count, used, e)) ↦
      let same = number-append b'*' max_arguments xs ys (rw e tt) in
      let fits = (number_within b'*' max_arguments (suc count) used xs e).1 in
      let here = try_parse_one_of xs count used e in
      let there = try_parse_one_of (xs ++ ys) count used (same ∙ e) in
      let later =
        parse_bulks-append (suc count) used (drop used xs) ys (Settled_of _ λ k. h (here ∙ k)) in
      cc (here, there, later, drop-append_left used xs ys fits)
]
  where
    Settled_of : (p : Parsed) → p ≢ need_more → Settled p
    Settled_of need_more k = k refl
    Settled_of (complete args n) k = tt
    Settled_of (invalid m) k = tt

-- Bytes of arguments.
abbrev pub retained : List Bytes → ℕ
retained [] = 0
retained (a ∷ args) = length a + retained args

prepend_inv :
    (a : Bytes) (p : Parsed) (args : List Bytes) (n : ℕ)
    → prepend a p ≡ complete args n
    → (rest : List Bytes) × (args ≡ a ∷ rest) × (p ≡ complete rest n)
prepend_inv a need_more args n h = cc
prepend_inv a (invalid m) args n h = cc
prepend_inv a (complete rest k) args n h = (rest, cc, cc)

parse_bulks_within :
    (count pos : ℕ) (bytes : Bytes) (args : List Bytes) (n : ℕ)
    → pos ≤ max_command_bytes
    → parse_bulks count pos bytes ≡ complete args n
    → (length args ≡ count)
      × (pos + retained args ≤ n)
      × (n ≤ pos + length bytes)
      × (n ≤ max_command_bytes)
parse_bulks_within zero pos bytes args n low h = unfold parse_bulks in ground arith
parse_bulks_within (suc count) pos bytes args n low h = elim (Bulk-cases (read_bulk pos bytes)) [
  | inl e ↦ cc (parse_bulks_more count pos bytes e, h)
  | inr (inl (m, e)) ↦ cc (parse_bulks_invalid count pos bytes m e, h)
  | inr (inr (a, used, e)) ↦
      let (fits, small, long) = read_bulk_within pos bytes a used e in
      let here = sym (parse_bulks_got count pos bytes a used e) ∙ h in
      let (rest, same, later) = prepend_inv a _ args n here in
      let ih = parse_bulks_within count (pos + used) (drop used bytes) rest n small later in
      omega (arith, ap length same, ap retained same, ih, long, fits, length-drop used bytes)
]

-- A decoded command has from 1 to 1024 arguments, and is at most 1 MiB long, its frame included;
-- what is consumed was there, and is more than the arguments.
pub try_parse_one_within :
    (raw : Bytes) (args : List Bytes) (n : ℕ)
    → try_parse_one raw ≡ complete args n
    → (1 ≤ length args)
      × (length args ≤ max_arguments)
      × (retained args < n)
      × (n ≤ length raw)
      × (n ≤ max_command_bytes)
unfolding try_parse_one
try_parse_one_within raw args n h = elim (Number-cases (number b'*' max_arguments raw)) [
  | inl e ↦ cc (e, h)
  | inr (inl e) ↦ cc (e, h)
  | inr (inr (zero, used, e)) ↦ ground (arith, e, h)
  | inr (inr (suc count, used, e)) ↦
      let (few, fits) = number_within b'*' max_arguments (suc count) used raw e in
      let here = sym (try_parse_one_of raw count used e) ∙ h in
      let (some_bytes, short) = number_short b'*' max_arguments (suc count) used raw e in
      omega (
        arith,
        few,
        fits,
        some_bytes,
        length-drop used raw,
        parse_bulks_within (suc count) used (drop used raw) args n (omega arith) here,
      )
]

parse_bulks-bulks :
    (args : List Bytes) (pos : ℕ) (rest : Bytes)
    → pos + length (bulks args) ≤ max_command_bytes
    → parse_bulks (length args) pos (bulks args ++ rest) ≡ complete args (pos + length (bulks args))
parse_bulks-bulks [] pos rest fits = unfold parse_bulks bulks in ground arith
parse_bulks-bulks (a ∷ args) pos rest fits =
    let used = length (bulk a) in
    let behind = bulks args ++ rest in
    let whole : bulks (a ∷ args) ++ rest ≡ bulk a ++ behind =
      unfold bulks in append_assoc (bulk a) (bulks args) rest in
    let long : length (bulks (a ∷ args)) ≡ used + length (bulks args) =
      unfold bulks in length-append (bulk a) (bulks args) in
    let step =
      parse_bulks_got (length args) pos (bulk a ++ behind) a used
        (read_bulk-bulk pos a behind (omega (arith, long))) in
    let skip = drop-length (bulk a) behind used refl in
    let later = parse_bulks-bulks args (pos + used) rest (omega (arith, long)) in
    let total : pos + used + length (bulks args) ≡ pos + length (bulks (a ∷ args)) =
      omega (arith, long) in
    cc (whole, step, skip, later, total)

-- A printed command at the front of any buffer is decoded to its arguments, and just its bytes are
-- consumed: for 1 to 1024 arguments and at most 1 MiB.
pub try_parse_one-serialize_command :
    (args : List Bytes) (rest : Bytes)
    → 1 ≤ length args
    → length args ≤ max_arguments
    → length (serialize_command args) ≤ max_command_bytes
    → try_parse_one (serialize_command args ++ rest)
      ≡ complete args (length (serialize_command args))
unfolding serialize_command
try_parse_one-serialize_command [] rest low high fits = absurd (omega arith)
try_parse_one-serialize_command (a ∷ args) rest low high fits =
    let n = length (a ∷ args) in
    let ds = to_string n in
    let tail = bulks (a ∷ args) ++ rest in
    let raw = (b'*' ∷ ds) ++ (crlf ++ tail) in
    let whole : serialize_command (a ∷ args) ++ rest ≡ raw = simp append_assoc in
    let long : length (serialize_command (a ∷ args)) ≡ length ds + 3 + length (bulks (a ∷ args)) =
      omega (arith, length-append (ds ++ crlf) (bulks (a ∷ args)), length-append ds crlf) in
    let line = number-to_string b'*' max_arguments n tail (omega arith) high (omega arith) in
    let step = try_parse_one_of raw (length args) (length ds + 3) line in
    let behind = drop-line b'*' ds tail in
    let loop = parse_bulks-bulks (a ∷ args) (length ds + 3) rest (omega (arith, long)) in
    cc (whole, step, behind, loop, long)

pub Parsed-cases :
    (p : Parsed)
    → (p ≡ need_more)
      ⊎ ((args : List Bytes) × (n : ℕ) × (p ≡ complete args n))
      ⊎ ((m : Bytes) × (p ≡ invalid m))
Parsed-cases need_more = inl refl
Parsed-cases (complete args n) = inr (inl (args, n, refl))
Parsed-cases (invalid m) = inr (inr (m, refl))

-- While a printed command of 1 to 1024 arguments and at most 1 MiB arrives, and a byte of it is missing,
-- the decoder waits: it neither refuses it nor takes it for a shorter one.
pub try_parse_one_partial :
    (args : List Bytes) (xs ys : Bytes)
    → 1 ≤ length args
    → length args ≤ max_arguments
    → length (serialize_command args) ≤ max_command_bytes
    → xs ++ ys ≡ serialize_command args
    → 1 ≤ length ys
    → try_parse_one xs ≡ need_more
try_parse_one_partial args xs ys low high fits e missing =
    let raw = serialize_command args in
    let whole : try_parse_one raw ≡ complete args (length raw) =
      rw append-nil at (try_parse_one-serialize_command args [] low high fits) in
    elim (Parsed-cases (try_parse_one xs)) [
      | inl k ↦ k
      | inr (inl (args', n, k)) ↦
          let same = try_parse_one-append xs ys λ m. cc (m, k) in
          let within = try_parse_one_within xs args' n k in
          let size : n ≡ length (serialize_command args) = cc (whole, same, k, e) in
          absurd (omega (arith, within, size, ap length e, length-append xs ys))
      | inr (inr (m, k)) ↦
          let same = try_parse_one-append xs ys λ m'. cc (m', k) in cc (whole, same, k, e)
    ]
