-- ===== src/Resp/Bulks.antt =====
-- The arguments of the decoder: more bytes behind them, bounds, and their printed form.
use mathlib.Core.List.{append_assoc}
use raft_kv.Base.{
  ℕ, ◌+◌, ◌≤◌, ◌≡◌, refl, sym, ◌∙◌, subst, ◌∷◌, ◌++◌, Bytes, length, length-append, get_elem?, drop,
  length-take, take-append_left, drop-append_left, take-length, length-drop, get_elem?-append_left,
  get_elem?-append_right, arith, inl, inr, ◌⊎◌, some,
}
use raft_kv.Decimal.{to_string}
use raft_kv.Resp.{
  Number, number_more, number_invalid, number_got, number, Bulk, bulk_more, bulk_got, read_body,
  read_bulk, bulk, crlf, max_command_bytes,
}
use raft_kv.Resp.Numbers.{number-append, number_within, number-to_string, drop-line}

pub Number-cases :
    (x : Number)
    → (x ≡ number_more) ⊎ (x ≡ number_invalid) ⊎ ((v : ℕ) × (used : ℕ) × (x ≡ number_got v used))
Number-cases number_more = inl refl
Number-cases number_invalid = inr (inl refl)
Number-cases (number_got v used) = inr (inr (v, used, refl))

abbrev pub BulkSettled : Bulk → Type 0
BulkSettled bulk_more = ⊥
BulkSettled _ = Unit

read_body-append :
    (at size used : ℕ) (xs ys : Bytes)
    → BulkSettled (read_body at xs size used)
    → read_body at (xs ++ ys) size used ≡ read_body at xs size used
unfolding read_body
read_body-append at size used xs ys h = ground (
  arith,
  h,
  length-append xs ys,
  get_elem?-append_left xs ys size,
  get_elem?-append_left xs ys (size + 1),
  take-append_left size xs ys,
)

read_bulk_of :
    (pos : ℕ) (bytes : Bytes) (size used : ℕ)
    → number b'$' max_command_bytes bytes ≡ number_got size used
    → read_bulk pos bytes ≡ read_body (pos + used) (drop used bytes) size used
unfolding read_bulk
read_bulk_of pos bytes size used e = rw (read_bulk, e) refl

-- What was made of an argument stays so whatever follows.
pub read_bulk-append :
    (pos : ℕ) (xs ys : Bytes)
    → BulkSettled (read_bulk pos xs)
    → read_bulk pos (xs ++ ys) ≡ read_bulk pos xs
unfolding read_bulk
read_bulk-append pos xs ys h = elim (Number-cases (number b'$' max_command_bytes xs)) [
  | inl e ↦ ground (arith, e, h)
  | inr (inl e) ↦ let same = number-append b'$' max_command_bytes xs ys (rw e tt) in cc (same, e)
  | inr (inr (size, used, e)) ↦
      let same = number-append b'$' max_command_bytes xs ys (rw e tt) in
      let fits = (number_within b'$' max_command_bytes size used xs e).1 in
      let here = read_bulk_of pos xs size used e in
      let there = read_bulk_of pos (xs ++ ys) size used (same ∙ e) in
      let settled : BulkSettled (read_body (pos + used) (drop used xs) size used) =
        subst BulkSettled here h in
      let body = read_body-append (pos + used) size used (drop used xs) ys settled in
      cc (here, there, body, drop-append_left used xs ys fits)
]

read_body_within :
    (at size used : ℕ) (body a : Bytes) (n : ℕ)
    → read_body at body size used ≡ bulk_got a n
    → (n ≡ used + size + 2)
      × (at + size + 2 ≤ max_command_bytes)
      × (size + 2 ≤ length body)
      × (length a ≡ size)
unfolding read_body
read_body_within at size used body a n h = ground (arith, length-take size body)

-- An accepted argument and its frame stand within the bytes and within the limit of a command.
pub read_bulk_within :
    (pos : ℕ) (bytes a : Bytes) (used : ℕ)
    → read_bulk pos bytes ≡ bulk_got a used
    → (used ≤ length bytes) × (pos + used ≤ max_command_bytes) × (length a ≤ used)
unfolding read_bulk
read_bulk_within pos bytes a used h = elim (Number-cases (number b'$' max_command_bytes bytes)) [
  | inl e ↦ ground (arith, e, h)
  | inr (inl e) ↦ ground (arith, e, h)
  | inr (inr (size, line, e)) ↦
      let fits = (number_within b'$' max_command_bytes size line bytes e).1 in
      let body : read_body (pos + line) (drop line bytes) size line ≡ bulk_got a used =
        sym (read_bulk_of pos bytes size line e) ∙ h in
      omega (
        arith,
        fits,
        read_body_within (pos + line) size line (drop line bytes) a used body,
        length-drop line bytes,
      )
]

read_body-value :
    (at used n : ℕ) (a rest : Bytes)
    → at + length a + 2 ≤ max_command_bytes
    → used + length a + 2 ≡ n
    → read_body at (a ++ (crlf ++ rest)) (length a) used ≡ bulk_got a n
unfolding read_body
read_body-value at used n a rest fits e =
    let body = a ++ (crlf ++ rest) in
    let cr : get_elem? body (length a) ≡ some b'\r' =
      get_elem?-append_right a (crlf ++ rest) 0 (length a) (omega arith) in
    let lf : get_elem? body (length a + 1) ≡ some b'\n' =
      get_elem?-append_right a (crlf ++ rest) 1 (length a + 1) refl in
    let long = length-append a (crlf ++ rest) in
    ground (arith, cr, lf, long, take-length a (crlf ++ rest) (length a) refl)

-- A printed argument is read as it was, and just its bytes are consumed.
pub read_bulk-bulk :
    (pos : ℕ) (a rest : Bytes)
    → pos + length (bulk a) ≤ max_command_bytes
    → read_bulk pos (bulk a ++ rest) ≡ bulk_got a (length (bulk a))
unfolding bulk
read_bulk-bulk pos a rest fits =
    let ds = to_string (length a) in
    let tail = a ++ (crlf ++ rest) in
    let whole : bulk a ++ rest ≡ (b'$' ∷ ds) ++ (crlf ++ tail) = simp append_assoc in
    let long : length (bulk a) ≡ length ds + 3 + length a + 2 = omega (
      arith,
      length-append (ds ++ crlf ++ a) crlf,
      length-append (ds ++ crlf) a,
      length-append ds crlf,
    ) in
    let line =
      number-to_string b'$' max_command_bytes (length a) tail (omega arith) (omega arith)
        (omega arith) in
    let behind = drop-line b'$' ds tail in
    let body =
      read_body-value (pos + (length ds + 3)) (length ds + 3) (length (bulk a)) a rest
        (omega (arith, long)) (sym long) in
    let step = read_bulk_of pos ((b'$' ∷ ds) ++ (crlf ++ tail)) (length a) (length ds + 3) line in
    cc (whole, step, behind, body)
