-- ===== src/Store/Batches.antt =====
-- RocksDBStore::ApplyBatch against mutations that are applied one after the other.
use mathlib.Core.List.{append_assoc, append-nil}
use raft_kv.Base.{
  ℕ, ◌+◌, ◌≤◌, ◌≡◌, refl, sym, ◌∙◌, ap, subst, Bool, true, false, Option, none, some, List, [], ◌∷◌,
  ◌++◌, Bytes, same_bytes, ◌==◌, if◌then◌else◌, length, arith, Bool-cases, Option-cases, inl, inr,
}
use raft_kv.Outcome.{ok, and_then, and_then-eq-ok}
use raft_kv.BigEndian.{write_u64}
use raft_kv.Store.{
  Change, put, delete, Contents, change, replay, Database, Kind, put_kind, delete_kind, noop_kind,
  Mutation, applied_key, check_order, Batch, empty_batch, is_some, update_bytes, add_session,
  delete_found, find_present, add_kind, add_mutations, Store, write_batch, apply_mutations,
}

-- One mutation, on the contents.
abbrev pub put_in : Bytes → Bytes → Contents → Contents
put_in k v m = change (put k v) m

abbrev pub mutate_kind : Kind → Mutation → Contents → Contents
mutate_kind put_kind m c = put_in m.key m.value c
mutate_kind delete_kind m c = change (delete m.key) c
mutate_kind noop_kind m c = c

unfoldable pub mutate : Mutation → Contents → Contents
mutate m c =
    let d = mutate_kind m.kind m c in
    if length m.session_key == 0 then d else put_in m.session_key m.session_value d

abbrev pub found_by : Kind → Mutation → Contents → Bool
found_by delete_kind m c = is_some (c m.key)
found_by _ m c = false

-- Mutations one after the other, and what each deletion finds.
unfoldable pub mutate_all : List Mutation → Contents → Contents
mutate_all [] c = c
mutate_all (m ∷ ms) c = mutate_all ms (mutate m c)

unfoldable pub found_all : List Mutation → Contents → List Bool
found_all [] c = []
found_all (m ∷ ms) c = found_by m.kind m c ∷ found_all ms (mutate m c)

replay-append : (xs ys : List Change) (c : Contents) → replay (xs ++ ys) c ≡ replay ys (replay xs c)
replay-append [] ys c = refl
replay-append (x ∷ xs) ys c = replay-append xs ys (change x c)

-- What is known of a key is so now; what is not known is as it was.
pub record Cached (base : Contents) (present : Bytes → Option Bool) (now : Contents) : Type 0 where
  pub known : (k : Bytes) (found : Bool) → present k ≡ some found → found ≡ is_some (now k)
  pub unknown : (k : Bytes) → present k ≡ none → now k ≡ base k

pub nothing-Cached : (base : Contents) → Cached base (λ k. none) base
nothing-Cached base = record { known = λ k found e. cc (e); unknown = λ k e. refl }

pub update-Cached :
    (base : Contents) (present : Bytes → Option Bool) (now later : Contents) (k : Bytes)
    (found : Bool)
    → Cached base present now
    → ((j : Bytes) → same_bytes k j ≡ true → is_some (later j) ≡ found)
    → ((j : Bytes) → same_bytes k j ≡ false → later j ≡ now j)
    → Cached base (update_bytes present k found) later
update-Cached base present now later k found h here there = record {
  known = known';
  unknown = unknown';
}
  where
    known' :
        (j : Bytes) (f : Bool) → update_bytes present k found j ≡ some f → f ≡ is_some (later j)
    known' j f e = elim (Bool-cases (same_bytes k j)) [
      | inl s ↦ let g : found ≡ f = ground (arith, e, s) in sym (here j s ∙ g)
      | inr s ↦
          let g : present j ≡ some f = ground (arith, e, s) in
          h.known j f g ∙ ap is_some (sym (there j s))
    ]

    unknown' : (j : Bytes) → update_bytes present k found j ≡ none → later j ≡ base j
    unknown' j e = elim (Bool-cases (same_bytes k j)) [
      | inl s ↦ ground (arith, e, s)
      | inr s ↦ let g : present j ≡ none = ground (arith, e, s) in there j s ∙ h.unknown j g
    ]

put-Cached :
    (base : Contents) (present : Bytes → Option Bool) (now : Contents) (k v : Bytes)
    → Cached base present now
    → Cached base (update_bytes present k true) (put_in k v now)
put-Cached base present now k v h =
    update-Cached base present now (put_in k v now) k true h (λ j e. rw e refl) λ j e. rw e refl

delete-Cached :
    (base : Contents) (present : Bytes → Option Bool) (now : Contents) (k : Bytes)
    → Cached base present now
    → Cached base (update_bytes present k false) (change (delete k) now)
delete-Cached base present now k h =
    update-Cached base present now (change (delete k) now) k false h (λ j e. rw e refl)
      λ j e. rw e refl

-- What a batch stands for: the contents after its changes, and what its deletions found.
pub record Holds (base : Contents) (b : Batch) (now : Contents) (found : List Bool) : Type 0 where
  pub replayed : replay b.changes base ≡ now
  pub cached : Cached base b.present now
  pub existed : b.existed ≡ found

abbrev with_session : Mutation → Batch → Batch
with_session m b = record b {
  changes = b.changes ++ put m.session_key m.session_value ∷ [];
  present = update_bytes b.present m.session_key true;
}

add_session-Holds :
    (base now : Contents) (found : List Bool) (m : Mutation) (b c : Batch)
    → Holds base b now found
    → add_session m b ≡ ok c
    → Holds base c
        (if length m.session_key == 0 then now else put_in m.session_key m.session_value now)
        found
unfolding add_session
add_session-Holds base now found m b c h e = elim (Bool-cases (length m.session_key == 0)) [
  | inl s ↦
      let same : b ≡ c = ground (arith, e, s) in rw s (subst (λ x. Holds base x now found) same h)
  | inr s ↦
      let same : with_session m b ≡ c = ground (arith, e, s) in
      rw s (
        subst (λ x. Holds base x (put_in m.session_key m.session_value now) found) same
          (record {
            replayed =
                replay-append b.changes (put m.session_key m.session_value ∷ []) base
                ∙ ap (put_in m.session_key m.session_value) h.replayed;
            cached = put-Cached base b.present now m.session_key m.session_value h.cached;
            existed = h.existed;
          }))
]

-- A batch with a change more, and what its mutation found.
changed-Holds :
    (base now : Contents) (found : List Bool) (b : Batch) (c : Change)
    (present : Bytes → Option Bool) (x : Bool)
    → Holds base b now found
    → Cached base present (change c now)
    → Holds base
        (record { changes = b.changes ++ c ∷ []; present = present; existed = b.existed ++ x ∷ [] })
        (change c now)
        (found ++ x ∷ [])
changed-Holds base now found b c present x h cached = record {
  replayed = replay-append b.changes (c ∷ []) base ∙ ap (change c) h.replayed;
  cached = cached;
  existed = ap (λ xs. xs ++ x ∷ []) h.existed;
}

module _ (D : Database) (s : D.State) where
  -- A key is found just when it is there now.
  pub find_present_lem :
      (k : Bytes) (present : Bytes → Option Bool) (base now : Contents) (found : Bool)
      → Cached base present now
      → base k ≡ D.contents s k
      → find_present D s k present ≡ ok found
      → found ≡ is_some (now k)
  unfolding find_present
  find_present_lem k present base now found h start e = elim (Option-cases (present k)) [
    | inr (b, f) ↦ let same : found ≡ b = ground (arith, e, f) in same ∙ h.known k b f
    | inl f ↦
        let read : and_then (D.get s k) (λ v. ok (is_some v)) ≡ ok found =
          rw (f, find_present) at e in
        let (v, got, same) = and_then-eq-ok (D.get s k) _ read in
        let held = D.get_law s k v got in let was = h.unknown k f in cc (held, was, same, start)
  ]

  add_kind-Holds :
      (kind : Kind) (m : Mutation) (now : Contents) (found : List Bool) (b c : Batch)
      → Holds (D.contents s) b now found
      → add_kind D s kind m b ≡ ok c
      → Holds (D.contents s) c (mutate_kind kind m now) (found ++ found_by kind m now ∷ [])
  unfolding add_kind delete_found
  add_kind-Holds put_kind m now found b c h e =
      subst (λ x. Holds (D.contents s) x (put_in m.key m.value now) (found ++ false ∷ [])) (cc (e))
        (changed-Holds (D.contents s) now found b (put m.key m.value)
          (update_bytes b.present m.key true) false h
          (put-Cached (D.contents s) b.present now m.key m.value h.cached))
  add_kind-Holds delete_kind m now found b c h e =
      let (f, looked, same) = and_then-eq-ok (find_present D s m.key b.present) _ e in
      let held = find_present_lem m.key b.present (D.contents s) now f h.cached refl looked in
      subst (λ x. Holds (D.contents s) c (change (delete m.key) now) (found ++ x ∷ [])) held
        (subst (λ x. Holds (D.contents s) x (change (delete m.key) now) (found ++ f ∷ []))
          (cc (same))
          (changed-Holds (D.contents s) now found b (delete m.key)
            (update_bytes b.present m.key false) f h
            (delete-Cached (D.contents s) b.present now m.key h.cached)))
  add_kind-Holds noop_kind m now found b c h e =
      let same : record b { existed = b.existed ++ false ∷ [] } ≡ c = cc (e) in
      subst (λ x. Holds (D.contents s) x now (found ++ false ∷ [])) same
        (record {
          replayed = h.replayed;
          cached = h.cached;
          existed = ap (λ xs. xs ++ false ∷ []) h.existed;
        })

  add_mutations-Holds :
      (ms : List Mutation) (now : Contents) (found : List Bool) (b c : Batch)
      → Holds (D.contents s) b now found
      → add_mutations D s ms b ≡ ok c
      → Holds (D.contents s) c (mutate_all ms now) (found ++ found_all ms now)
  unfolding add_mutations mutate_all found_all mutate
  add_mutations-Holds [] now found b c h e =
      let same : b ≡ c = cc (e) in
      let none_more = append-nil found in
      rw none_more (subst (λ x. Holds (D.contents s) x now found) same h)
  add_mutations-Holds (m ∷ ms) now found b c h e =
      let (x, first, e') = and_then-eq-ok (add_kind D s m.kind m b) _ e in
      let (y, second, rest) = and_then-eq-ok (add_session m x) _ e' in
      let held = add_kind-Holds m.kind m now found b x h first in
      let held' =
        add_session-Holds (D.contents s) (mutate_kind m.kind m now)
          (found ++ found_by m.kind m now ∷ []) m x y held second in
      let all =
        add_mutations-Holds ms (mutate m now) (found ++ found_by m.kind m now ∷ []) y c held'
          rest in
      rw append_assoc at all

check_order_lem :
    (ms : List Mutation) (first last : ℕ)
    → check_order first ms ≡ ok last
    → last ≡ first + length ms
unfolding check_order
check_order_lem [] first last h = ground arith
check_order_lem (m ∷ ms) first last h = ground (arith, h, check_order_lem ms m.index last)

-- What a batch leaves: what each deletion found counts the mutations before it, every key holds what
-- the mutations leave there one after the other, and the marker and the index stand at the last.
pub record Applied (D : Database) (ms : List Mutation) (s : Store D) (r : Store D × List Bool)
    : Type 0 where
  pub found : r.1 ≡ found_all ms (D.contents s.db)
  pub last : r.0.last_applied ≡ s.last_applied + length ms
  pub held :
      (k : Bytes)
      → D.contents r.0.db k
        ≡ put_in applied_key (write_u64 r.0.last_applied) (mutate_all ms (D.contents s.db)) k

written-Applied :
    (D : Database) (ms : List Mutation) (s : Store D) (last : ℕ) (b : Batch) (db : D.State)
    → last ≡ s.last_applied + length ms
    → Holds (D.contents s.db) b (mutate_all ms (D.contents s.db)) (found_all ms (D.contents s.db))
    → D.write s.db (b.changes ++ put applied_key (write_u64 last) ∷ []) ≡ ok db
    → Applied D ms s (record { db = db; last_applied = last }, b.existed)
written-Applied D ms s last b db count h written =
    let base = D.contents s.db in
    record {
      found = h.existed;
      last = count;
      held = λ k.
          D.write_law s.db db (b.changes ++ put applied_key (write_u64 last) ∷ []) written k
          ∙ ap (λ (c : Contents). c k)
              (replay-append b.changes (put applied_key (write_u64 last) ∷ []) base)
          ∙ ap (λ (c : Contents). put_in applied_key (write_u64 last) c k) h.replayed;
    }

-- A batch of mutations that returns has applied them one after the other.
pub apply_mutations-Applied :
    (D : Database) (ms : List Mutation) (s : Store D) (r : Store D × List Bool)
    → 1 ≤ length ms
    → apply_mutations D ms s ≡ ok r
    → Applied D ms s r
unfolding apply_mutations write_batch
apply_mutations-Applied D [] s r some_work h = absurd (omega arith)
apply_mutations-Applied D (m ∷ ms) s r some_work h =
    let (last, ordered, h') = and_then-eq-ok (check_order s.last_applied (m ∷ ms)) _ h in
    let (b, added, h'') = and_then-eq-ok (add_mutations D s.db (m ∷ ms) empty_batch) _ h' in
    let (db, written, same) =
      and_then-eq-ok (D.write s.db (b.changes ++ put applied_key (write_u64 last) ∷ [])) _ h'' in
    let start : Holds (D.contents s.db) empty_batch (D.contents s.db) [] = record {
      replayed = refl;
      cached = nothing-Cached (D.contents s.db);
      existed = refl;
    } in
    let held = add_mutations-Holds D s.db (m ∷ ms) (D.contents s.db) [] empty_batch b start added in
    let count = check_order_lem (m ∷ ms) s.last_applied last ordered in
    let left : Store D × List Bool = (record { db = db; last_applied = last }, b.existed) in
    let reached : left ≡ r = cc (same) in
    subst (Applied D (m ∷ ms) s) reached (written-Applied D (m ∷ ms) s last b db count held written)
