-- ===== src/Store/Tables.antt =====
-- A database that is an association list, which shows that what is asked of one can be had.
use mathlib.Core.Path.{fun_ext}
use raft_kv.Base.{
  ◌≡◌, refl, sym, ◌∙◌, ap, Option, List, [], ◌∷◌, Bytes, same_bytes, same_bytes_sound,
  same_bytes_refl, if◌then◌else◌, Bool-cases, inl, inr,
}
use raft_kv.Outcome.{Result, ok}
use raft_kv.Store.{Change, put, delete, Contents, change, replay, lookup, Database}

abbrev pub Table : Type 0
Table = List (Bytes × Bytes)

unfoldable pub without : Bytes → Table → Table
without k [] = []
without k ((a, v) ∷ es) = let rest = without k es in if same_bytes a k then rest else (a, v) ∷ rest

unfoldable pub change_table : Change → Table → Table
change_table (put k v) es = (k, v) ∷ es
change_table (delete k) es = without k es

unfoldable pub change_all : List Change → Table → Table
change_all [] es = es
change_all (c ∷ cs) es = change_all cs (change_table c es)

lookup-without :
    (k : Bytes) (es : Table) (j : Bytes) → lookup (without k es) j ≡ change (delete k) (lookup es) j
unfolding without
lookup-without k [] j = elim (Bool-cases (same_bytes k j)) [ inl e ↦ rw e refl | inr e ↦ rw e refl ]
lookup-without k ((a, v) ∷ es) j = elim (Bool-cases (same_bytes a k)) [
  | inl e ↦
      let same : a ≡ k = same_bytes_sound a k e in
      rw (e, same, lookup-without k es j)
        (elim (Bool-cases (same_bytes k j)) [ inl f ↦ rw f refl | inr f ↦ rw f refl ])
  | inr e ↦
      rw (e, lookup-without k es j)
        (elim (Bool-cases (same_bytes a j)) [
          | inl f ↦
              let same : a ≡ j = same_bytes_sound a j f in
              elim (Bool-cases (same_bytes k j)) [
                | inl g ↦
                    let other : k ≡ j = same_bytes_sound k j g in
                    cc (same, other, same_bytes_refl a, e)
                | inr g ↦ rw (f, g) refl
              ]
          | inr f ↦ rw f refl
        ])
]

lookup-change_table :
    (c : Change) (es : Table) (j : Bytes) → lookup (change_table c es) j ≡ change c (lookup es) j
unfolding change_table
lookup-change_table (put k v) es j = refl
lookup-change_table (delete k) es j = lookup-without k es j

lookup-change_all :
    (cs : List Change) (es : Table) → lookup (change_all cs es) ≡ replay cs (lookup es)
unfolding change_all
lookup-change_all [] es = refl
lookup-change_all (c ∷ cs) es =
    lookup-change_all cs (change_table c es) ∙ ap (replay cs) (fun_ext (lookup-change_table c es))

pub read :
    (s : Table) (k : Bytes) (v : Option Bytes)
    → ◌≡◌ {A = Result (Option Bytes)} (ok (lookup s k)) (ok v)
    → v ≡ lookup s k
read s k v e = cc (e)

pub written :
    (s t : Table) (cs : List Change)
    → ◌≡◌ {A = Result Table} (ok (change_all cs s)) (ok t)
    → (k : Bytes) → lookup t k ≡ replay cs (lookup s) k
written s t cs e k =
    let same : change_all cs s ≡ t = cc (e) in
    sym (ap (λ (x : Table). lookup x k) same) ∙ ap (λ (m : Contents). m k) (lookup-change_all cs s)

pub scanned :
    (s es : Table) → ◌≡◌ {A = Result Table} (ok s) (ok es) → (k : Bytes) → lookup es k ≡ lookup s k
scanned s es e k = let same : s ≡ es = cc (e) in sym (ap (λ (x : Table). lookup x k) same)

-- Reads and writes always succeed.
abbrev pub tables : Database
tables = record {
  State = Table;
  contents = lookup;
  get = λ s k. ok (lookup s k);
  write = λ s cs. ok (change_all cs s);
  scan = λ s. ok s;
  get_law = λ s k v e. read s k v e;
  write_law = λ s t cs e k. written s t cs e k;
  scan_law = λ s es e k. scanned s es e k;
}
