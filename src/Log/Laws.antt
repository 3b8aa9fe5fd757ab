-- ===== src/Log/Laws.antt =====
-- The results of the operations of RaftLog.
use mathlib.Core.List.{append-nil}
use raft_kv.Base.{
  ℕ, ◌+◌, ◌-◌, ◌≤◌, ◌<◌, ◌≡◌, refl, Bool, true, none, some, List, [], ◌∷◌, ◌++◌, arith, ◌⊎◌, inl,
  inr, length, take, drop, ap, length-append, Bool-cases, leb, ◌&&◌,
}
use raft_kv.Outcome.{ok}
use raft_kv.Log.{
  Log, Entry, Snapshot, last_index, get, get_term, term_is, consecutive, append_batch,
  truncate_suffix, persist_snapshot, compact_applied, stage_snapshot_install, install_snapshot,
}

pub compact_applied-cases :
    (d : Bool) (s : Snapshot) (l l' : Log)
    → compact_applied d s l ≡ ok l'
    → (l' ≡ l)
      ⊎ ((l.snapshot.index < s.index)
          × (s.index ≤ last_index l)
          × (term_is (get_term l s.index) s.term ≡ true)
          × (l' ≡ record l {
            snapshot = s;
            entries = drop (s.index - l.snapshot.index) l.entries;
            intent = none;
          }))
unfolding compact_applied persist_snapshot
compact_applied-cases d s l l' h = ground arith

pub truncate_suffix-cases :
    (d : Bool) (start : ℕ) (l l' : Log)
    → truncate_suffix d start l ≡ ok l'
    → (l.snapshot.index < start)
      × (((last_index l < start) × (l' ≡ l))
          ⊎ ((start ≤ last_index l)
              × (l' ≡ record l { entries = take (start - l.snapshot.index - 1) l.entries })))
unfolding truncate_suffix
truncate_suffix-cases d start l l' h = (ground arith, ground arith)

pub append_batch-cases :
    (d : Bool) (es : List Entry) (l l' : Log)
    → append_batch d es l ≡ ok l'
    → (consecutive (last_index l) es ≡ true)
      × (l'.snapshot ≡ l.snapshot)
      × (l'.entries ≡ l.entries ++ es)
unfolding append_batch consecutive
append_batch-cases d [] l l' h = (refl, ground arith, rw append-nil (ground arith))
append_batch-cases d (e ∷ es) l l' h = (ground arith, ground arith, ground arith)

-- An index of which the log knows the term is no later than the last.
pub get_term-le : (l : Log) (i t : ℕ) → term_is (get_term l i) t ≡ true → i ≤ last_index l
unfolding get_term get
get_term-le l i t h = ground arith

pub last_index-append_batch :
    (d : Bool) (es : List Entry) (l l' : Log)
    → append_batch d es l ≡ ok l'
    → last_index l' ≡ last_index l + length es
last_index-append_batch d es l l' h =
    let (chain, snap, ents) = append_batch-cases d es l l' h in
    omega (arith, ap (λ (s : Snapshot). s.index) snap, ap length ents, length-append l.entries es)

pub stage_snapshot_install-cases :
    (d : Bool) (s : Snapshot) (l l' : Log)
    → stage_snapshot_install d s l ≡ ok l'
    → (l.snapshot.index < s.index) × (l' ≡ record l { intent = some s })
unfolding stage_snapshot_install
stage_snapshot_install-cases d s l l' h = (ground arith, ground arith)

-- A snapshot that moves on keeps the entries behind it if it agrees with the log, and else
-- replaces the log.
pub install_snapshot-cases :
    (d : Bool) (s : Snapshot) (l l' : Log)
    → l.snapshot.index < s.index
    → install_snapshot d s l ≡ ok l'
    → ((s.index ≤ last_index l)
        × (l' ≡ record l {
          snapshot = s;
          entries = drop (s.index - l.snapshot.index) l.entries;
          intent = none;
        }))
      ⊎ ((¬ ((s.index ≤ last_index l) × (get_term l s.index ≡ some s.term)))
          × (l' ≡ record l { snapshot = s; entries = []; intent = none }))
unfolding install_snapshot persist_snapshot
install_snapshot-cases d s l l' lt h =
    elim (Bool-cases (leb s.index (last_index l) && term_is (get_term l s.index) s.term)) [
      | inl e ↦ inl (ground arith, ground arith)
      | inr e ↦ inr ((λ both. ground (arith, both.0, both.1)), ground arith)
    ]
