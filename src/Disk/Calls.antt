-- ===== src/Disk/Calls.antt =====
-- The calls that change a log, and a node's order of them.
use raft_kv.Base.{
  ℕ, ◌-◌, ◌≤◌, ◌≡◌, refl, sym, ◌∙◌, subst, true, Option, none, some, List, [], ◌∷◌, All, arith, inl,
  inr, int32_max, int64_max, take, length-take, drop, length-drop,
}
use raft_kv.Outcome.{Result, ok, err, and_then}
use raft_kv.Log.{Log, Entry, Snapshot, HardState, last_index, last_term}
use raft_kv.Log.Laws.{truncate_suffix-cases, compact_applied-cases, stage_snapshot_install-cases}
use raft_kv.Log.Rising.{Rising}
use raft_kv.Disk.{no_snapshot}
use raft_kv.Disk.Keys.{IsVote}

-- The calls that change a log.
pub data Operation : Type 0 where
  append : List Entry → Operation
  truncate : ℕ → Operation
  save : HardState → Operation
  compact stage install : Snapshot → Operation

-- What the node's types and its own order of calls give: terms do not fall and fit their types, and a
-- term is saved before there are entries.
abbrev pub Allowed : Operation → Log → Type 0
Allowed (append es) l =
    Rising (last_term l) es × All (λ (e : Entry). e.term ≤ int32_max) es × (1 ≤ l.hard.term)
Allowed (truncate start) l = Unit
Allowed (save h) l = (h.term ≤ int32_max) × IsVote h.voted_for × (l.hard.term ≤ h.term)
Allowed (compact s) l = Unit
Allowed (stage s) l = s.index ≤ int64_max
Allowed (install s) l = (s.index ≤ int64_max) × (s.term ≤ int32_max) × (1 ≤ l.hard.term)

abbrev pub run_log : Operation → Log → Result Log
run_log (append es) l = raft_kv.Log.append_batch true es l
run_log (truncate start) l = raft_kv.Log.truncate_suffix true start l
run_log (save h) l = raft_kv.Log.save_hard_state true h.term h.voted_for l
run_log (compact s) l = raft_kv.Log.compact_applied true s l
run_log (stage s) l = raft_kv.Log.stage_snapshot_install true s l
run_log (install s) l = raft_kv.Log.install_snapshot true s l

abbrev pub log_history : List Operation → Log → Result Log
log_history [] l = ok l
log_history (x ∷ xs) l = and_then (run_log x l) (log_history xs)

abbrev pub OnOk : (Log → Type 0) → Result Log → Type 0
OnOk P (ok l) = P l
OnOk P (err e) = Unit

abbrev pub AllowedAll : List Operation → Log → Type 0
AllowedAll [] l = Unit
AllowedAll (x ∷ xs) l = Allowed x l × OnOk (AllowedAll xs) (run_log x l)

abbrev pub default_hard : HardState
default_hard = record { term = 0; voted_for = none }

abbrev pub empty_log : Log
empty_log = record { snapshot = no_snapshot; entries = []; hard = default_hard; intent = none }

-- `false` of LoadHardState comes with the defaults.
abbrev pub with_default : Option HardState → HardState
with_default none = default_hard
with_default (some h) = h

-- There are entries and a snapshot only where a term was saved.
abbrev pub HardFirst : Log → Type 0
HardFirst l = l.hard.term ≡ 0 → last_index l ≡ 0

append_batch-hard :
    (es : List Entry) (l m : Log)
    → raft_kv.Log.append_batch true es l ≡ ok m
    → m.hard.term ≡ l.hard.term
unfolding raft_kv.Log.append_batch
append_batch-hard [] l m e = ground (arith, e)
append_batch-hard (x ∷ xs) l m e = ground (arith, e)

install_snapshot-hard :
    (s : Snapshot) (l m : Log)
    → raft_kv.Log.install_snapshot true s l ≡ ok m
    → m.hard.term ≡ l.hard.term
unfolding raft_kv.Log.install_snapshot raft_kv.Log.persist_snapshot
install_snapshot-hard s l m e = ground (arith, e)

-- The same term is saved, and the log is no longer.
same-HardFirst :
    (l m : Log)
    → m.hard.term ≡ l.hard.term
    → last_index m ≤ last_index l
    → HardFirst l
    → HardFirst m
same-HardFirst l m term shorter h z = let none_yet = h (sym term ∙ z) in omega arith

pub run_log-HardFirst :
    (x : Operation) (l m : Log) → Allowed x l → HardFirst l → run_log x l ≡ ok m → HardFirst m
unfolding raft_kv.Log.save_hard_state
run_log-HardFirst (append es) l m (rising, terms, positive) h e =
    λ z. absurd (omega (arith, append_batch-hard es l m e))
run_log-HardFirst (truncate start) l m allowed h e =
    elim (truncate_suffix-cases true start l m e).1 [
      | inl (beyond, same) ↦ subst HardFirst (sym same) h
      | inr (within, same) ↦
          let k = start - l.snapshot.index - 1 in
          let size = length-take k l.entries in
          subst HardFirst (sym same)
            (same-HardFirst l (record l { entries = take k l.entries }) refl (omega arith) h)
    ]
run_log-HardFirst (save s) l m (narrow, vote, up) h e =
    let same : record l { hard = s } ≡ m = cc (e) in subst HardFirst same λ z. h (omega arith)
run_log-HardFirst (compact s) l m allowed h e = elim (compact_applied-cases true s l m e) [
  | inl same ↦ subst HardFirst (sym same) h
  | inr (low, up, agrees, same) ↦
      let k = s.index - l.snapshot.index in
      let size = length-drop k l.entries in
      subst HardFirst (sym same) (
        same-HardFirst l (record l { snapshot = s; entries = drop k l.entries; intent = none }) refl
          (omega arith) h)
]
run_log-HardFirst (stage s) l m allowed h e =
    let (low, same) = stage_snapshot_install-cases true s l m e in subst HardFirst (sym same) h
run_log-HardFirst (install s) l m (high, narrow, positive) h e =
    λ z. absurd (omega (arith, install_snapshot-hard s l m e))
