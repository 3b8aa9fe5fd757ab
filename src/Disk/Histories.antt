-- ===== src/Disk/Histories.antt =====
-- A log that was operated on is recovered when its database is opened again.
use raft_kv.Base.{
  ℕ, ◌≡◌, refl, sym, ◌∙◌, ap, subst, Option, none, List, [], ◌∷◌, Bytes, arith, inl, inr,
}
use raft_kv.Outcome.{Result, ok, and_then, and_then-eq-ok}
use raft_kv.Log.{Log, Entry, Snapshot, HardState, last_index, last_term}
use raft_kv.Store.{Database}
use raft_kv.Disk.{
  snapshot_meta_key, snapshot_intent_key, Encoding, index_to_key, RaftLog, append_batch,
  truncate_suffix, save_hard_state, compact_applied, stage_snapshot_install, install_snapshot, get,
}
use raft_kv.Disk.Loading.{open_log, load_hard_state, load_pending_snapshot}
use raft_kv.Disk.Layout.{IsRanged, Lays, Stands}
use raft_kv.Disk.Reading.{get_returns}
use raft_kv.Disk.Opening.{
  Readable, memory, load_hard_state-none, open_log-memory, load_hard_state_lem,
  load_pending_snapshot_lem,
}
use raft_kv.Disk.Steps.{Follows, save_hard_state-Follows}
use raft_kv.Disk.Appending.{append_batch-Follows, truncate_suffix-Follows}
use raft_kv.Disk.Installing.{compact_applied-Follows, install_snapshot-Follows}
use raft_kv.Disk.Staging.{stage_snapshot_install-Follows}
use raft_kv.Disk.Calls.{
  Operation, append, truncate, save, compact, stage, install, Allowed, run_log, log_history, OnOk,
  AllowedAll, empty_log, with_default, HardFirst, run_log-HardFirst,
}

module _ (D : Database) (P : Encoding) where
  abbrev pub run_disk : Operation → RaftLog D P → Result (RaftLog D P)
  run_disk (append es) o = append_batch D P es o
  run_disk (truncate start) o = truncate_suffix D P start o
  run_disk (save h) o = save_hard_state D P h o
  run_disk (compact s) o = compact_applied D P s o
  run_disk (stage s) o = stage_snapshot_install D P s o
  run_disk (install s) o = install_snapshot D P s o

  abbrev pub disk_history : List Operation → RaftLog D P → Result (RaftLog D P)
  disk_history [] o = ok o
  disk_history (x ∷ xs) o = and_then (run_disk x o) (disk_history xs)

  -- A call on the open log that returns is the call on the log that it stands for.
  pub run_disk-Follows :
      (x : Operation) (o o' : RaftLog D P) (l : Log)
      → Allowed x l
      → IsRanged l
      → Stands D P o l
      → run_disk x o ≡ ok o'
      → Follows D P o' (run_log x l)
  run_disk-Follows (append es) o o' l (rising, terms, positive) ranged stands e =
      append_batch-Follows D P l ranged es o o' rising terms stands e
  run_disk-Follows (truncate start) o o' l allowed ranged stands e =
      truncate_suffix-Follows D P l ranged start o o' stands e
  run_disk-Follows (save h) o o' l (low, vote, up) ranged stands e =
      save_hard_state-Follows D P l ranged h o o' low vote stands e
  run_disk-Follows (compact s) o o' l allowed ranged stands e =
      compact_applied-Follows D P l ranged s o o' stands e
  run_disk-Follows (stage s) o o' l high ranged stands e =
      stage_snapshot_install-Follows D P l ranged s o o' high stands e
  run_disk-Follows (install s) o o' l (high, narrow, positive) ranged stands e =
      install_snapshot-Follows D P l ranged s o o' high narrow stands e

  -- The log, and what opening the database again returns of it.
  pub record Reopened (o : RaftLog D P) (r : Result Log) : Type 0 where
    pub log : Log
    pub same : r ≡ ok log
    pub opened : open_log D P o.db ≡ ok o
    pub snapshot : o.snapshot ≡ log.snapshot
    pub last : o.last_index ≡ last_index log
    pub term : o.last_term ≡ last_term log
    pub entries : (i : ℕ) → get D P i o ≡ ok (raft_kv.Log.get log i)
    pub hard : and_then (load_hard_state D P o) (λ h. ok (with_default h)) ≡ ok log.hard
    pub pending : load_pending_snapshot D P o ≡ ok log.intent

  history-Follows :
      (xs : List Operation) (o o' : RaftLog D P) (l : Log)
      → AllowedAll xs l
      → IsRanged l
      → HardFirst l
      → Stands D P o l
      → disk_history xs o ≡ ok o'
      → (f : Follows D P o' (log_history xs l)) × HardFirst f.log
  history-Follows [] o o' l allowed ranged first stands e =
      let same : o ≡ o' = cc (e) in
      subst (λ y. (f : Follows D P y (ok l)) × HardFirst f.log) same
        (record { log = l; same = refl; stands = stands; ranged = ranged }, first)
  history-Follows (x ∷ xs) o o' l (allowed, later) ranged first stands e =
      let (p, step, rest) = and_then-eq-ok (run_disk x o) _ e in
      let f = run_disk-Follows x o p l allowed ranged stands step in
      let later' : AllowedAll xs f.log = subst (OnOk (AllowedAll xs)) f.same later in
      let first' = run_log-HardFirst x l f.log allowed first f.same in
      let all = history-Follows xs p o' f.log later' f.ranged first' f.stands rest in rw f.same all

  empty-Lays :
      (s : D.State) → ((k : Bytes) → D.contents s k ≡ none) → Lays P (D.contents s) empty_log
  empty-Lays s h = record {
    stored = tt;
    snapshot = inl (refl, h snapshot_meta_key);
    tail = inr (refl, refl, λ k apart. h k);
    hard = inr (h (index_to_key 0), refl);
    intent = h snapshot_intent_key;
  }

  abbrev with_defaults : Result (Option HardState) → Result HardState
  with_defaults r = and_then r λ h. ok (with_default h)

  hard_read :
      (s : D.State) (r : Readable D s) (l : Log)
      → IsRanged l
      → HardFirst l
      → Lays P (D.contents s) l
      → with_defaults (load_hard_state D P (memory D P s r l)) ≡ ok l.hard
  hard_read s r l ranged first lays = elim lays.hard [
    | inl there ↦ ap with_defaults (load_hard_state_lem D P s r l ranged there)
    | inr (absent, default) ↦
        let short = first (ap (λ (x : HardState). x.term) default) in
        ap with_defaults (load_hard_state-none D P s r l absent short) ∙ ap ok (sym default)
  ]

  recover :
      (o : RaftLog D P)
      → Readable D o.db
      → (r : Result Log) (f : Follows D P o r) → HardFirst f.log
      → Reopened o r
  recover o read r f first =
      let h = f.stands in
      let whole : memory D P o.db read f.log ≡ o = λ i. record {
        db = o.db;
        last_index = sym h.last_index_lem i;
        last_term = sym h.last_term_lem i;
        snapshot = sym h.snapshot_lem i;
      } in
      record {
        log = f.log;
        same = f.same;
        opened = open_log-memory D P o.db read f.log f.ranged h.lays ∙ ap ok whole;
        snapshot = h.snapshot_lem;
        last = h.last_index_lem;
        term = h.last_term_lem;
        entries = λ i.
            get_returns D P o f.log f.ranged h i (D.contents o.db (index_to_key i))
              (read.reads (index_to_key i));
        hard =
            subst (λ y. with_defaults (load_hard_state D P y) ≡ ok f.log.hard) whole
              (hard_read o.db read f.log f.ranged first h.lays);
        pending =
            subst (λ y. load_pending_snapshot D P y ≡ ok f.log.intent) whole
              (load_pending_snapshot_lem D P o.db read f.log f.ranged h.lays);
      }

  -- A log that begins in an empty database, is operated on by any calls that return, and is opened
  -- again is what it was, where terms and indices are of the source's types, neither saved terms nor
  -- those of appended entries fall, and a term is saved before entries are appended or a snapshot is
  -- installed: opening returns the same members, and every entry, the hard state and the pending
  -- snapshot are read as those of the callers' log after the same calls. Reads and a scan of the two
  -- databases succeed.
  pub history-Reopens :
      (s : D.State) (o o' : RaftLog D P) (xs : List Operation)
      → ((k : Bytes) → D.contents s k ≡ none)
      → Readable D s
      → open_log D P s ≡ ok o
      → AllowedAll xs empty_log
      → disk_history xs o ≡ ok o'
      → Readable D o'.db
      → Reopened o' (log_history xs empty_log)
  history-Reopens s o o' xs nothing r opened allowed ran r' =
      let lays = empty-Lays s nothing in
      let fresh_ranged : IsRanged empty_log = record {
        chained = tt;
        rising = tt;
        terms = tt;
        last = omega arith;
        snapshot_term = omega arith;
        snapshot_bytes = omega arith;
        hard_term = omega arith;
        vote = tt;
        pending = tt;
      } in
      let first : o ≡ memory D P s r empty_log =
        let both : ok o ≡ ok (memory D P s r empty_log) =
          sym opened ∙ open_log-memory D P s r empty_log fresh_ranged lays in
        cc (both) in
      let stands : Stands D P (memory D P s r empty_log) empty_log = record {
        lays = lays;
        last_index_lem = refl;
        last_term_lem = refl;
        snapshot_lem = refl;
      } in
      let (f, hard_first) =
        history-Follows xs (memory D P s r empty_log) o' empty_log allowed fresh_ranged (λ z. refl)
          stands (subst (λ y. disk_history xs y ≡ ok o') first ran) in
      recover o' r' (log_history xs empty_log) f hard_first
