-- ===== src/Disk/Steps.antt =====
-- Each operation of src/raftcore/raft_log.cc that returns does to the log in its database what the log
-- of its callers shows.
use raft_kv.Base.{
  ℕ, ◌+◌, ◌≤◌, ◌≡◌, refl, subst, true, List, [], ◌∷◌, ◌++◌, Bytes, length, All, arith, inl, inr,
  int32_max, int64_max,
}
use raft_kv.Outcome.{Result, ok, and_then-eq-ok}
use raft_kv.Log.{Log, Entry, Snapshot, HardState, last_index, last_term, term_after, consecutive}
use raft_kv.Log.Entries.{Chained}
use raft_kv.Log.Rising.{Rising}
use raft_kv.Store.{Change, put, replay, Database}
use raft_kv.Disk.{Encoding, index_to_key, encode_hard_state, RaftLog, put_tail, save_hard_state}
use raft_kv.Disk.Keys.{IsVote}
use raft_kv.Disk.Layout.{IsRanged, Stored, Lays, Stands, Untouched}
use raft_kv.Disk.Writing.{written_contents, saved-Lays, entries-Lays}

-- The log that an operation leaves, and the open log that stands for it.
pub record Follows (D : Database) (P : Encoding) (o : RaftLog D P) (r : Result Log) : Type 0 where
  pub log : Log
  pub same : r ≡ ok log
  pub stands : Stands D P o log
  pub ranged : IsRanged log

-- Without a snapshot, its term is zero.
pub no_term :
    (P : Encoding) (D : Database) (s : D.State) (l : Log)
    → Lays P (D.contents s) l
    → l.snapshot.index ≡ 0
    → l.snapshot.term ≡ 0
no_term P D s l lays h = elim lays.snapshot [
  | inl (none_yet, absent) ↦ rw none_yet refl
  | inr (low, positive, there, data_there) ↦ absurd (omega arith)
]

module _ (D : Database) (P : Encoding) (l : Log) (ranged : IsRanged l) where
  pub save_hard_state-Follows :
      (h : HardState) (o o' : RaftLog D P)
      → h.term ≤ int32_max
      → IsVote h.voted_for
      → Stands D P o l
      → save_hard_state D P h o ≡ ok o'
      → Follows D P o' (raft_kv.Log.save_hard_state true h.term h.voted_for l)
  unfolding save_hard_state raft_kv.Log.save_hard_state
  save_hard_state-Follows h o o' low vote stands e =
      let (db, written, made) =
        and_then-eq-ok (D.write o.db (put (index_to_key 0) (encode_hard_state h) ∷ [])) _ e in
      let same : record o { db = db } ≡ o' = cc (made) in
      let held =
        written_contents D o.db db (put (index_to_key 0) (encode_hard_state h) ∷ []) written in
      subst (λ x. Follows D P x (ok (record l { hard = h }))) same
        (record {
          log = record l { hard = h };
          same = refl;
          stands = record {
            lays = rw held (saved-Lays P (D.contents o.db) l h ranged stands.lays);
            last_index_lem = stands.last_index_lem;
            last_term_lem = stands.last_term_lem;
            snapshot_lem = stands.snapshot_lem;
          };
          ranged = record {
            chained = ranged.chained;
            rising = ranged.rising;
            terms = ranged.terms;
            last = ranged.last;
            snapshot_term = ranged.snapshot_term;
            snapshot_bytes = ranged.snapshot_bytes;
            hard_term = low;
            vote = vote;
            pending = ranged.pending;
          };
        })

  -- The bounds of a log with other entries.
  pub entries-IsRanged :
      (es : List Entry)
      → Chained l.snapshot.index es
      → Rising l.snapshot.term es
      → All (λ (e : Entry). e.term ≤ int32_max) es
      → l.snapshot.index + length es ≤ int64_max
      → IsRanged (record l { entries = es })
  entries-IsRanged es chain rising terms last = record {
    chained = chain;
    rising = rising;
    terms = terms;
    last = last;
    snapshot_term = ranged.snapshot_term;
    snapshot_bytes = ranged.snapshot_bytes;
    hard_term = ranged.hard_term;
    vote = ranged.vote;
    pending = ranged.pending;
  }

  -- A log whose entries and tail were written.
  pub written-Follows :
      (es : List Entry) (cs : List Change) (o : RaftLog D P) (db : D.State) (last term : ℕ)
      (r : Result Log)
      → IsRanged (record l { entries = es })
      → r ≡ ok (record l { entries = es })
      → last ≡ l.snapshot.index + length es
      → term ≡ term_after l.snapshot.term es
      → Stands D P o l
      → D.write o.db (cs ++ put_tail last term ∷ []) ≡ ok db
      → ((name : Bytes) → 9 ≤ length name → Untouched name cs)
      → Untouched (index_to_key 0) cs
      → Stored P (replay (cs ++ put_tail last term ∷ []) (D.contents o.db)) l.snapshot.index es
      → Follows D P (record o { db = db; last_index = last; last_term = term }) r
  written-Follows es cs o db last term r ranged' result index same_term stands written names
        zero_key stored =
      let held = written_contents D o.db db (cs ++ put_tail last term ∷ []) written in
      record {
        log = record l { entries = es };
        same = result;
        stands = record {
          lays =
              rw (held, index, same_term)
                (entries-Lays P (D.contents o.db) l es cs stands.lays names zero_key
                  (rw (index, same_term) at stored));
          last_index_lem = index;
          last_term_lem = same_term;
          snapshot_lem = stands.snapshot_lem;
        };
        ranged = ranged';
      }
