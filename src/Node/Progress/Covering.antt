-- ===== src/Node/Progress/Covering.antt =====
-- A snapshot that takes the place of entries.
use raft_kv.Base.{
  ℕ, ◌+◌, ◌-◌, ◌≤◌, ◌<◌, max, ◌≡◌, refl, Option, none, some, [], arith, length, drop, length-drop,
}
use raft_kv.Log.{Snapshot, get_term, get}
use raft_kv.Log.Entries.{entry_at-drop, Chained-drop}
use raft_kv.Node.State.{Node}
use raft_kv.Node.Progress.Relation.{Progress, progress, Advances}

-- The term of an index, from the progress of a node.
unfoldable pub term_at : Progress → ℕ → Option ℕ
term_at p i =
    get_term
      (record {
        snapshot = p.snapshot;
        entries = p.entries;
        hard = record { term = 0; voted_for = none };
        intent = none;
      })
      i

pub get_term-term_at : {S : Type 0} (n : Node S) (i : ℕ) → get_term n.log i ≡ term_at (progress n) i
unfolding get_term get term_at progress
get_term-term_at n i = refl

-- A snapshot does not contradict an entry that is committed and not yet applied.
abbrev pub Matches : Progress → ℕ → ℕ → Type 0
Matches p index term = p.applied < index → index ≤ p.commit → term_at p index ≡ some term

-- The snapshot takes the place of the entries that it covers.
pub Advances-cover :
    (p : Progress) (s : Snapshot)
    → p.applied < s.index
    → s.index ≤ p.snapshot.index + length p.entries
    → Advances p (record p {
      snapshot = s;
      entries = drop (s.index - p.snapshot.index) p.entries;
      commit = max p.commit s.index;
      applied = s.index;
    })
Advances-cover p s lt le = record {
  sound = λ h.
      let base : p.snapshot.index + (s.index - p.snapshot.index) ≡ s.index =
        omega (arith, h.snapshot_le) in
      record {
        chained = rw base at (
            Chained-drop (s.index - p.snapshot.index) p.snapshot.index p.entries (omega arith)
              h.chained);
        snapshot_le = omega arith;
        applied_le = omega arith;
        commit_le =
            omega (
              arith,
              h.snapshot_le,
              h.commit_le,
              length-drop (s.index - p.snapshot.index) p.entries,
            );
        job_fits = omega (arith, h.job_fits);
      };
  kept = λ h.
      let base : p.snapshot.index + (s.index - p.snapshot.index) ≡ s.index =
        omega (arith, h.snapshot_le) in
      record {
        snapshot_le = omega (arith, h.snapshot_le);
        applied_le = omega arith;
        commit_le = omega arith;
        same = λ i a b. rw base at (
            entry_at-drop (s.index - p.snapshot.index) p.snapshot.index p.entries i (omega arith)
              (omega arith));
      };
}

-- The snapshot takes the place of the whole log.
pub Advances-replace :
    (p : Progress) (s : Snapshot)
    → p.applied < s.index
    → p.commit < s.index
    → Advances p
        (record p { snapshot = s; entries = []; commit = max p.commit s.index; applied = s.index })
Advances-replace p s lt gt = record {
  sound = λ h. record {
    chained = tt;
    snapshot_le = omega arith;
    applied_le = omega arith;
    commit_le = omega arith;
    job_fits = omega (arith, h.job_fits);
  };
  kept = λ h. record {
    snapshot_le = omega (arith, h.snapshot_le);
    applied_le = omega arith;
    commit_le = omega arith;
    same = λ i a b. absurd (omega arith);
  };
}
