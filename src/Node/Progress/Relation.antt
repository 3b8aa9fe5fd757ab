-- ===== src/Node/Progress/Relation.antt =====
-- The part of a node that replication advances, its invariant, and its steps.
use raft_kv.Base.{
  ℕ, suc, ◌+◌, ◌≤◌, ◌<◌, ◌≡◌, refl, sym, ap, subst, ◌∙◌, Option, none, some, List, ◌++◌, arith,
  length, length-append, length-take, take,
}
use raft_kv.Outcome.{Outcome, done, fault, ◌>>=◌, state}
use raft_kv.Log.{Entry, Snapshot}
use raft_kv.Log.Entries.{
  Chained, Chained-append, Chained-take, entry_at, entry_at-append, entry_at-take,
}
use raft_kv.Node.State.{Node, ApplyJob}
use raft_kv.Node.Core.{Core, core}

pub record Progress : Type 0 where
  pub snapshot : Snapshot
  pub entries : List Entry
  pub commit : ℕ
  pub applied : ℕ
  pub job : Option ApplyJob

unfoldable pub progress : {S : Type 0} → Node S → Progress
progress n = record {
  snapshot = n.log.snapshot;
  entries = n.log.entries;
  commit = n.commit_index;
  applied = n.last_applied;
  job = n.apply_inflight;
}

-- The end of the work that an asynchronous apply has taken.
abbrev pub job_end : Option ApplyJob → ℕ
job_end none = 0
job_end (some j) = j.first + length j.commands

-- The log starts at the snapshot and has no hole; snapshot ≤ applied ≤ committed ≤ last index; and
-- an apply in flight works on committed entries.
pub record IsSound (p : Progress) : Type 0 where
  pub chained : Chained p.snapshot.index p.entries
  pub snapshot_le : p.snapshot.index ≤ p.applied
  pub applied_le : p.applied ≤ p.commit
  pub commit_le : p.commit ≤ p.snapshot.index + length p.entries
  pub job_fits : job_end p.job ≤ suc p.commit

-- Nothing moves back, and a committed entry that the snapshot does not cover is the same.
pub record Kept (p q : Progress) : Type 0 where
  pub snapshot_le : p.snapshot.index ≤ q.snapshot.index
  pub applied_le : p.applied ≤ q.applied
  pub commit_le : p.commit ≤ q.commit
  pub same :
      (i : ℕ)
      → q.snapshot.index < i
      → i ≤ p.commit
      → entry_at q.snapshot.index q.entries i ≡ entry_at p.snapshot.index p.entries i

pub Kept-refl : (p : Progress) → Kept p p
Kept-refl p = record {
  snapshot_le = omega arith;
  applied_le = omega arith;
  commit_le = omega arith;
  same = λ i a b. refl;
}

pub Kept-trans : {p q r : Progress} → Kept p q → Kept q r → Kept p r
Kept-trans {p} {q} {r} h k = record {
  snapshot_le = omega (arith, h.snapshot_le, k.snapshot_le);
  applied_le = omega (arith, h.applied_le, k.applied_le);
  commit_le = omega (arith, h.commit_le, k.commit_le);
  same = λ i a b.
      k.same i a (omega (arith, h.commit_le, b)) ∙ h.same i (omega (arith, k.snapshot_le, a)) b;
}

-- A sound state becomes a sound one that keeps what was committed.
pub record Advances (p q : Progress) : Type 0 where
  pub sound : IsSound p → IsSound q
  pub kept : IsSound p → Kept p q

pub Advances-refl : (p : Progress) → Advances p p
Advances-refl p = record { sound = λ h. h; kept = λ h. Kept-refl p }

pub Advances-trans : {p q r : Progress} → Advances p q → Advances q r → Advances p r
Advances-trans {p} {q} {r} h k = record {
  sound = λ s. k.sound (h.sound s);
  kept = λ s. Kept-trans (h.kept s) (k.kept (h.sound s));
}

pub Advances-of_eq : {p q : Progress} → q ≡ p → Advances p q
Advances-of_eq {p} {q} e = subst (λ x. Advances p x) (sym e) (Advances-refl p)

-- A step may use that it starts from a sound state.
pub Advances-given : {p q : Progress} → (IsSound p → Advances p q) → Advances p q
Advances-given f = record { sound = λ s. (f s).sound s; kept = λ s. (f s).kept s }

-- The commit index rises within the log.
pub Advances-commit :
    (p : Progress) (k : ℕ)
    → p.commit ≤ k
    → (IsSound p → k ≤ p.snapshot.index + length p.entries)
    → Advances p (record p { commit = k })
Advances-commit p k le fits = record {
  sound = λ s. record {
    chained = s.chained;
    snapshot_le = s.snapshot_le;
    applied_le = omega (arith, s.applied_le);
    commit_le = fits s;
    job_fits = omega (arith, s.job_fits);
  };
  kept = λ s. record {
    snapshot_le = omega arith;
    applied_le = omega arith;
    commit_le = le;
    same = λ i a b. refl;
  };
}

-- Entries are appended to the log.
pub Advances-append :
    (p : Progress) (es : List Entry)
    → Chained (p.snapshot.index + length p.entries) es
    → Advances p (record p { entries = p.entries ++ es })
Advances-append p es h = record {
  sound = λ s. record {
    chained = Chained-append p.snapshot.index p.entries es s.chained h;
    snapshot_le = s.snapshot_le;
    applied_le = s.applied_le;
    commit_le = omega (arith, s.commit_le, length-append p.entries es);
    job_fits = s.job_fits;
  };
  kept = λ s. record {
    snapshot_le = omega arith;
    applied_le = omega arith;
    commit_le = omega arith;
    same = λ i a b. entry_at-append p.snapshot.index p.entries es i (omega (arith, s.commit_le));
  };
}

-- The log is cut after the commit index.
pub Advances-cut :
    (p : Progress) (k : ℕ)
    → k ≤ length p.entries
    → p.commit ≤ p.snapshot.index + k
    → Advances p (record p { entries = take k p.entries })
Advances-cut p k fits le = record {
  sound = λ s. record {
    chained = Chained-take k p.snapshot.index p.entries s.chained;
    snapshot_le = s.snapshot_le;
    applied_le = s.applied_le;
    commit_le = omega (arith, length-take k p.entries);
    job_fits = s.job_fits;
  };
  kept = λ s. record {
    snapshot_le = omega arith;
    applied_le = omega arith;
    commit_le = omega arith;
    same = λ i a b. entry_at-take k p.snapshot.index p.entries i (omega arith) fits;
  };
}

-- A job in flight is over.
pub Advances-idle : (p : Progress) → Advances p (record p { job = none })
Advances-idle p = record {
  sound = λ s. record {
    chained = s.chained;
    snapshot_le = s.snapshot_le;
    applied_le = s.applied_le;
    commit_le = s.commit_le;
    job_fits = omega arith;
  };
  kept = λ s. record {
    snapshot_le = omega arith;
    applied_le = omega arith;
    commit_le = omega arith;
    same = λ i a b. refl;
  };
}

module _ {S : Type 0} where
  pub progress-core : (m n : Node S) → core m ≡ core n → progress m ≡ progress n
  unfolding core progress
  progress-core m n e =
      ap
        (λ (c : Core S). record {
          snapshot = c.log.snapshot;
          entries = c.log.entries;
          commit = c.commit_index;
          applied = c.last_applied;
          job = c.apply_inflight;
        })
        e

  abbrev pub Grows : Node S → Node S → Type 0
  Grows n m = Advances (progress n) (progress m)

  pub Grows-bind :
      (n : Node S) (o : Outcome (Node S)) (f : Node S → Outcome (Node S))
      → Grows n (state o)
      → ((m : Node S) → Grows m (state (f m)))
      → Grows n (state (o >>= f))
  Grows-bind n (done m) f h k = Advances-trans h (k m)
  Grows-bind n (fault e m) f h k = h

  -- The same, where the later step may use what the first one returned.
  pub Grows-bind_done :
      (n : Node S) (o : Outcome (Node S)) (f : Node S → Outcome (Node S))
      → Grows n (state o)
      → ((m : Node S) → o ≡ done m → Grows m (state (f m)))
      → Grows n (state (o >>= f))
  Grows-bind_done n (done m) f h k = Advances-trans h (k m refl)
  Grows-bind_done n (fault e m) f h k = h

  -- A change that leaves the progress alone, after a step.
  pub Grows-then :
      (n : Node S) (o : Outcome (Node S)) (g : Node S → Node S)
      → Grows n (state o)
      → ((m : Node S) → progress (g m) ≡ progress m)
      → Grows n (state (o >>= λ m. done (g m)))
  Grows-then n (done m) g h k = Advances-trans h (Advances-of_eq (k m))
  Grows-then n (fault e m) g h k = h
