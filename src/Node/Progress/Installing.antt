-- ===== src/Node/Progress/Installing.antt =====
-- HandleInstallSnapshot, and what is committed.
use raft_kv.Base.{
  ℕ, ◌<◌, max, ◌≡◌, refl, ◌∙◌, Bool, true, false, Option, none, some, arith, inl, inr, Bool-cases,
  Option-cases, pos_part, ltb, dec_lt, if◌then◌else◌,
}
use raft_kv.Outcome.{Outcome, done, fault, ◌>>=◌, state, ok, Result-cases}
use raft_kv.Log.{Log, Snapshot, stage_snapshot_install, install_snapshot}
use raft_kv.Log.Laws.{stage_snapshot_install-cases, install_snapshot-cases}
use raft_kv.Message.{InstallSnapshot}
use raft_kv.Node.State.{Node, Env}
use raft_kv.Node.Roles.{become_follower, reset_election_timer, persist_term, step_down}
use raft_kv.Node.Snapshots.{
  Chunk, handle_install_snapshot, accept_chunk, answer_chunk, take_chunk, complete_install,
  replace_machine, reply_chunk, continue_with, received_before,
}
use raft_kv.Node.Progress.Relation.{
  progress, IsSound, Advances-refl, Advances-trans, Advances-of_eq, Advances-given, Grows,
  Grows-then,
}
use raft_kv.Node.Progress.Elections.{progress-emit, progress-persist_term, progress-step_down}
use raft_kv.Node.Progress.Covering.{
  term_at, get_term-term_at, Matches, Advances-cover, Advances-replace,
}

module _ {S : Type 0} (env : Env S) where
  progress-then :
      (n : Node S) (o : Outcome (Node S)) (g : Node S → Node S)
      → progress (state o) ≡ progress n
      → ((m : Node S) → progress (g m) ≡ progress m)
      → progress (state (o >>= λ m. done (g m))) ≡ progress n
  progress-then n (done m) g h k = k m ∙ h
  progress-then n (fault e m) g h k = h

  progress-become_follower :
      (term : ℕ) (n : Node S) → progress (state (become_follower env term n)) ≡ progress n
  unfolding become_follower
  progress-become_follower term n = elim (Bool-cases (ltb n.current_term term)) [
    | inl e ↦
        rw (e, become_follower)
          (progress-then n (persist_term env term none n) (step_down env)
            (progress-persist_term env term none n) (progress-step_down env))
    | inr e ↦ rw (e, become_follower) (progress-step_down env n)
  ]

  progress-reply_chunk :
      (from rpc : ℕ) (success complete : Bool) (n : Node S)
      → progress (reply_chunk env from rpc success complete n) ≡ progress n
  unfolding reply_chunk
  progress-reply_chunk from rpc success complete n = progress-emit env from _ n

  -- The metadata follows the state machine.
  installed-Grows :
      (s : Snapshot) (n : Node S) (l : Log) (m : S)
      → n.last_applied < s.index
      → Matches (progress n) s.index s.term
      → n.log.snapshot.index < s.index
      → install_snapshot env.disk_ok s n.log ≡ ok l
      → Grows n (record n {
        machine = m;
        log = l;
        last_applied = s.index;
        commit_index = max n.commit_index s.index;
        snapshot_receive = none;
      })
  unfolding progress
  installed-Grows s n l m lt agrees later h =
      elim (install_snapshot-cases env.disk_ok s n.log l later h) [
        | inl (le, e) ↦ rw e (Advances-cover (progress n) s lt le)
        | inr (differs, e) ↦ elim (dec_lt n.commit_index s.index) [
          | yes gt ↦ rw e (Advances-replace (progress n) s lt gt)
          | no not_gt ↦
              let known : term_at (progress n) s.index ≡ some s.term = agrees lt (omega arith) in
              Advances-given (λ (h : IsSound (progress n)).
                absurd (differs (omega (arith, h.commit_le), get_term-term_at n s.index ∙ known)))
        ]
      ]

  replace_machine-Grows :
      (s : Snapshot) (n : Node S)
      → n.last_applied < s.index
      → Matches (progress n) s.index s.term
      → n.log.snapshot.index < s.index
      → Grows n (state (replace_machine env s (record n.log { intent = some s }) n))
  unfolding replace_machine progress
  replace_machine-Grows s n lt agrees later =
      let staged : Log = record n.log { intent = some s } in
      elim (Option-cases (env.replace_all n.machine s.index s.bytes)) [
        | inl e ↦ rw (e, replace_machine) (Advances-refl (progress n))
        | inr (m, e) ↦ elim (Result-cases (install_snapshot env.disk_ok s staged)) [
          | inr (x, f) ↦ rw (e, f, replace_machine) (Advances-refl (progress n))
          | inl (l, f) ↦
              rw (e, f, replace_machine)
                (installed-Grows s (record n { log = staged }) l m lt agrees later f)
        ]
      ]

  complete_install-Grows :
      (s : Snapshot) (n : Node S)
      → n.last_applied < s.index
      → Matches (progress n) s.index s.term
      → Grows n (state (complete_install env s n))
  unfolding complete_install
  complete_install-Grows s n lt agrees =
      elim (Bool-cases (env.valid_snapshot n.machine s.index s.bytes)) [
        | inr e ↦ rw (e, complete_install) (Advances-refl (progress n))
        | inl e ↦ elim (Result-cases (stage_snapshot_install env.disk_ok s n.log)) [
          | inr (x, f) ↦ rw (e, f, complete_install) (Advances-refl (progress n))
          | inl (staged, f) ↦
              let (later, same) = stage_snapshot_install-cases env.disk_ok s n.log staged f in
              rw (e, f, same, complete_install) (replace_machine-Grows s n lt agrees later)
        ]
      ]

  -- A chunk that is taken extends a snapshot of its own index and term.
  continued :
      (c : Chunk) (held : Option Snapshot) (s : Snapshot)
      → continue_with c held ≡ some s
      → (s.index ≡ c.index) × (s.term ≡ c.index_term)
  unfolding continue_with
  continued c none s h = cc
  continued c (some k) s h = (ground arith, ground arith)

  progress-receive :
      (n : Node S) (s : Option Snapshot) → progress (record n { snapshot_receive = s }) ≡ progress n
  unfolding progress
  progress-receive n s = refl

  replied-Grows :
      (from : ℕ) (c : Chunk) (success complete : Bool) (s : Option Snapshot) (n : Node S)
      → Grows n (reply_chunk env from c.rpc_id success complete (record n { snapshot_receive = s }))
  unfolding progress
  replied-Grows from c success complete s n =
      Advances-of_eq
        (progress-reply_chunk from c.rpc_id success complete (record n { snapshot_receive = s }))

  whole-Grows :
      (from : ℕ) (c : Chunk) (s : Snapshot) (n : Node S)
      → (s.index ≡ c.index) × (s.term ≡ c.index_term)
      → n.last_applied < c.index
      → Matches (progress n) c.index c.index_term
      → Grows n (
          state (
            complete_install env s (record n { snapshot_receive = some s }) >>= λ m.
            done (reply_chunk env from c.rpc_id true true m)))
  unfolding progress
  whole-Grows from c s n (i, t) lt agrees =
      let m : Node S = record n { snapshot_receive = some s } in
      let known : Matches (progress n) s.index s.term = rw (i, t) agrees in
      Grows-then m (complete_install env s m) (reply_chunk env from c.rpc_id true true)
        (complete_install-Grows s m (rw i lt) known) (progress-reply_chunk from c.rpc_id true true)

  take_chunk-Grows :
      (from : ℕ) (c : Chunk) (n : Node S)
      → n.last_applied < c.index
      → Matches (progress n) c.index c.index_term
      → Grows n (state (take_chunk env from c n))
  unfolding take_chunk
  take_chunk-Grows from c n lt agrees =
      elim (Option-cases (continue_with c (received_before c n.snapshot_receive))) [
        | inl e ↦ rw (e, take_chunk) (replied-Grows from c false false none n)
        | inr (s, e) ↦
            rw (e, take_chunk)
              (ground (
                arith,
                replied-Grows from c false false none n,
                replied-Grows from c true false (some s) n,
                whole-Grows from c s n (continued c (received_before c n.snapshot_receive) s e) lt
                    agrees,
              ))
      ]

  progress-reset :
      (n : Node S) (l : Option ℕ)
      → progress (reset_election_timer env (record n { leader_id = l })) ≡ progress n
  unfolding reset_election_timer progress
  progress-reset n l = refl

  answer_chunk-Grows :
      (from : ℕ) (c : Chunk) (n : Node S)
      → Matches (progress n) c.index c.index_term
      → Grows n (state (answer_chunk env from c n))
  unfolding answer_chunk
  answer_chunk-Grows from c n agrees =
      let m = reset_election_timer env (record n { leader_id = some from }) in
      let same = progress-reset n (some from) in
      let matches : Matches (progress m) c.index c.index_term = rw same agrees in
      grind (
        arith,
        Advances-of_eq (progress-reply_chunk from c.rpc_id false false n),
        Advances-of_eq (progress-reply_chunk from c.rpc_id false false m ∙ same),
        Advances-trans (Advances-of_eq same) (replied-Grows from c false false none m),
        Advances-trans (Advances-of_eq same) (replied-Grows from c true true none m),
        λ (lt : m.last_applied < c.index).
            Advances-trans (Advances-of_eq same) (take_chunk-Grows from c m lt matches),
      )

  then_same :
      (n : Node S) (o : Outcome (Node S)) (f : Node S → Outcome (Node S))
      → progress (state o) ≡ progress n
      → ((m : Node S) → progress m ≡ progress n → Grows m (state (f m)))
      → Grows n (state (o >>= f))
  then_same n (done m) f h k = Advances-trans (Advances-of_eq h) (k m h)
  then_same n (fault e m) f h k = Advances-of_eq h

  raised_if-Grows :
      (b : Bool) (term : ℕ) (n : Node S) (f : Node S → Outcome (Node S))
      → ((m : Node S) → progress m ≡ progress n → Grows m (state (f m)))
      → Grows n (state ((if b then become_follower env term n else done n) >>= f))
  raised_if-Grows true term n f k =
      then_same n (become_follower env term n) f (progress-become_follower term n) k
  raised_if-Grows false term n f k = k n refl

-- The snapshot that a request brings, if it passes the tests, does not contradict what is
-- committed and not yet applied.
abbrev pub Consistent : {S : Type 0} → Node S → InstallSnapshot → Type 0
Consistent n r =
    Matches (progress n) (pos_part r.last_included_index) (pos_part r.last_included_term)

accept_chunk-fields :
    {S : Type 0} (n : Node S) (from : ℕ) (r : InstallSnapshot) (c : Chunk)
    → accept_chunk n from r ≡ some c
    → (c.index ≡ pos_part r.last_included_index) × (c.index_term ≡ pos_part r.last_included_term)
unfolding accept_chunk
accept_chunk-fields n from r c h = (ground arith, ground arith)

-- A follower takes a snapshot that does not contradict what it knows to be committed, in one
-- chunk or many: the log keeps its shape, no index moves back, and every committed entry that the
-- snapshot does not cover stays.
pub handle_install_snapshot-Grows :
    {S : Type 0} (env : Env S) (from : ℕ) (r : InstallSnapshot) (n : Node S)
    → Consistent n r
    → Grows n (state (handle_install_snapshot env from r n))
unfolding handle_install_snapshot
handle_install_snapshot-Grows env from r n agrees = elim (Option-cases (accept_chunk n from r)) [
  | inl e ↦ rw (e, handle_install_snapshot) (Advances-refl (progress n))
  | inr (c, e) ↦
      let (i, t) = accept_chunk-fields n from r c e in
      let matches : Matches (progress n) c.index c.index_term = rw (i, t) agrees in
      rw (e, handle_install_snapshot)
        (raised_if-Grows env (ltb n.current_term c.term) c.term n (answer_chunk env from c)
          (λ m same. answer_chunk-Grows env from c m (rw same matches)))
]
