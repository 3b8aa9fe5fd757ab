-- ===== src/Machine/Batches.antt =====
-- KVStateMachine::ApplyBatch against the state machine of the specification: the whole batch.
use raft_kv.Base.{
  ℕ, suc, ◌+◌, ◌≡◌, refl, ◌∙◌, subst, Bool, true, false, List, [], ◌∷◌, Bytes, length, arith,
}
use raft_kv.Outcome.{ok, and_then-eq-ok}
use raft_kv.BigEndian.{write_u64}
use raft_kv.Store.{Contents, Database, Mutation, Store, apply_mutations, applied_key}
use raft_kv.Store.Batches.{
  put_in, mutate, mutate_all, found_all, apply_mutations-Applied, nothing-Cached,
}
use raft_kv.Machine.{
  Command, noop_command, set_command, delete_command, idempotent_command, command_of, Locals,
  no_locals, Planned, plan, plan_all, fill_replies, apply_batch, next_index, client_session_key,
}
use raft_kv.Machine.Spec.{Spec, execute, execute_all, AllOfClient, IsOfClient, Stands}
use raft_kv.Machine.Sessions.{request_id_bounds, applied_not_key, applied_not_session}
use raft_kv.Machine.Refines.{Goes, Does}
use raft_kv.Machine.Plans.{IdFits, plan-Does}

id_fits : (raw : Bytes) (command : Command) → command_of raw ≡ ok command → IdFits command
id_fits raw noop_command e = tt
id_fits raw (set_command key value) e = tt
id_fits raw (delete_command key) e = tt
id_fits raw (idempotent_command i) e = request_id_bounds raw i e

-- The mutations of a batch do to the contents what the commands do to the specification.
pub record DoesAll (now : Contents) (ms : List Mutation) (replies : List Bytes) (count : ℕ)
    (result : Spec × List Bytes) : Type 0 where
  pub stands : Stands (mutate_all ms now) result.0
  pub replied : fill_replies replies (found_all ms now) ≡ result.1
  pub size : length ms ≡ count

-- What a first round that returned has made.
record FirstRound (D : Database) (s : D.State) (raw : Bytes) (raws : List Bytes) (l : Locals)
    (ms : List Mutation) (replies : List Bytes) : Type 0 where
  here : ℕ
  command : Command
  decoded : command_of raw ≡ ok command
  p : Planned
  planned : plan D s here command l ≡ ok p
  later : List Mutation
  later_replies : List Bytes
  rest : plan_all D s here false raws p.locals ≡ ok (later, later_replies)
  all : ms ≡ p.mutation ∷ later
  all_replies : replies ≡ p.reply ∷ later_replies

first_round :
    (D : Database) (s : D.State) (raw : Bytes) (raws : List Bytes) (index : ℕ) (first : Bool)
    (l : Locals) (ms : List Mutation) (replies : List Bytes)
    → plan_all D s index first (raw ∷ raws) l ≡ ok (ms, replies)
    → FirstRound D s raw raws l ms replies
unfolding plan_all
first_round D s raw raws index first l ms replies e =
    let (here, at, e1) = and_then-eq-ok (next_index D s index first) _ e in
    let (command, decoded, e2) = and_then-eq-ok (command_of raw) _ e1 in
    let (p, planned, e3) = and_then-eq-ok (plan D s here command l) _ e2 in
    let (made, rest, same) = and_then-eq-ok (plan_all D s here false raws p.locals) _ e3 in
    record {
      here = here;
      command = command;
      decoded = decoded;
      p = p;
      planned = planned;
      later = made.0;
      later_replies = made.1;
      rest = rest;
      all = cc (same);
      all_replies = cc (same);
    }

first-Does :
    (now : Contents) (p : Planned) (ms : List Mutation) (replies : List Bytes) (count : ℕ)
    (old : Spec) (done : Spec × Bytes) (rest : Spec × List Bytes)
    → Does old now p done
    → DoesAll (mutate p.mutation now) ms replies count rest
    → DoesAll now (p.mutation ∷ ms) (p.reply ∷ replies) (suc count) (rest.0, done.1 ∷ rest.1)
unfolding fill_replies mutate_all found_all
first-Does now p ms replies count old done rest h k = record {
  stands = k.stands;
  replied = cc (h.replied, k.replied);
  size = omega (arith, k.size);
}

none-DoesAll :
    (D : Database) (s : D.State) (index : ℕ) (first : Bool) (l : Locals) (now : Contents) (t : Spec)
    (ms : List Mutation) (replies : List Bytes)
    → Stands now t
    → plan_all D s index first [] l ≡ ok (ms, replies)
    → DoesAll now ms replies 0 (t, [])
unfolding plan_all mutate_all found_all fill_replies
none-DoesAll D s index first l now t ms replies h e =
    let none_planned : [] ≡ ms = cc (e) in
    let none_replied : [] ≡ replies = cc (e) in
    subst (λ x. DoesAll now x replies 0 (t, [])) none_planned
      (subst (λ x. DoesAll now [] x 0 (t, [])) none_replied
        (record { stands = h; replied = refl; size = refl }))

plan_all-DoesAll :
    (D : Database) (s : D.State) (raws : List Bytes) (index : ℕ) (first : Bool) (old t : Spec)
    (now : Contents) (l : Locals) (ms : List Mutation) (replies : List Bytes)
    → Stands (D.contents s) old
    → Goes old now l t
    → AllOfClient raws
    → plan_all D s index first raws l ≡ ok (ms, replies)
    → DoesAll now ms replies (length raws) (execute_all raws t)
unfolding execute_all
plan_all-DoesAll D s [] index first old t now l ms replies begun h mine e =
    none-DoesAll D s index first l now t ms replies h.stands e
plan_all-DoesAll D s (raw ∷ raws) index first old t now l ms replies begun h mine e =
    let f = first_round D s raw raws index first l ms replies e in
    let ours = subst IsOfClient f.decoded mine.0 in
    let does =
      plan-Does D s f.here old t now l f.command f.p begun h ours (id_fits raw f.command f.decoded)
        f.planned in
    let next = execute f.command t in
    let rest =
      plan_all-DoesAll D s raws f.here false old next.0 (mutate f.p.mutation now) f.p.locals f.later
        f.later_replies begun does.goes mine.1 f.rest in
    let both =
      first-Does now f.p f.later f.later_replies (length raws) old next (execute_all raws next.0)
        does rest in
    let result = (execute_all raws next.0).0 in rw (f.decoded, f.all, f.all_replies) both

-- What a batch that returns has done: the store stands for the state that the commands lead to one by
-- one, the replies are those of the commands, and the applied index has moved by their number.
pub record Executed (D : Database) (s t : Store D) (count : ℕ) (replies : List Bytes)
    (result : Spec × List Bytes) : Type 0 where
  pub stands : Stands (D.contents t.db) result.0
  pub replied : replies ≡ result.1
  pub last : t.last_applied ≡ s.last_applied + count

-- The marker is no key of a client or of a session.
marked-Stands :
    (m c : Contents) (v : Bytes) (t : Spec)
    → Stands m t
    → ((k : Bytes) → c k ≡ put_in applied_key v m k)
    → Stands c t
marked-Stands m c v t h e = record {
  keys = λ k mine. e k ∙ (rw (applied_not_key k mine) (h.keys k mine));
  sessions =
      λ client. rw (e (client_session_key client), applied_not_session client) (h.sessions client);
}

nothing_applied :
    (D : Database) (s : Store D) (r : Store D × List Bool)
    → apply_mutations D [] s ≡ ok r
    → (s, []) ≡ r
unfolding apply_mutations
nothing_applied D s r e = cc (e)

nothing-Executed :
    (D : Database) (s : Store D) (replies : List Bytes) (count : ℕ) (result : Spec × List Bytes)
    → DoesAll (D.contents s.db) [] replies count result
    → Executed D s s count (fill_replies replies []) result
unfolding mutate_all found_all
nothing-Executed D s replies count result h =
    let size = h.size in
    record { stands = h.stands; replied = h.replied; last = omega (arith, size) }

applied-Executed :
    (D : Database) (s : Store D) (ms : List Mutation) (replies : List Bytes) (count : ℕ)
    (result : Spec × List Bytes) (r : Store D × List Bool)
    → DoesAll (D.contents s.db) ms replies count result
    → apply_mutations D ms s ≡ ok r
    → Executed D s r.0 count (fill_replies replies r.1) result
applied-Executed D s [] replies count result r h e =
    subst (λ (x : Store D × List Bool). Executed D s x.0 count (fill_replies replies x.1) result)
      (nothing_applied D s r e) (nothing-Executed D s replies count result h)
applied-Executed D s (m ∷ ms) replies count result r h e =
    let a = apply_mutations-Applied D (m ∷ ms) s r (omega arith) e in
    let size = h.size in
    let last = a.last in
    record {
      stands = marked-Stands _ _ (write_u64 r.0.last_applied) result.0 h.stands a.held;
      replied = rw (a.found) h.replied;
      last = omega (arith, size, last);
    }

-- ApplyBatch does what the commands do one by one.
pub apply_batch-Executed :
    (D : Database) (first_index : ℕ) (raws : List Bytes) (s t : Store D) (replies : List Bytes)
    (old : Spec)
    → Stands (D.contents s.db) old
    → AllOfClient raws
    → apply_batch D first_index raws s ≡ ok (t, replies)
    → Executed D s t (length raws) replies (execute_all raws old)
unfolding apply_batch
apply_batch-Executed D first_index raws s t replies old h mine e =
    let (planned, made, e1) =
      and_then-eq-ok (plan_all D s.db first_index true raws no_locals) _ e in
    let (r, applied, same) = and_then-eq-ok (apply_mutations D planned.0 s) _ e1 in
    let start : Goes old (D.contents s.db) no_locals old = record {
      stands = h;
      present = nothing-Cached old.keys;
      recalled = record { known = λ c k x. cc (x); unknown = λ c x. refl };
    } in
    let does =
      plan_all-DoesAll D s.db raws first_index true old old (D.contents s.db) no_locals planned.0
        planned.1 h start mine made in
    let left =
      applied-Executed D s planned.0 planned.1 (length raws) (execute_all raws old) r does
        applied in
    let store : r.0 ≡ t = cc (same) in
    let answers : fill_replies planned.1 r.1 ≡ replies = cc (same) in
    subst (λ x. Executed D s x (length raws) replies (execute_all raws old)) store
      (subst (λ x. Executed D s r.0 (length raws) x (execute_all raws old)) answers left)
