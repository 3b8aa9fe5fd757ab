-- ===== src/Machine/Refines.antt =====
-- ApplyBatch against the state machine of the specification: the invariant of its loop.
use raft_kv.Base.{
  ◌≤◌, ◌≡◌, refl, sym, ◌∙◌, ap, true, false, Option, none, some, Bytes, same_bytes,
  same_bytes_sound, ◌==◌, if◌then◌else◌, length, arith, Bool-cases, inl, inr, uint64_max,
}
use raft_kv.Store.{Contents, is_some, update_bytes}
use raft_kv.Store.Batches.{put_in, mutate, found_by, Cached, update-Cached}
use raft_kv.Machine.{
  SessionRecord, client_session_key, encode_session, found_reply, Locals, Planned, remember,
}
use raft_kv.Machine.Spec.{Spec, set_session, is_client_key, record_of, Stands}
use raft_kv.Machine.Sessions.{same_session_key, key_not_session, session_not_key}

-- One key of the contents, as `change` writes it.
abbrev pub write_at : Bytes → Option Bytes → Contents → Contents
write_at k x m j = if same_bytes k j then x else m j

Stands-write_at :
    (now : Contents) (t : Spec) (k : Bytes) (x : Option Bytes)
    → is_client_key k ≡ true
    → Stands now t
    → Stands (write_at k x now) (record t { keys = write_at k x t.keys })
Stands-write_at now t k x mine h = record {
  keys =
      λ j e. elim (Bool-cases (same_bytes k j)) [ inl s ↦ rw s refl | inr s ↦ rw s (h.keys j e) ];
  sessions = λ client. rw (key_not_session k client mine) (h.sessions client);
}

Stands-set_session :
    (now : Contents) (t : Spec) (client : Bytes) (r : SessionRecord)
    → 1 ≤ r.request_id
    → r.request_id ≤ uint64_max
    → 1 ≤ length r.reply
    → Stands now t
    → Stands
        (put_in (client_session_key client) (encode_session r) now)
        (record t { sessions = set_session client r t.sessions })
Stands-set_session now t client r low high long h = record {
  keys = λ j e. rw (session_not_key j client e) (h.keys j e);
  sessions = λ c. rw (same_session_key client c) (elim (Bool-cases (same_bytes client c)) [
    | inl s ↦ rw s (record_of r low (omega arith) long)
    | inr s ↦ rw s (h.sessions c)
  ]);
}

-- The sessions that the loop remembers are so now; the others are as they were.
pub record Recalled (old : Bytes → SessionRecord) (memory : Bytes → Option SessionRecord)
    (now : Bytes → SessionRecord) : Type 0 where
  pub known : (c : Bytes) (r : SessionRecord) → memory c ≡ some r → r ≡ now c
  pub unknown : (c : Bytes) → memory c ≡ none → now c ≡ old c

update-Recalled :
    (old : Bytes → SessionRecord) (memory : Bytes → Option SessionRecord)
    (now later : Bytes → SessionRecord) (client : Bytes) (r : SessionRecord)
    → Recalled old memory now
    → ((c : Bytes) → same_bytes client c ≡ true → r ≡ later c)
    → ((c : Bytes) → same_bytes client c ≡ false → later c ≡ now c)
    → Recalled old (update_bytes memory client r) later
update-Recalled old memory now later client r h here there = record {
  known = known';
  unknown = unknown';
}
  where
    known' : (c : Bytes) (k : SessionRecord) → update_bytes memory client r c ≡ some k → k ≡ later c
    known' c k e = elim (Bool-cases (same_bytes client c)) [
      | inl s ↦ let g : r ≡ k = ground (arith, e, s) in sym g ∙ here c s
      | inr s ↦ let g : memory c ≡ some k = ground (arith, e, s) in h.known c k g ∙ sym (there c s)
    ]

    unknown' : (c : Bytes) → update_bytes memory client r c ≡ none → later c ≡ old c
    unknown' c e = elim (Bool-cases (same_bytes client c)) [
      | inl s ↦ ground (arith, e, s)
      | inr s ↦ let g : memory c ≡ none = ground (arith, e, s) in there c s ∙ h.unknown c g
    ]

-- What the loop knows, after the mutations that lead to `now`.
pub record Goes (old : Spec) (now : Contents) (l : Locals) (t : Spec) : Type 0 where
  pub stands : Stands now t
  pub present : Cached old.keys l.present t.keys
  pub recalled : Recalled old.sessions l.sessions t.sessions

-- The session of a client, remembered as it is.
pub remember-Goes :
    (old t : Spec) (now : Contents) (l : Locals) (client : Bytes) (r : SessionRecord)
    → r ≡ t.sessions client
    → Goes old now l t
    → Goes old now (remember client r l) t
remember-Goes old t now l client r same h = record {
  stands = h.stands;
  present = h.present;
  recalled =
      update-Recalled old.sessions l.sessions t.sessions t.sessions client r h.recalled
        (λ c e. same ∙ ap t.sessions (same_bytes_sound client c e)) λ c e. refl;
}

-- What a mutation of one key without a session leaves.
pub write_at-Goes :
    (old t : Spec) (now : Contents) (l : Locals) (k : Bytes) (x : Option Bytes)
    → is_client_key k ≡ true
    → Goes old now l t
    → Goes old
        (write_at k x now)
        (record l { present = update_bytes l.present k (is_some x) })
        (record t { keys = write_at k x t.keys })
write_at-Goes old t now l k x mine h = record {
  stands = Stands-write_at now t k x mine h.stands;
  present =
      update-Cached old.keys l.present t.keys (write_at k x t.keys) k (is_some x) h.present
        (λ j e. rw e refl) λ j e. rw e refl;
  recalled = h.recalled;
}

-- A session that is written with the mutation.
pub set_session-Goes :
    (old t : Spec) (now : Contents) (l : Locals) (client : Bytes) (r : SessionRecord)
    → 1 ≤ r.request_id
    → r.request_id ≤ uint64_max
    → 1 ≤ length r.reply
    → Goes old now l t
    → Goes old
        (put_in (client_session_key client) (encode_session r) now)
        (remember client r l)
        (record t { sessions = set_session client r t.sessions })
set_session-Goes old t now l client r low high long h = record {
  stands = Stands-set_session now t client r low high long h.stands;
  present = h.present;
  recalled =
      update-Recalled old.sessions l.sessions t.sessions (set_session client r t.sessions) client r
        h.recalled (λ c e. rw e refl) λ c e. rw e refl;
}

-- A planned command does to the contents what the command does to the specification, and its reply,
-- filled from what its mutation finds, is the specification's.
abbrev pub filled : Planned → Contents → Bytes
filled p now =
    if length p.reply == 0 then found_reply (found_by p.mutation.kind p.mutation now) else p.reply

pub record Does (old : Spec) (now : Contents) (p : Planned) (result : Spec × Bytes) : Type 0 where
  pub goes : Goes old (mutate p.mutation now) p.locals result.0
  pub replied : filled p now ≡ result.1
