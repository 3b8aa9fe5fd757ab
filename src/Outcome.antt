-- ===== src/Outcome.antt =====
-- Results of code that may throw. The source lets a storage or consistency exception escape to the
-- process boundary (fail-stop), so a fault carries the state that the throw left behind.
use raft_kv.Base.{◌≡◌, refl, ◌⊎◌, inl, inr, Bool, true, false}

-- The messages of the exceptions, by the place that throws.
pub data Fault : Type 0 where
  storage_failure : Fault
  invalid_append : Fault
  cannot_truncate_snapshot : Fault
  absent_entry : Fault
  invalid_snapshot : Fault
  snapshot_backwards : Fault
  snapshot_term_mismatch : Fault
  pending_snapshot : Fault
  invalid_hard_state : Fault
  replace_committed : Fault
  missing_entry : Fault
  oversized_entry : Fault
  index_exhausted : Fault
  term_exhausted : Fault
  rpc_exhausted : Fault
  send_offset : Fault
  out_of_order_completion : Fault
  executor_unavailable : Fault
  state_machine_failure : Fault
  invalid_argument : Fault
  inconsistent_recovery : Fault
  out_of_order_application : Fault
  session_collision : Fault
  contains_applied : Fault
  corrupt_session : Fault
  index_overflow : Fault
  invalid_command : Fault
  unsupported_command : Fault
  corrupt_store : Fault
  corrupt_log : Fault
  corrupt_hard_state : Fault
  serialize_failure : Fault

pub data Outcome {ℓ} (S : Type ℓ) : Type ℓ where
  done : S → Outcome S
  fault : Fault → S → Outcome S

infixl 5 ◌>>=◌
abbrev pub ◌>>=◌ {ℓ} : {S : Type ℓ} → Outcome S → (S → Outcome S) → Outcome S
done s >>= f = f s
fault e s >>= f = fault e s

-- The state that a call leaves, whether it returns or throws.
abbrev pub state {ℓ} : {S : Type ℓ} → Outcome S → S
state (done s) = s
state (fault e s) = s

-- A pure operation that may throw: the object it works on is unchanged by the throw.
pub data Result {ℓ} (A : Type ℓ) : Type ℓ where
  ok : A → Result A
  err : Fault → Result A

pub Result-cases {ℓ} :
    {A : Type ℓ} (r : Result A) → ((a : A) × (r ≡ ok a)) ⊎ ((e : Fault) × (r ≡ err e))
Result-cases (ok a) = inl (a, refl)
Result-cases (err e) = inr (e, refl)

-- The next call, if this one did not throw.
abbrev pub and_then {ℓ κ} : {A : Type ℓ} {B : Type κ} → Result A → (A → Result B) → Result B
and_then (ok a) f = f a
and_then (err e) f = err e

-- Inversion of two calls that both returned.
pub and_then-eq-ok {ℓ κ} :
    {A : Type ℓ} {B : Type κ} (r : Result A) (f : A → Result B) {b : B}
    → and_then r f ≡ ok b
    → (a : A) × (r ≡ ok a) × (f a ≡ ok b)
and_then-eq-ok (ok a) f h = (a, refl, h)
and_then-eq-ok (err e) f h = cc

abbrev pub guard : Bool → Fault → Result (Unit {0})
guard true e = ok tt
guard false e = err e

-- What holds of the state that a call leaves holds after the calls that follow, if they keep it.
pub bind-state {ℓ κ} :
    {S : Type ℓ} (P : S → Type κ) (o : Outcome S) (f : S → Outcome S)
    → P (state o)
    → ((s : S) → P s → P (state (f s)))
    → P (state (o >>= f))
bind-state P (done s) f h k = k s h
bind-state P (fault e s) f h k = h

-- The same, where the later call may use that the first one returned.
pub bind-state_done {ℓ κ} :
    {S : Type ℓ} (P : S → Type κ) (o : Outcome S) (f : S → Outcome S)
    → P (state o)
    → ((s : S) → o ≡ done s → P (state (f s)))
    → P (state (o >>= f))
bind-state_done P (done s) f h k = k s refl
bind-state_done P (fault e s) f h k = h

-- Inversion of a chain that returned.
pub >>=-eq-done {ℓ} :
    {S : Type ℓ} (o : Outcome S) (f : S → Outcome S) {t : S}
    → (o >>= f) ≡ done t
    → (s : S) × (o ≡ done s) × (f s ≡ done t)
>>=-eq-done (done s) f h = (s, refl, h)
>>=-eq-done (fault e s) f h = cc
