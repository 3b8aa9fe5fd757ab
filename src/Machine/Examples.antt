-- ===== src/Machine/Examples.antt =====
-- ApplyBatch at concrete commands, on a database that is a table.
use raft_kv.Base.{
  false, int64_max, All, same_bytes, ◌+◌, ◌≤◌, ◌≡◌, refl, true, none, List, [], ◌∷◌, ◌++◌, Bytes,
  codes, arith,
}
use raft_kv.Outcome.{ok}
use raft_kv.Commands.{
  upper_command, parse_idempotent_command, parse_inner, parse_request_id, request_id_loop,
  Idempotent, set,
}
use raft_kv.Decimal.{value}
use raft_kv.Resp.{
  try_parse_one, number, find_crlf, line_number, all_digits, parse_bulks, read_bulk, read_body,
}
use raft_kv.BigEndian.{write_u64}
use raft_kv.Store.{
  check_order, add_mutations, add_kind, add_session, write_batch, applied_key, Change, Store,
  put_kind, apply_mutations,
}
use raft_kv.Store.Batches.{Applied, apply_mutations-Applied}
use raft_kv.Store.Tables.{change_all, change_table, Table, tables}
use raft_kv.Machine.{
  command_of_args, command_of, apply_batch, idempotent_command, delete_command, mutation_of,
  no_session,
}
use raft_kv.Machine.Spec.{is_client_key, IsOfClient, Spec, Stands, no_record, execute_all}
use raft_kv.Machine.Batches.{Executed, apply_batch-Executed}
use raft_kv.Machine.Retries.{of_other, apply_batch-append, apply_batch_retry}
use raft_kv.Machine.Returns.{Returns, apply_batch-Returns}

-- IDEMP c 1 SET k v
abbrev request_bytes : Bytes
request_bytes =
    codes "*6\r\n$5\r\nIDEMP\r\n$1\r\nc\r\n$1\r\n1\r\n$3\r\nSET\r\n$1\r\nk\r\n$1\r\nv\r\n"

-- DEL k
abbrev delete_bytes : Bytes
delete_bytes = codes "*2\r\n$3\r\nDEL\r\n$1\r\nk\r\n"

abbrev the_request : Idempotent
the_request = record {
  client_id = codes "c";
  request_id = 1;
  op = set;
  key = codes "k";
  value = codes "v";
}

request_decoded : command_of request_bytes ≡ ok (idempotent_command the_request)
unfolding command_of command_of_args try_parse_one number find_crlf line_number all_digits value
    parse_bulks read_bulk read_body same_bytes upper_command parse_idempotent_command parse_inner
    parse_request_id request_id_loop
request_decoded = refl

delete_decoded : command_of delete_bytes ≡ ok (delete_command (codes "k"))
unfolding command_of command_of_args try_parse_one number find_crlf line_number all_digits value
    parse_bulks read_bulk read_body same_bytes upper_command parse_idempotent_command parse_inner
delete_decoded = refl

abbrev empty_store : Store tables
empty_store = record { db = []; last_applied = 0 }

abbrev nothing : Spec
nothing = record { keys = λ k. none; sessions = λ c. no_session }

empty-Stands : Stands (tables.contents empty_store.db) nothing
empty-Stands = record { keys = λ k mine. refl; sessions = λ client. no_record }

reads : (s : Table) (k : Bytes) → Returns (tables.get s k)
reads s k = (_, refl)

writes : (s : Table) (cs : List Change) → Returns (tables.write s cs)
writes s cs = (_, refl)

abbrev two_commands : List Bytes
two_commands = request_bytes ∷ delete_bytes ∷ []

decodes : All (λ raw. Returns (command_of raw)) two_commands
decodes = ((_, request_decoded), ((_, delete_decoded), tt))

request-IsOfClient : IsOfClient (command_of request_bytes)
unfolding is_client_key
request-IsOfClient = rw request_decoded refl

delete-IsOfClient : IsOfClient (command_of delete_bytes)
unfolding is_client_key
delete-IsOfClient = rw delete_decoded refl

apply_batch-Returns_example : Returns (apply_batch tables (0 + 1) two_commands empty_store)
apply_batch-Returns_example =
    apply_batch-Returns tables empty_store (reads []) (writes []) two_commands nothing empty-Stands
      decodes (omega arith)

-- What the batch leaves and answers.
both : Returns (apply_batch tables 1 two_commands empty_store)
both =
    apply_batch-Returns tables empty_store (reads []) (writes []) two_commands nothing empty-Stands
      decodes (omega arith)

apply_batch-Executed_example :
    Executed tables empty_store both.0.0 2 both.0.1 (execute_all two_commands nothing)
apply_batch-Executed_example =
    apply_batch-Executed tables 1 two_commands empty_store both.0.0 both.0.1 nothing empty-Stands
      (request-IsOfClient, (delete-IsOfClient, tt)) both.1

apply_mutations-Applied_example :
    Applied tables (mutation_of 1 put_kind (codes "k") (codes "v") ∷ []) empty_store (
      record { db = (applied_key, write_u64 1) ∷ (codes "k", codes "v") ∷ []; last_applied = 1 },
      false ∷ [],
    )
unfolding apply_mutations check_order add_mutations add_kind add_session write_batch change_all
    change_table
apply_mutations-Applied_example =
    apply_mutations-Applied tables (mutation_of 1 put_kind (codes "k") (codes "v") ∷ []) empty_store
      _ (omega arith) refl

module _ (raw : Bytes) (good : Returns (command_of raw)) where
  -- A command behind what was applied.
  after :
      (s : Store tables) (old : Spec)
      → Stands (tables.contents s.db) old
      → s.last_applied + 1 ≤ int64_max
      → Returns (apply_batch tables (s.last_applied + 1) (raw ∷ []) s)
  after s old h fits =
      apply_batch-Returns tables s (reads s.db) (writes s.db) (raw ∷ []) old h (good, tt) fits

first : Returns (apply_batch tables 1 (request_bytes ∷ []) empty_store)
first = after request_bytes (_, request_decoded) empty_store nothing empty-Stands (omega arith)

first_done :
    Executed tables empty_store first.0.0 1 first.0.1 (execute_all (request_bytes ∷ []) nothing)
first_done =
    apply_batch-Executed tables 1 (request_bytes ∷ []) empty_store first.0.0 first.0.1 nothing
      empty-Stands (request-IsOfClient, tt) first.1

second : Returns (apply_batch tables (first.0.0.last_applied + 1) (delete_bytes ∷ []) first.0.0)
second =
    let last = first_done.last in
    after delete_bytes (_, delete_decoded) first.0.0 (execute_all (request_bytes ∷ []) nothing).0
      first_done.stands (omega (arith, last))

apply_batch-append_example :
    (both.0.1 ≡ first.0.1 ++ second.0.1)
    × ((w : Spec) × Stands (tables.contents both.0.0.db) w
        × Stands (tables.contents second.0.0.db) w)
apply_batch-append_example =
    apply_batch-append tables 1 1 (first.0.0.last_applied + 1) (request_bytes ∷ [])
      (delete_bytes ∷ []) empty_store both.0.0 first.0.0 second.0.0 both.0.1 first.0.1 second.0.1
      nothing empty-Stands (request-IsOfClient, tt) (delete-IsOfClient, tt) both.1 first.1 second.1

second_done :
    Executed tables first.0.0 second.0.0 1 second.0.1
      (execute_all (delete_bytes ∷ []) (execute_all (request_bytes ∷ []) nothing).0)
second_done =
    apply_batch-Executed tables (first.0.0.last_applied + 1) (delete_bytes ∷ []) first.0.0
      second.0.0 second.0.1 (execute_all (request_bytes ∷ []) nothing).0 first_done.stands
      (delete-IsOfClient, tt) second.1

again : Returns (apply_batch tables (second.0.0.last_applied + 1) (request_bytes ∷ []) second.0.0)
again =
    let last = first_done.last in
    let last' = second_done.last in
    after request_bytes (_, request_decoded) second.0.0
      (execute_all (delete_bytes ∷ []) (execute_all (request_bytes ∷ []) nothing).0).0
      second_done.stands (omega (arith, last, last'))

other_delete : of_other (codes "c") (command_of delete_bytes) ≡ true
other_delete = rw delete_decoded refl

-- The key is deleted between the two, and the retry does not set it again.
apply_batch_retry_example :
    (again.0.1 ≡ first.0.1)
    × ((w : Spec) × Stands (tables.contents second.0.0.db) w
        × Stands (tables.contents again.0.0.db) w)
apply_batch_retry_example =
    apply_batch_retry tables 1 (first.0.0.last_applied + 1) (second.0.0.last_applied + 1)
      request_bytes (delete_bytes ∷ []) the_request empty_store first.0.0 second.0.0 again.0.0
      first.0.1 second.0.1 again.0.1 nothing empty-Stands (request-IsOfClient, tt)
      (delete-IsOfClient, tt) request_decoded (omega arith) (other_delete, tt) first.1 second.1
      again.1
