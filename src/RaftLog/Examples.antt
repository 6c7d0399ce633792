-- ===== src/RaftLog/Examples.antt =====
-- A small database behind the raft log, and the theorems at it.
use scheduler.Base.{
  ℕ, ◌+◌, ◌≡◌, refl, inr, true, false, List, [], ◌∷◌, none, some, length, comparable_string,
}
use scheduler.RaftLog.{
  Command, Library, Entry, Node, apply_raft_log, apply_batch, write_command_to_raft_log,
}
use scheduler.RaftLog.Written.{answer}
use scheduler.RaftLog.Replicas.{length-apply_batch, messages, apply_batch-messages}

-- A database is a number, each statement adds its parameter, which json has changed by ten. A command is
-- sent as its parameter, and asks for jobs to be queued on node 2.
abbrev insert : List ℕ → Command
insert json = record {
  type = 0;
  sql = "insert";
  data_bytes = json;
  target_nodes = 2 ∷ [];
  target_action = 0;
}

abbrev first_or_zero : List ℕ → ℕ
first_or_zero [] = 0
first_or_zero (b ∷ bs) = b

abbrev counter : Library ℕ ℕ
counter = record {
  params_to_json = λ p. inr (p ∷ []);
  params_of_json = λ b. inr (first_or_zero b + 10);
  command_to_bytes = λ c. inr c.data_bytes;
  command_of_bytes = λ b. inr (insert b);
  begin_tx = λ db. none;
  exec = λ sql p db. inr (record { db = db + p; last_insert_id = inr db; rows_affected = inr 1 });
  commit = λ db. none;
  roll_back = λ db. (none, db);
  roll_back_committed = λ db. some "transaction is over";
}

abbrev node : Node ℕ
node = record { db = 10; post_process_channel = some [] }

abbrev add_three : Entry
add_three = record { is_configuration = false; data_bytes = 3 ∷ [] }

abbrev configuration : Entry
configuration = record { is_configuration = true; data_bytes = [] }

batch_of_two : (apply_batch counter (add_three ∷ configuration ∷ add_three ∷ []) node).1.db ≡ 36
unfolding apply_batch
batch_of_two = refl

written_answer :
    write_command_to_raft_log counter
      (λ b.
        answer
          (apply_raft_log counter false
            (record { is_configuration = false; data_bytes = b })
            node).0)
      0
      "insert"
      3
      (2 ∷ [])
      0
    ≡ inr (some (record { rows_affected = 1; last_inserted_id = 10; error = "" }))
unfolding write_command_to_raft_log apply_raft_log
written_answer = refl

batch_messages :
    (apply_batch counter (add_three ∷ configuration ∷ add_three ∷ []) node).1.post_process_channel
    ≡ some (
        record { action = 0; target_nodes = 2 ∷ []; rows_affected = 1; last_inserted_id = 10 }
        ∷ record { action = 0; target_nodes = 2 ∷ []; rows_affected = 1; last_inserted_id = 23 }
        ∷ [])
unfolding apply_batch
batch_messages = refl

batch_responses : length (apply_batch counter (add_three ∷ configuration ∷ []) node).0 ≡ 2
batch_responses = length-apply_batch counter (add_three ∷ configuration ∷ []) node

apply_batch-messages_example :
    (apply_batch counter (add_three ∷ configuration ∷ []) node).1.post_process_channel
    ≡ some (
        messages counter
          (add_three ∷ configuration ∷ [])
          (apply_batch counter (add_three ∷ configuration ∷ []) node).0)
apply_batch-messages_example =
    apply_batch-messages counter (add_three ∷ configuration ∷ []) node [] refl
