-- ===== src/RaftLog/Replicas.antt =====
-- Batches of the log, and nodes that apply the same log.
use scheduler.Base.{
  ℕ, suc, ◌≡◌, refl, sym, ◌∙◌, ap, ◌⊎◌, inl, inr, false, ◌&&◌, List, [], ◌∷◌, ◌++◌, Option, none,
  some, ltb, if◌then◌else◌, String, ◌==◌, comparable_string, Bool-cases, length, append-nil,
  append_assoc, arith,
}
use scheduler.RaftLog.{
  Command, FsmResponse, Library, Entry, Node, PostProcess, has_action, db_execute, notified,
  apply_command, apply_raft_log, apply_batch,
}

-- A batch is applied entry by entry: a longer batch gives the responses of its parts, and leaves what
-- the second part leaves after the first.
pub apply_batch-append :
    {P D : Type 0} (l : Library P D) (xs ys : List Entry) (n : Node D)
    → apply_batch l (xs ++ ys) n ≡ (
      (apply_batch l xs n).0 ++ (apply_batch l ys (apply_batch l xs n).1).0,
      (apply_batch l ys (apply_batch l xs n).1).1,
    )
unfolding apply_batch
apply_batch-append l [] ys n = refl
apply_batch-append {D = D} l (x ∷ xs) ys n =
    let r = apply_raft_log l false x n in
    ap (λ (s : List (Option FsmResponse) × Node D). (r.0 ∷ s.0, s.1))
      (apply_batch-append l xs ys r.1)

-- Raft expects one response for each entry of a batch.
pub length-apply_batch :
    {P D : Type 0} (l : Library P D) (xs : List Entry) (n : Node D)
    → length (apply_batch l xs n).0 ≡ length xs
unfolding apply_batch
length-apply_batch l [] n = refl
length-apply_batch l (x ∷ xs) n =
    ap (λ k. suc k) (length-apply_batch l xs (apply_raft_log l false x n).1)

-- What an entry sends, by its response: a message with the action, the nodes and the answer, if the entry
-- is a command whose action is one of the first three and its response has no error.
abbrev pub message : Command → FsmResponse → List PostProcess
message c r =
    if r.error == "" && ltb c.target_action 3
    then record {
      action = c.target_action;
      target_nodes = c.target_nodes;
      rows_affected = r.rows_affected;
      last_inserted_id = r.last_inserted_id;
    }
      ∷ []
    else []

abbrev pub message_of : String ⊎ Command → Option FsmResponse → List PostProcess
message_of (inl text) r = []
message_of (inr c) none = []
message_of (inr c) (some r) = message c r

abbrev pub messages :
    {P D : Type 0} → Library P D → List Entry → List (Option FsmResponse) → List PostProcess
messages l [] rs = []
messages l (x ∷ xs) [] = []
messages l (x ∷ xs) (r ∷ rs) =
    (if x.is_configuration then [] else message_of (l.command_of_bytes x.data_bytes) r)
    ++ messages l xs rs

has_action-ltb : (a : ℕ) → has_action a ≡ ltb a 3
has_action-ltb a = ground arith

notified_lem :
    (c : Command) (r : FsmResponse) (sent : List PostProcess)
    → notified false c r (some sent) ≡ some (sent ++ message c r)
notified_lem c r sent = elim (Bool-cases (r.error == "" && ltb c.target_action 3)) [
  | inl go ↦ rw (has_action-ltb c.target_action, go) refl
  | inr stop ↦ rw (has_action-ltb c.target_action, stop) (ap some (sym (append-nil sent)))
]

module _ {P D : Type 0} (l : Library P D) where
  apply_command-sends :
      (s : String ⊎ Command) (n : Node D) (sent : List PostProcess)
      → n.post_process_channel ≡ some sent
      → (apply_command l false s n).1.post_process_channel
        ≡ some (sent ++ message_of s (apply_command l false s n).0)
  apply_command-sends (inl text) n sent here = here ∙ ap some (sym (append-nil sent))
  apply_command-sends (inr c) n sent here =
      ap (notified false c (db_execute l c n.db).0) here
      ∙ notified_lem c (db_execute l c n.db).0 sent

  apply_raft_log-sends :
      (x : Entry) (n : Node D) (sent : List PostProcess)
      → n.post_process_channel ≡ some sent
      → (apply_raft_log l false x n).1.post_process_channel
        ≡ some (
            sent
            ++ (if x.is_configuration
                then []
                else message_of (l.command_of_bytes x.data_bytes) (apply_raft_log l false x n).0))
  unfolding apply_raft_log
  apply_raft_log-sends x n sent here = elim (Bool-cases x.is_configuration) [
    | inl skip ↦ rw skip (here ∙ ap some (sym (append-nil sent)))
    | inr go ↦ rw go (apply_command-sends (l.command_of_bytes x.data_bytes) n sent here)
  ]

  -- What a batch sends, in order, after what was sent: one message for each entry that is a command with
  -- action 0, 1 or 2 whose response has no error, with the action and the nodes of the command and the
  -- answer of its response; nothing for any other entry. If the channel is not nil.
  pub apply_batch-messages :
      (xs : List Entry) (n : Node D) (sent : List PostProcess)
      → n.post_process_channel ≡ some sent
      → (apply_batch l xs n).1.post_process_channel
        ≡ some (sent ++ messages l xs (apply_batch l xs n).0)
  unfolding apply_batch
  apply_batch-messages [] n sent here = here ∙ ap some (sym (append-nil sent))
  apply_batch-messages (x ∷ xs) n sent here =
      let r = apply_raft_log l false x n in
      let one : List PostProcess =
        if x.is_configuration then [] else message_of (l.command_of_bytes x.data_bytes) r.0 in
      apply_batch-messages xs r.1 (sent ++ one) (apply_raft_log-sends x n sent here)
      ∙ ap some (append_assoc sent one (messages l xs (apply_batch l xs r.1).0))
