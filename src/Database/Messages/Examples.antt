-- ===== src/Database/Messages/Examples.antt =====
-- Messages on a concrete table: one draft in one conversation.
use cemp_mobile.Prelude.{ℕ, ◌≡◌, refl, List, [], ◌∷◌, none, some, ok, map}
use cemp_mobile.Database.Table.{select_one, update_where, insert_or_ignore}
use cemp_mobile.Database.MessageStates.{
  MessageState, outgoing, draft, reclaimed, initial_message_state,
}
use cemp_mobile.Database.MessageStates.Histories.{way_to}
use cemp_mobile.Database.Messages.{
  Message, Store, NewMessage, get_by_id, get_by_logical_id, insert, insert_row, finish_insert,
  check_conversation, new_row, next_id, touch,
}
use cemp_mobile.Database.Messages.Insert.{insert_again, insert_keeps}
use cemp_mobile.Database.Messages.Transition.{IsFollowed, run-IsFollowed}

abbrev first_draft : Message
first_draft = record {
  id = 1;
  conversation_id = 1;
  direction = outgoing;
  state = draft;
  body = some "hello";
  logical_message_id = "aa";
  envelope_message_id_hex = none;
  created_at_ms = 5;
  updated_at_ms = 5;
}

abbrev one_conversation : Store
one_conversation = record {
  messages = [];
  conversations = record { id = 1; last_activity_at_ms = 0 } ∷ [];
}

abbrev first_input : NewMessage
first_input = record {
  conversation_id = 1;
  direction = outgoing;
  body = some "hello";
  logical_message_id = "aa";
  state = none;
  created_at_ms = none;
}

abbrev later_input : NewMessage
later_input = record first_input { body = some "hello again" }

abbrev one_message : Store
one_message = record {
  messages = first_draft ∷ [];
  conversations = record { id = 1; last_activity_at_ms = 5 } ∷ [];
}

-- Every call of the way to `reclaimed`, at the time 7.
abbrev calls_to_reclaimed : List (ℕ × MessageState × ℕ)
calls_to_reclaimed = map (λ s. (1, s, 7)) (way_to outgoing reclaimed)

abbrev reclaimed_message : Message
reclaimed_message = record first_draft { state = reclaimed; updated_at_ms = 7 }

run-IsFollowed_example : IsFollowed 1 first_draft (first_draft ∷ []) calls_to_reclaimed
unfolding get_by_id select_one
run-IsFollowed_example = run-IsFollowed 1 first_draft (first_draft ∷ []) calls_to_reclaimed refl

insert_again_example : insert later_input 9 one_message ≡ ok (first_draft, one_message)
unfolding insert insert_row finish_insert check_conversation new_row next_id touch select_one
    update_where insert_or_ignore initial_message_state
insert_again_example =
    insert_again first_input later_input 5 9 one_conversation one_message first_draft refl refl

insert_keeps_example :
    ((i : ℕ) (x : Message)
      → get_by_id i one_conversation.messages ≡ some x
      → get_by_id i one_message.messages ≡ some x)
    × (get_by_logical_id "aa" one_conversation.messages ≡ none
        → (get_by_id 1 one_conversation.messages ≡ none)
          × (get_by_id 1 one_message.messages ≡ some first_draft))
unfolding insert insert_row finish_insert check_conversation new_row next_id touch select_one
    update_where insert_or_ignore initial_message_state
insert_keeps_example = insert_keeps first_input 5 one_conversation one_message first_draft refl
