-- ===== src/Database/Messages.antt =====
-- packages/cemp-database/src/repositories/messages.ts: inserting messages and moving their states.
pub mod Insert
pub mod Transition
pub mod ChainRefs
pub mod Examples
use cemp_mobile.Prelude.{
  ℕ, ◌+◌, ◌≡◌, Bool, List, [], ◌∷◌, Option, none, some, Result, ok, err, String, str_eq,
  if◌then◌else◌, ◌==◌, max, ◌>>=◌, ◌&&◌, length, take,
}
use cemp_mobile.Database.Table.{select_one, select_all, update_where, changes, insert_or_ignore}
use cemp_mobile.Database.Errors.{
  DatabaseError, not_found, illegal_state_transition, adapter_error, constraint_violation,
}
use cemp_mobile.Database.MessageStates.{
  MessageState, MessageDirection, same_state, can_transition_message, initial_message_state,
  received, incoming, is_incoming_direction,
}
use mathlib.Core.Option.{get_or}

pub record Message : Type 0 where
  pub id : ℕ
  pub conversation_id : ℕ
  pub direction : MessageDirection
  pub state : MessageState
  pub body : Option String
  pub logical_message_id : String
  pub envelope_message_id_hex : Option String
  pub created_at_ms : ℕ
  pub updated_at_ms : ℕ

-- The columns of `conversations` that the message repository writes.
pub record Conversation : Type 0 where
  pub id : ℕ
  pub last_activity_at_ms : ℕ

pub record Store : Type 0 where
  pub messages : List Message
  pub conversations : List Conversation

-- The argument of `insert`.
pub record NewMessage : Type 0 where
  pub conversation_id : ℕ
  pub direction : MessageDirection
  pub body : Option String
  pub logical_message_id : String
  pub state : Option MessageState
  pub created_at_ms : Option ℕ

abbrev pub of_id : ℕ → Message → Bool
of_id id m = m.id == id

abbrev pub of_logical_id : String → Message → Bool
of_logical_id logical_id m = str_eq m.logical_message_id logical_id

abbrev pub of_conversation : ℕ → Conversation → Bool
of_conversation id c = c.id == id

-- INTEGER PRIMARY KEY: one more than the largest id. Messages are not deleted.
unfoldable pub next_id : List Message → ℕ
next_id [] = 1
next_id (m ∷ ms) = max (m.id + 1) (next_id ms)

unfoldable pub get_by_id : ℕ → List Message → Option Message
get_by_id id ms = select_one (of_id id) ms

unfoldable pub get_by_logical_id : String → List Message → Option Message
get_by_logical_id logical_id ms = select_one (of_logical_id logical_id) ms

unfoldable pub new_row : NewMessage → ℕ → List Message → Message
new_row input now ms = record {
  id = next_id ms;
  conversation_id = input.conversation_id;
  direction = input.direction;
  state = get_or input.state (initial_message_state input.direction);
  body = input.body;
  logical_message_id = input.logical_message_id;
  envelope_message_id_hex = none;
  created_at_ms = get_or input.created_at_ms now;
  updated_at_ms = now;
}

-- UPDATE conversations SET last_activity_at_ms = MAX(last_activity_at_ms, ?) WHERE id = ?
pub touch : ℕ → ℕ → List Conversation → List Conversation
touch id at cs =
    update_where (of_conversation id)
      (λ c. record c { last_activity_at_ms = max c.last_activity_at_ms at }) cs

-- The rest of `insert`, from the table and `changes` of the INSERT.
finish_insert :
    NewMessage → ℕ → List Conversation → List Message × ℕ → Result DatabaseError (Message × Store)
unfolding touch
finish_insert input now cs (ms, inserted) =
    let cs' =
      if inserted == 0
      then cs
      else touch input.conversation_id (get_or input.created_at_ms now) cs in
    elim (select_one (of_logical_id input.logical_message_id) ms) [
      | none ↦ err adapter_error
      | some row ↦ ok (row, record { messages = ms; conversations = cs' })
    ]

-- INSERT ... ON CONFLICT (logical_message_id) DO NOTHING. SQLite's own error for a row that names no
-- conversation (foreign keys are on) is `constraint_violation` here.
check_conversation :
    Option Conversation → List Message × ℕ → Result DatabaseError (List Message × ℕ)
check_conversation (some _) (ms, inserted) = ok (ms, inserted)
check_conversation none (ms, inserted) =
    if inserted == 0 then ok (ms, inserted) else err constraint_violation

insert_row : NewMessage → ℕ → Store → Result DatabaseError (List Message × ℕ)
unfolding new_row check_conversation
insert_row input now s =
    check_conversation (select_one (of_conversation input.conversation_id) s.conversations) (
      insert_or_ignore (of_logical_id input.logical_message_id) (new_row input now s.messages)
        s.messages)

pub insert : NewMessage → ℕ → Store → Result DatabaseError (Message × Store)
unfolding insert_row finish_insert
insert input now s = insert_row input now s >>= finish_insert input now s.conversations

-- UPDATE messages SET state = ?, updated_at_ms = ? WHERE id = ?
unfoldable pub set_state : ℕ → MessageState → ℕ → List Message → List Message
set_state id to now ms =
    update_where (of_id id) (λ m. record m { state = to; updated_at_ms = now }) ms

-- The transaction's result; an error rolls it back.
unfoldable pub transition_state :
    ℕ → MessageState → ℕ → List Message → Result DatabaseError (Message × List Message)
unfolding set_state
transition_state id to now ms = elim (get_by_id id ms) [
  | none ↦ err not_found
  | some current ↦
      if same_state current.state to
      then ok (current, ms)
      else if can_transition_message current.direction current.state to
      then elim (get_by_id id (set_state id to now ms)) [
        | none ↦ err adapter_error
        | some updated ↦ ok (updated, set_state id to now ms)
      ]
      else err illegal_state_transition
]

pub count_unread : ℕ → List Message → ℕ
count_unread conversation_id ms =
    changes
      (λ m.
        (m.conversation_id == conversation_id)
        && is_incoming_direction m.direction
        && same_state m.state received)
      ms

pub set_envelope_message_id : ℕ → String → ℕ → List Message → Result DatabaseError (List Message)
set_envelope_message_id id hex now ms =
    if changes (of_id id) ms == 0
    then err not_found
    else ok (
        update_where (of_id id)
          (λ m. record m { envelope_message_id_hex = some hex; updated_at_ms = now }) ms)
