-- ===== src/Ui/Composer/Sending.antt =====
-- What sending a draft leaves in the composer and in the message table.
use cemp_mobile.Prelude.{
  ℕ, ◌≤◌, ◌<◌, ◌⊎◌, ◌≡◌, ◌≢◌, refl, ap, ◌∙◌, true, false, List, [], ◌∷◌, ◌++◌, Option, none, some,
  ok, String, arith, ◌>>=◌, eq_iff,
}
use cemp_mobile.Database.MessageStates.{
  outgoing, queued, same_state, can_transition_message, initial_message_state,
}
use cemp_mobile.Database.Table.{select_one}
use cemp_mobile.Database.Messages.{
  Message, Conversation, NewMessage, Store, of_conversation, get_by_id, get_by_logical_id, touch,
  new_row,
}
use cemp_mobile.Database.Messages.Insert.{insert_fresh, get_by_id-new_row}
use cemp_mobile.Database.Messages.Transition.{transition_moves}
use cemp_mobile.Ui.Composer.{
  ChatComposer, editing, in_error, too_long, TextCalls, is_sending, max_text_bytes,
  outgoing_message, move_stored, insert_queued, after_send, after_insert, after_move, send,
}

-- A queued outgoing message, under an id that no message of the store had.
abbrev pub IsQueued : ℕ → Option String → String → ℕ → Store → Message → Type 0
IsQueued conversation_id body logical_id now s m =
    (m.direction ≡ outgoing)
    × (m.state ≡ queued)
    × (m.body ≡ body)
    × (m.conversation_id ≡ conversation_id)
    × (m.logical_message_id ≡ logical_id)
    × (m.created_at_ms ≡ now)
    × (m.updated_at_ms ≡ now)
    × (m.envelope_message_id_hex ≡ none)
    × (get_by_id m.id s.messages ≡ none)

-- A fresh draft goes into the table and straight on to the queue.
insert_queued_fresh :
    (conversation_id : ℕ) (body : Option String) (logical_id : String) (now : ℕ) (s : Store)
    (c : Conversation)
    → get_by_logical_id logical_id s.messages ≡ none
    → select_one (of_conversation conversation_id) s.conversations ≡ some c
    → (m : Message) × (s' : Store) × (insert_queued
          (outgoing_message conversation_id body logical_id)
          now
          s
        ≡ (ok m, s'))
      × IsQueued conversation_id body logical_id now s m
      × (get_by_id m.id s'.messages ≡ some m)
insert_queued_fresh conversation_id body logical_id now s c h k =
    let found = get_by_id-new_row input now s.messages in
    let (ms', moved, there, _) =
      transition_moves row.id queued now (s.messages ++ row ∷ []) row found.1 apart edge in
    (
      record row { state = queued; updated_at_ms = now },
      record { messages = ms'; conversations = touched },
      (unfold insert_queued in
          ap (after_insert now s) (insert_fresh input now s c h k)
          ∙ (unfold after_insert in
              unfold move_stored in
              ap
                (λ r.
                  after_move stored
                    (r >>= λ (m, ms). ok (m, record { messages = ms; conversations = touched })))
                moved
              ∙ (unfold after_move in refl))),
      (unfold new_row in (refl, refl, refl, refl, refl, refl, refl, refl, found.0)),
      there,
    )
  where
    input : NewMessage
    input = outgoing_message conversation_id body logical_id

    row : Message
    row = new_row input now s.messages

    touched : List Conversation
    touched = touch conversation_id now s.conversations

    stored : Store
    stored = record { messages = s.messages ++ row ∷ []; conversations = touched }

    apart : same_state row.state queued ≡ false
    apart = unfold new_row in unfold initial_message_state in refl

    edge : can_transition_message row.direction row.state queued ≡ true
    edge = unfold new_row in unfold initial_message_state in unfold can_transition_message in refl

-- Sending a draft that is not blank, fits the protocol and has a fresh logical id in an existing
-- conversation: the message that it returns is outgoing, queued, with the trimmed text, in that
-- conversation, under that logical id and a new id, and is found under its id; the composer is empty
-- again.
pub send_queues :
    (calls : TextCalls) (conversation_id : ℕ) (logical_id : String) (now : ℕ)
    (composer : ChatComposer) (s : Store) (c : Conversation)
    → is_sending composer.status ≡ false
    → calls.trim composer.text ≢ ""
    → calls.byte_length (calls.trim composer.text) ≤ max_text_bytes
    → get_by_logical_id logical_id s.messages ≡ none
    → select_one (of_conversation conversation_id) s.conversations ≡ some c
    → (m : Message) × (s' : Store) × (send calls conversation_id logical_id now composer s
        ≡ (some m, record { text = ""; status = editing; error = none }, s'))
      × IsQueued conversation_id (some (calls.trim composer.text)) logical_id now s m
      × (get_by_id m.id s'.messages ≡ some m)
unfolding send
send_queues calls conversation_id logical_id now composer s c idle text fits h k =
    let (m, s', queued_now, row, there) =
      insert_queued_fresh conversation_id (some (calls.trim composer.text)) logical_id now s c h
        k in
    (
      m,
      s',
      ground (arith, idle, fits, eq_iff (calls.trim composer.text) "")
          ∙ ap (after_send composer) queued_now
          ∙ (unfold after_send in refl),
      row,
      there,
    )

-- A send that stores nothing: one under way and a blank draft change nothing at all, and a draft over
-- the limit is kept with the error.
pub send_refuses :
    (calls : TextCalls) (conversation_id : ℕ) (logical_id : String) (now : ℕ)
    (composer : ChatComposer) (s : Store)
    → ((is_sending composer.status ≡ true) ⊎ (calls.trim composer.text ≡ "")
        → send calls conversation_id logical_id now composer s ≡ (none, composer, s))
      × (is_sending composer.status ≡ false
          → calls.trim composer.text ≢ ""
          → max_text_bytes < calls.byte_length (calls.trim composer.text)
          → send calls conversation_id logical_id now composer s
            ≡ (none, record composer { status = in_error; error = some too_long }, s))
unfolding send
send_refuses calls conversation_id logical_id now composer s = (
  (λ h. ground (arith, eq_iff (calls.trim composer.text) "")),
  (λ idle text big. ground (arith, eq_iff (calls.trim composer.text) "")),
)
