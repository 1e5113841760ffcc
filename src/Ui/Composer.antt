-- ===== src/Ui/Composer.antt =====
-- packages/cemp-ui/src/composer.ts: the draft's text and its way into the message table.
pub mod Sending
pub mod Examples
use cemp_mobile.Prelude.{
  ℕ, Bool, true, false, ◌||◌, List, Option, none, some, Result, ok, err, String, str_eq,
  if◌then◌else◌, ltb, ◌==◌, ◌>>=◌,
}
use cemp_mobile.Database.Errors.{DatabaseError}
use cemp_mobile.Database.MessageStates.{MessageState, outgoing, queued, failed}
use cemp_mobile.Database.Messages.{Message, NewMessage, Store, insert, transition_state}

abbrev pub max_text_bytes : ℕ
max_text_bytes = 16384

pub data ComposerStatus : Type 0 where
  editing sending in_error : ComposerStatus

pub data ComposerError : Type 0 where
  too_long : ComposerError
  not_sent : DatabaseError → ComposerError

-- The fields of the view model; the listeners are not modelled.
pub record ChatComposer : Type 0 where
  pub text : String
  pub status : ComposerStatus
  pub error : Option ComposerError

abbrev pub is_sending : ComposerStatus → Bool
is_sending sending = true
is_sending _ = false

-- The calls of the language on the text: `trim()`, and the length of the UTF-8 encoding.
pub record TextCalls : Type 0 where
  pub trim : String → String
  pub byte_length : String → ℕ

pub set_text : String → ChatComposer → ChatComposer
set_text text c = by_status c.status
  where
    by_status : ComposerStatus → ChatComposer
    by_status in_error = record { text = text; status = editing; error = none }
    by_status _ = record c { text = text }

-- A transaction of the repository on the whole store.
move_stored : ℕ → MessageState → ℕ → Store → Result DatabaseError (Message × Store)
move_stored id to now s =
    transition_state id to now s.messages >>= λ (m, ms). ok (m, record s { messages = ms })

abbrev pub outgoing_message : ℕ → Option String → String → NewMessage
outgoing_message conversation_id body logical_id = record {
  conversation_id = conversation_id;
  direction = outgoing;
  body = body;
  logical_message_id = logical_id;
  state = none;
  created_at_ms = none;
}

-- `insert`, then `transitionState(message.id, "queued")`. Each is a transaction of its own: where the
-- second throws the first one's row stays.
after_move : Store → Result DatabaseError (Message × Store) → Result DatabaseError Message × Store
after_move s (ok (m, s')) = (ok m, s')
after_move s (err e) = (err e, s)

after_insert :
    ℕ → Store → Result DatabaseError (Message × Store) → Result DatabaseError Message × Store
unfolding move_stored after_move
after_insert now s (err e) = (err e, s)
after_insert now s (ok (m, s')) = after_move s' (move_stored m.id queued now s')

pub insert_queued : NewMessage → ℕ → Store → Result DatabaseError Message × Store
unfolding after_insert
insert_queued input now s = after_insert now s (insert input now s)

after_send :
    ChatComposer → Result DatabaseError Message × Store → Option Message × ChatComposer × Store
after_send c (ok m, s) = (some m, record { text = ""; status = editing; error = none }, s)
after_send c (err e, s) =
    (none, record { text = c.text; status = in_error; error = some (not_sent e) }, s)

-- `logical_id` is the hex of the random bytes.
pub send : TextCalls → ℕ → String → ℕ → ChatComposer → Store → Option Message × ChatComposer × Store
unfolding insert_queued after_send
send calls conversation_id logical_id now c s =
    let body = calls.trim c.text in
    if is_sending c.status || str_eq body ""
    then (none, c, s)
    else if ltb max_text_bytes (calls.byte_length body)
    then (none, record c { status = in_error; error = some too_long }, s)
    else after_send c
        (insert_queued (outgoing_message conversation_id (some body) logical_id) now s)

-- `insertImageDraft`: a row without a body, queued at once; where that fails the row is moved to
-- `failed`, if it can be, and the first error is thrown.
give_up :
    ℕ
    → ℕ
    → DatabaseError
    → Store
    → Result DatabaseError (Message × Store)
    → Result DatabaseError Message × Store
give_up id now e s (ok (m, s')) = (err e, s')
give_up id now e s (err e') = (err e, s)

after_image_move :
    ℕ → ℕ → Store → Result DatabaseError (Message × Store) → Result DatabaseError Message × Store
unfolding move_stored give_up
after_image_move id now s (ok (m, s')) = (ok m, s')
after_image_move id now s (err e) = give_up id now e s (move_stored id failed now s)

after_image_insert :
    ℕ → Store → Result DatabaseError (Message × Store) → Result DatabaseError Message × Store
unfolding move_stored after_image_move
after_image_insert now s (err e) = (err e, s)
after_image_insert now s (ok (m, s')) =
    after_image_move m.id now s' (move_stored m.id queued now s')

pub insert_image_draft : ℕ → String → ℕ → Store → Result DatabaseError Message × Store
unfolding after_image_insert
insert_image_draft conversation_id logical_id now s =
    after_image_insert now s (insert (outgoing_message conversation_id none logical_id) now s)
