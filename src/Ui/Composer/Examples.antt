-- ===== src/Ui/Composer/Examples.antt =====
-- A composer with one word, in a conversation without messages.
use cemp_mobile.Prelude.{◌≡◌, refl, [], ◌∷◌, none, some, str_apart, arith}
use cemp_mobile.Database.Messages.{Message, Conversation, Store, get_by_id, get_by_logical_id}
use cemp_mobile.Database.Table.{select_one}
use cemp_mobile.Ui.Composer.{ChatComposer, editing, TextCalls, send}
use cemp_mobile.Ui.Composer.Sending.{IsQueued, send_queues}

abbrev plain_calls : TextCalls
plain_calls = record { trim = λ t. t; byte_length = λ t. 5 }

abbrev hello_composer : ChatComposer
hello_composer = record { text = "hello"; status = editing; error = none }

abbrev quiet_conversation : Conversation
quiet_conversation = record { id = 1; last_activity_at_ms = 0 }

abbrev quiet_store : Store
quiet_store = record { messages = []; conversations = quiet_conversation ∷ [] }

send_queues_example :
    (m : Message) × (s' : Store) × (send plain_calls 1 "aa" 7 hello_composer quiet_store
      ≡ (some m, record { text = ""; status = editing; error = none }, s'))
    × IsQueued 1 (some "hello") "aa" 7 quiet_store m
    × (get_by_id m.id s'.messages ≡ some m)
unfolding get_by_logical_id select_one
send_queues_example =
    send_queues plain_calls 1 "aa" 7 hello_composer quiet_store quiet_conversation refl
      (str_apart "hello" "" refl) (omega arith) refl refl
