-- ===== src/Ckb/Lifecycle/History.antt =====
-- No flow changes the chat's history: its rows, their conversations and their texts.
use cemp_mobile.Prelude.{ℕ, ◌≡◌, refl, ◌⊎◌, List, Option, Result, ok, err, String, map}
use cemp_mobile.Database.Errors.{DatabaseError}
use cemp_mobile.Database.MessageStates.{MessageState, MessageDirection}
use cemp_mobile.Database.Messages.{Message, set_state}
use cemp_mobile.Ckb.Lifecycle.{World, settle}

-- What a reader of the chat sees of a row, whatever its state.
pub record Text : Type 0 where
  pub id : ℕ
  pub conversation_id : ℕ
  pub direction : MessageDirection
  pub body : Option String
  pub logical_message_id : String
  pub created_at_ms : ℕ

abbrev pub text_of : Message → Text
text_of m = record {
  id = m.id;
  conversation_id = m.conversation_id;
  direction = m.direction;
  body = m.body;
  logical_message_id = m.logical_message_id;
  created_at_ms = m.created_at_ms;
}

abbrev pub texts : World → List Text
texts w = map text_of w.messages

-- An outcome of the store keeps what its table's write keeps.
pub settle-keeps :
    {T : Type 0} (P : World → Type 0) (write : T → World → World) (r : Result DatabaseError T)
    (w : World)
    → P w
    → ((t : T) → r ≡ ok t → P (write t w))
    → P (settle write r w).1
settle-keeps P write (ok t) w p k = k t refl
settle-keeps P write (err e) w p k = p

-- The table after a transition: as it was, or with the one row's state set.
abbrev Rows : ℕ → MessageState → ℕ → List Message → Result DatabaseError (List Message) → Type 0
Rows id to now ms (ok ms') = (ms' ≡ ms) ⊎ (ms' ≡ set_state id to now ms)
Rows id to now ms (err e) = Unit {0}
