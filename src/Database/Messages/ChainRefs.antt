-- ===== src/Database/Messages/ChainRefs.antt =====
-- packages/cemp-database/src/repositories/messages.ts: the references of messages to cells, and the
-- listings of the workers.
use cemp_mobile.Prelude.{
  ℕ, Bool, List, [], ◌∷◌, ◌++◌, Option, none, some, String, str_eq, ◌==◌, ◌&&◌, ltb, not, take,
  false,
}
use cemp_mobile.Database.Table.{select_one, select_all, delete_where}
use cemp_mobile.Database.MessageStates.{MessageState, includes}
use cemp_mobile.Database.Messages.{Message}
use mathlib.Core.List.{reverse}

pub record MessageChainRef : Type 0 where
  pub message_id : ℕ
  pub tx_hash : Option String
  pub outpoint_index : Option ℕ
  pub reply_to_tx_hash : Option String
  pub reply_to_outpoint_index : Option ℕ

abbrev pub of_message : ℕ → MessageChainRef → Bool
of_message id ref = ref.message_id == id

-- INSERT ... ON CONFLICT (message_id) DO UPDATE: a row for each message.
unfoldable pub set_chain_ref : MessageChainRef → List MessageChainRef → List MessageChainRef
set_chain_ref ref refs = delete_where (of_message ref.message_id) refs ++ ref ∷ []

unfoldable pub get_chain_ref : ℕ → List MessageChainRef → Option MessageChainRef
get_chain_ref id refs = select_one (of_message id) refs

-- state IN (...) ORDER BY id LIMIT ?
unfoldable pub list_by_state : List MessageState → ℕ → List Message → List Message
list_by_state states limit messages =
    take limit (select_all (λ m. includes states m.state) messages)

abbrev pub envelope_is : String → Option String → Bool
envelope_is hex none = false
envelope_is hex (some other) = str_eq other hex

unfoldable pub get_by_envelope_message_id : String → List Message → Option Message
get_by_envelope_message_id hex messages =
    select_one (λ m. envelope_is hex m.envelope_message_id_hex) messages

-- `is_response` is the test logical_message_id LIKE 'response:%'.
unfoldable pub list_by_conversation :
    (String → Bool) → ℕ → Option ℕ → ℕ → List Message → List Message
list_by_conversation is_response conversation_id none limit messages = take limit (
    reverse (
      select_all
        (λ m. m.conversation_id == conversation_id && not (is_response m.logical_message_id))
        messages))
list_by_conversation is_response conversation_id (some before_id) limit messages = take limit (
    reverse (
      select_all
        (λ m.
          m.conversation_id == conversation_id
          && ltb m.id before_id
          && not (is_response m.logical_message_id))
        messages))
