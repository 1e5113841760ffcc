-- ===== src/Database/MessageStates.antt =====
-- packages/cemp-database/src/message-states.ts: the state machines of outgoing and incoming messages.
pub mod Laws
pub mod Histories
pub mod Examples
use cemp_mobile.Prelude.{ℕ, Bool, true, false, List, [], ◌∷◌, ◌==◌, ◌&&◌, any}

pub data MessageState : Type 0 where
  -- OUTGOING_MESSAGE_STATES
  draft queued encrypting building_transaction : MessageState
  awaiting_signature submitting pending committed : MessageState
  available_on_chain downloaded_by_recipient acknowledged reclaim_queued : MessageState
  reclaim_pending reclaimed expired failed : MessageState
  -- INCOMING_MESSAGE_STATES
  discovered downloading decrypting received : MessageState
  displayed response_queued response_sent awaiting_remote_reclaim : MessageState
  remote_reclaimed invalid : MessageState

pub data MessageDirection : Type 0 where
  outgoing incoming : MessageDirection

abbrev pub is_incoming_direction : MessageDirection → Bool
is_incoming_direction incoming = true
is_incoming_direction outgoing = false

-- The place of a state in the two lists of states, by which states are compared.
abbrev pub rank : MessageState → ℕ
rank draft = 0
rank queued = 1
rank encrypting = 2
rank building_transaction = 3
rank awaiting_signature = 4
rank submitting = 5
rank pending = 6
rank committed = 7
rank available_on_chain = 8
rank downloaded_by_recipient = 9
rank acknowledged = 10
rank reclaim_queued = 11
rank reclaim_pending = 12
rank reclaimed = 13
rank expired = 14
rank failed = 15
rank discovered = 16
rank downloading = 17
rank decrypting = 18
rank received = 19
rank displayed = 20
rank response_queued = 21
rank response_sent = 22
rank awaiting_remote_reclaim = 23
rank remote_reclaimed = 24
rank invalid = 25

abbrev pub same_state : MessageState → MessageState → Bool
same_state a b = rank a == rank b

-- `states.includes(state)`.
abbrev pub includes : List MessageState → MessageState → Bool
includes states state = any (λ s. same_state s state) states

abbrev pub outgoing_message_states : List MessageState
outgoing_message_states =
    draft ∷ queued ∷ encrypting ∷ building_transaction ∷ awaiting_signature ∷ submitting ∷ pending
    ∷ committed ∷ available_on_chain ∷ downloaded_by_recipient ∷ acknowledged ∷ reclaim_queued
    ∷ reclaim_pending ∷ reclaimed ∷ expired ∷ failed ∷ []

abbrev pub incoming_message_states : List MessageState
incoming_message_states =
    discovered ∷ downloading ∷ decrypting ∷ received ∷ displayed ∷ response_queued ∷ response_sent
    ∷ awaiting_remote_reclaim ∷ remote_reclaimed ∷ invalid ∷ []

abbrev pub terminal_message_states : List MessageState
terminal_message_states = reclaimed ∷ expired ∷ remote_reclaimed ∷ invalid ∷ []

-- OUTGOING_IN_FLIGHT, what `outgoingInFlightStates` returns.
abbrev pub outgoing_in_flight_states : List MessageState
outgoing_in_flight_states =
    draft ∷ queued ∷ encrypting ∷ building_transaction ∷ awaiting_signature ∷ submitting ∷ pending
    ∷ []

abbrev pub outgoing_transitions : MessageState → List MessageState
outgoing_transitions draft = queued ∷ failed ∷ []
outgoing_transitions queued = encrypting ∷ failed ∷ expired ∷ []
outgoing_transitions encrypting = building_transaction ∷ failed ∷ []
outgoing_transitions building_transaction = awaiting_signature ∷ failed ∷ []
outgoing_transitions awaiting_signature = submitting ∷ failed ∷ []
outgoing_transitions submitting = pending ∷ failed ∷ []
outgoing_transitions pending = committed ∷ failed ∷ expired ∷ []
outgoing_transitions committed = available_on_chain ∷ failed ∷ []
outgoing_transitions available_on_chain = downloaded_by_recipient ∷ failed ∷ []
outgoing_transitions downloaded_by_recipient = acknowledged ∷ failed ∷ []
outgoing_transitions acknowledged = reclaim_queued ∷ failed ∷ []
outgoing_transitions reclaim_queued = reclaim_pending ∷ failed ∷ []
outgoing_transitions reclaim_pending = reclaimed ∷ reclaim_queued ∷ failed ∷ []
outgoing_transitions failed = queued ∷ []
outgoing_transitions _ = []

abbrev pub incoming_transitions : MessageState → List MessageState
incoming_transitions discovered = downloading ∷ invalid ∷ []
incoming_transitions downloading = decrypting ∷ invalid ∷ []
incoming_transitions decrypting = received ∷ invalid ∷ []
incoming_transitions received = displayed ∷ invalid ∷ []
incoming_transitions displayed = response_queued ∷ invalid ∷ []
incoming_transitions response_queued = response_sent ∷ invalid ∷ []
incoming_transitions response_sent = awaiting_remote_reclaim ∷ invalid ∷ []
incoming_transitions awaiting_remote_reclaim = remote_reclaimed ∷ invalid ∷ []
incoming_transitions _ = []

abbrev pub is_outgoing_state : MessageState → Bool
is_outgoing_state = includes outgoing_message_states

abbrev pub is_incoming_state : MessageState → Bool
is_incoming_state = includes incoming_message_states

unfoldable pub initial_message_state : MessageDirection → MessageState
initial_message_state outgoing = draft
initial_message_state incoming = discovered

unfoldable pub can_transition_message : MessageDirection → MessageState → MessageState → Bool
can_transition_message outgoing from to =
    is_outgoing_state from && is_outgoing_state to && includes (outgoing_transitions from) to
can_transition_message incoming from to =
    is_incoming_state from && is_incoming_state to && includes (incoming_transitions from) to

-- Every state once.
abbrev pub all_states : List MessageState
all_states =
    draft ∷ queued ∷ encrypting ∷ building_transaction ∷ awaiting_signature ∷ submitting ∷ pending
    ∷ committed ∷ available_on_chain ∷ downloaded_by_recipient ∷ acknowledged ∷ reclaim_queued
    ∷ reclaim_pending ∷ reclaimed ∷ expired ∷ failed ∷ discovered ∷ downloading ∷ decrypting
    ∷ received ∷ displayed ∷ response_queued ∷ response_sent ∷ awaiting_remote_reclaim
    ∷ remote_reclaimed ∷ invalid ∷ []
