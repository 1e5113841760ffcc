-- ===== src/Ui/Bubble.antt =====
-- packages/cemp-ui/src/bubble.ts: what the bubble of a stored message shows.
pub mod Presentations
pub mod Examples
use cemp_mobile.Prelude.{ℕ, Bool, true, false, Option, none, some}
use cemp_mobile.Database.MessageStates.{
  MessageState, MessageDirection, outgoing, incoming, draft, queued, encrypting,
  building_transaction, awaiting_signature, submitting, pending, committed, available_on_chain,
  downloaded_by_recipient, acknowledged, reclaim_queued, reclaim_pending, reclaimed, expired,
  failed, discovered, downloading, decrypting, received, displayed, response_queued, response_sent,
  awaiting_remote_reclaim, remote_reclaimed, invalid,
}

pub data BubbleStatus : Type 0 where
  as_draft sending sent delivered as_acknowledged as_reclaimed as_failed as_expired : BubbleStatus
  receiving as_received as_invalid : BubbleStatus

pub record BubblePresentation : Type 0 where
  pub status : BubbleStatus
  pub show_spinner : Bool
  pub can_retry : Bool

abbrev shows : BubbleStatus → Bool → Bool → Option BubblePresentation
shows status spinner retry =
    some (record { status = status; show_spinner = spinner; can_retry = retry })

abbrev pub outgoing_map : MessageState → Option BubblePresentation
outgoing_map draft = shows as_draft false false
outgoing_map queued = shows sending true false
outgoing_map encrypting = shows sending true false
outgoing_map building_transaction = shows sending true false
outgoing_map awaiting_signature = shows sending true false
outgoing_map submitting = shows sending true false
outgoing_map pending = shows sent false false
outgoing_map committed = shows sent false false
outgoing_map available_on_chain = shows sent false false
outgoing_map downloaded_by_recipient = shows delivered false false
outgoing_map acknowledged = shows as_acknowledged false false
outgoing_map reclaim_queued = shows as_acknowledged false false
outgoing_map reclaim_pending = shows as_acknowledged false false
outgoing_map reclaimed = shows as_reclaimed false false
outgoing_map expired = shows as_expired false false
outgoing_map failed = shows as_failed false true
outgoing_map _ = none

abbrev pub incoming_map : MessageState → Option BubblePresentation
incoming_map discovered = shows receiving true false
incoming_map downloading = shows receiving true false
incoming_map decrypting = shows receiving true false
incoming_map received = shows as_received false false
incoming_map displayed = shows as_received false false
incoming_map response_queued = shows as_received false false
incoming_map response_sent = shows as_received false false
incoming_map awaiting_remote_reclaim = shows as_received false false
incoming_map remote_reclaimed = shows as_received false false
incoming_map invalid = shows as_invalid false false
incoming_map _ = none

abbrev pub or_neutral : Option BubblePresentation → BubblePresentation
or_neutral none = record { status = as_invalid; show_spinner = false; can_retry = false }
or_neutral (some presentation) = presentation

unfoldable pub message_bubble_state : MessageDirection → MessageState → BubblePresentation
message_bubble_state outgoing state = or_neutral (outgoing_map state)
message_bubble_state incoming state = or_neutral (incoming_map state)
