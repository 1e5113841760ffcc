-- ===== src/Ui/Bubble/Examples.antt =====
-- The bubble of a failed message.
use cemp_mobile.Prelude.{◌≡◌, not, ◌&&◌}
use cemp_mobile.Database.MessageStates.{
  outgoing, failed, queued, draft, can_transition_message, same_state,
}
use cemp_mobile.Ui.Bubble.{message_bubble_state}
use cemp_mobile.Ui.Bubble.Presentations.{can_retry_iff}

can_retry_iff_example :
    (message_bubble_state outgoing failed).can_retry
    ≡ (can_transition_message outgoing failed queued && not (same_state failed draft))
can_retry_iff_example = can_retry_iff outgoing failed
