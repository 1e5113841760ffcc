-- ===== src/Database/MessageStates/Examples.antt =====
-- The state machines at concrete states.
use cemp_mobile.Prelude.{◌≡◌, refl, true, any}
use cemp_mobile.Database.MessageStates.{
  outgoing, incoming, pending, expired, reclaimed, remote_reclaimed, response_sent, same_state,
  initial_message_state, can_transition_message,
}
use cemp_mobile.Database.MessageStates.Laws.{can_transition-rule, rule}
use cemp_mobile.Database.MessageStates.Histories.{
  IsLegal, final_state, way_to, way_to-IsLegal, remote_reclaim_needs_response,
}

can_transition-rule_example :
    can_transition_message outgoing pending expired ≡ rule outgoing pending expired
can_transition-rule_example = can_transition-rule outgoing pending expired

way_to-IsLegal_example :
    IsLegal outgoing (initial_message_state outgoing) (way_to outgoing reclaimed)
    × (final_state (initial_message_state outgoing) (way_to outgoing reclaimed) ≡ reclaimed)
way_to-IsLegal_example = way_to-IsLegal outgoing reclaimed refl

remote_reclaim_needs_response_example :
    any (same_state response_sent) (way_to incoming remote_reclaimed) ≡ true
unfolding initial_message_state
remote_reclaim_needs_response_example =
    remote_reclaim_needs_response (way_to incoming remote_reclaimed)
      (way_to-IsLegal incoming remote_reclaimed refl).0 refl
