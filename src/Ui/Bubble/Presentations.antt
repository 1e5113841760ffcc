-- ===== src/Ui/Bubble/Presentations.antt =====
-- The bubble against the state machine of the messages.
use cemp_mobile.Prelude.{◌≡◌, refl, Bool, true, false, not, ◌&&◌, arith}
use cemp_mobile.Database.MessageStates.{
  MessageState, MessageDirection, outgoing, incoming, can_transition_message, same_state, queued,
  draft,
}
use cemp_mobile.Database.MessageStates.Laws.{
  for_all_states, implies, implies-elim, belongs, is_terminal,
}
use cemp_mobile.Ui.Bubble.{message_bubble_state}

-- A retry is offered, and the table of transitions lets the message be queued again.
abbrev same_bool : Bool → Bool → Bool
same_bool true b = b
same_bool false b = not b

same_bool-eq : (a b : Bool) → same_bool a b ≡ true → a ≡ b
same_bool-eq true b h = ground arith
same_bool-eq false b h = ground arith

abbrev requeues : MessageDirection → MessageState → Bool
requeues d s = can_transition_message d s queued && not (same_state s draft)

abbrev is_busy : MessageDirection → MessageState → Bool
is_busy d s = not (is_terminal s) && not (message_bubble_state d s).can_retry && belongs d s

retry_checked :
    (d : MessageDirection) (s : MessageState)
    → same_bool (message_bubble_state d s).can_retry (requeues d s) ≡ true
unfolding message_bubble_state can_transition_message
retry_checked outgoing =
    for_all_states
      (λ s. same_bool (message_bubble_state outgoing s).can_retry (requeues outgoing s)) refl
retry_checked incoming =
    for_all_states
      (λ s. same_bool (message_bubble_state incoming s).can_retry (requeues incoming s)) refl

spinner_checked :
    (d : MessageDirection) (s : MessageState)
    → implies (message_bubble_state d s).show_spinner (is_busy d s) ≡ true
unfolding message_bubble_state
spinner_checked outgoing =
    for_all_states
      (λ s. implies (message_bubble_state outgoing s).show_spinner (is_busy outgoing s)) refl
spinner_checked incoming =
    for_all_states
      (λ s. implies (message_bubble_state incoming s).show_spinner (is_busy incoming s)) refl

-- The bubble offers a retry exactly for a message, not a draft, that the state machine lets back into
-- the queue.
pub can_retry_iff :
    (d : MessageDirection) (s : MessageState)
    → (message_bubble_state d s).can_retry
      ≡ (can_transition_message d s queued && not (same_state s draft))
can_retry_iff d s = same_bool-eq _ _ (retry_checked d s)

-- A spinner is shown only while the message is in a state of its direction that is not terminal, and
-- never together with a retry.
pub spinner_is_busy :
    (d : MessageDirection) (s : MessageState)
    → (message_bubble_state d s).show_spinner ≡ true
    → (is_terminal s ≡ false)
      × ((message_bubble_state d s).can_retry ≡ false)
      × (belongs d s ≡ true)
spinner_is_busy d s h =
    let busy = implies-elim _ _ (spinner_checked d s) h in
    (and_parts (is_terminal s) (message_bubble_state d s).can_retry (belongs d s) busy)
  where
    and_parts :
        (a b c : Bool) → (not a && not b && c) ≡ true → (a ≡ false) × (b ≡ false) × (c ≡ true)
    and_parts false false true e = (refl, refl, refl)
    and_parts true b c e = absurd (ground arith)
    and_parts false true c e = absurd (ground arith)
    and_parts false false false e = absurd (ground arith)
