-- ===== src/Database/MessageStates/Histories.antt =====
-- Sequences of legal transitions, as `transitionState` makes them.
use cemp_mobile.Prelude.{
  ◌-◌, ◌≤◌, ◌<◌, ◌≡◌, refl, Bool, true, false, not, ◌&&◌, List, [], ◌∷◌, arith, all, any,
  Bool-cases, inl, inr, leb, ltb, take, drop,
}
use cemp_mobile.Database.MessageStates.{
  MessageState, MessageDirection, outgoing, incoming, rank, same_state, all_states,
  can_transition_message, initial_message_state, draft, discovered, failed, queued, committed,
  acknowledged, reclaimed, response_sent, outgoing_message_states, incoming_message_states, expired,
  invalid,
}
use cemp_mobile.Database.MessageStates.Laws.{for_all_pairs, implies, implies-elim, belongs}

-- The states that a message passes after `s`, each reached by a legal transition.
abbrev pub IsLegal : MessageDirection → MessageState → List MessageState → Type 0
IsLegal d s [] = Unit {0}
IsLegal d s (t ∷ ts) = (can_transition_message d s t ≡ true) × IsLegal d t ts

abbrev pub final_state : MessageState → List MessageState → MessageState
final_state s [] = s
final_state s (t ∷ ts) = final_state t ts

-- A set of states that each legal transition enters at `gate` only is entered through `gate`.
abbrev EntersAt : MessageDirection → MessageState → (MessageState → Bool) → Type 0
EntersAt d gate inside =
    (s t : MessageState)
    → can_transition_message d s t ≡ true
    → inside s ≡ false
    → inside t ≡ true
    → same_state gate t ≡ true

passes_gate :
    (d : MessageDirection) (gate : MessageState) (inside : MessageState → Bool)
    → EntersAt d gate inside
    → (s : MessageState) (ts : List MessageState) → IsLegal d s ts
    → inside s ≡ false
    → inside (final_state s ts) ≡ true
    → any (same_state gate) ts ≡ true
passes_gate d gate inside only s [] l out into = cc
passes_gate d gate inside only s (t ∷ ts) l out into = elim (Bool-cases (inside t)) [
  | inl e ↦ rw (only s t l.0 out e)
  | inr e ↦ ground (arith, passes_gate d gate inside only t ts l.1 e into)
]

abbrev enters_at :
    MessageDirection → MessageState → (MessageState → Bool) → MessageState → MessageState → Bool
enters_at d gate inside s t =
    implies (can_transition_message d s t && not (inside s) && inside t) (same_state gate t)

enters_at-only :
    (d : MessageDirection) (gate : MessageState) (inside : MessageState → Bool)
    → all (λ s. all (enters_at d gate inside s) all_states) all_states ≡ true
    → EntersAt d gate inside
enters_at-only d gate inside table s t h out into =
    implies-elim (can_transition_message d s t && not (inside s) && inside t) _
      (for_all_pairs (enters_at d gate inside) table s t) (rw (h, out, into))

-- The outgoing states after the recipient's acknowledgement.
abbrev pub is_acknowledged : MessageState → Bool
is_acknowledged s = leb (rank acknowledged) (rank s) && leb (rank s) (rank reclaimed)

acknowledged_table :
    all (λ s. all (enters_at outgoing acknowledged is_acknowledged s) all_states) all_states ≡ true
unfolding can_transition_message
acknowledged_table = refl

-- An outgoing message is never reclaimed, nor queued for it, without having been acknowledged:
-- every history from `draft` to a state from `acknowledged` to `reclaimed` passes `acknowledged`.
pub reclaim_needs_acknowledged :
    (ts : List MessageState)
    → IsLegal outgoing (initial_message_state outgoing) ts
    → is_acknowledged (final_state (initial_message_state outgoing) ts) ≡ true
    → any (same_state acknowledged) ts ≡ true
unfolding initial_message_state
reclaim_needs_acknowledged ts l h =
    passes_gate outgoing acknowledged is_acknowledged
      (enters_at-only outgoing acknowledged is_acknowledged acknowledged_table) draft ts l refl h

-- The incoming states after the response was sent.
abbrev pub is_responded : MessageState → Bool
is_responded s = leb (rank response_sent) (rank s) && ltb (rank s) (rank invalid)

responded_table :
    all (λ s. all (enters_at incoming response_sent is_responded s) all_states) all_states ≡ true
unfolding can_transition_message
responded_table = refl

-- An incoming message counts as reclaimed by its sender, or awaits that, only after a response was
-- sent: every history from `discovered` to such a state passes `response_sent`.
pub remote_reclaim_needs_response :
    (ts : List MessageState)
    → IsLegal incoming (initial_message_state incoming) ts
    → is_responded (final_state (initial_message_state incoming) ts) ≡ true
    → any (same_state response_sent) ts ≡ true
unfolding initial_message_state
remote_reclaim_needs_response ts l h =
    passes_gate incoming response_sent is_responded
      (enters_at-only incoming response_sent is_responded responded_table) discovered ts l refl h

-- A history from the initial state to each state of the direction.
abbrev pub way_to : MessageDirection → MessageState → List MessageState
way_to outgoing failed = failed ∷ []
way_to outgoing expired = queued ∷ expired ∷ []
way_to outgoing s = take (rank s) (drop 1 outgoing_message_states)
way_to incoming invalid = invalid ∷ []
way_to incoming s = take (rank s - rank discovered) (drop 1 incoming_message_states)

-- Each state of a direction is reached by some history from the initial state.
pub way_to-IsLegal :
    (d : MessageDirection) (s : MessageState)
    → belongs d s ≡ true
    → IsLegal d (initial_message_state d) (way_to d s)
      × (final_state (initial_message_state d) (way_to d s) ≡ s)
unfolding initial_message_state can_transition_message
way_to-IsLegal outgoing draft h = ground arith
way_to-IsLegal outgoing _ h = ground arith
way_to-IsLegal incoming draft h = ground arith
way_to-IsLegal incoming _ h = ground arith

-- The retry edge is not kept to failures before the commit: from each state from `committed` to
-- `reclaim_pending`, `failed` and then `queued` are legal.
pub requeue_after_commit :
    (s : MessageState)
    → rank committed ≤ rank s
    → rank s < rank reclaimed
    → IsLegal outgoing s (failed ∷ queued ∷ [])
unfolding can_transition_message
requeue_after_commit draft h k = ground arith
requeue_after_commit _ h k = ground arith
