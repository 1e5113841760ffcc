-- ===== src/Database/MessageStates/Laws.antt =====
-- Facts about every state, or every pair of states, checked by running the code on all of them.
use cemp_mobile.Prelude.{
  ℕ, zero, suc, ◌+◌, ◌≡◌, refl, sym, ap, Bool, true, false, not, ◌&&◌, ◌||◌, List, [], ◌∷◌, some,
  arith, all, ==→eq, ◌==◌, ltb, get_elem?, any,
}
use cemp_mobile.Database.MessageStates.{
  MessageState, MessageDirection, outgoing, incoming, rank, same_state, includes, all_states,
  terminal_message_states, can_transition_message, is_outgoing_state, is_incoming_state, draft,
  failed, queued, pending, expired, reclaimed, reclaim_pending, reclaim_queued, remote_reclaimed,
  invalid,
}

all_states-rank : (s : MessageState) → get_elem? all_states (rank s) ≡ some s
all_states-rank draft = refl
all_states-rank _ = refl

get_elem?-all :
    (p : MessageState → Bool) (xs : List MessageState) (i : ℕ) (s : MessageState)
    → all p xs ≡ true
    → get_elem? xs i ≡ some s
    → p s ≡ true
get_elem?-all p [] i s h e = cc
get_elem?-all p (x ∷ xs) zero s h e = ground arith
get_elem?-all p (x ∷ xs) (suc i) s h e = get_elem?-all p xs i s (ground arith) e

-- A test that passes on the list of all states holds of every state.
pub for_all_states :
    (p : MessageState → Bool) → all p all_states ≡ true → (s : MessageState) → p s ≡ true
for_all_states p h s = get_elem?-all p all_states (rank s) s h (all_states-rank s)

pub for_all_pairs :
    (p : MessageState → MessageState → Bool)
    → all (λ s. all (p s) all_states) all_states ≡ true
    → (s t : MessageState) → p s t ≡ true
for_all_pairs p h s t = for_all_states (p s) (for_all_states (λ x. all (p x) all_states) h s) t

pub same_state-eq : (s t : MessageState) → same_state s t ≡ true → s ≡ t
same_state-eq s t h = ground (
  arith,
  all_states-rank s,
  all_states-rank t,
  ap (get_elem? all_states) (==→eq (rank s) (rank t) h),
)

abbrev pub implies : Bool → Bool → Bool
implies a b = not a || b

pub implies-elim : (a b : Bool) → implies a b ≡ true → a ≡ true → b ≡ true
implies-elim a b h e = ground arith

-- Does the state belong to the direction?
abbrev pub belongs : MessageDirection → MessageState → Bool
belongs outgoing s = is_outgoing_state s
belongs incoming s = is_incoming_state s

abbrev pub is_terminal : MessageState → Bool
is_terminal = includes terminal_message_states

abbrev joins_own_states : MessageDirection → MessageState → MessageState → Bool
joins_own_states d s t =
    implies (can_transition_message d s t) (belongs d s && belongs d t && not (is_terminal s))

joins_own_states_table :
    (d : MessageDirection) → all (λ s. all (joins_own_states d s) all_states) all_states ≡ true
unfolding can_transition_message
joins_own_states_table outgoing = refl
joins_own_states_table incoming = refl

-- A legal transition joins two states of its direction, and none leaves a terminal state.
pub can_transition-belongs :
    (d : MessageDirection) (s t : MessageState)
    → can_transition_message d s t ≡ true
    → (belongs d s ≡ true) × (belongs d t ≡ true) × (is_terminal s ≡ false)
can_transition-belongs d s t h = ground (
  arith,
  implies-elim (can_transition_message d s t) (belongs d s && belongs d t && not (is_terminal s))
      (for_all_pairs (joins_own_states d) (joins_own_states_table d) s t) h,
)

-- A state of a direction is terminal exactly when no transition of that direction leaves it.
abbrev agrees : Bool → Bool → Bool
agrees true b = b
agrees false b = not b

agrees-eq : (a b : Bool) → agrees a b ≡ true → a ≡ b
agrees-eq true b h = sym h
agrees-eq false true h = cc
agrees-eq false false h = refl

abbrev ends_only_at_terminals : MessageDirection → MessageState → Bool
ends_only_at_terminals d s =
    implies (belongs d s)
      (agrees (any (can_transition_message d s) all_states) (not (is_terminal s)))

ends_only_at_terminals_table :
    (d : MessageDirection) → all (ends_only_at_terminals d) all_states ≡ true
unfolding can_transition_message
ends_only_at_terminals_table outgoing = refl
ends_only_at_terminals_table incoming = refl

pub can_leave_iff_live :
    (d : MessageDirection) (s : MessageState)
    → belongs d s ≡ true
    → any (can_transition_message d s) all_states ≡ not (is_terminal s)
can_leave_iff_live d s h = agrees-eq _ _ (
    implies-elim (belongs d s) _
      (for_all_states (ends_only_at_terminals d) (ends_only_at_terminals_table d) s) h)

-- The rule of the outgoing machine by the order of its states: one step on along the way to
-- `reclaimed`, to `failed` from each of those, to `expired` from `queued` and `pending`, and the two
-- retries, `failed` to `queued` and `reclaim_pending` to `reclaim_queued`.
abbrev pub outgoing_rule : MessageState → MessageState → Bool
outgoing_rule s t =
    (ltb (rank s) (rank reclaimed) && (rank t == rank s + 1))
    || (ltb (rank s) (rank reclaimed) && same_state t failed)
    || ((same_state s queued || same_state s pending) && same_state t expired)
    || (same_state s failed && same_state t queued)
    || (same_state s reclaim_pending && same_state t reclaim_queued)

-- The rule of the incoming machine: one step on, or to `invalid`, from each state before the last.
abbrev pub incoming_rule : MessageState → MessageState → Bool
incoming_rule s t =
    is_incoming_state s
    && ltb (rank s) (rank remote_reclaimed)
    && ((rank t == rank s + 1) || same_state t invalid)

abbrev pub rule : MessageDirection → MessageState → MessageState → Bool
rule outgoing = outgoing_rule
rule incoming = incoming_rule

rule_table :
    (d : MessageDirection)
    → all (λ s. all (λ t. agrees (can_transition_message d s t) (rule d s t)) all_states) all_states
      ≡ true
unfolding can_transition_message
rule_table outgoing = refl
rule_table incoming = refl

-- The transition tables are these rules.
pub can_transition-rule :
    (d : MessageDirection) (s t : MessageState) → can_transition_message d s t ≡ rule d s t
can_transition-rule d s t =
    agrees-eq _ _
      (for_all_pairs (λ x y. agrees (can_transition_message d x y) (rule d x y)) (rule_table d) s t)

abbrev same_bool : Bool → Bool → Bool
same_bool true b = b
same_bool false b = not b

same_bool-eq : (a b : Bool) → same_bool a b ≡ true → a ≡ b
same_bool-eq true true h = refl
same_bool-eq true false h = absurd (cc h)
same_bool-eq false true h = absurd (cc h)
same_bool-eq false false h = refl

-- The moves as rules, apart from the tables: an outgoing message goes on to the next state up to
-- `reclaimed` or fails, expires where it was queued or pending, goes back from `reclaim_pending` to
-- `reclaim_queued`, and from `failed` to `queued`; an incoming one goes on to the next state up to
-- `remote_reclaimed` or is invalid.
abbrev pub is_move : MessageDirection → MessageState → MessageState → Bool
is_move outgoing s t =
    (ltb (rank s) (rank reclaimed) && (rank t == suc (rank s) || same_state t failed))
    || (same_state t expired && (same_state s queued || same_state s pending))
    || (same_state s reclaim_pending && same_state t reclaim_queued)
    || (same_state s failed && same_state t queued)
is_move incoming s t =
    ltb (rank failed) (rank s)
    && ltb (rank s) (rank remote_reclaimed)
    && (rank t == suc (rank s) || same_state t invalid)

moves_agree :
    (d : MessageDirection)
    → all
        (λ s. all (λ t. same_bool (can_transition_message d s t) (is_move d s t)) all_states)
        all_states
      ≡ true
unfolding can_transition_message
moves_agree outgoing = refl
moves_agree incoming = refl

-- The tables hold the rules' moves and no others.
pub can_transition-is_move :
    (d : MessageDirection) (s t : MessageState) → can_transition_message d s t ≡ is_move d s t
can_transition-is_move d s t = same_bool-eq _ _ (
    for_all_pairs (λ s t. same_bool (can_transition_message d s t) (is_move d s t)) (moves_agree d)
      s t)
