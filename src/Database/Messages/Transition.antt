-- ===== src/Database/Messages/Transition.antt =====
-- `transition_state`: every branch, and the history that a sequence of calls leaves.
use cemp_mobile.Prelude.{
  ℕ, ◌≡◌, refl, sym, subst, ◌∙◌, ap, ◌≢◌, true, false, List, [], ◌∷◌, Option, some, none, Result,
  ok, err, arith, Option-cases, inl, inr, ◌⊎◌, ◌==◌, ==→eq, Bool-cases, if◌then◌else◌,
}
use cemp_mobile.Database.Table.{select_one-holds, select_one-update_self, select_one-update_other}
use cemp_mobile.Database.Errors.{DatabaseError, not_found, illegal_state_transition}
use cemp_mobile.Database.MessageStates.{
  MessageState, MessageDirection, rank, same_state, can_transition_message,
}
use cemp_mobile.Database.MessageStates.Laws.{is_move, can_transition-is_move, same_state-eq}
use cemp_mobile.Database.MessageStates.Histories.{final_state}
use cemp_mobile.Database.Messages.{Message, of_id, get_by_id, set_state, transition_state}

abbrev moved : MessageState → ℕ → Message → Message
moved to now m = record m { state = to; updated_at_ms = now }

get_by_id-set_state :
    (id : ℕ) (to : MessageState) (now : ℕ) (ms : List Message) (m : Message)
    → get_by_id id ms ≡ some m
    → (get_by_id id (set_state id to now ms) ≡ some (moved to now m))
      × ((other : ℕ) → other ≢ id → get_by_id other (set_state id to now ms) ≡ get_by_id other ms)
unfolding get_by_id set_state
get_by_id-set_state id to now ms m h = (
  select_one-update_self (of_id id) (moved to now) m ms (select_one-holds (of_id id) ms h) h,
  (λ other ne.
      select_one-update_other (of_id id) (of_id other) (moved to now) ms (λ a e. ground arith)
        (λ a e. ground arith)),
)

-- The four branches of the call on the table `ms`, by the row that the id finds.
abbrev pub Outcome :
    ℕ
    → MessageState
    → ℕ
    → List Message
    → Option Message
    → Result DatabaseError (Message × List Message)
    → Type 0
Outcome id to now ms none r = r ≡ err not_found
Outcome id to now ms (some m) (err e) =
    (e ≡ illegal_state_transition)
    × (same_state m.state to ≡ false)
    × (can_transition_message m.direction m.state to ≡ false)
Outcome id to now ms (some m) (ok (m', ms')) =
    ((same_state m.state to ≡ true) × (m' ≡ m) × (ms' ≡ ms))
    ⊎ ((can_transition_message m.direction m.state to ≡ true)
        × (m' ≡ record m { state = to; updated_at_ms = now })
        × (get_by_id id ms' ≡ some m')
        × ((other : ℕ) → other ≢ id → get_by_id other ms' ≡ get_by_id other ms))

-- `transition_state` refuses an unknown id and a forbidden move, does nothing on the current state,
-- and otherwise stores the new state in that row alone.
pub transition-Outcome :
    (id : ℕ) (to : MessageState) (now : ℕ) (ms : List Message)
    → Outcome id to now ms (get_by_id id ms) (transition_state id to now ms)
unfolding transition_state
transition-Outcome id to now ms = elim (Option-cases (get_by_id id ms)) [
  | inl e ↦ rw (e, transition_state) refl
  | inr (m, e) ↦
      rw (e, transition_state)
        (elim (Bool-cases (same_state m.state to)) [
          | inl same ↦ rw same (inl (same, refl, refl))
          | inr apart ↦
              rw apart (elim (Bool-cases (can_transition_message m.direction m.state to)) [
                | inr no_edge ↦ rw no_edge (refl, apart, no_edge)
                | inl edge ↦
                    let stored = get_by_id-set_state id to now ms m e in
                    rw edge (rw stored.0 (inr (edge, refl, stored.0, stored.1)))
              ])
        ])
]

-- An allowed move of a stored message succeeds, and the message is found in its new state.
pub transition_moves :
    (id : ℕ) (to : MessageState) (now : ℕ) (ms : List Message) (m : Message)
    → get_by_id id ms ≡ some m
    → same_state m.state to ≡ false
    → can_transition_message m.direction m.state to ≡ true
    → (ms' : List Message) × (transition_state id to now ms
        ≡ ok (record m { state = to; updated_at_ms = now }, ms'))
      × (get_by_id id ms' ≡ some (record m { state = to; updated_at_ms = now }))
      × ((other : ℕ) → other ≢ id → get_by_id other ms' ≡ get_by_id other ms)
unfolding transition_state
transition_moves id to now ms m h apart edge =
    let stored = get_by_id-set_state id to now ms m h in
    (
      set_state id to now ms,
      rw (h, transition_state) (rw apart (rw edge (rw stored.0 refl))),
      stored.0,
      stored.1,
    )

-- A sequence of calls from any worker, in the order in which the transactions commit.
abbrev pub after : List Message → Result DatabaseError (Message × List Message) → List Message
after ms (ok (m, ms')) = ms'
after ms (err e) = ms

unfoldable pub run : List Message → List (ℕ × MessageState × ℕ) → List Message
run ms [] = ms
run ms ((id, to, now) ∷ calls) = run (after ms (transition_state id to now ms)) calls

-- The states that the row of `id`, at `s` before the calls, has in turn: its state after each call that
-- changed it.
abbrev next_state : MessageState → Option Message → List MessageState → List MessageState
next_state s none states = states
next_state s (some m) states = if same_state s m.state then states else m.state ∷ states

abbrev state_in : MessageState → Option Message → MessageState
state_in s none = s
state_in s (some m) = m.state

unfoldable pub states_of :
    ℕ → MessageState → List Message → List (ℕ × MessageState × ℕ) → List MessageState
unfolding transition_state get_by_id
states_of id s ms [] = []
states_of id s ms ((other, to, now) ∷ calls) =
    let ms' = after ms (transition_state other to now ms) in
    let rest = states_of id (state_in s (get_by_id id ms')) ms' calls in
    next_state s (get_by_id id ms') rest

-- Each state is a move of the rules away from the one before it.
abbrev pub IsPath : MessageDirection → MessageState → List MessageState → Type 0
IsPath d s [] = Unit {0}
IsPath d s (t ∷ ts) = (is_move d s t ≡ true) × IsPath d t ts

-- The message `m` is still found under `id`, in its direction, at the last of the states that its row
-- has had, which follow the rules from `m.state`.
abbrev pub IsFollowed : ℕ → Message → List Message → List (ℕ × MessageState × ℕ) → Type 0
IsFollowed id m ms calls =
    (m' : Message) × (get_by_id id (run ms calls) ≡ some m')
    × (m'.direction ≡ m.direction)
    × IsPath m.direction m.state (states_of id m.state ms calls)
    × (m'.state ≡ final_state m.state (states_of id m.state ms calls))

one_call :
    (id : ℕ) (m : Message) (ms : List Message) (other : ℕ) (to : MessageState) (now : ℕ)
    → get_by_id id ms ≡ some m
    → (m' : Message) × (get_by_id id (after ms (transition_state other to now ms)) ≡ some m')
      × (m'.direction ≡ m.direction)
      × ((m'.state ≡ m.state) ⊎ (can_transition_message m.direction m.state m'.state ≡ true))
one_call id m ms other to now h =
    go (get_by_id other ms) (transition_state other to now ms) refl
      (transition-Outcome other to now ms)
  where
    go :
        (found : Option Message) (r : Result DatabaseError (Message × List Message))
        → get_by_id other ms ≡ found
        → Outcome other to now ms found r
        → (m' : Message) × (get_by_id id (after ms r) ≡ some m')
          × (m'.direction ≡ m.direction)
          × ((m'.state ≡ m.state) ⊎ (can_transition_message m.direction m.state m'.state ≡ true))
    go none r e o = (m, rw o h, refl, inl refl)
    go (some x) (err z) e o = (m, h, refl, inl refl)
    go (some x) (ok (y, ms')) e (inl o) = (m, rw o.2 h, refl, inl refl)
    go (some x) (ok (y, ms')) e (inr o) = elim (Bool-cases (other == id)) [
      | inl hit ↦
          let same : x ≡ m = ground (arith, e, h) in
          let kept : y.direction ≡ m.direction =
            ap (λ z. z.direction) o.1 ∙ ap (λ z. z.direction) same in
          let edge : can_transition_message m.direction m.state y.state ≡ true =
            ap (can_transition_message m.direction m.state) (ap (λ z. z.state) o.1)
            ∙ subst (λ z. can_transition_message z.direction z.state to ≡ true) same o.0 in
          (y, ap (λ i. get_by_id i ms') (sym (==→eq other id hit)) ∙ o.2, kept, inr edge)
      | inr miss ↦ (m, o.3 id (λ z. ground (arith, miss)) ∙ h, refl, inl refl)
    ]

-- One more call in front of a path.
prepend :
    (d : MessageDirection) (s : MessageState) (m' : Message) (f : MessageState)
    (ts : List MessageState)
    → m'.direction ≡ d
    → (m'.state ≡ s) ⊎ (can_transition_message d s m'.state ≡ true)
    → IsPath m'.direction m'.state ts
    → f ≡ final_state m'.state ts
    → IsPath d s (next_state s (some m') ts) × (f ≡ final_state s (next_state s (some m') ts))
prepend d s m' f ts e move path q = elim (Bool-cases (same_state s m'.state)) [
  | inl same ↦
      let p : m'.state ≡ s = sym (same_state-eq s m'.state same) in
      rw same (
        subst (λ x. IsPath x s ts) e (subst (λ x. IsPath m'.direction x ts) p path),
        q ∙ ap (λ x. final_state x ts) p,
      )
  | inr apart ↦ rw apart (elim move [
    | inl p ↦ absurd (stuck p apart)
    | inr edge ↦ (
      (sym (can_transition-is_move d s m'.state) ∙ edge, subst (λ x. IsPath x m'.state ts) e path),
      q,
    )
  ])
]
  where
    stuck : m'.state ≡ s → same_state s m'.state ≡ false → ⊥
    stuck p apart = ground (arith, ap rank p, apart)

-- No sequence of calls, from whatever workers, loses a message or changes its direction, and the
-- states that its row has in turn follow the rules: on to the next state or to `failed` (`invalid`
-- for an incoming message), expired from `queued` or `pending`, back from `reclaim_pending` to
-- `reclaim_queued` and from `failed` to `queued`.
pub run-IsFollowed :
    (id : ℕ) (m : Message) (ms : List Message) (calls : List (ℕ × MessageState × ℕ))
    → get_by_id id ms ≡ some m
    → IsFollowed id m ms calls
unfolding run states_of
run-IsFollowed id m ms [] h = (m, h, refl, tt, refl)
run-IsFollowed id m ms ((other, to, now) ∷ calls) h =
    let (m', found, same, move) = one_call id m ms other to now h in
    let (last, there, direction, path, final) = run-IsFollowed id m' _ calls found in
    let (path', final') =
      prepend m.direction m.state m' last.state (states_of id m'.state _ calls) same move path
        final in
    rw found (last, there, direction ∙ same, path', final')
