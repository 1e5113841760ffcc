-- ===== src/Database/Messages/Insert.antt =====
-- `insert`: idempotent on the logical id, and a fresh row otherwise.
use cemp_mobile.Prelude.{
  ℕ, ◌≤◌, ◌≡◌, refl, ◌∙◌, ap, List, [], ◌∷◌, ◌++◌, ◌>>=◌, Result, if◌then◌else◌, some, none, ok,
  err, eq_refl, arith, Option-cases, inl, inr, ◌==◌, ==_refl, Option,
}
use cemp_mobile.Database.Table.{
  select_one, insert_or_ignore_new, insert_or_ignore_met, select_one-append,
  select_one-append_found,
}
use cemp_mobile.Database.Errors.{DatabaseError, constraint_violation}
use cemp_mobile.Database.Messages.{
  Message, Conversation, Store, NewMessage, of_id, of_logical_id, of_conversation, next_id,
  get_by_id, get_by_logical_id, new_row, touch, check_conversation, insert_row, finish_insert,
  insert,
}
use mathlib.Core.Option.{get_or}

check_conversation_met :
    (c : Option Conversation) (ms : List Message) → check_conversation c (ms, 0) ≡ ok (ms, 0)
unfolding check_conversation
check_conversation_met none ms = refl
check_conversation_met (some c) ms = refl

finish_insert_found :
    (input : NewMessage) (now n : ℕ) (cs : List Conversation) (ms : List Message) (m : Message)
    → get_by_logical_id input.logical_message_id ms ≡ some m
    → finish_insert input now cs (ms, n)
      ≡ ok (
        m,
        record {
          messages = ms;
          conversations =
              if n == 0
              then cs
              else touch input.conversation_id (get_or input.created_at_ms now) cs;
        },
      )
unfolding finish_insert get_by_logical_id
finish_insert_found input now n cs ms m h = rw (h, finish_insert)

insert_from :
    (input : NewMessage) (now : ℕ) (s : Store) {r : Result DatabaseError (List Message × ℕ)}
    → insert_row input now s ≡ r
    → insert input now s ≡ (r >>= finish_insert input now s.conversations)
unfolding insert
insert_from input now s e = ap (λ r. r >>= finish_insert input now s.conversations) e

-- A retry under a logical id that is taken returns the stored row, whatever else it says, and
-- writes nothing.
pub insert_existing :
    (input : NewMessage) (now : ℕ) (s : Store) (m : Message)
    → get_by_logical_id input.logical_message_id s.messages ≡ some m
    → insert input now s ≡ ok (m, s)
unfolding get_by_logical_id insert_row
insert_existing input now s m h =
    insert_from input now s (
      ap (check_conversation _) (insert_or_ignore_met _ _ s.messages h)
      ∙ check_conversation_met _ s.messages)
    ∙ finish_insert_found input now 0 s.conversations s.messages m h

-- A row under a new logical id needs its conversation: without it the call fails.
pub insert_orphan :
    (input : NewMessage) (now : ℕ) (s : Store)
    → get_by_logical_id input.logical_message_id s.messages ≡ none
    → select_one (of_conversation input.conversation_id) s.conversations ≡ none
    → insert input now s ≡ err constraint_violation
unfolding get_by_logical_id insert_row
insert_orphan input now s h k =
    insert_from input now s {r = err constraint_violation} (
      ap (check_conversation _) (insert_or_ignore_new _ _ s.messages h)
      ∙ rw (k, check_conversation))

pub new_row_stored :
    (input : NewMessage) (now : ℕ) (ms : List Message)
    → get_by_logical_id input.logical_message_id ms ≡ none
    → get_by_logical_id input.logical_message_id (ms ++ new_row input now ms ∷ [])
      ≡ some (new_row input now ms)
unfolding get_by_logical_id new_row
new_row_stored input now ms h =
    select_one-append (of_logical_id input.logical_message_id) (new_row input now ms) ms h
    ∙ rw (eq_refl input.logical_message_id)

-- With its conversation it is stored at the end, and the conversation's activity is raised.
pub insert_fresh :
    (input : NewMessage) (now : ℕ) (s : Store) (c : Conversation)
    → get_by_logical_id input.logical_message_id s.messages ≡ none
    → select_one (of_conversation input.conversation_id) s.conversations ≡ some c
    → insert input now s
      ≡ ok (
        new_row input now s.messages,
        record {
          messages = s.messages ++ new_row input now s.messages ∷ [];
          conversations =
              touch input.conversation_id (get_or input.created_at_ms now) s.conversations;
        },
      )
unfolding get_by_logical_id insert_row
insert_fresh input now s c h k =
    insert_from input now s {r = ok (s.messages ++ new_row input now s.messages ∷ [], 1)} (
      ap (check_conversation _) (insert_or_ignore_new _ _ s.messages h)
      ∙ rw (k, check_conversation))
    ∙ finish_insert_found input now 1 s.conversations _ _ (new_row_stored input now s.messages h)

-- What `insert` returns is what the logical id now finds.
pub insert_stored :
    (input : NewMessage) (now : ℕ) (s s' : Store) (m : Message)
    → insert input now s ≡ ok (m, s')
    → get_by_logical_id input.logical_message_id s'.messages ≡ some m
insert_stored input now s s' m h =
    elim (Option-cases (get_by_logical_id input.logical_message_id s.messages)) [
      | inr (m', e) ↦ ground (arith, e, insert_existing input now s m' e)
      | inl e ↦
          elim (Option-cases (select_one (of_conversation input.conversation_id) s.conversations)) [
            | inl lone ↦ cc (insert_orphan input now s e lone)
            | inr (c, there) ↦
                ground
                  (arith, insert_fresh input now s c e there, new_row_stored input now s.messages e)
          ]
    ]

-- Whatever `insert` returned once, every later call under the same logical id returns again, and
-- leaves the store as the first call left it.
pub insert_again :
    (input later : NewMessage) (now then_ms : ℕ) (s s' : Store) (m : Message)
    → insert input now s ≡ ok (m, s')
    → later.logical_message_id ≡ input.logical_message_id
    → insert later then_ms s' ≡ ok (m, s')
insert_again input later now then_ms s s' m h e =
    insert_existing later then_ms s' m
      (ap (λ x. get_by_logical_id x s'.messages) e ∙ insert_stored input now s s' m h)

-- A new row has an id that no stored row has, and every stored row is still found under its id.
id_above : (ms : List Message) (i : ℕ) → next_id ms ≤ i → get_by_id i ms ≡ none
unfolding get_by_id next_id select_one
id_above [] i h = refl
id_above (m ∷ ms) i h = ground (arith, id_above ms i)

get_by_id-append :
    (ms : List Message) (m x : Message) (i : ℕ)
    → get_by_id i ms ≡ some x
    → get_by_id i (ms ++ m ∷ []) ≡ some x
unfolding get_by_id
get_by_id-append ms m x i h = select_one-append_found (of_id i) m x ms h

pub get_by_id-new_row :
    (input : NewMessage) (now : ℕ) (ms : List Message)
    → (get_by_id (new_row input now ms).id ms ≡ none)
      × (get_by_id (new_row input now ms).id (ms ++ new_row input now ms ∷ [])
          ≡ some (new_row input now ms))
unfolding new_row get_by_id
get_by_id-new_row input now ms =
    let fresh = id_above ms (next_id ms) (omega arith) in
    (
      fresh,
      select_one-append (of_id (next_id ms)) (new_row input now ms) ms fresh
          ∙ rw (==_refl (next_id ms)),
    )

-- `insert` loses no message and changes none: every id that found a message finds it still. A fresh
-- row is found under an id that found nothing before.
pub insert_keeps :
    (input : NewMessage) (now : ℕ) (s s' : Store) (m : Message)
    → insert input now s ≡ ok (m, s')
    → ((i : ℕ) (x : Message) → get_by_id i s.messages ≡ some x → get_by_id i s'.messages ≡ some x)
      × (get_by_logical_id input.logical_message_id s.messages ≡ none
          → (get_by_id m.id s.messages ≡ none) × (get_by_id m.id s'.messages ≡ some m))
insert_keeps input now s s' m h =
    elim (Option-cases (get_by_logical_id input.logical_message_id s.messages)) [
      | inr (m', e) ↦ (
        (λ i x k. ground (arith, k, insert_existing input now s m' e)),
        λ none_yet. cc (none_yet, e),
      )
      | inl e ↦
          elim (Option-cases (select_one (of_conversation input.conversation_id) s.conversations)) [
            | inl lone ↦ absurd (cc (insert_orphan input now s e lone))
            | inr (c, there) ↦
                let row = new_row input now s.messages in
                let stored = insert_fresh input now s c e there in
                let found = get_by_id-new_row input now s.messages in
                (
                  (λ i x k. ground (arith, stored, get_by_id-append s.messages row x i k)),
                  (λ _. (ground (arith, stored, found.0), ground (arith, stored, found.1))),
                )
          ]
    ]
