-- ===== src/Ckb/Lifecycle/Acknowledgements.antt =====
-- packages/cemp-ckb/src/lifecycle.ts: the receipts of a decrypted reply.
use cemp_mobile.Prelude.{
  ℕ, Bool, true, false, not, List, [], ◌∷◌, ◌++◌, Option, none, some, ok, String, if◌then◌else◌,
  ◌==◌,
}
use cemp_mobile.Prelude.Actions.{pure, ◌>>=◌, ◌>>◌}
use cemp_mobile.Database.MessageStates.{
  MessageState, includes, same_state, available_on_chain, downloaded_by_recipient, acknowledged,
  reclaim_queued,
}
use cemp_mobile.Database.Messages.{Message}
use cemp_mobile.Database.Messages.ChainRefs.{get_by_envelope_message_id}
use cemp_mobile.Ckb.Lifecycle.{
  World, LifecycleAction, Setting, transition_message, get_message_journal_info,
  mark_capacity_reclaimable, mark_attachment_remote_downloaded,
}

-- A receipt: the hex of its message id, and its status.
pub record Receipt : Type 0 where
  pub message_id_hex : String
  pub status : ℕ

abbrev pub ackable_states : List MessageState
ackable_states = available_on_chain ∷ downloaded_by_recipient ∷ acknowledged ∷ []

abbrev pub mark_found : Option Message → World → World
mark_found none w = w
mark_found (some m) w = mark_attachment_remote_downloaded m.id w

abbrev pub unless : Bool → LifecycleAction (Unit {0}) → LifecycleAction (Unit {0})
unless true m = pure tt
unless false m = m

module _ (setting : Setting) where
  abbrev pub fund : Option ℕ → LifecycleAction (Unit {0})
  fund none = pure tt
  fund (some amount) = mark_capacity_reclaimable setting amount

  unfoldable pub fund_from_journal : ℕ → LifecycleAction (Unit {0})
  unfolding get_message_journal_info mark_capacity_reclaimable
  fund_from_journal id w = fund (get_message_journal_info setting id w) w

  -- A message in an ackable state, to `reclaim_queued`.
  unfoldable pub advance : Message → LifecycleAction (List ℕ)
  unfolding transition_message fund_from_journal
  advance m = do
    unless (not (same_state m.state available_on_chain))
        (transition_message setting m.id downloaded_by_recipient)
    unless (same_state m.state acknowledged) (transition_message setting m.id acknowledged)
    transition_message setting m.id reclaim_queued
    fund_from_journal m.id
    pure (m.id ∷ [])

  unfoldable pub acknowledge : Option Message → LifecycleAction (List ℕ)
  unfolding advance
  acknowledge none = pure []
  acknowledge (some m) = if includes ackable_states m.state then advance m else pure []

  -- One turn of the loop: the ids that it pushes.
  unfoldable pub process_receipt : Receipt → LifecycleAction (List ℕ)
  unfolding acknowledge mark_attachment_remote_downloaded get_by_envelope_message_id
  process_receipt receipt w =
      let found = get_by_envelope_message_id receipt.message_id_hex w.messages in
      if receipt.status == 5
      then (ok [], mark_found found w)
      else if receipt.status == 1
      then acknowledge found w
      else (ok [], w)

  unfoldable pub process_acknowledgements : List Receipt → LifecycleAction (List ℕ)
  unfolding process_receipt
  process_acknowledgements [] = pure []
  process_acknowledgements (receipt ∷ receipts) = do
    acked ← process_receipt receipt
    rest ← process_acknowledgements receipts
    pure (acked ++ rest)
