-- ===== src/Ckb/Lifecycle.antt =====
-- packages/cemp-ckb/src/lifecycle.ts over packages/cemp-database/src/repositories/publication-store.ts:
-- the tables that the life cycle of messages works on, and the calls of the store. Each call is a
-- transaction; what was written before a throw stays written.
pub mod Acknowledgements
pub mod Reclaim
pub mod Watches
pub mod Keeping
pub mod Flows
pub mod History
pub mod Capacity
pub mod Settled
pub mod Credits
pub mod Replays
pub mod Examples
use cemp_mobile.Prelude.{
  ℕ, ◌+◌, ◌≡◌, Bool, true, false, not, ◌&&◌, List, [], ◌∷◌, ◌++◌, Option, none, some, Result, ok,
  err, String, str_eq, if◌then◌else◌, ◌==◌, map,
}
use cemp_mobile.Prelude.Actions.{Action, pure, gets, or_raise, lift, modify, raise_if, ◌>>=◌, ◌>>◌}
use cemp_mobile.Database.Errors.{DatabaseError}
use cemp_mobile.Database.Table.{update_where}
use cemp_mobile.Database.MessageStates.{MessageState}
use cemp_mobile.Database.Messages.{Message, transition_state, get_by_id}
use cemp_mobile.Database.Messages.ChainRefs.{
  MessageChainRef, get_chain_ref, list_by_state, get_by_envelope_message_id,
}
use cemp_mobile.Database.OutgoingTransactions.{
  OutgoingTransaction, NewTransaction, Patch, record_tx, mark_state, mark_state_if,
  find_latest_by_purpose, find_latest_by_purpose_prefix,
}
use cemp_mobile.Database.Balances.{
  WalletBalance, reserve_capacity, mark_reclaimable, release_reclaimed_capacity, record_fee_burn,
}
use cemp_mobile.Database.WatchedOutpoints.{
  WatchedOutpoint, register, list_active, mark_spent, prune_spent,
}
use cemp_mobile.Ckb.Monitor.{MonitorError}

-- The columns of `attachments` that a receipt writes.
pub record Attachment : Type 0 where
  pub message_id : ℕ
  pub remote_downloaded : Bool

pub record World : Type 0 where
  pub messages : List Message
  pub chain_refs : List MessageChainRef
  pub journal : List OutgoingTransaction
  pub balances : List WalletBalance
  pub watches : List WatchedOutpoint
  pub attachments : List Attachment

-- A throw of the store, of the monitor and client, of the builder or signer, or of this file.
pub data LifecycleError : Type 0 where
  store_error : DatabaseError → LifecycleError
  monitor_error : MonitorError → LifecycleError
  build_error : String → LifecycleError
  malformed_purpose different_hash : LifecycleError

abbrev pub LifecycleAction : Type 0 → Type 0
LifecycleAction A = Action World LifecycleError A

-- The wallet of the store, the clock, JavaScript's `Number` (of a positive integer), `split`,
-- `startsWith` with `slice`, concatenation and `join`, and SQLite's LIKE.
pub record Setting : Type 0 where
  pub wallet_id : ℕ
  pub now : ℕ
  pub positive_integer : String → Option ℕ
  pub split : String → String → List String
  pub after_prefix : String → String → Option String
  pub like : String → String → Bool
  pub concat : String → String → String
  pub join : String → List String → String
  pub print_integer : ℕ → String

-- A transaction's outcome on one table of the world.
abbrev pub settle :
    {T : Type 0}
    → (T → World → World)
    → Result DatabaseError T
    → World
    → Result LifecycleError (Unit {0}) × World
settle write (ok t) w = (ok tt, write t w)
settle write (err e) w = (err (store_error e), w)

-- The table of a transaction that also gives a row.
abbrev pub table_of : {A T : Type 0} → Result DatabaseError (A × T) → Result DatabaseError T
table_of (ok (a, t)) = ok t
table_of (err e) = err e

abbrev pub with_messages : List Message → World → World
with_messages messages w = record w { messages = messages }

abbrev pub with_journal : List OutgoingTransaction → World → World
with_journal journal w = record w { journal = journal }

abbrev pub with_balances : List WalletBalance → World → World
with_balances balances w = record w { balances = balances }

abbrev pub with_watches : List WatchedOutpoint → World → World
with_watches watches w = record w { watches = watches }

abbrev pub committed_at : ℕ → Patch
committed_at now = record { committed_at_ms = some now; block_hash = none }

abbrev pub unpatched : Patch
unpatched = record { committed_at_ms = none; block_hash = none }

-- What `listOutgoingByState` gives.
pub record LifecycleMessage : Type 0 where
  pub row_id : ℕ
  pub state : MessageState
  pub chain_ref : Option (String × ℕ)

abbrev pub outpoint_of : Option MessageChainRef → Option (String × ℕ)
outpoint_of none = none
outpoint_of (some ref) = both ref.tx_hash ref.outpoint_index
  where
    both : Option String → Option ℕ → Option (String × ℕ)
    both none index = none
    both (some hash) none = none
    both (some hash) (some index) = some (hash, index)

-- A journal row's capacity, for the message that `found` is.
abbrev pub capacity_of : Option OutgoingTransaction → Option ℕ
capacity_of none = none
capacity_of (some tx) = tx.capacity_shannon

module _ (setting : Setting) where
  unfoldable pub transition_message : ℕ → MessageState → LifecycleAction (Unit {0})
  unfolding transition_state
  transition_message id to w =
      settle with_messages (table_of (transition_state id to setting.now w.messages)) w

  unfoldable pub list_outgoing_by_state : MessageState → World → List LifecycleMessage
  unfolding list_by_state get_chain_ref
  list_outgoing_by_state state w =
      map
        (λ m. record {
          row_id = m.id;
          state = m.state;
          chain_ref = outpoint_of (get_chain_ref m.id w.chain_refs);
        })
        (list_by_state (state ∷ []) 500 w.messages)

  unfoldable pub find_latest_outgoing_tx_by_purpose_prefix :
      String → World → Option OutgoingTransaction
  unfolding find_latest_by_purpose_prefix
  find_latest_outgoing_tx_by_purpose_prefix prefix w =
      find_latest_by_purpose_prefix setting.like prefix w.journal

  unfoldable pub mark_outgoing_tx_state : String → String → LifecycleAction (Unit {0})
  unfolding mark_state
  mark_outgoing_tx_state tx_hash state w =
      settle with_journal (mark_state tx_hash state unpatched w.journal) w

  -- The number of rows changed.
  unfoldable pub mark_outgoing_tx_state_if : String → String → String → LifecycleAction ℕ
  unfolding mark_state_if
  mark_outgoing_tx_state_if tx_hash expected state w =
      let (journal, changed) =
        mark_state_if tx_hash expected state (committed_at setting.now) w.journal in
      (ok changed, with_journal journal w)

  unfoldable pub record_outgoing_tx : NewTransaction → LifecycleAction (Unit {0})
  unfolding record_tx
  record_outgoing_tx input w = settle with_journal (table_of (record_tx input w.journal)) w

  unfoldable pub reserve_store_capacity : ℕ → LifecycleAction (Unit {0})
  unfolding reserve_capacity
  reserve_store_capacity amount w =
      settle with_balances (reserve_capacity setting.wallet_id amount setting.now w.balances) w

  unfoldable pub mark_capacity_reclaimable : ℕ → LifecycleAction (Unit {0})
  unfolding mark_reclaimable
  mark_capacity_reclaimable amount w =
      settle with_balances (mark_reclaimable setting.wallet_id amount setting.now w.balances) w

  unfoldable pub release_capacity : ℕ → LifecycleAction (Unit {0})
  unfolding release_reclaimed_capacity
  release_capacity amount w =
      settle with_balances
        (release_reclaimed_capacity setting.wallet_id amount setting.now w.balances) w

  unfoldable pub burn_fee : ℕ → LifecycleAction (Unit {0})
  unfolding record_fee_burn
  burn_fee amount =
      modify
        (λ w. with_balances (record_fee_burn setting.wallet_id amount setting.now w.balances) w)

  unfoldable pub journaled_capacity : Option Message → World → Option ℕ
  unfolding find_latest_by_purpose
  journaled_capacity none w = none
  journaled_capacity (some m) w =
      capacity_of
        (find_latest_by_purpose (setting.concat "message:" m.logical_message_id) w.journal)

  -- `capacityShannon` of `getMessageJournalInfo`, the one field that is read.
  unfoldable pub get_message_journal_info : ℕ → World → Option ℕ
  unfolding journaled_capacity get_by_id
  get_message_journal_info id w = journaled_capacity (get_by_id id w.messages) w

  unfoldable pub register_watch : String → ℕ → String → LifecycleAction (Unit {0})
  unfolding register
  register_watch tx_hash index purpose w =
      settle with_watches (table_of (register tx_hash index purpose none setting.now w.watches)) w

  unfoldable pub mark_watch_spent : String → ℕ → String → LifecycleAction (Unit {0})
  unfolding mark_spent
  mark_watch_spent tx_hash index spent_by w =
      settle with_watches (table_of (mark_spent tx_hash index spent_by setting.now w.watches)) w

  abbrev pub reserve_found : Option ℕ → LifecycleAction (Unit {0})
  reserve_found none = pure tt
  reserve_found (some amount) = if amount == 0 then pure tt else reserve_store_capacity amount

  -- `reserveCommittedCapacity` of the service.
  unfoldable pub reserve_committed_capacity : ℕ → LifecycleAction (Unit {0})
  unfolding get_message_journal_info reserve_store_capacity
  reserve_committed_capacity id w = reserve_found (get_message_journal_info id w) w

unfoldable pub prune_spent_watches : World → World
unfolding prune_spent
prune_spent_watches w = with_watches (prune_spent w.watches).0 w

unfoldable pub mark_attachment_remote_downloaded : ℕ → World → World
mark_attachment_remote_downloaded id w = record w {
  attachments =
      update_where (λ a. a.message_id == id) (λ a. record a { remote_downloaded = true })
        w.attachments;
}
