-- ===== src/Ckb/Lifecycle/Keeping.antt =====
-- packages/cemp-ckb/src/lifecycle.ts: the receipts, the watches and the reserve keep what the calls of
-- the store keep.
pub mod Batches
use cemp_mobile.Prelude.{
  ℕ, Bool, true, false, not, List, [], ◌∷◌, Option, none, some, Result, ok, err, String, str_eq,
  if◌then◌else◌, ◌==◌, map,
}
use cemp_mobile.Prelude.Actions.{pure, lift, raise_if, ◌>>=◌, ◌>>◌, Keeps, chain, either-keeps}
use cemp_mobile.Database.MessageStates.{
  MessageState, includes, same_state, available_on_chain, downloaded_by_recipient, acknowledged,
  reclaim_queued, reclaim_pending, reclaimed, awaiting_remote_reclaim, remote_reclaimed,
}
use cemp_mobile.Database.Messages.{Message}
use cemp_mobile.Database.Messages.ChainRefs.{get_by_envelope_message_id}
use cemp_mobile.Database.OutgoingTransactions.{OutgoingTransaction, NewTransaction}
use cemp_mobile.Database.WatchedOutpoints.{WatchedOutpoint, of_outpoint, list_active}
use cemp_mobile.Database.Table.{select_one}
use cemp_mobile.Ckb.Monitor.{
  MonitorError, tx_rejected, timed_out, journaled_abandoned, transient, still_waiting,
  ResumeBroadcastOutcome, wait_for_transaction_commit, resume_journaled_broadcast,
}
use cemp_mobile.Ckb.Lifecycle.{
  World, different_hash, LifecycleAction, Setting, transition_message,
  find_latest_outgoing_tx_by_purpose_prefix, mark_outgoing_tx_state, mark_outgoing_tx_state_if,
  record_outgoing_tx, reserve_store_capacity, mark_capacity_reclaimable, release_capacity, burn_fee,
  register_watch, mark_watch_spent, prune_spent_watches, reserve_found, get_message_journal_info,
  reserve_committed_capacity, mark_attachment_remote_downloaded,
}
use cemp_mobile.Ckb.Lifecycle.Acknowledgements.{
  Receipt, fund_from_journal, ackable_states, mark_found, unless, fund, advance, acknowledge,
  process_receipt, process_acknowledgements,
}
use cemp_mobile.Ckb.Lifecycle.Reclaim.{
  CellStatus, live, dead, unknown_cell, cell_call_threw, Signed, Chain, lift_monitor, lift_build,
  for_each, Candidate, total, net, parse_reclaim_purpose, credit, finish_won, finish_resumed,
  finish_fresh, finish_fresh_won, candidates, abandon, after_resume, resume_batch, resolve_cells,
  resolve_cell, settle_found, settle_watch, credit_fresh, journal_row, reclaim_covered,
  unless_empty, fresh_batch, batch_from, execute_reclaim_batch,
}
use cemp_mobile.Ckb.Lifecycle.Watches.{
  pruned, finalize_response_sent, parse_watch_purpose, response_reclaimed, poll_watch, poll_watches,
  poll_watches_once,
}
use mathlib.Core.Option.{get_or}

-- What each call of the store keeps.
pub record StoreKeeps (setting : Setting) (P : World → Type 0) : Type 0 where
  pub transitions : (id : ℕ) (to : MessageState) → Keeps P (transition_message setting id to)
  pub marks : (hash : String) → Keeps P (mark_outgoing_tx_state setting hash "abandoned")
  pub marks_if :
      (hash : String) → Keeps P (mark_outgoing_tx_state_if setting hash "submitted" "committed")
  pub records : (input : NewTransaction) → Keeps P (record_outgoing_tx setting input)
  pub reserves : (amount : ℕ) → Keeps P (reserve_store_capacity setting amount)
  pub reclaims : (amount : ℕ) → Keeps P (mark_capacity_reclaimable setting amount)
  pub releases : (amount : ℕ) → Keeps P (release_capacity setting amount)
  pub burns : (amount : ℕ) → Keeps P (burn_fee setting amount)
  pub registers :
      (hash : String) (index : ℕ) (purpose : String)
      → Keeps P (register_watch setting hash index purpose)
  pub spends :
      (hash : String) (index : ℕ) (by : String) → Keeps P (mark_watch_spent setting hash index by)
  pub prunes : (w : World) → P w → P (prune_spent_watches w)
  pub downloads : (id : ℕ) (w : World) → P w → P (mark_attachment_remote_downloaded id w)

module _ (setting : Setting) (P : World → Type 0) (s : StoreKeeps setting P) where
  unless-keeps : (b : Bool) (m : LifecycleAction (Unit {0})) → Keeps P m → Keeps P (unless b m)
  unless-keeps true m h = λ w p. p
  unless-keeps false m h = h

  fund-keeps : (amount : Option ℕ) → Keeps P (fund setting amount)
  fund-keeps none = λ w p. p
  fund-keeps (some amount) = s.reclaims amount

  advance-keeps : (m : Message) → Keeps P (advance setting m)
  unfolding advance
  advance-keeps m =
      chain P
        (unless (not (same_state m.state available_on_chain))
          (transition_message setting m.id downloaded_by_recipient))
        _
        (unless-keeps (not (same_state m.state available_on_chain)) _
          (s.transitions m.id downloaded_by_recipient))
        λ _.
          chain P
            (unless (same_state m.state acknowledged)
              (transition_message setting m.id acknowledged))
            _ (unless-keeps (same_state m.state acknowledged) _ (s.transitions m.id acknowledged))
            λ _.
              chain P (transition_message setting m.id reclaim_queued) _
                (s.transitions m.id reclaim_queued)
                λ _.
                  chain P (fund_from_journal setting m.id) (λ _. pure (m.id ∷ [])) (funding m.id)
                    λ _ w p. p
    where
      funding : (id : ℕ) → Keeps P (fund_from_journal setting id)
      funding id =
          unfold fund_from_journal in λ w. fund-keeps (get_message_journal_info setting id w) w

  acknowledge-keeps : (found : Option Message) → Keeps P (acknowledge setting found)
  unfolding acknowledge
  acknowledge-keeps none = λ w p. p
  acknowledge-keeps (some m) =
      either-keeps P (includes ackable_states m.state) (advance setting m) (pure [])
        (advance-keeps m) λ w p. p

  mark_found-keeps : (found : Option Message) (w : World) → P w → P (mark_found found w)
  mark_found-keeps none w p = p
  mark_found-keeps (some m) w p = s.downloads m.id w p

  receipt-keeps : (receipt : Receipt) → Keeps P (process_receipt setting receipt)
  unfolding process_receipt
  receipt-keeps receipt w p =
      split (receipt.status == 5) (receipt.status == 1)
        (get_by_envelope_message_id receipt.message_id_hex w.messages)
    where
      split :
          (five one : Bool) (found : Option Message)
          → P
              (if five
                then (ok [], mark_found found w)
                else if one
                then acknowledge setting found w
                else (ok [], w)).1
      split true one found = mark_found-keeps found w p
      split false true found = acknowledge-keeps found w p
      split false false found = p

  pub acknowledgements-keep :
      (receipts : List Receipt) → Keeps P (process_acknowledgements setting receipts)
  unfolding process_acknowledgements
  acknowledgements-keep [] = λ w p. p
  acknowledgements-keep (receipt ∷ receipts) =
      chain P (process_receipt setting receipt) _ (receipt-keeps receipt) λ acked.
        chain P (process_acknowledgements setting receipts) _ (acknowledgements-keep receipts)
          λ rest w p. p

  pub finalize-keeps :
      (id : ℕ) (hash : String) (index : ℕ) → Keeps P (finalize_response_sent setting id hash index)
  unfolding finalize_response_sent
  finalize-keeps id hash index =
      chain P (transition_message setting id awaiting_remote_reclaim) _
        (s.transitions id awaiting_remote_reclaim)
        λ _. s.registers hash index (setting.concat "response:" (setting.print_integer id))

  response-keeps : (id : Option ℕ) → Keeps P (response_reclaimed setting id)
  response-keeps none = λ w p. p
  response-keeps (some id) = s.transitions id remote_reclaimed

  poll_watch-keeps :
      (watch : WatchedOutpoint) (status : CellStatus) → Keeps P (poll_watch setting watch status)
  unfolding poll_watch
  poll_watch-keeps watch (live capacity) = λ w p. p
  poll_watch-keeps watch unknown_cell = λ w p. p
  poll_watch-keeps watch (cell_call_threw message) = λ w p. p
  poll_watch-keeps watch dead =
      chain P (mark_watch_spent setting watch.tx_hash watch.outpoint_index "unknown-spender") _
        (s.spends watch.tx_hash watch.outpoint_index "unknown-spender")
        λ _.
          chain P (response_reclaimed setting (parse_watch_purpose setting watch.purpose)) _
            (response-keeps (parse_watch_purpose setting watch.purpose)) λ _ w p. p

  polls-keep :
      (get_live_cell : String → ℕ → CellStatus) (watches : List WatchedOutpoint)
      → Keeps P (poll_watches setting get_live_cell watches)
  unfolding poll_watches
  polls-keep get_live_cell [] = λ w p. p
  polls-keep get_live_cell (watch ∷ watches) =
      chain P (poll_watch setting watch (get_live_cell watch.tx_hash watch.outpoint_index)) _
        (poll_watch-keeps watch _)
        λ found.
          chain P (poll_watches setting get_live_cell watches) _ (polls-keep get_live_cell watches)
            λ rest w p. p

  pruned-keeps : (purposes : List String) → Keeps P (pruned setting purposes)
  pruned-keeps [] = λ w p. p
  pruned-keeps (purpose ∷ purposes) = λ w p. s.prunes w p

  pub watches-keep :
      (get_live_cell : String → ℕ → CellStatus) → Keeps P (poll_watches_once setting get_live_cell)
  unfolding poll_watches_once
  watches-keep get_live_cell w =
      chain P (poll_watches setting get_live_cell (list_active w.watches)) (pruned setting)
        (polls-keep get_live_cell (list_active w.watches)) pruned-keeps w

  reserve_found-keeps : (amount : Option ℕ) → Keeps P (reserve_found setting amount)
  reserve_found-keeps none = λ w p. p
  reserve_found-keeps (some amount) =
      either-keeps P (amount == 0) (pure tt) (reserve_store_capacity setting amount) (λ w p. p)
        (s.reserves amount)

  pub reserve-keeps : (id : ℕ) → Keeps P (reserve_committed_capacity setting id)
  unfolding reserve_committed_capacity
  reserve-keeps id w = reserve_found-keeps (get_message_journal_info setting id w) w
