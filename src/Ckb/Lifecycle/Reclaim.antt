-- ===== src/Ckb/Lifecycle/Reclaim.antt =====
-- packages/cemp-ckb/src/lifecycle.ts: `executeReclaimBatch`, over the monitor. The builder, the signer
-- and the node answer as parameters; the signer's own note of spent inputs is not modelled.
use cemp_mobile.Prelude.{
  ℕ, ◌+◌, ◌-◌, Bool, true, false, not, List, [], ◌∷◌, ◌++◌, Option, none, some, Result, ok, err,
  String, str_eq, if◌then◌else◌, ◌==◌, ltb, map,
}
use cemp_mobile.Prelude.Actions.{pure, raise, lift, modify, raise_if, ◌>>=◌, ◌>>◌}
use cemp_mobile.Database.MessageStates.{reclaim_queued, reclaim_pending, reclaimed}
use cemp_mobile.Database.OutgoingTransactions.{OutgoingTransaction, NewTransaction}
use cemp_mobile.Database.WatchedOutpoints.{WatchedOutpoint, of_outpoint, list_active}
use cemp_mobile.Database.Table.{select_one}
use cemp_mobile.Ckb.Monitor.{
  MonitorError, tx_rejected, timed_out, journaled_abandoned, transient, still_waiting, Polls,
  wait_for_transaction_commit, Node, ResumeBroadcastOutcome, resume_journaled_broadcast,
}
use cemp_mobile.Ckb.Lifecycle.{
  World, LifecycleError, monitor_error, build_error, malformed_purpose, different_hash,
  LifecycleAction, Setting, LifecycleMessage, transition_message, list_outgoing_by_state,
  find_latest_outgoing_tx_by_purpose_prefix, mark_outgoing_tx_state, mark_outgoing_tx_state_if,
  record_outgoing_tx, release_capacity, burn_fee, mark_watch_spent, prune_spent_watches,
}
use mathlib.Core.Option.{get_or}

-- What a call of `getLiveCell` gives: a live cell's capacity, or what the RPC threw.
pub data CellStatus : Type 0 where
  live : ℕ → CellStatus
  dead unknown_cell : CellStatus
  cell_call_threw : String → CellStatus

-- `buildReclaimTx` with the signature.
pub record Signed : Type 0 where
  pub tx_hash : String
  pub tx_hex : String
  pub estimated_fee : ℕ

pub record Chain : Type 0 where
  pub timeout_ms : ℕ
  pub node : Node
  pub get_live_cell : String → ℕ → CellStatus
  pub build : List (String × ℕ) → Result String Signed
  pub send_transaction : String → Result MonitorError String
  pub started : ℕ
  pub polls : Polls

pub record ReclaimBatchResult : Type 0 where
  pub tx_hash : String
  pub reclaimed_row_ids : List ℕ
  pub released_shannon : ℕ
  pub resumed : Bool
  pub abandoned : Bool

abbrev pub lift_monitor {ℓ} : {A : Type ℓ} → Result MonitorError A → Result LifecycleError A
lift_monitor (ok a) = ok a
lift_monitor (err e) = err (monitor_error e)

abbrev pub lift_build : Result String Signed → Result LifecycleError Signed
lift_build (ok signed) = ok signed
lift_build (err e) = err (build_error e)

abbrev pub for_each :
    {A : Type 0} → (A → LifecycleAction (Unit {0})) → List A → LifecycleAction (Unit {0})
for_each f [] = pure tt
for_each f (x ∷ xs) = f x >> for_each f xs

-- A cell of a message that is to be reclaimed.
pub record Candidate : Type 0 where
  pub row_id : ℕ
  pub tx_hash : String
  pub index : ℕ

-- `.filter((m) => m.chainRef !== null)`
abbrev pub with_cells : List LifecycleMessage → List Candidate
with_cells [] = []
with_cells (m ∷ ms) = cell m.chain_ref ++ with_cells ms
  where
    cell : Option (String × ℕ) → List Candidate
    cell none = []
    cell (some (hash, index)) = record { row_id = m.row_id; tx_hash = hash; index = index } ∷ []

abbrev pub row_ids : List (Candidate × ℕ) → List ℕ
row_ids covered = map (λ c. c.0.row_id) covered

abbrev pub total : List (Candidate × ℕ) → ℕ
total [] = 0
total (c ∷ covered) = c.1 + total covered

-- `capacity > fee ? capacity - fee : 0`
abbrev pub net : ℕ → ℕ → ℕ
net capacity fee = if ltb fee capacity then capacity - fee else 0

module _ (setting : Setting) where
  abbrev pub all_ids : List String → Result LifecycleError (List ℕ)
  all_ids [] = ok []
  all_ids (part ∷ parts) = with_id (setting.positive_integer part) (all_ids parts)
    where
      with_id : Option ℕ → Result LifecycleError (List ℕ) → Result LifecycleError (List ℕ)
      with_id none rest = err malformed_purpose
      with_id (some id) (ok ids) = ok (id ∷ ids)
      with_id (some id) (err e) = err e

  -- `reclaim:<id,id,…>` to the ids; another text has none.
  unfoldable pub parse_reclaim_purpose : String → Result LifecycleError (List ℕ)
  parse_reclaim_purpose purpose = ids_of (setting.after_prefix "reclaim:" purpose)
    where
      ids_of : Option String → Result LifecycleError (List ℕ)
      ids_of none = ok []
      ids_of (some body) = if str_eq body "" then ok [] else all_ids (setting.split "," body)

  -- After a commit: the messages reclaimed, the capacity net of the fee released, the fee written off.
  unfoldable pub credit : List ℕ → ℕ → ℕ → LifecycleAction (Unit {0})
  unfolding transition_message release_capacity burn_fee
  credit ids capacity fee = do
    for_each (λ id. transition_message setting id reclaimed) ids
    (if net capacity fee == 0 then pure tt else release_capacity setting (net capacity fee))
    (if fee == 0 then pure tt else burn_fee setting fee)

  -- After `markOutgoingTxStateIf`, which changed `won` rows: only the winner credits.
  unfoldable pub finish_won : OutgoingTransaction → List ℕ → ℕ → LifecycleAction ReclaimBatchResult
  unfolding credit
  finish_won journaled ids won = do
    (if won == 0
        then pure tt
        else credit ids (get_or journaled.capacity_shannon 0) (get_or journaled.fee_shannon 0))
    pure (record {
      tx_hash = journaled.tx_hash;
      reclaimed_row_ids = ids;
      released_shannon =
          if won == 0
          then 0
          else net (get_or journaled.capacity_shannon 0) (get_or journaled.fee_shannon 0);
      resumed = true;
      abandoned = false;
    })

  unfoldable pub finish_resumed : OutgoingTransaction → List ℕ → LifecycleAction ReclaimBatchResult
  unfolding mark_outgoing_tx_state_if finish_won
  finish_resumed journaled ids =
      mark_outgoing_tx_state_if setting journaled.tx_hash "submitted" "committed"
      >>= finish_won journaled ids

  unfoldable pub abandon : OutgoingTransaction → List ℕ → LifecycleAction ReclaimBatchResult
  unfolding mark_outgoing_tx_state transition_message
  abandon journaled ids = do
    mark_outgoing_tx_state setting journaled.tx_hash "abandoned"
    for_each (λ id. transition_message setting id reclaim_queued) ids
    pure (record {
      tx_hash = journaled.tx_hash;
      reclaimed_row_ids = [];
      released_shannon = 0;
      resumed = false;
      abandoned = true;
    })

  -- The `catch` and what follows it.
  unfoldable pub after_resume :
      OutgoingTransaction
      → List ℕ
      → Result MonitorError ResumeBroadcastOutcome
      → LifecycleAction ReclaimBatchResult
  unfolding finish_resumed abandon
  after_resume journaled ids (ok outcome) = finish_resumed journaled ids
  after_resume journaled ids (err (journaled_abandoned spent)) = abandon journaled ids
  after_resume journaled ids (err (tx_rejected r)) = raise (monitor_error (tx_rejected r))
  after_resume journaled ids (err (timed_out s)) = raise (monitor_error (timed_out s))
  after_resume journaled ids (err MonitorError.different_hash) =
      raise (monitor_error MonitorError.different_hash)
  after_resume journaled ids (err (transient m)) = raise (monitor_error (transient m))
  after_resume journaled ids (err still_waiting) = raise (monitor_error still_waiting)

  unfoldable pub resume_batch : Chain → OutgoingTransaction → LifecycleAction ReclaimBatchResult
  unfolding parse_reclaim_purpose after_resume resume_journaled_broadcast
  resume_batch chain journaled = do
    ids ← lift (parse_reclaim_purpose journaled.purpose)
    after_resume journaled ids (
        resume_journaled_broadcast chain.timeout_ms chain.node
          (record { tx_hash = journaled.tx_hash; tx_hex = journaled.tx_hex }))

  -- One turn of the loop over the candidates, and what follows it.
  unfoldable pub resolve_cell :
      Candidate
      → LifecycleAction (List (Candidate × ℕ))
      → CellStatus
      → LifecycleAction (List (Candidate × ℕ))
  unfolding transition_message
  resolve_cell c rest (live capacity) = rest >>= λ covered. pure ((c, capacity) ∷ covered)
  resolve_cell c rest dead = transition_message setting c.row_id reclaim_pending >>= λ _.
      transition_message setting c.row_id reclaimed >>= λ _. rest
  resolve_cell c rest unknown_cell = rest
  resolve_cell c rest (cell_call_threw message) = raise (monitor_error (transient message))

  -- The candidates whose cells live, with their capacities.
  unfoldable pub resolve_cells :
      (String → ℕ → CellStatus) → List Candidate → LifecycleAction (List (Candidate × ℕ))
  unfolding resolve_cell
  resolve_cells get_live_cell [] = pure []
  resolve_cells get_live_cell (c ∷ cs) =
      resolve_cell c (resolve_cells get_live_cell cs) (get_live_cell c.tx_hash c.index)

  abbrev pub settle_found : String → Candidate → Option WatchedOutpoint → LifecycleAction (Unit {0})
  settle_found tx_hash c none = pure tt
  settle_found tx_hash c (some watch) = mark_watch_spent setting c.tx_hash c.index tx_hash

  -- The watch on a reclaimed cell, if it is active.
  unfoldable pub settle_watch : String → Candidate → LifecycleAction (Unit {0})
  unfolding mark_watch_spent list_active
  settle_watch tx_hash c w =
      settle_found tx_hash c (select_one (of_outpoint c.tx_hash c.index) (list_active w.watches)) w

  unfoldable pub credit_fresh : Signed → List (Candidate × ℕ) → LifecycleAction (Unit {0})
  unfolding transition_message settle_watch release_capacity burn_fee prune_spent_watches
  credit_fresh signed covered = do
    for_each
        (λ c. transition_message setting c.0.row_id reclaimed >> settle_watch signed.tx_hash c.0)
        covered
    (if net (total covered) signed.estimated_fee == 0
        then pure tt
        else release_capacity setting (net (total covered) signed.estimated_fee))
    (if signed.estimated_fee == 0 then pure tt else burn_fee setting signed.estimated_fee)
    modify prune_spent_watches

  unfoldable pub journal_row : Signed → List (Candidate × ℕ) → NewTransaction
  journal_row signed covered = record {
    tx_hash = signed.tx_hash;
    purpose =
        setting.concat "reclaim:" (setting.join "," (map setting.print_integer (row_ids covered)));
    state = "submitted";
    fee_shannon = some signed.estimated_fee;
    submitted_at_ms = some setting.now;
    capacity_shannon = some (total covered);
    tx_hex = some signed.tx_hex;
  }

  unfoldable pub finish_fresh_won :
      Signed → List (Candidate × ℕ) → ℕ → LifecycleAction ReclaimBatchResult
  unfolding credit_fresh
  finish_fresh_won signed covered won = do
    (if won == 0 then pure tt else credit_fresh signed covered)
    pure (record {
      tx_hash = signed.tx_hash;
      reclaimed_row_ids = row_ids covered;
      released_shannon = if won == 0 then 0 else net (total covered) signed.estimated_fee;
      resumed = false;
      abandoned = false;
    })

  unfoldable pub finish_fresh : Signed → List (Candidate × ℕ) → LifecycleAction ReclaimBatchResult
  unfolding mark_outgoing_tx_state_if finish_fresh_won
  finish_fresh signed covered =
      mark_outgoing_tx_state_if setting signed.tx_hash "submitted" "committed"
      >>= finish_fresh_won signed covered

  -- A batch of live cells: journalled, then sent, then waited for.
  unfoldable pub reclaim_covered : Chain → List (Candidate × ℕ) → LifecycleAction ReclaimBatchResult
  unfolding transition_message record_outgoing_tx journal_row finish_fresh
      wait_for_transaction_commit
  reclaim_covered chain covered = do
    for_each (λ c. transition_message setting c.0.row_id reclaim_pending) covered
    signed ← lift (lift_build (chain.build (map (λ c. (c.0.tx_hash, c.0.index)) covered)))
    record_outgoing_tx setting (journal_row signed covered)
    accepted ← lift (lift_monitor (chain.send_transaction signed.tx_hex))
    raise_if (not (str_eq accepted signed.tx_hash)) different_hash
    lift (
        lift_monitor
          (wait_for_transaction_commit chain.timeout_ms chain.started signed.tx_hash chain.polls))
    finish_fresh signed covered

  abbrev pub unless_empty :
      Chain → List (Candidate × ℕ) → LifecycleAction (Option ReclaimBatchResult)
  unless_empty chain [] = pure none
  unless_empty chain (c ∷ covered) = reclaim_covered chain (c ∷ covered) >>= λ r. pure (some r)

  -- The candidates: the queued ones, then those left pending.
  unfoldable pub candidates : World → List Candidate
  unfolding list_outgoing_by_state
  candidates w = with_cells (
      list_outgoing_by_state setting reclaim_queued w
      ++ list_outgoing_by_state setting reclaim_pending w)

  unfoldable pub fresh_batch : Chain → LifecycleAction (Option ReclaimBatchResult)
  unfolding candidates resolve_cells reclaim_covered
  fresh_batch chain w = (resolve_cells chain.get_live_cell (candidates w) >>= unless_empty chain) w

  abbrev pub batch_from :
      Chain → Option OutgoingTransaction → LifecycleAction (Option ReclaimBatchResult)
  batch_from chain none = fresh_batch chain
  batch_from chain (some journaled) =
      if str_eq journaled.state "submitted"
      then (resume_batch chain journaled >>= λ r. pure (some r))
      else fresh_batch chain

  unfoldable pub execute_reclaim_batch : Chain → LifecycleAction (Option ReclaimBatchResult)
  unfolding find_latest_outgoing_tx_by_purpose_prefix resume_batch fresh_batch
  execute_reclaim_batch chain w =
      batch_from chain (find_latest_outgoing_tx_by_purpose_prefix setting "reclaim:" w) w
