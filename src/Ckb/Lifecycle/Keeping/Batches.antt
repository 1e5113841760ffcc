-- ===== src/Ckb/Lifecycle/Keeping/Batches.antt =====
-- packages/cemp-ckb/src/lifecycle.ts: the reclaim batch keeps what the calls of the store keep.
use cemp_mobile.Prelude.{
  ℕ, not, List, [], ◌∷◌, Option, none, some, Result, ok, err, String, str_eq, if◌then◌else◌, ◌==◌,
  map,
}
use cemp_mobile.Prelude.Actions.{pure, lift, raise_if, ◌>>=◌, ◌>>◌, Keeps, chain, either-keeps}
use cemp_mobile.Database.MessageStates.{reclaim_queued, reclaim_pending, reclaimed}
use cemp_mobile.Database.OutgoingTransactions.{OutgoingTransaction}
use cemp_mobile.Database.WatchedOutpoints.{WatchedOutpoint, of_outpoint, list_active}
use cemp_mobile.Database.Table.{select_one}
use cemp_mobile.Ckb.Monitor.{
  MonitorError, tx_rejected, timed_out, journaled_abandoned, transient, still_waiting,
  ResumeBroadcastOutcome, wait_for_transaction_commit, resume_journaled_broadcast,
}
use cemp_mobile.Ckb.Lifecycle.{
  World, different_hash, LifecycleAction, Setting, transition_message,
  find_latest_outgoing_tx_by_purpose_prefix, mark_outgoing_tx_state, mark_outgoing_tx_state_if,
  record_outgoing_tx, release_capacity, burn_fee,
}
use cemp_mobile.Ckb.Lifecycle.Reclaim.{
  CellStatus, live, dead, unknown_cell, cell_call_threw, Signed, Chain, lift_monitor, lift_build,
  for_each, Candidate, total, net, parse_reclaim_purpose, credit, finish_won, finish_resumed,
  finish_fresh, finish_fresh_won, candidates, abandon, after_resume, resume_batch, resolve_cells,
  resolve_cell, settle_found, settle_watch, credit_fresh, journal_row, reclaim_covered,
  unless_empty, fresh_batch, batch_from, execute_reclaim_batch,
}
use mathlib.Core.Option.{get_or}
use cemp_mobile.Ckb.Lifecycle.Keeping.{StoreKeeps}

module _ (setting : Setting) (P : World → Type 0) (s : StoreKeeps setting P) where
  each-keeps :
      {A : Type 0} (f : A → LifecycleAction (Unit {0}))
      → ((a : A) → Keeps P (f a))
      → (xs : List A) → Keeps P (for_each f xs)
  each-keeps f h [] = λ w p. p
  each-keeps f h (x ∷ xs) = chain P (f x) _ (h x) λ _. each-keeps f h xs

  credit-keeps : (ids : List ℕ) (capacity fee : ℕ) → Keeps P (credit setting ids capacity fee)
  unfolding credit
  credit-keeps ids capacity fee =
      chain P (for_each (λ id. transition_message setting id reclaimed) ids) _
        (each-keeps _ (λ id. s.transitions id reclaimed) ids)
        λ _.
          chain P
            (if net capacity fee == 0 then pure tt else release_capacity setting (net capacity fee))
            _
            (either-keeps P (net capacity fee == 0) (pure tt) _ (λ w p. p)
              (s.releases (net capacity fee)))
            λ _. either-keeps P (fee == 0) (pure tt) (burn_fee setting fee) (λ w p. p) (s.burns fee)

  won-keeps :
      (tx : OutgoingTransaction) (ids : List ℕ) (won : ℕ) → Keeps P (finish_won setting tx ids won)
  unfolding finish_won
  won-keeps tx ids won =
      chain P
        (if won == 0
          then pure tt
          else credit setting ids (get_or tx.capacity_shannon 0) (get_or tx.fee_shannon 0))
        _
        (either-keeps P (won == 0) (pure tt) _ (λ w p. p)
          (credit-keeps ids (get_or tx.capacity_shannon 0) (get_or tx.fee_shannon 0)))
        λ _ w p. p

  finish-keeps : (tx : OutgoingTransaction) (ids : List ℕ) → Keeps P (finish_resumed setting tx ids)
  unfolding finish_resumed
  finish-keeps tx ids =
      chain P (mark_outgoing_tx_state_if setting tx.tx_hash "submitted" "committed")
        (finish_won setting tx ids) (s.marks_if tx.tx_hash) (won-keeps tx ids)

  abandon-keeps : (tx : OutgoingTransaction) (ids : List ℕ) → Keeps P (abandon setting tx ids)
  unfolding abandon
  abandon-keeps tx ids =
      chain P (mark_outgoing_tx_state setting tx.tx_hash "abandoned") _ (s.marks tx.tx_hash) λ _.
        chain P (for_each (λ id. transition_message setting id reclaim_queued) ids) _
          (each-keeps _ (λ id. s.transitions id reclaim_queued) ids) λ _ w p. p

  after_resume-keeps :
      (tx : OutgoingTransaction) (ids : List ℕ) (r : Result MonitorError ResumeBroadcastOutcome)
      → Keeps P (after_resume setting tx ids r)
  unfolding after_resume
  after_resume-keeps tx ids (ok outcome) = finish-keeps tx ids
  after_resume-keeps tx ids (err (journaled_abandoned b)) = abandon-keeps tx ids
  after_resume-keeps tx ids (err (tx_rejected r)) = λ w p. p
  after_resume-keeps tx ids (err (timed_out st)) = λ w p. p
  after_resume-keeps tx ids (err MonitorError.different_hash) = λ w p. p
  after_resume-keeps tx ids (err (transient m)) = λ w p. p
  after_resume-keeps tx ids (err still_waiting) = λ w p. p

  resume-keeps : (c : Chain) (tx : OutgoingTransaction) → Keeps P (resume_batch setting c tx)
  unfolding resume_batch
  resume-keeps c tx =
      chain P (lift (parse_reclaim_purpose setting tx.purpose)) _ (λ w p. p)
        λ ids. after_resume-keeps tx ids (
          resume_journaled_broadcast c.timeout_ms c.node
            (record { tx_hash = tx.tx_hash; tx_hex = tx.tx_hex }))

  resolve_cell-keeps :
      (c : Candidate) (rest : LifecycleAction (List (Candidate × ℕ))) (status : CellStatus)
      → Keeps P rest
      → Keeps P (resolve_cell setting c rest status)
  unfolding resolve_cell
  resolve_cell-keeps c rest (live capacity) h =
      chain P rest (λ covered. pure ((c, capacity) ∷ covered)) h λ _ w p. p
  resolve_cell-keeps c rest dead h =
      chain P (transition_message setting c.row_id reclaim_pending)
        (λ _. transition_message setting c.row_id reclaimed >>= λ _. rest)
        (s.transitions c.row_id reclaim_pending)
        λ _.
          chain P (transition_message setting c.row_id reclaimed) (λ _. rest)
            (s.transitions c.row_id reclaimed) λ _. h
  resolve_cell-keeps c rest unknown_cell h = h
  resolve_cell-keeps c rest (cell_call_threw message) h = λ w p. p

  resolve-keeps :
      (get_live_cell : String → ℕ → CellStatus) (cs : List Candidate)
      → Keeps P (resolve_cells setting get_live_cell cs)
  unfolding resolve_cells
  resolve-keeps get_live_cell [] = λ w p. p
  resolve-keeps get_live_cell (c ∷ cs) =
      resolve_cell-keeps c (resolve_cells setting get_live_cell cs)
        (get_live_cell c.tx_hash c.index) (resolve-keeps get_live_cell cs)

  found-keeps :
      (hash : String) (c : Candidate) (watch : Option WatchedOutpoint)
      → Keeps P (settle_found setting hash c watch)
  found-keeps hash c none = λ w p. p
  found-keeps hash c (some watch) = s.spends c.tx_hash c.index hash

  settle_watch-keeps : (hash : String) (c : Candidate) → Keeps P (settle_watch setting hash c)
  unfolding settle_watch
  settle_watch-keeps hash c w =
      found-keeps hash c (select_one (of_outpoint c.tx_hash c.index) (list_active w.watches)) w

  credit_fresh-keeps :
      (signed : Signed) (covered : List (Candidate × ℕ))
      → Keeps P (credit_fresh setting signed covered)
  unfolding credit_fresh
  credit_fresh-keeps signed covered =
      chain P
        (for_each
          (λ c.
            transition_message setting c.0.row_id reclaimed
            >> settle_watch setting signed.tx_hash c.0)
          covered)
        _
        (each-keeps _
          (λ c.
            chain P (transition_message setting c.0.row_id reclaimed)
              (λ _. settle_watch setting signed.tx_hash c.0) (s.transitions c.0.row_id reclaimed)
              λ _. settle_watch-keeps signed.tx_hash c.0)
          covered)
        λ _.
          chain P
            (if net (total covered) signed.estimated_fee == 0
              then pure tt
              else release_capacity setting (net (total covered) signed.estimated_fee))
            _
            (either-keeps P (net (total covered) signed.estimated_fee == 0) (pure tt) _ (λ w p. p)
              (s.releases (net (total covered) signed.estimated_fee)))
            λ _.
              chain P
                (if signed.estimated_fee == 0
                  then pure tt
                  else burn_fee setting signed.estimated_fee)
                _
                (either-keeps P (signed.estimated_fee == 0) (pure tt) _ (λ w p. p)
                  (s.burns signed.estimated_fee))
                λ _ w p. s.prunes w p

  fresh_won-keeps :
      (signed : Signed) (covered : List (Candidate × ℕ)) (won : ℕ)
      → Keeps P (finish_fresh_won setting signed covered won)
  unfolding finish_fresh_won
  fresh_won-keeps signed covered won =
      chain P (if won == 0 then pure tt else credit_fresh setting signed covered) _
        (either-keeps P (won == 0) (pure tt) _ (λ w p. p) (credit_fresh-keeps signed covered))
        λ _ w p. p

  finish_fresh-keeps :
      (signed : Signed) (covered : List (Candidate × ℕ))
      → Keeps P (finish_fresh setting signed covered)
  unfolding finish_fresh
  finish_fresh-keeps signed covered =
      chain P (mark_outgoing_tx_state_if setting signed.tx_hash "submitted" "committed")
        (finish_fresh_won setting signed covered) (s.marks_if signed.tx_hash)
        (fresh_won-keeps signed covered)

  covered-keeps :
      (c : Chain) (covered : List (Candidate × ℕ)) → Keeps P (reclaim_covered setting c covered)
  unfolding reclaim_covered
  covered-keeps c covered =
      chain P (for_each (λ x. transition_message setting x.0.row_id reclaim_pending) covered) _
        (each-keeps _ (λ x. s.transitions x.0.row_id reclaim_pending) covered)
        λ _.
          chain P (lift (lift_build (c.build (map (λ x. (x.0.tx_hash, x.0.index)) covered)))) _
            (λ w p. p)
            λ signed.
              chain P (record_outgoing_tx setting (journal_row setting signed covered)) _
                (s.records (journal_row setting signed covered))
                λ _.
                  chain P (lift (lift_monitor (c.send_transaction signed.tx_hex))) _ (λ w p. p)
                    λ accepted.
                      chain P (raise_if (not (str_eq accepted signed.tx_hash)) different_hash) _
                        (λ w p. p)
                        λ _.
                          chain P
                            (lift (
                              lift_monitor (
                                wait_for_transaction_commit c.timeout_ms c.started signed.tx_hash
                                  c.polls)))
                            _ (λ w p. p) λ _. finish_fresh-keeps signed covered

  empty-keeps :
      (c : Chain) (covered : List (Candidate × ℕ)) → Keeps P (unless_empty setting c covered)
  empty-keeps c [] = λ w p. p
  empty-keeps c (x ∷ covered) =
      chain P (reclaim_covered setting c (x ∷ covered)) (λ r. pure (some r))
        (covered-keeps c (x ∷ covered)) λ _ w p. p

  fresh-keeps : (c : Chain) → Keeps P (fresh_batch setting c)
  unfolding fresh_batch
  fresh-keeps c w =
      chain P (resolve_cells setting c.get_live_cell (candidates setting w))
        (unless_empty setting c) (resolve-keeps c.get_live_cell (candidates setting w))
        (empty-keeps c) w

  batch-keeps :
      (c : Chain) (journaled : Option OutgoingTransaction)
      → Keeps P (batch_from setting c journaled)
  batch-keeps c none = fresh-keeps c
  batch-keeps c (some tx) =
      either-keeps P (str_eq tx.state "submitted")
        (resume_batch setting c tx >>= λ r. pure (some r)) (fresh_batch setting c)
        (chain P (resume_batch setting c tx) (λ r. pure (some r)) (resume-keeps c tx) λ _ w p. p)
        (fresh-keeps c)

  pub reclaim-keeps : (c : Chain) → Keeps P (execute_reclaim_batch setting c)
  unfolding execute_reclaim_batch
  reclaim-keeps c w =
      batch-keeps c (find_latest_outgoing_tx_by_purpose_prefix setting "reclaim:" w) w
