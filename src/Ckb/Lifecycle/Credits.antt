-- ===== src/Ckb/Lifecycle/Credits.antt =====
-- A journalled reclaim that was finished is not credited again.
use cemp_mobile.Prelude.{
  ℕ, ◌≡◌, refl, sym, ap, subst, ◌∙◌, Bool, true, false, List, [], ◌∷◌, some, ok, if◌then◌else◌,
  ◌==◌,
}
use cemp_mobile.Prelude.Actions.{pure, and_then, Keeps, chain}
use cemp_mobile.Database.MessageStates.{reclaimed}
use cemp_mobile.Database.OutgoingTransactions.{OutgoingTransaction, mark_state_if, get_by_tx_hash}
use cemp_mobile.Ckb.Lifecycle.{
  World, Setting, transition_message, release_capacity, burn_fee, committed_at, with_messages,
  with_balances, with_journal,
}
use cemp_mobile.Ckb.Lifecycle.Reclaim.{
  ReclaimBatchResult, for_each, net, credit, finish_won, finish_resumed,
}
use cemp_mobile.Ckb.Lifecycle.History.{settle-keeps}
use mathlib.Core.Option.{get_or}
use cemp_mobile.Ckb.Lifecycle.Flows.{Flow, run_flows, run_flows-keeps}
use cemp_mobile.Ckb.Lifecycle.Settled.{
  IsSettled, Settled, Settled-StoreKeeps, loses, marked-IsSettled,
}

module _ (setting : Setting) (before : List OutgoingTransaction) where
  SameJournal : World → Type 0
  SameJournal w = w.journal ≡ before

  each-SameJournal :
      (ids : List ℕ)
      → Keeps SameJournal (for_each (λ id. transition_message setting id reclaimed) ids)
  each-SameJournal [] = λ w p. p
  each-SameJournal (id ∷ ids) =
      chain SameJournal (transition_message setting id reclaimed)
        (λ _. for_each (λ id. transition_message setting id reclaimed) ids) (λ w p. moved w p)
        λ _. each-SameJournal ids
    where
      moved : Keeps SameJournal (transition_message setting id reclaimed)
      moved w p =
          unfold SameJournal in
          unfold transition_message in
          settle-keeps (λ w. w.journal ≡ before) with_messages _ w p (λ t e. p)

  release-SameJournal :
      (b : Bool) (amount : ℕ)
      → Keeps SameJournal (if b then pure tt else release_capacity setting amount)
  unfolding SameJournal release_capacity
  release-SameJournal true amount w p = p
  release-SameJournal false amount w p =
      settle-keeps (λ w. w.journal ≡ before) with_balances _ w p (λ t e. p)

  burn-SameJournal :
      (b : Bool) (fee : ℕ) → Keeps SameJournal (if b then pure tt else burn_fee setting fee)
  unfolding SameJournal burn_fee
  burn-SameJournal true fee w p = p
  burn-SameJournal false fee w p = p

  credit-SameJournal :
      (ids : List ℕ) (capacity fee : ℕ) → Keeps SameJournal (credit setting ids capacity fee)
  unfolding credit
  credit-SameJournal ids capacity fee =
      chain {B = Unit {0}} SameJournal
        (for_each (λ id. transition_message setting id reclaimed) ids) _ (each-SameJournal ids)
        λ _.
          chain {B = Unit {0}} SameJournal
            (if net capacity fee == 0 then pure tt else release_capacity setting (net capacity fee))
            _ (release-SameJournal (net capacity fee == 0) (net capacity fee))
            λ _. burn-SameJournal (fee == 0) fee

  won-SameJournal :
      (tx : OutgoingTransaction) (ids : List ℕ) (won : ℕ)
      → Keeps SameJournal (finish_won setting tx ids won)
  unfolding finish_won
  won-SameJournal tx ids won =
      chain {B = ReclaimBatchResult} SameJournal
        (if won == 0
          then pure tt
          else credit setting ids (get_or tx.capacity_shannon 0) (get_or tx.fee_shannon 0))
        _ (credited (won == 0)) λ _ w p. p
    where
      credited :
          (b : Bool)
          → Keeps SameJournal (
              if b
              then pure tt
              else credit setting ids (get_or tx.capacity_shannon 0) (get_or tx.fee_shannon 0))
      credited true = λ w p. p
      credited false =
          credit-SameJournal ids (get_or tx.capacity_shannon 0) (get_or tx.fee_shannon 0)

-- The answer of a caller that loses the transition.
abbrev pub lost : OutgoingTransaction → List ℕ → ReclaimBatchResult
lost tx ids = record {
  tx_hash = tx.tx_hash;
  reclaimed_row_ids = ids;
  released_shannon = 0;
  resumed = true;
  abandoned = false;
}

-- A journalled reclaim is credited at most once: after a call that finished it, whether the call
-- returned or threw in the middle of its credit, and after any history of acknowledgements,
-- reservations, reclaim batches, responses and polls, a second call for the same transaction, at
-- whatever time, loses the transition to "committed", releases nothing, burns no fee and leaves every
-- table as it is.
pub finish_resumed-again :
    (setting later : Setting) (tx t : OutgoingTransaction) (ids again_ids : List ℕ)
    (flows : List (Setting × Flow)) (w : World)
    → get_by_tx_hash tx.tx_hash w.journal ≡ some t
    → let v = run_flows flows (finish_resumed setting tx ids w).1 in
      finish_resumed later tx again_ids v ≡ (ok (lost tx again_ids), v)
unfolding finish_resumed Settled
finish_resumed-again setting later tx t ids again_ids flows w there =
    ap (and_then (finish_won later tx again_ids)) (loses tx.tx_hash later _ settled)
    ∙ (unfold finish_won in refl)
  where
    marked : List OutgoingTransaction
    marked =
        (mark_state_if tx.tx_hash "submitted" "committed" (committed_at setting.now) w.journal).0

    journal_left : (finish_resumed setting tx ids w).1.journal ≡ marked
    journal_left =
        unfold SameJournal in
        won-SameJournal setting marked tx ids
          (mark_state_if tx.tx_hash "submitted" "committed" (committed_at setting.now) w.journal).1
          (with_journal marked w) refl

    settled : Settled tx.tx_hash (run_flows flows (finish_resumed setting tx ids w).1)
    settled =
        run_flows-keeps (Settled tx.tx_hash) (Settled-StoreKeeps tx.tx_hash) flows
          (finish_resumed setting tx ids w).1
          (subst (IsSettled tx.tx_hash) (sym journal_left)
            (marked-IsSettled tx.tx_hash setting.now w.journal t there))
