-- ===== src/Ckb/Lifecycle/Settled.antt =====
-- A journalled transaction that is no longer "submitted" stays so, whatever the store is asked.
use cemp_mobile.Prelude.{
  ℕ, ◌≡◌, refl, ap, ap₂, subst, ◌∙◌, Bool, true, false, ◌&&◌, List, none, some, ok, String, str_eq,
  ◌==◌, Bool-cases, inl, inr, Option-cases, eq_iff, arith,
}
use cemp_mobile.Database.Table.{
  update_where, changes, select_one, insert_or_ignore, select_one-append_found,
}
use cemp_mobile.Database.OutgoingTransactions.{
  OutgoingTransaction, Patch, patched, of_tx_hash, mark_state_if, NewTransaction, mark_state,
  record_tx, read_back, row_of, get_by_tx_hash,
}
use cemp_mobile.Ckb.Lifecycle.{
  World, Setting, transition_message, release_capacity, burn_fee, mark_outgoing_tx_state_if,
  committed_at, mark_attachment_remote_downloaded, with_messages, with_balances, with_journal,
  mark_outgoing_tx_state, record_outgoing_tx, reserve_store_capacity, mark_capacity_reclaimable,
  register_watch, mark_watch_spent, prune_spent_watches, table_of, with_watches, unpatched,
}
use cemp_mobile.Ckb.Lifecycle.History.{settle-keeps}
use cemp_mobile.Ckb.Lifecycle.Keeping.{StoreKeeps}
use cemp_mobile.Database.Table.Updates.{
  changes-update, changes-update_self, update_where-none, changes-append, select_one-update_kept,
}

abbrev is_submitted : String → OutgoingTransaction → Bool
is_submitted hash t = of_tx_hash hash t && str_eq t.state "submitted"

-- A row that was marked with another state is not submitted.
committed_apart :
    (hash : String) (patch : Patch) (t : OutgoingTransaction)
    → is_submitted hash (patched "committed" patch t) ≡ false
unfolding patched
committed_apart hash patch t = both (str_eq t.tx_hash hash)
  where
    both : (b : Bool) → (b && false) ≡ false
    both true = refl
    both false = refl

abandoned_apart :
    (hash : String) (patch : Patch) (t : OutgoingTransaction)
    → is_submitted hash (patched "abandoned" patch t) ≡ false
unfolding patched
abandoned_apart hash patch t = both (str_eq t.tx_hash hash)
  where
    both : (b : Bool) → (b && false) ≡ false
    both true = refl
    both false = refl

patched-hash :
    (hash state : String) (patch : Patch) (t : OutgoingTransaction)
    → of_tx_hash hash (patched state patch t) ≡ of_tx_hash hash t
unfolding patched
patched-hash hash state patch t = refl

-- The journal has the transaction, in another state than "submitted".
module _ (hash : String) where
  unfoldable pub IsSettled : List OutgoingTransaction → Type 0
  IsSettled rows =
      ((t : OutgoingTransaction) × (get_by_tx_hash hash rows ≡ some t))
      × (changes (is_submitted hash) rows ≡ 0)

  update-IsSettled :
      (q : OutgoingTransaction → Bool) (state : String) (patch : Patch)
      → ((t : OutgoingTransaction) → is_submitted hash (patched state patch t) ≡ false)
      → (rows : List OutgoingTransaction) → IsSettled rows
      → IsSettled (update_where q (patched state patch) rows)
  unfolding IsSettled get_by_tx_hash
  update-IsSettled q state patch h rows ((t, there), none_left) = (
    select_one-update_kept (of_tx_hash hash) q (patched state patch) (patched-hash hash state patch)
        rows t there,
    changes-update (is_submitted hash) q (patched state patch) h rows none_left,
  )

  abandoned-IsSettled :
      (other : String) (rows rows' : List OutgoingTransaction)
      → mark_state other "abandoned" unpatched rows ≡ ok rows'
      → IsSettled rows
      → IsSettled rows'
  unfolding mark_state
  abandoned-IsSettled other rows rows' e settled =
      elim (Bool-cases (changes (of_tx_hash other) rows == 0)) [
        | inl missing ↦ absurd (ground (arith, missing, e))
        | inr found ↦ subst IsSettled (ground (arith, found, e)) (
            update-IsSettled (of_tx_hash other) "abandoned" unpatched
              (abandoned_apart hash unpatched) rows settled)
      ]

  inserted-IsSettled :
      (input : NewTransaction) (rows : List OutgoingTransaction)
      → IsSettled rows
      → IsSettled (insert_or_ignore (of_tx_hash input.tx_hash) (row_of input) rows).0
  unfolding insert_or_ignore IsSettled get_by_tx_hash row_of
  inserted-IsSettled input rows ((t, there), none_left) =
      elim (Option-cases (select_one (of_tx_hash input.tx_hash) rows)) [
        | inr (x, e) ↦ rw (e, insert_or_ignore) ((t, there), none_left)
        | inl e ↦
            rw (e, insert_or_ignore)
              (
                (t, select_one-append_found (of_tx_hash hash) (row_of input) t rows there),
                changes-append (is_submitted hash) (row_of input) rows (fresh e) ∙ none_left,
              )
      ]
    where
      fresh :
          select_one (of_tx_hash input.tx_hash) rows ≡ none
          → is_submitted hash (row_of input) ≡ false
      fresh e = elim (Bool-cases (str_eq input.tx_hash hash)) [
        | inl same ↦ absurd (
            cc (
              e,
              there,
              ap (λ h. select_one (of_tx_hash h) rows) ((eq_iff input.tx_hash hash).0 same),
            ))
        | inr apart ↦ rw apart
      ]

  read_back-table :
      (key : String) (table rows : List OutgoingTransaction)
      → table_of (read_back key table) ≡ ok rows
      → table ≡ rows
  unfolding read_back
  read_back-table key table rows e = elim (Option-cases (select_one (of_tx_hash key) table)) [
    | inl z ↦ absurd (ground (arith, z, e))
    | inr (x, z) ↦ ground (arith, z, e)
  ]

  recorded-IsSettled :
      (input : NewTransaction) (rows rows' : List OutgoingTransaction)
      → table_of (record_tx input rows) ≡ ok rows'
      → IsSettled rows
      → IsSettled rows'
  unfolding record_tx
  recorded-IsSettled input rows rows' e settled =
      subst IsSettled (read_back-table input.tx_hash _ rows' e)
        (inserted-IsSettled input rows settled)

  unfoldable pub Settled : World → Type 0
  Settled w = IsSettled w.journal

  pub Settled-StoreKeeps : (setting : Setting) → StoreKeeps setting Settled
  unfolding Settled transition_message mark_outgoing_tx_state mark_outgoing_tx_state_if
      mark_state_if record_outgoing_tx reserve_store_capacity mark_capacity_reclaimable
      release_capacity burn_fee register_watch mark_watch_spent prune_spent_watches
      mark_attachment_remote_downloaded
  Settled-StoreKeeps setting = record {
    transitions = λ id to w p. settle-keeps Settled with_messages _ w p (λ t e. p);
    marks = λ other w p.
        settle-keeps Settled with_journal (mark_state other "abandoned" unpatched w.journal) w p
          (λ rows e. abandoned-IsSettled other w.journal rows e p);
    marks_if = λ other w p.
        update-IsSettled _ "committed" (committed_at setting.now)
          (committed_apart hash (committed_at setting.now)) w.journal p;
    records = λ input w p.
        settle-keeps Settled with_journal (table_of (record_tx input w.journal)) w p
          (λ rows e. recorded-IsSettled input w.journal rows e p);
    reserves = λ amount w p. settle-keeps Settled with_balances _ w p (λ t e. p);
    reclaims = λ amount w p. settle-keeps Settled with_balances _ w p (λ t e. p);
    releases = λ amount w p. settle-keeps Settled with_balances _ w p (λ t e. p);
    burns = λ amount w p. p;
    registers = λ other index purpose w p. settle-keeps Settled with_watches _ w p (λ t e. p);
    spends = λ other index by w p. settle-keeps Settled with_watches _ w p (λ t e. p);
    prunes = λ w p. p;
    downloads = λ id w p. p;
  }

  -- The transition to "committed" is lost on a settled journal, and changes nothing.
  pub loses :
      (setting : Setting) (w : World)
      → Settled w
      → mark_outgoing_tx_state_if setting hash "submitted" "committed" w ≡ (ok 0, w)
  unfolding Settled IsSettled mark_outgoing_tx_state_if mark_state_if
  loses setting w (there, none_left) =
      ap₂ (λ n journal. (ok n, with_journal journal w)) none_left
        (update_where-none (is_submitted hash) (patched "committed" (committed_at setting.now))
          w.journal none_left)

  -- The journal after the first transition is settled.
  pub marked-IsSettled :
      (now : ℕ) (rows : List OutgoingTransaction) (t : OutgoingTransaction)
      → get_by_tx_hash hash rows ≡ some t
      → IsSettled (mark_state_if hash "submitted" "committed" (committed_at now) rows).0
  unfolding mark_state_if IsSettled get_by_tx_hash
  marked-IsSettled now rows t there = (
    select_one-update_kept (of_tx_hash hash) (is_submitted hash)
        (patched "committed" (committed_at now)) (patched-hash hash "committed" (committed_at now))
        rows t there,
    changes-update_self (is_submitted hash) (patched "committed" (committed_at now))
        (committed_apart hash (committed_at now)) rows,
  )
