-- ===== src/Database/OutgoingTransactions.antt =====
-- packages/cemp-database/src/repositories/outgoing-transactions.ts: the journal of the transactions
-- that are sent, recorded before they are broadcast.
pub mod Journal
pub mod Examples
use cemp_mobile.Prelude.{
  ℕ, ◌≡◌, Bool, List, [], ◌∷◌, Option, none, some, Result, ok, err, String, str_eq, if◌then◌else◌,
  ◌==◌, ◌&&◌, take,
}
use cemp_mobile.Database.Errors.{DatabaseError, not_found, adapter_error}
use cemp_mobile.Database.Table.{select_one, select_all, update_where, changes, insert_or_ignore}
use mathlib.Core.List.{reverse}

pub record OutgoingTransaction : Type 0 where
  pub tx_hash : String
  pub purpose : String
  pub state : String
  pub fee_shannon : Option ℕ
  pub submitted_at_ms : Option ℕ
  pub committed_at_ms : Option ℕ
  pub block_hash : Option String
  pub capacity_shannon : Option ℕ
  pub tx_hex : Option String

-- The argument of `record`.
pub record NewTransaction : Type 0 where
  pub tx_hash : String
  pub purpose : String
  pub state : String
  pub fee_shannon : Option ℕ
  pub submitted_at_ms : Option ℕ
  pub capacity_shannon : Option ℕ
  pub tx_hex : Option String

pub record Patch : Type 0 where
  pub committed_at_ms : Option ℕ
  pub block_hash : Option String

abbrev pub of_tx_hash : String → OutgoingTransaction → Bool
of_tx_hash tx_hash t = str_eq t.tx_hash tx_hash

-- COALESCE(?, column)
abbrev pub coalesce {ℓ} : {A : Type ℓ} → Option A → Option A → Option A
coalesce (some a) old = some a
coalesce none old = old

unfoldable pub row_of : NewTransaction → OutgoingTransaction
row_of input = record {
  tx_hash = input.tx_hash;
  purpose = input.purpose;
  state = input.state;
  fee_shannon = input.fee_shannon;
  submitted_at_ms = input.submitted_at_ms;
  committed_at_ms = none;
  block_hash = none;
  capacity_shannon = input.capacity_shannon;
  tx_hex = input.tx_hex;
}

-- The row read back after the INSERT.
unfoldable pub read_back :
    String
    → List OutgoingTransaction
    → Result DatabaseError (OutgoingTransaction × List OutgoingTransaction)
read_back tx_hash rows = elim (select_one (of_tx_hash tx_hash) rows) [
  | none ↦ err adapter_error
  | some row ↦ ok (row, rows)
]

unfoldable pub record_tx :
    NewTransaction
    → List OutgoingTransaction
    → Result DatabaseError (OutgoingTransaction × List OutgoingTransaction)
unfolding read_back
record_tx input rows =
    read_back input.tx_hash (insert_or_ignore (of_tx_hash input.tx_hash) (row_of input) rows).0

unfoldable pub get_by_tx_hash : String → List OutgoingTransaction → Option OutgoingTransaction
get_by_tx_hash tx_hash rows = select_one (of_tx_hash tx_hash) rows

-- ORDER BY id DESC LIMIT 1: the last row that fits.
unfoldable pub find_latest_by_purpose :
    String → List OutgoingTransaction → Option OutgoingTransaction
find_latest_by_purpose purpose rows = select_one (λ t. str_eq t.purpose purpose) (reverse rows)

-- `like purpose prefix` is SQLite's test purpose LIKE 'prefix%', the prefix's wildcards escaped.
unfoldable pub find_latest_by_purpose_prefix :
    (String → String → Bool) → String → List OutgoingTransaction → Option OutgoingTransaction
find_latest_by_purpose_prefix like prefix rows =
    select_one (λ t. like t.purpose prefix) (reverse rows)

unfoldable pub patched : String → Patch → OutgoingTransaction → OutgoingTransaction
patched state patch t = record t {
  state = state;
  committed_at_ms = coalesce patch.committed_at_ms t.committed_at_ms;
  block_hash = coalesce patch.block_hash t.block_hash;
}

unfoldable pub mark_state :
    String
    → String
    → Patch
    → List OutgoingTransaction
    → Result DatabaseError (List OutgoingTransaction)
mark_state tx_hash state patch rows =
    if changes (of_tx_hash tx_hash) rows == 0
    then err not_found
    else ok (update_where (of_tx_hash tx_hash) (patched state patch) rows)

-- The new table and the number of rows changed.
unfoldable pub mark_state_if :
    String → String → String → Patch → List OutgoingTransaction → List OutgoingTransaction × ℕ
mark_state_if tx_hash expected_from_state state patch rows =
    let fits =
      λ (t : OutgoingTransaction). of_tx_hash tx_hash t && str_eq t.state expected_from_state in
    (update_where fits (patched state patch) rows, changes fits rows)

pub list_by_state : String → ℕ → List OutgoingTransaction → List OutgoingTransaction
list_by_state state limit rows = take limit (select_all (λ t. str_eq t.state state) rows)
