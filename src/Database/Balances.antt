-- ===== src/Database/Balances.antt =====
-- packages/cemp-database/src/repositories/balances.ts: a wallet's capacity by category, in shannon.
-- Amounts are BigInt in the source, so that they do not wrap, except in the fee's own statement,
-- which SQLite computes on 64-bit integers; they are not negative.
pub mod Moves
pub mod Examples
use cemp_mobile.Prelude.{
  ℕ, ◌+◌, ◌-◌, Option, none, some, Result, ok, err, if◌then◌else◌, ltb, ◌==◌, min, ◌>>=◌, Bool,
  List,
}
use cemp_mobile.Database.Errors.{DatabaseError, constraint_violation, not_found}
use cemp_mobile.Database.Table.{select_one, update_where}

pub record WalletBalance : Type 0 where
  pub wallet_id : ℕ
  pub total_shannon : ℕ
  pub available_shannon : ℕ
  pub reserved_shannon : ℕ
  pub reclaimable_shannon : ℕ
  pub pending_shannon : ℕ
  pub updated_at_ms : ℕ

abbrev pub of_wallet : ℕ → WalletBalance → Bool
of_wallet wallet_id b = b.wallet_id == wallet_id

unfoldable pub row_or_throw : Option WalletBalance → Result DatabaseError WalletBalance
row_or_throw none = err not_found
row_or_throw (some b) = ok b

unfoldable pub get_balance : ℕ → List WalletBalance → Result DatabaseError WalletBalance
unfolding row_or_throw
get_balance wallet_id rows = row_or_throw (select_one (of_wallet wallet_id) rows)

-- The columns that `#move` names, with their values in a row.
pub data Category : Type 0 where
  available reserved reclaimable pending : Category

abbrev pub value_of : Category → WalletBalance → ℕ
value_of available b = b.available_shannon
value_of reserved b = b.reserved_shannon
value_of reclaimable b = b.reclaimable_shannon
value_of pending b = b.pending_shannon

abbrev pub set_value : Category → ℕ → WalletBalance → WalletBalance
set_value available v b = record b { available_shannon = v }
set_value reserved v b = record b { reserved_shannon = v }
set_value reclaimable v b = record b { reclaimable_shannon = v }
set_value pending v b = record b { pending_shannon = v }

-- `#move` on the row that it read: both columns are written from the values before the move.
unfoldable pub move_row :
    Category → Category → ℕ → ℕ → WalletBalance → Result DatabaseError WalletBalance
move_row from to amount now b =
    if ltb (value_of from b) amount
    then err constraint_violation
    else ok
        (record (set_value to (value_of to b + amount)
          (set_value from (value_of from b - amount) b)) { updated_at_ms = now })

unfoldable pub move :
    Category → Category → ℕ → ℕ → ℕ → List WalletBalance → Result DatabaseError (List WalletBalance)
move from to wallet_id amount now rows =
    if amount == 0
    then err constraint_violation
    else (get_balance wallet_id rows >>= λ b. move_row from to amount now b >>= λ b'.
        ok (update_where (of_wallet wallet_id) (λ _. b') rows))

unfoldable pub reserve_capacity :
    ℕ → ℕ → ℕ → List WalletBalance → Result DatabaseError (List WalletBalance)
reserve_capacity = move available reserved

unfoldable pub mark_reclaimable :
    ℕ → ℕ → ℕ → List WalletBalance → Result DatabaseError (List WalletBalance)
mark_reclaimable = move reserved reclaimable

unfoldable pub release_reclaimed_capacity :
    ℕ → ℕ → ℕ → List WalletBalance → Result DatabaseError (List WalletBalance)
release_reclaimed_capacity = move reclaimable available

-- SQLite's largest integer.
abbrev pub max_integer : ℕ
max_integer = 9223372036854775807

-- CAST(... AS INTEGER) of a column's digits: a larger number is the largest integer.
abbrev pub cast_integer : ℕ → ℕ
cast_integer amount = min amount max_integer

-- MAX(0, CAST(reclaimable AS INTEGER) - CAST(? AS INTEGER)); the subtraction on ℕ stops at 0.
unfoldable pub record_fee_burn : ℕ → ℕ → ℕ → List WalletBalance → List WalletBalance
record_fee_burn wallet_id amount now rows =
    if amount == 0
    then rows
    else update_where (of_wallet wallet_id)
        (λ b. record b {
          reclaimable_shannon = cast_integer b.reclaimable_shannon - cast_integer amount;
          updated_at_ms = now;
        })
        rows

-- The reconciled reserved and reclaimable amounts of `setChainBalances`.
pub reconcile : ℕ → ℕ → ℕ → ℕ × ℕ
reconcile chain_reserved reserved_now reclaimable_now =
    if ltb chain_reserved (reserved_now + reclaimable_now)
    then (let reclaimable' =
          if ltb chain_reserved reclaimable_now then chain_reserved else reclaimable_now in
        (chain_reserved - reclaimable', reclaimable'))
    else if ltb (reserved_now + reclaimable_now) chain_reserved
    then (chain_reserved - reclaimable_now, reclaimable_now)
    else (reserved_now, reclaimable_now)

pub set_chain_balances :
    ℕ → ℕ → ℕ → Option ℕ → ℕ → List WalletBalance → Result DatabaseError (List WalletBalance)
set_chain_balances wallet_id total now_available none now rows = ok (
    update_where (of_wallet wallet_id)
      (λ b. record b {
        total_shannon = total;
        available_shannon = now_available;
        updated_at_ms = now;
      })
      rows)
set_chain_balances wallet_id total now_available (some chain_reserved) now rows =
    get_balance wallet_id rows >>= λ b.
    let (reserved', reclaimable') =
      reconcile chain_reserved b.reserved_shannon b.reclaimable_shannon in
    ok (
      update_where (of_wallet wallet_id)
        (λ x. record x {
          total_shannon = total;
          available_shannon = now_available;
          reserved_shannon = reserved';
          reclaimable_shannon = reclaimable';
          updated_at_ms = now;
        })
        rows)
